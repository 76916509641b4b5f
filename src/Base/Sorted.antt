-- ===== src/Base/Sorted.antt =====
-- `sorted(xs)` by a key that is a number: ascending, equal keys in their old order.
use Prim.Native.Nat.{ℕ, ◌<◌}
use mathlib.Core.Path.{◌≡◌, refl, ap, ◌∙◌}
use mathlib.Core.List.{List, [], ◌∷◌, Perm}
use mathlib.Core.List.Perm
use mathlib.Core.Logic.{inl, inr}
use native.Mathlib.Omega.{arith}
use bo_thesis.Base.Tests.{if◌then◌else◌, leb, Bool-cases}
use bo_thesis.Base.Lists.{All}

module _ {ℓ} {A : Type ℓ} (key : A → ℕ) where
  unfoldable pub insert_asc : A → List A → List A
  insert_asc x [] = x ∷ []
  insert_asc x (y ∷ ys) =
      let rest = insert_asc x ys in if leb (key x) (key y) then x ∷ y ∷ ys else y ∷ rest

  unfoldable pub sort_asc : List A → List A
  unfolding insert_asc
  sort_asc [] = []
  sort_asc (x ∷ xs) = insert_asc x (sort_asc xs)

  -- Every key is below those that follow.
  abbrev pub IsAscendingBy : List A → Type 0
  IsAscendingBy [] = Unit
  IsAscendingBy (x ∷ xs) = All (λ y. key x < key y) xs × IsAscendingBy xs

  insert_asc_first : (x : A) (xs : List A) → All (λ y. key x < key y) xs → insert_asc x xs ≡ x ∷ xs
  unfolding insert_asc
  insert_asc_first x [] h = refl
  insert_asc_first x (y ∷ ys) h = ground (arith, h.0)

  -- A list that is in order stays as it is.
  pub sort_asc_sorted : (xs : List A) → IsAscendingBy xs → sort_asc xs ≡ xs
  unfolding sort_asc
  sort_asc_sorted [] h = refl
  sort_asc_sorted (x ∷ xs) h =
      ap (insert_asc x) (sort_asc_sorted xs h.1) ∙ insert_asc_first x xs h.0

  insert_asc-perm : (x : A) (xs : List A) → Perm (insert_asc x xs) (x ∷ xs)
  unfolding insert_asc
  insert_asc-perm x [] = Perm.refl _
  insert_asc-perm x (y ∷ ys) = elim (Bool-cases (leb (key x) (key y))) [
    | inl first ↦ rw first (Perm.refl _)
    | inr later ↦ rw later (Perm.trans (Perm.cons y (insert_asc-perm x ys)) (Perm.swap x y ys))
  ]

  pub sort_asc-perm : (xs : List A) → Perm (sort_asc xs) xs
  unfolding sort_asc
  sort_asc-perm [] = Perm.refl _
  sort_asc-perm (x ∷ xs) =
      Perm.trans (insert_asc-perm x (sort_asc xs)) (Perm.cons x (sort_asc-perm xs))

module _ {ℓ κ} {A : Type ℓ} (key : A → ℕ) (P : A → Type κ) where
  All-insert_asc : (x : A) (xs : List A) → P x → All P xs → All P (insert_asc key x xs)
  unfolding insert_asc
  All-insert_asc x [] p h = (p, tt)
  All-insert_asc x (y ∷ ys) p h = elim (Bool-cases (leb (key x) (key y))) [
    | inl first ↦ rw first (p, h)
    | inr later ↦ rw later (h.0, All-insert_asc x ys p h.1)
  ]

  pub All-sort_asc : (xs : List A) → All P xs → All P (sort_asc key xs)
  unfolding sort_asc
  All-sort_asc [] h = tt
  All-sort_asc (x ∷ xs) h = All-insert_asc x (sort_asc key xs) h.0 (All-sort_asc xs h.1)
