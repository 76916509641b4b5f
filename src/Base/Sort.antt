-- ===== src/Base/Sort.antt =====
-- `sorted(xs, key=..., reverse=True)`: descending by a weak order, equal keys in their old order.
use mathlib.Core.Path.{◌≡◌}
use mathlib.Core.Bool.{Bool, true, false}
use mathlib.Core.List.{List, [], ◌∷◌, Perm}
use mathlib.Core.List.Perm
use Prim.Native.Nat.{ℕ, zero, suc}
use bo_thesis.Base.Tests.{if◌then◌else◌, Bool-cases}
use bo_thesis.Base.Lists.{All, take}
use mathlib.Core.Logic.{inl, inr}

-- `<` on values that can all be compared (for floats: none is NaN).
pub record WeakOrder {ℓ} (K : Type ℓ) : Type ℓ where
  pub lt : K → K → Bool
  pub lt_asym : (a b : K) → lt a b ≡ true → lt b a ≡ false
  pub not-lt_trans : (a b c : K) → lt a b ≡ false → lt b c ≡ false → lt a c ≡ false

module _ {ℓ κ} {A : Type ℓ} {K : Type κ} (order : WeakOrder K) (key : A → K) where
  -- Of equals the inserted one, which stood earlier, comes first.
  unfoldable pub insert_desc : A → List A → List A
  insert_desc x [] = x ∷ []
  insert_desc x (y ∷ ys) =
      let rest = insert_desc x ys in if order.lt (key x) (key y) then y ∷ rest else x ∷ y ∷ ys

  unfoldable pub sort_desc : List A → List A
  unfolding insert_desc
  sort_desc [] = []
  sort_desc (x ∷ xs) = insert_desc x (sort_desc xs)

  -- No element is below one that stands after it.
  abbrev pub IsBelow : A → List A → Type 0
  IsBelow x [] = Unit
  IsBelow x (y ∷ ys) = (order.lt (key x) (key y) ≡ false) × IsBelow x ys

  abbrev pub IsDesc : List A → Type 0
  IsDesc [] = Unit
  IsDesc (x ∷ xs) = IsBelow x xs × IsDesc xs

  insert_desc-perm : (x : A) (xs : List A) → Perm (insert_desc x xs) (x ∷ xs)
  unfolding insert_desc
  insert_desc-perm x [] = Perm.refl _
  insert_desc-perm x (y ∷ ys) = elim (Bool-cases (order.lt (key x) (key y))) [
    | inl lower ↦ rw lower (Perm.trans (Perm.cons y (insert_desc-perm x ys)) (Perm.swap x y ys))
    | inr high ↦ rw high (Perm.refl _)
  ]

  pub sort_desc-perm : (xs : List A) → Perm (sort_desc xs) xs
  unfolding sort_desc
  sort_desc-perm [] = Perm.refl _
  sort_desc-perm (x ∷ xs) =
      Perm.trans (insert_desc-perm x (sort_desc xs)) (Perm.cons x (sort_desc-perm xs))

  IsBelow-trans :
      (x y : A) (ys : List A) → order.lt (key x) (key y) ≡ false → IsBelow y ys → IsBelow x ys
  IsBelow-trans x y [] h k = tt
  IsBelow-trans x y (z ∷ zs) h k =
      (order.not-lt_trans (key x) (key y) (key z) h k.0, IsBelow-trans x y zs h k.1)

  IsBelow-insert_desc :
      (z x : A) (xs : List A)
      → order.lt (key z) (key x) ≡ false
      → IsBelow z xs
      → IsBelow z (insert_desc x xs)
  unfolding insert_desc
  IsBelow-insert_desc z x [] h k = (h, tt)
  IsBelow-insert_desc z x (y ∷ ys) h k = elim (Bool-cases (order.lt (key x) (key y))) [
    | inl lower ↦ rw lower (k.0, IsBelow-insert_desc z x ys h k.1)
    | inr high ↦ rw high (h, k)
  ]

  insert_desc-IsDesc : (x : A) (xs : List A) → IsDesc xs → IsDesc (insert_desc x xs)
  unfolding insert_desc
  insert_desc-IsDesc x [] h = (tt, tt)
  insert_desc-IsDesc x (y ∷ ys) h = elim (Bool-cases (order.lt (key x) (key y))) [
    | inl lower ↦ rw lower (
      IsBelow-insert_desc y x ys (order.lt_asym (key x) (key y) lower) h.0,
      insert_desc-IsDesc x ys h.1,
    )
    | inr high ↦ rw high ((high, IsBelow-trans x y ys high h.0), h)
  ]

  pub sort_desc-IsDesc : (xs : List A) → IsDesc (sort_desc xs)
  unfolding sort_desc
  sort_desc-IsDesc [] = tt
  sort_desc-IsDesc (x ∷ xs) = insert_desc-IsDesc x (sort_desc xs) (sort_desc-IsDesc xs)

module _ {ℓ κ μ} {A : Type ℓ} {K : Type κ} (order : WeakOrder K) (key : A → K)
    (P : A → Type μ) where
  All-insert_desc : (x : A) (xs : List A) → P x → All P xs → All P (insert_desc order key x xs)
  unfolding insert_desc
  All-insert_desc x [] p h = (p, tt)
  All-insert_desc x (y ∷ ys) p h = elim (Bool-cases (order.lt (key x) (key y))) [
    | inl lower ↦ rw lower (h.0, All-insert_desc x ys p h.1)
    | inr high ↦ rw high (p, h)
  ]

  pub All-sort_desc : (xs : List A) → All P xs → All P (sort_desc order key xs)
  unfolding sort_desc
  All-sort_desc [] h = tt
  All-sort_desc (x ∷ xs) h = All-insert_desc x (sort_desc order key xs) h.0 (All-sort_desc xs h.1)

module _ {ℓ κ} {A : Type ℓ} {K : Type κ} (order : WeakOrder K) (key : A → K) where
  pub IsDesc-take : (n : ℕ) (xs : List A) → IsDesc order key xs → IsDesc order key (take n xs)
  IsDesc-take zero xs h = tt
  IsDesc-take (suc n) [] h = tt
  IsDesc-take (suc n) (x ∷ xs) h = (IsBelow-take n xs h.0, IsDesc-take n xs h.1)
    where
      IsBelow-take :
          (m : ℕ) (ys : List A) → IsBelow order key x ys → IsBelow order key x (take m ys)
      IsBelow-take zero ys k = tt
      IsBelow-take (suc m) [] k = tt
      IsBelow-take (suc m) (y ∷ ys) k = (k.0, IsBelow-take m ys k.1)
