-- ===== src/Base/Distinct.antt =====
-- SELECT DISTINCT … ORDER BY over ids.
use Prim.Native.Nat.{ℕ, ◌<◌}
use mathlib.Core.Path.{◌≡◌}
use mathlib.Core.Logic.{◌⊎◌, inl, inr, ◌↔◌}
use mathlib.Core.List.{List, [], ◌∷◌}
use native.Mathlib.Omega.{arith}
use bo_thesis.Base.Tests.{if◌then◌else◌, ltb, nat_beq}
use bo_thesis.Base.Lists.{All}
use bo_thesis.Base.Members.{Member}

abbrev pub insert_id : ℕ → List ℕ → List ℕ
insert_id id [] = id ∷ []
insert_id id (x ∷ xs) =
    let rest = insert_id id xs in
    if nat_beq id x then x ∷ xs else if ltb id x then id ∷ (x ∷ xs) else x ∷ rest

abbrev pub distinct_ordered : List ℕ → List ℕ
distinct_ordered [] = []
distinct_ordered (x ∷ xs) = insert_id x (distinct_ordered xs)

-- Every id is less than all that follow.
abbrev pub IsAscending : List ℕ → Type 0
IsAscending [] = Unit
IsAscending (x ∷ xs) = All (λ y. x < y) xs × IsAscending xs

Member-insert_id : (a id : ℕ) (xs : List ℕ) → Member a (insert_id id xs) → (a ≡ id) ⊎ Member a xs
Member-insert_id a id [] m = m
Member-insert_id a id (x ∷ xs) m = ground (arith, Member-insert_id a id xs)

insert_id-Member : (a id : ℕ) (xs : List ℕ) → (a ≡ id) ⊎ Member a xs → Member a (insert_id id xs)
insert_id-Member a id [] m = m
insert_id-Member a id (x ∷ xs) m = ground (arith, insert_id-Member a id xs)

pub Member-distinct_ordered_iff :
    (a : ℕ) (xs : List ℕ) → Member a (distinct_ordered xs) ↔ Member a xs
Member-distinct_ordered_iff a [] = (λ m. m, λ m. m)
Member-distinct_ordered_iff a (x ∷ xs) =
    let rest = Member-distinct_ordered_iff a xs in
    (
      λ m. elim (Member-insert_id a x (distinct_ordered xs) m) [
        | inl e ↦ inl e
        | inr n ↦ inr (rest.0 n)
      ],
      λ m.
          insert_id-Member a x (distinct_ordered xs)
            (elim m [ inl e ↦ inl e | inr n ↦ inr (rest.1 n) ]),
    )

insert_id-All :
    (bound id : ℕ) (xs : List ℕ)
    → bound < id
    → All (λ y. bound < y) xs
    → All (λ y. bound < y) (insert_id id xs)
insert_id-All bound id [] lt h = (lt, tt)
insert_id-All bound id (x ∷ xs) lt h = ground (arith, insert_id-All bound id xs, h)

All-lt : (a b : ℕ) (xs : List ℕ) → a < b → All (λ y. b < y) xs → All (λ y. a < y) xs
All-lt a b [] lt h = tt
All-lt a b (x ∷ xs) lt h = (omega (arith, lt, h.0), All-lt a b xs lt h.1)

insert_id-IsAscending : (id : ℕ) (xs : List ℕ) → IsAscending xs → IsAscending (insert_id id xs)
insert_id-IsAscending id [] h = (tt, tt)
insert_id-IsAscending id (x ∷ xs) h =
    ground (arith, insert_id-IsAscending id xs h.1, insert_id-All x id xs, All-lt id x xs, h)

pub distinct_ordered-IsAscending : (xs : List ℕ) → IsAscending (distinct_ordered xs)
distinct_ordered-IsAscending [] = tt
distinct_ordered-IsAscending (x ∷ xs) =
    insert_id-IsAscending x (distinct_ordered xs) (distinct_ordered-IsAscending xs)
