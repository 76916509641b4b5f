-- ===== src/Base/Members.antt =====
-- Membership of a list, and the joins that the queries of the program are.
use mathlib.Core.Path.{◌≡◌, refl, sym, ap, ◌∙◌, subst}
use mathlib.Core.Logic.{◌⊎◌, inl, inr}
use Prim.{absurd}
use mathlib.Core.Bool.{Bool, true, false, ◌||◌}
use mathlib.Core.List.{List, [], ◌∷◌, ◌++◌, map}
use native.Mathlib.Omega.{arith}
use bo_thesis.Base.Tests.{Eq, if◌then◌else◌, Bool-cases}
use bo_thesis.Base.Lists.{All, keep, contains, all}

abbrev pub Member : {A : Type 0} → A → List A → Type 0
Member a [] = ⊥
Member a (x ∷ xs) = (a ≡ x) ⊎ Member a xs

-- [y for x in xs for y in f(x)]
abbrev pub gather : {A B : Type 0} → (A → List B) → List A → List B
gather f [] = []
gather f (x ∷ xs) = f x ++ gather f xs

module _ {A : Type 0} where
  pub Member-append_left : (a : A) (xs ys : List A) → Member a xs → Member a (xs ++ ys)
  Member-append_left a [] ys m = absurd m
  Member-append_left a (x ∷ xs) ys (inl e) = inl e
  Member-append_left a (x ∷ xs) ys (inr m) = inr (Member-append_left a xs ys m)

  pub Member-append_right : (a : A) (xs ys : List A) → Member a ys → Member a (xs ++ ys)
  Member-append_right a [] ys m = m
  Member-append_right a (x ∷ xs) ys m = inr (Member-append_right a xs ys m)

  pub Member-append_cases :
      (a : A) (xs ys : List A) → Member a (xs ++ ys) → Member a xs ⊎ Member a ys
  Member-append_cases a [] ys m = inr m
  Member-append_cases a (x ∷ xs) ys (inl e) = inl (inl e)
  Member-append_cases a (x ∷ xs) ys (inr m) = elim (Member-append_cases a xs ys m) [
    | inl k ↦ inl (inr k)
    | inr k ↦ inr k
  ]

  pub Member-keep :
      (a : A) (p : A → Bool) (xs : List A) → Member a xs → p a ≡ true → Member a (keep p xs)
  Member-keep a p [] m h = absurd m
  Member-keep a p (x ∷ xs) (inl e) h = let h2 = ap p (sym e) ∙ h in rw h2 (inl e)
  Member-keep a p (x ∷ xs) (inr m) h = elim (Bool-cases (p x)) [
    | inl shown ↦ rw shown (inr (Member-keep a p xs m h))
    | inr hidden ↦ rw hidden (Member-keep a p xs m h)
  ]

  pub Member-keep_cases :
      (a : A) (p : A → Bool) (xs : List A) → Member a (keep p xs) → Member a xs × (p a ≡ true)
  Member-keep_cases a p [] m = absurd m
  Member-keep_cases a p (x ∷ xs) m = elim (Bool-cases (p x)) [
    | inl shown ↦ elim (subst (λ t. Member a (if t then x ∷ keep p xs else keep p xs)) shown m) [
      | inl e ↦ (inl e, ap p e ∙ shown)
      | inr k ↦ let (n, h) = Member-keep_cases a p xs k in (inr n, h)
    ]
    | inr hidden ↦
        let (n, h) =
          Member-keep_cases a p xs
            (subst (λ t. Member a (if t then x ∷ keep p xs else keep p xs)) hidden m) in
        (inr n, h)
  ]

module _ {A B : Type 0} (f : A → List B) where
  pub Member-gather :
      (a : A) (b : B) (xs : List A) → Member a xs → Member b (f a) → Member b (gather f xs)
  Member-gather a b [] m n = absurd m
  Member-gather a b (x ∷ xs) (inl e) n =
      Member-append_left b (f x) (gather f xs) (subst (λ t. Member b (f t)) e n)
  Member-gather a b (x ∷ xs) (inr m) n =
      Member-append_right b (f x) (gather f xs) (Member-gather a b xs m n)

  pub Member-gather_cases :
      (b : B) (xs : List A) → Member b (gather f xs) → (a : A) × Member a xs × Member b (f a)
  Member-gather_cases b [] m = absurd m
  Member-gather_cases b (x ∷ xs) m = elim (Member-append_cases b (f x) (gather f xs) m) [
    | inl here ↦ (x, inl refl, here)
    | inr there ↦ let (a, n, k) = Member-gather_cases b xs there in (a, inr n, k)
  ]

module _ {A B : Type 0} where
  pub Member-map : (a : A) (g : A → B) (xs : List A) → Member a xs → Member (g a) (map g xs)
  Member-map a g [] m = absurd m
  Member-map a g (x ∷ xs) (inl e) = inl (ap g e)
  Member-map a g (x ∷ xs) (inr m) = inr (Member-map a g xs m)

  pub Member-map_cases :
      (b : B) (g : A → B) (xs : List A) → Member b (map g xs) → (a : A) × Member a xs × (b ≡ g a)
  Member-map_cases b g [] m = absurd m
  Member-map_cases b g (x ∷ xs) (inl e) = (x, inl refl, e)
  Member-map_cases b g (x ∷ xs) (inr m) = let (a, n, e) = Member-map_cases b g xs m in (a, inr n, e)

pub contains→Member :
    {A : Type 0} ⦃e : Eq A⦄ (xs : List A) (a : A) → contains xs a ≡ true → Member a xs
contains→Member [] a h = cc
contains→Member ⦃e⦄ (x ∷ xs) a h = elim (Bool-cases (e.beq x a)) [
  | inl same ↦ inl (sym ((e.beq_iff x a).0 same))
  | inr other ↦ inr (contains→Member xs a (subst (λ t. (t || contains xs a) ≡ true) other h))
]

pub Member→contains :
    {A : Type 0} ⦃e : Eq A⦄ (xs : List A) (a : A) → Member a xs → contains xs a ≡ true
Member→contains [] a m = absurd m
Member→contains ⦃e⦄ (x ∷ xs) a (inl same) = ground (arith, (e.beq_iff x a).1 (sym same))
Member→contains ⦃e⦄ (x ∷ xs) a (inr m) = ground (arith, Member→contains xs a m)

pub Member-if :
    {A : Type 0} (a : A) (b : Bool) (xs : List A)
    → Member a (if b then xs else [])
    → (b ≡ true) × Member a xs
Member-if a true xs m = (refl, m)
Member-if a false xs m = absurd m

pub all-Member :
    {A : Type 0} (p : A → Bool) (xs : List A) (a : A) → all p xs ≡ true → Member a xs → p a ≡ true
all-Member p [] a h m = absurd m
all-Member p (x ∷ xs) a h (inl e) = ap p e ∙ ground arith
all-Member p (x ∷ xs) a h (inr m) = all-Member p xs a (ground arith) m

pub All-weaken :
    {A : Type 0} (P Q : A → Type 0) (xs : List A) → ((a : A) → P a → Q a) → All P xs → All Q xs
All-weaken P Q [] f h = tt
All-weaken P Q (x ∷ xs) f h = (f x h.0, All-weaken P Q xs f h.1)

pub All-Member_self : {A : Type 0} (xs : List A) → All (λ a. Member a xs) xs
All-Member_self [] = tt
All-Member_self (x ∷ xs) = (
  inl refl,
  All-weaken (λ a. Member a xs) (λ a. Member a (x ∷ xs)) xs (λ a m. inr m) (All-Member_self xs),
)
