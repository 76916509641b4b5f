-- ===== src/Base/Lists.antt =====
-- Lists counted by native numbers, under the library's names, and Python's tests over sequences.
use Prim.Native.Nat.{ℕ, zero, suc, ◌+◌, ◌-◌, ◌≤◌}
use mathlib.Core.Path.{◌≡◌, refl, ap}
use mathlib.Core.Logic.{inl, inr}
use mathlib.Core.Bool.{Bool, true, false, ◌&&◌, ◌||◌}
use mathlib.Core.Option.{Option, none, some}
use mathlib.Core.List.{List, [], ◌∷◌, ◌++◌, map}
use native.Mathlib.Omega.{arith}
use bo_thesis.Base.Tests.{Eq, if◌then◌else◌, beq_refl, Bool-cases}

module _ {ℓ} {A : Type ℓ} where
  abbrev pub length : List A → ℕ
  length [] = 0
  length (x ∷ xs) = suc (length xs)

  -- xs[:n] and xs[n:] for a slice bound that is not negative
  abbrev pub take : ℕ → List A → List A
  take zero xs = []
  take (suc n) [] = []
  take (suc n) (x ∷ xs) = x ∷ take n xs

  abbrev pub drop : ℕ → List A → List A
  drop zero xs = xs
  drop (suc n) [] = []
  drop (suc n) (x ∷ xs) = drop n xs

  abbrev pub get_elem? : List A → ℕ → Option A
  get_elem? [] i = none
  get_elem? (x ∷ xs) zero = some x
  get_elem? (x ∷ xs) (suc i) = get_elem? xs i

  abbrev pub any : (A → Bool) → List A → Bool
  any p [] = false
  any p (x ∷ xs) = p x || any p xs

  abbrev pub all : (A → Bool) → List A → Bool
  all p [] = true
  all p (x ∷ xs) = p x && all p xs

  -- [x for x in xs if p(x)]
  abbrev pub keep : (A → Bool) → List A → List A
  keep p [] = []
  keep p (x ∷ xs) = if p x then x ∷ keep p xs else keep p xs

  abbrev pub All {κ} : (A → Type κ) → List A → Type κ
  All P [] = Unit
  All P (x ∷ xs) = P x × All P xs

module _ {ℓ} {A : Type ℓ} where
  pub length-append : (xs ys : List A) → length (xs ++ ys) ≡ length xs + length ys
  length-append [] ys = omega arith
  length-append (x ∷ xs) ys = omega (arith, length-append xs ys)

  pub length-take-le : (n : ℕ) (xs : List A) → length (take n xs) ≤ n
  length-take-le zero xs = omega arith
  length-take-le (suc n) [] = omega arith
  length-take-le (suc n) (x ∷ xs) = omega (arith, length-take-le n xs)

  pub length-take-le_length : (n : ℕ) (xs : List A) → length (take n xs) ≤ length xs
  length-take-le_length zero xs = omega arith
  length-take-le_length (suc n) [] = omega arith
  length-take-le_length (suc n) (x ∷ xs) = omega (arith, length-take-le_length n xs)

  pub length-keep-le : (p : A → Bool) (xs : List A) → length (keep p xs) ≤ length xs
  length-keep-le p [] = omega arith
  length-keep-le p (x ∷ xs) = ground (arith, length-keep-le p xs)

  pub length-drop : (n : ℕ) (xs : List A) → length (drop n xs) ≡ length xs - n
  length-drop zero xs = omega arith
  length-drop (suc n) [] = omega arith
  length-drop (suc n) (x ∷ xs) = omega (arith, length-drop n xs)

  pub take-append-drop : (n : ℕ) (xs : List A) → take n xs ++ drop n xs ≡ xs
  take-append-drop zero xs = refl
  take-append-drop (suc n) [] = refl
  take-append-drop (suc n) (x ∷ xs) = ap (λ t. x ∷ t) (take-append-drop n xs)

module _ {ℓ κ} {A : Type ℓ} (P : A → Type κ) where
  pub All-append : (xs ys : List A) → All P xs → All P ys → All P (xs ++ ys)
  All-append [] ys h k = k
  All-append (x ∷ xs) ys h k = (h.0, All-append xs ys h.1 k)

  pub All-append_right : (xs ys : List A) → All P (xs ++ ys) → All P ys
  All-append_right [] ys h = h
  All-append_right (x ∷ xs) ys h = All-append_right xs ys h.1

  pub All-take : (n : ℕ) (xs : List A) → All P xs → All P (take n xs)
  All-take zero xs h = tt
  All-take (suc n) [] h = tt
  All-take (suc n) (x ∷ xs) h = (h.0, All-take n xs h.1)

  pub All-keep : (p : A → Bool) (xs : List A) → All P xs → All P (keep p xs)
  All-keep p [] h = tt
  All-keep p (x ∷ xs) h = ground (arith, All-keep p xs h.1)

module _ {ℓ} {A : Type ℓ} ⦃e : Eq A⦄ where
  -- x in xs
  abbrev pub contains : List A → A → Bool
  contains [] a = false
  contains (x ∷ xs) a = e.beq x a || contains xs a

  -- len(xs) == len(set(xs))
  abbrev pub is_unique : List A → Bool
  is_unique [] = true
  is_unique (x ∷ xs) = if contains xs x then false else is_unique xs

module _ {ℓ} {A : Type ℓ} ⦃e : Eq A⦄ where
  pub contains-append :
      (xs ys : List A) (a : A) → contains (xs ++ ys) a ≡ (contains xs a || contains ys a)
  contains-append [] ys a = refl
  contains-append (x ∷ xs) ys a = ground (arith, contains-append xs ys a)

  -- Appending a new element keeps a list without repetition.
  pub is_unique-append :
      (xs : List A) (a : A)
      → is_unique xs ≡ true
      → contains xs a ≡ false
      → is_unique (xs ++ a ∷ []) ≡ true
  is_unique-append [] a u h = refl
  is_unique-append (x ∷ xs) a u h =
      ground
        (arith, is_unique-append xs a, contains-append xs (a ∷ []) x, e.beq_iff x a, e.beq_iff a x)

pub All-keep_test {ℓ} :
    {A : Type ℓ} (p : A → Bool) (xs : List A) → All (λ x. p x ≡ true) (keep p xs)
All-keep_test p [] = tt
All-keep_test p (x ∷ xs) = elim (Bool-cases (p x)) [
  | inl kept ↦ rw kept (kept, All-keep_test p xs)
  | inr left_out ↦ rw left_out (All-keep_test p xs)
]

pub length-map {ℓ κ} :
    {A : Type ℓ} {B : Type κ} (f : A → B) (xs : List A) → length (map f xs) ≡ length xs
length-map f [] = refl
length-map f (x ∷ xs) = ap suc (length-map f xs)

module _ {ℓ} {A : Type ℓ} ⦃e : Eq A⦄ where
  pub contains-take :
      (n : ℕ) (xs : List A) (a : A) → contains xs a ≡ false → contains (take n xs) a ≡ false
  contains-take zero xs a h = refl
  contains-take (suc n) [] a h = refl
  contains-take (suc n) (x ∷ xs) a h = ground (arith, contains-take n xs a)

  pub is_unique-take : (n : ℕ) (xs : List A) → is_unique xs ≡ true → is_unique (take n xs) ≡ true
  is_unique-take zero xs u = refl
  is_unique-take (suc n) [] u = refl
  is_unique-take (suc n) (x ∷ xs) u = ground (arith, is_unique-take n xs, contains-take n xs x)

  -- Two lists without repetition that share no element make one.
  pub is_unique-append_disjoint :
      (xs ys : List A)
      → is_unique xs ≡ true
      → is_unique ys ≡ true
      → All (λ x. contains ys x ≡ false) xs
      → is_unique (xs ++ ys) ≡ true
  is_unique-append_disjoint [] ys u v h = v
  is_unique-append_disjoint (x ∷ xs) ys u v h =
      ground (arith, is_unique-append_disjoint xs ys, contains-append xs ys x, h.0, h.1)

  pub all-append_true :
      (p : A → Bool) (xs ys : List A) → all p xs ≡ true → all p ys ≡ true → all p (xs ++ ys) ≡ true
  all-append_true p [] ys h k = k
  all-append_true p (x ∷ xs) ys h k = ground (arith, all-append_true p xs ys)

  pub all-take : (p : A → Bool) (n : ℕ) (xs : List A) → all p xs ≡ true → all p (take n xs) ≡ true
  all-take p zero xs h = refl
  all-take p (suc n) [] h = refl
  all-take p (suc n) (x ∷ xs) h = ground (arith, all-take p n xs)

  -- A list whose every element passes a test, and the same of a longer test.
  pub all-contains_cons :
      (x : A) (xs ys : List A) → all (contains xs) ys ≡ true → all (contains (x ∷ xs)) ys ≡ true
  all-contains_cons x xs [] h = refl
  all-contains_cons x xs (y ∷ ys) h = ground (arith, all-contains_cons x xs ys)

pub take-map {ℓ κ} :
    {A : Type ℓ} {B : Type κ} (f : A → B) (n : ℕ) (xs : List A)
    → map f (take n xs) ≡ take n (map f xs)
take-map f zero xs = refl
take-map f (suc n) [] = refl
take-map f (suc n) (x ∷ xs) = ap (λ t. f x ∷ t) (take-map f n xs)

module _ {ℓ} {A : Type ℓ} ⦃e : Eq A⦄ where
  All-contains_cons :
      (x : A) (xs ys : List A)
      → All (λ a. contains xs a ≡ true) ys
      → All (λ a. contains (x ∷ xs) a ≡ true) ys
  All-contains_cons x xs [] h = tt
  All-contains_cons x xs (y ∷ ys) h = (ground (arith, h.0), All-contains_cons x xs ys h.1)

  -- A list contains its elements.
  pub All-contains_self : (xs : List A) → All (λ a. contains xs a ≡ true) xs
  All-contains_self [] = tt
  All-contains_self (x ∷ xs) =
      (ground (arith, beq_refl x), All-contains_cons x xs xs (All-contains_self xs))

  pub all-contains_self : (xs : List A) → all (contains xs) xs ≡ true
  all-contains_self [] = refl
  all-contains_self (x ∷ xs) =
      ground (arith, beq_refl x, all-contains_cons x xs xs, all-contains_self xs)

pub All-map {ℓ κ} :
    {A : Type ℓ} {P Q : A → Type κ} (f : (a : A) → P a → Q a) (xs : List A) → All P xs → All Q xs
All-map f [] h = tt
All-map f (x ∷ xs) h = (f x h.0, All-map f xs h.1)

pub All-drop : {A : Type 0} (Q : A → Type 0) (n : ℕ) (xs : List A) → All Q xs → All Q (drop n xs)
All-drop Q zero xs h = h
All-drop Q (suc n) [] h = tt
All-drop Q (suc n) (x ∷ xs) h = All-drop Q n xs h.1
