-- ===== src/Agent/Reducer/RoundTrip/Places.antt =====
-- Parts that are placed one after another at a fresh item of ResponseReducer,
-- backend/bothesis/agent/reducer.py.
use bo_thesis.Base.Sorted.{sort_asc, IsAscendingBy, sort_asc_sorted}
use bo_thesis.Base.Dict.{Dict, get, put, get-put}
use bo_thesis.Base.{
  ℕ, zero, suc, ◌<◌, ◌≤◌, ◌≡◌, refl, sym, ap, ◌∙◌, none, List, [], ◌∷◌, ◌++◌, append-nil,
  append_assoc, gather, map, All, All-append, nat_beq_iff, nat_eq, list_eq, pair_eq, arith,
}
use bo_thesis.Agent.Reducer.State.{PartKey, indices}

-- The numbers below `n`.
abbrev pub below : ℕ → List ℕ
below zero = []
below (suc n) = below n ++ (n ∷ [])

below-All : (n m : ℕ) → n ≤ m → All (λ i. i < m) (below n)
below-All zero m h = tt
below-All (suc n) m h =
    All-append (λ i. i < m) (below n) (n ∷ []) (below-All n m (omega arith)) (omega arith, tt)

IsAscendingBy-append :
    (xs : List ℕ) (n : ℕ)
    → IsAscendingBy (λ i. i) xs
    → All (λ i. i < n) xs
    → IsAscendingBy (λ i. i) (xs ++ (n ∷ []))
IsAscendingBy-append [] n h k = (tt, tt)
IsAscendingBy-append (x ∷ xs) n h k =
    (All-append (λ i. x < i) xs (n ∷ []) h.0 (k.0, tt), IsAscendingBy-append xs n h.1 k.1)

below-IsAscendingBy : (n : ℕ) → IsAscendingBy (λ i. i) (below n)
below-IsAscendingBy zero = tt
below-IsAscendingBy (suc n) =
    IsAscendingBy-append (below n) n (below-IsAscendingBy n) (below-All n n (omega arith))

pub sort-below : (n : ℕ) → sort_asc (λ i. i) (below n) ≡ below n
sort-below n = sort_asc_sorted (λ i. i) (below n) (below-IsAscendingBy n)

module _ {B : Type 0} where
  gather-same :
      (f g : ℕ → List B) (xs : List ℕ) (n : ℕ)
      → All (λ i. i < n) xs
      → ((i : ℕ) → i < n → f i ≡ g i)
      → gather f xs ≡ gather g xs
  gather-same f g [] n h k = refl
  gather-same f g (x ∷ xs) n h k =
      ap (λ t. t ++ gather f xs) (k x h.0) ∙ ap (λ t. g x ++ t) (gather-same f g xs n h.1 k)

  gather-append :
      (f : ℕ → List B) (xs ys : List ℕ) → gather f (xs ++ ys) ≡ gather f xs ++ gather f ys
  gather-append f [] ys = refl
  gather-append f (x ∷ xs) ys =
      ap (λ t. f x ++ t) (gather-append f xs ys)
      ∙ sym (append_assoc (f x) (gather f xs) (gather f ys))

  -- What is read at the numbers below `n`, when the last was added.
  pub gather-below :
      (f g : ℕ → List B) (n : ℕ)
      → ((i : ℕ) → i < n → f i ≡ g i)
      → gather f (below (suc n)) ≡ gather g (below n) ++ f n
  gather-below f g n same =
      gather-append f (below n) (n ∷ [])
      ∙ ap (λ t. t ++ (f n ++ [])) (gather-same f g (below n) n (below-All n n (omega arith)) same)
      ∙ ap (λ t. gather g (below n) ++ t) (append-nil (f n))

pub map-gather : {B : Type 0} (f : ℕ → B) (xs : List ℕ) → map f xs ≡ gather (λ i. f i ∷ []) xs
map-gather f [] = refl
map-gather f (x ∷ xs) = ap (λ t. f x ∷ t) (map-gather f xs)

-- The dictionary has `n` places for the item at `o`, which are the first.
module _ {V : Type 0} where
  pub record HasPlaces (d : Dict PartKey V) (o n : ℕ) : Type 0 where
    pub places : indices d o ≡ below n
    pub fresh : (c : ℕ) → n ≤ c → get d (o, c) ≡ none

  indices-fresh :
      (d : Dict PartKey V) (o c : ℕ) (v : V)
      → get d (o, c) ≡ none
      → indices (put d (o, c) v) o ≡ indices d o ++ (c ∷ [])
  unfolding indices get put
  indices-fresh [] o c v h = ground (arith, nat_beq_iff o o)
  indices-fresh (((i, k), w) ∷ d) o c v h = ground (arith, indices-fresh d o c v, nat_beq_iff i o)

  pub put-HasPlaces :
      (d : Dict PartKey V) (o n : ℕ) (v : V)
      → HasPlaces d o n
      → HasPlaces (put d (o, n) v) o (suc n)
  put-HasPlaces d o n v p = record {
    places = indices-fresh d o n v (p.fresh n (omega arith)) ∙ ap (λ is. is ++ (n ∷ [])) p.places;
    fresh = λ c le.
        get-put d (o, n) (o, c) v ∙ ground (arith, p.fresh c (omega arith), nat_beq_iff n c);
  }
