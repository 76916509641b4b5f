-- ===== src/Agent/Citation/Numbers.antt =====
-- The numbers that the reader sees.
use bo_thesis.Base.Dict.{Dict, get, put, get-put}
use bo_thesis.Base.{
  ℕ, zero, suc, ◌+◌, ◌≡◌, refl, sym, ap, ◌∙◌, Option, none, some, List, [], ◌∷◌, ◌++◌, map, Str,
  length, length-append, arith, beq_refl, list_beq_iff, list_eq, nat_eq,
}
use bo_thesis.Agent.Citation.{CitationReferences, number_from, number}

-- first, first + 1, …
abbrev pub counted : (first count : ℕ) → List ℕ
counted first zero = []
counted first (suc count) = first ∷ counted (suc first) count

abbrev pub values : {V : Type 0} → Dict Str V → List V
values = map (λ (e : Str × _). e.1)

put-new :
    {V : Type 0} (d : Dict Str V) (k : Str) (v : V)
    → get d k ≡ none
    → put d k v ≡ d ++ ((k, v) ∷ [])
unfolding get put
put-new [] k v h = refl
put-new ((j, w) ∷ d) k v h = ground (arith, put-new d k v)

-- In the order in which the references were first used, the numbers are 1, 2, and so on.
abbrev pub IsCounted : CitationReferences → Type 0
IsCounted refs = values refs.numbers ≡ counted 1 (length refs.numbers)

values-append :
    {V : Type 0} (d : Dict Str V) (k : Str) (v : V)
    → values (d ++ ((k, v) ∷ [])) ≡ values d ++ (v ∷ [])
values-append [] k v = refl
values-append ((j, w) ∷ d) k v = ap (λ t. w ∷ t) (values-append d k v)

counted-append :
    (first count : ℕ) → counted first count ++ ((first + count) ∷ []) ≡ counted first (suc count)
counted-append first zero = ap (λ n. n ∷ []) (omega arith)
counted-append first (suc count) =
    ap (λ t. first ∷ t)
      (ap (λ n. counted (suc first) count ++ (n ∷ [])) (omega arith)
        ∙ counted-append (suc first) count)

length-put-new :
    {V : Type 0} (d : Dict Str V) (k : Str) (v : V)
    → get d k ≡ none
    → length (put d k v) ≡ suc (length d)
length-put-new d k v new = rw (put-new d k v new) (omega (arith, length-append d ((k, v) ∷ [])))

-- The answer of `number` is what the table holds from then on, no other number changes, and the
-- table is still counted.
abbrev pub IsNumbered : CitationReferences → Str → ℕ × CitationReferences → Type 0
IsNumbered refs id (n, after) =
    (get after.numbers id ≡ some n)
    × ((other : Str) (m : ℕ) → get refs.numbers other ≡ some m → get after.numbers other ≡ some m)
    × IsCounted after

number_from-IsNumbered :
    (refs : CitationReferences) (id : Str) (found : Option ℕ)
    → get refs.numbers id ≡ found
    → IsCounted refs
    → IsNumbered refs id (number_from refs id found)
unfolding number_from
number_from-IsNumbered refs id (some n) known counts = (known, λ other m h. h, counts)
number_from-IsNumbered refs id none new counts =
    let next = suc (length refs.numbers) in
    (
      ground (arith, get-put refs.numbers id id next, beq_refl id),
      λ other m h. ground (arith, get-put refs.numbers id other next, list_beq_iff id other),
      ap values (put-new refs.numbers id next new)
          ∙ values-append refs.numbers id next
          ∙ ap (λ t. t ++ (next ∷ [])) counts
          ∙ ap (λ n. counted 1 (length refs.numbers) ++ (n ∷ [])) (omega arith)
          ∙ counted-append 1 (length refs.numbers)
          ∙ ap (counted 1) (sym (length-put-new refs.numbers id next new)),
    )

-- If the numbers given so far count up from 1 in the order of first use, then so they do after one
-- more use: a reference keeps its number, and a new one has the next.
pub number-IsNumbered :
    (refs : CitationReferences) (id : Str) → IsCounted refs → IsNumbered refs id (number refs id)
unfolding number
number-IsNumbered refs id counts = number_from-IsNumbered refs id (get refs.numbers id) refl counts
