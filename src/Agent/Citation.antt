-- ===== src/Agent/Citation.antt =====
-- CitationProjection of backend/bothesis/agent/citation_stream.py and CitationReferences of
-- agent/models/__init__.py: the markers of the model become numbers and annotations.
pub mod Markers
pub mod Projection
pub mod Numbers
use bo_thesis.Base.Dict.{Dict, get, put}
use bo_thesis.Base.{
  ℕ, zero, suc, ◌+◌, Bool, true, false, not, ◌&&◌, ◌||◌, Option, none, some, List, [], ◌∷◌, ◌++◌,
  map, Str, codes, is_empty, starts_with, length, take, drop, all, nat_beq, leb, list_eq, nat_eq,
  pair_eq, if◌then◌else◌, decimal,
}

-- `E` is the type of an evidence record; this code only passes it on.
pub data Fragment (E : Type 0) : Type 0 where
  visible : Str → Fragment E
  cited : Str → E → Fragment E

-- One round of the loop of `_process_citation_buffer`: it returns, or goes on with the rest.
pub data Step (E : Type 0) : Type 0 where
  held_back : List (Fragment E) → Str → Step E
  go_on : List (Fragment E) → Str → Step E

-- _CITATION_PREFIX
abbrev pub citation_prefix : Str
citation_prefix = codes "[[cite:"

-- s.find(c + c)
unfoldable pub find_pair : ℕ → Str → Option ℕ
find_pair c [] = none
find_pair c (x ∷ []) = none
find_pair c (x ∷ y ∷ s) =
    let later = find_pair c (y ∷ s) in
    if nat_beq x c && nat_beq y c
    then some 0
    else elim later [ none ↦ none | some i ↦ some (suc i) ]

-- s.endswith("[")
abbrev pub ends_open : Str → Bool
ends_open [] = false
ends_open (x ∷ []) = nat_beq x 91
ends_open (x ∷ y ∷ s) = ends_open (y ∷ s)

abbrev pub without_last : Str → Str
without_last [] = []
without_last (x ∷ []) = []
without_last (x ∷ y ∷ s) = x ∷ without_last (y ∷ s)

-- A fragment for text, unless it is empty.
abbrev pub before_marker : {E : Type 0} → Str → List (Fragment E)
before_marker [] = []
before_marker (x ∷ s) = visible (x ∷ s) ∷ []

-- `is_alnum` is `str.isalnum` of one character.
module _ {E : Type 0} (is_alnum : ℕ → Bool) (evidence : Dict Str E) where
  abbrev pub is_reference_character : ℕ → Bool
  is_reference_character c =
      is_alnum c || (nat_beq c 95 || (nat_beq c 46 || (nat_beq c 58 || nat_beq c 45)))

  -- A whole marker, with its brackets.
  unfoldable pub marker_fragments : Str → List (Fragment E)
  marker_fragments marker =
      let id = drop 7 (without_last (without_last marker)) in
      if starts_with citation_prefix marker
      then (elim (get evidence id) [
        | none ↦ []
        | some e ↦ if all is_reference_character id then cited id e ∷ [] else []
      ])
      else visible marker ∷ []

  -- No marker is open.
  unfoldable pub scan_plain : Str → Step E
  scan_plain remaining =
      if ends_open remaining
      then held_back (visible (without_last remaining) ∷ []) (91 ∷ [])
      else held_back (visible remaining ∷ []) []

  -- A marker that has not ended: it is held back while it can still become a citation.
  unfoldable pub scan_open : (before candidate : Str) → Step E
  scan_open before candidate =
      if (starts_with candidate citation_prefix || starts_with citation_prefix candidate)
        && leb (length candidate) 256
      then held_back (before_marker before) candidate
      else held_back (visible (before ++ candidate) ∷ []) []

  unfoldable pub scan_marker : (before candidate : Str) → Option ℕ → Step E
  unfolding scan_open marker_fragments
  scan_marker before candidate none = scan_open before candidate
  scan_marker before candidate (some inner) =
      go_on (before_marker before ++ marker_fragments (take (inner + 4) candidate))
        (drop (inner + 4) candidate)

  -- The search for the end starts after the brackets that open the marker.
  unfoldable pub scan_from : Str → Option ℕ → Step E
  unfolding scan_plain scan_marker find_pair
  scan_from remaining none = scan_plain remaining
  scan_from remaining (some start) =
      let candidate = drop start remaining in
      scan_marker (take start remaining) candidate (find_pair 93 (drop 2 candidate))

  unfoldable pub scan : Str → Step E
  unfolding scan_from find_pair
  scan remaining = scan_from remaining (find_pair 91 remaining)

  abbrev pub prepend :
      List (Fragment E) → Option (List (Fragment E) × Str) → Option (List (Fragment E) × Str)
  prepend fragments none = none
  prepend fragments (some (later, held)) = some (fragments ++ later, held)

  -- The loop on fuel; `none` stands for a loop that has not ended.
  unfoldable pub process_rounds : ℕ → Str → Option (List (Fragment E) × Str)
  unfolding scan
  process_rounds zero remaining = none
  process_rounds (suc n) [] = some ([], [])
  process_rounds (suc n) (c ∷ s) = elim (scan (c ∷ s)) [
    | held_back fragments held ↦ some (fragments, held)
    | go_on fragments rest ↦ prepend fragments (process_rounds n rest)
  ]

  -- _process_citation_buffer
  unfoldable pub process_citation_buffer : Str → Option (List (Fragment E) × Str)
  unfolding process_rounds
  process_citation_buffer buffer = process_rounds (suc (length buffer)) buffer

-- CitationReferences: the references of the chunks, and the numbers that the reader sees.
pub record CitationReferences : Type 0 where
  pub references : Dict (Str × Str) Str
  pub numbers : Dict Str ℕ

unfoldable pub reference_from :
    CitationReferences → (Str × Str) → Option Str → Str × CitationReferences
unfolding put decimal
reference_from refs identity (some existing) = (existing, refs)
reference_from refs identity none =
    let assigned = codes "ref_" ++ decimal (suc (length refs.references)) in
    (assigned, record refs { references = put refs.references identity assigned })

unfoldable pub reference : CitationReferences → Str → Str → Str × CitationReferences
unfolding get reference_from
reference refs item_id chunk_id =
    reference_from refs (item_id, chunk_id) (get refs.references (item_id, chunk_id))

unfoldable pub number_from : CitationReferences → Str → Option ℕ → ℕ × CitationReferences
unfolding put
number_from refs id (some existing) = (existing, refs)
number_from refs id none =
    let assigned = suc (length refs.numbers) in
    (assigned, record refs { numbers = put refs.numbers id assigned })

unfoldable pub number : CitationReferences → Str → ℕ × CitationReferences
unfolding get number_from
number refs id = number_from refs id (get refs.numbers id)
