-- ===== src/Agent/Citation/Markers.antt =====
-- The rounds of the loop of `_process_citation_buffer`, citation_stream.py.
use Prim.{absurd}
use bo_thesis.Base.Dict.{Dict, get}
use bo_thesis.Base.{
  ℕ, zero, suc, ◌+◌, ◌≤◌, ◌<◌, ◌≡◌, inl, inr, refl, Bool, true, ◌&&◌, ◌||◌, Option, none, some,
  List, [], ◌∷◌, Str, length, length-drop, take, drop, all, All, All-append, starts_with, leb,
  arith, Bool-cases, list_eq, nat_eq, if◌then◌else◌,
}
use bo_thesis.Agent.Citation.{
  Fragment, visible, cited, Step, held_back, go_on, citation_prefix, ends_open, before_marker,
  is_reference_character, marker_fragments, scan_plain, scan_open, scan_marker, scan_from, scan,
  prepend, process_rounds, process_citation_buffer,
}

module _ {E : Type 0} (is_alnum : ℕ → Bool) (evidence : Dict Str E) where
  -- A citation is of the evidence that retrieval issued under that reference.
  abbrev pub IsGrounded : Fragment E → Type 0
  IsGrounded (visible text) = Unit
  IsGrounded (cited id e) =
      (get evidence id ≡ some e) × (all (is_reference_character is_alnum evidence) id ≡ true)

  -- What a round leaves: little text, or less than it started with.
  abbrev IsRound : ℕ → Step E → Type 0
  IsRound size (held_back fragments held) = All IsGrounded fragments × (length held ≤ 256)
  IsRound size (go_on fragments rest) = All IsGrounded fragments × (length rest < size)

  before_marker-IsGrounded : (s : Str) → All IsGrounded (before_marker s)
  before_marker-IsGrounded [] = tt
  before_marker-IsGrounded (c ∷ s) = (tt, tt)

  looked_up-IsGrounded :
      (id : Str) (found : Option E)
      → get evidence id ≡ found
      → All IsGrounded (elim found [
        | none ↦ []
        | some e ↦ if all (is_reference_character is_alnum evidence) id then cited id e ∷ [] else []
      ])
  looked_up-IsGrounded id none h = tt
  looked_up-IsGrounded id (some e) h =
      elim (Bool-cases (all (is_reference_character is_alnum evidence) id)) [
        | inl plain ↦ rw plain ((h, plain), tt)
        | inr other ↦ rw other tt
      ]

  marker_fragments-IsGrounded :
      (marker : Str) → All IsGrounded (marker_fragments is_alnum evidence marker)
  unfolding marker_fragments
  marker_fragments-IsGrounded marker = elim (Bool-cases (starts_with citation_prefix marker)) [
    | inl citation ↦ rw citation (looked_up-IsGrounded _ _ refl)
    | inr text ↦ rw text (tt, tt)
  ]

  scan_plain-IsRound : (size : ℕ) (s : Str) → IsRound size (scan_plain is_alnum evidence s)
  unfolding scan_plain
  scan_plain-IsRound size s = elim (Bool-cases (ends_open s)) [
    | inl half ↦ rw half ((tt, tt), omega arith)
    | inr plain ↦ rw plain ((tt, tt), omega arith)
  ]

  scan_open-IsRound :
      (size : ℕ) (before candidate : Str)
      → IsRound size (scan_open is_alnum evidence before candidate)
  unfolding scan_open
  scan_open-IsRound size before candidate =
      elim (Bool-cases (
        (starts_with candidate citation_prefix || starts_with citation_prefix candidate)
        && leb (length candidate) 256)) [
          | inl may_end ↦ rw may_end (before_marker-IsGrounded before, ground (arith, may_end))
          | inr text ↦ rw text ((tt, tt), omega arith)
        ]

  scan_marker-IsRound :
      (size : ℕ) (before candidate : Str) (inner : Option ℕ)
      → length candidate ≤ size
      → 0 < size
      → IsRound size (scan_marker is_alnum evidence before candidate inner)
  unfolding scan_marker
  scan_marker-IsRound size before candidate none le some_text =
      scan_open-IsRound size before candidate
  scan_marker-IsRound size before candidate (some inner) le some_text = (
    All-append IsGrounded (before_marker before) _ (before_marker-IsGrounded before)
        (marker_fragments-IsGrounded (take (inner + 4) candidate)),
    omega (arith, le, some_text, length-drop (inner + 4) candidate),
  )

  scan_from-IsRound :
      (c : ℕ) (s : Str) (start : Option ℕ)
      → IsRound (length (c ∷ s)) (scan_from is_alnum evidence (c ∷ s) start)
  unfolding scan_from
  scan_from-IsRound c s none = scan_plain-IsRound _ (c ∷ s)
  scan_from-IsRound c s (some start) =
      scan_marker-IsRound _ _ (drop start (c ∷ s)) _ (omega (arith, length-drop start (c ∷ s)))
        (omega arith)

  scan-IsRound : (c : ℕ) (s : Str) → IsRound (length (c ∷ s)) (scan is_alnum evidence (c ∷ s))
  unfolding scan
  scan-IsRound c s = scan_from-IsRound c s _

  -- A result of the loop: grounded citations, and at most 256 characters for the next call.
  abbrev pub IsProcessed : Option (List (Fragment E) × Str) → Type 0
  IsProcessed none = ⊥
  IsProcessed (some (fragments, held)) = All IsGrounded fragments × (length held ≤ 256)

  prepend-IsProcessed :
      (fragments : List (Fragment E)) (result : Option (List (Fragment E) × Str))
      → All IsGrounded fragments
      → IsProcessed result
      → IsProcessed (prepend is_alnum evidence fragments result)
  prepend-IsProcessed fragments none h k = k
  prepend-IsProcessed fragments (some (later, held)) h k =
      (All-append IsGrounded fragments later h k.0, k.1)

  after-IsProcessed :
      (n size : ℕ) (step : Step E)
      → IsRound size step
      → ((rest : Str) → length rest < size → IsProcessed (process_rounds is_alnum evidence n rest))
      → IsProcessed (elim step [
        | held_back fragments held ↦ some (fragments, held)
        | go_on fragments rest ↦
            prepend is_alnum evidence fragments (process_rounds is_alnum evidence n rest)
      ])
  after-IsProcessed n size (held_back fragments held) h later = h
  after-IsProcessed n size (go_on fragments rest) h later =
      prepend-IsProcessed fragments _ h.0 (later rest h.1)

  process_rounds-IsProcessed :
      (n : ℕ) (s : Str) → length s < n → IsProcessed (process_rounds is_alnum evidence n s)
  unfolding process_rounds
  process_rounds-IsProcessed zero s lt = absurd (omega (arith, lt))
  process_rounds-IsProcessed (suc n) [] lt = (tt, omega arith)
  process_rounds-IsProcessed (suc n) (c ∷ s) lt =
      after-IsProcessed n (length (c ∷ s)) _ (scan-IsRound c s)
        λ rest shorter. process_rounds-IsProcessed n rest (omega (arith, lt, shorter))

  -- The loop over a buffer ends, in not more rounds than the buffer has characters and one; every
  -- citation that it finds is of evidence under that reference, whose characters are those of a
  -- reference; and it holds back at most 256 characters.
  pub process_citation_buffer-IsProcessed :
      (buffer : Str) → IsProcessed (process_citation_buffer is_alnum evidence buffer)
  unfolding process_citation_buffer
  process_citation_buffer-IsProcessed buffer =
      process_rounds-IsProcessed (suc (length buffer)) buffer (omega arith)
