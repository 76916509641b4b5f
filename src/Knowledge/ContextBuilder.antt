-- ===== src/Knowledge/ContextBuilder.antt =====
-- EvidenceContextBuilder of backend/bothesis/knowledge/context_builder.py. Lengths and budgets that
-- the source lets fall below zero stop at zero here: every test on them asks only whether they are
-- positive, or above a positive bound.
pub mod Clip
pub mod Bounds
pub mod Included
use bo_thesis.Base.{
  ℕ, ◌≡◌, refl, ◌⊎◌, inl, inr, ◌+◌, ◌-◌, ◌*◌, ◌/◌, min, max, Bool, true, false, Option, none, some,
  List, [], ◌∷◌, ◌++◌, Str, codes, is_empty, join, strip, rstrip, decimal, length, take, contains,
  ltb, leb, nat_beq, if◌then◌else◌, list_beq, list_eq, nat_eq, pair_eq,
}
use bo_thesis.Knowledge.{SourceIdentity, CitationInfo, Evidence, EvidenceContext}

-- The constructor refuses limits below one.
pub record Limits : Type 0 where
  pub max_characters : ℕ
  pub max_evidence_characters : ℕ
  pub include_contextual_text : Bool

abbrev pub introduction : Str
introduction =
    codes
      "Retrieved access-permitted enterprise evidence.\nCite with [[cite:ref_id]] immediately after each claim it supports, never collected at the end. Repeat it on every claim, and place several together when a claim rests on several sources. Cite using the Source reference value, never the Document ID.\nOnly the references below exist. Never invent one, and never write a page, URL, chunk ID, or coordinate.\n\n"

-- U+2026, the ellipsis
unfoldable pub clip : Str → ℕ → Str
clip text limit =
    if leb (length text) limit then text else rstrip (take (max 1 (limit - 1)) text) ++ 8230 ∷ []

page_label : Option ℕ → Option ℕ → Option Str
page_label none none = none
page_label none (some end) = some (decimal end)
page_label (some start) none = some (decimal start)
page_label (some start) (some end) =
    if nat_beq end start
    then some (decimal start)
    else some (decimal start ++ codes "-" ++ decimal end)

abbrev optional_line : Str → Option Str → List Str
optional_line label none = []
optional_line label (some value) = (label ++ value) ∷ []

abbrev non_empty : Str → Option Str
non_empty s = if is_empty s then none else some s

abbrev source_lines : Option SourceIdentity → List Str
source_lines none = []
source_lines (some source) =
    (codes "Origin: " ++ source.provider)
    ∷ optional_line (codes "Source URL: ")
        (elim source.url [ none ↦ none | some url ↦ non_empty url ])

abbrev section_lines : List Str → List Str
section_lines [] = []
section_lines (name ∷ path) = (codes "Section: " ++ join (codes " > ") (name ∷ path)) ∷ []

-- `prefix` and `separator` of `_body`
pub context_prefix : Str
context_prefix = codes "Retrieval context (not canonical evidence):\n"

pub context_separator : Str
context_separator = codes "\nCanonical evidence:\n"

module _ {S : Type 0} where
  pub header : Evidence S → Str
  unfolding page_label
  header item =
      let title = if is_empty item.title then codes "Untitled source" else item.title in
      let lines =
        (codes "--- Document: " ++ title ++ codes " ---")
        ∷ (codes "Document ID: " ++ item.item_id)
        ∷ (codes "Source reference: " ++ item.id)
        ∷ section_lines item.section_path in
      join (codes "\n") (
        lines
        ++ optional_line (codes "Page: ")
            (page_label item.citation.page_start item.citation.page_end)
        ++ source_lines item.source)

  -- The body when retrieval context is wanted and there is some.
  body_with_context : Evidence S → Str → ℕ → Str
  body_with_context item contextual_text limit =
      let canonical = clip item.content limit in
      let contextual = strip contextual_text in
      let canonical_budget = max 1 (min (length item.content) (limit * 3 / 4)) in
      let context_budget =
        limit - length context_prefix - length context_separator - canonical_budget in
      if list_beq contextual (strip item.content)
      then canonical
      else if ltb context_budget 80
      then canonical
      else context_prefix
        ++ (clip contextual context_budget
            ++ (context_separator ++ clip item.content canonical_budget))

  body_for : Bool → Evidence S → Option Str → ℕ → Str
  unfolding body_with_context
  body_for false item contextual limit = clip item.content limit
  body_for true item none limit = clip item.content limit
  body_for true item (some contextual_text) limit =
      if is_empty contextual_text
      then clip item.content limit
      else body_with_context item contextual_text limit

  unfoldable pub body : Limits → Evidence S → ℕ → Str
  unfolding body_for
  body limits item limit = body_for limits.include_contextual_text item item.contextual_text limit

  abbrev pub identity : Evidence S → Str × Str
  identity item = (item.item_id, item.chunk_id)

-- The variables of the loop; the lists are built in order.
pub record Building (S : Type 0) : Type 0 where
  pub blocks : List Str
  pub included : List (Evidence S)
  pub seen_chunks : List (Str × Str)
  pub remaining : ℕ

-- `continue` with the next item, or `break`
pub data Flow (S : Type 0) : Type 0 where
  continue : Building S → Flow S
  break : Flow S

module _ {S : Type 0} where
  Flow-cases : (f : Flow S) → ((b : Building S) × (f ≡ continue b)) ⊎ (f ≡ break)
  Flow-cases (continue b) = inl (b, refl)
  Flow-cases break = inr refl

  abbrev pub block_of : Evidence S → Str → Str
  block_of item text = header item ++ (codes "\nEvidence:\n" ++ text)

  pub visit : Limits → Evidence S → Building S → Flow S
  unfolding header body
  visit limits item b =
      let available = min limits.max_evidence_characters (b.remaining - length (header item) - 2) in
      let text = body limits item available in
      let block = block_of item text in
      if contains b.seen_chunks (identity item)
      then continue b
      else if nat_beq available 0
      then break
      else if is_empty text
      then continue b
      else if ltb b.remaining (length block)
      then break
      else continue (record {
        blocks = b.blocks ++ block ∷ [];
        included = b.included ++ item ∷ [];
        seen_chunks = identity item ∷ b.seen_chunks;
        remaining = b.remaining - (length block + 2);
      })

  pub visit_all : Limits → List (Evidence S) → Building S → Building S
  unfolding visit
  visit_all limits [] b = b
  visit_all limits (item ∷ rest) b = elim (visit limits item b) [
    | continue b' ↦ visit_all limits rest b'
    | break ↦ b
  ]

  -- What every round that goes on keeps, the loop keeps.
  visit_all_ind :
      (limits : Limits) (P : Building S → Type 0)
      → ((item : Evidence S) (b b' : Building S) → visit limits item b ≡ continue b' → P b → P b')
      → (evidence : List (Evidence S)) (b : Building S) → P b
      → P (visit_all limits evidence b)
  unfolding visit_all
  visit_all_ind limits P step [] b h = h
  visit_all_ind limits P step (item ∷ rest) b h = elim (Flow-cases (visit limits item b)) [
    | inl (b', e) ↦ rw (e, visit_all) (visit_all_ind limits P step rest b' (step item b b' e h))
    | inr e ↦ rw (e, visit_all) h
  ]

  abbrev pub start : Limits → Building S
  start limits = record {
    blocks = [];
    included = [];
    seen_chunks = [];
    remaining = limits.max_characters - length introduction;
  }

  abbrev pub no_context : EvidenceContext S
  no_context = record { text = []; evidence = [] }

  abbrev pub finish : Building S → EvidenceContext S
  finish b =
      if is_empty b.blocks
      then no_context
      else record { text = introduction ++ join (codes "\n\n") b.blocks; evidence = b.included }

  unfoldable pub build : Limits → List (Evidence S) → EvidenceContext S
  unfolding visit_all
  build limits evidence =
      if nat_beq (limits.max_characters - length introduction) 0
      then no_context
      else finish (visit_all limits evidence (start limits))
