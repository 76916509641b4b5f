-- ===== src/Knowledge/ContextBuilder/Bounds.antt =====
-- The character budget of EvidenceContextBuilder.build.
use bo_thesis.Base.{
  ℕ, ◌+◌, ◌-◌, ◌≤◌, ◌≡◌, min, false, List, [], ◌∷◌, ◌++◌, Str, codes, join, length, length-append,
  arith, is_empty,
}
use bo_thesis.Knowledge.{Evidence}
use bo_thesis.Knowledge.ContextBuilder.{
  Limits, Building, continue, introduction, body, header, block_of, visit, visit_all, start, build,
  visit_all_ind,
}

-- The blocks with two characters more for each.
abbrev weight : List Str → ℕ
weight [] = 0
weight (s ∷ blocks) = length s + 2 + weight blocks

weight-append : (xs ys : List Str) → weight (xs ++ ys) ≡ weight xs + weight ys
weight-append [] ys = omega arith
weight-append (x ∷ xs) ys = omega (arith, weight-append xs ys)

weight-le_two : (blocks : List Str) → is_empty blocks ≡ false → 2 ≤ weight blocks
weight-le_two [] h = cc
weight-le_two (s ∷ blocks) h = omega arith

length-join-le : (blocks : List Str) → length (join (codes "\n\n") blocks) ≤ weight blocks - 2
length-join-le [] = omega arith
length-join-le (s ∷ []) = omega arith
length-join-le (s ∷ t ∷ rest) =
    omega
      (arith, length-append s (10 ∷ 10 ∷ join (codes "\n\n") (t ∷ rest)), length-join-le (t ∷ rest))

module _ {S : Type 0} where
  record Fits (budget : ℕ) (b : Building S) : Type 0 where
    within : weight b.blocks ≤ budget + 2
    left : b.remaining ≡ budget - weight b.blocks

  visit-Fits :
      (budget : ℕ) (limits : Limits) (item : Evidence S) (b b' : Building S)
      → visit limits item b ≡ continue b'
      → Fits budget b
      → Fits budget b'
  unfolding visit
  visit-Fits budget limits item b b' e h =
      let text =
        body limits item
          (min limits.max_evidence_characters (b.remaining - length (header item) - 2)) in
      ground (arith, weight-append b.blocks (block_of item text ∷ []))

  -- The text of the context, introduction and separators included, keeps the character budget.
  pub length-build-le :
      (limits : Limits) (evidence : List (Evidence S))
      → length (build limits evidence).text ≤ limits.max_characters
  unfolding build
  length-build-le limits evidence =
      let budget = limits.max_characters - length introduction in
      let b = visit_all limits evidence (start limits) in
      let h : Fits budget b =
        visit_all_ind limits (Fits budget) (visit-Fits budget limits) evidence (start limits)
          (omega arith) in
      ground (
        arith,
        weight-le_two b.blocks,
        length-join-le b.blocks,
        length-append introduction (join (codes "\n\n") b.blocks),
      )
