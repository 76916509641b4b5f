-- ===== src/Knowledge/ContextBuilder/Included.antt =====
-- Which evidence the context holds.
use mathlib.Core.List.{Sublistᴰ, map-append}
use bo_thesis.Base.{
  ◌≡◌, ◌⊎◌, refl, sym, ap, ◌∙◌, true, false, List, [], ◌∷◌, ◌++◌, Str, map, contains, is_unique,
  arith, inl, inr, list_eq, nat_eq, pair_eq, is_unique-append, contains-append, append-nil,
  append_assoc,
}
use bo_thesis.Knowledge.{Evidence}
use bo_thesis.Knowledge.ContextBuilder.{
  Limits, Building, continue, visit, visit_all, start, build, identity, Flow-cases, visit_all_ind,
}

nil-sublist : {A : Type 0} (xs : List A) → Sublistᴰ [] xs
nil-sublist [] = Sublistᴰ.slnil
nil-sublist (x ∷ xs) = Sublistᴰ.cons (nil-sublist xs)

module _ {S : Type 0} where
  -- `seen_chunks` are the identities of what is included, and none of them is there twice.
  record Tracks (b : Building S) : Type 0 where
    seen : (k : Str × Str) → contains b.seen_chunks k ≡ contains (map identity b.included) k
    unique : is_unique (map identity b.included) ≡ true

  -- A round leaves what is included alone, or appends its item, which was not seen.
  visit_included :
      (limits : Limits) (item : Evidence S) (b b' : Building S)
      → visit limits item b ≡ continue b'
      → (b' ≡ b)
        ⊎ (b'.included ≡ b.included ++ item ∷ [])
          × (b'.seen_chunks ≡ identity item ∷ b.seen_chunks)
          × (contains b.seen_chunks (identity item) ≡ false)
  unfolding visit
  visit_included limits item b b' e = ground arith

  visit-Tracks :
      (limits : Limits) (item : Evidence S) (b b' : Building S)
      → visit limits item b ≡ continue b'
      → Tracks b
      → Tracks b'
  visit-Tracks limits item b b' e h = elim (visit_included limits item b b' e) [
    | inl same ↦ rw same h
    | inr (included, seen, new) ↦ record {
      seen = λ k.
          rw (seen, included, map-append)
            (ground
              (arith, h.seen k, contains-append (map identity b.included) (identity item ∷ []) k));
      unique =
          rw (included, map-append)
            (is_unique-append (map identity b.included) (identity item) h.unique
              (sym (h.seen (identity item)) ∙ new));
    }
  ]

  visit_all-sublist :
      (limits : Limits) (evidence : List (Evidence S)) (b : Building S)
      → (more : List (Evidence S)) × ((visit_all limits evidence b).included ≡ b.included ++ more)
        × Sublistᴰ more evidence
  unfolding visit_all
  visit_all-sublist limits [] b = ([], sym (append-nil b.included), Sublistᴰ.slnil)
  visit_all-sublist limits (item ∷ rest) b = elim (Flow-cases (visit limits item b)) [
    | inl (b', e) ↦
        let (more, included, sub) = visit_all-sublist limits rest b' in
        elim (visit_included limits item b b' e) [
          | inl same ↦ (
            more,
            rw (e, visit_all) (included ∙ ap (λ (c : Building S). c.included ++ more) same),
            Sublistᴰ.cons sub,
          )
          | inr (appended, _, _) ↦ (
            item ∷ more,
            rw (e, visit_all)
                (included
                  ∙ ap (λ l. l ++ more) appended
                  ∙ append_assoc b.included (item ∷ []) more),
            Sublistᴰ.cons-cons refl sub,
          )
        ]
    | inr e ↦ ([], rw (e, visit_all) (sym (append-nil b.included)), nil-sublist (item ∷ rest))
  ]

  build_cases :
      (limits : Limits) (evidence : List (Evidence S))
      → ((build limits evidence).evidence ≡ [])
        ⊎ ((build limits evidence).evidence ≡ (visit_all limits evidence (start limits)).included)
  unfolding build
  build_cases limits evidence = ground arith

  -- The evidence that is passed on stands in the order in which it was ranked, each item at most as
  -- often as it was given, and no chunk of an item twice.
  pub build_included :
      (limits : Limits) (evidence : List (Evidence S))
      → Sublistᴰ (build limits evidence).evidence evidence
        × (is_unique (map identity (build limits evidence).evidence) ≡ true)
  build_included limits evidence =
      let (more, included, sub) = visit_all-sublist limits evidence (start limits) in
      let tracks : Tracks (visit_all limits evidence (start limits)) =
        visit_all_ind limits Tracks (visit-Tracks limits) evidence (start limits)
          (record { seen = λ k. refl; unique = refl }) in
      elim (build_cases limits evidence) [
        | inl empty ↦ rw empty (nil-sublist evidence, refl)
        | inr all ↦ rw all (rw included sub, tracks.unique)
      ]
