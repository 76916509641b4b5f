-- ===== src/Agent/Reducer/RoundTrip/Parts.antt =====
-- The content of an item that is placed in a fresh ResponseReducer,
-- backend/bothesis/agent/reducer.py.
use bo_thesis.Base.Sorted.{sort_asc}
use bo_thesis.Base.Dict.{Dict, get, put, get_or, setdefault, get-put, get_or-put}
use bo_thesis.Base.{
  ℕ, suc, ◌<◌, ◌≤◌, ◌≡◌, refl, sym, ap, ◌∙◌, true, false, none, some, List, [], ◌∷◌, ◌++◌,
  append-nil, append_assoc, Str, concat, gather, All, contains, contains-append, is_unique, nat_beq,
  Eq, nat_eq, list_eq, pair_eq, beq_refl, if◌then◌else◌, arith,
}
use bo_thesis.Agent.Protocol.{
  ContentPart, output_text, refusal, reasoning_text, summary_text, input_text, input_image,
  input_file, annotations_of,
}
use bo_thesis.Agent.Reducer.State.{
  PartKey, Reducer, found_part, materialized, materialize_part, item_content,
}
use bo_thesis.Agent.Reducer.Writes.{adopted, text_or_refusal}
use bo_thesis.Agent.Reducer.Apply.{merged, adopted_annotations, place_part, place_parts}
use bo_thesis.Agent.Reducer.RoundTrip.Places.{
  below, sort-below, gather-below, HasPlaces, put-HasPlaces,
}

pub adopted-get :
    {K : Type 0} ⦃e : Eq K⦄ (d : Dict K (List Str)) (key : K) (text : Str)
    → get d key ≡ none
    → concat (get_or [] (get (adopted d key text) key)) ≡ text
unfolding adopted setdefault
adopted-get d key [] h =
    ap (λ t. concat (get_or [] t)) (get-put d key key (get_or [] (get d key)))
    ∙ ap (λ b. concat (get_or [] (if b then some (get_or [] (get d key)) else get d key)))
        (beq_refl key)
    ∙ ap (λ t. concat (get_or [] t)) h
adopted-get d key (x ∷ text) h =
    ap (λ t. concat (get_or [] t)) (get-put d key key ((x ∷ text) ∷ []))
    ∙ ap (λ b. concat (get_or [] (if b then some ((x ∷ text) ∷ []) else get d key))) (beq_refl key)
    ∙ append-nil (x ∷ text)

pub adopted-get_other :
    (d : Dict PartKey (List Str)) (o n c : ℕ) (text : Str)
    → nat_beq n c ≡ false
    → get (adopted d (o, n) text) (o, c) ≡ get d (o, c)
unfolding adopted setdefault
adopted-get_other d o n c [] h = ground (arith, get-put d (o, n) (o, c) (get_or [] (get d (o, n))))
adopted-get_other d o n c (x ∷ text) h = ground (arith, get-put d (o, n) (o, c) ((x ∷ text) ∷ []))

module _ {A : Type 0} ⦃same : Eq A⦄ where
  unique-append_cons :
      (xs : List A) (a : A) (ys : List A)
      → is_unique (xs ++ (a ∷ ys)) ≡ true
      → contains xs a ≡ false
  unique-append_cons [] a ys u = refl
  unique-append_cons (x ∷ xs) a ys u = ground (
    arith,
    unique-append_cons xs a ys,
    contains-append xs (a ∷ ys) x,
    same.beq_iff a x,
    same.beq_iff x a,
  )

  merged_unique : (xs ys : List A) → is_unique (xs ++ ys) ≡ true → merged xs ys ≡ xs ++ ys
  merged_unique xs [] u = sym (append-nil xs)
  merged_unique xs (a ∷ ys) u =
      ap (λ b. merged (if b then xs else xs ++ (a ∷ [])) ys) (unique-append_cons xs a ys u)
      ∙ merged_unique (xs ++ (a ∷ [])) ys (ap is_unique (append_assoc xs (a ∷ []) ys) ∙ u)
      ∙ append_assoc xs (a ∷ []) ys

  -- A part that repeats no annotation.
  abbrev pub IsCanonicalPart : ContentPart A → Type 0
  IsCanonicalPart part = is_unique (annotations_of part) ≡ true

  adopted_annotations-get :
      (d : Dict PartKey (List A)) (key : PartKey) (annotations : List A)
      → get d key ≡ none
      → is_unique annotations ≡ true
      → get_or [] (get (adopted_annotations d key annotations) key) ≡ annotations
  adopted_annotations-get d key [] h u = ap (get_or []) h
  adopted_annotations-get d key (a ∷ annotations) h u =
      get_or-put d key key [] (merged (get_or [] (get d key)) (a ∷ annotations))
      ∙ ap
          (λ b.
            if b then merged (get_or [] (get d key)) (a ∷ annotations) else get_or [] (get d key))
          (beq_refl key)
      ∙ ap (λ t. merged (get_or [] t) (a ∷ annotations)) h
      ∙ merged_unique [] (a ∷ annotations) u

  adopted_annotations-get_other :
      (d : Dict PartKey (List A)) (o n c : ℕ) (annotations : List A)
      → nat_beq n c ≡ false
      → get (adopted_annotations d (o, n) annotations) (o, c) ≡ get d (o, c)
  adopted_annotations-get_other d o n c [] h = refl
  adopted_annotations-get_other d o n c (a ∷ annotations) h =
      ground (arith, get-put d (o, n) (o, c) (merged (get_or [] (get d (o, n))) (a ∷ annotations)))

  materialized-same :
      (part : ContentPart A) (text : Str) (annotations : List A)
      → text ≡ text_or_refusal part
      → annotations ≡ annotations_of part
      → materialized part text annotations ≡ part
  materialized-same (output_text t held) text annotations e f = λ i. output_text (e i) (f i)
  materialized-same (refusal t) text annotations e f = ap refusal e
  materialized-same (reasoning_text t) text annotations e f = ap reasoning_text e
  materialized-same (summary_text t) text annotations e f = ap summary_text e
  materialized-same (input_text t) text annotations e f = refl
  materialized-same (input_image t) text annotations e f = refl
  materialized-same (input_file t) text annotations e f = refl

  -- Nothing is kept of the content of the item at `o` from the `n`-th part on.
  pub record HasContent (r : Reducer A) (o n : ℕ) : Type 0 where
    pub parts : HasPlaces r.parts o n
    pub text : (c : ℕ) → n ≤ c → get r.text (o, c) ≡ none
    pub annotations : (c : ℕ) → n ≤ c → get r.annotations (o, c) ≡ none

  place_part-HasContent :
      (r : Reducer A) (o n : ℕ) (part : ContentPart A)
      → HasContent r o n
      → HasContent (place_part r (o, n) part) o (suc n)
  unfolding place_part
  place_part-HasContent r o n part h = record {
    parts = put-HasPlaces r.parts o n part h.parts;
    text = λ c le.
        adopted-get_other r.text o n c (text_or_refusal part) (ground arith)
        ∙ h.text c (omega arith);
    annotations = λ c le.
        adopted_annotations-get_other r.annotations o n c (annotations_of part) (ground arith)
        ∙ h.annotations c (omega arith);
  }

  content_places :
      (r : Reducer A) (o n : ℕ)
      → HasPlaces r.parts o n
      → item_content r o ≡ gather (λ c. materialize_part r (o, c)) (below n)
  unfolding item_content
  content_places r o n h =
      ap (λ is. gather (λ c. materialize_part r (o, c)) (sort_asc (λ i. i) is)) h.places
      ∙ ap (gather (λ c. materialize_part r (o, c))) (sort-below n)

  place_part-content :
      (r : Reducer A) (o n : ℕ) (part : ContentPart A)
      → HasContent r o n
      → IsCanonicalPart part
      → item_content (place_part r (o, n) part) o ≡ item_content r o ++ (part ∷ [])
  unfolding place_part materialize_part
  place_part-content r o n part h u =
      let after = place_part r (o, n) part in
      content_places after o (suc n) (put-HasPlaces r.parts o n part h.parts)
      ∙ gather-below (λ c. materialize_part after (o, c)) (λ c. materialize_part r (o, c)) n earlier
      ∙ ap (λ t. t ++ materialize_part after (o, n)) (sym (content_places r o n h.parts))
      ∙ ap (λ t. item_content r o ++ t) last_part
    where
      earlier :
          (i : ℕ)
          → i < n
          → materialize_part (place_part r (o, n) part) (o, i) ≡ materialize_part r (o, i)
      earlier i lt =
          let apart : nat_beq n i ≡ false = ground arith in
          let part_at : get (put r.parts (o, n) part) (o, i) ≡ get r.parts (o, i) =
            ground (arith, get-put r.parts (o, n) (o, i) part) in
          λ k.
            found_part (part_at k)
              (concat (get_or [] (adopted-get_other r.text o n i (text_or_refusal part) apart k)))
              (get_or []
                (adopted_annotations-get_other r.annotations o n i (annotations_of part) apart k))

      last_part : materialize_part (place_part r (o, n) part) (o, n) ≡ part ∷ []
      last_part =
          ap
            (λ found.
              found_part found
                (concat (get_or [] (get (adopted r.text (o, n) (text_or_refusal part)) (o, n))))
                (get_or []
                  (get (adopted_annotations r.annotations (o, n) (annotations_of part)) (o, n))))
            (get-put r.parts (o, n) (o, n) part
              ∙ ap (λ b. if b then some part else get r.parts (o, n))
                  (beq_refl {A = PartKey} (o, n)))
          ∙ ap (λ p. p ∷ [])
              (materialized-same part _ _
                (adopted-get r.text (o, n) (text_or_refusal part) (h.text n (omega arith)))
                (adopted_annotations-get r.annotations (o, n) (annotations_of part)
                  (h.annotations n (omega arith)) u))

  pub place_parts-content :
      (r : Reducer A) (o n : ℕ) (parts : List (ContentPart A))
      → HasContent r o n
      → All IsCanonicalPart parts
      → item_content (place_parts r o n parts) o ≡ item_content r o ++ parts
  unfolding place_parts
  place_parts-content r o n [] h u = sym (append-nil (item_content r o))
  place_parts-content r o n (part ∷ parts) h u =
      place_parts-content (place_part r (o, n) part) o (suc n) parts
        (place_part-HasContent r o n part h) u.1
      ∙ ap (λ t. t ++ parts) (place_part-content r o n part h u.0)
      ∙ append_assoc (item_content r o) (part ∷ []) parts
