-- ===== src/Agent/Reducer/RoundTrip/Opened.antt =====
-- A response that opens a fresh ResponseReducer, backend/bothesis/agent/reducer.py.
use bo_thesis.Base.Sorted.{sort_asc, IsAscendingBy, sort_asc_sorted}
use mathlib.Core.Path.{subst}
use bo_thesis.Base.Dict.{Dict, get, put, setdefault, get-put, put-fresh}
use bo_thesis.Base.{
  ℕ, suc, ◌<◌, ◌≤◌, ◌≡◌, refl, sym, ap, ◌∙◌, true, false, Option, none, some, List, [], ◌∷◌, ◌++◌,
  append-nil, append_assoc, Str, map, All, nat_beq, Eq, nat_eq, list_eq, pair_eq, if◌then◌else◌,
  arith,
}
use bo_thesis.Agent.Protocol.{Item, Response, item_id}
use bo_thesis.Agent.Reducer.State.{
  Reducer, empty_reducer, indices, reduced_output, reduced_response, rebuilt, rebuild_shell,
}
use bo_thesis.Agent.Reducer.Writes.{remember_item_id}
use bo_thesis.Agent.Reducer.Apply.{shell_of, place_item, place_items, open_response}
use bo_thesis.Agent.Reducer.Frame.{WritesAt}
use bo_thesis.Agent.Reducer.Phases.{settled_response}
use bo_thesis.Agent.Reducer.Settled.{
  seeded_at, seeded_at-WritesAt, place_item_lem, place_item-items,
}
use bo_thesis.Agent.Reducer.RoundTrip.Items.{
  IsCanonicalItem, IsFreshAt, shell_of-canonical, seed-rebuilt,
}

module _ {A : Type 0} ⦃same : Eq A⦄ where
  -- Nothing is kept of the items from the one at `n` on.
  abbrev IsFreshFrom : Reducer A → ℕ → Type 0
  IsFreshFrom r n = (o : ℕ) → n ≤ o → IsFreshAt r o

  WritesAt-IsFreshAt :
      (n o : ℕ) (r s : Reducer A)
      → WritesAt n r s
      → nat_beq n o ≡ false
      → IsFreshAt r o
      → IsFreshAt s o
  WritesAt-IsFreshAt n o r s w apart h = record {
    content = record {
      parts = record {
        places = (w.parts o apart).0 ∙ h.content.parts.places;
        fresh = λ c le. (w.parts o apart).1 c ∙ h.content.parts.fresh c le;
      };
      text = λ c le. (w.text o apart).1 c ∙ h.content.text c le;
      annotations = λ c le. (w.annotations o apart).1 c ∙ h.content.annotations c le;
    };
    summary = record {
      parts = record {
        places = (w.summary_parts o apart).0 ∙ h.summary.parts.places;
        fresh = λ c le. (w.summary_parts o apart).1 c ∙ h.summary.parts.fresh c le;
      };
      text = λ c le. (w.summary_text o apart).1 c ∙ h.summary.text c le;
    };
    arguments = w.arguments o apart ∙ h.arguments;
    items = ap (λ d. get d o) w.items ∙ h.items;
  }

  -- The items and the shells are no accumulators.
  with_items-IsFreshAt :
      (r : Reducer A) (o : ℕ) (shells items : Dict ℕ (Item A)) (ids : Dict Str ℕ)
      → get items o ≡ none
      → IsFreshAt r o
      → IsFreshAt (record r { shells = shells; items = items; item_ids = ids }) o
  with_items-IsFreshAt r o shells items ids gone h = record {
    content = record {
      parts = h.content.parts;
      text = h.content.text;
      annotations = h.content.annotations;
    };
    summary = record { parts = h.summary.parts; text = h.summary.text };
    arguments = h.arguments;
    items = gone;
  }

  -- A placed item writes nothing about another.
  pub place_item-IsFreshAt :
      (r : Reducer A) (n o : ℕ) (item : Item A)
      → nat_beq n o ≡ false
      → IsFreshAt r o
      → IsFreshAt (place_item r n item true) o
  unfolding rebuild_shell
  place_item-IsFreshAt r n o item apart before =
      let shell = shell_of true item in
      let seeded = seeded_at r n shell in
      let placed : Reducer A = record r { shells = put r.shells n shell } in
      let at_seeded : IsFreshAt seeded o =
        WritesAt-IsFreshAt n o placed seeded (seeded_at-WritesAt r n shell) apart (
          with_items-IsFreshAt r o (put r.shells n shell) r.items r.item_ids before.items before) in
      let gone : get (put seeded.items n (rebuilt seeded n shell)) o ≡ none =
        get-put seeded.items n o (rebuilt seeded n shell)
        ∙ ap (λ b. if b then some (rebuilt seeded n shell) else get seeded.items o) apart
        ∙ at_seeded.items in
      subst (λ s. IsFreshAt s o) (sym (place_item_lem r n item true))
        (with_items-IsFreshAt seeded o seeded.shells (put seeded.items n (rebuilt seeded n shell))
          seeded.item_ids gone at_seeded)

  place_item-IsFreshFrom :
      (r : Reducer A) (n : ℕ) (item : Item A)
      → IsFreshFrom r n
      → IsFreshFrom (place_item r n item true) (suc n)
  place_item-IsFreshFrom r n item h o le =
      place_item-IsFreshAt r n o item (ground arith) (h o (omega arith))

  remembered-IsFreshAt :
      (r : Reducer A) (n : ℕ) (shells : Dict ℕ (Item A)) (id : Option Str)
      → IsFreshAt r n
      → IsFreshAt (remember_item_id (record r { shells = shells }) id n) n
  unfolding remember_item_id
  remembered-IsFreshAt r n shells none h =
      with_items-IsFreshAt r n shells r.items r.item_ids h.items h
  remembered-IsFreshAt r n shells (some []) h =
      with_items-IsFreshAt r n shells r.items r.item_ids h.items h
  remembered-IsFreshAt r n shells (some (c ∷ id)) h =
      with_items-IsFreshAt r n shells r.items (setdefault r.item_ids (c ∷ id) n) h.items h

  -- A canonical item is rebuilt as it is where nothing was kept.
  pub rebuilt-fresh :
      (r : Reducer A) (n : ℕ) (item : Item A)
      → IsFreshAt r n
      → IsCanonicalItem item
      → rebuilt (seeded_at r n (shell_of true item)) n (shell_of true item) ≡ item
  rebuilt-fresh r n item fresh u =
      ap (λ s. rebuilt (seeded_at r n s) n s) (shell_of-canonical item u.0)
      ∙ seed-rebuilt (remember_item_id (record r { shells = put r.shells n item }) (item_id item) n)
          n item (remembered-IsFreshAt r n (put r.shells n item) (item_id item) fresh) u.1

  -- A canonical item comes after the others as it is.
  place_item-fresh :
      (r : Reducer A) (n : ℕ) (item : Item A)
      → IsFreshFrom r n
      → IsCanonicalItem item
      → (place_item r n item true).items ≡ r.items ++ ((n, item) ∷ [])
  place_item-fresh r n item h u =
      let shell = shell_of true item in
      let fresh = h n (omega arith) in
      place_item-items r n item true
      ∙ put-fresh r.items n (rebuilt (seeded_at r n shell) n shell) fresh.items
      ∙ ap (λ made. r.items ++ ((n, made) ∷ [])) (rebuilt-fresh r n item fresh u)

  abbrev numbered : ℕ → List (Item A) → List (ℕ × Item A)
  numbered n [] = []
  numbered n (item ∷ items) = (n, item) ∷ numbered (suc n) items

  place_items-fresh :
      (r : Reducer A) (n : ℕ) (items : List (Item A))
      → IsFreshFrom r n
      → All IsCanonicalItem items
      → (place_items r n items).items ≡ r.items ++ numbered n items
  unfolding place_items
  place_items-fresh r n [] h u = sym (append-nil r.items)
  place_items-fresh r n (item ∷ items) h u =
      place_items-fresh (place_item r n item true) (suc n) items (place_item-IsFreshFrom r n item h)
        u.1
      ∙ ap (λ t. t ++ numbered (suc n) items) (place_item-fresh r n item h u.0)
      ∙ append_assoc r.items ((n, item) ∷ []) (numbered (suc n) items)

  place_items-envelope :
      (r : Reducer A) (n : ℕ) (items : List (Item A))
      → (place_items r n items).envelope ≡ r.envelope
  unfolding place_items rebuild_shell
  place_items-envelope r n [] = refl
  place_items-envelope r n (item ∷ items) =
      place_items-envelope (place_item r n item true) (suc n) items
      ∙ ap (λ (s : Reducer A). s.envelope) (place_item_lem r n item true)
      ∙ (seeded_at-WritesAt r n (shell_of true item)).envelope

  numbered-above :
      (m n : ℕ) (items : List (Item A))
      → m < n
      → All (λ (p : ℕ × Item A). m < p.0) (numbered n items)
  numbered-above m n [] lt = tt
  numbered-above m n (item ∷ items) lt = (lt, numbered-above m (suc n) items (omega arith))

  numbered-IsAscendingBy :
      (n : ℕ) (items : List (Item A)) → IsAscendingBy (λ (p : ℕ × Item A). p.0) (numbered n items)
  numbered-IsAscendingBy n [] = tt
  numbered-IsAscendingBy n (item ∷ items) =
      (numbered-above n (suc n) items (omega arith), numbered-IsAscendingBy (suc n) items)

  map-numbered :
      (n : ℕ) (items : List (Item A)) → map (λ (p : ℕ × Item A). p.1) (numbered n items) ≡ items
  map-numbered n [] = refl
  map-numbered n (item ∷ items) = ap (λ t. item ∷ t) (map-numbered (suc n) items)

  empty-IsFreshFrom :
      (envelope : Option (Response A))
      → IsFreshFrom (record empty_reducer { envelope = envelope }) 0
  unfolding indices get
  empty-IsFreshFrom envelope o le = record {
    content = record {
      parts = record { places = refl; fresh = λ c k. refl };
      text = λ c k. refl;
      annotations = λ c k. refl;
    };
    summary = record { parts = record { places = refl; fresh = λ c k. refl }; text = λ c k. refl };
    arguments = refl;
    items = refl;
  }

  -- A reducer that is opened with a response gives it back, item by item, if every item has a
  -- status, no part of it repeats an annotation, and a reasoning summary consists of summary texts.
  pub open_response-roundtrip :
      (response : Response A)
      → All IsCanonicalItem response.output
      → reduced_response (open_response empty_reducer response) ≡ some response
  unfolding open_response reduced_response reduced_output
  open_response-roundtrip response u =
      let started : Reducer A = record empty_reducer {
        envelope = some (record response { output = [] });
      } in
      let opened = place_items started 0 response.output in
      let items : opened.items ≡ numbered 0 response.output =
        place_items-fresh started 0 response.output (empty-IsFreshFrom started.envelope) u in
      let output =
        ap (λ d. map (λ (p : ℕ × Item A). p.1) (sort_asc (λ (p : ℕ × Item A). p.0) d)) items
        ∙ ap (map (λ (p : ℕ × Item A). p.1)) (
            sort_asc_sorted (λ (p : ℕ × Item A). p.0) (numbered 0 response.output)
              (numbered-IsAscendingBy 0 response.output))
        ∙ map-numbered 0 response.output in
      settled_response opened (record response { output = [] })
        (place_items-envelope started 0 response.output)
      ∙ ap (λ t. some (record response { output = t })) output
