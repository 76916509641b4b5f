-- ===== src/Agent/Reducer/Supplied.antt =====
-- What a terminal event leaves in ResponseReducer, backend/bothesis/agent/reducer.py.
use mathlib.Core.Path.{subst}
use bo_thesis.Base.Keys.{keys, IsDict}
use bo_thesis.Base.Dict.{Dict, get, put, get_or, get-put_same}
use bo_thesis.Base.{
  ℕ, zero, suc, ◌+◌, ◌≡◌, refl, sym, ap, ◌∙◌, Bool, true, false, Option, none, some, List, [], ◌∷◌,
  get_elem?, nat_beq, nat_beq_iff, Bool-cases, inl, inr, Eq, nat_eq, if◌then◌else◌, arith,
}
use bo_thesis.Agent.Protocol.{
  Item, message, MessagePhase, ResponseStatus, Response, is_function_call,
}
use bo_thesis.Agent.Reducer.State.{Reducer, reduced_output, reduced_response, rebuilt}
use bo_thesis.Agent.Reducer.Writes.{
  has_function_call, observed_phase, is_missing, needs_phase, with_phase, phase_item, phase_items,
  resolve_phases,
}
use bo_thesis.Agent.Reducer.Apply.{place_item, place_missing, settled_envelope, settle, shell_of}
use bo_thesis.Agent.Reducer.Phases.{
  phased_found, HasPhases, resolve_phases-get, resolve_phases-HasPhases, resolve_phases-envelope,
  settled_response,
}
use bo_thesis.Agent.Reducer.Settled.{
  seeded_at, place_item-items, place_item-shells, place_item-apart, place_missing-IsDict,
  place_missing-get,
}
use bo_thesis.Agent.Reducer.RoundTrip.Items.{IsCanonicalItem, IsFreshAt}
use bo_thesis.Agent.Reducer.RoundTrip.Opened.{place_item-IsFreshAt, rebuilt-fresh}

module _ {A : Type 0} where
  put-calls :
      (items : Dict ℕ (Item A)) (o : ℕ) (item next : Item A)
      → get items o ≡ some item
      → is_function_call next ≡ is_function_call item
      → has_function_call (put items o next) ≡ has_function_call items
  unfolding get put
  put-calls [] o item next found h = cc
  put-calls ((k, held) ∷ items) o item next found h = ground (arith, put-calls items o item next)

  -- A phase changes no kind of item.
  with_phase-calls :
      (phase : MessagePhase) (item : Item A)
      → is_function_call (with_phase phase item) ≡ is_function_call item
  with_phase-calls phase (message m) = refl
  with_phase-calls phase item = refl

  phase_item-calls :
      (phase : MessagePhase) (r : Reducer A) (o : ℕ) (found : Option (Item A))
      → get r.items o ≡ found
      → has_function_call (phase_item phase r o found).items ≡ has_function_call r.items
  unfolding phase_item
  phase_item-calls phase r o none e = refl
  phase_item-calls phase r o (some item) e = elim (Bool-cases (needs_phase item)) [
    | inl needed ↦
        rw needed (put-calls r.items o item (with_phase phase item) e (with_phase-calls phase item))
    | inr done ↦ rw done refl
  ]

  phase_items-calls :
      (phase : MessagePhase) (r : Reducer A) (os : List ℕ)
      → has_function_call (phase_items phase r os).items ≡ has_function_call r.items
  unfolding phase_items
  phase_items-calls phase r [] = refl
  phase_items-calls phase r (o ∷ os) =
      phase_items-calls phase (phase_item phase r o (get r.items o)) os
      ∙ phase_item-calls phase r o (get r.items o) refl

  resolve_phases-observed :
      (r : Reducer A) → observed_phase (resolve_phases r).items ≡ observed_phase r.items
  unfolding resolve_phases
  resolve_phases-observed r =
      ap (λ b. if b then MessagePhase.commentary else MessagePhase.final_answer)
        (phase_items-calls (observed_phase r.items) r (keys r.items))

module _ {A : Type 0} ⦃same : Eq A⦄ where
  -- The item of a snapshot at an index, if there is one, is as a reducer writes it.
  abbrev pub IsCanonicalFound : Option (Item A) → Type 0
  IsCanonicalFound none = Unit
  IsCanonicalFound (some item) = IsCanonicalItem item

  -- The item at `j` of a list that starts at `o`.
  abbrev item_from : ℕ → List (Item A) → ℕ → Option (Item A)
  item_from o [] j = none
  item_from o (item ∷ items) j =
      let rest = item_from (suc o) items j in if nat_beq o j then some item else rest

  item_from-get_elem? :
      (o : ℕ) (items : List (Item A)) (j : ℕ) → item_from o items (o + j) ≡ get_elem? items j
  item_from-get_elem? o [] j = refl
  item_from-get_elem? o (item ∷ items) zero =
      ap (λ b. if b then some item else item_from (suc o) items (o + 0))
        ((nat_beq_iff o (o + 0)).1 (omega arith))
  item_from-get_elem? o (item ∷ items) (suc j) =
      let apart : nat_beq o (o + suc j) ≡ false = ground arith in
      let next : o + suc j ≡ suc o + j = omega arith in
      ap (λ b. if b then some item else item_from (suc o) items (o + suc j)) apart
      ∙ ap (item_from (suc o) items) next
      ∙ item_from-get_elem? (suc o) items j

  abbrev placed_after : Reducer A → ℕ → Item A → List (Item A) → Bool → Reducer A
  placed_after r o item items missing =
      place_missing (if missing then place_item r o item true else r) (suc o) items

  -- A missing item is placed, and none that follows replaces it.
  placed_here :
      (r : Reducer A) (o : ℕ) (item : Item A) (items : List (Item A))
      → is_missing (get r.shells o) ≡ true
      → IsFreshAt r o
      → IsCanonicalItem item
      → get (placed_after r o item items (is_missing (get r.shells o))).items o ≡ some item
  placed_here r o item items h fresh u =
      let made = place_item r o item true in
      let shell : is_missing (get made.shells o) ≡ false =
        ap (λ d. is_missing (get d o)) (place_item-shells r o item true)
        ∙ ap is_missing (get-put_same r.shells o (shell_of true item)) in
      let rebuilt_at = rebuilt (seeded_at r o (shell_of true item)) o (shell_of true item) in
      ap (λ b. get (placed_after r o item items b).items o) h
      ∙ place_missing-get made (suc o) o items shell
      ∙ ap (λ d. get d o) (place_item-items r o item true)
      ∙ get-put_same r.items o rebuilt_at
      ∙ ap some (rebuilt-fresh r o item fresh u)

  -- An item without a shell is that of the snapshot.
  place_missing-supplied :
      (r : Reducer A) (o j : ℕ) (items : List (Item A))
      → is_missing (get r.shells j) ≡ true
      → IsFreshAt r j
      → IsCanonicalFound (item_from o items j)
      → get (place_missing r o items).items j ≡ item_from o items j
  unfolding place_missing
  place_missing-supplied r o j [] h fresh u = fresh.items
  place_missing-supplied r o j (item ∷ items) h fresh u =
      by_index (λ s k f c. place_missing-supplied s (suc o) j items k f c) (nat_beq o j) refl u
    where
      by_index :
          ((s : Reducer A)
            → is_missing (get s.shells j) ≡ true
            → IsFreshAt s j
            → IsCanonicalFound (item_from (suc o) items j)
            → get (place_missing s (suc o) items).items j ≡ item_from (suc o) items j)
          → (b : Bool) → nat_beq o j ≡ b
          → IsCanonicalFound (if b then some item else item_from (suc o) items j)
          → get (placed_after r o item items (is_missing (get r.shells o))).items j
            ≡ (if b then some item else item_from (suc o) items j)
      by_index later true e c =
          let here : o ≡ j = (nat_beq_iff o j).0 e in
          subst
            (λ k.
              get (placed_after r o item items (is_missing (get r.shells o))).items k ≡ some item)
            here
            (placed_here r o item items (ap (λ k. is_missing (get r.shells k)) here ∙ h)
              (subst (IsFreshAt r) (sym here) fresh) c)
      by_index later false e c = by_shell (is_missing (get r.shells o))
        where
          by_shell :
              (b : Bool) → get (placed_after r o item items b).items j ≡ item_from (suc o) items j
          by_shell false = later r h fresh c
          by_shell true =
              later (place_item r o item true)
                (ap is_missing (place_item-apart r o j item true e).1 ∙ h)
                (place_item-IsFreshAt r o j item e fresh) c

  -- The item of the settled response at `j`, before its phase: as it was streamed, or else the
  -- snapshot's.
  abbrev pub kept_or_supplied : Reducer A → (snapshot : Response A) → ℕ → Option (Item A)
  kept_or_supplied r snapshot j =
      if is_missing (get r.shells j) then get_elem? snapshot.output j else get r.items j

  -- The terminal response, and the item that it has at `j`.
  abbrev pub IsSettled :
      Reducer A → ResponseStatus → (snapshot : Response A) → ℕ → Reducer A → Type 0
  IsSettled r status snapshot j after =
      (response : Response A) × (reduced_response after ≡ some response)
      × (response.status ≡ status)
      × (response.output ≡ reduced_output after)
      × HasPhases response.output
      × (get after.items j
          ≡ phased_found (observed_phase after.items) (kept_or_supplied r snapshot j))

  -- A terminal event leaves a response of its status, in which every assistant message has a
  -- phase, if no output index is twice among the items. At each index the response has the item that
  -- was streamed there, as it was but for a missing phase; where none was, it has the item that the
  -- snapshot has there, if the reducer kept nothing at that index and the snapshot's item has a
  -- status, no part that repeats an annotation, and a summary of summary texts only. The phase is
  -- that of commentary if a function call is among the items, and else that of a final answer.
  pub settle-IsSettled :
      (r : Reducer A) (status : ResponseStatus) (snapshot : Response A)
      → IsDict r.items
      → (j : ℕ)
      → (is_missing (get r.shells j) ≡ true
          → IsFreshAt r j × IsCanonicalFound (get_elem? snapshot.output j))
      → IsSettled r status snapshot j (settle r status snapshot)
  unfolding settle reduced_response settled_envelope
  settle-IsSettled r status snapshot d j supplied =
      let placed = place_missing r 0 snapshot.output in
      let envelope = settled_envelope snapshot (get_or snapshot placed.envelope) status in
      let enclosed : Reducer A = record placed { envelope = some envelope } in
      let after = settle r status snapshot in
      (
        record envelope { output = reduced_output after },
        settled_response after envelope (resolve_phases-envelope enclosed),
        refl,
        refl,
        resolve_phases-HasPhases enclosed (place_missing-IsDict r 0 snapshot.output d),
        resolve_phases-get enclosed j
            ∙ ap (phased_found (observed_phase placed.items))
                (by_shell (is_missing (get r.shells j)) refl)
            ∙ ap (λ phase. phased_found phase (kept_or_supplied r snapshot j))
                (sym (resolve_phases-observed enclosed)),
      )
    where
      by_shell :
          (b : Bool)
          → is_missing (get r.shells j) ≡ b
          → get (place_missing r 0 snapshot.output).items j
            ≡ (if b then get_elem? snapshot.output j else get r.items j)
      by_shell true e =
          let (fresh, canonical) = supplied e in
          let from_zero : j ≡ 0 + j = omega arith in
          let at =
            ap (item_from 0 snapshot.output) from_zero ∙ item_from-get_elem? 0 snapshot.output j in
          place_missing-supplied r 0 j snapshot.output e fresh
            (subst IsCanonicalFound (sym at) canonical)
          ∙ at
      by_shell false e = place_missing-get r 0 j snapshot.output e
