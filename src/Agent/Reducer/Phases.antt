-- ===== src/Agent/Reducer/Phases.antt =====
-- _resolve_phases of ResponseReducer, backend/bothesis/agent/reducer.py.
use bo_thesis.Base.Sorted.{sort_asc, All-sort_asc}
use bo_thesis.Base.Keys.{keys, IsDict, contains-keys, put-IsDict, get-Member, All-Member, is_found}
use bo_thesis.Base.Dict.{get, get_or, get-put}
use bo_thesis.Base.{
  ℕ, ◌≡◌, refl, sym, ap, ◌∙◌, false, Option, none, some, List, [], ◌∷◌, map, All, contains, nat_beq,
  nat_beq_iff, Bool-cases, inl, inr, nat_eq, if◌then◌else◌, arith,
}
use bo_thesis.Agent.Protocol.{Item, message, MessageItem, MessagePhase, Response}
use bo_thesis.Agent.Reducer.State.{Reducer, reduced_output, reduced_response}
use bo_thesis.Agent.Reducer.Writes.{
  needs_phase, with_phase, phase_item, phase_items, observed_phase, resolve_phases,
}

module _ {A : Type 0} where
  abbrev pub phased : MessagePhase → Item A → Item A
  phased phase item = if needs_phase item then with_phase phase item else item

  abbrev pub phased_found : MessagePhase → Option (Item A) → Option (Item A)
  phased_found phase none = none
  phased_found phase (some item) = some (phased phase item)

  with_phase-needs :
      (phase : MessagePhase) (m : MessageItem A)
      → needs_phase (with_phase phase (message m)) ≡ false
  with_phase-needs phase m = ground arith

  phased-needs : (phase : MessagePhase) (item : Item A) → needs_phase (phased phase item) ≡ false
  phased-needs phase (message m) = elim (Bool-cases (needs_phase (message m))) [
    | inl needed ↦ rw needed (with_phase-needs phase m)
    | inr done ↦ rw done done
  ]
  phased-needs phase item = refl

  phase_item-get :
      (phase : MessagePhase) (r : Reducer A) (o j : ℕ) (found : Option (Item A))
      → get r.items o ≡ found
      → get (phase_item phase r o found).items j
        ≡ (if nat_beq o j then phased_found phase (get r.items j) else get r.items j)
  unfolding phase_item
  phase_item-get phase r o j none e = ground (arith, nat_beq_iff o j)
  phase_item-get phase r o j (some item) e =
      ground (arith, nat_beq_iff o j, get-put r.items o j (with_phase phase item))

  phased_found_twice :
      (phase : MessagePhase) (found : Option (Item A))
      → phased_found phase (phased_found phase found) ≡ phased_found phase found
  phased_found_twice phase none = refl
  phased_found_twice phase (some item) =
      ap (λ b. some (if b then with_phase phase (phased phase item) else phased phase item))
        (phased-needs phase item)

  phase_items-get :
      (phase : MessagePhase) (r : Reducer A) (os : List ℕ) (j : ℕ)
      → get (phase_items phase r os).items j
        ≡ (if contains os j then phased_found phase (get r.items j) else get r.items j)
  unfolding phase_items
  phase_items-get phase r [] j = refl
  phase_items-get phase r (o ∷ os) j = ground (
    arith,
    phase_items-get phase (phase_item phase r o (get r.items o)) os j,
    phase_item-get phase r o j (get r.items o) refl,
    phased_found_twice phase (get r.items j),
  )

  phase_item-IsDict :
      (phase : MessagePhase) (r : Reducer A) (o : ℕ) (found : Option (Item A))
      → IsDict r.items
      → IsDict (phase_item phase r o found).items
  unfolding phase_item
  phase_item-IsDict phase r o none d = d
  phase_item-IsDict phase r o (some item) d = elim (Bool-cases (needs_phase item)) [
    | inl needed ↦ rw needed (put-IsDict r.items o (with_phase phase item) d)
    | inr done ↦ rw done d
  ]

  phase_items-IsDict :
      (phase : MessagePhase) (r : Reducer A) (os : List ℕ)
      → IsDict r.items
      → IsDict (phase_items phase r os).items
  unfolding phase_items
  phase_items-IsDict phase r [] d = d
  phase_items-IsDict phase r (o ∷ os) d =
      phase_items-IsDict phase (phase_item phase r o (get r.items o)) os
        (phase_item-IsDict phase r o (get r.items o) d)

  pub resolve_phases-get :
      (r : Reducer A) (j : ℕ)
      → get (resolve_phases r).items j ≡ phased_found (observed_phase r.items) (get r.items j)
  unfolding resolve_phases
  resolve_phases-get r j =
      phase_items-get (observed_phase r.items) r (keys r.items) j
      ∙ ap (λ b. if b then phased_found (observed_phase r.items) (get r.items j) else get r.items j)
          (contains-keys r.items j)
      ∙ by_found (get r.items j)
    where
      by_found :
          (found : Option (Item A))
          → (if is_found found then phased_found (observed_phase r.items) found else found)
            ≡ phased_found (observed_phase r.items) found
      by_found none = refl
      by_found (some item) = refl

  found-needs :
      (phase : MessagePhase) (found : Option (Item A)) (item : Item A)
      → phased_found phase found ≡ some item
      → needs_phase item ≡ false
  found-needs phase none item e = cc
  found-needs phase (some held) item e =
      ap (λ o. needs_phase (get_or item o)) (sym e) ∙ phased-needs phase held

  phase_item-envelope :
      (phase : MessagePhase) (r : Reducer A) (o : ℕ) (found : Option (Item A))
      → (phase_item phase r o found).envelope ≡ r.envelope
  unfolding phase_item
  phase_item-envelope phase r o none = refl
  phase_item-envelope phase r o (some item) = elim (Bool-cases (needs_phase item)) [
    | inl needed ↦ rw needed refl
    | inr done ↦ rw done refl
  ]

  phase_items-envelope :
      (phase : MessagePhase) (r : Reducer A) (os : List ℕ)
      → (phase_items phase r os).envelope ≡ r.envelope
  unfolding phase_items
  phase_items-envelope phase r [] = refl
  phase_items-envelope phase r (o ∷ os) =
      phase_items-envelope phase (phase_item phase r o (get r.items o)) os
      ∙ phase_item-envelope phase r o (get r.items o)

  pub resolve_phases-envelope : (r : Reducer A) → (resolve_phases r).envelope ≡ r.envelope
  unfolding resolve_phases
  resolve_phases-envelope r = phase_items-envelope (observed_phase r.items) r (keys r.items)

  pub settled_response :
      (r : Reducer A) (envelope : Response A)
      → r.envelope ≡ some envelope
      → reduced_response r ≡ some (record envelope { output = reduced_output r })
  unfolding reduced_response
  settled_response r envelope e = rw e refl

  -- No assistant message of the output lacks a phase.
  abbrev pub HasPhases : List (Item A) → Type 0
  HasPhases output = All (λ item. needs_phase item ≡ false) output

  All-second :
      (P : Item A → Type 0) (ps : List (ℕ × Item A))
      → All (λ (p : ℕ × Item A). P p.1) ps
      → All P (map (λ (p : ℕ × Item A). p.1) ps)
  All-second P [] h = tt
  All-second P (p ∷ ps) h = (h.0, All-second P ps h.1)

  pub resolve_phases-HasPhases :
      (r : Reducer A) → IsDict r.items → HasPhases (reduced_output (resolve_phases r))
  unfolding reduced_output resolve_phases
  resolve_phases-HasPhases r d =
      let resolved = resolve_phases r in
      All-second (λ item. needs_phase item ≡ false)
        (sort_asc (λ (p : ℕ × Item A). p.0) resolved.items)
        (All-sort_asc (λ (p : ℕ × Item A). p.0) (λ (p : ℕ × Item A). needs_phase p.1 ≡ false)
          resolved.items
          (All-Member (λ (p : ℕ × Item A). needs_phase p.1 ≡ false) resolved.items
            λ p m. found-needs (observed_phase r.items) (get r.items p.0) p.1 (
              sym (resolve_phases-get r p.0)
              ∙ get-Member resolved.items p.0 p.1
                  (phase_items-IsDict (observed_phase r.items) r (keys r.items) d) m)))
