-- ===== src/Agent/Reducer/Settled.antt =====
-- The items that a terminal event of ResponseReducer places, backend/bothesis/agent/reducer.py.
use bo_thesis.Base.Keys.{keys, IsDict, put-IsDict}
use bo_thesis.Base.Dict.{get, put, get-put, get-put_same}
use bo_thesis.Base.{
  ℕ, suc, ◌≡◌, refl, ap, ◌∙◌, Bool, true, false, some, List, [], ◌∷◌, is_unique, nat_beq,
  nat_beq_iff, Bool-cases, inl, inr, Eq, nat_eq, if◌then◌else◌, arith,
}
use bo_thesis.Agent.Protocol.{Item, item_id}
use bo_thesis.Agent.Reducer.State.{Reducer, rebuild, rebuild_shell, rebuilt}
use bo_thesis.Agent.Reducer.Writes.{is_missing, remember_item_id}
use bo_thesis.Agent.Reducer.Apply.{place_item, place_missing, shell_of, seed}
use bo_thesis.Agent.Reducer.Frame.{WritesAt, WritesAt-trans}
use bo_thesis.Agent.Reducer.Frame.Each.{seed-WritesAt, remember_item_id-WritesAt}

module _ {A : Type 0} ⦃same : Eq A⦄ where
  -- The state in which an item is rebuilt when it is placed.
  abbrev pub seeded_at : Reducer A → ℕ → Item A → Reducer A
  seeded_at r o shell =
      seed (remember_item_id (record r { shells = put r.shells o shell }) (item_id shell) o) o shell

  pub seeded_at-WritesAt :
      (r : Reducer A) (o : ℕ) (shell : Item A)
      → WritesAt o (record r { shells = put r.shells o shell }) (seeded_at r o shell)
  seeded_at-WritesAt r o shell =
      let placed : Reducer A = record r { shells = put r.shells o shell } in
      let remembered = remember_item_id placed (item_id shell) o in
      WritesAt-trans o placed remembered (seeded_at r o shell)
        (remember_item_id-WritesAt placed o (item_id shell) o) (seed-WritesAt remembered o shell)

  -- A placed item is rebuilt from its shell.
  pub place_item_lem :
      (r : Reducer A) (o : ℕ) (item : Item A) (done : Bool)
      → place_item r o item done
        ≡ rebuild_shell (seeded_at r o (shell_of done item)) o (some (shell_of done item))
  unfolding place_item rebuild
  place_item_lem r o item done =
      let shell = shell_of done item in
      ap (rebuild_shell (seeded_at r o shell) o)
        (ap (λ d. get d o) (seeded_at-WritesAt r o shell).shells ∙ get-put_same r.shells o shell)

  pub place_item-items :
      (r : Reducer A) (o : ℕ) (item : Item A) (done : Bool)
      → (place_item r o item done).items
        ≡ put r.items o (rebuilt (seeded_at r o (shell_of done item)) o (shell_of done item))
  unfolding rebuild_shell
  place_item-items r o item done =
      let shell = shell_of done item in
      ap (λ (s : Reducer A). s.items) (place_item_lem r o item done)
      ∙ ap (λ d. put d o (rebuilt (seeded_at r o shell) o shell))
          (seeded_at-WritesAt r o shell).items

  pub place_missing-IsDict :
      (r : Reducer A) (o : ℕ) (items : List (Item A))
      → IsDict r.items
      → IsDict (place_missing r o items).items
  unfolding place_missing
  place_missing-IsDict r o [] d = d
  place_missing-IsDict r o (item ∷ items) d =
      place_missing-IsDict (if is_missing (get r.shells o) then place_item r o item true else r)
        (suc o) items (by_test (is_missing (get r.shells o)))
    where
      by_test : (b : Bool) → IsDict (if b then place_item r o item true else r).items
      by_test true =
          ap (λ d. is_unique (keys d)) (place_item-items r o item true)
          ∙ put-IsDict r.items o
              (rebuilt (seeded_at r o (shell_of true item)) o (shell_of true item)) d
      by_test false = d

  pub place_item-shells :
      (r : Reducer A) (o : ℕ) (item : Item A) (done : Bool)
      → (place_item r o item done).shells ≡ put r.shells o (shell_of done item)
  unfolding rebuild_shell
  place_item-shells r o item done =
      ap (λ (s : Reducer A). s.shells) (place_item_lem r o item done)
      ∙ (seeded_at-WritesAt r o (shell_of done item)).shells

  pub place_item-apart :
      (r : Reducer A) (o j : ℕ) (item : Item A) (done : Bool)
      → nat_beq o j ≡ false
      → (get (place_item r o item done).items j ≡ get r.items j)
        × (get (place_item r o item done).shells j ≡ get r.shells j)
  place_item-apart r o j item done h =
      let made = rebuilt (seeded_at r o (shell_of done item)) o (shell_of done item) in
      (
        ap (λ d. get d j) (place_item-items r o item done)
            ∙ ground (arith, get-put r.items o j made),
        ap (λ d. get d j) (place_item-shells r o item done)
            ∙ ground (arith, get-put r.shells o j (shell_of done item)),
      )

  -- An item with a shell is not replaced by the snapshot's.
  pub place_missing-get :
      (r : Reducer A) (o j : ℕ) (items : List (Item A))
      → is_missing (get r.shells j) ≡ false
      → get (place_missing r o items).items j ≡ get r.items j
  unfolding place_missing
  place_missing-get r o j [] h = refl
  place_missing-get r o j (item ∷ items) h =
      by_test (λ s k. place_missing-get s (suc o) j items k) (is_missing (get r.shells o)) refl
    where
      by_test :
          ((s : Reducer A)
            → is_missing (get s.shells j) ≡ false
            → get (place_missing s (suc o) items).items j ≡ get s.items j)
          → (b : Bool) → is_missing (get r.shells o) ≡ b
          → get (place_missing (if b then place_item r o item true else r) (suc o) items).items j
            ≡ get r.items j
      by_test later false e = later r h
      by_test later true e =
          let other_item : nat_beq o j ≡ false = elim (Bool-cases (nat_beq o j)) [
            | inl same_item ↦
                cc (e, h, ap (λ k. is_missing (get r.shells k)) ((nat_beq_iff o j).0 same_item))
            | inr h ↦ h
          ] in
          let (at, shell) = place_item-apart r o j item true other_item in
          later (place_item r o item true) (ap (λ found. is_missing found) shell ∙ h) ∙ at
