-- ===== src/Connector/Pipeline/Run/Accounting.antt =====
-- What a run reports: its counts, its checkpoint, and whether it raises.
use Prim.Native.Nat.{zero, suc}
use bo_thesis.Base.Result.{Result, ok, err}
use bo_thesis.Base.{
  ℕ, ◌+◌, ◌≤◌, ◌<◌, ◌≡◌, refl, sym, ap, ◌∙◌, not, List, [], ◌∷◌, Str, length, length-append, take,
  drop, take-append-drop, keep, arith,
}
use bo_thesis.Connector.{AnyItem, ItemChange, Raised}
use bo_thesis.Connector.Pipeline.Checks.{failure}
use bo_thesis.Connector.Pipeline.Run.{
  Externals, Config, Tally, PipelineResult, Outcome, returned, failed, raised, batches, is_deleted,
  hierarchy_of, write_hierarchy, delete_all, note_delete, load_all, load_item, process_one,
  note_process, process_item, process_loaded, process_batches, process_changes,
}

abbrev pub count : Tally → ℕ
count t = t.deleted_items + t.processed_items + length t.failures

-- The replaced items are the processed ones.
abbrev IsEven : Tally → Type 0
IsEven t = t.replaced_items ≡ t.processed_items

abbrev total {ℓ} : {A : Type ℓ} → List (List A) → ℕ
total [] = 0
total (b ∷ bs) = length b + total bs

length-drop {ℓ} :
    {A : Type ℓ} (n : ℕ) (xs : List A) → length (take n xs) + length (drop n xs) ≡ length xs
length-drop n xs = sym (length-append (take n xs) (drop n xs)) ∙ ap length (take-append-drop n xs)

-- With enough rounds the batches hold every element once, whatever the size of a batch.
total-batches {ℓ} :
    {A : Type ℓ} (rounds n : ℕ) (xs : List A)
    → length xs ≤ rounds
    → 0 < n
    → total (batches rounds n xs) ≡ length xs
unfolding batches
total-batches zero n [] h p = refl
total-batches zero n (x ∷ xs) h p = absurd (omega arith)
total-batches (suc rounds) n [] h p = refl
total-batches (suc rounds) zero (x ∷ xs) h p = absurd (omega arith)
total-batches (suc rounds) (suc n) (x ∷ xs) h p =
    let split = length-drop n xs in
    omega (arith, split, total-batches rounds (suc n) (drop n xs) (omega (arith, split)) p)

length-removed :
    (changes : List ItemChange)
    → length (keep (λ (c : ItemChange). is_deleted c.type) changes)
        + length (keep (λ (c : ItemChange). not (is_deleted c.type)) changes)
      ≡ length changes
length-removed [] = refl
length-removed (c ∷ cs) = ground (arith, length-removed cs)

one-add-eq-suc : (n : ℕ) → 1 + n ≡ suc n
one-add-eq-suc n = omega arith

module _ {W Checkpoint : Type 0} (x : Externals W Checkpoint) (config : Config) where
  -- `after` accounts for `n` changes more than `before`.
  record Accounts (n : ℕ) (before after : Tally) : Type 0 where
    counted : count after ≡ count before + n
    grown : length before.failures ≤ length after.failures
    even : IsEven before → IsEven after

  note_delete-Accounts :
      (id : Str) (t : Tally) (r : Result Raised Unit) → Accounts 1 t (note_delete x config id t r)
  unfolding note_delete
  note_delete-Accounts id t (ok u) = record {
    counted = omega arith;
    grown = omega arith;
    even = λ h. h;
  }
  note_delete-Accounts id t (err e) = record {
    counted = omega (arith, length-append t.failures (failure id _ e ∷ []));
    grown = omega (arith, length-append t.failures (failure id _ e ∷ []));
    even = λ h. h;
  }

  note_process-Accounts :
      (id : Str) (t : Tally) (r : Result Raised ℕ) → Accounts 1 t (note_process x config id t r)
  unfolding note_process
  note_process-Accounts id t (ok n) = record {
    counted = omega arith;
    grown = omega arith;
    even = λ h. omega (arith, h);
  }
  note_process-Accounts id t (err e) = record {
    counted = omega (arith, length-append t.failures (failure id _ e ∷ []));
    grown = omega (arith, length-append t.failures (failure id _ e ∷ []));
    even = λ h. h;
  }

  process_one-Accounts :
      (id : Str) (r : Result Raised AnyItem) (t : Tally) (w : W)
      → Accounts 1 t (process_one x config id r t w).0
  unfolding process_one
  process_one-Accounts id (err e) t w = record {
    counted = omega (arith, length-append t.failures (failure id _ e ∷ []));
    grown = omega (arith, length-append t.failures (failure id _ e ∷ []));
    even = λ h. h;
  }
  process_one-Accounts id (ok item) t w =
      note_process-Accounts id t (process_item x config item w).0

  Accounts-trans :
      {m n : ℕ} {a b c : Tally} → Accounts m a b → Accounts n b c → Accounts (m + n) a c
  Accounts-trans h k = record {
    counted = omega (arith, h.counted, k.counted);
    grown = omega (arith, h.grown, k.grown);
    even = λ e. k.even (h.even e);
  }

  delete_all-Accounts :
      (changes : List ItemChange) (t : Tally) (w : W)
      → Accounts (length changes) t (delete_all x config changes t w).0
  unfolding delete_all
  delete_all-Accounts [] t w = record { counted = omega arith; grown = omega arith; even = λ h. h }
  delete_all-Accounts (c ∷ cs) t w =
      let (r, w') = x.soft_delete_item c.item_id w in
      rw one-add-eq-suc at (
        Accounts-trans (note_delete-Accounts c.item_id t r)
          (delete_all-Accounts cs (note_delete x config c.item_id t r) w'))

  process_loaded-Accounts :
      (loaded : List (ItemChange × Result Raised AnyItem)) (t : Tally) (w : W)
      → Accounts (length loaded) t (process_loaded x config loaded t w).0
  unfolding process_loaded
  process_loaded-Accounts [] t w = record {
    counted = omega arith;
    grown = omega arith;
    even = λ h. h;
  }
  process_loaded-Accounts ((c, r) ∷ rest) t w =
      let (t', w') = process_one x config c.item_id r t w in
      rw one-add-eq-suc at
        (Accounts-trans (process_one-Accounts c.item_id r t w) (process_loaded-Accounts rest t' w'))

  length-load_all :
      (changes : List ItemChange) (w : W) → length (load_all x config changes w).0 ≡ length changes
  unfolding load_all
  length-load_all [] w = refl
  length-load_all (c ∷ cs) w = ap suc (length-load_all cs (load_item x config c w).1)

  process_batches-Accounts :
      (bs : List (List ItemChange)) (t : Tally) (w : W)
      → Accounts (total bs) t (process_batches x config bs t w).0
  unfolding process_batches
  process_batches-Accounts [] t w = record {
    counted = omega arith;
    grown = omega arith;
    even = λ h. h;
  }
  process_batches-Accounts (b ∷ bs) t w =
      let (loaded, w1) = load_all x config b w in
      let (t', w2) = process_loaded x config loaded t w1 in
      rw length-load_all at
        (Accounts-trans (process_loaded-Accounts loaded t w1) (process_batches-Accounts bs t' w2))

  hierarchy_of-le :
      (r : Result Raised (List AnyItem)) (w : W) → length (hierarchy_of x config r w).0.1 ≤ 1
  unfolding hierarchy_of
  hierarchy_of-le (err e) w = omega arith
  hierarchy_of-le (ok items) w = ground arith

  write_hierarchy-le : (w : W) → length (write_hierarchy x config w).0.1 ≤ 1
  unfolding write_hierarchy
  write_hierarchy-le w = let (r, w') = x.fetch_hierarchy w in ground (arith, hierarchy_of-le r w')

  -- Every change is in the counts of the tally or in its failures, exactly once, and so is the
  -- hierarchy if it failed; and an item that counts as processed counts as replaced.
  pub record IsAccounted (discovered : ℕ) (t : Tally) : Type 0 where
    pub at_least : discovered ≤ count t
    pub at_most : count t ≤ discovered + 1
    pub even : t.replaced_items ≡ t.processed_items

  -- The changes and the failures of the hierarchy, which are at most one and stay failures.
  pub record IsCounted (discovered : ℕ) (t : Tally) : Type 0 where
    pub hierarchy_failures : ℕ
    pub counted : count t ≡ discovered + hierarchy_failures
    pub at_most_one : hierarchy_failures ≤ 1
    pub still_failed : hierarchy_failures ≤ length t.failures
    pub even : t.replaced_items ≡ t.processed_items

  pub process_changes-IsCounted :
      (changes : List ItemChange) (w : W)
      → 0 < config.fetch_concurrency
      → IsCounted (length changes) (process_changes x config changes w).0.1
  unfolding process_changes
  process_changes-IsCounted changes w positive =
      let (found, w1) = write_hierarchy x config w in
      let begun : Tally = record {
        failures = found.1;
        deleted_items = 0;
        replaced_items = 0;
        processed_items = 0;
        written_chunks = 0;
      } in
      let gone = keep (λ (c : ItemChange). is_deleted c.type) changes in
      let to_load = keep (λ (c : ItemChange). not (is_deleted c.type)) changes in
      let (after, w2) = delete_all x config gone begun w1 in
      let bs = batches (length to_load) config.fetch_concurrency to_load in
      let (t, w3) = process_batches x config bs after w2 in
      let h : Accounts (length gone + total bs) begun t =
        Accounts-trans (delete_all-Accounts gone begun w1) (process_batches-Accounts bs after w2) in
      let batched : total bs ≡ length to_load =
        total-batches (length to_load) config.fetch_concurrency to_load (omega arith) positive in
      record {
        hierarchy_failures = length found.1;
        counted = omega (arith, h.counted, batched, length-removed changes);
        at_most_one = write_hierarchy-le w;
        still_failed = h.grown;
        even = h.even refl;
      }

-- The result that an outcome carries, if it has one.
abbrev pub OnResult :
    {Checkpoint : Type 0} → (PipelineResult Checkpoint → Type 0) → Outcome Checkpoint → Type 0
OnResult P (returned r) = P r
OnResult P (failed r) = P r
OnResult P (raised e) = Unit
