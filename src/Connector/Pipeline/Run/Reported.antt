-- ===== src/Connector/Pipeline/Run/Reported.antt =====
-- The outcome and the checkpoint of `run_scope` of backend/bothesis/connector/pipeline.py.

use bo_thesis.Base.Result.{Result}
use bo_thesis.Base.{◌+◌, ◌≡◌, ◌≢◌, ◌⊎◌, Bool, true, false, []}
use bo_thesis.Connector.Pipeline.Run.{Outcome, returned, failed, raised}

-- What a run may end with, from a given checkpoint and with that which the source has after it. A
-- run that had a failure keeps the checkpoint and says so, and it raises unless it was told to go
-- on; a run without one returns, has dealt with every change, and moves on.
abbrev pub IsReported :
    {Checkpoint : Type 0} → Bool → (before next : Checkpoint) → Outcome Checkpoint → Type 0
IsReported continue_on_error before next (returned r) =
    (r.tally.failures ≡ [])
      × (r.checkpoint_advanced ≡ true)
      × (r.checkpoint ≡ next)
      × (r.tally.deleted_items + r.tally.processed_items ≡ r.discovered_changes)
    ⊎ (r.tally.failures ≢ [])
      × (r.checkpoint_advanced ≡ false)
      × (r.checkpoint ≡ before)
      × (continue_on_error ≡ true)
IsReported continue_on_error before next (failed r) =
    (r.tally.failures ≢ [])
    × (r.checkpoint_advanced ≡ false)
    × (r.checkpoint ≡ before)
    × (continue_on_error ≡ false)
IsReported continue_on_error before next (raised e) = Unit
