-- ===== src/Agent/Sampling/Tests.antt =====
-- A stream that fails once, and the theorems about `sample` at it.
use bo_thesis.Base.{ℕ, zero, suc, ◌≡◌, refl, some, [], ◌∷◌, arith}
use bo_thesis.Agent.Sampling.{
  SamplingError, Attempt, finished, raised, SampleEnding, is_retryable, sample,
}
use bo_thesis.Agent.Sampling.Retries.{here, again, IsSampled, sample-IsSampled, sample-returned}

abbrev stream : ℕ → Attempt ℕ
stream zero = raised [] (SamplingError.http_status_error 503)
stream (suc n) = finished (7 ∷ (8 ∷ []))

sample-IsSampled_example : IsSampled stream 2 0 (sample stream 2)
sample-IsSampled_example = sample-IsSampled stream 2

sample-returned_example :
    sample stream 2
    ≡ some (record { events = 7 ∷ (8 ∷ []); ending = SampleEnding.returned; delays = 1 ∷ [] })
unfolding is_retryable
sample-returned_example =
    sample-returned stream 2 1 (7 ∷ (8 ∷ []))
      (again (SamplingError.http_status_error 503) refl refl refl here) refl (omega arith)
