-- ===== src/Agent/Sampling.antt =====
-- `sample` of backend/bothesis/agent/sampling.py. What `transport.stream(prompt)` does at each
-- attempt is a parameter; cancellation is left out.
pub mod Retries
mod Tests
use bo_thesis.Base.{
  ℕ, zero, suc, ◌*◌, Bool, true, false, not, ◌&&◌, ◌||◌, Option, none, some, List, [], ◌∷◌, ◌++◌,
  Str, is_empty, contains, leb, nat_eq, if◌then◌else◌,
}

-- The exceptions that `sample` tells apart. `retryable_openai_error` is one of
-- `_RETRYABLE_OPENAI_ERRORS`, `transport_error` any HTTPError without a status.
pub data SamplingError : Type 0 where
  http_status_error : (status_code : ℕ) → SamplingError
  transport_error retryable_openai_error openai_error value_error : SamplingError
  uncaught : Str → SamplingError

-- The events of one attempt, and the exception after them if there was one.
pub data Attempt (E : Type 0) : Type 0 where
  finished : List E → Attempt E
  raised : List E → SamplingError → Attempt E

pub data SampleEnding : Type 0 where
  returned transport_failed : SampleEnding
  passed_on : SamplingError → SampleEnding

-- What the caller saw, and the delays between the attempts in units of the base delay.
pub record Sampled (E : Type 0) : Type 0 where
  pub events : List E
  pub ending : SampleEnding
  pub delays : List ℕ

-- except (OpenAIError, httpx.HTTPError, ValueError)
abbrev pub is_caught : SamplingError → Bool
is_caught (uncaught name) = false
is_caught _ = true

abbrev pub retryable_http_status_codes : List ℕ
retryable_http_status_codes = 429 ∷ (500 ∷ (502 ∷ (503 ∷ (504 ∷ []))))

-- _is_retryable
unfoldable pub is_retryable : SamplingError → Bool
is_retryable (http_status_error status_code) = contains retryable_http_status_codes status_code
is_retryable transport_error = true
is_retryable retryable_openai_error = true
is_retryable _ = false

-- 2 ** n
abbrev pub power_of_two : ℕ → ℕ
power_of_two zero = 1
power_of_two (suc n) = 2 * power_of_two n

abbrev pub ending_of : SamplingError → SampleEnding
ending_of e = if is_caught e then transport_failed else passed_on e

module _ {E : Type 0} where
  -- not (emitted or not _is_retryable(exc) or attempt >= max_retries)
  unfoldable pub can_retry : (max_retries attempt : ℕ) → Attempt E → Bool
  unfolding is_retryable
  can_retry max_retries attempt (finished events) = false
  can_retry max_retries attempt (raised events e) =
      is_caught e
      && not (not (is_empty events) || (not (is_retryable e) || leb max_retries attempt))

  abbrev pub sampled : Attempt E → (delays : List ℕ) → Sampled E
  sampled (finished events) delays = record { events = events; ending = returned; delays = delays }
  sampled (raised events e) delays = record {
    events = events;
    ending = ending_of e;
    delays = delays;
  }

  -- The loop from an attempt on; `none` stands for a loop that goes on after the fuel.
  unfoldable pub sample_from :
      (fuel : ℕ)
      → (stream : ℕ → Attempt E) → (max_retries attempt : ℕ) → (delays : List ℕ)
      → Option (Sampled E)
  unfolding can_retry
  sample_from zero stream max_retries attempt delays = none
  sample_from (suc fuel) stream max_retries attempt delays =
      let later =
        sample_from fuel stream max_retries (suc attempt) (delays ++ (power_of_two attempt ∷ [])) in
      if can_retry max_retries attempt (stream attempt)
      then later
      else some (sampled (stream attempt) delays)

  -- `sample`, with fuel for every attempt
  unfoldable pub sample : (stream : ℕ → Attempt E) → (max_retries : ℕ) → Option (Sampled E)
  unfolding sample_from
  sample stream max_retries = sample_from (suc max_retries) stream max_retries 0 []
