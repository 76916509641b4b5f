-- ===== src/Agent/Sampling/Retries.antt =====
-- The attempts of `sample`, backend/bothesis/agent/sampling.py.
use Prim.{absurd}
use bo_thesis.Base.{
  ℕ, zero, suc, ◌+◌, ◌≤◌, ◌<◌, ◌≡◌, refl, Bool, true, false, ◌&&◌, Option, none, some, List, [],
  ◌∷◌, ◌++◌, leb, inl, inr, Bool-cases, nat_eq, arith,
}
use bo_thesis.Agent.Sampling.{
  SamplingError, Attempt, finished, raised, returned, Sampled, is_caught, is_retryable,
  power_of_two, can_retry, sampled, sample_from, sample,
}

module _ {E : Type 0} (stream : ℕ → Attempt E) where
  -- From one attempt to a later one: each in between gave no event and a transient error.
  pub data Retries : ℕ → ℕ → Type 0 where
    here : {n : ℕ} → Retries n n
    again :
        {n m : ℕ} (e : SamplingError)
        → stream n ≡ raised [] e
        → is_caught e ≡ true
        → is_retryable e ≡ true
        → Retries (suc n) m
        → Retries n m

  -- The delays before an attempt: each twice the one before.
  abbrev pub backoff : ℕ → List ℕ
  backoff zero = []
  backoff (suc n) = backoff n ++ (power_of_two n ∷ [])

  -- The attempt whose events the caller saw: it is within the limit, none before it gave an
  -- event, and it could not be retried.
  abbrev pub IsSampled : (max_retries first : ℕ) → Option (Sampled E) → Type 0
  IsSampled max_retries first none = ⊥
  IsSampled max_retries first (some result) =
      (last : ℕ) × Retries first last
      × (last ≤ max_retries)
      × (can_retry max_retries last (stream last) ≡ false)
      × (result ≡ sampled (stream last) (backoff last))

  can_retry-transient :
      (max_retries n : ℕ) (attempt : Attempt E)
      → can_retry max_retries n attempt ≡ true
      → (e : SamplingError) × (attempt ≡ raised [] e)
        × (is_caught e ≡ true)
        × (is_retryable e ≡ true)
        × (n < max_retries)
  unfolding can_retry
  can_retry-transient max_retries n (finished events) h = cc
  can_retry-transient max_retries n (raised (x ∷ events) e) h = absurd (by_caught (is_caught e) h)
    where
      by_caught : (b : Bool) → (b && false) ≡ true → ⊥
      by_caught true h = cc
      by_caught false h = cc
  can_retry-transient max_retries n (raised [] e) h =
      (e, refl, ground (arith, h), ground (arith, h), ground (arith, h))

  sample_from-IsSampled :
      (fuel max_retries n : ℕ)
      → n ≤ max_retries
      → max_retries < fuel + n
      → IsSampled max_retries n (sample_from fuel stream max_retries n (backoff n))
  unfolding sample_from
  sample_from-IsSampled zero max_retries n le enough = absurd (omega (arith, le, enough))
  sample_from-IsSampled (suc fuel) max_retries n le enough =
      elim (Bool-cases (can_retry max_retries n (stream n))) [
        | inl retried ↦
            let (e, at, caught, retryable, lt) =
              can_retry-transient max_retries n (stream n) retried in
            rw retried (
              first_again (sample_from fuel stream max_retries (suc n) (backoff (suc n)))
                (λ last. again e at caught retryable)
                (sample_from-IsSampled fuel max_retries (suc n) (omega (arith, lt))
                  (omega (arith, enough))))
        | inr final ↦ rw final (n, here, le, final, refl)
      ]
    where
      first_again :
          (result : Option (Sampled E))
          → ((last : ℕ) → Retries (suc n) last → Retries n last)
          → IsSampled max_retries (suc n) result
          → IsSampled max_retries n result
      first_again none step h = h
      first_again (some result) step (last, retries, le, final, seen) =
          (last, step last retries, le, final, seen)

  -- `sample` ends after at most one attempt more than the retries that are allowed. The caller
  -- sees the events and the end of one attempt; each attempt before it gave no event and a
  -- transient error, the delays between them double, and that attempt could not be retried.
  pub sample-IsSampled : (max_retries : ℕ) → IsSampled max_retries 0 (sample stream max_retries)
  unfolding sample
  sample-IsSampled max_retries =
      sample_from-IsSampled (suc max_retries) max_retries 0 (omega arith) (omega arith)

  Retries-le : (n m : ℕ) → Retries n m → n ≤ m
  Retries-le n m here = omega arith
  Retries-le n m (again e at caught retryable later) = omega (arith, Retries-le (suc n) m later)

  sample_from-returned :
      (fuel max_retries n m : ℕ) (events : List E)
      → Retries n m
      → stream m ≡ finished events
      → m ≤ max_retries
      → m < fuel + n
      → sample_from fuel stream max_retries n (backoff n)
        ≡ some (record { events = events; ending = returned; delays = backoff m })
  unfolding sample_from can_retry
  sample_from-returned zero max_retries n m events retries at le enough =
      absurd (omega (arith, Retries-le n m retries, enough))
  sample_from-returned (suc fuel) max_retries n m events here at le enough = rw at refl
  sample_from-returned (suc fuel) max_retries n m events (again e here_at caught retryable later) at
        le enough =
      let before : leb max_retries n ≡ false = ground (arith, Retries-le (suc n) m later) in
      rw here_at (
        rw caught (
          rw retryable (
            rw before (
              sample_from-returned fuel max_retries (suc n) m events later at le
                (omega (arith, enough))))))

  -- If an attempt within the limit ends well, and each attempt before it gave no event and a
  -- transient error, then `sample` gives its events.
  pub sample-returned :
      (max_retries m : ℕ) (events : List E)
      → Retries 0 m
      → stream m ≡ finished events
      → m ≤ max_retries
      → sample stream max_retries
        ≡ some (record { events = events; ending = returned; delays = backoff m })
  unfolding sample
  sample-returned max_retries m events retries at le =
      sample_from-returned (suc max_retries) max_retries 0 m events retries at le
        (omega (arith, le))
