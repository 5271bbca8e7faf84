-- ===== src/ApiKey/Breaker/Laws.antt =====
-- When the circuit opens, how long it stays open, and what half-open admits:
-- fastapi_m8/_api_key.py, `_CircuitBreaker`.
use fastapi_m.Base.{
  ℕ, ◌+◌, ◌-◌, ◌≤◌, ◌<◌, ◌≡◌, refl, Bool, true, false, none, some, List, [], ◌∷◌, arith, leb,
  is_some, length, All,
}
use fastapi_m.ApiKey.Breaker.{CircuitBreaker, init, allows_call, record_success, record_failure}

-- the circuit is open exactly if the streak has reached the threshold
pub record IsValid (b : CircuitBreaker) : Type 0 where
  pub positive : 0 < b.threshold
  pub streak : is_some b.opened_at ≡ leb b.threshold b.failures

pub init-IsValid : (threshold reset : ℕ) → 0 < threshold → IsValid (init threshold reset)
unfolding init
init-IsValid threshold reset h = record { positive = h; streak = ground arith }

-- Every operation keeps the circuit open exactly where the streak has reached the threshold.
allows_call-IsValid : (now : ℕ) (b : CircuitBreaker) → IsValid b → IsValid (allows_call now b).1
unfolding allows_call
allows_call-IsValid now b h = ground arith

record_success-IsValid : (b : CircuitBreaker) → IsValid b → IsValid (record_success b)
unfolding record_success
record_success-IsValid b h = record { positive = h.positive; streak = ground (arith, h.positive) }

record_failure-IsValid : (now : ℕ) (b : CircuitBreaker) → IsValid b → IsValid (record_failure now b)
unfolding record_failure
record_failure-IsValid now b h = ground arith

-- a valid breaker with the given settings
pub record Circuit (threshold reset : ℕ) (b : CircuitBreaker) : Type 0 where
  pub valid : IsValid b
  pub threshold_kept : b.threshold ≡ threshold
  pub reset_kept : b.reset ≡ reset

module _ (threshold reset : ℕ) where
  pub init-Circuit : 0 < threshold → Circuit threshold reset (init threshold reset)
  unfolding init
  init-Circuit h = record {
    valid = init-IsValid threshold reset h;
    threshold_kept = refl;
    reset_kept = refl;
  }

  pub allows_call-Circuit :
      (now : ℕ) (b : CircuitBreaker)
      → Circuit threshold reset b
      → Circuit threshold reset (allows_call now b).1
  unfolding allows_call
  allows_call-Circuit now b h = record {
    valid = allows_call-IsValid now b h.valid;
    threshold_kept = ground (arith, h.threshold_kept);
    reset_kept = ground (arith, h.reset_kept);
  }

  pub record_success-Circuit :
      (b : CircuitBreaker) → Circuit threshold reset b → Circuit threshold reset (record_success b)
  unfolding record_success
  record_success-Circuit b h = record {
    valid = record_success-IsValid b h.valid;
    threshold_kept = h.threshold_kept;
    reset_kept = h.reset_kept;
  }

  pub record_failure-Circuit :
      (now : ℕ) (b : CircuitBreaker)
      → Circuit threshold reset b
      → Circuit threshold reset (record_failure now b)
  unfolding record_failure
  record_failure-Circuit now b h = record {
    valid = record_failure-IsValid now b h.valid;
    threshold_kept = ground (arith, h.threshold_kept);
    reset_kept = ground (arith, h.reset_kept);
  }

-- failures in a row, at the given times
fail_at : List ℕ → CircuitBreaker → CircuitBreaker
fail_at [] b = b
fail_at (now ∷ later) b = fail_at later (record_failure now b)

fail_at-failures :
    (times : List ℕ) (b : CircuitBreaker)
    → ((fail_at times b).failures ≡ b.failures + length times)
      × ((fail_at times b).threshold ≡ b.threshold)
unfolding fail_at record_failure
fail_at-failures [] b = (omega arith, refl)
fail_at-failures (now ∷ later) b = ground (arith, fail_at-failures later (record_failure now b))

fail_at-IsValid : (times : List ℕ) (b : CircuitBreaker) → IsValid b → IsValid (fail_at times b)
unfolding fail_at
fail_at-IsValid [] b h = h
fail_at-IsValid (now ∷ later) b h =
    fail_at-IsValid later (record_failure now b) (record_failure-IsValid now b h)

-- After a success, a run of failures opens the circuit exactly if it is as long as the threshold.
opens_after :
    (times : List ℕ) (b : CircuitBreaker)
    → IsValid b
    → is_some (fail_at times (record_success b)).opened_at ≡ leb b.threshold (length times)
unfolding record_success
opens_after times b h = ground (
  arith,
  fail_at-failures times (record_success b),
  fail_at-IsValid times (record_success b) (record_success-IsValid b h),
)

-- The failure that completes the streak denies every call until the reset time has passed since
-- that failure, and no call from then on.
allows_call-record_failure :
    (b : CircuitBreaker) (failed now : ℕ)
    → b.threshold ≤ b.failures + 1
    → (allows_call now (record_failure failed b)).0 ≡ leb b.reset (now - failed)
unfolding allows_call record_failure
allows_call-record_failure b failed now last = ground arith

-- calls that are asked for in a row, with nothing recorded between them
pub ask_at : List ℕ → CircuitBreaker → List Bool × CircuitBreaker
ask_at [] b = ([], b)
ask_at (now ∷ later) b =
    let (answer, b') = allows_call now b in
    let (answers, b'') = ask_at later b' in (answer ∷ answers, b'')

ask_at_closed :
    (times : List ℕ) (b : CircuitBreaker)
    → b.opened_at ≡ none
    → All (λ answer. answer ≡ true) (ask_at times b).0 × ((ask_at times b).1 ≡ b)
unfolding ask_at allows_call
ask_at_closed [] b closed = (tt, refl)
ask_at_closed (now ∷ later) b closed = ground (arith, ask_at_closed later b closed)

-- Once the reset time has passed, every call is admitted, not only one, until an outcome is
-- recorded; a failure that is recorded then opens the circuit again, from the time of that failure.
pub half_open :
    (b : CircuitBreaker) (opened now failed : ℕ) (times : List ℕ)
    → IsValid b
    → b.opened_at ≡ some opened
    → b.reset ≤ now - opened
    → All (λ answer. answer ≡ true) (ask_at (now ∷ times) b).0
      × ((record_failure failed (ask_at (now ∷ times) b).1).opened_at ≡ some failed)
unfolding ask_at allows_call record_failure
half_open b opened now failed times h open' due =
    ground
      (arith, ask_at_closed times (record b { failures = b.threshold - 1; opened_at = none }) refl)

-- While the circuit is open, asking it changes nothing.
pub still_open :
    (b : CircuitBreaker) (failed now : ℕ)
    → b.threshold ≤ b.failures + 1
    → now - failed < b.reset
    → ((record_failure failed b).opened_at ≡ some failed)
      × (allows_call now (record_failure failed b) ≡ (false, record_failure failed b))
unfolding allows_call record_failure
still_open b failed now last within = (ground arith, ground arith)
