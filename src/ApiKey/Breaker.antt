-- ===== src/ApiKey/Breaker.antt =====
-- fastapi_m8/_api_key.py, `_CircuitBreaker`. The clock is read by the caller and passed as `now`. The
-- settings keep the threshold at least 1 and the reset time positive.
pub mod Laws
use fastapi_m.Base.{ℕ, suc, ◌-◌, Bool, true, false, Option, none, some, ltb, leb, if◌then◌else◌}

pub record CircuitBreaker : Type 0 where
  pub threshold : ℕ
  pub reset : ℕ
  pub failures : ℕ
  pub opened_at : Option ℕ

unfoldable pub init : (failure_threshold reset_seconds : ℕ) → CircuitBreaker
init failure_threshold reset_seconds = record {
  threshold = failure_threshold;
  reset = reset_seconds;
  failures = 0;
  opened_at = none;
}

-- Half-open is a closed circuit whose failure count is one short of the threshold.
unfoldable pub allows_call : ℕ → CircuitBreaker → Bool × CircuitBreaker
allows_call now b = elim b.opened_at [
  | none ↦ (true, b)
  | some opened ↦
      if ltb (now - opened) b.reset
      then (false, b)
      else (true, record b { failures = b.threshold - 1; opened_at = none })
]

unfoldable pub record_success : CircuitBreaker → CircuitBreaker
record_success b = record b { failures = 0; opened_at = none }

unfoldable pub record_failure : ℕ → CircuitBreaker → CircuitBreaker
record_failure now b =
    if leb b.threshold (suc b.failures)
    then record b { failures = suc b.failures; opened_at = some now }
    else record b { failures = suc b.failures }
