-- ===== src/Health.antt =====
-- fastapi_m8/_health.py: the results of health checks and their aggregate. How a check ends is a
-- parameter; texts that may be scrubbed are code points.
pub mod Laws
pub mod Scrub
use fastapi_m.Base.{
  ℕ, String, Bool, true, false, ◌&&◌, Option, none, some, List, [], ◌∷◌, map, Eq, ◌==◌, nat_eq,
  elem, if◌then◌else◌,
}
use fastapi_m.Http.{codes}
use Scrub.{MetaValue, Meta, scrub_text, scrub_meta}

pub data HealthStatus : Type 0 where
  ok degraded fail unknown : HealthStatus

abbrev pub code_of : HealthStatus → ℕ
code_of ok = 0
code_of degraded = 1
code_of fail = 2
code_of unknown = 3

-- `in` on a set of statuses
abbrev holds : HealthStatus → List HealthStatus → Bool
holds s statuses = elem (code_of s) (map code_of statuses)

from_bool : Bool → HealthStatus
from_bool b = if b then ok else fail

pub data HealthAggregatePolicy : Type 0 where
  strict lenient : HealthAggregatePolicy

abbrev is_strict : HealthAggregatePolicy → Bool
is_strict strict = true
is_strict lenient = false

-- `X` is the type of the values of `meta` that are no text.
pub record HealthCheckResult (X : Type 0) : Type 0 where
  pub name : String
  pub status : HealthStatus
  pub latency_ms : Option ℕ
  pub error : Option (List ℕ)
  pub meta : Option (Meta X)

-- the property `ok`
pub is_ok : {X : Type 0} → HealthCheckResult X → Bool
is_ok r = code_of r.status == code_of ok

abbrev some_meta : {X : Type 0} → Meta X → Option (Meta X)
some_meta [] = none
some_meta (x ∷ meta) = some (x ∷ meta)

-- `HealthCheckResult.from_bool`
result_from_bool : {X : Type 0} → String → Bool → Meta X → HealthCheckResult X
result_from_bool name b meta = record {
  name = name;
  status = from_bool b;
  latency_ms = none;
  error = none;
  meta = some_meta meta;
}

-- what `model_dump` puts out: the fields, with `error` and `meta` through their serialisers, and `ok`
unfoldable pub model_dump :
    {X : Type 0}
    → (is_space : ℕ → Bool) → (same_letter : ℕ → ℕ → Bool) → HealthCheckResult X
    → HealthCheckResult X × Bool
model_dump is_space same_letter r = (
  record r { error = scrub_text is_space r.error; meta = scrub_meta is_space same_letter r.meta },
  is_ok r,
)

abbrev failed : {X : Type 0} → String → List ℕ → HealthCheckResult X
failed name message = record {
  name = name;
  status = fail;
  latency_ms = none;
  error = some message;
  meta = none;
}

-- how `await check()` ends under `anyio.move_on_after`
pub data CheckOutcome (X : Type 0) : Type 0 where
  returned : HealthCheckResult X → CheckOutcome X
  raised : (message : List ℕ) → CheckOutcome X
  timed_out : CheckOutcome X

-- `timeout_error` is the text of the timeout, with the number of milliseconds
unfoldable pub run_check :
    {X : Type 0}
    → (name : String) → (timeout_error : List ℕ) → (elapsed_ms : ℕ) → CheckOutcome X
    → HealthCheckResult X
run_check name timeout_error elapsed_ms timed_out = failed name timeout_error
run_check name timeout_error elapsed_ms (raised message) = failed name message
run_check name timeout_error elapsed_ms (returned result) = record result {
  latency_ms = some elapsed_ms;
}

unfoldable pub overall : HealthAggregatePolicy → List HealthStatus → HealthStatus
overall policy [] = ok
overall policy (s ∷ rest) =
    let statuses = s ∷ rest in
    if holds fail statuses
    then fail
    else if is_strict policy && holds unknown statuses
    then fail
    else if holds unknown statuses
    then unknown
    else if holds degraded statuses
    then degraded
    else ok

unfoldable pub aggregate :
    {X : Type 0} → List (HealthCheckResult X) → HealthAggregatePolicy → HealthStatus
aggregate {X} results policy = overall policy (map (λ (r : HealthCheckResult X). r.status) results)
