-- ===== src/App/HealthRoute.antt =====
-- fastapi_m8/_app.py: the health route and its cache of results. The checks run in tasks of their own,
-- which finish in any order: a `Completion` is one task that has ended.
pub mod Order
pub mod Gaps
pub mod Dumps
pub mod Laws
use fastapi_m.Base.{
  ℕ, suc, ◌+◌, String, Bool, true, false, not, ◌||◌, Option, none, some, List, [], ◌∷◌, ltb, ◌==◌,
  nat_eq, if◌then◌else◌, map,
}
use fastapi_m.Health.{
  HealthStatus, HealthAggregatePolicy, HealthCheckResult, CheckOutcome, code_of, fail, run_check,
  aggregate, model_dump,
}
use fastapi_m.App.{HealthCache, AppState}

-- `HealthConfig`: the number of its checks, and what the route reads of it; `cache_ttl` in the unit
-- of the clock
pub record HealthConfig : Type 0 where
  pub checks : ℕ
  pub policy : HealthAggregatePolicy
  pub detail_public : Bool
  pub cache_ttl : ℕ

-- the task `_run_one(index, check)`: what `run_check` gets to know
pub record Completion (X : Type 0) : Type 0 where
  pub index : ℕ
  pub name : String
  pub timeout_error : List ℕ
  pub elapsed_ms : ℕ
  pub outcome : CheckOutcome X

-- `[None] * n`
unfoldable pub unfilled : {R : Type 0} → ℕ → List (Option R)
unfilled ℕ.zero = []
unfilled (suc n) = none ∷ unfilled n

-- `results[index] = r`; every index that is written is within the list
unfoldable pub put_at : {R : Type 0} → ℕ → R → List (Option R) → List (Option R)
put_at i r [] = []
put_at ℕ.zero r (x ∷ results) = some r ∷ results
put_at (suc i) r (x ∷ results) = x ∷ put_at i r results

-- the body of the task group
unfoldable pub run_tasks :
    {X : Type 0}
    → List (Completion X)
    → List (Option (HealthCheckResult X))
    → List (Option (HealthCheckResult X))
run_tasks [] results = results
run_tasks (t ∷ rest) results =
    run_tasks rest
      (put_at t.index (run_check t.name t.timeout_error t.elapsed_ms t.outcome) results)

-- the results, if every one is there; `none` is the `AttributeError` of a missing one
unfoldable pub filled : {R : Type 0} → List (Option R) → Option (List R)
filled [] = some []
filled (none ∷ results) = none
filled (some r ∷ results) = elim (filled results) [ none ↦ none | some rs ↦ some (r ∷ rs) ]

-- `503 if overall is HealthStatus.FAIL else 200`
abbrev pub code_for : HealthStatus → ℕ
code_for overall = if code_of overall == code_of fail then 503 else 200

-- the bodies of the route's replies
pub record Detail (X : Type 0) : Type 0 where
  pub status : HealthStatus
  pub checks : List (HealthCheckResult X × Bool)
  pub service : Option String
  pub version : Option String
  pub fastapi_m8 : String
  pub auth_sdk_m8 : Option String

pub data Body (X : Type 0) : Type 0 where
  initializing : Body X
  alive : Body X
  detailed : Detail X → Body X

-- `run_checks` starts the checks and waits for the last of them; `authorize` is the configured
-- predicate on requests of type `Q`.
pub record HealthWorld (W Q X : Type 0) : Type 0 where
  pub monotonic : W → ℕ × W
  pub run_checks : W → List (Completion X) × W
  pub authorize : Q → W → Bool × W

-- what the route puts beside the checks, and the characters that masking asks about
pub record Identity : Type 0 where
  pub service_name : Option String
  pub service_version : Option String
  pub own_version : String
  pub auth_version : Option String
  pub is_space : ℕ → Bool
  pub same_letter : ℕ → ℕ → Bool

module _ {W Q X : Type 0} (world : HealthWorld W Q X) (config : HealthConfig) where
  -- what follows the task group
  unfoldable pub remember :
      Option (List (HealthCheckResult X))
      → AppState X × W
      → Option (HealthCache X) × (AppState X × W)
  remember none s = (none, s)
  remember (some results) (app, w) =
      let (t, w') = world.monotonic w in
      let overall = aggregate results config.policy in
      let cache : HealthCache X = record {
        checked_at = t;
        results = results;
        overall = overall;
        code = code_for overall;
      } in
      (some cache, (record app { health_cache = some cache }, w'))

  -- a miss of the cache
  unfoldable pub run_all : AppState X × W → Option (HealthCache X) × (AppState X × W)
  run_all (app, w) =
      let (tasks, w') = world.run_checks w in
      remember (filled (run_tasks tasks (unfilled config.checks))) (app, w')

  -- `time.monotonic() - cache[0] < cache_ttl`
  abbrev pub is_current : ℕ → HealthCache X → Bool
  is_current now cache = ltb now (cache.checked_at + config.cache_ttl)

  -- the test of `cache`, with the value that was read
  unfoldable pub consult :
      Option (HealthCache X) → AppState X × W → Option (HealthCache X) × (AppState X × W)
  consult none s = run_all s
  consult (some cache) (app, w) =
      let (t, w') = world.monotonic w in
      let missed = run_all (app, w') in
      if is_current t cache then (some cache, (app, w')) else missed

  -- the results, their status and the code, as the cache holds them
  unfoldable pub gather_health_results : AppState X × W → Option (HealthCache X) × (AppState X × W)
  gather_health_results (app, w) = consult app.health_cache (app, w)

  module _ (identity : Identity) where
    abbrev pub build_health_body : HealthCache X → Detail X
    build_health_body gathered = record {
      status = gathered.overall;
      checks = map (model_dump identity.is_space identity.same_letter) gathered.results;
      service = identity.service_name;
      version = identity.service_version;
      fastapi_m8 = identity.own_version;
      auth_sdk_m8 = identity.auth_version;
    }

    abbrev pub report :
        Option (HealthCache X) × (AppState X × W) → Option (ℕ × Body X) × (AppState X × W)
    report (none, s) = (none, s)
    report (some gathered, s) = (some (gathered.code, detailed (build_health_body gathered)), s)

    -- `config.detail_public or await _is_authorized(request)`
    abbrev may_see : Q → AppState X × W → Bool × (AppState X × W)
    may_see request (app, w) =
        let (granted, w') = world.authorize request w in
        if config.detail_public then (true, (app, w)) else (granted, (app, w'))

    -- the route: the code and the body, `none` where an exception leaves it
    unfoldable pub health : Q → AppState X × W → Option (ℕ × Body X) × (AppState X × W)
    health request (app, w) =
        let (allowed, s) = may_see request (app, w) in
        let full = report (gather_health_results s) in
        if not app.service_ready
        then (some (503, initializing), (app, w))
        else if allowed
        then full
        else (some (200, alive), s)
