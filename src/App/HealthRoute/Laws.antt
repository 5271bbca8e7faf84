-- ===== src/App/HealthRoute/Laws.antt =====
-- What the health route tells, and to whom: fastapi_m8/_app.py.
use fastapi_m.Base.{
  ℕ, ◌+◌, ◌≤◌, ◌≡◌, ◌≢◌, ◌⊎◌, refl, sym, ◌∙◌, true, false, Option, none, some, List, map, inl, inr,
  arith, Bool-cases, Option-cases, eq_of_some,
}
use mathlib.Core.Path.{subst}
use fastapi_m.Health.{HealthStatus, ok, degraded, fail, unknown, HealthCheckResult, aggregate}
use fastapi_m.Health.Laws.{worst, aggregate-worst}
use fastapi_m.App.{HealthCache, AppState}
use fastapi_m.App.HealthRoute.{
  HealthConfig, HealthWorld, Identity, Detail, Body, initializing, alive, detailed, code_for,
  is_current, unfilled, run_tasks, filled, remember, consult, build_health_body, report, run_all,
  gather_health_results, health,
}
use fastapi_m.App.HealthRoute.Dumps.{dump-names, dump-statuses, worst-dump}
use fastapi_m.App.HealthRoute.Gaps.{Gapped, filled-Gapped}

-- the code of a reply that tells a status: 503 for a failure, and 200 for any other
abbrev IsCodeFor : HealthStatus → ℕ → Type 0
IsCodeFor status code = ((status ≡ fail) × (code ≡ 503)) ⊎ ((status ≢ fail) × (code ≡ 200))

module _ {W Q X : Type 0} (world : HealthWorld W Q X) (config : HealthConfig) where
  -- the cached status and code are those of the cached results
  pub record IsConsistent (cache : HealthCache X) : Type 0 where
    pub overall : cache.overall ≡ worst config.policy cache.results
    pub code : IsCodeFor (worst config.policy cache.results) cache.code

  abbrev pub HasConsistent : AppState X → Type 0
  HasConsistent app = (cache : HealthCache X) → app.health_cache ≡ some cache → IsConsistent cache

  code_for-cases : (overall : HealthStatus) → IsCodeFor overall (code_for overall)
  code_for-cases ok = inr (λ e. absurd (ground arith), refl)
  code_for-cases degraded = inr (λ e. absurd (ground arith), refl)
  code_for-cases fail = inl (refl, refl)
  code_for-cases unknown = inr (λ e. absurd (ground arith), refl)

  -- the cache holds nothing, or nothing that is still current by the clock
  abbrev IsStale : AppState X → Type 0
  IsStale app =
      (cache : HealthCache X)
      → app.health_cache ≡ some cache
      → (w : W) × (cache.checked_at + config.cache_ttl ≤ (world.monotonic w).0)

  -- how gathering the results ends, and the app that it leaves
  data Gathered (app : AppState X) : Option (HealthCache X) × (AppState X × W) → Type 0 where
    broken :
        (w w' : W)
        → IsStale app
        → Gapped config.checks (world.run_checks w).0
        → Gathered app (none, (app, w'))
    kept :
        (cache : HealthCache X) (w : W)
        → IsConsistent cache
        → Gathered app (some cache, (record app { health_cache = some cache }, w))

  kept-Gathered :
      (results : List (HealthCheckResult X)) (app : AppState X) (w : W)
      → Gathered app (remember world config (some results) (app, w))
  unfolding remember
  kept-Gathered results app w =
      let same = aggregate-worst results config.policy in
      kept _ _ (record {
        overall = same;
        code =
            subst (λ s. IsCodeFor s (code_for (aggregate results config.policy))) same
              (code_for-cases (aggregate results config.policy));
      })

  run_all-Gathered :
      (app : AppState X) (w : W) → IsStale app → Gathered app (run_all world config (app, w))
  unfolding run_all remember
  run_all-Gathered app w stale =
      let (tasks, w') = world.run_checks w in
      elim (Option-cases (filled (run_tasks tasks (unfilled config.checks)))) [
        | inl gap ↦ rw gap (broken w w' stale (filled-Gapped config.checks tasks gap))
        | inr (results, full) ↦ rw full (kept-Gathered results app w')
      ]

  hit-Gathered :
      (app : AppState X) (cache : HealthCache X) (w : W)
      → app.health_cache ≡ some cache
      → IsConsistent cache
      → Gathered app (some cache, (app, w))
  hit-Gathered app cache w has fine =
      let same : record app { health_cache = some cache } ≡ app = cc in
      subst (λ a. Gathered app (some cache, (a, w))) same (kept cache w fine)

  consult-Gathered :
      (found : Option (HealthCache X)) (app : AppState X) (w : W)
      → app.health_cache ≡ found
      → HasConsistent app
      → Gathered app (consult world config found (app, w))
  unfolding consult
  consult-Gathered none app w has h = run_all-Gathered app w (λ cache there. absurd (ground arith))
  consult-Gathered (some cache) app w has h =
      let (t, w') = world.monotonic w in
      elim (Bool-cases (is_current world config t cache)) [
        | inl current ↦ rw current (hit-Gathered app cache w' has (h cache has))
        | inr old ↦
            let stale : IsStale app = λ other there.
              let same : cache ≡ other = eq_of_some (sym has ∙ there) in (w, ground arith) in
            rw old (run_all-Gathered app w' stale)
      ]

  gather-Gathered :
      (app : AppState X) (w : W)
      → HasConsistent app
      → Gathered app (gather_health_results world config (app, w))
  unfolding gather_health_results
  gather-Gathered app w h = consult-Gathered app.health_cache app w refl h

  module _ (identity : Identity) where
    -- What a detailed reply tells: the name and the status of each check, and as the status of the
    -- whole the worst of those that it tells.
    pub record Shows (detail : Detail X) (results : List (HealthCheckResult X)) : Type 0 where
      pub names : map (λ c. c.0.name) detail.checks ≡ map (λ r. r.name) results
      pub statuses : map (λ c. c.0.status) detail.checks ≡ map (λ r. r.status) results
      pub told : detail.status ≡ worst config.policy (map (λ c. c.0) detail.checks)

    body-Shows :
        (cache : HealthCache X)
        → IsConsistent cache
        → Shows (build_health_body world config identity cache) cache.results
    body-Shows cache fine = record {
      names = dump-names identity.is_space identity.same_letter cache.results;
      statuses = dump-statuses identity.is_space identity.same_letter cache.results;
      told =
          fine.overall
          ∙ sym (worst-dump identity.is_space identity.same_letter config.policy cache.results);
    }

    -- Every way in which the route answers a request: `app` and `w` are what it starts from.
    pub data Told (request : Q) (app : AppState X) (w : W)
        : Option (ℕ × Body X) × (AppState X × W) → Type 0 where
      not_ready :
          app.service_ready ≡ false → Told request app w (some (503, initializing), (app, w))
      ungated :
          app.service_ready ≡ true
          → config.detail_public ≡ false
          → (world.authorize request w).0 ≡ false
          → Told request app w (some (200, alive), (app, (world.authorize request w).1))
      shown :
          (cache : HealthCache X) (detail : Detail X) (w' : W)
          → app.service_ready ≡ true
          → (config.detail_public ≡ true) ⊎ ((world.authorize request w).0 ≡ true)
          → IsConsistent cache
          → Shows detail cache.results
          → Told request app w
              (some (cache.code, detailed detail), (record app { health_cache = some cache }, w'))
      uncaught :
          (w1 w' : W)
          → app.service_ready ≡ true
          → (config.detail_public ≡ true) ⊎ ((world.authorize request w).0 ≡ true)
          → IsStale app
          → Gapped config.checks (world.run_checks w1).0
          → Told request app w (none, (app, w'))

    Gathered-Told :
        {r : Option (HealthCache X) × (AppState X × W)} (request : Q) (app : AppState X) (w : W)
        → app.service_ready ≡ true
        → (config.detail_public ≡ true) ⊎ ((world.authorize request w).0 ≡ true)
        → Gathered app r
        → Told request app w (report world config identity r)
    Gathered-Told request app w ready seen (broken w1 w' stale gap) =
        uncaught w1 w' ready seen stale gap
    Gathered-Told request app w ready seen (kept cache w' fine) =
        shown cache _ w' ready seen fine (body-Shows cache fine)

    health_cases :
        (request : Q) (app : AppState X) (w : W)
        → HasConsistent app
        → Told request app w (health world config identity request (app, w))
    unfolding health
    health_cases request app w h = elim (Bool-cases app.service_ready) [
      | inr off ↦ simp off (not_ready off)
      | inl ready ↦ elim (Bool-cases config.detail_public) [
        | inl public ↦
            simp (ready, public)
              (Gathered-Told request app w ready (inl public) (gather-Gathered app w h))
        | inr private ↦ elim (Bool-cases (world.authorize request w).0) [
          | inl granted ↦
              simp (ready, private, granted)
                (Gathered-Told request app w ready (inr granted) (gather-Gathered app _ h))
          | inr denied ↦ simp (ready, private, denied) (ungated ready private denied)
        ]
      ]
    ]

    Told-HasConsistent :
        (request : Q) (app : AppState X) (w : W) {r : Option (ℕ × Body X) × (AppState X × W)}
        → HasConsistent app
        → Told request app w r
        → HasConsistent r.1.0
    Told-HasConsistent request app w h (not_ready e) = h
    Told-HasConsistent request app w h (ungated e public granted) = h
    Told-HasConsistent request app w h (shown cache detail w' e seen fine shows) =
        λ other has. subst IsConsistent (eq_of_some has) fine
    Told-HasConsistent request app w h (uncaught w1 w' e seen stale gap) = h

    -- The route answers 503 before the app is ready. Afterwards a caller that neither the
    -- configuration nor the authorizer lets see the details gets a fixed reply and 200, whatever the
    -- checks and the cache say, and nothing is checked or kept for it. To the others the name and the
    -- status of every check of the round that is kept are told, and as the status of the whole the
    -- worst of these; the code is 503 if that is a failure, and else 200. An exception leaves the
    -- route only where a round was due, and one of its checks has no task that ended. The cache is
    -- left with a status and a code that are those of its results, as it was before.
    pub health-Told :
        (request : Q) (app : AppState X) (w : W)
        → HasConsistent app
        → Told request app w (health world config identity request (app, w))
          × HasConsistent (health world config identity request (app, w)).1.0
    health-Told request app w h =
        let told = health_cases request app w h in (told, Told-HasConsistent request app w h told)
