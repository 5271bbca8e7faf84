-- ===== src/App/Startup/Laws.antt =====
-- When an app serves: fastapi_m8/_app.py, the lifespan and the check of credentials.
use fastapi_m.Base.{
  ℕ, String, ◌≡◌, ◌≢◌, ◌↔◌, ◌⊎◌, refl, ap, sym, ◌∙◌, true, Option, none, some, ◌∷◌, string_eq,
  eq_iff, arith, inl, inr, Option-cases,
}
use fastapi_m.Base.Exec.{Result, ok, raise, Exec, continue}
use fastapi_m.Config.{ConsumerServiceSettings}
use fastapi_m.App.{AppState}
use fastapi_m.App.Startup.{
  ReuseError, reuses, check_credential_no_reuse, validate_config_health, run_startup, Served,
  Extras, AppLifecycle, on_world, teardown, leave, serve_within, lifespan, with_config_check,
}

-- no operational credential is the private secret
abbrev pub Independent : ConsumerServiceSettings → Type 0
Independent s =
    (secret : String)
    → s.private_api_secret ≡ some secret
    → secret ≢ ""
    → (s.health_detail_credential ≢ some secret) × (s.metrics_scrape_credential ≢ some secret)

reuses_iff :
    (credential : Option String) (secret : String)
    → (reuses credential secret ≡ true) ↔ ((credential ≡ some secret) × (secret ≢ ""))
reuses_iff none secret = (λ h. absurd (ground arith), λ h. absurd (ground arith))
reuses_iff (some c) secret = (
  λ h. (ground (arith, eq_iff c secret), λ e. ground (arith, eq_iff c "", eq_iff c secret)),
  λ h. ground (arith, eq_iff c "", eq_iff c secret),
)

module _ (s : ConsumerServiceSettings) where
  check_sound : check_credential_no_reuse s ≡ ok tt → Independent s
  unfolding check_credential_no_reuse
  check_sound h secret has ne = (
    λ e. ground (arith, reuses_iff s.health_detail_credential secret),
    λ e. ground (arith, reuses_iff s.metrics_scrape_credential secret),
  )

  check_complete : Independent s → check_credential_no_reuse s ≡ ok tt
  unfolding check_credential_no_reuse
  check_complete h = elim (Option-cases s.private_api_secret) [
    | inl none_set ↦ ground arith
    | inr (secret, has) ↦ ground (
      arith,
      h secret has,
      reuses_iff s.health_detail_credential secret,
      reuses_iff s.metrics_scrape_credential secret,
    )
  ]

  -- The check passes exactly if neither operational credential is the private secret, where an empty
  -- secret counts as none.
  check_credential_iff : (check_credential_no_reuse s ≡ ok tt) ↔ Independent s
  check_credential_iff = (check_sound, check_complete)

continue-cong :
    {E S A B : Type 0} (f g : A → Exec E S B) (r : Result E A × S)
    → ((a : A) (s : S) → r ≡ (ok a, s) → f a s ≡ g a s)
    → continue f r ≡ continue g r
continue-cong f g (ok a, s) h = h a s refl
continue-cong f g (raise e, s) h = refl

Result_refused : {E : Type 0} (r : Result E (Unit {0})) → r ≢ ok tt → (e : E) × (r ≡ raise e)
Result_refused (ok tt) h = absurd (h refl)
Result_refused (raise e) h = (e, refl)

Result-cases :
    {E W : Type 0} (r : Result E (Unit {0}) × W)
    → ((w : W) × (r ≡ (ok tt, w))) ⊎ ((e : E) × (w : W) × (r ≡ (raise e, w)))
Result-cases (ok tt, w) = inl (w, refl)
Result-cases (raise e, w) = inr (e, w, refl)

module _ {E W X : Type 0} (monotonic : W → ℕ × W) (lc : AppLifecycle E W X) where
  module _ (serve : Exec E (Served W X) (Unit {0})) (app : AppState X) (w : W) where
    lifespan_passed :
        (w' : W)
        → run_startup lc.startup_validators w ≡ (ok tt, w')
        → lifespan monotonic lc serve (app, w)
          ≡ continue
              (λ u. on_world monotonic lc (teardown monotonic lc))
              (serve_within monotonic lc serve lc.lifespan_extras (app, w'))
    unfolding lifespan
    lifespan_passed w' e = rw e refl

    lifespan_refused :
        (e : E) (w' : W)
        → run_startup lc.startup_validators w ≡ (raise e, w')
        → lifespan monotonic lc serve (app, w) ≡ (raise e, (app, w'))
    unfolding lifespan
    lifespan_refused e w' h = rw h refl

  -- the app is ready, and every validator has passed
  abbrev pub Started : W → Served W X → Type 0
  Started w s =
      (s.0.service_ready ≡ true) × (w' : W) × (run_startup lc.startup_validators w ≡ (ok tt, w'))

  module _ (serve other : Exec E (Served W X) (Unit {0})) where
    serve_within-cong :
        (x : Option (Extras E W X)) (s : Served W X)
        → ((s : Served W X) → s.0.service_ready ≡ true → serve s ≡ other s)
        → serve_within monotonic lc serve x s ≡ serve_within monotonic lc other x s
    unfolding serve_within
    serve_within-cong none (app, w) h = h _ refl
    serve_within-cong (some x) s h =
        continue-cong _ _ (x.enter s) (λ a (app, w) e. ap (leave monotonic lc x) (h _ refl))

    -- Traffic is served only by an app that is ready, and only after every startup validator has
    -- passed: two ways to serve that agree on those states give the same lifespan, from its first
    -- step to its teardown.
    pub lifespan-Started :
        (app : AppState X) (w : W)
        → ((s : Served W X) → Started w s → serve s ≡ other s)
        → lifespan monotonic lc serve (app, w) ≡ lifespan monotonic lc other (app, w)
    lifespan-Started app w h = elim (Result-cases (run_startup lc.startup_validators w)) [
      | inl (w', e) ↦
          lifespan_passed serve app w w' e
          ∙ ap (continue (λ u. on_world monotonic lc (teardown monotonic lc)))
              (serve_within-cong lc.lifespan_extras (app, w') (λ s ready. h s (ready, w', e)))
          ∙ sym (lifespan_passed other app w w' e)
      | inr (e, w', raised) ↦
          lifespan_refused serve app w e w' raised ∙ sym (lifespan_refused other app w e w' raised)
    ]

module _ {E W X : Type 0} (monotonic : W → ℕ × W) (lc : AppLifecycle E W X)
    (check_config_health : Exec E W (Unit {0})) (configuration_error : ReuseError → E)
    (s : ConsumerServiceSettings) where
  check_refused : ¬ Independent s → (e : ReuseError) × (check_credential_no_reuse s ≡ raise e)
  check_refused bad =
      Result_refused (check_credential_no_reuse s) (λ passed. bad (check_sound s passed))

  validator_refused :
      (w : W)
      → ¬ Independent s
      → (e : E) × (w' : W) × (validate_config_health check_config_health configuration_error s w
          ≡ (raise e, w'))
  unfolding validate_config_health
  validator_refused w bad =
      let (reused, h) = check_refused bad in
      elim (Result-cases (check_config_health w)) [
        | inl (w', passed) ↦ (configuration_error reused, w', rw passed (rw h refl))
        | inr (e, w', raised) ↦ (e, w', rw raised refl)
      ]

  startup_refused :
      (w : W)
      → ¬ Independent s
      → (e : E) × (w' : W) × (run_startup
            (validate_config_health check_config_health configuration_error s
              ∷ lc.startup_validators)
            w
          ≡ (raise e, w'))
  unfolding run_startup
  startup_refused w bad = let (e, w', h) = validator_refused w bad in (e, w', rw h refl)

  -- A service whose private secret is used again, for health details or for metrics, never starts:
  -- whatever the other validators, the extras and the traffic are, its lifespan raises, and the app
  -- is as it was, not marked ready.
  pub lifespan-reused :
      (serve : Exec E (Served W X) (Unit {0})) (app : AppState X) (w : W)
      → ¬ Independent s
      → (e : E) × (w' : W) × (lifespan monotonic
            (with_config_check
              (validate_config_health check_config_health configuration_error s)
              lc)
            serve
            (app, w)
          ≡ (raise e, (app, w')))
  lifespan-reused serve app w bad =
      let (e, w', raised) = startup_refused w bad in
      (
        e,
        w',
        lifespan_refused monotonic
            (with_config_check (validate_config_health check_config_health configuration_error s)
              lc)
            serve app w e w' raised,
      )
