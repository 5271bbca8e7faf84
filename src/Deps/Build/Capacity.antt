-- ===== src/Deps/Build/Capacity.antt =====
-- What the settings promise of the calls to the issuer: fastapi_m8/config.py, _deps.py and _api_key.py
-- together.
use fastapi_m.Base.{
  ℕ, ◌+◌, ◌≤◌, ◌<◌, String, ◌≡◌, refl, sym, ap, ◌∙◌, Bool, some, arith, is_some, leb,
}
use mathlib.Core.Path.{subst}
use fastapi_m.Base.Exec.{ok}
use fastapi_m.Config.{ConsumerServiceSettings, construct}
use fastapi_m.Config.Validation.{construct_iff}
use fastapi_m.ApiKey.Breaker.Laws.{Circuit, init-Circuit}
use fastapi_m.ApiKey.Client.{ApiKeyClient, Issuer}
use fastapi_m.ApiKey.Client.Construction.{Transport}
use fastapi_m.ApiKey.Client.Construction as ApiKey
use fastapi_m.ApiKey.Tasks.{Semaphore, idle, System, Reach}
use fastapi_m.ApiKey.Tasks.Bounds.{in_flight, tasks_bounded}
use fastapi_m.Deps.Build.{configured_client, build_api_key_client}

module _ (introspection : String) (s : ConsumerServiceSettings) where
  build_is :
      (c : ApiKeyClient) (transport : Transport)
      → build_api_key_client introspection s ≡ some (c, transport)
      → (c ≡ (configured_client introspection s).0)
        × (transport ≡ (configured_client introspection s).1)
  unfolding build_api_key_client
  build_is c transport h = ground arith

  configured_breaker-Circuit :
      (second : ℕ) (supported : String → Bool)
      → construct second supported s ≡ ok s
      → Circuit s.api_key_introspection_circuit_failure_threshold
          s.api_key_introspection_circuit_reset_seconds
          (configured_client introspection s).0.breaker
  unfolding ApiKey.init
  configured_breaker-Circuit second supported valid =
      init-Circuit s.api_key_introspection_circuit_failure_threshold
        s.api_key_introspection_circuit_reset_seconds
        ((construct_iff second supported s).0 valid).bounded.threshold.0

  configured_permits :
      (configured_client introspection s).1.permits ≡ s.api_key_introspection_max_concurrency
  unfolding ApiKey.init
  configured_permits = refl

  -- With settings that could be constructed, and however the calls of the client that is built from
  -- them are interleaved and end: the free slots and the calls that are sending make up the configured
  -- concurrency, which is between 1 and 1000; and the circuit is open exactly if the streak of
  -- failures has reached the threshold of the settings, which is at least 1, and has the reset time of
  -- the settings.
  pub capacity_kept :
      {W P S : Type 0} (issuer : Issuer W P) (sem : Semaphore S) (second : ℕ)
      (supported : String → Bool) (n : ℕ) (c : ApiKeyClient) (transport : Transport) (slots : S)
      (t : System S P)
      → construct second supported s ≡ ok s
      → build_api_key_client introspection s ≡ some (c, transport)
      → sem.value slots ≡ transport.permits
      → Reach issuer sem n (record { client = c; semaphore = slots; calls = λ i. idle }) t
      → (sem.value t.semaphore + in_flight n t.calls ≡ s.api_key_introspection_max_concurrency)
        × (0 < s.api_key_introspection_max_concurrency)
        × (in_flight n t.calls ≤ 1000)
        × (0 < s.api_key_introspection_circuit_failure_threshold)
        × (is_some t.client.breaker.opened_at
            ≡ leb s.api_key_introspection_circuit_failure_threshold t.client.breaker.failures)
        × (t.client.breaker.reset ≡ s.api_key_introspection_circuit_reset_seconds)
  capacity_kept issuer sem second supported n c transport slots t valid built full run =
      let (is, wired) = build_is c transport built in
      let (least, most) = ((construct_iff second supported s).0 valid).bounded.concurrency in
      let permits = full ∙ ap (λ (x : Transport). x.permits) wired ∙ configured_permits in
      let circuit =
        subst
          (λ (x : ApiKeyClient).
            Circuit s.api_key_introspection_circuit_failure_threshold
              s.api_key_introspection_circuit_reset_seconds x.breaker)
          (sym is) (configured_breaker-Circuit second supported valid) in
      let (kept, sound) =
        tasks_bounded issuer s.api_key_introspection_circuit_failure_threshold
          s.api_key_introspection_circuit_reset_seconds sem s.api_key_introspection_max_concurrency
          n _ t (λ i. refl) permits circuit run in
      (
        kept,
        least,
        omega (arith, kept, most),
        ((construct_iff second supported s).0 valid).bounded.threshold.0,
        sound.valid.streak ∙ ap (λ m. leb m t.client.breaker.failures) sound.threshold_kept,
        sound.reset_kept,
      )
