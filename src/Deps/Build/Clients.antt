-- ===== src/Deps/Build/Clients.antt =====
-- The two clients that the settings ask for: fastapi_m8/_deps.py, `build_auth_deps` and
-- `_build_api_key_client`.
use mathlib.Core.Path.{subst}
use fastapi_m.Base.{
  ℕ, String, ◌≡◌, ◌≢◌, refl, ap, sym, ◌∙◌, Bool, true, false, none, some, arith, ltb, ◌==◌,
  string_eq, eq_iff, if◌then◌else◌, is_some, Bool-cases, Option-cases, inl, inr, eq_of_some,
}
use fastapi_m.Base.Exec.{ok}
use fastapi_m.Config.{
  ConsumerServiceSettings, is_truthy, url_text, construct, effective_api_key_introspection_url,
}
use fastapi_m.Config.Validation.{construct_iff}
use fastapi_m.InternalAuth.Modes.{
  legacy, Presents, describe_internal_auth_mode, build_internal_auth, build-Presents,
}
use fastapi_m.Revocation.Client.{RevocationClient}
use fastapi_m.Revocation.Client as Revocation
use fastapi_m.Revocation.Cache as Cache
use fastapi_m.ApiKey.Breaker as Breaker
use fastapi_m.ApiKey.Client.{ApiKeyClient}
use fastapi_m.ApiKey.Client.Construction.{Transport}
use fastapi_m.ApiKey.Client.Construction as ApiKey
use fastapi_m.Deps.Build.{
  client_id_text, asks_issuer, configured_client, build_api_key_client, build_revocation_client,
}

-- the revocation client of a configuration
pub record Follows (introspection : String) (s : ConsumerServiceSettings) (c : RevocationClient)
    : Type 0 where
  pub url : c.url ≡ url_text s.introspection_url
  pub auth : c.auth ≡ build_internal_auth introspection s
  pub fail_closed : c.fail_closed ≡ (s.inherited.access_revocation_mode == "fail_closed")
  pub cache : c.cache ≡ (
      if ltb 0 s.revocation_cache_ttl_seconds
      then some (Cache.init s.revocation_cache_ttl_seconds)
      else none)

-- the API-key client of a configuration, which names itself `client_id`
pub record Identified (introspection : String) (s : ConsumerServiceSettings) (client_id : String)
    (c : ApiKeyClient) (t : Transport) : Type 0 where
  pub url : c.url ≡ effective_api_key_introspection_url s
  pub named : s.internal_client_id ≡ some client_id
  pub audience : c.audience_id ≡ client_id
  pub secret : String
  pub has_secret : s.private_api_secret ≡ some secret
  pub presents : Presents client_id secret (describe_internal_auth_mode s) c.auth
  pub not_legacy : describe_internal_auth_mode s ≢ legacy
  pub closed :
      c.breaker
      ≡ Breaker.init s.api_key_introspection_circuit_failure_threshold
          s.api_key_introspection_circuit_reset_seconds
  pub bounded : t.permits ≡ s.api_key_introspection_max_concurrency
  pub no_redirects : t.follow_redirects ≡ false

module _ (introspection : String) (s : ConsumerServiceSettings) where
  made_client :
      (version : String)
      → asks_issuer introspection s ≡ true
      → (c : RevocationClient) × (build_revocation_client introspection s version ≡ some c)
        × Follows introspection s c
  unfolding build_revocation_client Revocation.init
  made_client version on = (
    Revocation.client_with (url_text s.introspection_url) (build_internal_auth introspection s)
        (s.inherited.access_revocation_mode == "fail_closed") s.revocation_cache_ttl_seconds
        version,
    rw on refl,
    record { url = refl; auth = refl; fail_closed = refl; cache = refl },
  )

  pub revocation-Follows :
      (version : String) (c : RevocationClient)
      → build_revocation_client introspection s version ≡ some c
      → Follows introspection s c
  unfolding build_revocation_client
  revocation-Follows version c h = elim (Bool-cases (asks_issuer introspection s)) [
    | inl on ↦
        let (made, e, follows) = made_client version on in
        subst (Follows introspection s) (eq_of_some (sym e ∙ h)) follows
    | inr off ↦ absurd (ground arith)
  ]

  pub is_some-build_revocation_client :
      (version : String)
      → is_some (build_revocation_client introspection s version) ≡ asks_issuer introspection s
  unfolding build_revocation_client Revocation.init
  is_some-build_revocation_client version = ground (arith, Bool-cases (asks_issuer introspection s))

  pub is_some-build_api_key_client :
      is_some (build_api_key_client introspection s) ≡ s.api_key_introspection_enabled
  unfolding build_api_key_client
  is_some-build_api_key_client = ground (arith, Bool-cases s.api_key_introspection_enabled)

  name_of :
      is_truthy s.internal_client_id ≡ true
      → (client_id : String) × (s.internal_client_id ≡ some client_id) × (client_id ≢ "")
  name_of h = elim (Option-cases s.internal_client_id) [
    | inl unnamed ↦ absurd (ground arith)
    | inr (client_id, named) ↦ (client_id, named, λ e. absurd (ground (arith, eq_iff client_id "")))
  ]

  module _ (second : ℕ) (supported : String → Bool) where
    made_key_client :
        s.api_key_introspection_enabled ≡ true
        → construct second supported s ≡ ok s
        → (c : ApiKeyClient) × (t : Transport) × (build_api_key_client introspection s
            ≡ some (c, t))
          × (client_id : String) × Identified introspection s client_id c t
    unfolding build_api_key_client ApiKey.init
    made_key_client on valid =
        let (client_id, named, ne) =
          name_of (((construct_iff second supported s).0 valid).identity on) in
        let (secret, has, presents, identified) =
          build-Presents introspection client_id s second supported named ne valid in
        (
          (configured_client introspection s).0,
          (configured_client introspection s).1,
          rw on refl,
          client_id,
          record {
            url = refl;
            named = named;
            audience = ap client_id_text named;
            secret = secret;
            has_secret = has;
            presents = presents;
            not_legacy = identified;
            closed = refl;
            bounded = refl;
            no_redirects = refl;
          },
        )

    pub api_key-Identified :
        (c : ApiKeyClient) (t : Transport)
        → build_api_key_client introspection s ≡ some (c, t)
        → construct second supported s ≡ ok s
        → (client_id : String) × Identified introspection s client_id c t
    unfolding build_api_key_client
    api_key-Identified c t h valid = elim (Bool-cases s.api_key_introspection_enabled) [
      | inl on ↦
          let (c', t', e, client_id, identified) = made_key_client on valid in
          subst (λ p. (id : String) × Identified introspection s id p.0 p.1)
            (eq_of_some (sym e ∙ h)) (client_id, identified)
      | inr off ↦ absurd (ground arith)
    ]
