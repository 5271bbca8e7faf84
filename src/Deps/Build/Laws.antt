-- ===== src/Deps/Build/Laws.antt =====
-- What a consumer that was built may rely on: fastapi_m8/_deps.py, `build_auth_deps`.
use fastapi_m.Base.{
  ℕ, String, ◌≡◌, refl, ap, sym, ◌∙◌, Bool, Option, none, some, arith, string_eq, is_some,
  Bool-cases, inl, inr,
}
use fastapi_m.Base.Exec.{Result, ok, raise, Result-cases}
use fastapi_m.Compat.{CompatError, CompatState}
use fastapi_m.Config.{ConsumerServiceSettings, construct}
use fastapi_m.Revocation.Client.{RevocationClient}
use fastapi_m.ApiKey.Client.{ApiKeyClient, Issuer}
use fastapi_m.ApiKey.Client.Construction.{Transport}
use fastapi_m.Deps.Keys.{KeyPolicy, require_api_key_role}
use fastapi_m.Deps.Build.{
  Supply, asks_issuer, build_api_key_client, build_revocation_client, ApiKeyDeps, AuthDeps,
  build_api_key_deps, with_api_key, build_deps, after_guard, build_auth_deps,
}
use fastapi_m.Deps.Build.Clients.{
  Follows, Identified, revocation-Follows, api_key-Identified, is_some-build_revocation_client,
  is_some-build_api_key_client,
}

module _ {W P R : Type 0} (issuer : Issuer W P) (policy : KeyPolicy P R) where
  abbrev key_client : Option (ApiKeyDeps issuer policy) → Option (ApiKeyClient × Transport)
  key_client none = none
  key_client (some deps) = some (deps.client, deps.transport)

  client-build_api_key_deps :
      (k : ApiKeyClient × Transport) (deps : ApiKeyDeps issuer policy)
      → build_api_key_deps issuer policy k ≡ ok deps
      → (deps.client, deps.transport) ≡ k
  unfolding build_api_key_deps
  client-build_api_key_deps (c, t) deps h =
      elim (Result-cases (require_api_key_role issuer policy policy.reader)) [
        | inr (e, refused) ↦ absurd (ground arith)
        | inl (reader, e) ↦ elim (Result-cases (require_api_key_role issuer policy policy.writer)) [
          | inr (e', refused) ↦ absurd (ground arith)
          | inl (writer, e') ↦ ground arith
        ]
      ]

  with_api_key_ok :
      (r : Option RevocationClient) (k : Option (ApiKeyClient × Transport))
      (deps : AuthDeps issuer policy)
      → with_api_key issuer policy r k ≡ ok deps
      → (deps.revocation_client ≡ r) × (key_client deps.api_key ≡ k)
  with_api_key_ok r none deps h = ground arith
  with_api_key_ok r (some k) deps h = elim (Result-cases (build_api_key_deps issuer policy k)) [
    | inr (e, refused) ↦ absurd (ground arith)
    | inl (made, e) ↦ ground (arith, client-build_api_key_deps k made e)
  ]

  is_some-key_client :
      (deps : Option (ApiKeyDeps issuer policy)) → is_some deps ≡ is_some (key_client deps)
  is_some-key_client none = refl
  is_some-key_client (some deps) = refl

  guarded_ok :
      (supply : Supply) (s : ConsumerServiceSettings)
      (r : Result CompatError (Unit {0}) × CompatState) (state : CompatState)
      (deps : AuthDeps issuer policy)
      → after_guard issuer policy supply s r ≡ (ok deps, state)
      → build_deps issuer policy supply s ≡ ok deps
  guarded_ok supply s (raise e, state') state deps h = absurd (ground arith)
  guarded_ok supply s (ok tt, state') state deps h = ap (λ p. p.0) h

  build_ok :
      (supply : Supply) (s : ConsumerServiceSettings) (state state' : CompatState)
      (deps : AuthDeps issuer policy)
      → build_auth_deps issuer policy supply s state ≡ (ok deps, state')
      → (deps.revocation_client
          ≡ build_revocation_client supply.introspection s supply.jti_status_schema_version)
        × (key_client deps.api_key ≡ build_api_key_client supply.introspection s)
  unfolding build_auth_deps build_deps
  build_ok supply s state state' deps h =
      let built = guarded_ok supply s _ state' deps h in
      elim (Bool-cases (supply.builds_validator s)) [
        | inl fine ↦ with_api_key_ok _ _ deps (ground arith)
        | inr refused ↦ absurd (ground arith)
      ]

  -- The clients of a consumer, with the settings that they come from.
  pub record IsBuilt (introspection : String) (s : ConsumerServiceSettings)
      (deps : AuthDeps issuer policy) : Type 0 where
    pub revocation : is_some deps.revocation_client ≡ asks_issuer introspection s
    pub follows :
        (c : RevocationClient) → deps.revocation_client ≡ some c → Follows introspection s c
    pub api_key : is_some deps.api_key ≡ s.api_key_introspection_enabled
    pub identified :
        (d : ApiKeyDeps issuer policy)
        → deps.api_key ≡ some d
        → (client_id : String) × Identified introspection s client_id d.client d.transport

  -- A consumer that is built from settings that passed their validators asks the issuer about
  -- revocations exactly in the stateful mode of a consumer, fails closed exactly if the settings say so
  -- and starts with an empty cache. It has API-key dependencies exactly if they are enabled, and then
  -- under its own identity: with its secret, expecting its own name as the audience, with a closed
  -- circuit, bounded, and following no redirect.
  pub build_auth_deps-IsBuilt :
      (supply : Supply) (second : ℕ) (supported : String → Bool) (s : ConsumerServiceSettings)
      (state state' : CompatState) (deps : AuthDeps issuer policy)
      → construct second supported s ≡ ok s
      → build_auth_deps issuer policy supply s state ≡ (ok deps, state')
      → IsBuilt supply.introspection s deps
  build_auth_deps-IsBuilt supply second supported s state state' deps valid h =
      let (revoked, keyed) = build_ok supply s state state' deps h in
      record {
        revocation = ap is_some revoked ∙ is_some-build_revocation_client supply.introspection s _;
        follows = λ c has. revocation-Follows supply.introspection s _ c (sym revoked ∙ has);
        api_key =
            is_some-key_client deps.api_key
            ∙ ap is_some keyed
            ∙ is_some-build_api_key_client supply.introspection s;
        identified = λ d has.
            api_key-Identified supply.introspection s second supported d.client d.transport
              (sym keyed ∙ ap key_client has) valid;
      }
