-- ===== src/Deps/Keys/Laws.antt =====
-- What an API-key dependency answers with, and what its denials mean: fastapi_m8/_deps.py,
-- `_build_api_key_deps`.
use fastapi_m.Base.{
  String, ◌≡◌, ◌⊎◌, refl, sym, ap, ◌∙◌, Bool, true, false, Option, none, some, arith, ◌==◌,
  string_eq, nat_eq, if◌then◌else◌, Bool-cases, inl, inr, eq_iff,
}
use fastapi_m.Base.Exec.{Result, ok, raise, continue, handle, fail}
use fastapi_m.ApiKey.Client.{
  ApiKeyClient, Received, Issuer, ApiKeyError, introspection, quota_exceeded, uncaught, introspect,
  send,
}
use fastapi_m.ApiKey.Client.Soundness.{Backs, at_send, introspect-Backs}
use fastapi_m.Deps.{HttpException, DepsError, http}
use fastapi_m.Deps.Keys.{
  KeyPolicy, capability_ceiling, api_key_quota_denial, denial_of, known,
  get_current_api_key_principal, check_capability, Dependency, require_api_key_role,
}

module _ {W P R : Type 0} (issuer : Issuer W P) (policy : KeyPolicy P R) where
  -- The issuer's own answer for the key that was presented.
  pub record Vouched (key : String) (c : ApiKeyClient) (w : W) (answer : Option P) : Type 0 where
    pub received : Received
    pub sent : (send issuer key (at_send issuer (c, w))).0 ≡ ok received
    pub backs : Backs issuer c.audience_id received answer

  vouch :
      (key : String) (c : ApiKeyClient) (w : W) (answer : Option P) (t : ApiKeyClient × W)
      → introspect issuer key (c, w) ≡ (ok answer, t)
      → Vouched key c w answer
  vouch key c w answer t h =
      let (received, sent, backs) = introspect-Backs issuer key c w answer t h in
      record { received = received; sent = sent; backs = backs }

  -- the answers that `known` and the `except` clauses make of a result of `introspect`
  abbrev settled :
      Result ApiKeyError (Option P) × (ApiKeyClient × W) → Result DepsError P × (ApiKeyClient × W)
  settled r = continue (known issuer policy) (handle (λ e. fail (denial_of e)) r)

  settled-ok :
      (r : Result ApiKeyError (Option P) × (ApiKeyClient × W)) (principal : P)
      (t : ApiKeyClient × W)
      → settled r ≡ (ok principal, t)
      → r ≡ (ok (some principal), t)
  unfolding known
  settled-ok (ok none, s) principal t h = absurd (ground arith)
  settled-ok (ok (some q), s) principal t h = ground arith
  settled-ok (raise e, s) principal t h = absurd (ground arith)

  settled-denied :
      (r : Result ApiKeyError (Option P) × (ApiKeyClient × W)) (t : ApiKeyClient × W)
      (e : HttpException)
      → e.status_code ≡ 401
      → settled r ≡ (raise (http e), t)
      → r ≡ (ok none, t)
  unfolding known denial_of api_key_quota_denial
  settled-denied (ok none, s) t e status h = ground arith
  settled-denied (ok (some q), s) t e status h = absurd (ground arith)
  settled-denied (raise (introspection reason), s) t e status h = absurd (ground arith)
  settled-denied (raise (quota_exceeded value), s) t e status h = absurd (ground arith)
  settled-denied (raise (uncaught f), s) t e status h = absurd (ground arith)

  principal_present :
      (key : String) (s : ApiKeyClient × W)
      → (key == "") ≡ false
      → get_current_api_key_principal issuer policy (some key) s ≡ settled (introspect issuer key s)
  unfolding get_current_api_key_principal
  principal_present key s present = ground (arith, present)

  principal-Vouched :
      (key : Option String) (c : ApiKeyClient) (w : W) (principal : P) (t : ApiKeyClient × W)
      → get_current_api_key_principal issuer policy key (c, w) ≡ (ok principal, t)
      → (presented : String) × (key ≡ some presented) × Vouched presented c w (some principal)
  unfolding get_current_api_key_principal
  principal-Vouched none c w principal t h = absurd (ground arith)
  principal-Vouched (some key) c w principal t h = elim (Bool-cases (key == "")) [
    | inl empty ↦ absurd (ground (arith, empty))
    | inr present ↦
        let answered = sym (principal_present key (c, w) present) ∙ h in
        (
          key,
          refl,
          vouch key c w (some principal) t
              (settled-ok (introspect issuer key (c, w)) principal t answered),
        )
  ]

  -- An API key is answered with the one generic `401` only where no key was presented, or where the
  -- issuer itself, in a valid reply to this very request, denied the key: never for an outage, a
  -- quota or a refused credential of this consumer.
  pub principal-denied :
      (key : Option String) (c : ApiKeyClient) (w : W) (e : HttpException) (t : ApiKeyClient × W)
      → get_current_api_key_principal issuer policy key (c, w) ≡ (raise (http e), t)
      → e.status_code ≡ 401
      → ((key ≡ none) ⊎ (key ≡ some ""))
        ⊎ ((presented : String) × (key ≡ some presented) × Vouched presented c w none)
  principal-denied none c w e t h status = inl (inl refl)
  principal-denied (some key) c w e t h status = elim (Bool-cases (key == "")) [
    | inl empty ↦ inl (inr (ground (arith, eq_iff key "", empty)))
    | inr present ↦
        let answered = sym (principal_present key (c, w) present) ∙ h in
        inr (
          key,
          refl,
          vouch key c w none t (settled-denied (introspect issuer key (c, w)) t e status answered),
        )
  ]

  capable_of :
      (role : R) (principal : P) (r : Result DepsError P × (ApiKeyClient × W))
      (t : ApiKeyClient × W)
      → continue (check_capability issuer policy role) r ≡ (ok principal, t)
      → (r ≡ (ok principal, t)) × (policy.has_capability principal role ≡ true)
  unfolding check_capability
  capable_of role principal (ok p, s) t h = ground arith
  capable_of role principal (raise e, s) t h = absurd (ground arith)

  built_of :
      (b : Bool) (d dependency : Dependency issuer policy)
      → (if b then ok d else raise capability_ceiling) ≡ ok dependency
      → (b ≡ true) × (d ≡ dependency)
  built_of true d dependency h = (refl, cc)
  built_of false d dependency h = absurd (ground arith)

  -- A dependency for a role exists only below the ceiling of API keys, and a principal that it answers
  -- with was granted by the issuer, to this consumer, for the key of this very request, and has the
  -- capability.
  pub require_api_key_role-Vouched :
      (role : R) (dependency : Dependency issuer policy) (key : Option String) (c : ApiKeyClient)
      (w : W) (principal : P) (t : ApiKeyClient × W)
      → require_api_key_role issuer policy role ≡ ok dependency
      → dependency key (c, w) ≡ (ok principal, t)
      → (policy.validate_required_role role ≡ true)
        × (policy.has_capability principal role ≡ true)
        × (presented : String) × (key ≡ some presented)
        × Vouched presented c w (some principal)
  unfolding require_api_key_role
  require_api_key_role-Vouched role dependency key c w principal t built h =
      let (below, same) = built_of (policy.validate_required_role role) _ dependency built in
      let (known_key, capable) =
        capable_of role principal (get_current_api_key_principal issuer policy key (c, w)) t
          (ap (λ f. f key (c, w)) same ∙ h) in
      let (presented, is_key, vouched) = principal-Vouched key c w principal t known_key in
      (below, capable, presented, is_key, vouched)
