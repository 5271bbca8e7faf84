-- ===== src/Deps/Jwt/Laws.antt =====
-- What a user that a guard admits has been checked for: fastapi_m8/_deps.py, `build_auth_deps`.
use fastapi_m.Base.{
  String, ◌≡◌, ◌⊎◌, inl, inr, refl, sym, ◌∙◌, Bool, true, false, Option, none, some, arith,
  Option-cases, nat_eq, string_eq,
}
use fastapi_m.Base.Exec.{Result, ok, raise, continue}
use fastapi_m.Http.{Network}
use fastapi_m.Revocation.Client.{RevocationClient, RevocationError, is_revoked}
use fastapi_m.Revocation.Client.Soundness.{Cleared, Hit, asked, is_revoked-Cleared}
use fastapi_m.Deps.{DepsError, http, denial}
use fastapi_m.Deps.Jwt.{
  Payload, UserModel, Sdk, validate_access_token, deny_revoked, check_token_revocation,
  check_active, build_active_user, authenticate, get_current_user_fresh, check_role, require_role,
}

module _ {W R C : Type 0} (net : Network W) (sdk : Sdk W R C) where
  pub authenticate_valid :
      (token : String) (bypass : Bool) (client : Option RevocationClient) (w : W) (p : Payload C)
      → (sdk.validate token w).0 ≡ some p
      → authenticate net sdk token bypass (client, w)
        ≡ continue
            (λ (_ : Unit {0}). build_active_user net sdk p)
            (check_token_revocation net sdk p.jti p.sub bypass (client, (sdk.validate token w).1))
  unfolding authenticate validate_access_token
  authenticate_valid token bypass client w p h = ground (arith, h)

  pub authenticate_invalid :
      (token : String) (bypass : Bool) (client : Option RevocationClient) (w : W)
      → (sdk.validate token w).0 ≡ none
      → authenticate net sdk token bypass (client, w) ≡ (
        raise (http (denial 403 "Could not validate credentials.")),
        (client, (sdk.validate token w).1),
      )
  unfolding authenticate validate_access_token
  authenticate_invalid token bypass client w h = ground (arith, h)

  -- Why the revocation check of a request passed: there is no revocation client, or the client let
  -- the token pass, from a live entry of its cache where the cache may answer, or with the issuer.
  pub Passed : (jti user_id : String) → Bool → Option RevocationClient × W → Type 0
  Passed jti user_id bypass (none, w) = Unit {0}
  Passed jti user_id bypass (some c, w) =
      ((bypass ≡ false) × Hit net jti user_id c w)
      ⊎ Cleared net jti user_id (asked net jti user_id bypass (c, w))

  -- What was checked of the user that a request is answered with.
  pub record Admitted (token : String) (bypass : Bool) (client : Option RevocationClient) (w : W)
      (user : UserModel R) : Type 0 where
    pub payload : Payload C
    pub signed : (sdk.validate token w).0 ≡ some payload
    pub modelled : sdk.user_model payload.sub payload.claims ≡ some user
    pub is_active : user.is_active ≡ true
    pub passed : Passed payload.jti payload.sub bypass (client, (sdk.validate token w).1)

  build-active :
      (p : Payload C) (s s' : Option RevocationClient × W) (user : UserModel R)
      → build_active_user net sdk p s ≡ (ok user, s')
      → (sdk.user_model p.sub p.claims ≡ some user) × (user.is_active ≡ true)
  unfolding build_active_user check_active
  build-active p s s' user h = ground (arith, Option-cases (sdk.user_model p.sub p.claims))

  deny_revoked-passed :
      (p : Payload C) (r : Result RevocationError Bool × (RevocationClient × W))
      (user : UserModel R) (s' : Option RevocationClient × W)
      → continue (λ (_ : Unit {0}). build_active_user net sdk p) (deny_revoked net sdk r)
        ≡ (ok user, s')
      → (r ≡ (ok false, r.1)) × (build_active_user net sdk p (some r.1.0, r.1.1) ≡ (ok user, s'))
  deny_revoked-passed p (ok true, t) user s' h = absurd (ground arith)
  deny_revoked-passed p (ok false, t) user s' h = (refl, h)
  deny_revoked-passed p (raise e, t) user s' h = absurd (ground arith)

  check-Passed :
      (p : Payload C) (bypass : Bool) (client : Option RevocationClient) (w : W)
      (user : UserModel R) (s' : Option RevocationClient × W)
      → continue
          (λ (_ : Unit {0}). build_active_user net sdk p)
          (check_token_revocation net sdk p.jti p.sub bypass (client, w))
        ≡ (ok user, s')
      → Passed p.jti p.sub bypass (client, w)
        × (sdk.user_model p.sub p.claims ≡ some user)
        × (user.is_active ≡ true)
  unfolding check_token_revocation Passed
  check-Passed p bypass none w user s' h =
      let (modelled, active) = build-active p (none, w) s' user h in (tt, modelled, active)
  check-Passed p bypass (some c) w user s' h =
      let r = is_revoked net p.jti p.sub bypass (c, w) in
      let (passed, built) = deny_revoked-passed p r user s' h in
      let (modelled, active) = build-active p (some r.1.0, r.1.1) s' user built in
      (is_revoked-Cleared net p.jti p.sub bypass c w r.1 passed, modelled, active)

  authenticate-Admitted :
      (token : String) (bypass : Bool) (client : Option RevocationClient) (w : W)
      (user : UserModel R) (s' : Option RevocationClient × W)
      → authenticate net sdk token bypass (client, w) ≡ (ok user, s')
      → Admitted token bypass client w user
  authenticate-Admitted token bypass client w user s' h =
      elim (Option-cases (sdk.validate token w).0) [
        | inl invalid ↦
            let h' = sym (authenticate_invalid token bypass client w invalid) ∙ h in
            absurd (ground arith)
        | inr (p, signed) ↦
            let (passed, modelled, active) =
              check-Passed p bypass client (sdk.validate token w).1 user s'
                (sym (authenticate_valid token bypass client w p signed) ∙ h) in
            record {
              payload = p;
              signed = signed;
              modelled = modelled;
              is_active = active;
              passed = passed;
            }
      ]

  role_of :
      (role : R) (user : UserModel R)
      (r : Result DepsError (UserModel R) × (Option RevocationClient × W))
      (s' : Option RevocationClient × W)
      → continue (check_role net sdk role) r ≡ (ok user, s')
      → (r ≡ (ok user, s')) × (sdk.has_minimum_role user.role role ≡ true)
  unfolding check_role
  role_of role user (ok u, s) s' h = ground arith
  role_of role user (raise e, s) s' h = absurd (ground arith)

  -- A user that a role guard answers with has been checked in full: the token is valid, the account is
  -- active, and the role is at least the required one; and where there is a revocation client, the
  -- issuer confirmed the session in a valid reply, with a success status, to the question of this very
  -- request, or no reply with a success status was got (there were no credentials, the request
  -- failed, or the issuer answered with an error status) and the client is configured to fail open. A
  -- cached entry is never the reason.
  pub require_role-Admitted :
      (role : R) (token : String) (client : Option RevocationClient) (w : W) (user : UserModel R)
      (s' : Option RevocationClient × W)
      → require_role net sdk role token (client, w) ≡ (ok user, s')
      → Admitted token true client w user × (sdk.has_minimum_role user.role role ≡ true)
  unfolding require_role get_current_user_fresh
  require_role-Admitted role token client w user s' h =
      let (fresh, enough) =
        role_of role user (get_current_user_fresh net sdk token (client, w)) s' h in
      (authenticate-Admitted token true client w user s' fresh, enough)
