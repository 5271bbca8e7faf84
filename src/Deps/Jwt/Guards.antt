-- ===== src/Deps/Jwt/Guards.antt =====
-- How the guards compare, and what they do not depend on: fastapi_m8/_deps.py, `build_auth_deps`.
use fastapi_m.Base.{
  ℕ, ◌≤◌, String, ◌≡◌, refl, sym, ap, ◌∙◌, Bool, true, false, ◌&&◌, Option, none, some, arith, leb,
  Option-cases, nat_eq, string_eq, inl, inr,
}
use fastapi_m.Base.Exec.{Result, ok, raise, continue}
use fastapi_m.Http.{Network}
use fastapi_m.Revocation.Cache.{RevocationCache}
use fastapi_m.Revocation.Client.{CacheMetrics, RevocationClient, RevocationError, is_revoked}
use fastapi_m.Revocation.Client.Frame.{with_cache}
use fastapi_m.Revocation.Client.Bypass.{bypass-outcome}
use fastapi_m.Revocation.Client.Bypass as Client
use fastapi_m.Deps.{DepsError, http, denial}
use fastapi_m.Deps.Jwt.{
  Payload, UserModel, Sdk, deny_revoked, check_token_revocation, check_active, build_active_user,
  get_current_user_fresh, check_role, require_role, get_current_active_admin, check_superuser,
  get_current_active_superuser,
}
use fastapi_m.Deps.Jwt.Laws.{authenticate_valid, authenticate_invalid}

-- the answer and the world, without the client that is left
abbrev pub outcome :
    {A W : Type 0} → Result DepsError A × (Option RevocationClient × W) → Result DepsError A × W
outcome r = (r.0, r.1.1)

module _ {W R C : Type 0} (net : Network W) (sdk : Sdk W R C) where
  build-outcome :
      (p : Payload C) (client client' : Option RevocationClient) (w : W)
      → outcome (build_active_user net sdk p (client, w))
        ≡ outcome (build_active_user net sdk p (client', w))
  unfolding build_active_user check_active
  build-outcome p client client' w = ground (arith, Option-cases (sdk.user_model p.sub p.claims))

  -- the answer to a request, as the outcome of the revocation check decides it
  abbrev answer : Payload C → Result RevocationError Bool × W → Result DepsError (UserModel R) × W
  answer p (ok true, w) = (raise (http (denial 403 "Token has been revoked.")), w)
  answer p (ok false, w) = outcome (build_active_user net sdk p (none, w))
  answer p (raise e, w) = (raise (http (denial 503 "Token revocation check unavailable.")), w)

  deny_revoked-answer :
      (p : Payload C) (r : Result RevocationError Bool × (RevocationClient × W))
      → outcome (continue (λ (_ : Unit {0}). build_active_user net sdk p) (deny_revoked net sdk r))
        ≡ answer p (Client.outcome r)
  deny_revoked-answer p (ok true, s) = refl
  deny_revoked-answer p (ok false, (c, w)) = build-outcome p (some c) none w
  deny_revoked-answer p (raise e, s) = refl

  module _ (k k' : RevocationCache) (m m' : Option CacheMetrics)
      (same : k.watermarks ≡ k'.watermarks) where
    fresh_valid-outcome :
        (token : String) (c : RevocationClient) (w : W) (p : Payload C)
        → (sdk.validate token w).0 ≡ some p
        → outcome (get_current_user_fresh net sdk token (some (with_cache (some k) m c), w))
          ≡ outcome (get_current_user_fresh net sdk token (some (with_cache (some k') m' c), w))
    unfolding get_current_user_fresh check_token_revocation
    fresh_valid-outcome token c w p valid =
        let v = (sdk.validate token w).1 in
        ap outcome
          (authenticate_valid net sdk token true (some (with_cache (some k) m c)) w p valid)
        ∙ deny_revoked-answer p (is_revoked net p.jti p.sub true (with_cache (some k) m c, v))
        ∙ ap (answer p) (bypass-outcome net p.jti p.sub k k' m m' same c v)
        ∙ sym
            (deny_revoked-answer p (is_revoked net p.jti p.sub true (with_cache (some k') m' c, v)))
        ∙ ap outcome (
            sym
              (authenticate_valid net sdk token true (some (with_cache (some k') m' c)) w p valid))

    fresh-outcome :
        (token : String) (c : RevocationClient) (w : W)
        → outcome (get_current_user_fresh net sdk token (some (with_cache (some k) m c), w))
          ≡ outcome (get_current_user_fresh net sdk token (some (with_cache (some k') m' c), w))
    unfolding get_current_user_fresh
    fresh-outcome token c w = elim (Option-cases (sdk.validate token w).0) [
      | inl invalid ↦
          ap outcome
            (authenticate_invalid net sdk token true (some (with_cache (some k) m c)) w invalid)
          ∙ ap outcome (
              sym (
                authenticate_invalid net sdk token true (some (with_cache (some k') m' c)) w
                  invalid))
      | inr (p, valid) ↦ fresh_valid-outcome token c w p valid
    ]

    role-outcome :
        (role : R) (r r' : Result DepsError (UserModel R) × (Option RevocationClient × W))
        → outcome r ≡ outcome r'
        → outcome (continue (check_role net sdk role) r)
          ≡ outcome (continue (check_role net sdk role) r')
    unfolding check_role
    role-outcome role (ok u, s) (ok u', s') h = ground arith
    role-outcome role (ok u, s) (raise e, s') h = absurd (ground arith)
    role-outcome role (raise e, s) (ok u, s') h = absurd (ground arith)
    role-outcome role (raise e, s) (raise e', s') h = ground arith

    -- REV-CACHE-01: of two revocation clients whose caches differ in their entries, and agree in
    -- the watermarks, a role guard gives the same answer or denial, and leaves the same world.
    pub require_role-outcome :
        (role : R) (token : String) (c : RevocationClient) (w : W)
        → outcome (require_role net sdk role token (some (with_cache (some k) m c), w))
          ≡ outcome (require_role net sdk role token (some (with_cache (some k') m' c), w))
    unfolding require_role
    require_role-outcome role token c w =
        role-outcome role (get_current_user_fresh net sdk token (some (with_cache (some k) m c), w))
          (get_current_user_fresh net sdk token (some (with_cache (some k') m' c), w))
          (fresh-outcome token c w)

  -- The SDK orders the roles by a rank, as the table of `AuthDeps` shows it.
  module _ (rank : R → ℕ)
      (ranked : (role required : R)
        → sdk.has_minimum_role role required ≡ leb (rank required) (rank role)) where
    check_role-lower :
        (low high : R) (r : Result DepsError (UserModel R) × (Option RevocationClient × W))
        (user : UserModel R) (s' : Option RevocationClient × W)
        → rank low ≤ rank high
        → continue (check_role net sdk high) r ≡ (ok user, s')
        → continue (check_role net sdk low) r ≡ (ok user, s')
    unfolding check_role
    check_role-lower low high (ok u, s) user s' le h =
        ground (arith, ranked u.role low, ranked u.role high)
    check_role-lower low high (raise e, s) user s' le h = absurd (ground arith)

    -- Where the SDK compares roles by a rank: whoever passes a guard passes, on the same request,
    -- the guard of every lower role, with the same user and the same effects.
    require_role-lower :
        (low high : R) (token : String) (s s' : Option RevocationClient × W) (user : UserModel R)
        → rank low ≤ rank high
        → require_role net sdk high token s ≡ (ok user, s')
        → require_role net sdk low token s ≡ (ok user, s')
    unfolding require_role
    require_role-lower low high token s s' user le h =
        check_role-lower low high (get_current_user_fresh net sdk token s) user s' le h

    check_superuser-admin :
        (superadmin : R) (r : Result DepsError (UserModel R) × (Option RevocationClient × W))
        (user : UserModel R) (s' : Option RevocationClient × W)
        → ((role : R) (flag : Bool)
            → sdk.has_superuser_privileges role flag ≡ (leb (rank superadmin) (rank role) && flag))
        → rank sdk.admin ≤ rank superadmin
        → continue (check_superuser net sdk) r ≡ (ok user, s')
        → (user.is_superuser ≡ true)
          × (rank superadmin ≤ rank user.role)
          × (continue (check_role net sdk sdk.admin) r ≡ (ok user, s'))
    unfolding check_role check_superuser
    check_superuser-admin superadmin (ok u, s) user s' dual le h =
        ground (arith, dual u.role u.is_superuser, ranked u.role sdk.admin)
    check_superuser-admin superadmin (raise e, s) user s' dual le h = absurd (ground arith)

    -- Where the SDK compares roles by a rank, and gives superuser privileges to the flag together
    -- with the rank of the superadmin, which is at least that of the admin: the superuser guard
    -- needs both claims, and whoever passes it passes the admin guard on the same request too.
    superuser-admin :
        (superadmin : R) (token : String) (s s' : Option RevocationClient × W) (user : UserModel R)
        → ((role : R) (flag : Bool)
            → sdk.has_superuser_privileges role flag ≡ (leb (rank superadmin) (rank role) && flag))
        → rank sdk.admin ≤ rank superadmin
        → get_current_active_superuser net sdk token s ≡ (ok user, s')
        → (user.is_superuser ≡ true)
          × (rank superadmin ≤ rank user.role)
          × (get_current_active_admin net sdk token s ≡ (ok user, s'))
    unfolding get_current_active_superuser get_current_active_admin require_role
    superuser-admin superadmin token s s' user dual le h =
        check_superuser-admin superadmin (get_current_user_fresh net sdk token s) user s' dual le h
