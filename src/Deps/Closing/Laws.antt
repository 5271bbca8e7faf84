-- ===== src/Deps/Closing/Laws.antt =====
-- That closing leaves no session behind: fastapi_m8/_deps.py, `AuthDeps.close`.
use fastapi_m.Base.{Option, none, some, List, [], ◌∷◌, ◌++◌, ◌≡◌, refl, ap, ◌∙◌, sym}
use fastapi_m.Base.Exec.{Result, ok, raise, Exec, pure, continue, ◌>>◌}
use fastapi_m.InternalAuth.{InternalAuth, static_auth, service_auth}
use fastapi_m.Revocation.Client.{RevocationClient}
use fastapi_m.ApiKey.Client.{Issuer}
use fastapi_m.Deps.Keys.{KeyPolicy}
use fastapi_m.Deps.Build.{ApiKeyDeps, AuthDeps}
use fastapi_m.Deps.Closing.{
  HttpSession, revocation_session, api_key_session, exchange_of, owned, close_provider,
  close_client, close_revocation, close_api_key, close,
}

-- the sessions of a client with the provider `auth`
abbrev sessions_with : HttpSession → InternalAuth → List HttpSession
sessions_with s auth = s ∷ owned s auth

abbrev revocation_sessions : Option RevocationClient → List HttpSession
revocation_sessions none = []
revocation_sessions (some c) = sessions_with revocation_session c.auth

module _ {V P R : Type 0} {issuer : Issuer V P} {policy : KeyPolicy P R} where
  abbrev api_key_sessions : Option (ApiKeyDeps issuer policy) → List HttpSession
  api_key_sessions none = []
  api_key_sessions (some deps) = sessions_with api_key_session deps.client.auth

  -- every session that the clients of a consumer opened when they were built
  abbrev sessions : AuthDeps issuer policy → List HttpSession
  sessions deps = revocation_sessions deps.revocation_client ++ api_key_sessions deps.api_key

module _ {E W : Type 0} (aclose : HttpSession → Exec E W (Unit {0})) where
  -- `aclose` of one session after the other
  abbrev close_all : List HttpSession → Exec E W (Unit {0})
  close_all [] = pure tt
  close_all (s ∷ rest) = do aclose s; close_all rest

  continue-close_all :
      (s : HttpSession) (rest : Exec E W (Unit {0})) (more : Exec E W (Unit {0}))
      (r : Result E (Unit {0}) × W)
      → continue (λ u. more) (continue (λ u. rest) r) ≡ continue (λ u. rest >> more) r
  continue-close_all s rest more (ok tt, w) = refl
  continue-close_all s rest more (raise e, w) = refl

  continue-same :
      (f g : Exec E W (Unit {0})) (r : Result E (Unit {0}) × W)
      → ((w : W) → f w ≡ g w)
      → continue (λ u. f) r ≡ continue (λ u. g) r
  continue-same f g (ok tt, w) h = h w
  continue-same f g (raise e, w) h = refl

  close_all-append :
      (xs ys : List HttpSession) (w : W)
      → close_all (xs ++ ys) w ≡ continue (λ u. close_all ys) (close_all xs w)
  close_all-append [] ys w = refl
  close_all-append (x ∷ xs) ys w =
      continue-same _ (close_all xs >> close_all ys) (aclose x w) (close_all-append xs ys)
      ∙ sym (continue-close_all x (close_all xs) (close_all ys) (aclose x w))

  continue-pure : (r : Result E (Unit {0}) × W) → continue (λ u. pure tt) r ≡ r
  continue-pure (ok tt, w) = refl
  continue-pure (raise e, w) = refl

  provider_all :
      (s : HttpSession) (auth : InternalAuth) (w : W)
      → close_provider aclose s auth w ≡ close_all (owned s auth) w
  unfolding close_provider
  provider_all s (static_auth headers) w = refl
  provider_all s (service_auth token) w = sym (continue-pure (aclose (exchange_of s) w))

  client_all :
      (s : HttpSession) (auth : InternalAuth) (w : W)
      → close_client aclose s auth w ≡ close_all (sessions_with s auth) w
  unfolding close_client
  client_all s auth w = continue-same _ _ (aclose s w) (provider_all s auth)

  revocation_all :
      (client : Option RevocationClient) (w : W)
      → close_revocation aclose client w ≡ close_all (revocation_sessions client) w
  unfolding close_revocation
  revocation_all none w = refl
  revocation_all (some c) w = client_all revocation_session c.auth w

  module _ {V P R : Type 0} {issuer : Issuer V P} {policy : KeyPolicy P R} where
    api_key_all :
        (deps : Option (ApiKeyDeps issuer policy)) (w : W)
        → close_api_key aclose deps w ≡ close_all (api_key_sessions deps) w
    unfolding close_api_key
    api_key_all none w = refl
    api_key_all (some deps) w = client_all api_key_session deps.client.auth w

    -- Closing the dependencies closes every session that the clients and their token exchanges own,
    -- each once, the revocation client's first, and stops where closing one of them raises.
    close-sessions :
        (deps : AuthDeps issuer policy) (w : W) → close aclose deps w ≡ close_all (sessions deps) w
    unfolding close
    close-sessions deps w =
        continue-same _ _ (close_revocation aclose deps.revocation_client w)
          (api_key_all deps.api_key)
        ∙ ap (continue (λ u. close_all (api_key_sessions deps.api_key)))
            (revocation_all deps.revocation_client w)
        ∙ sym (close_all-append (revocation_sessions deps.revocation_client) _ w)
