-- ===== src/Revocation/Client/Attempts.antt =====
-- What a question to the issuer comes to: fastapi_m8/_revocation.py, `_post` and `_query_status`.
use mathlib.Core.Path.{subst}
use fastapi_m.Base.{String, ◌≡◌, sym, true, false, inl, inr, Bool-cases, ◌==◌, nat_eq}
use fastapi_m.Base.Exec.{Result, ok, raise, handle, Result-cases}
use fastapi_m.Http.{
  Url, Headers, Failure, http_status, connect, transport, other, jti_status, Request, Response,
  Network,
}
use fastapi_m.InternalAuth.{InternalAuth, headers, invalidate}
use fastapi_m.Revocation.Client.{RevocationClient, post_status, retry_status, send_status}
use fastapi_m.Revocation.Client.Frame.{post_status-keeps}

module _ {W : Type 0} (net : Network W) (jti user_id : String) (url : Url) (version : String) where
  -- the request about the token and its asserted subject, with any credentials
  abbrev about : Headers → Request
  about h = record { url = url; headers = h; body = jti_status jti user_id version }

  -- How one request ends: the credentials cannot be had, the request fails, the issuer answers it
  -- with an error status, or the issuer answers it with success.
  pub data Attempt : Result Failure Response → Type 0 where
    no_credentials :
        (auth : InternalAuth) (w : W) (e : Failure)
        → (headers net (auth, w)).0 ≡ raise e
        → Attempt (raise e)
    lost :
        (h : Headers) (w : W) (e : Failure) → (net.post (about h) w).0 ≡ raise e → Attempt (raise e)
    refused :
        (h : Headers) (w : W) (response : Response)
        → (net.post (about h) w).0 ≡ ok response
        → net.is_success response.status_code ≡ false
        → Attempt (raise (http_status response.status_code))
    answered :
        (h : Headers) (w : W) (response : Response)
        → (net.post (about h) w).0 ≡ ok response
        → net.is_success response.status_code ≡ true
        → Attempt (ok response)

module _ {W : Type 0} (net : Network W) (jti user_id : String) where
  abbrev pub AttemptOf : RevocationClient → Result Failure Response → Type 0
  AttemptOf c = Attempt net jti user_id c.url c.schema_version

  post_status-Attempt :
      (c : RevocationClient) (w : W) → AttemptOf c (post_status net jti user_id (c, w)).0
  unfolding post_status
  post_status-Attempt c w = elim (Result-cases (headers net (c.auth, w)).0) [
    | inr (e, failed) ↦ rw (failed, post_status) (no_credentials c.auth w e failed)
    | inl (h, had) ↦
        let w1 = (headers net (c.auth, w)).1.1 in
        let request = about net jti user_id c.url c.schema_version h in
        elim (Result-cases (net.post request w1).0) [
          | inr (e, gone) ↦ rw (had, post_status) (rw gone (lost h w1 e gone))
          | inl (response, came) ↦ elim (Bool-cases (net.is_success response.status_code)) [
            | inl good ↦
                rw (had, post_status) (rw came (rw good (answered h w1 response came good)))
            | inr bad ↦ rw (had, post_status) (rw came (rw bad (refused h w1 response came bad)))
          ]
        ]
  ]

  retry_status-Attempt :
      (e : Failure) (c : RevocationClient) (w : W)
      → AttemptOf c (raise e)
      → AttemptOf c (retry_status net jti user_id e (c, w)).0
  unfolding retry_status
  retry_status-Attempt (http_status status) c w first = elim (Bool-cases (status == 401)) [
    | inr other_status ↦ rw other_status first
    | inl rejected ↦ elim (Bool-cases (invalidate c.auth).0) [
      | inl again ↦
          rw (rejected, again) (post_status-Attempt (record c { auth = (invalidate c.auth).1 }) w)
      | inr never ↦ rw (rejected, never) first
    ]
  ]
  retry_status-Attempt connect c w first = first
  retry_status-Attempt transport c w first = first
  retry_status-Attempt other c w first = first

  handle-Attempt :
      (c : RevocationClient) (auth : InternalAuth)
      (r : Result Failure Response × (RevocationClient × W))
      → r.1.0 ≡ record c { auth = auth }
      → AttemptOf c r.0
      → AttemptOf c (handle (retry_status net jti user_id) r).0
  handle-Attempt c auth (ok response, s) same first = first
  handle-Attempt c auth (raise e, (d, w)) same first =
      subst (λ x. AttemptOf c (retry_status net jti user_id e (x, w)).0) (sym same)
        (retry_status-Attempt e (record c { auth = auth }) w first)

  -- What is made of the reply is what the last request ended in.
  pub send_status-Attempt :
      (c : RevocationClient) (w : W) → AttemptOf c (send_status net jti user_id (c, w)).0
  unfolding send_status
  send_status-Attempt c w =
      handle-Attempt c _ (post_status net jti user_id (c, w))
        (post_status-keeps net jti user_id c w) (post_status-Attempt c w)
