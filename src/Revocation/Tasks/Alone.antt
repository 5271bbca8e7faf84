-- ===== src/Revocation/Tasks/Alone.antt =====
-- A call that no other task disturbs: fastapi_m8/_revocation.py, `is_revoked`.
use fastapi_m.Base.{
  String, ◌≡◌, refl, ap, false, Bool, not, ◌&&◌, Option, none, some, inl, inr, Bool-cases, is_some,
}
use fastapi_m.Base.Exec.{Result, ok, raise, continue, lift}
use fastapi_m.Http.{Failure, Response, Network}
use fastapi_m.Revocation.Client.{
  RevocationClient, RevocationError, record_lookup, judge, wrap, send_status, consult, after_lookup,
  check_issuer, query_status, settle, is_revoked,
}
use fastapi_m.Revocation.Tasks.{Progress, finished, waiting, looked, reply_of, begin}

module _ {W : Type 0} (net : Network W) (jti user_id : String) where
  -- The second part of a call, where the issuer is asked.
  abbrev proceed :
      Progress × (RevocationClient × W) → Result RevocationError Bool × (RevocationClient × W)
  proceed (finished answer, s) = (answer, s)
  proceed (waiting, s) =
      let (response, s') = send_status net jti user_id s in
      settle net jti user_id (reply_of net user_id response, s')

  judged :
      (r : Result Failure Response × (RevocationClient × W))
      → continue (λ response. lift (judge net user_id response)) (wrap net r)
        ≡ (reply_of net user_id r.0, r.1)
  judged (ok response, s) = refl
  judged (raise e, s) = refl

  query_status_lem :
      (s : RevocationClient × W)
      → let r = send_status net jti user_id s in
        query_status net jti user_id s ≡ (reply_of net user_id r.0, r.1)
  unfolding query_status
  query_status_lem s = judged (send_status net jti user_id s)

  check_issuer_lem :
      (s : RevocationClient × W) → check_issuer net jti user_id s ≡ proceed (waiting, s)
  unfolding check_issuer
  check_issuer_lem s = ap (settle net jti user_id) (query_status_lem s)

  looked-proceed :
      (r : Result RevocationError (Option Bool) × (RevocationClient × W))
      → continue (after_lookup net jti user_id) r ≡ proceed (looked r)
  unfolding after_lookup
  looked-proceed (ok none, (c, w)) = check_issuer_lem (record_lookup false c, w)
  looked-proceed (ok (some answer), s) = refl
  looked-proceed (raise e, s) = refl

  -- A call is its two parts, with the requests to the issuer between them.
  is_revoked_lem :
      (bypass : Bool) (s : RevocationClient × W)
      → is_revoked net jti user_id bypass s ≡ proceed (begin net jti bypass s)
  unfolding is_revoked begin
  is_revoked_lem bypass s = elim (Bool-cases (is_some s.0.cache && not bypass)) [
    | inl first ↦ rw first (looked-proceed (consult net jti s))
    | inr direct ↦ rw direct (check_issuer_lem s)
  ]
