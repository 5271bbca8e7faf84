-- ===== src/Revocation/Client/Frame.antt =====
-- A query of the issuer changes the credentials of the client and nothing else, and reads neither
-- the cache nor the metrics: fastapi_m8/_revocation.py, `_query_status`.
use fastapi_m.Base.{String, ◌≡◌, refl, ap, ◌∙◌, Option, arith, nat_eq}
use fastapi_m.Base.Exec.{Result, ok, raise, handle, continue, lift}
use fastapi_m.Http.{Failure, http_status, connect, transport, other, Response, Network}
use fastapi_m.InternalAuth.{InternalAuth, invalidate}
use fastapi_m.Revocation.Cache.{RevocationCache}
use fastapi_m.Revocation.Client.{
  CacheMetrics, RevocationClient, post_status, retry_status, judge, wrap, send_status, query_status,
}

-- the client with another cache and other metrics
abbrev pub with_cache :
    Option RevocationCache → Option CacheMetrics → RevocationClient → RevocationClient
with_cache cache metrics c = record c { cache = cache; metrics = metrics }

abbrev pub reply_with :
    {E A W : Type 0}
    → Option RevocationCache
    → Option CacheMetrics
    → Result E A × (RevocationClient × W)
    → Result E A × (RevocationClient × W)
reply_with cache metrics r = (r.0, (with_cache cache metrics r.1.0, r.1.1))

module _ {W : Type 0} (net : Network W) (d : Option RevocationCache) (m : Option CacheMetrics) where
  post_status-frame :
      (jti u : String) (c : RevocationClient) (w : W)
      → post_status net jti u (with_cache d m c, w) ≡ reply_with d m (post_status net jti u (c, w))
  unfolding post_status
  post_status-frame jti u c w = ground arith

  retry_status-frame :
      (jti u : String) (e : Failure) (c : RevocationClient) (w : W)
      → retry_status net jti u e (with_cache d m c, w)
        ≡ reply_with d m (retry_status net jti u e (c, w))
  unfolding retry_status
  retry_status-frame jti u (http_status status) c w =
      ground (arith, post_status-frame jti u (record c { auth = (invalidate c.auth).1 }) w)
  retry_status-frame jti u connect c w = refl
  retry_status-frame jti u transport c w = refl
  retry_status-frame jti u other c w = refl

  handle-frame :
      (jti u : String) (r : Result Failure Response × (RevocationClient × W))
      → handle (retry_status net jti u) (reply_with d m r)
        ≡ reply_with d m (handle (retry_status net jti u) r)
  handle-frame jti u (ok response, s) = refl
  handle-frame jti u (raise e, (c, w)) = retry_status-frame jti u e c w

  send_status-frame :
      (jti u : String) (c : RevocationClient) (w : W)
      → send_status net jti u (with_cache d m c, w) ≡ reply_with d m (send_status net jti u (c, w))
  unfolding send_status
  send_status-frame jti u c w =
      ap (handle (retry_status net jti u)) (post_status-frame jti u c w)
      ∙ handle-frame jti u (post_status net jti u (c, w))

  judge-frame :
      (u : String) (r : Result Failure Response × (RevocationClient × W))
      → continue (λ response. lift (judge net u response)) (wrap net (reply_with d m r))
        ≡ reply_with d m (continue (λ response. lift (judge net u response)) (wrap net r))
  judge-frame u (ok response, s) = refl
  judge-frame u (raise e, s) = refl

  -- The reply and the credentials that are left do not depend on the cache and the metrics.
  pub query_status-frame :
      (jti u : String) (c : RevocationClient) (w : W)
      → query_status net jti u (with_cache d m c, w)
        ≡ reply_with d m (query_status net jti u (c, w))
  unfolding query_status
  query_status-frame jti u c w =
      ap (λ r. continue (λ response. lift (judge net u response)) (wrap net r))
        (send_status-frame jti u c w)
      ∙ judge-frame u (send_status net jti u (c, w))

-- the client with other credentials
abbrev with_auth : InternalAuth → RevocationClient → RevocationClient
with_auth auth c = record c { auth = auth }

module _ {W : Type 0} (net : Network W) where
  pub post_status-keeps :
      (jti u : String) (c : RevocationClient) (w : W)
      → (post_status net jti u (c, w)).1.0 ≡ with_auth (post_status net jti u (c, w)).1.0.auth c
  unfolding post_status
  post_status-keeps jti u c w = ground arith

  retry_status-keeps :
      (jti u : String) (e : Failure) (c : RevocationClient) (w : W)
      → (retry_status net jti u e (c, w)).1.0
        ≡ with_auth (retry_status net jti u e (c, w)).1.0.auth c
  unfolding retry_status
  retry_status-keeps jti u (http_status status) c w =
      ground (arith, post_status-keeps jti u (record c { auth = (invalidate c.auth).1 }) w)
  retry_status-keeps jti u connect c w = refl
  retry_status-keeps jti u transport c w = refl
  retry_status-keeps jti u other c w = refl

  handle-keeps :
      (jti u : String) (c : RevocationClient) (r : Result Failure Response × (RevocationClient × W))
      → r.1.0 ≡ with_auth r.1.0.auth c
      → (handle (retry_status net jti u) r).1.0
        ≡ with_auth (handle (retry_status net jti u) r).1.0.auth c
  handle-keeps jti u c (ok response, s) h = h
  handle-keeps jti u c (raise e, (d, w)) h =
      retry_status-keeps jti u e d w ∙ ap (with_auth (retry_status net jti u e (d, w)).1.0.auth) h

  judge-state :
      (u : String) (r : Result Failure Response × (RevocationClient × W))
      → (continue (λ response. lift (judge net u response)) (wrap net r)).1 ≡ r.1
  judge-state u (ok response, s) = refl
  judge-state u (raise e, s) = refl

  pub send_status-keeps :
      (jti u : String) (c : RevocationClient) (w : W)
      → (send_status net jti u (c, w)).1.0 ≡ with_auth (send_status net jti u (c, w)).1.0.auth c
  unfolding send_status
  send_status-keeps jti u c w =
      handle-keeps jti u c (post_status net jti u (c, w)) (post_status-keeps jti u c w)

  -- A query leaves all of the client but its credentials as it was.
  query_status-keeps :
      (jti u : String) (c : RevocationClient) (w : W)
      → (query_status net jti u (c, w)).1.0 ≡ with_auth (query_status net jti u (c, w)).1.0.auth c
  unfolding query_status
  query_status-keeps jti u c w =
      rw (judge-state u (send_status net jti u (c, w))) (send_status-keeps jti u c w)
