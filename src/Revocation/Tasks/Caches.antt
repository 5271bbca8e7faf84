-- ===== src/Revocation/Tasks/Caches.antt =====
-- What the stretches of the tasks do to the shared cache: fastapi_m8/_revocation.py.
use fastapi_m.Base.{
  String, ◌≡◌, refl, ◌∙◌, Bool, not, ◌&&◌, Option, none, some, arith, inl, inr, Bool-cases,
  Option-cases, is_some,
}
use mathlib.Core.Path.{subst}
use fastapi_m.Base.Dict.{lookup}
use fastapi_m.Base.Exec.{Result, ok, raise}
use fastapi_m.Http.{Network, JtiStatus, active, inactive}
use fastapi_m.InternalAuth.{InternalAuth}
use fastapi_m.Revocation.Cache.{RevocationCache, get, put, is_superseded}
use fastapi_m.Revocation.Cache as Cache
use fastapi_m.Revocation.Client.{
  RevocationClient, RevocationError, QueryError, decision, failed, record_lookup,
  record_check_failure, consult, decide, recover, settle,
}
use fastapi_m.Revocation.Events.{SessionRevokedEvent, apply_event}
use fastapi_m.Revocation.Events.Refinement.{HasRoom}
use fastapi_m.Revocation.Events.Reachable as Reachable
use fastapi_m.Revocation.Events.History.{History, now_on, followed, Roomy}
use fastapi_m.Revocation.Lifecycle.{apply_session_revoked_event, evict_jti, evict_user, flush_cache}
use fastapi_m.Revocation.Tasks.{
  looked, begin, reply_of, System, Step, begun, resumed, notified, token_evicted, user_evicted,
  flushed,
}

pub History-trans : {c d e : RevocationCache} → History c d → History d e → History c e
History-trans h now_on = h
History-trans h (followed g s room) = followed (History-trans h g) s room

-- The client has a cache that came from `k`, and fails as it did.
pub record Follows (k : RevocationCache) (closed : Bool) (c : RevocationClient) : Type 0 where
  pub cache : RevocationCache
  pub enabled : c.cache ≡ some cache
  pub history : History k cache
  pub mode : c.fail_closed ≡ closed

module _ (k : RevocationCache) (c : RevocationClient) (has : c.cache ≡ some k) where
  same-Follows :
      {d : RevocationClient}
      → d.cache ≡ c.cache
      → d.fail_closed ≡ c.fail_closed
      → Follows k c.fail_closed d
  same-Follows e m = record { cache = k; enabled = e ∙ has; history = now_on; mode = m }

  one_step :
      (d : RevocationCache) (step : Reachable.Step k d)
      → Roomy step
      → Follows k c.fail_closed (record c { cache = some d })
  one_step d step room = record {
    cache = d;
    enabled = refl;
    history = followed now_on step room;
    mode = refl;
  }

  module _ {W : Type 0} (net : Network W) where
    consult-Follows : (jti : String) (w : W) → Follows k c.fail_closed (consult net jti (c, w)).1.0
    unfolding consult
    consult-Follows jti w = elim (Option-cases (lookup jti k.store)) [
      | inl miss ↦ same-Follows (ground arith) (ground arith)
      | inr (e, hit) ↦ record {
        cache = (get (net.monotonic w).0 k jti).1;
        enabled = ground arith;
        history = followed now_on (Reachable.looked_up k (net.monotonic w).0 jti) tt;
        mode = ground arith;
      }
    ]

    looked-Follows :
        (r : Result RevocationError (Option Bool) × (RevocationClient × W))
        → Follows k c.fail_closed r.1.0
        → Follows k c.fail_closed (looked r).1.0
    unfolding record_lookup
    looked-Follows (ok none, s) f = record {
      cache = f.cache;
      enabled = f.enabled;
      history = f.history;
      mode = f.mode;
    }
    looked-Follows (ok (some answer), s) f = record {
      cache = f.cache;
      enabled = f.enabled;
      history = f.history;
      mode = f.mode;
    }
    looked-Follows (raise e, s) f = f

    begin-Follows :
        (jti : String) (bypass : Bool) (w : W)
        → Follows k c.fail_closed (begin net jti bypass (c, w)).1.0
    unfolding begin
    begin-Follows jti bypass w = elim (Bool-cases (is_some c.cache && not bypass)) [
      | inl first ↦ rw first (looked-Follows _ (consult-Follows jti w))
      | inr direct ↦ rw direct (same-Follows refl refl)
    ]

    settle-Follows :
        (jti u : String) (reply : Result QueryError JtiStatus) (auth : InternalAuth) (w : W)
        → Follows k c.fail_closed (settle net jti u (reply, (record c { auth = auth }, w))).1.0
    unfolding decide recover record_check_failure
    settle-Follows jti u (ok inactive) auth w = same-Follows refl refl
    settle-Follows jti u (ok (active subject g)) auth w = elim (Bool-cases (is_superseded k u g)) [
      | inl stale ↦ same-Follows (ground arith) (ground arith)
      | inr fresh ↦ record {
        cache = put (net.monotonic w).0 k jti u g;
        enabled = ground arith;
        history = followed now_on (Reachable.cached k (net.monotonic w).0 jti u g) tt;
        mode = ground arith;
      }
    ]
    settle-Follows jti u (raise (decision reason)) auth w = same-Follows refl refl
    settle-Follows jti u (raise (failed e)) auth w = same-Follows (ground arith) (ground arith)

  -- an event that raises nothing leaves the client with the cache that the event leaves
  pub notified_cache :
      (payload : Option SessionRevokedEvent) (c' : RevocationClient)
      → apply_session_revoked_event c payload ≡ some c'
      → (d : RevocationCache) × (apply_event k payload ≡ some d)
        × (record c { cache = some d } ≡ c')
  unfolding apply_session_revoked_event
  notified_cache payload c' e = elim (Option-cases (apply_event k payload)) [
    | inl error ↦ absurd (ground arith)
    | inr (d, made) ↦ (d, made, ground arith)
  ]

  notified-Follows :
      (payload : Option SessionRevokedEvent) (c' : RevocationClient)
      → ((event : SessionRevokedEvent) → payload ≡ some event → HasRoom k event.user_id)
      → apply_session_revoked_event c payload ≡ some c'
      → Follows k c.fail_closed c'
  notified-Follows payload c' room e =
      let (d, made, same) = notified_cache payload c' e in
      subst (Follows k c.fail_closed) same (one_step d (Reachable.received k d payload made) room)

  token_evicted-Follows :
      (jti : String) (c' : RevocationClient)
      → evict_jti c jti ≡ some c'
      → Follows k c.fail_closed c'
  unfolding evict_jti
  token_evicted-Follows jti c' e =
      let same : record c { cache = some (Cache.evict_jti k jti) } ≡ c' = ground arith in
      subst (Follows k c.fail_closed) same (one_step _ (Reachable.evicted k jti) tt)

  user_evicted-Follows :
      (u : String) (c' : RevocationClient) → evict_user c u ≡ some c' → Follows k c.fail_closed c'
  unfolding evict_user
  user_evicted-Follows u c' e = elim (Option-cases (Cache.evict_user k u)) [
    | inl error ↦ absurd (ground arith)
    | inr (d, made) ↦
        let same : record c { cache = some d } ≡ c' = ground arith in
        subst (Follows k c.fail_closed) same (one_step d (Reachable.user_evicted k d u made) tt)
  ]

  flushed-Follows : (c' : RevocationClient) → flush_cache c ≡ some c' → Follows k c.fail_closed c'
  unfolding flush_cache
  flushed-Follows c' e =
      let same : record c { cache = some (Cache.flush_all k) } ≡ c' = ground arith in
      subst (Follows k c.fail_closed) same (one_step _ (Reachable.flushed k) tt)

-- An event makes a stretch need room, for the user that it is about.
abbrev pub HasSpace : {W : Type 0} {net : Network W} {s t : System} → Step net s t → Type 0
HasSpace {s = s} (notified payload c e) =
    (k : RevocationCache) (event : SessionRevokedEvent)
    → s.client.cache ≡ some k
    → payload ≡ some event
    → HasRoom k event.user_id
HasSpace _ = Unit

-- Whatever a task does in one stretch, it does to the cache by steps of the cache.
pub Step-Follows :
    {W : Type 0} (net : Network W) (k : RevocationCache) {s t : System}
    → (step : Step net s t) → HasSpace step
    → s.client.cache ≡ some k
    → Follows k s.client.fail_closed t.client
Step-Follows net k {s} (begun i jti u bypass w e) space has =
    begin-Follows k s.client has net jti bypass w
Step-Follows net k {s} (resumed i jti u response auth w e) space has =
    settle-Follows k s.client has net jti u (reply_of net u response) auth w
Step-Follows net k {s} (notified payload c e) space has =
    notified-Follows k s.client has payload c (λ event is. space k event has is) e
Step-Follows net k {s} (token_evicted jti c e) space has =
    token_evicted-Follows k s.client has jti c e
Step-Follows net k {s} (user_evicted u c e) space has = user_evicted-Follows k s.client has u c e
Step-Follows net k {s} (flushed c e) space has = flushed-Follows k s.client has c e
