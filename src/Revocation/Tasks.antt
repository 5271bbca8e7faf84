-- ===== src/Revocation/Tasks.antt =====
-- Calls of `is_revoked` by many tasks over one client: fastapi_m8/_revocation.py. A task is suspended
-- at one place, while it waits for the issuer; until then, and from then on, it runs undisturbed. In
-- between other calls go on, and the stream's events arrive.
pub mod Alone
pub mod Caches
pub mod Safety
use fastapi_m.Base.{
  ℕ, String, ◌≡◌, Bool, false, true, not, ◌&&◌, Option, none, some, ◌==◌, nat_eq, if◌then◌else◌,
  is_some,
}
use fastapi_m.Base.Dict.{lookup}
use fastapi_m.Base.Exec.{Result, ok, raise}
use fastapi_m.Http.{Failure, Response, JtiStatus, Network}
use fastapi_m.InternalAuth.{InternalAuth}
use fastapi_m.Revocation.Cache.{Entry}
use fastapi_m.Revocation.Client.{
  RevocationClient, RevocationError, QueryError, failed, judge, record_lookup, consult, settle,
}
use fastapi_m.Revocation.Events.{SessionRevokedEvent}
use fastapi_m.Revocation.Lifecycle.{apply_session_revoked_event, evict_jti, evict_user, flush_cache}

-- where a call stands after its first part
pub data Progress : Type 0 where
  finished : Result RevocationError Bool → Progress
  waiting : Progress

-- what an answer was taken from: the entry of the cache, or the reply of the issuer
pub data Source : Type 0 where
  cached : Option Entry → Source
  replied : Result QueryError JtiStatus → Source

pub data Pc : Type 0 where
  idle : Pc
  asking : (jti user_id : String) → Pc
  answered : (jti user_id : String) → Source → Result RevocationError Bool → Pc

abbrev looked :
    {W : Type 0}
    → Result RevocationError (Option Bool) × (RevocationClient × W)
    → Progress × (RevocationClient × W)
looked (ok none, (c, w)) = (waiting, (record_lookup false c, w))
looked (ok (some answer), (c, w)) = (finished (ok answer), (record_lookup true c, w))
looked (raise e, s) = (finished (raise e), s)

module _ {W : Type 0} (net : Network W) where
  -- what `_query_status` makes of the last response, or of the failure to get one
  abbrev pub reply_of : String → Result Failure Response → Result QueryError JtiStatus
  reply_of user_id (ok response) = judge net user_id response
  reply_of user_id (raise e) = raise (failed e)

  -- `is_revoked` up to its `await`
  pub begin :
      (jti : String)
      → (bypass_cache : Bool) → RevocationClient × W
      → Progress × (RevocationClient × W)
  begin jti bypass_cache s =
      if is_some s.0.cache && not bypass_cache then looked (consult net jti s) else (waiting, s)

abbrev pub pc_after : (jti user_id : String) → Option Entry → Progress → Pc
pc_after jti user_id found (finished answer) = answered jti user_id (cached found) answer
pc_after jti user_id found waiting = asking jti user_id

-- the entry that a lookup finds, live or not
abbrev pub entry_of : RevocationClient → String → Option Entry
entry_of c jti = elim c.cache [ none ↦ none | some cache ↦ lookup jti cache.store ]

-- the client and the calls, of which there may be any number; a call that has not begun is `idle`
pub record System : Type 0 where
  pub client : RevocationClient
  pub calls : ℕ → Pc

abbrev pub update : (ℕ → Pc) → ℕ → Pc → ℕ → Pc
update calls i pc j = if i == j then pc else calls j

module _ {W : Type 0} (net : Network W) where
  -- One undisturbed stretch. The clock is that of any world `w`; the last response of the issuer is any
  -- response, and the requests for it leave any credentials.
  pub data Step (s : System) : System → Type 0 where
    begun :
        (i : ℕ) (jti user_id : String) (bypass_cache : Bool) (w : W)
        → s.calls i ≡ idle
        → Step s (
            let r = begin net jti bypass_cache (s.client, w) in
            record {
              client = r.1.0;
              calls = update s.calls i (pc_after jti user_id (entry_of s.client jti) r.0);
            })
    resumed :
        (i : ℕ) (jti user_id : String) (response : Result Failure Response) (auth : InternalAuth)
        (w : W)
        → s.calls i ≡ asking jti user_id
        → Step s (
            let reply = reply_of net user_id response in
            let r = settle net jti user_id (reply, (record s.client { auth = auth }, w)) in
            record {
              client = r.1.0;
              calls = update s.calls i (answered jti user_id (replied reply) r.0);
            })
    notified :
        (payload : Option SessionRevokedEvent) (c : RevocationClient)
        → apply_session_revoked_event s.client payload ≡ some c
        → Step s (record s { client = c })
    token_evicted :
        (jti : String) (c : RevocationClient)
        → evict_jti s.client jti ≡ some c
        → Step s (record s { client = c })
    user_evicted :
        (user_id : String) (c : RevocationClient)
        → evict_user s.client user_id ≡ some c
        → Step s (record s { client = c })
    flushed :
        (c : RevocationClient) → flush_cache s.client ≡ some c → Step s (record s { client = c })
