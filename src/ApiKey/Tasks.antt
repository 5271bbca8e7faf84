-- ===== src/ApiKey/Tasks.antt =====
-- Calls of `introspect` by many tasks over one client: fastapi_m8/_api_key.py. A call is suspended
-- while it waits for a slot of the semaphore, and while it waits for the
-- issuer. A call begins here with a request that is valid.
pub mod Bounds
pub mod Alone
use fastapi_m.Base.{
  ℕ, suc, String, ◌≡◌, ◌<◌, Bool, true, false, Option, none, some, ◌==◌, nat_eq, if◌then◌else◌,
}
use fastapi_m.Base.Exec.{Result, ok, raise, handle, continue}
use fastapi_m.InternalAuth.{InternalAuth}
use fastapi_m.ApiKey.Client.{
  ApiKeyClient, Issuer, ApiKeyError, introspection, TransmitError, Received, give_up, admit,
  interpret,
}

-- What the client relies on of `anyio.Semaphore`: `acquire` takes one of the free slots, or is `none`
-- where the caller has to wait, and `release` gives one back.
pub record Semaphore (S : Type 0) : Type 0 where
  pub value : S → ℕ
  pub acquire : S → Option S
  pub release : S → S
  pub taken : (s s' : S) → acquire s ≡ some s' → suc (value s') ≡ value s
  pub released : (s : S) → value (release s) ≡ suc (value s)

pub data Pc (P : Type 0) : Type 0 where
  idle : Pc P
  queued : Pc P
  sending : Pc P
  answered : Result ApiKeyError (Option P) → Pc P
  cancelled : Pc P

-- `if not self._breaker.allows_call(): raise`
abbrev pub pc_after : {P : Type 0} → Result ApiKeyError Bool → Pc P
pc_after (ok true) = queued
pc_after (ok false) = answered (raise (introspection "circuit_open"))
pc_after (raise e) = answered (raise e)

pub record System (S P : Type 0) : Type 0 where
  pub client : ApiKeyClient
  pub semaphore : S
  pub calls : ℕ → Pc P

abbrev pub update : {P : Type 0} → (ℕ → Pc P) → ℕ → Pc P → ℕ → Pc P
update calls i pc j = if i == j then pc else calls j

module _ {W P : Type 0} (issuer : Issuer W P) where
  -- `introspect` from the end of its last request on: an `except` clause of `_send`, or `_interpret`
  pub conclude :
      Result TransmitError Received
      → ApiKeyClient × W
      → Result ApiKeyError (Option P) × (ApiKeyClient × W)
  conclude reply s = continue (interpret issuer) (handle (give_up issuer) (reply, s))

  module _ {S : Type 0} (sem : Semaphore S) where
    -- One undisturbed stretch of call `i`, at the clock of any world `w`. The last request may have ended
    -- in any way, and getting headers for it leaves any credentials.
    pub data Step (s : System S P) : System S P → Type 0 where
      asked :
          (i : ℕ) (w : W)
          → s.calls i ≡ idle
          → Step s (
              let r = admit issuer (s.client, w) in
              record s { client = r.1.0; calls = update s.calls i (pc_after r.0) })
      granted :
          (i : ℕ) (semaphore : S)
          → s.calls i ≡ queued
          → sem.acquire s.semaphore ≡ some semaphore
          → Step s (record s { semaphore = semaphore; calls = update s.calls i sending })
      shed :
          (i : ℕ)
          → s.calls i ≡ queued
          → Step s
              (record s { calls = update s.calls i (answered (raise (introspection "load_shed"))) })
      concluded :
          (i : ℕ) (reply : Result TransmitError Received) (auth : InternalAuth) (w : W)
          → s.calls i ≡ sending
          → Step s (
              let r = conclude reply (record s.client { auth = auth }, w) in
              record {
                client = r.1.0;
                semaphore = sem.release s.semaphore;
                calls = update s.calls i (answered r.0);
              })
      cancelled_waiting :
          (i : ℕ) → s.calls i ≡ queued → Step s (record s { calls = update s.calls i cancelled })
      cancelled_sending :
          (i : ℕ) (auth : InternalAuth)
          → s.calls i ≡ sending
          → Step s (record {
            client = record s.client { auth = auth };
            semaphore = sem.release s.semaphore;
            calls = update s.calls i cancelled;
          })

    -- the call that a stretch is of
    abbrev pub mover : {s t : System S P} → Step s t → ℕ
    mover (asked i w e) = i
    mover (granted i semaphore e a) = i
    mover (shed i e) = i
    mover (concluded i reply auth w e) = i
    mover (cancelled_waiting i e) = i
    mover (cancelled_sending i auth e) = i

    -- a run of the calls below `n`
    pub data Reach (n : ℕ) (s : System S P) : System S P → Type 0 where
      here : Reach n s s
      next : {t v : System S P} → Reach n s t → (step : Step t v) → mover step < n → Reach n s v
