-- ===== src/InternalAuth/Tasks.antt =====
-- Tasks that share a service-token provider: fastapi_m8/_internal_auth.py, `ServiceTokenInternalAuth`.
-- A task is suspended before it has the lock, and inside it while it waits for the exchange.
pub mod Serial
pub mod Minting
pub mod Progress
use fastapi_m.Base.{
  ℕ, suc, String, ◌≡◌, Bool, true, Option, none, some, List, [], ◌∷◌, ltb, ◌==◌, nat_eq,
  if◌then◌else◌,
}
use fastapi_m.Base.Exec.{Result, ok, raise, Exec, pure, continue, ◌>>=◌}
use fastapi_m.Http.{Failure, Response, Network}
use fastapi_m.InternalAuth.{
  ServiceToken, service_auth, invalidate, raise_for_status, parse_token, remember,
}

module _ {W : Type 0} (net : Network W) where
  -- `_ensure_token` up to the exchange: the token that is cached and live, by the clock of `w`
  abbrev pub live_token : ServiceToken → W → Option String
  live_token s w = elim s.token [
    | none ↦ none
    | some token ↦ if ltb (net.monotonic w).0 s.expires_at then some token else none
  ]

  -- `_exchange` from its `await` on, at the reply to its request
  unfoldable pub take_reply : Result Failure Response → Exec Failure (ServiceToken × W) String
  unfolding remember
  take_reply reply s =
      continue
        (λ reply. do
          response ← raise_for_status net reply
          minted ← parse_token net response
          remember net minted.0 minted.1)
        (reply, s)

-- what a call of `_ensure_token` has come to: it may wait for the lock, or hold it
pub data Pc : Type 0 where
  wanting : Pc
  exchanging : Pc
  answered : Result Failure String → Pc

-- The provider, its lock with the call that holds it, the calls, and two records of the run: the
-- answers, the last one first, and the number of tokens that were minted.
pub record System : Type 0 where
  pub provider : ServiceToken
  pub holder : Option ℕ
  pub calls : ℕ → Pc
  pub answers : List (ℕ × Result Failure String)
  pub minted : ℕ

abbrev pub update : (ℕ → Pc) → ℕ → Pc → ℕ → Pc
update calls i pc j = if i == j then pc else calls j

abbrev pub count : Result Failure String → ℕ → ℕ
count (ok token) n = suc n
count (raise e) n = n

module _ {W : Type 0} (net : Network W) where
  -- One undisturbed stretch, at the clock of any world `w`, and with any reply.
  pub data Step (s : System) : System → Type 0 where
    reused :
        (i : ℕ) (w : W) (token : String)
        → s.holder ≡ none
        → s.calls i ≡ wanting
        → live_token net s.provider w ≡ some token
        → Step s (record s {
          calls = update s.calls i (answered (ok token));
          answers = (i, ok token) ∷ s.answers;
        })
    sent :
        (i : ℕ) (w : W)
        → s.holder ≡ none
        → s.calls i ≡ wanting
        → live_token net s.provider w ≡ none
        → Step s (record s { holder = some i; calls = update s.calls i exchanging })
    received :
        (i : ℕ) (w : W) (reply : Result Failure Response)
        → s.calls i ≡ exchanging
        → Step s (
            let r = take_reply net reply (s.provider, w) in
            record s {
              provider = r.1.0;
              holder = none;
              calls = update s.calls i (answered r.0);
              answers = (i, r.0) ∷ s.answers;
              minted = count r.0 s.minted;
            })
    dropped :
        (provider : ServiceToken)
        → s.holder ≡ none
        → invalidate (service_auth s.provider) ≡ (true, service_auth provider)
        → Step s (record s { provider = provider })

-- what a run may start from: no call has begun
pub record IsInitial (s : System) : Type 0 where
  pub free : s.holder ≡ none
  pub waiting : (i : ℕ) → s.calls i ≡ wanting
  pub none_told : s.answers ≡ []
  pub none_minted : s.minted ≡ 0

pub data Reach {W : Type 0} (net : Network W) (s : System) : System → Type 0 where
  here : Reach net s s
  next : {t v : System} → Reach net s t → Step net t v → Reach net s v
