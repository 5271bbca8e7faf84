-- ===== src/InternalAuth/Tasks/Progress.antt =====
-- No call is stuck: fastapi_m8/_internal_auth.py, `ServiceTokenInternalAuth`.
use fastapi_m.Base.{ℕ, String, ◌≡◌, ◌⊎◌, refl, none, some, Option-cases, arith, inl, inr, nat_eq}
use fastapi_m.Base.Exec.{Result, ok}
use fastapi_m.Http.{Failure, Response, Network}
use fastapi_m.InternalAuth.Tasks.Serial.{Reach-Inv}
use fastapi_m.InternalAuth.Tasks.{
  live_token, take_reply, wanting, exchanging, answered, System, Step, reused, sent, received,
  IsInitial, Reach,
}

module _ {W : Type 0} (net : Network W) where
  -- the call can have the lock, and a token or the exchange
  pub record GoesOn (t : System) (i : ℕ) : Type 0 where
    pub after : System
    pub step : Step net t after
    pub moved :
        (after.calls i ≡ exchanging) ⊎ ((token : String) × (after.calls i ≡ answered (ok token)))

  -- the call is in the exchange, and whatever reply it gets, it has its answer and the lock is free
  pub record Returns (t : System) (i : ℕ) (reply : Result Failure Response) : Type 0 where
    pub after : System
    pub step : Step net t after
    pub freed : after.holder ≡ none
    pub told : (answer : Result Failure String) × (after.calls i ≡ answered answer)

  wanting-GoesOn : (t : System) (i : ℕ) (w : W) → t.holder ≡ none → t.calls i ≡ wanting → GoesOn t i
  wanting-GoesOn t i w free mine = elim (Option-cases (live_token net t.provider w)) [
    | inl old ↦ record { after = _; step = sent i w free mine old; moved = inl (ground arith) }
    | inr (token, live) ↦ record {
      after = _;
      step = reused i w token free mine live;
      moved = inr (token, ground arith);
    }
  ]

  exchanging-Returns :
      (t : System) (i : ℕ) (w : W) (reply : Result Failure Response)
      → t.calls i ≡ exchanging
      → Returns t i reply
  exchanging-Returns t i w reply mine = record {
    after = _;
    step = received i w reply mine;
    freed = refl;
    told = ((take_reply net reply (t.provider, w)).0, ground arith);
  }

  -- A call that waits for the lock is never stuck: either the lock is free, and the call goes on, or a
  -- call holds it that is in the exchange, and that call, whatever reply it gets, ends and frees the
  -- lock.
  pub tasks_progress :
      (s t : System) (i : ℕ) (w : W)
      → IsInitial s
      → Reach net s t
      → t.calls i ≡ wanting
      → GoesOn t i
        ⊎ ((j : ℕ) × (t.holder ≡ some j) × ((reply : Result Failure Response) → Returns t j reply))
  tasks_progress s t i w start run mine = elim (Option-cases t.holder) [
    | inl free ↦ inl (wanting-GoesOn t i w free mine)
    | inr (j, busy) ↦
        let inv = Reach-Inv net start run in
        inr (j, busy, λ reply. exchanging-Returns t j w reply (inv.held j busy))
  ]
