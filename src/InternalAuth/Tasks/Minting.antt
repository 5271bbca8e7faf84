-- ===== src/InternalAuth/Tasks/Minting.antt =====
-- How many tokens the tasks mint: fastapi_m8/_internal_auth.py.
use fastapi_m.Base.{
  ℕ, suc, String, ◌≡◌, ◌≤◌, ◌<◌, ◌⊎◌, refl, none, some, ◌∷◌, nat_eq, arith, inl, inr,
}
use fastapi_m.Base.Exec.{Result, ok, raise}
use fastapi_m.Http.{Failure, Response, Network}
use fastapi_m.InternalAuth.{ServiceToken}
use fastapi_m.InternalAuth.Tasks.Serial.{Reach-Inv}
use fastapi_m.InternalAuth.Tasks.{
  take_reply, exchanging, answered, System, update, count, Step, reused, sent, received, dropped,
  IsInitial, Reach, here, next,
}

module _ {W : Type 0} (net : Network W) (horizon : ℕ) where
  -- A stretch before the horizon: the clock that decides whether to exchange is read before it, and a
  -- token that is minted lives up to it.
  abbrev Brief : {s t : System} → Step net s t → Type 0
  Brief (reused i w token free mine live) = Unit
  Brief (sent i w free mine old) = (net.monotonic w).0 < horizon
  Brief {s} (received i w reply mine) =
      (token : String)
      → (take_reply net reply (s.provider, w)).0 ≡ ok token
      → horizon ≤ (take_reply net reply (s.provider, w)).1.0.expires_at
  Brief (dropped provider free forget) = Unit

  abbrev Within : {s t : System} → Reach net s t → Type 0
  Within here = Unit
  Within (next before step) = Within before × Brief step

  -- how often the token was dropped
  abbrev dropped_once : {s t : System} → Step net s t → ℕ → ℕ
  dropped_once (dropped provider free forget) d = suc d
  dropped_once step d = d

  abbrev drops : {s t : System} → Reach net s t → ℕ
  drops here = 0
  drops (next before step) = dropped_once step (drops before)

  -- a token is cached that lives up to the horizon, and no call is in the exchange
  record Settled (d : ℕ) (s : System) : Type 0 where
    token : String
    cached : s.provider.token ≡ some token
    alive : horizon ≤ s.provider.expires_at
    quiet : (i : ℕ) → s.calls i ≡ exchanging → ⊥
    most : s.minted ≤ suc d

  abbrev Few : ℕ → System → Type 0
  Few d s = (s.minted ≤ d) ⊎ Settled d s

  take_reply-token :
      (p : ServiceToken) (w : W) (reply : Result Failure Response) (token : String)
      → (take_reply net reply (p, w)).0 ≡ ok token
      → (take_reply net reply (p, w)).1.0.token ≡ some token
  unfolding take_reply
  take_reply-token p w reply token minted = ground arith

  received-Few :
      (d : ℕ) (s : System) (i : ℕ) (w : W) (reply : Result Failure Response)
      (mine : s.calls i ≡ exchanging)
      → ((j : ℕ) → s.calls j ≡ exchanging → i ≡ j)
      → ((token : String)
          → (take_reply net reply (s.provider, w)).0 ≡ ok token
          → horizon ≤ (take_reply net reply (s.provider, w)).1.0.expires_at)
      → s.minted ≤ d
      → (r : Result Failure String) → (take_reply net reply (s.provider, w)).0 ≡ r
      → Few d (record s {
        provider = (take_reply net reply (s.provider, w)).1.0;
        holder = none;
        calls = update s.calls i (answered (take_reply net reply (s.provider, w)).0);
        answers = (i, (take_reply net reply (s.provider, w)).0) ∷ s.answers;
        minted = count (take_reply net reply (s.provider, w)).0 s.minted;
      })
  received-Few d s i w reply mine alone brief few (raise e) is = inl (ground arith)
  received-Few d s i w reply mine alone brief few (ok token) is = inr (record {
    token = token;
    cached = take_reply-token s.provider w reply token is;
    alive = brief token is;
    quiet = λ j e. ground (arith, alone j);
    most = ground arith;
  })

  Step-Few :
      (d : ℕ) {s t : System} (step : Step net s t)
      → ((i j : ℕ) → s.calls i ≡ exchanging → s.calls j ≡ exchanging → i ≡ j)
      → Brief step
      → Few d s
      → Few (dropped_once step d) t
  Step-Few d (reused i w token free mine live) alone brief (inl few) = inl few
  Step-Few d (reused i w token free mine live) alone brief (inr h) = inr (record {
    token = h.token;
    cached = h.cached;
    alive = h.alive;
    quiet = λ j e. ground (arith, h.quiet j);
    most = h.most;
  })
  Step-Few d (sent i w free mine old) alone brief (inl few) = inl few
  Step-Few d (sent i w free mine old) alone brief (inr h) =
      absurd (ground (arith, h.cached, h.alive))
  Step-Few d {s} (received i w reply mine) alone brief (inl few) =
      received-Few d s i w reply mine (λ j. alone i j mine) brief few _ refl
  Step-Few d (received i w reply mine) alone brief (inr h) = absurd (h.quiet i mine)
  Step-Few d (dropped provider free forget) alone brief (inl few) = inl (omega (arith, few))
  Step-Few d (dropped provider free forget) alone brief (inr h) = inl h.most

  Reach-Few : {s t : System} → IsInitial s → (run : Reach net s t) → Within run → Few (drops run) t
  Reach-Few h here within = inl (ground (arith, h.none_minted))
  Reach-Few h (next before step) (within, brief) =
      let inv = Reach-Inv net h before in
      Step-Few (drops before) step (λ i j p q. ground (arith, inv.locked i p, inv.locked j q)) brief
        (Reach-Few h before within)

  -- Up to a horizon, however many calls ask and however they are interleaved, at most one token is
  -- minted, and one more for each time that the token was dropped: if the clock is read before the
  -- horizon wherever a call finds no live token, and every token that is minted lives up to it.
  pub minted-le-drops :
      (s t : System) → IsInitial s → (run : Reach net s t) → Within run → t.minted ≤ suc (drops run)
  minted-le-drops s t start run within = elim (Reach-Few start run within) [
    | inl few ↦ omega (arith, few)
    | inr h ↦ h.most
  ]
