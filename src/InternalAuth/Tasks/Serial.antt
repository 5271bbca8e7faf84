-- ===== src/InternalAuth/Tasks/Serial.antt =====
-- What the lock is for: fastapi_m8/_internal_auth.py.
use fastapi_m.Base.{
  ℕ, String, ◌≡◌, refl, sym, ap, true, none, some, List, [], ◌∷◌, ◌==◌, nat_eq, arith, inl, inr,
  Bool-cases, Option-cases,
}
use mathlib.Core.Path.{subst}
use mathlib.Core.List.{Memᴰ}
use fastapi_m.Base.Exec.{Result, ok, raise}
use fastapi_m.Http.{Failure, other, Response, Network}
use fastapi_m.InternalAuth.{ServiceToken, service_auth, exchange_token, ensure_token, invalidate}
use fastapi_m.InternalAuth.Tasks.{
  live_token, take_reply, Pc, exchanging, answered, System, update, Step, reused, sent, received,
  dropped, IsInitial, Reach, here, next,
}

-- a network that answers every request by `reply`, and reads a given list of times
abbrev scripted : {W : Type 0} → Network W → Result Failure Response → Network (List ℕ)
scripted net reply = record {
  monotonic = λ times. elim times [ [] ↦ (0, []) | t ∷ ts ↦ (t, ts) ];
  post = λ request times. (reply, times);
  is_success = net.is_success;
  read_token = net.read_token;
  read_status = net.read_status;
}

abbrev Answers : Type 0
Answers = List (ℕ × Result Failure String)

module _ {W : Type 0} (net : Network W) where
  -- Calls of the provider one after the other, each in one step, with their answers.
  pub data Serial (p : ServiceToken) : Answers → ServiceToken → Type 0 where
    unasked : Serial p [] p
    asked :
        {answers : Answers} {q : ServiceToken}
        → Serial p answers q
        → (i : ℕ) (reply : Result Failure Response) (times : List ℕ)
          (answer : Result Failure String) (q' : ServiceToken)
        → (ensure_token (scripted net reply) (q, times)).0 ≡ answer
        → (ensure_token (scripted net reply) (q, times)).1.0 ≡ q'
        → Serial p ((i, answer) ∷ answers) q'
    invalidated :
        {answers : Answers} {q : ServiceToken}
        → Serial p answers q
        → (q' : ServiceToken) → invalidate (service_auth q) ≡ (true, service_auth q')
        → Serial p answers q'

  ensure_token_reused :
      (q : ServiceToken) (w : W) (token : String)
      → live_token net q w ≡ some token
      → ensure_token (scripted net (raise other)) (q, (net.monotonic w).0 ∷ [])
        ≡ (ok token, (q, []))
  unfolding ensure_token
  ensure_token_reused q w token live = ground arith

  exchange_token_lem :
      (q : ServiceToken) (reply : Result Failure Response) (w : W)
      → let r = exchange_token (scripted net reply) (q, (net.monotonic w).0 ∷ []) in
        let r' = take_reply net reply (q, w) in (r.0 ≡ r'.0) × (r.1.0 ≡ r'.1.0)
  unfolding exchange_token take_reply
  exchange_token_lem q (raise e) w = (refl, refl)
  exchange_token_lem q (ok response) w = ground arith

  ensure_token_received :
      (q : ServiceToken) (w0 : W) (reply : Result Failure Response) (w : W)
      → live_token net q w0 ≡ none
      → (times : List ℕ) × ((ensure_token (scripted net reply) (q, times)).0
          ≡ (take_reply net reply (q, w)).0)
        × ((ensure_token (scripted net reply) (q, times)).1.0 ≡ (take_reply net reply (q, w)).1.0)
  unfolding ensure_token
  ensure_token_received q w0 reply w stale = elim (Option-cases q.token) [
    | inl never ↦
        let (a, b) = exchange_token_lem q reply w in
        ((net.monotonic w).0 ∷ [], ground arith, ground arith)
    | inr (token, old) ↦
        let (a, b) = exchange_token_lem q reply w in
        ((net.monotonic w0).0 ∷ (net.monotonic w).0 ∷ [], ground arith, ground arith)
  ]

  -- the calls that are in the exchange, and what the answers are
  pub record Inv (p : ServiceToken) (s : System) : Type 0 where
    serial : Serial p s.answers s.provider
    pub locked : (i : ℕ) → s.calls i ≡ exchanging → s.holder ≡ some i
    pub held : (i : ℕ) → s.holder ≡ some i → s.calls i ≡ exchanging
    stale : (i : ℕ) → s.holder ≡ some i → (w : W) × (live_token net s.provider w ≡ none)
    told : (i : ℕ) (r : Result Failure String) → s.calls i ≡ answered r → Memᴰ (i, r) s.answers

  told_next :
      (calls : ℕ → Pc) (answers : Answers) (i : ℕ) (a : Result Failure String)
      → ((j : ℕ) (r : Result Failure String) → calls j ≡ answered r → Memᴰ (j, r) answers)
      → (j : ℕ) (r : Result Failure String) → update calls i (answered a) j ≡ answered r
      → Memᴰ (j, r) ((i, a) ∷ answers)
  told_next calls answers i a told j r e = elim (Bool-cases (i == j)) [
    | inl own ↦ Memᴰ.head (ground arith)
    | inr differs ↦ Memᴰ.tail (told j r (ground arith))
  ]

  IsInitial-Inv : (s : System) → IsInitial s → Inv s.provider s
  IsInitial-Inv s h = record {
    serial = subst (λ a. Serial s.provider a s.provider) (sym h.none_told) unasked;
    locked = λ i e. absurd (ground (arith, h.waiting i));
    held = λ i e. absurd (ground (arith, h.free));
    stale = λ i e. absurd (ground (arith, h.free));
    told = λ i r e. absurd (ground (arith, h.waiting i));
  }

  Step-Inv : {p : ServiceToken} {s t : System} → Step net s t → Inv p s → Inv p t
  Step-Inv {p} {s} (reused i w token free mine live) h = record {
    serial =
        asked h.serial i (raise other) ((net.monotonic w).0 ∷ []) (ok token) s.provider
          (ap (λ r. r.0) (ensure_token_reused s.provider w token live))
          (ap (λ r. r.1.0) (ensure_token_reused s.provider w token live));
    locked = λ j e. ground (arith, h.locked j);
    held = λ j e. absurd (ground arith);
    stale = λ j e. absurd (ground arith);
    told = told_next s.calls s.answers i (ok token) h.told;
  }
  Step-Inv {p} {s} (sent i w free mine old) h = record {
    serial = h.serial;
    locked = λ j e. ground (arith, h.locked j);
    held = λ j e. ground arith;
    stale = λ j e. (w, old);
    told = λ j r e. h.told j r (ground arith);
  }
  Step-Inv {p} {s} (received i w reply mine) h =
      let (w0, old) = h.stale i (h.locked i mine) in
      let (times, same, left) = ensure_token_received s.provider w0 reply w old in
      record {
        serial = asked h.serial i reply times _ _ same left;
        locked = λ j e. absurd (ground (arith, h.locked i, h.locked j));
        held = λ j e. absurd (ground arith);
        stale = λ j e. absurd (ground arith);
        told = told_next s.calls s.answers i _ h.told;
      }
  Step-Inv {p} {s} (dropped q free forget) h = record {
    serial = invalidated h.serial q forget;
    locked = h.locked;
    held = h.held;
    stale = λ j e. absurd (ground arith);
    told = h.told;
  }

  pub Reach-Inv : {s t : System} → IsInitial s → Reach net s t → Inv s.provider t
  Reach-Inv {s} h here = IsInitial-Inv s h
  Reach-Inv h (next before step) = Step-Inv step (Reach-Inv h before)

  -- However the calls are interleaved, and whatever replies they get, the answers and the provider
  -- are those of calls that are made one after the other, each in one step, in the order in which
  -- the answers came; every call has the answer that is listed for it; and two calls are never in the
  -- exchange together.
  pub tasks-Serial :
      (s t : System)
      → IsInitial s
      → Reach net s t
      → Serial s.provider t.answers t.provider
        × ((i : ℕ) (r : Result Failure String) → t.calls i ≡ answered r → Memᴰ (i, r) t.answers)
        × ((i j : ℕ) → t.calls i ≡ exchanging → t.calls j ≡ exchanging → i ≡ j)
  tasks-Serial s t start run =
      let h = Reach-Inv start run in
      (h.serial, h.told, λ i j first second. ground (arith, h.locked i first, h.locked j second))
