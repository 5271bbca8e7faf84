-- ===== src/ApiKey/Tasks/Bounds.antt =====
-- How many requests are under way at once, and the circuit: fastapi_m8/_api_key.py.
use fastapi_m.Base.{ℕ, zero, suc, ◌+◌, ◌≤◌, ◌<◌, ◌≡◌, refl, Option, none, some, arith, nat_eq}
use fastapi_m.Base.Exec.{Result, ok, raise, continue}
use fastapi_m.ApiKey.Breaker.{record_success}
use fastapi_m.ApiKey.Breaker.Laws.{
  Circuit, allows_call-Circuit, record_success-Circuit, record_failure-Circuit,
}
use fastapi_m.ApiKey.Client.{
  ApiKeyClient, Issuer, ApiKeyError, introspection, TransmitError, too_large, failed, Received,
  note_failure, give_up, admit, accept, read_reply, read_body, interpret, ApiKeyReply, inactive,
  active,
}
use fastapi_m.ApiKey.Tasks.{
  Semaphore, Pc, idle, sending, answered, cancelled, pc_after, System, update, conclude, Step,
  asked, granted, shed, concluded, cancelled_waiting, cancelled_sending, mover, Reach, here, next,
}

abbrev is_sending : {P : Type 0} → Pc P → ℕ
is_sending sending = 1
is_sending _ = 0

module _ {P : Type 0} where
  -- how many of the calls below `n` have a slot
  pub in_flight : ℕ → (ℕ → Pc P) → ℕ
  in_flight zero calls = 0
  in_flight (suc n) calls = is_sending (calls n) + in_flight n calls

  in_flight-outside :
      (n i : ℕ) (calls : ℕ → Pc P) (pc : Pc P)
      → n ≤ i
      → in_flight n (update calls i pc) ≡ in_flight n calls
  unfolding in_flight
  in_flight-outside zero i calls pc le = refl
  in_flight-outside (suc n) i calls pc le = ground (arith, in_flight-outside n i calls pc)

  in_flight-update :
      (n i : ℕ) (calls : ℕ → Pc P) (pc : Pc P)
      → i < n
      → in_flight n (update calls i pc) + is_sending (calls i) ≡ in_flight n calls + is_sending pc
  unfolding in_flight
  in_flight-update zero i calls pc lt = absurd (omega arith)
  in_flight-update (suc n) i calls pc lt =
      ground (arith, in_flight-update n i calls pc, in_flight-outside n i calls pc)

module _ {W P : Type 0} (issuer : Issuer W P) (threshold reset : ℕ) where
  note_failure-Circuit :
      (c : ApiKeyClient) (w : W)
      → Circuit threshold reset c.breaker
      → Circuit threshold reset (note_failure issuer (c, w)).1.0.breaker
  unfolding note_failure
  note_failure-Circuit c w h = ground (
    arith,
    record_failure-Circuit threshold reset 0 c.breaker h,
    record_failure-Circuit threshold reset (issuer.net.monotonic w).0 c.breaker h,
  )

  give_up-Circuit :
      (e : TransmitError) (c : ApiKeyClient) (w : W)
      → Circuit threshold reset c.breaker
      → Circuit threshold reset (give_up issuer e (c, w)).1.0.breaker
  unfolding give_up
  give_up-Circuit too_large c w h = h
  give_up-Circuit (failed e) c w h = ground (arith, note_failure-Circuit c w h)

  accept-Circuit :
      (reply : ApiKeyReply P) (c : ApiKeyClient) (w : W)
      → Circuit threshold reset c.breaker
      → Circuit threshold reset (accept issuer reply (c, w)).1.0.breaker
  unfolding accept
  accept-Circuit inactive c w h = h
  accept-Circuit (active audience principal) c w h = ground arith

  read_reply-Circuit :
      (reply : Option (ApiKeyReply P)) (c : ApiKeyClient) (w : W)
      → Circuit threshold reset c.breaker
      → Circuit threshold reset (read_reply issuer reply (c, w)).1.0.breaker
  unfolding read_reply
  read_reply-Circuit none c w h = h
  read_reply-Circuit (some reply) c w h =
      accept-Circuit reply (record c { breaker = record_success c.breaker }) w
        (record_success-Circuit threshold reset c.breaker h)

  interpret-Circuit :
      (r : Received) (c : ApiKeyClient) (w : W)
      → Circuit threshold reset c.breaker
      → Circuit threshold reset (interpret issuer r (c, w)).1.0.breaker
  unfolding interpret read_body
  interpret-Circuit r c w h =
      ground
        (arith, note_failure-Circuit c w h, read_reply-Circuit (issuer.read_reply r.payload) c w h)

  interpreted-Circuit :
      (r : Result ApiKeyError Received × (ApiKeyClient × W))
      → Circuit threshold reset r.1.0.breaker
      → Circuit threshold reset (continue (interpret issuer) r).1.0.breaker
  interpreted-Circuit (ok r, (c, w)) h = interpret-Circuit r c w h
  interpreted-Circuit (raise e, (c, w)) h = h

  conclude-Circuit :
      (reply : Result TransmitError Received) (c : ApiKeyClient) (w : W)
      → Circuit threshold reset c.breaker
      → Circuit threshold reset (conclude issuer reply (c, w)).1.0.breaker
  unfolding conclude
  conclude-Circuit (ok r) c w h = interpret-Circuit r c w h
  conclude-Circuit (raise e) c w h =
      interpreted-Circuit (give_up issuer e (c, w)) (give_up-Circuit e c w h)

  admit-Circuit :
      (c : ApiKeyClient) (w : W)
      → Circuit threshold reset c.breaker
      → Circuit threshold reset (admit issuer (c, w)).1.0.breaker
  unfolding admit
  admit-Circuit c w h =
      ground (arith, allows_call-Circuit threshold reset (issuer.net.monotonic w).0 c.breaker h)

  module _ {S : Type 0} (sem : Semaphore S) (most n : ℕ) where
    -- every slot is free or held by a call, and the circuit is open exactly at the end of a streak
    pub record Inv (s : System S P) : Type 0 where
      pub slots : sem.value s.semaphore + in_flight n s.calls ≡ most
      pub circuit : Circuit threshold reset s.client.breaker

    Step-Inv :
        {s t : System S P} (step : Step issuer sem s t) → mover issuer sem step < n → Inv s → Inv t
    Step-Inv {s} (asked i w e) lt h = record {
      slots = ground (
        arith,
        h.slots,
        in_flight-update n i s.calls (pc_after (admit issuer (s.client, w)).0) lt,
      );
      circuit = admit-Circuit s.client w h.circuit;
    }
    Step-Inv {s} (granted i semaphore e a) lt h = record {
      slots = ground (
        arith,
        h.slots,
        in_flight-update n i s.calls sending lt,
        sem.taken s.semaphore semaphore a,
      );
      circuit = h.circuit;
    }
    Step-Inv {s} (shed i e) lt h = record {
      slots = ground (
        arith,
        h.slots,
        in_flight-update n i s.calls (answered (raise (introspection "load_shed"))) lt,
      );
      circuit = h.circuit;
    }
    Step-Inv {s} (concluded i reply auth w e) lt h = record {
      slots = ground (
        arith,
        h.slots,
        in_flight-update n i s.calls
            (answered (conclude issuer reply (record s.client { auth = auth }, w)).0) lt,
        sem.released s.semaphore,
      );
      circuit = conclude-Circuit reply (record s.client { auth = auth }) w h.circuit;
    }
    Step-Inv {s} (cancelled_waiting i e) lt h = record {
      slots = ground (arith, h.slots, in_flight-update n i s.calls cancelled lt);
      circuit = h.circuit;
    }
    Step-Inv {s} (cancelled_sending i auth e) lt h = record {
      slots =
          ground
            (arith, h.slots, in_flight-update n i s.calls cancelled lt, sem.released s.semaphore);
      circuit = h.circuit;
    }

    in_flight-idle : (m : ℕ) (calls : ℕ → Pc P) → ((i : ℕ) → calls i ≡ idle) → in_flight m calls ≡ 0
    unfolding in_flight
    in_flight-idle zero calls h = refl
    in_flight-idle (suc m) calls h = ground (arith, h m, in_flight-idle m calls h)

    Reach-Inv : {s t : System S P} → Inv s → Reach issuer sem n s t → Inv t
    Reach-Inv h here = h
    Reach-Inv h (next before step lt) = Step-Inv step lt (Reach-Inv h before)

    -- However the calls of a client are interleaved, and whether they end by an answer, by an
    -- exception, by a timeout or by a cancellation: the free slots of the semaphore and the calls that
    -- are sending make up the slots that there were. So no more than these are sending at once, and no
    -- slot is lost. And the breaker stays valid, and keeps its settings.
    pub tasks_bounded :
        (s t : System S P)
        → ((i : ℕ) → s.calls i ≡ idle)
        → sem.value s.semaphore ≡ most
        → Circuit threshold reset s.client.breaker
        → Reach issuer sem n s t
        → (sem.value t.semaphore + in_flight n t.calls ≡ most)
          × Circuit threshold reset t.client.breaker
    tasks_bounded s t idle' full circuit run =
        let start : Inv s = record {
          slots = omega (arith, full, in_flight-idle n s.calls idle');
          circuit = circuit;
        } in
        let h = Reach-Inv start run in (h.slots, h.circuit)
