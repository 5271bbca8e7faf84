-- ===== src/ApiKey/Client/Soundness.antt =====
-- What an answer of `introspect` rests on: fastapi_m8/_api_key.py, `ApiKeyIntrospectionClient`.
use mathlib.Core.Path.{subst}
use fastapi_m.Base.{
  ℕ, String, ◌≡◌, refl, sym, ap, ◌∙◌, Bool, true, false, Option, none, some, List, arith, eq_iff,
  ◌==◌, nat_eq, string_eq, if◌then◌else◌, Bool-cases, Option-cases, inl, inr,
}
use fastapi_m.Base.Exec.{Result, ok, raise, handle, continue, fail, ◌>>=◌}
use fastapi_m.ApiKey.Breaker.{record_success}
use fastapi_m.Http.{http_status, connect, transport, other}
use fastapi_m.ApiKey.Client.Validated.{introspect_valid, introspect_invalid}
use fastapi_m.ApiKey.Client.{
  ApiKeyClient, ApiKeyReply, inactive, active, Issuer, ApiKeyError, introspection, TransmitError,
  too_large, failed, Received, transmit, note_failure, give_up, retry, send, accept, read_reply,
  read_body, interpret, send_in_slot, admit, ask_issuer, introspect,
}

module _ {W P : Type 0} (issuer : Issuer W P) where
  -- The issuer's reply backs the answer: a `200` whose body is a valid reply, inactive where the key
  -- is denied, and active for this very consumer where there is a principal.
  pub data Backs (audience_id : String) (r : Received) : Option P → Type 0 where
    denied :
        r.status_code ≡ 200 → issuer.read_reply r.payload ≡ some inactive → Backs audience_id r none
    granted :
        (principal : P)
        → r.status_code ≡ 200
        → issuer.read_reply r.payload ≡ some (active audience_id principal)
        → Backs audience_id r (some principal)

  accept-Backs :
      (r : Received) (reply : ApiKeyReply P) (c d : ApiKeyClient) (w w' : W) (answer : Option P)
      → r.status_code ≡ 200
      → issuer.read_reply r.payload ≡ some reply
      → accept issuer reply (c, w) ≡ (ok answer, (d, w'))
      → Backs c.audience_id r answer
  unfolding accept
  accept-Backs r inactive c d w w' none status read p = denied status read
  accept-Backs r inactive c d w w' (some principal) status read p = absurd (ground arith)
  accept-Backs r (active audience q) c d w w' none status read p = absurd (ground arith)
  accept-Backs r (active audience q) c d w w' (some principal) status read p =
      granted principal status (ground (arith, eq_iff audience c.audience_id))

  read_body-some :
      (payload : List ℕ) (reply : ApiKeyReply P) (c : ApiKeyClient) (w : W)
      → issuer.read_reply payload ≡ some reply
      → read_body issuer payload (c, w)
        ≡ accept issuer reply (record c { breaker = record_success c.breaker }, w)
  unfolding read_body read_reply
  read_body-some payload reply c w read = ap (λ o. read_reply issuer o (c, w)) read

  read_body-Backs :
      (r : Received) (c d : ApiKeyClient) (w w' : W) (answer : Option P)
      → r.status_code ≡ 200
      → read_body issuer r.payload (c, w) ≡ (ok answer, (d, w'))
      → Backs c.audience_id r answer
  unfolding read_body read_reply
  read_body-Backs r c d w w' answer status p = elim (Option-cases (issuer.read_reply r.payload)) [
    | inl none_read ↦ absurd (ground (arith, none_read))
    | inr (reply, read) ↦
        let c' : ApiKeyClient = record c { breaker = record_success c.breaker } in
        accept-Backs r reply c' d w w' answer status read
          (sym (read_body-some r.payload reply c w read) ∙ p)
  ]

  interpret_success :
      (r : Received) (c : ApiKeyClient) (w : W)
      → r.status_code ≡ 200
      → interpret issuer r (c, w) ≡ read_body issuer r.payload (c, w)
  unfolding interpret
  interpret_success r c w status = simp (status)

  interpret-Backs :
      (r : Received) (c d : ApiKeyClient) (w w' : W) (answer : Option P)
      → interpret issuer r (c, w) ≡ (ok answer, (d, w'))
      → Backs c.audience_id r answer
  unfolding interpret
  interpret-Backs r c d w w' answer p = elim (Bool-cases (r.status_code == 200)) [
    | inl is_ok ↦
        let status : r.status_code ≡ 200 = ground (arith, is_ok) in
        read_body-Backs r c d w w' answer status (sym (interpret_success r c w status) ∙ p)
    | inr not_ok ↦ absurd (ground (arith, not_ok))
  ]

  transmit-audience :
      (key : String) (c : ApiKeyClient) (w : W)
      → (transmit issuer key (c, w)).1.0.audience_id ≡ c.audience_id
  unfolding transmit
  transmit-audience key c w = ground arith

  note_failure-audience :
      (c : ApiKeyClient) (w : W) → (note_failure issuer (c, w)).1.0.audience_id ≡ c.audience_id
  unfolding note_failure
  note_failure-audience c w = ground arith

  give_up-audience :
      (e : TransmitError) (c : ApiKeyClient) (w : W)
      → (give_up issuer e (c, w)).1.0.audience_id ≡ c.audience_id
  unfolding give_up
  give_up-audience too_large c w = refl
  give_up-audience (failed e) c w = ground (arith, note_failure-audience c w)

  handle-give_up-audience :
      (audience : String) (r : Result TransmitError Received × (ApiKeyClient × W))
      → r.1.0.audience_id ≡ audience
      → (handle (give_up issuer) r).1.0.audience_id ≡ audience
  handle-give_up-audience audience (ok received, s) h = h
  handle-give_up-audience audience (raise e, (c, w)) h = give_up-audience e c w ∙ h

  retry-audience :
      (key : String) (e : TransmitError) (c : ApiKeyClient) (w : W)
      → (retry issuer key e (c, w)).1.0.audience_id ≡ c.audience_id
  unfolding retry
  retry-audience key too_large c w = give_up-audience too_large c w
  retry-audience key (failed connect) c w =
      handle-give_up-audience c.audience_id (transmit issuer key (c, w)) (transmit-audience key c w)
  retry-audience key (failed (http_status n)) c w = give_up-audience (failed (http_status n)) c w
  retry-audience key (failed transport) c w = give_up-audience (failed transport) c w
  retry-audience key (failed other) c w = give_up-audience (failed other) c w

  handle-retry-audience :
      (key audience : String) (r : Result TransmitError Received × (ApiKeyClient × W))
      → r.1.0.audience_id ≡ audience
      → (handle (retry issuer key) r).1.0.audience_id ≡ audience
  handle-retry-audience key audience (ok received, s) h = h
  handle-retry-audience key audience (raise e, (c, w)) h = retry-audience key e c w ∙ h

  send-audience :
      (key : String) (c : ApiKeyClient) (w : W)
      → (send issuer key (c, w)).1.0.audience_id ≡ c.audience_id
  unfolding send
  send-audience key c w =
      handle-retry-audience key c.audience_id (transmit issuer key (c, w))
        (transmit-audience key c w)

  sent-Backs :
      (audience : String) (answer : Option P) (t : ApiKeyClient × W)
      (r : Result ApiKeyError Received × (ApiKeyClient × W))
      → r.1.0.audience_id ≡ audience
      → continue (interpret issuer) (r.0, (r.1.0, issuer.release r.1.1)) ≡ (ok answer, t)
      → (received : Received) × (r.0 ≡ ok received) × Backs audience received answer
  sent-Backs audience answer t (ok received, (c, w)) h p = (
    received,
    refl,
    subst (λ a. Backs a received answer) h
        (interpret-Backs received c t.0 (issuer.release w) t.1 answer p),
  )
  sent-Backs audience answer t (raise e, s) h p = absurd (ground arith)

  send_granted :
      (key : String) (c : ApiKeyClient) (w : W)
      → (issuer.acquire w).0 ≡ true
      → send_in_slot issuer key (c, w) ≡ (
          let r = send issuer key (c, (issuer.acquire w).1) in (r.0, (r.1.0, issuer.release r.1.1)))
  unfolding send_in_slot
  send_granted key c w h = simp (h)

  slot-Backs :
      (key : String) (c : ApiKeyClient) (w : W) (answer : Option P) (t : ApiKeyClient × W)
      → continue (interpret issuer) (send_in_slot issuer key (c, w)) ≡ (ok answer, t)
      → (received : Received) × ((send issuer key (c, (issuer.acquire w).1)).0 ≡ ok received)
        × Backs c.audience_id received answer
  unfolding send_in_slot
  slot-Backs key c w answer t p = elim (Bool-cases (issuer.acquire w).0) [
    | inl granted_slot ↦
        sent-Backs c.audience_id answer t (send issuer key (c, (issuer.acquire w).1))
          (send-audience key c (issuer.acquire w).1)
          (sym (ap (continue (interpret issuer)) (send_granted key c w granted_slot)) ∙ p)
    | inr shed ↦ absurd (ground (arith, shed))
  ]

  -- the client and the world at the time the request is sent
  abbrev pub at_send : ApiKeyClient × W → ApiKeyClient × W
  at_send s = ((admit issuer s).1.0, (issuer.acquire (admit issuer s).1.1).1)

  admit-audience :
      (c : ApiKeyClient) (w : W) → (admit issuer (c, w)).1.0.audience_id ≡ c.audience_id
  unfolding admit
  admit-audience c w = ground (arith, Option-cases c.breaker.opened_at)

  admitted-Backs :
      (key audience : String) (answer : Option P) (t : ApiKeyClient × W)
      (r : Result ApiKeyError Bool × (ApiKeyClient × W))
      → r.1.0.audience_id ≡ audience
      → continue
          (λ admitted.
            if admitted
            then (do received ← send_in_slot issuer key; interpret issuer received)
            else fail (introspection "circuit_open"))
          r
        ≡ (ok answer, t)
      → (received : Received) × ((send issuer key (r.1.0, (issuer.acquire r.1.1).1)).0
          ≡ ok received)
        × Backs audience received answer
  admitted-Backs key audience answer t (raise e, s) h p = absurd (ground arith)
  admitted-Backs key audience answer t (ok false, s) h p = absurd (ground arith)
  admitted-Backs key audience answer t (ok true, (c, w)) h p =
      let (received, sent, backs) = slot-Backs key c w answer t p in
      (received, sent, subst (λ a. Backs a received answer) h backs)

  -- An answer of `introspect` is the issuer's own word for this very request: whatever the breaker,
  -- the semaphore and the credentials did, a reply was received, its status is `200`, its body is
  -- valid, and it denies the key where the answer is `none`, or grants this consumer the principal
  -- that is answered.
  pub introspect-Backs :
      (key : String) (c : ApiKeyClient) (w : W) (answer : Option P) (t : ApiKeyClient × W)
      → introspect issuer key (c, w) ≡ (ok answer, t)
      → (received : Received) × ((send issuer key (at_send (c, w))).0 ≡ ok received)
        × Backs c.audience_id received answer
  unfolding ask_issuer
  introspect-Backs key c w answer t p = elim (Bool-cases (issuer.is_request key c.schema_version)) [
    | inl valid ↦
        admitted-Backs key c.audience_id answer t (admit issuer (c, w)) (admit-audience c w)
          (sym (introspect_valid issuer key c w valid) ∙ p)
    | inr bad ↦ let never = sym (introspect_invalid issuer key c w bad) ∙ p in absurd (ground arith)
  ]
