-- ===== src/ApiKey/Client/Recovery.antt =====
-- How an open circuit is left again: fastapi_m8/_api_key.py, `introspect`.
use fastapi_m.Base.{
  ℕ, ◌-◌, ◌≤◌, String, ◌≡◌, ◌∙◌, refl, true, none, some, arith, nat_eq, string_eq, eq_refl,
}
use fastapi_m.Base.Exec.{ok}
use fastapi_m.ApiKey.Breaker.{allows_call, record_success}
use fastapi_m.ApiKey.Client.Validated.{introspect_valid}
use fastapi_m.ApiKey.Client.{
  ApiKeyClient, active, Issuer, Received, transmit, send, accept, read_reply, read_body, interpret,
  send_in_slot, admit, ask_issuer, introspect,
}

module _ {W P : Type 0} (issuer : Issuer W P) where
  -- the trial call is let through with a count one short of the threshold
  abbrev pub half_open_client : ApiKeyClient → ApiKeyClient
  half_open_client c = record c {
    breaker = record c.breaker { failures = c.breaker.threshold - 1; opened_at = none };
  }

  -- the circuit is closed, and no failure is counted
  abbrev pub closed_client : ApiKeyClient → ApiKeyClient
  closed_client c = record c { breaker = record c.breaker { failures = 0; opened_at = none } }

  admit_due :
      (c : ApiKeyClient) (w w' : W) (opened t : ℕ)
      → c.breaker.opened_at ≡ some opened
      → issuer.net.monotonic w ≡ (t, w')
      → c.breaker.reset ≤ t - opened
      → admit issuer (c, w) ≡ (ok true, (half_open_client c, w'))
  unfolding admit allows_call
  admit_due c w w' opened t is_open clock due = ground (arith, is_open, clock)

  send_first :
      (key : String) (c c' : ApiKeyClient) (w w' w'' : W) (r : Received)
      → issuer.acquire w ≡ (true, w')
      → transmit issuer key (c, w') ≡ (ok r, (c', w''))
      → send_in_slot issuer key (c, w) ≡ (ok r, (c', issuer.release w''))
  unfolding send_in_slot send
  send_first key c c' w w' w'' r granted sent = rw granted (rw sent refl)

  interpret_active :
      (c : ApiKeyClient) (w : W) (r : Received) (p : P)
      → r.status_code ≡ 200
      → issuer.read_reply r.payload ≡ some (active c.audience_id p)
      → interpret issuer r (c, w) ≡ (ok (some p), (closed_client c, w))
  unfolding interpret read_body read_reply accept record_success
  interpret_active c w r p fine known = ground (arith, fine, known, eq_refl c.audience_id)

  -- An open circuit recovers: a call with a valid request that comes when the reset time is over, and gets a slot, is sent;
  -- if the issuer answers it with an active principal for this audience, the caller gets that
  -- principal, the circuit is closed with no failure counted, and the slot is free again.
  pub introspect_recovers :
      (key : String) (c c' : ApiKeyClient) (w w1 w2 w3 : W) (opened t : ℕ) (r : Received) (p : P)
      → issuer.is_request key c.schema_version ≡ true
      → c.breaker.opened_at ≡ some opened
      → issuer.net.monotonic w ≡ (t, w1)
      → c.breaker.reset ≤ t - opened
      → issuer.acquire w1 ≡ (true, w2)
      → transmit issuer key (half_open_client c, w2) ≡ (ok r, (c', w3))
      → r.status_code ≡ 200
      → issuer.read_reply r.payload ≡ some (active c'.audience_id p)
      → introspect issuer key (c, w) ≡ (ok (some p), (closed_client c', issuer.release w3))
  unfolding ask_issuer
  introspect_recovers key c c' w w1 w2 w3 opened t r p valid is_open clock due granted sent fine
        known =
      introspect_valid issuer key c w valid
      ∙ rw (admit_due c w w1 opened t is_open clock due) (
          rw (send_first key (half_open_client c) c' w1 w2 w3 r granted sent)
            (interpret_active c' (issuer.release w3) r p fine known))
