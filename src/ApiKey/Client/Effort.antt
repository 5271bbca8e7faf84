-- ===== src/ApiKey/Client/Effort.antt =====
-- How often a key is sent: fastapi_m8/_api_key.py, `ApiKeyIntrospectionClient`.
use fastapi_m.Base.{
  ℕ, suc, ◌+◌, ◌-◌, ◌≤◌, ◌<◌, some, String, ◌≡◌, ◌≢◌, refl, ap, Bool, true, false, arith,
  if◌then◌else◌, Bool-cases, nat_eq, string_eq, inl, inr, ◌∙◌,
}
use fastapi_m.Base.Exec.{Result, ok, raise, continue, fail, ◌>>=◌}
use fastapi_m.Http.{connect}
use fastapi_m.ApiKey.Breaker.{CircuitBreaker, allows_call, record_failure}
use fastapi_m.ApiKey.Client.Measure.{send-measure, continue-interpret-measure, admit-measure}
use fastapi_m.ApiKey.Breaker.Laws.{still_open}
use fastapi_m.ApiKey.Client.Soundness.{at_send}
use fastapi_m.ApiKey.Client.Validated.{introspect_valid, introspect_invalid}
use fastapi_m.ApiKey.Client.{
  ApiKeyClient, Issuer, ApiKeyError, introspection, failed, transmit, interpret, send_in_slot,
  admit, ask_issuer, introspect,
}

-- an issuer that counts the introspection requests that are sent to it
abbrev pub counting_streams : {W P : Type 0} → Issuer W P → Issuer (ℕ × W) P
counting_streams issuer = record {
  net = record {
    monotonic = λ s. let (t, w) = issuer.net.monotonic s.1 in (t, (s.0, w));
    post = λ request s. let (r, w) = issuer.net.post request s.1 in (r, (s.0, w));
    is_success = issuer.net.is_success;
    read_token = issuer.net.read_token;
    read_status = issuer.net.read_status;
  };
  stream = λ request s. let (r, w) = issuer.stream request s.1 in (r, (suc s.0, w));
  acquire = λ s. let (granted, w) = issuer.acquire s.1 in (granted, (s.0, w));
  release = λ s. (s.0, issuer.release s.1);
  is_request = issuer.is_request;
  read_reply = issuer.read_reply;
}

module _ {W P : Type 0} (issuer : Issuer W P) (key : String) where
  abbrev counted : Issuer (ℕ × W) P
  counted = counting_streams issuer

  abbrev count : ℕ × W → ℕ
  count s = s.0

  send_in_slot-count :
      (c : ApiKeyClient) (n : ℕ) (w : W)
      → let v = (issuer.acquire w).1 in
        ((send_in_slot counted key (c, (n, w))).1.1.0 ≤ n + 2)
        × ((transmit counted key (c, (n, v))).0 ≢ raise (failed connect)
            → (send_in_slot counted key (c, (n, w))).1.1.0 ≤ n + 1)
  unfolding send_in_slot
  send_in_slot-count c n w =
      let v = (issuer.acquire w).1 in
      let (more, most, once) =
        send-measure counted count 1 (λ s. refl) (λ request s. refl) (λ request s. omega arith) key
          c (n, v) in
      (
        ground (arith, Bool-cases (issuer.acquire w).0, most),
        λ reached. ground (arith, Bool-cases (issuer.acquire w).0, once reached),
      )

  body-count :
      (n : ℕ) (r : Result ApiKeyError Bool × (ApiKeyClient × (ℕ × W)))
      → r.1.1.0 ≡ n
      → let end =
          continue
            (λ admitted.
              if admitted
              then (do received ← send_in_slot counted key; interpret counted received)
              else fail (introspection "circuit_open"))
            r in
        (end.1.1.0 ≤ n + 2)
        × ((transmit counted key (r.1.0, (counted.acquire r.1.1).1)).0 ≢ raise (failed connect)
            → end.1.1.0 ≤ n + 1)
  body-count n (raise e, s) h = (omega arith, λ _. omega arith)
  body-count n (ok false, s) h = (omega arith, λ _. omega arith)
  body-count n (ok true, (c, (k, w))) h =
      let (most, once) = send_in_slot-count c k w in
      let same =
        continue-interpret-measure counted count 1 (λ s. refl) (λ request s. refl)
          (λ request s. omega arith) (send_in_slot counted key (c, (k, w))) in
      (omega arith, λ reached. let fewer = once reached in omega arith)

  asked-count :
      (c : ApiKeyClient) (n : ℕ) (w : W)
      → ((ask_issuer counted key (c, (n, w))).1.1.0 ≤ n + 2)
        × ((transmit counted key (at_send counted (c, (n, w)))).0 ≢ raise (failed connect)
            → (ask_issuer counted key (c, (n, w))).1.1.0 ≤ n + 1)
  unfolding ask_issuer
  asked-count c n w = body-count n (admit counted (c, (n, w))) (
      admit-measure counted count 1 (λ s. refl) (λ request s. refl) (λ request s. omega arith) c
        (n, w))

  call-count :
      (c : ApiKeyClient) (n : ℕ) (w : W)
      → ((introspect counted key (c, (n, w))).1.1.0 ≤ n + 2)
        × ((transmit counted key (at_send counted (c, (n, w)))).0 ≢ raise (failed connect)
            → (introspect counted key (c, (n, w))).1.1.0 ≤ n + 1)
  call-count c n w = elim (Bool-cases (issuer.is_request key c.schema_version)) [
    | inl valid ↦ rw (introspect_valid counted key c (n, w) valid) (asked-count c n w)
    | inr bad ↦
        rw (introspect_invalid counted key c (n, w) bad) ((omega arith, λ reached. omega arith))
  ]

  -- One call sends the key at most twice, whatever the peers do.
  introspect-count :
      (c : ApiKeyClient) (n : ℕ) (w : W)
      → (introspect (counting_streams issuer) key (c, (n, w))).1.1.0 ≤ n + 2
  introspect-count c n w = (call-count c n w).0

  -- The key is sent at most once, unless the first attempt ended before a connection was established:
  -- a request that may have reached the issuer is never sent again.
  pub introspect-once :
      (c : ApiKeyClient) (n : ℕ) (w : W)
      → (transmit (counting_streams issuer) key (at_send (counting_streams issuer) (c, (n, w)))).0
        ≢ raise (failed connect)
      → (introspect (counting_streams issuer) key (c, (n, w))).1.1.0 ≤ n + 1
  introspect-once c n w reached = (call-count c n w).1 reached

  admit_open :
      (c : ApiKeyClient) (opened : ℕ) (w : W)
      → c.breaker.opened_at ≡ some opened
      → allows_call (issuer.net.monotonic w).0 c.breaker ≡ (false, c.breaker)
      → admit issuer (c, w) ≡ (ok false, (c, (issuer.net.monotonic w).1))
  unfolding admit
  admit_open c opened w is_open denied = ground (arith, denied)

  -- Within the reset time after the failure that completed a streak, a call is refused without a
  -- request: only the clock is read, and the client is left as it is.
  introspect_open :
      (b : CircuitBreaker) (failed_at : ℕ) (c : ApiKeyClient) (w : W)
      → issuer.is_request key c.schema_version ≡ true
      → c.breaker ≡ record_failure failed_at b
      → b.threshold ≤ b.failures + 1
      → (issuer.net.monotonic w).0 - failed_at < b.reset
      → introspect issuer key (c, w)
        ≡ (raise (introspection "circuit_open"), (c, (issuer.net.monotonic w).1))
  unfolding ask_issuer
  introspect_open b failed_at c w valid broken streak early =
      let (is_open, denied) = still_open b failed_at (issuer.net.monotonic w).0 streak early in
      introspect_valid issuer key c w valid
      ∙ ap
          (continue (λ admitted.
            if admitted
            then (do received ← send_in_slot issuer key; interpret issuer received)
            else fail (introspection "circuit_open")))
          (admit_open c failed_at w (rw (broken) is_open) (rw (broken) denied))
