-- ===== src/ApiKey/Client/Slots.antt =====
-- The semaphore around a request: fastapi_m8/_api_key.py, `_SemaphoreSlot` and `introspect`.
use fastapi_m.Base.{
  ℕ, suc, ◌+◌, String, ◌≡◌, ◌∙◌, Bool, true, false, arith, Bool-cases, inl, inr, if◌then◌else◌,
  refl,
}
use fastapi_m.Base.Exec.{Result, ok, raise, continue, fail, ◌>>=◌}
use fastapi_m.Http.{Request}
use fastapi_m.ApiKey.Client.Validated.{introspect_valid, introspect_invalid}
use fastapi_m.ApiKey.Client.{
  ApiKeyClient, Issuer, ApiKeyError, introspection, send, interpret, send_in_slot, admit,
  ask_issuer, introspect,
}
use fastapi_m.ApiKey.Client.Measure.{send-measure, continue-interpret-measure, admit-measure}

-- `free` is the value of the semaphore: a slot that is granted is one less, a wait that times out
-- changes nothing, a release is one more, and a request of the process itself leaves it alone.
module _ {W P : Type 0} (issuer : Issuer W P) (free : W → ℕ)
    (clock : (w : W) → free (issuer.net.monotonic w).1 ≡ free w)
    (post : (request : Request) (w : W) → free (issuer.net.post request w).1 ≡ free w)
    (stream : (request : Request) (w : W) → free (issuer.stream request w).1 ≡ free w + 0)
    (taken : (w : W) → (issuer.acquire w).0 ≡ true → suc (free (issuer.acquire w).1) ≡ free w)
    (refused : (w : W) → (issuer.acquire w).0 ≡ false → free (issuer.acquire w).1 ≡ free w)
    (released : (w : W) → free (issuer.release w) ≡ suc (free w)) where
  send_in_slot-free :
      (key : String) (c : ApiKeyClient) (w : W) → free (send_in_slot issuer key (c, w)).1.1 ≡ free w
  unfolding send_in_slot
  send_in_slot-free key c w =
      let w' = (issuer.acquire w).1 in
      let s = (send issuer key (c, w')).1 in
      let (more, most, _) = send-measure issuer free 0 clock post stream key c w' in
      elim (Bool-cases (issuer.acquire w).0) [
        | inl granted ↦ ground (arith, granted, taken w granted, released s.1, more, most)
        | inr shed ↦ ground (arith, shed, refused w shed)
      ]

  body-free :
      (key : String) (n : ℕ) (r : Result ApiKeyError Bool × (ApiKeyClient × W))
      → free r.1.1 ≡ n
      → free
          (continue
            (λ admitted.
              if admitted
              then (do received ← send_in_slot issuer key; interpret issuer received)
              else fail (introspection "circuit_open"))
            r).1.1
        ≡ n
  body-free key n (raise e, s) h = h
  body-free key n (ok false, s) h = h
  body-free key n (ok true, (c, w)) h =
      continue-interpret-measure issuer free 0 clock post stream (send_in_slot issuer key (c, w))
      ∙ send_in_slot-free key c w
      ∙ h

  -- Where the semaphore counts as it should, a call leaves it as it found it: the slot is given back
  -- on every way out, an answer, a refusal, a lost connection or an exception of the credentials,
  -- and a call that was shed gives back nothing.
  pub introspect-free :
      (key : String) (c : ApiKeyClient) (w : W) → free (introspect issuer key (c, w)).1.1 ≡ free w
  unfolding ask_issuer
  introspect-free key c w = elim (Bool-cases (issuer.is_request key c.schema_version)) [
    | inl valid ↦ rw (introspect_valid issuer key c w valid) (
        body-free key (free w) (admit issuer (c, w))
          (admit-measure issuer free 0 clock post stream c w))
    | inr bad ↦ rw (introspect_invalid issuer key c w bad) refl
  ]
