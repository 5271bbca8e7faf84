-- ===== src/Tests/Keys.antt =====
-- Runs of fastapi_m8/_api_key.py.
use fastapi_m.Base.{
  ℕ, suc, ◌≡◌, ◌≢◌, ◌≤◌, ◌+◌, refl, true, false, none, some, [], ◌∷◌, arith, leb, length, All,
  if◌then◌else◌,
}
use fastapi_m.Base.Exec.{ok, raise}
use fastapi_m.Http.{connect, other}
use fastapi_m.InternalAuth.{
  static_auth, headers, invalidate, InternalAuth, service_auth, service_token, service_headers,
  ensure_token, exchange_token,
}
use fastapi_m.ApiKey.Breaker.{CircuitBreaker, allows_call, record_success, record_failure}
use fastapi_m.ApiKey.Breaker as Breaker
use fastapi_m.ApiKey.Breaker.Laws.{IsValid, init-IsValid, ask_at, half_open}
use fastapi_m.ApiKey.Client.{
  ApiKeyClient, Issuer, uncaught, Received, active, failed, read_chunks, receive, transmit,
  note_failure, give_up, retry, send, accept, read_reply, read_body, interpret, send_in_slot, admit,
  ask_issuer, introspect,
}
use fastapi_m.ApiKey.Client.Soundness.{Backs, at_send, introspect-Backs}
use fastapi_m.ApiKey.Client.Effort.{counting_streams, introspect-once}
use fastapi_m.ApiKey.Client.Uncaught.{introspect_uncaught}
use fastapi_m.ApiKey.Client.Recovery.{half_open_client, closed_client, introspect_recovers}
use fastapi_m.ApiKey.Client.Slots.{introspect-free}
use fastapi_m.ApiKey.Client.Chunks.{joined, read_chunks_lem}
use fastapi_m.Tests.Data.{net}

abbrev pub client : ApiKeyClient
client = record {
  url = [];
  auth = static_auth [];
  audience_id = "shop";
  schema_version = "1";
  max_response_bytes = 8;
  breaker = record { threshold = 2; reset = 30; failures = 0; opened_at = none };
}

-- an issuer that grants the principal 7, with a semaphore that is always free
abbrev pub issuer : Issuer ℕ ℕ
issuer = record {
  net = net;
  stream = λ request w. (
    ok (record { status_code = 200; chunks = (1 ∷ []) ∷ []; broken = none; retry_after = none }),
    suc w,
  );
  acquire = λ w. (true, w);
  release = λ w. w;
  is_request = λ key version. true;
  read_reply = λ payload. some (active "shop" 7);
}

program : Unit {0}
unfolding introspect ask_issuer admit send_in_slot send retry give_up note_failure transmit receive
    read_chunks interpret read_body read_reply accept headers invalidate allows_call record_success
    record_failure
program = tt

granted : introspect issuer "key" (client, 5) ≡ (ok (some 7), (client, 6))
unfolding program
granted = refl

introspect-Backs_example :
    (received : Received) × ((send issuer "key" (at_send issuer (client, 5))).0 ≡ ok received)
    × Backs issuer "shop" received (some 7)
introspect-Backs_example = introspect-Backs issuer "key" client 5 (some 7) (client, 6) granted

reached :
    (transmit
      (counting_streams issuer)
      "key"
      (at_send (counting_streams issuer) (client, (0, 5)))).0
    ≢ raise (failed connect)
unfolding program
reached p = absurd (ground arith)

introspect-once_example :
    (introspect (counting_streams issuer) "key" (client, (0, 5))).1.1.0 ≤ 0 + 1
introspect-once_example = introspect-once issuer "key" client 0 5 reached

-- a world with a clock and the value of the semaphore, where there are free slots
abbrev slotted : Issuer (ℕ × ℕ) ℕ
slotted = record {
  net = record {
    monotonic = λ s. (s.0, (suc s.0, s.1));
    post = λ request s. (raise connect, s);
    is_success = λ code. true;
    read_token = λ content. none;
    read_status = λ content. none;
  };
  stream = λ request s. (raise connect, (suc s.0, s.1));
  acquire = λ s. elim s.1 [ ℕ.zero ↦ (false, s) | suc n ↦ (true, (s.0, n)) ];
  release = λ s. (s.0, suc s.1);
  is_request = λ key version. true;
  read_reply = λ payload. none;
}

abbrev free : ℕ × ℕ → ℕ
free s = s.1

taken : (s : ℕ × ℕ) → (slotted.acquire s).0 ≡ true → suc (free (slotted.acquire s).1) ≡ free s
taken (t, ℕ.zero) h = absurd (ground arith)
taken (t, suc n) h = refl

refused : (s : ℕ × ℕ) → (slotted.acquire s).0 ≡ false → free (slotted.acquire s).1 ≡ free s
refused (t, ℕ.zero) h = refl
refused (t, suc n) h = absurd (ground arith)

introspect-free_example : free (introspect slotted "key" (client, (5, 3))).1.1 ≡ free (5, 3)
introspect-free_example =
    introspect-free slotted free (λ s. refl) (λ request s. refl) (λ request s. omega arith) taken
      refused (λ s. refl) "key" client (5, 3)

abbrev streak : CircuitBreaker
streak = record client.breaker { failures = 1 }

abbrev broken : ApiKeyClient
broken = record client { breaker = record_failure 3 streak }

breaker-IsValid : IsValid (Breaker.init 2 30)
breaker-IsValid = init-IsValid 2 30 (omega arith)

abbrev tripped : CircuitBreaker
tripped = record { threshold = 2; reset = 30; failures = 2; opened_at = some 3 }

tripped-IsValid : IsValid tripped
tripped-IsValid = record { positive = omega arith; streak = refl }

half_open_example :
    All (λ answer. answer ≡ true) (ask_at (40 ∷ 41 ∷ 42 ∷ []) tripped).0
    × ((record_failure 43 (ask_at (40 ∷ 41 ∷ 42 ∷ []) tripped).1).opened_at ≡ some 43)
half_open_example = half_open tripped 3 40 43 (41 ∷ 42 ∷ []) tripped-IsValid refl (omega arith)

read_chunks_lem_example : read_chunks 2 [] ((1 ∷ []) ∷ (2 ∷ 3 ∷ []) ∷ []) ≡ (
    if leb (length (joined ((1 ∷ []) ∷ (2 ∷ 3 ∷ []) ∷ []))) 2
    then some (joined ((1 ∷ []) ∷ (2 ∷ 3 ∷ []) ∷ []))
    else none)
read_chunks_lem_example = read_chunks_lem 2 ((1 ∷ []) ∷ (2 ∷ 3 ∷ []) ∷ [])

-- a client whose token exchange gets a reply that is no token
abbrev bootstrap : InternalAuth
bootstrap = service_auth (service_token "shop" "secret" [] [] 5)

abbrev exchanging : ApiKeyClient
exchanging = record client { auth = bootstrap }

abbrev garbled : Issuer ℕ ℕ
garbled = record issuer { net = record net { read_token = λ content. none } }

garbled_token : headers garbled.net (bootstrap, 5) ≡ (raise other, (bootstrap, 6))
unfolding headers service_headers ensure_token exchange_token service_token
garbled_token = refl

introspect_uncaught_example :
    introspect garbled "key" (exchanging, 5) ≡ (raise (uncaught other), (exchanging, 6))
introspect_uncaught_example =
    introspect_uncaught garbled "key" exchanging bootstrap 5 6 refl refl refl garbled_token

-- a client whose circuit was opened at 5
abbrev opened : ApiKeyClient
opened = record client {
  breaker = record { threshold = 2; reset = 30; failures = 2; opened_at = some 5 };
}

abbrev answer : Received
answer = record { status_code = 200; payload = 1 ∷ []; retry_after = none }

trial :
    transmit issuer "key" (half_open_client issuer opened, 41)
    ≡ (ok answer, (half_open_client issuer opened, 42))
unfolding program
trial = refl

introspect_recovers_example :
    introspect issuer "key" (opened, 40)
    ≡ (ok (some 7), (closed_client issuer (half_open_client issuer opened), 42))
introspect_recovers_example =
    introspect_recovers issuer "key" opened (half_open_client issuer opened) 40 41 41 42 5 40 answer
      7 refl refl refl (omega arith) refl trial refl refl
