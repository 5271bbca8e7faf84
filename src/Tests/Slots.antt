-- ===== src/Tests/Slots.antt =====
-- A run of fastapi_m8/_api_key.py by tasks: two calls of a client that is built from settings.
use fastapi_m.Base.{ℕ, zero, suc, ◌+◌, ◌≤◌, ◌<◌, ◌≡◌, refl, Option, none, some, arith, is_some, leb}
use fastapi_m.ApiKey.Breaker as Breaker
use fastapi_m.ApiKey.Client.{ApiKeyClient, admit}
use fastapi_m.ApiKey.Client.Construction.{Transport}
use fastapi_m.ApiKey.Client.Construction as ApiKey
use fastapi_m.Base.Exec.{ok}
use fastapi_m.Config.{
  construct, check_fields, validate_api_key_introspection, validate_consumer_private_auth,
}
use fastapi_m.ApiKey.Tasks.{
  Semaphore, idle, queued, sending, System, update, Step, asked, granted, Reach, here, next,
}
use fastapi_m.ApiKey.Tasks.Bounds.{in_flight}
use fastapi_m.Deps.Build.{configured_client, build_api_key_client}
use fastapi_m.Deps.Build.Capacity.{capacity_kept}
use fastapi_m.Tests.Data.{settings, supported}
use fastapi_m.Tests.Keys.{issuer}

program : Unit {0}
unfolding admit ApiKey.init Breaker.init construct check_fields validate_api_key_introspection
    validate_consumer_private_auth build_api_key_client
program = tt

abbrev acquire : ℕ → Option ℕ
acquire zero = none
acquire (suc n) = some n

acquire-taken : (n m : ℕ) → acquire n ≡ some m → suc m ≡ n
acquire-taken zero m e = absurd (ground arith)
acquire-taken (suc n) m e = ground arith

abbrev counter : Semaphore ℕ
counter = record {
  value = λ n. n;
  acquire = acquire;
  release = suc;
  taken = acquire-taken;
  released = λ n. refl;
}

abbrev client : ApiKeyClient
client = (configured_client "jti-status" settings).0

abbrev transport : Transport
transport = (configured_client "jti-status" settings).1

abbrev quiet : System ℕ ℕ
quiet = record { client = client; semaphore = 20; calls = λ i. idle }

abbrev waiting : System ℕ ℕ
waiting = record quiet { calls = update quiet.calls 0 queued }

abbrev busy : System ℕ ℕ
busy = record waiting { semaphore = 19; calls = update waiting.calls 0 sending }

abbrev contended : System ℕ ℕ
contended = record busy { calls = update busy.calls 1 queued }

asks : Step issuer counter quiet waiting
unfolding program
asks = asked 0 5 refl

takes : Step issuer counter waiting busy
takes = granted 0 19 refl refl

follows : Step issuer counter busy contended
unfolding program
follows = asked 1 6 refl

run : Reach issuer counter 2 quiet contended
unfolding program asks takes follows
run = next (next (next here asks (omega arith)) takes (omega arith)) follows (omega arith)

valid : construct 1 supported settings ≡ ok settings
unfolding program
valid = refl

built : build_api_key_client "jti-status" settings ≡ some (client, transport)
unfolding program
built = refl

permitted : 20 ≡ transport.permits
unfolding program
permitted = refl

capacity_kept_example :
    (19 + in_flight 2 contended.calls ≡ 20)
    × (0 < 20)
    × (in_flight 2 contended.calls ≤ 1000)
    × (0 < settings.api_key_introspection_circuit_failure_threshold)
    × (is_some client.breaker.opened_at
        ≡ leb settings.api_key_introspection_circuit_failure_threshold client.breaker.failures)
    × (client.breaker.reset ≡ settings.api_key_introspection_circuit_reset_seconds)
capacity_kept_example =
    capacity_kept "jti-status" settings issuer counter 1 supported 2 client transport 20 contended
      valid built permitted run
