-- ===== src/Tests/Tasks.antt =====
-- A run of fastapi_m8/_revocation.py by tasks: a revocation arrives while a call waits.
use fastapi_m.Base.{ℕ, ◌≡◌, refl, false, true, some, none, [], ◌∷◌, string_eq}
use fastapi_m.Base.Dict.{lookup, set, remove, del_item, del_items, keys_where}
use fastapi_m.Base.Exec.{ok}
use fastapi_m.Http.{Network, active}
use fastapi_m.InternalAuth.{static_auth}
use fastapi_m.Revocation.Cache.{
  put, trim, trim_watermarks, advance, note_revocation, evict_user_below, is_superseded,
}
use fastapi_m.Revocation.Events.{evict_named, apply_v2, apply_event, user_wide}
use fastapi_m.Revocation.Client.{RevocationClient, decide, judge}
use fastapi_m.Revocation.Lifecycle.{apply_session_revoked_event}
use fastapi_m.Revocation.Tasks.{idle, asking, answered, replied, update, System, Step, resumed}
use fastapi_m.Revocation.Tasks.Safety.{here, next, Justified, tasks-Justified}
use fastapi_m.Tests.Data.{net, client, cache, cache-IsValid}
use fastapi_m.Tests.History.{revoked, room, above}

-- the issuer answers that ann's token is active, of generation 4
abbrev issuer : Network ℕ
issuer = record net { read_status = λ content. some (active "ann" 4) }

program : Unit {0}
unfolding lookup set remove del_item del_items keys_where trim trim_watermarks advance
    note_revocation evict_user_below evict_named apply_v2 apply_event put is_superseded decide judge
    apply_session_revoked_event
program = tt

-- call 0 waits for the issuer
abbrev suspended : System
suspended = record { client = client; calls = update (λ i. idle) 0 (asking "new" "ann") }

abbrev informed : RevocationClient
informed = record client { cache = some revoked }

told : apply_session_revoked_event client (some (user_wide "ann" 4 none)) ≡ some informed
unfolding program
told = refl

abbrev released : System
released = record {
  client = record informed { cache = some (put 9 revoked "new" "ann" 4) };
  calls =
      update suspended.calls 0 (answered "new" "ann" (replied (ok (active "ann" 4))) (ok false));
}

release : Step issuer (record suspended { client = informed }) released
unfolding program
release =
    resumed 0 "new" "ann" (ok (record { status_code = 200; content = 2 ∷ [] })) (static_auth []) 9
      refl

tasks-Justified_example : Justified "ann" 4 true (replied (ok (active "ann" 4)))
unfolding release
tasks-Justified_example =
    tasks-Justified issuer "ann" 4 suspended released cache none informed 0 "new"
      (replied (ok (active "ann" 4))) refl cache-IsValid room above told (next here release tt) tt
      refl
