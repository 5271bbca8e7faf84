-- ===== src/Tests/History.antt =====
-- Runs of fastapi_m8/_revocation.py: the cache beside its ledger, and what follows a revocation.
use fastapi_m.Base.{ℕ, ◌≡◌, ◌≤◌, ◌<◌, refl, false, none, some, [], ◌∷◌, arith, elem, string_eq}
use fastapi_m.Base.Exec.{ok}
use fastapi_m.Base.Dict.{lookup, set, remove, del_item, del_items, keys_where}
use fastapi_m.Revocation.Cache.{
  RevocationCache, Entry, floor, trim, trim_watermarks, advance, note_revocation, evict_user_below,
  get, put, applied_to, is_superseded,
}
use fastapi_m.Revocation.Cache.Ledger.{Ledger, Implements}
use fastapi_m.Revocation.Events.{SessionRevokedEvent, evict_named, apply_v2, apply_event, user_wide}
use fastapi_m.Revocation.Events.Reachable.{cached}
use fastapi_m.Revocation.Events.Refinement.{HasRoom, applied, apply_event-Implements}
use fastapi_m.Revocation.Events.History.{History, now_on, followed, no_resurrection}
use fastapi_m.Revocation.Client.{
  RevocationClient, is_revoked, check_issuer, after_lookup, consult, record_lookup,
  record_check_failure,
}
use fastapi_m.Tests.Data.{net, client, cache, cache-IsValid}

program : Unit {0}
unfolding lookup set remove del_item del_items keys_where trim trim_watermarks advance
    note_revocation evict_user_below evict_named apply_v2 apply_event put get is_superseded
    is_revoked after_lookup consult record_lookup record_check_failure check_issuer
program = tt

-- what the cache of the tests holds
abbrev ledger : Ledger
ledger = record {
  entries = λ jti. lookup jti cache.store;
  watermark = λ u. lookup u cache.watermarks;
  seen = λ u event. elem event (applied_to cache u);
}

held : Implements cache ledger
held = record { entries = λ jti. refl; watermark = λ u. refl; seen = λ u event. refl }

pub room : HasRoom cache "ann"
room absent = omega arith

abbrev event : SessionRevokedEvent
event = user_wide "ann" 4 none

room_for : (other : SessionRevokedEvent) → some event ≡ some other → HasRoom cache other.user_id
room_for other is = λ absent. omega arith

apply_event-Implements_example :
    (c' : RevocationCache) × (apply_event cache (some event) ≡ some c')
    × Implements c' (applied (some event) ledger)
apply_event-Implements_example =
    apply_event-Implements cache ledger held cache-IsValid (some event) room_for

abbrev pub revoked : RevocationCache
revoked = record {
  ttl = 30;
  store = [];
  watermarks = ("ann", 4) ∷ [];
  applied_event_ids = ("ann", []) ∷ [];
}

abbrev entry : Entry
entry = record { expires_at = 37; user_id = "ann"; auth_generation = 4 }

arrived : apply_event cache (some event) ≡ some revoked
unfolding program
arrived = refl

logged_in : History revoked (put 7 revoked "new" "ann" 4)
logged_in = followed now_on (cached revoked 7 "new" "ann" 4) tt

pub above : floor cache "ann" < 4
unfolding program
above = omega arith

-- a client with that cache
abbrev holder : RevocationClient
holder = record client { cache = some (put 7 revoked "new" "ann" 4) }

abbrev passed : RevocationClient × ℕ
passed = (is_revoked net "new" "ann" false (holder, 8)).1

passes : is_revoked net "new" "ann" false (holder, 8) ≡ (ok false, passed)
unfolding program
passes = refl

there : lookup "new" (put 7 revoked "new" "ann" 4).store ≡ some entry
unfolding program
there = refl

no_resurrection_example : 4 ≤ entry.auth_generation
no_resurrection_example =
    no_resurrection "ann" 4 cache revoked (put 7 revoked "new" "ann" 4) none "new" entry
      cache-IsValid room above arrived logged_in there refl
