-- ===== src/Tests/Revocation.antt =====
-- Runs of fastapi_m8/_revocation.py.
use fastapi_m.Base.{
  ℕ, ◌≡◌, ◌⊎◌, ◌+◌, ◌≤◌, ◌<◌, eq_iff, refl, String, true, false, some, none, [], ◌∷◌, arith,
  string_eq, if◌then◌else◌, ltb,
}
use fastapi_m.Base.Exec.{ok}
use fastapi_m.Base.Dict.{lookup, set, remove, del_item, del_items, keys_where, keep_where}
use fastapi_m.InternalAuth.{headers}
use fastapi_m.Revocation.Cache.{
  RevocationCache, Entry, floor, get, put, is_superseded, trim, trim_watermarks, seed, advance,
  repeat, note_revocation, evict_user_below, evict_user, flush_all, is_older,
}
use fastapi_m.Revocation.Cache as Cache
use fastapi_m.Revocation.Cache.Entries.{get-put_self}
use fastapi_m.Revocation.Events.{apply_event, apply_v2, evict_named, user_wide, one_session}
use fastapi_m.Revocation.Events.Reachable.{reachable_cache, Reach, here, next, Evicts}
use fastapi_m.Revocation.Events.Reachable as Reachable
use fastapi_m.Revocation.Cache.Validity.{IsValid}
use fastapi_m.Revocation.Events.Replay.{user_wide_comm}
use fastapi_m.Revocation.Events.Masking.{one_session-masks}
use fastapi_m.Revocation.Client.{
  is_revoked, check_issuer, query_status, send_status, post_status, retry_status, judge, decide,
  recover, after_lookup, consult, record_lookup, record_check_failure,
}
use fastapi_m.Revocation.Client.Soundness.{Hit, Cleared, asked, is_revoked-Cleared}
use fastapi_m.Tests.Data.{net, cache, client, cache-IsValid}

program : Unit {0}
unfolding is_revoked check_issuer query_status send_status post_status retry_status judge decide
    recover after_lookup consult record_lookup record_check_failure headers get put is_superseded
    note_revocation advance repeat trim trim_watermarks set lookup remove apply_event apply_v2
    evict_named evict_user_below evict_user del_item del_items keys_where keep_where Cache.evict_jti
    flush_all
program = tt

-- the client after the new token has been confirmed and cached
confirmed :
    is_revoked net "new" "ann" true (client, 5)
    ≡ (ok false, (record client { cache = some (put 6 cache "new" "ann" 3) }, 7))
unfolding program
confirmed = refl

is_revoked-Cleared_example :
    ((true ≡ false) × Hit net "new" "ann" client 5)
    ⊎ Cleared net "new" "ann" (asked net "new" "ann" true (client, 5))
is_revoked-Cleared_example =
    is_revoked-Cleared net "new" "ann" true client 5
      (record client { cache = some (put 6 cache "new" "ann" 3) }, 7) confirmed

abbrev one_read : Reach (Cache.init 30) (get 4 (Cache.init 30) "new").1
one_read = next here (Reachable.looked_up (Cache.init 30) 4 "new")

reachable_cache_example :
    IsValid (get 4 (Cache.init 30) "new").1
    × Evicts (apply_event (get 4 (Cache.init 30) "new").1 none)
reachable_cache_example = reachable_cache 30 (get 4 (Cache.init 30) "new").1 none one_read

fresh : floor cache "ann" ≤ 3
unfolding program
fresh = omega arith

get-put_self_example :
    (get 20 (put 9 cache "new" "ann" 3) "new").0 ≡ (if ltb 20 (9 + 30) then some false else none)
get-put_self_example = get-put_self cache 9 20 "new" "ann" 3 fresh

abbrev old_entry : Entry
old_entry = record { expires_at = 100; user_id = "ann"; auth_generation = 2 }

-- the cache with no entries, after an event of the generation with the durable id
abbrev after : ℕ → String → RevocationCache
after generation event_id = record cache {
  store = [];
  watermarks = ("ann", generation) ∷ [];
  applied_event_ids = ("ann", event_id ∷ []) ∷ [];
}

abbrev masked : RevocationCache
masked = record (after 5 "e2") { store = cache.store }

wide_4 : apply_event cache (some (user_wide "ann" 4 (some "e1"))) ≡ some (after 4 "e1")
unfolding program
wide_4 = refl

wide_5 : apply_event cache (some (user_wide "ann" 5 (some "e2"))) ≡ some (after 5 "e2")
unfolding program
wide_5 = refl

wide_4_5 : apply_event (after 4 "e1") (some (user_wide "ann" 5 (some "e2"))) ≡ some (after 5 "e2")
unfolding program
wide_4_5 = refl

wide_5_4 : apply_event (after 5 "e2") (some (user_wide "ann" 4 (some "e1"))) ≡ some (after 5 "e2")
unfolding program
wide_5_4 = refl

one_4_5 :
    apply_event (after 4 "e1") (some (one_session "ann" "new" 5 (some "e2"))) ≡ some (after 5 "e2")
unfolding program
one_4_5 = refl

one_5 : apply_event cache (some (one_session "ann" "new" 5 (some "e2"))) ≡ some masked
unfolding program
one_5 = refl

one_5_4 : apply_event masked (some (user_wide "ann" 4 (some "e1"))) ≡ some masked
unfolding program
one_5_4 = refl

user_wide_comm_example :
    ((after 5 "e2").store ≡ (after 5 "e2").store)
    × (floor (after 5 "e2") "ann" ≡ floor (after 5 "e2") "ann")
user_wide_comm_example =
    user_wide_comm cache (after 4 "e1") (after 5 "e2") (after 5 "e2") (after 5 "e2") "ann" 4 5
      (some "e1") (some "e2") cache-IsValid (omega arith) wide_4 wide_4_5 wide_5 wide_5_4

below : floor cache "ann" < 4
unfolding program
below = omega arith

has_old : lookup "old" cache.store ≡ some old_entry
unfolding program
has_old = refl

one_session-masks_example :
    (lookup "old" (after 5 "e2").store ≡ none) × (lookup "old" masked.store ≡ some old_entry)
one_session-masks_example =
    one_session-masks cache (after 4 "e1") (after 5 "e2") masked masked "ann" "new" "old" 4 5
      (some "e1") (some "e2") old_entry cache-IsValid has_old refl (omega arith) (omega arith) below
      (λ p. absurd (ground (arith, eq_iff "new" "old"))) wide_4 one_4_5 one_5 one_5_4
