-- ===== src/Revocation/Events/Masking.antt =====
-- A single-session event of a newer generation and a user-wide event: fastapi_m8/_revocation.py.
use fastapi_m.Base.{
  ℕ, ◌<◌, String, ◌≡◌, ◌≢◌, sym, ◌∙◌, Option, none, some, not, arith, eq_iff, nat_eq, string_eq,
  eq_of_some,
}
use fastapi_m.Base.Dict.{lookup}
use fastapi_m.Base.Dict.Laws.{lookup-keep_where}
use fastapi_m.Revocation.Cache.{RevocationCache, Entry, floor, advance, evict_jti, is_older}
use fastapi_m.Revocation.Cache.Entries.{lookup-evict_jti, watermarks-evict_jti}
use fastapi_m.Revocation.Cache.Validity.{IsValid}
use fastapi_m.Revocation.Cache.Watermarks.{note_revocation_above, lookup-advance, store-advance}
use fastapi_m.Revocation.Events.{evict_named, apply_event, user_wide, one_session}
use fastapi_m.Revocation.Events.Replay.{
  wiped_of_apply, apply_event-IsValid, store-wiped_above, wiped_stale, floor-wiped,
}

one_session_above :
    (c : RevocationCache) (u j : String) (h : ℕ) (event : Option String)
    → floor c u < h
    → apply_event c (some (one_session u j h event)) ≡ some (evict_jti (advance c u h event) j)
unfolding apply_event evict_named
one_session_above c u j h event lt = rw (note_revocation_above c u h event lt)

floor-evict_jti :
    (c : RevocationCache) (u j : String) (h : ℕ) (event : Option String)
    → IsValid c
    → floor (evict_jti (advance c u h event) j) u ≡ h
floor-evict_jti c u j h event valid =
    ground
      (arith, watermarks-evict_jti (advance c u h event) j, (lookup-advance c u h event valid).0)

-- The order of a user-wide event and of a single-session event of a newer generation matters: an
-- entry older than the user-wide event is gone if that event comes first, and stays in the cache
-- if the single-session event of another token comes first.
pub one_session-masks :
    (c c1 c12 c2 c21 : RevocationCache) (u j k : String) (g h : ℕ) (e e' : Option String)
    (entry : Entry)
    → IsValid c
    → lookup k c.store ≡ some entry
    → entry.user_id ≡ u
    → entry.auth_generation < g
    → g < h
    → floor c u < g
    → j ≢ k
    → apply_event c (some (user_wide u g e)) ≡ some c1
    → apply_event c1 (some (one_session u j h e')) ≡ some c12
    → apply_event c (some (one_session u j h e')) ≡ some c2
    → apply_event c2 (some (user_wide u g e)) ≡ some c21
    → (lookup k c12.store ≡ none) × (lookup k c21.store ≡ some entry)
one_session-masks c c1 c12 c2 c21 u j k g h e e' entry valid has mine old lt low ne p1 p12 p2 p21 =
    let q1 = wiped_of_apply u g e valid p1 in
    let top1 : floor c1 u < h = ground (arith, q1, floor-wiped c u g e valid) in
    let q12 = eq_of_some (sym p12 ∙ one_session_above c1 u j h e' top1) in
    let q2 = eq_of_some (sym p2 ∙ one_session_above c u j h e' (omega arith)) in
    let top2 : g < floor c2 u = ground (arith, q2, floor-evict_jti c u j h e' valid) in
    let q21 =
      wiped_of_apply u g e (apply_event-IsValid _ valid p2) p21 ∙ wiped_stale c2 u g e top2 in
    (
      ground (
        arith,
        q12,
        lookup-evict_jti (advance c1 u h e') j k,
        store-advance c1 u h e',
        q1,
        store-wiped_above c u g e low,
        lookup-keep_where (λ x. not (is_older u (some g) x)) k c.store valid.store_distinct,
        eq_iff entry.user_id u,
      ),
      ground (
        arith,
        q21,
        q2,
        lookup-evict_jti (advance c u h e') j k,
        store-advance c u h e',
        eq_iff j k,
      ),
    )
