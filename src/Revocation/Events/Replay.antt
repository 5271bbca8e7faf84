-- ===== src/Revocation/Events/Replay.antt =====
-- Reordered and replayed `session.revoked` events: fastapi_m8/_revocation.py.
use fastapi_m.Base.{
  ℕ, ◌≤◌, ◌<◌, String, ◌≡◌, refl, sym, ap, ◌∙◌, Bool, not, Option, some, arith, ltb, nat_eq,
  string_eq, if◌then◌else◌, Bool-cases, eq_of_some, inl, inr,
}
use fastapi_m.Base.Dict.{keep_where}
use fastapi_m.Revocation.Cache.{RevocationCache, floor, note_revocation, is_older}
use fastapi_m.Revocation.Cache.Validity.{
  IsValid, note_revocation-IsValid, evict_user_below_lem, Verdict, untracked, newer, stale, again,
  note_revocation-Verdict,
}
use fastapi_m.Revocation.Cache.Watermarks.{
  floor-note_revocation, newest, note_revocation_above, note_revocation_stale, store-advance,
  store-repeat,
}
use fastapi_m.Revocation.Cache.Eviction.{keep-older_twice}
use fastapi_m.Revocation.Events.Reachable.{apply_event-Evicts, IsValid-of_Evicts}
use fastapi_m.Revocation.Events.{SessionRevokedEvent, evict_named, apply_event, user_wide}

-- the store after a user-wide event: the entries of older generations go, if the event is acted on
pub wiped : RevocationCache → String → ℕ → Option String → RevocationCache
wiped c u g event =
    let noted = note_revocation c u g event in
    if noted.0
    then record noted.1 { store = keep_where (λ e. not (is_older u (some g) e)) noted.1.store }
    else noted.1

apply-user_wide :
    (c : RevocationCache) (u : String) (g : ℕ) (event : Option String)
    → IsValid c
    → apply_event c (some (user_wide u g event)) ≡ some (wiped c u g event)
unfolding apply_event evict_named wiped
apply-user_wide c u g event h =
    let k = note_revocation-IsValid c u g event h in
    elim (Bool-cases (note_revocation c u g event).0) [
      | inl act ↦ rw (act) (evict_user_below_lem (note_revocation c u g event).1 u (some g) k)
      | inr ignore ↦ rw ignore
    ]

Verdict-store :
    {c : RevocationCache} {u : String} {g : ℕ} {event : Option String} {r : Bool × RevocationCache}
    → Verdict c u g event r
    → r.1.store ≡ c.store
Verdict-store {c} {u} {g} {event} (untracked new) = store-advance c u g event
Verdict-store {c} {u} {g} {event} (newer w has lt) = store-advance c u g event
Verdict-store (stale w has lt) = refl
Verdict-store {c} {u} {g} {event} (again has) = store-repeat c u event

-- noting a revocation evicts nothing by itself
store-note_revocation :
    (c : RevocationCache) (u : String) (g : ℕ) (event : Option String)
    → (note_revocation c u g event).1.store ≡ c.store
store-note_revocation c u g event = Verdict-store (note_revocation-Verdict c u g event)

store-wiped :
    (c : RevocationCache) (u : String) (g : ℕ) (event : Option String)
    → (wiped c u g event).store ≡ (
        if (note_revocation c u g event).0
        then keep_where (λ e. not (is_older u (some g) e)) c.store
        else c.store)
unfolding wiped
store-wiped c u g event = ground (arith, store-note_revocation c u g event)

pub floor-wiped :
    (c : RevocationCache) (u : String) (g : ℕ) (event : Option String)
    → IsValid c
    → floor (wiped c u g event) u ≡ newest (floor c u) g
unfolding wiped
floor-wiped c u g event h = ground (arith, floor-note_revocation c u g event h)

pub wiped_stale :
    (c : RevocationCache) (u : String) (g : ℕ) (event : Option String)
    → g < floor c u
    → wiped c u g event ≡ c
unfolding wiped
wiped_stale c u g event lt = ground (arith, note_revocation_stale c u g event lt)

pub store-wiped_above :
    (c : RevocationCache) (u : String) (g : ℕ) (event : Option String)
    → floor c u < g
    → (wiped c u g event).store ≡ keep_where (λ e. not (is_older u (some g) e)) c.store
store-wiped_above c u g event lt =
    store-wiped c u g event ∙ rw (note_revocation_above c u g event lt)

newest_below : (w g h : ℕ) → w ≤ g → g < h → newest w g < h
newest_below w g h p q = ground arith

store-wiped-wiped :
    (c : RevocationCache) (u : String) (g h : ℕ) (e e' : Option String)
    → IsValid c
    → floor c u ≤ g
    → g < h
    → (wiped (wiped c u g e) u h e').store ≡ keep_where (λ x. not (is_older u (some h) x)) c.store
store-wiped-wiped c u g h e e' valid le lt =
    let above : floor (wiped c u g e) u < h =
      rw (floor-wiped c u g e valid) (newest_below (floor c u) g h le lt) in
    store-wiped_above (wiped c u g e) u h e' above ∙ elim (Bool-cases (note_revocation c u g e).0) [
      | inl act ↦ rw (store-wiped c u g e, act) (keep-older_twice u g h c.store (omega arith))
      | inr ignore ↦ rw (store-wiped c u g e, ignore)
    ]

wiped-wiped :
    (c : RevocationCache) (u : String) (g h : ℕ) (e e' : Option String)
    → IsValid c
    → g < h
    → (wiped (wiped c u g e) u h e').store ≡ (wiped (wiped c u h e') u g e).store
wiped-wiped c u g h e e' valid lt =
    let last : g < floor (wiped c u h e') u = rw (floor-wiped c u h e' valid) (ground arith) in
    let settled = ap (λ (d : RevocationCache). d.store) (wiped_stale (wiped c u h e') u g e last) in
    elim (Bool-cases (ltb g (floor c u))) [
      | inl old ↦
          ap (λ (d : RevocationCache). (wiped d u h e').store) (wiped_stale c u g e (ground arith))
          ∙ sym settled
      | inr fresh ↦
          store-wiped-wiped c u g h e e' valid (ground arith) lt
          ∙ sym (store-wiped_above c u h e' (ground arith))
          ∙ sym settled
    ]

-- what an event leaves is `wiped`, and is valid
pub wiped_of_apply :
    {c c' : RevocationCache} (u : String) (g : ℕ) (event : Option String)
    → IsValid c
    → apply_event c (some (user_wide u g event)) ≡ some c'
    → c' ≡ wiped c u g event
wiped_of_apply {c} {c'} u g event h p = eq_of_some (sym p ∙ apply-user_wide c u g event h)

pub apply_event-IsValid :
    {c c' : RevocationCache} (payload : Option SessionRevokedEvent)
    → IsValid c
    → apply_event c payload ≡ some c'
    → IsValid c'
apply_event-IsValid {c} {c'} payload h p = IsValid-of_Evicts (apply_event-Evicts c payload h) p

-- Two user-wide events of one user with different generations may arrive in either order: they
-- leave the same entries in the cache, and the same watermark for the user.
pub user_wide_comm :
    (c c1 c12 c2 c21 : RevocationCache) (u : String) (g h : ℕ) (e e' : Option String)
    → IsValid c
    → g < h
    → apply_event c (some (user_wide u g e)) ≡ some c1
    → apply_event c1 (some (user_wide u h e')) ≡ some c12
    → apply_event c (some (user_wide u h e')) ≡ some c2
    → apply_event c2 (some (user_wide u g e)) ≡ some c21
    → (c12.store ≡ c21.store) × (floor c12 u ≡ floor c21 u)
user_wide_comm c c1 c12 c2 c21 u g h e e' valid lt p1 p12 p2 p21 =
    let v1 = apply_event-IsValid _ valid p1 in
    let v2 = apply_event-IsValid _ valid p2 in
    let q1 = wiped_of_apply u g e valid p1 in
    let q2 = wiped_of_apply u h e' valid p2 in
    let q12 = wiped_of_apply u h e' v1 p12 in
    let q21 = wiped_of_apply u g e v2 p21 in
    (
      ap (λ (d : RevocationCache). d.store) (q12 ∙ ap (λ d. wiped d u h e') q1)
          ∙ wiped-wiped c u g h e e' valid lt
          ∙ sym (ap (λ (d : RevocationCache). d.store) (q21 ∙ ap (λ d. wiped d u g e) q2)),
      ground (
        arith,
        q1,
        q2,
        q12,
        q21,
        floor-wiped c u g e valid,
        floor-wiped c u h e' valid,
        floor-wiped c1 u h e' v1,
        floor-wiped c2 u g e v2,
      ),
    )
