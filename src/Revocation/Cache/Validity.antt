-- ===== src/Revocation/Cache/Validity.antt =====
-- The invariant of fastapi_m8/_revocation.py, `JtiRevocationCache`, and its operations.
use fastapi_m.Base.{
  ℕ, ◌≤◌, ◌<◌, String, ◌≡◌, refl, Bool, true, false, not, Option, none, some, List, ◌∷◌, arith, ltb,
  leb, ◌==◌, eq_iff, nat_eq, string_eq, if◌then◌else◌, Bool-cases, Option-cases, inl, inr, length,
  elem,
}
use fastapi_m.Base.Dict.{lookup, set, keep_where, IsDistinct}
use fastapi_m.Base.Dict.Laws.{
  lookup-set, set-IsDistinct, remove-IsDistinct, keep_where-IsDistinct, del_items-keys_where,
}
use fastapi_m.Revocation.Cache.{
  Entry, RevocationCache, init, get, put, floor, advance, repeat, applied_to, seed,
  max_tracked_watermarks, note_revocation, evict_jti, evict_user, evict_user_below, is_older,
  flush_all,
}
use fastapi_m.Revocation.Cache.Trim.{IsTracked, length-trim-le, trim-IsTracked, trim-IsDistinct}

pub record IsValid (c : RevocationCache) : Type 0 where
  pub store_distinct : IsDistinct c.store
  pub watermarks_distinct : IsDistinct c.watermarks
  pub applied_distinct : IsDistinct c.applied_event_ids
  pub bounded : length c.watermarks ≤ max_tracked_watermarks
  pub tracked : IsTracked c.watermarks c.applied_event_ids

pub init-IsValid : (ttl : ℕ) → IsValid (init ttl)
unfolding init lookup
init-IsValid ttl = record {
  store_distinct = tt;
  watermarks_distinct = tt;
  applied_distinct = tt;
  bounded = omega arith;
  tracked = λ u h. refl;
}

pub get-IsValid :
    (now : ℕ) (c : RevocationCache) (jti : String) → IsValid c → IsValid (get now c jti).1
unfolding get
get-IsValid now c jti h = elim (Option-cases (lookup jti c.store)) [
  | inl miss ↦ rw (miss, get) h
  | inr (e, hit) ↦ elim (Bool-cases (leb e.expires_at now)) [
    | inl old ↦
        rw (hit, get)
          (rw old (record {
            store_distinct = remove-IsDistinct jti c.store h.store_distinct;
            watermarks_distinct = h.watermarks_distinct;
            applied_distinct = h.applied_distinct;
            bounded = h.bounded;
            tracked = h.tracked;
          }))
    | inr live ↦ rw (hit, get) (rw live h)
  ]
]

IsTracked-set :
    (c : RevocationCache) (u : String) (g : ℕ) (ids : List String)
    → IsTracked c.watermarks c.applied_event_ids
    → IsTracked (set u g c.watermarks) (set u ids c.applied_event_ids)
IsTracked-set c u g ids h v absent =
    ground (arith, lookup-set u v g c.watermarks, lookup-set u v ids c.applied_event_ids, h v)

advance-IsValid :
    (c : RevocationCache) (u : String) (g : ℕ) (event : Option String)
    → IsValid c
    → IsValid (advance c u g event)
unfolding advance
advance-IsValid c u g event h =
    let ids = seed event in
    let ws = set u g c.watermarks in
    let applied = set u ids c.applied_event_ids in
    let (d, e) =
      trim-IsDistinct max_tracked_watermarks ws applied
        (set-IsDistinct u g c.watermarks h.watermarks_distinct)
        (set-IsDistinct u ids c.applied_event_ids h.applied_distinct) in
    record {
      store_distinct = h.store_distinct;
      watermarks_distinct = d;
      applied_distinct = e;
      bounded = length-trim-le max_tracked_watermarks ws applied;
      tracked =
          trim-IsTracked max_tracked_watermarks ws applied (IsTracked-set c u g ids h.tracked);
    }

-- the dedup set of a user that has a watermark is written
set_applied-IsValid :
    (c : RevocationCache) (u : String) (w : ℕ) (ids : List String)
    → lookup u c.watermarks ≡ some w
    → IsValid c
    → IsValid (record c { applied_event_ids = set u ids c.applied_event_ids })
set_applied-IsValid c u w ids has h = record {
  store_distinct = h.store_distinct;
  watermarks_distinct = h.watermarks_distinct;
  applied_distinct = set-IsDistinct u ids c.applied_event_ids h.applied_distinct;
  bounded = h.bounded;
  tracked =
      λ v absent. ground (arith, lookup-set u v ids c.applied_event_ids, h.tracked v, eq_iff u v);
}

repeat-IsValid :
    (c : RevocationCache) (u : String) (w : ℕ) (event : Option String)
    → lookup u c.watermarks ≡ some w
    → IsValid c
    → IsValid (repeat c u event).1
unfolding repeat
repeat-IsValid c u w none has h = set_applied-IsValid c u w (applied_to c u) has h
repeat-IsValid c u w (some e) has h = elim (Bool-cases (elem e (applied_to c u))) [
  | inl seen ↦ rw seen (set_applied-IsValid c u w (applied_to c u) has h)
  | inr new ↦ rw new (set_applied-IsValid c u w (e ∷ applied_to c u) has h)
]

-- The watermark rule, one constructor for each of its cases.
pub data Verdict (c : RevocationCache) (u : String) (g : ℕ) (event : Option String)
    : Bool × RevocationCache → Type 0 where
  untracked : lookup u c.watermarks ≡ none → Verdict c u g event (true, advance c u g event)
  newer :
      (w : ℕ)
      → lookup u c.watermarks ≡ some w
      → w < g
      → Verdict c u g event (true, advance c u g event)
  stale : (w : ℕ) → lookup u c.watermarks ≡ some w → g < w → Verdict c u g event (false, c)
  again : lookup u c.watermarks ≡ some g → Verdict c u g event (repeat c u event)

compare-Verdict :
    (c : RevocationCache) (u : String) (g : ℕ) (event : Option String) (w : ℕ)
    → lookup u c.watermarks ≡ some w
    → Verdict c u g event (
        if ltb g w
        then (false, c)
        else if g == w
        then repeat c u event
        else (true, advance c u g event))
compare-Verdict c u g event w has = elim (Bool-cases (ltb g w)) [
  | inl older ↦ rw older (stale w has (ground arith))
  | inr other ↦ elim (Bool-cases (g == w)) [
    | inl same ↦ rw (other, same) (again (ground arith))
    | inr differs ↦ rw (other, differs) (newer w has (ground arith))
  ]
]

pub note_revocation-Verdict :
    (c : RevocationCache) (u : String) (g : ℕ) (event : Option String)
    → Verdict c u g event (note_revocation c u g event)
unfolding note_revocation
note_revocation-Verdict c u g event = elim (Option-cases (lookup u c.watermarks)) [
  | inl new ↦ rw (new, note_revocation) (untracked new)
  | inr (w, has) ↦ rw (has, note_revocation) (compare-Verdict c u g event w has)
]

Verdict-IsValid :
    {c : RevocationCache} {u : String} {g : ℕ} {event : Option String} {r : Bool × RevocationCache}
    → Verdict c u g event r
    → IsValid c
    → IsValid r.1
Verdict-IsValid {c} {u} {g} {event} (untracked new) h = advance-IsValid c u g event h
Verdict-IsValid {c} {u} {g} {event} (newer w has lt) h = advance-IsValid c u g event h
Verdict-IsValid (stale w has lt) h = h
Verdict-IsValid {c} {u} {g} {event} (again has) h = repeat-IsValid c u g event has h

pub note_revocation-IsValid :
    (c : RevocationCache) (u : String) (g : ℕ) (event : Option String)
    → IsValid c
    → IsValid (note_revocation c u g event).1
note_revocation-IsValid c u g event = Verdict-IsValid (note_revocation-Verdict c u g event)

pub evict_user_below_lem :
    (c : RevocationCache) (u : String) (g : Option ℕ)
    → IsValid c
    → evict_user_below c u g
      ≡ some (record c { store = keep_where (λ e. not (is_older u g e)) c.store })
unfolding evict_user_below
evict_user_below_lem c u g h =
    rw (del_items-keys_where (is_older u g) c.store h.store_distinct, evict_user_below)

pub evict_user_lem :
    (c : RevocationCache) (u : String)
    → IsValid c
    → evict_user c u ≡ some (record c { store = keep_where (λ e. not (is_older u none e)) c.store })
unfolding evict_user
evict_user_lem c u h = evict_user_below_lem c u none h

pub keep-IsValid :
    (c : RevocationCache) (p : Entry → Bool)
    → IsValid c
    → IsValid (record c { store = keep_where p c.store })
keep-IsValid c p h = record {
  store_distinct = keep_where-IsDistinct p c.store h.store_distinct;
  watermarks_distinct = h.watermarks_distinct;
  applied_distinct = h.applied_distinct;
  bounded = h.bounded;
  tracked = h.tracked;
}

pub put-IsValid :
    (now : ℕ) (c : RevocationCache) (jti u : String) (g : ℕ)
    → IsValid c
    → IsValid (put now c jti u g)
unfolding put
put-IsValid now c jti u g h = elim (Bool-cases (ltb g (floor c u))) [
  | inl older ↦ rw older h
  | inr fresh ↦ rw fresh (record {
    store_distinct = set-IsDistinct jti _ c.store h.store_distinct;
    watermarks_distinct = h.watermarks_distinct;
    applied_distinct = h.applied_distinct;
    bounded = h.bounded;
    tracked = h.tracked;
  })
]

pub evict_jti-IsValid : (c : RevocationCache) (jti : String) → IsValid c → IsValid (evict_jti c jti)
unfolding evict_jti
evict_jti-IsValid c jti h = record {
  store_distinct = remove-IsDistinct jti c.store h.store_distinct;
  watermarks_distinct = h.watermarks_distinct;
  applied_distinct = h.applied_distinct;
  bounded = h.bounded;
  tracked = h.tracked;
}

pub flush_all-IsValid : (c : RevocationCache) → IsValid c → IsValid (flush_all c)
unfolding flush_all
flush_all-IsValid c h = record {
  store_distinct = tt;
  watermarks_distinct = h.watermarks_distinct;
  applied_distinct = h.applied_distinct;
  bounded = h.bounded;
  tracked = h.tracked;
}
