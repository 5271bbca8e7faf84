-- ===== src/Revocation/Cache/Watermarks.antt =====
-- What `note_revocation` decides and records: fastapi_m8/_revocation.py, `JtiRevocationCache`.
use fastapi_m.Base.{
  ℕ, ◌<◌, String, ◌≡◌, ◌≢◌, refl, ◌∙◌, ap, not, Bool, true, false, Option, none, some, List, ◌∷◌,
  arith, ltb, eq_iff, eq_refl, nat_eq, string_eq, if◌then◌else◌, Bool-cases, Option-cases, inl, inr,
  elem,
}
use fastapi_m.Base.Dict.{lookup, set}
use fastapi_m.Base.Dict.Laws.{lookup-set}
use fastapi_m.Revocation.Cache.{
  RevocationCache, floor, put, is_superseded, advance, repeat, applied_to, seed,
  max_tracked_watermarks, note_revocation,
}
use fastapi_m.Revocation.Cache.Trim.{trim_of_length-le, trim-set, length-set_tracked}
use fastapi_m.Revocation.Cache.Validity.{
  IsValid, Verdict, untracked, newer, stale, again, note_revocation-Verdict,
}

-- The user that was just written is never the one that the bound drops.
pub lookup-advance :
    (c : RevocationCache) (u : String) (g : ℕ) (event : Option String)
    → IsValid c
    → (lookup u (advance c u g event).watermarks ≡ some g)
      × (lookup u (advance c u g event).applied_event_ids ≡ some (seed event))
unfolding advance
lookup-advance c u g event h = elim (Option-cases (lookup u c.watermarks)) [
  | inl new ↦
      let (at, ids) =
        trim-set max_tracked_watermarks u g c.watermarks (set u (seed event) c.applied_event_ids)
          (omega arith) h.bounded new in
      (at, rw ids (simp (lookup-set, eq_refl)))
  | inr (w, has) ↦
      rw
        (trim_of_length-le max_tracked_watermarks (set u g c.watermarks)
          (set u (seed event) c.applied_event_ids)
          (omega (arith, length-set_tracked u g w c.watermarks has)))
        (simp (lookup-set, eq_refl), simp (lookup-set, eq_refl))
]

lookup-repeat :
    (c : RevocationCache) (u v : String) (event : Option String)
    → lookup v (repeat c u event).1.watermarks ≡ lookup v c.watermarks
unfolding repeat
lookup-repeat c u v none = refl
lookup-repeat c u v (some e) = ground arith

-- the larger of two generations
abbrev pub newest : ℕ → ℕ → ℕ
newest w g = if ltb w g then g else w

Verdict-floor :
    {c : RevocationCache} {u : String} {g : ℕ} {event : Option String} {r : Bool × RevocationCache}
    → Verdict c u g event r
    → IsValid c
    → floor r.1 u ≡ newest (floor c u) g
Verdict-floor {c} {u} {g} {event} (untracked new) h =
    ground (arith, (lookup-advance c u g event h).0)
Verdict-floor {c} {u} {g} {event} (newer w has lt) h =
    ground (arith, (lookup-advance c u g event h).0)
Verdict-floor (stale w has lt) h = ground arith
Verdict-floor {c} {u} {g} {event} (again has) h = ground (arith, lookup-repeat c u u event)

-- After a revocation event, acted on or not, the user's watermark is the larger of the old one and
-- the event's generation, on every valid cache, also where the bound drops another user.
pub floor-note_revocation :
    (c : RevocationCache) (u : String) (g : ℕ) (event : Option String)
    → IsValid c
    → floor (note_revocation c u g event).1 u ≡ newest (floor c u) g
floor-note_revocation c u g event = Verdict-floor (note_revocation-Verdict c u g event)

-- Once a revocation of generation `g` has been seen, every result of an older generation is
-- superseded, and caching one changes nothing.
pub put-note_revocation :
    (c : RevocationCache) (u : String) (g : ℕ) (event : Option String) (now : ℕ) (jti : String)
    (old : ℕ)
    → IsValid c
    → old < g
    → (is_superseded (note_revocation c u g event).1 u old ≡ true)
      × (put now (note_revocation c u g event).1 jti u old ≡ (note_revocation c u g event).1)
unfolding is_superseded put
put-note_revocation c u g event now jti old h lt =
    let top = floor-note_revocation c u g event h in (rw top (ground arith), rw top (ground arith))

note_revocation_at :
    (c : RevocationCache) (u : String) (g : ℕ) (event : Option String)
    → lookup u c.watermarks ≡ some g
    → note_revocation c u g event ≡ repeat c u event
unfolding note_revocation
note_revocation_at c u g event has = ground arith

note_revocation_below :
    (c : RevocationCache) (u : String) (g w : ℕ) (event : Option String)
    → lookup u c.watermarks ≡ some w
    → g < w
    → note_revocation c u g event ≡ (false, c)
unfolding note_revocation
note_revocation_below c u g w event has lt = ground arith

-- at the watermark, an identified event is acted on exactly if its id is new
repeat-verdict :
    (c : RevocationCache) (u e : String) (ids : List String)
    → lookup u c.applied_event_ids ≡ some ids
    → (repeat c u (some e)).0 ≡ not (elem e ids)
unfolding repeat
repeat-verdict c u e ids has = ground arith

note_revocation_again :
    (c : RevocationCache) (u : String) (g : ℕ) (e : String) (ids : List String)
    → lookup u c.watermarks ≡ some g
    → lookup u c.applied_event_ids ≡ some ids
    → (note_revocation c u g (some e)).0 ≡ not (elem e ids)
note_revocation_again c u g e ids at has =
    ap (λ r. r.0) (note_revocation_at c u g (some e) at) ∙ repeat-verdict c u e ids has

pub note_revocation_above :
    (c : RevocationCache) (u : String) (g : ℕ) (event : Option String)
    → floor c u < g
    → note_revocation c u g event ≡ (true, advance c u g event)
unfolding note_revocation
note_revocation_above c u g event lt = ground arith

pub note_revocation_stale :
    (c : RevocationCache) (u : String) (g : ℕ) (event : Option String)
    → g < floor c u
    → note_revocation c u g event ≡ (false, c)
unfolding note_revocation
note_revocation_stale c u g event lt = ground arith

pub store-advance :
    (c : RevocationCache) (u : String) (g : ℕ) (event : Option String)
    → (advance c u g event).store ≡ c.store
unfolding advance
store-advance c u g event = refl

pub store-repeat :
    (c : RevocationCache) (u : String) (event : Option String)
    → (repeat c u event).1.store ≡ c.store
unfolding repeat
store-repeat c u none = refl
store-repeat c u (some e) = ground arith

repeat-applied :
    (c : RevocationCache) (u e : String)
    → (ids : List String) × (lookup u (repeat c u (some e)).1.applied_event_ids ≡ some ids)
      × (elem e ids ≡ true)
unfolding repeat
repeat-applied c u e = elim (Bool-cases (elem e (applied_to c u))) [
  | inl seen ↦ (applied_to c u, rw seen (simp (lookup-set, eq_refl)), seen)
  | inr new ↦ (e ∷ applied_to c u, rw new (simp (lookup-set, eq_refl)), rw eq_refl refl)
]

seed-elem : (e : String) → e ≢ "" → elem e (seed (some e)) ≡ true
seed-elem e h = ground (arith, eq_iff e "", eq_refl e)

seed-elem_ne : (e e' : String) → e ≢ e' → elem e' (seed (some e)) ≡ false
seed-elem_ne e e' h = ground (arith, eq_iff e "", eq_iff e e')

Verdict-twice :
    {c : RevocationCache} {u : String} {g : ℕ} {e : String} {r : Bool × RevocationCache}
    → Verdict c u g (some e) r
    → IsValid c
    → e ≢ ""
    → (note_revocation r.1 u g (some e)).0 ≡ false
Verdict-twice {c} {u} {g} {e} (untracked new) h ne =
    let (at, ids) = lookup-advance c u g (some e) h in
    note_revocation_again (advance c u g (some e)) u g e _ at ids ∙ ap not (seed-elem e ne)
Verdict-twice {c} {u} {g} {e} (newer w has lt) h ne =
    let (at, ids) = lookup-advance c u g (some e) h in
    note_revocation_again (advance c u g (some e)) u g e _ at ids ∙ ap not (seed-elem e ne)
Verdict-twice {c} {u} {g} {e} (stale w has lt) h ne =
    rw (note_revocation_below c u g w (some e) has lt)
Verdict-twice {c} {u} {g} {e} (again has) h ne =
    let (ids, found, member) = repeat-applied c u e in
    let at = lookup-repeat c u u (some e) ∙ has in
    note_revocation_again (repeat c u (some e)).1 u g e ids at found ∙ ap not member

-- A replayed event is never acted on again: an event with a non-empty durable id, delivered twice
-- in a row at one generation, is ignored the second time.
note_revocation-twice :
    (c : RevocationCache) (u : String) (g : ℕ) (e : String)
    → IsValid c
    → e ≢ ""
    → (note_revocation (note_revocation c u g (some e)).1 u g (some e)).0 ≡ false
note_revocation-twice c u g e = Verdict-twice (note_revocation-Verdict c u g (some e))

-- Two events of one generation with different durable ids are both acted on, where the first one
-- raised the watermark.
note_revocation-distinct :
    (c : RevocationCache) (u : String) (g : ℕ) (e e' : String)
    → IsValid c
    → floor c u < g
    → e ≢ e'
    → ((note_revocation c u g (some e)).0 ≡ true)
      × ((note_revocation (note_revocation c u g (some e)).1 u g (some e')).0 ≡ true)
note_revocation-distinct c u g e e' h lt ne =
    let (at, ids) = lookup-advance c u g (some e) h in
    rw (note_revocation_above c u g (some e) lt)
      (refl, note_revocation_again _ u g e' _ at ids ∙ ap not (seed-elem_ne e e' ne))

-- the watermarks are all that `is_superseded` reads
pub is_superseded_of_watermarks :
    (c d : RevocationCache) (u : String) (g : ℕ)
    → c.watermarks ≡ d.watermarks
    → is_superseded c u g ≡ is_superseded d u g
unfolding is_superseded
is_superseded_of_watermarks c d u g same = ground arith
