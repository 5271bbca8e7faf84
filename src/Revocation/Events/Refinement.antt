-- ===== src/Revocation/Events/Refinement.antt =====
-- The cache implements its ledger: fastapi_m8/_revocation.py, `apply_session_revoked_event`.
use mathlib.Core.Path.{subst}
use fastapi_m.Base.{
  ◌≤◌, ℕ, ◌<◌, String, ◌≡◌, refl, sym, ◌∙◌, Bool, true, false, not, Option, none, some, List, ◌∷◌,
  arith, eq_iff, ◌==◌, nat_eq, string_eq, if◌then◌else◌, Bool-cases, Option-cases, inl, inr, length,
}
use fastapi_m.Base.Dict.{lookup, set, keep_where}
use fastapi_m.Base.Dict.Laws.{lookup-set, lookup-remove, lookup-keep_where, length-set-le}
use fastapi_m.Revocation.Cache.{
  Entry, RevocationCache, max_tracked_watermarks, seed, advance, applied_to, repeat,
  note_revocation, evict_jti, is_older, flush_all,
}
use fastapi_m.Revocation.Cache.Trim.{trim_of_length-le, length-set_tracked}
use fastapi_m.Revocation.Cache.Validity.{
  IsValid, Verdict, untracked, newer, stale, again, note_revocation-Verdict, evict_user_lem,
  evict_user_below_lem, note_revocation-IsValid,
}
use fastapi_m.Revocation.Cache.Ledger.{
  Ledger, Implements, drop_jti, drop_where, drop_all, raise_to, mark, at_watermark, note,
  drop_named,
}
use fastapi_m.Revocation.Events.{SessionRevokedEvent, evict_named, apply_v2, apply_event}

-- what an event does to the ledger
abbrev pub applied : Option SessionRevokedEvent → Ledger → Ledger
applied none l = drop_all l
applied (some event) l = elim event.auth_generation [
  | none ↦ drop_where (is_older event.user_id none) l
  | some g ↦
      let (act, noted) = note event.user_id g event.event_id l in
      if act then drop_named event.user_id g event.jti noted else noted
]

-- a user that is not tracked yet can be, without dropping another
abbrev pub HasRoom : RevocationCache → String → Type 0
HasRoom c u = lookup u c.watermarks ≡ none → length c.watermarks < max_tracked_watermarks

-- the dedup set of one user is written
abbrev with_ids : RevocationCache → String → List String → RevocationCache
with_ids c u ids = record c { applied_event_ids = set u ids c.applied_event_ids }

applied_to-with_ids :
    (c : RevocationCache) (u v : String) (ids : List String)
    → applied_to (with_ids c u ids) v ≡ (if u == v then ids else applied_to c v)
applied_to-with_ids c u v ids = ground (arith, lookup-set u v ids c.applied_event_ids)

advance_room :
    (c : RevocationCache) (u : String) (g : ℕ) (event : Option String)
    → IsValid c
    → HasRoom c u
    → advance c u g event ≡ record (with_ids c u (seed event)) { watermarks = set u g c.watermarks }
unfolding advance
advance_room c u g event valid room =
    let ws = set u g c.watermarks in
    let applied = set u (seed event) c.applied_event_ids in
    let fits : length ws ≤ max_tracked_watermarks = elim (Option-cases (lookup u c.watermarks)) [
      | inl new ↦ omega (arith, room new, length-set-le u g c.watermarks)
      | inr (w, has) ↦ omega (arith, valid.bounded, length-set_tracked u g w c.watermarks has)
    ] in
    rw (trim_of_length-le max_tracked_watermarks ws applied fits) refl

module _ (c : RevocationCache) (l : Ledger) (i : Implements c l) where
  with_ids-Implements : (u : String) → Implements (with_ids c u (applied_to c u)) l
  with_ids-Implements u = record {
    entries = i.entries;
    watermark = i.watermark;
    seen = λ v e.
        ground
          (arith, applied_to-with_ids c u v (applied_to c u), i.seen v e, i.seen u e, eq_iff u v);
  }

  mark-Implements : (u e : String) → Implements (with_ids c u (e ∷ applied_to c u)) (mark u e l)
  mark-Implements u e = record {
    entries = i.entries;
    watermark = i.watermark;
    seen = λ v e'. ground (
      arith,
      applied_to-with_ids c u v (e ∷ applied_to c u),
      i.seen v e',
      i.seen u e',
      eq_iff u v,
    );
  }

  advance-Implements :
      (u : String) (g : ℕ) (event : Option String)
      → IsValid c
      → HasRoom c u
      → Implements (advance c u g event) (raise_to u g event l)
  advance-Implements u g event valid room =
      subst (λ d. Implements d (raise_to u g event l)) (sym (advance_room c u g event valid room))
        (record {
          entries = i.entries;
          watermark = λ v. ground (arith, lookup-set u v g c.watermarks, i.watermark v);
          seen = λ v e. ground (arith, applied_to-with_ids c u v (seed event), i.seen v e);
        })

  -- the same decision, and caches that are implemented again
  abbrev Agree : Bool × RevocationCache → Bool × Ledger → Type 0
  Agree r m = (r.0 ≡ m.0) × Implements r.1 m.1

  repeat-Agree :
      (u : String) (event : Option String) → Agree (repeat c u event) (at_watermark u event l)
  unfolding repeat
  repeat-Agree u none = (refl, with_ids-Implements u)
  repeat-Agree u (some e) = elim (Bool-cases (l.seen u e)) [
    | inl old ↦ rw (i.seen u e, old) (refl, with_ids-Implements u)
    | inr new ↦ rw (i.seen u e, new) (refl, mark-Implements u e)
  ]

  raised-Agree :
      (u : String) (g : ℕ) (event : Option String)
      → IsValid c
      → HasRoom c u
      → note u g event l ≡ (true, raise_to u g event l)
      → Agree (true, advance c u g event) (note u g event l)
  raised-Agree u g event valid room e =
      subst (Agree (true, advance c u g event)) (sym e)
        (refl, advance-Implements u g event valid room)

  Verdict-Agree :
      {u : String} {g : ℕ} {event : Option String} {r : Bool × RevocationCache}
      → Verdict c u g event r
      → IsValid c
      → HasRoom c u
      → Agree r (note u g event l)
  Verdict-Agree {u} {g} {event} (untracked new) valid room =
      raised-Agree u g event valid room (ground (arith, sym (i.watermark u) ∙ new))
  Verdict-Agree {u} {g} {event} (newer w has lt) valid room =
      raised-Agree u g event valid room (ground (arith, sym (i.watermark u) ∙ has))
  Verdict-Agree {u} {g} {event} (stale w has lt) valid room =
      let e : note u g event l ≡ (false, l) = ground (arith, sym (i.watermark u) ∙ has) in
      subst (Agree (false, c)) (sym e) (refl, i)
  Verdict-Agree {u} {g} {event} (again has) valid room =
      let e : note u g event l ≡ at_watermark u event l =
        ground (arith, sym (i.watermark u) ∙ has) in
      subst (Agree (repeat c u event)) (sym e) (repeat-Agree u event)

  pub evict_jti-Implements : (jti : String) → Implements (evict_jti c jti) (drop_jti jti l)
  unfolding evict_jti
  evict_jti-Implements jti = record {
    entries = λ j. ground (arith, lookup-remove jti j c.store, i.entries j);
    watermark = i.watermark;
    seen = i.seen;
  }

  pub keep-Implements :
      (p : Entry → Bool)
      → IsValid c
      → Implements (record c { store = keep_where (λ e. not (p e)) c.store }) (drop_where p l)
  keep-Implements p valid = record {
    entries = λ j.
        ground
          (arith, lookup-keep_where (λ e. not (p e)) j c.store valid.store_distinct, i.entries j);
    watermark = i.watermark;
    seen = i.seen;
  }

  pub flush_all-Implements : Implements (flush_all c) (drop_all l)
  unfolding flush_all lookup
  flush_all-Implements = record { entries = λ j. refl; watermark = i.watermark; seen = i.seen }

  -- a result that raised nothing, and a cache that implements a ledger
  abbrev Yields : Option RevocationCache → Ledger → Type 0
  Yields r m = (c' : RevocationCache) × (r ≡ some c') × Implements c' m

  evict_named-Yields :
      (u : String) (g : ℕ) (jti : Option String)
      → IsValid c
      → Yields (evict_named c u g jti) (drop_named u g jti l)
  unfolding evict_named
  evict_named-Yields u g none valid =
      (_, evict_user_below_lem c u (some g) valid, keep-Implements (is_older u (some g)) valid)
  evict_named-Yields u g (some jti) valid = (_, refl, evict_jti-Implements jti)

module _ (c : RevocationCache) (l : Ledger) (i : Implements c l) (valid : IsValid c) where
  apply_v2-Yields :
      (event : SessionRevokedEvent) (g : ℕ)
      → HasRoom c event.user_id
      → Yields c l i (apply_v2 c event g) (
          let (act, noted) = note event.user_id g event.event_id l in
          if act then drop_named event.user_id g event.jti noted else noted)
  unfolding apply_v2
  apply_v2-Yields event g room =
      let noted = note_revocation c event.user_id g event.event_id in
      let (same, j) =
        Verdict-Agree c l i (note_revocation-Verdict c event.user_id g event.event_id) valid room in
      let k = note_revocation-IsValid c event.user_id g event.event_id valid in
      elim (Bool-cases noted.0) [
        | inl act ↦
            rw (act, sym same ∙ act) (evict_named-Yields noted.1 _ j event.user_id g event.jti k)
        | inr ignore ↦ rw (ignore, sym same ∙ ignore) (noted.1, refl, j)
      ]

  -- Every payload of the stream does to the cache what it does to the ledger, and raises nothing: on
  -- a valid cache that implements the ledger, and where no other user's watermark has to be dropped
  -- for the event's user.
  pub apply_event-Implements :
      (payload : Option SessionRevokedEvent)
      → ((event : SessionRevokedEvent) → payload ≡ some event → HasRoom c event.user_id)
      → (c' : RevocationCache) × (apply_event c payload ≡ some c')
        × Implements c' (applied payload l)
  unfolding apply_event
  apply_event-Implements none room = (_, refl, flush_all-Implements c l i)
  apply_event-Implements (some event) room = elim (Option-cases event.auth_generation) [
    | inl v1 ↦ rw v1 (
      _,
      evict_user_lem c event.user_id valid,
      keep-Implements c l i (is_older event.user_id none) valid,
    )
    | inr (g, v2) ↦ rw v2 (apply_v2-Yields event g (room event refl))
  ]
