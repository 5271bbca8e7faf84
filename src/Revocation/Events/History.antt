-- ===== src/Revocation/Events/History.antt =====
-- What a revocation rules out for ever after: fastapi_m8/_revocation.py, by way of the ledger.
use mathlib.Core.Path.{subst}
use fastapi_m.Base.{
  ℕ, ◌≤◌, ◌<◌, String, ◌≡◌, refl, sym, ap, ◌∙◌, Option, none, some, arith, ltb, leb, ◌==◌, nat_eq,
  string_eq, Bool-cases, Option-cases, inl, inr, eq_of_some, elem,
}
use fastapi_m.Base.Dict.{lookup, set}
use fastapi_m.Base.Dict.Laws.{lookup-set, lookup-remove}
use fastapi_m.Revocation.Cache.{Entry, RevocationCache, floor, get, put, applied_to, is_older}
use fastapi_m.Revocation.Cache.Validity.{IsValid, evict_user_lem}
use fastapi_m.Revocation.Cache.Ledger.{Ledger, Implements}
use fastapi_m.Revocation.Events.{SessionRevokedEvent, apply_event, user_wide}
use fastapi_m.Revocation.Events.Refinement.{
  HasRoom, apply_event-Implements, evict_jti-Implements, flush_all-Implements, keep-Implements,
}
use fastapi_m.Revocation.Events.Reachable.{
  Step, looked_up, cached, received, evicted, user_evicted, flushed, Step-IsValid,
}
use fastapi_m.Revocation.Events.Rid.{
  Rid, drop_where-Rid, drop_jti-Rid, drop_all-Rid, applied-Rid, applied-revoked, revoked-Rid,
}

-- the ledger that a cache implements
abbrev pub view : RevocationCache → Ledger
view c = record {
  entries = λ jti. lookup jti c.store;
  watermark = λ u. lookup u c.watermarks;
  seen = λ u e. elem e (applied_to c u);
}

view-Implements : (c : RevocationCache) → Implements c (view c)
view-Implements c = record { entries = λ jti. refl; watermark = λ u. refl; seen = λ u e. refl }

-- a step that need not drop the watermark of another user
abbrev pub Roomy : {c d : RevocationCache} → Step c d → Type 0
Roomy (received c c' payload e) =
    (event : SessionRevokedEvent) → payload ≡ some event → HasRoom c event.user_id
Roomy _ = Unit

-- a history of steps, each of which has room
pub data History (c : RevocationCache) : RevocationCache → Type 0 where
  now_on : History c c
  followed : {d e : RevocationCache} → History c d → (s : Step d e) → Roomy s → History c e

module _ (u : String) (g : ℕ) where
  Implements-Rid :
      {c : RevocationCache} {l : Ledger} → Implements c l → Rid u g l → Rid u g (view c)
  Implements-Rid {c} {l} i h = record {
    bar = ground (arith, h.bar, i.watermark u);
    held = λ jti e has mine. h.held jti e (sym (i.entries jti) ∙ has) mine;
  }

  pub get-Rid :
      (c : RevocationCache) (now : ℕ) (jti : String)
      → Rid u g (view c)
      → Rid u g (view (get now c jti).1)
  unfolding get
  get-Rid c now jti h = elim (Option-cases (lookup jti c.store)) [
    | inl miss ↦ rw (miss, get) h
    | inr (entry, hit) ↦ elim (Bool-cases (leb entry.expires_at now)) [
      | inr live ↦ rw (hit, get) (rw live h)
      | inl old ↦
          rw (hit, get)
            (rw old (record {
              bar = h.bar;
              held = λ j e has mine.
                  h.held j e (ground (arith, lookup-remove jti j c.store, Bool-cases (jti == j)))
                    mine;
            }))
    ]
  ]

  set_held :
      (c : RevocationCache) (jti j : String) (new e : Entry)
      → Rid u g (view c)
      → lookup j (set jti new c.store) ≡ some e
      → floor c new.user_id ≤ new.auth_generation
      → e.user_id ≡ u
      → g ≤ e.auth_generation
  set_held c jti j new e h has le mine = elim (Bool-cases (jti == j)) [
    | inl same ↦
        let is : e ≡ new = ground (arith, lookup-set jti j new c.store) in
        let whose : new.user_id ≡ u = sym (ap (λ (x : Entry). x.user_id) is) ∙ mine in
        let low : floor c u ≤ new.auth_generation =
          subst (λ v. floor c v ≤ new.auth_generation) whose le in
        let top = h.bar in omega (arith, low, top, ap (λ (x : Entry). x.auth_generation) is)
    | inr other ↦ h.held j e (ground (arith, lookup-set jti j new c.store)) mine
  ]

  put-Rid :
      (c : RevocationCache) (now : ℕ) (jti v : String) (g' : ℕ)
      → Rid u g (view c)
      → Rid u g (view (put now c jti v g'))
  unfolding put
  put-Rid c now jti v g' h = elim (Bool-cases (ltb g' (floor c v))) [
    | inl older ↦ rw older h
    | inr fresh ↦ rw fresh (record {
      bar = h.bar;
      held = λ j e has mine. set_held c jti j _ e h has (ground arith) mine;
    })
  ]

  Step-Rid :
      {c d : RevocationCache} (s : Step c d)
      → IsValid c
      → Roomy s
      → Rid u g (view c)
      → Rid u g (view d)
  Step-Rid (looked_up c now jti) valid room h = get-Rid c now jti h
  Step-Rid (cached c now jti v g') valid room h = put-Rid c now jti v g' h
  Step-Rid (received c c' payload e) valid room h =
      let (made, e', i) =
        apply_event-Implements c (view c) (view-Implements c) valid payload room in
      let same : made ≡ c' = eq_of_some (sym e' ∙ e) in
      subst (λ d. Rid u g (view d)) same (Implements-Rid i (applied-Rid u g (view c) payload h))
  Step-Rid (evicted c jti) valid room h =
      Implements-Rid (evict_jti-Implements c (view c) (view-Implements c) jti)
        (drop_jti-Rid u g (view c) h jti)
  Step-Rid (user_evicted c c' v e) valid room h =
      let same = eq_of_some (sym (evict_user_lem c v valid) ∙ e) in
      subst (λ d. Rid u g (view d)) same
        (Implements-Rid (keep-Implements c (view c) (view-Implements c) (is_older v none) valid)
          (drop_where-Rid u g (view c) h (is_older v none)))
  Step-Rid (flushed c) valid room h =
      Implements-Rid (flush_all-Implements c (view c) (view-Implements c))
        (drop_all-Rid u g (view c) h)

  History-Rid :
      {c d : RevocationCache}
      → History c d
      → IsValid c
      → Rid u g (view c)
      → IsValid d × Rid u g (view d)
  History-Rid now_on valid h = (valid, h)
  History-Rid (followed before s room) valid h =
      let (k, r) = History-Rid before valid h in (Step-IsValid s k, Step-Rid s k room r)

  -- The revocation, and all that follows it, leave nothing older of the user.
  pub revocation-Rid :
      (c revoked d : RevocationCache) (event : Option String)
      → IsValid c
      → HasRoom c u
      → floor c u < g
      → apply_event c (some (user_wide u g event)) ≡ some revoked
      → History revoked d
      → Rid u g (view d)
  revocation-Rid c revoked d event valid room above e history =
      let payload = some (user_wide u g event) in
      let (made, e', i) =
        apply_event-Implements c (view c) (view-Implements c) valid payload (λ other is.
          subst (λ (x : SessionRevokedEvent). HasRoom c x.user_id) (eq_of_some is) room) in
      let same : made ≡ revoked = eq_of_some (sym e' ∙ e) in
      let start =
        subst (λ d. Rid u g (view d)) same
          (Implements-Rid i (
            subst (Rid u g) (sym (applied-revoked u g (view c) event above))
              (revoked-Rid u g (view c) event))) in
      let sound = Step-IsValid (received c revoked payload e) valid in
      (History-Rid history sound start).1

  -- Once a revocation of all sessions of a user has arrived, of a newer generation than the user's
  -- watermark, no entry of an older generation is ever in the cache again, whatever lookups, results,
  -- events, evictions and flushes follow, as long as no watermark has to be dropped for another user.
  pub no_resurrection :
      (c revoked d : RevocationCache) (event : Option String) (jti : String) (entry : Entry)
      → IsValid c
      → HasRoom c u
      → floor c u < g
      → apply_event c (some (user_wide u g event)) ≡ some revoked
      → History revoked d
      → lookup jti d.store ≡ some entry
      → entry.user_id ≡ u
      → g ≤ entry.auth_generation
  no_resurrection c revoked d event jti entry valid room above e history has mine =
      (revocation-Rid c revoked d event valid room above e history).held jti entry has mine
