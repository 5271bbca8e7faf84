-- ===== src/Revocation/Events/Rid.antt =====
-- A ledger that is rid of a user's older entries, and the steps of fastapi_m8/_revocation.py that keep it
-- so.
use fastapi_m.Base.{
  ℕ, ◌≤◌, ◌<◌, String, ◌≡◌, refl, Bool, Option, none, some, arith, ltb, eq_iff, eq_refl, ◌==◌,
  nat_eq, string_eq, Bool-cases, Option-cases, inl, inr,
}
use fastapi_m.Revocation.Cache.{Entry, is_older}
use fastapi_m.Revocation.Cache.Ledger.{
  Ledger, drop_jti, drop_where, drop_all, raise_to, mark, at_watermark, against, note, drop_named,
  floor_of,
}
use fastapi_m.Revocation.Events.{SessionRevokedEvent, user_wide}
use fastapi_m.Revocation.Events.Refinement.{applied}

-- nothing older than `g` is held for the user, nor can be
pub record Rid (u : String) (g : ℕ) (l : Ledger) : Type 0 where
  pub bar : g ≤ floor_of l u
  pub held :
      (jti : String) (e : Entry) → l.entries jti ≡ some e → e.user_id ≡ u → g ≤ e.auth_generation

module _ (u : String) (g : ℕ) (l : Ledger) (h : Rid u g l) where
  pub drop_where-Rid : (p : Entry → Bool) → Rid u g (drop_where p l)
  drop_where-Rid p = record {
    bar = h.bar;
    held = λ jti e has mine. h.held jti e (ground (arith, Option-cases (l.entries jti))) mine;
  }

  pub drop_jti-Rid : (jti : String) → Rid u g (drop_jti jti l)
  drop_jti-Rid jti = record {
    bar = h.bar;
    held = λ j e has mine. h.held j e (ground (arith, Bool-cases (jti == j))) mine;
  }

  pub drop_all-Rid : Rid u g (drop_all l)
  drop_all-Rid = record { bar = h.bar; held = λ j e has mine. absurd (ground arith) }

  mark-Rid : (v e : String) → Rid u g (mark v e l)
  mark-Rid v e = record { bar = h.bar; held = h.held }

  raise_to-Rid :
      (v : String) (g' : ℕ) (event : Option String)
      → floor_of l v ≤ g'
      → Rid u g (raise_to v g' event l)
  raise_to-Rid v g' event le = record { bar = ground (arith, h.bar, eq_iff v u); held = h.held }

  at_watermark-Rid : (v : String) (event : Option String) → Rid u g (at_watermark v event l).1
  at_watermark-Rid v none = h
  at_watermark-Rid v (some e) = elim (Bool-cases (l.seen v e)) [
    | inl old ↦ rw old h
    | inr new ↦ rw new (mark-Rid v e)
  ]

  against-Rid :
      (v : String) (g' : ℕ) (event : Option String) (w : Option ℕ)
      → l.watermark v ≡ w
      → Rid u g (against v g' event w l).1
  against-Rid v g' event none is = raise_to-Rid v g' event (ground arith)
  against-Rid v g' event (some w) is = elim (Bool-cases (ltb g' w)) [
    | inl older ↦ rw older h
    | inr other ↦ elim (Bool-cases (g' == w)) [
      | inl same ↦ rw (other, same) (at_watermark-Rid v event)
      | inr differs ↦ rw (other, differs) (raise_to-Rid v g' event (ground arith))
    ]
  ]

  drop_named-Rid : (v : String) (g' : ℕ) (jti : Option String) → Rid u g (drop_named v g' jti l)
  drop_named-Rid v g' none = drop_where-Rid (is_older v (some g'))
  drop_named-Rid v g' (some jti) = drop_jti-Rid jti

pub applied-Rid :
    (u : String) (g : ℕ) (l : Ledger) (payload : Option SessionRevokedEvent)
    → Rid u g l
    → Rid u g (applied payload l)
applied-Rid u g l none h = drop_all-Rid u g l h
applied-Rid u g l (some event) h = elim (Option-cases event.auth_generation) [
  | inl v1 ↦ rw v1 (drop_where-Rid u g l h (is_older event.user_id none))
  | inr (g', v2) ↦
      let noted = note event.user_id g' event.event_id l in
      let k =
        against-Rid u g l h event.user_id g' event.event_id (l.watermark event.user_id) refl in
      elim (Bool-cases noted.0) [
        | inl act ↦ rw (v2, act) (drop_named-Rid u g noted.1 k event.user_id g' event.jti)
        | inr ignore ↦ rw (v2, ignore) k
      ]
]

module _ (u : String) (g : ℕ) where
  pub applied-revoked :
      (l : Ledger) (event : Option String)
      → floor_of l u < g
      → applied (some (user_wide u g event)) l
        ≡ drop_where (is_older u (some g)) (raise_to u g event l)
  applied-revoked l event above = ground (arith, Option-cases (l.watermark u))

  pub revoked-Rid :
      (l : Ledger) (event : Option String)
      → Rid u g (drop_where (is_older u (some g)) (raise_to u g event l))
  revoked-Rid l event = record {
    bar = ground (arith, eq_refl u);
    held = λ jti e has mine. ground (arith, Option-cases (l.entries jti), eq_iff e.user_id u);
  }
