-- ===== src/Revocation/Cache/Trim.antt =====
-- The bound on the watermark map: fastapi_m8/_revocation.py, `_trim_watermarks`.
use mathlib.Core.Path.{subst}
use fastapi_m.Base.{
  ℕ, suc, ◌-◌, ◌≤◌, ◌<◌, String, ◌≡◌, refl, none, some, List, [], ◌∷◌, arith, eq_iff, eq_refl, ltb,
  string_eq, Bool-cases, inl, inr, length,
}
use fastapi_m.Base.Dict.{Dict, lookup, set, remove, IsDistinct}
use fastapi_m.Base.Dict.Laws.{lookup-set, lookup-remove, remove-IsDistinct}
use fastapi_m.Revocation.Cache.{trim}

pub length-trim-le :
    (most : ℕ) (ws : Dict ℕ) (applied : Dict (List String)) → length (trim most ws applied).0 ≤ most
unfolding trim
length-trim-le most [] applied = omega arith
length-trim-le most ((o, w) ∷ ws) applied =
    ground (arith, length-trim-le most ws (remove o applied))

pub trim_of_length-le :
    (most : ℕ) (ws : Dict ℕ) (applied : Dict (List String))
    → length ws ≤ most
    → trim most ws applied ≡ (ws, applied)
unfolding trim
trim_of_length-le most [] applied h = refl
trim_of_length-le most ((o, w) ∷ ws) applied h = ground arith

-- An applied set is kept only for a user that has a watermark.
abbrev pub IsTracked : Dict ℕ → Dict (List String) → Type 0
IsTracked ws applied = (u : String) → lookup u ws ≡ none → lookup u applied ≡ none

IsTracked-tail :
    (o : String) (w : ℕ) (ws : Dict ℕ) (applied : Dict (List String))
    → IsTracked ((o, w) ∷ ws) applied
    → IsTracked ws (remove o applied)
unfolding lookup
IsTracked-tail o w ws applied h u absent = ground (arith, lookup-remove o u applied, h u)

pub trim-IsTracked :
    (most : ℕ) (ws : Dict ℕ) (applied : Dict (List String))
    → IsTracked ws applied
    → IsTracked (trim most ws applied).0 (trim most ws applied).1
unfolding trim
trim-IsTracked most [] applied h = h
trim-IsTracked most ((o, w) ∷ ws) applied h = elim (Bool-cases (ltb most (length ((o, w) ∷ ws)))) [
  | inl over ↦ rw over (trim-IsTracked most ws (remove o applied) (IsTracked-tail o w ws applied h))
  | inr fits ↦ rw fits h
]

pub trim-IsDistinct :
    (most : ℕ) (ws : Dict ℕ) (applied : Dict (List String))
    → IsDistinct ws
    → IsDistinct applied
    → IsDistinct (trim most ws applied).0 × IsDistinct (trim most ws applied).1
unfolding trim
trim-IsDistinct most [] applied h k = (tt, k)
trim-IsDistinct most ((o, w) ∷ ws) applied (a, h) k =
    ground (arith, trim-IsDistinct most ws (remove o applied) h (remove-IsDistinct o applied k))

pub length-set_tracked :
    (u : String) (v w : ℕ) (ws : Dict ℕ) → lookup u ws ≡ some w → length (set u v ws) ≡ length ws
unfolding lookup set
length-set_tracked u v w [] h = absurd (ground arith)
length-set_tracked u v w ((o, x) ∷ ws) h = ground (arith, length-set_tracked u v w ws)

-- A user that was added last is not the one that is dropped.
pub trim-set :
    (most : ℕ) (u : String) (v : ℕ) (ws : Dict ℕ) (applied : Dict (List String))
    → 0 < most
    → length ws ≤ most
    → lookup u ws ≡ none
    → (lookup u (trim most (set u v ws) applied).0 ≡ some v)
      × (lookup u (trim most (set u v ws) applied).1 ≡ lookup u applied)
unfolding trim set lookup
trim-set most u v [] applied p h absent = ground (arith, eq_refl u)
trim-set most u v ((o, w) ∷ ws) applied p h absent = ground (
  arith,
  trim-set most u v ws (remove o applied) p,
  lookup-remove o u applied,
  lookup-set u u v ws,
  eq_iff o u,
  eq_refl u,
)

-- The body of the loop, `n` times: the user that was tracked first loses its watermark and its ids.
data Pops : ℕ → Dict ℕ × Dict (List String) → Dict ℕ × Dict (List String) → Type 0 where
  stopped : {s : Dict ℕ × Dict (List String)} → Pops 0 s s
  popped :
      {n : ℕ} {o : String} {w : ℕ} {ws : Dict ℕ} {applied : Dict (List String)}
      {t : Dict ℕ × Dict (List String)}
      → Pops n (ws, remove o applied) t
      → Pops (suc n) ((o, w) ∷ ws, applied) t

trim_rounds :
    (most : ℕ) (ws : Dict ℕ) (applied : Dict (List String))
    → Pops (length ws - most) (ws, applied) (trim most ws applied)
unfolding trim
trim_rounds most [] applied = subst (λ n. Pops n ([], applied) ([], applied)) (omega arith) stopped
trim_rounds most ((o, w) ∷ ws) applied = elim (Bool-cases (ltb most (length ((o, w) ∷ ws)))) [
  | inl over ↦
      let e : suc (length ws - most) ≡ length ((o, w) ∷ ws) - most = ground arith in
      rw over (
        subst (λ n. Pops n ((o, w) ∷ ws, applied) (trim most ws (remove o applied))) e
          (popped (trim_rounds most ws (remove o applied))))
  | inr fits ↦
      let e : 0 ≡ length ((o, w) ∷ ws) - most = ground arith in
      rw fits (subst (λ n. Pops n ((o, w) ∷ ws, applied) ((o, w) ∷ ws, applied)) e stopped)
]

-- The loop of the bound ends: it runs exactly once for each user above the bound, oldest first, and
-- leaves no more users than the bound.
trim-Pops :
    (most : ℕ) (ws : Dict ℕ) (applied : Dict (List String))
    → Pops (length ws - most) (ws, applied) (trim most ws applied)
      × (length (trim most ws applied).0 ≤ most)
trim-Pops most ws applied = (trim_rounds most ws applied, length-trim-le most ws applied)
