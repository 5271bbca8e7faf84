-- ===== src/App/HealthRoute/Order.antt =====
-- The order in which the checks finish: fastapi_m8/_app.py, `_gather_health_results`.
use mathlib.Core.Path.{subst}
use mathlib.Core.List.{Memᴰ}
use mathlib.Core.List.Memᴰ.{head, tail}
use fastapi_m.Base.{
  ℕ, zero, suc, ◌≡◌, ◌≢◌, ◌<◌, refl, sym, ap, ◌∙◌, Option, none, some, List, [], ◌∷◌, All, arith,
  length,
}
use fastapi_m.Health.{HealthCheckResult, run_check}
use fastapi_m.App.{AppState, HealthCache}
use fastapi_m.App.HealthRoute.{
  HealthConfig, HealthWorld, Completion, unfilled, put_at, run_tasks, filled, remember, run_all,
}

-- the element at an index
abbrev pub get_elem? : {A : Type 0} → List A → ℕ → Option A
get_elem? [] i = none
get_elem? (x ∷ xs) zero = some x
get_elem? (x ∷ xs) (suc i) = get_elem? xs i

pub length-unfilled : (R : Type 0) (n : ℕ) → length (unfilled {R = R} n) ≡ n
unfolding unfilled
length-unfilled R zero = refl
length-unfilled R (suc n) = ap suc (length-unfilled R n)

module _ {R : Type 0} where
  pub get_elem?-put_at_self :
      (i : ℕ) (r : R) (l : List (Option R))
      → i < length l
      → get_elem? (put_at i r l) i ≡ some (some r)
  unfolding put_at
  get_elem?-put_at_self i r [] lt = absurd (omega arith)
  get_elem?-put_at_self zero r (x ∷ l) lt = refl
  get_elem?-put_at_self (suc i) r (x ∷ l) lt = get_elem?-put_at_self i r l (omega arith)

  pub get_elem?-put_at_other :
      (i j : ℕ) (r : R) (l : List (Option R)) → j ≢ i → get_elem? (put_at j r l) i ≡ get_elem? l i
  unfolding put_at
  get_elem?-put_at_other i j r [] ne = refl
  get_elem?-put_at_other zero zero r (x ∷ l) ne = absurd (ne refl)
  get_elem?-put_at_other zero (suc j) r (x ∷ l) ne = refl
  get_elem?-put_at_other (suc i) zero r (x ∷ l) ne = refl
  get_elem?-put_at_other (suc i) (suc j) r (x ∷ l) ne =
      get_elem?-put_at_other i j r l (λ e. ne (ap suc e))

  pub length-put_at : (i : ℕ) (r : R) (l : List (Option R)) → length (put_at i r l) ≡ length l
  unfolding put_at
  length-put_at i r [] = refl
  length-put_at zero r (x ∷ l) = refl
  length-put_at (suc i) r (x ∷ l) = ap suc (length-put_at i r l)

  -- a list without a gap is filled, each value at its place
  filled_full :
      (l : List (Option R))
      → ((i : ℕ) → i < length l → (r : R) × (get_elem? l i ≡ some (some r)))
      → (rs : List R) × (filled l ≡ some rs)
        × (length rs ≡ length l)
        × ((i : ℕ) (r : R) → get_elem? l i ≡ some (some r) → get_elem? rs i ≡ some r)
  unfolding filled
  filled_full [] h = ([], refl, refl, λ i r e. absurd (ground arith))
  filled_full (none ∷ l) h = let (r, e) = h 0 (omega arith) in absurd (ground arith)
  filled_full (some x ∷ l) h =
      let (rs, e, same, at) = filled_full l (λ i lt. h (suc i) (omega arith)) in
      (x ∷ rs, rw e refl, ap suc same, place rs at)
    where
      place :
          (rs : List R)
          → ((i : ℕ) (r : R) → get_elem? l i ≡ some (some r) → get_elem? rs i ≡ some r)
          → (i : ℕ) (r : R) → get_elem? (some x ∷ l) i ≡ some (some r)
          → get_elem? (x ∷ rs) i ≡ some r
      place rs at zero r e = cc
      place rs at (suc i) r e = at i r e

module _ {X : Type 0} where
  -- what a check comes to
  abbrev pub result_of : Completion X → HealthCheckResult X
  result_of t = run_check t.name t.timeout_error t.elapsed_ms t.outcome

  -- no two tasks have the same index
  abbrev pub IsDistinct : List (Completion X) → Type 0
  IsDistinct [] = Unit
  IsDistinct (t ∷ rest) = All (λ u. u.index ≢ t.index) rest × IsDistinct rest

  get_elem?-run_tasks_other :
      (i : ℕ) (tasks : List (Completion X)) (l : List (Option (HealthCheckResult X)))
      → All (λ u. u.index ≢ i) tasks
      → get_elem? (run_tasks tasks l) i ≡ get_elem? l i
  unfolding run_tasks
  get_elem?-run_tasks_other i [] l h = refl
  get_elem?-run_tasks_other i (t ∷ rest) l (ne, h) =
      get_elem?-run_tasks_other i rest _ h ∙ get_elem?-put_at_other i t.index _ l ne

  get_elem?-run_tasks :
      {t : Completion X} {tasks : List (Completion X)} (l : List (Option (HealthCheckResult X)))
      → Memᴰ t tasks
      → IsDistinct tasks
      → t.index < length l
      → get_elem? (run_tasks tasks l) t.index ≡ some (some (result_of t))
  unfolding run_tasks
  get_elem?-run_tasks l (head {x} {xs} e) (others, distinct) lt =
      let l' = put_at x.index (result_of x) l in
      subst (λ u. get_elem? (run_tasks xs l') u.index ≡ some (some (result_of u))) (sym e)
        (get_elem?-run_tasks_other x.index xs l' others
          ∙ get_elem?-put_at_self x.index (result_of x) l (subst (λ u. u.index < length l) e lt))
  get_elem?-run_tasks l (tail {x} {xs} m) (others, distinct) lt =
      get_elem?-run_tasks _ m distinct (rw (length-put_at x.index (result_of x) l) lt)

  length-run_tasks :
      (tasks : List (Completion X)) (l : List (Option (HealthCheckResult X)))
      → length (run_tasks tasks l) ≡ length l
  unfolding run_tasks
  length-run_tasks [] l = refl
  length-run_tasks (t ∷ rest) l = length-run_tasks rest _ ∙ length-put_at t.index (result_of t) l

  -- one task for each of `n` checks, and no other
  pub record IsComplete (n : ℕ) (tasks : List (Completion X)) : Type 0 where
    pub distinct : IsDistinct tasks
    pub every : (i : ℕ) → i < n → (t : Completion X) × Memᴰ t tasks × (t.index ≡ i)

  filled_tasks :
      (n : ℕ) (tasks : List (Completion X))
      → IsComplete n tasks
      → (rs : List (HealthCheckResult X)) × (filled (run_tasks tasks (unfilled n)) ≡ some rs)
        × (length rs ≡ n)
        × ((t : Completion X)
            → Memᴰ t tasks
            → t.index < n
            → get_elem? rs t.index ≡ some (result_of t))
  filled_tasks n tasks h =
      let l = run_tasks tasks (unfilled n) in
      let size : length l ≡ n =
        length-run_tasks tasks (unfilled n) ∙ length-unfilled (HealthCheckResult X) n in
      let there = λ (t : Completion X) (m : Memᴰ t tasks) (lt : t.index < n).
        get_elem?-run_tasks (unfilled n) m h.distinct
          (omega (arith, length-unfilled (HealthCheckResult X) n)) in
      let (rs, e, same, at) = filled_full l (λ i lt.
        let (t, m, is) = h.every i (omega arith) in
        (
          result_of t,
          subst (λ j. get_elem? l j ≡ some (some (result_of t))) is (there t m (omega arith)),
        )) in
      (rs, e, same ∙ size, λ t m lt. at t.index (result_of t) (there t m lt))

module _ {W Q X : Type 0} (world : HealthWorld W Q X) (config : HealthConfig) where
  remember-some :
      (results : List (HealthCheckResult X)) (app : AppState X) (w : W)
      → (cache : HealthCache X) × ((remember world config (some results) (app, w)).0 ≡ some cache)
        × (cache.results ≡ results)
  unfolding remember
  remember-some results app w = (_, refl, refl)

  -- In whatever order the checks finish, a round of checks gives as many results as there are checks,
  -- and the result of each check stands at its own place: where every check has one task that ends.
  pub run_all_any_order :
      (app : AppState X) (w : W)
      → IsComplete config.checks (world.run_checks w).0
      → (cache : HealthCache X) × ((run_all world config (app, w)).0 ≡ some cache)
        × (length cache.results ≡ config.checks)
        × ((t : Completion X)
            → Memᴰ t (world.run_checks w).0
            → t.index < config.checks
            → get_elem? cache.results t.index ≡ some (result_of t))
  unfolding run_all
  run_all_any_order app w h =
      let (rs, e, size, at) = filled_tasks config.checks (world.run_checks w).0 h in
      let (cache, kept, same) = remember-some rs app (world.run_checks w).1 in
      (
        cache,
        rw e kept,
        ap length same ∙ size,
        λ t m lt. ap (λ l. get_elem? l t.index) same ∙ at t m lt,
      )
