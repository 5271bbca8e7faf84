-- ===== src/App/HealthRoute/Gaps.antt =====
-- When the results of a round of checks are not complete: fastapi_m8/_app.py,
-- `_gather_health_results`.
use fastapi_m.Base.{
  ℕ, suc, ◌≡◌, ◌≢◌, ◌<◌, refl, sym, ◌∙◌, Option, none, some, List, [], ◌∷◌, All, arith, length,
  Option-cases, inl, inr,
}
use mathlib.Core.Path.{subst}
use fastapi_m.Health.{HealthCheckResult}
use fastapi_m.App.HealthRoute.{Completion, unfilled, put_at, run_tasks, filled}
use fastapi_m.App.HealthRoute.Order.{
  get_elem?, result_of, length-unfilled, length-put_at, get_elem?-put_at_self,
  get_elem?-put_at_other,
}

-- the place of a value that is missing
abbrev Missing : {R : Type 0} → List (Option R) → Type 0
Missing l = (i : ℕ) × (i < length l) × (get_elem? l i ≡ some none)

module _ {R : Type 0} where
  filled-Missing : (l : List (Option R)) → filled l ≡ none → Missing l
  unfolding filled
  filled-Missing [] h = absurd (ground arith)
  filled-Missing (none ∷ l) h = (0, omega arith, refl)
  filled-Missing (some r ∷ l) h = elim (Option-cases (filled l)) [
    | inl gap ↦ let (i, lt, at) = filled-Missing l gap in (suc i, omega (arith, lt), at)
    | inr (rs, full) ↦ absurd (ground (arith, full))
  ]

-- one of `n` checks has no task that ended
abbrev pub Gapped : {X : Type 0} → ℕ → List (Completion X) → Type 0
Gapped n tasks = (i : ℕ) × (i < n) × All (λ t. t.index ≢ i) tasks

module _ {X : Type 0} where
  run_tasks-Missing :
      (tasks : List (Completion X)) (l : List (Option (HealthCheckResult X)))
      → filled (run_tasks tasks l) ≡ none
      → (i : ℕ) × (i < length l) × (get_elem? l i ≡ some none) × All (λ t. t.index ≢ i) tasks
  unfolding run_tasks
  run_tasks-Missing [] l h = let (i, lt, at) = filled-Missing l h in (i, lt, at, tt)
  run_tasks-Missing (t ∷ rest) l h =
      let (i, lt, at, others) = run_tasks-Missing rest (put_at t.index (result_of t) l) h in
      let inside : i < length l = subst (λ n. i < n) (length-put_at t.index (result_of t) l) lt in
      let differs : t.index ≢ i = λ same.
        let own : get_elem? (put_at t.index (result_of t) l) i ≡ some (some (result_of t)) =
          subst (λ j. get_elem? (put_at j (result_of t) l) i ≡ some (some (result_of t))) (sym same)
            (get_elem?-put_at_self i (result_of t) l inside) in
        absurd (ground arith) in
      (
        i,
        inside,
        sym (get_elem?-put_at_other i t.index (result_of t) l differs) ∙ at,
        (differs, others),
      )

  -- A round fails to give its results only where a check has no task that ended.
  pub filled-Gapped :
      (n : ℕ) (tasks : List (Completion X))
      → filled (run_tasks tasks (unfilled n)) ≡ none
      → Gapped n tasks
  filled-Gapped n tasks h =
      let (i, lt, at, others) = run_tasks-Missing tasks (unfilled n) h in
      (i, subst (λ m. i < m) (length-unfilled (HealthCheckResult X) n) lt, others)
