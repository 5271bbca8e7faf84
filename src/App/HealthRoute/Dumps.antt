-- ===== src/App/HealthRoute/Dumps.antt =====
-- What the dumps of results keep of them: fastapi_m8/_app.py, `_build_health_body`, and
-- fastapi_m8/_health.py, `model_dump`.
use fastapi_m.Base.{ℕ, ◌≡◌, refl, ap, Bool, List, [], ◌∷◌, map}
use fastapi_m.Health.{HealthAggregatePolicy, HealthCheckResult, model_dump}
use fastapi_m.Health.Laws.{worse, weighed, worst}

module _ {X : Type 0} (is_space : ℕ → Bool) (same_letter : ℕ → ℕ → Bool) where
  abbrev dump : List (HealthCheckResult X) → List (HealthCheckResult X × Bool)
  dump = map (model_dump is_space same_letter)

  pub dump-names :
      (rs : List (HealthCheckResult X)) → map (λ c. c.0.name) (dump rs) ≡ map (λ r. r.name) rs
  unfolding model_dump
  dump-names [] = refl
  dump-names (r ∷ rs) = ap (λ l. r.name ∷ l) (dump-names rs)

  pub dump-statuses :
      (rs : List (HealthCheckResult X)) → map (λ c. c.0.status) (dump rs) ≡ map (λ r. r.status) rs
  unfolding model_dump
  dump-statuses [] = refl
  dump-statuses (r ∷ rs) = ap (λ l. r.status ∷ l) (dump-statuses rs)

  pub worst-dump :
      (policy : HealthAggregatePolicy) (rs : List (HealthCheckResult X))
      → worst policy (map (λ c. c.0) (dump rs)) ≡ worst policy rs
  unfolding model_dump worst
  worst-dump policy [] = refl
  worst-dump policy (r ∷ rs) = ap (worse (weighed policy r.status)) (worst-dump policy rs)
