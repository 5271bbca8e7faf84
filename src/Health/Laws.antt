-- ===== src/Health/Laws.antt =====
-- The aggregate as the worst of the statuses: fastapi_m8/_health.py, `aggregate`.
use fastapi_m.Base.{◌≡◌, refl, ap, ◌∙◌, List, [], ◌∷◌, map, nat_eq, arith}
use fastapi_m.Health.{
  HealthStatus, ok, degraded, fail, unknown, HealthAggregatePolicy, strict, lenient,
  HealthCheckResult, overall, aggregate,
}

-- the worse of two statuses
pub worse : HealthStatus → HealthStatus → HealthStatus
worse ok s = s
worse degraded ok = degraded
worse degraded s = s
worse unknown fail = fail
worse unknown s = unknown
worse fail s = fail

-- what a policy makes of one status
pub weighed : HealthAggregatePolicy → HealthStatus → HealthStatus
weighed strict unknown = fail
weighed _ s = s

unfoldable pub worst :
    {X : Type 0} → HealthAggregatePolicy → List (HealthCheckResult X) → HealthStatus
worst policy [] = ok
worst policy (r ∷ rest) = worse (weighed policy r.status) (worst policy rest)

overall-cons :
    (policy : HealthAggregatePolicy) (s : HealthStatus) (rest : List HealthStatus)
    → overall policy (s ∷ rest) ≡ worse (weighed policy s) (overall policy rest)
unfolding overall worse weighed
overall-cons strict ok [] = refl
overall-cons strict ok (t ∷ rest) = ground arith
overall-cons strict degraded [] = refl
overall-cons strict degraded (t ∷ rest) = ground arith
overall-cons strict fail [] = refl
overall-cons strict fail (t ∷ rest) = ground arith
overall-cons strict unknown [] = refl
overall-cons strict unknown (t ∷ rest) = ground arith
overall-cons lenient ok [] = refl
overall-cons lenient ok (t ∷ rest) = ground arith
overall-cons lenient degraded [] = refl
overall-cons lenient degraded (t ∷ rest) = ground arith
overall-cons lenient fail [] = refl
overall-cons lenient fail (t ∷ rest) = ground arith
overall-cons lenient unknown [] = refl
overall-cons lenient unknown (t ∷ rest) = ground arith

-- The aggregate is the worst status of the checks, in the order ok, degraded, unknown, fail, where
-- the strict policy counts an unknown one as a failure; so it is of no matter in which order, and how
-- often, the checks report.
pub aggregate-worst :
    {X : Type 0} (results : List (HealthCheckResult X)) (policy : HealthAggregatePolicy)
    → aggregate results policy ≡ worst policy results
unfolding aggregate worst overall
aggregate-worst [] policy = refl
aggregate-worst {X} (r ∷ rest) policy =
    overall-cons policy r.status (map (λ (r : HealthCheckResult X). r.status) rest)
    ∙ ap (worse (weighed policy r.status)) (aggregate-worst rest policy)
