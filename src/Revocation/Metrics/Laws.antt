-- ===== src/Revocation/Metrics/Laws.antt =====
-- Metrics are registered once: fastapi_m8/_revocation.py, `_get_cache_metrics`.
use fastapi_m.Base.{
  ◌≡◌, ◌⊎◌, refl, ap, ◌∙◌, Bool, true, Option, none, some, List, [], ◌∷◌, All, inl, inr, Bool-cases,
}
use fastapi_m.Revocation.Metrics.{Observability, Global, build, metrics_for, get_cache_metrics}

module _ {G M W : Type 0} (same : G → G → Bool) (register : G → W → M × W) where
  -- one call after the other
  abbrev pub calls : List (Option (Observability G)) → Global G M W → List (Option M) × Global G M W
  calls [] s = ([], s)
  calls (obs ∷ rest) s =
      let (found, s') = get_cache_metrics same register obs s in
      let (later, s'') = calls rest s' in (found ∷ later, s'')

  module _ (g : G) (w : W) where
    -- the call meets this registry, or none
    abbrev On : Option (Observability G) → Type 0
    On none = Unit
    On (some obs) = obs.registry ≡ g

    -- nothing is registered yet, or the registry's metrics are, once
    abbrev Once : Global G M W → Type 0
    Once s = (s ≡ (none, w)) ⊎ (s ≡ (some (g, (register g w).0), (register g w).1))

    abbrev Its : Option M → Type 0
    Its m = (m ≡ none) ⊎ (m ≡ some (register g w).0)

    metrics_for-Once :
        (s : Global G M W)
        → same g g ≡ true
        → Once s
        → metrics_for same register g s
          ≡ (some (register g w).0, (some (g, (register g w).0), (register g w).1))
    unfolding metrics_for build
    metrics_for-Once s is (inl e) = ap (metrics_for same register g) e
    metrics_for-Once s is (inr e) = ap (metrics_for same register g) e ∙ rw is refl

    get_cache_metrics-Once :
        (obs : Option (Observability G)) (s : Global G M W)
        → same g g ≡ true
        → On obs
        → Once s
        → Its (get_cache_metrics same register obs s).0
          × Once (get_cache_metrics same register obs s).1
    unfolding get_cache_metrics
    get_cache_metrics-Once none s is on once = (inl refl, once)
    get_cache_metrics-Once (some obs) s is on once = elim (Bool-cases obs.is_set) [
      | inr off ↦ rw off (inl refl, once)
      | inl set ↦
          let e = ap (λ h. metrics_for same register h s) on ∙ metrics_for-Once s is once in
          rw (set, e) (inr refl, inr refl)
    ]

    -- As long as the SDK keeps its registry, the metrics are registered on it at most once, whatever
    -- number of calls there are and however observability is switched on and off between them: each
    -- call gets those metrics or none, and the world is as it was or as the one registration left it.
    calls-Once :
        (all : List (Option (Observability G))) (s : Global G M W)
        → same g g ≡ true
        → All On all
        → Once s
        → All Its (calls all s).0 × Once (calls all s).1
    calls-Once [] s is on once = (tt, once)
    calls-Once (obs ∷ rest) s is (on, ons) once =
        let (its, once') = get_cache_metrics-Once obs s is on once in
        let (all_its, once'') = calls-Once rest _ is ons once' in ((its, all_its), once'')
