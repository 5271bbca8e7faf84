-- ===== src/Revocation/Metrics.antt =====
-- fastapi_m8/_revocation.py, `_get_cache_metrics`: the metrics of the cache, which are registered on
-- demand. `G` is the type of registries, `M` of metrics; `same` is Python's `is` on registries, and
-- `register` makes the counters and the gauge of prometheus_client.
pub mod Laws
use fastapi_m.Base.{Bool, not, Option, none, some, if◌then◌else◌}

-- what `_get_obs` returns: the SDK's module, `none` where the extra is not installed; `is_set` says
-- that `obs.get()` is not `None`
pub record Observability (G : Type 0) : Type 0 where
  pub is_set : Bool
  pub registry : G

-- `_cache_metrics`, beside the world
abbrev pub Global : Type 0 → Type 0 → Type 0 → Type 0
Global G M W = Option (G × M) × W

module _ {G M W : Type 0} (same : G → G → Bool) (register : G → W → M × W) where
  -- the last lines: new metrics, which are remembered with their registry
  unfoldable pub build : G → W → Option M × Global G M W
  build registry w =
      let (metrics, w') = register registry w in (some metrics, (some (registry, metrics), w'))

  unfoldable pub metrics_for : G → Global G M W → Option M × Global G M W
  metrics_for registry (none, w) = build registry w
  metrics_for registry (some (known, metrics), w) =
      let rebuilt = build registry w in
      if same known registry then (some metrics, (some (known, metrics), w)) else rebuilt

  unfoldable pub get_cache_metrics :
      Option (Observability G) → Global G M W → Option M × Global G M W
  get_cache_metrics none s = (none, s)
  get_cache_metrics (some obs) s =
      let found = metrics_for obs.registry s in if not obs.is_set then (none, s) else found
