-- ===== src/PreStart.antt =====
-- fastapi_m8/scripts/pre_start.py. The retrying of tenacity, the imports of the service's module and what
-- SQLModel does are parameters.
pub mod Retry
pub mod Laws
use fastapi_m.Base.{ℕ, suc, Bool, true, false, Option, none, some, if◌then◌else◌}
use fastapi_m.Base.Exec.{Result, ok, raise, Exec, continue}
use fastapi_m.Engine.{Sql, DbEngine, with_session, dispose}

abbrev pub max_tries : ℕ
max_tries = 300

abbrev pub wait_seconds : ℕ
wait_seconds = 5

-- `sys.exit(1)`, tenacity's `RetryError`, or what the service's module raises as it is imported
pub data PreStartError : Type 0 where
  system_exit retry_error import_raised : PreStartError

-- what `getattr(import_module("app.core.deps"), "engine", None)` comes to: `import_failed` is an
-- `ImportError` or an `AttributeError`, and `uncaught` any other exception
pub data Found (E : Type 0) : Type 0 where
  import_failed : Found E
  uncaught : Found E
  not_an_engine : Found E
  found : DbEngine E → Found E

-- `has_db_engine` and `has_tenacity` tell if the imports of `main` and of `_wait_for_db` succeed;
-- `retry` is tenacity's decorator, with the number of attempts and the seconds between them.
pub record Host (W E X : Type 0) : Type 0 where
  pub has_db_engine : Bool
  pub has_tenacity : Bool
  pub import_deps : W → Found E × W
  pub retry : (attempts seconds : ℕ) → Exec X W (Unit {0}) → Exec PreStartError W (Unit {0})

module _ {W E D X : Type 0} (sql : Sql W E D X) (host : Host W E X) where
  -- `_probe`
  unfoldable pub probe : E → Exec X W (Unit {0})
  probe engine = with_session sql engine sql.select_one

  -- `_wait_for_db`
  unfoldable pub wait_for_db : E → Exec PreStartError W (Unit {0})
  wait_for_db engine w =
      if host.has_tenacity
      then host.retry max_tries wait_seconds (probe engine) w
      else (raise system_exit, w)

  -- `main` from the import of the service's module on
  unfoldable pub run : Found E × W → Result PreStartError (Unit {0}) × W
  unfolding wait_for_db
  run (import_failed, w) = (ok tt, w)
  run (uncaught, w) = (raise import_raised, w)
  run (not_an_engine, w) = (ok tt, w)
  run (found db, w) = continue (λ ready w'. (ok tt, dispose sql db w')) (wait_for_db db.engine w)

  unfoldable pub main : Exec PreStartError W (Unit {0})
  unfolding run
  main w = if host.has_db_engine then run (host.import_deps w) else (ok tt, w)
