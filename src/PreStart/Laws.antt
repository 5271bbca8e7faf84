-- ===== src/PreStart/Laws.antt =====
-- What the pre-start probe vouches for, and what it leaves behind: fastapi_m8/scripts/pre_start.py.
use fastapi_m.Base.{ℕ, suc, ◌≡◌, ◌<◌, refl, ◌∙◌, Bool, true, false, if◌then◌else◌}
use fastapi_m.Base.Exec.{Result, ok, raise, Exec, continue}
use fastapi_m.Engine.{Sql, DbEngine, leave, dispose}
use fastapi_m.Engine.Laws.{Sessions, with_session-opened}
use fastapi_m.PreStart.{
  max_tries, wait_seconds, PreStartError, system_exit, retry_error, import_raised, Found,
  import_failed, uncaught, not_an_engine, found, Host, probe, wait_for_db, run, main,
}
use fastapi_m.PreStart.Retry.{Tried, Failing, Last, success, failure, Tried-Last, Tried-measure}

if_ind :
    {A : Type 0} (P : A → Type 0) (b : Bool) (x y : A)
    → (b ≡ true → P x)
    → (b ≡ false → P y)
    → P (if b then x else y)
if_ind P true x y h k = h refl
if_ind P false x y h k = k refl

module _ {W E D X : Type 0} (sql : Sql W E D X) (host : Host W E X) where
  -- What one attempt to reach the database may do: no session can be opened; or one is, the query
  -- answers or raises, and the session is closed.
  pub data Queried (engine : E) (w : W) : Result X (Unit {0}) × W → Type 0 where
    unreachable :
        (e : X) (w' : W)
        → sql.open_session engine w ≡ (raise e, w')
        → Queried engine w (raise e, w')
    rejected :
        (d : D) (e : X) (w1 w2 : W)
        → sql.open_session engine w ≡ (ok d, w1)
        → sql.select_one d w1 ≡ (raise e, w2)
        → Queried engine w (raise e, sql.close_session d w2)
    replied :
        (d : D) (w1 w2 : W)
        → sql.open_session engine w ≡ (ok d, w1)
        → sql.select_one d w1 ≡ (ok tt, w2)
        → Queried engine w (ok tt, sql.close_session d w2)

  entered-Queried :
      (engine : E) (d : D) (w w1 : W) (r : Result X (Unit {0}) × W)
      → sql.open_session engine w ≡ (ok d, w1)
      → sql.select_one d w1 ≡ r
      → Queried engine w (leave sql d r)
  entered-Queried engine d w w1 (ok tt, w2) opened asked = replied d w1 w2 opened asked
  entered-Queried engine d w w1 (raise e, w2) opened asked = rejected d e w1 w2 opened asked

  opened-Queried :
      (engine : E) (w : W) (r : Result X D × W)
      → sql.open_session engine w ≡ r
      → Queried engine w (continue (λ d w'. leave sql d (sql.select_one d w')) r)
  opened-Queried engine w (ok d, w1) opened =
      entered-Queried engine d w w1 (sql.select_one d w1) opened refl
  opened-Queried engine w (raise e, w') refused = unreachable e w' refused

  probe-Queried : (engine : E) (w : W) → Queried engine w (probe sql host engine w)
  unfolding probe
  probe-Queried engine w = opened-Queried engine w (sql.open_session engine w) refl

  -- Every way in which the script ends.
  pub data Ended (pause : W → W) (w : W) : Result PreStartError (Unit {0}) × W → Type 0 where
    unsupported : host.has_db_engine ≡ false → Ended pause w (ok tt, w)
    no_module : (w1 : W) → host.import_deps w ≡ (import_failed, w1) → Ended pause w (ok tt, w1)
    stopped :
        (w1 : W) → host.import_deps w ≡ (uncaught, w1) → Ended pause w (raise import_raised, w1)
    no_engine : (w1 : W) → host.import_deps w ≡ (not_an_engine, w1) → Ended pause w (ok tt, w1)
    not_installed :
        (db : DbEngine E) (w1 : W)
        → host.import_deps w ≡ (found db, w1)
        → host.has_tenacity ≡ false
        → Ended pause w (raise system_exit, w1)
    awake :
        (db : DbEngine E) (tries : ℕ) (w1 w2 w3 : W)
        → host.import_deps w ≡ (found db, w1)
        → tries < max_tries
        → Failing pause (Queried db.engine) tries w1 w2
        → Queried db.engine w2 (ok tt, w3)
        → Ended pause w (ok tt, sql.dispose db.engine w3)
    asleep :
        (db : DbEngine E) (tries : ℕ) (e : X) (w1 w2 w3 : W)
        → host.import_deps w ≡ (found db, w1)
        → suc tries ≡ max_tries
        → Failing pause (Queried db.engine) tries w1 w2
        → Queried db.engine w2 (raise e, w3)
        → Ended pause w (raise retry_error, w3)

  abbrev pub IsTenacity : (W → W) → Type 0
  IsTenacity pause =
      (attempt : Exec X W (Unit {0})) (w : W)
      → Tried pause attempt max_tries w (host.retry max_tries wait_seconds attempt w)

  module _ (pause : W → W) (tenacity : IsTenacity pause) where
    waited-Ended :
        (db : DbEngine E) (w w1 : W) (r : Result PreStartError (Unit {0}) × W)
        → host.import_deps w ≡ (found db, w1)
        → Last pause (Queried db.engine) max_tries w1 r
        → Ended pause w (continue (λ ready w'. (ok tt, dispose sql db w')) r)
    unfolding dispose
    waited-Ended db w w1 r at (success tries v v' fewer failed done) =
        awake db tries w1 v v' at fewer failed done
    waited-Ended db w w1 r at (failure tries e v v' all failed done) =
        asleep db tries e w1 v v' at all failed done

    run-Ended : (w : W) (r : Found E × W) → host.import_deps w ≡ r → Ended pause w (run sql host r)
    unfolding run
    run-Ended w (import_failed, w1) at = no_module w1 at
    run-Ended w (uncaught, w1) at = stopped w1 at
    run-Ended w (not_an_engine, w1) at = no_engine w1 at
    run-Ended w (found db, w1) at =
        if_ind (λ r. Ended pause w (continue (λ ready w'. (ok tt, dispose sql db w')) r))
          host.has_tenacity (host.retry max_tries wait_seconds (probe sql host db.engine) w1)
          (raise system_exit, w1)
          (λ there. waited-Ended db w w1 _ at (
            Tried-Last pause (probe sql host db.engine) (Queried db.engine)
              (probe-Queried db.engine) (tenacity (probe sql host db.engine) w1)))
          (λ absent. not_installed db w1 at absent)

    main-Ended : (w : W) → Ended pause w (main sql host w)
    unfolding main
    main-Ended w =
        if_ind (Ended pause w) host.has_db_engine (run sql host (host.import_deps w)) (ok tt, w)
          (λ there. run-Ended w (host.import_deps w) refl) unsupported

  -- What the libraries do to the number of sessions that are open.
  pub record Counts (opened : W → ℕ) (pause : W → W) : Type 0 where
    pub sessions : Sessions sql opened
    pub selected : (d : D) (w : W) → opened (sql.select_one d w).1 ≡ opened w
    pub disposed : (engine : E) (w : W) → opened (sql.dispose engine w) ≡ opened w
    pub imported : (w : W) → opened (host.import_deps w).1 ≡ opened w
    pub paused : (w : W) → opened (pause w) ≡ opened w

  module _ (opened : W → ℕ) (pause : W → W) (counts : Counts opened pause) where
    probe-opened : (engine : E) (w : W) → opened (probe sql host engine w).1 ≡ opened w
    unfolding probe
    probe-opened = with_session-opened sql opened counts.sessions sql.select_one counts.selected

    disposed-opened :
        (db : DbEngine E) (r : Result PreStartError (Unit {0}) × W)
        → opened (continue (λ ready w'. (ok tt, dispose sql db w')) r).1 ≡ opened r.1
    unfolding dispose
    disposed-opened db (ok ready, w) = counts.disposed db.engine w
    disposed-opened db (raise e, w) = refl

    wait_for_db-opened :
        (tenacity : IsTenacity pause) (engine : E) (w : W)
        → opened (wait_for_db sql host engine w).1 ≡ opened w
    unfolding wait_for_db
    wait_for_db-opened tenacity engine w =
        if_ind (λ r. opened r.1 ≡ opened w) host.has_tenacity
          (host.retry max_tries wait_seconds (probe sql host engine) w) (raise system_exit, w)
          (λ there.
            Tried-measure pause (probe sql host engine) opened (probe-opened engine) counts.paused
              (tenacity (probe sql host engine) w))
          (λ absent. refl)

    run-opened :
        (tenacity : IsTenacity pause) (r : Found E × W) → opened (run sql host r).1 ≡ opened r.1
    unfolding run
    run-opened tenacity (import_failed, w) = refl
    run-opened tenacity (uncaught, w) = refl
    run-opened tenacity (not_an_engine, w) = refl
    run-opened tenacity (found db, w) =
        disposed-opened db (wait_for_db sql host db.engine w)
        ∙ wait_for_db-opened tenacity db.engine w

    -- The script ends in one of seven ways: it has nothing to probe, in three of them, or the import
    -- of the service's module raises, or the probe cannot be made, or after fewer than `max_tries`
    -- attempts that failed a session was opened, its query answered, the session was closed, and the
    -- engine disposed; or `max_tries` attempts have failed, each as no session could be opened or the
    -- query raised, and the service does not start. Each way leaves as many sessions open as there
    -- were. This is so for any retrying that makes at most `max_tries` attempts and ends at the first
    -- success.
    pub main_lem :
        (tenacity : IsTenacity pause) (w : W)
        → Ended pause w (main sql host w) × (opened (main sql host w).1 ≡ opened w)
    unfolding main
    main_lem tenacity w = (
      main-Ended pause tenacity w,
      if_ind (λ r. opened r.1 ≡ opened w) host.has_db_engine (run sql host (host.import_deps w))
          (ok tt, w) (λ there. run-opened tenacity (host.import_deps w) ∙ counts.imported w)
          (λ absent. refl),
    )
