-- ===== src/Tests/PreStart.antt =====
-- A run of fastapi_m8/scripts/pre_start.py: the database answers from the third attempt on.
use fastapi_m.Base.{
  ℕ, zero, suc, ◌-◌, ◌≡◌, refl, ap, true, false, arith, ltb, if◌then◌else◌, inl, inr,
}
use fastapi_m.Base.Exec.{ok, raise, Exec, Result-cases}
use fastapi_m.Engine.{Sql, dispose}
use fastapi_m.Engine.Laws.{Sessions}
use fastapi_m.PreStart.{PreStartError, retry_error, found, Host, main, probe}
use fastapi_m.PreStart.Retry.{Tried, succeeded, exhausted, again}
use fastapi_m.PreStart.Laws.{Ended, IsTenacity, Counts, main_lem}

-- the number of queries that were made, and of sessions that are open
abbrev World : Type 0
World = ℕ × ℕ

abbrev sql : Sql World ℕ ℕ ℕ
sql = record {
  create_engine = λ url w. (ok 7, w);
  open_session = λ engine w. (ok engine, (w.0, suc w.1));
  close_session = λ d w. (w.0, w.1 - 1);
  select_one = λ d w. (if ltb w.0 2 then raise w.0 else ok tt, (suc w.0, w.1));
  dispose = λ engine w. w;
}

-- one attempt, and `n` more
retry : ℕ → Exec ℕ World (Unit {0}) → Exec PreStartError World (Unit {0})
retry zero attempt w = elim (attempt w).0 [
  | ok done ↦ (ok tt, (attempt w).1)
  | raise e ↦ (raise retry_error, (attempt w).1)
]
retry (suc n) attempt w = elim (attempt w).0 [
  | ok done ↦ (ok tt, (attempt w).1)
  | raise e ↦ retry n attempt (attempt w).1
]

abbrev host : Host World ℕ ℕ
host = record {
  has_db_engine = true;
  has_tenacity = true;
  import_deps = λ w. (found (record { engine = 7; is_async = false }), w);
  retry = λ attempts seconds. retry (attempts - 1);
}

retry-Tried :
    (n : ℕ) (attempt : Exec ℕ World (Unit {0})) (w : World)
    → Tried (λ w. w) attempt (suc n) w (retry n attempt w)
unfolding retry
retry-Tried zero attempt w = elim (Result-cases (attempt w).0) [
  | inl (done, is) ↦ rw (is, retry) (succeeded (attempt w).1 (ap (λ r. (r, (attempt w).1)) is))
  | inr (e, is) ↦ rw (is, retry) (exhausted e (attempt w).1 (ap (λ r. (r, (attempt w).1)) is))
]
retry-Tried (suc n) attempt w = elim (Result-cases (attempt w).0) [
  | inl (done, is) ↦ rw (is, retry) (succeeded (attempt w).1 (ap (λ r. (r, (attempt w).1)) is))
  | inr (e, is) ↦
      rw (is, retry)
        (again e (attempt w).1 (ap (λ r. (r, (attempt w).1)) is)
          (retry-Tried n attempt (attempt w).1))
]

tenacity : IsTenacity sql host (λ w. w)
tenacity attempt w = retry-Tried 299 attempt w

sessions : Sessions sql (λ w. w.1)
sessions = record {
  one_more = λ engine d w w' h. ground arith;
  no_more = λ engine e w w' h. absurd (ground arith);
  one_less = λ d w n h. omega (arith, h);
}

counts : Counts sql host (λ w. w.1) (λ w. w)
counts = record {
  sessions = sessions;
  selected = λ d w. refl;
  disposed = λ engine w. refl;
  imported = λ w. refl;
  paused = λ w. refl;
}

main_lem_example :
    Ended sql host (λ w. w) (0, 0) (main sql host (0, 0)) × ((main sql host (0, 0)).1.1 ≡ 0)
main_lem_example = main_lem sql host (λ w. w.1) (λ w. w) counts tenacity (0, 0)

awakes : main sql host (0, 0) ≡ (ok tt, (3, 0))
unfolding main probe retry dispose
awakes = refl
