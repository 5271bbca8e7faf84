-- ===== src/Engine.antt =====
-- fastapi_m8/_engine.py. What SQLAlchemy and SQLModel do is a parameter: `E` is the type of their engines,
-- `D` of their sessions, and `X` of the exceptions that they raise.
pub mod Laws
use fastapi_m.Base.{Bool, false}
use fastapi_m.Base.Exec.{Result, ok, Exec, continue}
use fastapi_m.Http.{Url}
use fastapi_m.Config.{ConsumerServiceSettings}

pub record Sql (W E D X : Type 0) : Type 0 where
  pub create_engine : Url → Exec X W E
  pub open_session : E → Exec X W D
  pub close_session : D → W → W
  pub select_one : D → Exec X W (Unit {0})
  pub dispose : E → W → W

pub record DbEngine (E : Type 0) : Type 0 where
  pub engine : E
  pub is_async : Bool

module _ {W E D X : Type 0} (sql : Sql W E D X) where
  abbrev pub leave : {A : Type 0} → D → Result X A × W → Result X A × W
  leave s (result, w) = (result, sql.close_session s w)

  -- `with Session(engine) as s: body(s)`: a session that was opened is closed on every way out
  abbrev pub with_session : {A : Type 0} → E → (D → Exec X W A) → Exec X W A
  with_session engine body w = continue (λ s w'. leave s (body s w')) (sql.open_session engine w)

  -- `DbEngine.session`, around the body of the caller's `with`
  unfoldable pub session : {A : Type 0} → DbEngine E → (D → Exec X W A) → Exec X W A
  session db body = with_session db.engine body

  -- `DbEngine.session_dep`: FastAPI runs the request between the two halves of the generator
  unfoldable pub session_dep : {A : Type 0} → DbEngine E → (D → Exec X W A) → Exec X W A
  unfolding session
  session_dep db body = session db body

  -- `DbEngine.dispose`
  unfoldable pub dispose : DbEngine E → W → W
  dispose db w = sql.dispose db.engine w

  -- `create_db_engine`
  unfoldable pub create_db_engine : ConsumerServiceSettings → Exec X W (DbEngine E)
  create_db_engine settings w =
      continue (λ engine w'. (ok (record { engine = engine; is_async = false }), w'))
        (sql.create_engine settings.inherited.sqlalchemy_database_uri w)
