-- ===== src/Engine/Laws.antt =====
-- What is left behind by a session of fastapi_m8/_engine.py, whatever its body does.
use fastapi_m.Base.{ℕ, suc, ◌≡◌, refl, ◌∙◌}
use fastapi_m.Base.Exec.{Result, ok, raise, Exec, continue}
use fastapi_m.Engine.{Sql, DbEngine, leave, with_session, session, session_dep}

module _ {W E D X : Type 0} (sql : Sql W E D X) where
  -- What SQLModel does to the number of sessions that are open.
  pub record Sessions (opened : W → ℕ) : Type 0 where
    pub one_more :
        (engine : E) (d : D) (w w' : W)
        → sql.open_session engine w ≡ (ok d, w')
        → opened w' ≡ suc (opened w)
    pub no_more :
        (engine : E) (e : X) (w w' : W)
        → sql.open_session engine w ≡ (raise e, w')
        → opened w' ≡ opened w
    pub one_less : (d : D) (w : W) (n : ℕ) → opened w ≡ suc n → opened (sql.close_session d w) ≡ n

  module _ (opened : W → ℕ) (sessions : Sessions opened) {A : Type 0} (body : D → Exec X W A)
      (even : (d : D) (w : W) → opened (body d w).1 ≡ opened w) where
    entered-opened :
        (engine : E) (w : W) (r : Result X D × W)
        → sql.open_session engine w ≡ r
        → opened (continue (λ d w'. leave sql d (body d w')) r).1 ≡ opened w
    entered-opened engine w (ok d, w') h =
        sessions.one_less d (body d w').1 (opened w) (even d w' ∙ sessions.one_more engine d w w' h)
    entered-opened engine w (raise e, w') h = sessions.no_more engine e w w' h

    pub with_session-opened :
        (engine : E) (w : W) → opened (with_session sql engine body w).1 ≡ opened w
    with_session-opened engine w = entered-opened engine w (sql.open_session engine w) refl

    -- A request leaves as many sessions open as there were, whether it returns or raises and even if
    -- no session could be opened, unless its own code opens or closes others.
    session_dep-opened : (db : DbEngine E) (w : W) → opened (session_dep sql db body w).1 ≡ opened w
    unfolding session_dep session
    session_dep-opened db w = with_session-opened db.engine w
