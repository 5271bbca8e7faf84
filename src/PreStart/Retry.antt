-- ===== src/PreStart/Retry.antt =====
-- The retrying that fastapi_m8/scripts/pre_start.py asks tenacity for, and the attempt that ends it.
use fastapi_m.Base.{ℕ, suc, ◌≡◌, ◌<◌, arith, refl, sym, ap, ◌∙◌}
use fastapi_m.Base.Exec.{Result, ok, raise, Exec}
use fastapi_m.PreStart.{PreStartError, retry_error}
use mathlib.Core.Path.{subst}

-- What tenacity documents of `retry` with `stop_after_attempt` and `wait_fixed`: it tries at most
-- `n` times, the first success ends it, and so does the last failure, with a `RetryError`; between
-- two attempts it pauses.
pub data Tried {W X : Type 0} (pause : W → W) (attempt : Exec X W (Unit {0}))
    : ℕ → W → Result PreStartError (Unit {0}) × W → Type 0 where
  succeeded :
      {n : ℕ} {w : W} (w' : W) → attempt w ≡ (ok tt, w') → Tried pause attempt (suc n) w (ok tt, w')
  exhausted :
      {w : W} (e : X) (w' : W)
      → attempt w ≡ (raise e, w')
      → Tried pause attempt 1 w (raise retry_error, w')
  again :
      {n : ℕ} {w : W} {r : Result PreStartError (Unit {0}) × W} (e : X) (w' : W)
      → attempt w ≡ (raise e, w')
      → Tried pause attempt n (pause w') r
      → Tried pause attempt (suc n) w r

-- `n` attempts that fail, with a pause after each, lead from one world to the other. `Try` says what
-- one attempt may do.
pub data Failing {W X : Type 0} (pause : W → W) (Try : W → Result X (Unit {0}) × W → Type 0)
    : ℕ → W → W → Type 0 where
  no_failure : {w : W} → Failing pause Try 0 w w
  one_failure :
      {n : ℕ} {w v : W} (e : X) (w' : W)
      → Try w (raise e, w')
      → Failing pause Try n (pause w') v
      → Failing pause Try (suc n) w v

-- the attempt that ends a retry of at most `n`
pub data Last {W X : Type 0} (pause : W → W) (Try : W → Result X (Unit {0}) × W → Type 0) (n : ℕ)
    (w : W) : Result PreStartError (Unit {0}) × W → Type 0 where
  success :
      (k : ℕ) (v v' : W)
      → k < n
      → Failing pause Try k w v
      → Try v (ok tt, v')
      → Last pause Try n w (ok tt, v')
  failure :
      (k : ℕ) (e : X) (v v' : W)
      → suc k ≡ n
      → Failing pause Try k w v
      → Try v (raise e, v')
      → Last pause Try n w (raise retry_error, v')

module _ {W X : Type 0} (pause : W → W) (attempt : Exec X W (Unit {0})) where
  module _ (Try : W → Result X (Unit {0}) × W → Type 0) (tries : (w : W) → Try w (attempt w)) where
    one_try : (w : W) (r : Result X (Unit {0}) × W) → attempt w ≡ r → Try w r
    one_try w r h = subst (Try w) h (tries w)

    later-Last :
        {n : ℕ} {w : W} {r : Result PreStartError (Unit {0}) × W} (e : X) (w' : W)
        → Try w (raise e, w')
        → Last pause Try n (pause w') r
        → Last pause Try (suc n) w r
    later-Last e w' h (success k v v' fewer failed done) =
        success (suc k) v v' (omega (arith, fewer)) (one_failure e w' h failed) done
    later-Last e w' h (failure k e' v v' all failed done) =
        failure (suc k) e' v v' (ap suc all) (one_failure e w' h failed) done

    pub Tried-Last :
        {n : ℕ} {w : W} {r : Result PreStartError (Unit {0}) × W}
        → Tried pause attempt n w r
        → Last pause Try n w r
    Tried-Last {w = w} (succeeded w' h) =
        success 0 w w' (omega arith) no_failure (one_try w (ok tt, w') h)
    Tried-Last {w = w} (exhausted e w' h) =
        failure 0 e w w' refl no_failure (one_try w (raise e, w') h)
    Tried-Last {w = w} (again e w' h rest) =
        later-Last e w' (one_try w (raise e, w') h) (Tried-Last rest)

  pub Tried-measure :
      (measure : W → ℕ)
      → ((w : W) → measure (attempt w).1 ≡ measure w)
      → ((w : W) → measure (pause w) ≡ measure w)
      → {n : ℕ} {w : W} {r : Result PreStartError (Unit {0}) × W} → Tried pause attempt n w r
      → measure r.1 ≡ measure w
  Tried-measure measure keeps still {w = w} (succeeded w' h) =
      ap (λ r. measure r.1) (sym h) ∙ keeps w
  Tried-measure measure keeps still {w = w} (exhausted e w' h) =
      ap (λ r. measure r.1) (sym h) ∙ keeps w
  Tried-measure measure keeps still {w = w} (again e w' h rest) =
      Tried-measure measure keeps still rest ∙ still w' ∙ ap (λ r. measure r.1) (sym h) ∙ keeps w
