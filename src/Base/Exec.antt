-- ===== src/Base/Exec.antt =====
-- Methods that change an object and may raise. What was written before a raise stays written, so
-- the state comes back beside the exception too.
use mathlib.Core.Path.{◌≡◌, refl}
use mathlib.Core.Logic.{◌⊎◌, inl, inr}

pub data Result {ℓ} (E A : Type ℓ) : Type ℓ where
  ok : A → Result E A
  raise : E → Result E A

pub Result-cases {ℓ} :
    {E A : Type ℓ} (r : Result E A) → ((a : A) × (r ≡ ok a)) ⊎ ((e : E) × (r ≡ raise e))
Result-cases (ok a) = inl (a, refl)
Result-cases (raise e) = inr (e, refl)

abbrev pub Exec {ℓ} : Type ℓ → Type ℓ → Type ℓ → Type ℓ
Exec E S A = S → Result E A × S

module _ {ℓ} {E S A : Type ℓ} where
  abbrev pub pure : A → Exec E S A
  pure a s = (ok a, s)

  abbrev pub fail : E → Exec E S A
  fail e s = (raise e, s)

  -- a value that was computed, or an exception that was met, outside the object
  abbrev pub lift : Result E A → Exec E S A
  lift r s = (r, s)

  abbrev pub gets : (S → A) → Exec E S A
  gets f s = (ok (f s), s)

abbrev pub modify {ℓ} : {E S : Type ℓ} → (S → S) → Exec E S (Unit {ℓ})
modify f s = (ok tt, f s)

module _ {ℓ} {E S A B : Type ℓ} where
  abbrev pub continue : (A → Exec E S B) → Result E A × S → Result E B × S
  continue f (ok a, s) = f a s
  continue f (raise e, s) = (raise e, s)

  infixl 5 ◌>>=◌
  abbrev pub ◌>>=◌ : Exec E S A → (A → Exec E S B) → Exec E S B
  ◌>>=◌ m f s = continue f (m s)

infixl 5 ◌>>◌
abbrev pub ◌>>◌ {ℓ} : {E S B : Type ℓ} → Exec E S (Unit {ℓ}) → Exec E S B → Exec E S B
m >> k = m >>= λ _. k

-- `try: m ... except: handler`, where the handler may raise again
abbrev pub handle {ℓ} : {E F S A : Type ℓ} → (E → Exec F S A) → Result E A × S → Result F A × S
handle handler (ok a, s) = (ok a, s)
handle handler (raise e, s) = handler e s

-- an action of a part of the object; the rest is left alone
abbrev pub within {ℓ} : {E S T A : Type ℓ} → (S → T) → (T → S → S) → Exec E T A → Exec E S A
within get put m s = let (r, t) = m (get s) in (r, put t s)
