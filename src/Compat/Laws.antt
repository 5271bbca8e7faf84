-- ===== src/Compat/Laws.antt =====
-- The guard fails closed: fastapi_m8/_compat.py.
use fastapi_m.Base.{
  String, ◌≡◌, refl, sym, ◌∙◌, true, false, some, [], ◌∷◌, All, arith, Bool-cases, Option-cases,
  inl, inr,
}
use fastapi_m.Base.Dict.{Dict, lookup}
use fastapi_m.Base.Exec.{Result, ok, raise}
use fastapi_m.Compat.{
  Requirements, Installed, CompatState, CompatError, check_requirements, checked_with,
  assert_compat,
}

-- the distribution is installed, in a version that is in the range
abbrev pub IsMet : Installed → String × String → Type 0
IsMet installed requirement =
    (found : String) × (installed.version requirement.0 ≡ some found)
    × (installed.contains requirement.1 found ≡ true)

check-IsMet :
    (installed : Installed) (reqs : Requirements)
    → check_requirements installed reqs ≡ ok tt
    → All (IsMet installed) reqs
unfolding check_requirements
check-IsMet installed [] h = tt
check-IsMet installed ((dist, spec) ∷ rest) h = elim (Option-cases (installed.version dist)) [
  | inl missing ↦ absurd (ground (arith, missing))
  | inr (found, has) ↦ elim (Bool-cases (installed.contains spec found)) [
    | inl met ↦ ((found, has, met), check-IsMet installed rest (ground (arith, has, met)))
    | inr unmet ↦ absurd (ground (arith, has, unmet))
  ]
]

checked_of :
    (installed : Installed) (state state' : CompatState) (r : Result CompatError (Unit {0}))
    → checked_with installed state r ≡ (ok tt, state')
    → (r ≡ ok tt) × (state'.checked ≡ true)
checked_of installed state state' (ok u) h =
    (refl, ground (arith, Option-cases (installed.version "auth-sdk-m8")))
checked_of installed state state' (raise e) h = absurd (ground arith)

first_check :
    (installed : Installed) (matrix : Dict Requirements) (minor : String) (state : CompatState)
    (reqs : Requirements)
    → state.checked ≡ false
    → lookup minor matrix ≡ some reqs
    → assert_compat installed matrix minor state
      ≡ checked_with installed state (check_requirements installed reqs)
unfolding assert_compat
first_check installed matrix minor state reqs first has = ground (arith, first, has)

-- A first check that lets the process start has found a row for the running minor, with every
-- requirement of it met, and later checks ask for no version and change nothing.
pub assert_compat-IsMet :
    (installed later : Installed) (matrix : Dict Requirements) (minor : String)
    (state state' : CompatState)
    → state.checked ≡ false
    → assert_compat installed matrix minor state ≡ (ok tt, state')
    → ((reqs : Requirements) × (lookup minor matrix ≡ some reqs) × All (IsMet installed) reqs)
      × (assert_compat later matrix minor state' ≡ (ok tt, state'))
unfolding assert_compat
assert_compat-IsMet installed later matrix minor state state' first h =
    elim (Option-cases (lookup minor matrix)) [
      | inl missing ↦ absurd (ground (arith, missing))
      | inr (reqs, has) ↦
          let (met, done) =
            checked_of installed state state' (check_requirements installed reqs)
              (sym (first_check installed matrix minor state reqs first has) ∙ h) in
          ((reqs, has, check-IsMet installed reqs met), ground (arith, done))
    ]
