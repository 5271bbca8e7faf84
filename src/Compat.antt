-- ===== src/Compat.antt =====
-- fastapi_m8/_compat.py: the guard that checks the installed versions once per process. The minor of
-- `__version__` is an argument; what is installed, and the specifiers of `packaging`, are parameters.
pub mod Laws
use fastapi_m.Base.{String, Bool, true, false, Option, none, some, List, [], ◌∷◌, if◌then◌else◌}
use fastapi_m.Base.Dict.{Dict, lookup}
use fastapi_m.Base.Exec.{Result, ok, raise}

-- `COMPAT_MATRIX[minor]`: the ranges of the distributions that a minor needs
abbrev pub Requirements : Type 0
Requirements = Dict String

abbrev row : String → String → String × Requirements
row minor range = (minor, ("auth-sdk-m8", range) ∷ [])

abbrev pub compat_matrix : Dict Requirements
compat_matrix =
    row "1.0" ">=0.7.0,<0.8.0"
    ∷ row "1.1" ">=0.7.1,<0.8.0"
    ∷ row "1.2" ">=1.0.0,<2.0.0"
    ∷ row "1.3" ">=1.1.0,<2.0.0"
    ∷ row "1.4" ">=1.2.0,<2.0.0"
    ∷ row "1.5" ">=1.2.1,<2.0.0"
    ∷ row "1.6" ">=1.3.0,<2.0.0"
    ∷ row "2.0" ">=1.4.0,<2.0.0"
    ∷ row "2.1" ">=1.5.0,<2.0.0"
    ∷ row "3.0" ">=2.0.1,<3.0.0"
    ∷ row "3.1" ">=2.1.0,<3.0.0"
    ∷ row "3.2" ">=2.1.0,<3.0.0"
    ∷ row "3.3" ">=2.1.1,<3.0.0"
    ∷ row "4.0" ">=3.0.0,<4.0.0"
    ∷ row "4.1" ">=3.1.0,<4.0.0"
    ∷ row "4.2" ">=3.1.0,<4.0.0"
    ∷ row "4.3" ">=3.1.2,<4.0.0"
    ∷ row "4.4" ">=3.1.3,<4.0.0"
    ∷ row "4.5" ">=3.2.1,<4.0.0"
    ∷ row "4.6" ">=3.2.1,<4.0.0"
    ∷ []

-- `version` is `importlib.metadata.version`, `none` where it raises `PackageNotFoundError`, and `contains` is `found in SpecifierSet(spec)`.
pub record Installed : Type 0 where
  pub version : String → Option String
  pub contains : (spec found : String) → Bool

-- `_COMPAT_STATE`
pub record CompatState : Type 0 where
  pub checked : Bool
  pub auth_version : Option String

-- the two `RuntimeError`s, and the `PackageNotFoundError` of a distribution that is not installed
pub data CompatError : Type 0 where
  missing_row : (minor : String) → CompatError
  out_of_range : (dist spec found : String) → CompatError
  package_not_found : (dist : String) → CompatError

-- the loop over the requirements
unfoldable pub check_requirements : Installed → Requirements → Result CompatError (Unit {0})
check_requirements installed [] = ok tt
check_requirements installed ((dist, spec) ∷ rest) =
    let others = check_requirements installed rest in
    elim (installed.version dist) [
      | none ↦ raise (package_not_found dist)
      | some found ↦
          if installed.contains spec found then others else raise (out_of_range dist spec found)
    ]

abbrev pub checked_with :
    Installed
    → CompatState
    → Result CompatError (Unit {0})
    → Result CompatError (Unit {0}) × CompatState
checked_with installed state (raise e) = (raise e, state)
checked_with installed state (ok _) = elim (installed.version "auth-sdk-m8") [
  | none ↦ (raise (package_not_found "auth-sdk-m8"), state)
  | some found ↦ (ok tt, record { checked = true; auth_version = some found })
]

unfoldable pub assert_compat :
    Installed
    → Dict Requirements
    → (minor : String) → CompatState
    → Result CompatError (Unit {0}) × CompatState
assert_compat installed matrix minor state =
    if state.checked then (ok tt, state) else elim (lookup minor matrix) [
      | none ↦ (raise (missing_row minor), state)
      | some reqs ↦ checked_with installed state (check_requirements installed reqs)
    ]
