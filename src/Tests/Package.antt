-- ===== src/Tests/Package.antt =====
-- A run of fastapi_m8/__init__.py, with modules that can all be imported.
use fastapi_m.Base.{ℕ, suc, String, []}
use fastapi_m.Base.Dict.{Dict}
use fastapi_m.Base.Exec.{Result, ok}
use fastapi_m.Package.{ImportFailure}
use fastapi_m.Package.Exports.{imports, import_all}

-- the objects are numbered in the order in which they are imported
abbrev import_name : String → String → ℕ → Result ImportFailure ℕ × ℕ
import_name module_path name w = (ok w, suc w)

abbrev globals : Dict ℕ
globals = (import_all import_name imports ([], 0)).1.0
