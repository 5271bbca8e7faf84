-- ===== src/Package.antt =====
-- fastapi_m8/__init__.py: the names that are resolved on first access. `V` is the type of objects, and
-- `import_name` what `getattr(import_module(path), name)` does.
pub mod Laws
pub mod Exports
use fastapi_m.Base.{String, Bool, Option, none, some, List, [], ◌∷◌}
use fastapi_m.Base.Dict.{Dict, lookup, set}
use fastapi_m.Base.Exec.{Result, ok, raise, Exec}

-- `_DB_REEXPORTS`
abbrev pub db_reexports : Dict String
db_reexports =
    ("BaseController", "auth_sdk_m8.controllers.base")
    ∷ ("TimestampMixin", "auth_sdk_m8.models.shared")
    ∷ []

-- a `ModuleNotFoundError`, or any other exception of the import
pub data ImportFailure : Type 0 where
  not_found other : ImportFailure

-- `module_not_found` is the `ModuleNotFoundError` that names the extra to install.
pub data AccessError : Type 0 where
  attribute_error : (name : String) → AccessError
  module_not_found : (name module_path : String) → AccessError
  import_failed : ImportFailure → AccessError

module _ {V W : Type 0}
    (import_name : (module_path name : String) → W → Result ImportFailure V × W) where
  -- the globals of the module, beside the world
  abbrev Module : Type 0
  Module = Dict V × W

  -- the module has been imported, or has not
  unfoldable pub remember :
      (module_path name : String)
      → Dict V
      → Result ImportFailure V × W
      → Result AccessError V × Module
  remember module_path name globals (raise not_found, w) =
      (raise (module_not_found name module_path), (globals, w))
  remember module_path name globals (raise other, w) = (raise (import_failed other), (globals, w))
  remember module_path name globals (ok value, w) = (ok value, (set name value globals, w))

  -- `__getattr__`
  unfoldable pub getattr : String → Exec AccessError Module V
  getattr name (globals, w) = elim (lookup name db_reexports) [
    | none ↦ (raise (attribute_error name), (globals, w))
    | some module_path ↦ remember module_path name globals (import_name module_path name w)
  ]

  -- an access to an attribute of the module: Python asks `__getattr__` where the name is no global
  unfoldable pub access : String → Exec AccessError Module V
  access name (globals, w) = elim (lookup name globals) [
    | some value ↦ (ok value, (globals, w))
    | none ↦ getattr name (globals, w)
  ]
