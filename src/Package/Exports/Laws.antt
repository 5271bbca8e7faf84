-- ===== src/Package/Exports/Laws.antt =====
-- Every name that the package exports can be resolved: fastapi_m8/__init__.py.
use fastapi_m.Base.{String, ◌≡◌, Bool, some, List, any, string_eq, ◌==◌}
use fastapi_m.Base.Dict.{Dict, lookup, set}
use fastapi_m.Base.Exec.{Result, ok, raise}
use fastapi_m.Package.{
  ImportFailure, not_found, other, AccessError, module_not_found, import_failed, db_reexports,
}
use fastapi_m.Package.Exports.{Import}

abbrev binds : String → List Import → Bool
binds name = any (λ i. i.bound == name)

module _ {V W : Type 0}
    (import_name : (module_path name : String) → W → Result ImportFailure V × W) where
  -- the name is bound, in whatever value
  abbrev Bound : String → Dict V → Type 0
  Bound name globals = (v : V) × (lookup name globals ≡ some v)

  -- how an access to an attribute ends that is not refused as unknown, and what it leaves
  pub data Resolved (name : String) (globals : Dict V) (w : W)
      : Result AccessError V × (Dict V × W) → Type 0 where
    bound : (v : V) → lookup name globals ≡ some v → Resolved name globals w (ok v, (globals, w))
    imported :
        (path : String) (v : V) (w' : W)
        → lookup name db_reexports ≡ some path
        → import_name path name w ≡ (ok v, w')
        → Resolved name globals w (ok v, (set name v globals, w'))
    no_extra :
        (path : String) (w' : W)
        → lookup name db_reexports ≡ some path
        → import_name path name w ≡ (raise not_found, w')
        → Resolved name globals w (raise (module_not_found name path), (globals, w'))
    broken :
        (path : String) (w' : W)
        → lookup name db_reexports ≡ some path
        → import_name path name w ≡ (raise other, w')
        → Resolved name globals w (raise (import_failed other), (globals, w'))
