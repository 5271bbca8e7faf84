-- ===== src/Package/Laws.antt =====
-- What is imported, and when: fastapi_m8/__init__.py.
use fastapi_m.Base.{
  String, ◌≡◌, ◌≢◌, refl, ap, ◌∙◌, some, arith, eq_iff, eq_refl, string_eq, Option-cases, inl, inr,
}
use fastapi_m.Base.Dict.{Dict, lookup, set}
use fastapi_m.Base.Dict.Laws.{lookup-set}
use fastapi_m.Base.Exec.{Result, ok, raise}
use fastapi_m.Package.{ImportFailure, not_found, other, db_reexports, remember, getattr, access}

module _ {V W : Type 0}
    (import_name : (module_path name : String) → W → Result ImportFailure V × W) where
  remembered :
      (path name : String) (globals globals' : Dict V) (r : Result ImportFailure V × W) (w : W)
      (value : V)
      → remember import_name path name globals r ≡ (ok value, (globals', w))
      → globals' ≡ set name value globals
  unfolding remember
  remembered path name globals globals' (raise not_found, w') w value h = absurd (ground arith)
  remembered path name globals globals' (raise other, w') w value h = absurd (ground arith)
  remembered path name globals globals' (ok v, w') w value h = ground arith

  accessed :
      (name elsewhere : String) (globals globals' : Dict V) (w w' : W) (value : V)
      → access import_name name (globals, w) ≡ (ok value, (globals', w'))
      → (lookup name globals' ≡ some value)
        × (name ≢ elsewhere → lookup elsewhere globals' ≡ lookup elsewhere globals)
  unfolding access getattr
  accessed name elsewhere globals globals' w w' value h =
      elim (Option-cases (lookup name globals)) [
        | inr (v, has) ↦
            let same : globals' ≡ globals = ground arith in
            let is : v ≡ value = ground arith in
            (ap (lookup name) same ∙ has ∙ ap some is, λ ne. ap (lookup elsewhere) same)
        | inl fresh ↦ elim (Option-cases (lookup name db_reexports)) [
          | inl unknown ↦ absurd (ground arith)
          | inr (path, known) ↦
              let same =
                remembered path name globals globals' (import_name path name w) w' value
                  (ground arith) in
              (
                ap (lookup name) same
                    ∙ lookup-set name name value globals
                    ∙ ground (arith, eq_refl name),
                λ ne.
                    ap (lookup elsewhere) same
                    ∙ lookup-set name elsewhere value globals
                    ∙ ground (arith, eq_iff name elsewhere),
              )
        ]
      ]

  -- A name that was resolved once is found again, as the same object, in whatever world, and nothing
  -- is imported for it; other names are left as they were.
  access_again :
      (name elsewhere : String) (globals globals' : Dict V) (w w' later : W) (value : V)
      → access import_name name (globals, w) ≡ (ok value, (globals', w'))
      → (access import_name name (globals', later) ≡ (ok value, (globals', later)))
        × (name ≢ elsewhere → lookup elsewhere globals' ≡ lookup elsewhere globals)
  unfolding access
  access_again name elsewhere globals globals' w w' later value h =
      let (found, others) = accessed name elsewhere globals globals' w w' value h in
      (rw (found, access) refl, others)
