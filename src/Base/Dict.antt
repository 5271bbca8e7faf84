-- ===== src/Base/Dict.antt =====
-- Python's `dict` with text keys. The order of insertion is kept, since the program reads it.
pub mod Laws
use Prim.Native.String.{String}
use mathlib.Core.Path.{◌≡◌}
use mathlib.Core.Bool.{Bool}
use mathlib.Core.Option.{Option, none, some}
use mathlib.Core.List.{List, [], ◌∷◌}
use fastapi_m.Base.Tests.{◌==◌, string_eq, if◌then◌else◌, is_some}

abbrev pub Dict {ℓ} : Type ℓ → Type ℓ
Dict V = List (String × V)

module _ {ℓ} {V : Type ℓ} where
  -- `d.get(k)`
  unfoldable pub lookup : String → Dict V → Option V
  lookup k [] = none
  lookup k ((j, v) ∷ d) = if j == k then some v else lookup k d

  -- `d[k] = v`: a key that is there keeps its place
  unfoldable pub set : String → V → Dict V → Dict V
  set k v [] = (k, v) ∷ []
  set k v ((j, w) ∷ d) = let rest = set k v d in if j == k then (j, v) ∷ d else (j, w) ∷ rest

  -- `d.pop(k, None)`
  unfoldable pub remove : String → Dict V → Dict V
  remove k [] = []
  remove k ((j, v) ∷ d) = let rest = remove k d in if j == k then rest else (j, v) ∷ rest

  -- `del d[k]`; `none` is a `KeyError`
  unfoldable pub del_item : String → Dict V → Option (Dict V)
  del_item k d = if is_some (lookup k d) then some (remove k d) else none

  -- `for k in keys: del d[k]`
  unfoldable pub del_items : List String → Dict V → Option (Dict V)
  del_items [] d = some d
  del_items (k ∷ ks) d = elim (del_item k d) [ none ↦ none | some d' ↦ del_items ks d' ]

  -- `[k for k, v in d.items() if p(v)]`
  unfoldable pub keys_where : (V → Bool) → Dict V → List String
  keys_where p [] = []
  keys_where p ((k, v) ∷ d) = if p v then k ∷ keys_where p d else keys_where p d

  -- the entries whose value passes
  unfoldable pub keep_where : (V → Bool) → Dict V → Dict V
  keep_where p [] = []
  keep_where p ((k, v) ∷ d) = if p v then (k, v) ∷ keep_where p d else keep_where p d

  -- every key is there once
  abbrev pub IsDistinct : Dict V → Type ℓ
  IsDistinct [] = Unit
  IsDistinct ((k, v) ∷ d) = (lookup k d ≡ none) × IsDistinct d
