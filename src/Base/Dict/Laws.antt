-- ===== src/Base/Dict/Laws.antt =====
-- Reads after writes, distinct keys, and deletion key by key.
use Prim.Native.Nat.{suc, ◌≤◌}
use Prim.Native.String.{String}
use mathlib.Core.Path.{◌≡◌, refl}
use mathlib.Core.Logic.{inl, inr}
use mathlib.Core.Bool.{Bool, false, not}
use mathlib.Core.Option.{none, some}
use mathlib.Core.List.{List, [], ◌∷◌}
use native.Mathlib.Omega.{arith}
use text.Mathlib.TextEquality.{eq_iff}
use text.Mathlib.TextPositions.{eq_refl}
use fastapi_m.Base.Tests.{◌==◌, string_eq, if◌then◌else◌, Option-cases}
use fastapi_m.Base.Lists.{length, All}
use fastapi_m.Base.Dict.{
  Dict, lookup, set, remove, del_item, del_items, keys_where, keep_where, IsDistinct,
}

module _ {ℓ} {V : Type ℓ} where
  pub lookup-set :
      (k j : String) (v : V) (d : Dict V)
      → lookup j (set k v d) ≡ (if k == j then some v else lookup j d)
  unfolding lookup set
  lookup-set k j v [] = refl
  lookup-set k j v ((i, w) ∷ d) =
      ground (arith, eq_iff k j, eq_iff i k, eq_iff i j, lookup-set k j v d)

  pub lookup-remove :
      (k j : String) (d : Dict V) → lookup j (remove k d) ≡ (if k == j then none else lookup j d)
  unfolding lookup remove
  lookup-remove k j [] = ground arith
  lookup-remove k j ((i, w) ∷ d) =
      ground (arith, eq_iff k j, eq_iff i k, eq_iff i j, lookup-remove k j d)

  remove_absent : (k : String) (d : Dict V) → lookup k d ≡ none → remove k d ≡ d
  unfolding lookup remove
  remove_absent k [] h = refl
  remove_absent k ((i, w) ∷ d) h = ground (arith, remove_absent k d)

  pub set-IsDistinct : (k : String) (v : V) (d : Dict V) → IsDistinct d → IsDistinct (set k v d)
  unfolding set lookup
  set-IsDistinct k v [] h = (refl, tt)
  set-IsDistinct k v ((i, w) ∷ d) (a, h) =
      ground (arith, set-IsDistinct k v d h, lookup-set k i v d, eq_iff i k, eq_iff k i)

  pub remove-IsDistinct : (k : String) (d : Dict V) → IsDistinct d → IsDistinct (remove k d)
  unfolding remove
  remove-IsDistinct k [] h = tt
  remove-IsDistinct k ((i, w) ∷ d) (a, h) =
      ground (arith, remove-IsDistinct k d h, lookup-remove k i d)

  lookup-keep_where-none :
      (p : V → Bool) (k : String) (d : Dict V)
      → lookup k d ≡ none
      → lookup k (keep_where p d) ≡ none
  unfolding lookup keep_where
  lookup-keep_where-none p k [] h = refl
  lookup-keep_where-none p k ((i, w) ∷ d) h = ground (arith, lookup-keep_where-none p k d)

  pub keep_where-IsDistinct :
      (p : V → Bool) (d : Dict V) → IsDistinct d → IsDistinct (keep_where p d)
  unfolding keep_where
  keep_where-IsDistinct p [] h = tt
  keep_where-IsDistinct p ((i, w) ∷ d) (a, h) =
      ground (arith, keep_where-IsDistinct p d h, lookup-keep_where-none p i d)

  pub lookup-keep_where :
      (p : V → Bool) (k : String) (d : Dict V)
      → IsDistinct d
      → lookup k (keep_where p d)
        ≡ elim (lookup k d) [ none ↦ none | some v ↦ if p v then some v else none ]
  unfolding lookup keep_where
  lookup-keep_where p k [] h = refl
  lookup-keep_where p k ((i, w) ∷ d) (a, h) =
      ground (arith, lookup-keep_where p k d h, lookup-keep_where-none p i d a, eq_iff i k)

  pub length-set-le : (k : String) (v : V) (d : Dict V) → length (set k v d) ≤ suc (length d)
  unfolding set
  length-set-le k v [] = omega arith
  length-set-le k v ((i, w) ∷ d) = ground (arith, length-set-le k v d)

  absent-keys_where :
      (p : V → Bool) (k : String) (d : Dict V)
      → lookup k d ≡ none
      → All (λ j. (k == j) ≡ false) (keys_where p d)
  unfolding lookup keys_where
  absent-keys_where p k [] h = tt
  absent-keys_where p k ((i, w) ∷ d) h =
      ground (arith, absent-keys_where p k d, eq_iff i k, eq_iff k i)

  del_item-cons :
      (j i : String) (w : V) (d : Dict V)
      → (i == j) ≡ false
      → del_item j ((i, w) ∷ d) ≡ elim (del_item j d) [ none ↦ none | some d' ↦ some ((i, w) ∷ d') ]
  unfolding del_item lookup remove
  del_item-cons j i w d h = ground arith

  del_items-cons :
      (ks : List String) (i : String) (w : V) (d d' : Dict V)
      → All (λ j. (i == j) ≡ false) ks
      → del_items ks d ≡ some d'
      → del_items ks ((i, w) ∷ d) ≡ some ((i, w) ∷ d')
  unfolding del_items
  del_items-cons [] i w d d' h e = ground arith
  del_items-cons (k ∷ ks) i w d d' (h, hs) e = elim (Option-cases (del_item k d)) [
    | inl gone ↦ ground arith
    | inr (d'', found) ↦ ground (arith, del_item-cons k i w d h, del_items-cons ks i w d'' d' hs)
  ]

  del_item_head :
      (i : String) (w : V) (d : Dict V) → lookup i d ≡ none → del_item i ((i, w) ∷ d) ≡ some d
  unfolding del_item lookup remove
  del_item_head i w d h = ground (arith, eq_refl i, remove_absent i d h)

  -- Deleting, key by key, the entries that pass a test raises no `KeyError`, and leaves the others
  -- in their order.
  pub del_items-keys_where :
      (p : V → Bool) (d : Dict V)
      → IsDistinct d
      → del_items (keys_where p d) d ≡ some (keep_where (λ v. not (p v)) d)
  unfolding del_items keys_where keep_where
  del_items-keys_where p [] h = refl
  del_items-keys_where p ((i, w) ∷ d) (a, h) = ground (
    arith,
    del_item_head i w d a,
    del_items-keys_where p d h,
    del_items-cons (keys_where p d) i w d (keep_where (λ v. not (p v)) d)
        (absent-keys_where p i d a),
  )
