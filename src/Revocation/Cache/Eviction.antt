-- ===== src/Revocation/Cache/Eviction.antt =====
-- What an eviction removes and what it keeps: fastapi_m8/_revocation.py, `evict_user_below`.
use fastapi_m.Base.{
  ℕ, ◌≤◌, String, ◌≡◌, refl, true, not, Bool, Option, none, some, [], ◌∷◌, arith, string_eq,
  if◌then◌else◌,
}
use fastapi_m.Base.Dict.{Dict, lookup, keep_where}
use fastapi_m.Base.Dict.Laws.{lookup-keep_where}
use fastapi_m.Revocation.Cache.{Entry, RevocationCache, evict_user_below, is_older}
use fastapi_m.Revocation.Cache.Validity.{IsValid, evict_user_below_lem}

keep_where_absorb :
    (p q : Entry → Bool) (d : Dict Entry)
    → ((e : Entry) → q e ≡ true → p e ≡ true)
    → keep_where q (keep_where p d) ≡ keep_where q d
unfolding keep_where
keep_where_absorb p q [] h = refl
keep_where_absorb p q ((k, e) ∷ d) h = ground (arith, keep_where_absorb p q d h, h e)

-- Evicting below two generations, in order, is evicting below the larger one.
pub keep-older_twice :
    (u : String) (g h : ℕ) (d : Dict Entry)
    → g ≤ h
    → keep_where
        (λ e. not (is_older u (some h) e))
        (keep_where (λ e. not (is_older u (some g) e)) d)
      ≡ keep_where (λ e. not (is_older u (some h) e)) d
keep-older_twice u g h d le = keep_where_absorb _ _ d (λ e k. ground arith)

-- On a valid cache a user-wide eviction raises no `KeyError`; it removes exactly the user's entries
-- of an older generation, or all of them where no generation is given, and it keeps every other
-- entry as it was, with the watermarks and the dedup ids.
evict_user_below-exact :
    (c : RevocationCache) (u : String) (g : Option ℕ) (j : String)
    → IsValid c
    → (c' : RevocationCache) × (evict_user_below c u g ≡ some c')
      × (lookup j c'.store ≡ elim (lookup j c.store) [
        | none ↦ none
        | some e ↦ if is_older u g e then none else some e
      ])
      × (c'.watermarks ≡ c.watermarks)
      × (c'.applied_event_ids ≡ c.applied_event_ids)
evict_user_below-exact c u g j h = (
  record c { store = keep_where (λ e. not (is_older u g e)) c.store },
  evict_user_below_lem c u g h,
  ground (arith, lookup-keep_where (λ e. not (is_older u g e)) j c.store h.store_distinct),
  refl,
  refl,
)
