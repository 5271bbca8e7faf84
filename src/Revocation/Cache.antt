-- ===== src/Revocation/Cache.antt =====
-- fastapi_m8/_revocation.py, `JtiRevocationCache`. The clock is read by the caller and passed as
-- `now`, in any fixed unit; generations are natural numbers. An operation returns the new cache
-- beside its result, and `none` where a `del` would raise a `KeyError`.
pub mod Trim
pub mod Validity
pub mod Watermarks
pub mod Eviction
pub mod Entries
pub mod Ledger
use fastapi_m.Base.{
  ℕ, ◌+◌, String, Bool, true, false, ◌&&◌, Option, none, some, List, [], ◌∷◌, ltb, leb, ◌==◌,
  nat_eq, string_eq, if◌then◌else◌, length, elem,
}
use fastapi_m.Base.Dict.{Dict, lookup, set, remove, del_items, keys_where}

-- `(expires_at_monotonic, user_id, auth_generation)`
pub record Entry : Type 0 where
  pub expires_at : ℕ
  pub user_id : String
  pub auth_generation : ℕ

pub record RevocationCache : Type 0 where
  pub ttl : ℕ
  pub store : Dict Entry
  pub watermarks : Dict ℕ
  pub applied_event_ids : Dict (List String)

abbrev pub max_tracked_watermarks : ℕ
max_tracked_watermarks = 10_000

unfoldable pub init : ℕ → RevocationCache
init ttl_seconds = record { ttl = ttl_seconds; store = []; watermarks = []; applied_event_ids = [] }

-- `some false` is a live hit, `none` a miss; an expired entry is dropped.
unfoldable pub get : ℕ → RevocationCache → String → Option Bool × RevocationCache
get now c jti = elim (lookup jti c.store) [
  | none ↦ (none, c)
  | some entry ↦
      if leb entry.expires_at now
      then (none, record c { store = remove jti c.store })
      else (some false, c)
]

-- `self._watermarks.get(user_id, 0)`
abbrev pub floor : RevocationCache → String → ℕ
floor c user_id = elim (lookup user_id c.watermarks) [ none ↦ 0 | some w ↦ w ]

unfoldable pub put : ℕ → RevocationCache → String → String → ℕ → RevocationCache
put now c jti user_id auth_generation =
    if ltb auth_generation (floor c user_id) then c else record c {
      store =
          set jti
            (record {
              expires_at = now + c.ttl;
              user_id = user_id;
              auth_generation = auth_generation;
            })
            c.store;
    }

unfoldable pub is_superseded : RevocationCache → String → ℕ → Bool
is_superseded c user_id auth_generation = ltb auth_generation (floor c user_id)

-- The loop of `_trim_watermarks`: the head is the user that was tracked first.
unfoldable pub trim : ℕ → Dict ℕ → Dict (List String) → Dict ℕ × Dict (List String)
trim most [] applied = ([], applied)
trim most ((oldest, w) ∷ ws) applied =
    let rest = trim most ws (remove oldest applied) in
    if ltb most (length ((oldest, w) ∷ ws)) then rest else ((oldest, w) ∷ ws, applied)

unfoldable pub trim_watermarks : RevocationCache → RevocationCache
trim_watermarks c =
    let (ws, applied) = trim max_tracked_watermarks c.watermarks c.applied_event_ids in
    record c { watermarks = ws; applied_event_ids = applied }

-- `{event_id} if event_id else set()`
abbrev pub seed : Option String → List String
seed none = []
seed (some event_id) = if event_id == "" then [] else event_id ∷ []

-- the last lines of `note_revocation`: a newer generation, or a user that is not tracked
unfoldable pub advance : RevocationCache → String → ℕ → Option String → RevocationCache
unfolding trim_watermarks
advance c user_id auth_generation event_id = trim_watermarks (record c {
  watermarks = set user_id auth_generation c.watermarks;
  applied_event_ids = set user_id (seed event_id) c.applied_event_ids;
})

-- `self._applied_event_ids.get(user_id, set())`
abbrev pub applied_to : RevocationCache → String → List String
applied_to c user_id = elim (lookup user_id c.applied_event_ids) [ none ↦ [] | some ids ↦ ids ]

-- the branch of `note_revocation` at the watermark; `setdefault` writes an empty set first
unfoldable pub repeat : RevocationCache → String → Option String → Bool × RevocationCache
repeat c user_id event_id =
    let applied = applied_to c user_id in
    let with_ids =
      λ (ids : List String). record c { applied_event_ids = set user_id ids c.applied_event_ids } in
    elim event_id [
      | none ↦ (true, with_ids applied)
      | some event ↦
          if elem event applied
          then (false, with_ids applied)
          else (true, with_ids (event ∷ applied))
    ]

unfoldable pub note_revocation :
    RevocationCache → String → ℕ → Option String → Bool × RevocationCache
note_revocation c user_id auth_generation event_id = elim (lookup user_id c.watermarks) [
  | none ↦ (true, advance c user_id auth_generation event_id)
  | some watermark ↦
      if ltb auth_generation watermark
      then (false, c)
      else if auth_generation == watermark
      then repeat c user_id event_id
      else (true, advance c user_id auth_generation event_id)
]

unfoldable pub evict_jti : RevocationCache → String → RevocationCache
evict_jti c jti = record c { store = remove jti c.store }

-- the test of the comprehension in `evict_user_below`
abbrev pub is_older : String → Option ℕ → Entry → Bool
is_older user_id none entry = entry.user_id == user_id
is_older user_id (some auth_generation) entry =
    entry.user_id == user_id && ltb entry.auth_generation auth_generation

unfoldable pub evict_user_below : RevocationCache → String → Option ℕ → Option RevocationCache
evict_user_below c user_id auth_generation =
    elim (del_items (keys_where (is_older user_id auth_generation) c.store) c.store) [
      | none ↦ none
      | some store ↦ some (record c { store = store })
    ]

unfoldable pub evict_user : RevocationCache → String → Option RevocationCache
unfolding evict_user_below
evict_user c user_id = evict_user_below c user_id none

unfoldable pub flush_all : RevocationCache → RevocationCache
flush_all c = record c { store = [] }
