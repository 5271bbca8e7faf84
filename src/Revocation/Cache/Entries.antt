-- ===== src/Revocation/Cache/Entries.antt =====
-- Reads after writes of the positive cache: fastapi_m8/_revocation.py, `get` and `put`.
use fastapi_m.Base.{
  ℕ, ◌+◌, ◌≤◌, String, ◌≡◌, ◌≢◌, ◌<◌, Bool, refl, false, none, some, arith, ltb, eq_iff, eq_refl,
  string_eq, ◌==◌, if◌then◌else◌,
}
use fastapi_m.Base.Dict.{lookup}
use fastapi_m.Base.Dict.Laws.{lookup-set, lookup-remove}
use fastapi_m.Revocation.Cache.{Entry, RevocationCache, get, put, floor, evict_jti}

-- A result that is not superseded is a hit exactly until its time to live is over.
pub get-put_self :
    (c : RevocationCache) (now later : ℕ) (jti u : String) (g : ℕ)
    → floor c u ≤ g
    → (get later (put now c jti u g) jti).0 ≡ (if ltb later (now + c.ttl) then some false else none)
unfolding get put
get-put_self c now later jti u g fresh = ground (
  arith,
  lookup-set jti jti (record { expires_at = now + c.ttl; user_id = u; auth_generation = g })
      c.store,
  eq_refl jti,
)

-- Caching one token changes the answer for no other token.
get-put_ne :
    (c : RevocationCache) (now later : ℕ) (jti j u : String) (g : ℕ)
    → jti ≢ j
    → (get later (put now c jti u g) j).0 ≡ (get later c j).0
unfolding get put
get-put_ne c now later jti j u g ne = ground (
  arith,
  lookup-set jti j (record { expires_at = now + c.ttl; user_id = u; auth_generation = g }) c.store,
  eq_iff jti j,
)

-- A read drops at most the entry that it read, and only after its time: what was a miss stays a
-- miss at every later time.
get-get_later :
    (c : RevocationCache) (now later : ℕ) (jti : String)
    → now ≤ later
    → (get now c jti).0 ≡ none
    → (get later (get now c jti).1 jti).0 ≡ none
unfolding get
get-get_later c now later jti le miss = ground (arith, lookup-remove jti jti c.store, eq_refl jti)

pub lookup-evict_jti :
    (c : RevocationCache) (j k : String)
    → lookup k (evict_jti c j).store ≡ (if j == k then none else lookup k c.store)
unfolding evict_jti
lookup-evict_jti c j k = lookup-remove j k c.store

pub watermarks-evict_jti :
    (c : RevocationCache) (j : String) → (evict_jti c j).watermarks ≡ c.watermarks
unfolding evict_jti
watermarks-evict_jti c j = refl

pub get_live :
    (t : ℕ) (c : RevocationCache) (jti : String) (e : Entry) (answer : Bool)
    → lookup jti c.store ≡ some e
    → (get t c jti).0 ≡ some answer
    → t < e.expires_at
unfolding get
get_live t c jti e answer has p = ground arith
