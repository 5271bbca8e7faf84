-- ===== src/Revocation/Client.antt =====
-- fastapi_m8/_revocation.py, `RemoteRevocationClient`. A method takes the client beside the world
-- and gives both back; `metrics` is what `_get_cache_metrics` returns, with its counters as fields.
pub mod Frame
pub mod Attempts
pub mod Soundness
pub mod Bypass
pub mod Retry
pub mod Aftermath
use fastapi_m.Base.{
  ℕ, suc, String, Bool, true, false, not, ◌&&◌, Option, none, some, [], ◌∷◌, ltb, ◌==◌, nat_eq,
  string_eq, if◌then◌else◌, is_some,
}
use fastapi_m.Base.Dict.{lookup}
use fastapi_m.Base.Exec.{
  Result, ok, raise, Exec, pure, fail, lift, gets, modify, handle, continue, within, ◌>>=◌, ◌>>◌,
}
use fastapi_m.Http.{
  Url, Failure, http_status, jti_status, Response, JtiStatus, inactive, active, Headers, Network,
}
use fastapi_m.InternalAuth.{
  InternalAuth, static_auth, internal_token_header, call, now, raise_for_status, headers,
  invalidate,
}
use fastapi_m.Revocation.Cache.{RevocationCache, get, put, is_superseded}
use fastapi_m.Revocation.Cache as Cache

pub record CacheMetrics : Type 0 where
  pub hits : ℕ
  pub misses : ℕ
  pub ttl_seconds : ℕ
  pub failures_open : ℕ
  pub failures_closed : ℕ

pub record RevocationClient : Type 0 where
  pub url : Url
  pub schema_version : String
  pub auth : InternalAuth
  pub fail_closed : Bool
  pub cache_ttl : ℕ
  pub cache : Option RevocationCache
  pub metrics : Option CacheMetrics

-- `RevocationDecisionError` with its reason, and `RevocationCheckError` with its cause
pub data RevocationError : Type 0 where
  decision_error : (reason : String) → RevocationError
  check_error : Failure → RevocationError

-- what `_query_status` raises
pub data QueryError : Type 0 where
  decision : (reason : String) → QueryError
  failed : Failure → QueryError

abbrev pub client_with : Url → InternalAuth → Bool → ℕ → String → RevocationClient
client_with url auth fail_closed cache_ttl schema_version = record {
  url = url;
  schema_version = schema_version;
  auth = auth;
  fail_closed = fail_closed;
  cache_ttl = cache_ttl;
  cache = if ltb 0 cache_ttl then some (Cache.init cache_ttl) else none;
  metrics = none;
}

-- the constructor; `none` is its `ValueError`
unfoldable pub init :
    Url
    → (private_api_secret : Option String) → (auth_provider : Option InternalAuth)
    → (fail_closed : Bool) → (cache_ttl : ℕ) → (schema_version : String) → Option RevocationClient
init url (some secret) none fail_closed cache_ttl schema_version = some (
    client_with url (static_auth ((internal_token_header, secret) ∷ [])) fail_closed cache_ttl
      schema_version)
init url none (some provider) fail_closed cache_ttl schema_version =
    some (client_with url provider fail_closed cache_ttl schema_version)
init url secret provider fail_closed cache_ttl schema_version = none

abbrev count_lookup : Bool → ℕ → CacheMetrics → CacheMetrics
count_lookup true ttl m = record m { hits = suc m.hits; ttl_seconds = ttl }
count_lookup false ttl m = record m { misses = suc m.misses; ttl_seconds = ttl }

abbrev count_failure : Bool → CacheMetrics → CacheMetrics
count_failure true m = record m { failures_closed = suc m.failures_closed }
count_failure false m = record m { failures_open = suc m.failures_open }

-- `metrics` are changed if they are there
abbrev observe : (CacheMetrics → CacheMetrics) → RevocationClient → RevocationClient
observe f c = record c { metrics = elim c.metrics [ none ↦ none | some m ↦ some (f m) ] }

-- `_record_lookup`: a hit or a miss
unfoldable pub record_lookup : Bool → RevocationClient → RevocationClient
record_lookup hit c = observe (count_lookup hit c.cache_ttl) c

-- `_record_check_failure`: fail-closed or fail-open
unfoldable pub record_check_failure : Bool → RevocationClient → RevocationClient
record_check_failure closed c = observe (count_failure closed) c

module _ {W : Type 0} (net : Network W) where
  open net use {read_status}

  abbrev pub Session : Type 0
  Session = RevocationClient × W

  abbrev update : {E : Type 0} → (RevocationClient → RevocationClient) → Exec E Session (Unit {0})
  update f = modify λ s. (f s.0, s.1)

  abbrev auth_headers : Exec Failure Session Headers
  auth_headers =
      within (λ s. (s.0.auth, s.1)) (λ t s. (record s.0 { auth = t.0 }, t.1)) (headers net)

  -- `_post`
  unfoldable pub post_status : (jti user_id : String) → Exec Failure Session Response
  post_status jti user_id = do
    h ← auth_headers
    c ← gets (λ s. s.0)
    response ←
        call net
          (record { url = c.url; headers = h; body = jti_status jti user_id c.schema_version })
    raise_for_status net response

  -- the `except` clause of `_query_status`
  unfoldable pub retry_status : (jti user_id : String) → Failure → Exec Failure Session Response
  retry_status jti user_id (http_status status) (c, w) =
      let (again, auth) = invalidate c.auth in
      if status == 401
      then (if again then post_status jti user_id else fail (http_status status))
          (record c { auth = auth }, w)
      else fail (http_status status) (c, w)
  retry_status jti user_id e s = fail e s

  -- `_parse`, and the check of the subject
  unfoldable pub judge : (user_id : String) → Response → Result QueryError JtiStatus
  judge user_id response = elim (read_status response.content) [
    | none ↦ raise (decision "malformed_response")
    | some inactive ↦ ok inactive
    | some (active subject generation) ↦
        if subject == user_id
        then ok (active subject generation)
        else raise (decision "subject_mismatch")
  ]

  abbrev pub wrap : {A : Type 0} → Result Failure A × Session → Result QueryError A × Session
  wrap = handle λ e. fail (failed e)

  -- the `try` statement of `_query_status`
  unfoldable pub send_status : (jti user_id : String) → Exec Failure Session Response
  send_status jti user_id s = handle (retry_status jti user_id) (post_status jti user_id s)

  unfoldable pub query_status : (jti user_id : String) → Exec QueryError Session JtiStatus
  query_status jti user_id s =
      continue (λ response. lift (judge user_id response)) (wrap (send_status jti user_id s))

  -- the lookup at the top of `is_revoked`; the clock is read only if there is an entry
  unfoldable pub consult : String → Exec RevocationError Session (Option Bool)
  consult jti (c, w) = elim c.cache [
    | none ↦ (ok none, (c, w))
    | some cache ↦ elim (lookup jti cache.store) [
      | none ↦ (ok none, (c, w))
      | some _ ↦
          let (t, w') = net.monotonic w in
          let (answer, cache') = get t cache jti in
          (ok answer, (record c { cache = some cache' }, w'))
    ]
  ]

  -- `self._cache.put(jti, user_id, generation)`
  abbrev store_active : String → String → ℕ → RevocationCache → Exec RevocationError Session Bool
  store_active jti user_id generation cache (c, w) =
      let (t, w') = net.monotonic w in
      (ok false, (record c { cache = some (put t cache jti user_id generation) }, w'))

  -- the last lines of `is_revoked`
  unfoldable pub decide : (jti user_id : String) → JtiStatus → Exec RevocationError Session Bool
  decide jti user_id inactive = pure true
  decide jti user_id (active subject generation) = do
    c ← gets (λ s. s.0)
    elim c.cache [
      | none ↦ pure false
      | some cache ↦
          if is_superseded cache user_id generation
          then pure true
          else store_active jti user_id generation cache
    ]

  -- the two `except` clauses of `is_revoked`
  unfoldable pub recover : QueryError → Exec RevocationError Session Bool
  unfolding record_check_failure
  recover (decision reason) = do update (record_check_failure true); fail (decision_error reason)
  recover (failed e) = do
    c ← gets (λ s. s.0)
    update (record_check_failure c.fail_closed)
    if c.fail_closed then fail (check_error e) else pure false

  abbrev pub settle :
      (jti user_id : String)
      → Result QueryError JtiStatus × Session
      → Result RevocationError Bool × Session
  settle jti user_id (ok status, s) = decide jti user_id status s
  settle jti user_id (raise e, s) = recover e s

  unfoldable pub check_issuer : (jti user_id : String) → Exec RevocationError Session Bool
  check_issuer jti user_id s = settle jti user_id (query_status jti user_id s)

  -- what follows the lookup
  unfoldable pub after_lookup :
      (jti user_id : String) → Option Bool → Exec RevocationError Session Bool
  unfolding record_lookup
  after_lookup jti user_id none = do update (record_lookup false); check_issuer jti user_id
  after_lookup jti user_id (some cached) = do update (record_lookup true); pure cached

  unfoldable pub is_revoked :
      (jti user_id : String) → (bypass_cache : Bool) → Exec RevocationError Session Bool
  is_revoked jti user_id bypass_cache s =
      let cached = (consult jti >>= after_lookup jti user_id) s in
      if is_some s.0.cache && not bypass_cache then cached else check_issuer jti user_id s
