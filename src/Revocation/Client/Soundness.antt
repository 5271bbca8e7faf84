-- ===== src/Revocation/Client/Soundness.antt =====
-- When `is_revoked` lets a token pass: fastapi_m8/_revocation.py, `RemoteRevocationClient`.
use fastapi_m.Base.{
  ℕ, String, ◌≡◌, ◌≢◌, ◌⊎◌, refl, ap, ◌<◌, Bool, false, not, ◌&&◌, Option, none, some, arith,
  eq_iff, inl, inr, Bool-cases, Option-cases, string_eq, if◌then◌else◌, is_some,
}
use fastapi_m.Base.Dict.{lookup}
use fastapi_m.Base.Exec.{Result, ok, raise, continue, lift}
use fastapi_m.Http.{Failure, Response, JtiStatus, inactive, active, Network}
use fastapi_m.Revocation.Cache.{RevocationCache, Entry, is_superseded}
use fastapi_m.Revocation.Cache.Entries.{get_live}
use fastapi_m.Revocation.Client.Attempts.{AttemptOf, send_status-Attempt}
use fastapi_m.Revocation.Client.Frame.{send_status-keeps}
use fastapi_m.Revocation.Client.{
  RevocationClient, RevocationError, QueryError, decision, failed, judge, wrap, send_status,
  query_status, consult, settle, decide, recover, check_issuer, after_lookup, is_revoked,
  record_lookup,
}

module _ {W : Type 0} (net : Network W) (jti user_id : String) where
  -- Why a check with the issuer lets the token pass: the issuer has answered the question with
  -- success, and its reply is valid, names the asserted user as active, and a generation that the cache
  -- does not know to be superseded; or no answer with success was got, and the client is configured to
  -- fail open.
  pub data Cleared (s : RevocationClient × W) : Type 0 where
    confirmed :
        (generation : ℕ) (response : Response) (s' : RevocationClient × W)
        → send_status net jti user_id s ≡ (ok response, s')
        → AttemptOf net jti user_id s.0 (ok response)
        → net.read_status response.content ≡ some (active user_id generation)
        → ((k : RevocationCache) → s'.0.cache ≡ some k → is_superseded k user_id generation ≡ false)
        → Cleared s
    outage :
        (e : Failure) (s' : RevocationClient × W)
        → send_status net jti user_id s ≡ (raise e, s')
        → AttemptOf net jti user_id s.0 (raise e)
        → s.0.fail_closed ≡ false
        → Cleared s

  pub judge-subject :
      (subject : String) (generation : ℕ) (response : Response)
      → judge net user_id response ≡ ok (active subject generation)
      → subject ≡ user_id
  unfolding judge
  judge-subject subject generation response h =
      elim (Option-cases (net.read_status response.content)) [
        | inl bad ↦ ground arith
        | inr (inactive, none') ↦ ground arith
        | inr (active named g, read) ↦ ground (arith, eq_iff named user_id)
      ]

  -- what is accepted as active is what the reply says
  judge-active :
      (subject : String) (generation : ℕ) (response : Response)
      → judge net user_id response ≡ ok (active subject generation)
      → net.read_status response.content ≡ some (active user_id generation)
  unfolding judge
  judge-active subject generation response h =
      elim (Option-cases (net.read_status response.content)) [
        | inl bad ↦ absurd (ground arith)
        | inr (inactive, none') ↦ absurd (ground arith)
        | inr (active named g, read) ↦ ground (arith, eq_iff named user_id)
      ]

  -- a reply that came is never taken for a failure to get one
  judge-failed : (e : Failure) (response : Response) → judge net user_id response ≢ raise (failed e)
  unfolding judge
  judge-failed e response h = elim (Option-cases (net.read_status response.content)) [
    | inl bad ↦ ground arith
    | inr (inactive, none') ↦ ground arith
    | inr (active named g, read) ↦ ground arith
  ]

  decide-fresh :
      (subject : String) (generation : ℕ) (s s' : RevocationClient × W)
      → decide net jti user_id (active subject generation) s ≡ (ok false, s')
      → (k : RevocationCache) → s.0.cache ≡ some k
      → is_superseded k user_id generation ≡ false
  unfolding decide
  decide-fresh subject generation s s' p k has = ground arith

  judged-Cleared :
      (s t s' : RevocationClient × W) (response : Response) (j : Result QueryError JtiStatus)
      → judge net user_id response ≡ j
      → send_status net jti user_id s ≡ (ok response, t)
      → AttemptOf net jti user_id s.0 (ok response)
      → settle net jti user_id (j, t) ≡ (ok false, s')
      → Cleared s
  unfolding decide recover
  judged-Cleared s t s' response (ok inactive) is q came p = absurd (ground arith)
  judged-Cleared s t s' response (ok (active subject g)) is q came p =
      confirmed g response t q came (judge-active subject g response is)
        (decide-fresh subject g t s' p)
  judged-Cleared s t s' response (raise (decision reason)) is q came p = absurd (ground arith)
  judged-Cleared s t s' response (raise (failed e)) is q came p =
      absurd (judge-failed e response is)

  settle-Cleared :
      (s : RevocationClient × W) (r : Result Failure Response × (RevocationClient × W))
      (s' : RevocationClient × W)
      → send_status net jti user_id s ≡ r
      → AttemptOf net jti user_id s.0 r.0
      → r.1.0.fail_closed ≡ s.0.fail_closed
      → settle net jti user_id
          (continue (λ response. lift (judge net user_id response)) (wrap net r))
        ≡ (ok false, s')
      → Cleared s
  unfolding recover
  settle-Cleared s (ok response, t) s' q came keep p =
      judged-Cleared s t s' response (judge net user_id response) refl q came p
  settle-Cleared s (raise e, t) s' q attempt keep p = outage e t q attempt (ground arith)

  check_issuer-Cleared :
      (s s' : RevocationClient × W) → check_issuer net jti user_id s ≡ (ok false, s') → Cleared s
  unfolding check_issuer query_status
  check_issuer-Cleared (c, w) s' p =
      settle-Cleared (c, w) (send_status net jti user_id (c, w)) s' refl
        (send_status-Attempt net jti user_id c w)
        (ap (λ (d : RevocationClient). d.fail_closed) (send_status-keeps net jti user_id c w)) p

  -- a live entry of the cache for the token
  pub record Hit (c : RevocationClient) (w : W) : Type 0 where
    pub cache : RevocationCache
    pub entry : Entry
    pub enabled : c.cache ≡ some cache
    pub found : lookup jti cache.store ≡ some entry
    pub live : (net.monotonic w).0 < entry.expires_at

  -- the client when the issuer is asked: after a miss, with the lookup counted
  abbrev after_miss : RevocationClient × W → RevocationClient × W
  after_miss s = let (_, t) = consult net jti s in (record_lookup false t.0, t.1)

  consult-Hit :
      (c : RevocationClient) (w : W) (s' : RevocationClient × W) (answer : Bool)
      → consult net jti (c, w) ≡ (ok (some answer), s')
      → Hit c w
  unfolding consult
  consult-Hit c w s' answer p = elim (Option-cases c.cache) [
    | inl off ↦ absurd (ground arith)
    | inr (k, on) ↦ elim (Option-cases (lookup jti k.store)) [
      | inl miss ↦ absurd (ground arith)
      | inr (e, has) ↦ record {
        cache = k;
        entry = e;
        enabled = on;
        found = has;
        live = get_live (net.monotonic w).0 k jti e answer has (ground arith);
      }
    ]
  ]

  -- the state in which the issuer is asked
  abbrev pub asked : Bool → RevocationClient × W → RevocationClient × W
  asked bypass s = if is_some s.0.cache && not bypass then after_miss s else s

  lookup-Cleared :
      (c : RevocationClient) (w : W)
      (r : Result RevocationError (Option Bool) × (RevocationClient × W))
      (s' : RevocationClient × W)
      → consult net jti (c, w) ≡ r
      → continue (after_lookup net jti user_id) r ≡ (ok false, s')
      → Hit c w ⊎ Cleared (record_lookup false r.1.0, r.1.1)
  unfolding after_lookup
  lookup-Cleared c w (ok none, t) s' q p = inr (check_issuer-Cleared _ s' p)
  lookup-Cleared c w (ok (some answer), t) s' q p = inl (consult-Hit c w t answer q)
  lookup-Cleared c w (raise e, t) s' q p = absurd (ground arith)

  -- A token passes only for one of three reasons: a live cached entry, never where the cache is
  -- bypassed; a valid reply of the issuer, with a success status, to the question about this token and
  -- this user, that says that the user is active, with a generation that is not known to be
  -- superseded; or, only if the client is configured to fail open, that no reply with a success status
  -- was got: there were no credentials, the request failed, or the issuer answered with an error
  -- status. A reply with a success status that cannot be interpreted, or names another user, lets no
  -- token pass.
  pub is_revoked-Cleared :
      (bypass : Bool) (c : RevocationClient) (w : W) (s' : RevocationClient × W)
      → is_revoked net jti user_id bypass (c, w) ≡ (ok false, s')
      → ((bypass ≡ false) × Hit c w) ⊎ Cleared (asked bypass (c, w))
  unfolding is_revoked
  is_revoked-Cleared bypass c w s' p = elim (Bool-cases (is_some c.cache && not bypass)) [
    | inl first ↦
        let p' = rw first at p in
        rw first (elim (lookup-Cleared c w (consult net jti (c, w)) s' refl p') [
          | inl hit ↦ inl (ground arith, hit)
          | inr cleared ↦ inr cleared
        ])
    | inr direct ↦ let p' = rw direct at p in rw direct (inr (check_issuer-Cleared (c, w) s' p'))
  ]
