-- ===== src/Revocation/Client/Aftermath.antt =====
-- What `is_revoked` answers after a revocation of all sessions: fastapi_m8/_revocation.py, the
-- event handler, the cache and the client together.
use fastapi_m.Base.{
  ℕ, String, ◌≡◌, ◌≤◌, ◌<◌, sym, ap, ◌∙◌, Bool, false, not, ◌&&◌, Option, some, arith, inl, inr,
  Bool-cases, Option-cases, is_some, eq_of_some,
}
use fastapi_m.Base.Dict.{lookup}
use fastapi_m.Base.Exec.{ok, raise}
use fastapi_m.Http.{Failure, Response, active, Network}
use fastapi_m.Revocation.Cache.{RevocationCache, Entry, floor, get, is_superseded}
use fastapi_m.Revocation.Cache.Validity.{IsValid}
use fastapi_m.Revocation.Events.{apply_event, user_wide}
use fastapi_m.Revocation.Events.Refinement.{HasRoom}
use fastapi_m.Revocation.Events.History.{History, view, get-Rid, revocation-Rid}
use fastapi_m.Revocation.Events.Rid.{Rid}
use fastapi_m.Revocation.Client.{RevocationClient, send_status, consult, record_lookup, is_revoked}
use fastapi_m.Revocation.Client.Frame.{send_status-keeps}
use fastapi_m.Revocation.Client.Soundness.{Cleared, confirmed, outage, asked, is_revoked-Cleared}

module _ {W : Type 0} (net : Network W) (jti u : String) (g : ℕ) where
  -- why a token passes after generation `g` has been revoked
  data Survives (bypass : Bool) (d : RevocationCache) (s : RevocationClient × W) : Type 0 where
    by_entry :
        (e : Entry)
        → bypass ≡ false
        → lookup jti d.store ≡ some e
        → (e.user_id ≡ u → g ≤ e.auth_generation)
        → Survives bypass d s
    by_issuer :
        (generation : ℕ) (response : Response) (s' : RevocationClient × W)
        → send_status net jti u s ≡ (ok response, s')
        → net.read_status response.content ≡ some (active u generation)
        → g ≤ generation
        → Survives bypass d s
    by_outage :
        (e : Failure) (s' : RevocationClient × W)
        → send_status net jti u s ≡ (raise e, s')
        → s.0.fail_closed ≡ false
        → Survives bypass d s

  -- the client has a cache, which holds nothing older
  record Clean (c : RevocationClient) : Type 0 where
    cache : RevocationCache
    enabled : c.cache ≡ some cache
    rid : Rid u g (view cache)

  consult-Clean : (c : RevocationClient) (w : W) → Clean c → Clean (consult net jti (c, w)).1.0
  unfolding consult
  consult-Clean c w h = elim (Option-cases (lookup jti h.cache.store)) [
    | inl miss ↦ record { cache = h.cache; enabled = ground (arith, h.enabled); rid = h.rid }
    | inr (e, hit) ↦ record {
      cache = (get (net.monotonic w).0 h.cache jti).1;
      enabled = ground (arith, h.enabled);
      rid = get-Rid u g h.cache (net.monotonic w).0 jti h.rid;
    }
  ]

  asked-Clean :
      (bypass : Bool) (c : RevocationClient) (w : W)
      → Clean c
      → Clean (asked net jti u bypass (c, w)).0
  unfolding record_lookup
  asked-Clean bypass c w h = elim (Bool-cases (is_some c.cache && not bypass)) [
    | inl first ↦
        let k = consult-Clean c w h in
        rw first (record { cache = k.cache; enabled = k.enabled; rid = k.rid })
    | inr direct ↦ rw direct h
  ]

  Cleared-Survives :
      (d : RevocationCache) (bypass : Bool) (s : RevocationClient × W)
      → Clean s.0
      → Cleared net jti u s
      → Survives bypass d s
  unfolding is_superseded
  Cleared-Survives d bypass (c, w) h (confirmed generation response s' q came read newer) =
      let kept : s'.0.cache ≡ c.cache =
        ap (λ r. r.1.0.cache) (sym q)
        ∙ ap (λ (x : RevocationClient). x.cache) (send_status-keeps net jti u c w) in
      let fresh = newer h.cache (kept ∙ h.enabled) in
      let bar = h.rid.bar in by_issuer generation response s' q read (ground arith)
  Cleared-Survives d bypass s h (outage e s' q attempt lax) = by_outage e s' q lax

  -- Once a revocation of all sessions of a user up to generation `g` has arrived, newer than the
  -- user's watermark, and whatever steps have changed the cache since, as long as none had to drop
  -- the watermark of another user, a token that the client lets pass as that user's has one of three
  -- reasons: an entry of the cache, where the cache is not bypassed, which if it is the user's is of
  -- generation `g` or newer; a reply of the issuer of generation `g` or newer; or that no reply with
  -- a success status was got, if the client is configured to fail open.
  is_revoked-Survives :
      (before revoked d : RevocationCache) (event : Option String) (bypass : Bool)
      (c : RevocationClient) (w : W) (s' : RevocationClient × W)
      → IsValid before
      → HasRoom before u
      → floor before u < g
      → apply_event before (some (user_wide u g event)) ≡ some revoked
      → History revoked d
      → c.cache ≡ some d
      → is_revoked net jti u bypass (c, w) ≡ (ok false, s')
      → Survives bypass d (asked net jti u bypass (c, w))
  is_revoked-Survives before revoked d event bypass c w s' valid room above e history has p =
      let rid = revocation-Rid u g before revoked d event valid room above e history in
      let clean = asked-Clean bypass c w (record { cache = d; enabled = has; rid = rid }) in
      elim (is_revoked-Cleared net jti u bypass c w s' p) [
        | inl (direct, hit) ↦
            let same : hit.cache ≡ d = eq_of_some (sym hit.enabled ∙ has) in
            let found = ap (λ (k : RevocationCache). lookup jti k.store) (sym same) ∙ hit.found in
            by_entry hit.entry direct found (λ mine. rid.held jti hit.entry found mine)
        | inr cleared ↦ Cleared-Survives d bypass _ clean cleared
      ]
