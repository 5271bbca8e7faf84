-- ===== src/Revocation/Tasks/Safety.antt =====
-- What a revocation means for the calls that are under way: fastapi_m8/_revocation.py.
use fastapi_m.Base.{
  ℕ, String, ◌≡◌, ◌≤◌, ◌<◌, refl, sym, ap, ◌∙◌, Bool, false, not, ◌&&◌, Option, some, arith, ltb,
  inl, inr, Bool-cases, Option-cases, is_some, ◌==◌, nat_eq,
}
use mathlib.Core.Path.{subst}
use fastapi_m.Base.Dict.{lookup}
use fastapi_m.Base.Exec.{Result, ok, raise}
use fastapi_m.Http.{Failure, JtiStatus, active, inactive, Response, Network}
use fastapi_m.InternalAuth.{InternalAuth}
use fastapi_m.Revocation.Cache.{RevocationCache, Entry, floor, is_superseded}
use fastapi_m.Revocation.Cache.Validity.{IsValid}
use fastapi_m.Revocation.Client.{
  RevocationClient, QueryError, decision, failed, consult, decide, recover, settle,
}
use fastapi_m.Revocation.Client.Soundness.{judge-subject}
use fastapi_m.Revocation.Events.{user_wide}
use fastapi_m.Revocation.Events.Refinement.{HasRoom}
use fastapi_m.Revocation.Events.History.{History, now_on, view, revocation-Rid}
use fastapi_m.Revocation.Events.Rid.{Rid}
use fastapi_m.Revocation.Lifecycle.{apply_session_revoked_event}
use fastapi_m.Revocation.Tasks.{
  Source, cached, replied, Pc, idle, asking, answered, looked, reply_of, begin, pc_after, entry_of,
  System, Step, begun, resumed, notified, token_evicted, user_evicted, flushed,
}
use fastapi_m.Revocation.Tasks.Caches.{
  Follows, HasSpace, Step-Follows, History-trans, notified_cache,
}

-- a run of the tasks, in any order of their stretches
pub data Reach {W : Type 0} (net : Network W) (s : System) : System → Type 0 where
  here : Reach net s s
  next : {t v : System} → Reach net s t → (step : Step net t v) → HasSpace step → Reach net s v

-- a call that has no answer yet, whether it has begun or waits for the issuer
abbrev IsPending : Pc → Type 0
IsPending (answered jti user_id source answer) = ⊥
IsPending _ = Unit

module _ {W : Type 0} (net : Network W) where
  Reach-Follows :
      (k : RevocationCache) {s t : System}
      → s.client.cache ≡ some k
      → Reach net s t
      → Follows k s.client.fail_closed t.client
  Reach-Follows k has here = record { cache = k; enabled = has; history = now_on; mode = refl }
  Reach-Follows k has (next before step space) =
      let f = Reach-Follows k has before in
      let g = Step-Follows net f.cache step space f.enabled in
      record {
        cache = g.cache;
        enabled = g.enabled;
        history = History-trans f.history g.history;
        mode = g.mode ∙ f.mode;
      }

reply_of-subject :
    {W : Type 0} (net : Network W) (v : String) (response : Result Failure Response)
    (subject : String) (generation : ℕ)
    → reply_of net v response ≡ ok (active subject generation)
    → subject ≡ v
reply_of-subject net v (ok response) subject generation e =
    judge-subject net "" v subject generation response e
reply_of-subject net v (raise x) subject generation e = absurd (ground arith)

module _ (u : String) (g : ℕ) (closed : Bool) where
  -- what a token may be let pass on, after generation `g` of the user has been revoked
  pub data Justified : Source → Type 0 where
    by_entry : (e : Entry) → (e.user_id ≡ u → g ≤ e.auth_generation) → Justified (cached (some e))
    by_issuer : (generation : ℕ) → g ≤ generation → Justified (replied (ok (active u generation)))
    by_outage : (e : Failure) → closed ≡ false → Justified (replied (raise (failed e)))

  abbrev Fair : Pc → Type 0
  Fair pc =
      (jti : String) (source : Source) → pc ≡ answered jti u source (ok false) → Justified source

  module _ {W : Type 0} (net : Network W) (k : RevocationCache) (rid : Rid u g (view k))
      (c : RevocationClient) (has : c.cache ≡ some k) (mode : c.fail_closed ≡ closed) where
    looked-Fair :
        (jti v : String) (w : W)
        → Fair (pc_after jti v (entry_of c jti) (looked (consult net jti (c, w))).0)
    unfolding consult
    looked-Fair jti v w = elim (Option-cases (lookup jti k.store)) [
      | inl miss ↦ λ jti' source e. absurd (ground arith)
      | inr (entry, hit) ↦ λ jti' source e.
          let is : cached (some entry) ≡ source = ground arith in
          subst Justified is (by_entry entry (rid.held jti entry hit))
    ]

    begin-Fair :
        (jti v : String) (bypass : Bool) (w : W)
        → Fair (pc_after jti v (entry_of c jti) (begin net jti bypass (c, w)).0)
    unfolding begin
    begin-Fair jti v bypass w = elim (Bool-cases (is_some c.cache && not bypass)) [
      | inl first ↦ rw first (looked-Fair jti v w)
      | inr direct ↦ rw direct (λ jti' source e. absurd (ground arith))
    ]

    not_stale : (v : String) (g' : ℕ) → v ≡ u → is_superseded k v g' ≡ false → g ≤ g'
    unfolding is_superseded
    not_stale v g' whose fresh =
        let fresh' = subst (λ x. ltb g' (floor k x) ≡ false) whose fresh in
        let bar = rid.bar in ground arith

    settle-Fair :
        (jti v : String) (reply : Result QueryError JtiStatus) (auth : InternalAuth) (w : W)
        → ((subject : String) (generation : ℕ)
            → reply ≡ ok (active subject generation)
            → subject ≡ v)
        → Fair (
            answered jti v
              (replied reply)
              (settle net jti v (reply, (record c { auth = auth }, w))).0)
    unfolding decide recover
    settle-Fair jti v (ok inactive) auth w genuine = λ jti' source e. absurd (ground arith)
    settle-Fair jti v (ok (active subject g')) auth w genuine = λ jti' source e.
        let whose : v ≡ u = cc e in
        let is : replied (ok (active u g')) ≡ source = cc (e, genuine subject g' refl) in
        subst Justified is (by_issuer g' (not_stale v g' whose (ground arith)))
    settle-Fair jti v (raise (decision reason)) auth w genuine =
        λ jti' source e. absurd (ground arith)
    settle-Fair jti v (raise (failed x)) auth w genuine = λ jti' source e.
        let is : replied (raise (failed x)) ≡ source = cc e in
        subst Justified is (by_outage x (ground arith))

  Step-Fair :
      {W : Type 0} (net : Network W) (k : RevocationCache) {s t : System}
      → Rid u g (view k)
      → s.client.cache ≡ some k
      → s.client.fail_closed ≡ closed
      → Step net s t
      → (j : ℕ) → Fair (s.calls j)
      → Fair (t.calls j)
  Step-Fair net k {s} rid has mode (begun i jti v bypass w e) j old = elim (Bool-cases (i == j)) [
    | inl own ↦ rw own (begin-Fair net k rid s.client has mode jti v bypass w)
    | inr other ↦ rw other old
  ]
  Step-Fair net k {s} rid has mode (resumed i jti v response auth w e) j old =
      elim (Bool-cases (i == j)) [
        | inl own ↦ rw own (
            settle-Fair net k rid s.client has mode jti v (reply_of net v response) auth w
              (reply_of-subject net v response))
        | inr other ↦ rw other old
      ]
  Step-Fair net k rid has mode (notified payload c e) j old = old
  Step-Fair net k rid has mode (token_evicted jti c e) j old = old
  Step-Fair net k rid has mode (user_evicted v c e) j old = old
  Step-Fair net k rid has mode (flushed c e) j old = old

  Pending-Fair : (pc : Pc) → IsPending pc → Fair pc
  Pending-Fair idle p = λ jti source e. absurd (ground arith)
  Pending-Fair (asking jti v) p = λ jti' source e. absurd (ground arith)
  Pending-Fair (answered jti v source answer) p = absurd p

  Reach-Fair :
      {W : Type 0} (net : Network W) (k : RevocationCache) {s t : System}
      → ((d : RevocationCache) → History k d → Rid u g (view d))
      → s.client.cache ≡ some k
      → s.client.fail_closed ≡ closed
      → Reach net s t
      → (j : ℕ) → IsPending (s.calls j)
      → Fair (t.calls j)
  Reach-Fair net k {s} rid has mode here j pending = Pending-Fair (s.calls j) pending
  Reach-Fair net k rid has mode (next before step space) j pending =
      let f = Reach-Follows net k has before in
      Step-Fair net f.cache (rid f.cache f.history) f.enabled (f.mode ∙ mode) step j
        (Reach-Fair net k rid has mode before j pending)

-- Any number of calls share the client, each suspended while it waits for the issuer. Once the event
-- that revokes all sessions of a user up to generation `g` has arrived, newer than the user's
-- watermark, a call that had no answer yet, even one that is waiting for the issuer, lets a
-- token pass as that user's on three grounds only: an entry of the cache, which if it is the user's is
-- of generation `g` or newer; a reply of the issuer about that user, of generation `g` or newer; or a
-- call of the issuer that failed, if the client is configured to fail open. This holds whatever
-- stretches of other calls, events, evictions and flushes follow, as long as none had to drop the
-- watermark of another user.
pub tasks-Justified :
    {W : Type 0} (net : Network W) (u : String) (g : ℕ) (s t : System) (before : RevocationCache)
    (event : Option String) (c : RevocationClient) (i : ℕ) (jti : String) (source : Source)
    → s.client.cache ≡ some before
    → IsValid before
    → HasRoom before u
    → floor before u < g
    → apply_session_revoked_event s.client (some (user_wide u g event)) ≡ some c
    → Reach net (record s { client = c }) t
    → IsPending (s.calls i)
    → t.calls i ≡ answered jti u source (ok false)
    → Justified u g s.client.fail_closed source
tasks-Justified net u g s t before event c i jti source has valid room above e run pending answer =
    let (revoked, applied, made) = notified_cache before s.client has _ c e in
    let cache = ap (λ (d : RevocationClient). d.cache) (sym made) in
    let mode = ap (λ (d : RevocationClient). d.fail_closed) (sym made) in
    let rid = λ (d : RevocationCache) (history : History revoked d).
      revocation-Rid u g before revoked d event valid room above applied history in
    Reach-Fair u g s.client.fail_closed net revoked rid cache mode run i pending jti source answer
