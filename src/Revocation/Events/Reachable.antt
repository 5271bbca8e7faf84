-- ===== src/Revocation/Events/Reachable.antt =====
-- The cache over any interleaving of requests and stream events: fastapi_m8/_revocation.py.
use fastapi_m.Base.{
  eq_of_some, ℕ, String, ◌≡◌, refl, sym, ◌∙◌, Option, none, some, Bool-cases, Option-cases, inl,
  inr,
}
use mathlib.Core.Path.{subst}
use fastapi_m.Revocation.Cache.{
  RevocationCache, init, get, put, note_revocation, evict_jti, evict_user, evict_user_below,
  flush_all,
}
use fastapi_m.Revocation.Cache.Validity.{
  IsValid, init-IsValid, get-IsValid, put-IsValid, note_revocation-IsValid, evict_jti-IsValid,
  flush_all-IsValid, evict_user_lem, evict_user_below_lem, keep-IsValid,
}
use fastapi_m.Revocation.Events.{SessionRevokedEvent, evict_named, apply_v2, apply_event}

-- An eviction that raises nothing, and leaves a valid cache.
abbrev pub Evicts : Option RevocationCache → Type 0
Evicts r = (c' : RevocationCache) × (r ≡ some c') × IsValid c'

evict_user_below-Evicts :
    (c : RevocationCache) (u : String) (g : Option ℕ) → IsValid c → Evicts (evict_user_below c u g)
evict_user_below-Evicts c u g h = (_, evict_user_below_lem c u g h, keep-IsValid c _ h)

pub evict_user-Evicts : (c : RevocationCache) (u : String) → IsValid c → Evicts (evict_user c u)
evict_user-Evicts c u h = (_, evict_user_lem c u h, keep-IsValid c _ h)

evict_named-Evicts :
    (c : RevocationCache) (u : String) (g : ℕ) (jti : Option String)
    → IsValid c
    → Evicts (evict_named c u g jti)
unfolding evict_named
evict_named-Evicts c u g none h = evict_user_below-Evicts c u (some g) h
evict_named-Evicts c u g (some jti) h = (evict_jti c jti, refl, evict_jti-IsValid c jti h)

apply_v2-Evicts :
    (c : RevocationCache) (event : SessionRevokedEvent) (g : ℕ)
    → IsValid c
    → Evicts (apply_v2 c event g)
unfolding apply_v2
apply_v2-Evicts c event g h =
    let noted = note_revocation c event.user_id g event.event_id in
    let k = note_revocation-IsValid c event.user_id g event.event_id h in
    elim (Bool-cases noted.0) [
      | inl act ↦ rw act (evict_named-Evicts noted.1 event.user_id g event.jti k)
      | inr ignore ↦ rw ignore (noted.1, refl, k)
    ]

-- On a valid cache no event, of either version or unparseable, raises: the cache that is left is
-- valid again.
pub apply_event-Evicts :
    (c : RevocationCache) (payload : Option SessionRevokedEvent)
    → IsValid c
    → (c' : RevocationCache) × (apply_event c payload ≡ some c') × IsValid c'
unfolding apply_event
apply_event-Evicts c none h = (flush_all c, refl, flush_all-IsValid c h)
apply_event-Evicts c (some event) h = elim (Option-cases event.auth_generation) [
  | inl v1 ↦ rw v1 (evict_user-Evicts c event.user_id h)
  | inr (g, v2) ↦ rw v2 (apply_v2-Evicts c event g h)
]

-- What may happen to the cache: a lookup, a result that is cached, an event of the stream, an
-- eviction that the service asks for, and a flush on a gap.
pub data Step : RevocationCache → RevocationCache → Type 0 where
  looked_up : (c : RevocationCache) (now : ℕ) (jti : String) → Step c (get now c jti).1
  cached : (c : RevocationCache) (now : ℕ) (jti u : String) (g : ℕ) → Step c (put now c jti u g)
  received :
      (c c' : RevocationCache) (payload : Option SessionRevokedEvent)
      → apply_event c payload ≡ some c'
      → Step c c'
  evicted : (c : RevocationCache) (jti : String) → Step c (evict_jti c jti)
  user_evicted : (c c' : RevocationCache) (u : String) → evict_user c u ≡ some c' → Step c c'
  flushed : (c : RevocationCache) → Step c (flush_all c)

pub data Reach (c : RevocationCache) : RevocationCache → Type 0 where
  here : Reach c c
  next : {d e : RevocationCache} → Reach c d → Step d e → Reach c e

pub IsValid-of_Evicts :
    {r : Option RevocationCache} {c' : RevocationCache} → Evicts r → r ≡ some c' → IsValid c'
IsValid-of_Evicts (d, e, h) p = subst IsValid (eq_of_some (sym e ∙ p)) h

pub Step-IsValid : {c d : RevocationCache} → Step c d → IsValid c → IsValid d
Step-IsValid (looked_up c now jti) h = get-IsValid now c jti h
Step-IsValid (cached c now jti u g) h = put-IsValid now c jti u g h
Step-IsValid (received c c' payload e) h = IsValid-of_Evicts (apply_event-Evicts c payload h) e
Step-IsValid (evicted c jti) h = evict_jti-IsValid c jti h
Step-IsValid (user_evicted c c' u e) h = IsValid-of_Evicts (evict_user-Evicts c u h) e
Step-IsValid (flushed c) h = flush_all-IsValid c h

Reach-IsValid : {c d : RevocationCache} → Reach c d → IsValid c → IsValid d
Reach-IsValid here h = h
Reach-IsValid (next r s) h = Step-IsValid s (Reach-IsValid r h)

-- In every cache that is reached from an empty one, by requests and events in any order, the
-- watermark map holds at most `max_tracked_watermarks` users, keys are not repeated and dedup ids
-- are kept only for users that have a watermark; and the next event, whatever it is, raises nothing.
pub reachable_cache :
    (ttl : ℕ) (c : RevocationCache) (payload : Option SessionRevokedEvent)
    → Reach (init ttl) c
    → IsValid c × Evicts (apply_event c payload)
reachable_cache ttl c payload r =
    let h = Reach-IsValid r (init-IsValid ttl) in (h, apply_event-Evicts c payload h)
