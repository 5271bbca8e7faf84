-- ===== src/Revocation/Cache/Ledger.antt =====
-- What the cache of fastapi_m8/_revocation.py promises, without its representation: entries,
-- watermarks and dedup ids as functions, with no bound on the users that are tracked.
use fastapi_m.Base.{
  ℕ, String, Bool, true, false, ◌||◌, ◌≡◌, Option, none, some, ltb, ◌==◌, nat_eq, string_eq,
  if◌then◌else◌, elem,
}
use fastapi_m.Base.Dict.{lookup}
use fastapi_m.Revocation.Cache.{Entry, RevocationCache, applied_to, seed, is_older}

pub record Ledger : Type 0 where
  pub entries : String → Option Entry
  pub watermark : String → Option ℕ
  pub seen : String → String → Bool

-- the cache holds what the ledger says
pub record Implements (c : RevocationCache) (l : Ledger) : Type 0 where
  pub entries : (jti : String) → lookup jti c.store ≡ l.entries jti
  pub watermark : (user_id : String) → lookup user_id c.watermarks ≡ l.watermark user_id
  pub seen : (user_id event : String) → elem event (applied_to c user_id) ≡ l.seen user_id event

abbrev pub floor_of : Ledger → String → ℕ
floor_of l u = elim (l.watermark u) [ none ↦ 0 | some w ↦ w ]

abbrev add : String → Entry → Ledger → Ledger
add jti entry l = record l { entries = λ j. if jti == j then some entry else l.entries j }

abbrev pub drop_jti : String → Ledger → Ledger
drop_jti jti l = record l { entries = λ j. if jti == j then none else l.entries j }

abbrev unless : (Entry → Bool) → Option Entry → Option Entry
unless p none = none
unless p (some e) = if p e then none else some e

-- the entries that pass a test are dropped
abbrev pub drop_where : (Entry → Bool) → Ledger → Ledger
drop_where p l = record l { entries = λ j. unless p (l.entries j) }

abbrev pub drop_all : Ledger → Ledger
drop_all l = record l { entries = λ j. none }

-- a new watermark, with the dedup ids of its generation
abbrev pub raise_to : String → ℕ → Option String → Ledger → Ledger
raise_to u g event l = record l {
  watermark = λ v. if u == v then some g else l.watermark v;
  seen = λ v e. if u == v then elem e (seed event) else l.seen v e;
}

abbrev pub mark : String → String → Ledger → Ledger
mark u event l = record l { seen = λ v e. if u == v then event == e || l.seen u e else l.seen v e }

-- an event at the watermark is acted on once for each of its ids, and always if it has none
abbrev pub at_watermark : String → Option String → Ledger → Bool × Ledger
at_watermark u none l = (true, l)
at_watermark u (some event) l = if l.seen u event then (false, l) else (true, mark u event l)

-- the generation rule: older is ignored, newer moves the watermark
abbrev pub against : String → ℕ → Option String → Option ℕ → Ledger → Bool × Ledger
against u g event none l = (true, raise_to u g event l)
against u g event (some w) l =
    if ltb g w
    then (false, l)
    else if g == w
    then at_watermark u event l
    else (true, raise_to u g event l)

abbrev pub note : String → ℕ → Option String → Ledger → Bool × Ledger
note u g event l = against u g event (l.watermark u) l

abbrev pub drop_named : String → ℕ → Option String → Ledger → Ledger
drop_named u g none l = drop_where (is_older u (some g)) l
drop_named u g (some jti) l = drop_jti jti l
