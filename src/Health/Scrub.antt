-- ===== src/Health/Scrub.antt =====
-- fastapi_m8/_health.py: what is masked when a health result is serialised. Texts are code points;
-- `is_space` is `\s`, and `same_letter` compares two characters under `re.IGNORECASE`.
pub mod Laws
use Prim.Native.String.{String}
use fastapi_m.Base.{
  ℕ, suc, ◌+◌, ◌-◌, Bool, true, false, not, ◌&&◌, ◌||◌, Option, none, some, List, [], ◌∷◌, ◌++◌,
  ◌==◌, nat_eq, if◌then◌else◌, any, map,
}
use fastapi_m.Http.{codes}

-- the longest prefix of characters that pass: its length, and the rest
unfoldable pub span : (ℕ → Bool) → List ℕ → ℕ × List ℕ
span p [] = (0, [])
span p (c ∷ s) = let (n, rest) = span p s in if p c then (suc n, rest) else (0, c ∷ s)

-- what is left after a prefix
unfoldable pub after : (same : ℕ → ℕ → Bool) → List ℕ → List ℕ → Option (List ℕ)
after same [] s = some s
after same (c ∷ t) [] = none
after same (c ∷ t) (d ∷ s) = let rest = after same t s in if same c d then rest else none

abbrev exactly : ℕ → ℕ → Bool
exactly c d = c == d

abbrev pub scheme_end : List ℕ
scheme_end = codes "://"

abbrev pub mask : List ℕ
mask = codes "://***:***@"

-- after a run of characters: at least one of them, and the character that must follow
unfoldable pub closed : ℕ → ℕ × List ℕ → Option (ℕ × List ℕ)
closed stop (n, []) = none
closed stop (n, c ∷ rest) = if not (n == 0) && c == stop then some (n + 1, rest) else none

module _ (is_space : ℕ → Bool) where
  -- `[^/\s:@]`
  abbrev pub is_user : ℕ → Bool
  is_user c = not (c == b'/' || is_space c || c == b':' || c == b'@')

  -- `[^/\s@]`
  abbrev pub is_password : ℕ → Bool
  is_password c = not (c == b'/' || is_space c || c == b'@')

  -- the length of a match of `_CRED_IN_URL` at the head of a text; no part of the pattern can give
  -- back a character, since no run contains the character that ends it
  unfoldable pub match_length : List ℕ → Option ℕ
  match_length s = elim (after exactly scheme_end s) [
    | none ↦ none
    | some user ↦ elim (closed b':' (span is_user user)) [
      | none ↦ none
      | some (n, password) ↦ elim (closed b'@' (span is_password password)) [
        | none ↦ none
        | some (m, rest) ↦ some (3 + n + m)
      ]
    ]
  ]

  -- `_CRED_IN_URL.sub`: `skip` characters of a match are still to be dropped
  unfoldable pub sub_from : (skip : ℕ) → List ℕ → List ℕ
  sub_from skip [] = []
  sub_from (suc skip) (c ∷ s) = sub_from skip s
  sub_from ℕ.zero (c ∷ s) = elim (match_length (c ∷ s)) [
    | none ↦ c ∷ sub_from 0 s
    | some n ↦ mask ++ sub_from (n - 1) s
  ]

  unfoldable pub sub : List ℕ → List ℕ
  sub s = sub_from 0 s

  unfoldable pub scrub_text : Option (List ℕ) → Option (List ℕ)
  scrub_text none = none
  scrub_text (some []) = some []
  scrub_text (some (c ∷ s)) = some (sub (c ∷ s))

abbrev sensitive_words : List (List ℕ)
sensitive_words =
    codes "secret"
    ∷ codes "password"
    ∷ codes "passwd"
    ∷ codes "token"
    ∷ codes "api_key"
    ∷ codes "access_key"
    ∷ codes "private_key"
    ∷ codes "credential"
    ∷ codes "dsn"
    ∷ []

-- `($|_)`: the end, also before a last line feed, or an underscore
abbrev ends_word : List ℕ → Bool
ends_word [] = true
ends_word (c ∷ []) = c == b'_' || c == 10
ends_word (c ∷ d ∷ s) = c == b'_'

abbrev ends_after : Option (List ℕ) → Bool
ends_after none = false
ends_after (some rest) = ends_word rest

-- a value of a `meta` dictionary: a `str`, or anything else
pub data MetaValue (X : Type 0) : Type 0 where
  text : List ℕ → MetaValue X
  other : X → MetaValue X

abbrev pub Meta : Type 0 → Type 0
Meta X = List (List ℕ × MetaValue X)

module _ (same_letter : ℕ → ℕ → Bool) where
  -- one of the words, and its end, at the head of a text
  unfoldable pub starts_word : List ℕ → Bool
  starts_word s = any (λ word. ends_after (after same_letter word s)) sensitive_words

  -- a word that begins after an underscore
  unfoldable pub word_inside : List ℕ → Bool
  word_inside [] = false
  word_inside (c ∷ s) = let later = word_inside s in (c == b'_' && starts_word s) || later

  -- `_SENSITIVE_KEY.search`
  unfoldable pub is_sensitive : List ℕ → Bool
  is_sensitive key = starts_word key || word_inside key

module _ {X : Type 0} (is_space : ℕ → Bool) (same_letter : ℕ → ℕ → Bool) where
  abbrev scrub_string : MetaValue X → MetaValue X
  scrub_string (text []) = text []
  scrub_string (text (c ∷ s)) = text (sub is_space (c ∷ s))
  scrub_string (other x) = other x

  unfoldable pub scrub_item : List ℕ × MetaValue X → List ℕ × MetaValue X
  scrub_item (key, value) =
      (key, if is_sensitive same_letter key then text (codes "REDACTED") else scrub_string value)

  unfoldable pub scrub_meta : Option (Meta X) → Option (Meta X)
  scrub_meta none = none
  scrub_meta (some meta) = some (map scrub_item meta)
