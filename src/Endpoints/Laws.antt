-- ===== src/Endpoints/Laws.antt =====
-- The derived endpoints: fastapi_m8/_internal_auth.py and fastapi_m8/_api_key.py.
use fastapi_m.Base.{
  ℕ, suc, ◌<◌, ◌≡◌, ◌≢◌, refl, ap, sym, ◌∙◌, true, false, none, some, [], ◌∷◌, ◌++◌, arith, nat_eq,
  length, length-append, Bool-cases, inl, inr,
}
use mathlib.Core.List.{append_assoc}
use fastapi_m.Http.{Url, codes}
use fastapi_m.Endpoints.{
  rstrip, same, without_suffix, jti_status_suffix, service_token_suffix, api_key_introspect_suffix,
  base_url, is_empty, cut_suffix, derive_service_token_url, derive_api_key_introspection_url,
}

-- any number of slashes
abbrev pub slashes : ℕ → Url
slashes ℕ.zero = []
slashes (suc n) = b'/' ∷ slashes n

rstrip-slashes : (n : ℕ) → rstrip (slashes n) ≡ []
unfolding rstrip
rstrip-slashes ℕ.zero = refl
rstrip-slashes (suc n) = ground (arith, rstrip-slashes n)

-- slashes at the end are no matter
rstrip-append : (s : Url) (n : ℕ) → rstrip (s ++ slashes n) ≡ rstrip s
unfolding rstrip
rstrip-append [] n = rstrip-slashes n
rstrip-append (c ∷ s) n = ground (arith, rstrip-append s n)

is_empty-append : (s t : Url) → t ≢ [] → is_empty (s ++ t) ≡ false
is_empty-append [] [] ne = absurd (ne refl)
is_empty-append [] (c ∷ t) ne = refl
is_empty-append (c ∷ s) t ne = refl

-- a text that does not end in a slash is kept whole
rstrip-keeps : (s t : Url) → rstrip t ≡ t → t ≢ [] → rstrip (s ++ t) ≡ s ++ t
unfolding rstrip
rstrip-keeps [] t h ne = h
rstrip-keeps (c ∷ s) t h ne = ground (arith, rstrip-keeps s t h ne, is_empty-append s t ne)

same-length : (s t : Url) → same s t ≡ true → length s ≡ length t
unfolding same
same-length [] [] h = refl
same-length (c ∷ s) (d ∷ t) h = ground (arith, same-length s t)
same-length [] (d ∷ t) h = ground arith
same-length (c ∷ s) [] h = ground arith

same_longer : (s t : Url) → length t < length s → same s t ≡ false
same_longer s t lt = elim (Bool-cases (same s t)) [
  | inl equal ↦ absurd (omega (arith, same-length s t equal))
  | inr differ ↦ differ
]

same_refl : (s : Url) → same s s ≡ true
unfolding same
same_refl [] = refl
same_refl (c ∷ s) = ground (arith, same_refl s)

without_suffix-append : (s : Url) (c : ℕ) (t : Url) → without_suffix (c ∷ t) (s ++ c ∷ t) ≡ some s
unfolding without_suffix
without_suffix-append [] c t = ground (arith, same_refl (c ∷ t))
without_suffix-append (d ∷ s) c t =
    let differ = same_longer (d ∷ (s ++ c ∷ t)) (c ∷ t) (omega (arith, length-append s (c ∷ t))) in
    ground (arith, without_suffix-append s c t, differ)

cut_suffix-append : (b : Url) → cut_suffix (b ++ jti_status_suffix) ≡ b
unfolding cut_suffix
cut_suffix-append b = ground (arith, without_suffix-append b b'/' (codes "jti-status"))

suffix-nonempty : jti_status_suffix ≢ []
suffix-nonempty h = cc

rstrip-jti_status :
    (b : Url) (n : ℕ) → rstrip (b ++ (jti_status_suffix ++ slashes n)) ≡ b ++ jti_status_suffix
unfolding rstrip
rstrip-jti_status b n =
    ap rstrip (sym (append_assoc b jti_status_suffix (slashes n)))
    ∙ rstrip-append (b ++ jti_status_suffix) n
    ∙ rstrip-keeps b jti_status_suffix refl suffix-nonempty

base_url-jti_status :
    (b : Url) (n : ℕ) → base_url (b ++ (jti_status_suffix ++ slashes n)) ≡ rstrip b
unfolding base_url
base_url-jti_status b n =
    ap (λ u. rstrip (cut_suffix u)) (rstrip-jti_status b n) ∙ ap rstrip (cut_suffix-append b)

-- From the URL of the JTI-status endpoint under a base, with any number of slashes at the end, both
-- functions derive their own endpoint under that base, without the slashes at its end.
pub derived_endpoints :
    (b : Url) (n : ℕ)
    → (derive_service_token_url (b ++ (jti_status_suffix ++ slashes n))
        ≡ rstrip b ++ service_token_suffix)
      × (derive_api_key_introspection_url (b ++ (jti_status_suffix ++ slashes n))
          ≡ rstrip b ++ api_key_introspect_suffix)
unfolding derive_service_token_url derive_api_key_introspection_url
derived_endpoints b n = (
  ap (λ u. u ++ service_token_suffix) (base_url-jti_status b n),
  ap (λ u. u ++ api_key_introspect_suffix) (base_url-jti_status b n),
)

rstrip_idem : (s : Url) → rstrip (rstrip s) ≡ rstrip s
unfolding rstrip
rstrip_idem [] = refl
rstrip_idem (c ∷ s) = ground (arith, rstrip_idem s)

cut_suffix-none : (u : Url) → without_suffix jti_status_suffix u ≡ none → cut_suffix u ≡ u
unfolding cut_suffix
cut_suffix-none u other = ground arith

-- Any other base URL, one that does not end in the JTI-status path, gets the endpoint appended.
derived_endpoints_other :
    (b : Url)
    → without_suffix jti_status_suffix (rstrip b) ≡ none
    → (derive_service_token_url b ≡ rstrip b ++ service_token_suffix)
      × (derive_api_key_introspection_url b ≡ rstrip b ++ api_key_introspect_suffix)
unfolding derive_service_token_url derive_api_key_introspection_url base_url
derived_endpoints_other b other =
    let base = ap rstrip (cut_suffix-none (rstrip b) other) ∙ rstrip_idem b in
    (ap (λ u. u ++ service_token_suffix) base, ap (λ u. u ++ api_key_introspect_suffix) base)
