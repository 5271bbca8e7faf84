-- ===== src/ServiceClient/Laws.antt =====
-- Whom a service-client guard lets in: fastapi_m8/_service_client.py.
use fastapi_m.Base.{
  String, ◌≡◌, ◌≢◌, ◌⊎◌, refl, ap, ◌∙◌, true, false, Option, none, some, List, [], ◌∷◌, ◌==◌,
  string_eq, if◌then◌else◌, all, All, arith, Option-cases, inl, inr,
}
use fastapi_m.Base.Exec.{Result, ok, raise}
use fastapi_m.ServiceClient.{
  Credential, Registry, RequiredScopes, bare, iterable, ScopesError, value_error, checked,
  normalise_required_scopes, Guard, service_client, build_service_client_guard,
}

-- a required scope that a credential holds
abbrev pub Held : Credential → Option String → Type 0
Held credential required =
    (scope : String) × (required ≡ some scope)
    × ((scope == "") ≡ false)
    × (credential.has_scope scope ≡ true)

Result-cases :
    (r : Result ScopesError (List String))
    → ((scopes : List String) × (r ≡ ok scopes)) ⊎ ((e : ScopesError) × (r ≡ raise e))
Result-cases (ok scopes) = inl (scopes, refl)
Result-cases (raise e) = inr (e, refl)

checked_step :
    (credential : Credential) (scope : String) (others scopes : List String)
    → (if scope == "" then raise value_error else ok (scope ∷ others))
      ≡ (let r : Result ScopesError (List String) = ok scopes in r)
    → all credential.has_scope scopes ≡ true
    → ((scope == "") ≡ false)
      × (credential.has_scope scope ≡ true)
      × (all credential.has_scope others ≡ true)
checked_step credential scope others [] h held = absurd (ground arith)
checked_step credential scope others (s ∷ rest) h held = ground arith

checked-Held :
    (credential : Credential) (required : List (Option String)) (scopes : List String)
    → checked required ≡ ok scopes
    → all credential.has_scope scopes ≡ true
    → All (Held credential) required
unfolding checked
checked-Held credential [] scopes h held = tt
checked-Held credential (none ∷ rest) scopes h held = absurd (ground arith)
checked-Held credential (some scope ∷ rest) scopes h held = elim (Result-cases (checked rest)) [
  | inl (others, is_ok) ↦
      let (present, head, tail) =
        checked_step credential scope others scopes (ground (arith, is_ok)) held in
      ((scope, refl, present, head), checked-Held credential rest others is_ok tail)
  | inr (e, failed) ↦ absurd (ground (arith, failed))
]

admitted_by :
    (registry : Registry) (scopes : List String) (client_id secret : Option String) (name : String)
    → service_client registry scopes client_id secret ≡ ok name
    → (credential : Credential) × (registry.verify client_id secret ≡ some credential)
      × (credential.client_id ≡ name)
      × (all credential.has_scope scopes ≡ true)
unfolding service_client
admitted_by registry scopes client_id secret name h =
    elim (Option-cases (registry.verify client_id secret)) [
      | inl unknown ↦ absurd (ground (arith, unknown))
      | inr (credential, verified) ↦
          (credential, verified, ground (arith, verified), ground (arith, verified))
    ]

normalised-Held :
    (credential : Credential) (required : RequiredScopes) (scopes : List String)
    → normalise_required_scopes required ≡ ok scopes
    → all credential.has_scope scopes ≡ true
    → (names : List (Option String)) × (required ≡ iterable names)
      × (names ≢ [])
      × All (Held credential) names
unfolding normalise_required_scopes
normalised-Held credential (bare scope) scopes h held = absurd (ground arith)
normalised-Held credential (iterable []) scopes h held = absurd (ground arith)
normalised-Held credential (iterable (name ∷ rest)) scopes h held = (
  name ∷ rest,
  refl,
  (λ p. absurd (ground arith)),
  checked-Held credential (name ∷ rest) scopes h held,
)

built_of :
    (registry : Registry) (r : Result ScopesError (List String)) (guard : Guard)
    → (let g : Result ScopesError Guard = elim r [
      | ok scopes ↦ ok (service_client registry scopes)
      | raise e ↦ raise e
    ] in
        g)
      ≡ ok guard
    → (scopes : List String) × (r ≡ ok scopes) × (service_client registry scopes ≡ guard)
built_of registry (ok scopes) guard h = (scopes, refl, cc)
built_of registry (raise e) guard h = absurd (ground arith)

-- A guard can only be built for at least one scope, each a text that is not empty; and whom it lets
-- in is a client that the registry verifies, under the name in the registry, that holds every one
-- of the scopes.
pub service_client-Held :
    (registry : Registry) (required : RequiredScopes) (guard : Guard)
    (client_id secret : Option String) (name : String)
    → build_service_client_guard registry required ≡ ok guard
    → guard client_id secret ≡ ok name
    → (credential : Credential) × (registry.verify client_id secret ≡ some credential)
      × (credential.client_id ≡ name)
      × (names : List (Option String)) × (required ≡ iterable names)
      × (names ≢ [])
      × All (Held credential) names
unfolding build_service_client_guard
service_client-Held registry required guard client_id secret name built h =
    let (scopes, normal, same) =
      built_of registry (normalise_required_scopes required) guard built in
    let (credential, verified, named, held) =
      admitted_by registry scopes client_id secret name (ap (λ f. f client_id secret) same ∙ h) in
    let (names, is_iterable, some_name, each) =
      normalised-Held credential required scopes normal held in
    (credential, verified, named, names, is_iterable, some_name, each)
