-- ===== src/RouteAudit/Laws.antt =====
-- The audit finds every route it is about, and no other: fastapi_m8/_route_audit.py.
use fastapi_m.Base.{
  ℕ, String, ◌≡◌, ◌≢◌, refl, false, List, [], ◌∷◌, ◌++◌, ◌==◌, nat_eq, string_eq, arith, any, elem,
  All, ◌↔◌, Bool-cases, inl, inr,
}
use fastapi_m.RouteAudit.{ApiRoute, Route, api_route, other_route, is_bare, audit_api_key_routes}

audit-append :
    (xs ys : List Route) (d : ℕ) (exempt : List String)
    → audit_api_key_routes (xs ++ ys) d exempt
      ≡ audit_api_key_routes xs d exempt ++ audit_api_key_routes ys d exempt
unfolding audit_api_key_routes
audit-append [] ys d exempt = refl
audit-append (other_route ∷ xs) ys d exempt = audit-append xs ys d exempt
audit-append (api_route r ∷ xs) ys d exempt = ground (arith, audit-append xs ys d exempt)

-- a route that goes through no bare dependency, or is exempt, or is of another kind
abbrev pub Passes : ℕ → List String → Route → Type 0
Passes d exempt other_route = Unit {0}
Passes d exempt (api_route r) = elem r.path exempt ≡ false → All (λ call. call ≢ d) r.dependencies

no_call :
    (d : ℕ) (calls : List ℕ) → any (λ call. call == d) calls ≡ false → All (λ call. call ≢ d) calls
no_call d [] h = tt
no_call d (c ∷ calls) h = (λ p. ground arith, no_call d calls (ground arith))

any-call :
    (d : ℕ) (calls : List ℕ) → All (λ call. call ≢ d) calls → any (λ call. call == d) calls ≡ false
any-call d [] h = refl
any-call d (c ∷ calls) (differ, rest) = ground (arith, any-call d calls rest)

is_bare-Passes :
    (d : ℕ) (exempt : List String) (r : ApiRoute)
    → is_bare d exempt r ≡ false
    → Passes d exempt (api_route r)
unfolding is_bare
is_bare-Passes d exempt r h listed = no_call d r.dependencies (ground arith)

Passes-is_bare :
    (d : ℕ) (exempt : List String) (r : ApiRoute)
    → Passes d exempt (api_route r)
    → is_bare d exempt r ≡ false
unfolding is_bare
Passes-is_bare d exempt r h = elim (Bool-cases (elem r.path exempt)) [
  | inl listed ↦ ground (arith, listed)
  | inr kept ↦ ground (arith, kept, any-call d r.dependencies (h kept))
]

clean-Passes :
    (routes : List Route) (d : ℕ) (exempt : List String)
    → audit_api_key_routes routes d exempt ≡ []
    → All (Passes d exempt) routes
unfolding audit_api_key_routes
clean-Passes [] d exempt h = tt
clean-Passes (other_route ∷ rest) d exempt h = (tt, clean-Passes rest d exempt h)
clean-Passes (api_route r ∷ rest) d exempt h = elim (Bool-cases (is_bare d exempt r)) [
  | inl bare ↦ absurd (ground (arith, bare))
  | inr fine ↦ (is_bare-Passes d exempt r fine, clean-Passes rest d exempt (ground (arith, fine)))
]

Passes-clean :
    (routes : List Route) (d : ℕ) (exempt : List String)
    → All (Passes d exempt) routes
    → audit_api_key_routes routes d exempt ≡ []
unfolding audit_api_key_routes
Passes-clean [] d exempt h = refl
Passes-clean (other_route ∷ rest) d exempt (_, h) = Passes-clean rest d exempt h
Passes-clean (api_route r ∷ rest) d exempt (passes, h) =
    ground (arith, Passes-is_bare d exempt r passes, Passes-clean rest d exempt h)

-- An empty report is exact: no route of the app, but the exempt ones and those of other classes,
-- names the bare dependency at its top level; and a report on such an app is empty.
pub audit_clean :
    (routes : List Route) (d : ℕ) (exempt : List String)
    → (audit_api_key_routes routes d exempt ≡ []) ↔ All (Passes d exempt) routes
audit_clean routes d exempt = (clean-Passes routes d exempt, Passes-clean routes d exempt)
