-- ===== src/Api/Middleware/Guard.antt =====
-- The middleware stack of app/main.py around any router.
use qiankun.Prelude.{
  ◌≡◌, refl, String, true, some, List, str_eq, Bool-cases, Option-cases, inl, inr,
}
use qiankun.Prelude.Codes.{is_blank}
use qiankun.Api.Middleware.{
  Principal, Scope, App, Verifier, header, is_http, is_guarded, starts_with, bearer_token,
  requires_refresh, request_id_of, allowed_origin, cors, authorize, identify, create_app,
}

-- What a router can be given for a guarded request: the scope with the user of the accepted token and
-- with the request id, and nothing else of it changed.
abbrev pub admitted : String → Scope → Principal → Scope
admitted fresh scope user = record scope {
  user = some user;
  request_id = some (request_id_of fresh scope);
}

authorize_agrees :
    (verifier : Verifier) (fresh : String) (a b : App) (scope : Scope)
    → is_http scope ≡ true
    → is_guarded scope ≡ true
    → ((user : Principal)
        → starts_with "Bearer " (header "authorization" scope) ≡ true
        → verifier (bearer_token scope) (requires_refresh scope) ≡ some user
        → a (admitted fresh scope user) ≡ b (admitted fresh scope user))
    → authorize verifier (identify fresh a) scope ≡ authorize verifier (identify fresh b) scope
unfolding authorize identify
authorize_agrees verifier fresh a b scope http guarded agree =
    elim (Bool-cases (starts_with "Bearer " (header "authorization" scope))) [
      | inr s ↦ rw (http, guarded, s) refl
      | inl s ↦ elim (Option-cases (verifier (bearer_token scope) (requires_refresh scope))) [
        | inl v ↦ rw (http, guarded, s, v) refl
        | inr (user, v) ↦ rw (http, guarded, s, v, agree user s v) refl
      ]
    ]

-- The router is reached on a guarded path only for a user whose token was accepted: two routers that
-- answer alike, for each user that the verifier accepts from the Bearer token of the request as a
-- token of the kind that the path wants, give the same answer to an HTTP request under /api/v1
-- outside the public paths. In particular the routers are not told apart where no token is accepted.
pub create_app_guarded :
    (origins : List String) (verifier : Verifier) (fresh : String) (a b : App) (scope : Scope)
    → is_http scope ≡ true
    → is_guarded scope ≡ true
    → ((user : Principal)
        → starts_with "Bearer " (header "authorization" scope) ≡ true
        → verifier (bearer_token scope) (requires_refresh scope) ≡ some user
        → a (admitted fresh scope user) ≡ b (admitted fresh scope user))
    → create_app origins verifier fresh a scope ≡ create_app origins verifier fresh b scope
unfolding create_app cors
create_app_guarded origins verifier fresh a b scope http guarded agree =
    let same = authorize_agrees verifier fresh a b scope http guarded agree in
    elim (Bool-cases (is_blank (allowed_origin origins scope))) [
      | inl o ↦ rw (http, o, same) refl
      | inr o ↦ elim (Bool-cases (str_eq scope.method "OPTIONS")) [
        | inl m ↦ rw (http, o, m) refl
        | inr m ↦ rw (http, o, m, same) refl
      ]
    ]
