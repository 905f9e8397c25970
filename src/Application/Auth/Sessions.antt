-- ===== src/Application/Auth/Sessions.antt =====
-- From a login of auth.py through the middleware to a route.
use qiankun.Prelude.{
  ℕ, ◌≤◌, ◌≡◌, refl, ap, ◌∙◌, sym, subst, arith, ltb, String, Bool, true, false, ◌&&◌, ◌||◌, some,
  str_eq, eq_iff, if◌then◌else◌, Bool-cases, Option-cases, inl, inr,
}
use qiankun.Prelude.Exec.{Error, ok, err, Result-cases}
use qiankun.Prelude.Json.{Value}
use qiankun.Prelude.Codes.{is_blank}
use qiankun.Api.Middleware.{
  Principal, Scope, App, header, is_http, is_guarded, starts_with, bearer_token, requires_refresh,
  unauthorized, authorize,
}
use qiankun.Infrastructure.Database.{Db}
use qiankun.Infrastructure.Repositories.Settings.{by_key, find_setting}
use qiankun.Infrastructure.Auth.{
  JwtSettings, TokenLibrary, TokenLaws, token_type, claims_of, create, verifier,
}
use qiankun.Infrastructure.Auth.Tokens.{expiry, decode-create}
use qiankun.Application.Auth.{
  PasswordLibrary, TokenPair, login, check_login, credentials, issue, text_field, to_fields,
}

not_blank : (text : String) → is_blank text ≡ false → str_eq text "" ≡ false
not_blank text h = elim (Bool-cases (str_eq text "")) [
  | inr e ↦ e
  | inl e ↦
      let same : text ≡ "" = ground (arith, eq_iff text "") in
      cc (let no : true ≡ false = rw same at h in no)
]

-- What a login that returns has found: a name, and tokens made for it.
record IsIssued (j : TokenLibrary) (s : JwtSettings) (issued : ℕ) (username : String)
    (pair : TokenPair) : Type 0 where
  named : str_eq username "" ≡ false
  made : pair ≡ issue j s username issued

check_login-IsIssued :
    (a : PasswordLibrary) (j : TokenLibrary) (s : JwtSettings) (issued : ℕ)
    (username password stored_username stored_hash : String) (db : Db) (pair : TokenPair)
    → (check_login a j s issued username password stored_username stored_hash db).0 ≡ ok pair
    → IsIssued j s issued username pair
unfolding check_login
check_login-IsIssued a j s issued username password stored_username stored_hash db pair h =
    elim (Bool-cases (is_blank stored_username || is_blank stored_hash)) [
      | inl blank ↦ cc (let no : err Error.auth ≡ ok pair = rw blank at h in no)
      | inr full ↦ elim (Option-cases (a.verify stored_hash password)) [
        | inl e ↦ cc (let no : err Error.unexpected ≡ ok pair = rw (full, e) at h in no)
        | inr (matches, e) ↦ elim (Bool-cases (str_eq username stored_username && matches)) [
          | inr bad ↦ cc (let no : err Error.auth ≡ ok pair = rw (full, e, bad) at h in no)
          | inl good ↦
              let made : ok (issue j s username issued) ≡ ok pair = rw (full, e, good) at h in
              let same : username ≡ stored_username =
                ground (arith, eq_iff username stored_username) in
              let filled : is_blank stored_username ≡ false = ground arith in
              record {
                named = not_blank username (subst (λ u. is_blank u ≡ false) (sym same) filled);
                made = cc;
              }
        ]
      ]
    ]

login-IsIssued :
    (a : PasswordLibrary) (j : TokenLibrary) (s : JwtSettings) (issued : ℕ)
    (username password : String) (db : Db) (pair : TokenPair)
    → (login a j s issued username password db).0 ≡ ok pair
    → IsIssued j s issued username pair
unfolding login credentials by_key
login-IsIssued a j s issued username password db pair h =
    elim (Option-cases (find_setting "auth" "admin" db.settings)) [
      | inl e ↦ cc (let no : err Error.auth ≡ ok pair = rw e at h in no)
      | inr (row, e) ↦ elim (Result-cases (to_fields a row.value)) [
        | inr (x, bad) ↦ cc (let no : err x ≡ ok pair = rw (e, bad) at h in no)
        | inl (fields, good) ↦
            check_login-IsIssued a j s issued username password (text_field a "username" fields)
              (text_field a "password" fields) db pair (rw (e, good) at h)
      ]
    ]

abbrev pub token_of : Bool → TokenPair → String
token_of true pair = pair.refresh_token
token_of false pair = pair.access_token

issued_token :
    (j : TokenLibrary) (s : JwtSettings) (username : String) (issued : ℕ) (pair : TokenPair)
    → pair ≡ issue j s username issued
    → (refresh : Bool) → token_of refresh pair ≡ create j s refresh username issued
issued_token j s username issued pair e true = ap (λ p. p.refresh_token) e
issued_token j s username issued pair e false = ap (λ p. p.access_token) e

abbrev pub principal : TokenLibrary → Bool → String → Principal
principal j refresh username = record {
  id = j.principal_id username;
  username = username;
  token_type = token_type refresh;
}

-- A request that carries a token of `create`.
authorize-create :
    (j : TokenLibrary) (s : JwtSettings) (refresh : Bool) (username : String) (issued now : ℕ)
    (app : App) (scope : Scope)
    → TokenLaws j (claims_of j s refresh username issued) s.secret s.algorithm
    → j.parse_uuid (Value.str (j.principal_id username)) ≡ some (j.principal_id username)
    → str_eq username "" ≡ false
    → issued ≤ now
    → is_http scope ≡ true
    → is_guarded scope ≡ true
    → starts_with "Bearer " (header "authorization" scope) ≡ true
    → bearer_token scope ≡ create j s refresh username issued
    → authorize (verifier j s now) app scope ≡ (
        if ltb now (expiry s refresh issued)
          && str_eq (token_type refresh) (token_type (requires_refresh scope))
        then app (record scope { user = some (principal j refresh username) })
        else unauthorized)
unfolding authorize verifier
authorize-create j s refresh username issued now app scope laws parses named late http guarded
      bearer carries =
    let read =
      decode-create j s refresh (requires_refresh scope) username issued now laws named late in
    let alive =
      ltb now (expiry s refresh issued)
      && str_eq (token_type refresh) (token_type (requires_refresh scope)) in
    elim (Bool-cases alive) [
      | inl e ↦ rw (http, guarded, bearer, carries, read, e, parses) refl
      | inr e ↦ rw (http, guarded, bearer, carries, read, e) refl
    ]

-- After a login that returned, a request with either of its tokens to a guarded path reaches the routes as
-- the user who logged in exactly until the token ends, the access token on every path but the one of
-- the refresh and the refresh token on that one alone; otherwise it is answered with 401 and no
-- route is reached.
pub authorize-login :
    (a : PasswordLibrary) (j : TokenLibrary) (s : JwtSettings) (issued now : ℕ)
    (username password : String) (db : Db) (pair : TokenPair) (refresh : Bool) (app : App)
    (scope : Scope)
    → TokenLaws j (claims_of j s refresh username issued) s.secret s.algorithm
    → j.parse_uuid (Value.str (j.principal_id username)) ≡ some (j.principal_id username)
    → (login a j s issued username password db).0 ≡ ok pair
    → issued ≤ now
    → is_http scope ≡ true
    → is_guarded scope ≡ true
    → starts_with "Bearer " (header "authorization" scope) ≡ true
    → bearer_token scope ≡ token_of refresh pair
    → authorize (verifier j s now) app scope ≡ (
        if ltb now (expiry s refresh issued)
          && str_eq (token_type refresh) (token_type (requires_refresh scope))
        then app (record scope { user = some (principal j refresh username) })
        else unauthorized)
authorize-login a j s issued now username password db pair refresh app scope laws parses logged late
      http guarded bearer carries =
    let found = login-IsIssued a j s issued username password db pair logged in
    let made : (r : Bool) → token_of r pair ≡ create j s r username issued =
      issued_token j s username issued pair found.made in
    authorize-create j s refresh username issued now app scope laws parses found.named late http
      guarded bearer (carries ∙ made refresh)
