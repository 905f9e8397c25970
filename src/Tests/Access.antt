-- ===== src/Tests/Access.antt =====
-- The theorems on tokens, logins and the middleware, at concrete inputs.
use qiankun.Prelude.{
  ℕ, ◌*◌, ◌<◌, ◌≡◌, refl, arith, ltb, true, false, ◌&&◌, none, some, [], ◌∷◌, str_eq, maybe,
  if◌then◌else◌,
}
use qiankun.Prelude.Exec.{Error, ok, err}
use qiankun.Prelude.Json.{Value, Fields}
use qiankun.Infrastructure.Database.{SystemSetting, Db}
use qiankun.Api.Middleware.{
  Scope, App, Message, Verifier, authorize, unauthorized, create_app, requires_refresh,
}
use qiankun.Api.Middleware.Guard.{create_app_guarded}
use qiankun.Infrastructure.Auth.{
  JwtSettings, TokenLibrary, TokenLaws, claims_of, create, decode, verifier, second, token_type,
}
use qiankun.Infrastructure.Auth.Tokens.{expiry, decode-create}
use qiankun.Application.Auth.{PasswordLibrary, TokenPair, login, issue, change_password}
use qiankun.Application.Auth.Passwords.{change_password-login}
use qiankun.Application.Auth.Sessions.{principal, authorize-login}
use qiankun.Tests.{tables}

abbrev jwt_settings : JwtSettings
jwt_settings = record {
  secret = "s";
  algorithm = "HS256";
  access_token_minutes = 15;
  refresh_token_days = 7;
}

-- A library that knows one token, whose claims are fixed.
abbrev one_token : Fields → ℕ → TokenLibrary
one_token claims end = record {
  encode = λ f secret algorithm. "token";
  decode =
      λ now token secret algorithm required. if ltb now (end * second) then some claims else none;
  principal_id = λ username. "admin-id";
  token_id = λ username now kind. "jti";
  parse_uuid = λ v. some "admin-id";
  show = λ v. "value";
}

abbrev admin_claims : Fields
admin_claims = claims_of (one_token Fields.end 0) jwt_settings false "admin" 0

abbrev tokens : TokenLibrary
tokens = one_token admin_claims 900

tokens_laws : TokenLaws tokens (claims_of tokens jwt_settings false "admin" 0) "s" "HS256"
tokens_laws = record {
  decodes = λ id required now iat nbf exp s i n e all a b c.
      let same : 900 ≡ exp = cc in let alive : now < 900 * second = omega arith in ground arith;
  expires = λ required now exp e late. let same : 900 ≡ exp = cc in ground arith;
}

decode-create_example :
    decode tokens jwt_settings 5 (create tokens jwt_settings false "admin" 0) true ≡ (
      if ltb 5 (expiry jwt_settings false 0) && str_eq (token_type false) (token_type true)
      then ok (claims_of tokens jwt_settings false "admin" 0)
      else err Error.auth)
decode-create_example =
    decode-create tokens jwt_settings false true "admin" 0 5 tokens_laws refl (omega arith)

abbrev passwords : PasswordLibrary
passwords = record {
  hash = λ plain. "hash of secret123";
  verify = λ hash plain. some (str_eq plain "secret123");
  show = λ v. "value";
  items = λ v. none;
}

abbrev admin_row : SystemSetting
admin_row = record {
  scope = "auth";
  key = "admin";
  type = "object";
  value = Value.dict (
      Fields.field "username" (Value.str "admin")
        (Fields.field "password" (Value.str "hash of secret123") Fields.end));
  enabled = true;
  description = "";
}

abbrev site_tables : Db
site_tables = record tables { settings = admin_row ∷ [] }

abbrev admin_tokens : TokenPair
admin_tokens = record { access_token = "token"; refresh_token = "token" }

admin_login :
    (login passwords tokens jwt_settings 0 "admin" "secret123" site_tables).0 ≡ ok admin_tokens
unfolding login
admin_login = refl

abbrev request : Scope
request = record {
  kind = "http";
  method = "GET";
  path = "/api/v1/tasks";
  headers = ("authorization", "Bearer token ") ∷ [];
  user = none;
  request_id = none;
}

-- A router that answers with the name of the user.
abbrev who : App
who s = record {
  sent = Message.response_body (maybe s.user "nobody" (λ u. u.username)) ∷ [];
  raised = false;
}

authorize-login_example : authorize (verifier tokens jwt_settings 5) who request ≡ (
    if ltb 5 (expiry jwt_settings false 0)
      && str_eq (token_type false) (token_type (requires_refresh request))
    then who (record request { user = some (principal tokens false "admin") })
    else unauthorized)
authorize-login_example =
    authorize-login passwords tokens jwt_settings 0 5 "admin" "secret123" site_tables admin_tokens
      false who request tokens_laws refl admin_login (omega arith) refl refl refl refl

password_changed : (change_password passwords "admin" "secret123" "secret123" site_tables).0 ≡ ok tt
unfolding change_password
password_changed = refl

change_password-login_example :
    (login passwords tokens jwt_settings 9 "admin" "guess"
      (change_password passwords "admin" "secret123" "secret123" site_tables).1).0
    ≡ maybe
        (passwords.verify (passwords.hash "secret123") "guess")
        (err Error.unexpected)
        λ matches.
          if str_eq "admin" "admin" && matches
          then ok (issue tokens jwt_settings "admin" 9)
          else err Error.auth
change_password-login_example =
    change_password-login passwords tokens jwt_settings 9 "admin" "secret123" "secret123" "admin"
      "guess" site_tables refl refl (rw password_changed refl)

-- A verifier that accepts no token, and two routers that it keeps apart from a request.
abbrev nobody : Verifier
nobody token refresh = none

abbrev silent : App
silent s = record { sent = []; raised = false }

create_app_guarded_example :
    create_app [] nobody "id" who request ≡ create_app [] nobody "id" silent request
create_app_guarded_example =
    create_app_guarded [] nobody "id" who silent request refl refl (λ user bearer accepted. cc)
