-- ===== src/Infrastructure/Auth.antt =====
-- app/infrastructure/auth: tokens (jwt.py), password hashes (password.py), and the verifier of
-- app/main.py that the middleware calls. PyJWT, Argon2 and UUIDs are parameters. Times are numbers of
-- microseconds; the claims hold whole seconds, as PyJWT writes them.
pub mod Tokens
use Prim.Native.String
use qiankun.Prelude.{
  ℕ, ◌+◌, ◌*◌, ◌/◌, ◌≤◌, ◌<◌, ◌≡◌, String, Bool, true, false, not, ◌&&◌, Option, none, some, List,
  [], ◌∷◌, str_eq, maybe, is_some, if◌then◌else◌,
}
use qiankun.Prelude.Exec.{Error, Result, ok, err}
use qiankun.Prelude.Lists.{All}
use qiankun.Prelude.Json.{JsonInt, Value, Fields, get_field}
use qiankun.Prelude.Text.{fstring}
use qiankun.Application.Settings.{is_truthy}
use qiankun.Api.Middleware.{Principal, Verifier}

-- `JWTSettings` of app/core/config.py
pub record JwtSettings : Type 0 where
  pub secret : String
  pub algorithm : String
  pub access_token_minutes : ℕ
  pub refresh_token_days : ℕ

-- `jwt.encode`, `jwt.decode` at a time with the claims that it requires, where `none` is a `PyJWTError`;
-- `uuid5` in its two uses, `UUID(…)` of a claim, and `str` of what is no text.
pub record TokenLibrary : Type 0 where
  pub encode : Fields → String → String → String
  pub decode : ℕ → String → String → String → List String → Option Fields
  pub principal_id : String → String
  pub token_id : String → ℕ → String → String
  pub parse_uuid : Value → Option String
  pub show : Value → String

abbrev pub second : ℕ
second = 1000000

-- `timedelta(minutes=…)` and `timedelta(days=…)`
abbrev pub lifetime : JwtSettings → Bool → ℕ
lifetime s true = s.refresh_token_days * 86400 * second
lifetime s false = s.access_token_minutes * 60 * second

abbrev pub token_type : Bool → String
token_type true = "refresh"
token_type false = "access"

abbrev pub seconds : ℕ → Value
seconds n = Value.int (JsonInt.nonnegative n)

-- The claims of `_create`
abbrev pub claims_of : TokenLibrary → JwtSettings → Bool → String → ℕ → Fields
claims_of j s refresh username now = Fields.field "sub" (Value.str (j.principal_id username)) (
    Fields.field "username" (Value.str username) (
      Fields.field "type" (Value.str (token_type refresh)) (
        Fields.field "iat" (seconds (now / second)) (
          Fields.field "nbf" (seconds (now / second)) (
            Fields.field "exp" (seconds ((now + lifetime s refresh) / second)) (
              Fields.field "jti" (Value.str (j.token_id username now (token_type refresh)))
                Fields.end))))))

-- `_create`: `create_refresh` with `true`, `create_access` with `false`.
unfoldable pub create : TokenLibrary → JwtSettings → Bool → String → ℕ → String
create j s refresh username now = j.encode (claims_of j s refresh username now) s.secret s.algorithm

-- `options={"require": […]}`
abbrev pub required_claims : List String
required_claims = "exp" ∷ "iat" ∷ "nbf" ∷ "sub" ∷ "type" ∷ []

-- `value == text`
abbrev pub is_text : String → Value → Bool
is_text text (Value.str other) = str_eq other text
is_text text _ = false

-- The checks of `decode` on the claims of a token that PyJWT accepts.
abbrev pub check_claims : Bool → Fields → Result Fields
check_claims expect_refresh claims =
    if not (maybe (get_field "type" claims) false (is_text (token_type expect_refresh)))
    then err Error.auth
    else if not (maybe (get_field "username" claims) false is_truthy)
    then err Error.auth
    else ok claims

-- `decode`
unfoldable pub decode : TokenLibrary → JwtSettings → ℕ → String → Bool → Result Fields
decode j s now token expect_refresh =
    maybe (j.decode now token s.secret s.algorithm required_claims) (err Error.auth)
      (check_claims expect_refresh)

-- `str(value)`
abbrev pub text_of : TokenLibrary → Value → String
text_of j (Value.str text) = text
text_of j other = j.show other

-- `claims[key]`, which is there by the checks of `decode`
abbrev pub claim : String → Fields → Value
claim key claims = maybe (get_field key claims) Value.null (λ v. v)

abbrev pub principal_of : TokenLibrary → Result Fields → Option Principal
principal_of j (err e) = none
principal_of j (ok claims) = maybe (j.parse_uuid (claim "sub" claims)) none λ id.
    (some (record {
      id = id;
      username = text_of j (claim "username" claims);
      token_type = text_of j (claim "type" claims);
    }))

-- `_StateVerifier.__call__` of a running application
unfoldable pub verifier : TokenLibrary → JwtSettings → ℕ → Verifier
unfolding decode
verifier j s now token expect_refresh = principal_of j (decode j s now token expect_refresh)

-- What PyJWT documents of a token with an issue time, a start and an end, read with the key that it
-- was signed with: it gives its claims from its start until before its end, and is refused after.
pub record TokenLaws (j : TokenLibrary) (claims : Fields) (secret algorithm : String) : Type 0 where
  pub decodes :
      (id : String) (required : List String) (now iat nbf exp : ℕ)
      → get_field "sub" claims ≡ some (Value.str id)
      → get_field "iat" claims ≡ some (seconds iat)
      → get_field "nbf" claims ≡ some (seconds nbf)
      → get_field "exp" claims ≡ some (seconds exp)
      → All (λ key. is_some (get_field key claims) ≡ true) required
      → iat * second ≤ now
      → nbf * second ≤ now
      → now < exp * second
      → j.decode now (j.encode claims secret algorithm) secret algorithm required ≡ some claims
  pub expires :
      (required : List String) (now exp : ℕ)
      → get_field "exp" claims ≡ some (seconds exp)
      → exp * second ≤ now
      → j.decode now (j.encode claims secret algorithm) secret algorithm required ≡ none
