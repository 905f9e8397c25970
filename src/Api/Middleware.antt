-- ===== src/Api/Middleware.antt =====
-- app/api/middleware.py and the order of `create_app` in app/main.py. An application is a function
-- from the scope of a request to what it sends; the router is one, and a parameter. The body of a
-- request and the streaming of an answer play no part here.
pub mod Guard
use Prim.Native.Char.{code}
use Prim.Native.String
use qiankun.Prelude.{
  ℕ, String, Bool, true, false, not, ◌&&◌, ◌||◌, Option, none, some, List, [], ◌∷◌, ◌++◌, map, leb,
  str_eq, ◌==◌, maybe, if◌then◌else◌,
}
use qiankun.Prelude.Lists.{all_of, any_of, length}
use qiankun.Prelude.Codes.{codes, in_range, is_blank, strip, drop_chars}
use qiankun.Runtime.Registry.{lookup_text}

-- `Principal` of app/api/dependencies.py
pub record Principal : Type 0 where
  pub id : String
  pub username : String
  pub token_type : String

-- The ASGI scope: `type`, the request, and the two entries of `scope["state"]` that are set here.
pub record Scope : Type 0 where
  pub kind : String
  pub method : String
  pub path : String
  pub headers : List (String × String)
  pub user : Option Principal
  pub request_id : Option String

pub data Message : Type 0 where
  response_start : ℕ → List (String × String) → Message
  response_body : String → Message

-- What an application has sent when it ends, and whether it ends with an exception.
pub record Outcome : Type 0 where
  pub sent : List Message
  pub raised : Bool

abbrev pub App : Type 0
App = Scope → Outcome

-- `Headers(scope=scope).get(name, "")`
abbrev pub header : String → Scope → String
header name scope = maybe (lookup_text name scope.headers) "" (λ text. text)

abbrev pub add_headers : List (String × String) → Message → Message
add_headers more (Message.response_start status headers) =
    Message.response_start status (headers ++ more)
add_headers more (Message.response_body text) = Message.response_body text

-- A `send` that puts headers on the start of the answer.
abbrev pub send_with : List (String × String) → Outcome → Outcome
send_with more o = record o { sent = map (add_headers more) o.sent }

abbrev pub is_http : Scope → Bool
is_http scope = str_eq scope.kind "http"

abbrev pub cors_headers : String → List (String × String)
cors_headers allow_origin =
    ("access-control-allow-origin", allow_origin)
    ∷ ("access-control-allow-credentials", "true")
    ∷ ("access-control-allow-headers", "authorization, content-type, x-request-id")
    ∷ ("access-control-allow-methods", "GET, POST, PUT, PATCH, DELETE")
    ∷ []

-- `request_origin if request_origin and request_origin in origins else ""`
abbrev pub allowed_origin : List String → Scope → String
allowed_origin origins scope =
    let origin = header "origin" scope in
    if not (is_blank origin) && any_of (λ o. str_eq o origin) origins then origin else ""

abbrev pub no_content : Outcome
no_content = record {
  sent = Message.response_start 204 (("content-length", "0") ∷ []) ∷ Message.response_body "" ∷ [];
  raised = false;
}

-- `ConfiguredCORSMiddleware`
unfoldable pub cors : List String → App → App
cors origins app scope =
    if not (is_http scope)
    then app scope
    else if is_blank (allowed_origin origins scope)
    then app scope
    else if str_eq scope.method "OPTIONS"
    then no_content
    else send_with (cors_headers (allowed_origin origins scope)) (app scope)

abbrev pub has_prefix : List ℕ → List ℕ → Bool
has_prefix [] ns = true
has_prefix (p ∷ ps) [] = false
has_prefix (p ∷ ps) (n ∷ ns) = p == n && has_prefix ps ns

-- `text.startswith(prefix)`
abbrev pub starts_with : String → String → Bool
starts_with prefix text = has_prefix (codes prefix) (codes text)

-- `path in PUBLIC_PATHS`
abbrev pub is_public : String → Bool
is_public path = str_eq path "/api/v1/health" || str_eq path "/api/v1/auth/login"

-- `_reject`
abbrev pub unauthorized : Outcome
unauthorized = record {
  sent =
      Message.response_start 401 (
        ("content-type", "application/json")
        ∷ ("content-length", "107")
        ∷ ("www-authenticate", "Bearer")
        ∷ [])
      ∷ Message.response_body
          "{\"success\":false,\"error\":{\"code\":\"unauthorized\",\"message\":\"Missing or invalid credentials\",\"details\":null}}"
      ∷ [];
  raised = false;
}

-- The verifier of a token; `none` is its exception, whichever it is.
abbrev pub Verifier : Type 0
Verifier = String → Bool → Option Principal

-- `path == "/api/v1/auth/refresh"`
abbrev pub requires_refresh : Scope → Bool
requires_refresh scope = str_eq scope.path "/api/v1/auth/refresh"

-- `authorization.removeprefix("Bearer ").strip()`
abbrev pub bearer_token : Scope → String
bearer_token scope = strip (drop_chars 7 (header "authorization" scope))

abbrev pub is_guarded : Scope → Bool
is_guarded scope = starts_with "/api/v1" scope.path && not (is_public scope.path)

-- `JWTAuthorizationMiddleware`
unfoldable pub authorize : Verifier → App → App
authorize verifier app scope =
    if not (is_http scope)
    then app scope
    else if not (is_guarded scope)
    then app scope
    else if not (starts_with "Bearer " (header "authorization" scope))
    then unauthorized
    else maybe (verifier (bearer_token scope) (requires_refresh scope)) unauthorized
        (λ user. app (record scope { user = some user }))

abbrev pub is_id_char : ℕ → Bool
is_id_char n =
    in_range b'a' b'z' n || in_range b'A' b'Z' n || in_range b'0' b'9' n || n == b'_' || n == b'-'

-- `_UUID_PATTERN.fullmatch`
abbrev pub matches_id : String → Bool
matches_id text =
    all_of is_id_char (codes text) && leb 1 (length (codes text)) && leb (length (codes text)) 64

-- `header_id if … else uuid4().hex`
abbrev pub request_id_of : String → Scope → String
request_id_of fresh scope =
    if matches_id (header "x-request-id" scope) then header "x-request-id" scope else fresh

-- `RequestIDMiddleware`; `fresh` is `uuid4().hex`.
unfoldable pub identify : String → App → App
identify fresh app scope =
    if not (is_http scope)
    then app scope
    else send_with (("x-request-id", request_id_of fresh scope) ∷ [])
        (app (record scope { request_id = some (request_id_of fresh scope) }))

-- `create_app`: what is added last is the outermost.
unfoldable pub create_app : List String → Verifier → String → App → App
create_app origins verifier fresh router = cors origins (authorize verifier (identify fresh router))
