-- ===== src/Infrastructure/Browser.antt =====
-- app/infrastructure/browser/cdp.py: the address that the driver connects to. `Urls` is `urllib.parse`; the
-- connection itself is playwright's.
use qiankun.Prelude.{String, Option, none, some, List, [], ◌∷◌, str_eq, maybe, if◌then◌else◌}
use qiankun.Prelude.Exec.{Error, Result, ok, err}
use qiankun.Prelude.Json.{Value, Fields, get_field}
use qiankun.Application.Settings.{is_truthy}

-- What `urlsplit` gives
pub record SplitResult : Type 0 where
  pub scheme : String
  pub netloc : String
  pub path : String
  pub query : String
  pub fragment : String

-- `show` is `str` on a value that is no text.
pub record Urls : Type 0 where
  pub urlsplit : String → SplitResult
  pub parse_qsl : String → List (String × String)
  pub urlencode : List (String × String) → String
  pub urlunsplit : SplitResult → String
  pub show : Value → String

abbrev pub set_pair : String → String → List (String × String) → List (String × String)
set_pair key v [] = (key, v) ∷ []
set_pair key v ((k, w) ∷ pairs) =
    let rest = set_pair key v pairs in if str_eq k key then (k, v) ∷ pairs else (k, w) ∷ rest

-- `{**old, **dict(pairs)}`
abbrev pub set_pairs : List (String × String) → List (String × String) → List (String × String)
set_pairs old [] = old
set_pairs old ((k, v) ∷ pairs) = set_pairs (set_pair k v old) pairs

-- `str(v)`
abbrev pub text_of : Urls → Value → String
text_of u (Value.str text) = text
text_of u v = u.show v

abbrev pub add_token : Urls → String → String → String
add_token u endpoint token =
    let url = u.urlsplit endpoint in
    u.urlunsplit (record url {
      query = u.urlencode (set_pair "token" token (set_pairs [] (u.parse_qsl url.query)));
    })

-- `with_token`
unfoldable pub with_token : Urls → String → Option Value → String
with_token u endpoint none = endpoint
with_token u endpoint (some token) =
    if is_truthy token then add_token u endpoint (text_of u token) else endpoint

-- The address of `CDPDriver.open`; a configuration without an endpoint is a `KeyError`.
unfoldable pub open_endpoint : Urls → Fields → Result String
unfolding with_token
open_endpoint u settings =
    maybe (get_field "endpoint" settings) (err Error.unexpected)
      λ endpoint. ok (with_token u (text_of u endpoint) (get_field "token" settings))
