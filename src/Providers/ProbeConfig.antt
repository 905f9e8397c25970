-- ===== src/Providers/ProbeConfig.antt =====
-- app/providers/probe/config.py: the kinds of check, the accounts, and what is shown of a URL.
use text.Mathlib.Text.{find?}
use qiankun.Prelude.{
  ℕ, String, Bool, true, false, not, ◌&&◌, Option, List, [], ◌∷◌, str_eq, maybe, is_some, ◌==◌,
  if◌then◌else◌,
}
use qiankun.Prelude.Lists.{any_of}
use qiankun.Prelude.Exec.{Error, Result, ok, err, and_then}
use qiankun.Prelude.Codes.{is_blank, strip, codes}
use qiankun.Prelude.Text.{fstring}

-- `ProbeKind`
pub data ProbeKind : Type 0 where
  http redis mysql postgresql rabbitmq mongodb : ProbeKind

abbrev pub kind_name : ProbeKind → String
kind_name ProbeKind.http = "HTTP"
kind_name ProbeKind.redis = "Redis"
kind_name ProbeKind.mysql = "MySQL"
kind_name ProbeKind.postgresql = "PostgreSQL"
kind_name ProbeKind.rabbitmq = "RabbitMQ"
kind_name ProbeKind.mongodb = "MongoDB"

-- `ALLOWED_SCHEMES[kind]`
abbrev pub allowed_schemes : ProbeKind → List String
allowed_schemes ProbeKind.http = "http" ∷ "https" ∷ []
allowed_schemes ProbeKind.redis = "redis" ∷ "rediss" ∷ []
allowed_schemes ProbeKind.mysql = "mysql" ∷ []
allowed_schemes ProbeKind.postgresql = "pg" ∷ "postgres" ∷ "postgresql" ∷ []
allowed_schemes ProbeKind.rabbitmq = "amqp" ∷ "amqps" ∷ []
allowed_schemes ProbeKind.mongodb = "mongodb" ∷ "mongodb+srv" ∷ []

-- An `AnyUrl`: its text, and what `urlsplit` makes of it. An `AnyUrl` has its scheme in lower case.
pub record Url : Type 0 where
  pub content : String
  pub scheme : String
  pub netloc : String
  pub hostname : Option String
  pub port : Option ℕ
  pub username : Option String
  pub password : Option String
  pub path : String
  pub query : String
  pub fragment : String

-- `urlunsplit` of five parts, and `str` of a number
pub record UrlTools : Type 0 where
  pub urlunsplit : String → String → String → String → String → String
  pub show_int : ℕ → String

pub record ProbeAccount : Type 0 where
  pub name : String
  pub url : Url

-- `ProbeAccount.validate_required_text`
unfoldable pub validate_required_text : String → Result String
validate_required_text value =
    if is_blank (strip value) then err Error.validation else ok (strip value)

-- The times are numbers of milliseconds.
pub record ProbeConfig : Type 0 where
  pub kind : ProbeKind
  pub accounts : List ProbeAccount
  pub timeout : ℕ

abbrev pub of_kind : ProbeKind → List ProbeAccount → ℕ → ProbeConfig
of_kind kind accounts timeout = record { kind = kind; accounts = accounts; timeout = timeout }

abbrev pub is_http : ProbeKind → Bool
is_http ProbeKind.http = true
is_http _ = false

-- The body of the loop of `validate_target`
unfoldable pub is_target : ProbeKind → ProbeAccount → Bool
is_target kind account =
    any_of (λ s. str_eq account.url.scheme s) (allowed_schemes kind)
    && not (
        not (is_http kind)
        && (not (str_eq account.url.scheme "mongodb+srv") && not (is_some account.url.port)))

unfoldable pub validate_accounts : ProbeKind → List ProbeAccount → Result (Unit {0})
unfolding is_target
validate_accounts kind [] = ok tt
validate_accounts kind (account ∷ accounts) =
    if is_target kind account then validate_accounts kind accounts else err Error.validation

-- `validate_target`
unfoldable pub validate_target : ProbeConfig → Result ProbeConfig
unfolding validate_accounts
validate_target config = elim (config.accounts) [
  | [] ↦ err Error.validation
  | account ∷ accounts ↦
      and_then (validate_accounts config.kind (account ∷ accounts)) (λ _. ok config)
]

-- `_target_host`: a URL without a host is a `ValueError`.
unfoldable pub target_host : Url → Result String
target_host url =
    maybe url.hostname (err Error.unexpected)
      λ host. if is_blank host then err Error.unexpected else ok host

-- `text or ""`
abbrev pub or_empty : Option String → String
or_empty o = maybe o "" (λ t. t)

abbrev starts_with_bracket : List ℕ → Bool
starts_with_bracket [] = false
starts_with_bracket (c ∷ _) = c == b'['

abbrev pub bracketed : String → String
bracketed host =
    if is_some (find? host ":") && not (starts_with_bracket (codes host))
    then fstring ("[" ∷ host ∷ "]" ∷ [])
    else host

abbrev pub with_port : UrlTools → Option ℕ → String → String
with_port t port host = maybe port host (λ p. fstring (host ∷ ":" ∷ t.show_int p ∷ []))

abbrev pub userinfo : String → String
userinfo username = if is_blank username then ":***" else fstring (username ∷ ":***" ∷ [])

-- `_display_url`
unfoldable pub display_url : UrlTools → Url → String
display_url t url = maybe url.password url.content λ _.
    t.urlunsplit url.scheme
      (fstring (
        userinfo (or_empty url.username)
        ∷ "@"
        ∷ with_port t url.port (bracketed (or_empty url.hostname))
        ∷ []))
      url.path url.query url.fragment
