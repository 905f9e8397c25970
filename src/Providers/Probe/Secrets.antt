-- ===== src/Providers/Probe/Secrets.antt =====
-- What a run of probe/main.py shows of the passwords in the URLs of its accounts.
use qiankun.Prelude.{◌≡◌, String, Option, some, List, [], ◌∷◌}
use qiankun.Prelude.Exec.{◌>>=◌, ◌>>◌}
use qiankun.Providers.ProbeConfig.{ProbeAccount, ProbeConfig}

-- The parts of a URL that have its password in them: the text, what is before the path, and itself.
pub record Secret : Type 0 where
  pub content : String
  pub netloc : String
  pub password : String

abbrev with_secret : Secret → ProbeAccount → ProbeAccount
with_secret s a = record a {
  url = record (a.url) { content = s.content; netloc = s.netloc; password = some s.password };
}

abbrev with_password : Option String → ProbeAccount → ProbeAccount
with_password password a = record a { url = record (a.url) { password = password } }

abbrev pub HasPassword : ProbeAccount → Type 0
HasPassword a = (p : String) × (a.url.password ≡ some p)

abbrev with_accounts : List ProbeAccount → ProbeConfig → ProbeConfig
with_accounts accounts config = record config { accounts = accounts }

-- The accounts with other passwords.
abbrev replace_secrets : (ProbeAccount → Secret) → List ProbeAccount → List ProbeAccount
replace_secrets secret [] = []
replace_secrets secret (a ∷ accounts) = with_secret (secret a) a ∷ replace_secrets secret accounts

abbrev pub with_secrets : (ProbeAccount → Secret) → ProbeConfig → ProbeConfig
with_secrets secret config = with_accounts (replace_secrets secret config.accounts) config
