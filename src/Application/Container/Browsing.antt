-- ===== src/Application/Container/Browsing.antt =====
-- The token of the browser, from the row of the settings through app/application/container.py to the address
-- of app/infrastructure/browser/cdp.py.
use qiankun.Prelude.{
  ◌≡◌, refl, String, true, some, str_eq, eq_iff, if◌then◌else◌, ◌&&◌, inl, inr, Bool-cases,
}
use qiankun.Prelude.Exec.{ok}
use qiankun.Prelude.Json.{Value, Fields, get_field}
use qiankun.Infrastructure.Database.{SystemSetting}
use qiankun.Infrastructure.Repositories.Settings.{find_setting, by_key}
use qiankun.Application.Settings.{
  is_secret, is_truthy, placeholder, redact_secrets, redact_row, get as get_setting,
}
use qiankun.Application.Container.{Container, read_setting, refresh_browser}
use qiankun.Infrastructure.Browser.{Urls, add_token, with_token, open_endpoint}

get_field-redact_secrets :
    (k : String) (v : Value) (fields : Fields)
    → get_field k fields ≡ some v
    → get_field k (redact_secrets fields)
      ≡ some (if is_secret k && is_truthy v then Value.str placeholder else v)
unfolding redact_secrets
get_field-redact_secrets k v Fields.end h = cc
get_field-redact_secrets k v (Fields.field j w fields) h = elim (Bool-cases (str_eq j k)) [
  | inl e ↦
      let same : j ≡ k = (eq_iff j k).0 e in
      let held : some w ≡ some v = rw e at h in
      let is_it : w ≡ v = cc in rw (same, (eq_iff k k).1 refl, is_it) refl
  | inr n ↦ rw n (get_field-redact_secrets k v fields (rw n at h))
]

-- The browser is opened with the placeholder for its token: where the row (browser, cdp) has a token and an
-- endpoint that is a text, a refresh of the cache ends, and the driver then connects to the endpoint with
-- the token "[REDACTED]", whatever the token is.
pub refresh_browser_redacts_token :
    (u : Urls) (c : Container) (row : SystemSetting) (fields : Fields) (endpoint : String)
    (token : Value)
    → find_setting "browser" "cdp" c.site.db.settings ≡ some row
    → row.value ≡ Value.dict fields
    → get_field "endpoint" fields ≡ some (Value.str endpoint)
    → get_field "token" fields ≡ some token
    → is_truthy token ≡ true
    → ((refresh_browser c).0 ≡ ok tt)
      × (open_endpoint u (refresh_browser c).1.browser_cache
          ≡ ok (add_token u endpoint placeholder))
unfolding refresh_browser read_setting get_setting by_key redact_row open_endpoint with_token
refresh_browser_redacts_token u c row fields endpoint token found is_dict at_endpoint at_token
      full =
    rw
      (
        found,
        is_dict,
        get_field-redact_secrets "endpoint" (Value.str endpoint) fields at_endpoint,
        get_field-redact_secrets "token" token fields at_token,
        full,
      )
      (refl, refl)
