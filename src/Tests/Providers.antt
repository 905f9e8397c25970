-- ===== src/Tests/Providers.antt =====
-- The theorems on the probe and on the settings of a start, at concrete inputs.
use qiankun.Prelude.{ℕ, zero, suc, ◌≡◌, refl, String, true, false, Option, none, some, [], ◌∷◌}
use qiankun.Prelude.Json.{Value, Fields}
use qiankun.Prelude.Lists.{length}
use qiankun.Infrastructure.Database.{SystemSetting, Db}
use qiankun.Application.Settings.Bootstrap.{Defaults, seed_rows, bootstrap}
use qiankun.Providers.ProbeConfig.{ProbeKind, ProbeAccount, ProbeConfig}
use qiankun.Providers.ProbeChecks.{Probing, ProbeTools, HttpConduct}
use qiankun.Providers.Probe.{TargetConduct, execute}
use qiankun.Providers.Probe.Closing.{execute-closes}
use qiankun.Providers.Probe.Secrets.{Secret}

abbrev tools : ProbeTools
tools = record {
  perf_counter = λ n. 5;
  urls = record { urlunsplit = λ scheme netloc path query fragment. netloc; show_int = λ n. "n" };
  upper = λ t. t;
}

abbrev account : ProbeAccount
account = record {
  name = "main";
  url = record {
    content = "mysql://u:pw@db:3306/x";
    scheme = "mysql";
    netloc = "u:pw@db:3306";
    hostname = some "db";
    port = some 3306;
    username = some "u";
    password = some "pw";
    path = "/x";
    query = "";
    fragment = "";
  };
}

abbrev config : ProbeConfig
config = record { kind = ProbeKind.mysql; accounts = account ∷ account ∷ []; timeout = 1000 }

abbrev if_first : ℕ → Option String
if_first zero = none
if_first (suc n) = some "refused"

-- The first target works; the connection to the others is refused.
abbrev conduct : ℕ → TargetConduct
conduct n = record {
  http = HttpConduct.other_error;
  client = record { connecting = if_first n; working = none; reply = none; closing = false };
  broker = record {
    connecting = none;
    channel = none;
    publishing = none;
    incoming = none;
    acking = none;
    channel_closing = true;
    connection_closing = true;
  };
}

abbrev idle : Probing
idle = record { opened = 0; closed = 0; lines = []; reads = 0 }

execute-closes_example :
    (execute tools config conduct idle).1.opened ≡ (execute tools config conduct idle).1.closed
execute-closes_example = execute-closes tools config conduct idle refl

abbrev other : ProbeAccount → Secret
other a = record { content = "mysql://u:no@db:3306/x"; netloc = "u:no@db:3306"; password = "no" }

abbrev base_defaults : Defaults
base_defaults =
    let entry : Value = Value.dict (Fields.field "timezone" (Value.str "UTC") Fields.end) in
    record { admin_password_hash = "hash"; system_base = entry; logging_loguru = entry }

abbrev other_defaults : Defaults
other_defaults = record {
  admin_password_hash = "other";
  system_base = Value.null;
  logging_loguru = Value.null;
}

-- The browser is set by hand, and nothing else is there.
abbrev browser_row : SystemSetting
browser_row = record {
  scope = "browser";
  key = "cdp";
  type = "object";
  value = Value.dict (Fields.field "enabled" (Value.bool true) Fields.end);
  enabled = true;
  description = "";
}

abbrev browser_tables : Db
browser_tables = record { tasks = []; executions = []; settings = browser_row ∷ []; next_id = 1 }

written_rows : length (bootstrap base_defaults browser_tables).1.settings ≡ 6
unfolding bootstrap seed_rows
written_rows = refl
