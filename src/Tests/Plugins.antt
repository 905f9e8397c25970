-- ===== src/Tests/Plugins.antt =====
-- The theorems on dependencies and providers, at concrete inputs.
use qiankun.Prelude.{
  ◌≡◌, refl, String, true, false, none, some, List, [], ◌∷◌, str_eq, if◌then◌else◌,
}
use qiankun.Prelude.Codes.{codes}
use qiankun.Infrastructure.Plugins.Dependencies.{UvResult, outcome_of}
use qiankun.Infrastructure.Plugins.Store.{Directories, main_of}
use qiankun.Runtime.Registry.{lookup_text}
use qiankun.Runtime.Discovery.{ModuleClass, Importer}
use qiankun.Application.Environment.{Site, Tools}
use qiankun.Infrastructure.Repositories.Settings.{by_key, add_setting, update_setting}
use qiankun.Application.Dependencies.{sync, add, remove}
use qiankun.Application.Dependencies.Manifest.{manifest_of}
use qiankun.Application.Dependencies.Replay.{Call, specs_of, run_calls, replay, run_calls-replay}
use qiankun.Application.Providers.{Plugins, Loader, update}
use qiankun.Application.Providers.Requests.{Request, answer_all, answer_all-lookup_text}
use qiankun.Tests.{tables, report}

-- uv installs nothing new and never fails.
abbrev pub tools : Tools
tools = record {
  packaging = record { requires = none; contains = λ specifier version. some true };
  uv = λ command distributions. (UvResult.exited 0 "done", distributions);
  reload = λ distributions registry. none;
  now = λ n. "2026-01-01";
  show_int = λ n. "n";
  show = λ v. "value";
  show_name = λ n. "name";
}

abbrev pub empty_site : Site
empty_site = record {
  db = tables;
  distributions = [];
  registry = record { providers = []; issues = [] };
  commands = [];
  reads = 0;
}

abbrev calls : List Call
calls =
    Call.add_call (" PyYAML==6.0 " ∷ "rich" ∷ [])
    ∷ Call.add_call ("py_yaml" ∷ "PYYAML>=6.1" ∷ [])
    ∷ Call.remove_call "Rich"
    ∷ Call.add_call ("FastAPI" ∷ [])
    ∷ Call.sync_call
    ∷ []

run_calls-replay_example :
    specs_of (codes "pyyaml") (manifest_of tools (run_calls tools calls empty_site))
    ≡ replay tools calls empty_site
        (λ name. specs_of name (manifest_of tools empty_site))
        (codes "pyyaml")
run_calls-replay_example = run_calls-replay tools calls empty_site (codes "pyyaml")

calls_run : manifest_of tools (run_calls tools calls empty_site) ≡ "py_yaml" ∷ "PYYAML>=6.1" ∷ []
unfolding run_calls add remove sync by_key add_setting update_setting outcome_of
calls_run = refl

-- A source whose class is called like its directory, and one whose class has another name.
abbrev class_named : String → ModuleClass
class_named name = record {
  class_name = "Probe";
  is_local = true;
  is_provider = true;
  is_base = false;
  is_abstract = false;
  name = name;
  has_config_schema = true;
  capabilities = [];
}

abbrev pub running : Importer
running text = some (class_named (if str_eq text "good" then "probe" else "other") ∷ [])

abbrev loader : Loader
loader = record {
  disk = record { parse = λ text. true; writes = λ name text. true };
  run = running;
  validate = λ name config. some config;
}

abbrev pub sources : Directories
sources =
    ("probe", record { init = some ""; main = some "good" })
    ∷ ("shared", record { init = some ""; main = none })
    ∷ []

abbrev plugins : Plugins
plugins = record {
  files = sources;
  modules = [];
  registry = record { providers = ("probe", "probe") ∷ []; issues = [] };
  tasks = report ∷ [];
}

abbrev requests : List Request
requests =
    Request.create_provider "shared" "good"
    ∷ Request.update_provider "probe" "bad"
    ∷ Request.delete_provider "shared"
    ∷ Request.create_provider "_hidden" "good"
    ∷ Request.reload_providers
    ∷ []

answer_all-lookup_text_example :
    lookup_text "shared" (answer_all loader requests plugins).files
    ≡ lookup_text "shared" plugins.files
answer_all-lookup_text_example = answer_all-lookup_text loader requests plugins "shared" refl

-- After an update that is refused because of its class, the old source is back, and the registry
-- still has no provider of that name: `load` finds the refused module in Python's cache.
refused_update :
    let after = (update loader "probe" "bad" plugins).1 in
    (main_of "probe" after.files ≡ some "good")
    × (lookup_text "probe" after.registry.providers ≡ none)
unfolding update
refused_update = (refl, refl)
