-- ===== src/Application/Providers.antt =====
-- app/application/services/provider.py: the catalog of providers and the management of their sources.
-- A descriptor leaves out `capabilities` and `config_schema`, which are read off the class. The trial
-- run is not modelled.
pub mod Rollback
pub mod Names
pub mod Requests
pub mod Deletion
use Prim.Native.String
use qiankun.Prelude.{
  ℕ, ◌+◌, String, Bool, true, false, not, ◌&&◌, ◌||◌, Option, none, some, List, [], ◌∷◌, ◌++◌, map,
  str_eq, ◌==◌, maybe, is_some, if◌then◌else◌,
}
use qiankun.Prelude.Exec.{
  Error, Result, ok, err, Exec, pure, raise, raise_if, or_raise, gets, modify, ◌>>=◌, ◌>>◌,
}
use qiankun.Prelude.Lists.{length, keep_if, any_of}
use qiankun.Prelude.Json.{Value}
use qiankun.Prelude.Text.{fstring}
use qiankun.Prelude.Codes.{codes, codes_le, sort_by}
use qiankun.Infrastructure.Database.{Task}
use qiankun.Infrastructure.Plugins.Store.{
  Disk, Directories, is_reserved, main_of, exists, read, write, delete as delete_source,
  sorted_texts,
}
use qiankun.Runtime.Registry.{
  DiscoveredProvider, ProviderRegistry, is_valid, lookup_text, has_provider,
}
use qiankun.Runtime.Discovery.{
  Modules, Importer, discover_providers, load_packages, reload_packages,
}

-- The parts that the service works on: the sources, Python's modules, the registry and the tasks.
pub record Plugins : Type 0 where
  pub files : Directories
  pub modules : Modules
  pub registry : ProviderRegistry
  pub tasks : List Task

-- `validate` is `provider.validate_config` of the class of a name, and `none` is its exception.
pub record Loader : Type 0 where
  pub disk : Disk
  pub run : Importer
  pub validate : String → Value → Option Value

-- A call of the store.
abbrev pub on_files : {A : Type 0} → Exec Directories A → Exec Plugins A
on_files m p = let (r, files) = m p.files in (r, record p { files = files })

-- `registry.load()` and `registry.reload()`
unfoldable pub load_registry : Loader → Exec Plugins Unit
unfolding load_packages
load_registry l p =
    let (registry, modules) = load_packages l.run p.files p.modules in
    (ok tt, record p { registry = registry; modules = modules })

unfoldable pub reload_registry : Loader → Exec Plugins Unit
unfolding reload_packages
reload_registry l p =
    let (registry, modules) = reload_packages l.run p.files p.modules in
    (ok tt, record p { registry = registry; modules = modules })

-- An entry of the catalog, without its source.
pub record Entry : Type 0 where
  pub name : String
  pub valid : Bool
  pub issues : List String

pub record Descriptor : Type 0 where
  pub name : String
  pub valid : Bool
  pub issues : List String
  pub code : String

-- `list`: a scan, whose imports stay in Python's cache.
unfoldable pub list : Loader → Exec Plugins (List Entry)
unfolding discover_providers
list l p =
    let (discovered, modules) = discover_providers l.run p.files p.modules in
    let entries =
      map (λ d. record { name = d.directory; valid = is_valid d; issues = d.issues }) discovered in
    (
      ok (sort_by (λ a b. codes_le (codes (a.name)) (codes (b.name))) entries),
      record p { modules = modules },
    )

-- `except (NotFoundError, ValidationError, ConflictError)`
abbrev pub or_empty : Result String → Directories → Result String × Directories
or_empty (ok text) files = (ok text, files)
or_empty (err Error.not_found) files = (ok "", files)
or_empty (err Error.validation) files = (ok "", files)
or_empty (err Error.conflict) files = (ok "", files)
or_empty (err e) files = (err e, files)

-- `_safe_read`
unfoldable pub safe_read : String → Exec Directories String
unfolding read
safe_read name files = let (r, after) = read name files in or_empty r after

-- `get`
unfoldable pub get : String → Exec Plugins Descriptor
unfolding safe_read
get name = do
  loaded ← gets (λ p. has_provider p.registry name)
  problems ← gets (λ p. lookup_text name p.registry.issues)
  raise_if (not loaded && not (is_some problems)) Error.not_found
  code ← on_files (safe_read name)
  pure (record {
    name = name;
    valid = loaded;
    issues = if loaded then [] else maybe problems [] (λ issues. issues);
    code = code;
  })

abbrev pub has_issues : List String → Bool
has_issues [] = false
has_issues (_ ∷ _) = true

-- `_activate`
unfoldable pub activate : Loader → String → Exec Plugins Descriptor
unfolding reload_registry safe_read
activate l name = do
  reload_registry l
  issues ← gets (λ p. maybe (lookup_text name p.registry.issues) [] (λ issues. issues))
  raise_if (has_issues issues) Error.validation
  loaded ← gets (λ p. has_provider p.registry name)
  raise_if (not loaded) Error.validation
  code ← on_files (safe_read name)
  pure (record { name = name; valid = true; issues = []; code = code })

-- `create`
unfoldable pub create : Loader → String → String → Exec Plugins Descriptor
unfolding exists write activate
create l name code = do
  taken ← on_files exists
  raise_if (taken name) Error.conflict
  on_files (write l.disk name code)
  activate l name

-- `except Exception` of `update`: the source is put back, and the registry loaded.
unfoldable pub or_restore : Loader → String → String → Result Descriptor → Exec Plugins Descriptor
unfolding write load_registry
or_restore l name previous (ok entry) = pure entry
or_restore l name previous (err e) = do
  on_files (write l.disk name previous)
  load_registry l
  raise e

unfoldable pub activate_or_restore : Loader → String → String → Exec Plugins Descriptor
unfolding activate or_restore
activate_or_restore l name previous p =
    let (r, q) = activate l name p in or_restore l name previous r q

-- `update`
unfoldable pub update : Loader → String → String → Exec Plugins Descriptor
unfolding exists read write activate_or_restore
update l name code = do
  there ← on_files exists
  raise_if (not (there name)) Error.not_found
  previous ← on_files (read name)
  on_files (write l.disk name code)
  activate_or_restore l name previous

-- `uow.tasks.list(0, 1, Task.provider == name)`, of which the total is used
abbrev pub count_tasks : String → List Task → ℕ
count_tasks name tasks = length (keep_if (λ t. str_eq t.provider name) tasks)

-- `delete`
unfoldable pub delete : Loader → String → Exec Plugins Unit
unfolding exists delete_source load_registry
delete l name = do
  raise_if (is_reserved name) Error.conflict
  there ← on_files exists
  raise_if (not (there name)) Error.not_found
  total ← gets (λ p. count_tasks name p.tasks)
  raise_if (not (total == 0)) Error.conflict
  on_files (delete_source name)
  load_registry l

-- `reload`: the names and the issues of the registry.
unfoldable pub reload : Loader → Exec Plugins (List String × List (String × List String))
unfolding reload_registry
reload l = do
  reload_registry l
  gets (λ p. (sorted_texts (map (λ r. r.0) p.registry.providers), p.registry.issues))

-- `_provider` and `validate_config`
unfoldable pub validate_config : Loader → String → Value → Exec Plugins Value
validate_config l name config = do
  known ← gets (λ p. has_provider p.registry name)
  raise_if (not known) Error.not_found
  or_raise (l.validate name config) Error.validation
