-- ===== src/Runtime/Discovery.antt =====
-- app/runtime/provider/discovery.py and `reload` of registry.py: the walk over the providers package.
-- What running a `main.py` defines is a parameter; Python's cache of imported modules is a state.
use qiankun.Prelude.{
  String, Bool, true, false, not, ◌&&◌, Option, none, some, List, [], ◌∷◌, ◌++◌, map, str_eq, maybe,
  is_some, if◌then◌else◌,
}
use qiankun.Prelude.Lists.{keep_if}
use qiankun.Prelude.Text.{fstring, join}
use qiankun.Runtime.Registry.{DiscoveredProvider, ProviderRegistry, lookup_text, set_text, load}
use qiankun.Infrastructure.Plugins.Store.{
  Directories, is_reserved, is_provider_name, sorted_texts, main_of,
}

-- A class that a module has as a member, with what the walk asks of it.
pub record ModuleClass : Type 0 where
  pub class_name : String
  pub is_local : Bool
  pub is_provider : Bool
  pub is_base : Bool
  pub is_abstract : Bool
  pub name : String
  pub has_config_schema : Bool
  pub capabilities : List String

-- `sys.modules`, by directory: the modules `app.providers.<directory>.main`.
abbrev pub Modules : Type 0
Modules = List (String × List ModuleClass)

-- What running a text as a module defines; `none` is an exception.
abbrev pub Importer : Type 0
Importer = String → Option (List ModuleClass)

abbrev pub import_text :
    Importer → String → Option String → Modules → Option (List ModuleClass) × Modules
import_text run directory none modules = (none, modules)
import_text run directory (some text) modules =
    maybe (run text) (none, modules) (λ m. (some m, set_text directory m modules))

-- `importlib.import_module(f"{package_name}.{directory}.main")`: a module that is in the cache is not
-- read again, and one that raises does not stay there.
unfoldable pub import_main :
    Importer → String → Option String → Modules → Option (List ModuleClass) × Modules
import_main run directory main modules =
    maybe (lookup_text directory modules) (import_text run directory main modules)
      (λ m. (some m, modules))

abbrev pub candidates : List ModuleClass → List ModuleClass
candidates members =
    keep_if (λ c. c.is_local && (c.is_provider && (not c.is_base && not c.is_abstract))) members

abbrev pub name_issues : String → List String
name_issues directory =
    if is_provider_name directory
    then []
    else "目录名必须匹配 ^[a-z][a-z0-9_]{2,63}$ (小写字母开头, 允许数字和下划线)" ∷ []

abbrev pub unknown_capabilities : ModuleClass → List String
unknown_capabilities c = sorted_texts (keep_if (λ x. not (str_eq x "browser")) c.capabilities)

abbrev pub issue_if : Bool → String → List String
issue_if true text = text ∷ []
issue_if false text = []

abbrev pub is_empty : List String → Bool
is_empty [] = true
is_empty (_ ∷ _) = false

-- The checks of the one candidate.
abbrev pub class_issues : String → ModuleClass → List String
class_issues directory c =
    issue_if (not (str_eq c.name directory))
      (fstring ("Provider name '" ∷ c.name ∷ "' 必须与目录名 '" ∷ directory ∷ "' 一致" ∷ []))
    ++ (issue_if (not c.has_config_schema) "必须声明 config_schema 且继承 ProviderConfig"
        ++ issue_if (not (is_empty (unknown_capabilities c)))
            (fstring ("未知能力: " ∷ join ", " (unknown_capabilities c) ∷ ", 仅支持 browser" ∷ [])))

-- `_inspect_directory` after the import
unfoldable pub inspect_candidates : String → List String → List ModuleClass → DiscoveredProvider
inspect_candidates directory issues [] = record {
  directory = directory;
  provider_type = none;
  issues = issues ++ "main.py 中未找到 BaseProvider 的具体子类" ∷ [];
}
inspect_candidates directory issues (c ∷ []) = record {
  directory = directory;
  provider_type = some c.name;
  issues = issues ++ class_issues directory c;
}
inspect_candidates directory issues (c ∷ d ∷ cs) = record {
  directory = directory;
  provider_type = none;
  issues =
      issues
      ++ fstring (
          "main.py 中只能定义一个 Provider 类, 实际有: "
          ∷ join ", " (sorted_texts (map (λ c. c.class_name) (c ∷ d ∷ cs)))
          ∷ [])
        ∷ [];
}

abbrev pub import_failed : String → List String → DiscoveredProvider
import_failed directory issues = record {
  directory = directory;
  provider_type = none;
  issues = issues ++ "导入 main.py 失败" ∷ [];
}

-- `_inspect_directory`; the text of an import error is left out.
unfoldable pub inspect_directory :
    Importer → String → Option String → Modules → DiscoveredProvider × Modules
unfolding import_main inspect_candidates is_provider_name
inspect_directory run directory main modules =
    let (imported, after) = import_main run directory main modules in
    (
      maybe imported (import_failed directory (name_issues directory))
          (λ m. inspect_candidates directory (name_issues directory) (candidates m)),
      after,
    )

-- `pkgutil.iter_modules(package.__path__)`: the packages, by name.
abbrev pub packages_in : Directories → List String
packages_in files = sorted_texts (map (λ f. f.0) (keep_if (λ f. is_some f.1.init) files))

-- The loop of `discover_providers`
unfoldable pub discover_from :
    Importer → Directories → List String → Modules → List DiscoveredProvider × Modules
unfolding inspect_directory
discover_from run files [] modules = ([], modules)
discover_from run files (directory ∷ rest) modules =
    if is_reserved directory
    then discover_from run files rest modules
    else (let (found, after) = inspect_directory run directory (main_of directory files) modules in
        let (others, last) = discover_from run files rest after in (found ∷ others, last))

-- `discover_providers`
unfoldable pub discover_providers :
    Importer → Directories → Modules → List DiscoveredProvider × Modules
unfolding discover_from
discover_providers run files modules = discover_from run files (packages_in files) modules

-- `ProviderRegistry.load`
unfoldable pub load_packages : Importer → Directories → Modules → ProviderRegistry × Modules
unfolding discover_providers load
load_packages run files modules =
    let (discovered, after) = discover_providers run files modules in (load discovered, after)

-- `ProviderRegistry.reload`: every module of a provider is forgotten first.
unfoldable pub reload_packages : Importer → Directories → Modules → ProviderRegistry × Modules
unfolding load_packages
reload_packages run files modules = load_packages run files []
