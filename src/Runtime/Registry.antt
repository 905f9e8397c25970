-- ===== src/Runtime/Registry.antt =====
-- app/runtime/provider/registry.py: names to provider factories, rebuilt on load. The walk over the
-- providers package is a parameter: its result is the list of discovered providers.
pub mod Rebuilt
use qiankun.Prelude.{
  ℕ, String, Bool, true, false, ◌&&◌, not, Option, none, some, List, [], ◌∷◌, ◌++◌, map, str_eq,
  is_some, maybe, if◌then◌else◌,
}
use qiankun.Prelude.Exec.{Error, Result, ok, err}
use qiankun.Prelude.Text.{fstring}

-- `DiscoveredProvider`; the provider type is its name.
pub record DiscoveredProvider : Type 0 where
  pub directory : String
  pub provider_type : Option String
  pub issues : List String

abbrev pub no_issues : List String → Bool
no_issues [] = true
no_issues (_ ∷ _) = false

-- `DiscoveredProvider.valid`
abbrev pub is_valid : DiscoveredProvider → Bool
is_valid d = is_some d.provider_type && no_issues d.issues

-- `ProviderRegistry.__init__`: the factory of a name is the directory that it came from.
pub record ProviderRegistry : Type 0 where
  pub providers : List (String × String)
  pub issues : List (String × List String)

abbrev pub lookup_text {ℓ} : {A : Type ℓ} → String → List (String × A) → Option A
lookup_text key [] = none
lookup_text key ((k, a) ∷ d) = let rest = lookup_text key d in if str_eq k key then some a else rest

-- `d[key] = a`; a key that is there keeps its place.
abbrev pub set_text {ℓ} : {A : Type ℓ} → String → A → List (String × A) → List (String × A)
set_text key a [] = (key, a) ∷ []
set_text key a ((k, b) ∷ d) =
    let rest = set_text key a d in if str_eq k key then (k, a) ∷ d else (k, b) ∷ rest

-- `_owner`: it compares the names of the factories, so it always answers with the name itself.
abbrev pub owner : List (String × String) → String → String
owner providers name = name

-- `name in self._providers`
abbrev pub has_provider : ProviderRegistry → String → Bool
has_provider r name = is_some (lookup_text name r.providers)

abbrev pub add_issue : DiscoveredProvider → List String → ProviderRegistry → ProviderRegistry
add_issue d issues r = record r { issues = set_text d.directory issues r.issues }

-- A valid provider with its name.
unfoldable pub add_provider : DiscoveredProvider → String → ProviderRegistry → ProviderRegistry
add_provider d name r =
    if has_provider r name
    then add_issue d
        (fstring ("Provider name '" ∷ name ∷ "' 与目录 '" ∷ owner r.providers name ∷ "' 重复" ∷ []) ∷ [])
        r
    else record r { providers = r.providers ++ (name, d.directory) ∷ [] }

-- The body of the loop of `load`.
unfoldable pub load_one : DiscoveredProvider → ProviderRegistry → ProviderRegistry
unfolding add_provider
load_one d r =
    if is_valid d
    then maybe d.provider_type r (λ name. add_provider d name r)
    else add_issue d d.issues r

-- `for discovered in discover_providers()`
unfoldable pub load_from : List DiscoveredProvider → ProviderRegistry → ProviderRegistry
unfolding load_one
load_from [] r = r
load_from (d ∷ ds) r = load_from ds (load_one d r)

-- `load`: both dictionaries are built anew and then swapped in.
unfoldable pub load : List DiscoveredProvider → ProviderRegistry
unfolding load_from
load discovered = load_from discovered (record { providers = []; issues = [] })

-- `get`
unfoldable pub get : ProviderRegistry → String → Result String
get r name = maybe (lookup_text name r.providers) (err Error.not_found) ok
