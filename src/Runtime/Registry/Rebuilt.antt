-- ===== src/Runtime/Registry/Rebuilt.antt =====
-- Which providers the registry has after a load.
use qiankun.Prelude.{
  String, Bool, false, ◌&&◌, Option, none, some, List, [], ◌∷◌, str_eq, maybe, if◌then◌else◌,
}
use qiankun.Runtime.Registry.{DiscoveredProvider, is_valid}

-- Whether a provider directory declares this name and is valid.
abbrev pub offers : String → DiscoveredProvider → Bool
offers name d = is_valid d && maybe d.provider_type false (λ n. str_eq n name)

-- The directory of the first valid provider of a name.
abbrev pub first_owner : String → List DiscoveredProvider → Option String
first_owner name [] = none
first_owner name (d ∷ ds) =
    let rest = first_owner name ds in if offers name d then some d.directory else rest

abbrev pub or_first : Option String → Option String → Option String
or_first none later = later
or_first (some directory) later = some directory
