-- ===== src/Infrastructure/Plugins/Dependencies.antt =====
-- app/infrastructure/plugins/dependencies.py: requirement specs, and the packages of the running
-- environment. A name is the list of its code points, in the form that `normalize` gives it.
use Prim.Native.Char.{code}
use Prim.Native.String
use text.Mathlib.Text.{find?}
use qiankun.Prelude.{
  ℕ, ◌+◌, String, Bool, true, false, not, ◌&&◌, ◌||◌, Option, none, some, List, [], ◌∷◌, map, ◌==◌,
  maybe, is_some, if◌then◌else◌,
}
use qiankun.Prelude.Lists.{any_of}
use qiankun.Prelude.Codes.{
  codes, same_codes, in_range, is_blank, strip, last_chars, codes_le, sort_by, drop_chars,
}
use qiankun.Prelude.Text.{fstring}

-- A character of `[-_.]`
abbrev pub is_separator : ℕ → Bool
is_separator n = n == b'-' || n == b'_' || n == b'.'

-- `re.sub(r"[-_.]+", "-", name)`; the flag says that the character before was a separator.
abbrev pub squeeze : Bool → List ℕ → List ℕ
squeeze inside [] = []
squeeze inside (n ∷ ns) =
    let run = squeeze true ns in
    let other = squeeze false ns in
    if is_separator n then if inside then run else b'-' ∷ run else n ∷ other

-- `str.lower` of an ASCII character; other letters, which no accepted spec holds, stay.
abbrev pub lower : ℕ → ℕ
lower n = if in_range b'A' b'Z' n then n + 32 else n

-- `normalize`
unfoldable pub normalize : List ℕ → List ℕ
normalize name = map lower (squeeze false name)

-- A character of `[<>=!~\[;]`
abbrev pub ends_name : ℕ → Bool
ends_name n =
    n == b'<' || n == b'>' || n == b'=' || n == b'!' || n == b'~' || n == b'[' || n == b';'

-- `re.split(r"[<>=!~\[;]", spec, maxsplit=1)[0]`
abbrev pub head_of : String → String
head_of String.[] = String.[]
head_of (String.◌∷◌ c s) =
    let rest = head_of s in if ends_name (code c) then String.[] else String.◌∷◌ c rest

-- `package_name`
unfoldable pub package_name : String → List ℕ
unfolding normalize
package_name spec = normalize (codes (strip (head_of spec)))

abbrev pub protected_packages : List String
protected_packages =
    "fastapi" ∷ "uvicorn" ∷ "pydantic" ∷ "pydantic-settings" ∷ "sqlalchemy" ∷ "asyncpg" ∷ "alembic"
    ∷ "loguru" ∷ "croniter" ∷ "pyjwt" ∷ "argon2-cffi" ∷ "playwright" ∷ "curl-cffi" ∷ []

-- `name in {normalize(p) for p in PROTECTED_PACKAGES}`
unfoldable pub is_protected : List ℕ → Bool
unfolding normalize
is_protected name = any_of (λ p. same_codes name (normalize (codes p))) protected_packages

-- The characters of `_SPEC_PATTERN`: of a name, of the extras, and the comparison signs.
abbrev pub is_name_char : ℕ → Bool
is_name_char n =
    in_range b'A' b'Z' n || in_range b'a' b'z' n || in_range b'0' b'9' n || is_separator n

abbrev pub is_extra_char : ℕ → Bool
is_extra_char n = is_name_char n || n == b','

abbrev pub is_comparison : ℕ → Bool
is_comparison n = n == b'<' || n == b'>' || n == b'=' || n == b'!' || n == b'~'

-- `([<>=!~]=?[^;]+)?$`: after the sign at least one character, and none a semicolon.
abbrev pub matches_version : List ℕ → Bool
matches_version [] = true
matches_version (n ∷ []) = false
matches_version (n ∷ m ∷ ms) = is_comparison n && not (any_of (λ c. c == b';') (m ∷ ms))

-- The rest of `\[[A-Za-z0-9._,-]+\]`; the flag says that it has begun.
abbrev pub matches_extras : Bool → List ℕ → Bool
matches_extras begun [] = false
matches_extras begun (n ∷ ns) =
    let more = matches_extras true ns in
    if is_extra_char n then more else begun && n == b']' && matches_version ns

-- `_SPEC_PATTERN.fullmatch`
abbrev pub matches_spec : Bool → List ℕ → Bool
matches_spec begun [] = begun
matches_spec begun (n ∷ ns) =
    let more = matches_spec true ns in
    if is_name_char n
    then more
    else begun && (if n == b'[' then matches_extras false ns else matches_version (n ∷ ns))

-- What `validate_specs` says of one spec.
unfoldable pub problem_of : String → Option String
unfolding is_protected package_name
problem_of spec =
    let cleaned = strip spec in
    if is_blank cleaned
    then some "依赖项不能为空"
    else if not (matches_spec false (codes cleaned))
    then some (fstring ("非法的依赖格式: " ∷ cleaned ∷ []))
    else if is_protected (package_name cleaned)
    then some (fstring (cleaned ∷ " 属于核心依赖, 不允许通过接口修改" ∷ []))
    else none

-- `validate_specs`
unfoldable pub validate_specs : List String → List String
unfolding problem_of
validate_specs [] = []
validate_specs (spec ∷ specs) =
    maybe (problem_of spec) (validate_specs specs) (λ problem. problem ∷ validate_specs specs)

-- A dict whose keys are names.
module _ {ℓ} {A : Type ℓ} where
  abbrev pub lookup_name : List ℕ → List (List ℕ × A) → Option A
  lookup_name key [] = none
  lookup_name key ((k, a) ∷ d) =
      let rest = lookup_name key d in if same_codes k key then some a else rest

  abbrev pub set_name : List ℕ → A → List (List ℕ × A) → List (List ℕ × A)
  set_name key a [] = (key, a) ∷ []
  set_name key a ((k, b) ∷ d) =
      let rest = set_name key a d in if same_codes k key then (k, a) ∷ d else (k, b) ∷ rest

-- A distribution of the environment: its `Name` and its version.
abbrev pub Distribution : Type 0
Distribution = String × String

abbrev pub index_from : List Distribution → List (List ℕ × String) → List (List ℕ × String)
index_from [] result = result
index_from ((name, version) ∷ ds) result =
    index_from ds
      (if is_blank name then result else set_name (normalize (codes name)) version result)

-- `installed_packages`
unfoldable pub installed_packages : List Distribution → List (List ℕ × String)
unfolding normalize
installed_packages distributions = index_from distributions []

-- The loop of `base_requirements`
unfoldable pub base_from : List String → List (List ℕ × String) → List (List ℕ × String)
unfolding package_name
base_from [] pinned = pinned
base_from (line ∷ lines) pinned =
    let name = package_name line in
    base_from lines (
      if is_some (find? line "extra ==") || same_codes name []
      then pinned
      else set_name name "" pinned)

-- What the functions take from Python's packaging tools: the requirements of the program itself
-- (`none` where it is not installed), and `SpecifierSet(s).contains(v)`,
-- `none` for an `InvalidSpecifier`.
pub record Packaging : Type 0 where
  pub requires : Option (List String)
  pub contains : String → String → Option Bool

-- `base_requirements`
unfoldable pub base_requirements : Packaging → List (List ℕ × String)
unfolding base_from
base_requirements p = maybe p.requires [] (λ lines. base_from lines [])

-- `_matches`
abbrev pub version_matches : Packaging → String → String → Bool
version_matches p version specifier = maybe (p.contains specifier version) true (λ b. b)

-- One entry of the list that `drift` builds.
pub record Drift : Type 0 where
  pub name : List ℕ
  pub state : String
  pub detail : String

-- `spec[len(head):].strip()`
abbrev pub specifier_of : String → String
specifier_of spec = strip (drop_chars (String.count (head_of spec)) spec)

unfoldable pub drift_of : Packaging → String → Option String → Option Drift
unfolding package_name
drift_of p spec none = some (record { name = package_name spec; state = "missing"; detail = spec })
drift_of p spec (some version) =
    if is_blank (specifier_of spec) || version_matches p version (specifier_of spec)
    then none
    else some (record {
      name = package_name spec;
      state = "outdated";
      detail = fstring ("已安装 " ∷ version ∷ ", 期望 " ∷ specifier_of spec ∷ []);
    })

-- `drift`
unfoldable pub drift : Packaging → List String → List (List ℕ × String) → List Drift
unfolding drift_of package_name
drift p [] installed = []
drift p (spec ∷ declared) installed =
    maybe (drift_of p spec (lookup_name (package_name spec) installed)) (drift p declared installed)
      (λ problem. problem ∷ drift p declared installed)

-- `describe`
pub record Description : Type 0 where
  pub base : List (List ℕ)
  pub extra : List String
  pub installed : List (List ℕ × String)
  pub drift : List Drift
  pub protected : List String

unfoldable pub describe : Packaging → List Distribution → List String → Description
unfolding installed_packages base_requirements drift
describe p distributions declared = record {
  base = sort_by codes_le (map (λ r. r.0) (base_requirements p));
  extra = declared;
  installed = sort_by (λ a b. codes_le (a.0) (b.0)) (installed_packages distributions);
  drift = drift p declared (installed_packages distributions);
  protected = sort_by (λ a b. codes_le (codes a) (codes b)) protected_packages;
}

-- A call of uv.
pub data Command : Type 0 where
  install : List String → Command
  uninstall : List (List ℕ) → Command

-- How it ends: after the timeout, or with an exit code and its output.
pub data UvResult : Type 0 where
  timed_out : String → UvResult
  exited : ℕ → String → UvResult

-- `_run` and the test of the exit code: the text of the `DependencyError`, or the output.
pub data UvOutcome : Type 0 where
  failed succeeded : String → UvOutcome

unfoldable pub outcome_of : (ℕ → String) → UvResult → UvOutcome
outcome_of show_int (UvResult.timed_out command) =
    UvOutcome.failed (fstring ("安装超时 (>" ∷ show_int 300 ∷ "s): " ∷ command ∷ []))
outcome_of show_int (UvResult.exited exit_code output) =
    if exit_code == 0
    then UvOutcome.succeeded output
    else UvOutcome.failed (
        if is_blank (last_chars 4000 output)
        then fstring ("uv exited with " ∷ show_int exit_code ∷ [])
        else last_chars 4000 output)
