-- ===== src/Infrastructure/Plugins/Store.antt =====
-- app/infrastructure/plugins/store.py: the directories under app/providers, with their `main.py`.
-- A file is its text. Whether the disk takes a file is a parameter; the path that `write` returns,
-- which no caller reads, is left out.
pub mod Lookup
use Prim.Native.Char.{code}
use Prim.Native.String
use qiankun.Prelude.{
  ℕ, ◌-◌, String, Bool, true, false, not, ◌&&◌, ◌||◌, Option, none, some, List, [], ◌∷◌, map, leb,
  str_eq, ◌==◌, maybe, is_some, if◌then◌else◌,
}
use qiankun.Prelude.Exec.{Error, Exec, pure, raise, raise_if, or_raise, gets, modify, ◌>>=◌, ◌>>◌}
use qiankun.Prelude.Lists.{all_of, length, keep_if}
use qiankun.Prelude.Codes.{codes, in_range, codes_le, sort_by}
use qiankun.Prelude.Text.{fstring}
use qiankun.Runtime.Registry.{lookup_text, set_text}

-- A directory: its `__init__.py` and its `main.py`, where they exist.
pub record Directory : Type 0 where
  pub init : Option String
  pub main : Option String

abbrev pub Directories : Type 0
Directories = List (String × Directory)

-- What the store takes from Python and from the disk: whether `ast.parse` accepts a text, and
-- whether the new `main.py` of a directory can be written and moved into place.
pub record Disk : Type 0 where
  pub parse : String → Bool
  pub writes : String → String → Bool

-- `name in RESERVED_DIRECTORIES`
abbrev pub is_reserved : String → Bool
is_reserved name = str_eq name "shared"

abbrev pub is_word_char : ℕ → Bool
is_word_char n = in_range b'a' b'z' n || in_range b'0' b'9' n || n == b'_'

abbrev pub matches_name : List ℕ → Bool
matches_name [] = false
matches_name (n ∷ ns) =
    in_range b'a' b'z' n && all_of is_word_char ns && leb 2 (length ns) && leb (length ns) 63

-- `PROVIDER_NAME_PATTERN.fullmatch`
unfoldable pub is_provider_name : String → Bool
is_provider_name name = matches_name (codes name)

-- `child.name.startswith(("_", "."))`
abbrev pub is_hidden : List ℕ → Bool
is_hidden [] = false
is_hidden (n ∷ _) = n == b'_' || n == b'.'

abbrev pub sorted_texts : List String → List String
sorted_texts names = sort_by (λ a b. codes_le (codes a) (codes b)) names

-- `list_directories`
unfoldable pub list_directories : Directories → List String
list_directories files =
    sorted_texts (keep_if (λ name. not (is_hidden (codes name))) (map (λ f. f.0) files))

-- The text of the `main.py` of a directory.
abbrev pub main_of : String → Directories → Option String
main_of name files = maybe (lookup_text name files) none (λ d. d.main)

-- `exists`
unfoldable pub exists : Exec Directories (String → Bool)
exists = gets (λ files name. is_some (main_of name files))

-- `_validate_name`
unfoldable pub validate_name : String → Exec Directories Unit
unfolding is_provider_name
validate_name name = do
  raise_if (is_reserved name) Error.conflict
  raise_if (not (is_provider_name name)) Error.validation

-- `read`, with `_main_path`
unfoldable pub read : String → Exec Directories String
unfolding validate_name
read name = do
  validate_name name
  main ← gets (λ files. main_of name files)
  or_raise main Error.not_found

-- `_validate_syntax`
abbrev pub validate_syntax : Disk → String → Exec Directories Unit
validate_syntax disk text = raise_if (not (disk.parse text)) Error.validation

-- `directory.mkdir(parents=True, exist_ok=True)` and the `__init__.py`
abbrev pub package_doc : String → String
package_doc name = fstring ("\"\"\"Provider " ∷ name ∷ ".\"\"\"\n" ∷ [])

abbrev pub with_package : String → Option Directory → Directory
with_package name none = record { init = some (package_doc name); main = none }
with_package name (some d) = record d {
  init = some (maybe d.init (package_doc name) (λ text. text));
}

abbrev pub make_package : String → Directories → Directories
make_package name files = set_text name (with_package name (lookup_text name files)) files

-- `os.replace(temp_name, target)`
abbrev pub put_main : String → String → Directories → Directories
put_main name text files =
    set_text name (record (with_package name (lookup_text name files)) { main = some text }) files

-- `write`: where the disk refuses, the temporary file is removed and `main.py` is as it was.
unfoldable pub write : Disk → String → String → Exec Directories Unit
unfolding validate_name
write disk name text = do
  validate_name name
  validate_syntax disk text
  modify (make_package name)
  raise_if (not (disk.writes name text)) Error.unexpected
  modify (put_main name text)

abbrev pub remove_text {ℓ} : {A : Type ℓ} → String → List (String × A) → List (String × A)
remove_text name files = keep_if (λ f. not (str_eq f.0 name)) files

-- `delete`
unfoldable pub delete : String → Exec Directories Unit
unfolding validate_name
delete name = do
  validate_name name
  directory ← gets (lookup_text name)
  raise_if (not (is_some directory)) Error.not_found
  modify (remove_text name)
