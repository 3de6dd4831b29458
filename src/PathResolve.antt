-- ===== src/PathResolve.antt =====
-- pathresolve/pathresolve.go. The file system and this process's own environment are parameters:
-- isExecutable, exec.LookPath, os.Getenv("PATH") and the names in a directory.
pub mod First
mod Tests
use sh.Prelude.{
  ℕ, Bool, true, false, not, ◌&&◌, ◌||◌, Option, none, some, List, [], ◌∷◌, ◌++◌, Runes, codes,
  same, ◌==◌, if◌then◌else◌,
}
use sh.Prelude.Distinct.{seen}
use sh.Std.Strings.{contains_rune, cut_prefix}
use sh.Std.Paths.{join_two, split_list}

-- What the package reads of the machine that it runs on.
pub record Machine : Type 0 where
  -- `isExecutable`: a file that is no directory and has an execute bit
  pub is_executable : Runes → Bool
  -- `exec.LookPath`, and `os.Getenv("PATH")`
  pub exec_look_path : Runes → Option Runes
  pub getenv_path : Runes
  -- `os.ReadDir`, by names; `none` is its error
  pub read_dir : Runes → Option (List Runes)

-- the names that lookups give: not executable, not found in PATH, or the error of `exec.LookPath`
pub data LookError : Type 0 where
  not_executable not_in_path exec_error : LookError

pub data Look : Type 0 where
  found : Runes → Look
  failed : LookError → Look

unfoldable pub lookup_env : List Runes → Runes → Option Runes
unfolding cut_prefix
lookup_env [] key = none
lookup_env (kv ∷ env) key =
    let rest = lookup_env env key in
    elim (cut_prefix (key ++ codes "=") kv) [ some v ↦ some v | none ↦ rest ]

-- POSIX: an empty entry means the working directory.
abbrev pub entry_dir : Runes → Runes
entry_dir [] = codes "."
entry_dir (r ∷ rs) = r ∷ rs

abbrev pub candidate : Runes → Runes → Runes
candidate name dir = join_two (entry_dir dir) name

-- The loop of `LookPath` over the entries of PATH.
unfoldable pub first_executable : Machine → Runes → List Runes → Look
first_executable m name [] = failed not_in_path
first_executable m name (dir ∷ dirs) =
    let rest = first_executable m name dirs in
    if m.is_executable (candidate name dir) then found (candidate name dir) else rest

abbrev of_exec : Option Runes → Look
of_exec none = failed exec_error
of_exec (some path) = found path

abbrev pub in_path : Machine → Runes → Option Runes → Look
in_path m name none = of_exec (m.exec_look_path name)
in_path m name (some path_var) = first_executable m name (split_list path_var)

-- `LookPath`
unfoldable pub look_path : Machine → Runes → List Runes → Look
unfolding first_executable contains_rune
look_path m name env =
    if contains_rune b'/' name
    then (if m.is_executable name then found name else failed not_executable)
    else in_path m name (lookup_env env (codes "PATH"))

-- The inner loop of `Names`, over the entries of one directory; `names` are those found so far,
-- which are also the keys of the map `seen`.
unfoldable pub names_in : Machine → Runes → List Runes → List Runes → List Runes
unfolding same
names_in m dir [] names = names
names_in m dir (name ∷ rest) names = names_in m dir rest (
    if seen name names || not (m.is_executable (join_two dir name))
    then names
    else names ++ name ∷ [])

abbrev pub names_of : Machine → Runes → Option (List Runes) → List Runes → List Runes
names_of m dir none names = names
names_of m dir (some entries) names = names_in m dir entries names

unfoldable pub names_from : Machine → List Runes → List Runes → List Runes
unfolding names_in
names_from m [] names = names
names_from m (dir ∷ dirs) names =
    names_from m dirs (names_of m (entry_dir dir) (m.read_dir (entry_dir dir)) names)

abbrev pub or_else : Option Runes → Runes → Runes
or_else none d = d
or_else (some v) d = v

-- `Names`
unfoldable pub names : Machine → List Runes → List Runes
unfolding names_from
names m env = names_from m (split_list (or_else (lookup_env env (codes "PATH")) m.getenv_path)) []
