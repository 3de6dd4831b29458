-- ===== src/PathResolve/First.antt =====
-- What `LookPath` and `Names` of pathresolve/pathresolve.go return.
use sh.Prelude.{
  ◌≡◌, refl, ◌⊎◌, inl, inr, true, false, Option, none, some, List, [], ◌∷◌, ◌++◌, Runes, codes,
  arith, Bool-cases, Option-cases, or_false, subst, not, ◌||◌,
}
use sh.Prelude.Distinct.{seen, Distinct, Distinct-append}
use sh.Std.Strings.{contains_rune}
use sh.Std.Paths.{split_list, join_two}
use sh.PathResolve.{
  Machine, found, failed, not_in_path, candidate, entry_dir, first_executable, lookup_env,
  look_path, or_else, names_in, names_from, names_of, names,
}

-- `path` is the candidate of the first directory that has an executable one.
pub data FirstIn (m : Machine) (name path : Runes) : List Runes → Type 0 where
  here :
      {dir : Runes} {dirs : List Runes}
      → path ≡ candidate name dir
      → m.is_executable path ≡ true
      → FirstIn m name path (dir ∷ dirs)
  later :
      {dir : Runes} {dirs : List Runes}
      → m.is_executable (candidate name dir) ≡ false
      → FirstIn m name path dirs
      → FirstIn m name path (dir ∷ dirs)

-- No directory has an executable candidate.
abbrev pub NoneIn : Machine → Runes → List Runes → Type 0
NoneIn m name [] = Unit
NoneIn m name (dir ∷ dirs) = (m.is_executable (candidate name dir) ≡ false) × NoneIn m name dirs

first_executable-cases :
    (m : Machine) (name : Runes) (dirs : List Runes)
    → ((path : Runes) × (first_executable m name dirs ≡ found path) × FirstIn m name path dirs)
      ⊎ ((first_executable m name dirs ≡ failed not_in_path) × NoneIn m name dirs)
unfolding first_executable
first_executable-cases m name [] = inr (refl, tt)
first_executable-cases m name (dir ∷ dirs) =
    elim (Bool-cases (m.is_executable (candidate name dir))) [
      | inl h ↦ inl (candidate name dir, rw h, here refl h)
      | inr h ↦ elim (first_executable-cases m name dirs) [
        | inl (path, e, f) ↦ inl (path, rw h e, later h f)
        | inr (e, no_dir) ↦ inr (rw h e, (h, no_dir))
      ]
    ]

look_path_in_env-eq :
    (m : Machine) (name path_var : Runes) (env : List Runes)
    → contains_rune b'/' name ≡ false
    → lookup_env env (codes "PATH") ≡ some path_var
    → look_path m name env ≡ first_executable m name (split_list path_var)
unfolding look_path
look_path_in_env-eq m name path_var env h e = rw h (rw e)

-- A name without a separator, in an environment that has a PATH: the lookup returns the candidate
-- of the first entry of PATH that has an executable one, or reports that the name is not in PATH,
-- in which case no entry has one.
pub look_path_in_env :
    (m : Machine) (name path_var : Runes) (env : List Runes)
    → contains_rune b'/' name ≡ false
    → lookup_env env (codes "PATH") ≡ some path_var
    → ((path : Runes) × (look_path m name env ≡ found path)
        × FirstIn m name path (split_list path_var))
      ⊎ ((look_path m name env ≡ failed not_in_path) × NoneIn m name (split_list path_var))
look_path_in_env m name path_var env h e =
    rw (look_path_in_env-eq m name path_var env h e)
      (first_executable-cases m name (split_list path_var))

FirstIn-executable :
    {m : Machine} {name path : Runes} {dirs : List Runes}
    → FirstIn m name path dirs
    → m.is_executable path ≡ true
FirstIn-executable (here e h) = h
FirstIn-executable (later h f) = FirstIn-executable f

look_path_separator :
    (m : Machine) (name : Runes) (env : List Runes) {path : Runes}
    → contains_rune b'/' name ≡ true
    → look_path m name env ≡ found path
    → m.is_executable path ≡ true
unfolding look_path
look_path_separator m name env h g = ground arith

-- Without a PATH in the environment the lookup is `exec.LookPath`.
look_path_no_env :
    (m : Machine) (name : Runes) (env : List Runes) {path : Runes}
    → contains_rune b'/' name ≡ false
    → lookup_env env (codes "PATH") ≡ none
    → look_path m name env ≡ found path
    → m.exec_look_path name ≡ some path
unfolding look_path
look_path_no_env m name env h e g = ground arith

-- Whatever the name and the environment, a path that the lookup returns is executable, provided
-- that `exec.LookPath` returns only executable ones.
pub look_path_executable :
    (m : Machine)
    → ((name path : Runes) → m.exec_look_path name ≡ some path → m.is_executable path ≡ true)
    → (name : Runes) (env : List Runes) (path : Runes) → look_path m name env ≡ found path
    → m.is_executable path ≡ true
look_path_executable m std name env path h = elim (Bool-cases (contains_rune b'/' name)) [
  | inl own ↦ look_path_separator m name env own h
  | inr bare ↦ elim (Option-cases (lookup_env env (codes "PATH"))) [
    | inl e ↦ std name path (look_path_no_env m name env bare e h)
    | inr (path_var, e) ↦ elim (look_path_in_env m name path_var env bare e) [
      | inl (path', g, f) ↦
          FirstIn-executable (subst (λ x. FirstIn m name x (split_list path_var)) (ground arith) f)
      | inr (g, _) ↦ cc
    ]
  ]
]

names_in-Distinct :
    (m : Machine) (dir : Runes) (entries names : List Runes)
    → Distinct names
    → Distinct (names_in m dir entries names)
unfolding names_in
names_in-Distinct m dir [] names d = d
names_in-Distinct m dir (name ∷ rest) names d =
    elim (Bool-cases (seen name names || not (m.is_executable (join_two dir name)))) [
      | inl old ↦ rw old (names_in-Distinct m dir rest names d)
      | inr new ↦ rw new (
          names_in-Distinct m dir rest (names ++ name ∷ [])
            (Distinct-append name names d (or_false _ _ new).0))
    ]

names_of-Distinct :
    (m : Machine) (dir : Runes) (found : Option (List Runes)) (names : List Runes)
    → Distinct names
    → Distinct (names_of m dir found names)
names_of-Distinct m dir none names d = d
names_of-Distinct m dir (some entries) names d = names_in-Distinct m dir entries names d

names_from-Distinct :
    (m : Machine) (dirs names : List Runes) → Distinct names → Distinct (names_from m dirs names)
unfolding names_from
names_from-Distinct m [] names d = d
names_from-Distinct m (dir ∷ dirs) names d =
    names_from-Distinct m dirs _
      (names_of-Distinct m (entry_dir dir) (m.read_dir (entry_dir dir)) names d)

-- The names offered for completion contain no name twice, whatever the directories of PATH hold.
pub names-Distinct : (m : Machine) (env : List Runes) → Distinct (names m env)
unfolding names
names-Distinct m env =
    names_from-Distinct m (split_list (or_else (lookup_env env (codes "PATH")) m.getenv_path)) [] tt
