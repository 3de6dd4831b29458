-- ===== src/PathResolve/Tests.antt =====
-- Lookups on a machine with two directories.
use sh.Prelude.{
  ◌≡◌, refl, ◌⊎◌, true, false, ◌||◌, none, some, List, [], ◌∷◌, Runes, codes, same, if◌then◌else◌,
}
use sh.Std.Strings.{contains_rune, cut_prefix}
use sh.Std.Paths.{join_two, split_list}
use sh.PathResolve.{Machine, found, failed, not_in_path, lookup_env, first_executable, look_path}
use sh.PathResolve.First.{FirstIn, NoneIn, look_path_in_env}

abbrev machine : Machine
machine = record {
  is_executable = λ path. same path (codes "/b/ls") || same path (codes "/b/cat");
  exec_look_path = λ name. none;
  getenv_path = codes "/a:/b";
  read_dir = λ dir.
      if same dir (codes "/b") then some (codes "ls" ∷ codes "cat" ∷ codes "x" ∷ []) else none;
}

-- PATH of the job names two directories, one of them empty of programs.
abbrev env : List Runes
env = codes "HOME=/h" ∷ codes "PATH=/a:/b" ∷ []

bare : contains_rune b'/' (codes "ls") ≡ false
unfolding contains_rune
bare = refl

in_env : lookup_env env (codes "PATH") ≡ some (codes "/a:/b")
unfolding lookup_env cut_prefix
in_env = refl

look_path_in_env_example :
    ((path : Runes) × (look_path machine (codes "ls") env ≡ found path)
      × FirstIn machine (codes "ls") path (split_list (codes "/a:/b")))
    ⊎ ((look_path machine (codes "ls") env ≡ failed not_in_path)
        × NoneIn machine (codes "ls") (split_list (codes "/a:/b")))
look_path_in_env_example = look_path_in_env machine (codes "ls") (codes "/a:/b") env bare in_env

machine-absurd :
    (name path : Runes)
    → machine.exec_look_path name ≡ some path
    → machine.is_executable path ≡ true
machine-absurd name path h = cc

ls_found : look_path machine (codes "ls") env ≡ found (codes "/b/ls")
unfolding look_path lookup_env cut_prefix first_executable contains_rune split_list join_two
ls_found = refl
