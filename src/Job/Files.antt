-- ===== src/Job/Files.antt =====
-- The file tree of job/fs.go, over the Manager: walks, qids, and the configuration files. What a client
-- writes is the code points of its text; what it reads is the bytes of the text in UTF-8. `server.MarshalDir` and the fixed errors of the directories are not
-- modelled.
pub mod Qids
pub mod Argv
mod Tests
use sh.Prelude.{
  ℕ, ◌+◌, ◌*◌, ◌%◌, ◌^◌, Bool, Option, none, some, List, [], ◌∷◌, ◌++◌, Runes, codes, length, take,
  drop, ltb, leb, ◌/◌, same, ◌==◌, if◌then◌else◌,
}
use sh.Prelude.Int.{ℤ, pos, negsuc}
use sh.Std.Strings.{atoi, join, split, trim_right, trim_space}
use sh.Job.State.{Kind, Job, Err, status}
use sh.Job.Buffer.{ReadResult, copied, eof, read}
use sh.Job.Control.{Host, ctl, set_argv, set_env, set_cwd}
use sh.Job.Manager.{Manager, get, alloc}

-- `childNames`
pub data Leaf : Type 0 where
  ctl_file status_file events_file wait_file argv_file env_file stdin_file stdout_file stderr_file
        cwd_file :
      Leaf

unfoldable pub leaf_name : Leaf → Runes
leaf_name Leaf.ctl_file = codes "ctl"
leaf_name Leaf.status_file = codes "status"
leaf_name Leaf.events_file = codes "events"
leaf_name Leaf.wait_file = codes "wait"
leaf_name Leaf.argv_file = codes "argv"
leaf_name Leaf.env_file = codes "env"
leaf_name Leaf.stdin_file = codes "stdin"
leaf_name Leaf.stdout_file = codes "stdout"
leaf_name Leaf.stderr_file = codes "stderr"
leaf_name Leaf.cwd_file = codes "cwd"

-- `fileOffset`
unfoldable pub file_offset : Leaf → ℕ
file_offset Leaf.ctl_file = 1
file_offset Leaf.status_file = 2
file_offset Leaf.events_file = 3
file_offset Leaf.wait_file = 4
file_offset Leaf.argv_file = 5
file_offset Leaf.env_file = 6
file_offset Leaf.stdin_file = 7
file_offset Leaf.stdout_file = 8
file_offset Leaf.stderr_file = 9
file_offset Leaf.cwd_file = 10

abbrev pub child_names : List Leaf
child_names =
    Leaf.ctl_file ∷ Leaf.status_file ∷ Leaf.events_file ∷ Leaf.wait_file ∷ Leaf.argv_file
    ∷ Leaf.env_file ∷ Leaf.stdin_file ∷ Leaf.stdout_file ∷ Leaf.stderr_file ∷ Leaf.cwd_file ∷ []

-- A file of the tree: rootFile, cloneFile with the id of its job (0 before it is opened), jobDirFile,
-- and the files of a job.
pub data Node : Type 0 where
  root : Node
  clone : ℕ → Node
  job_dir : ℕ → Node
  leaf : ℕ → Leaf → Node

-- `qidJobBase + uint64(id)*20`
unfoldable pub job_dir_path : ℕ → ℕ
job_dir_path id = (1000 + id * 20) % 2 ^ 64

-- `Qid().Path`
unfoldable pub qid_path : Node → ℕ
unfolding job_dir_path
qid_path root = 0
qid_path (clone id) = 1
qid_path (job_dir id) = job_dir_path id
qid_path (leaf id l) = (job_dir_path id + file_offset l) % 2 ^ 64

-- `fileOffset[name]`, by the list of the names
unfoldable pub find_leaf : List Leaf → Runes → Option Leaf
find_leaf [] name = none
find_leaf (l ∷ ls) name =
    let rest = find_leaf ls name in if same name (leaf_name l) then some l else rest

abbrev pub dir_of : ℕ → Option Job → Option Node
dir_of id none = none
dir_of id (some j) = some (job_dir id)

-- `Atoi`, and the job's directory if there is a job; no job has a negative id
abbrev pub walk_id : Manager → Option ℤ → Option Node
walk_id m none = none
walk_id m (some (pos id)) = dir_of id (get m id)
walk_id m (some (negsuc n)) = none

abbrev pub leaf_of : ℕ → Option Leaf → Option Job → Option Node
leaf_of id none j = none
leaf_of id (some l) none = none
leaf_of id (some l) (some j) = some (leaf id l)

-- `Walk`; `none` is its error
unfoldable pub walk : Manager → Node → Runes → Option Node
unfolding find_leaf
walk m root name =
    if same name (codes "..")
    then some root
    else if same name (codes "clone")
    then some (clone 0)
    else walk_id m (atoi name)
walk m (clone id) name = none
walk m (job_dir id) name =
    if same name (codes "..") then some root else leaf_of id (find_leaf child_names name) (get m id)
walk m (leaf id l) name = none

-- `Open` of the clone file
unfoldable pub open_clone : Host → Runes → Manager → Manager × Node
unfolding alloc
open_clone h cwd m = let (m', j) = alloc h Kind.subprocess cwd m in (m', clone j.id)

abbrev pub is_newline : ℕ → Bool
is_newline r = r == b'\n'

abbrev pub lines_of : Runes → List Runes
lines_of [] = []
lines_of (r ∷ rs) = split b'\n' (r ∷ rs)

-- `splitNonEmptyLines`
unfoldable pub split_lines : Runes → List Runes
unfolding split
split_lines p = lines_of (trim_right is_newline p)

-- A write to a configuration file, whatever its offset; `none` is a file that does not take one this way.
unfoldable pub write_leaf : Host → Job → Leaf → Runes → Option (Job × Option Err)
unfolding set_argv set_env set_cwd split_lines
write_leaf h j Leaf.ctl_file p = some (ctl h j (trim_space p))
write_leaf h j Leaf.argv_file p = some (set_argv j (split_lines p))
write_leaf h j Leaf.env_file p = some (set_env j (split_lines p))
write_leaf h j Leaf.cwd_file p = some (set_cwd j (trim_space p))
write_leaf h j _ p = none

-- The bytes of one code point and of a string, in UTF-8.
unfoldable pub rune_bytes : ℕ → List ℕ
rune_bytes r =
    if ltb r 128
    then r ∷ []
    else if ltb r 2048
    then (192 + r / 64) ∷ (128 + r % 64) ∷ []
    else if ltb r 65536
    then (224 + r / 4096) ∷ (128 + r / 64 % 64) ∷ (128 + r % 64) ∷ []
    else (240 + r / 262144) ∷ (128 + r / 4096 % 64) ∷ (128 + r / 64 % 64) ∷ (128 + r % 64) ∷ []

unfoldable pub utf8 : Runes → List ℕ
utf8 [] = []
utf8 (r ∷ rs) = rune_bytes r ++ utf8 rs

-- The bytes from an offset on, as the `Read`s of the small files serve them.
abbrev pub serve : List ℕ → ℕ → ℕ → ReadResult
serve bytes offset size =
    if leb (length bytes) offset then eof else copied (take size (drop offset bytes))

-- `Read`; `none` is a file that cannot be read, or a wait
unfoldable pub read_leaf : Host → Job → Leaf → Bool → ℕ → ℕ → Option ReadResult
unfolding join utf8
read_leaf h j Leaf.status_file done offset size =
    some (serve (utf8 (h.encode (status j) ++ b'\n' ∷ [])) offset size)
read_leaf h j Leaf.argv_file done offset size = some (serve (utf8 (join b'\n' j.argv)) offset size)
read_leaf h j Leaf.env_file done offset size = some (serve (utf8 (join b'\n' j.env)) offset size)
read_leaf h j Leaf.cwd_file done offset size = some (serve (utf8 j.cwd) offset size)
read_leaf h j Leaf.events_file done offset size = some (read j.events done offset size)
read_leaf h j Leaf.stdout_file done offset size = some (read j.stdout done offset size)
read_leaf h j Leaf.stderr_file done offset size = some (read j.stderr done offset size)
read_leaf h j _ done offset size = none
