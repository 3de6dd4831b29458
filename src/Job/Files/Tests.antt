-- ===== src/Job/Files/Tests.antt =====
-- The files of one job that has been allocated.
use sh.Prelude.{◌≡◌, refl, true, false, none, some, List, [], ◌∷◌, ◌++◌, Runes, codes, arith}
use sh.Std.Strings.{join, contains_rune}
use sh.Job.State.{Kind, Job, is_pending}
use sh.Job.Control.{append_event}
use sh.Job.Steps.{alloc_job}
use sh.Job.Manager.{Manager, new_manager, alloc}
use sh.Job.Files.{Leaf, leaf, serve, utf8, rune_bytes, write_leaf, read_leaf}
use sh.Job.Files.Qids.{file_of, qid_path-file_of}
use sh.Job.Files.Argv.{IsLines, write_leaf-argv}
use sh.Job.Tests.{host}

abbrev job : Job
job = alloc_job host 1 Kind.subprocess []

abbrev args : List Runes
args = codes "ls" ∷ [] ∷ codes "/a b" ∷ []

job_pending : is_pending job.state ≡ true
unfolding alloc_job append_event
job_pending = refl

args-IsLines : IsLines args
unfolding contains_rune
args-IsLines = (refl, (refl, (refl, refl)))

write_leaf-argv_example :
    (write_leaf host job Leaf.argv_file (join b'\n' args) ≡ some (record job { argv = args }, none))
    × (write_leaf host job Leaf.argv_file (join b'\n' args ++ b'\n' ∷ [])
        ≡ some (record job { argv = args }, none))
    × (write_leaf host job Leaf.env_file (join b'\n' args) ≡ some (record job { env = args }, none))
    × (read_leaf host (record job { argv = args }) Leaf.argv_file false 3 8
        ≡ some (serve (utf8 (join b'\n' args)) 3 8))
write_leaf-argv_example = write_leaf-argv host job args false 3 8 job_pending args-IsLines

qid_path-file_of_example : file_of (leaf 3 Leaf.env_file) ≡ file_of (leaf 3 Leaf.env_file)
qid_path-file_of_example =
    qid_path-file_of (leaf 3 Leaf.env_file) (leaf 3 Leaf.env_file) (omega arith) (omega arith) refl

abbrev manager : Manager
manager = (alloc host Kind.subprocess [] new_manager).0

-- `aé€` and a letter outside of the first plane
four_lengths :
    utf8 (97 ∷ 233 ∷ 8364 ∷ 66560 ∷ [])
    ≡ 97 ∷ 195 ∷ 169 ∷ 226 ∷ 130 ∷ 172 ∷ 240 ∷ 144 ∷ 144 ∷ 128 ∷ []
unfolding utf8 rune_bytes
four_lengths = refl
