-- ===== src/Job/Manager.antt =====
-- `Manager` of job/job.go. Its map from ids to pointers is an association list from ids to jobs; a
-- method of a job puts the new job in the place of the old one. A call holds the mutex.
pub mod Listing
use sh.Prelude.{
  ℕ, suc, Bool, Option, none, some, List, [], ◌∷◌, Runes, leb, ◌==◌, if◌then◌else◌, true, false,
  map,
}
use sh.Job.State.{Kind, Job}
use sh.Job.Control.{Host}
use sh.Job.Steps.{alloc_job}

abbrev pub Jobs : Type 0
Jobs = List (ℕ × Job)

pub record Manager : Type 0 where
  pub next_id : ℕ
  pub jobs : Jobs
  -- whether `OnFinish` has set a hook
  pub on_finish : Bool

-- `NewManager`
abbrev pub new_manager : Manager
new_manager = record { next_id = 0; jobs = []; on_finish = false }

-- `m.jobs[id]`, where `none` is nil
unfoldable pub find_job : Jobs → ℕ → Option Job
find_job [] id = none
find_job ((k, j) ∷ jobs) id = let rest = find_job jobs id in if id == k then some j else rest

-- `OnFinish`
unfoldable pub set_on_finish : Manager → Manager
set_on_finish m = record m { on_finish = true }

-- `allocLocked`; `cwd` is `os.Getwd`.
unfoldable pub alloc : Host → Kind → Runes → Manager → Manager × Job
alloc h kind cwd m =
    let id = suc m.next_id in
    let j = alloc_job h id kind cwd in (record m { next_id = id; jobs = (id, j) ∷ m.jobs }, j)

-- `Get`
unfoldable pub get : Manager → ℕ → Option Job
unfolding find_job
get m id = find_job m.jobs id

-- `sort.Ints`
unfoldable pub insert_int : ℕ → List ℕ → List ℕ
insert_int x [] = x ∷ []
insert_int x (y ∷ ys) = let rest = insert_int x ys in if leb x y then x ∷ y ∷ ys else y ∷ rest

unfoldable pub sort_ints : List ℕ → List ℕ
unfolding insert_int
sort_ints [] = []
sort_ints (x ∷ xs) = insert_int x (sort_ints xs)

abbrev pub ids : Jobs → List ℕ
ids [] = []
ids ((k, j) ∷ jobs) = k ∷ ids jobs

-- `List`
unfoldable pub list : Manager → List (Option Job)
unfolding sort_ints find_job
list m = map (find_job m.jobs) (sort_ints (ids m.jobs))

-- What a method does to the job behind a pointer.
unfoldable pub update : Jobs → ℕ → Job → Jobs
update [] id j' = []
update ((k, j) ∷ jobs) id j' =
    let rest = update jobs id j' in if id == k then (k, j') ∷ jobs else (k, j) ∷ rest
