-- ===== src/Job/Tests.antt =====
-- A subprocess job that is started, signalled and ends, on a concrete machine.
use sh.Prelude.{
  ◌↔◌, ◌==◌, map, length, ℕ, ◌≤◌, ◌≡◌, refl, true, false, none, some, List, [], ◌∷◌, ◌++◌, Runes,
  codes, same, suc, if◌then◌else◌,
}
use sh.Prelude.Int.{negsuc}
use sh.PathResolve.{Machine, look_path}
use sh.Std.Strings.{contains_rune, fields, fields_from}
use sh.Job.State.{
  State, Job, terminal, is_pending, is_live, Kind, exited_zero, exit_error, launched,
  unknown_command,
}
use sh.Job.Buffer.{new_grow_buf, write, close, read, eof}
use sh.Job.Buffer.Reader.{Follow, History, writes, closes, reads, starts, answer, reader-exact}
use sh.Job.Buffer.Reader as Reader
use sh.Job.Control.{
  Host, set_argv, begin_start, launch, finish_from_exec, finish, settle, kill, send_signal,
  set_wanted, append_event, notify_finished, ctl_words, set_launched, after_spawn, after_look,
  start_subprocess, ctl,
}
use sh.Job.Steps.{
  System, argv_set, edits, begins, launches, exits, sends, sets, Reach, here, next, new_system,
  leaves_goroutine, alloc_job, IsSound, new_system-IsSound,
}
use sh.Job.Sound.{Reach-IsSound, wait_channel}
use sh.Job.Lost.{IsLost, sets-IsLost, lost_forever}
use sh.Job.Manager.{Manager, new_manager, alloc, get, list, update}
use sh.Job.Manager.Listing.{Reached, allocates, changes, one_to, list-one_to, alloc-list}
use sh.Job.Manager.Listing as Listing
use sh.Job.Commands.{ctl_error, ctl_ended, kill_then_exit}

abbrev machine : Machine
machine = record {
  is_executable = λ path. true;
  exec_look_path = λ name. none;
  getenv_path = [];
  read_dir = λ dir. none;
}

abbrev pub host : Host
host = record {
  machine = machine;
  now = 7;
  encode = λ st. [];
  spawn = λ path argv env cwd. launched 42;
  spawn_pty = λ path argv env cwd. launched 43;
  look_text = λ name e. name;
  deliver = λ sig. none;
  set_priority_of = λ n. none;
  resize_pty = λ rows cols. none;
  has_on_finish = true;
}

abbrev argv : List Runes
argv = codes "/bin/true" ∷ []

-- The systems of one run: the argv is set, the job starts and is launched, a signal to stop it is
-- delivered, the process exits.
abbrev fresh : System
fresh = new_system host 1 Kind.subprocess []

abbrev armed : System
armed = record fresh { job = (set_argv fresh.job argv).0 }

abbrev begun : System
begun = record armed { job = (begin_start host armed.job).0; starting = suc armed.starting }

abbrev up : System
up = record begun {
  job = launch host begun.job;
  starting = 0;
  waiting = if leaves_goroutine host begun.job then suc begun.waiting else begun.waiting;
}

abbrev signalled : System
signalled = record up { in_flight = State.stopped ∷ up.in_flight }

abbrev ended : System
ended = record signalled { job = finish_from_exec host signalled.job exited_zero; waiting = 0 }

run : Reach fresh ended
unfolding leaves_goroutine alloc_job append_event set_argv begin_start launch start_subprocess
    look_path contains_rune after_look after_spawn set_launched send_signal
run =
    next
      (next
        (next (next (next here (edits (argv_set argv))) (begins host refl)) (launches host 0 refl))
        (sends host 19 State.stopped refl refl))
      (exits host exited_zero 0 refl)

fresh-IsSound : IsSound fresh
fresh-IsSound = new_system-IsSound host 1 Kind.subprocess []

ended_over : terminal ended.job.state ≡ true
unfolding leaves_goroutine alloc_job append_event set_argv begin_start launch terminal
    start_subprocess look_path contains_rune after_look after_spawn set_launched finish_from_exec
    finish settle notify_finished
ended_over = refl

wait_channel_example :
    (ended.job.wait_closes ≤ 1)
    × (terminal ended.job.state ≡ true → ended.job.wait_closes ≡ 1)
    × (is_pending ended.job.state ≡ false
        → ended.starting ≡ 0
        → ended.waiting ≡ 0
        → ended.job.wait_closes ≡ 1)
wait_channel_example = wait_channel host 1 Kind.subprocess [] run

-- the process has exited when the goroutine of the signal goes on
abbrev lost : System
lost = record ended {
  job = set_wanted host ended.job (some State.stopped);
  in_flight = [] ++ up.in_flight;
}

sets-IsLost_example : IsLost lost
sets-IsLost_example =
    sets-IsLost host ended [] up.in_flight State.stopped (Reach-IsSound run fresh-IsSound)
      ended_over refl

lost-IsSound : IsSound lost
lost-IsSound = Reach-IsSound (next run (sets host [] up.in_flight State.stopped refl)) fresh-IsSound

lost_runs : IsLost lost
lost_runs =
    sets-IsLost host ended [] up.in_flight State.stopped (Reach-IsSound run fresh-IsSound)
      ended_over refl

lost_forever_example : (terminal lost.job.state ≡ false) × (lost.job.wait_closes ≡ 1)
lost_forever_example = lost_forever lost-IsSound lost_runs here

unknown_of : (ctl host fresh.job (codes "halt")).1 ≡ some (unknown_command (codes "halt"))
unfolding ctl ctl_words fields fields_from same
unknown_of = refl

ctl_error_example : (ctl host fresh.job (codes "halt")).0 ≡ fresh.job
ctl_error_example =
    ctl_error host fresh.job (codes "halt") (unknown_command (codes "halt")) unknown_of

ctl_ended_example :
    ((ctl host ended.job (codes "kill")).0.state ≡ ended.job.state)
    × ((ctl host ended.job (codes "kill")).0.wait_closes ≡ ended.job.wait_closes)
ctl_ended_example = ctl_ended host ended.job (codes "kill") ended_over

up_runs : is_live up.job.state ≡ true
unfolding leaves_goroutine alloc_job append_event set_argv begin_start launch start_subprocess
    look_path contains_rune after_look after_spawn set_launched
up_runs = refl

kill_then_exit_example :
    ((kill host up.job).1 ≡ none)
    × ((kill host up.job).0.state ≡ up.job.state)
    × ((finish_from_exec host (kill host up.job).0 (exit_error (negsuc 0) (codes "killed"))).state
        ≡ State.killed)
    × ((finish_from_exec host
          (kill host up.job).0
          (exit_error (negsuc 0) (codes "killed"))).exit_code
        ≡ some (negsuc 0))
    × ((finish_from_exec host
          (kill host up.job).0
          (exit_error (negsuc 0) (codes "killed"))).last_signal
        ≡ codes "killed")
    × ((finish_from_exec host
          (kill host up.job).0
          (exit_error (negsuc 0) (codes "killed"))).wait_closes
        ≡ suc up.job.wait_closes)
kill_then_exit_example = kill_then_exit host host up.job (negsuc 0) (codes "killed") up_runs

-- A writer, a reader of two bytes, and a `Close`.
abbrev followed : Follow
followed = record { buf = close (write new_grow_buf (1 ∷ 2 ∷ 3 ∷ [])).0; got = 1 ∷ 2 ∷ [] }

history : History followed
unfolding write close read
history =
    Reader.next
      (Reader.next (Reader.next starts (writes (1 ∷ 2 ∷ 3 ∷ []))) (reads false 2 (1 ∷ 2 ∷ []) refl))
      closes

reader-exact_example :
    (rest : List ℕ) × (followed.buf.bytes ≡ followed.got ++ rest)
    × (read followed.buf false (length followed.got) 2 ≡ answer rest followed.buf.closed false 2)
    × (read followed.buf false (length followed.got) 2 ≡ eof
        ↔ (followed.buf.closed ≡ true) × (followed.got ≡ followed.buf.bytes))
reader-exact_example = reader-exact false 2 history

-- A job that has been allocated and started.
abbrev one_job : Manager
one_job = (alloc host Kind.subprocess [] new_manager).0

abbrev jobs_of_run : Manager
jobs_of_run = record one_job { jobs = update one_job.jobs 1 begun.job }

begun_id : begun.job.id ≡ 1
unfolding alloc_job append_event set_argv begin_start
begun_id = refl

jobs_of_run-Reached : Reached jobs_of_run
jobs_of_run-Reached =
    changes 1 begun.job begun_id (allocates host Kind.subprocess [] Listing.starts)

list-one_to_example :
    (js : List Job) × (list jobs_of_run ≡ map some js)
    × (map (λ (j : Job). j.id) js ≡ one_to jobs_of_run.next_id)
list-one_to_example = list-one_to jobs_of_run-Reached

alloc-list_example :
    (get jobs_of_run (alloc host Kind.inproc [] jobs_of_run).1.id ≡ none)
    × ((x : ℕ)
        → get (alloc host Kind.inproc [] jobs_of_run).0 x ≡ (
            if x == (alloc host Kind.inproc [] jobs_of_run).1.id
            then some (alloc host Kind.inproc [] jobs_of_run).1
            else get jobs_of_run x))
    × (list (alloc host Kind.inproc [] jobs_of_run).0
        ≡ list jobs_of_run ++ some (alloc host Kind.inproc [] jobs_of_run).1 ∷ [])
alloc-list_example = alloc-list host Kind.inproc [] jobs_of_run-Reached
