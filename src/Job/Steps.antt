-- ===== src/Job/Steps.antt =====
-- One job of job/job.go under any interleaving: each step is one critical section of a method, or
-- one action of a goroutine, and every step may meet other answers of the operating system.
use sh.Prelude.{
  ℕ, suc, ◌+◌, ◌≡◌, Bool, true, false, Option, none, some, List, [], ◌∷◌, ◌++◌, Runes,
  if◌then◌else◌, arith,
}
use sh.PathResolve.{Look, found, failed, look_path}
use sh.Job.Buffer.{new_grow_buf}
use sh.Job.State.{
  State, terminal, is_pending, is_live, Kind, is_subprocess, Job, Signal, WaitResult, Launch,
  launched, launch_failed,
}
use sh.Job.Control.{
  Host, program, begin_start, launch, finish_from_exec, finish_inproc, kill, send_signal,
  set_wanted, detach, set_argv, set_env, set_cwd, set_pty, close_stdin, append_event,
}

-- `starting` counts the calls of `start` between their critical section and their return,
-- `waiting` the goroutines that will call `finish`, and `in_flight` holds the states that calls of
-- `signal` have still to set.
pub record System : Type 0 where
  pub job : Job
  pub starting : ℕ
  pub waiting : ℕ
  pub in_flight : List State

abbrev pub spawns : Launch → Bool
spawns (launched pid) = true
spawns (launch_failed text) = false

abbrev pub looks : Host → Job → Look → Bool
looks h j (failed e) = false
looks h j (found path) =
    spawns
      (if j.use_pty then h.spawn_pty path j.argv j.env j.cwd else h.spawn path j.argv j.env j.cwd)

-- Whether `launch` leaves a goroutine that waits for the job.
unfoldable pub leaves_goroutine : Host → Job → Bool
leaves_goroutine h j =
    if is_subprocess j.kind then looks h j (look_path h.machine (program j.argv) j.env) else true

-- The methods that have one critical section and end no job.
pub data Edit (j : Job) : Job → Type 0 where
  argv_set : (argv : List Runes) → Edit j (set_argv j argv).0
  env_set : (env : List Runes) → Edit j (set_env j env).0
  cwd_set : (cwd : Runes) → Edit j (set_cwd j cwd).0
  pty_set : Edit j (set_pty j).0
  stdin_closed : Edit j (close_stdin j)
  detached : (h : Host) → Edit j (detach h j)

pub data Step (s : System) : System → Type 0 where
  edits : {j : Job} → Edit s.job j → Step s (record s { job = j })
  begins :
      (h : Host)
      → (begin_start h s.job).1 ≡ none
      → Step s (record s { job = (begin_start h s.job).0; starting = suc s.starting })
  launches :
      (h : Host) (n : ℕ)
      → s.starting ≡ suc n
      → Step s (record s {
        job = launch h s.job;
        starting = n;
        waiting = if leaves_goroutine h s.job then suc s.waiting else s.waiting;
      })
  exits :
      (h : Host) (w : WaitResult) (n : ℕ)
      → s.waiting ≡ suc n
      → Step s (record s { job = finish_from_exec h s.job w; waiting = n })
  returns :
      (h : Host) (err : Option Runes) (n : ℕ)
      → s.waiting ≡ suc n
      → Step s (record s { job = finish_inproc h s.job err; waiting = n })
  kills : (h : Host) → Step s (record s { job = (kill h s.job).0 })
  sends :
      (h : Host) (sig : Signal) (want : State)
      → is_live want ≡ true
      → send_signal h s.job sig ≡ none
      → Step s (record s { in_flight = want ∷ s.in_flight })
  sets :
      (h : Host) (before after : List State) (want : State)
      → s.in_flight ≡ before ++ want ∷ after
      → Step s (record s { job = set_wanted h s.job (some want); in_flight = before ++ after })

pub data Reach (s : System) : System → Type 0 where
  here : Reach s s
  next : {t u : System} → Reach s t → Step t u → Reach s u

-- A job as `allocLocked` makes it.
unfoldable pub alloc_job : Host → ℕ → Kind → Runes → Job
alloc_job h id kind cwd = append_event h (record {
  id = id;
  kind = kind;
  state = State.pending;
  argv = [];
  env = [];
  pid = 0;
  exit_code = none;
  last_signal = [];
  err_msg = [];
  detached = false;
  killed = false;
  cwd = cwd;
  started_at = none;
  finished_at = none;
  use_pty = false;
  has_pty = false;
  has_stdin = true;
  stdout = new_grow_buf;
  stderr = new_grow_buf;
  events = new_grow_buf;
  wait_closes = 0;
  has_cancel = false;
  cancelled = false;
  has_proc = false;
  notices = [];
})

abbrev pub new_system : Host → ℕ → Kind → Runes → System
new_system h id kind cwd = record {
  job = alloc_job h id kind cwd;
  starting = 0;
  waiting = 0;
  in_flight = [];
}

-- Every state of a list is running or stopped.
abbrev pub AllLive : List State → Type 0
AllLive [] = Unit
AllLive (st ∷ sts) = (is_live st ≡ true) × AllLive sts

-- What holds of a job at every moment.
pub record IsSound (s : System) : Type 0 where
  -- before the start nothing has been left behind
  pub fresh :
      is_pending s.job.state ≡ true
      → (s.starting ≡ 0) × (s.waiting ≡ 0) × (s.job.wait_closes ≡ 0) × (s.in_flight ≡ [])
  -- afterwards exactly one of: a start under way, a goroutine that waits, a closed channel
  pub once : is_pending s.job.state ≡ false → s.starting + s.waiting + s.job.wait_closes ≡ 1
  pub closed : terminal s.job.state ≡ true → s.job.wait_closes ≡ 1
  pub live : AllLive s.in_flight

pub new_system-IsSound :
    (h : Host) (id : ℕ) (kind : Kind) (cwd : Runes) → IsSound (new_system h id kind cwd)
unfolding alloc_job append_event terminal
new_system-IsSound h id kind cwd = ground arith
