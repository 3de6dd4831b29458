-- ===== src/Job/State.antt =====
-- The data of job/job.go. A method returns the new job; an error that it returns is a value of `Err`.
use sh.Prelude.{ℕ, Bool, true, false, Option, List, Runes}
use sh.Prelude.Int.{ℤ}
use sh.Job.Buffer.{GrowBuf}

-- type State
pub data State : Type 0 where
  pending running stopped done failed killed : State

unfoldable pub terminal : State → Bool
terminal done = true
terminal failed = true
terminal killed = true
terminal _ = false

abbrev pub is_pending : State → Bool
is_pending pending = true
is_pending _ = false

-- `state == StateRunning || state == StateStopped`
abbrev pub is_live : State → Bool
is_live running = true
is_live stopped = true
is_live _ = false

-- type Kind
pub data Kind : Type 0 where
  subprocess inproc : Kind

abbrev pub is_subprocess : Kind → Bool
is_subprocess subprocess = true
is_subprocess inproc = false

-- A time stamp; the zero time is `none`.
abbrev pub Time : Type 0
Time = Option ℕ

pub record Status : Type 0 where
  pub id : ℕ
  pub kind : Kind
  pub state : State
  pub argv : List Runes
  pub pid : ℕ
  pub exit_code : Option ℤ
  pub signal : Runes
  pub err : Runes
  pub detached : Bool
  pub pty : Bool
  pub cwd : Runes
  pub started_at : Time
  pub finished_at : Time

-- `proc`, `ptyMaster`, `cancel` and `stdinW` are kept as whether they are nil. `wait_closes` counts
-- the calls of `close(j.waitCh)`: Go panics at the second one. `notices` are the calls of the
-- Manager's OnFinish hook that `notifyFinished` has made.
pub record Job : Type 0 where
  pub id : ℕ
  pub kind : Kind
  pub state : State
  pub argv : List Runes
  pub env : List Runes
  pub pid : ℕ
  pub exit_code : Option ℤ
  pub last_signal : Runes
  pub err_msg : Runes
  pub detached : Bool
  pub killed : Bool
  pub cwd : Runes
  pub started_at : Time
  pub finished_at : Time
  pub use_pty : Bool
  pub has_pty : Bool
  pub has_stdin : Bool
  pub stdout : GrowBuf
  pub stderr : GrowBuf
  pub events : GrowBuf
  pub wait_closes : ℕ
  pub has_cancel : Bool
  pub cancelled : Bool
  pub has_proc : Bool
  pub notices : List Status

-- `Status`
abbrev pub status : Job → Status
status j = record {
  id = j.id;
  kind = j.kind;
  state = j.state;
  argv = j.argv;
  pid = j.pid;
  exit_code = j.exit_code;
  signal = j.last_signal;
  err = j.err_msg;
  detached = j.detached;
  pty = j.use_pty;
  cwd = j.cwd;
  started_at = j.started_at;
  finished_at = j.finished_at;
}

-- syscall.Signal, by the numbers of Linux
abbrev pub Signal : Type 0
Signal = ℕ

-- The errors that the methods return, without the texts that they are formatted into.
pub data Err : Type 0 where
  already : State → Err  -- cannot set, start or kill: already in a state
  not_running : State → Err
  empty_argv empty_command not_for_inproc not_started stdin_closed no_pty no_pty_yet : Err
  unknown_command unknown_signal : Runes → Err
  wrong_arguments bad_number : Err
  system : Runes → Err  -- an error of the operating system

-- How `exec.Cmd.Wait` ended: no error, an exit error with its code and signal, or another error.
pub data WaitResult : Type 0 where
  exited_zero : WaitResult
  exit_error : ℤ → Runes → WaitResult
  wait_failed : Runes → WaitResult

-- What `exec.Cmd.Start` or `pty.Start` answers.
pub data Launch : Type 0 where
  launched : ℕ → Launch
  launch_failed : Runes → Launch
