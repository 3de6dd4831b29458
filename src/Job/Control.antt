-- ===== src/Job/Control.antt =====
-- The methods of `Job` in job/job.go, each with its effects in the order of the code. What the
-- operating system answers is `Host`. The goroutines that `start` leaves behind, and the calls of
-- other goroutines between two critical sections of one method, are the steps of Job/Steps.antt.
mod Ending
unfoldable pub use Ending.*
use sh.Prelude.{
  ℕ, suc, Bool, true, false, not, ◌&&◌, ◌||◌, Option, none, some, List, [], ◌∷◌, ◌++◌, Runes, codes,
  map, same, if◌then◌else◌,
}
use sh.Prelude.Int.{ℤ, pos}
use sh.PathResolve.{Machine, Look, LookError, found, failed, look_path}
use sh.Std.Strings.{fields, upper_rune, atoi}
use sh.Job.Buffer.{write, close}
use sh.Job.State.{
  State, terminal, is_pending, is_live, is_subprocess, Status, Job, status, Signal, Err, already,
  not_running, empty_argv, empty_command, not_for_inproc, not_started, no_pty, no_pty_yet,
  unknown_command, unknown_signal, wrong_arguments, bad_number, system, WaitResult, exited_zero,
  exit_error, wait_failed, Launch, launched, launch_failed,
}

module _ (h : Host) where
  unfoldable pub set_launched : Job → ℕ → Bool → Job
  set_launched j pid on_pty =
      append_event h (record j { pid = pid; has_proc = true; has_pty = on_pty || j.has_pty })

  unfoldable pub after_spawn : Job → Bool → Launch → Job
  after_spawn j on_pty (launched pid) = set_launched j pid on_pty
  after_spawn j on_pty (launch_failed text) = finish h j State.failed none [] text

  unfoldable pub after_look : Job → Bool → Look → Job
  after_look j on_pty (failed e) = finish h j State.failed none [] (h.look_text (program j.argv) e)
  after_look j on_pty (found path) =
      after_spawn j on_pty
        (if on_pty then h.spawn_pty path j.argv j.env j.cwd else h.spawn path j.argv j.env j.cwd)

  -- `startSubprocess`, and `startSubprocessPty` on a pty: a failure is job status, and no error.
  unfoldable pub start_subprocess : Job → Bool → Job
  unfolding finish append_event set_launched after_spawn after_look
  start_subprocess j on_pty = after_look j on_pty (look_path h.machine (program j.argv) j.env)

  abbrev is_empty : List Runes → Bool
  is_empty [] = true
  is_empty (w ∷ ws) = false

  -- The critical section of `start`, and the event behind it.
  unfoldable pub begin_start : Job → Job × Option Err
  unfolding append_event
  begin_start j =
      if not (is_pending j.state)
      then (j, some (already j.state))
      else if is_subprocess j.kind && is_empty j.argv
      then (j, some empty_argv)
      else (
        append_event h
            (record j { has_cancel = true; state = State.running; started_at = some h.now }),
        none,
      )

  -- What `start` does behind that: an inproc job's function is left to a goroutine.
  unfoldable pub launch : Job → Job
  unfolding start_subprocess
  launch j = if is_subprocess j.kind then start_subprocess j j.use_pty else j

  unfoldable pub start : Job → Job × Option Err
  unfolding begin_start launch
  start j =
      let (j', e) = begin_start j in elim e [ some err ↦ (j', some err) | none ↦ (launch j', none) ]

  unfoldable pub kill : Job → Job × Option Err
  unfolding settle terminal
  kill j =
      if terminal j.state
      then (j, some (already j.state))
      else if is_pending j.state
      then (settle h (record j { state = State.killed; finished_at = some h.now }), none)
      else (record j { killed = true; cancelled = j.has_cancel || j.cancelled }, none)

  -- The first critical section of `signal`, and the delivery.
  unfoldable pub send_signal : Job → Signal → Option Err
  send_signal j sig =
      if not (is_subprocess j.kind)
      then some not_for_inproc
      else if not (is_live j.state)
      then some (not_running j.state)
      else if j.has_pty || j.has_proc
      then to_err (h.deliver sig)
      else some not_started

  -- Its second critical section, which does not look at the state again.
  unfoldable pub set_wanted : Job → Option State → Job
  unfolding append_event
  set_wanted j none = j
  set_wanted j (some want) = append_event h (record j { state = want })

  unfoldable pub signal : Job → Signal → Option State → Job × Option Err
  unfolding send_signal set_wanted
  signal j sig want = elim (send_signal j sig) [
    | some err ↦ (j, some err)
    | none ↦ (set_wanted j want, none)
  ]

  unfoldable pub set_priority : Job → ℤ → Option Err
  set_priority j n =
      if not (is_subprocess j.kind)
      then some not_for_inproc
      else if not (is_live j.state)
      then some (not_running j.state)
      else to_err (h.set_priority_of n)

  unfoldable pub resize : Job → ℤ → ℤ → Option Err
  resize j rows cols =
      if not j.use_pty
      then some no_pty
      else if not j.has_pty
      then some no_pty_yet
      else to_err (h.resize_pty rows cols)

  unfoldable pub detach : Job → Job
  unfolding append_event
  detach j = append_event h (record j { detached = true })

abbrev pub when_pending : Job → Job → Job × Option Err
when_pending j j' = if not (is_pending j.state) then (j, some (already j.state)) else (j', none)

unfoldable pub set_argv : Job → List Runes → Job × Option Err
set_argv j argv = when_pending j (record j { argv = argv })

unfoldable pub set_env : Job → List Runes → Job × Option Err
set_env j env = when_pending j (record j { env = env })

unfoldable pub set_cwd : Job → Runes → Job × Option Err
set_cwd j cwd = when_pending j (record j { cwd = cwd })

unfoldable pub set_pty : Job → Job × Option Err
set_pty j =
    if not (is_pending j.state)
    then (j, some (already j.state))
    else if not (is_subprocess j.kind)
    then (j, some not_for_inproc)
    else (record j { use_pty = true }, none)

unfoldable pub close_stdin : Job → Job
close_stdin j = if j.has_pty then j else record j { has_stdin = false }

-- `signalByName`, with Linux's numbers
abbrev pub signal_table : List (Runes × Signal)
signal_table =
    (codes "TERM", 15)
    ∷ (codes "INT", 2)
    ∷ (codes "HUP", 1)
    ∷ (codes "KILL", 9)
    ∷ (codes "STOP", 19)
    ∷ (codes "CONT", 18)
    ∷ (codes "USR1", 10)
    ∷ (codes "USR2", 12)
    ∷ (codes "QUIT", 3)
    ∷ []

unfoldable pub find_signal : List (Runes × Signal) → Runes → Option Signal
unfolding same
find_signal [] name = none
find_signal ((n, sig) ∷ rest) name = if same n name then some sig else find_signal rest name

module _ (h : Host) where
  abbrev with_job : Job → Option Err → Job × Option Err
  with_job j e = (j, e)

  unfoldable pub ctl_signal : Job → List Runes → Job × Option Err
  unfolding find_signal upper_rune signal
  ctl_signal j (name ∷ []) = elim (find_signal signal_table (map upper_rune name)) [
    | none ↦ (j, some (unknown_signal name))
    | some sig ↦ signal h j sig none
  ]
  ctl_signal j _ = (j, some wrong_arguments)

  unfoldable pub ctl_priority : Job → List Runes → Job × Option Err
  unfolding atoi set_priority
  ctl_priority j (n ∷ []) = elim (atoi n) [
    | none ↦ (j, some bad_number)
    | some p ↦ (j, set_priority h j p)
  ]
  ctl_priority j _ = (j, some wrong_arguments)

  unfoldable pub ctl_resize : Job → List Runes → Job × Option Err
  unfolding atoi resize
  ctl_resize j (rows ∷ cols ∷ []) = elim (atoi rows) [
    | none ↦ (j, some bad_number)
    | some r ↦ elim (atoi cols) [ none ↦ (j, some bad_number) | some c ↦ (j, resize h j r c) ]
  ]
  ctl_resize j _ = (j, some wrong_arguments)

  -- The `switch` of `Ctl` on the words of a command.
  unfoldable pub ctl_words : Job → List Runes → Job × Option Err
  ctl_words j [] = (j, some empty_command)
  ctl_words j (verb ∷ args) =
      if same verb (codes "start")
      then start h j
      else if same verb (codes "stop")
      then signal h j 19 (some State.stopped)
      else if same verb (codes "resume")
      then signal h j 18 (some State.running)
      else if same verb (codes "kill")
      then kill h j
      else if same verb (codes "signal")
      then ctl_signal j args
      else if same verb (codes "priority")
      then ctl_priority j args
      else if same verb (codes "pty")
      then set_pty j
      else if same verb (codes "resize")
      then ctl_resize j args
      else if same verb (codes "detach")
      then (detach h j, none)
      else (j, some (unknown_command verb))

  -- `Ctl`
  unfoldable pub ctl : Job → Runes → Job × Option Err
  unfolding ctl_words fields
  ctl j cmd = ctl_words j (fields cmd)
