-- ===== src/Job/Control/Ending.antt =====
-- How a job of job/job.go ends: `finish` with the effects behind its critical section, and the callers
-- that wait for a process or a function. What the operating system answers is `Host`.
use sh.Prelude.{ℕ, suc, Bool, Option, none, some, List, [], ◌∷◌, ◌++◌, Runes, codes, if◌then◌else◌}
use sh.Prelude.Int.{ℤ, pos}
use sh.PathResolve.{Machine, LookError}
use sh.Job.Buffer.{write, close}
use sh.Job.State.{
  State, terminal, Status, Job, status, Signal, Err, system, WaitResult, exited_zero, exit_error,
  wait_failed, Launch,
}

pub record Host : Type 0 where
  pub machine : Machine
  pub now : ℕ
  -- `json.Marshal` of a status
  pub encode : Status → List ℕ
  -- `cmd.Start` and `pty.Start`, on the resolved path, argv, env and the directory
  pub spawn : Runes → List Runes → List Runes → Runes → Launch
  pub spawn_pty : Runes → List Runes → List Runes → Runes → Launch
  -- the text of an error of `pathresolve.LookPath` on a name
  pub look_text : Runes → LookError → Runes
  -- the operating system's answers, `none` for no error
  pub deliver : Signal → Option Runes
  pub set_priority_of : ℤ → Option Runes
  pub resize_pty : ℤ → ℤ → Option Runes
  -- whether the Manager has an OnFinish hook
  pub has_on_finish : Bool

abbrev pub to_err : Option Runes → Option Err
to_err none = none
to_err (some text) = some (system text)

-- the name to run, argv[0]
abbrev pub program : List Runes → Runes
program [] = []
program (w ∷ ws) = w

module _ (h : Host) where
  unfoldable pub append_event : Job → Job
  unfolding write
  append_event j = record j { events = (write j.events (h.encode (status j) ++ codes "\n")).0 }

  unfoldable pub notify_finished : Job → Job
  notify_finished j =
      if h.has_on_finish then record j { notices = j.notices ++ status j ∷ [] } else j

  -- What `finish` and the pending branch of `kill` do once the state is terminal.
  unfoldable pub settle : Job → Job
  unfolding append_event notify_finished close
  settle j =
      let told = append_event (record j { wait_closes = suc j.wait_closes }) in
      notify_finished (record told {
        stdout = close told.stdout;
        stderr = close told.stderr;
        events = close told.events;
      })

  unfoldable pub finish : Job → State → Option ℤ → Runes → Runes → Job
  unfolding settle terminal
  finish j state exit_code signal err_msg =
      if terminal j.state
      then j
      else settle (record j {
        state = state;
        exit_code = exit_code;
        last_signal = signal;
        err_msg = err_msg;
        finished_at = some h.now;
      })

  -- `finishFromExec`
  unfoldable pub finish_from_exec : Job → WaitResult → Job
  unfolding finish
  finish_from_exec j exited_zero = finish j State.done (some (pos 0)) [] []
  finish_from_exec j (exit_error code sig) =
      finish j (if j.killed then State.killed else State.done) (some code) sig []
  finish_from_exec j (wait_failed text) = finish j State.failed none [] text

  -- What the goroutine of an inproc job does when its function returns.
  unfoldable pub finish_inproc : Job → Option Runes → Job
  unfolding finish
  finish_inproc j (some text) = finish j State.failed none [] text
  finish_inproc j none = finish j State.done (some (pos 0)) [] []
