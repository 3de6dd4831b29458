-- ===== src/Job/Effects.antt =====
-- What each method of job/job.go does to the state of its job and to the channel of its waiters.
use sh.Prelude.{
  ℕ, suc, ◌≡◌, refl, ◌⊎◌, inl, inr, Bool, true, false, Option, none, some, [], Runes, if◌then◌else◌,
  arith, Bool-cases,
}
use sh.Prelude.Int.{ℤ}
use sh.PathResolve.{Look, found, failed, look_path}
use sh.Job.State.{
  State, terminal, is_pending, is_subprocess, Job, WaitResult, exited_zero, exit_error, wait_failed,
  Launch, launched, launch_failed,
}
use sh.Job.Control.{
  Host, program, append_event, settle, finish, begin_start, start_subprocess, launch, set_launched,
  after_spawn, after_look, finish_from_exec, finish_inproc, kill, set_wanted, detach, set_argv,
  set_env, set_cwd, set_pty, close_stdin,
}
use sh.Job.Steps.{
  Edit, argv_set, env_set, cwd_set, pty_set, stdin_closed, detached, spawns, looks,
  leaves_goroutine,
}

-- Neither the state nor the channel changes.
pub record Same (j j' : Job) : Type 0 where
  pub state : j'.state ≡ j.state
  pub closes : j'.wait_closes ≡ j.wait_closes

-- The job ends in the state `st`, and its channel is closed once more.
pub record Ends (st : State) (j j' : Job) : Type 0 where
  pub state : j'.state ≡ st
  pub closes : j'.wait_closes ≡ suc j.wait_closes

settle-Ends : (h : Host) (j : Job) → Ends j.state j (settle h j)
unfolding settle
settle-Ends h j = ground arith

pub settle-exit :
    (h : Host) (j : Job)
    → ((settle h j).exit_code ≡ j.exit_code) × ((settle h j).last_signal ≡ j.last_signal)
unfolding settle
settle-exit h j = ground arith

pub finish-Ends :
    (h : Host) (j : Job) (st : State) (code : Option ℤ) (sig msg : Runes)
    → terminal j.state ≡ false
    → Ends st j (finish h j st code sig msg)
finish-Ends h j st code sig msg e = unfold finish in rw e (ended (settle-Ends h _))
  where
    ended :
        {j' : Job}
        → Ends st
            (record j {
              state = st;
              exit_code = code;
              last_signal = sig;
              err_msg = msg;
              finished_at = some h.now;
            })
            j'
        → Ends st j j'
    ended e = record { state = e.state; closes = e.closes }

pub Edit-Same : {j j' : Job} → Edit j j' → Same j j'
unfolding set_argv set_env set_cwd set_pty close_stdin detach
Edit-Same (argv_set argv) = ground arith
Edit-Same (env_set env) = ground arith
Edit-Same (cwd_set cwd) = ground arith
Edit-Same pty_set = ground arith
Edit-Same stdin_closed = ground arith
Edit-Same (detached h) = ground arith

pub kill-cases :
    (h : Host) (j : Job)
    → Same j (kill h j).0 ⊎ ((is_pending j.state ≡ true) × Ends State.killed j (kill h j).0)
kill-cases h j = elim (Bool-cases (terminal j.state)) [
  | inl over ↦ inl (unfold kill in rw over (record { state = refl; closes = refl }))
  | inr on ↦ elim (Bool-cases (is_pending j.state)) [
    | inl waits ↦
        let e = settle-Ends h (record j { state = State.killed; finished_at = some h.now }) in
        inr (waits, unfold kill in rw (on, waits) (record { state = e.state; closes = e.closes }))
    | inr runs ↦ inl (unfold kill in rw (on, runs) (record { state = refl; closes = refl }))
  ]
]

pub begin_start-state :
    (h : Host) (j : Job)
    → (begin_start h j).1 ≡ none
    → (is_pending j.state ≡ true)
      × ((begin_start h j).0.state ≡ State.running)
      × ((begin_start h j).0.wait_closes ≡ j.wait_closes)
unfolding begin_start
begin_start-state h j e = ground arith

set_launched-Same :
    (h : Host) (j : Job) (pid : ℕ) (on_pty : Bool) → Same j (set_launched h j pid on_pty)
unfolding set_launched append_event
set_launched-Same h j pid on_pty = record { state = refl; closes = refl }

after_spawn-cases :
    (h : Host) (j : Job) (on_pty : Bool) (r : Launch)
    → terminal j.state ≡ false
    → ((spawns r ≡ true) × Same j (after_spawn h j on_pty r))
      ⊎ ((spawns r ≡ false) × Ends State.failed j (after_spawn h j on_pty r))
after_spawn-cases h j on_pty (launched pid) e =
    inl (refl, unfold after_spawn in set_launched-Same h j pid on_pty)
after_spawn-cases h j on_pty (launch_failed text) e =
    inr (refl, unfold after_spawn in finish-Ends h j State.failed none [] text e)

after_look-cases :
    (h : Host) (j : Job) (l : Look)
    → terminal j.state ≡ false
    → ((looks h j l ≡ true) × Same j (after_look h j j.use_pty l))
      ⊎ ((looks h j l ≡ false) × Ends State.failed j (after_look h j j.use_pty l))
after_look-cases h j (failed e) t =
    inr (refl, unfold after_look in finish-Ends h j State.failed none [] _ t)
after_look-cases h j (found path) t = unfold after_look in after_spawn-cases h j j.use_pty _ t

-- The end of `start`: a goroutine is left behind, or the job has failed.
pub launch-cases :
    (h : Host) (j : Job)
    → terminal j.state ≡ false
    → ((leaves_goroutine h j ≡ true) × Same j (launch h j))
      ⊎ ((leaves_goroutine h j ≡ false) × Ends State.failed j (launch h j))
launch-cases h j t = elim (Bool-cases (is_subprocess j.kind)) [
  | inl sub ↦
      unfold launch leaves_goroutine in
      rw sub (
        unfold start_subprocess in
        after_look-cases h j (look_path h.machine (program j.argv) j.env) t)
  | inr inproc ↦ inl (
    unfold leaves_goroutine in rw inproc,
    unfold launch in rw inproc (record { state = refl; closes = refl }),
  )
]

-- A goroutine that reports the end of a job that has not ended.
pub finish_from_exec-Ends :
    (h : Host) (j : Job) (w : WaitResult)
    → terminal j.state ≡ false
    → (st : State) × (terminal st ≡ true) × Ends st j (finish_from_exec h j w)
finish_from_exec-Ends h j exited_zero t = (
  State.done,
  unfold terminal in refl,
  unfold finish_from_exec in finish-Ends h j State.done _ [] [] t,
)
finish_from_exec-Ends h j (wait_failed text) t = (
  State.failed,
  unfold terminal in refl,
  unfold finish_from_exec in finish-Ends h j State.failed none [] text t,
)
finish_from_exec-Ends h j (exit_error code sig) t =
    let st = if j.killed then State.killed else State.done in
    (st, either j.killed, unfold finish_from_exec in finish-Ends h j st (some code) sig [] t)
  where
    either : (b : Bool) → terminal (if b then State.killed else State.done) ≡ true
    either b = unfold terminal in ground arith

pub finish_inproc-Ends :
    (h : Host) (j : Job) (err : Option Runes)
    → terminal j.state ≡ false
    → (st : State) × (terminal st ≡ true) × Ends st j (finish_inproc h j err)
finish_inproc-Ends h j none t = (
  State.done,
  unfold terminal in refl,
  unfold finish_inproc in finish-Ends h j State.done _ [] [] t,
)
finish_inproc-Ends h j (some text) t = (
  State.failed,
  unfold terminal in refl,
  unfold finish_inproc in finish-Ends h j State.failed none [] text t,
)

pub set_wanted-state :
    (h : Host) (j : Job) (want : State)
    → ((set_wanted h j (some want)).state ≡ want)
      × ((set_wanted h j (some want)).wait_closes ≡ j.wait_closes)
unfolding set_wanted
set_wanted-state h j want = (refl, refl)
