-- ===== src/Job/Commands.antt =====
-- The control commands of job/job.go, called one after the other.
use sh.Prelude.{
  suc, ◌≡◌, ◌≢◌, refl, inl, inr, Bool, true, false, ◌||◌, Option, none, some, List, [], ◌∷◌, Runes,
  codes, map, same, if◌then◌else◌, arith, Bool-cases, Option-cases,
}
use sh.Prelude.Int.{ℤ}
use sh.Std.Strings.{fields, upper_rune, atoi}
use sh.Job.State.{State, terminal, is_live, Job, Signal, Err, already, exit_error}
use sh.Job.Control.{
  Host, begin_start, start, launch, kill, signal, send_signal, set_wanted, set_pty, detach,
  find_signal, signal_table, ctl_signal, ctl_priority, ctl_resize, ctl_words, ctl, finish_from_exec,
  finish,
}
use sh.Job.Effects.{Same, finish-Ends, settle-exit}
use sh.Job.Sound.{live-ne_terminal}

-- An error that a command returns leaves the job as it was, and a job that has ended keeps its state
-- and its channel.
record Obeys (j : Job) (r : Job × Option Err) : Type 0 where
  clean : (e : Err) → r.1 ≡ some e → r.0 ≡ j
  ended : terminal j.state ≡ true → Same j r.0

-- A command that was refused, or that has no effect on the job.
Obeys-refused : (j : Job) (e : Option Err) → Obeys j (j, e)
Obeys-refused j e = record {
  clean = λ _ _. refl;
  ended = λ _. record { state = refl; closes = refl };
}

begin_start-refused :
    (h : Host) (j : Job) (e : Err) → (begin_start h j).1 ≡ some e → (begin_start h j).0 ≡ j
unfolding begin_start
begin_start-refused h j e p = ground arith

terminal_refuses_start : (h : Host) (j : Job) → terminal j.state ≡ true → (begin_start h j).1 ≢ none
unfolding begin_start terminal
terminal_refuses_start h j p q = ground arith

start-Obeys : (h : Host) (j : Job) → Obeys j (start h j)
start-Obeys h j = elim (Option-cases (begin_start h j).1) [
  | inl fine ↦
      let result : start h j ≡ (launch h (begin_start h j).0, none) =
        unfold start in rw (fine, start) in
      rw result (record {
        clean = λ e p. cc;
        ended = λ over. absurd (terminal_refuses_start h j over fine);
      })
  | inr (err, refused) ↦
      let result : start h j ≡ ((begin_start h j).0, some err) =
        unfold start in rw (refused, start) in
      rw result (rw (begin_start-refused h j err refused) (Obeys-refused j (some err)))
]

kill-Obeys : (h : Host) (j : Job) → Obeys j (kill h j)
kill-Obeys h j = elim (Bool-cases (terminal j.state)) [
  | inl over ↦
      let result : kill h j ≡ (j, some (already j.state)) = unfold kill in rw over in
      rw result (Obeys-refused j _)
  | inr on ↦ record { clean = λ e p. unfold kill in ground arith; ended = λ over. cc }
]

send_signal-ne_terminal :
    (h : Host) (j : Job) (sig : Signal) → send_signal h j sig ≡ none → terminal j.state ≢ true
unfolding send_signal terminal
send_signal-ne_terminal h j sig e p = ground arith

signal-Obeys :
    (h : Host) (j : Job) (sig : Signal) (want : Option State) → Obeys j (signal h j sig want)
signal-Obeys h j sig want = elim (Option-cases (send_signal h j sig)) [
  | inl fine ↦
      let result : signal h j sig want ≡ (set_wanted h j want, none) =
        unfold signal in rw (fine, signal) in
      rw result (record {
        clean = λ e p. cc;
        ended = λ over. absurd (send_signal-ne_terminal h j sig fine over);
      })
  | inr (err, refused) ↦
      let result : signal h j sig want ≡ (j, some err) = unfold signal in rw (refused, signal) in
      rw result (Obeys-refused j (some err))
]

set_pty-Obeys : (j : Job) → Obeys j (set_pty j)
unfolding set_pty
set_pty-Obeys j = record { clean = λ e p. ground arith; ended = λ over. ground arith }

detach-Obeys : (h : Host) (j : Job) → Obeys j (detach h j, none)
unfolding detach
detach-Obeys h j = record { clean = λ e p. cc; ended = λ over. ground arith }

ctl_signal-Obeys : (h : Host) (j : Job) (args : List Runes) → Obeys j (ctl_signal h j args)
ctl_signal-Obeys h j [] = unfold ctl_signal in Obeys-refused j _
ctl_signal-Obeys h j (a ∷ b ∷ args) = unfold ctl_signal in Obeys-refused j _
ctl_signal-Obeys h j (name ∷ []) =
    elim (Option-cases (find_signal signal_table (map upper_rune name))) [
      | inl unknown ↦ unfold ctl_signal in rw (unknown, ctl_signal) (Obeys-refused j _)
      | inr (sig, known) ↦ unfold ctl_signal in rw (known, ctl_signal) (signal-Obeys h j sig none)
    ]

ctl_priority-Obeys : (h : Host) (j : Job) (args : List Runes) → Obeys j (ctl_priority h j args)
ctl_priority-Obeys h j [] = unfold ctl_priority in Obeys-refused j _
ctl_priority-Obeys h j (a ∷ b ∷ args) = unfold ctl_priority in Obeys-refused j _
ctl_priority-Obeys h j (n ∷ []) = elim (Option-cases (atoi n)) [
  | inl bad ↦ unfold ctl_priority in rw (bad, ctl_priority) (Obeys-refused j _)
  | inr (p, good) ↦ unfold ctl_priority in rw (good, ctl_priority) (Obeys-refused j _)
]

ctl_resize-Obeys : (h : Host) (j : Job) (args : List Runes) → Obeys j (ctl_resize h j args)
ctl_resize-Obeys h j [] = unfold ctl_resize in Obeys-refused j _
ctl_resize-Obeys h j (a ∷ []) = unfold ctl_resize in Obeys-refused j _
ctl_resize-Obeys h j (a ∷ b ∷ c ∷ args) = unfold ctl_resize in Obeys-refused j _
ctl_resize-Obeys h j (rows ∷ cols ∷ []) = elim (Option-cases (atoi rows)) [
  | inl bad ↦ unfold ctl_resize in rw (bad, ctl_resize) (Obeys-refused j _)
  | inr (r, good) ↦ elim (Option-cases (atoi cols)) [
    | inl bad ↦ unfold ctl_resize in rw (good, bad, ctl_resize) (Obeys-refused j _)
    | inr (c, fine) ↦ unfold ctl_resize in rw (good, fine, ctl_resize) (Obeys-refused j _)
  ]
]

Obeys-if :
    (b : Bool) {j : Job} {r s : Job × Option Err}
    → Obeys j r
    → Obeys j s
    → Obeys j (if b then r else s)
Obeys-if true m n = m
Obeys-if false m n = n

ctl_words-Obeys : (h : Host) (j : Job) (words : List Runes) → Obeys j (ctl_words h j words)
ctl_words-Obeys h j [] = unfold ctl_words in Obeys-refused j _
ctl_words-Obeys h j (verb ∷ args) =
    unfold ctl_words in
    Obeys-if (same verb (codes "start")) (start-Obeys h j) (
      Obeys-if (same verb (codes "stop")) (signal-Obeys h j 19 (some State.stopped)) (
        Obeys-if (same verb (codes "resume")) (signal-Obeys h j 18 (some State.running)) (
          Obeys-if (same verb (codes "kill")) (kill-Obeys h j) (
            Obeys-if (same verb (codes "signal")) (ctl_signal-Obeys h j args) (
              Obeys-if (same verb (codes "priority")) (ctl_priority-Obeys h j args) (
                Obeys-if (same verb (codes "pty")) (set_pty-Obeys j) (
                  Obeys-if (same verb (codes "resize")) (ctl_resize-Obeys h j args) (
                    Obeys-if (same verb (codes "detach")) (detach-Obeys h j)
                      (Obeys-refused j _)))))))))

-- A control command that returns an error, malformed or inapplicable, has changed nothing: the job
-- is the one it was, its event log included.
pub ctl_error :
    (h : Host) (j : Job) (cmd : Runes) (e : Err) → (ctl h j cmd).1 ≡ some e → (ctl h j cmd).0 ≡ j
unfolding ctl
ctl_error h j cmd e = (ctl_words-Obeys h j (fields cmd)).clean e

-- No control command revives a job that has ended: its state stays, and the channel of its waiters
-- is not closed again. (Commands here run to their end one after the other; see
-- `Job.Lost.sets-IsLost` for a signal that is under way when the job ends.)
pub ctl_ended :
    (h : Host) (j : Job) (cmd : Runes)
    → terminal j.state ≡ true
    → ((ctl h j cmd).0.state ≡ j.state) × ((ctl h j cmd).0.wait_closes ≡ j.wait_closes)
unfolding ctl
ctl_ended h j cmd over =
    let o = (ctl_words-Obeys h j (fields cmd)).ended over in (o.state, o.closes)

finish-exit_code :
    (h : Host) (j : Job) (st : State) (code : Option ℤ) (sig msg : Runes)
    → terminal j.state ≡ false
    → ((finish h j st code sig msg).exit_code ≡ code)
      × ((finish h j st code sig msg).last_signal ≡ sig)
unfolding finish
finish-exit_code h j st code sig msg e =
    let ended = record j {
      state = st;
      exit_code = code;
      last_signal = sig;
      err_msg = msg;
      finished_at = some h.now;
    } in
    rw e (settle-exit h ended)

-- `ctl kill` on a running or stopped job returns no error and leaves the state alone; when its
-- process then reports an exit error, with any code and signal, the job ends as killed with that
-- code and signal, and the channel of its waiters is closed once more.
pub kill_then_exit :
    (h h' : Host) (j : Job) (code : ℤ) (sig : Runes)
    → is_live j.state ≡ true
    → ((kill h j).1 ≡ none)
      × ((kill h j).0.state ≡ j.state)
      × ((finish_from_exec h' (kill h j).0 (exit_error code sig)).state ≡ State.killed)
      × ((finish_from_exec h' (kill h j).0 (exit_error code sig)).exit_code ≡ some code)
      × ((finish_from_exec h' (kill h j).0 (exit_error code sig)).last_signal ≡ sig)
      × ((finish_from_exec h' (kill h j).0 (exit_error code sig)).wait_closes ≡ suc j.wait_closes)
kill_then_exit h h' j code sig l =
    let marked = record j { killed = true; cancelled = j.has_cancel || j.cancelled } in
    let (on, started) = live-ne_terminal j.state l in
    let result : kill h j ≡ (marked, none) = unfold kill in rw (on, started) in
    let end = finish-Ends h' marked State.killed (some code) sig [] on in
    let exit = finish-exit_code h' marked State.killed (some code) sig [] on in
    rw result (unfold finish_from_exec in (refl, refl, end.state, exit.0, exit.1, end.closes))
