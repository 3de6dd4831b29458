-- ===== src/Job/Sound.antt =====
-- What every interleaving keeps: the channel of the waiters is closed once, when the job has ended.
use sh.Prelude.{
  ℕ, suc, ◌+◌, ◌≤◌, ◌≡◌, ◌≢◌, refl, sym, ◌∙◌, subst, inl, inr, true, false, none, List, [], ◌∷◌,
  ◌++◌, Runes, if◌then◌else◌, arith, Bool-cases,
}
use sh.Job.State.{State, terminal, is_pending, is_live, Kind, Job, Signal}
use sh.Job.Control.{Host, launch, send_signal}
use sh.Job.Steps.{
  System, Step, edits, begins, launches, exits, returns, kills, sends, sets, Reach, here, next,
  new_system, new_system-IsSound, IsSound, AllLive, leaves_goroutine,
}
use sh.Job.Effects.{
  Same, Edit-Same, kill-cases, begin_start-state, launch-cases, finish_from_exec-Ends,
  finish_inproc-Ends, set_wanted-state,
}

pub AllLive-remove :
    (before after : List State) (st : State)
    → AllLive (before ++ st ∷ after)
    → (is_live st ≡ true) × AllLive (before ++ after)
AllLive-remove [] after st h = h
AllLive-remove (b ∷ before) after st (h, hs) =
    let (l, ls) = AllLive-remove before after st hs in (l, (h, ls))

-- A job that waits for nothing has not started, and one that runs or is stopped has not ended.
pub terminal-ne_pending : (st : State) → terminal st ≡ true → is_pending st ≡ false
unfolding terminal
terminal-ne_pending st h = ground arith

pub live-ne_terminal :
    (st : State) → is_live st ≡ true → (terminal st ≡ false) × (is_pending st ≡ false)
unfolding terminal
live-ne_terminal st h = ground arith

pending-ne_terminal : (st : State) → is_pending st ≡ true → terminal st ≡ false
unfolding terminal
pending-ne_terminal st h = ground arith

send_signal-ne_pending :
    (h : Host) (j : Job) (sig : Signal) → send_signal h j sig ≡ none → is_pending j.state ≢ true
unfolding send_signal
send_signal-ne_pending h j sig e p = ground arith

-- A start or a goroutine that is outstanding means that the job has started and has not ended.
outstanding :
    (s : System) (n : ℕ)
    → IsSound s
    → s.starting + s.waiting ≡ suc n
    → (is_pending s.job.state ≡ false)
      × (terminal s.job.state ≡ false)
      × (n ≡ 0)
      × (s.job.wait_closes ≡ 0)
outstanding s n h e = elim (Bool-cases (is_pending s.job.state)) [
  | inl waits ↦ absurd (omega (arith, (h.fresh waits).0, (h.fresh waits).1))
  | inr started ↦ elim (Bool-cases (terminal s.job.state)) [
    | inl over ↦ absurd (omega (arith, h.once started, h.closed over))
    | inr runs ↦ (started, runs, omega (arith, h.once started), omega (arith, h.once started))
  ]
]

middle-ne-nil : (before after : List State) (st : State) → before ++ st ∷ after ≢ []
middle-ne-nil [] after st e = cc
middle-ne-nil (b ∷ before) after st e = cc

-- A signal in flight means that the job has started.
in_flight-once :
    (before after : List State) (want : State) (s : System)
    → IsSound s
    → s.in_flight ≡ before ++ want ∷ after
    → s.starting + s.waiting + s.job.wait_closes ≡ 1
in_flight-once before after want s h e = elim (Bool-cases (is_pending s.job.state)) [
  | inl waits ↦ absurd (middle-ne-nil before after want (sym e ∙ (h.fresh waits).3))
  | inr started ↦ h.once started
]

closes-le : (s : System) → IsSound s → s.job.wait_closes ≤ 1
closes-le s h = elim (Bool-cases (is_pending s.job.state)) [
  | inl waits ↦ omega (arith, (h.fresh waits).2)
  | inr started ↦ omega (arith, h.once started)
]

-- The same state and channel, and no change in what is outstanding.
keeps-IsSound : (s : System) {j : Job} → IsSound s → Same s.job j → IsSound (record s { job = j })
keeps-IsSound s h e = record {
  fresh = λ p. let f = h.fresh (rw e.state at p) in (f.0, f.1, e.closes ∙ f.2, f.3);
  once = λ p. omega (arith, h.once (rw e.state at p), e.closes);
  closed = λ p. e.closes ∙ h.closed (rw e.state at p);
  live = h.live;
}

ended-IsSound :
    (t : System)
    → terminal t.job.state ≡ true
    → t.starting + t.waiting ≡ 0
    → t.job.wait_closes ≡ 1
    → AllLive t.in_flight
    → IsSound t
ended-IsSound t over none_left once live = record {
  fresh = λ p. cc (terminal-ne_pending t.job.state over);
  once = λ _. omega arith;
  closed = λ _. once;
  live = live;
}

running-IsSound :
    (t : System)
    → is_live t.job.state ≡ true
    → t.starting + t.waiting + t.job.wait_closes ≡ 1
    → AllLive t.in_flight
    → IsSound t
running-IsSound t runs once live = record {
  fresh = λ p. cc ((live-ne_terminal t.job.state runs).1);
  once = λ _. once;
  closed = λ p. cc ((live-ne_terminal t.job.state runs).0);
  live = live;
}

launched-IsSound :
    (host : Host) (s : System) (n : ℕ)
    → s.starting ≡ suc n
    → IsSound s
    → IsSound (record s {
      job = launch host s.job;
      starting = n;
      waiting = if leaves_goroutine host s.job then suc s.waiting else s.waiting;
    })
launched-IsSound host s n e h =
    let o = outstanding s (n + s.waiting) h (omega arith) in
    elim (launch-cases host s.job o.1) [
      | inl (left, same) ↦ rw left (record {
        fresh = λ p. cc (o.0, same.state);
        once = λ _. omega (arith, o, same.closes);
        closed = λ p. cc (o.1, same.state);
        live = h.live;
      })
      | inr (failed, end) ↦ rw failed (
          ended-IsSound _ (rw end.state (unfold terminal in refl)) (omega (arith, o))
            (omega (arith, o, end.closes)) h.live)
    ]

pub Step-IsSound : {s t : System} → Step s t → IsSound s → IsSound t
Step-IsSound {s} (edits e) h = keeps-IsSound s h (Edit-Same e)
Step-IsSound {s} (begins host e) h =
    let b = begin_start-state host s.job e in
    let f = h.fresh b.0 in running-IsSound _ (rw b.1) (omega (arith, f.0, f.1, f.2, b.2)) h.live
Step-IsSound {s} (launches host n e) h = launched-IsSound host s n e h
Step-IsSound {s} (exits host w n e) h =
    let o = outstanding s (s.starting + n) h (omega arith) in
    let (st, over, end) = finish_from_exec-Ends host s.job w o.1 in
    ended-IsSound _ (rw end.state over) (omega (arith, o)) (omega (arith, o, end.closes)) h.live
Step-IsSound {s} (returns host err n e) h =
    let o = outstanding s (s.starting + n) h (omega arith) in
    let (st, over, end) = finish_inproc-Ends host s.job err o.1 in
    ended-IsSound _ (rw end.state over) (omega (arith, o)) (omega (arith, o, end.closes)) h.live
Step-IsSound {s} (kills host) h = elim (kill-cases host s.job) [
  | inl same ↦ keeps-IsSound s h same
  | inr (waits, end) ↦
      let f = h.fresh waits in
      ended-IsSound _ (rw end.state (unfold terminal in refl)) (omega (arith, f.0, f.1))
        (omega (arith, f.2, end.closes)) h.live
]
Step-IsSound {s} (sends host sig want l e) h = record {
  fresh = λ p. absurd (send_signal-ne_pending host s.job sig e p);
  once = h.once;
  closed = h.closed;
  live = (l, h.live);
}
Step-IsSound {s} (sets host before after want e) h =
    let (l, ls) = AllLive-remove before after want (subst AllLive e h.live) in
    let w = set_wanted-state host s.job want in
    running-IsSound _ (rw w.0 l) (omega (arith, w.1, in_flight-once before after want s h e)) ls

pub Reach-IsSound : {s t : System} → Reach s t → IsSound s → IsSound t
Reach-IsSound here h = h
Reach-IsSound (next r st) h = Step-IsSound st (Reach-IsSound r h)

-- In every interleaving of the methods and goroutines of a new job: `close(waitCh)` is called at
-- most once, so it never panics; it has been called once the job's state is terminal; and it has
-- been called when the state is no longer pending and neither a start nor a goroutine is outstanding.
pub wait_channel :
    (h : Host) (id : ℕ) (kind : Kind) (cwd : Runes) {s : System}
    → Reach (new_system h id kind cwd) s
    → (s.job.wait_closes ≤ 1)
      × (terminal s.job.state ≡ true → s.job.wait_closes ≡ 1)
      × (is_pending s.job.state ≡ false → s.starting ≡ 0 → s.waiting ≡ 0 → s.job.wait_closes ≡ 1)
wait_channel h id kind cwd {s} r =
    let sound = Reach-IsSound r (new_system-IsSound h id kind cwd) in
    (closes-le s sound, sound.closed, λ p a b. omega (arith, sound.once p))
