-- ===== src/Job/Lost.antt =====
-- The race between `signal` and the end of a job (job/job.go): what it leaves behind.
use sh.Prelude.{◌+◌, ◌≡◌, ◌∙◌, subst, inl, inr, true, false, some, List, ◌∷◌, ◌++◌, arith}
use sh.Job.State.{State, terminal, is_live, Job}
use sh.Job.Control.{Host, set_wanted}
use sh.Job.Steps.{
  System, Step, edits, begins, launches, exits, returns, kills, sends, sets, Reach, here, next,
  IsSound, AllLive,
}
use sh.Job.Effects.{Same, Edit-Same, kill-cases, begin_start-state, set_wanted-state}
use sh.Job.Sound.{Reach-IsSound, AllLive-remove, terminal-ne_pending, live-ne_terminal}

-- Ended for the waiters, with nothing outstanding and no signal in flight.
pub record IsLost (s : System) : Type 0 where
  pub runs : is_live s.job.state ≡ true
  pub closed : s.job.wait_closes ≡ 1
  pub none_left : s.starting + s.waiting ≡ 0

-- The second critical section of `signal` does not look at the state again: if the job has ended
-- since the signal was delivered, the job is lost, its state running or stopped although its
-- waiters have been told that it ended.
pub sets-IsLost :
    (h : Host) (s : System) (before after : List State) (want : State)
    → IsSound s
    → terminal s.job.state ≡ true
    → s.in_flight ≡ before ++ want ∷ after
    → IsLost (record s { job = set_wanted h s.job (some want); in_flight = before ++ after })
sets-IsLost h s before after want sound over e =
    let (l, _) = AllLive-remove before after want (subst AllLive e sound.live) in
    let w = set_wanted-state h s.job want in
    let once = sound.once (terminal-ne_pending s.job.state over) in
    record {
      runs = rw w.0 l;
      closed = w.1 ∙ sound.closed over;
      none_left = omega (arith, once, sound.closed over);
    }

Same-IsLost : (s : System) {j : Job} → IsLost s → Same s.job j → IsLost (record s { job = j })
Same-IsLost s l e = record {
  runs = rw e.state l.runs;
  closed = e.closes ∙ l.closed;
  none_left = l.none_left;
}

Step-IsLost : {s t : System} → Step s t → IsSound s → IsLost s → IsLost t
Step-IsLost {s} (edits e) h l = Same-IsLost s l (Edit-Same e)
Step-IsLost {s} (begins host e) h l =
    cc ((begin_start-state host s.job e).0, (live-ne_terminal s.job.state l.runs).1)
Step-IsLost {s} (launches host n e) h l = absurd (omega (arith, l.none_left))
Step-IsLost {s} (exits host w n e) h l = absurd (omega (arith, l.none_left))
Step-IsLost {s} (returns host err n e) h l = absurd (omega (arith, l.none_left))
Step-IsLost {s} (kills host) h l = elim (kill-cases host s.job) [
  | inl same ↦ Same-IsLost s l same
  | inr (waits, _) ↦ cc (waits, (live-ne_terminal s.job.state l.runs).1)
]
Step-IsLost {s} (sends host sig want p e) h l = record {
  runs = l.runs;
  closed = l.closed;
  none_left = l.none_left;
}
Step-IsLost {s} (sets host before after want e) h l =
    let (p, _) = AllLive-remove before after want (subst AllLive e h.live) in
    let w = set_wanted-state host s.job want in
    record { runs = rw w.0 p; closed = w.1 ∙ l.closed; none_left = l.none_left }

Reach-IsLost : {s t : System} → Reach s t → IsSound s → IsLost s → IsLost t
Reach-IsLost here h l = l
Reach-IsLost (next r st) h l = Step-IsLost st (Reach-IsSound r h) (Reach-IsLost r h l)

-- A lost job stays lost whatever happens: no later step, `kill` included, makes its state terminal.
pub lost_forever :
    {s t : System}
    → IsSound s
    → IsLost s
    → Reach s t
    → (terminal t.job.state ≡ false) × (t.job.wait_closes ≡ 1)
lost_forever {t = t} h l r =
    let m = Reach-IsLost r h l in ((live-ne_terminal t.job.state m.runs).0, m.closed)
