-- ===== src/Kyu/Machine/Tests.antt =====
-- The depth of calls of kyu/eval, over the small host.
use sh.Prelude.{refl}
use sh.Kyu.Machine.{Vals, no_vals, val_cons, State}
use sh.Kyu.Machine.Host.{Rules}
use sh.Kyu.Machine.Whole.{eval_program}
use sh.Kyu.Machine.Depth.{At, ended, Keeps, HostKeeps}
use sh.Kyu.Machine.Depth.Whole.{eval_program-At}
use sh.Kyu.Machine.Sample.{outside, apply_builtin, host, first_state, calling}

builtin-At :
    (R : Rules outside)
    → Keeps R
    → (args : Vals) (st : State outside) → At st.call_depth (apply_builtin R args st)
builtin-At R keeps no_vals st = ended refl
builtin-At R keeps (val_cons f args) st = keeps.call f args st

host-Keeps : HostKeeps host
host-Keeps = record {
  builtin = λ R keeps name args st. builtin-At R keeps args st;
  external = λ R keeps x v e st. ended refl;
  at_host = λ R keeps x e st. ended refl;
  background = λ R keeps x e st. ended refl;
  namespace_stmt = λ R keeps s e st. ended refl;
  live_read = λ b st st' v e. elim b [ ];
}

eval_program-At_example : At 0 (eval_program outside host 9 calling 0 first_state)
eval_program-At_example = eval_program-At host host-Keeps 9 calling 0 first_state
