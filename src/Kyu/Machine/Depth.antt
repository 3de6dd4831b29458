-- ===== src/Kyu/Machine/Depth.antt =====
-- callDepth of kyu/eval/callable.go, which callClosure raises and its deferred function takes back, over the
-- whole evaluator. The depth is one of the process: evaluations that run at the same time are not part of it.
pub mod Forms
pub mod Whole
use sh.Prelude.{
  ℕ, ◌≡◌, refl, sym, ◌∙◌, Bool, true, false, ◌||◌, Option, none, some, inl, inr, Runes, ltb, leb,
  ap, ◌+◌, ◌-◌, arith, ◌⊎◌,
}
use sh.Kyu.Ast.{
  Expr, Exprs, no_exprs, expr_cons, Params, no_params, param_cons, Stmt, Stmts, no_stmts, stmt_cons,
}
use sh.Kyu.Machine.{
  Val, Vals, no_vals, val_cons, Answer, value, raised, Outside, State, Eval, on_outcome, go_on,
}
use sh.Kyu.Machine.Values.{length_vals}
use sh.Kyu.Machine.Host.{
  Rules, Host, read_var, found_var, assign_var, after_set, assign_field, written, child_of,
  define_in,
}
use sh.Kyu.Machine.Calls.{
  eval_exprs, assign_to, eval_stmt, eval_stmts, eval_block, bind_params, run_body, by_arity,
  run_closure, call_closure, call_step, min_arity, max_arity, enter, enter_if, leave,
  check_cancelled, go_unless,
}

-- An outcome, if there is one, is in a state with this depth of calls.
pub data At {O : Outside} (d : ℕ) {A : Type 0} : Option (Answer A × State O) → Type 0 where
  no_outcome : At d none
  ended : {a : Answer A} {st : State O} → st.call_depth ≡ d → At d (some (a, st))

module _ {O : Outside} {d : ℕ} where
  pub outcome-At :
      {A B : Type 0} {o : Option (Answer A × State O)} {f : Answer A → Eval (State O) B} {d' : ℕ}
      → At d' o
      → ((a : Answer A) (st : State O) → st.call_depth ≡ d' → At d (f a st))
      → At d (on_outcome o f)
  outcome-At no_outcome k = no_outcome
  outcome-At (ended {a} {st} h) k = k a st h

  pub bind-At :
      {A B : Type 0} {o : Option (Answer A × State O)} {f : A → Eval (State O) B}
      → At d o
      → ((a : A) (st : State O) → st.call_depth ≡ d → At d (f a st))
      → At d (on_outcome o (go_on f))
  bind-At no_outcome k = no_outcome
  bind-At (ended {a = value a} {st} h) k = k a st h
  bind-At (ended {a = raised s} {st} h) k = ended h

-- Recursive calls that leave the depth as it is.
pub record Keeps {O : Outside} (R : Rules O) : Type 0 where
  pub expr : (x : Expr) (e : ℕ) (st : State O) → At st.call_depth (R.expr x e st)
  pub call : (f : Val) (args : Vals) (st : State O) → At st.call_depth (R.call f args st)
  pub loop :
      (c : Expr) (body : Stmts) (e : ℕ) (st : State O) → At st.call_depth (R.loop c body e st)

-- What is not modelled leaves the depth as it is where its callbacks do: only callClosure names it.
pub record HostKeeps {O : Outside} (H : Host O) : Type 0 where
  pub builtin :
      (R : Rules O)
      → Keeps R
      → (name : Runes) (args : Vals) (st : State O) → At st.call_depth (H.builtin R name args st)
  pub external :
      (R : Rules O)
      → Keeps R
      → (x : Expr) (v : Option Val) (e : ℕ) (st : State O)
      → At st.call_depth (H.external R x v e st)
  pub at_host :
      (R : Rules O)
      → Keeps R
      → (x : Expr) (e : ℕ) (st : State O) → At st.call_depth (H.at_host R x e st)
  pub background :
      (R : Rules O)
      → Keeps R
      → (x : Expr) (e : ℕ) (st : State O) → At st.call_depth (H.background R x e st)
  pub namespace_stmt :
      (R : Rules O)
      → Keeps R
      → (s : Stmt) (e : ℕ) (st : State O) → At st.call_depth (H.namespace_stmt R s e st)
  pub live_read :
      (b : O.Backing) (st st' : State O) (v : Val ⊎ Runes)
      → H.live_read b st ≡ some (v, st')
      → st'.call_depth ≡ st.call_depth

module _ {O : Outside} (H : Host O) (host : HostKeeps H) (R : Rules O) (keeps : Keeps R) where
  pub expr-At : {d : ℕ} (x : Expr) (e : ℕ) (st : State O) → st.call_depth ≡ d → At d (R.expr x e st)
  expr-At x e st h = rw (sym h) (keeps.expr x e st)

  pub eval_exprs-At :
      {d : ℕ} (xs : Exprs) (e : ℕ) (st : State O)
      → st.call_depth ≡ d
      → At d (eval_exprs O H R xs e st)
  unfolding eval_exprs
  eval_exprs-At no_exprs e st h = ended h
  eval_exprs-At (expr_cons x xs) e st h =
      bind-At (expr-At x e st h)
        (λ v st1 h1. bind-At (eval_exprs-At xs e st1 h1) (λ vs st2 h2. ended h2))

  pub read_var-At :
      {d : ℕ} (e : ℕ) (name : Runes) (st : State O)
      → st.call_depth ≡ d
      → At d (read_var O e name st)
  unfolding read_var
  read_var-At {d} e name st h = by_value _
    where
      by_value : (v : Option Val) → At d (found_var O name v st)
      by_value none = ended h
      by_value (some v) = ended h

  assign_var-At :
      {d : ℕ} (e : ℕ) (name : Runes) (v : Val) (st : State O)
      → st.call_depth ≡ d
      → At d (assign_var O e name v st)
  unfolding assign_var
  assign_var-At {d} e name v st h = by_answer _
    where
      by_answer : (o : _) → At d (after_set O name st o)
      by_answer (true, scopes) = ended h
      by_answer (false, scopes) = ended h

  assign_field-At :
      {d : ℕ} (field : Runes) (v r : Val) (st : State O)
      → st.call_depth ≡ d
      → At d (assign_field O field v r st)
  unfolding assign_field
  assign_field-At {d} field v (Val.rec a) st h = by_error _ _ h
    where
      by_error :
          (e : Option Runes) (st' : State O) → st'.call_depth ≡ d → At d (written O field e st')
      by_error none st' h = ended h
      by_error (some msg) st' h = ended h
  assign_field-At field v Val.null st h = ended h
  assign_field-At field v _ st h = ended h

  assign_to-At :
      {d : ℕ} (target : Expr) (v : Val) (e : ℕ) (st : State O)
      → st.call_depth ≡ d
      → At d (assign_to O H R target v e st)
  unfolding assign_to
  assign_to-At (Expr.ident t name) v e st h = assign_var-At e name v st h
  assign_to-At (Expr.field_access t recv field) v e st h =
      bind-At (expr-At recv e st h) (λ r st1 h1. assign_field-At field v r st1 h1)
  assign_to-At Expr.missing v e st h = ended h
  assign_to-At _ v e st h = ended h

  eval_stmt-At :
      {d : ℕ} (s : Stmt) (e : ℕ) (st : State O) → st.call_depth ≡ d → At d (eval_stmt O H R s e st)
  unfolding eval_stmt define_in
  eval_stmt-At (Stmt.expr_stmt x) e st h = expr-At x e st h
  eval_stmt-At (Stmt.define_stmt t u name x) e st h =
      bind-At (expr-At x e st h) (λ v st1 h1. ended h1)
  eval_stmt-At (Stmt.assign_stmt t target x) e st h =
      bind-At (expr-At x e st h) (λ v st1 h1. assign_to-At target v e st1 h1)
  eval_stmt-At (Stmt.bind_stmt t source dest disposition read_only) e st h =
      rw (sym h)
        (host.namespace_stmt R keeps (Stmt.bind_stmt t source dest disposition read_only) e st)
  eval_stmt-At (Stmt.unbind_stmt t x) e st h =
      rw (sym h) (host.namespace_stmt R keeps (Stmt.unbind_stmt t x) e st)

  eval_stmts-At :
      {d : ℕ} (ss : Stmts) (e : ℕ) (last : Val) (st : State O)
      → st.call_depth ≡ d
      → At d (eval_stmts O H R ss e last st)
  unfolding eval_stmts
  eval_stmts-At no_stmts e last st h = ended h
  eval_stmts-At (stmt_cons s ss) e last st h =
      bind-At (eval_stmt-At s e st h) (λ v st1 h1. eval_stmts-At ss e v st1 h1)

  pub eval_block-At :
      {d : ℕ} (ss : Stmts) (e : ℕ) (st : State O)
      → st.call_depth ≡ d
      → At d (eval_block O H R ss e st)
  unfolding eval_block
  eval_block-At ss e st h = eval_stmts-At ss e Val.null st h

  bind_params-At :
      {d : ℕ} (ps : Params) (args : Vals) (child : ℕ) (st : State O)
      → st.call_depth ≡ d
      → At d (bind_params O H R ps args child st)
  unfolding bind_params define_in
  bind_params-At no_params args child st h = ended h
  bind_params-At (param_cons name default ps) (val_cons v vs) child st h =
      bind_params-At ps vs child _ h
  bind_params-At (param_cons name default ps) no_vals child st h =
      bind-At (outcome-At (expr-At default child st h) (λ a st1 h1. ended h1))
        (λ v st1 h1. bind_params-At ps no_vals child _ h1)

  run_closure-At :
      {d : ℕ} (ps : Params) (body : Stmts) (e : ℕ) (args : Vals) (st : State O)
      → st.call_depth ≡ d
      → At d (run_closure O H R ps body e args st)
  unfolding run_closure run_body child_of
  run_closure-At {d} ps body e args st h =
      by_test (ltb (length_vals args) (min_arity ps) || ltb (max_arity ps) (length_vals args))
    where
      by_test : (b : Bool) → At d (by_arity O H R b ps body e args st)
      by_test true = ended h
      by_test false =
          bind-At (bind_params-At ps args _ _ h) (λ u st2 h2. eval_block-At body _ st2 h2)

  pub check_cancelled-At :
      {d : ℕ} (st : State O) → st.call_depth ≡ d → At d (check_cancelled O H st)
  check_cancelled-At {d} st h = by_message (H.cancelled st.world)
    where
      by_message : (m : Option Runes) → At d (go_unless O H m st)
      by_message none = ended h
      by_message (some msg) = ended h

  -- `callDepth++` and what runs behind it, up to the deferred `callDepth--`.
  call_closure-At :
      {d : ℕ} (ps : Params) (body : Stmts) (e : ℕ) (args : Vals) (st : State O)
      → st.call_depth ≡ d
      → At d (call_closure O H R ps body e args st)
  unfolding call_closure enter leave
  call_closure-At {d} ps body e args st h =
      bind-At (check_cancelled-At st h) (λ u st1 h1. entered st1 h1 (leb _ st1.call_depth))
    where
      entered :
          (st1 : State O)
          → st1.call_depth ≡ d
          → (b : Bool)
          → At d (
              on_outcome
                (enter_if O H b st1)
                (go_on (λ v st2. on_outcome (run_closure O H R ps body e args st2) (leave O H))))
      entered st1 h1 true = ended h1
      entered st1 h1 false =
          outcome-At
            (run_closure-At ps body e args (record st1 { call_depth = st1.call_depth + 1 }) refl)
            (λ a st3 h3. ended (omega (arith, h1, h3)))

  pub call_step-At :
      {d : ℕ} (f : Val) (args : Vals) (st : State O)
      → st.call_depth ≡ d
      → At d (call_step O H R f args st)
  unfolding call_step
  call_step-At (Val.builtin name) args st h = rw (sym h) (host.builtin R keeps name args st)
  call_step-At (Val.closure ps body e) args st h = call_closure-At ps body e args st h
  call_step-At Val.null args st h = ended h
  call_step-At _ args st h = ended h
