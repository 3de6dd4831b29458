-- ===== src/Kyu/Machine/Depth/Forms.antt =====
-- callDepth of kyu/eval/callable.go over the forms of expressions of kyu/eval/eval.go.
use sh.Prelude.{ℕ, ◌≡◌, refl, sym, ◌∙◌, Bool, true, false, Option, none, some, Runes, inl, inr, ◌⊎◌}
use sh.Kyu.Token.{Kind}
use sh.Kyu.Ast.{Expr, Exprs, RecordFields, no_fields, field_cons, Stmts}
use sh.Kyu.Value.Record.{Record, set, find}
use sh.Kyu.Eval.{Result, ok, err}
use sh.Kyu.Machine.{
  Val, Vals, no_vals, val_cons, broke, continued, failed, Answer, value, raised, Outside, backings,
  State, record_at,
}
use sh.Kyu.Machine.Values.{operate, is_true, append_vals}
use sh.Kyu.Machine.Host.{
  Rules, Host, of_result, access, field_of, read_record, after_read, child_of,
}
use sh.Kyu.Machine.Forms.{eval_fields, call_with, pipe_value, pipe_into, checked}
use sh.Kyu.Machine.Control.{
  eval_scoped, branch, after_body, round_if, loop_step, swap_back, eval_truth, right_if,
  needs_right, eval_logical, equality, combine, eval_strict, eval_binary, in_clone, eval_in_ns,
}
use sh.Kyu.Machine.Depth.{
  At, no_outcome, ended, outcome-At, bind-At, Keeps, HostKeeps, expr-At, eval_exprs-At,
  eval_block-At, check_cancelled-At,
}

module _ {O : Outside} (H : Host O) (host : HostKeeps H) (R : Rules O) (keeps : Keeps R) where
  pub of_result-At :
      {d : ℕ} (r : Result Val) (st : State O) → st.call_depth ≡ d → At d (of_result r st)
  of_result-At (ok v) st h = ended h
  of_result-At (err e) st h = ended h

  pub eval_fields-At :
      {d : ℕ} (fs : RecordFields) (e : ℕ) (r : Record (backings O)) (st : State O)
      → st.call_depth ≡ d
      → At d (eval_fields O H R fs e r st)
  unfolding eval_fields
  eval_fields-At no_fields e r st h = ended h
  eval_fields-At (field_cons name x fs) e r st h =
      bind-At (expr-At H host R keeps x e st h)
        (λ v st1 h1. eval_fields-At fs e (set (backings O) r name v) st1 h1)

  live-At :
      {d : ℕ} (b : O.Backing) (st : State O)
      → st.call_depth ≡ d
      → At d (after_read O (H.live_read b st))
  live-At {d} b st h = by_read (H.live_read b st) refl
    where
      by_read :
          (o : Option ((Val ⊎ Runes) × State O)) → H.live_read b st ≡ o → At d (after_read O o)
      by_read none e = no_outcome
      by_read (some (inl v, st')) e = ended (host.live_read b st st' (inl v) e ∙ h)
      by_read (some (inr msg, st')) e = ended (host.live_read b st st' (inr msg) e ∙ h)

  pub access-At :
      {d : ℕ} (field : Runes) (r : Val) (st : State O)
      → st.call_depth ≡ d
      → At d (access O H field r st)
  unfolding access
  access-At {d} field (Val.rec a) st h =
      by_backing (record_at O st.records a) (find (record_at O st.records a).backing field)
    where
      by_value : (v : Option Val) → At d (field_of O field v st)
      by_value none = ended h
      by_value (some v) = ended h

      by_backing :
          (r : Record (backings O)) (b : Option O.Backing) → At d (read_record O H field r b st)
      by_backing r none = by_value (find r.vals field)
      by_backing r (some b) = live-At b st h
  access-At field Val.null st h = ended h
  access-At field _ st h = ended h

  call-At :
      {d : ℕ} (f : Val) (args : Vals) (st : State O) → st.call_depth ≡ d → At d (R.call f args st)
  call-At f args st h = rw (sym h) (keeps.call f args st)

  pub call_with-At :
      {d : ℕ} (fn : Expr) (args : Exprs) (piped : Vals) (e : ℕ) (st : State O)
      → st.call_depth ≡ d
      → At d (call_with O H R fn args piped e st)
  unfolding call_with
  call_with-At fn args piped e st h = bind-At (expr-At H host R keeps fn e st h) (λ f st1 h1.
      bind-At (eval_exprs-At H host R keeps args e st1 h1)
        (λ vs st2 h2. call-At f (append_vals vs piped) st2 h2))

  pub pipe_into-At :
      {d : ℕ} (right : Expr) (v : Val) (e : ℕ) (st : State O)
      → st.call_depth ≡ d
      → At d (pipe_into O H R right v e st)
  unfolding pipe_into pipe_value
  pipe_into-At (Expr.external_call t name x args) v e st h =
      rw (sym h) (host.external R keeps (Expr.external_call t name x args) (some v) e st)
  pipe_into-At (Expr.call t fn args) v e st h = call_with-At fn args (val_cons v no_vals) e st h
  pipe_into-At Expr.missing v e st h =
      bind-At (expr-At H host R keeps Expr.missing e st h)
        (λ f st1 h1. call-At f (val_cons v no_vals) st1 h1)
  pipe_into-At right v e st h =
      bind-At (expr-At H host R keeps right e st h)
        (λ f st1 h1. call-At f (val_cons v no_vals) st1 h1)

  pub checked-At : {d : ℕ} (v : Val) (st : State O) → st.call_depth ≡ d → At d (checked O H R v st)
  checked-At (Val.error_val msg) st h = ended h
  checked-At Val.null st h = ended h
  checked-At v st h = ended h

  eval_scoped-At :
      {d : ℕ} (body : Stmts) (e : ℕ) (st : State O)
      → st.call_depth ≡ d
      → At d (eval_scoped O H R body e st)
  unfolding eval_scoped child_of
  eval_scoped-At body e st h = eval_block-At H host R keeps body _ _ h

  pub branch-At :
      {d : ℕ} (a b : Stmts) (e : ℕ) (t : Bool) (st : State O)
      → st.call_depth ≡ d
      → At d (branch O H R a b e t st)
  branch-At a b e true st h = eval_scoped-At a e st h
  branch-At a b e false st h = eval_scoped-At b e st h

  pub loop-At :
      {d : ℕ} (c : Expr) (body : Stmts) (e : ℕ) (st : State O)
      → st.call_depth ≡ d
      → At d (R.loop c body e st)
  loop-At c body e st h = rw (sym h) (keeps.loop c body e st)

  after_body-At :
      {d : ℕ} (c : Expr) (body : Stmts) (e : ℕ) (a : Answer Val) (st : State O)
      → st.call_depth ≡ d
      → At d (after_body O H R c body e a st)
  after_body-At c body e (value v) st h = loop-At c body e st h
  after_body-At c body e (raised broke) st h = ended h
  after_body-At c body e (raised continued) st h = loop-At c body e st h
  after_body-At c body e (raised (failed error)) st h = ended h

  pub loop_step-At :
      {d : ℕ} (c : Expr) (body : Stmts) (e : ℕ) (st : State O)
      → st.call_depth ≡ d
      → At d (loop_step O H R c body e st)
  unfolding loop_step
  loop_step-At {d} c body e st h = bind-At (check_cancelled-At H host R keeps st h) (λ u st1 h1.
      bind-At (expr-At H host R keeps c e st1 h1) (λ v st2 h2. round (is_true v) st2 h2))
    where
      round : (b : Bool) (st2 : State O) → st2.call_depth ≡ d → At d (round_if O H R c body e b st2)
      round true st2 h2 =
          outcome-At (eval_scoped-At body e st2 h2) (λ a st3 h3. after_body-At c body e a st3 h3)
      round false st2 h2 = ended h2

  eval_truth-At :
      {d : ℕ} (x : Expr) (e : ℕ) (st : State O) → st.call_depth ≡ d → At d (eval_truth O H R x e st)
  unfolding eval_truth
  eval_truth-At x e st h = bind-At (expr-At H host R keeps x e st h) (λ v st1 h1. ended h1)

  eval_logical-At :
      {d : ℕ} (is_and : Bool) (l r : Expr) (e : ℕ) (st : State O)
      → st.call_depth ≡ d
      → At d (eval_logical O H R is_and l r e st)
  unfolding eval_logical
  eval_logical-At {d} is_and l r e st h =
      bind-At (eval_truth-At l e st h) (λ a st1 h1. right a (needs_right is_and a) st1 h1)
    where
      right : (a t : Bool) (st1 : State O) → st1.call_depth ≡ d → At d (right_if O H R r e a t st1)
      right a true st1 h1 = bind-At (eval_truth-At r e st1 h1) (λ b st2 h2. ended h2)
      right a false st1 h1 = ended h1

  combine-At :
      {d : ℕ} (op : Kind) (l r : Val) (st : State O)
      → st.call_depth ≡ d
      → At d (combine O H R op l r st)
  combine-At {d} op l r st h = by_operator op
    where
      by_answer : (f : Bool → Bool) (o : Option Bool) → At d (equality O H R f o st)
      by_answer f none = no_outcome
      by_answer f (some b) = ended h

      by_operator : (op : Kind) → At d (combine O H R op l r st)
      by_operator Kind.eq = by_answer _ (R.equal st l r)
      by_operator Kind.neq = by_answer _ (R.equal st l r)
      by_operator op = of_result-At (operate H.number op l r) st h

  eval_strict-At :
      {d : ℕ} (op : Kind) (l r : Expr) (e : ℕ) (st : State O)
      → st.call_depth ≡ d
      → At d (eval_strict O H R op l r e st)
  unfolding eval_strict
  eval_strict-At op l r e st h = bind-At (expr-At H host R keeps l e st h) (λ a st1 h1.
      bind-At (expr-At H host R keeps r e st1 h1) (λ b st2 h2. combine-At op a b st2 h2))

  pub eval_binary-At :
      {d : ℕ} (op : Kind) (l r : Expr) (e : ℕ) (st : State O)
      → st.call_depth ≡ d
      → At d (eval_binary O H R op l r e st)
  unfolding eval_binary
  eval_binary-At Kind.and l r e st h = eval_logical-At true l r e st h
  eval_binary-At Kind.or l r e st h = eval_logical-At false l r e st h
  eval_binary-At op l r e st h = eval_strict-At op l r e st h

  pub eval_in_ns-At :
      {d : ℕ} (body : Stmts) (e : ℕ) (st : State O)
      → st.call_depth ≡ d
      → At d (eval_in_ns O H R body e st)
  unfolding eval_in_ns in_clone swap_back
  eval_in_ns-At {d} body e st h = by_namespace st.namespace
    where
      by_namespace : (n : Option O.Namespace) → At d (in_clone O H R n body e st)
      by_namespace none = ended h
      by_namespace (some prev) = outcome-At (eval_scoped-At body e _ h) (λ a st1 h1. ended h1)
