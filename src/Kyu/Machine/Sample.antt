-- ===== src/Kyu/Machine/Sample.antt =====
-- A small host for the evaluator of kyu/eval, and runs of programs over it.
use sh.Kyu.Value.Record.{find}
use sh.Kyu.Machine.Calls.{leave, enter}
use sh.Std.Int64.{add64}
use sh.Kyu.Eval.Operators.{binary_of}
use sh.Kyu.Machine.Control.{eval_in_ns, eval_if, eval_binary}
use sh.Kyu.Value.Data.{compare, truthy}
use sh.Prelude.{
  ℕ, ◌+◌, ◌*◌, ◌-◌, ◌≡◌, refl, true, Option, none, some, inr, [], ◌∷◌, Runes, codes, same, ltb,
  ◌==◌,
}
use sh.Prelude.Int.{◌+ℤ◌, pos, pos_part}
use sh.Kyu.Token.{Kind, Token}
use sh.Kyu.Ast.{
  Expr, Exprs, no_exprs, expr_cons, no_fields, field_cons, no_params, param_cons, Stmt, Stmts,
  no_stmts, stmt_cons,
}
use sh.Kyu.Eval.{EvalError}
use sh.Kyu.Machine.{
  Val, Vals, no_vals, val_cons, Answer, value, Outside, State, Eval, pure, fail, record_at,
}
use sh.Kyu.Machine.Values.{append_vals, Float64, shade}
use sh.Kyu.Machine.Host.{
  assign_field, access, store_record, assign_var, read_var, child_of, define_in, Rules, Host,
}
use sh.Kyu.Machine.Whole.{eval_program}

-- No live fields; the namespace is a number, and cloning adds 100.
abbrev pub outside : Outside
outside = record {
  World = Unit {0};
  Namespace = ℕ;
  Backing = ⊥;
  read_field = λ b w. inr [];
  write_field = λ b v w. (w, none);
}

abbrev pub whole_numbers : Float64
whole_numbers = record {
  feq = λ x y. x == y;
  flt = λ x y. ltb x y;
  of_int = pos_part;
  arithmetic = record {
    fadd = λ x y. x + y;
    fsub = λ x y. x - y;
    fmul = λ x y. x * y;
    fdiv = λ x y. x;
    fneg = λ x. x;
  };
}

-- The one builtin calls its first argument with the others.
abbrev pub apply_builtin : Rules outside → Vals → Eval (State outside) Val
apply_builtin R no_vals = fail EvalError.argument_count
apply_builtin R (val_cons f args) = R.call f args

abbrev pub host : Host outside
host = record {
  builtin = λ R name args. apply_builtin R args;
  external = λ R x stdin e. pure (Val.bytes []);
  at_host = λ R x e. pure Val.null;
  background = λ R x e. pure Val.null;
  namespace_stmt = λ R s e st. some (value Val.null, record st { namespace = some 7 });
  clone = λ n. n + 100;
  cancelled = λ w. none;
  number = whole_numbers;
  live_read = λ b st. none;
}

-- One scope, without variables.
abbrev pub first_state : State outside
first_state = record {
  scopes = record { vars = []; parent = none } ∷ [];
  records = [];
  call_depth = 0;
  last_exit_code = none;
  namespace = some 1;
  world = tt;
}

abbrev pub at : Kind → Token
at k = record { kind = k; literal = []; line = 1; col = 1 }

abbrev pub var : Runes → Expr
var name = Expr.ident (at Kind.ident) name

abbrev pub number : ℕ → Expr
number n = Expr.int_lit (at Kind.int) (pos n)

abbrev pub binary : Kind → Expr → Expr → Expr
binary op l r = Expr.binary_expr (at op) op l r

abbrev pub set_to : Expr → Expr → Stmt
set_to target x = Stmt.assign_stmt (at Kind.assign) target x

abbrev pub new_var : Runes → Expr → Stmt
new_var name x = Stmt.define_stmt (at Kind.ident) (at Kind.define) name x

abbrev pub call_f : Exprs → Expr
call_f args = Expr.call (at Kind.lparen) (var (codes "f")) args

abbrev pub last : Expr → Stmts
last x = stmt_cons (Stmt.expr_stmt x) no_stmts

-- i := 0; while true { i = i + 1; if i > 2 { break } else { continue }; i = 9 }; i
abbrev pub counting : Stmts
counting = stmt_cons (new_var (codes "i") (number 0)) (
    stmt_cons
      (Stmt.expr_stmt (
        Expr.while_expr (at Kind.true_word) (Expr.bool_lit (at Kind.true_word) true) (
          stmt_cons (set_to (var (codes "i")) (binary Kind.plus (var (codes "i")) (number 1))) (
            stmt_cons
              (Stmt.expr_stmt (
                Expr.if_expr (at Kind.true_word) (binary Kind.gt (var (codes "i")) (number 2))
                  (last (Expr.break_expr (at Kind.true_word)))
                  (last (Expr.continue_expr (at Kind.true_word)))))
              (stmt_cons (set_to (var (codes "i")) (number 9)) no_stmts)))))
      (last (var (codes "i"))))

-- The value or signal of a run, without the state.
abbrev pub answer_of : Option (Answer Val × State outside) → Option (Answer Val)
answer_of none = none
answer_of (some (a, st)) = some a

counting_runs :
    answer_of (eval_program outside host 20 counting 0 first_state) ≡ some (value (Val.int (pos 3)))
unfolding eval_program define_in truthy shade child_of eval_binary read_var same binary_of
    assign_var eval_if compare add64 ◌+ℤ◌
counting_runs = refl

-- f := { |n, m = n| n = n + m; n }; r := { a: f(3, 4), b: [f(1)] }; r.b = in_ns { r.a }; r
abbrev pub calling : Stmts
calling =
    stmt_cons
      (new_var (codes "f") (
        Expr.closure (at Kind.lbrace)
          (param_cons (codes "n") Expr.missing (param_cons (codes "m") (var (codes "n")) no_params))
          (stmt_cons
            (set_to (var (codes "n")) (binary Kind.plus (var (codes "n")) (var (codes "m"))))
            (last (var (codes "n"))))))
      (stmt_cons
        (new_var (codes "r") (
          Expr.record_lit (at Kind.lbrace) (
            field_cons (codes "a") (call_f (expr_cons (number 3) (expr_cons (number 4) no_exprs)))
              (field_cons (codes "b") (call_f (expr_cons (number 1) no_exprs)) no_fields))))
        (stmt_cons
          (set_to (Expr.field_access (at Kind.dot) (var (codes "r")) (codes "b")) (
            Expr.list_lit (at Kind.lbracket) (
              expr_cons
                (Expr.in_ns (at Kind.in_ns)
                  (last (Expr.field_access (at Kind.dot) (var (codes "r")) (codes "a"))))
                no_exprs)))
          (last (var (codes "r")))))

abbrev pub state_of : Option (Answer Val × State outside) → State outside
state_of none = first_state
state_of (some (a, st)) = st

calling_returns :
    answer_of (eval_program outside host 9 calling 0 first_state) ≡ some (value (Val.rec 0))
unfolding eval_program define_in read_var same enter append_vals child_of eval_binary binary_of
    shade assign_var leave store_record eval_in_ns access find assign_field
calling_returns = refl

calling_fields :
    ((record_at outside
      (state_of (eval_program outside host 9 calling 0 first_state)).records
      0).vals)
    ≡ (codes "b", Val.list (val_cons (Val.int (pos 7)) no_vals))
      ∷ (codes "b", Val.int (pos 2))
      ∷ (codes "a", Val.int (pos 7))
      ∷ []
unfolding eval_program record_at define_in read_var same enter append_vals child_of eval_binary
    binary_of shade assign_var leave store_record eval_in_ns access find assign_field add64 ◌+ℤ◌
calling_fields = refl
