-- ===== src/Kyu/Machine/Runs.antt =====
-- Runs of the evaluator of kyu/eval over the small host: cycles, programs that end, and calls.
use sh.Kyu.Value.Record.{find}
use sh.Kyu.Machine.Values.{length_vals}
use sh.Kyu.Machine.Calls.{bind_params, call_closure, min_arity, max_arity, eval_block}
use sh.Kyu.Machine.Control.{eval_in_ns}
use sh.Prelude.{
  ℕ, ◌≡◌, refl, none, some, inl, [], ◌∷◌, Runes, codes, same, ◌==◌, if◌then◌else◌, arith,
}
use sh.Prelude.Int.{pos}
use sh.Kyu.Token.{Kind}
use sh.Kyu.Ast.{
  Expr, no_exprs, expr_cons, no_fields, field_cons, Params, no_params, param_cons, Stmt, Stmts,
  no_stmts, stmt_cons,
}
use sh.Kyu.Eval.{EvalError}
use sh.Kyu.Eval.Scopes.{new_env}
use sh.Kyu.Machine.{Val, Vals, no_vals, val_cons, Signal, value, raised, State, record_at}
use sh.Kyu.Machine.Host.{assign_field, store_record, read_var, child_of, define_in}
use sh.Kyu.Value.Record.{get}
use sh.Kyu.Eval.Scopes as Scopes
use sh.Kyu.Eval.Scopes.{Store, own, parent_of, find_var}
use sh.Kyu.Machine.Cycles.{HoldsItself, eval_binary-never_ends}
use sh.Kyu.Machine.Straight.{IsOrdinary, AreStraightStmts, size_stmts}
use sh.Kyu.Machine.Straight.Total.{Returns}
use sh.Kyu.Machine.Straight.Whole.{eval_program-Returns}
use sh.Kyu.Machine.Closures.{given, or_else, bind_params-own, call_closure-refusal}
use sh.Kyu.Machine.Namespaces.{RanIn, eval_in_ns-namespace}
use sh.Kyu.Machine.Whole.{rules, eval_program}
use sh.Kyu.Machine.Sample.{
  outside, host, first_state, at, var, number, binary, set_to, new_var, last, state_of,
}

-- r := { a: 1 }; r.a = r
abbrev cycling : Stmts
cycling =
    stmt_cons
      (new_var (codes "r")
        (Expr.record_lit (at Kind.lbrace) (field_cons (codes "a") (number 1) no_fields)))
      (stmt_cons
        (set_to (Expr.field_access (at Kind.dot) (var (codes "r")) (codes "a")) (var (codes "r")))
        no_stmts)

abbrev cyclic : State outside
cyclic = record first_state {
  scopes = record { vars = (codes "r", Val.rec 0) ∷ []; parent = none } ∷ [];
  records =
      record {
        keys = codes "a" ∷ [];
        vals = (codes "a", Val.rec 0) ∷ (codes "a", Val.int (pos 1)) ∷ [];
        index = (codes "a", 0) ∷ [];
        backing = [];
      }
      ∷ [];
}

cycling-cyclic : eval_program outside host 3 cycling 0 first_state ≡ some (value Val.null, cyclic)
unfolding eval_program store_record define_in read_var same assign_field find
cycling-cyclic = refl

cyclic-HoldsItself : HoldsItself cyclic 0
unfolding record_at get find same
cyclic-HoldsItself = record { key = codes "a"; others = []; first = refl; itself = refl }

eval_binary-never_ends_example :
    (rules outside host 1000).expr (binary Kind.eq (var (codes "r")) (var (codes "r"))) 0 cyclic
    ≡ none
unfolding Scopes.get same
eval_binary-never_ends_example =
    eval_binary-never_ends host cyclic 0 cyclic-HoldsItself 1000 (at Kind.eq) (at Kind.ident)
      (at Kind.ident) Kind.eq 0 (codes "r") (inl refl) refl

-- x := { a: 1 + 2 }; x = if 1 > 2 { break } else { [x] }; in_ns { y }
abbrev straight : Stmts
straight =
    stmt_cons
      (new_var (codes "x") (
        Expr.record_lit (at Kind.lbrace)
          (field_cons (codes "a") (binary Kind.plus (number 1) (number 2)) no_fields)))
      (stmt_cons
        (set_to (var (codes "x")) (
          Expr.if_expr (at Kind.if_word) (binary Kind.gt (number 1) (number 2))
            (last (Expr.break_expr (at Kind.break)))
            (last (Expr.list_lit (at Kind.lbracket) (expr_cons (var (codes "x")) no_exprs)))))
        (last (Expr.in_ns (at Kind.in_ns) (last (var (codes "y"))))))

plus-IsOrdinary : IsOrdinary Kind.plus
plus-IsOrdinary = (λ h. cc, λ h. cc)

gt-IsOrdinary : IsOrdinary Kind.gt
gt-IsOrdinary = (λ h. cc, λ h. cc)

straight-AreStraightStmts : AreStraightStmts straight
unfolding AreStraightStmts
straight-AreStraightStmts = (
  ((plus-IsOrdinary, tt, tt), tt),
  ((tt, ((gt-IsOrdinary, tt, tt), (tt, tt), ((tt, tt), tt))), ((tt, tt), tt)),
)

eval_program-Returns_example :
    Returns (eval_program outside host (size_stmts straight) straight 0 first_state)
eval_program-Returns_example =
    eval_program-Returns host straight 0 first_state straight-AreStraightStmts

abbrev two_params : Params
two_params =
    param_cons (codes "n") Expr.missing (param_cons (codes "m") (var (codes "n")) no_params)

abbrev two_args : Vals
two_args = val_cons (Val.int (pos 3)) (val_cons (Val.int (pos 4)) no_vals)

bind_params-own_example :
    (scopes : Store Val) × (bind_params outside host
        (rules outside host 0)
        two_params
        two_args
        0
        first_state
      ≡ some (value Val.null, record first_state { scopes = scopes }))
    × ((e : ℕ) (name : Runes)
        → own scopes e name ≡ (
            if 0 == e
            then or_else (given two_params two_args name) (own first_state.scopes e name)
            else own first_state.scopes e name))
unfolding max_arity length_vals
bind_params-own_example =
    bind_params-own outside host (rules outside host 0) two_params two_args 0 first_state
      (omega arith) (omega arith)

call_closure-refusal_example :
    call_closure outside host
      (rules outside host 5)
      two_params
      (last (var (codes "m")))
      0
      no_vals
      first_state
    ≡ some (raised (Signal.failed (EvalError.wrong_arity 1 2 0)), first_state)
unfolding min_arity max_arity length_vals
call_closure-refusal_example =
    call_closure-refusal outside host (rules outside host 5) two_params (last (var (codes "m"))) 0
      no_vals first_state

-- bind, and a break out of in_ns
abbrev binding : Stmts
binding =
    stmt_cons (Stmt.unbind_stmt (at Kind.unbind) (number 1))
      (last (Expr.break_expr (at Kind.break)))

abbrev after_in_ns : State outside
after_in_ns = state_of (eval_in_ns outside host (rules outside host 2) binding 0 first_state)

eval_in_ns-namespace_example :
    (after_in_ns.namespace ≡ some 1)
    × ((prev : ℕ)
        → some 1 ≡ some prev
        → RanIn outside host
            (rules outside host 2)
            binding
            0
            first_state
            (raised Signal.broke)
            after_in_ns
            prev)
unfolding eval_in_ns child_of eval_block rules
eval_in_ns-namespace_example =
    eval_in_ns-namespace outside host (rules outside host 2) binding 0 first_state
      (raised Signal.broke) after_in_ns refl
