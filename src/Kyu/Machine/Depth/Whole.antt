-- ===== src/Kyu/Machine/Depth/Whole.antt =====
-- callDepth of kyu/eval/callable.go over whole programs.
use sh.Prelude.{ℕ, zero, suc, ◌≡◌, refl, sym, none}
use sh.Kyu.Ast.{Expr, Stmts}
use sh.Kyu.Value.Record.{new_record}
use sh.Kyu.Machine.{no_vals, Outside, backings, State}
use sh.Kyu.Machine.Values.{unary_val, is_true}
use sh.Kyu.Machine.Host.{Rules, Host, store_record}
use sh.Kyu.Machine.Forms.{
  eval_record_lit, eval_list_like, eval_field_access, eval_err_check, eval_unary,
}
use sh.Kyu.Machine.Control.{eval_if}
use sh.Kyu.Machine.Whole.{expr_step, rules, eval_program}
use sh.Kyu.Machine.Depth.{
  At, no_outcome, ended, bind-At, Keeps, HostKeeps, expr-At, eval_exprs-At, read_var-At,
  eval_block-At, call_step-At,
}
use sh.Kyu.Machine.Depth.Forms.{
  of_result-At, eval_fields-At, access-At, call_with-At, pipe_into-At, checked-At, branch-At,
  loop-At, loop_step-At, eval_binary-At, eval_in_ns-At,
}

module _ {O : Outside} (H : Host O) (host : HostKeeps H) (R : Rules O) (keeps : Keeps R) where
  expr_step-At :
      {d : ℕ} (x : Expr) (e : ℕ) (st : State O) → st.call_depth ≡ d → At d (expr_step O H R x e st)
  unfolding expr_step eval_record_lit eval_list_like eval_field_access eval_err_check eval_unary
      eval_if store_record
  expr_step-At Expr.missing e st h = ended h
  expr_step-At (Expr.ident t name) e st h = read_var-At H host R keeps e name st h
  expr_step-At (Expr.int_lit t n) e st h = ended h
  expr_step-At (Expr.float_lit t x) e st h = ended h
  expr_step-At (Expr.string_lit t x) e st h = ended h
  expr_step-At (Expr.bool_lit t b) e st h = ended h
  expr_step-At (Expr.null_lit t) e st h = ended h
  expr_step-At (Expr.duration_lit t x n) e st h = ended h
  expr_step-At (Expr.path_lit t p) e st h = ended h
  expr_step-At (Expr.record_lit t fs) e st h =
      bind-At (eval_fields-At H host R keeps fs e (new_record (backings O)) st h)
        (λ r st1 h1. ended h1)
  expr_step-At (Expr.table_lit t rows) e st h =
      bind-At (eval_exprs-At H host R keeps rows e st h) (λ vs st1 h1. ended h1)
  expr_step-At (Expr.list_lit t xs) e st h =
      bind-At (eval_exprs-At H host R keeps xs e st h) (λ vs st1 h1. ended h1)
  expr_step-At (Expr.closure t ps body) e st h = ended h
  expr_step-At (Expr.field_access t recv field) e st h =
      bind-At (expr-At H host R keeps recv e st h)
        (λ r st1 h1. access-At H host R keeps field r st1 h1)
  expr_step-At (Expr.call t fn args) e st h = call_with-At H host R keeps fn args no_vals e st h
  expr_step-At (Expr.external_call t name x args) e st h =
      rw (sym h) (host.external R keeps (Expr.external_call t name x args) none e st)
  expr_step-At (Expr.pipe_expr t l r) e st h =
      bind-At (expr-At H host R keeps l e st h)
        (λ v st1 h1. pipe_into-At H host R keeps r v e st1 h1)
  expr_step-At (Expr.binary_expr t op l r) e st h = eval_binary-At H host R keeps op l r e st h
  expr_step-At (Expr.unary_expr t op x) e st h =
      bind-At (expr-At H host R keeps x e st h)
        (λ v st1 h1. of_result-At H host R keeps (unary_val H.number op v) st1 h1)
  expr_step-At (Expr.err_check t x) e st h =
      bind-At (expr-At H host R keeps x e st h) (λ v st1 h1. checked-At H host R keeps v st1 h1)
  expr_step-At (Expr.if_expr t c a b) e st h =
      bind-At (expr-At H host R keeps c e st h)
        (λ v st1 h1. branch-At H host R keeps a b e (is_true v) st1 h1)
  expr_step-At (Expr.while_expr t c body) e st h = loop-At H host R keeps c body e st h
  expr_step-At (Expr.break_expr t) e st h = ended h
  expr_step-At (Expr.continue_expr t) e st h = ended h
  expr_step-At (Expr.background t x b) e st h =
      rw (sym h) (host.background R keeps (Expr.background t x b) e st)
  expr_step-At (Expr.at_host t name x body) e st h =
      rw (sym h) (host.at_host R keeps (Expr.at_host t name x body) e st)
  expr_step-At (Expr.in_ns t body) e st h = eval_in_ns-At H host R keeps body e st h

module _ {O : Outside} (H : Host O) (host : HostKeeps H) where
  rules-Keeps : (fuel : ℕ) → Keeps (rules O H fuel)
  unfolding rules
  rules-Keeps zero = record {
    expr = λ x e st. no_outcome;
    call = λ f args st. no_outcome;
    loop = λ c body e st. no_outcome;
  }
  rules-Keeps (suc fuel) = record {
    expr = λ x e st. expr_step-At H host (rules O H fuel) (rules-Keeps fuel) x e st refl;
    call = λ f args st. call_step-At H host (rules O H fuel) (rules-Keeps fuel) f args st refl;
    loop = λ c body e st. loop_step-At H host (rules O H fuel) (rules-Keeps fuel) c body e st refl;
  }

  -- Where what is not modelled leaves the depth of calls as it is if the calls that it makes do, a program
  -- that ends leaves it as it was: with a value, an error, a break or a continue, and however many calls,
  -- loops and failures there were in it.
  pub eval_program-At :
      (fuel : ℕ) (program : Stmts) (e : ℕ) (st : State O)
      → At st.call_depth (eval_program O H fuel program e st)
  unfolding eval_program
  eval_program-At fuel program e st =
      eval_block-At H host (rules O H fuel) (rules-Keeps fuel) program e st refl
