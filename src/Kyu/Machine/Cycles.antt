-- ===== src/Kyu/Machine/Cycles.antt =====
-- Records of kyu/eval that contain themselves, as after `r.a = r`, under == and !=.
use sh.Prelude.{
  ℕ, zero, suc, ◌≡◌, refl, ap, ◌∙◌, ◌⊎◌, inl, inr, Bool, true, Option, none, some, List, ◌∷◌, Runes,
  length, ◌==◌, arith,
}
use sh.Kyu.Token.{Kind, Token}
use sh.Kyu.Ast.{Expr}
use sh.Kyu.Value.Record.{get}
use sh.Kyu.Eval.Scopes as Scopes
use sh.Kyu.Machine.{Val, Answer, Outside, backings, State, record_at}
use sh.Kyu.Machine.Values.{fields_if, equal_keys, equal_step}
use sh.Kyu.Machine.Host.{Rules, Host, read_var}
use sh.Kyu.Machine.Control.{eval_binary, eval_strict}
use sh.Kyu.Machine.Whole.{rules, expr_step}

-- The first field of a record is the record itself.
pub record HoldsItself {O : Outside} (st : State O) (a : ℕ) : Type 0 where
  pub key : Runes
  pub others : List Runes
  pub first : (record_at O st.records a).keys ≡ key ∷ others
  pub itself : get (backings O) (record_at O st.records a) st.world key ≡ some (Val.rec a)

module _ {O : Outside} (H : Host O) (st : State O) (a : ℕ) (cycle : HoldsItself st a) where
  first_field :
      (equal : State O → Val → Val → Option Bool)
      → equal st (Val.rec a) (Val.rec a) ≡ none
      → equal_keys O equal st
          (record_at O st.records a)
          (record_at O st.records a)
          (cycle.key ∷ cycle.others)
        ≡ none
  unfolding equal_keys
  first_field equal h = rw cycle.itself (rw h refl)

  equal-never_ends : (fuel : ℕ) → (rules O H fuel).equal st (Val.rec a) (Val.rec a) ≡ none
  unfolding rules equal_step
  equal-never_ends zero = refl
  equal-never_ends (suc fuel) =
      let r = record_at O st.records a in
      let same_length : (length r.keys == length r.keys) ≡ true = ground arith in
      ap (fields_if O (rules O H fuel).equal st r r) same_length
      ∙ ap (equal_keys O (rules O H fuel).equal st r r) cycle.first
      ∙ first_field (rules O H fuel).equal (equal-never_ends fuel)

  reads_itself :
      (fuel : ℕ) (t : Token) (e : ℕ) (name : Runes)
      → Scopes.get st.scopes e name ≡ some (Val.rec a)
      → (rules O H (suc fuel)).expr (Expr.ident t name) e st ≡ some (Answer.value (Val.rec a), st)
  unfolding rules expr_step read_var
  reads_itself fuel t e name h = rw h refl

  eval_strict-none :
      (R : Rules O) (op : Kind) (l r : Expr) (e : ℕ)
      → (op ≡ Kind.eq) ⊎ (op ≡ Kind.neq)
      → R.expr l e st ≡ some (Answer.value (Val.rec a), st)
      → R.expr r e st ≡ some (Answer.value (Val.rec a), st)
      → R.equal st (Val.rec a) (Val.rec a) ≡ none
      → eval_binary O H R op l r e st ≡ none
  unfolding eval_binary eval_strict
  eval_strict-none R op l r e (inl is) hl hr h = rw is (rw hl (rw hr (rw h refl)))
  eval_strict-none R op l r e (inr is) hl hr h = rw is (rw hl (rw hr (rw h refl)))

  -- A comparison with == or != of a variable with itself, where the variable is a record whose first field
  -- is that record, has no end: no fuel brings it to a value or to an error.
  pub eval_binary-never_ends :
      (fuel : ℕ) (t u w : Token) (op : Kind) (e : ℕ) (name : Runes)
      → (op ≡ Kind.eq) ⊎ (op ≡ Kind.neq)
      → Scopes.get st.scopes e name ≡ some (Val.rec a)
      → (rules O H fuel).expr (Expr.binary_expr t op (Expr.ident u name) (Expr.ident w name)) e st
        ≡ none
  unfolding rules expr_step
  eval_binary-never_ends zero t u w op e name is_equality h = refl
  eval_binary-never_ends (suc zero) t u w op e name is_equality h = out_of_fuel op is_equality
    where
      out_of_fuel :
          (op : Kind)
          → (op ≡ Kind.eq) ⊎ (op ≡ Kind.neq)
          → eval_binary O H (rules O H zero) op (Expr.ident u name) (Expr.ident w name) e st ≡ none
      out_of_fuel op (inl is) = unfold eval_binary eval_strict in rw is refl
      out_of_fuel op (inr is) = unfold eval_binary eval_strict in rw is refl
  eval_binary-never_ends (suc (suc fuel)) t u w op e name is_equality h =
      eval_strict-none (rules O H (suc fuel)) op (Expr.ident u name) (Expr.ident w name) e
        is_equality (reads_itself fuel u e name h) (reads_itself fuel w e name h)
        (equal-never_ends (suc fuel))
