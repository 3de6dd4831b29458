-- ===== src/Kyu/Machine/Host.antt =====
-- What the evaluator of kyu/eval/eval.go calls that is not modelled (builtins, external commands, jobs,
-- remote hosts, binds), as a parameter; the recursive calls of the evaluator, as a record; and what it does
-- with scopes and records.
use sh.Prelude.{ℕ, Bool, true, false, Option, none, some, Runes, ◌⊎◌, inl, inr}
use sh.Kyu.Ast.{Stmts, Expr, Stmt}
use sh.Kyu.Value.Record.{Record, set_field, find}
use sh.Kyu.Eval.{EvalError, Result, ok, err}
use sh.Kyu.Eval.Scopes.{Store, new_env, define, set, get}
use sh.Kyu.Machine.{
  Val, Vals, Answer, Outside, backings, State, Eval, pure, fail, record_at, put_record,
}
use sh.Kyu.Machine.Values.{Float64, kind_of}
use sh.Prelude.{◌∷◌, [], ◌++◌, length}

-- The functions that the others call in a circle: evalExpr in a scope, call, the rounds of evalWhile, and
-- Equal.
pub record Rules (O : Outside) : Type 0 where
  pub expr : Expr → ℕ → Eval (State O) Val
  pub call : Val → Vals → Eval (State O) Val
  pub loop : Expr → Stmts → ℕ → Eval (State O) Val
  pub equal : State O → Val → Val → Option Bool

pub record Host (O : Outside) : Type 0 where
  -- the function of a Builtin, by its name; runExternal, with its stdin; evalAtHost; evalBackground;
  -- evalBindStmt and evalUnbindStmt
  pub builtin : Rules O → Runes → Vals → Eval (State O) Val
  pub external : Rules O → Expr → Option Val → ℕ → Eval (State O) Val
  pub at_host : Rules O → Expr → ℕ → Eval (State O) Val
  pub background : Rules O → Expr → ℕ → Eval (State O) Val
  pub namespace_stmt : Rules O → Stmt → ℕ → Eval (State O) Val
  -- ns.Namespace.Clone; and what CancelContext says, if it is done
  pub clone : O.Namespace → O.Namespace
  pub cancelled : O.World → Option Runes
  pub number : Float64
  -- `ReadField` of a live field, by a program that reads it. Reading `wait` of a job blocks until the job
  -- ends, and then makes a record, as reading `status` does: `none` is a read that has no end.
  pub live_read : O.Backing → State O → Option ((Val ⊎ Runes) × State O)

abbrev pub of_result : {S A : Type 0} → Result A → Eval S A
of_result (ok v) = pure v
of_result (err e) = fail e

module _ (O : Outside) where
  -- `NewEnv(env)`
  unfoldable pub child_of : ℕ → Eval (State O) ℕ
  unfolding new_env
  child_of e st =
      let (child, scopes) = new_env st.scopes (some e) in
      some (Answer.value child, record st { scopes = scopes })

  -- `env.Define(name, v)`
  unfoldable pub define_in : ℕ → Runes → Val → Eval (State O) Val
  unfolding define
  define_in e name v st =
      some (Answer.value Val.null, record st { scopes = define st.scopes e name v })

  abbrev pub found_var : Runes → Option Val → Eval (State O) Val
  found_var name (some v) = pure v
  found_var name none = fail (EvalError.undefined_variable name)

  -- The case of `evalExpr` for an identifier.
  unfoldable pub read_var : ℕ → Runes → Eval (State O) Val
  unfolding get
  read_var e name st = found_var name (get st.scopes e name) st

  abbrev pub after_set : Runes → State O → Bool × Store Val → Option (Answer Val × State O)
  after_set name st (true, scopes) = some (Answer.value Val.null, record st { scopes = scopes })
  after_set name st (false, scopes) = fail (EvalError.undefined_variable name) st

  -- The case of `evalAssign` for an identifier.
  unfoldable pub assign_var : ℕ → Runes → Val → Eval (State O) Val
  unfolding set
  assign_var e name v st = after_set name st (set st.scopes e name v)

  abbrev pub field_of : Runes → Option Val → Eval (State O) Val
  field_of field (some v) = pure v
  field_of field none = fail (EvalError.no_field field)

  -- What `Get` returns after a `ReadField`.
  abbrev pub after_read : Option ((Val ⊎ Runes) × State O) → Option (Answer Val × State O)
  after_read none = none
  after_read (some (inl v, st)) = pure v st
  after_read (some (inr msg, st)) = pure (Val.error_val msg) st

  -- `Get` of the record of a pointer and its field, by what `r.backing[field]` is
  abbrev pub read_record :
      Host O → Runes → Record (backings O) → Option O.Backing → Eval (State O) Val
  read_record H field r (some b) = λ st. after_read (H.live_read b st)
  read_record H field r none = field_of field (find r.vals field)

  -- `evalFieldAccess`, on the value of the receiver
  unfoldable pub access : Host O → Runes → Val → Eval (State O) Val
  unfolding find record_at
  access H field (Val.rec a) st =
      let r = record_at O st.records a in read_record H field r (find r.backing field) st
  access H field v st = fail (EvalError.not_a_record field (kind_of v)) st

  abbrev pub written : Runes → Option Runes → Eval (State O) Val
  written field none = pure Val.null
  written field (some msg) = fail (EvalError.write_failed field msg)

  -- The state behind a SetField on the record of a pointer.
  abbrev pub stored :
      Runes
      → ℕ
      → State O
      → Record (backings O) × O.World × Option Runes
      → Option (Answer Val × State O)
  stored field a st (r, world, e) =
      written field e (record st { records = put_record O st.records a r; world = world })

  -- The case of `evalAssign` for a field, on the value of the receiver.
  unfoldable pub assign_field : Runes → Val → Val → Eval (State O) Val
  unfolding set_field record_at put_record
  assign_field field v (Val.rec a) st =
      stored field a st (set_field (backings O) (record_at O st.records a) st.world field v)
  assign_field field v w st = fail (EvalError.cannot_assign field (kind_of w)) st

  -- A record that has just been made, with the number of its pointer.
  unfoldable pub store_record : Record (backings O) → Eval (State O) Val
  store_record r st =
      some
        (Answer.value (Val.rec (length st.records)), record st { records = st.records ++ r ∷ [] })
