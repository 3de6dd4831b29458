-- ===== src/Kyu/Machine.antt =====
-- The state of an evaluation of kyu/eval: values by reference, the records and scopes that they share, and
-- the answers of evalExpr. What the evaluator calls outside of itself is a parameter of the modules below, `Host`.
pub mod Values
pub mod Host
pub mod Calls
pub mod Forms
pub mod Control
pub mod Whole
pub mod Straight
pub mod Cycles
pub mod Depth
pub mod Closures
pub mod Namespaces
pub mod Sample
mod Runs
mod Tests
use sh.Prelude.{
  ℕ, zero, suc, ◌+◌, ◌-◌, Bool, true, false, Option, none, some, List, [], ◌∷◌, ◌++◌, ◌⊎◌, Runes,
  length,
}
use sh.Prelude.Int.{ℤ}
use sh.Kyu.Ast.{Params, Stmts, Expr, Stmt}
use sh.Kyu.Value.Record.{Backings, Record, new_record}
use sh.Kyu.Eval.{EvalError}
use sh.Kyu.Eval.Scopes.{Store}

mutual
  -- value.Value, with *Record as the number of a record; a float64 is its 64 bits. `other` is a value of
  -- another package, by its kind.
  pub data Val : Type 0 where
    null : Val
    bool : Bool → Val
    int : ℤ → Val
    float : ℕ → Val
    string : Runes → Val
    bytes : List ℕ → Val
    path : Runes → Val
    duration : ℤ → Val
    ref : Runes → Runes → Runes → Val
    error_val : Runes → Val
    ns_union : List Runes → Val
    mount : Runes → Runes → Val
    other : Runes → Val
    rec : ℕ → Val
    list : Vals → Val
    -- ClosureVal: the parameters and the body of its node, and its scope
    closure : Params → Stmts → ℕ → Val
    -- Builtin, by its name
    builtin : Runes → Val

  pub data Vals : Type 0 where
    no_vals : Vals
    val_cons : Val → Vals → Vals

-- The errors that evalExpr returns: break and continue are two of them.
pub data Signal : Type 0 where
  broke continued : Signal
  failed : EvalError → Signal

pub data Answer (A : Type 0) : Type 0 where
  value : A → Answer A
  raised : Signal → Answer A

-- The types of what lies outside: the files behind live fields, the namespace, and all the rest. `read_field`
-- is what Equal reads of a live field; a read by a program is `live_read` of the Host, which may block.
pub record Outside : Type 1 where
  pub World : Type 0
  pub Namespace : Type 0
  pub Backing : Type 0
  pub read_field : Backing → World → Val ⊎ Runes
  pub write_field : Backing → Val → World → World × Option Runes

-- No record is cloned here, so that `nil` is never read.
abbrev pub backings : Outside → Backings
backings O = record {
  Value = Val;
  Backing = O.Backing;
  World = O.World;
  read_field = O.read_field;
  write_field = O.write_field;
  error_val = λ msg. Val.error_val msg;
  nil = Val.null;
}

-- The scopes and records that have been made, and `callDepth`, `lastExitCode` and `ns` of the root.
pub record State (O : Outside) : Type 0 where
  pub scopes : Store Val
  pub records : List (Record (backings O))
  pub call_depth : ℕ
  pub last_exit_code : Option ℤ
  pub namespace : Option O.Namespace
  pub world : O.World

-- A computation over a state that may run out of fuel, and then is `none`.
abbrev pub Eval : Type 0 → Type 0 → Type 0
Eval S A = S → Option (Answer A × S)

module _ {S : Type 0} where
  abbrev pub pure : {A : Type 0} → A → Eval S A
  pure a st = some (Answer.value a, st)

  abbrev pub raise : {A : Type 0} → Signal → Eval S A
  raise s st = some (Answer.raised s, st)

  abbrev pub fail : {A : Type 0} → EvalError → Eval S A
  fail e = raise (Signal.failed e)

  -- What an operation that looks at every outcome does next.
  abbrev pub on_outcome :
      {A B : Type 0} → Option (Answer A × S) → (Answer A → Eval S B) → Option (Answer B × S)
  on_outcome none k = none
  on_outcome (some (a, st)) k = k a st

  abbrev pub go_on : {A B : Type 0} → (A → Eval S B) → Answer A → Eval S B
  go_on f (Answer.value a) = f a
  go_on f (Answer.raised s) = raise s

  infixl 1 ◌>>=◌ ◌>>◌
  abbrev pub ◌>>=◌ : {A B : Type 0} → Eval S A → (A → Eval S B) → Eval S B
  m >>= f = λ st. on_outcome (m st) (go_on f)

  abbrev pub ◌>>◌ : {A B : Type 0} → Eval S A → Eval S B → Eval S B
  m >> k = m >>= λ _. k

  abbrev pub state : Eval S S
  state st = some (Answer.value st, st)

  abbrev pub update : (S → S) → Eval S (Unit {0})
  update f st = some (Answer.value tt, f st)

  -- An answer that has been computed already.
  abbrev pub give : {A : Type 0} → Answer A → Eval S A
  give a st = some (a, st)

module _ (O : Outside) where
  -- The record behind a pointer; every pointer is that of a record that has been made.
  unfoldable pub record_at : List (Record (backings O)) → ℕ → Record (backings O)
  record_at [] a = new_record (backings O)
  record_at (r ∷ rs) zero = r
  record_at (r ∷ rs) (suc a) = record_at rs a

  unfoldable pub put_record :
      List (Record (backings O)) → ℕ → Record (backings O) → List (Record (backings O))
  put_record [] a changed = []
  put_record (r ∷ rs) zero changed = changed ∷ rs
  put_record (r ∷ rs) (suc a) changed = r ∷ put_record rs a changed
