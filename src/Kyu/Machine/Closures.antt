-- ===== src/Kyu/Machine/Closures.antt =====
-- The tests and parameters of a closure's call in kyu/eval/callable.go.
use sh.Prelude.{
  ℕ, zero, suc, List, [], ◌∷◌, ◌+◌, ◌-◌, ◌<◌, ◌≤◌, ◌≡◌, refl, ap, Bool, true, false, ◌||◌, Option,
  none, some, Runes, same, length, ltb, leb, ◌==◌, if◌then◌else◌, arith,
}
use sh.Kyu.Ast.{Params, no_params, param_cons, Stmts}
use sh.Kyu.Eval.{EvalError}
use sh.Kyu.Eval.Scopes.{Store, own, define, change_vars, put_var}
use sh.Kyu.Eval.Scopes.Lookup.{own-define}
use sh.Kyu.Machine.{Val, Vals, no_vals, val_cons, Signal, Answer, Outside, State, on_outcome, go_on}
use sh.Kyu.Machine.Host.{Rules, Host, define_in}
use sh.Kyu.Machine.Values.{length_vals}
use sh.Kyu.Machine.Calls.{
  bind_params, run_body, by_arity, run_closure, call_closure, min_arity, max_arity, max_call_depth,
  enter, enter_if, leave, go_unless,
}

length-change_vars :
    {V : Type 0} (st : Store V) (e : ℕ) (f : List (Runes × V) → List (Runes × V))
    → length (change_vars st e f) ≡ length st
unfolding change_vars
length-change_vars [] e f = refl
length-change_vars (s ∷ st) zero f = refl
length-change_vars (s ∷ st) (suc e) f = ap suc (length-change_vars st e f)

length-define :
    {V : Type 0} (st : Store V) (e : ℕ) (name : Runes) (v : V)
    → length (define st e name v) ≡ length st
unfolding define
length-define st e name v = length-change_vars st e (λ vars. put_var vars name v)

-- The value of the last parameter of a name, of those that have an argument.
unfoldable pub given : Params → Vals → Runes → Option Val
given (param_cons n default ps) (val_cons v vs) name = elim (given ps vs name) [
  | some w ↦ some w
  | none ↦ if same n name then some v else none
]
given no_params vs name = none
given ps no_vals name = none

abbrev pub or_else : Option Val → Option Val → Option Val
or_else (some v) o = some v
or_else none o = o

-- A scope with the parameters that have an argument.
define_all : Params → Vals → ℕ → Store Val → Store Val
define_all (param_cons n default ps) (val_cons v vs) child scopes =
    define_all ps vs child (define scopes child n v)
define_all no_params vs child scopes = scopes
define_all ps no_vals child scopes = scopes

own-define_all :
    (ps : Params) (vs : Vals) (child : ℕ) (scopes : Store Val) (e : ℕ) (name : Runes)
    → child < length scopes
    → own (define_all ps vs child scopes) e name
      ≡ (if child == e then or_else (given ps vs name) (own scopes e name) else own scopes e name)
unfolding define_all given
own-define_all no_params vs child scopes e name h = ground arith
own-define_all (param_cons n default ps) no_vals child scopes e name h = ground arith
own-define_all (param_cons n default ps) (val_cons v vs) child scopes e name h = ground (
  arith,
  own-define_all ps vs child (define scopes child n v) e name
      (omega (arith, h, length-define scopes child n v)),
  own-define scopes child n name v h e,
)

module _ (O : Outside) (H : Host O) (R : Rules O) where
  bind_params-given :
      (ps : Params) (vs : Vals) (child : ℕ) (st : State O)
      → max_arity ps ≤ length_vals vs
      → bind_params O H R ps vs child st
        ≡ some (Answer.value Val.null, record st { scopes = define_all ps vs child st.scopes })
  unfolding bind_params define_all max_arity length_vals define_in
  bind_params-given no_params vs child st h = refl
  bind_params-given (param_cons n default ps) no_vals child st h = absurd (omega (arith, h))
  bind_params-given (param_cons n default ps) (val_cons v vs) child st h =
      bind_params-given ps vs child (record st { scopes = define st.scopes child n v })
        (omega (arith, h))

  -- With an argument for every parameter, callClosure's loop over the parameters evaluates no default and
  -- changes no state but the variables of the new scope, where it leaves under each parameter's name the
  -- argument of the last parameter of that name, and every other name, there and in every other scope, as
  -- it was.
  pub bind_params-own :
      (ps : Params) (vs : Vals) (child : ℕ) (st : State O)
      → child < length st.scopes
      → max_arity ps ≤ length_vals vs
      → (scopes : Store Val) × (bind_params O H R ps vs child st
          ≡ some (Answer.value Val.null, record st { scopes = scopes }))
        × ((e : ℕ) (name : Runes)
            → own scopes e name ≡ (
                if child == e
                then or_else (given ps vs name) (own st.scopes e name)
                else own st.scopes e name))
  bind_params-own ps vs child st h all_given = (
    define_all ps vs child st.scopes,
    bind_params-given ps vs child st all_given,
    λ e name. own-define_all ps vs child st.scopes e name h,
  )

  -- The first of the three tests of a call that fails.
  abbrev pub refusal_by : Option Runes → Bool → Bool → EvalError → Option EvalError
  refusal_by (some msg) too_deep wrong arity = some (EvalError.cancelled msg)
  refusal_by none true wrong arity = some EvalError.nested_too_deep
  refusal_by none false true arity = some arity
  refusal_by none false false arity = none

  abbrev pub refusal : Params → Vals → State O → Option EvalError
  refusal ps vs st =
      refusal_by (H.cancelled st.world) (leb max_call_depth st.call_depth)
        (ltb (length_vals vs) (min_arity ps) || ltb (max_arity ps) (length_vals vs))
        (EvalError.wrong_arity (min_arity ps) (max_arity ps) (length_vals vs))

  refused :
      (ps : Params) (body : Stmts) (e : ℕ) (vs : Vals) (st : State O) (deep wrong : Bool)
      → on_outcome
          (enter_if O H deep st)
          (go_on λ w st2. on_outcome (by_arity O H R wrong ps body e vs st2) (leave O H))
        ≡ elim (refusal_by none deep wrong
            (EvalError.wrong_arity (min_arity ps) (max_arity ps) (length_vals vs))) [
              | some err ↦ some (Answer.raised (Signal.failed err), st)
              | none ↦
                  on_outcome
                    (run_body O H R ps body e vs (record st { call_depth = st.call_depth + 1 }))
                    (leave O H)
            ]
  unfolding leave
  refused ps body e vs st true wrong = refl
  refused ps body e vs st false true =
      let back : st.call_depth + 1 - 1 ≡ st.call_depth = omega arith in
      ap
        (λ d. some (
          Answer.raised (
              Signal.failed (EvalError.wrong_arity (min_arity ps) (max_arity ps) (length_vals vs))),
          record st { call_depth = d },
        ))
        back
  refused ps body e vs st false false = refl

  -- A call of a closure fails where the evaluation is cancelled, else where calls are nested 10000 deep, else
  -- where there are fewer arguments than parameters without a default or more than parameters; each of these
  -- failures leaves the state as it was. Where none of the three holds, the call is the run of the body one
  -- level deeper, and the level is taken back from whatever state that ends in.
  pub call_closure-refusal :
      (ps : Params) (body : Stmts) (e : ℕ) (vs : Vals) (st : State O)
      → call_closure O H R ps body e vs st ≡ elim (refusal ps vs st) [
        | some err ↦ some (Answer.raised (Signal.failed err), st)
        | none ↦
            on_outcome
              (run_body O H R ps body e vs (record st { call_depth = st.call_depth + 1 }))
              (leave O H)
      ]
  unfolding call_closure run_closure enter
  call_closure-refusal ps body e vs st = by_world (H.cancelled st.world)
    where
      wrong : Bool
      wrong = ltb (length_vals vs) (min_arity ps) || ltb (max_arity ps) (length_vals vs)

      by_world :
          (c : Option Runes)
          → on_outcome (go_unless O H c st) (
              go_on λ u st1.
                on_outcome
                  (enter O H st1)
                  (go_on λ w st2. on_outcome (run_closure O H R ps body e vs st2) (leave O H)))
            ≡ elim (refusal_by c
                (leb max_call_depth st.call_depth)
                wrong
                (EvalError.wrong_arity (min_arity ps) (max_arity ps) (length_vals vs))) [
                  | some err ↦ some (Answer.raised (Signal.failed err), st)
                  | none ↦
                      on_outcome
                        (run_body O H R ps body e vs (record st { call_depth = st.call_depth + 1 }))
                        (leave O H)
                ]
      by_world (some msg) = refl
      by_world none = refused ps body e vs st (leb max_call_depth st.call_depth) wrong
