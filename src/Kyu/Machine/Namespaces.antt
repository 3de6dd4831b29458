-- ===== src/Kyu/Machine/Namespaces.antt =====
-- The namespace around in_ns of kyu/eval/inns.go.
use sh.Prelude.{ℕ, ◌≡◌, refl, sym, subst, ap, ◌∙◌, Option, none, some}
use sh.Kyu.Ast.{Stmts}
use sh.Kyu.Eval.{EvalError}
use sh.Kyu.Machine.{Val, Signal, Answer, Outside, State, on_outcome}
use sh.Kyu.Machine.Host.{Rules, Host}
use sh.Kyu.Machine.Control.{eval_scoped, swap_back, in_clone, eval_in_ns}

some_inj : {A : Type 0} (a b : A) → some a ≡ some b → a ≡ b
some_inj a b h = cc

module _ (O : Outside) (H : Host O) (R : Rules O) where
  swapped :
      (prev : O.Namespace) {o : Option (Answer Val × State O)} {a : Answer Val} {st' : State O}
      → on_outcome o (swap_back O H (some prev)) ≡ some (a, st')
      → (st1 : State O) × (o ≡ some (a, st1)) × (st' ≡ record st1 { namespace = some prev })
  unfolding swap_back
  swapped prev {o = none} h = cc
  swapped prev {o = some (b, st1)} {a} {st'} h =
      let pair : ◌≡◌ {A = Answer Val × State O} (b, record st1 { namespace = some prev }) (a, st') =
        cc in
      (st1, ap (λ x. some (x, st1)) (ap (λ x. x.0) pair), sym (ap (λ x. x.1) pair))

  -- What the block, in a scope of its own and in the clone of a namespace, ends with; and that namespace.
  abbrev pub RanIn : Stmts → ℕ → State O → Answer Val → State O → O.Namespace → Type 0
  RanIn body e st a st' prev =
      (st1 : State O) × (eval_scoped O H R body e (record st { namespace = some (H.clone prev) })
        ≡ some (a, st1))
      × (st' ≡ record st1 { namespace = some prev })

  -- Whatever in_ns ends with, a value, an error, break or continue, the namespace is behind it what it was
  -- before; and with a namespace, it ends with what the block in a scope of its own ends with in the clone of
  -- that namespace, in the same state but for the namespace.
  pub eval_in_ns-namespace :
      (body : Stmts) (e : ℕ) (st : State O) (a : Answer Val) (st' : State O)
      → eval_in_ns O H R body e st ≡ some (a, st')
      → (st'.namespace ≡ st.namespace)
        × ((prev : O.Namespace) → st.namespace ≡ some prev → RanIn body e st a st' prev)
  unfolding eval_in_ns in_clone
  eval_in_ns-namespace body e st a st' h = by_namespace st.namespace refl h
    where
      by_namespace :
          (n : Option O.Namespace)
          → st.namespace ≡ n
          → in_clone O H R n body e st ≡ some (a, st')
          → (st'.namespace ≡ n)
            × ((prev : O.Namespace) → n ≡ some prev → RanIn body e st a st' prev)
      by_namespace none eq is =
          let pair : ◌≡◌ {A = Answer Val × State O}
              (Answer.raised (Signal.failed EvalError.no_namespace), st) (a, st') =
            cc in
          (ap (λ (x : Answer Val × State O). x.1.namespace) (sym pair) ∙ eq, λ prev same_ns. cc)
      by_namespace (some n) eqn is =
          let run = swapped n is in
          (
            ap (λ (s : State O). s.namespace) run.2,
            λ prev same_ns. subst (RanIn body e st a st') (some_inj n prev same_ns) run,
          )
