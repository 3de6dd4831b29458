-- ===== src/Kyu/Eval/Scopes.antt =====
-- The scopes of kyu/eval/env.go, and unset of kyu/eval/vars.go. An *Env is its number in a store of
-- scopes; a scope has its own variables, by different names, and the number of its parent. A value is a
-- parameter. A walk to the root takes the number of its first scope, and one, as its fuel.
pub mod Store
pub mod Owner
pub mod Lookup
pub mod Child
pub mod Removal
pub mod Names
use sh.Prelude.{
  ℕ, zero, suc, ◌+◌, Bool, true, false, not, Option, none, some, List, [], ◌∷◌, ◌++◌, Runes, same,
  length, if◌then◌else◌,
}
use sh.Prelude.Distinct.{seen}

pub record Scope (V : Type 0) : Type 0 where
  pub vars : List (Runes × V)
  pub parent : Option ℕ

abbrev pub Store : Type 0 → Type 0
Store V = List (Scope V)

module _ {V : Type 0} where
  unfoldable pub find_var : List (Runes × V) → Runes → Option V
  find_var [] name = none
  find_var ((k, v) ∷ vars) name =
      let rest = find_var vars name in if same k name then some v else rest

  -- `vars[name] = v`
  unfoldable pub put_var : List (Runes × V) → Runes → V → List (Runes × V)
  put_var [] name v = (name, v) ∷ []
  put_var ((k, w) ∷ vars) name v =
      let rest = put_var vars name v in if same k name then (name, v) ∷ vars else (k, w) ∷ rest

  -- `delete(vars, name)`
  unfoldable pub drop_var : List (Runes × V) → Runes → List (Runes × V)
  drop_var [] name = []
  drop_var ((k, w) ∷ vars) name =
      let rest = drop_var vars name in if same k name then rest else (k, w) ∷ rest

  abbrev pub vars_of : Store V → ℕ → List (Runes × V)
  vars_of [] e = []
  vars_of (s ∷ st) zero = s.vars
  vars_of (s ∷ st) (suc e) = vars_of st e

  -- What a scope has under a name, and its parent.
  unfoldable pub own : Store V → ℕ → Runes → Option V
  unfolding find_var
  own [] e name = none
  own (s ∷ st) zero name = find_var s.vars name
  own (s ∷ st) (suc e) name = own st e name

  unfoldable pub parent_of : Store V → ℕ → Option ℕ
  parent_of [] e = none
  parent_of (s ∷ st) zero = s.parent
  parent_of (s ∷ st) (suc e) = parent_of st e

  unfoldable pub change_vars : Store V → ℕ → (List (Runes × V) → List (Runes × V)) → Store V
  change_vars [] e f = []
  change_vars (s ∷ st) zero f = record s { vars = f s.vars } ∷ st
  change_vars (s ∷ st) (suc e) f = s ∷ change_vars st e f

  -- `NewEnv`, with the number of the new scope
  unfoldable pub new_env : Store V → Option ℕ → ℕ × Store V
  new_env st parent = (length st, st ++ record { vars = []; parent = parent } ∷ [])

  -- `Define`
  unfoldable pub define : Store V → ℕ → Runes → V → Store V
  unfolding change_vars put_var
  define st e name v = change_vars st e (λ vars. put_var vars name v)

  -- `Get`
  unfoldable pub get_from : ℕ → Store V → ℕ → Runes → Option V
  unfolding own parent_of
  get_from zero st e name = none
  get_from (suc fuel) st e name = elim (own st e name) [
    | some v ↦ some v
    | none ↦ elim (parent_of st e) [ none ↦ none | some p ↦ get_from fuel st p name ]
  ]

  unfoldable pub get : Store V → ℕ → Runes → Option V
  unfolding get_from
  get st e name = get_from (suc e) st e name

  -- `Set`
  unfoldable pub set_from : ℕ → Store V → ℕ → Runes → V → Bool × Store V
  unfolding own parent_of define
  set_from zero st e name v = (false, st)
  set_from (suc fuel) st e name v = elim (own st e name) [
    | some w ↦ (true, define st e name v)
    | none ↦ elim (parent_of st e) [ none ↦ (false, st) | some p ↦ set_from fuel st p name v ]
  ]

  unfoldable pub set : Store V → ℕ → Runes → V → Bool × Store V
  unfolding set_from
  set st e name v = set_from (suc e) st e name v

  -- `Delete`
  unfoldable pub delete_from : ℕ → Store V → ℕ → Runes → Bool × Store V
  unfolding own parent_of change_vars drop_var
  delete_from zero st e name = (false, st)
  delete_from (suc fuel) st e name = elim (own st e name) [
    | some w ↦ (true, change_vars st e (λ vars. drop_var vars name))
    | none ↦ elim (parent_of st e) [ none ↦ (false, st) | some p ↦ delete_from fuel st p name ]
  ]

  unfoldable pub delete : Store V → ℕ → Runes → Bool × Store V
  unfolding delete_from
  delete st e name = delete_from (suc e) st e name

  -- The inner loop of `Names`, over the keys in the order of the list.
  unfoldable pub add_names : List (Runes × V) → List Runes → List Runes
  add_names [] out = out
  add_names ((k, v) ∷ vars) out = add_names vars (if seen k out then out else out ++ k ∷ [])

  -- `Names`
  unfoldable pub visible_from : ℕ → Store V → ℕ → List Runes → List Runes
  unfolding add_names parent_of
  visible_from zero st e out = out
  visible_from (suc fuel) st e out =
      let added = add_names (vars_of st e) out in
      elim (parent_of st e) [ none ↦ added | some p ↦ visible_from fuel st p added ]

  unfoldable pub visible_names : Store V → ℕ → List Runes
  unfolding visible_from
  visible_names st e = visible_from (suc e) st e []

  -- The answer of `biUnset` on a name: none is its error for a builtin. `is_builtin` is the test on the
  -- type of a value.
  unfoldable pub unset : (V → Bool) → Store V → ℕ → Runes → Option Bool × Store V
  unfolding get delete
  unset is_builtin st e name =
      let (found, after) = delete st e name in
      elim (get st e name) [
        | some v ↦ if is_builtin v then (none, st) else (some found, after)
        | none ↦ (some found, after)
      ]
