-- ===== src/Kyu/Eval/Scopes/Names.antt =====
-- Names of kyu/eval/env.go, which completion and vars list.
use sh.Prelude.{
  ℕ, zero, suc, ◌≡◌, refl, sym, ◌∙◌, ap, true, ◌||◌, none, some, List, [], ◌∷◌, ◌++◌, Runes, same,
  same_iff, arith, Bool-cases, inl, inr,
}
use sh.Prelude.Distinct.{seen, seen-append, same_comm, Distinct, Distinct-append}
use sh.Kyu.Eval.Scopes.{
  Store, find_var, own, parent_of, vars_of, get_from, get, add_names, visible_from, visible_names,
}
use sh.Kyu.Eval.Scopes.Owner.{none_or_some}
use sh.Kyu.Eval.Scopes.Store.{is_some}

module _ {V : Type 0} where
  own-vars_of : (st : Store V) (e : ℕ) (m : Runes) → own st e m ≡ find_var (vars_of st e) m
  unfolding own find_var
  own-vars_of [] e m = refl
  own-vars_of (s ∷ st) zero m = refl
  own-vars_of (s ∷ st) (suc e) m = own-vars_of st e m

  seen-add_names :
      (vars : List (Runes × V)) (out : List Runes) (m : Runes)
      → seen m (add_names vars out) ≡ (seen m out || is_some (find_var vars m))
  unfolding add_names find_var
  seen-add_names [] out m = ground arith
  seen-add_names ((k, v) ∷ vars) out m = elim (Bool-cases (seen k out)) [
    | inl e ↦
        let known : same k m ≡ true → seen m out ≡ true = λ h. rw ((same_iff k m).0 h) at e in
        rw e (ground (arith, seen-add_names vars out m, known))
    | inr e ↦
        rw e (
          ground (arith, seen-add_names vars (out ++ k ∷ []) m, seen-append m k out, same_comm m k))
  ]

  Distinct-add_names :
      (vars : List (Runes × V)) (out : List Runes) → Distinct out → Distinct (add_names vars out)
  unfolding add_names
  Distinct-add_names [] out d = d
  Distinct-add_names ((k, v) ∷ vars) out d = elim (Bool-cases (seen k out)) [
    | inl e ↦ rw e (Distinct-add_names vars out d)
    | inr e ↦ rw e (Distinct-add_names vars (out ++ k ∷ []) (Distinct-append k out d e))
  ]

  Distinct-visible_from :
      (fuel : ℕ) (st : Store V) (e : ℕ) (out : List Runes)
      → Distinct out
      → Distinct (visible_from fuel st e out)
  unfolding visible_from
  Distinct-visible_from zero st e out d = d
  Distinct-visible_from (suc fuel) st e out d =
      let added = Distinct-add_names (vars_of st e) out d in
      elim (none_or_some (parent_of st e)) [
        | inl up ↦ rw (visible_from, up) added
        | inr (p, up) ↦
            rw (visible_from, up)
              (Distinct-visible_from fuel st p (add_names (vars_of st e) out) added)
      ]

  last_step :
      (fuel : ℕ) (st : Store V) (e : ℕ) (m : Runes)
      → parent_of st e ≡ none
      → is_some (own st e m) ≡ is_some (get_from (suc fuel) st e m)
  unfolding get_from
  last_step fuel st e m up = elim (none_or_some (own st e m)) [
    | inl h ↦ rw (get_from, h, up) refl
    | inr (v, h) ↦ rw (get_from, h) refl
  ]

  next_step :
      (fuel : ℕ) (st : Store V) (e p : ℕ) (m : Runes)
      → parent_of st e ≡ some p
      → is_some (get_from (suc fuel) st e m)
        ≡ (is_some (own st e m) || is_some (get_from fuel st p m))
  unfolding get_from
  next_step fuel st e p m up = elim (none_or_some (own st e m)) [
    | inl h ↦ rw (get_from, h, up) refl
    | inr (v, h) ↦ rw (get_from, h) refl
  ]

  seen-visible_from :
      (fuel : ℕ) (st : Store V) (e : ℕ) (out : List Runes) (m : Runes)
      → seen m (visible_from fuel st e out) ≡ (seen m out || is_some (get_from fuel st e m))
  unfolding visible_from get_from
  seen-visible_from zero st e out m = ground arith
  seen-visible_from (suc fuel) st e out m =
      let added = add_names (vars_of st e) out in
      let first : seen m added ≡ (seen m out || is_some (own st e m)) =
        seen-add_names (vars_of st e) out m
        ∙ ap (λ x. seen m out || is_some x) (sym (own-vars_of st e m)) in
      elim (none_or_some (parent_of st e)) [
        | inl up ↦
            rw (visible_from, up) (first ∙ ap (λ b. seen m out || b) (last_step fuel st e m up))
        | inr (p, up) ↦
            let rest = seen-visible_from fuel st p added m in
            let step = next_step fuel st e p m up in
            rw (visible_from, up) (ground (arith, first, rest, step))
      ]

  -- Names lists no name twice, and it lists exactly the names for which Get finds a value, in whatever
  -- order the variables of a scope are gone through.
  pub visible_names-get :
      (st : Store V) (e : ℕ) (m : Runes)
      → Distinct (visible_names st e) × (seen m (visible_names st e) ≡ is_some (get st e m))
  unfolding visible_names get
  visible_names-get st e m =
      (Distinct-visible_from (suc e) st e [] tt, seen-visible_from (suc e) st e [] m)
