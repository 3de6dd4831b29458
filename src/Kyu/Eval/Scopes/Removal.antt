-- ===== src/Kyu/Eval/Scopes/Removal.antt =====
-- Delete of kyu/eval/env.go, and unset of kyu/eval/vars.go.
use sh.Prelude.{
  ℕ, ◌<◌, ◌≡◌, refl, sym, ◌∙◌, inl, inr, Bool, true, false, ◌&&◌, Bool-cases, Option, none, some,
  Runes, same, same_iff, arith, if◌then◌else◌, ◌==◌, length,
}
use sh.Kyu.Eval.Scopes.{Store, own, parent_of, change_vars, drop_var, get, unset}
use sh.Kyu.Eval.Scopes.Store.{find_var-drop_var, own-change_vars, parent_of-change_vars, own-length}
use sh.Kyu.Eval.Scopes.Owner.{
  WellFormed, Owner, here, above, nowhere, read_at, get-Owner, delete-Owner,
}
use sh.Kyu.Eval.Scopes.Lookup.{is_owner}

module _ {V : Type 0} where
  abbrev dropped : Store V → ℕ → Runes → Store V
  dropped st o n = change_vars st o (λ vars. drop_var vars n)

  own-dropped :
      (st : Store V) (o : ℕ) (n m : Runes)
      → o < length st
      → (e : ℕ) → own (dropped st o n) e m ≡ (if (o == e) && same n m then none else own st e m)
  own-dropped st o n m h e =
      own-change_vars st o (λ vars. drop_var vars n) n m none h (λ vars. find_var-drop_var vars n m)
        e

  parent_of-dropped :
      (st : Store V) (o : ℕ) (n : Runes) (e : ℕ) → parent_of (dropped st o n) e ≡ parent_of st e
  parent_of-dropped st o n e = parent_of-change_vars st o e (λ vars. drop_var vars n)

  -- A name that has another owner, or that is another name, is found where it was.
  dropped-Owner :
      (st : Store V) (o : ℕ) (n m : Runes) (e : ℕ) (o' : Option ℕ)
      → o < length st
      → Owner st m e o'
      → (is_owner o o' && same n m) ≡ false
      → Owner (dropped st o n) m e o' × (read_at (dropped st o n) m o' ≡ read_at st m o')
  dropped-Owner st o n m e o' few (here h) off =
      let eq : own (dropped st o n) e m ≡ own st e m = rw off at (own-dropped st o n m few e) in
      (here (eq ∙ h), eq)
  dropped-Owner st o n m e o' few (above {p = p} h up w) off =
      let gone : own (dropped st o n) e m ≡ none = ground (arith, own-dropped st o n m few e, h) in
      let (w', same_read) = dropped-Owner st o n m p o' few w off in
      (above gone (parent_of-dropped st o n e ∙ up) w', same_read)
  dropped-Owner st o n m e o' few (nowhere h up) off =
      let gone : own (dropped st o n) e m ≡ none = ground (arith, own-dropped st o n m few e, h) in
      (nowhere gone (parent_of-dropped st o n e ∙ up), refl)

  dropped-WellFormed :
      (st : Store V) (o : ℕ) (n : Runes) → WellFormed st → WellFormed (dropped st o n)
  dropped-WellFormed st o n ok e p h = ok e p (sym (parent_of-dropped st o n e) ∙ h)

  -- In a store where every parent was made before its child, where the name `n` of scope `e` belongs to
  -- scope `o` and stands for `v` there: unset of `n` through `e` is an error if `v` is a builtin, and
  -- then `o` keeps it; else it returns true, and `o` no longer has `n`. In both cases Get of a name
  -- through any scope returns what it did, if the name is another one or belongs to another scope there.
  pub unset-get :
      (is_builtin : V → Bool) (st : Store V) (n : Runes) (e o : ℕ) (v : V) (m : Runes) (e' : ℕ)
      (o' : Option ℕ)
      → WellFormed st
      → Owner st n e (some o)
      → own st o n ≡ some v
      → Owner st m e' o'
      → (is_owner o o' && same n m) ≡ false
      → ((unset is_builtin st e n).0 ≡ (if is_builtin v then none else some true))
        × (own (unset is_builtin st e n).1 o n ≡ (if is_builtin v then some v else none))
        × (get (unset is_builtin st e n).1 e' m ≡ get st e' m)
  unfolding unset
  unset-get is_builtin st n e o v m e' o' ok w is w' off =
      let found : get st e n ≡ some v = get-Owner st n e (some o) ok w ∙ is in
      let few = own-length st o n v is in
      let (w₁, same_read) = dropped-Owner st o n m e' o' few w' off in
      elim (Bool-cases (is_builtin v)) [
        | inl b ↦
            let eq : unset is_builtin st e n ≡ (none, st) = rw (unset, found, b) refl in
            rw (eq, b) (refl, is, refl)
        | inr b ↦
            let removed = delete-Owner st n e (some o) ok w in
            let eq : unset is_builtin st e n ≡ (some true, dropped st o n) =
              rw (unset, found, b, removed) refl in
            rw (eq, b)
              (
                refl,
                own-dropped st o n n few o ∙ ground (arith, (same_iff n n).1 refl),
                get-Owner (dropped st o n) m e' o' (dropped-WellFormed st o n ok) w₁
                    ∙ same_read
                    ∙ sym (get-Owner st m e' o' ok w'),
              )
      ]
