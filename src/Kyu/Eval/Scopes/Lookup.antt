-- ===== src/Kyu/Eval/Scopes/Lookup.antt =====
-- What Get of kyu/eval/env.go returns behind NewEnv, Define and Set, in every scope.
use sh.Prelude.{
  ℕ, ◌<◌, ◌≡◌, refl, sym, ◌∙◌, ap, inl, inr, Bool, true, false, ◌&&◌, Bool-cases, Option, none,
  some, Runes, same, same_iff, arith, if◌then◌else◌, ◌==◌, length,
}
use sh.Kyu.Eval.Scopes.{Store, put_var, own, parent_of, new_env, define, get, set}
use sh.Kyu.Eval.Scopes.Store.{
  find_var-put_var, own-change_vars, parent_of-change_vars, own-length, parent_of-new_env,
}
use sh.Kyu.Eval.Scopes.Owner.{
  WellFormed, Owner, here, above, nowhere, read_at, get-Owner, set-Owner,
}

-- The number of the owner is that one.
abbrev pub is_owner : ℕ → Option ℕ → Bool
is_owner o none = false
is_owner o (some p) = o == p

pub hit : (o e : ℕ) (n m : Runes) → ((o == e) && same n m) ≡ true → (o ≡ e) × (n ≡ m)
hit o e n m h = (ground arith, (same_iff n m).0 (ground arith))

module _ {V : Type 0} where
  pub own-define :
      (st : Store V) (o : ℕ) (n m : Runes) (v : V)
      → o < length st
      → (e : ℕ) → own (define st o n v) e m ≡ (if (o == e) && same n m then some v else own st e m)
  unfolding define
  own-define st o n m v h e =
      own-change_vars st o (λ vars. put_var vars n v) n m (some v) h
        (λ vars. find_var-put_var vars n m v) e

  pub parent_of-define :
      (st : Store V) (o : ℕ) (n : Runes) (v : V) (e : ℕ)
      → parent_of (define st o n v) e ≡ parent_of st e
  unfolding define
  parent_of-define st o n v e = parent_of-change_vars st o e (λ vars. put_var vars n v)

  pub define-WellFormed :
      (st : Store V) (o : ℕ) (n : Runes) (v : V) → WellFormed st → WellFormed (define st o n v)
  define-WellFormed st o n v ok e p h = ok e p (sym (parent_of-define st o n v e) ∙ h)

  pub new_env-WellFormed :
      (st : Store V) (p : ℕ) → p < length st → WellFormed st → WellFormed (new_env st (some p)).1
  new_env-WellFormed st p few ok e q h = elim (Bool-cases (e == length st)) [
    | inl is ↦
        let at_end : e ≡ length st = ground arith in
        let parent : some p ≡ some q = rw is at (sym (parent_of-new_env st (some p) e) ∙ h) in
        let same_parent : p ≡ q = cc in omega (arith, few, at_end, same_parent)
    | inr other ↦ ok e q (rw other at (sym (parent_of-new_env st (some p) e) ∙ h))
  ]

  pub Owner-own :
      (st : Store V) (n : Runes) (e o : ℕ) → Owner st n e (some o) → (v : V) × (own st o n ≡ some v)
  Owner-own st n e _ (here {v = v} h) = (v, h)
  Owner-own st n e o (above {p = p} h up w) = Owner-own st n p o w

  own-define-some :
      (st : Store V) (o : ℕ) (n m : Runes) (v w u : V) (e : ℕ)
      → own st o n ≡ some w
      → own st e m ≡ some u
      → (u' : V) × (own (define st o n v) e m ≡ some u')
  own-define-some st o n m v w u e is h =
      let eq = own-define st o n m v (own-length st o n w is) e in
      elim (Bool-cases ((o == e) && same n m)) [
        | inl on ↦ (v, rw on at eq)
        | inr off ↦ (u, rw off at eq ∙ h)
      ]

  own-define-none :
      (st : Store V) (o : ℕ) (n m : Runes) (v w : V) (e : ℕ)
      → own st o n ≡ some w
      → own st e m ≡ none
      → own (define st o n v) e m ≡ none
  own-define-none st o n m v w e is h =
      let eq = own-define st o n m v (own-length st o n w is) e in
      elim (Bool-cases ((o == e) && same n m)) [
        | inl on ↦ let (oe, nm) = hit o e n m on in cc (oe, nm, is, h)
        | inr off ↦ rw off at eq ∙ h
      ]

  -- A new value in an owner leaves every name with its owner.
  define-Owner :
      (st : Store V) (o : ℕ) (n m : Runes) (v w : V) (e : ℕ) (o' : Option ℕ)
      → own st o n ≡ some w
      → Owner st m e o'
      → Owner (define st o n v) m e o'
  define-Owner st o n m v w e o' is (here {v = u} h) =
      let (u', h') = own-define-some st o n m v w u e is h in here h'
  define-Owner st o n m v w e o' is (above {p = p} h up below) =
      above (own-define-none st o n m v w e is h) (parent_of-define st o n v e ∙ up)
        (define-Owner st o n m v w p o' is below)
  define-Owner st o n m v w e o' is (nowhere h up) =
      nowhere (own-define-none st o n m v w e is h) (parent_of-define st o n v e ∙ up)

  read_at-define :
      (st : Store V) (o : ℕ) (n m : Runes) (v w : V) (o' : Option ℕ)
      → own st o n ≡ some w
      → read_at (define st o n v) m o'
        ≡ (if is_owner o o' && same n m then some v else read_at st m o')
  read_at-define st o n m v w none is = refl
  read_at-define st o n m v w (some p) is = own-define st o n m v (own-length st o n w is) p

  -- In a store where every parent was made before its child, where the name `n` of scope `e` belongs to
  -- scope `o`, Set of `n` through `e` returns true. Behind it Get of a name `m` through any scope `e'`
  -- returns the new value if `m` is `n` and belongs to `o` too, seen from `e'`; else it returns what it
  -- returned before.
  pub set-get :
      (st : Store V) (n : Runes) (e o : ℕ) (v : V) (m : Runes) (e' : ℕ) (o' : Option ℕ)
      → WellFormed st
      → Owner st n e (some o)
      → Owner st m e' o'
      → ((set st e n v).0 ≡ true)
        × (get (set st e n v).1 e' m ≡ (if is_owner o o' && same n m then some v else get st e' m))
  unfolding define
  set-get st n e o v m e' o' ok w w' =
      let (x, is) = Owner-own st n e o w in
      let after = define-Owner st o n m v x e' o' is w' in
      let kept = define-WellFormed st o n v ok in
      (
        ap (λ r. r.0) (set-Owner st n v e (some o) ok w),
        ap (λ r. get r.1 e' m) (set-Owner st n v e (some o) ok w)
            ∙ get-Owner (define st o n v) m e' o' kept after
            ∙ read_at-define st o n m v x o' is
            ∙ ap (λ r. if is_owner o o' && same n m then some v else r)
                (sym (get-Owner st m e' o' ok w')),
      )
