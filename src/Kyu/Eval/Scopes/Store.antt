-- ===== src/Kyu/Eval/Scopes/Store.antt =====
-- The variables of one scope of kyu/eval/env.go, and changes of one scope of the store.
use sh.Prelude.{
  ℕ, zero, suc, ◌≡◌, refl, Bool, true, false, ◌&&◌, Option, none, some, List, [], ◌∷◌, Runes, same,
  same_iff, if◌then◌else◌, arith, ◌==◌, length, ◌<◌,
}
use sh.Kyu.Eval.Scopes.{Store, find_var, put_var, drop_var, own, parent_of, change_vars, new_env}

abbrev pub is_some : {A : Type 0} → Option A → Bool
is_some none = false
is_some (some v) = true

same_left : (k n m : Runes) → same k n ≡ true → same k m ≡ same n m
same_left k n m e = rw ((same_iff k n).0 e) refl

same_apart : (k n m : Runes) → same k n ≡ false → same n m ≡ true → same k m ≡ false
same_apart k n m e h = rw ((same_iff n m).0 h) at e

module _ {V : Type 0} where
  pub find_var-put_var :
      (vars : List (Runes × V)) (n m : Runes) (v : V)
      → find_var (put_var vars n v) m ≡ (if same n m then some v else find_var vars m)
  unfolding find_var put_var
  find_var-put_var [] n m v = refl
  find_var-put_var ((k, w) ∷ vars) n m v =
      ground (arith, find_var-put_var vars n m v, same_left k n m, same_apart k n m)

  pub find_var-drop_var :
      (vars : List (Runes × V)) (n m : Runes)
      → find_var (drop_var vars n) m ≡ (if same n m then none else find_var vars m)
  unfolding find_var drop_var
  find_var-drop_var [] n m = ground arith
  find_var-drop_var ((k, w) ∷ vars) n m =
      ground (arith, find_var-drop_var vars n m, same_left k n m, same_apart k n m)

  pub own-change_vars :
      (st : Store V) (e : ℕ) (f : List (Runes × V) → List (Runes × V)) (n m : Runes) (w : Option V)
      → e < length st
      → ((vars : List (Runes × V))
          → find_var (f vars) m ≡ (if same n m then w else find_var vars m))
      → (e' : ℕ)
      → own (change_vars st e f) e' m ≡ (if (e == e') && same n m then w else own st e' m)
  unfolding own change_vars
  own-change_vars [] e f n m w h k e' = absurd (omega (arith, h))
  own-change_vars (s ∷ st) zero f n m w h k zero = ground (arith, k s.vars)
  own-change_vars (s ∷ st) zero f n m w h k (suc e') = ground arith
  own-change_vars (s ∷ st) (suc e) f n m w h k zero = ground arith
  own-change_vars (s ∷ st) (suc e) f n m w h k (suc e') =
      ground (arith, own-change_vars st e f n m w (omega (arith, h)) k e')

  pub parent_of-change_vars :
      (st : Store V) (e e' : ℕ) (f : List (Runes × V) → List (Runes × V))
      → parent_of (change_vars st e f) e' ≡ parent_of st e'
  unfolding parent_of change_vars
  parent_of-change_vars [] e e' f = refl
  parent_of-change_vars (s ∷ st) zero zero f = refl
  parent_of-change_vars (s ∷ st) zero (suc e') f = refl
  parent_of-change_vars (s ∷ st) (suc e) zero f = refl
  parent_of-change_vars (s ∷ st) (suc e) (suc e') f = parent_of-change_vars st e e' f

  pub own-length : (st : Store V) (e : ℕ) (n : Runes) (v : V) → own st e n ≡ some v → e < length st
  unfolding own
  own-length [] e n v h = cc
  own-length (s ∷ st) zero n v h = omega arith
  own-length (s ∷ st) (suc e) n v h = omega (arith, own-length st e n v h)

  pub own-new_env :
      (st : Store V) (parent : Option ℕ) (e : ℕ) (n : Runes)
      → own (new_env st parent).1 e n ≡ own st e n
  unfolding own new_env find_var
  own-new_env [] parent zero n = refl
  own-new_env [] parent (suc e) n = refl
  own-new_env (s ∷ st) parent zero n = refl
  own-new_env (s ∷ st) parent (suc e) n = own-new_env st parent e n

  pub parent_of-new_env :
      (st : Store V) (parent : Option ℕ) (e : ℕ)
      → parent_of (new_env st parent).1 e ≡ (if e == length st then parent else parent_of st e)
  unfolding parent_of new_env
  parent_of-new_env [] parent zero = ground arith
  parent_of-new_env [] parent (suc e) = ground arith
  parent_of-new_env (s ∷ st) parent zero = ground arith
  parent_of-new_env (s ∷ st) parent (suc e) = ground (arith, parent_of-new_env st parent e)

  pub parent_of-length : (st : Store V) (e p : ℕ) → parent_of st e ≡ some p → e < length st
  unfolding parent_of
  parent_of-length [] e p h = cc
  parent_of-length (s ∷ st) zero p h = omega arith
  parent_of-length (s ∷ st) (suc e) p h = omega (arith, parent_of-length st e p h)
