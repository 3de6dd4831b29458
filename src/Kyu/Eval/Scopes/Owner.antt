-- ===== src/Kyu/Eval/Scopes/Owner.antt =====
-- Which scope a name belongs to in kyu/eval/env.go, and the walks of Get, Set and Delete to it.
use sh.Prelude.{
  ℕ, zero, suc, ◌<◌, ◌≡◌, refl, ◌⊎◌, inl, inr, Bool, true, false, Option, none, some, List, Runes,
  arith,
}
use sh.Kyu.Eval.Scopes.{
  Store, own, parent_of, change_vars, define, put_var, drop_var, get_from, get, set_from, set,
  delete_from, delete,
}

pub none_or_some : {A : Type 0} (x : Option A) → (x ≡ none) ⊎ ((a : A) × (x ≡ some a))
none_or_some none = inl refl
none_or_some (some a) = inr (a, refl)

module _ {V : Type 0} where
  -- Every parent was made before its child.
  abbrev pub WellFormed : Store V → Type 0
  WellFormed st = (e p : ℕ) → parent_of st e ≡ some p → p < e

  -- The scope that a name of scope `e` belongs to: the first on the way to the root that has it.
  pub data Owner (st : Store V) (name : Runes) : ℕ → Option ℕ → Type 0 where
    here : {e : ℕ} {v : V} → own st e name ≡ some v → Owner st name e (some e)
    above :
        {e p : ℕ} {o : Option ℕ}
        → own st e name ≡ none
        → parent_of st e ≡ some p
        → Owner st name p o
        → Owner st name e o
    nowhere : {e : ℕ} → own st e name ≡ none → parent_of st e ≡ none → Owner st name e none

  -- What stands in the owner.
  abbrev pub read_at : Store V → Runes → Option ℕ → Option V
  read_at st name none = none
  read_at st name (some o) = own st o name

  get_from-Owner :
      (fuel : ℕ) (st : Store V) (name : Runes) (e : ℕ) (o : Option ℕ)
      → WellFormed st
      → Owner st name e o
      → e < fuel
      → get_from fuel st e name ≡ read_at st name o
  unfolding get_from
  get_from-Owner zero st name e o ok w h = absurd (omega (arith, h))
  get_from-Owner (suc fuel) st name e o ok (here h) few = rw (get_from, h) refl
  get_from-Owner (suc fuel) st name e o ok (above {p = p} h up w) few =
      rw (get_from, h, up) (get_from-Owner fuel st name p o ok w (omega (arith, few, ok e p up)))
  get_from-Owner (suc fuel) st name e o ok (nowhere h up) few = rw (get_from, h, up) refl

  -- The answer and the store when the variables of the owner are changed.
  abbrev pub changed_at :
      Store V → Option ℕ → (List (Runes × V) → List (Runes × V)) → Bool × Store V
  changed_at st none f = (false, st)
  changed_at st (some o) f = (true, change_vars st o f)

  set_from-Owner :
      (fuel : ℕ) (st : Store V) (name : Runes) (v : V) (e : ℕ) (o : Option ℕ)
      → WellFormed st
      → Owner st name e o
      → e < fuel
      → set_from fuel st e name v ≡ changed_at st o (λ vars. put_var vars name v)
  unfolding set_from define
  set_from-Owner zero st name v e o ok w h = absurd (omega (arith, h))
  set_from-Owner (suc fuel) st name v e o ok (here h) few = rw (set_from, h) refl
  set_from-Owner (suc fuel) st name v e o ok (above {p = p} h up w) few =
      rw (set_from, h, up) (set_from-Owner fuel st name v p o ok w (omega (arith, few, ok e p up)))
  set_from-Owner (suc fuel) st name v e o ok (nowhere h up) few = rw (set_from, h, up) refl

  delete_from-Owner :
      (fuel : ℕ) (st : Store V) (name : Runes) (e : ℕ) (o : Option ℕ)
      → WellFormed st
      → Owner st name e o
      → e < fuel
      → delete_from fuel st e name ≡ changed_at st o (λ vars. drop_var vars name)
  unfolding delete_from
  delete_from-Owner zero st name e o ok w h = absurd (omega (arith, h))
  delete_from-Owner (suc fuel) st name e o ok (here h) few = rw (delete_from, h) refl
  delete_from-Owner (suc fuel) st name e o ok (above {p = p} h up w) few =
      rw (delete_from, h, up)
        (delete_from-Owner fuel st name p o ok w (omega (arith, few, ok e p up)))
  delete_from-Owner (suc fuel) st name e o ok (nowhere h up) few = rw (delete_from, h, up) refl

  pub get-Owner :
      (st : Store V) (name : Runes) (e : ℕ) (o : Option ℕ)
      → WellFormed st
      → Owner st name e o
      → get st e name ≡ read_at st name o
  unfolding get
  get-Owner st name e o ok w = get_from-Owner (suc e) st name e o ok w (omega arith)

  pub set-Owner :
      (st : Store V) (name : Runes) (v : V) (e : ℕ) (o : Option ℕ)
      → WellFormed st
      → Owner st name e o
      → set st e name v ≡ changed_at st o (λ vars. put_var vars name v)
  unfolding set
  set-Owner st name v e o ok w = set_from-Owner (suc e) st name v e o ok w (omega arith)

  find_from-Owner :
      (fuel : ℕ) (st : Store V) (name : Runes) (e : ℕ)
      → WellFormed st
      → e < fuel
      → (o : Option ℕ) × Owner st name e o
  find_from-Owner zero st name e ok h = absurd (omega (arith, h))
  find_from-Owner (suc fuel) st name e ok h = elim (none_or_some (own st e name)) [
    | inr (v, is) ↦ (some e, here is)
    | inl is ↦ elim (none_or_some (parent_of st e)) [
      | inl up ↦ (none, nowhere is up)
      | inr (p, up) ↦
          let (o, w) = find_from-Owner fuel st name p ok (omega (arith, h, ok e p up)) in
          (o, above is up w)
    ]
  ]

  pub find-Owner :
      (st : Store V) (name : Runes) (e : ℕ) → WellFormed st → (o : Option ℕ) × Owner st name e o
  find-Owner st name e ok = find_from-Owner (suc e) st name e ok (omega arith)

  pub delete-Owner :
      (st : Store V) (name : Runes) (e : ℕ) (o : Option ℕ)
      → WellFormed st
      → Owner st name e o
      → delete st e name ≡ changed_at st o (λ vars. drop_var vars name)
  unfolding delete
  delete-Owner st name e o ok w = delete_from-Owner (suc e) st name e o ok w (omega arith)

  -- In a store where every parent was made before its child, every name has an owner in every scope, or
  -- none on the whole way to the root, and Get, Set and Delete all act there: Get returns what stands in
  -- the owner, Set puts the value there and returns true, Delete removes the name there and returns
  -- true; without an owner Get finds nothing, and the other two return false and change nothing.
  pub walks-Owner :
      (st : Store V) (name : Runes) (e : ℕ)
      → WellFormed st
      → (o : Option ℕ) × Owner st name e o
        × (get st e name ≡ read_at st name o)
        × ((v : V) → set st e name v ≡ changed_at st o (λ vars. put_var vars name v))
        × (delete st e name ≡ changed_at st o (λ vars. drop_var vars name))
  walks-Owner st name e ok =
      let (o, w) = find-Owner st name e ok in
      (
        o,
        w,
        get-Owner st name e o ok w,
        λ v. set-Owner st name v e o ok w,
        delete-Owner st name e o ok w,
      )
