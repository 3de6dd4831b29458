-- ===== src/Kyu/Eval/Scopes/Child.antt =====
-- A new scope with a variable, as of a closure's call, in kyu/eval/env.go.
use sh.Prelude.{
  ℕ, ◌<◌, ◌≡◌, refl, sym, ◌∙◌, ap, inl, inr, true, false, ◌&&◌, Bool-cases, Option, none, some,
  Runes, same, arith, if◌then◌else◌, ◌==◌, length, length-append, [], ◌∷◌,
}
use sh.Kyu.Eval.Scopes.{Store, own, parent_of, new_env, define, get}
use sh.Kyu.Eval.Scopes.Store.{own-new_env, parent_of-new_env}
use sh.Kyu.Eval.Scopes.Owner.{
  WellFormed, Owner, here, above, nowhere, read_at, get-Owner, find-Owner,
}
use sh.Kyu.Eval.Scopes.Lookup.{
  own-define, parent_of-define, hit, define-WellFormed, new_env-WellFormed,
}

module _ {V : Type 0} where
  -- Two stores that agree on a name and on the parents, in all the scopes below a bound.
  abbrev Agree : ℕ → Store V → Store V → Runes → Type 0
  Agree bound st st' m =
      (e : ℕ) → e < bound → (own st' e m ≡ own st e m) × (parent_of st' e ≡ parent_of st e)

  transfer-Owner :
      (bound : ℕ) (st st' : Store V) (m : Runes) (e : ℕ) (o : Option ℕ)
      → WellFormed st
      → Agree bound st st' m
      → Owner st m e o
      → e < bound
      → Owner st' m e o × (read_at st' m o ≡ read_at st m o)
  transfer-Owner bound st st' m e o ok eq (here h) few = (here ((eq e few).0 ∙ h), (eq e few).0)
  transfer-Owner bound st st' m e o ok eq (above {p = p} h up w) few =
      let (w', same_read) =
        transfer-Owner bound st st' m p o ok eq w (omega (arith, few, ok e p up)) in
      (above ((eq e few).0 ∙ h) ((eq e few).1 ∙ up) w', same_read)
  transfer-Owner bound st st' m e o ok eq (nowhere h up) few =
      (nowhere ((eq e few).0 ∙ h) ((eq e few).1 ∙ up), refl)

  own-outside : (st : Store V) (m : Runes) → own st (length st) m ≡ none
  unfolding own
  own-outside [] m = refl
  own-outside (s ∷ st) m = own-outside st m

  -- `NewEnv` below a scope, and a Define of a variable there.
  abbrev pub child_with : Store V → ℕ → Runes → V → Store V
  child_with st p n v = define (new_env st (some p)).1 (length st) n v

  child-length : (st : Store V) (p : ℕ) → length st < length (new_env st (some p)).1
  unfolding new_env
  child-length st p = omega (arith, length-append st (record { vars = []; parent = some p } ∷ []))

  child-own :
      (st : Store V) (p : ℕ) (n : Runes) (v : V) (e : ℕ) (m : Runes)
      → own (child_with st p n v) e m
        ≡ (if (length st == e) && same n m then some v else own st e m)
  child-own st p n v e m =
      own-define (new_env st (some p)).1 (length st) n m v (child-length st p) e
      ∙ ap (λ r. if (length st == e) && same n m then some v else r) (own-new_env st (some p) e m)

  child-parent_of :
      (st : Store V) (p : ℕ) (n : Runes) (v : V) (e : ℕ)
      → parent_of (child_with st p n v) e ≡ (if e == length st then some p else parent_of st e)
  child-parent_of st p n v e =
      parent_of-define (new_env st (some p)).1 (length st) n v e ∙ parent_of-new_env st (some p) e

  child-Agree :
      (st : Store V) (p : ℕ) (n m : Runes) (v : V) → Agree (length st) st (child_with st p n v) m
  child-Agree st p n m v e few =
      let apart : (length st == e) ≡ false = ground (arith, few) in
      let apart' : (e == length st) ≡ false = ground (arith, few) in
      (rw apart at (child-own st p n v e m), rw apart' at (child-parent_of st p n v e))

  child-get :
      (st : Store V) (p : ℕ) (n m : Runes) (v : V) (e : ℕ)
      → WellFormed st
      → p < length st
      → e < length st
      → get (child_with st p n v) e m ≡ get st e m
  child-get st p n m v e ok few few' =
      let (o, w) = find-Owner st m e ok in
      let (w', same_read) =
        transfer-Owner (length st) st _ m e o ok (child-Agree st p n m v) w few' in
      let ok' = define-WellFormed _ (length st) n v (new_env-WellFormed st p few ok) in
      get-Owner (child_with st p n v) m e o ok' w' ∙ same_read ∙ sym (get-Owner st m e o ok w)

  -- In a store where every parent was made before its child, a variable that is defined in a new scope
  -- below scope `p` is what Get of its name returns there; Get of any other name through the new scope
  -- returns what it returns through `p`; and through every older scope, Get returns what it did.
  pub child-shadows :
      (st : Store V) (p : ℕ) (n m : Runes) (v : V) (e : ℕ)
      → WellFormed st
      → p < length st
      → e < length st
      → (get (child_with st p n v) (length st) m ≡ (if same n m then some v else get st p m))
        × (get (child_with st p n v) e m ≡ get st e m)
  child-shadows st p n m v e ok few few' =
      let st' = child_with st p n v in
      let is_last : (length st == length st) ≡ true = ground arith in
      let ok' : WellFormed st' =
        define-WellFormed _ (length st) n v (new_env-WellFormed st p few ok) in
      let first = rw is_last at (child-own st p n v (length st) m) in
      let up : parent_of st' (length st) ≡ some p =
        rw is_last at (child-parent_of st p n v (length st)) in
      (
        elim (Bool-cases (same n m)) [
          | inl hit ↦
              let is : own st' (length st) m ≡ some v = rw hit at first in
              rw hit (get-Owner st' m (length st) (some (length st)) ok' (here is) ∙ is)
          | inr miss ↦
              let is : own st' (length st) m ≡ none = rw miss at first ∙ own-outside st m in
              let (o, w) = find-Owner st m p ok in
              let (w', same_read) =
                transfer-Owner (length st) st st' m p o ok (child-Agree st p n m v) w few in
              rw miss (
                get-Owner st' m (length st) o ok' (above is up w')
                ∙ same_read
                ∙ sym (get-Owner st m p o ok w))
        ],
        child-get st p n m v e ok few few',
      )
