-- ===== src/Kyu/Eval/Tests.antt =====
-- Runs of kyu/eval.
use sh.Prelude.{
  ℕ, zero, suc, ◌+◌, ◌*◌, ◌-◌, ◌≡◌, refl, true, ◌&&◌, Option, none, some, List, [], ◌∷◌, codes,
  same, ltb, ◌==◌, if◌then◌else◌, arith,
}
use sh.Prelude.Int.{ℤ, pos, negsuc, ◌+ℤ◌, pos_part}
use sh.Kyu.Token.{Kind}
use sh.Kyu.Value.Data.{Value, Elems, Floats}
use sh.Kyu.Eval.{ok}
use sh.Kyu.Eval.Operators.{FloatArith, binary_of}
use sh.Kyu.Eval.Scopes.Names.{visible_names-get}
use sh.Kyu.Eval.Scopes.Store.{is_some}
use sh.Prelude.Distinct.{seen, Distinct}
use sh.Kyu.Eval.Scopes.Child.{child_with, child-shadows}
use sh.Kyu.Eval.Operators.Division.{quotient_remainder}
use sh.Kyu.Eval.Collections.{bi_range, range_value, range_from}
use sh.Kyu.Eval.Collections.Range.{RangeIs, bi_range-RangeIs}
use sh.Kyu.Eval.Scopes.{
  visible_names, Store, find_var, own, parent_of, get, set, delete, unset, put_var, drop_var,
}
use sh.Kyu.Eval.Scopes.Owner.{WellFormed, Owner, here, above, read_at, changed_at, walks-Owner}
use sh.Kyu.Eval.Scopes.Lookup.{is_owner, set-get}
use sh.Kyu.Eval.Scopes.Removal.{unset-get}

-- Whole numbers in the place of floats.
abbrev whole : Floats
whole = record { Float = ℕ; feq = λ x y. x == y; flt = λ x y. ltb x y; of_int = pos_part }

abbrev whole_arith : FloatArith ℕ
whole_arith = record {
  fadd = λ x y. x + y;
  fsub = λ x y. x - y;
  fmul = λ x y. x * y;
  fdiv = λ x y. x;
  fneg = λ x. x;
}

bi_range-RangeIs_example :
    (out : Option (List ℤ)) × (bi_range {A = ℕ} 1000000
        (Value.int (pos 1) ∷ Value.int (pos 7) ∷ Value.int (pos 2) ∷ [])
      ≡ range_value out)
    × RangeIs 1000000 (pos 1) (pos 7) (pos 2) out
unfolding ◌+ℤ◌
bi_range-RangeIs_example =
    bi_range-RangeIs 1000000 (pos 1) (pos 7) (pos 2) (omega arith) (omega arith) refl

-- Where an element overflows, range returns ints that are not between `start` and `stop`.
range_overflow :
    range_from 10 (pos 2) (pos 9223372036854775807) (pos 9223372036854775807)
    ≡ some (pos 2 ∷ negsuc 9223372036854775806 ∷ pos 0 ∷ [])
unfolding range_from ◌+ℤ◌
range_overflow = refl

abbrev two : Elems ℕ
two = Elems.cons (Value.int (pos 1)) (Elems.cons (Value.int (pos 2)) Elems.nil)

abbrev one : Elems ℕ
one = Elems.cons (Value.bool true) Elems.nil

-- A scope with `x` and, below it, one with `y`.
abbrev scopes : Store ℕ
scopes =
    record { vars = (codes "x", 1) ∷ []; parent = none }
    ∷ record { vars = (codes "y", 2) ∷ []; parent = some 0 }
    ∷ []

scopes-WellFormed : WellFormed scopes
unfolding parent_of
scopes-WellFormed zero p h = cc
scopes-WellFormed (suc zero) p h = let root : 0 ≡ p = cc in omega (arith, root)
scopes-WellFormed (suc (suc e)) p h = cc

x_is_one : own scopes 0 (codes "x") ≡ some 1
unfolding own find_var same
x_is_one = refl

x_at_root : Owner scopes (codes "x") 0 (some 0)
x_at_root = here x_is_one

x_above : Owner scopes (codes "x") 1 (some 0)
unfolding own find_var same parent_of
x_above = above refl refl x_at_root

y_below : Owner scopes (codes "y") 1 (some 1)
unfolding own find_var same
y_below = here {v = 2} refl

walks-Owner_example :
    (o : Option ℕ) × Owner scopes (codes "x") 1 o
    × (get scopes 1 (codes "x") ≡ read_at scopes (codes "x") o)
    × ((v : ℕ)
        → set scopes 1 (codes "x") v ≡ changed_at scopes o (λ vars. put_var vars (codes "x") v))
    × (delete scopes 1 (codes "x") ≡ changed_at scopes o (λ vars. drop_var vars (codes "x")))
walks-Owner_example = walks-Owner scopes (codes "x") 1 scopes-WellFormed

-- `x` is set through the lower scope and read through the upper one.
set-get_example :
    ((set scopes 1 (codes "x") 5).0 ≡ true)
    × (get (set scopes 1 (codes "x") 5).1 0 (codes "x") ≡ (
        if is_owner 0 (some 0) && same (codes "x") (codes "x")
        then some 5
        else get scopes 0 (codes "x")))
set-get_example =
    set-get scopes (codes "x") 1 0 5 (codes "x") 0 (some 0) scopes-WellFormed x_above x_at_root

-- `x` is unset, and `y` stays.
unset-get_example :
    ((unset (λ w. w == 2) scopes 1 (codes "x")).0 ≡ (if 1 == 2 then none else some true))
    × (own (unset (λ w. w == 2) scopes 1 (codes "x")).1 0 (codes "x")
        ≡ (if 1 == 2 then some 1 else none))
    × (get (unset (λ w. w == 2) scopes 1 (codes "x")).1 1 (codes "y") ≡ get scopes 1 (codes "y"))
unset-get_example =
    unset-get (λ w. w == 2) scopes (codes "x") 1 0 1 (codes "y") 1 (some 1) scopes-WellFormed
      x_above x_is_one y_below refl

abbrev least : Value ℕ
least = Value.int (negsuc 9223372036854775807)

abbrev minus_one : Value ℕ
minus_one = Value.int (negsuc 0)

-- The least int by -1.
quotient_remainder_example :
    (q r p : ℤ) × (binary_of whole whole_arith Kind.slash least minus_one ≡ ok (Value.int q))
    × (binary_of whole whole_arith Kind.modulo least minus_one ≡ ok (Value.int r))
    × (binary_of whole whole_arith Kind.star (Value.int q) minus_one ≡ ok (Value.int p))
    × (binary_of whole whole_arith Kind.plus (Value.int p) (Value.int r) ≡ ok least)
quotient_remainder_example =
    quotient_remainder whole whole_arith (negsuc 9223372036854775807) (negsuc 0) (omega arith) refl

child-shadows_example :
    (get (child_with scopes 1 (codes "x") 7) 2 (codes "y")
      ≡ (if same (codes "x") (codes "y") then some 7 else get scopes 1 (codes "y")))
    × (get (child_with scopes 1 (codes "x") 7) 0 (codes "y") ≡ get scopes 0 (codes "y"))
child-shadows_example =
    child-shadows scopes 1 (codes "x") (codes "y") 7 0 scopes-WellFormed (omega arith) (omega arith)

visible_names-get_example :
    Distinct (visible_names scopes 1)
    × (seen (codes "x") (visible_names scopes 1) ≡ is_some (get scopes 1 (codes "x")))
visible_names-get_example = visible_names-get scopes 1 (codes "x")
