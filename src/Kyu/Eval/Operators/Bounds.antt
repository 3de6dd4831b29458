-- ===== src/Kyu/Eval/Operators/Bounds.antt =====
-- The range of the ints that the operators of kyu/eval/eval.go return.
use sh.Prelude.{◌≤◌, ◌≡◌, false, Option, none, some, arith}
use sh.Prelude.Int.{ℤ}
use sh.Std.Int64.{InRange, abs}
use sh.Kyu.Value.Data.{Value}
use sh.Kyu.Eval.{Result, ok, err}
use sh.Kyu.Eval.Operators.{is_zero}

-- An int is one of 64 bits.
abbrev pub Fits : {A : Type 0} → Value A → Type 0
Fits (Value.int n) = InRange n
Fits v = Unit {0}

abbrev pub ResultFits : {A : Type 0} → Result (Value A) → Type 0
ResultFits (ok v) = Fits v
ResultFits (err e) = Unit {0}

abbrev AllFit : {A : Type 0} → Option (Result (Value A)) → Type 0
AllFit none = Unit {0}
AllFit (some r) = ResultFits r

pub is_zero-abs : (b : ℤ) → is_zero b ≡ false → 1 ≤ abs b
is_zero-abs b h = ground arith
