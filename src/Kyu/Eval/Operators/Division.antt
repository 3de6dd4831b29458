-- ===== src/Kyu/Eval/Operators/Division.antt =====
-- `/`, `*`, `%` and `+` of kyu/eval/eval.go on ints.
use sh.Prelude.{
  ℕ, zero, suc, ◌+◌, ◌*◌, ◌/◌, ◌%◌, ◌≤◌, ◌<◌, ◌≡◌, ◌∙◌, sym, ap, refl, Bool, true, false, arith,
  subst, Bool-cases, inl, inr, ltb,
}
use sh.Prelude.Int.{ℤ, pos, negsuc, ◌+ℤ◌}
use sh.Std.Int64.{InRange, wrap_exact, add64, mul64, quo64, rem64, abs, signed, differ, is_negative}
use sh.Kyu.Token.{Kind}
use sh.Kyu.Value.Data.{Value, Floats}
use sh.Kyu.Eval.{ok}
use sh.Kyu.Eval.Operators.{FloatArith, is_zero, eval_arith, binary_of}
use sh.Kyu.Eval.Operators.Bounds.{is_zero-abs}
use native.Mathlib.Nat.{div-add-mod', zero-mul, mul-le-mul_left}

signed_self : (a : ℤ) → signed (is_negative a) (abs a) ≡ a
signed_self (pos n) = refl
signed_self (negsuc n) = ground arith

signed_sum : (b : Bool) (m n : ℕ) → signed b m +ℤ signed b n ≡ signed b (m + n)
unfolding ◌+ℤ◌
signed_sum true m n = ground arith
signed_sum false m n = ground arith

signed_zero : (b : Bool) → signed b 0 ≡ pos 0
signed_zero true = refl
signed_zero false = refl

signed-suc : (n : ℕ) → signed true (suc n) ≡ negsuc n
signed-suc n = ground arith

-- The sign of a quotient times that of the divisor.
signed_product :
    (s t : Bool) (q k : ℕ)
    → signed (differ (is_negative (signed s q)) t) (abs (signed s q) * k)
      ≡ signed (differ s t) (q * k)
signed_product s t zero k =
    rw (signed_zero s, zero-mul k) (signed_zero (differ false t) ∙ sym (signed_zero (differ s t)))
signed_product true t (suc q) k = rw (signed-suc q) refl
signed_product false t (suc q) k = refl

within-InRange : (a : ℤ) (n : ℕ) → InRange a → n ≤ abs a → InRange (signed (is_negative a) n)
within-InRange (pos a) n h le = omega (arith, h, le)
within-InRange (negsuc a) n h le = ground arith

small-InRange : (s : Bool) (n : ℕ) → n < 9223372036854775808 → InRange (signed s n)
small-InRange true n h = ground arith
small-InRange false n h = omega (arith, h)

differ_twice : (s t : Bool) → differ (differ s t) t ≡ s
differ_twice s t = ground arith

-- The quotient fits, and so does what is made of it.
quo_rem_exact :
    (a b : ℤ)
    → InRange a
    → InRange (signed (differ (is_negative a) (is_negative b)) (abs a / abs b))
    → add64 (mul64 (quo64 a b) b) (rem64 a b) ≡ a
unfolding add64 mul64 quo64 rem64
quo_rem_exact a b ha hq =
    let q = abs a / abs b in
    let s = differ (is_negative a) (is_negative b) in
    let sum : q * abs b + abs a % abs b ≡ abs a = div-add-mod' (abs a) (abs b) in
    let product : signed (differ (is_negative (signed s q)) (is_negative b))
          (abs (signed s q) * abs b)
        ≡ signed (is_negative a) (q * abs b) =
      signed_product s (is_negative b) q (abs b)
      ∙ ap (λ c. signed c (q * abs b)) (differ_twice (is_negative a) (is_negative b)) in
    let fits = within-InRange a (q * abs b) ha (omega (arith, sum)) in
    rw
      (
        wrap_exact _ hq,
        product,
        wrap_exact _ fits,
        signed_sum (is_negative a) (q * abs b) (abs a % abs b),
        sum,
        signed_self a,
      )
      (wrap_exact a ha)

-- The one quotient that does not fit: the least int by -1 is the least int.
least_by_minus_one :
    add64
      (mul64 (quo64 (negsuc 9223372036854775807) (negsuc 0)) (negsuc 0))
      (rem64 (negsuc 9223372036854775807) (negsuc 0))
    ≡ negsuc 9223372036854775807
unfolding add64 mul64 quo64 rem64 ◌+ℤ◌
least_by_minus_one = refl

div_bound : (m k n : ℕ) → n ≤ k → m / k * n ≤ m
div_bound m k n h =
    let sum : m / k * k + m % k ≡ m = div-add-mod' m k in
    let le : m / k * n ≤ m / k * k = mul-le-mul_left (m / k) h in omega (arith, sum, le)

negative-InRange : (n : ℕ) → n ≤ 9223372036854775808 → InRange (signed true n)
negative-InRange n h = ground arith

small_quotient : (s : Bool) (m k : ℕ) → m < 9223372036854775808 → 1 ≤ k → InRange (signed s (m / k))
small_quotient s m k h pos_k = small-InRange s (m / k) (omega (arith, h, div_bound m k 1 pos_k))

quo_rem : (a b : ℤ) → InRange a → 1 ≤ abs b → add64 (mul64 (quo64 a b) b) (rem64 a b) ≡ a
quo_rem (pos a) (pos b) ha hb = quo_rem_exact (pos a) (pos b) ha (small_quotient false a b ha hb)
quo_rem (pos a) (negsuc b) ha hb =
    quo_rem_exact (pos a) (negsuc b) ha (small_quotient true a (suc b) ha hb)
quo_rem (negsuc a) (pos b) ha hb =
    quo_rem_exact (negsuc a) (pos b) ha
      (negative-InRange (suc a / b) (omega (arith, ha, div_bound (suc a) b 1 hb)))
quo_rem (negsuc a) (negsuc (suc b)) ha hb = quo_rem_exact (negsuc a) (negsuc (suc b)) ha (
    small-InRange false (suc a / suc (suc b))
      (omega (arith, ha, div_bound (suc a) (suc (suc b)) 2 (omega arith))))
quo_rem (negsuc a) (negsuc zero) ha hb = elim (Bool-cases (ltb a 9223372036854775807)) [
  | inl e ↦
      let few : suc a < 9223372036854775808 = ground arith in
      quo_rem_exact (negsuc a) (negsuc zero) ha (small_quotient false (suc a) 1 few (omega arith))
  | inr e ↦
      let least : 9223372036854775807 ≡ a = ground arith in
      subst
        (λ n.
          add64 (mul64 (quo64 (negsuc n) (negsuc zero)) (negsuc zero))
            (rem64 (negsuc n) (negsuc zero))
          ≡ negsuc n)
        least least_by_minus_one
]

-- For ints `a` and `b` of 64 bits, where `b` is not 0, all of `a / b`, `a % b` and `(a / b) * b + a % b`
-- are evaluated without an error, and the last of them is `a`, even for the least int and -1, where the
-- quotient and the product wrap around.
pub quotient_remainder :
    (F : Floats) (H : FloatArith F.Float) (a b : ℤ)
    → InRange a
    → is_zero b ≡ false
    → (q r p : ℤ) × (binary_of F H Kind.slash (Value.int a) (Value.int b) ≡ ok (Value.int q))
      × (binary_of F H Kind.modulo (Value.int a) (Value.int b) ≡ ok (Value.int r))
      × (binary_of F H Kind.star (Value.int q) (Value.int b) ≡ ok (Value.int p))
      × (binary_of F H Kind.plus (Value.int p) (Value.int r) ≡ ok (Value.int a))
unfolding binary_of eval_arith
quotient_remainder F H a b ha hb = (
  quo64 a b,
  rem64 a b,
  mul64 (quo64 a b) b,
  rw hb refl,
  rw hb refl,
  refl,
  ap (λ n. ok (Value.int n)) (quo_rem a b ha (is_zero-abs b hb)),
)
