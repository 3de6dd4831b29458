-- ===== src/Std/Int64.antt =====
-- Go's int64: the operators on integers, taken modulo 2^64 into the range of 64 bits.
use sh.Prelude.{
  ℕ, suc, ◌-◌, ◌*◌, ◌/◌, ◌%◌, ◌<◌, ◌≤◌, ◌≡◌, Bool, true, false, not, ltb, if◌then◌else◌, arith,
}
use sh.Prelude.Int.{ℤ, pos, negsuc, ◌+ℤ◌, sub_ℕ}
use native.Mathlib.Nat.{mod-lt}

-- The range of an int64, where 2^63 is 9223372036854775808.
abbrev pub InRange : ℤ → Type 0
InRange (pos n) = n < 9223372036854775808
InRange (negsuc n) = n < 9223372036854775808

abbrev wrap_pos : ℕ → ℤ
wrap_pos m = if ltb m 9223372036854775808 then pos m else negsuc (18446744073709551615 - m)

abbrev wrap_neg : ℕ → ℤ
wrap_neg m = if ltb m 9223372036854775808 then negsuc m else pos (18446744073709551615 - m)

-- The integer of 64 bits that is equal modulo 2^64.
unfoldable pub wrap : ℤ → ℤ
wrap (pos n) = wrap_pos (n % 18446744073709551616)
wrap (negsuc n) = wrap_neg (n % 18446744073709551616)

abbrev pub is_negative : ℤ → Bool
is_negative (pos n) = false
is_negative (negsuc n) = true

abbrev pub abs : ℤ → ℕ
abs (pos n) = n
abs (negsuc n) = suc n

-- The integer with the sign and the absolute value.
abbrev pub signed : Bool → ℕ → ℤ
signed negative n = if negative then sub_ℕ 0 n else pos n

abbrev pub differ : Bool → Bool → Bool
differ true b = not b
differ false b = b

unfoldable pub add64 : ℤ → ℤ → ℤ
unfolding wrap
add64 a b = wrap (a +ℤ b)

unfoldable pub neg64 : ℤ → ℤ
unfolding wrap
neg64 a = wrap (signed (not (is_negative a)) (abs a))

unfoldable pub sub64 : ℤ → ℤ → ℤ
unfolding wrap
sub64 a b = wrap (a +ℤ signed (not (is_negative b)) (abs b))

unfoldable pub mul64 : ℤ → ℤ → ℤ
unfolding wrap
mul64 a b = wrap (signed (differ (is_negative a) (is_negative b)) (abs a * abs b))

-- `/`, towards zero, and `%`, with the sign of the dividend; not for a divisor of zero
unfoldable pub quo64 : ℤ → ℤ → ℤ
unfolding wrap
quo64 a b = wrap (signed (differ (is_negative a) (is_negative b)) (abs a / abs b))

unfoldable pub rem64 : ℤ → ℤ → ℤ
rem64 a b = signed (is_negative a) (abs a % abs b)

wrap_pos-InRange : (m : ℕ) → m < 18446744073709551616 → InRange (wrap_pos m)
wrap_pos-InRange m h = ground arith

wrap_neg-InRange : (m : ℕ) → m < 18446744073709551616 → InRange (wrap_neg m)
wrap_neg-InRange m h = ground arith

pub wrap-InRange : (a : ℤ) → InRange (wrap a)
unfolding wrap
wrap-InRange (pos n) = wrap_pos-InRange (n % 18446744073709551616) (omega arith)
wrap-InRange (negsuc n) = wrap_neg-InRange (n % 18446744073709551616) (omega arith)

wrap_pos_exact : (n : ℕ) → n < 9223372036854775808 → wrap_pos n ≡ pos n
wrap_pos_exact n h = ground arith

wrap_neg_exact : (n : ℕ) → n < 9223372036854775808 → wrap_neg n ≡ negsuc n
wrap_neg_exact n h = ground arith

small_mod : (n : ℕ) → n < 9223372036854775808 → n % 18446744073709551616 ≡ n
small_mod n h = omega (arith, h)

pub wrap_exact : (a : ℤ) → InRange a → wrap a ≡ a
unfolding wrap
wrap_exact (pos n) h = rw (small_mod n h) (wrap_pos_exact n h)
wrap_exact (negsuc n) h = rw (small_mod n h) (wrap_neg_exact n h)

abs_bound : (a : ℤ) → InRange a → abs a ≤ 9223372036854775808
abs_bound (pos n) h = omega (arith, h)
abs_bound (negsuc n) h = omega (arith, h)

signed_rem : (b : Bool) (m n : ℕ) → n < m → m ≤ 9223372036854775808 → InRange (signed b n)
signed_rem true m n h k = ground arith
signed_rem false m n h k = ground arith

-- A remainder is in the range when the divisor is.
pub rem64-InRange : (a b : ℤ) → InRange b → 1 ≤ abs b → InRange (rem64 a b)
unfolding rem64
rem64-InRange a b h pos_b =
    signed_rem (is_negative a) (abs b) (abs a % abs b) (mod-lt (abs a) pos_b) (abs_bound b h)

pub add64-InRange : (a b : ℤ) → InRange (add64 a b)
unfolding add64
add64-InRange a b = wrap-InRange (a +ℤ b)

pub sub64-InRange : (a b : ℤ) → InRange (sub64 a b)
unfolding sub64
sub64-InRange a b = wrap-InRange (a +ℤ signed (not (is_negative b)) (abs b))

pub mul64-InRange : (a b : ℤ) → InRange (mul64 a b)
unfolding mul64
mul64-InRange a b = wrap-InRange (signed (differ (is_negative a) (is_negative b)) (abs a * abs b))

pub quo64-InRange : (a b : ℤ) → InRange (quo64 a b)
unfolding quo64
quo64-InRange a b = wrap-InRange (signed (differ (is_negative a) (is_negative b)) (abs a / abs b))

pub add64_exact : (a b : ℤ) → InRange (a +ℤ b) → add64 a b ≡ a +ℤ b
unfolding add64
add64_exact a b h = wrap_exact (a +ℤ b) h
