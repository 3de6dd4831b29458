-- ===== src/Kyu/Builtins/Parts.antt =====
-- take and skip of kyu/eval/builtins.go.
use sh.Prelude.{ℕ, zero, suc, ◌≡◌, ◌⊎◌, inl, inr, refl, ap, min, arith}
use sh.Prelude.Int.{ℤ, pos, negsuc}
use sh.Kyu.Eval.{EvalError, ok, err}
use sh.Kyu.Machine.{Val, Vals, no_vals, val_cons}
use sh.Kyu.Machine.Values.{length_vals, append_vals}
use sh.Kyu.Builtins.{take_vals, skip_vals, take_of, skip_of}
use sh.Kyu.Builtins.Rows.{one}

take-skip : (n : ℕ) (xs : Vals) → append_vals (take_vals n xs) (skip_vals n xs) ≡ xs
unfolding take_vals skip_vals append_vals
take-skip zero xs = refl
take-skip (suc n) no_vals = refl
take-skip (suc n) (val_cons x xs) = ap (val_cons x) (take-skip n xs)

length-take : (n : ℕ) (xs : Vals) → length_vals (take_vals n xs) ≡ min n (length_vals xs)
unfolding take_vals length_vals
length-take zero xs = omega arith
length-take (suc n) no_vals = omega arith
length-take (suc n) (val_cons x xs) = omega (arith, length-take n xs)

-- take and skip with a count cut a list in two: in order, the two parts are the list, and the first has as
-- many elements as the count says, or all there are. With a negative count both fail.
pub take_of-skip_of :
    (n : ℤ) (xs : Vals)
    → ((k : ℕ) × (ys : Vals) × (zs : Vals) × (n ≡ pos k)
        × (take_of xs (one (Val.int n)) ≡ ok (Val.list ys))
        × (skip_of xs (one (Val.int n)) ≡ ok (Val.list zs))
        × (append_vals ys zs ≡ xs)
        × (length_vals ys ≡ min k (length_vals xs)))
      ⊎ ((k : ℕ) × (n ≡ negsuc k)
          × (take_of xs (one (Val.int n)) ≡ err (EvalError.negative_count n))
          × (skip_of xs (one (Val.int n)) ≡ err (EvalError.negative_count n)))
unfolding take_of skip_of
take_of-skip_of (pos k) xs =
    inl (k, take_vals k xs, skip_vals k xs, refl, refl, refl, take-skip k xs, length-take k xs)
take_of-skip_of (negsuc k) xs = inr (k, refl, refl, refl)
