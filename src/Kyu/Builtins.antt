-- ===== src/Kyu/Builtins.antt =====
-- Builtins of kyu/eval/builtins.go on lists, over the values and the state of the evaluator.
pub mod Rows
pub mod Parts
pub mod Unique
mod Tests
use sh.Prelude.{
  ℕ, zero, suc, Bool, true, false, Option, none, some, List, [], ◌∷◌, Runes, ◌==◌, if◌then◌else◌,
  ◌-◌,
}
use sh.Prelude.Int.{ℤ, pos, negsuc}
use sh.Kyu.Eval.{EvalError, Result, ok, err}
use sh.Kyu.Machine.{Val, Vals, no_vals, val_cons, Outside, State, Eval, pure, fail, ◌>>=◌}
use sh.Kyu.Machine.Values.{length_vals, kind_of, append_vals, is_true}
use sh.Kyu.Machine.Host.{Rules, access}

-- The arguments but the last one, and the last one, of at least one argument.
unfoldable pub split_last : Val → Vals → Vals × Val
split_last v no_vals = (no_vals, v)
split_last v (val_cons w ws) = let (rest, last) = split_last w ws in (val_cons v rest, last)

abbrev pub as_list : Vals → Val → Result (Vals × Vals)
as_list rest (Val.list xs) = ok (xs, rest)
as_list rest v = err (EvalError.not_a_list (kind_of v))

-- `lastAsList`: the list, and the other arguments
unfoldable pub last_as_list : Vals → Result (Vals × Vals)
unfolding split_last
last_as_list no_vals = err EvalError.missing_input
last_as_list (val_cons v vs) = let (rest, last) = split_last v vs in as_list rest last

-- `xs[:n]` and `xs[n:]`, with n cut to the length
unfoldable pub take_vals : ℕ → Vals → Vals
take_vals zero xs = no_vals
take_vals (suc n) no_vals = no_vals
take_vals (suc n) (val_cons x xs) = val_cons x (take_vals n xs)

unfoldable pub skip_vals : ℕ → Vals → Vals
skip_vals zero xs = xs
skip_vals (suc n) no_vals = no_vals
skip_vals (suc n) (val_cons x xs) = skip_vals n xs

-- The count argument of `take`, `skip` and `last`.
abbrev pub count_of : Val → Result ℕ
count_of (Val.int (pos n)) = ok n
count_of (Val.int (negsuc n)) = err (EvalError.negative_count (negsuc n))
count_of v = err (EvalError.not_an_int (kind_of v))

abbrev pub with_count : (ℕ → Vals) → Result ℕ → Result Val
with_count f (ok n) = ok (Val.list (f n))
with_count f (err e) = err e

-- `biTake` and `biSkip`, on the list and the other arguments
unfoldable pub take_of : Vals → Vals → Result Val
unfolding take_vals
take_of xs (val_cons n no_vals) = with_count (λ k. take_vals k xs) (count_of n)
take_of xs _ = err EvalError.argument_count

unfoldable pub skip_of : Vals → Vals → Result Val
unfolding skip_vals
skip_of xs (val_cons n no_vals) = with_count (λ k. skip_vals k xs) (count_of n)
skip_of xs _ = err EvalError.argument_count

abbrev pub head_of : Vals → Val
head_of no_vals = Val.null
head_of (val_cons x xs) = x

-- `biFirst`
unfoldable pub first_of : Vals → Vals → Result Val
first_of xs no_vals = ok (head_of xs)
first_of xs _ = err EvalError.argument_count

unfoldable pub end_of : Vals → Val
end_of no_vals = Val.null
end_of (val_cons x no_vals) = x
end_of (val_cons x xs) = end_of xs

-- `biLast`
unfoldable pub last_of : Vals → Vals → Result Val
unfolding end_of skip_vals length_vals
last_of xs no_vals = ok (end_of xs)
last_of xs (val_cons n no_vals) = with_count (λ k. skip_vals (length_vals xs - k) xs) (count_of n)
last_of xs _ = err EvalError.argument_count

-- `biCount`
unfoldable pub count_vals : Vals → Vals → Result Val
unfolding length_vals
count_vals xs no_vals = ok (Val.int (pos (length_vals xs)))
count_vals xs _ = err EvalError.argument_count

unfoldable pub reverse_vals : Vals → Vals
unfolding append_vals
reverse_vals no_vals = no_vals
reverse_vals (val_cons x xs) = append_vals (reverse_vals xs) (val_cons x no_vals)

-- `biReverse`
unfoldable pub reverse_of : Vals → Vals → Result Val
unfolding reverse_vals
reverse_of xs no_vals = ok (Val.list (reverse_vals xs))
reverse_of xs _ = err EvalError.argument_count

abbrev pub spliced : Val → Vals → Vals
spliced (Val.list ys) out = append_vals ys out
spliced v out = val_cons v out

unfoldable pub flatten_vals : Vals → Vals
unfolding append_vals
flatten_vals no_vals = no_vals
flatten_vals (val_cons x xs) = spliced x (flatten_vals xs)

-- `biFlatten`
unfoldable pub flatten_of : Vals → Vals → Result Val
unfolding flatten_vals
flatten_of xs no_vals = ok (Val.list (flatten_vals xs))
flatten_of xs _ = err EvalError.argument_count

-- A builtin on its list and its other arguments.
abbrev pub on_list : (Vals → Vals → Result Val) → Result (Vals × Vals) → Result Val
on_list f (ok (xs, rest)) = f xs rest
on_list f (err e) = err e

-- `strings.HasPrefix(s, "/")`
abbrev pub is_absolute : Runes → Bool
is_absolute [] = false
is_absolute (c ∷ s) = c == b'/'

-- `biPath`
unfoldable pub bi_path : Vals → Result Val
bi_path (val_cons (Val.string s) no_vals) =
    if is_absolute s then ok (Val.path s) else err (EvalError.not_absolute s)
bi_path (val_cons v no_vals) = err (EvalError.not_a_string (kind_of v))
bi_path _ = err EvalError.argument_count

-- `biError`
unfoldable pub bi_error : Vals → Result Val
bi_error (val_cons (Val.string s) no_vals) = ok (Val.error_val s)
bi_error (val_cons v no_vals) = err (EvalError.not_a_string (kind_of v))
bi_error _ = err EvalError.argument_count
