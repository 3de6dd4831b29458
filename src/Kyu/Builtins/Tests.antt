-- ===== src/Kyu/Builtins/Tests.antt =====
-- Runs of builtins of kyu/eval/builtins.go over the small host of the evaluator.
use sh.Kyu.Value.Data.{equal_as, kind, equal}
use sh.Prelude.{same, ℕ, ◌≡◌, refl, ◌⊎◌, min, codes, some}
use sh.Prelude.Int.{pos, negsuc}
use sh.Kyu.Eval.{EvalError, ok, err}
use sh.Kyu.Machine.{Val, Vals, no_vals, val_cons, Answer, pure}
use sh.Kyu.Machine.Values.{length_vals, append_vals, shade}
use sh.Kyu.Machine.Whole.{rules}
use sh.Kyu.Machine.Sample.{outside, host, first_state}
use sh.Kyu.Builtins.{take_of, skip_of, reverse_of}
use sh.Kyu.Builtins.Rows.{one, uniq_rows, bi_uniq, builtin_of}
use sh.Kyu.Builtins.Parts.{take_of-skip_of}
use sh.Kyu.Builtins.Unique.{In, AllApart, Kept, bi_uniq-UniqueOf}

abbrev number : ℕ → Val
number n = Val.int (pos n)

abbrev numbers : Vals
numbers = val_cons (number 3) (val_cons (number 5) (val_cons (number 3) no_vals))

take_of-skip_of_example :
    ((k : ℕ) × (ys : Vals) × (zs : Vals) × (pos 2 ≡ pos k)
      × (take_of numbers (one (number 2)) ≡ ok (Val.list ys))
      × (skip_of numbers (one (number 2)) ≡ ok (Val.list zs))
      × (append_vals ys zs ≡ numbers)
      × (length_vals ys ≡ min k (length_vals numbers)))
    ⊎ ((k : ℕ) × (pos 2 ≡ negsuc k)
        × (take_of numbers (one (number 2)) ≡ err (EvalError.negative_count (pos 2)))
        × (skip_of numbers (one (number 2)) ≡ err (EvalError.negative_count (pos 2))))
take_of-skip_of_example = take_of-skip_of (pos 2) numbers

uniq_numbers :
    uniq_rows outside (rules outside host 1) first_state numbers no_vals
    ≡ some (val_cons (number 3) (val_cons (number 5) no_vals))
unfolding uniq_rows rules append_vals equal same kind shade equal_as
uniq_numbers = refl

bi_uniq-UniqueOf_example :
    (bi_uniq outside (rules outside host 1) (one (Val.list numbers)) first_state
      ≡ some (
        Answer.value (Val.list (val_cons (number 3) (val_cons (number 5) no_vals))),
        first_state,
      ))
    × AllApart
        (rules outside host 1)
        first_state
        (val_cons (number 3) (val_cons (number 5) no_vals))
    × ((v : Val) → In v (val_cons (number 3) (val_cons (number 5) no_vals)) → In v numbers)
    × ((v : Val)
        → In v numbers
        → Kept
            (rules outside host 1)
            first_state
            v
            (val_cons (number 3) (val_cons (number 5) no_vals)))
bi_uniq-UniqueOf_example =
    bi_uniq-UniqueOf (rules outside host 1) first_state numbers
      (val_cons (number 3) (val_cons (number 5) no_vals)) uniq_numbers

-- `reverse`, by its name
reversed :
    builtin_of outside
      (rules outside host 1)
      host
      (λ name args. pure Val.null)
      (codes "reverse")
      (one (Val.list (val_cons (number 3) (val_cons (number 5) no_vals))))
      first_state
    ≡ some
        (Answer.value (Val.list (val_cons (number 5) (val_cons (number 3) no_vals))), first_state)
unfolding builtin_of same reverse_of
reversed = refl
