-- ===== src/Kyu/Builtins/Rows.antt =====
-- Builtins of kyu/eval/builtins.go that call a function on each row of a list, compare rows, or read fields.
use sh.Prelude.{Bool, true, false, Option, none, some, Runes, codes, same, if◌then◌else◌}
use sh.Kyu.Eval.{EvalError, Result, ok, err}
use sh.Kyu.Machine.{Val, Vals, no_vals, val_cons, Outside, State, Eval, pure, fail, ◌>>=◌}
use sh.Kyu.Machine.Values.{kind_of, is_true, append_vals}
use sh.Kyu.Machine.Host.{Host, Rules, access, of_result}
use sh.Kyu.Builtins.{
  last_as_list, on_list, take_of, skip_of, first_of, last_of, count_vals, reverse_of, flatten_of,
  bi_path, bi_error,
}

abbrev pub one : Val → Vals
one v = val_cons v no_vals

abbrev pub cons_if : Bool → Val → Vals → Vals
cons_if true v vs = val_cons v vs
cons_if false v vs = vs

-- A comparison, and where it is false the rest.
abbrev pub seen_if : Option Bool → Option Bool → Option Bool
seen_if (some false) rest = rest
seen_if out rest = out

-- The entries of the table `builtins` for those that return at once.
unfoldable pub list_builtin : Runes → Option (Vals → Vals → Result Val)
list_builtin name =
    if same name (codes "take")
    then some take_of
    else (if same name (codes "skip")
        then some skip_of
        else (if same name (codes "first")
            then some first_of
            else (if same name (codes "last")
                then some last_of
                else (if same name (codes "count")
                    then some count_vals
                    else (if same name (codes "reverse")
                        then some reverse_of
                        else (if same name (codes "flatten") then some flatten_of else none))))))

module _ (O : Outside) (H : Host O) where
  -- `biGetField`
  unfoldable pub bi_get_field : Vals → Eval (State O) Val
  bi_get_field (val_cons (Val.string name) (val_cons r no_vals)) = access O H name r
  bi_get_field (val_cons v (val_cons r no_vals)) = fail (EvalError.not_a_string (kind_of v))
  bi_get_field _ = fail EvalError.argument_count

  -- `biWait`
  unfoldable pub bi_wait : Vals → Eval (State O) Val
  bi_wait (val_cons r no_vals) = access O H (codes "wait") r
  bi_wait _ = fail EvalError.argument_count

module _ (O : Outside) (R : Rules O) where
  -- The loop of `biWhere`.
  unfoldable pub keep_rows : Val → Vals → Eval (State O) Vals
  keep_rows pred no_vals = pure no_vals
  keep_rows pred (val_cons row rows) = do
    res ← R.call pred (one row)
    out ← keep_rows pred rows
    pure (cons_if (is_true res) row out)

  -- The loop of `biEach`.
  unfoldable pub map_rows : Val → Vals → Eval (State O) Vals
  map_rows fn no_vals = pure no_vals
  map_rows fn (val_cons row rows) = do
    v ← R.call fn (one row)
    out ← map_rows fn rows
    pure (val_cons v out)

  -- The inner loop of `biUniq`; `none` where an Equal has no end.
  unfoldable pub is_seen : State O → Vals → Val → Option Bool
  is_seen st no_vals v = some false
  is_seen st (val_cons w ws) v = seen_if (R.equal st w v) (is_seen st ws v)

  abbrev pub grown : Vals → Val → Option Bool → Option Vals
  grown out v none = none
  grown out v (some true) = some out
  grown out v (some false) = some (append_vals out (one v))

  abbrev pub and_on : (Vals → Option Vals) → Option Vals → Option Vals
  and_on f none = none
  and_on f (some out) = f out

  -- The loop of `biUniq`.
  unfoldable pub uniq_rows : State O → Vals → Vals → Option Vals
  unfolding is_seen
  uniq_rows st no_vals out = some out
  uniq_rows st (val_cons v vs) out =
      and_on (λ out'. uniq_rows st vs out') (grown out v (is_seen st out v))

  abbrev pub as_listed : Eval (State O) Vals → Eval (State O) Val
  as_listed m = m >>= λ vs. pure (Val.list vs)

  -- A builtin with one argument before its list.
  abbrev pub with_one :
      (Val → Vals → Eval (State O) Vals) → Result (Vals × Vals) → Eval (State O) Val
  with_one f (err e) = fail e
  with_one f (ok (xs, val_cons v no_vals)) = as_listed (f v xs)
  with_one f (ok (xs, _)) = fail EvalError.argument_count

  -- `biWhere`
  unfoldable pub bi_where : Vals → Eval (State O) Val
  unfolding keep_rows last_as_list
  bi_where args = with_one keep_rows (last_as_list args)

  -- `biEach`
  unfoldable pub bi_each : Vals → Eval (State O) Val
  unfolding map_rows last_as_list
  bi_each args = with_one map_rows (last_as_list args)

  abbrev pub uniq_answer : Option Vals → Eval (State O) Val
  uniq_answer (some vs) = pure (Val.list vs)
  uniq_answer none = λ st. none

  abbrev pub uniq_of : Result (Vals × Vals) → Eval (State O) Val
  uniq_of (err e) = fail e
  uniq_of (ok (xs, no_vals)) = λ st. uniq_answer (uniq_rows st xs no_vals) st
  uniq_of (ok (xs, _)) = fail EvalError.argument_count

  -- `biUniq`
  unfoldable pub bi_uniq : Vals → Eval (State O) Val
  unfolding uniq_rows last_as_list
  bi_uniq args = uniq_of (last_as_list args)

  -- A builtin that returns at once, by its list and its other arguments.
  unfoldable pub listed : Vals → (Vals → Vals → Result Val) → Eval (State O) Val
  unfolding last_as_list
  listed args f = of_result (on_list f (last_as_list args))

  abbrev pub by_table :
      (Vals → Eval (State O) Val) → Option (Vals → Vals → Result Val) → Vals → Eval (State O) Val
  by_table others (some f) args = listed args f
  by_table others none args = others args

  -- The functions of the builtins of these names, and the others of the host.
  unfoldable pub builtin_of :
      Host O → (Runes → Vals → Eval (State O) Val) → Runes → Vals → Eval (State O) Val
  unfolding listed list_builtin bi_path bi_error bi_get_field bi_wait bi_where bi_each bi_uniq
      take_of
  builtin_of H others name args =
      if same name (codes "where")
      then bi_where args
      else (if same name (codes "each")
          then bi_each args
          else (if same name (codes "uniq")
              then bi_uniq args
              else (if same name (codes "get_field")
                  then bi_get_field O H args
                  else (if same name (codes "wait")
                      then bi_wait O H args
                      else (if same name (codes "path")
                          then of_result (bi_path args)
                          else (if same name (codes "error")
                              then of_result (bi_error args)
                              else by_table (others name) (list_builtin name) args))))))
