-- ===== src/Kyu/Machine/Values.antt =====
-- Operations on values of the evaluator: the kinds, Truthy, the operators, and Equal, which reads the fields
-- of records.
use sh.Prelude.{
  ℕ, zero, suc, Bool, true, false, not, ◌&&◌, ◌||◌, Option, none, some, List, [], ◌∷◌, ◌++◌, Runes,
  codes, same, length, ◌==◌, if◌then◌else◌,
}
use sh.Kyu.Token.{Kind}
use sh.Kyu.Value.Data.{Value, Floats}
use sh.Kyu.Value.Data as Data
use sh.Kyu.Value.Record.{Record, get}
use sh.Kyu.Eval.{Result, ok, err}
use sh.Kyu.Eval.Operators.{FloatArith, binary_of, unary_of}
use sh.Kyu.Machine.{Val, Vals, no_vals, val_cons, Outside, backings, record_at, State}

-- float64, on its bits
pub record Float64 : Type 0 where
  pub feq : ℕ → ℕ → Bool
  pub flt : ℕ → ℕ → Bool
  pub of_int : sh.Prelude.Int.ℤ → ℕ
  pub arithmetic : FloatArith ℕ

abbrev pub floats : Float64 → Floats
floats D = record { Float = ℕ; feq = D.feq; flt = D.flt; of_int = D.of_int }

-- A value without what it refers to: a record, list or function by its kind alone.
unfoldable pub shade : Val → Value ℕ
shade Val.null = Value.null
shade (Val.bool b) = Value.bool b
shade (Val.int n) = Value.int n
shade (Val.float x) = Value.float x
shade (Val.string s) = Value.string s
shade (Val.bytes b) = Value.bytes b
shade (Val.path p) = Value.path p
shade (Val.duration d) = Value.duration d
shade (Val.ref p h t) = Value.ref p h t
shade (Val.error_val m) = Value.error_val m
shade (Val.ns_union ps) = Value.ns_union ps
shade (Val.mount addr spec) = Value.mount addr spec
shade (Val.other k) = Value.other k
shade (Val.rec a) = Value.other (codes "record")
shade (Val.list vs) = Value.other (codes "list")
shade (Val.closure ps body e) = Value.other (codes "function")
shade (Val.builtin name) = Value.other (codes "function")

-- `Kind` and `Truthy`
abbrev pub kind_of : Val → Runes
kind_of v = Data.kind (shade v)

abbrev pub is_true : Val → Bool
is_true v = Data.truthy (shade v)

-- The value that an operator has made.
abbrev pub made : Value ℕ → Val
made Value.null = Val.null
made (Value.bool b) = Val.bool b
made (Value.int n) = Val.int n
made (Value.float x) = Val.float x
made (Value.string s) = Val.string s
made (Value.bytes b) = Val.bytes b
made (Value.path p) = Val.path p
made (Value.duration d) = Val.duration d
made (Value.ref p h t) = Val.ref p h t
made (Value.error_val m) = Val.error_val m
made (Value.ns_union ps) = Val.ns_union ps
made (Value.mount addr spec) = Val.mount addr spec
made (Value.other k) = Val.other k
-- no operator makes these two but `+` on lists, below
made (Value.rec fs) = Val.null
made (Value.list vs) = Val.null

abbrev pub made_of : Result (Value ℕ) → Result Val
made_of (ok v) = ok (made v)
made_of (err e) = err e

unfoldable pub append_vals : Vals → Vals → Vals
append_vals no_vals ys = ys
append_vals (val_cons x xs) ys = val_cons x (append_vals xs ys)

-- `len` of a list or of arguments
unfoldable pub length_vals : Vals → ℕ
length_vals no_vals = 0
length_vals (val_cons v vs) = suc (length_vals vs)

-- `evalArith`, `evalComparison`, and the operators that there are none of
abbrev pub operate : Float64 → Kind → Val → Val → Result Val
operate D Kind.plus (Val.list xs) (Val.list ys) = ok (Val.list (append_vals xs ys))
operate D op l r = made_of (binary_of (floats D) D.arithmetic op (shade l) (shade r))

-- `evalUnary`, on the value of the operand
abbrev pub unary_val : Float64 → Kind → Val → Result Val
unary_val D op v = made_of (unary_of (floats D) D.arithmetic op (shade v))

abbrev pub both_hold : Option Bool → Option Bool → Option Bool
both_hold (some true) rest = rest
both_hold out _ = out

abbrev pub or_null : Option Val → Val
or_null (some v) = v
or_null none = Val.null

-- `Equal`, by itself on what it finds inside; `none` where that is `none`. A live field is read by
-- `read_field` and has one value in a state: a comparison that blocks on such a read is outside of it.
module _ (O : Outside) (equal : State O → Val → Val → Option Bool) (st : State O) where
  -- one key of a record, by what the other record has there
  abbrev pub field_equal : Val → Option Val → Option Bool → Option Bool
  field_equal v (some w) rest = both_hold (equal st v w) rest
  field_equal v none rest = some false

  -- the loop over the keys of a record
  unfoldable pub equal_keys : Record (backings O) → Record (backings O) → List Runes → Option Bool
  equal_keys a b [] = some true
  equal_keys a b (k ∷ ks) =
      field_equal (or_null (get (backings O) a st.world k)) (get (backings O) b st.world k)
        (equal_keys a b ks)

  unfoldable pub equal_vals : Vals → Vals → Option Bool
  equal_vals (val_cons a xs) (val_cons b ys) = both_hold (equal st a b) (equal_vals xs ys)
  equal_vals no_vals no_vals = some true
  equal_vals _ _ = some false

  abbrev pub fields_if : Record (backings O) → Record (backings O) → Bool → Option Bool
  fields_if a b true = equal_keys a b a.keys
  fields_if a b false = some false

  abbrev pub lists_if : Vals → Vals → Bool → Option Bool
  lists_if xs ys true = equal_vals xs ys
  lists_if xs ys false = some false

  unfoldable pub equal_step : Float64 → Val → Val → Option Bool
  unfolding equal_keys equal_vals record_at length_vals
  equal_step D (Val.rec a) (Val.rec b) =
      let r = record_at O st.records a in
      let s = record_at O st.records b in fields_if r s (length r.keys == length s.keys)
  equal_step D (Val.list xs) (Val.list ys) = lists_if xs ys (length_vals xs == length_vals ys)
  equal_step D a b = some (Data.equal (floats D) (shade a) (shade b))
