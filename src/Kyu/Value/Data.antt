-- ===== src/Kyu/Value/Data.antt =====
-- The values of kyu/value/value.go: Truthy, IsTable, Equal, Compare. A record stands here as its keys with
-- what Get reads of each at the moment of the call (Record.antt has the fields themselves). So a record that
-- contains itself, and a live field that changes while it is compared, are outside of this file.
-- Kyu/Machine/Values.antt has Equal over records that are shared. A float64 is a
-- parameter with its two comparisons, and `other` is a value of another package, by its kind.
pub mod Laws
mod Tests
use sh.Prelude.{
  ℕ, Bool, true, false, not, ◌&&◌, ◌||◌, Option, none, some, List, [], ◌∷◌, Runes, codes, same, ltb,
  ◌==◌, if◌then◌else◌, suc,
}
use sh.Prelude.Int.{ℤ, pos, negsuc}

-- float64, with `==` and `<`
pub record Floats : Type 1 where
  pub Float : Type 0
  pub feq : Float → Float → Bool
  pub flt : Float → Float → Bool
  pub of_int : ℤ → Float

mutual
  pub data Value (A : Type 0) : Type 0 where
    null : Value A
    bool : Bool → Value A
    int : ℤ → Value A
    float : A → Value A
    string : Runes → Value A
    bytes : List ℕ → Value A
    path : Runes → Value A
    duration : ℤ → Value A
    ref : Runes → Runes → Runes → Value A
    error_val : Runes → Value A
    ns_union : List Runes → Value A
    mount : Runes → Runes → Value A
    other : Runes → Value A
    rec : Fields A → Value A
    list : Elems A → Value A

  pub data Elems (A : Type 0) : Type 0 where
    nil : Elems A
    cons : Value A → Elems A → Elems A

  pub data Fields (A : Type 0) : Type 0 where
    end : Fields A
    field : Runes → Value A → Fields A → Fields A

module _ {A : Type 0} where
  -- the methods `Kind`
  unfoldable pub kind : Value A → Runes
  kind null = codes "null"
  kind (bool b) = codes "bool"
  kind (int n) = codes "int"
  kind (float x) = codes "float"
  kind (string s) = codes "string"
  kind (bytes b) = codes "bytes"
  kind (path p) = codes "path"
  kind (duration d) = codes "duration"
  kind (ref p h t) = codes "ref"
  kind (error_val m) = codes "error"
  kind (ns_union ps) = codes "nsunion"
  kind (mount addr spec) = codes "mount"
  kind (other k) = k
  kind (rec fs) = codes "record"
  kind (list xs) = codes "list"

  -- `Truthy`
  unfoldable pub truthy : Value A → Bool
  truthy null = false
  truthy (bool b) = b
  truthy (error_val m) = false
  truthy _ = true

  abbrev pub is_record : Value A → Bool
  is_record (rec fs) = true
  is_record _ = false

  -- `IsTable`
  unfoldable pub is_table : Elems A → Bool
  is_table nil = true
  is_table (cons v vs) = is_record v && is_table vs

  -- `len(keys)`
  unfoldable pub count : Fields A → ℕ
  count end = 0
  count (field k v fs) = suc (count fs)

  -- `Get`, on the fields as they are read
  unfoldable pub get_field : Fields A → Runes → Option (Value A)
  get_field end key = none
  get_field (field k v fs) key = let rest = get_field fs key in if same key k then some v else rest

abbrev pub same_bool : Bool → Bool → Bool
same_bool true b = b
same_bool false b = not b

abbrev pub same_int : ℤ → ℤ → Bool
same_int (pos m) (pos n) = m == n
same_int (negsuc m) (negsuc n) = m == n
same_int _ _ = false

abbrev pub lt_int : ℤ → ℤ → Bool
lt_int (pos m) (pos n) = ltb m n
lt_int (pos m) (negsuc n) = false
lt_int (negsuc m) (pos n) = true
lt_int (negsuc m) (negsuc n) = ltb n m

-- `<` on strings; the bytes of UTF-8 are ordered as the code points are
unfoldable pub lt_runes : Runes → Runes → Bool
lt_runes xs [] = false
lt_runes [] (y ∷ ys) = true
lt_runes (x ∷ xs) (y ∷ ys) = ltb x y || (x == y && lt_runes xs ys)

-- `cmp`, with the `<` of the type
abbrev pub cmp {ℓ} : {A : Type ℓ} → (A → A → Bool) → A → A → ℤ
cmp lt a b = if lt a b then negsuc 0 else if lt b a then pos 1 else pos 0

module _ (F : Floats) where
  unfoldable mutual
    -- `Equal`, behind the comparison of the kinds
    pub equal_as : Value F.Float → Value F.Float → Bool
    equal_as null null = true
    equal_as (bool a) (bool b) = same_bool a b
    equal_as (int a) (int b) = same_int a b
    equal_as (float a) (float b) = F.feq a b
    equal_as (string a) (string b) = same a b
    equal_as (bytes a) (bytes b) = same a b
    equal_as (path a) (path b) = same a b
    equal_as (duration a) (duration b) = same_int a b
    equal_as (ref a b c) (ref d e f) = same a d && same b e && same c f
    equal_as (error_val a) (error_val b) = same a b
    equal_as (rec a) (rec b) = count a == count b && equal_fields a b
    equal_as (list a) (list b) = equal_elems a b
    equal_as _ _ = false

    -- the loop over the keys of a record
    pub equal_fields : Fields F.Float → Fields F.Float → Bool
    equal_fields end b = true
    equal_fields (field k v fs) b =
        let rest = equal_fields fs b in
        elim (get_field b k) [
          | some w ↦ (same (kind v) (kind w) && equal_as v w) && rest
          | none ↦ false
        ]

    -- the comparison of the lengths, and the loop over the elements
    pub equal_elems : Elems F.Float → Elems F.Float → Bool
    equal_elems nil nil = true
    equal_elems nil (cons b bs) = false
    equal_elems (cons a rest) nil = false
    equal_elems (cons a rest) (cons b bs) =
        (same (kind a) (kind b) && equal_as a b) && equal_elems rest bs

  -- `Equal`
  unfoldable pub equal : Value F.Float → Value F.Float → Bool
  equal a b = same (kind a) (kind b) && equal_as a b

  -- `Compare`; `none` is its error
  unfoldable pub compare : Value F.Float → Value F.Float → Option ℤ
  compare (int a) (int b) = some (cmp lt_int a b)
  compare (int a) (float b) = some (cmp F.flt (F.of_int a) b)
  compare (float a) (int b) = some (cmp F.flt a (F.of_int b))
  compare (float a) (float b) = some (cmp F.flt a b)
  compare (string a) (string b) = some (cmp lt_runes a b)
  compare (path a) (path b) = some (cmp lt_runes a b)
  compare (duration a) (duration b) = some (cmp lt_int a b)
  compare _ _ = none
