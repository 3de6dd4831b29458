-- ===== src/Kyu/Value/Record.antt =====
-- `Record` of kyu/value/value.go: an ordered map of fields, each with a plain value or a live backing.
-- A Go map is an association list. What lies behind a backing, a file of the namespace, is a
-- parameter: `World` is its state.
pub mod Maps
pub mod Fields
pub mod Shape
pub mod Clone
use sh.Prelude.{
  ℕ, Option, none, some, List, [], ◌∷◌, ◌++◌, ◌⊎◌, inl, inr, Runes, length, same, if◌then◌else◌,
}

-- FieldBacking: `read_field` and `write_field` may fail with an error's text.
pub record Backings : Type 1 where
  pub Value : Type 0
  pub Backing : Type 0
  pub World : Type 0
  pub read_field : Backing → World → Value ⊎ Runes
  pub write_field : Backing → Value → World → World × Option Runes
  -- `ErrorVal{Msg: …}`
  pub error_val : Runes → Value
  -- the nil interface, which a missing key of a Go map gives
  pub nil : Value

-- map[string]A
abbrev pub Map : Type 0 → Type 0
Map A = List (Runes × A)

module _ {A : Type 0} where
  unfoldable pub find : Map A → Runes → Option A
  find [] key = none
  find ((k, v) ∷ kvs) key = let rest = find kvs key in if same key k then some v else rest

  -- `delete(m, key)`
  unfoldable pub remove : Map A → Runes → Map A
  remove [] key = []
  remove ((k, v) ∷ kvs) key =
      let rest = remove kvs key in if same key k then rest else (k, v) ∷ rest

  -- `m[key] = v`
  abbrev pub put : Map A → Runes → A → Map A
  put kvs key v = (key, v) ∷ kvs

module _ (F : Backings) where
  pub record Record : Type 0 where
    pub keys : List Runes
    pub vals : Map F.Value
    pub index : Map ℕ
    pub backing : Map F.Backing

  abbrev pub new_record : Record
  new_record = record { keys = []; vals = []; index = []; backing = [] }

  -- `r.index[name]`, if it is new, with its place in `r.keys`
  unfoldable pub add_key : Record → Runes → Record
  add_key r name = elim (find r.index name) [
    | some i ↦ r
    | none ↦ record r { index = put r.index name (length r.keys); keys = r.keys ++ name ∷ [] }
  ]

  abbrev pub reading : F.Value ⊎ Runes → F.Value
  reading (inl v) = v
  reading (inr err) = F.error_val err

  -- `Get`
  unfoldable pub get : Record → F.World → Runes → Option F.Value
  get r w name = elim (find r.backing name) [
    | some b ↦ some (reading (F.read_field b w))
    | none ↦ find r.vals name
  ]

  -- `Set`
  unfoldable pub set : Record → Runes → F.Value → Record
  unfolding add_key remove
  set r name v =
      let named = add_key r name in
      record named { backing = remove named.backing name; vals = put named.vals name v }

  -- `SetField`, by what `r.backing[name]` is
  abbrev pub set_field_on :
      Record → F.World → Runes → F.Value → Option F.Backing → Record × F.World × Option Runes
  set_field_on r w name v (some b) = let (w', e) = F.write_field b v w in (r, w', e)
  set_field_on r w name v none = (set r name v, w, none)

  unfoldable pub set_field : Record → F.World → Runes → F.Value → Record × F.World × Option Runes
  set_field r w name v = set_field_on r w name v (find r.backing name)

  -- `SetBacking`
  unfoldable pub set_backing : Record → Runes → F.Backing → Record
  unfolding add_key remove
  set_backing r name b =
      let named = add_key r name in
      record named { backing = put named.backing name b; vals = remove named.vals name }

  abbrev pub or_nil : Option F.Value → F.Value
  or_nil (some v) = v
  or_nil none = F.nil

  -- One round of the loop of `Clone`, by what `r.backing[k]` is.
  abbrev pub copy_field_on : Record → Runes → Option F.Value → Option F.Backing → Record
  copy_field_on c k v (some b) = set_backing c k b
  copy_field_on c k v none = set c k (or_nil v)

  unfoldable pub copy_field : Record → Record → Runes → Record
  copy_field r c k = copy_field_on c k (find r.vals k) (find r.backing k)

  unfoldable pub clone_onto : Record → Record → List Runes → Record
  unfolding copy_field
  clone_onto r c [] = c
  clone_onto r c (k ∷ ks) = clone_onto r (copy_field r c k) ks

  -- `Clone`
  unfoldable pub clone : Record → Record
  unfolding clone_onto
  clone r = clone_onto r new_record r.keys

  unfoldable pub set_all : Record → List (Runes × F.Value) → Record
  unfolding set
  set_all r [] = r
  set_all r ((name, v) ∷ fields) = set_all (set r name v) fields

  -- `RecordFrom`
  unfoldable pub record_from : List (Runes × F.Value) → Record
  unfolding set_all
  record_from fields = set_all new_record fields
