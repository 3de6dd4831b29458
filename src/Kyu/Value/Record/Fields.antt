-- ===== src/Kyu/Value/Record/Fields.antt =====
-- What the fields of a record of kyu/value/value.go hold after its operations.
use sh.Prelude.{
  ◌≡◌, ap, ◌∙◌, inl, inr, none, some, ◌⊎◌, Runes, same, if◌then◌else◌, arith, Option-cases,
}
use sh.Kyu.Value.Record.{
  Backings, find, Record, add_key, get, set, set_field, set_field_on, set_backing, reading,
}
use sh.Kyu.Value.Record.Maps.{find-put, find-remove}

module _ (F : Backings) where
  pub add_key-vals : (r : Record F) (n : Runes) → (add_key F r n).vals ≡ r.vals
  unfolding add_key
  add_key-vals r n = ground arith

  pub add_key-backing : (r : Record F) (n : Runes) → (add_key F r n).backing ≡ r.backing
  unfolding add_key
  add_key-backing r n = ground arith

  pub get-set :
      (r : Record F) (w : F.World) (n name : Runes) (v : F.Value)
      → get F (set F r n v) w name ≡ (if same name n then some v else get F r w name)
  unfolding get set
  get-set r w n name v = ground (
    arith,
    add_key-vals r n,
    add_key-backing r n,
    find-put r.vals n v name,
    find-remove r.backing n name,
  )

  pub get-set_backing :
      (r : Record F) (w : F.World) (n name : Runes) (b : F.Backing)
      → get F (set_backing F r n b) w name
        ≡ (if same name n then some (reading F (F.read_field b w)) else get F r w name)
  unfolding get set_backing
  get-set_backing r w n name b = ground (
    arith,
    add_key-vals r n,
    add_key-backing r n,
    find-put r.backing n b name,
    find-remove r.vals n name,
  )

  -- An assignment to a live field writes through: the record stays, and the world and the error are
  -- those of the write. An assignment to any other field changes no world and returns no error, and
  -- behind it that field reads as the value, and every other field as before, in every world.
  pub set_field-get :
      (r : Record F) (w : F.World) (n : Runes) (v : F.Value)
      → ((b : F.Backing) × (find r.backing n ≡ some b)
          × ((set_field F r w n v).0 ≡ r)
          × ((set_field F r w n v).1 ≡ (F.write_field b v w).0)
          × ((set_field F r w n v).2 ≡ (F.write_field b v w).1))
        ⊎ ((find r.backing n ≡ none)
            × ((set_field F r w n v).1 ≡ w)
            × ((set_field F r w n v).2 ≡ none)
            × ((w' : F.World) (name : Runes)
                → get F (set_field F r w n v).0 w' name
                  ≡ (if same name n then some v else get F r w' name)))
  set_field-get r w n v = elim (Option-cases (find r.backing n)) [
    | inl e ↦
        let is : set_field F r w n v ≡ (set F r n v, w, none) =
          unfold set_field in ap (set_field_on F r w n v) e in
        inr (
          e,
          ap (λ o. o.1) is,
          ap (λ o. o.2) is,
          λ w' name. ap (λ o. get F o.0 w' name) is ∙ get-set r w' n name v,
        )
    | inr (b, e) ↦
        let is : set_field F r w n v ≡ (r, (F.write_field b v w).0, (F.write_field b v w).1) =
          unfold set_field in ap (set_field_on F r w n v) e in
        inl (b, e, ap (λ o. o.0) is, ap (λ o. o.1) is, ap (λ o. o.2) is)
  ]
