-- ===== src/Kyu/Value/Record/Clone.antt =====
-- `Clone` of kyu/value/value.go, and records that kyu's operations have built.
use sh.Prelude.{
  ◌≡◌, refl, sym, ap, ◌∙◌, subst, inl, inr, true, false, ◌||◌, none, some, List, [], ◌∷◌, ◌++◌, ◌⊎◌,
  Runes, same, if◌then◌else◌, arith, Option-cases, append_assoc, append-nil,
}
use sh.Prelude.Distinct.{seen, seen-append, same_comm, Distinct}
use sh.Kyu.Value.Record.{
  Backings, find, Record, new_record, get, set, set_field, set_backing, copy_field, copy_field_on,
  set_field_on, clone_onto, clone, reading, or_nil, set_all, record_from,
}
use sh.Kyu.Value.Record.Maps.{is_some, same-eq, same_refl}
use sh.Kyu.Value.Record.Fields.{get-set, get-set_backing}
use sh.Kyu.Value.Record.Shape.{
  IsWell, new_record-IsWell, set-IsWell, set_backing-IsWell, set-keys, set_backing-keys,
}

module _ (F : Backings) where
  copy_field-cases :
      (r c : Record F) (k : Runes)
      → ((b : F.Backing) × (find r.backing k ≡ some b) × (copy_field F r c k ≡ set_backing F c k b))
        ⊎ ((find r.backing k ≡ none) × (copy_field F r c k ≡ set F c k (or_nil F (find r.vals k))))
  copy_field-cases r c k = elim (Option-cases (find r.backing k)) [
    | inl e ↦ inr (e, unfold copy_field in ap (copy_field_on F c k (find r.vals k)) e)
    | inr (b, e) ↦ inl (b, e, unfold copy_field in ap (copy_field_on F c k (find r.vals k)) e)
  ]

  get-backed :
      (r : Record F) (w : F.World) (k name : Runes) (b : F.Backing)
      → find r.backing k ≡ some b
      → same name k ≡ true
      → get F r w name ≡ some (reading F (F.read_field b w))
  unfolding get
  get-backed r w k name b e h = ground (arith, e, same-eq name k)

  get-plain :
      (r : Record F) (w : F.World) (k name : Runes)
      → (is_some (find r.vals k) || is_some (find r.backing k)) ≡ true
      → find r.backing k ≡ none
      → same name k ≡ true
      → get F r w name ≡ some (or_nil F (find r.vals k))
  unfolding get
  get-plain r w k name held e h = ground (arith, e, held, same-eq name k)

  copy_field-get :
      (r c : Record F) (w : F.World) (k name : Runes)
      → (is_some (find r.vals k) || is_some (find r.backing k)) ≡ true
      → get F (copy_field F r c k) w name ≡ (if same name k then get F r w name else get F c w name)
  copy_field-get r c w k name h = elim (copy_field-cases r c k) [
    | inl (b, e, f) ↦ ground (arith, f, get-set_backing F c w k name b, get-backed r w k name b e)
    | inr (e, f) ↦
        ground (arith, f, get-set F c w k name (or_nil F (find r.vals k)), get-plain r w k name h e)
  ]

  -- Every key of a list has a value or a backing.
  abbrev AllHeld : Record F → List Runes → Type 0
  AllHeld r [] = Unit
  AllHeld r (k ∷ ks) =
      ((is_some (find r.vals k) || is_some (find r.backing k)) ≡ true) × AllHeld r ks

  clone_onto-get :
      (r c : Record F) (w : F.World) (ks : List Runes) (name : Runes)
      → AllHeld r ks
      → get F (clone_onto F r c ks) w name
        ≡ (if seen name ks then get F r w name else get F c w name)
  unfolding clone_onto
  clone_onto-get r c w [] name h = refl
  clone_onto-get r c w (k ∷ ks) name (h, hs) =
      ground
        (arith, clone_onto-get r (copy_field F r c k) w ks name hs, copy_field-get r c w k name h)

  copy_field-IsWell : (r c : Record F) (k : Runes) → IsWell F c → IsWell F (copy_field F r c k)
  copy_field-IsWell r c k h = elim (copy_field-cases r c k) [
    | inl (b, e, f) ↦ subst (IsWell F) (sym f) (set_backing-IsWell F c k b h)
    | inr (e, f) ↦ subst (IsWell F) (sym f) (set-IsWell F c k (or_nil F (find r.vals k)) h)
  ]

  clone_onto-IsWell :
      (r c : Record F) (ks : List Runes) → IsWell F c → IsWell F (clone_onto F r c ks)
  unfolding clone_onto
  clone_onto-IsWell r c [] h = h
  clone_onto-IsWell r c (k ∷ ks) h =
      clone_onto-IsWell r (copy_field F r c k) ks (copy_field-IsWell r c k h)

  copy_field-keys :
      (r c : Record F) (k : Runes)
      → IsWell F c
      → seen k c.keys ≡ false
      → (copy_field F r c k).keys ≡ c.keys ++ k ∷ []
  copy_field-keys r c k h new = elim (copy_field-cases r c k) [
    | inl (b, e, f) ↦ ap (λ x. x.keys) f ∙ rw (set_backing-keys F c k b h) (rw new refl)
    | inr (e, f) ↦
        ap (λ x. x.keys) f ∙ rw (set-keys F c k (or_nil F (find r.vals k)) h) (rw new refl)
  ]

  -- No text of one list is in the other.
  abbrev Apart : List Runes → List Runes → Type 0
  Apart [] seen_keys = Unit
  Apart (k ∷ ks) seen_keys = (seen k seen_keys ≡ false) × Apart ks seen_keys

  Apart-append :
      (ks xs : List Runes) (x : Runes) → Apart ks xs → seen x ks ≡ false → Apart ks (xs ++ x ∷ [])
  Apart-append [] xs x a h = tt
  Apart-append (k ∷ ks) xs x (a, others) h = (
    ground (arith, a, h, seen-append k x xs, same_comm k x),
    Apart-append ks xs x others (ground (arith, h)),
  )

  clone_onto-keys :
      (r c : Record F) (ks : List Runes)
      → IsWell F c
      → Distinct ks
      → Apart ks c.keys
      → (clone_onto F r c ks).keys ≡ c.keys ++ ks
  unfolding clone_onto
  clone_onto-keys r c [] h d a = sym (append-nil c.keys)
  clone_onto-keys r c (k ∷ ks) h (d, ds) (a, others) =
      let e = copy_field-keys r c k h a in
      clone_onto-keys r (copy_field F r c k) ks (copy_field-IsWell r c k h) ds
        (subst (Apart ks) (sym e) (Apart-append ks c.keys k others d))
      ∙ ap (◌++ ks) e
      ∙ append_assoc c.keys (k ∷ []) ks

  Apart-nil : (ks : List Runes) → Apart ks []
  Apart-nil [] = tt
  Apart-nil (k ∷ ks) = (refl, Apart-nil ks)

  IsWell-AllHeld :
      (r : Record F) (ks : List Runes)
      → IsWell F r
      → ((k : Runes) → seen k ks ≡ true → seen k r.keys ≡ true)
      → AllHeld r ks
  IsWell-AllHeld r [] h sub = tt
  IsWell-AllHeld r (k ∷ ks) h sub = (
    h.held k ∙ sub k (ground (arith, same_refl k)),
    IsWell-AllHeld r ks h (λ x e. sub x (ground (arith, e))),
  )

  get-absent :
      (r : Record F) (w : F.World) (name : Runes)
      → IsWell F r
      → seen name r.keys ≡ false
      → get F r w name ≡ none
  unfolding get
  get-absent r w name h e = ground (arith, h.held name, e)

  -- A clone of a well-formed record is well-formed and has its keys in their order, and in every
  -- world each field, plain or live, reads the same in both.
  pub clone-same :
      (r : Record F)
      → IsWell F r
      → IsWell F (clone F r)
        × ((clone F r).keys ≡ r.keys)
        × ((w : F.World) (name : Runes) → get F (clone F r) w name ≡ get F r w name)
  unfolding clone
  clone-same r h =
      let empty = new_record-IsWell F in
      (
        clone_onto-IsWell r (new_record F) r.keys empty,
        clone_onto-keys r (new_record F) r.keys empty h.distinct (Apart-nil r.keys),
        λ w name. ground (
          arith,
          clone_onto-get r (new_record F) w r.keys name (IsWell-AllHeld r r.keys h (λ k e. e)),
          get-absent r w name h,
          get-absent (new_record F) w name empty,
        ),
      )

  -- Records as kyu builds them.
  pub data Built : Record F → Type 0 where
    made : (fields : List (Runes × F.Value)) → Built (record_from F fields)
    assigned :
        {r : Record F} (w : F.World) (n : Runes) (v : F.Value)
        → Built r
        → Built (set_field F r w n v).0
    replaced : {r : Record F} (n : Runes) (v : F.Value) → Built r → Built (set F r n v)
    backed : {r : Record F} (n : Runes) (b : F.Backing) → Built r → Built (set_backing F r n b)
    cloned : {r : Record F} → Built r → Built (clone F r)

  set_all-IsWell :
      (r : Record F) (fields : List (Runes × F.Value)) → IsWell F r → IsWell F (set_all F r fields)
  unfolding set_all
  set_all-IsWell r [] h = h
  set_all-IsWell r ((n, v) ∷ fields) h = set_all-IsWell (set F r n v) fields (set-IsWell F r n v h)

  set_field-record :
      (r : Record F) (w : F.World) (n : Runes) (v : F.Value)
      → ((set_field F r w n v).0 ≡ r) ⊎ ((set_field F r w n v).0 ≡ set F r n v)
  set_field-record r w n v = elim (Option-cases (find r.backing n)) [
    | inl e ↦ inr (unfold set_field in ap (λ o. (set_field_on F r w n v o).0) e)
    | inr (b, e) ↦ inl (unfold set_field in ap (λ o. (set_field_on F r w n v o).0) e)
  ]

  -- Every record that kyu builds is well-formed: no key stands twice, the index gives each key its
  -- place, and the keys are exactly the names with a plain value or a backing, never with both.
  pub Built-IsWell : {r : Record F} → Built r → IsWell F r
  Built-IsWell (made fields) =
      unfold record_from in set_all-IsWell (new_record F) fields (new_record-IsWell F)
  Built-IsWell (assigned {r} w n v h) = elim (set_field-record r w n v) [
    | inl e ↦ subst (IsWell F) (sym e) (Built-IsWell h)
    | inr e ↦ subst (IsWell F) (sym e) (set-IsWell F r n v (Built-IsWell h))
  ]
  Built-IsWell (replaced {r} n v h) = set-IsWell F r n v (Built-IsWell h)
  Built-IsWell (backed {r} n b h) = set_backing-IsWell F r n b (Built-IsWell h)
  Built-IsWell (cloned {r} h) = (clone-same r (Built-IsWell h)).0
