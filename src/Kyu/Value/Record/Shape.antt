-- ===== src/Kyu/Value/Record/Shape.antt =====
-- How the keys, the index and the two maps of a record of kyu/value/value.go agree.
use sh.Prelude.{
  ℕ, zero, suc, ◌≡◌, refl, sym, ◌∙◌, subst, Bool, true, false, ◌||◌, ◌&&◌, Option, none, some, List,
  [], ◌∷◌, ◌++◌, Runes, same, if◌then◌else◌, arith, length,
}
use sh.Prelude.Distinct.{seen, seen-append, Distinct, Distinct-append}
use sh.Kyu.Value.Record.{Backings, find, Record, new_record, add_key, set, set_backing}
use sh.Kyu.Value.Record.Maps.{is_some, same-eq, find-put, find-remove}
use sh.Kyu.Value.Record.Fields.{add_key-vals, add_key-backing}

-- The element at an index.
abbrev pub nth : List Runes → ℕ → Option Runes
nth [] i = none
nth (x ∷ xs) zero = some x
nth (x ∷ xs) (suc i) = nth xs i

nth-append :
    (xs : List Runes) (y x : Runes) (i : ℕ) → nth xs i ≡ some x → nth (xs ++ y ∷ []) i ≡ some x
nth-append [] y x i h = cc
nth-append (z ∷ xs) y x zero h = h
nth-append (z ∷ xs) y x (suc i) h = nth-append xs y x i h

nth-length : (xs : List Runes) (y : Runes) → nth (xs ++ y ∷ []) (length xs) ≡ some y
nth-length [] y = refl
nth-length (z ∷ xs) y = nth-length xs y

module _ (F : Backings) where
  -- Each key once, at the place that the index gives, and a value or a backing for exactly the keys.
  pub record IsWell (r : Record F) : Type 0 where
    pub distinct : Distinct r.keys
    pub listed : (name : Runes) → is_some (find r.index name) ≡ seen name r.keys
    pub placed : (name : Runes) (i : ℕ) → find r.index name ≡ some i → nth r.keys i ≡ some name
    pub held :
        (name : Runes)
        → (is_some (find r.vals name) || is_some (find r.backing name)) ≡ seen name r.keys
    pub apart :
        (name : Runes) → (is_some (find r.vals name) && is_some (find r.backing name)) ≡ false

  pub new_record-IsWell : IsWell (new_record F)
  unfolding find
  new_record-IsWell = record {
    distinct = tt;
    listed = λ name. refl;
    placed = λ name i h. cc;
    held = λ name. refl;
    apart = λ name. refl;
  }

  add_key-seen :
      (r : Record F) (n name : Runes)
      → IsWell r
      → seen name (add_key F r n).keys ≡ (same name n || seen name r.keys)
  unfolding add_key
  add_key-seen r n name h = ground (arith, h.listed n, seen-append name n r.keys, same-eq name n)

  add_key-listed :
      (r : Record F) (n name : Runes)
      → IsWell r
      → is_some (find (add_key F r n).index name) ≡ (same name n || seen name r.keys)
  unfolding add_key
  add_key-listed r n name h =
      ground
        (arith, h.listed n, h.listed name, same-eq name n, find-put r.index n (length r.keys) name)

  add_key-keys :
      (r : Record F) (n : Runes)
      → IsWell r
      → (add_key F r n).keys ≡ (if seen n r.keys then r.keys else r.keys ++ n ∷ [])
  unfolding add_key
  add_key-keys r n h = ground (arith, h.listed n)

  Distinct-if :
      (b : Bool) (n : Runes) (keys : List Runes)
      → Distinct keys
      → (b ≡ false → seen n keys ≡ false)
      → Distinct (if b then keys else keys ++ n ∷ [])
  Distinct-if true n keys d h = d
  Distinct-if false n keys d h = Distinct-append n keys d (h refl)

  add_key-Distinct : (r : Record F) (n : Runes) → IsWell r → Distinct (add_key F r n).keys
  add_key-Distinct r n h =
      subst Distinct (sym (add_key-keys r n h))
        (Distinct-if (seen n r.keys) n r.keys h.distinct (λ e. e))

  add_key-placed :
      (r : Record F) (n name : Runes) (i : ℕ)
      → IsWell r
      → find (add_key F r n).index name ≡ some i
      → nth (add_key F r n).keys i ≡ some name
  unfolding add_key
  add_key-placed r n name i h e = ground (
    arith,
    h.placed name i,
    same-eq name n,
    find-put r.index n (length r.keys) name,
    nth-length r.keys n,
    nth-append r.keys n name i,
  )

  pub set-IsWell : (r : Record F) (n : Runes) (v : F.Value) → IsWell r → IsWell (set F r n v)
  unfolding set
  set-IsWell r n v h = record {
    distinct = add_key-Distinct r n h;
    listed = λ name. add_key-listed r n name h ∙ sym (add_key-seen r n name h);
    placed = λ name i e. add_key-placed r n name i h e;
    held = λ name. ground (
      arith,
      h.held name,
      add_key-seen r n name h,
      add_key-vals F r n,
      add_key-backing F r n,
      find-put r.vals n v name,
      find-remove r.backing n name,
    );
    apart = λ name. ground (
      arith,
      h.apart name,
      add_key-vals F r n,
      add_key-backing F r n,
      find-put r.vals n v name,
      find-remove r.backing n name,
    );
  }

  pub set_backing-IsWell :
      (r : Record F) (n : Runes) (b : F.Backing) → IsWell r → IsWell (set_backing F r n b)
  unfolding set_backing
  set_backing-IsWell r n b h = record {
    distinct = add_key-Distinct r n h;
    listed = λ name. add_key-listed r n name h ∙ sym (add_key-seen r n name h);
    placed = λ name i e. add_key-placed r n name i h e;
    held = λ name. ground (
      arith,
      h.held name,
      add_key-seen r n name h,
      add_key-vals F r n,
      add_key-backing F r n,
      find-put r.backing n b name,
      find-remove r.vals n name,
    );
    apart = λ name. ground (
      arith,
      h.apart name,
      add_key-vals F r n,
      add_key-backing F r n,
      find-put r.backing n b name,
      find-remove r.vals n name,
    );
  }

  -- An assigned field keeps its place among the keys, and a new one comes last.
  pub set-keys :
      (r : Record F) (n : Runes) (v : F.Value)
      → IsWell r
      → (set F r n v).keys ≡ (if seen n r.keys then r.keys else r.keys ++ n ∷ [])
  unfolding set
  set-keys r n v h = add_key-keys r n h

  pub set_backing-keys :
      (r : Record F) (n : Runes) (b : F.Backing)
      → IsWell r
      → (set_backing F r n b).keys ≡ (if seen n r.keys then r.keys else r.keys ++ n ∷ [])
  unfolding set_backing
  set_backing-keys r n b h = add_key-keys r n h
