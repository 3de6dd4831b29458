-- ===== src/Kyu/Value/Record/Maps.antt =====
-- Go maps as association lists: a lookup behind an assignment and behind a `delete`.
use sh.Prelude.{
  ◌≡◌, refl, Bool, true, false, Option, none, some, [], ◌∷◌, Runes, same, same_iff, if◌then◌else◌,
  arith,
}
use sh.Kyu.Value.Record.{Map, find, remove, put}

abbrev pub is_some {ℓ} : {A : Type ℓ} → Option A → Bool
is_some none = false
is_some (some x) = true

pub same-eq : (x y : Runes) → same x y ≡ true → x ≡ y
same-eq x y = (same_iff x y).0

pub same_refl : (x : Runes) → same x x ≡ true
same_refl x = (same_iff x x).1 refl

module _ {A : Type 0} where
  pub find-put :
      (kvs : Map A) (k : Runes) (v : A) (name : Runes)
      → find (put kvs k v) name ≡ (if same name k then some v else find kvs name)
  unfolding find
  find-put kvs k v name = refl

  pub find-remove :
      (kvs : Map A) (k name : Runes)
      → find (remove kvs k) name ≡ (if same name k then none else find kvs name)
  unfolding find remove
  find-remove [] k name = ground arith
  find-remove ((e, v) ∷ kvs) k name =
      ground
        (arith, find-remove kvs k name, same-eq name k, same-eq name e, same-eq k e, same_refl e)
