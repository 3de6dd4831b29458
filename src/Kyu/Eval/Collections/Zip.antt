-- ===== src/Kyu/Eval/Collections/Zip.antt =====
-- What zip of kyu/eval/collections.go returns.
use sh.Prelude.{ℕ, zero, suc, ◌≡◌, refl, sym, Option, none, some, [], ◌∷◌}
use sh.Kyu.Value.Data.{Value, Elems}
use sh.Kyu.Eval.{ok}
use sh.Kyu.Eval.Collections.{zip_elems, bi_zip}

unfoldable pub elem_at : {A : Type 0} → Elems A → ℕ → Option (Value A)
elem_at Elems.nil n = none
elem_at (Elems.cons x xs) zero = some x
elem_at (Elems.cons x xs) (suc n) = elem_at xs n

-- The pair of two elements, if both are there.
abbrev pub pair_of : {A : Type 0} → Option (Value A) → Option (Value A) → Option (Value A)
pair_of (some x) (some y) = some (Value.list (Elems.cons x (Elems.cons y Elems.nil)))
pair_of _ _ = none

pair_of-none : {A : Type 0} (x : Option (Value A)) → pair_of x none ≡ none
pair_of-none none = refl
pair_of-none (some x) = refl

zip_elems-elem_at :
    {A : Type 0} (xs ys : Elems A) (n : ℕ)
    → elem_at (zip_elems xs ys) n ≡ pair_of (elem_at xs n) (elem_at ys n)
unfolding zip_elems elem_at
zip_elems-elem_at Elems.nil ys n = refl
zip_elems-elem_at (Elems.cons x xs) Elems.nil n = sym (pair_of-none (elem_at (Elems.cons x xs) n))
zip_elems-elem_at (Elems.cons x xs) (Elems.cons y ys) zero = refl
zip_elems-elem_at (Elems.cons x xs) (Elems.cons y ys) (suc n) = zip_elems-elem_at xs ys n

-- `xs | zip(ys)` succeeds for two lists, and its element at every position is the pair of the elements of
-- `xs` and `ys` at that position, in this order, and there is none where one of the lists has ended.
pub bi_zip-elem_at :
    {A : Type 0} (xs ys : Elems A)
    → (out : Elems A) × (bi_zip (Value.list ys ∷ Value.list xs ∷ []) ≡ ok (Value.list out))
      × ((n : ℕ) → elem_at out n ≡ pair_of (elem_at xs n) (elem_at ys n))
unfolding bi_zip
bi_zip-elem_at xs ys = (zip_elems xs ys, refl, zip_elems-elem_at xs ys)
