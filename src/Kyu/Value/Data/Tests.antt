-- ===== src/Kyu/Value/Data/Tests.antt =====
-- Values compared, over floats that are natural numbers.
use sh.Prelude.{ℕ, ◌≡◌, refl, true, false, some, codes, same, ltb, ◌==◌, arith}
use sh.Prelude.Int.{pos, negsuc, pos_part}
use sh.Kyu.Value.Data.{
  Floats, Value, null, int, string, rec, list, nil, cons, end, field, kind, count, get_field,
  lt_runes, equal, equal_as, compare,
}
use sh.Kyu.Value.Data.Laws.{negated, compare-flip, compare_level}

abbrev naturals : Floats
naturals = record { Float = ℕ; feq = ◌==◌; flt = ltb; of_int = pos_part }

naturals-asym : (x y : ℕ) → ltb x y ≡ true → ltb y x ≡ false
naturals-asym x y h = ground (arith, h)

compare-flip_example :
    compare naturals (int (pos 2)) (int (negsuc 3))
    ≡ negated (compare naturals (int (negsuc 3)) (int (pos 2)))
compare-flip_example = compare-flip naturals naturals-asym (int (negsuc 3)) (int (pos 2))

level : compare naturals (string (codes "ab")) (string (codes "ab")) ≡ some (pos 0)
unfolding compare lt_runes
level = refl

compare_level_example : equal naturals (string (codes "ab")) (string (codes "ab")) ≡ true
compare_level_example =
    compare_level naturals (string (codes "ab")) (string (codes "ab")) refl refl level

-- { a: [1, "x"], b: null }
abbrev sample : Value ℕ
sample = rec (
    field (codes "a") (list (cons (int (pos 1)) (cons (string (codes "x")) nil)))
      (field (codes "b") null end))

-- { b: null, a: [1, "x"] }
abbrev turned : Value ℕ
turned = rec (
    field (codes "b") null
      (field (codes "a") (list (cons (int (pos 1)) (cons (string (codes "x")) nil))) end))

sample-turned : equal naturals sample turned ≡ true
unfolding equal equal_as get_field kind same count
sample-turned = refl
