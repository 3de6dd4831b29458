-- ===== src/Prelude/Distinct.antt =====
-- Membership in a list of texts, and lists without repetition.
use sh.Prelude.Tests.{Bool-cases}
use sh.Prelude.Text.{Runes, same, same_iff}
use mathlib.Core.Path.{◌≡◌, refl, sym, ◌∙◌}
use mathlib.Core.Logic.{inl, inr}
use mathlib.Core.Bool.{Bool, false, ◌||◌}
use mathlib.Core.List.{List, [], ◌∷◌, ◌++◌}
use native.Mathlib.Omega.{arith}

abbrev pub seen : Runes → List Runes → Bool
seen name [] = false
seen name (x ∷ xs) = same name x || seen name xs

-- No text twice.
abbrev pub Distinct : List Runes → Type 0
Distinct [] = Unit
Distinct (x ∷ xs) = (seen x xs ≡ false) × Distinct xs

pub seen-append : (x y : Runes) (xs : List Runes) → seen x (xs ++ y ∷ []) ≡ (seen x xs || same x y)
seen-append x y [] = ground arith
seen-append x y (z ∷ xs) = ground (arith, seen-append x y xs)

pub same_comm : (x y : Runes) → same x y ≡ same y x
same_comm x y = elim (Bool-cases (same x y)) [
  | inl e ↦ e ∙ sym ((same_iff y x).1 (sym ((same_iff x y).0 e)))
  | inr e ↦ elim (Bool-cases (same y x)) [
    | inl f ↦ (same_iff x y).1 (sym ((same_iff y x).0 f)) ∙ sym f
    | inr f ↦ e ∙ sym f
  ]
]

pub Distinct-append :
    (x : Runes) (xs : List Runes) → Distinct xs → seen x xs ≡ false → Distinct (xs ++ x ∷ [])
Distinct-append x [] d h = (refl, tt)
Distinct-append x (y ∷ xs) (d, ds) h =
    (ground (arith, seen-append y x xs, same_comm x y), Distinct-append x xs ds (ground arith))
