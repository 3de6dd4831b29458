-- ===== src/Prelude/Text.antt =====
-- Text as lists of code points (Go's `[]rune`), and their comparison.
use Prim.Native.Nat.{ℕ}
use Prim.Native.Char.{code}
use Prim.Native.String.{String}
use mathlib.Core.Path.{◌≡◌, refl}
use mathlib.Core.Logic.{◌↔◌}
use mathlib.Core.Bool.{Bool, true, false, ◌&&◌}
use mathlib.Core.List.{List, [], ◌∷◌}
use native.Mathlib.Omega.{arith}
use sh.Prelude.Tests.{◌==◌}

abbrev pub Runes : Type 0
Runes = List ℕ

abbrev pub codes : String → Runes
codes String.[] = []
codes (String.◌∷◌ c s) = code c ∷ codes s

-- Go's `==` on strings.
unfoldable pub same : Runes → Runes → Bool
same [] [] = true
same [] (y ∷ ys) = false
same (x ∷ xs) [] = false
same (x ∷ xs) (y ∷ ys) = x == y && same xs ys

pub same_iff : (xs ys : Runes) → (same xs ys ≡ true) ↔ (xs ≡ ys)
unfolding same
same_iff [] [] = (λ _. refl, λ _. refl)
same_iff [] (y ∷ ys) = (λ e. cc, λ e. cc)
same_iff (x ∷ xs) [] = (λ e. cc, λ e. cc)
same_iff (x ∷ xs) (y ∷ ys) =
    (λ e. ground (arith, (same_iff xs ys).0), λ e. ground (arith, (same_iff xs ys).1))
