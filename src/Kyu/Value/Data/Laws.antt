-- ===== src/Kyu/Value/Data/Laws.antt =====
-- Equal, Compare and Truthy of kyu/value/value.go against each other.
use sh.Prelude.{
  zero, suc, ◌≡◌, refl, ap, inl, inr, Bool, true, false, Option, none, some, [], ◌∷◌, Runes, same,
  same_iff, arith, Bool-cases,
}
use sh.Prelude.Int.{ℤ, pos, negsuc}
use sh.Kyu.Value.Data.{
  Floats, Value, null, int, float, string, path, duration, kind, same_int, lt_int, lt_runes, cmp,
  equal_as, equal, compare,
}

pub same_int_refl : (a : ℤ) → same_int a a ≡ true
same_int_refl (pos n) = ground arith
same_int_refl (negsuc n) = ground arith

lt_int-asym : (a b : ℤ) → lt_int a b ≡ true → lt_int b a ≡ false
lt_int-asym (pos m) (pos n) h = ground (arith, h)
lt_int-asym (pos m) (negsuc n) h = cc
lt_int-asym (negsuc m) (pos n) h = refl
lt_int-asym (negsuc m) (negsuc n) h = ground (arith, h)

lt_int-total : (a b : ℤ) → lt_int a b ≡ false → lt_int b a ≡ false → same_int a b ≡ true
lt_int-total (pos m) (pos n) h k = ground (arith, h, k)
lt_int-total (pos m) (negsuc n) h k = cc
lt_int-total (negsuc m) (pos n) h k = cc
lt_int-total (negsuc m) (negsuc n) h k = ground (arith, h, k)

lt_runes-asym : (a b : Runes) → lt_runes a b ≡ true → lt_runes b a ≡ false
unfolding lt_runes
lt_runes-asym [] [] h = cc
lt_runes-asym [] (y ∷ ys) h = refl
lt_runes-asym (x ∷ xs) [] h = cc
lt_runes-asym (x ∷ xs) (y ∷ ys) h = ground (arith, h, lt_runes-asym xs ys)

lt_runes-total : (a b : Runes) → lt_runes a b ≡ false → lt_runes b a ≡ false → same a b ≡ true
unfolding lt_runes same
lt_runes-total [] [] h k = refl
lt_runes-total [] (y ∷ ys) h k = cc
lt_runes-total (x ∷ xs) [] h k = cc
lt_runes-total (x ∷ xs) (y ∷ ys) h k = ground (arith, h, k, lt_runes-total xs ys)

abbrev pub negate : ℤ → ℤ
negate (pos zero) = pos 0
negate (pos (suc n)) = negsuc n
negate (negsuc n) = pos (suc n)

cmp-flip :
    {A : Type 0} (lt : A → A → Bool) (a b : A)
    → (lt a b ≡ true → lt b a ≡ false)
    → cmp lt b a ≡ negate (cmp lt a b)
cmp-flip lt a b h = elim (Bool-cases (lt a b)) [
  | inl e ↦ rw (e, h e) refl
  | inr e ↦ elim (Bool-cases (lt b a)) [ inl f ↦ rw (e, f) refl | inr f ↦ rw (e, f) refl ]
]

cmp-zero :
    {A : Type 0} (lt : A → A → Bool) (a b : A)
    → cmp lt a b ≡ pos 0
    → (lt a b ≡ false) × (lt b a ≡ false)
cmp-zero lt a b h = ground (arith, h)

abbrev pub negated : Option ℤ → Option ℤ
negated none = none
negated (some n) = some (negate n)

module _ (F : Floats) where
  -- Compare answers the other way round when its arguments are exchanged, its error included,
  -- provided that no two floats are each less than the other.
  pub compare-flip :
      ((x y : F.Float) → F.flt x y ≡ true → F.flt y x ≡ false)
      → (a b : Value F.Float) → compare F b a ≡ negated (compare F a b)
  unfolding compare
  compare-flip asym (int a) (int b) = ap some (cmp-flip lt_int a b (lt_int-asym a b))
  compare-flip asym (int a) (float b) =
      ap some (cmp-flip F.flt (F.of_int a) b (asym (F.of_int a) b))
  compare-flip asym (float a) (int b) =
      ap some (cmp-flip F.flt a (F.of_int b) (asym a (F.of_int b)))
  compare-flip asym (float a) (float b) = ap some (cmp-flip F.flt a b (asym a b))
  compare-flip asym (string a) (string b) = ap some (cmp-flip lt_runes a b (lt_runes-asym a b))
  compare-flip asym (path a) (path b) = ap some (cmp-flip lt_runes a b (lt_runes-asym a b))
  compare-flip asym (duration a) (duration b) = ap some (cmp-flip lt_int a b (lt_int-asym a b))
  compare-flip asym _ null = refl
  compare-flip asym _ _ = refl

  cmp_zero-same : (a b : ℤ) → cmp lt_int a b ≡ pos 0 → same_int a b ≡ true
  cmp_zero-same a b h = let z = cmp-zero lt_int a b h in lt_int-total a b z.0 z.1

  cmp_zero-runes : (a b : Runes) → cmp lt_runes a b ≡ pos 0 → same a b ≡ true
  cmp_zero-runes a b h = let z = cmp-zero lt_runes a b h in lt_runes-total a b z.0 z.1

  abbrev is_float : Value F.Float → Bool
  is_float (float x) = true
  is_float _ = false

  same_kind : (k : Runes) → same k k ≡ true
  same_kind k = (same_iff k k).1 refl

  -- Two values that Compare finds level, neither of them a float, are Equal.
  pub compare_level :
      (a b : Value F.Float)
      → is_float a ≡ false
      → is_float b ≡ false
      → compare F a b ≡ some (pos 0)
      → equal F a b ≡ true
  unfolding compare equal kind same equal_as
  compare_level (int a) (int b) p q h = cmp_zero-same a b (ground (arith, h))
  compare_level (string a) (string b) p q h = cmp_zero-runes a b (ground (arith, h))
  compare_level (path a) (path b) p q h = cmp_zero-runes a b (ground (arith, h))
  compare_level (duration a) (duration b) p q h = cmp_zero-same a b (ground (arith, h))
  compare_level (float a) b p q h = cc
  compare_level _ (float b) p q h = cc
  compare_level _ _ p q h = cc
