-- ===== src/Kyu/Times/Phrase.antt =====
-- What the phrase of `humanizeDuration` in kyu/eval/timefmt.go says about the span.
use sh.Prelude.{
  ℕ, suc, ◌*◌, ◌/◌, ◌^◌, ◌≤◌, ◌<◌, ◌≡◌, ◌≢◌, refl, ◌⊎◌, inl, inr, Bool, true, false, ◌++◌,
  append_assoc, Runes, codes, ltb, ◌==◌, if◌then◌else◌, arith,
}
use sh.Prelude.Int.{ℤ, pos, negsuc}
use sh.Kyu.Times.{
  second, minute, hour, day, month, year, plural_unit, negate, phrase_of, frame, humanize_duration,
}

pub data Scale : Type 0 where
  seconds minutes hours days months years : Scale

-- in nanoseconds, with 30 days in a month and 365 in a year
abbrev pub size : Scale → ℕ
size Scale.seconds = 1000000000
size Scale.minutes = 60 * 1000000000
size Scale.hours = 60 * 60 * 1000000000
size Scale.days = 24 * 60 * 60 * 1000000000
size Scale.months = 30 * 24 * 60 * 60 * 1000000000
size Scale.years = 365 * 24 * 60 * 60 * 1000000000

abbrev pub unit_name : Scale → Runes
unit_name Scale.seconds = codes "second"
unit_name Scale.minutes = codes "minute"
unit_name Scale.hours = codes "hour"
unit_name Scale.days = codes "day"
unit_name Scale.months = codes "month"
unit_name Scale.years = codes "year"

-- A span is less than one of the next unit.
abbrev pub Below : Scale → ℕ → Type 0
Below Scale.seconds d = d < size Scale.minutes
Below Scale.minutes d = d < size Scale.hours
Below Scale.hours d = d < size Scale.days
Below Scale.days d = d < size Scale.months
Below Scale.months d = d < size Scale.years
Below Scale.years d = Unit

-- `phrase` is the whole number of units in the span `d`, at least one, and of no larger unit
-- does the span hold one.
pub record IsRounded (digits : ℕ → Runes) (d : ℕ) (phrase : Runes) : Type 0 where
  pub scale : Scale
  pub amount : ℕ
  pub one : 1 ≤ amount
  pub low : amount * size scale ≤ d
  pub high : d < suc amount * size scale
  pub coarsest : Below scale d
  pub singular : amount ≡ 1 → phrase ≡ codes "1 " ++ unit_name scale
  pub plural : amount ≢ 1 → phrase ≡ digits amount ++ codes " " ++ unit_name scale ++ codes "s"

plural_unit-one :
    (digits : ℕ → Runes) (n : ℕ) (unit : Runes)
    → n ≡ 1
    → plural_unit digits n unit ≡ codes "1 " ++ unit
unfolding plural_unit
plural_unit-one digits n unit h = let is_one : n == 1 ≡ true = ground (arith, h) in rw is_one refl

plural_unit-many :
    (digits : ℕ → Runes) (n : ℕ) (unit : Runes)
    → n ≢ 1
    → plural_unit digits n unit ≡ digits n ++ codes " " ++ unit ++ codes "s"
unfolding plural_unit
plural_unit-many digits n unit h = let many : n == 1 ≡ false = ground (arith, h) in rw many refl

rounded :
    (digits : ℕ → Runes) (scale : Scale) (d n : ℕ)
    → 1 ≤ n
    → n * size scale ≤ d
    → d < suc n * size scale
    → Below scale d
    → IsRounded digits d (plural_unit digits n (unit_name scale))
rounded digits scale d n h low high b = record {
  scale = scale;
  amount = n;
  one = h;
  low = low;
  high = high;
  coarsest = b;
  singular = plural_unit-one digits n (unit_name scale);
  plural = plural_unit-many digits n (unit_name scale);
}

minutes-IsRounded :
    (digits : ℕ → Runes) (d : ℕ)
    → minute ≤ d
    → Below Scale.minutes d
    → IsRounded digits d (plural_unit digits (d / minute) (codes "minute"))
minutes-IsRounded digits d h b =
    rounded digits Scale.minutes d (d / minute) (omega (arith, h)) (omega arith) (omega arith) b

hours-IsRounded :
    (digits : ℕ → Runes) (d : ℕ)
    → hour ≤ d
    → Below Scale.hours d
    → IsRounded digits d (plural_unit digits (d / hour) (codes "hour"))
hours-IsRounded digits d h b =
    rounded digits Scale.hours d (d / hour) (omega (arith, h)) (omega arith) (omega arith) b

days-IsRounded :
    (digits : ℕ → Runes) (d : ℕ)
    → day ≤ d
    → Below Scale.days d
    → IsRounded digits d (plural_unit digits (d / day) (codes "day"))
days-IsRounded digits d h b =
    rounded digits Scale.days d (d / day) (omega (arith, h)) (omega arith) (omega arith) b

months-IsRounded :
    (digits : ℕ → Runes) (d : ℕ)
    → month ≤ d
    → Below Scale.months d
    → IsRounded digits d (plural_unit digits (d / month) (codes "month"))
months-IsRounded digits d h b =
    rounded digits Scale.months d (d / month) (omega (arith, h)) (omega arith) (omega arith) b

years-IsRounded :
    (digits : ℕ → Runes) (d : ℕ)
    → year ≤ d
    → Below Scale.years d
    → IsRounded digits d (plural_unit digits (d / year) (codes "year"))
years-IsRounded digits d h b =
    rounded digits Scale.years d (d / year) (omega (arith, h)) (omega arith) (omega arith) b

seconds-IsRounded :
    (digits : ℕ → Runes) (d : ℕ)
    → 30000000000 ≤ d
    → d < minute
    → IsRounded digits d (digits (d / second) ++ codes " seconds")
seconds-IsRounded digits d h b = record {
  scale = Scale.seconds;
  amount = d / second;
  one = omega (arith, h);
  low = omega arith;
  high = omega arith;
  coarsest = b;
  singular = λ is_one. absurd (omega (arith, h, is_one));
  plural = λ many. simp append_assoc;
}

-- Just now for less than 30 seconds, and a rounded phrase in the frame from there on.
Says : (ℕ → Runes) → (Runes → Runes) → ℕ → Runes → Type 0
Says digits f d out =
    ((out ≡ codes "just now") × (d < 30000000000))
    ⊎ ((30000000000 ≤ d) × ((phrase : Runes) × (out ≡ f phrase) × IsRounded digits d phrase))

Says-if :
    (digits : ℕ → Runes) (f : Runes → Runes) (d : ℕ) (b : Bool) (x y : Runes)
    → (b ≡ true → Says digits f d x)
    → (b ≡ false → Says digits f d y)
    → Says digits f d (if b then x else y)
Says-if digits f d true x y h k = h refl
Says-if digits f d false x y h k = k refl

phrase_of-Says :
    (digits : ℕ → Runes) (f : Runes → Runes) (d : ℕ) → Says digits f d (phrase_of digits f d)
unfolding phrase_of Says
phrase_of-Says digits f d =
    Says-if digits f d (ltb d 30000000000) _ _ (λ h. inl (refl, ground (arith, h)))
      (λ a.
        let lo : 30000000000 ≤ d = ground (arith, a) in
        Says-if digits f d (ltb d minute) _ _
          (λ h. inr (lo, (_, refl, seconds-IsRounded digits d lo (ground (arith, h)))))
          (λ b.
            Says-if digits f d (ltb d hour) _ _
              (λ h.
                inr (
                  lo,
                  (_, refl, minutes-IsRounded digits d (ground (arith, b)) (ground (arith, h))),
                ))
              (λ c.
                Says-if digits f d (ltb d day) _ _
                  (λ h. inr (
                    lo,
                    (_, refl, hours-IsRounded digits d (ground (arith, c)) (ground (arith, h))),
                  ))
                  (λ e.
                    Says-if digits f d (ltb d month) _ _
                      (λ h. inr (
                        lo,
                        (_, refl, days-IsRounded digits d (ground (arith, e)) (ground (arith, h))),
                      ))
                      (λ g.
                        Says-if digits f d (ltb d year) _ _
                          (λ h. inr (
                            lo,
                            (
                              _,
                              refl,
                              months-IsRounded digits d (ground (arith, g)) (ground (arith, h)),
                            ),
                          ))
                          (λ i.
                            inr
                              (lo, (_, refl, years-IsRounded digits d (ground (arith, i)) tt))))))))

-- The nanoseconds of a span, whichever its sign.
abbrev pub magnitude : ℤ → ℕ
magnitude (pos n) = n
magnitude (negsuc n) = suc n

-- "ago" behind a span that has passed, and "in" before one that is ahead.
abbrev pub around : ℤ → Runes → Runes
around (pos n) phrase = phrase ++ codes " ago"
around (negsuc n) phrase = codes "in " ++ phrase

negate-negsuc : (n : ℕ) → suc n < 2 ^ 63 → negate (negsuc n) ≡ pos (suc n)
unfolding negate
negate-negsuc n h = ground (arith, h)

-- For every span but the least integer of 64 bits the phrase is "just now" if the span is shorter
-- than 30 seconds, and else has "in" before (if the span is negative) or "ago" behind (if it is not) a
-- whole number of seconds, minutes, hours, days, months of 30 days or years of 365 days, at least one,
-- rounded down, with a singular exactly for one, in the largest unit that the span holds one of.
pub humanize_duration-IsRounded :
    (digits : ℕ → Runes) (d : ℤ)
    → magnitude d < 2 ^ 63
    → ((humanize_duration digits d ≡ codes "just now") × (magnitude d < 30000000000))
      ⊎ ((30000000000 ≤ magnitude d)
          × ((phrase : Runes) × (humanize_duration digits d ≡ around d phrase)
              × IsRounded digits (magnitude d) phrase))
unfolding humanize_duration Says
humanize_duration-IsRounded digits (pos n) h = phrase_of-Says digits (frame false) n
humanize_duration-IsRounded digits (negsuc n) h =
    rw (negate-negsuc n h) (phrase_of-Says digits (frame true) (suc n))
