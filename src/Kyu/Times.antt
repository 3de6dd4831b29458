-- ===== src/Kyu/Times.antt =====
-- kyu/eval/timefmt.go: the relative phrase for a time span. The decimal digits of a number are a
-- parameter; a time.Duration is an integer of nanoseconds, of 64 bits.
pub mod Phrase
mod Tests
use sh.Prelude.{
  ℕ, suc, ◌*◌, ◌/◌, ◌^◌, Bool, true, false, List, [], ◌∷◌, ◌++◌, Runes, codes, ltb, ◌==◌,
  if◌then◌else◌, zero,
}
use sh.Prelude.Int.{ℤ, pos, negsuc}

abbrev pub second : ℕ
second = 1000000000

abbrev pub minute : ℕ
minute = 60000000000

abbrev pub hour : ℕ
hour = 3600000000000

abbrev pub day : ℕ
day = 86400000000000

-- 30 days, and 365 days
abbrev pub month : ℕ
month = 2592000000000000

abbrev pub year : ℕ
year = 31536000000000000

-- `pluralUnit`
unfoldable pub plural_unit : (ℕ → Runes) → ℕ → Runes → Runes
plural_unit digits n unit =
    if n == 1 then codes "1 " ++ unit else digits n ++ codes " " ++ unit ++ codes "s"

abbrev pub is_negative : ℤ → Bool
is_negative (pos n) = false
is_negative (negsuc n) = true

-- `-d` in 64 bits: the least integer is its own negation.
unfoldable pub negate : ℤ → ℤ
negate (pos zero) = pos zero
negate (pos (suc n)) = negsuc n
negate (negsuc n) = if suc n == 2 ^ 63 then negsuc n else pos (suc n)

-- The `switch`, on a span that is not negative; `frame` puts "in" or "ago" around a phrase.
unfoldable pub phrase_of : (ℕ → Runes) → (Runes → Runes) → ℕ → Runes
unfolding plural_unit
phrase_of digits frame d =
    if ltb d 30000000000
    then codes "just now"
    else if ltb d minute
    then frame (digits (d / second) ++ codes " seconds")
    else if ltb d hour
    then frame (plural_unit digits (d / minute) (codes "minute"))
    else if ltb d day
    then frame (plural_unit digits (d / hour) (codes "hour"))
    else if ltb d month
    then frame (plural_unit digits (d / day) (codes "day"))
    else if ltb d year
    then frame (plural_unit digits (d / month) (codes "month"))
    else frame (plural_unit digits (d / year) (codes "year"))

abbrev pub frame : Bool → Runes → Runes
frame true phrase = codes "in " ++ phrase
frame false phrase = phrase ++ codes " ago"

-- A negative span is less than 30 seconds.
abbrev pub switch : (ℕ → Runes) → (Runes → Runes) → ℤ → Runes
switch digits frame (pos d) = phrase_of digits frame d
switch digits frame (negsuc n) = codes "just now"

-- `humanizeDuration`
unfoldable pub humanize_duration : (ℕ → Runes) → ℤ → Runes
unfolding negate phrase_of
humanize_duration digits d =
    let future = is_negative d in switch digits (frame future) (if future then negate d else d)
