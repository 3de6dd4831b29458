-- ===== src/Kyu/Times/Tests.antt =====
-- Phrases, with a stand-in for the decimal digits.
use sh.Prelude.{ℕ, ◌≤◌, ◌<◌, ◌≡◌, refl, ◌⊎◌, [], ◌∷◌, Runes, codes, arith, ◌^◌, ◌-◌}
use sh.Prelude.Int.{negsuc}
use sh.Kyu.Times.{negate, humanize_duration}
use sh.Kyu.Times.Phrase.{IsRounded, around, magnitude, humanize_duration-IsRounded}

abbrev digits : ℕ → Runes
digits n = n ∷ []

humanize_duration-IsRounded_example :
    ((humanize_duration digits (negsuc 90000000000) ≡ codes "just now")
      × (magnitude (negsuc 90000000000) < 30000000000))
    ⊎ ((30000000000 ≤ magnitude (negsuc 90000000000))
        × ((phrase : Runes) × (humanize_duration digits (negsuc 90000000000)
              ≡ around (negsuc 90000000000) phrase)
            × IsRounded digits (magnitude (negsuc 90000000000)) phrase))
humanize_duration-IsRounded_example =
    humanize_duration-IsRounded digits (negsuc 90000000000) (omega arith)

-- The least span, which stands for every time too far ahead.
least_span : humanize_duration digits (negsuc (2 ^ 63 - 1)) ≡ codes "just now"
unfolding humanize_duration negate
least_span = refl
