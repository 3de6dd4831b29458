-- ===== src/Std/Strings.antt =====
-- strings.Fields, TrimSpace, Split, TrimRight, CutPrefix, ToUpper and strconv.Atoi, as the source
-- calls them.
use sh.Prelude.{
  ℕ, zero, suc, ◌+◌, ◌-◌, ◌*◌, ◌^◌, Bool, false, ◌&&◌, ◌||◌, Option, none, some, List, [], ◌∷◌,
  ◌++◌, Runes, leb, ltb, ◌==◌, if◌then◌else◌,
}
use sh.Prelude.Int.{ℤ, pos, negsuc}

-- unicode.IsSpace
unfoldable pub is_space : ℕ → Bool
is_space r =
    leb 9 r && leb r 13
    || r == 32
    || r == 0x85
    || r == 0xa0
    || r == 0x1680
    || leb 0x2000 r && leb r 0x200a
    || r == 0x2028
    || r == 0x2029
    || r == 0x202f
    || r == 0x205f
    || r == 0x3000

abbrev pub push_field : Runes → List Runes → List Runes
push_field [] fields = fields
push_field (r ∷ rs) fields = (r ∷ rs) ∷ fields

-- The fields of a text, where `word` is the start of its first one.
unfoldable pub fields_from : Runes → Runes → List Runes
fields_from word [] = push_field word []
fields_from word (r ∷ rs) =
    let space = is_space r in
    let rest = fields_from (if space then [] else word ++ r ∷ []) rs in
    if space then push_field word rest else rest

unfoldable pub fields : Runes → List Runes
unfolding fields_from is_space
fields = fields_from []

unfoldable pub trim_left : Runes → Runes
unfolding is_space
trim_left [] = []
trim_left (r ∷ rs) = let rest = trim_left rs in if is_space r then rest else r ∷ rs

-- strings.TrimRight(s, string(c))
unfoldable pub trim_right : (ℕ → Bool) → Runes → Runes
trim_right cut [] = []
trim_right cut (r ∷ rs) = elim (trim_right cut rs) [
  | [] ↦ if cut r then [] else r ∷ []
  | x ∷ xs ↦ r ∷ x ∷ xs
]

unfoldable pub trim_space : Runes → Runes
unfolding trim_left trim_right is_space
trim_space s = trim_right is_space (trim_left s)

abbrev pub cons_head : ℕ → List Runes → List Runes
cons_head r [] = (r ∷ []) ∷ []
cons_head r (w ∷ ws) = (r ∷ w) ∷ ws

-- strings.Split(s, string(c))
unfoldable pub split : ℕ → Runes → List Runes
split c [] = [] ∷ []
split c (r ∷ rs) = let rest = split c rs in if r == c then [] ∷ rest else cons_head r rest

-- strings.Join(words, string(c))
unfoldable pub join : ℕ → List Runes → Runes
join c [] = []
join c (w ∷ []) = w
join c (w ∷ v ∷ ws) = w ++ c ∷ join c (v ∷ ws)

unfoldable pub cut_prefix : Runes → Runes → Option Runes
cut_prefix [] s = some s
cut_prefix (p ∷ ps) [] = none
cut_prefix (p ∷ ps) (r ∷ rs) = if p == r then cut_prefix ps rs else none

-- strings.ContainsRune
unfoldable pub contains_rune : ℕ → Runes → Bool
contains_rune c [] = false
contains_rune c (r ∷ rs) = r == c || contains_rune c rs

-- strings.ToUpper, as far as it maps to A-Z: U+0131 and U+017F are the only others that do.
unfoldable pub upper_rune : ℕ → ℕ
upper_rune r =
    if leb b'a' r && leb r b'z'
    then r - 32
    else if r == 0x131
    then b'I'
    else if r == 0x17f
    then b'S'
    else r

-- A decimal number without its sign.
unfoldable pub decimal : ℕ → Runes → Option ℕ
decimal n [] = some n
decimal n (r ∷ rs) =
    let rest = decimal (n * 10 + (r - b'0')) rs in if leb b'0' r && leb r b'9' then rest else none

abbrev pub unsigned : Runes → Option ℕ
unsigned [] = none
unsigned (r ∷ rs) = decimal 0 (r ∷ rs)

-- Go's int: 64 bits.
abbrev pub to_positive : Option ℕ → Option ℤ
to_positive none = none
to_positive (some n) = if ltb n (2 ^ 63) then some (pos n) else none

abbrev pub to_negative : Option ℕ → Option ℤ
to_negative none = none
to_negative (some zero) = some (pos 0)
to_negative (some (suc n)) = if ltb n (2 ^ 63) then some (negsuc n) else none

-- strconv.Atoi; a syntax error and a value out of range are both `none`.
unfoldable pub atoi : Runes → Option ℤ
unfolding decimal
atoi [] = none
atoi (r ∷ rs) =
    if r == b'-'
    then to_negative (unsigned rs)
    else if r == b'+'
    then to_positive (unsigned rs)
    else to_positive (unsigned (r ∷ rs))
