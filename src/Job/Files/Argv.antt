-- ===== src/Job/Files/Argv.antt =====
-- The argv and env files of job/fs.go: one argument on each line.
use sh.Prelude.{
  ℕ, ◌≡◌, refl, ap, ◌∙◌, Bool, true, false, none, some, List, [], ◌∷◌, ◌++◌, Runes, ◌==◌, arith,
  or_false,
}
use sh.Std.Strings.{split, join, trim_right, contains_rune, cons_head}
use sh.Job.State.{Job, is_pending}
use sh.Job.Control.{Host}
use sh.Job.Files.{Leaf, is_newline, lines_of, split_lines, serve, utf8, write_leaf, read_leaf}

abbrev pub is_cons {ℓ} : {A : Type ℓ} → List A → Bool
is_cons [] = false
is_cons (x ∷ xs) = true

-- At least one line, none of them with a newline in it, and the last one not empty.
abbrev pub IsLines : List Runes → Type 0
IsLines [] = ⊥
IsLines (w ∷ []) = (contains_rune b'\n' w ≡ false) × (is_cons w ≡ true)
IsLines (w ∷ v ∷ ws) = (contains_rune b'\n' w ≡ false) × IsLines (v ∷ ws)

split-word : (w : Runes) → contains_rune b'\n' w ≡ false → split b'\n' w ≡ w ∷ []
unfolding split contains_rune
split-word [] h = refl
split-word (r ∷ rs) h =
    let (e, f) = or_false (r == b'\n') (contains_rune b'\n' rs) h in
    rw e (ap (cons_head r) (split-word rs f))

split-line :
    (w s : Runes) → contains_rune b'\n' w ≡ false → split b'\n' (w ++ b'\n' ∷ s) ≡ w ∷ split b'\n' s
unfolding split contains_rune
split-line [] s h = refl
split-line (r ∷ rs) s h =
    let (e, f) = or_false (r == b'\n') (contains_rune b'\n' rs) h in
    rw e (ap (cons_head r) (split-line rs s f))

split-join : (ws : List Runes) → IsLines ws → split b'\n' (join b'\n' ws) ≡ ws
unfolding join
split-join [] h = absurd h
split-join (w ∷ []) (h, _) = split-word w h
split-join (w ∷ v ∷ ws) (h, hs) =
    split-line w (join b'\n' (v ∷ ws)) h ∙ ap (◌∷◌ w) (split-join (v ∷ ws) hs)

append-is_cons : (w : Runes) (r : ℕ) (s : Runes) → is_cons (w ++ r ∷ s) ≡ true
append-is_cons [] r s = refl
append-is_cons (x ∷ w) r s = refl

-- What is trimmed behind a text that ends in another rune.
trim_right-cons :
    (r : ℕ) (s : Runes)
    → trim_right is_newline s ≡ s
    → is_cons s ≡ true
    → trim_right is_newline (r ∷ s) ≡ r ∷ s
unfolding trim_right
trim_right-cons r [] h c = cc
trim_right-cons r (x ∷ s) h c = rw h refl

trim_right-append :
    (w s : Runes)
    → trim_right is_newline s ≡ s
    → is_cons s ≡ true
    → (trim_right is_newline (w ++ s) ≡ w ++ s) × (is_cons (w ++ s) ≡ true)
trim_right-append [] s h c = (h, c)
trim_right-append (r ∷ w) s h c =
    let (ih, d) = trim_right-append w s h c in (trim_right-cons r (w ++ s) ih d, refl)

trim_right-word : (w : Runes) → contains_rune b'\n' w ≡ false → trim_right is_newline w ≡ w
unfolding trim_right contains_rune
trim_right-word [] h = refl
trim_right-word (r ∷ []) h = ground (arith, h)
trim_right-word (r ∷ x ∷ w) h =
    let (e, f) = or_false (r == b'\n') (contains_rune b'\n' (x ∷ w)) h in
    trim_right-cons r (x ∷ w) (trim_right-word (x ∷ w) f) refl

trim_right-join :
    (ws : List Runes)
    → IsLines ws
    → (trim_right is_newline (join b'\n' ws) ≡ join b'\n' ws) × (is_cons (join b'\n' ws) ≡ true)
unfolding join
trim_right-join [] h = absurd h
trim_right-join (w ∷ []) (h, c) = (trim_right-word w h, c)
trim_right-join (w ∷ v ∷ ws) (h, hs) =
    let (e, c) = trim_right-join (v ∷ ws) hs in
    let s = join b'\n' (v ∷ ws) in
    trim_right-append w (b'\n' ∷ s) (trim_right-cons b'\n' s e c) refl

-- A final newline, and any number of them, is not part of the text.
trim_right-newline : (s : Runes) → trim_right is_newline (s ++ b'\n' ∷ []) ≡ trim_right is_newline s
unfolding trim_right
trim_right-newline [] = refl
trim_right-newline (r ∷ s) = rw (trim_right-newline s) refl

lines_of-cons : (s : Runes) → is_cons s ≡ true → lines_of s ≡ split b'\n' s
lines_of-cons [] h = cc
lines_of-cons (r ∷ s) h = refl

split_lines-join : (ws : List Runes) → IsLines ws → split_lines (join b'\n' ws) ≡ ws
unfolding split_lines
split_lines-join ws h =
    let (e, c) = trim_right-join ws h in
    ap lines_of e ∙ lines_of-cons (join b'\n' ws) c ∙ split-join ws h

-- One argument on each line, none of them with a newline in it and the last one not empty: a write
-- of such a text to the argv file of a pending job, with a final newline or without, sets exactly
-- these arguments, and so does a write without a final newline to its env file; a read of the argv
-- file then serves the bytes of the text without a final newline, in UTF-8.
pub write_leaf-argv :
    (h : Host) (j : Job) (ws : List Runes) (done : Bool) (offset size : ℕ)
    → is_pending j.state ≡ true
    → IsLines ws
    → (write_leaf h j Leaf.argv_file (join b'\n' ws) ≡ some (record j { argv = ws }, none))
      × (write_leaf h j Leaf.argv_file (join b'\n' ws ++ b'\n' ∷ [])
          ≡ some (record j { argv = ws }, none))
      × (write_leaf h j Leaf.env_file (join b'\n' ws) ≡ some (record j { env = ws }, none))
      × (read_leaf h (record j { argv = ws }) Leaf.argv_file done offset size
          ≡ some (serve (utf8 (join b'\n' ws)) offset size))
unfolding write_leaf read_leaf
write_leaf-argv h j ws done offset size p l =
    let e = split_lines-join ws l in
    let f : split_lines (join b'\n' ws ++ b'\n' ∷ []) ≡ ws =
      unfold split_lines in ap lines_of (trim_right-newline (join b'\n' ws)) ∙ e in
    (rw (p, e) refl, rw (p, f) refl, rw (p, e) refl, refl)
