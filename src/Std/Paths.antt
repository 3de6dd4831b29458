-- ===== src/Std/Paths.antt =====
-- path.Clean, filepath.Join and filepath.SplitList on Unix, by segments.
use sh.Prelude.{
  Bool, false, not, ◌&&◌, ◌||◌, List, [], ◌∷◌, ◌++◌, Runes, codes, same, ◌==◌, if◌then◌else◌,
}
use mathlib.Core.List.{reverse}
use sh.Std.Strings.{split, join}

abbrev pub is_rooted : Runes → Bool
is_rooted [] = false
is_rooted (r ∷ rs) = r == b'/'

-- One segment onto those that are kept, the last one first.
unfoldable pub push_segment : Bool → Runes → List Runes → List Runes
unfolding same
push_segment rooted [] kept = kept
push_segment rooted (r ∷ rs) [] =
    let seg = r ∷ rs in
    if same seg (codes ".") || same seg (codes "..") && rooted then [] else seg ∷ []
push_segment rooted (r ∷ rs) (k ∷ ks) =
    let seg = r ∷ rs in
    if same seg (codes ".")
    then k ∷ ks
    else if same seg (codes "..") && not (same k (codes ".."))
    then ks
    else seg ∷ k ∷ ks

unfoldable pub push_segments : Bool → List Runes → List Runes → List Runes
unfolding push_segment
push_segments rooted [] kept = kept
push_segments rooted (s ∷ ss) kept = push_segments rooted ss (push_segment rooted s kept)

abbrev pub or_dot : Runes → Runes
or_dot [] = codes "."
or_dot (r ∷ rs) = r ∷ rs

unfoldable pub clean : Runes → Runes
unfolding push_segments split join
clean p =
    let kept = join b'/' (reverse (push_segments (is_rooted p) (split b'/' p) [])) in
    if is_rooted p then b'/' ∷ kept else or_dot kept

-- filepath.Join of two elements.
unfoldable pub join_two : Runes → Runes → Runes
unfolding clean
join_two [] [] = []
join_two [] (r ∷ rs) = clean (r ∷ rs)
join_two (d ∷ ds) [] = clean (d ∷ ds)
join_two (d ∷ ds) (r ∷ rs) = clean ((d ∷ ds) ++ b'/' ∷ r ∷ rs)

unfoldable pub split_list : Runes → List Runes
unfolding split
split_list [] = []
split_list (r ∷ rs) = split b':' (r ∷ rs)
