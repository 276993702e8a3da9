-- ===== src/LearnedFile.antt =====
-- The text of the file of learned domains: how `load`, `flushPersist` and `writeAll` of
-- internal/store/store.go read and write it, byte by byte. Spaces are those of ASCII.
pub mod RoundTrip
mod Tests
use sentrydns.Base.{
  ℕ, Bool, true, false, ◌&&◌, ◌||◌, List, [], ◌∷◌, ◌++◌, ◌==◌, ltb, leb, if◌then◌else◌, Text, Dict,
  insert, keys,
}

abbrev pub is_nil : Text → Bool
is_nil [] = true
is_nil (c ∷ s) = false

-- Tab, newline, vertical tab, form feed, carriage return, space.
abbrev pub is_space : ℕ → Bool
is_space c = (leb 9 c && leb c 13) || c == b' '

unfoldable pub trim_left : Text → Text
trim_left [] = []
trim_left (c ∷ s) = let rest = trim_left s in if is_space c then rest else c ∷ s

unfoldable pub trim_right : Text → Text
trim_right [] = []
trim_right (c ∷ s) = let rest = trim_right s in if is_nil rest && is_space c then [] else c ∷ rest

-- `strings.TrimSpace`
unfoldable pub trim_space : Text → Text
unfolding trim_left trim_right
trim_space s = trim_right (trim_left s)

-- A line without its carriage return, as `bufio.ScanLines` gives it.
unfoldable pub strip_cr : Text → Text
strip_cr [] = []
strip_cr (c ∷ []) = if c == 13 then [] else c ∷ []
strip_cr (c ∷ d ∷ s) = c ∷ strip_cr (d ∷ s)

-- The lines that a `bufio.Scanner` gives, from the part of a line read so far. A last line without
-- a newline counts if it is not empty.
unfoldable pub lines_from : Text → Text → List Text
unfolding strip_cr
lines_from line [] = if is_nil line then [] else strip_cr line ∷ []
lines_from line (c ∷ s) =
    let next = lines_from [] s in
    let same = lines_from (line ++ c ∷ []) s in if c == 10 then strip_cr line ∷ next else same

unfoldable pub lines : Text → List Text
unfolding lines_from
lines s = lines_from [] s

abbrev pub is_skipped : Text → Bool
is_skipped [] = true
is_skipped (c ∷ s) = c == b'#'

-- The loop of `load` over the lines.
unfoldable pub load_lines : List Text → Dict Bool → Dict Bool
unfolding trim_space
load_lines [] domains = domains
load_lines (raw ∷ rest) domains =
    let line = trim_space raw in
    load_lines rest (if is_skipped line then domains else insert line true domains)

-- The loop that writes one domain to a line, in `flushPersist` and in `writeAll`.
unfoldable pub render : List Text → Text
render [] = []
render (d ∷ ds) = d ++ 10 ∷ render ds

-- `slices.Sort` on strings: by bytes, from the first that differs.
unfoldable pub text_leb : Text → Text → Bool
text_leb [] t = true
text_leb (c ∷ s) [] = false
text_leb (c ∷ s) (d ∷ t) = ltb c d || (c == d && text_leb s t)

unfoldable pub insert_sorted : Text → List Text → List Text
unfolding text_leb
insert_sorted d [] = d ∷ []
insert_sorted d (e ∷ es) =
    let rest = insert_sorted d es in if text_leb d e then d ∷ e ∷ es else e ∷ rest

unfoldable pub sort : List Text → List Text
unfolding insert_sorted
sort [] = []
sort (d ∷ ds) = insert_sorted d (sort ds)
