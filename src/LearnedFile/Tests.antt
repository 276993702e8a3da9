-- ===== src/LearnedFile/Tests.antt =====
-- A learned file read and written, and the round trip at a set of two names.
use sentrydns.Base.{
  ◌≡◌, refl, ◌↔◌, Bool, true, [], ◌∷◌, ◌++◌, codes, Dict, find, insert, text_eq, keys, arith,
}
use sentrydns.Domain.{has}
use sentrydns.LearnedFile.{trim_space, lines, load_lines, render, insert_sorted, sort}
use sentrydns.LearnedFile.RoundTrip.{IsName, load_lines-render}

abbrev names : Dict Bool
names = (codes "site.ir", true) ∷ (codes "a.com", true) ∷ []

program : Unit {0}
unfolding trim_space lines load_lines render sort insert_sorted has find insert text_eq
program = tt

writes : render (sort (keys names)) ≡ codes "a.com" ++ 10 ∷ codes "site.ir" ++ 10 ∷ []
unfolding program
writes = refl

reads :
    load_lines
      (lines (codes "# note" ++ 10 ∷ codes "  a.com " ++ 13 ∷ 10 ∷ 10 ∷ codes "site.ir"))
      []
    ≡ (codes "a.com", true) ∷ (codes "site.ir", true) ∷ []
unfolding program
reads = refl

solid : IsName (codes "site.ir")
solid = record { solid = ground arith; kept = refl }

load_lines-render_example :
    (has (load_lines (lines (render (sort (keys names)))) []) (codes "a.com") ≡ true)
    ↔ (has names (codes "a.com") ≡ true)
load_lines-render_example =
    load_lines-render names (codes "a.com") (refl, (refl, tt))
      (solid, (record { solid = ground arith; kept = refl }, tt))
