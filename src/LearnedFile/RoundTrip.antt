-- ===== src/LearnedFile/RoundTrip.antt =====
-- What is written can be read back.
use sentrydns.Base.{
  ◌≡◌, refl, ap, ◌∙◌, ◌↔◌, ◌⊎◌, inl, inr, Bool, true, false, List, [], ◌∷◌, ◌++◌, ◌==◌,
  if◌then◌else◌, Text, Dict, keys, find, insert, text_eq, text_eq_iff, find-insert, All-insert,
  All-delete, delete, All, Any, here, there, arith, Bool-cases,
}
use mathlib.Core.List.{append_assoc, append-nil}
use sentrydns.Domain.{has}
use sentrydns.LearnedFile.{
  is_space, is_skipped, trim_left, trim_right, trim_space, strip_cr, lines_from, lines, load_lines,
  render, insert_sorted, sort, text_leb,
}

-- A name that a line can hold: no spaces, not empty, and not taken for a comment.
pub record IsName (d : Text) : Type 0 where
  pub solid : All (λ c. is_space c ≡ false) d
  pub kept : is_skipped d ≡ false

trim_right-solid : (s : Text) → All (λ c. is_space c ≡ false) s → trim_right s ≡ s
unfolding trim_right
trim_right-solid [] h = refl
trim_right-solid (c ∷ s) h = rw (trim_right-solid s h.1) (ground arith)

trim_left-solid : (s : Text) → All (λ c. is_space c ≡ false) s → trim_left s ≡ s
unfolding trim_left
trim_left-solid [] h = refl
trim_left-solid (c ∷ s) h = ground arith

trim_space-solid : (s : Text) → All (λ c. is_space c ≡ false) s → trim_space s ≡ s
unfolding trim_space
trim_space-solid s h = rw (trim_left-solid s h) (trim_right-solid s h)

strip_cr-solid : (s : Text) → All (λ c. is_space c ≡ false) s → strip_cr s ≡ s
unfolding strip_cr
strip_cr-solid [] h = refl
strip_cr-solid (c ∷ []) h = ground arith
strip_cr-solid (c ∷ d ∷ s) h = ap (◌∷◌ c) (strip_cr-solid (d ∷ s) h.1)

-- A line is read to its newline.
lines_from-line :
    (done d rest : Text)
    → All (λ c. is_space c ≡ false) d
    → lines_from done (d ++ 10 ∷ rest) ≡ strip_cr (done ++ d) ∷ lines_from [] rest
unfolding lines_from
lines_from-line done [] rest h = rw append-nil
lines_from-line done (c ∷ d) rest h =
    let no : (c == 10) ≡ false = ground arith in
    rw no (lines_from-line (done ++ c ∷ []) d rest h.1 ∙ rw append_assoc)

-- The lines of a text that the program wrote are what it wrote.
pub lines-render : (ds : List Text) → All IsName ds → lines (render ds) ≡ ds
unfolding lines render
lines-render [] h = refl
lines-render (d ∷ ds) h =
    lines_from-line [] d (render ds) h.0.solid
    ∙ rw (strip_cr-solid d h.0.solid) (ap (◌∷◌ d) (unfold lines in lines-render ds h.1))

pub render-append : (ds es : List Text) → render (ds ++ es) ≡ render ds ++ render es
unfolding render
render-append [] es = refl
render-append (d ∷ ds) es = rw (render-append ds es, append_assoc)

-- A name is in the set of what was loaded exactly when it was there or is one of the lines.
abbrev pub IsIn : Text → List Text → Type 0
IsIn d = Any (λ e. e ≡ d)

has-insert :
    (d e : Text) (m : Dict Bool) → has (insert e true m) d ≡ (if text_eq e d then true else has m d)
unfolding has
has-insert d e m = rw find-insert (ground arith)

pub has-insert_iff :
    (d e : Text) (m : Dict Bool) → (has (insert e true m) d ≡ true) ↔ ((has m d ≡ true) ⊎ (e ≡ d))
has-insert_iff d e m = ground (arith, has-insert d e m, text_eq_iff e d)

pub IsIn-nil : (d : Text) → ¬ IsIn d []
IsIn-nil d x = elim x [ ]

IsIn-cons : (d e : Text) (ds : List Text) → IsIn d (e ∷ ds) → (e ≡ d) ⊎ IsIn d ds
IsIn-cons d e ds (here q) = inl q
IsIn-cons d e ds (there x) = inr x

pub load_lines-has :
    (d : Text) (ds : List Text) (m : Dict Bool)
    → All IsName ds
    → (has (load_lines ds m) d ≡ true) ↔ ((has m d ≡ true) ⊎ IsIn d ds)
unfolding load_lines
load_lines-has d [] m h = (inl, λ x. elim x [ inl e ↦ e | inr n ↦ absurd (IsIn-nil d n) ])
load_lines-has d (e ∷ ds) m h =
    let (to, from) = load_lines-has d ds (insert e true m) h.1 in
    let (split, join) = has-insert_iff d e m in
    rw (trim_space-solid e h.0.solid, h.0.kept)
      (
        λ x. elim (to x) [
          | inl old ↦ elim (split old) [ inl o ↦ inl o | inr q ↦ inr (here q) ]
          | inr n ↦ inr (there n)
        ],
        λ x. elim x [
          | inl o ↦ from (inl (join (inl o)))
          | inr n ↦ elim (IsIn-cons d e ds n) [
            | inl q ↦ from (inl (join (inr q)))
            | inr n' ↦ from (inr n')
          ]
        ],
      )

-- Sorting keeps what is in a list.
IsIn-insert_sorted :
    (d e : Text) (ds : List Text) → IsIn d (insert_sorted e ds) ↔ ((e ≡ d) ⊎ IsIn d ds)
unfolding insert_sorted
IsIn-insert_sorted d e [] =
    (λ x. IsIn-cons d e [] x, λ x. elim x [ inl q ↦ here q | inr n ↦ there n ])
IsIn-insert_sorted d e (f ∷ ds) = elim (Bool-cases (text_leb e f)) [
  | inl first ↦
      rw first (λ x. IsIn-cons d e (f ∷ ds) x, λ x. elim x [ inl q ↦ here q | inr n ↦ there n ])
  | inr later ↦
      let (to, from) = IsIn-insert_sorted d e ds in
      rw later (
        λ x. elim (IsIn-cons d f (insert_sorted e ds) x) [
          | inl q ↦ inr (here q)
          | inr n ↦ elim (to n) [ inl q ↦ inl q | inr n' ↦ inr (there n') ]
        ],
        λ x. elim x [
          | inl q ↦ there (from (inl q))
          | inr n ↦ elim (IsIn-cons d f ds n) [ inl q ↦ here q | inr n' ↦ there (from (inr n')) ]
        ],
      )
]

pub IsIn-sort : (d : Text) (ds : List Text) → IsIn d (sort ds) ↔ IsIn d ds
unfolding sort
IsIn-sort d [] = (λ x. x, λ x. x)
IsIn-sort d (e ∷ ds) =
    let (to, from) = IsIn-insert_sorted d e (sort ds) in
    let (to', from') = IsIn-sort d ds in
    (
      λ x. elim (to x) [ inl q ↦ here q | inr n ↦ there (to' n) ],
      λ x. elim (IsIn-cons d e ds x) [ inl q ↦ from (inl q) | inr n ↦ from (inr (from' n)) ],
    )

All-insert_sorted :
    (e : Text) (ds : List Text) → IsName e → All IsName ds → All IsName (insert_sorted e ds)
unfolding insert_sorted
All-insert_sorted e [] n h = (n, tt)
All-insert_sorted e (f ∷ ds) n h = elim (Bool-cases (text_leb e f)) [
  | inl first ↦ rw first (n, h)
  | inr later ↦ rw later (h.0, All-insert_sorted e ds n h.1)
]

pub All-sort : (ds : List Text) → All IsName ds → All IsName (sort ds)
unfolding sort
All-sort [] h = tt
All-sort (e ∷ ds) h = All-insert_sorted e (sort ds) h.0 (All-sort ds h.1)

-- Every value of the map is `true`, as it is wherever the program writes one.
abbrev pub AllTrue : Dict Bool → Type 0
AllTrue = All (λ p. p.1 ≡ true)

pub has-keys : (d : Text) (m : Dict Bool) → AllTrue m → (has m d ≡ true) ↔ IsIn d (keys m)
unfolding has find
has-keys d [] h = (λ x. absurd (ground arith), λ x. absurd (IsIn-nil d x))
has-keys d ((e, b) ∷ m) h =
    let (to, from) = has-keys d m h.1 in
    elim (Bool-cases (text_eq e d)) [
      | inl same ↦ (λ x. here ((text_eq_iff e d).0 same), λ x. rw same h.0)
      | inr other ↦ rw other (
        λ x. there (to x),
        λ x. elim (IsIn-cons d e (keys m) x) [
          | inl q ↦ absurd (ground (arith, text_eq_iff e d))
          | inr n ↦ from n
        ],
      )
    ]

-- The set that `load` reads from the lines that `writeAll` wrote has exactly the domains of the set
-- that was written, provided that each is a name that a line can hold (not empty, no spaces, not
-- starting with the comment sign).
pub load_lines-render :
    (m : Dict Bool) (d : Text)
    → AllTrue m
    → All IsName (keys m)
    → (has (load_lines (lines (render (sort (keys m)))) []) d ≡ true) ↔ (has m d ≡ true)
load_lines-render m d t h =
    let (to, from) = load_lines-has d (sort (keys m)) [] (All-sort (keys m) h) in
    let (sorted, unsorted) = IsIn-sort d (keys m) in
    let (key, unkey) = has-keys d m t in
    rw (lines-render (sort (keys m)) (All-sort (keys m) h)) (
      λ x. elim (to x) [
        | inl none_yet ↦ absurd (unfold has find in ground arith)
        | inr n ↦ unkey (sorted n)
      ],
      λ x. from (inr (unsorted (key x))),
    )

pub IsIn-append_left : (d : Text) (ds es : List Text) → IsIn d ds → IsIn d (ds ++ es)
IsIn-append_left d [] es x = absurd (IsIn-nil d x)
IsIn-append_left d (e ∷ ds) es x = elim (IsIn-cons d e ds x) [
  | inl q ↦ here q
  | inr n ↦ there (IsIn-append_left d ds es n)
]

pub IsIn-append_right : (d : Text) (ds es : List Text) → IsIn d es → IsIn d (ds ++ es)
IsIn-append_right d [] es x = x
IsIn-append_right d (e ∷ ds) es x = there (IsIn-append_right d ds es x)

pub All-append : (ds es : List Text) → All IsName ds → All IsName es → All IsName (ds ++ es)
All-append [] es h k = k
All-append (d ∷ ds) es h k = (h.0, All-append ds es h.1 k)

-- The names of a map's keys.
abbrev pub Named : Dict Bool → Type 0
Named = All (λ p. IsName p.0)

pub Named-keys : (m : Dict Bool) → Named m → All IsName (keys m)
Named-keys [] h = tt
Named-keys (p ∷ m) h = (h.0, Named-keys m h.1)

-- A set that holds only `true`, under names that a line can hold.
pub record IsClean (m : Dict Bool) : Type 0 where
  pub named : Named m
  pub all_true : AllTrue m

pub IsClean-insert : (d : Text) (m : Dict Bool) → IsName d → IsClean m → IsClean (insert d true m)
IsClean-insert d m n c = record {
  named = All-insert (λ p. IsName p.0) d true m n c.named;
  all_true = All-insert (λ p. p.1 ≡ true) d true m refl c.all_true;
}

pub IsClean-delete : (d : Text) (m : Dict Bool) → IsClean m → IsClean (delete d m)
IsClean-delete d m c = record {
  named = All-delete (λ p. IsName p.0) d m c.named;
  all_true = All-delete (λ p. p.1 ≡ true) d m c.all_true;
}

pub IsClean-load_lines :
    (ds : List Text) (m : Dict Bool) → All IsName ds → IsClean m → IsClean (load_lines ds m)
unfolding load_lines
IsClean-load_lines [] m h c = c
IsClean-load_lines (d ∷ ds) m h c =
    rw (trim_space-solid d h.0.solid, h.0.kept)
      (IsClean-load_lines ds (insert d true m) h.1 (IsClean-insert d m h.0 c))

pub IsClean-nil : IsClean []
IsClean-nil = record { named = tt; all_true = tt }

pub has-nil : (d : Text) → ¬ (has [] d ≡ true)
unfolding has find
has-nil d h = ground arith
