-- ===== src/Classifier.antt =====
-- internal/classifier/classifier.go: which addresses are Iranian. The file of ranges is its text, or
-- `none` where it cannot be opened; `scanned` is false where reading it fails.
pub mod Ranges
mod Tests
use sentrydns.Base.{
  ℕ, Bool, true, false, Option, none, some, List, [], ◌∷◌, ◌++◌, ◌+◌, ◌==◌, leb, if◌then◌else◌,
  Text, any, length,
}
use sentrydns.LearnedFile.{lines, is_skipped}
use sentrydns.Netip.{Addr, Prefix, is4, contains, Netip}

pub record Classifier : Type 0 where
  pub iran_ranges4 : List Prefix
  pub iran_ranges6 : List Prefix

pub data LoadError : Type 0 where
  not_opened not_read no_ranges : LoadError

pub data Result {ℓ} (A : Type ℓ) : Type ℓ where
  ok : A → Result A
  err : LoadError → Result A

abbrev pub append_range : Prefix → Classifier → Classifier
append_range p c =
    if is4 p.addr
    then record c { iran_ranges4 = c.iran_ranges4 ++ p ∷ [] }
    else record c { iran_ranges6 = c.iran_ranges6 ++ p ∷ [] }

abbrev pub append_parsed : Option Prefix → Classifier → Classifier
append_parsed none c = c
append_parsed (some p) c = append_range p c

-- The loop of `New` over the lines of the file.
unfoldable pub collect : Netip → List Text → Classifier → Classifier
collect net [] c = c
collect net (line ∷ rest) c =
    collect net rest (if is_skipped line then c else append_parsed (net.parse_prefix line) c)

-- `slices.SortFunc` by falling number of bits.
unfoldable pub insert_range : Prefix → List Prefix → List Prefix
insert_range p [] = p ∷ []
insert_range p (q ∷ qs) =
    let rest = insert_range p qs in if leb q.bits p.bits then p ∷ q ∷ qs else q ∷ rest

unfoldable pub sort_ranges : List Prefix → List Prefix
unfolding insert_range
sort_ranges [] = []
sort_ranges (p ∷ ps) = insert_range p (sort_ranges ps)

abbrev pub no_classifier : Classifier
no_classifier = record { iran_ranges4 = []; iran_ranges6 = [] }

unfoldable pub new : Netip → Bool → Option Text → Result Classifier
unfolding collect sort_ranges
new net scanned none = err not_opened
new net scanned (some text) =
    let c = collect net (lines text) no_classifier in
    if scanned
    then (if length c.iran_ranges4 + length c.iran_ranges6 == 0
        then err no_ranges
        else ok (record {
          iran_ranges4 = sort_ranges c.iran_ranges4;
          iran_ranges6 = sort_ranges c.iran_ranges6;
        }))
    else err not_read

unfoldable pub is_iran : Netip → Classifier → Text → Bool
is_iran net c ip_str = elim (net.parse_addr ip_str) [
  | none ↦ false
  | some ip ↦ any (λ p. contains p ip) (if is4 ip then c.iran_ranges4 else c.iran_ranges6)
]

-- The classifier afterwards, and the error if there was one.
unfoldable pub reload : Netip → Bool → Option Text → Classifier → Classifier × Option LoadError
reload net scanned file c = elim (new net scanned file) [ ok c' ↦ (c', none) | err e ↦ (c, some e) ]
