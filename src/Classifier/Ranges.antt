-- ===== src/Classifier/Ranges.antt =====
-- What the classifier answers, against the lines of the file.
use sentrydns.Base.{
  All, ◌≡◌, refl, sym, ap, ◌∙◌, ◌≢◌, ◌↔◌, ◌⊎◌, inl, inr, Bool, true, false, ◌||◌, Option, none,
  some, List, [], ◌∷◌, ◌++◌, leb, if◌then◌else◌, Text, any, any-append, any→Any, Any→any, Any,
  arith, Bool-cases, Option-cases,
}
use mathlib.Core.Path.{ap₂, subst₂}
use sentrydns.LearnedFile.{lines, is_skipped}
use sentrydns.Netip.{Addr, Prefix, is4, contains, Netip}
use sentrydns.Classifier.{
  Classifier, Result, ok, err, LoadError, append_range, append_parsed, collect, insert_range,
  sort_ranges, no_classifier, new, is_iran, reload,
}

-- Some range of the classifier contains the address, in whichever list it stands.
abbrev pub holds : Classifier → Addr → Bool
holds c ip = any (λ p. contains p ip) c.iran_ranges4 || any (λ p. contains p ip) c.iran_ranges6

-- A line of the file is a range that contains the address.
abbrev pub is_range_of : Netip → Addr → Text → Bool
is_range_of net ip line =
    if is_skipped line
    then false
    else elim (net.parse_prefix line) [ none ↦ false | some p ↦ contains p ip ]

holds-append_range :
    (p : Prefix) (c : Classifier) (ip : Addr)
    → holds (append_range p c) ip ≡ (holds c ip || contains p ip)
holds-append_range p c ip = ground (
  arith,
  any-append (λ p. contains p ip) c.iran_ranges4 (p ∷ []),
  any-append (λ p. contains p ip) c.iran_ranges6 (p ∷ []),
)

holds-step :
    (net : Netip) (line : Text) (c : Classifier) (ip : Addr)
    → holds (if is_skipped line then c else append_parsed (net.parse_prefix line) c) ip
      ≡ (holds c ip || is_range_of net ip line)
holds-step net line c ip = elim (Bool-cases (is_skipped line)) [
  | inl skipped ↦ rw skipped (or-false (holds c ip))
  | inr read ↦ elim (Option-cases (net.parse_prefix line)) [
    | inl e ↦ rw (read, e) (or-false (holds c ip))
    | inr (p, e) ↦ rw (read, e) (holds-append_range p c ip)
  ]
]
  where
    or-false : (b : Bool) → b ≡ (b || false)
    or-false true = refl
    or-false false = refl

or_assoc : (a b c : Bool) → ((a || b) || c) ≡ (a || (b || c))
or_assoc true b c = refl
or_assoc false b c = refl

holds-collect :
    (net : Netip) (ls : List Text) (c : Classifier) (ip : Addr)
    → holds (collect net ls c) ip ≡ (holds c ip || any (is_range_of net ip) ls)
unfolding collect
holds-collect net [] c ip = ground arith
holds-collect net (line ∷ rest) c ip =
    holds-collect net rest _ ip
    ∙ (ap (λ b. b || any (is_range_of net ip) rest) (holds-step net line c ip)
        ∙ or_assoc (holds c ip) (is_range_of net ip line) (any (is_range_of net ip) rest))

any-insert_range :
    (f : Prefix → Bool) (p : Prefix) (qs : List Prefix)
    → any f (insert_range p qs) ≡ (f p || any f qs)
unfolding insert_range
any-insert_range f p [] = refl
any-insert_range f p (q ∷ qs) = ground (arith, any-insert_range f p qs)

any-sort_ranges : (f : Prefix → Bool) (ps : List Prefix) → any f (sort_ranges ps) ≡ any f ps
unfolding sort_ranges
any-sort_ranges f [] = refl
any-sort_ranges f (p ∷ ps) =
    any-insert_range f p (sort_ranges ps) ∙ ap (λ b. f p || b) (any-sort_ranges f ps)

-- Each list holds the ranges of its family alone.
pub record IsSplit (c : Classifier) : Type 0 where
  pub only4 : All (λ p. is4 p.addr ≡ true) c.iran_ranges4
  pub only6 : All (λ p. is4 p.addr ≡ false) c.iran_ranges6

All-snoc :
    (P : Prefix → Type 0) (ps : List Prefix) (p : Prefix) → All P ps → P p → All P (ps ++ p ∷ [])
All-snoc P [] p h k = (k, tt)
All-snoc P (q ∷ qs) p h k = (h.0, All-snoc P qs p h.1 k)

append_range-IsSplit : (p : Prefix) (c : Classifier) → IsSplit c → IsSplit (append_range p c)
append_range-IsSplit p c s = elim (Bool-cases (is4 p.addr)) [
  | inl four ↦ rw four (record {
    only4 = All-snoc (λ q. is4 q.addr ≡ true) c.iran_ranges4 p s.only4 four;
    only6 = s.only6;
  })
  | inr six ↦ rw six (record {
    only4 = s.only4;
    only6 = All-snoc (λ q. is4 q.addr ≡ false) c.iran_ranges6 p s.only6 six;
  })
]

collect-IsSplit :
    (net : Netip) (ls : List Text) (c : Classifier) → IsSplit c → IsSplit (collect net ls c)
unfolding collect
collect-IsSplit net [] c s = s
collect-IsSplit net (line ∷ rest) c s =
    collect-IsSplit net rest _ (step (is_skipped line) (net.parse_prefix line))
  where
    step : (b : Bool) (o : Option Prefix) → IsSplit (if b then c else append_parsed o c)
    step true o = s
    step false none = s
    step false (some p) = append_range-IsSplit p c s

All-insert_range :
    (P : Prefix → Type 0) (p : Prefix) (qs : List Prefix)
    → P p
    → All P qs
    → All P (insert_range p qs)
unfolding insert_range
All-insert_range P p [] k h = (k, tt)
All-insert_range P p (q ∷ qs) k h = elim (Bool-cases (leb q.bits p.bits)) [
  | inl first ↦ rw first (k, h)
  | inr later ↦ rw later (h.0, All-insert_range P p qs k h.1)
]

All-sort_ranges : (P : Prefix → Type 0) (ps : List Prefix) → All P ps → All P (sort_ranges ps)
unfolding sort_ranges
All-sort_ranges P [] h = tt
All-sort_ranges P (p ∷ ps) h = All-insert_range P p (sort_ranges ps) h.0 (All-sort_ranges P ps h.1)

-- A range of the other family contains no address.
other_family :
    (ip : Addr) (b : Bool) (ps : List Prefix)
    → All (λ p. is4 p.addr ≡ b) ps
    → is4 ip ≢ b
    → any (λ p. contains p ip) ps ≡ false
other_family ip b [] h ne = refl
other_family ip b (p ∷ ps) h ne =
    let outside : contains p ip ≡ false = ground arith in rw outside (other_family ip b ps h.1 ne)

split_holds :
    (c : Classifier) (ip : Addr)
    → IsSplit c
    → any (λ p. contains p ip) (if is4 ip then c.iran_ranges4 else c.iran_ranges6) ≡ holds c ip
split_holds c ip s = elim (Bool-cases (is4 ip)) [
  | inl four ↦
      ground (arith, four, other_family ip false c.iran_ranges6 s.only6 (λ e. ground arith))
  | inr six ↦ ground (arith, six, other_family ip true c.iran_ranges4 s.only4 (λ e. ground arith))
]

is_iran-some :
    (net : Netip) (c : Classifier) (ip_str : Text) (ip : Addr)
    → net.parse_addr ip_str ≡ some ip
    → IsSplit c
    → is_iran net c ip_str ≡ holds c ip
unfolding is_iran
is_iran-some net c ip_str ip e s = rw (e, is_iran) (split_holds c ip s)

is_iran-none :
    (net : Netip) (c : Classifier) (ip_str : Text)
    → net.parse_addr ip_str ≡ none
    → is_iran net c ip_str ≡ false
unfolding is_iran
is_iran-none net c ip_str e = rw (e, is_iran)

-- What a successful `New` builds.
new-ok :
    (net : Netip) (scanned : Bool) (file : Option Text) (c : Classifier)
    → new net scanned file ≡ ok c
    → (text : Text) × (file ≡ some text)
      × IsSplit c
      × ((ip : Addr) → holds c ip ≡ any (is_range_of net ip) (lines text))
new-ok net scanned none c h = absurd (unfold new in ground arith)
new-ok net scanned (some text) c h =
    let raw = collect net (lines text) no_classifier in
    let built : Classifier = record {
      iran_ranges4 = sort_ranges raw.iran_ranges4;
      iran_ranges6 = sort_ranges raw.iran_ranges6;
    } in
    let e : c ≡ built = unfold new in ground arith in
    let split =
      collect-IsSplit net (lines text) no_classifier (record { only4 = tt; only6 = tt }) in
    rw e (
      text,
      refl,
      record {
        only4 = All-sort_ranges (λ p. is4 p.addr ≡ true) raw.iran_ranges4 split.only4;
        only6 = All-sort_ranges (λ p. is4 p.addr ≡ false) raw.iran_ranges6 split.only6;
      },
      λ ip.
          ap₂ ◌||◌ (any-sort_ranges (λ p. contains p ip) raw.iran_ranges4)
            (any-sort_ranges (λ p. contains p ip) raw.iran_ranges6)
          ∙ holds-collect net (lines text) no_classifier ip,
    )

-- A classifier that was built from a file takes an address for Iranian exactly when its text parses
-- as an address and some line of the file, that is not empty and not a comment, is a range that
-- contains it. Splitting the ranges by family and sorting them does not matter.
pub is_iran_iff :
    (net : Netip) (scanned : Bool) (file : Option Text) (c : Classifier) (ip_str : Text)
    → new net scanned file ≡ ok c
    → (is_iran net c ip_str ≡ true) ↔ (
        (text : Text) × (ip : Addr) × (file ≡ some text)
        × (net.parse_addr ip_str ≡ some ip)
        × Any (λ line. is_range_of net ip line ≡ true) (lines text))
is_iran_iff net scanned file c ip_str h =
    let (text, opened, split, agree) = new-ok net scanned file c h in
    elim (Option-cases (net.parse_addr ip_str)) [
      | inl e ↦ (
        λ x. absurd (ground (arith, is_iran-none net c ip_str e)),
        λ x. absurd (ground (arith, x.3)),
      )
      | inr (ip, e) ↦
          let answer = is_iran-some net c ip_str ip e split ∙ agree ip in
          (
            λ x. (text, ip, opened, e, any→Any (is_range_of net ip) (lines text) (sym answer ∙ x)),
            λ x.
                let same_text : x.0 ≡ text = ground (arith, x.2) in
                let same_ip : x.1 ≡ ip = ground (arith, x.3) in
                let found : any (is_range_of net x.1) (lines x.0) ≡ true =
                  Any→any (is_range_of net x.1) x.4 in
                answer
                ∙ subst₂ (λ t i. any (is_range_of net i) (lines t) ≡ true) same_text same_ip found,
          )
    ]

-- A reload either fails and leaves the classifier as it was, or gives what `New` gives.
pub reload_lem :
    (net : Netip) (scanned : Bool) (file : Option Text) (c : Classifier)
    → ((e : LoadError) × (new net scanned file ≡ err e) × (reload net scanned file c ≡ (c, some e)))
      ⊎ ((c' : Classifier) × (new net scanned file ≡ ok c')
          × (reload net scanned file c ≡ (c', none)))
unfolding reload
reload_lem net scanned file c = cases (new net scanned file) refl
  where
    cases :
        (r : Result Classifier)
        → new net scanned file ≡ r
        → ((e : LoadError) × (new net scanned file ≡ err e)
            × (reload net scanned file c ≡ (c, some e)))
          ⊎ ((c' : Classifier) × (new net scanned file ≡ ok c')
              × (reload net scanned file c ≡ (c', none)))
    cases (ok c') q = inr (c', q, rw (q, reload))
    cases (err e) q = inl (e, q, rw (q, reload))
