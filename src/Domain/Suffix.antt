-- ===== src/Domain/Suffix.antt =====
-- What the loop over the suffixes of a name finds.
use sentrydns.Base.{
  ℕ, zero, suc, ◌<◌, ◌≡◌, refl, sym, ap, ◌∙◌, subst, ◌↔◌, ◌⊎◌, inl, inr, Bool, true, false, Option,
  none, some, [], ◌∷◌, ◌++◌, ◌==◌, ==_iff, Text, to_lower, to_lower_byte, Dict, length, arith,
  Bool-cases, Option-cases,
}
use mathlib.Core.List.{append_assoc}
use sentrydns.Domain.{trim_dot, normalize, after_dot, has, walk, walk_domain, covers}

-- `s` is the whole name `d`, or what follows one of its dots.
abbrev pub IsSuffix : Text → Text → Type 0
IsSuffix s d = (d ≡ s) ⊎ ((p : Text) × (d ≡ p ++ b'.' ∷ s))

-- A suffix of the name is in the set.
abbrev pub Covered : Dict Bool → Text → Type 0
Covered set d = (s : Text) × IsSuffix s d × (has set s ≡ true)

after_dot-some :
    (d r : Text) → after_dot d ≡ some r → ((p : Text) × (d ≡ p ++ b'.' ∷ r)) × (length r < length d)
unfolding after_dot
after_dot-some [] r h = absurd (ground arith)
after_dot-some (c ∷ d) r h = elim (Bool-cases (c == b'.')) [
  | inl e ↦ (([], ground (arith, (==_iff c b'.').0 e)), ground arith)
  | inr e ↦
      let ((p, q), l) = after_dot-some d r (ground arith) in ((c ∷ p, ap (◌∷◌ c) q), omega arith)
]

-- A dot cuts a suffix off at the first dot or later.
after_dot-append : (p s : Text) → (r : Text) × (after_dot (p ++ b'.' ∷ s) ≡ some r) × IsSuffix s r
unfolding after_dot
after_dot-append [] s = (s, refl, inl refl)
after_dot-append (c ∷ p) s = elim (Bool-cases (c == b'.')) [
  | inl e ↦ (p ++ b'.' ∷ s, rw e, inr (p, refl))
  | inr e ↦ let (r, q, i) = after_dot-append p s in (r, rw e q, i)
]

after_dot-none : (d s : Text) → after_dot d ≡ none → IsSuffix s d → d ≡ s
after_dot-none d s h (inl e) = e
after_dot-none d s h (inr (p, e)) =
    let (r, q, i) = after_dot-append p s in
    let q' : after_dot d ≡ some r = rw e q in absurd (ground arith)

IsSuffix-part : (p r s : Text) → IsSuffix s r → IsSuffix s (p ++ b'.' ∷ r)
IsSuffix-part p r s (inl e) = inr (p, ap (λ t. p ++ b'.' ∷ t) e)
IsSuffix-part p r s (inr (q, e)) =
    inr (p ++ b'.' ∷ q, ap (λ t. p ++ b'.' ∷ t) e ∙ sym (append_assoc p (b'.' ∷ q) (b'.' ∷ s)))

Covered-part : (set : Dict Bool) (d r : Text) → after_dot d ≡ some r → Covered set r → Covered set d
Covered-part set d r q (s, i, m) =
    let ((p, e), _) = after_dot-some d r q in
    (s, subst (IsSuffix s) (sym e) (IsSuffix-part p r s i), m)

walk-true : (fuel : ℕ) (set : Dict Bool) (d : Text) → walk fuel set d ≡ some true → Covered set d
unfolding walk
walk-true zero set d h = absurd (ground arith)
walk-true (suc fuel) set d h = elim (Bool-cases (has set d)) [
  | inl e ↦ (d, inl refl, e)
  | inr e ↦ elim (Option-cases (after_dot d)) [
    | inl n ↦ absurd (ground arith)
    | inr (r, q) ↦ Covered-part set d r q (walk-true fuel set r (ground arith))
  ]
]

walk-total :
    (fuel : ℕ) (set : Dict Bool) (d : Text)
    → length d < fuel
    → (walk fuel set d ≡ some true) ⊎ (walk fuel set d ≡ some false)
unfolding walk
walk-total zero set d h = absurd (omega arith)
walk-total (suc fuel) set d h = elim (Option-cases (after_dot d)) [
  | inl n ↦ ground arith
  | inr (r, q) ↦
      let ih = walk-total fuel set r (omega (arith, (after_dot-some d r q).1)) in ground arith
]

walk-Covered :
    (fuel : ℕ) (set : Dict Bool) (d : Text)
    → length d < fuel
    → Covered set d
    → walk fuel set d ≡ some true
unfolding walk
walk-Covered zero set d h c = absurd (omega arith)
walk-Covered (suc fuel) set d h (s, inl e, m) = ground arith
walk-Covered (suc fuel) set d h (s, inr (p, e), m) = elim (Bool-cases (has set d)) [
  | inl found ↦ rw found
  | inr missing ↦
      let (r, q, i) = after_dot-append p s in
      let q' : after_dot d ≡ some r = rw e q in
      let ih = walk-Covered fuel set r (omega (arith, (after_dot-some d r q').1)) (s, i, m) in
      ground arith
]

-- The loop always ends within its fuel, and it answers true exactly when the name itself, or what
-- follows one of its dots, is in the set.
pub walk_domain_iff :
    (set : Dict Bool) (d : Text)
    → ((b : Bool) × (walk_domain set d ≡ some b))
      × ((walk_domain set d ≡ some true) ↔ Covered set d)
unfolding walk_domain
walk_domain_iff set d = (
  ends (walk-total (suc (length d)) set d (omega arith)),
  (walk-true (suc (length d)) set d, walk-Covered (suc (length d)) set d (omega arith)),
)
  where
    ends : {o : Option Bool} → (o ≡ some true) ⊎ (o ≡ some false) → (b : Bool) × (o ≡ some b)
    ends (inl e) = (true, e)
    ends (inr e) = (false, e)

-- What the clients use: the answer of the loop as a `Bool`.
pub covers_iff : (set : Dict Bool) (d : Text) → (covers set d ≡ true) ↔ Covered set d
unfolding covers
covers_iff set d =
    let ((b, e), (f, g)) = walk_domain_iff set d in
    (λ h. f (ground arith), λ c. ground (arith, g c))

trim_dot-append : (d : Text) → trim_dot (d ++ b'.' ∷ []) ≡ d
unfolding trim_dot
trim_dot-append [] = refl
trim_dot-append (c ∷ []) = refl
trim_dot-append (c ∷ e ∷ d) = ap (◌∷◌ c) (trim_dot-append (e ∷ d))

to_lower-trim_dot : (d : Text) → to_lower (trim_dot d) ≡ trim_dot (to_lower d)
unfolding trim_dot to_lower
to_lower-trim_dot [] = refl
to_lower-trim_dot (c ∷ []) = ground arith
to_lower-trim_dot (c ∷ e ∷ d) = ap (◌∷◌ (to_lower_byte c)) (to_lower-trim_dot (e ∷ d))

-- `normalize` takes the trailing dot of a fully qualified name away and lowers its letters, and it
-- gives names that differ only in the case of their letters the same form.
normalize_fqdn :
    (d e : Text)
    → (normalize (d ++ b'.' ∷ []) ≡ to_lower d)
      × (to_lower d ≡ to_lower e → normalize d ≡ normalize e)
unfolding normalize
normalize_fqdn d e = (
  ap to_lower (trim_dot-append d),
  λ h. to_lower-trim_dot d ∙ (ap trim_dot h ∙ sym (to_lower-trim_dot e)),
)
