-- ===== src/Metrics/Floats.antt =====
-- `formatFloat` drops zeros behind the point, and the point where nothing is left behind it.
use sentrydns.Base.{
  arith, refl, ap, ◌∙◌, ℕ, zero, suc, ◌≡◌, Bool, true, false, [], ◌∷◌, ◌++◌, ◌==◌, Text, any,
  Bool-cases, inl, inr,
}
use sentrydns.Metrics.Endpoints.{Format}
use sentrydns.Metrics.Prometheus.{format_float, keep_byte, trim_right}

abbrev pub zeros : ℕ → Text
zeros zero = []
zeros (suc k) = b'0' ∷ zeros k

abbrev pub is_empty : Text → Bool
is_empty [] = true
is_empty (x ∷ s) = false

-- A text without the byte is left alone.
trim_right-none : (c : ℕ) (s : Text) → any (λ x. x == c) s ≡ false → trim_right c s ≡ s
unfolding trim_right
trim_right-none c [] h = refl
trim_right-none c (x ∷ s) h =
    ap (keep_byte c x) (trim_right-none c s (ground arith)) ∙ kept c x s (ground arith)
  where
    kept : (c x : ℕ) (s : Text) → (x == c) ≡ false → keep_byte c x s ≡ x ∷ s
    kept c x [] h = ground (arith, h)
    kept c x (y ∷ ys) h = refl

-- Text before a byte that stays is left alone.
trim_right-append :
    (c : ℕ) (s t : Text) (y : ℕ) (ys : Text)
    → trim_right c t ≡ y ∷ ys
    → trim_right c (s ++ t) ≡ s ++ y ∷ ys
unfolding trim_right
trim_right-append c [] t y ys h = h
trim_right-append c (x ∷ s) t y ys h =
    ap (keep_byte c x) (trim_right-append c s t y ys h) ∙ kept c x s y ys
  where
    kept : (c x : ℕ) (s : Text) (y : ℕ) (ys : Text) → keep_byte c x (s ++ y ∷ ys) ≡ x ∷ s ++ y ∷ ys
    kept c x [] y ys = refl
    kept c x (z ∷ s) y ys = refl

-- Only zeros are dropped.
trim_right-zeros : (s : Text) → (k : ℕ) × (s ≡ trim_right b'0' s ++ zeros k)
unfolding trim_right
trim_right-zeros [] = (0, refl)
trim_right-zeros (x ∷ s) = let (k, e) = trim_right-zeros s in again x s (trim_right b'0' s) k e
  where
    again :
        (x : ℕ) (s t : Text) (k : ℕ)
        → s ≡ t ++ zeros k
        → (j : ℕ) × (x ∷ s ≡ keep_byte b'0' x t ++ zeros j)
    again x s [] k e = elim (Bool-cases (x == b'0')) [
      | inl h ↦ (suc k, ground (arith, h, e))
      | inr h ↦ (k, ground (arith, h, e))
    ]
    again x s (y ∷ ys) k e = (k, ap (λ u. x ∷ u) e)

any-trim_right :
    (p : ℕ → Bool) (c : ℕ) (s : Text) → any p s ≡ false → any p (trim_right c s) ≡ false
unfolding trim_right
any-trim_right p c [] h = refl
any-trim_right p c (x ∷ s) h =
    kept p c x (trim_right c s) (ground arith) (any-trim_right p c s (ground arith))
  where
    kept :
        (p : ℕ → Bool) (c x : ℕ) (t : Text)
        → p x ≡ false
        → any p t ≡ false
        → any p (keep_byte c x t) ≡ false
    kept p c x [] h g = elim (Bool-cases (x == c)) [
      | inl e ↦ ground (arith, e)
      | inr e ↦ ground (arith, e, h)
    ]
    kept p c x (y ∷ ys) h g = ground (arith, h, g)

-- A number with these digits before and behind its point, which is left out if none are behind it.
abbrev pub with_fraction : Text → Text → Text
with_fraction whole [] = whole
with_fraction whole (y ∷ ys) = whole ++ b'.' ∷ y ∷ ys

with_fraction-trimmed :
    (whole fraction : Text)
    → any (λ x. x == b'.') whole ≡ false
    → any (λ x. x == b'.') fraction ≡ false
    → trim_right b'.' (whole ++ b'.' ∷ fraction) ≡ with_fraction whole fraction
unfolding trim_right
with_fraction-trimmed whole [] w f = trim_right-append_none whole ∙ trim_right-none b'.' whole w
  where
    trim_right-append_none : (s : Text) → trim_right b'.' (s ++ b'.' ∷ []) ≡ trim_right b'.' s
    trim_right-append_none [] = refl
    trim_right-append_none (x ∷ s) = ap (keep_byte b'.' x) (trim_right-append_none s)
with_fraction-trimmed whole (y ∷ ys) w f =
    trim_right-append b'.' whole (b'.' ∷ y ∷ ys) b'.' (y ∷ ys)
      (ap (keep_byte b'.' b'.') (trim_right-none b'.' (y ∷ ys) f))

point-kept : (fraction : Text) → trim_right b'0' (b'.' ∷ fraction) ≡ b'.' ∷ trim_right b'0' fraction
unfolding trim_right
point-kept fraction = kept (trim_right b'0' fraction)
  where
    kept : (t : Text) → keep_byte b'0' b'.' t ≡ b'.' ∷ t
    kept [] = refl
    kept (y ∷ ys) = refl

-- Where the fixed format gives digits, a point and digits behind it, `formatFloat` leaves out zeros at the
-- end of the digits behind the point and nothing else, and the point if no digits are left behind it: no
-- zero before the point is lost.
format_float_lem :
    (fmt : Format) (v : fmt.Float) (whole fraction : Text)
    → fmt.fixed v ≡ whole ++ b'.' ∷ fraction
    → any (λ x. x == b'.') whole ≡ false
    → any (λ x. x == b'.') fraction ≡ false
    → (rest : Text) × (k : ℕ) × (fraction ≡ rest ++ zeros k)
      × (format_float fmt v ≡ with_fraction whole rest)
unfolding format_float
format_float_lem fmt v whole fraction shown w f =
    let rest = trim_right b'0' fraction in
    let (k, e) = trim_right-zeros fraction in
    (
      rest,
      k,
      e,
      ap (λ t. trim_right b'.' (trim_right b'0' t)) shown
          ∙ ap (trim_right b'.')
              (trim_right-append b'0' whole (b'.' ∷ fraction) b'.' rest (point-kept fraction))
          ∙ with_fraction-trimmed whole rest w (any-trim_right (λ x. x == b'.') b'0' fraction f),
    )
