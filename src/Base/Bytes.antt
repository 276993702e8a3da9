-- ===== src/Base/Bytes.antt =====
-- Go strings as lists of bytes. `to_lower` is `strings.ToLower` on ASCII: bytes from 128 on stay.
use Prim.Native.Char.{code}
use Prim.Native.String.{String}
use Prim.Native.Nat.{ℕ, ◌+◌}
use mathlib.Core.Path.{◌≡◌, refl, sym, subst}
use mathlib.Core.Logic.{◌≢◌, ◌↔◌}
use mathlib.Core.Bool.{Bool, true, false, ◌&&◌}
use mathlib.Core.List.{List, [], ◌∷◌, ◌++◌, map}
use native.Mathlib.Omega.{arith}
use sentrydns.Base.Tests.{leb, ◌==◌, if◌then◌else◌}
use sentrydns.Base.Lists.{All}

abbrev pub Text : Type 0
Text = List ℕ

-- The bytes of an ASCII literal.
abbrev pub codes : String → Text
codes String.[] = []
codes (String.◌∷◌ c s) = code c ∷ codes s

unfoldable pub text_eq : Text → Text → Bool
text_eq [] [] = true
text_eq [] (y ∷ ys) = false
text_eq (x ∷ xs) [] = false
text_eq (x ∷ xs) (y ∷ ys) = x == y && text_eq xs ys

pub text_eq_iff : (s t : Text) → (text_eq s t ≡ true) ↔ (s ≡ t)
unfolding text_eq
text_eq_iff [] [] = ground arith
text_eq_iff [] (y ∷ ys) = ground arith
text_eq_iff (x ∷ xs) [] = ground arith
text_eq_iff (x ∷ xs) (y ∷ ys) = ground (arith, text_eq_iff xs ys)

pub text_eq_refl : (s : Text) → text_eq s s ≡ true
text_eq_refl s = (text_eq_iff s s).1 refl

abbrev pub to_lower_byte : ℕ → ℕ
to_lower_byte c = if leb b'A' c && leb c b'Z' then c + 32 else c

unfoldable pub to_lower : Text → Text
to_lower = map to_lower_byte

pub to_lower_idem : (s : Text) → to_lower (to_lower s) ≡ to_lower s
unfolding to_lower
to_lower_idem [] = refl
to_lower_idem (c ∷ s) = ground (arith, to_lower_idem s)

abbrev pub Lacks : ℕ → Text → Type 0
Lacks b = All (λ c. c ≢ b)

not-Lacks : (b : ℕ) (t v : Text) → ¬ Lacks b (t ++ b ∷ v)
not-Lacks b [] v h = h.0 refl
not-Lacks b (x ∷ t) v h = not-Lacks b t v h.1

-- Two texts cut at their last `b` have equal parts.
pub append-cons-split :
    (b : ℕ) (s t u v : Text) → Lacks b u → Lacks b v → s ++ b ∷ u ≡ t ++ b ∷ v → (s ≡ t) × (u ≡ v)
append-cons-split b [] [] u v p q e = (refl, cc)
append-cons-split b [] (y ∷ t) u v p q e =
    let e' : u ≡ t ++ b ∷ v = cc in absurd (not-Lacks b t v (subst (Lacks b) e' p))
append-cons-split b (x ∷ s) [] u v p q e =
    let e' : s ++ b ∷ u ≡ v = cc in absurd (not-Lacks b s u (subst (Lacks b) (sym e') q))
append-cons-split b (x ∷ s) (y ∷ t) u v p q e =
    let e' : s ++ b ∷ u ≡ t ++ b ∷ v = cc in
    let ih = append-cons-split b s t u v p q e' in (cc, ih.1)
