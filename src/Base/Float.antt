-- ===== src/Base/Float.antt =====
-- float64 without a sign: a value is a whole number of a unit that is below the last bit of every value
-- at hand, and a result is rounded to 53 bits.
use Prim.Native.Nat.{ℕ, zero, suc, ◌+◌, ◌*◌, ◌/◌, ◌%◌, ◌^◌, ◌<◌}
use native.Mathlib.Nat.{mul-div_left, mul-mod_left, div-one, one-mul}
use native.Mathlib.Omega.{arith, pow_step}
use mathlib.Core.Path.{◌≡◌, sym, ap, ◌∙◌, subst}
use mathlib.Core.Logic.{inl, inr}
use sentrydns.Base.Tests.{ltb, ◌==◌, if◌then◌else◌, Bool-cases}

-- What the last bit of a value counts; 128 halvings are enough below 2 ^ 181.
unfoldable pub ulp : ℕ → ℕ → ℕ
ulp zero n = 1
ulp (suc fuel) n = let half = ulp fuel (n / 2) in if ltb n (2 ^ 53) then 1 else 2 * half

-- The whole number nearest to a quotient, and the even one of two that are as near.
unfoldable pub nearest : ℕ → ℕ → ℕ
nearest num den =
    let q = num / den in
    let r = num % den in if ltb den (2 * r) then q + 1 else if 2 * r == den then q + q % 2 else q

unfoldable pub round_ratio : ℕ → ℕ → ℕ
round_ratio num den = let u = ulp 128 (num / den) in nearest num (den * u) * u

unfoldable pub round : ℕ → ℕ
round n = round_ratio n 1

halved : (n : ℕ) → 2 * n / 2 ≡ n
halved n = omega arith

twice : (d u : ℕ) → d * (2 * u) ≡ 2 * (d * u)
twice d u = omega arith

-- The last bit of j * 2 ^ c divides it, where j has no more than 53 bits.
ulp-divides : (fuel c j : ℕ) → j < 2 ^ 53 → (d : ℕ) × (j * 2 ^ c ≡ d * ulp fuel (j * 2 ^ c))
unfolding ulp
ulp-divides zero c j h = (j * 2 ^ c, omega arith)
ulp-divides (suc fuel) zero j h = (j, ground arith)
ulp-divides (suc fuel) (suc c) j h =
    let n = j * 2 ^ c in
    let e : j * 2 ^ suc c ≡ 2 * n = omega (arith, ap (λ (p : ℕ). j * p) (pow_step 2 c)) in
    subst (λ (k : ℕ). (d : ℕ) × (k ≡ d * ulp (suc fuel) k)) (sym e)
      (elim (Bool-cases (ltb (2 * n) (2 ^ 53))) [
        | inl small ↦ (2 * n, rw small (omega arith))
        | inr large ↦
            let (d, f) = ulp-divides fuel c j h in
            (d, rw (large, halved n) (omega (arith, f, twice d (ulp fuel n))))
      ])

nearest-exact : (d u : ℕ) → nearest (d * u) u * u ≡ d * u
unfolding nearest
nearest-exact d zero = omega arith
nearest-exact d (suc u) =
    let a = mul-div_left d {n = suc u} (omega arith) in
    let b = mul-mod_left d (suc u) in ground arith

-- A value of at most 53 bits is not changed.
pub round-exact : (c j : ℕ) → j < 2 ^ 53 → round (j * 2 ^ c) ≡ j * 2 ^ c
unfolding round round_ratio
round-exact c j h =
    let n = j * 2 ^ c in
    let (d, e) = ulp-divides 128 c j h in
    rw (div-one n, one-mul (ulp 128 n))
      (ap (λ (k : ℕ). nearest k (ulp 128 n) * ulp 128 n) e ∙ nearest-exact d (ulp 128 n) ∙ sym e)
