-- ===== src/Config/Ttl.antt =====
-- The bounds on the time to live, from the configuration to the cache: `main` passes them on as
-- `uint32(cfg.MinTTL)` and `uint32(cfg.MaxTTL)`.
use sentrydns.Base.{
  arith, ℕ, ◌+◌, ◌-◌, ◌*◌, ◌%◌, ◌^◌, ◌≡◌, ◌≢◌, ◌≤◌, ◌<◌, none, some, List, [], Text, refl, sym, ap,
  subst, ◌∙◌, ℤ, pos, negsuc, pos_part,
}
use sentrydns.Dns.{Msg, DnsLib}
use sentrydns.Cache.{Entry, Cache, make_key, get, set, second, clamp, response_min_ttl}
use sentrydns.Cache.Reads.{Accepted, get-set_lifetime, get-set, expiry}
use sentrydns.Config.{Config, IpText, validate}
use sentrydns.Config.Checks.{Positive, validate_iff}

-- `uint32(x)`, and the bit pattern of `int32(x)`
unfoldable pub uint32 : ℤ → ℕ
uint32 (pos n) = n % 2 ^ 32
uint32 (negsuc n) = 2 ^ 32 - 1 - n % 2 ^ 32

-- A cache with the configured bounds.
abbrev pub Configured : Config → Cache → Type 0
Configured cfg c = (c.min_ttl ≡ uint32 cfg.min_ttl) × (c.max_ttl ≡ uint32 cfg.max_ttl)

uint32_small : (z : ℤ) → z ≡ pos (pos_part z) → pos_part z < 2 ^ 32 → uint32 z ≡ pos_part z
unfolding uint32
uint32_small (pos n) p h = omega arith
uint32_small (negsuc n) p h = absurd (ground arith)

Positive-pos : (z : ℤ) → Positive z → z ≡ pos (pos_part z)
Positive-pos (pos n) h = refl
Positive-pos (negsuc n) h = absurd (ground (arith, h.1))

-- If `Validate` accepts a configuration whose maximum time to live fits in 32 bits, then in a cache with
-- its bounds an answer that the cache accepts, to a request with a key, is returned by a lookup of the
-- request that follows within the configured minimum of seconds, and by none that follows after the
-- configured maximum.
pub validate-lifetime :
    (net : IpText) (cfg : Config) (lib : DnsLib) (order : List (Text × Entry)) (now t later : ℕ)
    (c : Cache) (req resp : Msg)
    → validate net cfg ≡ none
    → pos_part cfg.max_ttl < 2 ^ 32
    → Configured cfg c
    → Accepted resp
    → make_key lib (some req) ≢ []
    → let answer = (get lib t later (set lib order now c req (some resp)) req).1 in
      (t < now + pos_part cfg.min_ttl * second → answer ≡ some (record resp { id = req.id }))
      × (now + pos_part cfg.max_ttl * second ≤ t → answer ≡ none)
validate-lifetime net cfg lib order now t later c req resp v h k a named =
    let u = (validate_iff net cfg).0 v in
    let low =
      k.0
      ∙ uint32_small cfg.min_ttl (Positive-pos cfg.min_ttl u.min_ttl)
          (omega (arith, u.ordered, h)) in
    let high = k.1 ∙ uint32_small cfg.max_ttl (Positive-pos cfg.max_ttl u.max_ttl) h in
    let x =
      get-set_lifetime lib order now t later c req resp req a named refl
        (omega (arith, low, high, u.ordered)) in
    (
      λ b. x.0 (subst (λ n. t < now + n * second) (sym low) b),
      λ b. x.1 (subst (λ n. now + n * second ≤ t) (sym high) b),
    )

clamp-le : (c : Cache) (ttl : ℕ) → clamp c ttl ≤ c.max_ttl
clamp-le c ttl = ground arith

uint32_wide : (k : ℕ) → k < 2 ^ 32 → uint32 (pos (2 ^ 32 + k)) ≡ k
unfolding uint32
uint32_wide k h = omega arith

wide_expiry :
    (c : Cache) (cfg : Config) (now k : ℕ) (resp : Msg)
    → Configured cfg c
    → cfg.max_ttl ≡ pos (2 ^ 32 + k)
    → k < 2 ^ 32
    → expiry c now resp ≤ now + k * second
wide_expiry c cfg now k resp cc e h =
    let m = cc.1 ∙ ap uint32 e ∙ uint32_wide k h in
    omega (
      arith,
      subst (λ n. clamp c (response_min_ttl resp) ≤ n) m (clamp-le c (response_min_ttl resp)),
    )

-- A configured maximum time to live of 2 ^ 32 + k seconds, for a k below 2 ^ 32, is k seconds for the
-- cache with these bounds: an accepted answer to a request with a key is not returned by a lookup that
-- follows k seconds after it is stored, also where the configured minimum is greater than k.
pub validate-wraps :
    (cfg : Config) (lib : DnsLib) (order : List (Text × Entry)) (now t later k : ℕ) (c : Cache)
    (req resp : Msg)
    → cfg.max_ttl ≡ pos (2 ^ 32 + k)
    → k < 2 ^ 32
    → Configured cfg c
    → Accepted resp
    → make_key lib (some req) ≢ []
    → now + k * second ≤ t
    → (get lib t later (set lib order now c req (some resp)) req).1 ≡ none
validate-wraps cfg lib order now t later k c req resp e h cc a named late =
    let x = wide_expiry c cfg now k resp cc e h in
    get-set lib order now t later c req resp req a named refl ∙ ground arith
