-- ===== src/Config/Checks.antt =====
-- What a configuration that passes `Validate` is.
use sentrydns.Base.{
  arith, refl, ℕ, ◌≡◌, ◌≢◌, ◌≤◌, ◌<◌, ◌↔◌, none, some, List, [], ◌∷◌, Text, All, ℤ, pos, negsuc,
  is_not_positive, is_negative, ltb_ℤ, pos_part, Option-cases, false, inl, inr,
}
use sentrydns.LearnedFile.{is_nil, trim_space}
use sentrydns.Config.{Config, IpText, check_records, validate}

-- A number is positive.
abbrev pub Positive : ℤ → Type 0
Positive z = (n : ℕ) × (z ≡ pos n) × (0 < n)

-- A static record that the resolver can use.
abbrev pub IsRecord : IpText → Text × Text → Type 0
IsRecord net p = (trim_space p.0 ≢ []) × ((ip : ℕ) × (net.parse_ip p.1 ≡ some ip))

-- What the program needs of its configuration.
pub record IsUsable (net : IpText) (c : Config) : Type 0 where
  pub iran_dns : c.iran_dns ≢ []
  pub global_dns : c.global_dns ≢ []
  pub listen : c.listen ≢ []
  pub iran_ranges : c.iran_ranges ≢ []
  pub learned : c.learned ≢ []
  pub metrics_addr : c.metrics_addr ≢ []
  pub min_ttl : Positive c.min_ttl
  pub max_ttl : Positive c.max_ttl
  pub ordered : pos_part c.min_ttl ≤ pos_part c.max_ttl
  pub iran_dns_timeout : Positive c.iran_dns_timeout
  pub cleanup_qps : Positive c.cleanup_qps
  pub cleanup_initial_delay : c.cleanup_initial_delay ≢ []
  pub global_qps_limit : c.global_qps_limit ≡ pos (pos_part c.global_qps_limit)
  pub global_dns_timeout : Positive c.global_dns_timeout
  pub static_records : All (IsRecord net) c.static_records

is_nil-false : (s : Text) → (is_nil s ≡ false) ↔ (s ≢ [])
is_nil-false [] = ground arith
is_nil-false (c ∷ s) = ground arith

Positive-iff : (z : ℤ) → (is_not_positive z ≡ false) ↔ Positive z
Positive-iff (pos n) = (λ h. (n, refl, ground arith), λ h. ground (arith, h.1, h.2))
Positive-iff (negsuc n) = (λ h. absurd (ground arith), λ h. ground (arith, h.1))

check_records_iff :
    (net : IpText) (rs : List (Text × Text)) → (check_records net rs ≡ none) ↔ All (IsRecord net) rs
unfolding check_records
check_records_iff net [] = (λ h. tt, λ h. refl)
check_records_iff net ((domain, ip) ∷ rest) =
    let named = is_nil-false (trim_space domain) in
    let more = check_records_iff net rest in
    elim (Option-cases (net.parse_ip ip)) [
      | inl e ↦ (λ h. absurd (ground (arith, e)), λ h. absurd (ground (arith, e, h.0.1.1)))
      | inr (n, e) ↦ (
        λ h. ((named.0 (ground (arith, e)), (n, e)), more.0 (ground (arith, e))),
        λ h. let x = named.1 h.0.0 in let y = more.1 h.1 in ground (arith, e),
      )
    ]

-- The tests of `validate` all fail.
abbrev Passed : IpText → Config → Type 0
Passed net c =
    (is_nil c.iran_dns ≡ false)
    × (is_nil c.global_dns ≡ false)
    × (is_nil c.listen ≡ false)
    × (is_nil c.iran_ranges ≡ false)
    × (is_nil c.learned ≡ false)
    × (is_nil c.metrics_addr ≡ false)
    × (is_not_positive c.min_ttl ≡ false)
    × (is_not_positive c.max_ttl ≡ false)
    × (ltb_ℤ c.max_ttl c.min_ttl ≡ false)
    × (is_not_positive c.iran_dns_timeout ≡ false)
    × (is_not_positive c.cleanup_qps ≡ false)
    × (is_nil c.cleanup_initial_delay ≡ false)
    × (is_negative c.global_qps_limit ≡ false)
    × (is_not_positive c.global_dns_timeout ≡ false)
    × (check_records net c.static_records ≡ none)

validate-Passed : (net : IpText) (c : Config) → (validate net c ≡ none) ↔ Passed net c
unfolding validate
validate-Passed net c = ground arith

ordered_iff :
    (min_ttl max_ttl : ℤ)
    → Positive min_ttl
    → Positive max_ttl
    → (ltb_ℤ max_ttl min_ttl ≡ false) ↔ (pos_part min_ttl ≤ pos_part max_ttl)
ordered_iff (pos m) (pos n) a b = ground arith
ordered_iff (pos m) (negsuc n) a b = absurd (ground (arith, b.1))
ordered_iff (negsuc m) n a b = absurd (ground (arith, a.1))

not_negative_iff : (z : ℤ) → (is_negative z ≡ false) ↔ (z ≡ pos (pos_part z))
not_negative_iff (pos n) = (λ h. refl, λ h. refl)
not_negative_iff (negsuc n) = (λ h. absurd (ground arith), λ h. absurd (ground arith))

-- `Validate` reports no error exactly for the configurations that meet its conditions: the names,
-- paths and delays that it asks for are there, the counts and times are positive, the limit on all
-- queries is not negative, the minimum time to live is at most the maximum, and every static record
-- has a domain and an IP address.
pub validate_iff : (net : IpText) (c : Config) → (validate net c ≡ none) ↔ IsUsable net c
validate_iff net c = (
  λ h.
      let p = (validate-Passed net c).0 h in
      let low = (Positive-iff c.min_ttl).0 p.6 in
      let high = (Positive-iff c.max_ttl).0 p.7 in
      record {
        iran_dns = (is_nil-false c.iran_dns).0 p.0;
        global_dns = (is_nil-false c.global_dns).0 p.1;
        listen = (is_nil-false c.listen).0 p.2;
        iran_ranges = (is_nil-false c.iran_ranges).0 p.3;
        learned = (is_nil-false c.learned).0 p.4;
        metrics_addr = (is_nil-false c.metrics_addr).0 p.5;
        min_ttl = low;
        max_ttl = high;
        ordered = (ordered_iff c.min_ttl c.max_ttl low high).0 p.8;
        iran_dns_timeout = (Positive-iff c.iran_dns_timeout).0 p.9;
        cleanup_qps = (Positive-iff c.cleanup_qps).0 p.10;
        cleanup_initial_delay = (is_nil-false c.cleanup_initial_delay).0 p.11;
        global_qps_limit = (not_negative_iff c.global_qps_limit).0 p.12;
        global_dns_timeout = (Positive-iff c.global_dns_timeout).0 p.13;
        static_records = (check_records_iff net c.static_records).0 p.14;
      },
  λ u. (validate-Passed net c).1 (
    (is_nil-false c.iran_dns).1 u.iran_dns,
    (is_nil-false c.global_dns).1 u.global_dns,
    (is_nil-false c.listen).1 u.listen,
    (is_nil-false c.iran_ranges).1 u.iran_ranges,
    (is_nil-false c.learned).1 u.learned,
    (is_nil-false c.metrics_addr).1 u.metrics_addr,
    (Positive-iff c.min_ttl).1 u.min_ttl,
    (Positive-iff c.max_ttl).1 u.max_ttl,
    (ordered_iff c.min_ttl c.max_ttl u.min_ttl u.max_ttl).1 u.ordered,
    (Positive-iff c.iran_dns_timeout).1 u.iran_dns_timeout,
    (Positive-iff c.cleanup_qps).1 u.cleanup_qps,
    (is_nil-false c.cleanup_initial_delay).1 u.cleanup_initial_delay,
    (not_negative_iff c.global_qps_limit).1 u.global_qps_limit,
    (Positive-iff c.global_dns_timeout).1 u.global_dns_timeout,
    (check_records_iff net c.static_records).1 u.static_records,
  ),
)
