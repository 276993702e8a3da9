-- ===== src/Resolver/Setup.antt =====
-- `New` of internal/resolver/resolver.go.
use sentrydns.Base.{ℕ, Bool, true, false, none, some, List, [], ◌∷◌, Text, to_lower, Dict, insert}
use sentrydns.Breaker.{Breaker, Gauge, closed}
use sentrydns.Netip.{Prefix, Netip}
use sentrydns.Cache
use sentrydns.Store
use sentrydns.Classifier
use sentrydns.Resolver.{Resolver, Live, World, Metrics}
use sentrydns.Resolver.Filter.{resolve_addr}

-- What the configuration gives to `New`.
pub record Settings : Type 0 where
  pub iran_dns : Text
  pub global_dns : Text
  pub global_dns_fallback : Text
  pub iran_tlds : List Text
  pub hijack_ips : List Text
  pub hijack_ranges : List Text
  pub prefer_iran_domains : List Text
  pub min_ttl : ℕ
  pub max_ttl : ℕ
  pub cache_max_entries : ℕ
  pub cb_threshold : ℕ
  pub cb_cooldown : ℕ
  pub global_cb_threshold : ℕ
  pub global_cb_cooldown : ℕ

unfoldable pub lower_set : List Text → Dict Bool → Dict Bool
lower_set [] m = m
lower_set (t ∷ ts) m = lower_set ts (insert (to_lower t) true m)

unfoldable pub text_set : List Text → Dict Bool → Dict Bool
text_set [] m = m
text_set (t ∷ ts) m = text_set ts (insert t true m)

-- A range that does not parse is left out.
unfoldable pub parse_ranges : Netip → List Text → List Prefix
parse_ranges net [] = []
parse_ranges net (cidr ∷ rest) = elim (net.parse_prefix cidr) [
  | none ↦ parse_ranges net rest
  | some prefix ↦ prefix ∷ parse_ranges net rest
]

abbrev pub new_breaker : ℕ → ℕ → Breaker
new_breaker threshold cooldown = record {
  state = closed;
  failures = 0;
  threshold = threshold;
  last_open = 0;
  cooldown = cooldown;
}

unfoldable pub new : World → Classifier.Classifier → Settings → Resolver
unfolding lower_set text_set parse_ranges
new w c o = record {
  classifier = c;
  iran_dns = o.iran_dns;
  global_dns = o.global_dns;
  iran_addr = resolve_addr w o.iran_dns;
  global_addr = resolve_addr w o.global_dns;
  global_dns_fallback = o.global_dns_fallback;
  timeout = 3000000000;
  global_timeout = 1500000000;
  iran_tlds = lower_set o.iran_tlds [];
  hijack_ips = text_set o.hijack_ips [];
  hijack_ranges = parse_ranges w.net o.hijack_ranges;
  prefer_iran = lower_set o.prefer_iran_domains [];
  static_records = [];
}

-- The counters are those of the metrics that `New` is given, and the ids go on where they were.
unfoldable pub new_live : Store.Store → Settings → Metrics → Gauge → Gauge → ℕ → Live
new_live s o metrics iran_gauge global_gauge dns_id = record {
  store = s;
  cache = Cache.new o.min_ttl o.max_ttl o.cache_max_entries;
  iran_cb = (new_breaker o.cb_threshold o.cb_cooldown, iran_gauge);
  global_cb = (new_breaker o.global_cb_threshold o.global_cb_cooldown, global_gauge);
  metrics = metrics;
  dns_id = dns_id;
  active = 0;
  stopped = false;
  tick = 0;
}
