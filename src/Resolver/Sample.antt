-- ===== src/Resolver/Sample.antt =====
-- A resolver between two upstreams that always say the same, for the tests.
use sentrydns.Base.{
  ℕ, ◌+◌, Bool, true, false, Option, none, some, List, [], ◌∷◌, Text, codes, text_eq, Dict,
  if◌then◌else◌, ◌==◌, Lacks, Bool-cases, inl, inr, arith,
}
use sentrydns.Breaker.{Breaker, Gauge, closed}
use sentrydns.Dns.{Msg, a, empty_msg, DnsLib}
use sentrydns.Netip.Sample.{sample, range, iranian}
use sentrydns.Store
use sentrydns.Cache
use sentrydns.Resolver.Hijack.{NamesTypes}
use sentrydns.Resolver.{Resolver, Live, World, Metrics, from_iran}

abbrev pub lib : DnsLib
lib = record {
  type_to_string = λ t. if t == 1 then codes "A" else if t == 28 then codes "AAAA" else [];
  set_reply = λ req. record empty_msg { id = req.id; question = req.question };
}

abbrev pub ask : Text → Msg
ask name = record empty_msg { id = 9; question = record { name = name; qtype = 1 } ∷ [] }

abbrev pub told : List ℕ → Msg
told ip = record empty_msg { id = 4; answer = a 300 ip ∷ [] }

abbrev pub domestic : Msg
domestic = told (5 ∷ 22 ∷ 0 ∷ 9 ∷ [])

abbrev pub abroad : Msg
abroad = told (8 ∷ 0 ∷ 0 ∷ 8 ∷ [])

-- The Iranian upstream always says the same, and its reply arrives first.
abbrev pub world : Option Msg → Option Msg → World
world iran_reply global_reply = record {
  lib = lib;
  net = sample;
  split_host_port = λ s. true;
  join_53 = λ s. s;
  with_edns0 = λ req. req;
  fqdn = λ s. s;
  exchange = λ n t addr timeout req.
      if text_eq addr (codes "ir:53") then (20, iran_reply) else (30, global_reply);
  done = λ n. false;
  remaining = λ n. none;
  now = λ n. 1000 + n;
  today = λ n. codes "2026-01-01";
  event = λ n. from_iran;
  shared = λ n key. none;
  order = λ n m. m;
}

abbrev pub resolver : Dict Bool → Resolver
resolver hijacked = record {
  classifier = record { iran_ranges4 = range ∷ []; iran_ranges6 = [] };
  iran_dns = codes "ir";
  global_dns = codes "gl";
  iran_addr = codes "ir:53";
  global_addr = codes "gl:53";
  global_dns_fallback = [];
  timeout = 3000;
  global_timeout = 1500;
  iran_tlds = (codes "ir", true) ∷ [];
  hijack_ips = hijacked;
  hijack_ranges = [];
  prefer_iran = [];
  static_records = (codes "pin.com.", iranian) ∷ [];
}

abbrev pub breaker : Breaker × Gauge
breaker = (
  record { state = closed; failures = 0; threshold = 5; last_open = 0; cooldown = 30 },
  record { trips_total = 0; open_gauge = 0 },
)

abbrev pub quiet : Metrics
quiet = record {
  queries_total = 0;
  queries_cached = 0;
  cache_miss = 0;
  queries_retried = 0;
  queries_servfail = 0;
  queries_iran = 0;
  queries_global = 0;
  path_static = 0;
  path_tld = 0;
  path_prefer_iran = 0;
  path_store = 0;
  path_learn = 0;
  iran_query_count = 0;
  iran_timeouts = 0;
  iran_latency_total = 0;
  iran_cb_skipped = 0;
  global_query_count = 0;
  global_timeouts = 0;
  global_latency_total = 0;
  global_cb_skipped = 0;
  global_fallback_count = 0;
  global_fallback_latency_total = 0;
  tcp_fallback_count = 0;
  short_wait_expired = 0;
  in_flight_queries = 0;
}

abbrev pub fresh : Live
fresh = record {
  store = Store.new none false none none;
  cache = Cache.new 300 3600 10;
  iran_cb = breaker;
  global_cb = breaker;
  metrics = quiet;
  dns_id = 0;
  active = 0;
  stopped = false;
  tick = 0;
}

abbrev pub hijacks : Resolver
hijacks = resolver ((codes "5.22.0.9", true) ∷ [])

abbrev pub w : World
w = world (some domestic) (some abroad)

lacks : (t : ℕ) → Lacks b':' (lib.type_to_string t)
lacks t = elim (Bool-cases (t == 1)) [
  | inl e ↦ rw e (ground arith)
  | inr e ↦ elim (Bool-cases (t == 28)) [ inl f ↦ rw (e, f) (ground arith) | inr f ↦ rw (e, f) tt ]
]

pub names_types : NamesTypes lib
names_types = record { lacks = lacks; address = λ t u a e. ground arith }
