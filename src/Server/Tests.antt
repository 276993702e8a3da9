-- ===== src/Server/Tests.antt =====
-- Runs of the handler, and the theorems about it there.
use sentrydns.Base.{
  round, round_ratio, nearest, ulp, true, false, find, insert, refl, arith, ℕ, ◌≡◌, some, none, [],
  ◌∷◌, List, codes, pos, Text, text_eq, if◌then◌else◌,
}
use sentrydns.Dns.{Question, empty_msg}
use sentrydns.RateLimit.{token, new_global}
use sentrydns.RateLimit
use sentrydns.Cache
use sentrydns.Config.Ttl.{uint32}
use sentrydns.Config.{Config, default_config}
use sentrydns.Resolver.Sample.{quiet, ask, w, resolver, fresh}
use sentrydns.Domain.{normalize, has, covers, after_dot}
use sentrydns.Netip.Sample.{parse_addr, ip_string}
use sentrydns.Classifier
use sentrydns.Store
use sentrydns.Resolver.Filter.{
  is_hijacked, extract, extract_ips, static_lookup, is_iran_tld, is_prefer_iran,
}
use sentrydns.Resolver.Query.{query, query_iran_dns, address}
use sentrydns.Resolver.Learning.{resolve_with_learning, is_iranian_reply}
use sentrydns.Resolver.Route.{resolve}
use sentrydns.Resolver.Handle.{resolve_request}
use sentrydns.Breaker.{is_open}
use sentrydns.LearnedFile.RoundTrip.{IsName}
use sentrydns.Store.{flush_persist}
use sentrydns.RateLimit.{allow, allow_global}
use sentrydns.Resolver.Setup
use sentrydns.Server.Restart.{left}
use sentrydns.Server.{Net, Server, Arrival, start, handle, loop_ips, watched, settings}
use sentrydns.Server.Guards.{run}
use sentrydns.Breaker.{Gauge}
use sentrydns.Server.Schedule.{parse_schedule, parse-print_schedule, next_cleanup}

abbrev net : Net
net = record {
  ip_text = record { parse_ip = λ s. if text_eq s (codes "5.22.0.9") then some 7 else none };
  split_host = λ s. none;
  parse_duration = λ s. none;
  set_rcode = λ req rcode. record empty_msg { id = req.id; rcode = rcode; question = req.question };
}

abbrev cfg : Config
cfg = record default_config {
  iran_dns = codes "5.22.0.9";
  global_dns = codes "gl";
  global_qps_limit = pos 2;
  rate_limit_per_client = pos 1;
}

abbrev running : Server
running = record {
  live = fresh;
  global = new_global 0 2;
  limiter = RateLimit.new 1;
  loop_detections = 0;
  queries_global_limited = 0;
  queries_rate_limited = 0;
}

abbrev from : Text → ℕ → Arrival
from remote now = record { remote = remote; req = ask (codes "x.com."); now = now }

abbrev three : List Arrival
three = from (codes "c") 1 ∷ from (codes "d") 2 ∷ from (codes "e") 3 ∷ []

program : Unit {0}
unfolding handle run new_global RateLimit.new text_eq Cache.new parse_schedule next_cleanup loop_ips
    watched
program = tt

abbrev asked : Question
asked = record { name = codes "x.com."; qtype = 1 }

abbrev gauge : Gauge
gauge = record { trips_total = 0; open_gauge = 0 }

abbrev started : Server
started = start net cfg fresh.store quiet gauge gauge 0

reads : parse_schedule (codes "02:05") ≡ some (2, 5)
reads = parse-print_schedule 2 5 (omega arith) (omega arith)

resolves : Unit {0}
unfolding handle run start Store.new Store.add Store.is_iran Setup.new_live settings RateLimit.new
    new_global resolve_request resolve resolve_with_learning query address query_iran_dns extract
    extract_ips is_hijacked is_iranian_reply Classifier.is_iran Cache.get Cache.set Cache.new
    Cache.make_key static_lookup is_iran_tld is_prefer_iran is_open parse_addr ip_string normalize
    has find insert covers after_dot text_eq allow allow_global loop_ips watched
resolves = tt

abbrev two : List Arrival
two = from (codes "c") 1 ∷ from (codes "d") 2 ∷ []

named : IsName (normalize (codes "x.com."))
unfolding resolves
named = record { solid = ground arith; kept = refl }

-- The first of two queries is answered with an Iranian address.
learns :
    Store.is_iran
      (left w net cfg (resolver []) two quiet gauge gauge 0 (Store.new none false none none))
      (codes "www.x.com")
    ≡ true
unfolding resolves round round_ratio nearest ulp RateLimit.shard_at RateLimit.put_shard
    Cache.response_min_ttl Cache.store uint32
learns = refl
