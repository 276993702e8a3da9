-- ===== src/Resolver.antt =====
-- internal/resolver/resolver.go: how a query is routed to the Iranian or the global upstream. The
-- struct `Resolver` is two records: `Resolver` holds the fields that a query only reads, `Live` those
-- that it changes. What the program reads from outside is the record `World`: each reading is indexed
-- by the number of readings before it, the field `tick` of `Live`. The children model the operations:
-- Filter (static records, TLDs, hijacked addresses), Query (one upstream), Learning (both upstreams),
-- Route (`resolve`), Handle (`Resolve` and the other entry points) and Setup (`New`).
pub mod Filter
pub mod Query
pub mod Learning
pub mod Route
pub mod Handle
pub mod Setup
pub mod Answered
pub mod Clean
pub mod Stored
pub mod Keeps
pub mod Learned
pub mod Replies
pub mod Untouched
pub mod Balance
pub mod Cached
pub mod Steps
pub mod Hijack
pub mod Sample
mod Tests
use sentrydns.Base.{ℕ, ◌+◌, Bool, Option, List, Text, Dict, i64_inc}
use sentrydns.Breaker.{Breaker, Gauge}
use sentrydns.Dns.{Msg, DnsLib}
use sentrydns.Netip.{Addr, Prefix, Netip}
use sentrydns.Store
use sentrydns.Cache
use sentrydns.Classifier

pub data Transport : Type 0 where
  udp tcp : Transport

-- The counters of internal/metrics that the resolver writes, but for those of the breakers and of the
-- store.
pub record Metrics : Type 0 where
  pub queries_total : ℕ
  pub queries_cached : ℕ
  pub cache_miss : ℕ
  pub queries_retried : ℕ
  pub queries_servfail : ℕ
  pub queries_iran : ℕ
  pub queries_global : ℕ
  pub path_static : ℕ
  pub path_tld : ℕ
  pub path_prefer_iran : ℕ
  pub path_store : ℕ
  pub path_learn : ℕ
  pub iran_query_count : ℕ
  pub iran_timeouts : ℕ
  pub iran_latency_total : ℕ
  pub iran_cb_skipped : ℕ
  pub global_query_count : ℕ
  pub global_timeouts : ℕ
  pub global_latency_total : ℕ
  pub global_cb_skipped : ℕ
  pub global_fallback_count : ℕ
  pub global_fallback_latency_total : ℕ
  pub tcp_fallback_count : ℕ
  pub short_wait_expired : ℕ
  pub in_flight_queries : ℕ

-- The durations are nanoseconds.
pub record Resolver : Type 0 where
  pub classifier : Classifier.Classifier
  pub iran_dns : Text
  pub global_dns : Text
  pub iran_addr : Text
  pub global_addr : Text
  pub global_dns_fallback : Text
  pub timeout : ℕ
  pub global_timeout : ℕ
  pub iran_tlds : Dict Bool
  pub hijack_ips : Dict Bool
  pub hijack_ranges : List Prefix
  pub prefer_iran : Dict Bool
  pub static_records : Dict Addr

-- Each breaker stands beside the counters that its `onStateChange` writes. `dns_id` is the package's
-- `dnsIDCounter`.
pub record Live : Type 0 where
  pub store : Store.Store
  pub cache : Cache.Cache
  pub iran_cb : Breaker × Gauge
  pub global_cb : Breaker × Gauge
  pub metrics : Metrics
  pub dns_id : ℕ
  pub active : ℕ
  pub stopped : Bool
  pub tick : ℕ

-- An event that a `select` of `resolveWithLearning` takes.
pub data Event : Type 0 where
  from_iran from_global timed_out cancelled : Event

-- `exchange` is `ExchangeContext` over a transport with an address and a timeout: the time it took, and
-- the reply or `none` for an error. `done` tells whether the context is done, `remaining` the time to
-- its deadline if it has one (0 where it has passed), `shared` the result of the call that is in flight
-- for a key, if there is one, and `order` the order of a `range` over a cache's map. `split_host_port` tells whether
-- `net.SplitHostPort` succeeds, `join_53` is `net.JoinHostPort` with the port 53, and `with_edns0` what
-- `SetEdns0` does to a query without that record.
pub record World : Type 0 where
  pub lib : DnsLib
  pub net : Netip
  pub split_host_port : Text → Bool
  pub join_53 : Text → Text
  pub with_edns0 : Msg → Msg
  pub fqdn : Text → Text
  pub exchange : ℕ → Transport → Text → ℕ → Msg → ℕ × Option Msg
  pub done : ℕ → Bool
  pub remaining : ℕ → Option ℕ
  pub now : ℕ → ℕ
  pub today : ℕ → Text
  pub event : ℕ → Event
  pub shared : ℕ → Text → Option Msg
  pub order : ℕ → Dict Cache.Entry → List (Text × Cache.Entry)

-- One more reading from outside.
abbrev pub next_tick : Live → Live
next_tick s = record s { tick = s.tick + 1 }
