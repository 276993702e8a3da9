-- ===== src/Resolver/Tests.antt =====
-- Runs of the resolver between an Iranian upstream and a global one, and its theorems there.
use sentrydns.Base.{◌≡◌, refl, ◌≢◌, true, none, some, [], ◌∷◌, codes, text_eq, find, arith, insert}
use sentrydns.Breaker.{is_open, watched_step, record_failure}
use sentrydns.Domain.{normalize, has, covers, after_dot}
use sentrydns.Dns.{a, Question}
use sentrydns.Netip.Sample.{sample, iranian, parse_addr, ip_string}
use sentrydns.Classifier
use sentrydns.Store
use sentrydns.Cache
use sentrydns.Resolver.{Live, World}
use sentrydns.Resolver.Filter.{
  is_hijacked, extract, extract_ips, server_fail, static_lookup, static_response, is_iran_tld,
  is_prefer_iran,
}
use sentrydns.Resolver.Query.{query, query_iran_dns, address}
use sentrydns.Resolver.Learning.{resolve_with_learning, is_iranian_reply}
use sentrydns.Resolver.Route.{accept, resolve}
use sentrydns.Resolver.Handle.{do_flight, resolve_request}
use sentrydns.Resolver.Sample.{ask, domestic, abroad, world, resolver, fresh, hijacks, w}
use sentrydns.Resolver.Learned.{resolve-learns_nothing}
use sentrydns.Resolver.Replies.{resolve_request-static}
use sentrydns.Resolver.Balance.{do_flight-failed}

program : Unit {0}
unfolding resolve resolve_request do_flight resolve_with_learning query address extract_ips
    is_hijacked is_iranian_reply Classifier.is_iran Store.add Store.new Store.is_iran Cache.get
    Cache.set Cache.new static_lookup static_response server_fail parse_addr ip_string text_eq
    normalize has find insert Cache.make_key is_iran_tld is_prefer_iran covers after_dot is_open
    query_iran_dns extract
program = tt

-- An Iranian address is learned, and its reply is returned under the id of the request.
learns :
    let (s', reply) =
      resolve_request
        (world (some domestic) (some abroad))
        (resolver [])
        (some (ask (codes "X.com.")))
        fresh in
    (reply ≡ record domestic { id = 9 })
    × (has s'.store.domains (codes "x.com") ≡ true)
    × (s'.metrics.queries_iran ≡ 1)
unfolding program
learns = (refl, refl, refl)

-- The Iranian upstream returns an address that the resolver takes for hijacked.
abbrev knows : Live
knows = record fresh { store = record fresh.store { domains = (codes "b.org", true) ∷ [] } }

-- Under an Iranian TLD the hijacked reply is replaced by that of the global upstream, and nothing is
-- learned from it elsewhere.
shields :
    ((resolve w hijacks (ask (codes "a.ir.")) 1 (codes "a.ir.") fresh).1 ≡ some abroad)
    × ((resolve w hijacks (ask (codes "x.com.")) 1 (codes "x.com.") fresh).0.store.domains ≡ [])
unfolding program accept
shields = (refl, refl)

resolve-learns_nothing_example : has knows.store.domains (codes "b.org") ≡ true
unfolding program
resolve-learns_nothing_example =
    resolve-learns_nothing w hijacks (ask (codes "x.com.")) 1 (codes "x.com.") knows (codes "b.org")
      (λ n t timeout req. refl, λ e n t timeout req. refl) refl

other_name : codes "b.org" ≢ normalize (codes "x.com.")
unfolding program
other_name e = ground arith

abbrev pinned : Question
pinned = record { name = codes "PIN.com."; qtype = 1 }

resolve_request-static_example :
    let (s', reply) = resolve_request w hijacks (some (ask (codes "PIN.com."))) fresh in
    (reply.authoritative ≡ true)
    × (reply.answer ≡ a 300 (sample.as_slice iranian) ∷ [])
    × (reply.id ≡ 9)
    × (s'.metrics.queries_total ≡ 1)
    × (s'.metrics.path_static ≡ 1)
    × (s'.metrics.in_flight_queries ≡ 0)
    × (s'.active ≡ 0)
    × (s'.cache ≡ fresh.cache)
    × (s'.store ≡ fresh.store)
    × (s'.iran_cb ≡ fresh.iran_cb)
    × (s'.global_cb ≡ fresh.global_cb)
    × (s'.tick ≡ fresh.tick)
unfolding program
resolve_request-static_example =
    resolve_request-static w hijacks (ask (codes "PIN.com.")) pinned [] iranian fresh (λ req. refl)
      (λ req. refl) (omega arith) (omega arith) refl refl refl refl

-- A cache that holds an answer.
abbrev warm : Live
warm = record fresh {
  cache = record fresh.cache {
    entries = (codes "x.com.:A", record { msg = abroad; expires = 5000 }) ∷ [];
  };
}

-- No upstream answers.
abbrev down : World
down = world none none

do_flight-failed_example :
    (do_flight down hijacks (ask (codes "x.com.")) 1 (codes "x.com.") warm).0.cache ≡ warm.cache
unfolding program watched_step record_failure
do_flight-failed_example =
    do_flight-failed down hijacks (ask (codes "x.com.")) 1 (codes "x.com.") warm refl
