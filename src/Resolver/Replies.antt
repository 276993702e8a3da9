-- ===== src/Resolver/Replies.antt =====
-- What `Resolve` answers: the id of the reply, and the static records.
use sentrydns.Base.{
  arith, refl, ℕ, ◌+◌, ◌≡◌, true, false, some, List, [], ◌∷◌, Text, i64_inc, ◌<◌, ◌^◌,
}
use sentrydns.Dns.{Msg, Question, DnsLib, type_a, a}
use sentrydns.Cache
use sentrydns.Netip.{Addr}
use sentrydns.Resolver.{Resolver, Live, World}
use sentrydns.Resolver.Filter.{server_fail, static_lookup, static_response}
use sentrydns.Resolver.Handle.{answer, handle, checked, enter, resolve_request}

-- `SetReply` takes the id over from the request.
abbrev pub KeepsId : DnsLib → Type 0
KeepsId lib = (req : Msg) → (lib.set_reply req).id ≡ req.id

cached-id :
    (lib : DnsLib) (now later : ℕ) (c : Cache.Cache) (req msg : Msg)
    → (Cache.get lib now later c req).1 ≡ some msg
    → msg.id ≡ req.id
unfolding Cache.get
cached-id lib now later c req msg e = ground arith

answer-id :
    (w : World) (r : Resolver) (req : Msg) (qtype : ℕ) (domain : Text) (s : Live)
    → (answer w r req qtype domain s).1.id ≡ req.id
unfolding answer Cache.get
answer-id w r req qtype domain s = ground arith

abbrev pub counted : Live → Live
counted s = record s {
  metrics = record s.metrics { queries_total = i64_inc s.metrics.queries_total };
}

handle-id :
    (w : World) (r : Resolver) (req : Msg) (q : Question) (s : Live)
    → KeepsId w.lib
    → (handle w r req q s).1.id ≡ req.id
unfolding handle static_response
handle-id w r req q s h =
    let x = answer-id w r req q.qtype q.name (counted s) in let y = h req in ground arith

checked-id :
    (w : World) (r : Resolver) (req : Msg) (qs : List Question) (s : Live)
    → KeepsId w.lib
    → (checked w r (some req) qs s).1.id ≡ req.id
unfolding checked server_fail
checked-id w r req [] s h = h req
checked-id w r req (q ∷ qs) s h = handle-id w r req q s h

-- Every reply has the id of its request: that of a failure, of a static record, of the cache, of an
-- upstream, and the one shared with another query in flight.
pub resolve_request-id :
    (w : World) (r : Resolver) (req : Msg) (s : Live)
    → KeepsId w.lib
    → (resolve_request w r (some req) s).1.id ≡ req.id
unfolding resolve_request server_fail
resolve_request-id w r req s h =
    let x = checked-id w r req req.question (enter s) h in let y = h req in ground arith

-- While the resolver runs, a query for the address (A) of a name with a static record is answered
-- authoritatively with exactly one record, that address with a TTL of 300, under the id of the request.
-- Neither the cache nor an upstream is asked: the breakers, the cache and the store are as before, and
-- nothing was read from outside. In the metrics the query counts as one that a static record answered,
-- and no longer as one in flight. A reply must start with the id of its request and without records,
-- and the two counts of queries in progress must be 64-bit numbers.
pub resolve_request-static :
    (w : World) (r : Resolver) (req : Msg) (q : Question) (qs : List Question) (ip : Addr)
    (s : Live)
    → KeepsId w.lib
    → ((msg : Msg) → (w.lib.set_reply msg).answer ≡ [])
    → s.active < 2 ^ 64
    → s.metrics.in_flight_queries < 2 ^ 64
    → s.stopped ≡ false
    → req.question ≡ q ∷ qs
    → q.qtype ≡ type_a
    → static_lookup r q.name ≡ some ip
    → let (s', reply) = resolve_request w r (some req) s in
      (reply.authoritative ≡ true)
      × (reply.answer ≡ a 300 (w.net.as_slice ip) ∷ [])
      × (reply.id ≡ req.id)
      × (s'.metrics.queries_total ≡ i64_inc s.metrics.queries_total)
      × (s'.metrics.path_static ≡ i64_inc s.metrics.path_static)
      × (s'.metrics.in_flight_queries ≡ s.metrics.in_flight_queries)
      × (s'.active ≡ s.active)
      × (s'.cache ≡ s.cache)
      × (s'.store ≡ s.store)
      × (s'.iran_cb ≡ s.iran_cb)
      × (s'.global_cb ≡ s.global_cb)
      × (s'.tick ≡ s.tick)
unfolding resolve_request checked handle static_response
resolve_request-static w r req q qs ip s keeps no_answer small small' st e t l =
    let kept = keeps req in
    let empty = no_answer req in
    (
      ground arith,
      ground arith,
      ground arith,
      ground arith,
      ground arith,
      ground arith,
      ground arith,
      ground arith,
      ground arith,
      ground arith,
      ground arith,
      ground arith,
    )

-- A lookup that finds an answer in the cache settles the query: that answer is the reply, and no
-- upstream is asked.
answer-cached :
    (w : World) (r : Resolver) (req : Msg) (qtype : ℕ) (domain : Text) (s : Live) (msg : Msg)
    → (Cache.get w.lib (w.now s.tick) (w.now (s.tick + 1)) s.cache req).1 ≡ some msg
    → let (s', reply) = answer w r req qtype domain s in
      (reply ≡ msg) × (s'.store ≡ s.store) × (s'.iran_cb ≡ s.iran_cb) × (s'.global_cb ≡ s.global_cb)
unfolding answer
answer-cached w r req qtype domain s msg e = rw (e, answer) (refl, refl, refl, refl)
