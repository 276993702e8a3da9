-- ===== src/Server/Hijack.antt =====
-- Hijacked addresses, from the start of the server to any later reply.
use sentrydns.Base.{
  refl, ℕ, ◌≡◌, Bool, true, false, ◌&&◌, ◌==◌, List, [], ◌∷◌, All, if◌then◌else◌, pos_part, none,
  sym, subst,
}
use sentrydns.Breaker.{Gauge}
use sentrydns.Cache
use sentrydns.Dns.{Msg, Question, is_address_type, rcode_refused}
use sentrydns.Store.{Store}
use sentrydns.Config.{Config}
use sentrydns.RateLimit.{allow, allow_global}
use sentrydns.Resolver.{Resolver, World, Metrics}
use sentrydns.Resolver.Filter.{static_lookup, extract, extract_ips, is_hijacked}
use sentrydns.Resolver.Clean.{is_clean, NoAnswer, HonestGlobal, server_fail-clean}
use sentrydns.Resolver.Hijack.{
  NamesTypes, SharesFlights, IsCleanCache, IsCleanEntry, resolve_request-KeptFor,
}
use sentrydns.Server.{
  Net, Server, Arrival, client_ip, is_looped, start, answer, limit_client, limit_all, guard_loop,
  guard_question, handle,
}
use sentrydns.Server.Guards.{run}
use sentrydns.Server.Serve.{start-live}

-- `SetRcode` starts a reply without records.
abbrev pub RefusesEmpty : Net → Type 0
RefusesEmpty net = (req : Msg) (rcode : ℕ) → (net.set_rcode req rcode).answer ≡ []

empty-clean : (w : World) (r : Resolver) (m : Msg) → m.answer ≡ [] → is_clean w r m ≡ true
unfolding extract_ips extract is_hijacked
empty-clean w r m h = rw h

module _ (w : World) (net : Net) (cfg : Config) (r : Resolver) (no_answer : NoAnswer w.lib)
    (honest : HonestGlobal w r) (types : NamesTypes w.lib) (shared : SharesFlights w r)
    (refuses : RefusesEmpty net) where
  abbrev Replied : Question → Server × Msg → Type 0
  Replied q out =
      IsCleanCache w r out.0.live
      × (static_lookup r q.name ≡ none → is_address_type q.qtype ≡ true → is_clean w r out.1 ≡ true)

  if-Replied :
      (q : Question) (b : Bool) (x y : Server × Msg)
      → Replied q x
      → Replied q y
      → Replied q (if b then x else y)
  if-Replied q true x y p h = p
  if-Replied q false x y p h = h

  module _ (a : Arrival) (q : Question) (qs : List Question) (e : a.req.question ≡ q ∷ qs) where
    answer-Replied : (s : Server) → IsCleanCache w r s.live → Replied q (answer w r a s)
    unfolding answer
    answer-Replied s k =
        resolve_request-KeptFor w r no_answer honest types shared a.req q qs s.live e k

    limit_client-Replied :
        (s : Server) → IsCleanCache w r s.live → Replied q (limit_client w net cfg r a s)
    unfolding limit_client
    limit_client-Replied s k =
        let (limiter, ok) = allow a.now (client_ip net a) s.limiter in
        if-Replied q (pos_part cfg.rate_limit_per_client == 0) _ _ (answer-Replied s k) (
          if-Replied q ok _ _ (answer-Replied (record s { limiter = limiter }) k)
            (k, λ n t. server_fail-clean w r a.req no_answer))

    limit_all-Replied :
        (s : Server) → IsCleanCache w r s.live → Replied q (limit_all w net cfg r a s)
    unfolding limit_all
    limit_all-Replied s k =
        let (global, ok) = allow_global a.now s.global in
        if-Replied q (pos_part cfg.global_qps_limit == 0) _ _ (limit_client-Replied s k) (
          if-Replied q ok _ _ (limit_client-Replied (record s { global = global }) k)
            (k, λ n t. server_fail-clean w r a.req no_answer))

    guard_loop-Replied :
        (s : Server) → IsCleanCache w r s.live → Replied q (guard_loop w net cfg r a s)
    unfolding guard_loop
    guard_loop-Replied s k =
        if-Replied q (cfg.loop_detection && is_looped net cfg a) _ _
          (k, λ n t. empty-clean w r _ (refuses a.req rcode_refused)) (limit_all-Replied s k)

    pub handle-Replied : (s : Server) → IsCleanCache w r s.live → Replied q (handle w net cfg r a s)
    unfolding handle guard_question
    handle-Replied s k =
        subst (λ l. Replied q (guard_question w net cfg r a l s)) (sym e) (guard_loop-Replied s k)

  pub asked-clean :
      (a : Arrival) (qs : List Question) (s : Server)
      → a.req.question ≡ qs
      → IsCleanCache w r s.live
      → IsCleanCache w r (handle w net cfg r a s).0.live
  unfolding handle guard_question
  asked-clean a [] s e k =
      subst (λ l. IsCleanCache w r (guard_question w net cfg r a l s).0.live) (sym e) k
  asked-clean a (q ∷ qs) s e k = (handle-Replied a q qs e s k).0

  run-clean :
      (as' : List Arrival) (s : Server)
      → IsCleanCache w r s.live
      → IsCleanCache w r (run w net cfg r as' s).live
  unfolding run
  run-clean [] s k = k
  run-clean (a ∷ rest) s k = run-clean rest _ (asked-clean a a.req.question s refl k)

pub start-clean :
    (w : World) (net : Net) (cfg : Config) (r : Resolver) (store : Store) (metrics : Metrics)
    (iran_gauge global_gauge : Gauge) (now : ℕ)
    → IsCleanCache w r (start net cfg store metrics iran_gauge global_gauge now).live
unfolding Cache.new
start-clean w net cfg r store metrics iran_gauge global_gauge now =
    subst (λ c. All (IsCleanEntry w r) c.entries)
      (sym (start-live net cfg store metrics iran_gauge global_gauge now).0) tt

-- From the start of the server on, whatever queries came before, from whatever clients: a query for an
-- address (A or AAAA) of a name without a static record is never answered with a hijacked address, be it
-- from an upstream, from a shared call or from the cache, and whatever the Iranian upstream returned at
-- any time. The global upstream and its fallback must return no hijacked address; what is shared under a
-- key must be what a flight for that key returned; a reply must start without records, and the names of the query types must have
-- no colon and tell the types of addresses from the other ones.
pub handle-clean :
    (w : World) (net : Net) (cfg : Config) (r : Resolver) (as' : List Arrival) (a : Arrival)
    (q : Question) (qs : List Question) (store : Store) (metrics : Metrics)
    (iran_gauge global_gauge : Gauge) (now : ℕ)
    → NoAnswer w.lib
    → HonestGlobal w r
    → NamesTypes w.lib
    → SharesFlights w r
    → RefusesEmpty net
    → a.req.question ≡ q ∷ qs
    → static_lookup r q.name ≡ none
    → is_address_type q.qtype ≡ true
    → is_clean w r
        (handle w net cfg r a
          (run w net cfg r as' (start net cfg store metrics iran_gauge global_gauge now))).1
      ≡ true
handle-clean w net cfg r as' a q qs store metrics iran_gauge global_gauge now n h t s f e
      none_static address =
    let k = start-clean w net cfg r store metrics iran_gauge global_gauge now in
    let k' =
      run-clean w net cfg r n h t s f as' (start net cfg store metrics iran_gauge global_gauge now)
        k in
    (handle-Replied w net cfg r n h t s f a q qs e _ k').1 none_static address
