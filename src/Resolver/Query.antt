-- ===== src/Resolver/Query.antt =====
-- One query to one upstream: `query`, `queryIranDNS` and `randDNSID` of
-- internal/resolver/resolver.go. `query` overwrites the id of the request and adds its EDNS0 record
-- once, so what it leaves in the request does not matter to a later query.
use sentrydns.Base.{
  ℕ, ◌%◌, ◌^◌, Bool, true, false, not, ◌&&◌, Option, none, some, [], ◌∷◌, ◌==◌, ltb, if◌then◌else◌,
  Text, text_eq, i32_add, i64_inc, i64_add,
}
use sentrydns.Breaker.{is_open, try_probe, failure, success, watched_step}
use sentrydns.Dns.{Msg}
use sentrydns.Resolver.{Resolver, Live, World, udp, tcp, next_tick}
use sentrydns.Resolver.Filter.{has_port}

unfoldable pub rand_dns_id : Live → Live × ℕ
rand_dns_id s =
    let n = i32_add s.dns_id 1 in
    let id = n % 2 ^ 16 in (record s { dns_id = n }, if id == 0 then 1 else id)

abbrev pub no_text : Text → Bool
no_text [] = true
no_text (c ∷ s) = false

abbrev pub is_iran_upstream : Resolver → Text → Bool
is_iran_upstream r upstream = text_eq upstream r.iran_dns

unfoldable pub address : World → Resolver → Text → Text
address w r upstream =
    if is_iran_upstream r upstream
    then r.iran_addr
    else if text_eq upstream r.global_dns
    then r.global_addr
    else has_port w upstream

-- The timeout of the upstream, and what is left of the context's deadline if that is less.
unfoldable pub limit : World → Resolver → Text → ℕ → ℕ
limit w r upstream n =
    let own =
      if not (is_iran_upstream r upstream) && ltb 0 r.global_timeout
      then r.global_timeout
      else r.timeout in
    elim (w.remaining n) [
      | none ↦ own
      | some remaining ↦ if ltb remaining own then remaining else own
    ]

-- The counters and the breaker of the upstream, after a reply or an error.
unfoldable pub note_iran : ℕ → ℕ → Option Msg → Live → Live
note_iran now elapsed none s = record s {
  iran_cb = watched_step s.iran_cb (failure now);
  metrics = record s.metrics {
    iran_query_count = i64_inc s.metrics.iran_query_count;
    iran_timeouts = i64_inc s.metrics.iran_timeouts;
  };
}
note_iran now elapsed (some resp) s = record s {
  iran_cb = watched_step s.iran_cb success;
  metrics = record s.metrics {
    iran_query_count = i64_inc s.metrics.iran_query_count;
    iran_latency_total = i64_add s.metrics.iran_latency_total elapsed;
  };
}

unfoldable pub note_global : ℕ → ℕ → Option Msg → Live → Live
note_global now elapsed none s = record s {
  global_cb = watched_step s.global_cb (failure now);
  metrics = record s.metrics {
    global_query_count = i64_inc s.metrics.global_query_count;
    global_timeouts = i64_inc s.metrics.global_timeouts;
  };
}
note_global now elapsed (some resp) s = record s {
  global_cb = watched_step s.global_cb success;
  metrics = record s.metrics {
    global_query_count = i64_inc s.metrics.global_query_count;
    global_latency_total = i64_add s.metrics.global_latency_total elapsed;
  };
}

-- After an error of the global upstream: its fallback, whose errors are not counted.
unfoldable pub fall_back : World → Resolver → ℕ → Msg → Live → Live × Option Msg
fall_back w r timeout req s =
    let (elapsed, reply) = w.exchange s.tick udp (has_port w r.global_dns_fallback) timeout req in
    elim reply [
      | none ↦ (next_tick s, none)
      | some resp ↦ (
        record (next_tick s) {
          metrics = record s.metrics {
            global_fallback_count = i64_inc s.metrics.global_fallback_count;
            global_fallback_latency_total = i64_add s.metrics.global_fallback_latency_total elapsed;
          };
        },
        some resp,
      )
    ]

-- After a truncated reply: once more over TCP, where an error leaves the truncated reply.
unfoldable pub retry_tcp : World → Text → ℕ → Msg → Msg → Live → Live × Option Msg
retry_tcp w addr timeout req resp s =
    let s' = record (next_tick s) {
      metrics = record s.metrics { tcp_fallback_count = i64_inc s.metrics.tcp_fallback_count };
    } in
    let (elapsed, reply) = w.exchange s.tick tcp addr timeout req in
    elim reply [ none ↦ (s', some resp) | some tcp_resp ↦ (s', some tcp_resp) ]

-- `query` after the reply or the error.
unfoldable pub finish : World → Resolver → Text → ℕ → Msg → Option Msg → Live → Live × Option Msg
unfolding fall_back retry_tcp
finish w r upstream timeout req none s =
    if not (is_iran_upstream r upstream) && not (no_text r.global_dns_fallback)
    then fall_back w r timeout req s
    else (s, none)
finish w r upstream timeout req (some resp) s =
    if resp.truncated then retry_tcp w (address w r upstream) timeout req resp s else (s, some resp)

-- `query` once its timeout is known to be positive.
unfoldable pub send : World → Resolver → Text → ℕ → Msg → Live → Live × Option Msg
unfolding rand_dns_id note_iran note_global finish
send w r upstream timeout req s =
    let (s', id) = rand_dns_id s in
    let sent = record (w.with_edns0 req) { id = id } in
    let (elapsed, reply) = w.exchange s'.tick udp (address w r upstream) timeout sent in
    let now = w.now s'.tick in
    let noted =
      if is_iran_upstream r upstream
      then note_iran now elapsed reply (next_tick s')
      else note_global now elapsed reply (next_tick s') in
    finish w r upstream timeout sent reply noted

unfoldable pub query : World → Resolver → Text → Msg → Live → Live × Option Msg
unfolding limit send
query w r upstream req s =
    let timeout = limit w r upstream s.tick in
    if w.done s.tick
    then (next_tick s, none)
    else if timeout == 0
    then (next_tick s, none)
    else send w r upstream timeout req (next_tick s)

-- The error path of `queryIranDNS`: a breaker that is open and lets no probe through.
unfoldable pub query_iran_dns : World → Resolver → Msg → Live → Live × Option Msg
unfolding query
query_iran_dns w r req s =
    let (cb, gauge) = s.iran_cb in
    let (probing, lets) = try_probe (w.now s.tick) cb in
    let skipped = record (next_tick s) {
      metrics = record s.metrics { iran_cb_skipped = i64_inc s.metrics.iran_cb_skipped };
    } in
    if is_open cb
    then (if lets
        then query w r r.iran_dns req (record (next_tick s) { iran_cb = (probing, gauge) })
        else (skipped, none))
    else query w r r.iran_dns req s
