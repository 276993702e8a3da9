-- ===== src/Resolver/Learning.antt =====
-- `resolveWithLearning` of internal/resolver/resolver.go: ask both upstreams at once, learn from the
-- Iranian one. A goroutine is run where it is started, the one for the global upstream first, and its
-- channel then holds its reply; the order in which the replies arrive is left to the events that the
-- `select` statements take. An event of a channel that holds nothing cannot happen: the other end of
-- the `select` is taken, a timer or the end of the context.
use sentrydns.Base.{
  ℕ, Bool, true, false, not, ◌&&◌, ◌||◌, Option, none, some, List, [], ◌∷◌, if◌then◌else◌, any,
  Text, i64_inc,
}
use sentrydns.Breaker.{is_open, try_probe}
use sentrydns.Dns.{Msg, is_address_type}
use sentrydns.Cache.{is_empty}
use sentrydns.Store
use sentrydns.Classifier
use sentrydns.Resolver.{
  Resolver, Live, World, Event, from_iran, from_global, timed_out, cancelled, next_tick,
}
use sentrydns.Resolver.Filter.{is_hijacked, extract_ips, server_fail}
use sentrydns.Resolver.Query.{query, query_iran_dns}

-- What a channel will deliver: `none` if no goroutine sends on it or its message was taken.
pub record Channels : Type 0 where
  pub iran_ch : Option (Option Msg)
  pub global_ch : Option (Option Msg)

-- What the first two `select` statements leave in the variables `iranMsg` and `globalMsg`.
pub record Received : Type 0 where
  pub iran_msg : Option Msg
  pub global_msg : Option Msg

abbrev pub nothing : Received
nothing = record { iran_msg = none; global_msg = none }

abbrev pub take_iran : Channels → Option (Channels × Received)
take_iran ch = elim ch.iran_ch [
  | none ↦ none
  | some msg ↦ some (record ch { iran_ch = none }, record nothing { iran_msg = msg })
]

abbrev pub take_global : Channels → Option (Channels × Received)
take_global ch = elim ch.global_ch [
  | none ↦ none
  | some msg ↦ some (record ch { global_ch = none }, record nothing { global_msg = msg })
]

-- The first `select`; `none` is the end of the context.
abbrev pub select_first : Event → Channels → Option (Channels × Received)
select_first from_iran ch = take_iran ch
select_first from_global ch = take_global ch
select_first timed_out ch = none
select_first cancelled ch = none

abbrev pub or_timer : Channels → Option (Channels × Received) → Option (Channels × Received)
or_timer ch none = some (ch, nothing)
or_timer ch (some got) = some got

-- The second one, which also has a timer.
abbrev pub select_second : Event → Channels → Option (Channels × Received)
select_second from_iran ch = or_timer ch (take_iran ch)
select_second from_global ch = or_timer ch (take_global ch)
select_second timed_out ch = some (ch, nothing)
select_second cancelled ch = none

abbrev pub is_nothing : Received → Bool
is_nothing got = elim got.iran_msg [
  | some msg ↦ false
  | none ↦ elim got.global_msg [ some msg ↦ false | none ↦ true ]
]

-- Both, where the second is only reached if the first upstream returned nothing.
unfoldable pub receive : Event → Event → Channels → Option (Channels × Received)
receive e1 e2 ch = elim (select_first e1 ch) [
  | none ↦ none
  | some (ch', got) ↦ if is_nothing got then select_second e2 ch' else some (ch', got)
]

-- The last `select`s wait for one channel or a timer: `some` is a message that arrived in time.
abbrev pub wait_global : Event → Channels → Option (Option Msg)
wait_global from_global ch = ch.global_ch
wait_global from_iran ch = none
wait_global timed_out ch = none
wait_global cancelled ch = none

abbrev pub wait_iran : Event → Channels → Option (Option Msg)
wait_iran from_iran ch = ch.iran_ch
wait_iran from_global ch = none
wait_iran timed_out ch = none
wait_iran cancelled ch = none

abbrev pub add_queries_iran : Live → Live
add_queries_iran s = record s {
  metrics = record s.metrics { queries_iran = i64_inc s.metrics.queries_iran };
}

abbrev pub add_queries_global : Live → Live
add_queries_global s = record s {
  metrics = record s.metrics { queries_global = i64_inc s.metrics.queries_global };
}

abbrev pub add_short_wait : Live → Live
add_short_wait s = record s {
  metrics = record s.metrics { short_wait_expired = i64_inc s.metrics.short_wait_expired };
}

abbrev pub learn : World → Text → Live → Live
learn w domain s = record s { store = Store.add (w.today s.tick) domain s.store }

-- A reply with addresses, none of them hijacked.
unfoldable pub is_clean_reply : World → Resolver → Msg → Bool
is_clean_reply w r msg =
    let ips = extract_ips w.net msg in not (is_empty ips) && not (is_hijacked w.net r ips)

-- A reply from which the domain is learned.
unfoldable pub is_iranian_reply : World → Resolver → Msg → Bool
unfolding is_clean_reply
is_iranian_reply w r msg =
    is_clean_reply w r msg && any (Classifier.is_iran w.net r.classifier) (extract_ips w.net msg)

-- The loop that learns from each Iranian address, without leaving at the first.
unfoldable pub learn_each : World → Resolver → Text → List Text → Live → Live
learn_each w r domain [] s = s
learn_each w r domain (ip ∷ ips) s =
    learn_each w r domain ips
      (if Classifier.is_iran w.net r.classifier ip then learn w domain s else s)

-- The Iranian upstream answered first.
unfoldable pub iran_first : World → Resolver → Msg → Text → ℕ → Channels → Msg → Live → Live × Msg
iran_first w r req domain qtype ch iran_msg s =
    let late = wait_global (w.event s.tick) ch in
    if not (is_address_type qtype)
    then (add_queries_iran s, iran_msg)
    else if is_iranian_reply w r iran_msg
    then (add_queries_iran (learn w domain s), iran_msg)
    else elim late [
      | none ↦ (add_short_wait (next_tick s), server_fail w.lib (some req))
      | some none ↦ (next_tick s, server_fail w.lib (some req))
      | some (some global_msg) ↦ (add_queries_global (next_tick s), global_msg)
    ]

-- The global upstream answered first: its reply is returned, whatever the Iranian one says later.
unfoldable pub global_first : World → Resolver → Text → Channels → Msg → Live → Live × Msg
unfolding learn_each
global_first w r domain ch global_msg s = elim (wait_iran (w.event s.tick) ch) [
  | none ↦ (add_queries_global (next_tick s), global_msg)
  | some none ↦ (add_queries_global (next_tick s), global_msg)
  | some (some iran_msg) ↦
      let ips = extract_ips w.net iran_msg in
      let s' = if is_clean_reply w r iran_msg then learn_each w r domain ips s else s in
      (add_queries_global (next_tick s'), global_msg)
]

-- Neither answered. The global upstream is asked now if it was not before; the timeout of the new
-- context is `remaining` at that tick.
unfoldable pub neither : World → Resolver → Msg → Bool → Live → Live × Msg
neither w r req need_global s =
    let (s', reply) = query w r r.global_dns req s in
    if need_global then (s, server_fail w.lib (some req)) else elim reply [
      | none ↦ (s', server_fail w.lib (some req))
      | some msg ↦ (add_queries_global s', msg)
    ]

-- Whether the global upstream is asked, with the probe of its breaker.
unfoldable pub start_global : World → Bool → Live → Live × Bool
start_global w need_global s =
    let (cb, gauge) = s.global_cb in
    let (probing, lets) = try_probe (w.now s.tick) cb in
    let skipped = record (next_tick s) {
      metrics = record s.metrics { global_cb_skipped = i64_inc s.metrics.global_cb_skipped };
    } in
    if need_global && is_open cb
    then (if lets
        then (record (next_tick s) { global_cb = (probing, gauge) }, true)
        else (skipped, false))
    else (s, need_global)

unfoldable pub run_global : World → Resolver → Msg → Bool → Live → Live × Option (Option Msg)
run_global w r req started s =
    let (s', reply) = query w r r.global_dns req s in
    if started then (s', some reply) else (s, none)

unfoldable pub run_iran : World → Resolver → Msg → Bool → Live → Live × Option (Option Msg)
run_iran w r req iran_open s =
    let (s', reply) = query_iran_dns w r req s in if iran_open then (s, none) else (s', some reply)

-- What follows from the variables `iranMsg` and `globalMsg`.
unfoldable pub proceed :
    World
    → Resolver
    → Msg
    → Text
    → ℕ
    → Bool
    → Channels
    → Option Msg
    → Option Msg
    → Live
    → Live × Msg
unfolding iran_first global_first neither
proceed w r req domain qtype need_global ch (some iran_msg) global_msg s =
    iran_first w r req domain qtype ch iran_msg s
proceed w r req domain qtype need_global ch none (some global_msg) s =
    global_first w r domain ch global_msg s
proceed w r req domain qtype need_global ch none none s = neither w r req need_global s

-- `none` is the end of the context.
unfoldable pub go_on :
    World → Resolver → Msg → Text → ℕ → Bool → Option (Channels × Received) → Live → Live × Msg
unfolding proceed
go_on w r req domain qtype need_global none s = (s, server_fail w.lib (some req))
go_on w r req domain qtype need_global (some (ch, got)) s =
    proceed w r req domain qtype need_global ch got.iran_msg got.global_msg s

-- The body once the goroutines are started.
unfoldable pub settle : World → Resolver → Msg → Text → ℕ → Bool → Channels → Live → Live × Msg
unfolding receive go_on
settle w r req domain qtype need_global ch s =
    go_on w r req domain qtype need_global
      (receive (w.event s.tick) (w.event (next_tick s).tick) ch) (next_tick (next_tick s))

unfoldable pub resolve_with_learning : World → Resolver → Msg → ℕ → Text → Live → Live × Msg
unfolding start_global run_global run_iran settle
resolve_with_learning w r req qtype domain s =
    let iran_open = is_open s.iran_cb.0 in
    let need_global = is_address_type qtype || iran_open in
    let (s1, global_started) = start_global w need_global s in
    let (s2, global_ch) = run_global w r req global_started s1 in
    let (s3, iran_ch) = run_iran w r req iran_open s2 in
    settle w r req domain qtype need_global (record { iran_ch = iran_ch; global_ch = global_ch }) s3
