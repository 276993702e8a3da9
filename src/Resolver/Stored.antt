-- ===== src/Resolver/Stored.antt =====
-- What does not touch the store: the queries, and the branches of a route that give up or accept a
-- reply.
use sentrydns.Base.{arith, refl, ℕ, ◌≡◌, Bool, true, ◌&&◌, Option, none, some, Text}
use sentrydns.Dns.{Msg}
use sentrydns.Breaker.{try_probe}
use sentrydns.Resolver.{
  Resolver, Live, World, Event, from_iran, from_global, timed_out, cancelled, next_tick,
}
use sentrydns.Resolver.Query.{
  rand_dns_id, note_iran, note_global, fall_back, retry_tcp, finish, send, query, query_iran_dns,
}
use sentrydns.Resolver.Learning.{
  Channels, Received, receive, neither, start_global, run_global, run_iran,
}
use sentrydns.Resolver.Route.{ask_global, accept, accept_preferred}
use sentrydns.Resolver.Answered.{holds}
use sentrydns.Resolver.Clean.{waits}

finish-store :
    (w : World) (r : Resolver) (upstream : Text) (timeout : ℕ) (req : Msg) (reply : Option Msg)
    (s : Live)
    → (finish w r upstream timeout req reply s).0.store ≡ s.store
unfolding finish fall_back retry_tcp
finish-store w r upstream timeout req none s = ground arith
finish-store w r upstream timeout req (some resp) s = ground arith

note_iran-store :
    (now elapsed : ℕ) (reply : Option Msg) (s : Live)
    → (note_iran now elapsed reply s).store ≡ s.store
unfolding note_iran
note_iran-store now elapsed none s = refl
note_iran-store now elapsed (some resp) s = refl

note_global-store :
    (now elapsed : ℕ) (reply : Option Msg) (s : Live)
    → (note_global now elapsed reply s).store ≡ s.store
unfolding note_global
note_global-store now elapsed none s = refl
note_global-store now elapsed (some resp) s = refl

send-store :
    (w : World) (r : Resolver) (upstream : Text) (timeout : ℕ) (req : Msg) (s : Live)
    → (send w r upstream timeout req s).0.store ≡ s.store
unfolding send rand_dns_id
send-store w r upstream timeout req s =
    grind (arith, finish-store, note_iran-store, note_global-store)

pub query-store :
    (w : World) (r : Resolver) (upstream : Text) (req : Msg) (s : Live)
    → (query w r upstream req s).0.store ≡ s.store
unfolding query
query-store w r upstream req s = grind (arith, send-store)

pub query_iran_dns-store :
    (w : World) (r : Resolver) (req : Msg) (s : Live) → (query_iran_dns w r req s).0.store ≡ s.store
unfolding query_iran_dns
query_iran_dns-store w r req s =
    let probing = record (next_tick s) {
      iran_cb = ((try_probe (w.now s.tick) s.iran_cb.0).0, s.iran_cb.1);
    } in
    let x = query-store w r r.iran_dns req s in
    let y = query-store w r r.iran_dns req probing in ground arith

-- As in `kept`, for the channel of the Iranian upstream.
abbrev pub kept_iran : (Msg → Bool) → Option (Channels × Received) → Bool
kept_iran p none = true
kept_iran p (some (ch, got)) = waits p ch.iran_ch && holds p got.iran_msg

pub receive-kept_iran :
    (p : Msg → Bool) (e1 e2 : Event) (ch : Channels)
    → waits p ch.iran_ch ≡ true
    → kept_iran p (receive e1 e2 ch) ≡ true
unfolding receive
receive-kept_iran p from_iran e2 ch h = ground arith
receive-kept_iran p from_global e2 ch h = ground arith
receive-kept_iran p timed_out e2 ch h = refl
receive-kept_iran p cancelled e2 ch h = refl

pub start_global-store :
    (w : World) (need : Bool) (s : Live) → (start_global w need s).0.store ≡ s.store
unfolding start_global
start_global-store w need s = ground arith

pub run_global-store :
    (w : World) (r : Resolver) (req : Msg) (started : Bool) (s : Live)
    → (run_global w r req started s).0.store ≡ s.store
unfolding run_global
run_global-store w r req started s = let x = query-store w r r.global_dns req s in ground arith

pub run_iran-store :
    (w : World) (r : Resolver) (req : Msg) (iran_open : Bool) (s : Live)
    → (run_iran w r req iran_open s).0.store ≡ s.store
unfolding run_iran
run_iran-store w r req iran_open s = let x = query_iran_dns-store w r req s in ground arith

pub neither-store :
    (w : World) (r : Resolver) (req : Msg) (need_global : Bool) (s : Live)
    → (neither w r req need_global s).0.store ≡ s.store
unfolding neither
neither-store w r req need_global s = let x = query-store w r r.global_dns req s in ground arith

pub ask_global-store :
    (w : World) (r : Resolver) (req : Msg) (s : Live) → (ask_global w r req s).0.store ≡ s.store
unfolding ask_global
ask_global-store w r req s = query-store w r r.global_dns req _

pub accept-store :
    (w : World) (r : Resolver) (req : Msg) (resp : Option Msg) (s : Live)
    → (accept w r req resp s).0.store ≡ s.store
unfolding accept
accept-store w r req none s = ask_global-store w r req s
accept-store w r req (some resp) s = let x = ask_global-store w r req s in ground arith

pub accept_preferred-store :
    (w : World) (r : Resolver) (req : Msg) (resp : Option Msg) (s : Live)
    → (accept_preferred w r req resp s).0.store ≡ s.store
unfolding accept_preferred
accept_preferred-store w r req none s = ask_global-store w r req s
accept_preferred-store w r req (some resp) s = let x = ask_global-store w r req s in ground arith
