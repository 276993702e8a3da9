-- ===== src/Resolver/Untouched.antt =====
-- What the queries to the upstreams leave alone: the cache, the number of active queries, the
-- gauge of queries in flight, the number of queries, and the flag that `Stop` sets.
use sentrydns.Base.{
  arith, refl, inl, inr, ℕ, ◌≡◌, Bool, Option, none, some, List, [], ◌∷◌, ◌==◌, Text, Bool-cases,
  ◌∙◌,
}
use sentrydns.Dns.{Msg, rcode_name_error}
use sentrydns.Breaker.{try_probe}
use sentrydns.Store
use sentrydns.Cache
use sentrydns.Classifier
use sentrydns.Resolver.{Resolver, Live, World, next_tick}
use sentrydns.Resolver.Filter.{is_iran_tld, is_prefer_iran}
use sentrydns.Resolver.Query.{
  rand_dns_id, note_iran, note_global, fall_back, retry_tcp, finish, send, query, query_iran_dns,
}
use sentrydns.Resolver.Learning.{
  Channels, Received, learn, learn_each, iran_first, global_first, neither, start_global,
  run_global, run_iran, proceed, go_on, settle, resolve_with_learning,
}
use sentrydns.Resolver.Route.{
  ask_global, accept, accept_preferred, accept_learned, via_tld, via_prefer_iran, via_store,
  resolve,
}

-- The fields that only `Resolve` itself changes.
abbrev pub View : Type 0
View = Cache.Cache × ℕ × ℕ × ℕ × Bool

abbrev pub view : Live → View
view s = (s.cache, s.active, s.metrics.in_flight_queries, s.metrics.queries_total, s.stopped)

finish-view :
    (w : World) (r : Resolver) (upstream : Text) (timeout : ℕ) (req : Msg) (reply : Option Msg)
    (s : Live)
    → view (finish w r upstream timeout req reply s).0 ≡ view s
unfolding finish fall_back retry_tcp
finish-view w r upstream timeout req none s = ground arith
finish-view w r upstream timeout req (some resp) s = ground arith

note_iran-view :
    (now elapsed : ℕ) (reply : Option Msg) (s : Live)
    → view (note_iran now elapsed reply s) ≡ view s
unfolding note_iran
note_iran-view now elapsed none s = refl
note_iran-view now elapsed (some resp) s = refl

note_global-view :
    (now elapsed : ℕ) (reply : Option Msg) (s : Live)
    → view (note_global now elapsed reply s) ≡ view s
unfolding note_global
note_global-view now elapsed none s = refl
note_global-view now elapsed (some resp) s = refl

send-view :
    (w : World) (r : Resolver) (upstream : Text) (timeout : ℕ) (req : Msg) (s : Live)
    → view (send w r upstream timeout req s).0 ≡ view s
unfolding send rand_dns_id
send-view w r upstream timeout req s = grind (arith, finish-view, note_iran-view, note_global-view)

query-view :
    (w : World) (r : Resolver) (upstream : Text) (req : Msg) (s : Live)
    → view (query w r upstream req s).0 ≡ view s
unfolding query
query-view w r upstream req s = grind (arith, send-view)

query_iran_dns-view :
    (w : World) (r : Resolver) (req : Msg) (s : Live) → view (query_iran_dns w r req s).0 ≡ view s
unfolding query_iran_dns
query_iran_dns-view w r req s =
    let probing = record (next_tick s) {
      iran_cb = ((try_probe (w.now s.tick) s.iran_cb.0).0, s.iran_cb.1);
    } in
    let x = query-view w r r.iran_dns req s in
    let y = query-view w r r.iran_dns req probing in ground arith

start_global-view : (w : World) (need : Bool) (s : Live) → view (start_global w need s).0 ≡ view s
unfolding start_global
start_global-view w need s = ground arith

run_global-view :
    (w : World) (r : Resolver) (req : Msg) (started : Bool) (s : Live)
    → view (run_global w r req started s).0 ≡ view s
unfolding run_global
run_global-view w r req started s = let x = query-view w r r.global_dns req s in ground arith

run_iran-view :
    (w : World) (r : Resolver) (req : Msg) (iran_open : Bool) (s : Live)
    → view (run_iran w r req iran_open s).0 ≡ view s
unfolding run_iran
run_iran-view w r req iran_open s = let x = query_iran_dns-view w r req s in ground arith

neither-view :
    (w : World) (r : Resolver) (req : Msg) (need_global : Bool) (s : Live)
    → view (neither w r req need_global s).0 ≡ view s
unfolding neither
neither-view w r req need_global s = let x = query-view w r r.global_dns req s in ground arith

ask_global-view :
    (w : World) (r : Resolver) (req : Msg) (s : Live) → view (ask_global w r req s).0 ≡ view s
unfolding ask_global
ask_global-view w r req s = query-view w r r.global_dns req _

accept-view :
    (w : World) (r : Resolver) (req : Msg) (resp : Option Msg) (s : Live)
    → view (accept w r req resp s).0 ≡ view s
unfolding accept
accept-view w r req none s = ask_global-view w r req s
accept-view w r req (some resp) s = let x = ask_global-view w r req s in ground arith

accept_preferred-view :
    (w : World) (r : Resolver) (req : Msg) (resp : Option Msg) (s : Live)
    → view (accept_preferred w r req resp s).0 ≡ view s
unfolding accept_preferred
accept_preferred-view w r req none s = ask_global-view w r req s
accept_preferred-view w r req (some resp) s = let x = ask_global-view w r req s in ground arith

learn_each-view :
    (w : World) (r : Resolver) (domain : Text) (ips : List Text) (s : Live)
    → view (learn_each w r domain ips s) ≡ view s
unfolding learn_each
learn_each-view w r domain [] s = refl
learn_each-view w r domain (ip ∷ ips) s =
    elim (Bool-cases (Classifier.is_iran w.net r.classifier ip)) [
      | inl e ↦ rw (e, learn_each) (learn_each-view w r domain ips (learn w domain s))
      | inr e ↦ rw (e, learn_each) (learn_each-view w r domain ips s)
    ]

iran_first-view :
    (w : World) (r : Resolver) (req : Msg) (domain : Text) (qtype : ℕ) (ch : Channels) (msg : Msg)
    (s : Live)
    → view (iran_first w r req domain qtype ch msg s).0 ≡ view s
unfolding iran_first
iran_first-view w r req domain qtype ch msg s = ground arith

global_first-view :
    (w : World) (r : Resolver) (domain : Text) (ch : Channels) (msg : Msg) (s : Live)
    → view (global_first w r domain ch msg s).0 ≡ view s
unfolding global_first
global_first-view w r domain ch msg s = grind (arith, learn_each-view)

proceed-view :
    (w : World) (r : Resolver) (req : Msg) (domain : Text) (qtype : ℕ) (need_global : Bool)
    (ch : Channels) (iran_msg global_msg : Option Msg) (s : Live)
    → view (proceed w r req domain qtype need_global ch iran_msg global_msg s).0 ≡ view s
unfolding proceed
proceed-view w r req domain qtype need_global ch (some i) g s =
    iran_first-view w r req domain qtype ch i s
proceed-view w r req domain qtype need_global ch none (some g) s =
    global_first-view w r domain ch g s
proceed-view w r req domain qtype need_global ch none none s = neither-view w r req need_global s

go_on-view :
    (w : World) (r : Resolver) (req : Msg) (domain : Text) (qtype : ℕ) (need_global : Bool)
    (o : Option (Channels × Received)) (s : Live)
    → view (go_on w r req domain qtype need_global o s).0 ≡ view s
unfolding go_on
go_on-view w r req domain qtype need_global none s = refl
go_on-view w r req domain qtype need_global (some (ch, got)) s =
    proceed-view w r req domain qtype need_global ch got.iran_msg got.global_msg s

resolve_with_learning-view :
    (w : World) (r : Resolver) (req : Msg) (qtype : ℕ) (domain : Text) (s : Live)
    → view (resolve_with_learning w r req qtype domain s).0 ≡ view s
unfolding resolve_with_learning settle
resolve_with_learning-view w r req qtype domain s =
    go_on-view w r req domain qtype _ _ _
    ∙ run_iran-view w r req _ _
    ∙ run_global-view w r req _ _
    ∙ start_global-view w _ s

accept_learned-view :
    (w : World) (r : Resolver) (req : Msg) (qtype : ℕ) (domain : Text) (resp : Option Msg)
    (s : Live)
    → view (accept_learned w r req qtype domain resp s).0 ≡ view s
unfolding accept_learned
accept_learned-view w r req qtype domain none s = ask_global-view w r req s
accept_learned-view w r req qtype domain (some resp) s =
    elim (Bool-cases (resp.rcode == rcode_name_error)) [
      | inl e ↦ rw e (
          resolve_with_learning-view w r req qtype domain
            (record s { store = Store.remove domain s.store }))
      | inr e ↦ rw e (accept-view w r req (some resp) s)
    ]

pub resolve-view :
    (w : World) (r : Resolver) (req : Msg) (qtype : ℕ) (domain : Text) (s : Live)
    → view (resolve w r req qtype domain s).0 ≡ view s
unfolding resolve via_tld via_prefer_iran via_store
resolve-view w r req qtype domain s = elim (Bool-cases (is_iran_tld r domain)) [
  | inl i ↦ rw i (accept-view w r req _ _ ∙ query_iran_dns-view w r req _)
  | inr i ↦ elim (Bool-cases (is_prefer_iran r domain)) [
    | inl j ↦ rw (i, j) (accept_preferred-view w r req _ _ ∙ query_iran_dns-view w r req _)
    | inr j ↦ elim (Bool-cases (Store.is_iran s.store domain)) [
      | inl l ↦
          rw (i, j, l)
            (accept_learned-view w r req qtype domain _ _ ∙ query-view w r r.iran_dns req _)
      | inr l ↦ rw (i, j, l) (resolve_with_learning-view w r req qtype domain _)
    ]
  ]
]
