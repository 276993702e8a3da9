-- ===== src/Resolver/Clean.antt =====
-- What a client can be told about an address: no hijacked one, if the global upstream and its fallback
-- return none.
use sentrydns.Base.{
  arith, refl, inl, inr, ℕ, ◌≡◌, Bool, true, false, not, ◌&&◌, Option, none, some, List, [], ◌∷◌,
  Text, Bool-cases,
}
use sentrydns.Dns.{Msg, DnsLib, is_address_type}
use sentrydns.Store
use sentrydns.Cache.{is_empty}
use sentrydns.Resolver.{Resolver, Live, World, Event, from_iran, from_global, timed_out, cancelled}
use sentrydns.Resolver.Filter.{
  is_iran_tld, is_prefer_iran, is_hijacked, extract, extract_ips, server_fail,
}
use sentrydns.Resolver.Learning.{
  Channels, Received, receive, is_clean_reply, is_iranian_reply, iran_first, global_first, neither,
  run_global, proceed, go_on, settle, resolve_with_learning, add_queries_global,
}
use sentrydns.Resolver.Route.{
  is_hijacked_reply, ask_global, accept, accept_preferred, accept_learned, via_tld, via_prefer_iran,
  via_store, resolve,
}
use sentrydns.Resolver.Answered.{holds, Trusted, query-holds}

-- The message waiting in a channel passes a test.
abbrev pub waits : (Msg → Bool) → Option (Option Msg) → Bool
waits p none = true
waits p (some reply) = holds p reply

-- What is left of the channel of the global upstream and what was taken from it pass a test.
abbrev pub kept : (Msg → Bool) → Option (Channels × Received) → Bool
kept p none = true
kept p (some (ch, got)) = waits p ch.global_ch && holds p got.global_msg

receive-kept :
    (p : Msg → Bool) (e1 e2 : Event) (ch : Channels)
    → waits p ch.global_ch ≡ true
    → kept p (receive e1 e2 ch) ≡ true
unfolding receive
receive-kept p from_iran e2 ch h = ground arith
receive-kept p from_global e2 ch h = ground arith
receive-kept p timed_out e2 ch h = refl
receive-kept p cancelled e2 ch h = refl

-- A reply without a hijacked address.
abbrev pub is_clean : World → Resolver → Msg → Bool
is_clean w r msg = not (is_hijacked w.net r (extract_ips w.net msg))

-- `SetReply` starts a reply without records.
abbrev pub NoAnswer : DnsLib → Type 0
NoAnswer lib = (req : Msg) → (lib.set_reply req).answer ≡ []

pub server_fail-clean :
    (w : World) (r : Resolver) (req : Msg)
    → NoAnswer w.lib
    → is_clean w r (server_fail w.lib (some req)) ≡ true
unfolding server_fail extract_ips extract is_hijacked
server_fail-clean w r req h = rw (h req)

kept_reply-clean :
    (w : World) (r : Resolver) (msg : Msg) → is_clean_reply w r msg ≡ true → is_clean w r msg ≡ true
unfolding is_clean_reply
kept_reply-clean w r msg e = ground arith

iranian_reply-clean :
    (w : World) (r : Resolver) (msg : Msg)
    → is_iranian_reply w r msg ≡ true
    → is_clean w r msg ≡ true
unfolding is_iranian_reply
iranian_reply-clean w r msg e = let x = kept_reply-clean w r msg in ground arith

none_hijacked :
    (w : World) (r : Resolver) (ips : List Text)
    → (not (is_empty ips) && is_hijacked w.net r ips) ≡ false
    → not (is_hijacked w.net r ips) ≡ true
unfolding is_hijacked
none_hijacked w r [] e = refl
none_hijacked w r (ip ∷ ips) e = ground arith

accepted_reply-clean :
    (w : World) (r : Resolver) (msg : Msg)
    → is_hijacked_reply w r msg ≡ false
    → is_clean w r msg ≡ true
unfolding is_hijacked_reply
accepted_reply-clean w r msg e = none_hijacked w r (extract_ips w.net msg) e

-- The hypotheses: the reply of the global upstream and of its fallback has no hijacked address.
abbrev pub HonestGlobal : World → Resolver → Type 0
HonestGlobal w r = Trusted w r (is_clean w r) r.global_dns

iran_first-clean :
    (w : World) (r : Resolver) (req : Msg) (domain : Text) (qtype : ℕ) (ch : Channels) (msg : Msg)
    (s : Live)
    → NoAnswer w.lib
    → is_address_type qtype ≡ true
    → waits (is_clean w r) ch.global_ch ≡ true
    → is_clean w r (iran_first w r req domain qtype ch msg s).1 ≡ true
unfolding iran_first
iran_first-clean w r req domain qtype ch msg s l q h =
    let x = server_fail-clean w r req l in let y = iranian_reply-clean w r msg in ground arith

global_first-clean :
    (w : World) (r : Resolver) (domain : Text) (ch : Channels) (msg : Msg) (s : Live)
    → is_clean w r msg ≡ true
    → is_clean w r (global_first w r domain ch msg s).1 ≡ true
unfolding global_first
global_first-clean w r domain ch msg s h = ground arith

neither-clean :
    (w : World) (r : Resolver) (req : Msg) (need_global : Bool) (s : Live)
    → NoAnswer w.lib
    → HonestGlobal w r
    → is_clean w r (neither w r req need_global s).1 ≡ true
unfolding neither
neither-clean w r req need_global s l h =
    let x = server_fail-clean w r req l in
    let y = query-holds w r (is_clean w r) r.global_dns req s h in ground arith

proceed-clean :
    (w : World) (r : Resolver) (req : Msg) (domain : Text) (qtype : ℕ) (need_global : Bool)
    (ch : Channels) (iran_msg global_msg : Option Msg) (s : Live)
    → NoAnswer w.lib
    → HonestGlobal w r
    → is_address_type qtype ≡ true
    → waits (is_clean w r) ch.global_ch ≡ true
    → holds (is_clean w r) global_msg ≡ true
    → is_clean w r (proceed w r req domain qtype need_global ch iran_msg global_msg s).1 ≡ true
unfolding proceed
proceed-clean w r req domain qtype need_global ch (some i) g s l h q c e =
    iran_first-clean w r req domain qtype ch i s l q c
proceed-clean w r req domain qtype need_global ch none (some g) s l h q c e =
    global_first-clean w r domain ch g s e
proceed-clean w r req domain qtype need_global ch none none s l h q c e =
    neither-clean w r req need_global s l h

go_on-clean :
    (w : World) (r : Resolver) (req : Msg) (domain : Text) (qtype : ℕ) (need_global : Bool)
    (o : Option (Channels × Received)) (s : Live)
    → NoAnswer w.lib
    → HonestGlobal w r
    → is_address_type qtype ≡ true
    → kept (is_clean w r) o ≡ true
    → is_clean w r (go_on w r req domain qtype need_global o s).1 ≡ true
unfolding go_on
go_on-clean w r req domain qtype need_global none s l h q k = server_fail-clean w r req l
go_on-clean w r req domain qtype need_global (some (ch, got)) s l h q k =
    proceed-clean w r req domain qtype need_global ch got.iran_msg got.global_msg s l h q
      (ground arith) (ground arith)

run_global-waits :
    (w : World) (r : Resolver) (req : Msg) (started : Bool) (s : Live)
    → HonestGlobal w r
    → waits (is_clean w r) (run_global w r req started s).1 ≡ true
unfolding run_global
run_global-waits w r req started s h =
    let y = query-holds w r (is_clean w r) r.global_dns req s h in ground arith

-- Whichever order the replies arrive in, and whether or not the breakers let the queries through, a
-- query for an address that goes to both upstreams is not answered with a hijacked address.
resolve_with_learning-clean :
    (w : World) (r : Resolver) (req : Msg) (qtype : ℕ) (domain : Text) (s : Live)
    → NoAnswer w.lib
    → HonestGlobal w r
    → is_address_type qtype ≡ true
    → is_clean w r (resolve_with_learning w r req qtype domain s).1 ≡ true
unfolding resolve_with_learning settle
resolve_with_learning-clean w r req qtype domain s l h q =
    go_on-clean w r req domain qtype _ _ _ l h q
      (receive-kept (is_clean w r) _ _ _ (run_global-waits w r req _ _ h))

ask_global-clean :
    (w : World) (r : Resolver) (req : Msg) (s : Live)
    → HonestGlobal w r
    → holds (is_clean w r) (ask_global w r req s).1 ≡ true
unfolding ask_global
ask_global-clean w r req s h =
    query-holds w r (is_clean w r) r.global_dns req (add_queries_global s) h

accept-clean :
    (w : World) (r : Resolver) (req : Msg) (resp : Option Msg) (s : Live)
    → HonestGlobal w r
    → holds (is_clean w r) (accept w r req resp s).1 ≡ true
unfolding accept
accept-clean w r req none s h = ask_global-clean w r req s h
accept-clean w r req (some resp) s h =
    let x = ask_global-clean w r req s h in let y = accepted_reply-clean w r resp in ground arith

accept_preferred-clean :
    (w : World) (r : Resolver) (req : Msg) (resp : Option Msg) (s : Live)
    → HonestGlobal w r
    → holds (is_clean w r) (accept_preferred w r req resp s).1 ≡ true
unfolding accept_preferred
accept_preferred-clean w r req none s h = ask_global-clean w r req s h
accept_preferred-clean w r req (some resp) s h =
    let x = ask_global-clean w r req s h in let y = kept_reply-clean w r resp in ground arith

accept_learned-clean :
    (w : World) (r : Resolver) (req : Msg) (qtype : ℕ) (domain : Text) (resp : Option Msg)
    (s : Live)
    → NoAnswer w.lib
    → HonestGlobal w r
    → is_address_type qtype ≡ true
    → holds (is_clean w r) (accept_learned w r req qtype domain resp s).1 ≡ true
unfolding accept_learned
accept_learned-clean w r req qtype domain none s l h q = ask_global-clean w r req s h
accept_learned-clean w r req qtype domain (some resp) s l h q =
    let x = accept-clean w r req (some resp) s h in
    let y =
      resolve_with_learning-clean w r req qtype domain
        (record s { store = Store.remove domain s.store }) l h q in
    ground arith

-- If the global upstream and its fallback return no hijacked address, then a query for an address
-- (A or AAAA) is never answered with one, on any of the four paths: whatever the Iranian upstream
-- returns, whichever upstream answers first, and in whatever state the breakers and the store are.
pub resolve-clean :
    (w : World) (r : Resolver) (req : Msg) (qtype : ℕ) (domain : Text) (s : Live)
    → NoAnswer w.lib
    → HonestGlobal w r
    → is_address_type qtype ≡ true
    → holds (is_clean w r) (resolve w r req qtype domain s).1 ≡ true
unfolding resolve via_tld via_prefer_iran via_store
resolve-clean w r req qtype domain s l h q = elim (Bool-cases (is_iran_tld r domain)) [
  | inl i ↦ rw i (accept-clean w r req _ _ h)
  | inr i ↦ elim (Bool-cases (is_prefer_iran r domain)) [
    | inl j ↦ rw (i, j) (accept_preferred-clean w r req _ _ h)
    | inr j ↦ elim (Bool-cases (Store.is_iran s.store domain)) [
      | inl k ↦ rw (i, j, k) (accept_learned-clean w r req qtype domain _ _ l h q)
      | inr k ↦ rw (i, j, k) (resolve_with_learning-clean w r req qtype domain _ l h q)
    ]
  ]
]
