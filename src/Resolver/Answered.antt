-- ===== src/Resolver/Answered.antt =====
-- What a query can return: a reply that came from an address which it asked.
use sentrydns.Base.{
  arith, inl, inr, ℕ, ◌≡◌, Bool, true, false, Option, none, some, Text, Bool-cases,
}
use sentrydns.Dns.{Msg}
use sentrydns.Resolver.{Resolver, Live, World, Transport, udp, tcp}
use sentrydns.Breaker.{try_probe}
use sentrydns.Resolver.{next_tick}
use sentrydns.Resolver.Filter.{has_port}
use sentrydns.Resolver.Query.{
  is_iran_upstream, address, limit, fall_back, retry_tcp, finish, send, query, query_iran_dns,
}

-- A reply, if there is one, passes a test.
abbrev pub holds : (Msg → Bool) → Option Msg → Bool
holds p none = true
holds p (some msg) = p msg

-- Whatever comes from an address passes a test.
abbrev pub From : World → (Msg → Bool) → Text → Type 0
From w p addr =
    (n : ℕ) (t : Transport) (timeout : ℕ) (req : Msg)
    → holds p (w.exchange n t addr timeout req).1 ≡ true

fall_back-holds :
    (w : World) (r : Resolver) (p : Msg → Bool) (timeout : ℕ) (req : Msg) (s : Live)
    → From w p (has_port w r.global_dns_fallback)
    → holds p (fall_back w r timeout req s).1 ≡ true
unfolding fall_back
fall_back-holds w r p timeout req s h = let x = h s.tick udp timeout req in ground arith

retry_tcp-holds :
    (w : World) (p : Msg → Bool) (addr : Text) (timeout : ℕ) (req resp : Msg) (s : Live)
    → From w p addr
    → p resp ≡ true
    → holds p (retry_tcp w addr timeout req resp s).1 ≡ true
unfolding retry_tcp
retry_tcp-holds w p addr timeout req resp s h e = let x = h s.tick tcp timeout req in ground arith

-- Every address that a query to an upstream may ask returns only what passes a test.
abbrev pub Trusted : World → Resolver → (Msg → Bool) → Text → Type 0
Trusted w r p upstream =
    From w p (address w r upstream)
    × ((is_iran_upstream r upstream ≡ false) → From w p (has_port w r.global_dns_fallback))

finish-holds :
    (w : World) (r : Resolver) (p : Msg → Bool) (upstream : Text) (timeout : ℕ) (req : Msg)
    (reply : Option Msg) (s : Live)
    → Trusted w r p upstream
    → holds p reply ≡ true
    → holds p (finish w r upstream timeout req reply s).1 ≡ true
unfolding finish
finish-holds w r p upstream timeout req none s h e =
    elim (Bool-cases (is_iran_upstream r upstream)) [
      | inl i ↦ rw i
      | inr i ↦ let x = fall_back-holds w r p timeout req s (h.1 i) in ground arith
    ]
finish-holds w r p upstream timeout req (some resp) s h e =
    let x = retry_tcp-holds w p (address w r upstream) timeout req resp s h.0 e in ground arith

send-holds :
    (w : World) (r : Resolver) (p : Msg → Bool) (upstream : Text) (timeout : ℕ) (req : Msg)
    (s : Live)
    → Trusted w r p upstream
    → holds p (send w r upstream timeout req s).1 ≡ true
unfolding send
send-holds w r p upstream timeout req s h =
    finish-holds w r p upstream timeout _ _ _ h (h.0 _ udp timeout _)

pub query-holds :
    (w : World) (r : Resolver) (p : Msg → Bool) (upstream : Text) (req : Msg) (s : Live)
    → Trusted w r p upstream
    → holds p (query w r upstream req s).1 ≡ true
unfolding query
query-holds w r p upstream req s h =
    let x = send-holds w r p upstream (limit w r upstream s.tick) req (next_tick s) h in
    ground arith

pub query_iran_dns-holds :
    (w : World) (r : Resolver) (p : Msg → Bool) (req : Msg) (s : Live)
    → Trusted w r p r.iran_dns
    → holds p (query_iran_dns w r req s).1 ≡ true
unfolding query_iran_dns
query_iran_dns-holds w r p req s h =
    let probing = record (next_tick s) {
      iran_cb = ((try_probe (w.now s.tick) s.iran_cb.0).0, s.iran_cb.1);
    } in
    let x = query-holds w r p r.iran_dns req s h in
    let y = query-holds w r p r.iran_dns req probing h in ground arith
