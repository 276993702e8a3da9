-- ===== src/Resolver/Filter.antt =====
-- What internal/resolver/resolver.go decides without a query: `isIranTLD`, `isPreferIran`,
-- `isHijacked`, `extractIPs`, the static records, `ServerFail` and `resolveAddr`.
use sentrydns.Base.{
  Bool, true, false, Option, none, some, List, [], ◌∷◌, ◌++◌, ◌||◌, any, if◌then◌else◌, Text,
  to_lower, Dict, insert, find,
}
use sentrydns.Domain.{normalize, has, covers}
use sentrydns.Dns.{Msg, Rr, a, aaaa, other, DnsLib, empty_msg, rcode_server_failure}
use sentrydns.Netip.{Addr, Prefix, Netip, contains}
use sentrydns.Resolver.{Resolver, World}

unfoldable pub is_iran_tld : Resolver → Text → Bool
is_iran_tld r domain = covers r.iran_tlds (normalize domain)

unfoldable pub is_prefer_iran : Resolver → Text → Bool
is_prefer_iran r domain = covers r.prefer_iran (normalize domain)

-- Whether one of the ranges contains the address, if the text is one.
abbrev pub in_ranges : Netip → List Prefix → Text → Bool
in_ranges net ranges ip_str = elim (net.parse_addr ip_str) [
  | none ↦ false
  | some ip ↦ any (λ network. contains network ip) ranges
]

unfoldable pub is_hijacked : Netip → Resolver → List Text → Bool
is_hijacked net r ips =
    any (λ ip_str. has r.hijack_ips ip_str || in_ranges net r.hijack_ranges ip_str) ips

unfoldable pub extract : Netip → List Rr → List Text
extract net [] = []
extract net (a ttl ip ∷ rest) = net.ip_string ip ∷ extract net rest
extract net (aaaa ttl ip ∷ rest) = net.ip_string ip ∷ extract net rest
extract net (other ttl ∷ rest) = extract net rest

unfoldable pub extract_ips : Netip → Msg → List Text
extract_ips net msg = extract net msg.answer

-- A request is `none` where the source's pointer is nil.
unfoldable pub server_fail : DnsLib → Option Msg → Msg
server_fail lib none = record empty_msg { rcode = rcode_server_failure }
server_fail lib (some req) = record (lib.set_reply req) { rcode = rcode_server_failure }

unfoldable pub static_lookup : Resolver → Text → Option Addr
static_lookup r domain = find (to_lower domain) r.static_records

unfoldable pub static_response : DnsLib → Netip → Msg → Addr → Msg
static_response lib net req ip =
    let resp = lib.set_reply req in
    record resp { authoritative = true; answer = resp.answer ++ a 300 (net.as_slice ip) ∷ [] }

-- The loop of `SetStaticRecords`, over the records in the order of its `range`.
unfoldable pub static_map : World → List (Text × Text) → Dict Addr → Dict Addr
static_map w [] m = m
static_map w ((domain, ip_str) ∷ rest) m =
    static_map w rest (elim (w.net.parse_addr ip_str) [
      | none ↦ m
      | some ip ↦ insert (to_lower (w.fqdn domain)) ip m
    ])

unfoldable pub set_static_records : World → List (Text × Text) → Resolver → Resolver
unfolding static_map
set_static_records w records r = record r { static_records = static_map w records [] }

abbrev pub has_port : World → Text → Text
has_port w s = if w.split_host_port s then s else w.join_53 s

unfoldable pub resolve_addr : World → Text → Text
resolve_addr w [] = []
resolve_addr w (c ∷ s) = has_port w (c ∷ s)
