-- ===== src/Resolver/Route.antt =====
-- `resolve` of internal/resolver/resolver.go: a name under an Iranian TLD or preferred domain, or a
-- learned one, goes to the Iranian upstream first, and any other to both. A reply is `none` where the
-- source's pointer is nil. The copy of the request is the request.
use sentrydns.Base.{ℕ, Bool, not, ◌&&◌, Option, none, some, ◌==◌, if◌then◌else◌, Text, i64_inc}
use sentrydns.Dns.{Msg, rcode_success, rcode_name_error}
use sentrydns.Cache.{is_empty}
use sentrydns.Store
use sentrydns.Resolver.{Resolver, Live, World}
use sentrydns.Resolver.Filter.{is_iran_tld, is_prefer_iran, is_hijacked, extract_ips}
use sentrydns.Resolver.Query.{query, query_iran_dns}
use sentrydns.Resolver.Learning.{
  add_queries_iran, add_queries_global, is_clean_reply, resolve_with_learning,
}

-- The branch that gives up the Iranian reply.
unfoldable pub ask_global : World → Resolver → Msg → Live → Live × Option Msg
ask_global w r req s = query w r r.global_dns req (add_queries_global s)

-- A reply that names a hijacked address.
unfoldable pub is_hijacked_reply : World → Resolver → Msg → Bool
is_hijacked_reply w r msg =
    let ips = extract_ips w.net msg in not (is_empty ips) && is_hijacked w.net r ips

-- The end of the TLD path, and of the path of learned domains.
unfoldable pub accept : World → Resolver → Msg → Option Msg → Live → Live × Option Msg
unfolding ask_global is_hijacked_reply
accept w r req none s = ask_global w r req s
accept w r req (some resp) s =
    if not (resp.rcode == rcode_success)
    then ask_global w r req s
    else if is_hijacked_reply w r resp
    then ask_global w r req s
    else (add_queries_iran s, some resp)

-- The end of the path of preferred domains, which asks for an address.
unfoldable pub accept_preferred : World → Resolver → Msg → Option Msg → Live → Live × Option Msg
unfolding ask_global
accept_preferred w r req none s = ask_global w r req s
accept_preferred w r req (some resp) s =
    if resp.rcode == rcode_success && is_clean_reply w r resp
    then (add_queries_iran s, some resp)
    else ask_global w r req s

abbrev pub lift : Live × Msg → Live × Option Msg
lift (s, msg) = (s, some msg)

-- A learned domain that its upstream does not know is removed and looked up anew.
unfoldable pub accept_learned :
    World → Resolver → Msg → ℕ → Text → Option Msg → Live → Live × Option Msg
unfolding accept
accept_learned w r req qtype domain none s = ask_global w r req s
accept_learned w r req qtype domain (some resp) s =
    let relearned =
      resolve_with_learning w r req qtype domain
        (record s { store = Store.remove domain s.store }) in
    if resp.rcode == rcode_name_error then lift relearned else accept w r req (some resp) s

unfoldable pub via_tld : World → Resolver → Msg → Live → Live × Option Msg
via_tld w r req s =
    let (s', resp) =
      query_iran_dns w r req
        (record s { metrics = record s.metrics { path_tld = i64_inc s.metrics.path_tld } }) in
    accept w r req resp s'

unfoldable pub via_prefer_iran : World → Resolver → Msg → Live → Live × Option Msg
via_prefer_iran w r req s =
    let (s', resp) = query_iran_dns w r req (record s {
      metrics = record s.metrics { path_prefer_iran = i64_inc s.metrics.path_prefer_iran };
    }) in
    accept_preferred w r req resp s'

unfoldable pub via_store : World → Resolver → Msg → ℕ → Text → Live → Live × Option Msg
via_store w r req qtype domain s =
    let (s', resp) =
      query w r r.iran_dns req
        (record s { metrics = record s.metrics { path_store = i64_inc s.metrics.path_store } }) in
    accept_learned w r req qtype domain resp s'

unfoldable pub resolve : World → Resolver → Msg → ℕ → Text → Live → Live × Option Msg
unfolding via_tld via_prefer_iran via_store
resolve w r req qtype domain s =
    if is_iran_tld r domain
    then via_tld w r req s
    else if is_prefer_iran r domain
    then via_prefer_iran w r req s
    else if Store.is_iran s.store domain
    then via_store w r req qtype domain s
    else lift (
        resolve_with_learning w r req qtype domain
          (record s { metrics = record s.metrics { path_learn = i64_inc s.metrics.path_learn } }))
