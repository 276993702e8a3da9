-- ===== src/Resolver/Cached.antt =====
-- The cache through a query of the resolver: what Cache/Bounds and Cache/Sound show of one operation
-- carries over to `Resolve` as a whole.
use sentrydns.Base.{
  arith, refl, ℕ, ◌+◌, ◌≡◌, ◌≢◌, Bool, true, false, Option, none, some, List, [], ◌∷◌, ◌++◌, ◌==◌,
  Text, Dict, Distinct, inl, inr, Bool-cases, Option-cases, subst, sym, if◌then◌else◌, to_lower,
}
use sentrydns.Dns.{Msg, Question, DnsLib, rcode_server_failure, type_a}
use sentrydns.Cache
use sentrydns.Cache.{Entry, make_key}
use sentrydns.Cache.Evict.{Iterates}
use sentrydns.Cache.Sound.{IsSound, get-IsSound, set-IsSound}
use sentrydns.Resolver.{Resolver, Live, World, next_tick}
use sentrydns.Resolver.Filter.{static_lookup}
use sentrydns.Resolver.Route.{resolve}
use sentrydns.Resolver.Handle.{
  add_retried, is_failure, conclude, fly, do_flight, flight_key, answer, handle, checked, enter,
  questions, resolve_request,
}
use sentrydns.Resolver.Replies.{counted}
use sentrydns.Resolver.Balance.{missed, resolve-cache}

-- A `range` visits each binding of a map once.
abbrev pub Ranges : World → Type 0
Ranges w = (n : ℕ) (m : Dict Entry) → Distinct m → Iterates (w.order n m) m

snoc_not_nil : (s t : Text) (c : ℕ) → s ++ c ∷ t ≢ []
snoc_not_nil [] t c e = ground arith
snoc_not_nil (x ∷ s) t c e = ground arith

make_key-question :
    (lib : DnsLib) (req : Msg) (q : Question) (qs : List Question)
    → req.question ≡ q ∷ qs
    → make_key lib (some req) ≢ []
unfolding make_key
make_key-question lib req q qs h = rw h (snoc_not_nil (to_lower q.name) _ _)

conclude-IsSound :
    (w : World) (req : Msg) (resp : Option Msg) (s : Live)
    → Ranges w
    → make_key w.lib (some req) ≢ []
    → IsSound s.cache
    → IsSound (conclude w req resp s).0.cache
unfolding conclude
conclude-IsSound w req none s o k c = c
conclude-IsSound w req (some resp) s o k c =
    elim (Bool-cases (resp.rcode == rcode_server_failure)) [
      | inl e ↦ rw e c
      | inr e ↦ rw e (
          set-IsSound w.lib _ (w.now s.tick) s.cache req (some resp)
            (o s.tick s.cache.entries c.distinct) k c)
    ]

fly-IsSound :
    (w : World) (r : Resolver) (req : Msg) (qtype : ℕ) (domain : Text) (s : Live)
    → Ranges w
    → make_key w.lib (some req) ≢ []
    → IsSound s.cache
    → IsSound (fly w r req qtype domain s).0.cache
unfolding fly
fly-IsSound w r req qtype domain s o k c =
    let (s1, resp) = resolve w r req qtype domain s in
    let (s2, again) = resolve w r req qtype domain (add_retried s1) in
    let a = subst IsSound (sym (resolve-cache w r req qtype domain s)) c in
    let b = subst IsSound (sym (resolve-cache w r req qtype domain (add_retried s1))) a in
    elim (Bool-cases (is_failure resp)) [
      | inl e ↦ rw (e, fly) (conclude-IsSound w req again s2 o k b)
      | inr e ↦ rw (e, fly) (conclude-IsSound w req resp s1 o k a)
    ]

do_flight-IsSound :
    (w : World) (r : Resolver) (req : Msg) (qtype : ℕ) (domain : Text) (s : Live)
    → Ranges w
    → make_key w.lib (some req) ≢ []
    → IsSound s.cache
    → IsSound (do_flight w r req qtype domain s).0.cache
unfolding do_flight
do_flight-IsSound w r req qtype domain s o k c =
    elim (Option-cases (w.shared s.tick (flight_key w.lib qtype domain))) [
      | inl e ↦ rw (e, do_flight) (fly-IsSound w r req qtype domain (next_tick s) o k c)
      | inr (m, e) ↦ rw (e, do_flight) c
    ]

answer-IsSound :
    (w : World) (r : Resolver) (req : Msg) (qtype : ℕ) (domain : Text) (s : Live)
    → Ranges w
    → make_key w.lib (some req) ≢ []
    → IsSound s.cache
    → IsSound (answer w r req qtype domain s).0.cache
unfolding answer
answer-IsSound w r req qtype domain s o k c =
    let g = get-IsSound w.lib (w.now s.tick) (w.now (s.tick + 1)) s.cache req c in
    elim (Option-cases (Cache.get w.lib (w.now s.tick) (w.now (s.tick + 1)) s.cache req).1) [
      | inl e ↦ rw (e, answer) (do_flight-IsSound w r req qtype domain (missed w req s) o k g)
      | inr (m, e) ↦ rw (e, answer) g
    ]

handle-IsSound :
    (w : World) (r : Resolver) (req : Msg) (q : Question) (s : Live)
    → Ranges w
    → make_key w.lib (some req) ≢ []
    → IsSound s.cache
    → IsSound (handle w r req q s).0.cache
unfolding handle
handle-IsSound w r req q s o k c =
    let x = answer-IsSound w r req q.qtype q.name (counted s) o k c in
    elim (Option-cases (static_lookup r q.name)) [
      | inl e ↦ rw (e, handle) x
      | inr (ip, e) ↦ elim (Bool-cases (q.qtype == type_a)) [
        | inl f ↦ rw (e, handle, f) c
        | inr f ↦ rw (e, handle, f) x
      ]
    ]

checked-IsSound :
    (w : World) (r : Resolver) (req : Option Msg) (qs : List Question) (s : Live)
    → Ranges w
    → questions req ≡ qs
    → IsSound s.cache
    → IsSound (checked w r req qs s).0.cache
unfolding checked
checked-IsSound w r none qs s o e c = c
checked-IsSound w r (some req) [] s o e c = c
checked-IsSound w r (some req) (q ∷ qs) s o e c =
    handle-IsSound w r req q s o (make_key-question w.lib req q qs e) c

if-IsSound :
    (b : Bool) (x y : Live × Msg)
    → IsSound x.0.cache
    → IsSound y.0.cache
    → IsSound (if b then x else y).0.cache
if-IsSound true x y c d = c
if-IsSound false x y c d = d

-- A query, whatever the upstreams and the clock do, keeps the cache's invariant: no more entries than
-- the limit, each with a key, bound once, and a successful answer with records.
pub resolve_request-IsSound :
    (w : World) (r : Resolver) (req : Option Msg) (s : Live)
    → Ranges w
    → IsSound s.cache
    → IsSound (resolve_request w r req s).0.cache
unfolding resolve_request
resolve_request-IsSound w r req s o c =
    if-IsSound s.stopped _ _ c (checked-IsSound w r req (questions req) (enter s) o refl c)
