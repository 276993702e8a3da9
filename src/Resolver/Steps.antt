-- ===== src/Resolver/Steps.antt =====
-- What a query does to the store is a series of the store's own operations: `Add` and `Remove` of the
-- domain that is asked for.
use sentrydns.Base.{
  ℕ, ◌+◌, Bool, true, false, Option, none, some, List, [], ◌∷◌, ◌==◌, Text, inl, inr, Bool-cases,
  Option-cases, if◌then◌else◌,
}
use sentrydns.Domain.{normalize}
use sentrydns.LearnedFile.RoundTrip.{IsName}
use sentrydns.Dns.{Msg, Question, type_a, rcode_server_failure}
use sentrydns.Cache
use sentrydns.Store.{Store}
use sentrydns.Store.Durability.{Reach, next, adding, removing}
use sentrydns.Resolver.{Resolver, Live, World, next_tick}
use sentrydns.Resolver.Filter.{static_lookup}
use sentrydns.Resolver.Route.{resolve}
use sentrydns.Resolver.Handle.{
  add_retried, is_failure, conclude, fly, do_flight, flight_key, answer, handle, checked, enter,
  questions, resolve_request,
}
use sentrydns.Resolver.Keeps.{resolve-keeps}
use sentrydns.Resolver.Learned.{always, anything}
use sentrydns.Resolver.Replies.{counted}
use sentrydns.Resolver.Balance.{missed}

-- The first question, if there is one, asks for a name that a line of the learned file can hold.
abbrev pub AsksName : List Question → Type 0
AsksName [] = Unit
AsksName (q ∷ qs) = IsName (normalize q.name)

resolve-Reach :
    (w : World) (r : Resolver) (req : Msg) (qtype : ℕ) (domain : Text) (s : Live) (start : Store)
    → IsName (normalize domain)
    → Reach start s.store
    → Reach start (resolve w r req qtype domain s).0.store
resolve-Reach w r req qtype domain s start name k =
    resolve-keeps w r domain (Reach start) always
      (λ msg h i today st reach. next reach (adding st today domain name))
      (λ st reach. next reach (removing st domain)) (anything w r) req qtype s k

module _ (w : World) (r : Resolver) (start : Store) where
  conclude-Reach :
      (req : Msg) (resp : Option Msg) (s : Live)
      → Reach start s.store
      → Reach start (conclude w req resp s).0.store
  unfolding conclude
  conclude-Reach req none s k = k
  conclude-Reach req (some resp) s k = elim (Bool-cases (resp.rcode == rcode_server_failure)) [
    | inl e ↦ rw e k
    | inr e ↦ rw e k
  ]

  fly-Reach :
      (req : Msg) (qtype : ℕ) (domain : Text) (s : Live)
      → IsName (normalize domain)
      → Reach start s.store
      → Reach start (fly w r req qtype domain s).0.store
  unfolding fly
  fly-Reach req qtype domain s name k =
      let (s1, resp) = resolve w r req qtype domain s in
      let (s2, again) = resolve w r req qtype domain (add_retried s1) in
      let a = resolve-Reach w r req qtype domain s start name k in
      let b = resolve-Reach w r req qtype domain (add_retried s1) start name a in
      elim (Bool-cases (is_failure resp)) [
        | inl e ↦ rw (e, fly) (conclude-Reach req again s2 b)
        | inr e ↦ rw (e, fly) (conclude-Reach req resp s1 a)
      ]

  do_flight-Reach :
      (req : Msg) (qtype : ℕ) (domain : Text) (s : Live)
      → IsName (normalize domain)
      → Reach start s.store
      → Reach start (do_flight w r req qtype domain s).0.store
  unfolding do_flight
  do_flight-Reach req qtype domain s name k =
      elim (Option-cases (w.shared s.tick (flight_key w.lib qtype domain))) [
        | inl e ↦ rw (e, do_flight) (fly-Reach req qtype domain (next_tick s) name k)
        | inr (m, e) ↦ rw (e, do_flight) k
      ]

  answer-Reach :
      (req : Msg) (qtype : ℕ) (domain : Text) (s : Live)
      → IsName (normalize domain)
      → Reach start s.store
      → Reach start (answer w r req qtype domain s).0.store
  unfolding answer
  answer-Reach req qtype domain s name k =
      elim (Option-cases (Cache.get w.lib (w.now s.tick) (w.now (s.tick + 1)) s.cache req).1) [
        | inl e ↦ rw (e, answer) (do_flight-Reach req qtype domain (missed w req s) name k)
        | inr (m, e) ↦ rw (e, answer) k
      ]

  handle-Reach :
      (req : Msg) (q : Question) (s : Live)
      → IsName (normalize q.name)
      → Reach start s.store
      → Reach start (handle w r req q s).0.store
  unfolding handle
  handle-Reach req q s name k =
      let x = answer-Reach req q.qtype q.name (counted s) name k in
      elim (Option-cases (static_lookup r q.name)) [
        | inl e ↦ rw (e, handle) x
        | inr (ip, e) ↦ elim (Bool-cases (q.qtype == type_a)) [
          | inl f ↦ rw (e, handle, f) k
          | inr f ↦ rw (e, handle, f) x
        ]
      ]

  checked-Reach :
      (req : Option Msg) (qs : List Question) (s : Live)
      → AsksName qs
      → Reach start s.store
      → Reach start (checked w r req qs s).0.store
  unfolding checked
  checked-Reach none qs s name k = k
  checked-Reach (some req) [] s name k = k
  checked-Reach (some req) (q ∷ qs) s name k = handle-Reach req q s name k

  if-Reach :
      (b : Bool) (x y : Live × Msg)
      → Reach start x.0.store
      → Reach start y.0.store
      → Reach start (if b then x else y).0.store
  if-Reach true x y p q = p
  if-Reach false x y p q = q

  -- A query for a name that a line can hold makes only steps of the store.
  pub resolve_request-Reach :
      (req : Option Msg) (s : Live)
      → AsksName (questions req)
      → Reach start s.store
      → Reach start (resolve_request w r req s).0.store
  unfolding resolve_request
  resolve_request-Reach req s name k =
      if-Reach s.stopped _ _ k (checked-Reach req (questions req) (enter s) name k)
