-- ===== src/Resolver/Hijack.antt =====
-- Hijacked addresses through `Resolve` as a whole: the cache, the retry and the shared calls.
use sentrydns.Base.{
  arith, refl, ℕ, ◌+◌, ◌≡◌, Bool, true, false, Option, none, some, List, ◌∷◌, ◌==◌, Text, All,
  Lacks, inl, inr, Bool-cases, Option-cases, if◌then◌else◌, append-cons-split, to_lower, ap, sym,
  ◌∙◌, subst,
}
use sentrydns.Dns.{Msg, Question, DnsLib, is_address_type, type_a, rcode_server_failure}
use sentrydns.Classifier.{Classifier}
use sentrydns.Cache
use sentrydns.Cache.{Entry, make_key}
use sentrydns.Cache.Keys.{make_key_iff}
use sentrydns.Cache.Entries.{get-All, get-entry, set-All}
use sentrydns.Resolver.{Resolver, Live, World, next_tick}
use sentrydns.Resolver.Filter.{static_lookup, extract_ips, is_hijacked}
use sentrydns.Resolver.Route.{resolve}
use sentrydns.Resolver.Handle.{
  add_retried, is_failure, conclude, fly, do_flight, flight_key, answer, handle, checked, enter,
  resolve_request,
}
use sentrydns.Resolver.Query.{address}
use sentrydns.Resolver.Answered.{holds}
use sentrydns.Resolver.Clean.{is_clean, NoAnswer, HonestGlobal, resolve-clean, server_fail-clean}
use sentrydns.Resolver.Replies.{counted}
use sentrydns.Resolver.Balance.{missed, resolve-cache}

-- The names of query types have no colon, and those of A and AAAA are no other type's.
pub record NamesTypes (lib : DnsLib) : Type 0 where
  pub lacks : (t : ℕ) → Lacks b':' (lib.type_to_string t)
  pub address :
      (t u : ℕ)
      → is_address_type t ≡ true
      → lib.type_to_string t ≡ lib.type_to_string u
      → is_address_type u ≡ true

-- The same resolver with other ranges.
abbrev pub with_ranges : Classifier → Resolver → Resolver
with_ranges c r = record r { classifier = c }

-- A reply that a flight for the key returned, with the ranges of that time and in any state.
pub record Flown (w : World) (r : Resolver) (key : Text) (m : Msg) : Type 0 where
  pub ranges : Classifier
  pub req : Msg
  pub q : Question
  pub qs : List Question
  pub state : Live
  pub asked : req.question ≡ q ∷ qs
  pub same_key : flight_key w.lib q.qtype q.name ≡ key
  pub reply : m ≡ (fly w (with_ranges ranges r) req q.qtype q.name state).1

-- What the singleflight group shares under a key is what a flight for that key returned.
abbrev pub SharesFlights : World → Resolver → Type 0
SharesFlights w r = (n : ℕ) (key : Text) (m : Msg) → w.shared n key ≡ some m → Flown w r key m

pub HonestGlobal-with_ranges :
    (w : World) (r : Resolver) (c : Classifier)
    → HonestGlobal w r
    → HonestGlobal w (with_ranges c r)
unfolding is_hijacked address
HonestGlobal-with_ranges w r c h = h

conclude-clean :
    (w : World) (r : Resolver) (req : Msg) (resp : Option Msg) (s : Live)
    → NoAnswer w.lib
    → holds (is_clean w r) resp ≡ true
    → is_clean w r (conclude w req resp s).1 ≡ true
unfolding conclude
conclude-clean w r req none s n h = server_fail-clean w r req n
conclude-clean w r req (some resp) s n h = elim (Bool-cases (resp.rcode == rcode_server_failure)) [
  | inl bad ↦ rw bad h
  | inr good ↦ rw good h
]

-- A flight for an address returns no hijacked one, whatever the state.
fly-clean :
    (w : World) (r : Resolver) (req : Msg) (qtype : ℕ) (domain : Text) (s : Live)
    → NoAnswer w.lib
    → HonestGlobal w r
    → is_address_type qtype ≡ true
    → is_clean w r (fly w r req qtype domain s).1 ≡ true
unfolding fly
fly-clean w r req qtype domain s n h a =
    let (s1, resp) = resolve w r req qtype domain s in
    let (s2, again) = resolve w r req qtype domain (add_retried s1) in
    elim (Bool-cases (is_failure resp)) [
      | inl f ↦
          rw (f, fly)
            (conclude-clean w r req again s2 n
              (resolve-clean w r req qtype domain (add_retried s1) n h a))
      | inr f ↦
          rw (f, fly)
            (conclude-clean w r req resp s1 n (resolve-clean w r req qtype domain s n h a))
    ]

is_clean-without :
    (w : World) (r : Resolver) (c : Classifier) (m : Msg)
    → is_clean w (with_ranges c r) m ≡ true
    → is_clean w r m ≡ true
unfolding is_hijacked
is_clean-without w r c m h = h

-- Equal keys of flights are for addresses both or neither.
same_key-address :
    (w : World) (q q' : Question)
    → NamesTypes w.lib
    → is_address_type q.qtype ≡ true
    → flight_key w.lib q'.qtype q'.name ≡ flight_key w.lib q.qtype q.name
    → is_address_type q'.qtype ≡ true
same_key-address w q q' types a e = types.address q.qtype q'.qtype a (
    sym
      (append-cons-split b':' (to_lower q'.name) (to_lower q.name) _ _ (types.lacks q'.qtype)
        (types.lacks q.qtype) e).1)

-- A shared reply to a query for an address has no hijacked one.
Flown-clean :
    (w : World) (r : Resolver) (q : Question) (m : Msg)
    → NoAnswer w.lib
    → HonestGlobal w r
    → NamesTypes w.lib
    → is_address_type q.qtype ≡ true
    → Flown w r (flight_key w.lib q.qtype q.name) m
    → is_clean w r m ≡ true
Flown-clean w r q m n h types a f =
    let r' = with_ranges f.ranges r in
    let address = same_key-address w q f.q types a f.same_key in
    ap (is_clean w r) f.reply
    ∙ is_clean-without w r f.ranges _ (
        fly-clean w r' f.req f.q.qtype f.q.name f.state n (HonestGlobal-with_ranges w r f.ranges h)
          address)

-- An entry that answers a query for an address has no hijacked one.
abbrev pub IsCleanEntry : World → Resolver → Text × Entry → Type 0
IsCleanEntry w r p =
    (req : Msg) (q : Question) (qs : List Question)
    → req.question ≡ q ∷ qs
    → is_address_type q.qtype ≡ true
    → make_key w.lib (some req) ≡ p.0
    → is_clean w r p.1.msg ≡ true

abbrev pub IsCleanCache : World → Resolver → Live → Type 0
IsCleanCache w r s = All (IsCleanEntry w r) s.cache.entries

is_clean-id :
    (w : World) (r : Resolver) (m : Msg) (n : ℕ)
    → is_clean w r (record m { id = n }) ≡ is_clean w r m
unfolding extract_ips
is_clean-id w r m n = refl

module _ (w : World) (r : Resolver) (no_answer : NoAnswer w.lib) (honest : HonestGlobal w r)
    (types : NamesTypes w.lib) (shared : SharesFlights w r) where
  -- What is shown of one stage: the cache stays clean, and a reply to a query for an address is clean.
  abbrev Kept : ℕ → Live × Msg → Type 0
  Kept qtype out =
      IsCleanCache w r out.0 × (is_address_type qtype ≡ true → is_clean w r out.1 ≡ true)

  new_entry :
      (req resp : Msg) (q : Question) (qs : List Question) (expires : ℕ)
      → req.question ≡ q ∷ qs
      → (is_address_type q.qtype ≡ true → is_clean w r resp ≡ true)
      → IsCleanEntry w r (make_key w.lib (some req), record { msg = resp; expires = expires })
  new_entry req resp q qs expires e h other q' qs' e' address same = h (
      types.address q'.qtype q.qtype address
        ((make_key_iff w.lib other req q' q qs' qs types.lacks e' e).0 same).1)

  conclude-Kept :
      (req : Msg) (q : Question) (qs : List Question) (resp : Option Msg) (s : Live)
      → req.question ≡ q ∷ qs
      → (is_address_type q.qtype ≡ true → holds (is_clean w r) resp ≡ true)
      → IsCleanCache w r s
      → Kept q.qtype (conclude w req resp s)
  unfolding conclude
  conclude-Kept req q qs none s e h k = (k, λ a. server_fail-clean w r req no_answer)
  conclude-Kept req q qs (some resp) s e h k =
      elim (Bool-cases (resp.rcode == rcode_server_failure)) [
        | inl bad ↦ rw bad (k, h)
        | inr good ↦ rw good (
          set-All (IsCleanEntry w r) w.lib _ (w.now s.tick) s.cache req resp
              (λ expires. new_entry req resp q qs expires e h) k,
          h,
        )
      ]

  fly-Kept :
      (req : Msg) (q : Question) (qs : List Question) (s : Live)
      → req.question ≡ q ∷ qs
      → IsCleanCache w r s
      → Kept q.qtype (fly w r req q.qtype q.name s)
  unfolding fly
  fly-Kept req q qs s e k =
      let (s1, resp) = resolve w r req q.qtype q.name s in
      let (s2, again) = resolve w r req q.qtype q.name (add_retried s1) in
      let a =
        subst (λ c. All (IsCleanEntry w r) c.entries) (sym (resolve-cache w r req q.qtype q.name s))
          k in
      let b =
        subst (λ c. All (IsCleanEntry w r) c.entries)
          (sym (resolve-cache w r req q.qtype q.name (add_retried s1))) a in
      elim (Bool-cases (is_failure resp)) [
        | inl f ↦
            rw (f, fly)
              (conclude-Kept req q qs again s2 e
                (resolve-clean w r req q.qtype q.name (add_retried s1) no_answer honest) b)
        | inr f ↦
            rw (f, fly)
              (conclude-Kept req q qs resp s1 e
                (resolve-clean w r req q.qtype q.name s no_answer honest) a)
      ]

  do_flight-Kept :
      (req : Msg) (q : Question) (qs : List Question) (s : Live)
      → req.question ≡ q ∷ qs
      → IsCleanCache w r s
      → Kept q.qtype (do_flight w r req q.qtype q.name s)
  unfolding do_flight
  do_flight-Kept req q qs s e k =
      elim (Option-cases (w.shared s.tick (flight_key w.lib q.qtype q.name))) [
        | inl f ↦ rw (f, do_flight) (fly-Kept req q qs (next_tick s) e k)
        | inr (m, f) ↦
            rw (f, do_flight)
              (k, λ a. Flown-clean w r q m no_answer honest types a (shared s.tick _ m f))
      ]

  answer-Kept :
      (req : Msg) (q : Question) (qs : List Question) (s : Live)
      → req.question ≡ q ∷ qs
      → IsCleanCache w r s
      → Kept q.qtype (answer w r req q.qtype q.name s)
  unfolding answer
  answer-Kept req q qs s e k =
      let g = get-All (IsCleanEntry w r) w.lib (w.now s.tick) (w.now (s.tick + 1)) s.cache req k in
      elim (Option-cases (Cache.get w.lib (w.now s.tick) (w.now (s.tick + 1)) s.cache req).1) [
        | inl f ↦
            let d = do_flight-Kept req q qs (missed w req s) e g in
            rw (f, answer) (d.0, λ a. is_clean-id w r _ req.id ∙ d.1 a)
        | inr (m, f) ↦
            let (old, clean, same) =
              get-entry (IsCleanEntry w r) w.lib (w.now s.tick) (w.now (s.tick + 1)) s.cache req m k
                f in
            rw (f, answer)
              (
                g,
                λ a.
                    ap (is_clean w r) same
                    ∙ is_clean-id w r old.msg req.id
                    ∙ clean req q qs e a refl,
              )
      ]

  -- The same for a question, where a static record may come first.
  abbrev pub KeptFor : Question → Live × Msg → Type 0
  KeptFor q out =
      IsCleanCache w r out.0
      × (static_lookup r q.name ≡ none → is_address_type q.qtype ≡ true → is_clean w r out.1 ≡ true)

  handle-KeptFor :
      (req : Msg) (q : Question) (qs : List Question) (s : Live)
      → req.question ≡ q ∷ qs
      → IsCleanCache w r s
      → KeptFor q (handle w r req q s)
  unfolding handle
  handle-KeptFor req q qs s e k =
      let x = answer-Kept req q qs (counted s) e k in
      elim (Option-cases (static_lookup r q.name)) [
        | inl f ↦ rw (f, handle) (x.0, λ n a. x.1 a)
        | inr (ip, f) ↦ elim (Bool-cases (q.qtype == type_a)) [
          | inl g ↦ rw (f, handle, g) (k, λ n a. absurd (ground (arith, n)))
          | inr g ↦ rw (f, handle, g) (x.0, λ n a. absurd (ground (arith, n)))
        ]
      ]

  if-KeptFor :
      (q : Question) (b : Bool) (x y : Live × Msg)
      → KeptFor q x
      → KeptFor q y
      → KeptFor q (if b then x else y)
  if-KeptFor q true x y p h = p
  if-KeptFor q false x y p h = h

  checked-KeptFor :
      (req : Msg) (q : Question) (qs rest : List Question) (s : Live)
      → req.question ≡ q ∷ qs
      → rest ≡ q ∷ qs
      → IsCleanCache w r s
      → KeptFor q (checked w r (some req) rest s)
  unfolding checked
  checked-KeptFor req q qs rest s e f k =
      subst (λ l. KeptFor q (checked w r (some req) l s)) (sym f) (handle-KeptFor req q qs s e k)

  -- A query leaves a clean cache clean, and its reply is clean where it asks for an address and has no
  -- static record.
  pub resolve_request-KeptFor :
      (req : Msg) (q : Question) (qs : List Question) (s : Live)
      → req.question ≡ q ∷ qs
      → IsCleanCache w r s
      → KeptFor q (resolve_request w r (some req) s)
  unfolding resolve_request
  resolve_request-KeptFor req q qs s e k =
      if-KeptFor q s.stopped _ _ (k, λ n a. server_fail-clean w r req no_answer)
        (checked-KeptFor req q qs req.question (enter s) e e k)
