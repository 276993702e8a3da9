-- ===== src/Resolver/Keeps.antt =====
-- What a query does to the store: it keeps any predicate on stores that survives the removal of the
-- queried domain, and its learning from a reply of the Iranian upstream.
use sentrydns.Base.{
  arith, refl, inl, inr, ℕ, ◌≡◌, Bool, true, Option, none, some, List, [], ◌∷◌, ◌==◌, Text,
  Bool-cases, any, sym, subst, ◌⊎◌, ◌∙◌,
}
use sentrydns.Dns.{Msg, is_address_type, rcode_name_error}
use sentrydns.Store
use sentrydns.Classifier
use sentrydns.Resolver.{Resolver, Live, World, Event, from_iran, from_global, timed_out, cancelled}
use sentrydns.Resolver.Filter.{is_iran_tld, is_prefer_iran, extract_ips}
use sentrydns.Resolver.Learning.{
  Channels, Received, is_clean_reply, is_iranian_reply, learn, learn_each, iran_first, global_first,
  run_iran, proceed, go_on, settle, resolve_with_learning,
}
use sentrydns.Resolver.Route.{accept_learned, via_tld, via_prefer_iran, via_store, resolve}
use sentrydns.Resolver.Answered.{holds, Trusted, query_iran_dns-holds}
use sentrydns.Resolver.Clean.{waits}
use sentrydns.Resolver.Stored.{
  query-store, query_iran_dns-store, kept_iran, receive-kept_iran, start_global-store,
  run_global-store, run_iran-store, neither-store, ask_global-store, accept-store,
  accept_preferred-store,
}

iran_first-store :
    (w : World) (r : Resolver) (req : Msg) (domain : Text) (qtype : ℕ) (ch : Channels) (msg : Msg)
    (s : Live)
    → ((iran_first w r req domain qtype ch msg s).0.store ≡ s.store)
      ⊎ ((is_iranian_reply w r msg ≡ true)
          × ((iran_first w r req domain qtype ch msg s).0.store
              ≡ Store.add (w.today s.tick) domain s.store))
unfolding iran_first
iran_first-store w r req domain qtype ch msg s = elim (Bool-cases (is_iranian_reply w r msg)) [
  | inl e ↦ elim (Bool-cases (is_address_type qtype)) [
    | inl q ↦ inr (e, ground arith)
    | inr q ↦ inl (ground arith)
  ]
  | inr e ↦ inl (ground arith)
]

-- Learning from a late reply of the Iranian upstream, if it comes at all.
global_first-store :
    (w : World) (r : Resolver) (domain : Text) (ch : Channels) (msg : Msg) (s : Live)
    → ((global_first w r domain ch msg s).0.store ≡ s.store)
      ⊎ ((iran_msg : Msg) × (is_clean_reply w r iran_msg ≡ true)
          × (ch.iran_ch ≡ some (some iran_msg))
          × ((global_first w r domain ch msg s).0.store
              ≡ (learn_each w r domain (extract_ips w.net iran_msg) s).store))
unfolding global_first
global_first-store w r domain ch msg s = late (w.event s.tick) ch.iran_ch refl refl
  where
    late :
        (e : Event) (o : Option (Option Msg))
        → w.event s.tick ≡ e
        → ch.iran_ch ≡ o
        → ((global_first w r domain ch msg s).0.store ≡ s.store)
          ⊎ ((iran_msg : Msg) × (is_clean_reply w r iran_msg ≡ true)
              × (ch.iran_ch ≡ some (some iran_msg))
              × ((global_first w r domain ch msg s).0.store
                  ≡ (learn_each w r domain (extract_ips w.net iran_msg) s).store))
    late from_iran (some (some m)) a b = elim (Bool-cases (is_clean_reply w r m)) [
      | inl c ↦ inr (m, c, b, ground arith)
      | inr c ↦ inl (ground arith)
    ]
    late from_iran (some none) a b = inl (ground arith)
    late from_iran none a b = inl (ground arith)
    late from_global o a b = inl (ground arith)
    late timed_out o a b = inl (ground arith)
    late cancelled o a b = inl (ground arith)

learnable :
    (w : World) (r : Resolver) (msg : Msg)
    → is_clean_reply w r msg ≡ true
    → any (Classifier.is_iran w.net r.classifier) (extract_ips w.net msg) ≡ true
    → is_iranian_reply w r msg ≡ true
unfolding is_iranian_reply
learnable w r msg c i = ground arith

module _ (w : World) (r : Resolver) (domain : Text) (K : Store.Store → Type 0) (p : Msg → Bool)
    (learns : (msg : Msg)
      → p msg ≡ true
      → is_iranian_reply w r msg ≡ true
      → (today : Text) (st : Store.Store) → K st
      → K (Store.add today domain st))
    (removes : (st : Store.Store) → K st → K (Store.remove domain st))
    (iran : Trusted w r p r.iran_dns) where
  learn_each-keeps :
      (ips : List Text) (s : Live)
      → (any (Classifier.is_iran w.net r.classifier) ips ≡ true
          → (today : Text) (st : Store.Store) → K st
          → K (Store.add today domain st))
      → K s.store
      → K (learn_each w r domain ips s).store
  unfolding learn_each
  learn_each-keeps [] s h k = k
  learn_each-keeps (ip ∷ ips) s h k = elim (Bool-cases (Classifier.is_iran w.net r.classifier ip)) [
    | inl e ↦
        rw (e, learn_each)
          (learn_each-keeps ips (learn w domain s) (λ a. h (ground arith))
            (h (ground arith) (w.today s.tick) s.store k))
    | inr e ↦ rw (e, learn_each) (learn_each-keeps ips s (λ a. h (ground arith)) k)
  ]

  iran_first-keeps :
      (req : Msg) (qtype : ℕ) (ch : Channels) (msg : Msg) (s : Live)
      → p msg ≡ true
      → K s.store
      → K (iran_first w r req domain qtype ch msg s).0.store
  iran_first-keeps req qtype ch msg s h k = elim (iran_first-store w r req domain qtype ch msg s) [
    | inl e ↦ subst K (sym e) k
    | inr e ↦ subst K (sym e.1) (learns msg h e.0 (w.today s.tick) s.store k)
  ]

  global_first-keeps :
      (ch : Channels) (msg : Msg) (s : Live)
      → waits p ch.iran_ch ≡ true
      → K s.store
      → K (global_first w r domain ch msg s).0.store
  global_first-keeps ch msg s h k = elim (global_first-store w r domain ch msg s) [
    | inl e ↦ subst K (sym e) k
    | inr (iran_msg, c, got, e) ↦ subst K (sym e) (
        learn_each-keeps (extract_ips w.net iran_msg) s
          (λ i. learns iran_msg (ground arith) (learnable w r iran_msg c i)) k)
  ]

  proceed-keeps :
      (req : Msg) (qtype : ℕ) (need_global : Bool) (ch : Channels)
      (iran_msg global_msg : Option Msg) (s : Live)
      → waits p ch.iran_ch ≡ true
      → holds p iran_msg ≡ true
      → K s.store
      → K (proceed w r req domain qtype need_global ch iran_msg global_msg s).0.store
  unfolding proceed
  proceed-keeps req qtype need_global ch (some i) g s c h k = iran_first-keeps req qtype ch i s h k
  proceed-keeps req qtype need_global ch none (some g) s c h k = global_first-keeps ch g s c k
  proceed-keeps req qtype need_global ch none none s c h k =
      subst K (sym (neither-store w r req need_global s)) k

  go_on-keeps :
      (req : Msg) (qtype : ℕ) (need_global : Bool) (o : Option (Channels × Received)) (s : Live)
      → kept_iran p o ≡ true
      → K s.store
      → K (go_on w r req domain qtype need_global o s).0.store
  unfolding go_on
  go_on-keeps req qtype need_global none s h k = k
  go_on-keeps req qtype need_global (some (ch, got)) s h k =
      proceed-keeps req qtype need_global ch got.iran_msg got.global_msg s (ground arith)
        (ground arith) k

  run_iran-waits :
      (req : Msg) (iran_open : Bool) (s : Live) → waits p (run_iran w r req iran_open s).1 ≡ true
  unfolding run_iran
  run_iran-waits req iran_open s = let y = query_iran_dns-holds w r p req s iran in ground arith

  pub resolve_with_learning-keeps :
      (req : Msg) (qtype : ℕ) (s : Live)
      → K s.store
      → K (resolve_with_learning w r req qtype domain s).0.store
  unfolding resolve_with_learning settle
  resolve_with_learning-keeps req qtype s k =
      go_on-keeps req qtype _ _ _ (receive-kept_iran p _ _ _ (run_iran-waits req _ _)) (
        subst K
          (sym
            (run_iran-store w r req _ _ ∙ run_global-store w r req _ _ ∙ start_global-store w _ s))
          k)

  accept_learned-keeps :
      (req : Msg) (qtype : ℕ) (resp : Option Msg) (s : Live)
      → K s.store
      → K (accept_learned w r req qtype domain resp s).0.store
  unfolding accept_learned
  accept_learned-keeps req qtype none s k = subst K (sym (ask_global-store w r req s)) k
  accept_learned-keeps req qtype (some resp) s k =
      elim (Bool-cases (resp.rcode == rcode_name_error)) [
        | inl e ↦ rw e (
            resolve_with_learning-keeps req qtype (record s { store = Store.remove domain s.store })
              (removes s.store k))
        | inr e ↦ rw e (subst K (sym (accept-store w r req (some resp) s)) k)
      ]

  pub resolve-keeps :
      (req : Msg) (qtype : ℕ) (s : Live) → K s.store → K (resolve w r req qtype domain s).0.store
  unfolding resolve via_tld via_prefer_iran via_store
  resolve-keeps req qtype s k = elim (Bool-cases (is_iran_tld r domain)) [
    | inl i ↦ rw i (subst K (sym (accept-store w r req _ _ ∙ query_iran_dns-store w r req _)) k)
    | inr i ↦ elim (Bool-cases (is_prefer_iran r domain)) [
      | inl j ↦
          rw (i, j)
            (subst K (sym (accept_preferred-store w r req _ _ ∙ query_iran_dns-store w r req _)) k)
      | inr j ↦ elim (Bool-cases (Store.is_iran s.store domain)) [
        | inl l ↦
            rw (i, j, l)
              (accept_learned-keeps req qtype _ _
                (subst K (sym (query-store w r r.iran_dns req _)) k))
        | inr l ↦ rw (i, j, l) (resolve_with_learning-keeps req qtype _ k)
      ]
    ]
  ]
