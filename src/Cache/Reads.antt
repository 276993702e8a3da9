-- ===== src/Cache/Reads.antt =====
-- What a lookup returns after a store, after a sweep, and by itself.
use sentrydns.Base.{
  ℕ, ◌+◌, ◌*◌, ◌<◌, ◌≤◌, ◌≡◌, refl, sym, ◌∙◌, subst, ◌≢◌, ◌⊎◌, inl, inr, true, false, Option, none,
  some, List, [], ◌∷◌, Text, Dict, find, delete, All, Any, here, there, arith, if◌then◌else◌,
  Bool-cases, ltb, ◌==◌, text_eq, text_eq_iff, text_eq_refl, find-insert, find-delete,
}
use sentrydns.Dns.{Msg, DnsLib}
use sentrydns.Cache.{
  Entry, Cache, make_key, get, set, sweep, sweep_loop, store, evict_one, response_min_ttl, clamp,
  is_cacheable, second,
}
use sentrydns.Cache.Evict.{Iterates, is_empty-false}

-- The answer of a lookup at the time `now` under the id `id`, from the binding that it finds.
abbrev pub answer_from : ℕ → ℕ → Option Entry → Option Msg
answer_from now id none = none
answer_from now id (some e) = if ltb now e.expires then some (record e.msg { id = id }) else none

abbrev pub answer_at : DnsLib → ℕ → Dict Entry → Msg → Option Msg
answer_at lib now m req = answer_from now req.id (find (make_key lib (some req)) m)

-- A lookup returns a stored answer only before it expires, under the id of the query, and always
-- then; otherwise it returns nothing.
get-answer_at :
    (lib : DnsLib) (now later : ℕ) (c : Cache) (req : Msg)
    → make_key lib (some req) ≢ []
    → (get lib now later c req).1 ≡ answer_at lib now c.entries req
unfolding get
get-answer_at lib now later c req h = ground (arith, is_empty-false (make_key lib (some req)) h)

-- An answer that `Set` accepts: a success with records whose least time to live is not 0.
abbrev pub Accepted : Msg → Type 0
Accepted resp = (is_cacheable resp ≡ true) × ((response_min_ttl resp == 0) ≡ false)

abbrev pub expiry : Cache → ℕ → Msg → ℕ
expiry c now resp = now + clamp c (response_min_ttl resp) * second

find-set :
    (lib : DnsLib) (order : List (Text × Entry)) (now : ℕ) (c : Cache) (req resp : Msg) (key : Text)
    → Accepted resp
    → make_key lib (some req) ≡ key
    → find key (set lib order now c req (some resp)).entries
      ≡ some (record { msg = resp; expires = expiry c now resp })
unfolding set store
find-set lib order now c req resp key (a, t) e = rw (a, t, e, find-insert, text_eq_refl)

-- Right after an accepted answer is stored, and until it expires, every lookup with the same key
-- returns it under the lookup's own id; from then on the lookup returns nothing. The limit on the
-- number of entries does not matter.
pub get-set :
    (lib : DnsLib) (order : List (Text × Entry)) (now t later : ℕ) (c : Cache) (req resp req' : Msg)
    → Accepted resp
    → make_key lib (some req') ≢ []
    → make_key lib (some req) ≡ make_key lib (some req')
    → (get lib t later (set lib order now c req (some resp)) req').1
      ≡ (if ltb t (expiry c now resp) then some (record resp { id = req'.id }) else none)
get-set lib order now t later c req resp req' a k e = rw (
  get-answer_at lib t later (set lib order now c req (some resp)) req' k,
  find-set lib order now c req resp (make_key lib (some req')) a e,
)

-- With a sound configuration an accepted answer is served for at least the minimum time to live and
-- never longer than the maximum, whatever its own records say.
pub get-set_lifetime :
    (lib : DnsLib) (order : List (Text × Entry)) (now t later : ℕ) (c : Cache) (req resp req' : Msg)
    → Accepted resp
    → make_key lib (some req') ≢ []
    → make_key lib (some req) ≡ make_key lib (some req')
    → c.min_ttl ≤ c.max_ttl
    → let answer = (get lib t later (set lib order now c req (some resp)) req').1 in
      (t < now + c.min_ttl * second → answer ≡ some (record resp { id = req'.id }))
      × (now + c.max_ttl * second ≤ t → answer ≡ none)
get-set_lifetime lib order now t later c req resp req' a k e le = (
  λ h. rw (get-set lib order now t later c req resp req' a k e) (ground arith),
  λ h. rw (get-set lib order now t later c req resp req' a k e) (ground arith),
)

find-set_other :
    (lib : DnsLib) (order : List (Text × Entry)) (now : ℕ) (c : Cache) (req : Msg)
    (resp : Option Msg) (key : Text)
    → make_key lib (some req) ≢ key
    → (find key (set lib order now c req resp).entries ≡ find key c.entries)
      ⊎ (find key (set lib order now c req resp).entries ≡ none)
unfolding set store evict_one
find-set_other lib order now c req none key h = inl refl
find-set_other lib order now c req (some resp) key h =
    grind (arith, find-insert, find-delete, text_eq_iff)

-- Storing an answer under one key leaves the answer under any other key as it was, or evicts it.
get-set_other :
    (lib : DnsLib) (order : List (Text × Entry)) (now t later : ℕ) (c : Cache) (req req' : Msg)
    (resp : Option Msg)
    → make_key lib (some req') ≢ []
    → make_key lib (some req) ≢ make_key lib (some req')
    → let after = (get lib t later (set lib order now c req resp) req').1 in
      (after ≡ (get lib t later c req').1) ⊎ (after ≡ none)
get-set_other lib order now t later c req req' resp k e =
    elim (find-set_other lib order now c req resp (make_key lib (some req')) e) [
      | inl same ↦
          inl (rw (get-answer_at lib t later _ req' k, get-answer_at lib t later c req' k, same))
      | inr gone ↦ inr (rw (get-answer_at lib t later _ req' k, gone))
    ]

-- What a sweep does to one key.
find-sweep_loop :
    (now : ℕ) (m : Dict Entry) (order : List (Text × Entry)) (k : Text) (m' : Dict Entry)
    → All (λ p. find p.0 m ≡ some p.1) order
    → (find k (sweep_loop now order m') ≡ find k m')
      ⊎ ((find k (sweep_loop now order m') ≡ none)
          × ((e : Entry) × (find k m ≡ some e) × (e.expires < now)))
unfolding sweep_loop
find-sweep_loop now m [] k m' s = inl refl
find-sweep_loop now m ((j, e) ∷ rest) k m' s = elim (Bool-cases (ltb e.expires now)) [
  | inl past ↦ elim (find-sweep_loop now m rest k (delete j m') s.1) [
    | inl same ↦ elim (Bool-cases (text_eq j k)) [
      | inl hit ↦ inr (
        rw past (same ∙ rw (find-delete, hit)),
        (e, subst (λ i. find i m ≡ some e) ((text_eq_iff j k).0 hit) s.0, ground arith),
      )
      | inr other ↦ inl (rw past (same ∙ rw (find-delete, other)))
    ]
    | inr (gone, found) ↦ inr (rw past gone, found)
  ]
  | inr live ↦ rw live (find-sweep_loop now m rest k m' s.1)
]

-- A sweep at the time `now` changes no lookup at that time or later.
pub get-sweep :
    (lib : DnsLib) (order : List (Text × Entry)) (now t later : ℕ) (c : Cache) (req : Msg)
    → Iterates order c.entries
    → make_key lib (some req) ≢ []
    → now ≤ t
    → (get lib t later (sweep now order c) req).1 ≡ (get lib t later c req).1
get-sweep lib order now t later c req it k le =
    rw (get-answer_at lib t later (sweep now order c) req k) (
      rw (get-answer_at lib t later c req k) (
        unfold sweep in
        (elim (find-sweep_loop now c.entries order (make_key lib (some req)) c.entries it.sound) [
          | inl same ↦ rw same
          | inr (gone, (e, found, past)) ↦ rw (gone, found) (ground arith)
        ])))

stays_none :
    (now : ℕ) (order : List (Text × Entry)) (k : Text) (m : Dict Entry)
    → find k m ≡ none
    → find k (sweep_loop now order m) ≡ none
unfolding sweep_loop
stays_none now [] k m h = h
stays_none now ((j, e) ∷ rest) k m h = elim (Bool-cases (ltb e.expires now)) [
  | inl past ↦ rw past (stays_none now rest k (delete j m) (ground (arith, find-delete j k m)))
  | inr live ↦ rw live (stays_none now rest k m h)
]

swept :
    (now : ℕ) (order : List (Text × Entry)) (k : Text) (e : Entry) (m : Dict Entry)
    → Any (λ p. p ≡ (k, e)) order
    → e.expires < now
    → find k (sweep_loop now order m) ≡ none
unfolding sweep_loop
swept now [] k e m x h = elim x [ ]
swept now ((j, d) ∷ rest) k e m (here q) h =
    let past : ltb d.expires now ≡ true = ground arith in
    let same : text_eq j k ≡ true = (text_eq_iff j k).1 (ground arith) in
    rw past (stays_none now rest k (delete j m) (rw (find-delete, same)))
swept now ((j, d) ∷ rest) k e m (there a) h = swept now rest k e _ a h

-- A sweep over all entries leaves only entries that have not expired, each as it was before.
sweep-live :
    (order : List (Text × Entry)) (now : ℕ) (c : Cache) (k : Text) (e : Entry)
    → Iterates order c.entries
    → find k (sweep now order c).entries ≡ some e
    → (now ≤ e.expires) × (find k c.entries ≡ some e)
unfolding sweep
sweep-live order now c k e it h = elim (find-sweep_loop now c.entries order k c.entries it.sound) [
  | inl same ↦
      let found : find k c.entries ≡ some e = sym same ∙ h in
      elim (Bool-cases (ltb e.expires now)) [
        | inl past ↦
            let gone = swept now order k e c.entries (it.complete k e found) (ground arith) in
            absurd (ground arith)
        | inr live ↦ (ground arith, found)
      ]
  | inr (gone, _) ↦ absurd (ground arith)
]
