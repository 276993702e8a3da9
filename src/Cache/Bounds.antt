-- ===== src/Cache/Bounds.antt =====
-- The cache's invariant: it never outgrows its limit, and it holds only successful answers.
use sentrydns.Base.{
  ℕ, ◌+◌, ◌*◌, ◌<◌, ◌≤◌, ◌≡◌, refl, ◌≢◌, inl, inr, true, false, Option, none, some, List, [], ◌∷◌,
  Text, Dict, find, insert, delete, length, All, arith, Bool-cases, Option-cases, ltb, leb, ◌&&◌,
  ◌==◌, length-delete, length-delete_le, find-All, length-insert_le, All-insert, All-delete,
}
use sentrydns.Dns.{Msg, DnsLib, rcode_success}
use sentrydns.Cache.{
  Entry, Cache, is_empty, make_key, get, set, sweep, sweep_loop, store, drop_expired,
  response_min_ttl, is_cacheable,
}
use sentrydns.Cache.Evict.{Iterates, HasKey, evict_one-Oldest}

-- A binding that `Set` may have made.
pub record IsGood (p : Text × Entry) : Type 0 where
  pub named : p.0 ≢ []
  pub succeeded : p.1.msg.rcode ≡ rcode_success
  pub answered : p.1.msg.answer ≢ []

pub record IsValid (c : Cache) : Type 0 where
  pub bounded : 0 < c.max_entries → length c.entries ≤ c.max_entries
  pub good : All IsGood c.entries

delete-IsValid :
    (k : Text) (c : Cache) → IsValid c → IsValid (record c { entries = delete k c.entries })
delete-IsValid k c v = record {
  bounded = λ pos. omega (arith, v.bounded pos, length-delete_le k c.entries);
  good = All-delete IsGood k c.entries v.good;
}

drop_expired-IsValid :
    (now : ℕ) (key : Text) (c : Cache) → IsValid c → IsValid (drop_expired now key c)
unfolding drop_expired
drop_expired-IsValid now key c v = elim (Option-cases (find key c.entries)) [
  | inl e ↦ rw (e, drop_expired) v
  | inr (old, e) ↦ elim (Bool-cases (ltb old.expires now)) [
    | inl past ↦ rw (e, drop_expired, past) (delete-IsValid key c v)
    | inr live ↦ rw (e, drop_expired, live) v
  ]
]

HasKey-order :
    (m : Dict Entry) (order : List (Text × Entry))
    → All IsGood m
    → All (λ p. find p.0 m ≡ some p.1) order
    → All HasKey order
HasKey-order m [] g h = tt
HasKey-order m (p ∷ order) g h = ((find-All IsGood p.0 m g h.0).named, HasKey-order m order g h.1)

insert-IsValid :
    (k : Text) (e : Entry) (c : Cache)
    → IsGood (k, e)
    → All IsGood c.entries
    → (0 < c.max_entries → length c.entries + 1 ≤ c.max_entries)
    → IsValid (record c { entries = insert k e c.entries })
insert-IsValid k e c g v room = record {
  bounded = λ pos. omega (arith, room pos, length-insert_le k e c.entries);
  good = All-insert IsGood k e c.entries g v;
}

is_empty-ne {ℓ} : {A : Type ℓ} (l : List A) → is_empty l ≡ false → l ≢ []
is_empty-ne [] h = absurd (ground arith)
is_empty-ne (x ∷ l) h = λ e. ground arith

cacheable-IsGood :
    (k : Text) (expires : ℕ) (resp : Msg)
    → k ≢ []
    → is_cacheable resp ≡ true
    → IsGood (k, record { msg = resp; expires = expires })
cacheable-IsGood k expires resp named h = record {
  named = named;
  succeeded = ground arith;
  answered = is_empty-ne resp.answer (ground arith);
}

store-IsValid :
    (order : List (Text × Entry)) (now : ℕ) (key : Text) (ttl : ℕ) (resp : Msg) (c : Cache)
    → Iterates order c.entries
    → IsGood (key, record { msg = resp; expires = now + ttl * 1000000000 })
    → IsValid c
    → IsValid (store order now key ttl resp c)
unfolding store
store-IsValid order now key ttl resp c it g v =
    elim (Bool-cases (ltb 0 c.max_entries && leb c.max_entries (length c.entries))) [
      | inl full ↦
          let hs = HasKey-order c.entries order v.good it.sound in
          let (k, e, found, _, q) = evict_one-Oldest c order it hs (ground arith) in
          let room : Cache = record c { entries = delete k c.entries } in
          let gone : length room.entries + 1 ≤ length c.entries =
            length-delete k c.entries (rw found refl) in
          rw (full, q)
            (insert-IsValid key _ room g (delete-IsValid k c v).good
              (λ pos. omega (arith, v.bounded pos)))
      | inr spare ↦ rw spare (insert-IsValid key _ c g v.good (λ pos. ground arith))
    ]

pub get-IsValid :
    (lib : DnsLib) (now later : ℕ) (c : Cache) (req : Msg)
    → IsValid c
    → IsValid (get lib now later c req).0
unfolding get
get-IsValid lib now later c req v =
    ground (arith, drop_expired-IsValid later (make_key lib (some req)) c v)

pub set-IsValid :
    (lib : DnsLib) (order : List (Text × Entry)) (now : ℕ) (c : Cache) (req : Msg)
    (resp : Option Msg)
    → Iterates order c.entries
    → make_key lib (some req) ≢ []
    → IsValid c
    → IsValid (set lib order now c req resp)
unfolding set
set-IsValid lib order now c req none it k v = v
set-IsValid lib order now c req (some resp) it k v = elim (Bool-cases (is_cacheable resp)) [
  | inl good ↦ elim (Bool-cases (response_min_ttl resp == 0)) [
    | inl never ↦ rw (good, never) v
    | inr kept ↦
        rw (good, kept)
          (store-IsValid order now (make_key lib (some req)) _ resp c it
            (cacheable-IsGood _ _ resp k good) v)
  ]
  | inr bad ↦ rw bad v
]

-- One use of the cache by its clients or by its own timer: a lookup, a store that may evict, or a
-- sweep over the entries in the order of some iteration.
pub data Step (lib : DnsLib) : Cache → Cache → Type 0 where
  getting : (c : Cache) (now later : ℕ) (req : Msg) → Step lib c (get lib now later c req).0
  setting :
      (c : Cache) (order : List (Text × Entry)) (now : ℕ) (req : Msg) (resp : Option Msg)
      → Iterates order c.entries
      → make_key lib (some req) ≢ []
      → Step lib c (set lib order now c req resp)
  sweeping : (c : Cache) (now : ℕ) (order : List (Text × Entry)) → Step lib c (sweep now order c)

pub data Reach (lib : DnsLib) (c : Cache) : Cache → Type 0 where
  start : Reach lib c c
  next : {d e : Cache} → Reach lib c d → Step lib d e → Reach lib c e

sweep_loop-IsValid :
    (now : ℕ) (order : List (Text × Entry)) (c : Cache)
    → IsValid c
    → IsValid (record c { entries = sweep_loop now order c.entries })
unfolding sweep_loop
sweep_loop-IsValid now [] c v = v
sweep_loop-IsValid now ((k, e) ∷ rest) c v = elim (Bool-cases (ltb e.expires now)) [
  | inl past ↦ rw past (
      sweep_loop-IsValid now rest (record c { entries = delete k c.entries })
        (delete-IsValid k c v))
  | inr live ↦ rw live (sweep_loop-IsValid now rest c v)
]

Step-IsValid : {lib : DnsLib} {c d : Cache} → Step lib c d → IsValid c → IsValid d
unfolding sweep
Step-IsValid {lib} (getting c now later req) v = get-IsValid lib now later c req v
Step-IsValid {lib} (setting c order now req resp it k) v =
    set-IsValid lib order now c req resp it k v
Step-IsValid (sweeping c now order) v = sweep_loop-IsValid now order c v

-- However lookups, stores and sweeps follow one another, a cache with a positive limit never holds
-- more entries than the limit, and every entry has a key and is a successful answer with records.
pub Reach-IsValid : {lib : DnsLib} {c d : Cache} → IsValid c → Reach lib c d → IsValid d
Reach-IsValid v start = v
Reach-IsValid v (next r st) = Step-IsValid st (Reach-IsValid v r)
