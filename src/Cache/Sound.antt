-- ===== src/Cache/Sound.antt =====
-- No operation of the cache binds a key twice, which a Go map cannot do.
use sentrydns.Base.{
  refl, ℕ, ◌≢◌, Option, none, some, List, [], ◌&&◌, ◌==◌, Text, Dict, Distinct, insert-Distinct,
  delete-Distinct, Distinct-sound, find-Any, inl, inr, Bool-cases, Option-cases, ltb, leb, length,
  find,
}
use sentrydns.Dns.{Msg, DnsLib}
use sentrydns.Cache.{
  Entry, Cache, is_empty, sample_size, scan, evict_one, drop_expired, make_key, get, store, set,
  is_cacheable, response_min_ttl,
}
use sentrydns.Cache.Evict.{Iterates}
use sentrydns.Cache.Bounds.{IsValid, get-IsValid, set-IsValid}

-- The cache's invariant, and no key bound twice.
pub record IsSound (c : Cache) : Type 0 where
  pub valid : IsValid c
  pub distinct : Distinct c.entries

-- The order in which a map is held is one in which a `range` may visit it.
pub self_order : (m : Dict Entry) → Distinct m → Iterates m m
self_order m d = record {
  sound = Distinct-sound m d;
  complete = λ k e h. find-Any k m e h;
  count = refl;
}

evict_one-Distinct :
    (order : List (Text × Entry)) (c : Cache)
    → Distinct c.entries
    → Distinct (evict_one order c).entries
unfolding evict_one
evict_one-Distinct order c d = elim (Bool-cases (is_empty (scan (sample_size c) 0 order [] 0))) [
  | inl e ↦ rw e d
  | inr e ↦ rw e (delete-Distinct _ c.entries d)
]

drop_expired-Distinct :
    (now : ℕ) (key : Text) (c : Cache)
    → Distinct c.entries
    → Distinct (drop_expired now key c).entries
unfolding drop_expired
drop_expired-Distinct now key c d = elim (Option-cases (find key c.entries)) [
  | inl e ↦ rw (e, drop_expired) d
  | inr (old, e) ↦ elim (Bool-cases (ltb old.expires now)) [
    | inl past ↦ rw (e, drop_expired, past) (delete-Distinct key c.entries d)
    | inr live ↦ rw (e, drop_expired, live) d
  ]
]

get-Distinct :
    (lib : DnsLib) (now later : ℕ) (c : Cache) (req : Msg)
    → Distinct c.entries
    → Distinct (get lib now later c req).0.entries
unfolding get
get-Distinct lib now later c req d = elim (Bool-cases (is_empty (make_key lib (some req)))) [
  | inl e ↦ rw e d
  | inr e ↦ elim (Option-cases (find (make_key lib (some req)) c.entries)) [
    | inl f ↦ rw (e, f, get) d
    | inr (old, f) ↦ elim (Bool-cases (ltb now old.expires)) [
      | inl l ↦ rw (e, f, get, l) d
      | inr l ↦ rw (e, f, get, l) (drop_expired-Distinct later (make_key lib (some req)) c d)
    ]
  ]
]

store-Distinct :
    (order : List (Text × Entry)) (now : ℕ) (key : Text) (ttl : ℕ) (resp : Msg) (c : Cache)
    → Distinct c.entries
    → Distinct (store order now key ttl resp c).entries
unfolding store
store-Distinct order now key ttl resp c d =
    elim (Bool-cases (ltb 0 c.max_entries && leb c.max_entries (length c.entries))) [
      | inl full ↦ rw full (insert-Distinct key _ _ (evict_one-Distinct order c d))
      | inr spare ↦ rw spare (insert-Distinct key _ c.entries d)
    ]

set-Distinct :
    (lib : DnsLib) (order : List (Text × Entry)) (now : ℕ) (c : Cache) (req : Msg)
    (resp : Option Msg)
    → Distinct c.entries
    → Distinct (set lib order now c req resp).entries
unfolding set
set-Distinct lib order now c req none d = d
set-Distinct lib order now c req (some resp) d = elim (Bool-cases (is_cacheable resp)) [
  | inl good ↦ elim (Bool-cases (response_min_ttl resp == 0)) [
    | inl never ↦ rw (good, never) d
    | inr kept ↦ rw (good, kept) (store-Distinct order now _ _ resp c d)
  ]
  | inr bad ↦ rw bad d
]

pub get-IsSound :
    (lib : DnsLib) (now later : ℕ) (c : Cache) (req : Msg)
    → IsSound c
    → IsSound (get lib now later c req).0
get-IsSound lib now later c req s = record {
  valid = get-IsValid lib now later c req s.valid;
  distinct = get-Distinct lib now later c req s.distinct;
}

pub set-IsSound :
    (lib : DnsLib) (order : List (Text × Entry)) (now : ℕ) (c : Cache) (req : Msg)
    (resp : Option Msg)
    → Iterates order c.entries
    → make_key lib (some req) ≢ []
    → IsSound c
    → IsSound (set lib order now c req resp)
set-IsSound lib order now c req resp it k s = record {
  valid = set-IsValid lib order now c req resp it k s.valid;
  distinct = set-Distinct lib order now c req resp s.distinct;
}
