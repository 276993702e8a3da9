-- ===== src/Cache/Entries.antt =====
-- What holds of every entry of the cache holds of them after each operation, if it holds of a new one.
use sentrydns.Base.{
  arith, ℕ, ◌≡◌, some, List, [], ◌&&◌, ◌==◌, ltb, leb, length, Text, All, All-insert, All-delete,
  find-All, find, Bool-cases, Option-cases, inl, inr,
}
use sentrydns.Dns.{Msg, DnsLib}
use sentrydns.Cache.{
  Entry, Cache, is_empty, scan, sample_size, evict_one, drop_expired, get, store, set, make_key,
  is_cacheable, response_min_ttl,
}

module _ {κ} (P : Text × Entry → Type κ) where
  drop_expired-All :
      (now : ℕ) (key : Text) (c : Cache) → All P c.entries → All P (drop_expired now key c).entries
  unfolding drop_expired
  drop_expired-All now key c a = elim (Option-cases (find key c.entries)) [
    | inl e ↦ rw (e, drop_expired) a
    | inr (old, e) ↦ elim (Bool-cases (ltb old.expires now)) [
      | inl past ↦ rw (e, drop_expired, past) (All-delete P key c.entries a)
      | inr live ↦ rw (e, drop_expired, live) a
    ]
  ]

  pub get-All :
      (lib : DnsLib) (now later : ℕ) (c : Cache) (req : Msg)
      → All P c.entries
      → All P (get lib now later c req).0.entries
  unfolding get
  get-All lib now later c req a = elim (Bool-cases (is_empty (make_key lib (some req)))) [
    | inl e ↦ rw e a
    | inr e ↦ elim (Option-cases (find (make_key lib (some req)) c.entries)) [
      | inl f ↦ rw (e, f, get) a
      | inr (old, f) ↦ elim (Bool-cases (ltb now old.expires)) [
        | inl l ↦ rw (e, f, get, l) a
        | inr l ↦ rw (e, f, get, l) (drop_expired-All later (make_key lib (some req)) c a)
      ]
    ]
  ]

  -- A reply from the cache is the message of an entry with this key.
  pub get-entry :
      (lib : DnsLib) (now later : ℕ) (c : Cache) (req msg : Msg)
      → All P c.entries
      → (get lib now later c req).1 ≡ some msg
      → (e : Entry) × P (make_key lib (some req), e) × (msg ≡ record e.msg { id = req.id })
  unfolding get
  get-entry lib now later c req msg a h = elim (Bool-cases (is_empty (make_key lib (some req)))) [
    | inl e ↦ absurd (ground (arith, e, h))
    | inr e ↦ elim (Option-cases (find (make_key lib (some req)) c.entries)) [
      | inl f ↦ absurd (ground (arith, e, f, h))
      | inr (old, f) ↦ elim (Bool-cases (ltb now old.expires)) [
        | inl l ↦
            (old, find-All P (make_key lib (some req)) c.entries a f, ground (arith, e, f, l, h))
        | inr l ↦ absurd (ground (arith, e, f, l, h))
      ]
    ]
  ]

  evict_one-All :
      (order : List (Text × Entry)) (c : Cache)
      → All P c.entries
      → All P (evict_one order c).entries
  unfolding evict_one
  evict_one-All order c a = elim (Bool-cases (is_empty (scan (sample_size c) 0 order [] 0))) [
    | inl e ↦ rw e a
    | inr e ↦ rw e (All-delete P _ c.entries a)
  ]

  pub set-All :
      (lib : DnsLib) (order : List (Text × Entry)) (now : ℕ) (c : Cache) (req resp : Msg)
      → ((expires : ℕ) → P (make_key lib (some req), record { msg = resp; expires = expires }))
      → All P c.entries
      → All P (set lib order now c req (some resp)).entries
  unfolding set store
  set-All lib order now c req resp p a = elim (Bool-cases (is_cacheable resp)) [
    | inr bad ↦ rw bad a
    | inl good ↦ elim (Bool-cases (response_min_ttl resp == 0)) [
      | inl never ↦ rw (good, never) a
      | inr kept ↦ elim (Bool-cases (ltb 0 c.max_entries && leb c.max_entries (length c.entries))) [
        | inl full ↦ rw (good, kept, full) (All-insert P _ _ _ (p _) (evict_one-All order c a))
        | inr spare ↦ rw (good, kept, spare) (All-insert P _ _ _ (p _) a)
      ]
    ]
  ]
