-- ===== src/Cache/Evict.antt =====
-- Which entry is evicted to make room.
use sentrydns.Base.{
  ℕ, zero, suc, ◌+◌, ◌<◌, ◌≤◌, ◌≡◌, refl, sym, subst, ◌-◌, ◌≢◌, inl, inr, true, false, some, List,
  [], ◌∷◌, Text, Dict, find, delete, length, take, All, Any, arith, Bool-cases, ltb, leb,
}
use sentrydns.Cache.{Entry, Cache, is_empty, scan, sample_size, evict_one}

-- The order of a `range` over the map: each pair is a binding of the map, each binding is visited,
-- and no more than there are.
pub record Iterates (order : List (Text × Entry)) (m : Dict Entry) : Type 0 where
  pub sound : All (λ p. find p.0 m ≡ some p.1) order
  pub complete : (k : Text) (e : Entry) → find k m ≡ some e → Any (λ p. p ≡ (k, e)) order
  pub count : length order ≡ length m

abbrev pub HasKey : Text × Entry → Type 0
HasKey p = p.0 ≢ []

-- The key `k` with the expiry `t` is the best choice among some pairs.
abbrev pub Oldest : ℕ → List (Text × Entry) → Type 0
Oldest t = All (λ p. t ≤ p.1.expires)

pub is_empty-false {ℓ} : {A : Type ℓ} (l : List A) → l ≢ [] → is_empty l ≡ false
is_empty-false [] h = absurd (h refl)
is_empty-false (x ∷ l) h = refl

Oldest-mono : (t u : ℕ) (l : List (Text × Entry)) → t ≤ u → Oldest u l → Oldest t l
Oldest-mono t u [] h o = tt
Oldest-mono t u (p ∷ l) h o = (omega (arith, o.0), Oldest-mono t u l h o.1)

-- What the loop finds from the candidate `key`, bound to `old`, with n + 1 rounds to go.
abbrev pub Finds : Dict Entry → Entry → List (Text × Entry) → Text → Type 0
Finds m old seen k =
    (e : Entry) × (find k m ≡ some e) × (k ≢ []) × (e.expires ≤ old.expires) × Oldest e.expires seen

module _ (m : Dict Entry) (sample : ℕ) where
  pub scan-Finds :
      (n count : ℕ) (order : List (Text × Entry)) (key : Text) (old : Entry)
      → sample ≡ count + suc n
      → All HasKey order
      → All (λ p. find p.0 m ≡ some p.1) order
      → key ≢ []
      → find key m ≡ some old
      → Finds m old (take (suc n) order) (scan sample count order key old.expires)
  unfolding scan
  scan-Finds n count [] key old q hs sound k f = (old, f, k, omega arith, tt)
  scan-Finds zero count ((k', e') ∷ rest) key old q hs sound k f =
      let full : leb sample (count + 1) ≡ true = ground arith in
      let some_key = is_empty-false key k in
      elim (Bool-cases (ltb e'.expires old.expires)) [
        | inl older ↦
            rw (some_key, older, full) (e', sound.0, hs.0, ground arith, (omega arith, tt))
        | inr newer ↦ rw (some_key, newer, full) (old, f, k, omega arith, (ground arith, tt))
      ]
  scan-Finds (suc n) count ((k', e') ∷ rest) key old q hs sound k f =
      let more : leb sample (count + 1) ≡ false = ground arith in
      let some_key = is_empty-false key k in
      elim (Bool-cases (ltb e'.expires old.expires)) [
        | inl older ↦
            let (e, found, named, le, o) =
              scan-Finds n (count + 1) rest k' e' (omega arith) hs.1 sound.1 hs.0 sound.0 in
            rw (some_key, older, more) (e, found, named, ground arith, (le, o))
        | inr newer ↦
            let (e, found, named, le, o) =
              scan-Finds n (count + 1) rest key old (omega arith) hs.1 sound.1 k f in
            rw (some_key, newer, more) (e, found, named, le, (ground arith, o))
      ]

-- The first entry becomes the candidate.
scan_first :
    (sample : ℕ) (k : Text) (e : Entry) (rest : List (Text × Entry))
    → k ≢ []
    → scan sample 0 ((k, e) ∷ rest) [] 0 ≡ scan sample 0 ((k, e) ∷ rest) k e.expires
unfolding scan
scan_first sample k e rest h =
    let same : ltb e.expires e.expires ≡ false = ground arith in rw (is_empty-false k h, same)

-- Where every key has a text and the map is not empty, exactly one entry is dropped, and none of the
-- entries sampled (the first 100 of the iteration at most) expires before it.
pub evict_one-Oldest :
    (c : Cache) (order : List (Text × Entry))
    → Iterates order c.entries
    → All HasKey order
    → 0 < length c.entries
    → (k : Text) × (e : Entry) × (find k c.entries ≡ some e)
      × Oldest e.expires (take (sample_size c) order)
      × (evict_one order c ≡ record c { entries = delete k c.entries })
unfolding evict_one
evict_one-Oldest c [] it hs pos = absurd (ground (arith, it.count))
evict_one-Oldest c ((k, e) ∷ rest) it hs pos =
    let n : ℕ = sample_size c - 1 in
    let size : sample_size c ≡ suc n = ground arith in
    let first = scan_first (sample_size c) k e rest hs.0 in
    let (old, found, named, _, o) =
      scan-Finds c.entries (sample_size c) n 0 ((k, e) ∷ rest) k e (omega arith) hs it.sound hs.0
        it.sound.0 in
    (
      scan (sample_size c) 0 ((k, e) ∷ rest) k e.expires,
      old,
      found,
      subst (λ j. Oldest old.expires (take j ((k, e) ∷ rest))) (sym size) o,
      rw (first, is_empty-false _ named),
    )
