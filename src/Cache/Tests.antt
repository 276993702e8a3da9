-- ===== src/Cache/Tests.antt =====
-- Runs of the cache, and its theorems at a cache with two entries.
use sentrydns.Base.{
  ℕ, ◌+◌, ◌*◌, ◌≡◌, refl, ◌≢◌, ◌↔◌, Bool, true, false, none, some, [], ◌∷◌, Text, codes, find,
  insert, delete, text_eq, to_lower, find-Any, arith, if◌then◌else◌, ltb, Lacks, ◌==◌,
}
use sentrydns.Dns.{Msg, a, other, DnsLib, empty_msg}
use sentrydns.Cache.{Entry, Cache, make_key, get, set, sweep, store, scan, response_min_ttl, second}
use sentrydns.Cache.Evict.{Iterates}
use sentrydns.Cache.Bounds.{IsGood, IsValid, start, next, setting, Reach-IsValid}
use sentrydns.Cache.Reads.{expiry, get-set}
use sentrydns.Cache.Keys.{make_key_iff}

-- Two types have a name, as far as these tests go.
abbrev pub lib : DnsLib
lib = record {
  type_to_string = λ t. if t == 1 then codes "A" else if t == 28 then codes "AAAA" else [];
  set_reply = λ req. record empty_msg { id = req.id; question = req.question };
}

abbrev ask : Text → ℕ → Msg
ask name qtype = record empty_msg { id = 9; question = record { name = name; qtype = qtype } ∷ [] }

abbrev reply : Msg
reply = record empty_msg { id = 3; answer = a 20 (5 ∷ 6 ∷ 7 ∷ 8 ∷ []) ∷ other 60 ∷ [] }

abbrev held : ℕ → Entry
held t = record { msg = reply; expires = t }

abbrev full : Cache
full = record {
  entries = (codes "a.:A", held 500) ∷ (codes "b.:A", held 400) ∷ [];
  min_ttl = 300;
  max_ttl = 3600;
  max_entries = 2;
}

program : Unit {0}
unfolding make_key get set sweep store scan response_min_ttl find insert delete text_eq to_lower
program = tt

abbrev after : Cache
after = record full {
  entries = (codes "a.:A", held 500) ∷ (codes "c.:A", held (100 + 300 * second)) ∷ [];
}

-- The older of the two entries makes room for a third, whose records are served for min_ttl.
stores : set lib full.entries 100 full (ask (codes "C.") 1) (some reply) ≡ after
unfolding program
stores = refl

looks_up :
    ((get lib 200 201 after (ask (codes "c.") 1)).1 ≡ some (record reply { id = 9 }))
    × ((get lib 200 201 after (ask (codes "c.") 28)).1 ≡ none)
    × ((get lib 500 501 after (ask (codes "a.") 1)).0.entries
        ≡ (codes "c.:A", held (100 + 300 * second)) ∷ [])
unfolding program
looks_up = (refl, refl, refl)

iterates : Iterates full.entries full.entries
unfolding find text_eq
iterates = record {
  sound = (refl, (refl, tt));
  complete = λ k e h. find-Any k full.entries e h;
  count = refl;
}

held-IsGood : (k : Text) (t : ℕ) → k ≢ [] → IsGood (k, held t)
held-IsGood k t h = record { named = h; succeeded = refl; answered = λ e. ground arith }

full-IsValid : IsValid full
full-IsValid = record {
  bounded = λ _. omega arith;
  good = (
    held-IsGood (codes "a.:A") 500 (λ e. ground arith),
    (held-IsGood (codes "b.:A") 400 (λ e. ground arith), tt),
  );
}

key_c : make_key lib (some (ask (codes "c.") 1)) ≢ []
unfolding program
key_c e = ground arith

Reach-IsValid_example : IsValid (set lib full.entries 100 full (ask (codes "c.") 1) (some reply))
Reach-IsValid_example =
    Reach-IsValid full-IsValid
      (next start (setting full full.entries 100 (ask (codes "c.") 1) (some reply) iterates key_c))

accepted : (response_min_ttl reply == 0) ≡ false
unfolding program
accepted = refl

get-set_example :
    (get lib 200 201
      (set lib full.entries 100 full (ask (codes "c.") 1) (some reply))
      (ask (codes "c.") 1)).1
    ≡ (if ltb 200 (expiry full 100 reply) then some (record reply { id = 9 }) else none)
get-set_example =
    get-set lib full.entries 100 200 201 full (ask (codes "c.") 1) reply (ask (codes "c.") 1)
      (refl, accepted) key_c refl

keys_differ : make_key lib (some (ask (codes "d.") 1)) ≢ make_key lib (some (ask (codes "c.") 1))
unfolding program
keys_differ e = ground arith

left : find (codes "a.:A") (sweep 450 full.entries full).entries ≡ some (held 500)
unfolding program
left = refl

Lacks-if : (b : Bool) (s t : Text) → Lacks b':' s → Lacks b':' t → Lacks b':' (if b then s else t)
Lacks-if true s t h k = h
Lacks-if false s t h k = k

Lacks-type : (t : ℕ) → Lacks b':' (lib.type_to_string t)
Lacks-type t =
    Lacks-if (t == 1) (codes "A") _ (omega arith)
      (Lacks-if (t == 28) (codes "AAAA") [] (omega arith) tt)

make_key_iff_example :
    (make_key lib (some (ask (codes "C.") 1)) ≡ make_key lib (some (ask (codes "c.") 28)))
    ↔ ((to_lower (codes "C.") ≡ to_lower (codes "c.")) × (codes "A" ≡ codes "AAAA"))
make_key_iff_example =
    make_key_iff lib (ask (codes "C.") 1) (ask (codes "c.") 28)
      (record { name = codes "C."; qtype = 1 }) (record { name = codes "c."; qtype = 28 }) [] []
      Lacks-type refl refl
