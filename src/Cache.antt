-- ===== src/Cache.antt =====
-- internal/cache/cache.go: the answers that the resolver keeps. Times are nanoseconds; each reading
-- of the clock is an argument, and so is the order in which a `range` visits the map.
pub mod Evict
pub mod Bounds
pub mod Reads
pub mod Keys
pub mod Sound
pub mod Entries
mod Tests
use sentrydns.Base.{
  ℕ, zero, suc, ◌+◌, ◌*◌, ◌^◌, ◌-◌, Bool, true, false, ◌||◌, ◌&&◌, not, Option, none, some, List,
  [], ◌∷◌, ◌++◌, ◌==◌, ltb, leb, if◌then◌else◌, Text, to_lower, Dict, find, insert, delete, length,
}
use sentrydns.Dns.{Question, Msg, Rr, ttl_of, DnsLib, rcode_success}

pub record Entry : Type 0 where
  pub msg : Msg
  pub expires : ℕ

-- `max_entries` is 0 where the source's is 0 or negative: no limit.
pub record Cache : Type 0 where
  pub entries : Dict Entry
  pub min_ttl : ℕ
  pub max_ttl : ℕ
  pub max_entries : ℕ

unfoldable pub new : ℕ → ℕ → ℕ → Cache
new min_ttl max_ttl max_entries = record {
  entries = [];
  min_ttl = min_ttl;
  max_ttl = max_ttl;
  max_entries = max_entries;
}

abbrev pub is_empty {ℓ} : {A : Type ℓ} → List A → Bool
is_empty [] = true
is_empty (x ∷ xs) = false

-- `time.Second`
abbrev pub second : ℕ
second = 1000000000

abbrev pub key_of : DnsLib → List Question → Text
key_of lib [] = []
key_of lib (q ∷ qs) = to_lower q.name ++ b':' ∷ lib.type_to_string q.qtype

-- `nil` is `none`.
unfoldable pub make_key : DnsLib → Option Msg → Text
make_key lib none = []
make_key lib (some req) = key_of lib req.question

-- The loop of `responseMinTTL`, with the least time to live so far.
unfoldable pub least_ttl : ℕ → List Rr → ℕ
least_ttl ttl [] = ttl
least_ttl ttl (ans ∷ rest) = least_ttl (if ltb (ttl_of ans) ttl then ttl_of ans else ttl) rest

-- `^uint32(0)`, the start of the loop, is also its answer where no record has a smaller one.
abbrev pub no_ttl : ℕ
no_ttl = 2 ^ 32 - 1

unfoldable pub response_min_ttl : Msg → ℕ
unfolding least_ttl
response_min_ttl msg = let ttl = least_ttl no_ttl msg.answer in if ttl == no_ttl then 0 else ttl

-- The second half of `Get`, under the write lock: look again, and drop what has expired.
unfoldable pub drop_expired : ℕ → Text → Cache → Cache
drop_expired now key c = elim (find key c.entries) [
  | none ↦ c
  | some e ↦ if ltb e.expires now then record c { entries = delete key c.entries } else c
]

-- `now` and `later` are the two readings of the clock.
unfoldable pub get : DnsLib → ℕ → ℕ → Cache → Msg → Cache × Option Msg
unfolding drop_expired
get lib now later c req =
    let key = make_key lib (some req) in
    if is_empty key then (c, none) else elim (find key c.entries) [
      | none ↦ (c, none)
      | some e ↦
          if ltb now e.expires
          then (c, some (record e.msg { id = req.id }))
          else (drop_expired later key c, none)
    ]

-- The loop of `evictOne` over the entries in the order of the `range`. The empty key stands for "no
-- candidate yet".
unfoldable pub scan : ℕ → ℕ → List (Text × Entry) → Text → ℕ → Text
scan sample count [] oldest_key oldest_expiry = oldest_key
scan sample count ((k, e) ∷ rest) oldest_key oldest_expiry =
    let better = is_empty oldest_key || ltb e.expires oldest_expiry in
    let key = if better then k else oldest_key in
    let expiry = if better then e.expires else oldest_expiry in
    let more = scan sample (count + 1) rest key expiry in
    if leb sample (count + 1) then key else more

abbrev pub sample_size : Cache → ℕ
sample_size c = if ltb (length c.entries) 100 then length c.entries else 100

unfoldable pub evict_one : List (Text × Entry) → Cache → Cache
evict_one order c =
    let oldest_key = scan (sample_size c) 0 order [] 0 in
    if is_empty oldest_key then c else record c { entries = delete oldest_key c.entries }

-- `Set` after its checks: make room, then store.
unfoldable pub store : List (Text × Entry) → ℕ → Text → ℕ → Msg → Cache → Cache
unfolding evict_one
store order now key ttl resp c =
    let full = ltb 0 c.max_entries && leb c.max_entries (length c.entries) in
    let room = if full then evict_one order c else c in
    record room {
      entries = insert key (record { msg = resp; expires = now + ttl * second }) room.entries;
    }

abbrev pub clamp : Cache → ℕ → ℕ
clamp c ttl =
    let low = if ltb ttl c.min_ttl then c.min_ttl else ttl in
    if ltb c.max_ttl low then c.max_ttl else low

abbrev pub is_cacheable : Msg → Bool
is_cacheable resp = resp.rcode == rcode_success && not (is_empty resp.answer)

-- `resp == nil` is `none`.
unfoldable pub set : DnsLib → List (Text × Entry) → ℕ → Cache → Msg → Option Msg → Cache
set lib order now c req none = c
set lib order now c req (some resp) =
    let ttl = response_min_ttl resp in
    if not (is_cacheable resp)
    then c
    else if ttl == 0
    then c
    else store order now (make_key lib (some req)) (clamp c ttl) resp c

-- The loop of `cleanup`, run at each tick of its timer.
unfoldable pub sweep_loop : ℕ → List (Text × Entry) → Dict Entry → Dict Entry
sweep_loop now [] entries = entries
sweep_loop now ((k, e) ∷ rest) entries =
    sweep_loop now rest (if ltb e.expires now then delete k entries else entries)

unfoldable pub sweep : ℕ → List (Text × Entry) → Cache → Cache
unfolding sweep_loop
sweep now order c = record c { entries = sweep_loop now order c.entries }
