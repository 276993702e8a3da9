-- ===== src/RateLimit/Sweep.antt =====
-- The sweep of internal/ratelimit/ratelimit.go: it forgets clients, but no client can tell.
use sentrydns.Base.{
  arith, refl, ℕ, zero, suc, ◌-◌, ◌*◌, ◌≤◌, ◌<◌, ◌≡◌, ◌≢◌, Bool, true, Option, none, some, List, [],
  ◌∷◌, ◌==◌, ltb, if◌then◌else◌, Text, Dict, find, delete, find-delete, text_eq, text_eq_iff, All,
  length, ap, sym, ◌∙◌, subst, ◌⊎◌, inl, inr, Bool-cases,
}
use sentrydns.RateLimit.{
  ClientState, Limiter, shard_for, shard_at, admit, allow, clean_shard, clean_all, cleanup,
}
use sentrydns.RateLimit.Window.{
  client, HasShards, client-allow, allow-decision, allow-kept, run_client,
}

-- Each order lists bindings of its shard.
abbrev pub Ranges : List (List (Text × ClientState)) → List (Dict ClientState) → Type 0
Ranges [] ms = Unit
Ranges (o ∷ os) [] = Unit
Ranges (o ∷ os) (m ∷ ms) = All (λ p. find p.0 m ≡ some p.1) o × Ranges os ms

-- A state whose window ended long ago.
abbrev pub Stale : ℕ → ℕ → Option ClientState → Type 0
Stale window now o = (cs : ClientState) × (o ≡ some cs) × (2 * window < now - cs.window_start)

-- What is left of a state is the state, or nothing of a stale one.
abbrev pub Left : ℕ → ℕ → Option ClientState → Option ClientState → Type 0
Left window now before after = (after ≡ before) ⊎ ((after ≡ none) × Stale window now before)

clean_shard-Left :
    (window now : ℕ) (k : Text) (order : List (Text × ClientState)) (m0 m : Dict ClientState)
    → All (λ p. find p.0 m0 ≡ some p.1) order
    → Left window now (find k m0) (find k m)
    → Left window now (find k m0) (find k (clean_shard window now order m))
unfolding clean_shard
clean_shard-Left window now k [] m0 m h left = left
clean_shard-Left window now k ((ip, cs) ∷ rest) m0 m h left =
    clean_shard-Left window now k rest m0
      (if ltb (2 * window) (now - cs.window_start) then delete ip m else m) h.1
      (elim (Bool-cases (ltb (2 * window) (now - cs.window_start))) [
        | inr e ↦ rw e left
        | inl e ↦ elim (Bool-cases (text_eq ip k)) [
          | inr other ↦ rw (e, find-delete ip k m, other) left
          | inl same ↦
              rw (e, find-delete ip k m, same)
                (inr (
                  refl,
                  (
                    cs,
                    subst (λ t. find t m0 ≡ some cs) ((text_eq_iff ip k).0 same) h.0,
                    ground arith,
                  ),
                ))
        ]
      ])

clean_all-Left :
    (window now i : ℕ) (k : Text) (orders : List (List (Text × ClientState)))
    (ms : List (Dict ClientState))
    → Ranges orders ms
    → Left window now
        (find k (shard_at i ms))
        (find k (shard_at i (clean_all window now orders ms)))
unfolding clean_all shard_at
clean_all-Left window now i k [] [] h = inl refl
clean_all-Left window now i k [] (m ∷ ms) h = inl refl
clean_all-Left window now i k (o ∷ os) [] h = inl refl
clean_all-Left window now zero k (o ∷ os) (m ∷ ms) h =
    clean_shard-Left window now k o m m h.0 (inl refl)
clean_all-Left window now (suc i) k (o ∷ os) (m ∷ ms) h = clean_all-Left window now i k os ms h.1

pub length-clean_all :
    (window now : ℕ) (orders : List (List (Text × ClientState))) (ms : List (Dict ClientState))
    → length (clean_all window now orders ms) ≡ length ms
unfolding clean_all
length-clean_all window now [] [] = refl
length-clean_all window now [] (m ∷ ms) = refl
length-clean_all window now (o ∷ os) [] = refl
length-clean_all window now (o ∷ os) (m ∷ ms) =
    ap (λ (n : ℕ). suc n) (length-clean_all window now os ms)

admit-old :
    (max_rps window now later : ℕ) (cs : ClientState)
    → 2 * window < now - cs.window_start
    → now ≤ later
    → admit max_rps window later none ≡ admit max_rps window later (some cs)
unfolding admit
admit-old max_rps window now later cs old h = ground arith

-- A stale client is admitted as a new one.
admit-Left :
    (max_rps window now later : ℕ) (before after : Option ClientState)
    → Left window now before after
    → now ≤ later
    → admit max_rps window later after ≡ admit max_rps window later before
admit-Left max_rps window now later before after (inl same) h = ap (admit max_rps window later) same
admit-Left max_rps window now later before after (inr (gone, (cs, was, old))) h =
    ap (admit max_rps window later) gone
    ∙ admit-old max_rps window now later cs old h
    ∙ ap (admit max_rps window later) (sym was)

-- Two limiters that differ at most in what they know of clients.
abbrev Alike : Limiter → Limiter → Type 0
Alike l l' =
    HasShards l × HasShards l' × (l.max_rps ≢ 0) × (l'.max_rps ≡ l.max_rps) × (l'.window ≡ l.window)

allow-Alike :
    (t : ℕ) (ip : Text) (l l' : Limiter) → Alike l l' → Alike (allow t ip l).0 (allow t ip l').0
allow-Alike t ip l l' (s, s', r, e, w) =
    let k = allow-kept t ip l in
    let k' = allow-kept t ip l' in
    (k.2 ∙ s, k'.2 ∙ s', (λ z. r (sym k.0 ∙ z)), k'.0 ∙ e ∙ sym k.0, k'.1 ∙ w ∙ sym k.1)

-- Where both admit a client alike, they decide alike and then know the same of it.
allow_agree :
    (t : ℕ) (ip : Text) (l l' : Limiter)
    → Alike l l'
    → admit l.max_rps l.window t (client ip l') ≡ admit l.max_rps l.window t (client ip l)
    → ((allow t ip l').1 ≡ (allow t ip l).1)
      × (client ip (allow t ip l').0 ≡ client ip (allow t ip l).0)
allow_agree t ip l l' (s, s', r, e, w) a =
    let b : admit l'.max_rps l'.window t (client ip l') ≡ admit l.max_rps l.window t (client ip l) =
      ap (λ n. admit n l'.window t (client ip l')) e
      ∙ ap (λ n. admit l.max_rps n t (client ip l')) w
      ∙ a in
    (
      allow-decision t ip l'
          ∙ ap (λ (n : ℕ). if n == 0 then true else (admit l'.max_rps l'.window t (client ip l')).1)
              e
          ∙ ap (λ (v : ClientState × Bool). if l.max_rps == 0 then true else v.1) b
          ∙ sym (allow-decision t ip l),
      client-allow t ip l' s' (λ z. r (sym e ∙ z))
          ∙ ap (λ (v : ClientState × Bool). some v.0) b
          ∙ sym (client-allow t ip l s r),
    )

-- The decisions on a client follow from what the limiter knows of it.
run_client-client :
    (ip : Text) (ts : List ℕ) (l l' : Limiter)
    → Alike l l'
    → client ip l' ≡ client ip l
    → (run_client ip ts l').1 ≡ (run_client ip ts l).1
unfolding run_client
run_client-client ip [] l l' alike c = refl
run_client-client ip (t ∷ ts) l l' alike c =
    let d = allow_agree t ip l l' alike (ap (admit l.max_rps l.window t) c) in
    let ih =
      run_client-client ip ts (allow t ip l).0 (allow t ip l').0 (allow-Alike t ip l l' alike)
        d.1 in
    rw (d.0, ih) refl

cleanup-Alike :
    (now : ℕ) (orders : List (List (Text × ClientState))) (l : Limiter)
    → HasShards l
    → l.max_rps ≢ 0
    → Alike l (cleanup now orders l)
unfolding cleanup
cleanup-Alike now orders l s r =
    (s, length-clean_all l.window now orders l.shards ∙ s, r, refl, refl)

client-cleanup :
    (now : ℕ) (orders : List (List (Text × ClientState))) (ip : Text) (l : Limiter)
    → Ranges orders l.shards
    → Left l.window now (client ip l) (client ip (cleanup now orders l))
unfolding cleanup
client-cleanup now orders ip l ranges =
    clean_all-Left l.window now (shard_for ip) ip orders l.shards ranges

-- A sweep of the clients that were not seen for two windows, in any order of the maps, changes no later
-- decision: however many queries a client sends from then on, and whenever, the limiter lets the same
-- number of them through as if there had been no sweep.
pub run_client-cleanup :
    (now : ℕ) (orders : List (List (Text × ClientState))) (ip : Text) (ts : List ℕ) (l : Limiter)
    → HasShards l
    → l.max_rps ≢ 0
    → Ranges orders l.shards
    → All (λ t. now ≤ t) ts
    → (run_client ip ts (cleanup now orders l)).1 ≡ (run_client ip ts l).1
unfolding run_client
run_client-cleanup now orders ip [] l s r ranges h = refl
run_client-cleanup now orders ip (t ∷ ts) l s r ranges h =
    let l' = cleanup now orders l in
    let alike = cleanup-Alike now orders l s r in
    let left = client-cleanup now orders ip l ranges in
    let d =
      allow_agree t ip l l' alike
        (admit-Left l.max_rps l.window now t (client ip l) (client ip l') left h.0) in
    let ih =
      run_client-client ip ts (allow t ip l).0 (allow t ip l').0 (allow-Alike t ip l l' alike)
        d.1 in
    rw (d.0, ih) refl
