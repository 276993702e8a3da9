-- ===== src/Store/Workers/Ends.antt =====
-- The pool of the cleanup comes to its end.
use sentrydns.Base.{
  ℕ, zero, suc, ◌+◌, ◌*◌, ◌<◌, ◌≤◌, ◌≡◌, refl, Bool, true, false, List, [], ◌∷◌, length,
  if◌then◌else◌, Text, Bool-cases, inl, inr, arith,
}
use sentrydns.Store.Workers.{
  Pool, receivers, start_pool, Turn, sends, gives_up, works, take_turn, take_turns, all_gone,
  is_over,
}
use sentrydns.Store.Workers.Frame.{IsOrderly, run-IsOrderly, take_turn-IsOrderly, any-all_gone}
use sentrydns.Store.Workers.Sizes.{length-run, room-run, room-take_turn, length-take_turn}
use sentrydns.Store.Workers.Progress.{
  loads, ahead_all, can_send, first_left, next_turn, take_turn-ahead, works-less, sends-less,
  gives_up-less, queue-full,
}

-- With a worker, and room in the channel.
pub record IsLive (p : Pool) : Type 0 where
  pub orderly : IsOrderly p
  pub some_room : 0 < p.room
  pub some_worker : 0 < length p.workers

unfinished-left :
    (p : Pool) → IsLive p → p.finished ≡ false → p.stopped ≡ false → all_gone p.workers ≡ false
unfinished-left p v f s = elim (Bool-cases (all_gone p.workers)) [
  | inl all ↦
      let d = (v.orderly.drained s (any-all_gone p.workers v.some_worker all)).0 in
      absurd (ground arith)
  | inr e ↦ e
]

-- Until the pool is over there is a turn that gets it on.
next_turn-less :
    (validate : Text → Bool) (p : Pool)
    → IsLive p
    → is_over p ≡ false
    → ahead_all (take_turn validate (next_turn p) p) < ahead_all p
unfolding is_over
next_turn-less validate p v o = elim (Bool-cases p.finished) [
  | inl f ↦
      let e : next_turn p ≡ works (first_left p.workers) = ground arith in
      rw e (works-less validate p (ground arith) (ground arith))
  | inr f ↦ elim (Bool-cases (can_send p.unsent p)) [
    | inl c ↦ let e : next_turn p ≡ sends = ground arith in rw e (sends-less validate p f c)
    | inr c ↦ elim (Bool-cases p.stopped) [
      | inl s ↦
          let e : next_turn p ≡ gives_up = ground arith in rw e (gives_up-less validate p f s c)
      | inr s ↦
          let e : next_turn p ≡ works (first_left p.workers) = ground arith in
          rw e
            (works-less validate p (unfinished-left p v f s) (queue-full p.unsent p c v.some_room))
    ]
  ]
]

take_turn-IsLive :
    (validate : Text → Bool) (t : Turn) (p : Pool) → IsLive p → IsLive (take_turn validate t p)
take_turn-IsLive validate t p v = record {
  orderly = take_turn-IsOrderly validate t p v.orderly;
  some_room = omega (arith, room-take_turn validate t p, v.some_room);
  some_worker = omega (arith, length-take_turn validate t p, v.some_worker);
}

-- So many of these turns, or fewer where the pool is over before.
unfoldable pub drive : (Text → Bool) → ℕ → Pool → Pool
drive validate zero p = p
drive validate (suc n) p =
    let rest = drive validate n (take_turn validate (next_turn p) p) in
    if is_over p then p else rest

is_over-drive :
    (validate : Text → Bool) (n : ℕ) (p : Pool)
    → IsLive p
    → ahead_all p ≤ n
    → is_over (drive validate n p) ≡ true
unfolding drive
is_over-drive validate zero p v l = elim (Bool-cases (is_over p)) [
  | inl e ↦ e
  | inr e ↦ let less = next_turn-less validate p v e in absurd (omega (arith, less, l))
]
is_over-drive validate (suc n) p v l = elim (Bool-cases (is_over p)) [
  | inl e ↦ rw (e, e) refl
  | inr e ↦
      let less = next_turn-less validate p v e in
      let t = next_turn p in
      rw e (
        is_over-drive validate n (take_turn validate t p) (take_turn-IsLive validate t p v)
          (omega (arith, less, l)))
]

ahead_all-take_turns :
    (validate : Text → Bool) (ts : List Turn) (p : Pool)
    → ahead_all (take_turns validate ts p) ≤ ahead_all p
unfolding take_turns
ahead_all-take_turns validate [] p = omega arith
ahead_all-take_turns validate (t ∷ ts) p =
    omega (
      arith,
      ahead_all-take_turns validate ts (take_turn validate t p),
      take_turn-ahead validate t p,
    )

loads-receivers : (qps : ℕ) → loads (receivers qps) ≡ qps
loads-receivers zero = refl
loads-receivers (suc qps) = omega (arith, loads-receivers qps)

ahead_all-start_pool :
    (qps : ℕ) (domains : List Text)
    → ahead_all (start_pool qps domains) ≡ 6 * length domains + 1 + qps
unfolding start_pool
ahead_all-start_pool qps domains = omega (arith, loads-receivers qps)

-- With at least one worker the cleanup never gets stuck: whatever turns have been taken, a stop
-- included, a schedule of at most six turns for each domain, one for each worker and one more brings the
-- channel to its close and all workers to their end.
pub run-ends :
    (validate : Text → Bool) (qps : ℕ) (domains : List Text) (ts : List Turn)
    → 0 < qps
    → let p = take_turns validate ts (start_pool qps domains) in
      is_over (drive validate (6 * length domains + 1 + qps) p) ≡ true
run-ends validate qps domains ts n =
    let p = take_turns validate ts (start_pool qps domains) in
    let l = ahead_all-take_turns validate ts (start_pool qps domains) in
    is_over-drive validate (6 * length domains + 1 + qps) p
      (record {
        orderly = run-IsOrderly validate qps domains ts;
        some_room = omega (arith, room-run validate qps domains ts, n);
        some_worker = omega (arith, length-run validate qps domains ts, n);
      })
      (omega (arith, l, ahead_all-start_pool qps domains))
