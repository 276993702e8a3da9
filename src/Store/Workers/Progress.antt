-- ===== src/Store/Workers/Progress.antt =====
-- How much the pool of the cleanup has still to do, which no turn makes more.
use sentrydns.Base.{
  ℕ, zero, suc, ◌+◌, ◌*◌, ◌<◌, ◌≤◌, ◌≡◌, refl, Bool, true, false, ◌||◌, List, [], ◌∷◌, length,
  if◌then◌else◌, Text, Bool-cases, inl, inr, arith, ltb, length-append,
}
use sentrydns.Store.Workers.{
  give_up, Worker, receiving, holding, checking, rejecting, gone, Pool, receive_next, send_next,
  Turn, sends, gives_up, stops, works, work, work_at, take_turn, is_gone, all_gone,
}
use sentrydns.Store.Workers.Frame.{give_up-cases}

abbrev pub load : Worker → ℕ
load receiving = 1
load (holding d) = 5
load (checking d) = 4
load (rejecting d) = 3
load gone = 0

abbrev pub loads : List Worker → ℕ
loads [] = 0
loads (w ∷ ws) = load w + loads ws

-- What the loop and the channel have still to do.
abbrev pub ahead : Pool → ℕ
ahead p = 6 * length p.unsent + 5 * length p.queue + (if p.finished then 0 else 1)

abbrev pub ahead_all : Pool → ℕ
ahead_all p = ahead p + loads p.workers

receive_next-ahead :
    (q : List Text) (p : Pool)
    → p.queue ≡ q
    → load (receive_next q p).0 + ahead (receive_next q p).1 ≤ 1 + ahead p
receive_next-ahead [] p e = ground arith
receive_next-ahead (d ∷ q) p e = ground arith

work-ahead :
    (validate : Text → Bool) (w : Worker) (p : Pool)
    → load (work validate w p).0 + ahead (work validate w p).1 ≤ load w + ahead p
unfolding work
work-ahead validate receiving p = receive_next-ahead p.queue p refl
work-ahead validate (holding d) p = ground arith
work-ahead validate (checking d) p = ground arith
work-ahead validate (rejecting d) p = ground arith
work-ahead validate gone p = omega arith

work_at-ahead :
    (validate : Text → Bool) (i : ℕ) (ws : List Worker) (p : Pool)
    → loads (work_at validate i ws p).0 + ahead (work_at validate i ws p).1 ≤ loads ws + ahead p
unfolding work_at
work_at-ahead validate i [] p = omega arith
work_at-ahead validate zero (w ∷ ws) p = omega (arith, work-ahead validate w p)
work_at-ahead validate (suc i) (w ∷ ws) p = omega (arith, work_at-ahead validate i ws p)

send_next-ahead :
    (u : List Text) (p : Pool) → p.unsent ≡ u → ahead_all (send_next u p) ≤ ahead_all p
send_next-ahead [] p e = ground arith
send_next-ahead (d ∷ u) p e = ground (arith, length-append p.queue (d ∷ []))

pub take_turn-ahead :
    (validate : Text → Bool) (t : Turn) (p : Pool)
    → ahead_all (take_turn validate t p) ≤ ahead_all p
unfolding take_turn
take_turn-ahead validate sends p = let l = send_next-ahead p.unsent p refl in ground arith
take_turn-ahead validate gives_up p = let g = give_up-cases p.unsent p in ground arith
take_turn-ahead validate stops p = omega arith
take_turn-ahead validate (works i) p = omega (arith, work_at-ahead validate i p.workers p)

abbrev pub is_ready : Pool → Bool
is_ready p = ltb 0 (length p.queue) || p.finished

receive_next-less :
    (q : List Text) (p : Pool)
    → p.queue ≡ q
    → is_ready p ≡ true
    → load (receive_next q p).0 + ahead (receive_next q p).1 < 1 + ahead p
receive_next-less [] p e r = ground arith
receive_next-less (d ∷ q) p e r = ground arith

work-less :
    (validate : Text → Bool) (w : Worker) (p : Pool)
    → is_gone w ≡ false
    → is_ready p ≡ true
    → load (work validate w p).0 + ahead (work validate w p).1 < load w + ahead p
unfolding work
work-less validate receiving p g r = receive_next-less p.queue p refl r
work-less validate (holding d) p g r = ground arith
work-less validate (checking d) p g r = ground arith
work-less validate (rejecting d) p g r = ground arith
work-less validate gone p g r = absurd (ground arith)

-- The first worker that is not gone.
abbrev pub first_left : List Worker → ℕ
first_left [] = 0
first_left (w ∷ ws) = let i = first_left ws in if is_gone w then suc i else 0

work_at-less :
    (validate : Text → Bool) (ws : List Worker) (p : Pool)
    → all_gone ws ≡ false
    → is_ready p ≡ true
    → loads (work_at validate (first_left ws) ws p).0
        + ahead (work_at validate (first_left ws) ws p).1
      < loads ws + ahead p
unfolding work_at
work_at-less validate [] p g r = absurd (ground arith)
work_at-less validate (w ∷ ws) p g r = elim (Bool-cases (is_gone w)) [
  | inl e ↦ let ih = work_at-less validate ws p (ground arith) r in rw e (omega (arith, ih))
  | inr e ↦ let l = work-less validate w p e r in rw e (omega (arith, l))
]

abbrev pub can_send : List Text → Pool → Bool
can_send [] p = true
can_send (d ∷ ds) p = ltb (length p.queue) p.room

-- A turn that gets the pool on: the loop where it can go on, else a worker.
abbrev pub next_turn : Pool → Turn
next_turn p =
    if p.finished
    then works (first_left p.workers)
    else if can_send p.unsent p
    then sends
    else if p.stopped
    then gives_up
    else works (first_left p.workers)

pub works-less :
    (validate : Text → Bool) (p : Pool)
    → all_gone p.workers ≡ false
    → is_ready p ≡ true
    → ahead_all (take_turn validate (works (first_left p.workers)) p) < ahead_all p
unfolding take_turn
works-less validate p g r = omega (arith, work_at-less validate p.workers p g r)

send_next-less :
    (u : List Text) (p : Pool)
    → p.unsent ≡ u
    → p.finished ≡ false
    → can_send u p ≡ true
    → ahead_all (send_next u p) < ahead_all p
send_next-less [] p e f c = ground arith
send_next-less (d ∷ u) p e f c = ground (arith, length-append p.queue (d ∷ []))

pub sends-less :
    (validate : Text → Bool) (p : Pool)
    → p.finished ≡ false
    → can_send p.unsent p ≡ true
    → ahead_all (take_turn validate sends p) < ahead_all p
unfolding take_turn
sends-less validate p f c = let l = send_next-less p.unsent p refl f c in ground arith

give_up-less :
    (u : List Text) (p : Pool)
    → p.finished ≡ false
    → p.stopped ≡ true
    → can_send u p ≡ false
    → ahead_all (give_up u p) < ahead_all p
give_up-less [] p f s c = absurd (ground arith)
give_up-less (d ∷ u) p f s c = ground arith

pub gives_up-less :
    (validate : Text → Bool) (p : Pool)
    → p.finished ≡ false
    → p.stopped ≡ true
    → can_send p.unsent p ≡ false
    → ahead_all (take_turn validate gives_up p) < ahead_all p
unfolding take_turn
gives_up-less validate p f s c = let l = give_up-less p.unsent p f s c in ground arith

pub queue-full : (u : List Text) (p : Pool) → can_send u p ≡ false → 0 < p.room → is_ready p ≡ true
queue-full [] p c n = absurd (ground arith)
queue-full (d ∷ u) p c n = ground arith
