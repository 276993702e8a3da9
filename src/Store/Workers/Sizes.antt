-- ===== src/Store/Workers/Sizes.antt =====
-- The numbers of the pool that no turn changes: its workers, and the room in its channel.
use sentrydns.Base.{ℕ, zero, suc, ◌*◌, ◌≡◌, refl, ap, ◌∙◌, Bool, List, [], ◌∷◌, length, Text, arith}
use sentrydns.Store.Workers.{
  Worker, Pool, send_next, receivers, start_pool, Turn, sends, gives_up, stops, works, work_at,
  take_turn, take_turns,
}
use sentrydns.Store.Workers.Frame.{give_up-cases, work_at-Framed}

length-work_at :
    (validate : Text → Bool) (i : ℕ) (ws : List Worker) (p : Pool)
    → length (work_at validate i ws p).0 ≡ length ws
unfolding work_at
length-work_at validate i [] p = refl
length-work_at validate zero (w ∷ ws) p = refl
length-work_at validate (suc i) (w ∷ ws) p = ap suc (length-work_at validate i ws p)

length-send_next : (u : List Text) (p : Pool) → length (send_next u p).workers ≡ length p.workers
length-send_next [] p = refl
length-send_next (d ∷ u) p = ground arith

pub length-take_turn :
    (validate : Text → Bool) (t : Turn) (p : Pool)
    → length (take_turn validate t p).workers ≡ length p.workers
unfolding take_turn
length-take_turn validate sends p = let e = length-send_next p.unsent p in ground arith
length-take_turn validate gives_up p = let g = give_up-cases p.unsent p in ground arith
length-take_turn validate stops p = refl
length-take_turn validate (works i) p = length-work_at validate i p.workers p

length-take_turns :
    (validate : Text → Bool) (ts : List Turn) (p : Pool)
    → length (take_turns validate ts p).workers ≡ length p.workers
unfolding take_turns
length-take_turns validate [] p = refl
length-take_turns validate (t ∷ ts) p =
    length-take_turns validate ts (take_turn validate t p) ∙ length-take_turn validate t p

length-receivers : (qps : ℕ) → length (receivers qps) ≡ qps
length-receivers zero = refl
length-receivers (suc qps) = ap suc (length-receivers qps)

-- The pool has as many workers as it started with.
pub length-run :
    (validate : Text → Bool) (qps : ℕ) (domains : List Text) (ts : List Turn)
    → length (take_turns validate ts (start_pool qps domains)).workers ≡ qps
unfolding start_pool
length-run validate qps domains ts =
    length-take_turns validate ts (start_pool qps domains) ∙ length-receivers qps

room-send_next : (u : List Text) (p : Pool) → (send_next u p).room ≡ p.room
room-send_next [] p = refl
room-send_next (d ∷ u) p = ground arith

pub room-take_turn :
    (validate : Text → Bool) (t : Turn) (p : Pool) → (take_turn validate t p).room ≡ p.room
unfolding take_turn
room-take_turn validate sends p = let e = room-send_next p.unsent p in ground arith
room-take_turn validate gives_up p = let g = give_up-cases p.unsent p in ground arith
room-take_turn validate stops p = refl
room-take_turn validate (works i) p = (work_at-Framed validate i p.workers p).room

room-take_turns :
    (validate : Text → Bool) (ts : List Turn) (p : Pool) → (take_turns validate ts p).room ≡ p.room
unfolding take_turns
room-take_turns validate [] p = refl
room-take_turns validate (t ∷ ts) p =
    room-take_turns validate ts (take_turn validate t p) ∙ room-take_turn validate t p

pub room-run :
    (validate : Text → Bool) (qps : ℕ) (domains : List Text) (ts : List Turn)
    → (take_turns validate ts (start_pool qps domains)).room ≡ qps * 2
unfolding start_pool
room-run validate qps domains ts = room-take_turns validate ts (start_pool qps domains)
