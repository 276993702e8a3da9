-- ===== src/Store/Workers.antt =====
-- The workers of the cleanup of internal/store/store.go: the channel of domains, the goroutines that
-- validate them, and the loop of `cleanup` that feeds the channel. Any of them may take its next step
-- at any time, and `Stop` may close its channel at any time.
pub mod Frame
pub mod Sizes
pub mod Order
pub mod Sound
pub mod Deletes
pub mod Outcome
pub mod Progress
pub mod Ends
use sentrydns.Base.{
  ℕ, zero, suc, ◌*◌, Bool, true, false, ◌&&◌, List, [], ◌∷◌, ◌++◌, length, ltb, if◌then◌else◌, Text,
}

-- Where a worker is: before it receives, before it looks whether it is to stop, before it validates,
-- before it appends to `toRemove`, or done.
pub data Worker : Type 0 where
  receiving : Worker
  holding : Text → Worker
  checking : Text → Worker
  rejecting : Text → Worker
  gone : Worker

-- `unsent` is the rest of the loop over the domains, `queue` the buffer of the channel with room for
-- `room`, `finished` says that the channel is closed, `cut` that the loop has seen the stop.
pub record Pool : Type 0 where
  pub unsent : List Text
  pub queue : List Text
  pub room : ℕ
  pub finished : Bool
  pub cut : Bool
  pub stopped : Bool
  pub workers : List Worker
  pub removals : List Text

abbrev pub receivers : ℕ → List Worker
receivers zero = []
receivers (suc n) = receiving ∷ receivers n

unfoldable pub start_pool : ℕ → List Text → Pool
start_pool qps domains = record {
  unsent = domains;
  queue = [];
  room = qps * 2;
  finished = false;
  cut = false;
  stopped = false;
  workers = receivers qps;
  removals = [];
}

-- Who takes the next step: the loop that sends, the same loop with the case of the stop, `Stop`, or the
-- worker at an index.
pub data Turn : Type 0 where
  sends : Turn
  gives_up : Turn
  stops : Turn
  works : ℕ → Turn

abbrev pub send_next : List Text → Pool → Pool
send_next [] p = record p { finished = true }
send_next (d ∷ ds) p =
    if ltb (length p.queue) p.room then record p { unsent = ds; queue = p.queue ++ d ∷ [] } else p

-- The loop looks at the stop only while it has a domain to send.
abbrev pub give_up : List Text → Pool → Pool
give_up [] p = p
give_up (d ∷ ds) p = if p.stopped then record p { finished = true; cut = true } else p

abbrev pub receive_next : List Text → Pool → Worker × Pool
receive_next [] p = (if p.finished then gone else receiving, p)
receive_next (d ∷ ds) p = (holding d, record p { queue = ds })

-- One step of a worker, where it can take one.
unfoldable pub work : (Text → Bool) → Worker → Pool → Worker × Pool
work validate receiving p = receive_next p.queue p
work validate (holding d) p = (if p.stopped then gone else checking d, p)
work validate (checking d) p = (if validate d then receiving else rejecting d, p)
work validate (rejecting d) p = (receiving, record p { removals = p.removals ++ d ∷ [] })
work validate gone p = (gone, p)

-- The worker at an index takes a step.
unfoldable pub work_at : (Text → Bool) → ℕ → List Worker → Pool → List Worker × Pool
unfolding work
work_at validate i [] p = ([], p)
work_at validate zero (w ∷ ws) p = let (w', p') = work validate w p in (w' ∷ ws, p')
work_at validate (suc i) (w ∷ ws) p = let (ws', p') = work_at validate i ws p in (w ∷ ws', p')

unfoldable pub take_turn : (Text → Bool) → Turn → Pool → Pool
unfolding work_at
take_turn validate sends p = if p.finished then p else send_next p.unsent p
take_turn validate gives_up p = if p.finished then p else give_up p.unsent p
take_turn validate stops p = record p { stopped = true }
take_turn validate (works i) p =
    let (ws, p') = work_at validate i p.workers p in record p' { workers = ws }

unfoldable pub take_turns : (Text → Bool) → List Turn → Pool → Pool
unfolding take_turn
take_turns validate [] p = p
take_turns validate (t ∷ ts) p = take_turns validate ts (take_turn validate t p)

abbrev pub is_gone : Worker → Bool
is_gone gone = true
is_gone receiving = false
is_gone (holding d) = false
is_gone (checking d) = false
is_gone (rejecting d) = false

abbrev pub all_gone : List Worker → Bool
all_gone [] = true
all_gone (w ∷ ws) = is_gone w && all_gone ws

-- The channel is closed and `wg.Wait` returns.
unfoldable pub is_over : Pool → Bool
is_over p = p.finished && all_gone p.workers
