-- ===== src/Store/Workers/Frame.antt =====
-- What the steps of the workers leave as it is, and in which order the pool closes down.
use sentrydns.Base.{
  ℕ, zero, suc, ◌<◌, ◌≡◌, refl, sym, ◌∙◌, Bool, true, false, ◌||◌, ◌⊎◌, List, [], ◌∷◌, length, ltb,
  Text, any, Bool-cases, inl, inr, subst, arith,
}
use sentrydns.Store.Workers.{
  Worker, receiving, holding, checking, rejecting, gone, Pool, receive_next, send_next, receivers,
  give_up, start_pool, Turn, sends, gives_up, stops, works, work, work_at, take_turn, take_turns,
  is_gone, all_gone,
}

-- A worker changes only the buffer and the list of what to remove.
pub record Framed (p p' : Pool) : Type 0 where
  pub unsent : p'.unsent ≡ p.unsent
  pub finished : p'.finished ≡ p.finished
  pub stopped : p'.stopped ≡ p.stopped
  pub room : p'.room ≡ p.room

receive_next-Framed : (q : List Text) (p : Pool) → Framed p (receive_next q p).1
receive_next-Framed [] p = ground arith
receive_next-Framed (d ∷ q) p = ground arith

work-Framed : (validate : Text → Bool) (w : Worker) (p : Pool) → Framed p (work validate w p).1
unfolding work
work-Framed validate receiving p = receive_next-Framed p.queue p
work-Framed validate (holding e) p = ground arith
work-Framed validate (checking e) p = ground arith
work-Framed validate (rejecting e) p = ground arith
work-Framed validate gone p = ground arith

pub work_at-Framed :
    (validate : Text → Bool) (i : ℕ) (ws : List Worker) (p : Pool)
    → Framed p (work_at validate i ws p).1
unfolding work_at
work_at-Framed validate i [] p = ground arith
work_at-Framed validate zero (w ∷ ws) p = work-Framed validate w p
work_at-Framed validate (suc i) (w ∷ ws) p = work_at-Framed validate i ws p

pub give_up-cases :
    (u : List Text) (p : Pool)
    → (give_up u p ≡ p)
      ⊎ ((p.stopped ≡ true) × (give_up u p ≡ record p { finished = true; cut = true }))
give_up-cases [] p = inl refl
give_up-cases (d ∷ ds) p = ground arith

send_next-stopped : (u : List Text) (p : Pool) → (send_next u p).stopped ≡ p.stopped
send_next-stopped [] p = refl
send_next-stopped (d ∷ u) p = ground arith

take_turn-stopped :
    (validate : Text → Bool) (t : Turn) (p : Pool)
    → p.stopped ≡ true
    → (take_turn validate t p).stopped ≡ true
unfolding take_turn
take_turn-stopped validate sends p h = let f = send_next-stopped p.unsent p in ground arith
take_turn-stopped validate gives_up p h = let g = give_up-cases p.unsent p in ground arith
take_turn-stopped validate stops p h = refl
take_turn-stopped validate (works i) p h = (work_at-Framed validate i p.workers p).stopped ∙ h

take_turns-stopped :
    (validate : Text → Bool) (ts : List Turn) (p : Pool)
    → p.stopped ≡ true
    → (take_turns validate ts p).stopped ≡ true
unfolding take_turns
take_turns-stopped validate [] p h = h
take_turns-stopped validate (t ∷ ts) p h =
    take_turns-stopped validate ts (take_turn validate t p) (take_turn-stopped validate t p h)

-- A pool that is not stopped at the end was not stopped before.
pub unstopped :
    (validate : Text → Bool) (ts : List Turn) (p : Pool)
    → (take_turns validate ts p).stopped ≡ false
    → p.stopped ≡ false
unstopped validate ts p h = elim (Bool-cases p.stopped) [
  | inl e ↦ let l = take_turns-stopped validate ts p e in absurd (ground arith)
  | inr e ↦ e
]

-- As long as nothing is stopped, the channel is closed only after the last domain is sent, and a worker
-- is done only when the channel is closed and empty.
pub record IsOrderly (p : Pool) : Type 0 where
  pub ended : p.stopped ≡ false → p.finished ≡ true → p.unsent ≡ []
  pub drained :
      p.stopped ≡ false → any is_gone p.workers ≡ true → (p.finished ≡ true) × (p.queue ≡ [])

-- The same of a worker and the pool around it.
abbrev Emptied : Bool → Pool → Type 0
Emptied b p = b ≡ true → (p.finished ≡ true) × (p.queue ≡ [])

receive_next-Emptied :
    (q : List Text) (p : Pool) (b : Bool)
    → p.queue ≡ q
    → Emptied b p
    → Emptied (is_gone (receive_next q p).0 || b) (receive_next q p).1
receive_next-Emptied [] p b e h = ground arith
receive_next-Emptied (d ∷ q) p b e h = ground arith

work-Emptied :
    (validate : Text → Bool) (w : Worker) (p : Pool) (b : Bool)
    → p.stopped ≡ false
    → Emptied (is_gone w || b) p
    → Emptied (is_gone (work validate w p).0 || b) (work validate w p).1
unfolding work
work-Emptied validate receiving p b s h = receive_next-Emptied p.queue p b refl h
work-Emptied validate (holding d) p b s h = ground arith
work-Emptied validate (checking d) p b s h = ground arith
work-Emptied validate (rejecting d) p b s h = ground arith
work-Emptied validate gone p b s h = h

work_at-Emptied :
    (validate : Text → Bool) (i : ℕ) (ws : List Worker) (p : Pool) (b : Bool)
    → p.stopped ≡ false
    → Emptied (any is_gone ws || b) p
    → Emptied (any is_gone (work_at validate i ws p).0 || b) (work_at validate i ws p).1
unfolding work_at
work_at-Emptied validate i [] p b s h = h
work_at-Emptied validate zero (w ∷ ws) p b s h =
    let l = work-Emptied validate w p (any is_gone ws || b) s (λ e. h (ground arith)) in
    λ e. l (ground arith)
work_at-Emptied validate (suc i) (w ∷ ws) p b s h =
    let l = work_at-Emptied validate i ws p (is_gone w || b) s (λ e. h (ground arith)) in
    λ e. l (ground arith)

send_next-IsOrderly :
    (u : List Text) (p : Pool)
    → p.unsent ≡ u
    → p.finished ≡ false
    → IsOrderly p
    → IsOrderly (send_next u p)
send_next-IsOrderly [] p e f v = record {
  ended = λ s g. e;
  drained = λ s g. let d = (v.drained s g).0 in absurd (ground arith);
}
send_next-IsOrderly (d ∷ u) p e f v = elim (Bool-cases (ltb (length p.queue) p.room)) [
  | inl t ↦ rw t (record {
    ended = λ s g. absurd (ground arith);
    drained = λ s g. let d = (v.drained s g).0 in absurd (ground arith);
  })
  | inr t ↦ rw t v
]

pub take_turn-IsOrderly :
    (validate : Text → Bool) (t : Turn) (p : Pool)
    → IsOrderly p
    → IsOrderly (take_turn validate t p)
unfolding take_turn
take_turn-IsOrderly validate sends p v = elim (Bool-cases p.finished) [
  | inl e ↦ let same : p ≡ take_turn validate sends p = ground arith in subst IsOrderly same v
  | inr e ↦
      let sent : send_next p.unsent p ≡ take_turn validate sends p = ground arith in
      subst IsOrderly sent (send_next-IsOrderly p.unsent p refl e v)
]
take_turn-IsOrderly validate gives_up p v = let g = give_up-cases p.unsent p in ground arith
take_turn-IsOrderly validate stops p v = record {
  ended = λ s g. absurd (ground arith);
  drained = λ s g. absurd (ground arith);
}
take_turn-IsOrderly validate (works i) p v =
    let f = work_at-Framed validate i p.workers p in
    record {
      ended = λ s g. f.unsent ∙ v.ended (sym f.stopped ∙ s) (sym f.finished ∙ g);
      drained = λ s g.
          work_at-Emptied validate i p.workers p false (sym f.stopped ∙ s)
            (λ e. v.drained (sym f.stopped ∙ s) (ground arith)) (ground arith);
    }

take_turns-IsOrderly :
    (validate : Text → Bool) (ts : List Turn) (p : Pool)
    → IsOrderly p
    → IsOrderly (take_turns validate ts p)
unfolding take_turns
take_turns-IsOrderly validate [] p v = v
take_turns-IsOrderly validate (t ∷ ts) p v =
    take_turns-IsOrderly validate ts (take_turn validate t p) (take_turn-IsOrderly validate t p v)

any-receivers : (qps : ℕ) → any is_gone (receivers qps) ≡ false
any-receivers zero = refl
any-receivers (suc qps) = any-receivers qps

start_pool-IsOrderly : (qps : ℕ) (domains : List Text) → IsOrderly (start_pool qps domains)
unfolding start_pool
start_pool-IsOrderly qps domains = record {
  ended = λ s g. absurd (ground arith);
  drained = λ s g. let e = any-receivers qps in absurd (ground arith);
}

-- However the loop, the workers and `Stop` take turns, the pool stays orderly.
pub run-IsOrderly :
    (validate : Text → Bool) (qps : ℕ) (domains : List Text) (ts : List Turn)
    → IsOrderly (take_turns validate ts (start_pool qps domains))
run-IsOrderly validate qps domains ts =
    take_turns-IsOrderly validate ts (start_pool qps domains) (start_pool-IsOrderly qps domains)

-- A pool with a worker that is over has a worker that is gone.
pub any-all_gone : (ws : List Worker) → 0 < length ws → all_gone ws ≡ true → any is_gone ws ≡ true
any-all_gone [] n h = absurd (omega arith)
any-all_gone (w ∷ ws) n h = ground arith
