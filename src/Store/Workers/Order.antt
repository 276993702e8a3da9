-- ===== src/Store/Workers/Order.antt =====
-- What the workers of the cleanup find does not depend on the order of their steps.
use sentrydns.Base.{
  ℕ, zero, suc, ◌≡◌, refl, sym, ◌∙◌, Bool, false, ◌||◌, List, [], ◌∷◌, Text, text_eq, any,
  any-append, arith, text_eq_iff,
}
use sentrydns.Store.Workers.{
  Worker, receiving, holding, checking, rejecting, gone, Pool, receive_next, send_next, Turn, sends,
  gives_up, stops, works, work, work_at, take_turn, take_turns,
}
use sentrydns.Store.Workers.Frame.{give_up-cases, work_at-Framed, unstopped}

abbrev pub is_in : Text → List Text → Bool
is_in d ds = any (text_eq d) ds

abbrev pub has_at : Text → Worker → Bool
has_at d receiving = false
has_at d (holding e) = text_eq d e
has_at d (checking e) = text_eq d e
has_at d (rejecting e) = text_eq d e
has_at d gone = false

abbrev pub is_with : Text → List Worker → Bool
is_with d ws = any (has_at d) ws

-- The domain is still on its way, or it is to be removed.
abbrev pub is_alive : Text → Pool → Bool
is_alive d p = is_in d p.unsent || is_in d p.queue || is_with d p.workers || is_in d p.removals

-- The rest of the pool, without its workers.
abbrev pub is_around : Text → Pool → Bool
is_around d p = is_in d p.unsent || is_in d p.queue || is_in d p.removals

receive_next-alive :
    (d : Text) (q : List Text) (p : Pool)
    → p.queue ≡ q
    → (has_at d (receive_next q p).0 || is_around d (receive_next q p).1) ≡ is_around d p
receive_next-alive d [] p e = ground arith
receive_next-alive d (c ∷ q) p e = ground arith

send_next-alive :
    (d : Text) (u : List Text) (p : Pool) → p.unsent ≡ u → is_alive d (send_next u p) ≡ is_alive d p
send_next-alive d [] p e = ground arith
send_next-alive d (c ∷ u) p e = ground (arith, any-append (text_eq d) p.queue (c ∷ []))

module _ (validate : Text → Bool) (d : Text) (bad : validate d ≡ false) where
  work-alive :
      (w : Worker) (p : Pool)
      → p.stopped ≡ false
      → (has_at d (work validate w p).0 || is_around d (work validate w p).1)
        ≡ (has_at d w || is_around d p)
  unfolding work
  work-alive receiving p h = receive_next-alive d p.queue p refl
  work-alive (holding e) p h = ground arith
  work-alive (checking e) p h = let t = (text_eq_iff d e) in ground arith
  work-alive (rejecting e) p h = ground (arith, any-append (text_eq d) p.removals (e ∷ []))
  work-alive gone p h = refl

  work_at-alive :
      (i : ℕ) (ws : List Worker) (p : Pool)
      → p.stopped ≡ false
      → let (ws', p') = work_at validate i ws p in
        (is_with d ws' || is_around d p') ≡ (is_with d ws || is_around d p)
  unfolding work_at
  work_at-alive i [] p h = refl
  work_at-alive zero (w ∷ ws) p h = let ih = work-alive w p h in ground arith
  work_at-alive (suc i) (w ∷ ws) p h = let ih = work_at-alive i ws p h in ground arith

  take_turn-alive :
      (t : Turn) (p : Pool)
      → (take_turn validate t p).stopped ≡ false
      → is_alive d (take_turn validate t p) ≡ is_alive d p
  unfolding take_turn
  take_turn-alive sends p h = let e = send_next-alive d p.unsent p refl in ground arith
  take_turn-alive gives_up p h = let g = give_up-cases p.unsent p in ground arith
  take_turn-alive stops p h = absurd (ground arith)
  take_turn-alive (works i) p h =
      let f = work_at-Framed validate i p.workers p in
      let e = work_at-alive i p.workers p (sym f.stopped ∙ h) in let u = f.unsent in ground arith

  pub take_turns-alive :
      (ts : List Turn) (p : Pool)
      → (take_turns validate ts p).stopped ≡ false
      → is_alive d (take_turns validate ts p) ≡ is_alive d p
  unfolding take_turns
  take_turns-alive [] p h = refl
  take_turns-alive (t ∷ ts) p h =
      let p' = take_turn validate t p in
      let before = unstopped validate ts p' h in
      take_turns-alive ts p' h ∙ take_turn-alive t p before
