-- ===== src/Store/Workers/Sound.antt =====
-- The workers of the cleanup put only invalid domains on the list of what to remove.
use sentrydns.Base.{
  ℕ, zero, suc, ◌≡◌, refl, sym, Bool, true, false, List, [], ◌∷◌, ◌++◌, Text, All, subst, arith,
  text_eq_iff,
}
use sentrydns.Store.Workers.{
  Worker, receiving, holding, checking, rejecting, gone, Pool, receive_next, send_next, receivers,
  start_pool, Turn, sends, gives_up, stops, works, work, work_at, take_turn, take_turns,
}
use sentrydns.Store.Workers.Order.{is_in}
use sentrydns.Store.Workers.Frame.{give_up-cases}

-- Only domains that do not validate are rejected or to be removed.
module _ (validate : Text → Bool) where
  abbrev pub IsBad : Text → Type 0
  IsBad d = validate d ≡ false

  abbrev IsJust : Worker → Type 0
  IsJust receiving = Unit
  IsJust (holding d) = Unit
  IsJust (checking d) = Unit
  IsJust (rejecting d) = IsBad d
  IsJust gone = Unit

  All-append : (ds : List Text) (d : Text) → All IsBad ds → IsBad d → All IsBad (ds ++ d ∷ [])
  All-append [] d h b = (b, tt)
  All-append (e ∷ ds) d h b = (h.0, All-append ds d h.1 b)

  receive_next-IsJust :
      (q : List Text) (p : Pool)
      → All IsBad p.removals
      → IsJust (receive_next q p).0 × All IsBad (receive_next q p).1.removals
  receive_next-IsJust [] p h = (ground arith, h)
  receive_next-IsJust (d ∷ q) p h = (tt, h)

  work-IsJust :
      (w : Worker) (p : Pool)
      → IsJust w
      → All IsBad p.removals
      → IsJust (work validate w p).0 × All IsBad (work validate w p).1.removals
  unfolding work
  work-IsJust receiving p j h = receive_next-IsJust p.queue p h
  work-IsJust (holding d) p j h = (ground arith, h)
  work-IsJust (checking d) p j h = (ground arith, h)
  work-IsJust (rejecting d) p j h = (tt, All-append p.removals d h j)
  work-IsJust gone p j h = (tt, h)

  work_at-IsJust :
      (i : ℕ) (ws : List Worker) (p : Pool)
      → All IsJust ws
      → All IsBad p.removals
      → All IsJust (work_at validate i ws p).0 × All IsBad (work_at validate i ws p).1.removals
  unfolding work_at
  work_at-IsJust i [] p j h = (j, h)
  work_at-IsJust zero (w ∷ ws) p j h = let k = work-IsJust w p j.0 h in ((k.0, j.1), k.1)
  work_at-IsJust (suc i) (w ∷ ws) p j h = let k = work_at-IsJust i ws p j.1 h in ((j.0, k.0), k.1)

  send_next-same :
      (u : List Text) (p : Pool)
      → ((send_next u p).workers ≡ p.workers) × ((send_next u p).removals ≡ p.removals)
  send_next-same [] p = (refl, refl)
  send_next-same (d ∷ u) p = ground arith

  abbrev IsSound : Pool → Type 0
  IsSound p = All IsJust p.workers × All IsBad p.removals

  IsSound-same :
      (p p' : Pool) → p'.workers ≡ p.workers → p'.removals ≡ p.removals → IsSound p → IsSound p'
  IsSound-same p p' e f v = (subst (All IsJust) (sym e) v.0, subst (All IsBad) (sym f) v.1)

  take_turn-IsSound : (t : Turn) (p : Pool) → IsSound p → IsSound (take_turn validate t p)
  unfolding take_turn
  take_turn-IsSound sends p v =
      let e = send_next-same p.unsent p in
      IsSound-same p (take_turn validate sends p) (ground (arith, e)) (ground (arith, e)) v
  take_turn-IsSound gives_up p v =
      let g = give_up-cases p.unsent p in
      IsSound-same p (take_turn validate gives_up p) (ground arith) (ground arith) v
  take_turn-IsSound stops p v = v
  take_turn-IsSound (works i) p v = work_at-IsJust i p.workers p v.0 v.1

  take_turns-IsSound : (ts : List Turn) (p : Pool) → IsSound p → IsSound (take_turns validate ts p)
  unfolding take_turns
  take_turns-IsSound [] p v = v
  take_turns-IsSound (t ∷ ts) p v =
      take_turns-IsSound ts (take_turn validate t p) (take_turn-IsSound t p v)

  receivers-IsJust : (qps : ℕ) → All IsJust (receivers qps)
  receivers-IsJust zero = tt
  receivers-IsJust (suc qps) = (tt, receivers-IsJust qps)

  start_pool-IsSound : (qps : ℕ) (domains : List Text) → IsSound (start_pool qps domains)
  unfolding start_pool
  start_pool-IsSound qps domains = (receivers-IsJust qps, tt)

  -- However the turns are taken, only domains that do not validate are to be removed.
  pub run-IsBad :
      (qps : ℕ) (domains : List Text) (ts : List Turn)
      → All IsBad (take_turns validate ts (start_pool qps domains)).removals
  run-IsBad qps domains ts =
      (take_turns-IsSound ts (start_pool qps domains) (start_pool-IsSound qps domains)).1

  pub is_in-IsBad :
      (d : Text) (ds : List Text) → All IsBad ds → validate d ≡ true → is_in d ds ≡ false
  is_in-IsBad d [] h v = refl
  is_in-IsBad d (e ∷ ds) h v =
      let ih = is_in-IsBad d ds h.1 v in let b = h.0 in ground (arith, text_eq_iff d e)
