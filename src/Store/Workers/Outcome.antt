-- ===== src/Store/Workers/Outcome.antt =====
-- What the cleanup does to the store, whatever turns its goroutines take.
use sentrydns.Base.{
  ℕ, zero, suc, ◌+◌, ◌<◌, ◌≡◌, refl, sym, ap, ◌∙◌, Bool, true, false, not, ◌&&◌, List, [], ◌∷◌,
  length, Text, Dict, keep, Distinct, Bool-cases, inl, inr, arith,
}
use sentrydns.Domain.{has}
use sentrydns.LearnedFile.RoundTrip.{AllTrue}
use sentrydns.Store.{delete_all}
use sentrydns.Store.Workers.{
  Worker, receiving, holding, checking, rejecting, gone, Pool, receivers, start_pool, Turn,
  take_turns, all_gone, is_over,
}
use sentrydns.Store.Workers.Frame.{run-IsOrderly, any-all_gone}
use sentrydns.Store.Workers.Sizes.{length-run}
use sentrydns.Store.Workers.Order.{is_in, is_with, is_alive, take_turns-alive}
use sentrydns.Store.Workers.Deletes.{delete_all-keep, delete_all-count, has-delete_all}
use sentrydns.Store.Workers.Sound.{run-IsBad, is_in-IsBad}

is_with-receivers : (d : Text) (qps : ℕ) → is_with d (receivers qps) ≡ false
is_with-receivers d zero = refl
is_with-receivers d (suc qps) = is_with-receivers d qps

is_with-gone : (d : Text) (ws : List Worker) → all_gone ws ≡ true → is_with d ws ≡ false
is_with-gone d [] h = refl
is_with-gone d (gone ∷ ws) h = is_with-gone d ws h
is_with-gone d (receiving ∷ ws) h = absurd (ground arith)
is_with-gone d (holding e ∷ ws) h = absurd (ground arith)
is_with-gone d (checking e ∷ ws) h = absurd (ground arith)
is_with-gone d (rejecting e ∷ ws) h = absurd (ground arith)

module _ (validate : Text → Bool) (qps : ℕ) (domains : List Text) (ts : List Turn) where
  -- The pool after its turns.
  abbrev pub after : Pool
  after = take_turns validate ts (start_pool qps domains)

  alive-bad :
      (d : Text) → validate d ≡ false → after.stopped ≡ false → is_alive d after ≡ is_in d domains
  unfolding start_pool
  alive-bad d bad s =
      let e = take_turns-alive validate d bad ts (start_pool qps domains) s in
      let r = is_with-receivers d qps in e ∙ ground (arith, r)

  removals-bad :
      (d : Text)
      → 0 < qps
      → after.stopped ≡ false
      → is_over after ≡ true
      → validate d ≡ false
      → is_in d after.removals ≡ is_in d domains
  unfolding is_over
  removals-bad d n s o bad =
      let v = run-IsOrderly validate qps domains ts in
      let l = length-run validate qps domains ts in
      let fin : after.finished ≡ true = ground arith in
      let all : all_gone after.workers ≡ true = ground arith in
      let w = is_with-gone d after.workers all in
      let u = v.ended s fin in
      let q = (v.drained s (any-all_gone after.workers (omega (arith, l, n)) all)).1 in
      let a = alive-bad d bad s in
      let us : is_in d after.unsent ≡ false = ap (is_in d) u in
      let qs : is_in d after.queue ≡ false = ap (is_in d) q in sym (rw (us, qs, w) refl) ∙ a

  -- The list of what to remove, once all workers are done and nothing was stopped.
  pub removals_iff :
      (d : Text)
      → 0 < qps
      → after.stopped ≡ false
      → is_over after ≡ true
      → is_in d after.removals ≡ (is_in d domains && not (validate d))
  removals_iff d n s o = elim (Bool-cases (validate d)) [
    | inl good ↦
        let e = is_in-IsBad validate d after.removals (run-IsBad validate qps domains ts) good in
        ground arith
    | inr bad ↦ let e = removals-bad d n s o bad in ground arith
  ]

keep-cong :
    (f g : Text × Bool → Bool) (m : Dict Bool)
    → ((e : Text × Bool) → f e ≡ g e)
    → keep f m ≡ keep g m
keep-cong f g [] h = refl
keep-cong f g (e ∷ m) h = let ih = keep-cong f g m h in let x = h e in ground arith

-- With at least one worker, whatever turns the loop and the workers take up to the return of `wg.Wait`,
-- and without a stop: the loop that deletes leaves just the domains that validate or were not in
-- the snapshot `domains` that the cleanup took, and counts the others. The map may have changed since.
pub delete_all-after :
    (validate : Text → Bool) (qps : ℕ) (domains : List Text) (ts : List Turn) (m : Dict Bool)
    → 0 < qps
    → (after validate qps domains ts).stopped ≡ false
    → is_over (after validate qps domains ts) ≡ true
    → AllTrue m
    → Distinct m
    → let (rest, removed) = delete_all (after validate qps domains ts).removals m 0 in
      (rest ≡ keep (λ e. not (is_in e.0 domains && not (validate e.0))) m)
      × (removed + length rest ≡ length m)
delete_all-after validate qps domains ts m n s o t u =
    let ds = (after validate qps domains ts).removals in
    (
      delete_all-keep ds m 0 t
          ∙ keep-cong (λ e. not (is_in e.0 ds)) (λ e. not (is_in e.0 domains && not (validate e.0)))
              m (λ e. ap not (removals_iff validate qps domains ts e.0 n s o)),
      let c = delete_all-count ds m 0 u in omega (arith, c),
    )

-- Whatever turns are taken, also with a stop at any point: a domain that validates is still there after
-- the loop that deletes.
pub has-delete_all-after :
    (validate : Text → Bool) (qps : ℕ) (domains : List Text) (ts : List Turn) (m : Dict Bool)
    (d : Text)
    → validate d ≡ true
    → has (delete_all (after validate qps domains ts).removals m 0).0 d ≡ has m d
has-delete_all-after validate qps domains ts m d good =
    let ds = (after validate qps domains ts).removals in
    has-delete_all d ds m 0 (is_in-IsBad validate d ds (run-IsBad validate qps domains ts) good)
