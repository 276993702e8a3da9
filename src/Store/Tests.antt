-- ===== src/Store/Tests.antt =====
-- Runs of the store, and its theorems at concrete stores.
use sentrydns.Base.{
  ◌≡◌, refl, ◌≢◌, inr, true, false, none, some, [], ◌∷◌, ◌++◌, Text, codes, find, insert, ap,
  delete, text_eq, ◌+◌, Bool, List, Dict, length, to_lower, here, arith,
}
use sentrydns.Domain.{normalize, has, covers, after_dot}
use sentrydns.LearnedFile.{render, lines, load_lines, sort}
use sentrydns.LearnedFile.RoundTrip.{IsName, has-keys}
use sentrydns.Store.{
  Store, load, new, is_iran, add, remove, flush_persist, write_all, fire_rewrite, wait_healthy,
  delete_all, sweep, cleanup_among,
}
use sentrydns.StateFile.Sample
use sentrydns.StateFile.Sample.{json}
use sentrydns.Store.Persistence.{IsKept}
use sentrydns.Store.Cleanup.{failures, wait_healthy_lem, cancelled_removal}
use sentrydns.Store.Workers.{start_pool, take_turns, is_over, Turn, sends, gives_up, stops, works}
use sentrydns.Store.Workers.Outcome.{after, delete_all-after}
use sentrydns.Store.Workers.Ends.{drive, run-ends}
use sentrydns.Store.Defects.{removed_then_learned, removed_comes_back}

abbrev site : Text
site = codes "site.ir"

abbrev shop : Text
shop = codes "shop.ir"

abbrev day : Text
day = codes "2026-01-01"

-- One domain, not yet written.
abbrev waiting : Store
waiting = record {
  domains = (site, true) ∷ [];
  persist_buf = site ∷ [];
  persist_buf_gen = 0;
  write_gen = 0;
  metrics = none;
  has_state = false;
  flush_buf = none;
  flush_pending = false;
  rewrite_pending = false;
  stopped = false;
  file = none;
  state_file = none;
}

abbrev empty : Store
empty = record waiting { domains = []; persist_buf = [] }

program : Unit {0}
unfolding new load is_iran add remove flush_persist fire_rewrite normalize has covers after_dot find
    insert delete text_eq to_lower render lines load_lines sort
program = tt

learns : add day (codes "Site.IR.") empty ≡ waiting
unfolding program
learns = refl

flushes : (flush_persist true waiting).file ≡ some (codes "site.ir" ++ 10 ∷ [])
unfolding program
flushes = refl

answers : (is_iran waiting (codes "www.site.ir.") ≡ true) × (is_iran waiting (codes "ir.") ≡ false)
unfolding program
answers = (refl, refl)

site-IsName : IsName site
site-IsName = record { solid = ground arith; kept = refl }

shop-IsName : IsName (normalize shop)
unfolding program
shop-IsName = record { solid = ground arith; kept = refl }

waiting-IsKept : IsKept waiting []
unfolding program
waiting-IsKept = record {
  written = refl;
  names = tt;
  clean = record { named = (site-IsName, tt); all_true = (refl, tt) };
  buffer = (site-IsName, tt);
  kept = λ d h. inr ((has-keys d waiting.domains (refl, tt)).0 h, refl);
}

shop_new : has waiting.domains (normalize shop) ≡ false
unfolding program
shop_new = refl

site_normal : normalize site ≡ site
unfolding program
site_normal = refl

shop_other : normalize shop ≢ site
unfolding program
shop_other e = ground arith

removed_comes_back_example :
    let t = removed_then_learned day site shop waiting in
    (has t.domains site ≡ false) × (has (new none false t.file none).domains site ≡ true)
removed_comes_back_example =
    removed_comes_back waiting [] day site shop none false none waiting-IsKept (here refl)
      site_normal shop-IsName shop_new shop_other

-- The seventh wait would be 64 seconds.
waits : (wait_healthy 1 (failures 7 ++ true ∷ [])).0 ≡ 1 ∷ 2 ∷ 4 ∷ 8 ∷ 16 ∷ 32 ∷ 60 ∷ []
waits = ap (λ v. v.0) (wait_healthy_lem 7 [])

-- The cleanup of a store whose only domain is still valid.
abbrev still_valid : List (Text × Bool)
still_valid = (site, true) ∷ []

stays : has (sweep true still_valid waiting).domains site ≡ true
unfolding program delete_all write_all
stays = refl

cancelled_removal_example :
    let t = cleanup_among json Sample.works true 7 still_valid (remove site) waiting in
    (has t.domains site ≡ false)
    × (t.rewrite_pending ≡ false)
    × (has (new none false t.file none).domains site ≡ true)
cancelled_removal_example =
    cancelled_removal json Sample.works 7 still_valid waiting [] site none false none waiting-IsKept
      site_normal stays

-- Two workers, of which the second takes the first domain and the first one the other; the second turn
-- of a worker that waits does nothing.
abbrev crossed : List Turn
crossed =
    sends
    ∷ works 1
    ∷ sends
    ∷ works 0
    ∷ works 1
    ∷ works 0
    ∷ sends
    ∷ works 0
    ∷ works 0
    ∷ works 1
    ∷ works 1
    ∷ works 1
    ∷ works 0
    ∷ works 1
    ∷ []

abbrev is_shop : Text → Bool
is_shop d = text_eq d shop

abbrev both_sites : Dict Bool
both_sites = (site, true) ∷ (shop, true) ∷ []

crossed_over : is_over (after is_shop 2 (site ∷ shop ∷ []) crossed) ≡ true
unfolding start_pool take_turns is_over text_eq
crossed_over = refl

delete_all-after_example :
    let (rest, removed) =
      delete_all (after is_shop 2 (site ∷ shop ∷ []) crossed).removals both_sites 0 in
    (rest ≡ (shop, true) ∷ []) × (removed + length rest ≡ 2)
unfolding start_pool take_turns is_over text_eq find
delete_all-after_example =
    delete_all-after is_shop 2 (site ∷ shop ∷ []) crossed both_sites (omega arith) refl crossed_over
      (refl, (refl, tt)) (refl, (refl, tt))

-- A stop while the only domain is still in the channel: the worker leaves it there, and the loop, which
-- had sent it before, does not see the stop.
abbrev late_stop : List Turn
late_stop = sends ∷ sends ∷ works 0 ∷ stops ∷ gives_up ∷ works 0 ∷ []

late_stop_runs :
    let p = after is_shop 1 (site ∷ []) late_stop in
    (is_over p ≡ true) × (p.cut ≡ false) × (p.removals ≡ [])
unfolding start_pool take_turns is_over
late_stop_runs = (refl, refl, refl)

run-ends_example :
    let p = take_turns is_shop (sends ∷ sends ∷ stops ∷ []) (start_pool 1 (site ∷ shop ∷ [])) in
    is_over (drive is_shop 14 p) ≡ true
run-ends_example = run-ends is_shop 1 (site ∷ shop ∷ []) (sends ∷ sends ∷ stops ∷ []) (omega arith)
