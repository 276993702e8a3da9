-- ===== src/Store/Cleanup.antt =====
-- The cleanup of the store: how it waits for its upstream, and a removal that it undoes.
use sentrydns.Base.{
  arith, refl, ap, ◌∙◌, ℕ, zero, suc, ◌^◌, ◌≡◌, inl, inr, sym, Bool-cases, Bool, true, false,
  Option, List, [], ◌∷◌, ◌++◌, leb, if◌then◌else◌, Text, keys, All,
}
use sentrydns.Domain.{normalize, has}
use sentrydns.LearnedFile.{sort}
use sentrydns.LearnedFile.RoundTrip.{
  IsName, IsClean, has-keys, IsIn-sort, load_lines-has, lines-render,
}
use sentrydns.Store.{
  Store, Counters, new, remove, write_all, cancel_rewrite, next_backoff, wait_healthy, sweep,
  cleanup_among, save_cleanup_time, delete_all, to_remove, count_cleaned,
}
use sentrydns.StateFile.{Json, SaveCalls}
use sentrydns.Store.Persistence.{IsKept, delete_all-IsClean, write_all-IsKept}
use sentrydns.Store.Answers.{has-remove_iff}
use sentrydns.Store.Durability.{domains-new}

-- One second, doubled this many times, but at most a minute.
abbrev pub doubled : ℕ → ℕ
doubled k = if leb (2 ^ k) 60 then 2 ^ k else 60

-- The waits after the first `k` ones.
abbrev pub doubled_from : ℕ → ℕ → List ℕ
doubled_from k zero = []
doubled_from k (suc n) = doubled k ∷ doubled_from (suc k) n

abbrev pub failures : ℕ → List Bool
failures zero = []
failures (suc n) = false ∷ failures n

next_backoff-doubled : (k : ℕ) → next_backoff (doubled k) ≡ doubled (suc k)
unfolding next_backoff
next_backoff-doubled k = ground arith

wait_healthy-from :
    (k n : ℕ) (rest : List Bool)
    → wait_healthy (doubled k) (failures n ++ true ∷ rest) ≡ (doubled_from k n, true)
unfolding wait_healthy
wait_healthy-from k zero rest = refl
wait_healthy-from k (suc n) rest =
    rw (next_backoff-doubled k, wait_healthy-from (suc k) n rest) refl

-- After any number of failed health checks and one that succeeds, the cleanup goes on; it has waited once
-- for each failed check, the k-th time (from 0) for 2 ^ k seconds, but never for more than a minute.
pub wait_healthy_lem :
    (n : ℕ) (rest : List Bool)
    → wait_healthy 1 (failures n ++ true ∷ rest) ≡ (doubled_from 0 n, true)
wait_healthy_lem n rest = wait_healthy-from 0 n rest

remove-gone : (d : Text) (s : Store) → normalize d ≡ d → has (remove d s).domains d ≡ false
remove-gone d s nd = elim (Bool-cases (has (remove d s).domains d)) [
  | inl yet ↦ absurd (((has-remove_iff d d s).0 yet).1 (sym nd))
  | inr no_more ↦ no_more
]

file-remove : (d : Text) (s : Store) → (remove d s).file ≡ s.file
unfolding remove
file-remove d s = ground arith

-- What is in memory is in the file that `writeAll` writes.
written-has :
    (s : Store) (d : Text) (m : Option Counters) (b : Bool) (state_file : Option Text)
    → IsClean s.domains
    → All IsName s.persist_buf
    → has s.domains d ≡ true
    → has (new m b (write_all true s).file state_file).domains d ≡ true
written-has s d m b state_file clean buffer there =
    let w = write_all true s in
    let kw = write_all-IsKept s clean buffer in
    let listed = (IsIn-sort d (keys s.domains)).1 ((has-keys d s.domains clean.all_true).0 there) in
    rw (domains-new m b w.file state_file, kw.written, lines-render _ kw.names)
      ((load_lines-has d (sort (keys s.domains)) [] kw.names).1 (inr listed))

-- Writing the time of the cleanup changes the state file alone.
save_cleanup_time-kept :
    (json : Json) (calls : SaveCalls) (now : ℕ) (s : Store)
    → let t = save_cleanup_time json calls now s in
      (t.domains ≡ s.domains) × (t.rewrite_pending ≡ s.rewrite_pending) × (t.file ≡ s.file)
unfolding save_cleanup_time
save_cleanup_time-kept json calls now s = (ground arith, ground arith, ground arith)

-- When a domain that a cleanup keeps is removed after the cleanup has written the file and before it stops
-- the timer of the rewrite, the removal does not reach the file: at the end of the cleanup the store
-- does not have the domain and no rewrite is left to come, but a restart from the file has it again.
-- The domains, the buffer and the file must agree before the cleanup, and the rewrite of the cleanup
-- succeed.
pub cancelled_removal :
    (json : Json) (calls : SaveCalls) (now : ℕ) (verdicts : List (Text × Bool)) (s : Store)
    (ls : List Text) (d : Text) (m : Option Counters) (b : Bool) (state_file : Option Text)
    → IsKept s ls
    → normalize d ≡ d
    → has (sweep true verdicts s).domains d ≡ true
    → let t = cleanup_among json calls true now verdicts (remove d) s in
      (has t.domains d ≡ false)
      × (t.rewrite_pending ≡ false)
      × (has (new m b t.file state_file).domains d ≡ true)
unfolding cleanup_among
cancelled_removal json calls now verdicts s ls d m b state_file k nd there =
    let after = delete_all (to_remove verdicts) s.domains 0 in
    let pruned = record s { domains = after.0; metrics = count_cleaned after.1 s.metrics } in
    let w = sweep true verdicts s in
    let t = cancel_rewrite (remove d w) in
    let (domains, pending, file) = save_cleanup_time-kept json calls now t in
    (
      ap (λ v. has v d) domains ∙ remove-gone d w nd,
      pending,
      ap (λ f. has (new m b f state_file).domains d) (file ∙ file-remove d w)
          ∙ written-has pruned d m b state_file
              (delete_all-IsClean (to_remove verdicts) s.domains 0 k.clean) k.buffer there,
    )
