-- ===== src/Store/Persistence.antt =====
-- No learned domain is lost while the disk works: it is in the file, or in the buffer that the next
-- flush writes.
use sentrydns.Base.{
  ℕ, ◌≡◌, refl, ◌⊎◌, inl, inr, Bool, true, false, Option, List, [], ◌∷◌, ◌++◌, ◌==◌, Text, Dict,
  insert, delete, keys, All, here, arith, Bool-cases, if◌then◌else◌, or_else,
}
use sentrydns.Domain.{normalize, has}
use sentrydns.LearnedFile.{render, sort}
use sentrydns.LearnedFile.RoundTrip.{
  IsName, IsIn, IsClean, IsClean-insert, IsClean-delete, Named-keys, IsIn-append_left,
  IsIn-append_right, All-append, All-sort, IsIn-sort, has-keys, has-insert_iff, render-append,
}
use sentrydns.StateFile.{Json, SaveCalls}
use sentrydns.Store.{
  Store, Counters, new, add, remove, flush_persist, write_all, fire_rewrite, cleanup, cleanup_among,
  delete_all, to_remove, save_learned_today, persist, at_fifty, count_learned, count_cleaned, stop,
  flush_state, save_cleanup_time, no_names,
}
use sentrydns.Store.Answers.{has-delete_iff}

-- The lines of the learned file, and where each domain of the store is.
pub record IsKept (s : Store) (ls : List Text) : Type 0 where
  pub written : or_else s.file [] ≡ render ls
  pub names : All IsName ls
  pub clean : IsClean s.domains
  pub buffer : All IsName s.persist_buf
  pub kept :
      (d : Text)
      → has s.domains d ≡ true
      → IsIn d ls ⊎ (IsIn d s.persist_buf × (s.persist_buf_gen ≡ s.write_gen))

-- The parts of the store that this is about.
pub record Same (s t : Store) : Type 0 where
  pub domains : t.domains ≡ s.domains
  pub persist_buf : t.persist_buf ≡ s.persist_buf
  pub persist_buf_gen : t.persist_buf_gen ≡ s.persist_buf_gen
  pub write_gen : t.write_gen ≡ s.write_gen
  pub file : t.file ≡ s.file

IsKept-Same : (s t : Store) (ls : List Text) → Same s t → IsKept s ls → IsKept t ls
IsKept-Same s t ls e k = record {
  written = rw e.file k.written;
  names = k.names;
  clean = rw e.domains k.clean;
  buffer = rw e.persist_buf k.buffer;
  kept = rw (e.domains, e.persist_buf, e.persist_buf_gen, e.write_gen) k.kept;
}

save_learned_today-Same : (today : Text) (s : Store) → Same s (save_learned_today today s)
unfolding save_learned_today
save_learned_today-Same today s = ground arith

learn-IsKept :
    (d : Text) (s : Store) (ls : List Text) (m : Option Counters)
    → IsName d
    → IsKept s ls
    → IsKept (persist d (record s { domains = insert d true s.domains; metrics = m })) ls
unfolding persist
learn-IsKept d s ls m n k = record {
  written = k.written;
  names = k.names;
  clean = IsClean-insert d s.domains n k.clean;
  buffer = All-append s.persist_buf (d ∷ []) k.buffer (n, tt);
  kept = λ x h. elim ((has-insert_iff x d s.domains).0 h) [
    | inl old ↦ elim (k.kept x old) [
      | inl i ↦ inl i
      | inr (i, _) ↦ inr (IsIn-append_left x s.persist_buf (d ∷ []) i, refl)
    ]
    | inr e ↦ inr (IsIn-append_right x s.persist_buf (d ∷ []) (here e), refl)
  ];
}

pub add-IsKept :
    (today d : Text) (s : Store) (ls : List Text)
    → IsName (normalize d)
    → IsKept s ls
    → IsKept (add today d s) ls
unfolding add
add-IsKept today d s ls n k = elim (Bool-cases (has s.domains (normalize d))) [
  | inl old ↦ rw old k
  | inr new ↦
      let after = persist (normalize d) (record s {
        domains = insert (normalize d) true s.domains;
        metrics = count_learned s.metrics;
      }) in
      let learned = learn-IsKept (normalize d) s ls (count_learned s.metrics) n k in
      elim (Bool-cases (at_fifty (count_learned s.metrics))) [
        | inl fifty ↦
            rw (new, fifty) (IsKept-Same after _ ls (save_learned_today-Same today after) learned)
        | inr other ↦ rw (new, other) learned
      ]
]

pub remove-IsKept : (d : Text) (s : Store) (ls : List Text) → IsKept s ls → IsKept (remove d s) ls
unfolding remove
remove-IsKept d s ls k = elim (Bool-cases (has s.domains (normalize d))) [
  | inl old ↦ rw old (record {
    written = k.written;
    names = k.names;
    clean = IsClean-delete (normalize d) s.domains k.clean;
    buffer = k.buffer;
    kept = λ x h. k.kept x ((has-delete_iff x (normalize d) s.domains).0 h).0;
  })
  | inr new ↦ rw new k
]

-- A successful rewrite puts every domain into the file, whatever was there.
pub write_all-IsKept :
    (s : Store)
    → IsClean s.domains
    → All IsName s.persist_buf
    → IsKept (write_all true s) (sort (keys s.domains))
unfolding write_all
write_all-IsKept s c b = record {
  written = refl;
  names = All-sort (keys s.domains) (Named-keys s.domains c.named);
  clean = c;
  buffer = b;
  kept = λ d h. inl ((IsIn-sort d (keys s.domains)).1 ((has-keys d s.domains c.all_true).0 h));
}

-- The lines of the file after a flush.
abbrev pub flushed : Store → List Text → List Text
flushed s ls = if s.write_gen == s.persist_buf_gen then ls ++ s.persist_buf else ls

pub flush_persist-IsKept :
    (s : Store) (ls : List Text)
    → IsKept s ls
    → (ls' : List Text) × IsKept (flush_persist true s) ls'
unfolding flush_persist
flush_persist-IsKept s ls k = elim (Bool-cases (no_names s.persist_buf)) [
  | inl nothing ↦ (ls, rw nothing k)
  | inr some_names ↦ elim (Bool-cases (s.write_gen == s.persist_buf_gen)) [
    | inl current ↦ (
      ls ++ s.persist_buf,
      rw (some_names, current)
          (record {
            written = rw (k.written, render-append) refl;
            names = All-append ls s.persist_buf k.names k.buffer;
            clean = k.clean;
            buffer = tt;
            kept = λ d h. elim (k.kept d h) [
              | inl i ↦ inl (IsIn-append_left d ls s.persist_buf i)
              | inr (i, _) ↦ inl (IsIn-append_right d ls s.persist_buf i)
            ];
          }),
    )
    | inr stale ↦ (
      ls,
      rw (some_names, stale)
          (record {
            written = k.written;
            names = k.names;
            clean = k.clean;
            buffer = tt;
            kept = λ d h. elim (k.kept d h) [ inl i ↦ inl i | inr (i, e) ↦ absurd (ground arith) ];
          }),
    )
  ]
]

IsClean-if : (b : Bool) (m n : Dict Bool) → IsClean m → IsClean n → IsClean (if b then m else n)
IsClean-if true m n c d = c
IsClean-if false m n c d = d

pub delete_all-IsClean :
    (ds : List Text) (m : Dict Bool) (n : ℕ) → IsClean m → IsClean (delete_all ds m n).0
unfolding delete_all
delete_all-IsClean [] m n c = c
delete_all-IsClean (d ∷ ds) m n c =
    delete_all-IsClean ds (if has m d then delete d m else m) _
      (IsClean-if (has m d) (delete d m) m (IsClean-delete d m c) c)

flag-Same : (s : Store) (b : Bool) → Same s (record s { rewrite_pending = b })
flag-Same s b = record {
  domains = refl;
  persist_buf = refl;
  persist_buf_gen = refl;
  write_gen = refl;
  file = refl;
}

save_cleanup_time-Same :
    (json : Json) (calls : SaveCalls) (now : ℕ) (s : Store)
    → Same s (save_cleanup_time json calls now s)
unfolding save_cleanup_time
save_cleanup_time-Same json calls now s = ground arith

pub stop-IsKept :
    (json : Json) (calls : SaveCalls) (today : Text) (s : Store) (ls : List Text)
    → IsKept s ls
    → IsKept (stop json calls today s) ls
stop-IsKept json calls today s ls k = IsKept-Same s _ ls (unfold stop in ground arith) k

pub flush_state-IsKept :
    (json : Json) (calls : SaveCalls) (s : Store) (ls : List Text)
    → IsKept s ls
    → IsKept (flush_state json calls s) ls
flush_state-IsKept json calls s ls k = IsKept-Same s _ ls (unfold flush_state in ground arith) k

pub fire_rewrite-IsKept :
    (s : Store) (ls : List Text)
    → IsKept s ls
    → (ls' : List Text) × IsKept (fire_rewrite true s) ls'
unfolding fire_rewrite
fire_rewrite-IsKept s ls k = elim (Bool-cases s.rewrite_pending) [
  | inl due ↦
      let quiet = record s { rewrite_pending = false } in
      (sort (keys s.domains), rw due (write_all-IsKept quiet k.clean k.buffer))
  | inr idle ↦ (ls, rw idle (IsKept-Same s _ ls (flag-Same s false) k))
]

-- A cleanup whose rewrite succeeds leaves its domains in the file too.
pub cleanup-IsKept :
    (json : Json) (calls : SaveCalls) (now : ℕ) (verdicts : List (Text × Bool)) (s : Store)
    (ls : List Text)
    → IsKept s ls
    → (ls' : List Text) × IsKept (cleanup json calls true now verdicts s) ls'
unfolding cleanup cleanup_among
cleanup-IsKept json calls now verdicts s ls k =
    let after = delete_all (to_remove verdicts) s.domains 0 in
    let pruned = record s { domains = after.0; metrics = count_cleaned after.1 s.metrics } in
    let wrote =
      write_all-IsKept pruned (delete_all-IsClean (to_remove verdicts) s.domains 0 k.clean)
        k.buffer in
    let quiet = record (write_all true pruned) { rewrite_pending = false } in
    (
      sort (keys after.0),
      IsKept-Same quiet _ (sort (keys after.0)) (save_cleanup_time-Same json calls now quiet) (
          IsKept-Same (write_all true pruned) quiet (sort (keys after.0))
            (flag-Same (write_all true pruned) false) wrote),
    )
