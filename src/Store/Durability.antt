-- ===== src/Store/Durability.antt =====
-- Runs of the store over a working disk, and what a restart finds.
use sentrydns.Base.{
  ℕ, ◌≡◌, refl, ap, ◌∙◌, subst, inl, inr, Bool, true, Option, none, some, List, [], ◌∷◌, Text, All,
  arith, or_else,
}
use sentrydns.Domain.{normalize, has}
use sentrydns.Domain.Suffix.{covers_iff}
use sentrydns.LearnedFile.{lines, load_lines, render}
use sentrydns.LearnedFile.RoundTrip.{
  IsName, IsIn, IsIn-nil, has-nil, IsClean-load_lines, IsClean-nil, lines-render, load_lines-has,
}
use sentrydns.StateFile.{Json, SaveCalls}
use sentrydns.Store.{
  Store, Counters, is_iran, load, new, add, remove, flush_persist, fire_rewrite, cleanup, stop,
  flush_state,
}
use sentrydns.Store.Persistence.{
  IsKept, add-IsKept, remove-IsKept, flush_persist-IsKept, fire_rewrite-IsKept, cleanup-IsKept,
  stop-IsKept, flush_state-IsKept,
}

-- One operation of the store, where the learned file can be opened and replaced and the domains
-- learned are names that a line can hold. The state file may fail.
pub data Step : Store → Store → Type 0 where
  adding : (s : Store) (today d : Text) → IsName (normalize d) → Step s (add today d s)
  removing : (s : Store) (d : Text) → Step s (remove d s)
  flushing : (s : Store) → Step s (flush_persist true s)
  rewriting : (s : Store) → Step s (fire_rewrite true s)
  cleaning :
      (s : Store) (json : Json) (calls : SaveCalls) (now : ℕ) (verdicts : List (Text × Bool))
      → Step s (cleanup json calls true now verdicts s)
  stopping :
      (s : Store) (json : Json) (calls : SaveCalls) (today : Text)
      → Step s (stop json calls today s)
  saving : (s : Store) (json : Json) (calls : SaveCalls) → Step s (flush_state json calls s)
  -- Another part of the program writes the counters and the state file, which it shares.
  sharing :
      (s : Store) (m : Option Counters) (f : Option Text)
      → Step s (record s { metrics = m; state_file = f })

pub data Reach (s : Store) : Store → Type 0 where
  start : Reach s s
  next : {t u : Store} → Reach s t → Step t u → Reach s u

abbrev pub Durable : Store → Type 0
Durable s = (ls : List Text) × IsKept s ls

Step-Durable : {s t : Store} → Step s t → Durable s → Durable t
Step-Durable (adding s today d n) (ls, k) = (ls, add-IsKept today d s ls n k)
Step-Durable (removing s d) (ls, k) = (ls, remove-IsKept d s ls k)
Step-Durable (flushing s) (ls, k) = flush_persist-IsKept s ls k
Step-Durable (rewriting s) (ls, k) = fire_rewrite-IsKept s ls k
Step-Durable (cleaning s json calls now verdicts) (ls, k) =
    cleanup-IsKept json calls now verdicts s ls k
Step-Durable (stopping s json calls today) (ls, k) = (ls, stop-IsKept json calls today s ls k)
Step-Durable (saving s json calls) (ls, k) = (ls, flush_state-IsKept json calls s ls k)
Step-Durable (sharing s m f) (ls, k) = (
  ls,
  record {
    written = k.written;
    names = k.names;
    clean = k.clean;
    buffer = k.buffer;
    kept = k.kept;
  },
)

Reach-Durable : {s t : Store} → Durable s → Reach s t → Durable t
Reach-Durable h start = h
Reach-Durable h (next r st) = Step-Durable st (Reach-Durable h r)

-- A learned file that the program wrote, or none.
abbrev pub WroteFile : Option Text → List Text → Type 0
WroteFile file ls = (or_else file [] ≡ render ls) × All IsName ls

new-Durable :
    (m : Option Counters) (b : Bool) (file state_file : Option Text) (ls : List Text)
    → WroteFile file ls
    → Durable (new m b file state_file)
unfolding new load
new-Durable m b none state_file ls (w, n) = (
  ls,
  record {
    written = w;
    names = n;
    clean = IsClean-nil;
    buffer = tt;
    kept = λ d h. absurd (has-nil d h);
  },
)
new-Durable m b (some text) state_file ls (w, n) = (
  ls,
  record {
    written = w;
    names = n;
    clean = rw read (IsClean-load_lines ls [] n IsClean-nil);
    buffer = tt;
    kept = λ d h.
        elim ((load_lines-has d ls [] n).0 (subst (λ l. has (load_lines l []) d ≡ true) read h)) [
          | inl never ↦ absurd (has-nil d never)
          | inr i ↦ inl i
        ];
  },
)
  where
    read : lines text ≡ ls
    read = ap lines w ∙ lines-render ls n

pub domains-new :
    (m : Option Counters) (b : Bool) (file state_file : Option Text)
    → (new m b file state_file).domains ≡ load_lines (lines (or_else file [])) []
unfolding new load load_lines lines
domains-new m b none state_file = refl
domains-new m b (some text) state_file = refl

flush_persist_empties : (s : Store) → (flush_persist true s).persist_buf ≡ []
unfolding flush_persist
flush_persist_empties s = empties s.persist_buf refl
  where
    empties : (l : List Text) → s.persist_buf ≡ l → (flush_persist true s).persist_buf ≡ []
    empties [] e = ground arith
    empties (d ∷ ds) e = ground arith

flush_persist-domains : (s : Store) → (flush_persist true s).domains ≡ s.domains
unfolding flush_persist
flush_persist-domains s = ground arith

has-restart :
    (s : Store) (m : Option Counters) (b : Bool) (state_file : Option Text) (d : Text)
    → Durable s
    → has s.domains d ≡ true
    → has (new m b (flush_persist true s).file state_file).domains d ≡ true
has-restart s m b state_file d (ls, k) h =
    let (ls', k') = flush_persist-IsKept s ls k in
    let in_file : IsIn d ls' = elim (k'.kept d (rw (flush_persist-domains s) h)) [
      | inl i ↦ i
      | inr (i, _) ↦ absurd (IsIn-nil d (subst (IsIn d) (flush_persist_empties s) i))
    ] in
    rw
      (
        domains-new m b (flush_persist true s).file state_file,
        k'.written,
        lines-render ls' k'.names,
      )
      ((load_lines-has d ls' [] k'.names).1 (inr in_file))

pub Reach-restart :
    (m m' : Option Counters) (b b' : Bool) (file state_file state_file' : Option Text)
    (ls : List Text) {s : Store} (q : Text)
    → WroteFile file ls
    → Reach (new m b file state_file) s
    → is_iran s q ≡ true
    → is_iran (new m' b' (flush_persist true s).file state_file') q ≡ true
Reach-restart m m' b b' file state_file state_file' ls {s} q w r h =
    let durable = Reach-Durable (new-Durable m b file state_file ls w) r in
    let again = new m' b' (flush_persist true s).file state_file' in
    let (x, i, found) = (covers_iff s.domains (normalize q)).0 (unfold is_iran in h) in
    unfold is_iran in
    (covers_iff again.domains (normalize q)).1
      (x, i, has-restart s m' b' state_file' x durable found)
