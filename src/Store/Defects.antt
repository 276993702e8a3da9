-- ===== src/Store/Defects.antt =====
-- Two ways in which the learned file and the store part: a rewrite that fails, and a buffer that
-- outlives a removal.
use sentrydns.Base.{
  ◌≡◌, refl, sym, ◌∙◌, subst, ◌≢◌, inl, inr, Bool, true, false, Option, List, [], ◌∷◌, ◌++◌, ◌==◌,
  Text, arith, Bool-cases, or_else,
}
use sentrydns.Domain.{normalize, has}
use sentrydns.LearnedFile.{render}
use sentrydns.LearnedFile.RoundTrip.{
  IsName, IsIn, IsIn-nil, IsIn-append_left, IsIn-append_right, All-append, lines-render,
  render-append, load_lines-has,
}
use sentrydns.Store.{Store, Counters, new, add, remove, flush_persist, fire_rewrite, no_names}
use sentrydns.Store.Answers.{has-add_iff, has-remove_iff}
use sentrydns.Store.Persistence.{IsKept, add-IsKept, remove-IsKept, fire_rewrite-IsKept}
use sentrydns.Store.Durability.{domains-new}

persist_buf-remove : (d : Text) (s : Store) → (remove d s).persist_buf ≡ s.persist_buf
unfolding remove
persist_buf-remove d s = ground arith

persist_buf-fire_rewrite : (s : Store) → (fire_rewrite true s).persist_buf ≡ s.persist_buf
unfolding fire_rewrite
persist_buf-fire_rewrite s = ground arith

domains-fire_rewrite : (s : Store) → (fire_rewrite true s).domains ≡ s.domains
unfolding fire_rewrite
domains-fire_rewrite s = ground arith

-- Learning a new domain makes the whole buffer current again.
persist_buf-add :
    (today d : Text) (s : Store)
    → has s.domains (normalize d) ≡ false
    → ((add today d s).persist_buf ≡ s.persist_buf ++ normalize d ∷ [])
      × ((add today d s).persist_buf_gen ≡ (add today d s).write_gen)
unfolding add
persist_buf-add today d s h = ground arith

flush_current :
    (s : Store) (ls : List Text) (x : Text)
    → or_else s.file [] ≡ render ls
    → s.persist_buf_gen ≡ s.write_gen
    → IsIn x s.persist_buf
    → or_else (flush_persist true s).file [] ≡ render (ls ++ s.persist_buf)
unfolding flush_persist
flush_current s ls x w g i =
    let current : (s.write_gen == s.persist_buf_gen) ≡ true = ground arith in
    rw (no_names-IsIn x s.persist_buf i, current) (rw (w, render-append) refl)
  where
    no_names-IsIn : (x : Text) (l : List Text) → IsIn x l → no_names l ≡ false
    no_names-IsIn x [] i = absurd (IsIn-nil x i)
    no_names-IsIn x (e ∷ l) i = refl

-- What the store does when a domain `d` that still waits in the buffer is removed, the rewrite runs,
-- another domain `e` is learned, and the buffer is flushed.
abbrev pub removed_then_learned : Text → Text → Text → Store → Store
removed_then_learned today d e s = flush_persist true (add today e (fire_rewrite true (remove d s)))

flush_persist-has : (s : Store) (x : Text) → has (flush_persist true s).domains x ≡ has s.domains x
unfolding flush_persist
flush_persist-has s x = ground arith

not_there :
    (s : Store) (d e : Text)
    → has s.domains (normalize e) ≡ false
    → has (fire_rewrite true (remove d s)).domains (normalize e) ≡ false
not_there s d e h =
    rw (domains-fire_rewrite (remove d s))
      (elim (Bool-cases (has (remove d s).domains (normalize e))) [
        | inl yet ↦ absurd (ground (arith, (has-remove_iff (normalize e) d s).0 yet))
        | inr no_more ↦ no_more
      ])

gone :
    (s : Store) (today d e : Text)
    → normalize d ≡ d
    → normalize e ≢ d
    → has (add today e (fire_rewrite true (remove d s))).domains d ≡ false
gone s today d e nd other =
    elim (Bool-cases (has (add today e (fire_rewrite true (remove d s))).domains d)) [
      | inl yet ↦ elim ((has-add_iff d today e (fire_rewrite true (remove d s))).0 yet) [
        | inl old ↦
            let removed : has (remove d s).domains d ≡ true =
              subst (λ m. has m d ≡ true) (domains-fire_rewrite (remove d s)) old in
            absurd (((has-remove_iff d d s).0 removed).1 (sym nd))
        | inr q ↦ absurd (other q)
      ]
      | inr no_more ↦ no_more
    ]

-- A domain that is removed while it waits in the buffer comes back: once the rewrite has run and
-- another domain has been learned, the next flush writes it to the file, so that the store does not
-- have it, but a restart from the file does.
pub removed_comes_back :
    (s : Store) (ls : List Text) (today d e : Text) (m : Option Counters) (b : Bool)
    (state_file : Option Text)
    → IsKept s ls
    → IsIn d s.persist_buf
    → normalize d ≡ d
    → IsName (normalize e)
    → has s.domains (normalize e) ≡ false
    → normalize e ≢ d
    → let t = removed_then_learned today d e s in
      (has t.domains d ≡ false) × (has (new m b t.file state_file).domains d ≡ true)
removed_comes_back s ls today d e m b state_file k i nd ne fresh other =
    let r = remove d s in
    let (ls', k') = fire_rewrite-IsKept r ls (remove-IsKept d s ls k) in
    let f = fire_rewrite true r in
    let fresh' : has f.domains (normalize e) ≡ false = not_there s d e fresh in
    let a = add today e f in
    let ka = add-IsKept today e f ls' ne k' in
    let (buffered, current) = persist_buf-add today e f fresh' in
    let kept : IsIn d a.persist_buf = subst (IsIn d) (sym buffered) (
      IsIn-append_left d f.persist_buf (normalize e ∷ [])
        (subst (IsIn d) (sym (persist_buf-fire_rewrite r ∙ persist_buf-remove d s)) i)) in
    let all_names = All-append ls' a.persist_buf ka.names ka.buffer in
    (
      flush_persist-has a d ∙ gone s today d e nd other,
      rw
          (
            domains-new m b (flush_persist true a).file state_file,
            flush_current a ls' d ka.written current kept,
            lines-render _ all_names,
          )
          ((load_lines-has d (ls' ++ a.persist_buf) [] all_names).1
            (inr (IsIn-append_right d ls' a.persist_buf kept))),
    )
