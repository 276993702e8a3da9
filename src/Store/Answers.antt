-- ===== src/Store/Answers.antt =====
-- What the store answers after a domain is learned or removed.
use sentrydns.Base.{
  ◌≡◌, refl, sym, subst, ◌≢◌, ◌↔◌, ◌⊎◌, inl, inr, Bool, true, Text, Dict, insert, delete,
  text_eq_iff, find-delete, arith, Bool-cases, if◌then◌else◌,
}
use sentrydns.Domain.{normalize, has}
use sentrydns.Domain.Suffix.{IsSuffix, covers_iff}
use sentrydns.LearnedFile.RoundTrip.{has-insert_iff}
use sentrydns.Store.{Store, is_iran, add, remove}

domains-add :
    (today d : Text) (s : Store)
    → (add today d s).domains
      ≡ (if has s.domains (normalize d) then s.domains else insert (normalize d) true s.domains)
unfolding add
domains-add today d s = ground arith

domains-remove :
    (d : Text) (s : Store)
    → (remove d s).domains
      ≡ (if has s.domains (normalize d) then delete (normalize d) s.domains else s.domains)
unfolding remove
domains-remove d s = ground arith

pub has-delete_iff :
    (x d : Text) (m : Dict Bool) → (has (delete d m) x ≡ true) ↔ ((has m x ≡ true) × (x ≢ d))
unfolding has
has-delete_iff x d m = ground (arith, find-delete d x m, text_eq_iff d x)

pub has-add_iff :
    (x today d : Text) (s : Store)
    → (has (add today d s).domains x ≡ true) ↔ ((has s.domains x ≡ true) ⊎ (normalize d ≡ x))
has-add_iff x today d s = elim (Bool-cases (has s.domains (normalize d))) [
  | inl old ↦
      rw (domains-add today d s, old)
        (inl, λ h. elim h [ inl e ↦ e | inr e ↦ subst (λ t. has s.domains t ≡ true) e old ])
  | inr new ↦ rw (domains-add today d s, new) (has-insert_iff x (normalize d) s.domains)
]

-- After a domain is learned, a query is taken for Iranian exactly if it was before, or if the domain
-- is the query's name or what follows one of its dots (both without letter case and trailing dot).
is_iran-add :
    (today d q : Text) (s : Store)
    → (is_iran (add today d s) q ≡ true)
      ↔ ((is_iran s q ≡ true) ⊎ IsSuffix (normalize d) (normalize q))
unfolding is_iran
is_iran-add today d q s =
    let (to, from) = covers_iff (add today d s).domains (normalize q) in
    let (to', from') = covers_iff s.domains (normalize q) in
    (
      λ h.
          let (x, i, m) = to h in
          elim ((has-add_iff x today d s).0 m) [
            | inl old ↦ inl (from' (x, i, old))
            | inr e ↦ inr (subst (λ t. IsSuffix t (normalize q)) (sym e) i)
          ],
      λ h. elim h [
        | inl old ↦ let (x, i, m) = to' old in from (x, i, (has-add_iff x today d s).1 (inl m))
        | inr i ↦ from (normalize d, i, (has-add_iff (normalize d) today d s).1 (inr refl))
      ],
    )

pub has-remove_iff :
    (x d : Text) (s : Store)
    → (has (remove d s).domains x ≡ true) ↔ ((has s.domains x ≡ true) × (x ≢ normalize d))
has-remove_iff x d s = elim (Bool-cases (has s.domains (normalize d))) [
  | inl old ↦ rw (domains-remove d s, old) (has-delete_iff x (normalize d) s.domains)
  | inr new ↦ rw (domains-remove d s, new) (λ h. (h, λ e. ground arith), λ h. h.0)
]

-- After a domain is removed, a query is taken for Iranian exactly if another domain of the store
-- covers it; the domains above and below the removed one stay.
is_iran-remove :
    (d q : Text) (s : Store)
    → (is_iran (remove d s) q ≡ true)
      ↔ ((x : Text) × IsSuffix x (normalize q) × (has s.domains x ≡ true) × (x ≢ normalize d))
unfolding is_iran
is_iran-remove d q s =
    let (to, from) = covers_iff (remove d s).domains (normalize q) in
    (
      λ h. let (x, i, m) = to h in let (m', ne) = (has-remove_iff x d s).0 m in (x, i, m', ne),
      λ h. from (h.0, h.1, (has-remove_iff h.0 d s).1 (h.2, h.3)),
    )
