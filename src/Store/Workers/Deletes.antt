-- ===== src/Store/Workers/Deletes.antt =====
-- The loop of the cleanup that deletes what the workers found.
use sentrydns.Base.{
  ℕ, ◌+◌, ◌≡◌, refl, sym, ap, ◌∙◌, Bool, true, false, not, List, [], ◌∷◌, length, Text, Dict,
  text_eq, keep, delete, find, Distinct, delete-Distinct, find-delete, Bool-cases, inl, inr, arith,
  text_eq_iff, All-delete, none, subst,
}
use sentrydns.Domain.{has}
use sentrydns.LearnedFile.RoundTrip.{AllTrue}
use sentrydns.Store.{delete_all}
use sentrydns.Store.Workers.Order.{is_in}

keep-delete :
    (d : Text) (ds : List Text) (m : Dict Bool)
    → keep (λ e. not (is_in e.0 ds)) (delete d m) ≡ keep (λ e. not (is_in e.0 (d ∷ ds))) m
unfolding delete
keep-delete d ds [] = refl
keep-delete d ds ((k, v) ∷ m) = let ih = keep-delete d ds m in ground (arith, text_eq_iff k d)

keep-absent :
    (d : Text) (ds : List Text) (m : Dict Bool)
    → AllTrue m
    → has m d ≡ false
    → keep (λ e. not (is_in e.0 ds)) m ≡ keep (λ e. not (is_in e.0 (d ∷ ds))) m
unfolding has find
keep-absent d ds [] t h = refl
keep-absent d ds ((k, v) ∷ m) t h =
    let differ : text_eq k d ≡ false = let u = t.0 in ground arith in
    let ih = keep-absent d ds m t.1 (ground arith) in rw (differ, ih) refl

keep-all : (m : Dict Bool) → keep (λ e. not (is_in e.0 [])) m ≡ m
keep-all [] = refl
keep-all (e ∷ m) = ap (λ r. e ∷ r) (keep-all m)

delete-none : (d : Text) (m : Dict Bool) → find d m ≡ none → delete d m ≡ m
unfolding find delete
delete-none d [] h = refl
delete-none d ((k, v) ∷ m) h =
    let differ : text_eq k d ≡ false = ground arith in
    rw differ (ap (λ r. (k, v) ∷ r) (delete-none d m (ground arith)))

delete_all-there :
    (d : Text) (ds : List Text) (m : Dict Bool) (n : ℕ)
    → has m d ≡ true
    → delete_all (d ∷ ds) m n ≡ delete_all ds (delete d m) (n + 1)
unfolding delete_all
delete_all-there d ds m n h = ground arith

delete_all-absent :
    (d : Text) (ds : List Text) (m : Dict Bool) (n : ℕ)
    → has m d ≡ false
    → delete_all (d ∷ ds) m n ≡ delete_all ds m n
unfolding delete_all
delete_all-absent d ds m n h = ground arith

-- The loop that deletes leaves what is not on its list.
pub delete_all-keep :
    (ds : List Text) (m : Dict Bool) (n : ℕ)
    → AllTrue m
    → (delete_all ds m n).0 ≡ keep (λ e. not (is_in e.0 ds)) m
unfolding delete_all
delete_all-keep [] m n t = sym (keep-all m)
delete_all-keep (d ∷ ds) m n t = elim (Bool-cases (has m d)) [
  | inl e ↦ rw (delete_all-there d ds m n e) (
      delete_all-keep ds (delete d m) (n + 1) (All-delete (λ p. p.1 ≡ true) d m t)
      ∙ keep-delete d ds m)
  | inr e ↦ rw (delete_all-absent d ds m n e) (delete_all-keep ds m n t ∙ keep-absent d ds m t e)
]

length-delete_known :
    (d : Text) (m : Dict Bool) → Distinct m → has m d ≡ true → length (delete d m) + 1 ≡ length m
unfolding has find delete
length-delete_known d [] u h = absurd (ground arith)
length-delete_known d ((k, v) ∷ m) u h = elim (Bool-cases (text_eq k d)) [
  | inl e ↦
      rw (e, delete-none d m (subst (λ t. find t m ≡ none) ((text_eq_iff k d).0 e) u.0))
        (omega arith)
  | inr e ↦ let ih = length-delete_known d m u.1 (ground arith) in rw e (omega (arith, ih))
]

-- It counts what it takes away.
pub delete_all-count :
    (ds : List Text) (m : Dict Bool) (n : ℕ)
    → Distinct m
    → let (rest, removed) = delete_all ds m n in removed + length rest ≡ n + length m
unfolding delete_all
delete_all-count [] m n u = refl
delete_all-count (d ∷ ds) m n u = elim (Bool-cases (has m d)) [
  | inl e ↦
      let l = length-delete_known d m u e in
      let ih = delete_all-count ds (delete d m) (n + 1) (delete-Distinct d m u) in
      rw (delete_all-there d ds m n e) (omega (arith, ih, l))
  | inr e ↦ rw (delete_all-absent d ds m n e) (delete_all-count ds m n u)
]

has-delete : (d e : Text) (m : Dict Bool) → text_eq e d ≡ false → has (delete e m) d ≡ has m d
unfolding has
has-delete d e m h = rw (find-delete e d m, h) refl

-- A domain that is not on the list stays.
pub has-delete_all :
    (d : Text) (ds : List Text) (m : Dict Bool) (n : ℕ)
    → is_in d ds ≡ false
    → has (delete_all ds m n).0 d ≡ has m d
unfolding delete_all
has-delete_all d [] m n h = refl
has-delete_all d (e ∷ ds) m n h = elim (Bool-cases (has m e)) [
  | inl there ↦
      let ih = has-delete_all d ds (delete e m) (n + 1) (ground arith) in
      let other : text_eq e d ≡ false = ground (arith, text_eq_iff e d, text_eq_iff d e) in
      rw (delete_all-there e ds m n there) (ih ∙ has-delete d e m other)
  | inr absent ↦ rw (delete_all-absent e ds m n absent) (has-delete_all d ds m n (ground arith))
]
