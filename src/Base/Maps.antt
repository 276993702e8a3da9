-- ===== src/Base/Maps.antt =====
-- A Go `map[string]V` as an association list; the newest binding of a new key stands last, as the
-- order of a Go map is unspecified and no definition depends on it.
use Prim.Native.Nat.{◌+◌, ◌≤◌}
use mathlib.Core.Path.{◌≡◌, refl, subst}
use mathlib.Core.Logic.{inl, inr}
use mathlib.Core.Bool.{true}
use mathlib.Core.Option.{Option, none, some}
use mathlib.Core.List.{List, [], ◌∷◌, map}
use native.Mathlib.Omega.{arith}
use sentrydns.Base.Tests.{if◌then◌else◌, is_some, Bool-cases}
use sentrydns.Base.Lists.{length, All, Any, here, there}
use sentrydns.Base.Bytes.{Text, text_eq, text_eq_iff, text_eq_refl}

abbrev pub Dict {ℓ} : Type ℓ → Type ℓ
Dict V = List (Text × V)

module _ {ℓ} {V : Type ℓ} where
  -- `v, ok := m[k]`
  unfoldable pub find : Text → Dict V → Option V
  find k [] = none
  find k ((j, v) ∷ m) = if text_eq j k then some v else find k m

  -- `m[k] = v`
  unfoldable pub insert : Text → V → Dict V → Dict V
  insert k v [] = (k, v) ∷ []
  insert k v ((j, w) ∷ m) = if text_eq j k then (k, v) ∷ m else (j, w) ∷ insert k v m

  -- `delete(m, k)`
  unfoldable pub delete : Text → Dict V → Dict V
  delete k [] = []
  delete k ((j, w) ∷ m) = let rest = delete k m in if text_eq j k then rest else (j, w) ∷ rest

  abbrev pub keys : Dict V → List Text
  keys = map (λ e. e.0)

  pub find-insert :
      (k j : Text) (v : V) (m : Dict V)
      → find j (insert k v m) ≡ (if text_eq k j then some v else find j m)
  unfolding find insert
  find-insert k j v [] = refl
  find-insert k j v ((i, w) ∷ m) =
      ground (arith, text_eq_iff k j, text_eq_iff i k, text_eq_iff i j, find-insert k j v m)

  pub find-delete :
      (k j : Text) (m : Dict V) → find j (delete k m) ≡ (if text_eq k j then none else find j m)
  unfolding find delete
  find-delete k j [] = ground arith
  find-delete k j ((i, w) ∷ m) =
      ground (arith, text_eq_iff k j, text_eq_iff i k, text_eq_iff i j, find-delete k j m)

  pub length-insert_le : (k : Text) (v : V) (m : Dict V) → length (insert k v m) ≤ length m + 1
  unfolding insert
  length-insert_le k v [] = omega arith
  length-insert_le k v ((i, w) ∷ m) = ground (arith, length-insert_le k v m)

  pub length-insert_old :
      (k : Text) (v : V) (m : Dict V) → is_some (find k m) ≡ true → length (insert k v m) ≡ length m
  unfolding find insert
  length-insert_old k v [] h = absurd (ground arith)
  length-insert_old k v ((i, w) ∷ m) h = ground (arith, length-insert_old k v m)

  pub length-delete_le : (k : Text) (m : Dict V) → length (delete k m) ≤ length m
  unfolding delete
  length-delete_le k [] = omega arith
  length-delete_le k ((i, w) ∷ m) = ground (arith, length-delete_le k m)

  -- Deleting a key that is there makes the map smaller.
  pub length-delete :
      (k : Text) (m : Dict V) → is_some (find k m) ≡ true → length (delete k m) + 1 ≤ length m
  unfolding find delete
  length-delete k [] h = absurd (ground arith)
  length-delete k ((i, w) ∷ m) h = ground (arith, length-delete k m, length-delete_le k m)

  module _ {κ} (P : Text × V → Type κ) where
    pub All-insert : (k : Text) (v : V) (m : Dict V) → P (k, v) → All P m → All P (insert k v m)
    unfolding insert
    All-insert k v [] p h = (p, tt)
    All-insert k v ((i, w) ∷ m) p h = let ih = All-insert k v m p h.1 in ground arith

    pub All-delete : (k : Text) (m : Dict V) → All P m → All P (delete k m)
    unfolding delete
    All-delete k [] h = tt
    All-delete k ((i, w) ∷ m) h = let ih = All-delete k m h.1 in ground arith

    -- What holds of every binding holds of the one found.
    pub find-All : (k : Text) (m : Dict V) {v : V} → All P m → find k m ≡ some v → P (k, v)
    unfolding find
    find-All k [] h e = absurd (ground arith)
    find-All k ((i, w) ∷ m) {v} h e = elim (Bool-cases (text_eq i k)) [
      | inl same ↦ let e' : (i, w) ≡ (k, v) = ground (arith, text_eq_iff i k) in subst P e' h.0
      | inr other ↦ find-All k m h.1 (ground arith)
    ]

  -- What is found is one of the bindings.
  pub find-Any : (k : Text) (m : Dict V) (v : V) → find k m ≡ some v → Any (λ p. p ≡ (k, v)) m
  unfolding find
  find-Any k [] v e = absurd (ground arith)
  find-Any k ((i, w) ∷ m) v e = elim (Bool-cases (text_eq i k)) [
    | inl same ↦ here (ground (arith, text_eq_iff i k))
    | inr other ↦ there (find-Any k m v (ground arith))
  ]

-- Every key is bound once, as in a Go map.
module _ {ℓ} {V : Type ℓ} where
  abbrev pub Distinct : Dict V → Type ℓ
  Distinct [] = Unit
  Distinct ((k, v) ∷ m) = (find k m ≡ none) × Distinct m

  pub insert-Distinct : (k : Text) (v : V) (m : Dict V) → Distinct m → Distinct (insert k v m)
  unfolding insert find
  insert-Distinct k v [] d = (refl, tt)
  insert-Distinct k v ((j, w) ∷ m) d = elim (Bool-cases (text_eq j k)) [
    | inl e ↦ rw e (subst (λ t. find t m ≡ none) ((text_eq_iff j k).0 e) d.0, d.1)
    | inr e ↦ rw e (
      ground (arith, find-insert k j v m, text_eq_iff j k, text_eq_iff k j, d.0),
      insert-Distinct k v m d.1,
    )
  ]

  pub delete-Distinct : (k : Text) (m : Dict V) → Distinct m → Distinct (delete k m)
  unfolding delete
  delete-Distinct k [] d = tt
  delete-Distinct k ((j, w) ∷ m) d = elim (Bool-cases (text_eq j k)) [
    | inl e ↦ rw e (delete-Distinct k m d.1)
    | inr e ↦ rw e (ground (arith, find-delete k j m, d.0), delete-Distinct k m d.1)
  ]

-- A map without a second binding is an order of its own `range`.
module _ {ℓ} {V : Type ℓ} where
  Distinct-cons :
      (k : Text) (v : V) (m order : Dict V)
      → find k m ≡ none
      → All (λ p. find p.0 m ≡ some p.1) order
      → All (λ p. find p.0 ((k, v) ∷ m) ≡ some p.1) order
  unfolding find
  Distinct-cons k v m [] n h = tt
  Distinct-cons k v m ((j, w) ∷ order) n h =
      (ground (arith, text_eq_iff k j, h.0, n), Distinct-cons k v m order n h.1)

  pub Distinct-sound : (m : Dict V) → Distinct m → All (λ p. find p.0 m ≡ some p.1) m
  unfolding find
  Distinct-sound [] d = tt
  Distinct-sound ((k, v) ∷ m) d =
      (rw (text_eq_refl k) refl, Distinct-cons k v m m d.0 (Distinct-sound m d.1))

pub ruleset dict_laws = (find-insert, find-delete)
