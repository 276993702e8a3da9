-- ===== src/Cache/Keys.antt =====
-- The cache's key: which queries share one.
use sentrydns.Base.{
  ℕ, ◌≤◌, ◌≡◌, refl, sym, subst, ◌∙◌, ==_iff, Any, here, there, ◌↔◌, ◌⊎◌, inl, inr, some, List, [],
  ◌∷◌, ◌++◌, to_lower, Lacks, append-cons-split, All, arith, ltb, ◌==◌, if◌then◌else◌, Bool-cases,
}
use sentrydns.Dns.{Question, Msg, Rr, ttl_of, DnsLib}
use sentrydns.Cache.{make_key, least_ttl, response_min_ttl, no_ttl}

make_key-question :
    (lib : DnsLib) (m : Msg) (q : Question) (qs : List Question)
    → m.question ≡ q ∷ qs
    → make_key lib (some m) ≡ to_lower q.name ++ b':' ∷ lib.type_to_string q.qtype
unfolding make_key
make_key-question lib m q qs e = rw e

-- Where the package's type names contain no colon, two queries share a key exactly when their names
-- differ at most in the case of letters and the names of their types are equal. (So queries for two
-- types that have no name, whose text is empty, do share one.)
pub make_key_iff :
    (lib : DnsLib) (m n : Msg) (q r : Question) (qs rs : List Question)
    → ((t : ℕ) → Lacks b':' (lib.type_to_string t))
    → m.question ≡ q ∷ qs
    → n.question ≡ r ∷ rs
    → (make_key lib (some m) ≡ make_key lib (some n)) ↔ (
        (to_lower q.name ≡ to_lower r.name)
        × (lib.type_to_string q.qtype ≡ lib.type_to_string r.qtype))
make_key_iff lib m n q r qs rs l e f =
    rw (make_key-question lib m q qs e, make_key-question lib n r rs f)
      (
        append-cons-split b':' (to_lower q.name) (to_lower r.name) _ _ (l q.qtype) (l r.qtype),
        λ h. cc (h.0, h.1),
      )

abbrev pub AtMost : ℕ → List Rr → Type 0
AtMost t = All (λ r. t ≤ ttl_of r)

abbrev pub Has : ℕ → List Rr → Type 0
Has t = Any (λ r. ttl_of r ≡ t)

-- The loop's answer is at most its start and every record's time to live, and is one of these.
least_ttl_lem :
    (start : ℕ) (answer : List Rr)
    → (least_ttl start answer ≤ start)
      × AtMost (least_ttl start answer) answer
      × ((least_ttl start answer ≡ start) ⊎ Has (least_ttl start answer) answer)
unfolding least_ttl
least_ttl_lem start [] = (omega arith, tt, inl refl)
least_ttl_lem start (r ∷ rest) = elim (Bool-cases (ltb (ttl_of r) start)) [
  | inl less ↦
      let low : (if ltb (ttl_of r) start then ttl_of r else start) ≡ ttl_of r = rw less in
      let (le, all, from) = least_ttl_lem (if ltb (ttl_of r) start then ttl_of r else start) rest in
      (
        ground arith,
        (ground arith, all),
        inr (elim from [ inl e ↦ here (sym (e ∙ low)) | inr h ↦ there h ]),
      )
  | inr more ↦
      let low : (if ltb (ttl_of r) start then ttl_of r else start) ≡ start = rw more in
      let (le, all, from) = least_ttl_lem (if ltb (ttl_of r) start then ttl_of r else start) rest in
      (
        ground arith,
        (ground arith, all),
        elim from [ inl e ↦ inl (e ∙ low) | inr h ↦ inr (there h) ],
      )
]

-- The time to live taken from an answer is that of one of its records and at most that of every
-- other; or it is 0, where every record has the largest value there is (or there is none).
response_min_ttl_lem :
    (msg : Msg)
    → (AtMost (response_min_ttl msg) msg.answer × Has (response_min_ttl msg) msg.answer)
      ⊎ ((response_min_ttl msg ≡ 0) × AtMost no_ttl msg.answer)
unfolding response_min_ttl
response_min_ttl_lem msg =
    let (le, all, from) = least_ttl_lem no_ttl msg.answer in
    elim (Bool-cases (least_ttl no_ttl msg.answer == no_ttl)) [
      | inl never ↦ inr (rw never, subst (λ t. AtMost t msg.answer) ((==_iff _ _).0 never) all)
      | inr found ↦ rw found (inl (all, elim from [ inl e ↦ absurd (ground arith) | inr h ↦ h ]))
    ]
