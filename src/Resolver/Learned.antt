-- ===== src/Resolver/Learned.antt =====
-- Which domains a query puts into the store, and which it takes out.
use sentrydns.Base.{arith, ℕ, ◌≡◌, ◌≢◌, ◌↔◌, Bool, true, not, Text, inl, inr, sym}
use sentrydns.Domain.{normalize, has}
use sentrydns.Dns.{Msg}
use sentrydns.Store.Answers.{has-add_iff, has-remove_iff}
use sentrydns.Resolver.{Resolver, Live, World}
use sentrydns.Resolver.Learning.{is_iranian_reply}
use sentrydns.Resolver.Route.{resolve}
use sentrydns.Resolver.Answered.{Trusted}
use sentrydns.Resolver.Keeps.{resolve-keeps}

-- A reply from which nothing is learned.
abbrev pub teaches_nothing : World → Resolver → Msg → Bool
teaches_nothing w r msg = not (is_iranian_reply w r msg)

-- If no reply of the Iranian upstream has an address in the Iranian ranges without a hijacked one
-- beside it, then a query adds no domain to the store, on any path.
pub resolve-learns_nothing :
    (w : World) (r : Resolver) (req : Msg) (qtype : ℕ) (domain : Text) (s : Live) (x : Text)
    → Trusted w r (teaches_nothing w r) r.iran_dns
    → has (resolve w r req qtype domain s).0.store.domains x ≡ true
    → has s.store.domains x ≡ true
resolve-learns_nothing w r req qtype domain s x h =
    resolve-keeps w r domain (λ st. has st.domains x ≡ true → has s.store.domains x ≡ true)
      (teaches_nothing w r) (λ msg e i today st k. ground arith)
      (λ st k m. k ((has-remove_iff x domain st).0 m).0) h req qtype s (λ m. m)

abbrev pub always : Msg → Bool
always msg = true

pub anything : (w : World) (r : Resolver) → Trusted w r always r.iran_dns
anything w r = (λ n t timeout req. ground arith, λ e n t timeout req. ground arith)

-- A query for a domain neither adds nor removes any other domain of the store.
resolve-others :
    (w : World) (r : Resolver) (req : Msg) (qtype : ℕ) (domain : Text) (s : Live) (x : Text)
    → x ≢ normalize domain
    → (has (resolve w r req qtype domain s).0.store.domains x ≡ true)
      ↔ (has s.store.domains x ≡ true)
resolve-others w r req qtype domain s x ne =
    resolve-keeps w r domain (λ st. (has st.domains x ≡ true) ↔ (has s.store.domains x ≡ true))
      always
      (λ msg e i today st k. (
        λ m. elim ((has-add_iff x today domain st).0 m) [
          | inl old ↦ k.0 old
          | inr new ↦ elim (ne (sym new)) [ ]
        ],
        λ m. (has-add_iff x today domain st).1 (inl (k.1 m)),
      ))
      (λ st k. (
        λ m. k.0 ((has-remove_iff x domain st).0 m).0,
        λ m. (has-remove_iff x domain st).1 (k.1 m, ne),
      ))
      (anything w r) req qtype s (λ m. m, λ m. m)
