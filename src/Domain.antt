-- ===== src/Domain.antt =====
-- Domain names: `normalize` of internal/store/store.go, and the loop over the suffixes of a name
-- that `IsIran` there shares with `isIranTLD` and `isPreferIran` of internal/resolver/resolver.go.
pub mod Suffix
mod Tests
use sentrydns.Base.{
  ℕ, zero, suc, Bool, true, false, Option, none, some, List, [], ◌∷◌, ◌==◌, if◌then◌else◌, Text,
  to_lower, Dict, find, or_else, length,
}

-- `strings.TrimSuffix(domain, ".")`
unfoldable pub trim_dot : Text → Text
trim_dot [] = []
trim_dot (c ∷ []) = if c == b'.' then [] else c ∷ []
trim_dot (c ∷ d ∷ s) = c ∷ trim_dot (d ∷ s)

unfoldable pub normalize : Text → Text
unfolding trim_dot to_lower
normalize domain = to_lower (trim_dot domain)

-- `set[domain]` of a `map[string]bool`
unfoldable pub has : Dict Bool → Text → Bool
has set domain = or_else (find domain set) false

-- `domain[dot+1:]`, or `none` where `strings.IndexByte(domain, '.')` is negative
unfoldable pub after_dot : Text → Option Text
after_dot [] = none
after_dot (c ∷ s) = if c == b'.' then some s else after_dot s

-- The loop, with fuel for its rounds; `none` means that the fuel ran out.
unfoldable pub walk : ℕ → Dict Bool → Text → Option Bool
walk zero set domain = none
walk (suc fuel) set domain =
    if has set domain
    then some true
    else elim (after_dot domain) [ none ↦ some false | some rest ↦ walk fuel set rest ]

-- A name of n bytes takes at most n + 1 rounds.
unfoldable pub walk_domain : Dict Bool → Text → Option Bool
unfolding walk
walk_domain set domain = walk (suc (length domain)) set domain

-- The loop never runs out of fuel, so the default is never taken.
unfoldable pub covers : Dict Bool → Text → Bool
unfolding walk_domain
covers set domain = or_else (walk_domain set domain) false
