-- ===== src/Netip/Sample.antt =====
-- A table of three addresses and one range, for the tests.
use sentrydns.Base.{
  ◌+◌, ◌*◌, ◌^◌, false, none, some, [], ◌∷◌, text_eq, codes, if◌then◌else◌, List, ℕ, Text, Option,
}
use sentrydns.Netip.{Addr, Prefix, Netip}

abbrev pub iranian : Addr
iranian = record { width = 32; value = 5 * 2 ^ 24 + 22 * 2 ^ 16 + 9; zoned = false }

abbrev pub foreign : Addr
foreign = record { width = 32; value = 8 * 2 ^ 24 + 8; zoned = false }

abbrev pub range : Prefix
range = record {
  addr = record { width = 32; value = 5 * 2 ^ 24 + 22 * 2 ^ 16; zoned = false };
  bits = 17;
}

unfoldable pub parse_addr : Text → Option Addr
unfolding text_eq
parse_addr s =
    if text_eq s (codes "5.22.0.9")
    then some iranian
    else if text_eq s (codes "8.0.0.8")
    then some foreign
    else none

unfoldable pub parse_prefix : Text → Option Prefix
unfolding text_eq
parse_prefix s = if text_eq s (codes "5.22.0.0/17") then some range else none

unfoldable pub ip_string : List ℕ → Text
unfolding text_eq
ip_string ip = if text_eq ip (5 ∷ 22 ∷ 0 ∷ 9 ∷ []) then codes "5.22.0.9" else codes "8.0.0.8"

abbrev pub sample : Netip
sample = record {
  parse_addr = parse_addr;
  parse_prefix = parse_prefix;
  ip_string = ip_string;
  as_slice = λ ip. ip.value ∷ [];
}
