-- ===== src/Netip.antt =====
-- What the program uses of Go's net/netip and net: addresses, prefixes and the test whether a prefix
-- contains an address. The text formats are parameters, the record `Netip`.
pub mod Sample
use sentrydns.Base.{ℕ, ◌-◌, ◌/◌, ◌^◌, Bool, true, false, not, ◌&&◌, Option, List, Text, ◌==◌}

-- `width` is 32 or 128, `value` the address as a number; `zoned` is true for an IPv6 address with a
-- zone.
pub record Addr : Type 0 where
  pub width : ℕ
  pub value : ℕ
  pub zoned : Bool

pub record Prefix : Type 0 where
  pub addr : Addr
  pub bits : ℕ

abbrev pub is4 : Addr → Bool
is4 ip = ip.width == 32

-- `Prefix.Contains`: the same family, and the same leading bits.
abbrev pub contains : Prefix → Addr → Bool
contains p ip =
    not ip.zoned
    && (p.addr.width == ip.width
        && p.addr.value / 2 ^ (ip.width - p.bits) == ip.value / 2 ^ (ip.width - p.bits))

-- `netip.ParseAddr`, `netip.ParsePrefix` and `net.IP.String`; `none` is an error. `as_slice` is
-- `netip.Addr.AsSlice`.
pub record Netip : Type 0 where
  pub parse_addr : Text → Option Addr
  pub parse_prefix : Text → Option Prefix
  pub ip_string : List ℕ → Text
  pub as_slice : Addr → List ℕ
