-- ===== src/Dns.antt =====
-- What the program uses of `dns.Msg` and of the package that declares it (github.com/miekg/dns).
-- The fields are those that the code reads or writes. What the package computes is a parameter: the
-- record `DnsLib`. `Copy` is a deep copy, and so the identity on these values.
use sentrydns.Base.{ℕ, Bool, false, List, [], Text, ◌==◌, ◌||◌}

pub record Question : Type 0 where
  pub name : Text
  pub qtype : ℕ

-- A resource record with its time to live: an address as the bytes of its `net.IP`, or another.
pub data Rr : Type 0 where
  a : ℕ → List ℕ → Rr
  aaaa : ℕ → List ℕ → Rr
  other : ℕ → Rr

-- `ans.Header().Ttl`
abbrev pub ttl_of : Rr → ℕ
ttl_of (a ttl ip) = ttl
ttl_of (aaaa ttl ip) = ttl
ttl_of (other ttl) = ttl

pub record Msg : Type 0 where
  pub id : ℕ
  pub rcode : ℕ
  pub truncated : Bool
  pub authoritative : Bool
  pub question : List Question
  pub answer : List Rr

abbrev pub type_a : ℕ
type_a = 1

abbrev pub type_aaaa : ℕ
type_aaaa = 28

abbrev pub rcode_success : ℕ
rcode_success = 0

abbrev pub rcode_server_failure : ℕ
rcode_server_failure = 2

abbrev pub rcode_name_error : ℕ
rcode_name_error = 3

abbrev pub rcode_refused : ℕ
rcode_refused = 5

-- `new(dns.Msg)`
abbrev pub empty_msg : Msg
empty_msg = record {
  id = 0;
  rcode = rcode_success;
  truncated = false;
  authoritative = false;
  question = [];
  answer = [];
}

-- The functions of the package: the table `dns.TypeToString`, which has no text for an unknown
-- type, and `new(dns.Msg).SetReply(req)`.
pub record DnsLib : Type 0 where
  pub type_to_string : ℕ → Text
  pub set_reply : Msg → Msg

abbrev pub is_address_type : ℕ → Bool
is_address_type qtype = qtype == type_a || qtype == type_aaaa
