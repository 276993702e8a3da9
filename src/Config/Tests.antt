-- ===== src/Config/Tests.antt =====
-- A configuration, its checks, and what its bounds are for the cache.
use sentrydns.Base.{
  refl, arith, ◌+◌, ◌*◌, ◌^◌, ◌<◌, ◌≤◌, ◌≡◌, ◌≢◌, some, none, [], ◌∷◌, codes, pos, text_eq,
  if◌then◌else◌, to_lower,
}
use sentrydns.Dns.{Msg, DnsLib, a, empty_msg}
use sentrydns.Cache.{new, get, set, make_key, second, response_min_ttl}
use sentrydns.Config.{
  Config, IpText, default_config, validate, no_iran_dns, bad_ip, min_above_max, check_records,
}
use sentrydns.Config.Ttl.{uint32, validate-lifetime, validate-wraps}

abbrev net : IpText
net = record { parse_ip = λ s. if text_eq s (codes "10.0.0.1") then some 1 else none }

abbrev usable : Config
usable = record default_config {
  iran_dns = codes "ir";
  global_dns = codes "gl";
  static_records = (codes "pin.com", codes "10.0.0.1") ∷ [];
}

program : Unit {0}
unfolding validate check_records get set new make_key text_eq to_lower uint32 response_min_ttl
program = tt

passes : validate net usable ≡ none
unfolding program
passes = refl

rejects :
    (validate net default_config ≡ some no_iran_dns)
    × (validate net (record usable { min_ttl = pos 3601 }) ≡ some min_above_max)
    × (validate net (record usable { static_records = (codes "pin.com", codes "x") ∷ [] })
        ≡ some bad_ip)
unfolding program
rejects = (refl, refl, refl)

abbrev lib : DnsLib
lib = record {
  type_to_string = λ t. codes "A";
  set_reply = λ req. record empty_msg { id = req.id; question = req.question };
}

abbrev ask : Msg
ask = record empty_msg { id = 9; question = record { name = codes "x.com."; qtype = 1 } ∷ [] }

abbrev reply : Msg
reply = record empty_msg { id = 4; answer = a 300 (8 ∷ 0 ∷ 0 ∷ 8 ∷ []) ∷ [] }

named : make_key lib (some ask) ≢ []
unfolding program
named e = ground arith

validate-lifetime_example :
    (7 < 5 + 300 * second
      → (get lib 7 8 (set lib [] 5 (new 300 3600 10) ask (some reply)) ask).1
        ≡ some (record reply { id = 9 }))
    × (5 + 3600 * second ≤ 7
        → (get lib 7 8 (set lib [] 5 (new 300 3600 10) ask (some reply)) ask).1 ≡ none)
unfolding program
validate-lifetime_example =
    validate-lifetime net usable lib [] 5 7 8 (new 300 3600 10) ask reply passes (omega arith)
      (refl, refl) (refl, refl) named

abbrev endless : Config
endless = record usable { max_ttl = pos (2 ^ 32 + 60) }

validate-wraps_example :
    (get lib (5 + 60 * second) 8 (set lib [] 5 (new 300 60 10) ask (some reply)) ask).1 ≡ none
unfolding program
validate-wraps_example =
    validate-wraps endless lib [] 5 (5 + 60 * second) 8 60 (new 300 60 10) ask reply refl
      (omega arith) (refl, refl) (refl, refl) named (omega arith)
