-- ===== src/Config.antt =====
-- internal/config/config.go: the configuration, its defaults and `Validate`. Decoding YAML and
-- `net.ParseIP` are parameters. A number of seconds that the source holds as a float64 is a whole number
-- of nanoseconds here.
pub mod Checks
pub mod Ttl
mod Tests
use sentrydns.Base.{
  ℕ, Bool, true, false, Option, none, some, List, [], ◌∷◌, if◌then◌else◌, Text, codes, Dict,
  is_some, ℤ, pos, is_not_positive, is_negative, ltb_ℤ,
}
use sentrydns.LearnedFile.{is_nil, trim_space}

pub record Config : Type 0 where
  pub iran_dns : Text
  pub global_dns : Text
  pub listen : Text
  pub min_ttl : ℤ
  pub max_ttl : ℤ
  pub iran_ranges : Text
  pub learned : Text
  pub iran_dns_timeout : ℤ
  pub log_level : Text
  pub log_format : Text
  pub log_file : Text
  pub metrics_addr : Text
  pub iran_tlds : List Text
  pub hijack_ips : List Text
  pub hijack_ranges : List Text
  pub prefer_iran_domains : List Text
  pub iran_ranges_url : Text
  pub iran_ranges_update_interval : Text
  pub state_file : Text
  pub cleanup_initial_delay : Text
  pub cleanup_qps : ℤ
  pub global_dns_timeout : ℤ
  pub global_dns_fallback : Text
  pub cleanup_schedule : Text
  pub cache_max_entries : ℤ
  pub rate_limit_per_client : ℤ
  pub global_qps_limit : ℤ
  pub loop_detection : Bool
  pub iran_cb_threshold : ℤ
  pub iran_cb_cooldown : Text
  pub global_cb_threshold : ℤ
  pub global_cb_cooldown : Text
  pub static_records : List (Text × Text)

abbrev pub default_config : Config
default_config = record {
  iran_dns = [];
  global_dns = [];
  listen = codes ":53";
  min_ttl = pos 300;
  max_ttl = pos 3600;
  iran_ranges = codes "data/iran-ranges.txt";
  learned = codes "data/learned.conf";
  iran_dns_timeout = pos 3;
  log_level = codes "info";
  log_format = codes "json";
  log_file = codes "/var/log/sentrydns/sentrydns.log";
  metrics_addr = codes ":9153";
  iran_tlds = codes "ir" ∷ (216 ∷ 167 ∷ 219 ∷ 140 ∷ 216 ∷ 177 ∷ 216 ∷ 167 ∷ 217 ∷ 134 ∷ []) ∷ [];
  hijack_ips = codes "10.10.34.34" ∷ codes "10.10.34.35" ∷ codes "10.10.34.36" ∷ [];
  hijack_ranges = codes "50.7.0.0/16" ∷ [];
  prefer_iran_domains = [];
  iran_ranges_url = codes "https://raw.githubusercontent.com/farshidmousavii/iran-ip/main/ipv4.txt";
  iran_ranges_update_interval = codes "24h";
  state_file = codes "data/.sentrydns-state";
  cleanup_initial_delay = codes "1h";
  cleanup_qps = pos 100;
  global_dns_timeout = pos 1500000000;
  global_dns_fallback = [];
  cleanup_schedule = codes "02:00";
  cache_max_entries = pos 100000;
  rate_limit_per_client = pos 0;
  global_qps_limit = pos 0;
  loop_detection = true;
  iran_cb_threshold = pos 5;
  iran_cb_cooldown = codes "30s";
  global_cb_threshold = pos 5;
  global_cb_cooldown = codes "30s";
  static_records = [];
}

-- The errors of `Load`: the file, its YAML, and one for each check.
pub data Error : Type 0 where
  not_opened not_decoded : Error
  no_iran_dns no_global_dns no_listen no_iran_ranges no_learned no_metrics_addr : Error
  bad_min_ttl bad_max_ttl min_above_max bad_iran_timeout bad_cleanup_qps : Error
  no_cleanup_delay bad_global_qps bad_global_timeout empty_domain bad_ip : Error

-- `net.ParseIP`: an address as its 16 bytes read as one number, or `none` for `nil`.
pub record IpText : Type 0 where
  pub parse_ip : Text → Option ℕ

-- The loop over the static records, in the order of its `range`.
unfoldable pub check_records : IpText → List (Text × Text) → Option Error
unfolding trim_space
check_records net [] = none
check_records net ((domain, ip) ∷ rest) =
    let more = check_records net rest in
    if is_nil (trim_space domain)
    then some empty_domain
    else if is_some (net.parse_ip ip)
    then more
    else some bad_ip

-- `none` is no error.
unfoldable pub validate : IpText → Config → Option Error
unfolding check_records
validate net c =
    if is_nil c.iran_dns
    then some no_iran_dns
    else if is_nil c.global_dns
    then some no_global_dns
    else if is_nil c.listen
    then some no_listen
    else if is_nil c.iran_ranges
    then some no_iran_ranges
    else if is_nil c.learned
    then some no_learned
    else if is_nil c.metrics_addr
    then some no_metrics_addr
    else if is_not_positive c.min_ttl
    then some bad_min_ttl
    else if is_not_positive c.max_ttl
    then some bad_max_ttl
    else if ltb_ℤ c.max_ttl c.min_ttl
    then some min_above_max
    else if is_not_positive c.iran_dns_timeout
    then some bad_iran_timeout
    else if is_not_positive c.cleanup_qps
    then some bad_cleanup_qps
    else if is_nil c.cleanup_initial_delay
    then some no_cleanup_delay
    else if is_negative c.global_qps_limit
    then some bad_global_qps
    else if is_not_positive c.global_dns_timeout
    then some bad_global_timeout
    else check_records net c.static_records

-- `yaml.NewDecoder(f).Decode(&cfg)`: what the text makes of a configuration, or `none` for an error. An
-- empty text leaves it as it is.
pub record Yaml : Type 0 where
  pub decode : Text → Config → Option Config

-- `Load` of the text of a file, which is `none` where the file cannot be opened. The configuration is
-- returned beside the error of `Validate`.
pub data Loaded : Type 0 where
  failed : Error → Loaded
  loaded : Config → Option Error → Loaded

unfoldable pub load : Yaml → IpText → Option Text → Loaded
unfolding validate
load yaml net none = failed not_opened
load yaml net (some text) = elim (yaml.decode text default_config) [
  | none ↦ failed not_decoded
  | some cfg ↦ loaded cfg (validate net cfg)
]
