-- ===== src/Options.antt =====
-- mtglib/proxy_opts.go and NewProxy of mtglib/proxy.go: the settings of a proxy, their check and their
-- defaults, and the proxy that they make. An interface that is nil is false. sort.Strings and what
-- LoadUsage reads are parameters; a time.Duration is a number of nanoseconds, and a uint is below 2^64.
pub mod Check
mod Runs
use mtg_multi.Prelude.{
  ℕ, ◌-◌, ◌^◌, ◌*◌, ◌%◌, Bool, true, false, not, ◌||◌, Option, none, some, List, [], ◌∷◌, length,
  ltb, ◌==◌, if◌then◌else◌, bytes_eq, bytes_key, min, Fallible, err, ok, ◌>>=◌, or_err,
}
use mtg_multi.Prelude.Bytes.{Bytes, text}
use mtg_multi.Prelude.Ints.{ℤ, pos, int_of, int_beq}
use mtg_multi.Prelude.Map.{Map}
use mtg_multi.Prelude.Strings.{to_lower}
use mtg_multi.Stats.{ProxyStats, new_proxy_stats, set_throttle, i64_mod}
use mtg_multi.Stats.Usage.{UsageFile, UsageRecord, load_usage}
use mtg_multi.Secrets.{Secret, valid, SecretLimits, SecretConfig, SecretSet, build_secret_set}
use mtg_multi.Secrets.Swap.{Proxy, all_valid, pre_register_all}
use mtg_multi.Streams.Addresses.{PreferIp, only_ipv4, only_ipv6, prefer_ipv4, prefer_ipv6}

pub data OptsError : Type 0 where
  network_is_not_defined anti_replay_cache_is_not_defined ip_blocklist_is_not_defined : OptsError
  ip_allowlist_is_not_defined event_stream_is_not_defined logger_is_not_defined : OptsError
  secret_is_invalid unknown_ip_preference : OptsError

-- The fields of ProxyOpts that NewProxy reads, but for the doppelganger's, the API's token and the
-- reloader, which it passes on. `usage_state` is the file behind
-- UsageStateFile, none where that is empty.
pub record ProxyOpts : Type 0 where
  pub network : Bool
  pub anti_replay_cache : Bool
  pub ip_blocklist : Bool
  pub ip_allowlist : Bool
  pub event_stream : Bool
  pub logger : Bool
  pub secret : Secret
  pub secrets : Map Bytes Secret
  pub secret_ad_tags : Map Bytes Bytes
  pub global_ad_tag : Option Bytes
  pub secret_limits : Map Bytes SecretLimits
  pub usage_state : Option UsageFile
  pub throttle_max_connections : ℕ
  pub concurrency : ℕ
  pub domain_fronting_port : ℕ
  pub tolerate_time_skewness : ℤ
  pub prefer_ip : Bytes
  pub handshake_timeout : ℤ
  pub idle_timeout : ℤ
  pub throttle_check_interval : ℤ
  pub pending_handshakes_per_ip : ℕ
  pub domain_fronting_host : Bytes
  pub domain_fronting_proxy_protocol : Bool
  pub allow_fallback_on_unknown_dc : Bool
  pub emit_traffic : Bool
  pub public_ipv4 : Bytes
  pub public_ipv6 : Bytes
  pub advertised_port : ℤ
  pub pending_handshakes_dry_run : Bool
  pub auto_update : Bool
  pub api_bind_to : Bytes

-- getSecrets
unfoldable pub get_secrets : ProxyOpts → Map Bytes Secret
get_secrets o =
    if not (length o.secrets == 0)
    then o.secrets
    else if valid o.secret
    then (text "default", o.secret) ∷ []
    else []

-- The loop of valid over the secrets.
abbrev pub check_secrets : Map Bytes Secret → Option OptsError
check_secrets secrets =
    if (length secrets == 0) || not (all_valid secrets) then some secret_is_invalid else none

-- valid; none is nil.
unfoldable pub check_opts : ProxyOpts → Option OptsError
unfolding get_secrets
check_opts o =
    if not o.network
    then some network_is_not_defined
    else if not o.anti_replay_cache
    then some anti_replay_cache_is_not_defined
    else if not o.ip_blocklist
    then some ip_blocklist_is_not_defined
    else if not o.ip_allowlist
    then some ip_allowlist_is_not_defined
    else if not o.event_stream
    then some event_stream_is_not_defined
    else if not o.logger
    then some logger_is_not_defined
    else check_secrets (get_secrets o)

-- `x != nil`
abbrev pub given {ℓ} : {A : Type ℓ} → Option A → Bool
given none = false
given (some _) = true

abbrev pub uint_or : ℕ → ℕ → ℤ
uint_or value default = int_of (if value == 0 then default else value)

abbrev pub seconds_or : ℤ → ℕ → ℤ
seconds_or value seconds = if int_beq value (pos 0) then pos (seconds * 1000000000) else value

unfoldable pub get_prefer_ip : ProxyOpts → Bytes
get_prefer_ip o = if bytes_eq o.prefer_ip [] then text "prefer-ipv6" else o.prefer_ip

-- dc.New
unfoldable pub parse_prefer_ip : Bytes → Option PreferIp
parse_prefer_ip s =
    let word = to_lower s in
    if bytes_eq word (text "prefer-ipv4")
    then some prefer_ipv4
    else if bytes_eq word (text "prefer-ipv6")
    then some prefer_ipv6
    else if bytes_eq word (text "only-ipv4")
    then some only_ipv4
    else if bytes_eq word (text "only-ipv6")
    then some only_ipv6
    else none

-- What NewProxy stores in the Proxy, the size of the pool, and which goroutines it starts.
pub record Started : Type 0 where
  pub proxy : Proxy
  pub prefer_ip : PreferIp
  pub concurrency : ℤ
  pub domain_fronting_port : ℤ
  pub tolerate_time_skewness : ℤ
  pub handshake_timeout : ℤ
  pub idle_timeout : ℤ
  pub throttle_check_interval : ℤ
  pub pending_handshakes_per_ip : ℕ
  pub domain_fronting_host : Bytes
  pub domain_fronting_proxy_protocol : Bool
  pub allow_fallback_on_unknown_dc : Bool
  pub emit_traffic : Bool
  pub public_ipv4 : Bytes
  pub public_ipv6 : Bytes
  pub advertised_port : ℤ
  pub pending_handshakes_dry_run : Bool
  pub warms_middle_proxy : Bool
  pub serves_api : Bool
  pub persists_usage : Bool
  pub runs_throttle_loop : Bool
  pub runs_updaters : Bool

-- getConcurrency, getDomainFrontingPort, getTolerateTimeSkewness, getHandshakeTimeout, getIdleTimeout
-- and getThrottleCheckInterval.
unfoldable pub with_defaults : ProxyOpts → PreferIp → Proxy → Started
with_defaults o prefer proxy = record {
  proxy = proxy;
  prefer_ip = prefer;
  concurrency = uint_or o.concurrency 4096;
  domain_fronting_port = uint_or o.domain_fronting_port 443;
  tolerate_time_skewness = seconds_or o.tolerate_time_skewness 3;
  handshake_timeout = seconds_or o.handshake_timeout 10;
  idle_timeout = seconds_or o.idle_timeout 300;
  throttle_check_interval = seconds_or o.throttle_check_interval 5;
  pending_handshakes_per_ip = min o.pending_handshakes_per_ip (2 ^ 32 - 1);
  domain_fronting_host = o.domain_fronting_host;
  domain_fronting_proxy_protocol = o.domain_fronting_proxy_protocol;
  allow_fallback_on_unknown_dc = o.allow_fallback_on_unknown_dc;
  emit_traffic = o.emit_traffic;
  public_ipv4 = o.public_ipv4;
  public_ipv6 = o.public_ipv6;
  advertised_port = o.advertised_port;
  pending_handshakes_dry_run = o.pending_handshakes_dry_run;
  warms_middle_proxy = given o.global_ad_tag || not (length o.secret_ad_tags == 0);
  serves_api = not (bytes_eq o.api_bind_to []);
  persists_usage = given o.usage_state;
  runs_throttle_loop = ltb 0 o.throttle_max_connections;
  runs_updaters = o.auto_update;
}

abbrev pub initial_config : ProxyOpts → SecretConfig
initial_config o = record {
  secrets = get_secrets o;
  secret_ad_tags = o.secret_ad_tags;
  global_ad_tag = o.global_ad_tag;
  limits = o.secret_limits;
}

module _ (decode : Bytes → Option (Map Bytes UsageRecord)) (sort_strings : List Bytes → List Bytes)
    (now : ℕ) where
  abbrev pub loaded : Option UsageFile → ProxyStats → ProxyStats
  loaded none st = st
  loaded (some file) st = (load_usage decode st file).0

  abbrev pub throttled_at : ℕ → ProxyStats → ProxyStats
  throttled_at limit st = if ltb 0 limit then set_throttle st (limit % i64_mod) else st

  unfoldable pub initial_proxy : ProxyOpts → Proxy
  initial_proxy o =
      let set = build_secret_set sort_strings (initial_config o) in
      record {
        secrets = set;
        live_conns = [];
        stats =
            throttled_at o.throttle_max_connections
              (loaded o.usage_state (pre_register_all set.names (new_proxy_stats now)));
      }

  abbrev pub checked : ProxyOpts → Option OptsError → Fallible OptsError Started
  checked o (some e) = err e
  checked o none = or_err unknown_ip_preference (parse_prefer_ip (get_prefer_ip o)) >>= λ prefer.
      ok (with_defaults o prefer (initial_proxy o))

  -- NewProxy; the pool takes every size.
  unfoldable pub new_proxy : ProxyOpts → Fallible OptsError Started
  unfolding initial_proxy with_defaults check_opts
  new_proxy o = checked o (check_opts o)
