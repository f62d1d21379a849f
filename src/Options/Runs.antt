-- ===== src/Options/Runs.antt =====
-- mtglib/proxy_opts.go and NewProxy on concrete settings.
use mtg_multi.Prelude.{◌≡◌, refl, ◌^◌, ◌-◌, true, false, none, some, List, [], ◌∷◌, replicate}
use mtg_multi.Prelude.Bytes.{Bytes, text}
use mtg_multi.Prelude.Ints.{pos, negsuc}
use mtg_multi.Prelude.Strings.{to_lower}
use mtg_multi.Secrets.{valid}
use mtg_multi.Streams.Addresses.{only_ipv4}
use mtg_multi.Options.{
  ProxyOpts, get_secrets, check_opts, parse_prefer_ip, uint_or, logger_is_not_defined,
}

abbrev as_listed : List Bytes → List Bytes
as_listed xs = xs

abbrev settings : ProxyOpts
settings = record {
  network = true;
  anti_replay_cache = true;
  ip_blocklist = true;
  ip_allowlist = true;
  event_stream = true;
  logger = true;
  secret = record { key = replicate 16 1; host = text "h" };
  secrets = [];
  secret_ad_tags = [];
  global_ad_tag = none;
  secret_limits = [];
  usage_state = none;
  throttle_max_connections = 100;
  concurrency = 0;
  domain_fronting_port = 0;
  tolerate_time_skewness = pos 0;
  prefer_ip = text "ONLY-IPv4";
  handshake_timeout = pos 0;
  idle_timeout = pos 0;
  throttle_check_interval = pos 0;
  pending_handshakes_per_ip = 0;
  domain_fronting_host = [];
  domain_fronting_proxy_protocol = false;
  allow_fallback_on_unknown_dc = false;
  emit_traffic = true;
  public_ipv4 = [];
  public_ipv6 = [];
  advertised_port = pos 0;
  pending_handshakes_dry_run = false;
  auto_update = false;
  api_bind_to = [];
}

single : get_secrets settings ≡ (text "default", settings.secret) ∷ []
unfolding get_secrets valid
single = refl

any_case : parse_prefer_ip settings.prefer_ip ≡ some only_ipv4
unfolding parse_prefer_ip to_lower
any_case = refl

huge_port : uint_or (2 ^ 64 - 1) 443 ≡ negsuc 0
huge_port = refl

no_logger : check_opts (record settings { logger = false }) ≡ some logger_is_not_defined
unfolding check_opts
no_logger = refl
