-- ===== src/Options/Check.antt =====
-- mtglib/proxy_opts.go and mtglib/proxy.go: a proxy starts only with settings that it can serve.
use mtg_multi.Prelude.{
  ℕ, ◌<◌, ◌^◌, ◌≡◌, Bool, true, false, not, ◌||◌, Option, none, some, List, [], length, ◌==◌,
  Fallible, err, ok,
}
use mtg_multi.Prelude.Bytes.{Bytes}
use mtg_multi.Prelude.Ints.{pos}
use mtg_multi.Prelude.Map.{Map}
use mtg_multi.Stats.Usage.{UsageRecord}
use mtg_multi.Secrets.Swap.{all_valid}
use mtg_multi.Secrets.Swap.View.{view, config_view}
use mtg_multi.Secrets.Swap.Refines.{IsServed}
use mtg_multi.Options.{
  OptsError, network_is_not_defined, anti_replay_cache_is_not_defined, ip_blocklist_is_not_defined,
  ip_allowlist_is_not_defined, event_stream_is_not_defined, logger_is_not_defined,
  secret_is_invalid, unknown_ip_preference, ProxyOpts, get_secrets, get_prefer_ip, parse_prefer_ip,
  Started, initial_config,
}

-- Why the settings are refused.
abbrev pub IsReason : ProxyOpts → OptsError → Type 0
IsReason o network_is_not_defined = o.network ≡ false
IsReason o anti_replay_cache_is_not_defined = o.anti_replay_cache ≡ false
IsReason o ip_blocklist_is_not_defined = o.ip_blocklist ≡ false
IsReason o ip_allowlist_is_not_defined = o.ip_allowlist ≡ false
IsReason o event_stream_is_not_defined = o.event_stream ≡ false
IsReason o logger_is_not_defined = o.logger ≡ false
IsReason o secret_is_invalid =
    ((length (get_secrets o) == 0) || not (all_valid (get_secrets o))) ≡ true
IsReason o unknown_ip_preference = parse_prefer_ip (get_prefer_ip o) ≡ none

-- No time or size of a started proxy is zero.
pub record IsFilled (s : Started) : Type 0 where
  pub concurrency : ¬ (s.concurrency ≡ pos 0)
  pub domain_fronting_port : ¬ (s.domain_fronting_port ≡ pos 0)
  pub tolerate_time_skewness : ¬ (s.tolerate_time_skewness ≡ pos 0)
  pub handshake_timeout : ¬ (s.handshake_timeout ≡ pos 0)
  pub idle_timeout : ¬ (s.idle_timeout ≡ pos 0)
  pub throttle_check_interval : ¬ (s.throttle_check_interval ≡ pos 0)
  pub pending_handshakes_per_ip : s.pending_handshakes_per_ip < 2 ^ 32

abbrev pub Checks : ProxyOpts → Option OptsError → Type 0
Checks o (some e) = IsReason o e
Checks o none = (all_valid (get_secrets o) ≡ true) × ((length (get_secrets o) == 0) ≡ false)

module _ {ℓ} {M : Type ℓ} (decode : Bytes → Option (Map Bytes UsageRecord))
    (sort_strings : List Bytes → List Bytes) (now : ℕ) (same_month : M → M → Bool)
    (month_of : ℕ → M) where
  -- A proxy that serves the settings' secrets, or the reason why there is none.
  abbrev pub IsStarted : ProxyOpts → Fallible OptsError Started → Type 0
  IsStarted o (err e) = IsReason o e
  IsStarted o (ok s) =
      IsServed sort_strings same_month month_of now s.proxy
      × ((j : Bytes) → view s.proxy.secrets j ≡ config_view (initial_config o) j)
      × (s.proxy.live_conns ≡ [])
      × (parse_prefer_ip (get_prefer_ip o) ≡ some s.prefer_ip)
      × IsFilled s
