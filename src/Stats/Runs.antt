-- ===== src/Stats/Runs.antt =====
-- mtglib/proxy_stats.go: the counters and the throttle on concrete users.
use mtg_multi.Prelude.{ℕ, ◌/◌, ◌≡◌, ◌<◌, refl, false, Option, some, none, [], ◌∷◌, bytes_key, arith}
use mtg_multi.Prelude.Bytes.{Bytes}
use mtg_multi.Prelude.Map.{Map, lookup, IsDistinct}
use mtg_multi.Stats.{SecretStats, ProxyStats, entry, or_fresh}
use mtg_multi.Stats.Throttle.{compute_fair_caps}
use mtg_multi.Stats.Throttle.Fair.{sum, IsFair, compute_fair_caps-IsFair}
use mtg_multi.Stats.Counters.{
  reads, writes, count_moves, read_total, write_total, counted, entry-count_moves,
}
use mtg_multi.Stats.Usage.{
  UsageRecord, flush_usage, load_usage, contents, with_usage, load_usage-flush_usage,
}

abbrev alice : Bytes
alice = 97 ∷ []

abbrev bob : Bytes
bob = 98 ∷ []

abbrev two_users : Map Bytes ℕ
two_users = (alice, 9) ∷ (bob, 1) ∷ []

over_six : 6 < sum two_users
over_six = omega arith

compute_fair_caps-IsFair_example :
    (share : ℕ) × IsFair share two_users 6 (compute_fair_caps two_users 6)
compute_fair_caps-IsFair_example = compute_fair_caps-IsFair two_users 6 over_six (omega arith)

abbrev alice_stats : SecretStats
alice_stats = record {
  connections = 2;
  bytes_in = 10;
  bytes_out = 20;
  last_seen = 5;
  quota_used = 30;
  period_start = 4;
}

abbrev running : ProxyStats
running = record {
  users = (alice, alice_stats) ∷ [];
  started_at = 1;
  throttle_caps = [];
  throttle_limit = 0;
  throttle_active = false;
}

alice-entry : entry running alice ≡ alice_stats
unfolding lookup or_fresh
alice-entry = refl

entry-count_moves_example :
    entry (count_moves running alice (reads 5 ∷ writes 7 ∷ [])) alice ≡ counted alice_stats 5 7
unfolding lookup or_fresh read_total write_total
entry-count_moves_example =
    entry-count_moves (reads 5 ∷ writes 7 ∷ []) running alice alice
      (omega arith, omega arith, omega arith)

abbrev hundreds : ℕ → ℕ
hundreds now = now / 100

-- A decoder that knows one file.
abbrev decode_one : Bytes → Option (Map Bytes UsageRecord)
decode_one [] = none
decode_one (_ ∷ _) = some ((alice, record { quota_used = 30; period_start = 4 }) ∷ [])

running-IsDistinct : IsDistinct running.users
unfolding lookup
running-IsDistinct = (refl, tt)

decode_one-flush_usage : decode_one (1 ∷ []) ≡ some (flush_usage running.users)
unfolding flush_usage
decode_one-flush_usage = refl

abbrev restarted : ProxyStats
restarted = record {
  users = [];
  started_at = 9;
  throttle_caps = [];
  throttle_limit = 0;
  throttle_active = false;
}

load_usage-flush_usage_example :
    let r = load_usage decode_one restarted (contents (1 ∷ [])) in
    (r.1 ≡ none)
    × ((name : Bytes)
        → ((entry r.0 name).quota_used
            ≡ with_usage
                (lookup name running.users)
                (entry restarted name).quota_used
                (λ x. x.quota_used))
          × ((entry r.0 name).period_start
              ≡ with_usage
                  (lookup name running.users)
                  (entry restarted name).period_start
                  (λ x. x.period_start)))
load_usage-flush_usage_example =
    load_usage-flush_usage decode_one running restarted (1 ∷ []) running-IsDistinct
      decode_one-flush_usage
