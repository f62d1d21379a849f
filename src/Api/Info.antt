-- ===== src/Api/Info.antt =====
-- mtglib/proxy_api.go and mtglib/proxy_stats.go: what GET /secrets and GET /stats answer.
-- base64 and hex are parameters. Counters are int64 bit patterns.
use mtg_multi.Prelude.{
  ℕ, ◌+◌, ◌-◌, ◌/◌, ◌%◌, Bool, false, Option, none, some, List, [], ◌∷◌, ◌==◌, if◌then◌else◌,
  bytes_key,
}
use mtg_multi.Prelude.Bytes.{Bytes}
use mtg_multi.Prelude.Map.{Map, lookup, insert}
use mtg_multi.Stats.{
  QuotaReset, is_monthly, SecretStats, ProxyStats, quota_used_value, ltb_i64, i64_mod, add_i64,
}
use mtg_multi.Secrets.{Secret, make_bytes, SecretLimits}
use mtg_multi.Secrets.Swap.{Proxy}
use mtg_multi.Api.Limits.{quota_reset_text}

-- `lim.QuotaBytes - used`, 0 where that is negative.
unfoldable pub remaining_quota : ℕ → ℕ → ℕ
remaining_quota quota used =
    let left = (quota + (i64_mod - used)) % i64_mod in if ltb_i64 left 0 then 0 else left

-- The governance fields of an answer: a field that is omitted is 0, empty, none or false.
pub record LimitInfo : Type 0 where
  pub quota : ℕ
  pub quota_used : ℕ
  pub quota_remaining : Option ℕ
  pub quota_reset : Bytes
  pub expires_at : Option ℕ
  pub disabled : Bool

abbrev pub reset_info : QuotaReset → Bytes
reset_info reset = if is_monthly reset then quota_reset_text reset else []

-- fillLimitInfo, into a fresh SecretInfo.
unfoldable pub fill_limit_info : SecretLimits → ℕ → LimitInfo
unfolding remaining_quota quota_reset_text
fill_limit_info lim used =
    let limited = ltb_i64 0 lim.quota_bytes in
    record {
      quota = if limited then lim.quota_bytes else 0;
      quota_used = if limited then used else 0;
      quota_remaining = if limited then some (remaining_quota lim.quota_bytes used) else none;
      quota_reset = reset_info lim.quota_reset;
      expires_at = lim.expires_at;
      disabled = lim.disabled;
    }

pub record SecretInfo : Type 0 where
  pub name : Bytes
  pub secret : Bytes
  pub host : Bytes
  pub ad_tag : Option Bytes
  pub effective_tag : Option Bytes
  pub limits : LimitInfo

-- secretSet.effectiveAdTag at the index of an entry.
abbrev pub or_global : Option Bytes → Option Bytes → Option Bytes
or_global none global = global
or_global (some tag) global = some tag

module _ (base64_encode : Bytes → Bytes) where
  -- The loop of SnapshotSecrets over the aligned lists; an index past the end panics.
  unfoldable pub snapshot_loop :
      ProxyStats
      → Option Bytes
      → List Bytes
      → List Secret
      → List (Option Bytes)
      → List SecretLimits
      → Option (List SecretInfo)
  unfolding fill_limit_info
  snapshot_loop st global [] secrets tags limits = some []
  snapshot_loop st global (name ∷ names) (s ∷ secrets) (tag ∷ tags) (lim ∷ limits) =
      elim (snapshot_loop st global names secrets tags limits) [
        | none ↦ none
        | some rest ↦ some (
            record {
              name = name;
              secret = base64_encode (make_bytes s);
              host = s.host;
              ad_tag = tag;
              effective_tag = or_global tag global;
              limits = fill_limit_info lim (quota_used_value st name);
            }
            ∷ rest)
      ]
  snapshot_loop st global _ _ _ _ = none

  unfoldable pub snapshot_secrets : Proxy → Option (List SecretInfo)
  unfolding snapshot_loop
  snapshot_secrets p =
      let set = p.secrets in
      snapshot_loop p.stats set.global_ad_tag set.names set.secrets set.ad_tags set.limits

pub record UserStats : Type 0 where
  pub connections : ℕ
  pub bytes_in : ℕ
  pub bytes_out : ℕ
  pub last_seen : Option ℕ
  pub limits : LimitInfo

pub record ThrottleInfo : Type 0 where
  pub active : Bool
  pub limit : ℕ
  pub caps : Map Bytes ℕ

pub record StatsResponse : Type 0 where
  pub started_at : ℕ
  pub uptime_seconds : ℕ
  pub total_connections : ℕ
  pub throttle : Option ThrottleInfo
  pub users : Map Bytes UserStats

abbrev pub last_seen_info : ℕ → Option ℕ
last_seen_info t = if t == 0 then none else some t

unfoldable pub user_stats : SecretStats → UserStats
user_stats st = record {
  connections = st.connections;
  bytes_in = st.bytes_in;
  bytes_out = st.bytes_out;
  last_seen = last_seen_info st.last_seen;
  limits = record {
    quota = 0;
    quota_used = st.quota_used;
    quota_remaining = none;
    quota_reset = [];
    expires_at = none;
    disabled = false;
  };
}

unfoldable pub users_response : Map Bytes SecretStats → ℕ × Map Bytes UserStats
unfolding user_stats
users_response [] = (0, [])
users_response ((name, st) ∷ users) =
    let (total, rest) = users_response users in
    (add_i64 st.connections total, insert name (user_stats st) rest)

-- buildResponse; durations are in nanoseconds.
unfoldable pub build_response : ProxyStats → ℕ → StatsResponse
unfolding users_response
build_response s now =
    let (total, users) = users_response s.users in
    record {
      started_at = s.started_at;
      uptime_seconds = (now - s.started_at) / 1000000000;
      total_connections = total;
      throttle =
          if ltb_i64 0 s.throttle_limit
          then some (record {
            active = s.throttle_active;
            limit = s.throttle_limit;
            caps = s.throttle_caps;
          })
          else none;
      users = users;
    }

-- What handleStats adds to a user of the response.
unfoldable pub with_limits : SecretLimits → UserStats → UserStats
unfolding remaining_quota quota_reset_text
with_limits lim u =
    let limited = ltb_i64 0 lim.quota_bytes in
    record u {
      limits = record u.limits {
        quota = if limited then lim.quota_bytes else u.limits.quota;
        quota_remaining =
            if limited
            then some (remaining_quota lim.quota_bytes u.limits.quota_used)
            else u.limits.quota_remaining;
        quota_reset =
            if is_monthly lim.quota_reset
            then quota_reset_text lim.quota_reset
            else u.limits.quota_reset;
        expires_at = elim lim.expires_at [ none ↦ u.limits.expires_at | some t ↦ some t ];
        disabled = lim.disabled;
      };
    }

abbrev pub enrich :
    Bytes → SecretLimits → Option UserStats → Map Bytes UserStats → Map Bytes UserStats
enrich name lim none users = users
enrich name lim (some u) users = insert name (with_limits lim u) users

unfoldable pub enrich_all :
    List Bytes → List SecretLimits → Map Bytes UserStats → Option (Map Bytes UserStats)
unfolding with_limits
enrich_all [] limits users = some users
enrich_all (name ∷ names) (lim ∷ limits) users =
    enrich_all names limits (enrich name lim (lookup name users) users)
-- `set.limits[i]` is only reached for a user of the response.
enrich_all (name ∷ names) [] users = elim (lookup name users) [
  | none ↦ enrich_all names [] users
  | some u ↦ none
]

abbrev pub with_users : StatsResponse → Option (Map Bytes UserStats) → Option StatsResponse
with_users resp none = none
with_users resp (some users) = some (record resp { users = users })

-- The response of GET /stats; none is an index out of range.
unfoldable pub handle_stats : Proxy → ℕ → Option StatsResponse
unfolding build_response enrich_all
handle_stats p now =
    let resp = build_response p.stats now in
    with_users resp (enrich_all p.secrets.names p.secrets.limits resp.users)
