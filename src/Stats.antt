-- ===== src/Stats.antt =====
-- mtglib/proxy_stats.go and mtglib/counting_conn.go: per-secret counters, quotas and the throttle.
-- A call runs alone (the source's mutexes and atomics); int64 counters are bit patterns below 2^64.
-- An instant is its UnixNano; the calendar, `month_of`, and JSON are parameters.
pub mod Throttle
pub mod Counters
pub mod Quota
pub mod Usage
mod Runs
use mtg_multi.Prelude.{
  ℕ, zero, suc, ◌+◌, ◌-◌, ◌%◌, ◌^◌, ◌<◌, Bool, true, false, not, ◌||◌, Option, none, some, List, [],
  ◌∷◌, map, length, ltb, ◌==◌, if◌then◌else◌, bytes_key,
}
use mtg_multi.Prelude.Bytes.{Bytes}
use mtg_multi.Prelude.Map.{Map, lookup, insert}
use mtg_multi.Stats.Throttle.{compute_fair_caps}

pub data QuotaReset : Type 0 where
  quota_reset_none quota_reset_monthly : QuotaReset

abbrev pub is_monthly : QuotaReset → Bool
is_monthly quota_reset_none = false
is_monthly quota_reset_monthly = true

-- atomic.Int64.Add, and `<` of int64.
abbrev pub i64_mod : ℕ
i64_mod = 2 ^ 64

abbrev pub add_i64 : ℕ → ℕ → ℕ
add_i64 a b = (a + b) % i64_mod

abbrev pub minus_one : ℕ
minus_one = i64_mod - 1

abbrev pub ltb_i64 : ℕ → ℕ → Bool
ltb_i64 a b = ltb ((a + 2 ^ 63) % i64_mod) ((b + 2 ^ 63) % i64_mod)

-- `last_seen` and `period_start` are 0 for the zero time and for "not started yet".
pub record SecretStats : Type 0 where
  pub connections : ℕ
  pub bytes_in : ℕ
  pub bytes_out : ℕ
  pub last_seen : ℕ
  pub quota_used : ℕ
  pub period_start : ℕ

abbrev pub fresh : SecretStats
fresh = record {
  connections = 0;
  bytes_in = 0;
  bytes_out = 0;
  last_seen = 0;
  quota_used = 0;
  period_start = 0;
}

pub record ProxyStats : Type 0 where
  pub users : Map Bytes SecretStats
  pub started_at : ℕ
  pub throttle_caps : Map Bytes ℕ
  pub throttle_limit : ℕ
  pub throttle_active : Bool

pub new_proxy_stats : ℕ → ProxyStats
new_proxy_stats now = record {
  users = [];
  started_at = now;
  throttle_caps = [];
  throttle_limit = 0;
  throttle_active = false;
}

-- secretStats.rolloverIfNeeded
pub rollover_if_needed {ℓ} :
    {M : Type ℓ} (same_month : M → M → Bool) (month_of : ℕ → M)
    → SecretStats
    → QuotaReset
    → ℕ
    → SecretStats
rollover_if_needed same_month month_of st reset now =
    if not (is_monthly reset)
    then st
    else if st.period_start == 0
    then record st { period_start = now }
    else if not (same_month (month_of now) (month_of st.period_start))
    then record st { period_start = now; quota_used = 0 }
    else st

-- ProxyStats.getOrCreate: the entry, and the map that surely holds it.
unfoldable pub or_fresh : Option SecretStats → SecretStats
or_fresh none = fresh
or_fresh (some st) = st

abbrev pub entry : ProxyStats → Bytes → SecretStats
entry s name = or_fresh (lookup name s.users)

pub found_or_created : ProxyStats → Bytes → Option SecretStats → ProxyStats × SecretStats
found_or_created s name (some st) = (s, st)
found_or_created s name none = (record s { users = insert name fresh s.users }, fresh)

pub get_or_create : ProxyStats → Bytes → ProxyStats × SecretStats
get_or_create s name = found_or_created s name (lookup name s.users)

-- Through the pointer that getOrCreate returned.
pub update : ProxyStats → Bytes → (SecretStats → SecretStats) → ProxyStats
update s name f =
    let (s', st) = get_or_create s name in record s' { users = insert name (f st) s'.users }

pub pre_register : ProxyStats → Bytes → ProxyStats
pre_register s name = (get_or_create s name).0

pub on_connect : ProxyStats → Bytes → ProxyStats
on_connect s name = update s name (λ st. record st { connections = add_i64 st.connections 1 })

pub on_disconnect : ProxyStats → Bytes → ProxyStats
on_disconnect s name =
    update s name (λ st. record st { connections = add_i64 st.connections minus_one })

pub add_bytes_in : ProxyStats → Bytes → ℕ → ProxyStats
add_bytes_in s name n = update s name (λ st. record st { bytes_in = add_i64 st.bytes_in n })

pub add_bytes_out : ProxyStats → Bytes → ℕ → ProxyStats
add_bytes_out s name n = update s name (λ st. record st { bytes_out = add_i64 st.bytes_out n })

pub update_last_seen : ProxyStats → Bytes → ℕ → ProxyStats
update_last_seen s name now = update s name (λ st. record st { last_seen = now })

-- countingConn.Read and Write, for the `n` bytes that the connection moved.
pub count_read : ProxyStats → Bytes → ℕ → ProxyStats
count_read s name n =
    if ltb 0 n
    then update s name
        (λ st. record st { bytes_in = add_i64 st.bytes_in n; quota_used = add_i64 st.quota_used n })
    else s

pub count_write : ProxyStats → Bytes → ℕ → ProxyStats
count_write s name n =
    if ltb 0 n
    then update s name (λ st. record st {
      bytes_out = add_i64 st.bytes_out n;
      quota_used = add_i64 st.quota_used n;
    })
    else s

module _ {ℓ} {M : Type ℓ} (same_month : M → M → Bool) (month_of : ℕ → M) where
  pub rollover : ProxyStats → Bytes → QuotaReset → ℕ → ProxyStats
  rollover s name reset now =
      update s name (λ st. rollover_if_needed same_month month_of st reset now)

  pub quota_used_of : ProxyStats → Bytes → QuotaReset → ℕ → ProxyStats × ℕ
  quota_used_of s name reset now =
      let s' = rollover s name reset now in (s', (entry s' name).quota_used)

pub quota_used_value : ProxyStats → Bytes → ℕ
quota_used_value s name = elim (lookup name s.users) [ none ↦ 0 | some st ↦ st.quota_used ]

pub reset_quota : ProxyStats → Bytes → ℕ → ProxyStats
reset_quota s name now = update s name (λ st. record st { quota_used = 0; period_start = now })

pub set_throttle : ProxyStats → ℕ → ProxyStats
set_throttle s limit = record s { throttle_limit = limit; throttle_caps = [] }

-- CanConnect creates the entry of a user that has a cap.
pub can_connect : ProxyStats → Bytes → ProxyStats × Bool
can_connect s name =
    if s.throttle_limit == 0 then (s, true) else elim (lookup name s.throttle_caps) [
      | none ↦ (s, true)
      | some most ↦ let (s', st) = get_or_create s name in (s', ltb_i64 st.connections most)
    ]

abbrev pub user_conns : Map Bytes SecretStats → Map Bytes ℕ
user_conns [] = []
user_conns ((name, st) ∷ us) = (name, st.connections) ∷ user_conns us

abbrev is_nonempty : Map Bytes ℕ → Bool
is_nonempty [] = false
is_nonempty (_ ∷ _) = true

pub recompute_caps : ProxyStats → ProxyStats
recompute_caps s =
    let caps = compute_fair_caps (user_conns s.users) s.throttle_limit in
    record s { throttle_caps = caps; throttle_active = is_nonempty caps }
