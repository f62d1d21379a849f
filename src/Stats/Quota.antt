-- ===== src/Stats/Quota.antt =====
-- secretStats.rolloverIfNeeded: when a monthly quota is replenished.
use mtg_multi.Prelude.{ℕ, ◌<◌, ◌≡◌, Bool, true, if◌then◌else◌, ◌==◌, arith}
use mtg_multi.Stats.{SecretStats, QuotaReset, is_monthly, rollover_if_needed}

-- An instant's month, and the comparison of two of them by the calendar.
module _ {ℓ} {M : Type ℓ} (same_month : M → M → Bool) (month_of : ℕ → M) where
  -- A rollover clears the quota exactly when the policy is monthly, a period has begun, and the
  -- month is another one than when it began.
  pub rollover_quota :
      (st : SecretStats) (reset : QuotaReset) (now : ℕ)
      → (rollover_if_needed same_month month_of st reset now).quota_used ≡ (
          if is_monthly reset
          then (if st.period_start == 0
              then st.quota_used
              else if same_month (month_of now) (month_of st.period_start)
              then st.quota_used
              else 0)
          else st.quota_used)
  unfolding rollover_if_needed
  rollover_quota st reset now = ground arith

  -- A second rollover at the same instant, not the zero time, changes nothing, for a month
  -- comparison that is reflexive there, and a rollover never changes the traffic counters.
  pub rollover_idem :
      (st : SecretStats) (reset : QuotaReset) (now : ℕ)
      → 0 < now
      → same_month (month_of now) (month_of now) ≡ true
      → let once = rollover_if_needed same_month month_of st reset now in
        (rollover_if_needed same_month month_of once reset now ≡ once)
        × (once.bytes_in ≡ st.bytes_in)
        × (once.bytes_out ≡ st.bytes_out)
        × (once.connections ≡ st.connections)
  unfolding rollover_if_needed
  rollover_idem st reset now pos same = ground arith
