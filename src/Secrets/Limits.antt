-- ===== src/Secrets/Limits.antt =====
-- Proxy.checkLimits of mtglib/proxy.go: asking for the limits leaves the connections alone.
use mtg_multi.Prelude.{ℕ, ◌≡◌, refl, Bool, Bool-cases, inl, inr}
use mtg_multi.Prelude.Bytes.{Bytes}
use mtg_multi.Stats.{ProxyStats, ltb_i64}
use mtg_multi.Stats.Counters.Connections.{conns, conns-quota_used_of}
use mtg_multi.Secrets.{SecretLimits, expired, check_limits}

pub conns-check_limits {ℓ} :
    {M : Type ℓ} (same_month : M → M → Bool) (month_of : ℕ → M) (st : ProxyStats) (name : Bytes)
    (lim : SecretLimits) (now : ℕ) (j : Bytes)
    → conns (check_limits same_month month_of st name lim now).0 j ≡ conns st j
unfolding check_limits
conns-check_limits same_month month_of st name lim now j = elim (Bool-cases lim.disabled) [
  | inl d ↦ rw d refl
  | inr d ↦ elim (Bool-cases (expired lim.expires_at now)) [
    | inl e ↦ rw (d, e) refl
    | inr e ↦ elim (Bool-cases (ltb_i64 0 lim.quota_bytes)) [
      | inr q ↦ rw (d, e, q) refl
      | inl q ↦ rw (d, e, q) (conns-quota_used_of same_month month_of st name lim.quota_reset now j)
    ]
  ]
]
