-- ===== src/Stats/Counters/Connections.antt =====
-- mtglib/proxy_stats.go: the number of connections of a user, and what changes it.
use mtg_multi.Prelude.{
  ℕ, ◌≡◌, refl, ap, ◌∙◌, Bool, Option, List, [], ◌∷◌, ltb, ◌==◌, if◌then◌else◌, Bool-cases,
  Option-cases, bytes_eq, bytes_eq_iff, bytes_key, inl, inr,
}
use mtg_multi.Prelude.Bytes.{Bytes}
use mtg_multi.Prelude.Map.{lookup}
use mtg_multi.Stats.{
  QuotaReset, SecretStats, ProxyStats, entry, update, add_i64, minus_one, on_connect, on_disconnect,
  is_monthly, rollover_if_needed, rollover, quota_used_of, update_last_seen, can_connect,
  get_or_create, count_read, count_write, or_fresh,
}
use mtg_multi.Stats.Counters.{
  entry-update, lookup-found_or_created, Move, reads, writes, count_move, count_moves,
}

abbrev pub conns : ProxyStats → Bytes → ℕ
conns st j = (entry st j).connections

pub conns-update :
    (st : ProxyStats) (name : Bytes) (f : SecretStats → SecretStats) (j : Bytes)
    → conns (update st name f) j
      ≡ (if bytes_eq name j then (f (entry st name)).connections else conns st j)
conns-update st name f j =
    ap (λ (e : SecretStats). e.connections) (entry-update st name j f)
    ∙ elim (Bool-cases (bytes_eq name j)) [ inl e ↦ rw e refl | inr e ↦ rw e refl ]

-- An update that leaves the connections of an entry alone.
pub conns-update_other :
    (st : ProxyStats) (name : Bytes) (f : SecretStats → SecretStats) (j : Bytes)
    → (f (entry st name)).connections ≡ conns st name
    → conns (update st name f) j ≡ conns st j
conns-update_other st name f j same =
    conns-update st name f j ∙ elim (Bool-cases (bytes_eq name j)) [
      | inl e ↦ rw e (same ∙ ap (conns st) ((bytes_eq_iff name j).0 e))
      | inr e ↦ rw e refl
    ]

pub conns-on_disconnect :
    (st : ProxyStats) (name j : Bytes)
    → conns (on_disconnect st name) j
      ≡ (if bytes_eq name j then add_i64 (conns st name) minus_one else conns st j)
unfolding on_disconnect
conns-on_disconnect st name j = conns-update st name _ j

pub conns-on_connect :
    (st : ProxyStats) (name j : Bytes)
    → conns (on_connect st name) j
      ≡ (if bytes_eq name j then add_i64 (conns st name) 1 else conns st j)
unfolding on_connect
conns-on_connect st name j = conns-update st name _ j

pub conns-update_last_seen :
    (st : ProxyStats) (name : Bytes) (now : ℕ) (j : Bytes)
    → conns (update_last_seen st name now) j ≡ conns st j
unfolding update_last_seen
conns-update_last_seen st name now j = conns-update_other st name _ j refl

rollover_connections {ℓ} :
    {M : Type ℓ} (same_month : M → M → Bool) (month_of : ℕ → M) (st : SecretStats)
    (reset : QuotaReset) (now : ℕ)
    → (rollover_if_needed same_month month_of st reset now).connections ≡ st.connections
unfolding rollover_if_needed
rollover_connections same_month month_of st reset now = elim (Bool-cases (is_monthly reset)) [
  | inr m ↦ rw m refl
  | inl m ↦ elim (Bool-cases (st.period_start == 0)) [
    | inl z ↦ rw (m, z) refl
    | inr z ↦ elim (Bool-cases (same_month (month_of now) (month_of st.period_start))) [
      | inl k ↦ rw (m, z, k) refl
      | inr k ↦ rw (m, z, k) refl
    ]
  ]
]

pub conns-quota_used_of {ℓ} :
    {M : Type ℓ} (same_month : M → M → Bool) (month_of : ℕ → M) (st : ProxyStats) (name : Bytes)
    (reset : QuotaReset) (now : ℕ) (j : Bytes)
    → conns (quota_used_of same_month month_of st name reset now).0 j ≡ conns st j
unfolding quota_used_of rollover
conns-quota_used_of same_month month_of st name reset now j =
    conns-update_other st name _ j
      (rollover_connections same_month month_of (entry st name) reset now)

conns-get_or_create :
    (st : ProxyStats) (name j : Bytes) → conns (get_or_create st name).0 j ≡ conns st j
unfolding get_or_create or_fresh
conns-get_or_create st name j =
    ap (λ (o : Option SecretStats). (or_fresh o).connections)
      (lookup-found_or_created st name j (lookup name st.users) refl)
    ∙ elim (Bool-cases (bytes_eq name j)) [
      | inl e ↦ rw (e, (bytes_eq_iff name j).0 e) refl
      | inr e ↦ rw e refl
    ]

pub conns-can_connect :
    (st : ProxyStats) (name j : Bytes) → conns (can_connect st name).0 j ≡ conns st j
unfolding can_connect get_or_create
conns-can_connect st name j = elim (Bool-cases (st.throttle_limit == 0)) [
  | inl z ↦ rw z refl
  | inr z ↦ elim (Option-cases (lookup name st.throttle_caps)) [
    | inl e ↦ rw (z, e) refl
    | inr (most, e) ↦ rw (z, e) (conns-get_or_create st name j)
  ]
]

conns-count_read :
    (st : ProxyStats) (name : Bytes) (n : ℕ) (j : Bytes)
    → conns (count_read st name n) j ≡ conns st j
unfolding count_read
conns-count_read st name n j = elim (Bool-cases (ltb 0 n)) [
  | inl e ↦ rw e (conns-update_other st name _ j refl)
  | inr e ↦ rw e refl
]

conns-count_write :
    (st : ProxyStats) (name : Bytes) (n : ℕ) (j : Bytes)
    → conns (count_write st name n) j ≡ conns st j
unfolding count_write
conns-count_write st name n j = elim (Bool-cases (ltb 0 n)) [
  | inl e ↦ rw e (conns-update_other st name _ j refl)
  | inr e ↦ rw e refl
]

pub conns-count_moves :
    (st : ProxyStats) (name : Bytes) (ms : List Move) (j : Bytes)
    → conns (count_moves st name ms) j ≡ conns st j
unfolding count_moves count_move
conns-count_moves st name [] j = refl
conns-count_moves st name (reads n ∷ ms) j =
    conns-count_moves (count_read st name n) name ms j ∙ conns-count_read st name n j
conns-count_moves st name (writes n ∷ ms) j =
    conns-count_moves (count_write st name n) name ms j ∙ conns-count_write st name n j
