-- ===== src/Stats/Usage.antt =====
-- ProxyStats.FlushUsage and LoadUsage: the quota counters across a restart.
use mtg_multi.Prelude.{
  ℕ, ◌≡◌, refl, sym, ap, ◌∙◌, inl, inr, Option, none, some, [], ◌∷◌, Bool-cases, bytes_key,
  bytes_eq, bytes_eq_iff,
}
use mtg_multi.Prelude.Bytes.{Bytes}
use mtg_multi.Prelude.Map.{Map, lookup, IsDistinct}
use mtg_multi.Stats.{SecretStats, ProxyStats, entry, update}
use mtg_multi.Stats.Counters.{entry-update}

pub record UsageRecord : Type 0 where
  pub quota_used : ℕ
  pub period_start : ℕ

-- The records that FlushUsage marshals.
unfoldable pub flush_usage : Map Bytes SecretStats → Map Bytes UsageRecord
flush_usage [] = []
flush_usage ((name, st) ∷ us) =
    (name, record { quota_used = st.quota_used; period_start = st.period_start }) ∷ flush_usage us

-- The file as LoadUsage finds it.
pub data UsageFile : Type 0 where
  missing unreadable : UsageFile
  contents : Bytes → UsageFile

pub data LoadError : Type 0 where
  cannot_read cannot_parse : LoadError

pub store_records : ProxyStats → Map Bytes UsageRecord → ProxyStats
store_records s [] = s
store_records s ((name, rec) ∷ rs) =
    store_records
      (update s name
        (λ st. record st { quota_used = rec.quota_used; period_start = rec.period_start }))
      rs

-- `decode` is json.Unmarshal into the map.
module _ (decode : Bytes → Option (Map Bytes UsageRecord)) where
  pub load_usage : ProxyStats → UsageFile → ProxyStats × Option LoadError
  unfolding store_records
  load_usage s missing = (s, none)
  load_usage s unreadable = (s, some cannot_read)
  load_usage s (contents b) = elim (decode b) [
    | none ↦ (s, some cannot_parse)
    | some records ↦ (store_records s records, none)
  ]

abbrev pub with_record : Option UsageRecord → SecretStats → SecretStats
with_record none st = st
with_record (some rec) st = record st {
  quota_used = rec.quota_used;
  period_start = rec.period_start;
}

-- Every record of the file is stored in its user's entry, and other entries stay.
entry-store_records :
    (rs : Map Bytes UsageRecord) (s : ProxyStats) (name : Bytes)
    → IsDistinct rs
    → entry (store_records s rs) name ≡ with_record (lookup name rs) (entry s name)
unfolding store_records lookup
entry-store_records [] s name d = refl
entry-store_records ((k, rec) ∷ rs) s name (absent, d) =
    let s' =
      update s k
        (λ st. record st { quota_used = rec.quota_used; period_start = rec.period_start }) in
    entry-store_records rs s' name d ∙ elim (Bool-cases (bytes_eq k name)) [
      | inl same ↦
          let keys = (bytes_eq_iff k name).0 same in
          let gone : lookup name rs ≡ none = ap (λ (x : Bytes). lookup x rs) (sym keys) ∙ absent in
          let base : entry s k ≡ entry s name = ap (λ (x : Bytes). entry s x) keys in
          rw (gone, same) (entry-update s k name _ ∙ rw same (ap (with_record (some rec)) base))
      | inr other ↦ rw (other, entry-update s k name _, other) refl
    ]

-- A counter of the user, or the other value where the user is not there.
abbrev pub with_usage : Option SecretStats → ℕ → (SecretStats → ℕ) → ℕ
with_usage none other f = other
with_usage (some st) other f = f st

lookup-flush_usage-none :
    (us : Map Bytes SecretStats) (name : Bytes)
    → lookup name us ≡ none
    → lookup name (flush_usage us) ≡ none
unfolding lookup flush_usage
lookup-flush_usage-none [] name h = refl
lookup-flush_usage-none ((k, st) ∷ us) name h = elim (Bool-cases (bytes_eq k name)) [
  | inl same ↦ absurd (cc (rw same at h))
  | inr other ↦ rw other (lookup-flush_usage-none us name (rw other at h))
]

lookup-flush_usage :
    (us : Map Bytes SecretStats) (name : Bytes) (rest : SecretStats)
    → let st = with_record (lookup name (flush_usage us)) rest in
      (st.quota_used ≡ with_usage (lookup name us) rest.quota_used (λ x. x.quota_used))
      × (st.period_start ≡ with_usage (lookup name us) rest.period_start (λ x. x.period_start))
unfolding lookup flush_usage
lookup-flush_usage [] name rest = (refl, refl)
lookup-flush_usage ((k, st) ∷ us) name rest = elim (Bool-cases (bytes_eq k name)) [
  | inl same ↦ rw same (refl, refl)
  | inr other ↦ rw other (lookup-flush_usage us name rest)
]

flush_usage-IsDistinct : (us : Map Bytes SecretStats) → IsDistinct us → IsDistinct (flush_usage us)
unfolding flush_usage
flush_usage-IsDistinct [] d = tt
flush_usage-IsDistinct ((k, st) ∷ us) (absent, d) =
    (lookup-flush_usage-none us k absent, flush_usage-IsDistinct us d)

-- Loading the file that FlushUsage wrote, for distinct users and a decoder that gives its records
-- back, restores the quota and the period of each user of the old process and leaves every other
-- user's as they are.
pub load_usage-flush_usage :
    (decode : Bytes → Option (Map Bytes UsageRecord)) (old new : ProxyStats) (b : Bytes)
    → IsDistinct old.users
    → decode b ≡ some (flush_usage old.users)
    → let r = load_usage decode new (contents b) in
      (r.1 ≡ none)
      × ((name : Bytes)
          → ((entry r.0 name).quota_used
              ≡ with_usage (lookup name old.users) (entry new name).quota_used (λ x. x.quota_used))
            × ((entry r.0 name).period_start
                ≡ with_usage
                    (lookup name old.users)
                    (entry new name).period_start
                    (λ x. x.period_start)))
unfolding load_usage
load_usage-flush_usage decode old new b d e =
    rw (e, load_usage)
      (
        refl,
        λ name.
            rw
              (entry-store_records (flush_usage old.users) new name
                (flush_usage-IsDistinct old.users d))
              (lookup-flush_usage old.users name (entry new name)),
      )
