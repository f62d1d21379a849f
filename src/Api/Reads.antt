-- ===== src/Api/Reads.antt =====
-- mtglib/proxy_api.go: the handlers that read never index out of range.
use mathlib.Core.Path.{subst}
use mtg_multi.Prelude.{
  ℕ, ◌≡◌, refl, sym, ap, ◌∙◌, Bool, Option, some, List, [], ◌∷◌, map, bytes_key,
}
use mtg_multi.Prelude.Bytes.{Bytes}
use mtg_multi.Prelude.Map.{Map, lookup}
use mtg_multi.Stats.{ProxyStats}
use mtg_multi.Secrets.{
  Secret, SecretLimits, SecretSet, build_secret_set, or_zero_secret, or_no_limits, keys,
}
use mtg_multi.Secrets.Swap.{Proxy}
use mtg_multi.Secrets.Swap.Refines.{IsServed}
use mtg_multi.Api.Info.{
  SecretInfo, StatsResponse, UserStats, build_response, with_users, snapshot_loop, snapshot_secrets,
  handle_stats, enrich_all,
}

module _ {ℓ} {M : Type ℓ} (sort_strings : List Bytes → List Bytes) (same_month : M → M → Bool)
    (month_of : ℕ → M) (now : ℕ) where
  module _ (base64_encode : Bytes → Bytes) (st : ProxyStats) (global : Option Bytes)
      (f : Bytes → Secret) (t : Bytes → Option Bytes) (l : Bytes → SecretLimits) where
    snapshot_loop-total :
        (names : List Bytes)
        → (infos : List SecretInfo) × (snapshot_loop base64_encode st global names
              (map f names)
              (map t names)
              (map l names)
            ≡ some infos)
    unfolding snapshot_loop
    snapshot_loop-total [] = ([], refl)
    snapshot_loop-total (name ∷ names) =
        let (infos, e) = snapshot_loop-total names in rw e (_, refl)

  -- SnapshotSecrets of a set that was built.
  pub snapshot_secrets-total :
      (base64_encode : Bytes → Bytes) (p : Proxy)
      → IsServed sort_strings same_month month_of now p
      → (infos : List SecretInfo) × (snapshot_secrets base64_encode p ≡ some infos)
  unfolding snapshot_secrets build_secret_set
  snapshot_secrets-total base64_encode p (cfg, was, a, n) =
      subst
        (λ (set : SecretSet).
          (infos : List SecretInfo) × (snapshot_loop base64_encode p.stats set.global_ad_tag
              set.names set.secrets set.ad_tags set.limits
            ≡ some infos))
        (sym was)
        (snapshot_loop-total base64_encode p.stats cfg.global_ad_tag
          (λ name. or_zero_secret (lookup name cfg.secrets))
          (λ name. lookup name cfg.secret_ad_tags) (λ name. or_no_limits (lookup name cfg.limits))
          (sort_strings (keys cfg.secrets)))

  enrich_all-total :
      (l : Bytes → SecretLimits) (names : List Bytes) (users : Map Bytes UserStats)
      → (users' : Map Bytes UserStats) × (enrich_all names (map l names) users ≡ some users')
  unfolding enrich_all
  enrich_all-total l [] users = (users, refl)
  enrich_all-total l (name ∷ names) users = enrich_all-total l names _

  -- The body of handleStats for such a set.
  pub handle_stats-total :
      (p : Proxy)
      → IsServed sort_strings same_month month_of now p
      → (resp : StatsResponse) × (handle_stats p now ≡ some resp)
  unfolding handle_stats build_secret_set
  handle_stats-total p (cfg, was, a, n) =
      let (users, e) =
        enrich_all-total (λ name. or_no_limits (lookup name cfg.limits))
          (sort_strings (keys cfg.secrets)) (build_response p.stats now).users in
      (
        record (build_response p.stats now) { users = users },
        ap (with_users (build_response p.stats now)) (
            ap
              (λ (set : SecretSet).
                enrich_all set.names set.limits (build_response p.stats now).users)
              was
            ∙ e),
      )
