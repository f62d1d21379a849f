-- ===== src/Secrets/Runs.antt =====
-- mtglib/secret.go and the secret set of mtglib/proxy.go on concrete secrets.
use mtg_multi.Prelude.{
  ℕ, ◌≡◌, refl, true, false, Option, some, none, List, [], ◌∷◌, ◌==◌, replicate, if◌then◌else◌,
  bytes_key,
}
use mtg_multi.Prelude.Bytes.{Bytes}
use mtg_multi.Prelude.Map.{lookup}
use mtg_multi.Stats.{quota_reset_none}
use mtg_multi.Secrets.{
  Secret, SecretLimits, no_limits, make_bytes, set, SecretConfig, or_no_limits, build_secret_set,
  to_config, valid,
}
use mtg_multi.Secrets.Text.{set-make_bytes}
use mtg_multi.Secrets.Snapshot.{has, IsSort, to_config-build_secret_set}
use mtg_multi.Secrets.Swap.Changes.{put}
use mtg_multi.Secrets.Swap.Refines.{IsOutcome, run_change-refines}
use mtg_multi.Secrets.Swap.{put_secret, Proxy, swapped, all_valid, swap_secret_config}
use mtg_multi.Secrets.Swap.Closes.{elem, is_live, must_close, swap_secret_config_closes}

abbrev alice : Bytes
alice = 97 ∷ []

abbrev bob : Bytes
bob = 98 ∷ []

abbrev host : Bytes
host = 104 ∷ 46 ∷ 105 ∷ []

abbrev secret_of : ℕ → Secret
secret_of b = record { key = replicate 16 b; host = host }

abbrev limited : SecretLimits
limited = record {
  quota_bytes = 100;
  quota_reset = quota_reset_none;
  expires_at = some 50;
  disabled = false;
}

abbrev two_secrets : SecretConfig
two_secrets = record {
  secrets = (alice, secret_of 1) ∷ (bob, secret_of 2) ∷ [];
  secret_ad_tags = (bob, replicate 16 5) ∷ [];
  global_ad_tag = none;
  limits = [];
}

-- Alice gets another key and Bob a deadline.
abbrev rekeyed : SecretConfig
rekeyed = record {
  secrets = (alice, secret_of 3) ∷ (bob, secret_of 2) ∷ [];
  secret_ad_tags = [];
  global_ad_tag = none;
  limits = (bob, limited) ∷ [];
}

-- Sorting a list that is sorted already.
abbrev same_list : List Bytes → List Bytes
same_list xs = xs

same_list-IsSort : IsSort same_list
same_list-IsSort x xs = refl

to_config-build_secret_set_example :
    (back : SecretConfig) × (to_config (build_secret_set same_list two_secrets) ≡ some back)
    × ((j : Bytes) → lookup j back.secrets ≡ lookup j two_secrets.secrets)
    × ((j : Bytes)
        → lookup j back.secret_ad_tags
          ≡ (if has j two_secrets.secrets then lookup j two_secrets.secret_ad_tags else none))
    × ((j : Bytes)
        → or_no_limits (lookup j back.limits) ≡ (
            if has j two_secrets.secrets
            then or_no_limits (lookup j two_secrets.limits)
            else no_limits))
    × (back.global_ad_tag ≡ none)
to_config-build_secret_set_example =
    to_config-build_secret_set same_list two_secrets same_list-IsSort

-- A stand-in for both codecs: the text is 1 and then the bytes, or 2 and then the bytes.
abbrev tagged : ℕ → Bytes → Bytes
tagged tag b = tag ∷ b

abbrev untag : ℕ → Bytes → Option Bytes
untag tag [] = some []
untag tag (c ∷ b) = if c == tag then some b else none

set-make_bytes_example :
    (set (untag 1) (untag 2) (secret_of 9) (tagged 1 (make_bytes (secret_of 1)))
      ≡ (secret_of 1, none))
    × (set (untag 1) (untag 2) (secret_of 9) (tagged 2 (make_bytes (secret_of 1)))
        ≡ (secret_of 1, none))
set-make_bytes_example =
    set-make_bytes (untag 1) (untag 2) (tagged 1) (tagged 2) (secret_of 9) (secret_of 1) (λ b. refl)
      (λ b. refl) refl refl (refl, λ e. cc) refl

abbrev serving : Proxy
serving = record {
  secrets = build_secret_set same_list two_secrets;
  live_conns = (alice, 1 ∷ 2 ∷ []) ∷ (bob, 3 ∷ []) ∷ [];
  stats = record {
    users = [];
    started_at = 1;
    throttle_caps = [];
    throttle_limit = 0;
    throttle_active = false;
  };
}

rekeyed-all_valid : all_valid rekeyed.secrets ≡ true
unfolding all_valid valid
rekeyed-all_valid = refl

swap_secret_config_closes_example :
    (p' : Proxy) × (closed : List ℕ) × (swap_secret_config same_list ◌==◌
        (λ x. x)
        40
        rekeyed
        serving
      ≡ swapped p' closed)
    × (p'.secrets ≡ build_secret_set same_list rekeyed)
    × (p'.live_conns ≡ serving.live_conns)
    × ((c : ℕ) → elem c closed ≡ is_live (must_close two_secrets rekeyed 40) c serving.live_conns)
swap_secret_config_closes_example =
    swap_secret_config_closes same_list ◌==◌ (λ x. x) 40 two_secrets rekeyed serving
      same_list-IsSort refl refl rekeyed-all_valid

abbrev carol : Bytes
carol = 99 ∷ []

carol-absent : lookup carol two_secrets.secrets ≡ none
unfolding lookup
carol-absent = refl

two_secrets-all_valid : all_valid two_secrets.secrets ≡ true
unfolding all_valid valid
two_secrets-all_valid = refl

run_change-refines_example :
    IsOutcome same_list ◌==◌
      (λ x. x)
      40
      (put carol (secret_of 3) none (some limited))
      serving
      (put_secret same_list ◌==◌ (λ x. x) 40 carol (secret_of 3) none (some limited) serving)
run_change-refines_example =
    run_change-refines same_list ◌==◌ (λ x. x) 40 (put carol (secret_of 3) none (some limited))
      serving same_list-IsSort (two_secrets, refl, two_secrets-all_valid, refl)
