-- ===== src/Secrets/Swap/Mutators.antt =====
-- mtglib/proxy_api.go: the mutators on a set that was built from a configuration.
use mtg_multi.Prelude.{
  ℕ, ◌≡◌, ◌≢◌, refl, sym, ap, ◌∙◌, Bool, true, false, not, ◌||◌, Option, none, some, List, [],
  length, ◌==◌, Bool-cases, bytes_eq, bytes_key, inl, inr,
}
use mtg_multi.Prelude.Bytes.{Bytes}
use mtg_multi.Prelude.Map.{lookup}
use mtg_multi.Secrets.{Secret, valid, SecretLimits, SecretConfig, build_secret_set, to_config}
use mtg_multi.Secrets.Snapshot.{IsSort, to_config-build_secret_set}
use mtg_multi.Secrets.Swap.{
  Proxy, Swapped, swapped, refused, panicked, secret_not_found, all_valid, swap_to,
  swap_secret_config, put_in, put_secret, delete_present, delete_in, delete_secret, set_tag_in,
  set_global_ad_tag,
}

abbrev is_panicked : Swapped → Bool
is_panicked panicked = true
is_panicked (swapped p closed) = false
is_panicked (refused e) = false

module _ {ℓ} {M : Type ℓ} (sort_strings : List Bytes → List Bytes) (same_month : M → M → Bool)
    (month_of : ℕ → M) (now : ℕ) where
  swap_secret_config-total :
      (cfg : SecretConfig) (p : Proxy)
      → is_panicked (swap_secret_config sort_strings same_month month_of now cfg p) ≡ false
  unfolding swap_secret_config swap_to
  swap_secret_config-total cfg p =
      elim (Bool-cases ((length cfg.secrets == 0) || not (all_valid cfg.secrets))) [
        | inl e ↦ rw e refl
        | inr e ↦ rw e refl
      ]

  delete_present-total :
      (name : Bytes) (cfg : SecretConfig) (o : Option Secret) (p : Proxy)
      → is_panicked (delete_present sort_strings same_month month_of now name cfg o p) ≡ false
  unfolding delete_present
  delete_present-total name cfg none p = refl
  delete_present-total name cfg (some s) p = elim (Bool-cases (length cfg.secrets == 1)) [
    | inl e ↦ rw e refl
    | inr e ↦ rw e (swap_secret_config-total _ p)
  ]

not_panicked : (r : Swapped) → is_panicked r ≡ false → r ≢ panicked
not_panicked r e p = let q : false ≡ true = sym e ∙ ap is_panicked p in cc

put_secret-total {ℓ} :
    {M : Type ℓ} (sort_strings : List Bytes → List Bytes) (same_month : M → M → Bool)
    (month_of : ℕ → M) (now : ℕ) (name : Bytes) (s : Secret) (tag : Option Bytes)
    (limits : Option SecretLimits) (p : Proxy) (back : SecretConfig)
    → to_config p.secrets ≡ some back
    → is_panicked (put_secret sort_strings same_month month_of now name s tag limits p) ≡ false
unfolding put_secret put_in
put_secret-total sort_strings same_month month_of now name s tag limits p back config =
    elim (Bool-cases (bytes_eq name [] || not (valid s))) [
      | inl e ↦ rw e refl
      | inr e ↦
          rw (e, config, put_in) (swap_secret_config-total sort_strings same_month month_of now _ p)
    ]

-- On a set that was built from a configuration, with a sort that keeps the elements of its list,
-- PutSecret, DeleteSecret and SetGlobalAdTag never index out of range, whatever their arguments.
pub mutators_total {ℓ} :
    {M : Type ℓ} (sort_strings : List Bytes → List Bytes) (same_month : M → M → Bool)
    (month_of : ℕ → M) (now : ℕ) (old : SecretConfig) (p : Proxy) (name : Bytes) (s : Secret)
    (tag : Option Bytes) (limits : Option SecretLimits)
    → IsSort sort_strings
    → p.secrets ≡ build_secret_set sort_strings old
    → (put_secret sort_strings same_month month_of now name s tag limits p ≢ panicked)
      × (delete_secret sort_strings same_month month_of now name p ≢ panicked)
      × (set_global_ad_tag sort_strings same_month month_of now tag p ≢ panicked)
unfolding put_secret put_in delete_secret delete_in set_global_ad_tag set_tag_in delete_present
mutators_total sort_strings same_month month_of now old p name s tag limits sorts was =
    let (back, e, found, _, _, _) = to_config-build_secret_set sort_strings old sorts in
    let config : to_config p.secrets ≡ some back = ap to_config was ∙ e in
    (
      not_panicked _
          (put_secret-total sort_strings same_month month_of now name s tag limits p back config),
      not_panicked _ (
          simp config (
            delete_present-total sort_strings same_month month_of now name back
              (lookup name back.secrets) p)),
      not_panicked _
          (simp config (swap_secret_config-total sort_strings same_month month_of now _ p)),
    )

-- On a set that was built from a configuration without the name, with a sort that keeps the
-- elements of its list, DeleteSecret is refused with ErrSecretNotFound.
pub delete_secret-unknown {ℓ} :
    {M : Type ℓ} (sort_strings : List Bytes → List Bytes) (same_month : M → M → Bool)
    (month_of : ℕ → M) (now : ℕ) (old : SecretConfig) (p : Proxy) (name : Bytes)
    → IsSort sort_strings
    → p.secrets ≡ build_secret_set sort_strings old
    → lookup name old.secrets ≡ none
    → delete_secret sort_strings same_month month_of now name p ≡ refused secret_not_found
unfolding delete_secret delete_in delete_present
delete_secret-unknown sort_strings same_month month_of now old p name sorts was absent =
    let (back, e, found, _, _, _) = to_config-build_secret_set sort_strings old sorts in
    let config : to_config p.secrets ≡ some back = ap to_config was ∙ e in
    let gone : lookup name back.secrets ≡ none = found name ∙ absent in
    rw (config, delete_in, gone, delete_present) refl
