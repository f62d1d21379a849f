-- ===== src/Secrets/Swap/Refines.antt =====
-- mtglib/proxy_api.go: the management calls as changes of a function from names to entries.
use mtg_multi.Prelude.{
  ℕ, ◌≡◌, refl, sym, ap, ◌∙◌, Bool, true, false, not, ◌||◌, Option, none, some, List, [], length,
  ◌==◌, Bool-cases, bytes_eq, bytes_key, inl, inr, arith,
}
use mtg_multi.Prelude.Bytes.{Bytes}
use mtg_multi.Prelude.Map.{lookup, IsDistinct}
use mtg_multi.Secrets.{
  Secret, valid, SecretLimits, SecretConfig, SecretSet, build_secret_set, to_config,
}
use mtg_multi.Secrets.Snapshot.{IsSort}
use mtg_multi.Secrets.Swap.{
  Proxy, Swapped, swapped, refused, panicked, all_valid, swap_to, swap_secret_config, put_in,
  put_secret, delete_present, delete_in, delete_secret, set_tag_in, set_global_ad_tag,
}
use mtg_multi.Secrets.Swap.View.{
  view, config_view, view-build_secret_set, view-to_config, to_config-keeps, all_valid-insert,
  all_valid-erase,
}
use mtg_multi.Secrets.Swap.Changes.{
  insert-ne-empty, sole_entry, erase-ne-empty, put_view, erase_view, entry_ne_empty, Change, put,
  delete, set_tag, change_view, change_tag, IsRefusal,
}

module _ {ℓ} {M : Type ℓ} (sort_strings : List Bytes → List Bytes) (same_month : M → M → Bool)
    (month_of : ℕ → M) (now : ℕ) where
  -- A set that is served: built from valid secrets, at least one.
  abbrev pub IsServed : Proxy → Type 0
  IsServed p =
      (cfg : SecretConfig) × (p.secrets ≡ build_secret_set sort_strings cfg)
      × (all_valid cfg.secrets ≡ true)
      × ((length cfg.secrets == 0) ≡ false)

  abbrev pub run_change : Change → Proxy → Swapped
  run_change (put name s tag l) p = put_secret sort_strings same_month month_of now name s tag l p
  run_change (delete name) p = delete_secret sort_strings same_month month_of now name p
  run_change (set_tag tag) p = set_global_ad_tag sort_strings same_month month_of now tag p

  -- A result that does what the call is to do, or refuses it for a reason.
  abbrev pub IsOutcome : Change → Proxy → Swapped → Type 0
  IsOutcome c p (swapped p' closed) =
      IsServed p'
      × ((j : Bytes) → view p'.secrets j ≡ change_view c (view p.secrets) j)
      × (p'.secrets.global_ad_tag ≡ change_tag c p.secrets.global_ad_tag)
  IsOutcome c p (refused e) = IsRefusal c (view p.secrets) e
  IsOutcome c p panicked = true ≡ false

  swap-IsOutcome :
      (c : Change) (p : Proxy) (cfg : SecretConfig)
      → IsSort sort_strings
      → all_valid cfg.secrets ≡ true
      → (length cfg.secrets == 0) ≡ false
      → ((j : Bytes) → config_view cfg j ≡ change_view c (view p.secrets) j)
      → cfg.global_ad_tag ≡ change_tag c p.secrets.global_ad_tag
      → IsOutcome c p (swap_secret_config sort_strings same_month month_of now cfg p)
  unfolding swap_secret_config swap_to
  swap-IsOutcome c p cfg sorts a n v g =
      rw (a, n)
        (
          (cfg, refl, a, n),
          (λ j. view-build_secret_set sort_strings cfg j sorts ∙ v j),
          unfold build_secret_set in g,
        )

  module _ (p : Proxy) (back : SecretConfig) (sorts : IsSort sort_strings)
      (same_view : (j : Bytes) → config_view back j ≡ view p.secrets j)
      (same_tag : back.global_ad_tag ≡ p.secrets.global_ad_tag)
      (valid_back : all_valid back.secrets ≡ true) (distinct : IsDistinct back.secrets)
      (ne_empty : (length back.secrets == 0) ≡ false)
      (config : to_config p.secrets ≡ some back) where
    put-IsOutcome :
        (name : Bytes) (s : Secret) (tag : Option Bytes) (l : Option SecretLimits)
        → IsOutcome
            (put name s tag l)
            p
            (put_secret sort_strings same_month month_of now name s tag l p)
    unfolding put_secret put_in
    put-IsOutcome name s tag l = elim (Bool-cases (bytes_eq name [] || not (valid s))) [
      | inl e ↦ rw e e
      | inr e ↦
          rw (e, config, put_in)
            (swap-IsOutcome (put name s tag l) p _ sorts
              (all_valid-insert name s back.secrets (ground (arith, e)) valid_back)
              (insert-ne-empty name s back.secrets)
              (λ j. put_view name j s tag l back ∙ rw (same_view j) refl) same_tag)
    ]

    set_tag-IsOutcome :
        (tag : Option Bytes)
        → IsOutcome (set_tag tag) p (set_global_ad_tag sort_strings same_month month_of now tag p)
    unfolding set_global_ad_tag set_tag_in
    set_tag-IsOutcome tag =
        rw (config, set_tag_in)
          (swap-IsOutcome (set_tag tag) p _ sorts valid_back ne_empty same_view refl)

    delete_present-IsOutcome :
        (name : Bytes) (o : Option Secret)
        → lookup name back.secrets ≡ o
        → IsOutcome
            (delete name)
            p
            (delete_present sort_strings same_month month_of now name back o p)
    unfolding delete_present
    delete_present-IsOutcome name none e = sym (same_view name) ∙ rw e refl
    delete_present-IsOutcome name (some s) e = elim (Bool-cases (length back.secrets == 1)) [
      | inl one ↦
          rw one (λ j n. sym (same_view j) ∙ rw (sole_entry name j back.secrets one e n) refl)
      | inr more ↦ rw more (
          swap-IsOutcome (delete name) p _ sorts (all_valid-erase name back.secrets valid_back)
            (erase-ne-empty name back.secrets distinct more e)
            (λ j. erase_view name j back ∙ rw (same_view j) refl) same_tag)
    ]

  change-IsOutcome :
      (c : Change) (p : Proxy) (back : SecretConfig) (sorts : IsSort sort_strings)
      (same_view : (j : Bytes) → config_view back j ≡ view p.secrets j)
      (same_tag : back.global_ad_tag ≡ p.secrets.global_ad_tag)
      (valid_back : all_valid back.secrets ≡ true) (distinct : IsDistinct back.secrets)
      (ne_empty : (length back.secrets == 0) ≡ false) (config : to_config p.secrets ≡ some back)
      → IsOutcome c p (run_change c p)
  unfolding delete_secret delete_in
  change-IsOutcome (put name s tag l) p back sorts v g a d n c =
      put-IsOutcome p back sorts v g a d n c name s tag l
  change-IsOutcome (set_tag tag) p back sorts v g a d n c =
      set_tag-IsOutcome p back sorts v g a d n c tag
  change-IsOutcome (delete name) p back sorts v g a d n c =
      rw (c, delete_in) (delete_present-IsOutcome p back sorts v g a d n c name _ refl)

  -- On a set built from valid secrets, at least one, with a sort that keeps the elements of its
  -- list, each of PutSecret, DeleteSecret and SetGlobalAdTag either leaves such a set, in which
  -- every name is served with what the call says and every other name as before, or is refused for
  -- its reason: an empty name or an invalid secret, a name that is not served, or the last one.
  pub run_change-refines :
      (c : Change) (p : Proxy) → IsSort sort_strings → IsServed p → IsOutcome c p (run_change c p)
  run_change-refines c p sorts (cfg, was, a, n) =
      let (back, e, same, tag) = view-to_config sort_strings cfg sorts in
      let (valid_back, distinct) = to_config-keeps sort_strings cfg sorts a e in
      let config : to_config p.secrets ≡ some back = ap to_config was ∙ e in
      let viewed : (j : Bytes) → config_view back j ≡ view p.secrets j = λ j.
        same j
        ∙ sym (view-build_secret_set sort_strings cfg j sorts)
        ∙ sym (ap (λ (s : SecretSet). view s j) was) in
      let tagged : back.global_ad_tag ≡ p.secrets.global_ad_tag =
        tag ∙ sym (ap (λ (s : SecretSet). s.global_ad_tag) was ∙ unfold build_secret_set in refl) in
      let ne = entry_ne_empty cfg back same n in
      change-IsOutcome c p back sorts viewed tagged valid_back distinct ne config
