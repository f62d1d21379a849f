-- ===== src/Secrets/Snapshot.antt =====
-- secretSet of mtglib/proxy.go: a configuration through buildSecretSet and back through toConfig.
use mtg_multi.Prelude.{
  ℕ, ◌≡◌, refl, sym, ap, ◌∙◌, Bool, true, false, not, ◌&&◌, ◌||◌, Option, none, some, List, [], ◌∷◌,
  map, ◌==◌, if◌then◌else◌, Bool-cases, bytes_eq, bytes_eq_iff, bytes_key, inl, inr, arith,
}
use mtg_multi.Prelude.Bytes.{Bytes}
use mtg_multi.Prelude.Map.{Map, lookup, insert, lookup-insert, beq_refl}
use mtg_multi.Stats.{QuotaReset, quota_reset_none, quota_reset_monthly, is_monthly}
use mtg_multi.Secrets.{
  Secret, SecretLimits, no_limits, is_none, is_zero, SecretConfig, or_zero_secret, or_no_limits,
  keys, build_secret_set, store_ad_tag, store_limits, to_config_loop, to_config,
}

abbrev pub mem : Bytes → List Bytes → Bool
mem x [] = false
mem x (y ∷ ys) = bytes_eq y x || mem x ys

abbrev pub has {ℓ} : {V : Type ℓ} → Bytes → Map Bytes V → Bool
has x m = mem x (keys m)

abbrev or_other {ℓ} : {V : Type ℓ} → Option V → Option V → Option V
or_other none other = other
or_other (some v) other = some v

pub lookup-absent {ℓ} :
    {V : Type ℓ} (x : Bytes) (m : Map Bytes V) → has x m ≡ false → lookup x m ≡ none
unfolding lookup
lookup-absent x [] p = refl
lookup-absent x ((k, v) ∷ m) p = elim (Bool-cases (bytes_eq k x)) [
  | inl e ↦ ground (arith, e, p)
  | inr e ↦ rw e (lookup-absent x m (ground (arith, e, p)))
]

lookup-store_ad_tag :
    (k j : Bytes) (t : Option Bytes) (m : Map Bytes Bytes)
    → lookup j (store_ad_tag k t m) ≡ (if bytes_eq k j then or_other t (lookup j m) else lookup j m)
unfolding store_ad_tag
lookup-store_ad_tag k j none m = ground arith
lookup-store_ad_tag k j (some t) m = lookup-insert k j t m

-- What toConfig stores for limits of its own.
abbrev pub kept_limits : SecretLimits → Option SecretLimits → Option SecretLimits
kept_limits l other = if is_zero l then other else some l

lookup-store_limits :
    (k j : Bytes) (l : SecretLimits) (m : Map Bytes SecretLimits)
    → lookup j (store_limits k l m)
      ≡ (if bytes_eq k j then kept_limits l (lookup j m) else lookup j m)
unfolding store_limits
lookup-store_limits k j l m = elim (Bool-cases (is_zero l)) [
  | inl e ↦ rw e (ground arith)
  | inr e ↦ rw e (lookup-insert k j l m)
]

-- Storing at every name of a list, one after another.
pub merge {ℓ} :
    {V : Type ℓ} (op : Bytes → Option V → Option V)
    (idem : (j : Bytes) (x : Option V) → op j (op j x) ≡ op j x) (k j : Bytes) (ks : List Bytes)
    (x y z : Option V)
    → y ≡ (if bytes_eq k j then op k x else x)
    → z ≡ (if mem j ks then op j y else y)
    → z ≡ (if mem j (k ∷ ks) then op j x else x)
merge op idem k j ks x y z p q =
    q
    ∙ rw p (elim (Bool-cases (bytes_eq k j)) [
      | inl e ↦ rw ((bytes_eq_iff k j).0 e) (elim (Bool-cases (bytes_eq j j)) [
        | inl d ↦
            rw d (elim (Bool-cases (mem j ks)) [ inl m ↦ rw m (idem j x) | inr m ↦ rw m refl ])
        | inr d ↦ ground (arith, beq_refl j, d)
      ])
      | inr e ↦ rw e refl
    ])

or_other_idem {ℓ} : {V : Type ℓ} (t x : Option V) → or_other t (or_other t x) ≡ or_other t x
or_other_idem none x = refl
or_other_idem (some t) x = refl

module _ (f : Bytes → Secret) (g : Bytes → Option Bytes) (h : Bytes → SecretLimits) where
  abbrev IsRebuilt : List Bytes → SecretConfig → SecretConfig → Type 0
  IsRebuilt names acc cfg =
      ((j : Bytes)
        → lookup j cfg.secrets ≡ (if mem j names then some (f j) else lookup j acc.secrets))
      × ((j : Bytes)
          → lookup j cfg.secret_ad_tags ≡ (
              if mem j names
              then or_other (g j) (lookup j acc.secret_ad_tags)
              else lookup j acc.secret_ad_tags))
      × ((j : Bytes)
          → lookup j cfg.limits ≡ (
              if mem j names then kept_limits (h j) (lookup j acc.limits) else lookup j acc.limits))
      × (cfg.global_ad_tag ≡ acc.global_ad_tag)

  other_tag_idem :
      (j : Bytes) (x : Option Bytes) → or_other (g j) (or_other (g j) x) ≡ or_other (g j) x
  other_tag_idem j x = or_other_idem (g j) x

  kept_limits_idem :
      (j : Bytes) (x : Option SecretLimits)
      → kept_limits (h j) (kept_limits (h j) x) ≡ kept_limits (h j) x
  kept_limits_idem j x = elim (Bool-cases (is_zero (h j))) [ inl e ↦ rw e refl | inr e ↦ rw e refl ]

  to_config_loop-IsRebuilt :
      (names : List Bytes) (acc : SecretConfig)
      → (cfg : SecretConfig) × (to_config_loop names (map f names) (map g names) (map h names) acc
          ≡ some cfg)
        × IsRebuilt names acc cfg
  unfolding to_config_loop
  to_config_loop-IsRebuilt [] acc = (acc, refl, ((λ j. refl), (λ j. refl), (λ j. refl), refl))
  to_config_loop-IsRebuilt (k ∷ ks) acc =
      let acc' : SecretConfig = record acc {
        secrets = insert k (f k) acc.secrets;
        secret_ad_tags = store_ad_tag k (g k) acc.secret_ad_tags;
        limits = store_limits k (h k) acc.limits;
      } in
      let (cfg, e, (s, t, l, g')) = to_config_loop-IsRebuilt ks acc' in
      (
        cfg,
        e,
        (
          (λ j.
              merge (λ i _. some (f i)) (λ _ _. refl) k j ks (lookup j acc.secrets)
                (lookup j acc'.secrets) (lookup j cfg.secrets) (lookup-insert k j (f k) acc.secrets)
                (s j)),
          (λ j.
              merge (λ i. or_other (g i)) other_tag_idem k j ks (lookup j acc.secret_ad_tags)
                (lookup j acc'.secret_ad_tags) (lookup j cfg.secret_ad_tags)
                (lookup-store_ad_tag k j (g k) acc.secret_ad_tags) (t j)),
          (λ j.
              merge (λ i. kept_limits (h i)) kept_limits_idem k j ks (lookup j acc.limits)
                (lookup j acc'.limits) (lookup j cfg.limits)
                (lookup-store_limits k j (h k) acc.limits) (l j)),
          g',
        ),
      )

-- sort.Strings keeps the elements of its list.
abbrev pub IsSort : (List Bytes → List Bytes) → Type 0
IsSort sort_strings = (x : Bytes) (xs : List Bytes) → mem x (sort_strings xs) ≡ mem x xs

pub has-lookup {ℓ} :
    {V : Type ℓ} (x : Bytes) (m : Map Bytes V) → has x m ≡ true → (v : V) × (lookup x m ≡ some v)
unfolding lookup
has-lookup x ((k, v) ∷ m) p = elim (Bool-cases (bytes_eq k x)) [
  | inl e ↦ (v, rw e refl)
  | inr e ↦ rw e (has-lookup x m (ground (arith, e, p)))
]
has-lookup x [] p = ground (arith, p)

abbrev limits_of : ℕ → QuotaReset → Option ℕ → Bool → SecretLimits
limits_of q r e d = record { quota_bytes = q; quota_reset = r; expires_at = e; disabled = d }

fields-no_limits :
    (q : ℕ) (r : QuotaReset) (e : Option ℕ) (d : Bool)
    → ((q == 0) && not (is_monthly r) && is_none e && not d) ≡ true
    → limits_of q r e d ≡ no_limits
fields-no_limits q quota_reset_none none false p =
    ap (λ (x : ℕ). limits_of x quota_reset_none none false) (ground (arith, p))
fields-no_limits q quota_reset_monthly e d p = ground (arith, p)
fields-no_limits q quota_reset_none (some t) d p = ground (arith, p)
fields-no_limits q quota_reset_none none true p = ground (arith, p)

-- Limits that are not stored are no limits.
pub kept_limits-or_no_limits : (l : SecretLimits) → or_no_limits (kept_limits l none) ≡ l
unfolding or_no_limits is_zero
kept_limits-or_no_limits l = elim (Bool-cases (is_zero l)) [
  | inl e ↦ rw e (sym (fields-no_limits l.quota_bytes l.quota_reset l.expires_at l.disabled e))
  | inr e ↦ rw e refl
]

stored_secret :
    (j : Bytes) (m : Map Bytes Secret)
    → (if has j m then some (or_zero_secret (lookup j m)) else none) ≡ lookup j m
unfolding or_zero_secret
stored_secret j m = elim (Bool-cases (has j m)) [
  | inl e ↦ (let (v, p) = has-lookup j m e in rw (e, p) refl)
  | inr e ↦ rw e (sym (lookup-absent j m e))
]

stored_limits :
    (b : Bool) (l : SecretLimits)
    → or_no_limits (if b then kept_limits l none else none) ≡ (if b then l else no_limits)
unfolding or_no_limits
stored_limits true l = kept_limits-or_no_limits l
stored_limits false l = refl

or_other-none {ℓ} : {V : Type ℓ} (t : Option V) → or_other t none ≡ t
or_other-none none = refl
or_other-none (some t) = refl

-- For a sort that keeps the elements of its list, the set that buildSecretSet makes of a
-- configuration is given back by toConfig without an index out of range: every secret, the tags of
-- its secrets, and the limits of its secrets up to limits that restrict nothing.
pub to_config-build_secret_set :
    (sort_strings : List Bytes → List Bytes) (cfg : SecretConfig)
    → IsSort sort_strings
    → (back : SecretConfig) × (to_config (build_secret_set sort_strings cfg) ≡ some back)
      × ((j : Bytes) → lookup j back.secrets ≡ lookup j cfg.secrets)
      × ((j : Bytes)
          → lookup j back.secret_ad_tags
            ≡ (if has j cfg.secrets then lookup j cfg.secret_ad_tags else none))
      × ((j : Bytes)
          → or_no_limits (lookup j back.limits)
            ≡ (if has j cfg.secrets then or_no_limits (lookup j cfg.limits) else no_limits))
      × (back.global_ad_tag ≡ cfg.global_ad_tag)
unfolding to_config build_secret_set lookup
to_config-build_secret_set sort_strings cfg sorts =
    let sorted = sort_strings (keys cfg.secrets) in
    let (back, e, (s, t, l, g)) =
      to_config_loop-IsRebuilt (λ name. or_zero_secret (lookup name cfg.secrets))
        (λ name. lookup name cfg.secret_ad_tags) (λ name. or_no_limits (lookup name cfg.limits))
        sorted
        record {
          secrets = [];
          secret_ad_tags = [];
          global_ad_tag = cfg.global_ad_tag;
          limits = [];
        } in
    (
      back,
      e,
      (λ j. rw (s j, sorts j (keys cfg.secrets)) (stored_secret j cfg.secrets)),
      (λ j. rw (t j, sorts j (keys cfg.secrets), or_other-none (lookup j cfg.secret_ad_tags)) refl),
      (λ j.
          rw (l j, sorts j (keys cfg.secrets))
            (stored_limits (has j cfg.secrets) (or_no_limits (lookup j cfg.limits)))),
      g,
    )
