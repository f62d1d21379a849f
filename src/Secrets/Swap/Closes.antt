-- ===== src/Secrets/Swap/Closes.antt =====
-- mtglib/proxy.go: which live connections a change of the secret set closes.
use mtg_multi.Prelude.{
  bytes_eq, ℕ, ◌≡◌, refl, sym, ◌∙◌, Bool, true, false, not, ◌&&◌, ◌||◌, Option, none, some, List,
  [], ◌∷◌, ◌++◌, map, length, ◌==◌, leb, if◌then◌else◌, Bool-cases, bytes_key, inl, inr, arith,
}
use mtg_multi.Prelude.Bytes.{Bytes}
use mtg_multi.Prelude.Map.{Map, lookup, insert, lookup-insert}
use mtg_multi.Stats.{ProxyStats, ltb_i64, quota_used_of}
use mtg_multi.Secrets.{
  Secret, SecretLimits, expired, check_limits, SecretConfig, or_zero_secret, or_no_limits, keys,
  build_secret_set,
}
use mtg_multi.Secrets.Snapshot.{mem, has, IsSort, has-lookup, lookup-absent, merge}
use mtg_multi.Secrets.Swap.{
  Proxy, swapped, keys_loop, keys_of, limits_loop, limit_by_name, same_key, keeps_key, stale_conns,
  is_denied, check_denied, denied_conns, all_valid, pre_register_all, swap_to, swap_secret_config,
}

abbrev pub elem : ℕ → List ℕ → Bool
elem c [] = false
elem c (d ∷ ds) = (d == c) || elem c ds

elem-append : (c : ℕ) (xs ys : List ℕ) → elem c (xs ++ ys) ≡ elem c xs || elem c ys
elem-append c [] ys = refl
elem-append c (x ∷ xs) ys = ground (arith, elem-append c xs ys)

-- The connection is live under a name that satisfies the test.
abbrev pub is_live : (Bytes → Bool) → ℕ → Map Bytes (List ℕ) → Bool
is_live test c [] = false
is_live test c ((name, conns) ∷ live) = (test name && elem c conns) || is_live test c live

abbrev pub key_of : Option Secret → Option Bytes
key_of none = none
key_of (some s) = some s.key

abbrev pub key_in : Map Bytes Secret → Bytes → Option Bytes
key_in m name = key_of (lookup name m)

-- The deadline is not in the future.
abbrev pub is_reached : Option ℕ → ℕ → Bool
is_reached none now = false
is_reached (some deadline) now = leb deadline now

-- Disabled or with a deadline that is reached.
abbrev pub denied_now : ℕ → Option SecretLimits → Bool
denied_now now none = false
denied_now now (some l) = l.disabled || is_reached l.expires_at now

expired-is_reached : (o : Option ℕ) (now : ℕ) → expired o now ≡ is_reached o now
unfolding expired
expired-is_reached none now = refl
expired-is_reached (some deadline) now = ground arith

elem-stale_conns :
    (old_keys new_keys : Map Bytes Bytes) (live : Map Bytes (List ℕ)) (c : ℕ)
    → elem c (stale_conns old_keys new_keys live)
      ≡ is_live (λ name. not (keeps_key old_keys new_keys name)) c live
unfolding stale_conns
elem-stale_conns old_keys new_keys [] c = refl
elem-stale_conns old_keys new_keys ((name, conns) ∷ live) c =
    elim (Bool-cases (keeps_key old_keys new_keys name)) [
      | inl e ↦ rw e (elem-stale_conns old_keys new_keys live c)
      | inr e ↦
          rw (e, elem-append c conns (stale_conns old_keys new_keys live))
            (rw (elem-stale_conns old_keys new_keys live c) refl)
    ]

module _ {ℓ} {M : Type ℓ} (same_month : M → M → Bool) (month_of : ℕ → M) (now : ℕ) where
  check_denied-denied_now :
      (name : Bytes) (o : Option SecretLimits) (st : ProxyStats)
      → (check_denied same_month month_of now name o st).1 ≡ denied_now now o
  unfolding check_denied check_limits is_denied
  check_denied-denied_now name none st = refl
  check_denied-denied_now name (some l) st = elim (Bool-cases l.disabled) [
    | inl d ↦ simp d refl
    | inr d ↦
        rw (sym (expired-is_reached l.expires_at now))
          (elim (Bool-cases (expired l.expires_at now)) [
            | inl x ↦ simp (d, x) refl
            | inr x ↦ elim (Bool-cases (ltb_i64 0 l.quota_bytes)) [
              | inr q ↦ simp (d, x, q) refl
              | inl q ↦
                  let used = (quota_used_of same_month month_of st name l.quota_reset now).1 in
                  elim (Bool-cases (ltb_i64 used l.quota_bytes)) [
                    | inl u ↦ simp (d, x, q, u) refl
                    | inr u ↦ simp (d, x, q, u) refl
                  ]
            ]
          ])
  ]

  elem-denied_conns :
      (limits : Map Bytes SecretLimits) (live : Map Bytes (List ℕ)) (st : ProxyStats) (c : ℕ)
      → elem c (denied_conns same_month month_of now limits live st).1
        ≡ is_live (λ name. denied_now now (lookup name limits)) c live
  unfolding denied_conns
  elem-denied_conns limits [] st c = refl
  elem-denied_conns limits ((name, conns) ∷ live) st c =
      let (st', denied) = check_denied same_month month_of now name (lookup name limits) st in
      let (_, rest) = denied_conns same_month month_of now limits live st' in
      let rest_is = elem-denied_conns limits live st' c in
      let denied_is = check_denied-denied_now name (lookup name limits) st in
      elim (Bool-cases (denied_now now (lookup name limits))) [
        | inl e ↦ rw (denied_is, e, elem-append c conns rest, rest_is) refl
        | inr e ↦ rw (denied_is, e) rest_is
      ]

is_live-or :
    (f g : Bytes → Bool) (c : ℕ) (live : Map Bytes (List ℕ))
    → is_live f c live || is_live g c live ≡ is_live (λ name. f name || g name) c live
is_live-or f g c [] = refl
is_live-or f g c ((name, conns) ∷ live) = ground (arith, is_live-or f g c live)

is_live-ext :
    (f g : Bytes → Bool) (c : ℕ) (live : Map Bytes (List ℕ))
    → ((name : Bytes) → f name ≡ g name)
    → is_live f c live ≡ is_live g c live
is_live-ext f g c [] h = refl
is_live-ext f g c ((name, conns) ∷ live) h = ground (arith, is_live-ext f g c live h, h name)

lookup-keys_loop :
    (f : Bytes → Secret) (names : List Bytes) (m : Map Bytes Bytes) (j : Bytes)
    → lookup j (keys_loop names (map f names) m)
      ≡ (if mem j names then some (f j).key else lookup j m)
unfolding keys_loop
lookup-keys_loop f [] m j = refl
lookup-keys_loop f (k ∷ ks) m j =
    merge (λ i _. some (f i).key) (λ _ _. refl) k j ks (lookup j m)
      (lookup j (insert k (f k).key m)) (lookup j (keys_loop ks (map f ks) (insert k (f k).key m)))
      (lookup-insert k j (f k).key m) (lookup-keys_loop f ks (insert k (f k).key m) j)

lookup-limits_loop :
    (f : Bytes → SecretLimits) (names : List Bytes) (m : Map Bytes SecretLimits) (j : Bytes)
    → lookup j (limits_loop names (map f names) m)
      ≡ (if mem j names then some (f j) else lookup j m)
unfolding limits_loop
lookup-limits_loop f [] m j = refl
lookup-limits_loop f (k ∷ ks) m j =
    merge (λ i _. some (f i)) (λ _ _. refl) k j ks (lookup j m) (lookup j (insert k (f k) m))
      (lookup j (limits_loop ks (map f ks) (insert k (f k) m))) (lookup-insert k j (f k) m)
      (lookup-limits_loop f ks (insert k (f k) m) j)

key_in-stored :
    (m : Map Bytes Secret) (j : Bytes)
    → (if has j m then some (or_zero_secret (lookup j m)).key else none) ≡ key_in m j
unfolding or_zero_secret
key_in-stored m j = elim (Bool-cases (has j m)) [
  | inl e ↦ (let (v, p) = has-lookup j m e in rw (e, p) refl)
  | inr e ↦ rw (e, lookup-absent j m e) refl
]

module _ (sort_strings : List Bytes → List Bytes) (sorts : IsSort sort_strings) where
  lookup-keys_of :
      (cfg : SecretConfig) (j : Bytes)
      → lookup j (keys_of (build_secret_set sort_strings cfg)) ≡ key_in cfg.secrets j
  unfolding keys_of build_secret_set lookup
  lookup-keys_of cfg j =
      lookup-keys_loop (λ name. or_zero_secret (lookup name cfg.secrets))
        (sort_strings (keys cfg.secrets)) [] j
      ∙ rw (sorts j (keys cfg.secrets)) (key_in-stored cfg.secrets j)

  lookup-limit_by_name :
      (cfg : SecretConfig) (j : Bytes)
      → lookup j (limit_by_name (build_secret_set sort_strings cfg))
        ≡ (if has j cfg.secrets then some (or_no_limits (lookup j cfg.limits)) else none)
  unfolding limit_by_name build_secret_set lookup
  lookup-limit_by_name cfg j =
      lookup-limits_loop (λ name. or_no_limits (lookup name cfg.limits))
        (sort_strings (keys cfg.secrets)) [] j
      ∙ rw (sorts j (keys cfg.secrets)) refl

-- Both keys are there and are the same.
abbrev pub keys_match : Option Bytes → Option Bytes → Bool
keys_match none other = false
keys_match (some a) none = false
keys_match (some a) (some b) = bytes_eq a b

same_key_lem : (a b : Option Bytes) → same_key a b ≡ keys_match a b
unfolding same_key
same_key_lem none b = refl
same_key_lem (some a) none = refl
same_key_lem (some a) (some b) = refl

-- A name whose secret is not in both configurations under one key, or which the new one has
-- disabled or past its deadline.
abbrev pub must_close : SecretConfig → SecretConfig → ℕ → Bytes → Bool
must_close old cfg now name =
    not (keys_match (key_in old.secrets name) (key_in cfg.secrets name))
    || denied_now now
        (if has name cfg.secrets then some (or_no_limits (lookup name cfg.limits)) else none)

-- A configuration with secrets, all valid, is swapped in, and the swap closes exactly the live
-- connections of names whose secret it drops or gives another key, or whose limits say disabled or
-- a deadline that is reached; the set becomes the one built from the configuration and the
-- registered connections stay.
pub swap_secret_config_closes {ℓ} :
    {M : Type ℓ} (sort_strings : List Bytes → List Bytes) (same_month : M → M → Bool)
    (month_of : ℕ → M) (now : ℕ) (old cfg : SecretConfig) (p : Proxy)
    → IsSort sort_strings
    → p.secrets ≡ build_secret_set sort_strings old
    → (length cfg.secrets == 0) ≡ false
    → all_valid cfg.secrets ≡ true
    → (p' : Proxy) × (closed : List ℕ) × (swap_secret_config sort_strings same_month month_of now
          cfg p
        ≡ swapped p' closed)
      × (p'.secrets ≡ build_secret_set sort_strings cfg)
      × (p'.live_conns ≡ p.live_conns)
      × ((c : ℕ) → elem c closed ≡ is_live (must_close old cfg now) c p.live_conns)
unfolding swap_secret_config swap_to keeps_key
swap_secret_config_closes sort_strings same_month month_of now old cfg p sorts was nonempty all =
    let new_set = build_secret_set sort_strings cfg in
    let st = pre_register_all new_set.names p.stats in
    let limits = limit_by_name new_set in
    let old_keys = keys_of p.secrets in
    let stale = stale_conns old_keys (keys_of new_set) p.live_conns in
    let old_key : (j : Bytes) → lookup j old_keys ≡ key_in old.secrets j =
      λ j. rw was (lookup-keys_of sort_strings sorts old j) in
    let (st', denied) = denied_conns same_month month_of now limits p.live_conns st in
    (
      record { secrets = new_set; live_conns = p.live_conns; stats = st' },
      stale ++ denied,
      rw (nonempty, all) refl,
      refl,
      refl,
      (λ c.
          elem-append c stale (denied_conns same_month month_of now limits p.live_conns st).1
          ∙ rw
              (
                elem-stale_conns old_keys (keys_of new_set) p.live_conns c,
                elem-denied_conns same_month month_of now limits p.live_conns st c,
                is_live-or (λ name. not (keeps_key old_keys (keys_of new_set) name))
                    (λ name. denied_now now (lookup name limits)) c p.live_conns,
              )
              (is_live-ext _ _ c p.live_conns (λ name.
                rw
                  (
                    old_key name,
                    lookup-keys_of sort_strings sorts cfg name,
                    same_key_lem (key_in old.secrets name) (key_in cfg.secrets name),
                    lookup-limit_by_name sort_strings sorts cfg name,
                  )
                  refl))),
    )
