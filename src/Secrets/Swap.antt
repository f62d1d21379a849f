-- ===== src/Secrets/Swap.antt =====
-- mtglib/proxy.go and mtglib/proxy_api.go: changing the secret set of a running proxy, and the live
-- connections that a change closes. A call runs alone, as under reloadMu and liveMu; a connection is
-- a number; sort.Strings, the calendar and the clock's `now` are parameters.
use mtg_multi.Prelude.{
  ℕ, zero, suc, Bool, true, false, not, ◌&&◌, ◌||◌, Option, none, some, List, [], ◌∷◌, ◌++◌, map,
  length, ◌==◌, if◌then◌else◌, bytes_eq, bytes_key,
}
use mtg_multi.Prelude.Bytes.{Bytes}
use mtg_multi.Prelude.Map.{Map, lookup, insert, erase}
use mtg_multi.Stats.{ProxyStats, pre_register}
use mtg_multi.Secrets.{
  Secret, valid, SecretLimits, is_zero, DenyReason, deny_none, deny_disabled, deny_expired,
  deny_quota, check_limits, SecretConfig, SecretSet, build_secret_set, to_config,
}
pub mod Closes
pub mod Mutators
pub mod View
pub mod Live
pub mod Changes
pub mod Refines

pub data SecretError : Type 0 where
  secret_invalid secret_not_found last_secret reloader_not_configured reload_failed : SecretError

pub record Proxy : Type 0 where
  pub secrets : SecretSet
  pub live_conns : Map Bytes (List ℕ)
  pub stats : ProxyStats

-- What a change comes to: the proxy after it and the connections it closes, in order; or an error;
-- or an index out of range.
pub data Swapped : Type 0 where
  swapped : Proxy → List ℕ → Swapped
  refused : SecretError → Swapped
  panicked : Swapped

-- The set of a name's live connections: `conns[ctx] = struct{}{}` and `delete(conns, ctx)`.
pub add_conn : ℕ → List ℕ → List ℕ
add_conn c [] = c ∷ []
add_conn c (d ∷ ds) = if d == c then d ∷ ds else d ∷ add_conn c ds

pub remove_conn : ℕ → List ℕ → List ℕ
remove_conn c [] = []
remove_conn c (d ∷ ds) = if d == c then remove_conn c ds else d ∷ remove_conn c ds

unfoldable pub conns_or_empty : Option (List ℕ) → List ℕ
conns_or_empty none = []
conns_or_empty (some conns) = conns

pub register_conn : Bytes → ℕ → Proxy → Proxy
register_conn name c p = record p {
  live_conns = insert name (add_conn c (conns_or_empty (lookup name p.live_conns))) p.live_conns;
}

store_conns : Bytes → List ℕ → Map Bytes (List ℕ) → Map Bytes (List ℕ)
store_conns name [] m = erase name m
store_conns name (c ∷ cs) m = insert name (c ∷ cs) m

unregister : Bytes → ℕ → Option (List ℕ) → Proxy → Proxy
unregister name c none p = p
unregister name c (some conns) p = record p {
  live_conns = store_conns name (remove_conn c conns) p.live_conns;
}

pub unregister_conn : Bytes → ℕ → Proxy → Proxy
unregister_conn name c p = unregister name c (lookup name p.live_conns) p

-- `newKeys[name] = newSet.secrets[i].Key` over the aligned lists of a set.
pub keys_loop : List Bytes → List Secret → Map Bytes Bytes → Map Bytes Bytes
keys_loop (name ∷ names) (s ∷ secrets) m = keys_loop names secrets (insert name s.key m)
keys_loop _ _ m = m

pub keys_of : SecretSet → Map Bytes Bytes
keys_of s = keys_loop s.names s.secrets []

pub limits_loop : List Bytes → List SecretLimits → Map Bytes SecretLimits → Map Bytes SecretLimits
limits_loop (name ∷ names) (l ∷ limits) m = limits_loop names limits (insert name l m)
limits_loop _ _ m = m

pub limit_by_name : SecretSet → Map Bytes SecretLimits
limit_by_name s = limits_loop s.names s.limits []

pub same_key : Option Bytes → Option Bytes → Bool
same_key (some old) (some new) = bytes_eq old new
same_key _ _ = false

-- The name is in both sets under the same key.
pub keeps_key : Map Bytes Bytes → Map Bytes Bytes → Bytes → Bool
keeps_key old_keys new_keys name = same_key (lookup name old_keys) (lookup name new_keys)

-- closeStaleConns
pub stale_conns : Map Bytes Bytes → Map Bytes Bytes → Map Bytes (List ℕ) → List ℕ
stale_conns old_keys new_keys [] = []
stale_conns old_keys new_keys ((name, conns) ∷ live) =
    let rest = stale_conns old_keys new_keys live in
    if keeps_key old_keys new_keys name then rest else conns ++ rest

is_denied : DenyReason → Bool
is_denied deny_disabled = true
is_denied deny_expired = true
is_denied _ = false

module _ {ℓ} {M : Type ℓ} (same_month : M → M → Bool) (month_of : ℕ → M) (now : ℕ) where
  -- Whether closeDeniedConns closes the connections of a name, and the counters that asking left.
  pub check_denied : Bytes → Option SecretLimits → ProxyStats → ProxyStats × Bool
  check_denied name none st = (st, false)
  check_denied name (some lim) st =
      let (st', reason) = check_limits same_month month_of st name lim now in
      (st', is_denied reason)

  pub denied_conns : Map Bytes SecretLimits → Map Bytes (List ℕ) → ProxyStats → ProxyStats × List ℕ
  denied_conns limits [] st = (st, [])
  denied_conns limits ((name, conns) ∷ live) st =
      let (st', denied) = check_denied name (lookup name limits) st in
      let (st'', rest) = denied_conns limits live st' in
      (st'', (if denied then conns ++ rest else rest))

unfoldable pub all_valid : Map Bytes Secret → Bool
all_valid [] = true
all_valid ((_, s) ∷ m) = valid s && all_valid m

pub pre_register_all : List Bytes → ProxyStats → ProxyStats
pre_register_all [] st = st
pre_register_all (name ∷ names) st = pre_register_all names (pre_register st name)

pub put_ad_tag : Bytes → Option Bytes → Map Bytes Bytes → Map Bytes Bytes
put_ad_tag name (some tag) m = insert name tag m
put_ad_tag name none m = erase name m

pub put_limits : Bytes → Option SecretLimits → Map Bytes SecretLimits → Map Bytes SecretLimits
put_limits name (some l) m = if is_zero l then erase name m else insert name l m
put_limits name none m = erase name m

module _ {ℓ} {M : Type ℓ} (sort_strings : List Bytes → List Bytes) (same_month : M → M → Bool)
    (month_of : ℕ → M) (now : ℕ) where
  unfoldable pub swap_to : SecretSet → Proxy → Swapped
  swap_to new_set p =
      let stale = stale_conns (keys_of p.secrets) (keys_of new_set) p.live_conns in
      let (st, denied) =
        denied_conns same_month month_of now (limit_by_name new_set) p.live_conns
          (pre_register_all new_set.names p.stats) in
      swapped record { secrets = new_set; live_conns = p.live_conns; stats = st } (stale ++ denied)

  -- swapSecretConfigLocked
  unfoldable pub swap_secret_config : SecretConfig → Proxy → Swapped
  swap_secret_config cfg p =
      if (length cfg.secrets == 0) || not (all_valid cfg.secrets)
      then refused secret_invalid
      else swap_to (build_secret_set sort_strings cfg) p

  -- ReloadSecrets: no reloader, or what the reloader returned.
  unfoldable pub reload_secrets : Option (Option SecretConfig) → Proxy → Swapped
  reload_secrets none p = refused reloader_not_configured
  reload_secrets (some none) p = refused reload_failed
  reload_secrets (some (some cfg)) p = swap_secret_config cfg p

  put_in :
      Bytes → Secret → Option Bytes → Option SecretLimits → Option SecretConfig → Proxy → Swapped
  put_in name s tag l none p = panicked
  put_in name s tag l (some cfg) p =
      swap_secret_config
        record cfg {
          secrets = insert name s cfg.secrets;
          secret_ad_tags = put_ad_tag name tag cfg.secret_ad_tags;
          limits = put_limits name l cfg.limits;
        }
        p

  pub put_secret : Bytes → Secret → Option Bytes → Option SecretLimits → Proxy → Swapped
  put_secret name s tag l p =
      if bytes_eq name [] || not (valid s)
      then refused secret_invalid
      else put_in name s tag l (to_config p.secrets) p

  delete_present : Bytes → SecretConfig → Option Secret → Proxy → Swapped
  delete_present name cfg none p = refused secret_not_found
  delete_present name cfg (some _) p =
      if length cfg.secrets == 1
      then refused last_secret
      else swap_secret_config
          record cfg {
            secrets = erase name cfg.secrets;
            secret_ad_tags = erase name cfg.secret_ad_tags;
          }
          p

  delete_in : Bytes → Option SecretConfig → Proxy → Swapped
  delete_in name none p = panicked
  delete_in name (some cfg) p = delete_present name cfg (lookup name cfg.secrets) p

  pub delete_secret : Bytes → Proxy → Swapped
  delete_secret name p = delete_in name (to_config p.secrets) p

  set_tag_in : Option Bytes → Option SecretConfig → Proxy → Swapped
  set_tag_in tag none p = panicked
  set_tag_in tag (some cfg) p = swap_secret_config (record cfg { global_ad_tag = tag }) p

  pub set_global_ad_tag : Option Bytes → Proxy → Swapped
  set_global_ad_tag tag p = set_tag_in tag (to_config p.secrets) p
