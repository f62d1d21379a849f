-- ===== src/Secrets.antt =====
-- mtglib/secret.go, mtglib/secret_limits.go and the secret set of mtglib/proxy.go and
-- mtglib/proxy_api.go. Codecs (hex, base64), sort.Strings and the calendar are parameters.
use mtg_multi.Prelude.{
  ℕ, zero, suc, ◌+◌, Bool, true, false, not, ◌&&◌, ◌||◌, Option, none, some, List, [], ◌∷◌, ◌++◌,
  map, length, take, drop, replicate, ltb, ◌==◌, if◌then◌else◌, bytes_eq, bytes_key,
}
use mtg_multi.Prelude.Bytes.{Bytes}
use mtg_multi.Prelude.Map.{Map, lookup, insert, erase}
use mtg_multi.Stats.{
  QuotaReset, quota_reset_none, quota_reset_monthly, is_monthly, ProxyStats, pre_register,
  quota_used_of, ltb_i64,
}
pub mod Text
pub mod Snapshot
pub mod Swap
pub mod Limits
mod Runs

abbrev pub secret_key_length : ℕ
secret_key_length = 16

abbrev pub secret_fake_tls_first_byte : ℕ
secret_fake_tls_first_byte = 238

abbrev pub secret_empty_key : Bytes
secret_empty_key = replicate secret_key_length 0

pub record Secret : Type 0 where
  pub key : Bytes
  pub host : Bytes

-- Secret.Valid
unfoldable pub valid : Secret → Bool
valid s = not (bytes_eq s.key secret_empty_key) && not (bytes_eq s.host [])

pub make_bytes : Secret → Bytes
make_bytes s = secret_fake_tls_first_byte ∷ s.key ++ s.host

pub data SetError : Type 0 where
  secret_empty incorrect_format truncated first_byte incorrect_length empty_host : SetError

-- The value after `decoded[0]` and the length were checked.
set_parts : Secret → Bytes → Secret × Option SetError
set_parts s decoded =
    if ltb (length decoded) secret_key_length
    then (s, some incorrect_length)
    else (let host' = drop secret_key_length decoded in
        (
          record { key = take secret_key_length decoded; host = host' },
          (if bytes_eq host' [] then some empty_host else none),
        ))

set_decoded : Secret → Option Bytes → Secret × Option SetError
set_decoded s none = (s, some incorrect_format)
set_decoded s (some []) = (s, some truncated)
set_decoded s (some (_ ∷ [])) = (s, some truncated)
set_decoded s (some (b ∷ c ∷ rest)) =
    if b == secret_fake_tls_first_byte then set_parts s (c ∷ rest) else (s, some first_byte)

or_else : Option Bytes → Option Bytes → Option Bytes
or_else none other = other
or_else (some b) other = some b

-- Secret.Set; it may change the secret and still fail.
module _ (hex_decode base64_decode : Bytes → Option Bytes) where
  pub set : Secret → Bytes → Secret × Option SetError
  set s [] = (s, some secret_empty)
  set s (c ∷ text) = set_decoded s (or_else (hex_decode (c ∷ text)) (base64_decode (c ∷ text)))

-- SecretLimits; `expires_at` is none for the zero time.
pub record SecretLimits : Type 0 where
  pub quota_bytes : ℕ
  pub quota_reset : QuotaReset
  pub expires_at : Option ℕ
  pub disabled : Bool

abbrev pub no_limits : SecretLimits
no_limits = record {
  quota_bytes = 0;
  quota_reset = quota_reset_none;
  expires_at = none;
  disabled = false;
}

abbrev pub is_none : Option ℕ → Bool
is_none none = true
is_none (some _) = false

pub is_zero : SecretLimits → Bool
is_zero l =
    (l.quota_bytes == 0) && not (is_monthly l.quota_reset) && is_none l.expires_at && not l.disabled

pub data DenyReason : Type 0 where
  deny_none deny_disabled deny_expired deny_quota : DenyReason

pub expired : Option ℕ → ℕ → Bool
expired none now = false
expired (some deadline) now = not (ltb now deadline)

-- Proxy.checkLimits; deny_none is "allowed".
module _ {ℓ} {M : Type ℓ} (same_month : M → M → Bool) (month_of : ℕ → M) where
  pub check_limits : ProxyStats → Bytes → SecretLimits → ℕ → ProxyStats × DenyReason
  check_limits st name lim now =
      if lim.disabled
      then (st, deny_disabled)
      else if expired lim.expires_at now
      then (st, deny_expired)
      else if not (ltb_i64 0 lim.quota_bytes)
      then (st, deny_none)
      else (let (st', used) = quota_used_of same_month month_of st name lim.quota_reset now in
          (st', (if ltb_i64 used lim.quota_bytes then deny_none else deny_quota)))

-- SecretConfig: a nil map holds nothing.
pub record SecretConfig : Type 0 where
  pub secrets : Map Bytes Secret
  pub secret_ad_tags : Map Bytes Bytes
  pub global_ad_tag : Option Bytes
  pub limits : Map Bytes SecretLimits

-- secretSet: names, secrets, ad_tags and limits are aligned.
pub record SecretSet : Type 0 where
  pub secrets : List Secret
  pub names : List Bytes
  pub hostnames : List Bytes
  pub ad_tags : List (Option Bytes)
  pub global_ad_tag : Option Bytes
  pub limits : List SecretLimits

abbrev pub zero_secret : Secret
zero_secret = record { key = secret_empty_key; host = [] }

pub or_zero_secret : Option Secret → Secret
or_zero_secret none = zero_secret
or_zero_secret (some s) = s

pub or_no_limits : Option SecretLimits → SecretLimits
or_no_limits none = no_limits
or_no_limits (some l) = l

abbrev pub keys {ℓ} : {V : Type ℓ} → Map Bytes V → List Bytes
keys [] = []
keys ((k, _) ∷ m) = k ∷ keys m

pub host_set : List Secret → Map Bytes (Unit {0})
host_set [] = []
host_set (s ∷ ss) = insert s.host tt (host_set ss)

module _ (sort_strings : List Bytes → List Bytes) where
  unfoldable pub build_secret_set : SecretConfig → SecretSet
  build_secret_set cfg =
      let sorted = sort_strings (keys cfg.secrets) in
      let listed = map (λ name. or_zero_secret (lookup name cfg.secrets)) sorted in
      record {
        secrets = listed;
        names = sorted;
        hostnames = sort_strings (keys (host_set listed));
        ad_tags = map (λ name. lookup name cfg.secret_ad_tags) sorted;
        global_ad_tag = cfg.global_ad_tag;
        limits = map (λ name. or_no_limits (lookup name cfg.limits)) sorted;
      }

pub store_ad_tag : Bytes → Option Bytes → Map Bytes Bytes → Map Bytes Bytes
store_ad_tag name none m = m
store_ad_tag name (some tag) m = insert name tag m

pub store_limits : Bytes → SecretLimits → Map Bytes SecretLimits → Map Bytes SecretLimits
store_limits name l m = if is_zero l then m else insert name l m

-- The loop of toConfig. An index past the end of `secrets` or `adTags` panics, which is none here.
pub to_config_loop :
    List Bytes
    → List Secret
    → List (Option Bytes)
    → List SecretLimits
    → SecretConfig
    → Option SecretConfig
to_config_loop [] secrets tags limits cfg = some cfg
to_config_loop (name ∷ names) [] tags limits cfg = none
to_config_loop (name ∷ names) (s ∷ secrets) [] limits cfg = none
to_config_loop (name ∷ names) (s ∷ secrets) (tag ∷ tags) [] cfg =
    to_config_loop names secrets tags [] record cfg {
      secrets = insert name s cfg.secrets;
      secret_ad_tags = store_ad_tag name tag cfg.secret_ad_tags;
    }
to_config_loop (name ∷ names) (s ∷ secrets) (tag ∷ tags) (l ∷ limits) cfg =
    to_config_loop names secrets tags limits record cfg {
      secrets = insert name s cfg.secrets;
      secret_ad_tags = store_ad_tag name tag cfg.secret_ad_tags;
      limits = store_limits name l cfg.limits;
    }

pub to_config : SecretSet → Option SecretConfig
to_config s =
    to_config_loop s.names s.secrets s.ad_tags s.limits
      record { secrets = []; secret_ad_tags = []; global_ad_tag = s.global_ad_tag; limits = [] }
