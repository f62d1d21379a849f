-- ===== src/Api/Requests.antt =====
-- mtglib/proxy_api.go: the handlers of the management API behind their middleware. hex, base64 and
-- the parameters of Api.Limits and of the change of the set are parameters.
use mtg_multi.Prelude.{
  ℕ, Bool, false, not, ◌||◌, Option, none, some, List, [], ◌∷◌, ◌++◌, length, ◌==◌, if◌then◌else◌,
  bytes_eq, bytes_key, Fallible, err, ok, ◌>>=◌, or_err,
}
use mtg_multi.Prelude.Bytes.{Bytes, text}
use mtg_multi.Prelude.Map.{Map, insert}
use mtg_multi.Prelude.Ints.{ℤ}
use mtg_multi.Stats.{reset_quota}
use mtg_multi.Secrets.{Secret, zero_secret, SetError, set, SecretLimits, is_zero, SecretConfig}
use mtg_multi.Secrets.Swap.{
  Proxy, Swapped, swapped, refused, panicked, SecretError, secret_not_found, last_secret,
  swap_secret_config, reload_secrets, put_secret, delete_secret, set_global_ad_tag,
}
use mtg_multi.Api.Limits.{LimitError, Calendar, LimitFields, parse_limits}
use mtg_multi.Api.Info.{SecretInfo, StatsResponse, snapshot_secrets, handle_stats}

pub data ApiError : Type 0 where
  bad_json bad_secret bad_ad_tag ad_tag_required : ApiError
  bad_limits : LimitError → ApiError
  mutation : SecretError → ApiError

pub data Body : Type 0 where
  status_ok : Body
  failure : ApiError → Body
  -- http.Error with a fixed text.
  plain : Body
  secrets : List SecretInfo → Body
  stats : StatsResponse → Body
  ad_tag : Option Bytes → Body

-- `aborted` is a handler that panics: net/http drops the connection.
pub data Response : Type 0 where
  answer : ℕ → Body → Response
  aborted : Response

pub record SecretEntry : Type 0 where
  pub secret : Bytes
  pub ad_tag : Bytes
  pub limits : LimitFields

pub record PutSecrets : Type 0 where
  pub secrets : Map Bytes SecretEntry
  pub ad_tag : Bytes

-- The routes. A body is none where decodeJSON fails; `reload` has the method.
pub data Request : Type 0 where
  get_stats get_secrets get_ad_tag delete_ad_tag : Request
  reload : Bytes → Request
  put_secrets : Option PutSecrets → Request
  post_secret : Option (Bytes × SecretEntry) → Request
  delete_named reset_named : Bytes → Request
  put_global_tag : Option Bytes → Request

-- The proxy after a request, the connections that it closed, and the response.
abbrev pub Handled : Type 0
Handled = Proxy × List ℕ × Response

-- secretMutationStatus
unfoldable pub secret_mutation_status : SecretError → ℕ
secret_mutation_status secret_not_found = 404
secret_mutation_status last_secret = 409
secret_mutation_status _ = 400

-- What a mutating handler answers: httpError, or statusOK.
unfoldable pub respond : Proxy → Swapped → Handled
unfolding secret_mutation_status
respond p (swapped p' closed) = (p', closed, answer 200 status_ok)
respond p (refused e) = (p, [], answer (secret_mutation_status e) (failure (mutation e)))
respond p panicked = (p, [], aborted)

-- A handler that reads, or whose request is bad.
abbrev pub unchanged : Proxy → ℕ → Body → Handled
unchanged p status body = (p, [], answer status body)

-- hasSecret
unfoldable pub has_secret : Bytes → List Bytes → Bool
has_secret name [] = false
has_secret name (n ∷ names) = bytes_eq n name || has_secret name names

pub record Codecs : Type 0 where
  pub hex_decode : Bytes → Option Bytes
  pub base64_decode : Bytes → Option Bytes
  pub base64_encode : Bytes → Bytes
  pub base2_bytes : Bytes → Option ℤ
  pub calendar : Calendar

module _ (c : Codecs) where
  abbrev pub or_set : Secret × Option SetError → Fallible ApiError Secret
  or_set (s, none) = ok s
  or_set (s, some e) = err bad_secret

  -- ParseSecret
  unfoldable pub parse_secret : Bytes → Fallible ApiError Secret
  parse_secret b = or_set (set c.hex_decode c.base64_decode zero_secret b)

  abbrev pub of_length : Bytes → Fallible ApiError (Option Bytes)
  of_length decoded = if not (length decoded == 16) then err bad_ad_tag else ok (some decoded)

  -- parseAdTagHex
  unfoldable pub parse_ad_tag_hex : Bytes → Fallible ApiError (Option Bytes)
  parse_ad_tag_hex [] = ok none
  parse_ad_tag_hex (b ∷ s) = or_err bad_ad_tag (c.hex_decode (b ∷ s)) >>= of_length

  abbrev pub or_bad_limits : Fallible LimitError SecretLimits → Fallible ApiError SecretLimits
  or_bad_limits (err e) = err (bad_limits e)
  or_bad_limits (ok l) = ok l

  -- An entry of a request, field by field.
  unfoldable pub parse_entry :
      SecretEntry → Fallible ApiError (Secret × Option Bytes × SecretLimits)
  unfolding parse_secret parse_ad_tag_hex
  parse_entry e = parse_secret e.secret >>= λ s. parse_ad_tag_hex e.ad_tag >>= λ tag.
      or_bad_limits (parse_limits c.base2_bytes c.calendar e.limits) >>= λ limits.
      ok (s, tag, limits)

  abbrev pub with_tag : Bytes → Option Bytes → Map Bytes Bytes → Map Bytes Bytes
  with_tag name none m = m
  with_tag name (some tag) m = insert name tag m

  abbrev pub store_entry :
      Bytes → Secret × Option Bytes × SecretLimits → SecretConfig → SecretConfig
  store_entry name (s, tag, l) cfg = record cfg {
    secrets = insert name s cfg.secrets;
    secret_ad_tags = with_tag name tag cfg.secret_ad_tags;
    limits = if is_zero l then cfg.limits else insert name l cfg.limits;
  }

  -- The loop of handlePutSecrets, in the order in which the map is walked.
  unfoldable pub parse_entries :
      Map Bytes SecretEntry → SecretConfig → Fallible ApiError SecretConfig
  unfolding parse_entry
  parse_entries [] cfg = ok cfg
  parse_entries ((name, e) ∷ m) cfg =
      parse_entry e >>= λ parsed. parse_entries m (store_entry name parsed cfg)

  abbrev pub empty_config : SecretConfig
  empty_config = record { secrets = []; secret_ad_tags = []; global_ad_tag = none; limits = [] }

  unfoldable pub parse_put_secrets : PutSecrets → Fallible ApiError SecretConfig
  unfolding parse_entries parse_ad_tag_hex
  parse_put_secrets req = parse_entries req.secrets empty_config >>= λ cfg.
      parse_ad_tag_hex req.ad_tag >>= λ global. ok (record cfg { global_ad_tag = global })

  abbrev pub required : Option Bytes → Fallible ApiError Bytes
  required none = err ad_tag_required
  required (some tag) = ok tag

  unfoldable pub parse_put_ad_tag : Bytes → Fallible ApiError Bytes
  unfolding parse_ad_tag_hex
  parse_put_ad_tag b = parse_ad_tag_hex b >>= required

  module _ {ℓ} {M : Type ℓ} (sort_strings : List Bytes → List Bytes) (same_month : M → M → Bool)
      (month_of : ℕ → M) (now : ℕ) where
    unfoldable pub on_reload : Option (Option SecretConfig) → Proxy → Swapped → Handled
    on_reload none p r = unchanged p 503 plain
    on_reload (some source) p (swapped p' closed) = (p', closed, answer 200 status_ok)
    on_reload (some source) p (refused e) = unchanged p 500 plain
    on_reload (some source) p panicked = (p, [], aborted)

    -- reloadHandler, with what the reloader gives, if there is one.
    unfoldable pub reload_handler : Option (Option SecretConfig) → Bytes → Proxy → Handled
    unfolding on_reload
    reload_handler reloader method p =
        if not (bytes_eq method (text "POST"))
        then unchanged p 405 plain
        else on_reload reloader p (reload_secrets sort_strings same_month month_of now reloader p)

    unfoldable pub replace : Proxy → Fallible ApiError SecretConfig → Handled
    unfolding respond
    replace p (err e) = unchanged p 400 (failure e)
    replace p (ok cfg) = respond p (swap_secret_config sort_strings same_month month_of now cfg p)

    unfoldable pub handle_put_secrets : Option PutSecrets → Proxy → Handled
    unfolding replace parse_put_secrets
    handle_put_secrets body p = replace p (or_err bad_json body >>= parse_put_secrets)

    unfoldable pub posted :
        Proxy → Bytes → Fallible ApiError (Secret × Option Bytes × SecretLimits) → Handled
    unfolding respond
    posted p name (err e) = unchanged p 400 (failure e)
    posted p name (ok (s, tag, l)) =
        respond p (put_secret sort_strings same_month month_of now name s tag (some l) p)

    unfoldable pub handle_post_secret : Option (Bytes × SecretEntry) → Proxy → Handled
    unfolding posted parse_entry
    handle_post_secret none p = unchanged p 400 (failure bad_json)
    handle_post_secret (some (name, e)) p = posted p name (parse_entry e)

    unfoldable pub handle_delete_secret : Bytes → Proxy → Handled
    unfolding respond
    handle_delete_secret name p =
        respond p (delete_secret sort_strings same_month month_of now name p)

    -- handleResetQuota
    unfoldable pub handle_reset_quota : Bytes → Proxy → Handled
    unfolding has_secret
    handle_reset_quota name p =
        if not (has_secret name p.secrets.names)
        then unchanged p 404 (failure (mutation secret_not_found))
        else (record p { stats = reset_quota p.stats name now }, [], answer 200 status_ok)

    unfoldable pub tagged : Proxy → Fallible ApiError Bytes → Handled
    unfolding respond
    tagged p (err e) = unchanged p 400 (failure e)
    tagged p (ok tag) =
        respond p (set_global_ad_tag sort_strings same_month month_of now (some tag) p)

    unfoldable pub handle_put_ad_tag : Option Bytes → Proxy → Handled
    unfolding tagged parse_put_ad_tag
    handle_put_ad_tag body p = tagged p (or_err bad_json body >>= parse_put_ad_tag)

    unfoldable pub handle_delete_ad_tag : Proxy → Handled
    unfolding respond
    handle_delete_ad_tag p =
        respond p (set_global_ad_tag sort_strings same_month month_of now none p)

    unfoldable pub listed : Proxy → Option (List SecretInfo) → Handled
    listed p none = (p, [], aborted)
    listed p (some infos) = unchanged p 200 (secrets infos)

    unfoldable pub counted : Proxy → Option StatsResponse → Handled
    counted p none = (p, [], aborted)
    counted p (some resp) = unchanged p 200 (stats resp)

    -- The mux of buildAPIHandler.
    unfoldable pub handle : Option (Option SecretConfig) → Request → Proxy → Handled
    unfolding listed counted
    handle reloader get_stats p = counted p (handle_stats p now)
    handle reloader (reload method) p = reload_handler reloader method p
    handle reloader get_secrets p = listed p (snapshot_secrets c.base64_encode p)
    handle reloader (put_secrets body) p = handle_put_secrets body p
    handle reloader (post_secret body) p = handle_post_secret body p
    handle reloader (delete_named name) p = handle_delete_secret name p
    handle reloader (reset_named name) p = handle_reset_quota name p
    handle reloader get_ad_tag p = unchanged p 200 (ad_tag p.secrets.global_ad_tag)
    handle reloader (put_global_tag body) p = handle_put_ad_tag body p
    handle reloader delete_ad_tag p = handle_delete_ad_tag p

    -- withAuth around it: `header` is the request's Authorization, empty where it has none.
    unfoldable pub serve_http :
        Bytes → Bytes → Option (Option SecretConfig) → Request → Proxy → Handled
    unfolding handle
    serve_http [] header reloader req p = handle reloader req p
    serve_http (t ∷ token) header reloader req p =
        if not (bytes_eq header (text "Bearer " ++ (t ∷ token)))
        then unchanged p 401 plain
        else handle reloader req p
