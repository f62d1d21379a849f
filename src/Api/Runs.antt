-- ===== src/Api/Runs.antt =====
-- mtglib/proxy_api.go and mtglib/secret_limits.go on concrete requests. A text is its own decoding.
use mtg_multi.Prelude.{◌≡◌, refl, true, none, some, List, [], ◌∷◌, ◌++◌, replicate, ◌==◌, ok, err}
use mtg_multi.Prelude.Bytes.{Bytes, text}
use mtg_multi.Prelude.Strings.{trim_space, to_lower, to_upper, parse_int}
use mtg_multi.Prelude.Ints.{pos}
use mtg_multi.Stats.{quota_reset_monthly, new_proxy_stats}
use mtg_multi.Secrets.{SecretConfig, build_secret_set, valid}
use mtg_multi.Secrets.Snapshot.{IsSort}
use mtg_multi.Secrets.Swap.{Proxy, all_valid}
use mtg_multi.Api.Limits.{
  Calendar, clean_quota, parse_quota_bytes, parse_quota_reset, negative_quota,
}
use mtg_multi.Api.Requests.{Codecs, Request, post_secret, serve_http}
use mtg_multi.Api.Authorised.{Answered, IsGuarded, serve_http-IsAnswered}

abbrev calendar : Calendar
calendar = record { rfc3339 = λ b. none; date_only = λ b. some (some 7) }

abbrev codecs : Codecs
codecs = record {
  hex_decode = λ b. some b;
  base64_decode = λ b. none;
  base64_encode = λ b. b;
  base2_bytes = λ b. some (pos 42);
  calendar = calendar;
}

units_read : parse_quota_bytes (λ b. some (pos 42)) (text " 10 GIB ") ≡ ok 42
unfolding parse_quota_bytes parse_int trim_space clean_quota to_upper
units_read = refl

cleaned : clean_quota (text "10 GIB") ≡ text "10GiB"
unfolding clean_quota
cleaned = refl

bytes_read : parse_quota_bytes (λ b. none) (text "1048576") ≡ ok 1048576
unfolding parse_quota_bytes parse_int trim_space
bytes_read = refl

negative_refused : parse_quota_bytes (λ b. none) (text "-1") ≡ err negative_quota
unfolding parse_quota_bytes parse_int trim_space
negative_refused = refl

reset_read : parse_quota_reset (text " Monthly") ≡ ok quota_reset_monthly
unfolding parse_quota_reset trim_space to_lower
reset_read = refl

abbrev alice : Bytes
alice = text "alice"

abbrev sole : SecretConfig
sole = record {
  secrets = (alice, record { key = replicate 16 1; host = text "h" }) ∷ [];
  secret_ad_tags = [];
  global_ad_tag = none;
  limits = [];
}

abbrev as_listed : List Bytes → List Bytes
as_listed xs = xs

as_listed-IsSort : IsSort as_listed
as_listed-IsSort x xs = refl

sole-all_valid : all_valid sole.secrets ≡ true
unfolding all_valid valid
sole-all_valid = refl

abbrev serving : Proxy
serving = record {
  secrets = build_secret_set as_listed sole;
  live_conns = [];
  stats = new_proxy_stats 0;
}

abbrev posted : Request
posted = post_secret (
    some (
      text "bob",
      record {
        secret = 238 ∷ replicate 16 2 ++ text "i";
        ad_tag = [];
        limits = record { quota = []; quota_reset = []; expires = []; disabled = true };
      },
    ))

serve_http-IsAnswered_example :
    let h =
      serve_http codecs as_listed ◌==◌
        (λ x. x)
        40
        (text "t")
        (text "Bearer t")
        none
        posted
        serving in
    Answered codecs as_listed ◌==◌ (λ x. x) 40 none posted serving h
    × IsGuarded codecs as_listed ◌==◌ (λ x. x) 40 none (text "t") (text "Bearer t") serving h
serve_http-IsAnswered_example =
    serve_http-IsAnswered codecs as_listed ◌==◌ (λ x. x) 40 none (text "t") (text "Bearer t") posted
      serving as_listed-IsSort (sole, refl, sole-all_valid, refl)
