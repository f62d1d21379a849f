-- ===== src/Api/Limits.antt =====
-- mtglib/secret_limits.go and limitFields of mtglib/proxy_api.go: limits as texts. The unit sizes of
-- alecthomas/units and time.Parse for the two layouts are parameters.
use mtg_multi.Prelude.{
  ℕ, Bool, ◌&&◌, ◌||◌, Option, none, some, [], ◌∷◌, ◌==◌, if◌then◌else◌, bytes_eq, Fallible, err,
  ok, ◌>>=◌, or_err,
}
use mtg_multi.Prelude.Bytes.{Bytes, text}
use mtg_multi.Prelude.Ints.{ℤ, pos, negsuc}
use mtg_multi.Prelude.Strings.{trim_space, to_lower, to_upper, parse_int}
use mtg_multi.Stats.{QuotaReset, quota_reset_none, quota_reset_monthly}
use mtg_multi.Secrets.{SecretLimits}

pub data LimitError : Type 0 where
  bad_quota negative_quota bad_reset bad_expiry : LimitError

-- quotaBytesCleaner: spaces and tabs go, and IB becomes iB.
unfoldable pub clean_quota : Bytes → Bytes
clean_quota [] = []
clean_quota (c ∷ []) = if (c == b' ') || (c == 9) then [] else c ∷ []
clean_quota (c ∷ d ∷ s) =
    let rest = clean_quota (d ∷ s) in
    let after = clean_quota s in
    if (c == b' ') || (c == 9)
    then rest
    else if (c == b'I') && (d == b'B')
    then b'i' ∷ b'B' ∷ after
    else c ∷ rest

abbrev pub positive : ℤ → Fallible LimitError ℕ
positive (pos n) = ok n
positive (negsuc n) = err negative_quota

-- What ParseQuotaReset and ParseExpiry ask of the calendar: a time, none for the zero one.
pub record Calendar : Type 0 where
  pub rfc3339 : Bytes → Option (Option ℕ)
  pub date_only : Bytes → Option (Option ℕ)

module _ (base2_bytes : Bytes → Option ℤ) where
  unfoldable pub or_units : Bytes → Option ℤ → Fallible LimitError ℕ
  unfolding clean_quota to_upper
  or_units s (some n) = positive n
  or_units s none = or_err bad_quota (base2_bytes (clean_quota (to_upper s))) >>= positive

  unfoldable pub parse_trimmed : Bytes → Fallible LimitError ℕ
  unfolding or_units parse_int
  parse_trimmed [] = ok 0
  parse_trimmed (c ∷ s) = or_units (c ∷ s) (parse_int (c ∷ s))

  unfoldable pub parse_quota_bytes : Bytes → Fallible LimitError ℕ
  unfolding parse_trimmed trim_space
  parse_quota_bytes s = parse_trimmed (trim_space s)

unfoldable pub parse_quota_reset : Bytes → Fallible LimitError QuotaReset
unfolding to_lower trim_space
parse_quota_reset s =
    let word = to_lower (trim_space s) in
    if bytes_eq word [] || bytes_eq word (text "none")
    then ok quota_reset_none
    else if bytes_eq word (text "monthly")
    then ok quota_reset_monthly
    else err bad_reset

-- QuotaReset.String
unfoldable pub quota_reset_text : QuotaReset → Bytes
quota_reset_text quota_reset_monthly = text "monthly"
quota_reset_text quota_reset_none = text "none"

abbrev pub or_date : Calendar → Bytes → Option (Option ℕ) → Fallible LimitError (Option ℕ)
or_date calendar s (some t) = ok t
or_date calendar s none = or_err bad_expiry (calendar.date_only s)

unfoldable pub parse_expiry_trimmed : Calendar → Bytes → Fallible LimitError (Option ℕ)
parse_expiry_trimmed calendar [] = ok none
parse_expiry_trimmed calendar (c ∷ s) = or_date calendar (c ∷ s) (calendar.rfc3339 (c ∷ s))

unfoldable pub parse_expiry : Calendar → Bytes → Fallible LimitError (Option ℕ)
unfolding parse_expiry_trimmed trim_space
parse_expiry calendar s = parse_expiry_trimmed calendar (trim_space s)

pub record LimitFields : Type 0 where
  pub quota : Bytes
  pub quota_reset : Bytes
  pub expires : Bytes
  pub disabled : Bool

-- limitFields.parse
unfoldable pub parse_limits :
    (Bytes → Option ℤ) → Calendar → LimitFields → Fallible LimitError SecretLimits
unfolding parse_quota_bytes parse_quota_reset parse_expiry
parse_limits base2_bytes calendar l = parse_quota_bytes base2_bytes l.quota >>= λ quota.
    parse_quota_reset l.quota_reset >>= λ reset. parse_expiry calendar l.expires >>= λ expires.
    ok (record {
      quota_bytes = quota;
      quota_reset = reset;
      expires_at = expires;
      disabled = l.disabled;
    })
