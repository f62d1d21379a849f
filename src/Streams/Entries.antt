-- ===== src/Streams/Entries.antt =====
-- mtglib/proxy.go: what a set holds at an index, and the host that a client is fronted to.
use mtg_multi.Prelude.{
  ℕ, ◌≡◌, ◌≢◌, refl, sym, ap, ◌∙◌, true, false, ◌⊎◌, inl, inr, Option, none, some, List, [], ◌∷◌,
  get_elem?, if◌then◌else◌, Fallible, ok, err,
}
use mtg_multi.Prelude.Bytes.{Bytes}
use mtg_multi.Secrets.{
  Secret, SecretSet, SecretLimits, DenyReason, deny_none, deny_disabled, deny_expired, deny_quota,
}
use mtg_multi.Fake.{HelloError, is_empty}
use mtg_multi.Fake.Hello.{Matched, matched, unmatched}
use mtg_multi.Streams.{
  Settings, override_or, flatten, fronting_host, zip_entry, effective_ad_tag, is_allowed,
}

-- What secrets, names and limits hold at an index.
abbrev pub IsEntry : SecretSet → ℕ → Secret → Bytes → SecretLimits → Type 0
IsEntry set i secret name limits =
    (get_elem? set.secrets i ≡ some secret)
    × (get_elem? set.names i ≡ some name)
    × (get_elem? set.limits i ≡ some limits)

pub zip_entry-some :
    (a : Option Secret) (b : Option Bytes) (c : Option SecretLimits) (secret : Secret)
    (name : Bytes) (limits : SecretLimits)
    → zip_entry a b c ≡ some (secret, (name, limits))
    → (a ≡ some secret) × (b ≡ some name) × (c ≡ some limits)
zip_entry-some none b c secret name limits e = absurd (cc)
zip_entry-some (some x) none c secret name limits e = absurd (cc)
zip_entry-some (some x) (some y) none secret name limits e = absurd (cc)
zip_entry-some (some x) (some y) (some z) secret name limits e = (cc, cc, cc)

-- One of the lists is too short for an index.
abbrev pub IsMissing : SecretSet → ℕ → Type 0
IsMissing set i =
    (get_elem? set.secrets i ≡ none)
    ⊎ ((get_elem? set.names i ≡ none) ⊎ (get_elem? set.limits i ≡ none))

pub zip_entry-none :
    (a : Option Secret) (b : Option Bytes) (c : Option SecretLimits)
    → zip_entry a b c ≡ none
    → (a ≡ none) ⊎ ((b ≡ none) ⊎ (c ≡ none))
zip_entry-none none b c e = inl refl
zip_entry-none (some x) none c e = inr (inl refl)
zip_entry-none (some x) (some y) none e = inr (inr refl)
zip_entry-none (some x) (some y) (some z) e = absurd (cc)

-- The tag of an index: its own one, or else the global one.
abbrev pub IsAdTag : SecretSet → ℕ → Option Bytes → Type 0
IsAdTag set i tag =
    ((own : Bytes) × (get_elem? set.ad_tags i ≡ some (some own)) × (tag ≡ some own))
    ⊎ (((own : Bytes) → get_elem? set.ad_tags i ≢ some (some own)) × (tag ≡ set.global_ad_tag))

pub effective_ad_tag-IsAdTag : (set : SecretSet) (i : ℕ) → IsAdTag set i (effective_ad_tag set i)
unfolding effective_ad_tag
effective_ad_tag-IsAdTag set i = by_own (get_elem? set.ad_tags i) refl
  where
    by_own :
        (o : Option (Option Bytes))
        → get_elem? set.ad_tags i ≡ o
        → IsAdTag set i (override_or (flatten o) set.global_ad_tag)
    by_own none e = inr ((λ own f. cc), refl)
    by_own (some none) e = inr ((λ own f. cc), refl)
    by_own (some (some own)) e = inl (own, e, refl)

pub deny_none_lem : (reason : DenyReason) → is_allowed reason ≡ true → reason ≡ deny_none
deny_none_lem deny_none e = refl
deny_none_lem deny_disabled e = absurd (cc)
deny_none_lem deny_expired e = absurd (cc)
deny_none_lem deny_quota e = absurd (cc)

pub denied : (reason : DenyReason) → is_allowed reason ≡ false → reason ≢ deny_none
denied reason e f = let q : is_allowed deny_none ≡ false = ap is_allowed (sym f) ∙ e in cc

-- The hostname of the hello, or, where there is none, the one of the first secret.
abbrev pub IsFirstHost : SecretSet → Bytes → Type 0
IsFirstHost set host =
    (first : Secret) × (rest : List Secret) × (set.secrets ≡ first ∷ rest) × (host ≡ first.host)

abbrev pub IsHelloHost : SecretSet → Fallible HelloError Matched → Bytes → Type 0
IsHelloHost set (err e) host = IsFirstHost set host
IsHelloHost set (ok (unmatched [])) host = IsFirstHost set host
IsHelloHost set (ok (unmatched (b ∷ name))) host = host ≡ b ∷ name
IsHelloHost set (ok (matched hello i name)) host = host ≡ name

-- The configured host, if there is one.
abbrev pub IsAddress : Bytes → Bytes → Bytes → Type 0
IsAddress [] host addr = addr ≡ host
IsAddress (b ∷ configured) host addr = addr ≡ b ∷ configured

pub fronting_host-IsAddress :
    (s : Settings) (host : Bytes) → IsAddress s.domain_fronting_host host (fronting_host s host)
unfolding fronting_host is_empty
fronting_host-IsAddress s host = by_host s.domain_fronting_host
  where
    by_host : (c : Bytes) → IsAddress c host (if is_empty c then host else c)
    by_host [] = refl
    by_host (b ∷ c) = refl
