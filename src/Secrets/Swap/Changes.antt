-- ===== src/Secrets/Swap/Changes.antt =====
-- mtglib/proxy_api.go: what the management calls are to do to a function from names to entries, and the
-- maps that they make of a configuration.
use mtg_multi.Prelude.{
  ◌≡◌, refl, sym, ap, ◌∙◌, Bool, true, false, not, ◌||◌, Option, none, some, [], ◌∷◌, length, ◌==◌,
  if◌then◌else◌, Bool-cases, Option-cases, bytes_eq, bytes_eq_iff, bytes_key, inl, inr, arith,
}
use mtg_multi.Prelude.Bytes.{Bytes}
use mtg_multi.Prelude.Map.{Map, lookup, insert, erase, lookup-insert, lookup-erase, IsDistinct}
use mtg_multi.Secrets.{Secret, valid, SecretLimits, no_limits, is_zero, SecretConfig, or_no_limits}
use mtg_multi.Secrets.Snapshot.{kept_limits-or_no_limits}
use mtg_multi.Secrets.Swap.{
  SecretError, secret_invalid, secret_not_found, last_secret, put_ad_tag, put_limits,
}
use mtg_multi.Secrets.Swap.View.{Entry, View, config_view}

is_found : Option Secret → Bool
is_found none = false
is_found (some s) = true

is_entry : Option Entry → Bool
is_entry none = false
is_entry (some x) = true

-- A call of the management API.
pub data Change : Type 0 where
  put : Bytes → Secret → Option Bytes → Option SecretLimits → Change
  delete : Bytes → Change
  set_tag : Option Bytes → Change

-- What a call is to do to what names are served with.
abbrev pub change_view : Change → View → View
change_view (put name s tag l) v j =
    if bytes_eq name j
    then some record { secret = s; ad_tag = tag; limits = or_no_limits l }
    else v j
change_view (delete name) v j = if bytes_eq name j then none else v j
change_view (set_tag tag) v j = v j

abbrev pub change_tag : Change → Option Bytes → Option Bytes
change_tag (set_tag tag) old = tag
change_tag (put name s tag l) old = old
change_tag (delete name) old = old

-- When a call may be refused, and how.
abbrev pub IsRefusal : Change → View → SecretError → Type 0
IsRefusal (put name s tag l) v secret_invalid = (bytes_eq name [] || not (valid s)) ≡ true
IsRefusal (delete name) v secret_not_found = v name ≡ none
IsRefusal (delete name) v last_secret = (j : Bytes) → bytes_eq name j ≡ false → v j ≡ none
IsRefusal _ v _ = false ≡ true

lookup-put_ad_tag :
    (k j : Bytes) (t : Option Bytes) (m : Map Bytes Bytes)
    → lookup j (put_ad_tag k t m) ≡ (if bytes_eq k j then t else lookup j m)
unfolding put_ad_tag
lookup-put_ad_tag k j none m = lookup-erase k j m
lookup-put_ad_tag k j (some t) m = lookup-insert k j t m

z_limits : (l : SecretLimits) → is_zero l ≡ true → l ≡ no_limits
z_limits l z = sym (kept_limits-or_no_limits l) ∙ rw z (unfold or_no_limits in refl)

lookup-put_limits :
    (k j : Bytes) (l : Option SecretLimits) (m : Map Bytes SecretLimits)
    → or_no_limits (lookup j (put_limits k l m))
      ≡ (if bytes_eq k j then or_no_limits l else or_no_limits (lookup j m))
unfolding put_limits or_no_limits
lookup-put_limits k j none m =
    rw (lookup-erase k j m)
      (elim (Bool-cases (bytes_eq k j)) [ inl e ↦ rw e refl | inr e ↦ rw e refl ])
lookup-put_limits k j (some l) m = elim (Bool-cases (is_zero l)) [
  | inl z ↦
      rw (z, lookup-erase k j m)
        (elim (Bool-cases (bytes_eq k j)) [ inl e ↦ rw e (sym (z_limits l z)) | inr e ↦ rw e refl ])
  | inr z ↦
      rw (z, lookup-insert k j l m)
        (elim (Bool-cases (bytes_eq k j)) [ inl e ↦ rw e refl | inr e ↦ rw e refl ])
]

pub insert-ne-empty :
    (k : Bytes) (s : Secret) (m : Map Bytes Secret) → (length (insert k s m) == 0) ≡ false
unfolding insert
insert-ne-empty k s [] = refl
insert-ne-empty k s ((j, t) ∷ m) = elim (Bool-cases (bytes_eq j k)) [
  | inl e ↦ rw e (ground arith)
  | inr e ↦ rw e (ground arith)
]

lookup-ne-empty :
    (k : Bytes) (m : Map Bytes Secret) {s : Secret} → lookup k m ≡ some s → (length m == 0) ≡ false
unfolding lookup is_found
lookup-ne-empty k [] e = let q : true ≡ false = sym (ap is_found e) in cc
lookup-ne-empty k ((j, t) ∷ m) e = ground arith

first_entry :
    (m : Map Bytes Secret)
    → (length m == 0) ≡ false
    → (k : Bytes) × (s : Secret) × (lookup k m ≡ some s)
unfolding lookup
first_entry [] e = let q : true ≡ false = e in cc
first_entry ((j, t) ∷ m) e = (j, t, rw ((bytes_eq_iff j j).1 refl) refl)

pub sole_entry :
    (k j : Bytes) (m : Map Bytes Secret) {s : Secret}
    → (length m == 1) ≡ true
    → lookup k m ≡ some s
    → bytes_eq k j ≡ false
    → lookup j m ≡ none
unfolding lookup
sole_entry k j [] l e n = refl
sole_entry k j ((i, t) ∷ []) l e n =
    ground (arith, e, n, bytes_eq_iff i k, bytes_eq_iff i j, bytes_eq_iff k j)
sole_entry k j ((i, t) ∷ (h, u) ∷ m) l e n = ground (arith, l)

pub erase-ne-empty :
    (k : Bytes) (m : Map Bytes Secret) {s : Secret}
    → IsDistinct m
    → (length m == 1) ≡ false
    → lookup k m ≡ some s
    → (length (erase k m) == 0) ≡ false
unfolding lookup erase is_found
erase-ne-empty k [] d l e = let q : true ≡ false = sym (ap is_found e) in cc
erase-ne-empty k ((i, t) ∷ []) d l e = let q : true ≡ false = l in cc
erase-ne-empty k ((i, t) ∷ (h, u) ∷ m) (fresh, d) l e =
    ground (arith, fresh, e, bytes_eq_iff i k, bytes_eq_iff h k, bytes_eq_iff h i)

pub put_view :
    (name j : Bytes) (s : Secret) (tag : Option Bytes) (l : Option SecretLimits)
    (cfg : SecretConfig)
    → config_view
        record cfg {
          secrets = insert name s cfg.secrets;
          secret_ad_tags = put_ad_tag name tag cfg.secret_ad_tags;
          limits = put_limits name l cfg.limits;
        }
        j
      ≡ change_view (put name s tag l) (config_view cfg) j
put_view name j s tag l cfg =
    rw
      (
        lookup-insert name j s cfg.secrets,
        lookup-put_ad_tag name j tag cfg.secret_ad_tags,
        lookup-put_limits name j l cfg.limits,
      )
      (elim (Bool-cases (bytes_eq name j)) [ inl e ↦ rw e refl | inr e ↦ rw e refl ])

pub erase_view :
    (name j : Bytes) (cfg : SecretConfig)
    → config_view
        record cfg {
          secrets = erase name cfg.secrets;
          secret_ad_tags = erase name cfg.secret_ad_tags;
        }
        j
      ≡ change_view (delete name) (config_view cfg) j
erase_view name j cfg =
    rw (lookup-erase name j cfg.secrets, lookup-erase name j cfg.secret_ad_tags)
      (elim (Bool-cases (bytes_eq name j)) [ inl e ↦ rw e refl | inr e ↦ rw e refl ])

pub entry_ne_empty :
    (cfg back : SecretConfig)
    → ((j : Bytes) → config_view back j ≡ config_view cfg j)
    → (length cfg.secrets == 0) ≡ false
    → (length back.secrets == 0) ≡ false
unfolding is_entry
entry_ne_empty cfg back same n =
    let (k, s, e) = first_entry cfg.secrets n in
    elim (Option-cases (lookup k back.secrets)) [
      | inr (t, f) ↦ lookup-ne-empty k back.secrets f
      | inl f ↦
          (let q : config_view back k ≡ none = rw f refl in
            let r : config_view cfg k
                ≡ some record {
                  secret = s;
                  ad_tag = lookup k cfg.secret_ad_tags;
                  limits = or_no_limits (lookup k cfg.limits);
                } =
              rw e refl in
            let x : true ≡ false = sym (ap is_entry (sym q ∙ same k ∙ r)) in cc)
    ]
