-- ===== src/Secrets/Swap/View.antt =====
-- mtglib/proxy.go: a secret set as a function from names to what they are served with.
use mathlib.Core.Path.{subst}
use mathlib.Core.Option.{some-injective}
use mtg_multi.Prelude.{
  ◌≡◌, refl, sym, ap, ◌∙◌, Bool, true, false, ◌&&◌, Option, none, some, List, [], ◌∷◌, map,
  if◌then◌else◌, Bool-cases, bytes_eq, bytes_eq_iff, bytes_key, inl, inr, arith,
}
use mtg_multi.Prelude.Bytes.{Bytes}
use mtg_multi.Prelude.Map.{Map, lookup, insert, erase, IsDistinct, insert-IsDistinct}
use mtg_multi.Secrets.{
  Secret, valid, SecretLimits, SecretConfig, SecretSet, or_zero_secret, or_no_limits, keys,
  build_secret_set, to_config_loop, to_config,
}
use mtg_multi.Secrets.Snapshot.{
  mem, has, IsSort, has-lookup, lookup-absent, to_config-build_secret_set,
}
use mtg_multi.Secrets.Swap.{all_valid}

-- What a name is served with.
pub record Entry : Type 0 where
  pub secret : Secret
  pub ad_tag : Option Bytes
  pub limits : SecretLimits

abbrev pub View : Type 0
View = Bytes → Option Entry

-- The first index of a name in the aligned lists.
pub find_entry :
    Bytes → List Bytes → List Secret → List (Option Bytes) → List SecretLimits → Option Entry
find_entry j (n ∷ ns) (s ∷ ss) (t ∷ ts) (l ∷ ls) =
    let rest = find_entry j ns ss ts ls in
    if bytes_eq n j then some record { secret = s; ad_tag = t; limits = l } else rest
find_entry j _ _ _ _ = none

abbrev pub view : SecretSet → View
view s j = find_entry j s.names s.secrets s.ad_tags s.limits

abbrev pub entry_of : Option Bytes → SecretLimits → Option Secret → Option Entry
entry_of tag limits' none = none
entry_of tag limits' (some s) = some record { secret = s; ad_tag = tag; limits = limits' }

-- The same of a configuration.
abbrev pub config_view : SecretConfig → View
config_view cfg j =
    entry_of (lookup j cfg.secret_ad_tags) (or_no_limits (lookup j cfg.limits))
      (lookup j cfg.secrets)

find_entry-map :
    (f : Bytes → Secret) (g : Bytes → Option Bytes) (h : Bytes → SecretLimits) (j : Bytes)
    (ns : List Bytes)
    → find_entry j ns (map f ns) (map g ns) (map h ns)
      ≡ (if mem j ns then some record { secret = f j; ad_tag = g j; limits = h j } else none)
unfolding find_entry
find_entry-map f g h j [] = refl
find_entry-map f g h j (n ∷ ns) = elim (Bool-cases (bytes_eq n j)) [
  | inl e ↦ rw ((bytes_eq_iff n j).0 e) (rw ((bytes_eq_iff j j).1 refl) refl)
  | inr e ↦ rw e (find_entry-map f g h j ns)
]

pub view-build_secret_set :
    (sort_strings : List Bytes → List Bytes) (cfg : SecretConfig) (j : Bytes)
    → IsSort sort_strings
    → view (build_secret_set sort_strings cfg) j ≡ config_view cfg j
unfolding build_secret_set or_zero_secret
view-build_secret_set sort_strings cfg j sorts =
    find_entry-map (λ name. or_zero_secret (lookup name cfg.secrets))
      (λ name. lookup name cfg.secret_ad_tags) (λ name. or_no_limits (lookup name cfg.limits)) j
      (sort_strings (keys cfg.secrets))
    ∙ rw (sorts j (keys cfg.secrets)) (elim (Bool-cases (has j cfg.secrets)) [
      | inl e ↦ (let (v, p) = has-lookup j cfg.secrets e in rw (e, p) refl)
      | inr e ↦ rw (e, lookup-absent j cfg.secrets e) refl
    ])

pub view-to_config :
    (sort_strings : List Bytes → List Bytes) (cfg : SecretConfig)
    → IsSort sort_strings
    → (back : SecretConfig) × (to_config (build_secret_set sort_strings cfg) ≡ some back)
      × ((j : Bytes) → config_view back j ≡ config_view cfg j)
      × (back.global_ad_tag ≡ cfg.global_ad_tag)
view-to_config sort_strings cfg sorts =
    let (back, e, s, t, l, g) = to_config-build_secret_set sort_strings cfg sorts in
    (
      back,
      e,
      (λ j.
          rw (s j, t j, l j)
            (elim (Bool-cases (has j cfg.secrets)) [
              | inl h ↦ rw h refl
              | inr h ↦ rw (h, lookup-absent j cfg.secrets h) refl
            ])),
      g,
    )

abbrev are_valid : List Secret → Bool
are_valid [] = true
are_valid (s ∷ ss) = valid s && are_valid ss

pub all_valid-insert :
    (k : Bytes) (s : Secret) (m : Map Bytes Secret)
    → valid s ≡ true
    → all_valid m ≡ true
    → all_valid (insert k s m) ≡ true
unfolding all_valid insert
all_valid-insert k s [] v a = rw v refl
all_valid-insert k s ((j, t) ∷ m) v a = elim (Bool-cases (bytes_eq j k)) [
  | inl e ↦ rw e (ground (arith, v, a))
  | inr e ↦ rw e (ground (arith, a, all_valid-insert k s m v))
]

pub all_valid-erase :
    (k : Bytes) (m : Map Bytes Secret) → all_valid m ≡ true → all_valid (erase k m) ≡ true
unfolding all_valid erase
all_valid-erase k [] a = refl
all_valid-erase k ((j, t) ∷ m) a = elim (Bool-cases (bytes_eq j k)) [
  | inl e ↦ rw e (all_valid-erase k m (ground (arith, a)))
  | inr e ↦ rw e (ground (arith, a, all_valid-erase k m))
]

is_found : Option Secret → Bool
is_found none = false
is_found (some s) = true

is_present : Option SecretConfig → Bool
is_present none = false
is_present (some cfg) = true

-- What toConfig stores one after another is valid and under distinct names.
to_config_loop-keeps :
    (ns : List Bytes) (ss : List Secret) (ts : List (Option Bytes)) (ls : List SecretLimits)
    (acc : SecretConfig) {back : SecretConfig}
    → to_config_loop ns ss ts ls acc ≡ some back
    → are_valid ss ≡ true
    → all_valid acc.secrets ≡ true
    → IsDistinct acc.secrets
    → (all_valid back.secrets ≡ true) × IsDistinct back.secrets
unfolding to_config_loop is_present
to_config_loop-keeps [] ss ts ls acc e vs a d =
    subst (λ (c : SecretConfig). (all_valid c.secrets ≡ true) × IsDistinct c.secrets)
      (some-injective _ _ e) (a, d)
to_config_loop-keeps (n ∷ ns) [] ts ls acc e vs a d = let q : false ≡ true = ap is_present e in cc
to_config_loop-keeps (n ∷ ns) (s ∷ ss) [] ls acc e vs a d =
    let q : false ≡ true = ap is_present e in cc
to_config_loop-keeps (n ∷ ns) (s ∷ ss) (t ∷ ts) [] acc e vs a d =
    to_config_loop-keeps ns ss ts [] _ e (ground (arith, vs))
      (all_valid-insert n s acc.secrets (ground (arith, vs)) a)
      (insert-IsDistinct n s acc.secrets d)
to_config_loop-keeps (n ∷ ns) (s ∷ ss) (t ∷ ts) (l ∷ ls) acc e vs a d =
    to_config_loop-keeps ns ss ts ls _ e (ground (arith, vs))
      (all_valid-insert n s acc.secrets (ground (arith, vs)) a)
      (insert-IsDistinct n s acc.secrets d)

branch_valid :
    (b : Bool) (t : Secret) (o : Option Secret) (s : Secret)
    → (if b then some t else o) ≡ some s
    → valid t ≡ true
    → (o ≡ some s → valid s ≡ true)
    → valid s ≡ true
branch_valid true t o s e v h = subst (λ (x : Secret). valid x ≡ true) (some-injective _ _ e) v
branch_valid false t o s e v h = h e

lookup-all_valid :
    (k : Bytes) (m : Map Bytes Secret) {s : Secret}
    → all_valid m ≡ true
    → lookup k m ≡ some s
    → valid s ≡ true
unfolding all_valid lookup is_found
lookup-all_valid k [] a e = let q : true ≡ false = sym (ap is_found e) in cc
lookup-all_valid k ((j, t) ∷ m) {s = s} a e =
    branch_valid (bytes_eq j k) t (lookup k m) s e (ground (arith, a))
      (lookup-all_valid k m (ground (arith, a)))

are_valid-map :
    (f : Bytes → Secret) (ns : List Bytes)
    → ((j : Bytes) → mem j ns ≡ true → valid (f j) ≡ true)
    → are_valid (map f ns) ≡ true
are_valid-map f [] h = refl
are_valid-map f (n ∷ ns) h =
    rw (h n (rw ((bytes_eq_iff n n).1 refl) refl))
      (are_valid-map f ns (λ j m. h j (rw m (ground arith))))

build_secret_set-are_valid :
    (sort_strings : List Bytes → List Bytes) (cfg : SecretConfig)
    → IsSort sort_strings
    → all_valid cfg.secrets ≡ true
    → are_valid (build_secret_set sort_strings cfg).secrets ≡ true
unfolding build_secret_set or_zero_secret
build_secret_set-are_valid sort_strings cfg sorts a =
    are_valid-map (λ name. or_zero_secret (lookup name cfg.secrets))
      (sort_strings (keys cfg.secrets))
      (λ j m.
        let (v, p) = has-lookup j cfg.secrets (sym (sorts j (keys cfg.secrets)) ∙ m) in
        rw p (lookup-all_valid j cfg.secrets a p))

-- What toConfig gives back is valid and under distinct names.
pub to_config-keeps :
    (sort_strings : List Bytes → List Bytes) (cfg : SecretConfig) {back : SecretConfig}
    → IsSort sort_strings
    → all_valid cfg.secrets ≡ true
    → to_config (build_secret_set sort_strings cfg) ≡ some back
    → (all_valid back.secrets ≡ true) × IsDistinct back.secrets
unfolding to_config all_valid
to_config-keeps sort_strings cfg sorts a e =
    let set = build_secret_set sort_strings cfg in
    to_config_loop-keeps set.names set.secrets set.ad_tags set.limits _ e
      (build_secret_set-are_valid sort_strings cfg sorts a) refl tt
