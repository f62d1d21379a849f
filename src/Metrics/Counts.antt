-- ===== src/Metrics/Counts.antt =====
-- stats/prometheus.go: counting the streams that are open.
use mathlib.Core.Option.{some-injective}
use mtg_multi.Prelude.{
  ℕ, ◌+◌, ◌≡◌, refl, sym, ap, ◌∙◌, Bool, true, false, none, some, [], ◌∷◌, bytes_eq, bytes_eq_iff,
  bytes_key, Bool-cases, inl, inr, arith,
}
use mtg_multi.Prelude.Bytes.{Bytes}
use mtg_multi.Prelude.Map.{lookup, insert, erase, lookup-erase, IsDistinct}
use mtg_multi.Metrics.{StreamInfo, Streams}

abbrev pub one_if : Bool → ℕ
one_if true = 1
one_if false = 0

-- How many entries have a property.
unfoldable pub open_count : (StreamInfo → Bool) → Streams → ℕ
open_count p [] = 0
open_count p ((k, info) ∷ m) = one_if (p info) + open_count p m

lookup-nil : (k : Bytes) → lookup {V = StreamInfo} k [] ≡ none
unfolding lookup
lookup-nil k = refl

pub lookup-here :
    (j k : Bytes) (w : StreamInfo) (m : Streams)
    → bytes_eq j k ≡ true
    → lookup k ((j, w) ∷ m) ≡ some w
unfolding lookup
lookup-here j k w m e = rw e

pub lookup-there :
    (j k : Bytes) (w : StreamInfo) (m : Streams)
    → bytes_eq j k ≡ false
    → lookup k ((j, w) ∷ m) ≡ lookup k m
unfolding lookup
lookup-there j k w m e = rw e

lookup-erase_ne : (k j : Bytes) (m : Streams) → lookup j m ≡ none → lookup j (erase k m) ≡ none
lookup-erase_ne k j m h =
    lookup-erase k j m ∙ elim (Bool-cases (bytes_eq k j)) [ inl e ↦ rw e refl | inr e ↦ rw e h ]

pub erase-IsDistinct : (k : Bytes) (m : Streams) → IsDistinct m → IsDistinct (erase k m)
unfolding erase
erase-IsDistinct k [] d = tt
erase-IsDistinct k ((j, w) ∷ m) (fresh, d) = elim (Bool-cases (bytes_eq j k)) [
  | inl e ↦ rw e (erase-IsDistinct k m d)
  | inr e ↦ rw e (lookup-erase_ne k j m fresh, erase-IsDistinct k m d)
]

module _ (p : StreamInfo → Bool) where
  pub count-insert_new :
      (k : Bytes) (info : StreamInfo) (m : Streams)
      → lookup k m ≡ none
      → open_count p (insert k info m) ≡ one_if (p info) + open_count p m
  unfolding open_count insert
  count-insert_new k info [] h = refl
  count-insert_new k info ((j, w) ∷ m) h = elim (Bool-cases (bytes_eq j k)) [
    | inl e ↦ (let q : some w ≡ none = sym (lookup-here j k w m e) ∙ h in absurd (cc))
    | inr e ↦ rw e (omega (arith, count-insert_new k info m (sym (lookup-there j k w m e) ∙ h)))
  ]

  pub count-insert_same :
      (k : Bytes) (info old : StreamInfo) (m : Streams)
      → lookup k m ≡ some old
      → open_count p (insert k info m) + one_if (p old) ≡ one_if (p info) + open_count p m
  unfolding open_count insert
  count-insert_same k info old [] h =
      let q : none ≡ some old = sym (lookup-nil k) ∙ h in absurd (cc)
  count-insert_same k info old ((j, w) ∷ m) h = elim (Bool-cases (bytes_eq j k)) [
    | inl e ↦
        (let q : w ≡ old = some-injective _ _ (sym (lookup-here j k w m e) ∙ h) in
          rw e (omega (arith, ap (λ x. one_if (p x)) q)))
    | inr e ↦
        rw e (omega (arith, count-insert_same k info old m (sym (lookup-there j k w m e) ∙ h)))
  ]

  count-erase-none :
      (k : Bytes) (m : Streams) → lookup k m ≡ none → open_count p (erase k m) ≡ open_count p m
  unfolding open_count erase
  count-erase-none k [] h = refl
  count-erase-none k ((j, w) ∷ m) h = elim (Bool-cases (bytes_eq j k)) [
    | inl e ↦ (let q : some w ≡ none = sym (lookup-here j k w m e) ∙ h in absurd (cc))
    | inr e ↦ rw e (omega (arith, count-erase-none k m (sym (lookup-there j k w m e) ∙ h)))
  ]

  pub count-erase :
      (k : Bytes) (old : StreamInfo) (m : Streams)
      → IsDistinct m
      → lookup k m ≡ some old
      → open_count p (erase k m) + one_if (p old) ≡ open_count p m
  unfolding open_count erase
  count-erase k old [] d h = let q : none ≡ some old = sym (lookup-nil k) ∙ h in absurd (cc)
  count-erase k old ((j, w) ∷ m) (fresh, d) h = elim (Bool-cases (bytes_eq j k)) [
    | inl e ↦
        (let q : w ≡ old = some-injective _ _ (sym (lookup-here j k w m e) ∙ h) in
          let gone : lookup k m ≡ none =
            ap (λ i. lookup i m) (sym ((bytes_eq_iff j k).0 e)) ∙ fresh in
          rw e (omega (arith, ap (λ x. one_if (p x)) q, count-erase-none k m gone)))
    | inr e ↦ rw e (omega (arith, count-erase k old m d (sym (lookup-there j k w m e) ∙ h)))
  ]
