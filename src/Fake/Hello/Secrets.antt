-- ===== src/Fake/Hello/Secrets.antt =====
-- mtglib/internal/tls/fake/client_side.go: whose hello ReadClientHelloMulti takes it for.
use mathlib.Core.Path.{subst}
use mathlib.Core.Option.{some-injective}
use mtg_multi.Prelude.{
  ℕ, zero, suc, ◌+◌, ◌<◌, ◌≡◌, refl, Bool, true, false, Option, none, some, List, [], ◌∷◌,
  get_elem?, if◌then◌else◌, bytes_eq_iff, Bool-cases, inl, inr, arith, ok, err, passed,
  ok-injective, err-ne-ok,
}
use mtg_multi.Prelude.Bytes.{Bytes}
use mtg_multi.Fake.{RawHello, parse_client_hello, is_empty, cannot_find_host}
use mtg_multi.Fake.Hello.{
  ClientHello, Matched, matched, unmatched, confirms, try_secrets, verdict, try_host,
  read_client_hello_multi, parse_handshake, parse_sni, contains, match_host,
}

contains-pick :
    (b : Bool) (h m : Bytes) (hs names : List Bytes)
    → contains h names ≡ b
    → is_empty (if b then h else m) ≡ false
    → (is_empty m ≡ false → (contains m hs ≡ true) × (contains m names ≡ true))
    → (contains (if b then h else m) (h ∷ hs) ≡ true) × (contains (if b then h else m) names ≡ true)
unfolding contains
contains-pick true h m hs names c e rest = (rw ((bytes_eq_iff h h).1 refl) refl, c)
contains-pick false h m hs names c e rest = let (a, n) = rest e in (rw a (ground arith), n)

contains-match_host :
    (hostnames names : List Bytes)
    → is_empty (match_host hostnames names) ≡ false
    → (contains (match_host hostnames names) hostnames ≡ true)
      × (contains (match_host hostnames names) names ≡ true)
unfolding match_host contains is_empty
contains-match_host [] names e = let q : true ≡ false = e in cc
contains-match_host (h ∷ hs) names e =
    contains-pick (contains h names) h (match_host hs names) hs names refl e
      (contains-match_host hs names)

module _ (hmac : Bytes → Bytes → Bytes) (now : ℕ) (tolerate : ℕ) where
  -- The secret at the index confirms the hello and none before it does.
  abbrev pub IsFirst : Bytes → Bytes → List Bytes → ℕ → Type 0
  IsFirst hello_copy random ks i =
      ((k : Bytes) × (get_elem? ks i ≡ some k)
        × (confirms hmac now tolerate hello_copy random k ≡ true))
      × ((j : ℕ) (k : Bytes)
          → j < i
          → get_elem? ks j ≡ some k
          → confirms hmac now tolerate hello_copy random k ≡ false)

  abbrev pub IsNone : Bytes → Bytes → List Bytes → Type 0
  IsNone hello_copy random ks =
      (j : ℕ) (k : Bytes)
      → get_elem? ks j ≡ some k
      → confirms hmac now tolerate hello_copy random k ≡ false

  after_first :
      (hello_copy random k : Bytes) (ks : List Bytes)
      → confirms hmac now tolerate hello_copy random k ≡ false
      → IsNone hello_copy random ks
      → IsNone hello_copy random (k ∷ ks)
  after_first hello_copy random k ks other s zero k' e = rw (← some-injective _ _ e) other
  after_first hello_copy random k ks other s (suc j) k' e = s j k' e

  before_later :
      (hello_copy random k : Bytes) (ks : List Bytes) (m : ℕ)
      → confirms hmac now tolerate hello_copy random k ≡ false
      → ((j : ℕ) (k' : Bytes)
          → j < m
          → get_elem? ks j ≡ some k'
          → confirms hmac now tolerate hello_copy random k' ≡ false)
      → (j : ℕ) (k' : Bytes) → j < suc m
      → get_elem? (k ∷ ks) j ≡ some k'
      → confirms hmac now tolerate hello_copy random k' ≡ false
  before_later hello_copy random k ks m other s zero k' l e = rw (← some-injective _ _ e) other
  before_later hello_copy random k ks m other s (suc j) k' l e = s j k' (omega (arith, l)) e

  -- What a search from index `n` came to.
  abbrev IsSearch : Bytes → Bytes → List Bytes → ℕ → Option ℕ → Type 0
  IsSearch hello_copy random ks n none = IsNone hello_copy random ks
  IsSearch hello_copy random ks n (some i) = (m : ℕ) × (i ≡ n + m) × IsFirst hello_copy random ks m

  later :
      (hello_copy random k : Bytes) (ks : List Bytes) (n : ℕ) (o : Option ℕ)
      → confirms hmac now tolerate hello_copy random k ≡ false
      → IsSearch hello_copy random ks (suc n) o
      → IsSearch hello_copy random (k ∷ ks) n o
  later hello_copy random k ks n none other s = after_first hello_copy random k ks other s
  later hello_copy random k ks n (some i) other (m, e, (first, before)) =
      (suc m, omega (arith, e), (first, before_later hello_copy random k ks m other before))

  try_secrets-IsSearch :
      (hello_copy random : Bytes) (n : ℕ) (ks : List Bytes)
      → IsSearch hello_copy random ks n (try_secrets hmac now tolerate hello_copy random n ks)
  unfolding try_secrets
  try_secrets-IsSearch hello_copy random n [] = λ j k e. cc
  try_secrets-IsSearch hello_copy random n (k ∷ ks) =
      elim (Bool-cases (confirms hmac now tolerate hello_copy random k)) [
        | inl e ↦
            rw e (
              0,
              omega arith,
              ((k, refl, e), λ j k' l g. let y : ⊥ = omega (arith, l) in elim y [ ]),
            )
        | inr e ↦
            rw e (
              later hello_copy random k ks n _ e
                (try_secrets-IsSearch hello_copy random (suc n) ks))
      ]

  -- A hello that is taken for the secret of an index: that secret confirms it and none before does,
  -- and its host is an allowed one that it names. One that is refused with a host is confirmed by
  -- no secret.
  abbrev pub IsVerdict :
      List Bytes → List Bytes → RawHello → ClientHello → List Bytes → Matched → Type 0
  IsVerdict secrets hostnames raw hello names (matched hello' i host) =
      (hello' ≡ hello)
      × IsFirst raw.hello_copy hello.random secrets i
      × (contains host hostnames ≡ true)
      × (contains host names ≡ true)
  IsVerdict secrets hostnames raw hello names (unmatched host) =
      IsNone raw.hello_copy hello.random secrets
      × (contains host hostnames ≡ true)
      × (contains host names ≡ true)

  verdict-IsVerdict :
      (secrets hostnames : List Bytes) (raw : RawHello) (hello : ClientHello) (names : List Bytes)
      (host : Bytes) (o : Option ℕ)
      → contains host hostnames ≡ true
      → contains host names ≡ true
      → IsSearch raw.hello_copy hello.random secrets 0 o
      → IsVerdict secrets hostnames raw hello names (verdict hello host o)
  unfolding verdict
  verdict-IsVerdict secrets hostnames raw hello names host none a n s = (s, a, n)
  verdict-IsVerdict secrets hostnames raw hello names host (some i) a n (m, e, first) =
      (refl, subst (IsFirst raw.hello_copy hello.random secrets) (omega (arith, e)) first, a, n)

  try_host_failed :
      (secrets : List Bytes) (raw : RawHello) (hello : ClientHello) (host : Bytes)
      → is_empty host ≡ true
      → try_host hmac now tolerate secrets raw hello host ≡ err cannot_find_host
  unfolding try_host
  try_host_failed secrets raw hello host c = rw c refl

  try_host-IsVerdict :
      (secrets hostnames : List Bytes) (raw : RawHello) (hello : ClientHello) (names : List Bytes)
      {m : Matched}
      → try_host hmac now tolerate secrets raw hello (match_host hostnames names) ≡ ok m
      → IsVerdict secrets hostnames raw hello names m
  unfolding try_host
  try_host-IsVerdict secrets hostnames raw hello names {m = m} e =
      elim (Bool-cases (is_empty (match_host hostnames names))) [
        | inl c ↦
            (let q = try_host_failed secrets raw hello (match_host hostnames names) c in
              let y : ⊥ = err-ne-ok _ _ q e in elim y [ ])
        | inr c ↦
            (let (a, n) = contains-match_host hostnames names c in
              let v =
                verdict-IsVerdict secrets hostnames raw hello names (match_host hostnames names)
                  (try_secrets hmac now tolerate raw.hello_copy hello.random 0 secrets) a n
                  (try_secrets-IsSearch raw.hello_copy hello.random 0 secrets) in
              subst (IsVerdict secrets hostnames raw hello names) (ok-injective _ _ (rw c refl) e)
                v)
      ]

  -- A client hello that is taken for the secret of an index parses, that secret confirms it and no
  -- secret before it does, and its host is an allowed one that it names; one that is refused with
  -- a host for the fronting is confirmed by no secret.
  pub read_client_hello_multi-IsVerdict :
      (secrets hostnames : List Bytes) (input : Bytes) {m : Matched}
      → read_client_hello_multi hmac now tolerate secrets hostnames input ≡ ok m
      → (raw : RawHello) × (hello : ClientHello) × (rest : Bytes) × (names : List Bytes)
        × (parse_client_hello input ≡ ok raw)
        × (parse_handshake raw.handshake ≡ ok (hello, rest))
        × (parse_sni rest ≡ ok names)
        × IsVerdict secrets hostnames raw hello names m
  unfolding read_client_hello_multi
  read_client_hello_multi-IsVerdict secrets hostnames input e =
      let (raw, r, e1) = passed (parse_client_hello input) _ e in
      let ((hello, rest), h, e2) = passed (parse_handshake raw.handshake) _ e1 in
      let (names, n, e3) = passed (parse_sni rest) _ e2 in
      (raw, hello, rest, names, r, h, n, try_host-IsVerdict secrets hostnames raw hello names e3)
