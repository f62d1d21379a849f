-- ===== src/Streams/Addresses.antt =====
-- mtglib/internal/dc: the addresses of a DC, and what the updater stores of Telegram's public
-- configuration. The built-in addresses, the shuffle, the regular expression and strconv.Atoi are
-- parameters; a map from DCs to addresses is a list of pairs.
use mtg_multi.Prelude.{
  ℕ, ◌≡◌, ◌≢◌, refl, sym, ap, ap₂, ◌∙◌, Bool, true, false, Option, none, some, List, [], ◌∷◌, ◌++◌,
  append-nil, ◌==◌, ==_iff, nat_eq, if◌then◌else◌, if_cases, Bool-cases, inl, inr,
}
use mtg_multi.Prelude.Bytes.{Bytes}
use mtg_multi.Prelude.Map.{Map, lookup, insert, lookup-insert}
use mtg_multi.Streams.{Addr}

pub data PreferIp : Type 0 where
  only_ipv4 only_ipv6 prefer_ipv4 prefer_ipv6 : PreferIp

-- dcAddrSet; a nil map holds nothing.
pub record AddrSet : Type 0 where
  pub v4 : Map ℕ (List Addr)
  pub v6 : Map ℕ (List Addr)

pub record Telegram : Type 0 where
  pub prefer_ip : PreferIp
  pub public_configs : AddrSet

abbrev or_no_addresses : Option (List Addr) → List Addr
or_no_addresses none = []
or_no_addresses (some addrs) = addrs

abbrev pub addrs_at : ℕ → Map ℕ (List Addr) → List Addr
addrs_at dc m = or_no_addresses (lookup dc m)

-- The one DC of the public configuration that is supported.
abbrev pub cdn_dc : ℕ
cdn_dc = 203

module _ (match_line : Bytes → Option (Bytes × Bytes)) (atoi : Bytes → Option ℕ) where
  -- A line for the one DC that is supported adds its address.
  pub add_addr : Bytes → Bytes → Option ℕ → Map ℕ (List Addr) → Map ℕ (List Addr)
  add_addr network address none m = m
  add_addr network address (some dc) m =
      if dc == cdn_dc
      then insert dc (addrs_at dc m ++ (record { network = network; address = address } ∷ [])) m
      else m

  pub scan_line : Bytes → Option (Bytes × Bytes) → Map ℕ (List Addr) → Map ℕ (List Addr)
  scan_line network none m = m
  scan_line network (some (dc, address)) m = add_addr network address (atoi dc) m

  pub scan : Bytes → List Bytes → Map ℕ (List Addr) → Map ℕ (List Addr)
  scan network [] m = m
  scan network (l ∷ ls) m = scan network ls (scan_line network (match_line l) m)

  -- What one successful round of PublicConfigUpdater.Run stores.
  pub update_public : Bool → Bytes → List Bytes → Telegram → Telegram
  update_public is_tcp4 network ls t =
      if is_tcp4
      then record t { public_configs = record t.public_configs { v4 = scan network ls [] } }
      else record t { public_configs = record t.public_configs { v6 = scan network ls [] } }

module _ (defaults : AddrSet) (shuffle : List Addr → List Addr) where
  pub get_v4 : AddrSet → ℕ → List Addr
  get_v4 public_set dc = shuffle (addrs_at dc defaults.v4) ++ shuffle (addrs_at dc public_set.v4)

  pub get_v6 : AddrSet → ℕ → List Addr
  get_v6 public_set dc = shuffle (addrs_at dc defaults.v6) ++ shuffle (addrs_at dc public_set.v6)

  pub addresses_for : PreferIp → AddrSet → ℕ → List Addr
  addresses_for only_ipv4 set dc = get_v4 set dc
  addresses_for only_ipv6 set dc = get_v6 set dc
  addresses_for prefer_ipv4 set dc = get_v4 set dc ++ get_v6 set dc
  addresses_for prefer_ipv6 set dc = get_v6 set dc ++ get_v4 set dc

  pub get_addresses : Telegram → ℕ → List Addr
  get_addresses t dc = addresses_for t.prefer_ip t.public_configs dc

-- A list of updates, each for one network with the lines that were read.
abbrev pub run_updates :
    (Bytes → Option (Bytes × Bytes))
    → (Bytes → Option ℕ)
    → List (Bool × (Bytes × List Bytes))
    → Telegram
    → Telegram
run_updates match_line atoi [] t = t
run_updates match_line atoi ((is_tcp4, (network, ls)) ∷ us) t =
    run_updates match_line atoi us (update_public match_line atoi is_tcp4 network ls t)

-- The built-in addresses alone, in the order of the preference.
abbrev pub built_in : AddrSet → (List Addr → List Addr) → PreferIp → ℕ → List Addr
built_in defaults shuffle only_ipv4 dc = shuffle (addrs_at dc defaults.v4)
built_in defaults shuffle only_ipv6 dc = shuffle (addrs_at dc defaults.v6)
built_in defaults shuffle prefer_ipv4 dc =
    shuffle (addrs_at dc defaults.v4) ++ shuffle (addrs_at dc defaults.v6)
built_in defaults shuffle prefer_ipv6 dc =
    shuffle (addrs_at dc defaults.v6) ++ shuffle (addrs_at dc defaults.v4)

-- The updater has stored nothing for the DC.
abbrev IsAbsent : ℕ → Telegram → Type 0
IsAbsent dc t = (addrs_at dc t.public_configs.v4 ≡ []) × (addrs_at dc t.public_configs.v6 ≡ [])

module _ (match_line : Bytes → Option (Bytes × Bytes)) (atoi : Bytes → Option ℕ) (dc : ℕ)
    (other : dc ≢ cdn_dc) where
  add_addr-absent :
      (network address : Bytes) (o : Option ℕ) (m : Map ℕ (List Addr))
      → addrs_at dc m ≡ []
      → addrs_at dc (add_addr match_line atoi network address o m) ≡ []
  unfolding add_addr
  add_addr-absent network address none m e = e
  add_addr-absent network address (some n) m e =
      if_cases (λ (x : Map ℕ (List Addr)). addrs_at dc x ≡ []) (n == cdn_dc) _ _
        (λ f.
          let apart : (n == dc) ≡ false = elim (Bool-cases (n == dc)) [
            | inr g ↦ g
            | inl g ↦
                (let y : ⊥ = other (sym ((==_iff n dc).0 g) ∙ (==_iff n cdn_dc).0 f) in elim y [ ])
          ] in
          ap or_no_addresses (lookup-insert n dc _ m) ∙ rw apart e)
        (λ _. e)

  scan_line-absent :
      (network : Bytes) (o : Option (Bytes × Bytes)) (m : Map ℕ (List Addr))
      → addrs_at dc m ≡ []
      → addrs_at dc (scan_line match_line atoi network o m) ≡ []
  unfolding scan_line
  scan_line-absent network none m e = e
  scan_line-absent network (some (n, address)) m e = add_addr-absent network address (atoi n) m e

  scan-absent :
      (network : Bytes) (ls : List Bytes) (m : Map ℕ (List Addr))
      → addrs_at dc m ≡ []
      → addrs_at dc (scan match_line atoi network ls m) ≡ []
  unfolding scan
  scan-absent network [] m e = e
  scan-absent network (l ∷ ls) m e =
      scan-absent network ls _ (scan_line-absent network (match_line l) m e)

  update_public-IsAbsent :
      (is_tcp4 : Bool) (network : Bytes) (ls : List Bytes) (t : Telegram)
      → IsAbsent dc t
      → IsAbsent dc (update_public match_line atoi is_tcp4 network ls t)
  unfolding update_public lookup
  update_public-IsAbsent true network ls t (a, b) = (scan-absent network ls [] refl, b)
  update_public-IsAbsent false network ls t (a, b) = (a, scan-absent network ls [] refl)

  run_updates-IsAbsent :
      (us : List (Bool × (Bytes × List Bytes))) (t : Telegram)
      → IsAbsent dc t
      → IsAbsent dc (run_updates match_line atoi us t)
  run_updates-IsAbsent [] t a = a
  run_updates-IsAbsent ((is_tcp4, (network, ls)) ∷ us) t a =
      run_updates-IsAbsent us _ (update_public-IsAbsent is_tcp4 network ls t a)

prefers_once :
    (match_line : Bytes → Option (Bytes × Bytes)) (atoi : Bytes → Option ℕ) (is_tcp4 : Bool)
    (network : Bytes) (ls : List Bytes) (t : Telegram)
    → (update_public match_line atoi is_tcp4 network ls t).prefer_ip ≡ t.prefer_ip
unfolding update_public
prefers_once match_line atoi true network ls t = refl
prefers_once match_line atoi false network ls t = refl

prefers :
    (match_line : Bytes → Option (Bytes × Bytes)) (atoi : Bytes → Option ℕ)
    (us : List (Bool × (Bytes × List Bytes))) (t : Telegram)
    → (run_updates match_line atoi us t).prefer_ip ≡ t.prefer_ip
prefers match_line atoi [] t = refl
prefers match_line atoi ((is_tcp4, (network, ls)) ∷ us) t =
    prefers match_line atoi us (update_public match_line atoi is_tcp4 network ls t)
    ∙ prefers_once match_line atoi is_tcp4 network ls t

without : (xs ys : List Addr) → ys ≡ [] → xs ++ ys ≡ xs
without xs ys e = rw e (append-nil xs)

addresses_for-built_in :
    (defaults : AddrSet) (shuffle : List Addr → List Addr) (p : PreferIp) (set : AddrSet) (dc : ℕ)
    → shuffle [] ≡ []
    → addrs_at dc set.v4 ≡ []
    → addrs_at dc set.v6 ≡ []
    → addresses_for defaults shuffle p set dc ≡ built_in defaults shuffle p dc
unfolding addresses_for get_v4 get_v6
addresses_for-built_in defaults shuffle only_ipv4 set dc empty a b =
    without (shuffle (addrs_at dc defaults.v4)) _ (ap shuffle a ∙ empty)
addresses_for-built_in defaults shuffle only_ipv6 set dc empty a b =
    without (shuffle (addrs_at dc defaults.v6)) _ (ap shuffle b ∙ empty)
addresses_for-built_in defaults shuffle prefer_ipv4 set dc empty a b =
    ap₂ (λ (x y : List Addr). x ++ y)
      (without (shuffle (addrs_at dc defaults.v4)) _ (ap shuffle a ∙ empty))
      (without (shuffle (addrs_at dc defaults.v6)) _ (ap shuffle b ∙ empty))
addresses_for-built_in defaults shuffle prefer_ipv6 set dc empty a b =
    ap₂ (λ (x y : List Addr). x ++ y)
      (without (shuffle (addrs_at dc defaults.v6)) _ (ap shuffle b ∙ empty))
      (without (shuffle (addrs_at dc defaults.v4)) _ (ap shuffle a ∙ empty))

-- Whatever lines the updater reads of the public configuration, and however often, the addresses
-- of a DC other than 203 are the built-in ones, in the order of the preference, for a shuffle that
-- leaves the empty list empty.
pub get_addresses-run_updates :
    (defaults : AddrSet) (shuffle : List Addr → List Addr)
    (match_line : Bytes → Option (Bytes × Bytes)) (atoi : Bytes → Option ℕ)
    (us : List (Bool × (Bytes × List Bytes))) (p : PreferIp) (dc : ℕ)
    → shuffle [] ≡ []
    → dc ≢ cdn_dc
    → get_addresses defaults shuffle
        (run_updates match_line atoi us
          record { prefer_ip = p; public_configs = record { v4 = []; v6 = [] } })
        dc
      ≡ built_in defaults shuffle p dc
unfolding get_addresses lookup
get_addresses-run_updates defaults shuffle match_line atoi us p dc empty other =
    let start : Telegram = record { prefer_ip = p; public_configs = record { v4 = []; v6 = [] } } in
    let t = run_updates match_line atoi us start in
    let (a, b) = run_updates-IsAbsent match_line atoi dc other us start (refl, refl) in
    addresses_for-built_in defaults shuffle t.prefer_ip t.public_configs dc empty a b
    ∙ ap (λ (x : PreferIp). built_in defaults shuffle x dc) (prefers match_line atoi us start)
