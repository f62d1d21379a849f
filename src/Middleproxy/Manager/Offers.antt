-- ===== src/Middleproxy/Manager/Offers.antt =====
-- mtglib/internal/middleproxy/manager.go: the addresses that orderedAddresses offers.
use mtg_multi.Prelude.{
  ◌≡◌, refl, ◌⊎◌, inl, inr, false, List, [], ◌∷◌, if_cases, bytes_eq, All, All-append,
}
use mtg_multi.Prelude.Bytes.{Bytes, text}
use mtg_multi.Prelude.Ints.{ℤ, neg}
use mtg_multi.Prelude.Strings.{str_contains}
use mtg_multi.Middleproxy.Manager.Config.{Table, addrs_of}
use mtg_multi.Middleproxy.Manager.{
  Manager, Network, tcp4, tcp6, MiddleAddress, addresses_on, family, ordered_addresses,
}

abbrev pub IsIn : Bytes → List Bytes → Type 0
IsIn b [] = ⊥
IsIn b (x ∷ xs) = (x ≡ b) ⊎ IsIn b xs

-- The address is listed for the DC, with either sign, and the preference allows its family.
abbrev pub IsListed : Table → ℤ → Bytes → Type 0
IsListed table dc b = IsIn b (addrs_of table dc) ⊎ IsIn b (addrs_of table (neg dc))

abbrev pub IsOfferedOn : Manager → ℤ → Network → Bytes → Type 0
IsOfferedOn m dc tcp4 b =
    (bytes_eq m.prefer_ip (text "only-ipv6") ≡ false) × IsListed m.middle_v4 dc b
IsOfferedOn m dc tcp6 b =
    (bytes_eq m.prefer_ip (text "only-ipv4") ≡ false) × IsListed m.middle_v6 dc b

abbrev pub IsOffered : Manager → ℤ → MiddleAddress → Type 0
IsOffered m dc a = IsOfferedOn m dc a.network a.addr

addresses_on-All :
    (network : Network) (P : Network → Bytes → Type 0) (xs : List Bytes)
    → ((b : Bytes) → IsIn b xs → P network b)
    → All (λ (a : MiddleAddress). P a.network a.addr) (addresses_on network xs)
addresses_on-All network P [] h = tt
addresses_on-All network P (x ∷ xs) h =
    (h x (inl refl), addresses_on-All network P xs (λ b i. h b (inr i)))

family-All :
    (table : Table) (network : Network) (dc : ℤ) (P : Network → Bytes → Type 0)
    → ((b : Bytes) → IsListed table dc b → P network b)
    → All (λ (a : MiddleAddress). P a.network a.addr) (family table network dc)
unfolding family
family-All table network dc P h =
    All-append _ (addresses_on network (addrs_of table dc)) _
      (addresses_on-All network P (addrs_of table dc) (λ b i. h b (inl i)))
      (addresses_on-All network P (addrs_of table (neg dc)) (λ b i. h b (inr i)))

pub ordered_addresses-IsOffered :
    (m : Manager) (dc : ℤ) → All (IsOffered m dc) (ordered_addresses m dc)
unfolding ordered_addresses
ordered_addresses-IsOffered m dc =
    let v4 =
      if_cases (All (IsOffered m dc)) (bytes_eq m.prefer_ip (text "only-ipv6")) []
        (family m.middle_v4 tcp4 dc) (λ _. tt)
        (λ e. family-All m.middle_v4 tcp4 dc (IsOfferedOn m dc) (λ b i. (e, i))) in
    let v6 =
      if_cases (All (IsOffered m dc)) (bytes_eq m.prefer_ip (text "only-ipv4")) []
        (family m.middle_v6 tcp6 dc) (λ _. tt)
        (λ e. family-All m.middle_v6 tcp6 dc (IsOfferedOn m dc) (λ b i. (e, i))) in
    if_cases (All (IsOffered m dc)) (str_contains m.prefer_ip (text "ipv6")) _ _
      (λ _. All-append _ _ _ v6 v4) (λ _. All-append _ _ _ v4 v6)
