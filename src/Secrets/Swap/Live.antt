-- ===== src/Secrets/Swap/Live.antt =====
-- mtglib/proxy.go: registerConn and unregisterConn on the live connections of a name.
use mtg_multi.Prelude.{
  ℕ, ◌≡◌, refl, sym, ap, ◌∙◌, Bool, false, ◌||◌, List, [], ◌∷◌, ◌==◌, ==_iff, if◌then◌else◌,
  Bool-cases, Option-cases, bytes_eq, bytes_eq_iff, bytes_key, inl, inr, arith,
}
use mtg_multi.Prelude.Bytes.{Bytes}
use mtg_multi.Prelude.Map.{lookup, lookup-insert, lookup-erase}
use mtg_multi.Secrets.Swap.{
  Proxy, conns_or_empty, add_conn, remove_conn, register_conn, store_conns, unregister,
  unregister_conn,
}

abbrev pub live : Proxy → Bytes → List ℕ
live p j = conns_or_empty (lookup j p.live_conns)

pub live-register_conn :
    (p : Proxy) (name j : Bytes) (c : ℕ)
    → live (register_conn name c p) j
      ≡ (if bytes_eq name j then add_conn c (live p name) else live p j)
unfolding register_conn conns_or_empty
live-register_conn p name j c =
    ap conns_or_empty (lookup-insert name j (add_conn c (live p name)) p.live_conns)
    ∙ elim (Bool-cases (bytes_eq name j)) [ inl e ↦ rw e refl | inr e ↦ rw e refl ]

lookup-store_conns :
    (p : Proxy) (name j : Bytes) (cs : List ℕ)
    → conns_or_empty (lookup j (store_conns name cs p.live_conns))
      ≡ (if bytes_eq name j then cs else live p j)
unfolding store_conns conns_or_empty
lookup-store_conns p name j [] =
    ap conns_or_empty (lookup-erase name j p.live_conns)
    ∙ elim (Bool-cases (bytes_eq name j)) [ inl e ↦ rw e refl | inr e ↦ rw e refl ]
lookup-store_conns p name j (c ∷ cs) =
    ap conns_or_empty (lookup-insert name j (c ∷ cs) p.live_conns)
    ∙ elim (Bool-cases (bytes_eq name j)) [ inl e ↦ rw e refl | inr e ↦ rw e refl ]

pub live-unregister_conn :
    (p : Proxy) (name j : Bytes) (c : ℕ)
    → live (unregister_conn name c p) j
      ≡ (if bytes_eq name j then remove_conn c (live p name) else live p j)
unfolding unregister_conn unregister conns_or_empty remove_conn
live-unregister_conn p name j c = elim (Option-cases (lookup name p.live_conns)) [
  | inr (cs, e) ↦ rw (e, unregister) (lookup-store_conns p name j (remove_conn c cs))
  | inl e ↦
      rw (e, unregister)
        (elim (Bool-cases (bytes_eq name j)) [
          | inl f ↦ rw f (ap (live p) (sym ((bytes_eq_iff name j).0 f)) ∙ rw e refl)
          | inr f ↦ rw f refl
        ])
]

pub stats-unregister_conn :
    (p : Proxy) (name : Bytes) (c : ℕ) → (unregister_conn name c p).stats ≡ p.stats
unfolding unregister_conn unregister
stats-unregister_conn p name c = elim (Option-cases (lookup name p.live_conns)) [
  | inr (cs, e) ↦ rw (e, unregister) refl
  | inl e ↦ rw (e, unregister) refl
]

pub stats-register_conn :
    (p : Proxy) (name : Bytes) (c : ℕ) → (register_conn name c p).stats ≡ p.stats
unfolding register_conn
stats-register_conn p name c = refl

abbrev pub holds : ℕ → List ℕ → Bool
holds c [] = false
holds c (d ∷ ds) = (d == c) || holds c ds

remove_conn-absent : (c : ℕ) (ds : List ℕ) → holds c ds ≡ false → remove_conn c ds ≡ ds
unfolding remove_conn
remove_conn-absent c [] e = refl
remove_conn-absent c (d ∷ ds) e =
    let f : (d == c) ≡ false = ground (arith, e) in
    rw (f, remove_conn-absent c ds (ground (arith, e))) refl

pub remove_conn-add_conn :
    (c : ℕ) (ds : List ℕ) → holds c ds ≡ false → remove_conn c (add_conn c ds) ≡ ds
unfolding remove_conn add_conn
remove_conn-add_conn c [] e = rw ((==_iff c c).1 refl) refl
remove_conn-add_conn c (d ∷ ds) e =
    let f : (d == c) ≡ false = ground (arith, e) in
    rw (f, f, remove_conn-add_conn c ds (ground (arith, e))) refl
