-- ===== src/Stats/Counters.antt =====
-- What the operations of ProxyStats do to the entry of one user and to the others, and that a
-- connection's bytes are counted once each.
pub mod Connections
use mtg_multi.Prelude.{
  ℕ, ◌+◌, ◌<◌, ◌≡◌, refl, sym, ap, ◌∙◌, inl, inr, false, Option, none, some, List, [], ◌∷◌,
  Bool-cases, if◌then◌else◌, bytes_key, bytes_eq, bytes_eq_iff, ltb, arith,
}
use mtg_multi.Prelude.Bytes.{Bytes}
use mtg_multi.Prelude.Map.{lookup, lookup-insert, beq_refl}
use mtg_multi.Stats.{
  SecretStats, ProxyStats, fresh, entry, or_fresh, found_or_created, get_or_create, update,
  reset_quota, on_connect, on_disconnect, count_read, count_write, add_i64, i64_mod,
}

found_or_created_entry :
    (s : ProxyStats) (name : Bytes) (o : Option SecretStats)
    → (found_or_created s name o).1 ≡ or_fresh o
unfolding found_or_created or_fresh
found_or_created_entry s name none = refl
found_or_created_entry s name (some st) = refl

pub lookup-found_or_created :
    (s : ProxyStats) (name j : Bytes) (o : Option SecretStats)
    → lookup name s.users ≡ o
    → lookup j (found_or_created s name o).0.users
      ≡ (if bytes_eq name j then some (or_fresh o) else lookup j s.users)
unfolding found_or_created or_fresh
lookup-found_or_created s name j none e = lookup-insert name j fresh s.users
lookup-found_or_created s name j (some st) e = elim (Bool-cases (bytes_eq name j)) [
  | inl same ↦
      rw same (ap (λ (k : Bytes). lookup k s.users) (sym ((bytes_eq_iff name j).0 same)) ∙ e)
  | inr other ↦ rw other
]

pub lookup-update :
    (s : ProxyStats) (name j : Bytes) (f : SecretStats → SecretStats)
    → lookup j (update s name f).users
      ≡ (if bytes_eq name j then some (f (entry s name)) else lookup j s.users)
unfolding update get_or_create
lookup-update s name j f =
    lookup-insert name j (f (get_or_create s name).1) (get_or_create s name).0.users
    ∙ elim (Bool-cases (bytes_eq name j)) [
      | inl same ↦ rw same (
          ap (λ (x : SecretStats). some (f x))
            (found_or_created_entry s name (lookup name s.users)))
      | inr other ↦
          rw other (lookup-found_or_created s name j (lookup name s.users) refl ∙ rw other)
    ]

-- Of the user that is reset only the quota and its period change.
pub lookup-reset_quota :
    (s : ProxyStats) (name : Bytes) (now : ℕ) (j : Bytes)
    → lookup j (reset_quota s name now).users ≡ (
        if bytes_eq name j
        then some record (entry s name) { quota_used = 0; period_start = now }
        else lookup j s.users)
unfolding reset_quota
lookup-reset_quota s name now j = lookup-update s name j _

-- An operation on one user changes that user's entry by its function and no other user's.
pub entry-update :
    (s : ProxyStats) (name j : Bytes) (f : SecretStats → SecretStats)
    → entry (update s name f) j ≡ (if bytes_eq name j then f (entry s name) else entry s j)
entry-update s name j f = elim (Bool-cases (bytes_eq name j)) [
  | inl same ↦
      let p : lookup j (update s name f).users ≡ some (f (entry s name)) =
        lookup-update s name j f ∙ rw same in
      rw (p, same) (unfold or_fresh in refl)
  | inr other ↦
      let p : lookup j (update s name f).users ≡ lookup j s.users =
        lookup-update s name j f ∙ rw other in
      rw (p, other)
]

pub entry-update_self :
    (s : ProxyStats) (name : Bytes) (f : SecretStats → SecretStats)
    → entry (update s name f) name ≡ f (entry s name)
entry-update_self s name f = entry-update s name name f ∙ rw (beq_refl name)

-- A stream that connects and disconnects leaves every user's entry as it was, for a connection
-- count below 2^64.
pub on_disconnect-on_connect :
    (s : ProxyStats) (name j : Bytes)
    → (entry s name).connections < i64_mod
    → entry (on_disconnect (on_connect s name) name) j ≡ entry s j
unfolding on_disconnect on_connect
on_disconnect-on_connect s name j h = elim (Bool-cases (bytes_eq name j)) [
  | inr other ↦
      entry-update (on_connect s name) name j _ ∙ rw other (entry-update s name j _ ∙ rw other)
  | inl same ↦
      entry-update (on_connect s name) name j _
      ∙ rw
          (
            same,
            entry-update_self s name (λ st. record st { connections = add_i64 st.connections 1 }),
            ← (bytes_eq_iff name j).0 same,
          )
          (ground arith)
]

-- What one connection of a user moves.
pub data Move : Type 0 where
  reads writes : ℕ → Move

pub count_move : ProxyStats → Bytes → Move → ProxyStats
count_move s name (reads n) = count_read s name n
count_move s name (writes n) = count_write s name n

pub count_moves : ProxyStats → Bytes → List Move → ProxyStats
count_moves s name [] = s
count_moves s name (m ∷ ms) = count_moves (count_move s name m) name ms

unfoldable pub read_total : List Move → ℕ
read_total [] = 0
read_total (reads n ∷ ms) = n + read_total ms
read_total (writes n ∷ ms) = read_total ms

unfoldable pub write_total : List Move → ℕ
write_total [] = 0
write_total (reads n ∷ ms) = write_total ms
write_total (writes n ∷ ms) = n + write_total ms

-- The counters after `r` bytes read and `w` bytes written.
abbrev pub counted : SecretStats → ℕ → ℕ → SecretStats
counted st r w = record st {
  bytes_in = add_i64 st.bytes_in r;
  bytes_out = add_i64 st.bytes_out w;
  quota_used = add_i64 st.quota_used (r + w);
}

abbrev pub IsI64 : SecretStats → Type 0
IsI64 st = (st.bytes_in < i64_mod) × (st.bytes_out < i64_mod) × (st.quota_used < i64_mod)

abbrev pub move_read : Move → ℕ
move_read (reads n) = n
move_read (writes n) = 0

abbrev pub move_write : Move → ℕ
move_write (reads n) = 0
move_write (writes n) = n

-- A function that fixes an entry: reading the map at a key, whether it is that key or not.
entry_fixed :
    (s : ProxyStats) (name j : Bytes) {st : SecretStats}
    → st ≡ entry s name
    → entry s j ≡ (if bytes_eq name j then st else entry s j)
entry_fixed s name j e = elim (Bool-cases (bytes_eq name j)) [
  | inl same ↦ rw same (ap (λ (k : Bytes). entry s k) (sym ((bytes_eq_iff name j).0 same)) ∙ sym e)
  | inr other ↦ rw other
]

counted_nothing : (st : SecretStats) → IsI64 st → counted st 0 0 ≡ st
counted_nothing st v = ground arith

none_moved : (n : ℕ) → ltb 0 n ≡ false → n ≡ 0
none_moved n h = ground arith

-- Moving `n` bytes counts them once in their direction and once against the quota.
entry-count_move :
    (s : ProxyStats) (name j : Bytes) (m : Move)
    → IsI64 (entry s name)
    → entry (count_move s name m) j
      ≡ (if bytes_eq name j then counted (entry s name) (move_read m) (move_write m) else entry s j)
unfolding count_move count_read count_write
entry-count_move s name j (reads n) v = elim (Bool-cases (ltb 0 n)) [
  | inl e ↦ rw e (entry-update s name j _ ∙ ground arith)
  | inr e ↦ rw (none_moved n e) (entry_fixed s name j (counted_nothing (entry s name) v))
]
entry-count_move s name j (writes n) v = elim (Bool-cases (ltb 0 n)) [
  | inl e ↦ rw e (entry-update s name j _ ∙ ground arith)
  | inr e ↦ rw (none_moved n e) (entry_fixed s name j (counted_nothing (entry s name) v))
]

counted-counted :
    (st : SecretStats) (r w r' w' : ℕ)
    → counted (counted st r w) r' w' ≡ counted st (r + r') (w + w')
counted-counted st r w r' w' = ground arith

counted-IsI64 : (st : SecretStats) (r w : ℕ) → IsI64 (counted st r w)
counted-IsI64 st r w = omega arith

totals_step :
    (m : Move) (ms : List Move)
    → (read_total (m ∷ ms) ≡ move_read m + read_total ms)
      × (write_total (m ∷ ms) ≡ move_write m + write_total ms)
unfolding read_total write_total
totals_step (reads n) ms = omega arith
totals_step (writes n) ms = omega arith

-- Over a whole connection the byte counters of its user grow by what was read and written, the
-- quota by both (modulo 2^64), and no other user's entry changes; the counters of the user are
-- below 2^64 before.
pub entry-count_moves :
    (ms : List Move) (s : ProxyStats) (name j : Bytes)
    → IsI64 (entry s name)
    → entry (count_moves s name ms) j ≡ (
        if bytes_eq name j
        then counted (entry s name) (read_total ms) (write_total ms)
        else entry s j)
unfolding count_moves read_total write_total
entry-count_moves [] s name j v = entry_fixed s name j (counted_nothing (entry s name) v)
entry-count_moves (m ∷ ms) s name j v =
    let own : entry (count_move s name m) name
        ≡ counted (entry s name) (move_read m) (move_write m) =
      entry-count_move s name name m v ∙ rw (beq_refl name) in
    let ih =
      entry-count_moves ms (count_move s name m) name j
        (rw own (counted-IsI64 (entry s name) (move_read m) (move_write m))) in
    elim (Bool-cases (bytes_eq name j)) [
      | inl same ↦
          ih
          ∙ rw (same, (totals_step m ms).0, (totals_step m ms).1, own)
              (counted-counted (entry s name) (move_read m) (move_write m) (read_total ms)
                (write_total ms))
      | inr other ↦ ih ∙ rw other (entry-count_move s name j m v ∙ rw other)
    ]
