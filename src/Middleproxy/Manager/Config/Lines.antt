-- ===== src/Middleproxy/Manager/Config/Lines.antt =====
-- mtglib/internal/middleproxy/manager.go: a configuration in the published form is read back.
use mtg_multi.Prelude.{
  ◌≡◌, refl, sym, ap, ap₂, ◌∙◌, inl, inr, true, false, not, ◌||◌, none, some, List, [], ◌∷◌, ◌++◌,
  map, length, leb, ◌==◌, if◌then◌else◌, All, All-append, arith, append_assoc, append-nil,
  Bool-cases,
}
use mtg_multi.Prelude.Bytes.{Bytes, text}
use mtg_multi.Prelude.Map.{lookup-insert}
use mtg_multi.Prelude.Ints.{ℤ, int_eq, int_beq, int_beq_iff}
use mtg_multi.Prelude.Strings.{
  is_space, has_prefix, trim_left, trim_right, trim_space, with_field, fields_from, fields,
  lines_from, is_too_long, drop_returns, scan_lines, parse_int, split_host_port,
}
use mtg_multi.Middleproxy.Manager.Config.{
  Table, or_empty, addrs_of, append_addr, is_semicolon, add_checked, add_entry, add_fields,
  add_line, add_lines, parse_middle_config,
}
use mtg_multi.Prelude.Strings.Words.{
  IsWord, fields_from-word, fields_from-space, lines_from-newline, trim_right-kept, trim_right-cut,
  drop_return-kept,
}

-- A line of the published form, by its number and its address.
pub record Entry : Type 0 where
  pub word : Bytes
  pub dc : ℤ
  pub addr : Bytes

abbrev pub entry_line : Entry → Bytes
entry_line e = (text "proxy_for " ++ (e.word ++ (32 ∷ e.addr))) ++ (b';' ∷ [])

-- The number is one that Atoi reads as the DC, the address one that can be split and does not end
-- with a semicolon, and the line fits the scanner's buffer.
pub record IsEntry (e : Entry) : Type 0 where
  pub word : IsWord e.word
  pub some_word : leb 1 (length e.word) ≡ true
  pub number : parse_int e.word ≡ some e.dc
  pub addr : IsWord e.addr
  pub some_addr : leb 1 (length e.addr) ≡ true
  pub whole : trim_right is_semicolon e.addr ≡ e.addr
  pub host_port : (hp : Bytes × Bytes) × (split_host_port e.addr ≡ some hp)
  pub fits : leb 65536 (length (entry_line e)) ≡ false

pub config_text : List Entry → Bytes
config_text [] = []
config_text (e ∷ entries) = entry_line e ++ (10 ∷ config_text entries)

-- The addresses for a DC, in the order of the lines.
pub addrs_for : ℤ → List Entry → List Bytes
addrs_for dc [] = []
addrs_for dc (e ∷ entries) =
    if int_beq e.dc dc then e.addr ∷ addrs_for dc entries else addrs_for dc entries

with_some_field :
    (f : Bytes) (rest : List Bytes) → leb 1 (length f) ≡ true → with_field f rest ≡ f ∷ rest
with_some_field [] rest h = cc
with_some_field (c ∷ f) rest h = refl

semicolon-IsWord : (w : Bytes) → IsWord w → IsWord (w ++ (b';' ∷ []))
semicolon-IsWord [] h = (refl, tt)
semicolon-IsWord (c ∷ w) (hc, h) = (hc, semicolon-IsWord w h)

some_semicolon : (w : Bytes) → leb 1 (length (w ++ (b';' ∷ []))) ≡ true
some_semicolon [] = refl
some_semicolon (c ∷ w) = ground arith

module _ (e : Entry) (ok_entry : IsEntry e) where
  trimmed : trim_space (entry_line e) ≡ entry_line e
  unfolding trim_space trim_left
  trimmed = trim_right-kept is_space (text "proxy_for " ++ (e.word ++ (32 ∷ e.addr))) b';' refl

  fielded : fields (entry_line e) ≡ text "proxy_for" ∷ e.word ∷ (e.addr ++ (b';' ∷ [])) ∷ []
  unfolding fields
  fielded =
      ap (λ rest. text "proxy_for" ∷ rest)
        (ap (fields_from []) (append_assoc e.word (32 ∷ e.addr) (b';' ∷ []))
          ∙ fields_from-space [] e.word (e.addr ++ (b';' ∷ [])) ok_entry.word
          ∙ ap (with_field e.word) (
              fields_from-word [] (e.addr ++ (b';' ∷ [])) (semicolon-IsWord e.addr ok_entry.addr)
              ∙ with_some_field _ [] (some_semicolon e.addr))
          ∙ with_some_field e.word _ ok_entry.some_word)

  added : (table : Table) → add_line table (entry_line e) ≡ append_addr table e.dc e.addr
  unfolding add_line has_prefix
  added table =
      ap
        (λ content.
          if not (has_prefix content (text "proxy_for"))
          then table
          else add_fields table (fields content))
        trimmed
      ∙ ap (add_fields table) fielded
      ∙ ap (λ r. add_entry table r (e.addr ++ (b';' ∷ []))) ok_entry.number
      ∙ ap (λ a. add_checked table e.dc a (split_host_port a))
          (trim_right-cut is_semicolon e.addr b';' refl ∙ ok_entry.whole)
      ∙ ap (add_checked table e.dc e.addr) ok_entry.host_port.1

no_newline : (w : Bytes) → IsWord w → All (λ c. (c == 10) ≡ false) w
no_newline [] h = tt
no_newline (c ∷ w) (hc, h) = (ground arith, no_newline w h)

entry_line-no_newline : (e : Entry) → IsEntry e → All (λ c. (c == 10) ≡ false) (entry_line e)
entry_line-no_newline e h =
    let rest : All (λ c. (c == 10) ≡ false) ((e.word ++ (32 ∷ e.addr)) ++ (b';' ∷ [])) =
      All-append _ (e.word ++ (32 ∷ e.addr)) _
        (All-append _ e.word _ (no_newline e.word h.word) (refl, no_newline e.addr h.addr))
        (refl, tt) in
    (refl, (refl, (refl, (refl, (refl, (refl, (refl, (refl, (refl, (refl, rest))))))))))

lines-config_text :
    (entries : List Entry)
    → All IsEntry entries
    → lines_from [] (config_text entries) ≡ map entry_line entries
unfolding config_text
lines-config_text [] h = unfold lines_from in refl
lines-config_text (e ∷ entries) (he, h) =
    lines_from-newline [] (entry_line e) (config_text entries) (entry_line-no_newline e he)
    ∙ ap (λ rest. entry_line e ∷ rest) (lines-config_text entries h)

lines_fit :
    (entries : List Entry) → All IsEntry entries → is_too_long (map entry_line entries) ≡ false
unfolding is_too_long
lines_fit [] h = refl
lines_fit (e ∷ entries) (he, h) = ap₂ ◌||◌ he.fits (lines_fit entries h)

lines_kept : (entries : List Entry) → drop_returns (map entry_line entries) ≡ map entry_line entries
unfolding drop_returns
lines_kept [] = refl
lines_kept (e ∷ entries) =
    ap₂ ◌∷◌ (drop_return-kept (text "proxy_for " ++ (e.word ++ (32 ∷ e.addr))) b';' refl)
      (lines_kept entries)

scan_lines-config_text :
    (entries : List Entry)
    → All IsEntry entries
    → scan_lines (config_text entries) ≡ some (map entry_line entries)
unfolding scan_lines
scan_lines-config_text entries h =
    ap (λ lines. if is_too_long lines then none else some (drop_returns lines))
      (lines-config_text entries h)
    ∙ ap (λ long. if long then none else some (drop_returns (map entry_line entries)))
        (lines_fit entries h)
    ∙ ap some (lines_kept entries)

addrs_of-append_addr :
    (table : Table) (dc : ℤ) (addr : Bytes) (dc' : ℤ)
    → addrs_of (append_addr table dc addr) dc'
      ≡ (if int_beq dc dc' then addrs_of table dc' ++ (addr ∷ []) else addrs_of table dc')
unfolding append_addr addrs_of
addrs_of-append_addr table dc addr dc' =
    ap or_empty (lookup-insert dc dc' (addrs_of table dc ++ (addr ∷ [])) table)
    ∙ elim (Bool-cases (int_beq dc dc')) [
      | inl same ↦ rw same (ap (λ k. addrs_of table k ++ (addr ∷ [])) ((int_beq_iff dc dc').0 same))
      | inr other ↦ rw other
    ]

addrs_of-add_lines :
    (table : Table) (entries : List Entry) (dc : ℤ)
    → All IsEntry entries
    → addrs_of (add_lines table (map entry_line entries)) dc
      ≡ addrs_of table dc ++ addrs_for dc entries
unfolding add_lines addrs_for
addrs_of-add_lines table [] dc h = sym (append-nil _)
addrs_of-add_lines table (e ∷ entries) dc (he, h) =
    ap (λ t. addrs_of (add_lines t (map entry_line entries)) dc) (added e he table)
    ∙ addrs_of-add_lines (append_addr table e.dc e.addr) entries dc h
    ∙ ap (λ found. found ++ addrs_for dc entries) (addrs_of-append_addr table e.dc e.addr dc)
    ∙ elim (Bool-cases (int_beq e.dc dc)) [
      | inl same ↦ rw same (append_assoc (addrs_of table dc) (e.addr ∷ []) _)
      | inr other ↦ rw other
    ]

-- A configuration of lines proxy_for, a number that Atoi reads, and an address that can be split
-- and does not end with a semicolon, each line within the scanner's buffer, is parsed, and the
-- table gives each DC the addresses of its lines in their order.
pub parse_middle_config-config_text :
    (entries : List Entry)
    → All IsEntry entries
    → (table : Table) × (parse_middle_config (config_text entries) ≡ some table)
      × ((dc : ℤ) → addrs_of table dc ≡ addrs_for dc entries)
unfolding parse_middle_config addrs_of
parse_middle_config-config_text entries h = (
  add_lines [] (map entry_line entries),
  ap (λ o. elim o [ none ↦ none | some lines ↦ some (add_lines [] lines) ])
      (scan_lines-config_text entries h),
  (λ dc. addrs_of-add_lines [] entries dc h),
)
