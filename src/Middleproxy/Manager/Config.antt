-- ===== src/Middleproxy/Manager/Config.antt =====
-- mtglib/internal/middleproxy/manager.go: the configuration that Telegram publishes, a line
-- `proxy_for <dc> <ip:port>;` for each address.
pub mod Lines
use mtg_multi.Prelude.{
  ℕ, Bool, true, false, not, Option, none, some, List, [], ◌∷◌, ◌++◌, ◌==◌, if◌then◌else◌,
}
use mtg_multi.Prelude.Bytes.{Bytes, text}
use mtg_multi.Prelude.Map.{Map, lookup, insert}
use mtg_multi.Prelude.Ints.{ℤ, int_eq}
use mtg_multi.Prelude.Strings.{
  has_prefix, trim_space, trim_right, fields, scan_lines, parse_int, split_host_port,
}

-- map[int][]string
abbrev pub Table : Type 0
Table = Map ℤ (List Bytes)

-- `table[dc]`, nil where it is missing.
abbrev pub or_empty : Option (List Bytes) → List Bytes
or_empty none = []
or_empty (some addrs) = addrs

unfoldable pub addrs_of : Table → ℤ → List Bytes
unfolding lookup
addrs_of table dc = or_empty (lookup dc table)

-- `out[dc] = append(out[dc], addr)`
unfoldable pub append_addr : Table → ℤ → Bytes → Table
append_addr table dc addr = insert dc (addrs_of table dc ++ (addr ∷ [])) table

abbrev pub is_semicolon : ℕ → Bool
is_semicolon c = c == b';'

pub add_checked : Table → ℤ → Bytes → Option (Bytes × Bytes) → Table
add_checked table dc addr none = table
add_checked table dc addr (some _) = append_addr table dc addr

pub add_entry : Table → Option ℤ → Bytes → Table
unfolding add_checked
add_entry table none field = table
add_entry table (some dc) field =
    let addr = trim_right is_semicolon field in add_checked table dc addr (split_host_port addr)

pub add_fields : Table → List Bytes → Table
unfolding add_entry
add_fields table (_ ∷ dc ∷ addr ∷ _) = add_entry table (parse_int dc) addr
add_fields table _ = table

-- The body of the loop.
pub add_line : Table → Bytes → Table
unfolding add_fields
add_line table line =
    let content = trim_space line in
    if not (has_prefix content (text "proxy_for")) then table else add_fields table (fields content)

pub add_lines : Table → List Bytes → Table
unfolding add_line
add_lines table [] = table
add_lines table (line ∷ rest) = add_lines (add_line table line) rest

-- parseMiddleConfig; `none` is bufio.ErrTooLong.
unfoldable pub parse_middle_config : Bytes → Option Table
unfolding add_lines
parse_middle_config b = elim (scan_lines b) [ none ↦ none | some lines ↦ some (add_lines [] lines) ]
