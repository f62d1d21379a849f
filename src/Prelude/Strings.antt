-- ===== src/Prelude/Strings.antt =====
-- Go's strings, strconv, bufio.Scanner and net.SplitHostPort on ASCII texts, as lists of bytes.
pub mod Words
use Prim.Native.Nat.{ℕ, zero, suc, ◌+◌, ◌-◌, ◌*◌}
use mathlib.Core.Bool.{Bool, true, false, ◌&&◌, ◌||◌}
use mathlib.Core.Option.{Option, none, some}
use mathlib.Core.List.{List, [], ◌∷◌, ◌++◌}
use mtg_multi.Prelude.Tests.{ltb, leb, ◌==◌, if◌then◌else◌}
use mtg_multi.Prelude.Lists.{length}
use mtg_multi.Prelude.Ints.{ℤ, pos, negsuc, neg}
use mtg_multi.Prelude.Bytes.{Bytes, text}

-- unicode.IsSpace below 128.
abbrev pub is_space : ℕ → Bool
is_space c = (leb 9 c && leb c 13) || (c == 32)

-- strings.HasPrefix
unfoldable pub has_prefix : Bytes → Bytes → Bool
has_prefix s [] = true
has_prefix [] (p ∷ prefix) = false
has_prefix (c ∷ s) (p ∷ prefix) = (c == p) && has_prefix s prefix

-- strings.Contains
unfoldable pub str_contains : Bytes → Bytes → Bool
unfolding has_prefix
str_contains [] sub = has_prefix [] sub
str_contains (c ∷ s) sub = has_prefix (c ∷ s) sub || str_contains s sub

-- strings.IndexByte in a text is not negative.
unfoldable pub has_byte : ℕ → Bytes → Bool
has_byte b [] = false
has_byte b (c ∷ s) = (c == b) || has_byte b s

-- strings.TrimLeftFunc and strings.TrimRightFunc
unfoldable pub trim_left : (ℕ → Bool) → Bytes → Bytes
trim_left cut [] = []
trim_left cut (c ∷ s) = let rest = trim_left cut s in if cut c then rest else c ∷ s

-- What is left of `c ∷ s`, given what is left of `s`.
abbrev pub kept_right : (ℕ → Bool) → ℕ → Bytes → Bytes
kept_right cut c [] = if cut c then [] else c ∷ []
kept_right cut c (d ∷ s) = c ∷ d ∷ s

unfoldable pub trim_right : (ℕ → Bool) → Bytes → Bytes
trim_right cut [] = []
trim_right cut (c ∷ s) = kept_right cut c (trim_right cut s)

unfoldable pub trim_space : Bytes → Bytes
unfolding trim_left trim_right
trim_space s = trim_right is_space (trim_left is_space s)

-- strings.ToLower
unfoldable pub to_lower : Bytes → Bytes
to_lower [] = []
to_lower (c ∷ s) = (if leb 65 c && leb c 90 then c + 32 else c) ∷ to_lower s

-- strings.ToUpper
unfoldable pub to_upper : Bytes → Bytes
to_upper [] = []
to_upper (c ∷ s) = (if leb 97 c && leb c 122 then c - 32 else c) ∷ to_upper s

-- A field that ends, unless it is empty.
abbrev pub with_field : Bytes → List Bytes → List Bytes
with_field [] rest = rest
with_field (c ∷ s) rest = (c ∷ s) ∷ rest

-- strings.Fields, with the field that is being read.
unfoldable pub fields_from : Bytes → Bytes → List Bytes
fields_from field [] = with_field field []
fields_from field (c ∷ s) =
    let between = fields_from [] s in
    let within = fields_from (field ++ (c ∷ [])) s in
    if is_space c then with_field field between else within

unfoldable pub fields : Bytes → List Bytes
unfolding fields_from
fields s = fields_from [] s

-- The last byte is cut off where it is a carriage return.
abbrev pub is_return : ℕ → Bool
is_return c = c == 13

unfoldable pub drop_return : Bytes → Bytes
drop_return [] = []
drop_return (c ∷ []) = if is_return c then [] else c ∷ []
drop_return (c ∷ d ∷ s) = c ∷ drop_return (d ∷ s)

-- The lines that bufio.Scanner finds, with the one that is being read; a text that ends with a
-- newline has no line after it.
abbrev pub last_line : Bytes → List Bytes
last_line [] = []
last_line (c ∷ s) = (c ∷ s) ∷ []

unfoldable pub lines_from : Bytes → Bytes → List Bytes
lines_from line [] = last_line line
lines_from line (c ∷ s) =
    let ended = lines_from [] s in
    let within = lines_from (line ++ (c ∷ [])) s in if c == 10 then line ∷ ended else within

-- bufio.ErrTooLong: a line that does not fit the scanner's buffer of MaxScanTokenSize bytes.
unfoldable pub is_too_long : List Bytes → Bool
is_too_long [] = false
is_too_long (line ∷ rest) = leb 65536 (length line) || is_too_long rest

unfoldable pub drop_returns : List Bytes → List Bytes
unfolding drop_return
drop_returns [] = []
drop_returns (line ∷ rest) = drop_return line ∷ drop_returns rest

-- What `for scanner.Scan()` sees, or `none` where scanner.Err() is not nil after it.
unfoldable pub scan_lines : Bytes → Option (List Bytes)
unfolding lines_from is_too_long drop_returns
scan_lines b =
    let lines = lines_from [] b in if is_too_long lines then none else some (drop_returns lines)

-- The value of decimal digits, the first ones counted in.
abbrev pub is_digit : ℕ → Bool
is_digit c = leb 48 c && leb c 57

unfoldable pub digits_value : ℕ → Bytes → Option ℕ
digits_value n [] = some n
digits_value n (c ∷ s) =
    let more = digits_value (10 * n + (c - 48)) s in if is_digit c then more else none

-- strconv.ParseUint in base 10 for values below `bound`.
unfoldable pub parse_uint : ℕ → Bytes → Option ℕ
unfolding digits_value
parse_uint bound [] = none
parse_uint bound (c ∷ s) = elim (digits_value 0 (c ∷ s)) [
  | none ↦ none
  | some n ↦ if ltb n bound then some n else none
]

abbrev pub as_pos : Option ℕ → Option ℤ
as_pos none = none
as_pos (some n) = some (pos n)

abbrev pub as_neg : Option ℕ → Option ℤ
as_neg none = none
as_neg (some n) = some (neg (pos n))

-- strconv.ParseInt(s, 10, 64), and strconv.Atoi where int has 64 bits.
unfoldable pub parse_int : Bytes → Option ℤ
unfolding parse_uint
parse_int [] = none
parse_int (c ∷ s) =
    if c == b'-'
    then as_neg (parse_uint 9223372036854775809 s)
    else if c == b'+'
    then as_pos (parse_uint 9223372036854775808 s)
    else as_pos (parse_uint 9223372036854775808 (c ∷ s))

-- What stands before and after the first, and the last, byte of a kind.
unfoldable pub cut_first : ℕ → Bytes → Option (Bytes × Bytes)
cut_first b [] = none
cut_first b (c ∷ s) =
    let more = cut_first b s in
    if c == b then some ([], s) else elim more [ none ↦ none | some (h, t) ↦ some (c ∷ h, t) ]

abbrev pub or_here : ℕ → ℕ → Bytes → Option (Bytes × Bytes) → Option (Bytes × Bytes)
or_here b c s none = if c == b then some ([], s) else none
or_here b c s (some (h, t)) = some (c ∷ h, t)

unfoldable pub cut_last : ℕ → Bytes → Option (Bytes × Bytes)
cut_last b [] = none
cut_last b (c ∷ s) = or_here b c s (cut_last b s)

-- net.SplitHostPort of a text that begins with a bracket: the host ends at the first closing one,
-- the last colon must follow it, and no other bracket stands where one has no place.
abbrev pub after_bracket : Bytes → Bytes → Option (Bytes × Bytes)
after_bracket host [] = none
after_bracket host (c ∷ port) =
    if (c == b':')
      && (has_byte b':' port || (has_byte b'[' host || (has_byte b'[' port || has_byte b']' port)))
    then none
    else if c == b':'
    then some (host, port)
    else none

abbrev pub split_bracketed : Option (Bytes × Bytes) → Option (Bytes × Bytes)
split_bracketed none = none
split_bracketed (some (host, rest)) = after_bracket host rest

abbrev pub split_plain : Option (Bytes × Bytes) → Option (Bytes × Bytes)
split_plain none = none
split_plain (some (host, port)) =
    if has_byte b':' host
      || (has_byte b'[' host || (has_byte b']' host || (has_byte b'[' port || has_byte b']' port)))
    then none
    else some (host, port)

unfoldable pub split_host_port : Bytes → Option (Bytes × Bytes)
unfolding cut_first cut_last has_byte
split_host_port [] = none
split_host_port (c ∷ s) =
    if c == b'[' then split_bracketed (cut_first b']' s) else split_plain (cut_last b':' (c ∷ s))
