-- ===== src/Fake/Fragments.antt =====
-- mtglib/internal/tls/fake/utils.go: a client hello in fragments is the client hello.
use mtg_multi.Prelude.{
  ℕ, zero, suc, ◌+◌, ◌-◌, ◌≤◌, ◌<◌, min, ◌≡◌, refl, sym, ap, ◌∙◌, true, false, List, [], ◌∷◌, ◌++◌,
  length, take, drop, append-nil, append_assoc, All, ltb, Bool-cases, inl, inr, ok, arith,
  length-append, take-append, drop-append, length-take, take-append-drop,
}
use mtg_multi.Prelude.Bytes.{Bytes, be16, be16_value, be16_value-be16}
use mtg_multi.Fake.{
  type_handshake, max_fragments_count, Reader, copy_fragment, parse_next_header,
  parse_next_fragment, is_empty, next_fragments, read_some, read_bytes, copy_chunk, uint24_value,
  raw_hello, parse_type, parse_client_hello,
}

-- A fragment as a record, and several.
abbrev pub fragment : Bytes → Bytes
fragment p = type_handshake ∷ 3 ∷ 1 ∷ (be16 (length p) ++ p)

abbrev pub fragments : List Bytes → Bytes
fragments [] = []
fragments (p ∷ ps) = fragment p ++ fragments ps

abbrev pub joined : List Bytes → Bytes
joined [] = []
joined (p ∷ ps) = p ++ joined ps

abbrev pub IsShort : Bytes → Type 0
IsShort p = length p < 65536

-- The reader is at `todo`: some of it is buffered and the rest is in fragments that it will take.
abbrev pub IsAt : List Bytes → Bytes → Bytes → Reader → Type 0
IsAt fs rest todo f =
    (f.input ≡ fragments fs ++ rest)
    × (f.buf ++ joined fs ≡ todo)
    × (f.read_fragments + length fs ≤ suc max_fragments_count)
    × All IsShort fs

parse_next_fragment-fragment :
    (f : Reader) (p s : Bytes)
    → f.input ≡ fragment p ++ s
    → IsShort p
    → parse_next_fragment f ≡ ok record f { input = s; buf = f.buf ++ p }
unfolding parse_next_fragment parse_next_header copy_fragment be16
parse_next_fragment-fragment f p s e l =
    let size : be16_value (be16 (length p)) ≡ length p = be16_value-be16 (length p) l in
    let long : ltb (length (p ++ s)) (length p) ≡ false = ground (arith, length-append p s) in
    rw (e, size, long, drop-append (length p) p s refl, take-append (length p) p s refl) refl

is_empty-append : (a b : Bytes) → is_empty a ≡ true → a ++ b ≡ b
unfolding is_empty
is_empty-append [] b e = refl
is_empty-append (x ∷ a) b e = let q : false ≡ true = e in cc

next_fragments-IsAt :
    (fuel : ℕ) (fs : List Bytes) (rest todo : Bytes) (f : Reader)
    → IsAt fs rest todo f
    → is_empty todo ≡ false
    → max_fragments_count + 2 ≤ fuel + f.read_fragments
    → (f' : Reader) × (gs : List Bytes) × (next_fragments fuel f ≡ ok f')
      × IsAt gs rest todo f'
      × (is_empty f'.buf ≡ false)
unfolding next_fragments
next_fragments-IsAt zero fs rest todo f (i, d, c, s) ne l =
    let y : ⊥ = omega (arith, c, l) in elim y [ ]
next_fragments-IsAt (suc fuel) [] rest todo f (i, d, c, s) ne l =
    elim (Bool-cases (is_empty f.buf)) [
      | inr e ↦ (f, [], rw e refl, (i, d, c, s), e)
      | inl e ↦ let q : true ≡ false = sym e ∙ rw (← append-nil f.buf) (rw d ne) in cc
    ]
next_fragments-IsAt (suc fuel) (p ∷ ps) rest todo f (i, d, c, s) ne l =
    elim (Bool-cases (is_empty f.buf)) [
      | inr e ↦ (f, p ∷ ps, rw e refl, (i, d, c, s), e)
      | inl e ↦
          let f' : Reader = record {
            input = fragments ps ++ rest;
            buf = f.buf ++ p;
            read_fragments = f.read_fragments + 1;
          } in
          let count : ltb max_fragments_count f.read_fragments ≡ false = ground (arith, c) in
          let step : parse_next_fragment f
              ≡ ok record f { input = fragments ps ++ rest; buf = f.buf ++ p } =
            parse_next_fragment-fragment f p (fragments ps ++ rest)
              (i ∙ append_assoc (fragment p) (fragments ps) rest) (s.0) in
          let at : IsAt ps rest todo f' =
            (refl, append_assoc f.buf p (joined ps) ∙ d, omega (arith, c), s.1) in
          let (g, gs, run, here, full) =
            next_fragments-IsAt fuel ps rest todo f' at ne (omega (arith, l)) in
          (g, gs, rw (e, count, step) run, here, full)
    ]

length-ne-empty : (b : Bytes) → is_empty b ≡ false → 1 ≤ length b
unfolding is_empty
length-ne-empty [] e = let q : true ≡ false = e in cc
length-ne-empty (x ∷ b) e = omega arith

ne-empty_of_length : (b : Bytes) → 1 ≤ length b → is_empty b ≡ false
unfolding is_empty
ne-empty_of_length [] l = let y : ⊥ = omega (arith, l) in elim y [ ]
ne-empty_of_length (x ∷ b) l = refl

-- What a Read of a reader gives, and where it leaves it.
abbrev IsRead : ℕ → Bytes → Bytes → Bytes → Type 0
IsRead n rest todo out = (todo ≡ out ++ drop (length out) todo) × (length out ≤ n)

read_some-IsAt :
    (n : ℕ) (fs : List Bytes) (rest todo : Bytes) (f : Reader)
    → IsAt fs rest todo f
    → 1 ≤ n
    → 1 ≤ length todo
    → (f' : Reader) × (gs : List Bytes) × (out left : Bytes) × (read_some n f ≡ ok (f', out))
      × IsAt gs rest left f'
      × (out ++ left ≡ todo)
      × (1 ≤ length out)
      × (length out ≤ n)
unfolding read_some
read_some-IsAt n fs rest todo f at one some_left =
    let (g, gs, run, (i, d, c, s), full) =
      next_fragments-IsAt (max_fragments_count + 2) fs rest todo f at
        (ne-empty_of_length todo some_left) (omega arith) in
    let l = length-ne-empty g.buf full in
    (
      record g { buf = drop n g.buf },
      gs,
      take n g.buf,
      drop n g.buf ++ joined gs,
      rw run refl,
      (i, refl, c, s),
      sym (append_assoc (take n g.buf) (drop n g.buf) (joined gs))
          ∙ ap (λ (b : Bytes). b ++ joined gs) (take-append-drop n g.buf)
          ∙ d,
      omega (arith, length-take n g.buf, l, one),
      omega (arith, length-take n g.buf),
    )

read_bytes-IsAt :
    (fuel most n : ℕ) (fs : List Bytes) (rest todo : Bytes) (f : Reader)
    → IsAt fs rest todo f
    → n ≤ fuel
    → 1 ≤ most
    → n ≤ length todo
    → (f' : Reader) × (gs : List Bytes) × (out left : Bytes) × (read_bytes fuel most n f
        ≡ ok (f', out))
      × IsAt gs rest left f'
      × (out ++ left ≡ todo)
      × (length out ≡ n)
unfolding read_bytes
read_bytes-IsAt fuel most zero fs rest todo f at enough one l =
    (f, fs, [], todo, refl, at, refl, refl)
read_bytes-IsAt zero most (suc n) fs rest todo f at enough one l =
    let y : ⊥ = omega (arith, enough) in elim y [ ]
read_bytes-IsAt (suc fuel) most (suc n) fs rest todo f at enough one l =
    let (g, gs, out, left, run, here, whole, pos, few) =
      read_some-IsAt (min most (suc n)) fs rest todo f at (omega (arith, one)) (omega (arith, l)) in
    let m : length out + length left ≡ length todo =
      sym (length-append out left) ∙ ap length whole in
    let n' : suc n - length out ≤ length left = omega (arith, m, l) in
    let (h, hs, more, left', run', here', whole', size) =
      read_bytes-IsAt fuel most (suc n - length out) gs rest left g here
        (omega (arith, enough, pos)) one n' in
    (
      h,
      hs,
      out ++ more,
      left',
      rw (run, run') refl,
      here',
      append_assoc out more left' ∙ ap (λ (b : Bytes). out ++ b) whole' ∙ whole,
      length-append out more ∙ rw size (omega (arith, few)),
    )

-- A client hello with its header, in at most 11 fragments of less than 65536 bytes each, whatever
-- their borders and whatever follows, is parsed as the header and the body.
pub parse_client_hello-fragments :
    (fs : List Bytes) (a b c : ℕ) (body more rest : Bytes)
    → length body ≡ uint24_value (a ∷ b ∷ c ∷ [])
    → joined fs ≡ (1 ∷ a ∷ b ∷ c ∷ body) ++ more
    → length fs ≤ suc max_fragments_count
    → All IsShort fs
    → parse_client_hello (fragments fs ++ rest) ≡ ok (raw_hello (a ∷ b ∷ c ∷ []) body)
unfolding parse_client_hello parse_type
parse_client_hello-fragments fs a b c body more rest size e few short =
    let start : Reader = record { input = fragments fs ++ rest; buf = []; read_fragments = 0 } in
    let todo : Bytes = 1 ∷ a ∷ b ∷ c ∷ (body ++ more) in
    let (g, gs, header, left, run, here, whole, four) =
      read_bytes-IsAt 4 4 4 fs rest todo start (refl, e, omega (arith, few), short) (omega arith)
        (omega arith) (omega arith) in
    let is_header : header ≡ 1 ∷ a ∷ b ∷ c ∷ [] =
      sym (take-append 4 header left four) ∙ ap (take 4) whole in
    let is_left : left ≡ body ++ more = sym (drop-append 4 header left four) ∙ ap (drop 4) whole in
    let l : uint24_value (a ∷ b ∷ c ∷ []) ≤ length left =
      rw (is_left, length-append body more) (omega (arith, size)) in
    let (h, hs, got, left', run', here', whole', n) =
      read_bytes-IsAt (uint24_value (a ∷ b ∷ c ∷ [])) copy_chunk (uint24_value (a ∷ b ∷ c ∷ [])) gs
        rest left g here (omega arith) (omega arith) l in
    let is_body : got ≡ body =
      sym (take-append (length body) got left' (n ∙ sym size))
      ∙ ap (take (length body)) (whole' ∙ is_left)
      ∙ take-append (length body) body more refl in
    rw (run, is_header) (rw (run', is_body) refl)
