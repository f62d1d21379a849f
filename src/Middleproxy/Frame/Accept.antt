-- ===== src/Middleproxy/Frame/Accept.antt =====
-- What frameConn.readPacket accepts, read off the input, and when it changes its state.
use mtg_multi.Prelude.{
  ℕ, suc, ◌-◌, ◌≡◌, ap, ◌∙◌, inl, inr, false, some, [], ◌∷◌, ◌++◌, length, take, drop, Bool-cases,
  Option-cases, bytes_eq, bytes_eq_iff, arith,
}
use mathlib.Core.Option.{some-injective}
use mtg_multi.Prelude.Bytes.{Bytes, le32_value, read_full, read_full-eq_some}
use mtg_multi.Middleproxy.Crc.{crc32}
use mtg_multi.Middleproxy.Frame.{
  ok, err, FrameConn, Error, frame_padding, next_seq_no, paddings, skip_padding, check_body,
  read_body, read_packet, bad_length,
}

skip_padding_split :
    (s : Bytes) {w t : Bytes}
    → skip_padding s ≡ some (w, t)
    → (k : ℕ) × (s ≡ paddings k ++ (w ++ t))
unfolding skip_padding
skip_padding_split [] h = cc
skip_padding_split (a ∷ []) h = cc
skip_padding_split (a ∷ b ∷ []) h = cc
skip_padding_split (a ∷ b ∷ c ∷ []) h = cc
skip_padding_split (a ∷ b ∷ c ∷ d ∷ s) {w} {t} h =
    elim (Bool-cases (bytes_eq (a ∷ b ∷ c ∷ d ∷ []) frame_padding)) [
      | inl e ↦
          let (k, p) = skip_padding_split s {w = w} {t = t} (rw e at h) in
          (
            suc k,
            ap (λ (x : Bytes). x ++ s) ((bytes_eq_iff (a ∷ b ∷ c ∷ d ∷ []) frame_padding).0 e)
                ∙ ap (λ (x : Bytes). frame_padding ++ x) p,
          )
      | inr e ↦ (0, ap (λ (q : Bytes × Bytes). q.0 ++ q.1) (some-injective _ _ (rw e at h)))
    ]

-- The parts of an accepted body.
abbrev pub Accepted : FrameConn → Bytes → Bytes → Bytes → Type 0
Accepted f len_buf rest msg =
    (le32_value (take 4 rest) ≡ f.read_seq_no)
    × (crc32 (len_buf ++ take (length rest - 4) rest) ≡ le32_value (drop (length rest - 4) rest))
    × (drop 4 (take (length rest - 4) rest) ≡ msg)

check_body_inv :
    (f : FrameConn) (len_buf rest s : Bytes) {g : FrameConn} {msg : Bytes}
    → check_body f len_buf rest s ≡ (g, ok msg)
    → Accepted f len_buf rest msg
      × (g ≡ record f { raw = record f.raw { input = s }; read_seq_no = next_seq_no f.read_seq_no })
unfolding check_body
check_body_inv f len_buf rest s h = ground arith

read_body_inv :
    (f : FrameConn) (len_buf s : Bytes) {g : FrameConn} {msg : Bytes}
    → read_body f len_buf s ≡ (g, ok msg)
    → (rest : Bytes) × (t : Bytes) × (s ≡ rest ++ t)
      × (length rest ≡ le32_value len_buf - 4)
      × (bad_length (le32_value len_buf) ≡ false)
      × Accepted f len_buf rest msg
      × (g ≡ record f { raw = record f.raw { input = t }; read_seq_no = next_seq_no f.read_seq_no })
unfolding read_body
read_body_inv f len_buf s {g} {msg} h = elim (Bool-cases (bad_length (le32_value len_buf))) [
  | inl e ↦ absurd (cc (rw e at h))
  | inr e ↦ elim (Option-cases (read_full (le32_value len_buf - 4) s)) [
    | inl n ↦ absurd (cc (rw (e, n) at h))
    | inr ((rest, t), n) ↦
        let (split, len) = read_full-eq_some (le32_value len_buf - 4) s n in
        let (acc, after) = check_body_inv f len_buf rest t {g = g} {msg = msg} (rw (e, n) at h) in
        (rest, t, split, len, e, acc, after)
  ]
]

-- A packet that readPacket accepts is a whole frame behind padding words: its length field counts
-- it, is a multiple of 4 and in range, its sequence number is the expected one and its checksum is
-- right; the expected number moves on by one.
pub read_packet_sound :
    (f : FrameConn) {g : FrameConn} {msg : Bytes}
    → read_packet f ≡ (g, ok msg)
    → (k : ℕ) × (len_buf : Bytes) × (rest : Bytes) × (t : Bytes) × (f.raw.input
        ≡ paddings k ++ (len_buf ++ (rest ++ t)))
      × (length rest ≡ le32_value len_buf - 4)
      × (bad_length (le32_value len_buf) ≡ false)
      × Accepted f len_buf rest msg
      × (g ≡ record f { raw = record f.raw { input = t }; read_seq_no = next_seq_no f.read_seq_no })
unfolding read_packet
read_packet_sound f {g} {msg} h = elim (Option-cases (skip_padding f.raw.input)) [
  | inl n ↦ absurd (cc (rw (n, read_packet) at h))
  | inr ((len_buf, s), n) ↦
      let (k, split) = skip_padding_split f.raw.input n in
      let (rest, t, s_split, len, bound, acc, after) =
        read_body_inv f len_buf s {g = g} {msg = msg} (rw (n, read_packet) at h) in
      (
        k,
        len_buf,
        rest,
        t,
        split ∙ ap (λ (x : Bytes). paddings k ++ (len_buf ++ x)) s_split,
        len,
        bound,
        acc,
        after,
      )
]

check_body_keeps :
    (f : FrameConn) (len_buf rest s : Bytes) {e : Error}
    → (check_body f len_buf rest s).1 ≡ err e
    → (check_body f len_buf rest s).0.read_seq_no ≡ f.read_seq_no
unfolding check_body
check_body_keeps f len_buf rest s h = ground arith

read_body_keeps :
    (f : FrameConn) (len_buf s : Bytes) {e : Error}
    → (read_body f len_buf s).1 ≡ err e
    → (read_body f len_buf s).0.read_seq_no ≡ f.read_seq_no
unfolding read_body
read_body_keeps f len_buf s h = grind (arith, check_body_keeps f len_buf)

-- Every refusal of readPacket leaves the expected sequence number alone.
pub read_packet_refused :
    (f : FrameConn) {e : Error}
    → (read_packet f).1 ≡ err e
    → (read_packet f).0.read_seq_no ≡ f.read_seq_no
unfolding read_packet
read_packet_refused f h = grind (arith, read_body_keeps f)
