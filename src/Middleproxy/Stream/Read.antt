-- ===== src/Middleproxy/Stream/Read.antt =====
-- middleConn.Read: it ends, and what each kind of response gives to the client.
use mtg_multi.Prelude.{
  ℕ, zero, suc, ◌+◌, ◌≤◌, ◌<◌, ◌≡◌, ◌≢◌, refl, ap, ◌∙◌, ◌⊎◌, inl, inr, false, List, [], ◌∷◌, ◌++◌,
  length, take, drop, length-append, drop-append, ltb, arith,
}
use native.Mathlib.Numerals.{add-one}
use mtg_multi.Prelude.Bytes.{Bytes, le32, le32_value}
use mtg_multi.Middleproxy.Tags.{tag_proxy_ans, tag_simple_ack}
use mtg_multi.Middleproxy.Frame.{
  FrameConn, Result, Result-cases, ok, err, Error, read_packet, paddings,
}
use mtg_multi.Middleproxy.Frame.Accept.{read_packet_sound}
use mtg_multi.Middleproxy.Stream.{
  MiddleConn, ReadResult, bytes, frame_error, stuck, Reply, append, stop, Parsed, response,
  bad_response, resp_ans, resp_simple_ack, resp_close_ext, parse_proxy_response, reply,
  frame_intermediate, copy_out, read_loop, read,
}

-- A packet that was read took bytes from the input.
read_packet_takes :
    (f : FrameConn) {g : FrameConn} {msg : Bytes}
    → read_packet f ≡ (g, ok msg)
    → length g.raw.input < length f.raw.input
read_packet_takes f {g} {msg} h =
    let (k, len_buf, rest, t, split, size, bound, acc, after) =
      read_packet_sound f {g = g} {msg = msg} h in
    let long : 12 ≤ le32_value len_buf = ground arith in
    omega (
      arith,
      ap length split,
      ap (λ (x : FrameConn). length x.raw.input) after,
      length-append (paddings k) (len_buf ++ (rest ++ t)),
      length-append len_buf (rest ++ t),
      length-append rest t,
    )

reply-ne-stuck : (p : Parsed) → reply p ≢ stop stuck
unfolding reply
reply-ne-stuck (bad_response e) = λ h. cc
reply-ne-stuck (response resp_ans b) = λ h. cc
reply-ne-stuck (response resp_simple_ack b) = λ h. cc
reply-ne-stuck (response resp_close_ext b) = λ h. cc

Reply-cases : (r : Reply) → ((b : Bytes) × (r ≡ append b)) ⊎ ((x : ReadResult) × (r ≡ stop x))
Reply-cases (append b) = inl (b, refl)
Reply-cases (stop x) = inr (x, refl)

List-cases {ℓ} : {A : Type ℓ} (l : List A) → (l ≡ []) ⊎ ((x : A) × (xs : List A) × (l ≡ x ∷ xs))
List-cases [] = inl refl
List-cases (x ∷ xs) = inr (x, xs, refl)

read_loop_buffered :
    (f : ℕ) (m : MiddleConn) (n : ℕ) {x : ℕ} {xs : Bytes}
    → m.outbuf ≡ x ∷ xs
    → read_loop (suc f) m n ≡ copy_out m n
unfolding read_loop
read_loop_buffered f m n e = simp (e, read_loop)

read_loop_error :
    (f : ℕ) (m : MiddleConn) (n : ℕ) {x : Error}
    → m.outbuf ≡ []
    → (read_packet m.frame).1 ≡ err x
    → read_loop (suc f) m n ≡ (record m { frame = (read_packet m.frame).0 }, frame_error x)
unfolding read_loop
read_loop_error f m n e h = simp (e, h, read_loop)

pair_eq : (p : FrameConn × Result Bytes) {r : Result Bytes} → p.1 ≡ r → p ≡ (p.0, r)
pair_eq (g, q) e = ap (λ (x : Result Bytes). (g, x)) e

leb→ltb : (n m : ℕ) → n ≤ m → ltb m n ≡ false
leb→ltb n m h = ground arith

read_loop_packet :
    (f : ℕ) (m : MiddleConn) (n : ℕ) {msg : Bytes}
    → m.outbuf ≡ []
    → (read_packet m.frame).1 ≡ ok msg
    → read_loop (suc f) m n ≡ elim (reply (parse_proxy_response msg)) [
      | stop r ↦ (record m { frame = (read_packet m.frame).0 }, r)
      | append b ↦ read_loop f (record m { frame = (read_packet m.frame).0; outbuf = b }) n
    ]
unfolding read_loop
read_loop_packet f m n e h = rw (e, h, read_loop)

read_loop-ne-stuck :
    (f : ℕ) (m : MiddleConn) (n : ℕ) → length m.frame.raw.input < f → (read_loop f m n).1 ≢ stuck
read_loop-ne-stuck zero m n h = absurd (omega arith)
read_loop-ne-stuck (suc f) m n h = elim (List-cases m.outbuf) [
  | inr (x, xs, e) ↦ rw (read_loop_buffered f m n e) (unfold copy_out in λ p. cc)
  | inl e ↦ elim (Result-cases (read_packet m.frame).1) [
    | inr (x, r) ↦ rw (read_loop_error f m n {x = x} e r) (λ p. cc)
    | inl (msg, r) ↦ elim (Reply-cases (reply (parse_proxy_response msg))) [
      | inr (x, q) ↦
          rw (read_loop_packet f m n {msg = msg} e r, q)
            (λ p. reply-ne-stuck (parse_proxy_response msg) (q ∙ ap stop p))
      | inl (b, q) ↦
          rw (read_loop_packet f m n {msg = msg} e r, q)
            (read_loop-ne-stuck f (record m { frame = (read_packet m.frame).0; outbuf = b }) n
              (omega (
                arith,
                read_packet_takes m.frame {g = (read_packet m.frame).0} {msg = msg}
                    (pair_eq (read_packet m.frame) r),
              )))
    ]
  ]
]

-- Read ends on every stream within its fuel, the length of the input and one: with bytes, an error
-- or the end of the stream.
pub read-ne-stuck : (m : MiddleConn) (n : ℕ) → (read m n).1 ≢ stuck
unfolding read
read-ne-stuck m n = read_loop-ne-stuck (length m.frame.raw.input + 1) m n (omega arith)

-- The responses as the middle proxy lays them out.
abbrev pub proxy_ans : Bytes → Bytes → Bytes
proxy_ans head payload = tag_proxy_ans ++ (head ++ payload)

abbrev pub simple_ack : Bytes → Bytes → Bytes
simple_ack head payload = tag_simple_ack ++ (head ++ payload)

parse-proxy_ans :
    (head payload : Bytes)
    → length head ≡ 12
    → parse_proxy_response (proxy_ans head payload) ≡ response resp_ans payload
unfolding parse_proxy_response
parse-proxy_ans head payload h = rw (
  drop-append 12 head payload h,
  leb→ltb 4 (length (proxy_ans head payload)) (omega (arith, length-append head payload)),
  leb→ltb 16 (length (proxy_ans head payload)) (omega (arith, length-append head payload)),
)

parse-simple_ack :
    (head payload : Bytes)
    → length head ≡ 8
    → parse_proxy_response (simple_ack head payload) ≡ response resp_simple_ack payload
unfolding parse_proxy_response
parse-simple_ack head payload h = rw (
  drop-append 8 head payload h,
  leb→ltb 4 (length (simple_ack head payload)) (omega (arith, length-append head payload)),
  leb→ltb 12 (length (simple_ack head payload)) (omega (arith, length-append head payload)),
)

read_loop_full :
    (f : ℕ) (m : MiddleConn) (n : ℕ) {x : ℕ} {xs : Bytes}
    → 0 < f
    → m.outbuf ≡ x ∷ xs
    → read_loop f m n ≡ copy_out m n
read_loop_full zero m n h e = absurd (omega arith)
read_loop_full (suc f) m n h e = read_loop_buffered f m n e

-- One round of Read that ends with bytes in the buffer.
read_appended :
    (m : MiddleConn) (n : ℕ) (b : Bytes) {g : FrameConn} {msg : Bytes} {x : ℕ} {xs : Bytes}
    → m.outbuf ≡ []
    → read_packet m.frame ≡ (g, ok msg)
    → reply (parse_proxy_response msg) ≡ append b
    → b ≡ x ∷ xs
    → read m n ≡ (record m { frame = g; outbuf = drop n b }, bytes (take n b))
unfolding read copy_out
read_appended m n b {g} {msg} e r q c =
    ap (λ (f : ℕ). read_loop f m n) (add-one (length m.frame.raw.input))
    ∙ read_loop_packet (length m.frame.raw.input) m n {msg = msg} e
        (ap (λ (z : FrameConn × Result Bytes). z.1) r)
    ∙ rw q (
        read_loop_full (length m.frame.raw.input)
          (record m { frame = (read_packet m.frame).0; outbuf = b }) n
          (omega (arith, read_packet_takes m.frame {g = g} {msg = msg} r)) c)
    ∙ ap
        (λ (z : FrameConn × Result Bytes).
          (record m { frame = z.0; outbuf = drop n b }, bytes (take n b)))
        r

-- When the next frame carries an answer (a head of 12 bytes after the tag) and nothing is
-- buffered, Read hands out what fits of a length word and the payload and keeps the rest.
pub read-proxy_ans :
    (m : MiddleConn) (n : ℕ) (head payload : Bytes) {g : FrameConn}
    → m.outbuf ≡ []
    → length head ≡ 12
    → read_packet m.frame ≡ (g, ok (proxy_ans head payload))
    → read m n ≡ (
      record m { frame = g; outbuf = drop n (frame_intermediate payload) },
      bytes (take n (frame_intermediate payload)),
    )
unfolding reply frame_intermediate le32
read-proxy_ans m n head payload {g} e h r =
    read_appended m n (frame_intermediate payload) {g = g} {msg = proxy_ans head payload} e r
      (ap reply (parse-proxy_ans head payload h)) refl

-- When the next frame carries a quick acknowledgement (a head of 8 bytes after the tag and a
-- payload that is not empty) and nothing is buffered, Read hands out what fits of the payload,
-- with no length word, and keeps the rest.
pub read-simple_ack :
    (m : MiddleConn) (n : ℕ) (head : Bytes) (x : ℕ) (xs : Bytes) {g : FrameConn}
    → m.outbuf ≡ []
    → length head ≡ 8
    → read_packet m.frame ≡ (g, ok (simple_ack head (x ∷ xs)))
    → read m n ≡ (record m { frame = g; outbuf = drop n (x ∷ xs) }, bytes (take n (x ∷ xs)))
unfolding reply
read-simple_ack m n head x xs {g} e h r =
    read_appended m n (x ∷ xs) {g = g} {msg = simple_ack head (x ∷ xs)} e r
      (ap reply (parse-simple_ack head (x ∷ xs) h)) refl
