-- ===== src/Middleproxy/Stream/Write.antt =====
-- middleConn.Write: the result does not depend on how the client's bytes are cut into calls, and
-- each request fills whole words.
use mtg_multi.Prelude.{
  ℕ, zero, suc, ◌+◌, ◌≤◌, ◌<◌, ◌≡◌, refl, sym, ap, ◌∙◌, inl, inr, Bool, false, Option, none, some,
  [], ◌∷◌, ◌++◌, append_assoc, length, take, drop, length-append, length-drop, take-append_le,
  drop-append_le, ltb, Option-cases, arith,
}
use mtg_multi.Prelude.Bytes.{Bytes, le32_value}
use mtg_multi.Middleproxy.Frame.{Result, Result-cases, ok, err, Error, write_packet}
use mtg_multi.Middleproxy.Stream.{
  MiddleConn, next_packet, write_loop, write_of, write, build_proxy_req, request_head,
  packet_length, is_quick_ack, strip_padding,
}

pub le32_value-append : (a q : Bytes) → 4 ≤ length a → le32_value (a ++ q) ≡ le32_value a
unfolding le32_value
le32_value-append [] q h = absurd (omega arith)
le32_value-append (a ∷ []) q h = absurd (omega arith)
le32_value-append (a ∷ b ∷ []) q h = absurd (omega arith)
le32_value-append (a ∷ b ∷ c ∷ []) q h = absurd (omega arith)
le32_value-append (a ∷ b ∷ c ∷ d ∷ s) q h = refl

next_packet_inv :
    (a : Bytes) {p r : Bytes} {k : Bool}
    → next_packet a ≡ some (p, k, r)
    → (4 ≤ length a)
      × (packet_length (le32_value a) + 4 ≤ length a)
      × (p ≡ strip_padding (take (packet_length (le32_value a)) (drop 4 a)))
      × (k ≡ is_quick_ack (le32_value a))
      × (r ≡ drop (4 + packet_length (le32_value a)) a)
unfolding next_packet
next_packet_inv a h = ground arith

next_packet_shorter :
    (a : Bytes) {p r : Bytes} {k : Bool} → next_packet a ≡ some (p, k, r) → length r < length a
next_packet_shorter a {p} {r} {k} h =
    let inv = next_packet_inv a {p = p} {r = r} {k = k} h in
    rw inv.4 (omega (arith, length-drop (4 + packet_length (le32_value a)) a, inv.0))

leb→ltb : (n m : ℕ) → n ≤ m → ltb m n ≡ false
leb→ltb n m h = ground arith

pub next_packet_at :
    (a : Bytes) (w n : ℕ)
    → le32_value a ≡ w
    → packet_length w ≡ n
    → 4 ≤ length a
    → n + 4 ≤ length a
    → next_packet a ≡ some (strip_padding (take n (drop 4 a)), is_quick_ack w, drop (4 + n) a)
unfolding next_packet
next_packet_at a w n e f h k = rw (e, f, leb→ltb 4 (length a) h, leb→ltb (n + 4) (length a) k)

-- A complete packet stays the first one when more bytes arrive.
next_packet-append :
    (a q : Bytes) {p r : Bytes} {k : Bool}
    → next_packet a ≡ some (p, k, r)
    → next_packet (a ++ q) ≡ some (p, k, r ++ q)
next_packet-append a q {p} {r} {k} h =
    let (four, whole, ep, ek, er) = next_packet_inv a {p = p} {r = r} {k = k} h in
    let w = le32_value a in
    let n = packet_length w in
    next_packet_at (a ++ q) w n (le32_value-append a q four) refl (omega (arith, length-append a q))
      (omega (arith, length-append a q))
    ∙ rw (
      drop-append_le 4 a q four,
      take-append_le n (drop 4 a) q (omega (arith, length-drop 4 a)),
      drop-append_le (4 + n) a q (omega arith),
      ep,
      ek,
      er,
    )

pub next_packet_empty : (a : Bytes) → length a ≤ 0 → next_packet a ≡ none
unfolding next_packet
next_packet_empty a h = ground arith

-- The connection after a packet was sent, and with more bytes in its buffer.
abbrev pub advance : MiddleConn → Bytes → Bool → Bytes → MiddleConn
advance m p k r = record m { frame = (write_packet m.frame (build_proxy_req m p k)).0; inbuf = r }

abbrev feed : MiddleConn → Bytes → MiddleConn
feed m q = record m { inbuf = m.inbuf ++ q }

pub write_loop_send :
    (f : ℕ) (m : MiddleConn) {p r : Bytes} {k : Bool} {u : Unit {0}}
    → next_packet m.inbuf ≡ some (p, k, r)
    → (write_packet m.frame (build_proxy_req m p k)).1 ≡ ok u
    → write_loop (suc f) m ≡ write_loop f (advance m p k r)
unfolding write_loop
write_loop_send f m e s = rw (e, write_loop, s)

write_loop_fail :
    (f : ℕ) (m : MiddleConn) {p r : Bytes} {k : Bool} {x : Error}
    → next_packet m.inbuf ≡ some (p, k, r)
    → (write_packet m.frame (build_proxy_req m p k)).1 ≡ err x
    → write_loop (suc f) m
      ≡ (record m { frame = (write_packet m.frame (build_proxy_req m p k)).0 }, err x)
unfolding write_loop
write_loop_fail f m e s = rw (e, write_loop, s)

pub write_loop_idle :
    (f : ℕ) (m : MiddleConn) → next_packet m.inbuf ≡ none → write_loop f m ≡ (m, ok tt)
unfolding write_loop
write_loop_idle zero m e = refl
write_loop_idle (suc f) m e = rw (e, write_loop)

-- Fuel of the buffer's length is enough: more of it changes nothing.
write_loop_fuel :
    (f g : ℕ) (m : MiddleConn)
    → length m.inbuf ≤ f
    → length m.inbuf ≤ g
    → write_loop f m ≡ write_loop g m
write_loop_fuel zero g m hf hg =
    let e = next_packet_empty m.inbuf hf in write_loop_idle zero m e ∙ sym (write_loop_idle g m e)
write_loop_fuel (suc f) zero m hf hg =
    let e = next_packet_empty m.inbuf hg in
    write_loop_idle (suc f) m e ∙ sym (write_loop_idle zero m e)
write_loop_fuel (suc f) (suc g) m hf hg = elim (Option-cases (next_packet m.inbuf)) [
  | inl e ↦ write_loop_idle (suc f) m e ∙ sym (write_loop_idle (suc g) m e)
  | inr ((p, k, r), e) ↦ elim (Result-cases (write_packet m.frame (build_proxy_req m p k)).1) [
    | inl (u, s) ↦
        let less = next_packet_shorter m.inbuf {p = p} {r = r} {k = k} e in
        write_loop_send f m e s
        ∙ write_loop_fuel f g (advance m p k r) (omega arith) (omega arith)
        ∙ sym (write_loop_send g m e s)
    | inr (x, s) ↦ write_loop_fail f m e s ∙ sym (write_loop_fail g m e s)
  ]
]

feed_idle :
    (f g h : ℕ) (m : MiddleConn) (q : Bytes) {m1 : MiddleConn} {u : Unit {0}}
    → write_loop f m ≡ (m1, ok u)
    → next_packet m.inbuf ≡ none
    → length (m.inbuf ++ q) ≤ g
    → length (m1.inbuf ++ q) ≤ h
    → write_loop g (feed m q) ≡ write_loop h (feed m1 q)
feed_idle f g h m q {m1} e n hg hh =
    let same : m ≡ m1 =
      ap (λ (z : MiddleConn × Result (Unit {0})). z.0) (sym (write_loop_idle f m n) ∙ e) in
    write_loop_fuel g h (feed m q) hg
      (omega (arith, ap (λ (x : MiddleConn). length (x.inbuf ++ q)) same))
    ∙ ap (λ (x : MiddleConn). write_loop h (feed x q)) same

feed_length_pos : (a q : Bytes) → 4 ≤ length a → ¬ (length (a ++ q) ≤ 0)
feed_length_pos a q h = omega (arith, length-append a q)

-- Bytes that come after a loop that ended well are handled as if they had been there before.
write_loop-feed :
    (f g h : ℕ) (m : MiddleConn) (q : Bytes) {m1 : MiddleConn} {u : Unit {0}}
    → write_loop f m ≡ (m1, ok u)
    → length m.inbuf ≤ f
    → length (m.inbuf ++ q) ≤ g
    → length (m1.inbuf ++ q) ≤ h
    → write_loop g (feed m q) ≡ write_loop h (feed m1 q)
unfolding build_proxy_req request_head
write_loop-feed zero g h m q {m1} e hf hg hh =
    feed_idle zero g h m q {m1 = m1} e (next_packet_empty m.inbuf hf) hg hh
write_loop-feed (suc f) zero h m q {m1} e hf hg hh = elim (Option-cases (next_packet m.inbuf)) [
  | inl n ↦ feed_idle (suc f) zero h m q {m1 = m1} e n hg hh
  | inr ((p, k, r), n) ↦
      absurd (feed_length_pos m.inbuf q (next_packet_inv m.inbuf {p = p} {r = r} {k = k} n).0 hg)
]
write_loop-feed (suc f) (suc g) h m q {m1} {u} e hf hg hh =
    elim (Option-cases (next_packet m.inbuf)) [
      | inl n ↦ feed_idle (suc f) (suc g) h m q {m1 = m1} e n hg hh
      | inr ((p, k, r), n) ↦ elim (Result-cases (write_packet m.frame (build_proxy_req m p k)).1) [
        | inl (v, s) ↦
            let less = next_packet_shorter m.inbuf {p = p} {r = r} {k = k} n in
            write_loop_send g (feed m q) {p = p} {r = r ++ q} {k = k} {u = v}
              (next_packet-append m.inbuf q {p = p} {r = r} {k = k} n) s
            ∙ write_loop-feed f g h (advance m p k r) q {m1 = m1} {u = u}
                (sym (write_loop_send f m {u = v} n s) ∙ e) (omega arith)
                (omega (arith, length-append r q, length-append m.inbuf q)) hh
        | inr (x, s) ↦ absurd (cc (sym (write_loop_fail f m {x = x} n s) ∙ e))
      ]
    ]

abbrev pub failure {ℓ} : {A : Type ℓ} → Result A → Option Error
failure (ok a) = none
failure (err e) = some e

write_of_lem :
    (n : ℕ) (r : MiddleConn × Result (Unit {0}))
    → ((write_of n r).0 ≡ r.0) × (failure (write_of n r).1 ≡ failure r.1)
unfolding write_of
write_of_lem n (m, ok u) = (refl, refl)
write_of_lem n (m, err e) = (refl, refl)

write_of_inv :
    (n : ℕ) (r : MiddleConn × Result (Unit {0})) {m : MiddleConn} {k : ℕ}
    → write_of n r ≡ (m, ok k)
    → r ≡ (m, ok tt)
unfolding write_of
write_of_inv n (m, ok u) h = ground arith
write_of_inv n (m, err e) h = absurd (cc)

-- Writing two pieces at once leaves the stream as writing one and then the other does, and fails
-- as the second call does, whenever the first call succeeds.
pub write-append :
    (m : MiddleConn) (p q : Bytes) {m1 : MiddleConn} {n : ℕ}
    → write m p ≡ (m1, ok n)
    → ((write m (p ++ q)).0 ≡ (write m1 q).0)
      × (failure (write m (p ++ q)).1 ≡ failure (write m1 q).1)
unfolding write
write-append m p q {m1} {n} h =
    let whole =
      write_of_lem (length (p ++ q))
        (write_loop (length (m.inbuf ++ (p ++ q))) (feed m (p ++ q))) in
    let later = write_of_lem (length q) (write_loop (length (m1.inbuf ++ q)) (feed m1 q)) in
    (
      whole.0 ∙ ap (λ (z : MiddleConn × Result (Unit {0})). z.0) same ∙ sym later.0,
      whole.1 ∙ ap (λ (z : MiddleConn × Result (Unit {0})). failure z.1) same ∙ sym later.1,
    )
  where
    same :
        write_loop (length (m.inbuf ++ (p ++ q))) (feed m (p ++ q))
        ≡ write_loop (length (m1.inbuf ++ q)) (feed m1 q)
    same = rw (← append_assoc m.inbuf p q) (
        write_loop-feed (length (m.inbuf ++ p)) (length ((m.inbuf ++ p) ++ q))
          (length (m1.inbuf ++ q)) (feed m p) q {m1 = m1} {u = tt}
          (write_of_inv (length p) (write_loop (length (m.inbuf ++ p)) (feed m p)) {m = m1} {k = n}
            h)
          (omega arith) (omega arith) (omega arith))
