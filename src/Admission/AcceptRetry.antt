-- ===== src/Admission/AcceptRetry.antt =====
-- internal/acceptretry/acceptretry.go and mtglib/accept.go: accepting connections under temporary
-- errors. Durations are nanoseconds.
use native.Mathlib.Nat.{pow-suc}
use mtg_multi.Prelude.{
  sym, ap, ◌∙◌, ◌++◌, append-nil, ℕ, zero, suc, ◌+◌, ◌*◌, ◌^◌, ◌<◌, ◌≡◌, ◌≢◌, refl, ◌⊎◌, inl, inr,
  Bool, true, false, not, ◌||◌, Option, none, some, List, [], ◌∷◌, min, ◌==◌, if◌then◌else◌, arith,
  All, Bool-cases, length,
}

abbrev pub min_delay : ℕ
min_delay = 5_000_000

abbrev pub max_delay : ℕ
max_delay = 1_000_000_000

-- What IsTemporary asks of an error.
pub data AcceptError : Type 0 where
  closed timeout emfile enfile enobufs enomem econnaborted econnreset other : AcceptError

unfoldable pub is_temporary : Option AcceptError → Bool
is_temporary none = false
is_temporary (some closed) = false
is_temporary (some other) = false
is_temporary (some _) = true

pub next_delay : ℕ → ℕ
next_delay previous = if previous == 0 then min_delay else min (previous * 2) max_delay

-- One call of Accept, whether the context was done when it returned, and whether the context ended
-- the pause after it.
pub record Attempt (Conn : Type 0) : Type 0 where
  pub outcome : Conn ⊎ AcceptError
  pub ctx_done : Bool
  pub ctx_done_in_pause : Bool

-- acceptWithRetry returns; `waiting` is no Go value: the listener has said nothing more so far.
pub data Accepted (Conn : Type 0) : Type 0 where
  accepted : Conn → Accepted Conn
  failed : AcceptError → Accepted Conn
  cancelled : Accepted Conn
  waiting : ℕ → Accepted Conn

-- An error that is worth another try: not one of a closed listener, nor an unknown one.
abbrev pub IsTemporary : AcceptError → Type 0
IsTemporary e = (e ≢ closed) × (e ≢ other)

module _ {Conn : Type 0} where
  pub accept_loop : ℕ → List (Attempt Conn) → Accepted Conn
  accept_loop delay [] = waiting delay
  accept_loop delay (a ∷ as') =
      let rest = accept_loop (next_delay delay) as' in
      elim a.outcome [
        | inl conn ↦ accepted conn
        | inr e ↦
            if a.ctx_done || not (is_temporary (some e))
            then failed e
            else if a.ctx_done_in_pause
            then cancelled
            else rest
      ]

  pub accept_with_retry : List (Attempt Conn) → Accepted Conn
  accept_with_retry = accept_loop 0

  -- Temporary errors while the context lives.
  abbrev pub IsTransient : Attempt Conn → Type 0
  IsTransient a =
      (e : AcceptError) × (a.outcome ≡ inr e)
      × IsTemporary e
      × (a.ctx_done ≡ false)
      × (a.ctx_done_in_pause ≡ false)

  -- What an attempt ends the loop with: its connection, an error that is not temporary or comes
  -- after the context, or the end of the context in the pause.
  abbrev pub IsLast : Attempt Conn → Accepted Conn → Type 0
  IsLast a (accepted conn) = a.outcome ≡ inl conn
  IsLast a (failed e) = (a.outcome ≡ inr e) × ((a.ctx_done ≡ true) ⊎ ((e ≡ closed) ⊎ (e ≡ other)))
  IsLast a cancelled =
      (e : AcceptError) × (a.outcome ≡ inr e)
      × IsTemporary e
      × (a.ctx_done ≡ false)
      × (a.ctx_done_in_pause ≡ true)
  IsLast a (waiting delay) = ⊥

is_temporary_lem : (e : AcceptError) → e ≢ closed → e ≢ other → is_temporary (some e) ≡ true
unfolding is_temporary
is_temporary_lem closed c o = absurd (c refl)
is_temporary_lem timeout c o = refl
is_temporary_lem emfile c o = refl
is_temporary_lem enfile c o = refl
is_temporary_lem enobufs c o = refl
is_temporary_lem enomem c o = refl
is_temporary_lem econnaborted c o = refl
is_temporary_lem econnreset c o = refl
is_temporary_lem other c o = absurd (o refl)

fatal : (e : AcceptError) → (e ≡ closed) ⊎ (e ≡ other) → is_temporary (some e) ≡ false
unfolding is_temporary
fatal e (inl c) = rw c refl
fatal e (inr o) = rw o refl

-- The pause after `n` more temporary errors.
pub schedule : ℕ → ℕ → ℕ
schedule zero delay = delay
schedule (suc n) delay = schedule n (next_delay delay)

two_pow : (k : ℕ) → 2 ^ suc k ≡ 2 * 2 ^ k
two_pow k = omega (arith, pow-suc 2 k)

two_pow_pos : (k : ℕ) → 0 < 2 ^ k
two_pow_pos zero = omega arith
two_pow_pos (suc k) = omega (arith, two_pow k, two_pow_pos k)

next_delay-doubles :
    (k : ℕ) → next_delay (min (min_delay * 2 ^ k) max_delay) ≡ min (min_delay * 2 ^ suc k) max_delay
unfolding next_delay
next_delay-doubles k = ground (arith, two_pow k, two_pow_pos k)

schedule-doubles :
    (n k : ℕ)
    → schedule n (min (min_delay * 2 ^ k) max_delay) ≡ min (min_delay * 2 ^ (n + k)) max_delay
unfolding schedule
schedule-doubles zero k = ap (λ (x : ℕ). min (min_delay * 2 ^ x) max_delay) (omega arith)
schedule-doubles (suc n) k =
    rw (next_delay-doubles k)
      (schedule-doubles n (suc k) ∙ ap (λ (x : ℕ). min (min_delay * 2 ^ x) max_delay) (omega arith))

-- The delay after n+1 temporary errors is 5ms times 2^n, at most 1s.
pub schedule_closed : (n : ℕ) → schedule (suc n) 0 ≡ min (min_delay * 2 ^ n) max_delay
unfolding schedule next_delay
schedule_closed n =
    schedule-doubles n 0 ∙ ap (λ (x : ℕ). min (min_delay * 2 ^ x) max_delay) (omega arith)

-- No pause before the first error, then 5 ms, doubled with every error up to a second.
abbrev pub delay_after : ℕ → ℕ
delay_after zero = 0
delay_after (suc n) = min (5_000_000 * 2 ^ n) 1_000_000_000

schedule-delay_after : (n : ℕ) → schedule n 0 ≡ delay_after n
schedule-delay_after zero = unfold schedule in refl
schedule-delay_after (suc n) = schedule_closed n

module _ {Conn : Type 0} where
  accept_loop-append :
      (as' bs : List (Attempt Conn)) (delay : ℕ)
      → All IsTransient as'
      → accept_loop delay (as' ++ bs) ≡ accept_loop (schedule (length as') delay) bs
  unfolding accept_loop schedule
  accept_loop-append [] bs delay t = refl
  accept_loop-append (a ∷ as') bs delay ((e, o, (c, n), d, q), ts) =
      rw (o, d, is_temporary_lem e c n, q, accept_loop)
        (accept_loop-append as' bs (next_delay delay) ts)

  accept_loop-last :
      (last : Attempt Conn) (bs : List (Attempt Conn)) (delay : ℕ) (r : Accepted Conn)
      → IsLast last r
      → accept_loop delay (last ∷ bs) ≡ r
  unfolding accept_loop
  accept_loop-last last bs delay (accepted conn) o = rw o refl
  accept_loop-last last bs delay (failed e) (o, inl d) = rw (o, d) refl
  accept_loop-last last bs delay (failed e) (o, inr f) =
      rw (o, fatal e f) (elim (Bool-cases last.ctx_done) [ inl d ↦ rw d refl | inr d ↦ rw d refl ])
  accept_loop-last last bs delay cancelled (e, o, (c, n), d, q) =
      rw (o, d, is_temporary_lem e c n, q) refl
  accept_loop-last last bs delay (waiting n) h = absurd h

  -- After temporary accept errors (none of a closed listener and none that is unknown), however
  -- many, while the context lives, the loop still waits, with a pause of none before the first,
  -- then of 5 ms doubled with every error up to 1 s; and the next attempt ends it when it gives a
  -- connection, which is returned, an error that is not temporary or comes after the context,
  -- which is returned, or a pause in which the context ends.
  pub accept_with_retry-transient :
      (as' bs : List (Attempt Conn)) (last : Attempt Conn) (r : Accepted Conn)
      → All IsTransient as'
      → IsLast last r
      → (accept_with_retry (as' ++ last ∷ bs) ≡ r)
        × (accept_with_retry as' ≡ waiting (delay_after (length as')))
  unfolding accept_with_retry
  accept_with_retry-transient as' bs last r t h = (
    accept_loop-append as' (last ∷ bs) 0 t ∙ accept_loop-last last bs (schedule (length as') 0) r h,
    ap (accept_loop 0) (sym (append-nil as'))
        ∙ accept_loop-append as' [] 0 t
        ∙ unfold accept_loop in ap waiting (schedule-delay_after (length as')),
  )
