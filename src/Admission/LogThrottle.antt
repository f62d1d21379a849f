-- ===== src/Admission/LogThrottle.antt =====
-- internal/logthrottle/logthrottle.go. An instant is a number, 0 for the zero time; a call holds the
-- mutex, and `now` is what the clock says in it.
use mtg_multi.Prelude.{
  ℕ, suc, ◌+◌, ◌≤◌, ◌<◌, ◌≡◌, Bool, true, false, not, ◌&&◌, List, [], ◌∷◌, length, ltb, ◌==◌,
  if◌then◌else◌, arith,
}

pub record Throttle : Type 0 where
  pub interval : ℕ
  pub last : ℕ
  pub suppressed : ℕ

pub new : ℕ → Throttle
new interval = record { interval = interval; last = 0; suppressed = 0 }

-- The state, whether the message may be written, and how many were suppressed before it.
-- `now.Sub(last) < interval` is written without a difference.
unfoldable pub allow : Throttle → ℕ → Throttle × Bool × ℕ
allow t now =
    if not (t.last == 0) && ltb now (t.last + t.interval)
    then (record t { suppressed = t.suppressed + 1 }, false, 0)
    else (record t { last = now; suppressed = 0 }, true, t.suppressed)

-- Many calls: the final state, the messages written and the numbers reported with them.
pub record Log : Type 0 where
  pub throttle : Throttle
  pub written : ℕ
  pub reported : ℕ

abbrev logged : Log → Throttle × Bool × ℕ → Log
logged l r = record {
  throttle = r.0;
  written = if r.1 then l.written + 1 else l.written;
  reported = l.reported + r.2;
}

pub calls : Log → List ℕ → Log
calls l [] = l
calls l (now ∷ ns) = calls (logged l (allow l.throttle now)) ns

calls_from :
    (ns : List ℕ) (l : Log)
    → let m = calls l ns in
      m.written + m.reported + m.throttle.suppressed
      ≡ l.written + l.reported + l.throttle.suppressed + length ns
unfolding calls
calls_from [] l = omega arith
calls_from (now ∷ ns) l = omega (arith, calls_from ns (logged l (allow l.throttle now)), one)
  where
    one :
        let m = logged l (allow l.throttle now) in
        m.written + m.reported + m.throttle.suppressed
        ≡ suc (l.written + l.reported + l.throttle.suppressed)
    one = unfold allow in ground arith

-- No message is lost from the count: over any calls of Allow, each one is written, or reported as
-- suppressed with a later message, or still counted.
pub calls_account :
    (ns : List ℕ) (interval : ℕ)
    → let m = calls (record { throttle = new interval; written = 0; reported = 0 }) ns in
      m.written + m.reported + m.throttle.suppressed ≡ length ns
unfolding new
calls_account ns interval =
    omega (arith, calls_from ns (record { throttle = new interval; written = 0; reported = 0 }))

-- Of two calls in a row that are both allowed, the first not at the zero time, the second is at
-- least an interval later.
pub allow_spacing :
    (t : Throttle) (now later : ℕ)
    → 0 < now
    → (allow t now).1 ≡ true
    → (allow (allow t now).0 later).1 ≡ true
    → now + t.interval ≤ later
unfolding allow
allow_spacing t now later pos h k = ground arith
