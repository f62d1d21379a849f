-- ===== src/Stats/Throttle/Fair.antt =====
-- computeFairCaps is max-min fair: one share caps exactly the users above it, and what the users
-- may then hold fits the limit and wastes less than one connection for each capped user.
use mtg_multi.Prelude.{
  ℕ, zero, suc, ◌+◌, ◌-◌, ◌*◌, ◌/◌, ◌^◌, ◌≤◌, ◌<◌, ◌≡◌, ◌↔◌, refl, sym, ap, ◌∙◌, inl, inr, true,
  false, [], ◌∷◌, length, leb, leb→le, leb→lt, min, if◌then◌else◌, Bool-cases, arith,
}
use native.Mathlib.Nat.{div-mul-le_self, lt-div-mul-add, le-div_iff_mul-le}
use mtg_multi.Prelude.Bytes.{Bytes}
use mtg_multi.Prelude.Map.{Map}
use mtg_multi.Stats.Throttle.{total, leb_i64, sweep, cap_all, fair_loop, compute_fair_caps}

-- The connections of all users.
abbrev pub sum : Map Bytes ℕ → ℕ
sum [] = 0
sum ((name, conns) ∷ us) = conns + sum us

total-sum : (us : Map Bytes ℕ) → sum us < 2 ^ 64 → total us ≡ sum us
unfolding total
total-sum [] h = refl
total-sum ((n, c) ∷ us) h = omega (arith, total-sum us (omega arith))

leb_i64-leb : (a b : ℕ) → a < 2 ^ 63 → b < 2 ^ 63 → leb_i64 a b ≡ leb a b
leb_i64-leb a b h k = ground arith

-- The users above a share, each with the share for its cap.
pub capped : ℕ → Map Bytes ℕ → Map Bytes ℕ
capped share [] = []
capped share ((name, conns) ∷ us) =
    if leb conns share then capped share us else (name, share) ∷ capped share us

-- What the users may hold together under that share.
pub held : ℕ → Map Bytes ℕ → ℕ
held share [] = 0
held share ((name, conns) ∷ us) = min conns share + held share us

-- What one sweep takes off.
removed : ℕ → Map Bytes ℕ → ℕ
removed share [] = 0
removed share ((name, conns) ∷ us) =
    if leb conns share then conns + removed share us else removed share us

keep : ℕ → Map Bytes ℕ → Map Bytes ℕ
keep share [] = []
keep share ((name, conns) ∷ us) =
    if leb conns share then keep share us else (name, conns) ∷ keep share us

sweep-keep : (s : ℕ) (us : Map Bytes ℕ) (b : ℕ) → (sweep s us b).remaining ≡ keep s us
unfolding sweep keep
sweep-keep s [] b = refl
sweep-keep s ((n, c) ∷ us) b = ground (arith, sweep-keep s us (b - c), sweep-keep s us b)

sweep-budget : (s : ℕ) (us : Map Bytes ℕ) (b : ℕ) → (sweep s us b).budget ≡ b - removed s us
unfolding sweep removed
sweep-budget s [] b = omega arith
sweep-budget s ((n, c) ∷ us) b = ground (arith, sweep-budget s us (b - c), sweep-budget s us b)

-- The money that a sweep takes is at most a share for each user that it removes.
removed_bound : (s : ℕ) (us : Map Bytes ℕ) → removed s us + length (keep s us) * s ≤ length us * s
unfolding removed keep
removed_bound s [] = omega arith
removed_bound s ((n, c) ∷ us) = elim (Bool-cases (leb c s)) [
  | inl e ↦ rw e (omega (arith, removed_bound s us, leb→le c s e))
  | inr e ↦ rw e (omega (arith, removed_bound s us))
]

sum-keep : (s : ℕ) (us : Map Bytes ℕ) → sum us ≡ removed s us + sum (keep s us)
unfolding removed keep
sum-keep s [] = refl
sum-keep s ((n, c) ∷ us) = ground (arith, sum-keep s us)

length-keep_le : (s : ℕ) (us : Map Bytes ℕ) → length (keep s us) ≤ length us
unfolding keep
length-keep_le s [] = omega arith
length-keep_le s ((n, c) ∷ us) = ground (arith, length-keep_le s us)

sweep-changed :
    (s : ℕ) (us : Map Bytes ℕ) (b : ℕ)
    → (sweep s us b).changed ≡ true
    → length (keep s us) < length us
unfolding sweep keep
sweep-changed s [] b h = cc
sweep-changed s ((n, c) ∷ us) b h = elim (Bool-cases (leb c s)) [
  | inl e ↦ rw e (omega (arith, length-keep_le s us))
  | inr e ↦ rw e (omega (arith, sweep-changed s us b (rw e at h)))
]

-- After a sweep that changes nothing all users are above the share.
sweep_unchanged :
    (s : ℕ) (us : Map Bytes ℕ) (b : ℕ)
    → (sweep s us b).changed ≡ false
    → (keep s us ≡ us)
      × (cap_all s us ≡ capped s us)
      × (held s us ≡ length us * s)
      × (length (capped s us) ≡ length us)
unfolding sweep keep cap_all capped held
sweep_unchanged s [] b h = (refl, refl, omega arith, refl)
sweep_unchanged s ((n, c) ∷ us) b h = elim (Bool-cases (leb c s)) [
  | inl e ↦ absurd (cc (rw e at h))
  | inr e ↦
      let (k, caps, all, len) = sweep_unchanged s us b (rw e at h) in
      rw e (ap (◌∷◌ (n, c)) k, ap (◌∷◌ (n, s)) caps, omega (arith, all, leb→lt c s e), ap suc len)
]

-- With a higher share the removed users still have no cap.
capped-keep : (s t : ℕ) (us : Map Bytes ℕ) → s ≤ t → capped t us ≡ capped t (keep s us)
unfolding capped keep
capped-keep s t [] h = refl
capped-keep s t ((n, c) ∷ us) h = ground (arith, capped-keep s t us h)

held-keep : (s t : ℕ) (us : Map Bytes ℕ) → s ≤ t → held t us ≡ removed s us + held t (keep s us)
unfolding held removed keep
held-keep s t [] h = refl
held-keep s t ((n, c) ∷ us) h = ground (arith, held-keep s t us h)

-- What one share achieves for the users: the caps are those of that share, and what is held under
-- it fits the budget and wastes less than one connection for each cap.
abbrev pub IsFair : ℕ → Map Bytes ℕ → ℕ → Map Bytes ℕ → Type 0
IsFair share us budget caps =
    (caps ≡ capped share us) × (held share us ≤ budget) × (budget < held share us + length caps)

abbrev share_of : Map Bytes ℕ → ℕ → ℕ
share_of us b = b / length us

share_times : (us : Map Bytes ℕ) (b : ℕ) → length us * share_of us b ≤ b
share_times us b = omega (arith, div-mul-le_self b (length us))

sum_pos : (us : Map Bytes ℕ) → 0 < sum us → 0 < length us
sum_pos [] h = h
sum_pos (u ∷ us) h = omega arith

removed-le : (us : Map Bytes ℕ) (b : ℕ) → removed (share_of us b) us ≤ b
removed-le us b = omega (arith, removed_bound (share_of us b) us, share_times us b)

-- The share does not fall from one round to the next.
share_grows :
    (us : Map Bytes ℕ) (b : ℕ)
    → let s = share_of us b in 0 < length (keep s us) → s ≤ share_of (keep s us) (b - removed s us)
share_grows us b h =
    (le-div_iff_mul-le h).1 (omega (arith, removed_bound (share_of us b) us, share_times us b))

IsFair-step :
    (us caps : Map Bytes ℕ) (b t : ℕ)
    → let s = share_of us b in
      s ≤ t → IsFair t (keep s us) (b - removed s us) caps → IsFair t us b caps
IsFair-step us caps b t le (c, h, w) =
    let s = share_of us b in
    (
      c ∙ sym (capped-keep s t us le),
      omega (arith, held-keep s t us le, removed-le us b),
      omega (arith, held-keep s t us le, removed-le us b),
    )

IsFair-last :
    (us : Map Bytes ℕ) (b : ℕ)
    → let s = share_of us b in
      0 < length us
      → (sweep s us b).changed ≡ false
      → IsFair s us b (cap_all s (sweep s us b).remaining)
IsFair-last us b pos e =
    let s = share_of us b in
    let (k, caps, all, len) = sweep_unchanged s us b e in
    let c = ap (cap_all s) (sweep-keep s us b ∙ k) ∙ caps in
    (
      c,
      omega (arith, all, share_times us b),
      omega (arith, all, len, ap length c, lt-div-mul-add {a = b} {b = length us} pos),
    )

fair_loop-IsFair :
    (fuel : ℕ) (us : Map Bytes ℕ) (b : ℕ)
    → length us ≤ fuel
    → b < sum us
    → (share : ℕ) × (share_of us b ≤ share) × IsFair share us b (fair_loop fuel us b)
unfolding fair_loop
fair_loop-IsFair fuel [] b f h = absurd (omega arith)
fair_loop-IsFair zero (u ∷ us) b f h = absurd (omega arith)
fair_loop-IsFair (suc fuel) (u ∷ us) b f h =
    let s = share_of (u ∷ us) b in
    elim (Bool-cases (sweep s (u ∷ us) b).changed) [
      | inr e ↦ rw e (s, omega arith, IsFair-last (u ∷ us) b (omega arith) e)
      | inl e ↦
          let less : b - removed s (u ∷ us) < sum (keep s (u ∷ us)) =
            omega (arith, sum-keep s (u ∷ us), removed-le (u ∷ us) b) in
          let (t, up, fair) =
            fair_loop-IsFair fuel (keep s (u ∷ us)) (b - removed s (u ∷ us))
              (omega (arith, sweep-changed s (u ∷ us) b e)) less in
          let le = share_grows (u ∷ us) b (sum_pos (keep s (u ∷ us)) (omega arith)) in
          rw (e, sweep-keep s (u ∷ us) b, sweep-budget s (u ∷ us) b)
            (t, omega arith, IsFair-step (u ∷ us) _ b t (omega arith) fair)
    ]

-- When the connections exceed the limit and their sum is below 2^63, the computed caps are those
-- of one share: exactly the users above it are capped, what all may hold under it fits the limit,
-- and less than one connection for each cap is wasted.
pub compute_fair_caps-IsFair :
    (us : Map Bytes ℕ) (limit : ℕ)
    → limit < sum us
    → sum us < 2 ^ 63
    → (share : ℕ) × IsFair share us limit (compute_fair_caps us limit)
unfolding compute_fair_caps
compute_fair_caps-IsFair us limit h small =
    let (t, _, fair) = fair_loop-IsFair (length us) us limit (omega arith) h in
    rw
      (
        total-sum us (omega arith),
        leb_i64-leb (sum us) limit small (omega arith),
        above (sum us) limit h,
      )
      (t, fair)
  where
    above : (n m : ℕ) → m < n → leb n m ≡ false
    above n m k = ground arith

compute_fair_caps_idle :
    (us : Map Bytes ℕ) (limit : ℕ)
    → sum us < 2 ^ 63
    → limit < 2 ^ 63
    → leb (sum us) limit ≡ true
    → compute_fair_caps us limit ≡ []
unfolding compute_fair_caps
compute_fair_caps_idle us limit small k e =
    rw (total-sum us (omega arith), leb_i64-leb (sum us) limit small k, e)

-- The throttle caps somebody exactly when the connections exceed the limit.
pub compute_fair_caps_active :
    (us : Map Bytes ℕ) (limit : ℕ)
    → sum us < 2 ^ 63
    → limit < 2 ^ 63
    → (0 < length (compute_fair_caps us limit)) ↔ (limit < sum us)
compute_fair_caps_active us limit small k = (active, needed)
  where
    needed : limit < sum us → 0 < length (compute_fair_caps us limit)
    needed h = let (t, f) = compute_fair_caps-IsFair us limit h small in omega (arith, f.1, f.2)

    active : 0 < length (compute_fair_caps us limit) → limit < sum us
    active h = elim (Bool-cases (leb (sum us) limit)) [
      | inl e ↦ absurd (omega (arith, ap length (compute_fair_caps_idle us limit small k e)))
      | inr e ↦ leb→lt (sum us) limit e
    ]
