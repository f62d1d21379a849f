-- ===== src/Stats/Throttle.antt =====
-- mtglib/proxy_stats.go: computeFairCaps. A map is the list of its entries, in the order in which
-- it is ranged over; connection counts are not negative.
pub mod Fair
use mtg_multi.Prelude.{
  ℕ, zero, suc, ◌+◌, ◌-◌, ◌/◌, ◌%◌, ◌^◌, Bool, true, false, List, [], ◌∷◌, length, leb,
  if◌then◌else◌,
}
use mtg_multi.Prelude.Bytes.{Bytes}
use mtg_multi.Prelude.Map.{Map}

-- The sum of int64 values, which wraps, and `<=` of them.
unfoldable pub total : Map Bytes ℕ → ℕ
total [] = 0
total ((name, conns) ∷ us) = (conns + total us) % 2 ^ 64

abbrev pub leb_i64 : ℕ → ℕ → Bool
leb_i64 a b = leb ((a + 2 ^ 63) % 2 ^ 64) ((b + 2 ^ 63) % 2 ^ 64)

-- The state of one round: what is left of the budget and of the users, and whether any left.
pub record Round : Type 0 where
  pub budget : ℕ
  pub remaining : Map Bytes ℕ
  pub changed : Bool

-- The `for name, conns := range remaining` of one round.
pub sweep : ℕ → Map Bytes ℕ → ℕ → Round
sweep fair_share [] budget = record { budget = budget; remaining = []; changed = false }
sweep fair_share ((name, conns) ∷ us) budget =
    let after = sweep fair_share us (if leb conns fair_share then budget - conns else budget) in
    if leb conns fair_share
    then record after { changed = true }
    else record after { remaining = (name, conns) ∷ after.remaining }

-- The caps when a round changes nothing.
pub cap_all : ℕ → Map Bytes ℕ → Map Bytes ℕ
cap_all fair_share [] = []
cap_all fair_share ((name, conns) ∷ us) = (name, fair_share) ∷ cap_all fair_share us

-- The `for len(remaining) > 0`. A round that changes something removes a user, so as many rounds as
-- there are users suffice.
pub fair_loop : ℕ → Map Bytes ℕ → ℕ → Map Bytes ℕ
fair_loop zero remaining budget = []
fair_loop (suc fuel) [] budget = []
fair_loop (suc fuel) (u ∷ us) budget =
    let fair_share = budget / length (u ∷ us) in
    let round = sweep fair_share (u ∷ us) budget in
    let rest = fair_loop fuel round.remaining round.budget in
    if round.changed then rest else cap_all fair_share round.remaining

unfoldable pub compute_fair_caps : Map Bytes ℕ → ℕ → Map Bytes ℕ
unfolding total sweep cap_all fair_loop
compute_fair_caps user_conns limit =
    if leb_i64 (total user_conns) limit then [] else fair_loop (length user_conns) user_conns limit
