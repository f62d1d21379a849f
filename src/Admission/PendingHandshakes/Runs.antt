-- ===== src/Admission/PendingHandshakes/Runs.antt =====
-- mtglib/pending_handshakes.go: concrete arrivals and releases.
use mtg_multi.Prelude.{false, List, [], ◌∷◌, arith, bytes_key}
use mtg_multi.Prelude.Bytes.{Bytes}
use mtg_multi.Admission.PendingHandshakes.{Pending, Event, arrives, releases, run}
use mtg_multi.Admission.PendingHandshakes.Accounting.{
  IsBalanced, IsLimited, run-IsBalanced, run-IsLimited,
}

abbrev localhost : Bytes
localhost = 127 ∷ 0 ∷ 0 ∷ 1 ∷ []

-- Three arrivals, of which the first calls its release function twice.
abbrev busy : List Event
busy = arrives localhost ∷ arrives localhost ∷ releases 1 ∷ releases 1 ∷ arrives localhost ∷ []

run-IsBalanced_example :
    let h = run 2 false (record { pending = []; slots = [] }) busy in IsBalanced h.pending h.slots
run-IsBalanced_example = run-IsBalanced busy 2 false (omega arith)

run-IsLimited_example : IsLimited 2 (run 2 false (record { pending = []; slots = [] }) busy).slots
run-IsLimited_example = run-IsLimited busy 2 (omega arith) (omega arith)

abbrev full : Pending
full = (localhost, 2) ∷ []
