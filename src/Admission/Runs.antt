-- ===== src/Admission/Runs.antt =====
-- internal/logthrottle and internal/acceptretry on concrete calls.
use mtg_multi.Prelude.{ℕ, ◌≡◌, refl, true, false, inl, inr, [], ◌∷◌}
use mtg_multi.Admission.LogThrottle.{Throttle, allow}
use mtg_multi.Admission.AcceptRetry.{
  emfile, Attempt, accepted, waiting, accept_with_retry, IsTemporary, accept_with_retry-transient,
}

abbrev quiet : Throttle
quiet = record { interval = 10; last = 0; suppressed = 0 }

first-allowed : (allow quiet 5).1 ≡ true
unfolding allow
first-allowed = refl

second-allowed : (allow (allow quiet 5).0 15).1 ≡ true
unfolding allow
second-allowed = refl

abbrev out_of_files : Attempt ℕ
out_of_files = record { outcome = inr emfile; ctx_done = false; ctx_done_in_pause = false }

abbrev connected : Attempt ℕ
connected = record { outcome = inl 7; ctx_done = false; ctx_done_in_pause = false }

emfile-IsTemporary : IsTemporary emfile
emfile-IsTemporary = ((λ e. cc), (λ e. cc))

accept_with_retry-transient_example :
    (accept_with_retry (out_of_files ∷ out_of_files ∷ connected ∷ []) ≡ accepted 7)
    × (accept_with_retry (out_of_files ∷ out_of_files ∷ []) ≡ waiting 10_000_000)
accept_with_retry-transient_example =
    accept_with_retry-transient (out_of_files ∷ out_of_files ∷ []) [] connected (accepted 7)
      (
        (emfile, refl, emfile-IsTemporary, refl, refl),
        ((emfile, refl, emfile-IsTemporary, refl, refl), tt),
      )
      refl
