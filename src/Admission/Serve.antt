-- ===== src/Admission/Serve.antt =====
-- mtglib/proxy.go: the loop of Serve over what acceptWithRetry and the worker pool answer. The lists of
-- addresses are parameters; a connection is its number.
mod Runs
use mtg_multi.Prelude.{
  ℕ, ◌≡◌, refl, sym, ap, ◌∙◌, Bool, true, false, not, ◌&&◌, List, [], ◌∷◌, if◌then◌else◌, if_cases,
  All, Bool-cases, inl, inr,
}
use mtg_multi.Prelude.Bytes.{Bytes}

-- workerPool.Invoke
pub data Invoked : Type 0 where
  invoked pool_closed pool_overload other_error : Invoked

-- What acceptWithRetry returns: a connection from an address, which the pool would answer so, or an
-- error and whether the proxy's context is done.
pub data Arrival : Type 0 where
  accepted : ℕ → Bytes → Invoked → Arrival
  accept_failed : Bool → Arrival

pub data ServeEvent : Type 0 where
  event_ip_allowlisted event_ip_blocklisted : Bytes → ServeEvent
  event_concurrency_limited : ServeEvent

-- `waiting` is no return: the loop waits for the next arrival.
pub data ServeEnd : Type 0 where
  waiting returned_nil returned_error : ServeEnd

pub record Serving : Type 0 where
  pub handed : List ℕ
  pub closed : List ℕ
  pub events : List ServeEvent
  pub end : ServeEnd

abbrev ended : ServeEnd → Serving
ended e = record { handed = []; closed = []; events = []; end = e }

abbrev turned_away : ℕ → ServeEvent → Serving → Serving
turned_away c e r = record r { closed = c ∷ r.closed; events = e ∷ r.events }

-- The switch on the error of Invoke; one of another kind leaves the connection as it is.
pub after_invoke : ℕ → Invoked → Serving → Serving
after_invoke c invoked r = record r { handed = c ∷ r.handed }
after_invoke c pool_closed r = ended returned_nil
after_invoke c pool_overload r = turned_away c event_concurrency_limited r
after_invoke c other_error r = r

module _ (allowed blocked : Bytes → Bool) where
  pub serve : List Arrival → Serving
  serve [] = ended waiting
  serve (accept_failed done ∷ arrivals) = if done then ended returned_nil else ended returned_error
  serve (accepted c ip answer ∷ arrivals) =
      let rest = serve arrivals in
      if not (allowed ip)
      then turned_away c (event_ip_allowlisted ip) rest
      else if blocked ip
      then turned_away c (event_ip_blocklisted ip) rest
      else after_invoke c answer rest

  abbrev is_invoked : Invoked → Bool
  is_invoked invoked = true
  is_invoked _ = false

  -- A connection that the lists let through and the pool takes.
  abbrev pub is_taken : Bytes → Invoked → Bool
  is_taken ip answer = allowed ip && not (blocked ip) && is_invoked answer

  abbrev pub takes : List Arrival → List ℕ
  takes [] = []
  takes (accept_failed done ∷ arrivals) = []
  takes (accepted c ip answer ∷ arrivals) =
      if is_taken ip answer then c ∷ takes arrivals else takes arrivals

  abbrev pub refuses : List Arrival → List ℕ
  refuses [] = []
  refuses (accept_failed done ∷ arrivals) = []
  refuses (accepted c ip answer ∷ arrivals) =
      if is_taken ip answer then refuses arrivals else c ∷ refuses arrivals

  -- The pool takes the connection or is full.
  abbrev pub IsOpen : Arrival → Type 0
  IsOpen (accepted c ip invoked) = true ≡ true
  IsOpen (accepted c ip pool_overload) = true ≡ true
  IsOpen (accepted c ip answer) = true ≡ false
  IsOpen (accept_failed done) = true ≡ true

  invoke_screens :
      (c : ℕ) (ip : Bytes) (answer : Invoked) (arrivals : List Arrival) (r : Serving)
      → IsOpen (accepted c ip answer)
      → r.handed ≡ takes arrivals
      → r.closed ≡ refuses arrivals
      → ((after_invoke c answer r).handed
          ≡ (if is_invoked answer then c ∷ takes arrivals else takes arrivals))
        × ((after_invoke c answer r).closed
            ≡ (if is_invoked answer then refuses arrivals else c ∷ refuses arrivals))
  unfolding after_invoke
  invoke_screens c ip invoked arrivals r v h k = (ap (λ (l : List ℕ). c ∷ l) h, k)
  invoke_screens c ip pool_overload arrivals r v h k = (h, ap (λ (l : List ℕ). c ∷ l) k)
  invoke_screens c ip pool_closed arrivals r v h k = let q : true ≡ false = v in cc
  invoke_screens c ip other_error arrivals r v h k = let q : true ≡ false = v in cc

  -- While the worker pool is open, Serve hands to it exactly the connections whose address the
  -- allowlist contains and the blocklist does not, as far as the pool has room, and closes all the
  -- others, up to an accept error.
  pub serve_screens :
      (arrivals : List Arrival)
      → All IsOpen arrivals
      → ((serve arrivals).handed ≡ takes arrivals) × ((serve arrivals).closed ≡ refuses arrivals)
  unfolding serve after_invoke
  serve_screens [] v = (refl, refl)
  serve_screens (accept_failed true ∷ arrivals) v = (refl, refl)
  serve_screens (accept_failed false ∷ arrivals) v = (refl, refl)
  serve_screens (accepted c ip answer ∷ arrivals) (v, vs) =
      let (h, k) = serve_screens arrivals vs in
      elim (Bool-cases (allowed ip)) [
        | inr e ↦ rw e (h, ap (λ (l : List ℕ). c ∷ l) k)
        | inl e ↦ elim (Bool-cases (blocked ip)) [
          | inl f ↦ rw (e, f) (h, ap (λ (l : List ℕ). c ∷ l) k)
          | inr f ↦ rw (e, f) (invoke_screens c ip answer arrivals (serve arrivals) v h k)
        ]
      ]
