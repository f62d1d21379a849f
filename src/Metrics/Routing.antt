-- ===== src/Metrics/Routing.antt =====
-- events/event_stream.go: the channels that events go through, and the observer behind each. The hash
-- of a stream's id and the random numbers are parameters; a channel hands on what it takes in order.
use mtg_multi.Prelude.{
  ℕ, ◌%◌, ◌≡◌, refl, sym, ap, ◌∙◌, Bool, true, false, not, ◌&&◌, List, [], ◌∷◌, ◌==◌, if◌then◌else◌,
  bytes_eq, bytes_eq_iff, Bool-cases, inl, inr,
}
use mtg_multi.Prelude.Bytes.{Bytes}
use mtg_multi.Metrics.{
  Event, start, connected_to_dc, domain_fronting_of, traffic, finish, concurrency_limited_at,
  ip_listed, replay_attack, pending_limit, throttled, ip_list_size,
}

-- StreamID of an event; those of no stream have an empty one.
abbrev pub stream_id : Event → Bytes
stream_id (start id to4) = id
stream_id (connected_to_dc id ip dc) = id
stream_id (domain_fronting_of id) = id
stream_id (traffic id n is_read) = id
stream_id (finish id) = id
stream_id concurrency_limited_at = []
stream_id (ip_listed is_block) = []
stream_id (replay_attack id) = id
stream_id (pending_limit id action) = id
stream_id (throttled id) = id
stream_id (ip_list_size n is_block) = []

abbrev pub is_no_id : Bytes → Bool
is_no_id [] = true
is_no_id (_ ∷ _) = false

-- An event that is sent, with the number that is drawn if it has no stream, and whether the channel
-- took it and its processor received it before a context was done.
abbrev pub Sending : Type 0
Sending = Event × ℕ × Bool

-- The switch of eventStreamProcessor has a case for the event.
abbrev pub is_handled : Event → Bool
is_handled (start id to4) = true
is_handled (connected_to_dc id ip dc) = true
is_handled (domain_fronting_of id) = true
is_handled (traffic id n is_read) = true
is_handled (finish id) = true
is_handled concurrency_limited_at = true
is_handled (ip_listed is_block) = true
is_handled (replay_attack id) = true
is_handled (pending_limit id action) = true
is_handled (throttled id) = false
is_handled (ip_list_size n is_block) = true

abbrev pub is_throttled : Event → Bool
is_throttled (throttled id) = true
is_throttled _ = false

handled_lem : (e : Event) → is_handled e ≡ not (is_throttled e)
handled_lem (start id to4) = refl
handled_lem (connected_to_dc id ip dc) = refl
handled_lem (domain_fronting_of id) = refl
handled_lem (traffic id n is_read) = refl
handled_lem (finish id) = refl
handled_lem concurrency_limited_at = refl
handled_lem (ip_listed is_block) = refl
handled_lem (replay_attack id) = refl
handled_lem (pending_limit id action) = refl
handled_lem (throttled id) = refl
handled_lem (ip_list_size n is_block) = refl

-- The event is about the stream.
abbrev pub is_about : Bytes → Event → Bool
is_about id (start j to4) = bytes_eq j id
is_about id (connected_to_dc j ip dc) = bytes_eq j id
is_about id (domain_fronting_of j) = bytes_eq j id
is_about id (traffic j n is_read) = bytes_eq j id
is_about id (finish j) = bytes_eq j id
is_about id (replay_attack j) = bytes_eq j id
is_about id (pending_limit j action) = bytes_eq j id
is_about id (throttled j) = bytes_eq j id
is_about id concurrency_limited_at = false
is_about id (ip_listed is_block) = false
is_about id (ip_list_size n is_block) = false

no_stream : (id : Bytes) → is_no_id id ≡ false → false ≡ bytes_eq [] id
no_stream [] e = absurd (cc)
no_stream (b ∷ id) e = refl

is_about_lem :
    (id : Bytes) (e : Event) → is_no_id id ≡ false → is_about id e ≡ bytes_eq (stream_id e) id
is_about_lem id (start j to4) h = refl
is_about_lem id (connected_to_dc j ip dc) h = refl
is_about_lem id (domain_fronting_of j) h = refl
is_about_lem id (traffic j n is_read) h = refl
is_about_lem id (finish j) h = refl
is_about_lem id (replay_attack j) h = refl
is_about_lem id (pending_limit j action) h = refl
is_about_lem id (throttled j) h = refl
is_about_lem id concurrency_limited_at h = no_stream id h
is_about_lem id (ip_listed is_block) h = no_stream id h
is_about_lem id (ip_list_size n is_block) h = no_stream id h

-- The events of one stream, in order.
pub of_stream : Bytes → List Event → List Event
of_stream id [] = []
of_stream id (e ∷ events) =
    let rest = of_stream id events in if is_about id e then e ∷ rest else rest

-- The events that were received, but for EventThrottled, which no observer is called for.
pub received : List Sending → List Event
received [] = []
received ((e, random, taken) ∷ sent) =
    let rest = received sent in if taken && not (is_throttled e) then e ∷ rest else rest

module _ (hash : Bytes → ℕ) (chans : ℕ) where
  -- Send: the number of the channel.
  pub chan_no : Event → ℕ → ℕ
  chan_no e random = (if is_no_id (stream_id e) then random else hash (stream_id e)) % chans

  -- What the observer of a channel gets to see.
  pub observed : ℕ → List Sending → List Event
  unfolding chan_no
  observed k [] = []
  observed k ((e, random, taken) ∷ sent) =
      let rest = observed k sent in
      if taken && is_handled e then if chan_no e random == k then e ∷ rest else rest else rest

  abbrev chosen : Bytes → List Sending → Bool → List Event
  chosen id sent here = if here then of_stream id (received sent) else []

  chan_no-hash :
      (id : Bytes) (e : Event) (random : ℕ)
      → is_no_id id ≡ false
      → bytes_eq (stream_id e) id ≡ true
      → chan_no e random ≡ hash id % chans
  unfolding chan_no
  chan_no-hash id e random some_id same =
      let is : stream_id e ≡ id = (bytes_eq_iff (stream_id e) id).0 same in
      ap (λ i. (if is_no_id i then random else hash i) % chans) is
      ∙ ap (λ b. (if b then random else hash id) % chans) some_id

  -- The observer of the channel that the hash of a stream picks is called for all the events of
  -- that stream that were received before a context was done, but for EventThrottled, which it has
  -- no method for, in the order in which they were sent, and every other observer for none of
  -- them.
  pub of_stream-observed :
      (id : Bytes) (k : ℕ) (sent : List Sending)
      → is_no_id id ≡ false
      → of_stream id (observed k sent)
        ≡ (if (hash id % chans) == k then of_stream id (received sent) else [])
  unfolding observed of_stream received
  of_stream-observed id k [] some_id = elim (Bool-cases ((hash id % chans) == k)) [
    | inl e ↦ rw e
    | inr e ↦ rw e
  ]
  of_stream-observed id k ((e, random, taken) ∷ sent) some_id =
      let ih = of_stream-observed id k sent some_id in
      rw (sym (handled_lem e)) (elim (Bool-cases (taken && is_handled e)) [
        | inr lost ↦ rw lost ih
        | inl kept ↦ rw kept (elim (Bool-cases (is_about id e)) [
          | inl mine ↦
              rw (chan_no-hash id e random some_id (sym (is_about_lem id e some_id) ∙ mine))
                (elim (Bool-cases ((hash id % chans) == k)) [
                  | inl here ↦
                      rw (here, mine) (ap (λ rest. e ∷ rest) (ih ∙ ap (chosen id sent) here))
                  | inr there ↦ rw there (ih ∙ ap (chosen id sent) there)
                ])
          | inr other ↦ elim (Bool-cases (chan_no e random == k)) [
            | inl here ↦ rw (here, other) ih
            | inr there ↦ rw (there, other) ih
          ]
        ])
      ])
