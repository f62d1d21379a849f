-- ===== src/Metrics/Gauges.antt =====
-- stats/prometheus.go: the gauges open_count the streams that are open.
use mtg_multi.Prelude.{
  ℕ, ◌+◌, ◌≡◌, sym, ap, ◌∙◌, Bool, false, not, ◌&&◌, Option, none, some, List, [], ◌∷◌, bytes_key,
  Bool-cases, inl, inr, arith,
}
use mtg_multi.Prelude.Bytes.{Bytes}
use mtg_multi.Prelude.Map.{lookup, insert, IsDistinct, insert-IsDistinct}
use mtg_multi.Prelude.Ints.{pos, ◌+ℤ◌}
use mtg_multi.Metrics.{
  Family, Event, start, connected_to_dc, domain_fronting_of, Label, StreamInfo, Streams, Series,
  client_connections, telegram_connections, domain_fronting_connections, family_beq, label_beq,
  same_series, Metrics, add_to, inc, dec, Processor, family_of, new_info, event_start, step,
}
use mtg_multi.Metrics.Counts.{one_if, open_count, count-insert_new, count-insert_same}

abbrev pub has_family : Family → StreamInfo → Bool
has_family f info = family_beq info.ip_family f

abbrev pub is_fronted : Family → StreamInfo → Bool
is_fronted f info = info.is_domain_fronted && has_family f info

abbrev pub has_label : Label → Option Label → Bool
has_label l none = false
has_label l (some k) = label_beq k l

abbrev pub is_connected : Label → StreamInfo → Bool
is_connected l info = not info.is_domain_fronted && has_label l info.telegram

-- Each gauge is the number of the open streams that it stands for.
pub record IsCounted (p : Processor) : Type 0 where
  pub distinct : IsDistinct p.streams
  pub client :
      (f : Family) → p.metrics (client_connections f) ≡ pos (open_count (has_family f) p.streams)
  pub fronting :
      (f : Family)
      → p.metrics (domain_fronting_connections f) ≡ pos (open_count (is_fronted f) p.streams)
  pub telegram :
      (l : Label) → p.metrics (telegram_connections l) ≡ pos (open_count (is_connected l) p.streams)

-- A stream that is neither connected nor fronted yet.
abbrev pub IsFresh : Option StreamInfo → Type 0
IsFresh none = Unit {0}
IsFresh (some info) = (info.telegram ≡ none) × (info.is_domain_fronted ≡ false)

-- What the proxy sends: a stream starts once, and is connected or fronted once at most.
abbrev pub IsSent : Event → Processor → Type 0
IsSent (start id to4) p = lookup id p.streams ≡ none
IsSent (connected_to_dc id ip dc) p = IsFresh (lookup id p.streams)
IsSent (domain_fronting_of id) p = IsFresh (lookup id p.streams)
IsSent _ p = Unit {0}

abbrev pub IsProtocol : List Event → Processor → Type 0
IsProtocol [] p = Unit {0}
IsProtocol (e ∷ events) p = IsSent e p × IsProtocol events (step e p)

pub inc_lem :
    (s s' : Series) (m : Metrics) (n k : ℕ)
    → m s' ≡ pos n
    → k ≡ one_if (same_series s s') + n
    → inc s m s' ≡ pos k
unfolding add_to ◌+ℤ◌
inc_lem s s' m n k h e = elim (Bool-cases (same_series s s')) [
  | inl same ↦
      (let more : k ≡ 1 + n = e ∙ ap (λ b. one_if b + n) same in
        rw (same, h) (ground (arith, more)))
  | inr other ↦
      (let as_before : k ≡ 0 + n = e ∙ ap (λ b. one_if b + n) other in
        rw other (h ∙ ap pos (omega arith)))
]

pub dec_lem :
    (s s' : Series) (m : Metrics) (n k : ℕ)
    → m s' ≡ pos n
    → k + one_if (same_series s s') ≡ n
    → dec s m s' ≡ pos k
unfolding add_to ◌+ℤ◌
dec_lem s s' m n k h e = elim (Bool-cases (same_series s s')) [
  | inl same ↦
      (let less : k + 1 ≡ n = sym (ap (λ b. k + one_if b) same) ∙ e in
        rw (same, h) (ground (arith, less)))
  | inr other ↦
      (let as_before : k + 0 ≡ n = sym (ap (λ b. k + one_if b) other) ∙ e in
        rw other (h ∙ ap pos (omega arith)))
]

-- A open_count that a change of one entry leaves as it was.
pub count-insert_kept :
    (p : StreamInfo → Bool) (k : Bytes) (info old : StreamInfo) (m : Streams)
    → lookup k m ≡ some old
    → p info ≡ p old
    → open_count p m ≡ open_count p (insert k info m)
count-insert_kept p k info old m h same =
    omega (arith, count-insert_same p k info old m h, ap one_if same)

pub event_start-IsCounted :
    (id : Bytes) (to4 : Bool) (p : Processor)
    → lookup id p.streams ≡ none
    → IsCounted p
    → IsCounted (event_start id to4 p)
unfolding event_start add_to
event_start-IsCounted id to4 p fresh c = record {
  distinct = insert-IsDistinct id (new_info to4) p.streams c.distinct;
  client = λ f.
      unfold same_series in
      inc_lem (client_connections (family_of to4)) (client_connections f) p.metrics _ _ (c.client f)
        (count-insert_new (has_family f) id (new_info to4) p.streams fresh);
  fronting = λ f.
      c.fronting f
      ∙ ap pos
          (sym (count-insert_new (is_fronted f) id (new_info to4) p.streams fresh ∙ omega arith));
  telegram = λ l.
      c.telegram l
      ∙ ap pos
          (sym (count-insert_new (is_connected l) id (new_info to4) p.streams fresh ∙ omega arith));
}
