-- ===== src/Metrics/Changes.antt =====
-- stats/prometheus.go: the handlers of an open stream keep the gauges right.
use mtg_multi.Prelude.{
  ◌+◌, ◌≡◌, refl, sym, ap, ◌∙◌, Bool, true, false, not, ◌&&◌, Option, none, some, if◌then◌else◌,
  bytes_key, arith,
}
use mtg_multi.Prelude.Bytes.{Bytes}
use mtg_multi.Prelude.Map.{lookup, erase, insert-IsDistinct}
use mtg_multi.Prelude.Ints.{pos}
use mtg_multi.Metrics.{
  Family, Label, StreamInfo, domain_fronting, client_connections, telegram_connections,
  domain_fronting_connections, label_beq, same_series, Metrics, add_to, inc, dec, Processor,
  event_connected, event_domain_fronting, dec_telegram, event_finish,
}
use mtg_multi.Metrics.Counts.{one_if, open_count, erase-IsDistinct, count-insert_same, count-erase}
use mtg_multi.Metrics.Gauges.{
  has_family, is_fronted, has_label, is_connected, IsCounted, inc_lem, dec_lem, count-insert_kept,
}

module _ (id : Bytes) (info : StreamInfo) (p : Processor)
    (open_stream : lookup id p.streams ≡ some info) (c : IsCounted p) where
  pub connected-IsCounted :
      (l : Label)
      → info.telegram ≡ none
      → info.is_domain_fronted ≡ false
      → IsCounted (event_connected id l (some info) p)
  unfolding event_connected add_to
  connected-IsCounted l untagged direct =
      let next : StreamInfo = record info { telegram = some l } in
      record {
        distinct = insert-IsDistinct id next p.streams c.distinct;
        client = λ f.
            c.client f
            ∙ ap pos (count-insert_kept (has_family f) id next info p.streams open_stream refl);
        fronting = λ f.
            c.fronting f
            ∙ ap pos (count-insert_kept (is_fronted f) id next info p.streams open_stream refl);
        telegram = λ k.
            let was : is_connected k info ≡ false =
              ap (λ t. not info.is_domain_fronted && has_label k t) untagged
              ∙ ap (λ b. not b && false) direct in
            let is : is_connected k next ≡ label_beq l k =
              ap (λ b. not b && label_beq l k) direct in
            unfold same_series in
            inc_lem (telegram_connections l) (telegram_connections k) p.metrics _ _ (c.telegram k) (
              omega (
                arith,
                count-insert_same (is_connected k) id next info p.streams open_stream,
                ap one_if was,
                ap one_if is,
              ));
      }

  pub fronted-IsCounted :
      info.telegram ≡ none
      → info.is_domain_fronted ≡ false
      → IsCounted (event_domain_fronting id (some info) p)
  unfolding event_domain_fronting add_to
  fronted-IsCounted untagged direct =
      let next : StreamInfo = record info { is_domain_fronted = true } in
      record {
        distinct = insert-IsDistinct id next p.streams c.distinct;
        client = λ f.
            c.client f
            ∙ ap pos (count-insert_kept (has_family f) id next info p.streams open_stream refl);
        fronting = λ f.
            let was : is_fronted f info ≡ false = ap (λ b. b && has_family f info) direct in
            unfold same_series in
            inc_lem (domain_fronting_connections info.ip_family) (domain_fronting_connections f)
              (inc domain_fronting p.metrics) _ _ (c.fronting f)
              (omega (
                arith,
                count-insert_same (is_fronted f) id next info p.streams open_stream,
                ap one_if was,
              ));
        telegram = λ k.
            let was : is_connected k info ≡ false =
              ap (λ t. not info.is_domain_fronted && has_label k t) untagged
              ∙ ap (λ b. not b && false) direct in
            c.telegram k
            ∙ ap pos
                (count-insert_kept (is_connected k) id next info p.streams open_stream (sym was));
      }

  -- The stream is gone from a open_count that its series leaves.
  finished :
      (q : StreamInfo → Bool)
      → open_count q (erase id p.streams) + one_if (q info) ≡ open_count q p.streams
  finished q = count-erase q id info p.streams c.distinct open_stream

  unseen :
      (q : StreamInfo → Bool)
      → q info ≡ false
      → open_count q p.streams ≡ open_count q (erase id p.streams)
  unseen q no_part = omega (arith, finished q, ap one_if no_part)

  abbrev left : Metrics
  left = dec (client_connections info.ip_family) p.metrics

  left-client :
      (f : Family)
      → left (client_connections f) ≡ pos (open_count (has_family f) (erase id p.streams))
  left-client f =
      dec_lem (client_connections info.ip_family) (client_connections f) p.metrics _ _ (c.client f)
        (unfold same_series in finished (has_family f))

  finish-IsCounted_by :
      (b : Bool) (t : Option Label)
      → info.is_domain_fronted ≡ b
      → info.telegram ≡ t
      → IsCounted (record {
        streams = erase id p.streams;
        metrics =
            if b
            then dec (domain_fronting_connections info.ip_family) left
            else dec_telegram t left;
      })
  unfolding add_to same_series
  finish-IsCounted_by true t e et = record {
    distinct = erase-IsDistinct id p.streams c.distinct;
    client = left-client;
    fronting = λ f.
        dec_lem (domain_fronting_connections info.ip_family) (domain_fronting_connections f) left _
          _ (c.fronting f)
          (omega (arith, finished (is_fronted f), ap (λ x. one_if (x && has_family f info)) e));
    telegram = λ l.
        c.telegram l
        ∙ ap pos (unseen (is_connected l) (ap (λ x. not x && has_label l info.telegram) e));
  }
  finish-IsCounted_by false none e et = record {
    distinct = erase-IsDistinct id p.streams c.distinct;
    client = left-client;
    fronting =
        λ f. c.fronting f ∙ ap pos (unseen (is_fronted f) (ap (λ x. x && has_family f info) e));
    telegram = λ l.
        c.telegram l
        ∙ ap pos (
            unseen (is_connected l)
              (ap (λ x. not x && has_label l info.telegram) e ∙ ap (λ x. has_label l x) et));
  }
  finish-IsCounted_by false (some k) e et = record {
    distinct = erase-IsDistinct id p.streams c.distinct;
    client = left-client;
    fronting =
        λ f. c.fronting f ∙ ap pos (unseen (is_fronted f) (ap (λ x. x && has_family f info) e));
    telegram = λ l.
        dec_lem (telegram_connections k) (telegram_connections l) left _ _ (c.telegram l) (
          omega (
            arith,
            finished (is_connected l),
            ap one_if (ap (λ x. not x && has_label l info.telegram) e ∙ ap (λ x. has_label l x) et),
          ));
  }

  pub finish-IsCounted : IsCounted (event_finish id (some info) p)
  unfolding event_finish
  finish-IsCounted = finish-IsCounted_by info.is_domain_fronted info.telegram refl refl
