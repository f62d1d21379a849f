-- ===== src/Api/Answers.antt =====
-- mtglib/proxy_api.go: what the handlers do to a served set.
use mtg_multi.Prelude.{
  ℕ, ◌≡◌, ◌≢◌, refl, sym, ap, ◌∙◌, Bool, true, false, not, ◌||◌, Option, none, some, List, [], ◌∷◌,
  length, ◌==◌, if◌then◌else◌, if_cases, bytes_eq, bytes_eq_iff, bytes_key, Fallible, err, ok,
  arith,
}
use mtg_multi.Prelude.Bytes.{Bytes, text}
use mtg_multi.Secrets.{Secret, SecretLimits, SecretConfig, build_secret_set}
use mtg_multi.Prelude.Map.{lookup}
use mtg_multi.Stats.{entry}
use mtg_multi.Stats.Counters.{lookup-reset_quota}
use mtg_multi.Secrets.Snapshot.{IsSort, mem}
use mtg_multi.Secrets.Swap.{
  Proxy, Swapped, swapped, refused, panicked, SecretError, secret_invalid, secret_not_found,
  last_secret, reloader_not_configured, reload_failed, all_valid, swap_secret_config,
  reload_secrets, swap_to,
}
use mtg_multi.Secrets.Swap.Changes.{Change, put, delete, set_tag}
use mtg_multi.Secrets.Swap.Refines.{IsServed, IsOutcome, run_change-refines}
use mtg_multi.Api.Requests.{
  ApiError, mutation, Body, failure, plain, answer, aborted, SecretEntry, PutSecrets, Request,
  get_stats, get_secrets, get_ad_tag, delete_ad_tag, reload, put_secrets, post_secret, delete_named,
  reset_named, put_global_tag, Handled, secret_mutation_status, respond, unchanged, has_secret,
  Codecs, parse_entry, parse_put_secrets, parse_put_ad_tag, on_reload, reload_handler, replace,
  posted, handle_delete_secret, handle_reset_quota, tagged, handle_delete_ad_tag,
}

has_secret-mem : (name : Bytes) (names : List Bytes) → has_secret name names ≡ mem name names
unfolding has_secret
has_secret-mem name [] = refl
has_secret-mem name (n ∷ names) = ap (λ b. bytes_eq n name || b) (has_secret-mem name names)

module _ {ℓ} {M : Type ℓ} (c : Codecs) (sort_strings : List Bytes → List Bytes)
    (same_month : M → M → Bool) (month_of : ℕ → M) (now : ℕ)
    (reloader : Option (Option SecretConfig)) where
  -- The set is the one of a configuration with valid secrets, at least one.
  abbrev pub IsReplaced : SecretConfig → Proxy → Type 0
  IsReplaced cfg p' =
      (p'.secrets ≡ build_secret_set sort_strings cfg)
      × (all_valid cfg.secrets ≡ true)
      × ((length cfg.secrets == 0) ≡ false)

  abbrev pub Outcome : Change → Proxy → Swapped → Type 0
  Outcome change p r = IsOutcome sort_strings same_month month_of now change p r

  -- What a request that is answered with 200 has done.
  abbrev pub IsDone : Request → Proxy → Proxy → List ℕ → Type 0
  IsDone (post_secret (some (name, e))) p p' closed =
      (s : Secret) × (tag : Option Bytes) × (l : SecretLimits) × (parse_entry c e ≡ ok (s, tag, l))
      × Outcome (put name s tag (some l)) p (swapped p' closed)
  IsDone (delete_named name) p p' closed = Outcome (delete name) p (swapped p' closed)
  IsDone (put_global_tag (some b)) p p' closed =
      (tag : Bytes) × (parse_put_ad_tag c b ≡ ok tag)
      × Outcome (set_tag (some tag)) p (swapped p' closed)
  IsDone delete_ad_tag p p' closed = Outcome (set_tag none) p (swapped p' closed)
  IsDone (put_secrets (some req)) p p' closed =
      (cfg : SecretConfig) × (parse_put_secrets c req ≡ ok cfg) × IsReplaced cfg p'
  IsDone (reload method) p p' closed =
      (cfg : SecretConfig) × (method ≡ text "POST")
      × (reloader ≡ some (some cfg))
      × IsReplaced cfg p'
  IsDone (reset_named name) p p' closed =
      (mem name p.secrets.names ≡ true)
      × (p'.secrets ≡ p.secrets)
      × (p'.live_conns ≡ p.live_conns)
      × (closed ≡ [])
      × ((j : Bytes)
          → lookup j p'.stats.users ≡ (
              if bytes_eq name j
              then some record (entry p.stats name) { quota_used = 0; period_start = now }
              else lookup j p.stats.users))
  IsDone (post_secret none) p p' closed = ⊥
  IsDone (put_global_tag none) p p' closed = ⊥
  IsDone (put_secrets none) p p' closed = ⊥
  IsDone get_stats p p' closed = (p' ≡ p) × (closed ≡ [])
  IsDone get_secrets p p' closed = (p' ≡ p) × (closed ≡ [])
  IsDone get_ad_tag p p' closed = (p' ≡ p) × (closed ≡ [])

  -- A request is done and answered with 200, or leaves everything as it is; it does not panic.
  abbrev pub IsAnswered : Request → Proxy → Handled → Type 0
  IsAnswered req p (p', closed, aborted) = ⊥
  IsAnswered req p (p', closed, answer status body) =
      (status ≡ 200 → IsDone req p p' closed) × (status ≢ 200 → (p' ≡ p) × (closed ≡ []))

  pub failed :
      (req : Request) (p : Proxy) (status : ℕ) (body : Body)
      → (status == 200) ≡ false
      → IsAnswered req p (unchanged p status body)
  failed req p status body other = ((λ e. absurd (ground (arith, other, e))), (λ n. (refl, refl)))

  mutation_failed : (e : SecretError) → (secret_mutation_status e == 200) ≡ false
  unfolding secret_mutation_status
  mutation_failed secret_invalid = refl
  mutation_failed secret_not_found = refl
  mutation_failed last_secret = refl
  mutation_failed reloader_not_configured = refl
  mutation_failed reload_failed = refl

  -- A change that comes out as it should is answered as it should.
  respond-IsAnswered :
      (req : Request) (change : Change) (p : Proxy) (r : Swapped)
      → ((p' : Proxy) (closed : List ℕ)
          → Outcome change p (swapped p' closed)
          → IsDone req p p' closed)
      → Outcome change p r
      → IsAnswered req p (respond p r)
  unfolding respond
  respond-IsAnswered req change p (swapped p' closed) done o =
      ((λ e. done p' closed o), (λ n. absurd (n refl)))
  respond-IsAnswered req change p (refused e) done o =
      failed req p _ (failure (mutation e)) (mutation_failed e)
  respond-IsAnswered req change p panicked done o = absurd (cc)

  -- The same of a whole configuration.
  swap-cases :
      (req : Request) (cfg : SecretConfig) (p : Proxy) (answered : Swapped → Handled)
      → ((p' : Proxy) (closed : List ℕ)
          → IsReplaced cfg p'
          → IsAnswered req p (answered (swapped p' closed)))
      → ((e : SecretError) → IsAnswered req p (answered (refused e)))
      → IsAnswered req p (answered (swap_secret_config sort_strings same_month month_of now cfg p))
  unfolding swap_secret_config swap_to
  swap-cases req cfg p answered done fails =
      if_cases (λ r. IsAnswered req p (answered r))
        ((length cfg.secrets == 0) || not (all_valid cfg.secrets)) _ _ (λ bad. fails secret_invalid)
        (λ good. done _ _ (refl, ground (arith, good), ground (arith, good)))

  pub posted-IsAnswered :
      (p : Proxy) (name : Bytes) (e : SecretEntry)
      (r : Fallible ApiError (Secret × Option Bytes × SecretLimits))
      → IsSort sort_strings
      → IsServed sort_strings same_month month_of now p
      → parse_entry c e ≡ r
      → IsAnswered
          (post_secret (some (name, e)))
          p
          (posted c sort_strings same_month month_of now p name r)
  unfolding posted
  posted-IsAnswered p name e (err bad) sorts served h =
      failed (post_secret (some (name, e))) p 400 (failure bad) refl
  posted-IsAnswered p name e (ok (s, tag, l)) sorts served h =
      respond-IsAnswered (post_secret (some (name, e))) (put name s tag (some l)) p _
        (λ p' closed o. (s, tag, l, h, o))
        (run_change-refines sort_strings same_month month_of now (put name s tag (some l)) p sorts
          served)

  pub tagged-IsAnswered :
      (p : Proxy) (b : Bytes) (r : Fallible ApiError Bytes)
      → IsSort sort_strings
      → IsServed sort_strings same_month month_of now p
      → parse_put_ad_tag c b ≡ r
      → IsAnswered (put_global_tag (some b)) p (tagged c sort_strings same_month month_of now p r)
  unfolding tagged
  tagged-IsAnswered p b (err bad) sorts served h =
      failed (put_global_tag (some b)) p 400 (failure bad) refl
  tagged-IsAnswered p b (ok tag) sorts served h =
      respond-IsAnswered (put_global_tag (some b)) (set_tag (some tag)) p _
        (λ p' closed o. (tag, h, o))
        (run_change-refines sort_strings same_month month_of now (set_tag (some tag)) p sorts
          served)

  pub replace-IsAnswered :
      (p : Proxy) (req : PutSecrets) (r : Fallible ApiError SecretConfig)
      → parse_put_secrets c req ≡ r
      → IsAnswered (put_secrets (some req)) p (replace c sort_strings same_month month_of now p r)
  unfolding replace respond
  replace-IsAnswered p req (err bad) h = failed (put_secrets (some req)) p 400 (failure bad) refl
  replace-IsAnswered p req (ok cfg) h =
      swap-cases (put_secrets (some req)) cfg p (respond p)
        (λ p' closed done. ((λ e. (cfg, h, done)), (λ n. absurd (n refl))))
        (λ e.
          failed (put_secrets (some req)) p (secret_mutation_status e) (failure (mutation e))
            (mutation_failed e))

  on_reload-IsAnswered :
      (p : Proxy) (method : Bytes) (r : Option (Option SecretConfig))
      → method ≡ text "POST"
      → reloader ≡ r
      → IsAnswered (reload method) p (
          on_reload c sort_strings same_month month_of now r p
            (reload_secrets sort_strings same_month month_of now r p))
  unfolding on_reload reload_secrets
  on_reload-IsAnswered p method none post h = failed (reload method) p 503 plain refl
  on_reload-IsAnswered p method (some none) post h = failed (reload method) p 500 plain refl
  on_reload-IsAnswered p method (some (some cfg)) post h =
      swap-cases (reload method) cfg p
        (on_reload c sort_strings same_month month_of now (some (some cfg)) p)
        (λ p' closed done. ((λ e. (cfg, post, h, done)), (λ n. absurd (n refl))))
        (λ e. failed (reload method) p 500 plain refl)

  pub reload_handler-IsAnswered :
      (p : Proxy) (method : Bytes)
      → IsAnswered
          (reload method)
          p
          (reload_handler c sort_strings same_month month_of now reloader method p)
  unfolding reload_handler
  reload_handler-IsAnswered p method =
      if_cases (IsAnswered (reload method) p) (not (bytes_eq method (text "POST"))) _ _
        (λ e. failed (reload method) p 405 plain refl)
        (λ e.
          on_reload-IsAnswered p method reloader
            ((bytes_eq_iff method (text "POST")).0 (ground (arith, e))) refl)

  pub delete-IsAnswered :
      (p : Proxy) (name : Bytes)
      → IsSort sort_strings
      → IsServed sort_strings same_month month_of now p
      → IsAnswered
          (delete_named name)
          p
          (handle_delete_secret c sort_strings same_month month_of now name p)
  unfolding handle_delete_secret
  delete-IsAnswered p name sorts served =
      respond-IsAnswered (delete_named name) (delete name) p _ (λ p' closed o. o)
        (run_change-refines sort_strings same_month month_of now (delete name) p sorts served)

  pub delete_ad_tag-IsAnswered :
      (p : Proxy)
      → IsSort sort_strings
      → IsServed sort_strings same_month month_of now p
      → IsAnswered delete_ad_tag p (handle_delete_ad_tag c sort_strings same_month month_of now p)
  unfolding handle_delete_ad_tag
  delete_ad_tag-IsAnswered p sorts served =
      respond-IsAnswered delete_ad_tag (set_tag none) p _ (λ p' closed o. o)
        (run_change-refines sort_strings same_month month_of now (set_tag none) p sorts served)

  pub reset_quota-IsAnswered :
      (p : Proxy) (name : Bytes)
      → IsAnswered
          (reset_named name)
          p
          (handle_reset_quota c sort_strings same_month month_of now name p)
  unfolding handle_reset_quota
  reset_quota-IsAnswered p name =
      if_cases (IsAnswered (reset_named name) p) (not (has_secret name p.secrets.names)) _ _
        (λ e. failed (reset_named name) p 404 (failure (mutation secret_not_found)) refl)
        (λ e. (
          (λ h.
              let named : has_secret name p.secrets.names ≡ true = ground (arith, e) in
              (
                sym (has_secret-mem name p.secrets.names) ∙ named,
                refl,
                refl,
                refl,
                lookup-reset_quota p.stats name now,
              )),
          (λ n. absurd (n refl)),
        ))
