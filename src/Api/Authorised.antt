-- ===== src/Api/Authorised.antt =====
-- mtglib/proxy_api.go: every request behind the middleware.
use mathlib.Core.Path.{subst}
use mtg_multi.Prelude.{
  ℕ, ◌≡◌, refl, sym, ◌⊎◌, inl, inr, Bool, not, Option, none, some, List, [], ◌∷◌, ◌++◌, if_cases,
  bytes_eq, bytes_eq_iff, bytes_key, arith,
}
use mtg_multi.Prelude.Bytes.{Bytes, text}
use mtg_multi.Secrets.{SecretConfig}
use mtg_multi.Secrets.Snapshot.{IsSort}
use mtg_multi.Secrets.Swap.{Proxy}
use mtg_multi.Secrets.Swap.Refines.{IsServed}
use mtg_multi.Api.Requests.{
  bad_json, Body, failure, plain, secrets, stats, ad_tag, Request, get_stats, get_secrets,
  get_ad_tag, delete_ad_tag, reload, put_secrets, post_secret, delete_named, reset_named,
  put_global_tag, Handled, unchanged, Codecs, replace, handle_put_secrets, handle_post_secret,
  tagged, handle_put_ad_tag, listed, counted, handle, serve_http,
}
use mtg_multi.Api.Answers.{
  IsDone, IsAnswered, failed, posted-IsAnswered, tagged-IsAnswered, replace-IsAnswered,
  reload_handler-IsAnswered, delete-IsAnswered, delete_ad_tag-IsAnswered, reset_quota-IsAnswered,
}
use mtg_multi.Api.Reads.{snapshot_secrets-total, handle_stats-total}

module _ {ℓ} {M : Type ℓ} (c : Codecs) (sort_strings : List Bytes → List Bytes)
    (same_month : M → M → Bool) (month_of : ℕ → M) (now : ℕ)
    (reloader : Option (Option SecretConfig)) where
  abbrev pub Answered : Request → Proxy → Handled → Type 0
  Answered req p h = IsAnswered c sort_strings same_month month_of now reloader req p h

  read :
      (req : Request) (p : Proxy) (body : Body)
      → IsDone c sort_strings same_month month_of now reloader req p p []
      → Answered req p (unchanged p 200 body)
  read req p body done = ((λ e. done), (λ n. absurd (n refl)))

  handle-IsAnswered :
      (req : Request) (p : Proxy)
      → IsSort sort_strings
      → IsServed sort_strings same_month month_of now p
      → Answered req p (handle c sort_strings same_month month_of now reloader req p)
  unfolding handle handle_put_secrets handle_post_secret handle_put_ad_tag
  handle-IsAnswered get_stats p sorts served =
      let (resp, e) = handle_stats-total sort_strings same_month month_of now p served in
      subst (λ o. Answered get_stats p (counted c sort_strings same_month month_of now p o)) (sym e)
        (unfold counted in read get_stats p (stats resp) (refl, refl))
  handle-IsAnswered get_secrets p sorts served =
      let (infos, e) =
        snapshot_secrets-total sort_strings same_month month_of now c.base64_encode p served in
      subst (λ o. Answered get_secrets p (listed c sort_strings same_month month_of now p o))
        (sym e) (unfold listed in read get_secrets p (secrets infos) (refl, refl))
  handle-IsAnswered get_ad_tag p sorts served =
      read get_ad_tag p (ad_tag p.secrets.global_ad_tag) (refl, refl)
  handle-IsAnswered (reload method) p sorts served =
      reload_handler-IsAnswered c sort_strings same_month month_of now reloader p method
  handle-IsAnswered (put_secrets none) p sorts served =
      unfold replace in
      failed c sort_strings same_month month_of now reloader (put_secrets none) p 400
        (failure bad_json) refl
  handle-IsAnswered (put_secrets (some req)) p sorts served =
      replace-IsAnswered c sort_strings same_month month_of now reloader p req _ refl
  handle-IsAnswered (post_secret none) p sorts served =
      failed c sort_strings same_month month_of now reloader (post_secret none) p 400
        (failure bad_json) refl
  handle-IsAnswered (post_secret (some (name, e))) p sorts served =
      posted-IsAnswered c sort_strings same_month month_of now reloader p name e _ sorts served refl
  handle-IsAnswered (delete_named name) p sorts served =
      delete-IsAnswered c sort_strings same_month month_of now reloader p name sorts served
  handle-IsAnswered (reset_named name) p sorts served =
      reset_quota-IsAnswered c sort_strings same_month month_of now reloader p name
  handle-IsAnswered (put_global_tag none) p sorts served =
      unfold tagged in
      failed c sort_strings same_month month_of now reloader (put_global_tag none) p 400
        (failure bad_json) refl
  handle-IsAnswered (put_global_tag (some b)) p sorts served =
      tagged-IsAnswered c sort_strings same_month month_of now reloader p b _ sorts served refl
  handle-IsAnswered delete_ad_tag p sorts served =
      delete_ad_tag-IsAnswered c sort_strings same_month month_of now reloader p sorts served

  -- The header carries the token, if there is one.
  abbrev pub IsAuthorised : Bytes → Bytes → Type 0
  IsAuthorised token header = (token ≡ []) ⊎ (header ≡ text "Bearer " ++ token)

  abbrev pub IsGuarded : Bytes → Bytes → Proxy → Handled → Type 0
  IsGuarded token header p h = IsAuthorised token header ⊎ (h ≡ unchanged p 401 plain)

  -- On a set built from valid secrets, at least one, with a sort that keeps the elements of its
  -- list: where a token is configured, every request to the management API without it is answered
  -- with 401 and changes nothing; no request panics; one that is not answered with 200 leaves the
  -- proxy as it is and closes nothing; and one that is has been parsed and has done what it says:
  -- the change of one name or of the tag, the whole configuration, the reset of the quota and its
  -- period of a name that is served and of nothing else, or nothing for a read.
  pub serve_http-IsAnswered :
      (token header : Bytes) (req : Request) (p : Proxy)
      → IsSort sort_strings
      → IsServed sort_strings same_month month_of now p
      → let h = serve_http c sort_strings same_month month_of now token header reloader req p in
        Answered req p h × IsGuarded token header p h
  unfolding serve_http
  serve_http-IsAnswered [] header req p sorts served =
      (handle-IsAnswered req p sorts served, inl (inl refl))
  serve_http-IsAnswered (t ∷ token) header req p sorts served =
      if_cases (λ h. Answered req p h × IsGuarded (t ∷ token) header p h)
        (not (bytes_eq header (text "Bearer " ++ (t ∷ token)))) _ _
        (λ e.
          (failed c sort_strings same_month month_of now reloader req p 401 plain refl, inr refl))
        (λ e. (
          handle-IsAnswered req p sorts served,
          inl (inr ((bytes_eq_iff header _).0 (ground (arith, e)))),
        ))
