-- ===== src/Middleproxy/Manager/Refresh.antt =====
-- mtglib/internal/middleproxy/manager.go: what the manager holds after any streams and ticks.
use mathlib.Core.Path.{subst}
use mtg_multi.Prelude.{
  ◌≡◌, refl, sym, ap, ◌⊎◌, inl, inr, Bool, true, false, ◌&&◌, ◌||◌, List, [], ◌∷◌, length, ltb, ◌∙◌,
  ◌>>=◌, if_cases, Fallible, err, ok, All, passed,
}
use mtg_multi.Prelude.Bytes.{Bytes}
use mtg_multi.Middleproxy.Manager.Config.{Table}
use mtg_multi.Middleproxy.Manager.{
  Manager, Site, FetchError, fetch_bytes, fetch_config, or_no_table, is_some_table, stored, fetch,
  start_refresh, fetch_and_refresh, ensure_ready, or_kept, tick, new_manager,
}

-- A stream that needs a middle proxy, one that found the manager not ready and fetches only now that
-- others may have, and a tick of the refresh loop, with what the site answers if it is asked.
pub data Event : Type 0 where
  stream overtaken ticked : Site → Event

abbrev pub site_of : Event → Site
site_of (stream site) = site
site_of (overtaken site) = site
site_of (ticked site) = site

pub step : Event → Manager → Manager
step (stream site) m = or_kept m (ensure_ready site m)
step (overtaken site) m = or_kept m (fetch_and_refresh site m)
step (ticked site) m = tick site m

unfoldable pub run : List Event → Manager → Manager
unfolding step
run [] m = m
run (e ∷ events) m = run events (step e m)

-- What the manager holds is what one fetch of the site brought.
pub record CameFrom (m : Manager) (site : Site) : Type 0 where
  pub secret : fetch_bytes site.proxy_secret ≡ ok m.secret
  pub v4 : fetch_config site.config_v4 ≡ ok m.middle_v4
  pub v6 : m.middle_v6 ≡ or_no_table (fetch_config site.config_v6)

-- It is usable: a secret and an address.
abbrev pub is_filled : Manager → Bool
is_filled m = ltb 0 (length m.secret) && (is_some_table m.middle_v4 || is_some_table m.middle_v6)

abbrev pub IsAsked : Site → List Event → Type 0
IsAsked site [] = ⊥
IsAsked site (e ∷ events) = (site_of e ≡ site) ⊎ IsAsked site events

-- Nothing was loaded, or all of it comes from one fetch of a site with `P`, the loop runs, and the
-- manager is ready exactly when that is usable.
abbrev pub IsHeld : (Site → Type 0) → Manager → Type 0
IsHeld P m =
    ((m.ready ≡ false) × (m.refreshing ≡ false) × (m.secret ≡ []))
    ⊎ ((m.refreshing ≡ true) × (m.ready ≡ is_filled m) × ((site : Site) × P site × CameFrom m site))

module _ (P : Site → Type 0) where
  -- A fetch that succeeded, by what it stored.
  stored-IsHeld :
      (site : Site) (m : Manager) (secret : Bytes) (v4 : Table)
      → P site
      → fetch_bytes site.proxy_secret ≡ ok secret
      → fetch_config site.config_v4 ≡ ok v4
      → IsHeld P (start_refresh (stored m secret v4 (or_no_table (fetch_config site.config_v6))))
  unfolding stored
  stored-IsHeld site m secret v4 asked got listed =
      inr (refl, refl, (site, asked, record { secret = got; v4 = listed; v6 = refl }))

  fetch-IsHeld :
      (site : Site) (m m' : Manager) → P site → fetch site m ≡ ok m' → IsHeld P (start_refresh m')
  unfolding fetch
  fetch-IsHeld site m m' asked h =
      let (secret, got, rest) = passed (fetch_bytes site.proxy_secret) _ h in
      let (v4, listed, all) = passed (fetch_config site.config_v4) _ rest in
      let same : stored m secret v4 (or_no_table (fetch_config site.config_v6)) ≡ m' = cc in
      subst (λ n. IsHeld P (start_refresh n)) same (stored-IsHeld site m secret v4 asked got listed)

  fetch-refreshing :
      (site : Site) (m m' : Manager) → fetch site m ≡ ok m' → m'.refreshing ≡ m.refreshing
  unfolding fetch stored
  fetch-refreshing site m m' h =
      let (secret, got, rest) = passed (fetch_bytes site.proxy_secret) _ h in
      let (v4, listed, all) = passed (fetch_config site.config_v4) _ rest in
      let same : stored m secret v4 (or_no_table (fetch_config site.config_v6)) ≡ m' = cc in
      sym (ap (λ (n : Manager). n.refreshing) same)

  started : (m : Manager) → m.refreshing ≡ true → IsHeld P (start_refresh m) → IsHeld P m
  started m on = subst (IsHeld P) (λ i. record m { refreshing = sym on i })

  -- A stream's fetch, and a tick's, by what it gives.
  on_stream :
      (site : Site) (m : Manager) (r : Fallible FetchError Manager)
      → P site
      → IsHeld P m
      → fetch site m ≡ r
      → IsHeld P (or_kept m (r >>= λ m'. ok (start_refresh m')))
  on_stream site m (err e) asked held h = held
  on_stream site m (ok m') asked held h = fetch-IsHeld site m m' asked h

  on_tick :
      (site : Site) (m : Manager) (r : Fallible FetchError Manager)
      → P site
      → m.refreshing ≡ true
      → IsHeld P m
      → fetch site m ≡ r
      → IsHeld P (or_kept m r)
  on_tick site m (err e) asked on held h = held
  on_tick site m (ok m') asked on held h =
      started m' (fetch-refreshing site m m' h ∙ on) (fetch-IsHeld site m m' asked h)

  step-IsHeld : (e : Event) (m : Manager) → P (site_of e) → IsHeld P m → IsHeld P (step e m)
  unfolding step ensure_ready fetch_and_refresh tick
  step-IsHeld (stream site) m asked held =
      if_cases (λ r. IsHeld P (or_kept m r)) m.ready _ _ (λ _. held)
        (λ _. on_stream site m (fetch site m) asked held refl)
  step-IsHeld (overtaken site) m asked held = on_stream site m (fetch site m) asked held refl
  step-IsHeld (ticked site) m asked held =
      if_cases (IsHeld P) m.refreshing _ _ (λ on. on_tick site m (fetch site m) asked on held refl)
        (λ _. held)

  run-IsHeld_from :
      (events : List Event) (m : Manager)
      → All (λ e. P (site_of e)) events
      → IsHeld P m
      → IsHeld P (run events m)
  unfolding run
  run-IsHeld_from [] m asked held = held
  run-IsHeld_from (e ∷ events) m (first, asked) held =
      run-IsHeld_from events (step e m) asked (step-IsHeld e m first held)

All-map {ℓ κ} :
    {A : Type 0} (P : A → Type ℓ) (Q : A → Type κ) (xs : List A)
    → ((x : A) → P x → Q x)
    → All P xs
    → All Q xs
All-map P Q [] f h = tt
All-map P Q (x ∷ xs) f (hx, h) = (f x hx, All-map P Q xs f h)

All-IsAsked : (events : List Event) → All (λ e. IsAsked (site_of e) events) events
All-IsAsked [] = tt
All-IsAsked (e ∷ events) = (
  inl refl,
  All-map _ (λ d. IsAsked (site_of d) (e ∷ events)) events (λ d h. inr h) (All-IsAsked events),
)

-- After any streams, some of which found the manager not ready before others fetched, and any
-- ticks, whatever the site answers, a new manager either holds no secret, is not ready and does
-- not refresh, or it refreshes, its secret and both address tables come from one and the same of
-- these fetches, and it is ready exactly when that secret and a table are not empty.
pub run-IsHeld :
    (prefer_ip : Bytes) (events : List Event)
    → IsHeld (λ site. IsAsked site events) (run events (new_manager prefer_ip))
unfolding new_manager
run-IsHeld prefer_ip events =
    run-IsHeld_from (λ site. IsAsked site events) events _ (All-IsAsked events)
      (inl (refl, refl, refl))
