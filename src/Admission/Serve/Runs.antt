-- ===== src/Admission/Serve/Runs.antt =====
-- mtglib/proxy.go: the loop of Serve on four connections.
use mtg_multi.Prelude.{◌≡◌, refl, Bool, false, List, [], ◌∷◌, ◌==◌, bytes_eq}
use mtg_multi.Prelude.Bytes.{Bytes}
use mtg_multi.Admission.Serve.{Arrival, accepted, invoked, pool_overload, serve, serve_screens}

abbrev local : Bytes → Bool
local (b ∷ ip) = b == 10
local [] = false

abbrev banned : Bytes → Bool
banned ip = bytes_eq ip (10 ∷ 9 ∷ [])

abbrev four_arrivals : List Arrival
four_arrivals =
    accepted 1 (10 ∷ 1 ∷ []) invoked
    ∷ accepted 2 (8 ∷ 8 ∷ []) invoked
    ∷ accepted 3 (10 ∷ 9 ∷ []) invoked
    ∷ accepted 4 (10 ∷ 2 ∷ []) pool_overload
    ∷ []

serve_screens_example :
    ((serve local banned four_arrivals).handed ≡ 1 ∷ [])
    × ((serve local banned four_arrivals).closed ≡ 2 ∷ 3 ∷ 4 ∷ [])
serve_screens_example = serve_screens local banned four_arrivals (refl, (refl, (refl, (refl, tt))))
