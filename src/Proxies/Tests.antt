-- ===== src/Proxies/Tests.antt =====
-- A set of numbers and a map of them behind their proxies (frontend/src/common.ts).
use cozyssh.Prelude.{map, ◌≡◌, refl, ℕ, List, [], ◌∷◌, some, none, ◌==◌}
use cozyssh.Proxies.{
  to_receiver, type_error, value, Event, call, microtask, run, run_raw, create, answer,
}
use cozyssh.Proxies.Containers.{
  SetCall, MapCall, number, set_raw, set_access, create_set_proxy, map_raw, map_access,
  create_map_proxy,
}
use cozyssh.Proxies.Observed.{changes}
use cozyssh.Proxies.Refines.{Settled, set_proxy_lem, map_proxy_lem}

abbrev set_events : List (Event (SetCall ℕ))
set_events =
    call (SetCall.add 1)
    ∷ call (SetCall.delete 2)
    ∷ microtask
    ∷ call (SetCall.has 2)
    ∷ call SetCall.clear
    ∷ []

abbrev map_events : List (Event (MapCall ℕ ℕ))
map_events = call (MapCall.set 1 5) ∷ call MapCall.size ∷ microtask ∷ call (MapCall.get 1) ∷ []

set_proxy_lem_example :
    let p = create_set_proxy ◌==◌ (some (2 ∷ 2 ∷ [])) in
    let q = (run (set_raw ◌==◌) (set_access ◌==◌) set_events p []).0 in
    let r = run_raw (set_raw ◌==◌) set_events p.target [] in
    (q.target ≡ r.0)
    × ((run (set_raw ◌==◌) (set_access ◌==◌) set_events p []).1 ≡ map to_receiver r.1)
    × Settled p.target (changes (set_access ◌==◌) (set_raw ◌==◌) set_events 0) q
unfolding set_access
set_proxy_lem_example =
    set_proxy_lem ◌==◌ (some (2 ∷ 2 ∷ [])) set_events (refl, (refl, (tt, (refl, (refl, tt)))))

-- The getter `size` throws on a set proxy.
size_of_set :
    ((run (set_raw ◌==◌) (set_access ◌==◌) (call SetCall.size ∷ []) (create (3 ∷ [])) []).1
      ≡ type_error ∷ [])
    × ((run_raw (set_raw ◌==◌) (call SetCall.size ∷ []) (3 ∷ []) []).1 ≡ value (number 1) ∷ [])
unfolding run run_raw answer set_raw set_access
size_of_set = (refl, refl)

map_proxy_lem_example :
    let p = create_map_proxy ◌==◌ none in
    let q = (run (map_raw ◌==◌) (map_access ◌==◌) map_events p []).0 in
    let r = run_raw (map_raw ◌==◌) map_events p.target [] in
    (q.target ≡ r.0)
    × ((run (map_raw ◌==◌) (map_access ◌==◌) map_events p []).1 ≡ map to_receiver r.1)
    × Settled p.target (changes (map_access ◌==◌) (map_raw ◌==◌) map_events 0) q
map_proxy_lem_example = map_proxy_lem ◌==◌ none map_events
