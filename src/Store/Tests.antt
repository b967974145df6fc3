-- ===== src/Store/Tests.antt =====
-- The stores of kelso/lib/store.py at concrete entries.
use kelso.Common.{
  ℕ, zero, suc, ◌+◌, ◌≤◌, ◌<◌, true, false, List, [], ◌∷◌, ◌++◌, eq_nat, eq_list, contains, ◌≡◌,
  refl, arith, ltb, Bool-cases, inl, inr,
}
use kelso.Common.Result.{ok}
use kelso.Common.Text.{Text, codes}
use kelso.Common.Dict.{Dict}
use kelso.Store.Json.{Json, number, text, array, object, no_fields, field}
use kelso.Store.Memory.{memory, scan_dict, memory_read}
use kelso.Store.App.{field_of, entry_field, tag_items}
use kelso.Store.Kelso.{port_number, occupied_ports, first_free, free_port, next_free_port}
use kelso.Store.Kelso.Ports.{Given, next_free_port_lem, next_free_port_over}

abbrev State : Type 0
State = Dict Text Json

abbrev assigned_none : State
assigned_none = (codes "routes/web", array (tag_items [])) ∷ []

-- what older stores hold for a route that is published nowhere
abbrev older : State
older = (codes "routes/web", text (codes "none")) ∷ []

abbrev route : ℕ → Json
route port = object (field (codes "host_port") (number port) no_fields)

abbrev two_routes : State
two_routes = (codes "routes/a/web", route 9000) ∷ ((codes "routes/b/web", route 9001) ∷ [])

two_routes_occupied :
    occupied_ports (memory.scan (codes "routes/") two_routes) ≡ ok (9000 ∷ 9001 ∷ [])
unfolding memory memory_read occupied_ports scan_dict entry_field field_of port_number
two_routes_occupied = refl

next_free_port_example : Given 9000 (9000 ∷ 9001 ∷ []) (next_free_port memory 9000 two_routes)
next_free_port_example =
    next_free_port_lem memory 9000 two_routes (9000 ∷ 9001 ∷ []) two_routes_occupied

gives_third : next_free_port memory 9000 two_routes ≡ ok 9002
unfolding memory memory_read next_free_port free_port first_free occupied_ports scan_dict
    entry_field field_of port_number
gives_third = refl

-- `n` routes with the ports from `port` on
routes_from : ℕ → ℕ → State
routes_from zero port = []
routes_from (suc n) port = (codes "routes/" ++ (port ∷ []), route port) ∷ routes_from n (port + 1)

ports_from : ℕ → ℕ → List ℕ
ports_from zero port = []
ports_from (suc n) port = port ∷ ports_from n (port + 1)

routes_from-occupied :
    (n port : ℕ)
    → occupied_ports (scan_dict (codes "routes/") (routes_from n port)) ≡ ok (ports_from n port)
unfolding occupied_ports scan_dict entry_field field_of port_number routes_from ports_from
routes_from-occupied zero port = refl
routes_from-occupied (suc n) port = rw (routes_from-occupied n (port + 1)) refl

ports_from-contains :
    (n port q : ℕ) → port ≤ q → q < port + n → contains (ports_from n port) q ≡ true
unfolding ports_from
ports_from-contains zero port q lo hi = absurd (omega arith)
ports_from-contains (suc n) port q lo hi = elim (Bool-cases (ltb port q)) [
  | inl above ↦ ground (arith, ports_from-contains n (port + 1) q (ground arith) (ground arith))
  | inr here ↦ ground arith
]

ports_from-behind : (n port q : ℕ) → port + n ≤ q → contains (ports_from n port) q ≡ false
unfolding ports_from
ports_from-behind zero port q h = refl
ports_from-behind (suc n) port q h = ground (arith, ports_from-behind n (port + 1) q (omega arith))

routes_occupied :
    occupied_ports (memory.scan (codes "routes/") (routes_from 1000 9000))
    ≡ ok (ports_from 1000 9000)
unfolding memory memory_read
routes_occupied = routes_from-occupied 1000 9000

next_free_port_over_example : next_free_port memory 9000 (routes_from 1000 9000) ≡ ok (9000 + 1000)
next_free_port_over_example =
    next_free_port_over memory 9000 (routes_from 1000 9000) (ports_from 1000 9000) routes_occupied
      (λ q lo hi. ports_from-contains 1000 9000 q lo hi)
      (ports_from-behind 1000 9000 (9000 + 1000) (omega arith))

abbrev one_secret : State
one_secret = (codes "system/secrets/api", text (codes "s3")) ∷ []

abbrev one_token : State
one_token =
    (
      codes "system/tokens/k",
      object (field (codes "tok") (text (codes "t")) (field (codes "exp") (number 50) no_fields)),
    )
    ∷ []
