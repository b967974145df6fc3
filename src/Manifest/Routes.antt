-- ===== src/Manifest/Routes.antt =====
-- The names of the routes, over all run units of a manifest.
use kelso.Common.{
  ℕ, suc, ◌+◌, ◌≤◌, ◌≡◌, refl, ◌∙◌, ap, arith, Bool, true, false, Option, some, List, [], ◌∷◌, ◌++◌,
  if◌then◌else◌, ◌==◌, eq_nat, eq_list, ltb, length, All, Bool-cases, inl, inr, ==→eq,
  length-append,
}
use kelso.Common.Text.{Text}
use kelso.Common.Dict.{Dict, get, keys}
use kelso.Common.Dict.Laws.{get-put}
use kelso.Common.Sort.{gather, append_nil, when_nil, gather_nil, All-map}
use kelso.Manifest.Entries.{Manifest, RunEntry}
use kelso.Manifest.Validate.{or_nothing, add_owner, add_owners, route_owners, validate_routes}

-- how often a name stands in a list
abbrev pub times : Text → List Text → ℕ
times t [] = 0
times t (u ∷ us) = if u == t then suc (times t us) else times t us

times-append : (t : Text) (us vs : List Text) → times t (us ++ vs) ≡ times t us + times t vs
times-append t [] vs = omega arith
times-append t (u ∷ us) vs = ground (arith, times-append t us vs)

abbrev owned : Dict Text (List Text) → Text → ℕ
owned owners route = length (or_nothing (get owners route))

owned_step :
    (b : Bool) (o old : Option (List Text)) (unit : Text)
    → (b ≡ true → o ≡ old)
    → length (or_nothing (if b then some (or_nothing o ++ unit ∷ []) else old))
      ≡ length (or_nothing old) + (if b then 1 else 0)
owned_step true o old unit h = rw (h refl) (length-append (or_nothing old) (unit ∷ []))
owned_step false o old unit h = omega arith

get_same :
    (owners : Dict Text (List Text)) (route r : Text)
    → (route == r) ≡ true
    → get owners route ≡ get owners r
get_same owners route r h = ap (get owners) (==→eq route r h)

add_owner_lem :
    (unit : Text) (owners : Dict Text (List Text)) (route r : Text)
    → owned (add_owner unit owners route) r ≡ owned owners r + (if route == r then 1 else 0)
unfolding add_owner
add_owner_lem unit owners route r =
    ap (λ o. length (or_nothing o))
      (get-put owners route r (or_nothing (get owners route) ++ unit ∷ []))
    ∙ owned_step (route == r) (get owners route) (get owners r) unit (get_same owners route r)

add_owners_lem :
    (unit : Text) (owners : Dict Text (List Text)) (routes : List Text) (r : Text)
    → owned (add_owners unit owners routes) r ≡ owned owners r + times r routes
unfolding add_owners
add_owners_lem unit owners [] r = omega arith
add_owners_lem unit owners (route ∷ routes) r = ground (
  arith,
  add_owners_lem unit (add_owner unit owners route) routes r,
  add_owner_lem unit owners route r,
)

-- the names of the routes of every unit
unfoldable pub all_routes : Dict Text RunEntry → List Text
unfolding gather keys
all_routes run = gather (λ (item : Text × RunEntry). keys (item.1).routes) run

route_owners_lem :
    (owners : Dict Text (List Text)) (run : Dict Text RunEntry) (r : Text)
    → owned (route_owners owners run) r ≡ owned owners r + times r (all_routes run)
unfolding route_owners all_routes gather
route_owners_lem owners [] r = omega arith
route_owners_lem owners ((unit, entry) ∷ run) r = omega (
  arith,
  route_owners_lem (add_owners unit owners (keys entry.routes)) run r,
  add_owners_lem unit owners (keys entry.routes) r,
  times-append r (keys entry.routes) (all_routes run),
)

few_owned :
    (owners : Dict Text (List Text)) (r : Text)
    → All (λ (item : Text × List Text). ltb 1 (length item.1) ≡ false) owners
    → owned owners r ≤ 1
unfolding get
few_owned [] r h = omega arith
few_owned ((route, units) ∷ owners) r h = elim (Bool-cases (route == r)) [
  | inl a ↦ rw a (ground (arith, h.0))
  | inr a ↦ rw a (few_owned owners r h.1)
]

-- Where _validate_routes finds nothing, each name of a route is declared once, by one unit.
pub validate_routes_lem :
    (m : Manifest) → validate_routes m ≡ [] → (r : Text) → times r (all_routes m.run) ≤ 1
unfolding validate_routes
validate_routes_lem m h r =
    let owners = gather_nil _ (route_owners [] m.run) (append_nil _ _ h).0 in
    let few =
      few_owned (route_owners [] m.run) r
        (All-map (route_owners [] m.run) (λ item k. when_nil _ _ k) owners) in
    ground (arith, few, route_owners_lem [] m.run r)
