-- ===== src/Layout/Resolved.antt =====
-- An app of which nothing is wrong has all that it runs with.
use kelso.Common.{
  Bool, true, false, not, ◌||◌, Option, none, some, List, [], ◌∷◌, ◌++◌, map, keep, if◌then◌else◌,
  ◌==◌, eq_nat, eq_list, ◌≡◌, refl, sym, ap, ◌∙◌, subst, arith, All, ◌⊎◌, inl, inr, Bool-cases,
  contains, contains-append, ==→eq, ==_refl,
}
use mathlib.Core.Path.{ap₂}
use kelso.Common.Text.{Text}
use kelso.Common.Dict.{Dict, get, has, keys}
use kelso.Common.Dict.Laws.{contains-get}
use kelso.Common.Sort.{gather, append_nil, gather_nil, sorted_nil, All-map}
use kelso.Store.App.{Setting, unset, setting}
use kelso.Manifest.Entries.{ConnectionEntry}
use kelso.Manifest.Valid.{map_nil}
use kelso.Spec.Defs.{AppSpec, AppConfig, AppVolume, AppRoute, has_default, is_some}
use kelso.Spec.Built.{keys-append}
use kelso.Layout.Data.{
  AppRunData, ConfigValue, AssignedRoute, route_not_allocated, secret_differs, unset_config,
  missing_connection,
}
use kelso.Layout.Machine.{
  Machine, same_secret, value_of, config_value, load_config_values, host_path_of, load_connection,
  load_connections,
}
use kelso.Layout.Volumes.{Resolved, paths, wrong, link_of, volume_link, load_volume_links}
use kelso.Layout.Routes.{matched_route, loaded_route, load_routes}
use kelso.Layout.Resolve.{load_run_data}

-- What load_run_data gives where it finds no issue.
pub record IsResolved (spec : AppSpec) (run_data : AppRunData) : Type 0 where
  -- every setting has a value, every volume its paths, every connection its path on the host
  pub valued :
      All (λ (item : Text × ConfigValue). is_some (item.1).value ≡ true) run_data.config_values
  pub linked : keys run_data.volume_links ≡ keys spec.volumes
  pub connected : keys run_data.connections ≡ keys spec.manifest.connections
  -- every route has its ports
  pub allocated : All (λ (item : Text × AppRoute). has run_data.routes item.0 ≡ true) spec.routes

default_there : (config : AppConfig) → has_default config ≡ true → is_some config.default ≡ true
unfolding has_default
default_there config h = ground (arith, h)

value_lem :
    (name : Text) (config : AppConfig) (s : Setting)
    → (value_of name config s).1 ≡ []
    → is_some ((value_of name config s).0.1).value ≡ true
unfolding value_of
value_lem name config (setting secret value) h =
    elim (Bool-cases (same_secret secret config.secret)) [
      | inl same ↦ rw same refl
      | inr other ↦ let k : secret_differs name ∷ [] ≡ [] = rw other at h in cc k
    ]
value_lem name config unset h = elim (Bool-cases (has_default config)) [
  | inl there ↦ rw there (default_there config there)
  | inr gone ↦ let k : unset_config name ∷ [] ≡ [] = rw gone at h in cc k
]

values_lem :
    (m : Machine) (config : Dict Text AppConfig)
    → All (λ (item : Text × AppConfig). (config_value m item).1 ≡ []) config
    → All
        (λ (item : Text × ConfigValue). is_some (item.1).value ≡ true)
        (map (λ (item : Text × AppConfig). (config_value m item).0) config)
unfolding config_value
values_lem m [] h = tt
values_lem m ((name, config) ∷ items) h =
    (value_lem name config (m.stored name) h.0, values_lem m items h.1)

-- Where each item gives itself a name, the names are those of the items.
keys-gather :
    {V W : Type 0} (f : Text × V → Dict Text W) (d : Dict Text V)
    → All (λ (item : Text × V). keys (f item) ≡ item.0 ∷ []) d
    → keys (gather f d) ≡ keys d
unfolding gather keys
keys-gather f [] h = refl
keys-gather f (item ∷ items) h =
    keys-append (f item) (gather f items)
    ∙ ap₂ (λ (a b : List Text). a ++ b) h.0 (keys-gather f items h.1)

link_lem :
    (run_path name : Text) (volume : AppVolume) (r : Resolved)
    → (link_of run_path name volume r).1 ≡ []
    → keys (link_of run_path name volume r).0 ≡ name ∷ []
unfolding link_of keys
link_lem run_path name volume (wrong issue) h = cc h
link_lem run_path name volume (paths source target) h = refl

links_lem :
    (m : Machine) (app run_path : Text) (volumes : Dict Text AppVolume)
    → (load_volume_links m app run_path volumes).1 ≡ []
    → keys (load_volume_links m app run_path volumes).0 ≡ keys volumes
unfolding load_volume_links volume_link
links_lem m app run_path volumes h =
    keys-gather _ volumes
      (All-map volumes (λ item k. link_lem run_path item.0 item.1 _ k) (gather_nil _ volumes h))

connection_lem :
    (m : Machine) (item : Text × ConnectionEntry)
    → (load_connection m item).1 ≡ []
    → keys (load_connection m item).0 ≡ item.0 ∷ []
unfolding load_connection keys
connection_lem m (name, entry) h = elim (Bool-cases (m.exists (host_path_of m entry.kind))) [
  | inl there ↦ rw there refl
  | inr gone ↦ let k : missing_connection name ∷ [] ≡ [] = rw gone at h in cc k
]

connections_lem :
    (m : Machine) (entries : Dict Text ConnectionEntry)
    → (load_connections m entries).1 ≡ []
    → keys (load_connections m entries).0 ≡ keys entries
unfolding load_connections
connections_lem m entries h =
    keys-gather _ entries (All-map entries (connection_lem m) (gather_nil _ entries h))

abbrev is_there : {V : Type 0} → Option V → Bool
is_there none = false
is_there (some v) = true

has_append :
    {V : Type 0} (d e : Dict Text V) (k : Text)
    → (has d k ≡ true) ⊎ (has e k ≡ true)
    → has (d ++ e) k ≡ true
has_append d e k h =
    sym (contains-get (d ++ e) k)
    ∙ (ap (λ ks. contains ks k) (keys-append d e)
        ∙ (contains-append (keys d) (keys e) k ∙ either h))
  where
    either :
        (has d k ≡ true) ⊎ (has e k ≡ true) → (contains (keys d) k || contains (keys e) k) ≡ true
    either (inl there) =
        let c : contains (keys d) k ≡ true = contains-get d k ∙ there in ground (arith, c)
    either (inr there) =
        let c : contains (keys e) k ≡ true = contains-get e k ∙ there in ground (arith, c)

matched_lem :
    (name : Text) (conf : AssignedRoute) (o : Option AppRoute)
    → is_there o ≡ true
    → has (matched_route name conf o).0 name ≡ true
unfolding matched_route keys
matched_lem name conf none h = cc h
matched_lem name conf (some spec) h =
    sym (contains-get ((name, conf) ∷ []) name) ∙ ap (λ b. b || false) (==_refl name)

-- A route that is on file and in the manifest is loaded.
loaded_lem :
    (routes : Dict Text AppRoute) (found : Dict Text AssignedRoute) (k : Text)
    → is_there (get routes k) ≡ true
    → contains (keys found) k ≡ true
    → has (gather (λ (item : Text × AssignedRoute). (loaded_route routes item).0) found) k ≡ true
unfolding gather keys loaded_route
loaded_lem routes [] k h c = cc c
loaded_lem routes ((j, conf) ∷ found) k h c = elim (Bool-cases (j == k)) [
  | inl same ↦ has_append _ _ k (
      inl (
        let e = ==→eq j k same in
        subst (λ (x : Text). has (matched_route j conf (get routes j)).0 x ≡ true) e
          (matched_lem j conf (get routes j) (ap (λ (x : Text). is_there (get routes x)) e ∙ h))))
  | inr other ↦ has_append _ _ k (inr (loaded_lem routes found k h (ground (arith, c, other))))
]

kept_none :
    (p : Text → Bool) (names : List Text)
    → keep (λ (n : Text). not (p n)) names ≡ []
    → All (λ (n : Text). p n ≡ true) names
kept_none p [] h = tt
kept_none p (n ∷ names) h = elim (Bool-cases (p n)) [
  | inl there ↦ (there, kept_none p names (rw there at h))
  | inr gone ↦ let k : n ∷ keep (λ (x : Text). not (p x)) names ≡ [] = rw gone at h in cc k
]

found_among :
    (all loaded : Dict Text AppRoute) (found : Dict Text AssignedRoute)
    → All (λ (item : Text × AppRoute). is_there (get all item.0) ≡ true) loaded
    → All (λ (n : Text). has found n ≡ true) (keys loaded)
    → All
        (λ (item : Text × AppRoute).
          has (gather (λ (r : Text × AssignedRoute). (loaded_route all r).0) found) item.0 ≡ true)
        loaded
unfolding keys
found_among all [] found h k = tt
found_among all ((name, route) ∷ loaded) found h k = (
  loaded_lem all found name h.0 (contains-get found name ∙ k.0),
  found_among all loaded found h.1 k.1,
)

-- every item of a dict is found by its key
self_found :
    (d rest : Dict Text AppRoute)
    → ((k : Text) → is_there (get rest k) ≡ true → is_there (get d k) ≡ true)
    → All (λ (item : Text × AppRoute). is_there (get d item.0) ≡ true) rest
unfolding get
self_found d [] into = tt
self_found d ((j, r) ∷ rest) into =
    (into j (rw (==_refl j) refl), self_found d rest (λ k there. into k (later (j == k) k there)))
  where
    later :
        (b : Bool) (k : Text)
        → is_there (get rest k) ≡ true
        → is_there (if b then some r else get rest k) ≡ true
    later true k there = refl
    later false k there = there

routes_lem :
    (m : Machine) (routes : Dict Text AppRoute)
    → (load_routes m routes).1 ≡ []
    → All (λ (item : Text × AppRoute). has (load_routes m routes).0 item.0 ≡ true) routes
unfolding load_routes
routes_lem m routes h =
    found_among routes routes m.found_routes (self_found routes routes (λ k there. there)) (
      kept_none (has m.found_routes) (keys routes)
        (sorted_nil _ (map_nil route_not_allocated _ (append_nil _ _ h).0)))

-- Where load_run_data finds no issue, every setting of the app has a value, every volume its paths
-- and every connection its path on the host, and every route of the app has its ports.
pub load_run_data_lem :
    (m : Machine) (run_path : Text) (spec : AppSpec)
    → (load_run_data m run_path spec).issues ≡ []
    → IsResolved spec (load_run_data m run_path spec)
unfolding load_run_data load_config_values
load_run_data_lem m run_path spec h =
    let a = append_nil (load_config_values m spec.config).1 _ h in
    let b = append_nil (load_routes m spec.routes).1 _ a.1 in
    let c = append_nil (load_volume_links m spec.app run_path spec.volumes).1 _ b.1 in
    record {
      valued =
          values_lem m spec.config
            (gather_nil (λ (item : Text × AppConfig). (config_value m item).1) spec.config a.0);
      linked = links_lem m spec.app run_path spec.volumes c.0;
      connected = connections_lem m spec.manifest.connections c.1;
      allocated = routes_lem m spec.routes b.0;
    }
