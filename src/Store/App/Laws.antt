-- ===== src/Store/App/Laws.antt =====
-- What AppStore of kelso/lib/store.py reads after it has written.
use kelso.Common.{
  Bool, true, false, Option, none, some, List, [], ◌∷◌, ◌++◌, if◌then◌else◌, ◌==◌, eq_nat, eq_list,
  ◌≡◌, refl, sym, ap, ◌∙◌, subst, arith, ==_refl, ==→eq, Bool-cases, inl, inr,
}
use kelso.Common.Result.{Result, ok, err, ok_of_bind}
use kelso.Common.Text.{Text, codes}
use kelso.Store.Json.{Json, array}
use kelso.Store.Config.{Error, ConfigStore, CryptoEngine}
use kelso.Store.App.{
  field_of, entry_field, tag_items, item_tags, route_tags, Setting, unset, setting, read_setting,
  setting_is, setting_entry, setting_of, same_setting, get_config, config_is, stored_value,
  write_config, set_config, get_route_assignment, tags_are, set_route_assignment,
}

-- Keys of one prefix are told apart by what stands behind it.
pub same_prefix : (p a b : Text) → ((p ++ a) == (p ++ b)) ≡ (a == b)
same_prefix [] a b = refl
same_prefix (c ∷ p) a b = ground (arith, same_prefix p a b)

setting_is_lem : (f : Setting) (b : Bool) (v : Text) → setting_is f b v ≡ true → f ≡ setting b v
setting_is_lem unset b v h = cc
setting_is_lem (setting true w) true v h = ap (setting true) (==→eq w v h)
setting_is_lem (setting false w) false v h = ap (setting false) (==→eq w v h)
setting_is_lem (setting true w) false v h = cc
setting_is_lem (setting false w) true v h = cc

setting_is_refl : (b : Bool) (v : Text) → setting_is (setting b v) b v ≡ true
setting_is_refl true v = ==_refl v
setting_is_refl false v = ==_refl v

same_setting_lem :
    (secret : Bool) (value : Text) (c : Result Error Setting)
    → same_setting secret value c ≡ ok true
    → c ≡ ok (setting secret value)
unfolding same_setting
same_setting_lem secret value (ok found) h = ap ok (setting_is_lem found secret value (cc h))
same_setting_lem secret value (err e) h = ground (arith, h)

item_tags_lem : (tags : List Text) → item_tags (tag_items tags) ≡ some tags
unfolding item_tags
item_tags_lem [] = refl
item_tags_lem (tag ∷ tags) = rw (item_tags_lem tags) refl

module _ {S : Type 0} (store : ConfigStore S) (crypto : CryptoEngine) where
  -- The value is on file in `t`, setting it again changes nothing, and the settings of other names
  -- are those of `s`.
  pub record IsStored (name : Text) (secret : Bool) (value : Text) (s t : S) : Type 0 where
    pub reads : get_config store crypto name t ≡ ok (setting secret value)
    pub again : set_config store crypto name secret value t ≡ ok t
    pub others :
        (other : Text)
        → (name == other) ≡ false
        → get_config store crypto other t ≡ get_config store crypto other s

  config_is-set :
      (name : Text) (secret : Bool) (value : Text) (t : S)
      → get_config store crypto name t ≡ ok (setting secret value)
      → config_is store crypto name secret value t ≡ ok true
  unfolding config_is same_setting
  config_is-set name secret value t h =
      ap (same_setting secret value) h ∙ ap (λ (b : Bool). ok b) (setting_is_refl secret value)

  read_back :
      (secret : Bool) (value stored : Text)
      → stored_value store crypto secret value ≡ ok stored
      → setting_of crypto (setting_entry secret stored) ≡ ok (setting secret value)
  unfolding setting_of stored_value entry_field field_of read_setting
  read_back true value stored e = rw (crypto.decrypt-encrypt value stored e) refl
  read_back false value stored e = ap (λ (v : Text). ok (setting false v)) (sym (cc e))

  on_file :
      (name : Text) (secret : Bool) (value : Text) (s : S)
      → config_is store crypto name secret value s ≡ ok true
      → get_config store crypto name s ≡ ok (setting secret value)
  unfolding config_is
  on_file name secret value s h = same_setting_lem secret value (get_config store crypto name s) h

  again_same :
      (name : Text) (secret : Bool) (value : Text) (t : S)
      → get_config store crypto name t ≡ ok (setting secret value)
      → set_config store crypto name secret value t ≡ ok t
  unfolding set_config
  again_same name secret value t h = rw (config_is-set name secret value t h) refl

  written :
      (name : Text) (secret : Bool) (value stored : Text) (t : S)
      → stored_value store crypto secret value ≡ ok stored
      → store.read (codes "config/" ++ name) t ≡ setting_entry secret stored
      → get_config store crypto name t ≡ ok (setting secret value)
  unfolding get_config
  written name secret value stored t e h =
      ap (setting_of crypto) h ∙ read_back secret value stored e

  other_name :
      (other : Text) (s t : S)
      → store.read (codes "config/" ++ other) t ≡ store.read (codes "config/" ++ other) s
      → get_config store crypto other t ≡ get_config store crypto other s
  unfolding get_config
  other_name other s t h = ap (setting_of crypto) h

  kept_lem :
      (name : Text) (secret : Bool) (value : Text) (s t : S)
      → config_is store crypto name secret value s ≡ ok true
      → s ≡ t
      → IsStored name secret value s t
  kept_lem name secret value s t h e =
      let r = on_file name secret value s h in
      subst (IsStored name secret value s) e
        (record { reads = r; again = again_same name secret value s r; others = λ other ne. refl })

  write_config_lem :
      (name : Text) (secret : Bool) (value : Text) (s t : S)
      → write_config store crypto name secret value s ≡ ok t
      → IsStored name secret value s t
  unfolding write_config
  write_config_lem name secret value s t h =
      let stored = ok_of_bind (stored_value store crypto secret value) _ h in
      let reads = λ (j : Text).
        store.read-write (codes "config/" ++ name) j (setting_entry secret stored.0) s t stored.2 in
      let r =
        written name secret value stored.0 t stored.1
          (reads (codes "config/" ++ name) ∙ rw (==_refl (codes "config/" ++ name)) refl) in
      record {
        reads = r;
        again = again_same name secret value t r;
        others = λ other ne. other_name other s t (
            reads (codes "config/" ++ other)
            ∙ rw (same_prefix (codes "config/") name other ∙ ne) refl);
      }

  tags_are_lem :
      (found : Option (List Text)) (tags : List Text)
      → tags_are store crypto found tags ≡ true
      → found ≡ some tags
  tags_are_lem none tags h = cc
  tags_are_lem (some found) tags h = ap (λ (l : List Text). some l) (==→eq found tags h)

  assigned :
      (route_name : Text) (tags : List Text) (s t : S)
      → store.write (codes "routes/" ++ route_name) (array (tag_items tags)) s ≡ ok t
      → get_route_assignment store crypto route_name t ≡ some tags
  unfolding get_route_assignment route_tags
  assigned route_name tags s t w =
      let e : store.read (codes "routes/" ++ route_name) t ≡ array (tag_items tags) =
        store.read-write (codes "routes/" ++ route_name) (codes "routes/" ++ route_name)
          (array (tag_items tags)) s t w
        ∙ rw (==_refl (codes "routes/" ++ route_name)) refl in
      ap route_tags e ∙ item_tags_lem tags

  other_route :
      (route_name : Text) (v : Json) (s t : S)
      → store.write (codes "routes/" ++ route_name) v s ≡ ok t
      → (other : Text) → (route_name == other) ≡ false
      → get_route_assignment store crypto other t ≡ get_route_assignment store crypto other s
  unfolding get_route_assignment
  other_route route_name v s t w other ne =
      let e : store.read (codes "routes/" ++ other) t ≡ store.read (codes "routes/" ++ other) s =
        store.read-write (codes "routes/" ++ route_name) (codes "routes/" ++ other) v s t w
        ∙ rw (same_prefix (codes "routes/") route_name other ∙ ne) refl in
      ap route_tags e

  recorded :
      (route_name : Text) (tags : List Text) (t : S)
      → get_route_assignment store crypto route_name t ≡ some tags
      → set_route_assignment store crypto route_name tags t ≡ ok t
  unfolding set_route_assignment
  recorded route_name tags t r =
      let e : tags_are store crypto (get_route_assignment store crypto route_name t) tags ≡ true =
        ap (λ (o : Option (List Text)). tags_are store crypto o tags) r ∙ ==_refl tags in
      rw e refl

  -- In a store with the laws of ConfigStore, as JsonLogtabStore is on tables of whole lines that load,
  -- and with an encryption that decryption undoes: setting a value, if it returns, leaves it on file
  -- under its name, encrypted if it is a secret and read back as it was. Setting it again then writes
  -- nothing. The values of the other names are as before.
  pub set_config_lem :
      (name : Text) (secret : Bool) (value : Text) (s t : S)
      → set_config store crypto name secret value s ≡ ok t
      → IsStored name secret value s t
  unfolding set_config
  set_config_lem name secret value s t h =
      let same = ok_of_bind (config_is store crypto name secret value s) _ h in
      by_test same.0 same.1 same.2
    where
      by_test :
          (b : Bool)
          → config_is store crypto name secret value s ≡ ok b
          → (if b then ok s else write_config store crypto name secret value s) ≡ ok t
          → IsStored name secret value s t
      by_test true e k = kept_lem name secret value s t e (cc k)
      by_test false e k = write_config_lem name secret value s t k

  -- Recording the providers of a route, if it returns, leaves this list as the route's assignment,
  -- also if it is empty or is what older stores write as a single tag. Recording it again then
  -- writes nothing. The assignments of the other routes are as before.
  pub set_route_assignment_lem :
      (route_name : Text) (tags : List Text) (s t : S)
      → set_route_assignment store crypto route_name tags s ≡ ok t
      → (get_route_assignment store crypto route_name t ≡ some tags)
        × (set_route_assignment store crypto route_name tags t ≡ ok t)
        × ((other : Text)
            → (route_name == other) ≡ false
            → get_route_assignment store crypto other t ≡ get_route_assignment store crypto other s)
  unfolding set_route_assignment
  set_route_assignment_lem route_name tags s t h =
      elim (Bool-cases
        (tags_are store crypto (get_route_assignment store crypto route_name s) tags)) [
          | inl same ↦
              let k : ok s ≡ ok t = rw same at h in
              let e : s ≡ t = cc k in
              let r : get_route_assignment store crypto route_name t ≡ some tags =
                subst (λ (u : S). get_route_assignment store crypto route_name u ≡ some tags) e
                  (tags_are_lem (get_route_assignment store crypto route_name s) tags same) in
              (
                r,
                recorded route_name tags t r,
                λ other ne. ap (get_route_assignment store crypto other) (sym e),
              )
          | inr new ↦
              let w : store.write (codes "routes/" ++ route_name) (array (tag_items tags)) s
                  ≡ ok t =
                rw new at h in
              let r : get_route_assignment store crypto route_name t ≡ some tags =
                assigned route_name tags s t w in
              (
                r,
                recorded route_name tags t r,
                other_route route_name (array (tag_items tags)) s t w,
              )
        ]
