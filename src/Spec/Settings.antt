-- ===== src/Spec/Settings.antt =====
-- The settings of an app, by name, in what _build of kelso/lib/spec.py makes.
use mathlib.Core.Path.{ap₂}
use kelso.Common.{
  ◌≡◌, refl, sym, ◌∙◌, ap, arith, true, false, Option, none, some, [], ◌∷◌, ◌++◌, map,
  if◌then◌else◌, ◌==◌, eq_nat, eq_list, contains, Bool-cases, inl, inr, ==→eq, ==_sym, ◌⊎◌,
}
use kelso.Common.Text.{Text, codes}
use kelso.Common.Dict.{Dict, get, has, put, put_all, keys}
use kelso.Common.Dict.Laws.{IsDict, get-put, get-contains}
use kelso.Options.Defs.{subdomain, start_order, option_named}
use kelso.Manifest.Entries.{Manifest, ConfigEntry}
use kelso.Spec.Defs.{ConfigSection, config, advanced, AppConfig}
use kelso.Spec.Build.{setting_item, option_setting, add_options, build_config}

-- a value, or else another
abbrev pub or_else {ℓ} : {A : Type ℓ} → Option A → Option A → Option A
or_else none other = other
or_else (some a) other = some a

or_else-none : {A : Type 0} (o : Option A) → or_else o none ≡ o
or_else-none none = refl
or_else-none (some a) = refl

or_else_assoc : {A : Type 0} (a b c : Option A) → or_else (or_else a b) c ≡ or_else a (or_else b c)
or_else_assoc none b c = refl
or_else_assoc (some x) b c = refl

-- Items with different keys stand over what was there.
get-put_all :
    (d items : Dict Text AppConfig) (k : Text)
    → IsDict items
    → get (put_all d items) k ≡ or_else (get items k) (get d k)
unfolding put_all get
get-put_all d [] k h = refl
get-put_all d ((j, v) ∷ items) k h =
    get-put_all (put d j v) items k h.1
    ∙ (ap (or_else (get items k)) (get-put d j k v) ∙ over (Bool-cases (j == k)))
  where
    over :
        ((j == k) ≡ true) ⊎ ((j == k) ≡ false)
        → or_else (get items k) (if j == k then some v else get d k)
          ≡ or_else (if j == k then some v else get items k) (get d k)
    over (inl same) =
        let gone : get items k ≡ none =
          ap (get items) (sym (==→eq j k same)) ∙ get-contains items j h.0 in
        rw (same, gone) refl
    over (inr other) = rw other refl

put_all-append : (d a b : Dict Text AppConfig) → put_all d (a ++ b) ≡ put_all (put_all d a) b
unfolding put_all
put_all-append d [] b = refl
put_all-append d ((j, v) ∷ a) b = put_all-append (put d j v) a b

-- a setting that a section declares
abbrev declared_as : ConfigSection → Text → Option ConfigEntry → Option AppConfig
declared_as section name none = none
declared_as section name (some entry) = some (setting_item section (name, entry)).1

abbrev pub declared : ConfigSection → Dict Text ConfigEntry → Text → Option AppConfig
declared section entries name = declared_as section name (get entries name)

-- the setting of the option of that name
abbrev pub default_setting : Text → Text → Option AppConfig
default_setting app name = elim (option_named name) [
  | none ↦ none
  | some o ↦ some (option_setting app o)
]

get_declared :
    (section : ConfigSection) (entries : Dict Text ConfigEntry) (name : Text)
    → get (map (setting_item section) entries) name ≡ declared section entries name
unfolding get setting_item
get_declared section [] name = refl
get_declared section ((j, entry) ∷ entries) name = elim (Bool-cases (j == name)) [
  | inl same ↦ rw same (ap (λ n. some (setting_item section (n, entry)).1) (==→eq j name same))
  | inr other ↦ rw other (get_declared section entries name)
]

keys_declared :
    (section : ConfigSection) (entries : Dict Text ConfigEntry)
    → keys (map (setting_item section) entries) ≡ keys entries
unfolding keys setting_item
keys_declared section [] = refl
keys_declared section ((j, entry) ∷ entries) = ap (λ ks. j ∷ ks) (keys_declared section entries)

declared-IsDict :
    (section : ConfigSection) (entries : Dict Text ConfigEntry)
    → IsDict entries
    → IsDict (map (setting_item section) entries)
unfolding setting_item
declared-IsDict section [] h = tt
declared-IsDict section ((j, entry) ∷ entries) h = (
  ap (λ ks. contains ks j) (keys_declared section entries) ∙ h.0,
  declared-IsDict section entries h.1,
)

default_lem :
    (settings : Dict Text AppConfig) (j k : Text) (v : AppConfig)
    → get (if has settings j then settings else put settings j v) k
      ≡ or_else (get settings k) (if j == k then some v else none)
unfolding has
default_lem settings j k v = there (get settings j) refl
  where
    there :
        (o : Option AppConfig)
        → get settings j ≡ o
        → get (if elim o [ none ↦ false | some w ↦ true ] then settings else put settings j v) k
          ≡ or_else (get settings k) (if j == k then some v else none)
    there none h = get-put settings j k v ∙ fresh (Bool-cases (j == k))
      where
        fresh :
            ((j == k) ≡ true) ⊎ ((j == k) ≡ false)
            → (if j == k then some v else get settings k)
              ≡ or_else (get settings k) (if j == k then some v else none)
        fresh (inl same) =
            let gone : get settings k ≡ none = ap (get settings) (sym (==→eq j k same)) ∙ h in
            rw (same, gone) refl
        fresh (inr other) = rw other (sym (or_else-none (get settings k)))
    there (some w) h = kept (Bool-cases (j == k))
      where
        kept :
            ((j == k) ≡ true) ⊎ ((j == k) ≡ false)
            → get settings k ≡ or_else (get settings k) (if j == k then some v else none)
        kept (inl same) =
            let held : get settings k ≡ some w = ap (get settings) (sym (==→eq j k same)) ∙ h in
            rw held refl
        kept (inr other) = rw other (sym (or_else-none (get settings k)))

sections_lem :
    (m : Manifest) (name : Text)
    → IsDict m.config
    → IsDict m.adv_config
    → get
        (put_all []
          (map (setting_item config) m.config ++ map (setting_item advanced) m.adv_config))
        name
      ≡ or_else (declared advanced m.adv_config name) (declared config m.config name)
unfolding get
sections_lem m name hc ha =
    let cs = map (setting_item config) m.config in
    let items = map (setting_item advanced) m.adv_config in
    ap (λ d. get d name) (put_all-append [] cs items)
    ∙ (get-put_all (put_all [] cs) items name (declared-IsDict advanced m.adv_config ha)
        ∙ (ap (or_else (get items name)) (
              get-put_all [] cs name (declared-IsDict config m.config hc)
              ∙ or_else-none (get cs name))
            ∙ ap₂ or_else (get_declared advanced m.adv_config name)
                (get_declared config m.config name)))

option_lem :
    (app name : Text)
    → or_else
        (if codes "subdomain" == name then some (option_setting app subdomain) else none)
        (if codes "start_order" == name then some (option_setting app start_order) else none)
      ≡ default_setting app name
unfolding option_named
option_lem app name =
    ground (arith, ==_sym (codes "subdomain") name, ==_sym (codes "start_order") name)

-- Of settings that no section declares twice: a name is what [adv_config] declares, or else what
-- [config] does, or else the app option of that name with its default for the app. Nothing else is
-- a setting of the app.
pub build_config_lem :
    (m : Manifest) (app name : Text)
    → IsDict m.config
    → IsDict m.adv_config
    → get (build_config app m) name
      ≡ or_else
          (declared advanced m.adv_config name)
          (or_else (declared config m.config name) (default_setting app name))
unfolding build_config add_options
build_config_lem m app name hc ha =
    let items =
      put_all [] (map (setting_item config) m.config ++ map (setting_item advanced) m.adv_config) in
    default_lem
      (if has items (codes "subdomain")
        then items
        else put items (codes "subdomain") (option_setting app subdomain))
      (codes "start_order") name (option_setting app start_order)
    ∙ (ap
          (λ o.
            or_else o
              (if codes "start_order" == name then some (option_setting app start_order) else none))
          (default_lem items (codes "subdomain") name (option_setting app subdomain))
        ∙ (or_else_assoc (get items name) _ _
            ∙ (ap (or_else (get items name)) (option_lem app name)
                ∙ (ap (λ o. or_else o (default_setting app name)) (sections_lem m name hc ha)
                    ∙ or_else_assoc (declared advanced m.adv_config name)
                        (declared config m.config name) (default_setting app name)))))
