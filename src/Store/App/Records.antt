-- ===== src/Store/App/Records.antt =====
-- AppStore of kelso/lib/store.py: what it keeps besides settings and assignments of routes, and the
-- writing again of its secrets under a new key.
use kelso.Common.{
  Bool, true, false, not, Option, none, some, List, [], ◌∷◌, ◌++◌, if◌then◌else◌, ◌==◌, eq_nat,
  eq_list,
}
use kelso.Common.Result.{Result, ok, err, ◌>>=◌}
use kelso.Common.Text.{Text, codes}
use kelso.Common.Dict.{Dict}
use kelso.Common.Sort.{gather}
use kelso.Store.Json.{Json, null, minus_one, boolean, number, text, array, object, no_fields, field}
use kelso.Store.Config.{Error, bad_entry, ConfigStore, CryptoEngine}
use kelso.Store.App.{entry_field, route_tags}
use kelso.Store.Kelso.{is_truthy}
use kelso.Store.Kelso.Records.{Rekeyed, rekey_one, decrypt_or_none}

abbrev is_null : Json → Bool
is_null null = true
is_null minus_one = false
is_null (boolean b) = false
is_null (number n) = false
is_null (text t) = false
is_null (array items) = false
is_null (object _) = false

-- a value that is the text
abbrev is_text : Json → Text → Bool
is_text (text t) s = t == s
is_text null s = false
is_text minus_one s = false
is_text (boolean b) s = false
is_text (number n) s = false
is_text (array items) s = false
is_text (object _) s = false

-- the items whose value is a text
unfoldable pub text_items : Text × Json → Dict Text Text
text_items (name, text tag) = (name, tag) ∷ []
text_items (name, other) = []

unfoldable pub assigned_items : Text × Json → Dict Text (List Text)
unfolding route_tags
assigned_items (name, value) = elim (route_tags value) [ none ↦ [] | some tags ↦ (name, tags) ∷ [] ]

unfoldable pub true_items : Text × Json → List Text
true_items (name, boolean true) = name ∷ []
true_items (name, other) = []

module _ {S : Type 0} (store : ConfigStore S) where
  -- AppStore.has_config
  unfoldable pub has_config : Text → S → Bool
  has_config name s = not (is_null (store.read (codes "config/" ++ name) s))

  -- AppStore.set_bind
  unfoldable pub set_bind : (volume_name host_volume : Text) → S → Result Error S
  set_bind volume_name host_volume s =
      if is_text (store.read (codes "binds/" ++ volume_name) s) host_volume
      then ok s
      else store.write (codes "binds/" ++ volume_name) (text host_volume) s

  -- AppStore.list_binds
  unfoldable pub list_binds : S → Dict Text Text
  unfolding text_items gather
  list_binds s = gather text_items (store.scan (codes "binds/") s)

  -- AppStore.has_route_assignment
  unfoldable pub has_route_assignment : Text → S → Bool
  has_route_assignment route_name s = not (is_null (store.read (codes "routes/" ++ route_name) s))

  -- AppStore.list_route_assignments
  unfoldable pub list_route_assignments : S → Dict Text (List Text)
  unfolding assigned_items gather
  list_route_assignments s = gather assigned_items (store.scan (codes "routes/") s)

  -- AppStore.set_backup_bulk
  unfoldable pub set_backup_bulk : Text → Bool → S → Result Error S
  set_backup_bulk volume_name on s = store.write (codes "backup/" ++ volume_name) (boolean on) s

  -- AppStore.backed_up_bulk
  unfoldable pub backed_up_bulk : S → List Text
  unfolding true_items gather
  backed_up_bulk s = gather true_items (store.scan (codes "backup/") s)

  -- AppStore.set_meta
  unfoldable pub set_meta : Text → Json → S → Result Error S
  set_meta name value s = store.write (codes "meta/" ++ name) value s

  -- AppStore.get_meta
  unfoldable pub get_meta : Text → S → Json
  get_meta name s = store.read (codes "meta/" ++ name) s

-- entry.get("secret"), whether it is one
unfoldable pub says_secret : Json → Bool
unfolding entry_field is_truthy
says_secret entry = elim (entry_field (codes "secret") entry) [
  | ok value ↦ is_truthy value
  | err e ↦ false
]

-- {"secret": True, "value": blob, REKEY_FIELD: True}
abbrev pub rekeyed_setting : Text → Json
rekeyed_setting blob = object (
    field (codes "secret") (boolean true)
      (field (codes "value") (text blob) (field (codes "rekey") (boolean true) no_fields)))

module _ {S : Type 0} (store : ConfigStore S) (crypto old : CryptoEngine) where
  abbrev old_value : Json → Result Error (Option Text)
  old_value (text blob) = ok (decrypt_or_none old blob)
  old_value other = err bad_entry

  -- one round of AppStore.rekey_secrets
  unfoldable pub rekey_setting : Text → Json → Rekeyed S → Result Error (Rekeyed S)
  unfolding says_secret entry_field rekey_one decrypt_or_none
  rekey_setting name entry r =
      if says_secret entry
      then (entry_field (codes "value") entry >>= λ value. old_value value >>= λ plain.
          rekey_one store crypto old (codes "config/" ++ name) rekeyed_setting plain r)
      else ok r

  unfoldable pub rekey_settings : Dict Text Json → Rekeyed S → Result Error (Rekeyed S)
  unfolding rekey_setting
  rekey_settings [] r = ok r
  rekey_settings ((name, entry) ∷ entries) r =
      rekey_setting name entry r >>= λ t. rekey_settings entries t

  -- AppStore.rekey_secrets
  unfoldable pub rekey_app_secrets : S → Result Error (Rekeyed S)
  unfolding rekey_settings
  rekey_app_secrets s =
      rekey_settings (store.scan (codes "config/") s)
        (record { state = s; written = 0; unreadable = [] })
