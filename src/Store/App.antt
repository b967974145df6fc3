-- ===== src/Store/App.antt =====
-- AppStore of kelso/lib/store.py.
pub mod Laws
pub mod Records
use kelso.Common.{
  ℕ, Bool, true, false, not, ◌&&◌, ◌||◌, Option, none, some, List, [], ◌∷◌, ◌++◌, if◌then◌else◌,
  ◌==◌, eq_nat, eq_list, ◌≡◌, refl,
}
use kelso.Common.Result.{Result, ok, err, ◌>>=◌}
use kelso.Common.Text.{Text, codes}
use kelso.Common.Dict.{Dict, get}
use kelso.Store.Json.{
  Json, null, minus_one, boolean, number, text, array, object, Items, no_items, item, Fields,
  no_fields, field,
}
use kelso.Store.Config.{Error, bad_entry, invalid_token, no_key, ConfigStore, CryptoEngine}

-- entry[name], and the KeyError
unfoldable pub field_of : Text → Fields → Result Error Json
field_of name no_fields = err bad_entry
field_of name (field n v fields) =
    let rest = field_of name fields in if n == name then ok v else rest

unfoldable pub entry_field : Text → Json → Result Error Json
unfolding field_of
entry_field name (object fields) = field_of name fields
entry_field name other = err bad_entry

-- A tag list as JSON, and the list of texts that a value is.
abbrev pub tag_items : List Text → Items
tag_items [] = no_items
tag_items (tag ∷ tags) = item (text tag) (tag_items tags)

unfoldable pub item_tags : Items → Option (List Text)
item_tags no_items = some []
item_tags (item (text tag) items) = elim (item_tags items) [
  | none ↦ none
  | some tags ↦ some (tag ∷ tags)
]
item_tags (item other items) = none

-- NONE_ROUTE_PROVIDER_TAG of kelso/lib/config.py
abbrev pub none_route_provider_tag : Text
none_route_provider_tag = codes "none"

-- _route_tags
unfoldable pub route_tags : Json → Option (List Text)
unfolding item_tags
route_tags (text tag) = if tag == none_route_provider_tag then some [] else some (tag ∷ [])
route_tags (array items) = item_tags items
route_tags other = none

-- (secret, plaintext_value), or (None, None)
pub data Setting : Type 0 where
  unset : Setting
  setting : Bool → Text → Setting

-- A stored `secret` that is not a Boolean and a value that is not a text are not in the model.
unfoldable pub read_setting : CryptoEngine → Json → Json → Result Error Setting
read_setting crypto (boolean true) (text raw) = do
  plain ← crypto.decrypt raw
  ok (setting true plain)
read_setting crypto (boolean false) (text raw) = ok (setting false raw)
read_setting crypto secret raw = err bad_entry

abbrev pub setting_is : Setting → Bool → Text → Bool
setting_is unset secret value = false
setting_is (setting true v) true value = v == value
setting_is (setting false v) false value = v == value
setting_is (setting a v) b value = false

-- {"secret": secret, "value": stored}
abbrev pub setting_entry : Bool → Text → Json
setting_entry secret stored =
    object (field (codes "secret") (boolean secret) (field (codes "value") (text stored) no_fields))

-- what get_config makes of the entry that it reads
unfoldable pub setting_of : CryptoEngine → Json → Result Error Setting
unfolding read_setting entry_field
setting_of crypto null = ok unset
setting_of crypto entry = do
  secret ← entry_field (codes "secret") entry
  raw ← entry_field (codes "value") entry
  read_setting crypto secret raw

-- the test of _config_is, which catches InvalidToken
unfoldable pub same_setting : Bool → Text → Result Error Setting → Result Error Bool
same_setting secret value (ok found) = ok (setting_is found secret value)
same_setting secret value (err invalid_token) = ok false
same_setting secret value (err other) = err other

module _ {S : Type 0} (store : ConfigStore S) (crypto : CryptoEngine) where
  -- AppStore.get_config
  unfoldable pub get_config : Text → S → Result Error Setting
  unfolding setting_of
  get_config name s = setting_of crypto (store.read (codes "config/" ++ name) s)

  -- AppStore._config_is
  unfoldable pub config_is : Text → Bool → Text → S → Result Error Bool
  unfolding get_config same_setting
  config_is name secret value s = same_setting secret value (get_config name s)

  -- what set_config stores: the value, or its encryption
  unfoldable pub stored_value : Bool → Text → Result Error Text
  stored_value true value = crypto.encrypt value
  stored_value false value = ok value

  -- set_config, of a value that is not on file
  unfoldable pub write_config : Text → Bool → Text → S → Result Error S
  unfolding stored_value
  write_config name secret value s = do
    stored ← stored_value secret value
    store.write (codes "config/" ++ name) (setting_entry secret stored) s

  -- AppStore.set_config
  unfoldable pub set_config : Text → Bool → Text → S → Result Error S
  unfolding config_is write_config
  set_config name secret value s = do
    same ← config_is name secret value s
    if same then ok s else write_config name secret value s

  -- AppStore.get_route_assignment
  unfoldable pub get_route_assignment : Text → S → Option (List Text)
  unfolding route_tags
  get_route_assignment route_name s = route_tags (store.read (codes "routes/" ++ route_name) s)

  abbrev pub tags_are : Option (List Text) → List Text → Bool
  tags_are none tags = false
  tags_are (some found) tags = found == tags

  -- AppStore.set_route_assignment
  unfoldable pub set_route_assignment : Text → List Text → S → Result Error S
  unfolding get_route_assignment
  set_route_assignment route_name tags s =
      if tags_are (get_route_assignment route_name s) tags
      then ok s
      else store.write (codes "routes/" ++ route_name) (array (tag_items tags)) s
