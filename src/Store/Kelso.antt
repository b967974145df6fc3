-- ===== src/Store/Kelso.antt =====
-- KelsoStore of kelso/lib/store.py.
pub mod Ports
pub mod Secrets
pub mod Records
use kelso.Common.{
  ℕ, zero, suc, ◌+◌, Bool, true, false, not, ◌&&◌, ◌||◌, Option, none, some, List, [], ◌∷◌, ◌++◌,
  if◌then◌else◌, ltb, ◌==◌, eq_nat, eq_list, contains, length,
}
use kelso.Common.Result.{Result, ok, err, ◌>>=◌}
use kelso.Common.Text.{Text, codes, is_empty, isdigit, int}
use kelso.Common.Dict.{Dict}
use kelso.Store.Json.{
  Json, null, minus_one, boolean, number, text, array, object, no_items, Fields, no_fields, field,
}
use kelso.Store.Config.{Error, bad_entry, no_port, ConfigStore, CryptoEngine}
use kelso.Store.App.{entry_field}

abbrev pub port_range_size : ℕ
port_range_size = 1000

-- int(value)
unfoldable pub port_number : Json → Result Error ℕ
port_number (number n) = ok n
port_number (text t) = if isdigit t then ok (int t) else err bad_entry
port_number other = err bad_entry

-- int(entry["host_port"]), for each entry
unfoldable pub occupied_ports : Dict Text Json → Result Error (List ℕ)
unfolding port_number entry_field
occupied_ports [] = ok []
occupied_ports ((name, entry) ∷ entries) = do
  value ← entry_field (codes "host_port") entry
  port ← port_number value
  ports ← occupied_ports entries
  ok (port ∷ ports)

-- while port in occupied: port += 1
unfoldable pub first_free : ℕ → List ℕ → ℕ → Option ℕ
first_free zero occupied port = none
first_free (suc fuel) occupied port =
    let later = first_free fuel occupied (port + 1) in
    if contains occupied port then later else some port

-- next_free_port, on the ports in use
unfoldable pub free_port : ℕ → List ℕ → Result Error ℕ
unfolding first_free
free_port port_base occupied = elim (first_free (suc (length occupied)) occupied port_base) [
  | none ↦ err no_port
  | some port ↦ if ltb (port_base + port_range_size) port then err no_port else ok port
]

-- A token's value and its expiry, if it is there and has not expired.
abbrev pub Token : Type 0
Token = Option (Text × Json)

-- exp > 0 and int(time.time()) > exp
unfoldable pub has_expired : ℕ → Json → Bool
has_expired now (number exp) = ltb 0 exp && ltb exp now
has_expired now other = false

-- The text of a JSON value, and otherwise what decrypt makes of it: it cannot encode it.
unfoldable pub decrypt_json : CryptoEngine → Json → Result Error Text
decrypt_json crypto (text blob) = crypto.decrypt blob
decrypt_json crypto other = err bad_entry

-- bool(value)
unfoldable pub is_truthy : Json → Bool
is_truthy null = false
is_truthy (boolean b) = b
is_truthy (number zero) = false
is_truthy (text []) = false
is_truthy (array no_items) = false
is_truthy (object no_fields) = false
is_truthy other = true

-- get_token, of a token that has not expired
unfoldable pub live_token : CryptoEngine → Json → Json → Result Error Token
unfolding entry_field decrypt_json
live_token crypto exp entry = do
  tok ← entry_field (codes "tok") entry
  plain ← decrypt_json crypto tok
  ok (some (plain, exp))

-- what get_token makes of the entry
unfoldable pub token_of : CryptoEngine → ℕ → Json → Result Error Token
unfolding entry_field has_expired live_token is_truthy
token_of crypto now entry =
    if is_truthy entry
    then (do
      exp ← entry_field (codes "exp") entry
      if has_expired now exp then ok none else live_token crypto exp entry)
    else ok none

-- what get_secret makes of the entry
unfoldable pub secret_of : CryptoEngine → Json → Result Error (Option Text)
unfolding decrypt_json
secret_of crypto null = ok none
secret_of crypto entry = decrypt_json crypto entry >>= λ plain. ok (some plain)

module _ {S : Type 0} (store : ConfigStore S) where
  -- KelsoStore.next_free_port
  unfoldable pub next_free_port : ℕ → S → Result Error ℕ
  unfolding occupied_ports free_port
  next_free_port port_base s = do
    occupied ← occupied_ports (store.scan (codes "routes/") s)
    free_port port_base occupied

module _ {S : Type 0} (store : ConfigStore S) (crypto : CryptoEngine) where
  -- KelsoStore.set_token
  unfoldable pub set_token : Text → Text → Json → S → Result Error S
  set_token key value expire_at s = do
    tok ← crypto.encrypt value
    store.write (codes "system/tokens/" ++ key)
        (object (field (codes "tok") (text tok) (field (codes "exp") expire_at no_fields))) s

  -- KelsoStore.get_token, at a time in seconds
  unfoldable pub get_token : ℕ → Text → S → Result Error Token
  unfolding token_of
  get_token now key s = token_of crypto now (store.read (codes "system/tokens/" ++ key) s)

  -- KelsoStore.set_secret
  unfoldable pub set_secret : Text → Text → S → Result Error S
  set_secret name value s = do
    blob ← crypto.encrypt value
    store.write (codes "system/secrets/" ++ name) (text blob) s

  -- KelsoStore.get_secret
  unfoldable pub get_secret : Text → S → Result Error (Option Text)
  unfolding secret_of
  get_secret name s = secret_of crypto (store.read (codes "system/secrets/" ++ name) s)
