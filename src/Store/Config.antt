-- ===== src/Store/Config.antt =====
-- ConfigStore of kelso/lib/store.py: the operations of a store, and what its clients rely on.
use kelso.Common.{◌≡◌, Option, none, some, ◌++◌, if◌then◌else◌, ◌==◌, eq_nat, eq_list}
use kelso.Common.Text.{Text, starts_with}
use kelso.Common.Dict.{Dict, get}
use kelso.Common.Result.{Result, ok}
use kelso.Store.Json.{Json, null}

pub data Error : Type 0 where
  not_writable bad_prefix bad_entry no_key invalid_token no_port : Error

-- d.get(k), where a missing value is null
abbrev pub or_null : Option Json → Json
or_null none = null
or_null (some v) = v

-- The operations of a store with states in `S`, and the laws that its clients rely on, which the code
-- leaves unsaid: a `write` that returns has changed its key and no other; a scan finds the keys with
-- a prefix, and gives them without it. `json_store` of JsonStore fills them for JsonLogtabStore.
pub record ConfigStore (S : Type 0) : Type 0 where
  pub write : Text → Json → S → Result Error S
  pub read : Text → S → Json
  pub scan : Text → S → Dict Text Json
  pub clear : Text → S → Result Error S
  pub delete : Text → S → Result Error S
  pub read-write :
      (k j : Text) (v : Json) (s t : S)
      → write k v s ≡ ok t
      → read j t ≡ (if k == j then v else read j s)
  pub read-clear :
      (p j : Text) (s t : S)
      → clear p s ≡ ok t
      → read j t ≡ (if starts_with j p then null else read j s)
  pub read-delete :
      (k j : Text) (s t : S) → delete k s ≡ ok t → read j t ≡ (if k == j then null else read j s)
  pub scan-read : (p j : Text) (s : S) → or_null (get (scan p s) j) ≡ read (p ++ j) s

-- What encrypts: FernetCryptoEngine, or MissingKeyEngine, which refuses each use.
pub record CryptoEngine : Type 0 where
  pub encrypt : Text → Result Error Text
  pub decrypt : Text → Result Error Text
  pub decrypt-encrypt : (plain blob : Text) → encrypt plain ≡ ok blob → decrypt blob ≡ ok plain
