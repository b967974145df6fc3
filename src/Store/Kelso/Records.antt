-- ===== src/Store/Kelso/Records.antt =====
-- KelsoStore of kelso/lib/store.py: its id, the records of backups and repositories, and apps.
use kelso.Common.{
  ℕ, ◌+◌, Bool, true, false, Option, none, some, List, [], ◌∷◌, ◌++◌, if◌then◌else◌, ◌==◌, eq_nat,
  eq_list, contains,
}
use kelso.Common.Result.{Result, ok, err, ◌>>=◌}
use kelso.Common.Text.{Text, codes, partition}
use kelso.Common.Dict.{Dict, keys}
use kelso.Common.Sort.{sorted}
use kelso.Store.Json.{
  Json, null, minus_one, boolean, number, text, array, object, Fields, no_fields, field,
}
use kelso.Store.Config.{Error, bad_entry, ConfigStore, CryptoEngine}
use kelso.Store.App.{entry_field}

abbrev kelso_id_key : Text
kelso_id_key = codes "system/kelso_id"

abbrev backup_run_key : Text
backup_run_key = codes "system/backup/last_run"

-- the id that is on file: a text that is not empty
abbrev found_id : Json → Option Text
found_id (text []) = none
found_id (text (c ∷ s)) = some (c ∷ s)
found_id null = none
found_id minus_one = none
found_id (boolean b) = none
found_id (number n) = none
found_id (array items) = none
found_id (object _) = none

-- the object that is on file, if it is one
abbrev found_object : Json → Option Fields
found_object (object fields) = some fields
found_object null = none
found_object minus_one = none
found_object (boolean b) = none
found_object (number n) = none
found_object (text t) = none
found_object (array items) = none

-- {"sha": sha, "at": at}, of texts
unfoldable pub repo_state_of : Json → Option (Text × Text)
unfolding entry_field
repo_state_of entry = elim (entry_field (codes "sha") entry) [
  | ok sha ↦ elim (entry_field (codes "at") entry) [ ok at ↦ both sha at | err e ↦ none ]
  | err e ↦ none
]
  where
    both : Json → Json → Option (Text × Text)
    both (text sha) (text at) = some (sha, at)
    both sha at = none

abbrev add_id : Text → List Text → List Text
add_id id ids = if contains ids id then ids else id ∷ ids

-- {key.split("/")[0] for key in …}
unfoldable pub first_parts : List Text → List Text
unfolding partition
first_parts [] = []
first_parts (key ∷ ks) = add_id (partition b'/' key).before (first_parts ks)

-- whether a dict of matches is not empty
abbrev pub any_match : Dict Text Json → Bool
any_match [] = false
any_match (m ∷ ms) = true

module _ {S : Type 0} (store : ConfigStore S) where
  -- KelsoStore.kelso_id, where `made` is what token_hex makes
  unfoldable pub kelso_id : Text → S → Result Error (Text × S)
  kelso_id made s = elim (found_id (store.read kelso_id_key s)) [
    | some id ↦ ok (id, s)
    | none ↦ store.write kelso_id_key (text made) s >>= λ t. ok (made, t)
  ]

  -- KelsoStore.record_backup_run, of a run with its reason
  unfoldable pub record_backup_run : Text → Fields → S → Result Error S
  record_backup_run reason run s = store.write backup_run_key (object run) s >>= λ t.
      store.write (backup_run_key ++ (codes "/" ++ reason)) (object run) t

  -- KelsoStore.last_backup_run
  unfoldable pub last_backup_run : Option Text → S → Option Fields
  last_backup_run none s = found_object (store.read backup_run_key s)
  last_backup_run (some reason) s =
      found_object (store.read (backup_run_key ++ (codes "/" ++ reason)) s)

  -- KelsoStore.set_repo_state
  unfoldable pub set_repo_state : (name sha at : Text) → S → Result Error S
  set_repo_state name sha at s =
      store.write (codes "repo/" ++ name)
        (object (field (codes "sha") (text sha) (field (codes "at") (text at) no_fields))) s

  -- KelsoStore.get_repo_state
  unfoldable pub get_repo_state : Text → S → Option (Text × Text)
  unfolding repo_state_of
  get_repo_state name s = repo_state_of (store.read (codes "repo/" ++ name) s)

  -- KelsoStore.del_repo_state
  unfoldable pub del_repo_state : Text → S → Result Error S
  del_repo_state name s = store.delete (codes "repo/" ++ name) s

  -- KelsoStore.list_secrets
  unfoldable pub list_secrets : S → List Text
  unfolding sorted keys
  list_secrets s = sorted (keys (store.scan (codes "system/secrets/") s))

  -- KelsoStore.del_secret
  unfoldable pub del_secret : Text → S → Result Error S
  del_secret name s = store.delete (codes "system/secrets/" ++ name) s

  -- KelsoStore.list_routes, set_route and clear_routes
  unfoldable pub list_routes : Text → S → Dict Text Json
  list_routes app_id s = store.scan (codes "routes/" ++ (app_id ++ codes "/")) s

  unfoldable pub set_route : (app_id route_name : Text) → Fields → S → Result Error S
  set_route app_id route_name entry s =
      store.write (codes "routes/" ++ (app_id ++ (codes "/" ++ route_name))) (object entry) s

  unfoldable pub clear_routes : Text → S → Result Error S
  clear_routes app_id s = store.clear (codes "routes/" ++ (app_id ++ codes "/")) s

  -- KelsoStore.app_ids
  unfoldable pub app_ids : S → List Text
  unfolding first_parts sorted keys
  app_ids s = sorted (first_parts (keys (store.scan (codes "routes/") s)))

  -- KelsoStore.purge_app
  unfoldable pub purge_app : Text → S → Result Error (Bool × S)
  unfolding list_routes clear_routes
  purge_app app_id s = clear_routes app_id s >>= λ t. ok (any_match (list_routes app_id s), t)

-- _decrypt_or_none
unfoldable pub decrypt_or_none : CryptoEngine → Text → Option Text
decrypt_or_none crypto blob = elim (crypto.decrypt blob) [ ok plain ↦ some plain | err e ↦ none ]

-- What a rekey has done: how many it wrote, and the names that it could not read.
pub record Rekeyed (S : Type 0) : Type 0 where
  pub state : S
  pub written : ℕ
  pub unreadable : List Text

module _ {S : Type 0} (store : ConfigStore S) (crypto old : CryptoEngine) where
  -- one secret of rekey_secrets: the name, and what `old` reads of it; `entry` makes the record
  unfoldable pub rekey_one :
      Text → (Text → Json) → Option Text → Rekeyed S → Result Error (Rekeyed S)
  rekey_one key entry none r = ok (record r { unreadable = r.unreadable ++ key ∷ [] })
  rekey_one key entry (some plain) r = do
    blob ← crypto.encrypt plain
    t ← store.write key (entry blob) r.state
    ok (record r { state = t; written = r.written + 1 })

  -- {**token, "tok": blob}
  unfoldable pub with_tok : Text → Fields → Fields
  with_tok blob no_fields = field (codes "tok") (text blob) no_fields
  with_tok blob (field n v fields) =
      let rest = with_tok blob fields in
      if n == codes "tok" then field n (text blob) fields else field n v rest

  abbrev rekeyed_token : Json → Text → Json
  rekeyed_token (object fields) blob = object (with_tok blob fields)
  rekeyed_token other blob = other

  -- what `old` reads of a value, a text
  abbrev old_text : Json → Result Error (Option Text)
  old_text (text blob) = ok (decrypt_or_none old blob)
  old_text other = err bad_entry

  unfoldable pub rekey_plain : Dict Text Json → Rekeyed S → Result Error (Rekeyed S)
  unfolding rekey_one decrypt_or_none
  rekey_plain [] r = ok r
  rekey_plain ((name, blob) ∷ entries) r = old_text blob >>= λ plain.
      rekey_one (codes "system/secrets/" ++ name) (λ b. text b) plain r >>= λ t.
      rekey_plain entries t

  unfoldable pub rekey_tokens : Dict Text Json → Rekeyed S → Result Error (Rekeyed S)
  unfolding rekey_one decrypt_or_none with_tok entry_field
  rekey_tokens [] r = ok r
  rekey_tokens ((name, token) ∷ entries) r = entry_field (codes "tok") token >>= λ tok.
      old_text tok >>= λ plain.
      rekey_one (codes "system/tokens/" ++ name) (rekeyed_token token) plain r >>= λ t.
      rekey_tokens entries t

  -- KelsoStore.rekey_secrets
  unfoldable pub rekey_secrets : S → Result Error (Rekeyed S)
  unfolding rekey_plain rekey_tokens
  rekey_secrets s =
      rekey_plain (store.scan (codes "system/secrets/") s)
        (record { state = s; written = 0; unreadable = [] })
      >>= λ r. rekey_tokens (store.scan (codes "system/tokens/") r.state) r
