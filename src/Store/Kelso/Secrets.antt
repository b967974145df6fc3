-- ===== src/Store/Kelso/Secrets.antt =====
-- The secrets and the tokens of KelsoStore in kelso/lib/store.py.
use kelso.Common.{
  ℕ, false, none, some, ◌++◌, if◌then◌else◌, ◌==◌, eq_nat, eq_list, ◌≡◌, refl, ap, ◌∙◌, arith,
  ==_refl,
}
use kelso.Common.Result.{ok, ok_of_bind}
use kelso.Common.Text.{Text, codes}
use kelso.Store.Json.{Json, text, object, no_fields, field}
use kelso.Store.Config.{ConfigStore, CryptoEngine}
use kelso.Store.App.{field_of, entry_field}
use kelso.Store.App.Laws.{same_prefix}
use kelso.Store.Kelso.{
  has_expired, decrypt_json, is_truthy, live_token, token_of, secret_of, set_token, get_token,
  set_secret, get_secret,
}

module _ {S : Type 0} (store : ConfigStore S) (crypto : CryptoEngine) where
  secret_back :
      (value blob : Text)
      → crypto.encrypt value ≡ ok blob
      → secret_of crypto (text blob) ≡ ok (some value)
  unfolding secret_of decrypt_json
  secret_back value blob e = rw (crypto.decrypt-encrypt value blob e) refl

  token_back :
      (now : ℕ) (value blob : Text) (exp : Json)
      → crypto.encrypt value ≡ ok blob
      → token_of crypto now
          (object (field (codes "tok") (text blob) (field (codes "exp") exp no_fields)))
        ≡ ok (if has_expired now exp then none else some (value, exp))
  unfolding token_of live_token decrypt_json is_truthy entry_field field_of
  token_back now value blob exp e = rw (crypto.decrypt-encrypt value blob e) (ground arith)

  -- A secret that is set is read back, and reading the secrets of other names gives what it gave
  -- before.
  pub set_secret_lem :
      (name value : Text) (s t : S)
      → set_secret store crypto name value s ≡ ok t
      → (get_secret store crypto name t ≡ ok (some value))
        × ((other : Text)
            → (name == other) ≡ false
            → get_secret store crypto other t ≡ get_secret store crypto other s)
  unfolding set_secret get_secret
  set_secret_lem name value s t h =
      let blob = ok_of_bind (crypto.encrypt value) _ h in
      let reads = λ (j : Text).
        store.read-write (codes "system/secrets/" ++ name) j (text blob.0) s t blob.2 in
      let here : store.read (codes "system/secrets/" ++ name) t ≡ text blob.0 =
        reads (codes "system/secrets/" ++ name)
        ∙ rw (==_refl (codes "system/secrets/" ++ name)) refl in
      (
        ap (secret_of crypto) here ∙ secret_back value blob.0 blob.1,
        λ other ne.
            let there : store.read (codes "system/secrets/" ++ other) t
                ≡ store.read (codes "system/secrets/" ++ other) s =
              reads (codes "system/secrets/" ++ other)
              ∙ rw (same_prefix (codes "system/secrets/") name other ∙ ne) refl in
            ap (secret_of crypto) there,
      )

  -- A token that is set is read back with its expiry until the seconds of the clock are past an
  -- expiry above 0, and from then on no token is read. The tokens of other keys are read as before.
  pub set_token_lem :
      (now : ℕ) (key value : Text) (exp : Json) (s t : S)
      → set_token store crypto key value exp s ≡ ok t
      → (get_token store crypto now key t
          ≡ ok (if has_expired now exp then none else some (value, exp)))
        × ((other : Text)
            → (key == other) ≡ false
            → get_token store crypto now other t ≡ get_token store crypto now other s)
  unfolding set_token get_token
  set_token_lem now key value exp s t h =
      let blob = ok_of_bind (crypto.encrypt value) _ h in
      let entry : Json =
        object (field (codes "tok") (text blob.0) (field (codes "exp") exp no_fields)) in
      let reads =
        λ (j : Text). store.read-write (codes "system/tokens/" ++ key) j entry s t blob.2 in
      let here : store.read (codes "system/tokens/" ++ key) t ≡ entry =
        reads (codes "system/tokens/" ++ key) ∙ rw (==_refl (codes "system/tokens/" ++ key)) refl in
      (
        ap (token_of crypto now) here ∙ token_back now value blob.0 exp blob.1,
        λ other ne.
            let there : store.read (codes "system/tokens/" ++ other) t
                ≡ store.read (codes "system/tokens/" ++ other) s =
              reads (codes "system/tokens/" ++ other)
              ∙ rw (same_prefix (codes "system/tokens/") key other ∙ ne) refl in
            ap (token_of crypto now) there,
      )
