-- ===== src/PersistentStore/Access.antt =====
-- app/src/electron/persistentStore.ts: the object `persistentStore`, whose calls encrypt and decrypt
-- the two secrets.
use facenox.Base.{
  Bool, true, false, ◌||◌, List, [], ◌∷◌, ◌++◌, Option, none, some, drop, length, if◌then◌else◌,
}
use facenox.Base.Text.{Text, split, starts_with}
use facenox.PersistentStore.{
  Bytes, Value, missing, text, other, RawStore, Crypto, Keyring, Conditions, is_safe_storage_usable,
  is_secret_key, protected_prefix, vault_prefix,
}
use facenox.PersistentStore.VaultKey.{VaultKeys, get_vault_key}

abbrev pub is_empty : Text → Bool
is_empty [] = true
is_empty _ = false

-- A result, `none` for an exception, beside the keys of the vault after the call.
abbrev pub Keyed : Type 0 → Type 0
Keyed A = Option A × VaultKeys

module _ (crypto : Crypto) where
  abbrev pub vault_text : Conditions → Text → Option Bytes → Option Text
  vault_text c plaintext none = none
  vault_text c plaintext (some key) =
      let sealed = crypto.seal key c.random_iv (crypto.utf8 plaintext) in
      some (
        vault_prefix
        ++ (crypto.base64 c.random_iv
            ++ b'.' ∷ (crypto.base64 sealed.1 ++ b'.' ∷ crypto.base64 sealed.0)))

  unfoldable pub encrypt_with_vault : Conditions → Text → VaultKeys → Keyed Text
  encrypt_with_vault c plaintext v =
      let got = get_vault_key c true v in (vault_text c plaintext got.0, got.1)

  abbrev pub as_text : Option Bytes → Option Text
  as_text none = none
  as_text (some bytes) = some (crypto.from_utf8 bytes)

  abbrev pub unsealed : Text → Text → Text → Option Bytes → Option Text
  unsealed iv tag encrypted none = none
  unsealed iv tag encrypted (some key) = as_text (
      crypto.unseal key (crypto.from_base64 iv) (crypto.from_base64 tag)
        (crypto.from_base64 encrypted))

  abbrev pub decrypt_parts : Conditions → List Text → VaultKeys → Keyed Text
  decrypt_parts c (iv ∷ tag ∷ encrypted ∷ rest) v =
      let got = get_vault_key c false v in
      if is_empty iv || (is_empty tag || is_empty encrypted)
      then (none, v)
      else (unsealed iv tag encrypted got.0, got.1)
  decrypt_parts c parts v = (none, v)

  unfoldable pub decrypt_with_vault : Conditions → Text → VaultKeys → Keyed Text
  decrypt_with_vault c value v = decrypt_parts c (split b'.' (drop (length vault_prefix) value)) v

  abbrev pub keyring_text : Option Bytes → Option Text
  keyring_text none = none
  keyring_text (some encrypted) = some (protected_prefix ++ crypto.base64 encrypted)

  -- `requireSecretStorage` and the text that is then stored for a secret, in `get` and in `set`.
  abbrev pub when_required : Conditions → Text → Keyed Bytes → Keyed Text
  when_required c plaintext (none, v) = (none, v)
  when_required c plaintext (some key, v) = encrypt_with_vault c plaintext v

  unfoldable pub protected_text : Conditions → Text → VaultKeys → Keyed Text
  protected_text c plaintext v =
      if is_safe_storage_usable c.keyring
      then (keyring_text (c.keyring.encrypt_string plaintext), v)
      else when_required c plaintext (get_vault_key c true v)

  -- `get` of a secret that is encrypted by the keyring.
  unfoldable pub unlock : Keyring → Text → Option Text
  unlock keyring value =
      keyring.decrypt_string (crypto.from_base64 (drop (length protected_prefix) value))

-- The settings file and the keys of the vault.
pub record Machine (S : Type 0) : Type 0 where
  pub settings : S
  pub vault : VaultKeys

module _ {J : Type 0} where
  abbrev pub as_value : Option Text → Option (Value J)
  as_value none = none
  as_value (some plaintext) = some (text plaintext)

  -- `secretKeys.has(key) && typeof value === "string" && value`
  abbrev pub secret_text : Text → Value J → Option Text
  secret_text key missing = none
  secret_text key (other j) = none
  secret_text key (text []) = none
  secret_text key (text (x ∷ s)) = if is_secret_key key then some (x ∷ s) else none

-- A call of the store.
pub data Call (J : Type 0) : Type 0 where
  gets : Conditions → Text → Call J
  sets : Conditions → Text → Value J → Call J
  deletes : Text → Call J
  clears : Call J
  restores : Conditions → Text → Call J

module _ {J : Type 0} (raw : RawStore J) (crypto : Crypto) where
  abbrev pub written : Text → Keyed Text → raw.State → Bool × Machine raw.State
  written key (none, v) s = (false, record { settings = s; vault = v })
  written key (some stored, v) s =
      (true, record { settings = raw.write key (text stored) s; vault = v })

  -- Whether it returned, beside the machine after the call.
  unfoldable pub store_secret :
      Conditions → Text → Text → Machine raw.State → Bool × Machine raw.State
  store_secret c key plaintext m =
      written key (protected_text crypto c plaintext m.vault) m.settings

  -- `rawStore.set`, which throws for `undefined`.
  abbrev pub write_value : Text → Value J → Machine raw.State → Bool × Machine raw.State
  write_value key missing m = (false, m)
  write_value key (text plain) m =
      (true, record m { settings = raw.write key (text plain) m.settings })
  write_value key (other j) m = (true, record m { settings = raw.write key (other j) m.settings })

  abbrev pub set_as :
      Conditions → Text → Value J → Option Text → Machine raw.State → Bool × Machine raw.State
  set_as c key value none m = write_value key value m
  set_as c key value (some plaintext) m = store_secret c key plaintext m

  unfoldable pub set_value :
      Conditions → Text → Value J → Machine raw.State → Bool × Machine raw.State
  set_value c key value m = set_as c key value (secret_text key value) m

  abbrev pub migrated : Text → Bool × Machine raw.State → Option (Value J) × Machine raw.State
  migrated stored (returned, m) = (if returned then some (text stored) else none, m)

  abbrev pub get_as :
      Conditions → Text → Option Text → Machine raw.State → Option (Value J) × Machine raw.State
  get_as c key none m = (some (raw.read key m.settings), m)
  get_as c key (some stored) m =
      let decrypted = decrypt_with_vault crypto c stored m.vault in
      if starts_with protected_prefix stored
      then (as_value (unlock crypto c.keyring stored), m)
      else if starts_with vault_prefix stored
      then (as_value decrypted.0, record m { vault = decrypted.1 })
      else migrated stored (store_secret c key stored m)

  unfoldable pub get_value :
      Conditions → Text → Machine raw.State → Option (Value J) × Machine raw.State
  get_value c key m = get_as c key (secret_text key (raw.read key m.settings)) m

  abbrev pub delete_value : Text → Machine raw.State → Machine raw.State
  delete_value key m = record m { settings = raw.remove key m.settings }

  abbrev pub clear_values : Machine raw.State → Machine raw.State
  clear_values m = record m { settings = raw.reset m.settings }

  -- The handler `store:reset`, whose key is `sync`: the value there survives a `clear`. What is
  -- neither a text nor missing is an object.
  abbrev pub set_back : Conditions → Text → Option (Value J) × Machine raw.State → Machine raw.State
  set_back c key (some (text (x ∷ s)), m) = (set_value c key (text (x ∷ s)) (clear_values m)).1
  set_back c key (some (other j), m) = (set_value c key (other j) (clear_values m)).1
  set_back c key (some (text []), m) = clear_values m
  set_back c key (some missing, m) = clear_values m
  set_back c key (none, m) = m

  unfoldable pub restore_values : Conditions → Text → Machine raw.State → Machine raw.State
  unfolding get_value set_value
  restore_values c key m = set_back c key (get_value c key m)

  unfoldable pub call : Call J → Machine raw.State → Machine raw.State
  unfolding get_value set_value restore_values
  call (gets c key) m = (get_value c key m).1
  call (sets c key value) m = (set_value c key value m).1
  call (deletes key) m = delete_value key m
  call clears m = clear_values m
  call (restores c key) m = restore_values c key m

  unfoldable pub call_all : List (Call J) → Machine raw.State → Machine raw.State
  call_all [] m = m
  call_all (one ∷ calls) m = call_all calls (call one m)
