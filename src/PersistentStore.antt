-- ===== src/PersistentStore.antt =====
-- app/src/electron/persistentStore.ts: the settings file with its two secrets, which are encrypted
-- by the keyring of the operating system or with the key file of the vault. `electron-store`, the
-- keyring and node's crypto are parameters; what happens outside during one call is its
-- `Conditions`.
pub mod VaultKey
pub mod Access
pub mod Memory
pub mod Laws
pub mod Sealed
pub mod Secrets
pub mod Nested
pub mod Tests
use facenox.Base.{
  ℕ, ◌≡◌, ◌≢◌, Bool, true, false, not, ◌&&◌, ◌||◌, List, [], ◌∷◌, ◌++◌, Option, none, some, ◌==◌,
  length, drop, if◌then◌else◌,
}
use facenox.Base.Text.{Text, codes, split, starts_with, holds}
use facenox.Base.Keys.{◌===◌, nat_eq, list_eq}

abbrev pub Bytes : Type 0
Bytes = List ℕ

-- A value of the store: none, a text, or another JSON value.
pub data Value (J : Type 0) : Type 0 where
  missing : Value J
  text : Text → Value J
  other : J → Value J

-- The `electron-store`, which reads a dotted key as a path: what is written to one of two keys of
-- which neither leads to the other does not show at the other, and a value that is read at a key and
-- written back there brings back what it holds at the keys inside. `clear` goes back to the defaults.
pub record RawStore (J : Type 0) : Type 1 where
  pub State : Type 0
  pub Apart : Text → Text → Type 0
  pub Inside : Text → Text → Type 0
  pub defaults : Text → Value J
  pub read : Text → State → Value J
  pub write : Text → Value J → State → State
  pub remove : Text → State → State
  pub reset : State → State
  pub read_write : (k : Text) (v : Value J) (s : State) → v ≢ missing → read k (write k v s) ≡ v
  pub read_write_inside :
      (k j : Text) (s t : State)
      → Inside k j
      → read j s ≢ missing
      → read k (write j (read j s) t) ≡ read k s
  pub read_write_apart :
      (j k : Text) (v : Value J) (s : State) → Apart j k → read j (write k v s) ≡ read j s
  pub read_remove : (k : Text) (s : State) → read k (remove k s) ≡ missing
  pub read_remove_inside : (k j : Text) (s : State) → Inside k j → read k (remove j s) ≡ missing
  pub read_reset : (k : Text) (s : State) → read k (reset s) ≡ defaults k
  pub read_remove_apart : (j k : Text) (s : State) → Apart j k → read j (remove k s) ≡ read j s

-- AES-256-GCM, which gives the ciphertext and the tag, and the encodings of `Buffer`.
pub record Crypto : Type 0 where
  pub seal : Bytes → Bytes → Bytes → Bytes × Bytes
  pub unseal : Bytes → Bytes → Bytes → Bytes → Option Bytes
  pub base64 : Bytes → Text
  pub from_base64 : Text → Bytes
  pub utf8 : Text → Bytes
  pub from_utf8 : Bytes → Text

-- `safeStorage` with the platform; `none` where a call throws.
pub record Keyring : Type 0 where
  pub is_encryption_available : Option Bool
  pub is_linux : Bool
  pub selects_basic_text : Option Bool
  pub encrypt_string : Text → Option Bytes
  pub decrypt_string : Bytes → Option Text

unfoldable pub is_safe_storage_usable : Keyring → Bool
is_safe_storage_usable keyring = elim keyring.is_encryption_available [
  | none ↦ false
  | some available ↦
      available
      && (not keyring.is_linux
          || elim keyring.selects_basic_text [ none ↦ false | some basic ↦ not basic ])
]

-- The surroundings of one call: the keyring, whether the key file can be read and written, the key
-- that another process writes between the two, and the random bytes that are drawn.
pub record Conditions : Type 0 where
  pub keyring : Keyring
  pub unreadable : Bool
  pub unwritable : Bool
  pub rival : Option Bytes
  pub random_key : Bytes
  pub random_iv : Bytes

abbrev pub device_token_key : Text
device_token_key = codes "sync.deviceToken"

abbrev pub encryption_key_key : Text
encryption_key_key = codes "sync.encryptionKey"

abbrev pub is_secret_key : Text → Bool
is_secret_key key = key === device_token_key || key === encryption_key_key

abbrev pub protected_prefix : Text
protected_prefix = codes "os:v1:"

abbrev pub vault_prefix : Text
vault_prefix = codes "vault:v1:"
