-- ===== src/Backup.antt =====
-- app/src/electron/ipc/syncHandlers.ts: the container of a backup, `encryptBackup` and
-- `decryptBackup`. Bytes are numbers; node's crypto is a parameter: the key derivation, and AES-GCM
-- as a function that gives the ciphertext with its tag and one that gives the text back or fails.
pub mod Laws
pub mod Tests
use facenox.Base.{
  ℕ, ◌+◌, Bool, true, false, ◌&&◌, List, [], ◌∷◌, ◌++◌, Option, none, some, ◌==◌, ltb, length, take,
  drop, if◌then◌else◌,
}

abbrev pub Bytes : Type 0
Bytes = List ℕ

-- `Buffer.from("FACENOX\x00\x01")`
abbrev pub facenox_magic : Bytes
facenox_magic = 70 ∷ 65 ∷ 67 ∷ 69 ∷ 78 ∷ 79 ∷ 88 ∷ 0 ∷ 1 ∷ []

abbrev pub salt_size : ℕ
salt_size = 16

abbrev pub iv_size : ℕ
iv_size = 12

abbrev pub tag_size : ℕ
tag_size = 16

-- `blob.subarray(first, first + size)`
unfoldable pub subarray : Bytes → ℕ → ℕ → Bytes
subarray blob first size = take size (drop first blob)

-- `crypto.timingSafeEqual`
unfoldable pub equal_bytes : Bytes → Bytes → Bool
equal_bytes [] [] = true
equal_bytes (a ∷ s) (b ∷ t) = a == b && equal_bytes s t
equal_bytes _ _ = false

-- The errors of `decryptBackup`, and its result.
pub data Decrypted : Type 0 where
  incomplete invalid undecryptable : Decrypted
  plaintext : Bytes → Decrypted

-- `magicLen + SALT_SIZE + IV_SIZE + TAG_SIZE + 1`
abbrev pub min_len : ℕ
min_len = length facenox_magic + salt_size + iv_size + tag_size + 1

module _ {Key : Type 0} (seal : Key → Bytes → Bytes → Bytes × Bytes)
    (unseal : Key → Bytes → Bytes → Bytes → Option Bytes) where
  -- With the key of the password and the salt; `salt` and `iv` are random.
  unfoldable pub encrypt_backup : (Bytes → Key) → Bytes → Bytes → Bytes → Bytes
  encrypt_backup derive_key salt iv text =
      let sealed = seal (derive_key salt) iv text in
      facenox_magic ++ (salt ++ (iv ++ (sealed.1 ++ sealed.0)))

  abbrev decrypted : Option Bytes → Decrypted
  decrypted none = undecryptable
  decrypted (some text) = plaintext text

  unfoldable pub decrypt_backup : (Bytes → Key) → Bytes → Decrypted
  unfolding subarray equal_bytes
  decrypt_backup derive_key blob =
      let magic_len = length facenox_magic in
      let salt = subarray blob magic_len salt_size in
      let iv = subarray blob (magic_len + salt_size) iv_size in
      let tag = subarray blob (magic_len + salt_size + iv_size) tag_size in
      let ciphertext = drop (magic_len + salt_size + iv_size + tag_size) blob in
      if ltb (length blob) min_len
      then incomplete
      else if equal_bytes (subarray blob 0 magic_len) facenox_magic
      then decrypted (unseal (derive_key salt) iv tag ciphertext)
      else invalid
