-- ===== src/PersistentStore/Laws.antt =====
-- What is stored as a secret is read again.
use facenox.Base.{◌≢◌, ◌≡◌, refl, ap, ◌∙◌, true, false, [], ◌∷◌, ◌++◌, Option, none, some, if_elim}
use facenox.Base.Text.{Text, split, holds, split-append, split_whole}
use facenox.PersistentStore.{
  Bytes, Value, missing, text, other, RawStore, Crypto, Keyring, Conditions, is_safe_storage_usable,
  is_secret_key, protected_prefix,
}
use facenox.PersistentStore.VaultKey.{VaultKeys, get_vault_key}
use facenox.PersistentStore.Memory.{Remembers, get_vault_key-Remembers}
use facenox.PersistentStore.Access.{
  Keyed, Machine, as_value, secret_text, encrypt_with_vault, decrypt_parts, decrypt_with_vault,
  keyring_text, when_required, protected_text, unlock, written, store_secret, set_value, set_as,
  get_value, get_as, is_empty,
}

-- What is relied on of the cipher and of the encodings: what is sealed is opened with the same key,
-- nonce and tag, a tag is not empty, a ciphertext is empty only for an empty text, and base64 can be
-- taken back, has no dot and is empty only for no bytes.
pub record Lawful (crypto : Crypto) : Type 0 where
  pub opens :
      (key iv plain : Bytes)
      → crypto.unseal key iv (crypto.seal key iv plain).1 (crypto.seal key iv plain).0 ≡ some plain
  pub has_tag : (key iv plain : Bytes) → is_empty (crypto.seal key iv plain).1 ≡ false
  pub has_size : (key iv plain : Bytes) → is_empty (crypto.seal key iv plain).0 ≡ is_empty plain
  pub base64_back : (bytes : Bytes) → crypto.from_base64 (crypto.base64 bytes) ≡ bytes
  pub base64_dotless : (bytes : Bytes) → holds b'.' (crypto.base64 bytes) ≡ false
  pub base64_empty : (bytes : Bytes) → is_empty (crypto.base64 bytes) ≡ is_empty bytes

-- The keyring of the second call decrypts what that of the first encrypts of a text.
abbrev pub Unlocks : Keyring → Option Bytes → Text → Type 0
Unlocks keyring none plaintext = Unit
Unlocks keyring (some encrypted) plaintext = keyring.decrypt_string encrypted ≡ some plaintext

module _ (crypto : Crypto) (lawful : Lawful crypto) where
  abbrev three : Bytes → Bytes → Bytes → Text
  three iv tag encrypted =
      crypto.base64 iv ++ b'.' ∷ (crypto.base64 tag ++ b'.' ∷ crypto.base64 encrypted)

  split-three :
      (iv tag encrypted : Bytes)
      → split b'.' (three iv tag encrypted)
        ≡ crypto.base64 iv ∷ crypto.base64 tag ∷ crypto.base64 encrypted ∷ []
  split-three iv tag encrypted =
      rw
        (
          split-append b'.' (crypto.base64 iv) (crypto.base64 tag ++ b'.' ∷ crypto.base64 encrypted)
              (lawful.base64_dotless iv),
          split-append b'.' (crypto.base64 tag) (crypto.base64 encrypted)
              (lawful.base64_dotless tag),
          split_whole b'.' (crypto.base64 encrypted) (lawful.base64_dotless encrypted),
        )
        refl

  -- With the key in the memory of the process.
  decrypt-encrypt :
      (c d : Conditions) (file : Option Bytes) (key : Bytes) (plaintext : Text)
      → is_empty c.random_iv ≡ false
      → is_empty (crypto.utf8 plaintext) ≡ false
      → crypto.from_utf8 (crypto.utf8 plaintext) ≡ plaintext
      → let sealed = crypto.seal key c.random_iv (crypto.utf8 plaintext) in
        decrypt_parts crypto d
          (split b'.' (three c.random_iv sealed.1 sealed.0))
          (record { key_file = file; cached = some key })
        ≡ (some plaintext, record { key_file = file; cached = some key })
  unfolding get_vault_key
  decrypt-encrypt c d file key plaintext has_iv has_text utf8_back =
      let sealed = crypto.seal key c.random_iv (crypto.utf8 plaintext) in
      rw
        (
          split-three c.random_iv sealed.1 sealed.0,
          lawful.base64_empty c.random_iv,
          has_iv,
          lawful.base64_empty sealed.1,
          lawful.has_tag key c.random_iv (crypto.utf8 plaintext),
          lawful.base64_empty sealed.0,
          lawful.has_size key c.random_iv (crypto.utf8 plaintext),
          has_text,
          lawful.base64_back c.random_iv,
          lawful.base64_back sealed.1,
          lawful.base64_back sealed.0,
          lawful.opens key c.random_iv (crypto.utf8 plaintext),
          utf8_back,
        )
        refl

module _ {J : Type 0} (raw : RawStore J) (crypto : Crypto) (lawful : Lawful crypto) where
  -- Reading the stored text gives the plaintext and changes nothing.
  abbrev Opened : Conditions → Text → Text → Keyed Text → Type 0
  Opened d key plaintext (none, w) = Unit
  Opened d key plaintext (some stored, w) =
      (s : raw.State)
      → get_as raw crypto d key (secret_text {J = J} key (text stored))
          (record { settings = s; vault = w })
        ≡ (some (text plaintext), record { settings = s; vault = w })

  module _ (c d : Conditions) (key plaintext : Text) (secret : is_secret_key key ≡ true)
      (has_iv : is_empty c.random_iv ≡ false) (has_text : is_empty (crypto.utf8 plaintext) ≡ false)
      (utf8_back : crypto.from_utf8 (crypto.utf8 plaintext) ≡ plaintext) where
    unlock-protected :
        (encrypted : Bytes)
        → d.keyring.decrypt_string encrypted ≡ some plaintext
        → unlock crypto d.keyring (protected_prefix ++ crypto.base64 encrypted) ≡ some plaintext
    unfolding unlock
    unlock-protected encrypted unlocks =
        ap d.keyring.decrypt_string (lawful.base64_back encrypted) ∙ unlocks

    keyring_text-Opened :
        (encrypted : Option Bytes) (v : VaultKeys)
        → Unlocks d.keyring encrypted plaintext
        → Opened d key plaintext (keyring_text crypto encrypted, v)
    keyring_text-Opened none v unlocks = tt
    keyring_text-Opened (some encrypted) v unlocks = λ s. rw (secret) (
        ap (λ (o : Option Text). (as_value o, record { settings = s; vault = v }))
          (unlock-protected encrypted unlocks))

    vault_text-Opened :
        (file memory : Option Bytes) (got : Bytes)
        → memory ≡ some got
        → Opened d key plaintext
            (encrypt_with_vault crypto c plaintext (record { key_file = file; cached = memory }))
    unfolding encrypt_with_vault get_vault_key decrypt_with_vault
    vault_text-Opened file none got h = absurd cc
    vault_text-Opened file (some k) got h = λ s.
        rw (secret, decrypt-encrypt crypto lawful c d file k plaintext has_iv has_text utf8_back)
          refl

    when_required-Opened :
        (got : Option Bytes) (w : VaultKeys)
        → Remembers (got, w)
        → Opened d key plaintext (when_required crypto c plaintext (got, w))
    when_required-Opened none w remembers = tt
    when_required-Opened (some got) w remembers =
        vault_text-Opened w.key_file w.cached got remembers

    protected_text-Opened :
        (v : VaultKeys)
        → Unlocks d.keyring (c.keyring.encrypt_string plaintext) plaintext
        → Opened d key plaintext (protected_text crypto c plaintext v)
    unfolding protected_text
    protected_text-Opened v unlocks =
        if_elim (Opened d key plaintext) (is_safe_storage_usable c.keyring)
          (λ _. keyring_text-Opened (c.keyring.encrypt_string plaintext) v unlocks)
          (λ _.
            when_required-Opened (get_vault_key c true v).0 (get_vault_key c true v).1
              (get_vault_key-Remembers c true v.key_file v.cached))

  written-Opened :
      (d : Conditions) (key plaintext : Text) (s : raw.State) (sealed : Keyed Text)
      → Opened d key plaintext sealed
      → (written raw crypto key sealed s).0 ≡ true
      → get_value raw crypto d key (written raw crypto key sealed s).1
        ≡ (some (text plaintext), (written raw crypto key sealed s).1)
  unfolding get_value
  written-Opened d key plaintext s (none, w) opened returned = absurd cc
  written-Opened d key plaintext s (some stored, w) opened returned =
      rw (raw.read_write key (text stored) s (λ h. cc)) (opened (raw.write key (text stored) s))

  plain_value :
      (d : Conditions) (key : Text) (value : Value J) (s : raw.State) (v : VaultKeys)
      → value ≢ missing
      → secret_text key value ≡ none
      → let after : Machine raw.State = record { settings = raw.write key value s; vault = v } in
        get_value raw crypto d key after ≡ (some value, after)
  unfolding get_value
  plain_value d key value s v there h =
      rw (raw.read_write key value s there, h, raw.read_write key value s there) refl

  -- What a text needs to be stored: the keyring gives it back, and so does its encoding.
  abbrev pub Encodes : Conditions → Conditions → Value J → Type 0
  Encodes c d (text plaintext) =
      (is_empty (crypto.utf8 plaintext) ≡ is_empty plaintext)
      × (crypto.from_utf8 (crypto.utf8 plaintext) ≡ plaintext)
      × Unlocks d.keyring (c.keyring.encrypt_string plaintext) plaintext
  Encodes c d value = Unit

  -- After `set` has returned, whatever the key and the value and whichever of the keyring and the
  -- vault has encrypted it, `get` returns the value and changes nothing, if the ciphers and the
  -- encodings are lawful, the nonce is not empty and the text is one that they give back.
  pub get_value-set_value :
      (c d : Conditions) (key : Text) (value : Value J) (m : Machine raw.State)
      → is_empty c.random_iv ≡ false
      → Encodes c d value
      → (set_value raw crypto c key value m).0 ≡ true
      → get_value raw crypto d key (set_value raw crypto c key value m).1
        ≡ (some value, (set_value raw crypto c key value m).1)
  unfolding set_value store_secret
  get_value-set_value c d key missing m has_iv encodes = λ returned. absurd cc
  get_value-set_value c d key (other j) m has_iv encodes =
      λ _. plain_value d key (other j) m.settings m.vault (λ h. cc) refl
  get_value-set_value c d key (text []) m has_iv encodes =
      λ _. plain_value d key (text []) m.settings m.vault (λ h. cc) refl
  get_value-set_value c d key (text (x ∷ s)) m has_iv (has_text, utf8_back, unlocks) =
      if_elim
        (λ (o : Option Text).
          (set_as raw crypto c key (text (x ∷ s)) o m).0 ≡ true
          → get_value raw crypto d key (set_as raw crypto c key (text (x ∷ s)) o m).1
            ≡ (some (text (x ∷ s)), (set_as raw crypto c key (text (x ∷ s)) o m).1))
        (is_secret_key key)
        (λ secret.
          written-Opened d key (x ∷ s) m.settings (protected_text crypto c (x ∷ s) m.vault) (
            protected_text-Opened c d key (x ∷ s) secret has_iv has_text utf8_back m.vault unlocks))
        (λ plain _. plain_value d key (text (x ∷ s)) m.settings m.vault (λ h. cc) (rw plain refl))
