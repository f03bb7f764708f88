-- ===== src/PersistentStore/Sealed.antt =====
-- app/src/electron/persistentStore.ts: a text that is encrypted for the settings file
-- has one of the two prefixes.
use facenox.Base.{
  ◌≡◌, refl, Bool, true, false, ◌||◌, [], ◌∷◌, Option, none, some, from_then, if_elim, arith,
}
use facenox.Base.Text.{Text, starts_with}
use facenox.PersistentStore.{
  Bytes, Value, missing, text, other, Crypto, Conditions, is_safe_storage_usable, is_secret_key,
  protected_prefix, vault_prefix,
}
use facenox.PersistentStore.VaultKey.{VaultKeys, get_vault_key}
use facenox.PersistentStore.Access.{
  Keyed, secret_text, vault_text, encrypt_with_vault, keyring_text, when_required, protected_text,
}

-- The text of a secret is empty or has one of the two prefixes.
abbrev pub is_sealed_text : Text → Bool
is_sealed_text [] = true
is_sealed_text (x ∷ s) = starts_with protected_prefix (x ∷ s) || starts_with vault_prefix (x ∷ s)

abbrev pub is_sealed : {J : Type 0} → Value J → Bool
is_sealed (text stored) = is_sealed_text stored
is_sealed missing = true
is_sealed (other j) = false

-- A value as the types of the settings have it at the two keys.
abbrev pub is_text : {J : Type 0} → Value J → Bool
is_text (text stored) = true
is_text missing = true
is_text (other j) = false

pub protected-is_sealed :
    (stored : Text) → starts_with protected_prefix stored ≡ true → is_sealed_text stored ≡ true
protected-is_sealed [] h = refl
protected-is_sealed (x ∷ s) h = rw h refl

pub vault-is_sealed :
    (stored : Text) → starts_with vault_prefix stored ≡ true → is_sealed_text stored ≡ true
vault-is_sealed [] h = refl
vault-is_sealed (x ∷ s) h = ground (arith, h)

pub none_secret-is_sealed :
    {J : Type 0} (key : Text) (value : Value J)
    → is_secret_key key ≡ true
    → is_text value ≡ true
    → secret_text key value ≡ none
    → is_sealed value ≡ true
none_secret-is_sealed key missing secret typed h = refl
none_secret-is_sealed key (other j) secret typed h = absurd cc
none_secret-is_sealed key (text []) secret typed h = refl
none_secret-is_sealed key (text (x ∷ s)) secret typed h =
    let some_is_none = from_then (is_secret_key key) none secret h in absurd cc

pub secret_text-some :
    {J : Type 0} (key : Text) (value : Value J) (stored : Text)
    → secret_text key value ≡ some stored
    → value ≡ text stored
secret_text-some key missing stored h = absurd cc
secret_text-some key (other j) stored h = absurd cc
secret_text-some key (text []) stored h = absurd cc
secret_text-some key (text (x ∷ s)) stored h = ground (arith, h)

module _ (crypto : Crypto) where
  abbrev pub Seals : Keyed Text → Type 0
  Seals (none, w) = Unit
  Seals (some stored, w) = is_sealed_text stored ≡ true

  vault_text-Seals :
      (c : Conditions) (plaintext : Text) (got : Option Bytes) (w : VaultKeys)
      → Seals (vault_text crypto c plaintext got, w)
  vault_text-Seals c plaintext none w = tt
  vault_text-Seals c plaintext (some key) w = refl

  when_required-Seals :
      (c : Conditions) (plaintext : Text) (got : Option Bytes) (w : VaultKeys)
      → Seals (when_required crypto c plaintext (got, w))
  unfolding encrypt_with_vault
  when_required-Seals c plaintext none w = tt
  when_required-Seals c plaintext (some key) w =
      vault_text-Seals c plaintext (get_vault_key c true w).0 (get_vault_key c true w).1

  keyring_text-Seals :
      (encrypted : Option Bytes) (v : VaultKeys) → Seals (keyring_text crypto encrypted, v)
  keyring_text-Seals none v = tt
  keyring_text-Seals (some encrypted) v = refl

  pub protected_text-Seals :
      (c : Conditions) (plaintext : Text) (v : VaultKeys)
      → Seals (protected_text crypto c plaintext v)
  unfolding protected_text
  protected_text-Seals c plaintext v =
      if_elim Seals (is_safe_storage_usable c.keyring)
        (λ _. keyring_text-Seals (c.keyring.encrypt_string plaintext) v)
        (λ _. when_required-Seals c plaintext (get_vault_key c true v).0 (get_vault_key c true v).1)
