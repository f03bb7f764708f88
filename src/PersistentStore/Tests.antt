-- ===== src/PersistentStore/Tests.antt =====
-- A store of one function, a toy cipher, and the theorems at them.
use facenox.Base.{
  ℕ, ◌+◌, ◌-◌, ◌≡◌, refl, true, false, List, [], ◌∷◌, Option, none, some, All, if◌then◌else◌, arith,
}
use facenox.Base.Text.{Text, codes, holds}
use facenox.Base.Keys.{◌===◌, list_eq, nat_eq, ===_refl, same_list}
use facenox.PersistentStore.{
  Bytes, missing, text, other, Crypto, Keyring, Conditions, device_token_key, encryption_key_key,
  is_safe_storage_usable,
}
use facenox.PersistentStore.VaultKey.{
  rival_key, VaultEvent, asks, restarts, hand_out, hand_out-Stays, Holds, Stays, get_vault_key,
}
use facenox.PersistentStore.Access.{
  Machine, Call, gets, sets, deletes, clears, restores, restore_values, decrypt_with_vault,
  get_value, set_value, store_secret, protected_text, encrypt_with_vault, is_empty,
}
use facenox.PersistentStore.Nested.{sync_key, Json, bare, held, Settings, nested_store}
use facenox.PersistentStore.Laws.{Lawful, get_value-set_value}

abbrev raised : Bytes → Text
raised [] = []
raised (b ∷ bytes) = (b + 100) ∷ raised bytes

abbrev lowered : Text → Bytes
lowered [] = []
lowered (c ∷ s) = (c - 100) ∷ lowered s

add_sub : (b : ℕ) → b + 100 - 100 ≡ b
add_sub b = omega arith

lowered-raised : (bytes : Bytes) → lowered (raised bytes) ≡ bytes
lowered-raised [] = refl
lowered-raised (b ∷ bytes) = rw (add_sub b, lowered-raised bytes) refl

holds-raised : (bytes : Bytes) → holds b'.' (raised bytes) ≡ false
holds-raised [] = refl
holds-raised (b ∷ bytes) = ground (arith, holds-raised bytes)

is_empty-raised : (bytes : Bytes) → is_empty (raised bytes) ≡ is_empty bytes
is_empty-raised [] = refl
is_empty-raised (b ∷ bytes) = refl

-- The tag is the key, and the text is not changed.
abbrev toy : Crypto
toy = record {
  seal = λ key iv plain. (plain, 0 ∷ key);
  unseal = λ key iv tag encrypted. if tag === 0 ∷ key then some encrypted else none;
  base64 = raised;
  from_base64 = lowered;
  utf8 = λ s. s;
  from_utf8 = λ s. s;
}

opens-toy :
    (key iv plain : Bytes)
    → toy.unseal key iv (toy.seal key iv plain).1 (toy.seal key iv plain).0 ≡ some plain
opens-toy key iv plain = rw (===_refl (0 ∷ key)) refl

toy-Lawful : Lawful toy
toy-Lawful = record {
  opens = opens-toy;
  has_tag = λ key iv plain. refl;
  has_size = λ key iv plain. refl;
  base64_back = lowered-raised;
  base64_dotless = holds-raised;
  base64_empty = is_empty-raised;
}

abbrev no_keyring : Keyring
no_keyring = record {
  is_encryption_available = some true;
  is_linux = true;
  selects_basic_text = some true;
  encrypt_string = λ s. none;
  decrypt_string = λ s. none;
}

abbrev fresh : Conditions
fresh = record {
  keyring = no_keyring;
  unreadable = false;
  unwritable = false;
  rival = none;
  random_key = 5 ∷ 6 ∷ [];
  random_iv = 9 ∷ [];
}

abbrev machine : Text → Machine Settings
machine token = record {
  settings = record { sync_value = other (held token); rest = λ k. missing };
  vault = record { key_file = none; cached = none };
}

abbrev token : Text
token = codes "a.b"

set_returns : (set_value nested_store toy fresh device_token_key (text token) (machine [])).0 ≡ true
unfolding set_value store_secret protected_text is_safe_storage_usable get_vault_key
    encrypt_with_vault same_list
set_returns = refl

get_value-set_value_example :
    get_value nested_store toy fresh device_token_key
      (set_value nested_store toy fresh device_token_key (text token) (machine [])).1
    ≡ (
      some (text token),
      (set_value nested_store toy fresh device_token_key (text token) (machine [])).1,
    )
get_value-set_value_example =
    get_value-set_value nested_store toy toy-Lawful fresh fresh device_token_key (text token)
      (machine []) refl (refl, refl, tt) set_returns

-- The token is set and read, the settings are reset and cleared, and `sync` is set without a token.
abbrev calls : List (Call Json)
calls =
    sets fresh device_token_key (text token)
    ∷ restores fresh sync_key
    ∷ gets fresh device_token_key
    ∷ deletes encryption_key_key
    ∷ clears
    ∷ sets fresh sync_key (other bare)
    ∷ sets fresh device_token_key (text [])
    ∷ []

-- A reset keeps the token.
reset_keeps :
    (get_value nested_store toy fresh device_token_key (
      restore_values nested_store toy fresh sync_key
        (set_value nested_store toy fresh device_token_key (text token) (machine [])).1)).0
    ≡ some (text token)
unfolding restore_values get_value set_value store_secret protected_text is_safe_storage_usable
    get_vault_key encrypt_with_vault decrypt_with_vault same_list
reset_keeps = refl

abbrev nothing : ℕ → Option Bytes
nothing p = none

abbrev crossed : List VaultEvent
crossed =
    asks 1 (record fresh { rival = some (7 ∷ []) }) true
    ∷ asks 1 fresh false
    ∷ restarts 1
    ∷ asks 2 fresh true
    ∷ []

-- The key of a rival has not the right length, so that only the rival has one.
rival_refused : hand_out crossed none nothing ≡ ((7 ∷ []) ∷ [], some (7 ∷ []))
unfolding hand_out get_vault_key rival_key
rival_refused = refl

abbrev two_ask : List VaultEvent
two_ask = asks 1 fresh false ∷ asks 1 fresh true ∷ asks 1 fresh false ∷ restarts 2 ∷ []

one_key : hand_out two_ask none nothing ≡ ((5 ∷ 6 ∷ []) ∷ (5 ∷ 6 ∷ []) ∷ [], some (5 ∷ 6 ∷ []))
unfolding hand_out get_vault_key rival_key
one_key = refl

hand_out-Stays_example :
    All (Holds (hand_out crossed none nothing).1) (hand_out crossed none nothing).0
    × Stays none (hand_out crossed none nothing).1
hand_out-Stays_example = hand_out-Stays crossed none nothing (λ p. tt)
