-- ===== src/PersistentStore/Memory.antt =====
-- app/src/electron/persistentStore.ts: the key that `getVaultKey` gives is in the memory of the
-- process afterwards.
use facenox.Base.{◌≡◌, refl, Bool, Option, none, some, if_elim}
use facenox.PersistentStore.{Bytes, Conditions}
use facenox.PersistentStore.VaultKey.{
  VaultKeys, ReadKey, read, not_found, failed, checked_key, read_key, use_read, create_key,
  after_read, get_vault_key,
}
use facenox.PersistentStore.Access.{Keyed}

-- A key that a process gets, it remembers.
abbrev pub Remembers : Keyed Bytes → Type 0
Remembers (none, w) = Unit
Remembers (some key, w) = w.cached ≡ some key

use_read-Remembers : (r : ReadKey) (v : VaultKeys) → Remembers (use_read r v)
use_read-Remembers (read key) v = refl
use_read-Remembers not_found v = tt
use_read-Remembers failed v = tt

create_key-Remembers :
    (c : Conditions) (rival : Option Bytes) (v : VaultKeys) → Remembers (create_key c rival v)
create_key-Remembers c none v = if_elim Remembers c.unwritable (λ _. tt) (λ _. refl)
create_key-Remembers c (some raw) v =
    if_elim Remembers c.unwritable (λ _. tt) (λ _. use_read-Remembers (checked_key raw) _)

after_read-Remembers :
    (c : Conditions) (b : Bool) (r : ReadKey) (v : VaultKeys) → Remembers (after_read c b r v)
after_read-Remembers c b not_found v =
    if_elim Remembers b (λ _. create_key-Remembers c c.rival v) (λ _. tt)
after_read-Remembers c b failed v = tt
after_read-Remembers c b (read key) v = refl

pub get_vault_key-Remembers :
    (c : Conditions) (b : Bool) (file memory : Option Bytes)
    → Remembers (get_vault_key c b (record { key_file = file; cached = memory }))
unfolding get_vault_key
get_vault_key-Remembers c b file (some key) = refl
get_vault_key-Remembers c b file none =
    after_read-Remembers c b (read_key c (record { key_file = file; cached = none }))
      (record { key_file = file; cached = none })
