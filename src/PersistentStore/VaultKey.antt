-- ===== src/PersistentStore/VaultKey.antt =====
-- app/src/electron/persistentStore.ts: `getVaultKey`, the key of the vault in its file and in the
-- memory of a process.
use facenox.Base.{
  ℕ, ◌≡◌, refl, ◌∙◌, Bool, true, false, List, [], ◌∷◌, Option, none, some, ◌==◌, length,
  if◌then◌else◌, if_elim, All, put, arith,
}
use facenox.PersistentStore.{Bytes, Conditions}

-- The key file, and `cachedVaultKey` of the process.
pub record VaultKeys : Type 0 where
  pub key_file : Option Bytes
  pub cached : Option Bytes

pub data ReadKey : Type 0 where
  not_found failed : ReadKey
  read : Bytes → ReadKey

-- `readKey` of a file that is there.
abbrev pub checked_key : Bytes → ReadKey
checked_key raw = if length raw == 32 then read raw else failed

abbrev pub read_file : Option Bytes → ReadKey
read_file none = not_found
read_file (some raw) = checked_key raw

abbrev pub read_key : Conditions → VaultKeys → ReadKey
read_key c v = if c.unreadable then failed else read_file v.key_file

abbrev pub use_read : ReadKey → VaultKeys → Option Bytes × VaultKeys
use_read (read raw) v = (some raw, record v { cached = some raw })
use_read _ v = (none, v)

-- Writing the file fails with `EEXIST` where another process has written it, whose key is then read.
abbrev pub create_key : Conditions → Option Bytes → VaultKeys → Option Bytes × VaultKeys
create_key c (some raw) v =
    let there = record v { key_file = some raw } in
    if c.unwritable then (none, there) else use_read (checked_key raw) there
create_key c none v =
    if c.unwritable
    then (none, v)
    else (some c.random_key, record { key_file = some c.random_key; cached = some c.random_key })

abbrev pub after_read : Conditions → Bool → ReadKey → VaultKeys → Option Bytes × VaultKeys
after_read c create_if_missing not_found v =
    if create_if_missing then create_key c c.rival v else (none, v)
after_read c create_if_missing r v = use_read r v

-- The key, or `none` for an exception.
unfoldable pub get_vault_key : Conditions → Bool → VaultKeys → Option Bytes × VaultKeys
get_vault_key c create_if_missing v = elim v.cached [
  | some key ↦ (some key, v)
  | none ↦ after_read c create_if_missing (read_key c v) v
]

-- The key of the process that has written the file between the read and the creation: it draws the
-- key, writes the file and uses it, as `create_key` does.
abbrev crossing : Conditions → Bool → ReadKey → Option Bytes
crossing c create_if_missing not_found = if create_if_missing then c.rival else none
crossing c create_if_missing _ = none

unfoldable pub rival_key : Conditions → Bool → VaultKeys → Option Bytes
rival_key c create_if_missing v = elim v.cached [
  | some key ↦ none
  | none ↦ crossing c create_if_missing (read_key c v)
]

-- The processes that share the file, numbered, each with its memory, which a restart clears.
pub data VaultEvent : Type 0 where
  asks : ℕ → Conditions → Bool → VaultEvent
  restarts : ℕ → VaultEvent

abbrev add_key : Option Bytes → List Bytes → List Bytes
add_key none keys = keys
add_key (some key) keys = key ∷ keys

-- The keys that the processes get, those that cross a call included, and the file at the end.
unfoldable pub hand_out :
    List VaultEvent → Option Bytes → (ℕ → Option Bytes) → List Bytes × Option Bytes
hand_out [] file memory = ([], file)
hand_out (restarts p ∷ events) file memory = hand_out events file (put p none memory)
hand_out (asks p c create_if_missing ∷ events) file memory =
    let (got, v) =
      get_vault_key c create_if_missing (record { key_file = file; cached = memory p }) in
    let rival = rival_key c create_if_missing (record { key_file = file; cached = memory p }) in
    let later = hand_out events v.key_file (put p v.cached memory) in
    (add_key rival (add_key got later.0), later.1)

-- What a process remembers is what the file holds.
abbrev pub Agrees : Option Bytes → Option Bytes → Type 0
Agrees file none = Unit
Agrees file (some key) = file ≡ some key

-- A file that is there stays as it is.
abbrev pub Stays : Option Bytes → Option Bytes → Type 0
Stays none after = Unit
Stays (some raw) after = after ≡ some raw

abbrev Good : Option Bytes → Option Bytes × VaultKeys → Type 0
Good file (got, w) = Agrees w.key_file got × (Agrees w.key_file w.cached × Stays file w.key_file)

use_read-Good :
    (raw : Bytes) (file : Option Bytes)
    → Stays file (some raw)
    → Good file (use_read (checked_key raw) (record { key_file = some raw; cached = none }))
use_read-Good raw file stays =
    if_elim
      (λ (r : ReadKey). Good file (use_read r (record { key_file = some raw; cached = none })))
      (length raw == 32) (λ _. (refl, (refl, stays))) (λ _. (tt, (tt, stays)))

create_key-Good :
    (c : Conditions) (rival : Option Bytes)
    → Good none (create_key c rival (record { key_file = none; cached = none }))
create_key-Good c none =
    if_elim (Good none) c.unwritable (λ _. (tt, (tt, tt))) (λ _. (refl, (refl, tt)))
create_key-Good c (some raw) =
    if_elim (Good none) c.unwritable (λ _. (tt, (tt, tt))) (λ _. use_read-Good raw none tt)

after_read-Good :
    (c : Conditions) (create_if_missing : Bool) (file : Option Bytes)
    → Good file (
        after_read c create_if_missing (read_file file) (record { key_file = file; cached = none }))
after_read-Good c create_if_missing none =
    if_elim (Good none) create_if_missing (λ _. create_key-Good c c.rival) (λ _. (tt, (tt, tt)))
after_read-Good c create_if_missing (some raw) =
    if_elim
      (λ (r : ReadKey).
        Good (some raw)
          (after_read c create_if_missing r (record { key_file = some raw; cached = none })))
      (length raw == 32) (λ _. (refl, (refl, refl))) (λ _. (tt, (tt, refl)))

Stays-refl : (file : Option Bytes) → Stays file file
Stays-refl none = tt
Stays-refl (some raw) = refl

get_vault_key-Good :
    (c : Conditions) (create_if_missing : Bool) (file memory : Option Bytes)
    → Agrees file memory
    → Good file (get_vault_key c create_if_missing (record { key_file = file; cached = memory }))
unfolding get_vault_key
get_vault_key-Good c create_if_missing file (some key) agrees = (agrees, (agrees, Stays-refl file))
get_vault_key-Good c create_if_missing file none agrees =
    if_elim
      (λ (r : ReadKey).
        Good file (after_read c create_if_missing r (record { key_file = file; cached = none })))
      c.unreadable (λ _. (tt, (tt, Stays-refl file)))
      (λ _. after_read-Good c create_if_missing file)

create_key-crossed :
    (c : Conditions) (rival : Option Bytes)
    → Agrees (create_key c rival (record { key_file = none; cached = none })).1.key_file rival
create_key-crossed c none = tt
create_key-crossed c (some raw) =
    if_elim (λ (r : Option Bytes × VaultKeys). Agrees r.1.key_file (some raw)) c.unwritable
      (λ _. refl)
      (λ _.
        if_elim
          (λ (r : ReadKey).
            Agrees (use_read r (record { key_file = some raw; cached = none })).1.key_file
              (some raw))
          (length raw == 32) (λ _. refl) (λ _. refl))

crossing-Agrees :
    (c : Conditions) (create_if_missing : Bool) (file : Option Bytes) (r : ReadKey)
    → (r ≡ not_found → file ≡ none)
    → Agrees
        (after_read c create_if_missing r (record { key_file = file; cached = none })).1.key_file
        (crossing c create_if_missing r)
crossing-Agrees c true file not_found h = rw (h refl) (create_key-crossed c c.rival)
crossing-Agrees c false file not_found h = tt
crossing-Agrees c create_if_missing file failed h = tt
crossing-Agrees c create_if_missing file (read raw) h = tt

not_found-none :
    (c : Conditions) (file : Option Bytes)
    → read_key c (record { key_file = file; cached = none }) ≡ not_found
    → file ≡ none
not_found-none c none h = refl
not_found-none c (some raw) h = absurd (ground arith)

rival_key-Agrees :
    (c : Conditions) (create_if_missing : Bool) (file memory : Option Bytes)
    → Agrees
        (get_vault_key c create_if_missing (record { key_file = file; cached = memory })).1.key_file
        (rival_key c create_if_missing (record { key_file = file; cached = memory }))
unfolding get_vault_key rival_key
rival_key-Agrees c create_if_missing file (some key) = tt
rival_key-Agrees c create_if_missing file none =
    crossing-Agrees c create_if_missing file _ (not_found-none c file)

Agrees-Stays :
    (memory file after : Option Bytes) → Stays file after → Agrees file memory → Agrees after memory
Agrees-Stays none file after stays agrees = tt
Agrees-Stays (some key) none after stays agrees = absurd cc
Agrees-Stays (some key) (some raw) after stays agrees = stays ∙ agrees

put-Agrees :
    (p : ℕ) (file key : Option Bytes) (memory : ℕ → Option Bytes)
    → Agrees file key
    → ((q : ℕ) → Agrees file (memory q))
    → (q : ℕ) → Agrees file (put p key memory q)
put-Agrees p file key memory new old q = if_elim (Agrees file) (p == q) (λ _. new) (λ _. old q)

abbrev pub Holds : Option Bytes → Bytes → Type 0
Holds file key = file ≡ some key

All-add_key :
    (file got : Option Bytes) (keys : List Bytes)
    → Agrees file got
    → All (Holds file) keys
    → All (Holds file) (add_key got keys)
All-add_key file none keys agrees h = h
All-add_key file (some key) keys agrees h = (agrees, h)

Stays-trans : (a b c : Option Bytes) → Stays a b → Stays b c → Stays a c
Stays-trans none b c h k = tt
Stays-trans (some raw) none c h k = absurd cc
Stays-trans (some raw) (some key) c h k = k ∙ h

-- However processes that share the key file ask for the key of the vault, start again and are
-- crossed by others, every key that one of them gets, those that cross included, is the one that the
-- file holds at the end, and a file that is there at first stays as it is, if what each remembers at
-- first is what the file holds.
pub hand_out-Stays :
    (events : List VaultEvent) (file : Option Bytes) (memory : ℕ → Option Bytes)
    → ((q : ℕ) → Agrees file (memory q))
    → All (Holds (hand_out events file memory).1) (hand_out events file memory).0
      × Stays file (hand_out events file memory).1
unfolding hand_out
hand_out-Stays [] file memory agrees = (tt, Stays-refl file)
hand_out-Stays (restarts p ∷ events) file memory agrees =
    hand_out-Stays events file (put p none memory) (put-Agrees p file none memory tt agrees)
hand_out-Stays (asks p c create_if_missing ∷ events) file memory agrees =
    let got = get_vault_key c create_if_missing (record { key_file = file; cached = memory p }) in
    let (gives, (remembers, stays)) =
      get_vault_key-Good c create_if_missing file (memory p) (agrees p) in
    let (all, ends) = hand_out-Stays events got.1.key_file (put p got.1.cached memory) (
      put-Agrees p got.1.key_file got.1.cached memory remembers
        (λ q. Agrees-Stays (memory q) file got.1.key_file stays (agrees q))) in
    let rival = rival_key c create_if_missing (record { key_file = file; cached = memory p }) in
    let after = (hand_out events got.1.key_file (put p got.1.cached memory)).1 in
    (
      All-add_key after rival _
          (Agrees-Stays rival got.1.key_file after ends
            (rival_key-Agrees c create_if_missing file (memory p)))
          (All-add_key after got.0 _ (Agrees-Stays got.0 got.1.key_file after ends gives) all),
      Stays-trans file got.1.key_file after stays ends,
    )
