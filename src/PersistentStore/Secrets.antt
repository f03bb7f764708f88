-- ===== src/PersistentStore/Secrets.antt =====
-- app/src/electron/persistentStore.ts: the secrets do not stand in the settings file as they are.
use facenox.Base.{◌≡◌, true, false, ◌⊎◌}
use facenox.Base.Text.{Text}
use facenox.PersistentStore.{RawStore, Crypto, is_secret_key}
use facenox.PersistentStore.Access.{Machine, Call, gets, sets, deletes, clears, restores}
use facenox.PersistentStore.Sealed.{is_sealed, is_text}

module _ {J : Type 0} (raw : RawStore J) (crypto : Crypto) (key : Text) where
  -- What the settings hold for the key is sealed.
  abbrev pub SealedAt : Machine raw.State → Type 0
  SealedAt m = is_sealed (raw.read key m.settings) ≡ true

  -- What a call may do: it is of the key, where it sets a text, or of one that has nothing to do with
  -- it, or of one that the key lies in, where it sets a value that holds the secret encrypted, empty or
  -- not at all.
  abbrev pub Touches : Call J → Type 0
  Touches (gets c j) = ((j ≡ key) ⊎ raw.Apart key j) ⊎ (is_secret_key j ≡ false)
  Touches (sets c j value) =
      ((j ≡ key) × (is_text value ≡ true))
      ⊎ raw.Apart key j
      ⊎ ((is_secret_key j ≡ false)
          × ((s : raw.State) → is_sealed (raw.read key (raw.write j value s)) ≡ true))
  Touches (deletes j) = (j ≡ key) ⊎ raw.Apart key j ⊎ raw.Inside key j
  Touches clears = Unit
  Touches (restores c j) = raw.Inside key j × (is_secret_key j ≡ false)
