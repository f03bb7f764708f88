-- ===== src/Backup/Tests.antt =====
-- A container with a cipher that hides nothing, and the theorem at it.
use facenox.Base.{ℕ, ◌≡◌, refl, arith, [], ◌∷◌, ◌++◌, Option, some, length}
use facenox.Backup.{Bytes, incomplete, invalid, plaintext, encrypt_backup, decrypt_backup}
use facenox.Backup.Laws.{Opens, decrypt_backup-encrypt_backup}

abbrev twelve : Bytes
twelve = 1 ∷ 2 ∷ 3 ∷ 4 ∷ 5 ∷ 6 ∷ 7 ∷ 8 ∷ 9 ∷ 10 ∷ 11 ∷ 12 ∷ []

abbrev sixteen : Bytes
sixteen = 13 ∷ 14 ∷ 15 ∷ 16 ∷ twelve

abbrev first_key : Bytes → ℕ
first_key salt = length salt

abbrev seal : ℕ → Bytes → Bytes → Bytes × Bytes
seal key iv text = (text, sixteen)

abbrev unseal : ℕ → Bytes → Bytes → Bytes → Option Bytes
unseal key iv tag ciphertext = some ciphertext

seal-Opens : Opens seal unseal
seal-Opens key iv text = (refl, refl, refl)

decrypted_backup :
    decrypt_backup seal unseal first_key
      (encrypt_backup seal unseal first_key sixteen twelve (123 ∷ 125 ∷ []))
    ≡ plaintext (123 ∷ 125 ∷ [])
unfolding decrypt_backup encrypt_backup
decrypted_backup = refl

empty_backup :
    decrypt_backup seal unseal first_key (encrypt_backup seal unseal first_key sixteen twelve [])
    ≡ incomplete
unfolding decrypt_backup encrypt_backup
empty_backup = refl

other_file :
    decrypt_backup seal unseal first_key (0 ∷ (sixteen ++ sixteen ++ sixteen ++ sixteen)) ≡ invalid
unfolding decrypt_backup
other_file = refl

decrypt_backup-encrypt_backup_example :
    decrypt_backup seal unseal first_key
      (encrypt_backup seal unseal first_key sixteen twelve (123 ∷ 125 ∷ []))
    ≡ plaintext (123 ∷ 125 ∷ [])
decrypt_backup-encrypt_backup_example =
    decrypt_backup-encrypt_backup seal unseal first_key sixteen twelve (123 ∷ 125 ∷ []) seal-Opens
      refl refl (omega arith)
