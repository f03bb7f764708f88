-- ===== src/Backup/Laws.antt =====
-- What is encrypted is decrypted again, and nothing else is accepted.
use facenox.Base.{
  ℕ, zero, suc, ◌+◌, ◌≡◌, refl, sym, ap, ◌∙◌, ◌≤◌, ◌<◌, Bool, true, false, List, [], ◌∷◌, ◌++◌,
  Option, none, some, ◌==◌, ==_iff, ltb, le→not_ltb, length, length-append, length-drop,
  length-take, take, drop, take-append-drop, if◌then◌else◌, arith, Bool-cases, from_then, from_else,
  and_split, inl, inr,
}
use facenox.Backup.{
  Bytes, facenox_magic, salt_size, iv_size, tag_size, subarray, equal_bytes, Decrypted, incomplete,
  invalid, plaintext, min_len, encrypt_backup, decrypt_backup, decrypted,
}

drop-append : {A : Type 0} (xs ys : List A) (n : ℕ) → length xs ≡ n → drop n (xs ++ ys) ≡ ys
drop-append [] ys zero h = refl
drop-append [] ys (suc n) h = absurd (omega arith)
drop-append (x ∷ xs) ys zero h = absurd (omega arith)
drop-append (x ∷ xs) ys (suc n) h = drop-append xs ys n (omega arith)

take-append : {A : Type 0} (xs ys : List A) (n : ℕ) → length xs ≡ n → take n (xs ++ ys) ≡ xs
take-append [] ys zero h = refl
take-append [] ys (suc n) h = absurd (omega arith)
take-append (x ∷ xs) ys zero h = absurd (omega arith)
take-append (x ∷ xs) ys (suc n) h = ap (◌∷◌ x) (take-append xs ys n (omega arith))

drop-nil : {A : Type 0} (n : ℕ) → drop {A = A} n [] ≡ []
drop-nil zero = refl
drop-nil (suc n) = refl

suc_add : (m n : ℕ) → suc m + n ≡ suc (m + n)
suc_add m n = omega arith

drop-add : {A : Type 0} (m n : ℕ) (xs : List A) → drop (m + n) xs ≡ drop n (drop m xs)
drop-add zero n xs = ap (λ (k : ℕ). drop k xs) (omega arith)
drop-add (suc m) n [] = drop-nil (suc m + n) ∙ sym (drop-nil n)
drop-add (suc m) n (x ∷ xs) = rw (suc_add m n) (drop-add m n xs)

equal_bytes_iff : (s t : Bytes) → equal_bytes s t ≡ true → s ≡ t
unfolding equal_bytes
equal_bytes_iff [] [] h = refl
equal_bytes_iff (a ∷ s) (b ∷ t) h =
    let (e, k) = and_split (a == b) (equal_bytes s t) h in
    ap (λ (x : ℕ). x ∷ s) ((==_iff a b).0 e) ∙ ap (◌∷◌ b) (equal_bytes_iff s t k)
equal_bytes_iff [] (b ∷ t) h = absurd cc
equal_bytes_iff (a ∷ s) [] h = absurd cc

not_ltb→le : (a b : ℕ) → ltb a b ≡ false → b ≤ a
not_ltb→le a b h = ground arith

bad_incomplete : {text : Bytes} → incomplete ≡ plaintext text → ⊥
bad_incomplete h = absurd cc

bad_invalid : {text : Bytes} → invalid ≡ plaintext text → ⊥
bad_invalid h = absurd cc

piece : (n k : ℕ) (xs : Bytes) → drop n xs ≡ take k (drop n xs) ++ drop (n + k) xs
piece n k xs =
    sym (take-append-drop k (drop n xs)) ∙ ap (◌++◌ (take k (drop n xs))) (sym (drop-add n k xs))

length-piece : (n k : ℕ) (xs : Bytes) → n + k ≤ length xs → length (take k (drop n xs)) ≡ k
length-piece n k xs h = length-take k (drop n xs) (omega (arith, length-drop n xs, h))

-- What the format needs of the cipher: what is sealed is opened with the same key, nonce and tag,
-- the tag has its size, and a ciphertext has the length of its text.
abbrev pub Opens :
    {Key : Type 0}
    → (Key → Bytes → Bytes → Bytes × Bytes)
    → (Key → Bytes → Bytes → Bytes → Option Bytes)
    → Type 0
Opens {Key} seal unseal =
    (key : Key) (iv text : Bytes)
    → (unseal key iv (seal key iv text).1 (seal key iv text).0 ≡ some text)
      × (length (seal key iv text).1 ≡ tag_size)
      × (length (seal key iv text).0 ≡ length text)

module _ {Key : Type 0} (seal : Key → Bytes → Bytes → Bytes × Bytes)
    (unseal : Key → Bytes → Bytes → Bytes → Option Bytes) where
  abbrev blob_of : Bytes → Bytes → Bytes → Bytes → Bytes
  blob_of salt iv tag c = facenox_magic ++ (salt ++ (iv ++ (tag ++ c)))

  module _ (salt iv tag c : Bytes) (hs : length salt ≡ 16) (hi : length iv ≡ 12)
      (ht : length tag ≡ 16) where
    length-blob_of : length (blob_of salt iv tag c) ≡ 53 + length c
    length-blob_of = omega (
      arith,
      length-append salt (iv ++ (tag ++ c)),
      length-append iv (tag ++ c),
      length-append tag c,
      hs,
      hi,
      ht,
    )

    past_salt : drop 25 (blob_of salt iv tag c) ≡ iv ++ (tag ++ c)
    past_salt = drop-append salt (iv ++ (tag ++ c)) 16 hs

    past_iv : drop 37 (blob_of salt iv tag c) ≡ tag ++ c
    past_iv =
        drop-add 25 12 (blob_of salt iv tag c)
        ∙ (ap (drop 12) past_salt ∙ drop-append iv (tag ++ c) 12 hi)

    past_tag : drop 53 (blob_of salt iv tag c) ≡ c
    past_tag =
        drop-add 37 16 (blob_of salt iv tag c) ∙ (ap (drop 16) past_iv ∙ drop-append tag c 16 ht)

    decrypt_backup-blob_of :
        (derive_key : Bytes → Key)
        → 0 < length c
        → decrypt_backup seal unseal derive_key (blob_of salt iv tag c)
          ≡ decrypted seal unseal (unseal (derive_key salt) iv tag c)
    unfolding decrypt_backup subarray equal_bytes
    decrypt_backup-blob_of derive_key positive =
        let blob = blob_of salt iv tag c in
        let open_with : Bytes → Bytes → Bytes → Bytes → Decrypted =
          λ x y z w. decrypted seal unseal (unseal (derive_key x) y z w) in
        ap
          (λ (b : Bool).
            if b
            then incomplete
            else open_with (subarray blob 9 16) (subarray blob 25 12) (subarray blob 37 16)
                (drop 53 blob))
          (le→not_ltb (length blob) 54 (omega (arith, length-blob_of, positive)))
        ∙ (ap
              (λ (x : Bytes).
                open_with x (subarray blob 25 12) (subarray blob 37 16) (drop 53 blob))
              (take-append salt (iv ++ (tag ++ c)) 16 hs)
            ∙ (ap (λ (y : Bytes). open_with salt y (subarray blob 37 16) (drop 53 blob))
                  (ap (take 12) past_salt ∙ take-append iv (tag ++ c) 12 hi)
                ∙ (ap (λ (z : Bytes). open_with salt iv z (drop 53 blob))
                      (ap (take 16) past_iv ∙ take-append tag c 16 ht)
                    ∙ ap (open_with salt iv tag) past_tag)))

  -- A backup is decrypted to its text with the same password, if the text is not empty.
  pub decrypt_backup-encrypt_backup :
      (derive_key : Bytes → Key) (salt iv text : Bytes)
      → Opens seal unseal
      → length salt ≡ salt_size
      → length iv ≡ iv_size
      → 0 < length text
      → decrypt_backup seal unseal derive_key (encrypt_backup seal unseal derive_key salt iv text)
        ≡ plaintext text
  unfolding decrypt_backup encrypt_backup subarray equal_bytes
  decrypt_backup-encrypt_backup derive_key salt iv text opens hs hi ht =
      let (opened, tag_length, length_kept) = opens (derive_key salt) iv text in
      decrypt_backup-blob_of salt iv (seal (derive_key salt) iv text).1
        (seal (derive_key salt) iv text).0 hs hi tag_length derive_key
        (omega (arith, length_kept, ht))
      ∙ ap (decrypted seal unseal) opened

  decrypted-plaintext :
      (o : Option Bytes) (text : Bytes) → decrypted seal unseal o ≡ plaintext text → o ≡ some text
  decrypted-plaintext none text h = absurd cc
  decrypted-plaintext (some t) text h = cc

  opened :
      (derive_key : Bytes → Key) (blob text : Bytes)
      → decrypt_backup seal unseal derive_key blob ≡ plaintext text
      → (min_len ≤ length blob)
        × (take 9 blob ≡ facenox_magic)
        × (unseal
              (derive_key (take 16 (drop 9 blob)))
              (take 12 (drop 25 blob))
              (take 16 (drop 37 blob))
              (drop 53 blob)
            ≡ some text)
  unfolding decrypt_backup subarray
  opened derive_key blob text h =
      let body = decrypted seal unseal (
        unseal (derive_key (take 16 (drop 9 blob))) (take 12 (drop 25 blob))
          (take 16 (drop 37 blob)) (drop 53 blob)) in
      elim (Bool-cases (ltb (length blob) min_len)) [
        | inl short ↦ absurd (
            bad_incomplete (
              from_then (ltb (length blob) min_len)
                (if equal_bytes (take 9 blob) facenox_magic then body else invalid) short h))
        | inr long ↦ elim (Bool-cases (equal_bytes (take 9 blob) facenox_magic)) [
          | inl same ↦ (
            not_ltb→le (length blob) min_len long,
            equal_bytes_iff (take 9 blob) facenox_magic same,
            decrypted-plaintext
                (unseal (derive_key (take 16 (drop 9 blob))) (take 12 (drop 25 blob))
                  (take 16 (drop 37 blob)) (drop 53 blob))
                text
                (from_then (equal_bytes (take 9 blob) facenox_magic) invalid same
                  (from_else (ltb (length blob) min_len) incomplete long h)),
          )
          | inr other ↦ absurd (
              bad_invalid (
                from_else (equal_bytes (take 9 blob) facenox_magic) body other
                  (from_else (ltb (length blob) min_len) incomplete long h)))
        ]
      ]

  -- A file is accepted only if it consists of the magic, a salt, a nonce and a tag of their sizes
  -- and a ciphertext that is not empty, which opens to the text.
  pub decrypt_backup-plaintext :
      (derive_key : Bytes → Key) (blob text : Bytes)
      → decrypt_backup seal unseal derive_key blob ≡ plaintext text
      → (salt : Bytes) × (iv : Bytes) × (tag : Bytes) × (ciphertext : Bytes) × (blob
          ≡ facenox_magic ++ (salt ++ (iv ++ (tag ++ ciphertext))))
        × (length salt ≡ salt_size)
        × (length iv ≡ iv_size)
        × (length tag ≡ tag_size)
        × (0 < length ciphertext)
        × (unseal (derive_key salt) iv tag ciphertext ≡ some text)
  decrypt_backup-plaintext derive_key blob text h =
      let (enough, magic, found) = opened derive_key blob text h in
      (
        take 16 (drop 9 blob),
        take 12 (drop 25 blob),
        take 16 (drop 37 blob),
        drop 53 blob,
        sym (take-append-drop 9 blob)
            ∙ (ap (λ (x : Bytes). x ++ drop 9 blob) magic
                ∙ ap (◌++◌ facenox_magic) (
                    piece 9 16 blob
                    ∙ ap (◌++◌ (take 16 (drop 9 blob))) (
                        piece 25 12 blob ∙ ap (◌++◌ (take 12 (drop 25 blob))) (piece 37 16 blob)))),
        length-piece 9 16 blob (omega (arith, enough)),
        length-piece 25 12 blob (omega (arith, enough)),
        length-piece 37 16 blob (omega (arith, enough)),
        omega (arith, enough, length-drop 53 blob),
        found,
      )
