-- ===== src/Encryption/RoundTrip.antt =====
-- What decryption gives back, and what it accepts.
use cat_tag.Common.{
  ℕ, ◌+◌, ◌*◌, ◌/◌, ◌≤◌, ◌<◌, ◌≡◌, refl, true, [], ◌∷◌, none, some, if◌then◌else◌, leb, String,
  lookup, lookup-insert, same, same_refl, same_iff, Option-cases, inl, inr, arith,
}
use cat_tag.Errors.{Result, Result-cases, ok}
use cat_tag.Protocol.Bytes.{Bytes}
use cat_tag.Encryption.{
  Crypto, Opens, EncryptionKey, EncryptedData, EncryptionManager, bytes_equal, second, window,
  refuse, get_key, calculate_hmac, make_gcm, unsigned, signed, encrypt_aes_gcm, decrypt_aes_gcm,
  use_key, encrypt_data, decrypt_data,
}

pub bytes_equal_refl : (b : Bytes) → bytes_equal b b ≡ true
unfolding bytes_equal
bytes_equal_refl [] = refl
bytes_equal_refl (b ∷ bs) = ground (arith, bytes_equal_refl bs)

pub bytes_equal_sound : (a b : Bytes) → bytes_equal a b ≡ true → a ≡ b
unfolding bytes_equal
bytes_equal_sound [] [] e = refl
bytes_equal_sound [] (b ∷ bs) e = cc
bytes_equal_sound (a ∷ l) [] e = cc
bytes_equal_sound (a ∷ l) (b ∷ bs) e = ground (arith, bytes_equal_sound l bs)

module _ (x : Crypto) where
  encrypt_aes_gcm-signed :
      (now : ℕ) (random : Result Bytes) (plain : Bytes) (k : EncryptionKey) (c : EncryptedData)
      → encrypt_aes_gcm x now random plain k ≡ ok c
      → (nonce : Bytes) × (c ≡ signed x (unsigned x now k nonce plain) k.key)
        × (x.new_cipher k.key ≡ none)
        × (x.new_gcm k.key ≡ none)
  unfolding encrypt_aes_gcm make_gcm
  encrypt_aes_gcm-signed now random plain k c e = elim (Result-cases random) [
    | inl (nonce, r) ↦ (nonce, ground arith, ground arith, ground arith)
    | inr (g, r) ↦ absurd (ground arith)
  ]

  decrypt_aes_gcm-signed :
      (o : Opens x) (now : ℕ) (nonce plain : Bytes) (k : EncryptionKey)
      → x.new_cipher k.key ≡ none
      → x.new_gcm k.key ≡ none
      → decrypt_aes_gcm x (signed x (unsigned x now k nonce plain) k.key) k ≡ ok plain
  unfolding decrypt_aes_gcm make_gcm calculate_hmac
  decrypt_aes_gcm-signed o now nonce plain k a b = ground (
    arith,
    bytes_equal_refl (calculate_hmac x (unsigned x now k nonce plain) k.key),
    o.open-seal k.key nonce plain,
  )

  -- What a successful encryption went through.
  record Encrypted (now : ℕ) (m : EncryptionManager) (d : String) (plain : Bytes)
      (k : EncryptionKey) (c : EncryptedData) (q : EncryptionManager) : Type 0 where
    nonce : Bytes
    made : c ≡ signed x (unsigned x now k nonce plain) k.key
    cipher_ok : x.new_cipher k.key ≡ none
    gcm_ok : x.new_gcm k.key ≡ none
    counted : q ≡ use_key x m d k

  encrypt_data-Encrypted :
      (now : ℕ) (random : Result Bytes) (plain : Bytes) (m : EncryptionManager) (d : String)
      (k : EncryptionKey) (c : EncryptedData)
      → lookup d m.keys ≡ some k
      → (encrypt_data x now random m plain d).1 ≡ ok c
      → Encrypted now m d plain k c (encrypt_data x now random m plain d).0
  unfolding encrypt_data get_key
  encrypt_data-Encrypted now random plain m d k c found e =
      let k' : EncryptionKey = record k { usage = k.usage + 1 } in
      let sent : encrypt_aes_gcm x now random plain k' ≡ ok c = ground arith in
      let (nonce, made, a, b) = encrypt_aes_gcm-signed now random plain k' c sent in
      record { nonce = nonce; made = made; cipher_ok = a; gcm_ok = b; counted = ground arith }

  lookup-use_key :
      (m : EncryptionManager) (d : String) (k : EncryptionKey)
      → lookup d (use_key x m d k).keys ≡ some (record k { usage = k.usage + 1 })
  lookup-use_key m d k =
      ground (arith, lookup-insert d d (record k { usage = k.usage + 1 }) m.keys, same_refl d)

  decrypt_data-used :
      (later : ℕ) (m : EncryptionManager) (d : String) (k : EncryptionKey) (c : EncryptedData)
      (plain : Bytes)
      → lookup d m.keys ≡ some k
      → later ≤ k.expires_at
      → later ≤ c.timestamp * second + window
      → same c.algorithm "AES-256-GCM" ≡ true
      → decrypt_aes_gcm x c k ≡ ok plain
      → decrypt_data x later m c d
        ≡ (if leb k.max_usage k.usage then refuse d "get_key" else ok plain)
  unfolding decrypt_data get_key
  decrypt_data-used later m d k c plain found live fresh alg opens = ground arith

  -- Encrypted data decrypts to what it was, on the manager that encrypted it, as long as its key has
  -- not expired and the data is not older than five minutes, provided that what is sealed opens. The
  -- exception is the last use of a key: what that encrypted is refused, as the key is used up.
  pub decrypt_data-encrypt_data :
      (o : Opens x) (now later : ℕ) (random : Result Bytes) (plain : Bytes) (m : EncryptionManager)
      (d : String) (k : EncryptionKey) (c : EncryptedData)
      → lookup d m.keys ≡ some k
      → (encrypt_data x now random m plain d).1 ≡ ok c
      → later ≤ k.expires_at
      → later ≤ now / second * second + window
      → decrypt_data x later (encrypt_data x now random m plain d).0 c d
        ≡ (if leb k.max_usage (k.usage + 1) then refuse d "get_key" else ok plain)
  decrypt_data-encrypt_data o now later random plain m d k c found e live fresh =
      let w = encrypt_data-Encrypted now random plain m d k c found e in
      let k' : EncryptionKey = record k { usage = k.usage + 1 } in
      rw (w.counted, w.made)
        (decrypt_data-used later (use_key x m d k) d k'
          (signed x (unsigned x now k w.nonce plain) k.key) plain (lookup-use_key m d k) live fresh
          (same_refl "AES-256-GCM")
          (decrypt_aes_gcm-signed o now w.nonce plain k' w.cipher_ok w.gcm_ok))

  -- What accepted data rests on.
  pub record Accepted (now : ℕ) (m : EncryptionManager) (c : EncryptedData) (d : String)
      (plain : Bytes) : Type 0 where
    pub key : EncryptionKey
    pub held : lookup d m.keys ≡ some key
    pub live : now ≤ key.expires_at
    pub unspent : key.usage < key.max_usage
    pub fresh : now ≤ c.timestamp * second + window
    pub algorithm_ok : c.algorithm ≡ "AES-256-GCM"
    pub authentic : c.hmac ≡ calculate_hmac x c key.key
    pub opened : x.open_sealed key.key c.nonce c.ciphertext ≡ ok plain

  decrypt_aes_gcm-ok :
      (c : EncryptedData) (k : EncryptionKey) (plain : Bytes)
      → decrypt_aes_gcm x c k ≡ ok plain
      → (c.hmac ≡ calculate_hmac x c k.key) × (x.open_sealed k.key c.nonce c.ciphertext ≡ ok plain)
  unfolding decrypt_aes_gcm make_gcm
  decrypt_aes_gcm-ok c k plain e = (
    bytes_equal_sound c.hmac (calculate_hmac x c k.key) (ground arith),
    elim (Result-cases (x.open_sealed k.key c.nonce c.ciphertext)) [
      | inl (p, r) ↦ ground arith
      | inr (g, r) ↦ absurd (ground arith)
    ],
  )

  -- Data is accepted only with a key of the device that has not expired and is not used up, within
  -- five minutes of its time, if the data names AES-256-GCM (whatever the algorithm of the manager
  -- is), with the message code of its ciphertext, nonce, algorithm and time, and if its ciphertext
  -- opens to what is returned.
  pub decrypt_data-Accepted :
      (now : ℕ) (m : EncryptionManager) (c : EncryptedData) (d : String) (plain : Bytes)
      → decrypt_data x now m c d ≡ ok plain
      → Accepted now m c d plain
  unfolding decrypt_data get_key
  decrypt_data-Accepted now m c d plain e = elim (Option-cases (lookup d m.keys)) [
    | inl r ↦ absurd (ground arith)
    | inr (k, r) ↦
        let opens : decrypt_aes_gcm x c k ≡ ok plain = ground arith in
        let (mac, content) = decrypt_aes_gcm-ok c k plain opens in
        record {
          key = k;
          held = r;
          live = ground arith;
          unspent = ground arith;
          fresh = ground arith;
          algorithm_ok = (same_iff c.algorithm "AES-256-GCM").0 (ground arith);
          authentic = mac;
          opened = content;
        }
  ]
