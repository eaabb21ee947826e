-- ===== src/Encryption/Exchange.antt =====
-- Key exchange, and the export and import of keys, in internal/security/encryption.go.
use cat_tag.Common.{
  ℕ, ◌+◌, not, [], ◌++◌, Option, none, some, if◌then◌else◌, ltb, String, length, take, drop,
  replicate,
}
use cat_tag.Errors.{
  ◌>>=◌, GoError, Result, ok, err, new_bluetooth_error_with_device, encryption_failed,
}
use cat_tag.Protocol.Bytes.{Bytes}
use cat_tag.Encryption.{
  Crypto, EncryptionKey, KeyExchangeData, EncryptionManager, bytes_equal, window, failing, refuse,
  get_key, make_gcm,
}

module _ (x : Crypto) where
  unfoldable pub generate_key_exchange_data :
      ℕ → String → Result Bytes → Result Bytes → Result KeyExchangeData
  generate_key_exchange_data now device random_key random_nonce = do
    public_key ← failing random_key device "generate_key_exchange"
    nonce ← failing random_nonce device "generate_key_exchange"
    ok (record {
      public_key = public_key;
      signature = x.sha256 (public_key ++ nonce);
      timestamp = now;
      algorithm = "ECDH-P256";
      device_id = device;
      nonce = nonce;
      certificate = [];
    })

  unfoldable pub validate_key_exchange : ℕ → KeyExchangeData → Option GoError
  validate_key_exchange now k =
      if ltb (k.timestamp + window) now
      then some
          (new_bluetooth_error_with_device encryption_failed k.device_id "validate_key_exchange")
      else if not (bytes_equal k.signature (x.sha256 (k.public_key ++ k.nonce)))
      then some
          (new_bluetooth_error_with_device encryption_failed k.device_id "validate_key_exchange")
      else none

  -- `copy(derivedKey, hash[:])` into a slice of `keySize` zeros
  unfoldable pub derive_shared_key : EncryptionManager → Bytes → Bytes → Bytes
  derive_shared_key m local remote =
      let hash = x.sha256 (local ++ remote) in
      take m.key_size hash ++ drop (length hash) (replicate m.key_size 0)

  -- `key_text` is what `fmt.Sprintf` prints of the key: its bytes in hexadecimal and its times.
  unfoldable pub export_key :
      ℕ
      → EncryptionManager
      → String
      → String
      → Result Bytes
      → (EncryptionKey → Bytes)
      → Result String
  unfolding make_gcm
  export_key now m device password random key_text = do
    k ← get_key now m device
    _ ← make_gcm x (x.sha256 (x.text password)) device "export_key"
    nonce ← failing random device "export_key"
    ok (x.to_hex (nonce ++ x.seal (x.sha256 (x.text password)) nonce (key_text k)))

  -- What the text decrypts to is thrown away: the manager is not changed.
  unfoldable pub import_key : String → String → String → Option GoError
  unfolding make_gcm
  import_key device encrypted password =
      let plain : Result Bytes = (do
        bytes ← failing (x.from_hex encrypted) device "import_key"
        _ ← make_gcm x (x.sha256 (x.text password)) device "import_key"
        (if ltb (length bytes) x.nonce_size
            then refuse device "import_key"
            else failing
                (x.open_sealed (x.sha256 (x.text password)) (take x.nonce_size bytes)
                  (drop x.nonce_size bytes))
                device "import_key")) in
      elim plain [ ok p ↦ none | err e ↦ some e ]
