-- ===== src/Encryption.antt =====
-- `EncryptionManager` of internal/security/encryption.go. Times are nanoseconds; `time.Unix(t, 0)` is
-- `t * second`. The libraries crypto/aes, crypto/cipher, crypto/hmac, crypto/sha256 and encoding/hex
-- are the parameter `Crypto`; what `rand.Read` gives is an argument of each call, and an error of it
-- is a `Result`. A key that a call holds and the key in the map are one object: `Usage` is counted in
-- the map.
pub mod RoundTrip
pub mod Usage
pub mod Exchange
use cat_tag.Common.{
  ℕ, suc, ◌+◌, ◌*◌, ◌/◌, ◌≡◌, ◌==◌, Bool, true, false, not, ◌&&◌, ◌||◌, [], ◌∷◌, ◌++◌, Option, none,
  some, if◌then◌else◌, ltb, leb, String, Map, lookup, insert, delete, same,
}
use cat_tag.Errors.{
  ◌>>=◌, GoError, Result, ok, err, new_bluetooth_error_with_device, wrap_error, not_found,
  not_supported, encryption_failed,
}
use cat_tag.Protocol.Bytes.{Bytes}

abbrev pub second : ℕ
second = 1000000000

-- The replay window of five minutes.
abbrev pub window : ℕ
window = 300 * second

-- `new_cipher` and `new_gcm` return the error, `seal` and `open` are those of the AEAD for a key.
pub record Crypto : Type 0 where
  pub new_cipher : Bytes → Option GoError
  pub new_gcm : Bytes → Option GoError
  pub nonce_size : ℕ
  pub seal : Bytes → Bytes → Bytes → Bytes
  pub open_sealed : Bytes → Bytes → Bytes → Result Bytes
  pub hmac : Bytes → Bytes → Bytes
  pub sha256 : Bytes → Bytes
  pub text : String → Bytes
  pub decimal : ℕ → Bytes
  pub to_hex : Bytes → String
  pub from_hex : String → Result Bytes

-- What is sealed opens to what it was.
pub record Opens (x : Crypto) : Type 0 where
  pub open-seal :
      (key nonce plain : Bytes) → x.open_sealed key nonce (x.seal key nonce plain) ≡ ok plain

-- `hmac.Equal`
unfoldable pub bytes_equal : Bytes → Bytes → Bool
bytes_equal [] [] = true
bytes_equal [] (b ∷ bs) = false
bytes_equal (a ∷ l) [] = false
bytes_equal (a ∷ l) (b ∷ bs) = a == b && bytes_equal l bs

pub record EncryptionKey : Type 0 where
  pub device_id : String
  pub key : Bytes
  pub iv : Bytes
  pub created_at : ℕ
  pub expires_at : ℕ
  pub usage : ℕ
  pub max_usage : ℕ
  pub algorithm : String
  pub key_derivation : String

pub record EncryptedData : Type 0 where
  pub ciphertext : Bytes
  pub nonce : Bytes
  pub tag : Bytes
  pub algorithm : String
  pub timestamp : ℕ
  pub hmac : Bytes

pub record KeyExchangeData : Type 0 where
  pub public_key : Bytes
  pub signature : Bytes
  pub timestamp : ℕ
  pub algorithm : String
  pub device_id : String
  pub nonce : Bytes
  pub certificate : Bytes

pub record EncryptionManager : Type 0 where
  pub algorithm : String
  pub key_size : ℕ
  pub keys : Map EncryptionKey

unfoldable pub new_encryption_manager : String → ℕ → EncryptionManager
new_encryption_manager algorithm key_size = record {
  algorithm = algorithm;
  key_size = key_size;
  keys = [];
}

-- An error of a library, wrapped as the code wraps it.
abbrev pub failing {ℓ} : {A : Type ℓ} → Result A → String → String → Result A
failing (ok a) device operation = ok a
failing (err e) device operation = err (wrap_error e encryption_failed device operation)

abbrev pub no_error : Option GoError → Result (Unit {0})
no_error none = ok tt
no_error (some e) = err e

abbrev pub refuse {ℓ} : {A : Type ℓ} → String → String → Result A
refuse device operation = err (new_bluetooth_error_with_device encryption_failed device operation)

unfoldable pub fresh_key : EncryptionManager → ℕ → String → ℕ → Bytes → Bytes → EncryptionKey
fresh_key m now device ttl key iv = record {
  device_id = device;
  key = key;
  iv = iv;
  created_at = now;
  expires_at = now + ttl;
  usage = 0;
  max_usage = 10000;
  algorithm = m.algorithm;
  key_derivation = "PBKDF2";
}

-- `key` and `iv` are what the two calls of `rand.Read` gave.
unfoldable pub generate_key :
    ℕ
    → EncryptionManager
    → String
    → ℕ
    → Result Bytes
    → Result Bytes
    → EncryptionManager × Result EncryptionKey
unfolding fresh_key
generate_key now m device ttl key iv =
    elim (do
      k ← failing key device "generate_key"
      v ← failing iv device "generate_key"
      ok (fresh_key m now device ttl k v)) [
        | err e ↦ (m, err e)
        | ok k ↦ (record m { keys = insert device k m.keys }, ok k)
      ]

unfoldable pub get_key : ℕ → EncryptionManager → String → Result EncryptionKey
get_key now m device = elim (lookup device m.keys) [
  | none ↦ err (new_bluetooth_error_with_device not_found device "get_key")
  | some k ↦
      if ltb k.expires_at now
      then refuse device "get_key"
      else if leb k.max_usage k.usage
      then refuse device "get_key"
      else ok k
]

-- The old key goes, also where no new one can be made.
unfoldable pub rotate_key :
    ℕ
    → EncryptionManager
    → String
    → ℕ
    → Result Bytes
    → Result Bytes
    → EncryptionManager × Result EncryptionKey
unfolding generate_key
rotate_key now m device ttl key iv =
    let (q, made) = generate_key now (record m { keys = delete device m.keys }) device ttl key iv in
    (q, failing made device "rotate_key")

-- A key's expiry and its use, for `CleanupExpiredKeys`.
unfoldable pub is_spent : ℕ → EncryptionKey → Bool
is_spent now k = ltb k.expires_at now || leb k.max_usage k.usage

unfoldable pub live_keys : ℕ → Map EncryptionKey → Map EncryptionKey
live_keys now [] = []
live_keys now ((device, k) ∷ ks) =
    let rest = live_keys now ks in if is_spent now k then rest else (device, k) ∷ rest

unfoldable pub spent_keys : ℕ → Map EncryptionKey → ℕ
spent_keys now [] = 0
spent_keys now ((device, k) ∷ ks) =
    let rest = spent_keys now ks in if is_spent now k then suc rest else rest

unfoldable pub cleanup_expired_keys : ℕ → EncryptionManager → EncryptionManager × ℕ
unfolding live_keys spent_keys
cleanup_expired_keys now m = (record m { keys = live_keys now m.keys }, spent_keys now m.keys)

module _ (x : Crypto) where
  -- The writes to the hash.
  unfoldable pub calculate_hmac : EncryptedData → Bytes → Bytes
  calculate_hmac c key =
      x.hmac key (c.ciphertext ++ (c.nonce ++ (x.text c.algorithm ++ x.decimal c.timestamp)))

  -- `aes.NewCipher` and `cipher.NewGCM`
  unfoldable pub make_gcm : Bytes → String → String → Result (Unit {0})
  make_gcm key device operation = do
    _ ← failing (no_error (x.new_cipher key)) device operation
    failing (no_error (x.new_gcm key)) device operation

  abbrev pub unsigned : ℕ → EncryptionKey → Bytes → Bytes → EncryptedData
  unsigned now k nonce plain = record {
    ciphertext = x.seal k.key nonce plain;
    nonce = nonce;
    tag = [];
    algorithm = "AES-256-GCM";
    timestamp = now / second;
    hmac = [];
  }

  abbrev pub signed : EncryptedData → Bytes → EncryptedData
  signed c key = record c { hmac = calculate_hmac c key }

  unfoldable pub encrypt_aes_gcm : ℕ → Result Bytes → Bytes → EncryptionKey → Result EncryptedData
  unfolding make_gcm
  encrypt_aes_gcm now random plain k = do
    _ ← make_gcm k.key k.device_id "encrypt_aes_gcm"
    nonce ← failing random k.device_id "encrypt_aes_gcm"
    ok (signed (unsigned now k nonce plain) k.key)

  unfoldable pub decrypt_aes_gcm : EncryptedData → EncryptionKey → Result Bytes
  unfolding make_gcm
  decrypt_aes_gcm c k =
      if not (bytes_equal c.hmac (calculate_hmac c k.key))
      then refuse k.device_id "decrypt_aes_gcm"
      else (do
        _ ← make_gcm k.key k.device_id "decrypt_aes_gcm"
        failing (x.open_sealed k.key c.nonce c.ciphertext) k.device_id "decrypt_aes_gcm")

  abbrev pub use_key : EncryptionManager → String → EncryptionKey → EncryptionManager
  use_key m device k = record m { keys = insert device (record k { usage = k.usage + 1 }) m.keys }

  -- The use is counted before the encryption, which may still fail.
  unfoldable pub encrypt_data :
      ℕ
      → Result Bytes
      → EncryptionManager
      → Bytes
      → String
      → EncryptionManager × Result EncryptedData
  unfolding encrypt_aes_gcm
  encrypt_data now random m plain device = elim (get_key now m device) [
    | err e ↦ (m, err e)
    | ok k ↦ (
      use_key m device k,
      (if same m.algorithm "AES-256-GCM"
          then encrypt_aes_gcm now random plain (record k { usage = k.usage + 1 })
          else err (new_bluetooth_error_with_device not_supported device "encrypt_data")),
    )
  ]

  unfoldable pub decrypt_data : ℕ → EncryptionManager → EncryptedData → String → Result Bytes
  unfolding decrypt_aes_gcm
  decrypt_data now m c device = elim (get_key now m device) [
    | err e ↦ err e
    | ok k ↦
        if ltb (c.timestamp * second + window) now
        then refuse device "decrypt_data"
        else if same c.algorithm "AES-256-GCM"
        then decrypt_aes_gcm c k
        else err (new_bluetooth_error_with_device not_supported device "decrypt_data")
  ]
