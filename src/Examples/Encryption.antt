-- ===== src/Examples/Encryption.antt =====
-- An encryption manager whose cipher does nothing and whose codes are lengths.
use cat_tag.Common.{◌*◌, ◌≡◌, refl, [], ◌∷◌, none, length, lookup, arith}
use cat_tag.Errors.{ok}
use cat_tag.Encryption.{
  Crypto, Opens, EncryptionKey, EncryptedData, EncryptionManager, get_key, bytes_equal,
  calculate_hmac, encrypt_data, decrypt_data, unsigned, signed, second,
}
use cat_tag.Encryption.RoundTrip.{Accepted, decrypt_data-encrypt_data, decrypt_data-Accepted}

abbrev pub plain_crypto : Crypto
plain_crypto = record {
  new_cipher = λ key. none;
  new_gcm = λ key. none;
  nonce_size = 2;
  seal = λ key nonce plain. plain;
  open_sealed = λ key nonce sealed. ok sealed;
  hmac = λ key bytes. length key ∷ length bytes ∷ [];
  sha256 = λ bytes. length bytes ∷ [];
  text = λ s. [];
  decimal = λ n. n ∷ [];
  to_hex = λ bytes. "hash";
  from_hex = λ s. ok [];
}

pub plain_crypto-Opens : Opens plain_crypto
plain_crypto-Opens = record { open-seal = λ key nonce plain. refl }

abbrev held_key : EncryptionKey
held_key = record {
  device_id = "d";
  key = 7 ∷ 8 ∷ [];
  iv = 9 ∷ [];
  created_at = 0;
  expires_at = 500 * second;
  usage = 9998;
  max_usage = 10000;
  algorithm = "AES-256-GCM";
  key_derivation = "PBKDF2";
}

abbrev keeper : EncryptionManager
keeper = record { algorithm = "AES-256-GCM"; key_size = 2; keys = ("d", held_key) ∷ [] }

abbrev sent : EncryptedData
sent =
    signed plain_crypto (unsigned plain_crypto (3 * second) held_key (4 ∷ 4 ∷ []) (1 ∷ 2 ∷ 3 ∷ []))
      held_key.key

decrypt_data-encrypt_data_example :
    decrypt_data plain_crypto
      (100 * second)
      (encrypt_data plain_crypto (3 * second) (ok (4 ∷ 4 ∷ [])) keeper (1 ∷ 2 ∷ 3 ∷ []) "d").0
      sent
      "d"
    ≡ ok (1 ∷ 2 ∷ 3 ∷ [])
unfolding encrypt_data lookup get_key
decrypt_data-encrypt_data_example =
    decrypt_data-encrypt_data plain_crypto plain_crypto-Opens (3 * second) (100 * second)
      (ok (4 ∷ 4 ∷ [])) (1 ∷ 2 ∷ 3 ∷ []) keeper "d" held_key sent refl refl (omega arith)
      (omega arith)

decrypt_data-Accepted_example :
    Accepted plain_crypto (100 * second) keeper sent "d" (1 ∷ 2 ∷ 3 ∷ [])
unfolding decrypt_data get_key lookup bytes_equal calculate_hmac
decrypt_data-Accepted_example =
    decrypt_data-Accepted plain_crypto (100 * second) keeper sent "d" (1 ∷ 2 ∷ 3 ∷ []) refl
