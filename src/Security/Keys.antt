-- ===== src/Security/Keys.antt =====
-- The session keys of internal/security/manager.go, and encryption with the keys of the encryption
-- manager.
use cat_tag.Common.{ℕ, ◌==◌, not, none, some, if◌then◌else◌, String, length, lookup, insert}
use cat_tag.Errors.{
  Result, ok, err, new_bluetooth_error, new_bluetooth_error_with_device, wrap_error, not_found,
  auth_failed, encryption_failed,
}
use cat_tag.Protocol.Bytes.{Bytes}
use cat_tag.Encryption
use cat_tag.Encryption.{
  Crypto, EncryptionManager, EncryptedData, new_encryption_manager, generate_key, encrypt_data,
  decrypt_data, rotate_key,
}
use cat_tag.Mutex.{pure, ◌>>=◌, with_state, write_locked, read_locked}
use cat_tag.Security.{
  auth_success, info, Manager, Method, log_security_event, get_or_create_session, put_session,
}

-- `key` and `iv` are what `rand.Read` gave.
unfoldable pub generate_session_key :
    ℕ → String → Result Bytes → Result Bytes → Method (Result Bytes)
unfolding get_or_create_session
generate_session_key now device key iv = do
  made ← with_state λ m.
      (let (q, r) = generate_key now m.encryption device m.config.session_timeout key iv in
        (record m { encryption = q }, r))
  elim made [
    | err e ↦ pure (err e)
    | ok k ↦ (do
      _ ← with_state λ m. (record m { key_store = insert device k.key m.key_store }, tt)
      _ ← write_locked (
          with_state λ m. (
            put_session device (record (get_or_create_session now device m) { session_key = k.key })
                m,
            tt,
          ))
      pure (ok k.key))
  ]

-- A new key, if the session is still there, is put into it.
unfoldable pub rekey : ℕ → String → Bytes → Manager → Manager × Unit {0}
rekey now device key m = elim (lookup device m.sessions) [
  | none ↦ (m, tt)
  | some s ↦ (put_session device (record s { session_key = key; last_activity = now }) m, tt)
]

unfoldable pub rotate_session_key : ℕ → String → Result Bytes → Result Bytes → Method (Result Bytes)
unfolding rekey
rotate_session_key now device key iv = do
  made ← with_state λ m.
      (let (q, r) = rotate_key now m.encryption device m.config.session_timeout key iv in
        (record m { encryption = q }, r))
  elim made [
    | err e ↦ pure (err e)
    | ok k ↦ (do
      _ ← with_state λ m. (record m { key_store = insert device k.key m.key_store }, tt)
      _ ← write_locked (with_state (rekey now device k.key))
      _ ← with_state λ m. (log_security_event auth_success device info m, tt)
      pure (ok k.key))
  ]

-- `getSessionKey`: the session's key, or else the stored one, which the session then has.
unfoldable pub adopt_key : String → Bytes → Manager → Manager × Result Bytes
adopt_key device key m = elim (lookup device m.sessions) [
  | none ↦ (m, ok key)
  | some s ↦ (put_session device (record s { session_key = key }) m, ok key)
]

unfoldable pub get_session_key : String → Method (Result Bytes)
unfolding adopt_key
get_session_key device = do
  session ← read_locked (with_state λ m. (m, lookup device m.sessions))
  elim session [
    | none ↦ pure (err (new_bluetooth_error_with_device auth_failed device "get_session_key"))
    | some s ↦ if not (length s.session_key == 0) then pure (ok s.session_key) else (do
      stored ← with_state λ m. (m, lookup device m.key_store)
      elim stored [
        | none ↦ pure (
            err (
              wrap_error (new_bluetooth_error not_found) encryption_failed device
                "get_session_key"))
        | some key ↦ write_locked (with_state (adopt_key device key))
      ])
  ]

-- The JSON of encrypted data.
pub record Json : Type 0 where
  pub marshal : EncryptedData → Result Bytes
  pub unmarshal : Bytes → Result EncryptedData

module _ (x : Crypto) where
  unfoldable pub encrypt : Json → ℕ → Result Bytes → Bytes → String → Method (Result Bytes)
  encrypt j now random plain device = with_state λ m.
      if not m.config.enable_encryption
      then (m, ok plain)
      else (let (q, r) = encrypt_data x now random m.encryption plain device in
          (
            record m { encryption = q },
            elim r [ err e ↦ err e | ok c ↦ Encryption.failing (j.marshal c) device "encrypt" ],
          ))

  unfoldable pub decrypt : Json → ℕ → Bytes → String → Method (Result Bytes)
  decrypt j now bytes device = with_state λ m. (
    m,
    (if not m.config.enable_encryption then ok bytes else elim (j.unmarshal bytes) [
      | err e ↦ err (wrap_error e encryption_failed device "decrypt")
      | ok c ↦ decrypt_data x now m.encryption c device
    ]),
  )
