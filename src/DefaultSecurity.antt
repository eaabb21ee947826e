-- ===== src/DefaultSecurity.antt =====
-- `DefaultSecurityManager` of pkg/bluetooth/security_manager_impl.go, with its lock (Mutex). The
-- session and the policy have the fields that the security manager's have, the crypto libraries are
-- `Crypto`, and what `rand.Read` gives is an argument. The text of a wrapped error is left out.
pub mod Lockout
use Prim.Native.String.{len}
use cat_tag.Common.{
  ℕ, suc, ◌+◌, ◌==◌, ℤ, at_least, Bool, true, not, ◌&&◌, [], ◌++◌, Option, none, some,
  if◌then◌else◌, ltb, leb, String, length, take, drop, Map, lookup, insert, delete, same,
}
use cat_tag.Errors.{
  GoError, foreign, Result, ok, err, new_bluetooth_error, not_supported, auth_failed,
  encryption_failed,
}
use cat_tag.Protocol.Bytes.{Bytes}
use cat_tag.Session.{Credentials}
use cat_tag.Encryption.{Crypto}
use cat_tag.Mutex.{◌>>=◌, Locked, pure, with_state, write_locked, read_locked}
use cat_tag.Security.{AccessPolicy, Operation, SecuritySession, new_session, permission_denied}
use cat_tag.Security.Access.{has_operation, holds}

-- The fields of `SecurityConfig` that are read.
pub record DefaultSecurityConfig : Type 0 where
  pub enable_encryption : Bool
  pub key_size : ℕ
  pub session_timeout : ℕ
  pub max_failed_attempts : ℤ

pub record DefaultSecurityManager : Type 0 where
  pub config : DefaultSecurityConfig
  pub device_sessions : Map SecuritySession
  pub trusted_devices : Map Bool
  pub access_policies : Map AccessPolicy

unfoldable pub new_default_security_manager : DefaultSecurityConfig → DefaultSecurityManager
new_default_security_manager config = record {
  config = config;
  device_sessions = [];
  trusted_devices = [];
  access_policies = [];
}

abbrev pub Result? : Type 0
Result? = Option GoError

abbrev pub Method : Type 0 → Type 0
Method A = Locked DefaultSecurityManager A

-- The session of a device, which is made where there is none.
unfoldable pub session_of : ℕ → String → DefaultSecurityManager → SecuritySession
unfolding new_session
session_of now d m = elim (lookup d m.device_sessions) [ none ↦ new_session now d | some s ↦ s ]

abbrev pub put_session : String → SecuritySession → DefaultSecurityManager → DefaultSecurityManager
put_session d s m = record m { device_sessions = insert d s m.device_sessions }

abbrev refuse_unless : Bool → Result?
refuse_unless b = if b then none else some (new_bluetooth_error auth_failed)

-- The credential types by their numbers; none of an unknown type.
unfoldable pub check : Credentials → Option Result?
check c =
    if c.credential_type == 0
    then some (refuse_unless (same c.password "default_password"))
    else if c.credential_type == 1
    then some (refuse_unless (not (same c.token "") && leb 8 (len c.token)))
    else if c.credential_type == 2
    then some (refuse_unless (ltb 0 (length c.key_data)))
    else if c.credential_type == 3
    then some (refuse_unless (leb 16 (length c.key_data)))
    else none

-- The login of a device that is not trusted.
unfoldable pub log_in :
    ℕ → String → Credentials → DefaultSecurityManager → DefaultSecurityManager × Result?
unfolding session_of check
log_in now d c m =
    let s = session_of now d m in
    if at_least s.failed_attempts m.config.max_failed_attempts
    then (put_session d s m, some (new_bluetooth_error auth_failed))
    else elim (check c) [
      | none ↦ (put_session d s m, some (new_bluetooth_error not_supported))
      | some (some e) ↦ (
        put_session d (record s { failed_attempts = suc s.failed_attempts }) m,
        some (foreign "auth"),
      )
      | some none ↦ (
        put_session d
            (record s { is_authenticated = true; failed_attempts = 0; last_activity = now }) m,
        none,
      )
    ]

-- It takes the lock by itself, also where the caller holds it.
unfoldable pub generate_session_key : ℕ → String → Result Bytes → Method (Result Bytes)
unfolding session_of
generate_session_key now d random = elim random [
  | err e ↦ pure (err (foreign "session key"))
  | ok key ↦ write_locked (
      with_state λ m. (put_session d (record (session_of now d m) { session_key = key }) m, ok key))
]

-- `createSession`, which its caller holds the lock for.
unfoldable pub create_session : ℕ → String → Result Bytes → Method Result?
unfolding session_of generate_session_key
create_session now d random = do
  encrypts ← with_state λ m. (
    put_session d
        (record (session_of now d m) {
          is_authenticated = true;
          failed_attempts = 0;
          last_activity = now;
        })
        m,
    m.config.enable_encryption,
  )
  (if encrypts
      then (do
        made ← generate_session_key now d random
        pure (elim made [ ok key ↦ none | err e ↦ some (foreign "session key") ]))
      else pure none)

unfoldable pub authenticate : ℕ → String → Credentials → Result Bytes → Method Result?
unfolding create_session log_in
authenticate now d c random = write_locked (do
  trusted ← with_state λ m. (m, holds (lookup d m.trusted_devices))
  (if trusted then create_session now d random else with_state (log_in now d c)))

-- What `Authorize` does under its lock, which is the one for reading although it writes.
unfoldable pub authorize : ℕ → String → Operation → Method Result?
unfolding has_operation
authorize now d op = read_locked (
    with_state λ m. elim (lookup d m.device_sessions) [
      | none ↦ (m, some (new_bluetooth_error auth_failed))
      | some s ↦
          if not s.is_authenticated
          then (m, some (new_bluetooth_error auth_failed))
          else if ltb (s.last_activity + m.config.session_timeout) now
          then (m, some (new_bluetooth_error auth_failed))
          else if not (elim (lookup d m.access_policies) [
            | none ↦ true
            | some p ↦ has_operation op p.allowed_operations
          ])
          then (m, some (new_bluetooth_error permission_denied))
          else (put_session d (record s { last_activity = now }) m, none)
    ])

unfoldable pub add_trusted_device : String → Method (Unit {0})
add_trusted_device d =
    write_locked
      (with_state λ m. (record m { trusted_devices = insert d true m.trusted_devices }, tt))

unfoldable pub remove_trusted_device : String → Method (Unit {0})
remove_trusted_device d =
    write_locked (with_state λ m. (record m { trusted_devices = delete d m.trusted_devices }, tt))

unfoldable pub set_access_policy : String → AccessPolicy → Method (Unit {0})
set_access_policy d p =
    write_locked (with_state λ m. (record m { access_policies = insert d p m.access_policies }, tt))

module _ (x : Crypto) where
  -- The cipher for the key of an authenticated session.
  unfoldable pub session_cipher : Option SecuritySession → Result Bytes
  session_cipher none = err (new_bluetooth_error auth_failed)
  session_cipher (some s) =
      if not s.is_authenticated
      then err (new_bluetooth_error auth_failed)
      else elim (x.new_cipher s.session_key) [
        | some e ↦ err (foreign "cipher")
        | none ↦ elim (x.new_gcm s.session_key) [
          | some e ↦ err (foreign "gcm")
          | none ↦ ok s.session_key
        ]
      ]

  unfoldable pub encrypt : Result Bytes → Bytes → String → Method (Result Bytes)
  unfolding session_cipher
  encrypt random plain d = do
    enabled ← with_state λ m. (m, m.config.enable_encryption)
    (if not enabled then pure (ok plain) else (do
      session ← read_locked (with_state λ m. (m, lookup d m.device_sessions))
      pure (elim (session_cipher session) [
        | err e ↦ err e
        | ok key ↦ elim random [
          | err e ↦ err (foreign "nonce")
          | ok nonce ↦ ok (nonce ++ x.seal key nonce plain)
        ]
      ])))

  unfoldable pub decrypt : Bytes → String → Method (Result Bytes)
  unfolding session_cipher
  decrypt sealed d = do
    enabled ← with_state λ m. (m, m.config.enable_encryption)
    (if not enabled then pure (ok sealed) else (do
      session ← read_locked (with_state λ m. (m, lookup d m.device_sessions))
      pure (elim (session_cipher session) [
        | err e ↦ err e
        | ok key ↦
            if ltb (length sealed) x.nonce_size
            then err (new_bluetooth_error encryption_failed)
            else elim (x.open_sealed key (take x.nonce_size sealed) (drop x.nonce_size sealed)) [
              | err e ↦ err (foreign "open")
              | ok plain ↦ ok plain
            ]
      ])))
