-- ===== src/Security/Login.antt =====
-- `Authenticate` of internal/security/manager.go.
use cat_tag.Common.{
  ℕ, ◌+◌, ◌==◌, at_least, Bool, true, false, not, List, [], ◌∷◌, none, some, if◌then◌else◌, String,
  length, same,
}
use cat_tag.Errors.{new_bluetooth_error, not_supported, auth_failed}
use cat_tag.Protocol.Bytes.{Bytes}
use cat_tag.Session.{Credentials}
use cat_tag.Encryption.{Crypto}
use cat_tag.Mutex.{◌>>=◌, with_state, write_locked}
use cat_tag.Security.{
  permission_denied, Operation, SecuritySession, login, failed, auth_success, auth_failure, info,
  error, Manager, Result?, Method, log_security_event, trigger_auth_callback, deny,
  get_or_create_session, put_session,
}
use cat_tag.Security.Access.{is_whitelisted}

module _ (x : Crypto) where
  unfoldable pub hash_password : String → String
  hash_password password = x.to_hex (x.sha256 (x.text password))

  -- `getStoredPasswordHash` is the empty text.
  unfoldable pub authenticate_with_password : String → Result?
  unfolding hash_password
  authenticate_with_password password =
      if same password ""
      then some (new_bluetooth_error auth_failed)
      else if not (same "" (hash_password password))
      then some (new_bluetooth_error auth_failed)
      else none

  unfoldable pub authenticate_with_token : String → Result?
  authenticate_with_token token =
      if same token "" then some (new_bluetooth_error auth_failed) else none

  unfoldable pub authenticate_with_key : Bytes → Result?
  authenticate_with_key key_data =
      if length key_data == 0 then some (new_bluetooth_error auth_failed) else none

  -- The credential types by their numbers: password 0, token 1, certificate 2, key 3.
  unfoldable pub check_credentials : Credentials → Result?
  unfolding authenticate_with_password authenticate_with_token authenticate_with_key
  check_credentials c =
      if c.credential_type == 0
      then authenticate_with_password c.password
      else if c.credential_type == 1
      then authenticate_with_token c.token
      else if c.credential_type == 3
      then authenticate_with_key c.key_data
      else some (new_bluetooth_error not_supported)

  -- Read and write, where there are no permissions yet.
  abbrev pub default_permissions : List Operation → List Operation
  default_permissions [] = 0 ∷ 1 ∷ []
  default_permissions (p ∷ ps) = p ∷ ps

  -- The end of `Authenticate`, from what the credentials gave.
  unfoldable pub conclude : ℕ → String → SecuritySession → Result? → Manager → Manager × Result?
  conclude now device s (some e) m = (
    trigger_auth_callback failed device false (
        log_security_event auth_failure device error
          (put_session device (record s { failed_attempts = s.failed_attempts + 1 }) m)),
    some e,
  )
  conclude now device s none m = (
    trigger_auth_callback login device true (
        log_security_event auth_success device info (
          put_session device
            (record s {
              is_authenticated = true;
              last_activity = now;
              failed_attempts = 0;
              permissions = default_permissions s.permissions;
            })
            m)),
    none,
  )

  -- What `Authenticate` does once it knows whether the device is on the whitelist.
  unfoldable pub authenticate_allowed :
      ℕ → String → Credentials → Bool → Manager → Manager × Result?
  unfolding check_credentials conclude get_or_create_session
  authenticate_allowed now device c allowed m =
      let s = get_or_create_session now device m in
      if not allowed
      then deny auth_failure error permission_denied device "authenticate" m
      else if not m.config.enable_auth
      then (
        log_security_event auth_success device info
            (put_session device (record s { is_authenticated = true; last_activity = now }) m),
        none,
      )
      else if at_least s.failed_attempts m.config.max_failed_attempts
      then deny auth_failure error auth_failed device "authenticate" (put_session device s m)
      else conclude now device s (check_credentials c) m

  -- `IsWhitelisted` takes the lock that `Authenticate` holds.
  unfoldable pub authenticate : ℕ → String → Credentials → Method Result?
  unfolding authenticate_allowed is_whitelisted
  authenticate now device c =
      write_locked
        (do allowed ← is_whitelisted device; with_state (authenticate_allowed now device c allowed))
