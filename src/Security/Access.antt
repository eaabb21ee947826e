-- ===== src/Security/Access.antt =====
-- The whitelist, the trusted devices, the policies, and what `Authorize` makes of them with the
-- sessions, in internal/security/manager.go, and the calls that change the configuration.
use cat_tag.Common.{
  ℕ, ◌+◌, ◌==◌, ℤ, Bool, true, false, not, ◌&&◌, ◌||◌, List, [], ◌∷◌, Option, none, some,
  if◌then◌else◌, ltb, String, keys, Map, lookup, insert, delete, same,
}
use cat_tag.Errors.{
  Result, ok, err, new_bluetooth_error, new_bluetooth_error_with_device, not_found, not_supported,
  auth_failed,
}
use cat_tag.Mutex.{pure, ◌>>=◌, with_state, write_locked, read_locked}
use cat_tag.Security.{
  permission_denied, Operation, AccessPolicy, SecuritySession, SecurityConfig, logout, auth_success,
  unauthorized, device_blocked, info, warning, error, Manager, Result?, Method, log_security_event,
  trigger_auth_callback, denial, deny, put_session,
}

-- `m[key]` of a `map[string]bool`
abbrev pub holds : Option Bool → Bool
holds none = false
holds (some b) = b

unfoldable pub is_whitelisted : String → Method Bool
is_whitelisted device = read_locked (
    with_state λ m.
      (m, (if m.config.enable_whitelist then holds (lookup device m.device_whitelist) else true)))

unfoldable pub get_access_policy : String → Method (Result AccessPolicy)
get_access_policy device = read_locked (
    with_state λ m. (
      m,
      elim (lookup device m.access_policies) [
        | none ↦ err (new_bluetooth_error_with_device not_found device "get_access_policy")
        | some p ↦ ok p
      ],
    ))

unfoldable pub is_trusted_device : String → Method Bool
is_trusted_device device =
    read_locked (with_state λ m. (m, holds (lookup device m.trusted_devices)))

unfoldable pub get_whitelist : Method (List String)
get_whitelist = read_locked (with_state λ m. (m, keys m.device_whitelist))

unfoldable pub get_trusted_devices : Method (List String)
get_trusted_devices = read_locked (with_state λ m. (m, keys m.trusted_devices))

unfoldable pub add_to_whitelist : String → Method Result?
add_to_whitelist device = write_locked (
    with_state λ m. (
      log_security_event auth_success device info
          (record m { device_whitelist = insert device true m.device_whitelist }),
      none,
    ))

unfoldable pub remove_from_whitelist : String → Method Result?
remove_from_whitelist device = write_locked (
    with_state λ m. (
      log_security_event device_blocked device warning
          (record m { device_whitelist = delete device m.device_whitelist }),
      none,
    ))

unfoldable pub set_access_policy : String → AccessPolicy → Method Result?
set_access_policy device policy = write_locked (
    with_state λ m. (
      log_security_event auth_success device info
          (record m { access_policies = insert device policy m.access_policies }),
      none,
    ))

unfoldable pub add_trusted_device : String → Method Result?
add_trusted_device device = write_locked (
    with_state λ m. (
      log_security_event auth_success device info
          (record m { trusted_devices = insert device true m.trusted_devices }),
      none,
    ))

unfoldable pub remove_trusted_device : String → Method Result?
remove_trusted_device device = write_locked (
    with_state λ m. (
      log_security_event device_blocked device warning
          (record m { trusted_devices = delete device m.trusted_devices }),
      none,
    ))

unfoldable pub has_operation : Operation → List Operation → Bool
has_operation op [] = false
has_operation op (o ∷ os) = o == op || has_operation op os

-- The parts of `ValidateAccess` after the whitelist, the policy and the list of trusted devices.
unfoldable pub check_trusted : String → Bool → Manager → Manager × Result?
check_trusted device trusted m =
    if not trusted && m.config.require_auth
    then deny unauthorized error permission_denied device "validate_access" m
    else (m, none)

unfoldable pub check_policy : String → Operation → AccessPolicy → Manager → Manager × Result?
unfolding has_operation
check_policy device op p m =
    if has_operation op p.allowed_operations
    then (m, none)
    else deny unauthorized error permission_denied device "validate_access" m

unfoldable pub validate_access : String → Operation → Method Result?
unfolding is_whitelisted get_access_policy is_trusted_device check_trusted check_policy
validate_access device op = do
  allowed ← is_whitelisted device
  (if not allowed
      then with_state (deny unauthorized error permission_denied device "validate_access")
      else (do
        policy ← get_access_policy device
        elim policy [
          | err _ ↦ (do
            trusted ← is_trusted_device device
            with_state (check_trusted device trusted))
          | ok p ↦ with_state (check_policy device op p)
        ]))

-- The rest of `Authorize`, under the lock.
unfoldable pub check_session : ℕ → String → Operation → Manager → Manager × Result?
unfolding has_operation
check_session now device op m = elim (lookup device m.sessions) [
  | none ↦ deny unauthorized error auth_failed device "authorize" m
  | some s ↦
      if not s.is_authenticated && m.config.require_auth
      then deny unauthorized error auth_failed device "authorize" m
      else if ltb (s.last_activity + m.config.session_timeout) now
      then deny unauthorized warning auth_failed device "authorize" m
      else if has_operation op s.permissions
      then (put_session device (record s { last_activity = now }) m, none)
      else deny unauthorized error permission_denied device "authorize" m
]

unfoldable pub authorize : ℕ → String → Operation → Method Result?
unfolding validate_access check_session
authorize now device op = do
  refused ← validate_access device op
  elim refused [
    | some e ↦ pure (some e)
    | none ↦ write_locked (with_state (check_session now device op))
  ]

unfoldable pub revoke_session : String → Method Result?
revoke_session device = write_locked (
    with_state λ m. elim (lookup device m.sessions) [
      | none ↦ (m, denial not_found device "revoke_session")
      | some s ↦ (
        trigger_auth_callback logout device true (
            log_security_event auth_success device info (record m {
              key_store = delete device m.key_store;
              sessions = delete device m.sessions;
            })),
        none,
      )
    ])

unfoldable pub get_active_session : ℕ → String → Method (Result SecuritySession)
get_active_session now device = read_locked (
    with_state λ m. (
      m,
      elim (lookup device m.sessions) [
        | none ↦ err (new_bluetooth_error_with_device not_found device "get_active_session")
        | some s ↦
            if ltb (s.last_activity + m.config.session_timeout) now
            then err (new_bluetooth_error_with_device auth_failed device "get_active_session")
            else ok s
      ],
    ))

unfoldable pub expire_sessions : ℕ → Map SecuritySession → Manager → Manager
expire_sessions now [] m = m
expire_sessions now ((device, s) ∷ rest) m =
    let gone =
      log_security_event auth_success device info
        (record m { sessions = delete device m.sessions; key_store = delete device m.key_store }) in
    expire_sessions now rest
      (if ltb (s.last_activity + m.config.session_timeout) now then gone else m)

unfoldable pub cleanup_expired_sessions : ℕ → Method (Unit {0})
unfolding expire_sessions
cleanup_expired_sessions now = write_locked (with_state λ m. (expire_sessions now m.sessions m, tt))

-- The four features by name; any other is refused.
unfoldable pub set_feature : String → Bool → SecurityConfig → Option SecurityConfig
set_feature feature enabled c =
    if same feature "auth"
    then some (record c { enable_auth = enabled })
    else if same feature "encryption"
    then some (record c { enable_encryption = enabled })
    else if same feature "whitelist"
    then some (record c { enable_whitelist = enabled })
    else if same feature "security_events"
    then some (record c { log_security_events = enabled })
    else none

unfoldable pub enable_security_feature : String → Bool → Method Result?
unfolding set_feature
enable_security_feature feature enabled = write_locked (
    with_state λ m. elim (set_feature feature enabled m.config) [
      | none ↦ (m, some (new_bluetooth_error not_supported))
      | some c ↦ (log_security_event auth_success "" info (record m { config = c }), none)
    ])

unfoldable pub set_session_timeout : ℕ → Method (Unit {0})
set_session_timeout timeout = write_locked (
    with_state λ m. (
      log_security_event auth_success "" info
          (record m { config = record (m.config) { session_timeout = timeout } }),
      tt,
    ))

unfoldable pub set_max_failed_attempts : ℤ → Method (Unit {0})
set_max_failed_attempts attempts = write_locked (
    with_state λ m. (
      log_security_event auth_success "" info
          (record m { config = record (m.config) { max_failed_attempts = attempts } }),
      tt,
    ))
