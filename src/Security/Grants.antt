-- ===== src/Security/Grants.antt =====
-- Whom `Authorize` lets in.
use cat_tag.Common.{
  ℕ, ◌+◌, ◌≡◌, Bool, true, false, Option, none, some, String, arith, Map, lookup, insert, not,
  if◌then◌else◌, ltb, ◌&&◌, ◌||◌,
}
use cat_tag.Mutex.{Mutex, free, Run, returned, blocked}
use cat_tag.Security.{Manager, Operation, SecuritySession, log_security_event, Result?}
use cat_tag.Security.Access.{
  holds, has_operation, is_whitelisted, get_access_policy, is_trusted_device, validate_access,
  authorize, check_session, check_trusted, check_policy,
}

-- The device is on the whitelist, where that is on.
abbrev pub is_listed : String → Manager → Bool
is_listed d m = not m.config.enable_whitelist || holds (lookup d m.device_whitelist)

-- The device's policy has the operation; without a policy it is trusted, where that is required.
abbrev pub is_permitted : String → Operation → Manager → Bool
is_permitted d op m = elim (lookup d m.access_policies) [
  | none ↦ holds (lookup d m.trusted_devices) || not m.config.require_auth
  | some p ↦ has_operation op p.allowed_operations
]

-- The device has a session that is authenticated, where that is required, in time, and has the
-- operation among its permissions.
abbrev pub has_grant : ℕ → String → Operation → Manager → Bool
has_grant now d op m = elim (lookup d m.sessions) [
  | none ↦ false
  | some s ↦
      (s.is_authenticated || not m.config.require_auth)
      && (not (ltb (s.last_activity + m.config.session_timeout) now)
          && has_operation op s.permissions)
]

abbrev pub is_granted : ℕ → String → Operation → Manager → Bool
is_granted now d op m = is_listed d m && (is_permitted d op m && has_grant now d op m)

-- The session, where there is one, is used now.
abbrev pub touch : ℕ → String → Map SecuritySession → Map SecuritySession
touch now d sessions = elim (lookup d sessions) [
  | none ↦ sessions
  | some s ↦ insert d (record s { last_activity = now }) sessions
]

-- What a refusal or a permission is worth, and the sessions after it.
abbrev pub verdict : Run (Result? × Manager × Mutex) → Option (Bool × Map SecuritySession)
verdict blocked = none
verdict (returned (none, s, x)) = some (true, s.sessions)
verdict (returned (some e, s, x)) = some (false, s.sessions)

pub log_security_event-sessions :
    (t : _) (d : String) (v : _) (m : Manager) → (log_security_event t d v m).sessions ≡ m.sessions
unfolding log_security_event
log_security_event-sessions t d v m = ground arith

-- `Authorize` succeeds exactly if the device is listed, the policy or the list of trusted devices
-- permits the operation, and the session grants it. Then the session counts as used now; a refusal
-- leaves the sessions as they are.
pub verdict-authorize :
    (now : ℕ) (d : String) (op : Operation) (m : Manager)
    → verdict (authorize now d op (m, free))
      ≡ some (
        is_granted now d op m,
        (if is_granted now d op m then touch now d m.sessions else m.sessions),
      )
unfolding authorize validate_access is_whitelisted get_access_policy is_trusted_device check_trusted
    check_policy check_session log_security_event
verdict-authorize now d op m = ground arith
