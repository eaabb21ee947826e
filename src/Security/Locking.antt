-- ===== src/Security/Locking.antt =====
-- The calls of a security manager, and which of them return.
use cat_tag.Common.{ℕ, ℤ, ◌≡◌, Bool, true, false, Option, none, some, String, arith, if◌then◌else◌}
use cat_tag.Errors.{Result}
use cat_tag.Protocol.Bytes.{Bytes}
use cat_tag.Session.{Credentials}
use cat_tag.Encryption.{Crypto}
use cat_tag.Mutex.{Mutex, free, Run, returned, blocked}
use cat_tag.Security.{Manager, AccessPolicy, Operation}
use cat_tag.Security.Access.{
  is_whitelisted, get_access_policy, is_trusted_device, get_whitelist, get_trusted_devices,
  add_to_whitelist, remove_from_whitelist, set_access_policy, add_trusted_device,
  remove_trusted_device, validate_access, authorize, revoke_session, get_active_session,
  cleanup_expired_sessions, enable_security_feature, set_session_timeout, set_max_failed_attempts,
}
use cat_tag.Security.Keys.{
  generate_session_key, rotate_session_key, get_session_key, Json, encrypt, decrypt,
}
use cat_tag.Security.Login.{authenticate}

pub data Call : Type 0 where
  authenticate_call : ℕ → String → Credentials → Call
  authorize_call : ℕ → String → Operation → Call
  encrypt_call : ℕ → Result Bytes → Bytes → String → Call
  decrypt_call : ℕ → Bytes → String → Call
  generate_key_call rotate_key_call : ℕ → String → Result Bytes → Result Bytes → Call
  session_key_call : String → Call
  add_whitelist_call remove_whitelist_call is_whitelisted_call : String → Call
  whitelist_call trusted_devices_call : Call
  set_policy_call : String → AccessPolicy → Call
  policy_call add_trusted_call remove_trusted_call is_trusted_call : String → Call
  validate_call : String → Operation → Call
  revoke_call : String → Call
  active_call : ℕ → String → Call
  cleanup_call : ℕ → Call
  feature_call : String → Bool → Call
  timeout_call : ℕ → Call
  attempts_call : ℤ → Call

-- What a call does to the manager and its mutex.
abbrev pub effect : {A : Type 0} → Run (A × Manager × Mutex) → Run (Manager × Mutex)
effect blocked = blocked
effect (returned (a, s, w)) = returned (s, w)

abbrev pub logs_in : Call → Bool
logs_in (authenticate_call now d c) = true
logs_in _ = false

-- What a call leaves of the mutex, if it returns.
abbrev pub mutex_after : Run (Manager × Mutex) → Option Mutex
mutex_after blocked = none
mutex_after (returned (s, x)) = some x

module _ (x : Crypto) (j : Json) where
  unfoldable pub perform : Call → Manager × Mutex → Run (Manager × Mutex)
  perform (authenticate_call now d c) w = effect (authenticate x now d c w)
  perform (authorize_call now d op) w = effect (authorize now d op w)
  perform (encrypt_call now random plain d) w = effect (encrypt x j now random plain d w)
  perform (decrypt_call now bytes d) w = effect (decrypt x j now bytes d w)
  perform (generate_key_call now d key iv) w = effect (generate_session_key now d key iv w)
  perform (rotate_key_call now d key iv) w = effect (rotate_session_key now d key iv w)
  perform (session_key_call d) w = effect (get_session_key d w)
  perform (add_whitelist_call d) w = effect (add_to_whitelist d w)
  perform (remove_whitelist_call d) w = effect (remove_from_whitelist d w)
  perform (is_whitelisted_call d) w = effect (is_whitelisted d w)
  perform whitelist_call w = effect (get_whitelist w)
  perform trusted_devices_call w = effect (get_trusted_devices w)
  perform (set_policy_call d p) w = effect (set_access_policy d p w)
  perform (policy_call d) w = effect (get_access_policy d w)
  perform (add_trusted_call d) w = effect (add_trusted_device d w)
  perform (remove_trusted_call d) w = effect (remove_trusted_device d w)
  perform (is_trusted_call d) w = effect (is_trusted_device d w)
  perform (validate_call d op) w = effect (validate_access d op w)
  perform (revoke_call d) w = effect (revoke_session d w)
  perform (active_call now d) w = effect (get_active_session now d w)
  perform (cleanup_call now) w = effect (cleanup_expired_sessions now w)
  perform (feature_call feature enabled) w = effect (enable_security_feature feature enabled w)
  perform (timeout_call timeout) w = effect (set_session_timeout timeout w)
  perform (attempts_call attempts) w = effect (set_max_failed_attempts attempts w)

  -- With the lock free, every call returns and leaves the lock free again, except `Authenticate`,
  -- which never returns, whatever the state, the device and the credentials.
  pub mutex_after-perform :
      (c : Call) (s : Manager)
      → mutex_after (perform c (s, free)) ≡ (if logs_in c then none else some free)
  unfolding perform authenticate is_whitelisted authorize validate_access get_access_policy
      is_trusted_device encrypt decrypt generate_session_key rotate_session_key get_session_key
      add_to_whitelist remove_from_whitelist get_whitelist get_trusted_devices set_access_policy
      add_trusted_device remove_trusted_device revoke_session get_active_session
      cleanup_expired_sessions enable_security_feature set_session_timeout set_max_failed_attempts
  mutex_after-perform c s = ground arith
