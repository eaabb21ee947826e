-- ===== src/Security.antt =====
-- `Manager` of internal/security/manager.go, with its lock (Mutex): a method is a computation on the
-- state under the mutex, which takes and releases the lock where the code does. Times are
-- nanoseconds. `events` is the channel of security events, whose capacity is 100, the latest first;
-- `notices` are the calls of the authentication callbacks, the latest first. The key store is
-- `MemoryKeyStore`, whose own lock no method holds across a call, and so is the lock of the
-- encryption manager. encoding/json is the parameter `Json`, the hash that of `Crypto`.
pub mod Access
pub mod Keys
pub mod Login
pub mod Locking
pub mod Grants
pub mod History
use cat_tag.Common.{
  ℕ, ℤ, Bool, false, ◌&&◌, List, [], ◌∷◌, Option, none, some, if◌then◌else◌, ltb, String, length,
  Map, lookup, insert,
}
use cat_tag.Errors.{GoError, new_bluetooth_error_with_device}
use cat_tag.Protocol.Bytes.{Bytes}
use cat_tag.Encryption
use cat_tag.Encryption.{EncryptionManager, new_encryption_manager}
use cat_tag.Mutex.{Locked}

-- ErrCodePermissionDenied
abbrev pub permission_denied : ℕ
permission_denied = 1005

-- The constants of `Operation`, by their numbers: read 0, write 1, connect 2, disconnect 3, scan 4,
-- pair 5.
abbrev pub Operation : Type 0
Operation = ℕ

pub record AccessPolicy : Type 0 where
  pub device_whitelist : List String
  pub allowed_operations : List Operation
  pub require_encryption : Bool
  pub session_timeout : ℕ
  pub max_retries : ℤ

pub record SecuritySession : Type 0 where
  pub device_id : String
  pub session_key : Bytes
  pub created_at : ℕ
  pub last_activity : ℕ
  pub is_authenticated : Bool
  pub permissions : List Operation
  pub failed_attempts : ℕ

pub record SecurityConfig : Type 0 where
  pub enable_auth : Bool
  pub enable_encryption : Bool
  pub enable_whitelist : Bool
  pub key_size : ℕ
  pub algorithm : String
  pub session_timeout : ℕ
  pub max_failed_attempts : ℤ
  pub require_auth : Bool
  pub log_security_events : Bool

pub data AuthEventType : Type 0 where
  login logout failed blocked_device : AuthEventType

pub record AuthEvent : Type 0 where
  pub type_of : AuthEventType
  pub device_id : String
  pub success : Bool

pub data SecurityEventType : Type 0 where
  auth_success auth_failure unauthorized encryption_failure suspicious_activity device_blocked
        error_event :
      SecurityEventType

pub data EventSeverity : Type 0 where
  info warning error critical : EventSeverity

pub record SecurityEvent : Type 0 where
  pub type_of : SecurityEventType
  pub device_id : String
  pub severity : EventSeverity

pub record Manager : Type 0 where
  pub sessions : Map SecuritySession
  pub trusted_devices : Map Bool
  pub access_policies : Map AccessPolicy
  pub device_whitelist : Map Bool
  pub config : SecurityConfig
  pub key_store : Map Bytes
  pub encryption : EncryptionManager
  pub events : List SecurityEvent
  pub notices : List AuthEvent

unfoldable pub new_manager : SecurityConfig → Manager
unfolding new_encryption_manager
new_manager config = record {
  sessions = [];
  trusted_devices = [];
  access_policies = [];
  device_whitelist = [];
  config = config;
  key_store = [];
  encryption = new_encryption_manager config.algorithm config.key_size;
  events = [];
  notices = [];
}

abbrev pub Result? : Type 0
Result? = Option GoError

-- A method under the manager's mutex.
abbrev pub Method : Type 0 → Type 0
Method A = Locked Manager A

-- A full channel drops the event.
unfoldable pub log_security_event : SecurityEventType → String → EventSeverity → Manager → Manager
log_security_event t device severity m =
    if m.config.log_security_events && ltb (length m.events) 100
    then record m {
      events = record { type_of = t; device_id = device; severity = severity } ∷ m.events;
    }
    else m

unfoldable pub trigger_auth_callback : AuthEventType → String → Bool → Manager → Manager
trigger_auth_callback t device success m = record m {
  notices = record { type_of = t; device_id = device; success = success } ∷ m.notices;
}

abbrev pub denial : ℕ → String → String → Result?
denial code device operation = some (new_bluetooth_error_with_device code device operation)

-- A refusal that is logged.
abbrev pub deny :
    SecurityEventType → EventSeverity → ℕ → String → String → Manager → Manager × Result?
deny t severity code device operation m =
    (log_security_event t device severity m, denial code device operation)

unfoldable pub new_session : ℕ → String → SecuritySession
new_session now device = record {
  device_id = device;
  session_key = [];
  created_at = now;
  last_activity = now;
  is_authenticated = false;
  permissions = [];
  failed_attempts = 0;
}

unfoldable pub get_or_create_session : ℕ → String → Manager → SecuritySession
unfolding new_session
get_or_create_session now device m = elim (lookup device m.sessions) [
  | none ↦ new_session now device
  | some s ↦ s
]

abbrev pub put_session : String → SecuritySession → Manager → Manager
put_session device s m = record m { sessions = insert device s m.sessions }
