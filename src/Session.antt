-- ===== src/Session.antt =====
-- `SessionManager` of pkg/bluetooth/session_manager.go. A method is one step; times are nanoseconds
-- and `now.Sub(t) > d` is `t + d < now`. A session's identifier is the clock reading that the code
-- prints into it. `closed` records the connections whose `Close` was called, and `retired` the
-- sessions that left the map, as the code left them; in both the latest stands first.
pub mod Invariant
pub mod Lifecycle
pub mod Races
use cat_tag.Common.{
  ℕ, zero, suc, ◌+◌, ◌*◌, ◌≡◌, ℤ, pos, at_least, Bool, true, false, not, ◌&&◌, ◌||◌, List, [], ◌∷◌,
  Option, none, some, if◌then◌else◌, ltb, String, length, Map, lookup, insert, delete,
}
use cat_tag.Errors.{
  GoError, Result, ok, err, new_bluetooth_error_with_device, wrap_error, resource_busy,
  already_exists, not_found, not_supported, auth_failed, encryption_failed,
}
use cat_tag.Pooled.{Connection}

pub record SessionConfig : Type 0 where
  pub session_timeout : ℕ
  pub max_sessions : ℤ
  pub require_auth : Bool
  pub enable_encryption : Bool
  pub heartbeat_interval : ℕ
  pub max_idle_time : ℕ
  pub cleanup_interval : ℕ

abbrev pub second : ℕ
second = 1000000000

unfoldable pub default_session_config : SessionConfig
default_session_config = record {
  session_timeout = 1800 * second;
  max_sessions = pos 10;
  require_auth = true;
  enable_encryption = true;
  heartbeat_interval = 5 * second;
  max_idle_time = 600 * second;
  cleanup_interval = 60 * second;
}

pub data SessionStatus : Type 0 where
  created authenticating authenticated active idle expired closed : SessionStatus

-- The zero time of `last_heartbeat` is none.
pub record ClientSession : Type 0 where
  pub id : ℕ
  pub device_id : String
  pub connection : Connection
  pub status : SessionStatus
  pub created_at : ℕ
  pub last_activity : ℕ
  pub last_heartbeat : Option ℕ
  pub is_authenticated : Bool
  pub is_encrypted : Bool

-- What the caller passes on to the security manager.
pub record Credentials : Type 0 where
  pub credential_type : ℕ
  pub username : String
  pub password : String
  pub token : String
  pub key_data : List ℕ

-- What the security manager answers during a call.
pub record SecurityManager : Type 0 where
  pub authenticate : String → Credentials → Option GoError
  pub generate_session_key : String → Option GoError

pub record Manager : Type 0 where
  pub sessions : Map ClientSession
  pub security_manager : Option SecurityManager
  pub config : SessionConfig
  pub closed_connections : List Connection
  pub retired : List ClientSession

unfoldable pub new_session_manager : SessionConfig → Option SecurityManager → Manager
new_session_manager config security = record {
  sessions = [];
  security_manager = security;
  config = config;
  closed_connections = [];
  retired = [];
}

abbrev pub is_over : SessionStatus → Bool
is_over expired = true
is_over closed = true
is_over _ = false

abbrev pub is_closed : SessionStatus → Bool
is_closed closed = true
is_closed _ = false

-- `closeSessionInternal`: a session that is closed already stays so, and its connection is left.
unfoldable pub close_session_internal : Manager → ClientSession → Manager
close_session_internal m s = record m {
  retired = record s { status = closed } ∷ m.retired;
  closed_connections =
      if is_closed s.status then m.closed_connections else s.connection ∷ m.closed_connections;
}

abbrev pub put : Manager → String → ClientSession → Manager
put m device s = record m { sessions = insert device s m.sessions }

abbrev pub remove : Manager → String → Manager
remove m device = record m { sessions = delete device m.sessions }

unfoldable pub fresh_session : ℕ → Connection → ClientSession
fresh_session now conn = record {
  id = now;
  device_id = conn.device_id;
  connection = conn;
  status = created;
  created_at = now;
  last_activity = now;
  last_heartbeat = none;
  is_authenticated = false;
  is_encrypted = false;
}

unfoldable pub create_session : ℕ → Manager → Connection → Manager × Result ClientSession
unfolding fresh_session
create_session now m conn =
    let s = fresh_session now conn in
    if at_least (length m.sessions) m.config.max_sessions
    then (m, err (new_bluetooth_error_with_device resource_busy conn.device_id "create_session"))
    else elim (lookup conn.device_id m.sessions) [
      | none ↦ (put m conn.device_id s, ok s)
      | some old ↦
          if is_over old.status
          then (put (close_session_internal m old) conn.device_id s, ok s)
          else (
            m,
            err (new_bluetooth_error_with_device already_exists conn.device_id "create_session"),
          )
    ]

unfoldable pub get_session : Manager → String → Result ClientSession
get_session m device = elim (lookup device m.sessions) [
  | none ↦ err (new_bluetooth_error_with_device not_found device "get_session")
  | some s ↦ ok s
]

unfoldable pub close_session : Manager → String → Manager × Option GoError
close_session m device = elim (lookup device m.sessions) [
  | none ↦ (m, some (new_bluetooth_error_with_device not_found device "close_session"))
  | some s ↦ (remove (close_session_internal m s) device, none)
]

unfoldable pub get_session_count : Manager → ℕ
get_session_count m = length m.sessions

-- A method that looks the session up by `GetSession` and then works on it.
abbrev pub with_session :
    Manager → String → (ClientSession → Manager × Option GoError) → Manager × Option GoError
with_session m device f = elim (lookup device m.sessions) [
  | none ↦ (m, some (new_bluetooth_error_with_device not_found device "get_session"))
  | some s ↦ f s
]

abbrev pub ask {ℓ} : {A : Type ℓ} → Option A → (A → Option GoError) → Option GoError
ask none f = none
ask (some a) f = f a

unfoldable pub authenticate :
    ℕ
    → String
    → Credentials
    → ClientSession
    → Option SecurityManager
    → ClientSession × Option GoError
authenticate now device credentials s security =
    elim (ask security (λ k. k.authenticate device credentials)) [
      | some e ↦
          (record s { status = created }, some (wrap_error e auth_failed device "authenticate"))
      | none ↦
          (record s { is_authenticated = true; status = authenticated; last_activity = now }, none)
    ]

unfoldable pub authenticate_session : ℕ → Manager → String → Credentials → Manager × Option GoError
unfolding authenticate
authenticate_session now m device credentials = with_session m device λ s.
    if is_over s.status
    then (m, some (new_bluetooth_error_with_device not_supported device "authenticate"))
    else (let (t, e) = authenticate now device credentials s m.security_manager in
        (put m device t, e))

-- The end of `EnableEncryption`, from what the key's generation returned.
abbrev pub encrypted :
    ℕ → Manager → String → ClientSession → Option GoError → Manager × Option GoError
encrypted now m device s (some e) =
    (m, some (wrap_error e encryption_failed device "enable_encryption"))
encrypted now m device s none =
    (put m device (record s { is_encrypted = true; last_activity = now }), none)

unfoldable pub enable_encryption : ℕ → Manager → String → Manager × Option GoError
enable_encryption now m device = with_session m device λ s.
    if not s.is_authenticated
    then (m, some (new_bluetooth_error_with_device auth_failed device "enable_encryption"))
    else encrypted now m device s (ask m.security_manager (λ k. k.generate_session_key device))

abbrev pub wake : SessionStatus → SessionStatus
wake idle = active
wake s = s

unfoldable pub update_activity : ℕ → Manager → String → Manager × Option GoError
update_activity now m device =
    with_session m device
      λ s. (put m device (record s { last_activity = now; status = wake s.status }), none)

unfoldable pub update_heartbeat : ℕ → Manager → String → Manager × Option GoError
update_heartbeat now m device =
    with_session m device
      λ s. (put m device (record s { last_heartbeat = some now; last_activity = now }), none)

-- The session's goroutine found its connection closed: `session` is the one that it was started for.
unfoldable pub handle_session_closed : Manager → ClientSession → Manager
handle_session_closed m session = record m {
  sessions = delete session.device_id m.sessions;
  retired = record session { status = closed } ∷ m.retired;
}

-- The first loop of `cleanupExpiredSessions` on one session: whether it has expired, and its status.
unfoldable pub is_expired : ℕ → SessionConfig → ClientSession → Bool
is_expired now c s =
    ltb (s.created_at + c.session_timeout) now
    || ltb (s.last_activity + c.max_idle_time) now && ltb (s.last_activity + c.session_timeout) now

unfoldable pub mark_idle : ℕ → SessionConfig → ClientSession → ClientSession
mark_idle now c s =
    if ltb (s.last_activity + c.max_idle_time) now then record s { status = idle } else s

unfoldable pub survivors : ℕ → SessionConfig → Map ClientSession → Map ClientSession
survivors now c [] = []
survivors now c ((device, s) ∷ m) =
    let rest = survivors now c m in
    if is_expired now c s then rest else (device, mark_idle now c s) ∷ rest

unfoldable pub expired_sessions : ℕ → SessionConfig → Map ClientSession → List ClientSession
expired_sessions now c [] = []
expired_sessions now c ((device, s) ∷ m) =
    let rest = expired_sessions now c m in
    if is_expired now c s then mark_idle now c s ∷ rest else rest

-- The second loop: the status becomes expired, and then `closeSessionInternal` is called.
unfoldable pub close_expired : Manager → List ClientSession → Manager
unfolding close_session_internal
close_expired m [] = m
close_expired m (s ∷ ss) =
    close_expired (close_session_internal m (record s { status = expired })) ss

unfoldable pub cleanup_expired_sessions : ℕ → Manager → Manager
cleanup_expired_sessions now m =
    close_expired (record m { sessions = survivors now m.config m.sessions })
      (expired_sessions now m.config m.sessions)

-- The devices for which `checkHeartbeats` calls `handleHeartbeatTimeout`, which does nothing.
unfoldable pub heartbeat_timeouts : ℕ → SessionConfig → Map ClientSession → List String
heartbeat_timeouts now c [] = []
heartbeat_timeouts now c ((device, s) ∷ m) =
    let rest = heartbeat_timeouts now c m in
    elim s.last_heartbeat [
      | none ↦ rest
      | some t ↦ if ltb (t + c.heartbeat_interval * 2) now then s.device_id ∷ rest else rest
    ]

unfoldable pub close_sessions : Manager → Map ClientSession → Manager
unfolding close_session_internal
close_sessions m [] = m
close_sessions m ((device, s) ∷ rest) = close_sessions (close_session_internal m s) rest

unfoldable pub stop : Manager → Manager
unfolding close_sessions
stop m = record (close_sessions m m.sessions) { sessions = [] }
