-- ===== src/Examples/Session.antt =====
-- A session manager with one session, in and out of time.
use cat_tag.Common.{◌≡◌, refl, pos, true, false, List, [], ◌∷◌, none, some, lookup, arith}
use cat_tag.Errors.{ok, err, new_bluetooth_error_with_device, not_found, auth_failed}
use cat_tag.Pooled.{Connection}
use cat_tag.Session.{
  Manager, ClientSession, SessionConfig, SecurityManager, Credentials, created, new_session_manager,
  authenticate_session, cleanup_expired_sessions, create_session, get_session, is_expired,
  fresh_session,
}
use cat_tag.Session.Invariant.{IsValid}
use cat_tag.Session.Invariant.Calls.{
  Call, create_call, authenticate_call, encrypt_call, activity_call, heartbeat_call, cleanup_call,
  close_call, closed_call, stop_call, run, run-new_session_manager-IsValid,
}
use cat_tag.Session.Lifecycle.{
  Cleaned, cleanup_expired_sessions-Cleaned, Authenticated, verdict,
  authenticate_session-Authenticated,
}
use cat_tag.Session.Races.{late_close-drops_new}

abbrev conn : Connection
conn = record { id = "conn"; device_id = "d" }

abbrev ann : Credentials
ann = record {
  credential_type = 0;
  username = "ann";
  password = "secret";
  token = "";
  key_data = [];
}

-- Refuses everyone, and gives keys to all.
abbrev strict : SecurityManager
strict = record {
  authenticate = λ d c. some (new_bluetooth_error_with_device auth_failed d "authenticate");
  generate_session_key = λ d. none;
}

abbrev config : SessionConfig
config = record {
  session_timeout = 100;
  max_sessions = pos 2;
  require_auth = true;
  enable_encryption = true;
  heartbeat_interval = 5;
  max_idle_time = 20;
  cleanup_interval = 10;
}

abbrev history : List Call
history =
    create_call 1 conn
    ∷ authenticate_call 2 "d" ann
    ∷ encrypt_call 3 "d"
    ∷ heartbeat_call 4 "d"
    ∷ cleanup_call 60
    ∷ activity_call 61 "d"
    ∷ cleanup_call 200
    ∷ create_call 201 conn
    ∷ close_call "d"
    ∷ stop_call
    ∷ []

run-new_session_manager-IsValid_example : IsValid (run (new_session_manager config none) history)
run-new_session_manager-IsValid_example = run-new_session_manager-IsValid config none history

abbrev sess : ClientSession
sess = record {
  id = 1;
  device_id = "d";
  connection = conn;
  status = created;
  created_at = 1;
  last_activity = 1;
  last_heartbeat = none;
  is_authenticated = false;
  is_encrypted = false;
}

abbrev one : Manager
one = record {
  sessions = ("d", sess) ∷ [];
  security_manager = some strict;
  config = config;
  closed_connections = [];
  retired = [];
}

one-IsValid : IsValid one
unfolding lookup
one-IsValid = ground arith

found : lookup "d" one.sessions ≡ some sess
unfolding lookup
found = refl

authenticate_session-Authenticated_example :
    let r = authenticate_session 9 one "d" ann in
    Authenticated 9 "d" sess (verdict one "d" ann) r.0 r.1
authenticate_session-Authenticated_example =
    authenticate_session-Authenticated 9 one "d" sess ann one-IsValid found

cleanup_expired_sessions-Cleaned_example :
    Cleaned 150 config
      (lookup "d" one.sessions)
      (lookup "d" (cleanup_expired_sessions 150 one).sessions)
cleanup_expired_sessions-Cleaned_example = cleanup_expired_sessions-Cleaned 150 one "d" one-IsValid

live : is_expired 60 config sess ≡ false
unfolding is_expired
live = refl

abbrev empty : Manager
empty = new_session_manager config none

accepts : (create_session 1 empty conn).1 ≡ ok sess
unfolding create_session new_session_manager fresh_session lookup
accepts = refl

late_close-drops_new_example :
    let p = run empty (create_call 1 conn ∷ []) in
    let q = run empty (create_call 1 conn ∷ closed_call sess ∷ []) in
    (get_session p "d" ≡ ok sess)
    × (get_session q "d" ≡ err (new_bluetooth_error_with_device not_found "d" "get_session"))
    × (q.closed_connections ≡ p.closed_connections)
late_close-drops_new_example = late_close-drops_new 1 empty sess sess conn refl accepts
