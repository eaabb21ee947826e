-- ===== src/Examples/Security.antt =====
-- A security manager without and with requirements.
use cat_tag.Common.{◌≡◌, refl, pos, true, false, [], ◌∷◌, none, some, lookup, insert}
use cat_tag.Errors.{ok, err, foreign}
use cat_tag.Session.{Credentials}
use cat_tag.Mutex.{free}
use cat_tag.Security.{Manager, SecurityConfig, SecuritySession, new_manager, log_security_event}
use cat_tag.Security.Access.{add_trusted_device, authorize, has_operation}
use cat_tag.Security.Keys.{Json}
use cat_tag.Security.Locking.{
  authenticate_call, add_trusted_call, perform, mutex_after, mutex_after-perform,
}
use cat_tag.Security.Grants.{verdict, verdict-authorize}
use cat_tag.Security.History.{run, run-verdict}
use cat_tag.DefaultSecurity.{DefaultSecurityManager, authenticate}
use cat_tag.DefaultSecurity.Lockout.{
  mutex_left, mutex_left-authenticate, AllRefused, attempts-AllRefused,
}
use cat_tag.Examples.Encryption.{plain_crypto}

abbrev no_json : Json
no_json = record { marshal = λ c. ok []; unmarshal = λ bytes. err (foreign "eof") }

abbrev strict : SecurityConfig
strict = record {
  enable_auth = true;
  enable_encryption = true;
  enable_whitelist = false;
  key_size = 32;
  algorithm = "AES-256-GCM";
  session_timeout = 100;
  max_failed_attempts = pos 3;
  require_auth = true;
  log_security_events = false;
}

abbrev ann : Credentials
ann = record {
  credential_type = 1;
  username = "ann";
  password = "";
  token = "token";
  key_data = [];
}

abbrev trusting : Manager
trusting = record (new_manager strict) { trusted_devices = ("d", true) ∷ [] }

abbrev ready : SecuritySession
ready = record {
  device_id = "d";
  session_key = [];
  created_at = 0;
  last_activity = 10;
  is_authenticated = true;
  permissions = 0 ∷ 1 ∷ [];
  failed_attempts = 0;
}

-- `Authenticate` does not return on a new manager.
mutex_after-perform_example :
    mutex_after
      (perform plain_crypto no_json (authenticate_call 0 "d" ann) (new_manager strict, free))
    ≡ none
mutex_after-perform_example =
    mutex_after-perform plain_crypto no_json (authenticate_call 0 "d" ann) (new_manager strict)

run-verdict_example : verdict (authorize 5 "d" 0 (trusting, free)) ≡ some (false, [])
unfolding run new_manager perform add_trusted_device log_security_event insert
run-verdict_example =
    run-verdict plain_crypto no_json strict (add_trusted_call "d" ∷ []) trusting free 5 "d" 0 refl

-- A trusted device with a session of its own may write.
verdict-authorize_example :
    verdict (authorize 50 "d" 1 (record trusting { sessions = ("d", ready) ∷ [] }, free))
    ≡ some (true, ("d", record ready { last_activity = 50 }) ∷ [])
unfolding has_operation insert new_manager lookup
verdict-authorize_example =
    verdict-authorize 50 "d" 1 (record trusting { sessions = ("d", ready) ∷ [] })

abbrev lax : DefaultSecurityManager
lax = record {
  config = record {
    enable_encryption = true;
    key_size = 16;
    session_timeout = 100;
    max_failed_attempts = pos 3;
  };
  device_sessions = ("d", record ready { is_authenticated = false; failed_attempts = 3 }) ∷ [];
  trusted_devices = ("t", true) ∷ [];
  access_policies = [];
}

-- A trusted device whose session key can be drawn.
mutex_left-authenticate_example :
    mutex_left (authenticate 5 "t" ann (ok (1 ∷ [])) (lax, free)) ≡ none
unfolding lookup
mutex_left-authenticate_example = mutex_left-authenticate 5 "t" ann (ok (1 ∷ [])) lax

-- A token that is long enough comes too late.
attempts-AllRefused_example :
    AllRefused "d"
      (record ready { is_authenticated = false; failed_attempts = 3 })
      ((5, record ann { token = "long token" }, ok (1 ∷ [])) ∷ [])
      lax
unfolding lookup
attempts-AllRefused_example =
    attempts-AllRefused "d" ((5, record ann { token = "long token" }, ok (1 ∷ [])) ∷ [])
      (record ready { is_authenticated = false; failed_attempts = 3 }) lax
      (record { untrusted = refl; held = refl; spent = refl })
