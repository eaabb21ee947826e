-- ===== src/DefaultSecurity/Lockout.antt =====
-- Who is locked out, and which logins return.
use cat_tag.Common.{
  ℕ, ◌≡◌, refl, at_least, Bool, true, false, ◌&&◌, map, List, [], ◌∷◌, Option, none, some,
  if◌then◌else◌, String, lookup, lookup-insert, same_refl, arith,
}
use cat_tag.Errors.{new_bluetooth_error, auth_failed, Result, ok, err}
use cat_tag.Protocol.Bytes.{Bytes}
use cat_tag.Session.{Credentials}
use cat_tag.Mutex.{◌>>=◌, pure, Mutex, free, Run, returned, blocked}
use cat_tag.Security.{SecuritySession}
use cat_tag.Security.Access.{holds}
use cat_tag.DefaultSecurity.{
  DefaultSecurityManager, Method, put_session, Result?, session_of, log_in, generate_session_key,
  create_session, authenticate,
}

abbrev pub succeeded : Result Bytes → Bool
succeeded (ok b) = true
succeeded (err e) = false

-- What a login leaves of the mutex, if it returns.
abbrev pub mutex_left : Run (Result? × DefaultSecurityManager × Mutex) → Option Mutex
mutex_left blocked = none
mutex_left (returned (a, m, x)) = some x

-- With the lock free a login returns and leaves it free, but for one case: a trusted device, where
-- encryption is on and a session key can be drawn, waits for ever, for the lock it holds.
pub mutex_left-authenticate :
    (now : ℕ) (d : String) (c : Credentials) (random : Result Bytes) (m : DefaultSecurityManager)
    → mutex_left (authenticate now d c random (m, free)) ≡ (
        if holds (lookup d m.trusted_devices) && (m.config.enable_encryption && succeeded random)
        then none
        else some free)
unfolding authenticate create_session generate_session_key
mutex_left-authenticate now d c random m = ground arith

-- A login at a time, with credentials and what is drawn for a key.
abbrev pub Attempt : Type 0
Attempt = ℕ × Credentials × Result Bytes

-- Logins of one device, one after the other, with what each of them gave.
pub attempts : String → List Attempt → Method (List Result?)
attempts d [] = pure []
attempts d ((now, c, random) ∷ rest) = do
  r ← authenticate now d c random
  rs ← attempts d rest
  pure (r ∷ rs)

-- A device that is not trusted has failed as often as it may.
pub record IsLockedOut (d : String) (s : SecuritySession) (m : DefaultSecurityManager)
    : Type 0 where
  pub untrusted : holds (lookup d m.trusted_devices) ≡ false
  pub held : lookup d m.device_sessions ≡ some s
  pub spent : at_least s.failed_attempts m.config.max_failed_attempts ≡ true

-- A login that is refused without a look at its credentials.
refused-authenticate :
    (now : ℕ) (d : String) (c : Credentials) (random : Result Bytes) (s : SecuritySession)
    (m : DefaultSecurityManager)
    → IsLockedOut d s m
    → authenticate now d c random (m, free)
      ≡ returned (some (new_bluetooth_error auth_failed), put_session d s m, free)
unfolding authenticate log_in session_of
refused-authenticate now d c random s m l =
    let a = l.untrusted in let b = l.held in let e = l.spent in ground arith

still-IsLockedOut :
    (d : String) (s : SecuritySession) (m : DefaultSecurityManager)
    → IsLockedOut d s m
    → IsLockedOut d s (put_session d s m)
still-IsLockedOut d s m l = record {
  untrusted = l.untrusted;
  held = ground (arith, lookup-insert d d s m.device_sessions, same_refl d);
  spent = l.spent;
}

-- The logins all returned and were refused, and the device is still locked out.
pub record AllRefused (d : String) (s : SecuritySession) (cs : List Attempt)
    (m : DefaultSecurityManager) : Type 0 where
  pub after : DefaultSecurityManager
  pub refused :
      attempts d cs (m, free)
      ≡ returned (map (λ c. some (new_bluetooth_error auth_failed)) cs, after, free)
  pub locked_out : IsLockedOut d s after

-- Once a device that is not trusted has failed as often as it may, every later login of it is refused,
-- whatever the credentials and the time, and nothing that the logins do ends this.
pub attempts-AllRefused :
    (d : String) (cs : List Attempt) (s : SecuritySession) (m : DefaultSecurityManager)
    → IsLockedOut d s m
    → AllRefused d s cs m
unfolding attempts
attempts-AllRefused d [] s m l = record { after = m; refused = refl; locked_out = l }
attempts-AllRefused d ((now, c, random) ∷ rest) s m l =
    let more = attempts-AllRefused d rest s (put_session d s m) (still-IsLockedOut d s m l) in
    record {
      after = more.after;
      refused =
          rw (refused-authenticate now d c random s m l, ◌>>=◌) (rw (more.refused, ◌>>=◌) refl);
      locked_out = more.locked_out;
    }
