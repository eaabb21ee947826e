-- ===== src/Session/Invariant.antt =====
-- What holds of the session manager between calls, and of its parts.
pub mod Calls
use cat_tag.Common.{
  ℕ, zero, suc, ◌+◌, ◌≤◌, ◌<◌, ◌≡◌, ◌≢◌, refl, ◌∙◌, sym, ap, ◌⊎◌, inl, inr, ℤ, pos, negsuc, to_ℕ,
  at_least, Bool, true, false, List, [], ◌∷◌, Option, none, some, if◌then◌else◌, ltb, String,
  length, Map, lookup, insert, delete, length-insert_new, length-insert_old, length-delete-le,
  insert-Distinct, delete-Distinct, insert-Entries, delete-Entries, lookup-Entries, Distinct,
  Entries, Option-cases, Bool-cases, if_elim, not, arith,
}
use cat_tag.Errors.{GoError}
use cat_tag.Pooled.{Connection}
use cat_tag.Session.{
  Manager, ClientSession, SessionConfig, SecurityManager, Credentials, SessionStatus, created,
  authenticating, authenticated, active, idle, expired, closed, is_over, put, remove, with_session,
  encrypted, wake, ask, fresh_session, close_session_internal, create_session, close_session,
  authenticate, authenticate_session, enable_encryption, update_activity, update_heartbeat,
  handle_session_closed, is_expired, mark_idle, survivors, expired_sessions, close_expired,
  cleanup_expired_sessions, close_sessions, stop, new_session_manager,
}

-- A session in the map is filed under its device and is not over; it is encrypted only if it was
-- authenticated, and so is its status `authenticated`.
pub record IsSession (k : String) (s : ClientSession) : Type 0 where
  pub filed : s.device_id ≡ k
  pub not_over : is_over s.status ≡ false
  pub encrypted_auth : s.is_encrypted ≡ true → s.is_authenticated ≡ true
  pub status_auth : s.status ≡ authenticated → s.is_authenticated ≡ true

pub record IsValid (m : Manager) : Type 0 where
  pub each : Entries IsSession m.sessions
  pub distinct : Distinct m.sessions
  pub bounded : length m.sessions ≤ to_ℕ m.config.max_sessions

fresh-IsSession : (now : ℕ) (c : Connection) → IsSession c.device_id (fresh_session now c)
unfolding fresh_session
fresh-IsSession now c = ground arith

pub wake-IsSession :
    (k : String) (now : ℕ) (s : ClientSession)
    → IsSession k s
    → IsSession k (record s { last_activity = now; status = wake s.status })
wake-IsSession k now s v = ground arith

mark_idle-IsSession :
    (k : String) (now : ℕ) (c : SessionConfig) (s : ClientSession)
    → IsSession k s
    → IsSession k (mark_idle now c s)
unfolding mark_idle
mark_idle-IsSession k now c s v = ground arith

pub authenticate-IsSession :
    (k d : String) (now : ℕ) (cr : Credentials) (s : ClientSession)
    (security : Option SecurityManager)
    → IsSession k s
    → IsSession k (authenticate now d cr s security).0
unfolding authenticate
authenticate-IsSession k d now cr s security v = ground arith

-- What differs from a valid manager only in its records of closed sessions is valid.
pub put-IsValid :
    (m : Manager) (d : String) (s t : ClientSession)
    → lookup d m.sessions ≡ some s
    → (IsSession d s → IsSession d t)
    → IsValid m
    → IsValid (put m d t)
put-IsValid m d s t found keep v = record {
  each =
      insert-Entries IsSession d t m.sessions
        (keep (lookup-Entries IsSession d s m.sessions found v.each)) v.each;
  distinct = insert-Distinct d t m.sessions v.distinct;
  bounded = omega (arith, length-insert_old d t s m.sessions found, v.bounded);
}

pub remove-IsValid : (m : Manager) (d : String) → IsValid m → IsValid (remove m d)
remove-IsValid m d v = record {
  each = delete-Entries IsSession d m.sessions v.each;
  distinct = delete-Distinct d m.sessions v.distinct;
  bounded = omega (arith, length-delete-le d m.sessions, v.bounded);
}

pub close_internal-IsValid :
    (m : Manager) (s : ClientSession) → IsValid m → IsValid (close_session_internal m s)
unfolding close_session_internal
close_internal-IsValid m s v = record { each = v.each; distinct = v.distinct; bounded = v.bounded }

room : (n : ℕ) (m : ℤ) → at_least n m ≡ false → n < to_ℕ m
room n (pos m) h = ground arith
room n (negsuc m) h = ground arith

pub admit-IsValid :
    (now : ℕ) (m : Manager) (c : Connection)
    → lookup c.device_id m.sessions ≡ none
    → at_least (length m.sessions) m.config.max_sessions ≡ false
    → IsValid m
    → IsValid (put m c.device_id (fresh_session now c))
admit-IsValid now m c absent free v = record {
  each =
      insert-Entries IsSession c.device_id (fresh_session now c) m.sessions (fresh-IsSession now c)
        v.each;
  distinct = insert-Distinct c.device_id (fresh_session now c) m.sessions v.distinct;
  bounded = omega (
    arith,
    length-insert_new c.device_id (fresh_session now c) m.sessions absent,
    room (length m.sessions) m.config.max_sessions free,
  );
}

pub lookup-survivors-none :
    (now : ℕ) (c : SessionConfig) (m : Map ClientSession) (d : String)
    → lookup d m ≡ none
    → lookup d (survivors now c m) ≡ none
unfolding lookup survivors
lookup-survivors-none now c [] d e = refl
lookup-survivors-none now c ((k, s) ∷ m) d e = ground (arith, lookup-survivors-none now c m d)

pub survivors-Distinct :
    (now : ℕ) (c : SessionConfig) (m : Map ClientSession)
    → Distinct m
    → Distinct (survivors now c m)
unfolding survivors
survivors-Distinct now c [] u = tt
survivors-Distinct now c ((k, s) ∷ m) u =
    if_elim Distinct (is_expired now c s) (λ _. survivors-Distinct now c m u.1)
      (λ _. (lookup-survivors-none now c m k u.0, survivors-Distinct now c m u.1))

pub survivors-each :
    (now : ℕ) (c : SessionConfig) (m : Map ClientSession)
    → Entries IsSession m
    → Entries IsSession (survivors now c m)
unfolding survivors
survivors-each now c [] e = tt
survivors-each now c ((k, s) ∷ m) e =
    if_elim (Entries IsSession) (is_expired now c s) (λ _. survivors-each now c m e.1)
      (λ _. (mark_idle-IsSession k now c s e.0, survivors-each now c m e.1))

pub length-survivors-le :
    (now : ℕ) (c : SessionConfig) (m : Map ClientSession) → length (survivors now c m) ≤ length m
unfolding survivors
length-survivors-le now c [] = omega arith
length-survivors-le now c ((k, s) ∷ m) = ground (arith, length-survivors-le now c m)
