-- ===== src/Session/Invariant/Calls.antt =====
-- Each method of the session manager keeps it valid, and so does every history of calls.
use cat_tag.Common.{
  ℕ, ◌≡◌, inl, inr, at_least, true, List, [], ◌∷◌, Option, none, some, String, length, lookup,
  lookup-Entries, Option-cases, Bool-cases, if_elim, not, arith,
}
use cat_tag.Errors.{GoError}
use cat_tag.Pooled.{Connection}
use cat_tag.Session.{
  Manager, ClientSession, SessionConfig, SecurityManager, Credentials, expired, is_over,
  with_session, encrypted, wake, close_session_internal, create_session, close_session,
  authenticate, authenticate_session, enable_encryption, update_activity, update_heartbeat,
  handle_session_closed, expired_sessions, close_expired, cleanup_expired_sessions, stop,
  new_session_manager,
}
use cat_tag.Session.Invariant.{
  IsSession, IsValid, wake-IsSession, authenticate-IsSession, put-IsValid, remove-IsValid,
  close_internal-IsValid, admit-IsValid, survivors-Distinct, survivors-each, length-survivors-le,
}

create_session-IsValid :
    (now : ℕ) (m : Manager) (c : Connection) → IsValid m → IsValid (create_session now m c).0
unfolding create_session
create_session-IsValid now m c v =
    elim (Bool-cases (at_least (length m.sessions) m.config.max_sessions)) [
      | inl full ↦ rw full v
      | inr free ↦ elim (Option-cases (lookup c.device_id m.sessions)) [
        | inl absent ↦ rw (free, absent, create_session) (admit-IsValid now m c absent free v)
        | inr (old, found) ↦
            let live =
              (lookup-Entries IsSession c.device_id old m.sessions found v.each).not_over in
            rw (free, found, create_session, live) v
      ]
    ]

with_session-IsValid :
    (m : Manager) (d : String) (f : ClientSession → Manager × Option GoError)
    → IsValid m
    → ((s : ClientSession) → lookup d m.sessions ≡ some s → IsValid (f s).0)
    → IsValid (with_session m d f).0
with_session-IsValid m d f v keep = elim (Option-cases (lookup d m.sessions)) [
  | inl e ↦ rw (e, with_session) v
  | inr (s, e) ↦ rw (e, with_session) (keep s e)
]

close_session-IsValid : (m : Manager) (d : String) → IsValid m → IsValid (close_session m d).0
unfolding close_session
close_session-IsValid m d v = elim (Option-cases (lookup d m.sessions)) [
  | inl e ↦ rw (e, close_session) v
  | inr (s, e) ↦
      rw (e, close_session)
        (remove-IsValid (close_session_internal m s) d (close_internal-IsValid m s v))
]

authenticate_session-IsValid :
    (now : ℕ) (m : Manager) (d : String) (c : Credentials)
    → IsValid m
    → IsValid (authenticate_session now m d c).0
unfolding authenticate_session
authenticate_session-IsValid now m d c v = with_session-IsValid m d _ v λ s found.
    elim (Bool-cases (is_over s.status)) [
      | inl over ↦ rw over v
      | inr live ↦ rw live (
          put-IsValid m d s (authenticate now d c s m.security_manager).0 found
            (authenticate-IsSession d d now c s m.security_manager) v)
    ]

encrypted-IsValid :
    (now : ℕ) (m : Manager) (d : String) (s : ClientSession) (answer : Option GoError)
    → lookup d m.sessions ≡ some s
    → s.is_authenticated ≡ true
    → IsValid m
    → IsValid (encrypted now m d s answer).0
encrypted-IsValid now m d s (some e) found auth v = v
encrypted-IsValid now m d s none found auth v =
    put-IsValid m d s (record s { is_encrypted = true; last_activity = now }) found
      (λ i. record {
        filed = i.filed;
        not_over = i.not_over;
        encrypted_auth = λ _. auth;
        status_auth = λ _. auth;
      })
      v

enable_encryption-IsValid :
    (now : ℕ) (m : Manager) (d : String) → IsValid m → IsValid (enable_encryption now m d).0
unfolding enable_encryption
enable_encryption-IsValid now m d v = with_session-IsValid m d _ v λ s found.
    if_elim (λ (r : Manager × Option GoError). IsValid r.0) (not s.is_authenticated) (λ _. v)
      (λ h. encrypted-IsValid now m d s _ found (ground arith) v)

update_activity-IsValid :
    (now : ℕ) (m : Manager) (d : String) → IsValid m → IsValid (update_activity now m d).0
unfolding update_activity
update_activity-IsValid now m d v = with_session-IsValid m d _ v λ s found.
    put-IsValid m d s (record s { last_activity = now; status = wake s.status }) found
      (wake-IsSession d now s) v

update_heartbeat-IsValid :
    (now : ℕ) (m : Manager) (d : String) → IsValid m → IsValid (update_heartbeat now m d).0
unfolding update_heartbeat
update_heartbeat-IsValid now m d v = with_session-IsValid m d _ v λ s found.
    put-IsValid m d s (record s { last_heartbeat = some now; last_activity = now }) found
      (λ i. record {
        filed = i.filed;
        not_over = i.not_over;
        encrypted_auth = i.encrypted_auth;
        status_auth = i.status_auth;
      })
      v

handle_session_closed-IsValid :
    (m : Manager) (s : ClientSession) → IsValid m → IsValid (handle_session_closed m s)
unfolding handle_session_closed
handle_session_closed-IsValid m s v =
    let w = remove-IsValid m s.device_id v in
    record { each = w.each; distinct = w.distinct; bounded = w.bounded }

close_expired-IsValid :
    (m : Manager) (ss : List ClientSession) → IsValid m → IsValid (close_expired m ss)
unfolding close_expired
close_expired-IsValid m [] v = v
close_expired-IsValid m (s ∷ ss) v =
    close_expired-IsValid (close_session_internal m (record s { status = expired })) ss
      (close_internal-IsValid m (record s { status = expired }) v)

cleanup-IsValid : (now : ℕ) (m : Manager) → IsValid m → IsValid (cleanup_expired_sessions now m)
unfolding cleanup_expired_sessions
cleanup-IsValid now m v =
    close_expired-IsValid _ (expired_sessions now m.config m.sessions) (record {
      each = survivors-each now m.config m.sessions v.each;
      distinct = survivors-Distinct now m.config m.sessions v.distinct;
      bounded = omega (arith, length-survivors-le now m.config m.sessions, v.bounded);
    })

-- A call of the manager; `closed_call` is a session's goroutine that found its connection closed.
pub data Call : Type 0 where
  create_call : ℕ → Connection → Call
  close_call : String → Call
  authenticate_call : ℕ → String → Credentials → Call
  encrypt_call activity_call heartbeat_call : ℕ → String → Call
  closed_call : ClientSession → Call
  cleanup_call : ℕ → Call
  stop_call : Call

unfoldable pub step : Manager → Call → Manager
step m (create_call now c) = (create_session now m c).0
step m (close_call d) = (close_session m d).0
step m (authenticate_call now d c) = (authenticate_session now m d c).0
step m (encrypt_call now d) = (enable_encryption now m d).0
step m (activity_call now d) = (update_activity now m d).0
step m (heartbeat_call now d) = (update_heartbeat now m d).0
step m (closed_call s) = handle_session_closed m s
step m (cleanup_call now) = cleanup_expired_sessions now m
step m stop_call = stop m

unfoldable pub run : Manager → List Call → Manager
run m [] = m
run m (c ∷ cs) = run (step m c) cs

pub step-IsValid : (m : Manager) (c : Call) → IsValid m → IsValid (step m c)
unfolding step stop
step-IsValid m (create_call now c) v = create_session-IsValid now m c v
step-IsValid m (close_call d) v = close_session-IsValid m d v
step-IsValid m (authenticate_call now d c) v = authenticate_session-IsValid now m d c v
step-IsValid m (encrypt_call now d) v = enable_encryption-IsValid now m d v
step-IsValid m (activity_call now d) v = update_activity-IsValid now m d v
step-IsValid m (heartbeat_call now d) v = update_heartbeat-IsValid now m d v
step-IsValid m (closed_call s) v = handle_session_closed-IsValid m s v
step-IsValid m (cleanup_call now) v = cleanup-IsValid now m v
step-IsValid m stop_call v = record { each = tt; distinct = tt; bounded = omega arith }

run-IsValid : (m : Manager) (cs : List Call) → IsValid m → IsValid (run m cs)
unfolding run
run-IsValid m [] v = v
run-IsValid m (c ∷ cs) v = run-IsValid (step m c) cs (step-IsValid m c v)

-- After any history of calls on a new manager every session is filed once, under its device; none is
-- closed or expired; one that is encrypted, or whose status is `authenticated`, was authenticated;
-- and there are no more of them than the maximum.
pub run-new_session_manager-IsValid :
    (config : SessionConfig) (security : Option SecurityManager) (cs : List Call)
    → IsValid (run (new_session_manager config security) cs)
unfolding new_session_manager
run-new_session_manager-IsValid config security cs =
    run-IsValid (new_session_manager config security) cs
      (record { each = tt; distinct = tt; bounded = omega arith })
