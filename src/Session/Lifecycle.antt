-- ===== src/Session/Lifecycle.antt =====
-- Authentication, encryption and expiry of sessions.
use cat_tag.Common.{
  ℕ, ◌+◌, ◌≤◌, ◌<◌, ◌≡◌, refl, sym, subst, ◌∙◌, ap, true, ltb, Bool-cases, List, [], ◌∷◌, Option,
  none, some, Option-cases, inl, inr, if◌then◌else◌, String, Map, lookup, insert, lookup-Entries,
  Distinct, lookup-insert, same_iff, same_refl, All, arith,
}
use cat_tag.Errors.{GoError, wrap_error, auth_failed}
use cat_tag.Session.{
  Manager, ClientSession, SessionConfig, SecurityManager, Credentials, created, idle, authenticated,
  expired, closed, with_session, ask, close_session_internal, create_session, close_session,
  authenticate, authenticate_session, enable_encryption, update_activity, update_heartbeat,
  handle_session_closed, is_expired, mark_idle, survivors, expired_sessions, close_expired,
  cleanup_expired_sessions, close_sessions, stop, new_session_manager,
}
use cat_tag.Session.Invariant.{IsSession, IsValid, lookup-survivors-none}
use cat_tag.Session.Invariant.Calls.{
  Call, create_call, close_call, authenticate_call, encrypt_call, activity_call, heartbeat_call,
  closed_call, cleanup_call, stop_call, step, run,
}

-- What the cleaning loop leaves of a session.
abbrev pub cleaned : ℕ → SessionConfig → Option ClientSession → Option ClientSession
cleaned now c none = none
cleaned now c (some s) = if is_expired now c s then none else some (mark_idle now c s)

lookup-survivors :
    (now : ℕ) (c : SessionConfig) (m : Map ClientSession) (d : String)
    → Distinct m
    → lookup d (survivors now c m) ≡ cleaned now c (lookup d m)
unfolding lookup survivors
lookup-survivors now c [] d u = refl
lookup-survivors now c ((k, s) ∷ m) d u =
    ground (arith, lookup-survivors now c m d u.1, same_iff k d, lookup-survivors-none now c m d)

close_expired-sessions :
    (m : Manager) (ss : List ClientSession) → (close_expired m ss).sessions ≡ m.sessions
unfolding close_expired close_session_internal
close_expired-sessions m [] = refl
close_expired-sessions m (s ∷ ss) =
    close_expired-sessions (close_session_internal m (record s { status = expired })) ss

-- The cleaning does to a device's session what its tests say.
pub lookup-cleanup_expired_sessions :
    (now : ℕ) (m : Manager) (d : String)
    → IsValid m
    → lookup d (cleanup_expired_sessions now m).sessions
      ≡ cleaned now m.config (lookup d m.sessions)
unfolding cleanup_expired_sessions
lookup-cleanup_expired_sessions now m d v =
    ap (lookup d) (close_expired-sessions _ (expired_sessions now m.config m.sessions))
    ∙ lookup-survivors now m.config m.sessions d v.distinct

-- What a session becomes, and what its times are then.
pub data Cleaned (now : ℕ) (c : SessionConfig) (before after : Option ClientSession) : Type 0 where
  absent : before ≡ none → after ≡ none → Cleaned now c before after
  outlived :
      (s : ClientSession)
      → before ≡ some s
      → s.created_at + c.session_timeout < now
      → after ≡ none
      → Cleaned now c before after
  abandoned :
      (s : ClientSession)
      → before ≡ some s
      → now ≤ s.created_at + c.session_timeout
      → s.last_activity + c.max_idle_time < now
      → s.last_activity + c.session_timeout < now
      → after ≡ none
      → Cleaned now c before after
  idled :
      (s : ClientSession)
      → before ≡ some s
      → now ≤ s.created_at + c.session_timeout
      → s.last_activity + c.max_idle_time < now
      → now ≤ s.last_activity + c.session_timeout
      → after ≡ some (record s { status = idle })
      → Cleaned now c before after
  left_alone :
      (s : ClientSession)
      → before ≡ some s
      → now ≤ s.created_at + c.session_timeout
      → now ≤ s.last_activity + c.max_idle_time
      → after ≡ some s
      → Cleaned now c before after

cleaned-Cleaned :
    (now : ℕ) (c : SessionConfig) (before : Option ClientSession)
    → Cleaned now c before (cleaned now c before)
unfolding is_expired mark_idle
cleaned-Cleaned now c none = absent refl refl
cleaned-Cleaned now c (some s) =
    let old = ltb (s.created_at + c.session_timeout) now in
    let quiet = ltb (s.last_activity + c.max_idle_time) now in
    let gone = ltb (s.last_activity + c.session_timeout) now in
    elim (Bool-cases old) [
      | inl o ↦ outlived s refl (ground arith) (ground arith)
      | inr o ↦ elim (Bool-cases quiet) [
        | inr q ↦ left_alone s refl (ground arith) (ground arith) (ground arith)
        | inl q ↦ elim (Bool-cases gone) [
          | inl g ↦ abandoned s refl (ground arith) (ground arith) (ground arith) (ground arith)
          | inr g ↦ idled s refl (ground arith) (ground arith) (ground arith) (ground arith)
        ]
      ]
    ]

-- On a valid manager `cleanupExpiredSessions` removes a session exactly if it is past the session
-- timeout since its creation, or past both the idle time and the session timeout since its last
-- activity; of the others it marks those idle that are past the idle time, and leaves the rest.
pub cleanup_expired_sessions-Cleaned :
    (now : ℕ) (m : Manager) (d : String)
    → IsValid m
    → Cleaned now m.config
        (lookup d m.sessions)
        (lookup d (cleanup_expired_sessions now m).sessions)
cleanup_expired_sessions-Cleaned now m d v =
    subst (Cleaned now m.config (lookup d m.sessions))
      (sym (lookup-cleanup_expired_sessions now m d v))
      (cleaned-Cleaned now m.config (lookup d m.sessions))

-- Every session that has left the map is closed.
abbrev AllClosed : Manager → Type 0
AllClosed m = All (λ s. s.status ≡ closed) m.retired

close_expired-AllClosed :
    (m : Manager) (ss : List ClientSession) → AllClosed m → AllClosed (close_expired m ss)
unfolding close_expired close_session_internal
close_expired-AllClosed m [] a = a
close_expired-AllClosed m (s ∷ ss) a =
    close_expired-AllClosed (close_session_internal m (record s { status = expired })) ss (refl, a)

close_sessions-AllClosed :
    (m : Manager) (n : Map ClientSession) → AllClosed m → AllClosed (close_sessions m n)
unfolding close_sessions close_session_internal
close_sessions-AllClosed m [] a = a
close_sessions-AllClosed m ((d, s) ∷ n) a =
    close_sessions-AllClosed (close_session_internal m s) n (refl, a)

step-AllClosed : (m : Manager) (c : Call) → AllClosed m → AllClosed (step m c)
unfolding step stop cleanup_expired_sessions create_session close_session authenticate_session
    enable_encryption update_activity update_heartbeat handle_session_closed close_session_internal
step-AllClosed m (create_call now c) a = ground arith
step-AllClosed m (close_call d) a = ground arith
step-AllClosed m (authenticate_call now d c) a = ground arith
step-AllClosed m (encrypt_call now d) a = ground arith
step-AllClosed m (activity_call now d) a = ground arith
step-AllClosed m (heartbeat_call now d) a = ground arith
step-AllClosed m (closed_call s) a = (refl, a)
step-AllClosed m (cleanup_call now) a =
    close_expired-AllClosed _ (expired_sessions now m.config m.sessions) a
step-AllClosed m stop_call a = close_sessions-AllClosed m m.sessions a

run-AllClosed : (m : Manager) (cs : List Call) → AllClosed m → AllClosed (run m cs)
unfolding run
run-AllClosed m [] a = a
run-AllClosed m (c ∷ cs) a = run-AllClosed (step m c) cs (step-AllClosed m c a)

-- Whatever the history, a session that has left the map has the status closed: the status expired,
-- which the cleaning loop sets, is overwritten at once.
pub run-retired_closed :
    (config : SessionConfig) (security : Option SecurityManager) (cs : List Call)
    → All (λ s. s.status ≡ closed) (run (new_session_manager config security) cs).retired
unfolding new_session_manager
run-retired_closed config security cs = run-AllClosed (new_session_manager config security) cs tt

-- What `AuthenticateSession` leaves of the session, and returns, for each answer of the manager.
pub data Authenticated (now : ℕ) (d : String) (s : ClientSession) (answer : Option GoError)
    (q : Manager) (result : Option GoError) : Type 0 where
  accepted :
      answer ≡ none
      → result ≡ none
      → lookup d q.sessions
        ≡ some (record s { is_authenticated = true; status = authenticated; last_activity = now })
      → Authenticated now d s answer q result
  refused :
      (e : GoError)
      → answer ≡ some e
      → result ≡ some (wrap_error e auth_failed d "authenticate")
      → lookup d q.sessions ≡ some (record s { status = created })
      → Authenticated now d s answer q result

abbrev pub verdict : Manager → String → Credentials → Option GoError
verdict m d c = ask m.security_manager (λ k. k.authenticate d c)

lookup-insert_same :
    (d : String) (t : ClientSession) (m : Map ClientSession) → lookup d (insert d t m) ≡ some t
lookup-insert_same d t m = ground (arith, lookup-insert d d t m, same_refl d)

authenticate-accepted :
    (now : ℕ) (d : String) (c : Credentials) (s : ClientSession) (security : Option SecurityManager)
    → ask security (λ k. k.authenticate d c) ≡ none
    → authenticate now d c s security
      ≡ (record s { is_authenticated = true; status = authenticated; last_activity = now }, none)
unfolding authenticate
authenticate-accepted now d c s security a = rw (authenticate, a) refl

authenticate-refused :
    (now : ℕ) (d : String) (c : Credentials) (s : ClientSession) (security : Option SecurityManager)
    (e : GoError)
    → ask security (λ k. k.authenticate d c) ≡ some e
    → authenticate now d c s security
      ≡ (record s { status = created }, some (wrap_error e auth_failed d "authenticate"))
unfolding authenticate
authenticate-refused now d c s security e a = rw (authenticate, a) refl

-- A session of a valid manager is authenticated exactly when the security manager accepts its
-- credentials, or when there is none. A refusal is returned, and resets the status, but not an authentication that the
-- session had before.
pub authenticate_session-Authenticated :
    (now : ℕ) (m : Manager) (d : String) (s : ClientSession) (c : Credentials)
    → IsValid m
    → lookup d m.sessions ≡ some s
    → let r = authenticate_session now m d c in Authenticated now d s (verdict m d c) r.0 r.1
unfolding authenticate_session
authenticate_session-Authenticated now m d s c v found =
    let live = (lookup-Entries IsSession d s m.sessions found v.each).not_over in
    rw (found, with_session, live)
      (elim (Option-cases (verdict m d c)) [
        | inl a ↦
            rw (authenticate-accepted now d c s m.security_manager a)
              (accepted a refl (lookup-insert_same d _ m.sessions))
        | inr (e, a) ↦
            rw (authenticate-refused now d c s m.security_manager e a)
              (refused e a refl (lookup-insert_same d _ m.sessions))
      ])
