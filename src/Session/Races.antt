-- ===== src/Session/Races.antt =====
-- What two steps of the session manager do together: a goroutine that reports a connection closed
-- after its device has a new session, and traffic on a session that the cleaning loop marked idle.
use cat_tag.Common.{
  ℕ, ◌+◌, ◌<◌, ◌≡◌, refl, ◌∙◌, ap, subst, false, [], ◌∷◌, some, String, lookup, Option-cases,
  if_elim, inl, inr, lookup-insert, lookup-delete, same_refl, at_least, length, arith,
}
use cat_tag.Errors.{Result, ok, err, new_bluetooth_error_with_device, not_found}
use cat_tag.Pooled.{Connection}
use cat_tag.Session.{
  Manager, ClientSession, idle, active, fresh_session, put, with_session, close_session_internal,
  is_over, create_session, get_session, update_activity, handle_session_closed, is_expired,
  mark_idle, cleanup_expired_sessions,
}
use cat_tag.Session.Invariant.{IsValid}
use cat_tag.Session.Invariant.Calls.{
  create_call, activity_call, closed_call, cleanup_call, step, run,
}
use cat_tag.Session.Lifecycle.{cleaned, lookup-cleanup_expired_sessions}

get-handle_session_closed :
    (m : Manager) (s : ClientSession)
    → get_session (handle_session_closed m s) s.device_id
      ≡ err (new_bluetooth_error_with_device not_found s.device_id "get_session")
unfolding get_session handle_session_closed
get-handle_session_closed m s =
    ground (arith, lookup-delete s.device_id s.device_id m.sessions, same_refl s.device_id)

closed_connections-kept :
    (m : Manager) (s : ClientSession)
    → (handle_session_closed m s).closed_connections ≡ m.closed_connections
unfolding handle_session_closed
closed_connections-kept m s = refl

lookup-put : (m : Manager) (d : String) (t : ClientSession) → lookup d (put m d t).sessions ≡ some t
lookup-put m d t = ground (arith, lookup-insert d d t m.sessions, same_refl d)

-- A call's session, where the call succeeds, is the one in the map.
abbrev Stored : String → ClientSession → Manager × Result ClientSession → Type 0
Stored d t (p, r) = r ≡ ok t → lookup d p.sessions ≡ some t

put-Stored : (m : Manager) (d : String) (s t : ClientSession) → Stored d t (put m d s, ok s)
put-Stored m d s t e = ground (arith, lookup-put m d s)

create_session-put :
    (now : ℕ) (m : Manager) (conn : Connection) (t : ClientSession)
    → Stored conn.device_id t (create_session now m conn)
unfolding create_session
create_session-put now m conn t =
    let s = fresh_session now conn in
    if_elim (Stored conn.device_id t) (at_least (length m.sessions) m.config.max_sessions)
      (λ _ e. ground arith)
      (λ _. elim (Option-cases (lookup conn.device_id m.sessions)) [
        | inl absent ↦ rw (absent, create_session) (put-Stored m conn.device_id s t)
        | inr (old, found) ↦
            rw (found, create_session)
              (if_elim (Stored conn.device_id t) (is_over old.status)
                (λ _. put-Stored (close_session_internal m old) conn.device_id s t)
                (λ _ e. ground arith))
      ])

get_session-found :
    (m : Manager) (d : String) (t : ClientSession)
    → lookup d m.sessions ≡ some t
    → get_session m d ≡ ok t
unfolding get_session
get_session-found m d t e = rw (e, get_session) refl

mark_idle-rested :
    (now : ℕ) (m : Manager) (s : ClientSession)
    → is_expired now m.config s ≡ false
    → s.last_activity + m.config.max_idle_time < now
    → cleaned now m.config (some s) ≡ some (record s { status = idle })
unfolding mark_idle
mark_idle-rested now m s fresh rested = ground arith

update_activity-idle :
    (later : ℕ) (m : Manager) (d : String) (s : ClientSession)
    → lookup d m.sessions ≡ some (record s { status = idle })
    → lookup d (update_activity later m d).0.sessions
      ≡ some (record s { status = active; last_activity = later })
unfolding update_activity
update_activity-idle later m d s e =
    rw (e, with_session) (lookup-put m d (record s { status = active; last_activity = later }))

-- A goroutine's late report drops the session of another connection: when the device of the closed
-- session has just been given a new session, the new session is in the map until the report and is
-- gone after it, and the report closes no connection, so that of the new session stays open.
pub late_close-drops_new :
    (now : ℕ) (m : Manager) (old new : ClientSession) (conn : Connection)
    → old.device_id ≡ conn.device_id
    → (create_session now m conn).1 ≡ ok new
    → let p = run m (create_call now conn ∷ []) in
      let q = run m (create_call now conn ∷ closed_call old ∷ []) in
      (get_session p conn.device_id ≡ ok new)
      × (get_session q conn.device_id
          ≡ err (new_bluetooth_error_with_device not_found conn.device_id "get_session"))
      × (q.closed_connections ≡ p.closed_connections)
unfolding run step
late_close-drops_new now m old new conn same_device created = (
  get_session-found _ conn.device_id new (create_session-put now m conn new created),
  subst
      (λ d.
        get_session (handle_session_closed (create_session now m conn).0 old) d
        ≡ err (new_bluetooth_error_with_device not_found d "get_session"))
      same_device (get-handle_session_closed (create_session now m conn).0 old),
  closed_connections-kept (create_session now m conn).0 old,
)

-- A session of a valid manager that is past the idle time, but has not expired, is marked idle by the cleaning and made
-- active by the traffic that follows. Nothing else of it changes but the time of its last activity: the session is active
-- even if it was never authenticated, and its status is not what it was before.
pub run-idle_wakes :
    (now later : ℕ) (m : Manager) (d : String) (s : ClientSession)
    → IsValid m
    → lookup d m.sessions ≡ some s
    → is_expired now m.config s ≡ false
    → s.last_activity + m.config.max_idle_time < now
    → lookup d (run m (cleanup_call now ∷ activity_call later d ∷ [])).sessions
      ≡ some (record s { status = active; last_activity = later })
unfolding run step
run-idle_wakes now later m d s v found fresh rested =
    update_activity-idle later (cleanup_expired_sessions now m) d s (
      lookup-cleanup_expired_sessions now m d v
      ∙ ap (cleaned now m.config) found
      ∙ mark_idle-rested now m s fresh rested)
