-- ===== src/Security/History.antt =====
-- What the deadlock of `Authenticate` makes of `Authorize`, over histories of calls.
use cat_tag.Common.{
  ℕ, ◌+◌, ◌≡◌, refl, ◌∙◌, subst, Bool, true, false, List, [], ◌∷◌, Option, none, some, String,
  Option-cases, inl, inr, if_elim, arith, Map, lookup, insert, delete, Entries, insert-Entries,
  delete-Entries, lookup-Entries, not, if◌then◌else◌, length, ◌==◌, ltb, ◌&&◌,
}
use cat_tag.Errors.{Result, Result-cases, ok, err}
use cat_tag.Protocol.Bytes.{Bytes}
use cat_tag.Encryption.{Crypto, generate_key, rotate_key}
use cat_tag.Mutex.{Run-cases, Mutex, free, Run, returned, blocked}
use cat_tag.Security.{
  Manager, Operation, SecuritySession, SecurityConfig, new_manager, new_session,
  get_or_create_session, log_security_event, trigger_auth_callback,
}
use cat_tag.Security.Access.{
  has_operation, is_whitelisted, get_access_policy, is_trusted_device, get_whitelist,
  get_trusted_devices, add_to_whitelist, remove_from_whitelist, set_access_policy,
  add_trusted_device, remove_trusted_device, validate_access, authorize, revoke_session,
  get_active_session, expire_sessions, cleanup_expired_sessions, enable_security_feature,
  set_session_timeout, set_max_failed_attempts, check_session, check_trusted, check_policy,
}
use cat_tag.Security.Keys.{
  generate_session_key, rotate_session_key, get_session_key, adopt_key, rekey, Json, encrypt,
  decrypt,
}
use cat_tag.Security.Login.{authenticate}
use cat_tag.Security.Locking.{
  Call, authenticate_call, authorize_call, encrypt_call, decrypt_call, generate_key_call,
  rotate_key_call, session_key_call, add_whitelist_call, remove_whitelist_call, is_whitelisted_call,
  whitelist_call, trusted_devices_call, set_policy_call, policy_call, add_trusted_call,
  remove_trusted_call, is_trusted_call, validate_call, revoke_call, active_call, cleanup_call,
  feature_call, timeout_call, attempts_call, effect, perform, mutex_after-perform,
}
use cat_tag.Security.Grants.{
  is_granted, touch, verdict, log_security_event-sessions, verdict-authorize,
}

Ungranted : String → SecuritySession → Type 0
Ungranted d s = s.permissions ≡ []

-- No session has a permission.
pub IsIdle : Manager → Type 0
IsIdle m = Entries Ungranted m.sessions

-- A call keeps the sessions idle, if it returns.
StaysIdle : Run (Manager × Mutex) → Type 0
StaysIdle blocked = Unit {0}
StaysIdle (returned (s, x)) = IsIdle s

get_or_create_session-Ungranted :
    (now : ℕ) (d : String) (m : Manager)
    → IsIdle m
    → (get_or_create_session now d m).permissions ≡ []
unfolding get_or_create_session new_session IsIdle Ungranted
get_or_create_session-Ungranted now d m i = elim (Option-cases (lookup d m.sessions)) [
  | inl r ↦ ground arith
  | inr (s, r) ↦
      let e : s.permissions ≡ [] = lookup-Entries Ungranted d s m.sessions r i in ground arith
]

expire_sessions-IsIdle :
    (now : ℕ) (rest : Map SecuritySession) (m : Manager)
    → IsIdle m
    → IsIdle (expire_sessions now rest m)
unfolding expire_sessions IsIdle Ungranted
expire_sessions-IsIdle now [] m i = i
expire_sessions-IsIdle now ((d, s) ∷ rest) m i =
    if_elim (λ q. IsIdle (expire_sessions now rest q))
      (ltb (s.last_activity + m.config.session_timeout) now)
      (λ _.
        expire_sessions-IsIdle now rest _
          (rw (log_security_event-sessions _ _ _ _) (delete-Entries Ungranted d m.sessions i)))
      (λ _. expire_sessions-IsIdle now rest m i)

-- The sessions that a call leaves, if it returns.
abbrev sessions_after : {A : Type 0} → Run (A × Manager × Mutex) → Option (Map SecuritySession)
sessions_after blocked = none
sessions_after (returned (a, s, w)) = some s.sessions

sessions_after-StaysIdle :
    {A : Type 0} (r : Run (A × Manager × Mutex)) (sessions : Map SecuritySession)
    → sessions_after r ≡ some sessions
    → Entries Ungranted sessions
    → StaysIdle (effect r)
unfolding StaysIdle IsIdle
sessions_after-StaysIdle blocked sessions e i = tt
sessions_after-StaysIdle (returned (a, s, w)) sessions e i =
    let kept : s.sessions ≡ sessions = ground arith in rw kept i

-- A device's session, where there is one, is put back with the permissions it had.
readmit-Ungranted :
    (f : SecuritySession → SecuritySession) (d : String) (sessions : Map SecuritySession)
    → ((s : SecuritySession) → (f s).permissions ≡ s.permissions)
    → Entries Ungranted sessions
    → Entries Ungranted
        (elim (lookup d sessions) [ none ↦ sessions | some s ↦ insert d (f s) sessions ])
unfolding Ungranted
readmit-Ungranted f d sessions h i = elim (Option-cases (lookup d sessions)) [
  | inl r ↦ rw r i
  | inr (s, r) ↦ rw r (
      insert-Entries Ungranted d (f s) sessions (h s ∙ lookup-Entries Ungranted d s sessions r i) i)
]

authorize-sessions :
    (now : ℕ) (d : String) (op : Operation) (m : Manager)
    → sessions_after (authorize now d op (m, free))
      ≡ some (if is_granted now d op m then touch now d m.sessions else m.sessions)
unfolding authorize validate_access is_whitelisted get_access_policy is_trusted_device check_trusted
    check_policy check_session log_security_event
authorize-sessions now d op m = ground arith

generate_session_key-sessions :
    (now : ℕ) (d : String) (key iv : Result Bytes) (m : Manager)
    → sessions_after (generate_session_key now d key iv (m, free))
      ≡ some (elim (generate_key now m.encryption d m.config.session_timeout key iv).1 [
        | err e ↦ m.sessions
        | ok k ↦
            insert d (record (get_or_create_session now d m) { session_key = k.key }) m.sessions
      ])
unfolding generate_session_key get_or_create_session new_session
generate_session_key-sessions now d key iv m = ground arith

rotate_session_key-sessions :
    (now : ℕ) (d : String) (key iv : Result Bytes) (m : Manager)
    → sessions_after (rotate_session_key now d key iv (m, free))
      ≡ some (elim (rotate_key now m.encryption d m.config.session_timeout key iv).1 [
        | err e ↦ m.sessions
        | ok k ↦ elim (lookup d m.sessions) [
          | none ↦ m.sessions
          | some s ↦ insert d (record s { session_key = k.key; last_activity = now }) m.sessions
        ]
      ])
unfolding rotate_session_key rekey log_security_event
rotate_session_key-sessions now d key iv m = ground arith

validate_access-sessions :
    (d : String) (op : Operation) (m : Manager)
    → sessions_after (validate_access d op (m, free)) ≡ some m.sessions
unfolding validate_access is_whitelisted get_access_policy is_trusted_device check_trusted
    check_policy log_security_event
validate_access-sessions d op m = ground arith

-- The key store is asked for the key of a session that has none, and has it.
finds_key : String → Manager → Bool
finds_key d m = elim (lookup d m.sessions) [
  | none ↦ false
  | some s ↦
      length s.session_key == 0 && elim (lookup d m.key_store) [ none ↦ false | some key ↦ true ]
]

key_found : String → Manager → Bytes
key_found d m = elim (lookup d m.key_store) [ none ↦ [] | some key ↦ key ]

get_session_key-sessions :
    (d : String) (m : Manager)
    → sessions_after (get_session_key d (m, free))
      ≡ some (
          if finds_key d m
          then elim (lookup d m.sessions) [
            | none ↦ m.sessions
            | some s ↦ insert d (record s { session_key = key_found d m }) m.sessions
          ]
          else m.sessions)
unfolding get_session_key adopt_key finds_key key_found
get_session_key-sessions d m = ground arith

module _ (x : Crypto) (j : Json) where
  -- Calls one after the other, until one blocks.
  unfoldable pub run : Manager × Mutex → List Call → Run (Manager × Mutex)
  run w [] = returned w
  run w (c ∷ cs) = elim (perform x j c w) [ blocked ↦ blocked | returned v ↦ run v cs ]

  perform-StaysIdle : (c : Call) (m : Manager) → IsIdle m → StaysIdle (perform x j c (m, free))
  unfolding perform StaysIdle authenticate is_whitelisted validate_access get_access_policy
      is_trusted_device encrypt decrypt add_to_whitelist remove_from_whitelist get_whitelist
      get_trusted_devices set_access_policy add_trusted_device remove_trusted_device revoke_session
      get_active_session cleanup_expired_sessions enable_security_feature set_session_timeout
      set_max_failed_attempts log_security_event trigger_auth_callback IsIdle Ungranted
  perform-StaysIdle (authenticate_call now d c) m i = tt
  perform-StaysIdle (authorize_call now d op) m i =
      sessions_after-StaysIdle (authorize now d op (m, free)) _ (authorize-sessions now d op m) (
        if_elim (Entries Ungranted) (is_granted now d op m)
          (λ _.
            readmit-Ungranted (λ s. record s { last_activity = now }) d m.sessions (λ s. refl) i)
          (λ _. i))
  perform-StaysIdle (encrypt_call now random plain d) m i =
      if_elim {A = Manager × Result Bytes} (λ q. IsIdle (q.0)) (not m.config.enable_encryption)
        (λ _. i) (λ _. i)
  perform-StaysIdle (decrypt_call now bytes d) m i = i
  perform-StaysIdle (generate_key_call now d key iv) m i =
      sessions_after-StaysIdle (generate_session_key now d key iv (m, free)) _
        (generate_session_key-sessions now d key iv m)
        (elim (Result-cases (generate_key now m.encryption d m.config.session_timeout key iv).1) [
          | inl (k, r) ↦ rw r (
              insert-Entries Ungranted d
                (record (get_or_create_session now d m) { session_key = k.key }) m.sessions
                (get_or_create_session-Ungranted now d m i) i)
          | inr (e, r) ↦ rw r i
        ])
  perform-StaysIdle (rotate_key_call now d key iv) m i =
      sessions_after-StaysIdle (rotate_session_key now d key iv (m, free)) _
        (rotate_session_key-sessions now d key iv m)
        (elim (Result-cases (rotate_key now m.encryption d m.config.session_timeout key iv).1) [
          | inl (k, r) ↦ rw r (
              readmit-Ungranted (λ s. record s { session_key = k.key; last_activity = now }) d
                m.sessions (λ s. refl) i)
          | inr (e, r) ↦ rw r i
        ])
  perform-StaysIdle (session_key_call d) m i =
      sessions_after-StaysIdle (get_session_key d (m, free)) _ (get_session_key-sessions d m) (
        if_elim (Entries Ungranted) (finds_key d m)
          (λ _.
            readmit-Ungranted (λ s. record s { session_key = key_found d m }) d m.sessions
              (λ s. refl) i)
          (λ _. i))
  perform-StaysIdle (add_whitelist_call d) m i =
      sessions_after-StaysIdle (add_to_whitelist d (m, free)) m.sessions (ground arith) i
  perform-StaysIdle (remove_whitelist_call d) m i =
      sessions_after-StaysIdle (remove_from_whitelist d (m, free)) m.sessions (ground arith) i
  perform-StaysIdle (is_whitelisted_call d) m i = i
  perform-StaysIdle whitelist_call m i = i
  perform-StaysIdle trusted_devices_call m i = i
  perform-StaysIdle (set_policy_call d p) m i =
      sessions_after-StaysIdle (set_access_policy d p (m, free)) m.sessions (ground arith) i
  perform-StaysIdle (policy_call d) m i = i
  perform-StaysIdle (add_trusted_call d) m i =
      sessions_after-StaysIdle (add_trusted_device d (m, free)) m.sessions (ground arith) i
  perform-StaysIdle (remove_trusted_call d) m i =
      sessions_after-StaysIdle (remove_trusted_device d (m, free)) m.sessions (ground arith) i
  perform-StaysIdle (is_trusted_call d) m i = i
  perform-StaysIdle (validate_call d op) m i =
      sessions_after-StaysIdle (validate_access d op (m, free)) m.sessions
        (validate_access-sessions d op m) i
  perform-StaysIdle (revoke_call d) m i = elim (Option-cases (lookup d m.sessions)) [
    | inl r ↦ sessions_after-StaysIdle (revoke_session d (m, free)) m.sessions (ground arith) i
    | inr (s, r) ↦
        sessions_after-StaysIdle (revoke_session d (m, free)) (delete d m.sessions) (ground arith)
          (delete-Entries Ungranted d m.sessions i)
  ]
  perform-StaysIdle (active_call now d) m i = i
  perform-StaysIdle (cleanup_call now) m i = expire_sessions-IsIdle now m.sessions m i
  perform-StaysIdle (feature_call feature enabled) m i =
      sessions_after-StaysIdle (enable_security_feature feature enabled (m, free)) m.sessions
        (ground arith) i
  perform-StaysIdle (timeout_call timeout) m i =
      sessions_after-StaysIdle (set_session_timeout timeout (m, free)) m.sessions (ground arith) i
  perform-StaysIdle (attempts_call attempts) m i =
      sessions_after-StaysIdle (set_max_failed_attempts attempts (m, free)) m.sessions
        (ground arith) i

  -- A call that returns leaves idle sessions and a free lock.
  perform-IsIdle :
      (c : Call) (m s : Manager) (y : Mutex)
      → IsIdle m
      → perform x j c (m, free) ≡ returned (s, y)
      → IsIdle s × (y ≡ free)
  unfolding StaysIdle
  perform-IsIdle c m s y i e = (
    subst StaysIdle e (perform-StaysIdle c m i),
    (let left = mutex_after-perform x j c m in ground arith),
  )

  run-IsIdle :
      (cs : List Call) (m s : Manager) (y : Mutex)
      → IsIdle m
      → run (m, free) cs ≡ returned (s, y)
      → IsIdle s × (y ≡ free)
  unfolding run
  run-IsIdle [] m s y i e = let kept : m ≡ s = ground arith in (subst IsIdle kept i, ground arith)
  run-IsIdle (c ∷ cs) m s y i e = elim (Run-cases (perform x j c (m, free))) [
    | inl r ↦ absurd (ground arith)
    | inr ((s', y'), r) ↦
        let (i', q) = perform-IsIdle c m s' y' i r in run-IsIdle cs s' s y i' (ground arith)
  ]

  idle-verdict :
      (now : ℕ) (d : String) (op : Operation) (m : Manager)
      → IsIdle m
      → verdict (authorize now d op (m, free)) ≡ some (false, m.sessions)
  unfolding IsIdle Ungranted has_operation
  idle-verdict now d op m i = elim (Option-cases (lookup d m.sessions)) [
    | inl r ↦ ground (arith, verdict-authorize now d op m)
    | inr (s, r) ↦
        let e : s.permissions ≡ [] = lookup-Entries Ungranted d s m.sessions r i in
        ground (arith, verdict-authorize now d op m)
  ]

  -- Whatever calls were made of a new manager, `Authorize` refuses every device every operation: the
  -- permissions of a session come from `Authenticate`, which does not return.
  pub run-verdict :
      (config : SecurityConfig) (cs : List Call) (s : Manager) (y : Mutex) (now : ℕ) (d : String)
      (op : Operation)
      → run (new_manager config, free) cs ≡ returned (s, y)
      → verdict (authorize now d op (s, y)) ≡ some (false, s.sessions)
  unfolding new_manager IsIdle
  run-verdict config cs s y now d op e =
      let (i, q) = run-IsIdle cs (new_manager config) s y tt e in rw q (idle-verdict now d op s i)
