-- ===== src/Pool/Entries.antt =====
-- What the calls of the pool do to its entries.
use cat_tag.Common.{
  ℕ, ◌≡◌, ◌≢◌, refl, ap, ◌∙◌, ◌⊎◌, Bool, true, false, ℤ, pos, negsuc, is_positive, at_least, [],
  ◌∷◌, Option, none, some, if◌then◌else◌, String, length, values, Map, lookup, delete,
  lookup-delete, lookup-insert, Among, same, same_refl, Option-cases, Bool-cases, inl, inr, arith,
}
use cat_tag.Errors.{GoError, ok, err, new_bluetooth_error, not_found}
use cat_tag.Pooled.{Connection, PooledConnection}
use cat_tag.Pool.{
  Pool, Sort, add_connection, admit, pooled, evict, remove_connection, get_connection, close,
  close_entries, drop_entry,
}
use cat_tag.Pool.Eviction.{
  Sorts, device_of, IsVictim, AddOutcome, exists, has_room, no_room, makes_room,
  add_connection-AddOutcome,
}
use cat_tag.Pool.Invariant.{IsValid}

admitted :
    (active : Connection → Bool) (now : ℕ) (p : Pool) (conn : Connection) (d : String)
    → lookup d (admit active now p conn).connections
      ≡ (if same conn.device_id d then some (pooled p now conn) else lookup d p.connections)
unfolding admit
admitted active now p conn d = lookup-insert conn.device_id d (pooled p now conn) p.connections

finds :
    (now : ℕ) (p : Pool) (d : String) (v : PooledConnection)
    → lookup d p.connections ≡ some v
    → (get_connection now p d).1 ≡ ok v.connection
unfolding get_connection
finds now p d v e = rw (e, get_connection)

finds_admitted :
    (active : Connection → Bool) (now later : ℕ) (p : Pool) (conn : Connection)
    → (get_connection later (admit active now p conn) conn.device_id).1 ≡ ok conn
unfolding pooled
finds_admitted active now later p conn =
    finds later (admit active now p conn) conn.device_id (pooled p now conn)
      (ground (arith, admitted active now p conn conn.device_id, same_refl conn.device_id))

-- The pool after the eviction of `v` for `conn`.
pub record Replaced (now : ℕ) (p : Pool) (conn : Connection) (v : PooledConnection) (q : Pool)
    : Type 0 where
  pub victim : IsVictim p v
  pub closes : q.closed ≡ v.connection ∷ p.closed
  pub entries :
      (d : String)
      → lookup d q.connections ≡ (
          if same conn.device_id d
          then some (pooled p now conn)
          else if same (device_of v) d
          then none
          else lookup d p.connections)

replaced :
    (active : Connection → Bool) (now : ℕ) (p : Pool) (conn : Connection) (v : PooledConnection)
    → IsVictim p v
    → Replaced now p conn v (admit active now (evict p v) conn)
unfolding admit evict pooled
replaced active now p conn v victim = record {
  victim = victim;
  closes = refl;
  entries = λ d.
      admitted active now (evict p v) conn d
      ∙ ap (λ o. if same conn.device_id d then some (pooled p now conn) else o)
          (lookup-delete (device_of v) d p.connections);
}

module _ (sort : Sort) (sorts : Sorts sort) (active : Connection → Bool) (now : ℕ) where
  outcome :
      (p : Pool) (conn : Connection)
      → IsValid p
      → AddOutcome active now p conn (add_connection sort active now p conn)
  outcome p conn i =
      add_connection-AddOutcome sort active now p conn sorts i.well_formed.keyed
        i.well_formed.distinct

  -- A connection that was added to a valid pool, with a sort that sorts, is the one that the pool returns for its device.
  pub get-add_connection :
      (p : Pool) (conn : Connection) (later : ℕ)
      → IsValid p
      → (add_connection sort active now p conn).1 ≡ none
      → (get_connection later (add_connection sort active now p conn).0 conn.device_id).1 ≡ ok conn
  get-add_connection p conn later i added = found (outcome p conn i) added
    where
      found :
          {r : Pool × Option GoError}
          → AddOutcome active now p conn r
          → r.1 ≡ none
          → (get_connection later r.0 conn.device_id).1 ≡ ok conn
      found (exists w f e) a = cc (ap (λ t. t.1) e)
      found (has_room absent free e) a = rw e (finds_admitted active now later p conn)
      found (no_room absent full nobody e) a = cc (ap (λ t. t.1) e)
      found (makes_room v absent full victim e) a =
          rw e (finds_admitted active now later (evict p v) conn)

  -- A valid pool with a positive maximum, and a sort that sorts, takes every device that it does not have: it never answers that
  -- it is full.
  pub add_connection-accepts :
      (p : Pool) (conn : Connection)
      → IsValid p
      → is_positive p.max_connections ≡ true
      → lookup conn.device_id p.connections ≡ none
      → (add_connection sort active now p conn).1 ≡ none
  add_connection-accepts p conn i positive absent = accepted (outcome p conn i)
    where
      not_full : (m : ℤ) → is_positive m ≡ true → at_least 0 m ≡ true → ⊥
      not_full (pos n) a b = ground arith
      not_full (negsuc n) a b = cc

      accepted : {r : Pool × Option GoError} → AddOutcome active now p conn r → r.1 ≡ none
      accepted (exists w f e) = cc
      accepted (has_room _ free e) = ap (λ t. t.1) e
      accepted (no_room _ full nobody e) =
          absurd (not_full p.max_connections positive (rw (ap length nobody) at full))
      accepted (makes_room v _ full victim e) = ap (λ t. t.1) e

  -- When a valid, full pool takes a connection, with a sort that sorts, one entry that no other precedes is closed and goes, the
  -- new one comes, and every other entry stays as it is.
  pub add_connection-evicts :
      (p : Pool) (conn : Connection)
      → IsValid p
      → at_least (length p.connections) p.max_connections ≡ true
      → (add_connection sort active now p conn).1 ≡ none
      → (v : PooledConnection) × Replaced now p conn v (add_connection sort active now p conn).0
  add_connection-evicts p conn i full added = evicts (outcome p conn i) added
    where
      evicts :
          {r : Pool × Option GoError}
          → AddOutcome active now p conn r
          → r.1 ≡ none
          → (v : PooledConnection) × Replaced now p conn v r.0
      evicts (exists w f e) a = cc (ap (λ t. t.1) e)
      evicts (has_room _ free e) a = cc
      evicts (no_room _ _ nobody e) a = cc (ap (λ t. t.1) e)
      evicts (makes_room v _ _ victim e) a = rw e (v, replaced active now p conn v victim)

-- A connection that was removed is closed, and the pool does not find its device again.
pub get-remove_connection :
    (active : Connection → Bool) (p : Pool) (d : String) (later : ℕ)
    → (remove_connection active p d).1 ≡ none
    → let q = (remove_connection active p d).0 in
      (get_connection later q d ≡ (q, err (new_bluetooth_error not_found)))
      × ((v : PooledConnection) × (lookup d p.connections ≡ some v)
          × (q.closed ≡ v.connection ∷ p.closed))
unfolding remove_connection get_connection
get-remove_connection active p d later e = elim (Option-cases (lookup d p.connections)) [
  | inl missing ↦ ground arith
  | inr (v, found) ↦
      (ground (arith, lookup-delete d d p.connections, same_refl d), (v, found, ground arith))
]

-- `Close` closes every connection.
close_entries-closed :
    (p : Pool) (m : Map PooledConnection) (c : Connection)
    → Among c p.closed
    → Among c (close_entries p m).closed
unfolding close_entries
close_entries-closed p [] c h = h
close_entries-closed p ((d, v) ∷ m) c h = close_entries-closed (drop_entry p d v) m c (inr h)

close_entries-all :
    (p : Pool) (m : Map PooledConnection) (v : PooledConnection)
    → Among v (values m)
    → Among v.connection (close_entries p m).closed
unfolding close_entries
close_entries-all p [] v h = absurd h
close_entries-all p ((d, w) ∷ m) v (inl e) =
    close_entries-closed (drop_entry p d w) m v.connection (inl (ap (λ u. u.connection) e))
close_entries-all p ((d, w) ∷ m) v (inr h) = close_entries-all (drop_entry p d w) m v h

lookup-close_entries :
    (p : Pool) (m : Map PooledConnection) (d : String)
    → lookup d p.connections ≡ none
    → lookup d (close_entries p m).connections ≡ none
unfolding close_entries
lookup-close_entries p [] d e = e
lookup-close_entries p ((k, v) ∷ m) d e =
    lookup-close_entries (drop_entry p k v) m d (ground (arith, lookup-delete k d p.connections))

lookup-close_entries_all :
    (p : Pool) (m : Map PooledConnection) (d : String)
    → ((lookup d p.connections ≡ none) ⊎ (lookup d m ≢ none))
    → lookup d (close_entries p m).connections ≡ none
unfolding close_entries lookup
lookup-close_entries_all p [] d (inl e) = e
lookup-close_entries_all p [] d (inr h) = absurd (h refl)
lookup-close_entries_all p ((k, v) ∷ m) d h = elim (Bool-cases (same k d)) [
  | inl hit ↦
      lookup-close_entries (drop_entry p k v) m d (ground (arith, lookup-delete k d p.connections))
  | inr miss ↦ lookup-close_entries_all (drop_entry p k v) m d (goes_on h miss)
]
  where
    goes_on :
        ((lookup d p.connections ≡ none) ⊎ (lookup d ((k, v) ∷ m) ≢ none))
        → same k d ≡ false
        → (lookup d (delete k p.connections) ≡ none) ⊎ (lookup d m ≢ none)
    goes_on (inl e) miss = inl (ground (arith, lookup-delete k d p.connections))
    goes_on (inr f) miss = inr (λ e. f (ground arith))

-- After `Close` the pool finds no device, and every connection that it had was closed: `v` is any of
-- its entries.
pub close-empties :
    (p : Pool) (d : String) (v : PooledConnection)
    → Among v (values p.connections)
    → (lookup d (close p).connections ≡ none) × Among v.connection (close p).closed
unfolding close
close-empties p d v h = (
  lookup-close_entries_all p p.connections d (present (Option-cases (lookup d p.connections))),
  close_entries-all p p.connections v h,
)
  where
    present :
        {o : Option PooledConnection}
        → (o ≡ none) ⊎ ((v : PooledConnection) × (o ≡ some v))
        → (o ≡ none) ⊎ (o ≢ none)
    present (inl e) = inl e
    present (inr (v, e)) = inr (λ f. cc)
