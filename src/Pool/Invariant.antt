-- ===== src/Pool/Invariant.antt =====
-- The capacity of the pool: no history of calls takes it past the configured maximum.
pub mod Calls
use cat_tag.Common.{
  ℕ, zero, suc, ◌+◌, ◌-◌, ◌≤◌, ◌<◌, ◌≡◌, ◌≢◌, refl, ◌∙◌, sym, ap, subst, ◌⊎◌, inl, inr, Bool, true,
  false, ℤ, pos, negsuc, to_ℕ, at_least, exceeds, excess, List, [], ◌∷◌, map, Option, none, some,
  if◌then◌else◌, String, length, take, length-take, filter_by, Map, lookup, insert, delete,
  lookup-delete, length-delete-lt, length-delete-le, length-insert_new, length-insert_old,
  insert-Distinct, delete-Distinct, insert-Entries, delete-Entries, lookup-Entries, values, All,
  Among, All-Among, Distinct, Entries, same, same_iff, same_refl, Option-cases, Bool-cases, arith,
}
use mathlib.Core.List.Perm
use cat_tag.Errors.{GoError}
use cat_tag.Pooled.{Connection, PooledConnection, Priority}
use cat_tag.Balancer.RoundRobin
use cat_tag.Pool.{
  Pool, Sort, ConnectionMetrics, precedes, evict, evict_all, make_room_for_new_connection,
  remove_excess_connections, admit, pooled, add_connection, remove_connection, get_connection, used,
  set_max_connections, set_connection_priority, select_connection_by_strategy, close, close_entries,
  get_stats, perform_maintenance, remove_listed, to_remove, should_remove,
  update_active_connections, new_connection_pool, is_active,
}
use cat_tag.Pool.Eviction.{
  Sorts, IsKeyed, Evictable, device_of, candidates-Evictable, take-Evictable, length-evict_all,
  IsVictim, AddOutcome, exists, has_room, no_room, makes_room, add_connection-AddOutcome,
}

-- Every connection is filed once, under its device.
pub record IsWellFormed (m : Map PooledConnection) : Type 0 where
  pub keyed : IsKeyed m
  pub distinct : Distinct m

pub record IsValid (p : Pool) : Type 0 where
  pub well_formed : IsWellFormed p.connections
  pub bounded : length p.connections ≤ to_ℕ p.max_connections

pub delete-IsWellFormed :
    (d : String) (m : Map PooledConnection) → IsWellFormed m → IsWellFormed (delete d m)
delete-IsWellFormed d m w = record {
  keyed = delete-Entries (λ k v. v.connection.device_id ≡ k) d m w.keyed;
  distinct = delete-Distinct d m w.distinct;
}

pub insert-IsWellFormed :
    (d : String) (v : PooledConnection) (m : Map PooledConnection)
    → v.connection.device_id ≡ d
    → IsWellFormed m
    → IsWellFormed (insert d v m)
insert-IsWellFormed d v m e w = record {
  keyed = insert-Entries (λ k v. v.connection.device_id ≡ k) d v m e w.keyed;
  distinct = insert-Distinct d v m w.distinct;
}

pub new_connection_pool-IsValid : (max : ℤ) → IsValid (new_connection_pool max)
unfolding new_connection_pool
new_connection_pool-IsValid max = record {
  well_formed = record { keyed = tt; distinct = tt };
  bounded = omega arith;
}

-- An entry that replaces one of the same key leaves the pool valid.
replace-IsValid :
    (p : Pool) (d : String) (v w : PooledConnection)
    → lookup d p.connections ≡ some w
    → v.connection ≡ w.connection
    → IsValid p
    → IsValid (record p { connections = insert d v p.connections })
replace-IsValid p d v w found same_conn i = record {
  well_formed =
      insert-IsWellFormed d v p.connections
        (ap (λ c. c.device_id) same_conn
          ∙ lookup-Entries (λ k u. u.connection.device_id ≡ k) d w p.connections found
              i.well_formed.keyed)
        i.well_formed;
  bounded = omega (arith, length-insert_old d v w p.connections found, i.bounded);
}

evict-IsWellFormed :
    (p : Pool) (v : PooledConnection)
    → IsWellFormed p.connections
    → IsWellFormed (evict p v).connections
unfolding evict
evict-IsWellFormed p v w = delete-IsWellFormed (device_of v) p.connections w

evict_all-IsWellFormed :
    (p : Pool) (vs : List PooledConnection)
    → IsWellFormed p.connections
    → IsWellFormed (evict_all p vs).connections
unfolding evict_all
evict_all-IsWellFormed p [] w = w
evict_all-IsWellFormed p (v ∷ vs) w =
    evict_all-IsWellFormed (evict p v) vs (evict-IsWellFormed p v w)

evict_all-max :
    (p : Pool) (vs : List PooledConnection) → (evict_all p vs).max_connections ≡ p.max_connections
unfolding evict_all evict
evict_all-max p [] = refl
evict_all-max p (v ∷ vs) = evict_all-max (evict p v) vs

admit-IsValid :
    (active : Connection → Bool) (now : ℕ) (p : Pool) (conn : Connection)
    → IsWellFormed p.connections
    → lookup conn.device_id p.connections ≡ none
    → length p.connections < to_ℕ p.max_connections
    → IsValid (admit active now p conn)
unfolding admit
admit-IsValid active now p conn w absent room = record {
  well_formed = insert-IsWellFormed conn.device_id (pooled p now conn) p.connections refl w;
  bounded =
      omega (arith, length-insert_new conn.device_id (pooled p now conn) p.connections absent);
}

evict-lt :
    (p : Pool) (v : PooledConnection)
    → lookup (device_of v) p.connections ≢ none
    → length (evict p v).connections < length p.connections
unfolding evict
evict-lt p v filed = elim (Option-cases (lookup (device_of v) p.connections)) [
  | inl missing ↦ absurd (filed missing)
  | inr (w, found) ↦ length-delete-lt (device_of v) w p.connections found
]

evict-absent :
    (p : Pool) (v : PooledConnection) (d : String)
    → lookup d p.connections ≡ none
    → lookup d (evict p v).connections ≡ none
unfolding evict
evict-absent p v d absent = ground (arith, lookup-delete (device_of v) d p.connections)

evict-max : (p : Pool) (v : PooledConnection) → (evict p v).max_connections ≡ p.max_connections
unfolding evict
evict-max p v = refl

at_least-empty : (m : ℤ) → at_least 0 m ≡ true → to_ℕ m ≡ 0
at_least-empty (pos n) h = ground arith
at_least-empty (negsuc n) h = refl

room : (n : ℕ) (m : ℤ) → at_least n m ≡ false → n < to_ℕ m
room n (pos m) h = ground arith
room n (negsuc m) h = ground arith

module _ (sort : Sort) (sorts : Sorts sort) where
  module _ (active : Connection → Bool) (now : ℕ) where
    add_connection-IsValid :
        (p : Pool) (conn : Connection)
        → IsValid p
        → IsValid (add_connection sort active now p conn).0
    add_connection-IsValid p conn i = keeps (
        add_connection-AddOutcome sort active now p conn sorts i.well_formed.keyed
          i.well_formed.distinct)
      where
        keeps : {r : Pool × Option GoError} → AddOutcome active now p conn r → IsValid r.0
        keeps (exists w found e) = rw e i
        keeps (has_room absent free e) =
            rw e (admit-IsValid active now p conn i.well_formed absent (room _ _ free))
        keeps (no_room absent full nobody e) = rw e i
        keeps (makes_room v absent full victim e) = rw e (
            admit-IsValid active now (evict p v) conn (evict-IsWellFormed p v i.well_formed)
              (evict-absent p v conn.device_id absent)
              (rw (evict-max p v) (omega (arith, evict-lt p v victim.filed, i.bounded))))
