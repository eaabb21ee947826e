-- ===== src/Pool/Order.antt =====
-- Which connection `makeRoomForNewConnection` of connection_pool.go gives up.
use mathlib.Core.List.{Mem}
use cat_tag.Common.{
  ℕ, ◌≤◌, ◌<◌, ◌≡◌, Bool, true, false, ltb, length, values, at_least, none, Bool-cases, inl, inr,
  arith,
}
use cat_tag.Pooled.{Connection, PooledConnection}
use cat_tag.Pool.{Pool, Sort, precedes, add_connection}
use cat_tag.Pool.Eviction.{Sorts}
use cat_tag.Pool.Invariant.{IsValid}
use cat_tag.Pool.Entries.{Replaced, add_connection-evicts}

-- `v` is no more important than `w`: by its priority, then its health, then its use.
pub data NoMoreImportant (v w : PooledConnection) : Type 0 where
  by_priority : v.priority < w.priority → NoMoreImportant v w
  by_health : v.priority ≡ w.priority → v.health_score < w.health_score → NoMoreImportant v w
  by_use :
      v.priority ≡ w.priority
      → v.health_score ≡ w.health_score
      → v.use_count ≤ w.use_count
      → NoMoreImportant v w

precedes-NoMoreImportant : (v w : PooledConnection) → precedes w v ≡ false → NoMoreImportant v w
unfolding precedes
precedes-NoMoreImportant v w e = elim (Bool-cases (ltb v.priority w.priority)) [
  | inl p ↦ by_priority (ground arith)
  | inr p ↦ elim (Bool-cases (ltb v.health_score w.health_score)) [
    | inl h ↦ by_health (ground arith) (ground arith)
    | inr h ↦ by_use (ground arith) (ground arith) (ground arith)
  ]
]

-- When a valid, full pool takes a connection, with a sort that sorts, the entry that is closed and
-- goes is one that it held and that is no more important than any other: none has a lower priority,
-- none of the same priority a poorer health, and none of the same priority and health less use.
pub add_connection-evicts_least :
    (sort : Sort) (sorts : Sorts sort) (active : Connection → Bool) (now : ℕ) (p : Pool)
    (conn : Connection)
    → IsValid p
    → at_least (length p.connections) p.max_connections ≡ true
    → (add_connection sort active now p conn).1 ≡ none
    → (v : PooledConnection) × Replaced now p conn v (add_connection sort active now p conn).0
      × Mem v (values p.connections)
      × ((w : PooledConnection) → Mem w (values p.connections) → NoMoreImportant v w)
add_connection-evicts_least sort sorts active now p conn i full added =
    let (v, r) = add_connection-evicts sort sorts active now p conn i full added in
    (v, r, r.victim.held, λ w m. precedes-NoMoreImportant v w (r.victim.least w m))
