-- ===== src/Pool.antt =====
-- `ConnectionPoolImpl` of pkg/bluetooth/connection_pool.go. A method is one step, since it holds the
-- mutex. Times are nanoseconds; `active` and `metrics` are what `IsActive` and `GetMetrics` answer
-- during the call, `sort` is `sort.Slice` and the order of a map is that of a range loop over it.
-- `closed` records the connections whose `Close` was called, the latest first.
pub mod Eviction
pub mod Invariant
pub mod Entries
pub mod Maintenance
pub mod Order
use cat_tag.Common.{
  ℕ, zero, suc, ◌+◌, ◌-◌, ◌*◌, ◌/◌, ◌%◌, ◌≡◌, ℤ, at_least, exceeds, excess, Bool, true, false, not,
  ◌&&◌, ◌||◌, List, [], ◌∷◌, ◌++◌, Option, none, some, if◌then◌else◌, ltb, ◌==◌, String, length,
  take, filter_by, Map, lookup, insert, delete, values, map, map,
}
use cat_tag.Errors.{
  GoError, Result, ok, err, new_bluetooth_error, already_exists, resource_busy, not_found, general,
}
use cat_tag.Pooled.{Connection, PooledConnection, Priority, priority_normal, u64_mod, full_health}
use cat_tag.Balancer.RoundRobin.{RoundRobinBalancer, new_round_robin_balancer}
use cat_tag.Balancer.RoundRobin

pub record ConnectionMetrics : Type 0 where
  pub bytes_sent : ℕ
  pub bytes_received : ℕ
  pub messages_sent : ℕ
  pub messages_recv : ℕ
  pub latency : ℕ
  pub error_count : ℕ
  pub connected_at : ℕ
  pub last_activity : ℕ

-- `error_rate` is the quotient that the code computes, as its two numbers.
pub record PoolStats : Type 0 where
  pub active_connections : ℕ
  pub total_connections : ℕ
  pub max_connections : ℤ
  pub average_latency : ℕ
  pub total_bytes_transferred : ℕ
  pub error_rate : ℕ × ℕ

pub record LifecycleManager : Type 0 where
  pub max_idle_time : ℕ
  pub max_lifetime : ℕ

pub record Pool : Type 0 where
  pub connections : Map PooledConnection
  pub max_connections : ℤ
  pub stats : PoolStats
  pub priorities : Map Priority
  pub load_balancer : RoundRobinBalancer
  pub lifecycle : LifecycleManager
  pub closed : List Connection

abbrev pub minute : ℕ
minute = 60000000000

unfoldable pub new_connection_pool : ℤ → Pool
unfolding new_round_robin_balancer
new_connection_pool max = record {
  connections = [];
  max_connections = max;
  stats = record {
    active_connections = 0;
    total_connections = 0;
    max_connections = max;
    average_latency = 0;
    total_bytes_transferred = 0;
    error_rate = (0, 1);
  };
  priorities = [];
  load_balancer = new_round_robin_balancer;
  lifecycle = record { max_idle_time = 30 * minute; max_lifetime = 120 * minute };
  closed = [];
}

-- The order of the candidates: low priority first, then poor health, then little use.
unfoldable pub precedes : PooledConnection → PooledConnection → Bool
precedes a b =
    if not (a.priority == b.priority)
    then ltb a.priority b.priority
    else if not (a.health_score == b.health_score)
    then ltb a.health_score b.health_score
    else ltb a.use_count b.use_count

-- `pooledConn.Connection.Close()` and `delete(p.connections, deviceID)`
abbrev pub drop_entry : Pool → String → PooledConnection → Pool
drop_entry p device v = record p {
  connections = delete device p.connections;
  closed = v.connection ∷ p.closed;
}

unfoldable pub evict : Pool → PooledConnection → Pool
evict p v = drop_entry p v.connection.device_id v

unfoldable pub evict_all : Pool → List PooledConnection → Pool
evict_all p [] = p
evict_all p (v ∷ vs) = evict_all (evict p v) vs

abbrev pub Sort : Type 0
Sort = (PooledConnection → PooledConnection → Bool) → List PooledConnection → List PooledConnection

unfoldable pub make_room_for_new_connection : Sort → Pool → Pool × Bool
make_room_for_new_connection sort p = elim (sort precedes (values p.connections)) [
  | [] ↦ (p, false)
  | v ∷ vs ↦ (evict p v, true)
]

unfoldable pub remove_excess_connections : Sort → Pool → ℕ → Pool
remove_excess_connections sort p count =
    evict_all p (take count (sort precedes (values p.connections)))

abbrev pub is_active : (Connection → Bool) → PooledConnection → Bool
is_active active v = active v.connection

unfoldable pub update_active_connections : (Connection → Bool) → Pool → Pool
update_active_connections active p = record p {
  stats = record (p.stats) {
    active_connections = length (filter_by (is_active active) (values p.connections));
  };
}

abbrev pub priority_or_normal : Option Priority → Priority
priority_or_normal none = priority_normal
priority_or_normal (some q) = q

unfoldable pub pooled : Pool → ℕ → Connection → PooledConnection
pooled p now conn = record {
  connection = conn;
  priority = priority_or_normal (lookup conn.device_id p.priorities);
  created_at = now;
  last_used = now;
  use_count = 0;
  weight = 1;
  health_score = full_health;
}

-- The end of `AddConnection`: the new entry, and the statistics.
unfoldable pub admit : (Connection → Bool) → ℕ → Pool → Connection → Pool
unfolding update_active_connections pooled
admit active now p conn = update_active_connections active (record p {
  connections = insert conn.device_id (pooled p now conn) p.connections;
  stats = record (p.stats) { total_connections = p.stats.total_connections + 1 };
})

unfoldable pub add_connection :
    Sort → (Connection → Bool) → ℕ → Pool → Connection → Pool × Option GoError
add_connection sort active now p conn = elim (lookup conn.device_id p.connections) [
  | some _ ↦ (p, some (new_bluetooth_error already_exists))
  | none ↦
      if at_least (length p.connections) p.max_connections
      then (let (q, made) = make_room_for_new_connection sort p in
          if made
          then (admit active now q conn, none)
          else (q, some (new_bluetooth_error resource_busy)))
      else (admit active now p conn, none)
]

unfoldable pub remove_connection : (Connection → Bool) → Pool → String → Pool × Option GoError
unfolding update_active_connections
remove_connection active p device = elim (lookup device p.connections) [
  | none ↦ (p, some (new_bluetooth_error not_found))
  | some v ↦ (update_active_connections active (drop_entry p device v), none)
]

-- `lastUsed = time.Now()` and `useCount++`
abbrev pub used : ℕ → PooledConnection → PooledConnection
used now v = record v { last_used = now; use_count = (v.use_count + 1) % u64_mod }

unfoldable pub get_connection : ℕ → Pool → String → Pool × Result Connection
get_connection now p device = elim (lookup device p.connections) [
  | none ↦ (p, err (new_bluetooth_error not_found))
  | some v ↦ (record p { connections = insert device (used now v) p.connections }, ok v.connection)
]

abbrev pub connection_of : PooledConnection → Connection
connection_of v = v.connection

unfoldable pub get_all_connections : Pool → List Connection
get_all_connections p = map connection_of (values p.connections)

unfoldable pub set_max_connections : Sort → Pool → ℤ → Pool
unfolding remove_excess_connections
set_max_connections sort p max =
    let q : Pool = record p {
      max_connections = max;
      stats = record (p.stats) { max_connections = max };
    } in
    if exceeds (length q.connections) max
    then remove_excess_connections sort q (excess (length q.connections) max)
    else q

unfoldable pub set_connection_priority : Pool → String → Priority → Pool
set_connection_priority p device priority =
    let q : Pool = record p { priorities = insert device priority p.priorities } in
    elim (lookup device p.connections) [
      | none ↦ q
      | some v ↦ record q {
        connections = insert device (record v { priority = priority }) p.connections;
      }
    ]

unfoldable pub get_connections_by_priority : Pool → Priority → List Connection
get_connections_by_priority p priority =
    map connection_of (filter_by (λ v. v.priority == priority) (values p.connections))

abbrev pub no_connection {ℓ} : {A : Type ℓ} → Result A
no_connection = err (new_bluetooth_error not_found)

unfoldable pub select_connection_by_strategy :
    (Connection → Bool) → ℕ → Pool → Pool × Result Connection
select_connection_by_strategy active now p =
    elim (filter_by (is_active active) (values p.connections)) [
      | [] ↦ (p, no_connection)
      | c ∷ cs ↦
          let (balancer, selected) = RoundRobin.select_connection p.load_balancer (c ∷ cs) in
          elim selected [
            | none ↦ (record p { load_balancer = balancer }, err (new_bluetooth_error general))
            | some v ↦ (
              record p {
                load_balancer = balancer;
                connections = insert v.connection.device_id (used now v) p.connections;
              },
              ok v.connection,
            )
          ]
    ]

-- The loop of `Close` closes every connection and deletes its key.
unfoldable pub close_entries : Pool → Map PooledConnection → Pool
close_entries p [] = p
close_entries p ((device, v) ∷ m) = close_entries (drop_entry p device v) m

unfoldable pub close : Pool → Pool
unfolding close_entries
close p = close_entries p p.connections

abbrev total_of :
    (ConnectionMetrics → ℕ) → (Connection → ConnectionMetrics) → List PooledConnection → ℕ
total_of field metrics [] = 0
total_of field metrics (v ∷ vs) =
    (field (metrics v.connection) + total_of field metrics vs) % u64_mod

-- A sum of durations: no wrap-around is modelled.
abbrev total_latency : (Connection → ConnectionMetrics) → List PooledConnection → ℕ
total_latency metrics [] = 0
total_latency metrics (v ∷ vs) = (metrics v.connection).latency + total_latency metrics vs

unfoldable pub update_stats :
    (Connection → Bool) → (Connection → ConnectionMetrics) → Pool → PoolStats
update_stats active metrics p =
    let live = filter_by (is_active active) (values p.connections) in
    let count = length live in
    let errors = total_of (λ m. m.error_count) metrics live in
    let messages = total_of (λ m. m.messages_sent + m.messages_recv) metrics live in
    let latency = total_latency metrics live in
    record (p.stats) {
      active_connections = count;
      total_bytes_transferred = total_of (λ m. m.bytes_sent + m.bytes_received) metrics live;
      average_latency = if count == 0 then p.stats.average_latency else latency / count;
      error_rate = if count == 0 || messages == 0 then p.stats.error_rate else (errors, messages);
    }

unfoldable pub get_stats :
    (Connection → Bool) → (Connection → ConnectionMetrics) → Pool → Pool × PoolStats
unfolding update_stats
get_stats active metrics p =
    let stats = update_stats active metrics p in (record p { stats = stats }, stats)

-- The three tests of `performMaintenance`; `now.Sub(t) > d` is `t + d < now`.
unfoldable pub should_remove : (Connection → Bool) → ℕ → LifecycleManager → PooledConnection → Bool
should_remove active now l v =
    ltb (v.last_used + l.max_idle_time) now
    || ltb (v.created_at + l.max_lifetime) now
    || not (active v.connection)

-- The keys that the first loop collects.
unfoldable pub to_remove : (PooledConnection → Bool) → Map PooledConnection → List String
to_remove drop [] = []
to_remove drop ((device, v) ∷ m) =
    let rest = to_remove drop m in if drop v then device ∷ rest else rest

-- A round of the second loop: look the key up again, close its connection and delete it.
unfoldable pub remove_if_present : Pool → String → Pool
remove_if_present p device = elim (lookup device p.connections) [
  | none ↦ p
  | some v ↦ drop_entry p device v
]

unfoldable pub remove_listed : Pool → List String → Pool
remove_listed p [] = p
remove_listed p (device ∷ devices) = remove_listed (remove_if_present p device) devices

unfoldable pub perform_maintenance : (Connection → Bool) → ℕ → Pool → Pool
unfolding update_active_connections
perform_maintenance active now p =
    update_active_connections active
      (remove_listed p (to_remove (should_remove active now p.lifecycle) p.connections))
