-- ===== src/Pooled.antt =====
-- `PooledConnection` of pkg/bluetooth/connection_pool.go, and the `Connection` inside it. What a
-- connection's `IsActive` and `GetMetrics` answer is a function that each operation is given; a
-- health score is a `float64` between 0 and 1, held here in thousandths, and only compared.
use cat_tag.Common.{ℕ, String}

pub record Connection : Type 0 where
  pub id : String
  pub device_id : String

-- `Priority` of constants.go: low 0, normal 1, high 2, critical 3.
abbrev pub Priority : Type 0
Priority = ℕ

abbrev pub priority_normal : Priority
priority_normal = 1

pub record PooledConnection : Type 0 where
  pub connection : Connection
  pub priority : Priority
  pub created_at : ℕ
  pub last_used : ℕ
  pub use_count : ℕ  -- uint64
  pub weight : ℕ
  pub health_score : ℕ

abbrev pub u64_mod : ℕ
u64_mod = 18446744073709551616

abbrev pub full_health : ℕ
full_health = 1000
