-- ===== src/Balancer.antt =====
-- The balancers of pkg/bluetooth/load_balancer.go: round robin, weighted, least used, and by health.
-- `math/rand` is an argument: the number that `rand.Intn` returned.
pub mod RoundRobin
pub mod Weighted
pub mod LeastUsed
pub mod HealthBased
