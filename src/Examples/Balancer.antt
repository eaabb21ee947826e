-- ===== src/Examples/Balancer.antt =====
-- The balancers on three connections.
use cat_tag.Common.{
  ℕ, ◌-◌, ◌<◌, ◌≤◌, ◌≡◌, ◌⊎◌, refl, List, [], ◌∷◌, none, some, String, All, Among, lookup, arith,
}
use cat_tag.Pooled.{PooledConnection, u64_mod}
use cat_tag.Balancer.RoundRobin.{RoundRobinBalancer, select_times, select_times_round}
use cat_tag.Balancer.Weighted
use cat_tag.Balancer.Weighted.{
  WeightedBalancer, new_weighted_balancer, weight_sum, selected, panicked, int_end,
  select_connection-panicked, Stretch, select_connection-Stretch,
}
use cat_tag.Balancer.HealthBased
use cat_tag.Balancer.HealthBased.{HealthBasedBalancer}
use cat_tag.Balancer.LeastUsed
use cat_tag.Balancer.LeastUsed.{select_connection-least}

abbrev pub entry : String → ℕ → ℕ → ℕ → PooledConnection
entry device priority uses health = record {
  connection = record { id = device; device_id = device };
  priority = priority;
  created_at = 0;
  last_used = 0;
  use_count = uses;
  weight = 2;
  health_score = health;
}

abbrev three : List PooledConnection
three = entry "a" 1 5 900 ∷ entry "b" 1 3 400 ∷ entry "c" 2 8 1000 ∷ []

abbrev at_one : RoundRobinBalancer
at_one = record { current = 1 }

select_times_round_example :
    (select_times 3 at_one three).1
    ≡ entry "b" 1 3 400 ∷ entry "c" 2 8 1000 ∷ entry "a" 1 5 900 ∷ []
select_times_round_example = select_times_round at_one three

three_weight : weight_sum new_weighted_balancer three ≡ 6
unfolding weight_sum Weighted.get_connection_weight new_weighted_balancer lookup
three_weight = refl

-- Two weights of 2^62, which `UpdateWeight` takes.
abbrev heavy : WeightedBalancer
heavy = record { weights = ("a", 4611686018427387904) ∷ ("b", 4611686018427387904) ∷ [] }

abbrev two : List PooledConnection
two = entry "a" 1 5 900 ∷ entry "b" 1 3 400 ∷ []

heavy_weight : weight_sum heavy two ≡ int_end
unfolding weight_sum Weighted.get_connection_weight lookup
heavy_weight = refl

select_connection-panicked_example : Weighted.select_connection heavy 0 two ≡ panicked
select_connection-panicked_example =
    select_connection-panicked heavy 0 two (omega (arith, heavy_weight))
      (omega (arith, heavy_weight))

select_connection-Stretch_example :
    (c : PooledConnection) × (Weighted.select_connection new_weighted_balancer 3 three ≡ selected c)
    × Stretch new_weighted_balancer 3 c three
select_connection-Stretch_example =
    select_connection-Stretch new_weighted_balancer 3 three (omega (arith, three_weight))
      (omega (arith, three_weight))

abbrev Least : Type 0
Least =
    ((LeastUsed.select_connection three ≡ none) × All (λ c. u64_mod - 1 ≤ c.use_count) three)
    ⊎ ((c : PooledConnection) × (LeastUsed.select_connection three ≡ some c)
        × Among c three
        × (c.use_count < u64_mod - 1)
        × All (λ d. c.use_count ≤ d.use_count) three)

select_connection-least_example : Least
select_connection-least_example = select_connection-least three

-- A report of the connection "c" takes its health down.
abbrev sick : HealthBasedBalancer
sick = record { health_scores = ("c", 100) ∷ [] }
