-- ===== src/Balancer/HealthBased.antt =====
-- `HealthBasedBalancer` of load_balancer.go. Scores are in thousandths; `maxHealthScore` starts at -1.
use cat_tag.Common.{
  ℕ, ◌≡◌, ℤ, pos, negsuc, exceeds, List, [], ◌∷◌, Option, none, some, if◌then◌else◌, ltb, leb,
  String, Map, lookup, insert, lookup-insert, same, arith,
}
use cat_tag.Pooled.{PooledConnection, full_health}

pub record HealthBasedBalancer : Type 0 where
  pub health_scores : Map ℕ

unfoldable pub new_health_based_balancer : HealthBasedBalancer
new_health_based_balancer = record { health_scores = [] }

-- The stored score of the connection's device, or else its own.
unfoldable pub effective_score : HealthBasedBalancer → PooledConnection → ℕ
effective_score b c = elim (lookup c.connection.device_id b.health_scores) [
  | some stored ↦ stored
  | none ↦ c.health_score
]

unfoldable pub health_loop :
    HealthBasedBalancer
    → Option PooledConnection
    → ℤ
    → List PooledConnection
    → Option PooledConnection
health_loop b selected best [] = selected
health_loop b selected best (c ∷ cs) =
    let score = effective_score b c in
    health_loop b (if exceeds score best then some c else selected)
      (if exceeds score best then pos score else best) cs

unfoldable pub select_connection :
    HealthBasedBalancer → List PooledConnection → Option PooledConnection
unfolding health_loop
select_connection b [] = none
select_connection b (c ∷ cs) = health_loop b none (negsuc 999) (c ∷ cs)

-- A new score is cut to the range from 0 to 1.
unfoldable pub update_health_score : HealthBasedBalancer → String → ℤ → HealthBasedBalancer
update_health_score b device (negsuc n) = record { health_scores = insert device 0 b.health_scores }
update_health_score b device (pos n) = record {
  health_scores = insert device (if ltb full_health n then full_health else n) b.health_scores;
}

unfoldable pub get_health_score : HealthBasedBalancer → String → ℕ
get_health_score b device = elim (lookup device b.health_scores) [
  | some score ↦ score
  | none ↦ full_health
]

module _ (b : HealthBasedBalancer) where
  -- A score brought into the range: below it 0, above it the full health.
  abbrev pub clamped : ℤ → ℕ
  clamped (negsuc n) = 0
  clamped (pos n) = if leb n full_health then n else full_health

  -- After an update every device has the score that it had, but for the one that was updated, whose
  -- score is the new one, brought into the range from 0 to the full health.
  pub get-update_health_score :
      (device other : String) (score : ℤ)
      → get_health_score (update_health_score b device score) other
        ≡ (if same device other then clamped score else get_health_score b other)
  unfolding get_health_score update_health_score
  get-update_health_score device other (pos n) = ground (
    arith,
    lookup-insert device other (if ltb full_health n then full_health else n) b.health_scores,
  )
  get-update_health_score device other (negsuc n) =
      ground (arith, lookup-insert device other 0 b.health_scores)
