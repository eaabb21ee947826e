-- ===== src/Balancer/Weighted.antt =====
-- `WeightedBalancer` of load_balancer.go. `random` is what `rand.Intn(n)` returned, a number below n.
use cat_tag.Common.{
  ℕ, zero, suc, ◌+◌, ◌%◌, ◌&&◌, Bool, not, leb, ◌≤◌, ◌<◌, ◌≡◌, refl, ap, inl, inr, ℤ, pos, negsuc,
  List, [], ◌∷◌, ◌++◌, Option, none, some, if◌then◌else◌, ltb, ◌==◌, get_elem?, String, Map, lookup,
  insert, delete, arith, Bool-cases,
}
use cat_tag.Pooled.{PooledConnection, u64_mod}

pub record WeightedBalancer : Type 0 where
  pub weights : Map ℕ

unfoldable pub new_weighted_balancer : WeightedBalancer
new_weighted_balancer = record { weights = [] }

unfoldable pub update_weight : WeightedBalancer → String → ℤ → WeightedBalancer
update_weight b device (negsuc n) = record { weights = delete device b.weights }
update_weight b device (pos zero) = record { weights = delete device b.weights }
update_weight b device (pos (suc n)) = record { weights = insert device (suc n) b.weights }

unfoldable pub get_connection_weight : WeightedBalancer → PooledConnection → ℕ
get_connection_weight b c = elim (lookup c.connection.device_id b.weights) [
  | some weight ↦ weight
  | none ↦ c.weight
]

-- 2^63
abbrev pub int_end : ℕ
int_end = 9223372036854775808

-- What `SelectConnection` comes to: a connection or nil, or the panic of `rand.Intn`.
pub data Selected : Type 0 where
  selected : PooledConnection → Selected
  no_connection : Selected
  panicked : Selected

abbrev from_option : Option PooledConnection → Selected
from_option none = no_connection
from_option (some c) = selected c

-- A Go `int`, of a platform of 64 bits, is held as its bits, and negative from 2^63 on.
abbrev pub is_negative : ℕ → Bool
is_negative n = leb int_end n

module _ (b : WeightedBalancer) where
  -- The first loop.
  unfoldable pub total_weight : ℕ → List PooledConnection → ℕ
  total_weight total [] = total
  total_weight total (c ∷ cs) = total_weight ((total + get_connection_weight b c) % u64_mod) cs

  -- The second loop, with `currentWeight`, for a `random` that is not negative; none means that it
  -- ran to the end.
  unfoldable pub pick_loop : ℕ → ℕ → List PooledConnection → Option PooledConnection
  pick_loop random current [] = none
  pick_loop random current (c ∷ cs) =
      let next = (current + get_connection_weight b c) % u64_mod in
      let rest = pick_loop random next cs in
      if not (is_negative next) && ltb random next then some c else rest

  abbrev or_first : Option PooledConnection → PooledConnection → PooledConnection
  or_first none first = first
  or_first (some c) first = c

  unfoldable pub select_connection : ℕ → List PooledConnection → Selected
  unfolding total_weight pick_loop
  select_connection random [] = no_connection
  select_connection random (c ∷ cs) =
      let total = total_weight 0 (c ∷ cs) in
      if total == 0
      then from_option (get_elem? (c ∷ cs) random)
      else if is_negative total
      then panicked
      else selected (or_first (pick_loop random 0 (c ∷ cs)) c)

  -- The sum of the weights as numbers.
  unfoldable pub weight_sum : List PooledConnection → ℕ
  weight_sum [] = 0
  weight_sum (c ∷ cs) = get_connection_weight b c + weight_sum cs

  -- `random` falls into the stretch of `c`: above the weights before it, below those up to it.
  pub record Stretch (random : ℕ) (c : PooledConnection) (cs : List PooledConnection) : Type 0 where
    pub before : List PooledConnection
    pub after : List PooledConnection
    pub parts : cs ≡ before ++ (c ∷ after)
    pub from : weight_sum before ≤ random
    pub to : random < weight_sum before + get_connection_weight b c

  total_weight-mod :
      (total : ℕ) (cs : List PooledConnection)
      → total < u64_mod
      → total_weight total cs ≡ (total + weight_sum cs) % u64_mod
  unfolding total_weight weight_sum
  total_weight-mod total [] h = omega arith
  total_weight-mod total (c ∷ cs) h =
      let next = (total + get_connection_weight b c) % u64_mod in
      let rest = total_weight-mod next cs (omega arith) in omega arith

  pick_loop-Stretch :
      (random current : ℕ) (cs : List PooledConnection)
      → current ≤ random
      → random < current + weight_sum cs
      → current + weight_sum cs < int_end
      → (c : PooledConnection) × (pick_loop random current cs ≡ some c)
        × (before after : List PooledConnection) × (cs ≡ before ++ (c ∷ after))
        × (current + weight_sum before ≤ random)
        × (random < current + weight_sum before + get_connection_weight b c)
  unfolding pick_loop weight_sum
  pick_loop-Stretch random current [] le lt fits = absurd (omega arith)
  pick_loop-Stretch random current (c ∷ cs) le lt fits =
      let whole : (current + get_connection_weight b c) % u64_mod
          ≡ current + get_connection_weight b c =
        omega arith in
      elim (Bool-cases (ltb random (current + get_connection_weight b c))) [
        | inl hit ↦ (c, rw whole (ground arith), [], cs, refl, omega arith, ground arith)
        | inr miss ↦
            let (d, e, before, after, parts, from, to) =
              pick_loop-Stretch random (current + get_connection_weight b c) cs (ground arith)
                (ground arith) (omega arith) in
            (
              d,
              rw whole (ground arith),
              c ∷ before,
              after,
              ap (◌∷◌ c) parts,
              omega arith,
              omega arith,
            )
      ]

  -- Where the weights together are below 2^63, the connection selected is the one into whose stretch
  -- of the total weight the random number falls.
  pub select_connection-Stretch :
      (random : ℕ) (cs : List PooledConnection)
      → random < weight_sum cs
      → weight_sum cs < int_end
      → (c : PooledConnection) × (select_connection random cs ≡ selected c) × Stretch random c cs
  unfolding select_connection weight_sum
  select_connection-Stretch random [] lt fits = absurd (omega arith)
  select_connection-Stretch random (c ∷ cs) lt fits =
      let (d, e, before, after, parts, from, to) =
        pick_loop-Stretch random 0 (c ∷ cs) (omega arith) (ground arith) (omega arith) in
      let total : total_weight 0 (c ∷ cs) ≡ weight_sum (c ∷ cs) =
        (let residue = total_weight-mod 0 (c ∷ cs) (omega arith) in omega arith) in
      (
        d,
        ground arith,
        record {
          before = before;
          after = after;
          parts = parts;
          from = ground arith;
          to = ground arith;
        },
      )

  -- Weights that together reach 2^63 but not 2^64 make the total negative, and the selection panics
  -- whatever the random number.
  pub select_connection-panicked :
      (random : ℕ) (cs : List PooledConnection)
      → int_end ≤ weight_sum cs
      → weight_sum cs < u64_mod
      → select_connection random cs ≡ panicked
  unfolding select_connection weight_sum
  select_connection-panicked random [] big fits = absurd (ground arith)
  select_connection-panicked random (c ∷ cs) big fits =
      let residue = total_weight-mod 0 (c ∷ cs) (omega arith) in
      let total : total_weight 0 (c ∷ cs) ≡ weight_sum (c ∷ cs) = omega arith in ground arith
