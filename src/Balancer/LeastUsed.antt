-- ===== src/Balancer/LeastUsed.antt =====
-- `LeastUsedBalancer` of load_balancer.go. A use count is a `uint64`.
use cat_tag.Common.{
  ℕ, ◌-◌, ◌≤◌, ◌<◌, ◌≡◌, refl, ◌⊎◌, inl, inr, List, [], ◌∷◌, Option, none, some, if◌then◌else◌, ltb,
  All, Among, arith, Bool-cases,
}
use cat_tag.Pooled.{PooledConnection, u64_mod}

-- The loop over the connections, with `selected` and `minUseCount`.
unfoldable pub least_loop :
    Option PooledConnection → ℕ → List PooledConnection → Option PooledConnection
least_loop selected least [] = selected
least_loop selected least (c ∷ cs) =
    least_loop (if ltb c.use_count least then some c else selected)
      (if ltb c.use_count least then c.use_count else least) cs

unfoldable pub select_connection : List PooledConnection → Option PooledConnection
unfolding least_loop
select_connection [] = none
select_connection (c ∷ cs) = least_loop none (u64_mod - 1) (c ∷ cs)

-- What the loop returns when it has `selected`, of use count `least`, in hand.
pub record Least (least : ℕ) (cs : List PooledConnection) (c : PooledConnection) : Type 0 where
  pub below : c.use_count ≤ least
  pub minimal : All (λ d. c.use_count ≤ d.use_count) cs

least_loop-some :
    (s : PooledConnection) (cs : List PooledConnection)
    → (c : PooledConnection) × (least_loop (some s) s.use_count cs ≡ some c)
      × ((c ≡ s) ⊎ Among c cs)
      × Least s.use_count cs c
unfolding least_loop
least_loop-some s [] = (s, refl, inl refl, record { below = omega arith; minimal = tt })
least_loop-some s (d ∷ cs) = elim (Bool-cases (ltb d.use_count s.use_count)) [
  | inl less ↦
      let (c, e, m, v) = least_loop-some d cs in
      (c, rw less e, ground arith, record { below = ground arith; minimal = (v.below, v.minimal) })
  | inr more ↦
      let (c, e, m, v) = least_loop-some s cs in
      (c, rw more e, ground arith, record { below = v.below; minimal = (ground arith, v.minimal) })
]

-- With nothing selected yet, the loop passes over connections that were used 2^64 - 1 times.
abbrev Worn : PooledConnection → Type 0
Worn c = u64_mod - 1 ≤ c.use_count

least_loop-none :
    (cs : List PooledConnection)
    → ((least_loop none (u64_mod - 1) cs ≡ none) × All Worn cs)
      ⊎ ((c : PooledConnection) × (least_loop none (u64_mod - 1) cs ≡ some c)
          × Among c cs
          × (c.use_count < u64_mod - 1)
          × All (λ d. c.use_count ≤ d.use_count) cs)
unfolding least_loop
least_loop-none [] = inl (refl, tt)
least_loop-none (d ∷ cs) = elim (Bool-cases (ltb d.use_count (u64_mod - 1))) [
  | inl less ↦
      let (c, e, m, v) = least_loop-some d cs in
      inr (c, rw less e, ground arith, ground (arith, v.below), (v.below, v.minimal))
  | inr worn ↦ elim (least_loop-none cs) [
    | inl (e, all_worn) ↦ inl (rw worn e, (ground arith, all_worn))
    | inr (c, e, m, fresh, v) ↦ inr (c, rw worn e, inr m, fresh, (ground arith, v))
  ]
]

-- The connection that is selected is in the list and used least. None is selected exactly from a
-- list in which every connection was used 2^64 - 1 times.
pub select_connection-least :
    (cs : List PooledConnection)
    → ((select_connection cs ≡ none) × All Worn cs)
      ⊎ ((c : PooledConnection) × (select_connection cs ≡ some c)
          × Among c cs
          × (c.use_count < u64_mod - 1)
          × All (λ d. c.use_count ≤ d.use_count) cs)
unfolding select_connection
select_connection-least [] = inl (refl, tt)
select_connection-least (c ∷ cs) = least_loop-none (c ∷ cs)
