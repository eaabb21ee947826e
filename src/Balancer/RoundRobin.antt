-- ===== src/Balancer/RoundRobin.antt =====
-- `RoundRobinBalancer` of load_balancer.go.
use native.Mathlib.Nat.{add-zero, zero-add, suc-add}
use cat_tag.Common.{
  ℕ, zero, suc, ◌+◌, ◌-◌, ◌≤◌, ◌<◌, ◌≡◌, refl, Bool-cases, inl, inr, sym, ap, ◌∙◌, List, [], ◌∷◌,
  ◌++◌, Option, none, some, false, if◌then◌else◌, leb, leb→le, length, length-drop,
  take_of_length-le, subst, get_elem?, take, drop, arith,
}
use mathlib.Core.List.{append-nil}
use cat_tag.Pooled.{PooledConnection}

pub record RoundRobinBalancer : Type 0 where
  pub current : ℕ

unfoldable pub new_round_robin_balancer : RoundRobinBalancer
new_round_robin_balancer = record { current = 0 }

-- `if rb.current >= len(connections) { rb.current = 0 }`
abbrev wrapped : ℕ → ℕ → ℕ
wrapped n current = if leb n current then 0 else current

unfoldable pub select_connection :
    RoundRobinBalancer → List PooledConnection → RoundRobinBalancer × Option PooledConnection
select_connection rb [] = (rb, none)
select_connection rb (c ∷ cs) =
    let i = wrapped (length (c ∷ cs)) rb.current in
    (record { current = i + 1 }, get_elem? (c ∷ cs) i)

abbrev collect : Option PooledConnection → List PooledConnection → List PooledConnection
collect none rest = rest
collect (some c) rest = c ∷ rest

-- Successive calls over the same connections: the balancer at the end, and what was selected.
pub select_times :
    ℕ → RoundRobinBalancer → List PooledConnection → RoundRobinBalancer × List PooledConnection
select_times zero rb cs = (rb, [])
select_times (suc n) rb cs =
    let (rb', selected) = select_connection rb cs in
    let (last, rest) = select_times n rb' cs in (last, collect selected rest)

at : ℕ → RoundRobinBalancer
at i = record { current = i }

-- The element at an index, as the head of what the index leaves.
get_elem?-drop :
    (i : ℕ) (cs : List PooledConnection)
    → i < length cs
    → (c : PooledConnection) × (get_elem? cs i ≡ some c) × (drop i cs ≡ c ∷ drop (suc i) cs)
get_elem?-drop i [] h = absurd (omega arith)
get_elem?-drop zero (c ∷ cs) h = (c, refl, refl)
get_elem?-drop (suc i) (c ∷ cs) h = get_elem?-drop i cs (omega arith)

select_at :
    (i : ℕ) (cs : List PooledConnection)
    → i < length cs
    → select_connection (at i) cs ≡ (at (suc i), get_elem? cs i)
unfolding select_connection at
select_at i [] h = absurd (omega arith)
select_at i (c ∷ cs) h = ground arith

select_at_end :
    (i : ℕ) (cs : List PooledConnection)
    → length cs ≤ i
    → 0 < length cs
    → select_connection (at i) cs ≡ select_connection (at 0) cs
unfolding select_connection at
select_at_end i [] h p = absurd (omega arith)
select_at_end i (c ∷ cs) h p = ground arith

-- As long as the end is not passed, the selections are the elements in their order.
select_times_upto :
    (k i : ℕ) (cs : List PooledConnection)
    → i + k ≤ length cs
    → select_times k (at i) cs ≡ (at (i + k), take k (drop i cs))
unfolding select_times
select_times_upto zero i cs h = rw (add-zero i)
select_times_upto (suc k) i cs h =
    let (c, e, d) = get_elem?-drop i cs (omega arith) in
    let ih = select_times_upto k (suc i) cs (omega arith) in
    let s = select_at i cs (omega arith) in
    rw (s, e, ih, d) (ap (λ j. (at j, c ∷ take k (drop (suc i) cs))) (omega arith))

collect-append :
    (o : Option PooledConnection) (l m : List PooledConnection)
    → collect o (l ++ m) ≡ collect o l ++ m
collect-append none l m = refl
collect-append (some c) l m = refl

-- Two runs in a row.
select_times-add :
    (m n : ℕ) (rb : RoundRobinBalancer) (cs : List PooledConnection)
    → select_times (m + n) rb cs ≡ (
      (select_times n (select_times m rb cs).0 cs).0,
      (select_times m rb cs).1 ++ (select_times n (select_times m rb cs).0 cs).1,
    )
unfolding select_times
select_times-add zero n rb cs = rw (zero-add n)
select_times-add (suc m) n rb cs = rw (suc-add m n) (
    rw (select_times-add m n (select_connection rb cs).0 cs) (
      ap (λ l. ((select_times n (select_times m (select_connection rb cs).0 cs).0 cs).0, l))
        (collect-append (select_connection rb cs).1 _ _)))

-- At the end the balancer starts over.
select_times_end :
    (k i : ℕ) (cs : List PooledConnection)
    → length cs ≤ i
    → suc k ≤ length cs
    → select_times (suc k) (at i) cs ≡ (at (suc k), take (suc k) cs)
unfolding select_times
select_times_end k i cs past fits =
    rw (select_at_end i cs past (omega arith)) (
      select_times_upto (suc k) 0 cs (omega arith)
      ∙ ap (λ j. (at j, take (suc k) cs)) (omega arith))

-- What is left of a round when the end was reached.
second_part :
    (i j : ℕ) (cs : List PooledConnection)
    → length cs ≤ j
    → i ≤ length cs
    → (select_times i (at j) cs).1 ≡ take i cs
unfolding select_times
second_part zero j cs past fits = refl
second_part (suc i) j cs past fits = ap (λ r. r.1) (select_times_end i j cs past fits)

round_from :
    (i k : ℕ) (cs : List PooledConnection)
    → i + k ≡ length cs
    → (select_times (k + i) (at i) cs).1 ≡ drop i cs ++ take i cs
round_from i k cs e =
    rw (select_times-add k i (at i) cs, select_times_upto k i cs (omega arith))
      (rw (take_of_length-le k (drop i cs) (omega (arith, length-drop i cs)))
        (ap (◌++◌ (drop i cs)) (second_part i (i + k) cs (omega arith) (omega arith))))

-- From any position, as many selections as there are connections take each connection once: those
-- from the position on, and then those before it. A position past the end counts as the beginning.
pub select_times_round :
    (rb : RoundRobinBalancer) (cs : List PooledConnection)
    → let i = wrapped (length cs) rb.current in
      (select_times (length cs) rb cs).1 ≡ drop i cs ++ take i cs
unfolding at
select_times_round rb cs = elim (Bool-cases (leb (length cs) rb.current)) [
  | inl past ↦ rw past (
      second_part (length cs) rb.current cs (leb→le _ _ past) (omega arith)
      ∙ take_of_length-le (length cs) cs (omega arith)
      ∙ sym (append-nil cs))
  | inr within ↦ rw within (
      subst (λ n. (select_times n rb cs).1 ≡ drop rb.current cs ++ take rb.current cs)
        (refill (length cs) rb.current within)
        (round_from rb.current (length cs - rb.current) cs (ground arith)))
]
  where
    refill : (n i : ℕ) → leb n i ≡ false → n - i + i ≡ n
    refill n i h = ground arith
