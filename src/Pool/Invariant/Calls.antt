-- ===== src/Pool/Invariant/Calls.antt =====
-- Each method of the pool keeps it valid, and so does every history of calls.
use mathlib.Core.List.{Perm, Permᴰ}
use mathlib.Core.Logic.{∥∥₁_elim}
use native.Mathlib.Nat.{ℕ_set}
use cat_tag.Common.{
  ℕ, zero, suc, ◌-◌, ◌≤◌, ◌≡◌, refl, ◌∙◌, sym, ap, subst, inl, inr, Bool, true, false, ℤ, pos,
  negsuc, to_ℕ, exceeds, excess, List, [], ◌∷◌, some, String, length, take, length-take, get_elem?,
  filter_by, Map, lookup, length-delete-le, values, Among, same_iff, Option-cases, Bool-cases,
  List-cases, arith,
}
use cat_tag.Pooled.{Connection, PooledConnection, Priority}
use cat_tag.Balancer.RoundRobin
use cat_tag.Balancer.RoundRobin.{RoundRobinBalancer}
use cat_tag.Pool.{
  Pool, Sort, ConnectionMetrics, precedes, remove_excess_connections, add_connection,
  remove_connection, get_connection, used, set_max_connections, set_connection_priority,
  select_connection_by_strategy, close, close_entries, get_stats, perform_maintenance, drop_entry,
  remove_if_present, remove_listed, to_remove, should_remove, new_connection_pool, is_active,
}
use cat_tag.Pool.Eviction.{Sorts, device_of, candidates-Evictable, take-Evictable, length-evict_all}
use cat_tag.Pool.Invariant.{
  IsWellFormed, IsValid, delete-IsWellFormed, replace-IsValid, evict_all-IsWellFormed,
  evict_all-max, new_connection_pool-IsValid, add_connection-IsValid,
}

remove_connection-IsValid :
    (active : Connection → Bool) (p : Pool) (d : String)
    → IsValid p
    → IsValid (remove_connection active p d).0
unfolding remove_connection
remove_connection-IsValid active p d i = elim (Option-cases (lookup d p.connections)) [
  | inl e ↦ rw (e, remove_connection) i
  | inr (v, e) ↦
      rw (e, remove_connection)
        (record {
          well_formed = delete-IsWellFormed d p.connections i.well_formed;
          bounded = omega (arith, length-delete-le d p.connections, i.bounded);
        })
]

get_connection-IsValid :
    (now : ℕ) (p : Pool) (d : String) → IsValid p → IsValid (get_connection now p d).0
unfolding get_connection
get_connection-IsValid now p d i = elim (Option-cases (lookup d p.connections)) [
  | inl e ↦ rw (e, get_connection) i
  | inr (v, e) ↦ rw (e, get_connection) (replace-IsValid p d (used now v) v e refl i)
]

set_connection_priority-IsValid :
    (p : Pool) (d : String) (priority : Priority)
    → IsValid p
    → IsValid (set_connection_priority p d priority)
unfolding set_connection_priority
set_connection_priority-IsValid p d priority i = elim (Option-cases (lookup d p.connections)) [
  | inl e ↦
      rw (e, set_connection_priority) (record { well_formed = i.well_formed; bounded = i.bounded })
  | inr (v, e) ↦
      rw (e, set_connection_priority)
        (let j = replace-IsValid p d (record v { priority = priority }) v e refl i in
          record { well_formed = j.well_formed; bounded = j.bounded })
]

-- The values of a well-formed map are found under their devices.
pub lookup-value :
    (m : Map PooledConnection) (v : PooledConnection)
    → IsWellFormed m
    → Among v (values m)
    → lookup (device_of v) m ≡ some v
unfolding lookup
lookup-value [] v w h = absurd h
lookup-value ((j, u) ∷ m) v w (inl e) = rw e (ground (arith, same_iff j (device_of u), w.keyed.0))
lookup-value ((j, u) ∷ m) v w (inr h) =
    let rest = lookup-value m v (record { keyed = w.keyed.1; distinct = w.distinct.1 }) h in
    ground (arith, same_iff j (device_of v), w.distinct.0)

pub Among-filter_by :
    (p : PooledConnection → Bool) (v : PooledConnection) (l : List PooledConnection)
    → Among v (filter_by p l)
    → Among v l
Among-filter_by p v [] h = h
Among-filter_by p v (u ∷ us) h = ground (arith, Among-filter_by p v us)

Among-get_elem? :
    (l : List PooledConnection) (i : ℕ) (v : PooledConnection) → get_elem? l i ≡ some v → Among v l
Among-get_elem? [] i v e = cc
Among-get_elem? (u ∷ us) zero v e = inl (ground arith)
Among-get_elem? (u ∷ us) (suc i) v e = inr (Among-get_elem? us i v e)

selected-Among :
    (b : RoundRobinBalancer) (l : List PooledConnection) (v : PooledConnection)
    → (RoundRobin.select_connection b l).1 ≡ some v
    → Among v l
unfolding RoundRobin.select_connection
selected-Among b [] v e = cc
selected-Among b (c ∷ cs) v e = Among-get_elem? (c ∷ cs) _ v e

select-IsValid :
    (active : Connection → Bool) (now : ℕ) (p : Pool)
    → IsValid p
    → IsValid (select_connection_by_strategy active now p).0
unfolding select_connection_by_strategy
select-IsValid active now p i =
    elim (List-cases (filter_by (is_active active) (values p.connections))) [
      | inl e ↦ rw (e, select_connection_by_strategy) i
      | inr (c, cs, e) ↦
          elim (Option-cases (RoundRobin.select_connection p.load_balancer (c ∷ cs)).1) [
            | inl f ↦
                rw (e, select_connection_by_strategy)
                  (rw (f, select_connection_by_strategy)
                    (record { well_formed = i.well_formed; bounded = i.bounded }))
            | inr (v, f) ↦
                rw (e, select_connection_by_strategy)
                  (rw (f, select_connection_by_strategy)
                    (let j =
                        replace-IsValid p (device_of v) (used now v) v
                          (lookup-value p.connections v i.well_formed (
                            Among-filter_by (is_active active) v (values p.connections) (
                              subst (Among v) (sym e)
                                (selected-Among p.load_balancer (c ∷ cs) v f))))
                          refl i in
                      record { well_formed = j.well_formed; bounded = j.bounded }))
          ]
    ]

length-Permᴰ : {l m : List PooledConnection} → Permᴰ l m → length l ≡ length m
length-Permᴰ Permᴰ.nil = refl
length-Permᴰ (Permᴰ.cons e p) = ap suc (length-Permᴰ p)
length-Permᴰ (Permᴰ.swap e f) = refl
length-Permᴰ (Permᴰ.trans p q) = length-Permᴰ p ∙ length-Permᴰ q

length-Perm : {l m : List PooledConnection} → Perm l m → length l ≡ length m
length-Perm {l} {m} p = ∥∥₁_elim p (ℕ_set (length l) (length m)) length-Permᴰ

length-values : (m : Map PooledConnection) → length (values m) ≡ length m
length-values [] = refl
length-values ((k, v) ∷ m) = ap suc (length-values m)

-- The entries that go, and those that may stay.
cut_to_max : (n : ℕ) (m : ℤ) → exceeds n m ≡ true → n - excess n m ≤ to_ℕ m
cut_to_max n (pos m) h = omega arith
cut_to_max n (negsuc m) h = omega arith

within_max : (n : ℕ) (m : ℤ) → exceeds n m ≡ false → n ≤ to_ℕ m
within_max n (pos m) h = ground arith
within_max n (negsuc m) h = ground arith

module _ (sort : Sort) (s : Sorts sort) where
  length-remove_excess :
      (p : Pool) (count : ℕ)
      → IsWellFormed p.connections
      → length (remove_excess_connections sort p count).connections ≤ length p.connections - count
  unfolding remove_excess_connections
  length-remove_excess p count w = omega (
    arith,
    length-evict_all p (take count (sort precedes (values p.connections))) (
        take-Evictable count p.connections _
          (candidates-Evictable sort p.connections s w.keyed w.distinct)),
    length-take count (sort precedes (values p.connections)),
    length-Perm (s.permutes (values p.connections)),
    length-values p.connections,
  )

  remove_excess-IsValid :
      (p : Pool) (max : ℤ)
      → IsWellFormed p.connections
      → exceeds (length p.connections) max ≡ true
      → p.max_connections ≡ max
      → IsValid (remove_excess_connections sort p (excess (length p.connections) max))
  unfolding remove_excess_connections
  remove_excess-IsValid p max w more e = record {
    well_formed = evict_all-IsWellFormed p _ w;
    bounded =
        let gone =
          take (excess (length p.connections) max) (sort precedes (values p.connections)) in
        omega (
          arith,
          length-remove_excess p (excess (length p.connections) max) w,
          cut_to_max (length p.connections) max more,
          ap to_ℕ (evict_all-max p gone ∙ e),
        );
  }

  set_max_connections-IsValid :
      (p : Pool) (max : ℤ) → IsValid p → IsValid (set_max_connections sort p max)
  unfolding set_max_connections
  set_max_connections-IsValid p max i = elim (Bool-cases (exceeds (length p.connections) max)) [
    | inl more ↦ rw more (remove_excess-IsValid _ max i.well_formed more refl)
    | inr fits ↦ rw fits (record { well_formed = i.well_formed; bounded = within_max _ max fits })
  ]

drop_entry-IsValid :
    (p : Pool) (d : String) (v : PooledConnection) → IsValid p → IsValid (drop_entry p d v)
drop_entry-IsValid p d v i = record {
  well_formed = delete-IsWellFormed d p.connections i.well_formed;
  bounded = omega (arith, length-delete-le d p.connections, i.bounded);
}

close_entries-IsValid :
    (p : Pool) (m : Map PooledConnection) → IsValid p → IsValid (close_entries p m)
unfolding close_entries
close_entries-IsValid p [] i = i
close_entries-IsValid p ((d, v) ∷ m) i =
    close_entries-IsValid (drop_entry p d v) m (drop_entry-IsValid p d v i)

remove_if_present-IsValid : (p : Pool) (d : String) → IsValid p → IsValid (remove_if_present p d)
unfolding remove_if_present
remove_if_present-IsValid p d i = elim (Option-cases (lookup d p.connections)) [
  | inl e ↦ rw (e, remove_if_present) i
  | inr (v, e) ↦ rw (e, remove_if_present) (drop_entry-IsValid p d v i)
]

remove_listed-IsValid : (p : Pool) (ds : List String) → IsValid p → IsValid (remove_listed p ds)
unfolding remove_listed
remove_listed-IsValid p [] i = i
remove_listed-IsValid p (d ∷ ds) i =
    remove_listed-IsValid (remove_if_present p d) ds (remove_if_present-IsValid p d i)

perform_maintenance-IsValid :
    (active : Connection → Bool) (now : ℕ) (p : Pool)
    → IsValid p
    → IsValid (perform_maintenance active now p)
unfolding perform_maintenance
perform_maintenance-IsValid active now p i =
    let j =
      remove_listed-IsValid p (to_remove (should_remove active now p.lifecycle) p.connections) i in
    record { well_formed = j.well_formed; bounded = j.bounded }

-- A call of the pool, with what its environment answers.
pub data Call : Type 0 where
  add_call : (Connection → Bool) → ℕ → Connection → Call
  remove_call : (Connection → Bool) → String → Call
  get_call : ℕ → String → Call
  set_max_call : ℤ → Call
  set_priority_call : String → Priority → Call
  select_call : (Connection → Bool) → ℕ → Call
  stats_call : (Connection → Bool) → (Connection → ConnectionMetrics) → Call
  maintenance_call : (Connection → Bool) → ℕ → Call
  close_call : Call

module _ (sort : Sort) where
  pub step : Pool → Call → Pool
  step p (add_call active now conn) = (add_connection sort active now p conn).0
  step p (remove_call active d) = (remove_connection active p d).0
  step p (get_call now d) = (get_connection now p d).0
  step p (set_max_call max) = set_max_connections sort p max
  step p (set_priority_call d priority) = set_connection_priority p d priority
  step p (select_call active now) = (select_connection_by_strategy active now p).0
  step p (stats_call active metrics) = (get_stats active metrics p).0
  step p (maintenance_call active now) = perform_maintenance active now p
  step p close_call = close p

  pub run : Pool → List Call → Pool
  run p [] = p
  run p (c ∷ cs) = run (step p c) cs

  pub step-IsValid : (p : Pool) (c : Call) → Sorts sort → IsValid p → IsValid (step p c)
  unfolding step close get_stats
  step-IsValid p (add_call active now conn) s i = add_connection-IsValid sort s active now p conn i
  step-IsValid p (remove_call active d) s i = remove_connection-IsValid active p d i
  step-IsValid p (get_call now d) s i = get_connection-IsValid now p d i
  step-IsValid p (set_max_call max) s i = set_max_connections-IsValid sort s p max i
  step-IsValid p (set_priority_call d priority) s i = set_connection_priority-IsValid p d priority i
  step-IsValid p (select_call active now) s i = select-IsValid active now p i
  step-IsValid p (stats_call active metrics) s i = record {
    well_formed = i.well_formed;
    bounded = i.bounded;
  }
  step-IsValid p (maintenance_call active now) s i = perform_maintenance-IsValid active now p i
  step-IsValid p close_call s i = close_entries-IsValid p p.connections i

  run-IsValid : (p : Pool) (cs : List Call) → Sorts sort → IsValid p → IsValid (run p cs)
  unfolding run
  run-IsValid p [] s i = i
  run-IsValid p (c ∷ cs) s i = run-IsValid (step p c) cs s (step-IsValid p c s i)

  -- With a sort that sorts, after any history of calls on a new pool every connection is filed once, under its device, and
  -- there are no more of them than the current maximum allows.
  pub run-new-IsValid :
      (max : ℤ) (cs : List Call) → Sorts sort → IsValid (run (new_connection_pool max) cs)
  run-new-IsValid max cs s =
      run-IsValid (new_connection_pool max) cs s (new_connection_pool-IsValid max)
