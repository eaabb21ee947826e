-- ===== src/Examples/Pool.antt =====
-- A pool whose `sort.Slice` is an insertion sort, and a history that fills it.
use mathlib.Core.List.Perm
use mathlib.Core.List.{Perm, Mem}
use cat_tag.Common.{
  ◌≡◌, refl, pos, Bool, true, false, List, [], ◌∷◌, none, if◌then◌else◌, if_elim, lookup, All,
  values, arith,
}
use cat_tag.Pooled.{Connection, PooledConnection}
use cat_tag.Pool.{
  Pool, precedes, new_connection_pool, add_connection, remove_connection, perform_maintenance,
  make_room_for_new_connection,
}
use cat_tag.Pool.Eviction.{IsSorted, Sorts}
use cat_tag.Pool.Invariant.{IsValid}
use cat_tag.Pool.Invariant.Calls.{
  Call, add_call, get_call, remove_call, maintenance_call, set_max_call, close_call, run,
  run-new-IsValid,
}
use cat_tag.Pool.Entries.{Replaced, add_connection-evicts, add_connection-accepts}
use cat_tag.Pool.Order.{NoMoreImportant, add_connection-evicts_least}
use cat_tag.Pool.Maintenance.{Maintained, perform_maintenance-Maintained}
use cat_tag.Examples.Balancer.{entry}

module _ (less : PooledConnection → PooledConnection → Bool) where
  unfoldable insert_sorted : PooledConnection → List PooledConnection → List PooledConnection
  insert_sorted c [] = c ∷ []
  insert_sorted c (d ∷ l) = let rest = insert_sorted c l in if less d c then d ∷ rest else c ∷ d ∷ l

  unfoldable insertion_sort : List PooledConnection → List PooledConnection
  insertion_sort [] = []
  insertion_sort (c ∷ l) = insert_sorted c (insertion_sort l)

  insert_sorted-Perm :
      (c : PooledConnection) (l : List PooledConnection) → Perm (insert_sorted c l) (c ∷ l)
  unfolding insert_sorted
  insert_sorted-Perm c [] = Perm.refl (c ∷ [])
  insert_sorted-Perm c (d ∷ l) =
      if_elim (λ r. Perm r (c ∷ d ∷ l)) (less d c)
        (λ _. Perm.trans (Perm.cons d (insert_sorted-Perm c l)) (Perm.swap c d l))
        (λ _. Perm.refl (c ∷ d ∷ l))

  insertion_sort-Perm : (l : List PooledConnection) → Perm (insertion_sort l) l
  unfolding insertion_sort
  insertion_sort-Perm [] = Perm.refl []
  insertion_sort-Perm (c ∷ l) =
      Perm.trans (insert_sorted-Perm c (insertion_sort l)) (Perm.cons c (insertion_sort-Perm l))

precedes-asym : (a b : PooledConnection) → precedes a b ≡ true → precedes b a ≡ false
unfolding precedes
precedes-asym a b h = ground arith

not_precedes_trans :
    (a b c : PooledConnection) → precedes b a ≡ false → precedes c b ≡ false → precedes c a ≡ false
unfolding precedes
not_precedes_trans a b c h k = ground arith

behind_weaken :
    (a b : PooledConnection) (l : List PooledConnection)
    → precedes b a ≡ false
    → All (λ w. precedes w b ≡ false) l
    → All (λ w. precedes w a ≡ false) l
behind_weaken a b [] h v = tt
behind_weaken a b (w ∷ l) h v = (not_precedes_trans a b w h v.0, behind_weaken a b l h v.1)

behind-insert_sorted :
    (a c : PooledConnection) (l : List PooledConnection)
    → precedes c a ≡ false
    → All (λ w. precedes w a ≡ false) l
    → All (λ w. precedes w a ≡ false) (insert_sorted precedes c l)
unfolding insert_sorted
behind-insert_sorted a c [] h v = (h, tt)
behind-insert_sorted a c (d ∷ l) h v =
    if_elim (All (λ w. precedes w a ≡ false)) (precedes d c)
      (λ _. (v.0, behind-insert_sorted a c l h v.1)) (λ _. (h, v))

insert_sorted-IsSorted :
    (c : PooledConnection) (l : List PooledConnection)
    → IsSorted l
    → IsSorted (insert_sorted precedes c l)
unfolding insert_sorted
insert_sorted-IsSorted c [] s = (tt, tt)
insert_sorted-IsSorted c (d ∷ l) s =
    if_elim IsSorted (precedes d c)
      (λ h. (behind-insert_sorted d c l (precedes-asym d c h) s.0, insert_sorted-IsSorted c l s.1))
      (λ h. ((h, behind_weaken c d l h s.0), s))

insertion_sort-IsSorted : (l : List PooledConnection) → IsSorted (insertion_sort precedes l)
unfolding insertion_sort
insertion_sort-IsSorted [] = tt
insertion_sort-IsSorted (c ∷ l) =
    insert_sorted-IsSorted c (insertion_sort precedes l) (insertion_sort-IsSorted l)

insertion_sort-Sorts : Sorts insertion_sort
insertion_sort-Sorts = record {
  permutes = insertion_sort-Perm precedes;
  sorted = insertion_sort-IsSorted;
}

abbrev alive : Connection → Bool
alive c = true

abbrev late : Connection
late = record { id = "late"; device_id = "c" }

abbrev full_pool : Pool
full_pool = record {
  connections = ("a", entry "a" 1 5 900) ∷ ("b", entry "b" 0 3 400) ∷ [];
  max_connections = pos 2;
  stats = record {
    active_connections = 2;
    total_connections = 2;
    max_connections = pos 2;
    average_latency = 0;
    total_bytes_transferred = 0;
    error_rate = (0, 1);
  };
  priorities = [];
  load_balancer = record { current = 0 };
  lifecycle = record { max_idle_time = 30; max_lifetime = 120 };
  closed = [];
}

full_pool-IsValid : IsValid full_pool
unfolding lookup
full_pool-IsValid = record {
  well_formed = record { keyed = (refl, (refl, tt)); distinct = (refl, (refl, tt)) };
  bounded = omega arith;
}

late_absent : lookup "c" full_pool.connections ≡ none
unfolding lookup
late_absent = refl

add_connection-accepts_example : (add_connection insertion_sort alive 9 full_pool late).1 ≡ none
add_connection-accepts_example =
    add_connection-accepts insertion_sort insertion_sort-Sorts alive 9 full_pool late
      full_pool-IsValid refl late_absent

late_added : (add_connection insertion_sort alive 9 full_pool late).1 ≡ none
unfolding add_connection make_room_for_new_connection insertion_sort insert_sorted precedes lookup
late_added = refl

add_connection-evicts_example :
    (v : PooledConnection) × Replaced 9 full_pool late v
      (add_connection insertion_sort alive 9 full_pool late).0
add_connection-evicts_example =
    add_connection-evicts insertion_sort insertion_sort-Sorts alive 9 full_pool late
      full_pool-IsValid refl late_added

add_connection-evicts_least_example :
    (v : PooledConnection) × Replaced 9 full_pool late v
      (add_connection insertion_sort alive 9 full_pool late).0
    × Mem v (values full_pool.connections)
    × ((w : PooledConnection) → Mem w (values full_pool.connections) → NoMoreImportant v w)
add_connection-evicts_least_example =
    add_connection-evicts_least insertion_sort insertion_sort-Sorts alive 9 full_pool late
      full_pool-IsValid refl late_added

a_removed : (remove_connection alive full_pool "a").1 ≡ none
unfolding remove_connection lookup
a_removed = refl

perform_maintenance-Maintained_example :
    Maintained alive 100 full_pool.lifecycle
      (lookup "b" full_pool.connections)
      (lookup "b" (perform_maintenance alive 100 full_pool).connections)
perform_maintenance-Maintained_example =
    perform_maintenance-Maintained alive 100 full_pool "b" full_pool-IsValid

abbrev busy_day : List Call
busy_day =
    add_call alive 1 late
    ∷ get_call 2 "c"
    ∷ add_call alive 3 (record { id = "x"; device_id = "x" })
    ∷ add_call alive 4 (record { id = "y"; device_id = "y" })
    ∷ set_max_call (pos 1)
    ∷ remove_call alive "y"
    ∷ maintenance_call alive 50
    ∷ close_call
    ∷ []

run-new-IsValid_example : IsValid (run insertion_sort (new_connection_pool (pos 2)) busy_day)
run-new-IsValid_example = run-new-IsValid insertion_sort (pos 2) busy_day insertion_sort-Sorts
