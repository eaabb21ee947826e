-- ===== src/Pool/Eviction.antt =====
-- The evictions of connection_pool.go: whom they take, and how many they leave.
use mathlib.Core.List.{
  Mem, Nodup, Nodup-cons, Nodup-nil, Perm, not-mem-nil, mem-cons_self, mem-map_of_mem,
  eq-or-mem_of_mem-cons, mem-cons_of_mem,
}
use mathlib.Core.List.Perm
use mathlib.Core.Logic.Or
use mathlib.Core.HLevel.{⊥_prop}
use cat_tag.Common.{
  ℕ, zero, suc, ◌+◌, ◌≤◌, ◌≡◌, ◌≢◌, refl, sym, subst, ◌⊎◌, inl, inr, Bool, true, false, List, [],
  ◌∷◌, map, Option, none, some, String, at_least, length, take, Map, lookup, delete, lookup-delete,
  length-delete-lt, values, All, All-take, Distinct, Entries, same, same_iff, Option-cases,
  Bool-cases, List-cases, arith,
}
use cat_tag.Errors.{GoError, new_bluetooth_error, already_exists, resource_busy}
use cat_tag.Pooled.{Connection, PooledConnection}
use cat_tag.Pool.{
  Pool, Sort, admit, add_connection, precedes, evict, evict_all, make_room_for_new_connection,
}

abbrev pub device_of : PooledConnection → String
device_of v = v.connection.device_id

-- Nobody in a sorted list stands behind one whom he precedes.
abbrev pub IsSorted : List PooledConnection → Type 0
IsSorted [] = Unit {0}
IsSorted (v ∷ vs) = All (λ w. precedes w v ≡ false) vs × IsSorted vs

-- What `sort.Slice` promises, which is not stable.
pub record Sorts (sort : Sort) : Type 0 where
  pub permutes : (l : List PooledConnection) → Perm (sort precedes l) l
  pub sorted : (l : List PooledConnection) → IsSorted (sort precedes l)

-- Every connection is filed under its device.
abbrev pub IsKeyed : Map PooledConnection → Type 0
IsKeyed = Entries λ k v. v.connection.device_id ≡ k

-- All are in the map, under different keys.
abbrev pub Evictable : List PooledConnection → Map PooledConnection → Type 0
Evictable [] m = Unit {0}
Evictable (v ∷ vs) m =
    (lookup (device_of v) m ≢ none)
    × All (λ w. same (device_of v) (device_of w) ≡ false) vs
    × Evictable vs m

device-present :
    (m : Map PooledConnection) (d : String)
    → IsKeyed m
    → Mem d (map device_of (values m))
    → lookup d m ≡ none
    → ⊥
unfolding lookup
device-present [] d k h e = not-mem-nil h
device-present ((j, w) ∷ m) d k h e =
    Or.elim ⊥_prop (eq-or-mem_of_mem-cons h) (λ here. ground (arith, same_iff j d, k.0))
      (λ there. device-present m d k.1 there (ground arith))

devices-Nodup :
    (m : Map PooledConnection) → IsKeyed m → Distinct m → Nodup (map device_of (values m))
devices-Nodup [] k d = Nodup-nil
devices-Nodup ((j, w) ∷ m) k d =
    Nodup-cons.1 (λ h. device-present m (device_of w) k.1 h (rw k.0 d.0), devices-Nodup m k.1 d.1)

apart :
    (v : PooledConnection) (vs : List PooledConnection)
    → ¬ Mem (device_of v) (map device_of vs)
    → All (λ w. same (device_of v) (device_of w) ≡ false) vs
apart v [] h = tt
apart v (w ∷ vs) h = (
  differ (Bool-cases (same (device_of v) (device_of w))),
  apart v vs (λ m. h (mem-cons_of_mem (device_of w) m)),
)
  where
    differ :
        ((same (device_of v) (device_of w) ≡ true) ⊎ (same (device_of v) (device_of w) ≡ false))
        → same (device_of v) (device_of w) ≡ false
    differ (inl e) =
        absurd
          (h (subst (λ d. Mem d (map device_of (w ∷ vs))) (sym ((same_iff _ _).0 e)) mem-cons_self))
    differ (inr e) = e

-- Entries of a map, in any order, are evictable.
Nodup-Evictable :
    (m : Map PooledConnection) (vs : List PooledConnection)
    → Nodup (map device_of vs)
    → ((v : PooledConnection) → Mem v vs → lookup (device_of v) m ≢ none)
    → Evictable vs m
Nodup-Evictable m [] n p = tt
Nodup-Evictable m (v ∷ vs) n p =
    let (fresh, rest) = Nodup-cons.0 n in
    (
      p v mem-cons_self,
      apart v vs fresh,
      Nodup-Evictable m vs rest (λ w h. p w (mem-cons_of_mem v h)),
    )

pub candidates-Evictable :
    (sort : Sort) (m : Map PooledConnection)
    → Sorts sort
    → IsKeyed m
    → Distinct m
    → Evictable (sort precedes (values m)) m
candidates-Evictable sort m s k d =
    Nodup-Evictable m (sort precedes (values m))
      (Perm.nodup (Perm.symm (Perm.map device_of (s.permutes (values m)))) (devices-Nodup m k d))
      (λ v h e.
        device-present m (device_of v) k
          (mem-map_of_mem device_of ((Perm.mem_iff (s.permutes (values m))).0 h)) e)

pub take-Evictable :
    (n : ℕ) (m : Map PooledConnection) (vs : List PooledConnection)
    → Evictable vs m
    → Evictable (take n vs) m
take-Evictable zero m vs e = tt
take-Evictable (suc n) m [] e = tt
take-Evictable (suc n) m (v ∷ vs) e = (e.0, All-take _ n vs e.1, take-Evictable n m vs e.2)

-- To evict one leaves the others evictable.
delete-Evictable :
    (d : String) (m : Map PooledConnection) (vs : List PooledConnection)
    → All (λ w. same d (device_of w) ≡ false) vs
    → Evictable vs m
    → Evictable vs (delete d m)
delete-Evictable d m [] a e = tt
delete-Evictable d m (v ∷ vs) a e = (
  λ h. e.0 (ground (arith, lookup-delete d (device_of v) m)),
  e.1,
  delete-Evictable d m vs a.1 e.2,
)

-- Every eviction makes the map shorter.
pub length-evict_all :
    (p : Pool) (vs : List PooledConnection)
    → Evictable vs p.connections
    → length (evict_all p vs).connections + length vs ≤ length p.connections
unfolding evict_all evict
length-evict_all p [] e = omega arith
length-evict_all p (v ∷ vs) e = elim (Option-cases (lookup (device_of v) p.connections)) [
  | inl missing ↦ absurd (e.0 missing)
  | inr (w, found) ↦ omega (
    arith,
    length-delete-lt (device_of v) w p.connections found,
    length-evict_all (evict p v) vs (delete-Evictable (device_of v) p.connections vs e.1 e.2),
  )
]

precedes_irrefl : (v : PooledConnection) → precedes v v ≡ false
unfolding precedes
precedes_irrefl v = ground arith

Bool-path_prop : {a b : Bool} → IsProp (a ≡ b)
Bool-path_prop = hlevel

All-Mem :
    (v w : PooledConnection) (vs : List PooledConnection)
    → All (λ u. precedes u v ≡ false) vs
    → Mem w vs
    → precedes w v ≡ false
All-Mem v w [] a m = absurd (not-mem-nil m)
All-Mem v w (u ∷ us) a m =
    Or.elim Bool-path_prop (eq-or-mem_of_mem-cons m) (λ e. rw e a.0) (λ m'. All-Mem v w us a.1 m')

-- The least important entry: no other one precedes it.
pub record IsVictim (p : Pool) (v : PooledConnection) : Type 0 where
  pub held : Mem v (values p.connections)
  pub filed : lookup (device_of v) p.connections ≢ none
  pub least : (w : PooledConnection) → Mem w (values p.connections) → precedes w v ≡ false

-- Room is made by evicting a least important connection, unless the pool is empty.
pub make_room_cases :
    (sort : Sort) (p : Pool)
    → Sorts sort
    → IsKeyed p.connections
    → Distinct p.connections
    → ((make_room_for_new_connection sort p ≡ (p, false)) × (p.connections ≡ []))
      ⊎ ((v : PooledConnection) × (make_room_for_new_connection sort p ≡ (evict p v, true))
          × IsVictim p v)
unfolding make_room_for_new_connection
make_room_cases sort p s k d = elim (List-cases (sort precedes (values p.connections))) [
  | inl e ↦ inl (
    ground arith,
    no_values p.connections
        (subst (λ l. Perm l (values p.connections)) e (s.permutes (values p.connections))),
  )
  | inr (v, vs, e) ↦ inr (
    v,
    ground arith,
    record {
      held =
          (Perm.mem_iff (s.permutes (values p.connections))).0
            (subst (Mem v) (sym e) mem-cons_self);
      filed =
          (subst (λ l. Evictable l p.connections) e
            (candidates-Evictable sort p.connections s k d)).0;
      least = λ w m.
          Or.elim Bool-path_prop
            (eq-or-mem_of_mem-cons
              (subst (Mem w) e ((Perm.mem_iff (s.permutes (values p.connections))).1 m)))
            (λ here. rw here (precedes_irrefl v))
            (λ there. All-Mem v w vs (subst IsSorted e (s.sorted (values p.connections))).0 there);
    },
  )
]
  where
    no_values : (m : Map PooledConnection) → Perm [] (values m) → m ≡ []
    no_values [] q = refl
    no_values ((j, w) ∷ m) q = absurd (not-mem-nil ((Perm.mem_iff q).1 mem-cons_self))

-- What `AddConnection` did: the device was there already, there was room, the pool was full without
-- an entry to evict, or it was full and a least important entry made room.
pub data AddOutcome (active : Connection → Bool) (now : ℕ) (p : Pool) (conn : Connection)
    (r : Pool × Option GoError) : Type 0 where
  exists :
      (w : PooledConnection)
      → lookup conn.device_id p.connections ≡ some w
      → r ≡ (p, some (new_bluetooth_error already_exists))
      → AddOutcome active now p conn r
  has_room :
      lookup conn.device_id p.connections ≡ none
      → at_least (length p.connections) p.max_connections ≡ false
      → r ≡ (admit active now p conn, none)
      → AddOutcome active now p conn r
  no_room :
      lookup conn.device_id p.connections ≡ none
      → at_least (length p.connections) p.max_connections ≡ true
      → p.connections ≡ []
      → r ≡ (p, some (new_bluetooth_error resource_busy))
      → AddOutcome active now p conn r
  makes_room :
      (v : PooledConnection)
      → lookup conn.device_id p.connections ≡ none
      → at_least (length p.connections) p.max_connections ≡ true
      → IsVictim p v
      → r ≡ (admit active now (evict p v) conn, none)
      → AddOutcome active now p conn r

-- A call of `AddConnection` on a pool whose entries are filed once, under their devices, with a sort
-- that sorts, does one of four things: it refuses a device that the pool has; it admits the
-- connection, if there is room; it refuses it, if there is no room and the pool is empty; or it
-- evicts one entry that no other precedes and admits the connection. A refusal changes nothing.
pub add_connection-AddOutcome :
    (sort : Sort) (active : Connection → Bool) (now : ℕ) (p : Pool) (conn : Connection)
    → Sorts sort
    → IsKeyed p.connections
    → Distinct p.connections
    → AddOutcome active now p conn (add_connection sort active now p conn)
unfolding add_connection
add_connection-AddOutcome sort active now p conn s k d =
    elim (Option-cases (lookup conn.device_id p.connections)) [
      | inr (w, found) ↦ exists w found (ground arith)
      | inl absent ↦ elim (Bool-cases (at_least (length p.connections) p.max_connections)) [
        | inr free ↦ has_room absent free (ground arith)
        | inl full ↦ elim (make_room_cases sort p s k d) [
          | inl (e, nobody) ↦ no_room absent full nobody (ground arith)
          | inr (v, e, victim) ↦ makes_room v absent full victim (ground arith)
        ]
      ]
    ]
