-- ===== src/Pool/Maintenance.antt =====
-- `performMaintenance` of connection_pool.go keeps exactly the connections that pass its tests.
use cat_tag.Common.{
  ℕ, ◌+◌, ◌≤◌, ◌<◌, ◌≡◌, refl, sym, subst, ltb, Bool-cases, ◌∙◌, Bool, true, false, List, [], ◌∷◌,
  Option, none, some, if◌then◌else◌, String, Map, lookup, lookup-delete, Distinct, same, same_iff,
  Option-cases, inl, inr, arith,
}
use cat_tag.Pooled.{Connection, PooledConnection}
use cat_tag.Pool.{
  Pool, LifecycleManager, perform_maintenance, remove_listed, remove_if_present, to_remove,
  should_remove,
}
use cat_tag.Pool.Invariant.{IsValid}

listed : String → List String → Bool
listed d [] = false
listed d (k ∷ ks) = let rest = listed d ks in if same k d then true else rest

lookup-remove_if_present :
    (p : Pool) (k d : String)
    → lookup d (remove_if_present p k).connections
      ≡ (if same k d then none else lookup d p.connections)
unfolding remove_if_present
lookup-remove_if_present p k d = elim (Option-cases (lookup k p.connections)) [
  | inl e ↦ ground (arith, same_iff k d)
  | inr (v, e) ↦ ground (arith, lookup-delete k d p.connections)
]

lookup-remove_listed :
    (p : Pool) (ks : List String) (d : String)
    → lookup d (remove_listed p ks).connections
      ≡ (if listed d ks then none else lookup d p.connections)
unfolding remove_listed listed
lookup-remove_listed p [] d = refl
lookup-remove_listed p (k ∷ ks) d =
    ground
      (arith, lookup-remove_listed (remove_if_present p k) ks d, lookup-remove_if_present p k d)

-- What stays of an entry.
abbrev pub keep_if {ℓ} : {A : Type ℓ} → (A → Bool) → Option A → Option A
keep_if drop none = none
keep_if drop (some v) = if drop v then none else some v

listed-absent :
    (drop : PooledConnection → Bool) (m : Map PooledConnection) (d : String)
    → lookup d m ≡ none
    → listed d (to_remove drop m) ≡ false
unfolding listed to_remove lookup
listed-absent drop [] d e = refl
listed-absent drop ((k, v) ∷ m) d e = ground (arith, listed-absent drop m d)

kept :
    (drop : PooledConnection → Bool) (m : Map PooledConnection) (d : String)
    → Distinct m
    → (if listed d (to_remove drop m) then none else lookup d m) ≡ keep_if drop (lookup d m)
unfolding listed to_remove lookup
kept drop [] d u = refl
kept drop ((k, v) ∷ m) d u = ground (arith, kept drop m d u.1, same_iff k d, listed-absent drop m d)

-- Maintenance does to a device's entry what its test says.
pub lookup-perform_maintenance :
    (active : Connection → Bool) (now : ℕ) (p : Pool) (d : String)
    → IsValid p
    → lookup d (perform_maintenance active now p).connections
      ≡ keep_if (should_remove active now p.lifecycle) (lookup d p.connections)
unfolding perform_maintenance
lookup-perform_maintenance active now p d i =
    lookup-remove_listed p (to_remove (should_remove active now p.lifecycle) p.connections) d
    ∙ kept (should_remove active now p.lifecycle) p.connections d i.well_formed.distinct

-- What an entry becomes, and what the connection is like then.
pub data Maintained (active : Connection → Bool) (now : ℕ) (l : LifecycleManager)
    (before after : Option PooledConnection) : Type 0 where
  absent : before ≡ none → after ≡ none → Maintained active now l before after
  unused :
      (v : PooledConnection)
      → before ≡ some v
      → v.last_used + l.max_idle_time < now
      → after ≡ none
      → Maintained active now l before after
  aged :
      (v : PooledConnection)
      → before ≡ some v
      → v.created_at + l.max_lifetime < now
      → after ≡ none
      → Maintained active now l before after
  inactive :
      (v : PooledConnection)
      → before ≡ some v
      → active v.connection ≡ false
      → after ≡ none
      → Maintained active now l before after
  fresh :
      (v : PooledConnection)
      → before ≡ some v
      → now ≤ v.last_used + l.max_idle_time
      → now ≤ v.created_at + l.max_lifetime
      → active v.connection ≡ true
      → after ≡ some v
      → Maintained active now l before after

keep_if-Maintained :
    (active : Connection → Bool) (now : ℕ) (l : LifecycleManager) (o : Option PooledConnection)
    → Maintained active now l o (keep_if (should_remove active now l) o)
unfolding should_remove
keep_if-Maintained active now l none = absent refl refl
keep_if-Maintained active now l (some v) = elim (Bool-cases (active v.connection)) [
  | inr a ↦ inactive v refl a (ground arith)
  | inl a ↦ elim (Bool-cases (ltb (v.last_used + l.max_idle_time) now)) [
    | inl u ↦ unused v refl (ground arith) (ground arith)
    | inr u ↦ elim (Bool-cases (ltb (v.created_at + l.max_lifetime) now)) [
      | inl o ↦ aged v refl (ground arith) (ground arith)
      | inr o ↦ fresh v refl (ground arith) (ground arith) a (ground arith)
    ]
  ]
]

-- After maintenance of a valid pool a device's entry is the one it had if that was used within the
-- idle time, is within its lifetime and is active; it is gone if one of these fails.
pub perform_maintenance-Maintained :
    (active : Connection → Bool) (now : ℕ) (p : Pool) (d : String)
    → IsValid p
    → Maintained active now p.lifecycle
        (lookup d p.connections)
        (lookup d (perform_maintenance active now p).connections)
perform_maintenance-Maintained active now p d i =
    subst (Maintained active now p.lifecycle (lookup d p.connections))
      (sym (lookup-perform_maintenance active now p d i))
      (keep_if-Maintained active now p.lifecycle (lookup d p.connections))

-- So what is left is active, was used within the idle time and is within its lifetime.
pub perform_maintenance-fresh :
    (active : Connection → Bool) (now : ℕ) (p : Pool) (d : String) (v : PooledConnection)
    → IsValid p
    → lookup d (perform_maintenance active now p).connections ≡ some v
    → (active v.connection ≡ true)
      × (now ≤ v.last_used + p.lifecycle.max_idle_time)
      × (now ≤ v.created_at + p.lifecycle.max_lifetime)
      × (lookup d p.connections ≡ some v)
unfolding should_remove
perform_maintenance-fresh active now p d v i e = elim (Option-cases (lookup d p.connections)) [
  | inl gone ↦ ground (arith, lookup-perform_maintenance active now p d i)
  | inr (w, found) ↦ ground (arith, lookup-perform_maintenance active now p d i)
]
