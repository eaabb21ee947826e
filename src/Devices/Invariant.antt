-- ===== src/Devices/Invariant.antt =====
-- A device manager's invariant, and what keeps it.
pub mod Calls
pub mod Pairs
use cat_tag.Common.{
  ℕ, suc, ◌≤◌, ◌<◌, ◌==◌, ==_iff, ◌≡◌, refl, sym, ap, subst, ◌∙◌, false, Option, none, some, String,
  Map, lookup, insert, delete, lookup-insert, lookup-delete, Distinct, insert-Distinct,
  delete-Distinct, same, same_iff, if_elim, arith,
}
use cat_tag.Devices.{Device, Manager, write, notify_device_event, exists_in}
use cat_tag.Devices.Cache.{cache_device}

-- Each entry of a map points to an allocated device with its key as identifier.
pub Points : (ℕ → Device) → ℕ → Map ℕ → Type 0
Points heap next m = (d : String) (r : ℕ) → lookup d m ≡ some r → (r < next) × ((heap r).id ≡ d)

-- A connected device is in the cache, as the same object.
pub Shares : Map ℕ → Map ℕ → Type 0
Shares inner outer = (d : String) (r : ℕ) → lookup d inner ≡ some r → lookup d outer ≡ some r

pub record IsValid (m : Manager) : Type 0 where
  pub cached : Points m.heap m.next m.devices
  pub bonded : Points m.heap m.next m.paired_devices
  pub shared : Shares m.connected_devices m.devices
  pub distinct : Distinct m.devices

delete-Points :
    (heap : ℕ → Device) (next : ℕ) (d : String) (m : Map ℕ)
    → Points heap next m
    → Points heap next (delete d m)
unfolding Points
delete-Points heap next d m p e r h = p e r (ground (arith, lookup-delete d e m))

delete-Shares : (d : String) (a b : Map ℕ) → Shares a b → Shares (delete d a) (delete d b)
unfolding Shares
delete-Shares d a b s e r h = ground (arith, lookup-delete d e a, lookup-delete d e b, s e r)

-- A device that is not connected leaves.
drop-Shares :
    (d : String) (a b : Map ℕ) → exists_in d a ≡ false → Shares a b → Shares a (delete d b)
unfolding Shares
drop-Shares d a b out s e r h = ground (arith, lookup-delete d e b, same_iff d e, s e r h)

insert-Points :
    (heap : ℕ → Device) (next : ℕ) (d : String) (r : ℕ) (m : Map ℕ)
    → r < next
    → (heap r).id ≡ d
    → Points heap next m
    → Points heap next (insert d r m)
unfolding Points
insert-Points heap next d r m below named p e q h =
    let found = lookup-insert d e r m in
    if_elim {A = Option ℕ} (λ o. o ≡ some q → (q < next) × ((heap q).id ≡ e)) (same d e)
      (λ hit at.
        let here : r ≡ q = ground arith in
        let keyed : d ≡ e = (same_iff d e).0 hit in
        (ground arith, ap (λ s. (heap s).id) (sym here) ∙ named ∙ keyed))
      (λ miss at. p e q at) (sym found ∙ h)

insert-Shares :
    (d : String) (r : ℕ) (a b : Map ℕ) → lookup d b ≡ some r → Shares a b → Shares (insert d r a) b
unfolding Shares
insert-Shares d r a b h s e q at = ground (arith, lookup-insert d e r a, same_iff d e, s e q)

-- A device that is not in the cache is not connected either.
extend-Shares :
    (d : String) (r : ℕ) (a b : Map ℕ) → lookup d b ≡ none → Shares a b → Shares a (insert d r b)
unfolding Shares
extend-Shares d r a b h s e q at = ground (arith, lookup-insert d e r b, same_iff d e, s e q at)

-- The allocated devices keep their identifiers.
keep-Points :
    (heap heap' : ℕ → Device) (next next' : ℕ) (m : Map ℕ)
    → ((r : ℕ) → r < next → (heap' r).id ≡ (heap r).id)
    → next ≤ next'
    → Points heap next m
    → Points heap' next' m
unfolding Points
keep-Points heap heap' next next' m same_ids more p d r h =
    let (below, named) = p d r h in (omega arith, same_ids r below ∙ named)

write-ids :
    (p : ℕ) (device : Device) (heap : ℕ → Device) (r : ℕ)
    → device.id ≡ (heap p).id
    → (write p device heap r).id ≡ (heap r).id
unfolding write
write-ids p device heap r e =
    if_elim {A = Device} (λ q. q.id ≡ (heap r).id) (r == p)
      (λ hit. e ∙ ap (λ s. (heap s).id) (sym ((==_iff r p).0 hit))) (λ miss. refl)

write-fresh :
    (device : Device) (heap : ℕ → Device) (next r : ℕ)
    → r < next
    → (write next device heap r).id ≡ (heap r).id
unfolding write
write-fresh device heap next r below =
    if_elim {A = Device} (λ q. q.id ≡ (heap r).id) (r == next)
      (λ hit. absurd (ground (arith, ==_iff r next))) (λ miss. refl)

write-here : (p : ℕ) (device : Device) (heap : ℕ → Device) → write p device heap p ≡ device
unfolding write
write-here p device heap = ground (arith, ==_iff p p)

-- A device's fields change, but not its identifier.
update-IsValid :
    (r : ℕ) (device : Device) (m q : Manager)
    → device.id ≡ (m.heap r).id
    → q.heap ≡ write r device m.heap
    → q.next ≡ m.next
    → q.devices ≡ m.devices
    → q.connected_devices ≡ m.connected_devices
    → q.paired_devices ≡ m.paired_devices
    → IsValid m
    → IsValid q
update-IsValid r device m q e h n a b c v =
    let ids : (heap : ℕ → Device)
        → heap ≡ write r device m.heap
        → (s : ℕ) → s < m.next
        → (heap s).id ≡ (m.heap s).id =
      λ heap same_heap s _.
        subst (λ g. (g s).id ≡ (m.heap s).id) (sym same_heap) (write-ids r device m.heap s e) in
    record {
      cached =
          subst (Points q.heap q.next) (sym a) (
            keep-Points m.heap q.heap m.next q.next m.devices (ids q.heap h) (omega arith)
              v.cached);
      bonded = subst (Points q.heap q.next) (sym c) (
          keep-Points m.heap q.heap m.next q.next m.paired_devices (ids q.heap h) (omega arith)
            v.bonded);
      shared =
          subst (λ x. Shares q.connected_devices x) (sym a)
            (subst (λ x. Shares x m.devices) (sym b) v.shared);
      distinct = subst Distinct (sym a) v.distinct;
    }

-- A device leaves the cache, and the connected ones if it is among them.
lose_one-IsValid :
    (d : String) (m : Manager)
    → exists_in d m.connected_devices ≡ false
    → IsValid m
    → IsValid (record m { devices = delete d m.devices })
lose_one-IsValid d m out v = record {
  cached = delete-Points m.heap m.next d m.devices v.cached;
  bonded = v.bonded;
  shared = drop-Shares d m.connected_devices m.devices out v.shared;
  distinct = delete-Distinct d m.devices v.distinct;
}

forget-IsValid :
    (d : String) (m : Manager)
    → IsValid m
    → IsValid (record m {
      devices = delete d m.devices;
      connected_devices = delete d m.connected_devices;
    })
forget-IsValid d m v = record {
  cached = delete-Points m.heap m.next d m.devices v.cached;
  bonded = v.bonded;
  shared = delete-Shares d m.connected_devices m.devices v.shared;
  distinct = delete-Distinct d m.devices v.distinct;
}

-- A device's connection is put down or taken away.
cut-IsValid :
    (d : String) (m : Manager)
    → IsValid m
    → IsValid (record m { connected_devices = delete d m.connected_devices })
unfolding Shares
cut-IsValid d m v = record {
  cached = v.cached;
  bonded = v.bonded;
  shared = λ e r h. v.shared e r (ground (arith, lookup-delete d e m.connected_devices));
  distinct = v.distinct;
}

notify-IsValid :
    (e : _) (x : Device) (m : Manager) → IsValid m → IsValid (notify_device_event e x m)
unfolding notify_device_event
notify-IsValid e x m v = record {
  cached = v.cached;
  bonded = v.bonded;
  shared = v.shared;
  distinct = v.distinct;
}

cache_device-IsValid :
    (device : Device) (m : Manager)
    → lookup device.id m.devices ≡ none
    → IsValid m
    → IsValid (cache_device device m)
unfolding cache_device notify_device_event
cache_device-IsValid device m new v =
    let heap' = write m.next device m.heap in
    let kept : (x : Map ℕ) → Points m.heap m.next x → Points heap' (suc m.next) x = λ x p.
      keep-Points m.heap heap' m.next (suc m.next) x
        (λ r below. write-fresh device m.heap m.next r below) (omega arith) p in
    record {
      cached =
          insert-Points heap' (suc m.next) device.id m.next m.devices (omega arith)
            (ap (λ x. x.id) (write-here m.next device m.heap)) (kept m.devices v.cached);
      bonded = kept m.paired_devices v.bonded;
      shared = extend-Shares device.id m.next m.connected_devices m.devices new v.shared;
      distinct = insert-Distinct device.id m.next m.devices v.distinct;
    }
