-- ===== src/Devices/Cache.antt =====
-- What enters and what leaves the cache of internal/device/manager.go.
use cat_tag.Common.{
  ℕ, suc, ◌+◌, ◌*◌, at_least, Bool, false, List, [], ◌∷◌, none, some, if◌then◌else◌, ltb, String,
  length, Map, lookup, insert, delete, same,
}
use cat_tag.Devices.{
  Device, Manager, discovered, disconnected, updated, lost, write, notify_device_event, exists_in,
  is_protected,
}

-- The oldest unprotected device so far, its identifier and its time, after one more device.
unfoldable pub older : Manager → String → ℕ → String × ℕ → String × ℕ
older m d r found =
    if is_protected d m
    then found
    else if ltb ((m.heap r).last_seen) found.1
    then (d, (m.heap r).last_seen)
    else found

-- The loop of `removeOldestDevice`.
unfoldable pub find_oldest : Manager → Map ℕ → String × ℕ → String × ℕ
unfolding older
find_oldest m [] found = found
find_oldest m ((d, r) ∷ rest) found = find_oldest m rest (older m d r found)

-- A device that leaves the cache.
unfoldable pub lose : String → Manager → Manager
unfolding notify_device_event
lose d m = elim (lookup d m.devices) [
  | none ↦ m
  | some r ↦ notify_device_event lost (m.heap r) (record m { devices = delete d m.devices })
]

unfoldable pub remove_oldest_device : ℕ → Manager → Manager
unfolding find_oldest lose
remove_oldest_device now m =
    let (d, t) = find_oldest m m.devices ("", now) in if same d "" then m else lose d m

-- A device that is not in the cache yet: `&device` is a fresh pointer.
unfoldable pub cache_device : Device → Manager → Manager
unfolding write notify_device_event
cache_device device m = notify_device_event discovered device (record m {
  heap = write m.next device m.heap;
  next = suc m.next;
  devices = insert device.id m.next m.devices;
  stats = record (m.stats) { total_devices_found = suc m.stats.total_devices_found };
})

unfoldable pub add_device : ℕ → Device → Manager → Manager
unfolding write notify_device_event remove_oldest_device cache_device
add_device now found m =
    let device : Device = record found { last_seen = now } in
    elim (lookup device.id m.devices) [
      | some r ↦ notify_device_event updated device (record m { heap = write r device m.heap })
      | none ↦
          cache_device device
            (if at_least (length m.devices) m.max_devices then remove_oldest_device now m else m)
    ]

unfoldable pub remove_device : String → Manager → Manager
unfolding notify_device_event
remove_device d m = elim (lookup d m.devices) [
  | none ↦ m
  | some r ↦
      notify_device_event lost (m.heap r) (record m {
        devices = delete d m.devices;
        connected_devices = delete d m.connected_devices;
      })
]

-- What a tick of `cleanupExpiredDevices` removes: a paired device has three times as long.
unfoldable pub is_expired : ℕ → String → Device → Manager → Bool
is_expired now d device m =
    if exists_in d m.connected_devices
    then false
    else if exists_in d m.paired_devices
    then ltb (device.last_seen + m.cache_timeout * 3) now
    else ltb (device.last_seen + m.cache_timeout) now

unfoldable pub expired_devices : ℕ → Map ℕ → Manager → List String
unfolding is_expired
expired_devices now [] m = []
expired_devices now ((d, r) ∷ rest) m =
    let ds = expired_devices now rest m in if is_expired now d (m.heap r) m then d ∷ ds else ds

unfoldable pub lose_expired : List String → Manager → Manager
unfolding notify_device_event lose
lose_expired [] m = m
lose_expired (d ∷ ds) m = elim (lookup d m.devices) [
  | none ↦ lose_expired ds m
  | some r ↦ lose_expired ds (
      notify_device_event lost (m.heap r) (
        if exists_in d m.connected_devices
        then notify_device_event disconnected (m.heap r) (record m {
          devices = delete d m.devices;
          connected_devices = delete d m.connected_devices;
        })
        else record m { devices = delete d m.devices }))
]

unfoldable pub cleanup_expired_devices : ℕ → Manager → Manager
unfolding expired_devices lose_expired
cleanup_expired_devices now m = lose_expired (expired_devices now m.devices m) m

unfoldable pub protected_devices : Map ℕ → Manager → Map ℕ
protected_devices [] m = []
protected_devices ((d, r) ∷ rest) m =
    let kept = protected_devices rest m in
    if exists_in d m.connected_devices
    then (d, r) ∷ kept
    else if exists_in d m.paired_devices
    then (d, r) ∷ kept
    else kept

unfoldable pub clear_device_cache : Manager → Manager
unfolding protected_devices
clear_device_cache m = record m { devices = protected_devices m.devices m }
