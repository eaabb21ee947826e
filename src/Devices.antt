-- ===== src/Devices.antt =====
-- `Manager` of internal/device/manager.go. Each map holds pointers into one heap of devices, so that
-- what is written through one map is read through the others; a fresh pointer is `next`. A method is
-- one step, since it holds the lock from its start to its end, except `DiscoverDevices`, which is a
-- step for its start, one for each device that the adapter finds, and one for its end. Times are
-- nanoseconds, `events` is what the callbacks are told, the latest first, and a map is iterated in
-- the order of its list.
pub mod Cache
pub mod Queries
pub mod Invariant
pub mod Eviction
pub mod Expiry
pub mod Nearby
use cat_tag.Common.{
  ℕ, suc, ◌+◌, ◌==◌, ℤ, pos, Bool, true, false, not, ◌||◌, List, [], ◌∷◌, Option, none, some,
  if◌then◌else◌, ltb, String, length, Map, lookup, insert, delete,
}
use cat_tag.Errors.{
  GoError, Result, ok, err, new_bluetooth_error, new_bluetooth_error_with_device, not_found,
  already_exists,
}

-- ErrCodeDeviceNotFound and ErrCodeDeviceOffline
abbrev pub device_not_found : ℕ
device_not_found = 3000

abbrev pub device_offline : ℕ
device_offline = 3002

pub record DeviceCapabilities : Type 0 where
  pub supports_encryption : Bool
  pub max_connections : ℤ
  pub supported_protocols : List String
  pub battery_level : ℤ

pub record Device : Type 0 where
  pub id : String
  pub name : String
  pub address : String
  pub service_uuids : List String
  pub rssi : ℤ
  pub last_seen : ℕ
  pub capabilities : DeviceCapabilities

pub data DeviceEvent : Type 0 where
  discovered connected disconnected paired unpaired updated lost : DeviceEvent

pub record ManagerStats : Type 0 where
  pub total_devices_found : ℕ
  pub active_devices : ℕ
  pub connected_devices : ℕ
  pub paired_devices : ℕ
  pub scan_count : ℕ
  pub last_scan_time : ℕ

pub record Manager : Type 0 where
  pub heap : ℕ → Device
  pub next : ℕ
  pub devices : Map ℕ
  pub connected_devices : Map ℕ
  pub paired_devices : Map ℕ
  pub cache_timeout : ℕ
  pub max_devices : ℤ
  pub running : Bool
  pub scanning : Bool
  pub stats : ManagerStats
  pub events : List (DeviceEvent × Device)

-- The zero value of a device.
abbrev zero_device : Device
zero_device = record {
  id = "";
  name = "";
  address = "";
  service_uuids = [];
  rssi = pos 0;
  last_seen = 0;
  capabilities = record {
    supports_encryption = false;
    max_connections = pos 0;
    supported_protocols = [];
    battery_level = pos 0;
  };
}

unfoldable pub new_manager : ℕ → ℤ → Manager
new_manager cache_timeout max_devices = record {
  heap = λ r. zero_device;
  next = 0;
  devices = [];
  connected_devices = [];
  paired_devices = [];
  cache_timeout = cache_timeout;
  max_devices = max_devices;
  running = false;
  scanning = false;
  stats = record {
    total_devices_found = 0;
    active_devices = 0;
    connected_devices = 0;
    paired_devices = 0;
    scan_count = 0;
    last_scan_time = 0;
  };
  events = [];
}

-- `*p = device`
unfoldable pub write : ℕ → Device → (ℕ → Device) → ℕ → Device
write p device heap r = if r == p then device else heap r

unfoldable pub notify_device_event : DeviceEvent → Device → Manager → Manager
notify_device_event e device m = record m { events = (e, device) ∷ m.events }

-- `_, exists := m[key]`
abbrev pub exists_in : String → Map ℕ → Bool
exists_in d m = elim (lookup d m) [ none ↦ false | some r ↦ true ]

unfoldable pub is_device_connected : String → Manager → Bool
is_device_connected d m = exists_in d m.connected_devices

unfoldable pub is_device_paired : String → Manager → Bool
is_device_paired d m = exists_in d m.paired_devices

abbrev pub is_protected : String → Manager → Bool
is_protected d m = exists_in d m.connected_devices || exists_in d m.paired_devices

unfoldable pub get_device : ℕ → String → Manager → Result Device
get_device now d m = elim (lookup d m.devices) [
  | none ↦ err (new_bluetooth_error_with_device device_not_found d "get_device")
  | some r ↦
      if ltb ((m.heap r).last_seen + m.cache_timeout) now
      then err (new_bluetooth_error_with_device device_offline d "get_device")
      else ok (m.heap r)
]

abbrev pub Result? : Type 0
Result? = Option GoError

abbrev pub unknown_device : String → String → Result?
unknown_device d operation = some (new_bluetooth_error_with_device device_not_found d operation)

unfoldable pub mark_device_connected : String → Manager → Manager × Result?
unfolding notify_device_event
mark_device_connected d m = elim (lookup d m.devices) [
  | none ↦ (m, unknown_device d "mark_connected")
  | some r ↦ (
    notify_device_event connected (m.heap r)
        (record m { connected_devices = insert d r m.connected_devices }),
    none,
  )
]

unfoldable pub mark_device_disconnected : String → Manager → Manager × Result?
unfolding notify_device_event
mark_device_disconnected d m = elim (lookup d m.connected_devices) [
  | none ↦ (m, unknown_device d "mark_disconnected")
  | some r ↦ (
    notify_device_event disconnected (m.heap r)
        (record m { connected_devices = delete d m.connected_devices }),
    none,
  )
]

unfoldable pub pair_device : String → Manager → Manager × Result?
unfolding notify_device_event
pair_device d m = elim (lookup d m.devices) [
  | none ↦ (m, unknown_device d "pair_device")
  | some r ↦
      if exists_in d m.paired_devices
      then (m, some (new_bluetooth_error_with_device already_exists d "pair_device"))
      else (let pairs = insert d r m.paired_devices in
          (
            notify_device_event paired (m.heap r) (record m {
              paired_devices = pairs;
              stats = record (m.stats) { paired_devices = length pairs };
            }),
            none,
          ))
]

unfoldable pub unpair_device : String → Manager → Manager × Result?
unfolding notify_device_event
unpair_device d m = elim (lookup d m.paired_devices) [
  | none ↦ (m, unknown_device d "unpair_device")
  | some r ↦
      (let cut =
          (if exists_in d m.connected_devices
            then notify_device_event disconnected (m.heap r)
                (record m { connected_devices = delete d m.connected_devices })
            else m) in
        let pairs = delete d m.paired_devices in
        (
          notify_device_event unpaired (m.heap r) (record cut {
            paired_devices = pairs;
            stats = record (m.stats) { paired_devices = length pairs };
          }),
          none,
        ))
]

unfoldable pub update_device_rssi : ℕ → String → ℤ → Manager → Manager × Result?
unfolding write notify_device_event
update_device_rssi now d rssi m = elim (lookup d m.devices) [
  | none ↦ (m, unknown_device d "update_rssi")
  | some r ↦
      (let device : Device = record (m.heap r) { rssi = rssi; last_seen = now } in
        (notify_device_event updated device (record m { heap = write r device m.heap }), none))
]

-- `Start` and `Stop`, without the services for discovery and pairing.
unfoldable pub start : Manager → Manager × Result?
start m =
    if m.running
    then (m, some (new_bluetooth_error already_exists))
    else (record m { running = true }, none)

unfoldable pub stop : Manager → Manager × Result?
stop m =
    if not m.running
    then (m, some (new_bluetooth_error not_found))
    else (record m { running = false; devices = []; connected_devices = [] }, none)

-- `DiscoverDevices` begins, receives what the adapter found, and ends.
unfoldable pub begin_discovery : ℕ → Manager → Manager
begin_discovery now m = record m {
  stats = record (m.stats) { scan_count = suc m.stats.scan_count; last_scan_time = now };
  scanning = true;
}

unfoldable pub end_discovery : Manager → Manager
end_discovery m = record m { scanning = false }
