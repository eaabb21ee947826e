-- ===== src/Examples/Devices.antt =====
-- A device manager with room for two devices.
use mathlib.Core.List.{Perm}
use cat_tag.Common.{ℕ, pos, negsuc, refl, ◌==◌, if◌then◌else◌, String, false, List, [], ◌∷◌, lookup}
use cat_tag.Devices.{Device, Manager, new_manager}
use cat_tag.Devices.Cache.{remove_oldest_device}
use cat_tag.Devices.Queries.{get_nearby_devices}
use cat_tag.Devices.Invariant.{IsValid}
use cat_tag.Devices.Invariant.Calls.{
  Call, add_call, connect_call, pair_call, rssi_call, cleanup_call, clear_call, run,
  run-new_manager-IsValid,
}
use cat_tag.Devices.Eviction.{Evicts, remove_oldest_device-Evicts}
use cat_tag.Devices.Nearby.{IsDescending, get_nearby_devices-IsDescending}

abbrev device : String → ℕ → ℕ → Device
device id seen weakness = record {
  id = id;
  name = "tag";
  address = "00:11";
  service_uuids = [];
  rssi = negsuc weakness;
  last_seen = seen;
  capabilities = record {
    supports_encryption = false;
    max_connections = pos 1;
    supported_protocols = [];
    battery_level = pos 90;
  };
}

-- Three devices, the first of which is connected.
abbrev three : Manager
three = record (new_manager 100 (pos 3)) {
  heap = λ r.
      (if r == 0 then device "a" 5 60 else if r == 1 then device "b" 10 40 else device "c" 20 50);
  next = 3;
  devices = ("a", 0) ∷ ("b", 1) ∷ ("c", 2) ∷ [];
  connected_devices = ("a", 0) ∷ [];
}

abbrev history : List Call
history =
    add_call 1 (device "a" 0 60)
    ∷ connect_call "a"
    ∷ add_call 2 (device "b" 0 50)
    ∷ pair_call "b"
    ∷ add_call 3 (device "c" 0 40)
    ∷ rssi_call 4 "a" (negsuc 30)
    ∷ cleanup_call 200
    ∷ clear_call
    ∷ []

run-new_manager-IsValid_example : IsValid (run (new_manager 100 (pos 2)) history)
run-new_manager-IsValid_example = run-new_manager-IsValid 100 (pos 2) history

remove_oldest_device-Evicts_example : Evicts 30 three (remove_oldest_device 30 three)
unfolding lookup
remove_oldest_device-Evicts_example =
    remove_oldest_device-Evicts 30 three (refl, (refl, (refl, tt))) refl

get_nearby_devices-IsDescending_example :
    IsDescending (get_nearby_devices (negsuc 55) three)
    × Perm (get_nearby_devices (negsuc 55) three) (device "b" 10 40 ∷ device "c" 20 50 ∷ [])
get_nearby_devices-IsDescending_example = get_nearby_devices-IsDescending (negsuc 55) three
