-- ===== src/Devices/Queries.antt =====
-- The queries of internal/device/manager.go. The library regexp is the parameter `Regexp`.
use cat_tag.Common.{
  ℕ, zero, suc, ◌+◌, ◌==◌, ℤ, pos, negsuc, Bool, true, false, not, ◌&&◌, ◌||◌, List, [], ◌∷◌,
  if◌then◌else◌, ltb, String, length, map, filter_by, values, same,
}
use Prim.Native.String.{◌++◌}
use cat_tag.Errors.{Result, ok, err}
use cat_tag.Devices.{Device, Manager, ManagerStats, is_device_paired}

-- `match_string pattern text`
pub record Regexp : Type 0 where
  pub match_string : String → String → Result Bool
  pub quote_meta : String → String

unfoldable pub get_connected_devices : Manager → List Device
get_connected_devices m = map m.heap (values m.connected_devices)

unfoldable pub get_paired_devices : Manager → List Device
get_paired_devices m = map m.heap (values m.paired_devices)

unfoldable pub get_device_count : Manager → ℕ × ℕ
get_device_count m = (length m.devices, length m.connected_devices)

unfoldable pub get_manager_stats : Manager → ManagerStats
get_manager_stats m = record (m.stats) {
  active_devices = length m.devices;
  connected_devices = length m.connected_devices;
  paired_devices = length m.paired_devices;
}

-- `a < b` of Go's `int`
abbrev pub below : ℤ → ℤ → Bool
below (pos a) (pos b) = ltb a b
below (pos a) (negsuc b) = false
below (negsuc a) (pos b) = true
below (negsuc a) (negsuc b) = ltb b a

-- The inner loop for one `i`: the device at `i` is exchanged for each later one that is stronger.
-- It returns what then stands at `i`, and the later ones.
unfoldable pub sweep : Device → List Device → Device × List Device
sweep x [] = (x, [])
sweep x (y ∷ ys) =
    if below x.rssi y.rssi
    then (let (top, rest) = sweep y ys in (top, x ∷ rest))
    else (let (top, rest) = sweep x ys in (top, y ∷ rest))

-- The outer loop, on the devices from `i` on; the fuel is their number.
unfoldable pub sort_descending : ℕ → List Device → List Device
unfolding sweep
sort_descending zero devices = devices
sort_descending (suc n) [] = []
sort_descending (suc n) (x ∷ xs) = let (top, rest) = sweep x xs in top ∷ sort_descending n rest

unfoldable pub get_nearby_devices : ℤ → Manager → List Device
unfolding sort_descending
get_nearby_devices max_distance m =
    let near =
      filter_by (λ device. not (below device.rssi max_distance)) (map m.heap (values m.devices)) in
    sort_descending (length near) near

pub record DeviceFilter : Type 0 where
  pub name_pattern : String
  pub service_uuids : List String
  pub min_rssi : ℤ
  pub require_auth : Bool
  pub device_types : List String
  pub max_age : ℕ

unfoldable pub is_among : String → List String → Bool
is_among s [] = false
is_among s (t ∷ ts) = same s t || is_among s ts

-- A filter text that the device has, for the two nested loops.
unfoldable pub shares_service : List String → List String → Bool
unfolding is_among
shares_service [] uuids = false
shares_service (u ∷ us) uuids = is_among u uuids || shares_service us uuids

abbrev is_zero : ℤ → Bool
is_zero (pos n) = n == 0
is_zero (negsuc n) = false

module _ (x : Regexp) where
  -- `matched, _ := regexp.MatchString(pattern, text)`
  unfoldable pub matched : String → String → Bool
  matched pattern text = elim (x.match_string pattern text) [ ok b ↦ b | err e ↦ false ]

  unfoldable pub matches_any : List String → String → Bool
  unfolding matched
  matches_any [] name = false
  matches_any (p ∷ ps) name = matched ("(?i)" ++ p) name || matches_any ps name

  unfoldable pub get_device_type : Device → String
  unfolding matches_any matched
  get_device_type device =
      if matches_any
        ("iPhone" ∷ "iPad" ∷ "Android" ∷ "Samsung" ∷ "Huawei" ∷ "Xiaomi" ∷ "OnePlus" ∷ [])
        device.name
      then "phone"
      else if matches_any
          ("Headset" ∷ "Headphone" ∷ "Earbuds" ∷ "Speaker" ∷ "AirPods" ∷ "Beats" ∷ []) device.name
      then "headset"
      else if matched "(?i)(keyboard|kbd)" device.name
      then "keyboard"
      else if matched "(?i)mouse" device.name
      then "mouse"
      else if matches_any ("MacBook" ∷ "ThinkPad" ∷ "Laptop" ∷ "Desktop" ∷ "PC" ∷ []) device.name
      then "laptop"
      else "unknown"

  unfoldable pub matches_filter : ℕ → Device → DeviceFilter → Manager → Bool
  unfolding matched shares_service is_among get_device_type is_device_paired
  matches_filter now device f m =
      if not (same f.name_pattern "") && not (matched f.name_pattern device.name)
      then false
      else if not (length f.service_uuids == 0)
          && not (shares_service f.service_uuids device.service_uuids)
      then false
      else if not (is_zero f.min_rssi) && below device.rssi f.min_rssi
      then false
      else if ltb 0 f.max_age && ltb (device.last_seen + f.max_age) now
      then false
      else if not (length f.device_types == 0)
          && not (is_among (get_device_type device) f.device_types)
      then false
      else if f.require_auth && not (is_device_paired device.id m)
      then false
      else true

  unfoldable pub get_devices_by_type : String → Manager → List Device
  get_devices_by_type t m =
      filter_by (λ device. same (get_device_type device) t) (map m.heap (values m.devices))

  unfoldable pub has_service : String → List String → Bool
  unfolding matched
  has_service pattern [] = false
  has_service pattern (u ∷ us) = matched pattern u || has_service pattern us

  unfoldable pub search_devices : String → Manager → List Device
  unfolding matched has_service
  search_devices query m =
      filter_by
        (λ device.
          matched ("(?i)" ++ x.quote_meta query) device.name
          || (matched ("(?i)" ++ x.quote_meta query) device.address
              || has_service ("(?i)" ++ x.quote_meta query) device.service_uuids))
        (map m.heap (values m.devices))
