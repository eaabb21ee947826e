-- ===== src/Devices/Expiry.antt =====
-- What a tick of `cleanupExpiredDevices` of internal/device/manager.go takes from the cache.
use cat_tag.Common.{
  ℕ, ◌+◌, ◌*◌, ◌≤◌, ◌<◌, ◌≡◌, Bool, false, ◌||◌, List, [], ◌∷◌, Option, none, some, if◌then◌else◌,
  String, lookup, same,
}
use cat_tag.Devices.{Manager, exists_in}
use cat_tag.Devices.Cache.{is_expired}

-- Whether a device stands in a list of identifiers.
abbrev is_listed : String → List String → Bool
is_listed d [] = false
is_listed d (e ∷ es) = same e d || is_listed d es

-- A list of devices none of which is connected.
AllUnconnected : List String → Manager → Type 0
AllUnconnected [] m = Unit {0}
AllUnconnected (d ∷ ds) m = (exists_in d m.connected_devices ≡ false) × AllUnconnected ds m

-- Nothing but the cache and the events changes.
record Lost (ds : List String) (m q : Manager) : Type 0 where
  pub cached :
      (e : String) → lookup e q.devices ≡ (if is_listed e ds then none else lookup e m.devices)
  pub connected_kept : q.connected_devices ≡ m.connected_devices
  pub paired_kept : q.paired_devices ≡ m.paired_devices

-- What the cleaning leaves of a device.
abbrev pub unless_expired : ℕ → String → Manager → Option ℕ → Option ℕ
unless_expired now d m none = none
unless_expired now d m (some r) = if is_expired now d (m.heap r) m then none else some r

-- What the cache has of a device before and after a tick, and how long ago the device was seen then.
pub data Cleaned (now : ℕ) (d : String) (m : Manager) (before after : Option ℕ) : Type 0 where
  absent : before ≡ none → after ≡ none → Cleaned now d m before after
  connected :
      (r s : ℕ)
      → before ≡ some r
      → lookup d m.connected_devices ≡ some s
      → after ≡ some r
      → Cleaned now d m before after
  paired_stays :
      (r s : ℕ)
      → before ≡ some r
      → lookup d m.paired_devices ≡ some s
      → now ≤ (m.heap r).last_seen + 3 * m.cache_timeout
      → after ≡ some r
      → Cleaned now d m before after
  paired_goes :
      (r s : ℕ)
      → before ≡ some r
      → lookup d m.connected_devices ≡ none
      → lookup d m.paired_devices ≡ some s
      → (m.heap r).last_seen + 3 * m.cache_timeout < now
      → after ≡ none
      → Cleaned now d m before after
  stays :
      (r : ℕ)
      → before ≡ some r
      → now ≤ (m.heap r).last_seen + m.cache_timeout
      → after ≡ some r
      → Cleaned now d m before after
  goes :
      (r : ℕ)
      → before ≡ some r
      → lookup d m.connected_devices ≡ none
      → lookup d m.paired_devices ≡ none
      → (m.heap r).last_seen + m.cache_timeout < now
      → after ≡ none
      → Cleaned now d m before after
