-- ===== src/Pairing.antt =====
-- `PairingService` of internal/device/pairing.go, with the device manager that it pairs devices in.
-- A session is an object of a heap, to which the map of the active pairings points; its goroutine
-- stands at a `Stage`, and each of its moves is a function of its own. A context is done when it was
-- cancelled or its time has come. The bytes of crypto/rand are arguments, and so is the text that
-- `time.Now().Format` gives; a PIN is its bytes.
pub mod Steps
pub mod Codes
pub mod Invariant
use Prim.Native.String.{◌++◌}
use cat_tag.Common.{
  ℕ, zero, suc, ◌+◌, ◌*◌, ◌%◌, ◌^◌, ◌==◌, ℤ, pos, to_ℕ, is_positive, at_least, Bool, true, false,
  not, [], ◌∷◌, Option, none, some, if◌then◌else◌, leb, String, length, Map, lookup, insert, delete,
}
use cat_tag.Errors.{
  GoError, Result, ok, err, new_bluetooth_error, new_bluetooth_error_with_device, not_found,
  already_exists, resource_busy, not_supported, invalid_parameter,
}
use cat_tag.Protocol.Bytes.{Bytes}
use cat_tag.Devices.{Device, get_device, is_device_paired}
use cat_tag.Devices

abbrev pub second : ℕ
second = 1000000000

pub record PairingConfig : Type 0 where
  pub default_timeout : ℕ
  pub max_concurrent_pairs : ℤ
  pub require_confirmation : Bool
  pub auto_accept : Bool
  pub pin_length : ℤ
  pub enable_encryption : Bool

unfoldable pub default_pairing_config : PairingConfig
default_pairing_config = record {
  default_timeout = 30 * second;
  max_concurrent_pairs = pos 3;
  require_confirmation = true;
  auto_accept = false;
  pin_length = pos 6;
  enable_encryption = true;
}

pub data PairingStatus : Type 0 where
  pending in_progress waiting_auth completed failed cancelled timed_out : PairingStatus

-- Where the goroutine of a session stands: not started, before the switch over the method, in the
-- select of the PIN since a time, in a select for the confirmation, before the deferred function, or
-- at its end.
pub data Stage : Type 0 where
  spawned chosen : Stage
  verifying : ℕ → Stage
  confirming ending ended : Stage

-- The methods are numbered PIN 0, passkey 1, confirmation 2, out of band 3. `is_cancelled` is that of
-- the session's context, `confirmation` the content of the channel.
pub record PairingSession : Type 0 where
  pub id : String
  pub device_id : String
  pub device_name : String
  pub method : ℕ
  pub status : PairingStatus
  pub pin : Bytes
  pub passkey : ℕ
  pub start_time : ℕ
  pub timeout : ℕ
  pub is_cancelled : Bool
  pub confirmation : Option Bool
  pub stage : Stage

pub record PairingService : Type 0 where
  pub manager : Devices.Manager
  pub heap : ℕ → PairingSession
  pub next : ℕ
  pub active_pairings : Map ℕ
  pub pairing_config : PairingConfig
  pub running : Bool

abbrev zero_session : PairingSession
zero_session = record {
  id = "";
  device_id = "";
  device_name = "";
  method = 0;
  status = pending;
  pin = [];
  passkey = 0;
  start_time = 0;
  timeout = 0;
  is_cancelled = true;
  confirmation = none;
  stage = ended;
}

unfoldable pub new_pairing_service : Devices.Manager → PairingConfig → PairingService
new_pairing_service manager config = record {
  manager = manager;
  heap = λ r. zero_session;
  next = 0;
  active_pairings = [];
  pairing_config = config;
  running = false;
}

unfoldable pub set_session : ℕ → PairingSession → (ℕ → PairingSession) → ℕ → PairingSession
set_session p session heap r = if r == p then session else heap r

-- `*session = ...`
abbrev pub write_session : ℕ → PairingSession → PairingService → PairingService
write_session r session s = record s { heap = set_session r session s.heap }

abbrev pub set_status : ℕ → PairingStatus → Stage → PairingService → PairingService
set_status r status stage s =
    write_session r (record (s.heap r) { status = status; stage = stage }) s

abbrev pub Result? : Type 0
Result? = Option GoError

-- `is_enabled` is what the adapter says.
unfoldable pub start : Bool → PairingService → PairingService × Result?
start is_enabled s =
    if s.running
    then (s, some (new_bluetooth_error already_exists))
    else if not is_enabled
    then (s, some (new_bluetooth_error not_supported))
    else (record s { running = true }, none)

unfoldable pub cancel_session : ℕ → PairingService → PairingService
unfolding set_session
cancel_session r s = write_session r (record (s.heap r) { is_cancelled = true }) s

unfoldable pub cancel_all : Map ℕ → PairingService → PairingService
unfolding cancel_session
cancel_all [] s = s
cancel_all ((id, r) ∷ rest) s = cancel_all rest (cancel_session r s)

unfoldable pub stop : PairingService → PairingService × Result?
unfolding cancel_all
stop s =
    if not s.running
    then (s, some (new_bluetooth_error not_found))
    else (record (cancel_all s.active_pairings s) { running = false }, none)

unfoldable pub new_session : ℕ → String → String → Device → ℕ → PairingConfig → PairingSession
new_session now id device_id device method config = record {
  id = id;
  device_id = device_id;
  device_name = device.name;
  method = method;
  status = pending;
  pin = [];
  passkey = 0;
  start_time = now;
  timeout = config.default_timeout;
  is_cancelled = false;
  confirmation = none;
  stage = spawned;
}

-- `stamp` is the time with its seconds. The session's identifier is not checked against the map.
unfoldable pub start_pairing : ℕ → String → String → ℕ → PairingService → PairingService × Result ℕ
unfolding set_session new_session get_device is_device_paired
start_pairing now stamp device_id method s =
    if not s.running
    then (s, err (new_bluetooth_error not_supported))
    else elim (get_device now device_id s.manager) [
      | err e ↦ (s, err e)
      | ok device ↦
          if is_device_paired device_id s.manager
          then (s, err (new_bluetooth_error_with_device already_exists device_id "start_pairing"))
          else if at_least (length s.active_pairings) s.pairing_config.max_concurrent_pairs
          then (s, err (new_bluetooth_error resource_busy))
          else (let id = stamp ++ "_pair" in
              (
                record s {
                  heap =
                      set_session s.next
                        (new_session now id device_id device method s.pairing_config) s.heap;
                  next = suc s.next;
                  active_pairings = insert id s.next s.active_pairings;
                },
                ok s.next,
              ))
    ]

unfoldable pub cancel_pairing : String → PairingService → PairingService × Result?
unfolding set_session
cancel_pairing id s = elim (lookup id s.active_pairings) [
  | none ↦ (s, some (new_bluetooth_error not_found))
  | some r ↦ (
    record (write_session r (record (s.heap r) { is_cancelled = true; status = cancelled }) s) {
      active_pairings = delete id s.active_pairings;
    },
    none,
  )
]

abbrev pub is_waiting : PairingStatus → Bool
is_waiting waiting_auth = true
is_waiting _ = false

-- A channel that stays full for a second is the timeout.
unfoldable pub confirm_pairing : String → Bool → PairingService → PairingService × Result?
unfolding set_session
confirm_pairing id confirm s = elim (lookup id s.active_pairings) [
  | none ↦ (s, some (new_bluetooth_error not_found))
  | some r ↦
      if not (is_waiting (s.heap r).status)
      then (s, some (new_bluetooth_error invalid_parameter))
      else elim ((s.heap r).confirmation) [
        | none ↦ (write_session r (record (s.heap r) { confirmation = some confirm }) s, none)
        | some b ↦ (s, some (new_bluetooth_error 1002))
      ]
]

unfoldable pub provide_pin : String → Bytes → PairingService → PairingService × Result?
unfolding set_session
provide_pin id pin s = elim (lookup id s.active_pairings) [
  | none ↦ (s, some (new_bluetooth_error not_found))
  | some r ↦
      if not ((s.heap r).method == 0)
      then (s, some (new_bluetooth_error invalid_parameter))
      else (write_session r (record (s.heap r) { pin = pin }) s, none)
]

-- `int(b[0]) % max` of the byte that was read
unfoldable pub random_int : ℕ → ℕ → ℕ
random_int max b = b % max

-- A digit is one byte of text; `random i` is the byte read for the digit that `i` more follow.
unfoldable pub pin_digits : ℕ → (ℕ → ℕ) → Bytes
unfolding random_int
pin_digits zero random = []
pin_digits (suc n) random = (48 + random_int 10 (random n)) ∷ pin_digits n random

unfoldable pub generate_pin : ℤ → (ℕ → ℕ) → Bytes
unfolding pin_digits
generate_pin pin_length random =
    pin_digits (if is_positive pin_length then to_ℕ pin_length else 6) random

unfoldable pub generate_passkey : ℕ → ℕ
unfolding random_int
generate_passkey b = random_int 1000000 b % 2 ^ 32

unfoldable pub validate_pin : Bytes → Bool
validate_pin pin = leb 4 (length pin)
