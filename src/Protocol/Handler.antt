-- ===== src/Protocol/Handler.antt =====
-- `RFCOMMHandler`, `L2CAPHandler` and `ProtocolFactory` of protocol.go. The two handlers have the
-- same methods but for the flags and the magic number, which `Kind` picks. encoding/json and
-- hash/crc32 are the parameter `Externals`. The mutex serialises the calls, so a call is one step.
pub mod RoundTrip
pub mod Invariant
pub mod Reject
pub mod Sequence
use cat_tag.Common.{
  ℕ, zero, suc, ◌+◌, ◌-◌, ◌%◌, ◌≡◌, ℤ, pos, negsuc, String, Bool, true, false, not, ◌&&◌, List, [],
  ◌∷◌, Option, none, some, if◌then◌else◌, ltb, ◌==◌, length, same, All,
}
use cat_tag.Errors.{
  GoError, Result, ok, err, ◌>>=◌, new_bluetooth_error, wrap_error, protocol_error,
  invalid_parameter, not_supported,
}
use cat_tag.Protocol.Bytes.{Bytes, IsByte, IsU32, u32_mod}
use cat_tag.Protocol.Frame.{MessageFrame, FrameHeader, encode_frame, decode_frame, frame_error}

-- `checksum` returns a uint32, and `marshal` returns bytes.
pub record Externals : Type 1 where
  pub Message : Type 0
  pub marshal : Message → Result Bytes
  pub unmarshal : Bytes → Result Message
  pub checksum : Bytes → ℕ
  pub checksum_lt : (b : Bytes) → IsU32 (checksum b)

pub record ProtocolConfig : Type 0 where
  pub protocol_type : String
  pub max_message_size : ℤ
  pub compression_type : String
  pub enable_checksum : Bool
  pub timeout : ℤ

pub data Kind : Type 0 where
  rfcomm l2cap : Kind

-- `mtu` is an `int` that `Initialize` and `SetMTU` keep positive.
pub record Handler : Type 0 where
  pub config : ProtocolConfig
  pub mtu : ℕ
  pub sequence : ℕ  -- uint32

abbrev pub default_mtu : ℕ
default_mtu = 512

abbrev pub frame_overhead : ℕ
frame_overhead = 22

abbrev pub flags_of : Kind → ℕ
flags_of rfcomm = 0
flags_of l2cap = 1

abbrev pub magic_of : Kind → ℕ
magic_of rfcomm = 0xDEADBEEF
magic_of l2cap = 0xCAFEBABE

-- `if config.MaxMessageSize > 0 { r.mtu = config.MaxMessageSize }`
abbrev pub sized : ℤ → ℕ → ℕ
sized (pos zero) mtu = mtu
sized (pos (suc n)) mtu = suc n
sized (negsuc n) mtu = mtu

unfoldable pub initialize : Handler → ProtocolConfig → Handler
initialize h config = record h { config = config; mtu = sized config.max_message_size h.mtu }

unfoldable pub create_handler : String → ProtocolConfig → Result (Kind × Handler)
unfolding initialize
create_handler protocol_type config =
    let h : Handler =
      initialize (record { config = config; mtu = default_mtu; sequence = 0 }) config in
    if same protocol_type "RFCOMM"
    then ok (rfcomm, h)
    else if same protocol_type "L2CAP"
    then ok (l2cap, h)
    else err (new_bluetooth_error not_supported)

unfoldable pub default_protocol_config : String → ProtocolConfig
default_protocol_config protocol_type = record {
  protocol_type = protocol_type;
  max_message_size = pos default_mtu;
  compression_type = "none";
  enable_checksum = true;
  timeout = pos 30;
}

unfoldable pub validate_message : Handler → Bytes → Option GoError
validate_message h bytes =
    if length bytes == 0
    then some (new_bluetooth_error invalid_parameter)
    else if ltb h.mtu (length bytes)
    then some (new_bluetooth_error invalid_parameter)
    else none

unfoldable pub set_mtu : Handler → ℤ → Handler × Option GoError
set_mtu h (pos zero) = (h, some (new_bluetooth_error invalid_parameter))
set_mtu h (pos (suc n)) = (record h { mtu = suc n }, none)
set_mtu h (negsuc n) = (h, some (new_bluetooth_error invalid_parameter))

module _ (x : Externals) where
  open x use {Message, marshal, unmarshal, checksum}

  -- The frame that `EncodeMessage` fills in for a payload.
  unfoldable pub frame_of : Kind → Handler → Bytes → MessageFrame
  frame_of k h payload = record {
    header = record {
      version = 1;
      message_type = 0;
      length = length payload % u32_mod;
      sequence = h.sequence;
      flags = flags_of k;
      reserved = 0;
    };
    payload = payload;
    footer = record {
      checksum = if h.config.enable_checksum then checksum payload else 0;
      magic = magic_of k;
    };
  }

  -- `len(payload) > mtu - overhead`, on integers.
  unfoldable pub send_payload : Kind → Handler → Bytes → Handler × Result Bytes
  send_payload k h payload =
      if ltb h.mtu (length payload + frame_overhead)
      then (h, err (new_bluetooth_error invalid_parameter))
      else (
        record h { sequence = (h.sequence + 1) % u32_mod },
        ok (encode_frame (frame_of k h payload)),
      )

  unfoldable pub encode_message : Kind → Handler → Message → Handler × Result Bytes
  unfolding send_payload
  encode_message k h m = elim (marshal m) [
    | err e ↦ (h, err (wrap_error e protocol_error "" "encode"))
    | ok payload ↦ send_payload k h payload
  ]

  -- The checks of `DecodeMessage` on a decoded frame, and the payload's message.
  unfoldable pub open_frame : Kind → Handler → MessageFrame → Result Message
  open_frame k h f =
      if h.config.enable_checksum && not (f.footer.checksum == checksum f.payload)
      then err frame_error
      else if not (f.footer.magic == magic_of k)
      then err frame_error
      else elim (unmarshal f.payload) [
        | err e ↦ err (wrap_error e protocol_error "" "decode")
        | ok m ↦ ok m
      ]

  unfoldable pub decode_message : Kind → Handler → Bytes → Result Message
  decode_message k h bytes = do f ← decode_frame bytes; open_frame k h f

  unfoldable pub rfcomm_encode_message : Handler → Message → Handler × Result Bytes
  unfolding encode_message
  rfcomm_encode_message = encode_message rfcomm

  unfoldable pub l2cap_encode_message : Handler → Message → Handler × Result Bytes
  unfolding encode_message
  l2cap_encode_message = encode_message l2cap

  unfoldable pub rfcomm_decode_message : Handler → Bytes → Result Message
  unfolding decode_message
  rfcomm_decode_message = decode_message rfcomm

  unfoldable pub l2cap_decode_message : Handler → Bytes → Result Message
  unfolding decode_message
  l2cap_decode_message = decode_message l2cap
