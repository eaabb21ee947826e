-- ===== src/Protocol/Handler/Invariant.antt =====
-- What holds of a handler between calls, and of the frames that it sends.
use cat_tag.Common.{
  ℕ, zero, suc, ◌+◌, ◌≤◌, ◌<◌, ◌≡◌, ap, ◌∙◌, inl, inr, ℤ, pos, negsuc, String, none, length, arith,
}
use cat_tag.Errors.{Result-cases, ok}
use cat_tag.Protocol.Bytes.{Bytes, IsU32}
use cat_tag.Protocol.Frame.{encode_frame}
use cat_tag.Protocol.Frame.RoundTrip.{IsFrame, length-encode_frame}
use cat_tag.Protocol.Handler.{
  Externals, Handler, Kind, rfcomm, l2cap, ProtocolConfig, create_handler, set_mtu,
  validate_message, frame_of, encode_message, sized,
}

pub record IsValid (h : Handler) : Type 0 where
  pub mtu_pos : 0 < h.mtu
  pub sequence_ok : IsU32 h.sequence

sized_pos : (i : ℤ) (mtu : ℕ) → 0 < mtu → 0 < sized i mtu
sized_pos (pos zero) mtu h = h
sized_pos (pos (suc n)) mtu h = omega arith
sized_pos (negsuc n) mtu h = h

-- A handler of the factory is valid, whatever its configuration.
pub create_handler-IsValid :
    (protocol_type : String) (config : ProtocolConfig) {k : Kind} {h : Handler}
    → create_handler protocol_type config ≡ ok (k, h)
    → IsValid h
unfolding create_handler
create_handler-IsValid protocol_type config e =
    ground (arith, sized_pos config.max_message_size 512)

pub set_mtu-IsValid : (h : Handler) (mtu : ℤ) → IsValid h → IsValid (set_mtu h mtu).0
unfolding set_mtu
set_mtu-IsValid h (pos zero) v = v
set_mtu-IsValid h (pos (suc n)) v = record { mtu_pos = omega arith; sequence_ok = v.sequence_ok }
set_mtu-IsValid h (negsuc n) v = v

accepts :
    (h : Handler) (bytes : Bytes)
    → 0 < length bytes
    → length bytes ≤ h.mtu
    → validate_message h bytes ≡ none
unfolding validate_message
accepts h bytes some_bytes fits = ground arith

module _ (x : Externals) where
  open x use {Message, marshal, checksum, checksum_lt}

  pub frame_of-IsFrame :
      (k : Kind) (h : Handler) (p : Bytes)
      → IsValid h
      → IsU32 (length p)
      → IsFrame (frame_of x k h p)
  unfolding frame_of
  frame_of-IsFrame rfcomm h p v small = ground (arith, checksum_lt p)
  frame_of-IsFrame l2cap h p v small = ground (arith, checksum_lt p)

  pub encode_message-IsValid :
      (k : Kind) (h : Handler) (m : Message) → IsValid h → IsValid (encode_message x k h m).0
  unfolding encode_message
  encode_message-IsValid k h m v = ground arith

  -- A message was encoded: its payload fits the MTU, and the bytes are its frame.
  pub encode_message-inv :
      (k : Kind) (h : Handler) (m : Message) (bytes : Bytes)
      → (encode_message x k h m).1 ≡ ok bytes
      → (p : Bytes) × (marshal m ≡ ok p)
        × (length p + 22 ≤ h.mtu)
        × (bytes ≡ encode_frame (frame_of x k h p))
  unfolding encode_message
  encode_message-inv k h m bytes e = elim (Result-cases (marshal m)) [
    | inl (p, q) ↦ (p, q, ground arith, ground arith)
    | inr (f, q) ↦ ground arith
  ]

  length_of_frame :
      (k : Kind) (h : Handler) (p : Bytes)
      → length (encode_frame (frame_of x k h p)) ≡ 22 + length p
  unfolding frame_of
  length_of_frame k h p = length-encode_frame (frame_of x k h p)

  -- A frame that is sent fits the MTU and is not empty, so `ValidateMessage` accepts it.
  pub validate-encode_message :
      (k : Kind) (h : Handler) (m : Message) (bytes : Bytes)
      → (encode_message x k h m).1 ≡ ok bytes
      → (22 ≤ length bytes) × (length bytes ≤ h.mtu) × (validate_message h bytes ≡ none)
  validate-encode_message k h m bytes e =
      let (p, q, fits, b) = encode_message-inv k h m bytes e in
      let size : length bytes ≡ 22 + length p = ap length b ∙ length_of_frame k h p in
      (omega arith, omega arith, accepts h bytes (omega arith) (omega arith))
