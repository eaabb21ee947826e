-- ===== src/Protocol/Handler/Reject.antt =====
-- The handlers of one protocol refuse the frames of the other.
use cat_tag.Common.{◌<◌, ◌≡◌, refl, ◌∙◌, ◌≢◌, arith}
use cat_tag.Errors.{ok, err}
use cat_tag.Protocol.Bytes.{Bytes, u32_mod}
use cat_tag.Protocol.Frame.{frame_error}
use cat_tag.Protocol.Handler.{
  Externals, Handler, Kind, rfcomm, l2cap, frame_of, encode_message, open_frame, decode_message,
}
use cat_tag.Protocol.Handler.Invariant.{IsValid, encode_message-inv}
use cat_tag.Protocol.Handler.RoundTrip.{decodes}

module _ (x : Externals) where
  open x use {Message, marshal, unmarshal, checksum, checksum_lt}

  magic_differs :
      (k l : Kind) (h r : Handler) (p : Bytes)
      → k ≢ l
      → open_frame x l r (frame_of x k h p) ≡ err frame_error
  unfolding open_frame frame_of
  magic_differs rfcomm rfcomm h r p d = absurd (d refl)
  magic_differs rfcomm l2cap h r p d = ground arith
  magic_differs l2cap rfcomm h r p d = ground arith
  magic_differs l2cap l2cap h r p d = absurd (d refl)

  -- A frame of one protocol, sent by a valid handler with an MTU below 4 GiB, is refused by every handler of the other, with a protocol error.
  pub decode_message-other_kind :
      (k l : Kind) (h r : Handler) (m : Message) (bytes : Bytes)
      → k ≢ l
      → IsValid h
      → h.mtu < u32_mod
      → (encode_message x k h m).1 ≡ ok bytes
      → decode_message x l r bytes ≡ err frame_error
  decode_message-other_kind k l h r m bytes d v small e =
      let (p, _, fits, b) = encode_message-inv x k h m bytes e in
      rw b (decodes x k l h r p v (omega arith) ∙ magic_differs k l h r p d)
