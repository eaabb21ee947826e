-- ===== src/Protocol/Handler/RoundTrip.antt =====
-- A message that one handler sends, another handler of the same protocol receives.
use cat_tag.Common.{◌+◌, ◌≤◌, ◌≡◌, ◌∙◌, inl, inr, true, length, arith, All}
use cat_tag.Errors.{Result-cases, ok}
use cat_tag.Protocol.Bytes.{Bytes, IsByte, IsU32}
use cat_tag.Protocol.Frame.{MessageFrame, encode_frame, decode_frame}
use cat_tag.Protocol.Frame.RoundTrip.{decode_frame-encode_frame_alone}
use cat_tag.Protocol.Frame.Inverse.{Encodes, decode_frame-Encodes}
use cat_tag.Protocol.Handler.{
  Externals, Handler, Kind, frame_of, encode_message, open_frame, decode_message, magic_of,
}
use cat_tag.Protocol.Handler.Invariant.{IsValid, frame_of-IsFrame}

module _ (x : Externals) where
  open x use {Message, marshal, unmarshal, checksum, checksum_lt}

  whole :
      (k : Kind) (h : Handler) (p : Bytes)
      → IsValid h
      → IsU32 (length p)
      → decode_frame (encode_frame (frame_of x k h p)) ≡ ok (frame_of x k h p)
  unfolding frame_of
  whole k h p v small =
      decode_frame-encode_frame_alone (frame_of x k h p) (frame_of-IsFrame x k h p v small) small

  pub sends :
      (k : Kind) (h : Handler) (m : Message) (p : Bytes)
      → marshal m ≡ ok p
      → length p + 22 ≤ h.mtu
      → (encode_message x k h m).1 ≡ ok (encode_frame (frame_of x k h p))
  unfolding encode_message
  sends k h m p q fits = ground arith

  pub decodes :
      (k l : Kind) (h r : Handler) (p : Bytes)
      → IsValid h
      → IsU32 (length p)
      → decode_message x l r (encode_frame (frame_of x k h p)) ≡ open_frame x l r (frame_of x k h p)
  unfolding decode_message
  decodes k l h r p v small = rw (whole k h p v small)

  opens :
      (k : Kind) (h r : Handler) (p : Bytes) (m : Message)
      → r.config.enable_checksum ≡ h.config.enable_checksum
      → unmarshal p ≡ ok m
      → open_frame x k r (frame_of x k h p) ≡ ok m
  unfolding open_frame frame_of
  opens k h r p m same_check q = ground arith

  -- When a message's JSON has a length of 32 bits that fits the MTU with the 22 bytes of the frame, and
  -- that JSON reads back as `m'`, a valid handler encodes the message, and any handler of the same
  -- protocol with the same checksum setting decodes the bytes to `m'`.
  pub decode-encode_message :
      (k : Kind) (h r : Handler) (m m' : Message) (p : Bytes)
      → IsValid h
      → marshal m ≡ ok p
      → unmarshal p ≡ ok m'
      → IsU32 (length p)
      → length p + 22 ≤ h.mtu
      → r.config.enable_checksum ≡ h.config.enable_checksum
      → (bytes : Bytes) × ((encode_message x k h m).1 ≡ ok bytes)
        × (decode_message x k r bytes ≡ ok m')
  decode-encode_message k h r m m' p v q u small fits c = (
    encode_frame (frame_of x k h p),
    sends k h m p q fits,
    decodes k k h r p v small ∙ opens k h r p m' c u,
  )

  -- What a received message rests on.
  pub record Received (k : Kind) (r : Handler) (f : MessageFrame) (m : Message) : Type 0 where
    pub magic_ok : f.footer.magic ≡ magic_of k
    pub checksum_ok : r.config.enable_checksum ≡ true → f.footer.checksum ≡ checksum f.payload
    pub content : unmarshal f.payload ≡ ok m

  open_frame-Received :
      (k : Kind) (r : Handler) (f : MessageFrame) (m : Message)
      → open_frame x k r f ≡ ok m
      → Received k r f m
  unfolding open_frame
  open_frame-Received k r f m e = ground arith

  -- A message is received only from a whole frame of the protocol: well-formed, with the protocol's
  -- magic number and, where checksums are on, with the checksum of its payload. The bytes behind
  -- the frame are ignored.
  pub decode_message-Received :
      (k : Kind) (r : Handler) (bytes : Bytes) (m : Message)
      → All IsByte bytes
      → decode_message x k r bytes ≡ ok m
      → (f : MessageFrame) × (rest : Bytes) × Encodes f bytes rest × Received k r f m
  unfolding decode_message
  decode_message-Received k r bytes m v e = elim (Result-cases (decode_frame bytes)) [
    | inl (f, p) ↦
        let (rest, w) = decode_frame-Encodes bytes f v p in
        (f, rest, w, open_frame-Received k r f m (ground arith))
    | inr (g, p) ↦ ground arith
  ]
