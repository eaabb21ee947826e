-- ===== src/Protocol/Frame.antt =====
-- The frame of protocol.go: a 14-byte header, the payload and an 8-byte footer, little-endian.
pub mod RoundTrip
pub mod Inverse
use cat_tag.Common.{ℕ, ◌+◌, ◌-◌, ◌%◌, ◌++◌, Option, none, some, if◌then◌else◌, ltb, length}
use cat_tag.Errors.{Result, ok, err, GoError, new_bluetooth_error, protocol_error}
use cat_tag.Protocol.Bytes.{
  Bytes, u32_mod, put_u8, put_u16, put_u32, read_u8, read_u16, read_u32, read_into, ◌>>=◌,
}

pub record FrameHeader : Type 0 where
  pub version : ℕ  -- uint8
  pub message_type : ℕ  -- uint8
  pub length : ℕ  -- uint32
  pub sequence : ℕ  -- uint32
  pub flags : ℕ  -- uint16
  pub reserved : ℕ  -- uint16

pub record FrameFooter : Type 0 where
  pub checksum : ℕ  -- uint32
  pub magic : ℕ  -- uint32

pub record MessageFrame : Type 0 where
  pub header : FrameHeader
  pub payload : Bytes
  pub footer : FrameFooter

-- `binary.Write` of the header's fields in their order
unfoldable pub write_header : FrameHeader → Bytes
write_header h =
    put_u8 h.version
    ++ (put_u8 h.message_type
        ++ (put_u32 h.length ++ (put_u32 h.sequence ++ (put_u16 h.flags ++ put_u16 h.reserved))))

unfoldable pub write_footer : FrameFooter → Bytes
write_footer f = put_u32 f.checksum ++ put_u32 f.magic

-- The writes go to a `bytes.Buffer`, which does not fail.
unfoldable pub encode_frame : MessageFrame → Bytes
encode_frame f = write_header f.header ++ (f.payload ++ write_footer f.footer)

unfoldable pub read_header : Bytes → Option (FrameHeader × Bytes)
read_header bytes = do
  (version, r1) ← read_u8 bytes
  (message_type, r2) ← read_u8 r1
  (size, r3) ← read_u32 r2
  (sequence, r4) ← read_u32 r3
  (flags, r5) ← read_u16 r4
  (reserved, r6) ← read_u16 r5
  some (
    record {
      version = version;
      message_type = message_type;
      length = size;
      sequence = sequence;
      flags = flags;
      reserved = reserved;
    },
    r6,
  )

unfoldable pub read_footer : Bytes → Option (FrameFooter × Bytes)
read_footer bytes = do
  (checksum, r1) ← read_u32 bytes
  (magic, r2) ← read_u32 r1
  some (record { checksum = checksum; magic = magic }, r2)

abbrev pub header_size : ℕ
header_size = 14

abbrev pub footer_size : ℕ
footer_size = 8

abbrev pub frame_error : GoError
frame_error = new_bluetooth_error protocol_error

abbrev pub or_frame_error {ℓ} : {A : Type ℓ} → Option A → Result A
or_frame_error none = err frame_error
or_frame_error (some a) = ok a

-- The payload and the footer, after the header and the check of the declared length.
unfoldable pub decode_body : FrameHeader → Bytes → Option MessageFrame
decode_body header bytes = do
  (payload, r1) ← read_into header.length bytes
  (footer, r2) ← read_footer r1
  some (record { header = header; payload = payload; footer = footer })

unfoldable pub check_length : FrameHeader → ℕ → Bytes → Result MessageFrame
check_length header total rest =
    if ltb ((total - header_size - footer_size) % u32_mod) header.length
    then err frame_error
    else or_frame_error (decode_body header rest)

unfoldable pub decode_frame : Bytes → Result MessageFrame
decode_frame bytes =
    if ltb (length bytes) (header_size + footer_size)
    then err frame_error
    else elim (read_header bytes) [
      | none ↦ err frame_error
      | some (header, rest) ↦ check_length header (length bytes) rest
    ]
