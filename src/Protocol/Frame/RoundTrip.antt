-- ===== src/Protocol/Frame/RoundTrip.antt =====
-- protocol.go: an encoded frame is decoded to itself.
use cat_tag.Common.{
  ℕ, ◌+◌, ◌-◌, ◌*◌, ◌/◌, ◌%◌, ◌≤◌, ◌<◌, ◌≡◌, refl, sym, ap, ◌∙◌, [], ◌∷◌, ◌++◌, some, length, take,
  drop, length-append, take-length_append, drop-length_append, arith,
}
use cat_tag.Errors.{ok}
use cat_tag.Protocol.Bytes.{Bytes, IsByte, IsU16, IsU32, u32_mod, read_into}
use cat_tag.Protocol.Frame.{
  FrameHeader, FrameFooter, MessageFrame, write_header, write_footer, encode_frame, read_header,
  read_footer, decode_body, check_length, decode_frame,
}
use mathlib.Core.List.{append_assoc, append-nil}

-- The fields are in the ranges of their Go types.
pub record IsHeader (h : FrameHeader) : Type 0 where
  pub version_ok : IsByte h.version
  pub type_ok : IsByte h.message_type
  pub length_ok : IsU32 h.length
  pub sequence_ok : IsU32 h.sequence
  pub flags_ok : IsU16 h.flags
  pub reserved_ok : IsU16 h.reserved

pub record IsFooter (f : FrameFooter) : Type 0 where
  pub checksum_ok : IsU32 f.checksum
  pub magic_ok : IsU32 f.magic

-- ... and the header declares the payload's length.
pub record IsFrame (f : MessageFrame) : Type 0 where
  pub header_ok : IsHeader f.header
  pub footer_ok : IsFooter f.footer
  pub declared : f.header.length ≡ length f.payload

join_u16 : (v : ℕ) → IsU16 v → v % 256 + 256 * (v / 256 % 256) ≡ v
join_u16 v h = omega arith

join_u32 :
    (v : ℕ)
    → IsU32 v
    → v % 256 + 256 * (v / 256 % 256) + 65536 * (v / 65536 % 256) + 16777216 * (v / 16777216 % 256)
      ≡ v
join_u32 v h = omega arith

join_u8 : (v : ℕ) → IsByte v → v % 256 ≡ v
join_u8 v h = omega arith

read_header-write_header :
    (h : FrameHeader) (r : Bytes) → IsHeader h → read_header (write_header h ++ r) ≡ some (h, r)
unfolding read_header write_header
read_header-write_header h r v = rw (
  join_u8 h.version v.version_ok,
  join_u8 h.message_type v.type_ok,
  join_u32 h.length v.length_ok,
  join_u32 h.sequence v.sequence_ok,
  join_u16 h.flags v.flags_ok,
  join_u16 h.reserved v.reserved_ok,
)

read_footer-write_footer :
    (f : FrameFooter) (r : Bytes) → IsFooter f → read_footer (write_footer f ++ r) ≡ some (f, r)
unfolding read_footer write_footer
read_footer-write_footer f r v = rw (join_u32 f.checksum v.checksum_ok, join_u32 f.magic v.magic_ok)

pub length-write_header : (h : FrameHeader) → length (write_header h) ≡ 14
unfolding write_header
length-write_header h = refl

length-write_footer : (f : FrameFooter) → length (write_footer f) ≡ 8
unfolding write_footer
length-write_footer f = refl

-- A read of no more than what is left is exact.
pub read_into_enough :
    (n : ℕ) (bytes : Bytes)
    → 0 < length bytes
    → n ≤ length bytes
    → read_into n bytes ≡ some (take n bytes, drop n bytes)
read_into_enough n [] h k = absurd (omega arith)
read_into_enough n (b ∷ r) h k =
    let none_left : n - length (b ∷ r) ≡ 0 = omega arith in
    rw (none_left, append-nil (take n (b ∷ r)))

read_into-append : (p r : Bytes) → 0 < length r → read_into (length p) (p ++ r) ≡ some (p, r)
read_into-append p r h =
    read_into_enough (length p) (p ++ r) (omega (arith, length-append p r))
      (omega (arith, length-append p r))
    ∙ rw (take-length_append p r, drop-length_append p r)

decode_body-append :
    (f : MessageFrame) (rest : Bytes)
    → IsFrame f
    → decode_body f.header (f.payload ++ (write_footer f.footer ++ rest)) ≡ some f
unfolding decode_body
decode_body-append f rest v = rw (v.declared) (
    rw (
      read_into-append f.payload (write_footer f.footer ++ rest)
          (omega (arith, length-append (write_footer f.footer) rest, length-write_footer f.footer)),
      read_footer-write_footer f.footer rest v.footer_ok,
    ))

pub encode_frame-append :
    (f : MessageFrame) (rest : Bytes)
    → encode_frame f ++ rest
      ≡ write_header f.header ++ (f.payload ++ (write_footer f.footer ++ rest))
unfolding encode_frame
encode_frame-append f rest = simp append_assoc

read_header-encode_frame :
    (f : MessageFrame) (rest : Bytes)
    → IsFrame f
    → read_header (encode_frame f ++ rest)
      ≡ some (f.header, f.payload ++ (write_footer f.footer ++ rest))
read_header-encode_frame f rest v =
    rw (encode_frame-append f rest) (read_header-write_header f.header _ v.header_ok)

length-encode_frame-append :
    (f : MessageFrame) (rest : Bytes)
    → length (encode_frame f ++ rest) ≡ 22 + length f.payload + length rest
length-encode_frame-append f rest = rw (encode_frame-append f rest) (
    omega (
      arith,
      length-append (write_header f.header) (f.payload ++ (write_footer f.footer ++ rest)),
      length-append f.payload (write_footer f.footer ++ rest),
      length-append (write_footer f.footer) rest,
      length-write_header f.header,
      length-write_footer f.footer,
    ))

check_length-append :
    (f : MessageFrame) (total : ℕ) (rest : Bytes)
    → IsFrame f
    → total ≡ 22 + length f.payload + length rest
    → length f.payload + length rest < u32_mod
    → check_length f.header total (f.payload ++ (write_footer f.footer ++ rest)) ≡ ok f
unfolding check_length
check_length-append f total rest v e small =
    rw (decode_body-append f rest v) (ground (arith, v.declared))

-- What `encode_frame` writes for a well-formed frame, `decode_frame` reads back, whatever follows it,
-- as long as the payload and what follows the frame stay below 4 GiB together.
pub decode_frame-encode_frame :
    (f : MessageFrame) (rest : Bytes)
    → IsFrame f
    → length f.payload + length rest < u32_mod
    → decode_frame (encode_frame f ++ rest) ≡ ok f
unfolding decode_frame
decode_frame-encode_frame f rest v small = ground (
  arith,
  length-encode_frame-append f rest,
  read_header-encode_frame f rest v,
  check_length-append f (length (encode_frame f ++ rest)) rest v,
)

pub length-encode_frame : (f : MessageFrame) → length (encode_frame f) ≡ 22 + length f.payload
length-encode_frame f =
    omega (arith, length-encode_frame-append f [], ap length (append-nil (encode_frame f)))

pub decode_frame-encode_frame_alone :
    (f : MessageFrame)
    → IsFrame f
    → length f.payload < u32_mod
    → decode_frame (encode_frame f) ≡ ok f
decode_frame-encode_frame_alone f v small =
    ap decode_frame (sym (append-nil (encode_frame f)))
    ∙ decode_frame-encode_frame f [] v (omega arith)
