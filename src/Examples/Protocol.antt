-- ===== src/Examples/Protocol.antt =====
-- Frames and handlers on concrete bytes: a message is its payload, and the checksum is a sum.
use cat_tag.Common.{ℕ, ◌+◌, ◌%◌, ◌<◌, ◌≡◌, refl, [], ◌∷◌, ◌++◌, some, none, length, All, arith}
use cat_tag.Errors.{ok}
use cat_tag.Protocol.Bytes.{Bytes, IsByte, u32_mod}
use cat_tag.Protocol.Frame.{
  MessageFrame, encode_frame, decode_frame, read_header, check_length, decode_body, read_footer,
}
use cat_tag.Protocol.Frame.RoundTrip.{IsFrame, decode_frame-encode_frame}
use cat_tag.Protocol.Frame.Inverse.{Encodes, decode_frame-Encodes}
use cat_tag.Protocol.Handler.{
  Externals, Handler, l2cap, encode_message, decode_message, default_protocol_config, send_payload,
  frame_of, open_frame,
}
use cat_tag.Protocol.Handler.Invariant.{IsValid}
use cat_tag.Protocol.Handler.RoundTrip.{Received, decode-encode_message, decode_message-Received}
use cat_tag.Protocol.Stream.{ReadWriteCloser, Stream}

abbrev pub sum : Bytes → ℕ
sum [] = 0
sum (b ∷ bs) = b + sum bs

pub sum_lt : (b : Bytes) → sum b % u32_mod < u32_mod
sum_lt b = omega arith

abbrev pub plain : Externals
plain = record {
  Message = Bytes;
  marshal = ok;
  unmarshal = ok;
  checksum = λ b. sum b % u32_mod;
  checksum_lt = sum_lt;
}

abbrev hi : Bytes
hi = 104 ∷ 105 ∷ []

abbrev hi_frame : MessageFrame
hi_frame = record {
  header = record {
    version = 1;
    message_type = 0;
    length = 2;
    sequence = 7;
    flags = 1;
    reserved = 0;
  };
  payload = hi;
  footer = record { checksum = 209; magic = 0xCAFEBABE };
}

hi_frame-IsFrame : IsFrame hi_frame
hi_frame-IsFrame = ground arith

decode_frame-encode_frame_example : decode_frame (encode_frame hi_frame ++ (9 ∷ [])) ≡ ok hi_frame
decode_frame-encode_frame_example =
    decode_frame-encode_frame hi_frame (9 ∷ []) hi_frame-IsFrame (omega arith)

abbrev hi_bytes : Bytes
hi_bytes =
    1 ∷ 0 ∷ 2 ∷ 0 ∷ 0 ∷ 0 ∷ 7 ∷ 0 ∷ 0 ∷ 0 ∷ 1 ∷ 0 ∷ 0 ∷ 0 ∷ 104 ∷ 105 ∷ 209 ∷ 0 ∷ 0 ∷ 0 ∷ 190 ∷ 186
    ∷ 254 ∷ 202 ∷ 9 ∷ []

hi_bytes-IsByte : All IsByte hi_bytes
hi_bytes-IsByte = ground arith

decode_hi : decode_frame hi_bytes ≡ ok hi_frame
unfolding decode_frame read_header check_length decode_body read_footer
decode_hi = refl

decode_frame-Encodes_example : (rest : Bytes) × Encodes hi_frame hi_bytes rest
decode_frame-Encodes_example = decode_frame-Encodes hi_bytes hi_frame hi_bytes-IsByte decode_hi

abbrev pub sender : Handler
sender = record { config = default_protocol_config "L2CAP"; mtu = 512; sequence = 7 }

pub sender-IsValid : IsValid sender
sender-IsValid = ground arith

decode-encode_message_example :
    (bytes : Bytes) × ((encode_message plain l2cap sender hi).1 ≡ ok bytes)
    × (decode_message plain l2cap sender bytes ≡ ok hi)
decode-encode_message_example =
    decode-encode_message plain l2cap sender sender hi hi hi sender-IsValid refl refl (omega arith)
      (omega arith) refl

decode_sent : decode_message plain l2cap sender hi_bytes ≡ ok hi
unfolding decode_message open_frame default_protocol_config decode_frame read_header check_length
    decode_body read_footer
decode_sent = refl

decode_message-Received_example :
    (f : MessageFrame) × (rest : Bytes) × Encodes f hi_bytes rest × Received plain l2cap sender f hi
decode_message-Received_example =
    decode_message-Received plain l2cap sender hi_bytes hi hi_bytes-IsByte decode_sent

abbrev sent : Bytes
sent = encode_frame (frame_of plain l2cap sender hi)

sends_hi : (encode_message plain l2cap sender hi).1 ≡ ok sent
unfolding encode_message send_payload
sends_hi = refl

-- A connection that hands out a fixed answer and takes everything.
abbrev echo : ReadWriteCloser
echo = record {
  Conn = Bytes;
  read = λ c n. (c, ok c);
  write = λ c bytes. (bytes, ok (length bytes));
  close = λ c. (c, none);
}

abbrev stream : Stream echo
stream = record { protocol = "RFCOMM"; mtu = 512; conn = some hi }
