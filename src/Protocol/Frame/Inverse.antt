-- ===== src/Protocol/Frame/Inverse.antt =====
-- protocol.go: whatever the frame decoder accepts is the encoding of its result.
use cat_tag.Common.{
  ℕ, ◌+◌, ◌-◌, ◌*◌, ◌/◌, ◌%◌, ◌≤◌, ◌<◌, ◌≡◌, refl, sym, ap, ◌∙◌, ◌∷◌, ◌++◌, none, some, length,
  take, drop, All, length-append, take-append-drop, length-take, All-drop, arith, Option-cases, inl,
  inr,
}
use cat_tag.Errors.{ok}
use cat_tag.Protocol.Bytes.{Bytes, IsByte}
use cat_tag.Protocol.Frame.{
  FrameHeader, FrameFooter, MessageFrame, write_header, write_footer, encode_frame, read_header,
  read_footer, decode_body, check_length, decode_frame,
}
use cat_tag.Protocol.Frame.RoundTrip.{
  IsHeader, IsFooter, IsFrame, read_into_enough, length-write_header, encode_frame-append,
}

byte_split_16 :
    (a b : ℕ) → IsByte a → IsByte b → ((a + 256 * b) % 256 ≡ a) × ((a + 256 * b) / 256 % 256 ≡ b)
byte_split_16 a b p q = omega arith

byte_split_32 :
    (a b c d : ℕ)
    → IsByte a
    → IsByte b
    → IsByte c
    → IsByte d
    → let v = a + 256 * b + 65536 * c + 16777216 * d in
      (v % 256 ≡ a) × (v / 256 % 256 ≡ b) × (v / 65536 % 256 ≡ c) × (v / 16777216 % 256 ≡ d)
byte_split_32 a b c d p q r s = omega arith

-- What was read, what it is the encoding of, and what is left.
record ReadHeader (bytes : Bytes) (h : FrameHeader) (r : Bytes) : Type 0 where
  split : bytes ≡ write_header h ++ r
  in_range : IsHeader h
  rest_ok : All IsByte r

record ReadFooter (bytes : Bytes) (f : FrameFooter) (r : Bytes) : Type 0 where
  split : bytes ≡ write_footer f ++ r
  in_range : IsFooter f

read_header-ReadHeader :
    (bytes : Bytes) {h : FrameHeader} {r : Bytes}
    → All IsByte bytes
    → read_header bytes ≡ some (h, r)
    → ReadHeader bytes h r
unfolding read_header write_header
read_header-ReadHeader (a ∷ b ∷ c1 ∷ c2 ∷ c3 ∷ c4 ∷ d1 ∷ d2 ∷ d3 ∷ d4 ∷ e1 ∷ e2 ∷ g1 ∷ g2 ∷ r) v h =
    ground (
      arith,
      byte_split_32 c1 c2 c3 c4,
      byte_split_32 d1 d2 d3 d4,
      byte_split_16 e1 e2,
      byte_split_16 g1 g2,
    )
read_header-ReadHeader _ v h = ground arith

read_footer-ReadFooter :
    (bytes : Bytes) {f : FrameFooter} {r : Bytes}
    → All IsByte bytes
    → read_footer bytes ≡ some (f, r)
    → ReadFooter bytes f r
unfolding read_footer write_footer
read_footer-ReadFooter (c1 ∷ c2 ∷ c3 ∷ c4 ∷ d1 ∷ d2 ∷ d3 ∷ d4 ∷ r) v h =
    ground (arith, byte_split_32 c1 c2 c3 c4, byte_split_32 d1 d2 d3 d4)
read_footer-ReadFooter _ v h = ground arith

-- A body that was decoded is the payload, the footer and some rest.
record ReadBody (h : FrameHeader) (bytes : Bytes) (f : MessageFrame) (rest : Bytes) : Type 0 where
  header_eq : f.header ≡ h
  split : bytes ≡ f.payload ++ (write_footer f.footer ++ rest)
  footer_ok : IsFooter f.footer
  declared : h.length ≡ length f.payload

module _ (h : FrameHeader) (bytes : Bytes) (bytes_ok : All IsByte bytes)
    (some_left : 0 < length bytes) (enough : h.length ≤ length bytes) where
  body_result :
      {f : MessageFrame} (footer : FrameFooter) (rest : Bytes)
      → read_footer (drop h.length bytes) ≡ some (footer, rest)
      → decode_body h bytes ≡ some f
      → f ≡ record { header = h; payload = take h.length bytes; footer = footer }
  unfolding decode_body
  body_result footer rest p e = ground (arith, read_into_enough h.length bytes some_left enough)

  body_none : read_footer (drop h.length bytes) ≡ none → decode_body h bytes ≡ none
  unfolding decode_body
  body_none p = ground (arith, read_into_enough h.length bytes some_left enough)

  body_split :
      (f : MessageFrame) (footer : FrameFooter) (rest : Bytes)
      → f ≡ record { header = h; payload = take h.length bytes; footer = footer }
      → ReadFooter (drop h.length bytes) footer rest
      → ReadBody h bytes f rest
  body_split f footer rest e v = rw e (record {
    header_eq = refl;
    split = sym (take-append-drop h.length bytes) ∙ ap (◌++◌ (take h.length bytes)) v.split;
    footer_ok = v.in_range;
    declared = omega (arith, length-take h.length bytes);
  })

  decode_body-ReadBody :
      (f : MessageFrame) → decode_body h bytes ≡ some f → (rest : Bytes) × ReadBody h bytes f rest
  decode_body-ReadBody f e = elim (Option-cases (read_footer (drop h.length bytes))) [
    | inl missing ↦ ground (arith, body_none missing)
    | inr ((footer, rest), p) ↦ (
      rest,
      body_split f footer rest (body_result footer rest p e)
          (read_footer-ReadFooter _ (All-drop _ h.length bytes bytes_ok) p),
    )
  ]

check_length-inv :
    (h : FrameHeader) (total : ℕ) (rest : Bytes) {f : MessageFrame}
    → check_length h total rest ≡ ok f
    → (h.length ≤ total - 22) × (decode_body h rest ≡ some f)
unfolding check_length
check_length-inv h total rest e = ground arith

-- `data` is the encoding of the well-formed frame `f`, and `rest`.
pub record Encodes (f : MessageFrame) (bytes rest : Bytes) : Type 0 where
  pub split : bytes ≡ encode_frame f ++ rest
  pub frame_ok : IsFrame f

decode_frame-inv :
    (bytes : Bytes) {f : MessageFrame}
    → decode_frame bytes ≡ ok f
    → (22 ≤ length bytes)
      × (h : FrameHeader) × (rest : Bytes) × (read_header bytes ≡ some (h, rest))
      × (check_length h (length bytes) rest ≡ ok f)
unfolding decode_frame
decode_frame-inv bytes e = elim (Option-cases (read_header bytes)) [
  | inl missing ↦ ground arith
  | inr ((h, rest), p) ↦ (ground arith, h, rest, p, ground arith)
]

-- The parts put together again.
module _ (bytes : Bytes) (f : MessageFrame) (h : FrameHeader) (r rest : Bytes) where
  parts-Encodes : ReadHeader bytes h r → ReadBody h r f rest → Encodes f bytes rest
  parts-Encodes rh b = record {
    split = rw (encode_frame-append f rest, b.header_eq, ← b.split) rh.split;
    frame_ok = record {
      header_ok = rw b.header_eq rh.in_range;
      footer_ok = b.footer_ok;
      declared = rw b.header_eq b.declared;
    };
  }

  header_length : ReadHeader bytes h r → length bytes ≡ 14 + length r
  header_length rh =
      omega (arith, ap length rh.split, length-append (write_header h) r, length-write_header h)

-- Whatever the decoder accepts is the encoding of a well-formed frame with bytes behind it, which
-- it ignores.
pub decode_frame-Encodes :
    (bytes : Bytes) (f : MessageFrame)
    → All IsByte bytes
    → decode_frame bytes ≡ ok f
    → (rest : Bytes) × Encodes f bytes rest
decode_frame-Encodes bytes f v e =
    let (enough, h, r, p, c) = decode_frame-inv bytes e in
    let rh = read_header-ReadHeader bytes v p in
    let (fits, d) = check_length-inv h (length bytes) r c in
    let size = header_length bytes f h r r rh in
    let (rest, b) = decode_body-ReadBody h r rh.rest_ok (omega arith) (omega arith) f d in
    (rest, parts-Encodes bytes f h r rest rh b)
