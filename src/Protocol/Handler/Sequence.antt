-- ===== src/Protocol/Handler/Sequence.antt =====
-- The sequence numbers of the frames that a handler sends.
use cat_tag.Common.{
  ℕ, suc, ◌+◌, ◌%◌, ◌≡◌, ap, ◌∙◌, ◌⊎◌, inl, inr, List, [], ◌∷◌, ltb, length, arith, Bool-cases,
}
use cat_tag.Errors.{
  GoError, Result, Result-cases, ok, err, new_bluetooth_error, wrap_error, invalid_parameter,
  protocol_error,
}
use cat_tag.Protocol.Bytes.{Bytes, IsU32, u32_mod}
use cat_tag.Protocol.Frame.{encode_frame}
use cat_tag.Protocol.Handler.{Externals, Handler, Kind, frame_of, encode_message}

shift : (a n : ℕ) → ((a + 1) % u32_mod + n) % u32_mod ≡ (a + suc n) % u32_mod
shift a n = omega arith

module _ (x : Externals) where
  open x use {Message, marshal, unmarshal, checksum, checksum_lt}

  -- An encoding fails and leaves the handler, or succeeds and moves the sequence number.
  encode_message_cases :
      (k : Kind) (h : Handler) (m : Message)
      → ((g : GoError) × (encode_message x k h m ≡ (h, err g)))
        ⊎ ((b : Bytes) × (encode_message x k h m
              ≡ (record h { sequence = (h.sequence + 1) % u32_mod }, ok b)))
  unfolding encode_message
  encode_message_cases k h m = elim (Result-cases (marshal m)) [
    | inl (p, q) ↦ elim (Bool-cases (ltb h.mtu (length p + 22))) [
      | inl big ↦ inl (new_bluetooth_error invalid_parameter, ground arith)
      | inr fits ↦ inr (encode_frame (frame_of x k h p), ground arith)
    ]
    | inr (g, q) ↦ inl (wrap_error g protocol_error "" "encode", ground arith)
  ]

  abbrev keep_sent : Result Bytes → List Bytes → List Bytes
  keep_sent (ok b) bs = b ∷ bs
  keep_sent (err g) bs = bs

  -- A run of encodings: the handler at the end, and the frames that were sent.
  pub encode_all : Kind → Handler → List Message → Handler × List Bytes
  encode_all k h [] = (h, [])
  encode_all k h (m ∷ ms) =
      let (h', sent) = encode_message x k h m in
      let (last, rest) = encode_all k h' ms in (last, keep_sent sent rest)

  -- From a sequence number of 32 bits, a run of encodings moves only the sequence number, by the number of frames sent, modulo 2^32.
  pub encode_all-sequence :
      (k : Kind) (h : Handler) (ms : List Message)
      → IsU32 h.sequence
      → (encode_all k h ms).0
        ≡ record h { sequence = (h.sequence + length (encode_all k h ms).1) % u32_mod }
  unfolding encode_all
  encode_all-sequence k h [] v = ground arith
  encode_all-sequence k h (m ∷ ms) v = elim (encode_message_cases k h m) [
    | inl (g, e) ↦ rw e (encode_all-sequence k h ms v)
    | inr (b, e) ↦
        let h' : Handler = record h { sequence = (h.sequence + 1) % u32_mod } in
        rw e (
          encode_all-sequence k h' ms (omega arith)
          ∙ ap (λ s. record h { sequence = s }) (shift h.sequence _))
  ]
