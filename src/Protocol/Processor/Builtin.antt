-- ===== src/Protocol/Processor/Builtin.antt =====
-- `ProtocolProcessor` over the two handlers of protocol.go.
use cat_tag.Common.{
  ℕ, zero, suc, ◌<◌, ◌≡◌, inl, inr, Bool, false, Option-cases, none, some, to_ℕ, arith, length,
}
use cat_tag.Errors.{GoError, Result, Result-cases, ok, err, is_retryable_error}
use cat_tag.Errors.Strategy.{ErrorRecoveryStrategy, should_retry}
use cat_tag.Protocol.Bytes.{Bytes}
use cat_tag.Protocol.Frame
use cat_tag.Protocol.Frame.{decode_frame, decode_body, check_length, frame_error, read_header}
use cat_tag.Protocol.Handler
use cat_tag.Protocol.Handler.{Externals, Handler, Kind, open_frame, send_payload}
use cat_tag.Protocol.Processor.{
  ProtocolHandler, Reply, value, failure, process_loop, process_message, encode_loop,
  encode_message_with_retry,
}

-- A handler of protocol.go behind the interface. Decoding leaves it as it is.
abbrev pub builtin : Externals → Kind → ProtocolHandler
builtin x k = record {
  State = Handler;
  Message = x.Message;
  validate_message = Handler.validate_message;
  decode_message = λ h bytes. (h, Handler.decode_message x k h bytes);
  encode_message = λ h m. Handler.encode_message x k h m;
}

check_length-err :
    (h : Frame.FrameHeader) (total : ℕ) (rest : Bytes) (e : GoError)
    → check_length h total rest ≡ err e
    → e ≡ frame_error
unfolding check_length
check_length-err h total rest e q = elim (Option-cases (decode_body h rest)) [
  | inl p ↦ ground arith
  | inr (f, p) ↦ ground arith
]

decode_frame-err : (bytes : Bytes) (e : GoError) → decode_frame bytes ≡ err e → e ≡ frame_error
unfolding decode_frame
decode_frame-err bytes e q = elim (Option-cases (read_header bytes)) [
  | inl p ↦ ground arith
  | inr ((h, rest), p) ↦ ground (arith, check_length-err h (length bytes) rest e)
]

module _ (x : Externals) (k : Kind) where
  open x use {Message}

  open_frame-err :
      (h : Handler) (f : Frame.MessageFrame) (e : GoError)
      → open_frame x k h f ≡ err e
      → is_retryable_error e ≡ false
  unfolding open_frame is_retryable_error
  open_frame-err h f e q = ground arith

  decode_message-err :
      (h : Handler) (bytes : Bytes) (e : GoError)
      → Handler.decode_message x k h bytes ≡ err e
      → is_retryable_error e ≡ false
  unfolding Handler.decode_message is_retryable_error
  decode_message-err h bytes e q = elim (Result-cases (decode_frame bytes)) [
    | inl (f, p) ↦ open_frame-err h f e (ground arith)
    | inr (g, p) ↦ ground (arith, decode_frame-err bytes g p)
  ]

  encode_message-err :
      (h : Handler) (m : Message) (e : GoError)
      → (Handler.encode_message x k h m).1 ≡ err e
      → is_retryable_error e ≡ false
  unfolding Handler.encode_message is_retryable_error
  encode_message-err h m e q = ground arith

  abbrev pub reply {ℓ} : {A : Type ℓ} → Result A → Reply A
  reply (ok a) = value a
  reply (err e) = failure e

  -- Validation, and then one decoding.
  abbrev pub decode_once : Handler → Bytes → Reply Message
  decode_once h bytes = elim (Handler.validate_message h bytes) [
    | some e ↦ failure e
    | none ↦ reply (Handler.decode_message x k h bytes)
  ]

  module _ (strategy : ErrorRecoveryStrategy) (cancelled : ℕ → Bool) where
    no_retry :
        (e : GoError) (attempt : ℕ)
        → is_retryable_error e ≡ false
        → should_retry strategy e attempt ≡ false
    unfolding should_retry
    no_retry e attempt r = ground arith

    loop_once :
        (rounds : ℕ) (h : Handler) (bytes : Bytes)
        → process_loop (builtin x k) strategy cancelled (suc rounds) 0 none h bytes
          ≡ (h, decode_once h bytes)
    unfolding process_loop
    loop_once rounds h bytes = elim (Result-cases (Handler.decode_message x k h bytes)) [
      | inl (m, q) ↦ ground arith
      | inr (e, q) ↦ ground (arith, no_retry e 0 (decode_message-err h bytes e q))
    ]

    -- Over a handler of protocol.go `ProcessMessage` validates once and decodes at most once, for
    -- every strategy with an attempt and every course of the context: its retries never happen.
    pub process_message-builtin :
        (h : Handler) (bytes : Bytes)
        → 0 < to_ℕ strategy.max_retries
        → process_message (builtin x k) strategy cancelled h bytes ≡ (h, decode_once h bytes)
    unfolding process_message
    process_message-builtin h bytes some_round = once (to_ℕ strategy.max_retries) some_round
      where
        once :
            (n : ℕ)
            → 0 < n
            → process_loop (builtin x k) strategy cancelled n 0 none h bytes
              ≡ (h, decode_once h bytes)
        once zero p = absurd (omega arith)
        once (suc n) p = loop_once n h bytes

    send_once :
        (rounds : ℕ) (h : Handler) (m : Message)
        → encode_loop (builtin x k) strategy cancelled (suc rounds) 0 none h m
          ≡ ((Handler.encode_message x k h m).0, reply (Handler.encode_message x k h m).1)
    unfolding encode_loop
    send_once rounds h m = elim (Result-cases (Handler.encode_message x k h m).1) [
      | inl (b, q) ↦ ground arith
      | inr (e, q) ↦ ground (arith, no_retry e 0 (encode_message-err h m e q))
    ]

    -- Over a handler of protocol.go `EncodeMessageWithRetry` encodes exactly once, for every strategy
    -- with an attempt and every course of the context, and returns what that gave.
    pub encode_message_with_retry-builtin :
        (h : Handler) (m : Message)
        → 0 < to_ℕ strategy.max_retries
        → encode_message_with_retry (builtin x k) strategy cancelled h m
          ≡ ((Handler.encode_message x k h m).0, reply (Handler.encode_message x k h m).1)
    unfolding encode_message_with_retry
    encode_message_with_retry-builtin h m some_round = once (to_ℕ strategy.max_retries) some_round
      where
        once :
            (n : ℕ)
            → 0 < n
            → encode_loop (builtin x k) strategy cancelled n 0 none h m
              ≡ ((Handler.encode_message x k h m).0, reply (Handler.encode_message x k h m).1)
        once zero p = absurd (omega arith)
        once (suc n) p = send_once n h m
