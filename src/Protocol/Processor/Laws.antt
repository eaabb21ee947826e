-- ===== src/Protocol/Processor/Laws.antt =====
-- The retry loops of `ProtocolProcessor`, for every handler.
use cat_tag.Common.{
  ℕ, zero, suc, ◌+◌, ◌≤◌, ◌<◌, ◌≡◌, ◌∙◌, Bool, true, false, Option, none, some, to_ℕ, arith,
}
use cat_tag.Errors.{GoError, ok, err, is_retryable_error}
use cat_tag.Errors.Strategy.{ErrorRecoveryStrategy, should_retry}
use cat_tag.Protocol.Bytes.{Bytes}
use cat_tag.Protocol.Processor.{ProtocolHandler, value, process_loop, process_message}

module _ (h : ProtocolHandler) (strategy : ErrorRecoveryStrategy) (cancelled : ℕ → Bool) where
  open h use {State, Message, validate_message, decode_message, encode_message}

  -- From state `s` the decoder fails `k` times with a retryable error, and then returns a message.
  pub data Recovers (bytes : Bytes) : State → ℕ → State → Message → Type 0 where
    now :
        (s t : State) (m : Message)
        → validate_message s bytes ≡ none
        → decode_message s bytes ≡ (t, ok m)
        → Recovers bytes s zero t m
    later :
        (s t u : State) (e : GoError) (k : ℕ) (m : Message)
        → validate_message s bytes ≡ none
        → decode_message s bytes ≡ (t, err e)
        → is_retryable_error e ≡ true
        → Recovers bytes t k u m
        → Recovers bytes s (suc k) u m

  retries :
      (e : GoError) (attempt : ℕ)
      → is_retryable_error e ≡ true
      → attempt < to_ℕ strategy.max_retries
      → should_retry strategy e attempt ≡ true
  unfolding should_retry
  retries e attempt r lt = ground arith

  step_delivers :
      (bytes : Bytes) (s t : State) (m : Message) (rounds attempt : ℕ) (last : Option GoError)
      → validate_message s bytes ≡ none
      → decode_message s bytes ≡ (t, ok m)
      → process_loop h strategy cancelled (suc rounds) attempt last s bytes ≡ (t, value m)
  unfolding process_loop
  step_delivers bytes s t m rounds attempt last v d = ground arith

  step_retries :
      (bytes : Bytes) (s t : State) (e : GoError) (rounds attempt : ℕ) (last : Option GoError)
      → validate_message s bytes ≡ none
      → decode_message s bytes ≡ (t, err e)
      → should_retry strategy e attempt ≡ true
      → cancelled attempt ≡ false
      → process_loop h strategy cancelled (suc rounds) attempt last s bytes
        ≡ process_loop h strategy cancelled rounds (attempt + 1) (some e) t bytes
  unfolding process_loop
  step_retries bytes s t e rounds attempt last v d r c = ground arith

  process_loop-Recovers :
      (bytes : Bytes) (rounds attempt : ℕ) (last : Option GoError) {s t : State} {k : ℕ}
      {m : Message}
      → ((i : ℕ) → cancelled i ≡ false)
      → attempt + rounds ≤ to_ℕ strategy.max_retries
      → k < rounds
      → Recovers bytes s k t m
      → process_loop h strategy cancelled rounds attempt last s bytes ≡ (t, value m)
  process_loop-Recovers bytes zero attempt last never fits lt r = absurd (omega arith)
  process_loop-Recovers bytes (suc rounds) attempt last never fits lt (now s t m v d) =
      step_delivers bytes s t m rounds attempt last v d
  process_loop-Recovers bytes (suc rounds) attempt last never fits lt (later s t u e k m v d q r) =
      step_retries bytes s t e rounds attempt last v d (retries e attempt q (omega arith))
        (never attempt)
      ∙ process_loop-Recovers bytes rounds (attempt + 1) (some e) never (omega arith) (omega arith)
          r

  -- A decoder that recovers after fewer failures than there are attempts gets its message
  -- delivered, if the context is never cancelled.
  pub process_message-Recovers :
      (bytes : Bytes) {s t : State} {k : ℕ} {m : Message}
      → ((i : ℕ) → cancelled i ≡ false)
      → k < to_ℕ strategy.max_retries
      → Recovers bytes s k t m
      → process_message h strategy cancelled s bytes ≡ (t, value m)
  unfolding process_message
  process_message-Recovers bytes never lt r =
      process_loop-Recovers bytes (to_ℕ strategy.max_retries) 0 none never (omega arith) lt r
