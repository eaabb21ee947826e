-- ===== src/Protocol/Processor.antt =====
-- `ProtocolProcessor` of protocol.go: validation, decoding and encoding with retries. The handler is
-- an interface, whose methods may move its state. For each attempt `cancelled` says whether the
-- context ended before the wait did: that choice is the environment's.
pub mod Laws
pub mod Builtin
use cat_tag.Common.{
  ℕ, zero, suc, ◌+◌, ℤ, to_ℕ, Bool, true, false, List, Option, none, some, if◌then◌else◌,
}
use cat_tag.Errors.{GoError, foreign, Result, ok, err}
use cat_tag.Errors.Strategy.{ErrorRecoveryStrategy, should_retry}
use cat_tag.Protocol.Bytes.{Bytes}

-- The methods of `ProtocolHandler` that the processor calls.
pub record ProtocolHandler : Type 1 where
  pub State : Type 0
  pub Message : Type 0
  pub validate_message : State → Bytes → Option GoError
  pub decode_message : State → Bytes → State × Result Message
  pub encode_message : State → Message → State × Result Bytes

-- Go's pair of a value and an error. `nothing` is what a loop without an attempt returns, (nil, nil);
-- a nil message that a handler returns without an error is a `value` of the type of messages.
pub data Reply {ℓ} (A : Type ℓ) : Type ℓ where
  value : A → Reply A
  failure : GoError → Reply A
  nothing : Reply A

-- `return nil, lastErr`
abbrev pub give_up {ℓ} : {A : Type ℓ} → Option GoError → Reply A
give_up none = nothing
give_up (some e) = failure e

-- `ctx.Err()`
abbrev pub context_error : GoError
context_error = foreign "context"

module _ (h : ProtocolHandler) (strategy : ErrorRecoveryStrategy) (cancelled : ℕ → Bool) where
  open h use {State, Message, validate_message, decode_message, encode_message}

  -- What follows a failed attempt: give up, stop for the context, or go on.
  abbrev pub after_error {ℓ} :
      {A : Type ℓ} → GoError → ℕ → State × Reply A → State → State × Reply A
  after_error e attempt again s = elim (should_retry strategy e attempt) [
    | false ↦ (s, failure e)
    | true ↦ elim (cancelled attempt) [ true ↦ (s, failure context_error) | false ↦ again ]
  ]

  -- The loop, with the rounds left, the attempt's number and `lastErr`.
  unfoldable pub process_loop : ℕ → ℕ → Option GoError → State → Bytes → State × Reply Message
  process_loop zero attempt last s bytes = (s, give_up last)
  process_loop (suc rounds) attempt last s bytes = elim (validate_message s bytes) [
    | some e ↦ (s, failure e)
    | none ↦
        let (s', result) = decode_message s bytes in
        elim result [
          | ok m ↦ (s', value m)
          | err e ↦
              let again = process_loop rounds (attempt + 1) (some e) s' bytes in
              after_error e attempt again s'
        ]
  ]

  unfoldable pub process_message : State → Bytes → State × Reply Message
  unfolding process_loop
  process_message s bytes = process_loop (to_ℕ strategy.max_retries) 0 none s bytes

  unfoldable pub encode_loop : ℕ → ℕ → Option GoError → State → Message → State × Reply Bytes
  encode_loop zero attempt last s m = (s, give_up last)
  encode_loop (suc rounds) attempt last s m =
      let (s', result) = encode_message s m in
      elim result [
        | ok bytes ↦ (s', value bytes)
        | err e ↦
            let again = encode_loop rounds (attempt + 1) (some e) s' m in
            after_error e attempt again s'
      ]

  unfoldable pub encode_message_with_retry : State → Message → State × Reply Bytes
  unfolding encode_loop
  encode_message_with_retry s m = encode_loop (to_ℕ strategy.max_retries) 0 none s m
