-- ===== src/Examples/Processor.antt =====
-- Retries on a decoder that fails a number of times, and on the handlers of protocol.go.
use cat_tag.Common.{ℕ, zero, suc, ◌*◌, ◌≡◌, refl, true, false, [], ◌∷◌, none, arith}
use cat_tag.Errors.{GoError, Result, ok, err, new_bluetooth_error, timeout, is_retryable_error}
use cat_tag.Errors.Strategy.{default_recovery_strategy, second, calculate_retry_delay}
use cat_tag.Errors.StrategyLaws.{calculate_retry_delay-doubling, capped}
use cat_tag.Protocol.Bytes.{Bytes}
use cat_tag.Protocol.Handler.{l2cap}
use cat_tag.Protocol.Processor.{ProtocolHandler, value, process_message}
use cat_tag.Protocol.Processor.Laws.{Recovers, now, later, process_message-Recovers}
use cat_tag.Protocol.Processor.Builtin.{builtin, decode_once, process_message-builtin}
use cat_tag.Examples.Protocol.{plain, sender}

abbrev busy : GoError
busy = new_bluetooth_error timeout

-- The state counts the failures to come.
abbrev flaky : ProtocolHandler
flaky = record {
  State = ℕ;
  Message = Bytes;
  validate_message = λ s bytes. none;
  decode_message = λ s bytes. answer s bytes;
  encode_message = λ s m. (s, ok m);
}
  where
    answer : ℕ → Bytes → ℕ × Result Bytes
    answer zero bytes = (zero, ok bytes)
    answer (suc n) bytes = (n, err busy)

busy_retryable : is_retryable_error busy ≡ true
unfolding is_retryable_error
busy_retryable = refl

recovers : Recovers flaky default_recovery_strategy (λ i. false) (7 ∷ []) 2 2 0 (7 ∷ [])
recovers =
    later 2 1 0 busy 1 (7 ∷ []) refl refl busy_retryable
      (later 1 0 0 busy 0 (7 ∷ []) refl refl busy_retryable (now 0 0 (7 ∷ []) refl refl))

process_message-Recovers_example :
    process_message flaky default_recovery_strategy (λ i. false) 2 (7 ∷ []) ≡ (0, value (7 ∷ []))
process_message-Recovers_example =
    process_message-Recovers flaky default_recovery_strategy (λ i. false) (7 ∷ []) (λ i. refl)
      (omega arith) recovers

process_message-builtin_example :
    process_message (builtin plain l2cap) default_recovery_strategy (λ i. true) sender (1 ∷ 2 ∷ [])
    ≡ (sender, decode_once plain l2cap sender (1 ∷ 2 ∷ []))
process_message-builtin_example =
    process_message-builtin plain l2cap default_recovery_strategy (λ i. true) sender (1 ∷ 2 ∷ [])
      (omega arith)

calculate_retry_delay-doubling_example :
    calculate_retry_delay default_recovery_strategy 3 ≡ capped (30 * second) (second * 8)
calculate_retry_delay-doubling_example =
    calculate_retry_delay-doubling default_recovery_strategy (λ d small. refl) (omega arith) 3
      (omega arith) (omega arith)
