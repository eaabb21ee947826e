-- ===== src/Errors.antt =====
-- pkg/bluetooth/errors.go and the error codes of pkg/bluetooth/constants.go. An `error` is a
-- `*BluetoothError` or a value of another package. Messages, timestamps and contexts, which no code
-- branches on, are left out.
pub mod Strategy
pub mod StrategyLaws
use cat_tag.Common.{
  ℕ, String, Bool, true, false, ◌&&◌, ◌||◌, if◌then◌else◌, ltb, leb, ◌==◌, ◌≡◌, refl, ◌⊎◌, inl, inr,
}

abbrev pub general : ℕ
general = 1000

abbrev pub invalid_parameter : ℕ
invalid_parameter = 1001

abbrev pub timeout : ℕ
timeout = 1002

abbrev pub not_found : ℕ
not_found = 1003

abbrev pub already_exists : ℕ
already_exists = 1004

abbrev pub resource_busy : ℕ
resource_busy = 1006

abbrev pub not_supported : ℕ
not_supported = 1007

abbrev pub connection_failed : ℕ
connection_failed = 2000

abbrev pub disconnected : ℕ
disconnected = 2001

abbrev pub auth_failed : ℕ
auth_failed = 2002

abbrev pub encryption_failed : ℕ
encryption_failed = 2003

abbrev pub protocol_error : ℕ
protocol_error = 2004

abbrev pub device_busy : ℕ
device_busy = 3001

-- `bluetooth code device operation cause`; `foreign` stands for an error of another package.
mutual
  pub data GoError : Type 0 where
    bluetooth : ℕ → String → String → Cause → GoError
    foreign : String → GoError

  pub data Cause : Type 0 where
    no_cause : Cause
    caused_by : GoError → Cause

-- Go's pair of a value and an `error`.
pub data Result {ℓ} (A : Type ℓ) : Type ℓ where
  ok : A → Result A
  err : GoError → Result A

infixl 5 ◌>>=◌
abbrev pub ◌>>=◌ {ℓ κ} : {A : Type ℓ} {B : Type κ} → Result A → (A → Result B) → Result B
ok a >>= f = f a
err e >>= f = err e

-- To split on a computed result and keep the equation.
pub Result-cases {ℓ} :
    {A : Type ℓ} (r : Result A) → ((a : A) × (r ≡ ok a)) ⊎ ((e : GoError) × (r ≡ err e))
Result-cases (ok a) = inl (a, refl)
Result-cases (err e) = inr (e, refl)

abbrev pub new_bluetooth_error : ℕ → GoError
new_bluetooth_error code = bluetooth code "" "" no_cause

abbrev pub new_bluetooth_error_with_device : ℕ → String → String → GoError
new_bluetooth_error_with_device code device operation = bluetooth code device operation no_cause

abbrev pub wrap_error : GoError → ℕ → String → String → GoError
wrap_error e code device operation = bluetooth code device operation (caused_by e)

-- The method `Is`: two Bluetooth errors match when their codes agree.
unfoldable pub is : GoError → GoError → Bool
is (bluetooth c _ _ _) (bluetooth d _ _ _) = c == d
is (bluetooth c _ _ _) (foreign _) = false
is (foreign _) _ = false

unfoldable pub is_connection_error : GoError → Bool
is_connection_error (bluetooth code _ _ _) = leb 2000 code && ltb code 3000
is_connection_error (foreign _) = false

unfoldable pub is_device_error : GoError → Bool
is_device_error (bluetooth code _ _ _) = leb 3000 code && ltb code 4000
is_device_error (foreign _) = false

unfoldable pub is_retryable_error : GoError → Bool
is_retryable_error (bluetooth code _ _ _) =
    code == timeout || code == resource_busy || code == connection_failed || code == device_busy
is_retryable_error (foreign _) = false
