-- ===== src/Encryption/Usage.antt =====
-- How often a key is used, over histories, and what the cleaning leaves.
use cat_tag.Common.{
  ℕ, ◌+◌, ◌≤◌, ◌<◌, ◌≡◌, refl, true, List, [], ◌∷◌, Option, none, some, if◌then◌else◌, String,
  length, Map, lookup, insert, delete, Distinct, Entries, insert-Distinct, delete-Distinct,
  insert-Entries, delete-Entries, lookup-Entries, same_iff, Option-cases, if_elim, inl, inr, arith,
}
use cat_tag.Errors.{GoError, Result, Result-cases, ok, err}
use cat_tag.Protocol.Bytes.{Bytes}
use cat_tag.Encryption.{
  Crypto, EncryptionKey, EncryptionManager, new_encryption_manager, fresh_key, generate_key,
  get_key, rotate_key, is_spent, live_keys, spent_keys, cleanup_expired_keys, encrypt_data,
}

-- A key is filed under its device and was used at most 10000 times.
pub record IsKey (d : String) (k : EncryptionKey) : Type 0 where
  pub filed : k.device_id ≡ d
  pub limit : k.max_usage ≡ 10000
  pub counted : k.usage ≤ k.max_usage

pub record IsValid (m : EncryptionManager) : Type 0 where
  pub each : Entries IsKey m.keys
  pub distinct : Distinct m.keys

put-IsValid :
    (m : EncryptionManager) (d : String) (k : EncryptionKey)
    → IsKey d k
    → IsValid m
    → IsValid (record m { keys = insert d k m.keys })
put-IsValid m d k i v = record {
  each = insert-Entries IsKey d k m.keys i v.each;
  distinct = insert-Distinct d k m.keys v.distinct;
}

remove-IsValid :
    (m : EncryptionManager) (d : String) → IsValid m → IsValid (record m { keys = delete d m.keys })
remove-IsValid m d v = record {
  each = delete-Entries IsKey d m.keys v.each;
  distinct = delete-Distinct d m.keys v.distinct;
}

fresh_key-IsKey :
    (m : EncryptionManager) (now : ℕ) (d : String) (ttl : ℕ) (key iv : Bytes)
    → IsKey d (fresh_key m now d ttl key iv)
unfolding fresh_key
fresh_key-IsKey m now d ttl key iv = record { filed = refl; limit = refl; counted = omega arith }

generate_key-IsValid :
    (now : ℕ) (m : EncryptionManager) (d : String) (ttl : ℕ) (key iv : Result Bytes)
    → IsValid m
    → IsValid (generate_key now m d ttl key iv).0
unfolding generate_key
generate_key-IsValid now m d ttl (err e) iv v = v
generate_key-IsValid now m d ttl (ok k) (err e) v = v
generate_key-IsValid now m d ttl (ok k) (ok i) v =
    put-IsValid m d (fresh_key m now d ttl k i) (fresh_key-IsKey m now d ttl k i) v

rotate_key-IsValid :
    (now : ℕ) (m : EncryptionManager) (d : String) (ttl : ℕ) (key iv : Result Bytes)
    → IsValid m
    → IsValid (rotate_key now m d ttl key iv).0
unfolding rotate_key
rotate_key-IsValid now m d ttl key iv v =
    generate_key-IsValid now (record m { keys = delete d m.keys }) d ttl key iv
      (remove-IsValid m d v)

get_key-ok :
    (now : ℕ) (m : EncryptionManager) (d : String) (k : EncryptionKey)
    → get_key now m d ≡ ok k
    → (lookup d m.keys ≡ some k) × (k.usage < k.max_usage) × (now ≤ k.expires_at)
unfolding get_key
get_key-ok now m d k e = elim (Option-cases (lookup d m.keys)) [
  | inl r ↦ absurd (ground arith)
  | inr (j, r) ↦ (ground arith, ground arith, ground arith)
]

live_keys-absent :
    (now : ℕ) (m : Map EncryptionKey) (d : String)
    → lookup d m ≡ none
    → lookup d (live_keys now m) ≡ none
unfolding live_keys lookup
live_keys-absent now [] d e = refl
live_keys-absent now ((j, k) ∷ m) d e = ground (arith, live_keys-absent now m d)

live_keys-Distinct : (now : ℕ) (m : Map EncryptionKey) → Distinct m → Distinct (live_keys now m)
unfolding live_keys
live_keys-Distinct now [] u = tt
live_keys-Distinct now ((j, k) ∷ m) u =
    if_elim Distinct (is_spent now k) (λ _. live_keys-Distinct now m u.1)
      (λ _. (live_keys-absent now m j u.0, live_keys-Distinct now m u.1))

live_keys-Entries :
    (now : ℕ) (m : Map EncryptionKey) → Entries IsKey m → Entries IsKey (live_keys now m)
unfolding live_keys
live_keys-Entries now [] u = tt
live_keys-Entries now ((j, k) ∷ m) u =
    if_elim (Entries IsKey) (is_spent now k) (λ _. live_keys-Entries now m u.1)
      (λ _. (u.0, live_keys-Entries now m u.1))

-- What the cleaning leaves of a device's key.
abbrev pub unless_spent : ℕ → Option EncryptionKey → Option EncryptionKey
unless_spent now none = none
unless_spent now (some k) = if is_spent now k then none else some k

lookup-live_keys :
    (now : ℕ) (m : Map EncryptionKey) (d : String)
    → Distinct m
    → lookup d (live_keys now m) ≡ unless_spent now (lookup d m)
unfolding live_keys lookup
lookup-live_keys now [] d u = refl
lookup-live_keys now ((j, k) ∷ m) d u =
    ground (arith, lookup-live_keys now m d u.1, same_iff j d, live_keys-absent now m d)

length-live_keys :
    (now : ℕ) (m : Map EncryptionKey) → length (live_keys now m) + spent_keys now m ≡ length m
unfolding live_keys spent_keys
length-live_keys now [] = omega arith
length-live_keys now ((j, k) ∷ m) = ground (arith, length-live_keys now m)

get_key-refused :
    (now : ℕ) (m : EncryptionManager) (d : String) (k : EncryptionKey)
    → lookup d m.keys ≡ some k
    → is_spent now k ≡ true
    → (e : GoError) × (get_key now m d ≡ err e)
unfolding get_key is_spent
get_key-refused now m d k found spent = elim (Result-cases (get_key now m d)) [
  | inl (j, r) ↦ absurd (ground arith)
  | inr (e, r) ↦ (e, r)
]

module _ (x : Crypto) where
  encrypt_data-IsValid :
      (now : ℕ) (random : Result Bytes) (m : EncryptionManager) (plain : Bytes) (d : String)
      → IsValid m
      → IsValid (encrypt_data x now random m plain d).0
  unfolding encrypt_data
  encrypt_data-IsValid now random m plain d v = elim (Result-cases (get_key now m d)) [
    | inr (e, r) ↦ rw (r, encrypt_data) v
    | inl (k, r) ↦
        let (found, below, _) = get_key-ok now m d k r in
        let i = lookup-Entries IsKey d k m.keys found v.each in
        rw (r, encrypt_data)
          (put-IsValid m d (record k { usage = k.usage + 1 })
            (record { filed = i.filed; limit = i.limit; counted = omega arith }) v)
  ]

  pub data Call : Type 0 where
    generate_call rotate_call : ℕ → String → ℕ → Result Bytes → Result Bytes → Call
    encrypt_call : ℕ → Result Bytes → Bytes → String → Call
    cleanup_call : ℕ → Call

  pub step : EncryptionManager → Call → EncryptionManager
  step m (generate_call now d ttl key iv) = (generate_key now m d ttl key iv).0
  step m (rotate_call now d ttl key iv) = (rotate_key now m d ttl key iv).0
  step m (encrypt_call now random plain d) = (encrypt_data x now random m plain d).0
  step m (cleanup_call now) = (cleanup_expired_keys now m).0

  pub run : EncryptionManager → List Call → EncryptionManager
  run m [] = m
  run m (c ∷ cs) = run (step m c) cs

  step-IsValid : (m : EncryptionManager) (c : Call) → IsValid m → IsValid (step m c)
  unfolding step cleanup_expired_keys
  step-IsValid m (generate_call now d ttl key iv) v = generate_key-IsValid now m d ttl key iv v
  step-IsValid m (rotate_call now d ttl key iv) v = rotate_key-IsValid now m d ttl key iv v
  step-IsValid m (encrypt_call now random plain d) v = encrypt_data-IsValid now random m plain d v
  step-IsValid m (cleanup_call now) v = record {
    each = live_keys-Entries now m.keys v.each;
    distinct = live_keys-Distinct now m.keys v.distinct;
  }

  run-IsValid : (m : EncryptionManager) (cs : List Call) → IsValid m → IsValid (run m cs)
  unfolding run
  run-IsValid m [] v = v
  run-IsValid m (c ∷ cs) v = run-IsValid (step m c) cs (step-IsValid m c v)

  -- After any history of calls on a new manager every device has one key, filed under it, and no key
  -- was used more than 10000 times.
  pub run-new_encryption_manager-IsValid :
      (algorithm : String) (key_size : ℕ) (cs : List Call)
      → IsValid (run (new_encryption_manager algorithm key_size) cs)
  unfolding new_encryption_manager
  run-new_encryption_manager-IsValid algorithm key_size cs =
      run-IsValid (new_encryption_manager algorithm key_size) cs
        (record { each = tt; distinct = tt })

-- The cleaning drops exactly the keys that are expired or used up, and returns their number.
pub cleanup_expired_keys_lem :
    (now : ℕ) (m : EncryptionManager) (d : String)
    → Distinct m.keys
    → let (q, count) = cleanup_expired_keys now m in
      (lookup d q.keys ≡ unless_spent now (lookup d m.keys))
      × (length q.keys + count ≡ length m.keys)
unfolding cleanup_expired_keys
cleanup_expired_keys_lem now m d u = (lookup-live_keys now m.keys d u, length-live_keys now m.keys)
