-- ===== src/Mutex.antt =====
-- `sync.RWMutex` around the calls that one goroutine makes. Go's locks are not reentrant: a goroutine
-- that asks for a lock it holds, and either the held or the wanted one is for writing, waits for
-- ever, which is `blocked`. The other goroutines are taken to release what they hold.
use cat_tag.Common.{ℕ, zero, suc, ◌≡◌, refl, inl, inr, ◌⊎◌}

-- `reading n` is held by n + 1 readers.
pub data Mutex : Type 0 where
  free : Mutex
  reading : ℕ → Mutex
  writing : Mutex

pub data Run (A : Type 0) : Type 0 where
  returned : A → Run A
  blocked : Run A

-- A computation on a state under a mutex.
abbrev pub Locked : Type 0 → Type 0 → Type 0
Locked S A = S × Mutex → Run (A × S × Mutex)

module _ {S : Type 0} where
  abbrev pub pure : {A : Type 0} → A → Locked S A
  pure a (s, x) = returned (a, s, x)

  infixl 5 ◌>>=◌
  abbrev pub ◌>>=◌ : {A B : Type 0} → Locked S A → (A → Locked S B) → Locked S B
  ◌>>=◌ m f w = elim (m w) [ blocked ↦ blocked | returned (a, s, x) ↦ f a (s, x) ]

  -- A function of the state, and nothing about the mutex.
  abbrev pub with_state : {A : Type 0} → (S → S × A) → Locked S A
  with_state f (s, x) = let (s', a) = f s in returned (a, s', x)

  -- `Unlock` and `RUnlock` bring back what was held before.
  abbrev pub release : {A : Type 0} → Mutex → Run (A × S × Mutex) → Run (A × S × Mutex)
  release before blocked = blocked
  release before (returned (a, s, x)) = returned (a, s, before)

  -- `mu.Lock(); defer mu.Unlock()` around a body
  abbrev pub write_locked : {A : Type 0} → Locked S A → Locked S A
  write_locked body (s, free) = release free (body (s, writing))
  write_locked body (s, reading n) = blocked
  write_locked body (s, writing) = blocked

  -- `mu.RLock(); defer mu.RUnlock()` around a body
  abbrev pub read_locked : {A : Type 0} → Locked S A → Locked S A
  read_locked body (s, free) = release free (body (s, reading zero))
  read_locked body (s, reading n) = release (reading n) (body (s, reading (suc n)))
  read_locked body (s, writing) = blocked

pub Run-cases : {A : Type 0} (r : Run A) → (r ≡ blocked) ⊎ ((a : A) × (r ≡ returned a))
Run-cases blocked = inl refl
Run-cases (returned a) = inr (a, refl)
