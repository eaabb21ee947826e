-- ===== src/Common/Maps.antt =====
-- Go's `map[string]V` as an association list. The order of the list is the order in which a `range`
-- loop meets the entries: Go leaves it open, and the theorems hold for every list.
use Prim.Native.Nat.{suc, ◌≤◌, ◌<◌}
use Prim.Native.String.{String}
use mathlib.Core.Path.{◌≡◌, refl, subst}
use mathlib.Core.Logic.{inl, inr}
use mathlib.Core.Bool.{Bool, true}
use mathlib.Core.Option.{Option, none, some}
use mathlib.Core.List.{List, [], ◌∷◌}
use native.Mathlib.Omega.{arith}
use text.Mathlib.Text.{◌==◌ as str_eq}
use text.Mathlib.TextEquality.{eq_iff}
use cat_tag.Common.Tests.{if◌then◌else◌, Bool-cases}
use cat_tag.Common.Lists.{length}

abbrev pub Map {ℓ} : Type ℓ → Type ℓ
Map V = List (String × V)

-- `a == b` on strings
abbrev pub same : String → String → Bool
same a b = str_eq a b

pub same_iff : (a b : String) → ((same a b ≡ true) → a ≡ b) × ((a ≡ b) → same a b ≡ true)
same_iff a b = eq_iff a b

pub same_refl : (a : String) → same a a ≡ true
same_refl a = (eq_iff a a).1 refl

none≢some {ℓ} : {A : Type ℓ} {a : A} → none ≡ some a → ⊥
none≢some e = cc

module _ {ℓ} {V : Type ℓ} where
  -- `v, exists := m[k]`
  unfoldable pub lookup : String → Map V → Option V
  lookup k [] = none
  lookup k ((j, v) ∷ m) = if same j k then some v else lookup k m

  -- `m[k] = v`
  unfoldable pub insert : String → V → Map V → Map V
  insert k v [] = (k, v) ∷ []
  insert k v ((j, w) ∷ m) = if same j k then (k, v) ∷ m else (j, w) ∷ insert k v m

  -- `delete(m, k)`
  unfoldable pub delete : String → Map V → Map V
  delete k [] = []
  delete k ((j, w) ∷ m) = if same j k then delete k m else (j, w) ∷ delete k m

  -- the values, in the order of the range loop
  abbrev pub values : Map V → List V
  values [] = []
  values ((k, v) ∷ m) = v ∷ values m

  abbrev pub keys : Map V → List String
  keys [] = []
  keys ((k, v) ∷ m) = k ∷ keys m

  pub lookup-insert :
      (written sought : String) (v : V) (m : Map V)
      → lookup sought (insert written v m)
        ≡ (if same written sought then some v else lookup sought m)
  unfolding insert lookup
  lookup-insert written sought v [] = refl
  lookup-insert written sought v ((key, w) ∷ rest) = ground (
    arith,
    lookup-insert written sought v rest,
    eq_iff key written,
    eq_iff key sought,
    eq_iff written sought,
  )

  pub lookup-delete :
      (k j : String) (m : Map V) → lookup j (delete k m) ≡ (if same k j then none else lookup j m)
  unfolding lookup delete
  lookup-delete k j [] = ground arith
  lookup-delete k j ((i, w) ∷ m) =
      ground (arith, eq_iff k j, eq_iff i k, eq_iff i j, lookup-delete k j m)

  pub length-insert_new :
      (k : String) (v : V) (m : Map V) → lookup k m ≡ none → length (insert k v m) ≡ suc (length m)
  unfolding lookup insert
  length-insert_new k v [] h = refl
  length-insert_new k v ((i, w) ∷ m) h = ground (arith, length-insert_new k v m)

  pub length-insert_old :
      (k : String) (v w : V) (m : Map V) → lookup k m ≡ some w → length (insert k v m) ≡ length m
  unfolding lookup insert
  length-insert_old k v w [] h = cc
  length-insert_old k v w ((i, u) ∷ m) h = ground (arith, length-insert_old k v w m)

  pub length-delete-le : (k : String) (m : Map V) → length (delete k m) ≤ length m
  unfolding delete
  length-delete-le k [] = omega arith
  length-delete-le k ((i, w) ∷ m) = ground (arith, length-delete-le k m)

  pub length-delete-lt :
      (k : String) (v : V) (m : Map V) → lookup k m ≡ some v → length (delete k m) < length m
  unfolding delete lookup
  length-delete-lt k v [] h = cc
  length-delete-lt k v ((i, w) ∷ m) h = ground (arith, length-delete-le k m, length-delete-lt k v m)

  -- Every key stands once.
  abbrev pub Distinct : Map V → Type ℓ
  Distinct [] = Unit {ℓ}
  Distinct ((k, v) ∷ m) = (lookup k m ≡ none) × Distinct m

  pub insert-Distinct : (k : String) (v : V) (m : Map V) → Distinct m → Distinct (insert k v m)
  unfolding insert lookup
  insert-Distinct k v [] d = (refl, tt)
  insert-Distinct k v ((j, w) ∷ m) d =
      ground (arith, eq_iff j k, eq_iff k j, lookup-insert k j v m, insert-Distinct k v m d.1)

  pub delete-Distinct : (k : String) (m : Map V) → Distinct m → Distinct (delete k m)
  unfolding delete
  delete-Distinct k [] d = tt
  delete-Distinct k ((j, w) ∷ m) d = ground (arith, lookup-delete k j m, delete-Distinct k m d.1)

  -- A predicate on every entry.
  abbrev pub Entries {κ} : (String → V → Type κ) → Map V → Type κ
  Entries P [] = Unit {κ}
  Entries P ((k, v) ∷ m) = P k v × Entries P m

  pub delete-Entries {κ} :
      (P : String → V → Type κ) (k : String) (m : Map V) → Entries P m → Entries P (delete k m)
  unfolding delete
  delete-Entries P k [] e = tt
  delete-Entries P k ((j, w) ∷ m) e = elim (Bool-cases (same j k)) [
    | inl hit ↦ rw hit (delete-Entries P k m e.1)
    | inr miss ↦ rw miss (e.0, delete-Entries P k m e.1)
  ]

  pub insert-Entries {κ} :
      (P : String → V → Type κ) (k : String) (v : V) (m : Map V)
      → P k v
      → Entries P m
      → Entries P (insert k v m)
  unfolding insert
  insert-Entries P k v [] p e = (p, tt)
  insert-Entries P k v ((j, w) ∷ m) p e = elim (Bool-cases (same j k)) [
    | inl hit ↦ rw hit (p, e.1)
    | inr miss ↦ rw miss (e.0, insert-Entries P k v m p e.1)
  ]

  pub lookup-Entries {κ} :
      (P : String → V → Type κ) (k : String) (v : V) (m : Map V)
      → lookup k m ≡ some v
      → Entries P m
      → P k v
  unfolding lookup
  lookup-Entries P k v [] h e = absurd (none≢some h)
  lookup-Entries P k v ((j, w) ∷ m) h e = elim (Bool-cases (same j k)) [
    | inl hit ↦
        let value : w ≡ v = ground arith in
        subst (λ i. P i v) ((eq_iff j k).0 hit) (subst (P j) value e.0)
    | inr miss ↦ lookup-Entries P k v m (ground arith) e.1
  ]
