-- ===== src/Devices/Eviction.antt =====
-- What leaves a full cache: the oldest device.
use cat_tag.Common.{
  ℕ, ◌≤◌, ◌≡◌, refl, sym, subst, ap, ◌∙◌, ◌⊎◌, false, [], ◌∷◌, none, some, ltb, String, Map, lookup,
  delete, Distinct, same, same_iff, same_refl, Bool-cases, inl, inr, arith,
}
use cat_tag.Devices.{Manager, notify_device_event, is_protected}
use cat_tag.Devices.Cache.{older, find_oldest, lose, remove_oldest_device}

older-le : (m : Manager) (d : String) (r : ℕ) (found : String × ℕ) → (older m d r found).1 ≤ found.1
unfolding older
older-le m d r found = ground arith

older-least :
    (m : Manager) (d : String) (r : ℕ) (found : String × ℕ)
    → is_protected d m ≡ false
    → (older m d r found).1 ≤ (m.heap r).last_seen
unfolding older
older-least m d r found loose = ground arith

find_oldest-le :
    (m : Manager) (rest : Map ℕ) (found : String × ℕ) → (find_oldest m rest found).1 ≤ found.1
unfolding find_oldest
find_oldest-le m [] found = omega arith
find_oldest-le m ((d, r) ∷ rest) found =
    let below = find_oldest-le m rest (older m d r found) in
    let first = older-le m d r found in omega arith

find_oldest-least :
    (m : Manager) (rest : Map ℕ) (found : String × ℕ) (e : String) (s : ℕ)
    → lookup e rest ≡ some s
    → is_protected e m ≡ false
    → (find_oldest m rest found).1 ≤ (m.heap s).last_seen
unfolding find_oldest lookup
find_oldest-least m [] found e s at loose = absurd (ground arith)
find_oldest-least m ((d, r) ∷ rest) found e s at loose = elim (Bool-cases (same d e)) [
  | inl hit ↦
      let keyed : d ≡ e = (same_iff d e).0 hit in
      let here : r ≡ s = ground arith in
      let below = find_oldest-le m rest (older m d r found) in
      let first = older-least m d r found (ap (λ k. is_protected k m) keyed ∙ loose) in
      let same_time : (m.heap r).last_seen ≡ (m.heap s).last_seen =
        ap (λ q. (m.heap q).last_seen) here in
      omega arith
  | inr miss ↦ find_oldest-least m rest (older m d r found) e s (ground arith) loose
]

-- An unprotected device of the map, with its time.
pub record IsCandidate (m : Manager) (rest : Map ℕ) (found : String × ℕ) : Type 0 where
  pub pointer : ℕ
  pub held : lookup found.0 rest ≡ some pointer
  pub loose : is_protected found.0 m ≡ false
  pub age : found.1 ≡ (m.heap pointer).last_seen

older-IsCandidate :
    (m : Manager) (d : String) (r : ℕ) (rest : Map ℕ) (found : String × ℕ)
    → (older m d r found ≡ found) ⊎ IsCandidate m ((d, r) ∷ rest) (older m d r found)
unfolding older lookup
older-IsCandidate m d r rest found = elim (Bool-cases (is_protected d m)) [
  | inl p ↦ inl (ground arith)
  | inr p ↦ elim (Bool-cases (ltb ((m.heap r).last_seen) found.1)) [
    | inr l ↦ inl (ground arith)
    | inl l ↦
        let e : older m d r found ≡ (d, (m.heap r).last_seen) = ground arith in
        inr
          (rw e (record { pointer = r; held = ground (arith, same_refl d); loose = p; age = refl }))
  ]
]

later-IsCandidate :
    (m : Manager) (d : String) (r : ℕ) (rest : Map ℕ) (found : String × ℕ)
    → lookup d rest ≡ none
    → IsCandidate m rest found
    → IsCandidate m ((d, r) ∷ rest) found
unfolding lookup
later-IsCandidate m d r rest found new c = record {
  pointer = c.pointer;
  held = ground (arith, c.held, same_iff d found.0);
  loose = c.loose;
  age = c.age;
}

find_oldest-IsCandidate :
    (m : Manager) (rest : Map ℕ) (found : String × ℕ)
    → Distinct rest
    → (find_oldest m rest found ≡ found) ⊎ IsCandidate m rest (find_oldest m rest found)
unfolding find_oldest
find_oldest-IsCandidate m [] found u = inl refl
find_oldest-IsCandidate m ((d, r) ∷ rest) found u =
    elim (find_oldest-IsCandidate m rest (older m d r found) u.1) [
      | inr c ↦ inr (later-IsCandidate m d r rest _ u.0 c)
      | inl e ↦ elim (older-IsCandidate m d r rest found) [
        | inl f ↦ inl (e ∙ f)
        | inr c ↦ inr (subst (IsCandidate m ((d, r) ∷ rest)) (sym e) c)
      ]
    ]

-- No unprotected device was seen before now; or one that was seen last the longest ago goes.
pub data Evicts (now : ℕ) (m q : Manager) : Type 0 where
  none_goes :
      ((e : String) (s : ℕ)
        → lookup e m.devices ≡ some s
        → is_protected e m ≡ false
        → now ≤ (m.heap s).last_seen)
      → q.devices ≡ m.devices
      → Evicts now m q
  oldest_goes :
      (d : String) (r : ℕ)
      → lookup d m.devices ≡ some r
      → is_protected d m ≡ false
      → ((e : String) (s : ℕ)
          → lookup e m.devices ≡ some s
          → is_protected e m ≡ false
          → (m.heap r).last_seen ≤ (m.heap s).last_seen)
      → q.devices ≡ delete d m.devices
      → Evicts now m q

lose-devices :
    (d : String) (r : ℕ) (m : Manager)
    → lookup d m.devices ≡ some r
    → (lose d m).devices ≡ delete d m.devices
unfolding lose notify_device_event
lose-devices d r m e = ground arith

-- What makes room in a full cache: of the devices that are neither connected nor paired, one that
-- was seen last the longest ago leaves, and no other device; none does if all of them were seen no
-- earlier than now. The devices are distinct and have an identifier.
pub remove_oldest_device-Evicts :
    (now : ℕ) (m : Manager)
    → Distinct m.devices
    → lookup "" m.devices ≡ none
    → Evicts now m (remove_oldest_device now m)
unfolding remove_oldest_device
remove_oldest_device-Evicts now m u named = elim (find_oldest-IsCandidate m m.devices ("", now) u) [
  | inl e ↦
      none_goes
        (λ d s at loose.
          let least = find_oldest-least m m.devices ("", now) d s at loose in
          let time : (find_oldest m m.devices ("", now)).1 ≡ now = ap (λ f. f.1) e in omega arith)
        (ground (arith, same_refl ""))
  | inr c ↦
      let d = (find_oldest m m.devices ("", now)).0 in
      let keyed : same d "" ≡ false = ground (arith, same_iff d "", c.held) in
      oldest_goes d c.pointer c.held c.loose
        (λ e s at loose.
          let least = find_oldest-least m m.devices ("", now) e s at loose in
          let time = c.age in omega arith)
        (ground (arith, lose-devices d c.pointer m c.held))
]
