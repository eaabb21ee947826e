-- ===== src/Devices/Invariant/Calls.antt =====
-- Every history of calls on a device manager keeps its invariant.
use cat_tag.Common.{
  ℕ, ℤ, at_least, ◌≡◌, refl, sym, false, not, List, [], ◌∷◌, none, if◌then◌else◌, String, length,
  Map, lookup, lookup-delete, Distinct, same, same_iff, same_refl, Bool-cases, Option-cases,
  if_elim, inl, inr, arith,
}
use cat_tag.Devices.{
  Device, disconnected, lost, Manager, new_manager, notify_device_event, exists_in, is_protected,
  Result?, mark_device_connected, mark_device_disconnected, pair_device, unpair_device,
  update_device_rssi, start, stop, begin_discovery, end_discovery,
}
use cat_tag.Devices.Cache.{
  older, find_oldest, lose, remove_oldest_device, cache_device, add_device, remove_device,
  expired_devices, lose_expired, cleanup_expired_devices, protected_devices, clear_device_cache,
}
use cat_tag.Devices.Invariant.{
  Points, Shares, IsValid, delete-Points, insert-Points, insert-Shares, update-IsValid,
  lose_one-IsValid, forget-IsValid, cut-IsValid, notify-IsValid, cache_device-IsValid,
}

-- The device that is found oldest is not protected, if one is found.
find_oldest-unprotected :
    (m : Manager) (rest : Map ℕ) (found : String × ℕ)
    → (same found.0 "" ≡ false → is_protected found.0 m ≡ false)
    → same (find_oldest m rest found).0 "" ≡ false
    → is_protected (find_oldest m rest found).0 m ≡ false
unfolding find_oldest older
find_oldest-unprotected m [] found h e = h e
find_oldest-unprotected m ((d, r) ∷ rest) found h e =
    find_oldest-unprotected m rest _ (ground arith) e

lose-IsValid :
    (d : String) (m : Manager)
    → exists_in d m.connected_devices ≡ false
    → IsValid m
    → IsValid (lose d m)
unfolding lose
lose-IsValid d m out v = elim (Option-cases (lookup d m.devices)) [
  | inl r ↦ rw (r, lose) v
  | inr (p, r) ↦ rw (r, lose) (notify-IsValid lost (m.heap p) _ (lose_one-IsValid d m out v))
]

remove_oldest_device-IsValid :
    (now : ℕ) (m : Manager) → IsValid m → IsValid (remove_oldest_device now m)
unfolding remove_oldest_device
remove_oldest_device-IsValid now m v =
    if_elim IsValid (same (find_oldest m m.devices ("", now)).0 "") (λ _. v)
      (λ e.
        let loose =
          find_oldest-unprotected m m.devices ("", now) (λ x. absurd (ground (arith, same_refl "")))
            e in
        lose-IsValid _ m (ground arith) v)

-- The cache loses devices, or nothing, when the oldest is removed.
remove_oldest_device-absent :
    (now : ℕ) (d : String) (m : Manager)
    → lookup d m.devices ≡ none
    → lookup d (remove_oldest_device now m).devices ≡ none
unfolding remove_oldest_device lose notify_device_event
remove_oldest_device-absent now d m e =
    ground (arith, lookup-delete (find_oldest m m.devices ("", now)).0 d m.devices)

add_device-IsValid :
    (now : ℕ) (found : Device) (m : Manager) → IsValid m → IsValid (add_device now found m)
unfolding add_device Points
add_device-IsValid now found m v =
    let device : Device = record found { last_seen = now } in
    elim (Option-cases (lookup found.id m.devices)) [
      | inr (p, r) ↦
          rw (r, add_device)
            (notify-IsValid _ device _ (
              update-IsValid p device m _ (sym (v.cached found.id p r).1) refl refl refl refl refl
                v))
      | inl r ↦
          rw (r, add_device)
            (if_elim (λ q. IsValid (cache_device device q))
              (at_least (length m.devices) m.max_devices)
              (λ _.
                cache_device-IsValid device (remove_oldest_device now m)
                  (remove_oldest_device-absent now found.id m r)
                  (remove_oldest_device-IsValid now m v))
              (λ _. cache_device-IsValid device m r v))
    ]

remove_device-IsValid : (d : String) (m : Manager) → IsValid m → IsValid (remove_device d m)
unfolding remove_device
remove_device-IsValid d m v = elim (Option-cases (lookup d m.devices)) [
  | inl r ↦ rw (r, remove_device) v
  | inr (p, r) ↦ rw (r, remove_device) (notify-IsValid lost (m.heap p) _ (forget-IsValid d m v))
]

lose_expired-IsValid : (ds : List String) (m : Manager) → IsValid m → IsValid (lose_expired ds m)
unfolding lose_expired
lose_expired-IsValid [] m v = v
lose_expired-IsValid (d ∷ ds) m v = elim (Option-cases (lookup d m.devices)) [
  | inl r ↦ rw (r, lose_expired) (lose_expired-IsValid ds m v)
  | inr (p, r) ↦
      rw (r, lose_expired)
        (lose_expired-IsValid ds _ (
          notify-IsValid lost (m.heap p) _ (
            if_elim IsValid (exists_in d m.connected_devices)
              (λ _. notify-IsValid disconnected (m.heap p) _ (forget-IsValid d m v))
              (λ out. lose_one-IsValid d m out v))))
]

pub lookup-protected_devices :
    (e : String) (rest : Map ℕ) (m : Manager)
    → lookup e (protected_devices rest m) ≡ (if is_protected e m then lookup e rest else none)
unfolding protected_devices lookup
lookup-protected_devices e [] m = ground arith
lookup-protected_devices e ((d, r) ∷ rest) m =
    ground (arith, same_iff d e, lookup-protected_devices e rest m)

protected_devices-Distinct :
    (rest : Map ℕ) (m : Manager) → Distinct rest → Distinct (protected_devices rest m)
unfolding protected_devices
protected_devices-Distinct [] m u = tt
protected_devices-Distinct ((d, r) ∷ rest) m u =
    let more = protected_devices-Distinct rest m u.1 in
    let first : lookup d (protected_devices rest m) ≡ none =
      ground (arith, lookup-protected_devices d rest m) in
    ground arith

clear_device_cache-IsValid : (m : Manager) → IsValid m → IsValid (clear_device_cache m)
unfolding clear_device_cache Points Shares
clear_device_cache-IsValid m v = record {
  cached = λ d r h. v.cached d r (ground (arith, lookup-protected_devices d m.devices m));
  bonded = v.bonded;
  shared = λ d r h. ground (arith, lookup-protected_devices d m.devices m, v.shared d r h);
  distinct = protected_devices-Distinct m.devices m v.distinct;
}

mark_device_connected-IsValid :
    (d : String) (m : Manager) → IsValid m → IsValid (mark_device_connected d m).0
unfolding mark_device_connected
mark_device_connected-IsValid d m v = elim (Option-cases (lookup d m.devices)) [
  | inl r ↦ rw (r, mark_device_connected) v
  | inr (p, r) ↦
      rw (r, mark_device_connected)
        (notify-IsValid _ (m.heap p) _ (record {
          cached = v.cached;
          bonded = v.bonded;
          shared = insert-Shares d p m.connected_devices m.devices r v.shared;
          distinct = v.distinct;
        }))
]

mark_device_disconnected-IsValid :
    (d : String) (m : Manager) → IsValid m → IsValid (mark_device_disconnected d m).0
unfolding mark_device_disconnected
mark_device_disconnected-IsValid d m v = elim (Option-cases (lookup d m.connected_devices)) [
  | inl r ↦ rw (r, mark_device_disconnected) v
  | inr (p, r) ↦
      rw (r, mark_device_disconnected) (notify-IsValid _ (m.heap p) _ (cut-IsValid d m v))
]

-- The statistics and the paired devices change.
pairs-IsValid :
    (m q : Manager)
    → q.heap ≡ m.heap
    → q.next ≡ m.next
    → q.devices ≡ m.devices
    → q.connected_devices ≡ m.connected_devices
    → Points m.heap m.next q.paired_devices
    → IsValid m
    → IsValid q
pairs-IsValid m q h n a b p v = record {
  cached = rw (h, n, a) v.cached;
  bonded = rw (h, n) p;
  shared = rw (a, b) v.shared;
  distinct = rw a v.distinct;
}

pair_device-IsValid : (d : String) (m : Manager) → IsValid m → IsValid (pair_device d m).0
unfolding pair_device Points
pair_device-IsValid d m v = elim (Option-cases (lookup d m.devices)) [
  | inl r ↦ rw (r, pair_device) v
  | inr (p, r) ↦
      rw (r, pair_device)
        (if_elim {A = Manager × Result?} (λ q. IsValid (q.0)) (exists_in d m.paired_devices)
          (λ _. v)
          (λ _. notify-IsValid _ (m.heap p) _ (
            let (below, named) = v.cached d p r in
            pairs-IsValid m _ refl refl refl refl
              (insert-Points m.heap m.next d p m.paired_devices below named v.bonded) v)))
]

unpair_device-IsValid : (d : String) (m : Manager) → IsValid m → IsValid (unpair_device d m).0
unfolding unpair_device notify_device_event
unpair_device-IsValid d m v = elim (Option-cases (lookup d m.paired_devices)) [
  | inl r ↦ rw (r, unpair_device) v
  | inr (p, r) ↦
      let fewer = delete-Points m.heap m.next d m.paired_devices v.bonded in
      rw (r, unpair_device)
        (elim (Bool-cases (exists_in d m.connected_devices)) [
          | inl c ↦ rw c (pairs-IsValid _ _ refl refl refl refl fewer (cut-IsValid d m v))
          | inr c ↦ rw c (pairs-IsValid m _ refl refl refl refl fewer v)
        ])
]

update_device_rssi-IsValid :
    (now : ℕ) (d : String) (rssi : ℤ) (m : Manager)
    → IsValid m
    → IsValid (update_device_rssi now d rssi m).0
unfolding update_device_rssi
update_device_rssi-IsValid now d rssi m v = elim (Option-cases (lookup d m.devices)) [
  | inl r ↦ rw (r, update_device_rssi) v
  | inr (p, r) ↦
      rw (r, update_device_rssi)
        (notify-IsValid _ _ _ (
          update-IsValid p (record (m.heap p) { rssi = rssi; last_seen = now }) m _ refl refl refl
            refl refl refl v))
]

pub data Call : Type 0 where
  add_call : ℕ → Device → Call
  remove_call connect_call disconnect_call pair_call unpair_call : String → Call
  rssi_call : ℕ → String → ℤ → Call
  cleanup_call begin_call : ℕ → Call
  clear_call start_call stop_call end_call : Call

unfoldable pub step : Manager → Call → Manager
step m (add_call now device) = add_device now device m
step m (remove_call d) = remove_device d m
step m (connect_call d) = (mark_device_connected d m).0
step m (disconnect_call d) = (mark_device_disconnected d m).0
step m (pair_call d) = (pair_device d m).0
step m (unpair_call d) = (unpair_device d m).0
step m (rssi_call now d rssi) = (update_device_rssi now d rssi m).0
step m (cleanup_call now) = cleanup_expired_devices now m
step m (begin_call now) = begin_discovery now m
step m clear_call = clear_device_cache m
step m start_call = (start m).0
step m stop_call = (stop m).0
step m end_call = end_discovery m

pub run : Manager → List Call → Manager
run m [] = m
run m (c ∷ cs) = run (step m c) cs

emptied-IsValid :
    (m : Manager)
    → IsValid m
    → IsValid (record m { running = false; devices = []; connected_devices = [] })
unfolding Points Shares lookup
emptied-IsValid m v = record {
  cached = λ d r h. absurd (ground arith);
  bonded = v.bonded;
  shared = λ d r h. h;
  distinct = tt;
}

step-IsValid : (m : Manager) (c : Call) → IsValid m → IsValid (step m c)
unfolding step cleanup_expired_devices begin_discovery end_discovery start stop
step-IsValid m (add_call now device) v = add_device-IsValid now device m v
step-IsValid m (remove_call d) v = remove_device-IsValid d m v
step-IsValid m (connect_call d) v = mark_device_connected-IsValid d m v
step-IsValid m (disconnect_call d) v = mark_device_disconnected-IsValid d m v
step-IsValid m (pair_call d) v = pair_device-IsValid d m v
step-IsValid m (unpair_call d) v = unpair_device-IsValid d m v
step-IsValid m (rssi_call now d rssi) v = update_device_rssi-IsValid now d rssi m v
step-IsValid m (cleanup_call now) v = lose_expired-IsValid (expired_devices now m.devices m) m v
step-IsValid m (begin_call now) v = pairs-IsValid m _ refl refl refl refl v.bonded v
step-IsValid m clear_call v = clear_device_cache-IsValid m v
step-IsValid m start_call v =
    if_elim {A = Manager × Result?} (λ q. IsValid (q.0)) m.running (λ _. v)
      (λ _. pairs-IsValid m _ refl refl refl refl v.bonded v)
step-IsValid m stop_call v =
    if_elim {A = Manager × Result?} (λ q. IsValid (q.0)) (not m.running) (λ _. v)
      (λ _. emptied-IsValid m v)
step-IsValid m end_call v = pairs-IsValid m _ refl refl refl refl v.bonded v

run-IsValid : (m : Manager) (cs : List Call) → IsValid m → IsValid (run m cs)
unfolding run
run-IsValid m [] v = v
run-IsValid m (c ∷ cs) v = run-IsValid (step m c) cs (step-IsValid m c v)

-- After any history of calls on a new manager the cached and the paired devices are filed under
-- their identifiers, no device is cached twice, and every connected device is in the cache, as the
-- same object, so that what is written to the one is seen in the other.
pub run-new_manager-IsValid :
    (cache_timeout : ℕ) (max_devices : ℤ) (cs : List Call)
    → IsValid (run (new_manager cache_timeout max_devices) cs)
unfolding new_manager Points Shares lookup
run-new_manager-IsValid cache_timeout max_devices cs =
    run-IsValid (new_manager cache_timeout max_devices) cs (record {
      cached = λ d r h. absurd (ground arith);
      bonded = λ d r h. absurd (ground arith);
      shared = λ d r h. h;
      distinct = tt;
    })
