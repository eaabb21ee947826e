-- ===== src/Pairing/Invariant/Calls.antt =====
-- What every sequence of steps keeps of the pairing service.
use Prim.Native.String.{◌++◌}
use cat_tag.Common.{
  ℕ, ◌==◌, at_least, ◌≡◌, refl, Bool, true, not, [], ◌∷◌, some, String, length, Map, lookup,
  length-delete-le, Option-cases, if_elim, inl, inr, arith,
}
use cat_tag.Errors.{Result, Result-cases}
use cat_tag.Protocol.Bytes.{Bytes}
use cat_tag.Devices.{Device, exists_in, pair_device, get_device, is_device_paired}
use cat_tag.Devices
use cat_tag.Devices.Invariant.Calls.{Call, step}
use cat_tag.Devices.Invariant.Pairs.{keeps_pairs, step-keeps}
use cat_tag.Pairing.{
  cancelled, PairingConfig, PairingService, new_pairing_service, start, cancel_session, cancel_all,
  stop, Result?, new_session, start_pairing, cancel_pairing, is_waiting, confirm_pairing,
  provide_pin,
}
use cat_tag.Pairing.Steps.{
  Step, start_call, stop_call, pairing_call, cancel_call, confirm_call, pin_call, manager_call,
  abandon, move, Steps, no_step, one_more,
}
use cat_tag.Pairing.Invariant.{
  IsValid, set_session-IsPaired, write_session-IsValid, open_session-IsValid, Move-IsValid,
  length-insert-le, at_least-lt,
}

start-IsValid :
    (is_enabled : Bool) (s : PairingService) → IsValid s → IsValid (start is_enabled s).0
unfolding start
start-IsValid is_enabled s v =
    let running : IsValid (record s { running = true }) = record {
      paired = v.paired;
      bounded = v.bounded;
    } in
    if_elim {A = PairingService × Result?} (λ q. IsValid (q.0)) s.running (λ _. v)
      (λ _.
        if_elim {A = PairingService × Result?} (λ q. IsValid (q.0)) (not is_enabled) (λ _. v)
          (λ _. running))

cancel_session-IsValid : (r : ℕ) (s : PairingService) → IsValid s → IsValid (cancel_session r s)
unfolding cancel_session
cancel_session-IsValid r s v = write_session-IsValid r _ s (v.paired r) v

cancel_all-IsValid : (rest : Map ℕ) (s : PairingService) → IsValid s → IsValid (cancel_all rest s)
unfolding cancel_all
cancel_all-IsValid [] s v = v
cancel_all-IsValid ((id, r) ∷ rest) s v =
    cancel_all-IsValid rest (cancel_session r s) (cancel_session-IsValid r s v)

stop-IsValid : (s : PairingService) → IsValid s → IsValid (stop s).0
unfolding stop
stop-IsValid s v =
    let w = cancel_all-IsValid s.active_pairings s v in
    if_elim {A = PairingService × Result?} (λ q. IsValid (q.0)) (not s.running) (λ _. v)
      (λ _. record { paired = w.paired; bounded = w.bounded })

start_pairing-IsValid :
    (now : ℕ) (stamp d : String) (method : ℕ) (s : PairingService)
    → IsValid s
    → IsValid (start_pairing now stamp d method s).0
unfolding start_pairing new_session
start_pairing-IsValid now stamp d method s v =
    if_elim {A = PairingService × Result ℕ} (λ q. IsValid (q.0)) (not s.running) (λ _. v)
      (λ _. elim (Result-cases (get_device now d s.manager)) [
        | inr (e, r) ↦ rw r v
        | inl (device, r) ↦ rw r (
            if_elim {A = PairingService × Result ℕ} (λ q. IsValid (q.0))
              (is_device_paired d s.manager) (λ _. v)
              (λ _.
                if_elim {A = PairingService × Result ℕ} (λ q. IsValid (q.0))
                  (at_least (length s.active_pairings) s.pairing_config.max_concurrent_pairs)
                  (λ _. v)
                  (λ room. record {
                    paired =
                        set_session-IsPaired s.next
                          (new_session now (stamp ++ "_pair") d device method s.pairing_config)
                          s.heap s.manager (λ h. absurd (ground arith)) v.paired;
                    bounded =
                        (let more = length-insert-le (stamp ++ "_pair") s.next s.active_pairings in
                          let below =
                            at_least-lt (length s.active_pairings)
                              s.pairing_config.max_concurrent_pairs room in
                          omega arith);
                  })))
      ])

cancel_pairing-IsValid :
    (id : String) (s : PairingService) → IsValid s → IsValid (cancel_pairing id s).0
unfolding cancel_pairing
cancel_pairing-IsValid id s v = elim (Option-cases (lookup id s.active_pairings)) [
  | inl e ↦ rw (e, cancel_pairing) v
  | inr (r, e) ↦
      let session = record (s.heap r) { is_cancelled = true; status = cancelled } in
      let w = open_session-IsValid r session s refl v in
      rw (e, cancel_pairing)
        (record {
          paired = w.paired;
          bounded =
              (let fewer = length-delete-le id s.active_pairings in
                let b = v.bounded in omega arith);
        })
]

confirm_pairing-IsValid :
    (id : String) (confirm : Bool) (s : PairingService)
    → IsValid s
    → IsValid (confirm_pairing id confirm s).0
unfolding confirm_pairing
confirm_pairing-IsValid id confirm s v = elim (Option-cases (lookup id s.active_pairings)) [
  | inl e ↦ rw (e, confirm_pairing) v
  | inr (r, e) ↦
      rw (e, confirm_pairing)
        (if_elim {A = PairingService × Result?} (λ q. IsValid (q.0))
          (not (is_waiting (s.heap r).status)) (λ _. v)
          (λ _. elim (Option-cases ((s.heap r).confirmation)) [
            | inl c ↦ rw c (
                write_session-IsValid r (record (s.heap r) { confirmation = some confirm }) s
                  (v.paired r) v)
            | inr (b, c) ↦ rw c v
          ]))
]

provide_pin-IsValid :
    (id : String) (pin : Bytes) (s : PairingService) → IsValid s → IsValid (provide_pin id pin s).0
unfolding provide_pin
provide_pin-IsValid id pin s v = elim (Option-cases (lookup id s.active_pairings)) [
  | inl e ↦ rw (e, provide_pin) v
  | inr (r, e) ↦
      rw (e, provide_pin)
        (if_elim {A = PairingService × Result?} (λ q. IsValid (q.0)) (not ((s.heap r).method == 0))
          (λ _. v)
          (λ _. write_session-IsValid r (record (s.heap r) { pin = pin }) s (v.paired r) v))
]

manager_call-IsValid :
    (c : Call) (s : PairingService)
    → keeps_pairs c ≡ true
    → IsValid s
    → IsValid (record s { manager = step s.manager c })
manager_call-IsValid c s k v = record {
  paired = λ r h. step-keeps s.manager c (s.heap r).device_id k (v.paired r h);
  bounded = v.bounded;
}

Step-IsValid : (now : ℕ) (s q : PairingService) → Step now s q → IsValid s → IsValid q
Step-IsValid now s _ (start_call is_enabled) v = start-IsValid is_enabled s v
Step-IsValid now s _ stop_call v = stop-IsValid s v
Step-IsValid now s _ (pairing_call stamp d method) v = start_pairing-IsValid now stamp d method s v
Step-IsValid now s _ (cancel_call id) v = cancel_pairing-IsValid id s v
Step-IsValid now s _ (confirm_call id confirm) v = confirm_pairing-IsValid id confirm s v
Step-IsValid now s _ (pin_call id pin) v = provide_pin-IsValid id pin s v
Step-IsValid now s _ (manager_call c k) v = manager_call-IsValid c s k v
Step-IsValid now s _ (abandon r) v = cancel_session-IsValid r s v
Step-IsValid now s q (move r _ m) v = Move-IsValid now r s q m v

Steps-IsValid : (s q : PairingService) → Steps s q → IsValid s → IsValid q
Steps-IsValid s _ no_step v = v
Steps-IsValid s q (one_more now p _ before last) v =
    Step-IsValid now p q last (Steps-IsValid s p before v)

-- Whatever steps a new service takes, in any order of calls and goroutines, a session that counts as
-- completed has its device paired in the manager, as long as nobody unpairs, and the active
-- pairings are never more than the configured number.
pub Steps-new_pairing_service-IsValid :
    (manager : Devices.Manager) (config : PairingConfig) (s : PairingService)
    → Steps (new_pairing_service manager config) s
    → IsValid s
unfolding new_pairing_service
Steps-new_pairing_service-IsValid manager config s steps =
    Steps-IsValid (new_pairing_service manager config) s steps
      (record { paired = λ r h. absurd (ground arith); bounded = omega arith })
