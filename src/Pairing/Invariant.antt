-- ===== src/Pairing/Invariant.antt =====
-- What the moves keep of the pairing service.
pub mod Calls
use cat_tag.Common.{
  ℕ, suc, ◌≤◌, ◌==◌, ℤ, pos, negsuc, to_ℕ, at_least, ◌≡◌, refl, Bool, true, false, none, String,
  length, Map, lookup, insert, length-insert_new, length-insert_old, length-delete-le, Option-cases,
  if_elim, inl, inr, arith,
}
use cat_tag.Devices.{exists_in, pair_device}
use cat_tag.Devices
use cat_tag.Devices.Invariant.Pairs.{pair_device-paired, pair_device-keeps}
use cat_tag.Pairing.{
  PairingStatus, waiting_auth, completed, confirming, ended, PairingSession, PairingService,
  set_session, write_session, set_status, validate_pin,
}
use cat_tag.Pairing.Steps.{
  complete_pairing, begin, choose, verify, receive, give_up, finish, Move, begins, chooses,
  verifies, receives, gives_up_pin, gives_up, finishes,
}

abbrev pub is_completed : PairingStatus → Bool
is_completed completed = true
is_completed _ = false

-- A session that is completed has its device paired.
abbrev pub IsPaired : PairingSession → Devices.Manager → Type 0
IsPaired session m =
    is_completed session.status ≡ true → exists_in session.device_id m.paired_devices ≡ true

pub record IsValid (s : PairingService) : Type 0 where
  pub paired :
      (r : ℕ)
      → is_completed (s.heap r).status ≡ true
      → exists_in (s.heap r).device_id s.manager.paired_devices ≡ true
  pub bounded : length s.active_pairings ≤ to_ℕ s.pairing_config.max_concurrent_pairs

pub set_session-IsPaired :
    (r : ℕ) (session : PairingSession) (heap : ℕ → PairingSession) (m : Devices.Manager)
    → IsPaired session m
    → ((q : ℕ) → IsPaired (heap q) m)
    → (q : ℕ) → IsPaired (set_session r session heap q) m
unfolding set_session
set_session-IsPaired r session heap m i h q =
    if_elim {A = PairingSession} (λ x. IsPaired x m) (q == r) (λ _. i) (λ _. h q)

pub write_session-IsValid :
    (r : ℕ) (session : PairingSession) (s : PairingService)
    → IsPaired session s.manager
    → IsValid s
    → IsValid (write_session r session s)
write_session-IsValid r session s i v = record {
  paired = set_session-IsPaired r session s.heap s.manager i v.paired;
  bounded = v.bounded;
}

-- A session that is not completed by what is written.
pub open_session-IsValid :
    (r : ℕ) (session : PairingSession) (s : PairingService)
    → is_completed session.status ≡ false
    → IsValid s
    → IsValid (write_session r session s)
open_session-IsValid r session s e v =
    write_session-IsValid r session s (λ h. absurd (ground arith)) v

complete_pairing-IsValid : (r : ℕ) (s : PairingService) → IsValid s → IsValid (complete_pairing r s)
unfolding complete_pairing
complete_pairing-IsValid r s v =
    let d = (s.heap r).device_id in
    let q = record s { manager = (pair_device d s.manager).0 } in
    let kept : IsValid q = record {
      paired = λ p h. pair_device-keeps d (s.heap p).device_id s.manager (v.paired p h);
      bounded = v.bounded;
    } in
    write_session-IsValid r _ q
      (elim (Option-cases (pair_device d s.manager).1) [
        | inl e ↦ λ h. pair_device-paired d s.manager e
        | inr (g, e) ↦ λ h. absurd (ground arith)
      ])
      kept

begin-IsValid : (r : ℕ) (s : PairingService) → IsValid s → IsValid (begin r s)
unfolding begin
begin-IsValid r s v = open_session-IsValid r _ s refl v

choose-IsValid :
    (now : ℕ) (random : ℕ → ℕ) (b r : ℕ) (s : PairingService)
    → IsValid s
    → IsValid (choose now random b r s)
unfolding choose
choose-IsValid now random b r s v =
    if_elim IsValid ((s.heap r).method == 0) (λ _. open_session-IsValid r _ s refl v)
      (λ _.
        if_elim IsValid ((s.heap r).method == 1) (λ _. open_session-IsValid r _ s refl v)
          (λ _.
            if_elim IsValid ((s.heap r).method == 2)
              (λ _.
                let waiting = set_status r waiting_auth confirming s in
                let w : IsValid waiting = open_session-IsValid r _ s refl v in
                if_elim IsValid s.pairing_config.auto_accept
                  (λ _. complete_pairing-IsValid r waiting w) (λ _. w))
              (λ _. open_session-IsValid r _ s refl v)))

verify-IsValid : (r : ℕ) (s : PairingService) → IsValid s → IsValid (verify r s)
unfolding verify
verify-IsValid r s v =
    if_elim IsValid (validate_pin ((s.heap r).pin)) (λ _. complete_pairing-IsValid r s v)
      (λ _. open_session-IsValid r _ s refl v)

receive-IsValid :
    (confirm : Bool) (r : ℕ) (s : PairingService) → IsValid s → IsValid (receive confirm r s)
unfolding receive
receive-IsValid confirm r s v =
    let emptied = write_session r (record (s.heap r) { confirmation = none }) s in
    let w : IsValid emptied = write_session-IsValid r _ s (v.paired r) v in
    if_elim IsValid confirm (λ _. complete_pairing-IsValid r emptied w)
      (λ _. open_session-IsValid r _ emptied refl w)

finish-IsValid : (r : ℕ) (s : PairingService) → IsValid s → IsValid (finish r s)
unfolding finish
finish-IsValid r s v = record {
  paired =
      set_session-IsPaired r (record (s.heap r) { stage = ended }) s.heap s.manager (v.paired r)
        v.paired;
  bounded =
      (let fewer = length-delete-le (s.heap r).id s.active_pairings in
        let b = v.bounded in omega arith);
}

pub Move-IsValid : (now r : ℕ) (s q : PairingService) → Move now r s q → IsValid s → IsValid q
unfolding give_up
Move-IsValid now r s _ (begins e) v = begin-IsValid r s v
Move-IsValid now r s _ (chooses random b e) v = choose-IsValid now random b r s v
Move-IsValid now r s _ (verifies since e t) v = verify-IsValid r s v
Move-IsValid now r s _ (receives confirm e f) v = receive-IsValid confirm r s v
Move-IsValid now r s _ (gives_up_pin since e f) v = open_session-IsValid r _ s refl v
Move-IsValid now r s _ (gives_up e f) v = open_session-IsValid r _ s refl v
Move-IsValid now r s _ (finishes e) v = finish-IsValid r s v

pub length-insert-le : (k : String) (r : ℕ) (m : Map ℕ) → length (insert k r m) ≤ suc (length m)
length-insert-le k r m = elim (Option-cases (lookup k m)) [
  | inl e ↦ (let l = length-insert_new k r m e in omega arith)
  | inr (q, e) ↦ (let l = length-insert_old k r q m e in omega arith)
]

pub at_least-lt : (n : ℕ) (i : ℤ) → at_least n i ≡ false → suc n ≤ to_ℕ i
at_least-lt n (pos m) e = ground arith
at_least-lt n (negsuc m) e = absurd (ground arith)
