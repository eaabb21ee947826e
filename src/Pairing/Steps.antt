-- ===== src/Pairing/Steps.antt =====
-- The goroutine of a session, from internal/device/pairing.go: each move by itself, and the steps of
-- the service, which are the moves and the calls in any order. A move takes the locks that it needs
-- as free: the steps are all that can happen and some that cannot, so that they serve for what never
-- happens, and not for what must.
use cat_tag.Common.{
  ℕ, ◌+◌, ◌*◌, ◌==◌, ◌≡◌, Bool, true, ◌||◌, none, some, if◌then◌else◌, leb, String, length, delete,
}
use cat_tag.Protocol.Bytes.{Bytes}
use cat_tag.Devices.{pair_device}
use cat_tag.Devices.Invariant.Calls.{Call, step}
use cat_tag.Devices.Invariant.Pairs.{keeps_pairs}
use cat_tag.Pairing.{
  in_progress, waiting_auth, completed, failed, cancelled, timed_out, Stage, spawned, chosen,
  verifying, confirming, ending, ended, PairingSession, PairingService, set_session, write_session,
  set_status, start, cancel_session, stop, start_pairing, cancel_pairing, confirm_pairing,
  provide_pin, second, generate_pin, generate_passkey, validate_pin,
}

abbrev pub stage_of : ℕ → PairingService → Stage
stage_of r s = (s.heap r).stage

-- `<-session.ctx.Done()`
unfoldable pub is_done : ℕ → PairingSession → Bool
is_done now session = session.is_cancelled || leb (session.start_time + session.timeout) now

unfoldable pub complete_pairing : ℕ → PairingService → PairingService
unfolding set_session pair_device
complete_pairing r s =
    let (m, refused) = pair_device ((s.heap r).device_id) s.manager in
    set_status r (elim refused [ none ↦ completed | some e ↦ failed ]) ending
      (record s { manager = m })

-- `performPairing` before the switch
unfoldable pub begin : ℕ → PairingService → PairingService
unfolding set_session
begin r s = set_status r in_progress chosen s

-- The branch of the switch, up to its select; `random` is for the PIN, `b` for the passkey.
unfoldable pub choose : ℕ → (ℕ → ℕ) → ℕ → ℕ → PairingService → PairingService
unfolding set_session complete_pairing generate_pin generate_passkey
choose now random b r s =
    let session = s.heap r in
    if session.method == 0
    then (write_session r
        (record session {
          pin =
              (if length session.pin == 0
                then generate_pin s.pairing_config.pin_length random
                else session.pin);
          status = waiting_auth;
          stage = verifying now;
        })
        s)
    else if session.method == 1
    then (write_session r
        (record session { passkey = generate_passkey b; status = waiting_auth; stage = confirming })
        s)
    else if session.method == 2
    then (let waiting = set_status r waiting_auth confirming s in
        if s.pairing_config.auto_accept then complete_pairing r waiting else waiting)
    else set_status r failed ending s

-- The two seconds of `performPINPairing` are over.
unfoldable pub verify : ℕ → PairingService → PairingService
unfolding set_session complete_pairing validate_pin
verify r s =
    if validate_pin ((s.heap r).pin) then complete_pairing r s else set_status r failed ending s

-- The user's answer is received.
unfoldable pub receive : Bool → ℕ → PairingService → PairingService
unfolding set_session complete_pairing
receive confirm r s =
    let emptied = write_session r (record (s.heap r) { confirmation = none }) s in
    if confirm then complete_pairing r emptied else set_status r cancelled ending emptied

unfoldable pub give_up : ℕ → PairingService → PairingService
unfolding set_session
give_up r s = set_status r timed_out ending s

-- The deferred function of `performPairing`: the entry of the identifier goes, whatever it points to.
unfoldable pub finish : ℕ → PairingService → PairingService
unfolding set_session
finish r s =
    write_session r (record (s.heap r) { stage = ended })
      (record s { active_pairings = delete (s.heap r).id s.active_pairings })

-- A move of the goroutine of `r` at a time.
pub data Move (now r : ℕ) (s : PairingService) : PairingService → Type 0 where
  begins : stage_of r s ≡ spawned → Move now r s (begin r s)
  chooses :
      (random : ℕ → ℕ) (b : ℕ) → stage_of r s ≡ chosen → Move now r s (choose now random b r s)
  verifies :
      (since : ℕ)
      → stage_of r s ≡ verifying since
      → leb (since + 2 * second) now ≡ true
      → Move now r s (verify r s)
  receives :
      (confirm : Bool)
      → stage_of r s ≡ confirming
      → (s.heap r).confirmation ≡ some confirm
      → Move now r s (receive confirm r s)
  gives_up_pin :
      (since : ℕ)
      → stage_of r s ≡ verifying since
      → is_done now (s.heap r) ≡ true
      → Move now r s (give_up r s)
  gives_up : stage_of r s ≡ confirming → is_done now (s.heap r) ≡ true → Move now r s (give_up r s)
  finishes : stage_of r s ≡ ending → Move now r s (finish r s)

-- A step at a time: a call of the service, a call of its manager that does not unpair, the caller of
-- `StartPairing` cancelling its context, or a move of a goroutine.
pub data Step (now : ℕ) (s : PairingService) : PairingService → Type 0 where
  start_call : (is_enabled : Bool) → Step now s (start is_enabled s).0
  stop_call : Step now s (stop s).0
  pairing_call : (stamp d : String) (method : ℕ) → Step now s (start_pairing now stamp d method s).0
  cancel_call : (id : String) → Step now s (cancel_pairing id s).0
  confirm_call : (id : String) (confirm : Bool) → Step now s (confirm_pairing id confirm s).0
  pin_call : (id : String) (pin : Bytes) → Step now s (provide_pin id pin s).0
  manager_call :
      (c : Call) → keeps_pairs c ≡ true → Step now s (record s { manager = step s.manager c })
  abandon : (r : ℕ) → Step now s (cancel_session r s)
  move : (r : ℕ) (q : PairingService) → Move now r s q → Step now s q

pub data Steps (s : PairingService) : PairingService → Type 0 where
  no_step : Steps s s
  one_more : (now : ℕ) (q t : PairingService) → Steps s q → Step now q t → Steps s t
