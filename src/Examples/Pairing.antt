-- ===== src/Examples/Pairing.antt =====
-- A pairing by passkey, from its start to its end.
use cat_tag.Common.{pos, ◌≡◌, true, false, [], ◌∷◌, none, All}
use cat_tag.Devices.{new_manager}
use cat_tag.Pairing.{
  waiting_auth, confirming, PairingSession, PairingService, default_pairing_config,
  new_pairing_service, start, generate_pin, validate_pin,
}
use cat_tag.Pairing.Steps.{start_call, no_step, one_more}
use cat_tag.Pairing.Codes.{IsDigit, validate_pin-generate_pin}
use cat_tag.Pairing.Invariant.{IsValid}
use cat_tag.Pairing.Invariant.Calls.{Steps-new_pairing_service-IsValid}

abbrev phone : PairingSession
phone = record {
  id = "1_pair";
  device_id = "d";
  device_name = "tag";
  method = 1;
  status = waiting_auth;
  pin = [];
  passkey = 77;
  start_time = 10;
  timeout = 30;
  is_cancelled = false;
  confirmation = none;
  stage = confirming;
}

abbrev fresh : PairingService
fresh = new_pairing_service (new_manager 100 (pos 3)) default_pairing_config

abbrev waiting : PairingService
waiting = record fresh {
  heap = λ r. phone;
  next = 1;
  active_pairings = ("1_pair", 0) ∷ [];
  running = true;
}

Steps-new_pairing_service-IsValid_example : IsValid (start true fresh).0
Steps-new_pairing_service-IsValid_example =
    Steps-new_pairing_service-IsValid (new_manager 100 (pos 3)) default_pairing_config
      (start true fresh).0 (one_more 5 fresh (start true fresh).0 no_step (start_call true))

-- A PIN of three digits is refused.
validate_pin-generate_pin_example :
    All IsDigit (generate_pin (pos 3) (λ i. 25))
    × (validate_pin (generate_pin (pos 3) (λ i. 25)) ≡ false)
validate_pin-generate_pin_example = validate_pin-generate_pin (pos 3) (λ i. 25)
