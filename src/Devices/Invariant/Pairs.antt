-- ===== src/Devices/Invariant/Pairs.antt =====
-- A device that is paired stays so, whatever is called but `UnpairDevice`.
use cat_tag.Common.{
  ℕ, ◌≡◌, refl, Bool, true, false, List, [], ◌∷◌, none, String, lookup, lookup-insert, same_refl,
  Option-cases, if_elim, inl, inr, arith,
}
use cat_tag.Devices.{
  Manager, lost, notify_device_event, exists_in, mark_device_connected, mark_device_disconnected,
  pair_device, update_device_rssi, start, stop, begin_discovery, end_discovery,
}
use cat_tag.Devices.Cache.{
  lose, remove_oldest_device, cache_device, add_device, remove_device, expired_devices,
  lose_expired, cleanup_expired_devices, clear_device_cache,
}
use cat_tag.Devices.Invariant.Calls.{
  Call, add_call, remove_call, connect_call, disconnect_call, pair_call, unpair_call, rssi_call,
  cleanup_call, begin_call, clear_call, start_call, stop_call, end_call, step,
}

abbrev pub keeps_pairs : Call → Bool
keeps_pairs (unpair_call d) = false
keeps_pairs _ = true

pub pair_device-paired :
    (d : String) (m : Manager)
    → (pair_device d m).1 ≡ none
    → exists_in d (pair_device d m).0.paired_devices ≡ true
unfolding pair_device notify_device_event
pair_device-paired d m e = elim (Option-cases (lookup d m.devices)) [
  | inl r ↦ absurd (ground arith)
  | inr (p, r) ↦ ground (arith, lookup-insert d d p m.paired_devices, same_refl d)
]

pub pair_device-keeps :
    (d e : String) (m : Manager)
    → exists_in e m.paired_devices ≡ true
    → exists_in e (pair_device d m).0.paired_devices ≡ true
unfolding pair_device notify_device_event
pair_device-keeps d e m h = elim (Option-cases (lookup d m.devices)) [
  | inl r ↦ ground arith
  | inr (p, r) ↦ ground (arith, lookup-insert d e p m.paired_devices)
]

lose_expired-paired :
    (ds : List String) (m : Manager) → (lose_expired ds m).paired_devices ≡ m.paired_devices
unfolding lose_expired notify_device_event
lose_expired-paired [] m = refl
lose_expired-paired (d ∷ ds) m = elim (Option-cases (lookup d m.devices)) [
  | inl r ↦ rw (r, lose_expired) (lose_expired-paired ds m)
  | inr (p, r) ↦
      rw (r, lose_expired)
        (if_elim {A = Manager}
          (λ q.
            (lose_expired ds (notify_device_event lost (m.heap p) q)).paired_devices
            ≡ m.paired_devices)
          (exists_in d m.connected_devices) (λ _. lose_expired-paired ds _)
          (λ _. lose_expired-paired ds _))
]

remove_oldest_device-paired :
    (now : ℕ) (m : Manager) → (remove_oldest_device now m).paired_devices ≡ m.paired_devices
unfolding remove_oldest_device lose notify_device_event
remove_oldest_device-paired now m = ground arith

pub step-keeps :
    (m : Manager) (c : Call) (d : String)
    → keeps_pairs c ≡ true
    → exists_in d m.paired_devices ≡ true
    → exists_in d (step m c).paired_devices ≡ true
unfolding step add_device remove_device mark_device_connected mark_device_disconnected
    update_device_rssi clear_device_cache cleanup_expired_devices start stop begin_discovery
    end_discovery notify_device_event cache_device
step-keeps m (add_call now device) d k h = ground (arith, remove_oldest_device-paired now m)
step-keeps m (remove_call e) d k h = ground arith
step-keeps m (connect_call e) d k h = ground arith
step-keeps m (disconnect_call e) d k h = ground arith
step-keeps m (pair_call e) d k h = pair_device-keeps e d m h
step-keeps m (unpair_call e) d k h = absurd (ground arith)
step-keeps m (rssi_call now e rssi) d k h = ground arith
step-keeps m (cleanup_call now) d k h =
    ground (arith, lose_expired-paired (expired_devices now m.devices m) m)
step-keeps m (begin_call now) d k h = h
step-keeps m clear_call d k h = h
step-keeps m start_call d k h = ground arith
step-keeps m stop_call d k h = ground arith
step-keeps m end_call d k h = h
