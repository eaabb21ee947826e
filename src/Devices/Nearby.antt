-- ===== src/Devices/Nearby.antt =====
-- The devices in reach, and their order.
use mathlib.Core.List.{Perm}
use mathlib.Core.List.Perm
use cat_tag.Common.{
  ℕ, zero, suc, ◌≤◌, ℤ, pos, negsuc, ◌≡◌, refl, ap, true, false, not, List, [], ◌∷◌, length, map,
  filter_by, values, All, if_elim, arith,
}
use cat_tag.Devices.{Device, Manager}
use cat_tag.Devices.Queries.{below, sweep, sort_descending, get_nearby_devices}

pub below_total : (a b : ℤ) → below a b ≡ true → below b a ≡ false
below_total (pos a) (pos b) h = ground arith
below_total (pos a) (negsuc b) h = ground arith
below_total (negsuc a) (pos b) h = refl
below_total (negsuc a) (negsuc b) h = ground arith

-- `b` is no weaker than `a`, and `c` than `b`.
below_trans : (a b c : ℤ) → below b a ≡ false → below c b ≡ false → below c a ≡ false
below_trans (pos a) (pos b) (pos c) h k = ground arith
below_trans (pos a) (pos b) (negsuc c) h k = absurd (ground arith)
below_trans (pos a) (negsuc b) c h k = absurd (ground arith)
below_trans (negsuc a) (pos b) (pos c) h k = refl
below_trans (negsuc a) (pos b) (negsuc c) h k = absurd (ground arith)
below_trans (negsuc a) (negsuc b) (pos c) h k = refl
below_trans (negsuc a) (negsuc b) (negsuc c) h k = ground arith

-- No device of the list is stronger.
pub IsTop : Device → List Device → Type 0
IsTop d ds = All (λ e. below d.rssi e.rssi ≡ false) ds

pub IsDescending : List Device → Type 0
IsDescending [] = Unit {0}
IsDescending (d ∷ ds) = IsTop d ds × IsDescending ds

-- What an inner loop makes of the device at `i` and the later ones.
record Swept (x : Device) (ys : List Device) (top : Device) (rest : List Device) : Type 0 where
  pub permuted : Perm (top ∷ rest) (x ∷ ys)
  pub above : below top.rssi x.rssi ≡ false
  pub highest : IsTop top rest
  pub as_long : length rest ≡ length ys

below_self : (a : ℤ) → below a a ≡ false
below_self (pos a) = ground arith
below_self (negsuc a) = ground arith

sweep-Swept : (x : Device) (ys : List Device) → Swept x ys (sweep x ys).0 (sweep x ys).1
unfolding sweep IsTop
sweep-Swept x [] = record {
  permuted = Perm.rfl;
  above = below_self x.rssi;
  highest = tt;
  as_long = refl;
}
sweep-Swept x (y ∷ ys) =
    if_elim {A = Device × List Device} (λ q. Swept x (y ∷ ys) q.0 q.1) (below x.rssi y.rssi)
      (λ weaker.
        let s = sweep-Swept y ys in
        let over : below (sweep y ys).0.rssi x.rssi ≡ false =
          below_trans x.rssi y.rssi (sweep y ys).0.rssi (below_total x.rssi y.rssi weaker)
            s.above in
        record {
          permuted =
              Perm.trans (Perm.swap x (sweep y ys).0 (sweep y ys).1) (Perm.cons x s.permuted);
          above = over;
          highest = (over, s.highest);
          as_long = ap suc s.as_long;
        })
      (λ stronger.
        let s = sweep-Swept x ys in
        record {
          permuted =
              Perm.trans (Perm.swap y (sweep x ys).0 (sweep x ys).1)
                (Perm.trans (Perm.cons y s.permuted) (Perm.swap x y ys));
          above = s.above;
          highest = (below_trans y.rssi x.rssi (sweep x ys).0.rssi stronger s.above, s.highest);
          as_long = ap suc s.as_long;
        })

sweep-IsTop :
    (d x : Device) (ys : List Device)
    → below d.rssi x.rssi ≡ false
    → IsTop d ys
    → (below d.rssi (sweep x ys).0.rssi ≡ false) × IsTop d (sweep x ys).1
unfolding sweep IsTop
sweep-IsTop d x [] h t = (h, tt)
sweep-IsTop d x (y ∷ ys) h t =
    if_elim {A = Device × List Device} (λ q. (below d.rssi (q.0).rssi ≡ false) × IsTop d q.1)
      (below x.rssi y.rssi) (λ _. let (a, b) = sweep-IsTop d y ys t.0 t.1 in (a, (h, b)))
      (λ _. let (a, b) = sweep-IsTop d x ys h t.1 in (a, (t.0, b)))

sort_descending-IsTop :
    (n : ℕ) (d : Device) (ds : List Device) → IsTop d ds → IsTop d (sort_descending n ds)
unfolding sort_descending IsTop
sort_descending-IsTop zero d ds t = t
sort_descending-IsTop (suc n) d [] t = tt
sort_descending-IsTop (suc n) d (x ∷ xs) t =
    let (a, b) = sweep-IsTop d x xs t.0 t.1 in (a, sort_descending-IsTop n d (sweep x xs).1 b)

sort_descending-IsDescending :
    (n : ℕ) (ds : List Device) → length ds ≤ n → IsDescending (sort_descending n ds)
unfolding sort_descending IsDescending
sort_descending-IsDescending zero [] h = tt
sort_descending-IsDescending zero (x ∷ xs) h = absurd (omega arith)
sort_descending-IsDescending (suc n) [] h = tt
sort_descending-IsDescending (suc n) (x ∷ xs) h =
    let s = sweep-Swept x xs in
    let len = s.as_long in
    (
      sort_descending-IsTop n (sweep x xs).0 (sweep x xs).1 s.highest,
      sort_descending-IsDescending n (sweep x xs).1 (omega arith),
    )

sort_descending-Perm : (n : ℕ) (ds : List Device) → Perm (sort_descending n ds) ds
unfolding sort_descending
sort_descending-Perm zero ds = Perm.rfl
sort_descending-Perm (suc n) [] = Perm.rfl
sort_descending-Perm (suc n) (x ∷ xs) =
    Perm.trans (Perm.cons (sweep x xs).0 (sort_descending-Perm n (sweep x xs).1))
      (sweep-Swept x xs).permuted

-- `GetNearbyDevices` returns the cached devices of at least the given signal strength, each as often
-- as it is cached, from the strongest to the weakest.
pub get_nearby_devices-IsDescending :
    (max_distance : ℤ) (m : Manager)
    → let near =
        filter_by
          (λ device. not (below device.rssi max_distance))
          (map m.heap (values m.devices)) in
      IsDescending (get_nearby_devices max_distance m)
      × Perm (get_nearby_devices max_distance m) near
unfolding get_nearby_devices
get_nearby_devices-IsDescending max_distance m =
    let near =
      filter_by (λ device. not (below device.rssi max_distance)) (map m.heap (values m.devices)) in
    (
      sort_descending-IsDescending (length near) near (omega arith),
      sort_descending-Perm (length near) near,
    )
