-- ===== src/Muc/Detects.antt =====
-- What a detection in muc_gpio.c does to the port, branch by branch.
use motorola_external_greybu.Prelude.{
  ◌≡◌, refl, ap, ◌&&◌, ◌||◌, Bool, true, false, not, ◌∷◌, if◌then◌else◌, arith,
}
use motorola_external_greybu.Muc.State.{
  Muc, Readings, Bplus, disabled, enabled, en_seq, attach_notifier_call_chain, is_enabled,
  is_disabled, det_hysteresis,
}
use motorola_external_greybu.Muc.Detection.{
  same_state, power_on, announce, remove, is_same, changed_state, detect,
}
use motorola_external_greybu.Muc.Port.{
  off, powered, attached, Port, is_attached, has_power, bplus_of, View, Shows, power_off-View,
  if-View, if-View-true, if-View-false, same-View, queue_isr_work-View, select_state_con-View,
  register_spi-View, register_i2c-View,
}

same_state-View :
    (x : Bool) (s : Muc) (d n w : Bool) (b : Bplus) → View s d b n w → View (same_state x s) d b n w
same_state-View x s d n w b v =
    if-View (x || not s.pinctrl_disconnect) s _ d n w b v
      (same-View s _ d n w b refl refl refl refl v)

power_on-View :
    (second_gen : Bool) (p : Readings) (s : Muc) (d n w : Bool) (b : Bplus)
    → View s d b n w
    → View (power_on second_gen p s) d enabled n true
unfolding power_on
power_on-View second_gen p s d n w b v =
    let on : View (record s { bplus_state = enabled; log = en_seq ∷ s.log }) d enabled n true =
      record { detected = v.detected; bplus = refl; notified = v.notified; power = refl } in
    let spi =
      same-View _
        (record s { bplus_state = enabled; log = en_seq ∷ s.log; i2c_transport_err = false }) d n
        true enabled refl refl refl refl on in
    select_state_con-View _ d n true enabled (
      if-View (not s.i2c_transport_err && p.clk) _ _ d n true enabled
        (register_i2c-View p _ d n true enabled (
          if-View second_gen _ _ d n true enabled
            (same-View _ _ d n true enabled refl refl refl refl on) on))
        (register_spi-View p _ d n true enabled (
          if-View second_gen _ _ d n true enabled
            (same-View _ _ d n true enabled refl refl refl refl spi) spi)))

-- The port after a detection that found a module or none
abbrev pub port_of : Bool → Port
port_of true = attached
port_of false = off

announce-Shows :
    (x : Bool) (s : Muc) (d n : Bool) → View s d enabled n true → Shows (announce x s) (port_of x)
announce-Shows true s d n v = record {
  detected = refl;
  bplus = v.bplus;
  notified = refl;
  power = v.power;
}
announce-Shows false s d n v =
    let on : is_enabled s.bplus_state ≡ true = ap is_enabled v.bplus in
    if-View-true (is_enabled s.bplus_state) _ _ false false false disabled on
      (record { detected = refl; bplus = refl; notified = refl; power = refl })

changed_state-plugged :
    (second_gen : Bool) (p : Readings) (s : Muc)
    → Shows s off
    → Shows (changed_state second_gen true p s) (port_of (not p.det_n_settled))
unfolding changed_state
changed_state-plugged second_gen p s v =
    let c : is_disabled s.bplus_state ≡ true = ap is_disabled v.bplus in
    let q = port_of (not p.det_n_settled) in
    if-View-true (is_disabled s.bplus_state) _ _ (is_attached q) (is_attached q) (has_power q)
      (bplus_of q) c
      (announce-Shows (not p.det_n_settled) _ false false
        (power_on-View second_gen p s false false false disabled v))

changed_state-powered :
    (second_gen : Bool) (p : Readings) (s : Muc)
    → Shows s powered
    → Shows (changed_state second_gen true p s) attached
unfolding changed_state
changed_state-powered second_gen p s v =
    let c : is_disabled s.bplus_state ≡ false = ap is_disabled v.bplus in
    if-View-false (is_disabled s.bplus_state) _ _ true true true enabled c
      (announce-Shows true s false false v)

changed_state-unplugged :
    (second_gen : Bool) (p : Readings) (s : Muc)
    → Shows s attached
    → Shows (changed_state second_gen false p s) off
unfolding changed_state
changed_state-unplugged second_gen p s v = announce-Shows false s true true v

-- A detection by what it found, if there is no short
abbrev pub next_found : Bool → Bool → Readings → Port → Port
next_found force false p off = off
next_found force true p off = port_of (not p.det_n_settled)
next_found force false p powered = powered
next_found force true p powered = attached
next_found force false p attached = off
next_found force true p attached = if force then off else attached

remove-Shows : (s : Muc) (d n w : Bool) (b : Bplus) → View s d b n w → Shows (remove s) off
remove-Shows s d n w b v =
    let told : View (record (attach_notifier_call_chain false s) { muc_detected = false }) false b
        false w =
      record { detected = refl; bplus = v.bplus; notified = refl; power = v.power } in
    queue_isr_work-View det_hysteresis _ false false false disabled
      (power_off-View _ false false w b told)

-- The three branches of a detection
module _ (second_gen force detected : Bool) (p : Readings) (s : Muc) (d n w : Bool)
    (b : Bplus) where
  detect-remove :
      (force && s.muc_detected && detected) ≡ true
      → View (remove (record s { short_count = 0 })) d b n w
      → View (detect second_gen force detected p s) d b n w
  unfolding detect
  detect-remove e v = if-View-true _ (remove (record s { short_count = 0 })) _ d n w b e v

  detect-same :
      (force && s.muc_detected && detected) ≡ false
      → is_same detected s.muc_detected ≡ true
      → View s d b n w
      → View (detect second_gen force detected p s) d b n w
  unfolding detect
  detect-same e f v = if-View-false _ (remove (record s { short_count = 0 })) _ d n w b e (
      if-View-true _ (same_state detected (record s { short_count = 0 })) _ d n w b f (
        same_state-View detected (record s { short_count = 0 }) d n w b
          (same-View s _ d n w b refl refl refl refl v)))

  detect-changed :
      (force && s.muc_detected && detected) ≡ false
      → is_same detected s.muc_detected ≡ false
      → View (changed_state second_gen detected p (record s { short_count = 0 })) d b n w
      → View (detect second_gen force detected p s) d b n w
  unfolding detect
  detect-changed e f v =
      if-View-false _ (remove (record s { short_count = 0 })) _ d n w b e
        (if-View-false _ (same_state detected (record s { short_count = 0 })) _ d n w b f v)

count-Shows : (s : Muc) (q : Port) → Shows s q → Shows (record s { short_count = 0 }) q
count-Shows s q v =
    same-View s _ (is_attached q) (is_attached q) (has_power q) (bplus_of q) refl refl refl refl v

-- The test for a forced removal
forced-none : (force detected known : Bool) → known ≡ false → (force && known && detected) ≡ false
forced-none force detected known e = ground arith

forced-gone : (force known : Bool) → (force && known && false) ≡ false
forced-gone force known = ground arith

detect-attached :
    (second_gen force : Bool) (p : Readings) (s : Muc)
    → Shows s attached
    → Shows (detect second_gen force true p s) (if force then off else attached)
detect-attached second_gen true p s v =
    detect-remove second_gen true true p s false false false disabled (rw v.detected refl)
      (remove-Shows _ true true true enabled (count-Shows s attached v))
detect-attached second_gen false p s v =
    detect-same second_gen false true p s true true true enabled refl v.detected v

pub detect-Shows :
    (second_gen force detected : Bool) (p : Readings) (s : Muc) (q : Port)
    → Shows s q
    → Shows (detect second_gen force detected p s) (next_found force detected p q)
detect-Shows second_gen force false p s off v =
    detect-same second_gen force false p s false false false disabled
      (forced-gone force s.muc_detected) (ap not v.detected) v
detect-Shows second_gen force true p s off v =
    let q = port_of (not p.det_n_settled) in
    detect-changed second_gen force true p s (is_attached q) (is_attached q) (has_power q)
      (bplus_of q) (forced-none force true s.muc_detected v.detected) v.detected
      (changed_state-plugged second_gen p _ (count-Shows s off v))
detect-Shows second_gen force false p s powered v =
    detect-same second_gen force false p s false false true enabled
      (forced-gone force s.muc_detected) (ap not v.detected) v
detect-Shows second_gen force true p s powered v =
    detect-changed second_gen force true p s true true true enabled
      (forced-none force true s.muc_detected v.detected) v.detected
      (changed_state-powered second_gen p _ (count-Shows s powered v))
detect-Shows second_gen force false p s attached v =
    detect-changed second_gen force false p s false false false disabled
      (forced-gone force s.muc_detected) (ap not v.detected)
      (changed_state-unplugged second_gen p _ (count-Shows s attached v))
detect-Shows second_gen force true p s attached v = detect-attached second_gen force p s v
