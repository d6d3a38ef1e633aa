-- ===== src/Muc/ResetPorts.antt =====
-- What the handlers of muc_gpio.c do to the port.
use motorola_external_greybu.Prelude.{
  ℕ, ◌≡◌, refl, ◌∙◌, Bool, true, false, not, List, [], ◌∷◌, if◌then◌else◌, leb,
}
use motorola_external_greybu.Muc.State.{
  Muc, Readings, disabled, transitioning, enabled, is_enabled, is_transitioning, discon,
  notify_reset, det_output, det_input, pins, emit, attach_notifier_call_chain, select_state_con,
}
use motorola_external_greybu.Muc.Detection.{power_off, attach_work, isr, bplus_fault}
use motorola_external_greybu.Muc.Resets.{
  isrs, do_muc_reset, ff_sequence, do_muc_ff_reset, power_removed, do_muc_poweroff,
  do_muc_soft_reset, force_detect,
}
use motorola_external_greybu.Muc.Port.{
  Port, off, powered, attached, is_attached, has_power, bplus_of, View, Shows, if-View, same-View,
  select_state_con-View,
}
use motorola_external_greybu.Muc.Refines.{next_port, handle_detection-Shows}

pub isr-Shows : (det_n : Bool) (s : Muc) (q : Port) → Shows s q → Shows (isr det_n s) q
unfolding isr
isr-Shows det_n s q v =
    if-View (is_transitioning s.bplus_state) s _ (is_attached q) (is_attached q) (has_power q)
      (bplus_of q) v
      (same-View s _ (is_attached q) (is_attached q) (has_power q) (bplus_of q) refl refl refl refl
        v)

isrs-Shows : (interrupts : List Bool) (s : Muc) (q : Port) → Shows s q → Shows (isrs interrupts s) q
isrs-Shows [] s q v = v
isrs-Shows (d ∷ ds) s q v = isrs-Shows ds (isr d s) q (isr-Shows d s q v)

pub bplus_fault-Shows :
    (level ratelimit : Bool) (s : Muc) (q : Port)
    → Shows s q
    → Shows (bplus_fault level ratelimit s) q
unfolding bplus_fault
bplus_fault-Shows level ratelimit s q v =
    let same =
      same-View s _ (is_attached q) (is_attached q) (has_power q) (bplus_of q) refl refl refl refl
        v in
    let told =
      same-View s _ (is_attached q) (is_attached q) (has_power q) (bplus_of q) refl refl refl refl
        v in
    if-View level s _ (is_attached q) (is_attached q) (has_power q) (bplus_of q) v
      (if-View ratelimit _ _ (is_attached q) (is_attached q) (has_power q) (bplus_of q) told same)

pub attach_work-Shows :
    (second_gen : Bool) (p : Readings) (s : Muc) (q : Port)
    → Shows s q
    → Shows (attach_work second_gen p s) (next_port s.force_removal p q)
unfolding attach_work
attach_work-Shows second_gen p s q v =
    handle_detection-Shows second_gen s.force_removal p _ q (
      same-View s _ (is_attached q) (is_attached q) (has_power q) (bplus_of q) refl refl refl refl
        v)

-- The port once the clients were told that the module is gone, with the power as it was
abbrev pub dropped : Port → Port
dropped off = off
dropped powered = powered
dropped attached = powered

dropped-View :
    (s : Muc) (q : Port) → View s false (bplus_of q) false (has_power q) → Shows s (dropped q)
dropped-View s off v = v
dropped-View s powered v = v
dropped-View s attached v = v

pub do_muc_reset-Shows :
    (second_gen : Bool) (interrupts : List Bool) (p : Readings) (s : Muc) (q : Port)
    → Shows s q
    → Shows (do_muc_reset second_gen interrupts p s) (next_port false p (dropped q))
unfolding do_muc_reset
do_muc_reset-Shows second_gen interrupts p s q v =
    let told : View (attach_notifier_call_chain false (record s { muc_detected = false })) false
        (bplus_of q) false (has_power q) =
      record { detected = refl; bplus = v.bplus; notified = refl; power = v.power } in
    let r = dropped q in
    let paused = isrs-Shows interrupts _ r (dropped-View _ q told) in
    handle_detection-Shows second_gen false p _ r (
      same-View _ _ (is_attached r) (is_attached r) (has_power r) (bplus_of r) refl refl refl refl
        paused)

-- The flashing sequence ends with power and the clients told.
ff_sequence-View :
    (need_det_output : Bool) (root_ver : ℕ) (s : Muc) (q : Port)
    → Shows s q
    → View (ff_sequence need_det_output root_ver s) false transitioning false true
unfolding ff_sequence
ff_sequence-View need_det_output root_ver s q v =
    let w = has_power q in
    let removed : View
        (record (attach_notifier_call_chain false (record s { bplus_state = transitioning })) {
          muc_detected = false;
        })
        false transitioning false w =
      record { detected = refl; bplus = refl; notified = refl; power = v.power } in
    let ready =
      same-View _ (emit (pins discon) _) false false w transitioning refl refl refl refl removed in
    let driven =
      if-View need_det_output _ _ false false w transitioning
        (same-View _ (emit (det_output false) _) false false w transitioning refl refl refl refl
          ready)
        ready in
    let flashed =
      if-View (leb root_ver 1) _ _ false false true transitioning
        (record {
          detected = driven.detected;
          bplus = driven.bplus;
          notified = driven.notified;
          power = refl;
        })
        (record {
          detected = driven.detected;
          bplus = driven.bplus;
          notified = driven.notified;
          power = refl;
        }) in
    if-View need_det_output _ _ false false true transitioning
      (same-View _ (emit det_input _) false false true transitioning refl refl refl refl flashed)
      flashed

pub force_detect-Shows :
    (val : Bool) (s : Muc) (q : Port) → Shows s q → Shows (force_detect val s) q
unfolding force_detect
force_detect-Shows val s q v =
    isr-Shows (not val) _ q (
      same-View s _ (is_attached q) (is_attached q) (has_power q) (bplus_of q) refl refl refl refl
        v)

-- What a flash or a reset leaves
abbrev pub reset_port : Bool → Port
reset_port true = off
reset_port false = powered

abbrev pub ff_port : Bool → Bool → Readings → Port
ff_port do_reset true p = off
ff_port do_reset false p = next_port false p (reset_port do_reset)

ff_set-Shows :
    (do_reset : Bool) (s : Muc)
    → View s false transitioning false true
    → Shows
        (emit notify_reset (if do_reset then power_off s else record s { bplus_state = enabled }))
        (reset_port do_reset)
ff_set-Shows true s v = record {
  detected = v.detected;
  bplus = refl;
  notified = v.notified;
  power = refl;
}
ff_set-Shows false s v = record {
  detected = v.detected;
  bplus = refl;
  notified = v.notified;
  power = v.power;
}

gone-Shows :
    (s : Muc) (q : Port)
    → is_attached q ≡ false
    → Shows s q
    → Shows (power_off (emit (pins discon) s)) off
gone-Shows s q e v = record {
  detected = v.detected ∙ e;
  bplus = refl;
  notified = v.notified ∙ e;
  power = refl;
}

reset_port-gone : (do_reset : Bool) → is_attached (reset_port do_reset) ≡ false
reset_port-gone true = refl
reset_port-gone false = refl

pub do_muc_ff_reset-Shows :
    (second_gen need_det_output : Bool) (root_ver : ℕ) (do_reset lost : Bool) (p : Readings)
    (s : Muc) (q : Port)
    → Shows s q
    → Shows
        (do_muc_ff_reset second_gen need_det_output root_ver do_reset lost p s)
        (ff_port do_reset lost p)
unfolding do_muc_ff_reset
do_muc_ff_reset-Shows second_gen need_det_output root_ver do_reset true p s q v =
    gone-Shows _ (reset_port do_reset) (reset_port-gone do_reset)
      (ff_set-Shows do_reset _ (ff_sequence-View need_det_output root_ver s q v))
do_muc_ff_reset-Shows second_gen need_det_output root_ver do_reset false p s q v =
    let r = reset_port do_reset in
    let set = ff_set-Shows do_reset _ (ff_sequence-View need_det_output root_ver s q v) in
    let told = emit notify_reset (
      if do_reset
      then power_off (ff_sequence need_det_output root_ver s)
      else record (ff_sequence need_det_output root_ver s) { bplus_state = enabled }) in
    handle_detection-Shows second_gen false p _ r (
      if-View (is_enabled told.bplus_state) (select_state_con told) told (is_attached r)
        (is_attached r) (has_power r) (bplus_of r)
        (select_state_con-View told (is_attached r) (is_attached r) (has_power r) (bplus_of r) set)
        set)

pub do_muc_poweroff-Shows : (det_n : Bool) (s : Muc) → Shows (do_muc_poweroff det_n s) off
unfolding do_muc_poweroff
do_muc_poweroff-Shows true s = record {
  detected = refl;
  bplus = refl;
  notified = refl;
  power = refl;
}
do_muc_poweroff-Shows false s =
    select_state_con-View (record (power_removed s) { pinctrl_disconnect = true }) false false false
      disabled (record { detected = refl; bplus = refl; notified = refl; power = refl })

pub do_muc_soft_reset-Shows :
    (second_gen : Bool) (p : Readings) (s : Muc)
    → Shows (do_muc_soft_reset second_gen p s) (next_port false p off)
unfolding do_muc_soft_reset
do_muc_soft_reset-Shows second_gen p s =
    handle_detection-Shows second_gen false p _ off
      (record { detected = refl; bplus = refl; notified = refl; power = refl })
