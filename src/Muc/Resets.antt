-- ===== src/Muc/Resets.antt =====
-- The resets of a module in muc_gpio.c: each is the handler of a work on `attach_wq`.
use motorola_external_greybu.Prelude.{
  ℕ, Bool, true, false, not, none, List, [], ◌∷◌, if◌then◌else◌, leb,
}
use motorola_external_greybu.Muc.State.{
  Muc, Readings, transitioning, enabled, is_enabled, discon, notify_reset, ff_seq_v1, ff_seq_v2,
  det_output, det_input, pins, emit, attach_notifier_call_chain, select_state_con,
}
use motorola_external_greybu.Muc.Detection.{power_off, handle_detection, isr}

-- The interrupts that come while a handler sleeps
abbrev pub isrs : List Bool → Muc → Muc
isrs [] s = s
isrs (det_n ∷ rest) s = isrs rest (isr det_n s)

-- `do_muc_reset`: a removal, a pause of 4 seconds, and a new detection.
unfoldable pub do_muc_reset : Bool → List Bool → Readings → Muc → Muc
do_muc_reset second_gen interrupts p s =
    let paused =
      isrs interrupts (attach_notifier_call_chain false (record s { muc_detected = false })) in
    handle_detection second_gen false p (record paused { queued = none })

-- The forced removal and the flashing sequence in `do_muc_ff_reset`, in which the interrupt is off.
unfoldable pub ff_sequence : Bool → ℕ → Muc → Muc
ff_sequence need_det_output root_ver s =
    let removed =
      record (attach_notifier_call_chain false (record s { bplus_state = transitioning })) {
        muc_detected = false;
      } in
    let ready = emit (pins discon) removed in
    let driven = if need_det_output then emit (det_output false) ready else ready in
    let flashed = if leb root_ver 1 then emit ff_seq_v1 driven else emit ff_seq_v2 driven in
    if need_det_output then emit det_input flashed else flashed

-- `do_muc_ff_reset`; `lost` tells whether DET_N is still high when the time to wait is over.
unfoldable pub do_muc_ff_reset : Bool → Bool → ℕ → Bool → Bool → Readings → Muc → Muc
unfolding ff_sequence
do_muc_ff_reset second_gen need_det_output root_ver do_reset lost p s =
    let flashed = ff_sequence need_det_output root_ver s in
    let set = if do_reset then power_off flashed else record flashed { bplus_state = enabled } in
    let told = emit notify_reset set in
    if lost
    then power_off (emit (pins discon) told)
    else handle_detection second_gen false p
        (if is_enabled told.bplus_state then select_state_con told else told)

-- A removal and the power off
abbrev pub power_removed : Muc → Muc
power_removed s =
    let told = record (attach_notifier_call_chain false s) { bplus_state = transitioning } in
    record (power_off (emit (pins discon) told)) { muc_detected = false }

-- `do_muc_poweroff` with the level of DET_N at its end
unfoldable pub do_muc_poweroff : Bool → Muc → Muc
do_muc_poweroff det_n s =
    if det_n
    then power_removed s
    else select_state_con (record (power_removed s) { pinctrl_disconnect = true })

-- `do_muc_soft_reset`
unfoldable pub do_muc_soft_reset : Bool → Readings → Muc → Muc
do_muc_soft_reset second_gen p s =
    let told = record (attach_notifier_call_chain false s) { muc_detected = false } in
    handle_detection second_gen false p (emit notify_reset (power_off (emit (pins discon) told)))

-- `muc_force_detect`: DET_N becomes an output with this level, and the interrupt's handler runs.
unfoldable pub force_detect : Bool → Muc → Muc
force_detect val s =
    isr (not val) (record s { det_testmode = true; log = det_output (not val) ∷ s.log })
