-- ===== src/Muc/Detection.antt =====
-- Detection and interrupts in muc_gpio.c. The handlers of the queued work run one at a time, as `attach_wq` runs
-- one work at most, and the interrupt's handler waits for one that runs.
use motorola_external_greybu.Prelude.{
  ℕ, ◌+◌, ◌%◌, ◌^◌, Bool, true, false, not, ◌&&◌, ◌||◌, none, some, ◌∷◌, if◌then◌else◌, ltb, ◌==◌,
}
use motorola_external_greybu.Muc.State.{
  Muc, Readings, disabled, enabled, is_disabled, is_enabled, is_transitioning, det_hysteresis,
  rm_hysteresis, discon, short_detected, short_recovery_fail, bplus_fault_detected, en_seq, dis_seq,
  select_spi_seq, select_i2c_seq, wake_n, pins, uevent, emit, attach_notifier_call_chain,
  queue_isr_work, select_state_con, register_spi, register_i2c,
}

-- `MUC_SHORT_MAX_RETRIES`
abbrev pub short_max_retries : ℕ
short_max_retries = 8

-- What `muc_short_detected` returns, and the state with what it writes to WAKE_N.
abbrev pub is_short : Readings → Bool
is_short p = not p.int_n && not p.ready_n && not p.int_n_awake

abbrev pub after_short_test : Readings → Muc → Muc
after_short_test p s =
    if p.int_n
    then emit (wake_n true) s
    else emit (wake_n true) (emit (wake_n false) (emit (wake_n true) s))

-- The disabling sequence, which takes the power from the module.
abbrev pub power_off : Muc → Muc
power_off s = record s { bplus_state = disabled; log = dis_seq ∷ s.log }

-- A removal is forced if the module was detected before.
abbrev pub forced_off : Muc → Muc
forced_off s = if s.muc_detected then attach_notifier_call_chain false s else s

-- The first short of a row is told to user space.
abbrev pub report_short : Muc → Muc
report_short s = if s.short_count == 0 then emit (uevent short_detected) s else s

-- The end of `muc_handle_short`: the count of shorts and the next detection
abbrev pub retry_short : Muc → Muc
retry_short s =
    let s' = record s { muc_detected = false; short_count = s.short_count + 1 } in
    if ltb s.short_count short_max_retries
    then queue_isr_work det_hysteresis s'
    else emit (uevent short_recovery_fail) s'

-- `muc_handle_short`
unfoldable pub handle_short : Muc → Muc
handle_short s =
    retry_short (report_short (forced_off (record (power_off s) { pinctrl_disconnect = true })))

-- The module is as it was.
abbrev pub same_state : Bool → Muc → Muc
same_state detected s =
    if detected || not s.pinctrl_disconnect
    then s
    else record s { pinctrl_disconnect = false; log = pins discon ∷ s.log }

-- The enabling sequence and the choice of a transport; `second_gen` is CONFIG_MODS_2ND_GEN.
unfoldable pub power_on : Bool → Readings → Muc → Muc
unfolding register_spi register_i2c
power_on second_gen p s =
    let on = record s { bplus_state = enabled; log = en_seq ∷ s.log } in
    select_state_con (
      if not on.i2c_transport_err && p.clk
      then register_i2c p (if second_gen then emit select_i2c_seq on else on)
      else let spi = record on { i2c_transport_err = false } in
        register_spi p (if second_gen then emit select_spi_seq spi else spi))

-- The new state is notified, and a module that is gone loses its power.
abbrev pub announce : Bool → Muc → Muc
announce detected s =
    let told = attach_notifier_call_chain detected (record s { muc_detected = detected }) in
    if not detected && is_enabled told.bplus_state
    then power_off (emit (pins discon) told)
    else told

-- The module was plugged in or out.
unfoldable pub changed_state : Bool → Bool → Readings → Muc → Muc
unfolding power_on
changed_state second_gen detected p s =
    if detected && is_disabled s.bplus_state
    then announce (not p.det_n_settled) (power_on second_gen p s)
    else announce detected s

-- A module that is still there is removed and detected anew.
abbrev pub remove : Muc → Muc
remove s =
    queue_isr_work det_hysteresis
      (power_off (record (attach_notifier_call_chain false s) { muc_detected = false }))

abbrev pub is_same : Bool → Bool → Bool
is_same true before = before
is_same false before = not before

-- `muc_handle_detection` once no short is there.
unfoldable pub detect : Bool → Bool → Bool → Readings → Muc → Muc
unfolding changed_state
detect second_gen force detected p s0 =
    let s = record s0 { short_count = 0 } in
    if force && s.muc_detected && detected
    then remove s
    else if is_same detected s.muc_detected
    then same_state detected s
    else changed_state second_gen detected p s

-- `muc_handle_detection`
unfoldable pub handle_detection : Bool → Bool → Readings → Muc → Muc
unfolding handle_short detect
handle_detection second_gen force p s =
    let detected = not p.det_n in
    if detected && is_disabled s.bplus_state
    then if is_short p
      then handle_short (after_short_test p s)
      else detect second_gen force detected p (after_short_test p s)
    else detect second_gen force detected p s

-- `attach_work`: the queued work runs.
unfoldable pub attach_work : Bool → Readings → Muc → Muc
unfolding handle_detection
attach_work second_gen p s =
    handle_detection second_gen s.force_removal p
      (record s { queued = none; force_removal = false })

-- `muc_isr` with the level of DET_N; `intr_count` is a `u32`.
unfoldable pub isr : Bool → Muc → Muc
isr det_n s = if is_transitioning s.bplus_state then s else record s {
  intr_count = (s.intr_count + 1) % 2 ^ 32;
  force_removal = det_n;
  queued = some (if det_n then rm_hysteresis else det_hysteresis);
}

-- `muc_bplus_fault` with the level of its GPIO; `ratelimit` tells whether an event may be sent.
unfoldable pub bplus_fault : Bool → Bool → Muc → Muc
bplus_fault level ratelimit s =
    if level
    then s
    else let counted = record s { bplus_fault_cnt = s.bplus_fault_cnt + 1 } in
      if ratelimit then emit (uevent bplus_fault_detected) counted else counted
