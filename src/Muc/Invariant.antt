-- ===== src/Muc/Invariant.antt =====
-- The states that muc_gpio.c reaches show a port.
use motorola_external_greybu.Prelude.{
  ℕ, ◌≡◌, refl, ap, subst, Bool, true, false, none, some, List, [], if◌then◌else◌,
}
use motorola_external_greybu.Muc.State.{
  Muc, Readings, Delay, disabled, det_hysteresis, register_muc_attach_notifier, queue_isr_work,
}
use motorola_external_greybu.Muc.Detection.{handle_detection, attach_work, isr, bplus_fault}
use motorola_external_greybu.Muc.Resets.{
  do_muc_reset, do_muc_ff_reset, do_muc_poweroff, do_muc_soft_reset, force_detect,
}
use motorola_external_greybu.Muc.Port.{
  Port, off, powered, attached, is_attached, has_power, bplus_of, Shows, same-View,
  queue_isr_work-View,
}
use motorola_external_greybu.Muc.Refines.{handle_detection-Shows}
use motorola_external_greybu.Muc.ResetPorts.{
  isr-Shows, bplus_fault-Shows, attach_work-Shows, do_muc_reset-Shows, force_detect-Shows,
  do_muc_ff_reset-Shows, do_muc_poweroff-Shows, do_muc_soft_reset-Shows,
}

-- What happens to the driver: a client registers, the interrupts and the works run. The first detection is
-- queued by `muc_intr_setup`, and `muc_svc_wdog` blames the I2C transport.
pub data Step (second_gen need_det_output : Bool) (s : Muc) : Muc → Type 0 where
  registers : Step second_gen need_det_output s (register_muc_attach_notifier s)
  sets_up : Step second_gen need_det_output s (queue_isr_work det_hysteresis s)
  interrupts : (det_n : Bool) → Step second_gen need_det_output s (isr det_n s)
  faults :
      (level ratelimit : Bool) → Step second_gen need_det_output s (bplus_fault level ratelimit s)
  forces : (val : Bool) → Step second_gen need_det_output s (force_detect val s)
  blames : Step second_gen need_det_output s (record s { i2c_transport_err = true })
  works :
      (p : Readings) (d : Delay)
      → s.queued ≡ some d
      → Step second_gen need_det_output s (attach_work second_gen p s)
  resets :
      (during : List Bool) (p : Readings)
      → Step second_gen need_det_output s (do_muc_reset second_gen during p s)
  flashes :
      (root_ver : ℕ) (do_reset lost : Bool) (p : Readings)
      → Step second_gen need_det_output s
          (do_muc_ff_reset second_gen need_det_output root_ver do_reset lost p s)
  powers_off : (det_n : Bool) → Step second_gen need_det_output s (do_muc_poweroff det_n s)
  soft_resets :
      (p : Readings) → Step second_gen need_det_output s (do_muc_soft_reset second_gen p s)

-- The state that `muc_probe` starts from
abbrev pub probed : Muc
probed = record {
  muc_detected = false;
  bplus_state = disabled;
  queued = none;
  force_removal = false;
  pinctrl_disconnect = false;
  spi_transport_done = false;
  i2c_transport_done = false;
  i2c_transport_err = false;
  short_count = 0;
  intr_count = 0;
  bplus_fault_cnt = 0;
  det_testmode = false;
  log = [];
}

pub data Reach (second_gen need_det_output : Bool) : Muc → Type 0 where
  start : Reach second_gen need_det_output probed
  next :
      {s t : Muc}
      → Reach second_gen need_det_output s
      → Step second_gen need_det_output s t
      → Reach second_gen need_det_output t

Step-Shows :
    {second_gen need_det_output : Bool} {s t : Muc} (q : Port)
    → Step second_gen need_det_output s t
    → Shows s q
    → (r : Port) × Shows t r
Step-Shows q registers v =
    (q, record { detected = v.detected; bplus = v.bplus; notified = v.detected; power = v.power })
Step-Shows q sets_up v = (
  q,
  queue_isr_work-View det_hysteresis _ (is_attached q) (is_attached q) (has_power q) (bplus_of q) v,
)
Step-Shows q (interrupts det_n) v = (q, isr-Shows det_n _ q v)
Step-Shows q (faults level ratelimit) v = (q, bplus_fault-Shows level ratelimit _ q v)
Step-Shows q (forces val) v = (q, force_detect-Shows val _ q v)
Step-Shows q blames v = (
  q,
  same-View _ _ (is_attached q) (is_attached q) (has_power q) (bplus_of q) refl refl refl refl v,
)
Step-Shows q (works p d e) v = (_, attach_work-Shows _ p _ q v)
Step-Shows q (resets during p) v = (_, do_muc_reset-Shows _ during p _ q v)
Step-Shows q (flashes root_ver do_reset lost p) v =
    (_, do_muc_ff_reset-Shows _ _ root_ver do_reset lost p _ q v)
Step-Shows q (powers_off det_n) v = (off, do_muc_poweroff-Shows det_n _)
Step-Shows q (soft_resets p) v = (_, do_muc_soft_reset-Shows _ p _)

-- Whatever happens, when no handler runs the state shows one of the three ports: the clients were told last
-- that a module is there exactly if one is recorded as detected, which then has power; the power is on by the
-- sequences that were run exactly if `bplus_state` is enabled, and otherwise `bplus_state` is disabled.
pub Reach-Shows :
    {second_gen need_det_output : Bool} {s : Muc}
    → Reach second_gen need_det_output s
    → (q : Port) × Shows s q
Reach-Shows start = (off, record { detected = refl; bplus = refl; notified = refl; power = refl })
Reach-Shows (next r st) = let (q, v) = Reach-Shows r in Step-Shows q st v

-- If a module is removed while `do_muc_reset` pauses, the clients are told that it is gone, but its power stays
-- on, and every later detection that finds no module leaves it on, whether a removal is forced or not.
pub do_muc_reset-powered :
    (second_gen : Bool) (during : List Bool) (p : Readings) (s : Muc)
    → Shows s attached
    → p.det_n ≡ true
    → Shows (do_muc_reset second_gen during p s) powered
      × ((force : Bool) (again : Readings) (t : Muc)
          → again.det_n ≡ true
          → Shows t powered
          → Shows (handle_detection second_gen force again t) powered)
do_muc_reset-powered second_gen during p s v e = (
  subst (λ r. Shows (do_muc_reset second_gen during p s) r)
      (ap (λ x. if x then powered else attached) e)
      (do_muc_reset-Shows second_gen during p s attached v),
  λ force again t f u.
      subst (λ r. Shows (handle_detection second_gen force again t) r)
        (ap (λ x. if x then powered else attached) f)
        (handle_detection-Shows second_gen force again t powered u),
)
