-- ===== src/Muc/State.antt =====
-- The state in muc.h that muc_gpio.c keeps, and the calls that it makes. `log` has these calls, the latest one
-- first: notifications, sequences of GPIO writes, and pin states.
use motorola_external_greybu.Prelude.{
  ℕ, Bool, true, false, not, ◌&&◌, ◌||◌, Option, none, some, List, ◌∷◌, if◌then◌else◌,
}

-- `enum bplus_state`; the source never sets the fourth one.
pub data Bplus : Type 0 where
  disabled transitioning enabled shorted : Bplus

abbrev pub is_disabled : Bplus → Bool
is_disabled disabled = true
is_disabled transitioning = false
is_disabled enabled = false
is_disabled shorted = false

abbrev pub is_enabled : Bplus → Bool
is_enabled disabled = false
is_enabled transitioning = false
is_enabled enabled = true
is_enabled shorted = false

abbrev pub is_transitioning : Bplus → Bool
is_transitioning disabled = false
is_transitioning transitioning = true
is_transitioning enabled = false
is_transitioning shorted = false

-- The delays `det_hysteresis` and `rm_hysteresis` of the queued detection
pub data Delay : Type 0 where
  det_hysteresis rm_hysteresis : Delay

-- The states of `pinctrl`
pub data PinState : Type 0 where
  discon spi_con spi_ack i2c_con : PinState

pub data Uevent : Type 0 where
  short_detected short_recovery_fail bplus_fault_detected : Uevent

pub data Effect : Type 0 where
  -- `muc_attach_notifier_call_chain` and `muc_reset_notifier_call_chain`
  notify : Bool → Effect
  notify_reset : Effect
  -- `muc_seq` with one of the sequences of the device tree
  en_seq dis_seq ff_seq_v1 ff_seq_v2 select_spi_seq select_i2c_seq : Effect
  -- Writes to WAKE_N and to DET_N, and DET_N made an input again
  wake_n det_output : Bool → Effect
  det_input : Effect
  pins : PinState → Effect
  uevent : Uevent → Effect
  -- `of_platform_depopulate`
  depopulate : Effect

-- The fields of `struct muc_data` that change. `queued` is the queued `isr_work`, if it is, and
-- `force_removal` its flag.
pub record Muc : Type 0 where
  pub muc_detected : Bool
  pub bplus_state : Bplus
  pub queued : Option Delay
  pub force_removal : Bool
  pub pinctrl_disconnect : Bool
  pub spi_transport_done : Bool
  pub i2c_transport_done : Bool
  pub i2c_transport_err : Bool
  pub short_count : ℕ
  pub intr_count : ℕ
  pub bplus_fault_cnt : ℕ
  pub det_testmode : Bool
  pub log : List Effect

-- What is read while a detection runs: the levels of the GPIOs, where `true` is high, each time that they are
-- read, and what the device tree has for the transport.
pub record Readings : Type 0 where
  pub det_n : Bool
  pub int_n : Bool
  pub ready_n : Bool
  pub int_n_awake : Bool
  pub clk : Bool
  pub det_n_settled : Bool
  pub transports : Bool
  pub transport_device : Bool
  pub device_created : Bool

abbrev pub emit : Effect → Muc → Muc
emit e s = record s { log = e ∷ s.log }

-- `muc_attach_notifier_call_chain`, which logs the counts of interrupts and resets them.
abbrev pub attach_notifier_call_chain : Bool → Muc → Muc
attach_notifier_call_chain val s = record s {
  bplus_fault_cnt = 0;
  intr_count = 0;
  log = notify val ∷ s.log;
}

-- `register_muc_attach_notifier`, if the kernel registers it.
abbrev pub register_muc_attach_notifier : Muc → Muc
register_muc_attach_notifier s = attach_notifier_call_chain s.muc_detected s

-- `queue_delayed_work` of `isr_work`, which does nothing while it is queued.
abbrev pub queue_isr_work : Delay → Muc → Muc
queue_isr_work d s = elim s.queued [ none ↦ record s { queued = some d } | some _ ↦ s ]

-- `muc_pinctrl_select_state_con`
abbrev pub select_state_con : Muc → Muc
select_state_con s =
    if s.spi_transport_done
    then emit (pins spi_con) s
    else if s.i2c_transport_done
    then emit (pins i2c_con) s
    else s

-- `muc_register_spi` and `muc_register_i2c` of muc_core.c
unfoldable pub register_spi : Readings → Muc → Muc
register_spi p s = if s.spi_transport_done then s else record s {
  i2c_transport_done = false;
  spi_transport_done = not p.transports || (p.transport_device && p.device_created);
  log = depopulate ∷ s.log;
}

unfoldable pub register_i2c : Readings → Muc → Muc
register_i2c p s = if s.i2c_transport_done then s else record s {
  spi_transport_done = false;
  i2c_transport_done = not p.transports || (p.transport_device && p.device_created);
  log = depopulate ∷ s.log;
}

-- `muc_gpio_ack_cfg` with the state of the pins that it selects, or `none` for -ENODEV; `ack_supported` tells
-- whether the device tree has pins for it.
unfoldable pub ack_cfg : Bool → Bool → Muc → Option PinState
ack_cfg ack_supported en s =
    if not ack_supported || not s.muc_detected || not s.spi_transport_done
    then none
    else if en
    then some spi_ack
    else some spi_con
