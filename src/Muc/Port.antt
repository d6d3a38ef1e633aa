-- ===== src/Muc/Port.antt =====
-- What the clients of muc_gpio.c see of it: a port with three states.
use motorola_external_greybu.Prelude.{
  ◌≡◌, refl, ◌∙◌, ◌+◌, ltb, ◌==◌, Bool, true, false, Option, none, some, List, [], ◌∷◌,
  if◌then◌else◌,
}
use motorola_external_greybu.Muc.State.{
  Muc, Readings, Effect, Bplus, Delay, disabled, enabled, notify, en_seq, dis_seq, ff_seq_v1,
  ff_seq_v2, attach_notifier_call_chain, queue_isr_work, select_state_con, register_spi,
  register_i2c, det_hysteresis,
}
use motorola_external_greybu.Muc.Detection.{
  after_short_test, power_off, forced_off, report_short, retry_short, handle_short,
  short_max_retries,
}

-- No power, power without a module that clients know of, and a module that clients know of
pub data Port : Type 0 where
  off powered attached : Port

abbrev pub is_attached : Port → Bool
is_attached off = false
is_attached powered = false
is_attached attached = true

abbrev pub has_power : Port → Bool
has_power off = false
has_power powered = true
has_power attached = true

abbrev pub bplus_of : Port → Bplus
bplus_of off = disabled
bplus_of powered = enabled
bplus_of attached = enabled

-- What the clients were told last, and whether the last sequence gave power
abbrev pub last_notified : List Effect → Bool
last_notified [] = false
last_notified (e ∷ es) = elim e [ notify val ↦ val | _ ↦ last_notified es ]

abbrev pub last_powered : List Effect → Bool
last_powered [] = false
last_powered (e ∷ es) = elim e [
  | en_seq ↦ true
  | ff_seq_v1 ↦ true
  | ff_seq_v2 ↦ true
  | dis_seq ↦ false
  | _ ↦ last_powered es
]

-- The parts of a state that a port shows
pub record View (s : Muc) (d : Bool) (b : Bplus) (n w : Bool) : Type 0 where
  pub detected : s.muc_detected ≡ d
  pub bplus : s.bplus_state ≡ b
  pub notified : last_notified s.log ≡ n
  pub power : last_powered s.log ≡ w

abbrev pub Shows : Muc → Port → Type 0
Shows s q = View s (is_attached q) (bplus_of q) (is_attached q) (has_power q)

pub attach_notifier_call_chain-View :
    (val : Bool) (s : Muc) (d n w : Bool) (b : Bplus)
    → View s d b n w
    → View (attach_notifier_call_chain val s) d b val w
attach_notifier_call_chain-View val s d n w b v = record {
  detected = v.detected;
  bplus = v.bplus;
  notified = refl;
  power = v.power;
}

pub power_off-View :
    (s : Muc) (d n w : Bool) (b : Bplus) → View s d b n w → View (power_off s) d disabled n false
power_off-View s d n w b v = record {
  detected = v.detected;
  bplus = refl;
  notified = v.notified;
  power = refl;
}

-- A choice between two states
pub if-View :
    (c : Bool) (s t : Muc) (d n w : Bool) (b : Bplus)
    → View s d b n w
    → View t d b n w
    → View (if c then s else t) d b n w
if-View true s t d n w b v u = v
if-View false s t d n w b v u = u

pub if-View-true :
    (c : Bool) (s t : Muc) (d n w : Bool) (b : Bplus)
    → c ≡ true
    → View s d b n w
    → View (if c then s else t) d b n w
if-View-true c s t d n w b e v = rw e v

pub if-View-false :
    (c : Bool) (s t : Muc) (d n w : Bool) (b : Bplus)
    → c ≡ false
    → View t d b n w
    → View (if c then s else t) d b n w
if-View-false c s t d n w b e v = rw e v

-- What is not shown may change.
pub same-View :
    (s t : Muc) (d n w : Bool) (b : Bplus)
    → t.muc_detected ≡ s.muc_detected
    → t.bplus_state ≡ s.bplus_state
    → last_notified t.log ≡ last_notified s.log
    → last_powered t.log ≡ last_powered s.log
    → View s d b n w
    → View t d b n w
same-View s t d n w b e f g h v = record {
  detected = e ∙ v.detected;
  bplus = f ∙ v.bplus;
  notified = g ∙ v.notified;
  power = h ∙ v.power;
}

queued-View :
    (q r : Option Delay) (s : Muc) (d n w : Bool) (b : Bplus)
    → View s d b n w
    → View (elim q [ none ↦ record s { queued = r } | some _ ↦ s ]) d b n w
queued-View none r s d n w b v = same-View s _ d n w b refl refl refl refl v
queued-View (some x) r s d n w b v = v

pub queue_isr_work-View :
    (h : Delay) (s : Muc) (d n w : Bool) (b : Bplus)
    → View s d b n w
    → View (queue_isr_work h s) d b n w
queue_isr_work-View h s d n w b v = queued-View s.queued (some h) s d n w b v

pub select_state_con-View :
    (s : Muc) (d n w : Bool) (b : Bplus) → View s d b n w → View (select_state_con s) d b n w
select_state_con-View s d n w b v =
    if-View s.spi_transport_done _ _ d n w b (same-View s _ d n w b refl refl refl refl v)
      (if-View s.i2c_transport_done _ s d n w b (same-View s _ d n w b refl refl refl refl v) v)

pub register_spi-View :
    (p : Readings) (s : Muc) (d n w : Bool) (b : Bplus)
    → View s d b n w
    → View (register_spi p s) d b n w
unfolding register_spi
register_spi-View p s d n w b v =
    if-View s.spi_transport_done s _ d n w b v (same-View s _ d n w b refl refl refl refl v)

pub register_i2c-View :
    (p : Readings) (s : Muc) (d n w : Bool) (b : Bplus)
    → View s d b n w
    → View (register_i2c p s) d b n w
unfolding register_i2c
register_i2c-View p s d n w b v =
    if-View s.i2c_transport_done s _ d n w b v (same-View s _ d n w b refl refl refl refl v)

pub after_short_test-View :
    (p : Readings) (s : Muc) (d n w : Bool) (b : Bplus)
    → View s d b n w
    → View (after_short_test p s) d b n w
after_short_test-View p s d n w b v =
    if-View p.int_n _ _ d n w b (same-View s _ d n w b refl refl refl refl v)
      (same-View s _ d n w b refl refl refl refl v)

forced_off-View :
    (s : Muc) (d w : Bool) (b : Bplus) → View s d b false w → View (forced_off s) d b false w
forced_off-View s d w b v =
    if-View s.muc_detected _ s d false w b (attach_notifier_call_chain-View false s d false w b v) v

retry_short-View :
    (s : Muc) (d n w : Bool) (b : Bplus) → View s d b n w → View (retry_short s) false b n w
retry_short-View s d n w b v =
    let r : View (record s { muc_detected = false; short_count = s.short_count + 1 }) false b n w =
      record { detected = refl; bplus = v.bplus; notified = v.notified; power = v.power } in
    if-View (ltb s.short_count short_max_retries) _ _ false n w b
      (queue_isr_work-View det_hysteresis _ false n w b r)
      (same-View _ _ false n w b refl refl refl refl r)

report_short-View :
    (s : Muc) (d n w : Bool) (b : Bplus) → View s d b n w → View (report_short s) d b n w
report_short-View s d n w b v =
    if-View (s.short_count == 0) _ s d n w b (same-View s _ d n w b refl refl refl refl v) v

-- A module with a short ends without power.
pub handle_short-Shows :
    (s : Muc) (d w : Bool) (b : Bplus) → View s d b false w → Shows (handle_short s) off
unfolding handle_short
handle_short-Shows s d w b v =
    let cut =
      same-View _ (record (power_off s) { pinctrl_disconnect = true }) d false false disabled refl
        refl refl refl (power_off-View s d false w b v) in
    retry_short-View _ d false false disabled
      (report_short-View _ d false false disabled (forced_off-View _ d false disabled cut))
