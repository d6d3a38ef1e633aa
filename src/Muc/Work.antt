-- ===== src/Muc/Work.antt =====
-- The queued work of muc_gpio.c, and the count of shorts.
use motorola_external_greybu.Prelude.{
  ℕ, ◌+◌, ◌≡◌, refl, ap, ◌∙◌, ◌&&◌, ◌||◌, ltb, ◌==◌, Bool, true, false, not, Option, none, some,
  ◌∷◌, if◌then◌else◌,
}
use motorola_external_greybu.Muc.State.{
  Muc, Readings, Delay, enabled, is_disabled, is_enabled, en_seq, det_hysteresis,
  attach_notifier_call_chain, queue_isr_work, select_state_con, register_spi, register_i2c,
}
use motorola_external_greybu.Muc.Detection.{
  short_max_retries, after_short_test, power_off, forced_off, report_short, retry_short,
  handle_short, same_state, power_on, announce, is_same, changed_state, detect,
}

-- The queued work, whether it forces a removal, and the count of shorts
pub record Work (s : Muc) (w : Option Delay) (n : ℕ) : Type 0 where
  pub work : s.queued ≡ w
  pub normal : s.force_removal ≡ false
  pub shorts : s.short_count ≡ n

if-Work :
    (c : Bool) (s t : Muc) (w : Option Delay) (n : ℕ)
    → Work s w n
    → Work t w n
    → Work (if c then s else t) w n
if-Work true s t w n v u = v
if-Work false s t w n v u = u

pub if-Work-true :
    (c : Bool) (s t : Muc) (w : Option Delay) (n : ℕ)
    → c ≡ true
    → Work s w n
    → Work (if c then s else t) w n
if-Work-true c s t w n e v = rw e v

pub if-Work-false :
    (c : Bool) (s t : Muc) (w : Option Delay) (n : ℕ)
    → c ≡ false
    → Work t w n
    → Work (if c then s else t) w n
if-Work-false c s t w n e v = rw e v

pub same-Work :
    (s t : Muc) (w : Option Delay) (n : ℕ)
    → t.queued ≡ s.queued
    → t.force_removal ≡ s.force_removal
    → t.short_count ≡ s.short_count
    → Work s w n
    → Work t w n
same-Work s t w n e f g v = record {
  work = e ∙ v.work;
  normal = f ∙ v.normal;
  shorts = g ∙ v.shorts;
}

queued-Work :
    (q : Option Delay) (d : Delay) (s : Muc) (n : ℕ)
    → q ≡ none
    → Work s none n
    → Work (elim q [ none ↦ record s { queued = some d } | some _ ↦ s ]) (some d) n
queued-Work q d s n e v = rw e (record { work = refl; normal = v.normal; shorts = v.shorts })

queue_isr_work-Work :
    (d : Delay) (s : Muc) (n : ℕ) → Work s none n → Work (queue_isr_work d s) (some d) n
queue_isr_work-Work d s n v = queued-Work s.queued d s n v.work v

select_state_con-Work :
    (s : Muc) (w : Option Delay) (n : ℕ) → Work s w n → Work (select_state_con s) w n
select_state_con-Work s w n v =
    if-Work s.spi_transport_done _ _ w n (same-Work s _ w n refl refl refl v)
      (if-Work s.i2c_transport_done _ s w n (same-Work s _ w n refl refl refl v) v)

register_spi-Work :
    (p : Readings) (s : Muc) (w : Option Delay) (n : ℕ) → Work s w n → Work (register_spi p s) w n
unfolding register_spi
register_spi-Work p s w n v =
    if-Work s.spi_transport_done s _ w n v (same-Work s _ w n refl refl refl v)

register_i2c-Work :
    (p : Readings) (s : Muc) (w : Option Delay) (n : ℕ) → Work s w n → Work (register_i2c p s) w n
unfolding register_i2c
register_i2c-Work p s w n v =
    if-Work s.i2c_transport_done s _ w n v (same-Work s _ w n refl refl refl v)

pub after_short_test-Work :
    (p : Readings) (s : Muc) (w : Option Delay) (n : ℕ)
    → Work s w n
    → Work (after_short_test p s) w n
after_short_test-Work p s w n v =
    if-Work p.int_n _ _ w n (same-Work s _ w n refl refl refl v)
      (same-Work s _ w n refl refl refl v)

power_on-Work :
    (second_gen : Bool) (p : Readings) (s : Muc) (w : Option Delay) (n : ℕ)
    → Work s w n
    → Work (power_on second_gen p s) w n
unfolding power_on
power_on-Work second_gen p s w n v =
    let on =
      same-Work s (record s { bplus_state = enabled; log = en_seq ∷ s.log }) w n refl refl refl v in
    let spi =
      same-Work s
        (record s { bplus_state = enabled; log = en_seq ∷ s.log; i2c_transport_err = false }) w n
        refl refl refl v in
    select_state_con-Work _ w n (
      if-Work (not s.i2c_transport_err && p.clk) _ _ w n
        (register_i2c-Work p _ w n
          (if-Work second_gen _ _ w n (same-Work _ _ w n refl refl refl on) on))
        (register_spi-Work p _ w n
          (if-Work second_gen _ _ w n (same-Work _ _ w n refl refl refl spi) spi)))

announce-Work :
    (x : Bool) (s : Muc) (w : Option Delay) (n : ℕ) → Work s w n → Work (announce x s) w n
announce-Work x s w n v =
    if-Work (not x && is_enabled s.bplus_state) _ _ w n (same-Work s _ w n refl refl refl v)
      (same-Work s _ w n refl refl refl v)

changed_state-Work :
    (second_gen x : Bool) (p : Readings) (s : Muc) (w : Option Delay) (n : ℕ)
    → Work s w n
    → Work (changed_state second_gen x p s) w n
unfolding changed_state
changed_state-Work second_gen x p s w n v =
    if-Work (x && is_disabled s.bplus_state) _ _ w n
      (announce-Work (not p.det_n_settled) _ w n (power_on-Work second_gen p s w n v))
      (announce-Work x s w n v)

same_state-Work :
    (x : Bool) (s : Muc) (w : Option Delay) (n : ℕ) → Work s w n → Work (same_state x s) w n
same_state-Work x s w n v =
    if-Work (x || not s.pinctrl_disconnect) s _ w n v (same-Work s _ w n refl refl refl v)

-- A detection that forces no removal and finds no short queues nothing.
pub detect-Work :
    (second_gen x : Bool) (p : Readings) (s : Muc) (n : ℕ)
    → Work s none n
    → Work (detect second_gen false x p s) none 0
unfolding detect
detect-Work second_gen x p s n v =
    let counted : Work (record s { short_count = 0 }) none 0 = record {
      work = v.work;
      normal = v.normal;
      shorts = refl;
    } in
    if-Work (is_same x s.muc_detected) _ _ none 0 (same_state-Work x _ none 0 counted)
      (changed_state-Work second_gen x p _ none 0 counted)

-- A detection that is to force a removal queues one that does not, if it does remove.
pub detect-removal :
    (second_gen x : Bool) (p : Readings) (s : Muc) (n : ℕ)
    → (s.muc_detected && x) ≡ true
    → Work s none n
    → Work (detect second_gen true x p s) (some det_hysteresis) 0
unfolding detect
detect-removal second_gen x p s n e v =
    let told : Work
        (power_off (record (attach_notifier_call_chain false (record s { short_count = 0 })) {
          muc_detected = false;
        }))
        none 0 =
      record { work = v.work; normal = v.normal; shorts = refl } in
    if-Work-true (s.muc_detected && x) _ _ (some det_hysteresis) 0 e
      (queue_isr_work-Work det_hysteresis _ 0 told)

pub detect-kept :
    (second_gen x : Bool) (p : Readings) (s : Muc) (n : ℕ)
    → (s.muc_detected && x) ≡ false
    → Work s none n
    → Work (detect second_gen true x p s) none 0
unfolding detect
detect-kept second_gen x p s n e v =
    let counted : Work (record s { short_count = 0 }) none 0 = record {
      work = v.work;
      normal = v.normal;
      shorts = refl;
    } in
    if-Work-false (s.muc_detected && x) _ _ none 0 e (
      if-Work (is_same x s.muc_detected) _ _ none 0 (same_state-Work x _ none 0 counted)
        (changed_state-Work second_gen x p _ none 0 counted))

counted-Work :
    (s : Muc) (w : Option Delay) (n : ℕ)
    → Work s w n
    → Work (record s { muc_detected = false; short_count = s.short_count + 1 }) w (n + 1)
counted-Work s w n v = record {
  work = v.work;
  normal = v.normal;
  shorts = ap (λ x. x + 1) v.shorts;
}

retry_short-if :
    (c : Bool) (s : Muc) (n : ℕ)
    → ltb n short_max_retries ≡ c
    → Work s none n
    → Work (retry_short s) (if c then some det_hysteresis else none) (n + 1)
retry_short-if true s n e v =
    if-Work-true (ltb s.short_count short_max_retries) _ _ (some det_hysteresis) (n + 1)
      (ap (λ x. ltb x short_max_retries) v.shorts ∙ e)
      (queue_isr_work-Work det_hysteresis _ (n + 1) (counted-Work s none n v))
retry_short-if false s n e v =
    if-Work-false (ltb s.short_count short_max_retries) _ _ none (n + 1)
      (ap (λ x. ltb x short_max_retries) v.shorts ∙ e)
      (same-Work _ _ none (n + 1) refl refl refl (counted-Work s none n v))

-- A short queues a detection until there were too many in a row.
pub handle_short-Work :
    (c : Bool) (s : Muc) (n : ℕ)
    → ltb n short_max_retries ≡ c
    → Work s none n
    → Work (handle_short s) (if c then some det_hysteresis else none) (n + 1)
unfolding handle_short
handle_short-Work c s n e v =
    let cut =
      same-Work s (record (power_off s) { pinctrl_disconnect = true }) none n refl refl refl v in
    let told =
      if-Work s.muc_detected _ _ none n
        (same-Work _
          (attach_notifier_call_chain false (record (power_off s) { pinctrl_disconnect = true }))
          none n refl refl refl cut)
        cut in
    let off = forced_off (record (power_off s) { pinctrl_disconnect = true }) in
    retry_short-if c (report_short off) n e (
      if-Work (off.short_count == 0) _ off none n (same-Work off _ none n refl refl refl told) told)
