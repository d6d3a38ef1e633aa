-- ===== src/Muc/Refines.antt =====
-- A detection in muc_gpio.c does to the port what the port's rules say.
use motorola_external_greybu.Prelude.{
  ◌≡◌, refl, ap, subst, ◌&&◌, Bool, true, false, not, if◌then◌else◌, ◌∙◌, arith,
}
use motorola_external_greybu.Muc.State.{Muc, Readings, is_disabled, disabled}
use motorola_external_greybu.Muc.Detection.{
  is_short, after_short_test, handle_short, detect, handle_detection,
}
use motorola_external_greybu.Muc.Port.{
  Port, off, powered, attached, Shows, is_attached, has_power, bplus_of, if-View-true,
  if-View-false, after_short_test-View, handle_short-Shows,
}
use motorola_external_greybu.Muc.Detects.{next_found, port_of, detect-Shows}

-- What a detection does to the port, from the levels that it reads and whether a removal is forced
abbrev pub next_port : Bool → Readings → Port → Port
next_port force p off =
    if p.det_n then off else if is_short p then off else if p.det_n_settled then off else attached
next_port force p powered = if p.det_n then powered else attached
next_port force p attached = if p.det_n then off else if force then off else attached

port_of-not : (settled : Bool) → port_of (not settled) ≡ (if settled then off else attached)
port_of-not true = refl
port_of-not false = refl

next_found-powered :
    (force det_n : Bool) (p : Readings)
    → next_found force (not det_n) p powered ≡ (if det_n then powered else attached)
next_found-powered force true p = refl
next_found-powered force false p = refl

next_found-attached :
    (force det_n : Bool) (p : Readings)
    → next_found force (not det_n) p attached
      ≡ (if det_n then off else if force then off else attached)
next_found-attached force true p = refl
next_found-attached force false p = refl

-- The test for a short, which is made only without power
module _ (second_gen force : Bool) (p : Readings) (s : Muc) (q : Port) where
  handle_detection-untested :
      (not p.det_n && is_disabled s.bplus_state) ≡ false
      → Shows (detect second_gen force (not p.det_n) p s) q
      → Shows (handle_detection second_gen force p s) q
  unfolding handle_detection
  handle_detection-untested e v =
      if-View-false _ _ _ (is_attached q) (is_attached q) (has_power q) (bplus_of q) e v

  handle_detection-short :
      (not p.det_n && is_disabled s.bplus_state) ≡ true
      → is_short p ≡ true
      → Shows (handle_short (after_short_test p s)) q
      → Shows (handle_detection second_gen force p s) q
  unfolding handle_detection
  handle_detection-short e f v =
      if-View-true _ _ _ (is_attached q) (is_attached q) (has_power q) (bplus_of q) e
        (if-View-true _ _ _ (is_attached q) (is_attached q) (has_power q) (bplus_of q) f v)

  handle_detection-tested :
      (not p.det_n && is_disabled s.bplus_state) ≡ true
      → is_short p ≡ false
      → Shows (detect second_gen force (not p.det_n) p (after_short_test p s)) q
      → Shows (handle_detection second_gen force p s) q
  unfolding handle_detection
  handle_detection-tested e f v =
      if-View-true _ _ _ (is_attached q) (is_attached q) (has_power q) (bplus_of q) e
        (if-View-false _ _ _ (is_attached q) (is_attached q) (has_power q) (bplus_of q) f v)

plugged_off :
    (det_n off_now : Bool) → det_n ≡ false → off_now ≡ true → (not det_n && off_now) ≡ true
plugged_off det_n off_now e f = ground arith

unplugged_off : (det_n off_now : Bool) → det_n ≡ true → (not det_n && off_now) ≡ false
unplugged_off det_n off_now e = ground arith

still_on : (det_n off_now : Bool) → off_now ≡ false → (not det_n && off_now) ≡ false
still_on det_n off_now e = ground arith

handle_detection-off :
    (second_gen force det_n short : Bool) (p : Readings) (s : Muc)
    → p.det_n ≡ det_n
    → is_short p ≡ short
    → Shows s off
    → Shows
        (handle_detection second_gen force p s)
        (if det_n then off else if short then off else if p.det_n_settled then off else attached)
handle_detection-off second_gen force true short p s e f v =
    handle_detection-untested second_gen force p s off
      (unplugged_off p.det_n (is_disabled s.bplus_state) e)
      (subst
        (λ x. Shows (detect second_gen force (not p.det_n) p s) (next_found force (not x) p off)) e
        (detect-Shows second_gen force (not p.det_n) p s off v))
handle_detection-off second_gen force false true p s e f v =
    handle_detection-short second_gen force p s off
      (plugged_off p.det_n (is_disabled s.bplus_state) e (ap is_disabled v.bplus)) f
      (handle_short-Shows _ false false disabled
        (after_short_test-View p s false false false disabled v))
handle_detection-off second_gen force false false p s e f v =
    let q = if p.det_n_settled then off else attached in
    let s' = after_short_test p s in
    let found =
      detect-Shows second_gen force (not p.det_n) p s' off
        (after_short_test-View p s false false false disabled v) in
    handle_detection-tested second_gen force p s q
      (plugged_off p.det_n (is_disabled s.bplus_state) e (ap is_disabled v.bplus)) f
      (subst (λ r. Shows (detect second_gen force (not p.det_n) p s') r)
        (ap (λ x. next_found force (not x) p off) e ∙ port_of-not p.det_n_settled) found)

-- With power there is no test for a short.
handle_detection-on :
    (second_gen force : Bool) (p : Readings) (s : Muc) (q r : Port)
    → is_disabled s.bplus_state ≡ false
    → Shows s q
    → next_found force (not p.det_n) p q ≡ r
    → Shows (handle_detection second_gen force p s) r
handle_detection-on second_gen force p s q r e v f =
    handle_detection-untested second_gen force p s r
      (still_on p.det_n (is_disabled s.bplus_state) e)
      (subst (λ r. Shows (detect second_gen force (not p.det_n) p s) r) f
        (detect-Shows second_gen force (not p.det_n) p s q v))

-- A detection leads from a state that shows a port to a state that shows the next port, by the rules of
-- `next_port`: without power a module is attached if it is there, has no short, and is still there once its
-- power has settled; with power it is attached if it is there; an attached module is removed if it is gone or
-- the removal is forced.
pub handle_detection-Shows :
    (second_gen force : Bool) (p : Readings) (s : Muc) (q : Port)
    → Shows s q
    → Shows (handle_detection second_gen force p s) (next_port force p q)
handle_detection-Shows second_gen force p s off v =
    handle_detection-off second_gen force p.det_n (is_short p) p s refl refl v
handle_detection-Shows second_gen force p s powered v =
    handle_detection-on second_gen force p s powered _ (ap is_disabled v.bplus) v
      (next_found-powered force p.det_n p)
handle_detection-Shows second_gen force p s attached v =
    handle_detection-on second_gen force p s attached _ (ap is_disabled v.bplus) v
      (next_found-attached force p.det_n p)
