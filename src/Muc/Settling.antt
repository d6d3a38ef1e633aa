-- ===== src/Muc/Settling.antt =====
-- The works that muc_gpio.c queues come to an end.
use motorola_external_greybu.Prelude.{
  ℕ, zero, suc, ◌≡◌, refl, ap, ◌∙◌, sym, subst, ◌&&◌, Bool, true, false, not, Bool-cases, inl, inr,
  Option, none, some, if◌then◌else◌, arith,
}
use motorola_external_greybu.Muc.State.{Muc, Readings, Delay, is_disabled, det_hysteresis}
use motorola_external_greybu.Muc.Detection.{
  is_short, after_short_test, detect, handle_detection, attach_work,
}
use motorola_external_greybu.Muc.Port.{
  Port, off, powered, attached, is_attached, Shows, last_notified,
}
use motorola_external_greybu.Muc.Refines.{next_port}
use motorola_external_greybu.Muc.ResetPorts.{attach_work-Shows}
use motorola_external_greybu.Muc.Work.{
  Work, if-Work-true, if-Work-false, after_short_test-Work, detect-Work, detect-removal,
  detect-kept,
}

-- The queued work runs so many times at most, while the levels stay as they are.
abbrev pub run : Bool → Readings → ℕ → Muc → Muc
run second_gen p zero s = s
run second_gen p (suc n) s = elim s.queued [
  | none ↦ s
  | some _ ↦ run second_gen p n (attach_work second_gen p s)
]

-- The levels do not change while a module gets its power.
pub record Stable (p : Readings) : Type 0 where
  pub settled : p.det_n_settled ≡ p.det_n
  pub no_short : is_short p ≡ false

pub fresh-Work :
    (s : Muc) → Work (record s { queued = none; force_removal = false }) none s.short_count
fresh-Work s = record { work = refl; normal = refl; shorts = refl }

if_detected :
    (c : Bool) (s t : Muc) (d : Bool)
    → s.muc_detected ≡ d
    → t.muc_detected ≡ d
    → (if c then s else t).muc_detected ≡ d
if_detected true s t d e f = e
if_detected false s t d e f = f

-- A detection without a short
module _ (second_gen force : Bool) (p : Readings) (s : Muc) (no_short : is_short p ≡ false) where
  handle_detection-Work :
      (w : Option Delay)
      → ((t : Muc)
          → Work t none s.short_count
          → t.muc_detected ≡ s.muc_detected
          → Work (detect second_gen force (not p.det_n) p t) w 0)
      → Work s none s.short_count
      → Work (handle_detection second_gen force p s) w 0
  unfolding handle_detection
  handle_detection-Work w f v = elim (Bool-cases (not p.det_n && is_disabled s.bplus_state)) [
    | inl y ↦ if-Work-true _ _ _ w 0 y (
        if-Work-false (is_short p) _ _ w 0 no_short (
          f (after_short_test p s) (after_short_test-Work p s none s.short_count v)
            (if_detected p.int_n _ _ s.muc_detected refl refl)))
    | inr y ↦ if-Work-false _ _ _ w 0 y (f s v refl)
  ]

handle_detection-normal :
    (second_gen force : Bool) (p : Readings) (s : Muc)
    → is_short p ≡ false
    → (force && s.muc_detected && not p.det_n) ≡ false
    → Work s none s.short_count
    → Work (handle_detection second_gen force p s) none 0
handle_detection-normal second_gen false p s h e v =
    handle_detection-Work second_gen false p s h none
      (λ t u g. detect-Work second_gen (not p.det_n) p t s.short_count u) v
handle_detection-normal second_gen true p s h e v =
    handle_detection-Work second_gen true p s h none
      (λ t u g.
        detect-kept second_gen (not p.det_n) p t s.short_count (ap (λ x. x && not p.det_n) g ∙ e) u)
      v

handle_detection-removal :
    (second_gen force : Bool) (p : Readings) (s : Muc)
    → is_short p ≡ false
    → (force && s.muc_detected && not p.det_n) ≡ true
    → Work s none s.short_count
    → Work (handle_detection second_gen force p s) (some det_hysteresis) 0
handle_detection-removal second_gen false p s h e v = absurd (ground arith)
handle_detection-removal second_gen true p s h e v =
    handle_detection-Work second_gen true p s h (some det_hysteresis)
      (λ t u g.
        detect-removal second_gen (not p.det_n) p t s.short_count (ap (λ x. x && not p.det_n) g ∙ e)
          u)
      v

-- The port after a detection that removes nothing by force
port_settled :
    (force : Bool) (p : Readings) (q : Port)
    → Stable p
    → (force && is_attached q && not p.det_n) ≡ false
    → is_attached (next_port force p q) ≡ not p.det_n
port_settled force p off h e = let n = h.no_short in let t = h.settled in ground arith
port_settled force p powered h e = ground arith
port_settled force p attached h e = ground arith

port_removed :
    (force : Bool) (p : Readings) (q : Port)
    → (force && is_attached q && not p.det_n) ≡ true
    → next_port force p q ≡ off
port_removed force p off e = absurd (ground arith)
port_removed force p powered e = absurd (ground arith)
port_removed force p attached e = ground arith

pub run-some :
    (second_gen : Bool) (p : Readings) (n : ℕ) (s : Muc) (d : Delay)
    → s.queued ≡ some d
    → run second_gen p (suc n) s ≡ run second_gen p n (attach_work second_gen p s)
run-some second_gen p n s d e =
    ap
      (λ (x : Option Delay). elim x [
        | none ↦ s
        | some _ ↦ run second_gen p n (attach_work second_gen p s)
      ])
      e

pub run-none :
    (second_gen : Bool) (p : Readings) (n : ℕ) (s : Muc)
    → s.queued ≡ none
    → run second_gen p n s ≡ s
run-none second_gen p zero s e = refl
run-none second_gen p (suc n) s e =
    ap
      (λ (x : Option Delay). elim x [
        | none ↦ s
        | some _ ↦ run second_gen p n (attach_work second_gen p s)
      ])
      e

-- Nothing is queued, and what is recorded and what the clients were told last is whether the module is there.
abbrev pub Settled : Readings → Muc → Type 0
Settled p t =
    (t.queued ≡ none) × (t.muc_detected ≡ not p.det_n) × (last_notified t.log ≡ not p.det_n)

module _ (second_gen : Bool) (p : Readings) (h : Stable p) where
  attach_work-Settled :
      (s : Muc) (q : Port)
      → Shows s q
      → (s.force_removal && s.muc_detected && not p.det_n) ≡ false
      → Settled p (attach_work second_gen p s)
  unfolding attach_work
  attach_work-Settled s q v e =
      let shown = attach_work-Shows second_gen p s q v in
      let here : is_attached (next_port s.force_removal p q) ≡ not p.det_n =
        port_settled s.force_removal p q h
          (ap (λ x. s.force_removal && x && not p.det_n) (sym v.detected) ∙ e) in
      let done =
        handle_detection-normal second_gen s.force_removal p _ h.no_short e (fresh-Work s) in
      (done.work, shown.detected ∙ here, shown.notified ∙ here)

  attach_work-removal :
      (s : Muc) (q : Port)
      → Shows s q
      → (s.force_removal && s.muc_detected && not p.det_n) ≡ true
      → Work (attach_work second_gen p s) (some det_hysteresis) 0
  unfolding attach_work
  attach_work-removal s q v e =
      handle_detection-removal second_gen s.force_removal p _ h.no_short e (fresh-Work s)

  -- If a detection is queued, and the levels of the GPIOs stay as they are and show no short, then two runs of
  -- the queued work at most leave nothing queued, with the module recorded as detected, and the clients told
  -- so, exactly if DET_N shows that it is there.
  pub run-Settled :
      (s : Muc) (q : Port) (d : Delay)
      → Shows s q
      → s.queued ≡ some d
      → Settled p (run second_gen p 2 s)
  run-Settled s q d v e =
      let s' = attach_work second_gen p s in
      elim (Bool-cases (s.force_removal && s.muc_detected && not p.det_n)) [
        | inl y ↦
            let w = attach_work-removal s q v y in
            let q' = next_port s.force_removal p q in
            let last =
              attach_work-Settled s' q' (attach_work-Shows second_gen p s q v)
                (ap (λ x. x && s'.muc_detected && not p.det_n) w.normal) in
            subst (λ t. Settled p t)
              (sym
                (run-some second_gen p 1 s d e ∙ run-some second_gen p 0 s' det_hysteresis w.work))
              last
        | inr y ↦
            let last = attach_work-Settled s q v y in
            subst (λ t. Settled p t)
              (sym (run-some second_gen p 1 s d e ∙ run-none second_gen p 1 s' (last.0))) last
      ]
