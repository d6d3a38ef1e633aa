-- ===== src/Muc/Shorts.antt =====
-- A short in a module is tested for again so many times at most.
use motorola_external_greybu.Prelude.{
  ℕ, zero, suc, ◌+◌, ◌≤◌, ◌≡◌, refl, ap, ◌∙◌, sym, subst, ◌&&◌, ltb, Bool, true, false, not, none,
  some, if◌then◌else◌, arith,
}
use motorola_external_greybu.Muc.State.{Muc, Readings, Delay, is_disabled, det_hysteresis}
use motorola_external_greybu.Muc.Detection.{
  short_max_retries, is_short, handle_detection, attach_work,
}
use motorola_external_greybu.Muc.Port.{off, Shows}
use motorola_external_greybu.Muc.Refines.{next_port}
use motorola_external_greybu.Muc.ResetPorts.{attach_work-Shows}
use motorola_external_greybu.Muc.Work.{Work, if-Work-true, after_short_test-Work, handle_short-Work}
use motorola_external_greybu.Muc.Settling.{run, run-some, run-none, fresh-Work}

module _ (second_gen : Bool) (p : Readings) (there : p.det_n ≡ false)
    (short : is_short p ≡ true) where
  shorted : (q : Bool) → q ≡ true → (not p.det_n && q) ≡ true
  shorted q e = ground arith

  short_port : (force : Bool) → next_port force p off ≡ off
  short_port force = ground arith

  attach_work-short :
      (c : Bool) (s : Muc)
      → ltb s.short_count short_max_retries ≡ c
      → Shows s off
      → Work
          (attach_work second_gen p s)
          (if c then some det_hysteresis else none)
          (s.short_count + 1)
  unfolding attach_work handle_detection
  attach_work-short c s e v =
      if-Work-true _ _ _ _ (s.short_count + 1)
        (shorted (is_disabled s.bplus_state) (ap is_disabled v.bplus))
        (if-Work-true (is_short p) _ _ _ (s.short_count + 1) short (
          handle_short-Work c _ s.short_count e
            (after_short_test-Work p _ none s.short_count (fresh-Work s))))

  attach_work-off : (s : Muc) → Shows s off → Shows (attach_work second_gen p s) off
  attach_work-off s v =
      subst (λ r. Shows (attach_work second_gen p s) r) (short_port s.force_removal)
        (attach_work-Shows second_gen p s off v)

  -- What a row of shorts comes to
  abbrev GivenUp : Muc → Type 0
  GivenUp t = (t.queued ≡ none) × Shows t off

  run-end :
      (c : Bool) (n : ℕ) (s : Muc) (d : Delay)
      → ltb s.short_count short_max_retries ≡ c
      → Shows s off
      → s.queued ≡ some d
      → short_max_retries ≤ s.short_count + n
      → GivenUp (run second_gen p (suc n) s)
  run-end false n s d e v k h =
      let w = attach_work-short false s e v in
      subst GivenUp
        (sym (
          run-some second_gen p n s d k
          ∙ run-none second_gen p n (attach_work second_gen p s) w.work))
        (w.work, attach_work-off s v)
  run-end true zero s d e v k h = absurd (ground arith)
  run-end true (suc n) s d e v k h =
      let s' = attach_work second_gen p s in
      let w = attach_work-short true s e v in
      let room : short_max_retries ≤ s'.short_count + n = omega (arith, w.shorts, h) in
      subst GivenUp (sym (run-some second_gen p (suc n) s d k)) (
        run-end (ltb s'.short_count short_max_retries) n s' det_hysteresis refl
          (attach_work-off s v) w.work room)

  -- While a module without power is there and has a short, the detection that is queued runs nine times at most
  -- until nothing is queued, and the module is without power then, and the clients were told last that none is
  -- there.
  pub run-GivenUp :
      (s : Muc) (d : Delay)
      → Shows s off
      → s.queued ≡ some d
      → (run second_gen p 9 s).queued ≡ none × Shows (run second_gen p 9 s) off
  run-GivenUp s d v k = run-end (ltb s.short_count short_max_retries) 8 s d refl v k (omega arith)
