-- ===== src/ModService/Backoff.antt =====
-- How many recoveries are tried before the power is switched off.
use motorola_external_greybu.Prelude.{
  ℕ, ◌+◌, ◌*◌, ◌%◌, ◌^◌, ◌≡◌, ◌≤◌, ◌<◌, ◌⊎◌, refl, ap, sym, ◌∙◌, Bool, true, false, inl, inr,
  Bool-cases, List, [], ◌∷◌, All, length, ltb, ◌==◌, if◌then◌else◌, arith,
}
use motorola_external_greybu.ModService.Recovery.{
  Watchdog, Recovered, Level, muc_poweroff, do_muc_recovery_level, recovery, recoveries,
}

-- `time_after_eq` of times that are less than half of the range apart
pub record TimeLaw (time_after_eq : ℕ → ℕ → Bool) : Type 0 where
  pub before : (a b : ℕ) → a < b → b < 2 ^ 63 → time_after_eq a b ≡ false

-- What failures do after some counted ones: the sixth one switches the power off, and so on from there; the others make
-- a recovery of the level.
abbrev pub schedule : Level → ℕ → List ℕ → List Recovered
schedule level n [] = []
schedule level n (t ∷ ts) =
    (if n % 6 == 5 then muc_poweroff else do_muc_recovery_level level) ∷ schedule level (n + 1) ts

schedule-wraps :
    (level : Level) (n m : ℕ) (ts : List ℕ)
    → n % 6 ≡ m % 6
    → schedule level n ts ≡ schedule level m ts
schedule-wraps level n m [] e = refl
schedule-wraps level n m (t ∷ ts) e =
    ap
      (λ k.
        (if k == 5 then muc_poweroff else do_muc_recovery_level level) ∷ schedule level (n + 1) ts)
      e
    ∙ ap (λ rest. (if m % 6 == 5 then muc_poweroff else do_muc_recovery_level level) ∷ rest)
        (schedule-wraps level (n + 1) (m + 1) ts (omega (arith, e)))

-- One failure after some counted ones
schedule-cons :
    (level : Level) (n : ℕ) (t : ℕ) (ts : List ℕ) (b : Bool)
    → (n % 6 == 5) ≡ b
    → schedule level n (t ∷ ts)
      ≡ (if b then muc_poweroff else do_muc_recovery_level level) ∷ schedule level (n + 1) ts
schedule-cons level n t ts b e =
    ap (λ c. (if c then muc_poweroff else do_muc_recovery_level level) ∷ schedule level (n + 1) ts)
      e

module _ (time_after_eq : ℕ → ℕ → Bool) (law : TimeLaw time_after_eq) (hz start : ℕ)
    (small : start + 2 * (300 * hz) < 2 ^ 63) where
  -- The times in one window
  abbrev pub InWindow : ℕ → Type 0
  InWindow t = (start ≤ t) × (t < start + 300 * hz)

  -- At most five failures are counted, and the first of them was in the window.
  abbrev pub Counting : Watchdog → Type 0
  Counting d = (d.fail_count ≤ 5) × ((d.fail_count ≡ 0) ⊎ InWindow d.first_fail)

  not_expired :
      (t f : ℕ) → InWindow t → InWindow f → time_after_eq t ((f + 300 * hz) % 2 ^ 64) ≡ false
  not_expired t f (lo, hi) (lo', hi') =
      let e : (f + 300 * hz) % 2 ^ 64 ≡ f + 300 * hz = omega arith in
      ap (time_after_eq t) e ∙ law.before t (f + 300 * hz) (omega arith) (omega arith)

  first_InWindow :
      (t : ℕ) (d : Watchdog)
      → Counting d
      → InWindow t
      → InWindow (if d.fail_count == 0 then t else d.first_fail)
  first_InWindow t d (c, inl z) w = let y : (d.fail_count == 0) ≡ true = ground arith in rw y w
  first_InWindow t d (c, inr v) w = elim (Bool-cases (d.fail_count == 0)) [
    | inl y ↦ rw y w
    | inr y ↦ rw y v
  ]

  -- The sixth failure switches the power off, and any other is counted.
  last_failure :
      (t : ℕ) (d : Watchdog)
      → Counting d
      → InWindow t
      → d.fail_count ≡ 5
      → ((recovery time_after_eq hz false t d).0.fail_count ≡ 0)
        × ((recovery time_after_eq hz false t d).1 ≡ muc_poweroff)
  unfolding recovery
  last_failure t d c w five =
      let f = if d.fail_count == 0 then t else d.first_fail in
      let e = not_expired t f w (first_InWindow t d c w) in rw (e, five, recovery) (refl, refl)

  counted :
      (t : ℕ) (d : Watchdog)
      → Counting d
      → InWindow t
      → d.fail_count < 5
      → let r = recovery time_after_eq hz false t d in
        (r.0.fail_count ≡ d.fail_count + 1)
        × InWindow r.0.first_fail
        × (r.1 ≡ do_muc_recovery_level d.recovery_level)
  unfolding recovery
  counted t d c w few =
      let f = if d.fail_count == 0 then t else d.first_fail in
      let v = first_InWindow t d c w in
      let e = not_expired t f w v in
      let n : (d.fail_count + 1) % 256 ≡ d.fail_count + 1 = omega arith in
      let g : ltb 5 (d.fail_count + 1) ≡ false = ground arith in
      rw (e, n, g, recovery) (refl, v, refl)

  level-kept :
      (t : ℕ) (d : Watchdog)
      → (recovery time_after_eq hz false t d).0.recovery_level ≡ d.recovery_level
  unfolding recovery
  level-kept t d = ground arith

  -- If no module is there and failures come within one window of five minutes after at most five counted ones,
  -- then each sixth failure, the counted ones included, switches the power off, and each other one makes a recovery of
  -- the level that is set; what is counted at the end is the rest of the division by six. The times are below half of
  -- the range of the clock, where `time_after_eq` compares them.
  pub recoveries-schedule :
      (ts : List ℕ) (d : Watchdog)
      → Counting d
      → All InWindow ts
      → ((recoveries time_after_eq hz ts d).1 ≡ schedule d.recovery_level d.fail_count ts)
        × ((recoveries time_after_eq hz ts d).0.fail_count ≡ (d.fail_count + length ts) % 6)
  unfolding recoveries
  recoveries-schedule [] d c w = (refl, omega (arith, c.0))
  recoveries-schedule (t ∷ ts) d c w =
      let r = recovery time_after_eq hz false t d in
      let rest = (recoveries time_after_eq hz ts r.0).1 in
      let level = d.recovery_level in
      let n = d.fail_count in
      let same = ap (λ l. schedule l r.0.fail_count ts) (level-kept t d) in
      elim (Bool-cases (n == 5)) [
        | inl y ↦
            let five : n ≡ 5 = ground arith in
            let (zero_count, act) = last_failure t d c w.0 five in
            let (p, q) =
              recoveries-schedule ts r.0 (omega (arith, zero_count), inl zero_count) w.1 in
            let sixth : (n % 6 == 5) ≡ true = ap (λ k. k % 6 == 5) five in
            (
              ap (λ a. a ∷ rest) act
                  ∙ ap (λ l. muc_poweroff ∷ l)
                      (p
                        ∙ same
                        ∙ schedule-wraps level r.0.fail_count (n + 1) ts
                            (omega (arith, zero_count, five)))
                  ∙ sym (schedule-cons level n t ts true sixth),
              omega (arith, q, zero_count, five),
            )
        | inr y ↦
            let few : n < 5 = ground (arith, c.0) in
            let (more, v, act) = counted t d c w.0 few in
            let (p, q) = recoveries-schedule ts r.0 (omega (arith, more, few), inr v) w.1 in
            let rem : n % 6 ≡ n = omega (arith, few) in
            let other : (n % 6 == 5) ≡ false = ap (λ k. k == 5) rem ∙ y in
            (
              ap (λ a. a ∷ rest) act
                  ∙ ap (λ l. do_muc_recovery_level level ∷ l)
                      (p
                        ∙ same
                        ∙ schedule-wraps level r.0.fail_count (n + 1) ts (omega (arith, more)))
                  ∙ sym (schedule-cons level n t ts false other),
              omega (arith, q, more),
            )
      ]
