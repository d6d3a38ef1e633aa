-- ===== src/Connection/Accounting.antt =====
-- The accounting of timeouts in connection.c.
use motorola_external_greybu.Prelude.{
  ℕ, zero, suc, ◌+◌, ◌%◌, ◌/◌, ◌<◌, ◌≡◌, refl, ap, ◌∙◌, ◌||◌, ltb, ◌==◌, Bool, true, false, not,
  Bool-cases, inl, inr, List, [], ◌∷◌, ◌++◌, if◌then◌else◌, arith,
}
use motorola_external_greybu.Prelude.Errno.{Errno, etimedout}

-- The fields of `struct gb_host_device` for the recovery, and how often it was recovered. The last field is
-- whether the driver has a function for it.
pub record Recovery : Type 0 where
  pub timeout_counter : ℕ
  pub max_timeouts : ℕ
  pub recovered : ℕ
  pub has_recovery : Bool

abbrev pub is_timeout : Errno → Bool
is_timeout ret = elim ret [ etimedout ↦ true | _ ↦ false ]

-- `gb_connection_error_accounting` for a connection of this host device
unfoldable pub error_accounting : Errno → Recovery → Recovery
error_accounting ret hd =
    if not hd.has_recovery || (hd.max_timeouts == 0)
    then hd
    else if not (is_timeout ret)
    then record hd { timeout_counter = 0 }
    else if ltb (hd.timeout_counter + 1) hd.max_timeouts
    then record hd { timeout_counter = hd.timeout_counter + 1 }
    else record hd { timeout_counter = 0; recovered = hd.recovered + 1 }

abbrev pub account : List Errno → Recovery → Recovery
account [] hd = hd
account (e ∷ es) hd = account es (error_accounting e hd)

abbrev pub timeouts : ℕ → List Errno
timeouts zero = []
timeouts (suc n) = etimedout ∷ timeouts n

-- The fields after a number of timeouts in a row, by division
abbrev pub counts : ℕ → ℕ → Recovery → Recovery
counts counter recovered hd = record hd { timeout_counter = counter; recovered = recovered }

-- A host device that can be recovered
abbrev pub IsValid : Recovery → Type 0
IsValid hd = (hd.has_recovery ≡ true) × (hd.timeout_counter < hd.max_timeouts)

counts_equal : (a b c d : ℕ) (hd : Recovery) → a ≡ b → c ≡ d → counts a c hd ≡ counts b d hd
counts_equal a b c d hd e f = ap (λ x. counts x c hd) e ∙ ap (λ x. counts b x hd) f

error_accounting-timeout :
    (hd : Recovery)
    → IsValid hd
    → error_accounting etimedout hd ≡ (
        if ltb (hd.timeout_counter + 1) hd.max_timeouts
        then counts (hd.timeout_counter + 1) hd.recovered hd
        else counts 0 (hd.recovered + 1) hd)
unfolding error_accounting
error_accounting-timeout hd (h, k) =
    let on : (not hd.has_recovery || (hd.max_timeouts == 0)) ≡ false = ground arith in
    ap
      (λ x.
        if x
        then hd
        else if ltb (hd.timeout_counter + 1) hd.max_timeouts
        then counts (hd.timeout_counter + 1) hd.recovered hd
        else counts 0 (hd.recovered + 1) hd)
      on

wrap : (n c m : ℕ) → c + 1 ≡ m → (0 + n) % m ≡ (c + suc n) % m
wrap n c m e = grind arith

wrap_count : (n c m r : ℕ) → c + 1 ≡ m → (r + 1) + (0 + n) / m ≡ r + (c + suc n) / m
wrap_count n c m r e = grind arith

account-timeouts :
    (n : ℕ) (hd : Recovery)
    → IsValid hd
    → account (timeouts n) hd
      ≡ counts
          ((hd.timeout_counter + n) % hd.max_timeouts)
          (hd.recovered + (hd.timeout_counter + n) / hd.max_timeouts)
          hd
account-timeouts zero hd (h, k) =
    counts_equal hd.timeout_counter _ hd.recovered _ hd (grind arith) (grind arith)
account-timeouts (suc n) hd (h, k) =
    elim (Bool-cases (ltb (hd.timeout_counter + 1) hd.max_timeouts)) [
      | inl y ↦
          let below : hd.timeout_counter + 1 < hd.max_timeouts = ground arith in
          ap (account (timeouts n)) (
            error_accounting-timeout hd (h, k)
            ∙ ap
                (λ x.
                  if x
                  then counts (hd.timeout_counter + 1) hd.recovered hd
                  else counts 0 (hd.recovered + 1) hd)
                y)
          ∙ account-timeouts n (counts (hd.timeout_counter + 1) hd.recovered hd) (h, below)
          ∙ counts_equal _ _ _ _ hd (ap (λ x. x % hd.max_timeouts) (omega arith))
              (ap (λ x. hd.recovered + x / hd.max_timeouts) (omega arith))
      | inr y ↦
          let full : hd.timeout_counter + 1 ≡ hd.max_timeouts = ground arith in
          let some_ : 0 < hd.max_timeouts = omega (arith, k) in
          ap (account (timeouts n)) (
            error_accounting-timeout hd (h, k)
            ∙ ap
                (λ x.
                  if x
                  then counts (hd.timeout_counter + 1) hd.recovered hd
                  else counts 0 (hd.recovered + 1) hd)
                y)
          ∙ account-timeouts n (counts 0 (hd.recovered + 1) hd) (h, some_)
          ∙ counts_equal _ _ _ _ hd (wrap n hd.timeout_counter hd.max_timeouts full)
              (wrap_count n hd.timeout_counter hd.max_timeouts hd.recovered full)
    ]

error_accounting-IsValid :
    (e : Errno) (hd : Recovery) → IsValid hd → IsValid (error_accounting e hd)
unfolding error_accounting
error_accounting-IsValid e hd (h, k) = (ground arith, ground arith)

account-IsValid : (es : List Errno) (hd : Recovery) → IsValid hd → IsValid (account es hd)
account-IsValid [] hd h = h
account-IsValid (e ∷ es) hd h = account-IsValid es _ (error_accounting-IsValid e hd h)

account-append :
    (es fs : List Errno) (hd : Recovery) → account (es ++ fs) hd ≡ account fs (account es hd)
account-append [] fs hd = refl
account-append (e ∷ es) fs hd = account-append es fs (error_accounting e hd)

error_accounting-answer :
    (e : Errno) (hd : Recovery)
    → IsValid hd
    → is_timeout e ≡ false
    → (error_accounting e hd).timeout_counter ≡ 0
unfolding error_accounting
error_accounting-answer e hd (h, k) a = ground arith

-- Whatever happened before, if an answer has come, and then some timeouts in a row, the host device was
-- recovered at each `max_timeouts`-th one of them and at no other, and the counter is the rest. The host driver
-- has a function for the recovery, and the counter was below its maximum, which is not 0, at the start.
pub account-recovers :
    (es : List Errno) (e : Errno) (n : ℕ) (hd : Recovery)
    → IsValid hd
    → is_timeout e ≡ false
    → let before = account (es ++ (e ∷ [])) hd in
      account (timeouts n) before
      ≡ counts (n % before.max_timeouts) (before.recovered + n / before.max_timeouts) before
account-recovers es e n hd h a =
    let before = account (es ++ (e ∷ [])) hd in
    let here = account-append es (e ∷ []) hd in
    let zeroed : before.timeout_counter ≡ 0 =
      ap (λ (r : Recovery). r.timeout_counter) here
      ∙ error_accounting-answer e (account es hd) (account-IsValid es hd h) a in
    let count : before.timeout_counter + n ≡ n = omega (arith, zeroed) in
    account-timeouts n before (account-IsValid (es ++ (e ∷ [])) hd h)
    ∙ counts_equal _ _ _ _ before (ap (λ x. x % before.max_timeouts) count)
        (ap (λ x. before.recovered + x / before.max_timeouts) count)
