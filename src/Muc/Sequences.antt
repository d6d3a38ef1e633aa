-- ===== src/Muc/Sequences.antt =====
-- Sequences of GPIO writes: `muc_parse_seq` and `muc_seq` in muc_gpio.c.
use motorola_external_greybu.Prelude.{
  ℕ, zero, suc, ◌*◌, ◌/◌, ◌%◌, ◌≡◌, inl, inr, refl, ap, sym, ◌∙◌, ◌||◌, ltb, leb, ◌==◌, Bool, true,
  false, not, Bool-cases, Option, none, some, List, [], ◌∷◌, length, if◌then◌else◌, arith,
}
use motorola_external_greybu.Prelude.Errno.{Errno, success, einval, enodev}

-- A write to a GPIO, which is known by its number, or a pause
pub data Action : Type 0 where
  gpio_set_value : ℕ → ℕ → Action
  msleep : ℕ → Action

-- The GPIO at an index, where `none` is one that the hardware does not have. The array has `MUC_MAX_GPIOS`.
abbrev pub gpio_at : List (Option ℕ) → ℕ → Option ℕ
gpio_at [] i = none
gpio_at (g ∷ gs) zero = g
gpio_at (g ∷ gs) (suc i) = gpio_at gs i

-- `muc_seq`: the actions, or `none` if a write is to a GPIO that is not there or the array is read behind its
-- end.
unfoldable pub muc_seq : List (Option ℕ) → List ℕ → Option (List Action)
muc_seq gpios [] = some []
muc_seq gpios (index ∷ []) = none
muc_seq gpios (index ∷ value ∷ []) = none
muc_seq gpios (index ∷ value ∷ delay ∷ seq) = elim (muc_seq gpios seq) [
  | none ↦ none
  | some rest ↦
      let slept = if delay == 0 then rest else msleep delay ∷ rest in
      if ltb index (length gpios)
      then elim (gpio_at gpios index) [
        | none ↦ none
        | some gpio ↦ some (gpio_set_value gpio value ∷ slept)
      ]
      else some slept
]

-- The loop of `muc_parse_seq` over the indices
unfoldable pub check_indices : List (Option ℕ) → List ℕ → Errno
check_indices gpios [] = success
check_indices gpios (index ∷ []) = success
check_indices gpios (index ∷ value ∷ []) = success
check_indices gpios (index ∷ value ∷ delay ∷ seq) =
    let rest = check_indices gpios seq in
    if leb (length gpios) index
    then enodev
    else elim (gpio_at gpios index) [ none ↦ enodev | some gpio ↦ rest ]

-- `muc_parse_seq` of a property with these values, where the array has room for `len`; `read` is what the
-- kernel's `of_property_read_u32_array` returns.
unfoldable pub parse_seq : List (Option ℕ) → Option (List ℕ) → ℕ → Errno → Errno × List ℕ
unfolding check_indices
parse_seq gpios none len read = (einval, [])
parse_seq gpios (some seq) len read =
    if (length seq == 0) || ltb len (length seq) || not (length seq % 3 == 0)
    then (einval, [])
    else elim read [ success ↦ (check_indices gpios seq, seq) | e ↦ (e, []) ]

-- The sequence runs without a write to a GPIO that is not there.
pub Runs : List (Option ℕ) → List ℕ → Type 0
unfolding muc_seq
Runs gpios seq = (actions : List Action) × (muc_seq gpios seq ≡ some actions)

Runs-next :
    (gpios : List (Option ℕ)) (gpio : Option ℕ) (index value delay : ℕ) (seq : List ℕ)
    → gpio_at gpios index ≡ gpio
    → leb (length gpios) index ≡ false
    → elim gpio [ none ↦ enodev | some g ↦ check_indices gpios seq ] ≡ success
    → (check_indices gpios seq ≡ success → Runs gpios seq)
    → Runs gpios (index ∷ value ∷ delay ∷ seq)
unfolding Runs muc_seq
Runs-next gpios none index value delay seq e h ok f = absurd (ground arith)
Runs-next gpios (some g) index value delay seq e h ok f =
    let (rest, r) = f ok in
    let low : ltb index (length gpios) ≡ true = ground arith in
    (
      gpio_set_value g value ∷ (if delay == 0 then rest else msleep delay ∷ rest),
      rw (r, muc_seq) (rw (low, muc_seq) (rw (e, muc_seq) refl)),
    )

check_indices-Runs :
    (gpios : List (Option ℕ)) (seq : List ℕ) (n : ℕ)
    → length seq ≡ n * 3
    → check_indices gpios seq ≡ success
    → Runs gpios seq
unfolding Runs check_indices muc_seq
check_indices-Runs gpios [] n e ok = ([], refl)
check_indices-Runs gpios (index ∷ []) n e ok = absurd (omega arith)
check_indices-Runs gpios (index ∷ value ∷ []) n e ok = absurd (omega arith)
check_indices-Runs gpios (index ∷ value ∷ delay ∷ seq) zero e ok = absurd (omega arith)
check_indices-Runs gpios (index ∷ value ∷ delay ∷ seq) (suc n) e ok =
    elim (Bool-cases (leb (length gpios) index)) [
      | inl y ↦ absurd (ground arith)
      | inr y ↦
          Runs-next gpios (gpio_at gpios index) index value delay seq refl y
            (sym (
                ap
                  (λ c. if c then enodev else elim (gpio_at gpios index) [
                    | none ↦ enodev
                    | some g ↦ check_indices gpios seq
                  ])
                  y)
              ∙ ok)
            (check_indices-Runs gpios seq n (omega arith))
    ]

parsed_by :
    (c : Bool) (gpios : List (Option ℕ)) (seq : List ℕ) (len : ℕ) (read : Errno)
    → ((length seq == 0) || ltb len (length seq) || not (length seq % 3 == 0)) ≡ c
    → (parse_seq gpios (some seq) len read).0 ≡ success
    → (length seq % 3 ≡ 0)
      × (check_indices gpios seq ≡ success)
      × ((parse_seq gpios (some seq) len read).1 ≡ seq)
unfolding parse_seq
parsed_by true gpios seq len read e ok = absurd (ground arith)
parsed_by false gpios seq len success e ok = (ground arith, ground arith, ground arith)
parsed_by false gpios seq len read e ok = absurd (ground arith)

-- A sequence that `muc_parse_seq` takes is the property's, and `muc_seq` runs it without a read behind its end
-- and without a write to a GPIO that the hardware does not have.
pub muc_seq-parse_seq :
    (gpios : List (Option ℕ)) (seq : List ℕ) (len : ℕ) (read : Errno)
    → (parse_seq gpios (some seq) len read).0 ≡ success
    → ((parse_seq gpios (some seq) len read).1 ≡ seq) × Runs gpios seq
muc_seq-parse_seq gpios seq len read ok =
    let (whole, checked, same) = parsed_by _ gpios seq len read refl ok in
    let n : length seq ≡ (length seq / 3) * 3 = omega (arith, whole) in
    (same, check_indices-Runs gpios seq (length seq / 3) n checked)
