-- ===== src/Operation/Results.antt =====
-- The result of an operation: `gb_operation_result_set`.
use motorola_external_greybu.Prelude.{◌≡◌, refl, Bool, true, false, List, [], ◌∷◌, if◌then◌else◌}
use motorola_external_greybu.Prelude.Errno.{Errno, ebadr, eilseq, einprogress}

unfoldable pub is_ebadr : Errno → Bool
is_ebadr ebadr = true
is_ebadr _ = false

unfoldable pub is_einprogress : Errno → Bool
is_einprogress einprogress = true
is_einprogress _ = false

-- A result, where -EBADR stands for an implementation error
unfoldable pub settle : Errno → Errno
settle result = if is_ebadr result then eilseq else result

-- `gb_operation_result_set` on the field `errno`: its new value, and what is returned.
unfoldable pub result_set : Errno → Errno → Errno × Bool
result_set prev result =
    if is_einprogress result
    then (if is_ebadr prev then einprogress else eilseq, true)
    else if is_einprogress prev
    then (settle result, true)
    else (prev, false)

-- The calls that race to set the result, in the order in which they take the lock: the value in the end,
-- and what each call was told.
unfoldable pub set_all : Errno → List Errno → Errno × List Bool
set_all errno [] = (errno, [])
set_all errno (r ∷ rs) =
    let step = result_set errno r in let rest = set_all step.0 rs in (rest.0, step.1 ∷ rest.1)

-- None of the results is -EINPROGRESS.
abbrev pub Final : List Errno → Type 0
Final [] = Unit
Final (r ∷ rs) = (is_einprogress r ≡ false) × Final rs

-- Every call is told that its result was not recorded.
abbrev pub refused : List Errno → List Bool
refused [] = []
refused (r ∷ rs) = false ∷ refused rs

settle_final : (r : Errno) → is_einprogress r ≡ false → is_einprogress (settle r) ≡ false
unfolding settle is_ebadr is_einprogress
settle_final ebadr h = refl
settle_final r h = h

sticks :
    (e : Errno) (rs : List Errno)
    → is_einprogress e ≡ false
    → Final rs
    → set_all e rs ≡ (e, refused rs)
unfolding set_all result_set
sticks e [] h f = refl
sticks e (r ∷ rs) h (k, f) =
    let ih = sticks e rs h f in rw (h, k, set_all, result_set) (rw (ih, set_all) refl)

-- Once -EINPROGRESS is set on a new operation, the first of the results that the racing calls set is
-- the operation's for good, and only that call is told that it was recorded, if none of them sets
-- -EINPROGRESS again. A result of -EBADR counts as -EILSEQ.
pub set_all_sticks :
    (r : Errno) (rs : List Errno)
    → Final (r ∷ rs)
    → set_all ebadr (einprogress ∷ r ∷ rs) ≡ (settle r, true ∷ true ∷ refused rs)
unfolding set_all result_set is_einprogress is_ebadr
set_all_sticks r rs (h, f) =
    rw (h, set_all, result_set) (rw (sticks (settle r) rs (settle_final r h) f, set_all) refl)
