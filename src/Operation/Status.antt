-- ===== src/Operation/Status.antt =====
-- The results on the wire: `gb_operation_status_map` and `gb_operation_errno_map`.
use motorola_external_greybu.Prelude.{
  ℕ, ◌≡◌, ◌<◌, ◌⊎◌, ◌↔◌, inl, inr, refl, In, List, [], ◌∷◌, ◌==◌, if◌then◌else◌, arith,
}
use motorola_external_greybu.Prelude.Errno.{
  Errno, success, eintr, etimedout, enomem, eprotonosupport, emsgsize, einval, eagain, enodev,
  eilseq, eio,
}

-- `gb_operation_status_map`
unfoldable pub status_map : ℕ → Errno
status_map status =
    if status == 0
    then success
    else if status == 1
    then eintr
    else if status == 2
    then etimedout
    else if status == 3
    then enomem
    else if status == 4
    then eprotonosupport
    else if status == 5
    then emsgsize
    else if status == 6
    then einval
    else if status == 7
    then eagain
    else if status == 8
    then enodev
    else if status == 255
    then eilseq
    else eio

-- `gb_operation_errno_map`
unfoldable pub errno_map : Errno → ℕ
errno_map success = 0
errno_map eintr = 1
errno_map etimedout = 2
errno_map enomem = 3
errno_map eprotonosupport = 4
errno_map emsgsize = 5
errno_map einval = 6
errno_map eagain = 7
errno_map eilseq = 255
errno_map enodev = 8
errno_map _ = 254

-- The results that have a status of their own, -EIO included
abbrev pub wire_results : List Errno
wire_results =
    success ∷ eintr ∷ etimedout ∷ enomem ∷ eprotonosupport ∷ emsgsize ∷ einval ∷ eagain ∷ eilseq
    ∷ enodev ∷ eio ∷ []

-- A result that travels in a response is the same at the other end if it has a status of its own, and is
-- -EIO there otherwise; in no case does a failure arrive as a success, or a success as a failure.
pub status_map-errno_map :
    (e : Errno)
    → ((In e wire_results × (status_map (errno_map e) ≡ e)) ⊎ (status_map (errno_map e) ≡ eio))
      × (errno_map e < 256)
      × ((status_map (errno_map e) ≡ success) ↔ (e ≡ success))
unfolding status_map errno_map
status_map-errno_map success = (inl ((inl refl), refl), omega arith, (λ h. refl, λ h. refl))
status_map-errno_map eintr = (inl ((inr (inl refl)), refl), omega arith, (λ h. h, λ h. h))
status_map-errno_map etimedout = (inl ((inr (inr (inl refl))), refl), omega arith, (λ h. h, λ h. h))
status_map-errno_map enomem =
    (inl ((inr (inr (inr (inl refl)))), refl), omega arith, (λ h. h, λ h. h))
status_map-errno_map eprotonosupport =
    (inl ((inr (inr (inr (inr (inl refl))))), refl), omega arith, (λ h. h, λ h. h))
status_map-errno_map emsgsize =
    (inl ((inr (inr (inr (inr (inr (inl refl)))))), refl), omega arith, (λ h. h, λ h. h))
status_map-errno_map einval =
    (inl ((inr (inr (inr (inr (inr (inr (inl refl))))))), refl), omega arith, (λ h. h, λ h. h))
status_map-errno_map eagain = (
  inl ((inr (inr (inr (inr (inr (inr (inr (inl refl)))))))), refl),
  omega arith,
  (λ h. h, λ h. h),
)
status_map-errno_map eilseq = (
  inl ((inr (inr (inr (inr (inr (inr (inr (inr (inl refl))))))))), refl),
  omega arith,
  (λ h. h, λ h. h),
)
status_map-errno_map enodev = (
  inl ((inr (inr (inr (inr (inr (inr (inr (inr (inr (inl refl)))))))))), refl),
  omega arith,
  (λ h. h, λ h. h),
)
status_map-errno_map eio = (
  inl ((inr (inr (inr (inr (inr (inr (inr (inr (inr (inr (inl refl))))))))))), refl),
  omega arith,
  (λ h. h, λ h. h),
)
status_map-errno_map e = (inr refl, omega arith, (λ h. absurd (cc), λ h. absurd (cc)))
