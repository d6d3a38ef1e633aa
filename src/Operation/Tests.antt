-- ===== src/Operation/Tests.antt =====
-- Runs of operation.c, and the theorems at them.
use motorola_external_greybu.Prelude.{ℕ, ◌≡◌, refl, true, false, some, List, [], ◌∷◌, arith, All}
use motorola_external_greybu.Prelude.Errno.{success, enodev, ebadr, einprogress, etimedout}
use motorola_external_greybu.Connection.{enabled}
use motorola_external_greybu.Operation.{Message, Operation, overrun}
use motorola_external_greybu.Operation.Results.{
  is_einprogress, set_all, settle, refused, set_all_sticks,
}
use motorola_external_greybu.Operation.Sending.{Driver}
use motorola_external_greybu.Operation.Receiving.{Fits, recv, recv-overrun, le16_at}
use motorola_external_greybu.Operation.Safety.{Ready, Safe, recv-Safe}

-- An outgoing operation whose response has two bytes
abbrev response_buffer : Message
response_buffer = record {
  buffer = 10 ∷ 0 ∷ 1 ∷ 0 ∷ 130 ∷ 0 ∷ 0 ∷ 0 ∷ 0 ∷ 0 ∷ [];
  payload_size = 2;
}

abbrev waiting : Operation
waiting = record {
  number = 1;
  request = record { buffer = 8 ∷ 0 ∷ 1 ∷ 0 ∷ 2 ∷ 0 ∷ 0 ∷ 0 ∷ []; payload_size = 0 };
  response = some response_buffer;
  flags = 0;
  type = 2;
  id = 1;
  errno = einprogress;
  active = 1;
  linked = true;
  kref = 2;
  queued = false;
}

abbrev fresh : Operation
fresh = record {
  number = 1;
  request = record { buffer = 8 ∷ 0 ∷ 0 ∷ 0 ∷ 2 ∷ 0 ∷ 0 ∷ 0 ∷ []; payload_size = 0 };
  response = some response_buffer;
  flags = 0;
  type = 2;
  id = 0;
  errno = ebadr;
  active = 0;
  linked = false;
  kref = 1;
  queued = false;
}

-- The response to the operation, and a request whose header states a size of four
abbrev answer : List ℕ
answer = 10 ∷ 0 ∷ 1 ∷ 0 ∷ 130 ∷ 0 ∷ 0 ∷ 0 ∷ 5 ∷ 6 ∷ []

abbrev truncated : List ℕ
truncated = 4 ∷ 0 ∷ 1 ∷ 0 ∷ 2 ∷ 0 ∷ 0 ∷ 0 ∷ []

response_buffer-Fits : Fits response_buffer
response_buffer-Fits = record { header = omega arith; size = omega arith }

set_all_sticks_example :
    set_all ebadr (einprogress ∷ etimedout ∷ success ∷ [])
    ≡ (settle etimedout, true ∷ true ∷ refused (success ∷ []))
unfolding is_einprogress
set_all_sticks_example = set_all_sticks etimedout (success ∷ []) (refl, (refl, tt))

-- The driver of mods_ap.c has found no route for the message.
abbrev unroutable : Driver
unroutable = record { reported = some enodev; ret = success }

recv-overrun_example : recv enabled 64 [] 2 true true truncated ≡ overrun
recv-overrun_example =
    recv-overrun 64 [] 2 truncated (omega arith) (unfold le16_at in omega arith) (omega arith) refl
      (λ e. omega arith)

waiting-Ready : All Ready (waiting ∷ [])
waiting-Ready = ((λ h. (response_buffer, refl, response_buffer-Fits)), tt)

recv-Safe_example : Safe (recv enabled 64 (waiting ∷ []) 2 true true answer)
unfolding le16_at
recv-Safe_example =
    recv-Safe enabled 64 (waiting ∷ []) 2 true true answer (omega arith) (omega arith) waiting-Ready
