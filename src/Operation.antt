-- ===== src/Operation.antt =====
-- The operations of operation.c: their messages, their result, their references and their activity.
mod Ids
pub mod Status
mod Results
mod Sending
mod Sent
mod Receiving
mod Safety
mod Tests
use motorola_external_greybu.Prelude.{
  ℕ, zero, suc, ◌+◌, ◌-◌, ◌*◌, ◌%◌, ◌/◌, bit_and, bit_or, Bool, true, false, not, ◌&&◌, ◌||◌,
  Option, none, some, List, [], ◌∷◌, ◌++◌, ltb, leb, ◌==◌, if◌then◌else◌, length, get_or, drop,
}
use motorola_external_greybu.Prelude.Errno.{
  Errno, success, eagain, ebadr, eilseq, einprogress, eintr, einval, eio, emsgsize, enodev, enomem,
  enotconn, eprotonosupport, etimedout,
}
use motorola_external_greybu.Connection.{State, enabled, attached_destroying}

-- `struct gb_message`: the bytes of its buffer, whose first eight are the header, and the payload's size.
pub record Message : Type 0 where
  pub buffer : List ℕ
  pub payload_size : ℕ

-- `struct gb_operation` with its flags as the bits of `flags`; `active` counts its users, `linked` says
-- that it stands on the connection's list, and `queued` that its work does. No references: it is freed.
pub record Operation : Type 0 where
  pub number : ℕ
  pub request : Message
  pub response : Option Message
  pub flags : ℕ
  pub type : ℕ
  pub id : ℕ
  pub errno : Errno
  pub active : ℕ
  pub linked : Bool
  pub kref : ℕ
  pub queued : Bool

-- `size_t` has 64 bits.
abbrev pub size_t : ℕ
size_t = 18446744073709551616

-- `memcpy` to the start of a buffer, or `none` if it writes beyond the buffer's end.
unfoldable pub store : List ℕ → List ℕ → Option (List ℕ)
store source buffer =
    if leb (length source) (length buffer)
    then some (source ++ drop (length source) buffer)
    else none

unfoldable pub zeros : ℕ → List ℕ
zeros zero = []
zeros (suc n) = 0 ∷ zeros n

unfoldable pub is_incoming : Operation → Bool
is_incoming op = not (bit_and op.flags 1 == 0)

unfoldable pub is_unidirectional : Operation → Bool
is_unidirectional op = not (bit_and op.flags 2 == 0)

unfoldable pub short_response_allowed : Operation → Bool
short_response_allowed op = not (bit_and op.flags 4 == 0)

-- How a function ends that writes to a buffer: with a result, or by a write beyond the buffer's end.
pub data Checked {ℓ} (A : Type ℓ) : Type ℓ where
  done : A → Checked A
  overrun : Checked A

-- The fields that `gb_operation_message_init` writes: size, operation id, type and result.
unfoldable pub header_bytes : ℕ → ℕ → List ℕ
header_bytes payload_size type =
    let size = (8 + payload_size) % 65536 in size % 256 ∷ size / 256 ∷ 0 ∷ 0 ∷ type ∷ 0 ∷ []

-- `gb_operation_message_init`
unfoldable pub message_init : Message → ℕ → ℕ → Checked Message
message_init message payload_size type =
    if type == 0
    then done (record message { payload_size = payload_size })
    else elim (store (header_bytes payload_size type) message.buffer) [
      | none ↦ overrun
      | some buffer ↦ done (record { buffer = buffer; payload_size = payload_size })
    ]

-- `gb_operation_message_alloc`; `alloc` says whether both of its allocations succeed.
unfoldable pub message_alloc : ℕ → ℕ → ℕ → Bool → Checked (Option Message)
message_alloc buffer_size_max type payload_size alloc =
    let message_size = (payload_size + 8) % size_t in
    if ltb buffer_size_max message_size
    then done none
    else if not alloc
    then done none
    else elim (message_init (record { buffer = zeros message_size; payload_size = 0 }) payload_size
        type) [ overrun ↦ overrun | done message ↦ done (some message) ]

-- One more user of an operation; the first one puts it on the connection's list.
abbrev pub activate : Operation → Operation
activate op = record op {
  active = op.active + 1;
  linked = if op.active == 0 then true else op.linked;
}

-- `gb_operation_get_active` on a connection in a state; 6 is `GB_CONTROL_TYPE_DISCONNECTED`.
unfoldable pub get_active : State → Operation → Operation × Errno
get_active enabled op = (activate op, success)
get_active attached_destroying op = if op.type == 6 then (activate op, success) else (op, enotconn)
get_active _ op = (op, enotconn)

-- `gb_operation_put_active` of an active operation
unfoldable pub put_active : Operation → Operation
put_active op =
    if op.active - 1 == 0
    then record op { active = 0; linked = false }
    else record op { active = op.active - 1 }
