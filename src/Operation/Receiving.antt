-- ===== src/Operation/Receiving.antt =====
-- The messages that arrive on a connection: `gb_connection_recv` and what it calls.
use motorola_external_greybu.Prelude.{
  ℕ, zero, suc, ◌+◌, ◌-◌, ◌*◌, ◌%◌, ◌≤◌, ◌<◌, bit_and, Bool, true, false, not, ◌&&◌, Option, none,
  some, List, [], ◌∷◌, ◌++◌, ltb, ◌==◌, if◌then◌else◌, get_or, take, drop, length, ◌≡◌, ◌≢◌, ◌⊎◌,
  inl, inr, refl, arith, Bool-cases, length-append, length-drop, length-take,
}
use motorola_external_greybu.Prelude.Errno.{Errno, success, einprogress, emsgsize}
use motorola_external_greybu.Connection.{State, enabled, attached_destroying}
use motorola_external_greybu.Operation.{
  Message, Operation, Checked, done, overrun, get_active, store, size_t, zeros, is_incoming,
  short_response_allowed, message_alloc, message_init, header_bytes,
}
use motorola_external_greybu.Operation.Results.{result_set}
use motorola_external_greybu.Operation.Status.{status_map}
use motorola_external_greybu.Operation.Sending.{create_incoming, create_common}

-- `gb_operation_find_outgoing` on the connection's list
unfoldable pub find_outgoing : List Operation → ℕ → Option Operation
find_outgoing [] operation_id = none
find_outgoing (op ∷ ops) operation_id =
    if (op.id == operation_id) && not (is_incoming op)
    then some op
    else find_outgoing ops operation_id

-- The list after a change of one operation
unfoldable pub replace : Operation → List Operation → List Operation
replace op [] = []
replace op (o ∷ os) = if o.number == op.number then op ∷ os else o ∷ replace op os

-- The part of `gb_connection_recv_response` that compares the sizes: the result and the payload's size.
unfoldable pub judge : Bool → ℕ → ℕ → Errno → Errno × ℕ
judge short_allowed payload_size size success =
    let message_size = (8 + payload_size) % size_t in
    if ltb message_size size
    then (emsgsize, payload_size)
    else if ltb size message_size
    then (if short_allowed
        then (success, (size + size_t - 8) % size_t)
        else (emsgsize, payload_size))
    else (success, payload_size)
judge short_allowed payload_size size errno = (errno, payload_size)

-- The number of bytes to copy
unfoldable pub copied : ℕ → Errno → ℕ
copied size success = size
copied size _ = 8

-- `gb_connection_recv_response` for an operation that was found, less its reference
unfoldable pub accept : Errno → List ℕ → ℕ → Operation → Checked Operation
accept status bytes size op = elim op.response [
  | none ↦ overrun
  | some m ↦
      let verdict = judge (short_response_allowed op) m.payload_size size status in
      let step = result_set op.errno verdict.0 in
      if step.1
      then elim (store (take (copied size verdict.0) bytes) m.buffer) [
        | none ↦ overrun
        | some buffer ↦ done (record op {
          response = some (record { buffer = buffer; payload_size = verdict.1 });
          errno = step.0;
          queued = true;
        })
      ]
      else done
          (record op { response = some (record m { payload_size = verdict.1 }); errno = step.0 })
]

-- `gb_connection_recv_response`
unfoldable pub recv_response : List Operation → ℕ → ℕ → List ℕ → ℕ → Checked (List Operation)
recv_response ops operation_id result bytes size =
    if operation_id == 0 then done ops else elim (find_outgoing ops operation_id) [
      | none ↦ done ops
      | some op ↦ elim (accept (status_map result) bytes size op) [
        | overrun ↦ overrun
        | done op' ↦ done (replace op' ops)
      ]
    ]

-- The end of `gb_connection_recv_request`, from what `gb_operation_get_active` left and returned.
unfoldable pub begin : List Operation → Operation × Errno → List Operation
begin ops (op, success) =
    let step = result_set op.errno einprogress in
    ops ++ (record op { errno = step.0; queued = step.1 } ∷ [])
begin ops (op, _) = ops

-- `gb_connection_recv_request`; the operation gets the number given, and is freed if it does not become active.
unfoldable pub recv_request :
    State → ℕ → List Operation → ℕ → Bool → Bool → ℕ → ℕ → List ℕ → ℕ → Checked (List Operation)
unfolding begin
recv_request state buffer_size_max ops number alloc alloc_request operation_id type bytes size =
    elim (create_incoming buffer_size_max number operation_id type bytes size alloc alloc_request) [
      | overrun ↦ overrun
      | done none ↦ done ops
      | done (some op) ↦ done (begin ops (get_active state op))
    ]

-- Two bytes of a message as a number
unfoldable pub le16_at : List ℕ → ℕ → ℕ
le16_at bytes i = get_or bytes i 0 + 256 * get_or bytes (i + 1) 0

-- The states in which `gb_connection_recv` takes messages
unfoldable pub is_open : State → Bool
is_open enabled = true
is_open attached_destroying = true
is_open _ = false

-- `gb_connection_recv` of the bytes of a message
unfoldable pub recv :
    State → ℕ → List Operation → ℕ → Bool → Bool → List ℕ → Checked (List Operation)
recv state buffer_size_max ops number alloc alloc_request bytes =
    let msg_size = le16_at bytes 0 in
    if not (is_open state)
    then done ops
    else if ltb (length bytes) 8
    then done ops
    else if ltb (length bytes) msg_size
    then done ops
    else if not (bit_and (get_or bytes 4 0) 128 == 0)
    then recv_response ops (le16_at bytes 2) (get_or bytes 5 0) bytes msg_size
    else recv_request state buffer_size_max ops number alloc alloc_request (le16_at bytes 2)
        (get_or bytes 4 0) bytes msg_size

-- The buffer holds a header, and as many bytes as the message's size says in the arithmetic of `size_t`.
pub record Fits (m : Message) : Type 0 where
  pub header : 8 ≤ length m.buffer
  pub size : (8 + m.payload_size) % size_t ≤ length m.buffer

-- A comparison of sizes that ends in success leaves as many bytes to copy as the buffer holds.
judge-copied :
    (short : Bool) (m : Message) (size : ℕ) (status : Errno)
    → Fits m
    → size < size_t
    → let verdict = judge short m.payload_size size status in
      (copied size verdict.0 ≤ length m.buffer) × ((8 + verdict.1) % size_t ≤ length m.buffer)
unfolding judge copied
judge-copied short m size success f b =
    let g = f.header in
    let k = f.size in
    let whole : (8 + (size + size_t - 8) % size_t) % size_t ≡ size = omega arith in
    ground (arith, whole)
judge-copied short m size _ f b = (f.header, f.size)

pub length-store :
    (source buffer : List ℕ)
    → length source ≤ length buffer
    → (stored : List ℕ) × (store source buffer ≡ some stored) × (length stored ≡ length buffer)
unfolding store
length-store source buffer h = (
  source ++ drop (length source) buffer,
  ground arith,
  omega (
    arith,
    length-append source (drop (length source) buffer),
    length-drop (length source) buffer,
  ),
)

copied_size : (size : ℕ) (e : Errno) → copied size e ≤ size ⊎ (copied size e ≡ 8)
unfolding copied
copied_size size success = inl (omega arith)
copied_size size _ = inr refl

-- A response that arrives for an operation is taken without a write beyond the end of the operation's
-- response buffer, and the buffer still fits, whatever the size is that the message states.
pub accept-Fits :
    (status : Errno) (bytes : List ℕ) (size : ℕ) (op : Operation) (m : Message)
    → size < size_t
    → op.response ≡ some m
    → Fits m
    → (op' : Operation) × (m' : Message) × (accept status bytes size op ≡ done op')
      × (op'.response ≡ some m')
      × Fits m'
      × (length m'.buffer ≡ length m.buffer)
unfolding accept short_response_allowed
accept-Fits status bytes size op m b r f =
    let verdict = judge (short_response_allowed op) m.payload_size size status in
    let (c, k) : (copied size verdict.0 ≤ length m.buffer)
        × ((8 + verdict.1) % size_t ≤ length m.buffer) =
      judge-copied (short_response_allowed op) m size status f b in
    let errno = (result_set op.errno verdict.0).0 in
    elim (Bool-cases (result_set op.errno verdict.0).1) [
      | inr e ↦
          let m' : Message = record m { payload_size = verdict.1 } in
          (
            record op { response = some m'; errno = errno },
            m',
            rw (r, accept) (rw (e, accept) refl),
            refl,
            record { header = f.header; size = k },
            refl,
          )
      | inl e ↦
          let (buffer, s, l) =
            length-store (take (copied size verdict.0) bytes) m.buffer
              (omega (arith, length-take (copied size verdict.0) bytes)) in
          let m' : Message = record { buffer = buffer; payload_size = verdict.1 } in
          (
            record op { response = some m'; errno = errno; queued = true },
            m',
            rw (r, accept) (rw (e, accept) (rw (s, accept) refl)),
            refl,
            record { header = omega (arith, f.header); size = omega arith },
            l,
          )
    ]

pub length-zeros : (n : ℕ) → length (zeros n) ≡ n
unfolding zeros
length-zeros zero = refl
length-zeros (suc n) = omega (arith, length-zeros n)

message_alloc-overrun :
    (buffer_size_max type payload_size : ℕ)
    → (payload_size + 8) % size_t < 6
    → 6 ≤ buffer_size_max
    → type ≢ 0
    → message_alloc buffer_size_max type payload_size true ≡ overrun
unfolding message_alloc message_init store header_bytes
message_alloc-overrun buffer_size_max type payload_size a b c =
    ground (arith, length-zeros ((payload_size + 8) % size_t))

create_incoming-overrun :
    (buffer_size_max number id type : ℕ) (bytes : List ℕ) (size : ℕ)
    → size < 6
    → 6 ≤ buffer_size_max
    → type ≢ 0
    → create_incoming buffer_size_max number id type bytes size true true ≡ overrun
unfolding create_incoming create_common
create_incoming-overrun buffer_size_max number id type bytes size a b c =
    rw
      (
        message_alloc-overrun buffer_size_max type ((size + size_t - 8) % size_t) (omega arith) b c,
        create_incoming,
        create_common,
      )
      refl

-- A message whose header states a size below six reaches `gb_connection_recv_request` if it holds a header
-- and is a request with a type: its buffer gets as many bytes as stated, so the header that is written
-- to it goes beyond the buffer's end.
pub recv-overrun :
    (buffer_size_max : ℕ) (ops : List Operation) (number : ℕ) (bytes : List ℕ)
    → 8 ≤ length bytes
    → le16_at bytes 0 < 6
    → 6 ≤ buffer_size_max
    → bit_and (get_or bytes 4 0) 128 ≡ 0
    → get_or bytes 4 0 ≢ 0
    → recv enabled buffer_size_max ops number true true bytes ≡ overrun
unfolding recv recv_request is_open
recv-overrun buffer_size_max ops number bytes a b c d e =
    let made =
      create_incoming-overrun buffer_size_max number (le16_at bytes 2) (get_or bytes 4 0) bytes
        (le16_at bytes 0) b c e in
    ground (arith, made)
