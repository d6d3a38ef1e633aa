-- ===== src/Operation/Sending.antt =====
-- The making of operations, and the sending of requests and responses.
use motorola_external_greybu.Prelude.{
  ℕ, ◌+◌, ◌-◌, ◌%◌, ◌/◌, bit_and, bit_or, Bool, true, false, not, ◌||◌, Option, none, some, List,
  ◌∷◌, ◌++◌, ◌==◌, if◌then◌else◌, get_or, take, drop,
}
use motorola_external_greybu.Prelude.Errno.{
  failed, Errno, success, ebadr, einprogress, einval, eio, enomem,
}
use motorola_external_greybu.Connection.{State}
use motorola_external_greybu.Operation.{
  Message, Operation, Checked, done, overrun, message_alloc, is_unidirectional, get_active,
  put_active, store, size_t,
}
use motorola_external_greybu.Operation.Ids.{next_cycle, operation_id}
use motorola_external_greybu.Operation.Results.{result_set}
use motorola_external_greybu.Operation.Status.{errno_map}

-- `gb_operation_response_alloc`, which copies the id of the request's header
unfoldable pub response_alloc : ℕ → Operation → ℕ → Bool → Checked (Option Operation)
response_alloc buffer_size_max op response_size alloc =
    elim (message_alloc buffer_size_max (bit_or op.type 128) response_size alloc) [
      | overrun ↦ overrun
      | done none ↦ done none
      | done (some m) ↦
          let lo = get_or op.request.buffer 2 0 in
          let hi = get_or op.request.buffer 3 0 in
          let buffer = take 2 m.buffer ++ (lo ∷ hi ∷ drop 4 m.buffer) in
          done (some (record op { response = some (record m { buffer = buffer }) }))
    ]

-- `gb_operation_create_common`; the response is allocated while the type and the flags are still zero.
unfoldable pub create_common :
    ℕ → ℕ → ℕ → ℕ → ℕ → ℕ → Bool → Bool → Bool → Checked (Option Operation)
create_common buffer_size_max number type request_size response_size flags alloc alloc_request
      alloc_response =
    if not alloc
    then done none
    else elim (message_alloc buffer_size_max type request_size alloc_request) [
      | overrun ↦ overrun
      | done none ↦ done none
      | done (some request) ↦
          let zeroed : Operation = record {
            number = number;
            request = request;
            response = none;
            flags = 0;
            type = 0;
            id = 0;
            errno = success;
            active = 0;
            linked = false;
            kref = 0;
            queued = false;
          } in
          let initial : Operation → Operation =
            λ op. record op { flags = flags; type = type; errno = ebadr; kref = 1 } in
          if not (bit_and flags 1 == 0)
          then done (some (initial zeroed))
          else elim (response_alloc buffer_size_max zeroed response_size alloc_response) [
            | overrun ↦ overrun
            | done none ↦ done none
            | done (some op) ↦ done (some (initial op))
          ]
    ]

-- `gb_operation_create_flags`
unfoldable pub create_flags :
    ℕ → ℕ → ℕ → ℕ → ℕ → ℕ → Bool → Bool → Bool → Checked (Option Operation)
create_flags buffer_size_max number type request_size response_size flags alloc alloc_request
      alloc_response =
    if type == 0
    then done none
    else create_common buffer_size_max number (bit_and type 127) request_size response_size
        (bit_and flags 6) alloc alloc_request alloc_response

-- `gb_operation_create_incoming`; the payload's size is computed in 64 bits.
unfoldable pub create_incoming :
    ℕ → ℕ → ℕ → ℕ → List ℕ → ℕ → Bool → Bool → Checked (Option Operation)
create_incoming buffer_size_max number id type bytes size alloc alloc_request =
    let request_size = (size + size_t - 8) % size_t in
    let flags = if id == 0 then 3 else 1 in
    elim (create_common buffer_size_max number type request_size 0 flags alloc alloc_request true) [
      | overrun ↦ overrun
      | done none ↦ done none
      | done (some op) ↦ elim (store (take size bytes) op.request.buffer) [
        | none ↦ overrun
        | some buffer ↦ done (
            some (record op {
              id = id;
              request = record { buffer = buffer; payload_size = op.request.payload_size };
            }))
      ]
    ]

-- `gb_operation_get` and `gb_operation_put`; an operation without references is freed.
abbrev pub get : Operation → Operation
get op = record op { kref = op.kref + 1 }

abbrev pub put : Operation → Operation
put op = record op { kref = op.kref - 1 }

-- `greybus_message_sent` for the operation's response or its request
unfoldable pub message_sent : Bool → Errno → Operation → Operation
message_sent is_response status op =
    if is_response
    then put (put_active op)
    else if failed status || is_unidirectional op
    then (let step = result_set op.errno status in
        record op { errno = step.0; queued = if step.1 then true else op.queued })
    else op

-- What the host driver does with a message that `gb_message_send` gives it: the status that it reports by
-- `greybus_message_sent` before it returns, if it does so, and what it returns. The driver of mods_ap.c reports
-- first and returns 0; that of es2.c returns and reports later.
pub record Driver : Type 0 where
  pub reported : Option Errno
  pub ret : Errno

-- The report of the driver, about the response or the request
unfoldable pub report : Bool → Option Errno → Operation → Operation
unfolding message_sent
report is_response none op = op
report is_response (some status) op = message_sent is_response status op

-- What a failure of `gb_message_send` undoes
unfoldable pub after_send : Errno → Operation → Operation × Errno
after_send success op = (op, success)
after_send e op = (put (put_active op), e)

-- The end of `gb_operation_request_send`, from what `gb_operation_get_active` left and returned: the
-- message goes to the driver.
unfoldable pub after_get : Driver → Operation × Errno → Operation × Errno
unfolding report after_send
after_get driver (op, success) = after_send driver.ret (report false driver.reported op)
after_get driver (op, e) = (put op, e)

-- The end of `gb_operation_request_send`: the reference, the activity and the message
unfoldable pub submit : State → Driver → Operation → Operation × Errno
unfolding after_get
submit state driver op = after_get driver (get_active state (get op))

-- `gb_operation_request_send`: the count of requests, the operation and the result; `callback` says whether
-- there is one.
unfoldable pub request_send : Bool → State → ℕ → Driver → Operation → ℕ × Operation × Errno
request_send callback state op_cycle driver op =
    if not callback
    then (op_cycle, op, einval)
    else let cycle = if is_unidirectional op then op_cycle else next_cycle op_cycle in
      let id = if is_unidirectional op then 0 else operation_id cycle in
      let b = op.request.buffer in
      let buffer = take 2 b ++ (id % 256 ∷ id / 256 ∷ drop 4 b) in
      let request : Message = record { buffer = buffer; payload_size = op.request.payload_size } in
      let op1 = record op {
        id = id;
        request = request;
        errno = (result_set op.errno einprogress).0;
      } in
      let out = submit state driver op1 in (cycle, out.0, out.1)

-- The status in the header of a response
unfoldable pub with_result : ℕ → Message → Message
with_result status m = record m { buffer = take 5 m.buffer ++ (status ∷ drop 6 m.buffer) }

-- `gb_operation_response_send` once there is a response where one is needed
unfoldable pub respond : State → Driver → Errno → Operation → Operation × Errno
unfolding report after_send
respond state driver errno op =
    let step = result_set op.errno errno in
    let op1 = record op { errno = step.0 } in
    if not step.1
    then (op1, eio)
    else if is_unidirectional op
    then (op1, success)
    else let op2 = get_active state (get op1) in
      elim op2.1 [
        | success ↦
            let op3 = record op2.0 {
              response = elim op2.0.response [
                | none ↦ none
                | some m ↦ some (with_result (errno_map errno) m)
              ];
            } in
            after_send driver.ret (report true driver.reported op3)
        | e ↦ (put op2.0, e)
      ]

-- `gb_operation_response_send`
unfoldable pub response_send :
    ℕ → State → Bool → Driver → Errno → Operation → Checked (Operation × Errno)
response_send buffer_size_max state alloc driver errno op = elim op.response [
  | some m ↦ done (respond state driver errno op)
  | none ↦
      if is_unidirectional op
      then done (respond state driver errno op)
      else elim (response_alloc buffer_size_max op 0 alloc) [
        | overrun ↦ overrun
        | done none ↦ done (op, enomem)
        | done (some op1) ↦ done (respond state driver errno op1)
      ]
]

-- The end of `gb_operation_work`
unfoldable pub work_end : Operation → Operation
work_end op = put (put_active (record op { queued = false }))
