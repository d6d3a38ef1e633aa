-- ===== src/ModService/Messages.antt =====
-- The messages that muc_svc.c sends and waits for an answer to.
use motorola_external_greybu.Prelude.{
  ℕ, ◌+◌, ◌%◌, ◌^◌, Bool, true, false, not, Option, none, some, List, [], ◌∷◌, ◌++◌, ◌==◌,
  if◌then◌else◌,
}
use motorola_external_greybu.Prelude.Errno.{Errno, failed, success, einval, enomem, etimedout}
use motorola_external_greybu.Operation.Status.{status_map}

-- The result and the payload of an answer
pub record SvcReply : Type 0 where
  pub result : ℕ
  pub payload : List ℕ

-- `struct svc_op`, with its address as a number
pub record SvcOp : Type 0 where
  pub address : ℕ
  pub msg_id : ℕ
  pub response : Option SvcReply
  pub completed : Bool

-- `msg_num` and `operations` of `struct muc_svc_data`
pub record Sent : Type 0 where
  pub msg_num : ℕ
  pub operations : List SvcOp

-- The id of the next message that wants an answer
abbrev pub next_id : Sent → ℕ
next_id s = (s.msg_num + 1) % 2 ^ 16 % 65535 + 1

-- `svc_find_op`
unfoldable pub find_op : List SvcOp → ℕ → Option SvcOp
find_op [] id = none
find_op (op ∷ ops) id = if op.msg_id == id then some op else find_op ops id

-- The operation that is found gets the answer.
unfoldable pub complete : List SvcOp → ℕ → SvcReply → List SvcOp
complete [] id reply = []
complete (op ∷ ops) id reply =
    if op.msg_id == id
    then record op { response = some reply; completed = true } ∷ ops
    else op ∷ complete ops id reply

-- The operation that is found has no answer: a failed allocation overwrites an earlier one.
unfoldable pub lose : List SvcOp → ℕ → List SvcOp
lose [] id = []
lose (op ∷ ops) id =
    if op.msg_id == id then record op { response = none } ∷ ops else op ∷ lose ops id

-- An answer that arrives in `svc_gb_msg_recv`; `alloc` is the outcome of the allocation.
unfoldable pub msg_recv : Bool → ℕ → SvcReply → Sent → Sent × Errno
unfolding find_op complete lose
msg_recv alloc id reply s = elim (find_op s.operations id) [
  | none ↦ (s, einval)
  | some op ↦
      if not alloc
      then (record s { operations = lose s.operations id }, enomem)
      else (record s { operations = complete s.operations id reply }, success)
]

-- `_svc_gb_msg_send_sync` up to the call of `svc_route_msg`, of a message that wants an answer
unfoldable pub msg_start : ℕ → Sent → Sent
msg_start address s = record s {
  msg_num = (s.msg_num + 1) % 2 ^ 32;
  operations =
      s.operations
      ++ (record { address = address; msg_id = next_id s; response = none; completed = false }
          ∷ []);
}

-- `list_del` of an operation
unfoldable pub remove_op : ℕ → List SvcOp → List SvcOp
remove_op address [] = []
remove_op address (op ∷ ops) = if op.address == address then ops else op ∷ remove_op address ops

-- The operation at an address
unfoldable pub op_at : ℕ → List SvcOp → Option SvcOp
op_at address [] = none
op_at address (op ∷ ops) = if op.address == address then some op else op_at address ops

-- What the caller gets: the payload of the answer, or an error; `null_pointer` says that the answer that completed its
-- operation was lost and is read through a null pointer.
pub data Answer : Type 0 where
  answer : List ℕ → Answer
  failure : Errno → Answer
  null_pointer : Answer

-- The answer that completed an operation
unfoldable pub answer_of : SvcOp → Answer
answer_of op = elim op.response [
  | none ↦ null_pointer
  | some r ↦ if r.result == 0 then answer r.payload else failure (status_map r.result)
]

-- `_svc_gb_msg_send_sync` from the result of `svc_route_msg` on, at the time when the wait ends: by a
-- completion, by its time limit, or by an interrupt with an error.
unfoldable pub msg_finish : Errno → Errno → ℕ → Sent → Sent × Answer
unfolding op_at answer_of remove_op
msg_finish routed interrupt address s =
    let removed = record s { operations = remove_op address s.operations } in
    if failed routed
    then (removed, failure routed)
    else if failed interrupt
    then (removed, failure interrupt)
    else elim (op_at address s.operations) [
      | none ↦ (removed, failure etimedout)
      | some op ↦ (removed, if op.completed then answer_of op else failure etimedout)
    ]

-- An answer to another message, with the outcome of its allocation
pub record Arrival : Type 0 where
  pub alloc : Bool
  pub id : ℕ
  pub reply : SvcReply

unfoldable pub recv_all : List Arrival → Sent → Sent
unfolding msg_recv
recv_all [] s = s
recv_all (r ∷ rs) s = recv_all rs (msg_recv r.alloc r.id r.reply s).0
