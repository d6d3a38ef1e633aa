-- ===== src/ModService/Waiting.antt =====
-- Which message an answer completes.
use motorola_external_greybu.Prelude.{
  ℕ, ◌+◌, ◌%◌, ◌^◌, ◌≡◌, ◌≢◌, refl, ap, subst, sym, ◌∙◌, inl, inr, true, false, Bool-cases, none,
  some, Option-cases, List, [], ◌∷◌, ◌++◌, All, ◌==◌, if◌then◌else◌, arith,
}
use motorola_external_greybu.Prelude.Errno.{success}
use motorola_external_greybu.ModService.Messages.{
  SvcReply, SvcOp, Sent, next_id, find_op, complete, lose, msg_recv, msg_start, remove_op, op_at,
  answer, failure, answer_of, msg_finish, Arrival, recv_all,
}
use motorola_external_greybu.Operation.Status.{status_map}

-- No message that waits has an id or an address.
abbrev pub Fresh : ℕ → ℕ → List SvcOp → Type 0
Fresh id address ops = All (λ (op : SvcOp). (op.msg_id ≢ id) × (op.address ≢ address)) ops

complete-last :
    (id address : ℕ) (reply : SvcReply) (ops : List SvcOp) (op : SvcOp)
    → Fresh id address ops
    → op.msg_id ≡ id
    → complete (ops ++ (op ∷ [])) id reply
      ≡ ops ++ (record op { response = some reply; completed = true } ∷ [])
unfolding complete
complete-last id address reply [] op f e = ground arith
complete-last id address reply (x ∷ ops) op f e =
    ground (arith, f.0.0, complete-last id address reply ops op f.1 e)

find_op-last :
    (id address : ℕ) (ops : List SvcOp) (op : SvcOp)
    → Fresh id address ops
    → op.msg_id ≡ id
    → find_op (ops ++ (op ∷ [])) id ≡ some op
unfolding find_op
find_op-last id address [] op f e = ground arith
find_op-last id address (x ∷ ops) op f e =
    ground (arith, f.0.0, find_op-last id address ops op f.1 e)

find_op-other :
    (id : ℕ) (ops : List SvcOp) (op : SvcOp)
    → op.msg_id ≢ id
    → find_op (ops ++ (op ∷ [])) id ≡ find_op ops id
unfolding find_op
find_op-other id [] op e = ground arith
find_op-other id (x ∷ ops) op e = ground (arith, find_op-other id ops op e)

complete-other :
    (id : ℕ) (reply : SvcReply) (ops : List SvcOp) (op : SvcOp)
    → op.msg_id ≢ id
    → complete (ops ++ (op ∷ [])) id reply ≡ complete ops id reply ++ (op ∷ [])
unfolding complete
complete-other id reply [] op e = ground arith
complete-other id reply (x ∷ ops) op e = ground (arith, complete-other id reply ops op e)

lose-other :
    (id : ℕ) (ops : List SvcOp) (op : SvcOp)
    → op.msg_id ≢ id
    → lose (ops ++ (op ∷ [])) id ≡ lose ops id ++ (op ∷ [])
unfolding lose
lose-other id [] op e = ground arith
lose-other id (x ∷ ops) op e = ground (arith, lose-other id ops op e)

lose-Fresh :
    (id address other : ℕ) (ops : List SvcOp)
    → Fresh id address ops
    → Fresh id address (lose ops other)
unfolding lose
lose-Fresh id address other [] f = tt
lose-Fresh id address other (x ∷ ops) f = ground (arith, f, lose-Fresh id address other ops f.1)

complete-Fresh :
    (id address other : ℕ) (reply : SvcReply) (ops : List SvcOp)
    → Fresh id address ops
    → Fresh id address (complete ops other reply)
unfolding complete
complete-Fresh id address other reply [] f = tt
complete-Fresh id address other reply (x ∷ ops) f =
    ground (arith, f, complete-Fresh id address other reply ops f.1)

op_at-last :
    (id address : ℕ) (ops : List SvcOp) (op : SvcOp)
    → Fresh id address ops
    → op.address ≡ address
    → op_at address (ops ++ (op ∷ [])) ≡ some op
unfolding op_at
op_at-last id address [] op f e = ground arith
op_at-last id address (x ∷ ops) op f e = ground (arith, f.0.1, op_at-last id address ops op f.1 e)

remove_op-last :
    (id address : ℕ) (ops : List SvcOp) (op : SvcOp)
    → Fresh id address ops
    → op.address ≡ address
    → remove_op address (ops ++ (op ∷ [])) ≡ ops
unfolding remove_op
remove_op-last id address [] op f e = ground arith
remove_op-last id address (x ∷ ops) op f e =
    ground (arith, f.0.1, remove_op-last id address ops op f.1 e)

abbrev sent : ℕ → List SvcOp → Sent
sent n ops = record { msg_num = n; operations = ops }

-- An answer to another message
msg_recv-other :
    (r : Arrival) (n m : ℕ) (ops : List SvcOp) (op : SvcOp)
    → op.msg_id ≢ r.id
    → (msg_recv r.alloc r.id r.reply (sent n (ops ++ (op ∷ [])))).0
      ≡ sent n ((msg_recv r.alloc r.id r.reply (sent m ops)).0.operations ++ (op ∷ []))
unfolding msg_recv
msg_recv-other r n m ops op e = elim (Option-cases (find_op ops r.id)) [
  | inl z ↦ rw (find_op-other r.id ops op e, z, msg_recv) refl
  | inr (x, z) ↦ elim (Bool-cases r.alloc) [
    | inl y ↦
        rw (find_op-other r.id ops op e, z, y, msg_recv)
          (ap (sent n) (complete-other r.id r.reply ops op e))
    | inr y ↦
        rw (find_op-other r.id ops op e, z, y, msg_recv) (ap (sent n) (lose-other r.id ops op e))
  ]
]

msg_recv-Fresh :
    (r : Arrival) (m id address : ℕ) (ops : List SvcOp)
    → Fresh id address ops
    → Fresh id address (msg_recv r.alloc r.id r.reply (sent m ops)).0.operations
unfolding msg_recv
msg_recv-Fresh r m id address ops f = elim (Option-cases (find_op ops r.id)) [
  | inl z ↦ rw (z, msg_recv) f
  | inr (x, z) ↦ elim (Bool-cases r.alloc) [
    | inl y ↦ rw (z, y, msg_recv) (complete-Fresh id address r.id r.reply ops f)
    | inr y ↦ rw (z, y, msg_recv) (lose-Fresh id address r.id ops f)
  ]
]

-- The count of messages stays.
msg_recv-count :
    (r : Arrival) (n m : ℕ) (ops : List SvcOp)
    → (msg_recv r.alloc r.id r.reply (sent n ops)).0
      ≡ sent n (msg_recv r.alloc r.id r.reply (sent m ops)).0.operations
unfolding msg_recv
msg_recv-count r n m ops = elim (Option-cases (find_op ops r.id)) [
  | inl z ↦ rw (z, msg_recv) refl
  | inr (x, z) ↦ elim (Bool-cases r.alloc) [
    | inl y ↦ rw (z, y, msg_recv) refl
    | inr y ↦ rw (z, y, msg_recv) refl
  ]
]

recv_all-others :
    (rs : List Arrival) (n m : ℕ) (ops : List SvcOp) (op : SvcOp)
    → All (λ (r : Arrival). op.msg_id ≢ r.id) rs
    → recv_all rs (sent n (ops ++ (op ∷ [])))
      ≡ sent n ((recv_all rs (sent m ops)).operations ++ (op ∷ []))
unfolding recv_all
recv_all-others [] n m ops op a = refl
recv_all-others (r ∷ rs) n m ops op a =
    let next = (msg_recv r.alloc r.id r.reply (sent m ops)).0.operations in
    ap (recv_all rs) (msg_recv-other r n m ops op a.0)
    ∙ recv_all-others rs n m next op a.1
    ∙ ap (λ s. sent n ((recv_all rs s).operations ++ (op ∷ []))) (sym (msg_recv-count r m m ops))

recv_all-Fresh :
    (rs : List Arrival) (m id address : ℕ) (ops : List SvcOp)
    → Fresh id address ops
    → Fresh id address (recv_all rs (sent m ops)).operations
unfolding recv_all
recv_all-Fresh [] m id address ops f = f
recv_all-Fresh (r ∷ rs) m id address ops f =
    let next = (msg_recv r.alloc r.id r.reply (sent m ops)).0.operations in
    subst (λ t. Fresh id address (recv_all rs t).operations) (sym (msg_recv-count r m m ops))
      (recv_all-Fresh rs m id address next (msg_recv-Fresh r m id address ops f))

-- The answer to the last message, and the end of its wait
finish-last :
    (n id address : ℕ) (reply : SvcReply) (ops : List SvcOp)
    → Fresh id address ops
    → msg_finish success success address
        (msg_recv true id reply (
          sent n (
            ops
            ++ (record { address = address; msg_id = id; response = none; completed = false }
                ∷ [])))).0
      ≡ (
        sent n ops,
        if reply.result == 0 then answer reply.payload else failure (status_map reply.result),
      )
unfolding msg_recv msg_finish answer_of
finish-last n id address reply ops f =
    let op : SvcOp = record {
      address = address;
      msg_id = id;
      response = none;
      completed = false;
    } in
    let op' : SvcOp = record {
      address = address;
      msg_id = id;
      response = some reply;
      completed = true;
    } in
    let received : (msg_recv true id reply (sent n (ops ++ (op ∷ [])))).0
        ≡ sent n (ops ++ (op' ∷ [])) =
      rw (find_op-last id address ops op f refl, msg_recv)
        (ap (sent n) (complete-last id address reply ops op f refl)) in
    ap (msg_finish success success address) received
    ∙ rw
        (op_at-last id address ops op' f refl, remove_op-last id address ops op' f refl, msg_finish)
        refl

-- A message whose sending and wait do not fail gets the answer that arrives with its id, if there is memory for it,
-- whatever answers to other messages arrive before: its payload, or the error of its result; and what waits afterwards
-- is what the other answers leave. No message that waited before has its id or its address.
pub msg_finish-msg_recv :
    (s : Sent) (address : ℕ) (others : List Arrival) (reply : SvcReply)
    → Fresh (next_id s) address s.operations
    → All (λ (r : Arrival). next_id s ≢ r.id) others
    → msg_finish success success address
        (msg_recv true (next_id s) reply (recv_all others (msg_start address s))).0
      ≡ (
        record { msg_num = (s.msg_num + 1) % 2 ^ 32; operations = (recv_all others s).operations },
        if reply.result == 0 then answer reply.payload else failure (status_map reply.result),
      )
unfolding msg_start
msg_finish-msg_recv s address others reply f a =
    let op : SvcOp = record {
      address = address;
      msg_id = next_id s;
      response = none;
      completed = false;
    } in
    let n = (s.msg_num + 1) % 2 ^ 32 in
    ap (λ t. msg_finish success success address (msg_recv true (next_id s) reply t).0)
      (recv_all-others others n s.msg_num s.operations op a)
    ∙ finish-last n (next_id s) address reply (recv_all others s).operations
        (recv_all-Fresh others s.msg_num (next_id s) address s.operations f)
