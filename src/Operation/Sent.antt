-- ===== src/Operation/Sent.antt =====
-- What the sending of a request does to its operation's references, users, result and work.
use motorola_external_greybu.Prelude.{
  ℕ, ◌+◌, ◌%◌, ◌/◌, Bool, true, false, not, ◌||◌, Option, none, some, ◌∷◌, ◌++◌, ◌==◌,
  if◌then◌else◌, take, drop, ◌≡◌, ◌≢◌, ◌⊎◌, inl, inr, refl, ap, sym, subst, arith, Bool-cases,
}
use motorola_external_greybu.Prelude.Errno.{failed, Errno, success, ebadr, einprogress, enotconn}
use motorola_external_greybu.Connection.{State, enabled, attached_destroying}
use motorola_external_greybu.Operation.{
  Message, Operation, is_unidirectional, get_active, activate, put_active,
}
use motorola_external_greybu.Operation.Ids.{next_cycle, operation_id}
use motorola_external_greybu.Operation.Results.{result_set, is_einprogress, is_ebadr}
use motorola_external_greybu.Operation.Sending.{
  get, put, Driver, message_sent, report, after_send, after_get, submit, request_send, work_end,
}

-- The list of the connection holds an operation exactly while it has users.
abbrev pub Linked : Operation → Type 0
Linked op = op.linked ≡ not (op.active == 0)

-- What an operation's users and references are after a call that took one of each, or gave them back.
abbrev pub Held : ℕ → Operation → Operation → Type 0
Held n before after =
    (after.kref ≡ before.kref + n) × (after.active ≡ before.active + n) × Linked after

-- The driver's report completes a request: it is unidirectional, or the report tells a failure.
abbrev pub completes : Option Errno → Operation → Bool
completes none op = false
completes (some status) op = failed status || is_unidirectional op

-- The result that a report sets
abbrev pub reported_result : Option Errno → Errno
reported_result none = einprogress
reported_result (some status) = (result_set einprogress status).0

-- What becomes of the result and the work of a request that is sent: a report that completes it sets the result
-- and queues the work, and otherwise it is in progress.
pub record Told (reported : Option Errno) (op after : Operation) : Type 0 where
  pub errno :
      after.errno ≡ (if completes reported op then reported_result reported else einprogress)
  pub queued : after.queued ≡ (completes reported op || op.queued)

Ends : Driver → Operation → Operation × Errno → Type 0
Ends driver op out =
    ((out.1 ≡ success) × Held 1 op out.0 × Told driver.reported op out.0)
    ⊎ ((out.1 ≢ success) × Held 0 op out.0)

-- The report of a request leaves its users and references alone.
abbrev Same : Operation → Operation → Type 0
Same op after = (after.kref ≡ op.kref) × (after.active ≡ op.active) × (after.linked ≡ op.linked)

result_set-einprogress : (status : Errno) → (result_set einprogress status).1 ≡ true
unfolding result_set is_einprogress is_ebadr
result_set-einprogress einprogress = refl
result_set-einprogress status = refl

report-Same : (reported : Option Errno) (op : Operation) → Same op (report false reported op)
unfolding report message_sent
report-Same none op = (refl, refl, refl)
report-Same (some status) op = (ground arith, ground arith, ground arith)

if-errno :
    (b : Bool) (x y : Operation) (r : Errno)
    → x.errno ≡ r
    → y.errno ≡ einprogress
    → (if b then x else y).errno ≡ (if b then r else einprogress)
if-errno true x y r h k = h
if-errno false x y r h k = k

if-queued :
    (b : Bool) (x y : Operation) → x.queued ≡ true → (if b then x else y).queued ≡ (b || y.queued)
if-queued true x y h = h
if-queued false x y h = refl

report-Told :
    (reported : Option Errno) (op : Operation)
    → op.errno ≡ einprogress
    → Told reported op (report false reported op)
unfolding report message_sent
report-Told none op e = record { errno = e; queued = refl }
report-Told (some status) op e =
    let told : (result_set op.errno status).1 ≡ true = rw e (result_set-einprogress status) in
    let b = failed status || is_unidirectional op in
    record {
      errno = if-errno b _ op _ (ap (λ r. (result_set r status).0) e) e;
      queued = if-queued b _ op (rw told refl);
    }

put_active-Held :
    (op after : Operation)
    → Linked op
    → Same (activate (get op)) after
    → Held 0 op (put (put_active after))
unfolding put_active
put_active-Held op after l (k, a, i) = (
  ground arith,
  ground arith,
  elim (Bool-cases (op.active == 0)) [ inl e ↦ ground arith | inr e ↦ ground arith ],
)

sent-Ends :
    (reported : Option Errno) (ret : Errno) (op after : Operation)
    → Linked op
    → Same (activate (get op)) after
    → Told reported op after
    → Ends (record { reported = reported; ret = ret }) op (after_send ret after)
unfolding Ends after_send
sent-Ends reported success op after l (k, a, i) t =
    inl (refl, (ground arith, ground arith, ground arith), t)
sent-Ends reported e op after l s t = inr (λ h. absurd (cc), put_active-Held op after l s)

kept-Ends :
    (driver : Driver) (e : Errno) (op : Operation)
    → e ≢ success
    → Linked op
    → Ends driver op (after_get driver (get op, e))
unfolding Ends after_get
kept-Ends driver success op n l = absurd (n refl)
kept-Ends driver e op n l = inr (λ h. absurd (cc), (omega arith, omega arith, l))

-- `gb_operation_get_active` returns 0 and activates the operation, or fails and leaves it alone.
pub get_active-cases :
    (state : State) (op : Operation)
    → (get_active state op ≡ (activate op, success))
      ⊎ ((e : Errno) × (e ≢ success) × (get_active state op ≡ (op, e)))
unfolding get_active
get_active-cases enabled op = inl refl
get_active-cases attached_destroying op = elim (Bool-cases (op.type == 6)) [
  | inl e ↦ inl (rw (e, get_active) refl)
  | inr e ↦ inr (enotconn, (λ h. absurd (cc)), rw (e, get_active) refl)
]
get_active-cases _ op = inr (enotconn, (λ h. absurd (cc)), refl)

submit-Ends :
    (state : State) (driver : Driver) (op : Operation)
    → Linked op
    → op.errno ≡ einprogress
    → Ends driver op (submit state driver op)
unfolding submit after_get
submit-Ends state driver op l r = elim (get_active-cases state (get op)) [
  | inl e ↦
      let held = activate (get op) in
      subst (λ g. Ends driver op (after_get driver g)) (sym e)
        (sent-Ends driver.reported driver.ret op (report false driver.reported held) l
          (report-Same driver.reported held)
          (told driver.reported _ (report-Told driver.reported held r)))
  | inr (r, n, e) ↦
      subst (λ g. Ends driver op (after_get driver g)) (sym e) (kept-Ends driver r op n l)
]
  where
    told :
        (reported : Option Errno) (after : Operation)
        → Told reported (activate (get op)) after
        → Told reported op after
    told none after t = record { errno = t.errno; queued = t.queued }
    told (some status) after t =
        unfold is_unidirectional in record { errno = t.errno; queued = t.queued }

pub request_send-Ends :
    (state : State) (op_cycle : ℕ) (driver : Driver) (op : Operation)
    → Linked op
    → op.errno ≡ ebadr
    → let out = request_send true state op_cycle driver op in
      ((out.2 ≡ success) × Held 1 op out.1 × Told driver.reported op out.1)
      ⊎ ((out.2 ≢ success) × Held 0 op out.1)
unfolding request_send Ends result_set is_einprogress is_ebadr
request_send-Ends state op_cycle driver op l e =
    let cycle = if is_unidirectional op then op_cycle else next_cycle op_cycle in
    let id = if is_unidirectional op then 0 else operation_id cycle in
    let b = op.request.buffer in
    let request : Message = record {
      buffer = take 2 b ++ (id % 256 ∷ id / 256 ∷ drop 4 b);
      payload_size = op.request.payload_size;
    } in
    let op1 : Operation = record op {
      id = id;
      request = request;
      errno = (result_set op.errno einprogress).0;
    } in
    elim (submit-Ends state driver op1 l (rw e refl)) [
      | inl (h, held, told) ↦ inl (h, held, same driver.reported op1.errno id request _ told)
      | inr (h, held) ↦ inr (h, held)
    ]
  where
    same :
        (reported : Option Errno) (r : Errno) (id : ℕ) (request : Message) (after : Operation)
        → Told reported (record op { id = id; request = request; errno = r }) after
        → Told reported op after
    same none r id request after t = record { errno = t.errno; queued = t.queued }
    same (some status) r id request after t =
        unfold is_unidirectional in record { errno = t.errno; queued = t.queued }

-- Once the operation of a sent request is completed, its references and users are as before the sending.
pub work_end-request_send :
    (state : State) (op_cycle : ℕ) (driver : Driver) (op : Operation)
    → Linked op
    → op.errno ≡ ebadr
    → (request_send true state op_cycle driver op).2 ≡ success
    → Held 0 op (work_end (request_send true state op_cycle driver op).1)
work_end-request_send state op_cycle driver op l e h =
    elim (request_send-Ends state op_cycle driver op l e) [
      | inr (n, _) ↦ absurd (n h)
      | inl (_, held, _) ↦ released op (request_send true state op_cycle driver op).1 held
    ]
  where
    released : (op after : Operation) → Held 1 op after → Held 0 op (work_end after)
    released op after (a, b, c) = unfold put_active work_end in ground arith
