-- ===== src/Operation/Safety.antt =====
-- Messages whose header states a whole header never make `gb_connection_recv` write beyond a buffer.
use motorola_external_greybu.Prelude.{
  ℕ, ◌+◌, ◌-◌, ◌%◌, ◌≤◌, ◌<◌, bit_and, Bool, true, false, not, none, some, List, [], ◌∷◌, ◌++◌, ltb,
  ◌==◌, ◌&&◌, if◌then◌else◌, get_or, take, length, ◌≡◌, ◌≢◌, ◌⊎◌, inl, inr, refl, sym, subst, arith,
  Bool-cases, Option-cases, length-take, All,
}
use motorola_external_greybu.Prelude.Errno.{Errno, success, ebadr, einprogress}
use motorola_external_greybu.Connection.{State}
use motorola_external_greybu.Operation.{
  Message, Operation, Checked, done, get_active, activate, size_t, zeros, is_incoming,
  message_alloc, message_init, header_bytes,
}
use motorola_external_greybu.Operation.Status.{status_map}
use motorola_external_greybu.Operation.Results.{result_set}
use motorola_external_greybu.Operation.Sending.{create_incoming, create_common}
use motorola_external_greybu.Operation.Sent.{get_active-cases}
use motorola_external_greybu.Operation.Receiving.{
  Fits, accept-Fits, find_outgoing, replace, begin, is_open, recv, recv_request, recv_response,
  le16_at, length-store, length-zeros,
}

-- An outgoing operation has a response buffer that fits.
abbrev pub Ready : Operation → Type 0
Ready op = is_incoming op ≡ false → (m : Message) × (op.response ≡ some m) × Fits m

-- The function ends without a write beyond a buffer, with operations that are ready.
abbrev pub Safe : Checked (List Operation) → Type 0
Safe out = (ops : List Operation) × (out ≡ done ops) × All Ready ops

find_outgoing-Ready :
    (ops : List Operation) (id : ℕ) (op : Operation)
    → All Ready ops
    → find_outgoing ops id ≡ some op
    → (m : Message) × (op.response ≡ some m) × Fits m
unfolding find_outgoing
find_outgoing-Ready [] id op a h = absurd (cc)
find_outgoing-Ready (o ∷ os) id op (r, a) h =
    let ih = find_outgoing-Ready os id op a in
    elim (Bool-cases ((o.id == id) && not (is_incoming o))) [
      | inr e ↦ ih (rw (e, find_outgoing) at h)
      | inl e ↦
          let same : o ≡ op = let k = rw (e, find_outgoing) at h in ground arith in
          subst (λ x. (m : Message) × (x.response ≡ some m) × Fits m) same (r (ground arith))
    ]

replace-Ready :
    (op : Operation) (ops : List Operation) → Ready op → All Ready ops → All Ready (replace op ops)
unfolding replace
replace-Ready op [] r a = a
replace-Ready op (o ∷ os) r (q, a) =
    let ih = replace-Ready op os r a in
    elim (Bool-cases (o.number == op.number)) [
      | inl e ↦ rw (e, replace) (r, a)
      | inr e ↦ rw (e, replace) (q, ih)
    ]

append-Ready :
    (ops : List Operation) (op : Operation)
    → Ready op
    → All Ready ops
    → All Ready (ops ++ (op ∷ []))
append-Ready [] op r a = (r, a)
append-Ready (o ∷ os) op r (q, a) = (q, append-Ready os op r a)

recv_response-Safe :
    (ops : List Operation) (id result : ℕ) (bytes : List ℕ) (size : ℕ)
    → size < size_t
    → All Ready ops
    → Safe (recv_response ops id result bytes size)
unfolding recv_response
recv_response-Safe ops id result bytes size b a = elim (Bool-cases (id == 0)) [
  | inl e ↦ (ops, rw (e, recv_response) refl, a)
  | inr e ↦ elim (Option-cases (find_outgoing ops id)) [
    | inl f ↦ (ops, rw (e, f, recv_response) refl, a)
    | inr (op, f) ↦
        let (m, r, fits) = find_outgoing-Ready ops id op a f in
        let (op', m', acc, r', fits', l) =
          accept-Fits (status_map result) bytes size op m b r fits in
        (
          replace op' ops,
          rw (e, f, acc, recv_response) refl,
          replace-Ready op' ops (λ h. (m', r', fits')) a,
        )
  ]
]

message_alloc-done :
    (buffer_size_max type payload_size : ℕ) (alloc : Bool)
    → 8 ≤ (payload_size + 8) % size_t
    → (message_alloc buffer_size_max type payload_size alloc ≡ done none)
      ⊎ ((m : Message) × (message_alloc buffer_size_max type payload_size alloc ≡ done (some m))
          × (length m.buffer ≡ (payload_size + 8) % size_t))
unfolding message_alloc message_init
message_alloc-done buffer_size_max type payload_size alloc h =
    let size = (payload_size + 8) % size_t in
    elim (Bool-cases (ltb buffer_size_max size)) [
      | inl e ↦ inl (rw (e, message_alloc) refl)
      | inr e ↦ elim (Bool-cases (not alloc)) [
        | inl f ↦ inl (rw (e, f, message_alloc) refl)
        | inr f ↦ elim (Bool-cases (type == 0)) [
          | inl g ↦ inr (
            record { buffer = zeros size; payload_size = payload_size },
            rw (e, f, g, message_alloc, message_init) refl,
            length-zeros size,
          )
          | inr g ↦
              let (buffer, s, l) =
                length-store (header_bytes payload_size type) (zeros size)
                  (unfold header_bytes in omega (arith, length-zeros size)) in
              inr (
                record { buffer = buffer; payload_size = payload_size },
                rw (e, f, g, s, message_alloc, message_init) refl,
                omega (arith, length-zeros size),
              )
        ]
      ]
    ]

create_incoming-done :
    (buffer_size_max number id type : ℕ) (bytes : List ℕ) (size : ℕ) (a b : Bool)
    → 8 ≤ size
    → size < size_t
    → (create_incoming buffer_size_max number id type bytes size a b ≡ done none)
      ⊎ ((op : Operation) × (create_incoming buffer_size_max number id type bytes size a b
            ≡ done (some op))
          × (is_incoming op ≡ true))
unfolding create_incoming create_common is_incoming
create_incoming-done buffer_size_max number id type bytes size a b h k = elim (Bool-cases (not a)) [
  | inl e ↦ inl (rw (e, create_incoming, create_common) refl)
  | inr e ↦
      elim (message_alloc-done buffer_size_max type ((size + size_t - 8) % size_t) b
        (omega arith)) [
          | inl f ↦ inl (rw (e, f, create_incoming, create_common) refl)
          | inr (m, f, l) ↦
              let (buffer, s, _) =
                length-store (take size bytes) m.buffer (omega (arith, length-take size bytes)) in
              let request : Message = record { buffer = buffer; payload_size = m.payload_size } in
              let op : ℕ → Operation = λ flags. record {
                number = number;
                request = request;
                response = none;
                flags = flags;
                type = type;
                id = id;
                errno = ebadr;
                active = 0;
                linked = false;
                kref = 1;
                queued = false;
              } in
              elim (Bool-cases (id == 0)) [
                | inl g ↦ inr (op 3, rw (e, f, g, create_incoming, create_common) (rw s refl), refl)
                | inr g ↦ inr (op 1, rw (e, f, g, create_incoming, create_common) (rw s refl), refl)
              ]
        ]
]

begin-Ready :
    (state : State) (op : Operation)
    → is_incoming op ≡ true
    → (ops : List Operation) → All Ready ops
    → All Ready (begin ops (get_active state op))
unfolding begin
begin-Ready state op i ops r = elim (get_active-cases state op) [
  | inl g ↦
      subst (λ p. All Ready (begin ops p)) (sym g)
        (added (result_set op.errno einprogress).0 (result_set op.errno einprogress).1)
  | inr (x, n, g) ↦ subst (λ p. All Ready (begin ops p)) (sym g) (failed x n)
]
  where
    incoming : (o : Operation) → is_incoming o ≡ true → is_incoming o ≡ false → ⊥
    incoming o a b = absurd (cc)

    added :
        (errno : Errno) (queued : Bool)
        → All Ready (ops ++ (record (activate op) { errno = errno; queued = queued } ∷ []))
    added errno queued =
        let op' : Operation = record (activate op) { errno = errno; queued = queued } in
        append-Ready ops op'
          (λ (out : is_incoming op' ≡ false). absurd (incoming op' (unfold is_incoming in i) out)) r

    failed : (x : Errno) → x ≢ success → All Ready (begin ops (op, x))
    failed success n = absurd (n refl)
    failed x n = r

-- A test decides between two functions that are safe.
if-Safe : (b : Bool) {x y : Checked (List Operation)} → Safe x → Safe y → Safe (if b then x else y)
if-Safe true s t = s
if-Safe false s t = t

recv_request-Safe :
    (state : State) (buffer_size_max : ℕ) (ops : List Operation) (number : ℕ) (a b : Bool)
    (id type : ℕ) (bytes : List ℕ) (size : ℕ)
    → 8 ≤ size
    → size < size_t
    → All Ready ops
    → Safe (recv_request state buffer_size_max ops number a b id type bytes size)
unfolding recv_request
recv_request-Safe state buffer_size_max ops number a b id type bytes size h k r =
    elim (create_incoming-done buffer_size_max number id type bytes size a b h k) [
      | inl e ↦ (ops, rw (e, recv_request) refl, r)
      | inr (op, e, i) ↦
          (begin ops (get_active state op), rw (e, recv_request) refl, begin-Ready state op i ops r)
    ]

-- A message is taken without a write beyond the end of a buffer, and every outgoing operation on the list
-- still has a response buffer that fits, if that held before and the size that the message's header states
-- is at least that of a header. The sizes of responses may be anything; the state of the connection and the
-- outcome of each allocation do not matter.
pub recv-Safe :
    (state : State) (buffer_size_max : ℕ) (ops : List Operation) (number : ℕ) (a b : Bool)
    (bytes : List ℕ)
    → 8 ≤ le16_at bytes 0
    → le16_at bytes 0 < 65536
    → All Ready ops
    → Safe (recv state buffer_size_max ops number a b bytes)
unfolding recv
recv-Safe state buffer_size_max ops number a b bytes h k r =
    let response =
      recv_response-Safe ops (le16_at bytes 2) (get_or bytes 5 0) bytes (le16_at bytes 0)
        (omega arith) r in
    let request =
      recv_request-Safe state buffer_size_max ops number a b (le16_at bytes 2) (get_or bytes 4 0)
        bytes (le16_at bytes 0) h (omega arith) r in
    let unchanged : Safe (done ops) = (ops, refl, r) in
    if-Safe (not (is_open state)) unchanged (
      if-Safe (ltb (length bytes) 8) unchanged (
        if-Safe (ltb (length bytes) (le16_at bytes 0)) unchanged
          (if-Safe (not (bit_and (get_or bytes 4 0) 128 == 0)) response request)))
