-- ===== src/Uart/Frames.antt =====
-- What mods_uart.c sends is what it receives, however the tty cuts the bytes.
use motorola_external_greybu.Prelude.{
  ℕ, zero, suc, ◌+◌, ◌-◌, ◌≤◌, ◌<◌, ◌≡◌, inl, inr, refl, sym, ap, ◌∙◌, true, false, not, Option,
  none, some, List, [], ◌∷◌, ◌++◌, ltb, ◌==◌, get_or, take, drop, length, arith, Bool-cases,
  length-append, take-append, drop-append, take_all, get_or-append_left, get_or-append_right,
}
use motorola_external_greybu.Prelude.Errno.{success}
use motorola_external_greybu.Uart.{
  Uart, Message, mhb_max_msg_size, le16_at, packet, checksum, send, message_at, with_message,
  consume_segment, consume_all, abort_full, copy_size, receive_round, receive_loop, clean_up,
  receive_buf2,
}
use mathlib.Core.List.{append-nil, append_assoc}

le16_at-append_right : (xs ys : List ℕ) → le16_at (xs ++ ys) (length xs) ≡ le16_at ys 0
unfolding le16_at
le16_at-append_right xs ys =
    let at : length xs + 0 ≡ length xs = omega arith in
    let low : get_or (xs ++ ys) (length xs) 0 ≡ get_or ys 0 0 =
      ap (λ i. get_or (xs ++ ys) i 0) (sym at) ∙ get_or-append_right xs ys 0 0 in
    omega (arith, low, get_or-append_right xs ys 1 0)

le16_at-append_left : (xs ys : List ℕ) → 2 ≤ length xs → le16_at (xs ++ ys) 0 ≡ le16_at xs 0
unfolding le16_at
le16_at-append_left xs ys h = omega (
  arith,
  get_or-append_left xs ys 0 0 (omega arith),
  get_or-append_left xs ys (0 + 1) 0 (omega arith),
)

module _ (crc16 : List ℕ → ℕ) (word : (bytes : List ℕ) → crc16 bytes < 65536) where
  -- The bytes of a message on the wire
  abbrev pub frame : Message → List ℕ
  frame m = packet crc16 m ++ checksum crc16 m

  -- A message that an identical receiver takes
  abbrev pub Short : Message → Type 0
  Short m = length m.payload ≤ 2040

  length-packet : (m : Message) → length (packet crc16 m) ≡ length m.payload + 6
  unfolding packet
  length-packet m = omega arith

  length-checksum : (m : Message) → length (checksum crc16 m) ≡ 2
  unfolding checksum
  length-checksum m = refl

  pub length-frame : (m : Message) → length (frame m) ≡ length m.payload + 8
  length-frame m =
      omega (
        arith,
        length-append (packet crc16 m) (checksum crc16 m),
        length-packet m,
        length-checksum m,
      )

  size-frame :
      (m : Message) (rest : List ℕ) → Short m → le16_at (frame m ++ rest) 0 ≡ length m.payload + 8
  unfolding packet le16_at
  size-frame m rest h = omega arith

  -- The parts of a frame at the front of the buffer
  module _ (m : Message) (rest : List ℕ) where
    content-frame : take (length m.payload + 6) (frame m ++ rest) ≡ packet crc16 m
    content-frame =
        rw (← length-packet m)
          (rw append_assoc (take-append (packet crc16 m) (checksum crc16 m ++ rest)))

    rest-frame : drop (length m.payload + 8) (frame m ++ rest) ≡ rest
    rest-frame = rw (← length-frame m) (drop-append (frame m) rest)

    checksum-frame : le16_at (frame m ++ rest) (length m.payload + 6) ≡ crc16 (packet crc16 m)
    checksum-frame =
        rw (← length-packet m)
          (rw append_assoc (le16_at-append_right (packet crc16 m) (checksum crc16 m ++ rest) ∙ sum))
      where
        sum : le16_at (checksum crc16 m ++ rest) 0 ≡ crc16 (packet crc16 m)
        sum = let b = word (packet crc16 m) in unfold le16_at checksum in omega arith

    message-frame : message_at (frame m ++ rest) (length m.payload + 8) ≡ m
    unfolding message_at packet
    message-frame =
        let size : length m.payload + 8 - 8 ≡ length m.payload = omega arith in
        let tail = checksum crc16 m ++ rest in
        let payload : take (length m.payload + 8 - 8) ((m.payload ++ checksum crc16 m) ++ rest)
            ≡ m.payload =
          rw size (rw append_assoc (take-append m.payload tail)) in
        ap (λ (p : List ℕ). let r : Message = record { header = m.header; payload = p } in r)
          payload

  -- A whole frame at the front of the buffer is handled.
  pub consume_segment-frame :
      (mud : Uart) (m : Message) (rest : List ℕ)
      → Short m
      → mud.rx_data ≡ frame m ++ rest
      → consume_segment crc16 mud ≡ (record mud { rx_data = rest }, some m, not (length rest == 0))
  unfolding consume_segment
  consume_segment-frame mud m rest h e =
      let rx = mud.rx_data in
      let n = length m.payload + 8 in
      let size : le16_at rx 0 ≡ n = ap (λ b. le16_at b 0) e ∙ size-frame m rest h in
      let long : length rx ≡ n + length rest =
        omega (arith, ap length e, length-append (frame m) rest, length-frame m) in
      let content : n - 2 ≡ length m.payload + 6 = omega arith in
      let same : le16_at rx (n - 2) ≡ crc16 (take (n - 2) rx) =
        rw (content, e) (checksum-frame m rest ∙ ap crc16 (sym (content-frame m rest))) in
      let left : drop n rx ≡ rest = rw e (rest-frame m rest) in
      let message : message_at rx n ≡ m = rw e (message-frame m rest) in ground arith

  -- The start of a frame waits.
  pub consume_segment-start :
      (mud : Uart) (m : Message) (rest : List ℕ)
      → Short m
      → mud.rx_data ++ rest ≡ frame m
      → 0 < length rest
      → consume_segment crc16 mud ≡ (mud, none, false)
  unfolding consume_segment
  consume_segment-start mud m rest h e l =
      let whole : length mud.rx_data + length rest ≡ length m.payload + 8 =
        omega (arith, length-append mud.rx_data rest, ap length e, length-frame m) in
      elim (Bool-cases (ltb (length mud.rx_data) 6)) [
        | inl f ↦ rw (f, consume_segment) refl
        | inr f ↦
            let size : le16_at mud.rx_data 0 ≡ length m.payload + 8 =
              sym (le16_at-append_left mud.rx_data rest (ground arith))
              ∙ ap (λ b. le16_at b 0) (e ∙ sym (append-nil (frame m)))
              ∙ size-frame m [] h in
            ground arith
      ]

  pub consume_all-last :
      (fuel : ℕ) (mud mud' : Uart) (o : Option Message)
      → consume_segment crc16 mud ≡ (mud', o, false)
      → consume_all crc16 (suc fuel) mud ≡ some (mud', with_message o [])
  unfolding consume_all
  consume_all-last fuel mud mud' o e =
      let ends : (consume_segment crc16 mud).2 ≡ false = ap (λ s. s.2) e in
      rw (ends, consume_all) (ap (λ s. some (s.0, with_message s.1 [])) e)

  -- Nothing is left to be consumed.
  receive_loop-none :
      (fuel : ℕ) (mud : Uart) (cp : List ℕ) → receive_loop crc16 fuel mud cp 0 ≡ some (mud, [])
  unfolding receive_loop
  receive_loop-none zero mud cp = refl
  receive_loop-none (suc fuel) mud cp = refl

  pub receive_loop-last :
      (fuel n : ℕ) (mud mud' : Uart) (cp : List ℕ) (ms : List Message)
      → 0 < n
      → receive_round crc16 mud cp n ≡ some (mud', ms)
      → n - copy_size n (length (abort_full mud).rx_data) ≡ 0
      → receive_loop crc16 (suc fuel) mud cp n ≡ some (mud', ms)
  unfolding receive_loop
  receive_loop-last fuel n mud mud' cp ms h e z =
      let more : (n == 0) ≡ false = ground arith in
      rw (more, receive_loop)
        (rw (e, receive_loop)
          (rw (z, receive_loop)
            (rw (receive_loop-none fuel mud' cp, receive_loop)
              (ap (λ l. some (mud', l)) (append-nil ms)))))

  -- Bytes that fit the buffer are taken in one round.
  receive_buf2-round :
      (mud mud' : Uart) (cp : List ℕ) (ms : List Message)
      → 0 < length cp
      → length mud.rx_data < mhb_max_msg_size
      → length mud.rx_data + length cp ≤ mhb_max_msg_size
      → consume_all crc16
          (suc (length (mud.rx_data ++ cp)))
          (record mud { rx_data = mud.rx_data ++ cp })
        ≡ some (mud', ms)
      → receive_buf2 crc16 false mud cp ≡ some (mud', ms)
  receive_buf2-round mud mud' [] ms p l r e = absurd (omega arith)
  receive_buf2-round mud mud' (b ∷ bs) ms p l r e =
      let cp = b ∷ bs in
      let kept : abort_full mud ≡ mud = unfold abort_full in ground arith in
      let clean : clean_up false mud ≡ mud = unfold clean_up in ground arith in
      let size : copy_size (length cp) (length mud.rx_data) ≡ length cp = ground arith in
      let round : receive_round crc16 mud cp (length cp) ≡ some (mud', ms) =
        unfold receive_round in rw kept (rw size (rw (take_all (length cp) cp (omega arith)) e)) in
      unfold receive_buf2 in
      rw clean (
        receive_loop-last (length bs) (length cp) mud mud' cp ms (omega arith) round
          (rw kept (rw size (omega arith))))

  -- A chunk that does not complete the frame waits, and one that completes it hands the message over.
  receive_buf2-start :
      (mud : Uart) (cp rest : List ℕ) (m : Message)
      → Short m
      → 0 < length cp
      → (mud.rx_data ++ cp) ++ rest ≡ frame m
      → 0 < length rest
      → receive_buf2 crc16 false mud cp ≡ some (record mud { rx_data = mud.rx_data ++ cp }, [])
  receive_buf2-start mud cp rest m h p e l =
      let size : length mud.rx_data + length cp + length rest ≡ length m.payload + 8 = omega (
        arith,
        ap length e,
        length-append (mud.rx_data ++ cp) rest,
        length-append mud.rx_data cp,
        length-frame m,
      ) in
      let mud' : Uart = record mud { rx_data = mud.rx_data ++ cp } in
      let wait = consume_segment-start mud' m rest h e l in
      receive_buf2-round mud mud' cp [] p (omega (arith, size)) (omega (arith, size))
        (consume_all-last (length (mud.rx_data ++ cp)) mud' mud' none wait)

  receive_buf2-frame :
      (mud : Uart) (cp : List ℕ) (m : Message)
      → Short m
      → 0 < length cp
      → mud.rx_data ++ cp ≡ frame m
      → receive_buf2 crc16 false mud cp ≡ some (record mud { rx_data = [] }, m ∷ [])
  receive_buf2-frame mud cp m h p e =
      let mud' : Uart = record mud { rx_data = mud.rx_data ++ cp } in
      let size : length mud.rx_data + length cp ≡ length m.payload + 8 =
        omega (arith, ap length e, length-append mud.rx_data cp, length-frame m) in
      let took = consume_segment-frame mud' m [] h (e ∙ sym (append-nil (frame m))) in
      receive_buf2-round mud (record mud { rx_data = [] }) cp (m ∷ []) p (omega (arith, size))
        (omega (arith, size))
        (consume_all-last (length (mud.rx_data ++ cp)) mud' (record mud { rx_data = [] }) (some m)
          took)

  -- The reception of several chunks, one after the other
  abbrev pub receive_all : List (List ℕ) → Uart → Option (Uart × List Message)
  receive_all [] mud = some (mud, [])
  receive_all (cp ∷ cps) mud = elim (receive_buf2 crc16 false mud cp) [
    | none ↦ none
    | some (mud', ms) ↦ elim (receive_all cps mud') [
      | none ↦ none
      | some (mud'', ns) ↦ some (mud'', ms ++ ns)
    ]
  ]

  abbrev pub concat : List (List ℕ) → List ℕ
  concat [] = []
  concat (xs ∷ xss) = xs ++ concat xss

  receive_all-cons :
      (cp : List ℕ) (cps : List (List ℕ)) (mud mud' mud'' : Uart) (ms ns : List Message)
      → receive_buf2 crc16 false mud cp ≡ some (mud', ms)
      → receive_all cps mud' ≡ some (mud'', ns)
      → receive_all (cp ∷ cps) mud ≡ some (mud'', ms ++ ns)
  receive_all-cons cp cps mud mud' mud'' ms ns p q = rw (p, receive_all) (rw (q, receive_all) refl)

  receive_buf2-nil : (mud : Uart) → receive_buf2 crc16 false mud [] ≡ some (mud, [])
  unfolding receive_buf2 clean_up receive_loop
  receive_buf2-nil mud = ground arith

  receive_all-none :
      (cps : List (List ℕ)) (mud : Uart)
      → length (concat cps) ≡ 0
      → receive_all cps mud ≡ some (mud, [])
  receive_all-none [] mud e = refl
  receive_all-none ([] ∷ cps) mud e =
      let ih = receive_all-none cps mud e in
      receive_all-cons [] cps mud mud mud [] [] (receive_buf2-nil mud) ih
  receive_all-none ((b ∷ bs) ∷ cps) mud e = absurd (omega arith)

  receive_all-rest :
      (cps : List (List ℕ)) (mud : Uart) (m : Message)
      → Short m
      → mud.rx_data ++ concat cps ≡ frame m
      → 0 < length (concat cps)
      → receive_all cps mud ≡ some (record mud { rx_data = [] }, m ∷ [])
  receive_all-rest [] mud m h e l = absurd (omega arith)
  receive_all-rest ([] ∷ cps) mud m h e l =
      let ih = receive_all-rest cps mud m h e l in
      receive_all-cons [] cps mud mud (record mud { rx_data = [] }) [] (m ∷ [])
        (receive_buf2-nil mud) ih
  receive_all-rest ((b ∷ bs) ∷ cps) mud m h e l =
      let cp = b ∷ bs in
      let next : Uart = record mud { rx_data = mud.rx_data ++ cp } in
      let whole : (mud.rx_data ++ cp) ++ concat cps ≡ frame m =
        append_assoc mud.rx_data cp (concat cps) ∙ e in
      elim (Bool-cases (length (concat cps) == 0)) [
        | inl z ↦
            let none_left : concat cps ≡ [] = nothing_left (concat cps) (ground arith) in
            let done : mud.rx_data ++ cp ≡ frame m =
              sym (append-nil (mud.rx_data ++ cp))
              ∙ ap (λ r. (mud.rx_data ++ cp) ++ r) (sym none_left)
              ∙ whole in
            let empty : Uart = record mud { rx_data = [] } in
            receive_all-cons cp cps mud empty empty (m ∷ []) []
              (receive_buf2-frame mud cp m h (omega arith) done)
              (receive_all-none cps empty (ground arith))
        | inr z ↦
            let ih = receive_all-rest cps next m h whole (ground arith) in
            receive_all-cons cp cps mud next (record mud { rx_data = [] }) [] (m ∷ [])
              (receive_buf2-start mud cp (concat cps) m h (omega arith) whole (ground arith)) ih
      ]
    where
      nothing_left : (xs : List ℕ) → length xs ≡ 0 → xs ≡ []
      nothing_left [] h = refl
      nothing_left (x ∷ xs) h = absurd (omega arith)

  -- If the tty takes the bytes of a message that `mods_uart_send_internal` is to send, and a receiver with an
  -- empty buffer and the same checksum gets them in time, cut into chunks in any way, then it hands over this
  -- message once, and its buffer is empty and its counts of errors are as before. The payload has at most
  -- 2040 bytes.
  pub receive_all-send :
      (sender receiver : Uart) (m : Message) (chunks : List (List ℕ))
      → Short m
      → sender.tty ≡ true
      → receiver.rx_data ≡ []
      → concat chunks ≡ (send crc16 sender m true true true).1
      → ((send crc16 sender m true true true).2 ≡ success)
        × (receive_all chunks receiver ≡ some (receiver, m ∷ []))
  unfolding send
  receive_all-send sender receiver m chunks h t r e =
      let sent : send crc16 sender m true true true ≡ (sender, frame m, success) = ground arith in
      let stream : concat chunks ≡ frame m = e ∙ ap (λ s. s.1) sent in
      let longer : 0 < length (concat chunks) = omega (arith, ap length stream, length-frame m) in
      let received =
        receive_all-rest chunks receiver m h (ap (λ d. d ++ concat chunks) r ∙ stream) longer in
      (
        ap (λ s. s.2) sent,
        received
            ∙ ap (λ d. some (let u : Uart = record receiver { rx_data = d } in u, m ∷ [])) (sym r),
      )
