-- ===== src/Uart/Bounds.antt =====
-- The reception of mods_uart.c ends, and its buffer never overflows.
use motorola_external_greybu.Prelude.{
  ℕ, zero, suc, ◌-◌, ◌≤◌, ◌<◌, ◌≡◌, inl, inr, refl, Bool, true, Option, some, List, [], ◌++◌, ◌==◌,
  take, length, arith, Bool-cases, length-append, length-take, length-drop,
}
use motorola_external_greybu.Uart.{
  Uart, Message, mhb_max_msg_size, le16_at, consume_segment, consume_all, abort_full, copy_size,
  receive_round, receive_loop, clean_up, receive_buf2, with_message,
}

-- The loop ends with a buffer of at most so many bytes.
abbrev pub Ends : ℕ → Option (Uart × List Message) → Type 0
Ends n out = (mud : Uart) × (ms : List Message) × (out ≡ some (mud, ms)) × (length mud.rx_data ≤ n)

module _ (crc16 : List ℕ → ℕ) where
  consume_segment-shrinks :
      (mud : Uart)
      → (length (consume_segment crc16 mud).0.rx_data ≤ length mud.rx_data)
        × ((consume_segment crc16 mud).2 ≡ true
            → length (consume_segment crc16 mud).0.rx_data < length mud.rx_data)
  unfolding consume_segment
  consume_segment-shrinks mud =
      let shorter = length-drop (le16_at mud.rx_data 0) mud.rx_data in
      (ground arith, λ h. ground arith)

  pub consume_all-Ends :
      (fuel : ℕ) (mud : Uart)
      → length mud.rx_data < fuel
      → Ends (length mud.rx_data) (consume_all crc16 fuel mud)
  unfolding consume_all
  consume_all-Ends zero mud h = absurd (omega arith)
  consume_all-Ends (suc fuel) mud h =
      let (le, lt) = consume_segment-shrinks mud in
      let step = consume_segment crc16 mud in
      elim (Bool-cases step.2) [
        | inr e ↦ (step.0, with_message step.1 [], rw (e, consume_all) refl, le)
        | inl e ↦
            let (mud', ms, q, l) = consume_all-Ends fuel step.0 (omega (arith, lt e)) in
            (
              mud',
              with_message step.1 ms,
              rw (e, consume_all) (rw (q, consume_all) refl),
              omega (arith, lt e),
            )
      ]

  -- There is room for a byte once a full buffer is given up.
  pub abort_full_room :
      (mud : Uart)
      → length mud.rx_data ≤ mhb_max_msg_size
      → length (abort_full mud).rx_data < mhb_max_msg_size
  unfolding abort_full
  abort_full_room mud h = ground arith

  receive_round-Ends :
      (mud : Uart) (cp : List ℕ) (n : ℕ)
      → length mud.rx_data ≤ mhb_max_msg_size
      → Ends mhb_max_msg_size (receive_round crc16 mud cp n)
  unfolding receive_round
  receive_round-Ends mud0 cp n h =
      let mud = abort_full mud0 in
      let room = abort_full_room mud0 h in
      let c = copy_size n (length mud.rx_data) in
      let rx = mud.rx_data ++ take c cp in
      let c_room : c ≤ mhb_max_msg_size - length mud.rx_data = ground arith in
      let (mud', ms, q, l) =
        consume_all-Ends (suc (length rx)) (record mud { rx_data = rx }) (omega arith) in
      (mud', ms, q, omega (arith, length-append mud.rx_data (take c cp), length-take c cp))

  receive_loop-Ends :
      (fuel : ℕ) (mud : Uart) (cp : List ℕ) (n : ℕ)
      → n ≤ fuel
      → length mud.rx_data ≤ mhb_max_msg_size
      → Ends mhb_max_msg_size (receive_loop crc16 fuel mud cp n)
  unfolding receive_loop
  receive_loop-Ends zero mud cp n h l = (mud, [], ground arith, l)
  receive_loop-Ends (suc fuel) mud cp n h l = elim (Bool-cases (n == 0)) [
    | inl e ↦ (mud, [], rw (e, receive_loop) refl, l)
    | inr e ↦
        let (mud', ms, q, l') = receive_round-Ends mud cp n l in
        let c = copy_size n (length (abort_full mud).rx_data) in
        let room = abort_full_room mud l in
        let less : n - c ≤ fuel = ground arith in
        let (mud'', ns, q', l'') = receive_loop-Ends fuel mud' cp (n - c) less l' in
        (
          mud'',
          ms ++ ns,
          rw (e, receive_loop) (rw (q, receive_loop) (rw (q', receive_loop) refl)),
          l'',
        )
  ]

  -- Whatever bytes arrive, `n_mods_uart_receive_buf2` ends, and the bytes in its buffer are at most as many as
  -- the buffer holds, if they were so before.
  pub receive_buf2-Ends :
      (late : Bool) (mud : Uart) (cp : List ℕ)
      → length mud.rx_data ≤ mhb_max_msg_size
      → Ends mhb_max_msg_size (receive_buf2 crc16 late mud cp)
  unfolding receive_buf2 clean_up
  receive_buf2-Ends late mud cp h =
      receive_loop-Ends (length cp) (clean_up late mud) cp (length cp) (omega arith) (ground arith)
