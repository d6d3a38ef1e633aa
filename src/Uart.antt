-- ===== src/Uart.antt =====
-- Sending and reception in mods_uart.c.
pub mod Bounds
pub mod Frames
pub mod Overflow
mod Tests
use motorola_external_greybu.Prelude.{
  ℕ, zero, suc, ◌+◌, ◌-◌, ◌*◌, ◌/◌, ◌%◌, Bool, true, false, not, ◌&&◌, ◌||◌, Option, none, some,
  List, [], ◌∷◌, ◌++◌, ltb, ◌==◌, if◌then◌else◌, get_or, take, drop, length,
}
use motorola_external_greybu.Prelude.Errno.{Errno, success, e2big, eio, enodev, enomem}

-- `struct mhb_hdr` less its length
pub record Header : Type 0 where
  pub rsvd : ℕ
  pub addr : ℕ
  pub type : ℕ
  pub result : ℕ

-- What `apba_handle_message` gets
pub record Message : Type 0 where
  pub header : Header
  pub payload : List ℕ

-- `struct mods_uart_err_stats`
pub record Stats : Type 0 where
  pub tx_failure : ℕ
  pub rx_crc : ℕ
  pub rx_timeout : ℕ
  pub rx_abort : ℕ
  pub rx_len : ℕ

-- The fields of `struct mods_uart_data` that carry data. `rx_data` is what the buffer holds below `rx_len`.
pub record Uart : Type 0 where
  pub tty : Bool
  pub rx_data : List ℕ
  pub stats : Stats

-- `MHB_MAX_MSG_SIZE`
abbrev pub mhb_max_msg_size : ℕ
mhb_max_msg_size = 2048

-- Two bytes as a `uint16_t`
unfoldable pub le16_at : List ℕ → ℕ → ℕ
le16_at bytes i = get_or bytes i 0 + 256 * get_or bytes (i + 1) 0

-- The result of a call of the tty's `write` that must write all of the bytes
abbrev pub failed_tx : Uart → Uart
failed_tx mud = record mud { stats = record mud.stats { tx_failure = mud.stats.tx_failure + 1 } }

-- The message of a segment in the buffer
unfoldable pub message_at : List ℕ → ℕ → Message
message_at rx size = record {
  header = record {
    rsvd = get_or rx 2 0;
    addr = get_or rx 3 0;
    type = get_or rx 4 0;
    result = get_or rx 5 0;
  };
  payload = take (size - 8) (drop 6 rx);
}

abbrev pub with_message : Option Message → List Message → List Message
with_message none ms = ms
with_message (some m) ms = m ∷ ms

-- A buffer that is full and not consumed is given up.
unfoldable pub abort_full : Uart → Uart
abort_full mud =
    if length mud.rx_data == mhb_max_msg_size
    then record mud { rx_data = []; stats = record mud.stats { rx_abort = mud.stats.rx_abort + 1 } }
    else mud

abbrev pub copy_size : ℕ → ℕ → ℕ
copy_size to_be_consumed rx_len =
    if ltb to_be_consumed (mhb_max_msg_size - rx_len)
    then to_be_consumed
    else mhb_max_msg_size - rx_len

-- The clean-up at the start of `n_mods_uart_receive_buf2`, if the last bytes came long ago.
unfoldable pub clean_up : Bool → Uart → Uart
clean_up late mud =
    if not (length mud.rx_data == 0) && late
    then record mud {
      rx_data = [];
      stats = record mud.stats { rx_timeout = mud.stats.rx_timeout + 1 };
    }
    else mud

-- The kernel's `crc16` from zero over some bytes
module _ (crc16 : List ℕ → ℕ) where
  -- The header and the payload of a packet
  unfoldable pub packet : Message → List ℕ
  packet m =
      let size = length m.payload + 8 in
      size % 65536 % 256
      ∷ size % 65536 / 256
      ∷ m.header.rsvd
      ∷ m.header.addr
      ∷ m.header.type
      ∷ m.header.result
      ∷ m.payload

  -- The checksum that follows the packet
  unfoldable pub checksum : Message → List ℕ
  unfolding packet
  checksum m = crc16 (packet m) % 256 ∷ crc16 (packet m) / 256 ∷ []

  -- `mods_uart_send_internal`: the state, the bytes handed to the tty, and the result. `alloc` is the outcome
  -- of the allocation, and `written` and `written_crc` tell whether the tty takes all bytes.
  unfoldable pub send : Uart → Message → Bool → Bool → Bool → Uart × List ℕ × Errno
  unfolding packet checksum
  send mud m alloc written written_crc =
      if ltb mhb_max_msg_size (length m.payload)
      then (failed_tx mud, [], e2big)
      else if not alloc
      then (failed_tx mud, [], enomem)
      else if not mud.tty
      then (mud, [], enodev)
      else if not written
      then (failed_tx mud, packet m, eio)
      else if not written_crc
      then (failed_tx mud, packet m ++ checksum m, eio)
      else (mud, packet m ++ checksum m, success)

  -- `mods_uart_consume_segment`: the state, the message that is handled, and what is returned.
  unfoldable pub consume_segment : Uart → Uart × Option Message × Bool
  consume_segment mud =
      let rx = mud.rx_data in
      let size = le16_at rx 0 in
      if ltb (length rx) 6
      then (mud, none, false)
      else if ltb size 8 || ltb mhb_max_msg_size size
      then (
        record mud { rx_data = []; stats = record mud.stats { rx_len = mud.stats.rx_len + 1 } },
        none,
        false,
      )
      else if ltb (length rx) size
      then (mud, none, false)
      else if not (le16_at rx (size - 2) == crc16 (take (size - 2) rx))
      then (
        record mud { rx_data = []; stats = record mud.stats { rx_crc = mud.stats.rx_crc + 1 } },
        none,
        false,
      )
      else (
        record mud { rx_data = drop size rx },
        some (message_at rx size),
        not (length (drop size rx) == 0),
      )

  -- The loop over the segments; without fuel the result is `none`.
  unfoldable pub consume_all : ℕ → Uart → Option (Uart × List Message)
  consume_all zero mud = none
  consume_all (suc fuel) mud =
      let step = consume_segment mud in
      elim step.2 [
        | false ↦ some (step.0, with_message step.1 [])
        | true ↦ elim (consume_all fuel step.0) [
          | none ↦ none
          | some (mud', ms) ↦ some (mud', with_message step.1 ms)
        ]
      ]

  -- One round of the loop of `n_mods_uart_receive_buf2`. Every round copies from the first byte of `cp` on.
  unfoldable pub receive_round : Uart → List ℕ → ℕ → Option (Uart × List Message)
  unfolding abort_full
  receive_round mud0 cp to_be_consumed =
      let mud = abort_full mud0 in
      let rx = mud.rx_data ++ take (copy_size to_be_consumed (length mud.rx_data)) cp in
      consume_all (suc (length rx)) (record mud { rx_data = rx })

  -- The loop of `n_mods_uart_receive_buf2`; each round consumes a byte at least.
  unfoldable pub receive_loop : ℕ → Uart → List ℕ → ℕ → Option (Uart × List Message)
  unfolding abort_full
  receive_loop zero mud cp to_be_consumed = if to_be_consumed == 0 then some (mud, []) else none
  receive_loop (suc fuel) mud cp to_be_consumed = elim (to_be_consumed == 0) [
    | true ↦ some (mud, [])
    | false ↦ elim (receive_round mud cp to_be_consumed) [
      | none ↦ none
      | some (mud', ms) ↦
          elim (receive_loop fuel mud' cp
            (to_be_consumed - copy_size to_be_consumed (length (abort_full mud).rx_data))) [
              | none ↦ none
              | some (mud'', ns) ↦ some (mud'', ms ++ ns)
            ]
    ]
  ]

  -- `n_mods_uart_receive_buf2`
  unfoldable pub receive_buf2 : Bool → Uart → List ℕ → Option (Uart × List Message)
  unfolding clean_up
  receive_buf2 late mud cp = receive_loop (length cp) (clean_up late mud) cp (length cp)
