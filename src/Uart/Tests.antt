-- ===== src/Uart/Tests.antt =====
-- Runs of mods_uart.c, and the theorems at them.
use motorola_external_greybu.Prelude.{
  ℕ, zero, suc, ◌+◌, ◌%◌, ◌≡◌, ◌<◌, refl, true, false, some, List, [], ◌∷◌, ◌++◌, length, take,
  arith,
}
use motorola_external_greybu.Prelude.Errno.{success}
use motorola_external_greybu.Uart.{Uart, Message, send, receive_buf2, mhb_max_msg_size}
use motorola_external_greybu.Uart.Bounds.{Ends, receive_buf2-Ends}
use motorola_external_greybu.Uart.Frames.{frame, receive_all, receive_all-send}
use motorola_external_greybu.Uart.Overflow.{receive_buf2-repeats}

abbrev sum : List ℕ → ℕ
sum [] = 0
sum (x ∷ xs) = x + sum xs

-- A checksum of 16 bits
abbrev sum16 : List ℕ → ℕ
sum16 bytes = sum bytes % 65536

sum16_bound : (bytes : List ℕ) → sum16 bytes < 65536
sum16_bound bytes = omega arith

abbrev open_uart : Uart
open_uart = record {
  tty = true;
  rx_data = [];
  stats = record { tx_failure = 0; rx_crc = 0; rx_timeout = 0; rx_abort = 0; rx_len = 0 };
}

abbrev wake : Message
wake = record { header = record { rsvd = 0; addr = 1; type = 2; result = 0 }; payload = 5 ∷ 6 ∷ [] }

-- The bytes of the message in three chunks
abbrev chunks : List (List ℕ)
chunks = (10 ∷ 0 ∷ 0 ∷ []) ∷ (1 ∷ 2 ∷ 0 ∷ 5 ∷ 6 ∷ []) ∷ (24 ∷ 0 ∷ []) ∷ []

abbrev zero_bytes : ℕ → List ℕ
zero_bytes zero = []
zero_bytes (suc n) = 0 ∷ zero_bytes n

length-zero_bytes : (n : ℕ) → length (zero_bytes n) ≡ n
length-zero_bytes zero = refl
length-zero_bytes (suc n) = omega (arith, length-zero_bytes n)

-- A message that fills the buffer
abbrev large : Message
large = record { header = wake.header; payload = zero_bytes 2040 }

receive_all-send_example :
    ((send sum16 open_uart wake true true true).2 ≡ success)
    × (receive_all sum16 sum16_bound chunks open_uart ≡ some (open_uart, wake ∷ []))
unfolding send
receive_all-send_example =
    receive_all-send sum16 sum16_bound open_uart open_uart wake chunks (omega arith) refl refl refl

receive_buf2-Ends_example : Ends mhb_max_msg_size (receive_buf2 sum16 false open_uart (7 ∷ 8 ∷ []))
receive_buf2-Ends_example = receive_buf2-Ends sum16 false open_uart (7 ∷ 8 ∷ []) (omega arith)

receive_buf2-repeats_example :
    receive_buf2 sum16 false open_uart
      (frame sum16 sum16_bound large ++ frame sum16 sum16_bound wake)
    ≡ some (
      record open_uart {
        rx_data = take (length (frame sum16 sum16_bound wake)) (frame sum16 sum16_bound large);
      },
      large ∷ [],
    )
receive_buf2-repeats_example =
    receive_buf2-repeats sum16 sum16_bound open_uart large wake refl (length-zero_bytes 2040)
      (omega arith)
