-- ===== src/Spi/Tests.antt =====
-- A packet and a datagram over SPI.
use motorola_external_greybu.Prelude.{
  ℕ, zero, suc, ◌≤◌, ◌≡◌, ◌++◌, length, refl, Bool, true, false, some, List, [], ◌∷◌, ◌==◌, not,
  take, arith,
}
use motorola_external_greybu.Prelude.Errno.{Errno, success}
use motorola_external_greybu.Spi.Sending.{message_send, msg_type_nw}
use motorola_external_greybu.Spi.RoundTrip.{receive, receive-message_send}
use motorola_external_greybu.Spi.{Spi, parse_rx_pkt}
use motorola_external_greybu.Spi.Transfer.{SpiLink, Try, transfer, retries}
use motorola_external_greybu.Spi.Exchange.{Outcome, transfer-Outcome}
use motorola_external_greybu.Spi.Bounds.{PowerLaw, Aligned, Taken, parse_rx_pkt-Taken}

-- A test that is true for one power of two
abbrev is_32 : ℕ → Bool
is_32 n = n == 32

is_32-PowerLaw : PowerLaw is_32
is_32-PowerLaw n h = (5, ground arith)

abbrev detached : Spi
detached = record {
  attached = false;
  attach = false;
  max_speed_hz = 1000;
  proto_ver = 0;
  ack_supported = false;
  pkt_size = 36;
  rx_datagram = [];
  pkts_remaining = 0;
}

detached-Aligned : Aligned detached
detached-Aligned = record { size = (2048, refl); room = (2048, refl) }

-- A valid packet for the network, with its checksum
abbrev one_packet : List ℕ
one_packet =
    192 ∷ 0 ∷ 7 ∷ 7 ∷ 7 ∷ 7 ∷ 7 ∷ 7 ∷ 7 ∷ 7 ∷ 7 ∷ 7 ∷ 7 ∷ 7 ∷ 7 ∷ 7 ∷ 7 ∷ 7 ∷ 7 ∷ 7 ∷ 7 ∷ 7 ∷ 7 ∷ 7
    ∷ 7 ∷ 7 ∷ 7 ∷ 7 ∷ 7 ∷ 7 ∷ 7 ∷ 7 ∷ 7 ∷ 7 ∷ 106 ∷ 132 ∷ []

parse_rx_pkt-Taken_example : Taken is_32 is_32-PowerLaw 0 (parse_rx_pkt is_32 0 detached one_packet)
parse_rx_pkt-Taken_example =
    parse_rx_pkt-Taken is_32 is_32-PowerLaw 0 detached one_packet (omega arith) (omega arith)
      detached-Aligned

-- What an earlier packet left behind the header
abbrev packet_area : List ℕ → List ℕ
packet_area pkt = take 32 pkt

-- A network device whose packets carry 32 bytes, and a module that sends nothing back
abbrev newer : Spi
newer = record detached { proto_ver = 1 }

abbrev silent : Spi → List ℕ → Spi × Errno
silent dd pkt = (dd, success)

abbrev greeting : List ℕ
greeting = 3 ∷ 1 ∷ 4 ∷ []

receive-message_send_example :
    let sent = message_send silent true newer msg_type_nw (packet_area one_packet) greeting in
    (sent.2 ≡ success)
    × ((d : List ℕ) × (take 3 d ≡ greeting) × (receive is_32 0 newer sent.1 ≡ some (newer, d ∷ [])))
receive-message_send_example =
    receive-message_send is_32 0 silent newer (λ pkt. refl) newer (packet_area one_packet) greeting
      (omega arith) (omega arith) refl refl (omega arith) (omega arith) (omega arith) (omega arith)
      (2048, refl)

-- The module misses the first try, and answers the second one.
zeros : ℕ → List ℕ
zeros zero = []
zeros (suc n) = 0 ∷ zeros n

length-zeros : (n : ℕ) → length (zeros n) ≡ n
unfolding zeros
length-zeros zero = refl
length-zeros (suc n) = omega (arith, length-zeros n)

abbrev tries : ℕ → Try
tries i = record {
  ready = not (i == 2);
  present = true;
  exchange = success;
  rx_pkt = one_packet ++ zeros 65540;
  ack = true;
  int_n = true;
}

tries-long : (i : ℕ) → 65540 ≤ length (tries i).rx_pkt
tries-long i = omega (arith, length-zeros 65540)

abbrev link : SpiLink
link = record {
  dd = record detached { ack_supported = true };
  tx_valid = true;
  ack_output = false;
  ack_pin = false;
  wake_n = true;
  no_ack_sent = 0;
  no_ack_rcvd = 0;
  no_ack_abort = 0;
  delivered = [];
}

link-Aligned : Aligned link.dd
link-Aligned = record { size = (2048, refl); room = (2048, refl) }

transfer-Outcome_example : Outcome tries retries (transfer is_32 0 true tries retries link)
transfer-Outcome_example =
    transfer-Outcome is_32 is_32-PowerLaw 0 true tries retries link tries-long link-Aligned
