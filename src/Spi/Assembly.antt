-- ===== src/Spi/Assembly.antt =====
-- What the receiver in muc_spi.c does with a packet of the sender.
use motorola_external_greybu.Prelude.{
  ℕ, suc, ◌+◌, ◌-◌, ◌≤◌, ◌<◌, ◌≡◌, inl, inr, refl, sym, ap, ◌∙◌, bit_and, Bool, true, false, none,
  some, List, [], ◌++◌, ltb, ◌==◌, ==_iff, if◌then◌else◌, take, drop, length, arith, Bool-cases,
}
use motorola_external_greybu.Crc.{crc16_calc}
use motorola_external_greybu.Spi.{
  Spi, ack_needed, Parsed, parsed, pl_size, max_datagram_sz, le16_at, deliver, assemble, sequence,
  parse_valid, parse_rx_pkt,
}
use motorola_external_greybu.Spi.Sending.{bitmask, tx_pkt, msg_type_nw}
use motorola_external_greybu.Spi.Packets.{
  tx_pkt_bits, tx_pkt_payload, tx_pkt-content, tx_pkt-crc, Bits, bitmask-Bits,
}

module _ (is_power_of_2 : ℕ → Bool) (master_max : ℕ) where
  parse_checked :
      (r : Spi) (pkt : List ℕ) (b : ℕ) (area : List ℕ)
      → (le16_at pkt (r.pkt_size - 2) == crc16_calc 0 (take (r.pkt_size - 2) pkt)) ≡ true
      → le16_at pkt 0 ≡ b
      → take (pl_size r) (drop 2 pkt) ≡ area
      → bit_and b 128 ≡ 128
      → bit_and b 640 ≡ 128
      → parse_rx_pkt is_power_of_2 master_max r pkt ≡ parse_valid is_power_of_2 master_max r b area
  unfolding parse_rx_pkt
  parse_checked r pkt b area right low payload valid not_dummy =
      elim (Bool-cases (ltb r.proto_ver 2)) [
        | inl old ↦ rw (right, parse_rx_pkt) (rw (low, payload, old, valid) refl)
        | inr new ↦ rw (right, parse_rx_pkt) (rw (low, payload, new, not_dummy) refl)
      ]

  -- A packet whose checksum is right is parsed for what it holds.
  pub parse_rx_pkt-tx_pkt :
      (dd r : Spi) (first : Bool) (p : ℕ) (area : List ℕ)
      → p < 64
      → 4 ≤ dd.pkt_size
      → r.pkt_size ≡ dd.pkt_size
      → length area ≡ pl_size dd
      → parse_rx_pkt is_power_of_2 master_max r (tx_pkt dd (bitmask msg_type_nw p first) area)
        ≡ parse_valid is_power_of_2 master_max r (bitmask msg_type_nw p first) area
  parse_rx_pkt-tx_pkt dd r first p area h k e l =
      let b = bitmask msg_type_nw p first in
      let bits = bitmask-Bits first p h in
      let pkt = tx_pkt dd b area in
      let size : pl_size r ≡ pl_size dd = rw e refl in
      let low : le16_at pkt 0 ≡ b = tx_pkt_bits dd b area k l bits.word in
      let payload : take (pl_size r) (drop 2 pkt) ≡ area =
        rw size (tx_pkt_payload dd b area k l bits.word) in
      let check : le16_at pkt (r.pkt_size - 2) ≡ crc16_calc 0 (take (r.pkt_size - 2) pkt) = rw e (
        tx_pkt-crc dd b area k l bits.word
        ∙ ap (crc16_calc 0) (sym (tx_pkt-content dd b area k l bits.word))) in
      let right : (le16_at pkt (r.pkt_size - 2) == crc16_calc 0 (take (r.pkt_size - 2) pkt))
          ≡ true =
        (==_iff _ _).1 check in
      parse_checked r pkt b area right low payload bits.valid bits.not_dummy

  -- What becomes of a packet that so many others follow, with the datagram up to and with it
  abbrev pub Assembled : Spi → ℕ → List ℕ → Parsed
  Assembled r p whole =
      if p == 0
      then parsed ack_needed (record r { rx_datagram = []; pkts_remaining = p }) (some whole)
      else parsed ack_needed (record r { rx_datagram = whole; pkts_remaining = p }) none

  pub Assembled-suc :
      (r : Spi) (p : ℕ) (whole : List ℕ)
      → Assembled r (suc p) whole
        ≡ parsed ack_needed (record r { rx_datagram = whole; pkts_remaining = suc p }) none
  Assembled-suc r p whole = ground arith

  assemble-Assembled :
      (r : Spi) (first : Bool) (p b : ℕ) (area : List ℕ)
      → Bits first p b
      → r.pkts_remaining ≡ p
      → length r.rx_datagram < 65536
      → length r.rx_datagram + pl_size r ≤ 65536
      → assemble is_power_of_2 master_max r b area ≡ Assembled r p (r.rx_datagram ++ area)
  unfolding assemble deliver
  assemble-Assembled r first p b area bits q l room =
      let left = bits.left in
      let network = bits.network in
      elim (Bool-cases (p == 0)) [ inl z ↦ ground arith | inr z ↦ ground arith ]

  pub parse_valid-go_on :
      (r s : Spi) (first : Bool) (p b : ℕ) (area : List ℕ)
      → Bits first p b
      → pl_size r < 65536
      → sequence is_power_of_2 master_max r b ≡ (true, s)
      → s.pkts_remaining ≡ p
      → length s.rx_datagram < 65536
      → length s.rx_datagram + pl_size s ≤ 65536
      → parse_valid is_power_of_2 master_max r b area ≡ Assembled s p (s.rx_datagram ++ area)
  unfolding parse_valid
  parse_valid-go_on r s first p b area bits l e q k room =
      let part : (pl_size r == max_datagram_sz) ≡ false = ground arith in
      rw (part, parse_valid)
        (ap
            (λ (g : Bool × Spi).
              if g.0
              then assemble is_power_of_2 master_max g.1 b area
              else parsed ack_needed g.1 none)
            e
          ∙ assemble-Assembled s first p b area bits q k room)

  -- The first packet starts the datagram anew, and a further one is the next that was announced.
  pub sequence-first :
      (r : Spi) (p b : ℕ)
      → Bits true p b
      → 1 ≤ r.proto_ver
      → sequence is_power_of_2 master_max r b
        ≡ (true, record r { rx_datagram = []; pkts_remaining = p })
  unfolding sequence
  sequence-first r p b bits v =
      let start = bits.start in
      let left = bits.left in
      let new : ltb r.proto_ver 1 ≡ false = ground arith in
      rw (new, sequence) (rw (start, left) refl)

  pub sequence-next :
      (r : Spi) (p b : ℕ)
      → Bits false p b
      → 1 ≤ r.proto_ver
      → p < 64
      → r.pkts_remaining ≡ suc p
      → 0 < length r.rx_datagram
      → sequence is_power_of_2 master_max r b ≡ (true, record r { pkts_remaining = p })
  unfolding sequence
  sequence-next r p b bits v h q n = let start = bits.start in let left = bits.left in ground arith
