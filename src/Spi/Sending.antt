-- ===== src/Spi/Sending.antt =====
-- The sending of a datagram in muc_spi.c.
use motorola_external_greybu.Prelude.{
  ℕ, zero, suc, ◌+◌, ◌-◌, ◌/◌, ◌%◌, bit_and, bit_or, Bool, true, false, not, ◌||◌, List, [], ◌∷◌,
  ◌++◌, ltb, ◌==◌, if◌then◌else◌, take, drop, length,
}
use motorola_external_greybu.Prelude.Errno.{Errno, success, e2big, enodev}
use motorola_external_greybu.Crc.{crc16_calc}
use motorola_external_greybu.Spi.{Spi, pl_size, max_datagram_sz}

-- `MAX_PKTS_PER_DG`, and the values of `HDR_BIT_TYPE`
abbrev pub max_pkts_per_dg : ℕ
max_pkts_per_dg = 64

abbrev pub msg_type_dl : ℕ
msg_type_dl = 0

abbrev pub msg_type_nw : ℕ
msg_type_nw = 64

-- The header's bits of a packet that so many others follow
unfoldable pub bitmask : ℕ → ℕ → Bool → ℕ
bitmask msg_type packets first =
    bit_or (bit_or (bit_or 128 (bit_and msg_type 64)) (bit_and packets 63))
      (if first then 256 else 0)

-- The transmit buffer with its checksum set, from the header's bits and what stands behind the header
unfoldable pub tx_pkt : Spi → ℕ → List ℕ → List ℕ
tx_pkt dd bits area =
    let content = take (dd.pkt_size - 2) (bits % 256 ∷ bits / 256 ∷ area) in
    let crc = crc16_calc 0 content in content ++ (crc % 256 ∷ crc / 256 ∷ [])

-- The payload's size of a packet that is to carry so many bytes
abbrev pub this_pl : ℕ → ℕ → ℕ
this_pl remaining size = if ltb remaining size then remaining else size

-- `transfer` is `muc_spi_transfer`, which exchanges packets with the module: the state that it leaves, since a
-- received packet is parsed, and its result.
module _ (transfer : Spi → List ℕ → Spi × Errno) where
  -- The loop of `__muc_spi_message_send` with the number of packets left, and `size` as the payload's size at
  -- the start; `area` is the transmit buffer behind the header, which keeps the bytes of earlier packets.
  -- The result: the state, the packets sent, and the error.
  unfoldable pub send_packets :
      ℕ → Spi → ℕ → ℕ → List ℕ → Bool → List ℕ → Spi × List (List ℕ) × Errno
  send_packets zero dd size msg_type area first buf = (dd, [], success)
  send_packets (suc packets) dd size msg_type area first buf = elim (length buf == 0) [
    | true ↦ (dd, [], success)
    | false ↦
        let n = this_pl (length buf) size in
        let area' = take n buf ++ drop n area in
        let pkt = tx_pkt dd (bitmask msg_type packets first) area' in
        let exchanged = transfer dd pkt in
        elim exchanged.1 [
          | success ↦
              let rest = send_packets packets exchanged.0 size msg_type area' false (drop n buf) in
              (rest.0, pkt ∷ rest.1, rest.2)
          | e ↦ (exchanged.0, pkt ∷ [], e)
        ]
  ]

  -- `__muc_spi_message_send`; `present` says whether the module is there.
  unfoldable pub message_send : Bool → Spi → ℕ → List ℕ → List ℕ → Spi × List (List ℕ) × Errno
  unfolding send_packets
  message_send present dd msg_type area buf =
      let size = pl_size dd in
      let packets = (length buf + size - 1) / size in
      if not present
      then (dd, [], enodev)
      else if ltb max_datagram_sz (length buf) || ltb max_pkts_per_dg packets
      then (dd, [], e2big)
      else send_packets packets dd size msg_type area true buf
