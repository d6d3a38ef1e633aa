-- ===== src/Spi.antt =====
-- The reception of packets over SPI in muc_spi.c.
pub mod Bounds
pub mod Sending
pub mod Packets
pub mod Assembly
pub mod RoundTrip
pub mod Transfer
pub mod Exchange
mod Tests
use motorola_external_greybu.Prelude.{
  ℕ, zero, suc, ◌+◌, ◌-◌, ◌*◌, ◌/◌, ◌%◌, bit_and, Bool, true, false, not, ◌&&◌, ◌||◌, Option, none,
  some, List, [], ◌∷◌, ◌++◌, ltb, leb, ◌==◌, if◌then◌else◌, get_or, take, drop, length,
}
use motorola_external_greybu.Prelude.Errno.{Errno, success, einval}
use motorola_external_greybu.Crc.{crc16_calc}

-- `enum ack`
pub data Ack : Type 0 where
  ack_needed ack_not_needed ack_error : Ack

-- The fields of `struct muc_spi_data` that the reception uses. `rx_datagram` is what the buffer holds below
-- `rx_datagram_ndx`, and `attach` says that the work to report the attachment is scheduled.
pub record Spi : Type 0 where
  pub attached : Bool
  pub attach : Bool
  pub max_speed_hz : ℕ
  pub proto_ver : ℕ
  pub ack_supported : Bool
  pub pkt_size : ℕ
  pub rx_datagram : List ℕ
  pub pkts_remaining : ℕ

-- The message that `mods_nw_switch` gets, if it is called
abbrev pub Delivered : Type 0
Delivered = Option (List ℕ)

-- What `parse_rx_pkt` does: the answer, the state and the call, or a write beyond the datagram's buffer.
pub data Parsed : Type 0 where
  parsed : Ack → Spi → Delivered → Parsed
  overrun : Parsed

abbrev pub max_datagram_sz : ℕ
max_datagram_sz = 65536

-- Header and checksum take two bytes each.
abbrev pub pl_size : Spi → ℕ
pl_size dd = dd.pkt_size - 4

-- Two bytes as a `uint16_t`
unfoldable pub le16_at : List ℕ → ℕ → ℕ
le16_at bytes i = (get_or bytes i 0 + 256 * get_or bytes (i + 1) 0) % 65536

-- `set_bus_speed`; `master_max` is the maximum of the master, or 0.
unfoldable pub set_bus_speed : ℕ → Spi → ℕ → Spi
set_bus_speed master_max dd speed = record dd {
  max_speed_hz = if ltb 0 master_max && ltb master_max speed then master_max else speed;
}

module _ (is_power_of_2 : ℕ → Bool) (master_max : ℕ) where
  -- `set_packet_size`
  unfoldable pub set_packet_size : Spi → ℕ → Spi × Errno
  set_packet_size dd pkt_size =
      if not (is_power_of_2 (pkt_size - 4)) || ltb pkt_size 36
      then (dd, einval)
      else (record dd { pkt_size = pkt_size }, success)

  -- The part of `dl_recv` that follows the sizes
  unfoldable pub dl_configure : Spi → ℕ → ℕ → Spi
  dl_configure dd features version =
      let ack = if bit_and features 1 == 0 then false else dd.ack_supported in
      record dd {
        ack_supported = ack;
        proto_ver = if ack && ltb version 1 then 1 else version;
        attach = true;
      }

  -- The part of `dl_recv` for the payload's size
  unfoldable pub dl_size : Spi → ℕ → Spi × Errno
  unfolding set_packet_size
  dl_size dd size =
      if ltb 0 size
      then set_packet_size dd ((if size == 65535 then 65536 else size) + 4)
      else (dd, success)

  unfoldable pub dl_finish : ℕ → ℕ → Spi × Errno → Spi × Errno
  dl_finish features version (dd, success) = (dl_configure dd features version, success)
  dl_finish features version (dd, e) = (dd, e)

  -- `dl_recv`; bytes that the message does not have are zero.
  unfoldable pub dl_recv : Spi → List ℕ → Spi × Errno
  unfolding dl_size dl_finish
  dl_recv dd msg =
      if not (get_or msg 0 0 == 128)
      then (dd, einval)
      else if dd.attached
      then (dd, einval)
      else let max_speed = le16_at msg 1 + 65536 * le16_at msg 3 in
        let dd1 = if ltb 0 max_speed then set_bus_speed master_max dd max_speed else dd in
        dl_finish (get_or msg 7 0) (get_or msg 8 0) (dl_size dd1 (le16_at msg 5))

  -- The handler that the header's type selects: the state after it, and the call.
  unfoldable pub deliver : Spi → ℕ → List ℕ → Spi × Delivered
  deliver dd bitmask msg =
      if bit_and bitmask 64 == 0 then ((dl_recv dd msg).0, none) else (dd, some msg)

  -- `parse_rx_pkt` from the label `skip_pkt1` on
  unfoldable pub assemble : Spi → ℕ → List ℕ → Parsed
  assemble dd bitmask payload =
      if leb max_datagram_sz (length dd.rx_datagram)
      then parsed ack_needed (record dd { rx_datagram = [] }) none
      else if ltb max_datagram_sz (length dd.rx_datagram + pl_size dd)
      then overrun
      else let dd1 = record dd { rx_datagram = dd.rx_datagram ++ payload } in
        if not (bit_and bitmask 63 == 0)
        then parsed ack_needed dd1 none
        else let called = deliver dd1 bitmask dd1.rx_datagram in
          parsed ack_needed (record called.0 { rx_datagram = [] }) called.1

  -- The checks of `parse_rx_pkt` on the first packet's bit and on the number of packets that remain: the
  -- state to go on with, or the state to return with. The count has eight bits.
  unfoldable pub sequence : Spi → ℕ → Bool × Spi
  sequence dd bitmask =
      if ltb dd.proto_ver 1
      then (true, dd)
      else if not (bit_and bitmask 256 == 0)
      then (true, record dd { rx_datagram = []; pkts_remaining = bit_and bitmask 63 })
      else if length dd.rx_datagram == 0
      then (false, dd)
      else let remaining = (dd.pkts_remaining + 255) % 256 in
        if bit_and bitmask 63 == remaining
        then (true, record dd { pkts_remaining = remaining })
        else (false, record dd { rx_datagram = []; pkts_remaining = 0 })

  -- `parse_rx_pkt` of a valid packet
  unfoldable pub parse_valid : Spi → ℕ → List ℕ → Parsed
  parse_valid dd bitmask payload =
      if pl_size dd == max_datagram_sz
      then (if ltb dd.proto_ver 1 || not (bit_and bitmask 256 == 0)
          then (let called = deliver dd bitmask payload in parsed ack_needed called.0 called.1)
          else parsed ack_needed dd none)
      else let go_on = sequence dd bitmask in
        if go_on.0 then assemble go_on.1 bitmask payload else parsed ack_needed go_on.1 none

  -- `parse_rx_pkt` of the bytes of a packet
  unfoldable pub parse_rx_pkt : Spi → List ℕ → Parsed
  parse_rx_pkt dd rx_pkt =
      let bitmask = le16_at rx_pkt 0 in
      let payload = take (pl_size dd) (drop 2 rx_pkt) in
      if not (le16_at rx_pkt (dd.pkt_size - 2) == crc16_calc 0 (take (dd.pkt_size - 2) rx_pkt))
      then parsed ack_error
          (if dd.ack_supported then dd else record dd { rx_datagram = []; pkts_remaining = 0 }) none
      else if ltb dd.proto_ver 2
      then (if bit_and bitmask 128 == 0
          then parsed ack_not_needed dd none
          else parse_valid dd bitmask payload)
      else if bit_and bitmask 640 == 128
      then parse_valid dd bitmask payload
      else if bit_and bitmask 640 == 512
      then parsed ack_not_needed dd none
      else parsed ack_error dd none
