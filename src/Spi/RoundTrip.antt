-- ===== src/Spi/RoundTrip.antt =====
-- A datagram that is sent over SPI arrives.
use motorola_external_greybu.Prelude.{
  ℕ, zero, suc, ◌+◌, ◌-◌, ◌*◌, ◌/◌, ◌≤◌, ◌<◌, ◌≡◌, refl, ap, ◌∙◌, Bool, true, false, ◌||◌, Option,
  none, some, List, [], ◌∷◌, ◌++◌, ltb, ◌==◌, take, drop, length, arith, length-append, length-take,
  length-drop, take-append, take_all, drop_all, take_more-append, take-append-drop,
}
use motorola_external_greybu.Prelude.Errno.{Errno, success}
use motorola_external_greybu.Spi.{
  Spi, Ack, ack_needed, Delivered, parsed, overrun, pl_size, max_datagram_sz, sequence,
  parse_rx_pkt,
}
use motorola_external_greybu.Spi.Sending.{
  bitmask, tx_pkt, this_pl, send_packets, message_send, msg_type_nw, max_pkts_per_dg,
}
use motorola_external_greybu.Spi.Bounds.{Divides}
use mathlib.Core.List.{append-nil, append_assoc}
use motorola_external_greybu.Spi.Packets.{bitmask-Bits, mul_suc, this_pl_part, this_pl_full}
use motorola_external_greybu.Spi.Assembly.{
  parse_rx_pkt-tx_pkt, Assembled, Assembled-suc, parse_valid-go_on, sequence-first, sequence-next,
}

module _ (is_power_of_2 : ℕ → Bool) (master_max : ℕ) where
  abbrev pub with_delivered : Delivered → List (List ℕ) → List (List ℕ)
  with_delivered none ds = ds
  with_delivered (some d) ds = d ∷ ds

  -- The reception of several packets: the state and the datagrams delivered, or `none` for an overrun
  abbrev pub receive : Spi → List (List ℕ) → Option (Spi × List (List ℕ))
  receive r [] = some (r, [])
  receive r (pkt ∷ pkts) = elim (parse_rx_pkt is_power_of_2 master_max r pkt) [
    | overrun ↦ none
    | parsed ack r' call ↦ elim (receive r' pkts) [
      | none ↦ none
      | some (r'', ds) ↦ some (r'', with_delivered call ds)
    ]
  ]

  receive-cons :
      (r r' r'' : Spi) (pkt : List ℕ) (pkts ds : List (List ℕ)) (ack : Ack) (call : Delivered)
      → parse_rx_pkt is_power_of_2 master_max r pkt ≡ parsed ack r' call
      → receive r' pkts ≡ some (r'', ds)
      → receive r (pkt ∷ pkts) ≡ some (r'', with_delivered call ds)
  receive-cons r r' r'' pkt pkts ds ack call p q = rw (p, receive) (rw (q, receive) refl)

  module _ (transfer : Spi → List ℕ → Spi × Errno) (dd : Spi)
      (quiet : (pkt : List ℕ) → transfer dd pkt ≡ (dd, success)) (k : 5 ≤ dd.pkt_size)
      (l : pl_size dd < 65536) where
    send_packets-step :
        (p : ℕ) (area buf : List ℕ) (first : Bool)
        → 0 < length buf
        → let n = this_pl (length buf) (pl_size dd) in
          let area' = take n buf ++ drop n area in
          let rest = send_packets transfer p dd (pl_size dd) msg_type_nw area' false (drop n buf) in
          send_packets transfer (suc p) dd (pl_size dd) msg_type_nw area first buf
          ≡ (rest.0, tx_pkt dd (bitmask msg_type_nw p first) area' ∷ rest.1, rest.2)
    unfolding send_packets
    send_packets-step p area buf first h =
        let more : (length buf == 0) ≡ false = ground arith in
        let n = this_pl (length buf) (pl_size dd) in
        let area' = take n buf ++ drop n area in
        let pkt = tx_pkt dd (bitmask msg_type_nw p first) area' in
        rw (more, send_packets)
          (ap
            (λ (x : Spi × Errno). elim x.1 as (λ _. Spi × List (List ℕ) × Errno) [
              | success ↦
                  let rest =
                    send_packets transfer p x.0 (pl_size dd) msg_type_nw area' false (drop n buf) in
                  (rest.0, pkt ∷ rest.1, rest.2)
              | e ↦ (x.0, pkt ∷ [], e)
            ])
            (quiet pkt))

    -- What a packet brings about at the receiver
    packet-Assembled :
        (r s : Spi) (first : Bool) (p : ℕ) (area : List ℕ)
        → p < 64
        → length area ≡ pl_size dd
        → r.pkt_size ≡ dd.pkt_size
        → s.pkt_size ≡ dd.pkt_size
        → sequence is_power_of_2 master_max r (bitmask msg_type_nw p first) ≡ (true, s)
        → s.pkts_remaining ≡ p
        → length s.rx_datagram + pl_size dd ≤ 65536
        → parse_rx_pkt is_power_of_2 master_max r (tx_pkt dd (bitmask msg_type_nw p first) area)
          ≡ Assembled is_power_of_2 master_max s p (s.rx_datagram ++ area)
    packet-Assembled r s first p area h a e e' q rem room =
        parse_rx_pkt-tx_pkt is_power_of_2 master_max dd r first p area h (omega arith) e a
        ∙ parse_valid-go_on is_power_of_2 master_max r s first p (bitmask msg_type_nw p first) area
            (bitmask-Bits first p h) (rw e l) q rem (omega arith) (rw e' room)

    -- The receiver ends with the datagram delivered, which starts with the bytes sent.
    abbrev Arrives : Spi → Spi → List ℕ → List ℕ → Spi × List (List ℕ) × Errno → Type 0
    Arrives r s front buf sent =
        (d : List ℕ) × (take (length buf) d ≡ buf)
        × (sent.2 ≡ success)
        × (receive r sent.1
            ≡ some (record s { rx_datagram = []; pkts_remaining = 0 }, (front ++ d) ∷ []))

    send_packets-Arrives :
        (p : ℕ) (area buf : List ℕ) (first : Bool) (r s : Spi)
        → length area ≡ pl_size dd
        → pl_size dd * p < length buf
        → length buf ≤ pl_size dd * suc p
        → p < 64
        → r.pkt_size ≡ dd.pkt_size
        → s.pkt_size ≡ dd.pkt_size
        → 1 ≤ s.proto_ver
        → sequence is_power_of_2 master_max r (bitmask msg_type_nw p first) ≡ (true, s)
        → s.pkts_remaining ≡ p
        → length s.rx_datagram + pl_size dd * suc p ≤ 65536
        → Arrives r s s.rx_datagram buf
            (send_packets transfer (suc p) dd (pl_size dd) msg_type_nw area first buf)
    unfolding send_packets
    send_packets-Arrives zero area buf first r s a lo hi h e e' v q rem room =
        let one : pl_size dd * 1 ≡ pl_size dd = omega arith in
        let n = this_pl_part (length buf) (pl_size dd) (omega (arith, one)) in
        let area' =
          take (this_pl (length buf) (pl_size dd)) buf
          ++ drop (this_pl (length buf) (pl_size dd)) area in
        let whole : area' ≡ buf ++ drop (length buf) area =
          rw n (rw (take_all (length buf) buf (omega arith)) refl) in
        let size : length area' ≡ pl_size dd = rw whole (
          omega (
            arith,
            one,
            length-append buf (drop (length buf) area),
            length-drop (length buf) area,
          )) in
        let came = packet-Assembled r s first 0 area' h size e e' q rem (omega (arith, one)) in
        let step = send_packets-step 0 area buf first (omega (arith)) in
        (
          area',
          rw whole (take-append buf (drop (length buf) area)),
          ap (λ o. o.2) step,
          ap (λ o. receive r o.1) step
              ∙ receive-cons r (record s { rx_datagram = []; pkts_remaining = 0 })
                  (record s { rx_datagram = []; pkts_remaining = 0 }) _ [] [] ack_needed
                  (some (s.rx_datagram ++ area')) came refl,
        )
    send_packets-Arrives (suc p) area buf first r s a lo hi h e e' v q rem room =
        let m1 = mul_suc (pl_size dd) p in
        let m2 = mul_suc (pl_size dd) (suc p) in
        let n = this_pl_full (length buf) (pl_size dd) (omega (arith, m1)) in
        let front = take (this_pl (length buf) (pl_size dd)) buf in
        let back = drop (this_pl (length buf) (pl_size dd)) buf in
        let area' =
          take (this_pl (length buf) (pl_size dd)) buf
          ++ drop (this_pl (length buf) (pl_size dd)) area in
        let whole : area' ≡ front =
          rw (drop_all (this_pl (length buf) (pl_size dd)) area (rw n (omega arith)))
            (append-nil front) in
        let size : length area' ≡ pl_size dd =
          rw whole (omega (arith, m1, n, length-take (this_pl (length buf) (pl_size dd)) buf)) in
        let size_back : length back ≡ length buf - pl_size dd =
          omega (arith, n, length-drop (this_pl (length buf) (pl_size dd)) buf) in
        let came =
          packet-Assembled r s first (suc p) area' h size e e' q rem (omega (arith, m1, m2)) in
        let step = send_packets-step (suc p) area buf first (omega (arith, m1)) in
        let r' : Spi = record s { rx_datagram = s.rx_datagram ++ area'; pkts_remaining = suc p } in
        let s' : Spi = record r' { pkts_remaining = p } in
        let grown : length r'.rx_datagram ≡ length s.rx_datagram + pl_size dd =
          omega (arith, size, length-append s.rx_datagram area') in
        let next =
          sequence-next is_power_of_2 master_max r' p (bitmask msg_type_nw p false)
            (bitmask-Bits false p (omega arith)) v (omega arith) refl (omega (arith, grown)) in
        let (d, t, ok, there) =
          send_packets-Arrives p area' back false r' s' size (omega (arith, m1, size_back))
            (omega (arith, m1, m2, size_back)) (omega arith) e' e' v next refl
            (omega (arith, grown, m1, m2)) in
        let all : length buf ≡ length area' + length back = omega (arith, size, size_back, m1) in
        let bytes : take (length buf) (area' ++ d) ≡ buf =
          ap (λ m. take m (area' ++ d)) all
          ∙ take_more-append area' d (length back)
          ∙ ap (λ b. area' ++ b) t
          ∙ ap (λ f. f ++ back) whole
          ∙ take-append-drop (this_pl (length buf) (pl_size dd)) buf in
        let seen =
          receive-cons r r' (record s { rx_datagram = []; pkts_remaining = 0 }) _ _ _ ack_needed
            none (came ∙ Assembled-suc is_power_of_2 master_max s p (s.rx_datagram ++ area'))
            there in
        (
          area' ++ d,
          bytes,
          ap (λ o. o.2) step ∙ ok,
          ap (λ o. receive r o.1) step
              ∙ seen
              ∙ ap
                  (λ w.
                    some (
                      let u : Spi = record s { rx_datagram = []; pkts_remaining = 0 } in u,
                      w ∷ [],
                    ))
                  (append_assoc s.rx_datagram area' d),
        )

-- The number of packets for some bytes
packets_bounds :
    (n a : ℕ) → 0 < a → 0 < n → (p : ℕ) × ((n + a - 1) / a ≡ suc p) × (a * p < n) × (n ≤ a * suc p)
packets_bounds n a h k = (((n - 1) / a), grind arith, grind arith, grind arith)

blocks_fit : (a p m : ℕ) → a * p < a * m → a * suc p ≤ a * m
blocks_fit a p zero h = let z : a * 0 ≡ 0 = grind arith in absurd (omega (arith, z, h))
blocks_fit a zero (suc m) h = omega (arith, mul_suc a m, mul_suc a 0)
blocks_fit a (suc p) (suc m) h =
    let ih = blocks_fit a p m (omega (arith, mul_suc a p, mul_suc a m, h)) in
    omega (arith, ih, mul_suc a (suc p), mul_suc a m)

module _ (is_power_of_2 : ℕ → Bool) (master_max : ℕ) (transfer : Spi → List ℕ → Spi × Errno)
    (dd : Spi) (quiet : (pkt : List ℕ) → transfer dd pkt ≡ (dd, success)) where
  -- If `__muc_spi_message_send` is to send a datagram for the network that is not empty, nothing arrives and no
  -- transfer fails meanwhile, and the datagram takes at most 64 packets and 65536 bytes, then it succeeds, and a
  -- receiver of packets of the same size gets the packets without an overrun and delivers one datagram, which
  -- starts with the bytes sent. Afterwards it waits for no further packet. The receiver's protocol has the bit
  -- of the first packet, the transmit buffer has room for a payload, and a payload is smaller than the
  -- largest datagram, of whose size it is a divisor.
  pub receive-message_send :
      (r : Spi) (area buf : List ℕ)
      → 5 ≤ dd.pkt_size
      → pl_size dd < 65536
      → length area ≡ pl_size dd
      → r.pkt_size ≡ dd.pkt_size
      → 1 ≤ r.proto_ver
      → 0 < length buf
      → length buf ≤ 65536
      → (length buf + pl_size dd - 1) / pl_size dd ≤ max_pkts_per_dg
      → Divides (pl_size dd)
      → let sent = message_send transfer true dd msg_type_nw area buf in
        (sent.2 ≡ success)
        × ((d : List ℕ) × (take (length buf) d ≡ buf)
            × (receive is_power_of_2 master_max r sent.1
                ≡ some (record r { rx_datagram = []; pkts_remaining = 0 }, d ∷ [])))
  unfolding message_send
  receive-message_send r area buf k l a e v nonempty fits few (m, whole) =
      let (p, packets, lo, hi) = packets_bounds (length buf) (pl_size dd) (omega arith) nonempty in
      let s : Spi = record r { rx_datagram = []; pkts_remaining = p } in
      let h : p < 64 = omega (arith, packets) in
      let start =
        sequence-first is_power_of_2 master_max r p (bitmask msg_type_nw p true)
          (bitmask-Bits true p h) v in
      let total : 0 + pl_size dd * suc p ≤ 65536 =
        omega (arith, blocks_fit (pl_size dd) p m (omega arith), whole) in
      let (d, bytes, ok, there) =
        send_packets-Arrives is_power_of_2 master_max transfer dd quiet k l p area buf true r s a lo
          hi h e e v start refl total in
      let taken : (ltb max_datagram_sz (length buf)
            || ltb max_pkts_per_dg ((length buf + pl_size dd - 1) / pl_size dd))
          ≡ false =
        ground arith in
      let sent : message_send transfer true dd msg_type_nw area buf
          ≡ send_packets transfer (suc p) dd (pl_size dd) msg_type_nw area true buf =
        rw (taken, message_send)
          (ap (λ n. send_packets transfer n dd (pl_size dd) msg_type_nw area true buf) packets) in
      (
        ap (λ o. o.2) sent ∙ ok,
        (d, bytes, ap (λ o. receive is_power_of_2 master_max r o.1) sent ∙ there),
      )
