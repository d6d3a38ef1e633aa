-- ===== src/Spi/Bounds.antt =====
-- The datagram's buffer is never written beyond its end, whatever packets arrive.
use motorola_external_greybu.Prelude.{
  ℕ, zero, suc, ◌+◌, ◌-◌, ◌*◌, ◌^◌, ◌%◌, ◌≤◌, ◌<◌, ◌≡◌, inl, inr, refl, sym, ◌∙◌, bit_and, Bool,
  true, false, not, ◌||◌, none, List, [], ◌++◌, ltb, leb, ◌==◌, if◌then◌else◌, get_or, take, drop,
  length, arith, Bool-cases, length-append, length-take, length-drop,
}
use motorola_external_greybu.Prelude.Errno.{Errno, success, einval}
use motorola_external_greybu.Spi.{
  Spi, Ack, Parsed, parsed, Delivered, pl_size, max_datagram_sz, set_bus_speed, set_packet_size,
  dl_configure, dl_size, dl_finish, dl_recv, deliver, assemble, sequence, parse_valid, parse_rx_pkt,
  le16_at, ack_needed, ack_not_needed, ack_error,
}
use motorola_external_greybu.Crc.{crc16_calc}

-- The documented behaviour of the kernel's `is_power_of_2`
abbrev pub PowerLaw : (ℕ → Bool) → Type 0
PowerLaw is_power_of_2 = (n : ℕ) → is_power_of_2 n ≡ true → (k : ℕ) × (n ≡ 2 ^ k)

abbrev pub Divides : ℕ → Type 0
Divides p = (d : ℕ) × (p * d ≡ 65536)

-- The payload's size divides that of the datagram's buffer, and so it does the room that is left in it.
pub record Aligned (dd : Spi) : Type 0 where
  pub size : Divides (pl_size dd)
  pub room : (r : ℕ) × (length dd.rx_datagram + pl_size dd * r ≡ 65536)

power_positive : (k : ℕ) → 1 ≤ 2 ^ k
power_positive zero = omega arith
power_positive (suc k) = omega (arith, power_positive k)

twice : (a d b a' b' : ℕ) → a' ≡ 2 * a → b' ≡ 2 * b → a * d ≡ b → a' * d ≡ b'
twice a d b a' b' p q e = grind arith

power_divides : (k n : ℕ) → 2 ^ k ≤ 2 ^ n → (d : ℕ) × (2 ^ k * d ≡ 2 ^ n)
power_divides zero n h = (2 ^ n, omega arith)
power_divides (suc k) zero h = absurd (omega (arith, power_positive k))
power_divides (suc k) (suc n) h =
    let (d, e) = power_divides k n (omega arith) in
    (d, twice (2 ^ k) d (2 ^ n) (2 ^ suc k) (2 ^ suc n) (omega arith) (omega arith) e)

module _ (is_power_of_2 : ℕ → Bool) (law : PowerLaw is_power_of_2) (master_max : ℕ) where
  -- A change that keeps the datagram, and leaves a payload's size that divides the buffer's
  Keeps : Spi → Spi → Type 0
  Keeps dd dd' = Divides (pl_size dd') × (dd'.rx_datagram ≡ dd.rx_datagram)

  set_packet_size-Keeps :
      (dd : Spi) (pl : ℕ)
      → pl ≤ 65536
      → Divides (pl_size dd)
      → Keeps dd (set_packet_size is_power_of_2 master_max dd (pl + 4)).0
  unfolding Keeps set_packet_size
  set_packet_size-Keeps dd pl h v =
      elim (Bool-cases (not (is_power_of_2 ((pl + 4) - 4)) || ltb (pl + 4) 36)) [
        | inl e ↦ rw (e, set_packet_size) (v, refl)
        | inr e ↦
            let (k, q) = law ((pl + 4) - 4) (ground arith) in
            let (d, p) = power_divides k 16 (omega (arith, q)) in
            rw (e, set_packet_size) ((d, rw q p), refl)
      ]

  dl_size-Keeps :
      (dd : Spi) (size : ℕ)
      → size ≤ 65535
      → Divides (pl_size dd)
      → Keeps dd (dl_size is_power_of_2 master_max dd size).0
  unfolding Keeps dl_size
  dl_size-Keeps dd size h v = elim (Bool-cases (ltb 0 size)) [
    | inl e ↦
        rw (e, dl_size)
          (set_packet_size-Keeps dd (if size == 65535 then 65536 else size) (ground arith) v)
    | inr e ↦ rw (e, dl_size) (v, refl)
  ]

  dl_finish-Keeps :
      (dd dd' : Spi) (e : Errno) (features version : ℕ)
      → Keeps dd dd'
      → Keeps dd (dl_finish is_power_of_2 master_max features version (dd', e)).0
  unfolding Keeps dl_finish dl_configure
  dl_finish-Keeps dd dd' success features version v = v
  dl_finish-Keeps dd dd' e features version v = v

  set_bus_speed-Keeps :
      (dd dd' : Spi) (speed : ℕ) (b : Bool)
      → Keeps (if b then set_bus_speed master_max dd speed else dd) dd'
      → Keeps dd dd'
  unfolding Keeps set_bus_speed
  set_bus_speed-Keeps dd dd' speed true v = v
  set_bus_speed-Keeps dd dd' speed false v = v

  set_bus_speed-Divides :
      (dd : Spi) (speed : ℕ) (b : Bool)
      → Divides (pl_size dd)
      → Divides (pl_size (if b then set_bus_speed master_max dd speed else dd))
  unfolding set_bus_speed
  set_bus_speed-Divides dd speed true v = v
  set_bus_speed-Divides dd speed false v = v

  if-Keeps :
      (dd : Spi) (b : Bool) (x y : Spi × Errno)
      → Keeps dd x.0
      → Keeps dd y.0
      → Keeps dd (if b then x else y).0
  if-Keeps dd true x y v w = v
  if-Keeps dd false x y v w = w

  dl_recv-Keeps :
      (dd : Spi) (msg : List ℕ)
      → Divides (pl_size dd)
      → Keeps dd (dl_recv is_power_of_2 master_max dd msg).0
  unfolding dl_recv Keeps
  dl_recv-Keeps dd msg v =
      let h : le16_at msg 5 ≤ 65535 = unfold le16_at in omega arith in
      let max_speed = le16_at msg 1 + 65536 * le16_at msg 3 in
      let dd1 = if ltb 0 max_speed then set_bus_speed master_max dd max_speed else dd in
      let sized = dl_size is_power_of_2 master_max dd1 (le16_at msg 5) in
      let kept =
        dl_size-Keeps dd1 (le16_at msg 5) h
          (set_bus_speed-Divides dd max_speed (ltb 0 max_speed) v) in
      let finished = dl_finish-Keeps dd1 sized.0 sized.1 (get_or msg 7 0) (get_or msg 8 0) kept in
      if-Keeps dd (not (get_or msg 0 0 == 128)) (dd, einval) _ (v, refl)
        (if-Keeps dd dd.attached (dd, einval) _ (v, refl)
          (set_bus_speed-Keeps dd
            (dl_finish is_power_of_2 master_max (get_or msg 7 0) (get_or msg 8 0) sized).0 max_speed
            (ltb 0 max_speed) finished))

  -- How a packet is taken without a write beyond the buffer
  abbrev pub Taken : Parsed → Type 0
  Taken out =
      (ack : Ack) × (dd : Spi) × (call : Delivered) × (out ≡ parsed ack dd call) × Aligned dd

  if-Taken : (b : Bool) (x y : Parsed) → Taken x → Taken y → Taken (if b then x else y)
  if-Taken true x y v w = v
  if-Taken false x y v w = w

  emptied : (dd dd' : Spi) → Keeps dd dd' → Aligned (record dd' { rx_datagram = [] })
  unfolding Keeps
  emptied dd dd' ((d, e), _) = record { size = (d, e); room = (d, omega (arith, e)) }

  deliver-Keeps :
      (dd : Spi) (bitmask : ℕ) (msg : List ℕ)
      → Divides (pl_size dd)
      → Keeps dd (deliver is_power_of_2 master_max dd bitmask msg).0
  unfolding deliver Keeps
  deliver-Keeps dd bitmask msg v = elim (Bool-cases (bit_and bitmask 64 == 0)) [
    | inl e ↦ rw (e, deliver) (dl_recv-Keeps dd msg v)
    | inr e ↦ rw (e, deliver) (v, refl)
  ]

  step_room : (n p r : ℕ) → n + p * suc r ≡ 65536 → (n + p) + p * r ≡ 65536
  step_room n p r h = grind arith

  room_fits : (n p m : ℕ) → (n + p) + m ≡ 65536 → ltb max_datagram_sz (n + p) ≡ false
  room_fits n p m h = ground arith

  appended :
      (dd : Spi) (payload : List ℕ) (r : ℕ)
      → length payload ≡ pl_size dd
      → length dd.rx_datagram + pl_size dd * suc r ≡ 65536
      → Divides (pl_size dd)
      → Aligned (record dd { rx_datagram = dd.rx_datagram ++ payload })
  appended dd payload r l q v = record {
    size = v;
    room = (
      r,
      (rw (length-append dd.rx_datagram payload, l)
          (step_room (length dd.rx_datagram) (pl_size dd) r q)),
    );
  }

  assemble-Taken :
      (dd : Spi) (bitmask : ℕ) (payload : List ℕ)
      → length payload ≡ pl_size dd
      → Aligned dd
      → Taken (assemble is_power_of_2 master_max dd bitmask payload)
  unfolding assemble
  assemble-Taken dd bitmask payload l a =
      let (room, q) = a.room in
      elim (Bool-cases (leb max_datagram_sz (length dd.rx_datagram))) [
        | inl e ↦
            rw (e, assemble)
              (
                ack_needed,
                record dd { rx_datagram = [] },
                none,
                refl,
                emptied dd dd (unfold Keeps in (a.size, refl)),
              )
        | inr e ↦
            let (r, q') : (r : ℕ) × (length dd.rx_datagram + pl_size dd * suc r ≡ 65536) =
              some_room room q (ground arith) in
            let fits : ltb max_datagram_sz (length dd.rx_datagram + pl_size dd) ≡ false =
              room_fits (length dd.rx_datagram) (pl_size dd) (pl_size dd * r)
                (step_room (length dd.rx_datagram) (pl_size dd) r q') in
            let dd1 : Spi = record dd { rx_datagram = dd.rx_datagram ++ payload } in
            elim (Bool-cases (not (bit_and bitmask 63 == 0))) [
              | inl f ↦
                  rw (e, fits, f, assemble)
                    (ack_needed, dd1, none, refl, appended dd payload r l q' a.size)
              | inr f ↦
                  let called = deliver is_power_of_2 master_max dd1 bitmask dd1.rx_datagram in
                  rw (e, fits, f, assemble)
                    (
                      ack_needed,
                      record called.0 { rx_datagram = [] },
                      called.1,
                      refl,
                      emptied dd1 called.0 (deliver-Keeps dd1 bitmask dd1.rx_datagram a.size),
                    )
            ]
      ]
    where
      some_room :
          (room : ℕ)
          → length dd.rx_datagram + pl_size dd * room ≡ 65536
          → length dd.rx_datagram < 65536
          → (r : ℕ) × (length dd.rx_datagram + pl_size dd * suc r ≡ 65536)
      some_room zero q h = absurd (omega arith)
      some_room (suc r) q h = (r, q)

  -- A change of the datagram that leaves the payload's size
  abbrev Resized : Spi → Bool × Spi → Type 0
  Resized dd x = Aligned x.1 × (pl_size x.1 ≡ pl_size dd)

  if-Resized :
      (dd : Spi) (b : Bool) (x y : Bool × Spi)
      → Resized dd x
      → Resized dd y
      → Resized dd (if b then x else y)
  if-Resized dd true x y v w = v
  if-Resized dd false x y v w = w

  sequence-Resized :
      (dd : Spi) (bitmask : ℕ)
      → Aligned dd
      → Resized dd (sequence is_power_of_2 master_max dd bitmask)
  unfolding sequence
  sequence-Resized dd bitmask a =
      let remaining = (dd.pkts_remaining + 255) % 256 in
      let (d, e) = a.size in
      let clear : (n : ℕ) → Aligned (record dd { rx_datagram = []; pkts_remaining = n }) =
        λ n. record { size = (d, e); room = (d, omega (arith, e)) } in
      if-Resized dd (ltb dd.proto_ver 1) (true, dd) _ (a, refl)
        (if-Resized dd (not (bit_and bitmask 256 == 0))
          (true, record dd { rx_datagram = []; pkts_remaining = bit_and bitmask 63 }) _
          (clear (bit_and bitmask 63), refl)
          (if-Resized dd (length dd.rx_datagram == 0) (false, dd) _ (a, refl)
            (if-Resized dd (bit_and bitmask 63 == remaining)
              (true, record dd { pkts_remaining = remaining })
              (false, record dd { rx_datagram = []; pkts_remaining = 0 })
              (record { size = a.size; room = a.room }, refl) (clear 0, refl))))

  -- A datagram's buffer of one payload is empty or full, so it suits any other size.
  whole-Aligned : (dd dd' : Spi) → pl_size dd ≡ 65536 → Aligned dd → Keeps dd dd' → Aligned dd'
  unfolding Keeps
  whole-Aligned dd dd' p a ((d, e), s) = record {
    size = (d, e);
    room = left a.room.0 (rw p at a.room.1);
  }
    where
      left :
          (r : ℕ)
          → length dd.rx_datagram + 65536 * r ≡ 65536
          → (r' : ℕ) × (length dd'.rx_datagram + pl_size dd' * r' ≡ 65536)
      left zero q = (0, rw s (omega (arith, q)))
      left (suc r) q = (d, rw s (omega (arith, q, e)))

  parse_valid-Taken :
      (dd : Spi) (bitmask : ℕ) (payload : List ℕ)
      → length payload ≡ pl_size dd
      → Aligned dd
      → Taken (parse_valid is_power_of_2 master_max dd bitmask payload)
  unfolding parse_valid
  parse_valid-Taken dd bitmask payload l a = elim (Bool-cases (pl_size dd == max_datagram_sz)) [
    | inl e ↦
        let called = deliver is_power_of_2 master_max dd bitmask payload in
        rw (e, parse_valid)
          (if-Taken (ltb dd.proto_ver 1 || not (bit_and bitmask 256 == 0))
            (parsed ack_needed called.0 called.1) (parsed ack_needed dd none)
            (
              ack_needed,
              called.0,
              called.1,
              refl,
              whole-Aligned dd called.0 (ground arith) a (deliver-Keeps dd bitmask payload a.size),
            )
            (ack_needed, dd, none, refl, a))
    | inr e ↦
        let go_on = sequence is_power_of_2 master_max dd bitmask in
        let (v, p) = sequence-Resized dd bitmask a in
        rw (e, parse_valid)
          (if-Taken go_on.0 (assemble is_power_of_2 master_max go_on.1 bitmask payload)
            (parsed ack_needed go_on.1 none) (assemble-Taken go_on.1 bitmask payload (l ∙ sym p) v)
            (ack_needed, go_on.1, none, refl, v))
  ]

  -- A packet is taken without a write beyond the end of the datagram's buffer, and the room that is left in it
  -- is again a multiple of the payload's size, which divides the buffer's, whatever the packet holds: its
  -- bytes, its checksum, its sequence bits or a new configuration. The packet has the bytes that its size
  -- says, and `is_power_of_2` is true for powers of two only.
  pub parse_rx_pkt-Taken :
      (dd : Spi) (rx_pkt : List ℕ)
      → dd.pkt_size ≤ length rx_pkt
      → 4 ≤ dd.pkt_size
      → Aligned dd
      → Taken (parse_rx_pkt is_power_of_2 master_max dd rx_pkt)
  unfolding parse_rx_pkt
  parse_rx_pkt-Taken dd rx_pkt h k a =
      let bitmask = le16_at rx_pkt 0 in
      let payload = take (pl_size dd) (drop 2 rx_pkt) in
      let l : length payload ≡ pl_size dd =
        omega (arith, length-take (pl_size dd) (drop 2 rx_pkt), length-drop 2 rx_pkt) in
      let valid = parse_valid-Taken dd bitmask payload l a in
      let same : (ack : Ack) → Taken (parsed ack dd none) = λ ack. (ack, dd, none, refl, a) in
      let cleared : Spi =
        if dd.ack_supported then dd else record dd { rx_datagram = []; pkts_remaining = 0 } in
      if-Taken
        (not (le16_at rx_pkt (dd.pkt_size - 2) == crc16_calc 0 (take (dd.pkt_size - 2) rx_pkt)))
        (parsed ack_error cleared none) _ (ack_error, cleared, none, refl, cleared-Aligned)
        (if-Taken (ltb dd.proto_ver 2) _ _
          (if-Taken (bit_and bitmask 128 == 0) (parsed ack_not_needed dd none)
            (parse_valid is_power_of_2 master_max dd bitmask payload) (same ack_not_needed) valid)
          (if-Taken (bit_and bitmask 640 == 128)
            (parse_valid is_power_of_2 master_max dd bitmask payload) _ valid
            (if-Taken (bit_and bitmask 640 == 512) (parsed ack_not_needed dd none)
              (parsed ack_error dd none) (same ack_not_needed) (same ack_error))))
    where
      cleared-Aligned :
          Aligned
            (if dd.ack_supported then dd else record dd { rx_datagram = []; pkts_remaining = 0 })
      cleared-Aligned = elim (Bool-cases dd.ack_supported) [
        | inl e ↦ simp (e) a
        | inr e ↦ simp (e) (record { size = a.size; room = (a.size.0, omega (arith, a.size.1)) })
      ]
