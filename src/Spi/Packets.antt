-- ===== src/Spi/Packets.antt =====
-- The bytes of a packet in muc_spi.c, and what the receiver reads in them.
use motorola_external_greybu.Prelude.{
  ℕ, zero, suc, ◌+◌, ◌-◌, ◌*◌, ◌/◌, ◌%◌, ◌≤◌, ◌<◌, ◌≡◌, refl, sym, ap, ◌∙◌, bit_and, Bool, true,
  false, ◌&&◌, List, [], ◌∷◌, ◌++◌, ltb, ◌==◌, if◌then◌else◌, get_or, take, drop, length, arith,
  take-append, take_all, get_or-append_right,
}
use motorola_external_greybu.Crc.{crc16_calc}
use motorola_external_greybu.Crc.Check.{crc16_calc_bound}
use motorola_external_greybu.Spi.{Spi, pl_size, le16_at}
use motorola_external_greybu.Spi.Sending.{bitmask, tx_pkt, this_pl, msg_type_nw}

le16_at-append_right : (xs ys : List ℕ) → le16_at (xs ++ ys) (length xs) ≡ le16_at ys 0
unfolding le16_at
le16_at-append_right xs ys =
    let at : length xs + 0 ≡ length xs = omega arith in
    let low : get_or (xs ++ ys) (length xs) 0 ≡ get_or ys 0 0 =
      ap (λ i. get_or (xs ++ ys) i 0) (sym at) ∙ get_or-append_right xs ys 0 0 in
    omega (arith, low, get_or-append_right xs ys 1 0)

-- What the receiver reads in the header's bits of a packet for the network
reads : Bool → ℕ → Bool
reads first p =
    let b = bitmask msg_type_nw p first in
    ltb b 65536
    && (bit_and b 128 == 128)
    && (bit_and b 640 == 128)
    && (bit_and b 64 == 64)
    && (bit_and b 63 == p)
    && (bit_and b 256 == (if first then 256 else 0))

all_below : ℕ → (ℕ → Bool) → Bool
all_below zero test = true
all_below (suc n) test = test n && all_below n test

all_below_sound :
    (n : ℕ) (test : ℕ → Bool) (x : ℕ) → all_below n test ≡ true → x < n → test x ≡ true
unfolding all_below
all_below_sound zero test x h l = absurd (omega arith)
all_below_sound (suc n) test x h l = ground (arith, all_below_sound n test x)

reads_all : (first : Bool) → all_below 64 (reads first) ≡ true
unfolding all_below reads bitmask
reads_all true = refl
reads_all false = refl

-- The header's bits, read back
pub record Bits (first : Bool) (p b : ℕ) : Type 0 where
  pub word : b < 65536
  pub valid : bit_and b 128 ≡ 128
  pub not_dummy : bit_and b 640 ≡ 128
  pub network : bit_and b 64 ≡ 64
  pub left : bit_and b 63 ≡ p
  pub start : bit_and b 256 ≡ (if first then 256 else 0)

pub bitmask-Bits : (first : Bool) (p : ℕ) → p < 64 → Bits first p (bitmask msg_type_nw p first)
unfolding reads
bitmask-Bits first p h =
    let r = all_below_sound 64 (reads first) p (reads_all first) h in
    record {
      word = ground arith;
      valid = ground arith;
      not_dummy = ground arith;
      network = ground arith;
      left = ground arith;
      start = ground arith;
    }

-- The bytes of a packet, and what is read from them
module _ (dd : Spi) (b : ℕ) (area : List ℕ) (k : 4 ≤ dd.pkt_size) (l : length area ≡ pl_size dd)
    (word : b < 65536) where
  pub content : List ℕ
  content = b % 256 ∷ b / 256 ∷ area

  pub crc : ℕ
  unfolding content
  crc = crc16_calc 0 content

  tx_pkt-parts : tx_pkt dd b area ≡ content ++ (crc % 256 ∷ crc / 256 ∷ [])
  unfolding tx_pkt content crc
  tx_pkt-parts = rw (take_all (dd.pkt_size - 2) content (omega arith))

  length-content : length content ≡ dd.pkt_size - 2
  unfolding content
  length-content = omega arith

  pub tx_pkt_bits : le16_at (tx_pkt dd b area) 0 ≡ b
  tx_pkt_bits = rw tx_pkt-parts (unfold content le16_at in omega arith)

  pub tx_pkt_payload : take (pl_size dd) (drop 2 (tx_pkt dd b area)) ≡ area
  tx_pkt_payload =
      rw tx_pkt-parts (unfold content in rw (← l) (take-append area (crc % 256 ∷ crc / 256 ∷ [])))

  pub tx_pkt-content : take (dd.pkt_size - 2) (tx_pkt dd b area) ≡ content
  tx_pkt-content =
      rw tx_pkt-parts (rw (← length-content) (take-append content (crc % 256 ∷ crc / 256 ∷ [])))

  pub tx_pkt-crc : le16_at (tx_pkt dd b area) (dd.pkt_size - 2) ≡ crc16_calc 0 content
  tx_pkt-crc =
      rw tx_pkt-parts
        (rw (← length-content) (le16_at-append_right content (crc % 256 ∷ crc / 256 ∷ []) ∙ sum))
    where
      sum : le16_at (crc % 256 ∷ crc / 256 ∷ []) 0 ≡ crc16_calc 0 content
      sum = let c = crc16_calc_bound content 0 (omega arith) in unfold le16_at crc in omega arith

pub mul_suc : (a n : ℕ) → a * suc n ≡ a * n + a
mul_suc a n = grind arith

pub this_pl_part : (n size : ℕ) → n ≤ size → this_pl n size ≡ n
this_pl_part n size h = ground arith

pub this_pl_full : (n size : ℕ) → size ≤ n → this_pl n size ≡ size
this_pl_full n size h = ground arith
