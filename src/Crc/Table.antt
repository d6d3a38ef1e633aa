-- ===== src/Crc/Table.antt =====
-- The table of crc.c against the polynomial.
use motorola_external_greybu.Prelude.{
  ℕ, zero, suc, ◌+◌, ◌*◌, ◌/◌, ◌%◌, ◌<◌, ◌≡◌, refl, bit_xor, Bool, true, ◌&&◌, ltb, leb, ◌==◌,
  if◌then◌else◌, get_or, arith, Bool-cases, inl, inr,
}
use motorola_external_greybu.Crc.{crc16_lookup_tbl}

-- One step of the division by the polynomial x^16 + x^15 + x^2 + 1, most significant bit first
unfoldable pub divide_step : ℕ → ℕ
divide_step r = if leb 32768 r then bit_xor (r * 2 % 65536) 32773 else r * 2

unfoldable pub divide_steps : ℕ → ℕ → ℕ
divide_steps zero r = r
divide_steps (suc n) r = divide_steps n (divide_step r)

-- The remainder of a byte, with its two bytes swapped
unfoldable pub remainder : ℕ → ℕ
remainder byte = let r = divide_steps 8 (byte * 256) in r % 256 * 256 + r / 256

holds_below : ℕ → (ℕ → Bool) → Bool
holds_below zero test = true
holds_below (suc n) test = test n && holds_below n test

holds_below_sound :
    (n : ℕ) (test : ℕ → Bool) → holds_below n test ≡ true → (i : ℕ) → i < n → test i ≡ true
unfolding holds_below
holds_below_sound zero test h i l = absurd (omega arith)
holds_below_sound (suc n) test h i l =
    let ih = holds_below_sound n test in
    elim (Bool-cases (i == n)) [
      | inl e ↦ let same : i ≡ n = ground arith in rw same (ground arith)
      | inr e ↦ ih (ground arith) i (ground arith)
    ]

entry_matches : ℕ → Bool
entry_matches i =
    (get_or crc16_lookup_tbl i 0 == remainder i) && ltb (get_or crc16_lookup_tbl i 0) 65536

all_match : holds_below 256 entry_matches ≡ true
unfolding holds_below entry_matches crc16_lookup_tbl remainder divide_steps divide_step
all_match = refl

-- Each entry of the table is the remainder of its index by the polynomial 0x8005, with its bytes swapped,
-- and fits 16 bits.
pub crc16_lookup_tbl_lem :
    (i : ℕ)
    → i < 256
    → (get_or crc16_lookup_tbl i 0 ≡ remainder i) × (get_or crc16_lookup_tbl i 0 < 65536)
unfolding entry_matches
crc16_lookup_tbl_lem i h =
    let m = holds_below_sound 256 entry_matches all_match i h in (ground arith, ground arith)
