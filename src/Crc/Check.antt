-- ===== src/Crc/Check.antt =====
-- What crc.c computes over a message that ends in its checksum.
use motorola_external_greybu.Prelude.{
  ℕ, zero, suc, ◌*◌, ◌/◌, ◌%◌, ◌<◌, ◌≤◌, ◌≡◌, refl, sym, subst, ◌∙◌, bit_xor, List, [], ◌∷◌, ◌++◌,
  get_or, arith,
}
use motorola_external_greybu.Crc.{crc16_lookup_tbl, crc16_one, crc16_calc}
use motorola_external_greybu.Crc.Table.{crc16_lookup_tbl_lem}
use Prim.Native.Nat.{digits, differ, bit_xor-bitwise}

-- The low digits of a number are zero, or those of two numbers are the same; a number has few digits.
Low : ℕ → ℕ → Type 0
Low zero x = Unit
Low (suc k) x = (x % 2 ≡ 0) × Low k (x / 2)

Agree : ℕ → ℕ → ℕ → Type 0
Agree zero a b = Unit
Agree (suc k) a b = (a % 2 ≡ b % 2) × Agree k (a / 2) (b / 2)

Short : ℕ → ℕ → Type 0
Short zero x = x ≡ 0
Short (suc k) x = Short k (x / 2)

abbrev xor_digits : ℕ → ℕ → ℕ → ℕ
xor_digits n a b = digits (λ b. b) differ n a b

differ_self : (x : ℕ) → differ x x ≡ 0
differ_self zero = refl
differ_self (suc x) = differ_self x

differ_zero : (x : ℕ) → differ x 0 ≡ x
differ_zero zero = refl
differ_zero (suc x) = refl

Low-zero : (k b : ℕ) → Agree k 0 b → Low k b
unfolding Low Agree
Low-zero zero b h = h
Low-zero (suc k) b (e, h) = (omega arith, Low-zero k (b / 2) h)

digits-Low : (k n a b : ℕ) → a ≤ n → Agree k a b → Low k (xor_digits n a b)
unfolding Low Agree
digits-Low zero n a b l h = h
digits-Low (suc k) zero a b l h =
    let none_left : a ≡ 0 = omega arith in Low-zero (suc k) b (rw none_left at h)
digits-Low (suc k) (suc n) zero b l h = Low-zero (suc k) b h
digits-Low (suc k) (suc n) (suc a) b l (e, h) =
    let rest = xor_digits n (suc a / 2) (b / 2) in
    let ih : Low k rest = digits-Low k n (suc a / 2) (b / 2) (omega arith) h in
    let last : differ (suc a % 2) (b % 2) ≡ 0 = rw (← e) (differ_self (suc a % 2)) in
    let whole : xor_digits (suc n) (suc a) b ≡ rest * 2 = omega (arith, last) in
    let half : rest ≡ xor_digits (suc n) (suc a) b / 2 = omega (arith, whole) in
    (omega (arith, whole), subst (Low k) half ih)

digits_right : (n a : ℕ) → a ≤ n → xor_digits n a 0 ≡ a
digits_right zero a l = omega arith
digits_right (suc n) zero l = refl
digits_right (suc n) (suc a) l =
    let ih = digits_right n (suc a / 2) (omega arith) in omega (arith, ih, differ_zero (suc a % 2))

differ_bit : (x y : ℕ) → x < 2 → y < 2 → differ x y < 2
differ_bit zero y h k = k
differ_bit (suc x) zero h k = h
differ_bit (suc x) (suc y) h k = differ_bit x y (omega arith) (omega arith)

Short-zero : (k n b : ℕ) → Short k b → Short k (xor_digits n 0 b)
Short-zero k zero b h = h
Short-zero k (suc n) b h = h

digits-Short : (k n a b : ℕ) → a ≤ n → Short k a → Short k b → Short k (xor_digits n a b)
unfolding Short
digits-Short k zero a b l g h = h
digits-Short k (suc n) zero b l g h = h
digits-Short zero (suc n) (suc a) b l g h = absurd (omega arith)
digits-Short (suc k) (suc n) (suc a) b l g h =
    let rest = xor_digits n (suc a / 2) (b / 2) in
    let ih : Short k rest = digits-Short k n (suc a / 2) (b / 2) (omega arith) g h in
    let last : differ (suc a % 2) (b % 2) < 2 =
      differ_bit (suc a % 2) (b % 2) (omega arith) (omega arith) in
    let half : rest ≡ xor_digits (suc n) (suc a) b / 2 = omega (arith, last) in
    subst (Short k) half ih

bit_xor_digits : (a b : ℕ) → bit_xor a b ≡ xor_digits a a b
bit_xor_digits a b = λ i. bit_xor-bitwise a b i

bit_xor_right : (a : ℕ) → bit_xor a 0 ≡ a
bit_xor_right a = bit_xor_digits a 0 ∙ digits_right a a (omega arith)

bit_xor_bound : (a b : ℕ) → a < 65536 → b < 65536 → bit_xor a b < 65536
unfolding Short
bit_xor_bound a b h k =
    let short : Short 16 (xor_digits a a b) =
      digits-Short 16 a a b (omega arith) (omega arith) (omega arith) in
    rw (bit_xor_digits a b) (omega (arith, short))

-- A number and its last byte differ in no digit of the last byte.
bit_xor_last : (a : ℕ) → bit_xor a (a % 256) % 256 ≡ 0
unfolding Low Agree
bit_xor_last a =
    let agree : Agree 8 a (a % 256) = (
      omega arith,
      (
        omega arith,
        (
          omega arith,
          (omega arith, (omega arith, (omega arith, (omega arith, (omega arith, tt))))),
        ),
      ),
    ) in
    let low : Low 8 (xor_digits a a (a % 256)) = digits-Low 8 a a (a % 256) (omega arith) agree in
    rw (bit_xor_digits a (a % 256)) (omega (arith, low))

crc16_one_bound : (crc byte : ℕ) → crc < 65536 → crc16_one crc byte < 65536
unfolding crc16_one
crc16_one_bound crc byte h =
    let (_, entry) = crc16_lookup_tbl_lem (bit_xor crc byte % 256) (omega arith) in
    bit_xor_bound (crc / 256) (get_or crc16_lookup_tbl (bit_xor crc byte % 256) 0) (omega arith)
      entry

pub crc16_calc_bound : (buffer : List ℕ) (crc : ℕ) → crc < 65536 → crc16_calc crc buffer < 65536
unfolding crc16_calc
crc16_calc_bound [] crc h = h
crc16_calc_bound (byte ∷ buffer) crc h =
    crc16_calc_bound buffer (crc16_one crc byte) (crc16_one_bound crc byte h)

crc16_calc-append :
    (xs ys : List ℕ) (crc : ℕ) → crc16_calc crc (xs ++ ys) ≡ crc16_calc (crc16_calc crc xs) ys
unfolding crc16_calc
crc16_calc-append [] ys crc = refl
crc16_calc-append (x ∷ xs) ys crc = crc16_calc-append xs ys (crc16_one crc x)

crc16_one_last : (crc : ℕ) → crc16_one crc (crc % 256) ≡ crc / 256
unfolding crc16_one crc16_lookup_tbl
crc16_one_last crc = rw (bit_xor_last crc, crc16_one) (bit_xor_right (crc / 256))

crc16_calc_last : (crc : ℕ) → crc < 65536 → crc16_calc crc (crc % 256 ∷ crc / 256 ∷ []) ≡ 0
unfolding crc16_calc
crc16_calc_last crc h =
    let high : crc / 256 ≡ crc / 256 % 256 = omega arith in
    let last : crc16_one (crc / 256) (crc / 256) ≡ 0 =
      subst (λ b. crc16_one (crc / 256) b ≡ 0) (sym high)
        (crc16_one_last (crc / 256) ∙ omega arith) in
    rw (crc16_one_last crc) last

-- The checksum of a buffer fits 16 bits if the one to start from does, and over the buffer followed by its
-- checksum, low byte first, the checksum is zero.
pub crc16_calc-check :
    (crc : ℕ) (buffer : List ℕ)
    → crc < 65536
    → let sum = crc16_calc crc buffer in
      (sum < 65536) × (crc16_calc crc (buffer ++ (sum % 256 ∷ sum / 256 ∷ [])) ≡ 0)
crc16_calc-check crc buffer h =
    let bound = crc16_calc_bound buffer crc h in
    (bound, crc16_calc-append buffer _ crc ∙ crc16_calc_last (crc16_calc crc buffer) bound)
