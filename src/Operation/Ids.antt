-- ===== src/Operation/Ids.antt =====
-- The ids of requests.
use motorola_external_greybu.Prelude.{ℕ, zero, suc, ◌+◌, ◌%◌, ◌≤◌, ◌<◌, ◌≡◌, ◌≢◌, arith}

-- The count of requests and the id of the next one, as `gb_operation_request_send` takes them; the count
-- has 32 bits.
unfoldable pub next_cycle : ℕ → ℕ
next_cycle op_cycle = (op_cycle + 1) % 4294967296

unfoldable pub operation_id : ℕ → ℕ
operation_id cycle = cycle % 65535 + 1

-- The count after some requests
unfoldable pub cycle_after : ℕ → ℕ → ℕ
cycle_after op_cycle zero = op_cycle
cycle_after op_cycle (suc n) = next_cycle (cycle_after op_cycle n)

cycle_after_lem : (c n : ℕ) → c < 4294967296 → cycle_after c n ≡ (c + n) % 4294967296
unfolding cycle_after next_cycle
cycle_after_lem c zero h = omega arith
cycle_after_lem c (suc n) h = omega (arith, cycle_after_lem c n h)

-- The id of a request is not zero, which stands for a unidirectional one, and fits 16 bits; a later request
-- has the same id only if at least 65535 requests were sent meanwhile, or the count wrapped around.
pub operation_id-distinct :
    (c n m : ℕ)
    → c < 4294967296
    → n < m
    → m < n + 65535
    → c + m < 4294967296
    → (1 ≤ operation_id (cycle_after c n))
      × (operation_id (cycle_after c n) < 65536)
      × (operation_id (cycle_after c n) ≢ operation_id (cycle_after c m))
unfolding operation_id
operation_id-distinct c n m h k l w =
    let a = cycle_after_lem c n h in
    let b = cycle_after_lem c m h in (omega arith, omega arith, λ e. omega arith)
