-- ===== src/Connection/Tests.antt =====
-- A concrete id allocator that meets the law of `ida_simple_get`, and connection.c's theorems at a host
-- device of four CPorts.
use motorola_external_greybu.Prelude.{
  ℕ, ◌+◌, ◌≤◌, ◌<◌, ◌≡◌, ◌≢◌, ◌⊎◌, ◌%◌, ◌/◌, ◌++◌, ◌==◌, refl, ◌&&◌, Bool, true, false, not, Option,
  none, some, List, [], ◌∷◌, arith, All, ltb, if◌then◌else◌,
}
use motorola_external_greybu.Prelude.Errno.{failed, success, etimedout, enomem}
use motorola_external_greybu.Connection.Life.{
  Live, Setup, Answers, skips, rebind, init, exit, negotiate_loop,
}
use motorola_external_greybu.Connection.Unwinding.{Paired, Offers, Acquired, Released}
use motorola_external_greybu.Connection.Balance.{init-Outcome}
use motorola_external_greybu.Connection.Accounting.{
  Recovery, account, timeouts, counts, account-recovers,
}
use motorola_external_greybu.Connection.{
  Connection, HostDevice, disabled, enabled, create_dynamic, create_at, create_in, intf_find,
}
use motorola_external_greybu.Connection.Create.{IsValid, IdaLaw, Created, create_dynamic-Created}

-- An id above all those in use.
pub above_all : List ℕ → ℕ → ℕ
above_all [] start = start
above_all (n ∷ ns) start = let m = above_all ns start in if ltb n m then m else n + 1

unfoldable pub ida : List ℕ → ℕ → ℕ → Option ℕ
unfolding above_all
ida ns start end = if ltb (above_all ns start) end then some (above_all ns start) else none

above_all-le : (ns : List ℕ) (start : ℕ) → start ≤ above_all ns start
unfolding above_all
above_all-le [] start = omega arith
above_all-le (n ∷ ns) start = ground (arith, above_all-le ns start)

All-below : (ns : List ℕ) (a b : ℕ) → a ≤ b → All (λ m. m < a) ns → All (λ m. m < b) ns
All-below [] a b h k = tt
All-below (n ∷ ns) a b h k = (omega (arith, k.0), All-below ns a b h k.1)

above_all-lt : (ns : List ℕ) (start : ℕ) → All (λ m. m < above_all ns start) ns
unfolding above_all
above_all-lt [] start = tt
above_all-lt (n ∷ ns) start = (
  ground arith,
  All-below ns (above_all ns start) (above_all (n ∷ ns) start) (ground arith)
      (above_all-lt ns start),
)

All-ne : (ns : List ℕ) (a : ℕ) → All (λ m. m < a) ns → All (λ m. m ≢ a) ns
All-ne [] a h = tt
All-ne (n ∷ ns) a h = (omega (arith, h.0), All-ne ns a h.1)

pub ida-IdaLaw : IdaLaw ida
unfolding ida
ida-IdaLaw = record {
  above = λ ns start end n h. ground (arith, above_all-le ns start);
  below = λ ns start end n z h. ground arith;
  free = λ ns start end n h.
      let e : above_all ns start ≡ n = ground arith in
      rw (← e) (All-ne ns (above_all ns start) (above_all-lt ns start));
}

abbrev pub always : ℕ → Bool
always n = true

abbrev svc : Connection
svc = record {
  hd_cport_id = 0;
  intf = none;
  bundle = none;
  intf_cport_id = 0;
  protocol_id = 20;
  state = disabled;
}

abbrev pub host : HostDevice
host = record { connections = svc ∷ []; cport_id_map = 0 ∷ []; num_cports = 4; next_alloc = 0 }

host-IsValid : IsValid host
host-IsValid = record {
  some_cports = omega arith;
  used = refl;
  in_range = omega arith;
  distinct = (tt, tt);
  cports = (tt, tt);
}

create_dynamic_runs : (create_dynamic always ida host 7 1 5 11).0.cport_id_map ≡ 1 ∷ 0 ∷ []
unfolding create_dynamic create_at create_in intf_find ida
create_dynamic_runs = refl

create_dynamic-Created_example :
    Created host (some 7) (some 1) 5 11 (create_dynamic always ida host 7 1 5 11)
create_dynamic-Created_example =
    create_dynamic-Created always ida ida-IdaLaw host 7 1 5 11 host-IsValid

-- A connection of an interface whose protocol has a driver that fails to set it up
abbrev link : Setup
link = record {
  intf = true;
  disconnected = false;
  skip_connected = λ p. false;
  skip_disconnected = λ p. false;
  skip_version = λ p. false;
  has_enable = true;
  has_disable = true;
}

abbrev answers : Answers
answers = record {
  latest = some 7;
  cport_enable = success;
  svc_create = success;
  connected = success;
  negotiate = λ n. if n == 0 then (etimedout, none) else (success, some 8);
  connection_init = enomem;
}

abbrev unused : Live
unused = record {
  state = disabled;
  protocol = none;
  refs = 0;
  cport_enabled = false;
  svc_connection = false;
  control_connected = false;
  handler = false;
  operations = [];
  cancelled = [];
}

link-Paired : Paired link answers
unfolding skips
link-Paired = record { cport = refl; control = control }
  where
    control :
        (bound : Option ℕ)
        → Offers answers bound
        → (skips link.skip_disconnected bound && not (skips link.skip_connected answers.latest))
          ≡ false
    control none o = refl
    control (some q) o = refl

init-Outcome_example :
    ((failed (init link answers unused).1 ≡ false)
      × ((init link answers unused).0.state ≡ enabled)
      × Acquired link answers 0 (init link answers unused).0 true true true true
      × Released 0 (exit link (init link answers unused).0))
    ⊎ ((failed (init link answers unused).1 ≡ true) × Released 0 (init link answers unused).0)
init-Outcome_example = init-Outcome link answers link-Paired 0 unused (record {
  protocol = refl;
  refs = refl;
  cport_enabled = refl;
  svc_connection = refl;
  connected = refl;
  set_up = refl;
})

-- The second negotiation of the version is answered, and binds another protocol.
second_try : negotiate_loop answers.negotiate 2 0 (some 7) ≡ (success, 2, some 8)
unfolding negotiate_loop rebind
second_try = refl

abbrev timed : Recovery
timed = record { timeout_counter = 2; max_timeouts = 3; recovered = 0; has_recovery = true }

account-recovers_example :
    let before = account (etimedout ∷ [] ++ (success ∷ [])) timed in
    account (timeouts 7) before
    ≡ counts (7 % before.max_timeouts) (before.recovered + 7 / before.max_timeouts) before
account-recovers_example =
    account-recovers (etimedout ∷ []) success 7 timed (refl, omega arith) refl
