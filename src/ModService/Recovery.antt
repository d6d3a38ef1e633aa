-- ===== src/ModService/Recovery.antt =====
-- The recovery of a module that does not come up, in muc_svc.c.
use motorola_external_greybu.Prelude.{
  ℕ, ◌+◌, ◌*◌, ◌%◌, ◌^◌, Bool, false, List, [], ◌∷◌, ltb, ◌==◌, if◌then◌else◌,
}

-- `enum muc_svc_recover`, and any other number
pub data Level : Type 0 where
  full off soft invalid : Level

-- What a recovery does: a reset of a level, or the end of the power, or nothing since a module is there
pub data Recovered : Type 0 where
  muc_reset muc_soft_reset recovery_disabled invalid_recovery muc_poweroff skipped : Recovered

-- The fields of `struct muc_svc_data` that count failures
pub record Watchdog : Type 0 where
  pub first_fail : ℕ
  pub fail_count : ℕ
  pub recovery_level : Level

-- `_do_muc_recovery_level`
abbrev pub do_muc_recovery_level : Level → Recovered
do_muc_recovery_level full = muc_reset
do_muc_recovery_level off = recovery_disabled
do_muc_recovery_level soft = muc_soft_reset
do_muc_recovery_level invalid = invalid_recovery

-- `MUC_SVC_WATCHDOG_MAX_RETRIES`
abbrev pub watchdog_max_retries : ℕ
watchdog_max_retries = 5

-- `muc_svc_clear_wdog`
unfoldable pub clear_wdog : Watchdog → Watchdog
clear_wdog d = if d.fail_count == 0 then d else record d { fail_count = 0 }

-- The kernel's `time_after_eq` and the ticks in a second
module _ (time_after_eq : ℕ → ℕ → Bool) (hz : ℕ) where
  -- `MUC_SVC_FAILURE_WINDOW`
  abbrev pub failure_window : ℕ
  failure_window = 300 * hz

  -- `muc_svc_recovery` at a time, where `present` is whether a module is on the list `ext_intf`
  unfoldable pub recovery : Bool → ℕ → Watchdog → Watchdog × Recovered
  recovery present jiffies d =
      let first = if d.fail_count == 0 then jiffies else d.first_fail in
      let expired = time_after_eq jiffies ((first + failure_window) % 2 ^ 64) in
      let count = ((if expired then 0 else d.fail_count) + 1) % 256 in
      let start = if expired then jiffies else first in
      if present
      then (d, skipped)
      else if ltb watchdog_max_retries count
      then (record d { first_fail = start; fail_count = 0 }, muc_poweroff)
      else (
        record d { first_fail = start; fail_count = count },
        do_muc_recovery_level d.recovery_level,
      )

  -- `muc_svc_communication_reset`, where `heartbeat` is whether the module answers
  unfoldable pub communication_reset : Bool → ℕ → Watchdog → Watchdog × Recovered
  communication_reset heartbeat jiffies d = if heartbeat then (d, skipped) else (
    record d {
      first_fail = if d.fail_count == 0 then jiffies else d.first_fail;
      fail_count = (d.fail_count + 1) % 256;
    },
    do_muc_recovery_level d.recovery_level,
  )

  -- Recoveries at several times: the end, and what they did
  unfoldable pub recoveries : List ℕ → Watchdog → Watchdog × List Recovered
  unfolding recovery
  recoveries [] d = (d, [])
  recoveries (t ∷ ts) d =
      let r = recovery false t d in let rest = recoveries ts r.0 in (rest.0, r.1 ∷ rest.1)
