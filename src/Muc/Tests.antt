-- ===== src/Muc/Tests.antt =====
-- A module that is plugged in, has a short, and is reset.
use motorola_external_greybu.Prelude.{
  ℕ, ◌≡◌, refl, Bool, true, false, Option, none, some, List, [], ◌∷◌,
}
use motorola_external_greybu.Prelude.Errno.{success}
use motorola_external_greybu.Muc.State.{Muc, Readings, det_hysteresis, queue_isr_work}
use motorola_external_greybu.Muc.Detection.{handle_detection, attach_work, isr}
use motorola_external_greybu.Muc.Resets.{do_muc_reset}
use motorola_external_greybu.Muc.Port.{Port, off, powered, attached, Shows}
use motorola_external_greybu.Muc.Refines.{handle_detection-Shows}
use motorola_external_greybu.Muc.Invariant.{
  Reach, start, next, sets_up, works, interrupts, probed, Reach-Shows, do_muc_reset-powered,
}
use motorola_external_greybu.Muc.Settling.{run, Settled, run-Settled}
use motorola_external_greybu.Muc.Shorts.{run-GivenUp}
use motorola_external_greybu.Muc.Sequences.{parse_seq, Runs, muc_seq-parse_seq}

abbrev plugged : Readings
plugged = record {
  det_n = false;
  int_n = true;
  ready_n = true;
  int_n_awake = true;
  clk = false;
  det_n_settled = false;
  transports = true;
  transport_device = true;
  device_created = true;
}

abbrev gone : Readings
gone = record plugged { det_n = true; det_n_settled = true }

abbrev shorted : Readings
shorted = record plugged { int_n = false; ready_n = false; int_n_awake = false }

abbrev queued : Muc
queued = queue_isr_work det_hysteresis probed

probed-off : Shows probed off
probed-off = record { detected = refl; bplus = refl; notified = refl; power = refl }

queued-off : Shows queued off
queued-off = record { detected = refl; bplus = refl; notified = refl; power = refl }

handle_detection-Shows_example : Shows (handle_detection true false plugged queued) attached
handle_detection-Shows_example = handle_detection-Shows true false plugged queued off queued-off

run-Settled_example : Settled plugged (run true plugged 2 queued)
run-Settled_example =
    run-Settled true plugged (record { settled = refl; no_short = refl }) queued off det_hysteresis
      queued-off refl

run-GivenUp_example :
    ((run true shorted 9 queued).queued ≡ none) × Shows (run true shorted 9 queued) off
run-GivenUp_example = run-GivenUp true shorted refl refl queued det_hysteresis queued-off refl

abbrev plugged_in : Muc
plugged_in = handle_detection true false plugged queued

-- A module is attached, and an interrupt tells that it goes.
removed : Reach true false (isr true (attach_work true plugged queued))
removed = next (next (next start sets_up) (works plugged det_hysteresis refl)) (interrupts true)

Reach-Shows_example : (q : Port) × Shows (isr true (attach_work true plugged queued)) q
Reach-Shows_example = Reach-Shows removed

do_muc_reset-powered_example :
    Shows (do_muc_reset true (true ∷ []) gone plugged_in) powered
    × ((force : Bool) (again : Readings) (t : Muc)
        → again.det_n ≡ true
        → Shows t powered
        → Shows (handle_detection true force again t) powered)
do_muc_reset-powered_example =
    do_muc_reset-powered true (true ∷ []) gone plugged_in
      (handle_detection-Shows true false plugged queued off queued-off) refl

abbrev gpios : List (Option ℕ)
gpios = some 40 ∷ some 41 ∷ none ∷ []

muc_seq-parse_seq_example :
    ((parse_seq gpios (some (1 ∷ 1 ∷ 20 ∷ [])) 96 success).1 ≡ 1 ∷ 1 ∷ 20 ∷ [])
    × Runs gpios (1 ∷ 1 ∷ 20 ∷ [])
unfolding parse_seq
muc_seq-parse_seq_example = muc_seq-parse_seq gpios (1 ∷ 1 ∷ 20 ∷ []) 96 success refl
