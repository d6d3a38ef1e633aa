-- ===== src/Svc/Tests.antt =====
-- The theorems on svc.c at an SVC that agrees on the version, greets, and plugs in a module with one bundle.
use motorola_external_greybu.Prelude.{ℕ, ◌≡◌, refl, true, some, List, [], ◌∷◌}
use motorola_external_greybu.Prelude.Errno.{success}
use motorola_external_greybu.Connection.Tests.{ida, ida-IdaLaw}
use motorola_external_greybu.Interface.{
  InitAnswers, Bundle, size_of, interface_create, interface_find, interface_init,
}
use motorola_external_greybu.Svc.Interfaces.{Svc}
use motorola_external_greybu.Svc.Hotplug.{HotplugAnswers, DmeAnswer, process_intf_hotplug}
use motorola_external_greybu.Svc.Requests.{
  RequestAnswers, request_recv, version_request, hello, run_first, created,
}
use motorola_external_greybu.Svc.Outcome.{Outcome}
use motorola_external_greybu.Svc.Invariant.{Safe, Reach, Reach-Safe, start, next, request, work}

abbrev camera : Bundle
camera = record { id = 1; connections = 1 ∷ 2 ∷ []; registered = true; initialised = [] }

abbrev init_answers : InitAnswers
init_answers = record {
  control_enable = success;
  manifest_size = size_of 64;
  manifest_alloc = true;
  get_manifest = success;
  manifest_parse = some (camera ∷ []);
  device_add = success;
  bundle_add = λ n. success;
  connection_init = λ n. success;
}

abbrev dme_answer : DmeAnswer
dme_answer = record { ret = success; result_code = 0; attr_value = 6 }

abbrev hotplug_answers : HotplugAnswers
hotplug_answers = record {
  alloc = true;
  control_create = true;
  boot_status = dme_answer;
  boot_clear = dme_answer;
  intf_device_id = success;
  route_create = success;
  remove_destroy = success;
  route_destroy = success;
  init = init_answers;
}

abbrev world : ℕ → HotplugAnswers
world n = hotplug_answers

abbrev request_answers : RequestAnswers
request_answers = record { response_alloc = true; device_add = success; deferred_alloc = true }

abbrev hotplug_payload : List ℕ
hotplug_payload = 9 ∷ 74 ∷ 1 ∷ 0 ∷ 0 ∷ 0 ∷ 16 ∷ 0 ∷ 0 ∷ 0 ∷ 0 ∷ 0 ∷ 0 ∷ 0 ∷ 0 ∷ 0 ∷ 0 ∷ []

abbrev versioned : Svc
versioned = (request_recv ida world request_answers 1 (0 ∷ 1 ∷ []) created).0

abbrev greeted : Svc
greeted = (request_recv ida world request_answers 2 (1 ∷ 0 ∷ 5 ∷ []) versioned).0

abbrev queued : Svc
queued = (request_recv ida world request_answers 4 hotplug_payload greeted).0

abbrev plugged : Svc
plugged = run_first ida world queued

abbrev greeted-Reach : Reach ida ida-IdaLaw world greeted
greeted-Reach =
    next (next start (request request_answers 1 (0 ∷ 1 ∷ [])))
      (request request_answers 2 (1 ∷ 0 ∷ 5 ∷ []))

Reach-Safe_example : Safe plugged
Reach-Safe_example =
    Reach-Safe ida ida-IdaLaw world
      (next (next greeted-Reach (request request_answers 4 hotplug_payload)) work)

plugged_runs : (plugged.routes ≡ 9 ∷ []) × (plugged.device_id_map ≡ 2 ∷ [])
unfolding run_first request_recv ida process_intf_hotplug version_request hello interface_create
    interface_find interface_init
plugged_runs = (refl, refl)
