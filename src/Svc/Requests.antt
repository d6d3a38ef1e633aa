-- ===== src/Svc/Requests.antt =====
-- The requests that the SVC sends to the host, in svc.c. They come one at a time, and the work queue, which runs
-- one work at a time, keeps their order.
use motorola_external_greybu.Prelude.{
  ℕ, ◌+◌, Bool, true, false, not, Option, List, [], ◌∷◌, ◌++◌, ltb, ◌==◌, if◌then◌else◌, get_or,
  length,
}
use motorola_external_greybu.Prelude.Errno.{failed, Errno, success, einval, enomem, enotsupp}
use motorola_external_greybu.Svc.Interfaces.{
  Svc, SvcState, reset, protocol_version, svc_hello, Deferred,
}
use motorola_external_greybu.Svc.Hotplug.{
  HotplugAnswers, word_at, process_intf_hotplug, process_intf_hot_unplug,
}

-- The types of the requests
abbrev pub type_protocol_version : ℕ
type_protocol_version = 1

abbrev pub type_svc_hello : ℕ
type_svc_hello = 2

abbrev pub type_intf_hotplug : ℕ
type_intf_hotplug = 4

abbrev pub type_intf_hot_unplug : ℕ
type_intf_hot_unplug = 5

abbrev pub type_intf_reset : ℕ
type_intf_reset = 6

-- `GB_SVC_VERSION_MAJOR`
abbrev pub svc_version_major : ℕ
svc_version_major = 0

-- The outcomes of the allocations and of `device_add` during a request
pub record RequestAnswers : Type 0 where
  pub response_alloc : Bool
  pub device_add : Errno
  pub deferred_alloc : Bool

-- `gb_svc_version_request`
unfoldable pub version_request : RequestAnswers → List ℕ → Svc → Svc × Errno
version_request a payload s =
    let agreed = record s {
      module_major = get_or payload 0 0;
      module_minor = get_or payload 1 0;
    } in
    if ltb (length payload) 2
    then (s, einval)
    else if ltb svc_version_major (get_or payload 0 0)
    then (s, enotsupp)
    else if not a.response_alloc
    then (agreed, enomem)
    else (agreed, success)

-- `gb_svc_hello`
unfoldable pub hello : RequestAnswers → List ℕ → Svc → Svc × Errno
unfolding word_at
hello a payload s =
    let greeted = record s { endo_id = word_at payload 0; ap_intf_id = get_or payload 2 0 } in
    if ltb (length payload) 3
    then (s, einval)
    else if failed a.device_add
    then (greeted, a.device_add)
    else (record greeted { device_added = true }, success)

-- The order of the requests: whether one of a type may come in a state.
abbrev pub is_expected : ℕ → SvcState → Bool
is_expected type reset = type == type_protocol_version
is_expected type protocol_version = type == type_svc_hello
is_expected type svc_hello =
    if type == type_protocol_version then false else not (type == type_svc_hello)

-- A request that succeeds leads to the next state of the protocol.
abbrev pub enter : SvcState → Svc × Errno → Svc × Errno
enter state r = (if failed r.1 then r.0 else record r.0 { state = state }, r.1)

-- `gb_svc_intf_reset_recv`
abbrev pub intf_reset_recv : List ℕ → Svc → Svc × Errno
intf_reset_recv payload s = if ltb (length payload) 1 then (s, einval) else (s, success)

-- `world n` has the answers for the n-th work that is processed.
module _ (ida_get : List ℕ → ℕ → ℕ → Option ℕ) (world : ℕ → HotplugAnswers) where
  -- `gb_svc_process_deferred_request`
  unfoldable pub process_deferred_request : Deferred → Svc → Svc
  unfolding process_intf_hotplug process_intf_hot_unplug
  process_deferred_request d s =
      if d.type == type_intf_hotplug
      then process_intf_hotplug ida_get (world s.served) d.payload
          (record s { served = s.served + 1 })
      else if d.type == type_intf_hot_unplug
      then process_intf_hot_unplug (world s.served).remove_destroy d.payload
          (record s { served = s.served + 1 })
      else s

  -- The work queue runs a list of works.
  unfoldable pub run_works : List Deferred → Svc → Svc
  unfolding process_deferred_request
  run_works [] s = s
  run_works (d ∷ ds) s = run_works ds (process_deferred_request d s)

  -- The work queue runs its first work.
  unfoldable pub run_first : Svc → Svc
  unfolding process_deferred_request
  run_first s = elim s.queue [
    | [] ↦ s
    | d ∷ ds ↦ process_deferred_request d (record s { queue = ds })
  ]

  -- `gb_svc_queue_deferred_request`; for a hot unplug request it waits until the queue has run it.
  unfoldable pub queue_deferred_request : RequestAnswers → Deferred → Svc → Svc × Errno
  unfolding run_works
  queue_deferred_request a d s =
      if not a.deferred_alloc
      then (s, enomem)
      else if d.type == type_intf_hot_unplug
      then (run_works (s.queue ++ (d ∷ [])) (record s { queue = [] }), success)
      else (record s { queue = s.queue ++ (d ∷ []) }, success)

  -- `gb_svc_intf_hotplug_recv` and `gb_svc_intf_hot_unplug_recv`, whose requests have 17 and 2 bytes
  unfoldable pub intf_hotplug_recv : RequestAnswers → List ℕ → Svc → Svc × Errno
  unfolding queue_deferred_request
  intf_hotplug_recv a payload s =
      if ltb (length payload) 17
      then (s, einval)
      else queue_deferred_request a (record { type = type_intf_hotplug; payload = payload }) s

  unfoldable pub intf_hot_unplug_recv : RequestAnswers → List ℕ → Svc → Svc × Errno
  unfolding queue_deferred_request
  intf_hot_unplug_recv a payload s =
      if ltb (length payload) 2
      then (s, einval)
      else queue_deferred_request a (record { type = type_intf_hot_unplug; payload = payload }) s

  -- The later cases of `gb_svc_request_recv`
  unfoldable pub interface_request : RequestAnswers → ℕ → List ℕ → Svc → Svc × Errno
  unfolding intf_hotplug_recv intf_hot_unplug_recv
  interface_request a type payload s =
      if type == type_intf_hotplug
      then intf_hotplug_recv a payload s
      else if type == type_intf_hot_unplug
      then intf_hot_unplug_recv a payload s
      else if type == type_intf_reset
      then intf_reset_recv payload s
      else (s, einval)

  -- `gb_svc_request_recv` once the order is right
  unfoldable pub request_handle : RequestAnswers → ℕ → List ℕ → Svc → Svc × Errno
  unfolding interface_request
  request_handle a type payload s =
      if type == type_protocol_version
      then enter protocol_version (version_request a payload s)
      else if type == type_svc_hello
      then enter svc_hello (hello a payload s)
      else interface_request a type payload s

  -- `gb_svc_request_recv`
  unfoldable pub request_recv : RequestAnswers → ℕ → List ℕ → Svc → Svc × Errno
  unfolding request_handle
  request_recv a type payload s =
      if is_expected type s.state then request_handle a type payload s else (s, einval)

-- `gb_svc_create`
abbrev pub created : Svc
created = record {
  state = reset;
  endo_id = 0;
  ap_intf_id = 0;
  module_major = 0;
  module_minor = 0;
  device_added = false;
  interfaces = [];
  device_id_map = [];
  routes = [];
  undestroyed = [];
  queue = [];
  served = 0;
}
