-- ===== src/ModService/Tests.antt =====
-- The theorems on muc_svc.c at a network with the SVC, the AP and a module.
use motorola_external_greybu.Prelude.{
  ℕ, ◌≡◌, refl, inl, true, false, Bool, Option, none, some, List, [], ◌∷◌, leb, ltb, ◌==◌,
  if◌then◌else◌, arith,
}
use motorola_external_greybu.Prelude.Errno.{Errno, success, enoent, eio, einval}
use motorola_external_greybu.Prelude.Maps.{lookup, insert, erase}
use motorola_external_greybu.Nw.Defs.{
  Network, Filter, Message, add_dl_device, add_route, del_route, switch, get_dl_device, find_dest,
  need_dest, with_tree, with_dest, join_route, filter_present,
}
use motorola_external_greybu.Nw.Forward.{SentOn}
use motorola_external_greybu.Operation.Status.{errno_map}
use motorola_external_greybu.Svc.Hotplug.{word_at, long_at}
use motorola_external_greybu.ModService.Routes.{
  PairAllocs, conn_create, create_control_route, destroy_control_route,
}
use motorola_external_greybu.ModService.Forwarding.{conn_create-half_open}
use motorola_external_greybu.ModService.Requests.{
  Module, Service, ApRequest, ApResponse, ApAnswers, send_response, respond_request,
}
use motorola_external_greybu.ModService.Attach.{
  WorkAnswers, AttachAnswers, hotplug_steps, create_hotplug_work, attach_listed, dl_dev_attached,
  dl_dev_detached, is_there, list_del,
}
use motorola_external_greybu.ModService.Restored.{
  Unrouted, dl_dev_detached-attached, dl_dev_attached-unwound,
}
use motorola_external_greybu.ModService.Modules.{
  dev_from_intf, with_module, module_request, mods_slave_state, mods_request, handle_mods_request,
  Confined, handle_mods_request-Confined,
}
use motorola_external_greybu.ModService.Messages.{
  Sent, SvcReply, Arrival, answer, msg_start, msg_recv, msg_finish, recv_all,
}
use motorola_external_greybu.ModService.Waiting.{msg_finish-msg_recv}
use motorola_external_greybu.ModService.Recovery.{Watchdog, full, recoveries}
use motorola_external_greybu.ModService.Backoff.{TimeLaw, schedule, recoveries-schedule}

-- The AP (5) speaks protocol 7 on every CPort, and the module (6) refuses its CPorts from 9 on.
abbrev protocol_of : ℕ → Option (ℕ → Errno × ℕ)
protocol_of dev =
    if dev == 5
    then some (λ c. (success, 7))
    else if dev == 6
    then some (λ c. if ltb c 9 then (success, 7) else (einval, 0))
    else none

abbrev passes : Filter → ℕ → Message → Errno
passes f dev m = enoent

abbrev sends : ℕ → Message → Errno
sends dev m = success

abbrev all_alloc : PairAllocs
all_alloc = record { near1 = true; far1 = true; near2 = true; far2 = true }

abbrev network : Network
network =
    (add_dl_device
      (add_dl_device (add_dl_device (record { filters = []; interfaces = [] }) 4 0 true).0 5 1
        true).0
      6 2 true).0

abbrev refused_message : Message
refused_message = record { cport = 9; type = 2; rest = [] }

conn_create-half_open_example :
    ((conn_create protocol_of network 1 3 2 9 all_alloc).1 ≡ einval)
    × SentOn passes sends
        (conn_create protocol_of network 1 3 2 9 all_alloc).0
        2
        9
        5
        (record refused_message { cport = 3 })
        (switch passes sends
          (conn_create protocol_of network 1 3 2 9 all_alloc).0
          2
          refused_message)
unfolding add_dl_device get_dl_device lookup insert add_route need_dest find_dest with_tree
    with_dest join_route filter_present
conn_create-half_open_example =
    conn_create-half_open passes sends protocol_of network 1 3 2 9 5 6 all_alloc
      (λ c. if ltb c 9 then (success, 7) else (einval, 0)) refused_message refl refl refl refl refl
      refl refl

abbrev idle : Watchdog
idle = record { first_fail = 0; fail_count = 0; recovery_level = full }

abbrev not_before : ℕ → ℕ → Bool
not_before a b = leb b a

abbrev service : Service
service = record {
  network = network;
  device_ids = [];
  ext_intf = [];
  watchdog = idle;
  mod_attached = true;
  authenticate = false;
  queued = [];
  actions = [];
}

abbrev connect : ApRequest
connect = record { operation_id = 11; type = 7; payload = 1 ∷ 3 ∷ 0 ∷ 2 ∷ 4 ∷ 0 ∷ 0 ∷ 0 ∷ [] }

abbrev answers : ApAnswers
answers = record { request_alloc = true; pair = all_alloc; response_alloc = true; route = success }

abbrev made : ApResponse
made = record { operation_id = 11; type = 135; result = 0; payload = [] }

abbrev near_message : Message
near_message = record { cport = 3; type = 2; rest = [] }

abbrev far_message : Message
far_message = record { cport = 4; type = 2; rest = [] }

abbrev connected : Service
connected = record service { network = (conn_create protocol_of network 1 3 2 4 all_alloc).0 }

abbrev camera : Module
camera = record {
  intf_id = 2;
  slave_mask = 0;
  slave_state = 0;
  capability_level = 0;
  capability_reason = 0;
  capability_vendor = 0;
  high_current_reserved = false;
}

abbrev work_answers : WorkAnswers
work_answers = record {
  alloc = true;
  pair = all_alloc;
  version = success;
  rtc_sync = success;
  hotplug_data = success;
  supports_root_ver = false;
  root_ver = success;
  manifest = success;
}

-- This module has a protocol on each CPort.
abbrev any_protocol : ℕ → Option (ℕ → Errno × ℕ)
any_protocol dev = none

abbrev attach_answers : AttachAnswers
attach_answers = record {
  vendor_pair = all_alloc;
  hotplug = work_answers;
  probe_ap = success;
  jiffies = 7;
}

abbrev silent_answers : AttachAnswers
silent_answers = record attach_answers { hotplug = record work_answers { manifest = eio } }

network-Unrouted : Unrouted 2 network
unfolding add_dl_device lookup insert find_dest
network-Unrouted = record {
  vendor_near = refl;
  vendor_far = refl;
  control_near = refl;
  control_far = refl;
}

dl_dev_detached-attached_example :
    ((dl_dev_detached 2
        (dl_dev_attached any_protocol not_before 100 attach_answers camera service).0).ext_intf
      ≡ [])
    × (find_dest
          (dl_dev_detached 2
            (dl_dev_attached any_protocol not_before 100 attach_answers camera service).0).network
          0
          32770
        ≡ find_dest network 0 32770)
unfolding add_dl_device get_dl_device lookup insert erase add_route del_route need_dest find_dest
    with_tree with_dest join_route filter_present dl_dev_attached attach_listed create_hotplug_work
    create_control_route destroy_control_route hotplug_steps is_there
dl_dev_detached-attached_example =
    dl_dev_detached-attached any_protocol not_before 100 attach_answers camera service 0 32770
      (omega arith) (omega arith) network-Unrouted refl

dl_dev_attached-unwound_example :
    ((dl_dev_attached any_protocol not_before 100 silent_answers camera service).0.ext_intf ≡ [])
    × (find_dest
          (dl_dev_attached any_protocol not_before 100 silent_answers camera service).0.network
          0
          32770
        ≡ find_dest network 0 32770)
unfolding add_dl_device get_dl_device lookup insert erase add_route del_route need_dest find_dest
    with_tree with_dest join_route filter_present dl_dev_attached attach_listed create_hotplug_work
    create_control_route destroy_control_route hotplug_steps is_there list_del
dl_dev_attached-unwound_example =
    dl_dev_attached-unwound any_protocol not_before 100 silent_answers camera service 0 32770
      (omega arith) (omega arith) network-Unrouted refl refl refl

leb-TimeLaw : TimeLaw not_before
leb-TimeLaw = record { before = λ a b h k. ground arith }

abbrev failures : List ℕ
failures = 10 ∷ 20 ∷ 30 ∷ 40 ∷ 50 ∷ 60 ∷ 70 ∷ []

recoveries-schedule_example :
    ((recoveries not_before 100 failures idle).1 ≡ schedule full 0 failures)
    × ((recoveries not_before 100 failures idle).0.fail_count ≡ 1)
recoveries-schedule_example =
    recoveries-schedule not_before leb-TimeLaw 100 10 (omega arith) failures idle
      (omega arith, inl refl)
      (
        (omega arith, omega arith),
        (
          (omega arith, omega arith),
          (
            (omega arith, omega arith),
            (
              (omega arith, omega arith),
              (
                (omega arith, omega arith),
                ((omega arith, omega arith), ((omega arith, omega arith), tt)),
              ),
            ),
          ),
        ),
      )

-- One message waits with id 7, and its answer comes before that of the next one, which gets the id 9.
abbrev busy : Sent
busy = record {
  msg_num = 7;
  operations = record { address = 50; msg_id = 7; response = none; completed = false } ∷ [];
}

abbrev reply : SvcReply
reply = record { result = 0; payload = 1 ∷ 2 ∷ [] }

abbrev arrivals : List Arrival
arrivals = record { alloc = true; id = 7; reply = reply } ∷ []

msg_finish-msg_recv_example :
    msg_finish success success 60 (msg_recv true 9 reply (recv_all arrivals (msg_start 60 busy))).0
    ≡ (
      record { msg_num = 8; operations = (recv_all arrivals busy).operations },
      answer (1 ∷ 2 ∷ []),
    )
msg_finish-msg_recv_example =
    msg_finish-msg_recv busy 60 arrivals reply ((omega arith, omega arith), tt) (omega arith, tt)

-- The module 2 says that its slave is there.
abbrev slave_request : ApRequest
slave_request = record { operation_id = 3; type = 9; payload = 1 ∷ 0 ∷ 0 ∷ 0 ∷ 2 ∷ 0 ∷ 0 ∷ 0 ∷ [] }

abbrev camera_listed : Service
camera_listed = record service { ext_intf = camera ∷ [] }

abbrev camera_told : Service
camera_told = record service { ext_intf = record camera { slave_mask = 1; slave_state = 2 } ∷ [] }

abbrev told : ApResponse
told = record { operation_id = 3; type = 137; result = 0; payload = [] }

handle_mods_request-Confined_example : Confined 4 camera_listed camera_told
unfolding handle_mods_request mods_request mods_slave_state module_request dev_from_intf with_module
    respond_request send_response errno_map long_at word_at
handle_mods_request-Confined_example =
    handle_mods_request-Confined answers slave_request 2 4 camera_listed camera_told (some told)
      success (omega arith) (omega arith) refl
