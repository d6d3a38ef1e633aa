-- ===== src/ModService/Attach.antt =====
-- Modules that come and go, in muc_svc.c.
use motorola_external_greybu.Prelude.{
  ℕ, ◌+◌, Bool, true, false, not, Option, List, [], ◌∷◌, ◌++◌, ◌==◌, if◌then◌else◌,
}
use motorola_external_greybu.Prelude.Errno.{Errno, failed, success, eexist, enomem}
use motorola_external_greybu.Nw.Defs.{Network, add_route, del_route}
use motorola_external_greybu.Connection.{remove_id}
use motorola_external_greybu.ModService.Recovery.{clear_wdog, recovery}
use motorola_external_greybu.ModService.Routes.{
  PairAllocs, intf_svc, intf_ap, create_control_route, destroy_control_route,
}
use motorola_external_greybu.ModService.Requests.{Module, Service}

-- `SVC_VENDOR_CTRL_CPORT`
abbrev pub svc_vendor_ctrl_cport : ℕ → ℕ
svc_vendor_ctrl_cport intf_id = 32768 + intf_id

-- `VENDOR_CTRL_DEST_CPORT`
abbrev pub vendor_ctrl_dest_cport : ℕ
vendor_ctrl_dest_cport = 65535

-- What the module answers on its control connection, and the outcomes of the allocations
pub record WorkAnswers : Type 0 where
  pub alloc : Bool
  pub pair : PairAllocs
  pub version : Errno
  pub rtc_sync : Errno
  pub hotplug_data : Errno
  pub supports_root_ver : Bool
  pub root_ver : Errno
  pub manifest : Errno

-- The questions in their order, up to the first that fails
unfoldable pub hotplug_steps : WorkAnswers → Errno
hotplug_steps a =
    if failed a.version
    then a.version
    else if failed a.rtc_sync
    then a.rtc_sync
    else if failed a.hotplug_data
    then a.hotplug_data
    else if a.supports_root_ver
    then (if failed a.root_ver then a.root_ver else a.manifest)
    else a.manifest

-- The search of `mods_dl_dev_attached` for an interface that is there already
unfoldable pub is_there : ℕ → List Module → Bool
is_there intf_id [] = false
is_there intf_id (m ∷ ms) = if m.intf_id == intf_id then true else is_there intf_id ms

-- `list_del` of a module
unfoldable pub list_del : ℕ → List Module → List Module
list_del intf_id [] = []
list_del intf_id (m ∷ ms) = if m.intf_id == intf_id then ms else m ∷ list_del intf_id ms

-- The parts that an attachment makes work
pub record AttachAnswers : Type 0 where
  pub vendor_pair : PairAllocs
  pub hotplug : WorkAnswers
  pub probe_ap : Errno
  pub jiffies : ℕ

-- The list and the network without a module whose routes are gone already
abbrev pub unlist : ℕ → Service → Service
unlist intf_id s = record s { ext_intf = list_del intf_id s.ext_intf }

module _ (get_protocol : ℕ → Option (ℕ → Errno × ℕ)) where
  -- `muc_svc_create_hotplug_work`, which ends with the route destroyed whether it succeeds or fails. The work itself only
  -- runs once it is queued.
  unfoldable pub create_hotplug_work : WorkAnswers → ℕ → Network → Network × Errno
  unfolding hotplug_steps create_control_route destroy_control_route
  create_hotplug_work a intf_id n =
      let r = create_control_route get_protocol n intf_id intf_id 0 a.pair in
      if not a.alloc
      then (n, enomem)
      else if failed r.1
      then r
      else (destroy_control_route r.0 intf_id intf_id 0, hotplug_steps a)

  -- The special case of the AP in `mods_dl_dev_attached`
  unfoldable pub attach_ap : AttachAnswers → Network → Network × Errno
  attach_ap a n =
      let there =
        add_route get_protocol n intf_svc 0 intf_ap 0 a.vendor_pair.near1 a.vendor_pair.far1 in
      let back =
        add_route get_protocol there.0 intf_ap 0 intf_svc 0 a.vendor_pair.near2
          a.vendor_pair.far2 in
      if failed there.1
      then there
      else if failed back.1
      then (del_route back.0 intf_svc 0, back.1)
      else if failed a.probe_ap
      then (del_route (del_route back.0 intf_ap 0) intf_svc 0, a.probe_ap)
      else (back.0, success)

-- What follows a success: the work waits unless the module must be authenticated first, and the watchdog is cleared.
unfoldable pub attach_done : ℕ → Service → Service
unfolding clear_wdog
attach_done intf_id s = record s {
  queued = if s.authenticate then s.queued else s.queued ++ (intf_id ∷ []);
  watchdog = clear_wdog s.watchdog;
}

-- `list_empty` of the list of modules
abbrev pub is_empty : List Module → Bool
is_empty [] = true
is_empty (m ∷ ms) = false

module _ (get_protocol : ℕ → Option (ℕ → Errno × ℕ)) (time_after_eq : ℕ → ℕ → Bool) (hz : ℕ) where
  -- The label `recovery`
  unfoldable pub attach_recovery : AttachAnswers → ℕ → Service → Service
  unfolding recovery
  attach_recovery a intf_id s0 =
      let s = unlist intf_id s0 in
      let r = recovery time_after_eq hz (not (is_empty s.ext_intf)) a.jiffies s.watchdog in
      record s {
        watchdog = if s.mod_attached then s.watchdog else r.0;
        actions = if s.mod_attached then s.actions else r.1 ∷ s.actions;
      }

  -- The rest of `mods_dl_dev_attached` once the module is on the list
  unfoldable pub attach_listed : AttachAnswers → ℕ → Service → Service × Errno
  unfolding create_hotplug_work create_control_route destroy_control_route attach_done
      attach_recovery
  attach_listed a intf_id s =
      let vendor = svc_vendor_ctrl_cport intf_id in
      let r =
        create_control_route get_protocol s.network intf_id vendor vendor_ctrl_dest_cport
          a.vendor_pair in
      let w = create_hotplug_work get_protocol a.hotplug intf_id r.0 in
      if failed r.1
      then (attach_recovery a intf_id (record s { network = r.0 }), r.1)
      else if failed w.1
      then (
        attach_recovery a intf_id (record s {
          network = destroy_control_route w.0 intf_id vendor vendor_ctrl_dest_cport;
        }),
        w.1,
      )
      else (attach_done intf_id (record s { network = w.0 }), success)

  -- `mods_dl_dev_attached` of a module, or of the AP
  unfoldable pub dl_dev_attached : AttachAnswers → Module → Service → Service × Errno
  unfolding attach_ap attach_listed is_there
  dl_dev_attached a m s =
      let r = attach_ap get_protocol a s.network in
      if m.intf_id == intf_ap
      then (record s { network = r.0 }, r.1)
      else if is_there m.intf_id s.ext_intf
      then (s, eexist)
      else attach_listed a m.intf_id (record s { ext_intf = s.ext_intf ++ (m ∷ []) })

-- `mods_dl_dev_detached`; what it resets in the module leaves the list with it. The work that waits is run, which only
-- sends a request to the AP, as the request to unplug.
unfoldable pub dl_dev_detached : ℕ → Service → Service
unfolding destroy_control_route list_del
dl_dev_detached intf_id s =
    if intf_id == intf_ap
    then record s { network = del_route (del_route s.network intf_svc 0) intf_ap 0 }
    else unlist intf_id (record s {
      queued = remove_id intf_id s.queued;
      network =
          destroy_control_route s.network intf_id (svc_vendor_ctrl_cport intf_id)
            vendor_ctrl_dest_cport;
    })
