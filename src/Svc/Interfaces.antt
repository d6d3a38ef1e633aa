-- ===== src/Svc/Interfaces.antt =====
-- The state of the SVC in svc.h, and the removal of an interface in svc.c. `routes` are the interfaces to which
-- there is a route from the AP.
use motorola_external_greybu.Prelude.{ℕ, Bool, List, ◌∷◌, if◌then◌else◌}
use motorola_external_greybu.Prelude.Errno.{Errno, failed}
use motorola_external_greybu.Connection.{remove_id}
use motorola_external_greybu.Interface.{Interface, interface_remove}

-- `enum gb_svc_state`
pub data SvcState : Type 0 where
  reset protocol_version svc_hello : SvcState

-- A request that waits for the work queue: its type and its payload
pub record Deferred : Type 0 where
  pub type : ℕ
  pub payload : List ℕ

-- `struct gb_svc`, with the interfaces of its host device and the version that its connection has. `served` counts the
-- works that were processed, and `undestroyed` are the interfaces whose route the SVC has failed to destroy, as they
-- are logged.
pub record Svc : Type 0 where
  pub state : SvcState
  pub endo_id : ℕ
  pub ap_intf_id : ℕ
  pub module_major : ℕ
  pub module_minor : ℕ
  pub device_added : Bool
  pub interfaces : List Interface
  pub device_id_map : List ℕ
  pub routes : List ℕ
  pub undestroyed : List ℕ
  pub queue : List Deferred
  pub served : ℕ

-- `gb_svc_route_destroy` of the route between the AP and an interface, with the SVC's answer; its failure is only
-- logged, and the route stays.
unfoldable pub route_destroy : Errno → ℕ → Svc → Svc
route_destroy ret intf_id s =
    if failed ret
    then record s { undestroyed = intf_id ∷ s.undestroyed }
    else record s { routes = remove_id intf_id s.routes }

-- `gb_svc_intf_remove`
unfoldable pub intf_remove : Errno → Svc → Interface → Svc
unfolding route_destroy
intf_remove ret s intf = route_destroy ret intf.interface_id (record s {
  interfaces = interface_remove intf.interface_id s.interfaces;
  device_id_map = remove_id intf.device_id s.device_id_map;
})
