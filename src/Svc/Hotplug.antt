-- ===== src/Svc/Hotplug.antt =====
-- The processing of a hotplug and of a hot unplug request in svc.c.
use motorola_external_greybu.Prelude.{
  ℕ, ◌+◌, ◌*◌, Bool, false, ◌||◌, Option, none, some, List, [], ◌∷◌, leb, ◌==◌, if◌then◌else◌,
  get_or,
}
use motorola_external_greybu.Prelude.Errno.{failed, Errno, success, eio, enodev}
use motorola_external_greybu.Connection.{remove_id}
use motorola_external_greybu.Interface.{
  Interface, InitAnswers, device_id_bad, interface_find, interface_create, interface_remove,
  interface_init,
}
use motorola_external_greybu.Svc.Interfaces.{Svc, intf_remove, route_destroy}

-- `GB_DEVICE_ID_MODULES_START`, and the end of the range of `ida_simple_get` where 0 asks for no limit
abbrev pub device_id_modules_start : ℕ
device_id_modules_start = 2

abbrev pub ida_max : ℕ
ida_max = 2147483648

-- `DME_TSI_UNIPRO_BOOT_STARTED` and `DME_TSI_FALLBACK_UNIPRO_BOOT_STARTED`
abbrev pub boots_over_unipro : ℕ → Bool
boots_over_unipro value = (value == 6) || (value == 9)

-- An answer to a DME request: the operation's result, the result code of UniPro, and the value
pub record DmeAnswer : Type 0 where
  pub ret : Errno
  pub result_code : ℕ
  pub attr_value : ℕ

-- The result of `gb_svc_dme_peer_get` and of `gb_svc_dme_peer_set`
abbrev pub dme_peer : DmeAnswer → Errno
dme_peer a = if failed a.ret then a.ret else if a.result_code == 0 then success else eio

-- The answers of the parts that a work of the queue makes work; `remove_destroy` is the SVC's answer when the route to
-- an interface that is removed is destroyed, and `route_destroy` the one after a failure.
pub record HotplugAnswers : Type 0 where
  pub alloc : Bool
  pub control_create : Bool
  pub boot_status : DmeAnswer
  pub boot_clear : DmeAnswer
  pub intf_device_id : Errno
  pub route_create : Errno
  pub remove_destroy : Errno
  pub route_destroy : Errno
  pub init : InitAnswers

-- `gb_svc_read_and_clear_module_boot_status`: whether the module boots over UniPro, if it was written, and the
-- result.
unfoldable pub read_and_clear_module_boot_status : HotplugAnswers → Bool × Errno
read_and_clear_module_boot_status a =
    let ret = dme_peer a.boot_status in
    if failed ret
    then (false, ret)
    else if a.boot_status.attr_value == 0
    then (false, enodev)
    else (boots_over_unipro a.boot_status.attr_value, dme_peer a.boot_clear)

-- The little-endian words of a request
unfoldable pub word_at : List ℕ → ℕ → ℕ
word_at bytes i = get_or bytes i 0 + 256 * get_or bytes (i + 1) 0

unfoldable pub long_at : List ℕ → ℕ → ℕ
unfolding word_at
long_at bytes i = word_at bytes i + 65536 * word_at bytes (i + 2)

-- The first interface of the list is the one that is being set up.
abbrev pub set_first : (Interface → Interface) → List Interface → List Interface
set_first f [] = []
set_first f (intf ∷ rest) = f intf ∷ rest

-- The label `destroy_interface`, of the interface that was created
abbrev pub destroy_interface : ℕ → Svc → Svc
destroy_interface intf_id s = record s { interfaces = interface_remove intf_id s.interfaces }

-- The label `ida_put`, with the next one
abbrev pub ida_put : ℕ → ℕ → Svc → Svc
ida_put intf_id device_id s =
    destroy_interface intf_id (record s { device_id_map = remove_id device_id s.device_id_map })

-- The label `destroy_route`, with the next ones
unfoldable pub destroy_route : Errno → ℕ → ℕ → Svc → Svc
unfolding route_destroy
destroy_route ret intf_id device_id s = ida_put intf_id device_id (route_destroy ret intf_id s)

-- The initialisation of the interface in front of the list: the list, and the result.
unfoldable pub init_first : InitAnswers → ℕ → List Interface → List Interface × Errno
init_first a device_id [] = ([], success)
init_first a device_id (intf ∷ rest) = let r = interface_init a device_id intf in (r.0 ∷ rest, r.1)

-- An interface that is there already is removed first.
unfoldable pub hotplug_removed : Errno → ℕ → Svc → Svc
unfolding intf_remove
hotplug_removed ret intf_id s = elim (interface_find s.interfaces intf_id) [
  | none ↦ s
  | some intf ↦ intf_remove ret s intf
]

-- The kernel's `ida_simple_get`, which finds a free id in a range
module _ (ida_get : List ℕ → ℕ → ℕ → Option ℕ) where
  -- `gb_svc_process_intf_hotplug` from the route on
  unfoldable pub hotplug_route : HotplugAnswers → ℕ → ℕ → Svc → Svc
  unfolding init_first destroy_route
  hotplug_route a intf_id device_id s =
      let routed = record s { routes = intf_id ∷ s.routes } in
      let r = init_first a.init device_id routed.interfaces in
      let done = record routed { interfaces = r.0 } in
      if failed a.route_create
      then ida_put intf_id device_id s
      else if failed r.1
      then destroy_route a.route_destroy intf_id device_id done
      else done

  -- `gb_svc_process_intf_hotplug` from the device id on
  unfoldable pub hotplug_device : HotplugAnswers → ℕ → Svc → Svc
  unfolding hotplug_route
  hotplug_device a intf_id s = elim (ida_get s.device_id_map device_id_modules_start ida_max) [
    | none ↦ destroy_interface intf_id s
    | some id ↦
        let taken = record s { device_id_map = id ∷ s.device_id_map } in
        if leb device_id_bad id
        then destroy_interface intf_id taken
        else if failed a.intf_device_id
        then ida_put intf_id id taken
        else hotplug_route a intf_id id taken
  ]

  -- `gb_svc_process_intf_hotplug` once the interface is created, from the boot status on
  unfoldable pub hotplug_created : HotplugAnswers → List ℕ → ℕ → Svc → Svc
  unfolding read_and_clear_module_boot_status hotplug_device long_at
  hotplug_created a payload intf_id s =
      let status = read_and_clear_module_boot_status a in
      let identified = record s {
        interfaces =
            set_first
              (λ intf. record intf {
                unipro_mfg_id = long_at payload 1;
                unipro_prod_id = long_at payload 5;
                vendor_id = long_at payload 9;
                product_id = long_at payload 13;
                boot_over_unipro = status.0;
              })
              s.interfaces;
      } in
      if failed status.1 then destroy_interface intf_id s else hotplug_device a intf_id identified

  -- `gb_svc_process_intf_hotplug`
  unfoldable pub process_intf_hotplug : HotplugAnswers → List ℕ → Svc → Svc
  unfolding hotplug_removed hotplug_created
  process_intf_hotplug a payload s0 =
      let intf_id = get_or payload 0 0 in
      let s = hotplug_removed a.remove_destroy intf_id s0 in
      elim (interface_create a.alloc a.control_create s.interfaces intf_id) [
        | none ↦ s
        | some interfaces ↦ hotplug_created a payload intf_id (record s { interfaces = interfaces })
      ]

-- `gb_svc_process_intf_hot_unplug`: whether the interface is disconnected is set on the interface that is
-- removed.
unfoldable pub process_intf_hot_unplug : Errno → List ℕ → Svc → Svc
unfolding intf_remove
process_intf_hot_unplug ret payload s = elim (interface_find s.interfaces (get_or payload 0 0)) [
  | none ↦ s
  | some intf ↦ intf_remove ret s intf
]
