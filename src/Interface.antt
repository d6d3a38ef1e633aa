-- ===== src/Interface.antt =====
-- interface.c: interfaces, and their initialisation with control.c.

use motorola_external_greybu.Prelude.{
  ℕ, Bool, true, false, not, Option, none, some, List, [], ◌∷◌, ◌==◌, if◌then◌else◌,
}
use motorola_external_greybu.Prelude.Errno.{failed, Errno, success, einval, enomem}

-- A bundle of the manifest with the CPorts of its connections; `registered` is whether `gb_bundle_add` has
-- succeeded, and `initialised` are the connections that `gb_connection_init` has.
pub record Bundle : Type 0 where
  pub id : ℕ
  pub connections : List ℕ
  pub registered : Bool
  pub initialised : List ℕ

-- `struct gb_interface`
pub record Interface : Type 0 where
  pub interface_id : ℕ
  pub device_id : ℕ
  pub bundles : List Bundle
  pub unipro_mfg_id : ℕ
  pub unipro_prod_id : ℕ
  pub vendor_id : ℕ
  pub product_id : ℕ
  pub boot_over_unipro : Bool
  pub disconnected : Bool

-- `GB_DEVICE_ID_BAD`
abbrev pub device_id_bad : ℕ
device_id_bad = 255

-- `gb_interface_find`
unfoldable pub interface_find : List Interface → ℕ → Option Interface
interface_find [] interface_id = none
interface_find (intf ∷ rest) interface_id =
    if intf.interface_id == interface_id then some intf else interface_find rest interface_id

-- `gb_interface_create`: the list with the new interface in front, or `none`. `alloc` and `control` are
-- the outcomes of the allocation and of `gb_control_create`.
unfoldable pub interface_create : Bool → Bool → List Interface → ℕ → Option (List Interface)
interface_create alloc control interfaces interface_id =
    if not alloc
    then none
    else if not control
    then none
    else some (
        record {
          interface_id = interface_id;
          device_id = device_id_bad;
          bundles = [];
          unipro_mfg_id = 0;
          unipro_prod_id = 0;
          vendor_id = 0;
          product_id = 0;
          boot_over_unipro = false;
          disconnected = false;
        }
        ∷ interfaces)

-- `gb_interface_remove` of the first interface with an id: it leaves the list, with its bundles.
unfoldable pub interface_remove : ℕ → List Interface → List Interface
interface_remove interface_id [] = []
interface_remove interface_id (intf ∷ rest) =
    if intf.interface_id == interface_id then rest else intf ∷ interface_remove interface_id rest

-- What `gb_control_get_manifest_size_operation` returns
pub data Size : Type 0 where
  size_failed : Errno → Size
  size_of : ℕ → Size

-- The answers that `gb_interface_init` gets. `manifest_parse` are the bundles that `gb_manifest_parse` makes,
-- or `none` if it fails; `bundle_add` and `connection_init` are the results for a bundle and a CPort.
pub record InitAnswers : Type 0 where
  pub control_enable : Errno
  pub manifest_size : Size
  pub manifest_alloc : Bool
  pub get_manifest : Errno
  pub manifest_parse : Option (List Bundle)
  pub device_add : Errno
  pub bundle_add : ℕ → Errno
  pub connection_init : ℕ → Errno

-- The loop over a bundle's connections, which ends at the first failure: the connections that are initialised,
-- and the last result.
unfoldable pub init_connections : (ℕ → Errno) → List ℕ → List ℕ × Errno
init_connections connection_init [] = ([], success)
init_connections connection_init (c ∷ cs) =
    let rest = init_connections connection_init cs in
    if failed (connection_init c) then ([], connection_init c) else (c ∷ rest.0, rest.1)

-- One round of the loop over the bundles: the bundle, or `none` if it is destroyed.
unfoldable pub init_bundle : InitAnswers → Bundle → Option Bundle
unfolding init_connections
init_bundle a b =
    let started = init_connections a.connection_init b.connections in
    if failed (a.bundle_add b.id)
    then none
    else if failed started.1
    then none
    else some (record b { registered = true; initialised = started.0 })

-- The loop, which goes through the list from its end.
unfoldable pub init_bundles : InitAnswers → List Bundle → List Bundle
unfolding init_bundle
init_bundles a [] = []
init_bundles a (b ∷ bs) =
    let rest = init_bundles a bs in elim (init_bundle a b) [ none ↦ rest | some b' ↦ b' ∷ rest ]

-- `gb_interface_init` once the manifest is there
unfoldable pub init_parsed : InitAnswers → Interface → Interface × Errno
unfolding init_bundles
init_parsed a intf = elim a.manifest_parse [
  | none ↦ (intf, einval)
  | some bundles ↦
      if failed a.device_add
      then (record intf { bundles = bundles }, a.device_add)
      else (record intf { bundles = init_bundles a bundles }, success)
]

-- `gb_interface_init` once the size of the manifest is known
unfoldable pub init_sized : InitAnswers → ℕ → Interface → Interface × Errno
unfolding init_parsed
init_sized a size intf =
    if size == 0
    then (intf, einval)
    else if not a.manifest_alloc
    then (intf, enomem)
    else if failed a.get_manifest
    then (intf, a.get_manifest)
    else init_parsed a intf

-- `gb_interface_init`
unfoldable pub interface_init : InitAnswers → ℕ → Interface → Interface × Errno
unfolding init_sized
interface_init a device_id intf0 =
    let intf = record intf0 { device_id = device_id } in
    if failed a.control_enable
    then (intf, a.control_enable)
    else elim a.manifest_size [ size_failed e ↦ (intf, e) | size_of size ↦ init_sized a size intf ]
