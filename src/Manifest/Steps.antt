-- ===== src/Manifest/Steps.antt =====
-- The functions of manifest.c that pick the descriptors up: strings, CPorts, bundles, the interface.
use motorola_external_greybu.Prelude.{
  ℕ, zero, suc, ◌+◌, Bool, true, false, Option, none, some, List, [], ◌∷◌, ◌++◌, ltb, ◌==◌, ◌&&◌,
  not, if◌then◌else◌, length,
}
use motorola_external_greybu.Prelude.Errno.{Errno, enomem, enoent}
use motorola_external_greybu.Connection.{
  Connection, HostDevice, create_dynamic, remove_id, is_some_eq,
}
use motorola_external_greybu.Manifest.Defs.{
  Desc, Bundle, Intf, release, next_bundle, release_cports, cport_bundle, cport_id, cport_protocol,
  cport_id_max, control_bundle_id, class_control, type_string, type_cport, allocated, count_alloc,
}

-- What `gb_string_get` returns: the null pointer, a string, or an error.
pub data StringResult : Type 0 where
  no_string : StringResult
  string : List ℕ → StringResult
  string_error : Errno → StringResult

-- The bytes of the memory from an address on.
unfoldable pub bytes : (ℕ → ℕ) → ℕ → ℕ → List ℕ
bytes mem zero a = []
bytes mem (suc n) a = mem a ∷ bytes mem n (a + 1)

-- The search of `gb_string_get` for a string descriptor
unfoldable pub find_string : (ℕ → ℕ) → List Desc → ℕ → Option Desc
find_string mem [] string_id = none
find_string mem (d ∷ ds) string_id =
    if (d.type == type_string) && (mem (d.start + 1) == string_id)
    then some d
    else find_string mem ds string_id

-- `gb_bundle_find`
unfoldable pub find_bundle : List Bundle → ℕ → Option Bundle
find_bundle [] bundle_id = none
find_bundle (b ∷ bs) bundle_id = if b.id == bundle_id then some b else find_bundle bs bundle_id

-- The connections left when those of a bundle are destroyed, and the ids that are still in use.
unfoldable pub drop_connections : ℕ → ℕ → List Connection → List Connection
drop_connections intf bundle [] = []
drop_connections intf bundle (c ∷ cs) =
    let rest = drop_connections intf bundle cs in
    if is_some_eq c.intf intf && is_some_eq c.bundle bundle then rest else c ∷ rest

unfoldable pub drop_ids : ℕ → ℕ → List Connection → List ℕ → List ℕ
drop_ids intf bundle [] ids = ids
drop_ids intf bundle (c ∷ cs) ids = drop_ids intf bundle cs (
    if is_some_eq c.intf intf && is_some_eq c.bundle bundle
    then remove_id c.hd_cport_id ids
    else ids)

unfoldable pub drop_bundle : ℕ → List Bundle → List Bundle
drop_bundle id [] = []
drop_bundle id (b ∷ bs) = if b.id == id then bs else b ∷ drop_bundle id bs

-- `gb_bundle_destroy`, and `gb_bundle_release` when it drops the last reference. No connection is enabled
-- yet, so `gb_connection_exit` returns at once and `gb_connection_destroy` takes each one off the lists.
unfoldable pub destroy_bundle : Intf → ℕ → Intf
destroy_bundle s id = record s {
  bundles = drop_bundle id s.bundles;
  hd = record s.hd {
    connections = drop_connections s.number id s.hd.connections;
    cport_id_map = drop_ids s.number id s.hd.connections s.hd.cport_id_map;
  };
}

-- The `cleanup` of `gb_manifest_parse_bundles`: it goes over the interface's bundles.
unfoldable pub destroy_all : Intf → List Bundle → Intf
destroy_all s [] = s
destroy_all s (b ∷ bs) = destroy_all (destroy_bundle s b.id) bs

-- The result of the loop of `gb_manifest_parse_cports`: the host device, the descriptors that are left,
-- and the count, or `none` if it jumped to `exit`.
pub record Cports : Type 0 where
  pub hd : HostDevice
  pub descs : List Desc
  pub count : Option ℕ

unfoldable pub keep_desc : Desc → Cports → Cports
keep_desc d r = record r { descs = d ∷ r.descs }

module _ (mem : ℕ → ℕ) (alloc : ℕ → Bool) where
  -- `gb_string_get`. `kmemdup` copies one byte more than the string, which the NUL then replaces.
  unfoldable pub string_get : Intf → ℕ → Intf × StringResult
  string_get s string_id =
      if string_id == 0 then (s, no_string) else elim (find_string mem s.manifest_descs string_id) [
        | none ↦ (s, string_error enoent)
        | some d ↦
            if not (allocated mem alloc s)
            then (count_alloc mem alloc s, string_error enomem)
            else (
              record (count_alloc mem alloc s) {
                manifest_descs = release d.start s.manifest_descs;
              },
              string (bytes mem (mem d.start) (d.start + 2) ++ (0 ∷ [])),
            )
      ]

  -- `gb_bundle_create`: the new bundle stands at the head of the list.
  unfoldable pub create_bundle : Intf → ℕ → ℕ → Intf × Bool
  create_bundle s bundle_id class = elim (find_bundle s.bundles bundle_id) [
    | some b ↦ (s, false)
    | none ↦ if not (allocated mem alloc s) then (count_alloc mem alloc s, false) else (
      record (count_alloc mem alloc s) {
        bundles = (record { id = bundle_id; class = class }) ∷ s.bundles;
      },
      true,
    )
  ]

module _ (mem : ℕ → ℕ) (alloc : ℕ → Bool) (ida_get : List ℕ → ℕ → ℕ → Option ℕ) where
  -- The loop of `gb_manifest_parse_cports`; a descriptor that it picks up is released.
  unfoldable pub cports_loop : ℕ → ℕ → List Desc → HostDevice → ℕ → Cports
  cports_loop intf bundle_id [] hd count = record { hd = hd; descs = []; count = some count }
  cports_loop intf bundle_id (d ∷ ds) hd count =
      elim ((d.type == type_cport) && (cport_bundle mem d == bundle_id)) [
        | false ↦ keep_desc d (cports_loop intf bundle_id ds hd count)
        | true ↦ elim (ltb cport_id_max (cport_id mem d)) [
          | true ↦ record { hd = hd; descs = d ∷ ds; count = none }
          | false ↦
              let made =
                create_dynamic alloc ida_get hd intf bundle_id (cport_id mem d)
                  (cport_protocol mem d) in
              elim made.1 [
                | none ↦ record { hd = made.0; descs = d ∷ ds; count = none }
                | some c ↦ cports_loop intf bundle_id ds made.0 (count + 1)
              ]
        ]
      ]

  -- What follows the loop: on the jump to `exit` the bundle's other CPort descriptors go too.
  unfoldable pub cports_end : Intf → ℕ → Cports → Intf × ℕ
  cports_end s bundle_id r = elim r.count [
    | some n ↦ (record s { manifest_descs = r.descs; hd = r.hd }, n)
    | none ↦ (record s { manifest_descs = release_cports mem r.descs bundle_id; hd = r.hd }, 0)
  ]

  -- `gb_manifest_parse_cports` for the bundle with this id
  unfoldable pub parse_cports : Intf → ℕ → Intf × ℕ
  parse_cports s bundle_id =
      cports_end s bundle_id (cports_loop s.number bundle_id s.manifest_descs s.hd 0)

  -- One round of the loop of `gb_manifest_parse_bundles`: the interface and the new count, or `none` for
  -- the jump to `cleanup`.
  unfoldable pub bundle_round : Intf → Desc → ℕ → Intf × Option ℕ
  bundle_round s0 d count =
      let s = record s0 { manifest_descs = release d.start s0.manifest_descs } in
      let bundle_id = mem d.start in
      let class = mem (d.start + 1) in
      if bundle_id == control_bundle_id
      then (record s { manifest_descs = release_cports mem s.manifest_descs bundle_id }, some count)
      else if class == class_control
      then (s, none)
      else let (s', made) = create_bundle mem alloc s bundle_id class in
        if not made
        then (s', none)
        else let (s'', n) = parse_cports s' bundle_id in
          if n == 0 then (destroy_bundle s'' bundle_id, some count) else (s'', some (count + 1))

  -- The loop of `gb_manifest_parse_bundles`. Each round releases a descriptor, so their number is fuel
  -- enough; without fuel the result is `none`.
  unfoldable pub bundles_loop : ℕ → Intf → ℕ → Option (Intf × ℕ)
  bundles_loop zero s count = elim (next_bundle s.manifest_descs) [
    | none ↦ some (s, count)
    | some d ↦ none
  ]
  bundles_loop (suc fuel) s count = elim (next_bundle s.manifest_descs) [
    | none ↦ some (s, count)
    | some d ↦ elim (bundle_round s d count).1 [
      | some n ↦ bundles_loop fuel (bundle_round s d count).0 n
      | none ↦ some (destroy_all (bundle_round s d count).0 (bundle_round s d count).0.bundles, 0)
    ]
  ]

  -- `gb_manifest_parse_bundles`
  unfoldable pub parse_bundles : Intf → Option (Intf × ℕ)
  parse_bundles s = bundles_loop (length s.manifest_descs) s 0
