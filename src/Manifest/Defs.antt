-- ===== src/Manifest/Defs.antt =====
-- The state of an interface while its manifest is parsed, and the functions of manifest.c on it.
use motorola_external_greybu.Prelude.{
  ℕ, zero, suc, ◌+◌, ◌-◌, ◌*◌, ◌/◌, Bool, true, false, Option, none, some, List, [], ◌∷◌, ◌++◌, ltb,
  ◌==◌, ◌&&◌, not, if◌then◌else◌,
}
use motorola_external_greybu.Prelude.Errno.{Errno, einval, enomem}
use motorola_external_greybu.Connection.{HostDevice}

-- `enum greybus_descriptor_type`
abbrev pub type_interface : ℕ
type_interface = 1

abbrev pub type_string : ℕ
type_string = 2

abbrev pub type_bundle : ℕ
type_bundle = 3

abbrev pub type_cport : ℕ
type_cport = 4

abbrev pub type_ids : ℕ
type_ids = 5

abbrev pub cport_id_max : ℕ
cport_id_max = 4095

abbrev pub control_bundle_id : ℕ
control_bundle_id = 0

abbrev pub class_control : ℕ
class_control = 0

abbrev pub version_major : ℕ
version_major = 0

-- `le16_to_cpu` of the two bytes at an address
abbrev pub le16 : (ℕ → ℕ) → ℕ → ℕ
le16 mem a = mem a + 256 * mem (a + 1)

-- `struct manifest_desc`; `start` is the address that its `data` points to.
pub record Desc : Type 0 where
  pub size : ℕ
  pub start : ℕ
  pub type : ℕ

-- `struct gb_bundle`, as far as the manifest determines it
pub record Bundle : Type 0 where
  pub id : ℕ
  pub class : ℕ

-- `struct gb_interface`, as far as manifest.c changes it, and the host device behind it. `number` stands for
-- the interface's address. A string is a list of bytes with its NUL.
pub record Intf : Type 0 where
  pub number : ℕ
  pub manifest_descs : List Desc
  pub vendor_string : Option (List ℕ)
  pub product_string : Option (List ℕ)
  pub bundles : List Bundle
  pub hd : HostDevice

-- What `identify_descriptor` returns: the bytes consumed, or an error.
pub data Identified : Type 0 where
  consumed : Intf → ℕ → Identified
  failed : Intf → Errno → Identified

-- The descriptors that are left when one is released; it is known by its address.
unfoldable pub release : ℕ → List Desc → List Desc
release a [] = []
release a (d ∷ ds) = if d.start == a then ds else d ∷ release a ds

-- `release_ids_descriptors`
unfoldable pub release_ids : List Desc → List Desc
release_ids [] = []
release_ids (d ∷ ds) = let rest = release_ids ds in if d.type == type_ids then rest else d ∷ rest

-- `get_next_bundle_desc`
unfoldable pub next_bundle : List Desc → Option Desc
next_bundle [] = none
next_bundle (d ∷ ds) = if d.type == type_bundle then some d else next_bundle ds

-- `ALIGN(n, 4)`
abbrev pub align_4 : ℕ → ℕ
align_4 n = (n + 3) / 4 * 4

module _ (mem : ℕ → ℕ) where
  -- `desc_cport->bundle`, `desc_cport->id` and `desc_cport->protocol_id`
  abbrev pub cport_bundle : Desc → ℕ
  cport_bundle d = mem (d.start + 2)

  abbrev pub cport_id : Desc → ℕ
  cport_id d = le16 mem d.start

  abbrev pub cport_protocol : Desc → ℕ
  cport_protocol d = mem (d.start + 3)

  -- `release_cport_descriptors`
  unfoldable pub release_cports : List Desc → ℕ → List Desc
  release_cports [] bundle_id = []
  release_cports (d ∷ ds) bundle_id =
      let rest = release_cports ds bundle_id in
      if (d.type == type_cport) && (cport_bundle d == bundle_id) then rest else d ∷ rest

  -- The size that the switch of `identify_descriptor` expects of a descriptor at `a`, or `none` for a type
  -- that is not valid.
  unfoldable pub expected_size : ℕ → Option ℕ
  expected_size a =
      let type = mem (a + 2) in
      if type == type_string
      then some (align_4 (4 + 2 + mem (a + 4)))
      else if type == type_interface
      then some (4 + 4)
      else if type == type_bundle
      then some (4 + 4)
      else if type == type_cport
      then some (4 + 4)
      else if type == type_ids
      then some (4 + 8)
      else none

-- How the loop of `gb_manifest_parse` over the descriptors ends. `stuck` is a loop that has not ended when
-- the fuel runs out.
pub data Scan : Type 0 where
  done : Intf → Scan
  refused : Intf → Scan
  stuck : Scan

module _ (mem : ℕ → ℕ) (alloc : ℕ → Bool) where
  -- The next allocation: its outcome, and the interface with the allocation counted.
  abbrev pub allocated : Intf → Bool
  allocated s = alloc s.hd.next_alloc

  abbrev pub count_alloc : Intf → Intf
  count_alloc s = record s { hd = record s.hd { next_alloc = s.hd.next_alloc + 1 } }

  -- `identify_descriptor` at address `a`, with `size` bytes left
  unfoldable pub identify : Intf → ℕ → ℕ → Identified
  identify s a size =
      if ltb size 4
      then failed s einval
      else if ltb size (le16 mem a)
      then failed s einval
      else elim (expected_size mem a) [
        | none ↦ failed s einval
        | some expected ↦
            if ltb (le16 mem a) expected
            then failed s einval
            else if not (allocated s)
            then failed (count_alloc s) enomem
            else let d : Desc = record { size = le16 mem a; start = a + 4; type = mem (a + 2) } in
              consumed (record (count_alloc s) { manifest_descs = s.manifest_descs ++ (d ∷ []) })
                (le16 mem a)
      ]

  unfoldable pub scan : ℕ → Intf → ℕ → ℕ → Scan
  scan zero s a size = if size == 0 then done s else stuck
  scan (suc fuel) s a size = elim (size == 0) [
    | true ↦ done s
    | false ↦ elim (identify s a size) [
      | failed s' e ↦ refused s'
      | consumed s' n ↦ scan fuel s' (a + n) (size - n)
    ]
  ]
