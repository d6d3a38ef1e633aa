-- ===== src/Manifest/Main.antt =====
-- `gb_manifest_parse_interface` and `gb_manifest_parse`.
use motorola_external_greybu.Prelude.{
  ℕ, ◌+◌, ◌-◌, Bool, true, false, Option, none, some, List, [], ◌∷◌, ltb, ◌==◌, not, if◌then◌else◌,
}
use motorola_external_greybu.Manifest.Defs.{
  Desc, Intf, done, refused, stuck, release, release_ids, version_major, type_interface, le16, scan,
}
use motorola_external_greybu.Manifest.Steps.{
  StringResult, no_string, string, string_error, string_get, parse_bundles,
}

-- The string that a result stands for; it is used only where the result is no error.
unfoldable pub to_string : StringResult → Option (List ℕ)
to_string no_string = none
to_string (string l) = some l
to_string (string_error e) = none

unfoldable pub is_err : StringResult → Bool
is_err no_string = false
is_err (string l) = false
is_err (string_error e) = true

-- The number of interface descriptors, and the first of them.
unfoldable pub count_interfaces : List Desc → ℕ
count_interfaces [] = 0
count_interfaces (d ∷ ds) =
    let rest = count_interfaces ds in if d.type == type_interface then rest + 1 else rest

unfoldable pub first_interface : List Desc → Option Desc
first_interface [] = none
first_interface (d ∷ ds) = if d.type == type_interface then some d else first_interface ds

-- The `out` label: all descriptors are released.
unfoldable pub finish : Intf → Bool → Option (Intf × Bool)
finish s result = some (record s { manifest_descs = [] }, result)

module _ (mem : ℕ → ℕ) (alloc : ℕ → Bool) (ida_get : List ℕ → ℕ → ℕ → Option ℕ) where
  -- `gb_manifest_parse_interface`; `none` only if a loop runs out of fuel.
  unfoldable pub parse_interface : Intf → Desc → Option (Intf × Bool)
  parse_interface s d =
      let (s1, vendor) = string_get mem alloc s (mem d.start) in
      if is_err vendor
      then some (s1, false)
      else let s2 = record s1 { vendor_string = to_string vendor } in
        let (s3, product) = string_get mem alloc s2 (mem (d.start + 1)) in
        if is_err product
        then some (record s3 { vendor_string = none }, false)
        else let s4 = record s3 {
          product_string = to_string product;
          manifest_descs = release d.start s3.manifest_descs;
        } in
          elim (parse_bundles mem alloc ida_get s4) [
            | none ↦ none
            | some (s5, n) ↦
                if n == 0
                then some (record s5 { product_string = none; vendor_string = none }, false)
                else some (s5, true)
          ]

  -- `gb_manifest_parse` once the descriptors are found
  unfoldable pub parse_descs : Intf → Option (Intf × Bool)
  parse_descs s =
      if not (count_interfaces s.manifest_descs == 1)
      then finish s false
      else elim (first_interface s.manifest_descs) [
        | none ↦ finish s false
        | some d ↦ elim (parse_interface s d) [
          | none ↦ none
          | some (s', result) ↦
              finish (record s' { manifest_descs = release_ids s'.manifest_descs }) result
        ]
      ]

  -- `gb_manifest_parse` of the `size` bytes at address 0
  unfoldable pub parse : Intf → ℕ → Option (Intf × Bool)
  parse s size = elim s.manifest_descs [
    | d ∷ ds ↦ some (s, false)
    | [] ↦
        if ltb size 4
        then some (s, false)
        else if not (le16 mem 0 == size)
        then some (s, false)
        else if ltb version_major (mem 2)
        then some (s, false)
        else elim (scan mem alloc (size - 4) s 4 (size - 4)) [
          | stuck ↦ none
          | refused s' ↦ finish s' false
          | done s' ↦ parse_descs s'
        ]
  ]
