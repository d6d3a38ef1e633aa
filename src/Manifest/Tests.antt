-- ===== src/Manifest/Tests.antt =====
-- A manifest with one interface, two strings, a bundle and a CPort, and the theorems at it.
use motorola_external_greybu.Prelude.{
  ℕ, ◌≡◌, refl, Bool, true, false, Option, none, some, List, [], ◌∷◌, arith, get_or, ◌==◌,
  if◌then◌else◌,
}
use motorola_external_greybu.Connection.Tests.{ida, always, host}
use motorola_external_greybu.Connection.{create_dynamic, create_at, create_in, intf_find}
use motorola_external_greybu.Manifest.Defs.{
  Desc, Bundle, Intf, scan, done, identify, expected_size, release, release_ids, next_bundle,
}
use motorola_external_greybu.Manifest.Steps.{
  string_get, find_string, bytes, find_bundle, create_bundle, keep_desc, cports_loop, cports_end,
  parse_cports, bundle_round, bundles_loop, parse_bundles,
}
use motorola_external_greybu.Manifest.Main.{
  to_string, is_err, count_interfaces, first_interface, parse_interface, finish, parse_descs, parse,
}
use motorola_external_greybu.Manifest.Identify.{Scanned, scan-Scanned}
use motorola_external_greybu.Manifest.Parse.{Outcome, parse-Outcome}
use motorola_external_greybu.Manifest.Strings.{same_string-refused}

abbrev manifest : List ℕ
manifest =
    44 ∷ 0 ∷ 0 ∷ 1 ∷ 8 ∷ 0 ∷ 1 ∷ 0 ∷ 1 ∷ 2 ∷ 0 ∷ 0 ∷ 8 ∷ 0 ∷ 2 ∷ 0 ∷ 2 ∷ 1 ∷ 77 ∷ 111 ∷ 8 ∷ 0 ∷ 2
    ∷ 0 ∷ 2 ∷ 2 ∷ 90 ∷ 50 ∷ 8 ∷ 0 ∷ 3 ∷ 0 ∷ 1 ∷ 10 ∷ 0 ∷ 0 ∷ 8 ∷ 0 ∷ 4 ∷ 0 ∷ 5 ∷ 0 ∷ 1 ∷ 11 ∷ []

abbrev mem : ℕ → ℕ
mem a = get_or manifest a 0

abbrev intf : Intf
intf = record {
  number = 7;
  manifest_descs = [];
  vendor_string = none;
  product_string = none;
  bundles = [];
  hd = host;
}

scanned : Option (List Desc)
unfolding scan identify expected_size
scanned = elim (scan mem always 40 intf 4 40) [ done s ↦ some s.manifest_descs | _ ↦ none ]

parse-Outcome_example : Outcome host.connections 7 (parse mem always ida intf 44)
parse-Outcome_example = parse-Outcome mem always ida intf 44 refl refl (refl, tt)

abbrev after_scan : Intf
after_scan = record intf {
  manifest_descs =
      (record { size = 8; start = 8; type = 1 })
      ∷ (record { size = 8; start = 16; type = 2 })
      ∷ (record { size = 8; start = 24; type = 2 })
      ∷ (record { size = 8; start = 32; type = 3 })
      ∷ (record { size = 8; start = 40; type = 4 })
      ∷ [];
  hd = record host { next_alloc = 5 };
}

scan_runs : scan mem always 40 intf 4 40 ≡ done after_scan
unfolding scan identify expected_size
scan_runs = refl

scan-Scanned_example : Scanned mem intf 4 44 after_scan
scan-Scanned_example = scan-Scanned mem always 40 intf 4 40 scan_runs

-- The interface of the manifest with the product's string changed to that of the vendor.
abbrev same_mem : ℕ → ℕ
same_mem a = if a == 9 then 1 else mem a

abbrev intf_desc : Desc
intf_desc = record { size = 8; start = 8; type = 1 }

abbrev vendor_desc : Desc
vendor_desc = record { size = 8; start = 16; type = 2 }

same_string-refused_example :
    (s : Intf) × (parse_interface same_mem always ida after_scan intf_desc ≡ some (s, false))
unfolding find_string release
same_string-refused_example =
    same_string-refused same_mem always ida after_scan intf_desc vendor_desc (omega arith) refl refl
      refl

abbrev view : Option (Intf × Bool) → Option (List Bundle × Option (List ℕ) × List ℕ × Bool)
view none = none
view (some (s, result)) = some (s.bundles, s.vendor_string, s.hd.cport_id_map, result)

-- The whole manifest is accepted: one bundle, and a connection to its CPort.
parse_runs :
    view (parse mem always ida intf 44)
    ≡ some ((record { id = 1; class = 10 }) ∷ [], some (77 ∷ 111 ∷ 0 ∷ []), 1 ∷ 0 ∷ [], true)
unfolding parse scan identify expected_size parse_descs count_interfaces first_interface
    parse_interface string_get find_string bytes is_err to_string release parse_bundles bundles_loop
    next_bundle bundle_round create_bundle find_bundle parse_cports cports_loop cports_end
    create_dynamic create_at create_in intf_find ida finish release_ids keep_desc
parse_runs = refl
