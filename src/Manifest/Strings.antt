-- ===== src/Manifest/Strings.antt =====
-- An interface whose vendor and product are named by one string descriptor.
use motorola_external_greybu.Prelude.{
  ℕ, ◌+◌, ◌≡◌, ◌≢◌, ◌⊎◌, inl, inr, refl, Bool, true, false, Option, none, some, List, arith,
  Bool-cases,
}
use motorola_external_greybu.Manifest.Defs.{Desc, Intf, release}
use motorola_external_greybu.Manifest.Steps.{string_get, find_string}
use motorola_external_greybu.Manifest.Main.{to_string, is_err, parse_interface}

-- The outcome of `string_get` on an id that is not 0 and has a descriptor.
string_get-found :
    (mem : ℕ → ℕ) (alloc : ℕ → Bool) (s : Intf) (id : ℕ) (e : Desc)
    → id ≢ 0
    → find_string mem s.manifest_descs id ≡ some e
    → (is_err (string_get mem alloc s id).1 ≡ true)
      ⊎ ((is_err (string_get mem alloc s id).1 ≡ false)
          × ((string_get mem alloc s id).0.manifest_descs ≡ release e.start s.manifest_descs))
unfolding string_get is_err
string_get-found mem alloc s id e n f = elim (Bool-cases (alloc s.hd.next_alloc)) [
  | inl a ↦ rw (string_get, f, a) (ground arith)
  | inr a ↦ rw (string_get, f, a) (ground arith)
]

string_get-missing :
    (mem : ℕ → ℕ) (alloc : ℕ → Bool) (s : Intf) (id : ℕ)
    → id ≢ 0
    → find_string mem s.manifest_descs id ≡ none
    → is_err (string_get mem alloc s id).1 ≡ true
unfolding string_get is_err
string_get-missing mem alloc s id n f = ground arith

-- A manifest in which the vendor and the product have the same string, not 0, that one descriptor holds,
-- is refused whatever else it has: the descriptor is released when the vendor's string is taken.
pub same_string-refused :
    (mem : ℕ → ℕ) (alloc : ℕ → Bool) (ida_get : List ℕ → ℕ → ℕ → Option ℕ) (s : Intf) (d e : Desc)
    → mem d.start ≢ 0
    → mem (d.start + 1) ≡ mem d.start
    → find_string mem s.manifest_descs (mem d.start) ≡ some e
    → find_string mem (release e.start s.manifest_descs) (mem d.start) ≡ none
    → (s' : Intf) × (parse_interface mem alloc ida_get s d ≡ some (s', false))
unfolding parse_interface
same_string-refused mem alloc ida_get s d e n same f g =
    elim (string_get-found mem alloc s (mem d.start) e n f) [
      | inl x ↦ ((string_get mem alloc s (mem d.start)).0, rw x refl)
      | inr (x, l) ↦
          let s2 : Intf = record (string_get mem alloc s (mem d.start)).0 {
            vendor_string = to_string (string_get mem alloc s (mem d.start)).1;
          } in
          (
            record (string_get mem alloc s2 (mem (d.start + 1))).0 { vendor_string = none },
            rw (x, string_get-missing mem alloc s2 (mem (d.start + 1)) (rw same n) (rw (same, l) g))
                refl,
          )
    ]
