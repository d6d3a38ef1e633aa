-- ===== src/Manifest/Identify.antt =====
-- The first pass over a manifest: it ends, and the descriptors that it finds lie within the buffer.
use motorola_external_greybu.Prelude.{
  ℕ, zero, suc, ◌+◌, ◌-◌, ◌≤◌, ◌≡◌, ◌≢◌, ◌⊎◌, inl, inr, refl, sym, ap, Bool, some, List, [], ◌∷◌,
  ◌++◌, arith, Option-cases, Bool-cases, ◌∙◌, ◌==◌,
}
use mathlib.Core.List.{append_assoc, append-nil}
use motorola_external_greybu.Manifest.Defs.{
  Desc, Intf, Identified, consumed, failed, identify, expected_size, count_alloc, Scan, done,
  refused, stuck, scan,
}

-- The descriptor holds at least its header and the fields that its type has; for a string descriptor these
-- include the characters.
abbrev pub HoldsFields : (ℕ → ℕ) → Desc → Type 0
HoldsFields mem d =
    ((d.type ≡ 2) × (6 + mem d.start ≤ d.size))
    ⊎ ((((d.type ≡ 1) ⊎ ((d.type ≡ 3) ⊎ (d.type ≡ 4))) × (8 ≤ d.size))
        ⊎ ((d.type ≡ 5) × (12 ≤ d.size)))

expected-HoldsFields :
    (mem : ℕ → ℕ) (a e n : ℕ)
    → expected_size mem a ≡ some e
    → e ≤ n
    → HoldsFields mem (record { size = n; start = a + 4; type = mem (a + 2) })
unfolding expected_size
expected-HoldsFields mem a e n h k = ground arith

expected-pos : (mem : ℕ → ℕ) (a e : ℕ) → expected_size mem a ≡ some e → 4 ≤ e
unfolding expected_size
expected-pos mem a e h = ground arith

-- What `identify` does when it accepts a descriptor.
identify-consumed :
    (mem : ℕ → ℕ) (alloc : ℕ → Bool) (s : Intf) (a size : ℕ) {s' : Intf} {n : ℕ}
    → identify mem alloc s a size ≡ consumed s' n
    → (e : ℕ) × (expected_size mem a ≡ some e)
      × (e ≤ n)
      × (n ≤ size)
      × (s' ≡ record (count_alloc mem alloc s) {
        manifest_descs =
            s.manifest_descs ++ ((record { size = n; start = a + 4; type = mem (a + 2) }) ∷ []);
      })
unfolding identify
identify-consumed mem alloc s a size {s'} {n} h = elim (Option-cases (expected_size mem a)) [
  | inl e ↦ absurd (ground arith)
  | inr (e, k) ↦ (e, k, ground arith, ground arith, ground arith)
]

-- The descriptors lie one behind the other from `a` on, end exactly at `end`, and each holds its fields.
abbrev pub Tiles : (ℕ → ℕ) → ℕ → List Desc → ℕ → Type 0
Tiles mem a [] end = a ≡ end
Tiles mem a (d ∷ ds) end =
    (d.start ≡ a + 4) × (4 ≤ d.size) × HoldsFields mem d × Tiles mem (a + d.size) ds end

-- How a pass that ends with success has changed the interface: it only adds the descriptors at the end.
abbrev pub Scanned : (ℕ → ℕ) → Intf → ℕ → ℕ → Intf → Type 0
Scanned mem s a end s' =
    (new : List Desc) × (s'.manifest_descs ≡ s.manifest_descs ++ new)
    × Tiles mem a new end
    × (s'.bundles ≡ s.bundles)
    × (s'.hd.connections ≡ s.hd.connections)
    × (s'.hd.cport_id_map ≡ s.hd.cport_id_map)

Scanned-cons :
    (mem : ℕ → ℕ) (s t s' : Intf) (a end : ℕ) (d : Desc)
    → t.manifest_descs ≡ s.manifest_descs ++ (d ∷ [])
    → t.bundles ≡ s.bundles
    → t.hd.connections ≡ s.hd.connections
    → t.hd.cport_id_map ≡ s.hd.cport_id_map
    → d.start ≡ a + 4
    → 4 ≤ d.size
    → HoldsFields mem d
    → Scanned mem t (a + d.size) end s'
    → Scanned mem s a end s'
Scanned-cons mem s t s' a end d e b c i st sz f (new, e', ti, b', c', i') = (
  d ∷ new,
  e' ∙ ap (λ l. l ++ new) e ∙ append_assoc s.manifest_descs (d ∷ []) new,
  (st, sz, f, ti),
  b' ∙ b,
  c' ∙ c,
  i' ∙ i,
)

-- One round of the loop, once the case of an empty rest is gone.
abbrev Round : (ℕ → ℕ) → (ℕ → Bool) → ℕ → ℕ → ℕ → Identified → Scan
Round mem alloc fuel a size (failed t e) = refused t
Round mem alloc fuel a size (consumed t n) = scan mem alloc fuel t (a + n) (size - n)

scan-suc :
    (mem : ℕ → ℕ) (alloc : ℕ → Bool) (fuel : ℕ) (s : Intf) (a size : ℕ)
    → size ≢ 0
    → scan mem alloc (suc fuel) s a size ≡ Round mem alloc fuel a size (identify mem alloc s a size)
unfolding scan
scan-suc mem alloc fuel s a size h = ground arith

Round-Scanned :
    (mem : ℕ → ℕ) (alloc : ℕ → Bool) (fuel : ℕ) (s : Intf) (a size : ℕ) (o : Identified) {s' : Intf}
    → identify mem alloc s a size ≡ o
    → Round mem alloc fuel a size o ≡ done s'
    → ((t : Intf) (n : ℕ)
        → scan mem alloc fuel t (a + n) (size - n) ≡ done s'
        → Scanned mem t (a + n) (a + n + (size - n)) s')
    → Scanned mem s a (a + size) s'
Round-Scanned mem alloc fuel s a size (failed t e) k h ih = absurd (cc)
Round-Scanned mem alloc fuel s a size (consumed t n) {s'} k h ih =
    let (e, ex, le, fit, same) = identify-consumed mem alloc s a size k in
    let ends : a + n + (size - n) ≡ a + size = omega arith in
    Scanned-cons mem s t s' a (a + size) (record { size = n; start = a + 4; type = mem (a + 2) })
      (rw same) (rw same) (rw same) (rw same) refl (omega (arith, expected-pos mem a e ex))
      (expected-HoldsFields mem a e n ex le) (rw ends at (ih t n h))

scan-zero :
    (mem : ℕ → ℕ) (alloc : ℕ → Bool) (fuel : ℕ) (s : Intf) (a : ℕ)
    → scan mem alloc fuel s a 0 ≡ done s
unfolding scan
scan-zero mem alloc zero s a = refl
scan-zero mem alloc (suc fuel) s a = refl

scan-done :
    (mem : ℕ → ℕ) (alloc : ℕ → Bool) (fuel : ℕ) (s : Intf) (a size : ℕ) {s' : Intf}
    → size ≡ 0
    → scan mem alloc fuel s a size ≡ done s'
    → Scanned mem s a (a + size) s'
scan-done mem alloc fuel s a size {s'} z h =
    let same : s ≡ s' = ground (arith, scan-zero mem alloc fuel s a) in
    rw (← same) ([], sym (append-nil s.manifest_descs), omega arith, refl, refl, refl)

-- If the first pass over `size` bytes from address `a` on succeeds, then it has added descriptors that lie
-- one behind the other and fill exactly these bytes; each holds at least the fields of its type, and a
-- string descriptor all its characters. Bundles, connections and CPort ids are untouched.
pub scan-Scanned :
    (mem : ℕ → ℕ) (alloc : ℕ → Bool) (fuel : ℕ) (s : Intf) (a size : ℕ) {s' : Intf}
    → scan mem alloc fuel s a size ≡ done s'
    → Scanned mem s a (a + size) s'
scan-Scanned mem alloc zero s a size h = elim (Bool-cases (size == 0)) [
  | inl z ↦ scan-done mem alloc 0 s a size (ground arith) h
  | inr z ↦ absurd (unfold scan in ground arith)
]
scan-Scanned mem alloc (suc fuel) s a size {s'} h = elim (Bool-cases (size == 0)) [
  | inl z ↦ scan-done mem alloc (suc fuel) s a size (ground arith) h
  | inr z ↦
      Round-Scanned mem alloc fuel s a size (identify mem alloc s a size) {s' = s'} refl
        (rw (scan-suc mem alloc fuel s a size (ground arith)) at h)
        (λ t n k. scan-Scanned mem alloc fuel t (a + n) (size - n) k)
]

-- The first pass ends within as many rounds as there are bytes.
pub scan-ne-stuck :
    (mem : ℕ → ℕ) (alloc : ℕ → Bool) (fuel : ℕ) (s : Intf) (a size : ℕ)
    → size ≤ fuel
    → scan mem alloc fuel s a size ≢ stuck
scan-ne-stuck mem alloc zero s a size b h = absurd (unfold scan in ground arith)
scan-ne-stuck mem alloc (suc fuel) s a size b h = elim (Bool-cases (size == 0)) [
  | inl z ↦ absurd (unfold scan in ground arith)
  | inr z ↦
      round-ne-stuck (identify mem alloc s a size) refl
        (rw (scan-suc mem alloc fuel s a size (ground arith)) at h)
        (λ t n k. scan-ne-stuck mem alloc fuel t (a + n) (size - n) k)
]
  where
    round-ne-stuck :
        (o : Identified)
        → identify mem alloc s a size ≡ o
        → Round mem alloc fuel a size o ≡ stuck
        → ((t : Intf) (n : ℕ) → size - n ≤ fuel → scan mem alloc fuel t (a + n) (size - n) ≢ stuck)
        → ⊥
    round-ne-stuck (failed t e) k h ih = cc
    round-ne-stuck (consumed t n) k h ih =
        let (e, ex, le, fit, same) = identify-consumed mem alloc s a size k in
        ih t n (omega (arith, expected-pos mem a e ex)) h
