-- ===== src/Manifest/Parse.antt =====
-- What `gb_manifest_parse` promises: it ends, and it sets an interface up or leaves it as it was.
use motorola_external_greybu.Prelude.{
  ℕ, zero, suc, ◌+◌, ◌-◌, ◌≡◌, ◌≢◌, ◌⊎◌, inl, inr, refl, sym, ap, Bool, true, false, Option, none,
  some, List, [], ◌∷◌, arith, All, subst, Option-cases, Bool-cases, ◌∙◌, ◌==◌, ltb, length,
  if◌then◌else◌,
}
use motorola_external_greybu.Prelude.Errno.{Errno}
use motorola_external_greybu.Connection.{Connection, is_some_eq}
use motorola_external_greybu.Manifest.Defs.{
  Desc, Bundle, Intf, release, release_ids, le16, Scan, done, refused, stuck, scan, Identified,
  consumed, failed, identify, expected_size,
}
use motorola_external_greybu.Manifest.Steps.{string_get, find_string, parse_bundles}
use motorola_external_greybu.Manifest.Main.{
  to_string, is_err, count_interfaces, first_interface, parse_interface, finish, parse_descs, parse,
}
use motorola_external_greybu.Manifest.Identify.{scan-ne-stuck}
use motorola_external_greybu.Manifest.Cports.{foreign, HdInv, Owned, no-bundles}
use motorola_external_greybu.Manifest.Bundles.{Ended, parse_bundles-Ended}

-- Two states with the same bundles and connections.
abbrev pub Same : Intf → Intf → Type 0
Same s s' =
    (s'.number ≡ s.number) × (s'.bundles ≡ s.bundles) × (s'.hd.connections ≡ s.hd.connections)

string_get-Same :
    (mem : ℕ → ℕ) (alloc : ℕ → Bool) (s : Intf) (id : ℕ) → Same s (string_get mem alloc s id).0
unfolding string_get
string_get-Same mem alloc s id = elim (Bool-cases (id == 0)) [
  | inl z ↦ rw z (refl, refl, refl)
  | inr z ↦ elim (Option-cases (find_string mem s.manifest_descs id)) [
    | inl e ↦ rw (z, e) (refl, refl, refl)
    | inr (d, e) ↦ elim (Bool-cases (alloc s.hd.next_alloc)) [
      | inl a ↦ rw (z, e, a) (refl, refl, refl)
      | inr a ↦ rw (z, e, a) (refl, refl, refl)
    ]
  ]
]

-- A failed first pass adds descriptors at most.
ScanSame : Intf → Scan → Type 0
ScanSame s (done s') = Same s s'
ScanSame s (refused s') = Same s s'
ScanSame s stuck = Unit

identify-Same :
    (mem : ℕ → ℕ) (alloc : ℕ → Bool) (s : Intf) (a size : ℕ) {t : Intf}
    → ((n : ℕ) × (identify mem alloc s a size ≡ consumed t n))
      ⊎ ((e : Errno) × (identify mem alloc s a size ≡ failed t e))
    → Same s t
unfolding identify
identify-Same mem alloc s a size {t} h = elim (Option-cases (expected_size mem a)) [
  | inl e ↦ ground arith
  | inr (x, e) ↦ ground arith
]

scan-Same :
    (mem : ℕ → ℕ) (alloc : ℕ → Bool) (fuel : ℕ) (s : Intf) (a size : ℕ)
    → ScanSame s (scan mem alloc fuel s a size)
unfolding scan ScanSame
scan-Same mem alloc zero s a size = elim (Bool-cases (size == 0)) [
  | inl z ↦ rw (z, ScanSame, scan) (refl, refl, refl)
  | inr z ↦ rw (z, ScanSame, scan) tt
]
scan-Same mem alloc (suc fuel) s a size = elim (Bool-cases (size == 0)) [
  | inl z ↦ rw (z, ScanSame, scan) (refl, refl, refl)
  | inr z ↦
      rw (z, ScanSame, scan)
        (go (identify mem alloc s a size) refl (λ t b m. scan-Same mem alloc fuel t b m))
]
  where
    trans : (t : Intf) (o : Scan) → Same s t → ScanSame t o → ScanSame s o
    trans t (done u) h k = (k.0 ∙ h.0, k.1 ∙ h.1, k.2 ∙ h.2)
    trans t (refused u) h k = (k.0 ∙ h.0, k.1 ∙ h.1, k.2 ∙ h.2)
    trans t stuck h k = tt

    go :
        (o : Identified)
        → identify mem alloc s a size ≡ o
        → ((t : Intf) (b m : ℕ) → ScanSame t (scan mem alloc fuel t b m))
        → ScanSame s (elim o [
          | failed t e ↦ refused t
          | consumed t n ↦ scan mem alloc fuel t (a + n) (size - n)
        ])
    go (failed t e) k ih = identify-Same mem alloc s a size (inr (e, k))
    go (consumed t n) k ih =
        trans t (scan mem alloc fuel t (a + n) (size - n))
          (identify-Same mem alloc s a size (inl (n, k))) (ih t (a + n) (size - n))

-- The outcome of the parsing. Success leaves a bundle at least, and no connection of the interface outside
-- its bundles; failure leaves no bundle, and the connections that were there before. The connections of
-- other interfaces stay in both cases.
abbrev pub Outcome : List Connection → ℕ → Option (Intf × Bool) → Type 0
Outcome others n none = ⊥
Outcome others n (some (s, true)) = (s.bundles ≢ []) × HdInv n s.bundles others s.hd
Outcome others n (some (s, false)) = (s.bundles ≡ []) × (s.hd.connections ≡ others)

-- None of the connections is one of this interface.
abbrev pub NoneOf : ℕ → List Connection → Type 0
NoneOf n cs = All (λ c. is_some_eq c.intf n ≡ false) cs

-- The state before any bundle is made.
abbrev Clean : List Connection → ℕ → Intf → Type 0
Clean others n s = (s.number ≡ n) × (s.bundles ≡ []) × (s.hd.connections ≡ others) × NoneOf n others

Same-Clean :
    (others : List Connection) (n : ℕ) (s t : Intf) → Same s t → Clean others n s → Clean others n t
Same-Clean others n s t h c = (h.0 ∙ c.0, h.1 ∙ c.1, h.2 ∙ c.2, c.3)

NoneOf-foreign : (n : ℕ) (cs : List Connection) → NoneOf n cs → foreign n cs ≡ cs
unfolding foreign
NoneOf-foreign n [] a = refl
NoneOf-foreign n (c ∷ cs) a = rw (a.0, foreign) (ap (◌∷◌ c) (NoneOf-foreign n cs a.1))

NoneOf-Owned : (n : ℕ) (cs : List Connection) → NoneOf n cs → All (Owned n []) cs
NoneOf-Owned n [] a = tt
NoneOf-Owned n (c ∷ cs) a = ((λ i. cc (a.0)), NoneOf-Owned n cs a.1)

Clean-HdInv :
    (others : List Connection) (n : ℕ) (s : Intf) → Clean others n s → HdInv n s.bundles others s.hd
Clean-HdInv others n s (m, b, c, a) = record {
  others_kept = ap (foreign n) c ∙ NoneOf-foreign n others a;
  owned =
      subst (λ l. All (Owned n l) s.hd.connections) (sym b)
        (subst (All (Owned n [])) (sym c) (NoneOf-Owned n others a));
}

Ended-Outcome :
    (others : List Connection) (n : ℕ) (o : Option (Intf × ℕ))
    → Ended n others o
    → Outcome others n (elim o [
      | none ↦ none
      | some (s5, k) ↦
          if k == 0
          then some (record s5 { product_string = none; vendor_string = none }, false)
          else some (s5, true)
    ])
Ended-Outcome others n none h = h
Ended-Outcome others n (some (s, k)) (l, v) = elim (Bool-cases (k == 0)) [
  | inl z ↦
      let e : s.bundles ≡ [] = no_length s.bundles (ground arith) in
      rw z (e, no-bundles n others s.hd (subst (λ b. HdInv n b others s.hd) e v))
  | inr z ↦ rw z ((λ e. absurd (ground (arith, ap length e))), v)
]
  where
    no_length : (bs : List Bundle) → length bs ≡ 0 → bs ≡ []
    no_length [] e = refl
    no_length (b ∷ bs) e = absurd (omega arith)

module _ (mem : ℕ → ℕ) (alloc : ℕ → Bool) (ida_get : List ℕ → ℕ → ℕ → Option ℕ)
    (others : List Connection) (n : ℕ) where
  parse_interface-Outcome :
      (s : Intf) (d : Desc)
      → Clean others n s
      → Outcome others n (parse_interface mem alloc ida_get s d)
  unfolding parse_interface
  parse_interface-Outcome s d c =
      let (s1, v) = string_get mem alloc s (mem d.start) in
      let c1 : Clean others n s1 =
        Same-Clean others n s s1 (string_get-Same mem alloc s (mem d.start)) c in
      elim (Bool-cases (is_err v)) [
        | inl e ↦ rw e (c1.1, c1.2)
        | inr e ↦
            let s2 : Intf = record s1 { vendor_string = to_string v } in
            let (s3, p) = string_get mem alloc s2 (mem (d.start + 1)) in
            let c3 : Clean others n s3 =
              Same-Clean others n s2 s3 (string_get-Same mem alloc s2 (mem (d.start + 1))) c1 in
            elim (Bool-cases (is_err p)) [
              | inl f ↦ rw (e, f) (c3.1, c3.2)
              | inr f ↦
                  let s4 : Intf = record s3 {
                    product_string = to_string p;
                    manifest_descs = release d.start s3.manifest_descs;
                  } in
                  rw (e, f)
                    (Ended-Outcome others n (parse_bundles mem alloc ida_get s4) (
                      subst (λ k. Ended k others (parse_bundles mem alloc ida_get s4)) c3.0
                        (parse_bundles-Ended mem alloc ida_get others s4 c3.1 (
                          subst (λ k. HdInv k s4.bundles others s4.hd) (sym c3.0)
                            (Clean-HdInv others n s4 c3)))))
            ]
      ]

  -- `finish` keeps the outcome, and releases all descriptors.
  finish-Outcome :
      (s : Intf) (b : Bool) → Outcome others n (some (s, b)) → Outcome others n (finish s b)
  unfolding finish
  finish-Outcome s true h = h
  finish-Outcome s false h = h

  parse_descs-Outcome :
      (s : Intf) → Clean others n s → Outcome others n (parse_descs mem alloc ida_get s)
  unfolding parse_descs
  parse_descs-Outcome s c = elim (Bool-cases (count_interfaces s.manifest_descs == 1)) [
    | inr e ↦ rw e (finish-Outcome s false (c.1, c.2))
    | inl e ↦ elim (Option-cases (first_interface s.manifest_descs)) [
      | inl f ↦ rw (e, f) (finish-Outcome s false (c.1, c.2))
      | inr (d, f) ↦
          rw (e, f) (go (parse_interface mem alloc ida_get s d) (parse_interface-Outcome s d c))
    ]
  ]
    where
      go :
          (o : Option (Intf × Bool))
          → Outcome others n o
          → Outcome others n (elim o [
            | none ↦ none
            | some (t, result) ↦
                finish (record t { manifest_descs = release_ids t.manifest_descs }) result
          ])
      go none h = h
      go (some (t, true)) h =
          finish-Outcome (record t { manifest_descs = release_ids t.manifest_descs }) true h
      go (some (t, false)) h =
          finish-Outcome (record t { manifest_descs = release_ids t.manifest_descs }) false h

-- `gb_manifest_parse` on an interface that has no descriptors, bundles or connections yet, with every
-- size, content of the buffer and outcome of the allocations: the parsing ends. If it returns true, the
-- interface has a bundle at least, every connection of the interface belongs to one of its bundles, and
-- the connections of other interfaces are as they were. If it returns false, there is no bundle, and the
-- host device's connections are those from before.
pub parse-Outcome :
    (mem : ℕ → ℕ) (alloc : ℕ → Bool) (ida_get : List ℕ → ℕ → ℕ → Option ℕ) (s : Intf) (size : ℕ)
    → s.manifest_descs ≡ []
    → s.bundles ≡ []
    → NoneOf s.number s.hd.connections
    → Outcome s.hd.connections s.number (parse mem alloc ida_get s size)
unfolding parse ScanSame
parse-Outcome mem alloc ida_get s size d b a =
    rw (d, parse)
      (elim (Bool-cases (ltb size 4)) [
        | inl e ↦ rw e (b, refl)
        | inr e ↦ elim (Bool-cases (le16 mem 0 == size)) [
          | inr f ↦ rw (e, f) (b, refl)
          | inl f ↦ elim (Bool-cases (ltb 0 (mem 2))) [
            | inl g ↦ rw (e, f, g) (b, refl)
            | inr g ↦
                rw (e, f, g)
                  (go (scan mem alloc (size - 4) s 4 (size - 4))
                    (scan-Same mem alloc (size - 4) s 4 (size - 4))
                    (scan-ne-stuck mem alloc (size - 4) s 4 (size - 4) (omega arith)))
          ]
        ]
      ])
  where
    go :
        (o : Scan)
        → ScanSame s o
        → o ≢ stuck
        → Outcome s.hd.connections s.number (elim o [
          | stuck ↦ none
          | refused s' ↦ finish s' false
          | done s' ↦ parse_descs mem alloc ida_get s'
        ])
    go stuck h k = k refl
    go (refused s') h k =
        finish-Outcome mem alloc ida_get s.hd.connections s.number s' false (h.1 ∙ b, h.2)
    go (done s') h k =
        parse_descs-Outcome mem alloc ida_get s.hd.connections s.number s' (h.0, h.1 ∙ b, h.2, a)
