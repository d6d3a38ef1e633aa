-- ===== src/Manifest/Bundles.antt =====
-- The loop over the bundle descriptors: it ends, and it leaves the bundles that it counts.
use motorola_external_greybu.Prelude.{
  ℕ, zero, suc, ◌+◌, ◌≤◌, ◌≡◌, inl, inr, refl, sym, ap, Bool, true, false, not, Option, none, some,
  List, [], ◌∷◌, arith, All, subst, Option-cases, Bool-cases, ◌∙◌, ◌==◌, length, if◌then◌else◌,
}
use motorola_external_greybu.Connection.{Connection, HostDevice}
use motorola_external_greybu.Manifest.Defs.{Desc, Bundle, Intf, release, next_bundle}
use motorola_external_greybu.Manifest.Steps.{
  create_bundle, parse_cports, find_bundle, drop_bundle, destroy_bundle, destroy_all, bundle_round,
  bundles_loop, parse_bundles,
}
use motorola_external_greybu.Manifest.Cports.{
  foreign, HdInv, HasBundle, Owned, parse_cports-Kept, destroy_bundle-HdInv, length-release_cports,
}

-- The state between two rounds: as many bundles as counted, and no connection of this interface without
-- its bundle. `bound` is the number of descriptors left, at most.
pub record Inv (n : ℕ) (others : List Connection) (bound : ℕ) (s : Intf) (count : ℕ) : Type 0 where
  pub counted : length s.bundles ≡ count
  pub number : s.number ≡ n
  pub inv : HdInv n s.bundles others s.hd
  pub left : length s.manifest_descs ≤ bound

length-release-next :
    (ds : List Desc) {d : Desc}
    → next_bundle ds ≡ some d
    → suc (length (release d.start ds)) ≤ length ds
unfolding next_bundle release
length-release-next [] h = absurd (ground arith)
length-release-next (x ∷ ds) {d} h = elim (Bool-cases (x.type == 3)) [
  | inl e ↦ let same : x ≡ d = ground arith in rw (← same) (ground arith)
  | inr e ↦ elim (Bool-cases (x.start == d.start)) [
    | inl f ↦ rw (release, f) (omega arith)
    | inr f ↦ rw (release, f) (omega (arith, length-release-next ds (rw (e, next_bundle) at h)))
  ]
]

-- A new bundle stands at the head of the list; a refusal leaves the bundles alone.
MadeBundle : ℕ → ℕ → Intf → Intf × Bool → Type 0
MadeBundle n id s (s', false) =
    (s'.bundles ≡ s.bundles) × (s'.number ≡ n) × (s'.hd.connections ≡ s.hd.connections)
MadeBundle n id s (s', true) =
    (b : Bundle) × (s'.bundles ≡ b ∷ s.bundles)
    × (b.id ≡ id)
    × (s'.number ≡ n)
    × (s'.hd.connections ≡ s.hd.connections)
    × (s'.manifest_descs ≡ s.manifest_descs)

create_bundle-MadeBundle :
    (mem : ℕ → ℕ) (alloc : ℕ → Bool) (n : ℕ) (s : Intf) (id class : ℕ)
    → s.number ≡ n
    → MadeBundle n id s (create_bundle mem alloc s id class)
unfolding create_bundle MadeBundle
create_bundle-MadeBundle mem alloc n s id class e = elim (Option-cases (find_bundle s.bundles id)) [
  | inr (b, f) ↦ rw (f, create_bundle) (refl, e, refl)
  | inl f ↦ elim (Bool-cases (alloc s.hd.next_alloc)) [
    | inr a ↦ rw (f, create_bundle, a) (refl, e, refl)
    | inl a ↦
        rw (f, create_bundle, a) (record { id = id; class = class }, refl, refl, e, refl, refl)
  ]
]

HasBundle-cons :
    (b : Bundle) (bs : List Bundle) (o : Option ℕ) → HasBundle bs o → HasBundle (b ∷ bs) o
HasBundle-cons b bs none h = h
HasBundle-cons b bs (some i) h = unfold find_bundle in ground arith

HasBundle-head : (b : Bundle) (bs : List Bundle) (id : ℕ) → b.id ≡ id → HasBundle (b ∷ bs) (some id)
unfolding find_bundle
HasBundle-head b bs id e = ground arith

Owned-cons :
    (n : ℕ) (b : Bundle) (bs : List Bundle) (cs : List Connection)
    → All (Owned n bs) cs
    → All (Owned n (b ∷ bs)) cs
Owned-cons n b bs [] a = tt
Owned-cons n b bs (c ∷ cs) a =
    ((λ i. HasBundle-cons b bs c.bundle (a.0 i)), Owned-cons n b bs cs a.1)

HdInv-cons :
    (n : ℕ) (b : Bundle) (bs : List Bundle) (others : List Connection) (hd hd' : HostDevice)
    → hd'.connections ≡ hd.connections
    → HdInv n bs others hd
    → HdInv n (b ∷ bs) others hd'
HdInv-cons n b bs others hd hd' e v = record {
  others_kept = ap (foreign n) e ∙ v.others_kept;
  owned = subst (All (Owned n (b ∷ bs))) (sym e) (Owned-cons n b bs hd.connections v.owned);
}

HdInv-same :
    (n : ℕ) (bs bs' : List Bundle) (others : List Connection) (hd hd' : HostDevice)
    → bs' ≡ bs
    → hd'.connections ≡ hd.connections
    → HdInv n bs others hd
    → HdInv n bs' others hd'
HdInv-same n bs bs' others hd hd' b e v = record {
  others_kept = ap (foreign n) e ∙ v.others_kept;
  owned =
      subst (λ l. All (Owned n l) hd'.connections) (sym b)
        (subst (All (Owned n bs)) (sym e) v.owned);
}

-- What a round leaves: the invariant with one descriptor less, or on the jump to `cleanup` what the
-- destruction of all bundles needs.
abbrev RoundLeft : ℕ → List Connection → ℕ → Intf × Option ℕ → Type 0
RoundLeft n others k (s, some count) = Inv n others k s count
RoundLeft n others k (s, none) = (s.number ≡ n) × HdInv n s.bundles others s.hd

-- After the CPorts of a new bundle are set up: the bundle stays if there are any, and goes otherwise.
settle : Intf → ℕ → ℕ → ℕ → Intf × Option ℕ
settle s bundle_id n count =
    if n == 0 then (destroy_bundle s bundle_id, some count) else (s, some (count + 1))

settle-RoundLeft :
    (n : ℕ) (others : List Connection) (k id found count : ℕ) (b : Bundle) (bs : List Bundle)
    (s : Intf)
    → b.id ≡ id
    → length bs ≡ count
    → s.bundles ≡ b ∷ bs
    → s.number ≡ n
    → HdInv n s.bundles others s.hd
    → length s.manifest_descs ≤ k
    → RoundLeft n others k (settle s id found count)
unfolding settle
settle-RoundLeft n others k id found count b bs s i l e m v d = elim (Bool-cases (found == 0)) [
  | inr f ↦ rw f (record { counted = omega (arith, ap length e); number = m; inv = v; left = d })
  | inl f ↦ rw f (record {
    counted = unfold destroy_bundle drop_bundle in rw e (ground arith);
    number = unfold destroy_bundle in m;
    inv = destroy_bundle-HdInv n others s id m v;
    left = unfold destroy_bundle in d;
  })
]

-- How the loop ends: with as many bundles as it counted, and no connection outside them.
abbrev pub Ended : ℕ → List Connection → Option (Intf × ℕ) → Type 0
Ended n others none = ⊥
Ended n others (some (s, count)) = (length s.bundles ≡ count) × HdInv n s.bundles others s.hd

module _ (mem : ℕ → ℕ) (alloc : ℕ → Bool) (ida_get : List ℕ → ℕ → ℕ → Option ℕ) (n : ℕ)
    (others : List Connection) where
  -- The part of a round behind the creation of the bundle.
  new_bundle : ℕ → ℕ → Intf × Bool → Intf × Option ℕ
  new_bundle id count (s, made) =
      if not made
      then (s, none)
      else (settle (parse_cports mem alloc ida_get s id).0 id
          (parse_cports mem alloc ida_get s id).1 count)

  new_bundle-RoundLeft :
      (k id count : ℕ) (s : Intf) (r : Intf × Bool)
      → length s.bundles ≡ count
      → length s.manifest_descs ≤ k
      → HdInv n s.bundles others s.hd
      → MadeBundle n id s r
      → RoundLeft n others k (new_bundle id count r)
  unfolding new_bundle MadeBundle
  new_bundle-RoundLeft k id count s (s', false) l d v (b, m, c) =
      (m, HdInv-same n s.bundles s'.bundles others s.hd s'.hd b c v)
  new_bundle-RoundLeft k id count s (s', true) l d v (b, e, i, m, c, ds) =
      let v' : HdInv n s'.bundles others s'.hd =
        subst (λ l. HdInv n l others s'.hd) (sym e)
          (HdInv-cons n b s.bundles others s.hd s'.hd c v) in
      let kept =
        parse_cports-Kept mem alloc ida_get n others s' id
          (subst (λ l. HasBundle l (some id)) (sym e) (HasBundle-head b s.bundles id i)) m v' in
      settle-RoundLeft n others k id (parse_cports mem alloc ida_get s' id).1 count b s.bundles
        (parse_cports mem alloc ida_get s' id).0 i l (kept.bundles ∙ e) kept.number
        (subst (λ l. HdInv n l others (parse_cports mem alloc ida_get s' id).0.hd)
          (sym kept.bundles) kept.inv)
        (omega (arith, kept.shorter, ap length ds))

  bundle_round-RoundLeft :
      (k count : ℕ) (s : Intf) (d : Desc)
      → next_bundle s.manifest_descs ≡ some d
      → Inv n others (suc k) s count
      → RoundLeft n others k (bundle_round mem alloc ida_get s d count)
  unfolding bundle_round
  bundle_round-RoundLeft k count s d e v =
      let s1 : Intf = record s { manifest_descs = release d.start s.manifest_descs } in
      let short : length s1.manifest_descs ≤ k =
        omega (arith, length-release-next s.manifest_descs e, v.left) in
      elim (Bool-cases (mem d.start == 0)) [
        | inl z ↦ rw z (record {
          counted = v.counted;
          number = v.number;
          inv = v.inv;
          left = omega (arith, length-release_cports mem s1.manifest_descs (mem d.start), short);
        })
        | inr z ↦ elim (Bool-cases (mem (d.start + 1) == 0)) [
          | inl c ↦ rw (z, c) (v.number, v.inv)
          | inr c ↦
              rw (z, c)
                (unfold new_bundle settle in
                  new_bundle-RoundLeft k (mem d.start) count s1
                    (create_bundle mem alloc s1 (mem d.start) (mem (d.start + 1))) v.counted short
                    v.inv
                    (create_bundle-MadeBundle mem alloc n s1 (mem d.start) (mem (d.start + 1))
                      v.number))
        ]
      ]

  destroy_all-lem :
      (bs : List Bundle) (s : Intf)
      → s.bundles ≡ bs
      → s.number ≡ n
      → HdInv n s.bundles others s.hd
      → ((destroy_all s bs).bundles ≡ []) × HdInv n [] others (destroy_all s bs).hd
  unfolding destroy_all
  destroy_all-lem [] s e m v = (e, subst (λ l. HdInv n l others s.hd) e v)
  destroy_all-lem (b ∷ bs) s e m v =
      destroy_all-lem bs (destroy_bundle s b.id)
        (unfold destroy_bundle drop_bundle in rw e (ground arith)) (unfold destroy_bundle in m)
        (destroy_bundle-HdInv n others s b.id m v)

  bundles_loop-Ended :
      (fuel : ℕ) (s : Intf) (count : ℕ)
      → Inv n others fuel s count
      → Ended n others (bundles_loop mem alloc ida_get fuel s count)
  unfolding bundles_loop
  bundles_loop-Ended zero s count v = elim (Option-cases (next_bundle s.manifest_descs)) [
    | inl e ↦ rw (e, Ended, bundles_loop) (v.counted, v.inv)
    | inr (d, e) ↦ absurd (omega (arith, length-release-next s.manifest_descs e, v.left))
  ]
  bundles_loop-Ended (suc fuel) s count v = elim (Option-cases (next_bundle s.manifest_descs)) [
    | inl e ↦ rw (e, Ended, bundles_loop) (v.counted, v.inv)
    | inr (d, e) ↦
        rw (e, Ended, bundles_loop)
          (go (bundle_round mem alloc ida_get s d count) (bundle_round-RoundLeft fuel count s d e v)
            (λ t k. bundles_loop-Ended fuel t k))
  ]
    where
      go :
          (r : Intf × Option ℕ)
          → RoundLeft n others fuel r
          → ((t : Intf) (k : ℕ)
              → Inv n others fuel t k
              → Ended n others (bundles_loop mem alloc ida_get fuel t k))
          → Ended n others (elim r.1 [
            | some k ↦ bundles_loop mem alloc ida_get fuel r.0 k
            | none ↦ some (destroy_all r.0 r.0.bundles, 0)
          ])
      go (t, some k) v ih = ih t k v
      go (t, none) (m, v) ih =
          let (b, h) = destroy_all-lem t.bundles t refl m v in
          (ap length b, subst (λ l. HdInv n l others (destroy_all t t.bundles).hd) (sym b) h)

-- What `parse_bundles` leaves when it starts with no bundle and no connection of this interface.
pub parse_bundles-Ended :
    (mem : ℕ → ℕ) (alloc : ℕ → Bool) (ida_get : List ℕ → ℕ → ℕ → Option ℕ)
    (others : List Connection) (s : Intf)
    → s.bundles ≡ []
    → HdInv s.number s.bundles others s.hd
    → Ended s.number others (parse_bundles mem alloc ida_get s)
unfolding parse_bundles
parse_bundles-Ended mem alloc ida_get others s e v =
    bundles_loop-Ended mem alloc ida_get s.number others (length s.manifest_descs) s 0
      (record { counted = ap length e; number = refl; inv = v; left = omega arith })
