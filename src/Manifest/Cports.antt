-- ===== src/Manifest/Cports.antt =====
-- Which connections the parsing of a manifest makes and destroys.
use motorola_external_greybu.Prelude.{
  ℕ, ◌+◌, ◌≤◌, ◌≡◌, ◌≢◌, inl, inr, refl, sym, ap, Bool, true, false, Option, none, some, List, [],
  ◌∷◌, arith, All, Option-cases, Bool-cases, ◌∙◌, ◌==◌, ltb, length, ◌&&◌, if◌then◌else◌,
}
use motorola_external_greybu.Connection.{Connection, HostDevice, create_dynamic, is_some_eq}
use motorola_external_greybu.Connection.Create.{Grown, create_dynamic-Grown}
use motorola_external_greybu.Manifest.Defs.{
  Desc, Bundle, Intf, release_cports, cport_bundle, cport_id, cport_protocol, cport_id_max,
}
use motorola_external_greybu.Manifest.Steps.{
  Cports, keep_desc, cports_loop, cports_end, parse_cports, find_bundle, drop_connections,
  drop_bundle, destroy_bundle,
}

-- The connections of other interfaces.
unfoldable pub foreign : ℕ → List Connection → List Connection
foreign n [] = []
foreign n (c ∷ cs) = let rest = foreign n cs in if is_some_eq c.intf n then rest else c ∷ rest

abbrev pub HasBundle : List Bundle → Option ℕ → Type 0
HasBundle bs none = ⊥
HasBundle bs (some b) = find_bundle bs b ≢ none

-- A connection of this interface belongs to one of its bundles.
abbrev pub Owned : ℕ → List Bundle → Connection → Type 0
Owned n bs c = is_some_eq c.intf n ≡ true → HasBundle bs c.bundle

pub record HdInv (n : ℕ) (bs : List Bundle) (others : List Connection) (hd : HostDevice)
    : Type 0 where
  pub others_kept : foreign n hd.connections ≡ others
  pub owned : All (Owned n bs) hd.connections

Grown-HdInv :
    (n b : ℕ) (bs : List Bundle) (others : List Connection) (hd : HostDevice)
    (r : HostDevice × Option Connection)
    → HasBundle bs (some b)
    → Grown hd n b r
    → HdInv n bs others hd
    → HdInv n bs others r.0
unfolding foreign
Grown-HdInv n b bs others hd (hd', none) h g v = record {
  others_kept = rw g v.others_kept;
  owned = rw g v.owned;
}
Grown-HdInv n b bs others hd (hd', some c) h (g, i, k) v = record {
  others_kept = rw g (rw (i, foreign) (ground (arith, v.others_kept)));
  owned = rw g ((λ _. rw k h), v.owned);
}

-- What the loop over the CPort descriptors leaves.
cports_loop-HdInv :
    (mem : ℕ → ℕ) (alloc : ℕ → Bool) (ida_get : List ℕ → ℕ → ℕ → Option ℕ) (n b : ℕ)
    (bs : List Bundle) (others : List Connection)
    → HasBundle bs (some b)
    → (ds : List Desc) (hd : HostDevice) (count : ℕ) → HdInv n bs others hd
    → HdInv n bs others (cports_loop mem alloc ida_get n b ds hd count).hd
      × (length (cports_loop mem alloc ida_get n b ds hd count).descs ≤ length ds)
unfolding cports_loop keep_desc
cports_loop-HdInv mem alloc ida_get n b bs others h [] hd count v = (v, omega arith)
cports_loop-HdInv mem alloc ida_get n b bs others h (d ∷ ds) hd count v =
    elim (Bool-cases ((d.type == 4) && (cport_bundle mem d == b))) [
      | inr e ↦
          rw (e, cports_loop)
            (let (i, l) = cports_loop-HdInv mem alloc ida_get n b bs others h ds hd count v in
              (i, omega (arith, l)))
      | inl e ↦ elim (Bool-cases (ltb cport_id_max (cport_id mem d))) [
        | inl f ↦ rw (e, cports_loop, f) (v, omega arith)
        | inr f ↦
            let made =
              create_dynamic alloc ida_get hd n b (cport_id mem d) (cport_protocol mem d) in
            let v' =
              Grown-HdInv n b bs others hd made h
                (create_dynamic-Grown alloc ida_get hd n b (cport_id mem d) (cport_protocol mem d))
                v in
            elim (Option-cases made.1) [
              | inl m ↦ rw (e, cports_loop, f, m) (v', omega arith)
              | inr (c, m) ↦
                  rw (e, cports_loop, f, m)
                    (let (i, l) =
                        cports_loop-HdInv mem alloc ida_get n b bs others h ds made.0 (count + 1)
                          v' in
                      (i, omega (arith, l)))
            ]
      ]
    ]

pub length-release_cports :
    (mem : ℕ → ℕ) (ds : List Desc) (b : ℕ) → length (release_cports mem ds b) ≤ length ds
unfolding release_cports
length-release_cports mem [] b = omega arith
length-release_cports mem (d ∷ ds) b = ground (arith, length-release_cports mem ds b)

-- What setting up one bundle's CPorts leaves of the interface: its bundles, and no longer a list.
pub record Kept (n : ℕ) (others : List Connection) (s s' : Intf) : Type 0 where
  pub bundles : s'.bundles ≡ s.bundles
  pub number : s'.number ≡ n
  pub inv : HdInv n s.bundles others s'.hd
  pub shorter : length s'.manifest_descs ≤ length s.manifest_descs

pub parse_cports-Kept :
    (mem : ℕ → ℕ) (alloc : ℕ → Bool) (ida_get : List ℕ → ℕ → ℕ → Option ℕ) (n : ℕ)
    (others : List Connection) (s : Intf) (b : ℕ)
    → HasBundle s.bundles (some b)
    → s.number ≡ n
    → HdInv n s.bundles others s.hd
    → Kept n others s (parse_cports mem alloc ida_get s b).0
unfolding parse_cports cports_end
parse_cports-Kept mem alloc ida_get n others s b h e v = simp e (
    go (cports_loop mem alloc ida_get n b s.manifest_descs s.hd 0)
      (cports_loop-HdInv mem alloc ida_get n b s.bundles others h s.manifest_descs s.hd 0 v))
  where
    go :
        (r : Cports)
        → HdInv n s.bundles others r.hd × (length r.descs ≤ length s.manifest_descs)
        → Kept n others s (cports_end mem alloc ida_get s b r).0
    go r (i, l) = elim (Option-cases r.count) [
      | inl z ↦
          rw (z, cports_end)
            (record {
              bundles = refl;
              number = e;
              inv = i;
              shorter = omega (arith, length-release_cports mem r.descs b, l);
            })
      | inr (k, z) ↦
          rw (z, cports_end) (record { bundles = refl; number = e; inv = i; shorter = l })
    ]

-- A connection of another bundle keeps its bundle when one is taken off the list.
find_bundle-drop :
    (bs : List Bundle) (b b' : ℕ) → b ≢ b' → find_bundle (drop_bundle b bs) b' ≡ find_bundle bs b'
unfolding find_bundle drop_bundle
find_bundle-drop [] b b' h = refl
find_bundle-drop (x ∷ bs) b b' h = ground (arith, find_bundle-drop bs b b' h)

foreign-drop : (n b : ℕ) (cs : List Connection) → foreign n (drop_connections n b cs) ≡ foreign n cs
unfolding foreign drop_connections
foreign-drop n b [] = refl
foreign-drop n b (c ∷ cs) = ground (arith, foreign-drop n b cs)

Owned-drop :
    (n b : ℕ) (bs : List Bundle) (cs : List Connection)
    → All (Owned n bs) cs
    → All (Owned n (drop_bundle b bs)) (drop_connections n b cs)
unfolding drop_connections
Owned-drop n b bs [] a = tt
Owned-drop n b bs (c ∷ cs) a = elim (Bool-cases (is_some_eq c.intf n && is_some_eq c.bundle b)) [
  | inl e ↦ rw (e, drop_connections) (Owned-drop n b bs cs a.1)
  | inr e ↦ rw (e, drop_connections) (one c.bundle (a.0) e, Owned-drop n b bs cs a.1)
]
  where
    one :
        (o : Option ℕ)
        → (is_some_eq c.intf n ≡ true → HasBundle bs o)
        → (is_some_eq c.intf n && is_some_eq o b) ≡ false
        → is_some_eq c.intf n ≡ true
        → HasBundle (drop_bundle b bs) o
    one none k e i = k i
    one (some b') k e i = rw (find_bundle-drop bs b b' (ground arith)) (k i)

pub destroy_bundle-HdInv :
    (n : ℕ) (others : List Connection) (s : Intf) (b : ℕ)
    → s.number ≡ n
    → HdInv n s.bundles others s.hd
    → HdInv n (destroy_bundle s b).bundles others (destroy_bundle s b).hd
unfolding destroy_bundle
destroy_bundle-HdInv n others s b e v = rw e (record {
  others_kept = foreign-drop n b s.hd.connections ∙ v.others_kept;
  owned = Owned-drop n b s.bundles s.hd.connections v.owned;
})

-- With no bundle left, the connections are those of the other interfaces.
pub no-bundles :
    (n : ℕ) (others : List Connection) (hd : HostDevice)
    → HdInv n [] others hd
    → hd.connections ≡ others
unfolding find_bundle foreign
no-bundles n others hd v = sym (all_foreign hd.connections v.owned) ∙ v.others_kept
  where
    none_owned : (o : Option ℕ) → HasBundle [] o → ⊥
    none_owned none h = h
    none_owned (some b) h = h refl

    all_foreign : (cs : List Connection) → All (Owned n []) cs → foreign n cs ≡ cs
    all_foreign [] a = refl
    all_foreign (c ∷ cs) a = elim (Bool-cases (is_some_eq c.intf n)) [
      | inl e ↦ absurd (none_owned c.bundle (a.0 e))
      | inr e ↦ rw (e, foreign) (ap (◌∷◌ c) (all_foreign cs a.1))
    ]
