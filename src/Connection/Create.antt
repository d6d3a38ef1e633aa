-- ===== src/Connection/Create.antt =====
-- What creating connections keeps: distinct CPorts on both sides, and nothing left behind on a failure.
use motorola_external_greybu.Prelude.{
  ℕ, ◌+◌, ◌≤◌, ◌<◌, ◌≡◌, ◌≢◌, inl, inr, refl, ap, Bool, Option, none, some, List, [], ◌∷◌, arith,
  All, In, All-In, Option-cases, Bool-cases, subst, ltb,
}
use motorola_external_greybu.Connection.{
  Connection, HostDevice, intf_find, hd_find, remove_id, disabled, create_in, create_at,
  create_dynamic, create_static,
}

abbrev pub ids : List Connection → List ℕ
ids [] = []
ids (c ∷ cs) = c.hd_cport_id ∷ ids cs

abbrev pub Distinct : List ℕ → Type 0
Distinct [] = Unit
Distinct (n ∷ ns) = All (λ m. m ≢ n) ns × Distinct ns

-- No later connection has the interface and the CPort of this one, if this one has an interface.
abbrev pub CportFree : Option ℕ → ℕ → List Connection → Type 0
CportFree none cport_id cs = Unit
CportFree (some i) cport_id cs = intf_find cs i cport_id ≡ none

abbrev pub DistinctCports : List Connection → Type 0
DistinctCports [] = Unit
DistinctCports (c ∷ cs) = CportFree c.intf c.intf_cport_id cs × DistinctCports cs

pub record IsValid (hd : HostDevice) : Type 0 where
  pub some_cports : 0 < hd.num_cports
  pub used : hd.cport_id_map ≡ ids hd.connections
  pub in_range : All (λ n. n < hd.num_cports) hd.cport_id_map
  pub distinct : Distinct hd.cport_id_map
  pub cports : DistinctCports hd.connections

-- The documented behaviour of `ida_simple_get`: the id lies in the range, which has no end if `end` is 0, and is not
-- in use.
pub record IdaLaw (ida_get : List ℕ → ℕ → ℕ → Option ℕ) : Type 0 where
  pub above : (ns : List ℕ) (start end n : ℕ) → ida_get ns start end ≡ some n → start ≤ n
  pub below : (ns : List ℕ) (start end n : ℕ) → 0 < end → ida_get ns start end ≡ some n → n < end
  pub free : (ns : List ℕ) (start end n : ℕ) → ida_get ns start end ≡ some n → All (λ m. m ≢ n) ns

pub remove_id-free : (n : ℕ) (ns : List ℕ) → All (λ m. m ≢ n) ns → remove_id n ns ≡ ns
unfolding remove_id
remove_id-free n [] a = refl
remove_id-free n (m ∷ ms) a = ground (arith, a.0, remove_id-free n ms a.1)

pub remove_id-took : (n : ℕ) (ns : List ℕ) → All (λ m. m ≢ n) ns → remove_id n (n ∷ ns) ≡ ns
unfolding remove_id
remove_id-took n ns a = ground (arith, remove_id-free n ns a)

-- What a call of `gb_connection_create` leaves: on success one more connection at the head, in a valid
-- list, and on failure the connections and the ids as they were.
abbrev pub Created :
    HostDevice → Option ℕ → Option ℕ → ℕ → ℕ → HostDevice × Option Connection → Type 0
Created hd intf bundle cport_id protocol_id (hd', none) =
    (hd'.connections ≡ hd.connections)
    × (hd'.cport_id_map ≡ hd.cport_id_map)
    × (hd'.num_cports ≡ hd.num_cports)
Created hd intf bundle cport_id protocol_id (hd', some c) =
    (hd'.connections ≡ c ∷ hd.connections)
    × IsValid hd'
    × (hd'.num_cports ≡ hd.num_cports)
    × (c.intf ≡ intf)
    × (c.bundle ≡ bundle)
    × (c.intf_cport_id ≡ cport_id)
    × (c.protocol_id ≡ protocol_id)
    × (c.state ≡ disabled)

module _ (alloc : ℕ → Bool) (ida_get : List ℕ → ℕ → ℕ → Option ℕ) (law : IdaLaw ida_get) where
  create_in-Created :
      (hd : HostDevice) (start end : ℕ) (intf bundle : Option ℕ) (cport_id protocol_id : ℕ)
      → 0 < end
      → end ≤ hd.num_cports
      → IsValid hd
      → CportFree intf cport_id hd.connections
      → Created hd intf bundle cport_id protocol_id
          (create_in alloc ida_get hd start end intf bundle cport_id protocol_id)
  unfolding create_in
  create_in-Created hd start end intf bundle cport_id protocol_id z b v f =
      elim (Option-cases (ida_get hd.cport_id_map start end)) [
        | inl e ↦ rw (e, create_in) (refl, refl, refl)
        | inr (n, e) ↦ elim (Bool-cases (alloc hd.next_alloc)) [
          | inr a ↦
              rw (e, create_in, a)
                (refl, remove_id-took n hd.cport_id_map (law.free _ _ _ _ e), refl)
          | inl a ↦ elim (Bool-cases (alloc (hd.next_alloc + 1))) [
            | inr a' ↦
                rw (e, create_in, a, a')
                  (refl, remove_id-took n hd.cport_id_map (law.free _ _ _ _ e), refl)
            | inl a' ↦
                rw (e, create_in, a, a')
                  (
                    refl,
                    (record {
                      some_cports = v.some_cports;
                      used = ap (◌∷◌ n) v.used;
                      in_range = (omega (arith, law.below _ _ _ _ z e), v.in_range);
                      distinct = (law.free _ _ _ _ e, v.distinct);
                      cports = (f, v.cports);
                    }),
                    refl,
                    refl,
                    refl,
                    refl,
                    refl,
                    refl,
                  )
          ]
        ]
      ]

  -- A connection to a CPort of an interface: it is made only if no connection to that CPort is there, and
  -- a refusal, or a failure of the id or of either allocation, leaves the connections and the ids in use
  -- as they were.
  pub create_dynamic-Created :
      (hd : HostDevice) (intf bundle cport_id protocol_id : ℕ)
      → IsValid hd
      → Created hd
          (some intf)
          (some bundle)
          cport_id
          protocol_id
          (create_dynamic alloc ida_get hd intf bundle cport_id protocol_id)
  unfolding create_dynamic create_at
  create_dynamic-Created hd intf bundle cport_id protocol_id v =
      elim (Option-cases (intf_find hd.connections intf cport_id)) [
        | inl e ↦
            rw (e, create_dynamic)
              (create_in-Created hd 0 hd.num_cports (some intf) (some bundle) cport_id protocol_id
                v.some_cports (omega arith) v e)
        | inr (c, e) ↦ rw (e, create_dynamic) (refl, refl, refl)
      ]

  -- A connection with a fixed CPort of the host keeps the ids distinct and in range in the same way.
  pub create_static-Created :
      (hd : HostDevice) (hd_cport_id protocol_id : ℕ)
      → IsValid hd
      → Created hd none none 0 protocol_id (create_static alloc ida_get hd hd_cport_id protocol_id)
  unfolding create_static create_at
  create_static-Created hd n protocol_id v = elim (Bool-cases (ltb n hd.num_cports)) [
    | inl e ↦
        rw e
          (create_in-Created hd n (n + 1) none none 0 protocol_id (omega arith) (ground arith) v tt)
    | inr e ↦ rw e (refl, refl, refl)
  ]

-- In a valid list, data that arrives on a connection's CPort is handed to that connection.
pub hd_find-In :
    (hd : HostDevice) (c : Connection)
    → IsValid hd
    → In c hd.connections
    → hd_find hd.connections c.hd_cport_id ≡ some c
unfolding hd_find
hd_find-In hd c v m = go hd.connections m (subst Distinct v.used v.distinct)
  where
    id_In : (c : Connection) (cs : List Connection) → In c cs → In c.hd_cport_id (ids cs)
    id_In c [] m = absurd m
    id_In c (d ∷ ds) (inl e) = inl (ap (λ (x : Connection). x.hd_cport_id) e)
    id_In c (d ∷ ds) (inr m) = inr (id_In c ds m)

    go : (cs : List Connection) → In c cs → Distinct (ids cs) → hd_find cs c.hd_cport_id ≡ some c
    go [] m d = absurd m
    go (x ∷ cs) (inl e) d = rw e (ground arith)
    go (x ∷ cs) (inr m) d =
        let ne : c.hd_cport_id ≢ x.hd_cport_id =
          All-In (λ m. m ≢ x.hd_cport_id) c.hd_cport_id (ids cs) d.0 (id_In c cs m) in
        ground (arith, go cs m d.1)

-- What the call does to the list of connections, whatever the state of the ids.
abbrev pub Grown : HostDevice → ℕ → ℕ → HostDevice × Option Connection → Type 0
Grown hd intf bundle (hd', none) = hd'.connections ≡ hd.connections
Grown hd intf bundle (hd', some c) =
    (hd'.connections ≡ c ∷ hd.connections) × (c.intf ≡ some intf) × (c.bundle ≡ some bundle)

pub create_dynamic-Grown :
    (alloc : ℕ → Bool) (ida_get : List ℕ → ℕ → ℕ → Option ℕ) (hd : HostDevice)
    (intf bundle cport_id protocol_id : ℕ)
    → Grown hd intf bundle (create_dynamic alloc ida_get hd intf bundle cport_id protocol_id)
unfolding create_dynamic create_at create_in
create_dynamic-Grown alloc ida_get hd intf bundle cport_id protocol_id =
    elim (Option-cases (intf_find hd.connections intf cport_id)) [
      | inr (c, e) ↦ rw (e, create_dynamic) refl
      | inl e ↦ elim (Option-cases (ida_get hd.cport_id_map 0 hd.num_cports)) [
        | inl f ↦ rw (e, create_dynamic, f, create_at, create_in) refl
        | inr (n, f) ↦ elim (Bool-cases (alloc hd.next_alloc)) [
          | inr a ↦ rw (e, create_dynamic, f, create_at, create_in, a) refl
          | inl a ↦ elim (Bool-cases (alloc (hd.next_alloc + 1))) [
            | inr a' ↦ rw (e, create_dynamic, f, create_at, create_in, a, a') refl
            | inl a' ↦ rw (e, create_dynamic, f, create_at, create_in, a, a') (refl, refl, refl)
          ]
        ]
      ]
    ]
