-- ===== src/Nw/FarEnd.antt =====
-- What adding a route does to the entry at its destination.
use motorola_external_greybu.Prelude.{
  ℕ, ◌≡◌, inl, inr, refl, ◌∙◌, Bool, false, Option, none, some, arith, Option-cases, ◌==◌, ◌&&◌,
}
use motorola_external_greybu.Prelude.Errno.{Errno, success}
use motorola_external_greybu.Prelude.Maps.{lookup, insert, lookup-insert}
use motorola_external_greybu.Nw.Defs.{
  Network, Dest, Filter, Message, null_pointer, empty_dest, find_dest, with_tree, with_dest,
  need_dest, get_dl_device, join_route, add_route, with_protocol, forward, switch, filter_present,
  undo_dest,
}
use motorola_external_greybu.Nw.Entries.{
  find_dest-with_dest, find_dest-need_self, find_dest-need_dest, find_dest-need_keeps,
}
use motorola_external_greybu.Nw.Forward.{LeadsAt, needed, with_protocol-LeadsAt, switch-forward}

-- An entry that was asked for and is new has no device.
need_dest-LeadsAt :
    (n n1 n2 : Network) (i c j k x y : ℕ) (a b p s : Bool)
    → find_dest n j k ≡ none
    → get_dl_device n1 j ≡ some y
    → need_dest n i c a ≡ some (n1, p)
    → need_dest n1 j k b ≡ some (n2, s)
    → LeadsAt n2 j k none 0
need_dest-LeadsAt n n1 n2 i c j k x y a b p s e g q r =
    elim (find_dest-need_self n1 n2 j k b s y g r) [
      | inl (_, m) ↦ (empty_dest, m, record { to_dev = refl; to_cport = refl })
      | inr (d, m, same) ↦ elim (find_dest-need_dest n n1 i c a p j k d q m) [
        | inl z ↦ absurd (ground arith)
        | inr z ↦ (d, rw same m, record { to_dev = rw z refl; to_cport = rw z refl })
      ]
    ]

join_route-far :
    (get_protocol : ℕ → Option (ℕ → Errno × ℕ)) (n : Network) (i c j k x y : ℕ) (a b : Bool)
    (dev : Option ℕ) (q0 : ℕ)
    → ((i == j) && (c == k)) ≡ false
    → LeadsAt n j k dev q0
    → (join_route get_protocol n i c j k x y a b).1 ≡ success
    → LeadsAt (join_route get_protocol n i c j k x y a b).0 j k dev q0
unfolding join_route
join_route-far get_protocol n i c j k x y a b dev q0 q (d, e, l0) h =
    let f : Dest → Dest = λ d. record d { cport = k; dev = some y } in
    let l : LeadsAt (with_dest n i c f) j k dev q0 =
      (d, ground (arith, find_dest-with_dest n i c j k f), l0) in
    elim (Option-cases (get_protocol x)) [
      | inl g ↦ rw (g, join_route) l
      | inr (get, g) ↦
          rw (g, join_route)
            (answered (with_dest n i c f) (get c).0 (get c).0 (get c).1 l refl
              (rw (g, join_route) at h))
    ]
  where
    answered :
        (n1 : Network) (r s : Errno) (p : ℕ)
        → LeadsAt n1 j k dev q0
        → r ≡ s
        → let out : Network × Errno = elim r [
          | success ↦ (
            with_dest
                (with_dest n1 i c (with_protocol p (filter_present n1.filters p)))
                j
                k
                (with_protocol p (filter_present n1.filters p)),
            success,
          )
          | _ ↦ (undo_dest (undo_dest n1 j k b) i c a, s)
        ] in
          out.1 ≡ success → LeadsAt out.0 j k dev q0
    answered n1 success s p l q h =
        with_protocol-LeadsAt _ j k j k p dev q0 _ (with_protocol-LeadsAt n1 j k i c p dev q0 _ l)
    answered n1 _ s p l q h = absurd (cc)

need_dest-device :
    (n n' : Network) (i c j y : ℕ) (a p : Bool)
    → need_dest n i c a ≡ some (n', p)
    → get_dl_device n j ≡ some y
    → get_dl_device n' j ≡ some y
unfolding need_dest get_dl_device with_tree find_dest
need_dest-device n n' i c j y a p e g = elim (Option-cases (lookup i n.interfaces)) [
  | inl k ↦ ground arith
  | inr (set, k) ↦ elim (Option-cases (lookup c set.tree)) [
    | inr (d, m) ↦ ground arith
    | inl m ↦
        ground (
          arith,
          lookup-insert i j (record set { tree = insert c empty_dest set.tree }) n.interfaces,
        )
  ]
]

-- After a successful call there is an entry at the destination.
pub add_route-there :
    (get_protocol : ℕ → Option (ℕ → Errno × ℕ)) (n : Network) (i c j k : ℕ) (a b : Bool)
    → ((i == j) && (c == k)) ≡ false
    → (add_route get_protocol n i c j k a b).1 ≡ success
    → (d : Dest) × (find_dest (add_route get_protocol n i c j k a b).0 j k ≡ some d)
unfolding add_route
add_route-there get_protocol n i c j k a b f h = elim (Option-cases (get_dl_device n i)) [
  | inl r ↦ absurd (ground arith)
  | inr (x, r) ↦ elim (Option-cases (get_dl_device n j)) [
    | inl r' ↦ absurd (ground arith)
    | inr (y, g) ↦ elim (Option-cases (need_dest n i c a)) [
      | inl u ↦ absurd (ground arith)
      | inr ((n1, p), u) ↦ elim (Option-cases (need_dest n1 j k b)) [
        | inl v ↦ absurd (ground arith)
        | inr ((n2, s), v) ↦
            let (d, at) = needed n1 n2 j k b s y (need_dest-device n n1 i c j y a p u g) v in
            let (d', at', l) =
              join_route-far get_protocol n2 i c j k x y p s d.dev d.cport f
                (d, at, record { to_dev = refl; to_cport = refl })
                (rw (r, g, u, v, add_route) at h) in
            rw (r, g, u, v, add_route) (d', at')
      ]
    ]
  ]
]

-- A successful call leaves an entry at the destination as it leads.
pub add_route-keeps :
    (get_protocol : ℕ → Option (ℕ → Errno × ℕ)) (n : Network) (i c j k : ℕ) (a b : Bool)
    (dev : Option ℕ) (q0 : ℕ)
    → ((i == j) && (c == k)) ≡ false
    → LeadsAt n j k dev q0
    → (add_route get_protocol n i c j k a b).1 ≡ success
    → LeadsAt (add_route get_protocol n i c j k a b).0 j k dev q0
unfolding add_route
add_route-keeps get_protocol n i c j k a b dev q0 f (d, at, l) h =
    elim (Option-cases (get_dl_device n i)) [
      | inl r ↦ absurd (ground arith)
      | inr (x, r) ↦ elim (Option-cases (get_dl_device n j)) [
        | inl r' ↦ absurd (ground arith)
        | inr (y, g) ↦ elim (Option-cases (need_dest n i c a)) [
          | inl u ↦ absurd (ground arith)
          | inr ((n1, p), u) ↦ elim (Option-cases (need_dest n1 j k b)) [
            | inl v ↦ absurd (ground arith)
            | inr ((n2, s), v) ↦
                let there =
                  find_dest-need_keeps n1 n2 j k b s j k d v
                    (find_dest-need_keeps n n1 i c a p j k d u at) in
                rw (r, g, u, v, add_route)
                  (join_route-far get_protocol n2 i c j k x y p s dev q0 f (d, there, l)
                    (rw (r, g, u, v, add_route) at h))
          ]
        ]
      ]
    ]

-- If `mods_nw_add_route` succeeds and the destination had no entry for its CPort, then a message from the
-- destination's device for that CPort makes `mods_nw_switch` read through a null pointer, until the route
-- back is added.
pub switch-null_pointer :
    (handle : Filter → ℕ → Message → Errno) (message_send : ℕ → Message → Errno)
    (get_protocol : ℕ → Option (ℕ → Errno × ℕ)) (n : Network) (i c j k : ℕ) (a b : Bool)
    (m : Message)
    → find_dest n j k ≡ none
    → ((i == j) && (c == k)) ≡ false
    → (add_route get_protocol n i c j k a b).1 ≡ success
    → m.cport ≡ k
    → switch handle message_send (add_route get_protocol n i c j k a b).0 j m ≡ null_pointer
unfolding add_route
switch-null_pointer handle message_send get_protocol n i c j k a b m e f h q =
    let n' = (add_route get_protocol n i c j k a b).0 in
    let (d, at, l) = far in
    let at' : find_dest n' j m.cport ≡ some d = rw q at in
    switch-forward handle message_send n' j m at'
    ∙ (let z = l.to_dev in unfold forward in ground arith)
  where
    far : LeadsAt (add_route get_protocol n i c j k a b).0 j k none 0
    far = elim (Option-cases (get_dl_device n i)) [
      | inl r ↦ absurd (ground arith)
      | inr (x, r) ↦ elim (Option-cases (get_dl_device n j)) [
        | inl r ↦ absurd (ground arith)
        | inr (y, g) ↦ elim (Option-cases (need_dest n i c a)) [
          | inl u ↦ absurd (ground arith)
          | inr ((n1, p), u) ↦ elim (Option-cases (need_dest n1 j k b)) [
            | inl v ↦ absurd (ground arith)
            | inr ((n2, s), v) ↦
                let l =
                  need_dest-LeadsAt n n1 n2 i c j k x y a b p s e
                    (need_dest-device n n1 i c j y a p u g) u v in
                rw (r, g, u, v, add_route)
                  (join_route-far get_protocol n2 i c j k x y p s none 0 f l
                    (rw (r, g, u, v, add_route) at h))
          ]
        ]
      ]
    ]
