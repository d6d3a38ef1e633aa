-- ===== src/ModService/Connections.antt =====
-- The devices of the network, which no route changes.
use motorola_external_greybu.Prelude.{
  ℕ, ◌≡◌, inl, inr, refl, ◌∙◌, Bool, true, false, Option, some, Option-cases, List, arith,
}
use motorola_external_greybu.Prelude.Errno.{Errno, success}
use motorola_external_greybu.Prelude.Maps.{lookup, insert, lookup-insert}
use motorola_external_greybu.Nw.Defs.{
  Network, Dest, find_dest, with_tree, with_dest, undo_dest, need_dest, get_dl_device, join_route,
  add_route, with_protocol, filter_present, empty_dest,
}

-- No change of a tree changes the devices.
device-with_tree :
    (n : Network) (i j : ℕ) (f : List (ℕ × Dest) → List (ℕ × Dest))
    → get_dl_device (with_tree n i f) j ≡ get_dl_device n j
unfolding get_dl_device with_tree
device-with_tree n i j f = elim (Option-cases (lookup i n.interfaces)) [
  | inl e ↦ ground arith
  | inr (set, e) ↦ ground (arith, lookup-insert i j (record set { tree = f set.tree }) n.interfaces)
]

device-with_dest :
    (n : Network) (i c j : ℕ) (f : Dest → Dest)
    → get_dl_device (with_dest n i c f) j ≡ get_dl_device n j
unfolding with_dest
device-with_dest n i c j f = device-with_tree n i j _

device-undo_dest :
    (n : Network) (i c : ℕ) (b : Bool) (j : ℕ)
    → get_dl_device (undo_dest n i c b) j ≡ get_dl_device n j
unfolding undo_dest
device-undo_dest n i c true j = device-with_tree n i j _
device-undo_dest n i c false j = refl

device-need_dest :
    (n n' : Network) (i c : ℕ) (a p : Bool) (j : ℕ)
    → need_dest n i c a ≡ some (n', p)
    → get_dl_device n' j ≡ get_dl_device n j
unfolding need_dest
device-need_dest n n' i c a p j e = elim (Option-cases (find_dest n i c)) [
  | inl k ↦ ground (arith, device-with_tree n i j (insert c empty_dest))
  | inr (d, k) ↦ ground arith
]

module _ (get_protocol : ℕ → Option (ℕ → Errno × ℕ)) where
  device-join_route :
      (n : Network) (i c j k x y : ℕ) (a b : Bool) (h : ℕ)
      → get_dl_device (join_route get_protocol n i c j k x y a b).0 h ≡ get_dl_device n h
  unfolding join_route
  device-join_route n i c j k x y a b h =
      let f : Dest → Dest = λ d. record d { cport = k; dev = some y } in
      elim (Option-cases (get_protocol x)) [
        | inl g ↦ rw (g, join_route) (device-with_dest n i c h f)
        | inr (get, g) ↦
            rw (g, join_route)
              (answered (with_dest n i c f) (get c).0 (get c).0 (get c).1
                ∙ device-with_dest n i c h f)
      ]
    where
      answered :
          (n1 : Network) (r s : Errno) (p : ℕ)
          → let out : Network × Errno = elim r [
            | success ↦ (
              with_dest
                  (with_dest n1 i c (with_protocol p (filter_present n1.filters p)))
                  j
                  k
                  (with_protocol p (filter_present n1.filters p)),
              success,
            )
            | _ ↦ (undo_dest (undo_dest n1 j k b) i c a, s)
          ] in
            get_dl_device out.0 h ≡ get_dl_device n1 h
      answered n1 success s p = device-with_dest _ j k h _ ∙ device-with_dest n1 i c h _
      answered n1 _ s p = device-undo_dest _ i c a h ∙ device-undo_dest n1 j k b h

  pub device-add_route :
      (n : Network) (i c j k : ℕ) (a b : Bool) (h : ℕ)
      → get_dl_device (add_route get_protocol n i c j k a b).0 h ≡ get_dl_device n h
  unfolding add_route
  device-add_route n i c j k a b h = elim (Option-cases (get_dl_device n i)) [
    | inl e ↦ rw (e, add_route) refl
    | inr (x, e) ↦ elim (Option-cases (get_dl_device n j)) [
      | inl g ↦ rw (e, g, add_route) refl
      | inr (y, g) ↦ elim (Option-cases (need_dest n i c a)) [
        | inl u ↦ rw (e, g, u, add_route) refl
        | inr ((n1, p), u) ↦ elim (Option-cases (need_dest n1 j k b)) [
          | inl v ↦
              rw (e, g, u, v, add_route)
                (device-undo_dest n1 i c p h ∙ device-need_dest n n1 i c a p h u)
          | inr ((n2, s), v) ↦
              rw (e, g, u, v, add_route)
                (device-join_route n2 i c j k x y p s h
                  ∙ device-need_dest n1 n2 j k b s h v
                  ∙ device-need_dest n n1 i c a p h u)
        ]
      ]
    ]
  ]
