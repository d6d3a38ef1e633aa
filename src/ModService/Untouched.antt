-- ===== src/ModService/Untouched.antt =====
-- What a connection that is made and destroyed leaves.
use motorola_external_greybu.Prelude.{
  ℕ, ◌≡◌, inl, inr, refl, ap, ◌∙◌, Bool, true, false, Bool-cases, Option, none, some, Option-cases,
  arith, ◌==◌, ◌&&◌, if◌then◌else◌,
}
use motorola_external_greybu.Prelude.Errno.{Errno, failed, success}
use motorola_external_greybu.Prelude.Maps.{lookup, insert, erase, lookup-insert, lookup-erase}
use motorola_external_greybu.Nw.Defs.{
  Network, Dest, find_dest, with_tree, with_dest, undo_dest, need_dest, get_dl_device, join_route,
  add_route, del_route, with_protocol, filter_present, empty_dest,
}
use motorola_external_greybu.Nw.Entries.{find_dest-with_dest, find_dest-with_tree}
use motorola_external_greybu.ModService.Routes.{PairAllocs, conn_create, conn_destroy}

-- Two networks with the same entry at a CPort of an interface
abbrev Alike : ℕ → ℕ → Network → Network → Type 0
Alike i c n n' = find_dest n' i c ≡ find_dest n i c

find_dest-erase :
    (n : Network) (i c i' c' : ℕ)
    → find_dest (with_tree n i (erase c)) i' c'
      ≡ (if (i == i') && (c == c') then none else find_dest n i' c')
unfolding find_dest
find_dest-erase n i c i' c' = elim (Option-cases (lookup i n.interfaces)) [
  | inl z ↦ ground (arith, find_dest-with_tree n i i' c' (erase c))
  | inr (set, z) ↦
      ground (arith, find_dest-with_tree n i i' c' (erase c), lookup-erase c c' set.tree)
]

find_dest-insert :
    (n : Network) (i c i' c' : ℕ) (d : Dest)
    → ((i == i') && (c == c')) ≡ false
    → Alike i' c' n (with_tree n i (insert c d))
unfolding find_dest
find_dest-insert n i c i' c' d f = elim (Option-cases (lookup i n.interfaces)) [
  | inl z ↦ ground (arith, find_dest-with_tree n i i' c' (insert c d))
  | inr (set, z) ↦
      ground (arith, find_dest-with_tree n i i' c' (insert c d), lookup-insert c c' d set.tree)
]

-- A CPort of an interface that is neither end of a route
module _ (get_protocol : ℕ → Option (ℕ → Errno × ℕ)) (i c j k h q : ℕ)
    (near : ((i == h) && (c == q)) ≡ false) (far : ((j == h) && (k == q)) ≡ false) where
  with_near : (n : Network) (f : Dest → Dest) → Alike h q n (with_dest n i c f)
  with_near n f = ground (arith, find_dest-with_dest n i c h q f)

  with_far : (n : Network) (f : Dest → Dest) → Alike h q n (with_dest n j k f)
  with_far n f = ground (arith, find_dest-with_dest n j k h q f)

  undo_near : (n : Network) (b : Bool) → Alike h q n (undo_dest n i c b)
  unfolding undo_dest
  undo_near n true = ground (arith, find_dest-erase n i c h q)
  undo_near n false = refl

  undo_far : (n : Network) (b : Bool) → Alike h q n (undo_dest n j k b)
  unfolding undo_dest
  undo_far n true = ground (arith, find_dest-erase n j k h q)
  undo_far n false = refl

  need_near : (n n' : Network) (a p : Bool) → need_dest n i c a ≡ some (n', p) → Alike h q n n'
  unfolding need_dest
  need_near n n' a p e = elim (Option-cases (find_dest n i c)) [
    | inl z ↦ ground (arith, find_dest-insert n i c h q empty_dest near)
    | inr (d, z) ↦ ground arith
  ]

  need_far : (n n' : Network) (a p : Bool) → need_dest n j k a ≡ some (n', p) → Alike h q n n'
  unfolding need_dest
  need_far n n' a p e = elim (Option-cases (find_dest n j k)) [
    | inl z ↦ ground (arith, find_dest-insert n j k h q empty_dest far)
    | inr (d, z) ↦ ground arith
  ]

  join_route-Alike :
      (n : Network) (x y : ℕ) (a b : Bool)
      → Alike h q n (join_route get_protocol n i c j k x y a b).0
  unfolding join_route
  join_route-Alike n x y a b =
      let f : Dest → Dest = λ d. record d { cport = k; dev = some y } in
      elim (Option-cases (get_protocol x)) [
        | inl g ↦ rw (g, join_route) (with_near n f)
        | inr (get, g) ↦
            rw (g, join_route)
              (answered (with_dest n i c f) (get c).0 (get c).0 (get c).1 ∙ with_near n f)
      ]
    where
      answered :
          (n1 : Network) (r s : Errno) (p : ℕ)
          → let out : Network × Errno = elim r [
            | success ↦ (
              with_dest
                  (with_dest n1 i c (with_protocol p (filter_present n1.filters p)))
                  j
                  k
                  (with_protocol p (filter_present n1.filters p)),
              success,
            )
            | _ ↦ (undo_dest (undo_dest n1 j k b) i c a, s)
          ] in
            Alike h q n1 out.0
      answered n1 success s p = with_far _ _ ∙ with_near n1 _
      answered n1 _ s p = undo_near _ a ∙ undo_far n1 b

  -- A route changes no other entry, whether it is added or refused.
  add_route-Alike :
      (n : Network) (a b : Bool) → Alike h q n (add_route get_protocol n i c j k a b).0
  unfolding add_route
  add_route-Alike n a b = elim (Option-cases (get_dl_device n i)) [
    | inl e ↦ rw (e, add_route) refl
    | inr (x, e) ↦ elim (Option-cases (get_dl_device n j)) [
      | inl g ↦ rw (e, g, add_route) refl
      | inr (y, g) ↦ elim (Option-cases (need_dest n i c a)) [
        | inl u ↦ rw (e, g, u, add_route) refl
        | inr ((n1, p), u) ↦ elim (Option-cases (need_dest n1 j k b)) [
          | inl v ↦ rw (e, g, u, v, add_route) (undo_near n1 p ∙ need_near n n1 a p u)
          | inr ((n2, s), v) ↦
              rw (e, g, u, v, add_route)
                (join_route-Alike n2 x y p s ∙ need_far n1 n2 b s v ∙ need_near n n1 a p u)
        ]
      ]
    ]
  ]

  del_near : (n : Network) → Alike h q n (del_route n i c)
  unfolding del_route undo_dest with_tree
  del_near n = undo_near n true

  if-Alike :
      (b : Bool) (n : Network) (r s : Network × Errno)
      → Alike h q n r.0
      → Alike h q n s.0
      → Alike h q n (if b then r else s).0
  if-Alike true n r s f g = f
  if-Alike false n r s f g = g

module _ (get_protocol : ℕ → Option (ℕ → Errno × ℕ)) (i c j k h q : ℕ) where
  pub conn_create-Alike :
      ((i == h) && (c == q)) ≡ false
      → ((j == h) && (k == q)) ≡ false
      → (n : Network) (a : PairAllocs) → Alike h q n (conn_create get_protocol n i c j k a).0
  unfolding conn_create
  conn_create-Alike near far n a =
      let there = add_route get_protocol n i c j k a.near1 a.far1 in
      let back = add_route get_protocol there.0 j k i c a.near2 a.far2 in
      let one = add_route-Alike get_protocol i c j k h q near far n a.near1 a.far1 in
      let two = add_route-Alike get_protocol j k i c h q far near there.0 a.near2 a.far2 ∙ one in
      if-Alike get_protocol i c j k h q near far (failed there.1) n there
        (if failed back.1 then (del_route back.0 i c, back.1) else (back.0, success)) one
        (if-Alike get_protocol i c j k h q near far (failed back.1) n (del_route back.0 i c, back.1)
          (back.0, success) (del_near get_protocol i c j k h q near far back.0 ∙ two) two)

  pub conn_destroy-erases :
      (n : Network)
      → find_dest (conn_destroy n i c j k) h q ≡ (
          if (j == h) && (k == q)
          then none
          else if (i == h) && (c == q)
          then none
          else find_dest n h q)
  unfolding conn_destroy del_route
  conn_destroy-erases n =
      find_dest-erase (with_tree n i (erase c)) j k h q
      ∙ ap (λ d. if (j == h) && (k == q) then none else d) (find_dest-erase n i c h q)

  -- If neither end of a connection had an entry, then after `svc_gb_conn_create`, whether it succeeds or
  -- fails, and `svc_gb_conn_destroy` every entry of the network is as it was.
  pub conn_destroy-conn_create :
      (n : Network) (a : PairAllocs)
      → find_dest n i c ≡ none
      → find_dest n j k ≡ none
      → find_dest (conn_destroy (conn_create get_protocol n i c j k a).0 i c j k) h q
        ≡ find_dest n h q
  conn_destroy-conn_create n a e f =
      let made = (conn_create get_protocol n i c j k a).0 in
      elim (Bool-cases ((i == h) && (c == q))) [
        | inl x ↦ elim (Bool-cases ((j == h) && (k == q))) [
          | inl y ↦ ground (arith, conn_destroy-erases made)
          | inr y ↦ ground (arith, conn_destroy-erases made)
        ]
        | inr x ↦ elim (Bool-cases ((j == h) && (k == q))) [
          | inl y ↦ ground (arith, conn_destroy-erases made)
          | inr y ↦ ground (arith, conn_destroy-erases made, conn_create-Alike x y n a)
        ]
      ]
