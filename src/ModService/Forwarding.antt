-- ===== src/ModService/Forwarding.antt =====
-- Where messages go once `svc_gb_conn_create` has ended.
use motorola_external_greybu.Prelude.{
  ℕ, ◌≡◌, inl, inr, refl, ap, ◌∙◌, Bool, true, false, Bool-cases, Option, some, Option-cases, arith,
  ◌==◌, ◌&&◌,
}
use motorola_external_greybu.Prelude.Errno.{Errno, failed, success}
use motorola_external_greybu.Prelude.Maps.{lookup, erase, lookup-erase}
use motorola_external_greybu.Nw.Defs.{
  Network, Dest, Filter, Message, find_dest, with_dest, undo_dest, need_dest, get_dl_device,
  join_route, add_route, del_route, switch, with_protocol, filter_present,
}
use motorola_external_greybu.Nw.Entries.{find_dest-with_dest, find_dest-with_tree}
use motorola_external_greybu.Nw.Forward.{
  LeadsAt, SentOn, add_route-LeadsAt, switch-forward, forward-SentOn,
}
use motorola_external_greybu.Nw.FarEnd.{add_route-keeps, add_route-there}
use motorola_external_greybu.ModService.Routes.{PairAllocs, conn_create}
use motorola_external_greybu.ModService.Connections.{device-add_route}

pub succeeded : (r : Errno) → failed r ≡ false → r ≡ success
succeeded success e = refl
succeeded _ e = absurd (cc)

apart : (i j c k : ℕ) → ((i == j) && (c == k)) ≡ false → ((j == i) && (k == c)) ≡ false
apart i j c k e = ground arith

-- A message by an entry that leads to a device
SentOn-LeadsAt :
    (handle : Filter → ℕ → Message → Errno) (message_send : ℕ → Message → Errno) (n : Network)
    (i c dev k : ℕ) (m : Message)
    → LeadsAt n i c (some dev) k
    → m.cport ≡ c
    → SentOn handle message_send n i c dev
        (record m { cport = k })
        (switch handle message_send n i m)
SentOn-LeadsAt handle message_send n i c dev k m (d, e, l) q =
    let at : find_dest n i m.cport ≡ some d = rw q e in
    rw (switch-forward handle message_send n i m at)
      (forward-SentOn handle message_send n i c m dev k d e l)

need_dest-there :
    (n : Network) (i c : ℕ) (a : Bool) (d : Dest)
    → find_dest n i c ≡ some d
    → need_dest n i c a ≡ some (n, false)
unfolding need_dest
need_dest-there n i c a d e = rw (e, need_dest) refl

del_route-keeps :
    (n : Network) (i c j k : ℕ) (dev : Option ℕ) (q : ℕ)
    → ((i == j) && (c == k)) ≡ false
    → LeadsAt n j k dev q
    → LeadsAt (del_route n i c) j k dev q
unfolding del_route find_dest
del_route-keeps n i c j k dev q f (d, e, l) = (d, kept, l)
  where
    kept : find_dest (del_route n i c) j k ≡ some d
    kept = elim (Option-cases (lookup i n.interfaces)) [
      | inl z ↦ ground (arith, find_dest-with_tree n i j k (erase c))
      | inr (set, z) ↦
          ground (arith, find_dest-with_tree n i j k (erase c), lookup-erase c k set.tree)
    ]

-- If `svc_gb_conn_create` succeeds for two different CPorts of interfaces with devices, then a message from
-- either end goes to the other end's device with the other end's CPort in its header, unless it is
-- flagged and a registered filter on its protocol and its type is there, which then sees it first and decides whether
-- it is sent on.
pub conn_create-SentOn :
    (handle : Filter → ℕ → Message → Errno) (message_send : ℕ → Message → Errno)
    (get_protocol : ℕ → Option (ℕ → Errno × ℕ)) (n : Network) (i c j k x y : ℕ) (a : PairAllocs)
    (m m' : Message)
    → get_dl_device n i ≡ some x
    → get_dl_device n j ≡ some y
    → ((i == j) && (c == k)) ≡ false
    → m.cport ≡ c
    → m'.cport ≡ k
    → (conn_create get_protocol n i c j k a).1 ≡ success
    → SentOn handle message_send
        (conn_create get_protocol n i c j k a).0
        i
        c
        y
        (record m { cport = k })
        (switch handle message_send (conn_create get_protocol n i c j k a).0 i m)
      × SentOn handle message_send
          (conn_create get_protocol n i c j k a).0
          j
          k
          x
          (record m' { cport = c })
          (switch handle message_send (conn_create get_protocol n i c j k a).0 j m')
unfolding conn_create
conn_create-SentOn handle message_send get_protocol n i c j k x y a m m' g g' f q q' h =
    let there = add_route get_protocol n i c j k a.near1 a.far1 in
    let back = add_route get_protocol there.0 j k i c a.near2 a.far2 in
    elim (Bool-cases (failed there.1)) [
      | inl z ↦ absurd (ground arith)
      | inr z ↦ elim (Bool-cases (failed back.1)) [
        | inl w ↦ absurd (ground arith)
        | inr w ↦
            let first =
              add_route-LeadsAt get_protocol n i c j k y a.near1 a.far1 g' (succeeded there.1 z) in
            let second =
              add_route-LeadsAt get_protocol there.0 j k i c x a.near2 a.far2
                (device-add_route get_protocol n i c j k a.near1 a.far1 i ∙ g)
                (succeeded back.1 w) in
            let kept =
              add_route-keeps get_protocol there.0 j k i c a.near2 a.far2 (some y) k
                (apart i j c k f) first (succeeded back.1 w) in
            rw (z, w, conn_create)
              (
                SentOn-LeadsAt handle message_send back.0 i c y k m kept q,
                SentOn-LeadsAt handle message_send back.0 j k x c m' second q',
              )
      ]
    ]

-- The way back when the device at its end has no protocol for the CPort: the entry stays behind.
back-LeadsAt :
    (get_protocol : ℕ → Option (ℕ → Errno × ℕ)) (n : Network) (i c j k x y : ℕ) (a b : Bool)
    (get : ℕ → Errno × ℕ) (d d' : Dest)
    → get_dl_device n i ≡ some x
    → get_dl_device n j ≡ some y
    → find_dest n i c ≡ some d
    → find_dest n j k ≡ some d'
    → get_protocol x ≡ some get
    → failed (get c).0 ≡ true
    → LeadsAt (add_route get_protocol n i c j k a b).0 i c (some y) k
      × ((add_route get_protocol n i c j k a b).1 ≡ (get c).0)
unfolding add_route join_route undo_dest
back-LeadsAt get_protocol n i c j k x y a b get d d' g g' at at' p q =
    let f : Dest → Dest = λ d. record d { cport = k; dev = some y } in
    let l : LeadsAt (with_dest n i c f) i c (some y) k = (
      f d,
      ground (arith, find_dest-with_dest n i c i c f),
      record { to_dev = refl; to_cport = refl },
    ) in
    rw
      (
        g,
        g',
        need_dest-there n i c a d at,
        need_dest-there n j k b d' at',
        p,
        add_route,
        join_route,
      )
      (answered (with_dest n i c f) (get c).0 (get c).0 (get c).1 q l)
  where
    answered :
        (n1 : Network) (r s : Errno) (p : ℕ)
        → failed r ≡ true
        → LeadsAt n1 i c (some y) k
        → let out : Network × Errno = elim r [
          | success ↦ (
            with_dest
                (with_dest n1 i c (with_protocol p (filter_present n1.filters p)))
                j
                k
                (with_protocol p (filter_present n1.filters p)),
            success,
          )
          | _ ↦ (undo_dest (undo_dest n1 j k false) i c false, s)
        ] in
          LeadsAt out.0 i c (some y) k × (out.1 ≡ s)
    answered n1 success s p q l = absurd (cc)
    answered n1 _ s p q l = (l, refl)

-- If the first of the two routes of `svc_gb_conn_create` is added and the second is refused because the device at the
-- second CPort, which is not the first one, has no protocol for it, then the call fails with that error, but a message
-- from the second interface for that CPort still goes to the first interface's device, unless a registered filter on
-- its protocol and its type sees it first and decides.
pub conn_create-half_open :
    (handle : Filter → ℕ → Message → Errno) (message_send : ℕ → Message → Errno)
    (get_protocol : ℕ → Option (ℕ → Errno × ℕ)) (n : Network) (i c j k x y : ℕ) (a : PairAllocs)
    (get : ℕ → Errno × ℕ) (m : Message)
    → get_dl_device n i ≡ some x
    → get_dl_device n j ≡ some y
    → ((i == j) && (c == k)) ≡ false
    → (add_route get_protocol n i c j k a.near1 a.far1).1 ≡ success
    → get_protocol y ≡ some get
    → failed (get k).0 ≡ true
    → m.cport ≡ k
    → ((conn_create get_protocol n i c j k a).1 ≡ (get k).0)
      × SentOn handle message_send
          (conn_create get_protocol n i c j k a).0
          j
          k
          x
          (record m { cport = c })
          (switch handle message_send (conn_create get_protocol n i c j k a).0 j m)
unfolding conn_create
conn_create-half_open handle message_send get_protocol n i c j k x y a get m g g' f h p q e =
    let there = add_route get_protocol n i c j k a.near1 a.far1 in
    let back = add_route get_protocol there.0 j k i c a.near2 a.far2 in
    let (d, at, _) = add_route-LeadsAt get_protocol n i c j k y a.near1 a.far1 g' h in
    let (d', at') = add_route-there get_protocol n i c j k a.near1 a.far1 f h in
    let (l, r) =
      back-LeadsAt get_protocol there.0 j k i c y x a.near2 a.far2 get d' d
        (device-add_route get_protocol n i c j k a.near1 a.far1 j ∙ g')
        (device-add_route get_protocol n i c j k a.near1 a.far1 i ∙ g) at' at p q in
    let z : failed there.1 ≡ false = ap failed h in
    let w : failed back.1 ≡ true = ap failed r ∙ q in
    rw (z, w, conn_create)
      (
        r,
        SentOn-LeadsAt handle message_send (del_route back.0 i c) j k x c m
            (del_route-keeps back.0 i c j k (some x) c f l) e,
      )
