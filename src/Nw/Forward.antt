-- ===== src/Nw/Forward.antt =====
-- Where the switch sends a message after a route was added.
use motorola_external_greybu.Prelude.{
  ℕ, ◌≡◌, ◌⊎◌, inl, inr, refl, ap, sym, subst, ◌∙◌, Bool, false, Option, none, some, List, [], ◌∷◌,
  All, In, arith, Option-cases, Bool-cases, ◌==◌, ◌&&◌, if◌then◌else◌,
}
use motorola_external_greybu.Prelude.Errno.{Errno, success}
use motorola_external_greybu.Prelude.Maps.{lookup}
use motorola_external_greybu.Nw.Defs.{
  Network, Dest, Filter, Message, send, Switched, returned, empty_dest, find_dest, find_filter,
  with_dest, need_dest, get_dl_device, join_route, add_route, with_protocol, forward, switch,
  after_filter, filter_present, undo_dest,
}
use motorola_external_greybu.Nw.Entries.{
  find_dest-with_dest, find_dest-need_self, find_dest-need_keeps,
}

-- Once an entry is there, the switch forwards by it.
pub switch-forward :
    (handle : Filter → ℕ → Message → Errno) (message_send : ℕ → Message → Errno) (n : Network)
    (i : ℕ) (m : Message) {d : Dest}
    → find_dest n i m.cport ≡ some d
    → switch handle message_send n i m ≡ forward handle message_send n d m
unfolding switch find_dest
switch-forward handle message_send n i m {d} h = elim (Option-cases (lookup i n.interfaces)) [
  | inl e ↦ ground arith
  | inr (set, e) ↦ let k = rw (e, find_dest) at h in rw (e, switch) (rw (k, switch) refl)
]

-- An entry that leads to a CPort of a device
pub record Leads (dev : Option ℕ) (cport : ℕ) (d : Dest) : Type 0 where
  pub to_dev : d.dev ≡ dev
  pub to_cport : d.cport ≡ cport

abbrev pub LeadsAt : Network → ℕ → ℕ → Option ℕ → ℕ → Type 0
LeadsAt n i c dev k = (d : Dest) × (find_dest n i c ≡ some d) × Leads dev k d

pub with_protocol-LeadsAt :
    (n : Network) (i c i' c' p : ℕ) (dev : Option ℕ) (k : ℕ) (v : Bool)
    → LeadsAt n i c dev k
    → LeadsAt (with_dest n i' c' (with_protocol p v)) i c dev k
with_protocol-LeadsAt n i c i' c' p dev k v (d, e, l) = elim (Bool-cases ((i' == i) && (c' == c))) [
  | inr f ↦ (d, ground (arith, find_dest-with_dest n i' c' i c (with_protocol p v)), l)
  | inl f ↦
      let (same_i, same_c) : (i' ≡ i) × (c' ≡ c) = (ground arith, ground arith) in
      (
        with_protocol p v d,
        find_dest-with_dest n i' c' i c (with_protocol p v) ∙ rw (f, same_i, same_c, e) refl,
        record { to_dev = l.to_dev; to_cport = l.to_cport },
      )
]

join_route-LeadsAt :
    (get_protocol : ℕ → Option (ℕ → Errno × ℕ)) (n : Network) (i c j k x y : ℕ) (a b : Bool)
    (d : Dest)
    → find_dest n i c ≡ some d
    → (join_route get_protocol n i c j k x y a b).1 ≡ success
    → LeadsAt (join_route get_protocol n i c j k x y a b).0 i c (some y) k
unfolding join_route
join_route-LeadsAt get_protocol n i c j k x y a b d e h =
    let f : Dest → Dest = λ d. record d { cport = k; dev = some y } in
    let l : LeadsAt (with_dest n i c f) i c (some y) k = (
      f d,
      ground (arith, find_dest-with_dest n i c i c f),
      record { to_dev = refl; to_cport = refl },
    ) in
    elim (Option-cases (get_protocol x)) [
      | inl g ↦ rw (g, join_route) l
      | inr (get, g) ↦
          rw (g, join_route)
            (answered (with_dest n i c f) (get c).0 (get c).0 (get c).1 l refl
              (rw (g, join_route) at h))
    ]
  where
    answered :
        (n1 : Network) (r s : Errno) (p : ℕ)
        → LeadsAt n1 i c (some y) k
        → r ≡ s
        → let out : Network × Errno = elim r [
          | success ↦ (
            with_dest
                (with_dest n1 i c (with_protocol p (filter_present n1.filters p)))
                j
                k
                (with_protocol p (filter_present n1.filters p)),
            success,
          )
          | _ ↦ (undo_dest (undo_dest n1 j k b) i c a, s)
        ] in
          out.1 ≡ success → LeadsAt out.0 i c (some y) k
    answered n1 success s p l q h =
        with_protocol-LeadsAt _ i c j k p (some y) k _
          (with_protocol-LeadsAt n1 i c i c p (some y) k _ l)
    answered n1 _ s p l q h = absurd (cc)

-- An entry that was asked for is there.
pub needed :
    (n n1 : Network) (i c : ℕ) (a p : Bool) (x : ℕ)
    → get_dl_device n i ≡ some x
    → need_dest n i c a ≡ some (n1, p)
    → (d : Dest) × (find_dest n1 i c ≡ some d)
needed n n1 i c a p x e q = elim (find_dest-need_self n n1 i c a p x e q) [
  | inl (_, m) ↦ (empty_dest, m)
  | inr (d, m, s) ↦ (d, rw s m)
]

-- What a successful call of `add_route` went through
pub add_route-LeadsAt :
    (get_protocol : ℕ → Option (ℕ → Errno × ℕ)) (n : Network) (i c j k dev : ℕ) (a b : Bool)
    → get_dl_device n j ≡ some dev
    → (add_route get_protocol n i c j k a b).1 ≡ success
    → LeadsAt (add_route get_protocol n i c j k a b).0 i c (some dev) k
unfolding add_route
add_route-LeadsAt get_protocol n i c j k dev a b g h = elim (Option-cases (get_dl_device n i)) [
  | inl e ↦ absurd (ground arith)
  | inr (x, e) ↦ elim (Option-cases (need_dest n i c a)) [
    | inl q ↦ absurd (ground arith)
    | inr ((n1, p), q) ↦ elim (Option-cases (need_dest n1 j k b)) [
      | inl r ↦ absurd (ground arith)
      | inr ((n2, s), r) ↦
          let (d, at) : (d : Dest) × (find_dest n1 i c ≡ some d) = needed n n1 i c a p x e q in
          rw (e, g, q, r, add_route)
            (join_route-LeadsAt get_protocol n2 i c j k x dev p s d
              (find_dest-need_keeps n1 n2 j k b s i c d r at) (rw (e, g, q, r, add_route) at h))
    ]
  ]
]

-- A filter is on a protocol and a message type.
abbrev pub On : ℕ → ℕ → Filter → Type 0
On protocol type f = (f.protocol_id ≡ protocol) × (f.type ≡ type)

-- The message at a CPort of an interface goes on to a device: by itself, which its CPort asks for or no registered
-- filter is on its CPort's protocol and its type, or else once a registered filter on both has seen it, whose answer
-- decides.
abbrev pub SentOn :
    (Filter → ℕ → Message → Errno)
    → (ℕ → Message → Errno)
    → Network
    → ℕ
    → ℕ
    → ℕ
    → Message
    → Switched
    → Type 0
SentOn handle message_send n i c dev m out =
    (d : Dest) × (find_dest n i c ≡ some d)
    × (((out ≡ returned (message_send dev m) (send dev m ∷ []))
          × ((d.filter ≡ false) ⊎ All (λ (f : Filter). ¬ (On d.protocol_id m.type f)) n.filters))
        ⊎ ((f : Filter) × In f n.filters
            × On d.protocol_id m.type f
            × (out ≡ after_filter handle message_send f dev m (handle f dev m))))

find_filter-On :
    (fs : List Filter) (p t : ℕ) (f : Filter) → find_filter fs p t ≡ some f → In f fs × On p t f
unfolding find_filter
find_filter-On [] p t f h = absurd (cc)
find_filter-On (g ∷ fs) p t f h = elim (Bool-cases ((g.protocol_id == p) && (g.type == t))) [
  | inl y ↦
      let same : g ≡ f =
        ap (λ (o : Option Filter). get_filter g o)
          (sym (ap (λ c. if c then some g else find_filter fs p t) y) ∙ h) in
      subst (λ f. In f (g ∷ fs) × On p t f) same (inl refl, (ground arith, ground arith))
  | inr y ↦
      let (i, o) =
        find_filter-On fs p t f (sym (ap (λ c. if c then some g else find_filter fs p t) y) ∙ h) in
      (inr i, o)
]
  where
    get_filter : Filter → Option Filter → Filter
    get_filter g none = g
    get_filter g (some f) = f

find_filter-none :
    (fs : List Filter) (p t : ℕ) → find_filter fs p t ≡ none → All (λ (f : Filter). ¬ (On p t f)) fs
unfolding find_filter
find_filter-none [] p t h = tt
find_filter-none (g ∷ fs) p t h = elim (Bool-cases ((g.protocol_id == p) && (g.type == t))) [
  | inl y ↦ absurd (let e = sym (ap (λ c. if c then some g else find_filter fs p t) y) ∙ h in cc)
  | inr y ↦ (
    λ o. absurd (ground (arith, o.0, o.1)),
    find_filter-none fs p t (sym (ap (λ c. if c then some g else find_filter fs p t) y) ∙ h),
  )
]

pub forward-SentOn :
    (handle : Filter → ℕ → Message → Errno) (message_send : ℕ → Message → Errno) (n : Network)
    (i c : ℕ) (m : Message) (dev k : ℕ) (d : Dest)
    → find_dest n i c ≡ some d
    → Leads (some dev) k d
    → SentOn handle message_send n i c dev
        (record m { cport = k })
        (forward handle message_send n d m)
unfolding forward
forward-SentOn handle message_send n i c m dev k d at l =
    let e = l.to_dev in
    let q = l.to_cport in
    (
      d,
      at,
      elim (Bool-cases d.filter) [
        | inr f ↦ inl (ground arith, inl f)
        | inl f ↦ elim (Option-cases (find_filter n.filters d.protocol_id m.type)) [
          | inl r ↦ inl (ground arith, inr (find_filter-none n.filters d.protocol_id m.type r))
          | inr (g, r) ↦
              let (inside, on) = find_filter-On n.filters d.protocol_id m.type g r in
              inr (g, inside, on, ground arith)
        ]
      ],
    )
