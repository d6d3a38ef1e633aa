-- ===== src/Nw/Filters.antt =====
-- The filter flags of the routes: an entry whose protocol is known is flagged exactly if a filter on that
-- protocol is registered, after any sequence of calls.
use motorola_external_greybu.Prelude.{
  ℕ, ◌≡◌, ◌≢◌, inl, inr, refl, sym, Bool, true, false, Option, none, some, List, [], ◌∷◌, ◌++◌,
  arith, Option-cases, Bool-cases, ◌==◌, ◌&&◌, ◌||◌, if◌then◌else◌, ◌∙◌,
}
use motorola_external_greybu.Prelude.Errno.{Errno, success}
use motorola_external_greybu.Nw.Defs.{
  Network, Dest, Filter, filter_present, find_filter, find_dest, with_dest, undo_dest, need_dest,
  set_filter, set_dest, with_protocol, join_route, add_route, get_dl_device, register_filter,
  unregister_filter, drop_filter,
}
use motorola_external_greybu.Nw.Entries.{
  find_dest-with_dest, find_dest-set_filter, find_dest-undo_dest, find_dest-need_dest,
  filters-with_dest, filters-undo_dest, filters-need_dest,
}

abbrev pub Flagged : List Filter → Dest → Type 0
Flagged fs d = d.protocol_valid ≡ true → d.filter ≡ filter_present fs d.protocol_id

abbrev pub FlagsMatch : List Filter → Network → Type 0
FlagsMatch fs n = (i c : ℕ) (d : Dest) → find_dest n i c ≡ some d → Flagged fs d

with_dest-FlagsMatch :
    (fs : List Filter) (n : Network) (i c : ℕ) (f : Dest → Dest)
    → ((d : Dest) → Flagged fs d → Flagged fs (f d))
    → FlagsMatch fs n
    → FlagsMatch fs (with_dest n i c f)
with_dest-FlagsMatch fs n i c f keep v i' c' d h = elim (Bool-cases ((i == i') && (c == c'))) [
  | inr e ↦ v i' c' d (ground (arith, find_dest-with_dest n i c i' c' f))
  | inl e ↦ elim (Option-cases (find_dest n i c)) [
    | inl k ↦ absurd (ground (arith, find_dest-with_dest n i c i' c' f))
    | inr (x, k) ↦
        let same : f x ≡ d = ground (arith, find_dest-with_dest n i c i' c' f) in
        rw (← same) (keep x (v i c x k))
  ]
]

undo_dest-FlagsMatch :
    (fs : List Filter) (n : Network) (i c : ℕ) (b : Bool)
    → FlagsMatch fs n
    → FlagsMatch fs (undo_dest n i c b)
undo_dest-FlagsMatch fs n i c b v i' c' d h = v i' c' d (find_dest-undo_dest n i c b i' c' d h)

need_dest-FlagsMatch :
    (fs : List Filter) (n n' : Network) (i c : ℕ) (a b : Bool)
    → need_dest n i c a ≡ some (n', b)
    → FlagsMatch fs n
    → FlagsMatch fs n'
need_dest-FlagsMatch fs n n' i c a b e v i' c' d h =
    elim (find_dest-need_dest n n' i c a b i' c' d e h) [
      | inl k ↦ v i' c' d k
      | inr k ↦ rw k (λ z. absurd (cc))
    ]

with_protocol-Flagged :
    (fs : List Filter) (p : ℕ) (d : Dest) → Flagged fs (with_protocol p (filter_present fs p) d)
with_protocol-Flagged fs p d h = refl

join_route-FlagsMatch :
    (get_protocol : ℕ → Option (ℕ → Errno × ℕ)) (fs : List Filter) (n : Network) (i c j k x y : ℕ)
    (a b : Bool)
    → n.filters ≡ fs
    → FlagsMatch fs n
    → FlagsMatch fs (join_route get_protocol n i c j k x y a b).0
      × ((join_route get_protocol n i c j k x y a b).0.filters ≡ fs)
unfolding join_route
join_route-FlagsMatch get_protocol fs n i c j k x y a b e v =
    let n1 = with_dest n i c (λ d. record d { cport = k; dev = some y }) in
    let v1 : FlagsMatch fs n1 =
      with_dest-FlagsMatch fs n i c (λ d. record d { cport = k; dev = some y }) (λ d h. h) v in
    let e1 : n1.filters ≡ fs =
      filters-with_dest n i c (λ d. record d { cport = k; dev = some y }) ∙ e in
    elim (Option-cases (get_protocol x)) [
      | inl g ↦ rw (g, join_route) (v1, e1)
      | inr (get, g) ↦ rw (g, join_route) (answered n1 (get c).0 (get c).0 (get c).1 v1 e1)
    ]
  where
    answered :
        (n1 : Network) (r s : Errno) (p : ℕ)
        → FlagsMatch fs n1
        → n1.filters ≡ fs
        → let out : Network × Errno = elim r [
          | success ↦ (
            with_dest
                (with_dest n1 i c (with_protocol p (filter_present n1.filters p)))
                j
                k
                (with_protocol p (filter_present n1.filters p)),
            success,
          )
          | _ ↦ (undo_dest (undo_dest n1 j k b) i c a, s)
        ] in
          FlagsMatch fs out.0 × (out.0.filters ≡ fs)
    answered n1 success s p v e =
        let keep : (d : Dest)
            → Flagged fs d
            → Flagged fs (with_protocol p (filter_present n1.filters p) d) =
          λ d h. rw e (with_protocol-Flagged fs p d) in
        (
          with_dest-FlagsMatch fs _ j k _ keep (with_dest-FlagsMatch fs n1 i c _ keep v),
          filters-with_dest _ j k _ ∙ filters-with_dest n1 i c _ ∙ e,
        )
    answered n1 _ s p v e = (
      undo_dest-FlagsMatch fs _ i c a (undo_dest-FlagsMatch fs n1 j k b v),
      filters-undo_dest _ i c a ∙ filters-undo_dest n1 j k b ∙ e,
    )

pub add_route-FlagsMatch :
    (get_protocol : ℕ → Option (ℕ → Errno × ℕ)) (n : Network) (i c j k : ℕ) (a b : Bool)
    → FlagsMatch n.filters n
    → FlagsMatch n.filters (add_route get_protocol n i c j k a b).0
      × ((add_route get_protocol n i c j k a b).0.filters ≡ n.filters)
unfolding add_route
add_route-FlagsMatch get_protocol n i c j k a b v = elim (Option-cases (get_dl_device n i)) [
  | inl e ↦ rw (e, add_route) (v, refl)
  | inr (x, e) ↦ elim (Option-cases (get_dl_device n j)) [
    | inl f ↦ rw (e, add_route, f) (v, refl)
    | inr (y, f) ↦ elim (Option-cases (need_dest n i c a)) [
      | inl g ↦ rw (e, add_route, f, g) (v, refl)
      | inr ((n1, a1), g) ↦ elim (Option-cases (need_dest n1 j k b)) [
        | inl h ↦
            rw (e, add_route, f, g, h)
              (
                undo_dest-FlagsMatch n.filters n1 i c a1
                    (need_dest-FlagsMatch n.filters n n1 i c a a1 g v),
                filters-undo_dest n1 i c a1 ∙ filters-need_dest n n1 i c a a1 g,
              )
        | inr ((n2, b1), h) ↦
            rw (e, add_route, f, g, h)
              (join_route-FlagsMatch get_protocol n.filters n2 i c j k x y a1 b1
                (filters-need_dest n1 n2 j k b b1 h ∙ filters-need_dest n n1 i c a a1 g)
                (need_dest-FlagsMatch n.filters n1 n2 j k b b1 h
                  (need_dest-FlagsMatch n.filters n n1 i c a a1 g v)))
      ]
    ]
  ]
]

-- What the registration of a filter does to the test for a filter.
filter_present-append :
    (fs : List Filter) (g : Filter) (p : ℕ)
    → filter_present (fs ++ (g ∷ [])) p ≡ (filter_present fs p || (g.protocol_id == p))
unfolding filter_present
filter_present-append [] g p = ground arith
filter_present-append (f ∷ fs) g p = ground (arith, filter_present-append fs g p)

set_filter-FlagsMatch :
    (fs fs' : List Filter) (n : Network) (p : ℕ) (v : Bool)
    → filter_present fs' p ≡ v
    → ((q : ℕ) → q ≢ p → filter_present fs' q ≡ filter_present fs q)
    → FlagsMatch fs n
    → FlagsMatch fs' (set_filter n p v)
unfolding set_dest
set_filter-FlagsMatch fs fs' n p v here others m i c d h = elim (Option-cases (find_dest n i c)) [
  | inl k ↦ absurd (ground (arith, find_dest-set_filter n p v i c))
  | inr (x, k) ↦
      let same : set_dest p v x ≡ d = ground (arith, find_dest-set_filter n p v i c) in
      rw (← same) (one x (m i c x k))
]
  where
    one : (x : Dest) → Flagged fs x → Flagged fs' (set_dest p v x)
    one x f = elim (Bool-cases (x.protocol_id == p)) [
      | inl e ↦ ground (arith, f)
      | inr e ↦ ground (arith, f, others x.protocol_id)
    ]

-- The entries do not depend on the list of filters.
relisted :
    (fs fs' : List Filter) (n : Network)
    → ((q : ℕ) → filter_present fs' q ≡ filter_present fs q)
    → FlagsMatch fs n
    → FlagsMatch fs' (record n { filters = fs' })
unfolding find_dest
relisted fs fs' n same v i c d h = λ z. v i c d h z ∙ sym (same d.protocol_id)

changed :
    (fs fs' : List Filter) (n : Network) (p : ℕ) (b : Bool)
    → filter_present fs' p ≡ b
    → ((q : ℕ) → q ≢ p → filter_present fs' q ≡ filter_present fs q)
    → FlagsMatch fs n
    → FlagsMatch fs' (set_filter (record n { filters = fs' }) p b)
unfolding find_dest
changed fs fs' n p b here others v =
    set_filter-FlagsMatch fs fs' (record n { filters = fs' }) p b here others v

pub register_filter-FlagsMatch :
    (n : Network) (f : Filter)
    → FlagsMatch n.filters n
    → FlagsMatch (register_filter n f).0.filters (register_filter n f).0
unfolding register_filter set_filter
register_filter-FlagsMatch n f v =
    let g : Filter = record f { initialized = true } in
    let fs : List Filter = n.filters ++ (g ∷ []) in
    elim (Bool-cases f.initialized) [
      | inl e ↦ rw (e, register_filter) v
      | inr e ↦ elim (Option-cases (find_filter n.filters f.protocol_id f.type)) [
        | inr (h, k) ↦ rw (e, register_filter, k) v
        | inl k ↦ elim (Bool-cases (filter_present n.filters f.protocol_id)) [
          | inl p ↦
              rw (e, register_filter, k, p)
                (relisted n.filters fs n (λ q. ground (arith, filter_present-append n.filters g q))
                  v)
          | inr p ↦
              rw (e, register_filter, k, p)
                (changed n.filters fs n f.protocol_id true
                  (ground (arith, filter_present-append n.filters g f.protocol_id))
                  (λ q ne. ground (arith, filter_present-append n.filters g q)) v)
        ]
      ]
    ]

-- The filter that stands in the list at an address.
pub listed : ℕ → List Filter → Option Filter
listed k [] = none
listed k (f ∷ fs) = if f.number == k then some f else listed k fs

filter_present-drop :
    (fs : List Filter) (f : Filter) (q : ℕ)
    → listed f.number fs ≡ some f
    → q ≢ f.protocol_id
    → filter_present (drop_filter f.number fs) q ≡ filter_present fs q
unfolding filter_present drop_filter listed
filter_present-drop [] f q h ne = refl
filter_present-drop (g ∷ fs) f q h ne = elim (Bool-cases (g.number == f.number)) [
  | inl e ↦
      let same : g ≡ f = ground arith in rw (e, filter_present, drop_filter, same) (ground arith)
  | inr e ↦
      rw (e, filter_present, drop_filter)
        (ground (arith, filter_present-drop fs f q (rw (e, listed) at h) ne))
]

listed-present :
    (fs : List Filter) (k : ℕ) (f : Filter)
    → listed k fs ≡ some f
    → filter_present fs f.protocol_id ≡ true
unfolding filter_present listed
listed-present [] k f h = absurd (ground arith)
listed-present (g ∷ fs) k f h = ground (arith, listed-present fs k f)

pub unregister_filter-FlagsMatch :
    (n : Network) (f : Filter)
    → listed f.number n.filters ≡ some f
    → FlagsMatch n.filters n
    → FlagsMatch (unregister_filter n f).0.filters (unregister_filter n f).0
unfolding unregister_filter set_filter
unregister_filter-FlagsMatch n f l v =
    let fs : List Filter = drop_filter f.number n.filters in
    elim (Bool-cases f.initialized) [
      | inr e ↦ rw (e, unregister_filter) v
      | inl e ↦ elim (Bool-cases (filter_present fs f.protocol_id)) [
        | inl p ↦ rw (e, unregister_filter, p) (relisted n.filters fs n (λ q. same q p) v)
        | inr p ↦
            rw (e, unregister_filter, p)
              (changed n.filters fs n f.protocol_id false p
                (λ q ne. filter_present-drop n.filters f q l ne) v)
      ]
    ]
  where
    same :
        (q : ℕ)
        → filter_present (drop_filter f.number n.filters) f.protocol_id ≡ true
        → filter_present (drop_filter f.number n.filters) q ≡ filter_present n.filters q
    same q p = elim (Bool-cases (q == f.protocol_id)) [
      | inl e ↦
          let k : q ≡ f.protocol_id = ground arith in
          rw k (p ∙ sym (listed-present n.filters f.number f l))
      | inr e ↦ filter_present-drop n.filters f q l (ground arith)
    ]
