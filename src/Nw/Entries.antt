-- ===== src/Nw/Entries.antt =====
-- How each change of the network shows in its entries.
use motorola_external_greybu.Prelude.{
  ℕ, ◌≡◌, ◌⊎◌, inl, inr, Bool, true, false, Option, none, some, List, arith, Option-cases, ◌==◌,
  ◌&&◌, if◌then◌else◌,
}
use motorola_external_greybu.Prelude.Maps.{
  lookup, insert, erase, map_values, lookup-insert, lookup-erase, lookup-map_values,
}
use motorola_external_greybu.Nw.Defs.{
  Network, CportSet, Dest, empty_dest, find_dest, with_tree, with_dest, undo_dest, need_dest,
  set_filter, set_dest, get_dl_device,
}
use mathlib.Core.Option

-- The entry of a tree that stands at an interface.
abbrev tree_dest : Network → ℕ → ℕ → (List (ℕ × Dest) → List (ℕ × Dest)) → Option Dest
tree_dest n i c g = elim (lookup i n.interfaces) [ none ↦ none | some set ↦ lookup c (g set.tree) ]

pub find_dest-with_tree :
    (n : Network) (i i' c' : ℕ) (g : List (ℕ × Dest) → List (ℕ × Dest))
    → find_dest (with_tree n i g) i' c'
      ≡ (if i == i' then tree_dest n i c' g else find_dest n i' c')
unfolding find_dest with_tree
find_dest-with_tree n i i' c' g = elim (Option-cases (lookup i n.interfaces)) [
  | inl e ↦ ground arith
  | inr (set, e) ↦
      ground (arith, lookup-insert i i' (record set { tree = g set.tree }) n.interfaces)
]

-- A change of one entry shows at that entry only.
pub find_dest-with_dest :
    (n : Network) (i c i' c' : ℕ) (f : Dest → Dest)
    → find_dest (with_dest n i c f) i' c'
      ≡ (if (i == i') && (c == c') then Option.map f (find_dest n i c) else find_dest n i' c')
unfolding with_dest find_dest
find_dest-with_dest n i c i' c' f = elim (Option-cases (lookup i n.interfaces)) [
  | inl e ↦ ground (
    arith,
    find_dest-with_tree n i i' c'
        (λ tree. elim (lookup c tree) [ none ↦ tree | some d ↦ insert c (f d) tree ]),
  )
  | inr (set, e) ↦ elim (Option-cases (lookup c set.tree)) [
    | inl k ↦ ground (
      arith,
      find_dest-with_tree n i i' c'
          (λ tree. elim (lookup c tree) [ none ↦ tree | some d ↦ insert c (f d) tree ]),
    )
    | inr (d, k) ↦ ground (
      arith,
      find_dest-with_tree n i i' c'
          (λ tree. elim (lookup c tree) [ none ↦ tree | some d ↦ insert c (f d) tree ]),
      lookup-insert c c' (f d) set.tree,
    )
  ]
]

-- The filter's change shows at every entry.
pub find_dest-set_filter :
    (n : Network) (p : ℕ) (v : Bool) (i c : ℕ)
    → find_dest (set_filter n p v) i c ≡ Option.map (set_dest p v) (find_dest n i c)
unfolding find_dest set_filter
find_dest-set_filter n p v i c = elim (Option-cases (lookup i n.interfaces)) [
  | inl e ↦ ground (
    arith,
    lookup-map_values (λ (set : CportSet). record set { tree = map_values (set_dest p v) set.tree })
        i n.interfaces,
  )
  | inr (set, e) ↦ ground (
    arith,
    lookup-map_values (λ (set : CportSet). record set { tree = map_values (set_dest p v) set.tree })
        i n.interfaces,
    lookup-map_values (set_dest p v) c set.tree,
  )
]

-- An entry that is there after one was taken out was there before.
pub find_dest-undo_dest :
    (n : Network) (i c : ℕ) (b : Bool) (i' c' : ℕ) (d : Dest)
    → find_dest (undo_dest n i c b) i' c' ≡ some d
    → find_dest n i' c' ≡ some d
unfolding undo_dest find_dest
find_dest-undo_dest n i c false i' c' d h = h
find_dest-undo_dest n i c true i' c' d h = elim (Option-cases (lookup i n.interfaces)) [
  | inl e ↦ ground (arith, find_dest-with_tree n i i' c' (erase c))
  | inr (set, e) ↦
      ground (arith, find_dest-with_tree n i i' c' (erase c), lookup-erase c c' set.tree)
]

-- An entry that is there after one was asked for was there before, or is new and empty.
pub find_dest-need_dest :
    (n n' : Network) (i c : ℕ) (a b : Bool) (i' c' : ℕ) (d : Dest)
    → need_dest n i c a ≡ some (n', b)
    → find_dest n' i' c' ≡ some d
    → (find_dest n i' c' ≡ some d) ⊎ (d ≡ empty_dest)
unfolding need_dest find_dest
find_dest-need_dest n n' i c a b i' c' d e h = elim (Option-cases (lookup i n.interfaces)) [
  | inl k ↦ ground (arith, find_dest-with_tree n i i' c' (insert c empty_dest))
  | inr (set, k) ↦ elim (Option-cases (lookup c set.tree)) [
    | inr (x, m) ↦ inl (ground arith)
    | inl m ↦ ground (
      arith,
      find_dest-with_tree n i i' c' (insert c empty_dest),
      lookup-insert c c' empty_dest set.tree,
    )
  ]
]

-- The filters are no part of the tree.
pub filters-with_dest :
    (n : Network) (i c : ℕ) (f : Dest → Dest) → (with_dest n i c f).filters ≡ n.filters
unfolding with_dest with_tree
filters-with_dest n i c f = ground arith

pub filters-undo_dest : (n : Network) (i c : ℕ) (b : Bool) → (undo_dest n i c b).filters ≡ n.filters
unfolding undo_dest with_tree
filters-undo_dest n i c b = ground arith

pub filters-need_dest :
    (n n' : Network) (i c : ℕ) (a b : Bool)
    → need_dest n i c a ≡ some (n', b)
    → n'.filters ≡ n.filters
unfolding need_dest with_tree
filters-need_dest n n' i c a b h = ground arith

-- The entry that was asked for is there, as before or empty.
pub find_dest-need_self :
    (n n' : Network) (i c : ℕ) (a b : Bool) (dev : ℕ)
    → get_dl_device n i ≡ some dev
    → need_dest n i c a ≡ some (n', b)
    → ((find_dest n i c ≡ none) × (find_dest n' i c ≡ some empty_dest))
      ⊎ ((d : Dest) × (find_dest n i c ≡ some d) × (n' ≡ n))
unfolding need_dest find_dest get_dl_device
find_dest-need_self n n' i c a b dev g h = elim (Option-cases (lookup i n.interfaces)) [
  | inl k ↦ absurd (ground arith)
  | inr (set, k) ↦ elim (Option-cases (lookup c set.tree)) [
    | inr (x, m) ↦ inr (x, ground arith, ground arith)
    | inl m ↦ inl (
      ground arith,
      ground (
        arith,
        find_dest-with_tree n i i c (insert c empty_dest),
        lookup-insert c c empty_dest set.tree,
      ),
    )
  ]
]

-- Asking for an entry changes no entry that is there.
pub find_dest-need_keeps :
    (n n' : Network) (i c : ℕ) (a b : Bool) (i' c' : ℕ) (d : Dest)
    → need_dest n i c a ≡ some (n', b)
    → find_dest n i' c' ≡ some d
    → find_dest n' i' c' ≡ some d
unfolding need_dest find_dest
find_dest-need_keeps n n' i c a b i' c' d e h = elim (Option-cases (lookup i n.interfaces)) [
  | inl k ↦ ground (arith, find_dest-with_tree n i i' c' (insert c empty_dest))
  | inr (set, k) ↦ elim (Option-cases (lookup c set.tree)) [
    | inr (x, m) ↦ ground arith
    | inl m ↦ ground (
      arith,
      find_dest-with_tree n i i' c' (insert c empty_dest),
      lookup-insert c c' empty_dest set.tree,
    )
  ]
]
