-- ===== src/Nw/Calls.antt =====
-- The sequences of calls of mods_nw.c that do not overlap, and what holds after each of them. `list_lock` is not held
-- over a whole call, so calls that overlap are not covered.
use motorola_external_greybu.Prelude.{
  ℕ, ◌≡◌, inl, inr, sym, subst, Bool, true, Option, some, [], arith, Option-cases,
}
use motorola_external_greybu.Prelude.Errno.{Errno}
use motorola_external_greybu.Prelude.Maps.{lookup, lookup-insert, lookup-erase}
use motorola_external_greybu.Nw.Defs.{
  Network, Dest, Filter, find_dest, with_tree, undo_dest, add_route, del_route, register_filter,
  unregister_filter, add_dl_device, del_dl_device,
}
use motorola_external_greybu.Nw.Entries.{find_dest-undo_dest}
use motorola_external_greybu.Nw.Filters.{
  FlagsMatch, add_route-FlagsMatch, register_filter-FlagsMatch, unregister_filter-FlagsMatch,
  listed,
}

-- One call from its start to its end. A filter is unregistered as it stands in the list, since the list holds its
-- address.
pub data Step (n : Network) : Network → Type 0 where
  adds_device : (dev intf : ℕ) (alloc : Bool) → Step n (add_dl_device n dev intf alloc).0
  deletes_device : (intf : ℕ) → Step n (del_dl_device n intf)
  adds_route :
      (get_protocol : ℕ → Option (ℕ → Errno × ℕ)) (from_intf from_cport to_intf to_cport : ℕ)
      (alloc1 alloc2 : Bool)
      → Step n (add_route get_protocol n from_intf from_cport to_intf to_cport alloc1 alloc2).0
  deletes_route : (from_intf from_cport : ℕ) → Step n (del_route n from_intf from_cport)
  registers : (f : Filter) → Step n (register_filter n f).0
  unregisters : (f : Filter) → listed f.number n.filters ≡ some f → Step n (unregister_filter n f).0

pub data Reach : Network → Type 0 where
  start : Reach (record { filters = []; interfaces = [] })
  next : {n m : Network} → Reach n → Step n m → Reach m

-- Fewer entries keep the flags right.
abbrev Fewer : Network → Network → Type 0
Fewer n m =
    (m.filters ≡ n.filters)
    × ((i c : ℕ) (d : Dest) → find_dest m i c ≡ some d → find_dest n i c ≡ some d)

Fewer-FlagsMatch : (n m : Network) → Fewer n m → FlagsMatch n.filters n → FlagsMatch m.filters m
unfolding find_dest
Fewer-FlagsMatch n m (e, h) v = rw e (λ i c d k. v i c d (h i c d k))

del_route-Fewer : (n : Network) (i c : ℕ) → Fewer n (del_route n i c)
unfolding del_route undo_dest
del_route-Fewer n i c =
    (unfold with_tree in ground arith, (λ i' c' d k. find_dest-undo_dest n i c true i' c' d k))

add_dl_device-Fewer :
    (n : Network) (dev intf : ℕ) (alloc : Bool) → Fewer n (add_dl_device n dev intf alloc).0
unfolding add_dl_device find_dest
add_dl_device-Fewer n dev intf alloc = (ground arith, (λ i c d k. entries i c d k))
  where
    entries :
        (i c : ℕ) (d : Dest)
        → find_dest (add_dl_device n dev intf alloc).0 i c ≡ some d
        → find_dest n i c ≡ some d
    entries i c d k = elim (Option-cases (lookup intf n.interfaces)) [
      | inr (s, e) ↦ ground arith
      | inl e ↦
          unfold lookup in
          ground (arith, lookup-insert intf i (record { dev = dev; tree = [] }) n.interfaces)
    ]

del_dl_device-Fewer : (n : Network) (intf : ℕ) → Fewer n (del_dl_device n intf)
unfolding del_dl_device find_dest
del_dl_device-Fewer n intf =
    (ground arith, (λ i c d k. ground (arith, lookup-erase intf i n.interfaces)))

Step-FlagsMatch : {n m : Network} → Step n m → FlagsMatch n.filters n → FlagsMatch m.filters m
Step-FlagsMatch {n} (adds_device dev intf alloc) v =
    Fewer-FlagsMatch n _ (add_dl_device-Fewer n dev intf alloc) v
Step-FlagsMatch {n} (deletes_device intf) v = Fewer-FlagsMatch n _ (del_dl_device-Fewer n intf) v
Step-FlagsMatch {n} (adds_route get_protocol i c j k a b) v =
    let (w, e) = add_route-FlagsMatch get_protocol n i c j k a b v in
    subst (λ fs. FlagsMatch fs (add_route get_protocol n i c j k a b).0) (sym e) w
Step-FlagsMatch {n} (deletes_route i c) v = Fewer-FlagsMatch n _ (del_route-Fewer n i c) v
Step-FlagsMatch {n} (registers f) v = register_filter-FlagsMatch n f v
Step-FlagsMatch {n} (unregisters f l) v = unregister_filter-FlagsMatch n f l v

-- After any sequence of calls, each of which ends before the next one starts, that add and delete devices and routes,
-- register filters and unregister them as they were registered, every route end whose protocol is known is flagged for
-- filtering exactly if a filter on that protocol is registered.
pub Reach-FlagsMatch : {n : Network} → Reach n → FlagsMatch n.filters n
unfolding find_dest lookup
Reach-FlagsMatch start = λ i c d k. absurd (cc)
Reach-FlagsMatch (next r s) = Step-FlagsMatch s (Reach-FlagsMatch r)
