-- ===== src/Svc/Consistent.antt =====
-- What holds between two requests of the SVC, and the removal of an interface.
use motorola_external_greybu.Prelude.{
  ℕ, ◌≡◌, ◌≢◌, ◌≤◌, refl, Bool, true, false, if◌then◌else◌, ap, ◌∙◌, sym, subst, inl, inr, none,
  some, Option-cases, List, [], ◌∷◌, All, arith,
}
use motorola_external_greybu.Prelude.Errno.{Errno, failed}
use motorola_external_greybu.Connection.{remove_id}
use motorola_external_greybu.Connection.Create.{Distinct}
use motorola_external_greybu.Interface.{Interface, interface_find, interface_remove}
use motorola_external_greybu.Svc.Interfaces.{Svc, intf_remove, route_destroy}
use motorola_external_greybu.Svc.Hotplug.{device_id_modules_start, hotplug_removed}
use motorola_external_greybu.Svc.Routed.{Routed, Routed-left, Routed-removed}
use motorola_external_greybu.Svc.Lists.{
  ids, device_ids, usable, usable-remove_id, ids-interface_remove, device_ids-interface_remove,
  All-remove_id, Distinct-remove_id, Distinct-usable,
}

-- There is a route to each interface, and to anything else only if its destruction has failed; the ids in use that an
-- interface can have are those of the interfaces, which are distinct.
pub record Consistent (interfaces : List Interface) (routes undestroyed map : List ℕ) : Type 0 where
  pub routed : Routed (ids interfaces) routes undestroyed
  pub used : usable map ≡ device_ids interfaces
  pub distinct : Distinct (ids interfaces)
  pub distinct_map : Distinct map
  pub modules : All (λ n. device_id_modules_start ≤ n) map

abbrev pub Holds : Svc → Type 0
Holds s = Consistent s.interfaces s.routes s.undestroyed s.device_id_map

if-Holds :
    (b : Bool) (s t : Svc)
    → (b ≡ true → Holds s)
    → (b ≡ false → Holds t)
    → Holds (if b then s else t)
if-Holds true s t f g = f refl
if-Holds false s t f g = g refl

intf_remove-Holds :
    (ret : Errno) (s : Svc) (intf : Interface)
    → interface_find s.interfaces intf.interface_id ≡ some intf
    → Holds s
    → Holds (intf_remove ret s intf)
unfolding intf_remove route_destroy
intf_remove-Holds ret s intf e h =
    let i = intf.interface_id in
    let removed = ids-interface_remove i s.interfaces h.distinct in
    let freed =
      usable-remove_id intf.device_id s.device_id_map
      ∙ ap (remove_id intf.device_id) h.used
      ∙ sym (
          device_ids-interface_remove i s.interfaces intf
            (subst Distinct h.used (Distinct-usable s.device_id_map h.distinct_map)) e) in
    let apart = subst Distinct (sym removed) (Distinct-remove_id i (ids s.interfaces) h.distinct) in
    let apart_map = Distinct-remove_id intf.device_id s.device_id_map h.distinct_map in
    let all_modules = All-remove_id _ intf.device_id s.device_id_map h.modules in
    if-Holds (failed ret) _ _
      (λ y. record {
        routed =
            subst (λ l. Routed l s.routes (i ∷ s.undestroyed)) (sym removed)
              (Routed-left i (ids s.interfaces) s.routes s.undestroyed h.routed);
        used = freed;
        distinct = apart;
        distinct_map = apart_map;
        modules = all_modules;
      })
      (λ y. record {
        routed =
            subst (λ l. Routed l (remove_id i s.routes) s.undestroyed) (sym removed)
              (Routed-removed i (ids s.interfaces) s.routes s.undestroyed h.routed);
        used = freed;
        distinct = apart;
        distinct_map = apart_map;
        modules = all_modules;
      })

intf_remove-interfaces :
    (ret : Errno) (s : Svc) (intf : Interface)
    → (intf_remove ret s intf).interfaces ≡ interface_remove intf.interface_id s.interfaces
unfolding intf_remove route_destroy
intf_remove-interfaces ret s intf = ground arith

found-interface_id :
    (i : ℕ) (is : List Interface) (intf : Interface)
    → interface_find is i ≡ some intf
    → intf.interface_id ≡ i
unfolding interface_find
found-interface_id i [] intf e = absurd (ground arith)
found-interface_id i (x ∷ rest) intf e = ground (arith, found-interface_id i rest intf)

absent : (i : ℕ) (is : List Interface) → interface_find is i ≡ none → All (λ m. m ≢ i) (ids is)
unfolding interface_find
absent i [] e = tt
absent i (x ∷ rest) e = ground (arith, absent i rest)

remove_id-gone : (i : ℕ) (ns : List ℕ) → All (λ m. m ≢ i) (remove_id i ns)
unfolding remove_id
remove_id-gone i [] = tt
remove_id-gone i (m ∷ ms) = ground (arith, remove_id-gone i ms)

-- The interface is not there any more, and all else holds.
pub hotplug_removed-Holds :
    (ret : Errno) (i : ℕ) (s : Svc)
    → Holds s
    → Holds (hotplug_removed ret i s) × All (λ m. m ≢ i) (ids (hotplug_removed ret i s).interfaces)
unfolding hotplug_removed
hotplug_removed-Holds ret i s h = elim (Option-cases (interface_find s.interfaces i)) [
  | inl e ↦ rw (e, hotplug_removed) (h, absent i s.interfaces e)
  | inr (intf, e) ↦
      let same = found-interface_id i s.interfaces intf e in
      let held = intf_remove-Holds ret s intf (ap (interface_find s.interfaces) same ∙ e) h in
      let gone : All (λ m. m ≢ i) (ids (interface_remove i s.interfaces)) =
        subst (All (λ m. m ≢ i)) (sym (ids-interface_remove i s.interfaces h.distinct))
          (remove_id-gone i (ids s.interfaces)) in
      rw (e, hotplug_removed)
        (
          held,
          subst (λ l. All (λ m. m ≢ i) (ids l))
              (sym (
                intf_remove-interfaces ret s intf ∙ ap (λ j. interface_remove j s.interfaces) same))
              gone,
        )
]
