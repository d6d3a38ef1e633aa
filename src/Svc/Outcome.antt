-- ===== src/Svc/Outcome.antt =====
-- What a hotplug request leaves.
use motorola_external_greybu.Prelude.{
  ℕ, ◌≡◌, ◌≢◌, ◌≤◌, ◌<◌, ◌⊎◌, refl, ap, ◌∙◌, sym, subst, inl, inr, Bool, true, false, Option, none,
  some, Option-cases, Bool-cases, List, ◌∷◌, ltb, leb, if◌then◌else◌, All, get_or, arith,
}
use motorola_external_greybu.Prelude.Errno.{Errno, failed}
use motorola_external_greybu.Connection.Create.{IdaLaw, remove_id-took}
use motorola_external_greybu.Connection.{remove_id}
use motorola_external_greybu.Interface.{
  Interface, InitAnswers, device_id_bad, interface_find, interface_remove, interface_create,
  interface_init, init_sized, init_parsed,
}
use motorola_external_greybu.Svc.Interfaces.{Svc, intf_remove, route_destroy}
use motorola_external_greybu.Svc.Hotplug.{
  HotplugAnswers, device_id_modules_start, ida_max, hotplug_removed, hotplug_route, hotplug_device,
  hotplug_created, process_intf_hotplug, process_intf_hot_unplug, init_first, destroy_route,
  read_and_clear_module_boot_status,
}
use motorola_external_greybu.Svc.Lists.{ids, usable}
use motorola_external_greybu.Svc.Routed.{Routed, Routed-plugged, Routed-undone, Routed-stays}
use motorola_external_greybu.Svc.Consistent.{Consistent, Holds, hotplug_removed-Holds}

interface_remove-head :
    (i : ℕ) (x : Interface) (rest : List Interface)
    → x.interface_id ≡ i
    → interface_remove i (x ∷ rest) ≡ rest
unfolding interface_remove
interface_remove-head i x rest e = ground arith

-- An initialisation changes neither id.
interface_init-ids :
    (a : InitAnswers) (device_id : ℕ) (x : Interface)
    → ((interface_init a device_id x).0.interface_id ≡ x.interface_id)
      × ((interface_init a device_id x).0.device_id ≡ device_id)
unfolding interface_init init_sized init_parsed
interface_init-ids a device_id x = ground arith

-- The route to an interface was never made, or is gone, or stays since the SVC has failed to destroy it, as is logged.
abbrev pub RouteUndone : ℕ → Svc → Svc → Type 0
RouteUndone i s r =
    ((r.routes ≡ s.routes) × (r.undestroyed ≡ s.undestroyed))
    ⊎ ((r.routes ≡ remove_id i s.routes) × (r.undestroyed ≡ s.undestroyed))
    ⊎ ((r.routes ≡ i ∷ s.routes) × (r.undestroyed ≡ i ∷ s.undestroyed))

-- What a hotplug request leaves, where the first state is the one without the interface: nothing but a route that
-- could not be destroyed and an id that no interface can have, or the interface with its route and its device id.
abbrev pub Unplugged : ℕ → Svc → Svc → Type 0
Unplugged i s r =
    (r.state ≡ s.state)
    × (r.interfaces ≡ s.interfaces)
    × RouteUndone i s r
    × ((r.device_id_map ≡ s.device_id_map)
        ⊎ ((n : ℕ) × (device_id_bad ≤ n)
            × All (λ m. m ≢ n) s.device_id_map
            × (r.device_id_map ≡ n ∷ s.device_id_map)))

abbrev pub Plugged : ℕ → Svc → Svc → Type 0
Plugged i s r =
    (intf : Interface) × (intf.interface_id ≡ i)
    × (r.state ≡ s.state)
    × (r.interfaces ≡ intf ∷ s.interfaces)
    × (r.routes ≡ i ∷ s.routes)
    × (r.undestroyed ≡ s.undestroyed)
    × (r.device_id_map ≡ intf.device_id ∷ s.device_id_map)
    × All (λ m. m ≢ intf.device_id) s.device_id_map
    × (device_id_modules_start ≤ intf.device_id)
    × (intf.device_id < device_id_bad)

abbrev pub Outcome : ℕ → Svc → Svc → Type 0
Outcome i s r = Plugged i s r ⊎ Unplugged i s r

if-Outcome :
    (b : Bool) (i : ℕ) (s r t : Svc)
    → (b ≡ true → Outcome i s r)
    → (b ≡ false → Outcome i s t)
    → Outcome i s (if b then r else t)
if-Outcome true i s r t f g = f refl
if-Outcome false i s r t f g = g refl

module _ (ida_get : List ℕ → ℕ → ℕ → Option ℕ) (law : IdaLaw ida_get) (a : HotplugAnswers) (i : ℕ)
    (s : Svc) (h : Holds s) (away : All (λ m. m ≢ i) (ids s.interfaces)) where
  again : remove_id i (i ∷ s.routes) ≡ remove_id i s.routes
  unfolding remove_id
  again = ground arith

  -- A failure after the route was made
  destroyed-Unplugged :
      (ret : Errno) (d : ℕ) (x : Interface)
      → x.interface_id ≡ i
      → All (λ m. m ≢ d) s.device_id_map
      → Unplugged i s (
          destroy_route ret i d (record s {
            interfaces = x ∷ s.interfaces;
            routes = i ∷ s.routes;
            device_id_map = d ∷ s.device_id_map;
          }))
  unfolding destroy_route route_destroy
  destroyed-Unplugged ret d x e free =
      let freed = remove_id-took d s.device_id_map free in
      let head = interface_remove-head i x s.interfaces e in
      elim (Bool-cases (failed ret)) [
        | inl y ↦
            rw (y, destroy_route, route_destroy) (refl, head, inr (inr (refl, refl)), inl freed)
        | inr y ↦
            rw (y, destroy_route, route_destroy) (refl, head, inr (inl (again, refl)), inl freed)
      ]

  hotplug_route-Outcome :
      (d : ℕ) (x : Interface)
      → x.interface_id ≡ i
      → All (λ m. m ≢ d) s.device_id_map
      → device_id_modules_start ≤ d
      → d < device_id_bad
      → Outcome i s (
          hotplug_route ida_get a i d
            (record s { interfaces = x ∷ s.interfaces; device_id_map = d ∷ s.device_id_map }))
  unfolding hotplug_route init_first
  hotplug_route-Outcome d x e free lo hi =
      let x' = (interface_init a.init d x).0 in
      let (same, given) = interface_init-ids a.init d x in
      let freed = remove_id-took d s.device_id_map free in
      if-Outcome (failed a.route_create) i s _ _
        (λ y. inr (refl, interface_remove-head i x s.interfaces e, inl (refl, refl), inl freed))
        (λ y.
          if-Outcome (failed (interface_init a.init d x).1) i s _ _
            (λ z. inr (destroyed-Unplugged a.route_destroy d x' (same ∙ e) free))
            (λ z. inl (
              x',
              same ∙ e,
              refl,
              refl,
              refl,
              refl,
              ap (λ n. n ∷ s.device_id_map) (sym given),
              subst (λ n. All (λ m. m ≢ n) s.device_id_map) (sym given) free,
              ground arith,
              ground arith,
            )))

  -- The search for a device id
  hotplug_id-Outcome :
      (x : Interface) (found : Option ℕ)
      → x.interface_id ≡ i
      → ida_get s.device_id_map device_id_modules_start ida_max ≡ found
      → Outcome i s (hotplug_device ida_get a i (record s { interfaces = x ∷ s.interfaces }))
  unfolding hotplug_device
  hotplug_id-Outcome x none e f =
      rw (f, hotplug_device)
        (inr (refl, interface_remove-head i x s.interfaces e, inl (refl, refl), inl refl))
  hotplug_id-Outcome x (some d) e f =
      let free = law.free _ _ _ d f in
      let lo = law.above _ _ _ d f in
      rw (f, hotplug_device)
        (if-Outcome (leb device_id_bad d) i s _ _
          (λ y. inr (
            refl,
            interface_remove-head i x s.interfaces e,
            inl (refl, refl),
            inr (d, ground arith, free, refl),
          ))
          (λ y.
            if-Outcome (failed a.intf_device_id) i s _ _
              (λ z. inr (
                refl,
                interface_remove-head i x s.interfaces e,
                inl (refl, refl),
                inl (remove_id-took d s.device_id_map free),
              ))
              (λ z. hotplug_route-Outcome d x e free lo (ground arith))))

  hotplug_created-Outcome :
      (payload : List ℕ) (x : Interface)
      → x.interface_id ≡ i
      → Outcome i s
          (hotplug_created ida_get a payload i (record s { interfaces = x ∷ s.interfaces }))
  unfolding hotplug_created
  hotplug_created-Outcome payload x e =
      if-Outcome (failed (read_and_clear_module_boot_status a).1) i s _ _
        (λ y. inr (refl, interface_remove-head i x s.interfaces e, inl (refl, refl), inl refl))
        (λ y. hotplug_id-Outcome _ _ e refl)

  -- The creation, which fails or puts an interface in front.
  process-Outcome :
      (payload : List ℕ) (alloc control : Bool)
      → Outcome i s (elim (interface_create alloc control s.interfaces i) [
        | none ↦ s
        | some interfaces ↦
            hotplug_created ida_get a payload i (record s { interfaces = interfaces })
      ])
  unfolding interface_create
  process-Outcome payload false control = inr (refl, refl, inl (refl, refl), inl refl)
  process-Outcome payload true false = inr (refl, refl, inl (refl, refl), inl refl)
  process-Outcome payload true true = hotplug_created-Outcome payload _ refl

pub process_intf_hotplug-Outcome :
    (ida_get : List ℕ → ℕ → ℕ → Option ℕ)
    → IdaLaw ida_get
    → (a : HotplugAnswers) (payload : List ℕ) (s : Svc) → Holds s
    → Outcome
        (get_or payload 0 0)
        (hotplug_removed a.remove_destroy (get_or payload 0 0) s)
        (process_intf_hotplug ida_get a payload s)
unfolding process_intf_hotplug
process_intf_hotplug-Outcome ida_get law a payload s h =
    let i = get_or payload 0 0 in
    let (held, away) = hotplug_removed-Holds a.remove_destroy i s h in
    process-Outcome ida_get law a i (hotplug_removed a.remove_destroy i s) held away payload a.alloc
      a.control_create

pub Consistent-subst :
    {is js : List Interface} {rs qs us vs ms ns : List ℕ}
    → js ≡ is
    → qs ≡ rs
    → vs ≡ us
    → ns ≡ ms
    → Consistent is rs us ms
    → Consistent js qs vs ns
Consistent-subst e f u g h = rw (e, f, u, g) h

-- The routes and the ids after a hotplug request that failed
RouteUndone-Routed :
    (i : ℕ) (s r : Svc)
    → Holds s
    → All (λ m. m ≢ i) (ids s.interfaces)
    → RouteUndone i s r
    → Routed (ids s.interfaces) r.routes r.undestroyed
RouteUndone-Routed i s r h away (inl (rs, us)) = rw (rs, us) h.routed
RouteUndone-Routed i s r h away (inr (inl (rs, us))) =
    rw (rs, us) (Routed-undone i (ids s.interfaces) s.routes s.undestroyed h.routed away)
RouteUndone-Routed i s r h away (inr (inr (rs, us))) =
    rw (rs, us) (Routed-stays i (ids s.interfaces) s.routes s.undestroyed h.routed)

-- What is left of a consistent state is consistent.
Outcome-Holds :
    (i : ℕ) (s r : Svc) → Holds s → All (λ m. m ≢ i) (ids s.interfaces) → Outcome i s r → Holds r
Outcome-Holds i s r h away (inl (intf, same, st, is, rs, us, ms, free, lo, hi)) =
    let usable_id : ltb intf.device_id device_id_bad ≡ true = ground arith in
    Consistent-subst is rs us ms (record {
      routed =
          subst (λ j. Routed (j ∷ ids s.interfaces) (i ∷ s.routes) s.undestroyed) (sym same)
            (Routed-plugged i (ids s.interfaces) s.routes s.undestroyed h.routed);
      used =
          ap
            (λ (b : Bool).
              if b then intf.device_id ∷ usable s.device_id_map else usable s.device_id_map)
            usable_id
          ∙ ap (λ l. intf.device_id ∷ l) h.used;
      distinct = (subst (λ j. All (λ m. m ≢ j) (ids s.interfaces)) (sym same) away, h.distinct);
      distinct_map = (free, h.distinct_map);
      modules = (lo, h.modules);
    })
Outcome-Holds i s r h away (inr (st, is, undone, inl ms)) =
    Consistent-subst is refl refl ms (record {
      routed = RouteUndone-Routed i s r h away undone;
      used = h.used;
      distinct = h.distinct;
      distinct_map = h.distinct_map;
      modules = h.modules;
    })
Outcome-Holds i s r h away (inr (st, is, undone, inr (n, bad, free, ms))) =
    let unusable : ltb n device_id_bad ≡ false = ground arith in
    Consistent-subst is refl refl ms (record {
      routed = RouteUndone-Routed i s r h away undone;
      used =
          ap (λ (b : Bool). if b then n ∷ usable s.device_id_map else usable s.device_id_map)
            unusable
          ∙ h.used;
      distinct = h.distinct;
      distinct_map = (free, h.distinct_map);
      modules = (omega arith, h.modules);
    })

pub process_intf_hotplug-Holds :
    (ida_get : List ℕ → ℕ → ℕ → Option ℕ)
    → IdaLaw ida_get
    → (a : HotplugAnswers) (payload : List ℕ) (s : Svc) → Holds s
    → Holds (process_intf_hotplug ida_get a payload s)
process_intf_hotplug-Holds ida_get law a payload s h =
    let i = get_or payload 0 0 in
    let (held, away) = hotplug_removed-Holds a.remove_destroy i s h in
    Outcome-Holds i (hotplug_removed a.remove_destroy i s)
      (process_intf_hotplug ida_get a payload s) held away
      (process_intf_hotplug-Outcome ida_get law a payload s h)

pub process_intf_hot_unplug-Holds :
    (ret : Errno) (payload : List ℕ) (s : Svc)
    → Holds s
    → Holds (process_intf_hot_unplug ret payload s)
unfolding process_intf_hot_unplug hotplug_removed
process_intf_hot_unplug-Holds ret payload s h =
    (hotplug_removed-Holds ret (get_or payload 0 0) s h).0

intf_remove-state :
    (ret : Errno) (s : Svc) (intf : Interface) → (intf_remove ret s intf).state ≡ s.state
unfolding intf_remove route_destroy
intf_remove-state ret s intf = ground arith

hotplug_removed-state : (ret : Errno) (i : ℕ) (s : Svc) → (hotplug_removed ret i s).state ≡ s.state
unfolding hotplug_removed
hotplug_removed-state ret i s = elim (Option-cases (interface_find s.interfaces i)) [
  | inl e ↦ rw (e, hotplug_removed) refl
  | inr (intf, e) ↦ rw (e, hotplug_removed) (intf_remove-state ret s intf)
]

pub process_intf_hotplug-state :
    (ida_get : List ℕ → ℕ → ℕ → Option ℕ)
    → IdaLaw ida_get
    → (a : HotplugAnswers) (payload : List ℕ) (s : Svc) → Holds s
    → (process_intf_hotplug ida_get a payload s).state ≡ s.state
process_intf_hotplug-state ida_get law a payload s h =
    elim (process_intf_hotplug-Outcome ida_get law a payload s h) [
      | inl p ↦ p.2 ∙ hotplug_removed-state a.remove_destroy (get_or payload 0 0) s
      | inr p ↦ p.0 ∙ hotplug_removed-state a.remove_destroy (get_or payload 0 0) s
    ]

pub process_intf_hot_unplug-state :
    (ret : Errno) (payload : List ℕ) (s : Svc)
    → (process_intf_hot_unplug ret payload s).state ≡ s.state
unfolding process_intf_hot_unplug hotplug_removed
process_intf_hot_unplug-state ret payload s = hotplug_removed-state ret (get_or payload 0 0) s
