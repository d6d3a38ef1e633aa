-- ===== src/ModService/Restored.antt =====
-- What an attachment that fails, or that a detachment follows, leaves.
use motorola_external_greybu.Prelude.{
  ℕ, ◌≡◌, ◌≢◌, inl, inr, refl, ap, sym, ◌∙◌, Bool, true, false, Bool-cases, Option, none, List, [],
  ◌∷◌, ◌++◌, arith, ◌==◌, ◌&&◌, if◌then◌else◌,
}
use motorola_external_greybu.Prelude.Errno.{Errno, failed, success}
use motorola_external_greybu.Nw.Defs.{Network, Dest, find_dest}
use motorola_external_greybu.ModService.Routes.{
  PairAllocs, intf_svc, intf_ap, conn_create, conn_destroy, create_control_route,
  destroy_control_route,
}
use motorola_external_greybu.ModService.Requests.{Module, Service}
use motorola_external_greybu.ModService.Attach.{
  svc_vendor_ctrl_cport, vendor_ctrl_dest_cport, WorkAnswers, AttachAnswers, is_there, list_del,
  attach_done, attach_recovery, create_hotplug_work, attach_listed, dl_dev_attached,
  dl_dev_detached,
}
use motorola_external_greybu.ModService.Forwarding.{succeeded}
use motorola_external_greybu.ModService.Untouched.{
  conn_destroy-conn_create, conn_destroy-erases, conn_create-Alike,
}

list_del-append :
    (m : Module) (ms : List Module)
    → is_there m.intf_id ms ≡ false
    → list_del m.intf_id (ms ++ (m ∷ [])) ≡ ms
unfolding list_del is_there
list_del-append m [] e = ground arith
list_del-append m (x ∷ ms) e = ground (arith, list_del-append m ms)

clash : {A : Type 0} (r : Errno) → failed r ≡ true → r ≡ success → A
clash r x e = let f : true ≡ false = sym x ∙ ap failed e in absurd (cc)

unequal : (i n : ℕ) → i ≢ n → (i == n) ≡ false
unequal i n e = ground arith

-- A module without routes: neither of its two pairs of ends has an entry.
pub record Unrouted (intf_id : ℕ) (n : Network) : Type 0 where
  pub vendor_near : find_dest n intf_svc (svc_vendor_ctrl_cport intf_id) ≡ none
  pub vendor_far : find_dest n intf_id vendor_ctrl_dest_cport ≡ none
  pub control_near : find_dest n intf_svc intf_id ≡ none
  pub control_far : find_dest n intf_id 0 ≡ none

module _ (get_protocol : ℕ → Option (ℕ → Errno × ℕ)) (time_after_eq : ℕ → ℕ → Bool) (hz : ℕ) (i : ℕ)
    (module_id : i ≢ intf_svc) (h q : ℕ) where
  -- The work leaves every entry as it was, unless its own route fails.
  work-same :
      (a : WorkAnswers) (n : Network)
      → find_dest n intf_svc i ≡ none
      → find_dest n i 0 ≡ none
      → ((create_control_route get_protocol n i i 0 a.pair).1 ≡ success)
      → find_dest (create_hotplug_work get_protocol a i n).0 h q ≡ find_dest n h q
  unfolding create_hotplug_work create_control_route destroy_control_route conn_create conn_destroy
  work-same a n e f r =
      let same = conn_destroy-conn_create get_protocol intf_svc i i 0 h q n a.pair e f in
      let z : failed (create_control_route get_protocol n i i 0 a.pair).1 ≡ false = ap failed r in
      elim (Bool-cases a.alloc) [
        | inl y ↦ rw (y, z, create_hotplug_work) same
        | inr y ↦ rw (y, create_hotplug_work) refl
      ]

  -- The entries once the module's route for the vendor's protocol is made, with what the work leaves of them, and the
  -- route is destroyed again
  vendor-same :
      (a : PairAllocs) (n w : Network)
      → Unrouted i n
      → find_dest w h q
        ≡ find_dest
            (create_control_route get_protocol n i
              (svc_vendor_ctrl_cport i)
              vendor_ctrl_dest_cport
              a).0
            h
            q
      → find_dest (destroy_control_route w i (svc_vendor_ctrl_cport i) vendor_ctrl_dest_cport) h q
        ≡ find_dest n h q
  unfolding create_control_route destroy_control_route conn_create conn_destroy
  vendor-same a n w u e =
      let v = svc_vendor_ctrl_cport i in
      let made = (conn_create get_protocol n intf_svc v i vendor_ctrl_dest_cport a).0 in
      let end : Option Dest → Option Dest = λ d.
        if (i == h) && (vendor_ctrl_dest_cport == q)
        then none
        else if (intf_svc == h) && (v == q)
        then none
        else d in
      conn_destroy-erases get_protocol intf_svc v i vendor_ctrl_dest_cport h q w
      ∙ ap end e
      ∙ sym (conn_destroy-erases get_protocol intf_svc v i vendor_ctrl_dest_cport h q made)
      ∙ conn_destroy-conn_create get_protocol intf_svc v i vendor_ctrl_dest_cport h q n a
          u.vendor_near u.vendor_far

  -- The vendor's route leaves the ends of the other one without an entry.
  control-absent :
      (a : PairAllocs) (n : Network)
      → Unrouted i n
      → (find_dest
            (create_control_route get_protocol n i
              (svc_vendor_ctrl_cport i)
              vendor_ctrl_dest_cport
              a).0
            intf_svc
            i
          ≡ none)
        × (find_dest
              (create_control_route get_protocol n i
                (svc_vendor_ctrl_cport i)
                vendor_ctrl_dest_cport
                a).0
              i
              0
            ≡ none)
  unfolding create_control_route conn_create
  control-absent a n u =
      let v = svc_vendor_ctrl_cport i in
      (
        conn_create-Alike get_protocol intf_svc v i vendor_ctrl_dest_cport intf_svc i (ground arith)
              (ground arith) n a
            ∙ u.control_near,
        conn_create-Alike get_protocol intf_svc v i vendor_ctrl_dest_cport i 0 (ground arith)
              (ground arith) n a
            ∙ u.control_far,
      )

  -- If the work succeeds, then its route was made.
  work-routed :
      (a : WorkAnswers) (n : Network)
      → failed (create_hotplug_work get_protocol a i n).1 ≡ false
      → a.alloc ≡ true
      → failed (create_control_route get_protocol n i i 0 a.pair).1 ≡ false
  unfolding create_hotplug_work
  work-routed a n e y =
      elim (Bool-cases (failed (create_control_route get_protocol n i i 0 a.pair).1)) [
        | inl z ↦ let k = rw (y, z, create_hotplug_work) at e in absurd (cc)
        | inr z ↦ z
      ]

  work-alloc :
      (a : WorkAnswers) (n : Network)
      → failed (create_hotplug_work get_protocol a i n).1 ≡ false
      → a.alloc ≡ true
  unfolding create_hotplug_work
  work-alloc a n e = ground arith

  -- An attachment of a module that is not there, and the detachment after it
  listed-restored :
      (a : AttachAnswers) (m : Module) (s : Service)
      → m.intf_id ≡ i
      → i ≢ intf_ap
      → is_there i s.ext_intf ≡ false
      → Unrouted i s.network
      → (attach_listed get_protocol time_after_eq hz a i
          (record s { ext_intf = s.ext_intf ++ (m ∷ []) })).1
        ≡ success
      → let t =
          dl_dev_detached i
            (attach_listed get_protocol time_after_eq hz a i
              (record s { ext_intf = s.ext_intf ++ (m ∷ []) })).0 in
        (t.ext_intf ≡ s.ext_intf) × (find_dest t.network h q ≡ find_dest s.network h q)
  unfolding attach_listed dl_dev_detached attach_done
  listed-restored a m s same no_ap away u e =
      let r =
        create_control_route get_protocol s.network i (svc_vendor_ctrl_cport i)
          vendor_ctrl_dest_cport a.vendor_pair in
      let w = create_hotplug_work get_protocol a.hotplug i r.0 in
      let (near, far) = control-absent a.vendor_pair s.network u in
      let gone : list_del i (s.ext_intf ++ (m ∷ [])) ≡ s.ext_intf =
        rw (← same) (list_del-append m s.ext_intf (rw same away)) in
      let p = unequal i intf_ap no_ap in
      elim (Bool-cases (failed r.1)) [
        | inl x ↦ clash r.1 x (rw (x, attach_listed) at e)
        | inr x ↦ elim (Bool-cases (failed w.1)) [
          | inl y ↦ clash w.1 y (rw (x, y, attach_listed) at e)
          | inr y ↦
              let made =
                succeeded (create_control_route get_protocol r.0 i i 0 a.hotplug.pair).1
                  (work-routed a.hotplug r.0 y (work-alloc a.hotplug r.0 y)) in
              rw (x, y, p, attach_listed, dl_dev_detached)
                (
                  gone,
                  vendor-same a.vendor_pair s.network w.0 u (work-same a.hotplug r.0 near far made),
                )
        ]
      ]

  -- An attachment that fails although both routes were made
  listed-unwound :
      (a : AttachAnswers) (m : Module) (s : Service)
      → m.intf_id ≡ i
      → is_there i s.ext_intf ≡ false
      → Unrouted i s.network
      → (create_control_route get_protocol s.network i
          (svc_vendor_ctrl_cport i)
          vendor_ctrl_dest_cport
          a.vendor_pair).1
        ≡ success
      → (create_control_route get_protocol
          (create_control_route get_protocol s.network i
            (svc_vendor_ctrl_cport i)
            vendor_ctrl_dest_cport
            a.vendor_pair).0
          i
          i
          0
          a.hotplug.pair).1
        ≡ success
      → failed
          (attach_listed get_protocol time_after_eq hz a i
            (record s { ext_intf = s.ext_intf ++ (m ∷ []) })).1
        ≡ true
      → let t =
          (attach_listed get_protocol time_after_eq hz a i
            (record s { ext_intf = s.ext_intf ++ (m ∷ []) })).0 in
        (t.ext_intf ≡ s.ext_intf) × (find_dest t.network h q ≡ find_dest s.network h q)
  unfolding attach_listed attach_recovery
  listed-unwound a m s same away u made made' e =
      let r =
        create_control_route get_protocol s.network i (svc_vendor_ctrl_cport i)
          vendor_ctrl_dest_cport a.vendor_pair in
      let w = create_hotplug_work get_protocol a.hotplug i r.0 in
      let (near, far) = control-absent a.vendor_pair s.network u in
      let gone : list_del i (s.ext_intf ++ (m ∷ [])) ≡ s.ext_intf =
        rw (← same) (list_del-append m s.ext_intf (rw same away)) in
      let x : failed r.1 ≡ false = ap failed made in
      elim (Bool-cases (failed w.1)) [
        | inl y ↦
            rw (x, y, attach_listed)
              (
                gone,
                vendor-same a.vendor_pair s.network w.0 u (work-same a.hotplug r.0 near far made'),
              )
        | inr y ↦ clash success (rw (x, y, attach_listed) at e) refl
      ]

-- A module that is attached and then detached leaves the list of modules and every entry of the network as they were.
-- It is neither the AP nor the SVC, and none of the ends of its routes had an entry.
pub dl_dev_detached-attached :
    (get_protocol : ℕ → Option (ℕ → Errno × ℕ)) (time_after_eq : ℕ → ℕ → Bool) (hz : ℕ)
    (a : AttachAnswers) (m : Module) (s : Service) (h q : ℕ)
    → m.intf_id ≢ intf_svc
    → m.intf_id ≢ intf_ap
    → Unrouted m.intf_id s.network
    → (dl_dev_attached get_protocol time_after_eq hz a m s).1 ≡ success
    → ((dl_dev_detached m.intf_id (dl_dev_attached get_protocol time_after_eq hz a m s).0).ext_intf
        ≡ s.ext_intf)
      × (find_dest
            (dl_dev_detached m.intf_id
              (dl_dev_attached get_protocol time_after_eq hz a m s).0).network
            h
            q
          ≡ find_dest s.network h q)
unfolding dl_dev_attached
dl_dev_detached-attached get_protocol time_after_eq hz a m s h q no_svc no_ap u e =
    let p = unequal m.intf_id intf_ap no_ap in
    elim (Bool-cases (is_there m.intf_id s.ext_intf)) [
      | inl y ↦ absurd (let k = rw (p, y, dl_dev_attached) at e in cc)
      | inr y ↦
          rw (p, y, dl_dev_attached)
            (listed-restored get_protocol time_after_eq hz m.intf_id no_svc h q a m s refl no_ap y u
              (rw (p, y, dl_dev_attached) at e))
    ]

-- If the attachment of a module fails, although the control routes that it comes to could be made, then the list of
-- modules and every entry of the network are as they were. The module is neither the AP nor the SVC, and none of the
-- ends of its routes had an entry.
pub dl_dev_attached-unwound :
    (get_protocol : ℕ → Option (ℕ → Errno × ℕ)) (time_after_eq : ℕ → ℕ → Bool) (hz : ℕ)
    (a : AttachAnswers) (m : Module) (s : Service) (h q : ℕ)
    → m.intf_id ≢ intf_svc
    → m.intf_id ≢ intf_ap
    → Unrouted m.intf_id s.network
    → (create_control_route get_protocol s.network m.intf_id
        (svc_vendor_ctrl_cport m.intf_id)
        vendor_ctrl_dest_cport
        a.vendor_pair).1
      ≡ success
    → (create_control_route get_protocol
        (create_control_route get_protocol s.network m.intf_id
          (svc_vendor_ctrl_cport m.intf_id)
          vendor_ctrl_dest_cport
          a.vendor_pair).0
        m.intf_id
        m.intf_id
        0
        a.hotplug.pair).1
      ≡ success
    → failed (dl_dev_attached get_protocol time_after_eq hz a m s).1 ≡ true
    → ((dl_dev_attached get_protocol time_after_eq hz a m s).0.ext_intf ≡ s.ext_intf)
      × (find_dest (dl_dev_attached get_protocol time_after_eq hz a m s).0.network h q
          ≡ find_dest s.network h q)
unfolding dl_dev_attached
dl_dev_attached-unwound get_protocol time_after_eq hz a m s h q no_svc no_ap u made made' e =
    let p = unequal m.intf_id intf_ap no_ap in
    elim (Bool-cases (is_there m.intf_id s.ext_intf)) [
      | inl y ↦ rw (p, y, dl_dev_attached) (refl, refl)
      | inr y ↦
          rw (p, y, dl_dev_attached)
            (listed-unwound get_protocol time_after_eq hz m.intf_id no_svc h q a m s refl y u made
              made' (rw (p, y, dl_dev_attached) at e))
    ]
