-- ===== src/ModService/Modules.antt =====
-- The requests that muc_svc.c takes from the modules, on the CPort of the vendor's protocol. Notifications of drivers and
-- events are left out.
use motorola_external_greybu.Prelude.{
  ℕ, ◌-◌, ◌%◌, ◌≡◌, ◌≢◌, ◌<◌, refl, ap, sym, ◌∙◌, subst, inl, inr, not, ◌||◌, Bool-cases, Option,
  none, some, Option-cases, List, [], ◌∷◌, ltb, ◌==◌, if◌then◌else◌, get_or, length, arith,
}
use motorola_external_greybu.Prelude.Errno.{Errno, success, einval, enomem}
use motorola_external_greybu.Svc.Hotplug.{word_at, long_at}
use motorola_external_greybu.ModService.Attach.{svc_vendor_ctrl_cport}
use motorola_external_greybu.ModService.Requests.{
  Module, Service, ApRequest, ApResponse, ApAnswers, respond_request,
}

-- `dev_from_intf`
unfoldable pub dev_from_intf : List Module → ℕ → Option Module
dev_from_intf [] intf_id = none
dev_from_intf (m ∷ ms) intf_id = if m.intf_id == intf_id then some m else dev_from_intf ms intf_id

-- `SVC_VENDOR_CTRL_INTF`, as the byte that it is stored in
abbrev pub svc_vendor_ctrl_intf : ℕ → ℕ
svc_vendor_ctrl_intf cport = (cport - 32768) % 256

-- A change of the module that `dev_from_intf` finds
unfoldable pub with_module : (Module → Module) → ℕ → List Module → List Module
with_module f intf_id [] = []
with_module f intf_id (m ∷ ms) =
    if m.intf_id == intf_id then f m ∷ ms else m ∷ with_module f intf_id ms

-- A handler of a module's request, which reads so many bytes; `none` says that it reads behind the payload.
unfoldable pub module_request :
    ℕ → (Module → Module) → List ℕ → ℕ → Service → Option (Service × Errno)
unfolding dev_from_intf with_module
module_request size f payload intf_id s = elim (dev_from_intf s.ext_intf intf_id) [
  | none ↦ some (s, einval)
  | some m ↦
      if ltb (length payload) size
      then none
      else some (record s { ext_intf = with_module f intf_id s.ext_intf }, success)
]

-- `mods_slave_state`
unfoldable pub mods_slave_state : List ℕ → ℕ → Service → Option (Service × Errno)
unfolding module_request long_at
mods_slave_state payload =
    module_request 8
      (λ m. record m { slave_mask = long_at payload 0; slave_state = long_at payload 4 }) payload

-- `muc_svc_capability_changed`
unfoldable pub capability_changed : List ℕ → ℕ → Service → Option (Service × Errno)
unfolding module_request word_at
capability_changed payload =
    module_request 4
      (λ m. record m {
        capability_level = get_or payload 0 0;
        capability_reason = get_or payload 1 0;
        capability_vendor = word_at payload 2;
      })
      payload

-- `muc_svc_current_rsv`
unfoldable pub current_rsv : List ℕ → ℕ → Service → Option (Service × Errno)
unfolding module_request
current_rsv payload =
    module_request 1 (λ m. record m { high_current_reserved = not (get_or payload 0 0 == 0) })
      payload

-- The switch of `muc_svc_handle_mods_request`, for the types that it knows
unfoldable pub mods_request : ApRequest → ℕ → Service → Option (Service × Errno)
unfolding mods_slave_state capability_changed current_rsv
mods_request req cport s =
    let intf_id = svc_vendor_ctrl_intf cport in
    if req.type == 9
    then mods_slave_state req.payload intf_id s
    else if req.type == 11
    then capability_changed req.payload intf_id s
    else current_rsv req.payload intf_id s

-- `muc_svc_handle_mods_request`: the state, the response and the result.
unfoldable pub handle_mods_request :
    ApAnswers → ApRequest → ℕ → Service → Option (Service × Option ApResponse × Errno)
unfolding mods_request respond_request
handle_mods_request a req cport s =
    if not a.request_alloc
    then some (s, none, enomem)
    else if (req.type == 9) || ((req.type == 11) || (req.type == 13))
    then elim (mods_request req cport s) [
      | none ↦ none
      | some (s', ret) ↦ some (s', (respond_request a req ret).0, (respond_request a req ret).1)
    ]
    else some (s, none, einval)

-- A module is as it was, and all else but the modules.
pub record Confined (other : ℕ) (s t : Service) : Type 0 where
  pub network : t.network ≡ s.network
  pub device_ids : t.device_ids ≡ s.device_ids
  pub watchdog : t.watchdog ≡ s.watchdog
  pub mod_attached : t.mod_attached ≡ s.mod_attached
  pub authenticate : t.authenticate ≡ s.authenticate
  pub queued : t.queued ≡ s.queued
  pub actions : t.actions ≡ s.actions
  pub module_at : dev_from_intf t.ext_intf other ≡ dev_from_intf s.ext_intf other

same : (other : ℕ) (s : Service) → Confined other s s
same other s = record {
  network = refl;
  device_ids = refl;
  watchdog = refl;
  mod_attached = refl;
  authenticate = refl;
  queued = refl;
  actions = refl;
  module_at = refl;
}

with_module-other :
    (f : Module → Module) (i other : ℕ)
    → i ≢ other
    → ((m : Module) → (f m).intf_id ≡ m.intf_id)
    → (ms : List Module) → dev_from_intf (with_module f i ms) other ≡ dev_from_intf ms other
unfolding dev_from_intf with_module
with_module-other f i other e k [] = refl
with_module-other f i other e k (m ∷ ms) = ground (arith, k m, with_module-other f i other e k ms)

module_request-Confined :
    (size : ℕ) (f : Module → Module) (payload : List ℕ) (cport other : ℕ) (s : Service)
    → svc_vendor_ctrl_intf cport ≢ other
    → ((m : Module) → (f m).intf_id ≡ m.intf_id)
    → (t : Service) (e : Errno)
    → module_request size f payload (svc_vendor_ctrl_intf cport) s ≡ some (t, e)
    → Confined other s t
unfolding module_request
module_request-Confined size f payload cport other s n k t e h =
    elim (Option-cases (dev_from_intf s.ext_intf (svc_vendor_ctrl_intf cport))) [
      | inl z ↦
          let p = rw (z, module_request) at h in
          let q : s ≡ t =
            ap (λ (o : Option (Service × Errno)). elim o [ none ↦ s | some r ↦ r.0 ]) p in
          subst (Confined other s) q (same other s)
      | inr (m, z) ↦ elim (Bool-cases (ltb (length payload) size)) [
        | inl y ↦ absurd (let p = rw (z, y, module_request) at h in cc)
        | inr y ↦
            let changed : Service = record s {
              ext_intf = with_module f (svc_vendor_ctrl_intf cport) s.ext_intf;
            } in
            let p = rw (z, y, module_request) at h in
            let q : changed ≡ t =
              ap (λ (o : Option (Service × Errno)). elim o [ none ↦ s | some r ↦ r.0 ]) p in
            subst (Confined other s) q (record {
              network = refl;
              device_ids = refl;
              watchdog = refl;
              mod_attached = refl;
              authenticate = refl;
              queued = refl;
              actions = refl;
              module_at = with_module-other f (svc_vendor_ctrl_intf cport) other n k s.ext_intf;
            })
      ]
    ]

mods_request-Confined :
    (req : ApRequest) (cport other : ℕ) (s t : Service) (e : Errno)
    → svc_vendor_ctrl_intf cport ≢ other
    → mods_request req cport s ≡ some (t, e)
    → Confined other s t
unfolding mods_request mods_slave_state capability_changed current_rsv
mods_request-Confined req cport other s t e n h = elim (Bool-cases (req.type == 9)) [
  | inl x ↦
      module_request-Confined 8 _ req.payload cport other s n (λ m. refl) t e
        (rw (x, mods_request) at h)
  | inr x ↦ elim (Bool-cases (req.type == 11)) [
    | inl y ↦
        module_request-Confined 4 _ req.payload cport other s n (λ m. refl) t e
          (rw (x, y, mods_request) at h)
    | inr y ↦
        module_request-Confined 1 _ req.payload cport other s n (λ m. refl) t e
          (rw (x, y, mods_request) at h)
  ]
]

request-Confined :
    (a : ApAnswers) (req : ApRequest) (cport other : ℕ) (s t : Service) (r : Option ApResponse)
    (e : Errno)
    → svc_vendor_ctrl_intf cport ≢ other
    → handle_mods_request a req cport s ≡ some (t, r, e)
    → Confined other s t
unfolding handle_mods_request
request-Confined a req cport other s t r e n h = elim (Bool-cases a.request_alloc) [
  | inr x ↦ unchanged (rw (x, handle_mods_request) at h)
  | inl x ↦ elim (Bool-cases ((req.type == 9) || ((req.type == 11) || (req.type == 13)))) [
    | inr y ↦ unchanged (rw (x, y, handle_mods_request) at h)
    | inl y ↦ elim (Option-cases (mods_request req cport s)) [
      | inl z ↦ absurd (let p = rw (x, y, z, handle_mods_request) at h in cc)
      | inr ((s', ret), z) ↦
          let p = rw (x, y, z, handle_mods_request) at h in
          let q : s' ≡ t =
            ap
              (λ (o : Option (Service × Option ApResponse × Errno)). elim o [
                | none ↦ s'
                | some w ↦ w.0
              ])
              p in
          subst (Confined other s) q (mods_request-Confined req cport other s s' ret n z)
    ]
  ]
]
  where
    unchanged :
        {w : Option ApResponse} {f : Errno}
        → ◌≡◌ {A = Option (Service × Option ApResponse × Errno)} (some (s, w, f)) (some (t, r, e))
        → Confined other s t
    unchanged {w} {f} p =
        let q : s ≡ t =
          ap
            (λ (o : Option (Service × Option ApResponse × Errno)). elim o [
              | none ↦ s
              | some w ↦ w.0
            ])
            p in
        subst (Confined other s) q (same other s)

-- If a request comes from the CPort for the vendor's protocol of the interface i, which is below 256, and is handled
-- without a read behind its payload, then each module of another interface is as it was, and so is all else of the
-- service: the network, the device ids, the state of attachments and of the authentication, the count of failures, the
-- works that wait and what recoveries did.
pub handle_mods_request-Confined :
    (a : ApAnswers) (req : ApRequest) (i other : ℕ) (s t : Service) (r : Option ApResponse)
    (e : Errno)
    → i < 256
    → i ≢ other
    → handle_mods_request a req (svc_vendor_ctrl_cport i) s ≡ some (t, r, e)
    → Confined other s t
handle_mods_request-Confined a req i other s t r e small n h =
    let same_id : svc_vendor_ctrl_intf (svc_vendor_ctrl_cport i) ≡ i = omega (arith, small) in
    request-Confined a req (svc_vendor_ctrl_cport i) other s t r e (λ k. n (sym same_id ∙ k)) h
