-- ===== src/Svc/Invariant.antt =====
-- The states that requests of the SVC lead to.
use motorola_external_greybu.Prelude.{
  ℕ, ◌+◌, ◌≡◌, refl, ap, ◌∙◌, inl, inr, Bool, true, false, not, Bool-cases, Option, List, [], ◌∷◌,
  ◌++◌, ltb, ◌==◌, if◌then◌else◌, length, arith,
}
use motorola_external_greybu.Prelude.Errno.{Errno, success, einval}
use motorola_external_greybu.Connection.Create.{IdaLaw}
use motorola_external_greybu.Svc.Interfaces.{
  Svc, SvcState, reset, protocol_version, svc_hello, Deferred,
}
use motorola_external_greybu.Svc.Hotplug.{HotplugAnswers}
use motorola_external_greybu.Svc.Requests.{
  RequestAnswers, type_protocol_version, type_svc_hello, type_intf_hotplug, type_intf_hot_unplug,
  type_intf_reset, version_request, hello, is_expected, process_deferred_request, run_works,
  run_first, queue_deferred_request, intf_hotplug_recv, intf_hot_unplug_recv, intf_reset_recv,
  interface_request, enter, request_handle, request_recv, created,
}
use motorola_external_greybu.Svc.Consistent.{Holds}
use motorola_external_greybu.Svc.Outcome.{
  Consistent-subst, process_intf_hotplug-Holds, process_intf_hotplug-state,
  process_intf_hot_unplug-Holds, process_intf_hot_unplug-state,
}

abbrev pub is_greeted : SvcState → Bool
is_greeted reset = false
is_greeted protocol_version = false
is_greeted svc_hello = true

-- The state is consistent, and before the greeting there is no interface and nothing waits.
pub record Safe (s : Svc) : Type 0 where
  pub holds : Holds s
  pub idle : is_greeted s.state ≡ false → (s.interfaces ≡ []) × (s.queue ≡ [])

module _ (ida_get : List ℕ → ℕ → ℕ → Option ℕ) (law : IdaLaw ida_get)
    (world : ℕ → HotplugAnswers) where
  -- A consistent state, in the same state of the protocol
  abbrev Kept : Svc → Svc → Type 0
  Kept s t = Holds t × (t.state ≡ s.state)

  if-Kept : (b : Bool) (s t u : Svc) → Kept s t → Kept s u → Kept s (if b then t else u)
  if-Kept true s t u h k = h
  if-Kept false s t u h k = k

  process_deferred_request-Kept :
      (d : Deferred) (s : Svc) → Holds s → Kept s (process_deferred_request ida_get world d s)
  unfolding process_deferred_request
  process_deferred_request-Kept d s h =
      if-Kept (d.type == type_intf_hotplug) s _ _
        (
          process_intf_hotplug-Holds ida_get law (world s.served) d.payload _ h,
          process_intf_hotplug-state ida_get law (world s.served) d.payload
              (record s { served = s.served + 1 }) h,
        )
        (if-Kept (d.type == type_intf_hot_unplug) s _ s
          (
            process_intf_hot_unplug-Holds (world s.served).remove_destroy d.payload
                (record s { served = s.served + 1 }) h,
            process_intf_hot_unplug-state (world s.served).remove_destroy d.payload
                (record s { served = s.served + 1 }),
          )
          (h, refl))

  run_works-Kept : (ds : List Deferred) (s : Svc) → Holds s → Kept s (run_works ida_get world ds s)
  unfolding run_works
  run_works-Kept [] s h = (h, refl)
  run_works-Kept (d ∷ ds) s h =
      let (k, e) = process_deferred_request-Kept d s h in
      let (k', e') = run_works-Kept ds _ k in (k', e' ∙ e)

  -- Whatever keeps a greeted state consistent keeps it safe.
  greeted-Safe : (s t : Svc) → is_greeted s.state ≡ true → Kept s t → Safe t
  greeted-Safe s t g (h, e) = record {
    holds = h;
    idle = λ n. absurd (ground (arith, ap is_greeted e));
  }

  run_first-Safe : (s : Svc) → Safe s → Safe (run_first ida_get world s)
  unfolding run_first
  run_first-Safe s v = go s.queue refl
    where
      go :
          (q : List Deferred)
          → s.queue ≡ q
          → Safe (elim q [
            | [] ↦ s
            | d ∷ ds ↦ process_deferred_request ida_get world d (record s { queue = ds })
          ])
      go [] e = v
      go (d ∷ ds) e = elim (Bool-cases (is_greeted s.state)) [
        | inl y ↦
            greeted-Safe s _ y (process_deferred_request-Kept d (record s { queue = ds }) v.holds)
        | inr y ↦ let empty : s.queue ≡ [] = (v.idle y).1 in absurd (cc)
      ]

  Kept-fst :
      (s : Svc) (b : Bool) (r u : Svc × Errno)
      → Kept s r.0
      → Kept s u.0
      → Kept s (if b then r else u).0
  Kept-fst s true r u h k = h
  Kept-fst s false r u h k = k

  queue_deferred_request-Kept :
      (a : RequestAnswers) (d : Deferred) (s : Svc)
      → Holds s
      → Kept s (queue_deferred_request ida_get world a d s).0
  unfolding queue_deferred_request
  queue_deferred_request-Kept a d s h =
      Kept-fst s (not a.deferred_alloc) _ _ (h, refl)
        (Kept-fst s (d.type == type_intf_hot_unplug) _ _ (run_works-Kept (s.queue ++ (d ∷ [])) _ h)
          (h, refl))

  intf_hotplug_recv-Kept :
      (a : RequestAnswers) (payload : List ℕ) (s : Svc)
      → Holds s
      → Kept s (intf_hotplug_recv ida_get world a payload s).0
  unfolding intf_hotplug_recv
  intf_hotplug_recv-Kept a payload s h =
      let d : Deferred = record { type = type_intf_hotplug; payload = payload } in
      Kept-fst s (ltb (length payload) 17) (s, einval) (queue_deferred_request ida_get world a d s)
        (h, refl) (queue_deferred_request-Kept a d s h)

  intf_hot_unplug_recv-Kept :
      (a : RequestAnswers) (payload : List ℕ) (s : Svc)
      → Holds s
      → Kept s (intf_hot_unplug_recv ida_get world a payload s).0
  unfolding intf_hot_unplug_recv
  intf_hot_unplug_recv-Kept a payload s h =
      let d : Deferred = record { type = type_intf_hot_unplug; payload = payload } in
      Kept-fst s (ltb (length payload) 2) (s, einval) (queue_deferred_request ida_get world a d s)
        (h, refl) (queue_deferred_request-Kept a d s h)

  interface_request-Kept :
      (a : RequestAnswers) (type : ℕ) (payload : List ℕ) (s : Svc)
      → Holds s
      → Kept s (interface_request ida_get world a type payload s).0
  unfolding interface_request
  interface_request-Kept a type payload s h =
      Kept-fst s (type == type_intf_hotplug) (intf_hotplug_recv ida_get world a payload s) _
        (intf_hotplug_recv-Kept a payload s h)
        (Kept-fst s (type == type_intf_hot_unplug) (intf_hot_unplug_recv ida_get world a payload s)
          _ (intf_hot_unplug_recv-Kept a payload s h)
          (Kept-fst s (type == type_intf_reset) (intf_reset_recv payload s) (s, einval)
            (Kept-fst s (ltb (length payload) 1) (s, einval) (s, success) (h, refl) (h, refl))
            (h, refl)))

  -- The interfaces and the queue are as they were.
  abbrev Untouched : Svc → Svc → Type 0
  Untouched s t =
      (t.interfaces ≡ s.interfaces)
      × (t.routes ≡ s.routes)
      × (t.undestroyed ≡ s.undestroyed)
      × (t.device_id_map ≡ s.device_id_map)
      × (t.queue ≡ s.queue)

  version_request-Untouched :
      (a : RequestAnswers) (payload : List ℕ) (s : Svc)
      → Untouched s (enter protocol_version (version_request a payload s)).0
  unfolding version_request
  version_request-Untouched a payload s =
      (ground arith, ground arith, ground arith, ground arith, ground arith)

  hello-Untouched :
      (a : RequestAnswers) (payload : List ℕ) (s : Svc)
      → Untouched s (enter svc_hello (hello a payload s)).0
  unfolding hello
  hello-Untouched a payload s =
      (ground arith, ground arith, ground arith, ground arith, ground arith)

  Untouched-Safe : (s t : Svc) → is_greeted s.state ≡ false → Safe s → Untouched s t → Safe t
  Untouched-Safe s t g v (is, rs, us, ms, qs) =
      let (none_there, none_queued) = v.idle g in
      record {
        holds = Consistent-subst is rs us ms v.holds;
        idle = λ n. (is ∙ none_there, qs ∙ none_queued);
      }

  if-Safe :
      (b : Bool) (r u : Svc × Errno)
      → (b ≡ true → Safe r.0)
      → (b ≡ false → Safe u.0)
      → Safe (if b then r else u).0
  if-Safe true r u f g = f refl
  if-Safe false r u f g = g refl

  -- The first two requests come before the greeting, and the others after it.
  early :
      (type : ℕ) (st : SvcState)
      → is_expected type st ≡ true
      → (type == type_protocol_version) ≡ true
      → is_greeted st ≡ false
  early type st e t = ground arith

  next_early :
      (type : ℕ) (st : SvcState)
      → is_expected type st ≡ true
      → (type == type_svc_hello) ≡ true
      → is_greeted st ≡ false
  next_early type st e t = ground arith

  late :
      (type : ℕ) (st : SvcState)
      → is_expected type st ≡ true
      → (type == type_protocol_version) ≡ false
      → (type == type_svc_hello) ≡ false
      → is_greeted st ≡ true
  late type st e t u = ground arith

  request_recv-Safe :
      (a : RequestAnswers) (type : ℕ) (payload : List ℕ) (s : Svc)
      → Safe s
      → Safe (request_recv ida_get world a type payload s).0
  unfolding request_recv request_handle
  request_recv-Safe a type payload s v =
      if-Safe (is_expected type s.state) _ (s, einval)
        (λ e.
          if-Safe (type == type_protocol_version) _ _
            (λ t.
              Untouched-Safe s _ (early type s.state e t) v (version_request-Untouched a payload s))
            (λ t.
              if-Safe (type == type_svc_hello) _ _
                (λ u.
                  Untouched-Safe s _ (next_early type s.state e u) v (hello-Untouched a payload s))
                (λ u.
                  greeted-Safe s _ (late type s.state e t u)
                    (interface_request-Kept a type payload s v.holds))))
        (λ e. v)

  -- The requests come in any order, and the work queue runs in between.
  pub data Step (s : Svc) : Svc → Type 0 where
    request :
        (a : RequestAnswers) (type : ℕ) (payload : List ℕ)
        → Step s (request_recv ida_get world a type payload s).0
    work : Step s (run_first ida_get world s)

  pub data Reach : Svc → Type 0 where
    start : Reach created
    next : {s t : Svc} → Reach s → Step s t → Reach t

  Step-Safe : {s t : Svc} → Step s t → Safe s → Safe t
  Step-Safe (request a type payload) v = request_recv-Safe a type payload _ v
  Step-Safe work v = run_first-Safe _ v

  -- Whatever requests the SVC sends, in whatever order, and whatever the parts that they make work answer: between
  -- two requests there is a route to each interface, and one to anything else only if the SVC has failed to destroy it,
  -- which is logged; the interfaces have distinct ids and distinct device ids, which are exactly the ones in use below
  -- 255, and before the version is agreed and the greeting has come there is no interface and nothing waits.
  -- `ida_simple_get` finds free ids.
  pub Reach-Safe : {s : Svc} → Reach s → Safe s
  Reach-Safe start = record {
    holds = record {
      routed = λ r. refl;
      used = refl;
      distinct = tt;
      distinct_map = tt;
      modules = tt;
    };
    idle = λ n. (refl, refl);
  }
  Reach-Safe (next r st) = Step-Safe st (Reach-Safe r)
