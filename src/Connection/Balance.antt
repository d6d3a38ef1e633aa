-- ===== src/Connection/Balance.antt =====
-- `gb_connection_init` is all or nothing, and `gb_connection_exit` undoes it.
use motorola_external_greybu.Prelude.{
  ℕ, ◌≡◌, ◌⊎◌, inl, inr, refl, ap, ◌∙◌, Bool, true, false, Option, none, some, if◌then◌else◌, arith,
}
use motorola_external_greybu.Prelude.Errno.{failed, Errno}
use motorola_external_greybu.Connection.{enabled}
use motorola_external_greybu.Connection.Life.{
  Live, Setup, Answers, bind_protocol, hd_cport_enable, svc_connection_create, control_connected,
  protocol_get_version, init_handler, init_version, init_control, init_svc, init_cport, init,
  tear_down, exit, exit_state, is_state_enabled, is_state_destroying, stop_operations,
}
use motorola_external_greybu.Connection.Stages.{
  control_connected-Stage, svc_connection_create-Stage, hd_cport_enable-Stage,
  protocol_get_version-Acquired, svc_connection_create-protocol, hd_cport_enable-protocol,
}
use motorola_external_greybu.Connection.Unwinding.{
  Paired, Acquired, Released, err_unbind_protocol-Released, if-Acquired,
  control_disconnected-Acquired, state-Acquired, err_hd_cport_disable-Released,
  err_svc_destroy-Released, err_disconnect-Released,
}

module _ (l : Setup) (a : Answers) (paired : Paired l a) (k : ℕ) where
  -- What an initialisation ends with: all of it, or nothing and an error
  abbrev Outcome : Live × Errno → Type 0
  Outcome r =
      ((failed r.1 ≡ false) × (r.0.state ≡ enabled) × Acquired l a k r.0 true true true true)
      ⊎ ((failed r.1 ≡ true) × Released k r.0)

  if-Outcome :
      (x : Bool) (r s : Live × Errno)
      → (x ≡ true → Outcome r)
      → (x ≡ false → Outcome s)
      → Outcome (if x then r else s)
  if-Outcome true r s f g = f refl
  if-Outcome false r s f g = g refl

  init_handler-Outcome :
      (c : Live)
      → c.state ≡ enabled
      → Acquired l a k c true true true false
      → Outcome (init_handler l a c)
  unfolding init_handler
  init_handler-Outcome c s h =
      if-Outcome (failed a.connection_init) _ _
        (λ y. inr (y, err_disconnect-Released l a paired k c h))
        (λ y. inl (
          refl,
          s,
          record {
            refs = h.refs;
            bound = h.bound;
            cport_enabled = h.cport_enabled;
            svc_connection = h.svc_connection;
            connected = h.connected;
            set_up = refl;
          },
        ))

  init_version-Outcome :
      (c : Live)
      → c.state ≡ enabled
      → Acquired l a k c true true true false
      → Outcome (init_version l a c)
  unfolding init_version
  init_version-Outcome c s h =
      let r = protocol_get_version l a.negotiate c in
      let (on, got) = protocol_get_version-Acquired l a k c s h in
      if-Outcome (failed r.1) _ _ (λ y. inr (y, err_disconnect-Released l a paired k r.0 got))
        (λ y. init_handler-Outcome r.0 on got)

  init_control-Outcome :
      (c : Live)
      → c.protocol ≡ a.latest
      → Acquired l a k c true true false false
      → Outcome (init_control l a c)
  unfolding init_control
  init_control-Outcome c q h =
      let r = control_connected l a.connected c in
      let (fails, goes_on) = control_connected-Stage l a k a.connected c q h in
      if-Outcome (failed r.1) _ _
        (λ y. inr (y, err_svc_destroy-Released l a paired k r.0 (fails y)))
        (λ y.
          init_version-Outcome _ refl
            (state-Acquired l a paired k enabled r.0 true true true false (goes_on y)))

  init_svc-Outcome :
      (c : Live)
      → c.protocol ≡ a.latest
      → Acquired l a k c true false false false
      → Outcome (init_svc l a c)
  unfolding init_svc
  init_svc-Outcome c q h =
      let r = svc_connection_create l a.svc_create c in
      let (fails, goes_on) = svc_connection_create-Stage l a k a.svc_create c h in
      if-Outcome (failed r.1) _ _
        (λ y. inr (y, err_hd_cport_disable-Released l a paired k r.0 (fails y)))
        (λ y.
          init_control-Outcome r.0 (svc_connection_create-protocol l a k a.svc_create c ∙ q)
            (goes_on y))

  init_cport-Outcome :
      (c : Live)
      → c.protocol ≡ a.latest
      → Acquired l a k c false false false false
      → Outcome (init_cport l a c)
  unfolding init_cport
  init_cport-Outcome c q h =
      let r = hd_cport_enable l a.cport_enable c in
      let (fails, goes_on) = hd_cport_enable-Stage l a k a.cport_enable c h in
      if-Outcome (failed r.1) _ _
        (λ y. inr (y, err_unbind_protocol-Released l a paired k r.0 (fails y)))
        (λ y.
          init_svc-Outcome r.0 (hd_cport_enable-protocol l a k a.cport_enable c ∙ q) (goes_on y))

  bound-Outcome :
      (latest : Option ℕ) (c : Live)
      → latest ≡ a.latest
      → Released k c
      → Outcome (let r = bind_protocol latest c in if failed r.1 then r else init_cport l a r.0)
  unfolding bind_protocol
  bound-Outcome none c q h = inr (refl, h)
  bound-Outcome (some p) c q h =
      let e = h.refs in
      init_cport-Outcome _ q (record {
        refs = omega (arith, e);
        bound = inl q;
        cport_enabled = h.cport_enabled;
        svc_connection = h.svc_connection;
        connected = h.connected;
        set_up = h.set_up;
      })

  tear_down-Released :
      (c : Live) → Acquired l a k c true true true true → Released k (tear_down l c)
  tear_down-Released c h =
      let quiet : Acquired l a k (record c { handler = false }) true true true false = record {
        refs = h.refs;
        bound = h.bound;
        cport_enabled = h.cport_enabled;
        svc_connection = h.svc_connection;
        connected = h.connected;
        set_up = refl;
      } in
      err_svc_destroy-Released l a paired k _ (control_disconnected-Acquired l a paired k _ quiet)

  stop_operations-Acquired :
      (c : Live)
      → Acquired l a k c true true true true
      → Acquired l a k (stop_operations c) true true true true
  unfolding stop_operations
  stop_operations-Acquired c h =
      if-Acquired l a paired k (is_state_destroying c.state) _ c true true true true
        (λ y. record {
          refs = h.refs;
          bound = h.bound;
          cport_enabled = h.cport_enabled;
          svc_connection = h.svc_connection;
          connected = h.connected;
          set_up = h.set_up;
        })
        (λ y. h)

  if-Released : (x : Bool) (c d : Live) → x ≡ true → Released k c → Released k (if x then c else d)
  if-Released x c d e h = rw e h

  exit-Released :
      (c : Live) → c.state ≡ enabled → Acquired l a k c true true true true → Released k (exit l c)
  unfolding exit
  exit-Released c s h =
      let on : is_state_enabled c.state ≡ true = ap is_state_enabled s in
      if-Released (is_state_enabled c.state) _ c on (
        tear_down-Released _ (
          stop_operations-Acquired (record c { state = exit_state l })
            (state-Acquired l a paired k _ c true true true true h)))

  -- If the host driver can disable CPorts if it can enable them, and if, whenever the protocol that the negotiation
  -- of the version leaves bound skips the message of the disconnection, the first one skips that of the connection:
  -- `gb_connection_init` of a connection that holds nothing either succeeds, with the connection enabled and
  -- holding a reference to its protocol, its host CPort, its SVC connection and its control connection as far as
  -- they apply to it, and the protocol's driver set up, or it fails and nothing is held. After a success
  -- `gb_connection_exit` gives all of it back.
  pub init-Outcome :
      (c : Live)
      → Released k c
      → ((failed (init l a c).1 ≡ false)
          × ((init l a c).0.state ≡ enabled)
          × Acquired l a k (init l a c).0 true true true true
          × Released k (exit l (init l a c).0))
        ⊎ ((failed (init l a c).1 ≡ true) × Released k (init l a c).0)
  unfolding init
  init-Outcome c h = elim (bound-Outcome a.latest c refl h) [
    | inl (ok, s, got) ↦ inl (ok, s, got, exit-Released _ s got)
    | inr b ↦ inr b
  ]
