-- ===== src/Connection/Unwinding.antt =====
-- What the labels of `gb_connection_init` give back.
use motorola_external_greybu.Prelude.{
  ℕ, suc, ◌≡◌, refl, ◌&&◌, Bool, true, false, not, Option, none, some, ◌⊎◌, if◌then◌else◌, arith,
}
use motorola_external_greybu.Connection.{State}
use motorola_external_greybu.Connection.Life.{
  Live, Setup, Answers, skips, hd_cport_disable, svc_connection_destroy, control_disconnected,
  err_unbind_protocol, err_hd_cport_disable, err_svc_destroy, err_disconnect,
}

-- A protocol is the latest one, or one that a negotiation of the version binds.
abbrev pub Offers : Answers → Option ℕ → Type 0
Offers a bound = (bound ≡ a.latest) ⊎ ((n q : ℕ) × ((a.negotiate n).1 ≡ some q) × (bound ≡ some q))

-- The stages of the initialisation that a connection has behind it, as far as they apply to it: its reference
-- is one of `suc k`. The protocol that is bound is the latest one, or one that a negotiation has bound since.
pub record Acquired (l : Setup) (a : Answers) (k : ℕ) (c : Live) (cport svc control handler : Bool)
    : Type 0 where
  pub refs : c.refs ≡ suc k
  pub bound : Offers a c.protocol
  pub cport_enabled : c.cport_enabled ≡ (cport && l.has_enable)
  pub svc_connection : c.svc_connection ≡ (svc && l.intf)
  pub connected : c.control_connected ≡ (control && not (skips l.skip_connected a.latest))
  pub set_up : c.handler ≡ handler

-- Nothing is held.
pub record Released (k : ℕ) (c : Live) : Type 0 where
  pub protocol : c.protocol ≡ none
  pub refs : c.refs ≡ k
  pub cport_enabled : c.cport_enabled ≡ false
  pub svc_connection : c.svc_connection ≡ false
  pub connected : c.control_connected ≡ false
  pub set_up : c.handler ≡ false

-- Whatever there is to undo is undone: the host driver can disable the CPorts that it can enable, and if the
-- protocol that is bound in the end skips the message of the disconnection, the first one skips that of the
-- connection.
pub record Paired (l : Setup) (a : Answers) : Type 0 where
  pub cport : (l.has_enable && not l.has_disable) ≡ false
  pub control :
      (bound : Option ℕ)
      → Offers a bound
      → (skips l.skip_disconnected bound && not (skips l.skip_connected a.latest)) ≡ false

module _ (l : Setup) (a : Answers) (paired : Paired l a) (k : ℕ) where
  pub err_unbind_protocol-Released :
      (c : Live) → Acquired l a k c false false false false → Released k (err_unbind_protocol c)
  err_unbind_protocol-Released c h =
      let r = h.refs in
      record {
        protocol = refl;
        refs = omega (arith, r);
        cport_enabled = h.cport_enabled;
        svc_connection = h.svc_connection;
        connected = h.connected;
        set_up = h.set_up;
      }

  pub if-Acquired :
      (x : Bool) (c d : Live) (cport svc control handler : Bool)
      → (x ≡ true → Acquired l a k c cport svc control handler)
      → (x ≡ false → Acquired l a k d cport svc control handler)
      → Acquired l a k (if x then c else d) cport svc control handler
  if-Acquired true c d cport svc control handler f g = f refl
  if-Acquired false c d cport svc control handler f g = g refl

  hd_cport_disable-Acquired :
      (c : Live)
      → Acquired l a k c true false false false
      → Acquired l a k (hd_cport_disable l c) false false false false
  hd_cport_disable-Acquired c h =
      let p = paired.cport in
      let e = h.cport_enabled in
      if-Acquired l.has_disable _ c false false false false
        (λ y. record {
          refs = h.refs;
          bound = h.bound;
          cport_enabled = refl;
          svc_connection = h.svc_connection;
          connected = h.connected;
          set_up = h.set_up;
        })
        (λ y. record {
          refs = h.refs;
          bound = h.bound;
          cport_enabled = ground arith;
          svc_connection = h.svc_connection;
          connected = h.connected;
          set_up = h.set_up;
        })

  svc_connection_destroy-Acquired :
      (c : Live)
      → Acquired l a k c true true false false
      → Acquired l a k (svc_connection_destroy l c) true false false false
  svc_connection_destroy-Acquired c h =
      let e = h.svc_connection in
      if-Acquired l.intf _ c true false false false
        (λ y. record {
          refs = h.refs;
          bound = h.bound;
          cport_enabled = h.cport_enabled;
          svc_connection = refl;
          connected = h.connected;
          set_up = h.set_up;
        })
        (λ y. record {
          refs = h.refs;
          bound = h.bound;
          cport_enabled = h.cport_enabled;
          svc_connection = ground arith;
          connected = h.connected;
          set_up = h.set_up;
        })

  pub control_disconnected-Acquired :
      (c : Live)
      → Acquired l a k c true true true false
      → Acquired l a k (control_disconnected l c) true true false false
  control_disconnected-Acquired c h =
      let p = paired.control c.protocol h.bound in
      let e = h.connected in
      if-Acquired (skips l.skip_disconnected c.protocol) c _ true true false false
        (λ y. record {
          refs = h.refs;
          bound = h.bound;
          cport_enabled = h.cport_enabled;
          svc_connection = h.svc_connection;
          connected = ground arith;
          set_up = h.set_up;
        })
        (λ y. record {
          refs = h.refs;
          bound = h.bound;
          cport_enabled = h.cport_enabled;
          svc_connection = h.svc_connection;
          connected = refl;
          set_up = h.set_up;
        })

  pub state-Acquired :
      (s : State) (c : Live) (cport svc control handler : Bool)
      → Acquired l a k c cport svc control handler
      → Acquired l a k (record c { state = s }) cport svc control handler
  state-Acquired s c cport svc control handler h = record {
    refs = h.refs;
    bound = h.bound;
    cport_enabled = h.cport_enabled;
    svc_connection = h.svc_connection;
    connected = h.connected;
    set_up = h.set_up;
  }

  pub err_hd_cport_disable-Released :
      (c : Live) → Acquired l a k c true false false false → Released k (err_hd_cport_disable l c)
  err_hd_cport_disable-Released c h = err_unbind_protocol-Released _ (hd_cport_disable-Acquired c h)

  pub err_svc_destroy-Released :
      (c : Live) → Acquired l a k c true true false false → Released k (err_svc_destroy l c)
  err_svc_destroy-Released c h =
      err_hd_cport_disable-Released _ (svc_connection_destroy-Acquired c h)

  pub err_disconnect-Released :
      (c : Live) → Acquired l a k c true true true false → Released k (err_disconnect l c)
  err_disconnect-Released c h =
      err_svc_destroy-Released _
        (control_disconnected-Acquired _ (state-Acquired _ c true true true false h))
