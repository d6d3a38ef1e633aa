-- ===== src/Connection/Stages.antt =====
-- The steps of `gb_connection_init`: what each leaves when it fails and when it does not.
use motorola_external_greybu.Prelude.{
  ℕ, zero, suc, ◌≡◌, inr, refl, ap, Bool, true, false, not, Option, none, some, if◌then◌else◌,
  arith,
}
use motorola_external_greybu.Prelude.Errno.{failed, Errno, success, etimedout}
use motorola_external_greybu.Connection.{enabled}
use motorola_external_greybu.Connection.Life.{
  Live, Setup, Answers, skips, rebind, negotiate_loop, conn_version_retries, hd_cport_enable,
  svc_connection_create, control_connected, protocol_get_version,
}
use motorola_external_greybu.Connection.Unwinding.{Offers, Acquired}

module _ (l : Setup) (a : Answers) (k : ℕ) where
  rebind-Offers :
      (n : ℕ) (bound : Option ℕ) → Offers a bound → Offers a (rebind (a.negotiate n).1 bound)
  unfolding rebind
  rebind-Offers n bound h = go (a.negotiate n).1 refl
    where
      go : (o : Option ℕ) → (a.negotiate n).1 ≡ o → Offers a (rebind o bound)
      go none e = h
      go (some q) e = inr (n, q, e, refl)

  negotiate_loop-Offers :
      (left n : ℕ) (bound : Option ℕ)
      → Offers a bound
      → Offers a (negotiate_loop a.negotiate left n bound).2
  unfolding negotiate_loop
  negotiate_loop-Offers zero n bound h = rebind-Offers n bound h
  negotiate_loop-Offers (suc left) n bound h =
      let now = rebind (a.negotiate n).1 bound in
      let kept = rebind-Offers n bound h in
      go (a.negotiate n).0 (negotiate_loop a.negotiate left (suc n) now) now
        (negotiate_loop-Offers left (suc n) now kept) kept
    where
      go :
          (ret : Errno) (rest : Errno × ℕ × Option ℕ) (o : Option ℕ)
          → Offers a rest.2
          → Offers a o
          → Offers a (
              let r : Errno × ℕ × Option ℕ = elim ret [ etimedout ↦ rest | e ↦ (e, suc n, o) ] in
              r.2)
      go etimedout rest o r k = r
      go e rest o r k = k

  -- The negotiations leave a protocol bound, and nothing else changes.
  pub protocol_get_version-Acquired :
      (c : Live)
      → c.state ≡ enabled
      → Acquired l a k c true true true false
      → ((protocol_get_version l a.negotiate c).0.state ≡ enabled)
        × Acquired l a k (protocol_get_version l a.negotiate c).0 true true true false
  unfolding protocol_get_version
  protocol_get_version-Acquired c s h = go (skips l.skip_version c.protocol)
    where
      out : Errno × ℕ × Option ℕ
      out = negotiate_loop a.negotiate conn_version_retries 0 c.protocol

      go :
          (b : Bool)
          → let r : Live × Errno =
              if b then (c, success) else (record c { protocol = out.2 }, out.0) in
            (r.0.state ≡ enabled) × Acquired l a k r.0 true true true false
      go true = (s, h)
      go false = (
        s,
        record {
          refs = h.refs;
          bound = negotiate_loop-Offers conn_version_retries 0 c.protocol h.bound;
          cport_enabled = h.cport_enabled;
          svc_connection = h.svc_connection;
          connected = h.connected;
          set_up = h.set_up;
        },
      )

  -- What a step of the initialisation leaves when it fails and when it does not
  abbrev pub Stage : (Live → Type 0) → (Live → Type 0) → Live × Errno → Type 0
  Stage p q r = (failed r.1 ≡ true → p r.0) × (failed r.1 ≡ false → q r.0)

  if-Stage :
      (x : Bool) (r s : Live × Errno) (p q : Live → Type 0)
      → (x ≡ true → Stage p q r)
      → (x ≡ false → Stage p q s)
      → Stage p q (if x then r else s)
  if-Stage true r s p q f g = f refl
  if-Stage false r s p q f g = g refl

  passes : (c : Live) (p q : Live → Type 0) → q c → Stage p q (c, success)
  passes c p q h = (λ e. absurd (ground arith), λ e. h)

  abbrev At : Bool → Bool → Bool → Live → Type 0
  At cport svc control d = Acquired l a k d cport svc control false

  pub control_connected-Stage :
      (ret : Errno) (c : Live)
      → c.protocol ≡ a.latest
      → Acquired l a k c true true false false
      → Stage
          (λ d. Acquired l a k d true true false false)
          (λ d. Acquired l a k d true true true false)
          (control_connected l ret c)
  unfolding control_connected
  control_connected-Stage ret c q h =
      let e = h.connected in
      let same = ap (skips l.skip_connected) q in
      if-Stage (skips l.skip_connected c.protocol) _ _ (At true true false) (At true true true)
        (λ y. passes c (At true true false) (At true true true) (record {
          refs = h.refs;
          bound = h.bound;
          cport_enabled = h.cport_enabled;
          svc_connection = h.svc_connection;
          connected = ground arith;
          set_up = h.set_up;
        }))
        (λ y.
          if-Stage (failed ret) _ _ (At true true false) (At true true true)
            (λ z. (λ f. h, λ f. absurd (ground arith)))
            (λ z. passes _ (At true true false) (At true true true) (record {
              refs = h.refs;
              bound = h.bound;
              cport_enabled = h.cport_enabled;
              svc_connection = h.svc_connection;
              connected = ground arith;
              set_up = h.set_up;
            })))

  pub svc_connection_create-Stage :
      (ret : Errno) (c : Live)
      → Acquired l a k c true false false false
      → Stage
          (λ d. Acquired l a k d true false false false)
          (λ d. Acquired l a k d true true false false)
          (svc_connection_create l ret c)
  unfolding svc_connection_create
  svc_connection_create-Stage ret c h =
      let e = h.svc_connection in
      if-Stage (not l.intf) _ _ (At true false false) (At true true false)
        (λ y. passes c (At true false false) (At true true false) (record {
          refs = h.refs;
          bound = h.bound;
          cport_enabled = h.cport_enabled;
          svc_connection = ground arith;
          connected = h.connected;
          set_up = h.set_up;
        }))
        (λ y.
          if-Stage (failed ret) _ _ (At true false false) (At true true false)
            (λ z. (λ f. h, λ f. absurd (ground arith)))
            (λ z. passes _ (At true false false) (At true true false) (record {
              refs = h.refs;
              bound = h.bound;
              cport_enabled = h.cport_enabled;
              svc_connection = ground arith;
              connected = h.connected;
              set_up = h.set_up;
            })))

  pub hd_cport_enable-Stage :
      (ret : Errno) (c : Live)
      → Acquired l a k c false false false false
      → Stage
          (λ d. Acquired l a k d false false false false)
          (λ d. Acquired l a k d true false false false)
          (hd_cport_enable l ret c)
  unfolding hd_cport_enable
  hd_cport_enable-Stage ret c h =
      let e = h.cport_enabled in
      if-Stage (not l.has_enable) _ _ (At false false false) (At true false false)
        (λ y. passes c (At false false false) (At true false false) (record {
          refs = h.refs;
          bound = h.bound;
          cport_enabled = ground arith;
          svc_connection = h.svc_connection;
          connected = h.connected;
          set_up = h.set_up;
        }))
        (λ y.
          if-Stage (failed ret) _ _ (At false false false) (At true false false)
            (λ z. (λ f. h, λ f. absurd (ground arith)))
            (λ z. passes _ (At false false false) (At true false false) (record {
              refs = h.refs;
              bound = h.bound;
              cport_enabled = ground arith;
              svc_connection = h.svc_connection;
              connected = h.connected;
              set_up = h.set_up;
            })))

  pub svc_connection_create-protocol :
      (ret : Errno) (c : Live) → (svc_connection_create l ret c).0.protocol ≡ c.protocol
  unfolding svc_connection_create
  svc_connection_create-protocol ret c = ground arith

  pub hd_cport_enable-protocol :
      (ret : Errno) (c : Live) → (hd_cport_enable l ret c).0.protocol ≡ c.protocol
  unfolding hd_cport_enable
  hd_cport_enable-protocol ret c = ground arith
