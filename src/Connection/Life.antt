-- ===== src/Connection/Life.antt =====
-- The life cycle of a connection in connection.c: `gb_connection_init`, `gb_connection_exit` and the error
-- accounting. `Live` has what these functions change of a connection and of what it is connected to.
use motorola_external_greybu.Prelude.{
  ℕ, zero, suc, ◌+◌, ◌-◌, Bool, true, false, not, Option, none, some, List, [], ◌∷◌, if◌then◌else◌,
}
use motorola_external_greybu.Prelude.Errno.{
  failed, Errno, success, eprotonosupport, eshutdown, etimedout,
}
use motorola_external_greybu.Connection.{State, enabled, error, destroying, attached_destroying}

-- `protocol` is the protocol that is bound, `refs` the number of references to it that the connection holds.
-- The next three tell whether the host's CPort is enabled, the SVC has made the connection, and the module
-- knows its CPort as connected. `operations` are the active operations, the last one first, each with the
-- answer to whether it is incoming; `cancelled` are those that were cancelled, with their error. `handler` is
-- whether the protocol's driver has set up the connection.
pub record Live : Type 0 where
  pub state : State
  pub protocol : Option ℕ
  pub refs : ℕ
  pub cport_enabled : Bool
  pub svc_connection : Bool
  pub control_connected : Bool
  pub handler : Bool
  pub operations : List (ℕ × Bool)
  pub cancelled : List (ℕ × Bool × Errno)

-- What does not change: whether the connection has an interface, whether that is disconnected, the flags of
-- each protocol, and whether the host driver has functions for CPorts.
pub record Setup : Type 0 where
  pub intf : Bool
  pub disconnected : Bool
  pub skip_connected : ℕ → Bool
  pub skip_disconnected : ℕ → Bool
  pub skip_version : ℕ → Bool
  pub has_enable : Bool
  pub has_disable : Bool

-- The answers of the parts that `gb_connection_init` calls: the protocol that `gb_protocol_get_latest` finds,
-- the host driver, the SVC, the control protocol, each negotiation of the version, with the protocol that
-- `gb_protocol_version_negotiate` binds in place of the one that is bound, if it does, and the protocol's driver.
pub record Answers : Type 0 where
  pub latest : Option ℕ
  pub cport_enable : Errno
  pub svc_create : Errno
  pub connected : Errno
  pub negotiate : ℕ → Errno × Option ℕ
  pub connection_init : Errno

-- Whether the protocol that is bound has a flag
unfoldable pub skips : (ℕ → Bool) → Option ℕ → Bool
skips flag none = false
skips flag (some p) = flag p

-- `GB_CONN_VERSION_RETRIES`
abbrev pub conn_version_retries : ℕ
conn_version_retries = 2

-- `gb_connection_bind_protocol`
unfoldable pub bind_protocol : Option ℕ → Live → Live × Errno
bind_protocol none c = (c, eprotonosupport)
bind_protocol (some p) c = (record c { protocol = some p; refs = c.refs + 1 }, success)

-- `gb_connection_unbind_protocol`; the reference is put.
abbrev pub unbind_protocol : Live → Live
unbind_protocol c = record c { protocol = none; refs = c.refs - 1 }

-- `gb_connection_hd_cport_enable` and `gb_connection_hd_cport_disable`
unfoldable pub hd_cport_enable : Setup → Errno → Live → Live × Errno
hd_cport_enable l ret c =
    if not l.has_enable
    then (c, success)
    else if failed ret
    then (c, ret)
    else (record c { cport_enabled = true }, success)

abbrev pub hd_cport_disable : Setup → Live → Live
hd_cport_disable l c = if l.has_disable then record c { cport_enabled = false } else c

-- `gb_connection_svc_connection_create` and `gb_connection_svc_connection_destroy`, which do nothing for a
-- static connection
unfoldable pub svc_connection_create : Setup → Errno → Live → Live × Errno
svc_connection_create l ret c =
    if not l.intf
    then (c, success)
    else if failed ret
    then (c, ret)
    else (record c { svc_connection = true }, success)

abbrev pub svc_connection_destroy : Setup → Live → Live
svc_connection_destroy l c = if l.intf then record c { svc_connection = false } else c

-- `gb_connection_control_connected` and `gb_connection_control_disconnected`, whose failure is only logged
unfoldable pub control_connected : Setup → Errno → Live → Live × Errno
control_connected l ret c =
    if skips l.skip_connected c.protocol
    then (c, success)
    else if failed ret
    then (c, ret)
    else (record c { control_connected = true }, success)

abbrev pub control_disconnected : Setup → Live → Live
control_disconnected l c =
    if skips l.skip_disconnected c.protocol then c else record c { control_connected = false }

-- The protocol that is bound after a negotiation. The reference to the one before is put, and the connection has
-- one to the new one.
unfoldable pub rebind : Option ℕ → Option ℕ → Option ℕ
rebind none bound = bound
rebind (some p) bound = some p

-- The loop of `gb_connection_protocol_get_version`, with the number of retries that are left, the number of
-- negotiations made and the protocol that is bound: the result, how often it was negotiated and the protocol.
unfoldable pub negotiate_loop : (ℕ → Errno × Option ℕ) → ℕ → ℕ → Option ℕ → Errno × ℕ × Option ℕ
negotiate_loop negotiate zero n bound = ((negotiate n).0, suc n, rebind (negotiate n).1 bound)
negotiate_loop negotiate (suc left) n bound =
    let now = rebind (negotiate n).1 bound in
    let rest = negotiate_loop negotiate left (suc n) now in
    elim (negotiate n).0 [ etimedout ↦ rest | ret ↦ (ret, suc n, now) ]

-- `gb_connection_protocol_get_version`
unfoldable pub protocol_get_version : Setup → (ℕ → Errno × Option ℕ) → Live → Live × Errno
unfolding negotiate_loop
protocol_get_version l negotiate c =
    if skips l.skip_version c.protocol
    then (c, success)
    else let out = negotiate_loop negotiate conn_version_retries 0 c.protocol in
      (record c { protocol = out.2 }, out.0)

-- The labels of `gb_connection_init`, from the last one on
abbrev pub err_unbind_protocol : Live → Live
err_unbind_protocol c = unbind_protocol c

abbrev pub err_hd_cport_disable : Setup → Live → Live
err_hd_cport_disable l c = err_unbind_protocol (hd_cport_disable l c)

abbrev pub err_svc_destroy : Setup → Live → Live
err_svc_destroy l c = err_hd_cport_disable l (svc_connection_destroy l c)

abbrev pub err_disconnect : Setup → Live → Live
err_disconnect l c = err_svc_destroy l (control_disconnected l (record c { state = error }))

-- The stages of `gb_connection_init`, from the last one on
unfoldable pub init_handler : Setup → Answers → Live → Live × Errno
init_handler l a c =
    if failed a.connection_init
    then (err_disconnect l c, a.connection_init)
    else (record c { handler = true }, success)

unfoldable pub init_version : Setup → Answers → Live → Live × Errno
unfolding protocol_get_version init_handler
init_version l a c =
    let r = protocol_get_version l a.negotiate c in
    if failed r.1 then (err_disconnect l r.0, r.1) else init_handler l a r.0

unfoldable pub init_control : Setup → Answers → Live → Live × Errno
unfolding control_connected init_version
init_control l a c =
    let r = control_connected l a.connected c in
    if failed r.1
    then (err_svc_destroy l r.0, r.1)
    else init_version l a (record r.0 { state = enabled })

unfoldable pub init_svc : Setup → Answers → Live → Live × Errno
unfolding svc_connection_create init_control
init_svc l a c =
    let r = svc_connection_create l a.svc_create c in
    if failed r.1 then (err_hd_cport_disable l r.0, r.1) else init_control l a r.0

unfoldable pub init_cport : Setup → Answers → Live → Live × Errno
unfolding hd_cport_enable init_svc
init_cport l a c =
    let r = hd_cport_enable l a.cport_enable c in
    if failed r.1 then (err_unbind_protocol r.0, r.1) else init_svc l a r.0

-- `gb_connection_init`
unfoldable pub init : Setup → Answers → Live → Live × Errno
unfolding bind_protocol init_cport
init l a c = let r = bind_protocol a.latest c in if failed r.1 then r else init_cport l a r.0

abbrev pub is_state_enabled : State → Bool
is_state_enabled s = elim s [ enabled ↦ true | _ ↦ false ]

abbrev pub is_state_destroying : State → Bool
is_state_destroying s = elim s [ destroying ↦ true | _ ↦ false ]

-- `gb_connection_cancel_operations`: each operation is cancelled, and leaves the list. An operation that is
-- cancelled leaves the list when its last user is gone, which is awaited.
unfoldable pub cancel_operations : Errno → List (ℕ × Bool) → List (ℕ × Bool × Errno)
cancel_operations errno [] = []
cancel_operations errno ((o, incoming) ∷ os) = (o, incoming, errno) ∷ cancel_operations errno os

-- The state that `gb_connection_exit` sets
abbrev pub exit_state : Setup → State
exit_state l =
    if l.intf then if l.disconnected then destroying else attached_destroying else destroying

-- What `gb_connection_exit` tears down
abbrev pub tear_down : Setup → Live → Live
tear_down l c = err_svc_destroy l (control_disconnected l (record c { handler = false }))

-- The operations of a connection that goes for good are cancelled.
unfoldable pub stop_operations : Live → Live
unfolding cancel_operations
stop_operations c =
    if is_state_destroying c.state
    then record c { operations = []; cancelled = cancel_operations eshutdown c.operations }
    else c

-- `gb_connection_exit`
unfoldable pub exit : Setup → Live → Live
unfolding stop_operations
exit l c =
    if is_state_enabled c.state
    then tear_down l (stop_operations (record c { state = exit_state l }))
    else c
