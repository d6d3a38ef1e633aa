-- ===== src/ModService/Routes.antt =====
-- The pairs of routes that muc_svc.c adds and deletes in the network of mods_nw.c.
use motorola_external_greybu.Prelude.{ℕ, Bool, Option, if◌then◌else◌}
use motorola_external_greybu.Prelude.Errno.{Errno, failed, success}
use motorola_external_greybu.Nw.Defs.{Network, add_route, del_route}

-- `MODS_INTF_SVC` and `MODS_INTF_AP`
abbrev pub intf_svc : ℕ
intf_svc = 0

abbrev pub intf_ap : ℕ
intf_ap = 1

-- The outcomes of the two allocations of each of two routes
pub record PairAllocs : Type 0 where
  pub near1 : Bool
  pub far1 : Bool
  pub near2 : Bool
  pub far2 : Bool

-- `svc_gb_conn_destroy`
unfoldable pub conn_destroy : Network → ℕ → ℕ → ℕ → ℕ → Network
conn_destroy n intf1_id cport1_id intf2_id cport2_id =
    del_route (del_route n intf1_id cport1_id) intf2_id cport2_id

-- `muc_svc_destroy_control_route`
unfoldable pub destroy_control_route : Network → ℕ → ℕ → ℕ → Network
destroy_control_route n intf_id src dest = del_route (del_route n intf_svc src) intf_id dest

module _ (get_protocol : ℕ → Option (ℕ → Errno × ℕ)) where
  -- `svc_gb_conn_create`
  unfoldable pub conn_create : Network → ℕ → ℕ → ℕ → ℕ → PairAllocs → Network × Errno
  conn_create n intf1_id cport1_id intf2_id cport2_id a =
      let there = add_route get_protocol n intf1_id cport1_id intf2_id cport2_id a.near1 a.far1 in
      let back =
        add_route get_protocol there.0 intf2_id cport2_id intf1_id cport1_id a.near2 a.far2 in
      if failed there.1
      then there
      else if failed back.1
      then (del_route back.0 intf1_id cport1_id, back.1)
      else (back.0, success)

  -- `muc_svc_create_control_route`
  unfoldable pub create_control_route : Network → ℕ → ℕ → ℕ → PairAllocs → Network × Errno
  create_control_route n intf_id src dest a =
      let there = add_route get_protocol n intf_svc src intf_id dest a.near1 a.far1 in
      let back = add_route get_protocol there.0 intf_id dest intf_svc src a.near2 a.far2 in
      if failed there.1
      then there
      else if failed back.1
      then (del_route back.0 intf_svc src, back.1)
      else (back.0, success)
