-- ===== src/Connection.antt =====
-- connection.c and connection.h: the connections of a host device. Interfaces and bundles are known by
-- numbers in place of their addresses. `hd->connections` and the id map stand in `HostDevice`.
pub mod Create
pub mod Life
pub mod Accounting
pub mod Unwinding
pub mod Stages
pub mod Balance
pub mod Tests
use motorola_external_greybu.Prelude.{
  ℕ, ◌+◌, Bool, true, false, Option, none, some, List, [], ◌∷◌, ltb, ◌==◌, ◌&&◌, not, if◌then◌else◌,
}

-- `enum gb_connection_state`
pub data State : Type 0 where
  invalid disabled enabled error destroying attached_destroying : State

-- The fields of `struct gb_connection` that identify it and that say what it may do.
pub record Connection : Type 0 where
  pub hd_cport_id : ℕ
  pub intf : Option ℕ
  pub bundle : Option ℕ
  pub intf_cport_id : ℕ
  pub protocol_id : ℕ
  pub state : State

-- `next_alloc` counts the memory allocations, so that each may succeed or fail on its own.
pub record HostDevice : Type 0 where
  pub connections : List Connection
  pub cport_id_map : List ℕ
  pub num_cports : ℕ
  pub next_alloc : ℕ

abbrev pub is_some_eq : Option ℕ → ℕ → Bool
is_some_eq none n = false
is_some_eq (some m) n = m == n

-- `gb_connection_intf_find`
unfoldable pub intf_find : List Connection → ℕ → ℕ → Option Connection
intf_find [] intf cport_id = none
intf_find (c ∷ cs) intf cport_id =
    if is_some_eq c.intf intf && (c.intf_cport_id == cport_id)
    then some c
    else intf_find cs intf cport_id

-- `gb_connection_hd_find`
unfoldable pub hd_find : List Connection → ℕ → Option Connection
hd_find [] cport_id = none
hd_find (c ∷ cs) cport_id = if c.hd_cport_id == cport_id then some c else hd_find cs cport_id

-- `ida_simple_remove`: the id is free again.
unfoldable pub remove_id : ℕ → List ℕ → List ℕ
remove_id n [] = []
remove_id n (m ∷ ms) = if m == n then remove_id n ms else m ∷ remove_id n ms

-- The kernel's part: `alloc n` is whether the n-th allocation succeeds, and `ida_get ids start end` is the
-- id that `ida_simple_get` finds free in the range.
module _ (alloc : ℕ → Bool) (ida_get : List ℕ → ℕ → ℕ → Option ℕ) where
  -- `gb_connection_create` from the allocation of the id on, whose range is `start` to `end`.
  unfoldable pub create_in :
      HostDevice → ℕ → ℕ → Option ℕ → Option ℕ → ℕ → ℕ → HostDevice × Option Connection
  create_in hd start end intf bundle cport_id protocol_id =
      elim (ida_get hd.cport_id_map start end) [
        | none ↦ (hd, none)
        | some n ↦
            let took = n ∷ hd.cport_id_map in
            let c : Connection = record {
              hd_cport_id = n;
              intf = intf;
              bundle = bundle;
              intf_cport_id = cport_id;
              protocol_id = protocol_id;
              state = disabled;
            } in
            -- The connection, then its work queue; a failure gives the id back.
            if not (alloc hd.next_alloc)
            then (
              record hd { cport_id_map = remove_id n took; next_alloc = hd.next_alloc + 1 },
              none,
            )
            else if not (alloc (hd.next_alloc + 1))
            then (
              record hd { cport_id_map = remove_id n took; next_alloc = hd.next_alloc + 2 },
              none,
            )
            else (
              record hd {
                connections = c ∷ hd.connections;
                cport_id_map = took;
                next_alloc = hd.next_alloc + 2;
              },
              some c,
            )
      ]

  -- The range of ids: `none` is the -1 that asks for any.
  unfoldable pub create_at :
      HostDevice → Option ℕ → Option ℕ → Option ℕ → ℕ → ℕ → HostDevice × Option Connection
  create_at hd none intf bundle cport_id protocol_id =
      create_in hd 0 hd.num_cports intf bundle cport_id protocol_id
  create_at hd (some n) intf bundle cport_id protocol_id =
      if ltb n hd.num_cports
      then create_in hd n (n + 1) intf bundle cport_id protocol_id
      else (hd, none)

  -- `gb_connection_create_dynamic`: `gb_connection_create` with a bundle, whose interface is `intf`.
  unfoldable pub create_dynamic : HostDevice → ℕ → ℕ → ℕ → ℕ → HostDevice × Option Connection
  create_dynamic hd intf bundle cport_id protocol_id =
      elim (intf_find hd.connections intf cport_id) [
        | some c ↦ (hd, none)
        | none ↦ create_at hd none (some intf) (some bundle) cport_id protocol_id
      ]

  -- `gb_connection_create_static`: no interface and no bundle, so no search for the CPort.
  unfoldable pub create_static : HostDevice → ℕ → ℕ → HostDevice × Option Connection
  create_static hd hd_cport_id protocol_id = create_at hd (some hd_cport_id) none none 0 protocol_id
