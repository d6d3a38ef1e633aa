-- ===== src/Nw/Defs.antt =====
-- The state and the functions of mods_nw.c.
use motorola_external_greybu.Prelude.{
  ℕ, Bool, true, false, Option, none, some, List, [], ◌∷◌, ◌++◌, ◌==◌, ◌&&◌, not, if◌then◌else◌,
}
use motorola_external_greybu.Prelude.Errno.{Errno, success, einval, eexist, enodev, enoent, enomem}
use motorola_external_greybu.Prelude.Maps.{lookup, insert, erase, map_values}

-- `struct dest_entry`; `dev` is `none` for the null pointer of a new entry.
pub record Dest : Type 0 where
  pub dev : Option ℕ
  pub cport : ℕ
  pub protocol_id : ℕ
  pub protocol_valid : Bool
  pub filter : Bool

-- `struct cport_set`
pub record CportSet : Type 0 where
  pub dev : ℕ
  pub tree : List (ℕ × Dest)

-- `struct mods_nw_msg_filter`; `number` stands for its address, so for its handler too.
pub record Filter : Type 0 where
  pub number : ℕ
  pub protocol_id : ℕ
  pub type : ℕ
  pub initialized : Bool

-- `mods_nw_filters` and `nw_interfaces`
pub record Network : Type 0 where
  pub filters : List Filter
  pub interfaces : List (ℕ × CportSet)

-- `struct muc_msg`: the CPort of its header, the type in the operation header, and all else.
pub record Message : Type 0 where
  pub cport : ℕ
  pub type : ℕ
  pub rest : List ℕ

-- What a new entry holds after `kzalloc`.
abbrev pub empty_dest : Dest
empty_dest = record {
  dev = none;
  cport = 0;
  protocol_id = 0;
  protocol_valid = false;
  filter = false;
}

-- `_mods_nw_filter_present`
unfoldable pub filter_present : List Filter → ℕ → Bool
filter_present [] protocol = false
filter_present (f ∷ fs) protocol =
    if f.protocol_id == protocol then true else filter_present fs protocol

-- The search of `_mods_nw_apply_filter` for a filter on a protocol and a message type
unfoldable pub find_filter : List Filter → ℕ → ℕ → Option Filter
find_filter [] protocol type = none
find_filter (f ∷ fs) protocol type =
    if (f.protocol_id == protocol) && (f.type == type) then some f else find_filter fs protocol type

-- The entry for a CPort of an interface
unfoldable pub find_dest : Network → ℕ → ℕ → Option Dest
find_dest n intf cport = elim (lookup intf n.interfaces) [
  | none ↦ none
  | some set ↦ lookup cport set.tree
]

-- `mods_nw_get_dl_device`
unfoldable pub get_dl_device : Network → ℕ → Option ℕ
get_dl_device n intf_id = elim (lookup intf_id n.interfaces) [
  | none ↦ none
  | some set ↦ some set.dev
]

-- `mods_nw_add_dl_device` of a device that is not null; `alloc` is the outcome of its allocation.
unfoldable pub add_dl_device : Network → ℕ → ℕ → Bool → Network × Errno
add_dl_device n dev intf_id alloc = elim (lookup intf_id n.interfaces) [
  | some set ↦ (n, eexist)
  | none ↦
      if alloc
      then (
        record n { interfaces = insert intf_id (record { dev = dev; tree = [] }) n.interfaces },
        success,
      )
      else (n, enomem)
]

-- `mods_nw_del_dl_device`
unfoldable pub del_dl_device : Network → ℕ → Network
del_dl_device n intf_id = elim (lookup intf_id n.interfaces) [
  | none ↦ n
  | some set ↦ record n { interfaces = erase intf_id n.interfaces }
]

-- A change of one interface's tree; an interface that is not there stays away.
unfoldable pub with_tree : Network → ℕ → (List (ℕ × Dest) → List (ℕ × Dest)) → Network
with_tree n intf f = elim (lookup intf n.interfaces) [
  | none ↦ n
  | some set ↦ record n { interfaces = insert intf (record set { tree = f set.tree }) n.interfaces }
]

-- A change of one entry that is there.
unfoldable pub with_dest : Network → ℕ → ℕ → (Dest → Dest) → Network
with_dest n intf cport f =
    with_tree n intf
      (λ tree. elim (lookup cport tree) [ none ↦ tree | some d ↦ insert cport (f d) tree ])

-- The entry of a route's end, made if it is missing: the network, and whether it was allocated, or `none`
-- if the allocation failed.
unfoldable pub need_dest : Network → ℕ → ℕ → Bool → Option (Network × Bool)
need_dest n intf cport alloc = elim (find_dest n intf cport) [
  | some d ↦ some (n, false)
  | none ↦ if alloc then some (with_tree n intf (insert cport empty_dest), true) else none
]

-- The part of `cleanup` in `mods_nw_add_route` for one end.
unfoldable pub undo_dest : Network → ℕ → ℕ → Bool → Network
undo_dest n intf cport allocated = if allocated then with_tree n intf (erase cport) else n

-- The protocol and the filter flag that both ends of a route get.
abbrev pub with_protocol : ℕ → Bool → Dest → Dest
with_protocol protocol flag d = record d {
  protocol_valid = true;
  protocol_id = protocol;
  filter = flag;
}

-- `get_protocol dev` is the driver's function for the device, or `none` where it has none; it returns an
-- error or a protocol.
module _ (get_protocol : ℕ → Option (ℕ → Errno × ℕ)) where
  -- `mods_nw_add_route` from the point where both entries are there
  unfoldable pub join_route : Network → ℕ → ℕ → ℕ → ℕ → ℕ → ℕ → Bool → Bool → Network × Errno
  join_route n0 from_intf from_cport to_intf to_cport from_dev to_dev alloc_from alloc_to =
      let n =
        with_dest n0 from_intf from_cport (λ d. record d { cport = to_cport; dev = some to_dev }) in
      elim (get_protocol from_dev) [
        | none ↦ (n, success)
        | some get ↦ elim (get from_cport).0 [
          | success ↦
              let protocol = (get from_cport).1 in
              let flag = filter_present n.filters protocol in
              (
                with_dest (with_dest n from_intf from_cport (with_protocol protocol flag)) to_intf
                    to_cport (with_protocol protocol flag),
                success,
              )
          | _ ↦ (
            undo_dest (undo_dest n to_intf to_cport alloc_to) from_intf from_cport alloc_from,
            (get from_cport).0,
          )
        ]
      ]

  -- `mods_nw_add_route`; `alloc1` and `alloc2` are the outcomes of its two allocations.
  unfoldable pub add_route : Network → ℕ → ℕ → ℕ → ℕ → Bool → Bool → Network × Errno
  add_route n from_intf from_cport to_intf to_cport alloc1 alloc2 =
      elim (get_dl_device n from_intf) [
        | none ↦ (n, enodev)
        | some from_dev ↦ elim (get_dl_device n to_intf) [
          | none ↦ (n, enodev)
          | some to_dev ↦ elim (need_dest n from_intf from_cport alloc1) [
            | none ↦ (n, enomem)
            | some (n1, alloc_from) ↦ elim (need_dest n1 to_intf to_cport alloc2) [
              | none ↦ (undo_dest n1 from_intf from_cport alloc_from, enomem)
              | some (n2, alloc_to) ↦
                  join_route n2 from_intf from_cport to_intf to_cport from_dev to_dev alloc_from
                    alloc_to
            ]
          ]
        ]
      ]

-- `mods_nw_del_route`, which uses the first end only
unfoldable pub del_route : Network → ℕ → ℕ → Network
del_route n from_intf from_cport = with_tree n from_intf (erase from_cport)

-- `_set_filter`
unfoldable pub set_dest : ℕ → Bool → Dest → Dest
set_dest protocol value d =
    if d.protocol_valid && (d.protocol_id == protocol) then record d { filter = value } else d

unfoldable pub set_filter : Network → ℕ → Bool → Network
unfolding set_dest
set_filter n protocol value = record n {
  interfaces =
      map_values (λ set. record set { tree = map_values (set_dest protocol value) set.tree })
        n.interfaces;
}

-- `mods_nw_register_filter` of a filter that is not null: the network, the filter, and the result.
unfoldable pub register_filter : Network → Filter → Network × Filter × Errno
register_filter n f =
    if f.initialized then (n, f, success) else elim (find_filter n.filters f.protocol_id f.type) [
      | some g ↦ (n, f, eexist)
      | none ↦
          let g = record f { initialized = true } in
          let n' = record n { filters = n.filters ++ (g ∷ []) } in
          (
            if filter_present n.filters f.protocol_id then n' else set_filter n' f.protocol_id true,
            g,
            success,
          )
    ]

-- `list_del` of a filter
unfoldable pub drop_filter : ℕ → List Filter → List Filter
drop_filter number [] = []
drop_filter number (f ∷ fs) = if f.number == number then fs else f ∷ drop_filter number fs

-- `mods_nw_unregister_filter` of a filter that is not null
unfoldable pub unregister_filter : Network → Filter → Network × Filter
unregister_filter n f =
    if not f.initialized
    then (n, f)
    else let n' = record n { filters = drop_filter f.number n.filters } in
      (
        if filter_present n'.filters f.protocol_id then n' else set_filter n' f.protocol_id false,
        record f { initialized = false },
      )

-- A call that the switch makes: of a filter's handler, or of a device's `message_send`.
pub data Call : Type 0 where
  handler : Filter → ℕ → Message → Call
  send : ℕ → Message → Call

-- How `mods_nw_switch` ends: with a result and the calls that it made, or by reading through the null
-- pointer of an entry that has no device yet.
pub data Switched : Type 0 where
  returned : Errno → List Call → Switched
  null_pointer : Switched

-- What the handlers and the drivers answer.
module _ (handle : Filter → ℕ → Message → Errno) (message_send : ℕ → Message → Errno) where
  -- The result of the filter decides whether the message is sent on.
  unfoldable pub after_filter : Filter → ℕ → Message → Errno → Switched
  after_filter f dev m enoent = returned (message_send dev m) (handler f dev m ∷ send dev m ∷ [])
  after_filter f dev m e = returned e (handler f dev m ∷ [])

  -- `mods_nw_switch` once the entry is found, with `_mods_nw_apply_filter`
  unfoldable pub forward : Network → Dest → Message → Switched
  unfolding after_filter
  forward n d m0 = elim d.dev [
    | none ↦ null_pointer
    | some dev ↦
        let m = record m0 { cport = d.cport } in
        if d.filter
        then elim (find_filter n.filters d.protocol_id m.type) [
          | none ↦ returned (message_send dev m) (send dev m ∷ [])
          | some f ↦ after_filter f dev m (handle f dev m)
        ]
        else returned (message_send dev m) (send dev m ∷ [])
  ]

  -- `mods_nw_switch` from the device of an interface, with a message that is not null
  unfoldable pub switch : Network → ℕ → Message → Switched
  unfolding forward
  switch n intf m = elim (lookup intf n.interfaces) [
    | none ↦ returned einval []
    | some set ↦ elim (lookup m.cport set.tree) [
      | none ↦ returned enodev []
      | some d ↦ forward n d m
    ]
  ]

-- `mods_nw_find_dest_dl_device` from the device of an interface
unfoldable pub find_dest_dl_device : Network → ℕ → ℕ → Errno × Option ℕ
find_dest_dl_device n intf cport = elim (find_dest n intf cport) [
  | none ↦ (enodev, none)
  | some d ↦ (success, d.dev)
]
