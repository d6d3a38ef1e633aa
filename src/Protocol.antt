-- ===== src/Protocol.antt =====
-- protocol.c and protocol.h: the list of registered protocols, the references that connections hold on
-- a protocol, and the negotiation of a protocol's version. The list's spin lock makes each function one
-- step. A `gb_protocol *` that the list holds is known by its id and version, which `find` goes by.
pub mod Order
pub mod Lookup
pub mod Refs
pub mod Negotiate
mod Tests
use motorola_external_greybu.Prelude.{
  ℕ, ◌+◌, ◌-◌, Bool, true, false, Option, none, some, List, [], ◌∷◌, ◌++◌, ltb, ◌==◌, if◌then◌else◌,
}
use motorola_external_greybu.Prelude.Errno.{Errno, success, eexist, enotsupp, eprotonosupport}
use mathlib.Core.Option

-- The fields of `struct gb_protocol` that protocol.c reads or writes; `owner` is the module.
pub record Protocol : Type 0 where
  pub id : ℕ
  pub major : ℕ
  pub minor : ℕ
  pub count : ℕ
  pub owner : ℕ

abbrev pub u8_max : ℕ
u8_max = 255

-- Whether the walk over the list passes an entry, ends before it, or is at the entry sought.
pub data Place : Type 0 where
  passed ended here : Place

-- The comparisons of `id`, then of `major`.
pub place_major : Protocol → ℕ → ℕ → Place
place_major p id major =
    if ltb p.id id
    then passed
    else if ltb id p.id
    then ended
    else if ltb major p.major
    then passed
    else if ltb p.major major
    then ended
    else here

-- The same, then of `minor`.
pub place : Protocol → ℕ → ℕ → ℕ → Place
place p id major minor = elim (place_major p id major) [
  | passed ↦ passed
  | ended ↦ ended
  | here ↦ if ltb minor p.minor then passed else if ltb p.minor minor then ended else here
]

-- `gb_protocol_find`
pub find : List Protocol → ℕ → ℕ → ℕ → Option Protocol
find [] id major minor = none
find (p ∷ ps) id major minor = elim (place p id major minor) [
  | passed ↦ find ps id major minor
  | ended ↦ none
  | here ↦ some p
]

-- The comparisons of `gb_protocol_find_latest`, which looks at `major` only if `match` is set.
pub place_latest : Protocol → ℕ → ℕ → Bool → Place
place_latest p id major true = place_major p id major
place_latest p id major false = if ltb p.id id then passed else if ltb id p.id then ended else here

-- `gb_protocol_find_latest`
pub find_latest : List Protocol → ℕ → ℕ → Bool → Option Protocol
find_latest [] id major matched = none
find_latest (p ∷ ps) id major matched = elim (place_latest p id major matched) [
  | passed ↦ find_latest ps id major matched
  | ended ↦ none
  | here ↦ some p
]

-- The loop of `__gb_protocol_register` and `list_add_tail`: the new list, or `none` for a duplicate.
pub insert : Protocol → List Protocol → Option (List Protocol)
insert p [] = some (p ∷ [])
insert p (q ∷ qs) = elim (place_major q p.id p.major) [
  | passed ↦ Option.map (◌∷◌ q) (insert p qs)
  | ended ↦ some (p ∷ q ∷ qs)
  | here ↦ none
]

-- What protocol.c asks of the kernel's modules, in order.
pub data ModuleCall : Type 0 where
  module_get module_put : ℕ → ModuleCall

-- The global list, and the calls made so far that changed a module's reference count.
pub record Registry : Type 0 where
  pub protocols : List Protocol
  pub calls : List ModuleCall

-- `__gb_protocol_register`, which sets the owner first.
pub register : Registry → Protocol → ℕ → Registry × Errno
register r p owner = elim (insert (record p { owner = owner }) r.protocols) [
  | none ↦ (r, eexist)
  | some ps ↦ (record r { protocols = ps }, success)
]

-- What `f` does to the entry that `find` returns; the other entries stay.
pub update : List Protocol → ℕ → ℕ → ℕ → (Protocol → Protocol) → List Protocol
update [] id major minor f = []
update (p ∷ ps) id major minor f = elim (place p id major minor) [
  | passed ↦ p ∷ update ps id major minor f
  | ended ↦ p ∷ ps
  | here ↦ f p ∷ ps
]

-- `list_del` on the entry that `find` returns
pub delete : List Protocol → ℕ → ℕ → ℕ → List Protocol
delete [] id major minor = []
delete (p ∷ ps) id major minor = elim (place p id major minor) [
  | passed ↦ p ∷ delete ps id major minor
  | ended ↦ p ∷ ps
  | here ↦ ps
]

-- `gb_protocol_deregister` on a protocol that is not null
pub deregister : Registry → Protocol → Registry
deregister r p = elim (find r.protocols p.id p.major p.minor) [
  | none ↦ r
  | some q ↦
      if q.count == 0 then record r { protocols = delete r.protocols p.id p.major p.minor } else r
]

-- `if (protocol_count != U8_MAX) protocol->count++`
pub bump : Protocol → Protocol
bump p = if p.count == u8_max then p else record p { count = p.count + 1 }

-- `protocol->count--`, which runs only at a count that is not 0
pub unbump : Protocol → Protocol
unbump p = record p { count = p.count - 1 }

-- `try_module_get` is the kernel's: `alive` is its answer for each module.
module _ (alive : ℕ → Bool) where
  -- The part that `gb_protocol_get` and `gb_protocol_get_latest` share, after the search.
  pub get_found : Registry → Option Protocol → Registry × Option Protocol
  get_found r none = (r, none)
  get_found r (some p) =
      if alive p.owner
      then (
        record {
          protocols = update r.protocols p.id p.major p.minor bump;
          calls = r.calls ++ (module_get p.owner ∷ []);
        },
        some (bump p),
      )
      else (r, none)

  -- `gb_protocol_get`
  pub get : Registry → ℕ → ℕ → ℕ → Registry × Option Protocol
  get r id major minor = get_found r (find r.protocols id major minor)

  -- `gb_protocol_get_latest`
  pub get_latest : Registry → ℕ → ℕ → Bool → Registry × Option Protocol
  get_latest r id major matched = get_found r (find_latest r.protocols id major matched)

-- `gb_protocol_put`
pub put : Registry → Protocol → Registry
put r p = elim (find r.protocols p.id p.major p.minor) [
  | none ↦ r
  | some q ↦ if q.count == 0 then r else record {
    protocols = update r.protocols p.id p.major p.minor unbump;
    calls = r.calls ++ (module_put q.owner ∷ []);
  }
]

-- The part of a connection that the version negotiation uses. `protocol` is the bound one.
pub record Link : Type 0 where
  pub protocol : Protocol
  pub module_major : ℕ
  pub module_minor : ℕ

-- What `gb_operation_sync` gives back for a version request: its result, and the response's fields.
pub record Reply : Type 0 where
  pub retval : Errno
  pub major : ℕ
  pub minor : ℕ

-- `sync` answers the version request for a major and a minor version.
module _ (sync : ℕ → ℕ → Reply) where
  -- `gb_protocol_get_version`
  pub get_version : Link → Link × Errno
  get_version c =
      let reply = sync c.protocol.major c.protocol.minor in
      elim reply.retval [
        | success ↦
            if ltb c.protocol.major reply.major
            then (c, enotsupp)
            else (record c { module_major = reply.major; module_minor = reply.minor }, success)
        | _ ↦ (c, reply.retval)
      ]

-- `gb_protocol_version_negotiate` after the first request. `again` is the second version request.
module _ (alive : ℕ → Bool) (again : ℕ → ℕ → Reply) where
  pub find_match : Registry → Link → Registry × Link × Errno
  find_match r c =
      let (r', found) = get_latest alive r c.protocol.id c.module_major true in
      elim found [
        | none ↦ (r', c, eprotonosupport)
        | some p ↦
            let (c', ret) = get_version again (record c { protocol = p }) in
            (put r' c.protocol, c', ret)
      ]

  -- The tests on the first request's result.
  pub negotiate_after : Registry → Link → Errno → Registry × Link × Errno
  negotiate_after r c success =
      if c.module_major == c.protocol.major then (r, c, success) else find_match r c
  negotiate_after r c eprotonosupport = find_match r c
  negotiate_after r c e = (r, c, e)

-- `gb_protocol_version_negotiate`; the two requests may be answered differently.
pub version_negotiate :
    (alive : ℕ → Bool) (first again : ℕ → ℕ → Reply) → Registry → Link → Registry × Link × Errno
version_negotiate alive first again r c =
    let (c', ret) = get_version first c in negotiate_after alive again r c' ret
