-- ===== src/ModService/Requests.antt =====
-- The requests that muc_svc.c takes from the AP and from the modules. `none` says that a handler reads behind the
-- request's payload, whose size it does not check.
use motorola_external_greybu.Prelude.{
  ℕ, ◌+◌, ◌*◌, ◌%◌, ◌/◌, Bool, not, ◌&&◌, ◌||◌, Option, none, some, List, [], ◌∷◌, ltb, ◌==◌,
  if◌then◌else◌,
}
use motorola_external_greybu.Prelude.Errno.{Errno, success, einval, enodev, enomem}
use motorola_external_greybu.Prelude.Maps.{insert}
use motorola_external_greybu.Nw.Defs.{Network, get_dl_device}
use motorola_external_greybu.Operation.Status.{errno_map}
use motorola_external_greybu.ModService.Recovery.{Watchdog, Recovered}
use motorola_external_greybu.ModService.Routes.{PairAllocs, conn_create, conn_destroy}

-- `struct mods_dl_device` of a module on the list `ext_intf`, with what the module's requests set
pub record Module : Type 0 where
  pub intf_id : ℕ
  pub slave_mask : ℕ
  pub slave_state : ℕ
  pub capability_level : ℕ
  pub capability_reason : ℕ
  pub capability_vendor : ℕ
  pub high_current_reserved : Bool

-- `struct muc_svc_data` with the network and the device ids by device. `queued` are the modules whose work for the
-- hotplug request waits, and `actions` is what recoveries did, the last one first.
pub record Service : Type 0 where
  pub network : Network
  pub device_ids : List (ℕ × ℕ)
  pub ext_intf : List Module
  pub watchdog : Watchdog
  pub mod_attached : Bool
  pub authenticate : Bool
  pub queued : List ℕ
  pub actions : List Recovered

pub record ApRequest : Type 0 where
  pub operation_id : ℕ
  pub type : ℕ
  pub payload : List ℕ

-- A byte is `none` if it was never written.
pub record ApResponse : Type 0 where
  pub operation_id : ℕ
  pub type : ℕ
  pub result : ℕ
  pub payload : List (Option ℕ)

-- The outcomes of the allocations, and the answer of `mods_nw_switch` to the response
pub record ApAnswers : Type 0 where
  pub request_alloc : Bool
  pub pair : PairAllocs
  pub response_alloc : Bool
  pub route : Errno

-- `svc_gb_send_response`: the response, if there is one, and the result.
unfoldable pub send_response :
    ApAnswers → ApRequest → List (Option ℕ) → ℕ → Option ApResponse × Errno
send_response a req payload status =
    let response : ApResponse = record {
      operation_id = req.operation_id;
      type = if ltb req.type 128 then req.type + 128 else req.type;
      result = status;
      payload = payload;
    } in
    if a.response_alloc then (some response, a.route) else (none, enomem)

-- A request with an operation id gets a response.
unfoldable pub respond_request : ApAnswers → ApRequest → Errno → Option ApResponse × Errno
unfolding send_response
respond_request a req ret =
    if req.operation_id == 0 then (none, ret) else send_response a req [] (errno_map ret)

-- `svc_set_intf_id`
unfoldable pub set_intf_id : List ℕ → Service → Option (Service × Errno)
set_intf_id [] s = none
set_intf_id (intf_id ∷ rest) s = elim (get_dl_device s.network intf_id) [
  | none ↦ some (s, enodev)
  | some dev ↦ some (record s { device_ids = insert dev intf_id s.device_ids }, success)
]

-- The interfaces and CPorts of a request for a connection, whose words are little-endian
unfoldable pub connection_ends : List ℕ → Option (ℕ × ℕ × ℕ × ℕ)
connection_ends (intf1 ∷ low1 ∷ high1 ∷ intf2 ∷ low2 ∷ high2 ∷ rest) =
    some (intf1, low1 + 256 * high1, intf2, low2 + 256 * high2)
connection_ends _ = none

-- `struct svc_gb_dme_entry`; the only entry has no handlers.
pub record DmeEntry : Type 0 where
  pub attr : ℕ
  pub selector : ℕ
  pub default_value : ℕ

-- `dme_entries`
abbrev pub dme_entries : List DmeEntry
dme_entries = record { attr = 16515; selector = 0; default_value = 11536365 } ∷ []

-- `svc_gb_get_dme_entry`
unfoldable pub get_dme_entry : List DmeEntry → ℕ → ℕ → Option DmeEntry
get_dme_entry [] attr selector = none
get_dme_entry (e ∷ es) attr selector =
    if (e.attr == attr) && (e.selector == selector) then some e else get_dme_entry es attr selector

-- The attribute and the selector of a DME request
unfoldable pub dme_request : List ℕ → Option (ℕ × ℕ)
dme_request (intf ∷ attr_low ∷ attr_high ∷ selector_low ∷ selector_high ∷ rest) =
    some (attr_low + 256 * attr_high, selector_low + 256 * selector_high)
dme_request _ = none

-- The response of `svc_gb_dme_get`: the result code of two bytes, and the value of four, which are not written if
-- there is no entry.
unfoldable pub dme_get_response : Option DmeEntry → List (Option ℕ)
dme_get_response none = some 8 ∷ some 0 ∷ none ∷ none ∷ none ∷ none ∷ []
dme_get_response (some e) =
    some 0
    ∷ some 0
    ∷ some (e.default_value % 256)
    ∷ some (e.default_value / 256 % 256)
    ∷ some (e.default_value / 65536 % 256)
    ∷ some (e.default_value / 16777216 % 256)
    ∷ []

-- The response of `svc_gb_dme_set`
unfoldable pub dme_set_response : Option DmeEntry → List (Option ℕ)
dme_set_response none = some 8 ∷ some 0 ∷ []
dme_set_response (some e) = some 0 ∷ some 0 ∷ []

-- `svc_gb_dme_get` and `svc_gb_dme_set`, which send their response whatever the operation id
unfoldable pub dme :
    (Option DmeEntry → List (Option ℕ)) → ApAnswers → ApRequest → Option (Option ApResponse × Errno)
unfolding get_dme_entry send_response
dme response a req = elim (dme_request req.payload) [
  | none ↦ none
  | some (attr, selector) ↦
      some ((send_response a req (response (get_dme_entry dme_entries attr selector)) 0).0, success)
]

-- The types of the requests of the AP that get a response without payload
abbrev pub is_plain : ℕ → Bool
is_plain type =
    (type == 3) || ((type == 6) || ((type == 7) || ((type == 8) || ((type == 11) || (type == 12)))))

module _ (get_protocol : ℕ → Option (ℕ → Errno × ℕ)) where
  -- The cases of `muc_svc_handle_ap_request` that get a response without payload
  unfoldable pub plain_request : ApAnswers → ApRequest → Service → Option (Service × Errno)
  unfolding set_intf_id connection_ends conn_create conn_destroy
  plain_request a req s =
      if req.type == 3
      then set_intf_id req.payload s
      else if req.type == 7
      then elim (connection_ends req.payload) [
        | none ↦ none
        | some (i, c, j, k) ↦
            let made = conn_create get_protocol s.network i c j k a.pair in
            some (record s { network = made.0 }, made.1)
      ]
      else if req.type == 8
      then elim (connection_ends req.payload) [
        | none ↦ none
        | some (i, c, j, k) ↦ some (record s { network = conn_destroy s.network i c j k }, success)
      ]
      else some (s, success)

  -- `muc_svc_handle_ap_request`: the state, the response and the result.
  unfoldable pub handle_ap_request :
      ApAnswers → ApRequest → Service → Option (Service × Option ApResponse × Errno)
  unfolding plain_request respond_request dme
  handle_ap_request a req s =
      if not a.request_alloc
      then some (s, none, enomem)
      else if is_plain req.type
      then elim (plain_request a req s) [
        | none ↦ none
        | some (s', ret) ↦ some (s', (respond_request a req ret).0, (respond_request a req ret).1)
      ]
      else if req.type == 9
      then elim (dme dme_get_response a req) [ none ↦ none | some (r, ret) ↦ some (s, r, ret) ]
      else if req.type == 10
      then elim (dme dme_set_response a req) [ none ↦ none | some (r, ret) ↦ some (s, r, ret) ]
      else some (s, none, einval)
