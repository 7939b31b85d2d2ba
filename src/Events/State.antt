-- ===== src/Events/State.antt =====
-- src/wstangoproc_cli/EventProcCli.h and EventProcCli.cpp: the maps, and the operations on one
-- subscription.
use web_socket_ds.Base.{
  ℕ, String, Bool, true, false, List, [], ◌∷◌, Option, none, some, if◌then◌else◌, is_nil, is_some,
}
use web_socket_ds.Base.Dict.{Dict, lookup, assign, erase, index, string_eq, nat_eq}
use web_socket_ds.Base.Nested.{lookup3, assign3, erase_inner, erase_pruned}
use web_socket_ds.Wire.{
  EventType, ResponseType, error_m, success, added_early, event_type_to_string,
}
use web_socket_ds.StringProc.Response.{ResponseFromEventReq}

pub record TangoAttrEventType : Type 0 where
  pub event_type_string : String
  pub device_name : String
  pub attr_name : String

pub record UsedEventSubscr : Type 0 where
  pub conn_list : Dict ℕ String
  pub event_sub_id : ℕ
  pub event_attr_ch : TangoAttrEventType
  -- `evCallback != nullptr`.
  pub ev_callback : Bool

-- What `subscribe_event` comes to.
pub data Subscribed : Type 0 where
  with_id : ℕ → Subscribed
  dev_failed : List String → Subscribed
  other_exception : Subscribed

-- The Tango library, over the state `World` of everything outside the program. `new_proxy` is none
-- on success, or the texts of a `DevFailed`.
pub record Tango : Type 1 where
  pub World : Type 0
  pub new_proxy : String → World → Option (List String) × World
  pub subscribe_event : String → String → EventType → World → Subscribed × World
  pub unsubscribe_event : String → ℕ → World → World

pub record EventProcCli : Type 0 where
  pub used_devices : Dict String (Unit {0})
  pub event_subs : Dict String (Dict String (Dict String UsedEventSubscr))
  pub event_types : Dict ℕ (Dict String (Dict String EventType))
  pub list_of_id : Dict ℕ TangoAttrEventType

unfoldable pub empty : EventProcCli
empty = record { used_devices = []; event_subs = []; event_types = []; list_of_id = [] }

-- `eventSubs[dev][attr][type]`, with what it makes where the entry is missing; `unset` is what the
-- uninitialised `int` holds.
unfoldable pub sub_at : ℕ → EventProcCli → String → String → String → UsedEventSubscr
sub_at unset s dev attr type = elim (lookup3 dev attr type s.event_subs) [
  | none ↦ record {
    conn_list = [];
    event_sub_id = unset;
    event_attr_ch = record { event_type_string = ""; device_name = ""; attr_name = "" };
    ev_callback = false;
  }
  | some u ↦ u
]

-- `_getIdOfEventSubscription`; `none` is `out_of_range`.
unfoldable pub get_id_of_event_subscription : EventProcCli → ℕ → String → String → String → Option ℕ
get_id_of_event_subscription s hdl dev attr type = elim (lookup3 dev attr type s.event_subs) [
  | none ↦ none
  | some u ↦ if is_some (lookup hdl u.conn_list) then some u.event_sub_id else none
]

pub record Env (t : Tango) : Type 0 where
  pub proc : EventProcCli
  pub world : t.World

module _ (t : Tango) (unset : ℕ) where
  -- `new Tango::DeviceProxy(deviceName)` and `usedDevices[deviceName] = dp`.
  unfoldable pub after_new_proxy :
      String → EventProcCli → Option (List String) × t.World → (Option (List String) × Bool) × Env t
  after_new_proxy dev s (some errors, w) = ((some errors, true), record { proc = s; world = w })
  after_new_proxy dev s (none, w) = (
    (none, false),
    record { proc = record s { used_devices = assign dev tt s.used_devices }; world = w },
  )

  -- `_checkDeviceExist`: the texts of an exception, or whether the device was there.
  unfoldable pub check_device_exist : String → Env t → (Option (List String) × Bool) × Env t
  check_device_exist dev e =
      if is_some (lookup dev e.proc.used_devices)
      then ((none, true), e)
      else after_new_proxy dev e.proc (t.new_proxy dev e.world)

  -- The answer to one attribute, with the fields that `_addCallback` sets first.
  abbrev pub response :
      String → String → EventType → ResponseType → List String → ℕ → ResponseFromEventReq
  response dev attr et kind errors id = record {
    resp_type = kind;
    event_type = et;
    event_type_str = event_type_to_string et;
    device_name = dev;
    attr_name = attr;
    error_messages = errors;
    event_sub_id = id;
  }

  -- `connList[hdl] = precOpt; eventTypes[hdl][dev][attr] = eventType;` with the entry as it is now.
  unfoldable pub join_subscription :
      ℕ → String → String → String → EventType → UsedEventSubscr → EventProcCli → EventProcCli
  join_subscription hdl dev attr prec et u s = record s {
    event_subs =
        assign3 dev attr (event_type_to_string et)
          (record u { conn_list = assign hdl prec u.conn_list }) s.event_subs;
    event_types = assign3 hdl dev attr et s.event_types;
  }

  abbrev attr_event : String → String → EventType → TangoAttrEventType
  attr_event dev attr et = record {
    event_type_string = event_type_to_string et;
    device_name = dev;
    attr_name = attr;
  }

  -- After a failure the entry keeps a pointer to the callback that was deleted.
  unfoldable pub failed_entry :
      String → String → EventType → UsedEventSubscr → EventProcCli → EventProcCli
  failed_entry dev attr et u s = record s {
    event_subs =
        assign3 dev attr (event_type_to_string et) (record u { ev_callback = true }) s.event_subs;
  }

  -- What `_addCallback` does with the outcome of `subscribe_event`.
  unfoldable pub after_subscribe :
      ℕ
      → String
      → String
      → String
      → EventType
      → UsedEventSubscr
      → EventProcCli
      → Subscribed × t.World
      → ResponseFromEventReq × Env t
  after_subscribe hdl dev attr prec et u s (with_id id, w) = (
    response dev attr et success [] id,
    record {
      proc =
          join_subscription hdl dev attr prec et
            (record u {
              event_sub_id = id;
              event_attr_ch = attr_event dev attr et;
              ev_callback = true;
            })
            (record s { list_of_id = assign id (attr_event dev attr et) s.list_of_id });
      world = w;
    },
  )
  after_subscribe hdl dev attr prec et u s (dev_failed errors, w) = (
    response dev attr et error_m errors unset,
    record { proc = failed_entry dev attr et u s; world = w },
  )
  after_subscribe hdl dev attr prec et u s (other_exception, w) = (
    response dev attr et error_m ("Unknown error" ∷ []) unset,
    record { proc = failed_entry dev attr et u s; world = w },
  )

  -- The first client of a subscription.
  unfoldable pub add_first :
      ℕ
      → String
      → String
      → String
      → EventType
      → UsedEventSubscr
      → Env t
      → ResponseFromEventReq × Env t
  add_first hdl dev attr prec et u e =
      after_subscribe hdl dev attr prec et u e.proc (t.subscribe_event dev attr et e.world)

  -- A further client: the answer's `eventSubId` is set only if the client was there already.
  unfoldable pub add_further :
      ℕ
      → String
      → String
      → String
      → EventType
      → UsedEventSubscr
      → Env t
      → ResponseFromEventReq × Env t
  add_further hdl dev attr prec et u e =
      if is_some (lookup hdl u.conn_list)
      then (response dev attr et added_early [] u.event_sub_id, e)
      else (
        response dev attr et success [] unset,
        record { proc = join_subscription hdl dev attr prec et u e.proc; world = e.world },
      )

  -- `_addCallback`.
  unfoldable pub add_callback :
      ℕ → String → String → String → EventType → Env t → ResponseFromEventReq × Env t
  add_callback hdl dev attr prec et e =
      let u = sub_at unset e.proc dev attr (event_type_to_string et) in
      if u.ev_callback
      then add_further hdl dev attr prec et u e
      else add_first hdl dev attr prec et u e

  -- `_delSubHdl`: whether the subscription has no client left.
  unfoldable pub del_sub_hdl : ℕ → TangoAttrEventType → Env t → Bool × Env t
  del_sub_hdl hdl info e =
      let u = sub_at unset e.proc info.device_name info.attr_name info.event_type_string in
      let left = erase hdl u.conn_list in
      let subs =
        assign3 info.device_name info.attr_name info.event_type_string
          (record u { conn_list = left }) e.proc.event_subs in
      if is_nil left
      then (
        true,
        record {
          proc = record e.proc {
            event_subs = subs;
            list_of_id = erase u.event_sub_id e.proc.list_of_id;
          };
          world = t.unsubscribe_event u.event_attr_ch.device_name u.event_sub_id e.world;
        },
      )
      else (false, record { proc = record e.proc { event_subs = subs }; world = e.world })

-- `_clearSubscrInfoMaps`: the device goes with its last subscription.
unfoldable pub clear_subscr_info_maps : TangoAttrEventType → EventProcCli → EventProcCli
clear_subscr_info_maps info s = record s {
  event_subs = erase_pruned info.device_name info.attr_name info.event_type_string s.event_subs;
  used_devices =
      if is_nil
        (erase_inner info.attr_name info.event_type_string (index info.device_name [] s.event_subs))
      then erase info.device_name s.used_devices
      else s.used_devices;
}
