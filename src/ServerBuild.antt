-- ===== src/ServerBuild.antt =====
-- src/wstangoproc_ser/WSTangoConnSer.cpp, and TangoProcessor.cpp as the server build compiles it:
-- the asynchronous requests to the one device or the one group that the server stands for.
pub mod Permission
pub mod Requests
pub mod Waiting
use web_socket_ds.Base.{ℕ, String, ◌<>◌, Bool, true, false, not, ◌&&◌, List, if◌then◌else◌, str_beq}
use web_socket_ds.Wire.{ErrorType, TypeWsReq, single, single_from_group}
use web_socket_ds.Request.{ParsedInputJson, is_value, check_key, value_at}
use web_socket_ds.StringProc.Response.{error_info, exception_string_out}
use web_socket_ds.UserControl
use web_socket_ds.UserControl.{AuthDs, Result, UserData}
use web_socket_ds.Session.Options.{WsTangoConn}
use web_socket_ds.Session.Users.{check_permission_for_request}
use web_socket_ds.Connections.{Called, fails, escapes}
use web_socket_ds.Devices.{Formats, Asked, got, dev_failed, Devices}
use web_socket_ds.Devices.Asking.{Tasks, process_async_req, process_group}
use web_socket_ds.Client.{as_answer}

-- `_isInitDs`, `_errorMessage`, `_isGroup`, the property DeviceServer and the devices that the group
-- listed when it was made.
pub record WsTangoConnSer : Type 0 where
  pub is_init_ds : Bool
  pub error_message : String
  pub is_group : Bool
  pub device_server : String
  pub device_list : List String

-- `get_device` of the group: whether it gives a device or a null pointer, or a `DevFailed`.
module _ (a : AuthDs) {F W Tree : Type 0} (f : Formats F) (d : Devices F W)
    (get_device : String → W → Asked Bool × W) (children : Tree → List (String × String))
    (s : WsTangoConn) (ser : WsTangoConnSer) where
  abbrev proxy_of : Asked Bool × W → Asked (Unit {0}) × W
  proxy_of (got found, w) = (got tt, w)
  proxy_of (dev_failed errs, w) = (dev_failed errs, w)

  -- The server build asks the group for its devices, where the client build makes a proxy. A
  -- device of the group's list is in the group.
  unfoldable pub of_group : Devices F W
  of_group = record d { new_proxy = λ dev w. proxy_of (get_device dev w) }

  module _ (p : ParsedInputJson Tree) where
    unfoldable pub refuse_async : ErrorType → String → String
    refuse_async kind message = exception_string_out (record (error_info kind) {
      typeof_req = p.type_req_str;
      id = p.id;
      error_message = message;
    })

    unfoldable pub device_failed : String → List String → String
    device_failed dev errs = exception_string_out (record (error_info ErrorType.tango_exception) {
      typeof_req = p.type_req_str;
      id = p.id;
      device_name = dev;
      error_messages = errs;
    })

    unfoldable pub to_device : String → Asked Bool × W → Called (Tasks × List String) × W
    to_device dev (got true, w) =
        as_answer f d children p (process_async_req f d children p dev single_from_group w)
    to_device dev (got false, w) = (
      fails (refuse_async ErrorType.device_not_in_group ("Device: " <> dev <> " not in group")),
      w,
    )
    to_device dev (dev_failed errs, w) = (fails (device_failed dev errs), w)

    -- Whether the request is for one device of the group.
    unfoldable pub is_for_device : Bool
    is_for_device =
        is_value (check_key p "device_name")
        && not
            (is_value (check_key p "group_request") && str_beq (value_at p "group_request") "true")

    -- `processAsyncReq` for a group in the server build.
    unfoldable pub process_in_group : W → Called (Tasks × List String) × W
    process_in_group w =
        if is_for_device
        then to_device (value_at p "device_name") (get_device (value_at p "device_name") w)
        else process_group f of_group children p ser.device_list w

    -- `processAsyncReq`, for the group or for the device.
    unfoldable pub process_any : W → Called (Tasks × List String) × W
    process_any w =
        if ser.is_group
        then process_in_group w
        else as_answer f d children p (process_async_req f d children p ser.device_server single w)

    -- What permission is asked for: a name, and whether it is a group's.
    unfoldable pub asked_for : String × Bool
    asked_for =
        if ser.is_group
        then (if is_value (check_key p "device_name")
            then (value_at p "device_name", false)
            else (ser.device_server, true))
        else (ser.device_server, false)

    abbrev processed :
        a.World → Called (Tasks × List String) × W → Called (Tasks × List String) × (a.World × W)
    processed u (r, w) = (r, (u, w))

    unfoldable pub if_permitted :
        Result String × a.World → W → Called (Tasks × List String) × (a.World × W)
    if_permitted (UserControl.ok mess, u) w = processed u (process_any w)
    if_permitted (UserControl.runtime_error what, u) w = (fails what, (u, w))
    if_permitted (UserControl.other_exception, u) w = (escapes, (u, w))

    unfoldable pub ask_permission :
        UserData → a.World → W → Called (Tasks × List String) × (a.World × W)
    ask_permission conn u w =
        if_permitted (check_permission_for_request a s p conn asked_for.0 asked_for.1 u) w

    -- `sendRequestAsync`, over what AuthDS and Tango keep.
    unfoldable pub send_request_async :
        UserData → a.World → W → Called (Tasks × List String) × (a.World × W)
    send_request_async conn u w =
        if ser.is_init_ds
        then elim p.type_req [
          | TypeWsReq.command ↦ ask_permission conn u w
          | TypeWsReq.attribute_write ↦ ask_permission conn u w
          | TypeWsReq.attribute_read ↦ processed u (process_any w)
          | _ ↦ (fails (refuse_async ErrorType.unknown_req_type "Unknown Request"), (u, w))
        ]
        else (fails (refuse_async ErrorType.init_failed ser.error_message), (u, w))
