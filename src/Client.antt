-- ===== src/Client.antt =====
-- src/wstangoproc_cli/WSTangoConnCli.cpp and GroupForWs.cpp: the requests of the client build, and
-- what WSThread asks of it, as an implementation of the interface `TangoConn`.
pub mod Pipes
pub mod Permission
pub mod Contained
pub mod Escapes
pub mod Dimensions
use web_socket_ds.Base.{
  ℕ, String, ◌<>◌, Bool, true, false, not, ◌&&◌, ◌||◌, List, [], ◌∷◌, Option, none, some,
  if◌then◌else◌, map, nonempty, is_empty, str_beq, get_or, is_some,
}
use web_socket_ds.Base.Dict.{lookup, string_eq}
use web_socket_ds.Wire.{client_mode, ErrorType, TypeWsReq, single}
use web_socket_ds.Request.{ParsedInputJson, is_value, check_key, value_at}
use web_socket_ds.StringProc.Response.{error_info, exception_string_out}
use web_socket_ds.StringProc.Split.{split_device_name}
use web_socket_ds.UserControl
use web_socket_ds.UserControl.{AuthDs, Result, UserData}
use web_socket_ds.Session.Options.{WsTangoConn}
use web_socket_ds.Session.Users.{check_user_of, common_requsts, check_permission_for_request}
use web_socket_ds.Events.State.{Tango, Env, EventProcCli, empty}
use web_socket_ds.Events.Reply.{EventReply, message}
use web_socket_ds.Events.Requests.{request}
use web_socket_ds.Events.Unsubscribe.{unsubscribe_all_dev}
use web_socket_ds.Connections.{TaskInfo, Called, gives, fails, escapes, CheckReply, TangoConn}
use web_socket_ds.Devices.{Formats, Asked, got, dev_failed, Devices}
use web_socket_ds.Devices.Asking.{Tasks, process_async_req, process_group}
use web_socket_ds.Devices.Answering.{for_check_response}
use Pipes.{read_of_group, read_of_device}

-- AuthDS and Tango with what they keep outside the program, `eventProc`, which is null at first,
-- and `_numOfConnections`.
pub record ClientWorld (a : AuthDs) (t : Tango) : Type 0 where
  pub auth : a.World
  pub tango : t.World
  pub event_proc : Option EventProcCli
  pub num_of_connections : ℕ

module _ {Tree : Type 0} (p : ParsedInputJson Tree) where
  unfoldable pub is_group_req : Bool
  is_group_req =
      is_value (check_key p "group_request") && str_beq (value_at p "group_request") "true"

  -- `_genDeviceForWs` and `_genGroupForWs`, where Tango refuses.
  unfoldable pub not_generated : String → List String → String
  not_generated device errors =
      exception_string_out (record (error_info ErrorType.tango_exception) {
        id = p.id;
        typeof_req = p.type_req_str;
        error_messages = errors;
        device_name = device;
      })

abbrev first_host : List String → String
first_host [] = ""
first_host (dev ∷ devs) = (split_device_name dev).0

-- The patterns of another host, whose list of devices comes back without it.
unfoldable pub needs_host : String → List String → Bool
needs_host pattern [] = false
needs_host pattern (dev ∷ devs) =
    nonempty (split_device_name pattern).0 && is_empty (first_host (dev ∷ devs))

-- A group: the patterns that were added to it, and `_deviceList`.
abbrev pub Group : Type 0
Group = List String × List String

module _ {F W : Type 0} (d : Devices F W) where
  abbrev with_list : List String → Asked (List String) × W → Asked Group × W
  with_list patterns (got devs, w) = (got (patterns, devs), w)
  with_list patterns (dev_failed errors, w) = (dev_failed errors, w)

  abbrev hosted : String → List String → List String
  hosted pattern devs = map (λ dev. (split_device_name pattern).0 <> dev) devs

  unfoldable pub listed : String → Asked (List String) × W → Asked Group × W
  listed pattern (dev_failed errors, w) = (dev_failed errors, w)
  listed pattern (got devs, w) =
      if needs_host pattern devs
      then with_list (hosted pattern devs) (d.group_devices (hosted pattern devs) w)
      else (got (pattern ∷ [], devs), w)

  -- The constructor of `GroupForWs`.
  unfoldable pub group_for_ws : String → W → Asked Group × W
  group_for_ws pattern w = listed pattern (d.group_devices (pattern ∷ []) w)

module _ {F W Tree : Type 0} (f : Formats F) (d : Devices F W)
    (children : Tree → List (String × String)) (p : ParsedInputJson Tree) where
  unfoldable pub as_answer : Called Tasks × W → Called (Tasks × List String) × W
  as_answer (gives tasks, w) = (gives (tasks, []), w)
  as_answer (fails what, w) = (fails what, w)
  as_answer (escapes, w) = (escapes, w)

  unfoldable pub with_device : String → Asked (Unit {0}) × W → Called (Tasks × List String) × W
  with_device dev (got u, w) = as_answer (process_async_req f d children p dev single w)
  with_device dev (dev_failed errors, w) = (fails (not_generated p dev errors), w)

  unfoldable pub with_group : String → Asked Group × W → Called (Tasks × List String) × W
  with_group pattern (got (patterns, devs), w) = process_group f d children p devs w
  with_group pattern (dev_failed errors, w) = (fails (not_generated p pattern errors), w)

  -- `_sendRequestAsyncDevOrGr`.
  unfoldable pub send_request_async_dev_or_gr : String → Bool → W → Called (Tasks × List String) × W
  send_request_async_dev_or_gr dev true w = with_group dev (group_for_ws d dev w)
  send_request_async_dev_or_gr dev false w = with_device dev (d.new_proxy dev w)

module _ (a : AuthDs) (t : Tango) {F Tree : Type 0} (f : Formats F) (d : Devices F t.World)
    (children : Tree → List (String × String)) (s : WsTangoConn) (unset : ℕ) where
  abbrev World : Type 0
  World = ClientWorld a t

  abbrev in_auth : {A : Type 0} → World → A × a.World → A × World
  in_auth w (r, v) = (r, record w { auth = v })

  abbrev in_tango : {A : Type 0} → World → A × t.World → A × World
  in_tango w (r, v) = (r, record w { tango = v })

  module _ (p : ParsedInputJson Tree) where
    unfoldable pub send_dev_or_gr : World → Called (Tasks × List String) × World
    send_dev_or_gr w = in_tango w (
        send_request_async_dev_or_gr f d children p (value_at p "device_name") (is_group_req p)
          w.tango)

    unfoldable pub when_permitted : Result String × World → Called (Tasks × List String) × World
    when_permitted (UserControl.ok mess, w) = send_dev_or_gr w
    when_permitted (UserControl.runtime_error what, w) = (fails what, w)
    when_permitted (UserControl.other_exception, w) = (escapes, w)

    unfoldable pub permitted : UserData → World → Result String × World
    permitted conn w =
        in_auth w (
          check_permission_for_request a s p conn (value_at p "device_name") (is_group_req p)
            w.auth)

    -- `sendRequestAsync`.
    unfoldable pub send_request_async : UserData → World → Called (Tasks × List String) × World
    send_request_async conn w = elim p.type_req [
      | TypeWsReq.command ↦ when_permitted (permitted conn w)
      | TypeWsReq.attribute_write ↦ when_permitted (permitted conn w)
      | TypeWsReq.attribute_read ↦ send_dev_or_gr w
      | _ ↦ (
        fails (
            exception_string_out (record (error_info ErrorType.check_code) {
              error_message = "Check code. WSTangoConnCli::sendRequestAsync";
              typeof_req = p.type_req_str;
              id = p.id;
            })),
        w,
      )
    ]

    abbrev given : String × t.World → Called String × t.World
    given (resp, w) = (gives resp, w)

    unfoldable pub pipe_of_group : String → Asked Group × t.World → Called String × t.World
    pipe_of_group pattern (got (patterns, devs), w) =
        given (read_of_group f d children p patterns w)
    pipe_of_group pattern (dev_failed errors, w) = (fails (not_generated p pattern errors), w)

    -- `sendRequest_PipeComm`.
    unfoldable pub send_request_pipe_comm : t.World → Called String × t.World
    send_request_pipe_comm w =
        let dev = value_at p "device_name" in
        if is_group_req p
        then pipe_of_group dev (group_for_ws d dev w)
        else read_of_device f d children p (not_generated p) dev (d.new_proxy dev w)

    -- `sendRequest`.
    unfoldable pub send_request : UserData → World → Called String × World
    send_request conn w = elim p.type_req [
      | TypeWsReq.pipe_comm ↦ in_tango w (send_request_pipe_comm w.tango)
      | _ ↦ (
        gives (
            exception_string_out (record (error_info ErrorType.unknown_req_type) {
              error_message = "This request type is not supported";
              typeof_req = p.type_req_str;
              id = p.id;
            })),
        w,
      )
    ]

    unfoldable pub no_subscribers : String
    no_subscribers = exception_string_out (record (error_info ErrorType.not_subscr_yet) {
      error_message = "No subscribers yet";
      typeof_req = p.type_req_str;
      device_name = if is_value (check_key p "device_name") then value_at p "device_name" else "";
    })

    abbrev needs_subscribers : TypeWsReq → Bool
    needs_subscribers kind = elim kind [
      | TypeWsReq.event_req_check_dev ↦ true
      | TypeWsReq.event_req_off ↦ true
      | TypeWsReq.event_req_rem_dev ↦ true
      | _ ↦ false
    ]

    abbrev from_env : World → EventReply × Env t → EventReply × World
    from_env w (reply, e) = (reply, record w { tango = e.world; event_proc = some e.proc })

    -- `sendRequest_Event`: `eventProc` is made at the first request to subscribe.
    unfoldable pub send_request_event : ℕ → World → EventReply × World
    send_request_event hdl w =
        if not (is_some w.event_proc) && needs_subscribers p.type_req
        then (message no_subscribers, w)
        else from_env w
            (request t unset p hdl (record { proc = get_or w.event_proc empty; world = w.tango }))

  abbrev departed : ℕ → World → Option EventProcCli → World
  departed hdl w none = w
  departed hdl w (some proc) =
      let e = unsubscribe_all_dev t unset hdl (record { proc = proc; world = w.tango }) in
      record w { tango = e.world; event_proc = some e.proc }

  -- `clientDisconnected`.
  unfoldable pub client_disconnected : ℕ → World → World
  client_disconnected hdl w = departed hdl w w.event_proc

  -- `checkResponse`, on the device that the task keeps.
  unfoldable pub check_response : ℕ × TaskInfo → World → CheckReply × World
  check_response (id, task) w = in_tango w (
      for_check_response f d client_mode s.is_old_version_of_json (id, task) task.device_for_ws
        w.tango)

  abbrev users :
      World → Result (Unit {0}) × (UserData × a.World) → Result (Unit {0}) × (UserData × World)
  users w (r, (user, v)) = (r, (user, record w { auth = v }))

  abbrev answers :
      World → Option (Result String) × (UserData × a.World) → Result String × (UserData × World)
  answers w (r, (user, v)) = (get_or r (UserControl.ok ""), (user, record w { auth = v }))

  -- What WSThread has of the client build.
  unfoldable pub client : TangoConn Tree World
  client = record {
    check_user = λ user w. users w (check_user_of a s user w.auth);
    common_requsts = λ p user w. answers w (common_requsts a s p user w.auth);
    send_request_async = send_request_async;
    send_request = send_request;
    send_request_event = λ hdl p w. send_request_event p hdl w;
    check_response = check_response;
    client_disconnected = client_disconnected;
    set_num_of_connections = λ num w. record w { num_of_connections = num };
  }
