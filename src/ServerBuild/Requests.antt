-- ===== src/ServerBuild/Requests.antt =====
-- src/wstangoproc_ser/WSTangoConnSer.cpp, `sendRequest` and `checkResponse`, with what
-- WSTangoConn.cpp and TangoProcessor.cpp hold of the answers for a group.
use web_socket_ds.Base.{
  ℕ, String, ◌<>◌, Bool, true, false, not, ◌&&◌, List, [], Option, none, some, if◌then◌else◌,
  nonempty,
}
use web_socket_ds.Wire.{ErrorType, TypeWsReq, server_mode}
use web_socket_ds.Request.{ParsedInputJson, is_value, check_key, value_at}
use web_socket_ds.StringProc.Response.{error_info, exception_string_out}
use web_socket_ds.Session.Options.{WsTangoConn}
use web_socket_ds.Connections.{TaskInfo, CheckReply, arrived}
use web_socket_ds.Devices.{PipeElement, Formats, Asked, got, dev_failed, Devices}
use web_socket_ds.Devices.Values.{generate_json_for_pipe}
use web_socket_ds.Devices.Answering.{
  is_command_task, is_read_task, is_write_task, is_single_task, generate_head_for_pipe, check_code,
  command_response_of_group, attr_read_response, attr_write_response, reply_text,
  for_check_response,
}
use web_socket_ds.Client.Pipes.{opt_str, read_of_group}
use web_socket_ds.ServerBuild.{WsTangoConnSer}

module _ {F W : Type 0} (f : Formats F) (d : Devices F W) (s : WsTangoConn)
    (ser : WsTangoConnSer) where
  -- `_forCheckResponse` for a group: a task of a member, or of one device that the request names.
  unfoldable pub for_check_response_of_group : ℕ × TaskInfo → W → CheckReply × W
  for_check_response_of_group (id, t) w =
      let old = s.is_old_version_of_json in
      if is_command_task t && not (is_single_task t)
      then reply_text f d server_mode old (command_response_of_group f t old)
          (d.command_inout_reply t.device_name id w)
      else if is_read_task t && not (is_single_task t)
      then reply_text f d server_mode old (attr_read_response f t old)
          (d.read_attributes_reply t.device_name id w)
      else if is_write_task t && not (is_single_task t)
      then reply_text f d server_mode old (λ u. attr_write_response f t)
          (d.write_attribute_reply t.device_name id w)
      else (arrived (check_code t), w)

  -- `checkResponse`.
  unfoldable pub check_response : ℕ × TaskInfo → W → CheckReply × W
  check_response task w =
      if ser.is_group
      then for_check_response_of_group task w
      else for_check_response f d server_mode s.is_old_version_of_json task ser.device_server w

-- `get_device` as in `ServerBuild`; `patterns` are those that the group was made of.
module _ {F W Tree : Type 0} (f : Formats F) (d : Devices F W)
    (get_device : String → W → Asked Bool × W) (children : Tree → List (String × String))
    (patterns : List String) (ser : WsTangoConnSer) (p : ParsedInputJson Tree) where
  unfoldable pub refuse_request : ErrorType → String → String
  refuse_request kind message =
      exception_string_out (record (error_info kind) {
        typeof_req = p.type_req_str;
        id = p.id;
        error_message = message;
      })

  abbrev device_name : String
  device_name = if is_value (check_key p "device_name") then value_at p "device_name" else ""

  -- The error that `sendRequest_PipeComm` fills in.
  unfoldable pub pipe_error : ErrorType → String → List String → String
  pipe_error kind message messages = exception_string_out (record (error_info kind) {
    typeof_req = p.type_req_str;
    id = p.id;
    device_name = device_name;
    error_message = message;
    error_messages = messages;
  })

  -- `processPipeRead` of a device's pipe; a `DevFailed` on the way becomes an error.
  unfoldable pub pipe_text : String × Option (List String) → String
  pipe_text (json, none) = generate_head_for_pipe p.type_req_str p.id device_name <> json <> "}"
  pipe_text (json, some errs) = pipe_error ErrorType.tango_exception "" errs

  unfoldable pub pipe_answer : Asked (List (PipeElement F)) × W → String × W
  pipe_answer (got es, w) = (pipe_text (generate_json_for_pipe f (opt_str f d children p) es), w)
  pipe_answer (dev_failed errs, w) = (pipe_error ErrorType.tango_exception "" errs, w)

  unfoldable pub pipe_of_member : Asked Bool × W → String × W
  pipe_of_member (got true, w) = pipe_answer (d.read_pipe device_name (value_at p "pipe_name") w)
  pipe_of_member (got false, w) = (
    pipe_error ErrorType.device_not_in_group ("Device: " <> device_name <> " not in group") [],
    w,
  )
  pipe_of_member (dev_failed errs, w) = (pipe_error ErrorType.tango_exception "" errs, w)

  -- `sendRequest_PipeComm`, which `sendRequest` calls for `pipe_comm` only.
  unfoldable pub send_request_pipe_comm : W → String × W
  send_request_pipe_comm w =
      if ser.is_group
      then (if nonempty device_name
          then pipe_of_member (get_device device_name w)
          else read_of_group f d children p patterns w)
      else pipe_answer (d.read_pipe ser.device_server (value_at p "pipe_name") w)

  -- `sendRequest`.
  unfoldable pub send_request : W → String × W
  send_request w =
      if ser.is_init_ds
      then elim p.type_req [
        | TypeWsReq.unknown ↦ (
          refuse_request ErrorType.unknown_req_type
              "This request type is not supported in the current mode",
          w,
        )
        | TypeWsReq.pipe_comm ↦ send_request_pipe_comm w
        | _ ↦ (refuse_request ErrorType.unknown_req_type "Unknown Request", w)
      ]
      else (refuse_request ErrorType.init_failed ser.error_message, w)
