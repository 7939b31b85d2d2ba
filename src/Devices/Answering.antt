-- ===== src/Devices/Answering.antt =====
-- src/wstangoproc_common/TangoProcessor.cpp and WSTangoConn.cpp: the texts of the answers to the
-- asynchronous requests, and `_forCheckResponse` for a device.
use web_socket_ds.Base.{
  ℕ, String, ◌<>◌, Bool, true, false, ◌&&◌, List, none, some, if◌then◌else◌, nonempty,
}
use web_socket_ds.Base.Int.{stoi, show_int}
use web_socket_ds.Wire.{Mode, ErrorType, TypeWsReq, single, group}
use web_socket_ds.Wire.Kinds.{is_client}
use web_socket_ds.StringProc.Response.{error_info, exception_string_out}
use web_socket_ds.Connections.{TaskInfo, CheckReply, arrived, not_arrived}
use web_socket_ds.Connections
use web_socket_ds.Devices.{
  TangoType, DeviceData, AttributeData, Formats, Replied, came, not_yet, reply_failed, Devices,
}
use web_socket_ds.Devices.Values.{generate_json_from_device_data, generate_json_for_attr_list}

abbrev pub is_command_task : TaskInfo → Bool
is_command_task t = elim t.type_asynq_req [ TypeWsReq.command ↦ true | _ ↦ false ]

abbrev pub is_read_task : TaskInfo → Bool
is_read_task t = elim t.type_asynq_req [ TypeWsReq.attribute_read ↦ true | _ ↦ false ]

abbrev pub is_write_task : TaskInfo → Bool
is_write_task t = elim t.type_asynq_req [ TypeWsReq.attribute_write ↦ true | _ ↦ false ]

abbrev pub is_group_task : TaskInfo → Bool
is_group_task t = elim t.single_or_group [ group ↦ true | _ ↦ false ]

abbrev pub is_single_task : TaskInfo → Bool
is_single_task t = elim t.single_or_group [ single ↦ true | _ ↦ false ]

unfoldable pub id_req_text : String → String
id_req_text id = elim (stoi id) [ none ↦ "" | some n ↦ " \"id_req\": " <> show_int n <> "," ]

-- What stands behind `"data": ` in the old version of the JSON.
unfoldable pub old_head : TaskInfo → String
old_head t =
    (if is_command_task t
      then "{\"command_name\": \""
        <> t.req_name
        <> "\", "
        <> (if is_group_task t then "" else "\"device_name\": \"" <> t.device_name <> "\", ")
        <> "\"argout\":"
        <> (if is_group_task t then "{\"" <> t.device_name <> "\": " else "")
      else "")
    <> (if is_read_task t then "{\"" <> t.device_name <> "\":" else "")

unfoldable pub new_names : TaskInfo → String
new_names t =
    (if nonempty t.device_name then "\"device_name\": \"" <> t.device_name <> "\", " else "")
    <> (if is_command_task t then "\"command_name\": \"" <> t.req_name <> "\", " else "")

-- `_generateHeadForJson` for a task.
unfoldable pub generate_head : TaskInfo → Bool → String
generate_head t use_old_version =
    "{\"event\": \"read\", \"type_req\": \""
    <> t.type_req_str
    <> "\","
    <> (if use_old_version then "" else new_names t)
    <> (if is_write_task t then "\"attr_name\": \"" <> t.req_name <> "\", " else "")
    <> id_req_text t.id_req
    <> (if is_write_task t then " \"resp\": " else " \"data\": ")
    <> (if use_old_version then old_head t else "")

-- `_generateHeadForJson` for a pipe.
unfoldable pub generate_head_for_pipe : String → String → String → String
generate_head_for_pipe type_req id_req device_name =
    "{\"event\": \"read\", \"type_req\": \""
    <> type_req
    <> "\","
    <> (if nonempty device_name then " \"device_name\": \"" <> device_name <> "\"," else "")
    <> id_req_text id_req
    <> " \"data\": "

unfoldable pub check_code : TaskInfo → String
check_code t = exception_string_out (record (error_info ErrorType.check_code) {
  id = t.id_req;
  typeof_req = "unknown";
  error_message = "CHECK WSTangoConn::_forCheckResponse";
})

module _ {F : Type 0} (f : Formats F) (t : TaskInfo) where
  -- The texts of `processCommandResponse`, for a device and for a group.
  unfoldable pub command_response : Bool → TangoType × DeviceData F → String
  command_response old out =
      generate_head t old
      <> generate_json_from_device_data f t.user_options out
      <> (if old then "}" else "")
      <> "}"

  unfoldable pub command_response_of_group : Bool → TangoType × DeviceData F → String
  command_response_of_group old out =
      generate_head t old
      <> generate_json_from_device_data f t.user_options out
      <> (if old then "}" <> (if is_group_task t then "}" else "") else "")
      <> "}"

  -- `processAttrReadResponse`.
  unfoldable pub attr_read_response : Bool → List (AttributeData F) → String
  attr_read_response old attrs =
      generate_head t old
      <> generate_json_for_attr_list f t.user_options.precisions attrs
      <> (if old then "}" else "")
      <> "}"

  -- `processAttrWriteResponse`.
  unfoldable pub attr_write_response : String
  attr_write_response = generate_head t false <> "\"OK\"" <> "}"

module _ {F W : Type 0} (f : Formats F) (d : Devices F W) (mode : Mode) (old : Bool) where
  unfoldable pub reply_text : {A : Type 0} → (A → String) → Replied A × W → CheckReply × W
  reply_text show (came a, w) = (arrived (show a), w)
  reply_text show (not_yet, w) = (not_arrived, w)
  reply_text show (reply_failed errs, w) = (Connections.dev_failed errs, w)

  -- The server build answers here for a single device only.
  abbrev answered_here : TaskInfo → Bool
  answered_here t = if is_client mode then true else is_single_task t

  -- `_forCheckResponse` for a device.
  unfoldable pub for_check_response : ℕ × TaskInfo → String → W → CheckReply × W
  for_check_response (id, t) device w =
      if is_command_task t && answered_here t
      then reply_text (command_response f t old) (d.command_inout_reply device id w)
      else if is_read_task t && answered_here t
      then reply_text (attr_read_response f t old) (d.read_attributes_reply device id w)
      else if is_write_task t && answered_here t
      then reply_text (λ u. attr_write_response f t) (d.write_attribute_reply device id w)
      else (arrived (check_code t), w)
