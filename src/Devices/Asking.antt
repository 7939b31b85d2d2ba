-- ===== src/Devices/Asking.antt =====
-- src/wstangoproc_common/TangoProcessor.cpp: the asynchronous requests to a device and, in the
-- client build, to the devices of a group.
use web_socket_ds.Base.{
  ℕ, String, Bool, true, false, not, ◌&&◌, List, [], ◌∷◌, ◌++◌, if◌then◌else◌, get_or,
}
use web_socket_ds.Base.Dict.{Dict, lookup, string_eq}
use web_socket_ds.Wire.{ErrorType, TypeWsReq, SingleOrGroup, group}
use web_socket_ds.Request.{ParsedInputJson, is_value, is_array, is_none, check_key, value_at}
use web_socket_ds.StringProc.Response.{error_info, exception_string_out}
use web_socket_ds.StringProc.Precision.{check_precision_options, check_precision_list}
use web_socket_ds.Connections.{TaskInfo, UserOptions, Called, gives, fails, escapes}
use web_socket_ds.Devices.{
  TangoType, is_massive, DeviceData, no_data, AttributeInput, AttributeInfo, Formats, Asked, got,
  dev_failed, Devices,
}
use web_socket_ds.Devices.Argin.{get_device_data, get_device_attribute_data}

abbrev pub Tasks : Type 0
Tasks = List (ℕ × TaskInfo)

abbrev pub is_void : TangoType → Bool
is_void t = elim t [ TangoType.dev_void ↦ true | _ ↦ false ]

-- `children` are the pairs of an object of the request.
module _ {F W Tree : Type 0} (f : Formats F) (d : Devices F W)
    (children : Tree → List (String × String)) (p : ParsedInputJson Tree) where
  unfoldable pub request_refused : ErrorType → String → String → List String → String
  request_refused kind attr_name message messages = exception_string_out (record (error_info kind) {
    typeof_req = p.type_req_str;
    id = p.id;
    device_name = if is_value (check_key p "device_name") then value_at p "device_name" else "";
    attr_name = attr_name;
    error_message = message;
    error_messages = messages;
  })

  -- The fields that the three kinds of task share.
  unfoldable pub task_info : String → SingleOrGroup → UserOptions → TypeWsReq → W → TaskInfo
  task_info dev sog uo kind w = record {
    id_req = p.id;
    device_name = d.name dev w;
    user_options = uo;
    group_pattern = "";
    type_req_str = p.type_req_str;
    req_name = "";
    req_names = [];
    single_or_group = sog;
    type_asynq_req = kind;
    device_for_ws = dev;
  }

  abbrev json_out : Bool
  json_out = is_value (check_key p "jsonout")

  module _ (dev : String) (sog : SingleOrGroup) where
    unfoldable pub command_task : String → String → W → TaskInfo
    command_task name opt w =
        record (task_info dev sog
          (record { precision = opt; precisions = []; is_json_string = json_out }) TypeWsReq.command
          w) { req_name = name }

    unfoldable pub after_command : String → String → Asked ℕ × W → Called (ℕ × TaskInfo) × W
    after_command name opt (got id, w) = (gives (id, command_task name opt w), w)
    after_command name opt (dev_failed errs, w) =
        (fails (request_refused ErrorType.tango_exception "" "" errs), w)

    unfoldable pub with_argin :
        String → String → Called (DeviceData F) → W → Called (ℕ × TaskInfo) × W
    with_argin name opt (gives sent) w =
        after_command name opt (d.command_inout_asynch dev name sent w)
    with_argin name opt (fails what) w = (fails what, w)
    with_argin name opt escapes w = (escapes, w)

    unfoldable pub with_type : String → String → TangoType → W → Called (ℕ × TaskInfo) × W
    with_type name opt t w =
        if is_void t
        then after_command name opt (d.command_inout_asynch dev name no_data w)
        else if is_none (check_key p "argin")
        then (fails (request_refused ErrorType.check_request "" "argin not found" []), w)
        else if is_array (check_key p "argin") && not (is_massive t)
        then (
          fails (
              request_refused ErrorType.check_request "" "The input data should not be an array"
                []),
          w,
        )
        else with_argin name opt (get_device_data f p t) w

    unfoldable pub after_query : String → String → Asked TangoType × W → Called (ℕ × TaskInfo) × W
    after_query name opt (got t, w) = with_type name opt t w
    after_query name opt (dev_failed errs, w) =
        (fails (request_refused ErrorType.tango_exception "" "" errs), w)

    -- `processCommand`.
    unfoldable pub process_command : W → Called (ℕ × TaskInfo) × W
    process_command w =
        let (name, opt) = check_precision_options (value_at p "command_name") p in
        after_query name opt (d.command_query dev name w)

    unfoldable pub attribute_names : List String
    attribute_names =
        if is_value (check_key p "attr_name")
        then value_at p "attr_name" ∷ []
        else if is_array (check_key p "attr_name")
        then get_or (lookup "attr_name" p.other_inp_vec) []
        else []

    unfoldable pub after_read :
        List String → Dict String String → Asked ℕ × W → Called (ℕ × TaskInfo) × W
    after_read names opts (got id, w) = (
      gives (
        id,
        record (task_info dev sog
            (record { precision = ""; precisions = opts; is_json_string = json_out })
            TypeWsReq.attribute_read w) { req_names = names },
      ),
      w,
    )
    after_read names opts (dev_failed errs, w) =
        (fails (request_refused ErrorType.tango_exception "" "" errs), w)

    -- `processAttrRead`.
    unfoldable pub process_attr_read : W → Called (ℕ × TaskInfo) × W
    process_attr_read w =
        let (names, opts) = check_precision_list children attribute_names p in
        after_read names opts (d.read_attributes_asynch dev names w)

    -- No answer to a write is read for its options.
    unfoldable pub after_write : String → Asked ℕ × W → Called (ℕ × TaskInfo) × W
    after_write attr (got id, w) = (
      gives (
        id,
        record (task_info dev sog
            (record { precision = ""; precisions = []; is_json_string = false })
            TypeWsReq.attribute_write w) { req_name = attr },
      ),
      w,
    )
    after_write attr (dev_failed errs, w) =
        (fails (request_refused ErrorType.tango_exception attr "" errs), w)

    unfoldable pub with_input :
        String → String → Called (AttributeInput F) → W → Called (ℕ × TaskInfo) × W
    with_input attr name (gives input) w =
        after_write attr (d.write_attribute_asynch dev name input w)
    with_input attr name (fails what) w = (fails what, w)
    with_input attr name escapes w = (escapes, w)

    unfoldable pub after_info : String → Asked AttributeInfo × W → Called (ℕ × TaskInfo) × W
    after_info attr (got info, w) = with_input attr info.name (get_device_attribute_data f p info) w
    after_info attr (dev_failed errs, w) =
        (fails (request_refused ErrorType.tango_exception attr "" errs), w)

    -- `processAttrWrite`.
    unfoldable pub process_attr_write : W → Called (ℕ × TaskInfo) × W
    process_attr_write w =
        let attr = value_at p "attr_name" in after_info attr (d.attribute_query dev attr w)

    unfoldable pub push_back : Called (ℕ × TaskInfo) × W → Called Tasks × W
    push_back (gives task, w) = (gives (task ∷ []), w)
    push_back (fails what, w) = (fails what, w)
    push_back (escapes, w) = (escapes, w)

    -- `processAsyncReq` for a device: its task.
    unfoldable pub process_async_req : W → Called Tasks × W
    process_async_req w = elim p.type_req [
      | TypeWsReq.command ↦ push_back (process_command w)
      | TypeWsReq.attribute_read ↦ push_back (process_attr_read w)
      | TypeWsReq.attribute_write ↦ push_back (process_attr_write w)
      | _ ↦ (gives [], w)
    ]

  unfoldable pub member_failed : String → List String → String
  member_failed dev errs = exception_string_out (record (error_info ErrorType.tango_exception) {
    typeof_req = p.type_req_str;
    id = p.id;
    device_name = dev;
    error_messages = errs;
  })

  -- What one device of the group comes to: tasks, or an error.
  unfoldable pub as_member : Called Tasks × W → Called (Tasks × List String) × W
  as_member (gives tasks, w) = (gives (tasks, []), w)
  as_member (fails what, w) = (gives ([], what ∷ []), w)
  as_member (escapes, w) = (escapes, w)

  unfoldable pub after_proxy : String → Asked (Unit {0}) × W → Called (Tasks × List String) × W
  after_proxy dev (got u, w) = as_member (process_async_req dev group w)
  after_proxy dev (dev_failed errs, w) = (gives ([], member_failed dev errs ∷ []), w)

  abbrev pub join_rest :
      Tasks × List String → Called (Tasks × List String) → Called (Tasks × List String)
  join_rest (ts, es) (gives (ts', es')) = gives (ts ++ ts', es ++ es')
  join_rest first (fails what) = fails what
  join_rest first escapes = escapes

  -- `processAsyncReq` for a group in the client build: a proxy for each of its devices.
  unfoldable pub process_group : List String → W → Called (Tasks × List String) × W
  process_group [] w = (gives ([], []), w)
  process_group (dev ∷ devs) w =
      let (first, w') = after_proxy dev (d.new_proxy dev w) in
      elim first [
        | gives g ↦ let (rest, w'') = process_group devs w' in (join_rest g rest, w'')
        | fails what ↦ (fails what, w')
        | escapes ↦ (escapes, w')
      ]
