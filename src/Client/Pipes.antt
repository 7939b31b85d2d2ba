-- ===== src/Client/Pipes.antt =====
-- src/wstangoproc_cli/WSTangoConnCli.cpp and TangoProcessor.cpp: reading a pipe of a device or of
-- the devices of a group, in the client build.
use web_socket_ds.Base.{
  String, ◌<>◌, Bool, true, false, ◌&&◌, not, List, [], ◌∷◌, Option, none, some, if◌then◌else◌,
}
use web_socket_ds.Base.Dict.{Dict}
use web_socket_ds.Wire.{ErrorType}
use web_socket_ds.Request.{ParsedInputJson, is_value, check_key, value_at}
use web_socket_ds.StringProc.Response.{error_info, exception_string_out}
use web_socket_ds.StringProc.Precision.{check_precision_of_request}
use web_socket_ds.Connections.{Called, gives, fails, escapes}
use web_socket_ds.Devices.{PipeElement, Formats, Asked, got, dev_failed, Devices}
use web_socket_ds.Devices.Values.{generate_json_for_pipe}
use web_socket_ds.Devices.Answering.{generate_head_for_pipe}

module _ {F W Tree : Type 0} (f : Formats F) (d : Devices F W)
    (children : Tree → List (String × String)) (p : ParsedInputJson Tree) where
  abbrev pub opt_str : Dict String String
  opt_str = check_precision_of_request children p

  unfoldable pub with_json : String × Option (List String) → Called String
  with_json (json, some errors) = escapes
  with_json (json, none) = gives (
      generate_head_for_pipe p.type_req_str p.id
        (if is_value (check_key p "device_name") then value_at p "device_name" else "")
      <> json
      <> "}")

  -- `read_pipe` and `processPipeRead` of the device: nothing catches a `DevFailed`.
  unfoldable pub after_pipe : Asked (List (PipeElement F)) × W → Called String × W
  after_pipe (got es, w) = (with_json (generate_json_for_pipe f opt_str es), w)
  after_pipe (dev_failed errors, w) = (escapes, w)

  unfoldable pub read_of_device :
      (String → List String → String) → String → Asked (Unit {0}) × W → Called String × W
  read_of_device refused dev (got u, w) = after_pipe (d.read_pipe dev (value_at p "pipe_name") w)
  read_of_device refused dev (dev_failed errors, w) = (fails (refused dev errors), w)

  -- What the loop over a group's devices has made: the text, `hasActDev`, `hasPipe` and the errors.
  pub record Rounds : Type 0 where
    pub items : String
    pub has_act_dev : Bool
    pub has_pipe : Bool
    pub errors_mess : List String

  abbrev unavailable : String
  unavailable = "Device unavailable. Check the status of corresponding tango-server"

  quoted_errors : Bool → List String → String
  quoted_errors first [] = ""
  quoted_errors first (e ∷ es) =
      (if first then "" else ", ") <> "\"" <> e <> "\"" <> quoted_errors false es

  joined_errors : Bool → List String → String
  joined_errors first [] = ""
  joined_errors first (e ∷ es) = (if first then "" else " ||| ") <> e <> joined_errors false es

  -- A device whose pipe could not be read, behind what was written of it.
  unfoldable pub failed_round : String → String → List String → Rounds → Rounds
  unfolding quoted_errors joined_errors
  failed_round dev json errs r = record {
    items = json <> "[" <> quoted_errors true errs <> "]" <> r.items;
    has_act_dev = true;
    has_pipe = r.has_pipe;
    errors_mess = (dev <> ": " <> joined_errors true errs) ∷ r.errors_mess;
  }

  unfoldable pub written_round : String → String × Option (List String) → Rounds → Rounds
  written_round dev (json, none) r = record r {
    items = json <> r.items;
    has_act_dev = true;
    has_pipe = true;
  }
  written_round dev (json, some errs) r = failed_round dev json errs r

  unfoldable pub read_round : String → Asked (List (PipeElement F)) → Rounds → Rounds
  read_round dev (got es) r = written_round dev (generate_json_for_pipe f opt_str es) r
  read_round dev (dev_failed errs) r = failed_round dev "" errs r

  unfoldable pub unavailable_round : String → Rounds → Rounds
  unavailable_round dev r = record r {
    items = "\"" <> unavailable <> "\"" <> r.items;
    errors_mess = (dev <> ": " <> unavailable) ∷ r.errors_mess;
  }

  abbrev with_key : Bool → String → Rounds → Rounds
  with_key first dev r = record r {
    items = (if first then "" else ", ") <> "\"" <> dev <> "\": " <> r.items;
  }

  -- The loop, with what the later devices make.
  unfoldable pub rounds : Bool → List String → W → Rounds × W
  rounds first [] w =
      (record { items = ""; has_act_dev = false; has_pipe = false; errors_mess = [] }, w)
  rounds first (dev ∷ devs) w =
      if d.in_group dev w
      then (let (asked, w') = d.read_pipe dev (value_at p "pipe_name") w in
          let (r, w'') = rounds false devs w' in (with_key first dev (read_round dev asked r), w''))
      else (let (r, w') = rounds false devs w in (with_key first dev (unavailable_round dev r), w'))

  unfoldable pub end_of_rounds : Rounds → String
  end_of_rounds r =
      if r.has_act_dev && r.has_pipe
      then generate_head_for_pipe p.type_req_str p.id "" <> "{" <> r.items <> "}" <> "}"
      else if not r.has_act_dev
      then exception_string_out (record (error_info ErrorType.unavailable_devs) {
        id = p.id;
        error_message = "All device unavailable. Check the status of corresponding tango-server";
        typeof_req = p.type_req_str;
      })
      else exception_string_out (record (error_info ErrorType.tango_exception) {
        typeof_req = p.type_req_str;
        id = p.id;
        error_messages = r.errors_mess;
        device_name = if is_value (check_key p "device_name") then value_at p "device_name" else "";
      })

  unfoldable pub after_list : Asked (List String) × W → String × W
  after_list (got devs, w) = let (r, w') = rounds true devs w in (end_of_rounds r, w')
  after_list (dev_failed errors, w) = (
    exception_string_out (record (error_info ErrorType.tango_exception) {
      id = p.id;
      error_message = "Device list not received";
      typeof_req = p.type_req_str;
    }),
    w,
  )

  -- `processPipeRead` for the group of these patterns.
  unfoldable pub read_of_group : List String → W → String × W
  read_of_group patterns w = after_list (d.group_devices patterns w)
