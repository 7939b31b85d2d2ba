-- ===== src/Tests/Serving.antt =====
-- The connections of WSThread and the client build at concrete inputs: a device that takes numbers,
-- whose proxies fail for one name and whose pipes always fail.
use web_socket_ds.Base.{
  ◌≡◌, refl, ℕ, suc, String, true, false, List, [], ◌∷◌, none, some, str_beq, if◌then◌else◌,
  contains,
}
use web_socket_ds.Base.Int.{stoi, pos}
use web_socket_ds.Base.Dict.{Dict, lookup, string_eq, nat_eq}
use web_socket_ds.Wire.{client_mode, TypeWsReq, group}
use web_socket_ds.Request.{ParsedInputJson, value_at, check_key}
use web_socket_ds.UserControl.{
  AuthDs, answer, UserData, get_permission_data, user_control, permission_target, check_permission,
  after_data, after_connect, after_command, after_answer, after_log, tried, item,
}
use web_socket_ds.UserControl.Permission.{granted, granted_data, granted_connected, allowed}
use web_socket_ds.Session.Options.{WsTangoConn, ws_tango_conn}
use web_socket_ds.Events.State.{Tango, other_exception}
use web_socket_ds.Connections.{
  TaskInfo, Connection, WsThread, Server, amount, TangoConn, member, insert, without,
}
use web_socket_ds.Client.Dimensions.{on_request_write_escape}
use web_socket_ds.Session.Users.{check_permission_for_request}
use web_socket_ds.Connections.Messages.{on_request, is_event_request, is_async_request}
use web_socket_ds.Connections.Safe.{
  Arrival, opens, sends, closes, collects, open_after, open_after_all, handle_all, no_connections,
  Survives, handle_all-Survives,
}
use web_socket_ds.Devices.{
  TangoType, scalar, number, Formats, got, dev_failed, came, not_yet, Devices,
}
use web_socket_ds.Devices.Asking.{process_group}
use web_socket_ds.Devices.Members.{Accounted, process_group-Accounted}
use web_socket_ds.Client.{ClientWorld, client, is_group_req, send_request_async}
use web_socket_ds.Client.Permission.{is_failure, send_request_async_refused}
use web_socket_ds.Client.Escapes.{is_escaped, on_request_contained, on_request_pipe_escape}

-- AuthDS says no.
abbrev pub strict : AuthDs
strict = record {
  World = ℕ;
  time = λ w. w;
  connect = λ ds w. (none, w);
  command_inout = λ name args w. (answer false, suc w);
}

abbrev mute : Tango
mute = record {
  World = ℕ;
  new_proxy = λ dev w. (none, w);
  subscribe_event = λ dev attr et w. (other_exception, w);
  unsubscribe_event = λ dev id w. w;
}

abbrev pub numbers : Formats ℕ
numbers = record {
  lexical_cast = λ t s. if str_beq s "5" then some (number (pos 5)) else none;
  bad_cast = "bad lexical cast";
  print = λ ios n x. "0.5";
}

abbrev pub devices : Devices ℕ ℕ
devices = record {
  new_proxy =
      λ dev w. (if str_beq dev "a/b/gone" then dev_failed ("no device" ∷ []) else got tt, w);
  name = λ dev w. dev;
  group_devices = λ patterns w. (got patterns, w);
  in_group = λ dev w. true;
  command_query = λ dev name w. (got TangoType.dev_long, w);
  attribute_query = λ dev name w.
      (got (record { name = name; data_type = TangoType.dev_long; data_format = scalar }), w);
  command_inout_asynch = λ dev name x w. (got w, suc w);
  read_attributes_asynch = λ dev names w. (got w, suc w);
  write_attribute_asynch = λ dev name x w. (got w, suc w);
  command_inout_reply = λ dev id w. (not_yet, w);
  read_attributes_reply = λ dev id w. (not_yet, w);
  write_attribute_reply = λ dev id w. (came tt, w);
  read_pipe = λ dev pipe w. (dev_failed ("no pipe" ∷ []), w);
}

abbrev pub quiet : {W : Type 0} → Server W
quiet = record {
  expired = λ h w. false;
  buffered_amount = λ h w. amount 0;
  send_text = λ h msg w. (none, w);
  close = λ h code why w. w;
  remote_endpoint = λ h w. "[::ffff:10.0.0.1]:4711";
  forwarded_for = λ h w. "";
  query = λ h w. "login=ann&password=pw";
}

abbrev pub settings : WsTangoConn
settings = ws_tango_conn "auth/1"

abbrev pub asked : TypeWsReq → Dict String String → ParsedInputJson (Unit {0})
asked kind strs = record {
  is_valid = true;
  err_mess = "";
  id = "7";
  type_req_str = "t";
  type_req = kind;
  input_json = "{}";
  other_inp_vec = [];
  other_inp_str = strs;
  other_inp_obj = [];
  periodic_ev_sub_list = [];
  change_ev_sub_list = [];
  user_ev_sub_list = [];
  archive_ev_sub_list = [];
}

abbrev pub no_pairs : Unit {0} → List (String × String)
no_pairs u = []

abbrev pub start_motor : ParsedInputJson (Unit {0})
start_motor =
    asked TypeWsReq.command
      (("device_name", "a/b/c") ∷ ("command_name", "Start") ∷ ("argin", "5") ∷ [])

abbrev read_pipe : ParsedInputJson (Unit {0})
read_pipe = asked TypeWsReq.pipe_comm (("device_name", "a/b/c") ∷ ("pipe_name", "P") ∷ [])

abbrev pub world : ClientWorld strict mute
world = record { auth = 0; tango = 3; event_proc = none; num_of_connections = 1 }

abbrev pub ann : UserData
ann = record { login = "ann"; password = "pw"; ip_client = "10.0.0.1"; user_check_status = true }

abbrev pub motor_task : TaskInfo
motor_task = record {
  id_req = "7";
  device_name = "a/b/c";
  user_options = record { precision = ""; precisions = []; is_json_string = false };
  group_pattern = "";
  type_req_str = "command";
  req_name = "Start";
  req_names = [];
  single_or_group = group;
  type_asynq_req = TypeWsReq.command;
  device_for_ws = "a/b/c";
}

abbrev pub anns_connection : Connection
anns_connection = record { user = ann; session_id = 1; id_command_info = (4, motor_task) ∷ [] }

abbrev pub serving : WsThread
serving = record {
  m_connections = (7, anns_connection) ∷ [];
  m_active_connections = 7 ∷ [];
  m_next_sessionid = 2;
}

abbrev pub anns_client : TangoConn (Unit {0}) (ClientWorld strict mute)
anns_client = client strict mute numbers devices no_pairs settings 0

abbrev history : List (Arrival (Unit {0}))
history = opens false 7 ∷ sends start_motor 7 ∷ collects ∷ opens false 8 ∷ closes 7 ∷ []

handle_all-Survives_example :
    Survives
      (8 ∷ [])
      (handle_all quiet settings anns_client client_mode history no_connections world)
unfolding open_after_all open_after member insert without
handle_all-Survives_example =
    handle_all-Survives quiet settings anns_client client_mode history (8 ∷ []) world refl

send_request_async_refused_example :
    let r =
      send_request_async strict mute numbers devices no_pairs settings 0 start_motor ann world in
    (is_failure r.0 ≡ true) × (r.1.tango ≡ 3)
unfolding granted granted_data get_permission_data ws_tango_conn user_control permission_target
    granted_connected allowed
send_request_async_refused_example =
    send_request_async_refused strict mute numbers devices no_pairs settings 0 start_motor ann world
      TypeWsReq.command refl refl refl

on_request_contained_example :
    is_escaped (on_request quiet settings anns_client client_mode start_motor 7 serving world)
    ≡ false
on_request_contained_example =
    on_request_contained strict mute (λ name args w. refl) numbers devices no_pairs settings 0
      start_motor quiet TypeWsReq.command 7 serving world refl refl

on_request_pipe_escape_example :
    is_escaped (on_request quiet settings anns_client client_mode read_pipe 7 serving world) ≡ true
unfolding is_event_request is_async_request is_group_req check_key value_at lookup contains
on_request_pipe_escape_example =
    on_request_pipe_escape strict mute numbers devices no_pairs settings 0 read_pipe quiet 7
      anns_connection serving world 3 3 ("no pipe" ∷ []) refl refl refl refl refl refl refl

abbrev write_attr : ParsedInputJson (Unit {0})
write_attr =
    asked TypeWsReq.attribute_write
      (("device_name", "a/b/c") ∷ ("attr_name", "Level") ∷ ("argin", "5") ∷ ("dimY", "wide") ∷ [])

-- AuthDS says yes.
abbrev lenient : AuthDs
lenient = record {
  World = ℕ;
  time = λ w. w;
  connect = λ ds w. (none, w);
  command_inout = λ name args w. (answer true, suc w);
}

abbrev lenient_world : ClientWorld lenient mute
lenient_world = record { auth = 0; tango = 3; event_proc = none; num_of_connections = 1 }

on_request_write_escape_example :
    is_escaped (
      on_request quiet settings
        (client lenient mute numbers devices no_pairs settings 0)
        client_mode
        write_attr
        7
        serving
        lenient_world)
    ≡ true
unfolding is_event_request is_async_request is_group_req check_key value_at lookup contains stoi
    check_permission_for_request check_permission get_permission_data permission_target after_data
    after_connect after_command after_answer after_log ws_tango_conn user_control tried item
on_request_write_escape_example =
    on_request_write_escape lenient mute numbers devices no_pairs settings 0 write_attr quiet 7
      anns_connection serving lenient_world
      "User ann tried to run the command Level. Access status is true" 1 3 3
      (record { name = "Level"; data_type = TangoType.dev_long; data_format = scalar }) refl refl
      refl refl refl refl refl refl refl

process_group-Accounted_example :
    Accounted numbers devices no_pairs start_motor TypeWsReq.command
      ("a/b/c" ∷ "a/b/gone" ∷ [])
      (process_group numbers devices no_pairs start_motor ("a/b/c" ∷ "a/b/gone" ∷ []) 3).0
process_group-Accounted_example =
    process_group-Accounted numbers devices no_pairs start_motor ("a/b/c" ∷ "a/b/gone" ∷ [])
      TypeWsReq.command 3 refl refl
