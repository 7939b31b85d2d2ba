-- ===== src/Tests/Auth.antt =====
-- AuthDS, the settings and the users of a connection, at concrete inputs.
use web_socket_ds.Base.{
  ◌≡◌, refl, String, Bool, true, false, List, [], ◌∷◌, ◌++◌, ◌*◌, contains, none, str_beq,
  if◌then◌else◌, length,
}
use web_socket_ds.Base.Int.{show_nat, stoi}
use web_socket_ds.Base.Dict.{Dict, lookup, string_eq}
use web_socket_ds.Wire.{client_mode, TypeWsReq, permission_www}
use web_socket_ds.Request.{ParsedInputJson, value_at}
use web_socket_ds.UserControl.{
  AuthDs, Reply, answer, dev_failed, UserControl, user_control, UserData, item, check_user,
  user_connect, user_answer, get_permission_data, permission_target, log_data, check_permission,
  user_refused, after_data, after_connect, after_command, after_answer, after_log, send_log,
}
use web_socket_ds.UserControl.Permission.{
  is_ok, granted, granted_data, granted_connected, allowed, check_permission-granted,
  granted-check_permission, escapes,
}
use web_socket_ds.UserControl.Log.{log_data-get_permission_data, check_permission_refused_log}
use web_socket_ds.Session.Options.{
  WsTangoConn, ws_tango_conn, init_options, max_buff_size, init_option, take_value, option_value,
  with_value, second_part, set_ident, set_check_user, set_check_permission, set_log,
  set_max_connections, set_max_buffer, between, put_max_connections, put_max_buffer, flags,
}
use web_socket_ds.StringProc.Split.{parse_input_string}
use web_socket_ds.Session.Settings.{Bounded, init_options-Bounded, max_buff_size-init_options}
use web_socket_ds.Session.Users.{
  check_user_of, get_connection_data, after_check_user, send_request_for_auth, change_user_to,
  after_change, on_open, common_requsts, check_permission_for_request, check_keys_from_parsed_get,
}
use web_socket_ds.Session.Access.{
  after_requests, Authentic, after_requests-Authentic, check_permission_for_request-granted,
  common_requsts_refused,
}

-- The user `eve` is refused by `PERMISSION_WWW`; only `ann` passes `check_user`. The state is what
-- has been asked.
abbrev reply_to : String → List String → Reply
reply_to name args =
    if str_beq name "check_user"
    then answer (str_beq (item args 0) "ann")
    else if str_beq name "check_permissions_www"
    then (if str_beq (item args 0) "eve" then dev_failed ("denied" ∷ []) else answer false)
    else answer true

abbrev auth : AuthDs
auth = record {
  World = List (List String);
  time = λ w. length w;
  connect = λ ds w. (none, w);
  command_inout = λ name args w. (reply_to name args, w ++ (name ∷ args) ∷ []);
}

abbrev settings : WsTangoConn
settings = ws_tango_conn "auth/1"

abbrev www : UserControl
www = record {
  auth_ds = "auth/1";
  toi = permission_www;
  is_log_active = true;
  command_name_for_user_control = "check_user";
  command_name_for_check_permission = "check_permissions";
  command_name_for_log = "send_log_command_ex";
}

abbrev asked : TypeWsReq → Dict String String → ParsedInputJson (Unit {0})
asked kind strs = record {
  is_valid = true;
  err_mess = "";
  id = "7";
  type_req_str = "t";
  type_req = kind;
  input_json = "{}";
  other_inp_vec = [];
  other_inp_str = strs;
  other_inp_obj = [];
  periodic_ev_sub_list = [];
  change_ev_sub_list = [];
  user_ev_sub_list = [];
  archive_ev_sub_list = [];
}

abbrev start_motor : ParsedInputJson (Unit {0})
start_motor = asked TypeWsReq.command (("command_name", "Start") ∷ [])

abbrev become : String → ParsedInputJson (Unit {0})
become name = asked TypeWsReq.change_user (("login", name) ∷ ("password", "pw") ∷ [])

abbrev user : String → Bool → UserData
user name status = record {
  login = name;
  password = "pw";
  ip_client = "10.0.0.1";
  user_check_status = status;
}

abbrev query : String → Dict String String
query name = ("login", name) ∷ ("password", "pw") ∷ ("ip", "10.0.0.1") ∷ []

abbrev IsAnn : String → String → Type 0
IsAnn login pass = str_beq login "ann" ≡ true

answered_is_ok :
    (b : Bool) (login pass : String)
    → is_ok (user_answer auth settings.uc login pass (answer b)) ≡ true
    → b ≡ true
unfolding user_answer user_refused ws_tango_conn
answered_is_ok true login pass h = refl
answered_is_ok false login pass h = cc h

accepts :
    (login pass : String) (w : auth.World)
    → is_ok (check_user auth settings.uc login pass w).0 ≡ true
    → IsAnn login pass
unfolding check_user user_connect ws_tango_conn user_control item
accepts login pass w h = answered_is_ok (str_beq login "ann") login pass h

after_requests-Authentic_example : Authentic auth settings IsAnn (
    after_requests auth settings
      ((become "ann", []) ∷ (become "bob", []) ∷ [])
      (on_open auth settings false (query "eve") []).1.0)
unfolding ws_tango_conn user_control
after_requests-Authentic_example =
    after_requests-Authentic auth settings IsAnn accepts refl
      ((become "ann", []) ∷ (become "bob", []) ∷ []) (query "eve") []

-- The history of the example does log `ann` in, and `bob` does not replace her.
after_requests_run :
    after_requests auth settings
      ((become "ann", []) ∷ (become "bob", []) ∷ [])
      (on_open auth settings false (query "eve") []).1.0
    ≡ record { login = "ann"; password = "pw"; ip_client = "10.0.0.1"; user_check_status = true }
unfolding after_requests on_open check_user_of get_connection_data check_keys_from_parsed_get
    after_check_user common_requsts send_request_for_auth change_user_to after_change check_user
    user_connect user_answer user_refused ws_tango_conn user_control item value_at lookup
after_requests_run = refl

check_permission_for_request-granted_example :
    (true ≡ true) × (granted auth settings.uc start_motor "a/b/c" (user "ann" true) [] ≡ true)
unfolding check_permission_for_request check_permission after_data get_permission_data
    permission_target after_connect after_command after_answer after_log ws_tango_conn user_control
check_permission_for_request-granted_example =
    check_permission_for_request-granted auth settings start_motor (user "ann" true) "a/b/c" false
      [] refl

common_requsts_refused_example :
    (common_requsts auth settings (become "bob") (user "ann" true) []).1.0 ≡ user "ann" true
unfolding check_user user_connect user_answer user_refused ws_tango_conn user_control item value_at
    lookup
common_requsts_refused_example =
    common_requsts_refused auth settings (become "bob") (user "ann" true) [] refl refl

check_permission-granted_example : granted auth www start_motor "a/b/c" (user "ann" true) [] ≡ true
unfolding check_permission after_data get_permission_data permission_target after_connect
    after_command after_answer after_log send_log item
check_permission-granted_example =
    check_permission-granted auth www start_motor "a/b/c" true (user "ann" true) [] refl

log_calm :
    (perm : List String) (w : auth.World)
    → escapes (auth.command_inout "send_log_command_ex" perm w).0 ≡ false
log_calm perm w = refl

granted-check_permission_example :
    is_ok (check_permission auth www start_motor "a/b/c" true (user "ann" true) []).0 ≡ true
unfolding granted granted_data granted_connected allowed get_permission_data permission_target item
granted-check_permission_example =
    granted-check_permission auth www start_motor "a/b/c" true log_calm (user "ann" true) [] refl

log_data-get_permission_data_example :
    log_data auth www 5 ("ann" ∷ "pw" ∷ "a/b/c" ∷ "Start/write" ∷ "10.0.0.1" ∷ []) "{}" false true
    ≡ "5" ∷ "ann" ∷ "a/b/c" ∷ "10.0.0.1" ∷ "Start/write" ∷ "{}" ∷ "1" ∷ "0" ∷ []
unfolding get_permission_data permission_target value_at lookup show_nat
log_data-get_permission_data_example =
    log_data-get_permission_data auth www start_motor (user "ann" true) "a/b/c"
      ("ann" ∷ "pw" ∷ "a/b/c" ∷ "Start/write" ∷ "10.0.0.1" ∷ []) 5 "{}" false true refl

check_permission_refused_log_example :
    (check_permission auth www start_motor "a/b/c" true (user "eve" true) []).1
    ≡ ("check_permissions_www" ∷ "eve" ∷ "pw" ∷ "a/b/c" ∷ "Start/write" ∷ "10.0.0.1" ∷ [])
      ∷ ("send_log_command_ex" ∷ "1" ∷ "eve" ∷ "a/b/c" ∷ "10.0.0.1" ∷ "Start/write" ∷ "{}" ∷ "1"
          ∷ "0" ∷ [])
      ∷ []
unfolding get_permission_data permission_target value_at lookup show_nat item
check_permission_refused_log_example =
    check_permission_refused_log auth www start_motor (user "eve" true) "a/b/c"
      ("eve" ∷ "pw" ∷ "a/b/c" ∷ "Start/write" ∷ "10.0.0.1" ∷ []) ("denied" ∷ []) [] []
      (("check_permissions_www" ∷ "eve" ∷ "pw" ∷ "a/b/c" ∷ "Start/write" ∷ "10.0.0.1" ∷ []) ∷ [])
      refl refl refl refl refl

abbrev options : List String
options = "tident=permission_www" ∷ "maxnconn=70000" ∷ "maxbuffsize=64" ∷ []

init_options-Bounded_example : Bounded (init_options client_mode options settings)
init_options-Bounded_example = init_options-Bounded client_mode "auth/1" options

max_buff_size-init_options_example :
    max_buff_size (init_options client_mode options settings)
    ≡ (init_options client_mode options settings).max_buffer_size * 1024
max_buff_size-init_options_example = max_buff_size-init_options client_mode "auth/1" options

options_run :
    ((init_options client_mode options settings).max_buffer_size ≡ 64)
    × ((init_options client_mode options settings).max_num_of_connection ≡ 0)
unfolding init_options init_option take_value option_value with_value second_part set_ident
    set_check_user set_check_permission set_log set_max_connections set_max_buffer between
    put_max_connections put_max_buffer flags ws_tango_conn contains parse_input_string stoi
options_run = (refl, refl)
