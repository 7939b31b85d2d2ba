-- ===== src/Session/Users.antt =====
-- src/wstangoproc_common/WSTangoConn.cpp and WSThread.cpp: who a connection's user is, from its
-- opening to each of its requests.
use web_socket_ds.Base.{
  String, ◌<>◌, Bool, true, false, not, ◌||◌, ◌&&◌, Option, none, some, if◌then◌else◌, is_some,
  get_or, nonempty, is_empty, str_beq,
}
use web_socket_ds.Base.Dict.{Dict, lookup, string_eq}
use web_socket_ds.Wire.{ErrorType}
use web_socket_ds.Wire.Kinds.{is_change_user, is_user_check_status}
use web_socket_ds.Request.{ParsedInputJson, value_at}
use web_socket_ds.StringProc.Response.{error_info, exception_string_out, response_string_out}
use web_socket_ds.UserControl.{
  AuthDs, Result, ok, runtime_error, other_exception, UserData, is_www, bool_text, check_user,
  check_permission,
}
use web_socket_ds.Session.Options.{WsTangoConn}

unfoldable pub check_keys_from_parsed_get : Dict String String → Bool
check_keys_from_parsed_get parsed_get =
    is_some (lookup "login" parsed_get)
    && is_some (lookup "password" parsed_get)
    && is_some (lookup "ip" parsed_get)

-- `getConnectionData` behind `getRemoteConf`. `unset` is what `userCheckStatus` holds in a new
-- `ConnectionData`, whose constructor does not set it.
unfoldable pub get_connection_data : WsTangoConn → Bool → Dict String String → UserData
get_connection_data s unset parsed_get = record {
  login = get_or (lookup "login" parsed_get) "";
  password = get_or (lookup "password" parsed_get) "";
  ip_client = get_or (lookup "ip" parsed_get) "";
  user_check_status =
      if is_www s.type_of_ident
      then true
      else if check_keys_from_parsed_get parsed_get
      then unset
      else false;
}

-- `catch (std::runtime_error &re)`.
abbrev pub what_of : Result String → Result String
what_of (ok mess) = ok mess
what_of (runtime_error what) = ok what
what_of other_exception = other_exception

module _ (a : AuthDs) (s : WsTangoConn) where
  -- An exception of `check_user` leaves `checkUser` before the status is set.
  unfoldable pub after_check_user :
      UserData → Result (Unit {0}) × a.World → Result (Unit {0}) × (UserData × a.World)
  after_check_user conn (runtime_error what, w) = (runtime_error what, (conn, w))
  after_check_user conn (other_exception, w) = (other_exception, (conn, w))
  after_check_user conn (ok u, w) = (ok u, (record conn { user_check_status = true }, w))

  -- `checkUser`.
  unfoldable pub check_user_of : UserData → a.World → Result (Unit {0}) × (UserData × a.World)
  check_user_of conn w =
      if is_www s.type_of_ident
      then (
        ok tt,
        (record conn { user_check_status = nonempty conn.login && nonempty conn.password }, w),
      )
      else if nonempty conn.login
      then after_check_user conn (check_user a s.uc conn.login conn.password w)
      else (ok tt, (record conn { user_check_status = false }, w))

  abbrev message_of : Result (Unit {0}) → Option String
  message_of (ok u) = some ""
  message_of (runtime_error what) = some what
  message_of other_exception = none

  -- `on_open`, up to the text that is sent to the client when it is not empty; none for an exception
  -- that leaves it.
  unfoldable pub on_open :
      Bool → Dict String String → a.World → Option String × (UserData × a.World)
  on_open unset parsed_get w =
      let (result, rest) = check_user_of (get_connection_data s unset parsed_get) w in
      (message_of result, rest)

  module _ {Tree : Type 0} (p : ParsedInputJson Tree) where
    unfoldable pub not_authenticated : UserData → String → String
    not_authenticated conn device_name =
        exception_string_out (record (error_info ErrorType.auth_perm) {
          typeof_req = p.type_req_str;
          device_name = device_name;
          id = p.id;
          error_message = "User " <> conn.login <> " has not been authenticated";
        })

    -- `checkPermissionForRequest`; an exception is its text.
    unfoldable pub check_permission_for_request :
        UserData → String → Bool → a.World → Result String × a.World
    check_permission_for_request conn device_name is_group w =
        if not conn.user_check_status
        then (runtime_error (not_authenticated conn device_name), w)
        else check_permission a s.uc p device_name is_group conn w

    unfoldable pub authenticated : String → String
    authenticated login =
        response_string_out p.id ("User " <> login <> " successfully authenticated") p.type_req_str
          true

    unfoldable pub after_change :
        UserData
        → String
        → String
        → Result (Unit {0}) × a.World
        → Result String × (UserData × a.World)
    after_change conn login pass (runtime_error what, w) = (runtime_error what, (conn, w))
    after_change conn login pass (other_exception, w) = (other_exception, (conn, w))
    after_change conn login pass (ok u, w) = (
      ok (authenticated login),
      (record conn { user_check_status = true; login = login; password = pass }, w),
    )

    -- `sendRequest_ForAuth`, with the login and the password of the request.
    unfoldable pub change_user_to :
        UserData → String → String → a.World → Result String × (UserData × a.World)
    change_user_to conn login pass w =
        if is_empty login || is_empty pass
        then (
          ok (
              exception_string_out (record (error_info ErrorType.auth_perm) {
                typeof_req = p.type_req_str;
                id = p.id;
                error_message = "keys login and password should not be empty";
              })),
          (conn, w),
        )
        else if nonempty conn.login && (str_beq conn.login login && conn.user_check_status)
        then (ok (authenticated conn.login), (conn, w))
        else after_change conn login pass
            (if is_www s.type_of_ident then (ok tt, w) else check_user a s.uc login pass w)

    unfoldable pub send_request_for_auth : UserData → a.World → Result String × (UserData × a.World)
    send_request_for_auth conn w =
        change_user_to conn (value_at p "login") (value_at p "password") w

    unfoldable pub send_request_user_status : UserData → String
    send_request_user_status conn =
        "{\"event\": \"read\", \"type_req\": \""
        <> p.type_req_str
        <> "\", \"data\": {\"status\": "
        <> bool_text conn.user_check_status
        <> ", \"username\": \""
        <> conn.login
        <> "\"}}"

    -- `commonRequsts`. Its body ends without a value for any other type; `on_message` calls it for
    -- these two.
    unfoldable pub common_requsts :
        UserData → a.World → Option (Result String) × (UserData × a.World)
    common_requsts conn w =
        let (result, rest) = send_request_for_auth conn w in
        if is_user_check_status p.type_req
        then (some (ok (send_request_user_status conn)), (conn, w))
        else if is_change_user p.type_req
        then (some (what_of result), rest)
        else (none, (conn, w))
