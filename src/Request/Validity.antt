-- ===== src/Request/Validity.antt =====
-- src/wstangoproc_common/ParsingInputJson.cpp, `_checkValidity`: whether a parsed request has the
-- keys that its type asks for.
use web_socket_ds.Base.{
  String, Bool, true, false, not, ◌&&◌, ◌||◌, List, [], ◌∷◌, Option, none, some, if◌then◌else◌,
  is_nil, contains,
}
use web_socket_ds.Base.Dict.{Dict, string_eq}
use web_socket_ds.Wire.{Mode, server_mode, client_mode, TypeWsReq, ErrorType}
use web_socket_ds.Request.{ParsedInputJson, check_key, check_keys, is_value, is_array, value_at}
use web_socket_ds.Wire.Kinds.{
  is_client, is_command, is_command_dev_client, is_pipe, is_attribute_write, is_attribute_read,
  is_change_user, is_user_check_status,
}
use web_socket_ds.Request.EventLists.{Ptree, events_under}
use web_socket_ds.StringProc.Response.{error_info, exception_string_out}

module _ {Tree : Type 0} where
  -- The error of the checks: its device is the request's, when the request names one.
  unfoldable pub reject : ErrorType → String → ParsedInputJson Tree → ParsedInputJson Tree
  reject kind message p = record p {
    err_mess = exception_string_out (record (error_info kind) {
      id = p.id;
      typeof_req = p.type_req_str;
      device_name = if is_value (check_key p "device_name") then value_at p "device_name" else "";
      error_message = message;
    });
  }

  unfoldable pub accept : TypeWsReq → ParsedInputJson Tree → ParsedInputJson Tree
  accept t p = record p { type_req = t; is_valid = true }

  abbrev pub has_value : ParsedInputJson Tree → String → Bool
  has_value p key = is_value (check_key p key)

  -- The client build asks every request for its device; the kind of error is the caller's.
  unfoldable pub with_device :
      Mode → ErrorType → TypeWsReq → ParsedInputJson Tree → ParsedInputJson Tree
  with_device mode kind t p =
      if is_client mode && not (has_value p "device_name")
      then reject kind "Not found key device_name or device_name is not value" p
      else accept t p

  unfoldable pub check_command : Mode → ParsedInputJson Tree → ParsedInputJson Tree
  check_command mode p =
      if not (has_value p "command_name")
      then reject ErrorType.check_request "Not found key command_name or command_name is not value "
          p
      else if not (is_client mode) && is_command_dev_client p.type_req
      then reject ErrorType.not_supp_in_curr "type_req must be command" p
      else with_device mode ErrorType.not_supp_in_curr TypeWsReq.command p

  unfoldable pub check_pipe : Mode → ParsedInputJson Tree → ParsedInputJson Tree
  check_pipe mode p =
      if not (has_value p "pipe_name")
      then reject ErrorType.check_request "Not found key pipe_name or pipe_name is not value" p
      else with_device mode ErrorType.check_request TypeWsReq.pipe_comm p

  unfoldable pub check_attribute_write : Mode → ParsedInputJson Tree → ParsedInputJson Tree
  check_attribute_write mode p =
      if not (has_value p "attr_name")
      then reject ErrorType.check_request "Not found key attr_name or attr_name is not value" p
      else with_device mode ErrorType.check_request TypeWsReq.attribute_write p

  unfoldable pub check_attribute_read : Mode → ParsedInputJson Tree → ParsedInputJson Tree
  check_attribute_read mode p =
      if not (has_value p "attr_name") && not (is_array (check_key p "attr_name"))
      then reject ErrorType.check_request
          "Not found key attr_name or attr_name is not value or array" p
      else with_device mode ErrorType.check_request TypeWsReq.attribute_read p

  unfoldable pub check_change_user : ParsedInputJson Tree → ParsedInputJson Tree
  check_change_user p =
      if not (is_value (check_keys p ("login" ∷ "password" ∷ [])))
      then reject ErrorType.check_request "keys login or password not found" p
      else record p { is_valid = true }

  unfoldable pub unknown_request : ParsedInputJson Tree → ParsedInputJson Tree
  unknown_request p = record p {
    is_valid = false;
    type_req = TypeWsReq.unknown;
    err_mess = exception_string_out (record (error_info ErrorType.unknown_req_type) {
      id = p.id;
      typeof_req = "unknown_req";
      device_name = if has_value p "device_name" then value_at p "device_name" else "";
      error_message = "Unknown Request";
    });
  }

  -- The checks of the two builds, behind the ones on events.
  unfoldable pub check_by_type : Mode → ParsedInputJson Tree → ParsedInputJson Tree
  check_by_type mode p =
      if is_command p.type_req
      then check_command mode p
      else if is_pipe p.type_req
      then check_pipe mode p
      else if is_attribute_write p.type_req
      then check_attribute_write mode p
      else if is_attribute_read p.type_req
      then check_attribute_read mode p
      else if is_change_user p.type_req
      then check_change_user p
      else if is_user_check_status p.type_req
      then record p { is_valid = true }
      else unknown_request p

  unfoldable pub check_rem_dev : ParsedInputJson Tree → ParsedInputJson Tree
  check_rem_dev p =
      if not (has_value p "event_sub_id")
      then reject ErrorType.check_request "key event_sub_id not found or must be value" p
      else record p { is_valid = true }

  unfoldable pub check_check_dev : ParsedInputJson Tree → ParsedInputJson Tree
  check_check_dev p =
      if not (is_value (check_keys p ("event_type" ∷ "device" ∷ "attribute" ∷ [])))
      then reject ErrorType.check_request "check keys for request" p
      else record p { is_valid = true }

  -- One list makes the request valid, when it is not empty.
  abbrev valid_with : ParsedInputJson Tree → Dict String (List String) → Bool
  valid_with p subs = p.is_valid || not (is_nil subs)

module _ (b : Ptree) where
  abbrev pub set_periodic :
      ParsedInputJson b.Tree → Option (Dict String (List String)) → ParsedInputJson b.Tree
  set_periodic p none = p
  set_periodic p (some subs) = record p {
    periodic_ev_sub_list = subs;
    is_valid = valid_with p subs;
  }

  abbrev pub set_change :
      ParsedInputJson b.Tree → Option (Dict String (List String)) → ParsedInputJson b.Tree
  set_change p none = p
  set_change p (some subs) = record p { change_ev_sub_list = subs; is_valid = valid_with p subs }

  abbrev pub set_user :
      ParsedInputJson b.Tree → Option (Dict String (List String)) → ParsedInputJson b.Tree
  set_user p none = p
  set_user p (some subs) = record p { user_ev_sub_list = subs; is_valid = valid_with p subs }

  abbrev pub set_archive :
      ParsedInputJson b.Tree → Option (Dict String (List String)) → ParsedInputJson b.Tree
  set_archive p none = p
  set_archive p (some subs) = record p { archive_ev_sub_list = subs; is_valid = valid_with p subs }

  unfoldable pub add_lists : ParsedInputJson b.Tree → ParsedInputJson b.Tree
  add_lists p0 =
      let p1 = set_periodic p0 (events_under b p0 "periodic") in
      let p2 = set_change p1 (events_under b p1 "change") in
      let p3 = set_user p2 (events_under b p2 "user") in
      set_archive p3 (events_under b p3 "archive")

  unfoldable pub check_add_dev : ParsedInputJson b.Tree → ParsedInputJson b.Tree
  check_add_dev p0 =
      let p = add_lists p0 in
      if not p.is_valid
      then reject ErrorType.check_request "No attribute found for event subscription" p
      else p

  -- `_checkValidity`; its checks of the request's text are substring searches.
  unfoldable pub check_validity : Mode → ParsedInputJson b.Tree → ParsedInputJson b.Tree
  check_validity server_mode p =
      if contains "eventreq" p.type_req_str
      then reject ErrorType.not_supp_in_curr
          "Subscribing to events is not supported in the current mode" p
      else check_by_type server_mode p
  check_validity client_mode p =
      if contains "eventreq_add_dev" p.type_req_str
      then check_add_dev p
      else if contains "eventreq_rem_dev" p.type_req_str
      then check_rem_dev p
      else if contains "eventreq_check_dev" p.type_req_str
      then check_check_dev p
      else if contains "eventreq_off" p.type_req_str
      then record p { is_valid = true }
      else check_by_type client_mode p
