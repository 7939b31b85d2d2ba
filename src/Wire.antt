-- ===== src/Wire.antt =====
-- The enumerations of src/wstangoproc_common/common.h, ErrorType.h and ResponseFromEvent.h, and
-- the tables of EnumConverter.h. `EventType` has the four events of Tango that the program names.
pub mod Tags
pub mod Kinds
use web_socket_ds.Base.{String, [], ◌∷◌, get_or}
use web_socket_ds.Base.Dict.{Dict, lookup, string_eq}

-- The build: server_mode or client_mode (CurrentMode.h).
pub data Mode : Type 0 where
  server_mode client_mode : Mode

pub data TypeWsReq : Type 0 where
  attribute attribute_write attribute_write_dev attribute_write_gr : TypeWsReq
  command command_dev command_gr : TypeWsReq
  pipe pipe_comm pipe_comm_dev pipe_comm_gr : TypeWsReq
  command_dev_client attr_dev_client attr_dev_client_wr attr_gr_client : TypeWsReq
  user_check_status change_user : TypeWsReq
  attribute_read attribute_read_dev attribute_read_gr : TypeWsReq
  event_req_add_dev event_req_rem_dev event_req_off event_req_check_dev : TypeWsReq
  unknown : TypeWsReq

pub data TypeOfIdent : Type 0 where
  simple permission_www : TypeOfIdent

pub data TypeOfVal : Type 0 where
  value array object none : TypeOfVal

pub data SingleOrGroup : Type 0 where
  single group single_from_group : SingleOrGroup

pub data ErrorType : Type 0 where
  init_failed auth_check auth_perm auth_server_err is_not_valid not_supp : ErrorType
  not_supp_in_curr unknown_req_type check_request tango_exception unavailable_devs : ErrorType
  event_err exc_from_event_dev check_code subscr_not_found communication_failed : ErrorType
  connection_failed unknown_exc not_subscr_yet from_event_subscr device_not_in_group : ErrorType

pub data EventType : Type 0 where
  change_event periodic_event user_event archive_event : EventType

pub data ResponseType : Type 0 where
  error_m success added_early : ResponseType

abbrev type_ws_req_map : Dict String TypeWsReq
type_ws_req_map =
    ("command", command)
    ∷ ("command_device", command_dev)
    ∷ ("command_group", command_gr)
    ∷ ("read_pipe", pipe_comm)
    ∷ ("read_pipe_dev", pipe_comm_dev)
    ∷ ("read_pipe_gr", pipe_comm_gr)
    ∷ ("command_device_cl", command_dev_client)
    ∷ ("attr_device_cl", attr_dev_client)
    ∷ ("write_attr", attribute_write)
    ∷ ("write_attr_dev", attribute_write_dev)
    ∷ ("write_attr_gr", attribute_write_gr)
    ∷ ("write_attr_dev_cl", attr_dev_client_wr)
    ∷ ("attr_group_cl", attr_gr_client)
    ∷ ("user_status", user_check_status)
    ∷ ("change_user_smpl", change_user)
    ∷ ("read_attr", attribute_read)
    ∷ ("read_attr_dev", attribute_read_dev)
    ∷ ("read_attr_gr", attribute_read_gr)
    ∷ ("eventreq_add_dev", event_req_add_dev)
    ∷ ("eventreq_rem_dev", event_req_rem_dev)
    ∷ ("eventreq_off", event_req_off)
    ∷ ("eventreq_check_dev", event_req_check_dev)
    ∷ ("", unknown)
    ∷ []

unfoldable pub type_ws_req_from_string : String → TypeWsReq
unfolding lookup
type_ws_req_from_string tag = get_or (lookup tag type_ws_req_map) unknown

unfoldable pub error_type_to_string : ErrorType → String
error_type_to_string init_failed = "init_failed"
error_type_to_string auth_check = "auth_check"
error_type_to_string auth_perm = "auth_perm"
error_type_to_string auth_server_err = "auth_server_err"
error_type_to_string is_not_valid = "is_not_valid"
error_type_to_string not_supp = "not_supp"
error_type_to_string not_supp_in_curr = "not_supp_in_curr"
error_type_to_string unknown_req_type = "unknown_req_type"
error_type_to_string check_request = "check_request"
error_type_to_string tango_exception = "tango_exc"
error_type_to_string unavailable_devs = "unavailable_devs"
error_type_to_string event_err = "event_err"
error_type_to_string exc_from_event_dev = "event_dev_err"
error_type_to_string check_code = "check_code"
error_type_to_string subscr_not_found = "subscr_not_found"
error_type_to_string communication_failed = "commun_failed"
error_type_to_string connection_failed = "conn_failed"
error_type_to_string unknown_exc = "unknown_exc"
error_type_to_string not_subscr_yet = "not_subscr_yet"
error_type_to_string from_event_subscr = "from_event_sub"
error_type_to_string device_not_in_group = "device_not_in_group"

unfoldable pub event_type_to_string : EventType → String
event_type_to_string archive_event = "archive"
event_type_to_string periodic_event = "periodic"
event_type_to_string user_event = "user"
event_type_to_string change_event = "change"
