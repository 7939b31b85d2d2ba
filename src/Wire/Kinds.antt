-- ===== src/Wire/Kinds.antt =====
-- src/wstangoproc_common/ParsingInputJson.cpp, `_checkValidity`: the tests on the type of a request
-- and on the build.
use web_socket_ds.Base.{Bool, true, false}
use web_socket_ds.Wire.{Mode, server_mode, client_mode, TypeWsReq}

abbrev pub is_client : Mode → Bool
is_client client_mode = true
is_client server_mode = false

abbrev pub is_command : TypeWsReq → Bool
is_command t = elim t [
  | TypeWsReq.command ↦ true
  | TypeWsReq.command_dev ↦ true
  | TypeWsReq.command_gr ↦ true
  | TypeWsReq.command_dev_client ↦ true
  | _ ↦ false
]

abbrev pub is_command_dev_client : TypeWsReq → Bool
is_command_dev_client t = elim t [ TypeWsReq.command_dev_client ↦ true | _ ↦ false ]

abbrev pub is_pipe : TypeWsReq → Bool
is_pipe t = elim t [
  | TypeWsReq.pipe_comm ↦ true
  | TypeWsReq.pipe_comm_dev ↦ true
  | TypeWsReq.pipe_comm_gr ↦ true
  | _ ↦ false
]

abbrev pub is_attribute_write : TypeWsReq → Bool
is_attribute_write t = elim t [
  | TypeWsReq.attribute_write ↦ true
  | TypeWsReq.attribute_write_dev ↦ true
  | TypeWsReq.attribute_write_gr ↦ true
  | TypeWsReq.attr_dev_client_wr ↦ true
  | _ ↦ false
]

abbrev pub is_attribute_read : TypeWsReq → Bool
is_attribute_read t = elim t [
  | TypeWsReq.attribute_read ↦ true
  | TypeWsReq.attribute_read_gr ↦ true
  | TypeWsReq.attribute_read_dev ↦ true
  | TypeWsReq.attr_gr_client ↦ true
  | _ ↦ false
]

abbrev pub is_change_user : TypeWsReq → Bool
is_change_user t = elim t [ TypeWsReq.change_user ↦ true | _ ↦ false ]

abbrev pub is_user_check_status : TypeWsReq → Bool
is_user_check_status t = elim t [ TypeWsReq.user_check_status ↦ true | _ ↦ false ]

abbrev pub is_unknown : TypeWsReq → Bool
is_unknown t = elim t [ TypeWsReq.unknown ↦ true | _ ↦ false ]
