-- ===== src/Events/Requests.antt =====
-- src/wstangoproc_cli/EventProcCli.cpp: `_checkEventReq`, and `request`, which tells the requests apart.
use web_socket_ds.Base.{ℕ, String, ◌<>◌, Bool, none, some, ◌||◌, if◌then◌else◌, str_beq}
use web_socket_ds.Base.Int.{stoi, show_int, show_nat}
use web_socket_ds.Base.Dict.{string_eq, nat_eq}
use web_socket_ds.Wire.{ErrorType, TypeWsReq}
use web_socket_ds.Request.{ParsedInputJson, value_at}
use web_socket_ds.StringProc.Response.{error_info, exception_string_out, success_resp_out}
use web_socket_ds.Events.State.{Tango, EventProcCli, Env, get_id_of_event_subscription}
use web_socket_ds.Events.Reply.{EventReply, message, refuse}
use web_socket_ds.Events.Subscribe.{add_dev_req}
use web_socket_ds.Events.Unsubscribe.{rem_dev_req, unsubscribe_all_dev}

module _ {Tree : Type 0} (p : ParsedInputJson Tree) (hdl : ℕ) where
  unfoldable pub id_field : String
  id_field = elim (stoi p.id) [ none ↦ "" | some n ↦ " \"id_req\": " <> show_int n <> "," ]

  unfoldable pub found_reply : String → String → String → ℕ → EventReply
  found_reply dev attr type id = message (
      "{\"event\":\"read\", \"type_req\": \""
      <> p.type_req_str
      <> "\", "
      <> id_field
      <> "\"data\": {\"device\": \""
      <> dev
      <> "\", \"attribute\": \""
      <> attr
      <> "\", \"event_type\": \""
      <> type
      <> "\", \"event_sub_id\": \""
      <> show_nat id
      <> "\"}}")

  unfoldable pub is_event_type : String → Bool
  is_event_type s =
      str_beq s "change" || str_beq s "periodic" || str_beq s "user" || str_beq s "archive"

  -- `_checkEventReq`.
  unfoldable pub check_event_req : EventProcCli → EventReply
  check_event_req s =
      let type = value_at p "event_type" in
      let dev = value_at p "device" in
      let attr = value_at p "attribute" in
      if is_event_type type
      then elim (get_id_of_event_subscription s hdl dev attr type) [
        | none ↦ message (
            exception_string_out (record (error_info ErrorType.subscr_not_found) {
              typeof_req = p.type_req_str;
              id = p.id;
              device_name = dev;
              error_message = "No subscription found with this id";
            }))
        | some id ↦ found_reply dev attr type id
      ]
      else refuse p ErrorType.is_not_valid "Check type of event in request"

module _ {Tree : Type 0} (t : Tango) (unset : ℕ) (p : ParsedInputJson Tree) (hdl : ℕ) where
  -- `request`.
  unfoldable pub request : Env t → EventReply × Env t
  request e = elim p.type_req [
    | TypeWsReq.event_req_add_dev ↦ add_dev_req t unset p hdl e
    | TypeWsReq.event_req_off ↦ (message (success_resp_out p), unsubscribe_all_dev t unset hdl e)
    | TypeWsReq.event_req_check_dev ↦ (check_event_req p hdl e.proc, e)
    | TypeWsReq.event_req_rem_dev ↦ rem_dev_req t unset p hdl e
    | _ ↦ (refuse p ErrorType.check_code "Check code. EventProcCli::request()", e)
  ]
