-- ===== src/StringProc/Response.antt =====
-- src/wstangoproc_common/StringProc.cpp: the JSON texts that go back to a client, with the records
-- of ErrorInfo.h and ResponseFromEvent.h. A `stringstream` is the text written so far.
use Prim.Native.Char.{code}
use web_socket_ds.Base.{
  ◌≡◌, refl, ℕ, String, ◌<>◌, Bool, true, false, List, [], ◌∷◌, none, some, if◌then◌else◌, is_nil,
  nonempty, nat_beq,
}
use web_socket_ds.Base.Int.{stoi, show_int, show_nat}
use web_socket_ds.Wire.{ErrorType, EventType, ResponseType, error_type_to_string}
use web_socket_ds.Request.{ParsedInputJson}

pub record ResponseFromEventReq : Type 0 where
  pub resp_type : ResponseType
  pub event_type : EventType
  pub event_type_str : String
  pub device_name : String
  pub attr_name : String
  pub error_messages : List String
  pub event_sub_id : ℕ

pub record ErrorInfo : Type 0 where
  pub typeof_error : ErrorType
  pub typeof_req : String
  pub id : String
  pub device_name : String
  pub attr_name : String
  pub error_message : String
  pub error_messages : List String
  pub event_type : String
  pub error_responses : List ResponseFromEventReq

-- `ErrorInfo err; err.typeofError = …;` before the other fields are set.
abbrev pub error_info : ErrorType → ErrorInfo
error_info t = record {
  typeof_error = t;
  typeof_req = "";
  id = "";
  device_name = "";
  attr_name = "";
  error_message = "";
  error_messages = [];
  event_type = "";
  error_responses = [];
}

abbrev quoted : String → String
quoted s = "\"" <> s <> "\""

-- `try { ss << before << stoi(id) << after; } catch (...) {}`
id_part : String → String → String → String
id_part before id after = elim (stoi id) [ none ↦ "" | some n ↦ before <> show_int n <> after ]

-- The opening that the successful answers share.
read_head : String → String → String
unfolding id_part
read_head id type_req_str =
    "{\"event\":\"read\", \"type_req\": \""
    <> type_req_str
    <> "\", "
    <> id_part "\"id_req\": " id ", "

unfoldable pub success_resp_out : {Tree : Type 0} → ParsedInputJson Tree → String
unfolding read_head
success_resp_out p = read_head p.id p.type_req_str <> "\"success\": true}"

unfoldable pub generate_resp_mess : String → String → String → String
unfolding read_head
generate_resp_mess id in_message type_req_str =
    read_head id type_req_str <> "\"resp\": " <> in_message <> "}"

-- The overload with a list of errors.
unfoldable pub generate_resp_mess_errors : String → String → String → String → String
unfolding read_head
generate_resp_mess_errors id in_message err_message type_req_str =
    read_head id type_req_str
    <> "\"resp\": "
    <> in_message
    <> ", \"errors\": "
    <> err_message
    <> "}"

unfoldable pub response_string_out : String → String → String → Bool → String
unfolding generate_resp_mess
response_string_out id message type_req_str is_string =
    generate_resp_mess id (if is_string then quoted message else message) type_req_str

-- `", "` between the items, none before the first.
quoted_items : Bool → List String → String
quoted_items first [] = ""
quoted_items first (m ∷ ms) = (if first then "" else ", ") <> quoted m <> quoted_items false ms

unfoldable pub response_string_out_list : String → List String → String → String
unfolding generate_resp_mess quoted_items
response_string_out_list id messages type_req_str =
    generate_resp_mess id ("[" <> quoted_items true messages <> "]") type_req_str

event_items : Bool → List ResponseFromEventReq → String
unfolding show_nat
event_items first [] = ""
event_items first (r ∷ rs) =
    (if first then "" else ", ")
    <> "{\"device\": "
    <> quoted r.device_name
    <> (if nonempty r.attr_name then ", \"attribute\": " <> quoted r.attr_name else "")
    <> ", \"event_type\": "
    <> quoted r.event_type_str
    <> ", \"event_sub_id\": "
    <> show_nat r.event_sub_id
    <> "}"
    <> event_items false rs

unfoldable pub generate_success_string_out_for_event : List ResponseFromEventReq → String
unfolding event_items
generate_success_string_out_for_event rs = "[" <> event_items true rs <> "]"

unfoldable pub response_string_out_for_event_sub :
    String → String → List ResponseFromEventReq → String
unfolding generate_resp_mess generate_success_string_out_for_event
response_string_out_for_event_sub id type_req_str rs =
    generate_resp_mess id (generate_success_string_out_for_event rs) type_req_str

-- Both overloads of `generateErrorMess`, and the choice between them.
error_mess_part : String → List String → String
unfolding quoted_items
error_mess_part message messages =
    if nonempty message
    then ", \"err_mess\": " <> quoted message
    else if is_nil messages
    then ""
    else ", \"err_mess\": [" <> quoted_items true messages <> "]"

abbrev optional_part : String → String → String
optional_part key text = if nonempty text then " ,\"" <> key <> "\": " <> quoted text else ""

unfoldable pub exception_string_out : ErrorInfo → String
unfolding id_part error_mess_part generate_success_string_out_for_event
exception_string_out e =
    "{\"event\": \"error\""
    <> optional_part "type_req" e.typeof_req
    <> " ,\"type_err\": "
    <> quoted (error_type_to_string e.typeof_error)
    <> (if nonempty e.id then id_part " ,\"id_req\": " e.id "" else "")
    <> optional_part "device_name" e.device_name
    <> optional_part "attr_name" e.attr_name
    <> optional_part "event_type" e.event_type
    <> (if is_nil e.error_responses
        then ""
        else " ,\"errors\": " <> generate_success_string_out_for_event e.error_responses)
    <> error_mess_part e.error_message e.error_messages
    <> "}"

-- `removeSymbolsForString`: a carriage return goes, a line feed becomes a blank.
unfoldable pub remove_symbols_for_string : String → String
remove_symbols_for_string String.[] = String.[]
remove_symbols_for_string (String.◌∷◌ c s) =
    let rest = remove_symbols_for_string s in
    if nat_beq (code c) 13
    then rest
    else if nat_beq (code c) 10
    then " " <> rest
    else String.◌∷◌ c rest

out_example :
    exception_string_out
      (record (error_info ErrorType.auth_perm) { id = "7"; error_message = "no" })
    ≡ "{\"event\": \"error\" ,\"type_err\": \"auth_perm\" ,\"id_req\": 7, \"err_mess\": \"no\"}"
unfolding exception_string_out error_type_to_string stoi show_int
out_example = refl
