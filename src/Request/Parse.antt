-- ===== src/Request/Parse.antt =====
-- src/wstangoproc_common/ParsingInputJson.cpp, `parseInputJson`: from the text of a request to the
-- checked request.
use web_socket_ds.Base.{
  String, ◌<>◌, Bool, true, false, ◌||◌, ◌&&◌, List, [], ◌∷◌, ◌++◌, if◌then◌else◌, is_nil, nonempty,
  is_empty, str_beq,
}
use web_socket_ds.Base.Dict.{Dict, assign, string_eq}
use web_socket_ds.Wire.{Mode, TypeWsReq, ErrorType, type_ws_req_from_string}
use web_socket_ds.Wire.Kinds.{is_unknown}
use web_socket_ds.Request.{ParsedInputJson}
use web_socket_ds.Request.EventLists.{Ptree, Parsed, parsed, json_parser_error, other_exception}
use web_socket_ds.Request.Validity.{check_validity}
use web_socket_ds.StringProc.Response.{error_info, exception_string_out}

-- What the loop over the elements fills. The source leaves `type_req` unset at first; every way
-- through the code sets it.
pub record Elements (Tree : Type 0) : Type 0 where
  pub id : String
  pub type_req_str : String
  pub type_req : TypeWsReq
  pub err_mess : String
  pub err_type : ErrorType
  pub inp_str : Dict String String
  pub inp_vec : Dict String (List String)
  pub inp_obj : Dict String Tree

unfoldable pub no_elements : {Tree : Type 0} → Elements Tree
no_elements = record {
  id = "";
  type_req_str = "";
  type_req = TypeWsReq.unknown;
  err_mess = "";
  err_type = ErrorType.unknown_req_type;
  inp_str = [];
  inp_vec = [];
  inp_obj = [];
}

unfoldable pub unparsed : {Tree : Type 0} → ErrorType → String → Elements Tree → Elements Tree
unparsed kind message s = record s {
  type_req = TypeWsReq.unknown;
  err_mess = message;
  err_type = kind;
}

module _ (b : Ptree) where
  -- The loop over a list: its texts, none when one item has no text, and whether a key, which is
  -- an object's, ended the loop.
  unfoldable pub collect : List (String × b.Tree) → List String → List String × Bool
  collect [] vec = (vec, false)
  collect ((key, child) ∷ rest) vec =
      let further = collect rest (vec ++ b.data_of child ∷ []) in
      if nonempty key
      then (vec, true)
      else if is_empty (b.data_of child)
      then ([], false)
      else further

  unfoldable pub put_list : String → b.Tree → List String × Bool → Elements b.Tree → Elements b.Tree
  put_list key child (vec, is_obj) s = record s {
    inp_obj = if is_obj then assign key child s.inp_obj else s.inp_obj;
    inp_vec = if is_nil vec then s.inp_vec else assign key vec s.inp_vec;
  }

  -- One round, where it does not end the loop.
  unfoldable pub element : String → b.Tree → Elements b.Tree → Elements b.Tree
  element key child s =
      if str_beq key "id"
      then record s { id = if nonempty (b.data_of child) then b.data_of child else s.id }
      else if str_beq key "type_req"
      then record s {
        type_req_str = b.data_of child;
        type_req = type_ws_req_from_string (b.data_of child);
      }
      else if nonempty (b.data_of child)
      then record s { inp_str = assign key (b.data_of child) s.inp_str }
      else put_list key child (collect (b.children child) []) s

  unfoldable pub elements : List (String × b.Tree) → Elements b.Tree → Elements b.Tree
  elements [] s = s
  elements ((key, child) ∷ rest) s =
      let further = elements rest (element key child s) in
      if str_beq key "type_req" && is_empty (b.data_of child)
      then unparsed ErrorType.unknown_req_type "type of type_req must be value" s
      else further

  unfoldable pub has_key : String → List (String × b.Tree) → Bool
  has_key key [] = false
  has_key key ((k, child) ∷ rest) = str_beq k key || has_key key rest

  unfoldable pub read_elements : Parsed b.Tree → Elements b.Tree
  read_elements (parsed tree) =
      if has_key "type_req" (b.children tree)
      then elements (b.children tree) no_elements
      else unparsed ErrorType.unknown_req_type "key type_req not found" no_elements
  read_elements (json_parser_error message) =
      unparsed ErrorType.is_not_valid ("Json parsed error. Message from Boost: " <> message)
        no_elements
  read_elements other_exception =
      unparsed ErrorType.is_not_valid "unknown error from parseInputJson" no_elements

  abbrev id_or_null : String → String
  id_or_null id = if is_empty id then "null" else id

  -- The request before its checks; the maps are kept only when its type is known.
  unfoldable pub unchecked : String → Elements b.Tree → ParsedInputJson b.Tree
  unchecked json s = record {
    is_valid = false;
    err_mess = "";
    id = id_or_null s.id;
    type_req_str = s.type_req_str;
    type_req = s.type_req;
    input_json = json;
    other_inp_vec = s.inp_vec;
    other_inp_str = s.inp_str;
    other_inp_obj = s.inp_obj;
    periodic_ev_sub_list = [];
    change_ev_sub_list = [];
    user_ev_sub_list = [];
    archive_ev_sub_list = [];
  }

  abbrev known_or : String → String
  known_or tag = if is_empty tag then "unknown_req" else tag

  unfoldable pub of_unknown_type : String → Elements b.Tree → ParsedInputJson b.Tree
  of_unknown_type json s = record (unchecked json s) {
    type_req_str = known_or s.type_req_str;
    other_inp_vec = [];
    other_inp_str = [];
    other_inp_obj = [];
    err_mess = exception_string_out (record (error_info s.err_type) {
      id = id_or_null s.id;
      typeof_req = known_or s.type_req_str;
      error_message = s.err_mess;
    });
  }

  -- `parseInputJson`.
  unfoldable pub parse_input_json : Mode → String → ParsedInputJson b.Tree
  parse_input_json mode json =
      let s = read_elements (b.read_json json) in
      if is_unknown s.type_req
      then of_unknown_type json s
      else check_validity b mode (unchecked json s)
