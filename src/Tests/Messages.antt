-- ===== src/Tests/Messages.antt =====
-- Requests and their texts at concrete inputs: a property tree with the texts of two requests.
use Prim.Native.String.{count}
use web_socket_ds.Base.{
  ◌≤◌, ◌≡◌, ◌≢◌, refl, String, true, false, not, List, [], ◌∷◌, Option, none, some, str_beq,
  if◌then◌else◌, nonempty, All, arith, eq_iff, contains,
}
use web_socket_ds.Base.Dict.{lookup, assign, string_eq}
use web_socket_ds.Wire.{client_mode, server_mode, type_ws_req_from_string, auth_perm, change_event}
use web_socket_ds.Wire.Tags.{error_type_to_string-injective, event_type_to_string-injective}
use web_socket_ds.Request.{check_key}
use web_socket_ds.Request.EventLists.{
  Ptree, Parsed, parsed, json_parser_error, events_under, get_event_sub_list, event_entries,
  event_entry, get_array_of_str, data_parts,
}
use web_socket_ds.Request.Validity.{check_validity, check_add_dev, add_lists}
use web_socket_ds.Request.Parse.{
  parse_input_json, read_elements, elements, element, has_key, unchecked, collect, put_list,
  no_elements,
}
use web_socket_ds.Request.Complete.{has_keys}
use web_socket_ds.Request.Answered.{parse_input_json_answered, parse_input_json_complete}
use web_socket_ds.StringProc.Response.{remove_symbols_for_string}
use web_socket_ds.StringProc.OneLine.{has_break, remove_symbols_for_string-has_break}
use web_socket_ds.StringProc.Split.{parse_input_string}
use web_socket_ds.StringProc.Split.Find.{find_split}
use web_socket_ds.StringProc.Split.Rejoin.{join, parse_input_string-join, parse_input_string_name}

-- A text, or entries.
data Doc : Type 0 where
  text : String → Doc
  entry : String → Doc → Doc → Doc

doc_text : Doc → String
doc_text (text s) = s
doc_text (entry key child rest) = ""

entries : Doc → List (String × Doc)
entries (text s) = []
entries (entry key child rest) = let further = entries rest in (key, child) ∷ further

child_at : String → List (String × Doc) → Option Doc
child_at key [] = none
child_at key ((k, child) ∷ rest) =
    let further = child_at key rest in if str_beq k key then some child else further

nothing : Doc
nothing = text ""

-- `{"type_req": "eventreq_add_dev", "id": "3", "change": {"a/b/c": ["x"]}}`
abbrev adding : Doc
adding = entry "type_req" (text "eventreq_add_dev") (
    entry "id" (text "3")
      (entry "change" (entry "a/b/c" (entry "" (text "x") (text "")) (text "")) (text "")))

read_doc : String → Parsed Doc
read_doc json = if str_beq json "adding" then parsed adding else json_parser_error "expected value"

abbrev docs : Ptree
docs = record {
  Tree = Doc;
  data_of = doc_text;
  children = entries;
  get_child = λ key tree. child_at key (entries tree);
  read_json = read_doc;
}

parse_input_json_complete_example :
    has_keys client_mode (parse_input_json docs client_mode "adding") ≡ true
unfolding parse_input_json read_elements elements element has_key unchecked no_elements
    check_validity check_add_dev add_lists events_under get_event_sub_list event_entries event_entry
    get_array_of_str data_parts check_key lookup assign type_ws_req_from_string doc_text entries
    child_at read_doc collect put_list contains
parse_input_json_complete_example = parse_input_json_complete docs client_mode "adding" refl

parse_input_json_answered_example :
    nonempty (parse_input_json docs server_mode "adding").err_mess
    ≡ not (parse_input_json docs server_mode "adding").is_valid
parse_input_json_answered_example = parse_input_json_answered docs server_mode "adding"

comma_nonempty : ◌≢◌ {A = String} "," ""
comma_nonempty h = ground (arith, eq_iff "," "", h)

parse_input_string-join_example :
    (join "," (parse_input_string "a,b,,c" "," true).1 ≡ "a,b,,c")
    × All (λ p. find_split "," p ≡ none) (parse_input_string "a,b,,c" "," true).1
parse_input_string-join_example = parse_input_string-join "a,b,,c" "," comma_nonempty

parse_input_string_name_example :
    ((parse_input_string "a;b" ";" true).0 ≡ (parse_input_string "a;b" ";" false).0)
    × ((parse_input_string "a;b" ";" true).1
        ≡ (parse_input_string "a;b" ";" true).0 ∷ (parse_input_string "a;b" ";" false).1)
parse_input_string_name_example = parse_input_string_name "a;b" ";"

error_type_to_string-injective_example : auth_perm ≡ auth_perm
error_type_to_string-injective_example = error_type_to_string-injective auth_perm auth_perm refl

event_type_to_string-injective_example : change_event ≡ change_event
event_type_to_string-injective_example =
    event_type_to_string-injective change_event change_event refl

remove_symbols_for_string-has_break_example :
    (has_break (remove_symbols_for_string "a\nb\r") ≡ false)
    × (count (remove_symbols_for_string "a\nb\r") ≤ count "a\nb\r")
remove_symbols_for_string-has_break_example = remove_symbols_for_string-has_break "a\nb\r"
