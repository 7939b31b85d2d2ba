-- ===== src/Request/EventLists.antt =====
-- src/wstangoproc_common/ParsingInputJson.cpp: the lists of attributes in a request for events.
-- `Ptree` is boost's property tree.
use web_socket_ds.Base.{
  String, List, [], ◌∷◌, Option, none, some, if◌then◌else◌, is_nil, nonempty, is_empty,
}
use web_socket_ds.Base.Dict.{Dict, lookup, assign, string_eq}
use web_socket_ds.Request.{ParsedInputJson, check_key, is_object}

-- What `read_json` comes to.
pub data Parsed (Tree : Type 0) : Type 0 where
  parsed : Tree → Parsed Tree
  json_parser_error : String → Parsed Tree
  other_exception : Parsed Tree

-- `get_child` is for a path whose separator is `|`; none where it throws.
pub record Ptree : Type 1 where
  pub Tree : Type 0
  pub data_of : Tree → String
  pub children : Tree → List (String × Tree)
  pub get_child : String → Tree → Option Tree
  pub read_json : String → Parsed Tree

module _ (b : Ptree) where
  unfoldable pub data_parts : List (String × b.Tree) → List String
  data_parts [] = []
  data_parts ((key, child) ∷ rest) =
      let parts = data_parts rest in
      if nonempty (b.data_of child) then b.data_of child ∷ parts else parts

  unfoldable pub get_array_of_str : String → b.Tree → List String
  get_array_of_str key tree = elim (b.get_child key tree) [
    | none ↦ []
    | some child ↦
        if nonempty (b.data_of child) then b.data_of child ∷ [] else data_parts (b.children child)
  ]

  -- One round of `_getEventSubList`: an entry for a list, then one for a value.
  unfoldable pub event_entry :
      b.Tree → String → b.Tree → Dict String (List String) → Dict String (List String)
  event_entry tree dev child subs =
      let listed =
        if is_nil (b.children child) then subs else assign dev (get_array_of_str dev tree) subs in
      if nonempty (b.data_of child) then assign dev (b.data_of child ∷ []) listed else listed

  unfoldable pub event_entries :
      b.Tree → List (String × b.Tree) → Dict String (List String) → Dict String (List String)
  event_entries tree [] subs = subs
  event_entries tree ((dev, child) ∷ rest) subs =
      event_entries tree rest (if is_empty dev then subs else event_entry tree dev child subs)

  -- `_getEventSubList`.
  unfoldable pub get_event_sub_list : b.Tree → Dict String (List String)
  get_event_sub_list tree = event_entries tree (b.children tree) []

  -- The list under a key that holds an object; nothing is set for any other.
  unfoldable pub events_under : ParsedInputJson b.Tree → String → Option (Dict String (List String))
  events_under p key =
      if is_object (check_key p key)
      then (elim (lookup key p.other_inp_obj) [
        | none ↦ none
        | some tree ↦ some (get_event_sub_list tree)
      ])
      else none
