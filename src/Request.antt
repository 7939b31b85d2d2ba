-- ===== src/Request.antt =====
-- src/wstangoproc_common/ParsingInputJson.h: the parsed request. `Tree` is boost's ptree.
pub mod EventLists
pub mod Validity
pub mod Parse
pub mod Complete
pub mod Answered
use web_socket_ds.Base.{String, Bool, true, false, List, [], ◌∷◌, if◌then◌else◌, is_some, get_or}
use web_socket_ds.Base.Dict.{Dict, lookup, string_eq}
use web_socket_ds.Wire.{TypeWsReq, TypeOfVal, value, array, object}

-- The event lists are those of the client build; the server build leaves them empty.
pub record ParsedInputJson (Tree : Type 0) : Type 0 where
  pub is_valid : Bool
  pub err_mess : String
  pub id : String
  pub type_req_str : String
  pub type_req : TypeWsReq
  pub input_json : String
  pub other_inp_vec : Dict String (List String)
  pub other_inp_str : Dict String String
  pub other_inp_obj : Dict String Tree
  pub periodic_ev_sub_list : Dict String (List String)
  pub change_ev_sub_list : Dict String (List String)
  pub user_ev_sub_list : Dict String (List String)
  pub archive_ev_sub_list : Dict String (List String)

abbrev pub is_value : TypeOfVal → Bool
is_value value = true
is_value _ = false

abbrev pub is_array : TypeOfVal → Bool
is_array array = true
is_array _ = false

abbrev pub is_object : TypeOfVal → Bool
is_object object = true
is_object _ = false

abbrev pub is_none : TypeOfVal → Bool
is_none TypeOfVal.none = true
is_none _ = false

abbrev same_val : TypeOfVal → TypeOfVal → Bool
same_val value t = is_value t
same_val array t = is_array t
same_val object t = is_object t
same_val TypeOfVal.none t = is_none t

module _ {Tree : Type 0} (p : ParsedInputJson Tree) where
  unfoldable pub check_key : String → TypeOfVal
  check_key key =
      if is_some (lookup key p.other_inp_str)
      then value
      else if is_some (lookup key p.other_inp_vec)
      then array
      else if is_some (lookup key p.other_inp_obj)
      then object
      else TypeOfVal.none

  -- The loop of `check_keys`, behind its first round.
  check_rest : TypeOfVal → List String → TypeOfVal
  check_rest t [] = t
  check_rest t (key ∷ keys) =
      let rest = check_rest t keys in if same_val (check_key key) t then rest else TypeOfVal.none

  -- With no key the source returns a value that it never set; the program always passes two or
  -- three.
  unfoldable pub check_keys : List String → TypeOfVal
  unfolding check_rest
  check_keys [] = TypeOfVal.none
  check_keys (key ∷ keys) =
      let t = check_key key in if is_none t then TypeOfVal.none else check_rest t keys

  -- `otherInpStr.at(key)`, which is called only where the key is there. For a missing key `at` would
  -- throw; the empty text stands for no call of the source.
  unfoldable pub value_at : String → String
  value_at key = get_or (lookup key p.other_inp_str) ""
