-- ===== src/StringProc/Precision.antt =====
-- src/wstangoproc_common/StringProc.cpp: the options of precision, in the request or behind the
-- name, as in "Attr;prec=10".
use web_socket_ds.Base.{
  String, false, List, [], ◌∷◌, Option, none, some, if◌then◌else◌, is_empty, contains, get_or,
}
use web_socket_ds.Base.Dict.{Dict, lookup, assign, insert_new, string_eq}
use web_socket_ds.Wire.{TypeOfVal, value, array, object}
use web_socket_ds.Request.{ParsedInputJson, is_value, check_key, value_at}
use web_socket_ds.StringProc.Split.{parse_input_string}

abbrev pub opt_prec : String
opt_prec = "prec"

-- The first option that names a precision.
unfoldable pub first_precision : List String → Option String
unfolding contains
first_precision [] = none
first_precision (opt ∷ opts) = if contains opt_prec opt then some opt else first_precision opts

module _ {Tree : Type 0} where
  -- The overload for one name: the name without its options, and the option.
  unfoldable pub check_precision_options : String → ParsedInputJson Tree → String × String
  unfolding check_key value_at parse_input_string first_precision
  check_precision_options req_name p =
      let opt_str = if is_value (check_key p "precision") then value_at p "precision" else "" in
      let (name, got_options) = parse_input_string req_name ";" false in
      (name, if is_empty opt_str then get_or (first_precision got_options) "" else opt_str)

-- The overload that fills a map, for a property of the device: `insert` keeps a first entry.
unfoldable pub add_precision_option : String → Dict String String → String × Dict String String
unfolding parse_input_string first_precision insert_new
add_precision_option attr_name opts =
    let (name, got_options) = parse_input_string attr_name ";" false in
    (name, elim (first_precision got_options) [ none ↦ opts | some opt ↦ insert_new name opt opts ])

-- The bare names, for the overload with a list.
bare_names : List String → List String
unfolding parse_input_string
bare_names [] = []
bare_names (n ∷ ns) = (parse_input_string n ";" false).0 ∷ bare_names ns

same_precision : String → List String → Dict String String → Dict String String
unfolding assign
same_precision prec [] out = out
same_precision prec (n ∷ ns) out = same_precision prec ns (assign n prec out)

-- `if (i < sz)`: names beyond the array have no precision.
zip_precision : List String → List String → Dict String String → Dict String String
unfolding assign
zip_precision [] precs out = out
zip_precision (n ∷ ns) [] out = out
zip_precision (n ∷ ns) (p ∷ precs) out = zip_precision ns precs (assign n p out)

own_precision : List String → Dict String String → Dict String String
unfolding parse_input_string first_precision assign
own_precision [] out = out
own_precision (n ∷ ns) out =
    let (name, got_options) = parse_input_string n ";" false in
    own_precision ns
      (elim (first_precision got_options) [ none ↦ out | some opt ↦ assign name opt out ])

-- The overload for an object: its children that are values. `children` are the pairs of the tree.
object_precision : List (String × String) → Dict String String → Dict String String
unfolding assign
object_precision [] out = out
object_precision ((key, val) ∷ rest) out =
    object_precision rest
      (if is_empty key then out else if is_empty val then out else assign key val out)

module _ {Tree : Type 0} (children : Tree → List (String × String)) where
  unfoldable pub check_precision_list :
      List String → ParsedInputJson Tree → List String × Dict String String
  unfolding check_key value_at bare_names same_precision zip_precision own_precision
      object_precision lookup
  check_precision_list names p = elim (check_key p "precision") [
    | value ↦ (bare_names names, same_precision (value_at p "precision") (bare_names names) [])
    | array ↦ (
      bare_names names,
      zip_precision (bare_names names) (get_or (lookup "precision" p.other_inp_vec) []) [],
    )
    | object ↦ (
      names,
      elim (lookup "precision" p.other_inp_obj) [
        | none ↦ []
        | some tree ↦ object_precision (children tree) []
      ],
    )
    | TypeOfVal.none ↦ (bare_names names, own_precision names [])
  ]

  -- The overload without names, for a pipe.
  unfoldable pub check_precision_of_request : ParsedInputJson Tree → Dict String String
  unfolding check_key lookup object_precision
  check_precision_of_request p = elim (check_key p "precision") [
    | object ↦ elim (lookup "precision" p.other_inp_obj) [
      | none ↦ []
      | some tree ↦ object_precision (children tree) []
    ]
    | _ ↦ []
  ]
