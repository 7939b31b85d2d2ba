-- ===== src/Devices/Values.antt =====
-- src/wstangoproc_common/TangoProcessor.h and TangoProcessor.cpp: the JSON texts of values, of the
-- data of a command, of attributes and of pipes.
use web_socket_ds.Base.{
  ℕ, ◌*◌, String, ◌<>◌, Bool, true, false, List, [], ◌∷◌, Option, none, some, if◌then◌else◌, ltb,
  nat_beq, nonempty, str_beq, length, is_nil, take, get_or,
}
use web_socket_ds.Base.Int.{ℤ, pos, negsuc, stoi, show_int, show_nat}
use web_socket_ds.Base.Dict.{Dict, lookup, string_eq}
use web_socket_ds.StringProc.Split.{parse_input_string}
use web_socket_ds.UserControl.{bool_text}
use web_socket_ds.Connections.{UserOptions}
use web_socket_ds.Devices.{
  TangoType, type_of_data, data_d, array, AttrDataFormat, scalar, image, Value, real, number,
  boolean, text, state, DeviceData, one, many, AttributeData, PipeElement, Asked, got, dev_failed,
  TypeIosOpt, prec, precf, precs, Formats,
}

-- The precision that `_outForFloat` sets.
unfoldable pub precision_in : ℤ → ℕ
precision_in (pos n) = if ltb 20 n then 0 else n
precision_in (negsuc n) = 0

-- `get_srsz`; 6 is the precision of a new stream.
unfoldable pub get_srsz : String → ℤ
get_srsz from_opt_str = if nonempty from_opt_str then get_or (stoi from_opt_str) (pos 6) else pos 6

abbrev pub po_name : List String → String
po_name [] = ""
po_name (x ∷ xs) = x

abbrev pub po_val : List String → String
po_val (x ∷ y ∷ ys) = y
po_val _ = ""

-- The manipulator and the precision, by the option, as in "precf=3".
unfoldable pub float_format : String → TypeIosOpt × ℕ
float_format opt =
    let po = (parse_input_string opt "=" true).1 in
    if str_beq (po_name po) "prec"
    then (prec, precision_in (get_srsz (po_val po)))
    else if str_beq (po_name po) "precf"
    then (precf, precision_in (get_srsz (po_val po)))
    else if str_beq (po_name po) "precs"
    then (precs, precision_in (get_srsz (po_val po)))
    else (prec, precision_in (pos 6))

module _ {F : Type 0} (f : Formats F) (opt : UserOptions) where
  -- `_dataValueToStr`.
  unfoldable pub data_value_to_str : Value F → String
  data_value_to_str (real x) = let (ios, n) = float_format opt.precision in f.print ios n x
  data_value_to_str (number n) = show_int n
  data_value_to_str (boolean b) = bool_text b
  data_value_to_str (text s) = if opt.is_json_string then s else "\"" <> s <> "\""
  data_value_to_str (state s) = s

  rest_to_str : List (Value F) → String
  rest_to_str [] = ""
  rest_to_str (v ∷ vs) = ", " <> data_value_to_str v <> rest_to_str vs

  -- `_dataArrayToStr`.
  unfoldable pub data_array_to_str : List (Value F) → String
  unfolding rest_to_str
  data_array_to_str [] = ""
  data_array_to_str (v ∷ vs) = data_value_to_str v <> rest_to_str vs

  -- Tango's data has the form of its type.
  unfoldable pub one_text : DeviceData F → String
  one_text (one v) = " " <> data_value_to_str v
  one_text _ = ""

  unfoldable pub many_text : DeviceData F → String
  many_text (many vs) = " [" <> data_array_to_str vs <> " ]"
  many_text _ = ""

  abbrev state_text : DeviceData F → String
  state_text (one (state s)) = " \"" <> s <> "\""
  state_text _ = ""

  -- `_generateJsonFromDeviceDataTmpl`.
  unfoldable pub by_kind : TangoType → DeviceData F → String
  by_kind t d = elim (type_of_data t) [ data_d ↦ one_text d | array ↦ many_text d | _ ↦ "" ]

  abbrev none_comm : String
  none_comm = " \"This type Not supported\""

  -- `_generateJsonFromDeviceData`; a type of -1 is `dev_void`.
  unfoldable pub generate_json_from_device_data : TangoType × DeviceData F → String
  generate_json_from_device_data (t, d) = elim t [
    | TangoType.dev_void ↦ " \"OK\""
    | TangoType.devvar_longstringarray ↦ none_comm
    | TangoType.devvar_doublestringarray ↦ none_comm
    | TangoType.dev_state ↦ state_text d
    | TangoType.devvar_booleanarray ↦ none_comm
    | TangoType.dev_uchar ↦ none_comm
    | TangoType.const_dev_string ↦ none_comm
    | TangoType.dev_int ↦ none_comm
    | TangoType.dev_encoded ↦ none_comm
    | other ↦ by_kind other d
  ]

  abbrev is_array_format : AttrDataFormat → Bool
  is_array_format scalar = false
  is_array_format _ = true

  abbrev is_image_format : AttrDataFormat → Bool
  is_image_format image = true
  is_image_format _ = false

  unfoldable pub dimensions_text : AttributeData F → String
  dimensions_text a =
      (if is_array_format a.format then "\"dimX\": " <> show_nat a.dim_x <> ", " else "")
      <> (if is_image_format a.format then "\"dimY\": " <> show_nat a.dim_y <> ", " else "")
      <> "\"data\": "

  -- The values that were read: an array holds those that are set as well.
  unfoldable pub read_part : AttributeData F → List (Value F)
  read_part a = take (a.dim_x * (if nat_beq a.dim_y 0 then 1 else a.dim_y)) a.read

  -- A scalar state is made a text first.
  abbrev first_text : List (Value F) → String
  first_text [] = ""
  first_text (state s ∷ vs) = data_value_to_str (text s)
  first_text (v ∷ vs) = data_value_to_str v

  unfoldable pub set_text : AttributeData F → String
  set_text a =
      if is_array_format a.format
      then (if is_nil a.set then "" else ", \"set\": [" <> data_array_to_str a.set <> "]")
      else if nat_beq (length a.set) 1
      then ", \"set\": " <> first_text a.set
      else ""

  unfoldable pub read_text : AttributeData F → String
  read_text a =
      dimensions_text a
      <> (if is_array_format a.format
          then "[" <> data_array_to_str (read_part a) <> "]"
          else first_text a.read)

  abbrev is_state : AttributeData F → Bool
  is_state a = elim a.type [ TangoType.dev_state ↦ true | _ ↦ false ]

  -- `_devAttrToStrTmpl`: a scalar state has no set value.
  unfoldable pub dev_attr_to_str : AttributeData F → String
  dev_attr_to_str a =
      if is_state a
      then (if is_array_format a.format then read_text a <> set_text a else read_text a)
      else read_text a <> set_text a

  -- `_deviceAttributeToStr`: characters have no set value.
  unfoldable pub device_attribute_to_str : AttributeData F → String
  device_attribute_to_str a = elim a.type [
    | TangoType.dev_boolean ↦ dev_attr_to_str a
    | TangoType.dev_short ↦ dev_attr_to_str a
    | TangoType.dev_long ↦ dev_attr_to_str a
    | TangoType.dev_long64 ↦ dev_attr_to_str a
    | TangoType.dev_float ↦ dev_attr_to_str a
    | TangoType.dev_double ↦ dev_attr_to_str a
    | TangoType.dev_uchar ↦ read_text a
    | TangoType.dev_ushort ↦ dev_attr_to_str a
    | TangoType.dev_ulong ↦ dev_attr_to_str a
    | TangoType.dev_ulong64 ↦ dev_attr_to_str a
    | TangoType.dev_string ↦ dev_attr_to_str a
    | TangoType.dev_state ↦ dev_attr_to_str a
    | TangoType.dev_enum ↦ dev_attr_to_str a
    | _ ↦ "\"data\": null"
  ]

  -- `_generateJsonForAttribute`.
  unfoldable pub generate_json_for_attribute : AttributeData F → String
  generate_json_for_attribute a =
      "\""
      <> a.attr_name
      <> "\": {"
      <> (if str_beq a.quality "VALID" then "" else "\"qual\": \"" <> a.quality <> "\", ")
      <> (if str_beq a.quality "INVALID" then "\"data\": null" else device_attribute_to_str a)
      <> "}"

abbrev no_json : String → UserOptions
no_json prec_opt = record { precision = prec_opt; precisions = []; is_json_string = false }

module _ {F : Type 0} (f : Formats F) (prec_opts : Dict String String) where
  abbrev options_for : String → UserOptions
  options_for name = no_json (get_or (lookup name prec_opts) "")

  attr_items : Bool → List (AttributeData F) → String
  attr_items first [] = ""
  attr_items first (a ∷ rest) =
      (if first then "" else ", ")
      <> generate_json_for_attribute f (options_for a.attr_name) a
      <> attr_items false rest

  -- `_generateJsonForAttrList`.
  unfoldable pub generate_json_for_attr_list : List (AttributeData F) → String
  unfolding attr_items
  generate_json_for_attr_list l = "{" <> attr_items true l <> "}"

  -- `_extractFromPipeTmpl`.
  unfoldable pub extract_one : UserOptions → Asked (List (Value F)) → String
  extract_one opt (dev_failed errs) = "\"Exception from TangoProcessor_bck::forExtractingFromPipe\""
  extract_one opt (got []) = ""
  extract_one opt (got (v ∷ vs)) = data_value_to_str f opt v

  unfoldable pub extract_many : UserOptions → Asked (List (Value F)) → String
  extract_many opt (dev_failed errs) =
      "\"Exception from TangoProcessor_bck::forExtractingFromPipe\""
  extract_many opt (got vs) = "[" <> data_array_to_str f opt vs <> "]"

  -- What is written, and the texts of a `DevFailed` that ends the writing.
  abbrev Written : Type 0
  Written = String × Option (List String)

  -- A state is taken out without a `catch`.
  unfoldable pub extract_state : Asked (List (Value F)) → Written
  extract_state (got (state s ∷ vs)) = ("\"" <> s <> "\"", none)
  extract_state (got vs) = ("", none)
  extract_state (dev_failed errs) = ("", some errs)

  unfoldable pub extract_kind : TangoType → UserOptions → Asked (List (Value F)) → Written
  extract_kind t opt vs = elim (type_of_data t) [
    | array ↦ (extract_many opt vs, none)
    | _ ↦ (extract_one opt vs, none)
  ]

  -- `_extractFromPipe`.
  unfoldable pub extract_from_pipe : PipeElement F → Written
  extract_from_pipe e = elim e.type [
    | TangoType.dev_void ↦ ("null", none)
    | TangoType.devvar_chararray ↦ ("null", none)
    | TangoType.devvar_longstringarray ↦ ("null", none)
    | TangoType.devvar_doublestringarray ↦ ("null", none)
    | TangoType.dev_uchar ↦ ("null", none)
    | TangoType.const_dev_string ↦ ("null", none)
    | TangoType.dev_int ↦ ("null", none)
    | TangoType.dev_encoded ↦ ("null", none)
    | TangoType.dev_state ↦ extract_state e.extracted
    | other ↦ extract_kind other (options_for e.name) e.extracted
  ]

  abbrev join_item : String → Written → Written → Written
  join_item key (item, none) (rest, failed) = (key <> item <> rest, failed)
  join_item key (item, some errs) rest = (key <> item, some errs)

  unfoldable pub pipe_items : Bool → List (PipeElement F) → Written
  pipe_items first [] = ("", none)
  pipe_items first (e ∷ rest) =
      join_item ((if first then "" else ", ") <> "\"" <> e.name <> "\": ") (extract_from_pipe e)
        (pipe_items false rest)

  abbrev braces : Written → Written
  braces (items, none) = ("{" <> items <> "}", none)
  braces (items, some errs) = ("{" <> items, some errs)

  -- `_generateJsonForPipe`.
  unfoldable pub generate_json_for_pipe : List (PipeElement F) → Written
  generate_json_for_pipe es = braces (pipe_items true es)
