-- ===== src/Devices/Argin.antt =====
-- src/wstangoproc_common/TangoProcessor.cpp and TangoProcessor.h: from the texts of a request to
-- the data of a command or an attribute.
use web_socket_ds.Base.{
  ℕ, String, Bool, true, false, List, [], ◌∷◌, Option, none, some, if◌then◌else◌, ◌||◌, str_beq,
  get_or, nat_beq, size, length,
}
use web_socket_ds.Base.Int.{ℤ, pos, stoi}
use web_socket_ds.Base.Dict.{lookup, string_eq}
use web_socket_ds.Wire.{ErrorType}
use web_socket_ds.Request.{ParsedInputJson, is_value, is_array, check_key, value_at}
use web_socket_ds.StringProc.Response.{error_info, exception_string_out}
use web_socket_ds.Connections.{Called, gives, fails, escapes}
use web_socket_ds.Devices.{
  TangoType, AttrDataFormat, scalar, spectrum, image, Value, boolean, text, DeviceData, no_data,
  one, many, AttributeInput, nothing, one_value, values, AttributeInfo, CppType, Formats,
}

abbrev is_bool : CppType → Bool
is_bool t = elim t [ CppType.bool_t ↦ true | _ ↦ false ]

module _ {F : Type 0} (f : Formats F) where
  -- One value; none is `bad_lexical_cast`.
  unfoldable pub cast : CppType → String → Option (Value F)
  cast t s =
      if is_bool t
      then (if str_beq s "0" || str_beq s "false"
          then some (boolean false)
          else if str_beq s "1" || str_beq s "true"
          then some (boolean true)
          else f.lexical_cast t s)
      else f.lexical_cast t s

  abbrev join_values : Option (Value F) → Option (List (Value F)) → Option (List (Value F))
  join_values (some v) (some vs) = some (v ∷ vs)
  join_values _ _ = none

  unfoldable pub cast_all : CppType → List String → Option (List (Value F))
  cast_all t [] = some []
  cast_all t (s ∷ ss) = join_values (cast t s) (cast_all t ss)

  abbrev texts : List String → List (Value F)
  texts [] = []
  texts (s ∷ ss) = text s ∷ texts ss

  module _ {Tree : Type 0} (p : ParsedInputJson Tree) where
    -- `inpStr` and `inpVecStr`, empty where `argin` has not that form.
    unfoldable pub argin_str : String
    argin_str = if is_value (check_key p "argin") then value_at p "argin" else ""

    unfoldable pub argin_vec : List String
    argin_vec =
        if is_array (check_key p "argin") then get_or (lookup "argin" p.other_inp_vec) [] else []

    unfoldable pub argin_refused : ErrorType → String → String
    argin_refused kind message = exception_string_out (record (error_info kind) {
      typeof_req = p.type_req_str;
      id = p.id;
      error_message = message;
    })

    unfoldable pub one_of : Option (Value F) → Called (DeviceData F)
    one_of (some v) = gives (one v)
    one_of none = fails (argin_refused ErrorType.is_not_valid f.bad_cast)

    unfoldable pub many_of : Option (List (Value F)) → Called (DeviceData F)
    many_of (some vs) = gives (many vs)
    many_of none = fails (argin_refused ErrorType.is_not_valid f.bad_cast)

    abbrev cast_one : CppType → Called (DeviceData F)
    cast_one t = one_of (cast t argin_str)

    abbrev cast_many : CppType → Called (DeviceData F)
    cast_many t = many_of (cast_all t argin_vec)

    abbrev not_supported : String → Called (DeviceData F)
    not_supported name = fails (argin_refused ErrorType.not_supp name)

    -- `_getDeviceDataFromParsedJson`. For one character the data is left empty: it is put into
    -- another variable.
    unfoldable pub get_device_data : TangoType → Called (DeviceData F)
    get_device_data t = elim t [
      | TangoType.dev_void ↦ gives no_data
      | TangoType.dev_boolean ↦ cast_one CppType.bool_t
      | TangoType.dev_short ↦ cast_one CppType.short_t
      | TangoType.dev_long ↦ cast_one CppType.long_t
      | TangoType.dev_float ↦ cast_one CppType.float_t
      | TangoType.dev_double ↦ cast_one CppType.double_t
      | TangoType.dev_ushort ↦ cast_one CppType.ushort_t
      | TangoType.dev_ulong ↦ cast_one CppType.ulong_t
      | TangoType.dev_string ↦ gives (one (text argin_str))
      | TangoType.devvar_chararray ↦ cast_many CppType.uchar_t
      | TangoType.devvar_shortarray ↦ cast_many CppType.short_t
      | TangoType.devvar_longarray ↦ cast_many CppType.long_t
      | TangoType.devvar_floatarray ↦ cast_many CppType.float_t
      | TangoType.devvar_doublearray ↦ cast_many CppType.double_t
      | TangoType.devvar_ushortarray ↦ cast_many CppType.ushort_t
      | TangoType.devvar_ulongarray ↦ cast_many CppType.ulong_t
      | TangoType.devvar_stringarray ↦ gives (many (texts argin_vec))
      | TangoType.devvar_longstringarray ↦
          not_supported "DEVVAR_LONGSTRINGARRAY This format is not supported"
      | TangoType.devvar_doublestringarray ↦
          not_supported "DEVVAR_DOUBLESTRINGARRAY This format is not supported"
      | TangoType.dev_state ↦ not_supported "DEV_STATE This format is not supported"
      | TangoType.devvar_booleanarray ↦
          not_supported "DEVVAR_BOOLEANARRAY This format is not supported"
      | TangoType.dev_uchar ↦
          if nat_beq (size argin_str) 1
          then gives no_data
          else fails (argin_refused ErrorType.check_request "DEV_UCHAR Must be 1 char")
      | TangoType.dev_long64 ↦ cast_one CppType.long64_t
      | TangoType.dev_ulong64 ↦ cast_one CppType.ulong64_t
      | TangoType.devvar_long64array ↦ cast_many CppType.long64_t
      | TangoType.devvar_ulong64array ↦ cast_many CppType.ulong64_t
      | TangoType.dev_enum ↦ cast_one CppType.enum_t
      | _ ↦ gives no_data
    ]

    -- A dimension of the request, or what it is without one; none where `stoi` throws, which
    -- nothing catches.
    unfoldable pub dimension : String → ℕ → Option ℤ
    dimension key default =
        if is_value (check_key p key) then stoi (value_at p key) else some (pos default)

    unfoldable pub one_input : Option (Value F) → Called (AttributeInput F)
    one_input (some v) = gives (one_value v)
    one_input none = fails (argin_refused ErrorType.is_not_valid f.bad_cast)

    unfoldable pub many_inputs : ℤ → ℤ → Option (List (Value F)) → Called (AttributeInput F)
    many_inputs x y (some vs) = gives (values vs x y)
    many_inputs x y none = fails (argin_refused ErrorType.is_not_valid f.bad_cast)

    -- The case of one type: a scalar, or an array with its dimensions.
    unfoldable pub input_as : CppType → AttrDataFormat → ℤ → ℤ → Called (AttributeInput F)
    input_as t scalar x y = one_input (cast t argin_str)
    input_as t spectrum x y = many_inputs x y (cast_all t argin_vec)
    input_as t image x y = many_inputs x y (cast_all t argin_vec)

    unfoldable pub input_text : AttrDataFormat → ℤ → ℤ → Called (AttributeInput F)
    input_text scalar x y = gives (one_value (text argin_str))
    input_text spectrum x y = gives (values (texts argin_vec) x y)
    input_text image x y = gives (values (texts argin_vec) x y)

    unfoldable pub input_char : AttrDataFormat → ℤ → ℤ → Called (AttributeInput F)
    input_char scalar x y =
        if nat_beq (size argin_str) 1
        then input_as CppType.uchar_t scalar x y
        else fails (argin_refused ErrorType.check_request "DEV_UCHAR Must be 1 char")
    input_char spectrum x y = input_as CppType.uchar_t spectrum x y
    input_char image x y = input_as CppType.uchar_t image x y

    unfoldable pub attribute_input : TangoType → AttrDataFormat → ℤ → ℤ → Called (AttributeInput F)
    attribute_input t format x y = elim t [
      | TangoType.dev_void ↦ gives nothing
      | TangoType.dev_boolean ↦ input_as CppType.bool_t format x y
      | TangoType.dev_short ↦ input_as CppType.short_t format x y
      | TangoType.dev_long ↦ input_as CppType.long_t format x y
      | TangoType.dev_float ↦ input_as CppType.float_t format x y
      | TangoType.dev_double ↦ input_as CppType.double_t format x y
      | TangoType.dev_ushort ↦ input_as CppType.ushort_t format x y
      | TangoType.dev_ulong ↦ input_as CppType.ulong_t format x y
      | TangoType.dev_string ↦ input_text format x y
      | TangoType.dev_state ↦
          fails (argin_refused ErrorType.not_supp "DEV_STATE This format is not supported")
      | TangoType.dev_uchar ↦ input_char format x y
      | TangoType.dev_long64 ↦ input_as CppType.long64_t format x y
      | TangoType.dev_ulong64 ↦ input_as CppType.ulong64_t format x y
      | TangoType.dev_enum ↦ one_input (cast CppType.enum_t argin_str)
      | _ ↦ fails (argin_refused ErrorType.not_supp "Unknown type of atrribute")
    ]

    abbrev pub is_image : AttrDataFormat → Bool
    is_image image = true
    is_image _ = false

    unfoldable pub with_dimensions : AttributeInfo → Option ℤ → Option ℤ → Called (AttributeInput F)
    with_dimensions info none y = escapes
    with_dimensions info (some x) none = escapes
    with_dimensions info (some x) (some y) = attribute_input info.data_type info.data_format x y

    -- `_getDeviceAttributeDataFromParsedJson`.
    unfoldable pub get_device_attribute_data : AttributeInfo → Called (AttributeInput F)
    get_device_attribute_data info =
        with_dimensions info (dimension "dimX" (length argin_vec))
          (dimension "dimY" (if is_image info.data_format then 1 else 0))
