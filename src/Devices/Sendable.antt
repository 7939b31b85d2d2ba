-- ===== src/Devices/Sendable.antt =====
-- src/wstangoproc_common/TangoProcessor.cpp: `_getDeviceDataFromParsedJson` ends with data or with a
-- `runtime_error`, and what it makes of a value where an array is wanted.
use web_socket_ds.Base.{◌≡◌, refl, String, Bool, true, false, List, [], Option, none, some, arith}
use web_socket_ds.Wire.{TypeOfVal, SingleOrGroup}
use web_socket_ds.StringProc.Precision.{check_precision_options}
use web_socket_ds.Request.{ParsedInputJson, check_key, is_array, is_value, is_none, value_at}
use web_socket_ds.Devices.{got, Devices}
use web_socket_ds.Devices.Asking.{
  is_void, process_command, after_command, after_query, with_type, with_argin,
}
use web_socket_ds.Connections.{Called, gives, escapes}
use web_socket_ds.Devices.{TangoType, Value, many, CppType, Formats}
use web_socket_ds.Devices.Argin.{
  cast, cast_all, argin_str, argin_vec, one_of, many_of, get_device_data,
}

abbrev pub is_escape : {A : Type 0} → Called A → Bool
is_escape escapes = true
is_escape _ = false

-- The arrays that a request's texts are converted to.
abbrev pub is_sent_array : TangoType → Bool
is_sent_array t = elim t [
  | TangoType.devvar_chararray ↦ true
  | TangoType.devvar_shortarray ↦ true
  | TangoType.devvar_longarray ↦ true
  | TangoType.devvar_floatarray ↦ true
  | TangoType.devvar_doublearray ↦ true
  | TangoType.devvar_ushortarray ↦ true
  | TangoType.devvar_ulongarray ↦ true
  | TangoType.devvar_stringarray ↦ true
  | TangoType.devvar_long64array ↦ true
  | TangoType.devvar_ulong64array ↦ true
  | _ ↦ false
]

not_void : (t : TangoType) → is_sent_array t ≡ true → is_void t ≡ false
not_void TangoType.dev_void sent = ground arith
not_void _ sent = refl

value_only : (v : TypeOfVal) → is_value v ≡ true → (is_none v ≡ false) × (is_array v ≡ false)
value_only v given = ground arith

module _ {F Tree : Type 0} (f : Formats F) (p : ParsedInputJson Tree) where
  one_of_safe : (o : Option (Value F)) → is_escape (one_of f p o) ≡ false
  unfolding one_of
  one_of_safe none = refl
  one_of_safe (some v) = refl

  many_of_safe : (o : Option (List (Value F))) → is_escape (many_of f p o) ≡ false
  unfolding many_of
  many_of_safe none = refl
  many_of_safe (some vs) = refl

  pub get_device_data_safe : (t : TangoType) → is_escape (get_device_data f p t) ≡ false
  unfolding get_device_data
  get_device_data_safe TangoType.dev_void = refl
  get_device_data_safe TangoType.dev_boolean = one_of_safe (cast f CppType.bool_t (argin_str f p))
  get_device_data_safe TangoType.dev_short = one_of_safe (cast f CppType.short_t (argin_str f p))
  get_device_data_safe TangoType.dev_long = one_of_safe (cast f CppType.long_t (argin_str f p))
  get_device_data_safe TangoType.dev_float = one_of_safe (cast f CppType.float_t (argin_str f p))
  get_device_data_safe TangoType.dev_double = one_of_safe (cast f CppType.double_t (argin_str f p))
  get_device_data_safe TangoType.dev_ushort = one_of_safe (cast f CppType.ushort_t (argin_str f p))
  get_device_data_safe TangoType.dev_ulong = one_of_safe (cast f CppType.ulong_t (argin_str f p))
  get_device_data_safe TangoType.dev_string = refl
  get_device_data_safe TangoType.devvar_chararray =
      many_of_safe (cast_all f CppType.uchar_t (argin_vec f p))
  get_device_data_safe TangoType.devvar_shortarray =
      many_of_safe (cast_all f CppType.short_t (argin_vec f p))
  get_device_data_safe TangoType.devvar_longarray =
      many_of_safe (cast_all f CppType.long_t (argin_vec f p))
  get_device_data_safe TangoType.devvar_floatarray =
      many_of_safe (cast_all f CppType.float_t (argin_vec f p))
  get_device_data_safe TangoType.devvar_doublearray =
      many_of_safe (cast_all f CppType.double_t (argin_vec f p))
  get_device_data_safe TangoType.devvar_ushortarray =
      many_of_safe (cast_all f CppType.ushort_t (argin_vec f p))
  get_device_data_safe TangoType.devvar_ulongarray =
      many_of_safe (cast_all f CppType.ulong_t (argin_vec f p))
  get_device_data_safe TangoType.devvar_stringarray = refl
  get_device_data_safe TangoType.devvar_longstringarray = refl
  get_device_data_safe TangoType.devvar_doublestringarray = refl
  get_device_data_safe TangoType.dev_state = refl
  get_device_data_safe TangoType.const_dev_string = refl
  get_device_data_safe TangoType.devvar_booleanarray = refl
  get_device_data_safe TangoType.dev_uchar = ground arith
  get_device_data_safe TangoType.dev_long64 = one_of_safe (cast f CppType.long64_t (argin_str f p))
  get_device_data_safe TangoType.dev_ulong64 =
      one_of_safe (cast f CppType.ulong64_t (argin_str f p))
  get_device_data_safe TangoType.devvar_long64array =
      many_of_safe (cast_all f CppType.long64_t (argin_vec f p))
  get_device_data_safe TangoType.devvar_ulong64array =
      many_of_safe (cast_all f CppType.ulong64_t (argin_vec f p))
  get_device_data_safe TangoType.dev_int = refl
  get_device_data_safe TangoType.dev_encoded = refl
  get_device_data_safe TangoType.dev_enum = one_of_safe (cast f CppType.enum_t (argin_str f p))

  no_vec : is_array (check_key p "argin") ≡ false → argin_vec f p ≡ []
  unfolding argin_vec
  no_vec h = rw h refl

  get_device_data_empty :
      (t : TangoType)
      → is_sent_array t ≡ true
      → is_array (check_key p "argin") ≡ false
      → get_device_data f p t ≡ gives (many [])
  unfolding get_device_data cast_all many_of
  get_device_data_empty TangoType.devvar_chararray sent h = rw (no_vec h) refl
  get_device_data_empty TangoType.devvar_shortarray sent h = rw (no_vec h) refl
  get_device_data_empty TangoType.devvar_longarray sent h = rw (no_vec h) refl
  get_device_data_empty TangoType.devvar_floatarray sent h = rw (no_vec h) refl
  get_device_data_empty TangoType.devvar_doublearray sent h = rw (no_vec h) refl
  get_device_data_empty TangoType.devvar_ushortarray sent h = rw (no_vec h) refl
  get_device_data_empty TangoType.devvar_ulongarray sent h = rw (no_vec h) refl
  get_device_data_empty TangoType.devvar_stringarray sent h = rw (no_vec h) refl
  get_device_data_empty TangoType.devvar_long64array sent h = rw (no_vec h) refl
  get_device_data_empty TangoType.devvar_ulong64array sent h = rw (no_vec h) refl
  get_device_data_empty _ sent h = ground arith

module _ {F W Tree : Type 0} (f : Formats F) (d : Devices F W)
    (children : Tree → List (String × String)) (p : ParsedInputJson Tree) (dev : String)
    (sog : SingleOrGroup) where
  -- A command that takes an array of any of the types that the program converts, when the request
  -- brings a single value for it, is sent to the device with an empty array in place of the value,
  -- and its task is that of any other command.
  pub process_command_lost :
      (t : TangoType) (w v : W)
      → is_sent_array t ≡ true
      → is_value (check_key p "argin") ≡ true
      → d.command_query dev (check_precision_options (value_at p "command_name") p).0 w ≡ (got t, v)
      → process_command f d children p dev sog w
        ≡ after_command f d children p dev sog
            (check_precision_options (value_at p "command_name") p).0
            (check_precision_options (value_at p "command_name") p).1
            (d.command_inout_asynch dev
              (check_precision_options (value_at p "command_name") p).0
              (many [])
              v)
  unfolding process_command after_query with_type with_argin
  process_command_lost t w v sent given known =
      let (some_data, no_array) = value_only (check_key p "argin") given in
      simp (known, not_void t sent, some_data, no_array, get_device_data_empty f p t sent no_array)
        refl
