-- ===== src/Devices.antt =====
-- src/wstangoproc_common/TangoProcessor.h and MyAttributeData.h: the values of Tango, and the Tango
-- library as the program calls it for one device or a group.
pub mod Values
pub mod Argin
pub mod Asking
pub mod Answering
pub mod Sendable
pub mod Made
pub mod Members
pub mod Braces
use web_socket_ds.Base.{ℕ, String, Bool, true, false, List, [], ◌∷◌, Option}
use web_socket_ds.Base.Int.{ℤ}

-- The numbers of Tango's types, in the order of the comments of `typeOfData`.
pub data TangoType : Type 0 where
  dev_void dev_boolean dev_short dev_long dev_float dev_double dev_ushort : TangoType
  dev_ulong dev_string : TangoType
  devvar_chararray devvar_shortarray devvar_longarray devvar_floatarray : TangoType
  devvar_doublearray devvar_ushortarray devvar_ulongarray devvar_stringarray : TangoType
  devvar_longstringarray devvar_doublestringarray : TangoType
  dev_state const_dev_string devvar_booleanarray dev_uchar dev_long64 dev_ulong64 : TangoType
  devvar_long64array devvar_ulong64array dev_int dev_encoded dev_enum : TangoType

pub data TypeOfDeviceData : Type 0 where
  void_d data_d array notsupported : TypeOfDeviceData

unfoldable pub type_of_data : TangoType → TypeOfDeviceData
type_of_data t = elim t [
  | dev_void ↦ void_d
  | dev_boolean ↦ data_d
  | dev_short ↦ data_d
  | dev_long ↦ data_d
  | dev_float ↦ data_d
  | dev_double ↦ data_d
  | dev_ushort ↦ data_d
  | dev_ulong ↦ data_d
  | dev_string ↦ data_d
  | dev_state ↦ notsupported
  | const_dev_string ↦ notsupported
  | dev_uchar ↦ data_d
  | dev_long64 ↦ data_d
  | dev_ulong64 ↦ data_d
  | dev_int ↦ data_d
  | dev_encoded ↦ notsupported
  | dev_enum ↦ data_d
  | _ ↦ array
]

unfoldable pub is_massive : TangoType → Bool
is_massive t = elim (type_of_data t) [ array ↦ true | _ ↦ false ]

pub data AttrDataFormat : Type 0 where
  scalar spectrum image : AttrDataFormat

-- A value of Tango: a floating number of the library `F`, another number, which an enumeration and
-- a character widened to `unsigned short` are too, a Boolean, a text, or the name of a state.
pub data Value (F : Type 0) : Type 0 where
  real : F → Value F
  number : ℤ → Value F
  boolean : Bool → Value F
  text : String → Value F
  state : String → Value F

-- What a command is sent, or answers.
pub data DeviceData (F : Type 0) : Type 0 where
  no_data : DeviceData F
  one : Value F → DeviceData F
  many : List (Value F) → DeviceData F

-- What an attribute is set to; an array with its dimensions.
pub data AttributeInput (F : Type 0) : Type 0 where
  nothing : AttributeInput F
  one_value : Value F → AttributeInput F
  values : List (Value F) → ℤ → ℤ → AttributeInput F

pub record AttributeInfo : Type 0 where
  pub name : String
  pub data_type : TangoType
  pub data_format : AttrDataFormat

-- `MyAttributeData`, with the values that were read and those that are set.
pub record AttributeData (F : Type 0) : Type 0 where
  pub attr_name : String
  pub quality : String
  pub type : TangoType
  pub format : AttrDataFormat
  pub dim_x : ℕ
  pub dim_y : ℕ
  pub read : List (Value F)
  pub set : List (Value F)

-- What a call of Tango comes to: a value, or the texts of a `DevFailed`.
pub data Asked (A : Type 0) : Type 0 where
  got : A → Asked A
  dev_failed : List String → Asked A

-- An element of a pipe: what taking its values out comes to.
pub record PipeElement (F : Type 0) : Type 0 where
  pub name : String
  pub type : TangoType
  pub extracted : Asked (List (Value F))

-- The types of the casts that the program asks boost for.
pub data CppType : Type 0 where
  bool_t short_t long_t float_t double_t ushort_t ulong_t uchar_t long64_t ulong64_t : CppType
  enum_t : CppType

-- The manipulators of a float's output.
pub data TypeIosOpt : Type 0 where
  prec precf precs : TypeIosOpt

-- boost's `lexical_cast`, none where it throws `bad_lexical_cast`, whose text is `bad_cast`; and the
-- output of a float by a stream with a precision.
pub record Formats (F : Type 0) : Type 0 where
  pub lexical_cast : CppType → String → Option (Value F)
  pub bad_cast : String
  pub print : TypeIosOpt → ℕ → F → String

-- The reply to an asynchronous call, or `AsynReplyNotArrived`.
pub data Replied (A : Type 0) : Type 0 where
  came : A → Replied A
  not_yet : Replied A
  reply_failed : List String → Replied A

-- The Tango library, over the state `W` of everything outside the program. A proxy is known by
-- the name that it was made with; `name` is `DeviceProxy::name`. `group_devices` are the devices
-- of a group to which these patterns were added.
pub record Devices (F W : Type 0) : Type 0 where
  pub new_proxy : String → W → Asked (Unit {0}) × W
  pub name : String → W → String
  pub group_devices : List String → W → Asked (List String) × W
  pub in_group : String → W → Bool
  pub command_query : String → String → W → Asked TangoType × W
  pub attribute_query : String → String → W → Asked AttributeInfo × W
  pub command_inout_asynch : String → String → DeviceData F → W → Asked ℕ × W
  pub read_attributes_asynch : String → List String → W → Asked ℕ × W
  pub write_attribute_asynch : String → String → AttributeInput F → W → Asked ℕ × W
  pub command_inout_reply : String → ℕ → W → Replied (TangoType × DeviceData F) × W
  pub read_attributes_reply : String → ℕ → W → Replied (List (AttributeData F)) × W
  pub write_attribute_reply : String → ℕ → W → Replied (Unit {0}) × W
  pub read_pipe : String → String → W → Asked (List (PipeElement F)) × W
