-- ===== src/Session/Options.antt =====
-- src/wstangoproc_common/WSTangoConn.cpp, `initOptions`: the settings that the property `Options` of
-- the device makes; and the limits that WSThread_plain.cpp takes from them.
use web_socket_ds.Base.{
  ℕ, ◌*◌, ◌%◌, ◌^◌, String, Bool, true, false, ◌||◌, ◌&&◌, List, [], ◌∷◌, Option, none, some,
  if◌then◌else◌, contains, str_beq, ltb, leb, nat_beq,
}
use web_socket_ds.Base.Int.{ℤ, pos, negsuc, stoi}
use web_socket_ds.Wire.{Mode, TypeOfIdent, simple, permission_www}
use web_socket_ds.Wire.Kinds.{is_client}
use web_socket_ds.StringProc.Split.{parse_input_string}
use web_socket_ds.UserControl.{UserControl, user_control}

pub record WsTangoConn : Type 0 where
  pub is_group : Bool
  pub uc : UserControl
  pub type_of_ident : TypeOfIdent
  pub is_old_version_of_json : Bool
  pub max_num_of_connection : ℕ
  pub max_buffer_size : ℕ

unfoldable pub ws_tango_conn : String → WsTangoConn
ws_tango_conn auth_ds = record {
  is_group = false;
  uc = user_control auth_ds;
  type_of_ident = simple;
  is_old_version_of_json = false;
  max_num_of_connection = 0;
  max_buffer_size = 1000;
}

-- `gettedIdentOpt[1]`, where the option has more than one part.
unfoldable pub second_part : List String → Option String
second_part (x ∷ y ∷ ys) = some y
second_part _ = none

-- `if (opt.find(key) != npos)`, with the option that `parseInputString` leaves behind and the value.
unfoldable pub option_value : String → String → String × Option String
option_value key opt =
    if contains key opt
    then (let (name, parts) = parse_input_string opt "=" true in (name, second_part parts))
    else (opt, none)

unfoldable pub set_ident : String → WsTangoConn → WsTangoConn
set_ident text s =
    if str_beq text "smpl"
    then record s { type_of_ident = simple }
    else if str_beq text "permission_www"
    then record s { type_of_ident = permission_www; uc = record s.uc { toi = permission_www } }
    else record s { type_of_ident = simple }

unfoldable pub set_check_user : String → WsTangoConn → WsTangoConn
set_check_user text s = record s { uc = record s.uc { command_name_for_user_control = text } }

unfoldable pub set_check_permission : String → WsTangoConn → WsTangoConn
set_check_permission text s = record s {
  uc = record s.uc { command_name_for_check_permission = text };
}

unfoldable pub set_log : String → WsTangoConn → WsTangoConn
set_log text s = record s { uc = record s.uc { command_name_for_log = text } }

-- A number between two bounds; none where `stoi` throws, or beyond them.
unfoldable pub between : ℕ → ℕ → Option ℤ → Option ℕ
between lo hi (some (pos n)) = if leb lo n && leb n hi then some n else none
between lo hi (some (negsuc n)) = none
between lo hi none = none

unfoldable pub put_max_connections : Option ℕ → WsTangoConn → WsTangoConn
put_max_connections none s = s
put_max_connections (some n) s = record s { max_num_of_connection = n }

unfoldable pub put_max_buffer : Option ℕ → WsTangoConn → WsTangoConn
put_max_buffer none s = s
put_max_buffer (some n) s = record s { max_buffer_size = n }

unfoldable pub set_max_connections : String → WsTangoConn → WsTangoConn
set_max_connections text s = put_max_connections (between 0 65535 (stoi text)) s

unfoldable pub set_max_buffer : String → WsTangoConn → WsTangoConn
set_max_buffer text s = put_max_buffer (between 1 10000 (stoi text)) s

-- The setter, where there is a value.
unfoldable pub with_value :
    (String → WsTangoConn → WsTangoConn) → Option String → WsTangoConn → WsTangoConn
with_value set none s = s
with_value set (some text) s = set text s

-- One of the options that have a value, on the text that the earlier ones left of `opt`.
unfoldable pub take_value :
    String → (String → WsTangoConn → WsTangoConn) → String × WsTangoConn → String × WsTangoConn
take_value key set (opt, s) =
    let (opt', found) = option_value key opt in (opt', with_value set found s)

unfoldable pub flags : Mode → String → WsTangoConn → WsTangoConn
flags mode opt s = record s {
  is_group = if is_client mode then s.is_group else str_beq opt "group" || s.is_group;
  uc = record s.uc { is_log_active = str_beq opt "uselog" || s.uc.is_log_active };
  is_old_version_of_json = str_beq opt "useoldjson" || s.is_old_version_of_json;
}

-- One round of the loop.
unfoldable pub init_option : Mode → String → WsTangoConn → WsTangoConn
init_option mode opt s =
    (take_value "maxbuffsize" set_max_buffer (
      take_value "maxnconn" set_max_connections (
        take_value "command_name_for_log" set_log (
          take_value "command_name_for_check_permission" set_check_permission (
            take_value "command_name_for_check_user" set_check_user
              (take_value "tident" set_ident (opt, flags mode opt s))))))).1

unfoldable pub init_options : Mode → List String → WsTangoConn → WsTangoConn
init_options mode [] s = s
init_options mode (opt ∷ opts) s = init_options mode opts (init_option mode opt s)

-- `on_validate`: a maximum of 0 is none.
unfoldable pub on_validate : WsTangoConn → ℕ → Bool
on_validate s con_size = nat_beq s.max_num_of_connection 0 || ltb con_size s.max_num_of_connection

-- `maxBuffSize` of `send` and `send_all`, in bytes, an `unsigned int`.
unfoldable pub max_buff_size : WsTangoConn → ℕ
max_buff_size s =
    if ltb s.max_buffer_size 1 || ltb 10000 s.max_buffer_size
    then (1000 * 1024) % 2 ^ 32
    else (s.max_buffer_size * 1024) % 2 ^ 32
