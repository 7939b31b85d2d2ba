-- ===== src/UserControl.antt =====
-- src/wstangoproc_common/UserControl.h and UserControl.cpp: what is asked of the device AuthDS, and
-- what its answers come to. `AuthDs` is that device behind the Tango library.
pub mod Permission
pub mod Log
pub mod Calm
use web_socket_ds.Base.{
  ℕ, ◌%◌, ◌^◌, zero, suc, String, ◌<>◌, Bool, true, false, List, [], ◌∷◌, Option, none, some, ◌&&◌,
  ◌++◌, if◌then◌else◌,
}
use web_socket_ds.Base.Int.{show_nat}
use web_socket_ds.Base.Dict.{Dict, nat_eq}
use web_socket_ds.Wire.{TypeWsReq, TypeOfIdent, simple, permission_www, ErrorType}
use web_socket_ds.Request.{ParsedInputJson, is_value, check_key, value_at}
use web_socket_ds.StringProc.Response.{ErrorInfo, error_info, exception_string_out}

-- An exception that is no `DevFailed`: a `runtime_error` or another `std::exception`, with its
-- text, or one that is none.
pub data Other : Type 0 where
  of_runtime of_std : String → Other
  of_no_std : Other

-- What a call of `command_inout` comes to: the Boolean of its answer, the texts of a `DevFailed`,
-- or another exception.
pub data Reply : Type 0 where
  answer : Bool → Reply
  dev_failed : List String → Reply
  raises : Other → Reply

-- `connect` is `new Tango::DeviceProxy`: none, or the texts of a `DevFailed`; `time` is in seconds.
pub record AuthDs : Type 1 where
  pub World : Type 0
  pub time : World → ℕ
  pub connect : String → World → Option (List String) × World
  pub command_inout : String → List String → World → Reply × World

-- A value, the text of a `runtime_error`, or an exception of another kind.
pub data Result {ℓ} (A : Type ℓ) : Type ℓ where
  ok : A → Result A
  runtime_error : String → Result A
  other_exception : Result A

-- An exception that nothing on its way catches.
abbrev pub leaving {ℓ} : {A : Type ℓ} → Other → Result A
leaving (of_runtime what) = runtime_error what
leaving (of_std what) = other_exception
leaving of_no_std = other_exception

pub record UserControl : Type 0 where
  pub auth_ds : String
  pub toi : TypeOfIdent
  pub is_log_active : Bool
  pub command_name_for_user_control : String
  pub command_name_for_check_permission : String
  pub command_name_for_log : String

unfoldable pub user_control : String → UserControl
user_control ds = record {
  auth_ds = ds;
  toi = simple;
  is_log_active = false;
  command_name_for_user_control = "check_user";
  command_name_for_check_permission = "check_permissions";
  command_name_for_log = "send_log_command_ex";
}

-- What `ConnectionData` keeps of the user.
pub record UserData : Type 0 where
  pub login : String
  pub password : String
  pub ip_client : String
  pub user_check_status : Bool

abbrev pub is_www : TypeOfIdent → Bool
is_www permission_www = true
is_www simple = false

-- `permission_data[i]`.
unfoldable pub item : List String → ℕ → String
item [] i = ""
item (x ∷ xs) zero = x
item (x ∷ xs) (suc i) = item xs i

-- `to_string(bool)`.
abbrev pub bit_text : Bool → String
bit_text true = "1"
bit_text false = "0"

-- `std::boolalpha`.
abbrev pub bool_text : Bool → String
bool_text true = "true"
bool_text false = "false"

module _ {Tree : Type 0} (uc : UserControl) (p : ParsedInputJson Tree) where
  -- The command's or the attribute's name; none for any other request.
  unfoldable pub permission_target : Option String
  permission_target = elim p.type_req [
    | TypeWsReq.command ↦ some (value_at p "command_name")
    | TypeWsReq.attribute_write ↦ some (value_at p "attr_name")
    | _ ↦ none
  ]

  abbrev www_target : Option String → String
  www_target none = ""
  www_target (some name) = name <> "/write"

  -- `getPermissionData`.
  unfoldable pub get_permission_data : UserData → String → Result (List String)
  get_permission_data conn dev =
      if is_www uc.toi
      then ok
          (conn.login ∷ conn.password ∷ dev ∷ www_target permission_target ∷ conn.ip_client ∷ [])
      else (elim permission_target [
        | none ↦ runtime_error (
            exception_string_out (record (error_info ErrorType.check_code) {
              id = p.id;
              typeof_req = p.type_req_str;
              error_message = "check getPermissionData";
            }))
        | some name ↦ ok (dev ∷ name ∷ conn.ip_client ∷ conn.login ∷ [])
      ])

-- The exception that leaves a call behind `catch (Tango::DevFailed &e)`.
abbrev pub escaping : Reply → Option Other
escaping (raises x) = some x
escaping _ = none

module _ (a : AuthDs) (uc : UserControl) where
  -- The data for the log: the time, login, device, address, command, request, status and group.
  -- The time is a `DevULong` of 32 bits.
  unfoldable pub log_data : ℕ → List String → String → Bool → Bool → List String
  log_data now perm json is_group status =
      show_nat (now % 2 ^ 32)
        ∷ (if is_www uc.toi
            then item perm 0 ∷ item perm 2 ∷ item perm 4 ∷ item perm 3 ∷ []
            else item perm 3 ∷ item perm 0 ∷ item perm 2 ∷ item perm 1 ∷ [])
      ++ json ∷ bit_text status ∷ bit_text is_group ∷ []

  -- `sendLog` catches a `DevFailed`; the callers do not look at what it returns.
  unfoldable pub send_log : List String → String → Bool → Bool → a.World → Option Other × a.World
  send_log perm json is_group status w =
      let (reply, w') =
        a.command_inout uc.command_name_for_log (log_data (a.time w) perm json is_group status) w in
      (escaping reply, w')

  -- The text of a tried access.
  unfoldable pub tried : List String → Bool → String
  tried perm is_auth =
      "User "
      <> (if is_www uc.toi then item perm 0 else item perm 3)
      <> " tried to run the command "
      <> (if is_www uc.toi then item perm 3 else item perm 1)
      <> ". Access status is "
      <> bool_text is_auth

abbrev pub permission_command : UserControl → String
permission_command uc =
    if is_www uc.toi then "check_permissions_www" else uc.command_name_for_check_permission

module _ (a : AuthDs) (uc : UserControl) {Tree : Type 0} (p : ParsedInputJson Tree) (dev : String)
    (is_group : Bool) where
  -- The device in an error: the one that the request names, if it names one.
  unfoldable pub named_device : String
  named_device = if is_value (check_key p "device_name") then value_at p "device_name" else dev

  unfoldable pub refused : ErrorType → String → String → List String → String
  refused kind device message messages = exception_string_out (record (error_info kind) {
    typeof_req = p.type_req_str;
    device_name = device;
    id = p.id;
    error_message = message;
    error_messages = messages;
  })

  abbrev from_auth_ds : String
  from_auth_ds = "Exception from AuthDS " <> uc.auth_ds

  abbrev refused_with : String → Result String
  refused_with what =
      runtime_error
        (refused ErrorType.auth_perm named_device (from_auth_ds <> " .. Desc: " <> what) [])

  -- `catch (std::exception &e)`.
  unfoldable pub after_exception : Other → Result String
  after_exception (of_runtime what) = refused_with what
  after_exception (of_std what) = refused_with what
  after_exception of_no_std = other_exception

  unfoldable pub after_log : List String → Bool → Option Other × a.World → Result String × a.World
  after_log perm is_auth (some x, w) = (after_exception x, w)
  after_log perm is_auth (none, w) = (
    if is_auth
        then ok (tried a uc perm is_auth)
        else runtime_error (refused ErrorType.auth_perm named_device (tried a uc perm is_auth) []),
    w,
  )

  -- Behind a `command_inout` that returned.
  unfoldable pub after_answer : List String → Bool → a.World → Result String × a.World
  after_answer perm is_auth w =
      after_log perm is_auth
        (if uc.is_log_active then send_log a uc perm p.input_json is_group is_auth w else (none, w))

  -- `catch (Tango::DevFailed &e)`, behind its log. An exception out of that log leaves the branch.
  unfoldable pub after_failed_log : List String → Option Other × a.World → Result String × a.World
  after_failed_log errors (some x, w) = (leaving x, w)
  after_failed_log errors (none, w) =
      (runtime_error (refused ErrorType.auth_server_err dev "" (from_auth_ds ∷ errors)), w)

  -- The log is given the group and the status the other way round here; `isAuth` is still false.
  unfoldable pub after_command : List String → Reply × a.World → Result String × a.World
  after_command perm (answer b, w) = after_answer perm (if is_www uc.toi then true else b) w
  after_command perm (dev_failed errors, w) = after_failed_log errors (
      if is_www uc.toi && uc.is_log_active
      then send_log a uc perm p.input_json false is_group w
      else (none, w))
  after_command perm (raises x, w) = (after_exception x, w)

  unfoldable pub after_connect :
      List String → Option (List String) × a.World → Result String × a.World
  after_connect perm (some errors, w) =
      (runtime_error (refused ErrorType.auth_server_err dev "" (from_auth_ds ∷ errors)), w)
  after_connect perm (none, w) = after_command perm (a.command_inout (permission_command uc) perm w)

  unfoldable pub after_data : Result (List String) → a.World → Result String × a.World
  after_data (runtime_error text) w = (runtime_error text, w)
  after_data other_exception w = (other_exception, w)
  after_data (ok perm) w = after_connect perm (a.connect uc.auth_ds w)

  -- `check_permission`.
  unfoldable pub check_permission : UserData → a.World → Result String × a.World
  check_permission conn w = after_data (get_permission_data uc p conn dev) w

module _ (a : AuthDs) (uc : UserControl) (login password : String) where
  unfoldable pub user_refused : ErrorType → String → List String → Result (Unit {0})
  user_refused kind message messages = runtime_error (
      exception_string_out (record (error_info kind) {
        typeof_req = "authentification";
        error_message = message;
        error_messages = messages;
      }))

  abbrev not_connected : List String → Result (Unit {0})
  not_connected errors =
      user_refused ErrorType.auth_server_err ""
        (("Could not connect to auth-device-server " <> uc.auth_ds) ∷ errors)

  unfoldable pub user_answer : Reply → Result (Unit {0})
  user_answer (answer true) = ok tt
  user_answer (answer false) =
      user_refused ErrorType.auth_check
        ("Incorrect password for " <> login <> " or user is not registered") []
  user_answer (dev_failed errors) = not_connected errors
  user_answer (raises x) = leaving x

  unfoldable pub user_connect : Option (List String) × a.World → Result (Unit {0}) × a.World
  user_connect (some errors, w) = (not_connected errors, w)
  user_connect (none, w) =
      let (reply, w') =
        a.command_inout uc.command_name_for_user_control (login ∷ password ∷ []) w in
      (user_answer reply, w')

  -- `check_user`.
  unfoldable pub check_user : a.World → Result (Unit {0}) × a.World
  check_user w = user_connect (a.connect uc.auth_ds w)
