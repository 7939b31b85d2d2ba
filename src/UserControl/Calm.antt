-- ===== src/UserControl/Calm.antt =====
-- src/wstangoproc_common/UserControl.cpp: what leaves `check_user` and `check_permission` when the
-- commands of AuthDS answer or end in a `DevFailed`.
use web_socket_ds.Base.{
  ◌≡◌, refl, String, Bool, true, false, ◌&&◌, List, Option, none, some, if◌then◌else◌, arith, [],
  ◌∷◌,
}
use web_socket_ds.Request.{ParsedInputJson}
use web_socket_ds.UserControl.{
  AuthDs, Reply, answer, dev_failed, raises, Other, Result, ok, runtime_error, other_exception,
  UserControl, UserData, is_www, get_permission_data, send_log, log_data, after_log,
  after_failed_log, after_answer, after_command, permission_command, after_connect, after_data,
  check_permission, user_refused, user_answer, user_connect, check_user,
}
use web_socket_ds.UserControl.Permission.{escapes, escaping_calm}

abbrev pub is_other {ℓ} : {A : Type ℓ} → Result A → Bool
is_other other_exception = true
is_other _ = false

module _ (a : AuthDs)
    (calm : (name : String) (args : List String) (w : a.World)
      → escapes (a.command_inout name args w).0 ≡ false)
    (uc : UserControl) where
  user_answer_safe :
      (login password : String) (r : Reply)
      → escapes r ≡ false
      → is_other (user_answer a uc login password r) ≡ false
  unfolding user_answer user_refused
  user_answer_safe login password (answer true) h = refl
  user_answer_safe login password (answer false) h = refl
  user_answer_safe login password (dev_failed errors) h = refl
  user_answer_safe login password (raises x) h = ground arith

  user_connect_safe :
      (login password : String) (out : Option (List String) × a.World)
      → is_other (user_connect a uc login password out).0 ≡ false
  unfolding user_connect user_refused
  user_connect_safe login password (some errors, w) = refl
  user_connect_safe login password (none, w) =
      let args = login ∷ password ∷ [] in
      user_answer_safe login password (a.command_inout uc.command_name_for_user_control args w).0
        (calm uc.command_name_for_user_control args w)

  pub check_user_safe :
      (login password : String) (w : a.World)
      → is_other (check_user a uc login password w).0 ≡ false
  unfolding check_user
  check_user_safe login password w = user_connect_safe login password (a.connect uc.auth_ds w)

  module _ {Tree : Type 0} (p : ParsedInputJson Tree) (dev : String) (is_group : Bool) where
    logged :
        (b : Bool) (perm : List String) (json : String) (g s : Bool) (w : a.World)
        → (if b then send_log a uc perm json g s w else (none, w)).0 ≡ none
    unfolding send_log
    logged true perm json g s w =
        escaping_calm
          (a.command_inout uc.command_name_for_log (log_data a uc (a.time w) perm json g s) w).0
          (calm uc.command_name_for_log (log_data a uc (a.time w) perm json g s) w)
    logged false perm json g s w = refl

    after_log_safe :
        (perm : List String) (b : Bool) (out : Option Other × a.World)
        → out.0 ≡ none
        → is_other (after_log a uc p dev is_group perm b out).0 ≡ false
    unfolding after_log
    after_log_safe perm true (none, w) h = refl
    after_log_safe perm false (none, w) h = refl
    after_log_safe perm b (some x, w) h = cc h

    after_failed_log_safe :
        (errors : List String) (out : Option Other × a.World)
        → out.0 ≡ none
        → is_other (after_failed_log a uc p dev is_group errors out).0 ≡ false
    unfolding after_failed_log
    after_failed_log_safe errors (none, w) h = refl
    after_failed_log_safe errors (some x, w) h = cc h

    after_command_safe :
        (perm : List String) (out : Reply × a.World)
        → escapes out.0 ≡ false
        → is_other (after_command a uc p dev is_group perm out).0 ≡ false
    unfolding after_command after_answer
    after_command_safe perm (answer b, w) h =
        let is_auth = if is_www uc.toi then true else b in
        after_log_safe perm is_auth
          (if uc.is_log_active
            then send_log a uc perm p.input_json is_group is_auth w
            else (none, w))
          (logged uc.is_log_active perm p.input_json is_group is_auth w)
    after_command_safe perm (dev_failed errors, w) h =
        let active = is_www uc.toi && uc.is_log_active in
        after_failed_log_safe errors
          (if active then send_log a uc perm p.input_json false is_group w else (none, w))
          (logged active perm p.input_json false is_group w)
    after_command_safe perm (raises x, w) h = cc h

    after_connect_safe :
        (perm : List String) (out : Option (List String) × a.World)
        → is_other (after_connect a uc p dev is_group perm out).0 ≡ false
    unfolding after_connect
    after_connect_safe perm (some errors, w) = refl
    after_connect_safe perm (none, w) =
        after_command_safe perm (a.command_inout (permission_command uc) perm w)
          (calm (permission_command uc) perm w)

    after_data_safe :
        (found : Result (List String)) (w : a.World)
        → is_other found ≡ false
        → is_other (after_data a uc p dev is_group found w).0 ≡ false
    unfolding after_data
    after_data_safe (ok perm) w h = after_connect_safe perm (a.connect uc.auth_ds w)
    after_data_safe (runtime_error text) w h = refl
    after_data_safe other_exception w h = h

    get_permission_data_safe :
        (conn : UserData) → is_other (get_permission_data uc p conn dev) ≡ false
    unfolding get_permission_data
    get_permission_data_safe conn = ground arith

    pub check_permission_safe :
        (conn : UserData) (w : a.World)
        → is_other (check_permission a uc p dev is_group conn w).0 ≡ false
    unfolding check_permission
    check_permission_safe conn w =
        after_data_safe (get_permission_data uc p conn dev) w (get_permission_data_safe conn)
