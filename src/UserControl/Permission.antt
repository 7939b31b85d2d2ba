-- ===== src/UserControl/Permission.antt =====
-- src/wstangoproc_common/UserControl.cpp: when `check_permission` lets a request through. `granted`
-- asks AuthDS without the log and the messages.
use web_socket_ds.Base.{
  ◌≡◌, refl, String, Bool, true, false, ◌||◌, ◌&&◌, List, Option, none, some, arith, if◌then◌else◌,
}
use web_socket_ds.Request.{ParsedInputJson}
use web_socket_ds.UserControl.{
  AuthDs, Reply, answer, dev_failed, raises, Other, of_runtime, of_std, of_no_std, Result, ok,
  runtime_error, other_exception, UserControl, UserData, is_www, get_permission_data, send_log,
  after_log, after_answer, after_failed_log, after_command, permission_command, after_connect,
  after_data, after_exception, check_permission, escaping, log_data,
}

abbrev pub is_ok {ℓ} : {A : Type ℓ} → Result A → Bool
is_ok (ok a) = true
is_ok (runtime_error text) = false
is_ok other_exception = false

abbrev pub escapes : Reply → Bool
escapes (raises x) = true
escapes _ = false

pub escaping_calm : (r : Reply) → escapes r ≡ false → escaping r ≡ none
escaping_calm (answer b) h = refl
escaping_calm (dev_failed errors) h = refl
escaping_calm (raises x) h = cc h

module _ (a : AuthDs) (uc : UserControl) {Tree : Type 0} (p : ParsedInputJson Tree)
    (dev : String) where
  -- For `PERMISSION_WWW` any answer grants.
  unfoldable pub allowed : Reply → Bool
  allowed (answer b) = is_www uc.toi || b
  allowed (dev_failed errors) = false
  allowed (raises x) = false

  unfoldable pub granted_connected : List String → Option (List String) × a.World → Bool
  granted_connected perm (some errors, w) = false
  granted_connected perm (none, w) = allowed (a.command_inout (permission_command uc) perm w).0

  unfoldable pub granted_data : Result (List String) → a.World → Bool
  granted_data (runtime_error text) w = false
  granted_data other_exception w = false
  granted_data (ok perm) w = granted_connected perm (a.connect uc.auth_ds w)

  unfoldable pub granted : UserData → a.World → Bool
  granted conn w = granted_data (get_permission_data uc p conn dev) w

  module _ (is_group : Bool) where
    after_log-is_ok :
        (perm : List String) (b : Bool) (out : Option Other × a.World)
        → is_ok (after_log a uc p dev is_group perm b out).0 ≡ true
        → b ≡ true
    unfolding after_log after_exception
    after_log-is_ok perm true (none, w) h = refl
    after_log-is_ok perm false (none, w) h = h
    after_log-is_ok perm b (some (of_runtime what), w) h = cc h
    after_log-is_ok perm b (some (of_std what), w) h = cc h
    after_log-is_ok perm b (some of_no_std, w) h = cc h

    after_failed_log-not_ok :
        (errors : List String) (out : Option Other × a.World)
        → is_ok (after_failed_log a uc p dev is_group errors out).0 ≡ false
    unfolding after_failed_log
    after_failed_log-not_ok errors (none, w) = refl
    after_failed_log-not_ok errors (some (of_runtime what), w) = refl
    after_failed_log-not_ok errors (some (of_std what), w) = refl
    after_failed_log-not_ok errors (some of_no_std, w) = refl

    after_command-is_ok :
        (perm : List String) (out : Reply × a.World)
        → is_ok (after_command a uc p dev is_group perm out).0 ≡ true
        → allowed out.0 ≡ true
    unfolding after_command after_answer allowed after_exception
    after_command-is_ok perm (answer b, w) h =
        let e =
          after_log-is_ok perm (if is_www uc.toi then true else b)
            (if uc.is_log_active
              then send_log a uc perm p.input_json is_group (if is_www uc.toi then true else b) w
              else (none, w))
            h in
        ground arith
    after_command-is_ok perm (dev_failed errors, w) h =
        let e = after_failed_log-not_ok errors (
          if is_www uc.toi && uc.is_log_active
          then send_log a uc perm p.input_json false is_group w
          else (none, w)) in
        cc (h, e)
    after_command-is_ok perm (raises (of_runtime what), w) h = h
    after_command-is_ok perm (raises (of_std what), w) h = h
    after_command-is_ok perm (raises of_no_std, w) h = h

    after_connect-is_ok :
        (perm : List String) (out : Option (List String) × a.World)
        → is_ok (after_connect a uc p dev is_group perm out).0 ≡ true
        → granted_connected perm out ≡ true
    unfolding after_connect granted_connected
    after_connect-is_ok perm (some errors, w) h = h
    after_connect-is_ok perm (none, w) h =
        after_command-is_ok perm (a.command_inout (permission_command uc) perm w) h

    after_data-is_ok :
        (found : Result (List String)) (w : a.World)
        → is_ok (after_data a uc p dev is_group found w).0 ≡ true
        → granted_data found w ≡ true
    unfolding after_data granted_data
    after_data-is_ok (runtime_error text) w h = h
    after_data-is_ok other_exception w h = h
    after_data-is_ok (ok perm) w h = after_connect-is_ok perm (a.connect uc.auth_ds w) h

    -- A request that `check_permission` lets through is one that AuthDS grants: its proxy came up,
    -- and the permission command, sent the data of `getPermissionData`, answered true, or answered
    -- at all for `PERMISSION_WWW`.
    pub check_permission-granted :
        (conn : UserData) (w : a.World)
        → is_ok (check_permission a uc p dev is_group conn w).0 ≡ true
        → granted conn w ≡ true
    unfolding check_permission granted
    check_permission-granted conn w h = after_data-is_ok (get_permission_data uc p conn dev) w h

    module _
        (calm : (perm : List String) (w : a.World)
          → escapes (a.command_inout uc.command_name_for_log perm w).0 ≡ false) where
      send_log_calm :
          (perm : List String) (json : String) (g s : Bool) (w : a.World)
          → (send_log a uc perm json g s w).0 ≡ none
      unfolding send_log
      send_log_calm perm json g s w =
          escaping_calm
            (a.command_inout uc.command_name_for_log (log_data a uc (a.time w) perm json g s) w).0
            (calm (log_data a uc (a.time w) perm json g s) w)

      when_calm :
          (b : Bool) (out : Option Other × a.World) (w : a.World)
          → out.0 ≡ none
          → (if b then out else (none, w)).0 ≡ none
      when_calm true out w e = e
      when_calm false out w e = refl

      after_log_calm :
          (perm : List String) (b : Bool) (out : Option Other × a.World)
          → b ≡ true
          → out.0 ≡ none
          → is_ok (after_log a uc p dev is_group perm b out).0 ≡ true
      unfolding after_log
      after_log_calm perm true (none, w) h e = refl
      after_log_calm perm false (none, w) h e = h
      after_log_calm perm b (some x, w) h e = cc e

      after_command_calm :
          (perm : List String) (out : Reply × a.World)
          → allowed out.0 ≡ true
          → is_ok (after_command a uc p dev is_group perm out).0 ≡ true
      unfolding after_command after_answer allowed
      after_command_calm perm (answer b, w) h =
          after_log_calm perm (if is_www uc.toi then true else b)
            (if uc.is_log_active
              then send_log a uc perm p.input_json is_group (if is_www uc.toi then true else b) w
              else (none, w))
            (ground arith)
            (when_calm uc.is_log_active
              (send_log a uc perm p.input_json is_group (if is_www uc.toi then true else b) w) w
              (send_log_calm perm p.input_json is_group (if is_www uc.toi then true else b) w))
      after_command_calm perm (dev_failed errors, w) h = cc h
      after_command_calm perm (raises x, w) h = cc h

      after_connect_calm :
          (perm : List String) (out : Option (List String) × a.World)
          → granted_connected perm out ≡ true
          → is_ok (after_connect a uc p dev is_group perm out).0 ≡ true
      unfolding after_connect granted_connected
      after_connect_calm perm (some errors, w) h = cc h
      after_connect_calm perm (none, w) h =
          after_command_calm perm (a.command_inout (permission_command uc) perm w) h

      after_data_calm :
          (found : Result (List String)) (w : a.World)
          → granted_data found w ≡ true
          → is_ok (after_data a uc p dev is_group found w).0 ≡ true
      unfolding after_data granted_data
      after_data_calm (runtime_error text) w h = cc h
      after_data_calm other_exception w h = cc h
      after_data_calm (ok perm) w h = after_connect_calm perm (a.connect uc.auth_ds w) h

      -- When the log command ends with an answer or a `DevFailed`, whatever that is,
      -- `check_permission` lets every granted request through.
      pub granted-check_permission :
          (conn : UserData) (w : a.World)
          → granted conn w ≡ true
          → is_ok (check_permission a uc p dev is_group conn w).0 ≡ true
      unfolding check_permission granted
      granted-check_permission conn w h = after_data_calm (get_permission_data uc p conn dev) w h
