-- ===== src/ServerBuild/Permission.antt =====
-- src/wstangoproc_ser/WSTangoConnSer.cpp: what AuthDS is asked for in the server build, and what
-- the permission then reaches.
use web_socket_ds.Base.{
  if◌then◌else◌, ◌≡◌, refl, String, Bool, true, false, ◌&&◌, List, Bool-cases, inl, inr, arith,
}
use web_socket_ds.Wire.{TypeWsReq}
use web_socket_ds.Request.{ParsedInputJson, is_value, check_key, value_at}
use web_socket_ds.UserControl.{AuthDs, UserData, Result, ok, runtime_error, other_exception}
use web_socket_ds.UserControl.Permission.{is_ok, granted}
use web_socket_ds.Session.Options.{WsTangoConn}
use web_socket_ds.Session.Users.{check_permission_for_request}
use web_socket_ds.Session.Access.{check_permission_for_request-granted}
use web_socket_ds.Connections.{Called}
use web_socket_ds.Devices.{Formats, Asked, Devices}
use web_socket_ds.Devices.Asking.{Tasks}
use web_socket_ds.Client.Permission.{is_failure, changes_device}
use web_socket_ds.ServerBuild.{
  WsTangoConnSer, asked_for, if_permitted, ask_permission, send_request_async,
}

module _ (a : AuthDs) {F W Tree : Type 0} (f : Formats F) (d : Devices F W)
    (get_device : String → W → Asked Bool × W) (children : Tree → List (String × String))
    (s : WsTangoConn) (ser : WsTangoConnSer) (p : ParsedInputJson Tree) where
  Untouched : W → Called (Tasks × List String) × (a.World × W) → Type 0
  Untouched w r = (is_failure r.0 ≡ true) × (r.1.1 ≡ w)

  if_permitted-Untouched :
      (r : Result String) (v : a.World) (w : W)
      → is_ok r ≡ false
      → Untouched w (if_permitted a f d get_device children s ser p (r, v) w)
  unfolding if_permitted Untouched
  if_permitted-Untouched (ok mess) v w no_ok = ground arith
  if_permitted-Untouched (runtime_error what) v w no_ok = (refl, refl)
  if_permitted-Untouched other_exception v w no_ok = (refl, refl)

  not_passed :
      (conn : UserData) (name : String) (of_all : Bool) (u : a.World)
      → (conn.user_check_status && granted a s.uc p name conn u) ≡ false
      → is_ok (check_permission_for_request a s p conn name of_all u).0 ≡ false
  not_passed conn name of_all u refused =
      elim (Bool-cases (is_ok (check_permission_for_request a s p conn name of_all u).0)) [
        | inl passed ↦
            let (checked, asked) =
              check_permission_for_request-granted a s p conn name of_all u passed in
            ground arith
        | inr h ↦ h
      ]

  asked_name : (asked_for a f d get_device children s ser p).0 ≡ (
      if ser.is_group && is_value (check_key p "device_name")
      then value_at p "device_name"
      else ser.device_server)
  unfolding asked_for
  asked_name = ground arith

  ask_permission-Untouched :
      (conn : UserData) (u : a.World) (w : W)
      → (conn.user_check_status
          && granted a s.uc p (asked_for a f d get_device children s ser p).0 conn u)
        ≡ false
      → Untouched w (ask_permission a f d get_device children s ser p conn u w)
  unfolding ask_permission
  ask_permission-Untouched conn u w refused =
      let target = asked_for a f d get_device children s ser p in
      let r = check_permission_for_request a s p conn target.0 target.1 u in
      if_permitted-Untouched r.0 r.1 w (not_passed conn target.0 target.1 u refused)

  -- In the server build, too, a command or a write of a user who is not authenticated, or whom
  -- AuthDS does not grant it, ends in an exception and Tango's devices are not asked for anything.
  -- AuthDS decides on the device that the request names, where the server has a group; and on the
  -- server's device or group, where the request names none or the server has one device.
  pub send_request_async_denied :
      (conn : UserData) (u : a.World) (w : W) (kind : TypeWsReq)
      → p.type_req ≡ kind
      → changes_device kind ≡ true
      → (conn.user_check_status
          && granted a s.uc p
              (if ser.is_group && is_value (check_key p "device_name")
                then value_at p "device_name"
                else ser.device_server)
              conn
              u)
        ≡ false
      → let r = send_request_async a f d get_device children s ser p conn u w in
        (is_failure r.0 ≡ true) × (r.1.1 ≡ w)
  unfolding send_request_async Untouched
  send_request_async_denied conn u w TypeWsReq.command is_kind change refused =
      elim (Bool-cases ser.is_init_ds) [
        | inl ready ↦
            rw (is_kind, send_request_async)
              (simp (ready, send_request_async)
                (ask_permission-Untouched conn u w (rw asked_name refused)))
        | inr broken ↦ simp (broken, send_request_async) (refl, refl)
      ]
  send_request_async_denied conn u w TypeWsReq.attribute_write is_kind change refused =
      elim (Bool-cases ser.is_init_ds) [
        | inl ready ↦
            rw (is_kind, send_request_async)
              (simp (ready, send_request_async)
                (ask_permission-Untouched conn u w (rw asked_name refused)))
        | inr broken ↦ simp (broken, send_request_async) (refl, refl)
      ]
  send_request_async_denied conn u w _ is_kind change refused = ground arith
