-- ===== src/Client/Permission.antt =====
-- src/wstangoproc_cli/WSTangoConnCli.cpp: no command and no write reaches Tango without the
-- permission of AuthDS.
use web_socket_ds.Base.{
  ◌≡◌, refl, ℕ, String, Bool, true, false, ◌&&◌, List, Bool-cases, inl, inr, arith,
}
use web_socket_ds.Wire.{TypeWsReq}
use web_socket_ds.Request.{ParsedInputJson, value_at}
use web_socket_ds.UserControl.{AuthDs, UserData, Result, ok, runtime_error, other_exception}
use web_socket_ds.UserControl.Permission.{is_ok, granted}
use web_socket_ds.Session.Options.{WsTangoConn}
use web_socket_ds.Session.Users.{check_permission_for_request}
use web_socket_ds.Session.Access.{check_permission_for_request-granted}
use web_socket_ds.Events.State.{Tango}
use web_socket_ds.Connections.{TaskInfo, Called, gives}
use web_socket_ds.Devices.{Formats, Devices}
use web_socket_ds.Client.{ClientWorld, is_group_req, when_permitted, permitted, send_request_async}

abbrev pub changes_device : TypeWsReq → Bool
changes_device kind = elim kind [
  | TypeWsReq.command ↦ true
  | TypeWsReq.attribute_write ↦ true
  | _ ↦ false
]

-- No tasks: the text of a `runtime_error`, or an exception of another kind.
abbrev pub is_failure : {A : Type 0} → Called A → Bool
is_failure (gives a) = false
is_failure _ = true

module _ (a : AuthDs) (t : Tango) {F Tree : Type 0} (f : Formats F) (d : Devices F t.World)
    (children : Tree → List (String × String)) (s : WsTangoConn) (unset : ℕ)
    (p : ParsedInputJson Tree) where
  -- The request ended in an error, and nothing outside the program but AuthDS has been asked.
  Refused : ClientWorld a t → Called (List (ℕ × TaskInfo) × List String) × ClientWorld a t → Type 0
  Refused w r = (is_failure r.0 ≡ true) × (r.1.tango ≡ w.tango)

  Refused-result :
      (w : ClientWorld a t) (r : Result String) (v : a.World)
      → is_ok r ≡ false
      → Refused w (when_permitted a t f d children s unset p (r, record w { auth = v }))
  unfolding when_permitted Refused
  Refused-result w (ok mess) v no_ok = ground arith
  Refused-result w (runtime_error what) v no_ok = (refl, refl)
  Refused-result w other_exception v no_ok = (refl, refl)

  not_ok :
      (conn : UserData) (w : ClientWorld a t)
      → (conn.user_check_status && granted a s.uc p (value_at p "device_name") conn w.auth) ≡ false
      → is_ok
          (check_permission_for_request a s p conn
            (value_at p "device_name")
            (is_group_req p)
            w.auth).0
        ≡ false
  not_ok conn w refused =
      elim (Bool-cases (
        is_ok
          (check_permission_for_request a s p conn (value_at p "device_name") (is_group_req p)
            w.auth).0)) [
              | inl passed ↦
                  let (checked, asked) =
                    check_permission_for_request-granted a s p conn (value_at p "device_name")
                      (is_group_req p) w.auth passed in
                  ground arith
              | inr h ↦ h
            ]

  -- A command or a write of a user who is not authenticated, or whom AuthDS does not grant it, ends
  -- in an exception (whose text is the error for the client, when it is a `runtime_error`), for a
  -- device and for a group, and Tango's devices are not asked for anything.
  pub send_request_async_refused :
      (conn : UserData) (w : ClientWorld a t) (kind : TypeWsReq)
      → p.type_req ≡ kind
      → changes_device kind ≡ true
      → (conn.user_check_status && granted a s.uc p (value_at p "device_name") conn w.auth) ≡ false
      → let r = send_request_async a t f d children s unset p conn w in
        (is_failure r.0 ≡ true) × (r.1.tango ≡ w.tango)
  unfolding send_request_async permitted Refused
  send_request_async_refused conn w TypeWsReq.command is_kind change refused =
      let r =
        check_permission_for_request a s p conn (value_at p "device_name") (is_group_req p)
          w.auth in
      rw (is_kind, send_request_async) (Refused-result w r.0 r.1 (not_ok conn w refused))
  send_request_async_refused conn w TypeWsReq.attribute_write is_kind change refused =
      let r =
        check_permission_for_request a s p conn (value_at p "device_name") (is_group_req p)
          w.auth in
      rw (is_kind, send_request_async) (Refused-result w r.0 r.1 (not_ok conn w refused))
  send_request_async_refused conn w _ is_kind change refused = ground arith
