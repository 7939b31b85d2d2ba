-- ===== src/Tests/Group.antt =====
-- Runs of the server build for a group of two devices, of which AuthDS grants or refuses one.
use web_socket_ds.Base.{◌≡◌, refl, ℕ, suc, String, Bool, true, [], ◌∷◌, none}
use web_socket_ds.Base.Dict.{lookup}
use web_socket_ds.Wire.{TypeWsReq}
use web_socket_ds.Request.{ParsedInputJson, check_key, value_at}
use web_socket_ds.UserControl.{AuthDs, answer, get_permission_data, permission_target, user_control}
use web_socket_ds.UserControl.Permission.{granted, granted_data, granted_connected, allowed}
use web_socket_ds.Session.Options.{ws_tango_conn}
use web_socket_ds.Wire.{group}
use web_socket_ds.Devices.Asking.{process_async_req}
use web_socket_ds.ServerBuild.Waiting.{Waits, process_async_req-Waits}
use web_socket_ds.Devices.{Devices, not_yet, Asked, got}
use web_socket_ds.Client.Permission.{is_failure}
use web_socket_ds.ServerBuild.{WsTangoConnSer, asked_for, send_request_async}
use web_socket_ds.ServerBuild.Permission.{send_request_async_denied}
use web_socket_ds.Tests.Serving.{
  strict, numbers, devices, settings, asked, no_pairs, start_motor, ann,
}

-- AuthDS says yes.
abbrev obliging : AuthDs
obliging = record {
  World = ℕ;
  time = λ w. w;
  connect = λ ds w. (none, w);
  command_inout = λ name args w. (answer true, suc w);
}

abbrev two_motors : WsTangoConnSer
two_motors = record {
  is_init_ds = true;
  error_message = "";
  is_group = true;
  device_server = "a/b/*";
  device_list = "a/b/c" ∷ "a/b/d" ∷ [];
}

abbrev in_list : String → ℕ → Asked Bool × ℕ
in_list dev w = (got true, w)

abbrev start_all : ParsedInputJson (Unit {0})
start_all = asked TypeWsReq.command (
    ("device_name", "a/b/c")
    ∷ ("command_name", "Start")
    ∷ ("argin", "5")
    ∷ ("group_request", "true")
    ∷ [])

send_request_async_denied_example :
    let r =
      send_request_async strict numbers devices in_list no_pairs settings two_motors start_motor ann
        0 3 in
    (is_failure r.0 ≡ true) × (r.1.1 ≡ 3)
unfolding asked_for granted granted_data get_permission_data ws_tango_conn user_control
    permission_target granted_connected allowed check_key value_at lookup
send_request_async_denied_example =
    send_request_async_denied strict numbers devices in_list no_pairs settings two_motors
      start_motor ann 0 3 TypeWsReq.command refl refl refl

-- A Tango that takes every request and answers none.
abbrev silent : Devices ℕ ℕ
silent = record devices { write_attribute_reply = λ dev id w. (not_yet, w) }

process_async_req-Waits_example :
    Waits numbers silent settings two_motors
      (λ dev id w. refl)
      (λ dev id w. refl)
      (λ dev id w. refl)
      (process_async_req numbers silent no_pairs start_all "a/b/c" group 3).0
process_async_req-Waits_example =
    process_async_req-Waits numbers silent settings two_motors (λ dev id w. refl) (λ dev id w. refl)
      (λ dev id w. refl) no_pairs start_all "a/b/c" group refl TypeWsReq.command 3 refl refl
