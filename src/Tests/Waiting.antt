-- ===== src/Tests/Waiting.antt =====
-- The tasks, the users and the texts of a connection at concrete inputs, of the client build of
-- Tests/Serving.
use web_socket_ds.Base.{
  ◌≡◌, refl, ℕ, ◌-◌, ◌+◌, true, false, [], ◌∷◌, none, some, if◌then◌else◌, nat_beq, ◌||◌, arith,
  is_some, is_nil,
}
use web_socket_ds.Base.Int.{pos, show_int, show_nat, show_from}
use web_socket_ds.Base.Dict.{Dict, lookup, string_eq, nat_eq}
use web_socket_ds.Wire.{single}
use web_socket_ds.Request.{value_at, check_key}
use web_socket_ds.StringProc.Split.{parse_of_get_query, count_char}
use web_socket_ds.StringProc.Split.Query.{
  query_of, all_plain, is_plain, lacks, lookup-parse_of_get_query,
}
use web_socket_ds.UserControl.{ok}
use web_socket_ds.Events.Reply.{message}
use web_socket_ds.StringProc.Precision.{check_precision_options}
use web_socket_ds.Connections.{TaskInfo, WsThread, TangoConn, gives, arrived, not_arrived, member}
use web_socket_ds.Connections.Waiting.{add_active_lem}
use web_socket_ds.Connections.Opening.{add_active, client_ip, new_connection}
use web_socket_ds.Connections.Checking.{check_requests, check_actions}
use web_socket_ds.Connections.Active.{Tracks, keys, subset}
use web_socket_ds.Connections.Tasks.{ids_of, distinct, remaining, check_requests-remaining}
use web_socket_ds.Connections.Settled.{Idle, check_actions-Idle}
use web_socket_ds.Connections.Address.{new_connection_user}
use web_socket_ds.Devices.{TangoType, number, DeviceData, one, got, Devices, type_of_data}
use web_socket_ds.Devices.Asking.{process_command, after_command as after_sent}
use web_socket_ds.Devices.Answering.{command_response, command_response_of_group}
use web_socket_ds.Devices.Values.{
  generate_json_from_device_data, by_kind, one_text, data_value_to_str,
}
use web_socket_ds.Devices.Sendable.{process_command_lost}
use web_socket_ds.Devices.Braces.{opens as opening, closes as closing, command_response_braces}
use web_socket_ds.Tests.Serving.{
  numbers, devices, quiet, settings, no_pairs, start_motor, world, motor_task, anns_connection,
  serving, anns_client,
}

check_requests-remaining_example :
    let ts : Dict ℕ TaskInfo = (4, motor_task) ∷ (5, motor_task) ∷ [] in
    let r = check_requests quiet settings anns_client 7 ts world in
    (r.1.0 ≡ (if is_some r.0 then remaining quiet settings anns_client 7 ts world else ts))
    × (r.0 ≡ (if is_some r.0 then some (is_nil r.1.0) else none))
unfolding ids_of distinct member
check_requests-remaining_example =
    check_requests-remaining quiet settings anns_client 7 ((4, motor_task) ∷ (5, motor_task) ∷ [])
      world refl

add_active_lem_example :
    (st' : WsThread) × ((ts : Dict ℕ TaskInfo) × ((add_active 7
            ((4, motor_task) ∷ (5, motor_task) ∷ [])
            serving
          ≡ some st')
        × ((lookup 7 st'.m_connections ≡ some (record anns_connection { id_command_info = ts }))
            × (((id : ℕ)
                  → lookup id ts ≡ (
                      if is_some (lookup id ((4, motor_task) ∷ []))
                      then lookup id ((4, motor_task) ∷ [])
                      else lookup id ((4, motor_task) ∷ (5, motor_task) ∷ [])))
                × (((k : ℕ)
                      → nat_beq 7 k ≡ false
                      → lookup k st'.m_connections ≡ lookup k serving.m_connections)
                    × ((k : ℕ)
                        → member k st'.m_active_connections
                          ≡ (member k serving.m_active_connections || nat_beq 7 k)))))))
unfolding lookup
add_active_lem_example =
    add_active_lem 7 ((4, motor_task) ∷ (5, motor_task) ∷ []) anns_connection serving refl

new_connection_user_example :
    let user = (new_connection quiet settings anns_client false 7 1 world).user in
    (user.login ≡ "ann")
    × ((user.password ≡ "pw") × (user.ip_client ≡ client_ip "" "[::ffff:10.0.0.1]:4711"))
unfolding all_plain is_plain lacks query_of lookup
new_connection_user_example =
    new_connection_user quiet settings anns_client (("login", "ann") ∷ ("password", "pw") ∷ [])
      false 7 1 world refl refl

lookup-parse_of_get_query_example :
    lookup "login" (parse_of_get_query (query_of (("login", "ann") ∷ ("login", "bob") ∷ [])))
    ≡ some "ann"
unfolding all_plain is_plain lacks lookup
lookup-parse_of_get_query_example =
    lookup-parse_of_get_query "login" (("login", "ann") ∷ ("login", "bob") ∷ []) refl

abbrev five : TangoType × DeviceData ℕ
five = (TangoType.dev_long, one (number (pos 5)))

-- Its commands take arrays of numbers.
abbrev array_devices : Devices ℕ ℕ
array_devices = record devices { command_query = λ dev name w. (got TangoType.devvar_longarray, w) }

process_command_lost_example :
    let (name, opt) = check_precision_options "Start" start_motor in
    process_command numbers array_devices no_pairs start_motor "a/b/c" single 3
    ≡ after_sent numbers array_devices no_pairs start_motor "a/b/c" single name opt (got 3, 4)
unfolding check_key value_at lookup
process_command_lost_example =
    process_command_lost numbers array_devices no_pairs start_motor "a/b/c" single
      TangoType.devvar_longarray 3 3 refl refl refl

-- Tango answers when the number that stands for the time is 0.
abbrev slow : TangoConn (Unit {0}) ℕ
slow = record {
  check_user = λ user w. (ok tt, (user, w));
  common_requsts = λ p user w. (ok "", (user, w));
  send_request_async = λ p user w. (gives ([], []), w);
  send_request = λ p user w. (gives "", w);
  send_request_event = λ hdl p w. (message "", w);
  check_response = λ task w. (if nat_beq w 0 then arrived "done" else not_arrived, w);
  client_disconnected = λ hdl w. w;
  set_num_of_connections = λ num w. w;
}

check_actions-Idle_example :
    Idle (7 ∷ []) (check_actions quiet settings slow (λ w. w - 1) 3 serving 2).0
unfolding Tracks keys subset member
check_actions-Idle_example =
    check_actions-Idle quiet settings slow (λ w. w) (λ h msg w. omega arith)
      (λ h code why w. omega arith) (λ task w. omega arith) (λ task w up. ground arith) (λ w. w - 1)
      (λ w. omega arith) (7 ∷ []) 3 serving 2 (refl, refl) (omega arith)

command_response_braces_example :
    (opening (command_response_of_group numbers motor_task true five)
      ≡ closing (command_response_of_group numbers motor_task true five))
    × (opening (command_response numbers motor_task true five)
        ≡ closing (command_response numbers motor_task true five) + 1)
unfolding count_char generate_json_from_device_data by_kind type_of_data one_text data_value_to_str
    show_int show_nat show_from
command_response_braces_example =
    command_response_braces motor_task refl (refl, refl) (refl, refl) (refl, refl) numbers true five
      refl
