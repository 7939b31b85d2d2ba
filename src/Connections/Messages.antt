-- ===== src/Connections/Messages.antt =====
-- src/wstangoproc_common/WSThread.cpp, `on_message`: the way of a message through the program.
use web_socket_ds.Base.{
  ℕ, String, Bool, true, false, List, [], ◌∷◌, Option, none, some, ◌&&◌, if◌then◌else◌, is_nil,
  nonempty, contains,
}
use web_socket_ds.Base.Dict.{lookup, nat_eq}
use web_socket_ds.Wire.{Mode, TypeWsReq, ErrorType}
use web_socket_ds.Wire.Kinds.{is_client, is_change_user, is_user_check_status}
use web_socket_ds.Request.{ParsedInputJson}
use web_socket_ds.Request.EventLists.{Ptree}
use web_socket_ds.Request.Parse.{parse_input_json}
use web_socket_ds.StringProc.Response.{error_info, exception_string_out}
use web_socket_ds.UserControl.{UserData, Result, ok, runtime_error, other_exception}
use web_socket_ds.Session.Options.{WsTangoConn}
use web_socket_ds.Events.Reply.{EventReply, message, event_req_exception}
use web_socket_ds.Connections.{
  TaskInfo, Handled, escaped, null_pointer, finished_with, Called, gives, fails, escapes,
  Connection, WsThread, Server, TangoConn, delete_from_active,
}
use web_socket_ds.Connections.Sending.{Outcome, returned, connection_closed, send}
use web_socket_ds.Connections.Opening.{set_user, add_active}

-- `_isAsyncRequest`.
unfoldable pub is_async_request : TypeWsReq → Bool
is_async_request t = elim t [
  | TypeWsReq.command ↦ true
  | TypeWsReq.attribute_read ↦ true
  | TypeWsReq.attribute_write ↦ true
  | _ ↦ false
]

unfoldable pub invalid_message : {Tree : Type 0} → ParsedInputJson Tree → String
invalid_message p =
    if nonempty p.err_mess
    then p.err_mess
    else exception_string_out (record (error_info ErrorType.is_not_valid) {
      error_message = "Unknown message from parsing";
      typeof_req = p.type_req_str;
    })

-- `resp` and `resp2`.
abbrev pub Answers : Type 0
Answers = String × String

-- The exception holds the texts for the failures and for the successes.
unfoldable pub event_answers : EventReply → Answers
event_answers (message resp) = (resp, "")
event_answers (event_req_exception errors successes) = (successes, errors)

module _ {W : Type 0} (io : Server W) (s : WsTangoConn) where
  unfoldable pub after_send : ℕ → WsThread → Outcome × W → WsThread × W
  after_send hdl st (returned, w) = (st, w)
  after_send hdl st (connection_closed, w) = (delete_from_active hdl st, w)

  -- `try { send(hdl, text); } catch (ConnectionClosedException& e) { … }`
  unfoldable pub send_or_drop : ℕ → String → WsThread → W → WsThread × W
  send_or_drop hdl text st w = after_send hdl st (send io s hdl text w)

  -- The errors of the members of a group, up to the first that closes the connection.
  unfoldable pub send_errors : ℕ → List String → W → Outcome × W
  send_errors hdl [] w = (returned, w)
  send_errors hdl (err ∷ errs) w =
      let (o, w') = send io s hdl err w in
      elim o [ connection_closed ↦ (connection_closed, w') | returned ↦ send_errors hdl errs w' ]

  -- The sends at the end; the second text is the client build's.
  unfoldable pub send_second : ℕ → String → Outcome × W → Outcome × W
  send_second hdl resp2 (connection_closed, w) = (connection_closed, w)
  send_second hdl resp2 (returned, w) =
      if nonempty resp2 then send io s hdl resp2 w else (returned, w)

  unfoldable pub send_answers : ℕ → Answers → WsThread → W → WsThread × W
  send_answers hdl (resp, resp2) st w =
      after_send hdl st
        (send_second hdl resp2 (if nonempty resp then send io s hdl resp w else (returned, w)))

  unfoldable pub after_active : ℕ → List String → Option WsThread → W → Handled W
  after_active hdl errs none w = null_pointer
  after_active hdl errs (some st) w = finished_with (after_send hdl st (send_errors hdl errs w))

  -- Behind `sendRequestAsync`.
  unfoldable pub after_async :
      ℕ → WsThread → Called (List (ℕ × TaskInfo) × List String) × W → Handled W
  after_async hdl st (gives (tasks, errs), w) =
      after_active hdl errs (if is_nil tasks then some st else add_active hdl tasks st) w
  after_async hdl st (fails what, w) = finished_with (send_answers hdl (what, "") st w)
  after_async hdl st (escapes, w) = escaped st w

  -- Behind `sendRequest`.
  unfoldable pub after_request : ℕ → WsThread → Called String × W → Handled W
  after_request hdl st (gives resp, w) = finished_with (send_answers hdl (resp, "") st w)
  after_request hdl st (fails what, w) = finished_with (send_answers hdl (what, "") st w)
  after_request hdl st (escapes, w) = escaped st w

  -- Nothing around `commonRequsts` catches.
  unfoldable pub after_common :
      ℕ → Connection → WsThread → Result String × (UserData × W) → Handled W
  after_common hdl c st (ok resp, (user, w)) =
      finished_with (send_or_drop hdl resp (set_user hdl c user st) w)
  after_common hdl c st (runtime_error what, (user, w)) = escaped (set_user hdl c user st) w
  after_common hdl c st (other_exception, (user, w)) = escaped (set_user hdl c user st) w

-- Whether the client build hands the request to the events.
unfoldable pub is_event_request : {Tree : Type 0} → Mode → ParsedInputJson Tree → Bool
is_event_request mode p =
    if is_user_check_status p.type_req
    then false
    else if is_change_user p.type_req
    then false
    else if is_async_request p.type_req
    then false
    else is_client mode && contains "eventreq" p.type_req_str

module _ {Tree W : Type 0} (io : Server W) (s : WsTangoConn) (tc : TangoConn Tree W) where
  -- The requests that need the connection's data.
  unfoldable pub with_connection : ParsedInputJson Tree → ℕ → Connection → WsThread → W → Handled W
  with_connection p hdl c st w =
      if is_user_check_status p.type_req
      then after_common io s hdl c st (tc.common_requsts p c.user w)
      else if is_change_user p.type_req
      then after_common io s hdl c st (tc.common_requsts p c.user w)
      else if is_async_request p.type_req
      then after_async io s hdl st (tc.send_request_async p c.user w)
      else after_request io s hdl st (tc.send_request p c.user w)

  -- `on_message`, on the parsed request.
  unfoldable pub on_request : Mode → ParsedInputJson Tree → ℕ → WsThread → W → Handled W
  on_request mode p hdl st w =
      if p.is_valid
      then (if is_event_request mode p
          then (let (reply, w') = tc.send_request_event hdl p w in
              finished_with (send_answers io s hdl (event_answers reply) st w'))
          else elim (lookup hdl st.m_connections) [
            | none ↦ null_pointer
            | some c ↦ with_connection p hdl c st w
          ])
      else finished_with (send_or_drop io s hdl (invalid_message p) st w)

-- `on_message`.
unfoldable pub on_message :
    (b : Ptree) {W : Type 0}
    → Server W
    → WsTangoConn
    → TangoConn b.Tree W
    → Mode
    → String
    → ℕ
    → WsThread
    → W
    → Handled W
on_message b io s tc mode text hdl st w =
    on_request io s tc mode (parse_input_json b mode text) hdl st w
