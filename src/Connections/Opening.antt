-- ===== src/Connections/Opening.antt =====
-- src/wstangoproc_common/WSThread.cpp and WSThread_plain.cpp: `getRemoteConf`, `on_open`,
-- `on_close` and `addActive`. `none` is a null pointer that the source would follow.
use web_socket_ds.Base.{
  ℕ, ◌%◌, ◌^◌, suc, String, Bool, true, not, List, [], ◌∷◌, Option, none, some, ◌&&◌, if◌then◌else◌,
  is_some, nonempty, str_beq, length, same_char,
}
use web_socket_ds.Base.Dict.{Dict, lookup, assign, erase, insert_new, string_eq, nat_eq}
use web_socket_ds.Wire.{Mode}
use web_socket_ds.Wire.Kinds.{is_client}
use web_socket_ds.StringProc.Split.{parse_of_address, parse_of_get_query, parse_input_string}
use web_socket_ds.UserControl.{Result, ok, runtime_error, other_exception, UserData}
use web_socket_ds.Session.Options.{WsTangoConn}
use web_socket_ds.Session.Users.{get_connection_data}
use web_socket_ds.Connections.{
  TaskInfo, Handled, escaped, finished_with, Connection, WsThread, Server, TangoConn, member,
  insert, delete_from_active,
}
use web_socket_ds.Connections.Sending.{Outcome, returned, connection_closed, send}

-- `erase(remove(…, ' '))`.
unfoldable pub without_blanks : String → String
without_blanks String.[] = String.[]
without_blanks (String.◌∷◌ c s) =
    let rest = without_blanks s in if same_char c " " then rest else String.◌∷◌ c rest

abbrev pub first_part : List String → String
first_part [] = ""
first_part (x ∷ xs) = x

-- The first proxied address, if it serves as the client's.
unfoldable pub client_ip : String → String → String
client_ip forwarded endpoint =
    let proxy = first_part (parse_input_string (without_blanks forwarded) "," true).1 in
    if nonempty proxy && not (str_beq proxy "::1") then proxy else parse_of_address endpoint

-- `getRemoteConf`.
unfoldable pub get_remote_conf : String → String → String → Dict String String
get_remote_conf endpoint forwarded query =
    assign "ip" (client_ip forwarded endpoint)
      (if nonempty query then parse_of_get_query query else [])

-- What a method of `_tc` makes of the user.
unfoldable pub set_user : ℕ → Connection → UserData → WsThread → WsThread
set_user hdl c user st = record st {
  m_connections = assign hdl (record c { user = user }) st.m_connections;
}

module _ {Tree W : Type 0} (io : Server W) (s : WsTangoConn) (tc : TangoConn Tree W) where
  -- `getConnectionData`, with the session id; `unset` as in `get_connection_data`.
  unfoldable pub new_connection : Bool → ℕ → ℕ → W → Connection
  new_connection unset hdl session w = record {
    user =
        get_connection_data s unset
          (get_remote_conf (io.remote_endpoint hdl w) (io.forwarded_for hdl w) (io.query hdl w));
    session_id = session;
    id_command_info = [];
  }

  -- An `unsigned long` of 64 bits.
  unfoldable pub open_connection : Bool → ℕ → WsThread → W → WsThread
  open_connection unset hdl st w = record st {
    m_connections = assign hdl (new_connection unset hdl st.m_next_sessionid w) st.m_connections;
    m_next_sessionid = suc st.m_next_sessionid % 2 ^ 64;
  }

  unfoldable pub count_connections : WsThread × W → WsThread × W
  count_connections (st, w) = (st, tc.set_num_of_connections (length st.m_connections) w)

  unfoldable pub after_greeting : ℕ → WsThread → Outcome × W → WsThread × W
  after_greeting hdl st (returned, w) = count_connections (st, w)
  after_greeting hdl st (connection_closed, w) = (delete_from_active hdl st, w)

  -- Behind `checkUser`: an empty text of the exception is not sent.
  unfoldable pub after_check : ℕ → WsThread → Result (Unit {0}) → W → Handled W
  after_check hdl st (ok u) w = finished_with (count_connections (st, w))
  after_check hdl st (runtime_error what) w = finished_with (
      if nonempty what
      then after_greeting hdl st (send io s hdl what w)
      else count_connections (st, w))
  after_check hdl st other_exception w = escaped st w

  -- `on_open`.
  unfoldable pub on_open : Bool → ℕ → WsThread → W → Handled W
  on_open unset hdl st w =
      let c = new_connection unset hdl st.m_next_sessionid w in
      let (result, (user, w')) = tc.check_user c.user w in
      after_check hdl (set_user hdl c user (open_connection unset hdl st w)) result w'

  -- `on_close`.
  unfoldable pub on_close : Mode → ℕ → WsThread → W → WsThread × W
  on_close mode hdl st w =
      let st' = delete_from_active hdl st in
      count_connections (
        record st' { m_connections = erase hdl st'.m_connections },
        if is_client mode then tc.client_disconnected hdl w else w,
      )

-- `idCommandInfo.insert`, which leaves the task of a present id alone.
unfoldable pub insert_tasks : List (ℕ × TaskInfo) → Dict ℕ TaskInfo → Dict ℕ TaskInfo
insert_tasks [] ts = ts
insert_tasks ((id, t) ∷ rest) ts = insert_tasks rest (insert_new id t ts)

unfoldable pub put_tasks : ℕ → List (ℕ × TaskInfo) → WsThread → Option WsThread
put_tasks hdl tasks st = elim (lookup hdl st.m_connections) [
  | none ↦ none
  | some c ↦ some (record st {
    m_connections =
        assign hdl (record c { id_command_info = insert_tasks tasks c.id_command_info })
          st.m_connections;
  })
]

-- `addActive`; its callers pass a task at least.
unfoldable pub add_active : ℕ → List (ℕ × TaskInfo) → WsThread → Option WsThread
add_active hdl tasks st =
    if member hdl st.m_active_connections
    then put_tasks hdl tasks st
    else if is_some (lookup hdl st.m_connections)
    then put_tasks hdl tasks
        (record st { m_active_connections = insert hdl st.m_active_connections })
    else some st
