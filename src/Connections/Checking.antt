-- ===== src/Connections/Checking.antt =====
-- src/wstangoproc_common/WSThread.cpp: `_checkRequests`, `_forCheckActions` and `checkActions`, the
-- thread that collects the answers of Tango. `none` is a null pointer that the source would follow.
use web_socket_ds.Base.{
  ℕ, zero, suc, String, Bool, true, false, List, [], ◌∷◌, Option, none, some, if◌then◌else◌, is_nil,
}
use web_socket_ds.Base.Dict.{Dict, lookup, assign, erase, nat_eq}
use web_socket_ds.Wire.{ErrorType}
use web_socket_ds.StringProc.Response.{error_info, exception_string_out}
use web_socket_ds.Session.Options.{WsTangoConn}
use web_socket_ds.Connections.{
  TaskInfo, Connection, WsThread, Server, CheckReply, arrived, not_arrived, dev_failed, TangoConn,
  close_connections,
}
use web_socket_ds.Connections.Sending.{Outcome, returned, connection_closed, send}

-- The text for a reply; none for `AsynReplyNotArrived`.
unfoldable pub text_of_reply : TaskInfo → CheckReply → Option String
text_of_reply t (arrived resp) = some resp
text_of_reply t not_arrived = none
text_of_reply t (dev_failed errs) = some (
    exception_string_out (record (error_info ErrorType.tango_exception) {
      error_messages = errs;
      typeof_req = t.type_req_str;
      id = t.id_req;
      device_name = t.device_name;
    }))

-- `for (auto& _dd : _del) { task.erase(_dd); }`
unfoldable pub erase_tasks : List ℕ → Dict ℕ TaskInfo → Dict ℕ TaskInfo
erase_tasks [] ts = ts
erase_tasks (id ∷ ids) ts = erase_tasks ids (erase id ts)

-- What a pass has made so far: the two lists, and the connections with their tasks.
pub record Pass : Type 0 where
  pub del_active_conn : List ℕ
  pub del_conn : List ℕ
  pub connections : Dict ℕ Connection

-- Behind that loop.
unfoldable pub after_each :
    {W : Type 0} → Dict ℕ TaskInfo → Option (List ℕ) × W → Option Bool × (Dict ℕ TaskInfo × W)
after_each ts (none, w) = (none, (ts, w))
after_each ts (some ids, w) = (some (is_nil (erase_tasks ids ts)), (erase_tasks ids ts, w))

-- Which list a connection goes to.
abbrev pub note : ℕ → Option Bool → Pass → Pass
note hdl none p = record p { del_conn = hdl ∷ p.del_conn }
note hdl (some true) p = record p { del_active_conn = hdl ∷ p.del_active_conn }
note hdl (some false) p = p

-- The two lists leave the active connections.
unfoldable pub end_pass : {W : Type 0} → WsThread → Option Pass × W → Option WsThread × W
end_pass st (none, w) = (none, w)
end_pass st (some p, w) = (
  some (
      close_connections p.del_conn
        (close_connections p.del_active_conn (record st { m_connections = p.connections }))),
  w,
)

-- `_del.push_back(_id)`.
abbrev pub add_if : Bool → ℕ → Option (List ℕ) → Option (List ℕ)
add_if goes id none = none
add_if goes id (some ids) = some (if goes then id ∷ ids else ids)

module _ {Tree W : Type 0} (io : Server W) (s : WsTangoConn) (tc : TangoConn Tree W) where
  -- One task: whether it goes; none where `ConnectionClosedException` leaves the loop.
  unfoldable pub after_answer : Outcome × W → Option Bool × W
  after_answer (returned, w) = (some true, w)
  after_answer (connection_closed, w) = (none, w)

  unfoldable pub with_text : ℕ → Option String → W → Option Bool × W
  with_text hdl none w = (some false, w)
  with_text hdl (some text) w = after_answer (send io s hdl text w)

  unfoldable pub check_task : ℕ → ℕ → TaskInfo → W → Option Bool × W
  check_task hdl id t w =
      let (reply, w') = tc.check_response (id, t) w in with_text hdl (text_of_reply t reply) w'

  -- The loop: `_del`.
  unfoldable pub check_each : ℕ → Dict ℕ TaskInfo → W → Option (List ℕ) × W
  check_each hdl [] w = (some [], w)
  check_each hdl ((id, t) ∷ ts) w =
      let (goes, w') = check_task hdl id t w in
      elim goes [
        | none ↦ (none, w')
        | some g ↦ let (ids, w'') = check_each hdl ts w' in (add_if g id ids, w'')
      ]

  -- `_checkRequests`: whether no task is left, none for `ConnectionClosedException`; the tasks.
  unfoldable pub check_requests : ℕ → Dict ℕ TaskInfo → W → Option Bool × (Dict ℕ TaskInfo × W)
  check_requests hdl ts w =
      if is_nil ts then (some true, (ts, w)) else after_each ts (check_each hdl ts w)

  -- The loop over `m_active_connections`.
  unfoldable pub pass_each : List ℕ → Dict ℕ Connection → W → Option Pass × W
  pass_each [] cs w = (some (record { del_active_conn = []; del_conn = []; connections = cs }), w)
  pass_each (hdl ∷ hdls) cs w = elim (lookup hdl cs) [
    | none ↦ (none, w)
    | some c ↦
        let (gone, (ts, w')) = check_requests hdl c.id_command_info w in
        let (p, w'') = pass_each hdls (assign hdl (record c { id_command_info = ts }) cs) w' in
        (elim p [ none ↦ none | some q ↦ some (note hdl gone q) ], w'')
  ]

  -- `_forCheckActions`.
  unfoldable pub for_check_actions : WsThread → W → Option WsThread × W
  for_check_actions st w = end_pass st (pass_each st.m_active_connections st.m_connections w)

  -- The inner loop of `checkActions`, on fuel, with the sleep between two passes.
  unfoldable pub check_actions : (W → W) → ℕ → WsThread → W → Option WsThread × W
  check_actions sleep zero st w = (some st, w)
  check_actions sleep (suc fuel) st w =
      if is_nil st.m_active_connections
      then (some st, w)
      else (let (next, w') = for_check_actions st w in
          elim next [ none ↦ (none, w') | some st' ↦ check_actions sleep fuel st' (sleep w') ])
