-- ===== src/Connections/Sending.antt =====
-- src/wstangoproc_common/WSThread_plain.cpp: `send`, `send_all` and `close_from_server`.
use web_socket_ds.Base.{
  ℕ, String, Bool, true, false, List, [], ◌∷◌, Option, none, some, ◌<>◌, if◌then◌else◌, ltb,
  nonempty,
}
use web_socket_ds.Base.Dict.{Dict}
use web_socket_ds.StringProc.Response.{remove_symbols_for_string}
use web_socket_ds.Session.Options.{WsTangoConn, max_buff_size}
use web_socket_ds.Connections.{
  Connection, WsThread, Thrown, exception, unknown_exception, Buffered, amount, throws, CloseCode,
  going_away, internal_endpoint_error, Server, delete_from_active,
}

-- `send` returns, or throws `ConnectionClosedException`.
pub data Outcome : Type 0 where
  returned connection_closed : Outcome

abbrev pub is_returned : Outcome → Bool
is_returned returned = true
is_returned connection_closed = false

unfoldable pub reason_of : Thrown → String
reason_of (exception what) = "exception from send: " <> what
reason_of unknown_exception = "unknown error from send"

unfoldable pub reason_of_all : Thrown → String
reason_of_all (exception what) = "exception from send_all: " <> what
reason_of_all unknown_exception = "unknown error from send_all "

module _ {W : Type 0} (io : Server W) (s : WsTangoConn) where
  -- `close_from_server` always throws.
  unfoldable pub close_from_server : ℕ → CloseCode → String → W → Outcome × W
  close_from_server hdl code reason w = (connection_closed, io.close hdl code reason w)

  unfoldable pub after_send : ℕ → Option Thrown × W → Outcome × W
  after_send hdl (none, w) = (returned, w)
  after_send hdl (some t, w) = close_from_server hdl internal_endpoint_error (reason_of t) w

  unfoldable pub with_buffered : ℕ → String → Buffered → W → Outcome × W
  with_buffered hdl msg (throws t) w = close_from_server hdl internal_endpoint_error (reason_of t) w
  with_buffered hdl msg (amount n) w =
      if ltb n (max_buff_size s)
      then after_send hdl (io.send_text hdl (remove_symbols_for_string msg) w)
      else close_from_server hdl going_away "buffer overloaded" w

  unfoldable pub send : ℕ → String → W → Outcome × W
  send hdl msg w =
      if io.expired hdl w then (returned, w) else with_buffered hdl msg (io.buffered_amount hdl w) w

  -- One connection of `send_all`: none, or why it has to be closed; `""` for a full buffer.
  unfoldable pub reason_after : Option Thrown × W → Option String × W
  reason_after (none, w) = (none, w)
  reason_after (some t, w) = (some (reason_of_all t), w)

  unfoldable pub send_buffered : ℕ → String → Buffered → W → Option String × W
  send_buffered hdl msg (throws t) w = (some (reason_of_all t), w)
  send_buffered hdl msg (amount n) w =
      if ltb n (max_buff_size s) then reason_after (io.send_text hdl msg w) else (some "", w)

  unfoldable pub note_close : ℕ → Option String → List (ℕ × String) × W → List (ℕ × String) × W
  note_close hdl none rest = rest
  note_close hdl (some why) (for_close, w) = ((hdl, why) ∷ for_close, w)

  -- The loop over the connections: those to close, with the reason.
  unfoldable pub send_each : String → Dict ℕ Connection → W → List (ℕ × String) × W
  send_each msg [] w = ([], w)
  send_each msg ((hdl, c) ∷ cs) w =
      let (why, w') = send_buffered hdl msg (io.buffered_amount hdl w) w in
      note_close hdl why (send_each msg cs w')

  unfoldable pub close_each : List (ℕ × String) → WsThread → W → WsThread × W
  close_each [] st w = (st, w)
  close_each ((hdl, why) ∷ rest) st w = close_each rest (delete_from_active hdl st) (
      if nonempty why
      then io.close hdl internal_endpoint_error why w
      else io.close hdl going_away "buffer overloaded" w)

  -- `send_all`; nothing is sent where the lock is taken, which is what `locked` says.
  unfoldable pub send_all : Bool → String → WsThread → W → WsThread × W
  send_all false msg st w = (st, w)
  send_all true msg st w =
      let (for_close, w') = send_each (remove_symbols_for_string msg) st.m_connections w in
      close_each for_close st w'
