-- ===== src/Connections.antt =====
-- src/wstangoproc_common/WSThread.h, ConnectionData.h and TaskInfo.h: the open connections with
-- the requests that they wait for. `Server` is websocketpp; `TangoConn` is the interface that
-- WSThread uses of WSTangoConnCli or WSTangoConnSer.
pub mod Sending
pub mod Opening
pub mod Checking
pub mod Messages
pub mod Active
pub mod Collecting
pub mod Requests
pub mod Safe
pub mod Tasks
pub mod Waiting
pub mod Time
pub mod LastPass
pub mod Settled
pub mod Address
use web_socket_ds.Base.{
  ℕ, String, Bool, true, false, not, List, [], ◌∷◌, ◌++◌, Option, ◌||◌, nat_beq, if◌then◌else◌,
}
use web_socket_ds.Base.Dict.{Dict}
use web_socket_ds.Wire.{TypeWsReq, SingleOrGroup}
use web_socket_ds.Request.{ParsedInputJson}
use web_socket_ds.UserControl.{Result, UserData}
use web_socket_ds.Events.Reply.{EventReply}

pub record UserOptions : Type 0 where
  pub precision : String
  pub precisions : Dict String String
  pub is_json_string : Bool

-- `device_for_ws` stands for the pointer of the client build: the device it is a proxy of.
pub record TaskInfo : Type 0 where
  pub id_req : String
  pub device_name : String
  pub user_options : UserOptions
  pub group_pattern : String
  pub type_req_str : String
  pub req_name : String
  pub req_names : List String
  pub single_or_group : SingleOrGroup
  pub type_asynq_req : TypeWsReq
  pub device_for_ws : String

-- What `ConnectionData` holds, its user apart.
pub record Connection : Type 0 where
  pub user : UserData
  pub session_id : ℕ
  pub id_command_info : Dict ℕ TaskInfo

pub record WsThread : Type 0 where
  pub m_connections : Dict ℕ Connection
  pub m_active_connections : List ℕ
  pub m_next_sessionid : ℕ

-- What a call of websocketpp throws: an exception with a text, or anything else.
pub data Thrown : Type 0 where
  exception : String → Thrown
  unknown_exception : Thrown

pub data Buffered : Type 0 where
  amount : ℕ → Buffered
  throws : Thrown → Buffered

pub data CloseCode : Type 0 where
  going_away internal_endpoint_error : CloseCode

-- websocketpp over the state `W` of everything outside the program: whether a handle has expired,
-- what is buffered for a connection, sending a text, closing, and what its request brought: the
-- remote endpoint, the header X-Forwarded-For and the query.
pub record Server (W : Type 0) : Type 0 where
  pub expired : ℕ → W → Bool
  pub buffered_amount : ℕ → W → Buffered
  pub send_text : ℕ → String → W → Option Thrown × W
  pub close : ℕ → CloseCode → String → W → W
  pub remote_endpoint : ℕ → W → String
  pub forwarded_for : ℕ → W → String
  pub query : ℕ → W → String

-- What `checkResponse` comes to: a text, `AsynReplyNotArrived`, or the texts of a `DevFailed`.
pub data CheckReply : Type 0 where
  arrived : String → CheckReply
  not_arrived : CheckReply
  dev_failed : List String → CheckReply

-- What a request comes to: a value, the text of a `runtime_error`, or an exception of another kind,
-- which `on_message` does not catch.
pub data Called (A : Type 0) : Type 0 where
  gives : A → Called A
  fails : String → Called A
  escapes : Called A

-- What a handler comes to: it returns, an exception leaves it, or it would follow a null pointer.
pub data Handled (W : Type 0) : Type 0 where
  finished : WsThread → W → Handled W
  escaped : WsThread → W → Handled W
  null_pointer : Handled W

abbrev pub finished_with : {W : Type 0} → WsThread × W → Handled W
finished_with (st, w) = finished st w

-- `sendRequestAsync` returns the tasks and the errors of the members of a group.
pub record TangoConn (Tree W : Type 0) : Type 0 where
  pub check_user : UserData → W → Result (Unit {0}) × (UserData × W)
  pub common_requsts : ParsedInputJson Tree → UserData → W → Result String × (UserData × W)
  pub send_request_async :
      ParsedInputJson Tree → UserData → W → Called (List (ℕ × TaskInfo) × List String) × W
  pub send_request : ParsedInputJson Tree → UserData → W → Called String × W
  pub send_request_event : ℕ → ParsedInputJson Tree → W → EventReply × W
  pub check_response : ℕ × TaskInfo → W → CheckReply × W
  pub client_disconnected : ℕ → W → W
  pub set_num_of_connections : ℕ → W → W

-- `set.find(hdl) != end()`.
unfoldable pub member : ℕ → List ℕ → Bool
member h [] = false
member h (k ∷ ks) = nat_beq k h || member h ks

-- `set.insert(hdl)`.
unfoldable pub insert : ℕ → List ℕ → List ℕ
insert h ks = if member h ks then ks else ks ++ h ∷ []

-- `set.erase(hdl)`.
unfoldable pub without : ℕ → List ℕ → List ℕ
without h [] = []
without h (k ∷ ks) = if nat_beq k h then without h ks else k ∷ without h ks

-- `_deleteFromActiveConnections`.
unfoldable pub delete_from_active : ℕ → WsThread → WsThread
delete_from_active hdl s =
    if member hdl s.m_active_connections
    then record s { m_active_connections = without hdl s.m_active_connections }
    else s

-- `closeConnections`, and the loop over `_del_active_conn`, which has the same body.
unfoldable pub close_connections : List ℕ → WsThread → WsThread
close_connections [] s = s
close_connections (h ∷ hs) s = close_connections hs (delete_from_active h s)
