-- ===== src/Connections/Safe.antt =====
-- src/wstangoproc_common/WSThread.cpp: the handlers over any history that websocketpp can make:
-- a connection is opened once, and its messages and its end come while it is open.
use web_socket_ds.Base.{
  ◌≡◌, refl, ◌∙◌, ap, ℕ, String, Bool, true, List, [], ◌∷◌, Option, none, some, if◌then◌else◌,
  nonempty, arith, if_holds,
}
use web_socket_ds.Base.Dict.{nat_eq}
use web_socket_ds.Wire.{Mode}
use web_socket_ds.Request.{ParsedInputJson}
use web_socket_ds.UserControl.{Result, ok, runtime_error, other_exception}
use web_socket_ds.Session.Options.{WsTangoConn}
use web_socket_ds.Connections.{
  Handled, finished, escaped, null_pointer, finished_with, WsThread, Server, TangoConn, member,
  insert, without, delete_from_active,
}
use web_socket_ds.Connections.Sending.{Outcome, returned, connection_closed, send, send_all}
use web_socket_ds.Connections.Opening.{
  set_user, open_connection, new_connection, after_check, after_greeting, count_connections,
  on_open, on_close,
}
use web_socket_ds.Connections.Checking.{for_check_actions}
use web_socket_ds.Connections.Active.{
  keys, subset, Tracks, keys-assign, keys-erase, subset-insert, member-insert, without_absent,
  subset-without, delete_from_active-Tracks,
}
use web_socket_ds.Connections.Collecting.{Returns, for_check_actions-Returns}
use web_socket_ds.Connections.Messages.{on_request}
use web_socket_ds.Connections.Requests.{Stands, send_all-Tracks, assign-Tracks, on_request-Stands}

-- What reaches WSThread: the calls of websocketpp, with `unset` as in `get_connection_data` and
-- the request that the message holds; a pass of the thread that collects answers; and a text for
-- all clients, with the outcome of `try_lock`.
pub data Arrival (Tree : Type 0) : Type 0 where
  opens : Bool → ℕ → Arrival Tree
  sends : ParsedInputJson Tree → ℕ → Arrival Tree
  closes : ℕ → Arrival Tree
  collects : Arrival Tree
  broadcasts : Bool → String → Arrival Tree

-- The handles that are open afterwards; none where websocketpp makes no such call.
unfoldable pub open_after : {Tree : Type 0} → Arrival Tree → List ℕ → Option (List ℕ)
open_after (opens unset h) handles = if member h handles then none else some (insert h handles)
open_after (sends p h) handles = if member h handles then some handles else none
open_after (closes h) handles = if member h handles then some (without h handles) else none
open_after collects handles = some handles
open_after (broadcasts locked msg) handles = some handles

unfoldable pub open_after_all : {Tree : Type 0} → List (Arrival Tree) → List ℕ → Option (List ℕ)
open_after_all [] handles = some handles
open_after_all (a ∷ rest) handles = elim (open_after a handles) [
  | none ↦ none
  | some handles' ↦ open_after_all rest handles'
]

unfoldable pub no_connections : WsThread
no_connections = record { m_connections = []; m_active_connections = []; m_next_sessionid = 1 }

module _ {Tree W : Type 0} (io : Server W) (s : WsTangoConn) (tc : TangoConn Tree W)
    (mode : Mode) where
  abbrev pass_result : Option WsThread × W → Handled W
  pass_result (none, w) = null_pointer
  pass_result (some st, w) = finished st w

  unfoldable pub handle : Arrival Tree → WsThread → W → Handled W
  handle (opens unset h) st w = on_open io s tc unset h st w
  handle (sends p h) st w = on_request io s tc mode p h st w
  handle (closes h) st w = finished_with (on_close io s tc mode h st w)
  handle collects st w = pass_result (for_check_actions io s tc st w)
  handle (broadcasts locked msg) st w = finished_with (send_all io s locked msg st w)

  -- An exception out of a handler ends the server's loop.
  unfoldable pub handle_all : List (Arrival Tree) → WsThread → W → Handled W
  handle_all [] st w = finished st w
  handle_all (a ∷ rest) st w = elim (handle a st w) [
    | finished st' w' ↦ handle_all rest st' w'
    | escaped st' w' ↦ escaped st' w'
    | null_pointer ↦ null_pointer
  ]

  abbrev continue : List (Arrival Tree) → Handled W → Handled W
  continue rest r = elim r [
    | finished st' w' ↦ handle_all rest st' w'
    | escaped st' w' ↦ escaped st' w'
    | null_pointer ↦ null_pointer
  ]

module _ {Tree W : Type 0} (io : Server W) (s : WsTangoConn) (tc : TangoConn Tree W) (mode : Mode)
    (handles : List ℕ) where
  after_greeting-Tracks :
      (h : ℕ) (st : WsThread) (o : Outcome) (w : W)
      → Tracks handles st
      → Tracks handles (after_greeting io s tc h st (o, w)).0
  unfolding after_greeting count_connections
  after_greeting-Tracks h st returned w good = good
  after_greeting-Tracks h st connection_closed w good = delete_from_active-Tracks handles h st good

  after_check-Stands :
      (h : ℕ) (st : WsThread) (result : Result (Unit {0})) (w : W)
      → Tracks handles st
      → Stands handles (after_check io s tc h st result w)
  unfolding after_check count_connections Stands
  after_check-Stands h st (ok u) w good = good
  after_check-Stands h st other_exception w good = good
  after_check-Stands h st (runtime_error what) w good =
      if_holds (λ (r : WsThread × W). Tracks handles r.0) (nonempty what) _ _
        (λ a. let r = send io s h what w in after_greeting-Tracks h st r.0 r.1 good) (λ a. good)

module _ {Tree W : Type 0} (io : Server W) (s : WsTangoConn) (tc : TangoConn Tree W) (mode : Mode)
    (handles : List ℕ) where
  open_connection-Tracks :
      (unset : Bool) (h : ℕ) (st : WsThread) (w : W)
      → Tracks handles st
      → Tracks (insert h handles) (open_connection io s tc unset h st w)
  unfolding Tracks open_connection
  open_connection-Tracks unset h st w (same, sub) = (
    keys-assign h (new_connection io s tc unset h st.m_next_sessionid w) st.m_connections
        ∙ ap (insert h) same,
    subset-insert h st.m_active_connections handles sub,
  )

  on_close-Tracks :
      (h : ℕ) (st : WsThread) (w : W)
      → Tracks handles st
      → Tracks (without h handles) (on_close io s tc mode h st w).0
  unfolding Tracks on_close count_connections delete_from_active
  on_close-Tracks h st w (same, sub) = ground (
    arith,
    keys-erase h st.m_connections,
    subset-without h st.m_active_connections handles,
    without_absent h st.m_active_connections,
  )

  opened :
      (h : ℕ) (handles' : List ℕ)
      → (if member h handles then none else some (insert h handles)) ≡ some handles'
      → handles' ≡ insert h handles
  opened h handles' allowed = ground arith

  messaged :
      (h : ℕ) (handles' : List ℕ)
      → (if member h handles then some handles else none) ≡ some handles'
      → (member h handles ≡ true) × (handles' ≡ handles)
  messaged h handles' allowed = ground arith

  closed :
      (h : ℕ) (handles' : List ℕ)
      → (if member h handles then some (without h handles) else none) ≡ some handles'
      → handles' ≡ without h handles
  closed h handles' allowed = ground arith

  unchanged : (handles' : List ℕ) → some handles ≡ some handles' → handles' ≡ handles
  unchanged handles' allowed = ground arith

  inserted : (h : ℕ) → member h (insert h handles) ≡ true
  inserted h = ground (arith, member-insert h h handles, nat_eq.beq_iff h h)

  on_open-Stands :
      (unset : Bool) (h : ℕ) (st : WsThread) (w : W)
      → Tracks handles st
      → Stands (insert h handles) (on_open io s tc unset h st w)
  unfolding on_open set_user
  on_open-Stands unset h st w good =
      let c = new_connection io s tc unset h st.m_next_sessionid w in
      let r = tc.check_user c.user w in
      after_check-Stands io s tc mode (insert h handles) h
        (set_user h c r.1.0 (open_connection io s tc unset h st w)) r.0 r.1.1
        (assign-Tracks (insert h handles) h (record c { user = r.1.0 })
          (open_connection io s tc unset h st w) (inserted h)
          (open_connection-Tracks unset h st w good))

  handle-Stands :
      (a : Arrival Tree) (handles' : List ℕ) (st : WsThread) (w : W)
      → open_after a handles ≡ some handles'
      → Tracks handles st
      → Stands handles' (handle io s tc mode a st w)
  unfolding handle open_after Stands Returns
  handle-Stands (opens unset h) handles' st w allowed good =
      rw (opened h handles' allowed) (on_open-Stands unset h st w good)
  handle-Stands (sends p h) handles' st w allowed good =
      let (known, same) = messaged h handles' allowed in
      rw same (on_request-Stands io s tc mode handles h known p st w good)
  handle-Stands (closes h) handles' st w allowed good =
      rw (closed h handles' allowed) (on_close-Tracks h st w good)
  handle-Stands collects handles' st w allowed good =
      let (st', (is_st, good')) = for_check_actions-Returns io s tc handles st w good in
      rw (unchanged handles' allowed) (rw is_st good')
  handle-Stands (broadcasts locked msg) handles' st w allowed good =
      rw (unchanged handles' allowed) (send_all-Tracks io s handles locked msg st w good)

chained :
    {A B : Type 0} (o : Option A) (f : A → Option B) (y : B)
    → elim o [ none ↦ none | some x ↦ f x ] ≡ some y
    → (x : A) × ((o ≡ some x) × (f x ≡ some y))
chained none f y h = ground arith
chained (some x) f y h = (x, (refl, h))

-- The handlers came to the end and track these handles, or an exception left one of them, and the
-- connections that were open then are tracked.
unfoldable pub Survives : {W : Type 0} → List ℕ → Handled W → Type 0
Survives handles (finished st w) = Tracks handles st
Survives handles (escaped st w) = (open_then : List ℕ) × Tracks open_then st
Survives handles null_pointer = ⊥

module _ {Tree W : Type 0} (io : Server W) (s : WsTangoConn) (tc : TangoConn Tree W)
    (mode : Mode) where
  handle_rest :
      (rest : List (Arrival Tree)) (next after : List ℕ) (r : Handled W)
      → ((st : WsThread)
          → (w : W) → Tracks next st
          → Survives after (handle_all io s tc mode rest st w))
      → Stands next r
      → Survives after (continue io s tc mode rest r)
  unfolding Stands Survives
  handle_rest rest next after (finished st w) later good = later st w good
  handle_rest rest next after (escaped st w) later good = (next, good)
  handle_rest rest next after null_pointer later good = good

  handle_all-Tracks :
      (arrivals : List (Arrival Tree)) (before after : List ℕ) (st : WsThread) (w : W)
      → open_after_all arrivals before ≡ some after
      → Tracks before st
      → Survives after (handle_all io s tc mode arrivals st w)
  unfolding open_after_all handle_all Survives
  handle_all-Tracks [] before after st w allowed good =
      rw (unchanged io s tc mode before after allowed) good
  handle_all-Tracks (a ∷ rest) before after st w allowed good =
      let (next, (is_next, later)) =
        chained (open_after a before) (λ hs. open_after_all rest hs) after allowed in
      handle_rest rest next after (handle io s tc mode a st w)
        (λ st' w' good'. handle_all-Tracks rest next after st' w' later good')
        (handle-Stands io s tc mode before a next st w is_next good)

  -- Over any history that websocketpp can make (a connection is opened once, and sends and closes
  -- while it is open), with passes of the thread that collects answers and texts for all clients
  -- anywhere between, whatever Tango, AuthDS and the clients answer: no handler follows the null
  -- pointer of a connection that is gone; and at the end, or when an exception leaves a handler,
  -- the connections of the program are the open ones, and only those are active.
  pub handle_all-Survives :
      (arrivals : List (Arrival Tree)) (handles : List ℕ) (w : W)
      → open_after_all arrivals [] ≡ some handles
      → Survives handles (handle_all io s tc mode arrivals no_connections w)
  unfolding Tracks keys no_connections subset
  handle_all-Survives arrivals handles w allowed =
      handle_all-Tracks arrivals [] handles no_connections w allowed (refl, refl)
