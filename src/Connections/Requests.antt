-- ===== src/Connections/Requests.antt =====
-- src/wstangoproc_common/WSThread.cpp and WSThread_plain.cpp: `on_message` for an open connection
-- follows no null pointer, and opens and closes none; nor does `send_all`.
use web_socket_ds.Base.{
  ◌≡◌, refl, ◌∙◌, ℕ, String, Bool, true, false, List, [], ◌∷◌, Option, some, if◌then◌else◌,
  nonempty, if_holds, Bool-cases, inl, inr,
}
use web_socket_ds.Base.Dict.{lookup, assign, nat_eq}
use web_socket_ds.Wire.{Mode}
use web_socket_ds.Wire.Kinds.{is_change_user, is_user_check_status}
use web_socket_ds.Request.{ParsedInputJson}
use web_socket_ds.StringProc.Response.{remove_symbols_for_string}
use web_socket_ds.UserControl.{UserData, Result, ok, runtime_error, other_exception}
use web_socket_ds.Session.Options.{WsTangoConn}
use web_socket_ds.Connections.{
  Handled, finished, escaped, null_pointer, TaskInfo, Called, gives, fails, escapes, Connection,
  WsThread, Server, TangoConn, member, insert, delete_from_active, going_away,
  internal_endpoint_error,
}
use web_socket_ds.Connections.Sending.{
  Outcome, returned, connection_closed, send, send_all, send_each, close_each,
}
use web_socket_ds.Connections.Opening.{set_user, put_tasks, add_active, insert_tasks}
use web_socket_ds.Connections.Messages.{
  send_second, send_errors, after_request, event_answers, invalid_message, on_request,
  with_connection, after_async, after_active, after_common, send_answers, send_or_drop, after_send,
  is_event_request, is_async_request, Answers,
}
use web_socket_ds.Connections.Active.{
  keys, Tracks, keys-assign_old, subset-insert_left, delete_from_active-Tracks,
}
use web_socket_ds.Connections.Collecting.{found}

-- It returned, or an exception left it, and it tracks these handles.
unfoldable pub Stands : {W : Type 0} → List ℕ → Handled W → Type 0
Stands handles (finished st w) = Tracks handles st
Stands handles (escaped st w) = Tracks handles st
Stands handles null_pointer = ⊥

module _ {W : Type 0} (io : Server W) (s : WsTangoConn) (handles : List ℕ) where
  after_send-Tracks :
      (h : ℕ) (st : WsThread) (o : Outcome) (w : W)
      → Tracks handles st
      → Tracks handles (after_send io s h st (o, w)).0
  unfolding after_send
  after_send-Tracks h st returned w good = good
  after_send-Tracks h st connection_closed w good = delete_from_active-Tracks handles h st good

  send_answers-Tracks :
      (h : ℕ) (answers : Answers) (st : WsThread) (w : W)
      → Tracks handles st
      → Tracks handles (send_answers io s h answers st w).0
  unfolding send_answers
  send_answers-Tracks h (resp, resp2) st w good =
      let r =
        send_second io s h resp2 (if nonempty resp then send io s h resp w else (returned, w)) in
      after_send-Tracks h st r.0 r.1 good

  send_or_drop-Tracks :
      (h : ℕ) (text : String) (st : WsThread) (w : W)
      → Tracks handles st
      → Tracks handles (send_or_drop io s h text st w).0
  unfolding send_or_drop
  send_or_drop-Tracks h text st w good =
      let r = send io s h text w in after_send-Tracks h st r.0 r.1 good

  close_each-Tracks :
      (rest : List (ℕ × String)) (st : WsThread) (w : W)
      → Tracks handles st
      → Tracks handles (close_each io s rest st w).0
  unfolding close_each
  close_each-Tracks [] st w good = good
  close_each-Tracks ((h, why) ∷ rest) st w good =
      close_each-Tracks rest (delete_from_active h st)
        (if nonempty why
          then io.close h internal_endpoint_error why w
          else io.close h going_away "buffer overloaded" w)
        (delete_from_active-Tracks handles h st good)

  pub send_all-Tracks :
      (locked : Bool) (msg : String) (st : WsThread) (w : W)
      → Tracks handles st
      → Tracks handles (send_all io s locked msg st w).0
  unfolding send_all
  send_all-Tracks false msg st w good = good
  send_all-Tracks true msg st w good =
      let r = send_each io s (remove_symbols_for_string msg) st.m_connections w in
      close_each-Tracks r.0 st r.1 good

-- A write to an open connection.
pub assign-Tracks :
    (handles : List ℕ) (h : ℕ) (c : Connection) (st : WsThread)
    → member h handles ≡ true
    → Tracks handles st
    → Tracks handles (record st { m_connections = assign h c st.m_connections })
unfolding Tracks
assign-Tracks handles h c st known (same, sub) =
    (keys-assign_old h c st.m_connections (rw same known) ∙ same, sub)

module _ (handles : List ℕ) (h : ℕ) (known : member h handles ≡ true) where
  abbrev Added : Option WsThread → Type 0
  Added o = (st : WsThread) × ((o ≡ some st) × Tracks handles st)

  abbrev with_tasks : List (ℕ × TaskInfo) → Connection → Connection
  with_tasks tasks c = record c { id_command_info = insert_tasks tasks c.id_command_info }

  put_tasks_found :
      (tasks : List (ℕ × TaskInfo)) (c : Connection) (st : WsThread)
      → lookup h st.m_connections ≡ some c
      → put_tasks h tasks st
        ≡ some (record st { m_connections = assign h (with_tasks tasks c) st.m_connections })
  unfolding put_tasks
  put_tasks_found tasks c st is_c = simp (is_c, put_tasks) refl

  put_tasks-Tracks :
      (tasks : List (ℕ × TaskInfo)) (c : Connection) (st : WsThread)
      → lookup h st.m_connections ≡ some c
      → Tracks handles st
      → Added (put_tasks h tasks st)
  put_tasks-Tracks tasks c st is_c good = (
    record st { m_connections = assign h (with_tasks tasks c) st.m_connections },
    (put_tasks_found tasks c st is_c, assign-Tracks handles h (with_tasks tasks c) st known good),
  )

  insert-Tracks :
      (st : WsThread)
      → Tracks handles st
      → Tracks handles (record st { m_active_connections = insert h st.m_active_connections })
  unfolding Tracks
  insert-Tracks st (same, sub) =
      (same, subset-insert_left h st.m_active_connections handles sub known)

  add_active-Tracks :
      (tasks : List (ℕ × TaskInfo)) (c : Connection) (st : WsThread)
      → lookup h st.m_connections ≡ some c
      → Tracks handles st
      → Added (add_active h tasks st)
  unfolding add_active
  add_active-Tracks tasks c st is_c good = elim (Bool-cases (member h st.m_active_connections)) [
    | inl active ↦ simp active (put_tasks-Tracks tasks c st is_c good)
    | inr idle ↦
        simp (idle, is_c)
          (put_tasks-Tracks tasks c
            (record st { m_active_connections = insert h st.m_active_connections }) is_c
            (insert-Tracks st good))
  ]

module _ {Tree W : Type 0} (io : Server W) (s : WsTangoConn) (tc : TangoConn Tree W) (mode : Mode)
    (handles : List ℕ) (h : ℕ) (known : member h handles ≡ true) where
  after_active-Stands :
      (errs : List String) (o : Option WsThread) (w : W)
      → Added handles h known o
      → Stands handles (after_active io s h errs o w)
  unfolding after_active Stands
  after_active-Stands errs o w (st, (is_st, good)) =
      let r = send_errors io s h errs w in
      rw is_st (after_send-Tracks io s handles h st r.0 r.1 good)

  after_async-Stands :
      (c : Connection) (st : WsThread) (r : Called (List (ℕ × TaskInfo) × List String)) (w : W)
      → lookup h st.m_connections ≡ some c
      → Tracks handles st
      → Stands handles (after_async io s h st (r, w))
  unfolding after_async Stands
  after_async-Stands c st (fails what) w is_c good =
      send_answers-Tracks io s handles h (what, "") st w good
  after_async-Stands c st escapes w is_c good = good
  after_async-Stands c st (gives ([], errs)) w is_c good =
      after_active-Stands errs (some st) w (st, (refl, good))
  after_async-Stands c st (gives (t ∷ tasks, errs)) w is_c good =
      after_active-Stands errs (add_active h (t ∷ tasks) st) w
        (add_active-Tracks handles h known (t ∷ tasks) c st is_c good)

  after_request-Stands :
      (st : WsThread) (r : Called String) (w : W)
      → Tracks handles st
      → Stands handles (after_request io s h st (r, w))
  unfolding after_request Stands
  after_request-Stands st (gives resp) w good =
      send_answers-Tracks io s handles h (resp, "") st w good
  after_request-Stands st (fails what) w good =
      send_answers-Tracks io s handles h (what, "") st w good
  after_request-Stands st escapes w good = good

  after_common-Stands :
      (c : Connection) (st : WsThread) (r : Result String × (UserData × W))
      → Tracks handles st
      → Stands handles (after_common io s h c st r)
  unfolding after_common Stands set_user
  after_common-Stands c st (ok resp, (user, w)) good =
      send_or_drop-Tracks io s handles h resp (set_user h c user st) w
        (assign-Tracks handles h (record c { user = user }) st known good)
  after_common-Stands c st (runtime_error what, (user, w)) good =
      assign-Tracks handles h (record c { user = user }) st known good
  after_common-Stands c st (other_exception, (user, w)) good =
      assign-Tracks handles h (record c { user = user }) st known good

  with_connection-Stands :
      (p : ParsedInputJson Tree) (c : Connection) (st : WsThread) (w : W)
      → lookup h st.m_connections ≡ some c
      → Tracks handles st
      → Stands handles (with_connection io s tc p h c st w)
  unfolding with_connection
  with_connection-Stands p c st w is_c good =
      if_holds (Stands handles) (is_user_check_status p.type_req) _ _
        (λ a. after_common-Stands c st (tc.common_requsts p c.user w) good)
        (λ a.
          if_holds (Stands handles) (is_change_user p.type_req) _ _
            (λ b. after_common-Stands c st (tc.common_requsts p c.user w) good)
            (λ b.
              if_holds (Stands handles) (is_async_request p.type_req) _ _
                (λ d.
                  let r = tc.send_request_async p c.user w in
                  after_async-Stands c st r.0 r.1 is_c good)
                (λ d. let r = tc.send_request p c.user w in after_request-Stands st r.0 r.1 good)))

  known_key : (st : WsThread) → Tracks handles st → member h (keys st.m_connections) ≡ true
  unfolding Tracks
  known_key st (same, sub) = rw same known

  pub on_request-Stands :
      (p : ParsedInputJson Tree) (st : WsThread) (w : W)
      → Tracks handles st
      → Stands handles (on_request io s tc mode p h st w)
  unfolding on_request Stands
  on_request-Stands p st w good =
      if_holds (Stands handles) p.is_valid _ _
        (λ valid.
          if_holds (Stands handles) (is_event_request mode p) _ _
            (λ event.
              let r = tc.send_request_event h p w in
              send_answers-Tracks io s handles h (event_answers r.0) st r.1 good)
            (λ other.
              let (c, is_c) = found h st.m_connections (known_key st good) in
              rw is_c (with_connection-Stands p c st w is_c good)))
        (λ invalid. send_or_drop-Tracks io s handles h (invalid_message p) st w good)
