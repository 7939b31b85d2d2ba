-- ===== src/Client/Escapes.antt =====
-- src/wstangoproc_common/WSThread.cpp and src/wstangoproc_cli/WSTangoConnCli.cpp: which requests can
-- make an exception leave `on_message`, which ends the loop of the server.
use web_socket_ds.Base.{
  ◌≡◌, refl, ℕ, String, Bool, true, false, List, Option, none, some, arith, if◌then◌else◌, if_holds,
  is_nil, Option-cases, inl, inr,
}
use web_socket_ds.Base.Dict.{lookup, nat_eq}
use web_socket_ds.Wire.{client_mode, TypeWsReq}
use web_socket_ds.Wire.Kinds.{is_change_user, is_user_check_status}
use web_socket_ds.Request.{ParsedInputJson, value_at}
use web_socket_ds.UserControl.{AuthDs, UserData, Result, ok, runtime_error, other_exception}
use web_socket_ds.UserControl.Permission.{is_ok, escapes as reply_escapes}
use web_socket_ds.UserControl.Calm.{is_other}
use web_socket_ds.Session.Calm.{check_permission_for_request_safe, common_requsts_safe}
use web_socket_ds.Session.Options.{WsTangoConn}
use web_socket_ds.Events.State.{Tango}
use web_socket_ds.Connections.{
  Handled, escaped, Called, gives, fails, escapes, Connection, WsThread, Server,
}
use web_socket_ds.Connections.Opening.{add_active}
use web_socket_ds.Connections.Messages.{
  after_active, after_common, after_async, after_request, with_connection, on_request,
  is_event_request, is_async_request,
}
use web_socket_ds.Devices.{Formats, got, dev_failed, Devices}
use web_socket_ds.Devices.Sendable.{is_escape}
use web_socket_ds.Devices.Asking.{Tasks}
use web_socket_ds.Client.{
  ClientWorld, is_group_req, when_permitted, permitted, send_dev_or_gr, send_request_async,
  send_request_pipe_comm, send_request, client,
}
use web_socket_ds.Client.Pipes.{read_of_device, after_pipe}
use web_socket_ds.Client.Contained.{is_read_or_command, dev_or_gr_safe}

abbrev pub is_escaped : {W : Type 0} → Handled W → Bool
is_escaped (escaped st w) = true
is_escaped _ = false

abbrev pub can_escape : TypeWsReq → Bool
can_escape kind = elim kind [
  | TypeWsReq.attribute_write ↦ true
  | TypeWsReq.pipe_comm ↦ true
  | _ ↦ false
]

module _ {W : Type 0} (io : Server W) (s : WsTangoConn) (h : ℕ) where
  after_active_safe :
      (errs : List String) (o : Option WsThread) (w : W)
      → is_escaped (after_active io s h errs o w) ≡ false
  unfolding after_active
  after_active_safe errs none w = refl
  after_active_safe errs (some st) w = refl

  after_async_safe :
      (st : WsThread) (r : Called (Tasks × List String)) (w : W)
      → is_escape r ≡ false
      → is_escaped (after_async io s h st (r, w)) ≡ false
  unfolding after_async
  after_async_safe st (gives (tasks, errs)) w safe =
      after_active_safe errs (if is_nil tasks then some st else add_active h tasks st) w
  after_async_safe st (fails what) w safe = refl
  after_async_safe st escapes w safe = safe

  after_common_safe :
      (c : Connection) (st : WsThread) (r : Result String) (user : UserData) (w : W)
      → is_ok r ≡ true
      → is_escaped (after_common io s h c st (r, (user, w))) ≡ false
  unfolding after_common
  after_common_safe c st (ok resp) user w safe = refl
  after_common_safe c st (runtime_error what) user w safe = cc safe
  after_common_safe c st other_exception user w safe = cc safe

  after_request_safe :
      (st : WsThread) (r : Called String) (w : W)
      → is_escape r ≡ false
      → is_escaped (after_request io s h st (r, w)) ≡ false
  unfolding after_request
  after_request_safe st (gives resp) w safe = refl
  after_request_safe st (fails what) w safe = refl
  after_request_safe st escapes w safe = safe

module _ (a : AuthDs) (t : Tango)
    (calm : (name : String) (args : List String) (w : a.World)
      → reply_escapes (a.command_inout name args w).0 ≡ false)
    {F Tree : Type 0} (f : Formats F) (d : Devices F t.World)
    (children : Tree → List (String × String)) (s : WsTangoConn) (unset : ℕ)
    (p : ParsedInputJson Tree) where
  send_dev_or_gr_safe :
      (kind : TypeWsReq) (w : ClientWorld a t)
      → p.type_req ≡ kind
      → is_read_or_command kind ≡ true
      → is_escape (send_dev_or_gr a t f d children s unset p w).0 ≡ false
  unfolding send_dev_or_gr
  send_dev_or_gr_safe kind w is_kind safe =
      dev_or_gr_safe f d children p kind is_kind safe (value_at p "device_name") (is_group_req p)
        w.tango

  permitted_safe :
      (r : Result String) (w : ClientWorld a t)
      → p.type_req ≡ TypeWsReq.command
      → is_other r ≡ false
      → is_escape (when_permitted a t f d children s unset p (r, w)).0 ≡ false
  unfolding when_permitted
  permitted_safe (ok mess) w is_kind safe = send_dev_or_gr_safe TypeWsReq.command w is_kind refl
  permitted_safe (runtime_error what) w is_kind safe = refl
  permitted_safe other_exception w is_kind safe = cc safe

  async_safe :
      (kind : TypeWsReq) (conn : UserData) (w : ClientWorld a t)
      → p.type_req ≡ kind
      → can_escape kind ≡ false
      → is_async_request kind ≡ true
      → is_escape (send_request_async a t f d children s unset p conn w).0 ≡ false
  unfolding send_request_async is_async_request permitted
  async_safe TypeWsReq.command conn w is_kind contained async =
      let r = permitted a t f d children s unset p conn w in
      simp (is_kind, send_request_async)
        (permitted_safe r.0 r.1 is_kind (
          check_permission_for_request_safe a calm s p conn (value_at p "device_name")
            (is_group_req p) w.auth))
  async_safe TypeWsReq.attribute_read conn w is_kind contained async =
      simp (is_kind, send_request_async)
        (send_dev_or_gr_safe TypeWsReq.attribute_read w is_kind refl)
  async_safe _ conn w is_kind contained async = ground arith

  send_request_safe :
      (kind : TypeWsReq) (conn : UserData) (w : ClientWorld a t)
      → p.type_req ≡ kind
      → can_escape kind ≡ false
      → is_escape (send_request a t f d children s unset p conn w).0 ≡ false
  unfolding send_request
  send_request_safe TypeWsReq.pipe_comm conn w is_kind contained = ground arith
  send_request_safe _ conn w is_kind contained = rw (is_kind, send_request) refl

  connection_safe :
      (io : Server (ClientWorld a t)) (kind : TypeWsReq) (h : ℕ) (c : Connection) (st : WsThread)
      (w : ClientWorld a t)
      → p.type_req ≡ kind
      → can_escape kind ≡ false
      → is_escaped (with_connection io s (client a t f d children s unset) p h c st w) ≡ false
  unfolding with_connection client
  connection_safe io kind h c st w is_kind contained =
      let Safe = λ (r : Handled (ClientWorld a t)). is_escaped r ≡ false in
      let asked = (client a t f d children s unset).common_requsts p c.user w in
      let about_user =
        after_common_safe io s h c st asked.0 asked.1.0 asked.1.1
          (common_requsts_safe a calm s p c.user w.auth) in
      if_holds Safe (is_user_check_status p.type_req) _ _ (λ x. about_user)
        (λ x.
          if_holds Safe (is_change_user p.type_req) _ _ (λ y. about_user)
            (λ y.
              if_holds Safe (is_async_request p.type_req) _ _
                (λ async.
                  let r = send_request_async a t f d children s unset p c.user w in
                  after_async_safe io s h st r.0 r.1
                    (async_safe kind c.user w is_kind contained (rw (← is_kind) async)))
                (λ sync.
                  let r = send_request a t f d children s unset p c.user w in
                  after_request_safe io s h st r.0 r.1
                    (send_request_safe kind c.user w is_kind contained))))

  -- In the client build, where the commands of AuthDS answer or end in a `DevFailed`, only a write
  -- and the reading of a pipe can make an exception leave `on_message`: every other request, in
  -- whatever state of the connections and however Tango and the client's endpoint answer, ends
  -- inside.
  pub on_request_contained :
      (io : Server (ClientWorld a t)) (kind : TypeWsReq) (h : ℕ) (st : WsThread)
      (w : ClientWorld a t)
      → p.type_req ≡ kind
      → can_escape kind ≡ false
      → is_escaped (on_request io s (client a t f d children s unset) client_mode p h st w) ≡ false
  unfolding on_request client
  on_request_contained io kind h st w is_kind contained =
      let Safe = λ (r : Handled (ClientWorld a t)). is_escaped r ≡ false in
      if_holds Safe p.is_valid _ _
        (λ valid.
          if_holds Safe (is_event_request client_mode p) _ _ (λ event. refl)
            (λ other. elim (Option-cases (lookup h st.m_connections)) [
              | inl missing ↦ rw missing refl
              | inr (c, is_c) ↦ rw is_c (connection_safe io kind h c st w is_kind contained)
            ]))
        (λ invalid. refl)

module _ (a : AuthDs) (t : Tango) {F Tree : Type 0} (f : Formats F) (d : Devices F t.World)
    (children : Tree → List (String × String)) (s : WsTangoConn) (unset : ℕ)
    (p : ParsedInputJson Tree) where
  pipe_escapes :
      (w u v : t.World) (errs : List String)
      → is_group_req p ≡ false
      → d.new_proxy (value_at p "device_name") w ≡ (got tt, u)
      → d.read_pipe (value_at p "device_name") (value_at p "pipe_name") u ≡ (dev_failed errs, v)
      → send_request_pipe_comm a t f d children s unset p w ≡ (escapes, v)
  unfolding send_request_pipe_comm read_of_device after_pipe
  pipe_escapes w u v errs one_device made failed = rw (one_device, made, failed) refl

  send_request_pipe :
      (conn : UserData) (w : ClientWorld a t) (v : t.World)
      → p.type_req ≡ TypeWsReq.pipe_comm
      → send_request_pipe_comm a t f d children s unset p w.tango ≡ (escapes, v)
      → send_request a t f d children s unset p conn w ≡ (escapes, record w { tango = v })
  unfolding send_request
  send_request_pipe conn w v is_kind out = simp (is_kind, send_request, out) refl

  connection_pipe :
      (io : Server (ClientWorld a t)) (h : ℕ) (c : Connection) (st : WsThread) (w : ClientWorld a t)
      (v : t.World)
      → p.type_req ≡ TypeWsReq.pipe_comm
      → send_request_pipe_comm a t f d children s unset p w.tango ≡ (escapes, v)
      → is_escaped (with_connection io s (client a t f d children s unset) p h c st w) ≡ true
  unfolding with_connection client after_request is_async_request
  connection_pipe io h c st w v is_kind out =
      simp (is_kind, send_request_pipe c.user w v is_kind out) refl

  -- A client that asks for a pipe of one device, whoever it is, when the device refuses the pipe
  -- (it has none of that name, or does not answer), makes an exception leave `on_message`.
  pub on_request_pipe_escape :
      (io : Server (ClientWorld a t)) (h : ℕ) (c : Connection) (st : WsThread) (w : ClientWorld a t)
      (u v : t.World) (errs : List String)
      → p.is_valid ≡ true
      → p.type_req ≡ TypeWsReq.pipe_comm
      → is_event_request client_mode p ≡ false
      → lookup h st.m_connections ≡ some c
      → is_group_req p ≡ false
      → d.new_proxy (value_at p "device_name") w.tango ≡ (got tt, u)
      → d.read_pipe (value_at p "device_name") (value_at p "pipe_name") u ≡ (dev_failed errs, v)
      → is_escaped (on_request io s (client a t f d children s unset) client_mode p h st w) ≡ true
  unfolding on_request
  on_request_pipe_escape io h c st w u v errs valid is_kind other is_c one_device made failed =
      simp (valid, other, is_c)
        (connection_pipe io h c st w v is_kind
          (pipe_escapes w.tango u v errs one_device made failed))
