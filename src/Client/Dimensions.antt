-- ===== src/Client/Dimensions.antt =====
-- src/wstangoproc_common/TangoProcessor.cpp and src/wstangoproc_cli/WSTangoConnCli.cpp: a write whose
-- dimensions `std::stoi` does not read, on its way through `on_message`.
use web_socket_ds.Base.{
  ◌≡◌, refl, ℕ, String, Bool, true, false, not, ◌&&◌, ◌||◌, List, Option, none, some, arith,
  if◌then◌else◌, is_some, length,
}
use web_socket_ds.Base.Int.{ℤ, stoi}
use web_socket_ds.Base.Dict.{lookup, nat_eq}
use web_socket_ds.Wire.{client_mode, TypeWsReq, single}
use web_socket_ds.Request.{ParsedInputJson, is_value, check_key, value_at}
use web_socket_ds.UserControl.{AuthDs, UserData, ok}
use web_socket_ds.Session.Options.{WsTangoConn}
use web_socket_ds.Session.Users.{check_permission_for_request}
use web_socket_ds.Events.State.{Tango}
use web_socket_ds.Connections.{escapes, Connection, WsThread, Server}
use web_socket_ds.Connections.Messages.{
  after_async, with_connection, on_request, is_event_request, is_async_request,
}
use web_socket_ds.Devices.{AttributeInfo, Formats, got, Devices}
use web_socket_ds.Devices.Argin.{
  argin_vec, dimension, is_image, with_dimensions, get_device_attribute_data,
}
use web_socket_ds.Devices.Asking.{
  with_input, after_info, process_attr_write, push_back, process_async_req,
}
use web_socket_ds.Client.{
  ClientWorld, is_group_req, as_answer, with_device, send_request_async_dev_or_gr, send_dev_or_gr,
  when_permitted, permitted, send_request_async, client,
}
use web_socket_ds.Client.Escapes.{is_escaped}

-- The request has this key with a value that `std::stoi` does not read.
abbrev pub is_unread : {Tree : Type 0} → ParsedInputJson Tree → String → Bool
is_unread p key = is_value (check_key p key) && not (is_some (stoi (value_at p key)))

module _ {F Tree : Type 0} (f : Formats F) (p : ParsedInputJson Tree) where
  dimension_unread :
      (key : String) (default : ℕ) → is_some (dimension f p key default) ≡ not (is_unread p key)
  unfolding dimension
  dimension_unread key default = ground arith

  no_input :
      (info : AttributeInfo) (x y : Option ℤ)
      → is_some x && is_some y ≡ false
      → with_dimensions f p info x y ≡ escapes
  unfolding with_dimensions
  no_input info none y h = refl
  no_input info (some x) none h = refl
  no_input info (some x) (some y) h = ground arith

  input_escapes :
      (info : AttributeInfo)
      → is_unread p "dimX" || is_unread p "dimY" ≡ true
      → get_device_attribute_data f p info ≡ escapes
  unfolding get_device_attribute_data
  input_escapes info unread =
      let x = length (argin_vec f p) in
      let y = if is_image f p info.data_format then 1 else 0 in
      no_input info (dimension f p "dimX" x) (dimension f p "dimY" y)
        (ground (arith, dimension_unread "dimX" x, dimension_unread "dimY" y))

module _ (a : AuthDs) (t : Tango) {F Tree : Type 0} (f : Formats F) (d : Devices F t.World)
    (children : Tree → List (String × String)) (s : WsTangoConn) (unset : ℕ)
    (p : ParsedInputJson Tree) where
  write_escapes :
      (dev : String) (w v : t.World) (info : AttributeInfo)
      → d.attribute_query dev (value_at p "attr_name") w ≡ (got info, v)
      → is_unread p "dimX" || is_unread p "dimY" ≡ true
      → process_attr_write f d children p dev single w ≡ (escapes, v)
  unfolding process_attr_write after_info with_input
  write_escapes dev w v info known unread = rw (known, input_escapes f p info unread) refl

  device_escapes :
      (w u v : t.World) (info : AttributeInfo)
      → p.type_req ≡ TypeWsReq.attribute_write
      → d.new_proxy (value_at p "device_name") w ≡ (got tt, u)
      → d.attribute_query (value_at p "device_name") (value_at p "attr_name") u ≡ (got info, v)
      → is_unread p "dimX" || is_unread p "dimY" ≡ true
      → send_request_async_dev_or_gr f d children p (value_at p "device_name") false w
        ≡ (escapes, v)
  unfolding send_request_async_dev_or_gr with_device as_answer process_async_req push_back
  device_escapes w u v info is_kind made known unread = rw made (
      simp
        (is_kind, process_async_req, write_escapes (value_at p "device_name") u v info known unread)
        refl)

  async_escapes :
      (conn : UserData) (w : ClientWorld a t) (mess : String) (w1 : a.World) (v : t.World)
      → p.type_req ≡ TypeWsReq.attribute_write
      → is_group_req p ≡ false
      → check_permission_for_request a s p conn (value_at p "device_name") false w.auth
        ≡ (ok mess, w1)
      → send_request_async_dev_or_gr f d children p (value_at p "device_name") false w.tango
        ≡ (escapes, v)
      → send_request_async a t f d children s unset p conn w
        ≡ (escapes, record w { auth = w1; tango = v })
  unfolding send_request_async when_permitted permitted send_dev_or_gr
  async_escapes conn w mess w1 v is_kind one_device allowed out =
      simp (is_kind, send_request_async, one_device, allowed, out) refl

  connection_write :
      (io : Server (ClientWorld a t)) (h : ℕ) (c : Connection) (st : WsThread)
      (w w' : ClientWorld a t)
      → p.type_req ≡ TypeWsReq.attribute_write
      → send_request_async a t f d children s unset p c.user w ≡ (escapes, w')
      → is_escaped (with_connection io s (client a t f d children s unset) p h c st w) ≡ true
  unfolding with_connection client after_async is_async_request
  connection_write io h c st w w' is_kind out = simp (is_kind, out) refl

  -- A write to one device with a dimension that `std::stoi` does not read, when AuthDS grants it and
  -- the device has the attribute, makes an exception leave `on_message`.
  pub on_request_write_escape :
      (io : Server (ClientWorld a t)) (h : ℕ) (c : Connection) (st : WsThread) (w : ClientWorld a t)
      (mess : String) (w1 : a.World) (u v : t.World) (info : AttributeInfo)
      → p.is_valid ≡ true
      → p.type_req ≡ TypeWsReq.attribute_write
      → is_event_request client_mode p ≡ false
      → lookup h st.m_connections ≡ some c
      → is_group_req p ≡ false
      → check_permission_for_request a s p c.user (value_at p "device_name") false w.auth
        ≡ (ok mess, w1)
      → d.new_proxy (value_at p "device_name") w.tango ≡ (got tt, u)
      → d.attribute_query (value_at p "device_name") (value_at p "attr_name") u ≡ (got info, v)
      → is_unread p "dimX" || is_unread p "dimY" ≡ true
      → is_escaped (on_request io s (client a t f d children s unset) client_mode p h st w) ≡ true
  unfolding on_request
  on_request_write_escape io h c st w mess w1 u v info valid is_kind other is_c one_device allowed
        made known unread =
      simp (valid, other, is_c)
        (connection_write io h c st w (record w { auth = w1; tango = v }) is_kind
          (async_escapes c.user w mess w1 v is_kind one_device allowed
            (device_escapes w.tango u v info is_kind made known unread)))
