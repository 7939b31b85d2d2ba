-- ===== src/ServerBuild/Waiting.antt =====
-- src/wstangoproc_ser/WSTangoConnSer.cpp and TangoProcessor.cpp: the tasks that the server build
-- makes are tasks that its `checkResponse` knows.
use web_socket_ds.Base.{
  ◌≡◌, refl, ap, ◌∙◌, ℕ, String, Bool, true, false, not, List, [], ◌∷◌, Bool-cases, inl, inr, arith,
}
use web_socket_ds.Devices.Members.{is_async}
use web_socket_ds.Devices.Made.{
  Made, process_command-Made, process_attr_read-Made, process_attr_write-Made,
}
use web_socket_ds.Wire.{server_mode, TypeWsReq, SingleOrGroup, single, group, single_from_group}
use web_socket_ds.Request.{ParsedInputJson}
use web_socket_ds.Session.Options.{WsTangoConn}
use web_socket_ds.Connections.{TaskInfo, Called, gives, fails, escapes, not_arrived}
use web_socket_ds.Devices.{Formats, Devices, Replied, not_yet}
use web_socket_ds.Devices.Asking.{
  Tasks, process_command, process_attr_read, process_attr_write, push_back, process_async_req,
}
use web_socket_ds.Devices.Answering.{
  is_command_task, is_read_task, is_write_task, command_response, command_response_of_group,
  attr_read_response, attr_write_response, reply_text, for_check_response, is_single_task,
}
use web_socket_ds.ServerBuild.{WsTangoConnSer}
use web_socket_ds.ServerBuild.Requests.{for_check_response_of_group, check_response}

abbrev pub is_single : SingleOrGroup → Bool
is_single single = true
is_single _ = false

same_sog :
    (sog : SingleOrGroup) (t : TaskInfo)
    → t.single_or_group ≡ sog
    → is_single_task t ≡ is_single sog
same_sog single t h = rw h refl
same_sog group t h = rw h refl
same_sog single_from_group t h = rw h refl

abbrev tested : TypeWsReq → Bool × (Bool × Bool)
tested kind = elim kind [
  | TypeWsReq.command ↦ (true, (false, false))
  | TypeWsReq.attribute_read ↦ (false, (true, false))
  | TypeWsReq.attribute_write ↦ (false, (false, true))
  | _ ↦ (false, (false, false))
]

tests :
    (kind : TypeWsReq) (t : TaskInfo)
    → t.type_asynq_req ≡ kind
    → (is_command_task t ≡ (tested kind).0)
      × ((is_read_task t ≡ (tested kind).1.0) × (is_write_task t ≡ (tested kind).1.1))
tests TypeWsReq.command t h = (rw h refl, (rw h refl, rw h refl))
tests TypeWsReq.attribute_read t h = (rw h refl, (rw h refl, rw h refl))
tests TypeWsReq.attribute_write t h = (rw h refl, (rw h refl, rw h refl))
tests _ t h = (rw h refl, (rw h refl, rw h refl))

module _ {F W : Type 0} (f : Formats F) (d : Devices F W) (s : WsTangoConn) (ser : WsTangoConnSer)
    (no_command : (dev : String) (id : ℕ) (w : W) → (d.command_inout_reply dev id w).0 ≡ not_yet)
    (no_values : (dev : String) (id : ℕ) (w : W) → (d.read_attributes_reply dev id w).0 ≡ not_yet)
    (no_write : (dev : String) (id : ℕ) (w : W)
      → (d.write_attribute_reply dev id w).0 ≡ not_yet) where
  reply_waits :
      {A : Type 0} (show : A → String) (old : Bool) (r : Replied A) (w : W)
      → r ≡ not_yet
      → (reply_text f d server_mode old show (r, w)).0 ≡ not_arrived
  unfolding reply_text
  reply_waits show old r w h = rw h refl

  group_waits :
      (kind : TypeWsReq) (id : ℕ) (t : TaskInfo) (v : W)
      → t.type_asynq_req ≡ kind
      → is_async kind ≡ true
      → is_single_task t ≡ false
      → (for_check_response_of_group f d s ser (id, t) v).0 ≡ not_arrived
  unfolding for_check_response_of_group
  group_waits TypeWsReq.command id t v is_kind async several =
      let r = d.command_inout_reply t.device_name id v in
      let (c, (r', w')) = tests TypeWsReq.command t is_kind in
      simp (c, r', w', several, for_check_response_of_group)
        (reply_waits (command_response_of_group f t s.is_old_version_of_json)
          s.is_old_version_of_json r.0 r.1 (no_command t.device_name id v))
  group_waits TypeWsReq.attribute_read id t v is_kind async several =
      let r = d.read_attributes_reply t.device_name id v in
      let (c, (r', w')) = tests TypeWsReq.attribute_read t is_kind in
      simp (c, r', w', several, for_check_response_of_group)
        (reply_waits (attr_read_response f t s.is_old_version_of_json) s.is_old_version_of_json r.0
          r.1 (no_values t.device_name id v))
  group_waits TypeWsReq.attribute_write id t v is_kind async several =
      let r = d.write_attribute_reply t.device_name id v in
      let (c, (r', w')) = tests TypeWsReq.attribute_write t is_kind in
      simp (c, r', w', several, for_check_response_of_group)
        (reply_waits (λ u. attr_write_response f t) s.is_old_version_of_json r.0 r.1
          (no_write t.device_name id v))
  group_waits _ id t v is_kind async several = ground arith

  device_waits :
      (kind : TypeWsReq) (id : ℕ) (t : TaskInfo) (v : W) (old : Bool)
      → t.type_asynq_req ≡ kind
      → is_async kind ≡ true
      → is_single_task t ≡ true
      → (for_check_response f d server_mode old (id, t) ser.device_server v).0 ≡ not_arrived
  unfolding for_check_response
  device_waits TypeWsReq.command id t v old is_kind async one =
      let r = d.command_inout_reply ser.device_server id v in
      let (c, (r', w')) = tests TypeWsReq.command t is_kind in
      simp (c, r', w', one, for_check_response)
        (reply_waits (command_response f t old) old r.0 r.1 (no_command ser.device_server id v))
  device_waits TypeWsReq.attribute_read id t v old is_kind async one =
      let r = d.read_attributes_reply ser.device_server id v in
      let (c, (r', w')) = tests TypeWsReq.attribute_read t is_kind in
      simp (c, r', w', one, for_check_response)
        (reply_waits (attr_read_response f t old) old r.0 r.1 (no_values ser.device_server id v))
  device_waits TypeWsReq.attribute_write id t v old is_kind async one =
      let r = d.write_attribute_reply ser.device_server id v in
      let (c, (r', w')) = tests TypeWsReq.attribute_write t is_kind in
      simp (c, r', w', one, for_check_response)
        (reply_waits (λ u. attr_write_response f t) old r.0 r.1 (no_write ser.device_server id v))
  device_waits _ id t v old is_kind async one = ground arith

  unfoldable pub WaitAll : Tasks → Type 0
  WaitAll [] = Unit
  WaitAll (task ∷ tasks) =
      ((v : W) → (check_response f d s ser task v).0 ≡ not_arrived) × WaitAll tasks

  unfoldable pub Waits : Called Tasks → Type 0
  Waits (gives tasks) = WaitAll tasks
  Waits (fails what) = Unit
  Waits escapes = Unit

  check_response_waits :
      (kind : TypeWsReq) (sog : SingleOrGroup) (id : ℕ) (t : TaskInfo) (v : W)
      → t.type_asynq_req ≡ kind
      → t.single_or_group ≡ sog
      → is_async kind ≡ true
      → is_single sog ≡ not ser.is_group
      → (check_response f d s ser (id, t) v).0 ≡ not_arrived
  unfolding check_response
  check_response_waits kind sog id t v is_kind is_sog async fits = elim (Bool-cases ser.is_group) [
    | inl grp ↦
        simp (grp, check_response)
          (group_waits kind id t v is_kind async (same_sog sog t is_sog ∙ (fits ∙ ap not grp)))
    | inr dev ↦
        simp (dev, check_response)
          (device_waits kind id t v s.is_old_version_of_json is_kind async
            (same_sog sog t is_sog ∙ (fits ∙ ap not dev)))
  ]

  module _ {Tree : Type 0} (children : Tree → List (String × String)) (p : ParsedInputJson Tree)
      (dev : String) (sog : SingleOrGroup) (fits : is_single sog ≡ not ser.is_group) where
    push_back-Waits :
        (kind : TypeWsReq) (r : Called (ℕ × TaskInfo)) (w : W)
        → is_async kind ≡ true
        → Made kind sog dev r
        → Waits (push_back f d children p dev sog (r, w)).0
    unfolding push_back Waits WaitAll Made
    push_back-Waits kind (gives (id, t)) w async (is_kind, (is_sog, is_dev)) =
        (λ v. check_response_waits kind sog id t v is_kind is_sog async fits, tt)
    push_back-Waits kind (fails what) w async made = tt
    push_back-Waits kind escapes w async made = tt

    -- While Tango has answered nothing, `checkResponse` of the server build answers that the reply
    -- has not arrived for every task that `processAsyncReq` makes of a command, a reading or a
    -- write: for the one device of the server as well as for a device of its group.
    pub process_async_req-Waits :
        (kind : TypeWsReq) (w : W)
        → p.type_req ≡ kind
        → is_async kind ≡ true
        → Waits (process_async_req f d children p dev sog w).0
    unfolding process_async_req
    process_async_req-Waits TypeWsReq.command w is_kind async =
        let r = process_command f d children p dev sog w in
        simp (is_kind, process_async_req)
          (push_back-Waits TypeWsReq.command r.0 r.1 async
            (process_command-Made f d children p dev sog w))
    process_async_req-Waits TypeWsReq.attribute_read w is_kind async =
        let r = process_attr_read f d children p dev sog w in
        simp (is_kind, process_async_req)
          (push_back-Waits TypeWsReq.attribute_read r.0 r.1 async
            (process_attr_read-Made f d children p dev sog w))
    process_async_req-Waits TypeWsReq.attribute_write w is_kind async =
        let r = process_attr_write f d children p dev sog w in
        simp (is_kind, process_async_req)
          (push_back-Waits TypeWsReq.attribute_write r.0 r.1 async
            (process_attr_write-Made f d children p dev sog w))
    process_async_req-Waits _ w is_kind async = ground arith
