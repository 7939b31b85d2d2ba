-- ===== src/Events/Subscribe.antt =====
-- src/wstangoproc_cli/EventProcCli.cpp: `_checkEventReqList` and `_addDevReq`.
use web_socket_ds.Base.{
  ℕ, String, Bool, true, false, List, [], ◌∷◌, ◌++◌, Option, none, some, ◌&&◌, not, if◌then◌else◌,
  is_nil,
}
use web_socket_ds.Base.Dict.{Dict, erase, string_eq, nat_eq}
use web_socket_ds.Base.Nested.{erase_kept}
use web_socket_ds.Wire.{
  EventType, change_event, periodic_event, user_event, archive_event, error_m, event_type_to_string,
  ErrorType,
}
use web_socket_ds.Request.{ParsedInputJson}
use web_socket_ds.StringProc.Response.{
  ResponseFromEventReq, error_info, exception_string_out, response_string_out_for_event_sub,
}
use web_socket_ds.StringProc.Precision.{check_precision_options}
use web_socket_ds.Events.State.{
  Tango, EventProcCli, Env, check_device_exist, response, add_callback,
}
use web_socket_ds.Events.Reply.{EventReply, message, event_req_exception}

-- The variables of the loops of `_checkEventReqList`.
pub record Batch (t : Tango) : Type 0 where
  pub successes : List ResponseFromEventReq
  pub errors : List ResponseFromEventReq
  pub is_anything_sub : Bool
  pub env : Env t

-- `eventSubs[dev][attr].erase(type)` after a failure.
unfoldable pub drop_entry : String → String → EventType → EventProcCli → EventProcCli
drop_entry dev attr et s = record s {
  event_subs = erase_kept dev attr (event_type_to_string et) s.event_subs;
}

-- `delete usedDevices[dev]; usedDevices.erase(dev);`
unfoldable pub drop_device : String → EventProcCli → EventProcCli
drop_device dev s = record s { used_devices = erase dev s.used_devices }

module _ {Tree : Type 0} (t : Tango) (unset : ℕ) (p : ParsedInputJson Tree) (hdl : ℕ) where
  -- What the loop does with one answer.
  unfoldable pub after_callback :
      String → String → EventType → Batch t → ResponseFromEventReq × Env t → Batch t
  after_callback dev attr et b (resp, e) = elim resp.resp_type [
    | error_m ↦ record b {
      errors = b.errors ++ resp ∷ [];
      env = record { proc = drop_entry dev attr et e.proc; world = e.world };
    }
    | _ ↦ record b { successes = b.successes ++ resp ∷ []; is_anything_sub = true; env = e }
  ]

  -- One round of the inner loop.
  unfoldable pub subscribe_attr : String → EventType → Batch t → String → Batch t
  subscribe_attr dev et b attr_name =
      let (attr, opt) = check_precision_options attr_name p in
      after_callback dev attr et b (add_callback t unset hdl dev attr opt et b.env)

  unfoldable pub subscribe_attrs : String → EventType → Batch t → List String → Batch t
  subscribe_attrs dev et b [] = b
  subscribe_attrs dev et b (attr ∷ attrs) =
      subscribe_attrs dev et (subscribe_attr dev et b attr) attrs

  -- The device goes again if none of its attributes could be subscribed to and it is new.
  unfoldable pub settle_device : String → Bool → Batch t → Batch t
  settle_device dev was_ex b =
      if not b.is_anything_sub && not was_ex
      then record b { env = record { proc = drop_device dev b.env.proc; world = b.env.world } }
      else b

  -- One round of the outer loop, behind `_checkDeviceExist`.
  unfoldable pub after_device :
      String → EventType → List String → Batch t → (Option (List String) × Bool) × Env t → Batch t
  after_device dev et attrs b ((some errors, was_ex), e) = record b {
    errors =
        b.errors
        ++ record (response t unset dev "" et error_m errors unset) { event_type_str = "" } ∷ [];
    env = e;
  }
  after_device dev et attrs b ((none, was_ex), e) =
      settle_device dev was_ex
        (subscribe_attrs dev et (record b { is_anything_sub = false; env = e }) attrs)

  -- `_checkEventReqList`.
  unfoldable pub check_event_req_list : EventType → Batch t → Dict String (List String) → Batch t
  check_event_req_list et b [] = b
  check_event_req_list et b ((dev, attrs) ∷ rest) =
      check_event_req_list et (after_device dev et attrs b (check_device_exist t unset dev b.env))
        rest

  -- The four lists in the order of the source; an empty list changes nothing.
  unfoldable pub add_all : Env t → Batch t
  add_all e =
      let start : Batch t = record {
        successes = [];
        errors = [];
        is_anything_sub = false;
        env = e;
      } in
      let periodic = check_event_req_list periodic_event start p.periodic_ev_sub_list in
      let change = check_event_req_list change_event periodic p.change_ev_sub_list in
      let archive = check_event_req_list archive_event change p.archive_ev_sub_list in
      check_event_req_list user_event archive p.user_ev_sub_list

  unfoldable pub add_reply : Batch t → EventReply
  add_reply b =
      let good =
        if is_nil b.successes
        then ""
        else response_string_out_for_event_sub p.id p.type_req_str b.successes in
      if is_nil b.errors
      then message good
      else event_req_exception
          (exception_string_out (record (error_info ErrorType.from_event_subscr) {
            typeof_req = p.type_req_str;
            id = p.id;
            error_responses = b.errors;
          }))
          good

  -- `_addDevReq`.
  unfoldable pub add_dev_req : Env t → EventReply × Env t
  add_dev_req e = let b = add_all e in (add_reply b, b.env)
