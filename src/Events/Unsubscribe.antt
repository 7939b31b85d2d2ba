-- ===== src/Events/Unsubscribe.antt =====
-- src/wstangoproc_cli/EventProcCli.cpp: `_remDevReq` and `unsubscribeAllDev`.
use web_socket_ds.Base.{
  ℕ, String, Bool, List, [], ◌∷◌, ◌++◌, Option, none, some, if◌then◌else◌, is_nil,
}
use web_socket_ds.Base.Int.{ℤ, pos, negsuc, stoi}
use web_socket_ds.Base.Dict.{Dict, lookup, insert_new, erase, index, string_eq, nat_eq}
use web_socket_ds.Base.Nested.{erase_pruned}
use web_socket_ds.Wire.{EventType, event_type_to_string, ErrorType}
use web_socket_ds.Request.{ParsedInputJson, value_at}
use web_socket_ds.StringProc.Response.{success_resp_out}
use web_socket_ds.Events.State.{
  TangoAttrEventType, Tango, EventProcCli, Env, del_sub_hdl, clear_subscr_info_maps,
}
use web_socket_ds.Events.Reply.{EventReply, message, refuse}

module _ (t : Tango) (unset : ℕ) (hdl : ℕ) where
  -- `if (deleted) _clearSubscrInfoMaps(info);`
  unfoldable pub clear_if : TangoAttrEventType → Bool × Env t → Env t
  clear_if info (deleted, e) =
      if deleted then record { proc = clear_subscr_info_maps info e.proc; world = e.world } else e

  -- The client's own record of its subscription goes, whatever the type of the event.
  unfoldable pub forget_type : TangoAttrEventType → Env t → Env t
  forget_type info e = record {
    proc = record e.proc {
      event_types = erase_pruned hdl info.device_name info.attr_name e.proc.event_types;
    };
    world = e.world;
  }

  unfoldable pub remove_subscription : TangoAttrEventType → Env t → Env t
  remove_subscription info e = forget_type info (clear_if info (del_sub_hdl t unset hdl info e))

  -- The subscriptions in `eventTypes[hdl]`, in the order of the two loops.
  unfoldable pub attr_list : String → Dict String EventType → List TangoAttrEventType
  attr_list dev [] = []
  attr_list dev ((attr, et) ∷ rest) =
      record { event_type_string = event_type_to_string et; device_name = dev; attr_name = attr }
      ∷ attr_list dev rest

  unfoldable pub dev_list : Dict String (Dict String EventType) → List TangoAttrEventType
  dev_list [] = []
  dev_list ((dev, attrs) ∷ rest) = attr_list dev attrs ++ dev_list rest

  -- The first pass, with `forDel`.
  unfoldable pub del_each : List TangoAttrEventType → Env t → List TangoAttrEventType × Env t
  del_each [] e = ([], e)
  del_each (info ∷ infos) e =
      let (deleted, e') = del_sub_hdl t unset hdl info e in
      let (more, e'') = del_each infos e' in (if deleted then info ∷ more else more, e'')

  unfoldable pub clear_each : List TangoAttrEventType → EventProcCli → EventProcCli
  clear_each [] s = s
  clear_each (info ∷ infos) s = clear_each infos (clear_subscr_info_maps info s)

  -- The two passes and `eventTypes.erase(hdl)`.
  unfoldable pub unsubscribe_listed : List TangoAttrEventType → Env t → Env t
  unsubscribe_listed infos e =
      let (for_del, e') = del_each infos e in
      let cleared = clear_each for_del e'.proc in
      record {
        proc = record cleared { event_types = erase hdl cleared.event_types };
        world = e'.world;
      }

  -- `unsubscribeAllDev`; `eventTypes[hdl]` makes an entry where there is none.
  unfoldable pub unsubscribe_all_dev : Env t → Env t
  unsubscribe_all_dev e =
      let list = index hdl [] e.proc.event_types in
      if is_nil list
      then record {
        proc = record e.proc { event_types = insert_new hdl [] e.proc.event_types };
        world = e.world;
      }
      else unsubscribe_listed (dev_list list) e

abbrev pub find_id : ℤ → EventProcCli → Option TangoAttrEventType
find_id (pos n) s = lookup n s.list_of_id
find_id (negsuc n) s = none

module _ {Tree : Type 0} (t : Tango) (unset : ℕ) (p : ParsedInputJson Tree) (hdl : ℕ) where
  -- `_remDevReq`.
  unfoldable pub rem_dev_req : Env t → EventReply × Env t
  rem_dev_req e = elim (stoi (value_at p "event_sub_id")) [
    | none ↦ (refuse p ErrorType.subscr_not_found "Key event_sub_id must be a number", e)
    | some id ↦ elim (find_id id e.proc) [
      | none ↦
          (refuse p ErrorType.subscr_not_found "Event subscriber with this identifier not found", e)
      | some info ↦ (message (success_resp_out p), remove_subscription t unset hdl info e)
    ]
  ]
