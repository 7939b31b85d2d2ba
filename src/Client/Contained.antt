-- ===== src/Client/Contained.antt =====
-- src/wstangoproc_common/TangoProcessor.cpp: a command or a reading, of a device or a group, throws
-- nothing but a `runtime_error`.
use web_socket_ds.Base.{
  ◌≡◌, refl, ℕ, String, Bool, true, false, not, ◌&&◌, List, [], ◌∷◌, arith, if_holds,
}
use web_socket_ds.Base.Dict.{Dict, nat_eq}
use web_socket_ds.Wire.{TypeWsReq, SingleOrGroup, single, group}
use web_socket_ds.Request.{ParsedInputJson, is_none, is_array, check_key, value_at}
use web_socket_ds.StringProc.Precision.{check_precision_options, check_precision_list}
use web_socket_ds.Connections.{TaskInfo, Called, gives, fails, escapes}
use web_socket_ds.Devices.{
  TangoType, is_massive, no_data, DeviceData, Formats, Asked, got, dev_failed, Devices,
}
use web_socket_ds.Devices.Argin.{get_device_data}
use web_socket_ds.Devices.Sendable.{is_escape, get_device_data_safe}
use web_socket_ds.Devices.Asking.{
  Tasks, after_command, with_argin, with_type, after_query, process_command, after_read,
  attribute_names, process_attr_read, push_back, process_async_req, as_member, after_proxy,
  join_rest, process_group, is_void,
}
use web_socket_ds.Devices.Members.{branch}
use web_socket_ds.Client.{
  Group, group_for_ws, as_answer, with_device, with_group, send_request_async_dev_or_gr,
}

abbrev pub is_read_or_command : TypeWsReq → Bool
is_read_or_command kind = elim kind [
  | TypeWsReq.command ↦ true
  | TypeWsReq.attribute_read ↦ true
  | _ ↦ false
]

module _ {F W Tree : Type 0} (f : Formats F) (d : Devices F W)
    (children : Tree → List (String × String)) (p : ParsedInputJson Tree) where
  module _ (dev : String) (sog : SingleOrGroup) where
    command_safe :
        (name opt : String) (r : Asked ℕ) (w : W)
        → is_escape (after_command f d children p dev sog name opt (r, w)).0 ≡ false
    unfolding after_command
    command_safe name opt (got id) w = refl
    command_safe name opt (dev_failed errs) w = refl

    argin_safe :
        (name opt : String) (c : Called (DeviceData F)) (w : W)
        → is_escape c ≡ false
        → is_escape (with_argin f d children p dev sog name opt c w).0 ≡ false
    unfolding with_argin
    argin_safe name opt (gives x) w safe =
        let r = d.command_inout_asynch dev name x w in command_safe name opt r.0 r.1
    argin_safe name opt (fails what) w safe = refl
    argin_safe name opt escapes w safe = safe

    type_safe :
        (name opt : String) (t : TangoType) (w : W)
        → is_escape (with_type f d children p dev sog name opt t w).0 ≡ false
    unfolding with_type
    type_safe name opt t w =
        let Safe = λ (r : Called (ℕ × TaskInfo) × W). is_escape r.0 ≡ false in
        if_holds Safe (is_void t) _ _
          (λ v. let r = d.command_inout_asynch dev name no_data w in command_safe name opt r.0 r.1)
          (λ v.
            if_holds Safe (is_none (check_key p "argin")) _ _ (λ n. refl)
              (λ n.
                if_holds Safe (is_array (check_key p "argin") && not (is_massive t)) _ _ (λ m. refl)
                  (λ m.
                    argin_safe name opt (get_device_data f p t) w (get_device_data_safe f p t))))

    query_safe :
        (name opt : String) (r : Asked TangoType) (w : W)
        → is_escape (after_query f d children p dev sog name opt (r, w)).0 ≡ false
    unfolding after_query
    query_safe name opt (got t) w = type_safe name opt t w
    query_safe name opt (dev_failed errs) w = refl

    process_command_safe : (w : W) → is_escape (process_command f d children p dev sog w).0 ≡ false
    unfolding process_command
    process_command_safe w =
        let (name, opt) = check_precision_options (value_at p "command_name") p in
        let r = d.command_query dev name w in query_safe name opt r.0 r.1

    after_read_safe :
        (names : List String) (opts : Dict String String) (r : Asked ℕ) (w : W)
        → is_escape (after_read f d children p dev sog names opts (r, w)).0 ≡ false
    unfolding after_read
    after_read_safe names opts (got id) w = refl
    after_read_safe names opts (dev_failed errs) w = refl

    read_safe : (w : W) → is_escape (process_attr_read f d children p dev sog w).0 ≡ false
    unfolding process_attr_read
    read_safe w =
        let (names, opts) =
          check_precision_list children (attribute_names f d children p dev sog) p in
        let r = d.read_attributes_asynch dev names w in after_read_safe names opts r.0 r.1

    pushed_safe :
        (r : Called (ℕ × TaskInfo)) (w : W)
        → is_escape r ≡ false
        → is_escape (push_back f d children p dev sog (r, w)).0 ≡ false
    unfolding push_back
    pushed_safe (gives task) w safe = refl
    pushed_safe (fails what) w safe = refl
    pushed_safe escapes w safe = safe

    process_safe :
        (kind : TypeWsReq) (w : W)
        → p.type_req ≡ kind
        → is_read_or_command kind ≡ true
        → is_escape (process_async_req f d children p dev sog w).0 ≡ false
    unfolding process_async_req
    process_safe TypeWsReq.command w is_kind safe =
        let r = process_command f d children p dev sog w in
        simp (is_kind, process_async_req) (pushed_safe r.0 r.1 (process_command_safe w))
    process_safe TypeWsReq.attribute_read w is_kind safe =
        let r = process_attr_read f d children p dev sog w in
        simp (is_kind, process_async_req) (pushed_safe r.0 r.1 (read_safe w))
    process_safe _ w is_kind safe = ground arith

  module _ (kind : TypeWsReq) (is_kind : p.type_req ≡ kind)
      (safe : is_read_or_command kind ≡ true) where
    member_safe :
        (r : Called Tasks) (w : W)
        → is_escape r ≡ false
        → is_escape (as_member f d children p (r, w)).0 ≡ false
    unfolding as_member
    member_safe (gives tasks) w h = refl
    member_safe (fails what) w h = refl
    member_safe escapes w h = h

    proxy_safe :
        (dev : String) (r : Asked (Unit {0})) (w : W)
        → is_escape (after_proxy f d children p dev (r, w)).0 ≡ false
    unfolding after_proxy
    proxy_safe dev (got u) w =
        let r = process_async_req f d children p dev group w in
        member_safe r.0 r.1 (process_safe dev group kind w is_kind safe)
    proxy_safe dev (dev_failed errs) w = refl

    joined_safe :
        (g : Tasks × List String) (rest : Called (Tasks × List String))
        → is_escape rest ≡ false
        → is_escape (join_rest f d children p g rest) ≡ false
    joined_safe (ts, es) (gives (ts', es')) h = refl
    joined_safe (ts, es) (fails what) h = refl
    joined_safe (ts, es) escapes h = h

    branch_safe :
        (devs : List String) (first : Called (Tasks × List String)) (w : W)
        → is_escape first ≡ false
        → is_escape (process_group f d children p devs w).0 ≡ false
        → is_escape (branch f d children p devs first w).0 ≡ false
    branch_safe devs (gives g) w h later =
        joined_safe g (process_group f d children p devs w).0 later
    branch_safe devs (fails what) w h later = refl
    branch_safe devs escapes w h later = h

    group_safe :
        (devs : List String) (w : W) → is_escape (process_group f d children p devs w).0 ≡ false
    unfolding process_group
    group_safe [] w = refl
    group_safe (dev ∷ devs) w =
        let asked = d.new_proxy dev w in
        let first = after_proxy f d children p dev asked in
        branch_safe devs first.0 first.1 (proxy_safe dev asked.0 asked.1) (group_safe devs first.1)

    answer_safe :
        (r : Called Tasks) (w : W)
        → is_escape r ≡ false
        → is_escape (as_answer f d children p (r, w)).0 ≡ false
    unfolding as_answer
    answer_safe (gives tasks) w h = refl
    answer_safe (fails what) w h = refl
    answer_safe escapes w h = h

    with_device_safe :
        (dev : String) (r : Asked (Unit {0})) (w : W)
        → is_escape (with_device f d children p dev (r, w)).0 ≡ false
    unfolding with_device
    with_device_safe dev (got u) w =
        let r = process_async_req f d children p dev single w in
        answer_safe r.0 r.1 (process_safe dev single kind w is_kind safe)
    with_device_safe dev (dev_failed errs) w = refl

    with_group_safe :
        (pattern : String) (r : Asked Group) (w : W)
        → is_escape (with_group f d children p pattern (r, w)).0 ≡ false
    unfolding with_group
    with_group_safe pattern (got (patterns, devs)) w = group_safe devs w
    with_group_safe pattern (dev_failed errs) w = refl

    pub dev_or_gr_safe :
        (dev : String) (is_group : Bool) (w : W)
        → is_escape (send_request_async_dev_or_gr f d children p dev is_group w).0 ≡ false
    unfolding send_request_async_dev_or_gr
    dev_or_gr_safe dev true w = let r = group_for_ws d dev w in with_group_safe dev r.0 r.1
    dev_or_gr_safe dev false w = let r = d.new_proxy dev w in with_device_safe dev r.0 r.1
