-- ===== src/Tests/Subscribing.antt =====
-- Subscriptions to events at concrete inputs: a Tango control system whose state is the next id.
use web_socket_ds.Base.{◌≡◌, ◌≢◌, refl, ℕ, suc, String, true, List, [], ◌∷◌, none, some, arith}
use web_socket_ds.Base.Int.{pos, stoi}
use web_socket_ds.Base.Dict.{Dict, lookup, string_eq, nat_eq}
use web_socket_ds.Base.Nested.{lookup3}
use web_socket_ds.Wire.{
  change_event, user_event, event_type_to_string, TypeWsReq, subscr_not_found, success,
}
use web_socket_ds.Request.{ParsedInputJson, value_at}
use web_socket_ds.StringProc.Response.{success_resp_out}
use web_socket_ds.Events.State.{
  TangoAttrEventType, UsedEventSubscr, Tango, Env, empty, with_id, get_id_of_event_subscription,
  add_callback, response, sub_at,
}
use web_socket_ds.Events.Reply.{message, refuse}
use web_socket_ds.Events.Unsubscribe.{rem_dev_req, unsubscribe_all_dev, dev_list, attr_list}
use web_socket_ds.Events.Clients.{requests, disconnects, run, run-others}
use web_socket_ds.Events.Subscriptions.{add_callback_first, add_callback_further}
use web_socket_ds.Events.Departure.{
  unsubscribe_all_dev_tracked, unsubscribe_all_dev_leak, rem_dev_req_found, rem_dev_req_unknown,
}
use web_socket_ds.Events.Isolation.Removal.{is_at}

abbrev tango : Tango
tango = record {
  World = ℕ;
  new_proxy = λ dev w. (none, w);
  subscribe_event = λ dev attr et w. (with_id w, suc w);
  unsubscribe_event = λ dev id w. w;
}

abbrev asked :
    TypeWsReq → Dict String String → Dict String (List String) → ParsedInputJson (Unit {0})
asked kind strs changes = record {
  is_valid = true;
  err_mess = "";
  id = "7";
  type_req_str = "t";
  type_req = kind;
  input_json = "{}";
  other_inp_vec = [];
  other_inp_str = strs;
  other_inp_obj = [];
  periodic_ev_sub_list = [];
  change_ev_sub_list = changes;
  user_ev_sub_list = [];
  archive_ev_sub_list = [];
}

abbrev adds : ParsedInputJson (Unit {0})
adds = asked TypeWsReq.event_req_add_dev [] (("a/b/c", "x" ∷ []) ∷ [])

abbrev removes : String → ParsedInputJson (Unit {0})
removes id = asked TypeWsReq.event_req_rem_dev (("event_sub_id", id) ∷ []) []

one_is_not_two : ◌≢◌ {A = ℕ} 1 2
one_is_not_two = omega arith

run-others_example :
    get_id_of_event_subscription
      (run tango 99
        (run tango 99 (record { proc = empty; world = 5 }) (requests 1 adds ∷ []))
        (requests 2 adds ∷ requests 2 (removes "5") ∷ disconnects 2 ∷ [])).proc
      1
      "a/b/c"
      "x"
      "change"
    ≡ get_id_of_event_subscription
        (run tango 99 (record { proc = empty; world = 5 }) (requests 1 adds ∷ [])).proc
        1
        "a/b/c"
        "x"
        "change"
run-others_example =
    run-others tango 99 5 (requests 1 adds ∷ [])
      (requests 2 adds ∷ requests 2 (removes "5") ∷ disconnects 2 ∷ []) 1 "a/b/c" "x" "change"
      (one_is_not_two, (one_is_not_two, (one_is_not_two, tt)))

abbrev x_change : TangoAttrEventType
x_change = record { event_type_string = "change"; device_name = "a/b/c"; attr_name = "x" }

abbrev entry_of : String → ℕ → UsedEventSubscr
entry_of type id = record {
  conn_list = (1, "") ∷ [];
  event_sub_id = id;
  event_attr_ch = record { event_type_string = type; device_name = "a/b/c"; attr_name = "x" };
  ev_callback = true;
}

-- Client 1 has `x` by change, under id 5, and by its user events, under id 6; `eventTypes` has the
-- later one.
abbrev both : Env tango
both = record {
  proc = record {
    used_devices = ("a/b/c", tt) ∷ [];
    event_subs =
        ("a/b/c", ("x", ("change", entry_of "change" 5) ∷ ("user", entry_of "user" 6) ∷ []) ∷ [])
        ∷ [];
    event_types = (1, ("a/b/c", ("x", user_event) ∷ []) ∷ []) ∷ [];
    list_of_id = (5, x_change) ∷ [];
  };
  world = 7;
}

unsubscribe_all_dev_tracked_example :
    get_id_of_event_subscription (unsubscribe_all_dev tango 99 1 both).proc 1 "a/b/c" "x" "user"
    ≡ none
unfolding lookup3 lookup event_type_to_string
unsubscribe_all_dev_tracked_example =
    unsubscribe_all_dev_tracked tango 99 1 "a/b/c" "x" user_event both refl

unsubscribe_all_dev_leak_example :
    get_id_of_event_subscription (unsubscribe_all_dev tango 99 1 both).proc 1 "a/b/c" "x" "change"
    ≡ some 5
unfolding lookup3 lookup event_type_to_string get_id_of_event_subscription dev_list attr_list is_at
unsubscribe_all_dev_leak_example =
    unsubscribe_all_dev_leak tango 99 1 "a/b/c" "x" "change" both 5 (refl, tt) refl

rem_dev_req_found_example :
    ((rem_dev_req tango 99 (removes "5") 1 both).0 ≡ message (success_resp_out (removes "5")))
    × (get_id_of_event_subscription
          (rem_dev_req tango 99 (removes "5") 1 both).1.proc
          1
          "a/b/c"
          "x"
          "change"
        ≡ none)
unfolding lookup stoi value_at
rem_dev_req_found_example = rem_dev_req_found tango 99 1 (removes "5") both 5 x_change refl refl

not_a_number :
    (n : ℕ)
    → stoi (value_at (removes "no") "event_sub_id") ≡ some (pos n)
    → lookup n both.proc.list_of_id ≡ none
unfolding stoi value_at lookup
not_a_number n h = cc h

rem_dev_req_unknown_example :
    (text : String) × (rem_dev_req tango 99 (removes "no") 1 both
      ≡ (refuse (removes "no") subscr_not_found text, both))
rem_dev_req_unknown_example = rem_dev_req_unknown tango 99 1 (removes "no") both not_a_number

add_callback_first_example :
    let (resp, e') = add_callback tango 99 2 "a/b/c" "y" "" change_event both in
    (resp ≡ response tango 99 "a/b/c" "y" change_event success [] 7)
    × (get_id_of_event_subscription e'.proc 2 "a/b/c" "y" (event_type_to_string change_event)
        ≡ some 7)
    × (lookup 7 e'.proc.list_of_id
        ≡ some (record {
          event_type_string = event_type_to_string change_event;
          device_name = "a/b/c";
          attr_name = "y";
        }))
unfolding sub_at lookup3 lookup event_type_to_string
add_callback_first_example =
    add_callback_first tango 99 2 "a/b/c" "y" "" change_event both 7 8 refl refl

add_callback_further_example :
    let (resp, e') = add_callback tango 99 2 "a/b/c" "x" "" change_event both in
    (resp.resp_type ≡ success)
    × (resp.event_sub_id ≡ 99)
    × (get_id_of_event_subscription e'.proc 2 "a/b/c" "x" (event_type_to_string change_event)
        ≡ some 5)
unfolding sub_at lookup3 lookup event_type_to_string
add_callback_further_example =
    add_callback_further tango 99 2 "a/b/c" "x" "" change_event both refl refl
