-- ===== src/Events/Subscriptions.antt =====
-- What the requests of src/wstangoproc_cli/EventProcCli.cpp do to the client's own subscriptions.
use web_socket_ds.Base.{◌≡◌, refl, ℕ, String, true, false, [], none, some, arith}
use web_socket_ds.Base.Dict.{lookup, assign, string_eq, nat_eq, lookup-assign, beq_self}
use web_socket_ds.Base.Nested.{lookup3-assign3}
use web_socket_ds.Wire.{EventType, success, event_type_to_string}
use web_socket_ds.Events.State.{
  UsedEventSubscr, with_id, Tango, EventProcCli, Env, sub_at, get_id_of_event_subscription,
  response, join_subscription, after_subscribe, add_first, add_further, add_callback,
}

module _ (t : Tango) (unset hdl : ℕ) (dev attr prec : String) (et : EventType) (e : Env t) where
  abbrev old_entry : UsedEventSubscr
  old_entry = sub_at unset e.proc dev attr (event_type_to_string et)

  join-get_id :
      (u : UsedEventSubscr) (s : EventProcCli)
      → get_id_of_event_subscription
          (join_subscription t unset hdl dev attr prec et u s)
          hdl
          dev
          attr
          (event_type_to_string et)
        ≡ some u.event_sub_id
  unfolding join_subscription get_id_of_event_subscription
  join-get_id u s = ground (
    arith,
    lookup3-assign3 dev dev attr attr (event_type_to_string et) (event_type_to_string et)
        (record u { conn_list = assign hdl prec u.conn_list }) s.event_subs,
    lookup-assign hdl hdl prec u.conn_list,
    beq_self hdl,
    beq_self dev,
    beq_self attr,
    beq_self (event_type_to_string et),
  )

  known :
      (id : ℕ)
      → lookup id (
          assign id
            (record {
              event_type_string = event_type_to_string et;
              device_name = dev;
              attr_name = attr;
            })
            e.proc.list_of_id)
        ≡ some (record {
          event_type_string = event_type_to_string et;
          device_name = dev;
          attr_name = attr;
        })
  known id = rw (lookup-assign id id, beq_self id)

  -- The first client of an event: the answer has the id that Tango gave, the check request finds
  -- that id, and the id leads back to the device, the attribute and the type of the event.
  pub add_callback_first :
      (id : ℕ) (w : t.World)
      → old_entry.ev_callback ≡ false
      → t.subscribe_event dev attr et e.world ≡ (with_id id, w)
      → let (resp, e') = add_callback t unset hdl dev attr prec et e in
        (resp ≡ response t unset dev attr et success [] id)
        × (get_id_of_event_subscription e'.proc hdl dev attr (event_type_to_string et) ≡ some id)
        × (lookup id e'.proc.list_of_id
            ≡ some (record {
              event_type_string = event_type_to_string et;
              device_name = dev;
              attr_name = attr;
            }))
  unfolding add_callback add_first after_subscribe join_subscription
  add_callback_first id w fresh answer = simp (fresh, answer) (refl, join-get_id _ _, known id)

  -- A further client of an event is subscribed under the id of the event, but its answer carries
  -- whatever the uninitialised `eventSubId` held.
  pub add_callback_further :
      old_entry.ev_callback ≡ true
      → lookup hdl old_entry.conn_list ≡ none
      → let (resp, e') = add_callback t unset hdl dev attr prec et e in
        (resp.resp_type ≡ success)
        × (resp.event_sub_id ≡ unset)
        × (get_id_of_event_subscription e'.proc hdl dev attr (event_type_to_string et)
            ≡ some old_entry.event_sub_id)
  unfolding add_callback add_further
  add_callback_further live absent = simp (live, absent) (refl, refl, join-get_id _ _)
