-- ===== src/Events/Isolation/Addition.antt =====
-- What one client adds leaves the subscriptions of every other client as they were.
use web_socket_ds.Base.{
  ◌≡◌, refl, sym, ◌∙◌, ◌≢◌, ℕ, String, Bool, true, false, List, [], ◌∷◌, Option, none, some, arith,
  ◌&&◌, not, if◌then◌else◌, is_nil, is_some, eq_iff, Bool-cases, Option-cases, inl, inr,
}
use web_socket_ds.Base.Dict.{Dict, lookup, assign, string_eq, nat_eq, lookup-assign, ◌==◌}
use web_socket_ds.Base.Nested.{lookup3, assign3, lookup3-assign3, lookup3-erase_kept}
use web_socket_ds.Wire.{
  EventType, event_type_to_string, periodic_event, change_event, archive_event, user_event,
}
use web_socket_ds.Request.{ParsedInputJson}
use web_socket_ds.StringProc.Precision.{check_precision_options}
use web_socket_ds.Events.State.{
  UsedEventSubscr, Subscribed, with_id, dev_failed, other_exception, Tango, EventProcCli, Env,
  sub_at, get_id_of_event_subscription, after_new_proxy, check_device_exist, join_subscription,
  failed_entry, after_subscribe, add_first, add_further, add_callback,
}
use web_socket_ds.Events.Subscribe.{
  Batch, drop_entry, drop_device, after_callback, subscribe_attr, subscribe_attrs, settle_device,
  after_device, check_event_req_list, add_all, add_dev_req,
}
use web_socket_ds.Events.Isolation.Removal.{lookup_of_is_nil}
use web_socket_ds.Events.Isolation.Quiet.{
  IsQuiet, IsQuiet-assign3, IsQuiet-erase_kept, sub_at-IsQuiet,
}

-- The clients other than `hdl` at the place of an entry, as `get_id_of_event_subscription` sees them.
entry_id : ℕ → UsedEventSubscr → Option ℕ
entry_id h u = if is_some (lookup h u.conn_list) then some u.event_sub_id else none

entry_id_lem :
    (h : ℕ) (u : UsedEventSubscr)
    → entry_id h u ≡ (if is_some (lookup h u.conn_list) then some u.event_sub_id else none)
unfolding entry_id
entry_id_lem h u = refl

get_id_lem :
    (unset h : ℕ) (s : EventProcCli) (d a ty : String)
    → get_id_of_event_subscription s h d a ty ≡ entry_id h (sub_at unset s d a ty)
unfolding get_id_of_event_subscription entry_id sub_at lookup
get_id_lem unset h s d a ty = elim (Option-cases (lookup3 d a ty s.event_subs)) [
  | inl missing ↦ rw (missing, get_id_of_event_subscription, sub_at)
  | inr (u, found) ↦ rw (found, get_id_of_event_subscription, sub_at)
]

-- A write of an entry that shows `h` what the old one did.
get_id-assign3 :
    (unset h : ℕ) (s : EventProcCli) (b c e d a ty : String) (v : UsedEventSubscr)
    → entry_id h v ≡ entry_id h (sub_at unset s b c e)
    → get_id_of_event_subscription (record s { event_subs = assign3 b c e v s.event_subs }) h d a ty
      ≡ get_id_of_event_subscription s h d a ty
unfolding get_id_of_event_subscription
get_id-assign3 unset h s b c e d a ty v same = elim (Bool-cases (b == d && c == a && e == ty)) [
  | inl here ↦ ground (
    arith,
    lookup3-assign3 b d c a e ty v s.event_subs,
    eq_iff b d,
    eq_iff c a,
    eq_iff e ty,
    get_id_lem unset h s b c e,
    same,
    entry_id_lem h v,
  )
  | inr there ↦ ground (arith, lookup3-assign3 b d c a e ty v s.event_subs)
]

module _ (t : Tango) (unset : ℕ) (hdl h : ℕ) (apart : h ≢ hdl) (d a ty : String) where
  -- What a step must keep.
  abbrev Keeps : EventProcCli → EventProcCli → Type 0
  Keeps s s' =
      (get_id_of_event_subscription s' h d a ty ≡ get_id_of_event_subscription s h d a ty)
      × IsQuiet s'.event_subs

  entry_id-join :
      (prec : String) (u : UsedEventSubscr)
      → entry_id h (record u { conn_list = assign hdl prec u.conn_list }) ≡ entry_id h u
  unfolding entry_id
  entry_id-join prec u = ground (arith, lookup-assign hdl h prec u.conn_list, nat_eq.beq_iff hdl h)

  entry_id-none : (u : UsedEventSubscr) → is_nil u.conn_list ≡ true → entry_id h u ≡ none
  unfolding entry_id
  entry_id-none u h' = ground (arith, lookup_of_is_nil h u.conn_list)

  new_proxy-Keeps :
      (dev : String) (e : Env t) (out : Option (List String) × t.World)
      → IsQuiet e.proc.event_subs
      → Keeps e.proc (after_new_proxy t unset dev e.proc out).1.proc
  unfolding after_new_proxy get_id_of_event_subscription
  new_proxy-Keeps dev e (some errors, w) q = (refl, q)
  new_proxy-Keeps dev e (none, w) q = (refl, q)

  module _ {Tree : Type 0} (p : ParsedInputJson Tree) (dev attr prec : String) (et : EventType)
      (b : Batch t) where
    joins_further :
        (e : Env t)
        → IsQuiet e.proc.event_subs
        → let u = sub_at unset e.proc dev attr (event_type_to_string et) in
          u.ev_callback ≡ true
          → Keeps e.proc
              (after_callback t unset p hdl dev attr et b
                (add_further t unset hdl dev attr prec et u e)).env.proc
    unfolding after_callback add_further join_subscription get_id_of_event_subscription
    joins_further e q live =
        let u = sub_at unset e.proc dev attr (event_type_to_string et) in
        elim (Bool-cases (is_some (lookup hdl u.conn_list))) [
          | inl member ↦ rw member (refl, q)
          | inr fresh ↦ rw fresh (
            get_id-assign3 unset h e.proc dev attr (event_type_to_string et) d a ty
                (record u { conn_list = assign hdl prec u.conn_list }) (entry_id-join prec u),
            IsQuiet-assign3 dev attr (event_type_to_string et)
                (record u { conn_list = assign hdl prec u.conn_list }) e.proc.event_subs (λ f. cc)
                q,
          )
        ]

    -- A failed entry is erased: `h` had nothing there.
    fails :
        (e : Env t)
        → IsQuiet e.proc.event_subs
        → let u = sub_at unset e.proc dev attr (event_type_to_string et) in
          u.ev_callback ≡ false
          → Keeps e.proc (drop_entry dev attr et (failed_entry t unset dev attr et u e.proc))
    unfolding failed_entry drop_entry get_id_of_event_subscription
    fails e q dead =
        let type = event_type_to_string et in
        let u = sub_at unset e.proc dev attr type in
        let failed = record u { ev_callback = true } in
        let subs = assign3 dev attr type failed e.proc.event_subs in
        let nobody = entry_id-none u (sub_at-IsQuiet unset e.proc dev attr type q dead) in
        (
          ground (
            arith,
            lookup3-erase_kept dev d attr a type ty subs,
            lookup3-assign3 dev d attr a type ty failed e.proc.event_subs,
            eq_iff dev d,
            eq_iff attr a,
            eq_iff type ty,
            get_id_lem unset h e.proc dev attr type,
            nobody,
          ),
          IsQuiet-erase_kept dev attr type subs
              (IsQuiet-assign3 dev attr type failed e.proc.event_subs (λ f. cc) q),
        )

    joins_first :
        (e : Env t) (out : Subscribed × t.World)
        → IsQuiet e.proc.event_subs
        → let u = sub_at unset e.proc dev attr (event_type_to_string et) in
          u.ev_callback ≡ false
          → Keeps e.proc
              (after_callback t unset p hdl dev attr et b
                (after_subscribe t unset hdl dev attr prec et u e.proc out)).env.proc
    unfolding after_callback after_subscribe join_subscription get_id_of_event_subscription
    joins_first e (with_id id, w) q dead =
        let type = event_type_to_string et in
        let u = sub_at unset e.proc dev attr type in
        let v = record u {
          event_sub_id = id;
          event_attr_ch = record { event_type_string = type; device_name = dev; attr_name = attr };
          ev_callback = true;
        } in
        let joined = record v { conn_list = assign hdl prec u.conn_list } in
        let empty_list = sub_at-IsQuiet unset e.proc dev attr type q dead in
        (
          get_id-assign3 unset h e.proc dev attr type d a ty joined (
              entry_id-join prec v ∙ entry_id-none v empty_list ∙ sym (entry_id-none u empty_list)),
          IsQuiet-assign3 dev attr type joined e.proc.event_subs (λ f. cc) q,
        )
    joins_first e (dev_failed errors, w) q dead = fails e q dead
    joins_first e (other_exception, w) q dead = fails e q dead

    joins :
        (e : Env t)
        → IsQuiet e.proc.event_subs
        → Keeps e.proc
            (after_callback t unset p hdl dev attr et b
              (add_callback t unset hdl dev attr prec et e)).env.proc
    unfolding add_callback add_first
    joins e q =
        let u = sub_at unset e.proc dev attr (event_type_to_string et) in
        elim (Bool-cases u.ev_callback) [
          | inl live ↦ simp live (joins_further e q live)
          | inr dead ↦ simp dead (joins_first e (t.subscribe_event dev attr et e.world) q dead)
        ]

  module _ {Tree : Type 0} (p : ParsedInputJson Tree) where
    Keeps-trans : (r s u : EventProcCli) → Keeps r s → Keeps s u → Keeps r u
    Keeps-trans r s u k l = (l.0 ∙ k.0, l.1)

    attrs_keep :
        (dev : String) (et : EventType) (b : Batch t) (attrs : List String)
        → IsQuiet b.env.proc.event_subs
        → Keeps b.env.proc (subscribe_attrs t unset p hdl dev et b attrs).env.proc
    unfolding subscribe_attrs subscribe_attr
    attrs_keep dev et b [] q = (refl, q)
    attrs_keep dev et b (name ∷ names) q =
        let (attr, opt) = check_precision_options name p in
        let now = joins p dev attr opt et b b.env q in
        Keeps-trans b.env.proc _ _ now
          (attrs_keep dev et (subscribe_attr t unset p hdl dev et b name) names now.1)

    -- The list of devices plays no part.
    settle-Keeps :
        (dev : String) (was_ex : Bool) (b : Batch t)
        → IsQuiet b.env.proc.event_subs
        → Keeps b.env.proc (settle_device t unset p hdl dev was_ex b).env.proc
    unfolding settle_device drop_device get_id_of_event_subscription
    settle-Keeps dev was_ex b q = elim (Bool-cases (not b.is_anything_sub && not was_ex)) [
      | inl drop ↦ rw drop (refl, q)
      | inr keep ↦ rw keep (refl, q)
    ]

    device-Keeps :
        (dev : String) (et : EventType) (attrs : List String) (b : Batch t)
        (out : (Option (List String) × Bool) × Env t)
        → IsQuiet out.1.proc.event_subs
        → Keeps out.1.proc (after_device t unset p hdl dev et attrs b out).env.proc
    unfolding after_device
    device-Keeps dev et attrs b ((some errors, was_ex), e) q = (refl, q)
    device-Keeps dev et attrs b ((none, was_ex), e) q =
        let start = record b { is_anything_sub = false; env = e } in
        let subscribed = attrs_keep dev et start attrs q in
        Keeps-trans e.proc _ _ subscribed
          (settle-Keeps dev was_ex (subscribe_attrs t unset p hdl dev et start attrs) subscribed.1)

    exist-Keeps :
        (dev : String) (e : Env t)
        → IsQuiet e.proc.event_subs
        → Keeps e.proc (check_device_exist t unset dev e).1.proc
    unfolding check_device_exist
    exist-Keeps dev e q = elim (Bool-cases (is_some (lookup dev e.proc.used_devices))) [
      | inl known ↦ rw known (refl, q)
      | inr fresh ↦ rw fresh (new_proxy-Keeps dev e (t.new_proxy dev e.world) q)
    ]

    list-Keeps :
        (et : EventType) (b : Batch t) (list : Dict String (List String))
        → IsQuiet b.env.proc.event_subs
        → Keeps b.env.proc (check_event_req_list t unset p hdl et b list).env.proc
    unfolding check_event_req_list
    list-Keeps et b [] q = (refl, q)
    list-Keeps et b ((dev, attrs) ∷ rest) q =
        let known = exist-Keeps dev b.env q in
        let done = device-Keeps dev et attrs b (check_device_exist t unset dev b.env) known.1 in
        Keeps-trans b.env.proc _ _ known (
          Keeps-trans _ _ _ done (
            list-Keeps et
              (after_device t unset p hdl dev et attrs b (check_device_exist t unset dev b.env))
              rest done.1))

    -- Whatever the lists ask for and however Tango answers.
    pub add_dev_req-Keeps :
        (e : Env t) → IsQuiet e.proc.event_subs → Keeps e.proc (add_dev_req t unset p hdl e).1.proc
    unfolding add_dev_req add_all
    add_dev_req-Keeps e q =
        let start : Batch t = record {
          successes = [];
          errors = [];
          is_anything_sub = false;
          env = e;
        } in
        let first = list-Keeps periodic_event start p.periodic_ev_sub_list q in
        let periodic =
          check_event_req_list t unset p hdl periodic_event start p.periodic_ev_sub_list in
        let second = list-Keeps change_event periodic p.change_ev_sub_list first.1 in
        let change =
          check_event_req_list t unset p hdl change_event periodic p.change_ev_sub_list in
        let third = list-Keeps archive_event change p.archive_ev_sub_list second.1 in
        let archive =
          check_event_req_list t unset p hdl archive_event change p.archive_ev_sub_list in
        Keeps-trans e.proc _ _ first (
          Keeps-trans _ _ _ second
            (Keeps-trans _ _ _ third (list-Keeps user_event archive p.user_ev_sub_list third.1)))
