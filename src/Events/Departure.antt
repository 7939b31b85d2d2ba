-- ===== src/Events/Departure.antt =====
-- src/wstangoproc_cli/EventProcCli.cpp: what is left of a client's subscriptions when it removes one,
-- turns its events off or leaves.
use web_socket_ds.Base.{
  ◌≡◌, refl, ◌∙◌, ℕ, String, true, false, List, [], ◌∷◌, ◌++◌, none, some, arith, ◌⊎◌, eq_refl,
  is_nil, Bool-cases, Option-cases, inl, inr, All,
}
use web_socket_ds.Base.Int.{pos, negsuc, stoi}
use web_socket_ds.Base.Dict.{Dict, lookup, index, string_eq, nat_eq, ◌==◌}
use web_socket_ds.Base.Nested.{lookup3}
use web_socket_ds.Wire.{EventType, subscr_not_found, event_type_to_string}
use web_socket_ds.Request.{ParsedInputJson, value_at}
use web_socket_ds.Events.State.{
  TangoAttrEventType, Tango, EventProcCli, Env, get_id_of_event_subscription, del_sub_hdl,
  clear_subscr_info_maps,
}
use web_socket_ds.Events.Unsubscribe.{
  clear_if, forget_type, remove_subscription, del_each, clear_each, unsubscribe_listed,
  unsubscribe_all_dev, dev_list, attr_list, rem_dev_req,
}
use web_socket_ds.StringProc.Response.{success_resp_out}
use web_socket_ds.Events.Reply.{message, refuse}
use web_socket_ds.Events.Isolation.Removal.{is_at, get_id-clear, get_id-del_sub_hdl}

is_at_self :
    (info : TangoAttrEventType)
    → is_at info.device_name info.attr_name info.event_type_string info ≡ true
unfolding is_at
is_at_self info =
    ground (arith, eq_refl info.device_name, eq_refl info.attr_name, eq_refl info.event_type_string)

module _ (t : Tango) (unset hdl : ℕ) (d a ty : String) where
  -- What is none stays none when subscriptions go.
  del_each-none :
      (infos : List TangoAttrEventType) (e : Env t)
      → get_id_of_event_subscription e.proc hdl d a ty ≡ none
      → get_id_of_event_subscription (del_each t unset hdl infos e).1.proc hdl d a ty ≡ none
  unfolding del_each
  del_each-none [] e n = n
  del_each-none (info ∷ infos) e n =
      del_each-none infos (del_sub_hdl t unset hdl info e).1
        (ground (arith, get_id-del_sub_hdl t unset hdl hdl info d a ty e))

  clear_each-none :
      (infos : List TangoAttrEventType) (s : EventProcCli)
      → get_id_of_event_subscription s hdl d a ty ≡ none
      → get_id_of_event_subscription (clear_each t unset hdl infos s) hdl d a ty ≡ none
  unfolding clear_each
  clear_each-none [] s n = n
  clear_each-none (info ∷ infos) s n =
      clear_each-none infos (clear_subscr_info_maps info s)
        (ground (arith, get_id-clear t unset hdl hdl info d a ty s))

  abbrev Listed : List TangoAttrEventType → Type 0
  Listed [] = ⊥
  Listed (info ∷ infos) = (is_at d a ty info ≡ true) ⊎ Listed infos

  del_each-Listed :
      (infos : List TangoAttrEventType) (e : Env t)
      → Listed infos
      → get_id_of_event_subscription (del_each t unset hdl infos e).1.proc hdl d a ty ≡ none
  unfolding del_each
  del_each-Listed [] e h = absurd h
  del_each-Listed (info ∷ infos) e (inl here) =
      del_each-none infos (del_sub_hdl t unset hdl info e).1
        (ground (arith, get_id-del_sub_hdl t unset hdl hdl info d a ty e, nat_eq.beq_iff hdl hdl))
  del_each-Listed (info ∷ infos) e (inr later) =
      del_each-Listed infos (del_sub_hdl t unset hdl info e).1 later

  -- What none of the listed subscriptions touches stays.
  del_each_kept :
      (infos : List TangoAttrEventType) (e : Env t)
      → All (λ i. is_at d a ty i ≡ false) infos
      → get_id_of_event_subscription (del_each t unset hdl infos e).1.proc hdl d a ty
        ≡ get_id_of_event_subscription e.proc hdl d a ty
  unfolding del_each
  del_each_kept [] e h = refl
  del_each_kept (info ∷ infos) e (here, later) =
      del_each_kept infos (del_sub_hdl t unset hdl info e).1 later
      ∙ ground (arith, get_id-del_sub_hdl t unset hdl hdl info d a ty e)

  for_del_kept :
      (infos : List TangoAttrEventType) (e : Env t)
      → All (λ i. is_at d a ty i ≡ false) infos
      → All (λ i. is_at d a ty i ≡ false) (del_each t unset hdl infos e).0
  unfolding del_each
  for_del_kept [] e h = tt
  for_del_kept (info ∷ infos) e (here, later) =
      let rest = for_del_kept infos (del_sub_hdl t unset hdl info e).1 later in
      elim (Bool-cases (del_sub_hdl t unset hdl info e).0) [
        | inl alone ↦ rw alone (here, rest)
        | inr others ↦ rw others rest
      ]

  clear_each_kept :
      (infos : List TangoAttrEventType) (s : EventProcCli)
      → All (λ i. is_at d a ty i ≡ false) infos
      → get_id_of_event_subscription (clear_each t unset hdl infos s) hdl d a ty
        ≡ get_id_of_event_subscription s hdl d a ty
  unfolding clear_each
  clear_each_kept [] s h = refl
  clear_each_kept (info ∷ infos) s (here, later) =
      clear_each_kept infos (clear_subscr_info_maps info s) later
      ∙ ground (arith, get_id-clear t unset hdl hdl info d a ty s)

  abbrev pub tracked : Env t → List TangoAttrEventType
  tracked e = dev_list t unset hdl (index hdl [] e.proc.event_types)

  Listed-nonempty :
      (m : Dict String (Dict String EventType)) → Listed (dev_list t unset hdl m) → is_nil m ≡ false
  unfolding dev_list
  Listed-nonempty [] h = absurd h
  Listed-nonempty (x ∷ m) h = refl

  off-Listed :
      (e : Env t)
      → Listed (tracked e)
      → get_id_of_event_subscription (unsubscribe_all_dev t unset hdl e).proc hdl d a ty ≡ none
  unfolding unsubscribe_all_dev unsubscribe_listed get_id_of_event_subscription
  off-Listed e listed =
      rw (Listed-nonempty (index hdl [] e.proc.event_types) listed)
        (clear_each-none _ _ (del_each-Listed (tracked e) e listed))

  -- What `eventTypes` does not name stays when the client turns its events off or leaves: the
  -- subscription outlives the connection.
  pub unsubscribe_all_dev_leak :
      (e : Env t) (id : ℕ)
      → All (λ i. is_at d a ty i ≡ false) (tracked e)
      → get_id_of_event_subscription e.proc hdl d a ty ≡ some id
      → get_id_of_event_subscription (unsubscribe_all_dev t unset hdl e).proc hdl d a ty ≡ some id
  unfolding unsubscribe_all_dev unsubscribe_listed get_id_of_event_subscription
  unsubscribe_all_dev_leak e id others had =
      elim (Bool-cases (is_nil (index hdl [] e.proc.event_types))) [
        | inl nothing ↦ rw nothing had
        | inr something ↦ rw something (
            clear_each_kept _ _ (for_del_kept (tracked e) e others)
            ∙ del_each_kept (tracked e) e others
            ∙ had)
      ]

  Listed-append_left : (xs ys : List TangoAttrEventType) → Listed xs → Listed (xs ++ ys)
  Listed-append_left [] ys h = absurd h
  Listed-append_left (x ∷ xs) ys (inl here) = inl here
  Listed-append_left (x ∷ xs) ys (inr later) = inr (Listed-append_left xs ys later)

  Listed-append_right : (xs ys : List TangoAttrEventType) → Listed ys → Listed (xs ++ ys)
  Listed-append_right [] ys h = h
  Listed-append_right (x ∷ xs) ys h = inr (Listed-append_right xs ys h)

module _ (t : Tango) (unset hdl : ℕ) (d a : String) (et : EventType) where
  attr_list-Listed :
      (dev : String) (attrs : Dict String EventType)
      → (dev == d) ≡ true
      → lookup a attrs ≡ some et
      → Listed t unset hdl d a (event_type_to_string et) (attr_list t unset hdl dev attrs)
  unfolding lookup attr_list is_at
  attr_list-Listed dev [] at h = cc
  attr_list-Listed dev ((b, other) ∷ attrs) at h = elim (Bool-cases (b == a)) [
    | inl same ↦ inl (ground (arith, eq_refl (event_type_to_string et)))
    | inr apart ↦ inr (attr_list-Listed dev attrs at (ground arith))
  ]

  dev_list-Listed :
      (m : Dict String (Dict String EventType))
      → lookup a (index d [] m) ≡ some et
      → Listed t unset hdl d a (event_type_to_string et) (dev_list t unset hdl m)
  unfolding dev_list lookup
  dev_list-Listed [] h = cc
  dev_list-Listed ((b, attrs) ∷ m) h = elim (Bool-cases (b == d)) [
    | inl same ↦
        Listed-append_left t unset hdl d a (event_type_to_string et) (attr_list t unset hdl b attrs)
          _ (attr_list-Listed b attrs same (ground arith))
    | inr apart ↦
        Listed-append_right t unset hdl d a (event_type_to_string et)
          (attr_list t unset hdl b attrs) _ (dev_list-Listed m (ground arith))
  ]

  -- A client that turns its events off, or leaves, is rid of every subscription that `eventTypes`
  -- has for it.
  pub unsubscribe_all_dev_tracked :
      (e : Env t)
      → lookup3 hdl d a e.proc.event_types ≡ some et
      → get_id_of_event_subscription
          (unsubscribe_all_dev t unset hdl e).proc
          hdl
          d
          a
          (event_type_to_string et)
        ≡ none
  unfolding lookup3
  unsubscribe_all_dev_tracked e h =
      off-Listed t unset hdl d a (event_type_to_string et) e (dev_list-Listed _ h)

module _ {Tree : Type 0} (t : Tango) (unset hdl : ℕ) (p : ParsedInputJson Tree) where
  remove-none :
      (info : TangoAttrEventType) (e : Env t)
      → get_id_of_event_subscription
          (remove_subscription t unset hdl info e).proc
          hdl
          info.device_name
          info.attr_name
          info.event_type_string
        ≡ none
  unfolding remove_subscription forget_type clear_if get_id_of_event_subscription
  remove-none info e =
      let d = info.device_name in
      let a = info.attr_name in
      let ty = info.event_type_string in
      ground (
        arith,
        get_id-del_sub_hdl t unset hdl hdl info d a ty e,
        is_at_self info,
        get_id-clear t unset hdl hdl info d a ty (del_sub_hdl t unset hdl info e).1.proc,
        nat_eq.beq_iff hdl hdl,
      )

  -- A removal by an id that is in use succeeds, and the client has no longer the subscription that
  -- the id stands for.
  pub rem_dev_req_found :
      (e : Env t) (n : ℕ) (info : TangoAttrEventType)
      → stoi (value_at p "event_sub_id") ≡ some (pos n)
      → lookup n e.proc.list_of_id ≡ some info
      → ((rem_dev_req t unset p hdl e).0 ≡ message (success_resp_out p))
        × (get_id_of_event_subscription
              (rem_dev_req t unset p hdl e).1.proc
              hdl
              info.device_name
              info.attr_name
              info.event_type_string
            ≡ none)
  unfolding rem_dev_req
  rem_dev_req_found e n info number found =
      rw (number, rem_dev_req) (rw found (refl, remove-none info e))

  -- A removal by no number, a negative one or one that is not in use is an error and changes nothing.
  pub rem_dev_req_unknown :
      (e : Env t)
      → ((n : ℕ)
          → stoi (value_at p "event_sub_id") ≡ some (pos n)
          → lookup n e.proc.list_of_id ≡ none)
      → (text : String) × (rem_dev_req t unset p hdl e ≡ (refuse p subscr_not_found text, e))
  unfolding rem_dev_req
  rem_dev_req_unknown e unknown = elim (Option-cases (stoi (value_at p "event_sub_id"))) [
    | inl no_number ↦ ("Key event_sub_id must be a number", rw (no_number, rem_dev_req))
    | inr (pos n, number) ↦ (
      "Event subscriber with this identifier not found",
      rw (number, rem_dev_req) (rw (unknown n number)),
    )
    | inr (negsuc n, number) ↦
        ("Event subscriber with this identifier not found", rw (number, rem_dev_req))
  ]
