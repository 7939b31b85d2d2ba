-- ===== src/Events/Isolation/Removal.antt =====
-- What one client gives up leaves the subscriptions of every other client as they were.
use web_socket_ds.Base.{
  ◌≡◌, refl, sym, ◌∙◌, ◌≢◌, ℕ, String, Bool, true, List, [], ◌∷◌, Option, none, some, arith, ◌&&◌,
  if◌then◌else◌, is_nil, eq_iff, Bool-cases, inl, inr, str_beq, All,
}
use web_socket_ds.Base.Dict.{Dict, lookup, erase, index, string_eq, nat_eq, lookup-erase, ◌==◌}
use web_socket_ds.Base.Nested.{lookup3, lookup3-assign3, lookup3-erase_pruned}
use web_socket_ds.Events.State.{
  TangoAttrEventType, Tango, EventProcCli, Env, sub_at, get_id_of_event_subscription, del_sub_hdl,
  clear_subscr_info_maps,
}
use web_socket_ds.Events.Unsubscribe.{
  clear_if, forget_type, remove_subscription, del_each, clear_each, unsubscribe_listed,
  unsubscribe_all_dev,
}

module _ {V : Type 0} where
  pub lookup_of_is_nil : (k : ℕ) (m : Dict ℕ V) → is_nil m ≡ true → lookup k m ≡ none
  unfolding lookup
  lookup_of_is_nil k [] h = refl
  lookup_of_is_nil k (x ∷ m) h = cc

unfoldable pub is_at : String → String → String → TangoAttrEventType → Bool
is_at d a ty info =
    str_beq info.device_name d && str_beq info.attr_name a && str_beq info.event_type_string ty

module _ (t : Tango) (unset : ℕ) (hdl h : ℕ) (info : TangoAttrEventType) (d a ty : String) where
  pub get_id-clear :
      (s : EventProcCli)
      → get_id_of_event_subscription (clear_subscr_info_maps info s) h d a ty
        ≡ (if is_at d a ty info then none else get_id_of_event_subscription s h d a ty)
  unfolding get_id_of_event_subscription clear_subscr_info_maps is_at
  get_id-clear s = ground (
    arith,
    lookup3-erase_pruned info.device_name d info.attr_name a info.event_type_string ty s.event_subs,
  )

  del_sub_hdl_lookup :
      (e : Env t)
      → let u = sub_at unset e.proc info.device_name info.attr_name info.event_type_string in
        lookup3 d a ty (del_sub_hdl t unset hdl info e).1.proc.event_subs ≡ (
          if is_at d a ty info
          then some (record u { conn_list = erase hdl u.conn_list })
          else lookup3 d a ty e.proc.event_subs)
  unfolding del_sub_hdl is_at
  del_sub_hdl_lookup e =
      let u = sub_at unset e.proc info.device_name info.attr_name info.event_type_string in
      ground (
        arith,
        lookup3-assign3 info.device_name d info.attr_name a info.event_type_string ty
            (record u { conn_list = erase hdl u.conn_list }) e.proc.event_subs,
      )

  is_at-sub_at :
      (s : EventProcCli)
      → is_at d a ty info ≡ true
      → sub_at unset s info.device_name info.attr_name info.event_type_string
        ≡ sub_at unset s d a ty
  unfolding is_at
  is_at-sub_at s same =
      ground (
        arith,
        eq_iff info.device_name d,
        eq_iff info.attr_name a,
        eq_iff info.event_type_string ty,
      )

  pub get_id-del_sub_hdl :
      (e : Env t)
      → get_id_of_event_subscription (del_sub_hdl t unset hdl info e).1.proc h d a ty ≡ (
          if is_at d a ty info && (hdl == h)
          then none
          else get_id_of_event_subscription e.proc h d a ty)
  unfolding get_id_of_event_subscription sub_at
  get_id-del_sub_hdl e = elim (Bool-cases (is_at d a ty info)) [
    | inl same ↦
        let u = sub_at unset e.proc d a ty in
        ground (
          arith,
          del_sub_hdl_lookup e,
          is_at-sub_at e.proc same,
          lookup-erase hdl h u.conn_list,
          lookup_of_is_nil h u.conn_list,
        )
    | inr other ↦ ground (arith, del_sub_hdl_lookup e)
  ]

  pub del_sub_hdl_alone :
      (e : Env t)
      → (del_sub_hdl t unset hdl info e).0 ≡ true
      → h ≢ hdl
      → is_at d a ty info ≡ true
      → get_id_of_event_subscription e.proc h d a ty ≡ none
  unfolding get_id_of_event_subscription del_sub_hdl sub_at is_at
  del_sub_hdl_alone e alone ne same =
      let u = sub_at unset e.proc info.device_name info.attr_name info.event_type_string in
      ground (
        arith,
        eq_iff info.device_name d,
        eq_iff info.attr_name a,
        eq_iff info.event_type_string ty,
        lookup-erase hdl h u.conn_list,
        lookup_of_is_nil h (erase hdl u.conn_list),
      )

-- A removal by `hdl` leaves what `h` has subscribed to.
module _ (t : Tango) (unset : ℕ) (hdl h : ℕ) (apart : h ≢ hdl) (d a ty : String) where
  get_id-clear_if :
      (info : TangoAttrEventType) (e : Env t)
      → get_id_of_event_subscription
          (clear_if t unset hdl info (del_sub_hdl t unset hdl info e)).proc
          h
          d
          a
          ty
        ≡ get_id_of_event_subscription e.proc h d a ty
  unfolding clear_if
  get_id-clear_if info e = ground (
    arith,
    get_id-clear t unset hdl h info d a ty (del_sub_hdl t unset hdl info e).1.proc,
    get_id-del_sub_hdl t unset hdl h info d a ty e,
    del_sub_hdl_alone t unset hdl h info d a ty e,
  )

  pub get_id-remove_subscription :
      (info : TangoAttrEventType) (e : Env t)
      → get_id_of_event_subscription (remove_subscription t unset hdl info e).proc h d a ty
        ≡ get_id_of_event_subscription e.proc h d a ty
  unfolding remove_subscription forget_type get_id_of_event_subscription
  get_id-remove_subscription info e = get_id-clear_if info e

  -- What `h` has at this place is none, if one of the cleared subscriptions was there.
  abbrev Gone : Option ℕ → TangoAttrEventType → Type 0
  Gone v info = is_at d a ty info ≡ true → v ≡ none

  get_id-del_each :
      (infos : List TangoAttrEventType) (e : Env t)
      → get_id_of_event_subscription (del_each t unset hdl infos e).1.proc h d a ty
        ≡ get_id_of_event_subscription e.proc h d a ty
  unfolding del_each
  get_id-del_each [] e = refl
  get_id-del_each (info ∷ infos) e =
      get_id-del_each infos (del_sub_hdl t unset hdl info e).1
      ∙ ground (arith, get_id-del_sub_hdl t unset hdl h info d a ty e, nat_eq.beq_iff hdl h)

  All-Gone-del_each :
      (v : Option ℕ) (infos : List TangoAttrEventType) (e : Env t)
      → get_id_of_event_subscription e.proc h d a ty ≡ v
      → All (Gone v) (del_each t unset hdl infos e).0
  unfolding del_each
  All-Gone-del_each v [] e same = tt
  All-Gone-del_each v (info ∷ infos) e same =
      let rest =
        All-Gone-del_each v infos (del_sub_hdl t unset hdl info e).1
          (ground (arith, get_id-del_sub_hdl t unset hdl h info d a ty e, nat_eq.beq_iff hdl h)) in
      elim (Bool-cases (del_sub_hdl t unset hdl info e).0) [
        | inl alone ↦
            rw alone (
              (λ at. sym same ∙ del_sub_hdl_alone t unset hdl h info d a ty e alone apart at),
              rest,
            )
        | inr kept ↦ rw kept rest
      ]

  get_id-clear_each :
      (infos : List TangoAttrEventType) (s : EventProcCli)
      → All (Gone (get_id_of_event_subscription s h d a ty)) infos
      → get_id_of_event_subscription (clear_each t unset hdl infos s) h d a ty
        ≡ get_id_of_event_subscription s h d a ty
  unfolding clear_each
  get_id-clear_each [] s gone = refl
  get_id-clear_each (info ∷ infos) s (here, later) =
      let same : get_id_of_event_subscription (clear_subscr_info_maps info s) h d a ty
          ≡ get_id_of_event_subscription s h d a ty =
        ground (arith, get_id-clear t unset hdl h info d a ty s) in
      get_id-clear_each infos (clear_subscr_info_maps info s) (rw same later) ∙ same

  get_id-unsubscribe_listed :
      (infos : List TangoAttrEventType) (e : Env t)
      → get_id_of_event_subscription (unsubscribe_listed t unset hdl infos e).proc h d a ty
        ≡ get_id_of_event_subscription e.proc h d a ty
  unfolding unsubscribe_listed get_id_of_event_subscription
  get_id-unsubscribe_listed infos e =
      get_id-clear_each (del_each t unset hdl infos e).0 (del_each t unset hdl infos e).1.proc
        (All-Gone-del_each _ infos e (sym (get_id-del_each infos e)))
      ∙ get_id-del_each infos e

  -- When a client leaves, or turns its events off, the subscriptions of the others stay.
  pub get_id-unsubscribe_all_dev :
      (e : Env t)
      → get_id_of_event_subscription (unsubscribe_all_dev t unset hdl e).proc h d a ty
        ≡ get_id_of_event_subscription e.proc h d a ty
  unfolding unsubscribe_all_dev get_id_of_event_subscription
  get_id-unsubscribe_all_dev e = elim (Bool-cases (is_nil (index hdl [] e.proc.event_types))) [
    | inl none_listed ↦ rw none_listed
    | inr some_listed ↦ rw some_listed (get_id-unsubscribe_listed _ e)
  ]
