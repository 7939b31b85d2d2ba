-- ===== src/Events/Isolation/Quiet.antt =====
-- The invariant that the additions rest on: an entry with no callback has no client.
use web_socket_ds.Base.{
  ◌≡◌, refl, ℕ, String, true, false, List, [], ◌∷◌, some, arith, ◌&&◌, is_nil, Bool-cases,
  Option-cases, inl, inr,
}
use web_socket_ds.Base.Dict.{Dict, lookup, erase, index, string_eq, nat_eq, ◌==◌}
use web_socket_ds.Base.Nested.{
  lookup3, assign3, erase_pruned, erase_kept, lookup3-assign3, lookup3-erase_pruned,
  lookup3-erase_kept,
}
use web_socket_ds.Events.State.{
  TangoAttrEventType, UsedEventSubscr, Tango, EventProcCli, Env, sub_at, del_sub_hdl,
  clear_subscr_info_maps, empty,
}
use web_socket_ds.Events.Unsubscribe.{
  clear_if, forget_type, remove_subscription, del_each, clear_each, unsubscribe_listed,
  unsubscribe_all_dev,
}

abbrev pub Subs : Type 0
Subs = Dict String (Dict String (Dict String UsedEventSubscr))

abbrev pub QuietEntry : UsedEventSubscr → Type 0
QuietEntry u = u.ev_callback ≡ false → is_nil u.conn_list ≡ true

abbrev pub IsQuiet : Subs → Type 0
IsQuiet m = (d a ty : String) (u : UsedEventSubscr) → lookup3 d a ty m ≡ some u → QuietEntry u

pub IsQuiet-empty : IsQuiet empty.event_subs
unfolding empty lookup3 lookup
IsQuiet-empty d a ty u h = cc

module _ (b c e : String) where
  pub IsQuiet-assign3 :
      (v : UsedEventSubscr) (m : Subs) → QuietEntry v → IsQuiet m → IsQuiet (assign3 b c e v m)
  IsQuiet-assign3 v m new old d a ty u h f = elim (Bool-cases (b == d && c == a && e == ty)) [
    | inl same ↦ ground (arith, lookup3-assign3 b d c a e ty v m)
    | inr other ↦ old d a ty u (ground (arith, lookup3-assign3 b d c a e ty v m)) f
  ]

  pub IsQuiet-erase_pruned : (m : Subs) → IsQuiet m → IsQuiet (erase_pruned b c e m)
  IsQuiet-erase_pruned m old d a ty u h f =
      old d a ty u (ground (arith, lookup3-erase_pruned b d c a e ty m)) f

  pub IsQuiet-erase_kept : (m : Subs) → IsQuiet m → IsQuiet (erase_kept b c e m)
  IsQuiet-erase_kept m old d a ty u h f =
      old d a ty u (ground (arith, lookup3-erase_kept b d c a e ty m)) f

is_nil-erase : (k : ℕ) (m : Dict ℕ String) → is_nil m ≡ true → is_nil (erase k m) ≡ true
unfolding erase
is_nil-erase k [] h = refl
is_nil-erase k (x ∷ m) h = cc

pub sub_at-IsQuiet :
    (unset : ℕ) (s : EventProcCli) (d a ty : String)
    → IsQuiet s.event_subs
    → QuietEntry (sub_at unset s d a ty)
unfolding sub_at
sub_at-IsQuiet unset s d a ty q = elim (Option-cases (lookup3 d a ty s.event_subs)) [
  | inl missing ↦ rw (missing, sub_at) (λ _. refl)
  | inr (u, found) ↦ rw (found, sub_at) (q d a ty u found)
]

module _ (t : Tango) (unset : ℕ) (hdl : ℕ) where
  abbrev pub Quiet : Env t → Type 0
  Quiet e = IsQuiet e.proc.event_subs

  pub del_sub_hdl-IsQuiet :
      (info : TangoAttrEventType) (e : Env t) → Quiet e → Quiet (del_sub_hdl t unset hdl info e).1
  unfolding del_sub_hdl
  del_sub_hdl-IsQuiet info e q =
      let u = sub_at unset e.proc info.device_name info.attr_name info.event_type_string in
      let kept =
        IsQuiet-assign3 info.device_name info.attr_name info.event_type_string
          (record u { conn_list = erase hdl u.conn_list }) e.proc.event_subs
          (λ f. is_nil-erase hdl u.conn_list (
            sub_at-IsQuiet unset e.proc info.device_name info.attr_name info.event_type_string q f))
          q in
      elim (Bool-cases (is_nil (erase hdl u.conn_list))) [
        | inl alone ↦ rw alone kept
        | inr others ↦ rw others kept
      ]

  clear-IsQuiet :
      (info : TangoAttrEventType) (s : EventProcCli)
      → IsQuiet s.event_subs
      → IsQuiet (clear_subscr_info_maps info s).event_subs
  unfolding clear_subscr_info_maps
  clear-IsQuiet info s =
      IsQuiet-erase_pruned info.device_name info.attr_name info.event_type_string s.event_subs

  pub remove_subscription-IsQuiet :
      (info : TangoAttrEventType) (e : Env t)
      → Quiet e
      → Quiet (remove_subscription t unset hdl info e)
  unfolding remove_subscription forget_type clear_if
  remove_subscription-IsQuiet info e q =
      let gone = del_sub_hdl-IsQuiet info e q in
      elim (Bool-cases (del_sub_hdl t unset hdl info e).0) [
        | inl alone ↦ rw alone (clear-IsQuiet info _ gone)
        | inr others ↦ rw others gone
      ]

  del_each-IsQuiet :
      (infos : List TangoAttrEventType) (e : Env t)
      → Quiet e
      → Quiet (del_each t unset hdl infos e).1
  unfolding del_each
  del_each-IsQuiet [] e q = q
  del_each-IsQuiet (info ∷ infos) e q = del_each-IsQuiet infos _ (del_sub_hdl-IsQuiet info e q)

  clear_each-IsQuiet :
      (infos : List TangoAttrEventType) (s : EventProcCli)
      → IsQuiet s.event_subs
      → IsQuiet (clear_each t unset hdl infos s).event_subs
  unfolding clear_each
  clear_each-IsQuiet [] s q = q
  clear_each-IsQuiet (info ∷ infos) s q = clear_each-IsQuiet infos _ (clear-IsQuiet info s q)

  pub unsubscribe_all_dev-IsQuiet :
      (e : Env t) → Quiet e → Quiet (unsubscribe_all_dev t unset hdl e)
  unfolding unsubscribe_all_dev unsubscribe_listed
  unsubscribe_all_dev-IsQuiet e q = elim (Bool-cases (is_nil (index hdl [] e.proc.event_types))) [
    | inl none_listed ↦ rw none_listed q
    | inr some_listed ↦ rw some_listed (clear_each-IsQuiet _ _ (del_each-IsQuiet _ e q))
  ]
