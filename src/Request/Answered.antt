-- ===== src/Request/Answered.antt =====
-- src/wstangoproc_common/ParsingInputJson.cpp: every text that a client sends becomes a request with
-- the keys its handler reads, or an error for the client.
use web_socket_ds.Base.{
  if_holds, ◌≡◌, sym, refl, ap, ◌∙◌, String, true, false, not, List, [], ◌∷◌, Option, arith,
  if◌then◌else◌, nonempty, contains,
}
use web_socket_ds.Base.Dict.{Dict}
use web_socket_ds.Wire.{Mode, server_mode, client_mode, ErrorType}
use web_socket_ds.Wire.Kinds.{is_unknown}
use web_socket_ds.Request.{ParsedInputJson, check_key, check_keys, is_value}
use web_socket_ds.Request.EventLists.{Ptree, events_under}
use web_socket_ds.Request.Validity.{
  reject, has_value, check_rem_dev, check_check_dev, add_lists, check_add_dev, set_periodic,
  set_change, set_user, set_archive, check_validity, has_value,
}
use web_socket_ds.Request.Parse.{
  Elements, unchecked, of_unknown_type, read_elements, parse_input_json,
}
use web_socket_ds.Request.Complete.{
  server-Whole, exception_string_out-nonempty, has_events, has_keys, Fresh, Whole, by_type-Whole,
  check_by_type-Sound, check_keys_three,
}

module _ (b : Ptree) where
  set_all-events :
      (p : ParsedInputJson b.Tree) (o1 o2 o3 o4 : Option (Dict String (List String)))
      → p.is_valid ≡ false
      → p.periodic_ev_sub_list ≡ []
      → p.change_ev_sub_list ≡ []
      → p.user_ev_sub_list ≡ []
      → p.archive_ev_sub_list ≡ []
      → (set_archive b (set_user b (set_change b (set_periodic b p o1) o2) o3) o4).is_valid
        ≡ has_events (set_archive b (set_user b (set_change b (set_periodic b p o1) o2) o3) o4)
  set_all-events p o1 o2 o3 o4 h hp hc hu ha = ground arith

  add_lists-text :
      (p : ParsedInputJson b.Tree) (o1 o2 o3 o4 : Option (Dict String (List String)))
      → (set_archive b (set_user b (set_change b (set_periodic b p o1) o2) o3) o4).type_req_str
        ≡ p.type_req_str
  add_lists-text p o1 o2 o3 o4 = ground arith

  add_lists-message :
      (p : ParsedInputJson b.Tree) (o1 o2 o3 o4 : Option (Dict String (List String)))
      → (set_archive b (set_user b (set_change b (set_periodic b p o1) o2) o3) o4).err_mess
        ≡ p.err_mess
  add_lists-message p o1 o2 o3 o4 = ground arith

  has_keys_add_dev :
      (q : ParsedInputJson b.Tree)
      → contains "eventreq_add_dev" q.type_req_str ≡ true
      → has_events q ≡ true
      → has_keys client_mode q ≡ true
  has_keys_add_dev q h k = rw h k

  -- A request in which no list of events has been set.
  abbrev NoEvents : ParsedInputJson b.Tree → Type 0
  NoEvents p =
      (p.periodic_ev_sub_list ≡ [])
      × (p.change_ev_sub_list ≡ [])
      × (p.user_ev_sub_list ≡ [])
      × (p.archive_ev_sub_list ≡ [])

  added-Whole :
      (q : ParsedInputJson b.Tree)
      → q.err_mess ≡ ""
      → contains "eventreq_add_dev" q.type_req_str ≡ true
      → q.is_valid ≡ has_events q
      → Whole client_mode (
          if not q.is_valid
          then reject ErrorType.check_request "No attribute found for event subscription" q
          else q)
  unfolding reject Whole
  added-Whole q e h v =
      if_holds (Whole client_mode) (not q.is_valid) _ _
        (λ invalid. (exception_string_out-nonempty _ ∙ sym invalid, λ k. cc (k, invalid)))
        (λ valid. (ap nonempty e ∙ sym valid, λ k. has_keys_add_dev q h (sym v ∙ k)))

  -- What `added-Whole` asks of the lists that the request brings.
  abbrev Added : ParsedInputJson b.Tree → ParsedInputJson b.Tree → Type 0
  Added p q =
      (q.is_valid ≡ has_events q) × (q.type_req_str ≡ p.type_req_str) × (q.err_mess ≡ p.err_mess)

  add_lists-Added :
      (p : ParsedInputJson b.Tree) → p.is_valid ≡ false → NoEvents p → Added p (add_lists b p)
  unfolding add_lists
  add_lists-Added p f (hp, hc, hu, ha) =
      let o1 = events_under b p "periodic" in
      let p1 = set_periodic b p o1 in
      let o2 = events_under b p1 "change" in
      let p2 = set_change b p1 o2 in
      let o3 = events_under b p2 "user" in
      let p3 = set_user b p2 o3 in
      let o4 = events_under b p3 "archive" in
      (
        set_all-events p o1 o2 o3 o4 f hp hc hu ha,
        add_lists-text p o1 o2 o3 o4,
        add_lists-message p o1 o2 o3 o4,
      )

  check_add_dev-Whole :
      (p : ParsedInputJson b.Tree)
      → Fresh p
      → NoEvents p
      → contains "eventreq_add_dev" p.type_req_str ≡ true
      → Whole client_mode (check_add_dev b p)
  unfolding check_add_dev
  check_add_dev-Whole p fresh none_yet h =
      let (valid, text, message) = add_lists-Added p (fresh.0) none_yet in
      added-Whole (add_lists b p) (message ∙ fresh.1) (ap (contains "eventreq_add_dev") text ∙ h)
        valid

  reject-Whole :
      (mode : Mode) (kind : ErrorType) (message : String) (p : ParsedInputJson b.Tree)
      → p.is_valid ≡ false
      → Whole mode (reject kind message p)
  unfolding reject Whole
  reject-Whole mode kind message p f =
      (exception_string_out-nonempty _ ∙ sym (ap not f), λ k. cc (k, f))

  accepted-Whole :
      (p : ParsedInputJson b.Tree)
      → p.err_mess ≡ ""
      → has_keys client_mode p ≡ true
      → Whole client_mode (record p { is_valid = true })
  unfolding check_key Whole
  accepted-Whole p e k = (ap nonempty e, λ v. k)

  check_validity-Whole :
      (mode : Mode) (p : ParsedInputJson b.Tree)
      → Fresh p
      → NoEvents p
      → Whole mode (check_validity b mode p)
  unfolding check_validity check_rem_dev check_check_dev
  check_validity-Whole server_mode p fresh none_yet =
      if_holds (Whole server_mode) (contains "eventreq" p.type_req_str) _ _
        (λ h. reject-Whole server_mode _ _ p (fresh.0))
        (λ h. server-Whole _ (check_by_type-Sound server_mode p fresh))
  check_validity-Whole client_mode p fresh none_yet =
      if_holds (Whole client_mode) (contains "eventreq_add_dev" p.type_req_str) _ _
        (λ h. check_add_dev-Whole p fresh none_yet h)
        (λ h1.
          if_holds (Whole client_mode) (contains "eventreq_rem_dev" p.type_req_str) _ _
            (λ h.
              if_holds (Whole client_mode) (not (has_value p "event_sub_id")) _ _
                (λ h'. reject-Whole client_mode _ _ p (fresh.0))
                (λ h'. accepted-Whole p (fresh.1) (rw (h1, h) (ground arith))))
            (λ h2.
              if_holds (Whole client_mode) (contains "eventreq_check_dev" p.type_req_str) _ _
                (λ h.
                  if_holds (Whole client_mode)
                    (not (is_value (check_keys p ("event_type" ∷ "device" ∷ "attribute" ∷ [])))) _ _
                    (λ h'. reject-Whole client_mode _ _ p (fresh.0))
                    (λ h'. accepted-Whole p (fresh.1) (
                      rw (h1, h2, h)
                        (check_keys_three p "event_type" "device" "attribute" (ground arith)))))
                (λ h3.
                  if_holds (Whole client_mode) (contains "eventreq_off" p.type_req_str) _ _
                    (λ h. accepted-Whole p (fresh.1) (rw (h1, h2, h3, h) refl))
                    (λ h4. by_type-Whole client_mode p fresh h1 h2 h3 h4))))

  of_unknown_type-Whole :
      (mode : Mode) (json : String) (s : Elements b.Tree) → Whole mode (of_unknown_type b json s)
  unfolding Whole of_unknown_type unchecked
  of_unknown_type-Whole mode json s = (exception_string_out-nonempty _, λ v. cc v)

  unchecked-Whole :
      (mode : Mode) (json : String) (s : Elements b.Tree)
      → Whole mode (check_validity b mode (unchecked b json s))
  unfolding unchecked
  unchecked-Whole mode json s =
      check_validity-Whole mode (unchecked b json s) (refl, refl) (refl, refl, refl, refl)

  parse_input_json-Whole : (mode : Mode) (json : String) → Whole mode (parse_input_json b mode json)
  unfolding parse_input_json
  parse_input_json-Whole mode json =
      let s = read_elements b (b.read_json json) in
      if_holds (Whole mode) (is_unknown s.type_req) _ _ (λ h. of_unknown_type-Whole mode json s)
        (λ h. unchecked-Whole mode json s)

  -- Whatever text a client sends, in either build, the request that comes of it is valid or has an
  -- error to send back, and never both.
  pub parse_input_json_answered :
      (mode : Mode) (json : String)
      → nonempty (parse_input_json b mode json).err_mess
        ≡ not (parse_input_json b mode json).is_valid
  unfolding Whole
  parse_input_json_answered mode json = (parse_input_json-Whole mode json).0

  -- A request that comes out valid has the keys that its handler reads, as values or, for the
  -- attributes to read, as values or a list: `command_name`, `pipe_name` or `attr_name`, with
  -- `device_name` in the client build; `login` and `password`; or, for events, a list of
  -- attributes, `event_sub_id`, or the event's type, device and attribute. Only `user_status` and
  -- `eventreq_off` need no key.
  pub parse_input_json_complete :
      (mode : Mode) (json : String)
      → (parse_input_json b mode json).is_valid ≡ true
      → has_keys mode (parse_input_json b mode json) ≡ true
  unfolding Whole
  parse_input_json_complete mode json valid = (parse_input_json-Whole mode json).1 valid
