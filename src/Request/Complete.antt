-- ===== src/Request/Complete.antt =====
-- src/wstangoproc_common/ParsingInputJson.cpp: what a request that passes `_checkValidity` has, and
-- that one that does not pass has an error for the client.
use Prim.Native.String.{count}
use text.Mathlib.TextLemmas.{length-append}
use web_socket_ds.Base.{
  if_holds, ◌≡◌, refl, ap, ◌∙◌, eq_iff, str_beq, String, Bool, true, false, not, ◌&&◌, ◌||◌, [],
  ◌∷◌, arith, Bool-cases, inl, inr, if◌then◌else◌, nonempty, is_nil, contains, ◌<>◌,
}
use web_socket_ds.Wire.{Mode, server_mode, client_mode, TypeWsReq, ErrorType}
use web_socket_ds.Wire.Kinds.{
  is_client, is_command, is_pipe, is_attribute_write, is_attribute_read, is_command_dev_client,
  is_change_user, is_user_check_status,
}
use web_socket_ds.Request.{ParsedInputJson, check_key, check_keys, check_rest, is_value, is_array}
use web_socket_ds.Request.Validity.{
  reject, accept, has_value, with_device, check_command, check_pipe, check_attribute_write,
  check_attribute_read, check_change_user, unknown_request, check_by_type,
}
use web_socket_ds.StringProc.Response.{ErrorInfo, exception_string_out}

opening-nonempty : (s : String) → str_beq ("{\"event\": \"error\"" <> s) "" ≡ false
opening-nonempty s =
    let e = length-append "{\"event\": \"error\"" s in
    elim (Bool-cases (str_beq ("{\"event\": \"error\"" <> s) "")) [
      | inl empty ↦
          absurd (ground (arith, e, ap count ((eq_iff ("{\"event\": \"error\"" <> s) "").0 empty)))
      | inr full ↦ full
    ]

pub exception_string_out-nonempty : (e : ErrorInfo) → nonempty (exception_string_out e) ≡ true
unfolding exception_string_out
exception_string_out-nonempty e = ap not (opening-nonempty _)

change_user-eq : (t : TypeWsReq) → is_change_user t ≡ true → t ≡ TypeWsReq.change_user
change_user-eq t h = ground arith

user_check_status-eq :
    (t : TypeWsReq) → is_user_check_status t ≡ true → t ≡ TypeWsReq.user_check_status
user_check_status-eq t h = ground arith

module _ {Tree : Type 0} where
  -- The keys that the handlers of a request read, by the type that the checks leave.
  abbrev pub keys_for : Mode → ParsedInputJson Tree → TypeWsReq → Bool
  keys_for mode p t =
      let device = not (is_client mode) || is_value (check_key p "device_name") in
      elim t [
        | TypeWsReq.command ↦ is_value (check_key p "command_name") && device
        | TypeWsReq.pipe_comm ↦ is_value (check_key p "pipe_name") && device
        | TypeWsReq.attribute_write ↦ is_value (check_key p "attr_name") && device
        | TypeWsReq.attribute_read ↦
            (is_value (check_key p "attr_name") || is_array (check_key p "attr_name")) && device
        | TypeWsReq.change_user ↦
            is_value (check_key p "login") && is_value (check_key p "password")
        | TypeWsReq.user_check_status ↦ true
        | _ ↦ false
      ]

  abbrev pub has_events : ParsedInputJson Tree → Bool
  has_events q =
      not (is_nil q.periodic_ev_sub_list)
      || not (is_nil q.change_ev_sub_list)
      || not (is_nil q.user_ev_sub_list)
      || not (is_nil q.archive_ev_sub_list)

  -- The same with the requests for events, which only the client build accepts.
  abbrev pub has_keys : Mode → ParsedInputJson Tree → Bool
  has_keys server_mode q = keys_for server_mode q q.type_req
  has_keys client_mode q =
      if contains "eventreq_add_dev" q.type_req_str
      then has_events q
      else if contains "eventreq_rem_dev" q.type_req_str
      then is_value (check_key q "event_sub_id")
      else if contains "eventreq_check_dev" q.type_req_str
      then is_value (check_key q "event_type")
        && (is_value (check_key q "device") && is_value (check_key q "attribute"))
      else if contains "eventreq_off" q.type_req_str
      then true
      else keys_for client_mode q q.type_req

  -- A valid request has its keys, and no error; any other has an error.
  unfoldable pub Sound : Mode → ParsedInputJson Tree → Type 0
  Sound mode q =
      (nonempty q.err_mess ≡ not q.is_valid)
      × (q.is_valid ≡ true → keys_for mode q q.type_req ≡ true)

  abbrev pub Fresh : ParsedInputJson Tree → Type 0
  Fresh p = (p.is_valid ≡ false) × (p.err_mess ≡ "")

  reject-Sound :
      (mode : Mode) (kind : ErrorType) (message : String) (p : ParsedInputJson Tree)
      → Fresh p
      → Sound mode (reject kind message p)
  unfolding reject check_key Sound
  reject-Sound mode kind message p (f, e) = (rw f (exception_string_out-nonempty _), λ h. cc (f, h))

  with_device-Sound :
      (mode : Mode) (kind : ErrorType) (t : TypeWsReq) (p : ParsedInputJson Tree)
      → Fresh p
      → (is_client mode && not (has_value p "device_name") ≡ false → keys_for mode p t ≡ true)
      → Sound mode (with_device mode kind t p)
  unfolding with_device accept check_key Sound
  with_device-Sound mode kind t p fresh keys =
      if_holds (Sound mode) (is_client mode && not (has_value p "device_name")) _ _
        (λ h. reject-Sound mode kind _ p fresh) (λ h. (rw (fresh.1) refl, λ v. keys h))

  check_command-Sound :
      (mode : Mode) (p : ParsedInputJson Tree) → Fresh p → Sound mode (check_command mode p)
  unfolding check_command
  check_command-Sound mode p fresh =
      if_holds (Sound mode) (not (has_value p "command_name")) _ _
        (λ h. reject-Sound mode _ _ p fresh)
        (λ h.
          if_holds (Sound mode) (not (is_client mode) && is_command_dev_client p.type_req) _ _
            (λ h'. reject-Sound mode _ _ p fresh)
            (λ h'. with_device-Sound mode _ _ p fresh (λ d. ground arith)))

  check_pipe-Sound :
      (mode : Mode) (p : ParsedInputJson Tree) → Fresh p → Sound mode (check_pipe mode p)
  unfolding check_pipe
  check_pipe-Sound mode p fresh =
      if_holds (Sound mode) (not (has_value p "pipe_name")) _ _ (λ h. reject-Sound mode _ _ p fresh)
        (λ h. with_device-Sound mode _ _ p fresh (λ d. ground arith))

  check_attribute_write-Sound :
      (mode : Mode) (p : ParsedInputJson Tree) → Fresh p → Sound mode (check_attribute_write mode p)
  unfolding check_attribute_write
  check_attribute_write-Sound mode p fresh =
      if_holds (Sound mode) (not (has_value p "attr_name")) _ _ (λ h. reject-Sound mode _ _ p fresh)
        (λ h. with_device-Sound mode _ _ p fresh (λ d. ground arith))

  check_attribute_read-Sound :
      (mode : Mode) (p : ParsedInputJson Tree) → Fresh p → Sound mode (check_attribute_read mode p)
  unfolding check_attribute_read
  check_attribute_read-Sound mode p fresh =
      if_holds (Sound mode)
        (not (has_value p "attr_name") && not (is_array (check_key p "attr_name"))) _ _
        (λ h. reject-Sound mode _ _ p fresh)
        (λ h. with_device-Sound mode _ _ p fresh (λ d. ground arith))

  check_keys_pair :
      (p : ParsedInputJson Tree) (k l : String)
      → is_value (check_keys p (k ∷ l ∷ [])) ≡ true
      → is_value (check_key p k) && is_value (check_key p l) ≡ true
  unfolding check_keys check_rest
  check_keys_pair p k l h = ground arith

  pub check_keys_three :
      (p : ParsedInputJson Tree) (k l m : String)
      → is_value (check_keys p (k ∷ l ∷ m ∷ [])) ≡ true
      → is_value (check_key p k) && (is_value (check_key p l) && is_value (check_key p m)) ≡ true
  unfolding check_keys check_rest
  check_keys_three p k l m h = ground arith

  keys_for_change_user :
      (mode : Mode) (q : ParsedInputJson Tree) (t : TypeWsReq)
      → t ≡ TypeWsReq.change_user
      → is_value (check_key q "login") && is_value (check_key q "password") ≡ true
      → keys_for mode q t ≡ true
  keys_for_change_user mode q t e h = rw e h

  keys_for_status :
      (mode : Mode) (q : ParsedInputJson Tree) (t : TypeWsReq)
      → t ≡ TypeWsReq.user_check_status
      → keys_for mode q t ≡ true
  keys_for_status mode q t e = rw e refl

  accepted-Sound :
      (mode : Mode) (p : ParsedInputJson Tree)
      → Fresh p
      → keys_for mode p p.type_req ≡ true
      → Sound mode (record p { is_valid = true })
  unfolding Sound check_key
  accepted-Sound mode p fresh keys = (rw (fresh.1) refl, λ v. keys)

  check_change_user-Sound :
      (mode : Mode) (p : ParsedInputJson Tree)
      → Fresh p
      → p.type_req ≡ TypeWsReq.change_user
      → Sound mode (check_change_user p)
  unfolding check_change_user
  check_change_user-Sound mode p fresh kind =
      if_holds (Sound mode) (not (is_value (check_keys p ("login" ∷ "password" ∷ [])))) _ _
        (λ h. reject-Sound mode _ _ p fresh)
        (λ h. accepted-Sound mode p fresh (
          keys_for_change_user mode p p.type_req kind
            (check_keys_pair p "login" "password" (ground arith))))

  unknown_request-Sound : (mode : Mode) (p : ParsedInputJson Tree) → Sound mode (unknown_request p)
  unfolding unknown_request Sound
  unknown_request-Sound mode p = (exception_string_out-nonempty _, λ h. cc h)

  pub check_by_type-Sound :
      (mode : Mode) (p : ParsedInputJson Tree) → Fresh p → Sound mode (check_by_type mode p)
  unfolding check_by_type
  check_by_type-Sound mode p fresh =
      if_holds (Sound mode) (is_command p.type_req) _ _ (λ h. check_command-Sound mode p fresh)
        (λ h1.
          if_holds (Sound mode) (is_pipe p.type_req) _ _ (λ h. check_pipe-Sound mode p fresh)
            (λ h2.
              if_holds (Sound mode) (is_attribute_write p.type_req) _ _
                (λ h. check_attribute_write-Sound mode p fresh)
                (λ h3.
                  if_holds (Sound mode) (is_attribute_read p.type_req) _ _
                    (λ h. check_attribute_read-Sound mode p fresh)
                    (λ h4.
                      if_holds (Sound mode) (is_change_user p.type_req) _ _
                        (λ h. check_change_user-Sound mode p fresh (change_user-eq p.type_req h))
                        (λ h5.
                          if_holds (Sound mode) (is_user_check_status p.type_req) _ _
                            (λ h. accepted-Sound mode p fresh (
                              keys_for_status mode p p.type_req
                                (user_check_status-eq p.type_req h)))
                            (λ h6. unknown_request-Sound mode p))))))

  unfoldable pub Whole : Mode → ParsedInputJson Tree → Type 0
  Whole mode q =
      (nonempty q.err_mess ≡ not q.is_valid) × (q.is_valid ≡ true → has_keys mode q ≡ true)

  check_by_type-text :
      (mode : Mode) (p : ParsedInputJson Tree)
      → (check_by_type mode p).type_req_str ≡ p.type_req_str
  unfolding check_by_type check_command check_pipe check_attribute_write check_attribute_read
      check_change_user unknown_request with_device accept reject
  check_by_type-text mode p = ground arith

  pub has_keys_by_type :
      (q : ParsedInputJson Tree)
      → contains "eventreq_add_dev" q.type_req_str ≡ false
      → contains "eventreq_rem_dev" q.type_req_str ≡ false
      → contains "eventreq_check_dev" q.type_req_str ≡ false
      → contains "eventreq_off" q.type_req_str ≡ false
      → keys_for client_mode q q.type_req ≡ true
      → has_keys client_mode q ≡ true
  has_keys_by_type q h1 h2 h3 h4 k = rw (h1, h2, h3, h4) k

  pub by_type-Whole :
      (mode : Mode) (p : ParsedInputJson Tree)
      → Fresh p
      → contains "eventreq_add_dev" p.type_req_str ≡ false
      → contains "eventreq_rem_dev" p.type_req_str ≡ false
      → contains "eventreq_check_dev" p.type_req_str ≡ false
      → contains "eventreq_off" p.type_req_str ≡ false
      → Whole mode (check_by_type mode p)
  unfolding Sound Whole
  by_type-Whole server_mode p fresh h1 h2 h3 h4 = check_by_type-Sound server_mode p fresh
  by_type-Whole client_mode p fresh h1 h2 h3 h4 =
      let sound = check_by_type-Sound client_mode p fresh in
      let text = check_by_type-text client_mode p in
      (
        sound.0,
        λ v.
            has_keys_by_type (check_by_type client_mode p)
              (ap (contains "eventreq_add_dev") text ∙ h1)
              (ap (contains "eventreq_rem_dev") text ∙ h2)
              (ap (contains "eventreq_check_dev") text ∙ h3)
              (ap (contains "eventreq_off") text ∙ h4) (sound.1 v),
      )

  pub server-Whole : (q : ParsedInputJson Tree) → Sound server_mode q → Whole server_mode q
  unfolding Sound Whole
  server-Whole q sound = sound
