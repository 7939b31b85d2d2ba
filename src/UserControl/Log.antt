-- ===== src/UserControl/Log.antt =====
-- src/wstangoproc_common/UserControl.cpp: what `check_permission` leaves in the log of AuthDS.
use web_socket_ds.Base.{
  ◌≡◌, refl, sym, ap, ◌++◌, ℕ, ◌%◌, ◌^◌, String, ◌<>◌, Bool, true, false, List, [], ◌∷◌, Option,
  none, some, if◌then◌else◌,
}
use web_socket_ds.Base.Int.{show_nat}
use web_socket_ds.Wire.{permission_www, simple, TypeOfIdent}
use web_socket_ds.Request.{ParsedInputJson}
use web_socket_ds.UserControl.{
  AuthDs, Other, Result, ok, runtime_error, other_exception, UserControl, UserData, is_www,
  bit_text, permission_target, get_permission_data, log_data, item, dev_failed, check_permission,
  after_data, after_connect, after_command, after_failed_log, send_log,
}

module _ (a : AuthDs) (uc : UserControl) {Tree : Type 0} (p : ParsedInputJson Tree)
    (conn : UserData) (dev : String) where
  abbrev www_name : Option String → String
  www_name none = ""
  www_name (some name) = name <> "/write"

  -- The target of the request as AuthDS is told it.
  abbrev pub told_target : TypeOfIdent → Option String → String
  told_target permission_www target = www_name target
  told_target simple none = ""
  told_target simple (some name) = name

  -- The four parts of `log_data` that come out of the permission data.
  abbrev parts : TypeOfIdent → List String → List String
  parts toi perm =
      if is_www toi
      then item perm 0 ∷ item perm 2 ∷ item perm 4 ∷ item perm 3 ∷ []
      else item perm 3 ∷ item perm 0 ∷ item perm 2 ∷ item perm 1 ∷ []

  abbrev data_in : Result (List String) → List String
  data_in (ok perm) = perm
  data_in (runtime_error text) = []
  data_in other_exception = []

  abbrev permission_data : TypeOfIdent → Option String → String → Result (List String)
  permission_data toi target text =
      if is_www toi
      then ok (conn.login ∷ conn.password ∷ dev ∷ www_name target ∷ conn.ip_client ∷ [])
      else (elim target [
        | none ↦ runtime_error text
        | some name ↦ ok (dev ∷ name ∷ conn.ip_client ∷ conn.login ∷ [])
      ])

  parts_told :
      (toi : TypeOfIdent) (target : Option String) (text : String) (perm : List String)
      → permission_data toi target text ≡ ok perm
      → parts toi perm ≡ conn.login ∷ dev ∷ conn.ip_client ∷ told_target toi target ∷ []
  unfolding item
  parts_told permission_www target text perm h = rw (sym (ap data_in h)) refl
  parts_told simple (some name) text perm h = rw (sym (ap data_in h)) refl
  parts_told simple none text perm h = cc h

  -- What a request that `getPermissionData` accepts is logged as, for either way of
  -- authentication: the time in 32 bits, the login, the device, the client's address, the target as it is
  -- sent to AuthDS, the request's text, the status and whether a group was asked.
  pub log_data-get_permission_data :
      (perm : List String) (now : ℕ) (json : String) (is_group status : Bool)
      → get_permission_data uc p conn dev ≡ ok perm
      → log_data a uc now perm json is_group status
        ≡ show_nat (now % 2 ^ 32)
          ∷ conn.login
          ∷ dev
          ∷ conn.ip_client
          ∷ told_target uc.toi (permission_target uc p)
          ∷ json
          ∷ bit_text status
          ∷ bit_text is_group
          ∷ []
  unfolding log_data get_permission_data
  log_data-get_permission_data perm now json is_group status h =
      ap (λ l. show_nat (now % 2 ^ 32) ∷ (l ++ json ∷ bit_text status ∷ bit_text is_group ∷ []))
        (parts_told uc.toi (permission_target uc p) _ perm h)

  after_failed_log-state :
      (errors : List String) (out : Option Other × a.World)
      → (after_failed_log a uc p dev true errors out).1 ≡ out.1
  unfolding after_failed_log
  after_failed_log-state errors (none, w) = refl
  after_failed_log-state errors (some what, w) = refl

  -- A group request that AuthDS refuses under `PERMISSION_WWW`, with the log switched on, is
  -- logged with the status 1 and as no group request: the two are passed the other way round.
  pub check_permission_refused_log :
      (perm errors : List String) (w w1 w2 : a.World)
      → uc.toi ≡ permission_www
      → uc.is_log_active ≡ true
      → get_permission_data uc p conn dev ≡ ok perm
      → a.connect uc.auth_ds w ≡ (none, w1)
      → a.command_inout "check_permissions_www" perm w1 ≡ (dev_failed errors, w2)
      → (check_permission a uc p dev true conn w).1
        ≡ (a.command_inout uc.command_name_for_log
            (show_nat (a.time w2 % 2 ^ 32)
              ∷ conn.login
              ∷ dev
              ∷ conn.ip_client
              ∷ told_target permission_www (permission_target uc p)
              ∷ p.input_json
              ∷ "1"
              ∷ "0"
              ∷ [])
            w2).1
  unfolding check_permission after_data after_connect after_command send_log
  check_permission_refused_log perm errors w w1 w2 www on found up refused =
      let logged = log_data-get_permission_data perm (a.time w2) p.input_json false true found in
      simp (found, up, www, refused, on, after_failed_log-state, logged)
