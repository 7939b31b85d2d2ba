-- ===== src/Session/Calm.antt =====
-- src/wstangoproc_common/WSTangoConn.cpp: what leaves the requests that ask AuthDS, when its commands
-- answer or end in a `DevFailed`.
use web_socket_ds.Base.{
  ◌≡◌, refl, String, Bool, true, false, not, ◌&&◌, ◌||◌, List, Option, if◌then◌else◌, if_holds,
  get_or, nonempty, is_empty, str_beq,
}
use web_socket_ds.Wire.Kinds.{is_change_user, is_user_check_status}
use web_socket_ds.Request.{ParsedInputJson, value_at}
use web_socket_ds.UserControl.{
  AuthDs, Result, ok, runtime_error, other_exception, UserData, is_www, check_user,
}
use web_socket_ds.UserControl.Permission.{is_ok, escapes}
use web_socket_ds.UserControl.Calm.{is_other, check_user_safe, check_permission_safe}
use web_socket_ds.Session.Options.{WsTangoConn}
use web_socket_ds.Session.Users.{
  check_permission_for_request, after_change, change_user_to, send_request_for_auth, what_of,
  common_requsts,
}

what_of_safe : (r : Result String) → is_other r ≡ false → is_ok (what_of r) ≡ true
what_of_safe (ok mess) h = refl
what_of_safe (runtime_error what) h = refl
what_of_safe other_exception h = cc h

module _ (a : AuthDs)
    (calm : (name : String) (args : List String) (w : a.World)
      → escapes (a.command_inout name args w).0 ≡ false)
    (s : WsTangoConn) {Tree : Type 0} (p : ParsedInputJson Tree) (conn : UserData) where
  pub check_permission_for_request_safe :
      (dev : String) (is_group : Bool) (w : a.World)
      → is_other (check_permission_for_request a s p conn dev is_group w).0 ≡ false
  unfolding check_permission_for_request
  check_permission_for_request_safe dev is_group w =
      if_holds (λ (r : Result String × a.World). is_other r.0 ≡ false) (not conn.user_check_status)
        _ _ (λ unchecked. refl) (λ checked. check_permission_safe a calm s.uc p dev is_group conn w)

  after_change_safe :
      (login pass : String) (out : Result (Unit {0}) × a.World)
      → is_other out.0 ≡ false
      → is_other (after_change a s p conn login pass out).0 ≡ false
  unfolding after_change
  after_change_safe login pass (ok u, w) h = refl
  after_change_safe login pass (runtime_error what, w) h = refl
  after_change_safe login pass (other_exception, w) h = h

  change_user_to_safe :
      (login pass : String) (w : a.World)
      → is_other (change_user_to a s p conn login pass w).0 ≡ false
  unfolding change_user_to
  change_user_to_safe login pass w =
      let Safe = λ (r : Result String × (UserData × a.World)). is_other r.0 ≡ false in
      if_holds Safe (is_empty login || is_empty pass) _ _ (λ h. refl)
        (λ h.
          if_holds Safe
            (nonempty conn.login && (str_beq conn.login login && conn.user_check_status)) _ _
            (λ h'. refl)
            (λ h'.
              let r =
                (if is_www s.type_of_ident then (ok tt, w) else check_user a s.uc login pass w) in
              after_change_safe login pass r (
                if_holds (λ (o : Result (Unit {0}) × a.World). is_other o.0 ≡ false)
                  (is_www s.type_of_ident) (ok tt, w) (check_user a s.uc login pass w) (λ www. refl)
                  (λ simple_ident. check_user_safe a calm s.uc login pass w))))

  pub common_requsts_safe :
      (w : a.World) → is_ok (get_or (common_requsts a s p conn w).0 (ok "")) ≡ true
  unfolding common_requsts send_request_for_auth
  common_requsts_safe w =
      let Safe =
        λ (r : Option (Result String) × (UserData × a.World)). is_ok (get_or r.0 (ok "")) ≡ true in
      if_holds Safe (is_user_check_status p.type_req) _ _ (λ h. refl)
        (λ h.
          if_holds Safe (is_change_user p.type_req) _ _
            (λ h'.
              let r = change_user_to a s p conn (value_at p "login") (value_at p "password") w in
              what_of_safe r.0 (change_user_to_safe (value_at p "login") (value_at p "password") w))
            (λ h'. refl))
