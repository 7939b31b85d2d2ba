-- ===== src/Session/Access.antt =====
-- src/wstangoproc_common/WSTangoConn.cpp and WSThread.cpp: a request is passed on only for a user
-- whom AuthDS has accepted.
use web_socket_ds.Base.{
  ◌≡◌, refl, String, Bool, true, false, not, ◌&&◌, ◌||◌, List, [], ◌∷◌, Option, if◌then◌else◌,
  if_holds, arith, nonempty, is_empty, str_beq, ◌⊎◌, inl, inr,
}
use web_socket_ds.Base.Dict.{Dict, string_eq}
use web_socket_ds.Wire.Kinds.{is_change_user, is_user_check_status}
use web_socket_ds.Request.{ParsedInputJson, value_at}
use web_socket_ds.UserControl.{
  AuthDs, Result, ok, runtime_error, other_exception, UserData, is_www, check_user,
  check_permission,
}
use web_socket_ds.UserControl.Permission.{is_ok, granted, check_permission-granted}
use web_socket_ds.Session.Options.{WsTangoConn}
use web_socket_ds.Session.Users.{
  get_connection_data, after_check_user, check_user_of, on_open, check_permission_for_request,
  not_authenticated, after_change, change_user_to, send_request_for_auth, common_requsts,
}

passes_guard :
    {A W : Type 0} (b : Bool) (x y : Result A × W)
    → is_ok x.0 ≡ false
    → is_ok (if not b then x else y).0 ≡ true
    → (b ≡ true) × (is_ok y.0 ≡ true)
passes_guard true x y no_x h = (refl, h)
passes_guard false x y no_x h = cc (no_x, h)

-- The users of a connection, request after request: each request comes with the state of AuthDS
-- at its time.
unfoldable pub after_requests :
    {Tree : Type 0} (a : AuthDs) (s : WsTangoConn)
    → List (ParsedInputJson Tree × a.World)
    → UserData
    → UserData
after_requests a s [] conn = conn
after_requests a s ((p, w) ∷ rest) conn = after_requests a s rest (common_requsts a s p conn w).1.0

new_status :
    (s : WsTangoConn) (parsed_get : Dict String String)
    → is_www s.type_of_ident ≡ false
    → (get_connection_data s false parsed_get).user_check_status ≡ false
unfolding get_connection_data
new_status s parsed_get simple_ident = ground arith

module _ (a : AuthDs) (s : WsTangoConn) where
  -- A request that `checkPermissionForRequest` lets through comes from a user who is
  -- authenticated, and AuthDS grants it.
  pub check_permission_for_request-granted :
      {Tree : Type 0} (p : ParsedInputJson Tree) (conn : UserData) (device_name : String)
      (is_group : Bool) (w : a.World)
      → is_ok (check_permission_for_request a s p conn device_name is_group w).0 ≡ true
      → (conn.user_check_status ≡ true) × (granted a s.uc p device_name conn w ≡ true)
  unfolding check_permission_for_request
  check_permission_for_request-granted p conn device_name is_group w h =
      let (checked, passed) =
        passes_guard conn.user_check_status
          (runtime_error (not_authenticated a s p conn device_name), w)
          (check_permission a s.uc p device_name is_group conn w) refl h in
      (checked, check_permission-granted a s.uc p device_name is_group conn w passed)

  after_change_refused :
      {Tree : Type 0} (p : ParsedInputJson Tree) (conn : UserData) (login pass : String)
      (out : Result (Unit {0}) × a.World)
      → is_ok out.0 ≡ false
      → (after_change a s p conn login pass out).1.0 ≡ conn
  unfolding after_change
  after_change_refused p conn login pass (ok u, w) h = cc h
  after_change_refused p conn login pass (runtime_error what, w) h = refl
  after_change_refused p conn login pass (other_exception, w) h = refl

  change_user_to_refused :
      {Tree : Type 0} (p : ParsedInputJson Tree) (conn : UserData) (login pass : String)
      (w : a.World)
      → is_www s.type_of_ident ≡ false
      → is_ok (check_user a s.uc login pass w).0 ≡ false
      → (change_user_to a s p conn login pass w).1.0 ≡ conn
  unfolding change_user_to
  change_user_to_refused p conn login pass w simple_ident refused =
      if_holds (λ (r : Result String × (UserData × a.World)). r.1.0 ≡ conn)
        (is_empty login || is_empty pass) _ _ (λ h. refl)
        (λ h.
          if_holds (λ (r : Result String × (UserData × a.World)). r.1.0 ≡ conn)
            (nonempty conn.login && (str_beq conn.login login && conn.user_check_status)) _ _
            (λ h'. refl)
            (λ h'.
              rw simple_ident
                (after_change_refused p conn login pass (check_user a s.uc login pass w) refused)))

  -- With simple authentication, whatever a connection asks of `commonRequsts`, its user stays the
  -- one it was, and as authenticated as before, when AuthDS does not accept the login and the
  -- password of the request.
  pub common_requsts_refused :
      {Tree : Type 0} (p : ParsedInputJson Tree) (conn : UserData) (w : a.World)
      → is_www s.type_of_ident ≡ false
      → is_ok (check_user a s.uc (value_at p "login") (value_at p "password") w).0 ≡ false
      → (common_requsts a s p conn w).1.0 ≡ conn
  unfolding common_requsts send_request_for_auth
  common_requsts_refused p conn w simple_ident refused =
      let kept =
        change_user_to_refused p conn (value_at p "login") (value_at p "password") w simple_ident
          refused in
      if_holds (λ (r : Option (Result String) × (UserData × a.World)). r.1.0 ≡ conn)
        (is_user_check_status p.type_req) _ _ (λ h. refl)
        (λ h.
          if_holds (λ (r : Option (Result String) × (UserData × a.World)). r.1.0 ≡ conn)
            (is_change_user p.type_req) _ _ (λ h'. kept) (λ h'. refl))

  -- What stays of `Accepted` over the requests of a connection.
  module _ (Accepted : String → String → Type 0) where
    -- The user is one of those accepted, when the status says so.
    abbrev pub Authentic : UserData → Type 0
    Authentic conn = (conn.user_check_status ≡ false) ⊎ Accepted conn.login conn.password

    module _
        (accepts : (login pass : String) (w : a.World)
          → is_ok (check_user a s.uc login pass w).0 ≡ true
          → Accepted login pass)
        (simple_ident : is_www s.type_of_ident ≡ false) where
      after_change-Authentic :
          {Tree : Type 0} (p : ParsedInputJson Tree) (conn : UserData) (login pass : String)
          (out : Result (Unit {0}) × a.World)
          → (is_ok out.0 ≡ true → Accepted login pass)
          → Authentic conn
          → Authentic (after_change a s p conn login pass out).1.0
      unfolding after_change
      after_change-Authentic p conn login pass (ok u, w) h k = inr (h refl)
      after_change-Authentic p conn login pass (runtime_error what, w) h k = k
      after_change-Authentic p conn login pass (other_exception, w) h k = k

      change_user_to-Authentic :
          {Tree : Type 0} (p : ParsedInputJson Tree) (conn : UserData) (login pass : String)
          (w : a.World)
          → Authentic conn
          → Authentic (change_user_to a s p conn login pass w).1.0
      unfolding change_user_to
      change_user_to-Authentic p conn login pass w k =
          if_holds (λ (r : Result String × (UserData × a.World)). Authentic r.1.0)
            (is_empty login || is_empty pass) _ _ (λ h. k)
            (λ h.
              if_holds (λ (r : Result String × (UserData × a.World)). Authentic r.1.0)
                (nonempty conn.login && (str_beq conn.login login && conn.user_check_status)) _ _
                (λ h'. k)
                (λ h'. rw simple_ident (
                  after_change-Authentic p conn login pass (check_user a s.uc login pass w)
                    (accepts login pass w) k)))

      common_requsts-Authentic :
          {Tree : Type 0} (p : ParsedInputJson Tree) (conn : UserData) (w : a.World)
          → Authentic conn
          → Authentic (common_requsts a s p conn w).1.0
      unfolding common_requsts send_request_for_auth
      common_requsts-Authentic p conn w k =
          let changed =
            change_user_to-Authentic p conn (value_at p "login") (value_at p "password") w k in
          if_holds (λ (r : Option (Result String) × (UserData × a.World)). Authentic r.1.0)
            (is_user_check_status p.type_req) _ _ (λ h. k)
            (λ h.
              if_holds (λ (r : Option (Result String) × (UserData × a.World)). Authentic r.1.0)
                (is_change_user p.type_req) _ _ (λ h'. changed) (λ h'. k))

      after_check_user-Authentic :
          (conn : UserData) (out : Result (Unit {0}) × a.World)
          → (is_ok out.0 ≡ true → Accepted conn.login conn.password)
          → Authentic conn
          → Authentic (after_check_user a s conn out).1.0
      unfolding after_check_user
      after_check_user-Authentic conn (ok u, w) h k = inr (h refl)
      after_check_user-Authentic conn (runtime_error what, w) h k = k
      after_check_user-Authentic conn (other_exception, w) h k = k

      check_user_of-Authentic :
          (conn : UserData) (w : a.World)
          → Authentic conn
          → Authentic (check_user_of a s conn w).1.0
      unfolding check_user_of
      check_user_of-Authentic conn w k = rw simple_ident (
          if_holds (λ (r : Result (Unit {0}) × (UserData × a.World)). Authentic r.1.0)
            (nonempty conn.login) _ _
            (λ h.
              after_check_user-Authentic conn (check_user a s.uc conn.login conn.password w)
                (accepts conn.login conn.password w) k)
            (λ h. inl refl))

      -- With simple authentication, and where the memory of a new `ConnectionData` holds false: a
      -- connection that has been opened with any parameters, and has then sent any requests, has
      -- the status of an authenticated user only for a login and a password that AuthDS has
      -- accepted.
      pub after_requests-Authentic :
          {Tree : Type 0} (ps : List (ParsedInputJson Tree × a.World))
          (parsed_get : Dict String String) (w : a.World)
          → Authentic (after_requests a s ps (on_open a s false parsed_get w).1.0)
      unfolding on_open after_requests
      after_requests-Authentic {Tree = Tree} ps parsed_get w =
          from ps (on_open a s false parsed_get w).1.0 (
            check_user_of-Authentic (get_connection_data s false parsed_get) w
              (inl (new_status s parsed_get simple_ident)))
        where
          from :
              (ps : List (ParsedInputJson Tree × a.World)) (conn : UserData)
              → Authentic conn
              → Authentic (after_requests a s ps conn)
          from [] conn k = k
          from ((p, w) ∷ rest) conn k =
              from rest (common_requsts a s p conn w).1.0 (common_requsts-Authentic p conn w k)
